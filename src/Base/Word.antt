-- ===== src/Base/Word.antt =====
-- Arithmetic of the fixed-width unsigned integers: every result wraps.
use Prim.Native.Nat.{ℕ, ◌+◌, ◌-◌, ◌*◌, ◌/◌, ◌%◌, ◌^◌, bit_and}

-- `a + b`, `a - b` and `a * b` on `u64`.
abbrev pub add64 : ℕ → ℕ → ℕ
add64 a b = (a + b) % 2 ^ 64

abbrev pub sub64 : ℕ → ℕ → ℕ
sub64 a b = (a + 2 ^ 64 - b) % 2 ^ 64

abbrev pub mul64 : ℕ → ℕ → ℕ
mul64 a b = a * b % 2 ^ 64

-- `x >> k` and `x << k`, and `~x`.
abbrev pub shr : ℕ → ℕ → ℕ
shr x k = x / 2 ^ k

abbrev pub shl64 : ℕ → ℕ → ℕ
shl64 x k = x * 2 ^ k % 2 ^ 64

abbrev pub not64 : ℕ → ℕ
not64 x = 2 ^ 64 - 1 - x

-- ROUND_UP(x, n) of common/macro.h.
unfoldable pub round_up : ℕ → ℕ → ℕ
round_up x n = bit_and (sub64 (add64 x n) 1) (not64 (sub64 n 1))

-- A bit field of `width` bits from bit `lo` on: its value, and the word with the field replaced.
abbrev pub get_field : ℕ → ℕ → ℕ → ℕ
get_field lo width w = w / 2 ^ lo % 2 ^ width

unfoldable pub set_field : ℕ → ℕ → ℕ → ℕ → ℕ
set_field lo width v w = w - get_field lo width w * 2 ^ lo + v % 2 ^ width * 2 ^ lo
