-- ===== src/CString.antt =====
-- kernel/include/common/util.h: strings. A string is the list of its characters before the
-- terminator, each a code from 1 to 255 (a `char` of this machine is unsigned), and an `int` is the
-- 32-bit word of its two's complement.
mod Tests
pub mod Compare
use chcore_lab_v.Base.{ℕ, zero, suc, ◌+◌, ◌-◌, ◌%◌, ◌^◌, List, [], ◌∷◌, ◌==◌, if◌then◌else◌}

-- The difference of two characters.
abbrev pub char_diff : ℕ → ℕ → ℕ
char_diff x y = (x + 2 ^ 32 - y) % 2 ^ 32

unfoldable pub strcmp : List ℕ → List ℕ → ℕ
strcmp [] [] = 0
strcmp [] (y ∷ dst) = 2 ^ 32 - 1
strcmp (x ∷ src) [] = 1
strcmp (x ∷ src) (y ∷ dst) = if x == y then strcmp src dst else char_diff x y

unfoldable pub strncmp : List ℕ → List ℕ → ℕ → ℕ
strncmp src dst zero = 0
strncmp [] [] (suc size) = char_diff 0 0
strncmp [] (y ∷ dst) (suc size) = char_diff 0 y
strncmp (x ∷ src) [] (suc size) = char_diff x 0
strncmp (x ∷ src) (y ∷ dst) (suc size) = if x == y then strncmp src dst size else char_diff x y

unfoldable pub strlen : List ℕ → ℕ
strlen [] = 0
strlen (x ∷ src) = strlen src + 1
