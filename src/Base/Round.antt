-- ===== src/Base/Round.antt =====
-- ROUND_UP at the page size.
use Prim.Native.Nat.{ℕ, ◌+◌, ◌*◌, ◌/◌, ◌^◌, ◌<◌, bit_and}
use mathlib.Core.Path.{◌≡◌, ap, ◌∙◌}
use native.Mathlib.Omega.{arith}
use chcore_lab_v.Base.Word.{add64, sub64, round_up}
use chcore_lab_v.Base.Bits.{bit_and-not_mask}

pub round_up_page : (x : ℕ) → x + 4096 < 2 ^ 64 → round_up x 4096 ≡ (x + 4095) / 4096 * 4096
unfolding round_up
round_up_page x h =
    ap (λ (t : ℕ). bit_and t 0xfffffffffffff000) (the_sum)
    ∙ bit_and-not_mask 12 52 (x + 4095) (omega arith)
  where
    the_sum : sub64 (add64 x 4096) 1 ≡ x + 4095
    the_sum = omega arith
