-- ===== src/Buddy/Weight.antt =====
-- The pages that the free lists of buddy.c account for.
use chcore_lab_v.Base.{ℕ, zero, suc, ◌+◌, ◌*◌, ◌^◌, ◌<◌, ◌≡◌, refl, update, arith, dec_lt}
use chcore_lab_v.Buddy.{Pool}

-- The sum of `f k * 2 ^ k` over the orders `k` below `n`.
unfoldable pub weight_below : ℕ → (ℕ → ℕ) → ℕ
weight_below zero f = 0
weight_below (suc n) f = weight_below n f + f n * 2 ^ n

abbrev pub free_pages : Pool → ℕ
free_pages s = weight_below 14 s.nr_free

weight_below-update_above :
    (n k v : ℕ) (f : ℕ → ℕ) → n < suc k → weight_below n (update f k v) ≡ weight_below n f
unfolding weight_below
weight_below-update_above zero k v f h = refl
weight_below-update_above (suc n) k v f h =
    ground (arith, weight_below-update_above n k v f (omega arith))

-- Counting one more or one fewer at one order moves the sum by its power of two.
pub weight_below-update :
    (n k v : ℕ) (f : ℕ → ℕ)
    → k < n
    → weight_below n (update f k v) + f k * 2 ^ k ≡ weight_below n f + v * 2 ^ k
unfolding weight_below
weight_below-update zero k v f h = absurd (omega arith)
weight_below-update (suc n) k v f h = elim (dec_lt k n) [
  | yes below ↦ ground (arith, weight_below-update n k v f below)
  | no other ↦
      let e : k ≡ n = omega arith in ground (arith, weight_below-update_above n k v f (omega arith))
]
