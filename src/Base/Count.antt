-- ===== src/Base/Count.antt =====
-- How many numbers below a bound pass a test.
use Prim.Native.Nat.{ℕ, zero, suc, ◌+◌, ◌≤◌, ◌<◌}
use mathlib.Core.Path.{◌≡◌, refl}
use mathlib.Core.Logic.{inl, inr}
use mathlib.Core.Bool.{true, Bool, false, ◌&&◌, ◌||◌}
use native.Mathlib.Omega.{arith}
use native.Mathlib.Decide.{dec_lt}
use chcore_lab_v.Base.Tests.{ltb, leb, if◌then◌else◌, Bool-cases}

pub count_below : ℕ → (ℕ → Bool) → ℕ
count_below zero p = 0
count_below (suc n) p = count_below n p + (if p n then 1 else 0)

pub count_below-le : (n : ℕ) (p : ℕ → Bool) → count_below n p ≤ n
unfolding count_below
count_below-le zero p = omega arith
count_below-le (suc n) p = ground (arith, count_below-le n p)

pub count_below_congr :
    (n : ℕ) (p q : ℕ → Bool) → ((i : ℕ) → i < n → p i ≡ q i) → count_below n p ≡ count_below n q
unfolding count_below
count_below_congr zero p q h = refl
count_below_congr (suc n) p q h =
    ground (arith, count_below_congr n p q (λ i lt. h i (omega arith)), h n (omega arith))

pub count_below-or :
    (n : ℕ) (p q : ℕ → Bool)
    → ((i : ℕ) → i < n → (p i && q i) ≡ false)
    → count_below n (λ i. p i || q i) ≡ count_below n p + count_below n q
unfolding count_below
count_below-or zero p q h = refl
count_below-or (suc n) p q h =
    ground (arith, count_below-or n p q (λ i lt. h i (omega arith)), h n (omega arith))

pub count_below-none :
    (n : ℕ) (p : ℕ → Bool) → ((i : ℕ) → i < n → p i ≡ false) → count_below n p ≡ 0
unfolding count_below
count_below-none zero p h = refl
count_below-none (suc n) p h =
    ground (arith, count_below-none n p (λ i lt. h i (omega arith)), h n (omega arith))

-- Counting an interval that lies below the bound gives its length.
pub count_below-interval :
    (n x m : ℕ) → x + m ≤ n → count_below n (λ i. leb x i && ltb i (x + m)) ≡ m
unfolding count_below
count_below-interval zero x m h = omega arith
count_below-interval (suc n) x zero h =
    count_below-none (suc n) (λ i. leb x i && ltb i (x + 0)) (λ i lt. ground arith)
count_below-interval (suc n) x (suc m) h = elim (dec_lt n (x + suc m)) [
  | yes last ↦
      let below = count_below-interval n x m (omega arith) in
      let same =
        count_below_congr n (λ i. leb x i && ltb i (x + suc m)) (λ i. leb x i && ltb i (x + m))
          (λ i lt. ground arith) in
      ground (arith, below, same)
  | no inside ↦ ground (arith, count_below-interval n x (suc m) (omega arith))
]

pub count_below-all : (n : ℕ) (p : ℕ → Bool) → ((i : ℕ) → i < n → p i ≡ true) → count_below n p ≡ n
unfolding count_below
count_below-all zero p h = refl
count_below-all (suc n) p h =
    ground (arith, count_below-all n p (λ i lt. h i (omega arith)), h n (omega arith))

pub count_below_find :
    (n : ℕ) (p : ℕ → Bool) → 0 < count_below n p → (i : ℕ) × (i < n) × (p i ≡ true)
unfolding count_below
count_below_find zero p h = absurd (omega arith)
count_below_find (suc n) p h = elim (Bool-cases (p n)) [
  | inl here ↦ (n, omega arith, here)
  | inr other ↦
      let (i, lt, found) = count_below_find n p (ground (arith, other)) in (i, omega arith, found)
]
