-- ===== src/Base/Lists.antt =====
-- Lists measured and searched with native numbers.
use Prim.Native.Nat.{ℕ, zero, suc, ◌+◌, ◌<◌, ◌≤◌}
use mathlib.Core.Path.{◌≡◌, refl, ap}
use mathlib.Core.Logic.{◌≢◌, inl, inr}
use mathlib.Core.Bool.{Bool, true, false, ◌||◌}
use mathlib.Core.List.{List, [], ◌∷◌, ◌++◌}
use native.Mathlib.Omega.{arith}
use chcore_lab_v.Base.Tests.{◌==◌, if◌then◌else◌, Bool-cases}

module _ {ℓ} {A : Type ℓ} where
  abbrev pub length : List A → ℕ
  length [] = 0
  length (_ ∷ xs) = suc (length xs)

  pub length-append : (xs ys : List A) → length (xs ++ ys) ≡ length xs + length ys
  length-append [] ys = omega arith
  length-append (x ∷ xs) ys = omega (arith, length-append xs ys)

abbrev pub contains : ℕ → List ℕ → Bool
contains a [] = false
contains a (x ∷ xs) = (a == x) || contains a xs

-- Drops the first occurrence.
abbrev pub erase : ℕ → List ℕ → List ℕ
erase a [] = []
erase a (x ∷ xs) = if a == x then xs else x ∷ erase a xs

abbrev pub IsDistinct : List ℕ → Type 0
IsDistinct [] = Unit
IsDistinct (x ∷ xs) = (contains x xs ≡ false) × IsDistinct xs

pub contains-erase_ne : (a b : ℕ) (xs : List ℕ) → a ≢ b → contains a (erase b xs) ≡ contains a xs
contains-erase_ne a b [] h = refl
contains-erase_ne a b (x ∷ xs) h = ground (arith, contains-erase_ne a b xs)

pub contains-erase_self : (a : ℕ) (xs : List ℕ) → IsDistinct xs → contains a (erase a xs) ≡ false
contains-erase_self a [] h = refl
contains-erase_self a (x ∷ xs) h = ground (arith, contains-erase_self a xs)

pub IsDistinct-erase : (a : ℕ) (xs : List ℕ) → IsDistinct xs → IsDistinct (erase a xs)
IsDistinct-erase a [] h = tt
IsDistinct-erase a (x ∷ xs) h = ground (arith, IsDistinct-erase a xs, contains-erase_ne x a xs)

pub length-erase :
    (a : ℕ) (xs : List ℕ) → contains a xs ≡ true → length (erase a xs) + 1 ≡ length xs
length-erase a [] h = ground arith
length-erase a (x ∷ xs) h = ground (arith, length-erase a xs)

pub erase_of_not-contains : (a : ℕ) (xs : List ℕ) → contains a xs ≡ false → erase a xs ≡ xs
erase_of_not-contains a [] h = refl
erase_of_not-contains a (x ∷ xs) h = ground (arith, erase_of_not-contains a xs)

pub contains_head : (x : ℕ) (xs : List ℕ) → contains x (x ∷ xs) ≡ true
contains_head x xs = ground arith

pub length_pos_of_contains : (a : ℕ) (xs : List ℕ) → contains a xs ≡ true → 0 < length xs
length_pos_of_contains a [] h = ground arith
length_pos_of_contains a (x ∷ xs) h = omega arith

below_erase :
    (n : ℕ) (xs : List ℕ)
    → IsDistinct xs
    → ((a : ℕ) → contains a xs ≡ true → a < suc n)
    → (a : ℕ) → contains a (erase n xs) ≡ true
    → a < n
below_erase n xs d below a h =
    ground (arith, below a, contains-erase_self a xs d, contains-erase_ne a n xs)

-- The pigeonhole principle: distinct numbers below `n` are at most `n` many.
pub length-le_of_IsDistinct :
    (n : ℕ) (xs : List ℕ) → IsDistinct xs → ((a : ℕ) → contains a xs ≡ true → a < n) → length xs ≤ n
length-le_of_IsDistinct zero [] d below = omega arith
length-le_of_IsDistinct zero (x ∷ xs) d below = absurd (omega (arith, below x (contains_head x xs)))
length-le_of_IsDistinct (suc n) xs d below =
    let rest : length (erase n xs) ≤ n =
      length-le_of_IsDistinct n (erase n xs) (IsDistinct-erase n xs d) (below_erase n xs d below) in
    elim (Bool-cases (contains n xs)) [
      | inl here ↦ omega (arith, length-erase n xs here)
      | inr gone ↦ omega (arith, ap length (erase_of_not-contains n xs gone))
    ]
