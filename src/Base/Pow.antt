-- ===== src/Base/Pow.antt =====
-- Powers of two, and numbers aligned to them.
use Prim.Native.Nat.{ℕ, zero, suc, ◌+◌, ◌-◌, ◌*◌, ◌/◌, ◌%◌, ◌^◌, ◌≤◌, ◌<◌}
use mathlib.Core.Path.{◌≡◌, ap, sym, ◌∙◌, subst}
use native.Mathlib.Nat.{mod-lt, pow-suc, one-le-pow, pow-le-pow_right}
use native.Mathlib.Nat.{
  zero-add, suc-add, mul_assoc, div-eq_of_eq-mul_left, div-eq_of_lt-le, div-div-eq-div-mul,
  mod-add-div', mul_comm,
}
use native.Mathlib.Omega.{arith}

pub two-pow-suc : (k : ℕ) → 2 ^ suc k ≡ 2 * 2 ^ k
two-pow-suc k = omega (arith, pow-suc 2 k)

pub two-pow-pos : (k : ℕ) → 0 < 2 ^ k
two-pow-pos k = one-le-pow k 2 (omega arith)

pub two-pow-add : (j k : ℕ) → 2 ^ (j + k) ≡ 2 ^ j * 2 ^ k
two-pow-add zero k = ap (λ (t : ℕ). 2 ^ t) (zero-add k) ∙ omega arith
two-pow-add (suc j) k =
    ap (λ (t : ℕ). 2 ^ t) (suc-add j k)
    ∙ omega (
      arith,
      two-pow-suc (j + k),
      two-pow-suc j,
      two-pow-add j k,
      mul_assoc 2 (2 ^ j) (2 ^ k),
      ap (λ (t : ℕ). t * 2 ^ k) (two-pow-suc j),
    )

-- What lies in the same block of size `2 ^ j` lies in the same larger block.
pub div-two-pow_mono : (j d a b : ℕ) → a / 2 ^ j ≡ b / 2 ^ j → a / 2 ^ (j + d) ≡ b / 2 ^ (j + d)
div-two-pow_mono j d a b h = rw (
  two-pow-add j d,
  ← div-div-eq-div-mul a (2 ^ j) (2 ^ d),
  ← div-div-eq-div-mul b (2 ^ j) (2 ^ d),
  h,
)

-- `a` is a multiple of `2 ^ k`.
abbrev pub IsAligned : ℕ → ℕ → Type 0
IsAligned k a = a ≡ a / 2 ^ k * 2 ^ k

pub IsAligned-of_eq : (k q a : ℕ) → a ≡ q * 2 ^ k → IsAligned k a
IsAligned-of_eq k q a e =
    e ∙ ap (λ (t : ℕ). t * 2 ^ k) (sym (div-eq_of_eq-mul_left (two-pow-pos k) e))

-- An aligned number starts its block.
pub block_of_IsAligned : (k a i : ℕ) → IsAligned k a → a ≤ i → i < a + 2 ^ k → i / 2 ^ k ≡ a / 2 ^ k
block_of_IsAligned k a i al lo hi = div-eq_of_lt-le (2 ^ k) (omega arith) (omega arith)

-- The members of the block that an aligned number starts.
pub in_block_of_IsAligned :
    (k a i : ℕ) → IsAligned k a → i / 2 ^ k ≡ a / 2 ^ k → (a ≤ i) × (i < a + 2 ^ k)
in_block_of_IsAligned k a i al e =
    omega (arith, ap (λ (t : ℕ). t * 2 ^ k) e, mod-add-div' i (2 ^ k), mod-lt i (two-pow-pos k))

pub IsAligned-of_le : (j d a : ℕ) → IsAligned (j + d) a → IsAligned j a
IsAligned-of_le j d a al = IsAligned-of_eq j (a / 2 ^ (j + d) * 2 ^ d) a (
    al
    ∙ ap (λ (t : ℕ). a / 2 ^ (j + d) * t) (two-pow-add j d ∙ mul_comm (2 ^ j) (2 ^ d))
    ∙ sym (mul_assoc (a / 2 ^ (j + d)) (2 ^ d) (2 ^ j)))

-- A number that is aligned to `2 ^ k` with an even quotient is aligned to the next power.
pub IsAligned-suc : (k a : ℕ) → IsAligned k a → a / 2 ^ k % 2 ≡ 0 → IsAligned (suc k) a
IsAligned-suc k a al even = IsAligned-of_eq (suc k) (a / 2 ^ k / 2) a (
    al
    ∙ ap (λ (t : ℕ). t * 2 ^ k) half
    ∙ mul_assoc (a / 2 ^ k / 2) 2 (2 ^ k)
    ∙ ap (λ (t : ℕ). a / 2 ^ k / 2 * t) (sym (two-pow-suc k)))
  where
    half : a / 2 ^ k ≡ a / 2 ^ k / 2 * 2
    half = omega arith

pub quotient_even_of_IsAligned : (k a : ℕ) → IsAligned (suc k) a → a / 2 ^ k % 2 ≡ 0
quotient_even_of_IsAligned k a al = omega (arith, div-eq_of_eq-mul_left (two-pow-pos k) as_multiple)
  where
    as_multiple : a ≡ a / 2 ^ suc k * 2 * 2 ^ k
    as_multiple =
        al
        ∙ ap (λ (t : ℕ). a / 2 ^ suc k * t) (two-pow-suc k)
        ∙ sym (mul_assoc (a / 2 ^ suc k) 2 (2 ^ k))

pub two-pow_mono : {j k : ℕ} → j ≤ k → 2 ^ j ≤ 2 ^ k
two-pow_mono h = pow-le-pow_right (omega arith) h

pub div-two-pow-le : (j m a b : ℕ) → j ≤ m → a / 2 ^ j ≡ b / 2 ^ j → a / 2 ^ m ≡ b / 2 ^ m
div-two-pow-le j m a b h e =
    subst (λ n. a / 2 ^ n ≡ b / 2 ^ n) (omega arith) (div-two-pow_mono j (m - j) a b e)

pub IsAligned-down : (j m a : ℕ) → j ≤ m → IsAligned m a → IsAligned j a
IsAligned-down j m a h al =
    IsAligned-of_le j (m - j) a (subst (λ n. IsAligned n a) (omega arith) al)

-- Two aligned numbers in one block are the same.
pub eq_of_same_block : (k a b : ℕ) → IsAligned k a → IsAligned k b → a / 2 ^ k ≡ b / 2 ^ k → a ≡ b
eq_of_same_block k a b al bl e = al ∙ ap (λ (t : ℕ). t * 2 ^ k) e ∙ sym bl

-- The upper half of an aligned block of `2 ^ (k + 1)` is not aligned to it.
pub half_unaligned : (k a : ℕ) → IsAligned (suc k) a → ¬ IsAligned (suc k) (a + 2 ^ k)
half_unaligned k a al al' =
    let same =
      block_of_IsAligned (suc k) a (a + 2 ^ k) al (omega arith)
        (omega (arith, two-pow-suc k, two-pow-pos k)) in
    let e = eq_of_same_block (suc k) (a + 2 ^ k) a al' al same in omega (arith, two-pow-pos k)
