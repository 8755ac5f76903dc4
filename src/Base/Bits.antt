-- ===== src/Base/Bits.antt =====
-- Laws of the native bit operations at variables. Each operation means a recursion on binary
-- digits with fuel; the fuel is dropped first, which gives one equation for the lowest digit.
use Prim.Native.Nat.{
  ℕ, zero, suc, ◌+◌, ◌-◌, ◌*◌, ◌/◌, ◌%◌, ◌^◌, ◌≤◌, ◌<◌, min, max, bit_and, bit_or, bit_xor, digits,
  bitwise, differ, bit_and-bitwise, bit_or-bitwise, bit_xor-bitwise,
}
use mathlib.Core.Path.{◌≡◌, refl, ap, ◌∙◌, sym}
use mathlib.Core.Logic.{inl, inr}
use mathlib.Core.Bool.{false}
use native.Mathlib.Nat.{
  le_refl, div-div-eq-div-mul, div-add-mod', div-eq_of_lt, mod-eq_of_lt, zero-add, suc-add,
}
use native.Mathlib.Decide.{dec_le}
use native.Mathlib.Omega.{arith}
use chcore_lab_v.Base.Tests.{◌==◌, Bool-cases, eq_of_==}
use chcore_lab_v.Base.Pow.{two-pow-suc, two-pow-pos}

module _ (rest : ℕ → ℕ) (digit : ℕ → ℕ → ℕ) where
  -- More fuel than the number has digits changes nothing.
  digits_enough : (n m a b : ℕ) → a ≤ n → a ≤ m → digits rest digit n a b ≡ digits rest digit m a b
  digits_enough zero zero a b p q = refl
  digits_enough zero (suc m) zero b p q = refl
  digits_enough zero (suc m) (suc a) b p q = absurd (omega arith)
  digits_enough (suc n) zero zero b p q = refl
  digits_enough (suc n) zero (suc a) b p q = absurd (omega arith)
  digits_enough (suc n) (suc m) zero b p q = refl
  digits_enough (suc n) (suc m) (suc a) b p q =
      ap (λ (t : ℕ). t * 2 + digit (suc a % 2) (b % 2))
        (digits_enough n m (suc a / 2) (b / 2) (omega arith) (omega arith))

  bitwise_step :
      (a b : ℕ)
      → bitwise rest digit (suc a) b
        ≡ bitwise rest digit (suc a / 2) (b / 2) * 2 + digit (suc a % 2) (b % 2)
  bitwise_step a b =
      ap (λ (t : ℕ). t * 2 + digit (suc a % 2) (b % 2))
        (digits_enough a (suc a / 2) (suc a / 2) (b / 2) (omega arith) (le_refl (suc a / 2)))

pub bit_xor_step : (m n : ℕ) → bit_xor m n ≡ differ (m % 2) (n % 2) + bit_xor (m / 2) (n / 2) * 2
bit_xor_step zero n = simp bit_xor-bitwise (omega arith)
bit_xor_step (suc m) n = simp bit_xor-bitwise (omega (arith, bitwise_step (λ y. y) differ m n))

pub bit_or_step : (m n : ℕ) → bit_or m n ≡ max (m % 2) (n % 2) + bit_or (m / 2) (n / 2) * 2
bit_or_step zero n = simp bit_or-bitwise (omega arith)
bit_or_step (suc m) n = simp bit_or-bitwise (omega (arith, bitwise_step (λ y. y) max m n))

pub bit_and_step : (m n : ℕ) → bit_and m n ≡ min (m % 2) (n % 2) + bit_and (m / 2) (n / 2) * 2
bit_and_step zero n = simp bit_and-bitwise (omega arith)
bit_and_step (suc m) n = simp bit_and-bitwise (omega (arith, bitwise_step (λ y. zero) min m n))

differ-zero : (x : ℕ) → differ x 0 ≡ x
differ-zero zero = refl
differ-zero (suc x) = refl

odd_remainder : (a : ℕ) → (a % 2 == 0) ≡ false → a % 2 ≡ 1
odd_remainder a h = ground arith

half_pow : (k : ℕ) → 2 ^ suc k / 2 ≡ 2 ^ k
half_pow k = omega (arith, two-pow-suc k)

pow_even : (k : ℕ) → 2 ^ suc k % 2 ≡ 0
pow_even k = omega (arith, two-pow-suc k)

half_mask : (k : ℕ) → (2 ^ suc k - 1) / 2 ≡ 2 ^ k - 1
half_mask k = omega (arith, two-pow-suc k, two-pow-pos k)

half_multiple : (k q : ℕ) → q * 2 ^ suc k / 2 ≡ q * 2 ^ k
half_multiple k q = omega (arith, ap (λ (t : ℕ). q * t) (two-pow-suc k))

div_half : (k a : ℕ) → a / 2 ^ suc k ≡ a / 2 / 2 ^ k
div_half k a = ap (λ (t : ℕ). a / t) (two-pow-suc k) ∙ sym (div-div-eq-div-mul a 2 (2 ^ k))

-- The remainder by `2 ^ suc k` from that of the half.
mod_half : (k a : ℕ) → a % 2 ^ suc k ≡ a / 2 % 2 ^ k * 2 + a % 2
mod_half k a = omega (
  arith,
  div-add-mod' a (2 ^ suc k),
  div-add-mod' (a / 2) (2 ^ k),
  ap (λ (t : ℕ). t * 2 ^ suc k) (div_half k a),
  ap (λ (t : ℕ). a / 2 / 2 ^ k * t) (two-pow-suc k),
)

bit_xor-zero_below : (n a : ℕ) → a ≤ n → bit_xor a 0 ≡ a
bit_xor-zero_below n zero h = refl
bit_xor-zero_below zero (suc a) h = absurd (omega arith)
bit_xor-zero_below (suc n) (suc a) h = omega (
  arith,
  bit_xor_step (suc a) 0,
  bit_xor-zero_below n (suc a / 2) (omega arith),
  differ-zero (suc a % 2),
)

bit_or-zero_below : (n a : ℕ) → a ≤ n → bit_or a 0 ≡ a
bit_or-zero_below n zero h = refl
bit_or-zero_below zero (suc a) h = absurd (omega arith)
bit_or-zero_below (suc n) (suc a) h =
    omega (arith, bit_or_step (suc a) 0, bit_or-zero_below n (suc a / 2) (omega arith))

bit_and-zero_below : (n a : ℕ) → a ≤ n → bit_and a 0 ≡ 0
bit_and-zero_below n zero h = refl
bit_and-zero_below zero (suc a) h = absurd (omega arith)
bit_and-zero_below (suc n) (suc a) h =
    omega (arith, bit_and_step (suc a) 0, bit_and-zero_below n (suc a / 2) (omega arith))

le_of_div_pos : (k a : ℕ) → a / 2 ^ k % 2 ≡ 1 → 2 ^ k ≤ a
le_of_div_pos k a e = elim (dec_le (2 ^ k) a) [
  | yes h ↦ h
  | no h ↦ absurd (omega (arith, div-eq_of_lt {n = a} {m = 2 ^ k} (omega arith)))
]

pow_suc_add : (k d : ℕ) → 2 ^ (suc k + d) ≡ 2 * 2 ^ (k + d)
pow_suc_add k d = ap (λ (t : ℕ). 2 ^ t) (suc-add k d) ∙ two-pow-suc (k + d)

half_not_mask : (k d : ℕ) → (2 ^ (suc k + d) - 2 ^ suc k) / 2 ≡ 2 ^ (k + d) - 2 ^ k
half_not_mask k d = omega (arith, pow_suc_add k d, two-pow-suc k)

even_not_mask : (k d : ℕ) → (2 ^ (suc k + d) - 2 ^ suc k) % 2 ≡ 0
even_not_mask k d = omega (arith, pow_suc_add k d, two-pow-suc k)

differ_one : (a : ℕ) → differ (a % 2) 1 ≡ 1 - a % 2
differ_one a = elim (Bool-cases (a % 2 == 0)) [
  | inl even ↦ rw (eq_of_== (a % 2) 0 even)
  | inr odd ↦ rw (odd_remainder a odd)
]

-- `a ^ (1 << k)` flips the bit `k`: it adds `2 ^ k` where the bit is clear, and takes it off
-- where it is set.
pub bit_xor_clear : (k a : ℕ) → a / 2 ^ k % 2 ≡ 0 → bit_xor a (2 ^ k) ≡ a + 2 ^ k
bit_xor_clear zero a e =
    omega
      (arith, bit_xor_step a 1, bit_xor-zero_below (a / 2) (a / 2) (le_refl (a / 2)), differ_one a)
bit_xor_clear (suc k) a e = omega (
  arith,
  bit_xor_step a (2 ^ suc k),
  ap (λ (t : ℕ). bit_xor (a / 2) t) (half_pow k),
  bit_xor_clear k (a / 2) (ap (λ (t : ℕ). t % 2) (sym (div_half k a)) ∙ e),
  differ-zero (a % 2),
  two-pow-suc k,
  ap (λ (t : ℕ). differ (a % 2) t) (pow_even k),
)

pub bit_xor_set : (k a : ℕ) → a / 2 ^ k % 2 ≡ 1 → bit_xor a (2 ^ k) ≡ a - 2 ^ k
bit_xor_set zero a e =
    omega
      (arith, bit_xor_step a 1, bit_xor-zero_below (a / 2) (a / 2) (le_refl (a / 2)), differ_one a)
bit_xor_set (suc k) a e = omega (
  arith,
  bit_xor_step a (2 ^ suc k),
  ap (λ (t : ℕ). bit_xor (a / 2) t) (half_pow k),
  bit_xor_set k (a / 2) half_set,
  div-add-mod' (a / 2) (2 ^ k),
  le_of_div_pos k (a / 2) half_set,
  differ-zero (a % 2),
  two-pow-suc k,
  ap (λ (t : ℕ). differ (a % 2) t) (pow_even k),
)
  where
    half_set : a / 2 / 2 ^ k % 2 ≡ 1
    half_set = ap (λ (t : ℕ). t % 2) (sym (div_half k a)) ∙ e

-- A mask of `k` low bits takes the remainder by `2 ^ k`.
pub bit_and-mask : (k a : ℕ) → bit_and a (2 ^ k - 1) ≡ a % 2 ^ k
bit_and-mask zero a = omega (arith, bit_and-zero_below a a (le_refl a))
bit_and-mask (suc k) a = omega (
  arith,
  bit_and_step a (2 ^ suc k - 1),
  ap (λ (t : ℕ). bit_and (a / 2) t) (half_mask k),
  bit_and-mask k (a / 2),
  two-pow-suc k,
  two-pow-pos k,
  mod_half k a,
)

-- A single bit: `a & (1 << k)`.
pub bit_and-two-pow : (k a : ℕ) → bit_and a (2 ^ k) ≡ a / 2 ^ k % 2 * 2 ^ k
bit_and-two-pow zero a =
    omega (arith, bit_and_step a 1, bit_and-zero_below (a / 2) (a / 2) (le_refl (a / 2)))
bit_and-two-pow (suc k) a = omega (
  arith,
  bit_and_step a (2 ^ suc k),
  ap (λ (t : ℕ). bit_and (a / 2) t) (half_pow k),
  bit_and-two-pow k (a / 2),
  two-pow-suc k,
  pow_even k,
  ap (λ (t : ℕ). t % 2 * 2 ^ suc k) (div_half k a),
  ap (λ (t : ℕ). a / 2 / 2 ^ k % 2 * t) (two-pow-suc k),
)

-- `|` of a field and of what lies below it is the sum.
pub bit_or_fields : (k q r : ℕ) → r < 2 ^ k → bit_or (q * 2 ^ k) r ≡ q * 2 ^ k + r
bit_or_fields zero q r fits = ground (arith, bit_or-zero_below q q (le_refl q))
bit_or_fields (suc k) q r fits = omega (
  arith,
  bit_or_step (q * 2 ^ suc k) r,
  ap (λ (t : ℕ). q * t) (two-pow-suc k),
  two-pow-suc k,
  ap (λ (t : ℕ). bit_or t (r / 2)) (half_multiple k q),
  bit_or_fields k q (r / 2) (omega (arith, two-pow-suc k)),
)

-- `a & ~(2 ^ k - 1)` on `w` bits rounds down to a multiple of `2 ^ k`.
pub bit_and-not_mask :
    (k d a : ℕ) → a < 2 ^ (k + d) → bit_and a (2 ^ (k + d) - 2 ^ k) ≡ a / 2 ^ k * 2 ^ k
bit_and-not_mask zero d a fits = omega (
  arith,
  ap (λ (t : ℕ). bit_and a (2 ^ t - 1)) (zero-add d),
  ap (λ (t : ℕ). 2 ^ t) (zero-add d),
  bit_and-mask d a,
  mod-eq_of_lt {n = a} {m = 2 ^ d} (rw zero-add at fits),
)
bit_and-not_mask (suc k) d a fits = omega (
  arith,
  bit_and_step a (2 ^ (suc k + d) - 2 ^ suc k),
  ap (λ (t : ℕ). bit_and (a / 2) t) (half_not_mask k d),
  even_not_mask k d,
  bit_and-not_mask k d (a / 2) (omega (arith, pow_suc_add k d)),
  ap (λ (t : ℕ). t * 2 ^ suc k) (div_half k a),
  ap (λ (t : ℕ). a / 2 / 2 ^ k * t) (two-pow-suc k),
)
