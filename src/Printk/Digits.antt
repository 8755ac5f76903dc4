-- ===== src/Printk/Digits.antt =====
-- simple_outputi of kernel/lib/printk.c: the digits are those of the number, and fit in print_buf.
use native.Mathlib.Nat.{mod-lt, div-add-mod', mul-le-mul_left, mul-le-mul_right, pow-suc, pow-zero}
use chcore_lab_v.Base.{
  ℕ, zero, suc, ◌+◌, ◌-◌, ◌*◌, ◌/◌, ◌%◌, ◌^◌, ◌≤◌, ◌<◌, ◌≡◌, refl, ap, dec_lt, ◌∙◌, inl, inr, Bool,
  true, false, not, ◌&&◌, List, [], ◌∷◌, ◌++◌, length, leb, ◌==◌, if◌then◌else◌, Result, ok,
  Bool-cases, arith,
}
use chcore_lab_v.Base.Pow.{two-pow-suc}
use chcore_lab_v.Printk.{digit_char, write_digits, prints, is_negative, has_flag, pad_zero}

-- A string of digits read in a base, by the code of each character.
unfoldable pub digit_of : ℕ → ℕ → ℕ
digit_of letbase c = if leb letbase c then c - letbase + 10 else c - 48

unfoldable pub value : ℕ → ℕ → ℕ → List ℕ → ℕ
value base letbase v [] = v
value base letbase v (c ∷ s) = value base letbase (v * base + digit_of letbase c) s

-- A digit is read back.
digit_of-digit_char :
    (letbase t : ℕ)
    → 58 ≤ letbase
    → letbase ≤ 220
    → t < 36
    → digit_of letbase (digit_char letbase t) ≡ t
unfolding digit_of
digit_of-digit_char letbase t low high digit = ground arith

half_bound : (base u k : ℕ) → 2 ≤ base → u < 2 ^ suc k → u / base < 2 ^ k
half_bound base u k two fits =
    omega (arith, div-add-mod' u base, mul-le-mul_left (u / base) two, two-pow-suc k)

base_bound : (base u k : ℕ) → u < base ^ suc k → u / base < base ^ k
base_bound base u k fits = elim (dec_lt (u / base) (base ^ k)) [
  | yes h ↦ h
  | no h ↦
      absurd (omega (arith, div-add-mod' u base, pow-suc base k, mul-le-mul_right base (too_big h)))
]
  where
    too_big : ¬ (u / base < base ^ k) → base ^ k ≤ u / base
    too_big h = omega arith

-- What write_digits gives for a number that the room is large enough for.
pub record Written (base letbase u : ℕ) (s : List ℕ) (r : Result (List ℕ)) : Type 0 where
  pub digits : List ℕ
  pub returns : r ≡ ok digits
  pub reads : value base letbase 0 digits ≡ value base letbase u s
  pub room : (k : ℕ) → u < base ^ k → length digits ≤ length s + k

write_digits-stop :
    (space base letbase u : ℕ) (s : List ℕ) → u ≡ 0 → write_digits space base letbase u s ≡ ok s
unfolding write_digits
write_digits-stop zero base letbase u s e = rw e refl
write_digits-stop (suc space) base letbase u s e = rw e refl

stopped :
    (space base letbase u : ℕ) (s : List ℕ)
    → u ≡ 0
    → Written base letbase u s (write_digits space base letbase u s)
stopped space base letbase u s e = record {
  digits = s;
  returns = write_digits-stop space base letbase u s e;
  reads = rw e refl;
  room = λ k h. omega arith;
}

nonzero_of : (u : ℕ) → u < 1 → (u == 0) ≡ false → ⊥
nonzero_of u h e = ground arith

-- One digit more, when the rest fits.
write_digits-suc :
    (space base letbase u : ℕ) (s : List ℕ)
    → 2 ≤ base
    → base ≤ 36
    → 58 ≤ letbase
    → letbase ≤ 220
    → (u == 0) ≡ false
    → Written base letbase
        (u / base)
        (digit_char letbase (u % base) ∷ s)
        (write_digits space base letbase (u / base) (digit_char letbase (u % base) ∷ s))
    → Written base letbase u s (write_digits (suc space) base letbase u s)
unfolding write_digits value
write_digits-suc space base letbase u s two few letters low more rest =
    let whole : u / base * base + digit_of letbase (digit_char letbase (u % base)) ≡ u =
      ap (λ (t : ℕ). u / base * base + t)
        (digit_of-digit_char letbase (u % base) letters low
          (omega (arith, mod-lt u {m = base} (omega arith))))
      ∙ div-add-mod' u base in
    record {
      digits = rest.digits;
      returns = rw more rest.returns;
      reads = rest.reads ∙ ap (λ (t : ℕ). value base letbase t s) whole;
      room = room_of;
    }
  where
    room_of : (k : ℕ) → u < base ^ k → length rest.digits ≤ length s + k
    room_of zero h = absurd (nonzero_of u (omega (arith, pow-zero base)) more)
    room_of (suc k) h = omega (arith, rest.room k (base_bound base u k h))

pub write_digits-Written :
    (space base letbase u : ℕ) (s : List ℕ)
    → 2 ≤ base
    → base ≤ 36
    → 58 ≤ letbase
    → letbase ≤ 220
    → u < 2 ^ space
    → Written base letbase u s (write_digits space base letbase u s)
write_digits-Written zero base letbase u s two few letters low fits =
    stopped zero base letbase u s (omega arith)
write_digits-Written (suc space) base letbase u s two few letters low fits =
    elim (Bool-cases (u == 0)) [
      | inl done ↦ stopped (suc space) base letbase u s (ground arith)
      | inr more ↦ write_digits-suc space base letbase u s two few letters low more (
          write_digits-Written space base letbase (u / base) (digit_char letbase (u % base) ∷ s) two
            few letters low (half_bound base u space two fits))
    ]

-- The magnitude that is printed, and whether a sign is.
abbrev pub is_minus : ℕ → ℕ → Bool → Bool
is_minus i base sign = sign && base == 10 && is_negative i

abbrev pub magnitude : ℕ → ℕ → Bool → ℕ
magnitude i base sign = if is_minus i base sign then 2 ^ 64 - i else i

-- The output of simple_outputi: digits that read back as the magnitude, padded by prints, with the
-- sign in front of the digits, or in front of the padding if that is of zeros.
pub record Shown (out : List ℕ) (i base : ℕ) (sign : Bool) (width flags letbase : ℕ)
    (r : Result (List ℕ × ℕ)) : Type 0 where
  pub digits : List ℕ
  pub reads : value base letbase 0 digits ≡ magnitude i base sign
  pub plain : is_minus i base sign ≡ false → r ≡ ok (prints out digits width flags)
  pub minus :
      is_minus i base sign ≡ true
      → (not (width == 0) && has_flag flags pad_zero) ≡ false
      → r ≡ ok (prints out (45 ∷ digits) width flags)
  pub minus_zeros :
      is_minus i base sign ≡ true
      → (not (width == 0) && has_flag flags pad_zero) ≡ true
      → r ≡ (
          let (out', pc) = prints (out ++ (45 ∷ [])) digits ((width + 2 ^ 32 - 1) % 2 ^ 32) flags in
          ok (out', pc + 1))
