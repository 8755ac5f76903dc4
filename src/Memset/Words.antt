-- ===== src/Memset/Words.antt =====
-- memset of zeros, byte by byte, against memset_zero on 64-bit words.
use chcore_lab_v.Base.{
  ℕ, zero, suc, ◌+◌, ◌-◌, ◌*◌, ◌/◌, ◌%◌, ◌^◌, ◌≤◌, ◌<◌, ◌≡◌, refl, sym, ap, ◌∙◌, true, false, ltb,
  leb, arith, dec_lt, dec_le,
}
use chcore_lab_v.Base.Pow.{two-pow-add}
use native.Mathlib.Nat.{div-div-eq-div-mul}
use chcore_lab_v.Machine.{Machine, memset_zero}
use chcore_lab_v.Memset.{memset, memset_lem}

-- The number that the `n` bytes from `a` on make up, the lowest first.
unfoldable pub word_of : ℕ → (ℕ → ℕ) → ℕ → ℕ
word_of zero bytes a = 0
word_of (suc n) bytes a = bytes a + 256 * word_of n bytes (a + 1)

word_of_congr :
    (n a : ℕ) (b b' : ℕ → ℕ)
    → ((x : ℕ) → a ≤ x → x < a + n → b' x ≡ b x)
    → word_of n b' a ≡ word_of n b a
unfolding word_of
word_of_congr zero a b b' same = refl
word_of_congr (suc n) a b b' same = omega (
  arith,
  same a (omega arith) (omega arith),
  word_of_congr n (a + 1) b b' (λ x lo hi. same x (omega arith) (omega arith)),
)

word_of_zeros : (n a : ℕ) (b : ℕ → ℕ) → ((x : ℕ) → a ≤ x → x < a + n → b x ≡ 0) → word_of n b a ≡ 0
unfolding word_of
word_of_zeros zero a b zeros = refl
word_of_zeros (suc n) a b zeros = omega (
  arith,
  zeros a (omega arith) (omega arith),
  word_of_zeros n (a + 1) b (λ x lo hi. zeros x (omega arith) (omega arith)),
)

-- Dropping one byte more.
drop_byte :
    (x w r : ℕ)
    → x < 256
    → 256 * (w / 2 ^ (8 * r) * 2 ^ (8 * r)) ≡ (x + 256 * w) / 2 ^ (8 * suc r) * 2 ^ (8 * suc r)
drop_byte x w r h = omega (
  arith,
  ap (λ (t : ℕ). (x + 256 * w) / t * t) size,
  ap (λ (t : ℕ). t * (256 * 2 ^ (8 * r)))
      (sym (div-div-eq-div-mul (x + 256 * w) 256 (2 ^ (8 * r)))
        ∙ ap (λ (t : ℕ). t / 2 ^ (8 * r)) first_off),
)
  where
    size : 2 ^ (8 * suc r) ≡ 256 * 2 ^ (8 * r)
    size = ap (λ (t : ℕ). 2 ^ t) (omega arith) ∙ two-pow-add 8 (8 * r)

    first_off : (x + 256 * w) / 256 ≡ w
    first_off = omega arith

word_of_partial :
    (n r a : ℕ) (b b' : ℕ → ℕ)
    → r ≤ n
    → ((x : ℕ) → b x < 256)
    → ((x : ℕ) → a ≤ x → x < a + r → b' x ≡ 0)
    → ((x : ℕ) → a + r ≤ x → b' x ≡ b x)
    → word_of n b' a ≡ word_of n b a / 2 ^ (8 * r) * 2 ^ (8 * r)
unfolding word_of
word_of_partial n zero a b b' le is_byte zeros same =
    word_of_congr n a b b' (λ x lo hi. same x (omega arith)) ∙ omega arith
word_of_partial zero (suc r) a b b' le is_byte zeros same = absurd (omega arith)
word_of_partial (suc n) (suc r) a b b' le is_byte zeros same =
    let rest =
      word_of_partial n r (a + 1) b b' (omega arith) is_byte
        (λ x lo hi. zeros x (omega arith) (omega arith)) (λ x lo. same x (omega arith)) in
    omega (arith, zeros a (omega arith) (omega arith), rest)
    ∙ drop_byte (b a) (word_of n b (a + 1)) r (is_byte a)

-- For an aligned destination, each aligned word that memory holds after memset_zero is the word
-- that its bytes make up after memset of zeros, byte by byte, the last word of a size that is no
-- multiple of 8 included.
pub memset-words :
    (dst size a : ℕ) (bytes : ℕ → ℕ) (m : Machine)
    → dst % 8 ≡ 0
    → a % 8 ≡ 0
    → ((x : ℕ) → bytes x < 256)
    → m.mem a ≡ word_of 8 bytes a
    → (memset_zero dst size m).mem a ≡ word_of 8 (memset dst 0 size bytes) a
unfolding memset_zero
memset-words dst size a bytes m al al' is_byte same = elim (dec_lt a dst) [
  | yes below ↦
      let out : leb dst a ≡ false = ground arith in
      rw out (
        same
        ∙ sym (
            word_of_congr 8 a bytes (memset dst 0 size bytes)
              (λ x lo hi. ground (arith, memset_lem dst 0 size x bytes))))
  | no above ↦ elim (dec_lt a (dst + size)) [
    | no past ↦
        let c1 : leb dst a ≡ true = ground arith in
        let c2 : ltb a (dst + size) ≡ false = ground arith in
        rw (c1, c2)
          (same
            ∙ sym (
                word_of_congr 8 a bytes (memset dst 0 size bytes)
                  (λ x lo hi. ground (arith, memset_lem dst 0 size x bytes))))
    | yes inside ↦ elim (dec_le (a + 8) (dst + size)) [
      | yes whole ↦
          let c1 : leb dst a ≡ true = ground arith in
          let c2 : ltb a (dst + size) ≡ true = ground arith in
          let c3 : leb (a + 8) (dst + size) ≡ true = ground arith in
          rw (c1, c2, c3)
            (sym (
              word_of_zeros 8 a (memset dst 0 size bytes)
                (λ x lo hi. ground (arith, memset_lem dst 0 size x bytes))))
      | no part ↦
          let c1 : leb dst a ≡ true = ground arith in
          let c2 : ltb a (dst + size) ≡ true = ground arith in
          let c3 : leb (a + 8) (dst + size) ≡ false = ground arith in
          let r = dst + size - a in
          rw (c1, c2, c3)
            (ap (λ (w : ℕ). w / 2 ^ (8 * r) * 2 ^ (8 * r)) same
              ∙ sym (
                  word_of_partial 8 r a bytes (memset dst 0 size bytes) (omega arith) is_byte
                    (λ x lo hi. ground (arith, memset_lem dst 0 size x bytes))
                    (λ x lo. ground (arith, memset_lem dst 0 size x bytes))))
    ]
  ]
]
