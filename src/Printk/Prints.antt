-- ===== src/Printk/Prints.antt =====
-- prints of kernel/lib/printk.c: what it sends, and the count.
use chcore_lab_v.Base.Bits.{bit_and-two-pow}
use chcore_lab_v.Base.{
  Bool, bit_and, not, ◌/◌, ◌%◌, ◌*◌, ◌^◌, ◌==◌, ◌<◌, ltb, leb, ◌&&◌, ℕ, zero, suc, ◌+◌, ◌≡◌, refl,
  sym, ap, ◌∙◌, inl, inr, List, [], ◌∷◌, ◌++◌, length, if◌then◌else◌, Bool-cases, arith,
}
use chcore_lab_v.Printk.{
  pad, output_each, prints, has_flag, pad_zero, pad_right, is_positive, left_width, pad_rounds,
}

-- `n` times the same character.
unfoldable pub repeat : ℕ → ℕ → List ℕ
repeat zero c = []
repeat (suc n) c = c ∷ repeat n c

append_assoc : (xs ys zs : List ℕ) → (xs ++ ys) ++ zs ≡ xs ++ (ys ++ zs)
append_assoc [] ys zs = refl
append_assoc (x ∷ xs) ys zs = ap (λ t. x ∷ t) (append_assoc xs ys zs)

append_nil : (xs : List ℕ) → xs ++ [] ≡ xs
append_nil [] = refl
append_nil (x ∷ xs) = ap (λ t. x ∷ t) (append_nil xs)

abbrev pub sent : List ℕ → ℕ → List ℕ × ℕ
sent out pc = (out, pc)

sent_same : (a b : List ℕ) (m n : ℕ) → a ≡ b → m ≡ n → sent a m ≡ sent b n
sent_same a b m n e e' = rw (e, e') refl

output_each_lem :
    (s out : List ℕ) (pc : ℕ) → output_each s (out, pc) ≡ sent (out ++ s) (pc + length s)
unfolding output_each
output_each_lem [] out pc =
    sent_same out (out ++ []) pc (pc + 0) (sym (append_nil out)) (omega arith)
output_each_lem (c ∷ s) out pc =
    output_each_lem s (out ++ (c ∷ [])) (pc + 1)
    ∙ sent_same ((out ++ (c ∷ [])) ++ s) (out ++ (c ∷ s)) (pc + 1 + length s) (pc + suc (length s))
        (append_assoc out (c ∷ []) s) (omega arith)

pad_lem : (n c : ℕ) (out : List ℕ) (pc : ℕ) → pad n c (out, pc) ≡ sent (out ++ repeat n c) (pc + n)
unfolding pad repeat
pad_lem zero c out pc = sent_same out (out ++ []) pc (pc + 0) (sym (append_nil out)) (omega arith)
pad_lem (suc n) c out pc =
    pad_lem n c (out ++ (c ∷ [])) (pc + 1)
    ∙ sent_same ((out ++ (c ∷ [])) ++ repeat n c) (out ++ (c ∷ repeat n c)) (pc + 1 + n)
        (pc + suc n) (append_assoc out (c ∷ []) (repeat n c)) (omega arith)

-- A bit of the flags.
has_flag-bit :
    (flags : ℕ)
    → (has_flag flags pad_right ≡ (flags / 2 % 2 == 1))
      × (has_flag flags pad_zero ≡ (flags % 2 == 1))
has_flag-bit flags =
    let right : bit_and flags 2 ≡ flags / 2 % 2 * 2 = bit_and-two-pow 1 flags ∙ omega arith in
    let zeros : bit_and flags 1 ≡ flags % 2 = bit_and-two-pow 0 flags ∙ omega arith in
    (
      ap (λ (t : ℕ). not (t == 0)) right ∙ ground arith,
      ap (λ (t : ℕ). not (t == 0)) zeros ∙ ground arith,
    )

-- The character that fills, and what is printed with `missing` of them.
abbrev pub filler : ℕ → ℕ
filler flags = if flags % 2 == 1 then 48 else 32

abbrev pub text_of : List ℕ → ℕ → ℕ → List ℕ
text_of string missing flags =
    if flags / 2 % 2 == 1
    then string ++ repeat missing (filler flags)
    else repeat missing (filler flags) ++ string

-- The larger of a positive width and the length.
abbrev pub total_length : ℕ → ℕ → ℕ
total_length width len =
    if ltb 0 width && ltb width (2 ^ 31) then (if leb width len then len else width) else len

-- What prints sends and returns.
pub record Printed (out string : List ℕ) (width flags : ℕ) (r : List ℕ × ℕ) : Type 0 where
  pub missing : ℕ
  pub fills : length string + missing ≡ total_length width (length string)
  pub returns : r ≡ sent (out ++ text_of string missing flags) (total_length width (length string))

-- The two loops, with `n` rounds for the one that runs.
pad_left :
    (n c : ℕ) (out string : List ℕ)
    → output_each string (pad n c (out, 0))
      ≡ sent (out ++ (repeat n c ++ string)) (length string + n)
pad_left n c out string =
    ap (λ r. output_each string r) (pad_lem n c out 0)
    ∙ output_each_lem string (out ++ repeat n c) (0 + n)
    ∙ sent_same ((out ++ repeat n c) ++ string) (out ++ (repeat n c ++ string))
        (0 + n + length string) (length string + n) (append_assoc out (repeat n c) string)
        (omega arith)

pad_after :
    (n c : ℕ) (out string : List ℕ)
    → pad n c (output_each string (out, 0))
      ≡ sent (out ++ (string ++ repeat n c)) (length string + n)
pad_after n c out string =
    ap (λ r. pad n c r) (output_each_lem string out 0)
    ∙ pad_lem n c (out ++ string) (0 + length string)
    ∙ sent_same ((out ++ string) ++ repeat n c) (out ++ (string ++ repeat n c))
        (0 + length string + n) (length string + n) (append_assoc out string (repeat n c))
        (omega arith)

-- What is left of the width after the first loop has run: nothing.
nothing_left : (left : ℕ) → pad_rounds (if is_positive left then 0 else left) ≡ 0
nothing_left left = elim (Bool-cases (is_positive left)) [
  | inl more ↦ rw more refl
  | inr done ↦ rw (done, done) refl
]

-- The loops run as often as characters are missing.
rounds_lem : (width len : ℕ) → len + pad_rounds (left_width width len) ≡ total_length width len
rounds_lem width len = ground arith

pad_run :
    (string out : List ℕ) (width flags : ℕ)
    → prints out string width flags
      ≡ sent
          (out
            ++ (if has_flag flags pad_right
                then string
                  ++ repeat
                      (pad_rounds (left_width width (length string)))
                      (if is_positive width && has_flag flags pad_zero then 48 else 32)
                else repeat
                    (pad_rounds (left_width width (length string)))
                    (if is_positive width && has_flag flags pad_zero then 48 else 32)
                  ++ string))
          (length string + pad_rounds (left_width width (length string)))
unfolding prints
pad_run string out width flags =
    let left = left_width width (length string) in
    let c : ℕ = if is_positive width && has_flag flags pad_zero then 48 else 32 in
    elim (Bool-cases (has_flag flags pad_right)) [
      | inl right ↦ rw right (pad_after (pad_rounds left) c out string)
      | inr before ↦ rw before (
          ap (λ (n : ℕ). pad n c (output_each string (pad (pad_rounds left) c (out, 0))))
            (nothing_left left)
          ∙ pad_left (pad_rounds left) c out string)
    ]

fill_same :
    (width len flags : ℕ)
    → repeat
        (pad_rounds (left_width width len))
        (if is_positive width && has_flag flags pad_zero then 48 else 32)
      ≡ repeat (pad_rounds (left_width width len)) (filler flags)
unfolding repeat
fill_same width len flags = elim (Bool-cases (is_positive width)) [
  | inl more ↦
      let char : (if is_positive width && has_flag flags pad_zero then 48 else 32) ≡ filler flags =
        ap (λ (b : Bool). if b && has_flag flags pad_zero then 48 else 32) more
        ∙ ap (λ (b : Bool). if b then 48 else 32) (has_flag-bit flags).1 in
      ap (λ (c : ℕ). repeat (pad_rounds (left_width width len)) c) char
  | inr none_wanted ↦
      let no_rounds : pad_rounds (left_width width len) ≡ 0 = ground (arith, none_wanted) in
      ap (λ (n : ℕ). repeat n (if is_positive width && has_flag flags pad_zero then 48 else 32))
        no_rounds
      ∙ ap (λ (n : ℕ). repeat n (filler flags)) (sym no_rounds)
]

-- For a string of fewer than 2^31 characters and a width that is the 32-bit word of an int,
-- prints sends the string and as many fillers as it takes to make up the larger of the width and
-- the length if the width is positive, and the string alone if it is 0 or negative. The fillers
-- stand after the string if the bit PAD_RIGHT is set and before it otherwise, and are zeros if
-- the bit PAD_ZERO is set and spaces otherwise; the count is the number of characters sent.
pub prints-Printed :
    (out string : List ℕ) (width flags : ℕ)
    → length string < 2 ^ 31
    → width < 2 ^ 32
    → Printed out string width flags (prints out string width flags)
prints-Printed out string width flags short word =
    let n = pad_rounds (left_width width (length string)) in
    let same = fill_same width (length string) flags in
    let right = (has_flag-bit flags).0 in
    let fills = rounds_lem width (length string) in
    record {
      missing = n;
      fills = fills;
      returns =
          pad_run string out width flags
          ∙ ap
              (λ s.
                sent (out ++ (if has_flag flags pad_right then string ++ s else s ++ string))
                  (length string + n))
              same
          ∙ ap
              (λ (b : Bool).
                sent
                  (out
                    ++ (if b
                        then string ++ repeat n (filler flags)
                        else repeat n (filler flags) ++ string))
                  (length string + n))
              right
          ∙ ap (λ (k : ℕ). sent (out ++ text_of string n flags) k) fills;
    }
