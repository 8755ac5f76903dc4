-- ===== src/Printk/Enough.antt =====
-- The conversions of simple_vsprintf of kernel/lib/printk.c: none of them runs out of rounds, and each
-- leaves no more of the format than there was.
use chcore_lab_v.Base.{
  ℕ, zero, suc, ◌-◌, ◌/◌, ◌%◌, ◌^◌, ◌≤◌, ap, Bool, true, false, ◌&&◌, List, [], ◌∷◌, length, ◌==◌,
  if◌then◌else◌, Result, ok, bug, fault, out_of_fuel, ◌>>=◌, set_field, not, ltb, arith,
}
use chcore_lab_v.Printk.{
  has_flag, is_negative, pad_zero, digit_char, write_digits, outputi_negative, simple_outputi,
}
use chcore_lab_v.Printk.Format.{
  Arg, Printer, arg_word, arg_string, char_string, sign_extend, low_word, whole, va_arg, number,
  print_string, convert_sized, convert_plain, convert_twice, convert_long, convert,
}

-- A result that is not for want of fuel.
unfoldable pub IsEnough {ℓ} : {A : Type ℓ} → Result A → Type 0
IsEnough (ok a) = Unit
IsEnough bug = Unit
IsEnough fault = Unit
IsEnough out_of_fuel = ⊥

-- A result that is not for want of fuel and leaves at most `n` characters of the format.
unfoldable pub IsWithin {ℓ} : {A : Type ℓ} → ℕ → Result (List ℕ × A) → Type 0
IsWithin n (ok (format, a)) = length format ≤ n
IsWithin n bug = Unit
IsWithin n fault = Unit
IsWithin n out_of_fuel = ⊥

>>=-IsEnough {ℓ κ} :
    {A : Type ℓ} {B : Type κ} (r : Result A) (f : A → Result B)
    → IsEnough r
    → ((a : A) → IsEnough (f a))
    → IsEnough (r >>= f)
unfolding IsEnough
>>=-IsEnough (ok a) f h k = k a
>>=-IsEnough bug f h k = tt
>>=-IsEnough fault f h k = tt
>>=-IsEnough out_of_fuel f h k = h

pub IsEnough-if {ℓ} :
    {A : Type ℓ} (b : Bool) (x y : Result A)
    → IsEnough x
    → IsEnough y
    → IsEnough (if b then x else y)
IsEnough-if true x y h k = h
IsEnough-if false x y h k = k

pub IsWithin-if {ℓ} :
    {A : Type ℓ} (b : Bool) (n : ℕ) (x y : Result (List ℕ × A))
    → IsWithin n x
    → IsWithin n y
    → IsWithin n (if b then x else y)
IsWithin-if true n x y h k = h
IsWithin-if false n x y h k = k

-- A conversion leaves the format that follows it.
IsWithin-of_enough :
    (n : ℕ) (r : Result Printer) (format : List ℕ)
    → IsEnough r
    → length format ≤ n
    → IsWithin n (r >>= λ p. ok (format, p))
unfolding IsEnough IsWithin
IsWithin-of_enough n (ok p) format h le = le
IsWithin-of_enough n bug format h le = tt
IsWithin-of_enough n fault format h le = tt
IsWithin-of_enough n out_of_fuel format h le = h

pub >>=-IsWithin {ℓ κ} :
    {A : Type ℓ} {B : Type κ} (n : ℕ) (r : Result (List ℕ × A))
    (f : List ℕ × A → Result (List ℕ × B))
    → IsWithin n r
    → ((format : List ℕ) (a : A) → length format ≤ n → IsWithin n (f (format, a)))
    → IsWithin n (r >>= f)
unfolding IsWithin
>>=-IsWithin n (ok (format, a)) f h k = k format a h
>>=-IsWithin n bug f h k = tt
>>=-IsWithin n fault f h k = tt
>>=-IsWithin n out_of_fuel f h k = h

write_digits-IsEnough :
    (space base letbase u : ℕ) (s : List ℕ) → IsEnough (write_digits space base letbase u s)
unfolding write_digits IsEnough
write_digits-IsEnough zero base letbase u s = IsEnough-if (u == 0) (ok s) fault tt tt
write_digits-IsEnough (suc space) base letbase u s =
    IsEnough-if (u == 0) (ok s)
      (write_digits space base letbase (u / base) (digit_char letbase (u % base) ∷ s)) tt
      (write_digits-IsEnough space base letbase (u / base) (digit_char letbase (u % base) ∷ s))

outputi_negative-IsEnough :
    (out s : List ℕ) (width flags : ℕ) → IsEnough (outputi_negative out s width flags)
unfolding outputi_negative IsEnough
outputi_negative-IsEnough out s width flags =
    IsEnough-if (not (width == 0) && has_flag flags pad_zero) _ _ tt
      (IsEnough-if (ltb (length s) 63) _ _ tt tt)

simple_outputi-IsEnough :
    (out : List ℕ) (i base : ℕ) (sign : Bool) (width flags letbase : ℕ)
    → IsEnough (simple_outputi out i base sign width flags letbase)
unfolding simple_outputi IsEnough
simple_outputi-IsEnough out i base sign width flags letbase =
    let neg : Bool = sign && base == 10 && is_negative i in
    IsEnough-if (i == 0) _ _ tt (
      >>=-IsEnough (write_digits 63 base letbase (if neg then 2 ^ 64 - i else i) []) _
        (write_digits-IsEnough 63 base letbase (if neg then 2 ^ 64 - i else i) [])
        (λ s. IsEnough-if neg _ _ (outputi_negative-IsEnough out s width flags) tt))

pub va_arg-IsEnough : (ap : List Arg) → IsEnough (va_arg ap)
unfolding IsEnough
va_arg-IsEnough [] = tt
va_arg-IsEnough (a ∷ ap) = tt

number-IsEnough :
    (bits : ℕ) (read : ℕ → ℕ) (base : ℕ) (sign : Bool) (letbase width flags : ℕ) (p : Printer)
    → IsEnough (number bits read base sign letbase width flags p)
unfolding number IsEnough
number-IsEnough bits read base sign letbase width flags p =
    >>=-IsEnough (va_arg p.ap) _ (va_arg-IsEnough p.ap) (λ r.
      >>=-IsEnough
        (simple_outputi p.out (read (set_field 0 bits (arg_word r.0) p.u)) base sign width flags
          letbase)
        _
        (simple_outputi-IsEnough p.out (read (set_field 0 bits (arg_word r.0) p.u)) base sign width
          flags letbase)
        (λ q. tt))

print_string-IsEnough :
    (chars : Arg → Result (List ℕ)) (bits width flags : ℕ) (p : Printer)
    → ((a : Arg) → IsEnough (chars a))
    → IsEnough (print_string chars bits width flags p)
unfolding print_string IsEnough
print_string-IsEnough chars bits width flags p h =
    >>=-IsEnough (va_arg p.ap) _ (va_arg-IsEnough p.ap)
      (λ r. >>=-IsEnough (chars r.0) _ (h r.0) (λ s. tt))

arg_string-IsEnough : (a : Arg) → IsEnough (arg_string a)
unfolding IsEnough
arg_string-IsEnough (Arg.word w) = IsEnough-if (w == 0) _ _ tt tt
arg_string-IsEnough (Arg.text p s) = IsEnough-if (p == 0) _ _ tt tt

convert_sized-IsEnough :
    (bits : ℕ) (signed unsigned : ℕ → ℕ) (c width flags : ℕ) (p : Printer)
    → IsEnough (convert_sized bits signed unsigned c width flags p)
unfolding convert_sized IsEnough
convert_sized-IsEnough bits signed unsigned c width flags p =
    IsEnough-if (c == 100) _ _ (number-IsEnough bits signed 10 true 97 width flags p) (
      IsEnough-if (c == 117) _ _ (number-IsEnough bits unsigned 10 false 97 width flags p) (
        IsEnough-if (c == 120) _ _ (number-IsEnough bits unsigned 16 false 97 width flags p)
          (IsEnough-if (c == 88) _ _ (number-IsEnough bits unsigned 16 false 65 width flags p) tt)))

convert_plain-IsEnough :
    (c width flags : ℕ) (p : Printer) → IsEnough (convert_plain c width flags p)
unfolding convert_plain IsEnough
convert_plain-IsEnough c width flags p =
    IsEnough-if (c == 98) _ _ (number-IsEnough 32 (sign_extend 32) 2 true 97 width flags p) (
      IsEnough-if (c == 112) _ _ (number-IsEnough 64 whole 16 false 97 width flags p) (
        IsEnough-if (c == 99) _ _ (print_string-IsEnough char_string 8 width flags p (λ a. tt)) (
          IsEnough-if (c == 115) _ _
            (print_string-IsEnough arg_string 64 width flags p arg_string-IsEnough)
            (convert_sized-IsEnough 32 (sign_extend 32) low_word c width flags p))))

convert_twice-IsWithin :
    (n bits : ℕ) (signed : ℕ → ℕ) (width flags : ℕ) (format : List ℕ) (p : Printer)
    → length format ≤ n
    → IsWithin n (convert_twice bits signed width flags format p)
unfolding convert_twice IsWithin
convert_twice-IsWithin n bits signed width flags [] p le = tt
convert_twice-IsWithin n bits signed width flags (c ∷ format) p le =
    IsWithin-of_enough n (convert_sized bits signed whole c width flags p) format
      (convert_sized-IsEnough bits signed whole c width flags p) (omega arith)

convert_long-IsWithin :
    (n again bits bits2 width flags : ℕ) (format : List ℕ) (p : Printer)
    → length format ≤ n
    → IsWithin n (convert_long again bits bits2 width flags format p)
unfolding convert_long IsWithin
convert_long-IsWithin n again bits bits2 width flags [] p le = tt
convert_long-IsWithin n again bits bits2 width flags (c ∷ format) p le =
    IsWithin-if (c == again) n _ _
      (convert_twice-IsWithin n bits2 (sign_extend bits2) width flags format p (omega arith))
      (IsWithin-of_enough n (convert_sized bits (sign_extend bits) whole c width flags p) format
        (convert_sized-IsEnough bits (sign_extend bits) whole c width flags p) (omega arith))

pub convert-IsWithin :
    (n width flags : ℕ) (format : List ℕ) (p : Printer)
    → length format ≤ n
    → IsWithin n (convert width flags format p)
unfolding convert IsWithin
convert-IsWithin n width flags [] p le = tt
convert-IsWithin n width flags (c ∷ format) p le =
    IsWithin-if (c == 108) n _ _
      (convert_long-IsWithin n 108 64 64 width flags format p (omega arith))
      (IsWithin-if (c == 104) n _ _
        (convert_long-IsWithin n 104 16 8 width flags format p (omega arith))
        (IsWithin-of_enough n (convert_plain c width flags p) format
          (convert_plain-IsEnough c width flags p) (omega arith)))
