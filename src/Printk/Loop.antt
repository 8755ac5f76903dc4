-- ===== src/Printk/Loop.antt =====
-- The loop of simple_vsprintf of kernel/lib/printk.c: every round takes a character of the format at
-- least, so that the rounds given are enough.
use chcore_lab_v.Base.{
  ℕ, zero, suc, ◌+◌, ◌-◌, ◌*◌, ◌%◌, ◌^◌, ◌≤◌, ◌≢◌, ap, inl, inr, ◌&&◌, List, [], ◌∷◌, length, leb,
  ◌==◌, if◌then◌else◌, bit_or, Result, ok, bug, fault, out_of_fuel, ◌>>=◌, Bool-cases, arith,
}
use chcore_lab_v.Printk.Format.{
  Arg, Printer, plain, arg_word, va_arg, skip_zeros, read_width, take_width, directive, print_loop,
  simple_vsprintf,
}
use chcore_lab_v.Printk.Enough.{
  IsEnough, IsWithin, IsEnough-if, IsWithin-if, >>=-IsWithin, va_arg-IsEnough, convert-IsWithin,
}

skip_zeros-length :
    (format : List ℕ) (flags : ℕ) → length (skip_zeros format flags).0 ≤ length format
unfolding skip_zeros
skip_zeros-length [] flags = omega arith
skip_zeros-length (c ∷ format) flags = elim (Bool-cases (c == 48)) [
  | inl zero_char ↦ rw zero_char (omega (arith, skip_zeros-length format (bit_or flags 1)))
  | inr other ↦ rw other (omega arith)
]

read_width-length :
    (format : List ℕ) (width : ℕ) → length (read_width format width).0 ≤ length format
unfolding read_width
read_width-length [] width = omega arith
read_width-length (c ∷ format) width = elim (Bool-cases (leb 48 c && leb c 57)) [
  | inl digit ↦
      rw digit (omega (arith, read_width-length format ((width * 10 + (c - 48)) % 2 ^ 32)))
  | inr other ↦ rw other (omega arith)
]

star_width-IsWithin :
    (n : ℕ) (format : List ℕ) (r : Result (Arg × List Arg))
    → IsEnough r
    → length format ≤ n
    → IsWithin {A = ℕ × List Arg} n (r >>= λ r. ok (format, (arg_word r.0 % 2 ^ 32, r.1)))
unfolding IsEnough IsWithin
star_width-IsWithin n format (ok r) h le = le
star_width-IsWithin n format bug h le = tt
star_width-IsWithin n format fault h le = tt
star_width-IsWithin n format out_of_fuel h le = h

take_width-IsWithin :
    (n : ℕ) (format : List ℕ) (ap : List Arg)
    → length format ≤ n
    → IsWithin n (take_width format ap)
unfolding take_width IsWithin
take_width-IsWithin n [] args le = omega arith
take_width-IsWithin n (c ∷ format) args le =
    IsWithin-if (c == 42) n _ _
      (star_width-IsWithin n format (va_arg args) (va_arg-IsEnough args) (omega arith))
      (omega (arith, read_width-length (c ∷ format) 0))

directive-IsWithin :
    (n : ℕ) (format : List ℕ) (p : Printer) → length format ≤ n → IsWithin n (directive format p)
unfolding directive IsWithin
directive-IsWithin n [] p le = omega arith
directive-IsWithin n (c ∷ format) p le = IsWithin-if (c == 37) n _ _ (omega arith) (
    >>=-IsWithin n (take_width start.0 p.ap) _ (take_width-IsWithin n start.0 p.ap start_le)
      (λ format2 a le2. convert-IsWithin n a.0 start.1 format2 (record p { ap = a.1 }) le2))
  where
    start : List ℕ × ℕ
    start = if c == 45 then skip_zeros format 2 else skip_zeros (c ∷ format) 0

    start_le : length start.0 ≤ n
    start_le = elim (Bool-cases (c == 45)) [
      | inl minus ↦ rw minus (omega (arith, skip_zeros-length format 2))
      | inr other ↦ rw other (omega (arith, skip_zeros-length (c ∷ format) 0))
    ]

print_rest :
    (fuel : ℕ) (r : Result (List ℕ × Printer))
    → IsWithin fuel r
    → ((format : List ℕ) (p : Printer) → length format ≤ fuel → IsEnough (print_loop fuel format p))
    → IsEnough (r >>= λ r. print_loop fuel r.0 r.1)
unfolding IsWithin IsEnough
print_rest fuel (ok (rest, p)) h k = k rest p h
print_rest fuel bug h k = tt
print_rest fuel fault h k = tt
print_rest fuel out_of_fuel h k = h

print_loop-IsEnough :
    (fuel : ℕ) (format : List ℕ) (p : Printer)
    → length format ≤ fuel
    → IsEnough (print_loop fuel format p)
unfolding print_loop IsEnough
print_loop-IsEnough fuel [] p le = tt
print_loop-IsEnough zero (c ∷ format) p le = omega arith
print_loop-IsEnough (suc fuel) (c ∷ format) p le =
    IsEnough-if (c == 37) _ _
      (print_rest fuel (directive format p) (directive-IsWithin fuel format p (omega arith))
        (print_loop-IsEnough fuel))
      (print_loop-IsEnough fuel format (plain c p) (omega arith))

not_out_of_fuel {ℓ} : {A : Type ℓ} (r : Result A) → IsEnough r → r ≢ out_of_fuel
unfolding IsEnough
not_out_of_fuel (ok a) h e = cc
not_out_of_fuel bug h e = cc
not_out_of_fuel fault h e = cc
not_out_of_fuel out_of_fuel h e = h

-- A round for each character of the format is enough for simple_vsprintf: every round takes one
-- character of the format at least, whatever the format and the arguments are.
pub simple_vsprintf-ends :
    (out format : List ℕ) (ap : List Arg) (u : ℕ) → simple_vsprintf out format ap u ≢ out_of_fuel
unfolding simple_vsprintf
simple_vsprintf-ends out format ap u = not_out_of_fuel _ (
    print_loop-IsEnough (length format) format (record { out = out; pc = 0; ap = ap; u = u })
      (omega arith))
