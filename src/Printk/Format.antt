-- ===== src/Printk/Format.antt =====
-- simple_vsprintf and printk of kernel/lib/printk.c.
use chcore_lab_v.Base.{
  ℕ, zero, suc, ◌+◌, ◌-◌, ◌*◌, ◌^◌, ◌%◌, Bool, true, false, ◌&&◌, List, [], ◌∷◌, length, bit_or,
  leb, ltb, ◌==◌, if◌then◌else◌, Result, ok, ◌>>=◌, set_field,
}
use chcore_lab_v.Printk.{pad_zero, pad_right, prints, simple_outputi, simple_outputchar}

-- A variable argument: a word, or a pointer with the string that it leads to.
pub data Arg : Type 0 where
  word : ℕ → Arg
  text : ℕ → List ℕ → Arg

-- The output, `pc`, the arguments that are left, and the union `u` as a 64-bit word.
pub record Printer : Type 0 where
  pub out : List ℕ
  pub pc : ℕ
  pub ap : List Arg
  pub u : ℕ

abbrev pub va_arg : List Arg → Result (Arg × List Arg)
va_arg [] = Result.fault
va_arg (a ∷ ap) = ok (a, ap)

abbrev pub arg_word : Arg → ℕ
arg_word (Arg.word w) = w
arg_word (Arg.text p s) = p

-- The string for `%s`; a word that is not NULL leads nowhere.
abbrev pub arg_string : Arg → Result (List ℕ)
arg_string (Arg.word w) = if w == 0 then ok (40 ∷ 110 ∷ 117 ∷ 108 ∷ 108 ∷ 41 ∷ []) else Result.fault
arg_string (Arg.text p s) = if p == 0 then ok (40 ∷ 110 ∷ 117 ∷ 108 ∷ 108 ∷ 41 ∷ []) else ok s

-- The conversion of a signed member of `bits` bits of the union to `long long`.
abbrev pub sign_extend : ℕ → ℕ → ℕ
sign_extend bits u =
    let low = u % 2 ^ bits in if ltb low (2 ^ (bits - 1)) then low else low + 2 ^ 64 - 2 ^ bits

-- One conversion of an integer: a member of `bits` bits of the union is written, `read` is what is
-- passed on of the union.
unfoldable pub number : ℕ → (ℕ → ℕ) → ℕ → Bool → ℕ → ℕ → ℕ → Printer → Result Printer
unfolding simple_outputi set_field
number bits read base sign letbase width flags p = do
  (arg, ap') ← va_arg p.ap
  let u' = set_field 0 bits (arg_word arg) p.u
  (out', n) ← simple_outputi p.out (read u') base sign width flags letbase
  ok (record { out = out'; pc = p.pc + n; ap = ap'; u = u' })

unfoldable pub print_string : (Arg → Result (List ℕ)) → ℕ → ℕ → ℕ → Printer → Result Printer
unfolding prints set_field
print_string chars bits width flags p = do
  (arg, ap') ← va_arg p.ap
  string ← chars arg
  let (out', n) = prints p.out string width flags
  ok (record { out = out'; pc = p.pc + n; ap = ap'; u = set_field 0 bits (arg_word arg) p.u })

-- The string of `%c`, which is empty for the character 0.
abbrev pub char_string : Arg → Result (List ℕ)
char_string arg = let c = arg_word arg % 2 ^ 8 in ok (if c == 0 then [] else (c ∷ []))

abbrev pub low_word : ℕ → ℕ
low_word u = u % 2 ^ 32

abbrev pub whole : ℕ → ℕ
whole u = u

-- The conversions after `%`, by the length modifier. `d` is 100, `u` 117, `x` 120, `X` 88.
unfoldable pub convert_sized : ℕ → (ℕ → ℕ) → (ℕ → ℕ) → ℕ → ℕ → ℕ → Printer → Result Printer
unfolding number
convert_sized bits signed unsigned c width flags p =
    if c == 100
    then number bits signed 10 true 97 width flags p
    else (if c == 117
        then number bits unsigned 10 false 97 width flags p
        else (if c == 120
            then number bits unsigned 16 false 97 width flags p
            else (if c == 88 then number bits unsigned 16 false 65 width flags p else ok p)))

-- Without a modifier: `b` is 98, `p` 112, `c` 99, `s` 115.
unfoldable pub convert_plain : ℕ → ℕ → ℕ → Printer → Result Printer
unfolding number print_string convert_sized
convert_plain c width flags p =
    if c == 98
    then number 32 (sign_extend 32) 2 true 97 width flags p
    else (if c == 112
        then number 64 whole 16 false 97 width flags p
        else (if c == 99
            then print_string char_string 8 width flags p
            else (if c == 115
                then print_string arg_string 64 width flags p
                else convert_sized 32 (sign_extend 32) low_word c width flags p)))

-- The switch after the second letter of `ll` or `hh`. The rest of the format starts after the
-- letter; a format that ends before it is read past its terminator by the loop.
unfoldable pub convert_twice : ℕ → (ℕ → ℕ) → ℕ → ℕ → List ℕ → Printer → Result (List ℕ × Printer)
unfolding convert_sized
convert_twice bits signed width flags [] p = Result.fault
convert_twice bits signed width flags (c ∷ format) p = do
  p' ← convert_sized bits signed whole c width flags p
  ok (format, p')

-- The switch after `l` (108) or `h` (104), whose letter is `again`.
unfoldable pub convert_long : ℕ → ℕ → ℕ → ℕ → ℕ → List ℕ → Printer → Result (List ℕ × Printer)
unfolding convert_sized convert_twice
convert_long again bits bits2 width flags [] p = Result.fault
convert_long again bits bits2 width flags (c ∷ format) p =
    if c == again
    then convert_twice bits2 (sign_extend bits2) width flags format p
    else (convert_sized bits (sign_extend bits) whole c width flags p >>= λ p'. ok (format, p'))

unfoldable pub convert : ℕ → ℕ → List ℕ → Printer → Result (List ℕ × Printer)
unfolding convert_plain convert_long
convert width flags [] p = Result.fault
convert width flags (c ∷ format) p =
    if c == 108
    then convert_long 108 64 64 width flags format p
    else (if c == 104
        then convert_long 104 16 8 width flags format p
        else (convert_plain c width flags p >>= λ p'. ok (format, p')))

-- `while (*format == '0')`.
unfoldable pub skip_zeros : List ℕ → ℕ → List ℕ × ℕ
skip_zeros [] flags = ([], flags)
skip_zeros (c ∷ format) flags =
    if c == 48 then skip_zeros format (bit_or flags pad_zero) else (c ∷ format, flags)

unfoldable pub read_width : List ℕ → ℕ → List ℕ × ℕ
read_width [] width = ([], width)
read_width (c ∷ format) width =
    if leb 48 c && leb c 57
    then read_width format ((width * 10 + (c - 48)) % 2 ^ 32)
    else (c ∷ format, width)

-- The width: `*` (42) takes an argument.
unfoldable pub take_width : List ℕ → List Arg → Result (List ℕ × (ℕ × List Arg))
unfolding read_width
take_width [] ap = ok ([], (0, ap))
take_width (c ∷ format) ap =
    if c == 42
    then (va_arg ap >>= λ r. ok (format, (arg_word r.0 % 2 ^ 32, r.1)))
    else (let (format', width) = read_width (c ∷ format) 0 in ok (format', (width, ap)))

-- The label `out`: `\n` is 10 and `\r` 13.
abbrev pub plain : ℕ → Printer → Printer
plain c p = record p {
  out = simple_outputchar (if c == 10 then simple_outputchar p.out 13 else p.out) c;
  pc = p.pc + 1;
}

-- What follows `%` (37), from the `-` (45) on.
unfoldable pub directive : List ℕ → Printer → Result (List ℕ × Printer)
unfolding skip_zeros take_width convert
directive [] p = ok ([], p)
directive (c ∷ format) p = if c == 37 then ok (format, plain 37 p) else do
  let (format1, flags) =
      (if c == 45 then skip_zeros format pad_right else skip_zeros (c ∷ format) 0)
  (format2, (width, ap')) ← take_width format1 p.ap
  convert width flags format2 (record p { ap = ap' })

unfoldable pub print_loop : ℕ → List ℕ → Printer → Result Printer
unfolding directive
print_loop fuel [] p = ok p
print_loop zero (c ∷ format) p = Result.out_of_fuel
print_loop (suc fuel) (c ∷ format) p =
    if c == 37
    then (directive format p >>= λ r. print_loop fuel r.0 r.1)
    else print_loop fuel format (plain c p)

-- `u` is what the union holds before it is written.
unfoldable pub simple_vsprintf : List ℕ → List ℕ → List Arg → ℕ → Result Printer
unfolding print_loop
simple_vsprintf out format ap u =
    print_loop (length format) format (record { out = out; pc = 0; ap = ap; u = u })

-- The characters that are sent to the UART.
unfoldable pub printk : List ℕ → List Arg → ℕ → Result (List ℕ)
unfolding simple_vsprintf
printk fmt va u = simple_vsprintf [] fmt va u >>= λ p. ok p.out
