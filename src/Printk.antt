-- ===== src/Printk.antt =====
-- kernel/lib/printk.c. A character is its code, a string the list of its characters before the
-- terminator. What simple_outputchar writes, to a buffer or to the UART, is kept in order. An `int`
-- is the 32-bit word and a `long long` the 64-bit word of its two's complement.
pub mod Format
pub mod Enough
pub mod Loop
pub mod Digits
pub mod Prints
mod Tests
use chcore_lab_v.Base.{
  ◌>>=◌, ℕ, zero, suc, ◌+◌, ◌-◌, ◌/◌, ◌%◌, ◌^◌, Bool, not, ◌&&◌, List, [], ◌∷◌, ◌++◌, length,
  bit_and, ltb, leb, ◌==◌, if◌then◌else◌, Result, ok,
}

abbrev pub print_buf_len : ℕ
print_buf_len = 64

abbrev pub simple_outputchar : List ℕ → ℕ → List ℕ
simple_outputchar out c = out ++ (c ∷ [])

abbrev pub pad_zero : ℕ
pad_zero = 1

abbrev pub pad_right : ℕ
pad_right = 2

abbrev pub has_flag : ℕ → ℕ → Bool
has_flag flags flag = not (bit_and flags flag == 0)

-- `width > 0` on an `int`.
abbrev pub is_positive : ℕ → Bool
is_positive width = ltb 0 width && ltb width (2 ^ 31)

-- `for (; width > 0; --width)`: the output and the count.
unfoldable pub pad : ℕ → ℕ → List ℕ × ℕ → List ℕ × ℕ
pad zero padchar r = r
pad (suc width) padchar (out, pc) = pad width padchar (simple_outputchar out padchar, pc + 1)

unfoldable pub output_each : List ℕ → List ℕ × ℕ → List ℕ × ℕ
output_each [] r = r
output_each (c ∷ string) (out, pc) = output_each string (simple_outputchar out c, pc + 1)

-- What `width` is after the string is measured.
abbrev pub left_width : ℕ → ℕ → ℕ
left_width width len =
    if is_positive width then (if leb width len then 0 else width - len) else width

-- The rounds of `for (; width > 0; --width)`.
abbrev pub pad_rounds : ℕ → ℕ
pad_rounds width = if is_positive width then width else 0

-- `len` and `pc` are `int`s: a string has fewer than 2^31 characters.
unfoldable pub prints : List ℕ → List ℕ → ℕ → ℕ → List ℕ × ℕ
unfolding pad output_each
prints out string width flags =
    let left = left_width width (length string) in
    let padchar = if is_positive width && has_flag flags pad_zero then 48 else 32 in
    let first =
      if has_flag flags pad_right then (out, 0) else pad (pad_rounds left) padchar (out, 0) in
    let rest = if not (has_flag flags pad_right) && is_positive left then 0 else left in
    pad (pad_rounds rest) padchar (output_each string first)

-- The store to a `char` keeps the low 8 bits; `letbase` is 'a' or 'A' at every call, so that no
-- digit is the terminator.
abbrev pub digit_char : ℕ → ℕ → ℕ
digit_char letbase t = (if leb 10 t then t + letbase - 10 else t + 48) % 2 ^ 8

-- The loop of digits. `space` is the room before the digits that are written: a digit with no room
-- would go before the start of print_buf.
unfoldable pub write_digits : ℕ → ℕ → ℕ → ℕ → List ℕ → Result (List ℕ)
write_digits zero base letbase u s = if u == 0 then ok s else Result.fault
write_digits (suc space) base letbase u s =
    let rest = write_digits space base letbase (u / base) (digit_char letbase (u % base) ∷ s) in
    if u == 0 then ok s else rest

abbrev pub is_negative : ℕ → Bool
is_negative i = leb (2 ^ 63) i

-- The sign of a negative number: before zeros of padding, else in the buffer.
unfoldable pub outputi_negative : List ℕ → List ℕ → ℕ → ℕ → Result (List ℕ × ℕ)
unfolding prints
outputi_negative out s width flags =
    if not (width == 0) && has_flag flags pad_zero
    then (let (out', pc) =
          prints (simple_outputchar out 45) s ((width + 2 ^ 32 - 1) % 2 ^ 32) flags in
        ok (out', pc + 1))
    else (if ltb (length s) (print_buf_len - 1)
        then ok (prints out (45 ∷ s) width flags)
        else Result.fault)

unfoldable pub simple_outputi : List ℕ → ℕ → ℕ → Bool → ℕ → ℕ → ℕ → Result (List ℕ × ℕ)
unfolding prints write_digits outputi_negative
simple_outputi out i base sign width flags letbase =
    if i == 0
    then ok (prints out (48 ∷ []) width flags)
    else (let neg = sign && base == 10 && is_negative i in
        do
          s ← write_digits (print_buf_len - 1) base letbase (if neg then 2 ^ 64 - i else i) []
          if neg then outputi_negative out s width flags else ok (prints out s width flags))
