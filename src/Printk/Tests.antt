-- ===== src/Printk/Tests.antt =====
-- Runs of printk.
use chcore_lab_v.Base.{◌≡◌, refl, [], ◌∷◌, Result, ok, arith}
use chcore_lab_v.Printk.{prints}
use chcore_lab_v.Printk.Prints.{Printed, prints-Printed}
use chcore_lab_v.Printk.Format.{Arg, printk}

-- "%d" of -42, and "%04x" of 0xab.
minus : printk (37 ∷ 100 ∷ []) (Arg.word 0xffffffd6 ∷ []) 0 ≡ ok (45 ∷ 52 ∷ 50 ∷ [])
unfolding printk
minus = refl

hex : printk (37 ∷ 48 ∷ 52 ∷ 120 ∷ []) (Arg.word 0xab ∷ []) 0 ≡ ok (48 ∷ 48 ∷ 97 ∷ 98 ∷ [])
unfolding printk
hex = refl

-- "%hu" prints the stale bytes of the union: after "%lu" of 2^32 the 7 is printed as 2^32 + 7.
stale :
    printk (37 ∷ 108 ∷ 117 ∷ 37 ∷ 104 ∷ 117 ∷ []) (Arg.word (0x100000000) ∷ Arg.word 7 ∷ []) 0
    ≡ ok (
        52 ∷ 50 ∷ 57 ∷ 52 ∷ 57 ∷ 54 ∷ 55 ∷ 50 ∷ 57 ∷ 54 ∷ 52 ∷ 50 ∷ 57 ∷ 52 ∷ 57 ∷ 54 ∷ 55 ∷ 51 ∷ 48
        ∷ 51 ∷ [])
unfolding printk
stale = refl

-- "%b" of -1 has 64 digits, one more than print_buf has room for.
binary : printk (37 ∷ 98 ∷ []) (Arg.word 0xffffffff ∷ []) 0 ≡ Result.fault
unfolding printk
binary = refl

prints-Printed_example : Printed [] (49 ∷ 50 ∷ []) 5 1 (prints [] (49 ∷ 50 ∷ []) 5 1)
prints-Printed_example = prints-Printed [] (49 ∷ 50 ∷ []) 5 1 (omega arith) (omega arith)
