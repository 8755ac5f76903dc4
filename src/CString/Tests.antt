-- ===== src/CString/Tests.antt =====
-- Short strings.
use chcore_lab_v.Base.{ℕ, ◌≡◌, ◌↔◌, ◌^◌, ◌-◌, refl, List, [], ◌∷◌, arith}
use chcore_lab_v.CString.{strcmp, strlen}
use chcore_lab_v.CString.Compare.{IsString, strcmp-eq}

abbrev ab : List ℕ
ab = 97 ∷ 98 ∷ []

abbrev ac : List ℕ
ac = 97 ∷ 99 ∷ []

before : strcmp ab ac ≡ 2 ^ 32 - 1
unfolding strcmp
before = refl

two_long : strlen ab ≡ 2
unfolding strlen
two_long = refl

ab-IsString : IsString ab
unfolding IsString
ab-IsString = (omega arith, omega arith, (omega arith, omega arith, tt))

ac-IsString : IsString ac
unfolding IsString
ac-IsString = (omega arith, omega arith, (omega arith, omega arith, tt))

strcmp-eq_example : (strcmp ab ac ≡ 0) ↔ (ab ≡ ac)
strcmp-eq_example = strcmp-eq ab ac ab-IsString ac-IsString
