-- ===== src/Base/Outcome.antt =====
-- The outcome of a call: `bug` is a BUG_ON that fires (it prints and loops forever),
-- `fault` is an access that C leaves undefined, such as one through a wild pointer, and
-- `out_of_fuel` is a loop or a recursion of the model that was given too few rounds.
use mathlib.Core.Bool.{Bool, true, false}
use mathlib.Core.List.{List, [], ◌∷◌}
use mathlib.Core.Option.{Option, none, some}

pub data Result {ℓ} (A : Type ℓ) : Type ℓ where
  ok : A → Result A
  bug : Result A
  fault : Result A
  out_of_fuel : Result A

-- The rest of the code runs on the value of a call that returns.
infixl 5 ◌>>=◌
abbrev pub ◌>>=◌ {ℓ κ} : {X : Type ℓ} {Y : Type κ} → Result X → (X → Result Y) → Result Y
out_of_fuel >>= rest = out_of_fuel
fault >>= rest = fault
bug >>= rest = bug
ok value >>= rest = rest value

-- A statement without a value, and what follows it.
infixl 5 ◌>>◌
abbrev pub ◌>>◌ {κ} : {Y : Type κ} → Result (Unit {0}) → Result Y → Result Y
check >> after = check >>= λ _. after

abbrev pub bug_on : Bool → Result (Unit {0})
bug_on true = bug
bug_on false = ok tt

-- `BUG_ON(p == NULL)`, which hands the pointer on.
abbrev pub not_null {ℓ} : {A : Type ℓ} → Option A → Result A
not_null none = bug
not_null (some a) = ok a

-- A list pointer that must lead to an element.
abbrev pub first {ℓ} : {A : Type ℓ} → List A → Result A
first [] = fault
first (x ∷ xs) = ok x
