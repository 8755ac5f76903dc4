-- ===== src/Slab/Request.antt =====
-- A request that one of the slabs of an order of kernel/mm/slab.c serves.
use chcore_lab_v.Base.{
  ℕ, zero, suc, ◌+◌, ◌≤◌, ◌<◌, ◌≡◌, ◌≢◌, refl, sym, subst, ap, ◌∙◌, List, [], ◌∷◌, true, false,
  some, length, ◌==◌, Result, ok, arith, ==-false_of_ne,
}
use chcore_lab_v.Machine.{Machine}
use chcore_lab_v.Slab.{find_slab, take_slot, _alloc_in_slab_nolock}
use chcore_lab_v.Slab.Chain.{IsChain}
use chcore_lab_v.Slab.Slabs.{
  IsSlabs, apart, apart-cons, first_slot, without_first, slot_of, IsSlabs-without_first,
  apart-without_first,
}

-- The search finds it.
pub find_slab-first_slot :
    (fuel head s x : ℕ) (m : Machine) (ss : List (ℕ × List ℕ))
    → IsSlabs m.mem head ss
    → first_slot ss ≡ some (s, x)
    → length ss < fuel
    → (find_slab fuel m head ≡ ok s) × (m.mem s ≡ x) × (s ≢ 0)
unfolding IsSlabs IsChain first_slot find_slab
find_slab-first_slot zero head s x m ss c e enough = absurd (omega arith)
find_slab-first_slot (suc fuel) head s x m [] c e enough = absurd (cc)
find_slab-first_slot (suc fuel) head s x m ((t, []) ∷ ss) (at, there, chain, rest) e enough =
    let go : (head == 0) ≡ false = ground arith in
    let empty : (m.mem head == 0) ≡ true = ground (arith, ap m.mem at, chain) in
    let below : IsSlabs m.mem (m.mem (head + 8)) ss =
      subst (λ (a : ℕ). IsSlabs m.mem (m.mem (a + 8)) ss) (sym at) rest in
    rw (go, empty) (find_slab-first_slot fuel (m.mem (head + 8)) s x m ss below e (omega arith))
find_slab-first_slot (suc fuel) head s x m ((t, y ∷ ys) ∷ ss) (at, there, (first, pos, chain), rest)
      e enough =
    let go : (head == 0) ≡ false = ground arith in
    let full : (m.mem head == 0) ≡ false = ground (arith, ap m.mem at, first) in
    let same = slot_of (t, y) (s, x) e in
    (
      rw (go, full) (ap (λ (a : ℕ). ok a) (at ∙ same.0)),
      ap m.mem (sym same.0) ∙ first ∙ same.1,
      λ (z : s ≡ 0). there (same.0 ∙ z),
    )

-- What a request leaves behind that a slab of the chain serves.
pub record SlotTaken (m : Machine) (head s x : ℕ) (ss : List (ℕ × List ℕ))
    (r : Result (Machine × ℕ)) : Type 0 where
  pub returns : r ≡ ok (take_slot s x m, x)
  pub slabs : IsSlabs (take_slot s x m).mem head (without_first ss)
  pub still : apart (without_first ss) ≡ true

own_slot :
    (fuel head order : ℕ) (m : Machine)
    → (head == 0) ≡ false
    → (m.mem head == 0) ≡ false
    → _alloc_in_slab_nolock (suc fuel) m head order ≡ ok (take_slot head (m.mem head) m, m.mem head)
unfolding _alloc_in_slab_nolock
own_slot fuel head order m go full = rw (go, full) refl

other_slot :
    (fuel head order s : ℕ) (m : Machine)
    → (head == 0) ≡ false
    → (m.mem head == 0) ≡ true
    → find_slab fuel m (m.mem (head + 8)) ≡ ok s
    → (s == 0) ≡ false
    → _alloc_in_slab_nolock (suc fuel) m head order ≡ ok (take_slot s (m.mem s) m, m.mem s)
unfolding _alloc_in_slab_nolock
other_slot fuel head order s m go empty found there = rw (go, empty, found, there) refl

served :
    (s x : ℕ) (m : Machine) {r : Result (Machine × ℕ)}
    → r ≡ ok (take_slot s (m.mem s) m, m.mem s)
    → m.mem s ≡ x
    → r ≡ ok (take_slot s x m, x)
served s x m e at = e ∙ ap (λ (a : ℕ). ok (take_slot s a m, a)) at

alloc_returns :
    (fuel head order s x : ℕ) (m : Machine) (ss : List (ℕ × List ℕ))
    → IsSlabs m.mem head ss
    → first_slot ss ≡ some (s, x)
    → length ss ≤ fuel
    → _alloc_in_slab_nolock (suc fuel) m head order ≡ ok (take_slot s x m, x)
unfolding IsSlabs IsChain first_slot
alloc_returns fuel head order s x m [] c e enough = absurd (cc)
alloc_returns fuel head order s x m ((t, []) ∷ ss) (at, there, chain, rest) e enough =
    let go : (head == 0) ≡ false = ground arith in
    let empty : (m.mem head == 0) ≡ true = ground (arith, ap m.mem at, chain) in
    let below : IsSlabs m.mem (m.mem (head + 8)) ss =
      subst (λ (a : ℕ). IsSlabs m.mem (m.mem (a + 8)) ss) (sym at) rest in
    let (found, holds, real) =
      find_slab-first_slot fuel (m.mem (head + 8)) s x m ss below e (omega arith) in
    served s x m (other_slot fuel head order s m go empty found (==-false_of_ne s 0 real)) holds
alloc_returns fuel head order s x m ((t, y ∷ ys) ∷ ss) (at, there, (first, pos, chain), rest) e
      enough =
    let go : (head == 0) ≡ false = ground arith in
    let full : (m.mem head == 0) ≡ false = ground (arith, ap m.mem at, first) in
    let same = slot_of (t, y) (s, x) e in
    let here : head ≡ s = at ∙ same.0 in
    served s x m
      (own_slot fuel head order m go full
        ∙ ap (λ (a : ℕ). ok (take_slot a (m.mem a) m, m.mem a)) here)
      (ap m.mem (sym same.0) ∙ first ∙ same.1)

-- Where some slab of the chain has a free slot, a request of the order takes the first one.
pub _alloc_in_slab_nolock-SlotTaken :
    (fuel head order s x : ℕ) (m : Machine) (ss : List (ℕ × List ℕ))
    → IsSlabs m.mem head ss
    → apart ss ≡ true
    → first_slot ss ≡ some (s, x)
    → length ss ≤ fuel
    → SlotTaken m head s x ss (_alloc_in_slab_nolock (suc fuel) m head order)
_alloc_in_slab_nolock-SlotTaken fuel head order s x m ss c h e enough = record {
  returns = alloc_returns fuel head order s x m ss c e enough;
  slabs = IsSlabs-without_first m.mem head s x ss c h e;
  still = apart-without_first ss h;
}

-- The slot is not its slab's header.
pub slot_apart :
    (s x : ℕ) (ss : List (ℕ × List ℕ)) → apart ss ≡ true → first_slot ss ≡ some (s, x) → x ≢ s
unfolding first_slot
slot_apart s x [] h e = absurd (cc)
slot_apart s x ((t, []) ∷ ss) h e = slot_apart s x ss (apart-cons t [] ss h).2 e
slot_apart s x ((t, y ∷ ys) ∷ ss) h e =
    let own = (apart-cons t (y ∷ ys) ss h).0 in
    let same = slot_of (t, y) (s, x) e in
    let ne : y ≢ t = ground (arith, own) in λ z. ne (same.1 ∙ z ∙ sym same.0)
