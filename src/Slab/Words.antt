-- ===== src/Slab/Words.antt =====
-- The words of memory that the slabs of kernel/mm/slab.c use: headers and free slots, counted.
use chcore_lab_v.Base.{
  ℕ, ◌+◌, ◌≤◌, ◌≡◌, refl, sym, subst, ap, List, [], ◌∷◌, true, false, some, contains, erase, ◌==◌,
  if◌then◌else◌, update, inl, inr, arith, Bool-cases,
}
use chcore_lab_v.Slab.Chain.{IsChain, IsChain-update}
use chcore_lab_v.Slab.Slabs.{IsSlabs, far, apart, first_slot, without_first, slot_of}

-- How often a word is in a list.
abbrev pub hit : ℕ → ℕ → ℕ
hit a x = if a == x then 1 else 0

unfoldable pub count_of : ℕ → List ℕ → ℕ
count_of a [] = 0
count_of a (x ∷ xs) = hit a x + count_of a xs

pub contains_of_count : (a : ℕ) (xs : List ℕ) → count_of a xs ≡ 0 → contains a xs ≡ false
unfolding count_of
contains_of_count a [] h = refl
contains_of_count a (x ∷ xs) h = ground (arith, contains_of_count a xs)

pub count_pos : (a : ℕ) (xs : List ℕ) → contains a xs ≡ true → 1 ≤ count_of a xs
unfolding count_of
count_pos a [] h = absurd (cc)
count_pos a (x ∷ xs) h = ground (arith, count_pos a xs)

pub count-erase :
    (b a : ℕ) (xs : List ℕ)
    → contains a xs ≡ true
    → count_of b (erase a xs) + hit b a ≡ count_of b xs
unfolding count_of
count-erase b a [] h = absurd (cc)
count-erase b a (x ∷ xs) h = elim (Bool-cases (a == x)) [
  | inl same ↦ ground (arith, same)
  | inr other ↦ ground (arith, other, count-erase b a xs)
]

-- How often a word is a header's first or second word, or a free slot.
unfoldable pub weight : ℕ → List (ℕ × List ℕ) → ℕ
weight a [] = 0
weight a ((s, xs) ∷ ss) = (hit a s + hit a (s + 8)) + (count_of a xs + weight a ss)

unfoldable pub headers : List (ℕ × List ℕ) → List ℕ
headers [] = []
headers ((s, xs) ∷ ss) = s ∷ headers ss

-- The slot `x` is given back to the slab with the header at `s`.
unfoldable pub give_back : ℕ → ℕ → List (ℕ × List ℕ) → List (ℕ × List ℕ)
give_back s x [] = []
give_back s x ((t, ys) ∷ ss) =
    let rest = give_back s x ss in if s == t then (t, x ∷ ys) ∷ ss else (t, ys) ∷ rest

pub weight_header :
    (s : ℕ) (ss : List (ℕ × List ℕ)) → contains s (headers ss) ≡ true → 1 ≤ weight s ss
unfolding headers weight
weight_header s [] h = absurd (cc)
weight_header s ((t, ys) ∷ ss) h = ground (arith, weight_header s ss)

pub weight-without_first :
    (a s x : ℕ) (ss : List (ℕ × List ℕ))
    → first_slot ss ≡ some (s, x)
    → weight a (without_first ss) + hit a x ≡ weight a ss
unfolding weight without_first first_slot count_of
weight-without_first a s x [] e = absurd (cc)
weight-without_first a s x ((t, []) ∷ ss) e = omega (arith, weight-without_first a s x ss e)
weight-without_first a s x ((t, y ∷ ys) ∷ ss) e =
    let same : hit a y ≡ hit a x = ap (hit a) (slot_of (t, y) (s, x) e).1 in omega (arith, same)

pub weight-give_back :
    (a s x : ℕ) (ss : List (ℕ × List ℕ))
    → contains s (headers ss) ≡ true
    → weight a (give_back s x ss) ≡ weight a ss + hit a x
unfolding weight give_back headers count_of
weight-give_back a s x [] h = absurd (cc)
weight-give_back a s x ((t, ys) ∷ ss) h = elim (Bool-cases (s == t)) [
  | inl same ↦ rw same (omega arith)
  | inr other ↦
      let there : contains s (headers ss) ≡ true = ground (arith, h, other) in
      rw other (omega (arith, weight-give_back a s x ss there))
]

pub headers-without_first : (ss : List (ℕ × List ℕ)) → headers (without_first ss) ≡ headers ss
unfolding headers without_first
headers-without_first [] = refl
headers-without_first ((t, []) ∷ ss) = ap (λ hs. t ∷ hs) (headers-without_first ss)
headers-without_first ((t, y ∷ ys) ∷ ss) = refl

pub headers-give_back : (s x : ℕ) (ss : List (ℕ × List ℕ)) → headers (give_back s x ss) ≡ headers ss
unfolding headers give_back
headers-give_back s x [] = refl
headers-give_back s x ((t, ys) ∷ ss) = elim (Bool-cases (s == t)) [
  | inl same ↦ rw same refl
  | inr other ↦ rw other (ap (λ hs. t ∷ hs) (headers-give_back s x ss))
]

-- Where no word is used twice, the slabs lie apart.
far_of_weight :
    (s : ℕ) (xs : List ℕ) (ss : List (ℕ × List ℕ))
    → ((a : ℕ) → (hit a s + hit a (s + 8)) + (count_of a xs + weight a ss) ≤ 1)
    → far s xs ss ≡ true
unfolding far weight
far_of_weight s xs [] once = refl
far_of_weight s xs ((t, ys) ∷ ss) once =
    let at_s = once s in
    let at_t = once t in
    let rest = far_of_weight s xs ss (λ a. omega (arith, once a)) in
    let none_s : contains s ys ≡ false = contains_of_count s ys (ground (arith, at_s)) in
    let none_t : contains t xs ≡ false = contains_of_count t xs (ground (arith, at_t)) in
    ground (arith, at_s, at_t)

pub apart_of_weight : (ss : List (ℕ × List ℕ)) → ((a : ℕ) → weight a ss ≤ 1) → apart ss ≡ true
unfolding apart weight
apart_of_weight [] once = refl
apart_of_weight ((s, xs) ∷ ss) once =
    let own : contains s xs ≡ false = contains_of_count s xs (ground (arith, once s)) in
    let off = far_of_weight s xs ss once in
    let rest = apart_of_weight ss (λ a. omega (arith, once a)) in ground arith

-- A write to a word that the slabs do not use.
pub IsSlabs-update_unused :
    (mem : ℕ → ℕ) (a w head : ℕ) (ss : List (ℕ × List ℕ))
    → weight a ss ≡ 0
    → IsSlabs mem head ss
    → IsSlabs (update mem a w) head ss
unfolding IsSlabs weight
IsSlabs-update_unused mem a w head [] h c = c
IsSlabs-update_unused mem a w head ((t, ys) ∷ ss) h (at, there, chain, rest) =
    let same : update mem a w t ≡ mem t = ground arith in
    let same' : update mem a w (t + 8) ≡ mem (t + 8) = ground arith in
    (
      at,
      there,
      subst (λ (b : ℕ). IsChain (update mem a w) b ys) (sym same)
          (IsChain-update mem a w (mem t) ys (contains_of_count a ys (omega arith)) chain),
      subst (λ (b : ℕ). IsSlabs (update mem a w) b ss) (sym same')
          (IsSlabs-update_unused mem a w (mem (t + 8)) ss (omega arith) rest),
    )
