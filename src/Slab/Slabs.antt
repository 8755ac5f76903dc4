-- ===== src/Slab/Slabs.antt =====
-- The chain of the slabs of an order of kernel/mm/slab.c as a sequence of slabs with their free
-- slots, and a request that one of them serves.
use chcore_lab_v.Base.{
  ℕ, ◌+◌, ◌≡◌, ◌≢◌, refl, sym, subst, ap, ◌∙◌, List, [], ◌∷◌, true, false, not, ◌&&◌, Bool, Option,
  none, some, contains, ◌==◌, update, arith,
}
use chcore_lab_v.Slab.Chain.{IsChain, IsChain-update}

-- The chain from `head` on is that of the slabs `ss`, each a header and its free slots.
unfoldable pub IsSlabs : (ℕ → ℕ) → ℕ → List (ℕ × List ℕ) → Type 0
IsSlabs mem head [] = head ≡ 0
IsSlabs mem head ((s, xs) ∷ ss) =
    (head ≡ s) × (s ≢ 0) × IsChain mem (mem s) xs × IsSlabs mem (mem (s + 8)) ss

-- The headers are no words of other slabs, and no slots.
unfoldable pub far : ℕ → List ℕ → List (ℕ × List ℕ) → Bool
far s xs [] = true
far s xs ((t, ys) ∷ ss) =
    (not (s == t) && (not (s == t + 8) && not (t == s + 8)))
    && ((not (contains s ys) && not (contains t xs)) && far s xs ss)

unfoldable pub apart : List (ℕ × List ℕ) → Bool
apart [] = true
apart ((s, xs) ∷ ss) = not (contains s xs) && (far s xs ss && apart ss)

-- The first free slot of the first slab that has one, with its slab.
unfoldable pub first_slot : List (ℕ × List ℕ) → Option (ℕ × ℕ)
first_slot [] = none
first_slot ((s, []) ∷ ss) = first_slot ss
first_slot ((s, x ∷ xs) ∷ ss) = some (s, x)

-- The slabs without it.
unfoldable pub without_first : List (ℕ × List ℕ) → List (ℕ × List ℕ)
without_first [] = []
without_first ((s, []) ∷ ss) = (s, []) ∷ without_first ss
without_first ((s, x ∷ xs) ∷ ss) = (s, xs) ∷ ss

both : (a b : Bool) → a && b ≡ true → (a ≡ true) × (b ≡ true)
both true b h = (refl, h)
both false b h = absurd (cc)

record Far (s : ℕ) (xs : List ℕ) (t : ℕ) (ys : List ℕ) (ss : List (ℕ × List ℕ)) : Type 0 where
  header : s ≢ t
  above : s ≢ t + 8
  below : t ≢ s + 8
  free : contains s ys ≡ false
  free' : contains t xs ≡ false
  rest : far s xs ss ≡ true

far-cons :
    (s t : ℕ) (xs ys : List ℕ) (ss : List (ℕ × List ℕ))
    → far s xs ((t, ys) ∷ ss) ≡ true
    → Far s xs t ys ss
unfolding far
far-cons s t xs ys ss h =
    let near = not (s == t) && (not (s == t + 8) && not (t == s + 8)) in
    let slots = not (contains s ys) && not (contains t xs) in
    let (a, bc) = both near (slots && far s xs ss) h in
    let (b, c) = both slots (far s xs ss) bc in
    record {
      header = ground (arith, a);
      above = ground (arith, a);
      below = ground (arith, a);
      free = ground (arith, b);
      free' = ground (arith, b);
      rest = c;
    }

pub apart-cons :
    (s : ℕ) (xs : List ℕ) (ss : List (ℕ × List ℕ))
    → apart ((s, xs) ∷ ss) ≡ true
    → (contains s xs ≡ false) × (far s xs ss ≡ true) × (apart ss ≡ true)
unfolding apart
apart-cons s xs ss h =
    let (a, bc) = both (not (contains s xs)) (far s xs ss && apart ss) h in
    let (b, c) = both (far s xs ss) (apart ss) bc in (ground (arith, a), b, c)

pub slot_of : (p q : ℕ × ℕ) → some p ≡ some q → (p.0 ≡ q.0) × (p.1 ≡ q.1)
slot_of p q e =
    let same : p ≡ q = cc in (ap (λ (r : ℕ × ℕ). r.0) same, ap (λ (r : ℕ × ℕ). r.1) same)

-- What the slab of the first slot is to a slab that lies apart.
first-far :
    (s t x : ℕ) (xs : List ℕ) (ss : List (ℕ × List ℕ))
    → far s xs ss ≡ true
    → first_slot ss ≡ some (t, x)
    → (s ≢ t) × (t ≢ s + 8) × (contains t xs ≡ false)
unfolding first_slot
first-far s t x xs [] h e = absurd (cc)
first-far s t x xs ((u, []) ∷ ss) h e = first-far s t x xs ss (far-cons s u xs [] ss h).rest e
first-far s t x xs ((u, y ∷ ys) ∷ ss) h e =
    let f = far-cons s u xs (y ∷ ys) ss h in
    let same = (slot_of (u, y) (t, x) e).0 in
    subst (λ (a : ℕ). (s ≢ a) × (a ≢ s + 8) × (contains a xs ≡ false)) same
      (f.header, f.below, f.free')

IsSlabs-update :
    (mem : ℕ → ℕ) (s w head : ℕ) (xs : List ℕ) (ss : List (ℕ × List ℕ))
    → far s xs ss ≡ true
    → IsSlabs mem head ss
    → IsSlabs (update mem s w) head ss
unfolding IsSlabs
IsSlabs-update mem s w head xs [] h c = c
IsSlabs-update mem s w head xs ((t, ys) ∷ ss) h (at, there, chain, rest) =
    let f = far-cons s t xs ys ss h in
    let same : update mem s w t ≡ mem t = ground (arith, f.header) in
    let same' : update mem s w (t + 8) ≡ mem (t + 8) = ground (arith, f.above) in
    (
      at,
      there,
      subst (λ (a : ℕ). IsChain (update mem s w) a ys) (sym same)
          (IsChain-update mem s w (mem t) ys f.free chain),
      subst (λ (a : ℕ). IsSlabs (update mem s w) a ss) (sym same')
          (IsSlabs-update mem s w (mem (t + 8)) xs ss f.rest rest),
    )

-- Taking the first slot off its slab.
pub IsSlabs-without_first :
    (mem : ℕ → ℕ) (head s x : ℕ) (ss : List (ℕ × List ℕ))
    → IsSlabs mem head ss
    → apart ss ≡ true
    → first_slot ss ≡ some (s, x)
    → IsSlabs (update mem s (mem x)) head (without_first ss)
unfolding IsSlabs IsChain first_slot without_first
IsSlabs-without_first mem head s x [] c h e = absurd (cc)
IsSlabs-without_first mem head s x ((t, []) ∷ ss) (at, there, chain, rest) h e =
    let (own, off, more) = apart-cons t [] ss h in
    let (ne, ne', out) = first-far t s x [] ss off e in
    let same : update mem s (mem x) t ≡ mem t = ground (arith, ne) in
    let same' : update mem s (mem x) (t + 8) ≡ mem (t + 8) = ground (arith, ne') in
    (
      at,
      there,
      same ∙ chain,
      subst (λ (a : ℕ). IsSlabs (update mem s (mem x)) a (without_first ss)) (sym same')
          (IsSlabs-without_first mem (mem (t + 8)) s x ss rest more e),
    )
IsSlabs-without_first mem head s x ((t, y ∷ ys) ∷ ss) (at, there, (first, pos, chain), rest) h e =
    let (own, off, more) = apart-cons t (y ∷ ys) ss h in
    let same = slot_of (t, y) (s, x) e in
    let mem' = update mem t (mem y) in
    let out : contains t ys ≡ false = ground (arith, own) in
    let taken : mem' t ≡ mem y = ground arith in
    let link : mem' (t + 8) ≡ mem (t + 8) = ground arith in
    let own_chain : IsChain mem' (mem y) ys = IsChain-update mem t (mem y) (mem y) ys out chain in
    let slab : IsSlabs mem' head ((t, ys) ∷ ss) = (
      at,
      there,
      subst (λ (a : ℕ). IsChain mem' a ys) (sym taken) own_chain,
      subst (λ (a : ℕ). IsSlabs mem' a ss) (sym link)
          (IsSlabs-update mem t (mem y) (mem (t + 8)) (y ∷ ys) ss off rest),
    ) in
    subst (λ (a : ℕ). IsSlabs (update mem a (mem x)) head ((t, ys) ∷ ss)) same.0
      (subst (λ (a : ℕ). IsSlabs (update mem t (mem a)) head ((t, ys) ∷ ss)) same.1 slab)

-- The slabs still lie apart without it.
far-tail :
    (s x : ℕ) (xs : List ℕ) (ss : List (ℕ × List ℕ)) → far s (x ∷ xs) ss ≡ true → far s xs ss ≡ true
unfolding far
far-tail s x xs [] h = refl
far-tail s x xs ((t, ys) ∷ ss) h =
    let f = far-cons s t (x ∷ xs) ys ss h in
    let rest = far-tail s x xs ss f.rest in
    ground (arith, f.header, f.above, f.below, f.free, f.free')

far-without_first :
    (s : ℕ) (xs : List ℕ) (ss : List (ℕ × List ℕ))
    → far s xs ss ≡ true
    → far s xs (without_first ss) ≡ true
unfolding far without_first
far-without_first s xs [] h = refl
far-without_first s xs ((t, []) ∷ ss) h =
    let f = far-cons s t xs [] ss h in
    let rest = far-without_first s xs ss f.rest in
    ground (arith, f.header, f.above, f.below, f.free')
far-without_first s xs ((t, y ∷ ys) ∷ ss) h =
    let f = far-cons s t xs (y ∷ ys) ss h in
    let rest = f.rest in ground (arith, f.header, f.above, f.below, f.free, f.free')

pub apart-without_first :
    (ss : List (ℕ × List ℕ)) → apart ss ≡ true → apart (without_first ss) ≡ true
unfolding apart without_first
apart-without_first [] h = refl
apart-without_first ((t, []) ∷ ss) h =
    let (own, off, more) = apart-cons t [] ss h in
    let off' = far-without_first t [] ss off in
    let more' = apart-without_first ss more in ground arith
apart-without_first ((t, y ∷ ys) ∷ ss) h =
    let (own, off, more) = apart-cons t (y ∷ ys) ss h in
    let off' = far-tail t y ys ss off in ground arith
