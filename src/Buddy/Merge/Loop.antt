-- ===== src/Buddy/Merge/Loop.antt =====
-- merge_page of buddy.c: the recursion.
use chcore_lab_v.Base.{
  ℕ, zero, suc, ◌+◌, ◌^◌, ◌<◌, ◌≡◌, refl, ap, ◌∙◌, ◌⊎◌, inl, inr, true, false, ◌||◌, ltb, ◌==◌,
  if◌then◌else◌, eq_of_==, ltb-false_of_le, Bool-cases, Result, ok, arith,
}
use chcore_lab_v.Base.Pow.{two-pow-pos, IsAligned}
use chcore_lab_v.Buddy.{Pool, remove_free, join, merge_page}
use chcore_lab_v.Buddy.Tiling.{own_chunk, AreBuddies}
use chcore_lab_v.Buddy.Chunk.{FoundBuddy, get_buddy_chunk_cases}
use chcore_lab_v.Buddy.Invariant.{frame, order_of}
use chcore_lab_v.Buddy.Step.{Floats, Moves, Moves-refl, Moves-trans}
use chcore_lab_v.Buddy.Merge.{joined, joined-Moves, grown, merge_page-suc}

join_lem :
    (s : Pool) (p b l k : ℕ)
    → (if ltb b p then b else p) ≡ l
    → order_of s l ≡ k
    → order_of s b ≡ k
    → join p b (remove_free b s) ≡ (joined s b l k, l)
join_lem s p b l k low order order' = ground (arith, low, order, order')

-- One merge: the chunk `p` and its buddy `b` become the chunk `low` of the next order.
record MergeStep (fuel : ℕ) (s : Pool) (own : ℕ → ℕ) (p : ℕ) : Type 0 where
  after : Pool
  owner : ℕ → ℕ
  low : ℕ
  continues : merge_page (suc fuel) s p ≡ merge_page fuel after low
  moves : Moves s own p after owner low
  larger : order_of after low ≡ suc (order_of s p)
  covers : (i : ℕ) → i < s.pool_phys_page_num → own i ≡ p → owner i ≡ low

module _ {s : Pool} {own : ℕ → ℕ} {p b : ℕ} (f : Floats s own p) (g : FoundBuddy s own p b)
    (same : order_of s b ≡ order_of s p) (b_free : (s.pages b).allocated ≡ false)
    (room : order_of s p < 13) (fuel : ℕ) where
  module _ (l u : ℕ) (al : IsAligned (suc (order_of s p)) (frame s + l))
      (at : u ≡ l + 2 ^ order_of s p) (which : ((l ≡ p) × (u ≡ b)) ⊎ ((l ≡ b) × (u ≡ p))) where
    merge_low : MergeStep fuel s own p
    merge_low = record {
      after = joined s b l (order_of s p);
      owner = own_chunk u (order_of s p) l own;
      low = l;
      continues =
          merge_page-suc fuel p b s (ltb-false_of_le 13 (order_of s p) (omega arith)) (ground arith)
            f.is_free g.found b_free same
          ∙ ap (λ (x : Pool × ℕ). merge_page fuel x.0 x.1)
              (join_lem s p b l (order_of s p) (ground (arith, two-pow-pos (order_of s p)))
                (ground arith) same);
      moves = joined-Moves f g (order_of s p) refl same b_free room l u al at which;
      larger = grown f g (order_of s p) refl same b_free room l u al at which;
      covers = λ i iN e. ground (
        arith,
        f.valid.tiling.own_in i iN,
        ap (λ (x : ℕ). 2 ^ order_of s x) e,
        ap (λ (x : ℕ). 2 ^ x) same,
      );
    }

  merge_step : AreBuddies (order_of s p) (frame s + p) (frame s + b) → MergeStep fuel s own p
  merge_step (inl (al, e)) = merge_low p b al (omega arith) (inl (refl, refl))
  merge_step (inr (al, e)) = merge_low b p al (omega arith) (inr (refl, refl))

-- A chunk that cannot be merged further: it has the largest order, or its buddy is outside the
-- pool, allocated, or split.
abbrev pub IsStuck : Pool → (ℕ → ℕ) → ℕ → Type 0
IsStuck s own p =
    (order_of s p ≡ 13)
    ⊎ ((b : ℕ)
        → FoundBuddy s own p b
        → ((s.pages b).allocated ≡ true) ⊎ (order_of s b < order_of s p))

-- merge_page returns a chunk that holds the given one and cannot be merged further.
pub record MergeTo (s : Pool) (own : ℕ → ℕ) (p : ℕ) (r : Result (Pool × ℕ)) : Type 0 where
  pub after : Pool
  pub owner : ℕ → ℕ
  pub top : ℕ
  pub returns : r ≡ ok (after, top)
  pub moves : Moves s own p after owner top
  pub maximal : IsStuck after owner top
  pub covers : (i : ℕ) → i < s.pool_phys_page_num → own i ≡ p → owner i ≡ top

module _ {s : Pool} {own : ℕ → ℕ} {p : ℕ} (f : Floats s own p) where
  stops : {r : Result (Pool × ℕ)} → r ≡ ok (s, p) → IsStuck s own p → MergeTo s own p r
  stops e stuck = record {
    after = s;
    owner = own;
    top = p;
    returns = e;
    moves = Moves-refl f;
    maximal = stuck;
    covers = λ i iN e. e;
  }

  goes_on :
      (fuel : ℕ) (step : MergeStep fuel s own p)
      → MergeTo step.after step.owner step.low (merge_page fuel step.after step.low)
      → MergeTo s own p (merge_page (suc fuel) s p)
  goes_on fuel step rest = record {
    after = rest.after;
    owner = rest.owner;
    top = rest.top;
    returns = step.continues ∙ rest.returns;
    moves = Moves-trans step.moves rest.moves;
    maximal = rest.maximal;
    covers = λ i iN e. rest.covers i (rw step.moves.same.num iN) (step.covers i iN e);
  }

pub merge_page-MergeTo :
    (fuel : ℕ) {s : Pool} {own : ℕ → ℕ} {p : ℕ} (f : Floats s own p)
    → 13 < order_of s p + fuel
    → MergeTo s own p (merge_page fuel s p)
unfolding merge_page
merge_page-MergeTo zero f enough = absurd (omega (arith, f.valid.tiling.small _ f.inside f.head))
merge_page-MergeTo (suc fuel) {s} {own} {p} f enough =
    let small = f.valid.tiling.small p f.inside f.head in
    let in_range = ltb-false_of_le 13 (order_of s p) (omega arith) in
    elim (Bool-cases (order_of s p == 13)) [
      | inl full ↦ stops f (rw (in_range, f.is_free, full)) (inl (eq_of_== (order_of s p) 13 full))
      | inr more ↦ elim (get_buddy_chunk_cases f.valid.placed f.valid.tiling p f.inside f.head) [
        | inl outside ↦
            stops f (rw (outside, in_range, f.is_free, more)) (inr (λ b g. ground (arith, g.found)))
        | inr (b, g) ↦
            elim (Bool-cases ((s.pages b).allocated || ltb (order_of s b) (order_of s p))) [
              | inl busy ↦
                  stops f (rw (g.found, in_range, f.is_free, more, busy))
                    (inr (λ b' g'. ground (arith, g.found, g'.found)))
              | inr ready ↦
                  let step =
                    merge_step f g (ground (arith, g.no_larger)) (ground arith) (ground arith) fuel
                      g.buddies in
                  goes_on f fuel step
                    (merge_page-MergeTo fuel step.moves.floats (omega (arith, step.larger)))
            ]
      ]
    ]
