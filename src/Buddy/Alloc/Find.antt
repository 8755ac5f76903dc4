-- ===== src/Buddy/Alloc/Find.antt =====
-- buddy_get_pages of buddy.c: the search for a list with a chunk, and its result.
use chcore_lab_v.Base.{
  ℕ, zero, suc, ◌+◌, ◌-◌, ◌^◌, ◌≤◌, ◌<◌, ◌≡◌, ◌≢◌, refl, sym, ap, ◌∙◌, subst, ◌⊎◌, inl, inr, true,
  false, [], ◌∷◌, ltb, leb, ==-refl, Bool-cases, Option, none, some, Result, ok, first, contains,
  length, contains_head, dec_lt, arith, List,
}
use chcore_lab_v.Base.Pow.{two-pow_mono}
use chcore_lab_v.Buddy.{
  Page, Pool, set_allocated, remove_free, split_page, take_chunk, find_chunk, buddy_get_pages,
}
use chcore_lab_v.Buddy.Invariant.{order_of, IsValid, IsMerged, IsMarked, IsMergedBut}
use chcore_lab_v.Buddy.Weight.{free_pages}
use chcore_lab_v.Buddy.Split.{SplitTo, split_page-SplitTo}
use chcore_lab_v.Buddy.Free.{set_allocated_other}
use chcore_lab_v.Buddy.Alloc.{
  facts, remove_free-Floats, free_pages-remove_free, set_allocated-IsValid,
}

-- What buddy_get_pages hands out, and what it leaves behind.
pub record Granted (s : Pool) (own : ℕ → ℕ) (order : ℕ) (r : Result (Pool × Option ℕ))
    : Type 0 where
  pub after : Pool
  pub owner : ℕ → ℕ
  pub page : ℕ
  pub returns : r ≡ ok (after, some page)
  pub valid : IsValid after owner
  pub num : after.pool_phys_page_num ≡ s.pool_phys_page_num
  pub start : after.pool_start_addr ≡ s.pool_start_addr
  pub inside : page < s.pool_phys_page_num
  pub head : owner page ≡ page
  pub taken : (after.pages page).allocated ≡ true
  pub exact : order_of after page ≡ order
  pub balance : free_pages after + 2 ^ order ≡ free_pages s
  pub merges : IsMerged s own → IsMerged after owner
  pub marks : IsMarked s own → IsMarked after owner
  -- Every page of the chunk lay in a free chunk.
  pub was_free :
      (i : ℕ) → i < s.pool_phys_page_num → owner i ≡ page → (s.pages (own i)).allocated ≡ false
  -- The allocated chunks are as before, and there are no other new ones.
  pub kept :
      (q : ℕ)
      → q < s.pool_phys_page_num
      → own q ≡ q
      → (s.pages q).allocated ≡ true
      → (owner q ≡ q)
        × ((after.pages q).allocated ≡ true)
        × (order_of after q ≡ order_of s q)
        × (q ≢ page)
  pub origin :
      (q : ℕ)
      → q < s.pool_phys_page_num
      → q ≢ page
      → owner q ≡ q
      → (after.pages q).allocated ≡ true
      → (own q ≡ q) × ((s.pages q).allocated ≡ true)

removed-IsMergedBut :
    (s : Pool) (own : ℕ → ℕ) (p : ℕ) → IsMerged s own → IsMergedBut (remove_free p s) own p
removed-IsMergedBut s own p m k l u small pair = ground (arith, m k l u small)

given-IsMerged :
    (s : Pool) (own : ℕ → ℕ) (p : ℕ) → IsMergedBut s own p → IsMerged (set_allocated p true s) own
given-IsMerged s own p m k l u small pair = ground (arith, m k l u small)

given-IsMarked :
    (s : Pool) (own : ℕ → ℕ) (p : ℕ)
    → own p ≡ p
    → IsMarked s own
    → IsMarked (set_allocated p true s) own
given-IsMarked s own p head m i iN taken = ground (arith, m i)

head_of : (xs : List ℕ) → 0 < length xs → (p : ℕ) × (first xs ≡ ok p) × (contains p xs ≡ true)
head_of [] h = absurd (omega arith)
head_of (x ∷ xs) h = (x, refl, contains_head x xs)

take_chunk_run :
    (s s' : Pool) (order cur p : ℕ)
    → first (s.free_list cur) ≡ ok p
    → (s.pages p).allocated ≡ false
    → (s.pages p).order ≡ cur
    → split_page 14 (remove_free p s) order p ≡ ok (s', p)
    → (s'.pages p).order ≡ order
    → take_chunk s order cur ≡ ok (set_allocated p true s', some p)
unfolding take_chunk
take_chunk_run s s' order cur p found free at split exact =
    rw (found, split, free, exact, at, ==-refl cur, ==-refl order)

module _ {s : Pool} {own : ℕ → ℕ} (v : IsValid s own) (order cur p : ℕ) (le : order ≤ cur)
    (found : first (s.free_list cur) ≡ ok p) (on_list : contains p (s.free_list cur) ≡ true) where
  split : SplitTo (remove_free p s) own order p (split_page 14 (remove_free p s) order p)
  split =
      split_page-SplitTo 14 order (remove_free-Floats v cur p on_list)
        (omega (arith, facts v cur p on_list))
        (omega (arith, v.tiling.small p (facts v cur p on_list).0 (facts v cur p on_list).1))

  given : Pool
  given = set_allocated p true split.after

  given_other : (q : ℕ) → q ≢ p → given.pages q ≡ split.after.pages q
  unfolding given
  given_other q ne = set_allocated_other split.after p q true ne

  given_self : ((given.pages p).allocated ≡ true) × ((given.pages p).order ≡ order)
  unfolding given
  given_self = ground (arith, split.exact)

  owned_before : (i : ℕ) → i < s.pool_phys_page_num → split.owner i ≡ p → own i ≡ p
  owned_before i iN e =
      let inside = split.moves.floats.valid.tiling.own_in i (rw split.moves.same.num iN) in
      v.tiling.own_all p i (facts v cur p on_list).0 (facts v cur p on_list).1 (omega arith) (
        omega (
          arith,
          ap (λ (x : ℕ). 2 ^ order_of split.after x) e,
          ap (λ (x : ℕ). 2 ^ x) split.exact,
          ap (λ (x : ℕ). 2 ^ x) (facts v cur p on_list).3,
          two-pow_mono le,
        ))

  taken_chunk : Granted s own order (take_chunk s order cur)
  taken_chunk = record {
    after = given;
    owner = split.owner;
    page = p;
    returns =
        unfold given in
        take_chunk_run s split.after order cur p found (facts v cur p on_list).2
          (facts v cur p on_list).3 split.returns split.exact;
    valid = unfold given in set_allocated-IsValid split.moves.floats;
    num = unfold given in split.moves.same.num;
    start = unfold given in split.moves.same.start;
    inside = (facts v cur p on_list).0;
    head = split.moves.floats.head;
    taken = given_self.0;
    exact = given_self.1;
    balance =
        unfold given in
        omega (
          arith,
          split.moves.balance,
          ap (λ (x : ℕ). 2 ^ x) split.exact,
          ap (λ (x : ℕ). 2 ^ x) (facts v cur p on_list).3,
          free_pages-remove_free v cur p on_list,
        );
    merges = λ m.
        unfold given in
        given-IsMerged split.after split.owner p
          (split.moves.merges (removed-IsMergedBut s own p m));
    marks = λ m.
        unfold given in
        given-IsMarked split.after split.owner p split.moves.floats.head (split.moves.marks m);
    was_free = λ i iN e.
        ap (λ (x : ℕ). (s.pages x).allocated) (owned_before i iN e) ∙ (facts v cur p on_list).2;
    kept = λ q qN hq tq.
        let ne : q ≢ p = ground (arith, facts v cur p on_list) in
        let r = split.moves.same.kept q qN hq tq in
        let e = given_other q ne in
        (r.0, ap (λ (x : Page). x.allocated) e ∙ r.1, ap (λ (x : Page). x.order) e ∙ r.2, ne);
    origin = λ q qN ne hq tq.
        let e = given_other q ne in
        let r = split.moves.same.origin q qN hq (ap (λ (x : Page). x.allocated) (sym e) ∙ tq) in
        (r.0, r.1);
  }

-- The search finds a chunk on one of the lists from `cur` on, or they are all empty.
unfoldable pub Search : Pool → (ℕ → ℕ) → ℕ → ℕ → Result (Pool × Option ℕ) → Type 0
Search s own order cur r =
    ((r ≡ ok (s, none)) × ((j : ℕ) → cur ≤ j → j < 14 → s.free_list j ≡ [])) ⊎ Granted s own order r

nil_of_count : (xs : List ℕ) (n : ℕ) → n ≡ length xs → ltb 0 n ≡ false → xs ≡ []
nil_of_count [] n e h = refl
nil_of_count (x ∷ xs) n e h = ground arith

leb-false_of_lt : (order : ℕ) → order < 14 → leb 14 order ≡ false
leb-false_of_lt order h = ground arith

later_Search :
    (s : Pool) (own : ℕ → ℕ) (cur order : ℕ) (r : Result (Pool × Option ℕ))
    → s.free_list cur ≡ []
    → Search s own order (cur + 1) r
    → Search s own order cur r
unfolding Search
later_Search s own cur order r empty (inl (e, rest)) = inl (
  e,
  λ j lo hi. elim (dec_lt cur j) [
    | yes above ↦ rest j (omega arith) hi
    | no at ↦ let same : cur ≡ j = omega arith in subst (λ k. s.free_list k ≡ []) same empty
  ],
)
later_Search s own cur order r empty (inr granted) = inr granted

find_chunk-Search :
    (rounds cur order : ℕ) {s : Pool} {own : ℕ → ℕ}
    → IsValid s own
    → order ≤ cur
    → cur + rounds ≡ 14
    → Search s own order cur (find_chunk rounds s order cur)
unfolding Search find_chunk
find_chunk-Search zero cur order v le e = inl (refl, λ j lo hi. absurd (omega arith))
find_chunk-Search (suc rounds) cur order {s} {own} v le e =
    elim (Bool-cases (ltb 0 (s.nr_free cur))) [
      | inl some_free ↦
          let pos : 0 < length (s.free_list cur) = ground (arith, v.lists.counted cur) in
          let (p, found, on_list) = head_of (s.free_list cur) pos in
          rw some_free (inr (taken_chunk v order cur p le found on_list))
      | inr none_free ↦
          let empty =
            nil_of_count (s.free_list cur) (s.nr_free cur) (v.lists.counted cur) none_free in
          rw none_free (
            later_Search s own cur order _ empty
              (find_chunk-Search rounds (cur + 1) order v (omega arith) (omega arith)))
    ]

-- On a valid pool, buddy_get_pages at an order below 14 returns: either NULL with the pool
-- unchanged, and every free list from that order on is empty; or an allocated chunk of exactly
-- that order whose pages all lay in a free chunk, with the pool valid, the accounted pages
-- reduced by the chunk and the allocated chunks otherwise as before.
pub buddy_get_pages-Search :
    {s : Pool} {own : ℕ → ℕ} (order : ℕ)
    → IsValid s own
    → order < 14
    → Search s own order order (buddy_get_pages s order)
unfolding buddy_get_pages
buddy_get_pages-Search {s} {own} order v small =
    rw (leb-false_of_lt order small)
      (find_chunk-Search (14 - order) order order v (omega arith) (omega arith))

-- On a valid pool, buddy_get_pages grants a request whenever there is a free chunk of at least
-- the requested order.
pub buddy_get_pages-Granted :
    {s : Pool} {own : ℕ → ℕ} (order h : ℕ)
    → IsValid s own
    → h < s.pool_phys_page_num
    → own h ≡ h
    → (s.pages h).allocated ≡ false
    → order ≤ order_of s h
    → Granted s own order (buddy_get_pages s order)
unfolding Search
buddy_get_pages-Granted {s} {own} order h v hN head is_free le =
    let small = v.tiling.small h hN head in
    let on = v.lists.complete h hN head is_free (omega arith) in
    elim (buddy_get_pages-Search order v (omega arith)) [
      | inl (e, empty) ↦
          let none_there = ap (contains h) (empty (order_of s h) le small) in absurd (ground arith)
      | inr granted ↦ granted
    ]
