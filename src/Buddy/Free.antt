-- ===== src/Buddy/Free.antt =====
-- buddy_free_pages of buddy.c.
use chcore_lab_v.Base.{
  ℕ, ◌+◌, ◌*◌, ◌^◌, ◌<◌, ◌≡◌, ◌≢◌, sym, ap, ◌∙◌, subst, fun_ext, Bool, true, false, Result, ok,
  add64, arith,
}
use chcore_lab_v.Buddy.{Page, Pool, set_allocated, insert_free, buddy_free_pages}
use chcore_lab_v.Buddy.Tiling.{IsTiling}
use chcore_lab_v.Buddy.Invariant.{
  frame, order_of, IsPlaced, IsValid, IsMerged, IsMergedBut, IsMarked,
}
use chcore_lab_v.Buddy.Weight.{weight_below-update, free_pages}
use chcore_lab_v.Buddy.Split.{length-free_list}
use chcore_lab_v.Buddy.Step.{Floats}
use chcore_lab_v.Buddy.Merge.Maximal.{insert_free-IsMerged}
use chcore_lab_v.Buddy.Merge.Loop.{merge_page-MergeTo}

pub set_allocated_other :
    (s : Pool) (p q : ℕ) (b : Bool) → q ≢ p → (set_allocated p b s).pages q ≡ s.pages q
set_allocated_other s p q b ne = ground arith

freed_ne : (s : Pool) (p q : ℕ) → ((set_allocated p false s).pages q).allocated ≡ true → q ≢ p
freed_ne s p q h = ground arith

-- Writing the `allocated` field of a chunk that is on no list.
pub IsTiling-set_allocated :
    (s : Pool) {own : ℕ → ℕ} (p : ℕ) (b : Bool)
    → IsTiling (frame s) s.pool_phys_page_num (order_of s) own
    → IsTiling (frame s) s.pool_phys_page_num (order_of (set_allocated p b s)) own
IsTiling-set_allocated s {own} p b t =
    subst (λ (o : ℕ → ℕ). IsTiling (frame s) s.pool_phys_page_num o own)
      (fun_ext (λ i. ground arith)) t

pub IsPlaced-set_allocated :
    {s : Pool} (p : ℕ) (b : Bool) → IsPlaced s → IsPlaced (set_allocated p b s)
IsPlaced-set_allocated p b v = record {
  start_aligned = v.start_aligned;
  size = v.size;
  high = v.high;
  linked = λ i iN. ground (arith, v.linked i);
}

-- An allocated chunk that is marked free floats.
pub set_allocated-Floats :
    {s : Pool} {own : ℕ → ℕ} (v : IsValid s own) (p : ℕ)
    → p < s.pool_phys_page_num
    → own p ≡ p
    → (s.pages p).allocated ≡ true
    → Floats (set_allocated p false s) own p
set_allocated-Floats {s} v p pN head taken = record {
  valid = record {
    placed = IsPlaced-set_allocated p false v.placed;
    tiling = IsTiling-set_allocated s p false v.tiling;
    lists = record {
      listed = λ j q h. ground (arith, v.lists.listed j q);
      complete = λ q qN hq fq ne. ground (arith, v.lists.complete q);
      distinct = v.lists.distinct;
      counted = v.lists.counted;
    };
  };
  inside = pN;
  head = head;
  is_free = ground arith;
}

-- The floating chunk goes to the front of the list of its order.
pub insert_free-IsValid :
    {s : Pool} {own : ℕ → ℕ} {p : ℕ} → Floats s own p → IsValid (insert_free p s) own
insert_free-IsValid {s} {own} {p} f = record {
  placed = record {
    start_aligned = f.valid.placed.start_aligned;
    size = f.valid.placed.size;
    high = f.valid.placed.high;
    linked = f.valid.placed.linked;
  };
  tiling = f.valid.tiling;
  lists = record {
    listed = λ j q h. ground (arith, f.valid.lists.listed j q, f.inside, f.head, f.is_free);
    complete = λ q qN hq fq ne. ground (arith, f.valid.lists.complete q);
    distinct = λ j. ground (arith, f.valid.lists.distinct j, f.valid.lists.listed j p);
    counted = λ j. ground (
      arith,
      f.valid.lists.counted j,
      f.valid.placed.high,
      length-free_list f.valid (order_of s p),
    );
  };
}

pub free_pages-insert_free :
    {s : Pool} {own : ℕ → ℕ} {p : ℕ}
    → Floats s own p
    → free_pages (insert_free p s) ≡ free_pages s + 2 ^ order_of s p
free_pages-insert_free {s} {p} f = omega (
  arith,
  weight_below-update 14 (order_of s p) (add64 (s.nr_free (order_of s p)) 1) s.nr_free
      (f.valid.tiling.small p f.inside f.head),
  ap (λ (x : ℕ). x * 2 ^ order_of s p) up,
)
  where
    up : add64 (s.nr_free (order_of s p)) 1 ≡ s.nr_free (order_of s p) + 1
    up = omega (
      arith,
      f.valid.lists.counted (order_of s p),
      length-free_list f.valid (order_of s p),
      f.valid.placed.high,
    )

freed-IsMergedBut :
    (s : Pool) (own : ℕ → ℕ) (p : ℕ) → IsMerged s own → IsMergedBut (set_allocated p false s) own p
freed-IsMergedBut s own p m k l u small pair = ground (arith, m k l u small)

freed-IsMarked :
    (s : Pool) (own : ℕ → ℕ) (p : ℕ) → IsMarked s own → IsMarked (set_allocated p false s) own
freed-IsMarked s own p m i iN taken = ground (arith, m i)

-- What buddy_free_pages leaves behind.
pub record Freed (s : Pool) (own : ℕ → ℕ) (p : ℕ) (r : Result Pool) : Type 0 where
  pub after : Pool
  pub owner : ℕ → ℕ
  pub returns : r ≡ ok after
  pub valid : IsValid after owner
  pub num : after.pool_phys_page_num ≡ s.pool_phys_page_num
  pub start : after.pool_start_addr ≡ s.pool_start_addr
  pub balance : free_pages after ≡ free_pages s + 2 ^ order_of s p
  pub merges : IsMerged s own → IsMerged after owner
  pub marks : IsMarked s own → IsMarked after owner
  -- Every page of the chunk now lies in a free chunk.
  pub freed :
      (i : ℕ) → i < s.pool_phys_page_num → own i ≡ p → (after.pages (owner i)).allocated ≡ false
  -- The other allocated chunks are as before, and there are no new ones.
  pub kept :
      (q : ℕ)
      → q < s.pool_phys_page_num
      → q ≢ p
      → own q ≡ q
      → (s.pages q).allocated ≡ true
      → (owner q ≡ q) × ((after.pages q).allocated ≡ true) × (order_of after q ≡ order_of s q)
  pub origin :
      (q : ℕ)
      → q < s.pool_phys_page_num
      → owner q ≡ q
      → (after.pages q).allocated ≡ true
      → (own q ≡ q) × ((s.pages q).allocated ≡ true) × (q ≢ p)

-- On a valid pool, buddy_free_pages of an allocated chunk returns (no BUG_ON fires and the
-- merging ends): the pool is valid again, every page of the chunk lies in a free chunk, the free
-- lists account for its pages more, and the other allocated chunks are exactly those of before
-- with their orders.
pub buddy_free_pages-Freed :
    {s : Pool} {own : ℕ → ℕ} (p : ℕ)
    → IsValid s own
    → p < s.pool_phys_page_num
    → own p ≡ p
    → (s.pages p).allocated ≡ true
    → Freed s own p (buddy_free_pages s p)
unfolding buddy_free_pages
buddy_free_pages-Freed {s} {own} p v pN head taken =
    let f = set_allocated-Floats v p pN head taken in
    let same_order : order_of (set_allocated p false s) p ≡ order_of s p = ground arith in
    let m = merge_page-MergeTo 14 f (omega arith) in
    record {
      after = insert_free m.top m.after;
      owner = m.owner;
      returns = rw (m.returns, m.moves.floats.is_free, taken);
      valid = insert_free-IsValid m.moves.floats;
      num = m.moves.same.num;
      start = m.moves.same.start;
      balance =
          free_pages-insert_free m.moves.floats
          ∙ m.moves.balance
          ∙ ap (λ (x : ℕ). free_pages s + 2 ^ x) same_order;
      merges = λ old.
          insert_free-IsMerged m.moves.floats m.maximal
            (m.moves.merges (freed-IsMergedBut s own p old));
      marks = λ old. m.moves.marks (freed-IsMarked s own p old);
      freed = λ i iN e.
          ap (λ (x : ℕ). (m.after.pages x).allocated) (m.covers i iN e) ∙ m.moves.floats.is_free;
      kept = λ q qN ne hq tq.
          let e = set_allocated_other s p q false ne in
          let r = m.moves.same.kept q qN hq (ap (λ (x : Page). x.allocated) e ∙ tq) in
          (r.0, r.1, r.2 ∙ ap (λ (x : Page). x.order) e);
      origin = λ q qN hq tq.
          let r = m.moves.same.origin q qN hq tq in
          let ne = freed_ne s p q r.1 in
          let e = set_allocated_other s p q false ne in
          (r.0, ap (λ (x : Page). x.allocated) (sym e) ∙ r.1, ne);
    }
