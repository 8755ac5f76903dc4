-- ===== src/Buddy/Init.antt =====
-- init_buddy of buddy.c.
use chcore_lab_v.Base.{
  ℕ, zero, suc, ◌+◌, ◌*◌, ◌/◌, ◌%◌, ◌^◌, ◌≤◌, ◌<◌, ◌≡◌, refl, ap, ◌∙◌, true, false, ◌&&◌, [], ltb,
  leb, if◌then◌else◌, Result, ok, ◌>>=◌, update, arith,
}
use chcore_lab_v.Buddy.{Page, Pool, fresh_page, next_idx, init_metadata, free_each, init_buddy}
use chcore_lab_v.Buddy.Tiling.{IsTiling}
use chcore_lab_v.Base.Pow.{IsAligned-of_eq}
use chcore_lab_v.Buddy.Invariant.{order_of, IsValid, IsMerged, IsMarked}
use chcore_lab_v.Buddy.Weight.{weight_below, free_pages}
use chcore_lab_v.Buddy.Free.{buddy_free_pages-Freed}

-- The metadata that the first loop leaves behind.
pub fill : ℕ → ℕ → (ℕ → Page) → ℕ → Page
fill zero idx pages = pages
fill (suc rounds) idx pages = fill rounds (idx + 1) (update pages idx fresh_page)

next_idx_lem : (idx : ℕ) → idx + 1 < 2 ^ 31 → next_idx idx ≡ ok (idx + 1)
next_idx_lem idx h = ground arith

init_metadata-fill :
    (rounds idx : ℕ) (pages : ℕ → Page)
    → idx + rounds < 2 ^ 31
    → init_metadata rounds idx pages ≡ ok (fill rounds idx pages)
unfolding init_metadata fill
init_metadata-fill zero idx pages h = refl
init_metadata-fill (suc rounds) idx pages h =
    ap (λ r. r >>= λ i. init_metadata rounds i (update pages idx fresh_page))
      (next_idx_lem idx (omega arith))
    ∙ init_metadata-fill rounds (idx + 1) (update pages idx fresh_page) (omega arith)

fill_lem :
    (rounds idx i : ℕ) (pages : ℕ → Page)
    → fill rounds idx pages i ≡ (if leb idx i && ltb i (idx + rounds) then fresh_page else pages i)
unfolding fill
fill_lem zero idx i pages = ground arith
fill_lem (suc rounds) idx i pages =
    ground (arith, fill_lem rounds (idx + 1) i (update pages idx fresh_page))

-- The pages from `idx` on are still allocated, each by itself, and all others are free.
record IsPartial (addr n idx : ℕ) (s : Pool) (own : ℕ → ℕ) : Type 0 where
  valid : IsValid s own
  num : s.pool_phys_page_num ≡ n
  start : s.pool_start_addr ≡ addr
  waiting :
      (i : ℕ) → idx ≤ i → i < n → (own i ≡ i) × ((s.pages i).allocated ≡ true) × (order_of s i ≡ 0)
  done : (i : ℕ) → i < n → own i ≡ i → (s.pages i).allocated ≡ true → idx ≤ i
  counted : free_pages s ≡ idx
  merged : IsMerged s own
  marked : IsMarked s own

-- The outcome of init_buddy: a valid pool with every page free.
pub record Ready (addr n : ℕ) (r : Result Pool) : Type 0 where
  pub after : Pool
  pub owner : ℕ → ℕ
  pub returns : r ≡ ok after
  pub valid : IsValid after owner
  pub num : after.pool_phys_page_num ≡ n
  pub all_free : (i : ℕ) → i < n → (after.pages (owner i)).allocated ≡ false
  pub counted : free_pages after ≡ n
  pub merged : IsMerged after owner
  pub marked : IsMarked after owner
  pub start : after.pool_start_addr ≡ addr

free_each-Ready :
    (rounds idx n : ℕ) {start : ℕ} {s : Pool} {own : ℕ → ℕ}
    → IsPartial start n idx s own
    → idx + rounds ≡ n
    → n < 2 ^ 31
    → Ready start n (free_each rounds idx s)
unfolding free_each
free_each-Ready zero idx n {start} {s} {own} v e few = record {
  after = s;
  owner = own;
  returns = refl;
  valid = v.valid;
  num = v.num;
  all_free = λ i iN. ground (arith, v.valid.tiling.own_in i, v.num, v.done (own i));
  counted = v.counted ∙ omega arith;
  merged = v.merged;
  marked = v.marked;
  start = v.start;
}
free_each-Ready (suc rounds) idx n {start} {s} {own} v e few =
    let w = v.waiting idx (omega arith) (omega arith) in
    let freed = buddy_free_pages-Freed idx v.valid (omega (arith, v.num)) w.0 w.1 in
    let next : IsPartial start n (idx + 1) freed.after freed.owner = record {
      valid = freed.valid;
      num = freed.num ∙ v.num;
      start = freed.start ∙ v.start;
      merged = freed.merges v.merged;
      marked = freed.marks v.marked;
      waiting = λ i lo hi. ground (arith, v.num, v.waiting i, freed.kept i);
      done = λ i iN head taken. ground (arith, v.num, freed.origin i, v.done i);
      counted = omega (arith, freed.balance, v.counted, ap (λ (x : ℕ). 2 ^ x) w.2);
    } in
    let rest = free_each-Ready rounds (idx + 1) n next (omega arith) few in
    record {
      after = rest.after;
      owner = rest.owner;
      returns = rw (freed.returns, next_idx_lem idx (omega arith)) rest.returns;
      valid = rest.valid;
      num = rest.num;
      all_free = rest.all_free;
      counted = rest.counted;
      merged = rest.merged;
      marked = rest.marked;
      start = rest.start;
    }

module _ (old : ℕ → Page) (start n : ℕ) (start_aligned : start % 4096 ≡ 0)
    (high : start + n * 4096 < 2 ^ 64) where
  -- The pool before the loop that frees the pages.
  abbrev pub fresh : Pool
  fresh = record {
    pool_start_addr = start;
    pool_mem_size = n * 0x1000 % 2 ^ 64;
    pool_phys_page_num = n;
    pages = fill n 0 old;
    free_list = λ _. [];
    nr_free = λ _. 0;
  }

  fresh_at : (i : ℕ) → i < n → fill n 0 old i ≡ fresh_page
  fresh_at i iN = ground (arith, fill_lem n 0 i old)

  fresh_order : (i : ℕ) → i < n → 2 ^ order_of fresh i ≡ 1
  fresh_order i iN = ap (λ (x : Page). 2 ^ x.order) (fresh_at i iN)

  fresh-IsTiling : IsTiling (start / 4096) n (order_of fresh) (λ i. i)
  fresh-IsTiling = record {
    own_in = λ i iN. omega (arith, fresh_order i iN);
    own_all = λ h i hN hh lo hi. omega (arith, fresh_order h hN);
    fits = λ h hN hh. omega (arith, fresh_order h hN);
    small = λ h hN hh. omega (arith, ap (λ (x : Page). x.order) (fresh_at h hN));
    aligned = λ h hN hh.
        IsAligned-of_eq (order_of fresh h) (start / 4096 + h) (start / 4096 + h)
          (omega (arith, ap (λ (t : ℕ). (start / 4096 + h) * t) (fresh_order h hN)));
  }

  -- Before the loop every page is an allocated chunk of its own.
  pub fresh-IsValid : IsValid fresh (λ i. i)
  fresh-IsValid = record {
    placed = record {
      start_aligned = start_aligned;
      size = omega arith;
      high = high;
      linked = λ i iN. ap (λ (x : Page). x.in_pool) (fresh_at i iN);
    };
    tiling = fresh-IsTiling;
    lists = record {
      listed = λ k p h. cc;
      complete = λ p pN hp fp ne. ground (arith, fresh_at p pN);
      distinct = λ k. tt;
      counted = λ k. refl;
    };
  }

  pub fresh_taken : (i : ℕ) → i < n → (fresh.pages i).allocated ≡ true
  fresh_taken i iN = ap (λ (x : Page). x.allocated) (fresh_at i iN)

  fresh-IsPartial : IsPartial start n 0 fresh (λ i. i)
  fresh-IsPartial = record {
    valid = fresh-IsValid;
    num = refl;
    start = refl;
    marked = λ i iN taken. refl;
    merged = λ k l u small pair. ground (arith, pair, fresh_taken l);
    waiting = λ i lo hi. ground (arith, fresh_at i hi);
    done = λ i iN head taken. omega arith;
    counted = unfold weight_below in refl;
  }

  -- For a page-aligned start address, fewer than 2^31 pages and a pool that ends below 2^64,
  -- init_buddy returns a valid pool of that many pages in which every page is free and counted.
  pub init_buddy-Ready : n < 2 ^ 31 → Ready start n (init_buddy old start n)
  unfolding init_buddy
  init_buddy-Ready few =
      rw (init_metadata-fill n 0 old (omega arith))
        (free_each-Ready n 0 n fresh-IsPartial (omega arith) few)
