-- ===== src/Buddy.antt =====
-- kernel/mm/buddy.c and kernel/include/mm/buddy.h: the allocator of physical pages.
-- The kernel has one pool, global_mem[0] (PHYS_MEM_POOL_SIZE is 1). A `struct page *` is the index
-- of the page in page_metadata. A free list is the sequence of the pages on its ring, front first;
-- Ring relates such sequences to the linked nodes.
mod Tests
pub mod Tiling
pub mod Invariant
pub mod Chunk
pub mod Weight
pub mod Step
pub mod Split
pub mod Merge
pub mod Free
pub mod Alloc
pub mod Init
pub mod Size
pub mod RoundTrip
pub mod Room
pub mod Stock
pub mod Spec
pub mod Shows
pub mod History
use chcore_lab_v.Base.{
  ℕ, zero, suc, ◌+◌, ◌-◌, ◌*◌, ◌/◌, ◌^◌, Bool, true, false, not, ◌||◌, ◌&&◌, Option, none, some,
  List, [], ◌∷◌, bit_xor, ltb, leb, ◌==◌, if◌then◌else◌, update, erase, Result, ok, ◌>>=◌, ◌>>◌,
  bug_on, not_null, first, add64, sub64, mul64,
}

-- BUDDY_PAGE_SIZE, BUDDY_PAGE_SIZE_ORDER and BUDDY_MAX_ORDER.
abbrev pub buddy_page_size : ℕ
buddy_page_size = 0x1000

abbrev pub buddy_page_size_order : ℕ
buddy_page_size_order = 12

abbrev pub buddy_max_order : ℕ
buddy_max_order = 14

-- `struct page`, less its list node: `slab` is 0 for NULL, and `in_pool` says that `pool` points
-- to the pool (it is NULL otherwise).
pub record Page : Type 0 where
  pub allocated : Bool
  pub order : ℕ
  pub slab : ℕ
  pub in_pool : Bool

-- `struct phys_mem_pool` with the array behind `page_metadata`.
pub record Pool : Type 0 where
  pub pool_start_addr : ℕ
  pub pool_mem_size : ℕ
  pub pool_phys_page_num : ℕ
  pub pages : ℕ → Page
  pub free_list : ℕ → List ℕ
  pub nr_free : ℕ → ℕ

abbrev pub set_page : ℕ → Page → Pool → Pool
set_page p page s = record s { pages = update s.pages p page }

abbrev pub set_order : ℕ → ℕ → Pool → Pool
set_order p k s = set_page p (record (s.pages p) { order = k }) s

abbrev pub set_allocated : ℕ → Bool → Pool → Pool
set_allocated p b s = set_page p (record (s.pages p) { allocated = b }) s

-- `list_del`: a node leaves the ring that it is on, whichever that is.
abbrev pub unlink : ℕ → (ℕ → List ℕ) → ℕ → List ℕ
unlink p lists = λ k. erase p (lists k)

-- `list_add(&page->node, &free_lists[page->order].free_list)` and `nr_free++`.
abbrev pub insert_free : ℕ → Pool → Pool
insert_free p s = record s {
  free_list = update s.free_list (s.pages p).order (p ∷ s.free_list (s.pages p).order);
  nr_free = update s.nr_free (s.pages p).order (add64 (s.nr_free (s.pages p).order) 1);
}

-- `list_del(&page->node)` and `nr_free--`.
abbrev pub remove_free : ℕ → Pool → Pool
remove_free p s = record s {
  free_list = unlink p s.free_list;
  nr_free = update s.nr_free (s.pages p).order (sub64 (s.nr_free (s.pages p).order) 1);
}

unfoldable pub page_to_virt : Pool → ℕ → Result ℕ
page_to_virt s p = do
  bug_on (not (s.pages p).in_pool)
  ok (add64 (mul64 p buddy_page_size) s.pool_start_addr)

abbrev pub in_range : Pool → ℕ → Bool
in_range s addr = leb s.pool_start_addr addr && ltb addr (add64 s.pool_start_addr s.pool_mem_size)

unfoldable pub virt_to_page : Pool → ℕ → Result ℕ
virt_to_page s addr = do
  bug_on (not (in_range s addr))
  ok (sub64 addr s.pool_start_addr / buddy_page_size)

-- The shift amount is below 64 for every order, so `1UL << n` is a power of two.
pub get_buddy_chunk : Pool → ℕ → Result (Option ℕ)
unfolding page_to_virt virt_to_page
get_buddy_chunk s chunk = do
  chunk_addr ← page_to_virt s chunk
  let buddy_addr = bit_xor chunk_addr (2 ^ ((s.pages chunk).order + buddy_page_size_order))
  let pool_end = add64 s.pool_start_addr s.pool_mem_size
  if ltb buddy_addr s.pool_start_addr || leb pool_end buddy_addr
      then ok none
      else do buddy ← virt_to_page s buddy_addr; ok (some buddy)

-- The half that is split off goes to the free list of its order.
abbrev pub split_off : ℕ → ℕ → Pool → Pool
split_off page buddy s =
    insert_free buddy (
      set_page buddy (record (s.pages buddy) { order = (s.pages page).order; allocated = false }) s)

pub split_page : ℕ → Pool → ℕ → ℕ → Result (Pool × ℕ)
split_page zero s order page = Result.out_of_fuel
split_page (suc fuel) s order page = do
  bug_on (ltb (s.pages page).order order)
  bug_on (s.pages page).allocated
  if (s.pages page).order == order then ok (s, page) else do
    let s' = set_order page ((s.pages page).order - 1) s
    chunk ← get_buddy_chunk s' page
    buddy ← not_null chunk
    split_page fuel (split_off page buddy s') order page

-- The body of the search for a list that has a chunk.
pub take_chunk : Pool → ℕ → ℕ → Result (Pool × Option ℕ)
take_chunk s order cur = do
  page ← first (s.free_list cur)
  bug_on (s.pages page).allocated
  bug_on (not ((s.pages page).order == cur))
  (s', page') ← split_page buddy_max_order (remove_free page s) order page
  bug_on (not ((s'.pages page').order == order))
  ok (set_allocated page' true s', some page')

-- `for (cur = order; cur < BUDDY_MAX_ORDER; cur++)`, with the rounds that are left.
pub find_chunk : ℕ → Pool → ℕ → ℕ → Result (Pool × Option ℕ)
find_chunk zero s order cur = ok (s, none)
find_chunk (suc rounds) s order cur =
    let rest = find_chunk rounds s order (cur + 1) in
    if ltb 0 (s.nr_free cur) then take_chunk s order cur else rest

unfoldable pub buddy_get_pages : Pool → ℕ → Result (Pool × Option ℕ)
unfolding find_chunk take_chunk split_page get_buddy_chunk
buddy_get_pages s order =
    if leb buddy_max_order order
    then ok (s, none)
    else find_chunk (buddy_max_order - order) s order order

-- The lower of two buddies stands for the merged chunk; its order goes up by one.
abbrev pub join : ℕ → ℕ → Pool → Pool × ℕ
join page buddy s =
    let low = if ltb buddy page then buddy else page in
    (set_order low ((s.pages low).order + 1) s, low)

pub merge_page : ℕ → Pool → ℕ → Result (Pool × ℕ)
merge_page zero s page = Result.out_of_fuel
merge_page (suc fuel) s page = do
  bug_on (ltb (buddy_max_order - 1) (s.pages page).order || (s.pages page).allocated)
  if (s.pages page).order == buddy_max_order - 1 then ok (s, page) else do
    chunk ← get_buddy_chunk s page
    elim chunk [
      | none ↦ ok (s, page)
      | some buddy ↦
          if (s.pages buddy).allocated || ltb (s.pages buddy).order (s.pages page).order
          then ok (s, page)
          else do
            bug_on (ltb (s.pages page).order (s.pages buddy).order)
            bug_on (not ((s.pages buddy).order == (s.pages page).order))
            let (s', low) = join page buddy (remove_free buddy s)
            merge_page fuel s' low
    ]

unfoldable pub buddy_free_pages : Pool → ℕ → Result Pool
unfolding merge_page get_buddy_chunk
buddy_free_pages s page = do
  bug_on (not (s.pages page).allocated)
  (s', page') ← merge_page buddy_max_order (set_allocated page false s) page
  bug_on (s'.pages page').allocated
  ok (insert_free page' s')

-- The loop over the metadata: every page is an allocated chunk of order 0.
abbrev pub fresh_page : Page
fresh_page = record { allocated = true; order = 0; slab = 0; in_pool = true }

-- `++page_idx` on an `int`; an overflow is undefined.
abbrev pub next_idx : ℕ → Result ℕ
next_idx page_idx = if ltb (page_idx + 1) (2 ^ 31) then ok (page_idx + 1) else Result.fault

-- Both loops run while `page_idx < page_num`: with `rounds` pages left there are as many rounds.
pub init_metadata : ℕ → ℕ → (ℕ → Page) → Result (ℕ → Page)
init_metadata zero page_idx pages = ok pages
init_metadata (suc rounds) page_idx pages = do
  page_idx' ← next_idx page_idx
  init_metadata rounds page_idx' (update pages page_idx fresh_page)

pub free_each : ℕ → ℕ → Pool → Result Pool
free_each zero page_idx s = ok s
free_each (suc rounds) page_idx s = do
  s' ← buddy_free_pages s page_idx
  page_idx' ← next_idx page_idx
  free_each rounds page_idx' s'

-- `old` is what the metadata area held before; the loops write its first `page_num` entries.
unfoldable pub init_buddy : (ℕ → Page) → ℕ → ℕ → Result Pool
unfolding init_metadata free_each buddy_free_pages
init_buddy old start_addr page_num = do
  pages ← init_metadata page_num 0 old
  free_each page_num 0 (record {
    pool_start_addr = start_addr;
    pool_mem_size = mul64 page_num buddy_page_size;
    pool_phys_page_num = page_num;
    pages = pages;
    free_list = λ _. [];
    nr_free = λ _. 0;
  })

-- The sum over the orders, with the orders that are left.
pub free_mem_from : ℕ → ℕ → Pool → ℕ → ℕ
free_mem_from zero order s total_size = total_size
free_mem_from (suc rounds) order s total_size =
    free_mem_from rounds (order + 1) s
      (add64 total_size (mul64 (s.nr_free order) (buddy_page_size * 2 ^ order)))

unfoldable pub get_free_mem_size_from_buddy : Pool → ℕ
unfolding free_mem_from
get_free_mem_size_from_buddy s = free_mem_from buddy_max_order 0 s 0
