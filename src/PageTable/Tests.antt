-- ===== src/PageTable/Tests.antt =====
-- Runs of the page-table functions over a pool of eight pages, and the theorems at a table that maps
-- one page.
use chcore_lab_v.Base.{
  [], ℕ, ◌+◌, ◌*◌, ◌/◌, ◌^◌, ◌<◌, ◌≡◌, refl, true, false, Option, none, some, ◌==◌, if◌then◌else◌,
  Result, ok, ◌>>=◌, arith,
}
use chcore_lab_v.Buddy.{Page, Pool, init_buddy, buddy_free_pages, get_free_mem_size_from_buddy}
use chcore_lab_v.Buddy.Init.{fresh, fresh-IsValid, fresh_taken}
use chcore_lab_v.Buddy.Free.{Freed, buddy_free_pages-Freed}
use chcore_lab_v.PageTable.Fresh.{Fresh, next_at-Fresh}
use chcore_lab_v.Machine.{Machine, get_pages, memset_zero}
use chcore_lab_v.PageTable.{kbase, next_at, set_pte_flags, page_pte, l2_block_pte, l1_block_pte}
use chcore_lab_v.PageTable.Query.{query_in_pgtbl}
use chcore_lab_v.PageTable.Map.{map_range_in_pgtbl, map_range_in_pgtbl_huge}
use chcore_lab_v.PageTable.Unmap.{unmap_range_in_pgtbl}
use chcore_lab_v.PageTable.Release.{free_page_table}
use chcore_lab_v.PageTable.Translate.{lookup, query_in_pgtbl-lookup}
use chcore_lab_v.PageTable.Flags.{attributes, set_pte_flags_lem, pte_words}

abbrev no_page : Page
no_page = record { allocated = false; order = 0; slab = 0; in_pool = false }

-- A machine with an empty page table, and its address.
abbrev start : Result (Machine × ℕ)
start = init_buddy (λ _. no_page) (kbase + 0x83000) 8 >>= λ pool.
    get_pages (record { pool = pool; mem = λ _. 9; slabs = λ _. 0 }) 0 >>= λ r.
    ok (memset_zero r.1 4096 r.0, r.1)

map_then_query :
    (start >>= λ r. map_range_in_pgtbl r.0 r.1 0x1001000 0x100000 0x2000 2 >>= λ m.
    query_in_pgtbl m.0 r.1 0x1002345 >>= λ q. ok q)
    ≡ ok (some (0x101345, kbase + 0x89010))
unfolding init_buddy get_pages memset_zero map_range_in_pgtbl query_in_pgtbl
map_then_query = refl

abbrev answers : Option (ℕ × ℕ) → Option (ℕ × ℕ) → Result (Option (ℕ × ℕ) × Option (ℕ × ℕ))
answers q q' = ok (q, q')

abbrev with_root : ℕ → Machine → Result (Machine × ℕ)
with_root pgtbl m = ok (m, pgtbl)

-- Two queries of one machine.
abbrev both : ℕ → ℕ → ℕ → Machine → Result (Option (ℕ × ℕ) × Option (ℕ × ℕ))
both pgtbl va va' m =
    query_in_pgtbl m pgtbl va >>= λ q. query_in_pgtbl m pgtbl va' >>= λ q'. answers q q'

-- A block of 2M and a page after it.
huge_then_query :
    (start >>= λ r. map_range_in_pgtbl_huge r.0 r.1 0x600000 0x40200000 0x201000 0 >>= λ m.
    both r.1 0x7fffff 0x800001 m.0)
    ≡ ok (some (0x403fffff, kbase + 0x88018), some (0x40400001, kbase + 0x89000))
unfolding init_buddy get_pages memset_zero map_range_in_pgtbl_huge query_in_pgtbl
huge_then_query = refl

abbrev two_pages : Result (Machine × ℕ)
two_pages = start >>= λ r. map_range_in_pgtbl r.0 r.1 0x1001000 0x100000 0x2000 2 >>= λ m.
    unmap_range_in_pgtbl m.0 r.1 0x1002000 0x1000 >>= λ m'. with_root r.1 m'.0

unmap_then_query :
    (two_pages >>= λ r. both r.1 0x1001000 0x1002000 r.0)
    ≡ ok (some (0x100000, kbase + 0x89008), none)
unfolding init_buddy get_pages memset_zero map_range_in_pgtbl query_in_pgtbl unmap_range_in_pgtbl
unmap_then_query = refl

-- The pages of the tables go back to the pool, which has all its eight pages free as at the start.
free_all :
    (two_pages >>= λ r. free_page_table r.0 r.1 >>= λ m. ok (get_free_mem_size_from_buddy m.pool))
    ≡ ok 0x8000
unfolding init_buddy get_pages memset_zero map_range_in_pgtbl unmap_range_in_pgtbl free_page_table
    get_free_mem_size_from_buddy
free_all = refl

-- Tables at kbase + 0x1000 and on, which map the page 0x5000 to 0x80000, writable.
abbrev mem : ℕ → ℕ
mem a =
    if a == kbase + 0x1000
    then 0x2003
    else (if a == kbase + 0x2000
        then 0x3003
        else (if a == kbase + 0x3000
            then 0x4003
            else (if a == kbase + 0x4028 then page_pte 0x80000 2 else 0)))

abbrev pool : Pool
pool = record {
  pool_start_addr = 0;
  pool_mem_size = 0;
  pool_phys_page_num = 0;
  pages = λ _. no_page;
  free_list = λ _. [];
  nr_free = λ _. 0;
}

abbrev machine : Machine
machine = record { pool = pool; mem = mem; slabs = λ _. 0 }

abbrev pgtbl : ℕ
pgtbl = kbase + 0x1000

mapped : query_in_pgtbl machine pgtbl 0x5678 ≡ ok (some (0x80678, kbase + 0x4028))
unfolding query_in_pgtbl page_pte
mapped = refl

query_in_pgtbl-lookup_example : query_in_pgtbl machine pgtbl 0x5678 ≡ ok (lookup 3 mem pgtbl 0x5678)
query_in_pgtbl-lookup_example = query_in_pgtbl-lookup machine pgtbl 0x5678

set_pte_flags_lem_example : set_pte_flags (3 + 0x80 * 2 ^ 12) 6 ≡ 3 + 0x80 * 2 ^ 12 + attributes 6
set_pte_flags_lem_example = set_pte_flags_lem 3 0x80 6 (omega arith) (omega arith)

pte_words_example :
    (page_pte 0x40201000 2 ≡ 3 + 0x40201000 / 2 ^ 12 * 2 ^ 12 + attributes 2)
    × (l2_block_pte 0x40201000 2 ≡ 1 + 0x40201000 / 2 ^ 21 * 2 ^ 21 + attributes 2)
    × (l1_block_pte 0x40201000 2 ≡ 1 + 0x40201000 / 2 ^ 30 * 2 ^ 30 + attributes 2)
pte_words_example = pte_words 0x40201000 2 (omega arith)

-- A pool of eight pages in kernel addresses, of which the page 3 is free.
abbrev before : Pool
before = fresh (λ _. no_page) (kbase + 0x83000) 8 (omega arith) (omega arith)

one_free : Freed before (λ i. i) 3 (buddy_free_pages before 3)
one_free =
    buddy_free_pages-Freed 3
      (fresh-IsValid (λ _. no_page) (kbase + 0x83000) 8 (omega arith) (omega arith)) (omega arith)
      refl
      (fresh_taken (λ _. no_page) (kbase + 0x83000) 8 (omega arith) (omega arith) 3 (omega arith))

abbrev roomy : Machine
roomy = record { pool = one_free.after; mem = λ _. 0; slabs = λ _. 0 }

owner_of_3 :
    (one_free.owner 3 < one_free.after.pool_phys_page_num)
    × (one_free.owner (one_free.owner 3) ≡ one_free.owner 3)
owner_of_3 =
    let at = one_free.valid.tiling.own_in 3 (omega (arith, one_free.num)) in
    (omega (arith, at, one_free.num), at.2)

next_at-Fresh_example :
    Fresh roomy one_free.owner (kbase + 0x1000) (next_at roomy (kbase + 0x1000) true)
next_at-Fresh_example =
    next_at-Fresh roomy (kbase + 0x1000) (one_free.owner 3) one_free.valid
      (omega (arith, one_free.start)) (omega (arith, one_free.start, one_free.num)) owner_of_3.0
      owner_of_3.1 (one_free.freed 3 (omega arith) refl) refl
