-- ===== src/Buddy/Tests.antt =====
-- Runs of the allocator on a pool of seven pages that starts at an odd page frame, and the
-- theorems at that pool.
use chcore_lab_v.Base.{
  ℕ, ◌+◌, ◌*◌, ◌<◌, ◌≡◌, refl, false, not, Option, none, some, List, [], ◌∷◌, Result, ok, ◌>>=◌,
  arith,
}
use chcore_lab_v.Base.Count.{count_below}
use chcore_lab_v.Buddy.{
  Page, Pool, init_buddy, buddy_get_pages, buddy_free_pages, get_free_mem_size_from_buddy,
  virt_to_page,
}
use chcore_lab_v.Buddy.Invariant.{IsValid}
use chcore_lab_v.Buddy.Weight.{free_pages}
use chcore_lab_v.Buddy.Chunk.{virt_to_page_lem}
use chcore_lab_v.Buddy.Init.{Ready, fresh, fresh-IsValid, fresh_taken, init_buddy-Ready}
use chcore_lab_v.Buddy.Free.{Freed, buddy_free_pages-Freed}
use chcore_lab_v.Buddy.Alloc.Find.{Search, Granted, buddy_get_pages-Search, buddy_get_pages-Granted}
use chcore_lab_v.Buddy.Size.{get_free_mem_size_from_buddy-count}
use chcore_lab_v.Buddy.Room.{IsFreeBlock, buddy_get_pages-FreeBlock}
use chcore_lab_v.Buddy.RoundTrip.{buddy_get_pages_undo}

abbrev no_page : Page
no_page = record { allocated = false; order = 0; slab = 0; in_pool = false }

abbrev base_addr : ℕ
base_addr = 0xffffff0000083000

abbrev lists_of : Pool → List (List ℕ)
lists_of s = s.free_list 0 ∷ s.free_list 1 ∷ s.free_list 2 ∷ s.free_list 3 ∷ []

abbrev start : Result Pool
start = init_buddy (λ _. no_page) base_addr 7

init_lists : (start >>= λ s. ok (lists_of s)) ≡ ok ((0 ∷ []) ∷ (5 ∷ []) ∷ (1 ∷ []) ∷ [] ∷ [])
unfolding init_buddy
init_lists = refl

abbrev shown : Pool × Option ℕ → Result (Option ℕ × List (List ℕ))
shown (s, page) = ok (page, lists_of s)

-- An order 1 request takes the chunk at 5 and leaves the others.
get_lists :
    (start >>= λ s. buddy_get_pages s 1 >>= shown) ≡ ok (some 5, (0 ∷ []) ∷ [] ∷ (1 ∷ []) ∷ [] ∷ [])
unfolding init_buddy buddy_get_pages
get_lists = refl

-- A second one splits the chunk at 1.
get_twice :
    (start >>= λ s. buddy_get_pages s 1 >>= λ r. buddy_get_pages r.0 1 >>= shown)
    ≡ ok (some 1, (0 ∷ []) ∷ (3 ∷ []) ∷ [] ∷ [] ∷ [])
unfolding init_buddy buddy_get_pages
get_twice = refl

get_too_large : (start >>= λ s. buddy_get_pages s 3 >>= λ r. ok r.1) ≡ ok none
unfolding init_buddy buddy_get_pages
get_too_large = refl

free_size : (start >>= λ s. ok (get_free_mem_size_from_buddy s)) ≡ ok (7 * 4096)
unfolding init_buddy get_free_mem_size_from_buddy
free_size = refl

init_buddy-Ready_example : Ready base_addr 7 start
init_buddy-Ready_example =
    init_buddy-Ready (λ _. no_page) base_addr 7 (omega arith) (omega arith) (omega arith)

abbrev before : Pool
before = fresh (λ _. no_page) base_addr 7 (omega arith) (omega arith)

before-IsValid : IsValid before (λ i. i)
before-IsValid = fresh-IsValid (λ _. no_page) base_addr 7 (omega arith) (omega arith)

buddy_free_pages-Freed_example : Freed before (λ i. i) 3 (buddy_free_pages before 3)
buddy_free_pages-Freed_example =
    buddy_free_pages-Freed 3 before-IsValid (omega arith) refl
      (fresh_taken (λ _. no_page) base_addr 7 (omega arith) (omega arith) 3 (omega arith))

ready : Ready base_addr 7 start
ready = init_buddy-Ready (λ _. no_page) base_addr 7 (omega arith) (omega arith) (omega arith)

first_owner :
    (ready.owner 0 < ready.after.pool_phys_page_num) × (ready.owner (ready.owner 0) ≡ ready.owner 0)
first_owner =
    let at = ready.valid.tiling.own_in 0 (omega (arith, ready.num)) in
    (omega (arith, ready.num), at.2)

buddy_get_pages-Search_example : Search ready.after ready.owner 2 2 (buddy_get_pages ready.after 2)
buddy_get_pages-Search_example = buddy_get_pages-Search 2 ready.valid (omega arith)

granted : Granted ready.after ready.owner 0 (buddy_get_pages ready.after 0)
granted =
    buddy_get_pages-Granted 0 (ready.owner 0) ready.valid first_owner.0 first_owner.1
      (ready.all_free 0 (omega arith)) (omega arith)

get_free_mem_size_from_buddy-count_example :
    get_free_mem_size_from_buddy ready.after
    ≡ 4096
      * count_below ready.after.pool_phys_page_num
          (λ i. not (ready.after.pages (ready.owner i)).allocated)
get_free_mem_size_from_buddy-count_example = get_free_mem_size_from_buddy-count ready.valid

buddy_get_pages_undo_example :
    (after : Pool) × (owner : ℕ → ℕ) × (buddy_free_pages granted.after granted.page ≡ ok after)
    × IsValid after owner
    × (free_pages after ≡ free_pages ready.after)
    × ((i : ℕ)
        → i < ready.after.pool_phys_page_num
        → (after.pages (owner i)).allocated ≡ (ready.after.pages (ready.owner i)).allocated)
buddy_get_pages_undo_example = buddy_get_pages_undo ready.valid granted

virt_to_page_lem_example : virt_to_page before ((0xffffff0000083 + 3) * 4096 + 100) ≡ ok 3
virt_to_page_lem_example = virt_to_page_lem before-IsValid.placed 3 100 (omega arith) (omega arith)

-- The pages 1 to 4 make up the only chunk of four pages.
ready-IsFreeBlock : IsFreeBlock ready.after ready.owner 2 1
ready-IsFreeBlock = record {
  inside = omega (arith, ready.num);
  aligned = rw ready.start refl;
  all_free = λ i lo hi. ready.all_free i (omega arith);
}

buddy_get_pages-FreeBlock_example :
    Granted ready.after ready.owner 2 (buddy_get_pages ready.after 2)
buddy_get_pages-FreeBlock_example =
    buddy_get_pages-FreeBlock 2 1 ready.valid ready.merged (omega arith) ready-IsFreeBlock
