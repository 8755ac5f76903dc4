-- ===== src/Slab/Tests.antt =====
-- A slab of four slots of 32 bytes at 0x1000, in a pool of one page, and a new slab in a pool of 2048
-- pages.
use chcore_lab_v.Base.{
  ℕ, ◌≤◌, ◌<◌, ◌⊎◌, Result, ◌+◌, ◌^◌, ◌%◌, ◌*◌, ◌≡◌, refl, true, [], ◌∷◌, ok, arith,
}
use chcore_lab_v.Buddy.Init.{Ready, init_buddy-Ready}
use chcore_lab_v.Buddy.{init_buddy, Page, Pool}
use chcore_lab_v.Machine.{Machine}
use chcore_lab_v.Slab.Made.{Made, init_slab_cache-Made}
use chcore_lab_v.Slab.{init_slab_cache, link_slots, init_header, size_to_order, add_slots}
use chcore_lab_v.Slab.Order.{IsLeast, size_to_order-IsLeast}
use chcore_lab_v.Slab.Chain.{HasSlots, slots_from, link_slots-HasSlots, add_slots-IsChain}

abbrev slab_page : Page
slab_page = record { allocated = true; order = 0; slab = 0x1000; in_pool = true }

abbrev pool : Pool
pool = record {
  pool_start_addr = 0x1000;
  pool_mem_size = 0x1000;
  pool_phys_page_num = 1;
  pages = λ _. slab_page;
  free_list = λ _. [];
  nr_free = λ _. 0;
}

abbrev blank : Machine
blank = record { pool = pool; mem = λ _. 7; slabs = λ _. 0 }

abbrev four : Machine
four = link_slots 3 32 (0x1000 + 32) (init_header 0x1000 (0x1000 + 32) 5 blank)

orders : size_to_order 33 ≡ 6
unfolding size_to_order
orders = refl

four-HasSlots : HasSlots four 0x1000 (0x1020 ∷ 0x1040 ∷ 0x1060 ∷ 0x1080 ∷ [])
unfolding slots_from
four-HasSlots = link_slots-HasSlots 3 32 0x1000 5 blank (omega arith) (omega arith)

add_slots-IsChain_example : add_slots 5 four 32 (four.mem 0x1000) 100 ≡ ok ((100 + 4 * 32) % 2 ^ 64)
add_slots-IsChain_example =
    add_slots-IsChain 5 32 (four.mem 0x1000) 100 (0x1020 ∷ 0x1040 ∷ 0x1060 ∷ 0x1080 ∷ []) four
      four-HasSlots.chain (omega arith) (omega arith)

size_to_order-IsLeast_example : IsLeast 1000 1 (size_to_order 1000)
size_to_order-IsLeast_example = size_to_order-IsLeast 1000 (omega arith) (omega arith)

ready : Ready 0xffffff0000400000 2048 (init_buddy (λ _. slab_page) 0xffffff0000400000 2048)
ready =
    init_buddy-Ready (λ _. slab_page) 0xffffff0000400000 2048 (omega arith) (omega arith)
      (omega arith)

abbrev roomy : Machine
roomy = record { pool = ready.after; mem = λ _. 0; slabs = λ _. 0 }

init_slab_cache-Made_example :
    ((init_slab_cache roomy 5 (2 ^ 21) ≡ Result.bug)
      × ((j : ℕ) → 9 ≤ j → j < 14 → roomy.pool.free_list j ≡ []))
    ⊎ Made 5 (init_slab_cache roomy 5 (2 ^ 21))
init_slab_cache-Made_example =
    init_slab_cache-Made 5 roomy ready.valid (omega (arith, ready.start)) (omega arith)
      (omega arith)
