-- ===== src/Kmalloc/Tests.antt =====
-- Requests to a pool of 100 pages in which every page is free, and to two slabs, the first of which
-- is full.
use chcore_lab_v.Base.{
  ◌≤◌, ℕ, ◌≡◌, refl, true, false, List, [], ◌∷◌, some, ◌==◌, if◌then◌else◌, update, ok, ◌>>=◌,
  arith,
}
use chcore_lab_v.Buddy.{Page, Pool, init_buddy, virt_to_page}
use chcore_lab_v.Buddy.Init.{Ready, init_buddy-Ready}
use chcore_lab_v.Machine.{Machine}
use chcore_lab_v.Slab.Slabs.{IsSlabs, apart, far, first_slot}
use chcore_lab_v.Slab.Request.{SlotTaken}
use chcore_lab_v.Slab.Chain.{IsChain}
use chcore_lab_v.Slab.Order.{IsLeast}
use chcore_lab_v.Kmalloc.{kmalloc, kfree, size_to_page_order, page_order}
use chcore_lab_v.Kmalloc.Order.{page_order-IsLeast}
use chcore_lab_v.Kmalloc.Large.{Large, kmalloc-Large}
use chcore_lab_v.Slab.{take_slot, size_to_order, slab_order}
use chcore_lab_v.Slab.Slabs.{without_first}
use chcore_lab_v.Slab.Words.{weight, count_of}
use chcore_lab_v.Slab.Give.{given}
use chcore_lab_v.Slab.Home.{home, homed, homed_slots}
use chcore_lab_v.Kmalloc.History.{Uses, Keeps, Uses-Keeps, Uses-kfree}
use chcore_lab_v.Kmalloc.Small.{kmalloc-SlotTaken, kfree-kmalloc}

abbrev no_page : Page
no_page = record { allocated = false; order = 0; slab = 0; in_pool = false }

ready : Ready 0xffffff0000083000 100 (init_buddy (λ _. no_page) 0xffffff0000083000 100)
ready =
    init_buddy-Ready (λ _. no_page) 0xffffff0000083000 100 (omega arith) (omega arith) (omega arith)

abbrev machine : Machine
machine = record { pool = ready.after; mem = λ _. 0; slabs = λ _. 0 }

three_pages : size_to_page_order 0x2001 ≡ 2
unfolding size_to_page_order
three_pages = refl

page_order-IsLeast_example : IsLeast 0x2001 4096 (page_order 0x2001)
page_order-IsLeast_example = page_order-IsLeast 0x2001 (omega arith) (omega arith)

kmalloc-Large_example : Large machine ready.owner 0x2001 (kmalloc 0 machine 0x2001)
kmalloc-Large_example = kmalloc-Large 0 0x2001 machine ready.valid (omega arith) (omega arith)

abbrev slab_page : ℕ → Page
slab_page i = record {
  allocated = true;
  order = 0;
  slab = if i == 0 then 0x1000 else 0x3000;
  in_pool = true;
}

abbrev pool : Pool
pool = record {
  pool_start_addr = 0x1000;
  pool_mem_size = 0x3000;
  pool_phys_page_num = 3;
  pages = slab_page;
  free_list = λ _. [];
  nr_free = λ _. 0;
}

abbrev words : ℕ → ℕ
words = update (update (update (λ _. 0) 0x1008 0x3000) 0x3000 0x3020) 0x3020 0x3040

abbrev two_slabs : Machine
two_slabs = record { pool = pool; mem = words; slabs = λ _. 0x1000 }

abbrev the_slabs : List (ℕ × List ℕ)
the_slabs = (0x1000, []) ∷ (0x3000, 0x3020 ∷ 0x3040 ∷ []) ∷ []

the_slabs-IsSlabs : IsSlabs words 0x1000 the_slabs
unfolding IsSlabs IsChain
the_slabs-IsSlabs = (
  refl,
  omega arith,
  refl,
  (refl, omega arith, (refl, omega arith, (refl, omega arith, refl)), refl),
)

the_slabs_apart : apart the_slabs ≡ true
unfolding apart far
the_slabs_apart = refl

the_slot : first_slot the_slabs ≡ some (0x3000, 0x3020)
unfolding first_slot
the_slot = refl

slot_page : virt_to_page pool 0x3020 ≡ ok 2
unfolding virt_to_page
slot_page = refl

kmalloc-SlotTaken_example :
    SlotTaken two_slabs 0x1000 0x3000 0x3020 the_slabs (kmalloc 3 two_slabs 20)
kmalloc-SlotTaken_example =
    kmalloc-SlotTaken 2 20 0x3000 0x3020 two_slabs the_slabs (omega arith) the_slabs-IsSlabs
      the_slabs_apart the_slot (omega arith)

kfree-kmalloc_example :
    (kmalloc 3 two_slabs 20 >>= λ (r : Machine × ℕ). kfree r.0 r.1) ≡ ok two_slabs
kfree-kmalloc_example =
    kfree-kmalloc 2 20 0x3000 0x3020 2 two_slabs the_slabs (omega arith) the_slabs-IsSlabs
      the_slabs_apart the_slot (omega arith) slot_page refl

once : (a : ℕ) → weight a the_slabs ≤ 1
unfolding weight count_of
once a = ground arith

at_home : homed pool the_slabs ≡ true
unfolding homed homed_slots home virt_to_page
at_home = refl

order_of_twenty : slab_order 20 ≡ 5
unfolding size_to_order
order_of_twenty = refl

first_taken : SlotTaken two_slabs 0x1000 0x3000 0x3020 the_slabs (kmalloc 3 two_slabs 20)
first_taken =
    kmalloc-SlotTaken 2 20 0x3000 0x3020 two_slabs the_slabs (omega arith) the_slabs-IsSlabs
      the_slabs_apart the_slot (omega arith)

one_held :
    Uses 5 two_slabs the_slabs
      (take_slot 0x3000 0x3020 two_slabs)
      (without_first the_slabs)
      (0x3020 ∷ [])
one_held =
    Uses.take 2 20 0x3000 0x3020 0x3020 Uses.start (omega arith) order_of_twenty the_slot
      (omega arith) first_taken.returns

Uses-Keeps_example :
    Keeps 5 two_slabs the_slabs
      (take_slot 0x3000 0x3020 two_slabs)
      (without_first the_slabs)
      (0x3020 ∷ [])
Uses-Keeps_example = Uses-Keeps the_slabs-IsSlabs once at_home one_held

Uses-kfree_example :
    kfree (take_slot 0x3000 0x3020 two_slabs) 0x3020
    ≡ ok (record (take_slot 0x3000 0x3020 two_slabs) {
      mem = given (take_slot 0x3000 0x3020 two_slabs).mem (home pool 0x3020) 0x3020;
    })
Uses-kfree_example = Uses-kfree 0x3020 the_slabs-IsSlabs once at_home one_held refl
