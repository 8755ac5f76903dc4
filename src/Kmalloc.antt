-- ===== src/Kmalloc.antt =====
-- kernel/mm/kmalloc.c: requests for memory go to the slabs or to the buddy allocator by their size.
-- `fuel` bounds the walks along the chain of slabs.
mod Tests
pub mod Order
pub mod Large
pub mod Small
pub mod History
use chcore_lab_v.Base.{ℕ, ◌+◌, ◌/◌, ◌^◌, ◌==◌, ltb, leb, if◌then◌else◌, Result, ok, ◌>>=◌, round_up}
use chcore_lab_v.Buddy.{buddy_page_size, virt_to_page, buddy_free_pages}
use chcore_lab_v.Machine.{Machine, memset_zero, get_pages}
use chcore_lab_v.Slab.{count_halvings, slab_max_order, alloc_in_slab, free_in_slab}

-- `1 << order` is an `int`: here `order` is at most 30, for sizes of at most 4T.
unfoldable pub size_to_page_order : ℕ → ℕ
unfolding round_up count_halvings
size_to_page_order size =
    let pg_num = round_up size buddy_page_size / buddy_page_size in
    let order = count_halvings 64 pg_num 0 in if ltb (2 ^ order) pg_num then order + 1 else order

abbrev pub page_order : ℕ → ℕ
page_order size = if leb size buddy_page_size then 0 else size_to_page_order size

unfoldable pub kmalloc : ℕ → Machine → ℕ → Result (Machine × ℕ)
unfolding size_to_page_order alloc_in_slab get_pages
kmalloc fuel m size =
    if leb size (2 ^ slab_max_order)
    then alloc_in_slab fuel m size
    else get_pages m (page_order size)

unfoldable pub kzalloc : ℕ → Machine → ℕ → Result (Machine × ℕ)
unfolding kmalloc memset_zero
kzalloc fuel m size = do
  (m', ptr) ← kmalloc fuel m size
  if ptr == 0 then ok (m', 0) else ok (memset_zero ptr size m', ptr)

-- virt_to_page does not return NULL: it has a BUG_ON.
unfoldable pub kfree : Machine → ℕ → Result Machine
unfolding free_in_slab buddy_free_pages
kfree m ptr = do
  p_page ← virt_to_page m.pool ptr
  if (m.pool.pages p_page).slab == 0
      then (buddy_free_pages m.pool p_page >>= λ pool'. ok (record m { pool = pool' }))
      else free_in_slab m ptr
