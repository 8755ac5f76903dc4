-- ===== src/Slab.antt =====
-- kernel/mm/slab.c and kernel/include/mm/slab.h: slots of 32 to 2048 bytes, cut from slabs of 2M. A
-- `slab_header_t *` and a slot are addresses. A header holds `free_list_head`, `next_slab` and
-- `order` in its first three words, a free slot holds `next_free` in its first word.
mod Tests
pub mod Order
pub mod Chain
pub mod Slabs
pub mod Request
pub mod Words
pub mod Give
pub mod New
pub mod Mark
pub mod Home
pub mod Made
use chcore_lab_v.Base.{
  ◌>>=◌, ◌>>◌, ℕ, zero, suc, ◌+◌, ◌*◌, ◌-◌, ◌/◌, ◌%◌, ◌^◌, not, ◌==◌, ltb, if◌then◌else◌, update,
  Result, ok, bug_on, add64, shr,
}
use chcore_lab_v.Buddy.{buddy_page_size, virt_to_page, set_page}
use chcore_lab_v.Machine.{Machine, store, get_pages}

abbrev pub slab_init_size : ℕ
slab_init_size = 2 * 1024 * 1024

abbrev pub slab_min_order : ℕ
slab_min_order = 5

abbrev pub slab_max_order : ℕ
slab_max_order = 11

-- The loop that halves; 64 rounds are enough for a `u64`, 31 for an `int`.
unfoldable pub count_halvings : ℕ → ℕ → ℕ → ℕ
count_halvings zero tmp order = order
count_halvings (suc rounds) tmp order =
    let rest = count_halvings rounds (shr tmp 1) (order + 1) in if ltb 1 tmp then rest else order

-- `int tmp = size` keeps the low 32 bits, and a negative value ends the loop at once.
abbrev pub int_of : ℕ → ℕ
int_of size = let low = size % 2 ^ 32 in if ltb low (2 ^ 31) then low else 0

-- `1 << order` is an `int` here; `order` is at most 30.
unfoldable pub size_to_order : ℕ → ℕ
unfolding count_halvings
size_to_order size =
    let order = count_halvings 31 (int_of size) 0 in
    if ltb (2 ^ order) size then order + 1 else order

abbrev pub order_to_size : ℕ → ℕ
order_to_size order = 2 ^ order

-- The loop that marks the pages of a slab.
unfoldable pub mark_pages : ℕ → ℕ → ℕ → Machine → Result Machine
mark_pages zero i addr m = ok m
mark_pages (suc rounds) i addr m = do
  page ← virt_to_page m.pool (add64 addr (i * buddy_page_size))
  mark_pages rounds (i + 1) addr
      (record m { pool = set_page page (record (m.pool.pages page) { slab = addr }) m.pool })

-- A failed get_pages gives NULL, for which virt_to_page is a BUG_ON: no pool holds address 0.
unfoldable pub alloc_slab_memory : Machine → ℕ → Result (Machine × ℕ)
unfolding get_pages mark_pages size_to_order
alloc_slab_memory m size = do
  let order = size_to_order (size / buddy_page_size)
  (m', addr) ← get_pages m order
  p_page ← virt_to_page m'.pool addr
  m'' ← mark_pages (order_to_size order) 0 addr m'
  ok (m'', addr)

abbrev pub free_list_head : Machine → ℕ → ℕ
free_list_head m slab = m.mem slab

abbrev pub next_slab : Machine → ℕ → ℕ
next_slab m slab = m.mem (slab + 8)

abbrev pub next_free : Machine → ℕ → ℕ
next_free m slot = m.mem slot

-- The loop over the slots of a new slab, `rounds` of them after `slot`.
unfoldable pub link_slots : ℕ → ℕ → ℕ → Machine → Machine
link_slots zero obj_size slot m = store slot 0 m
link_slots (suc rounds) obj_size slot m =
    link_slots rounds obj_size (slot + obj_size) (store slot (slot + obj_size) m)

-- The header's fields, in the order of the assignments. The `int` shares its word with padding.
abbrev pub init_header : ℕ → ℕ → ℕ → Machine → Machine
init_header slab slot order m =
    let m1 = store (slab + 8) 0 (store slab slot m) in
    store (slab + 16) (m1.mem (slab + 16) / 2 ^ 32 * 2 ^ 32 + order) m1

unfoldable pub init_slab_cache : Machine → ℕ → ℕ → Result (Machine × ℕ)
unfolding alloc_slab_memory link_slots
init_slab_cache m order size = do
  (m', slab) ← alloc_slab_memory m size
  let obj_size = order_to_size order
  let cnt = size / obj_size - 1
  let slot = slab + obj_size
  ok (link_slots (cnt - 1) obj_size slot (init_header slab slot order m'), slab)

-- A slot is taken off the slab's list.
abbrev pub take_slot : ℕ → ℕ → Machine → Machine
take_slot slab first_slot m = store slab (next_free m first_slot) m

-- The loop over the slabs of the order: the slab that has a free slot, or 0.
unfoldable pub find_slab : ℕ → Machine → ℕ → Result ℕ
find_slab zero m slab = Result.out_of_fuel
find_slab (suc fuel) m slab =
    let rest = find_slab fuel m (next_slab m slab) in
    if slab == 0 then ok 0 else (if free_list_head m slab == 0 then rest else ok slab)

-- The first of the chain of slabs, then the rest, then a new one, for which the function calls
-- itself. `fuel` bounds the chain and the calls. A header at NULL is not there.
unfoldable pub _alloc_in_slab_nolock : ℕ → Machine → ℕ → ℕ → Result (Machine × ℕ)
unfolding find_slab init_slab_cache
_alloc_in_slab_nolock zero m slab_header order = Result.out_of_fuel
_alloc_in_slab_nolock (suc fuel) m slab_header order = do
  if slab_header == 0 then Result.fault else ok tt
  if not (free_list_head m slab_header == 0)
      then ok (take_slot slab_header (free_list_head m slab_header) m, free_list_head m slab_header)
      else do
        slab ← find_slab fuel m (next_slab m slab_header)
        if not (slab == 0)
            then ok (take_slot slab (free_list_head m slab) m, free_list_head m slab)
            else do
              (m', new_slab) ← init_slab_cache m order slab_init_size
              let m1 = store (new_slab + 8) slab_header m'
              let m2 = record m1 { slabs = update m1.slabs order new_slab }
              _alloc_in_slab_nolock fuel m2 new_slab order

-- The loop of init_slab.
unfoldable pub init_slabs : ℕ → ℕ → Machine → Result Machine
unfolding init_slab_cache
init_slabs zero order m = ok m
init_slabs (suc rounds) order m = do
  (m', slab) ← init_slab_cache m order slab_init_size
  init_slabs rounds (order + 1) (record m' { slabs = update m'.slabs order slab })

unfoldable pub init_slab : Machine → Result Machine
unfolding init_slabs
init_slab m = init_slabs (slab_max_order + 1 - slab_min_order) slab_min_order m

abbrev pub slab_order : ℕ → ℕ
slab_order size =
    let order = size_to_order size in if ltb order slab_min_order then slab_min_order else order

unfoldable pub alloc_in_slab : ℕ → Machine → ℕ → Result (Machine × ℕ)
unfolding size_to_order _alloc_in_slab_nolock
alloc_in_slab fuel m size = do
  bug_on (ltb (order_to_size slab_max_order) size)
  _alloc_in_slab_nolock fuel m (m.slabs (slab_order size)) (slab_order size)

unfoldable pub free_in_slab : Machine → ℕ → Result Machine
free_in_slab m addr = do
  page ← virt_to_page m.pool addr
  let slab = (m.pool.pages page).slab
  if slab == 0 then Result.fault else ok tt
  ok (store slab addr (store addr (free_list_head m slab) m))

-- The two loops of get_free_mem_size_from_slab: over the slots of a slab, and over the slabs.
unfoldable pub add_slots : ℕ → Machine → ℕ → ℕ → ℕ → Result ℕ
add_slots zero m size slot total_size = Result.out_of_fuel
add_slots (suc fuel) m size slot total_size =
    let rest = add_slots fuel m size (next_free m slot) (add64 total_size size) in
    if slot == 0 then ok total_size else rest

unfoldable pub add_slabs : ℕ → Machine → ℕ → ℕ → ℕ → Result ℕ
unfolding add_slots
add_slabs zero m size slab total_size = Result.out_of_fuel
add_slabs (suc fuel) m size slab total_size = if slab == 0 then ok total_size else (do
  total' ← add_slots (suc fuel) m size (free_list_head m slab) total_size
  add_slabs fuel m size (next_slab m slab) total')

unfoldable pub add_orders : ℕ → ℕ → Machine → ℕ → ℕ → Result ℕ
unfolding add_slabs
add_orders fuel zero m order total_size = ok total_size
add_orders fuel (suc rounds) m order total_size = do
  total' ← add_slabs fuel m (order_to_size order) (m.slabs order) total_size
  add_orders fuel rounds m (order + 1) total'

unfoldable pub get_free_mem_size_from_slab : ℕ → Machine → Result ℕ
unfolding add_orders
get_free_mem_size_from_slab fuel m =
    add_orders fuel (slab_max_order + 1 - slab_min_order) m slab_min_order 0
