-- ===== src/Machine.antt =====
-- The memory that the components above the buddy allocator share, and get_pages and free_pages of
-- kernel/mm/kmalloc.c.
use chcore_lab_v.Base.{
  ◌>>=◌, ℕ, ◌+◌, ◌-◌, ◌*◌, ◌/◌, ◌^◌, ◌&&◌, none, some, ltb, leb, if◌then◌else◌, update, Result, ok,
}
use chcore_lab_v.Buddy.{Pool, page_to_virt, virt_to_page, buddy_get_pages, buddy_free_pages}

-- `mem a` is the 64-bit word at the address `a`, a multiple of 8 in the kernel's address space.
-- `slabs` is the array of slab.c; a pointer is an address, 0 for NULL.
pub record Machine : Type 0 where
  pub pool : Pool
  pub mem : ℕ → ℕ
  pub slabs : ℕ → ℕ

abbrev pub store : ℕ → ℕ → Machine → Machine
store a w m = record m { mem = update m.mem a w }

-- memset(dst, 0, size) on words: the bytes below `dst + size` become 0, those of the last word
-- above it stay (the machine is little-endian).
abbrev pub cleared : ℕ → ℕ → ℕ → ℕ → ℕ
cleared dst size a w =
    if leb (a + 8) (dst + size)
    then 0
    else (let kept = 2 ^ (8 * (dst + size - a)) in w / kept * kept)

unfoldable pub memset_zero : ℕ → ℕ → Machine → Machine
memset_zero dst size m = record m {
  mem = λ a. if leb dst a && ltb a (dst + size) then cleared dst size a (m.mem a) else m.mem a;
}

-- The loop over the pools has one round. `order` is non-negative at every call.
unfoldable pub get_pages : Machine → ℕ → Result (Machine × ℕ)
unfolding buddy_get_pages page_to_virt
get_pages m order = do
  (pool', page) ← buddy_get_pages m.pool order
  elim page [
    | none ↦ ok (record m { pool = pool' }, 0)
    | some p ↦ do addr ← page_to_virt pool' p; ok (record m { pool = pool' }, addr)
  ]

unfoldable pub free_pages : Machine → ℕ → Result Machine
unfolding virt_to_page buddy_free_pages
free_pages m addr = do
  page ← virt_to_page m.pool addr
  pool' ← buddy_free_pages m.pool page
  ok (record m { pool = pool' })
