-- ===== src/MemInit.antt =====
-- kernel/mm/mm.c, kernel/mm/mm_check.c and kernel/arch/aarch64/plat/raspi3/mm/mmparse.c: where the pool of the buddy
-- allocator lies. `img_end` is the physical address of the linker's symbol.
use chcore_lab_v.Base.{
  ◌>>=◌, ◌>>◌, ℕ, ◌+◌, ◌-◌, ◌*◌, ◌/◌, ◌^◌, ◌==◌, not, Result, ok, bug_on, add64, sub64, mul64,
  round_up,
}
use chcore_lab_v.Buddy.{Page, Pool, init_buddy, get_free_mem_size_from_buddy}
use chcore_lab_v.Machine.{Machine}
use chcore_lab_v.PageTable.{page_size, phys_to_virt}
use chcore_lab_v.Slab.{init_slab, get_free_mem_size_from_slab}
pub mod Layout
mod Tests

-- physmem_map_num and physmem_map[0].
pub record PhysmemMap : Type 0 where
  pub num : ℕ
  pub start : ℕ
  pub end : ℕ

abbrev pub usable_mem_end : ℕ
usable_mem_end = 0x3f000000

abbrev pub reserved_for_gpu : ℕ
reserved_for_gpu = 32 * 2 ^ 20

unfoldable pub parse_mem_map : ℕ → PhysmemMap
unfolding round_up
parse_mem_map img_end = record {
  num = 1;
  start = round_up img_end page_size;
  end = usable_mem_end - reserved_for_gpu;
}

-- sizeof(struct page): a list node, two `int`s and two pointers.
abbrev pub sizeof_page : ℕ
sizeof_page = 40

abbrev pub page_count : ℕ → ℕ → ℕ
page_count free_mem_start free_mem_end =
    sub64 free_mem_end free_mem_start / (page_size + sizeof_page)

unfoldable pub pool_start : ℕ → ℕ → ℕ
unfolding round_up
pool_start free_mem_start npages =
    round_up (add64 free_mem_start (mul64 npages sizeof_page)) page_size

-- The pool that mm_init makes of the memory map; `old` is what the metadata area held.
unfoldable pub init_pool : (ℕ → Page) → PhysmemMap → Result Pool
unfolding init_buddy pool_start
init_pool old map = do
  bug_on (not (map.num == 1))
  let free_mem_start = phys_to_virt map.start
  let free_mem_end = phys_to_virt map.end
  let npages = page_count free_mem_start free_mem_end
  init_buddy old (pool_start free_mem_start npages) npages

-- `mem` and `slabs` are the memory and the slabs before the call.
unfoldable pub mm_init : ℕ → (ℕ → Page) → (ℕ → ℕ) → (ℕ → ℕ) → Result Machine
unfolding init_pool parse_mem_map init_slab
mm_init img_end old mem slabs = do
  pool ← init_pool old (parse_mem_map img_end)
  init_slab (record { pool = pool; mem = mem; slabs = slabs })

-- get_free_mem_size of kernel/mm/mm_check.c; `fuel` bounds the walks along the slabs.
unfoldable pub get_free_mem_size : ℕ → Machine → Result ℕ
unfolding get_free_mem_size_from_slab get_free_mem_size_from_buddy
get_free_mem_size fuel m = do
  size ← get_free_mem_size_from_slab fuel m
  ok (add64 size (get_free_mem_size_from_buddy m.pool))
