-- ===== src/Lib.antt =====
-- ChCore lab kernel: a verification library for its memory management and its console output.
-- Paths are from the root of the repository.
--
-- The boot code clears the bss area, sets the UART up, makes the first page tables (init_boot_pt)
-- and jumps to the kernel. mm_init reads the memory map, gives the memory to the buddy allocator
-- (init_buddy) and makes a slab for each order (init_slab). kmalloc serves small sizes from the
-- slabs and large ones from the buddy allocator (get_pages); the page-table code gets its pages
-- from get_pages too. printk stands apart.
--
-- Base: shared notation: tests, lists, the Result type of calls (a BUG_ON that fires is `bug`,
--   undefined behaviour is `fault`), wrapping arithmetic and bit fields (Word), powers of two,
--   bit operations, rounding, counting.
-- Buddy: kernel/mm/buddy.c and kernel/include/mm/buddy.h, one definition for each function.
--   Buddy/Tiling is the theory of chunks in page frames, Buddy/Invariant what holds between
--   calls, and there is a file for each operation. Buddy/Spec is the abstract allocator that the
--   callers see, Buddy/Shows relates the pool to it, Buddy/History follows the calls from
--   init_buddy on, and Buddy/Room is about what full merging is for.
-- Ring: kernel/include/common/list.h over the links of the nodes, and Ring/Sequence on the
--   sequence that a ring stands for. A free list in Buddy is such a sequence.
-- Machine: the state that the components above the buddy allocator share: the pool, the memory as
--   64-bit words and the array of slabs; get_pages and free_pages of kernel/mm/kmalloc.c, memset
--   of zeros.
-- PageTable: kernel/arch/aarch64/mm/page_table.c and its header. PageTable has set_pte_flags and
--   get_next_ptp; Query, Map, Unmap and Release have the operations, the huge variants included.
--   Translate, Flags, Mapped, Fresh and Clear have theorems on one walk; PageTable/Tree is the
--   invariant that the tables are a tree, with Tree/Range on map_range_in_pgtbl, Tree/Chunk and
--   Tree/Blocks on map_range_in_pgtbl_huge, Tree/Unmap on unmap_range_in_pgtbl, and Tree/Edits on
--   sequences of these.
-- Slab: kernel/mm/slab.c, over the same memory: Slab/Order on sizes, Slab/Chain on the free list
--   of a slab, Slab/Slabs on the chain of the slabs of an order, Slab/Words on the words it uses,
--   Slab/Give on a slot given back; Slab/New, Slab/Mark, Slab/Home and Slab/Made are about a new
--   slab and its pages.
-- Kmalloc: kernel/mm/kmalloc.c: Kmalloc/Order on sizes, Kmalloc/Large on sizes that no slab
--   serves, Kmalloc/Small on the others, and Kmalloc/History on sequences of calls.
-- Printk: kernel/lib/printk.c: prints and simple_outputi; Printk/Format has simple_vsprintf and
--   printk.
-- CString: strcmp, strncmp and strlen of kernel/include/common/util.h.
-- Boot: kernel/arch/aarch64/boot/raspi3/init/mmu.c, and Boot/Entry the boot code of
--   kernel/arch/aarch64/boot/raspi3/init/init_c.c up to the jump to the kernel, with the system
--   registers that el1_mmu_activate writes in Boot/Mmu; the linker script keeps the boot code and
--   its data below the bss area.
-- Uart: kernel/arch/aarch64/plat/raspi3/uart/uart.c and the boot's copy,
--   kernel/arch/aarch64/boot/raspi3/peripherals/uart.c, against a device whose answers are a
--   parameter; Uart/Polling on the loops that wait for it.
-- Memset: kernel/arch/aarch64/mm/memset.c on bytes; Memset/Words relates it to the zeros that
--   Machine writes as words.
-- MemInit: kernel/mm/mm.c, kernel/mm/mm_check.c and kernel/arch/aarch64/plat/raspi3/mm/mmparse.c.
--
-- State is passed explicitly, and a call that can stop gives a Result. A structure in an array is
-- its index, a pointer into memory its address; the functions that change a page table return
-- their int, which is 0; unsigned arithmetic wraps where it is written with add64, sub64, mul64
-- and shl64.
--
-- Bounds and fuel. An int that counts pages stays below 2^31, or the call is a fault. split_page
-- and merge_page get 14 rounds: an order is below 14 and changes by one in each. The loops over a
-- range of addresses get one round for each 4096 bytes and one more: a range that ends below the
-- last page of the address space needs no more, and one that does not may not end in the code
-- either. The walks along the slabs of an order take their fuel as an argument: with one round
-- for each slab and one more a request that finds a free slot ends. The digits of a number get a
-- round for each byte of print_buf, and a digit that finds no room is a fault. The format of
-- simple_vsprintf gets a round for each of its characters. The polling loops of the UART take
-- their rounds as an argument: how long the device keeps them waiting is a hypothesis, and that
-- many rounds are enough.
--
-- Not modelled: the assembly but for el1_mmu_activate, with barriers and caches, the lab tests,
-- and main of kernel/arch/aarch64/main.c, which calls uart_init and mm_init and then loops for
-- ever. The addresses of linker symbols and arrays are arguments, as is what memory held before.
pub mod Base
pub mod Boot
pub mod Buddy
pub mod CString
pub mod Kmalloc
pub mod Machine
pub mod MemInit
pub mod Memset
pub mod PageTable
pub mod Printk
pub mod Ring
pub mod Slab
pub mod Uart
