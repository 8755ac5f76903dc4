-- ===== src/PageTable.antt =====
-- kernel/arch/aarch64/mm/page_table.c and its headers: page tables of four levels, walked and
-- changed in software. A page-table page is its kernel address, a `pte_t *` the address of the
-- entry, an entry a 64-bit word.
pub mod Translate
pub mod Flags
pub mod Clear
mod Tests
pub mod Mapped
pub mod Fresh
pub mod Query
pub mod Map
pub mod Unmap
pub mod Release
pub mod Congruence
pub mod Tree
use chcore_lab_v.Base.{
  ℕ, zero, ◌+◌, ◌-◌, ◌*◌, ◌^◌, Bool, true, false, not, ◌&&◌, Option, none, some, bit_and, ltb, ◌==◌,
  if◌then◌else◌, Result, ok, ◌>>=◌, ◌>>◌, bug_on, add64, sub64, shr, shl64, get_field, set_field,
}
use chcore_lab_v.Machine.{Machine, store, memset_zero, get_pages}

-- arch/mmu.h and vars.h.
abbrev pub kbase : ℕ
kbase = 0xffffff0000000000

abbrev pub phys_to_virt : ℕ → ℕ
phys_to_virt pa = add64 pa kbase

abbrev pub virt_to_phys : ℕ → ℕ
virt_to_phys va = sub64 va kbase

abbrev pub page_size : ℕ
page_size = 0x1000

-- The bits of vmr_prop_t.
abbrev pub vmr_write : ℕ
vmr_write = 2

abbrev pub vmr_exec : ℕ
vmr_exec = 4

abbrev pub vmr_device : ℕ
vmr_device = 8

abbrev pub vmr_nocache : ℕ
vmr_nocache = 16

-- A test of a bit mask, `x & mask` as a condition.
abbrev pub has_bit : ℕ → ℕ → Bool
has_bit x mask = not (bit_and x mask == 0)

abbrev pub is_pte_invalid : ℕ → Bool
is_pte_invalid pte = not (has_bit pte 1)

abbrev pub is_pte_table : ℕ → Bool
is_pte_table pte = has_bit pte 2

-- `GET_Lx_INDEX`: PTP_INDEX_MASK is 2^9 - 1.
abbrev pub index_shift : ℕ → ℕ
index_shift level = (3 - level) * 9 + 12

abbrev pub get_index : ℕ → ℕ → ℕ
get_index level va = bit_and (shr va (index_shift level)) 511

-- The fields of the formats of pte_t that the code reads or writes, by their first bit and width.
abbrev pub table_addr : ℕ → ℕ
table_addr w = get_field 12 36 w

abbrev pub l1_pfn : ℕ → ℕ
l1_pfn w = get_field 30 18 w

abbrev pub l2_pfn : ℕ → ℕ
l2_pfn w = get_field 21 27 w

abbrev pub l3_pfn : ℕ → ℕ
l3_pfn w = get_field 12 36 w

-- set_pte_flags. AP is bits 6-7, SH 8-9, AF 10, nG 11, attr_index 2-4, PXN 53, UXN 54.
abbrev pub set_access : ℕ → ℕ → ℕ
set_access flags pte =
    set_field 54 1 (if has_bit flags vmr_exec then 0 else 1)
      (set_field 6 2 (if has_bit flags vmr_write then 1 else 3) pte)

abbrev pub set_fixed : ℕ → ℕ
set_fixed pte = set_field 8 2 3 (set_field 11 1 1 (set_field 10 1 1 (set_field 53 1 1 pte)))

abbrev pub set_memory_type : ℕ → ℕ → ℕ
set_memory_type flags pte =
    if has_bit flags vmr_device
    then set_field 8 2 0 (set_field 2 3 1 pte)
    else set_field 2 3 (if has_bit flags vmr_nocache then 2 else 0) pte

unfoldable pub set_pte_flags : ℕ → ℕ → ℕ
unfolding set_field
set_pte_flags pte flags = set_memory_type flags (set_fixed (set_access flags pte))

-- The return codes of get_next_ptp: -ENOMAPPING, NORMAL_PTP and BLOCK_PTP.
pub data Ret : Type 0 where
  no_mapping normal_ptp block_ptp : Ret

-- What get_next_ptp returns and writes through `next_ptp` and `pte`; `none` is not written.
pub record Next : Type 0 where
  pub ret : Ret
  pub next_ptp : Option ℕ
  pub pte : Option ℕ

abbrev pub entry_addr : ℕ → ℕ → ℕ → ℕ
entry_addr cur_ptp level va = cur_ptp + 8 * get_index level va

-- The entry that is put in for a new page-table page: is_valid, is_table and next_table_addr.
unfoldable pub table_pte : ℕ → ℕ
unfolding set_field
table_pte new_ptp_paddr =
    set_field 12 36 (shr new_ptp_paddr 12) (set_field 1 1 1 (set_field 0 1 1 0))

unfoldable pub alloc_ptp : Machine → ℕ → Result Machine
unfolding get_pages memset_zero table_pte
alloc_ptp m entry = do
  (m', new_ptp) ← get_pages m 0
  bug_on (new_ptp == 0)
  ok (store entry (table_pte (virt_to_phys new_ptp)) (memset_zero new_ptp page_size m'))

abbrev pub get_next_of : ℕ → ℕ
get_next_of pte = phys_to_virt (shl64 (table_addr pte) 12)

abbrev pub found_next : Machine → ℕ → Machine × Next
found_next m entry = (
  m,
  record {
    ret = if is_pte_table (m.mem entry) then normal_ptp else block_ptp;
    next_ptp = some (get_next_of (m.mem entry));
    pte = some entry;
  },
)

abbrev pub failed : Machine → Machine × Next
failed m = (m, record { ret = no_mapping; next_ptp = none; pte = none })

abbrev pub last_level : Machine → ℕ → Machine × Next
last_level m entry = (
  m,
  record {
    ret = if is_pte_invalid (m.mem entry) then no_mapping else block_ptp;
    next_ptp = none;
    pte = some entry;
  },
)

-- The entry of a level above the last: a page-table page is put in where it is invalid and
-- `alloc` is true.
unfoldable pub next_at : Machine → ℕ → Bool → Result (Machine × Next)
unfolding alloc_ptp
next_at m entry alloc =
    if is_pte_invalid (m.mem entry)
    then (if alloc then (alloc_ptp m entry >>= λ m'. ok (found_next m' entry)) else ok (failed m))
    else ok (found_next m entry)

unfoldable pub get_next_ptp : Machine → ℕ → ℕ → ℕ → Bool → Result (Machine × Next)
unfolding next_at
get_next_ptp m cur_ptp level va alloc = if cur_ptp == 0 then ok (failed m) else do
  bug_on (ltb 3 level)
  if level == 3
      then ok (last_level m (entry_addr cur_ptp level va))
      else next_at m (entry_addr cur_ptp level va) alloc

-- `ret < 0`, and the out-parameters: a pointer that the call did not write keeps its value, and
-- one that was never written is not followed.
abbrev pub is_error : Ret → Bool
is_error no_mapping = true
is_error normal_ptp = false
is_error block_ptp = false

abbrev pub is_block : Ret → Bool
is_block no_mapping = false
is_block normal_ptp = false
is_block block_ptp = true

abbrev pub defined : Option ℕ → Result ℕ
defined none = Result.fault
defined (some p) = ok p

abbrev pub written : ℕ → Option ℕ → ℕ
written old none = old
written old (some p) = p

-- The entry of a 4K page, and those of a 2M and of a 1G block, in the order of the assignments.
unfoldable pub page_pte : ℕ → ℕ → ℕ
unfolding set_field set_pte_flags
page_pte pa flags =
    set_pte_flags (set_field 12 36 (shr pa 12) (set_field 1 1 1 (set_field 0 1 1 0))) flags

unfoldable pub l2_block_pte : ℕ → ℕ → ℕ
unfolding set_field set_pte_flags
l2_block_pte pa flags =
    set_pte_flags (set_field 21 27 (shr pa 21) (set_field 1 1 0 (set_field 0 1 1 0))) flags

unfoldable pub l1_block_pte : ℕ → ℕ → ℕ
unfolding set_field set_pte_flags
l1_block_pte pa flags =
    set_pte_flags (set_field 30 18 (shr pa 30) (set_field 1 1 0 (set_field 0 1 1 0))) flags

abbrev pub l1_block_size : ℕ
l1_block_size = 2 ^ 30

abbrev pub l2_block_size : ℕ
l2_block_size = 2 ^ 21

-- A level of the walk that allocates, and its BUG_ON: the next page and the entry.
unfoldable pub step_down : Machine → ℕ → ℕ → ℕ → Result (Machine × ℕ × ℕ)
unfolding get_next_ptp
step_down m ptp level va = do
  (m', next) ← get_next_ptp m ptp level va true
  bug_on (is_error next.ret)
  next_ptp ← defined next.next_ptp
  pte ← defined next.pte
  ok (m', next_ptp, pte)

-- The last level of map_range_in_pgtbl and map_range_in_pgtbl_huge. `stale` is what `pte` holds
-- before the call.
unfoldable pub map_l3 : Machine → ℕ → ℕ → ℕ → ℕ → ℕ → Result Machine
unfolding get_next_ptp page_pte
map_l3 m l3_ptp stale va pa flags = do
  (m', last) ← get_next_ptp m l3_ptp 3 va false
  bug_on (not (is_error last.ret) && not (is_block last.ret))
  ok (store (written stale last.pte) (page_pte pa flags) m')

-- `return 0;` of the functions that change a page table: the only value they return.
abbrev pub return_zero : Machine → Result (Machine × ℕ)
return_zero m = ok (m, 0)
