-- ===== src/PageTable/Map.antt =====
-- map_range_in_pgtbl and map_range_in_pgtbl_huge of kernel/arch/aarch64/mm/page_table.c. The loops
-- have one round per page of the range and one more: a range that does not wrap needs no more, and
-- one whose end lies in the last page of the address space may not end in the code either.
use chcore_lab_v.Base.{
  ℕ, zero, suc, ◌+◌, ◌/◌, ◌-◌, Bool, ◌&&◌, bit_and, ltb, leb, ◌==◌, if◌then◌else◌, Result, ok,
  ◌>>=◌, add64, sub64,
}
use chcore_lab_v.Machine.{Machine, store}
use chcore_lab_v.PageTable.{
  page_size, l1_block_size, l2_block_size, entry_addr, step_down, map_l3, l1_block_pte,
  l2_block_pte, return_zero,
}

-- The body of the loop of map_range_in_pgtbl.
unfoldable pub map_page : Machine → ℕ → ℕ → ℕ → ℕ → Result Machine
unfolding step_down map_l3
map_page m l0_ptp va pa flags = do
  (m1, l1_ptp, l0_pte) ← step_down m l0_ptp 0 va
  (m2, l2_ptp, l1_pte) ← step_down m1 l1_ptp 1 va
  (m3, l3_ptp, l2_pte) ← step_down m2 l2_ptp 2 va
  map_l3 m3 l3_ptp l2_pte va pa flags

unfoldable pub map_pages : ℕ → Machine → ℕ → ℕ → ℕ → ℕ → ℕ → Result Machine
unfolding map_page
map_pages zero m l0_ptp va pa va_end flags = if ltb va va_end then Result.out_of_fuel else ok m
map_pages (suc fuel) m l0_ptp va pa va_end flags =
    if ltb va va_end
    then (do
      m' ← map_page m l0_ptp va pa flags
      map_pages fuel m' l0_ptp (add64 va page_size) (add64 pa page_size) va_end flags)
    else ok m

unfoldable pub map_range_in_pgtbl : Machine → ℕ → ℕ → ℕ → ℕ → ℕ → Result (Machine × ℕ)
unfolding map_pages
map_range_in_pgtbl m pgtbl va pa len flags =
    map_pages (len / page_size + 1) m pgtbl va pa (add64 va len) flags >>= return_zero

-- Whether a block of `size` bytes starts at `va` and `pa` and ends in the range.
abbrev pub block_fits : ℕ → ℕ → ℕ → ℕ → Bool
block_fits size va pa va_end =
    bit_and va (size - 1) == 0 && bit_and pa (size - 1) == 0 && leb size (sub64 va_end va)

-- The body of the loop of map_range_in_pgtbl_huge, and the size that it maps.
unfoldable pub map_huge : Machine → ℕ → ℕ → ℕ → ℕ → ℕ → Result (Machine × ℕ)
unfolding step_down map_l3 l1_block_pte l2_block_pte
map_huge m l0_ptp va pa va_end flags = do
  (m1, l1_ptp, l0_pte) ← step_down m l0_ptp 0 va
  if block_fits l1_block_size va pa va_end
      then ok (store (entry_addr l1_ptp 1 va) (l1_block_pte pa flags) m1, l1_block_size)
      else do
        (m2, l2_ptp, l1_pte) ← step_down m1 l1_ptp 1 va
        if block_fits l2_block_size va pa va_end
            then ok (store (entry_addr l2_ptp 2 va) (l2_block_pte pa flags) m2, l2_block_size)
            else do
              (m3, l3_ptp, l2_pte) ← step_down m2 l2_ptp 2 va
              m4 ← map_l3 m3 l3_ptp l2_pte va pa flags
              ok (m4, page_size)

unfoldable pub map_blocks : ℕ → Machine → ℕ → ℕ → ℕ → ℕ → ℕ → Result Machine
unfolding map_huge
map_blocks zero m l0_ptp va pa va_end flags = if ltb va va_end then Result.out_of_fuel else ok m
map_blocks (suc fuel) m l0_ptp va pa va_end flags =
    if ltb va va_end
    then (do
      (m', size) ← map_huge m l0_ptp va pa va_end flags
      map_blocks fuel m' l0_ptp (add64 va size) (add64 pa size) va_end flags)
    else ok m

unfoldable pub map_range_in_pgtbl_huge : Machine → ℕ → ℕ → ℕ → ℕ → ℕ → Result (Machine × ℕ)
unfolding map_blocks
map_range_in_pgtbl_huge m pgtbl va pa len flags =
    map_blocks (len / page_size + 1) m pgtbl va pa (add64 va len) flags >>= return_zero
