-- ===== src/PageTable/Unmap.antt =====
-- unmap_range_in_pgtbl and unmap_range_in_pgtbl_huge of kernel/arch/aarch64/mm/page_table.c.
use chcore_lab_v.Base.{
  ℕ, zero, suc, ◌+◌, ◌/◌, not, false, ◌&&◌, ltb, if◌then◌else◌, Result, ok, ◌>>=◌, ◌>>◌, bug_on,
  add64,
}
use chcore_lab_v.Machine.{Machine, store}
use chcore_lab_v.PageTable.{
  page_size, l1_block_size, l2_block_size, get_next_ptp, is_error, is_block, defined, return_zero,
}

-- The levels of the loop body of unmap_range_in_pgtbl. A level without a mapping leaves the page.
unfoldable pub unmap_l3 : Machine → ℕ → ℕ → Result Machine
unfolding get_next_ptp
unmap_l3 m l3_ptp va = do
  (m', next) ← get_next_ptp m l3_ptp 3 va false
  if is_error next.ret
      then ok m'
      else do bug_on (not (is_block next.ret)); pte ← defined next.pte; ok (store pte 0 m')

unfoldable pub unmap_level :
    (Machine → ℕ → ℕ → Result Machine) → ℕ → Machine → ℕ → ℕ → Result Machine
unfolding get_next_ptp
unmap_level below level m ptp va = do
  (m', next) ← get_next_ptp m ptp level va false
  if is_error next.ret then ok m' else do next_ptp ← defined next.next_ptp; below m' next_ptp va

unfoldable pub unmap_page : Machine → ℕ → ℕ → Result Machine
unfolding unmap_l3 unmap_level
unmap_page m l0_ptp va = unmap_level (unmap_level (unmap_level unmap_l3 2) 1) 0 m l0_ptp va

unfoldable pub unmap_pages : ℕ → Machine → ℕ → ℕ → ℕ → Result Machine
unfolding unmap_page
unmap_pages zero m l0_ptp va va_end = if ltb va va_end then Result.out_of_fuel else ok m
unmap_pages (suc fuel) m l0_ptp va va_end =
    if ltb va va_end
    then (do m' ← unmap_page m l0_ptp va; unmap_pages fuel m' l0_ptp (add64 va page_size) va_end)
    else ok m

unfoldable pub unmap_range_in_pgtbl : Machine → ℕ → ℕ → ℕ → Result (Machine × ℕ)
unfolding unmap_pages
unmap_range_in_pgtbl m pgtbl va len =
    unmap_pages (len / page_size + 1) m pgtbl va (add64 va len) >>= return_zero

-- The loop body of unmap_range_in_pgtbl_huge, and by how much `va` goes up.
unfoldable pub unmap_huge_l3 : Machine → ℕ → ℕ → Result (Machine × ℕ)
unfolding get_next_ptp
unmap_huge_l3 m l3_ptp va = do
  (m', next) ← get_next_ptp m l3_ptp 3 va false
  bug_on (not (is_error next.ret) && not (is_block next.ret))
  if is_error next.ret
      then ok (m', page_size)
      else do pte ← defined next.pte; ok (store pte 0 m', page_size)

-- A level that may hold a block of `size` bytes.
unfoldable pub unmap_huge_level :
    (Machine → ℕ → ℕ → Result (Machine × ℕ)) → ℕ → ℕ → Machine → ℕ → ℕ → Result (Machine × ℕ)
unfolding get_next_ptp
unmap_huge_level below level size m ptp va = do
  (m', next) ← get_next_ptp m ptp level va false
  if is_error next.ret then ok (m', page_size) else do
    pte ← defined next.pte
    next_ptp ← defined next.next_ptp
    if is_block next.ret then ok (store pte 0 m', size) else below m' next_ptp va

unfoldable pub unmap_huge : Machine → ℕ → ℕ → Result (Machine × ℕ)
unfolding get_next_ptp unmap_huge_l3 unmap_huge_level
unmap_huge m l0_ptp va = do
  (m', next) ← get_next_ptp m l0_ptp 0 va false
  if is_error next.ret then ok (m', page_size) else do
    l1_ptp ← defined next.next_ptp
    unmap_huge_level (unmap_huge_level unmap_huge_l3 2 l2_block_size) 1 l1_block_size m' l1_ptp va

unfoldable pub unmap_blocks : ℕ → Machine → ℕ → ℕ → ℕ → Result Machine
unfolding unmap_huge
unmap_blocks zero m l0_ptp va va_end = if ltb va va_end then Result.out_of_fuel else ok m
unmap_blocks (suc fuel) m l0_ptp va va_end =
    if ltb va va_end
    then (do
      (m', size) ← unmap_huge m l0_ptp va
      unmap_blocks fuel m' l0_ptp (add64 va size) va_end)
    else ok m

unfoldable pub unmap_range_in_pgtbl_huge : Machine → ℕ → ℕ → ℕ → Result (Machine × ℕ)
unfolding unmap_blocks
unmap_range_in_pgtbl_huge m pgtbl va len =
    unmap_blocks (len / page_size + 1) m pgtbl va (add64 va len) >>= return_zero
