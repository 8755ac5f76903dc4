-- ===== src/PageTable/Query.antt =====
-- query_in_pgtbl of kernel/arch/aarch64/mm/page_table.c. `none` is -ENOMAPPING, else the result is
-- the physical address and the entry. The callers give a `pa` that is not NULL.
use chcore_lab_v.Base.{
  ℕ, ◌^◌, ◌-◌, not, false, ◌&&◌, Option, none, some, bit_and, bit_or, if◌then◌else◌, Result, ok,
  ◌>>=◌, ◌>>◌, bug_on, shl64,
}
use chcore_lab_v.Machine.{Machine}
use chcore_lab_v.PageTable.{get_next_ptp, is_error, is_block, defined, l1_pfn, l2_pfn, l3_pfn}

abbrev pub located : Machine → ℕ → ℕ → ℕ → ℕ → Option (ℕ × ℕ)
located m pfn shift pte va = some (bit_or (shl64 pfn shift) (bit_and va (2 ^ shift - 1)), pte)

unfoldable pub query_l3 : Machine → ℕ → ℕ → Result (Option (ℕ × ℕ))
unfolding get_next_ptp
query_l3 m l3_ptp va = do
  (m', next) ← get_next_ptp m l3_ptp 3 va false
  bug_on (not (is_error next.ret) && not (is_block next.ret))
  if is_error next.ret
      then ok none
      else do pte ← defined next.pte; ok (located m' (l3_pfn (m'.mem pte)) 12 pte va)

unfoldable pub query_l2 : Machine → ℕ → ℕ → Result (Option (ℕ × ℕ))
unfolding get_next_ptp query_l3
query_l2 m l2_ptp va = do
  (m', next) ← get_next_ptp m l2_ptp 2 va false
  if is_error next.ret then ok none else do
    pte ← defined next.pte
    l3_ptp ← defined next.next_ptp
    if is_block next.ret
        then ok (located m' (l2_pfn (m'.mem pte)) 21 pte va)
        else query_l3 m' l3_ptp va

unfoldable pub query_l1 : Machine → ℕ → ℕ → Result (Option (ℕ × ℕ))
unfolding get_next_ptp query_l2
query_l1 m l1_ptp va = do
  (m', next) ← get_next_ptp m l1_ptp 1 va false
  if is_error next.ret then ok none else do
    pte ← defined next.pte
    l2_ptp ← defined next.next_ptp
    if is_block next.ret
        then ok (located m' (l1_pfn (m'.mem pte)) 30 pte va)
        else query_l2 m' l2_ptp va

unfoldable pub query_in_pgtbl : Machine → ℕ → ℕ → Result (Option (ℕ × ℕ))
unfolding get_next_ptp query_l1
query_in_pgtbl m pgtbl va = do
  (m', next) ← get_next_ptp m pgtbl 0 va false
  if is_error next.ret then ok none else do l1_ptp ← defined next.next_ptp; query_l1 m' l1_ptp va
