-- ===== src/PageTable/Release.antt =====
-- free_page_table of kernel/arch/aarch64/mm/page_table.c: the pages of the tables are freed, those
-- of the lower levels first.
use chcore_lab_v.Base.{ℕ, zero, suc, ◌+◌, ◌*◌, not, ◌||◌, ◌==◌, if◌then◌else◌, Result, ok, ◌>>=◌}
use chcore_lab_v.Machine.{Machine, free_pages}
use chcore_lab_v.PageTable.{is_pte_invalid, is_pte_table, get_next_of}

-- The loop over the entries of a page, from the entry `i` on; `below` releases the table of an entry.
unfoldable pub release_each : (ℕ → Machine → Result Machine) → ℕ → ℕ → ℕ → Machine → Result Machine
release_each below ptp zero i m = ok m
release_each below ptp (suc rounds) i m = do
  m' ←
      (let pte = m.mem (ptp + 8 * i) in
        if is_pte_invalid pte || not (is_pte_table pte) then ok m else below (get_next_of pte) m)
  release_each below ptp rounds (i + 1) m'

abbrev pub ptp_entries : ℕ
ptp_entries = 512

abbrev pub release_l3 : ℕ → Machine → Result Machine
release_l3 l3_ptp m = free_pages m l3_ptp

abbrev pub release_level : (ℕ → Machine → Result Machine) → ℕ → Machine → Result Machine
release_level below ptp m = do m' ← release_each below ptp ptp_entries 0 m; free_pages m' ptp

unfoldable pub free_page_table : Machine → ℕ → Result Machine
unfolding release_each free_pages
free_page_table m pgtbl =
    if pgtbl == 0 then ok m else release_level (release_level (release_level release_l3)) pgtbl m
