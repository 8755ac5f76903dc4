-- ===== src/PageTable/Clear/Walk.antt =====
-- The loop body of unmap_range_in_pgtbl of kernel/arch/aarch64/mm/page_table.c: it clears the entry of
-- the last level, if the walk comes to one.
use chcore_lab_v.Base.{
  ℕ, suc, ◌+◌, ◌-◌, ◌*◌, ◌/◌, ◌%◌, ◌≡◌, refl, inl, inr, false, ltb, ◌==◌, Result, ok, Bool-cases,
}
use chcore_lab_v.Machine.{Machine}
use chcore_lab_v.PageTable.{get_next_ptp}
use chcore_lab_v.PageTable.Unmap.{unmap_l3, unmap_level, unmap_page}
use chcore_lab_v.PageTable.Translate.{
  entry_at, is_invalid, next_table, invalid_lem, table_lem, index_lem, next_lem,
}
use chcore_lab_v.PageTable.Clear.{clear}

-- A step of the walk.
unmap_l3-clear :
    (m : Machine) (t va : ℕ) → unmap_l3 m t va ≡ ok (record m { mem = clear 0 m.mem t va })
unfolding unmap_l3 get_next_ptp clear
unmap_l3-clear m t va = elim (Bool-cases (t == 0)) [
  | inl null ↦ rw null refl
  | inr there ↦ elim (Bool-cases (is_invalid (m.mem (entry_at 0 t va)))) [
    | inl out ↦ rw (there, index_lem 12 va, invalid_lem (m.mem (entry_at 0 t va)), out) refl
    | inr valid ↦ rw (there, index_lem 12 va, invalid_lem (m.mem (entry_at 0 t va)), valid) refl
  ]
]

-- The levels above: `level` of the code has `suc k` more levels below it.
module _ (below : Machine → ℕ → ℕ → Result Machine) (level k : ℕ)
    (below_lem : (m : Machine) (t va : ℕ)
      → below m t va ≡ ok (record m { mem = clear k m.mem t va }))
    (small : ltb 3 level ≡ false) (upper : (level == 3) ≡ false)
    (shift : (3 - level) * 9 + 12 ≡ 9 * suc k + 12) where
  unmap_level-clear :
      (m : Machine) (t va : ℕ)
      → unmap_level below level m t va ≡ ok (record m { mem = clear (suc k) m.mem t va })
  unfolding unmap_level get_next_ptp clear
  unmap_level-clear m t va =
      let e = entry_at (suc k) t va in
      let idx = index_lem (9 * suc k + 12) va in
      elim (Bool-cases (t == 0)) [
        | inl null ↦ rw null refl
        | inr there ↦ elim (Bool-cases (is_invalid (m.mem e))) [
          | inl out ↦ rw (there, small, upper, shift, idx, invalid_lem (m.mem e), out) refl
          | inr valid ↦ elim (Bool-cases (m.mem e / 2 % 2 == 0)) [
            | inl block ↦
                rw
                  (
                    there,
                    small,
                    upper,
                    shift,
                    idx,
                    invalid_lem (m.mem e),
                    valid,
                    table_lem (m.mem e),
                    block,
                    next_lem (m.mem e),
                  )
                  (below_lem m (next_table (m.mem e)) va)
            | inr table ↦
                rw
                  (
                    there,
                    small,
                    upper,
                    shift,
                    idx,
                    invalid_lem (m.mem e),
                    valid,
                    table_lem (m.mem e),
                    table,
                    next_lem (m.mem e),
                  )
                  (below_lem m (next_table (m.mem e)) va)
          ]
        ]
      ]

pub unmap_page-clear :
    (m : Machine) (t va : ℕ) → unmap_page m t va ≡ ok (record m { mem = clear 3 m.mem t va })
unfolding unmap_page
unmap_page-clear m t va =
    unmap_level-clear (unmap_level (unmap_level unmap_l3 2) 1) 0 2
      (unmap_level-clear (unmap_level unmap_l3 2) 1 1
        (unmap_level-clear unmap_l3 2 0 unmap_l3-clear refl refl refl) refl refl refl)
      refl refl refl m t va
