-- ===== src/PageTable/Clear/Range.antt =====
-- The loop of unmap_range_in_pgtbl of kernel/arch/aarch64/mm/page_table.c.
use chcore_lab_v.Base.{
  ℕ, zero, suc, ◌+◌, ◌*◌, ◌/◌, ◌%◌, ◌^◌, ◌≤◌, ◌<◌, ◌≡◌, refl, sym, ap, subst, ◌==◌, ◌||◌, ◌∙◌, inl,
  inr, true, false, ltb, none, Result, ok, ◌>>=◌, add64, Bool-cases, dec_lt, arith,
}
use chcore_lab_v.Base.Pow.{div-two-pow_mono}
use chcore_lab_v.Machine.{Machine}
use chcore_lab_v.PageTable.{return_zero}
use chcore_lab_v.PageTable.Unmap.{unmap_pages, unmap_range_in_pgtbl}
use chcore_lab_v.PageTable.Query.{query_in_pgtbl}
use chcore_lab_v.PageTable.Translate.{
  entry_at, is_invalid, is_leaf, next_table, lookup, query_in_pgtbl-lookup,
}
use chcore_lab_v.PageTable.Clear.Walk.{unmap_page-clear}
use chcore_lab_v.PageTable.Clear.{
  clear, Cleared, Cleared-trans, clear-Cleared, lookup-Cleared, no_block, no_block-Cleared,
  lookup-clear,
}

-- The addresses of a page have the same entries.
pub entry_at-page : (k t va x : ℕ) → va / 4096 ≡ x / 4096 → entry_at k t va ≡ entry_at k t x
entry_at-page k t va x e =
    let shift : 12 + 9 * k ≡ 9 * k + 12 = omega arith in
    let same : va / 2 ^ (9 * k + 12) ≡ x / 2 ^ (9 * k + 12) =
      subst (λ (s : ℕ). va / 2 ^ s ≡ x / 2 ^ s) shift (div-two-pow_mono 12 (9 * k) va x e) in
    ap (λ (i : ℕ). t + 8 * (i % 512)) same

-- A page is mapped or not as a whole.
lookup-page :
    (k : ℕ) (mem : ℕ → ℕ) (t va x : ℕ)
    → va / 4096 ≡ x / 4096
    → lookup k mem t va ≡ none
    → lookup k mem t x ≡ none
unfolding lookup
lookup-page zero mem t va x e h =
    let same = entry_at-page 0 t va x e in
    elim (Bool-cases (t == 0 || is_invalid (mem (entry_at 0 t va)))) [
      | inl nothing ↦
          let nothing' = ap (λ (a : ℕ). t == 0 || is_invalid (mem a)) (sym same) ∙ nothing in
          rw nothing' refl
      | inr there ↦ absurd (let bad = rw there at h in cc)
    ]
lookup-page (suc k) mem t va x e h =
    let same = entry_at-page (suc k) t va x e in
    let at = entry_at (suc k) t va in
    elim (Bool-cases (t == 0 || is_invalid (mem at))) [
      | inl nothing ↦
          let nothing' = ap (λ (a : ℕ). t == 0 || is_invalid (mem a)) (sym same) ∙ nothing in
          rw nothing' refl
      | inr there ↦
          let there' = ap (λ (a : ℕ). t == 0 || is_invalid (mem a)) (sym same) ∙ there in
          elim (Bool-cases (is_leaf (suc k) (mem at))) [
            | inl leaf ↦ absurd (let bad = rw (there, leaf) at h in cc)
            | inr table ↦
                let table' = ap (λ (a : ℕ). is_leaf (suc k) (mem a)) (sym same) ∙ table in
                let next' = ap (λ (a : ℕ). next_table (mem a)) (sym same) in
                rw (there', table', next')
                  (lookup-page k mem (next_table (mem at)) va x e (rw (there, table) at h))
          ]
    ]

-- What the loop leaves behind.
pub record Unmapped (m : Machine) (pgtbl va va_end : ℕ) (r : Result Machine) : Type 0 where
  pub after : ℕ → ℕ
  pub returns : r ≡ ok (record m { mem = after })
  -- Words are cleared, and nothing else is written.
  pub cleared : Cleared m.mem after
  pub absent : (x : ℕ) → va ≤ x → x < va_end → lookup 3 after pgtbl x ≡ none

pub unmap_pages-done :
    (fuel va va_end pgtbl : ℕ) (m : Machine)
    → ltb va va_end ≡ false
    → unmap_pages fuel m pgtbl va va_end ≡ ok m
unfolding unmap_pages
unmap_pages-done zero va va_end pgtbl m h = rw h refl
unmap_pages-done (suc fuel) va va_end pgtbl m h = rw h refl

pub unmap_pages-suc :
    (fuel va va_end pgtbl : ℕ) (m : Machine)
    → ltb va va_end ≡ true
    → add64 va 4096 ≡ va + 4096
    → unmap_pages (suc fuel) m pgtbl va va_end
      ≡ unmap_pages fuel (record m { mem = clear 3 m.mem pgtbl va }) pgtbl (va + 4096) va_end
unfolding unmap_pages
unmap_pages-suc fuel va va_end pgtbl m more next = rw (more, unmap_page-clear m pgtbl va, next) refl

unmap_pages-Unmapped :
    (fuel va va_end pgtbl : ℕ) (m : Machine)
    → va % 4096 ≡ 0
    → va_end + 4096 ≤ 2 ^ 64
    → va_end ≤ va + fuel * 4096
    → ((x : ℕ) → va ≤ x → x < va_end → no_block 3 m.mem pgtbl x ≡ true)
    → Unmapped m pgtbl va va_end (unmap_pages fuel m pgtbl va va_end)
unfolding Cleared
unmap_pages-Unmapped zero va va_end pgtbl m aligned high enough pages = record {
  after = m.mem;
  returns = unmap_pages-done 0 va va_end pgtbl m (ground arith);
  cleared = λ a. inl refl;
  absent = λ x lo hi. absurd (omega arith);
}
unmap_pages-Unmapped (suc fuel) va va_end pgtbl m aligned high enough pages =
    elim (dec_lt va va_end) [
      | no done ↦ record {
        after = m.mem;
        returns = unmap_pages-done (suc fuel) va va_end pgtbl m (ground arith);
        cleared = λ a. inl refl;
        absent = λ x lo hi. absurd (omega arith);
      }
      | yes more ↦
          let mem' = clear 3 m.mem pgtbl va in
          let clears = clear-Cleared 3 m.mem pgtbl va in
          let rest =
            unmap_pages-Unmapped fuel (va + 4096) va_end pgtbl (record m { mem = mem' })
              (omega arith) high (omega arith)
              (λ x lo hi.
                no_block-Cleared 3 m.mem mem' pgtbl x clears (pages x (omega arith) hi)) in
          record {
            after = rest.after;
            returns =
                unmap_pages-suc fuel va va_end pgtbl m (ground arith) (omega arith) ∙ rest.returns;
            cleared = Cleared-trans m.mem mem' rest.after clears rest.cleared;
            absent = λ x lo hi. elim (dec_lt x (va + 4096)) [
              | no later ↦ rest.absent x (omega arith) hi
              | yes here ↦ lookup-page 3 rest.after pgtbl va x (omega arith) (
                  lookup-Cleared 3 mem' rest.after pgtbl va rest.cleared
                    (lookup-clear 3 m.mem pgtbl va (pages va (omega arith) more)))
            ];
          }
    ]

-- For an aligned start and a range that ends a page before the end of the address space at the
-- latest, in which no address is mapped by a block, unmap_range_in_pgtbl returns 0, clears words
-- of memory and writes nothing else, and query_in_pgtbl finds no mapping of any address of the
-- range.
pub unmap_range_in_pgtbl-Unmapped :
    (m : Machine) (pgtbl va len : ℕ)
    → va % 4096 ≡ 0
    → va + len + 4096 ≤ 2 ^ 64
    → ((x : ℕ) → va ≤ x → x < va + len → no_block 3 m.mem pgtbl x ≡ true)
    → (u : Unmapped m pgtbl va (va + len) (unmap_pages (len / 4096 + 1) m pgtbl va (va + len)))
      × (unmap_range_in_pgtbl m pgtbl va len ≡ ok (record m { mem = u.after }, 0))
      × ((x : ℕ)
          → va ≤ x
          → x < va + len
          → query_in_pgtbl (record m { mem = u.after }) pgtbl x ≡ ok none)
unfolding unmap_range_in_pgtbl
unmap_range_in_pgtbl-Unmapped m pgtbl va len aligned high pages =
    let no_wrap : add64 va len ≡ va + len = omega arith in
    let u =
      unmap_pages-Unmapped (len / 4096 + 1) va (va + len) pgtbl m aligned high (omega arith)
        pages in
    (
      u,
      ap (λ (a : ℕ). unmap_pages (len / 4096 + 1) m pgtbl va a >>= return_zero) no_wrap
          ∙ ap (λ r. r >>= return_zero) u.returns,
      λ x lo hi.
          query_in_pgtbl-lookup (record m { mem = u.after }) pgtbl x
          ∙ ap (λ o. ok o) (u.absent x lo hi),
    )
