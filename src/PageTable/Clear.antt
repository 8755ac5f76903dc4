-- ===== src/PageTable/Clear.antt =====
-- unmap_range_in_pgtbl of kernel/arch/aarch64/mm/page_table.c against the translation.
pub mod Walk
pub mod Range
use chcore_lab_v.Base.{
  ℕ, zero, suc, ◌-◌, ◌≡◌, refl, sym, ◌∙◌, ◌⊎◌, inl, inr, Bool, true, false, not, ◌||◌, ◌&&◌, none,
  some, ◌==◌, if◌then◌else◌, update, Bool-cases, arith,
}
use chcore_lab_v.PageTable.Translate.{entry_at, is_invalid, is_leaf, next_table, lookup, leaf_at}

-- The memory after the entry of the last level is cleared.
unfoldable pub clear : ℕ → (ℕ → ℕ) → ℕ → ℕ → ℕ → ℕ
clear zero mem table va =
    let e = entry_at 0 table va in if table == 0 || is_invalid (mem e) then mem else update mem e 0
clear (suc k) mem table va =
    let w = mem (entry_at (suc k) table va) in
    let below = clear k mem (next_table w) va in if table == 0 || is_invalid w then mem else below

-- Every word is as before or cleared.
unfoldable pub Cleared : (ℕ → ℕ) → (ℕ → ℕ) → Type 0
Cleared mem mem' = (a : ℕ) → (mem' a ≡ mem a) ⊎ (mem' a ≡ 0)

pub Cleared-trans :
    (mem mem' mem'' : ℕ → ℕ) → Cleared mem mem' → Cleared mem' mem'' → Cleared mem mem''
unfolding Cleared
Cleared-trans mem mem' mem'' h h' a = elim (h' a) [
  | inl same ↦ elim (h a) [ inl same' ↦ inl (same ∙ same') | inr zeroed ↦ inr (same ∙ zeroed) ]
  | inr zeroed ↦ inr zeroed
]

pub clear-Cleared : (k : ℕ) (mem : ℕ → ℕ) (t va : ℕ) → Cleared mem (clear k mem t va)
unfolding Cleared clear
clear-Cleared zero mem t va a = elim (Bool-cases (t == 0 || is_invalid (mem (entry_at 0 t va)))) [
  | inl nothing ↦ inl (rw nothing refl)
  | inr page ↦ elim (Bool-cases (a == entry_at 0 t va)) [
    | inl at ↦ inr (rw (page, at) refl)
    | inr other ↦ inl (rw (page, other) refl)
  ]
]
clear-Cleared (suc k) mem t va a =
    elim (Bool-cases (t == 0 || is_invalid (mem (entry_at (suc k) t va)))) [
      | inl nothing ↦ inl (rw nothing refl)
      | inr more ↦ rw more (clear-Cleared k mem (next_table (mem (entry_at (suc k) t va))) va a)
    ]

guard_zero : (mem : ℕ → ℕ) (t e : ℕ) → mem e ≡ 0 → (t == 0 || is_invalid (mem e)) ≡ true
guard_zero mem t e h = ground arith

module _ (k : ℕ) (mem : ℕ → ℕ) (t va : ℕ) where
  pub lookup_leaf :
      (t == 0 || is_invalid (mem (entry_at (suc k) t va))) ≡ false
      → is_leaf (suc k) (mem (entry_at (suc k) t va)) ≡ true
      → lookup (suc k) mem t va
        ≡ some (leaf_at (suc k) (mem (entry_at (suc k) t va)) (entry_at (suc k) t va) va)
  unfolding lookup
  lookup_leaf there leaf = rw (there, leaf) refl

  pub lookup_table :
      (t == 0 || is_invalid (mem (entry_at (suc k) t va))) ≡ false
      → is_leaf (suc k) (mem (entry_at (suc k) t va)) ≡ false
      → lookup (suc k) mem t va ≡ lookup k mem (next_table (mem (entry_at (suc k) t va))) va
  unfolding lookup
  lookup_table there table = rw (there, table) refl

-- What is not mapped stays so when words are cleared.
pub lookup-Cleared :
    (k : ℕ) (mem mem' : ℕ → ℕ) (t va : ℕ)
    → Cleared mem mem'
    → lookup k mem t va ≡ none
    → lookup k mem' t va ≡ none
unfolding lookup Cleared
lookup-Cleared zero mem mem' t va h e = elim (h (entry_at 0 t va)) [
  | inl same ↦ rw same e
  | inr zeroed ↦ rw (guard_zero mem' t (entry_at 0 t va) zeroed) refl
]
lookup-Cleared (suc k) mem mem' t va h e =
    let at = entry_at (suc k) t va in
    elim (h at) [
      | inr zeroed ↦ rw (guard_zero mem' t at zeroed) refl
      | inl same ↦ elim (Bool-cases (t == 0 || is_invalid (mem at))) [
        | inl nothing ↦ rw (same, nothing) refl
        | inr there ↦ elim (Bool-cases (is_leaf (suc k) (mem at))) [
          | inl leaf ↦ absurd (let found = lookup_leaf k mem t va there leaf in cc)
          | inr table ↦
              rw (same, there, table)
                (lookup-Cleared k mem mem' (next_table (mem at)) va h
                  (sym (lookup_table k mem t va there table) ∙ e))
        ]
      ]
    ]

-- The walk for `va` meets no block.
unfoldable pub no_block : ℕ → (ℕ → ℕ) → ℕ → ℕ → Bool
no_block zero mem t va = true
no_block (suc k) mem t va =
    let w = mem (entry_at (suc k) t va) in
    let below = no_block k mem (next_table w) va in
    (t == 0 || is_invalid w) || (not (is_leaf (suc k) w) && below)

pub no_block-Cleared :
    (k : ℕ) (mem mem' : ℕ → ℕ) (t va : ℕ)
    → Cleared mem mem'
    → no_block k mem t va ≡ true
    → no_block k mem' t va ≡ true
unfolding no_block Cleared
no_block-Cleared zero mem mem' t va h e = refl
no_block-Cleared (suc k) mem mem' t va h e =
    let at = entry_at (suc k) t va in
    elim (h at) [
      | inr zeroed ↦ rw (guard_zero mem' t at zeroed) refl
      | inl same ↦ elim (Bool-cases (t == 0 || is_invalid (mem at))) [
        | inl nothing ↦ rw (same, nothing) refl
        | inr there ↦ elim (Bool-cases (is_leaf (suc k) (mem at))) [
          | inl leaf ↦ absurd (let bad : false ≡ true = rw (there, leaf) at e in cc)
          | inr table ↦
              rw (same, there, table)
                (no_block-Cleared k mem mem' (next_table (mem at)) va h (rw (there, table) at e))
        ]
      ]
    ]

-- An address whose table gives nothing below is not mapped after clearing.
lookup-below :
    (k : ℕ) (mem mem' : ℕ → ℕ) (t va : ℕ)
    → Cleared mem mem'
    → (t == 0 || is_invalid (mem (entry_at (suc k) t va))) ≡ false
    → is_leaf (suc k) (mem (entry_at (suc k) t va)) ≡ false
    → lookup k mem' (next_table (mem (entry_at (suc k) t va))) va ≡ none
    → lookup (suc k) mem' t va ≡ none
unfolding lookup Cleared
lookup-below k mem mem' t va h there table below =
    let at = entry_at (suc k) t va in
    elim (h at) [
      | inr zeroed ↦ rw (guard_zero mem' t at zeroed) refl
      | inl same ↦ rw (same, there, table) below
    ]

-- Clearing the entry of an address leaves it not mapped.
pub lookup-clear :
    (k : ℕ) (mem : ℕ → ℕ) (t va : ℕ)
    → no_block k mem t va ≡ true
    → lookup k (clear k mem t va) t va ≡ none
unfolding no_block clear lookup
lookup-clear zero mem t va e =
    let at = entry_at 0 t va in
    elim (Bool-cases (t == 0 || is_invalid (mem at))) [
      | inl nothing ↦ rw (nothing, nothing) refl
      | inr there ↦
          let cleared : update mem at 0 at ≡ 0 = ground arith in
          rw (there, guard_zero (update mem at 0) t at cleared) refl
    ]
lookup-clear (suc k) mem t va e =
    let at = entry_at (suc k) t va in
    elim (Bool-cases (t == 0 || is_invalid (mem at))) [
      | inl nothing ↦ rw (nothing, nothing) refl
      | inr there ↦ elim (Bool-cases (is_leaf (suc k) (mem at))) [
        | inl leaf ↦ absurd (let bad : false ≡ true = rw (there, leaf) at e in cc)
        | inr table ↦
            let below = lookup-clear k mem (next_table (mem at)) va (rw (there, table) at e) in
            rw there (
              lookup-below k mem (clear k mem (next_table (mem at)) va) t va
                (clear-Cleared k mem (next_table (mem at)) va) there table below)
      ]
    ]
