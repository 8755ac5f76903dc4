-- ===== src/PageTable/Congruence.antt =====
-- The translation of kernel/arch/aarch64/mm/page_table.c in two memories that agree on the entries
-- of the walk.
use chcore_lab_v.Base.{
  ℕ, zero, suc, ◌≡◌, ◌≢◌, refl, inl, inr, true, false, none, ◌==◌, ==-false_of_ne, Bool-cases,
  arith,
}
use chcore_lab_v.PageTable.Translate.{entry_at, is_invalid, is_leaf, next_table, lookup}
use chcore_lab_v.PageTable.Clear.{no_block}

pub lookup-zero_congr :
    (mem mem' : ℕ → ℕ) (t x : ℕ)
    → mem' (entry_at 0 t x) ≡ mem (entry_at 0 t x)
    → lookup 0 mem' t x ≡ lookup 0 mem t x
unfolding lookup
lookup-zero_congr mem mem' t x same = rw same refl

module _ (k : ℕ) (mem : ℕ → ℕ) (t x : ℕ) where
  pub lookup_invalid :
      is_invalid (mem (entry_at (suc k) t x)) ≡ true → lookup (suc k) mem t x ≡ none
  unfolding lookup
  lookup_invalid h = elim (Bool-cases (t == 0)) [
    | inl null ↦ rw null refl
    | inr there ↦ rw (there, h) refl
  ]

  pub lookup_null : (t == 0) ≡ true → lookup (suc k) mem t x ≡ none
  unfolding lookup
  lookup_null h = rw h refl

  pub lookup-suc_congr :
      (mem' : ℕ → ℕ)
      → mem' (entry_at (suc k) t x) ≡ mem (entry_at (suc k) t x)
      → (t ≢ 0
          → is_invalid (mem (entry_at (suc k) t x)) ≡ false
          → is_leaf (suc k) (mem (entry_at (suc k) t x)) ≡ false
          → lookup k mem' (next_table (mem (entry_at (suc k) t x))) x
            ≡ lookup k mem (next_table (mem (entry_at (suc k) t x))) x)
      → lookup (suc k) mem' t x ≡ lookup (suc k) mem t x
  unfolding lookup
  lookup-suc_congr mem' same below = elim (Bool-cases (t == 0)) [
    | inl null ↦ rw null refl
    | inr there ↦ elim (Bool-cases (is_invalid (mem (entry_at (suc k) t x)))) [
      | inl out ↦ rw (same, there, out) refl
      | inr valid ↦ elim (Bool-cases (is_leaf (suc k) (mem (entry_at (suc k) t x)))) [
        | inl leaf ↦ rw (same, there, valid, leaf) refl
        | inr table ↦ rw (same, there, valid, table) (below (λ e. ground (arith, e)) valid table)
      ]
    ]
  ]

  pub no_block-suc_congr :
      (mem' : ℕ → ℕ)
      → mem' (entry_at (suc k) t x) ≡ mem (entry_at (suc k) t x)
      → (t ≢ 0
          → is_invalid (mem (entry_at (suc k) t x)) ≡ false
          → is_leaf (suc k) (mem (entry_at (suc k) t x)) ≡ false
          → no_block k mem' (next_table (mem (entry_at (suc k) t x))) x
            ≡ no_block k mem (next_table (mem (entry_at (suc k) t x))) x)
      → no_block (suc k) mem' t x ≡ no_block (suc k) mem t x
  unfolding no_block
  no_block-suc_congr mem' same below = elim (Bool-cases (t == 0)) [
    | inl null ↦ rw null refl
    | inr there ↦ elim (Bool-cases (is_invalid (mem (entry_at (suc k) t x)))) [
      | inl out ↦ rw (same, there, out) refl
      | inr valid ↦ elim (Bool-cases (is_leaf (suc k) (mem (entry_at (suc k) t x)))) [
        | inl leaf ↦ rw (same, there, valid, leaf) refl
        | inr table ↦ rw (same, there, valid, table) (below (λ e. ground (arith, e)) valid table)
      ]
    ]
  ]

  pub no_block_invalid :
      is_invalid (mem (entry_at (suc k) t x)) ≡ true → no_block (suc k) mem t x ≡ true
  unfolding no_block
  no_block_invalid h = elim (Bool-cases (t == 0)) [
    | inl null ↦ rw null refl
    | inr there ↦ rw (there, h) refl
  ]

  pub no_block_table :
      t ≢ 0
      → is_invalid (mem (entry_at (suc k) t x)) ≡ false
      → is_leaf (suc k) (mem (entry_at (suc k) t x)) ≡ false
      → no_block (suc k) mem t x ≡ no_block k mem (next_table (mem (entry_at (suc k) t x))) x
  unfolding no_block
  no_block_table there valid table = rw (==-false_of_ne t 0 there, valid, table) refl

pub inner_of_no_block :
    (k : ℕ) (mem : ℕ → ℕ) (t x : ℕ)
    → t ≢ 0
    → is_invalid (mem (entry_at (suc k) t x)) ≡ false
    → no_block (suc k) mem t x ≡ true
    → is_leaf (suc k) (mem (entry_at (suc k) t x)) ≡ false
unfolding no_block
inner_of_no_block k mem t x there valid pages =
    elim (Bool-cases (is_leaf (suc k) (mem (entry_at (suc k) t x)))) [
      | inl leaf ↦
          absurd
            (let bad : false ≡ true = rw (==-false_of_ne t 0 there, valid, leaf) at pages in cc)
      | inr inner ↦ inner
    ]

-- A table whose entries are all 0 translates nothing.
pub lookup-empty :
    (k : ℕ) (mem : ℕ → ℕ) (t x : ℕ) → mem (entry_at k t x) ≡ 0 → lookup k mem t x ≡ none
unfolding lookup
lookup-empty zero mem t x h = elim (Bool-cases (t == 0)) [
  | inl null ↦ rw null refl
  | inr there ↦ rw (there, h) refl
]
lookup-empty (suc k) mem t x h = lookup_invalid k mem t x (rw h refl)

pub no_block-empty :
    (k : ℕ) (mem : ℕ → ℕ) (t x : ℕ) → mem (entry_at k t x) ≡ 0 → no_block k mem t x ≡ true
unfolding no_block
no_block-empty zero mem t x h = refl
no_block-empty (suc k) mem t x h = no_block_invalid k mem t x (rw h refl)
