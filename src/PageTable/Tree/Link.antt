-- ===== src/PageTable/Tree/Link.antt =====
-- A new, empty table under kernel/arch/aarch64/mm/page_table.c changes no translation.
use chcore_lab_v.Base.{
  ℕ, zero, suc, ◌+◌, ◌*◌, ◌/◌, ◌%◌, ◌^◌, ◌<◌, ◌≡◌, ◌≢◌, refl, sym, ap, ◌∙◌, true, false, none, some,
  ◌==◌, ==-false_of_ne, arith, ℕ_discrete,
}
use chcore_lab_v.Machine.{Machine}
use chcore_lab_v.PageTable.Translate.{entry_at, is_invalid, is_leaf, next_table, lookup}
use chcore_lab_v.PageTable.Clear.{no_block, lookup_table}
use chcore_lab_v.PageTable.Congruence.{
  lookup-zero_congr, lookup_invalid, lookup-suc_congr, no_block-suc_congr, no_block_invalid,
  no_block_table, lookup-empty, no_block-empty,
}
use chcore_lab_v.PageTable.Tree.{Tree, table_nonzero, entries_apart, child_of_leaf, level_unique}

-- A memory in which one invalid entry has become the entry of an empty table.
pub record Linked {root : ℕ} {m : Machine} (tree : Tree root m) (mem' : ℕ → ℕ) (t k j addr : ℕ)
    : Type 0 where
  pub at_level : tree.level t ≡ some (suc k)
  pub index : j < 512
  pub kept :
      (u l i : ℕ)
      → tree.level u ≡ some l
      → i < 512
      → u + 8 * i ≢ t + 8 * j
      → mem' (u + 8 * i) ≡ m.mem (u + 8 * i)
  pub was_invalid : is_invalid (m.mem (t + 8 * j)) ≡ true
  pub now_valid : is_invalid (mem' (t + 8 * j)) ≡ false
  pub now_table : (mem' (t + 8 * j) / 2 % 2 == 0) ≡ false
  pub leads : next_table (mem' (t + 8 * j)) ≡ addr
  pub empty : (i : ℕ) → i < 512 → mem' (addr + 8 * i) ≡ 0

module _ {root : ℕ} {m : Machine} {tree : Tree root m} {mem' : ℕ → ℕ} {t k j addr : ℕ}
    (link : Linked tree mem' t k j addr) where
  pub same_below :
      (u i : ℕ) → tree.level u ≡ some 0 → i < 512 → mem' (u + 8 * i) ≡ m.mem (u + 8 * i)
  same_below u i h iN = link.kept u 0 i h iN (λ e.
      let same = entries_apart tree u 0 i t (suc k) j h link.at_level iN link.index e in
      absurd (
        omega
          (arith, level_unique tree t 0 (suc k) (ap tree.level (sym same.0) ∙ h) link.at_level)))

  not_leaf : (n : ℕ) → is_leaf (suc n) (mem' (t + 8 * j)) ≡ false
  not_leaf n = ground (arith, link.now_table)

  lookup-at :
      (n u x : ℕ) → u ≢ 0 → entry_at (suc n) u x ≡ t + 8 * j → lookup (suc n) mem' u x ≡ none
  lookup-at n u x there e =
      lookup_table n mem' u x (rw (e, ==-false_of_ne u 0 there) link.now_valid)
        (ap (λ (a : ℕ). is_leaf (suc n) (mem' a)) e ∙ not_leaf n)
      ∙ ap (λ (a : ℕ). lookup n mem' (next_table (mem' a)) x) e
      ∙ ap (λ (a : ℕ). lookup n mem' a x) link.leads
      ∙ lookup-empty n mem' addr x (link.empty (x / 2 ^ (9 * n + 12) % 512) (omega arith))

  no_block-at :
      (n u x : ℕ) → u ≢ 0 → entry_at (suc n) u x ≡ t + 8 * j → no_block (suc n) mem' u x ≡ true
  no_block-at n u x there e =
      no_block_table n mem' u x there (ap (λ (a : ℕ). is_invalid (mem' a)) e ∙ link.now_valid)
        (ap (λ (a : ℕ). is_leaf (suc n) (mem' a)) e ∙ not_leaf n)
      ∙ ap (λ (a : ℕ). no_block n mem' (next_table (mem' a)) x) e
      ∙ ap (λ (a : ℕ). no_block n mem' a x) link.leads
      ∙ no_block-empty n mem' addr x (link.empty (x / 2 ^ (9 * n + 12) % 512) (omega arith))

  -- The new table changes no translation.
  pub lookup-Linked : (n u x : ℕ) → tree.level u ≡ some n → lookup n mem' u x ≡ lookup n m.mem u x
  lookup-Linked zero u x h =
      lookup-zero_congr m.mem mem' u x (same_below u (x / 4096 % 512) h (omega arith))
  lookup-Linked (suc n) u x h =
      let i = x / 2 ^ (9 * suc n + 12) % 512 in
      elim (ℕ_discrete (entry_at (suc n) u x) (t + 8 * j)) [
        | yes e ↦
            lookup-at n u x (table_nonzero tree u (suc n) h) e
            ∙ sym (
                lookup_invalid n m.mem u x
                  (ap (λ (a : ℕ). is_invalid (m.mem a)) e ∙ link.was_invalid))
        | no other ↦
            lookup-suc_congr n m.mem u x mem' (link.kept u (suc n) i h (omega arith) other)
              (λ there valid inner.
                lookup-Linked n (next_table (m.mem (entry_at (suc n) u x))) x
                  (child_of_leaf tree u n i h (omega arith) valid inner).0)
      ]

  pub no_block-Linked :
      (n u x : ℕ) → tree.level u ≡ some n → no_block n mem' u x ≡ no_block n m.mem u x
  unfolding no_block
  no_block-Linked zero u x h = refl
  no_block-Linked (suc n) u x h =
      let i = x / 2 ^ (9 * suc n + 12) % 512 in
      elim (ℕ_discrete (entry_at (suc n) u x) (t + 8 * j)) [
        | yes e ↦
            no_block-at n u x (table_nonzero tree u (suc n) h) e
            ∙ sym (
                no_block_invalid n m.mem u x
                  (ap (λ (a : ℕ). is_invalid (m.mem a)) e ∙ link.was_invalid))
        | no other ↦
            no_block-suc_congr n m.mem u x mem' (link.kept u (suc n) i h (omega arith) other)
              (λ there valid inner.
                no_block-Linked n (next_table (m.mem (entry_at (suc n) u x))) x
                  (child_of_leaf tree u n i h (omega arith) valid inner).0)
      ]
