-- ===== src/PageTable/Tree/Block.antt =====
-- Writing a block entry under kernel/arch/aarch64/mm/page_table.c changes the translation of the
-- addresses of the block.
use chcore_lab_v.Base.{
  ℕ, zero, suc, ◌+◌, ◌*◌, ◌/◌, ◌%◌, ◌^◌, ◌<◌, ◌≡◌, ◌≢◌, refl, sym, ap, ◌∙◌, inl, inr, ◌⊎◌, true,
  false, some, ◌==◌, ◌||◌, arith, ==-false_of_ne, ℕ_discrete,
}
use chcore_lab_v.Machine.{Machine, store}
use chcore_lab_v.PageTable.Translate.{entry_at, is_invalid, is_leaf, next_table, leaf_at, lookup}
use chcore_lab_v.PageTable.Clear.{no_block, lookup_leaf, lookup_table}
use chcore_lab_v.PageTable.Congruence.{lookup-zero_congr, lookup-suc_congr, no_block-suc_congr}
use chcore_lab_v.PageTable.Tree.{
  Tree, part, entries_apart, child_of_leaf, level_unique, table_nonzero,
}
use chcore_lab_v.PageTable.Tree.Leaf.{part-suc}
use chcore_lab_v.PageTable.Tree.Walk.{Passed}

guard_of : (t w : ℕ) → t ≢ 0 → is_invalid w ≡ false → (t == 0 || is_invalid w) ≡ false
guard_of t w there valid = rw (==-false_of_ne t 0 there) valid

module _ {root : ℕ} {m : Machine} (tree : Tree root m) (t l j w : ℕ)
    (h : tree.level t ≡ some (suc l)) (index : j < 512) where
  -- An entry that is not the written one.
  store_ne : (a : ℕ) → a ≢ t + 8 * j → (store (t + 8 * j) w m).mem a ≡ m.mem a
  store_ne a ne = ground arith

  store_at : (store (t + 8 * j) w m).mem (t + 8 * j) ≡ w
  store_at = ground arith

  other_level :
      (u k i : ℕ)
      → tree.level u ≡ some k
      → k ≢ suc l
      → i < 512
      → (store (t + 8 * j) w m).mem (u + 8 * i) ≡ m.mem (u + 8 * i)
  other_level u k i hu ne iN = store_ne (u + 8 * i) (λ e.
      let same = entries_apart tree u k i t (suc l) j hu h iN index e in
      ne (level_unique tree t k (suc l) (ap (λ x. tree.level x) (sym same.0) ∙ hu) h))

  other_place :
      (u k x : ℕ)
      → tree.level u ≡ some k
      → tree.position u ≡ part k x
      → (part (suc l) x ≢ tree.position t) ⊎ (x / 2 ^ (9 * suc l + 12) % 512 ≢ j)
      → entry_at k u x ≢ t + 8 * j
  other_place u k x hu place other e =
      let same =
        entries_apart tree u k (x / 2 ^ (9 * k + 12) % 512) t (suc l) j hu h (omega arith) index
          e in
      let levels : k ≡ suc l =
        level_unique tree t k (suc l) (ap (λ x. tree.level x) (sym same.0) ∙ hu) h in
      elim other [
        | inl away ↦
            away
              (ap (λ (n : ℕ). part n x) (sym levels) ∙ sym place ∙ ap (λ x. tree.position x) same.0)
        | inr away ↦ away (ap (λ (n : ℕ). x / 2 ^ (9 * n + 12) % 512) (sym levels) ∙ same.1)
      ]

  pub lookup-store_other :
      (k u x : ℕ)
      → tree.level u ≡ some k
      → tree.position u ≡ part k x
      → (part (suc l) x ≢ tree.position t) ⊎ (x / 2 ^ (9 * suc l + 12) % 512 ≢ j)
      → lookup k (store (t + 8 * j) w m).mem u x ≡ lookup k m.mem u x
  lookup-store_other zero u x hu place other =
      lookup-zero_congr m.mem (store (t + 8 * j) w m).mem u x
        (store_ne (entry_at 0 u x) (other_place u 0 x hu place other))
  lookup-store_other (suc k) u x hu place other =
      let i = x / 2 ^ (9 * suc k + 12) % 512 in
      lookup-suc_congr k m.mem u x (store (t + 8 * j) w m).mem
        (store_ne (entry_at (suc k) u x) (other_place u (suc k) x hu place other))
        (λ there valid inner.
          let c = child_of_leaf tree u k i hu (omega arith) valid inner in
          lookup-store_other k (next_table (m.mem (entry_at (suc k) u x))) x c.0
            (c.1
              ∙ ap (λ (p : ℕ). p * 512 + i) place
              ∙ sym (part-suc k x (omega (arith, tree.shallow u (suc k) hu))))
            other)

  pub no_block-store_other :
      (k u x : ℕ)
      → tree.level u ≡ some k
      → tree.position u ≡ part k x
      → (part (suc l) x ≢ tree.position t) ⊎ (x / 2 ^ (9 * suc l + 12) % 512 ≢ j)
      → no_block k (store (t + 8 * j) w m).mem u x ≡ no_block k m.mem u x
  unfolding no_block
  no_block-store_other zero u x hu place other = refl
  no_block-store_other (suc k) u x hu place other =
      let i = x / 2 ^ (9 * suc k + 12) % 512 in
      no_block-suc_congr k m.mem u x (store (t + 8 * j) w m).mem
        (store_ne (entry_at (suc k) u x) (other_place u (suc k) x hu place other))
        (λ there valid inner.
          let c = child_of_leaf tree u k i hu (omega arith) valid inner in
          no_block-store_other k (next_table (m.mem (entry_at (suc k) u x))) x c.0
            (c.1
              ∙ ap (λ (p : ℕ). p * 512 + i) place
              ∙ sym (part-suc k x (omega (arith, tree.shallow u (suc k) hu))))
            other)

  module _ (lower : suc l < 3) (block : (w / 2 % 2 == 0) ≡ true) where
    pub store_block-Tree : Tree root (store (t + 8 * j) w m)
    store_block-Tree = record {
      own = tree.own;
      level = tree.level;
      position = tree.position;
      valid = tree.valid;
      low = tree.low;
      high = tree.high;
      top = tree.top;
      top_position = tree.top_position;
      shallow = tree.shallow;
      held = tree.held;
      top_tables = λ u i hu iN valid.
          let same = other_level u 3 i hu (λ e. omega arith) iN in
          ap (λ (x : ℕ). x / 2 % 2 == 0) same
          ∙ tree.top_tables u i hu iN (ap is_invalid (sym same) ∙ valid);
      child = λ u k i hu iN valid bit. elim (ℕ_discrete (u + 8 * i) (t + 8 * j)) [
        | yes e ↦
            let word = ap (λ (a : ℕ). (store (t + 8 * j) w m).mem a) e ∙ store_at in
            absurd (ground (arith, ap (λ (x : ℕ). x / 2 % 2 == 0) word, bit, block))
        | no ne ↦
            let same = store_ne (u + 8 * i) ne in
            let c =
              tree.child u k i hu iN (ap is_invalid (sym same) ∙ valid)
                (ap (λ (x : ℕ). x / 2 % 2 == 0) (sym same) ∙ bit) in
            (
              ap (λ (x : ℕ). tree.level (next_table x)) same ∙ c.0,
              ap (λ (x : ℕ). tree.position (next_table x)) same ∙ c.1,
            )
      ];
    }

    -- The table that holds the block translates its addresses by it.
    pub lookup-block :
        (x : ℕ)
        → is_invalid w ≡ false
        → x / 2 ^ (9 * suc l + 12) % 512 ≡ j
        → lookup (suc l) (store (t + 8 * j) w m).mem t x ≡ some (leaf_at (suc l) w (t + 8 * j) x)
    lookup-block x valid at =
        let mem' = (store (t + 8 * j) w m).mem in
        let e : entry_at (suc l) t x ≡ t + 8 * j = omega arith in
        let word : mem' (entry_at (suc l) t x) ≡ w = ap (λ (a : ℕ). mem' a) e ∙ store_at in
        lookup_leaf l mem' t x
          (guard_of t _ (table_nonzero tree t (suc l) h) (ap is_invalid word ∙ valid))
          (ap (λ (v : ℕ). is_leaf (suc l) v) word ∙ ground (arith, block, lower))
        ∙ ap (λ (v : ℕ). some (leaf_at (suc l) v (entry_at (suc l) t x) x)) word
        ∙ ap (λ (a : ℕ). some (leaf_at (suc l) w a x)) e

    -- A table on the way to it stays on the way.
    pub Passed-store :
        {k u va n : ℕ}
        → suc l < suc k
        → Passed root tree k u va n
        → Passed root store_block-Tree k u va n
    unfolding store_block-Tree
    Passed-store {k} {u} {va} lt p =
        let same =
          other_level u (suc k) (va / 2 ^ (9 * suc k + 12) % 512) p.at_level (λ e. omega arith)
            (omega arith) in
        record {
          at_level = p.at_level;
          valid = ap is_invalid same ∙ p.valid;
          bit = ap (λ (x : ℕ). x / 2 % 2 == 0) same ∙ p.bit;
          leads = ap next_table same ∙ p.leads;
        }

-- A lookup goes on below a table that was passed.
pub lookup-Passed :
    {root : ℕ} {m : Machine} {tree : Tree root m} {k t va n : ℕ} (x : ℕ)
    → Passed root tree k t va n
    → va / 2 ^ (9 * suc k + 12) ≡ x / 2 ^ (9 * suc k + 12)
    → lookup (suc k) m.mem t x ≡ lookup k m.mem n x
lookup-Passed {root} {m} {tree} {k} {t} {va} {n} x p same =
    let e : entry_at (suc k) t va ≡ entry_at (suc k) t x = ap (λ (i : ℕ). t + 8 * (i % 512)) same in
    let valid = ap (λ (a : ℕ). is_invalid (m.mem a)) (sym e) ∙ p.valid in
    let bit = ap (λ (a : ℕ). m.mem a / 2 % 2 == 0) (sym e) ∙ p.bit in
    lookup_table k m.mem t x (guard_of t _ (table_nonzero tree t (suc k) p.at_level) valid)
      (ground (arith, bit))
    ∙ ap (λ (a : ℕ). lookup k m.mem (next_table (m.mem a)) x) (sym e)
    ∙ ap (λ (a : ℕ). lookup k m.mem a x) p.leads
