-- ===== src/PageTable/Tree/Leaf.antt =====
-- Writing an entry of the last level under kernel/arch/aarch64/mm/page_table.c changes the
-- translation of one page.
use chcore_lab_v.Base.{
  ℕ, zero, suc, ◌+◌, ◌*◌, ◌/◌, ◌%◌, ◌^◌, ◌<◌, ◌≡◌, ◌≢◌, refl, sym, ap, ◌∙◌, inl, inr, ◌⊎◌, some,
  ◌==◌, arith,
}
use chcore_lab_v.Machine.{Machine, store}
use chcore_lab_v.PageTable.Translate.{entry_at, is_invalid, next_table, lookup}
use chcore_lab_v.PageTable.Clear.{no_block}
use chcore_lab_v.PageTable.Congruence.{lookup-zero_congr, lookup-suc_congr, no_block-suc_congr}
use chcore_lab_v.PageTable.Tree.{Tree, part, entries_apart, child_of_leaf, level_unique}

-- The part of the address space below an entry.
pub part-suc : (k x : ℕ) → k < 3 → part k x ≡ part (suc k) x * 512 + x / 2 ^ (9 * suc k + 12) % 512
part-suc zero x h = omega arith
part-suc (suc zero) x h = omega arith
part-suc (suc (suc zero)) x h = omega arith
part-suc (suc (suc (suc k))) x h = omega arith

module _ {root : ℕ} {m : Machine} (tree : Tree root m) (t j w : ℕ) (h : tree.level t ≡ some 0)
    (index : j < 512) where
  same_above :
      (u k i : ℕ)
      → tree.level u ≡ some (suc k)
      → i < 512
      → (store (t + 8 * j) w m).mem (u + 8 * i) ≡ m.mem (u + 8 * i)
  same_above u k i hu iN =
      let ne : u + 8 * i ≢ t + 8 * j = (λ e.
        let same = entries_apart tree u (suc k) i t 0 j hu h iN index e in
        omega
          (arith, level_unique tree t (suc k) 0 (ap (λ x. tree.level x) (sym same.0) ∙ hu) h)) in
      ground arith

  pub store-Tree : Tree root (store (t + 8 * j) w m)
  store-Tree = record {
    own = tree.own;
    level = tree.level;
    position = tree.position;
    valid = tree.valid;
    low = tree.low;
    high = tree.high;
    top = tree.top;
    top_position = tree.top_position;
    shallow = tree.shallow;
    held = tree.held;
    top_tables = λ u i hu iN valid.
        let same = same_above u 2 i hu iN in
        ap (λ (x : ℕ). x / 2 % 2 == 0) same
        ∙ tree.top_tables u i hu iN (ap is_invalid (sym same) ∙ valid);
    child = λ u k i hu iN valid bit.
        let same = same_above u k i hu iN in
        let c =
          tree.child u k i hu iN (ap is_invalid (sym same) ∙ valid)
            (ap (λ (x : ℕ). x / 2 % 2 == 0) (sym same) ∙ bit) in
        (
          ap (λ (x : ℕ). tree.level (next_table x)) same ∙ c.0,
          ap (λ (x : ℕ). tree.position (next_table x)) same ∙ c.1,
        );
  }

  pub no_block-store :
      (k u x : ℕ)
      → tree.level u ≡ some k
      → no_block k (store (t + 8 * j) w m).mem u x ≡ no_block k m.mem u x
  unfolding no_block
  no_block-store zero u x hu = refl
  no_block-store (suc k) u x hu =
      let i = x / 2 ^ (9 * suc k + 12) % 512 in
      no_block-suc_congr k m.mem u x (store (t + 8 * j) w m).mem (same_above u k i hu (omega arith))
        (λ there valid inner.
          no_block-store k (next_table (m.mem (entry_at (suc k) u x))) x
            (child_of_leaf tree u k i hu (omega arith) valid inner).0)

  same_leaf :
      (u x : ℕ)
      → tree.level u ≡ some 0
      → tree.position u ≡ part 0 x
      → (part 0 x ≢ tree.position t) ⊎ (x / 4096 % 512 ≢ j)
      → (store (t + 8 * j) w m).mem (entry_at 0 u x) ≡ m.mem (entry_at 0 u x)
  same_leaf u x hu place other =
      let i = x / 4096 % 512 in
      let ne : u + 8 * i ≢ t + 8 * j = (λ e.
        let same = entries_apart tree u 0 i t 0 j hu h (omega arith) index e in
        elim other [
          | inl away ↦ absurd (away (sym place ∙ ap (λ x. tree.position x) same.0))
          | inr away ↦ absurd (away same.1)
        ]) in
      ground arith

  pub lookup-store :
      (k u x : ℕ)
      → tree.level u ≡ some k
      → tree.position u ≡ part k x
      → (part 0 x ≢ tree.position t) ⊎ (x / 4096 % 512 ≢ j)
      → lookup k (store (t + 8 * j) w m).mem u x ≡ lookup k m.mem u x
  lookup-store zero u x hu place other =
      lookup-zero_congr m.mem (store (t + 8 * j) w m).mem u x (same_leaf u x hu place other)
  lookup-store (suc k) u x hu place other =
      let i = x / 2 ^ (9 * suc k + 12) % 512 in
      lookup-suc_congr k m.mem u x (store (t + 8 * j) w m).mem (same_above u k i hu (omega arith))
        (λ there valid inner.
          let c = child_of_leaf tree u k i hu (omega arith) valid inner in
          lookup-store k (next_table (m.mem (entry_at (suc k) u x))) x c.0
            (c.1
              ∙ ap (λ (p : ℕ). p * 512 + i) place
              ∙ sym (part-suc k x (omega (arith, tree.shallow u (suc k) hu))))
            other)
