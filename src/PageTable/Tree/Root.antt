-- ===== src/PageTable/Tree/Root.antt =====
-- The tree of an empty page table for kernel/arch/aarch64/mm/page_table.c, and clearing entries.
use chcore_lab_v.Base.{
  ℕ, suc, ◌+◌, ◌*◌, ◌/◌, ◌%◌, ◌≤◌, ◌<◌, ◌≡◌, ◌^◌, sym, ap, ◌∙◌, inl, inr, true, false, none, some,
  ◌==◌, refl, ℕ_discrete, if◌then◌else◌, arith,
}
use chcore_lab_v.Buddy.Invariant.{IsValid, frame}
use chcore_lab_v.Machine.{Machine}
use chcore_lab_v.PageTable.{kbase}
use chcore_lab_v.PageTable.Translate.{is_invalid, next_table}
use chcore_lab_v.PageTable.Clear.{Cleared}
use chcore_lab_v.PageTable.Tree.{Tree}

-- A page of the pool that is allocated and holds zeros is an empty page table.
pub empty-Tree :
    {own : ℕ → ℕ} (m : Machine) (p : ℕ)
    → IsValid m.pool own
    → kbase ≤ m.pool.pool_start_addr
    → m.pool.pool_start_addr + m.pool.pool_phys_page_num * 4096 ≤ kbase + 2 ^ 39
    → p < m.pool.pool_phys_page_num
    → own p ≡ p
    → (m.pool.pages p).allocated ≡ true
    → ((i : ℕ) → i < 512 → m.mem ((frame m.pool + p) * 4096 + 8 * i) ≡ 0)
    → Tree ((frame m.pool + p) * 4096) m
empty-Tree {own} m p v low high pN head taken zeros = record {
  own = own;
  level = λ t. if t == root then some 3 else none;
  position = λ t. 0;
  valid = v;
  low = low;
  high = high;
  top = ground arith;
  top_position = refl;
  shallow = λ t k h. ground arith;
  held = λ t k h. (p, ground arith, pN, head, taken);
  top_tables = λ t j h jN valid. absurd (no_entry t 3 j h jN valid);
  child = λ t k j h jN valid bit. absurd (no_entry t (suc k) j h jN valid);
}
  where
    root : ℕ
    root = (frame m.pool + p) * 4096

    no_entry :
        (t k j : ℕ)
        → (if t == root then some 3 else none) ≡ some k
        → j < 512
        → ¬ (is_invalid (m.mem (t + 8 * j)) ≡ false)
    no_entry t k j h jN valid = elim (ℕ_discrete t root) [
      | yes e ↦
          let zero_there = ap (λ (a : ℕ). m.mem (a + 8 * j)) e ∙ zeros j jN in
          absurd (ground (arith, zero_there, valid))
      | no ne ↦ absurd (ground (arith, ne, h))
    ]

-- Clearing entries keeps the tree.
pub Cleared-Tree :
    {root : ℕ} {m : Machine} (mem' : ℕ → ℕ)
    → Tree root m
    → Cleared m.mem mem'
    → Tree root (record m { mem = mem' })
unfolding Cleared
Cleared-Tree {root} {m} mem' tree cleared = record {
  own = tree.own;
  level = tree.level;
  position = tree.position;
  valid = tree.valid;
  low = tree.low;
  high = tree.high;
  top = tree.top;
  top_position = tree.top_position;
  shallow = tree.shallow;
  held = tree.held;
  top_tables = λ t j h jN valid.
      let same = kept (t + 8 * j) valid in
      ap (λ (w : ℕ). w / 2 % 2 == 0) same
      ∙ tree.top_tables t j h jN (ap is_invalid (sym same) ∙ valid);
  child = λ t k j h jN valid bit.
      let same = kept (t + 8 * j) valid in
      let c =
        tree.child t k j h jN (ap is_invalid (sym same) ∙ valid)
          (ap (λ (w : ℕ). w / 2 % 2 == 0) (sym same) ∙ bit) in
      (
        ap (λ (w : ℕ). tree.level (next_table w)) same ∙ c.0,
        ap (λ (w : ℕ). tree.position (next_table w)) same ∙ c.1,
      );
}
  where
    kept : (a : ℕ) → is_invalid (mem' a) ≡ false → mem' a ≡ m.mem a
    kept a valid = elim (cleared a) [
      | inl same ↦ same
      | inr zeroed ↦ absurd (ground (arith, zeroed, valid))
    ]
