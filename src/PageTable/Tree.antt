-- ===== src/PageTable/Tree.antt =====
-- The page tables under a root as a tree, for kernel/arch/aarch64/mm/page_table.c: each table is a
-- page of its own that the buddy allocator has granted, on one level and for one part of the
-- address space.
pub mod Link
pub mod Leaf
pub mod Step
pub mod Down
pub mod Walk
pub mod Block
pub mod Range
pub mod Huge
pub mod Chunk
pub mod Blocks
pub mod Root
pub mod Unmap
pub mod Edits
mod Tests
use chcore_lab_v.Base.{
  ℕ, zero, suc, ◌+◌, ◌-◌, ◌*◌, ◌/◌, ◌%◌, ◌^◌, ◌≤◌, ◌<◌, ◌≡◌, ◌≢◌, ap, ◌∙◌, true, false, Option,
  some, ◌==◌, arith, ℕ_discrete,
}
use chcore_lab_v.Buddy.Invariant.{IsValid, frame}
use chcore_lab_v.Machine.{Machine}
use chcore_lab_v.PageTable.{kbase}
use chcore_lab_v.PageTable.Translate.{is_invalid, is_leaf, next_table}

-- The part of the address space that a table with `k` levels below it translates.
abbrev pub part : ℕ → ℕ → ℕ
part k va = va / 2 ^ (9 * k + 21) % 2 ^ (9 * (3 - k))

pub record Tree (root : ℕ) (m : Machine) : Type 0 where
  pub own : ℕ → ℕ
  -- The levels below each table; nothing where there is no table.
  pub level : ℕ → Option ℕ
  pub position : ℕ → ℕ
  pub valid : IsValid m.pool own
  pub low : kbase ≤ m.pool.pool_start_addr
  pub high : m.pool.pool_start_addr + m.pool.pool_phys_page_num * 4096 ≤ kbase + 2 ^ 39
  pub top : level root ≡ some 3
  pub top_position : position root ≡ 0
  pub shallow : (t k : ℕ) → level t ≡ some k → k < 4
  -- A table is an allocated chunk.
  pub held :
      (t k : ℕ)
      → level t ≡ some k
      → (p : ℕ) × (t ≡ (frame m.pool + p) * 4096)
        × (p < m.pool.pool_phys_page_num)
        × (own p ≡ p)
        × ((m.pool.pages p).allocated ≡ true)
  -- An entry of the first level leads to a table.
  pub top_tables :
      (t j : ℕ)
      → level t ≡ some 3
      → j < 512
      → is_invalid (m.mem (t + 8 * j)) ≡ false
      → (m.mem (t + 8 * j) / 2 % 2 == 0) ≡ false
  pub child :
      (t k j : ℕ)
      → level t ≡ some (suc k)
      → j < 512
      → is_invalid (m.mem (t + 8 * j)) ≡ false
      → (m.mem (t + 8 * j) / 2 % 2 == 0) ≡ false
      → (level (next_table (m.mem (t + 8 * j))) ≡ some k)
        × (position (next_table (m.mem (t + 8 * j))) ≡ position t * 512 + j)

module _ {root : ℕ} {m : Machine} (tree : Tree root m) where
  pub table_nonzero : (t k : ℕ) → tree.level t ≡ some k → t ≢ 0
  table_nonzero t k h =
      let at = tree.held t k h in omega (arith, at.1, tree.low, tree.valid.placed.start_aligned)

  -- The entries of different tables are different words.
  pub entries_apart :
      (t k i u l j : ℕ)
      → tree.level t ≡ some k
      → tree.level u ≡ some l
      → i < 512
      → j < 512
      → t + 8 * i ≡ u + 8 * j
      → (t ≡ u) × (i ≡ j)
  entries_apart t k i u l j ht hu iN jN e =
      let x = tree.held t k ht in
      let y = tree.held u l hu in let same : t ≡ u = omega (arith, x.1, y.1) in (same, omega arith)

  -- A valid entry that is not a block has the bit of a table.
  pub bit_of_leaf :
      (t k j : ℕ)
      → tree.level t ≡ some (suc k)
      → j < 512
      → is_invalid (m.mem (t + 8 * j)) ≡ false
      → is_leaf (suc k) (m.mem (t + 8 * j)) ≡ false
      → (m.mem (t + 8 * j) / 2 % 2 == 0) ≡ false
  bit_of_leaf t k j h jN valid inner = elim (ℕ_discrete k 2) [
    | yes top ↦ tree.top_tables t j (h ∙ ap (λ (n : ℕ). some (suc n)) top) jN valid
    | no other ↦ ground (arith, tree.shallow t (suc k) h, inner)
  ]

  pub child_of_leaf :
      (t k j : ℕ)
      → tree.level t ≡ some (suc k)
      → j < 512
      → is_invalid (m.mem (t + 8 * j)) ≡ false
      → is_leaf (suc k) (m.mem (t + 8 * j)) ≡ false
      → (tree.level (next_table (m.mem (t + 8 * j))) ≡ some k)
        × (tree.position (next_table (m.mem (t + 8 * j))) ≡ tree.position t * 512 + j)
  child_of_leaf t k j h jN valid inner =
      tree.child t k j h jN valid (bit_of_leaf t k j h jN valid inner)

  pub level_unique : (t k l : ℕ) → tree.level t ≡ some k → tree.level t ≡ some l → k ≡ l
  level_unique t k l h h' = ground (arith, h, h')
