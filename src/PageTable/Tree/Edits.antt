-- ===== src/PageTable/Tree/Edits.antt =====
-- Sequences of calls of map_range_in_pgtbl and unmap_range_in_pgtbl of
-- kernel/arch/aarch64/mm/page_table.c on one page table.
use chcore_lab_v.Base.{ap, ℕ, ◌+◌, ◌*◌, ◌/◌, ◌%◌, ◌≤◌, ◌<◌, ◌≡◌, ◌^◌, sym, subst, ◌∙◌, true, ok}
use chcore_lab_v.Buddy.Weight.{free_pages}
use chcore_lab_v.Machine.{Machine}
use chcore_lab_v.PageTable.Map.{map_range_in_pgtbl, map_range_in_pgtbl_huge}
use chcore_lab_v.PageTable.Unmap.{unmap_range_in_pgtbl}
use chcore_lab_v.PageTable.Clear.{no_block}
use chcore_lab_v.PageTable.Tree.{Tree}
use chcore_lab_v.PageTable.Tree.Chunk.{rounds}
use chcore_lab_v.PageTable.Tree.Blocks.{map_range_in_pgtbl_huge-HugeMapped}
use chcore_lab_v.PageTable.Tree.Range.{map_range-RangeMapped}
use chcore_lab_v.PageTable.Tree.Unmap.{unmap_range-RangeUnmapped}

-- Calls that change the tables under a root, where their conditions hold.
pub data Edits (root : ℕ) (m : Machine) : Machine → Type 0 where
  none_yet : Edits root m m
  map_range :
      {m1 m2 : Machine} (va pa len flags : ℕ)
      → Edits root m m1
      → va % 4096 ≡ 0
      → pa % 4096 ≡ 0
      → va + len + 4096 ≤ 2 ^ 64
      → pa + len ≤ 2 ^ 48
      → 3 * (len / 4096 + 1) ≤ free_pages m1.pool
      → ((x : ℕ) → va ≤ x → x < va + len → no_block 3 m1.mem root x ≡ true)
      → map_range_in_pgtbl m1 root va pa len flags ≡ ok (m2, 0)
      → Edits root m m2
  map_range_huge :
      {m1 m2 : Machine} (va pa len flags : ℕ)
      → Edits root m m1
      → va % 4096 ≡ 0
      → pa % 4096 ≡ 0
      → va + len + 4096 ≤ 2 ^ 64
      → pa + len ≤ 2 ^ 48
      → 3 * rounds (len / 4096 + 1) va pa (va + len) ≤ free_pages m1.pool
      → ((x : ℕ) → va ≤ x → x < va + len → no_block 3 m1.mem root x ≡ true)
      → map_range_in_pgtbl_huge m1 root va pa len flags ≡ ok (m2, 0)
      → Edits root m m2
  unmap_range :
      {m1 m2 : Machine} (va len : ℕ)
      → Edits root m m1
      → va % 4096 ≡ 0
      → va + len + 4096 ≤ 2 ^ 64
      → ((x : ℕ) → va ≤ x → x < va + len → no_block 3 m1.mem root x ≡ true)
      → unmap_range_in_pgtbl m1 root va len ≡ ok (m2, 0)
      → Edits root m m2

same_value : {x y : Machine × ℕ} → ok x ≡ ok y → x.0 ≡ y.0
same_value {x} {y} e = let same : x ≡ y = cc in ap (λ (r : Machine × ℕ). r.0) same

-- Where the tables under a root are a tree, they are a tree after any sequence of calls of
-- map_range_in_pgtbl, map_range_in_pgtbl_huge and unmap_range_in_pgtbl that meet no block, with
-- aligned addresses, ranges that end in time and enough free pages: each table is an allocated
-- page of a valid pool, on one level, for one part of the address space, and every entry that
-- leads to a table leads to the one for its part.
pub Edits-Tree : {root : ℕ} {m m' : Machine} → Tree root m → Edits root m m' → Tree root m'
Edits-Tree tree none_yet = tree
Edits-Tree {root} tree (map_range va pa len flags before al al' high low stock pages run) =
    let r =
      map_range-RangeMapped (Edits-Tree tree before) va pa len flags al al' high low stock pages in
    subst (λ x. Tree root x) (same_value (sym r.returns ∙ run)) r.larger
Edits-Tree {root} tree (map_range_huge va pa len flags before al al' high low stock pages run) =
    let r =
      map_range_in_pgtbl_huge-HugeMapped (Edits-Tree tree before) va pa len flags al al' high low
        stock pages in
    subst (λ x. Tree root x) (same_value (sym r.returns ∙ run)) r.larger
Edits-Tree {root} tree (unmap_range {m1} va len before al high pages run) =
    let u = unmap_range-RangeUnmapped (Edits-Tree tree before) va len al high pages in
    subst (λ x. Tree root x) (same_value (sym u.returns ∙ run)) u.larger
