-- ===== src/PageTable/Tree/Tests.antt =====
-- An empty page table over a pool of a hundred pages, and the theorems at it.
use chcore_lab_v.Base.{◌-◌, ℕ, ◌+◌, ◌*◌, ◌/◌, ◌≤◌, ◌≡◌, refl, ◌∙◌, false, true, arith, dec_lt}
use chcore_lab_v.Buddy.{Page, init_buddy, buddy_get_pages}
use chcore_lab_v.Buddy.Init.{Ready, init_buddy-Ready}
use chcore_lab_v.Buddy.Invariant.{frame}
use chcore_lab_v.Buddy.Weight.{free_pages}
use chcore_lab_v.Buddy.Alloc.Find.{Granted, buddy_get_pages-Granted}
use chcore_lab_v.Machine.{Machine}
use chcore_lab_v.PageTable.{kbase}
use chcore_lab_v.PageTable.Map.{map_range_in_pgtbl, map_range_in_pgtbl_huge}
use chcore_lab_v.PageTable.Unmap.{unmap_range_in_pgtbl}
use chcore_lab_v.PageTable.Clear.{no_block}
use chcore_lab_v.PageTable.Congruence.{no_block-empty}
use chcore_lab_v.PageTable.Tree.{Tree}
use chcore_lab_v.PageTable.Tree.Root.{empty-Tree}
use chcore_lab_v.PageTable.Tree.Range.{RangeMapped, map_range_in_pgtbl-RangeMapped}
use chcore_lab_v.PageTable.Tree.Chunk.{rounds, chunk_size}
use chcore_lab_v.PageTable.Tree.Blocks.{HugeMapped, map_range_in_pgtbl_huge-HugeMapped}
use chcore_lab_v.PageTable.Tree.Unmap.{RangeUnmapped, unmap_range_in_pgtbl-RangeUnmapped}
use chcore_lab_v.PageTable.Tree.Edits.{Edits, Edits-Tree}

abbrev no_page : Page
no_page = record { allocated = false; order = 0; slab = 0; in_pool = false }

ready : Ready (kbase + 0x83000) 100 (init_buddy (λ _. no_page) (kbase + 0x83000) 100)
ready =
    init_buddy-Ready (λ _. no_page) (kbase + 0x83000) 100 (omega arith) (omega arith) (omega arith)

granted : Granted ready.after ready.owner 0 (buddy_get_pages ready.after 0)
granted =
    let at = ready.valid.tiling.own_in 0 (omega (arith, ready.num)) in
    buddy_get_pages-Granted 0 (ready.owner 0) ready.valid (omega (arith, ready.num)) at.2
      (ready.all_free 0 (omega arith)) (omega arith)

machine : Machine
machine = record { pool = granted.after; mem = λ _. 0; slabs = λ _. 0 }

root : ℕ
root = (frame granted.after + granted.page) * 4096

tree : Tree root machine
unfolding root machine
tree =
    empty-Tree machine granted.page granted.valid (omega (arith, granted.start, ready.start))
      (omega (arith, granted.start, ready.start, granted.num, ready.num))
      (omega (arith, granted.inside, granted.num)) granted.head granted.taken (λ i iN. refl)

stock : 99 ≤ free_pages machine.pool
unfolding machine
stock = omega (arith, granted.balance, ready.counted)

pages : (x : ℕ) → no_block 3 machine.mem root x ≡ true
unfolding machine
pages x = no_block-empty 3 (λ _. 0) root x refl

map_range_in_pgtbl-RangeMapped_example :
    RangeMapped root machine 0x400000 0x80000
      (0x400000 + 0x3000)
      (map_range_in_pgtbl machine root 0x400000 0x80000 0x3000 2)
map_range_in_pgtbl-RangeMapped_example =
    map_range_in_pgtbl-RangeMapped tree 0x400000 0x80000 0x3000 2 refl refl refl (omega arith)
      (omega arith) (omega arith) (omega (arith, stock)) (λ x lo hi. pages x)

mapped :
    RangeMapped root machine 0x400000 0x80000
      (0x400000 + 0x3000)
      (map_range_in_pgtbl machine root 0x400000 0x80000 0x3000 2)
mapped =
    map_range_in_pgtbl-RangeMapped tree 0x400000 0x80000 0x3000 2 refl refl refl (omega arith)
      (omega arith) (omega arith) (omega (arith, stock)) (λ x lo hi. pages x)

unmap_range_in_pgtbl-RangeUnmapped_example :
    RangeUnmapped root mapped.after 0x401000
      (0x401000 + 0x1000)
      (unmap_range_in_pgtbl mapped.after root 0x401000 0x1000)
unmap_range_in_pgtbl-RangeUnmapped_example =
    unmap_range_in_pgtbl-RangeUnmapped mapped.larger 0x401000 0x1000 refl refl (omega arith)
      (omega arith)
      (λ x lo hi.
        let (e, found) = mapped.here x (omega arith) (omega arith) in
        ((0x80000 + (x - 0x400000), e), found))
      (λ x lo hi. mapped.blocks x ∙ pages x)

-- A block of 2M, a block of 1G and a page.
three : rounds (0x40201000 / 4096 + 1) 0x3fe00000 0x3fe00000 (0x3fe00000 + 0x40201000) ≡ 3
unfolding rounds chunk_size dec_lt
three = refl

map_range_in_pgtbl_huge-HugeMapped_example :
    HugeMapped root machine 0x3fe00000 0x3fe00000
      (0x3fe00000 + 0x40201000)
      (map_range_in_pgtbl_huge machine root 0x3fe00000 0x3fe00000 0x40201000 2)
map_range_in_pgtbl_huge-HugeMapped_example =
    map_range_in_pgtbl_huge-HugeMapped tree 0x3fe00000 0x3fe00000 0x40201000 2 refl refl
      (omega arith) (omega arith) (omega (arith, stock, three)) (λ x lo hi. pages x)

edits : Edits root machine mapped.after
edits =
    Edits.map_range 0x400000 0x80000 0x3000 2 Edits.none_yet refl refl (omega arith) (omega arith)
      (omega (arith, stock)) (λ x lo hi. pages x) mapped.returns

Edits-Tree_example : Tree root mapped.after
Edits-Tree_example = Edits-Tree tree edits
