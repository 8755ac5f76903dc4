-- ===== src/PageTable/Tree/Chunk.antt =====
-- What the loop body of map_range_in_pgtbl_huge of kernel/arch/aarch64/mm/page_table.c maps in a
-- tree of tables.
use chcore_lab_v.Base.{
  ℕ, zero, suc, ◌+◌, ◌-◌, ◌*◌, ◌/◌, ◌%◌, ◌^◌, ◌≤◌, ◌<◌, ◌≡◌, ◌≢◌, refl, ap, ◌∙◌, inl, inr, ◌⊎◌,
  true, false, some, Result, ok, ◌>>=◌, Bool-cases, if◌then◌else◌, arith, dec_lt, ℕ_discrete,
}
use chcore_lab_v.Buddy.Weight.{free_pages}
use chcore_lab_v.Machine.{Machine, store}
use chcore_lab_v.PageTable.{l1_block_pte, l2_block_pte}
use chcore_lab_v.PageTable.Map.{map_huge, block_fits}
use chcore_lab_v.PageTable.Translate.{entry_at, lookup}
use chcore_lab_v.PageTable.Clear.{no_block}
use chcore_lab_v.PageTable.Tree.{Tree, part}
use chcore_lab_v.PageTable.Tree.Walk.{d1, d2, d3, p1, p1', p2, nonzero}
use chcore_lab_v.PageTable.Tree.Block.{
  lookup-store_other, no_block-store_other, store_block-Tree, lookup-block, Passed-store,
  lookup-Passed,
}
use chcore_lab_v.PageTable.Tree.Huge.{
  fits_facts, l1_block-read, l2_block-read, huge_1g, huge_2m, huge_page,
}
use chcore_lab_v.PageTable.Tree.Range.{page_of, map_page-PageMapped, part_top}

-- The size of the chunk that the loop body maps, and the rounds of the loop.
unfoldable pub chunk_size : ℕ → ℕ → ℕ → ℕ
chunk_size va pa va_end =
    if block_fits (2 ^ 30) va pa va_end
    then 2 ^ 30
    else (if block_fits (2 ^ 21) va pa va_end then 2 ^ 21 else 4096)

unfoldable pub rounds : ℕ → ℕ → ℕ → ℕ → ℕ
rounds zero va pa va_end = 0
rounds (suc fuel) va pa va_end = elim (dec_lt va va_end) [
  | no done ↦ 0
  | yes more ↦
      let size = chunk_size va pa va_end in suc (rounds fuel (va + size) (pa + size) va_end)
]

-- What the loop body leaves behind: a chunk of whole pages mapped, inside the range unless it is
-- a single page.
pub record ChunkMapped (root : ℕ) (m : Machine) (va pa va_end : ℕ) (r : Result (Machine × ℕ))
    : Type 0 where
  pub after : Machine
  pub size : ℕ
  pub returns : r ≡ ok (after, size)
  pub larger : Tree root after
  pub size_lem : size ≡ chunk_size va pa va_end
  pub some_page : 4096 ≤ size
  pub whole : size % 4096 ≡ 0
  pub inside : (size ≡ 4096) ⊎ (va + size ≤ va_end)
  pub here :
      (x : ℕ)
      → va ≤ x
      → x < va + size
      → (entry : ℕ) × (lookup 3 after.mem root x ≡ some (pa + (x - va), entry))
  pub others :
      (x : ℕ)
      → ((y : ℕ) → va ≤ y → y < va + size → page_of x ≢ page_of y)
      → (lookup 3 after.mem root x ≡ lookup 3 m.mem root x)
        × (no_block 3 after.mem root x ≡ no_block 3 m.mem root x)
  pub budget : free_pages m.pool ≤ free_pages after.pool + 3

differ_1g :
    (x va p : ℕ)
    → va % 2 ^ 30 ≡ 0
    → p ≡ part 2 va
    → ((y : ℕ) → va ≤ y → y < va + 2 ^ 30 → page_of x ≢ page_of y)
    → (part 2 x ≢ p) ⊎ (x / 2 ^ 30 % 512 ≢ va / 2 ^ 30 % 512)
differ_1g x va p al at away = elim (ℕ_discrete (x / 2 ^ 30 % 512) (va / 2 ^ 30 % 512)) [
  | yes same ↦ inl (λ e. away (va + x % 2 ^ 30) (omega arith) (omega arith) (omega arith))
  | no other ↦ inr other
]

differ_2m :
    (x va p : ℕ)
    → va % 2 ^ 21 ≡ 0
    → p ≡ part 1 va
    → ((y : ℕ) → va ≤ y → y < va + 2 ^ 21 → page_of x ≢ page_of y)
    → (part 1 x ≢ p) ⊎ (x / 2 ^ 21 % 512 ≢ va / 2 ^ 21 % 512)
differ_2m x va p al at away = elim (ℕ_discrete (x / 2 ^ 21 % 512) (va / 2 ^ 21 % 512)) [
  | yes same ↦ inl (λ e. away (va + x % 2 ^ 21) (omega arith) (omega arith) (omega arith))
  | no other ↦ inr other
]

module _ (va pa va_end : ℕ) where
  size_1g : block_fits (2 ^ 30) va pa va_end ≡ true → 2 ^ 30 ≡ chunk_size va pa va_end
  unfolding chunk_size
  size_1g fit = rw fit refl

  size_2m :
      block_fits (2 ^ 30) va pa va_end ≡ false
      → block_fits (2 ^ 21) va pa va_end ≡ true
      → 2 ^ 21 ≡ chunk_size va pa va_end
  unfolding chunk_size
  size_2m no_fit fit = rw (no_fit, fit) refl

  size_page :
      block_fits (2 ^ 30) va pa va_end ≡ false
      → block_fits (2 ^ 21) va pa va_end ≡ false
      → 4096 ≡ chunk_size va pa va_end
  unfolding chunk_size
  size_page no_fit no_fit' = rw (no_fit, no_fit') refl

module _ {root : ℕ} {m : Machine} (tree : Tree root m) (va pa va_end flags : ℕ)
    (pages : no_block 3 m.mem root va ≡ true) (stock : 3 ≤ free_pages m.pool) (low : pa < 2 ^ 48)
    (more : va < va_end) (high : va_end < 2 ^ 64) where
  chunk_1g :
      block_fits (2 ^ 30) va pa va_end ≡ true
      → ChunkMapped root m va pa va_end (map_huge m root va pa va_end flags)
  chunk_1g fit =
      let d = d1 tree va pages stock in
      let p = p1 tree va pages stock in
      let facts = fits_facts 30 va pa va_end more high fit in
      let word = l1_block_pte pa flags in
      let read = l1_block-read pa flags low in
      let j = va / 2 ^ 30 % 512 in
      let jN : j < 512 = omega arith in
      let lower : 2 < 3 = omega arith in
      let place : d.larger.position d.next ≡ part 2 va =
        omega (arith, d.position_next, tree.top_position) in
      record {
        after = store (entry_at 2 d.next va) word d.after;
        size = 2 ^ 30;
        size_lem = size_1g va pa va_end fit;
        returns = huge_1g m d.after root d.next _ va pa va_end flags d.returns fit;
        larger = store_block-Tree d.larger d.next 1 j word d.level_next jN lower read.1;
        some_page = omega arith;
        whole = refl;
        inside = inr facts.2;
        here = λ x lo hi. (
          entry_at 2 d.next va,
          lookup-Passed x
                (Passed-store d.larger d.next 1 j word d.level_next jN lower read.1 (omega arith) p)
                (omega (arith, facts.0))
              ∙ lookup-block d.larger d.next 1 j word d.level_next jN lower read.1 x read.0
                  (omega (arith, facts.0))
              ∙ ap (λ (f : ℕ). some (f * 2 ^ 30 + x % 2 ^ 30, entry_at 2 d.next va)) read.2
              ∙ ap (λ (n : ℕ). some (n, entry_at 2 d.next va)) (omega (arith, facts)),
        );
        others = λ x away.
            let other = differ_1g x va (d.larger.position d.next) facts.0 place away in
            (
              lookup-store_other d.larger d.next 1 j word d.level_next jN 3 root x d.larger.top
                    (d.larger.top_position ∙ part_top x) other
                  ∙ d.grows.lookups x,
              no_block-store_other d.larger d.next 1 j word d.level_next jN 3 root x d.larger.top
                    (d.larger.top_position ∙ part_top x) other
                  ∙ d.grows.blocks x,
            );
        budget = omega (arith, d.grows.budget);
      }

  module _ (no_fit : block_fits (2 ^ 30) va pa va_end ≡ false) where
    chunk_2m :
        block_fits (2 ^ 21) va pa va_end ≡ true
        → ChunkMapped root m va pa va_end (map_huge m root va pa va_end flags)
    chunk_2m fit =
        let c = d1 tree va pages stock in
        let d = d2 tree va pages stock in
        let p = p1' tree va pages stock in
        let q = p2 tree va pages stock in
        let facts = fits_facts 21 va pa va_end more high fit in
        let word = l2_block_pte pa flags in
        let read = l2_block-read pa flags low in
        let j = va / 2 ^ 21 % 512 in
        let jN : j < 512 = omega arith in
        let lower : 1 < 3 = omega arith in
        let place : d.larger.position d.next ≡ part 1 va =
          omega (arith, d.position_next, c.position_next, tree.top_position) in
        record {
          after = store (entry_at 1 d.next va) word d.after;
          size = 2 ^ 21;
          size_lem = size_2m va pa va_end no_fit fit;
          returns =
              huge_2m m c.after root c.next _ va pa va_end flags c.returns d.after d.next _
                d.returns no_fit fit;
          larger = store_block-Tree d.larger d.next 0 j word d.level_next jN lower read.1;
          some_page = omega arith;
          whole = refl;
          inside = inr facts.2;
          here = λ x lo hi. (
            entry_at 1 d.next va,
            lookup-Passed x
                  (Passed-store d.larger d.next 0 j word d.level_next jN lower read.1 (omega arith)
                    p)
                  (omega (arith, facts.0))
                ∙ lookup-Passed x
                    (Passed-store d.larger d.next 0 j word d.level_next jN lower read.1
                      (omega arith) q)
                    (omega (arith, facts.0))
                ∙ lookup-block d.larger d.next 0 j word d.level_next jN lower read.1 x read.0
                    (omega (arith, facts.0))
                ∙ ap (λ (f : ℕ). some (f * 2 ^ 21 + x % 2 ^ 21, entry_at 1 d.next va)) read.2
                ∙ ap (λ (n : ℕ). some (n, entry_at 1 d.next va)) (omega (arith, facts)),
          );
          others = λ x away.
              let other = differ_2m x va (d.larger.position d.next) facts.0 place away in
              (
                lookup-store_other d.larger d.next 0 j word d.level_next jN 3 root x d.larger.top
                      (d.larger.top_position ∙ part_top x) other
                    ∙ d.grows.lookups x
                    ∙ c.grows.lookups x,
                no_block-store_other d.larger d.next 0 j word d.level_next jN 3 root x d.larger.top
                      (d.larger.top_position ∙ part_top x) other
                    ∙ d.grows.blocks x
                    ∙ c.grows.blocks x,
              );
          budget = omega (arith, d.grows.budget, c.grows.budget);
        }

    chunk_page :
        va % 4096 ≡ 0
        → pa % 4096 ≡ 0
        → block_fits (2 ^ 21) va pa va_end ≡ false
        → ChunkMapped root m va pa va_end (map_huge m root va pa va_end flags)
    chunk_page al al' no_fit' =
        let a = d1 tree va pages stock in
        let b = d2 tree va pages stock in
        let c = d3 tree va pages stock in
        let s = map_page-PageMapped tree va pa flags pages stock low in
        record {
          after = s.after;
          size = 4096;
          size_lem = size_page va pa va_end no_fit no_fit';
          returns =
              huge_page m a.after root a.next _ va pa va_end flags a.returns b.after b.next _
                b.returns no_fit c.after c.next _ no_fit' c.returns (nonzero tree va pages stock)
              ∙ ap (λ r. r >>= λ m4. ok (m4, 4096)) s.returns;
          larger = s.larger;
          some_page = omega arith;
          whole = refl;
          inside = inl refl;
          here = λ x lo hi.
              (s.entry, s.here x (omega arith) ∙ ap (λ (n : ℕ). some (n, s.entry)) (omega arith));
          others = λ x away. (s.others x (away va (omega arith) (omega arith)), s.blocks x);
          budget = s.budget;
        }

  -- Where the walk meets no block and three pages are free, the loop body maps a chunk.
  pub map_huge-ChunkMapped :
      va % 4096 ≡ 0
      → pa % 4096 ≡ 0
      → ChunkMapped root m va pa va_end (map_huge m root va pa va_end flags)
  map_huge-ChunkMapped al al' = elim (Bool-cases (block_fits (2 ^ 30) va pa va_end)) [
    | inl fit ↦ chunk_1g fit
    | inr no_fit ↦ elim (Bool-cases (block_fits (2 ^ 21) va pa va_end)) [
      | inl fit ↦ chunk_2m no_fit fit
      | inr no_fit' ↦ chunk_page no_fit al al' no_fit'
    ]
  ]
