-- ===== src/PageTable/Tree/Blocks.antt =====
-- map_range_in_pgtbl_huge of kernel/arch/aarch64/mm/page_table.c in a tree of tables, with the
-- tables that it puts in.
use chcore_lab_v.Base.{
  pick_then, pick_else, ℕ, zero, suc, ◌+◌, ◌-◌, ◌*◌, ◌/◌, ◌%◌, ◌^◌, ◌≤◌, ◌<◌, ◌≡◌, ◌≢◌, refl, sym,
  ap, ◌∙◌, subst, inl, inr, true, false, if◌then◌else◌, some, ltb, Result, ok, ◌>>=◌, add64, arith,
  dec_lt,
}
use chcore_lab_v.Buddy.Weight.{free_pages}
use chcore_lab_v.Machine.{Machine}
use chcore_lab_v.PageTable.{return_zero}
use chcore_lab_v.PageTable.Map.{map_huge, map_blocks, map_range_in_pgtbl_huge}
use chcore_lab_v.PageTable.Query.{query_in_pgtbl}
use chcore_lab_v.PageTable.Translate.{query_in_pgtbl-lookup}
use chcore_lab_v.PageTable.Clear.{no_block}
use chcore_lab_v.PageTable.Tree.{Tree}
use chcore_lab_v.PageTable.Tree.Chunk.{chunk_size, rounds, ChunkMapped, map_huge-ChunkMapped}
use chcore_lab_v.PageTable.Tree.Range.{page_of, query_same}

-- What the loop leaves behind: a tree again, the range mapped in order, and every address of
-- another page translated as before.
pub record HugeMapped (root : ℕ) (m : Machine) (va pa va_end : ℕ) (r : Result (Machine × ℕ))
    : Type 0 where
  pub after : Machine
  pub returns : r ≡ ok (after, 0)
  pub larger : Tree root after
  pub here :
      (x : ℕ)
      → va ≤ x
      → x < va_end
      → (entry : ℕ) × (query_in_pgtbl after root x ≡ ok (some (pa + (x - va), entry)))
  pub others :
      (x : ℕ)
      → ((y : ℕ) → va ≤ y → y < va_end → page_of x ≢ page_of y)
      → query_in_pgtbl after root x ≡ query_in_pgtbl m root x

map_blocks-done :
    (fuel va pa va_end root flags : ℕ) (m : Machine)
    → ltb va va_end ≡ false
    → map_blocks fuel m root va pa va_end flags ≡ ok m
unfolding map_blocks
map_blocks-done zero va pa va_end root flags m h = pick_else (ltb va va_end) _ _ h
map_blocks-done (suc fuel) va pa va_end root flags m h = pick_else (ltb va va_end) _ _ h

-- The rest of the loop after a round.
after_chunk : ℕ → ℕ → ℕ → ℕ → ℕ → ℕ → Machine × ℕ → Result Machine
after_chunk fuel root va pa va_end flags (m, size) =
    map_blocks fuel m root (add64 va size) (add64 pa size) va_end flags

map_blocks-first :
    (fuel va pa va_end root flags : ℕ) (m : Machine)
    → map_blocks (suc fuel) m root va pa va_end flags ≡ (
        if ltb va va_end
        then (map_huge m root va pa va_end flags >>= after_chunk fuel root va pa va_end flags)
        else ok m)
unfolding map_blocks after_chunk
map_blocks-first fuel va pa va_end root flags m = refl

map_blocks-suc :
    (fuel va pa va_end root flags size : ℕ) (m m' : Machine)
    → ltb va va_end ≡ true
    → map_huge m root va pa va_end flags ≡ ok (m', size)
    → add64 va size ≡ va + size
    → add64 pa size ≡ pa + size
    → map_blocks (suc fuel) m root va pa va_end flags
      ≡ map_blocks fuel m' root (va + size) (pa + size) va_end flags
unfolding after_chunk
map_blocks-suc fuel va pa va_end root flags size m m' more run next next' =
    map_blocks-first fuel va pa va_end root flags m
    ∙ pick_then (ltb va va_end) _ _ more
    ∙ ap (λ r. r >>= after_chunk fuel root va pa va_end flags) run
    ∙ ap (λ (a : ℕ). map_blocks fuel m' root a (add64 pa size) va_end flags) next
    ∙ ap (λ (a : ℕ). map_blocks fuel m' root (va + size) a va_end flags) next'

-- Pages of a range of at most 2^48 bytes are told apart on either side of a chunk.
chunks_apart :
    (va size x y va_end : ℕ)
    → x < va + size
    → va + size ≤ y
    → y < va_end
    → va ≤ x
    → (va % 4096 ≡ 0) × (size % 4096 ≡ 0) × (va_end ≤ va + 2 ^ 48)
    → page_of x ≢ page_of y
chunks_apart va size x y va_end hi lo' hi' lo (aligned, whole, small) e = omega arith

mapped_none :
    {root : ℕ} {m : Machine} (tree : Tree root m) (va pa va_end : ℕ) {r : Result Machine}
    → r ≡ ok m
    → va_end ≤ va
    → HugeMapped root m va pa va_end (r >>= return_zero)
mapped_none {root} {m} tree va pa va_end e past = record {
  after = m;
  returns = ap (λ r. r >>= return_zero) e;
  larger = tree;
  here = λ x lo hi. absurd (omega arith);
  others = λ x away. refl;
}

-- A round and the rest of the loop.
mapped_chunk :
    {root : ℕ} {m : Machine} (va pa va_end flags fuel : ℕ)
    → va % 4096 ≡ 0
    → va_end ≤ va + 2 ^ 48
    → va < va_end
    → va_end + 4096 ≤ 2 ^ 64
    → pa + va_end ≤ va + 2 ^ 48
    → (s : ChunkMapped root m va pa va_end (map_huge m root va pa va_end flags))
    → HugeMapped root s.after
        (va + s.size)
        (pa + s.size)
        va_end
        (map_blocks fuel s.after root (va + s.size) (pa + s.size) va_end flags >>= return_zero)
    → HugeMapped root m va pa va_end
        (map_blocks (suc fuel) m root va pa va_end flags >>= return_zero)
mapped_chunk {root} {m} va pa va_end flags fuel aligned small more high low s rest =
    let end : s.size ≤ va_end - va + 4096 = elim s.inside [
      | inl page ↦ omega arith
      | inr block ↦ omega arith
    ] in
    let next : add64 va s.size ≡ va + s.size = elim s.inside [
      | inl page ↦ omega arith
      | inr block ↦ omega arith
    ] in
    record {
      after = rest.after;
      returns =
          ap (λ r. r >>= return_zero)
            (map_blocks-suc fuel va pa va_end root flags s.size m s.after (ground arith) s.returns
              next (omega arith))
          ∙ rest.returns;
      larger = rest.larger;
      here = λ x lo hi. elim (dec_lt x (va + s.size)) [
        | no later ↦
            let (e, found) = rest.here x (omega arith) hi in
            (e, found ∙ ap (λ (n : ℕ). ok (some (n, e))) (omega arith))
        | yes now ↦
            let (e, found) = s.here x lo now in
            (
              e,
              rest.others x (λ y lo' hi'.
                    chunks_apart va s.size x y va_end now lo' hi' lo (aligned, s.whole, small))
                  ∙ query_in_pgtbl-lookup s.after root x
                  ∙ ap (λ o. ok o) found,
            )
      ];
      others = λ x away.
          rest.others x (λ y lo hi. away y (omega arith) hi)
          ∙ query_same m s.after root x
              (s.others x (λ y lo hi. elim s.inside [
                | inl page ↦ elim (dec_lt y va_end) [
                  | yes now ↦ away y lo now
                  | no past ↦ λ e. away va (omega arith) more (omega arith)
                ]
                | inr block ↦ away y lo (omega arith)
              ])).0;
    }

rounds-suc :
    (fuel va pa va_end size : ℕ)
    → va < va_end
    → size ≡ chunk_size va pa va_end
    → rounds (suc fuel) va pa va_end ≡ suc (rounds fuel (va + size) (pa + size) va_end)
unfolding rounds
rounds-suc fuel va pa va_end size more e =
    skip (dec_lt va va_end) more
    ∙ ap (λ (n : ℕ). suc (rounds fuel (va + n) (pa + n) va_end)) (sym e)
  where
    skip : {A : Type 0} {n : ℕ} (d : Dec A) → A → elim d [ no h ↦ 0 | yes h ↦ n ] ≡ n
    skip (yes h) a = refl
    skip (no h) a = absurd (h a)

map_blocks-HugeMapped :
    (fuel : ℕ) {root : ℕ} {m : Machine} (tree : Tree root m) (va pa va_end flags : ℕ)
    → va % 4096 ≡ 0
    → pa % 4096 ≡ 0
    → va_end + 4096 ≤ 2 ^ 64
    → pa + va_end ≤ va + 2 ^ 48
    → va_end ≤ va + fuel * 4096
    → 3 * rounds fuel va pa va_end ≤ free_pages m.pool
    → ((x : ℕ) → va ≤ x → x < va_end → no_block 3 m.mem root x ≡ true)
    → HugeMapped root m va pa va_end (map_blocks fuel m root va pa va_end flags >>= return_zero)
map_blocks-HugeMapped zero {root} {m} tree va pa va_end flags aligned aligned' high low enough stock
      pages =
    mapped_none tree va pa va_end (map_blocks-done 0 va pa va_end root flags m (ground arith))
      (omega arith)
map_blocks-HugeMapped (suc fuel) {root} {m} tree va pa va_end flags aligned aligned' high low enough
      stock pages =
    elim (dec_lt va va_end) [
      | no done ↦
          mapped_none tree va pa va_end
            (map_blocks-done (suc fuel) va pa va_end root flags m (ground arith)) (omega arith)
      | yes more ↦
          let first = rounds-suc fuel va pa va_end (chunk_size va pa va_end) more refl in
          let s =
            map_huge-ChunkMapped tree va pa va_end flags (pages va (omega arith) more)
              (omega (arith, first, stock)) (omega arith) more (omega arith) aligned aligned' in
          mapped_chunk va pa va_end flags fuel aligned (omega arith) more high low s (
            map_blocks-HugeMapped fuel s.larger (va + s.size) (pa + s.size) va_end flags
              (omega (arith, s.whole)) (omega (arith, s.whole)) high (omega arith)
              (omega (arith, s.some_page))
              (omega (arith, s.budget, stock, rounds-suc fuel va pa va_end s.size more s.size_lem))
              (λ x lo hi.
                (s.others x (λ y lo' hi' e.
                  chunks_apart va s.size y x va_end hi' lo hi lo' (aligned, s.whole, omega arith)
                    (sym e))).1
                ∙ pages x (omega arith) hi))
    ]

map_range-blocks :
    (m : Machine) (root va pa len flags : ℕ)
    → add64 va len ≡ va + len
    → map_range_in_pgtbl_huge m root va pa len flags
      ≡ (map_blocks (len / 4096 + 1) m root va pa (va + len) flags >>= return_zero)
unfolding map_range_in_pgtbl_huge
map_range-blocks m root va pa len flags e =
    ap (λ (a : ℕ). map_blocks (len / 4096 + 1) m root va pa a flags >>= return_zero) e

-- In a tree of page tables, for aligned addresses, a range that ends a page before the end of the
-- address space at the latest, physical addresses up to 2^48, three free pages for each block and
-- page that the range is made of, and no block on the way: map_range_in_pgtbl_huge returns with a
-- tree again; query_in_pgtbl then translates each address of the range to its place in the
-- physical range, be it in a page, a block of 2M or one of 1G, and translates addresses of all
-- other pages as before.
pub map_range_in_pgtbl_huge-HugeMapped :
    {root : ℕ} {m : Machine} (tree : Tree root m) (va pa len flags : ℕ)
    → va % 4096 ≡ 0
    → pa % 4096 ≡ 0
    → va + len + 4096 ≤ 2 ^ 64
    → pa + len ≤ 2 ^ 48
    → 3 * rounds (len / 4096 + 1) va pa (va + len) ≤ free_pages m.pool
    → ((x : ℕ) → va ≤ x → x < va + len → no_block 3 m.mem root x ≡ true)
    → HugeMapped root m va pa (va + len) (map_range_in_pgtbl_huge m root va pa len flags)
map_range_in_pgtbl_huge-HugeMapped {root} {m} tree va pa len flags aligned aligned' high low stock
      pages =
    subst (λ r. HugeMapped root m va pa (va + len) r)
      (sym (map_range-blocks m root va pa len flags (omega arith)))
      (map_blocks-HugeMapped (len / 4096 + 1) tree va pa (va + len) flags aligned aligned' high
        (omega arith) (omega arith) stock pages)
