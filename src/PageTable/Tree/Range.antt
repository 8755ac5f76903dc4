-- ===== src/PageTable/Tree/Range.antt =====
-- map_range_in_pgtbl of kernel/arch/aarch64/mm/page_table.c in a tree of tables, with the tables
-- that it puts in.
use chcore_lab_v.Base.{
  pick_then, pick_else, ℕ, zero, suc, ◌+◌, ◌-◌, ◌*◌, ◌/◌, ◌%◌, ◌^◌, ◌≤◌, ◌<◌, ◌≡◌, ◌≢◌, refl, sym,
  ap, ◌∙◌, subst, inl, inr, ◌⊎◌, true, false, if◌then◌else◌, some, ltb, Result, ok, ◌>>=◌, add64,
  arith, dec_lt, ℕ_discrete,
}
use chcore_lab_v.Buddy.Weight.{free_pages}
use chcore_lab_v.Machine.{Machine, store}
use chcore_lab_v.PageTable.{page_pte, return_zero}
use chcore_lab_v.PageTable.Map.{map_page, map_pages, map_range_in_pgtbl}
use chcore_lab_v.PageTable.Query.{query_in_pgtbl}
use chcore_lab_v.PageTable.Mapped.{lookup-update, page_pte-read}
use chcore_lab_v.PageTable.Translate.{entry_at, lookup, query_in_pgtbl-lookup}
use chcore_lab_v.PageTable.Clear.{no_block}
use chcore_lab_v.PageTable.Tree.{Tree, part}
use chcore_lab_v.PageTable.Tree.Leaf.{store-Tree, no_block-store, lookup-store}
use chcore_lab_v.PageTable.Tree.Walk.{map_page-Walked}

-- The page of an address, of those that four levels of tables tell apart.
abbrev pub page_of : ℕ → ℕ
page_of x = x / 4096 % 2 ^ 36

-- What the loop body leaves behind.
pub record PageMapped (root : ℕ) (m : Machine) (va pa : ℕ) (r : Result Machine) : Type 0 where
  pub after : Machine
  pub entry : ℕ
  pub returns : r ≡ ok after
  pub larger : Tree root after
  pub here :
      (x : ℕ)
      → va / 4096 ≡ x / 4096
      → lookup 3 after.mem root x ≡ some (pa / 4096 * 4096 + x % 4096, entry)
  pub others : (x : ℕ) → page_of x ≢ page_of va → lookup 3 after.mem root x ≡ lookup 3 m.mem root x
  pub blocks : (x : ℕ) → no_block 3 after.mem root x ≡ no_block 3 m.mem root x
  pub budget : free_pages m.pool ≤ free_pages after.pool + 3

pub part_top : (x : ℕ) → 0 ≡ part 3 x
part_top x = omega arith

pub pages_differ :
    (x va p : ℕ)
    → p ≡ part 0 va
    → page_of x ≢ page_of va
    → (part 0 x ≢ p) ⊎ (x / 4096 % 512 ≢ va / 4096 % 512)
pages_differ x va p at ne = elim (ℕ_discrete (x / 4096 % 512) (va / 4096 % 512)) [
  | yes same ↦ inl (λ e. ne (omega arith))
  | no other ↦ inr other
]

pub map_page-PageMapped :
    {root : ℕ} {m : Machine} (tree : Tree root m) (va pa flags : ℕ)
    → no_block 3 m.mem root va ≡ true
    → 3 ≤ free_pages m.pool
    → pa < 2 ^ 48
    → PageMapped root m va pa (map_page m root va pa flags)
map_page-PageMapped {root} {m} tree va pa flags pages stock low =
    let w = map_page-Walked tree va pages stock in
    let j = va / 4096 % 512 in
    let jN : j < 512 = omega arith in
    let word = page_pte pa flags in
    let read = page_pte-read pa flags low in
    record {
      after = store (entry_at 0 w.last va) word w.after;
      entry = entry_at 0 w.last va;
      returns = w.runs pa flags;
      larger = store-Tree w.larger w.last j word w.at_level jN;
      here = λ x same.
          lookup-update 3 w.after.mem root va x (entry_at 0 w.last va) word w.tables same read.0
          ∙ ap (λ (f : ℕ). some (f * 2 ^ 12 + x % 2 ^ 12, entry_at 0 w.last va)) read.1;
      others = λ x ne.
          lookup-store w.larger w.last j word w.at_level jN 3 root x w.larger.top
            (w.larger.top_position ∙ part_top x)
            (pages_differ x va (w.larger.position w.last) w.at_position ne)
          ∙ w.lookups x;
      blocks = λ x.
          no_block-store w.larger w.last j word w.at_level jN 3 root x w.larger.top ∙ w.blocks x;
      budget = w.budget;
    }

-- What the loop leaves behind: a tree again, the pages of the range mapped in order, and every
-- address of another page translated as before.
pub record RangeMapped (root : ℕ) (m : Machine) (va pa va_end : ℕ) (r : Result (Machine × ℕ))
    : Type 0 where
  pub after : Machine
  pub returns : r ≡ ok (after, 0)
  pub larger : Tree root after
  pub here :
      (x : ℕ)
      → va ≤ x
      → x < va_end
      → (entry : ℕ) × (query_in_pgtbl after root x ≡ ok (some (pa + (x - va), entry)))
  pub others :
      (x : ℕ)
      → ((y : ℕ) → va ≤ y → y < va_end → page_of x ≢ page_of y)
      → query_in_pgtbl after root x ≡ query_in_pgtbl m root x
  pub blocks : (x : ℕ) → no_block 3 after.mem root x ≡ no_block 3 m.mem root x

map_pages-done :
    (fuel va pa va_end root flags : ℕ) (m : Machine)
    → ltb va va_end ≡ false
    → map_pages fuel m root va pa va_end flags ≡ ok m
unfolding map_pages
map_pages-done zero va pa va_end root flags m h = pick_else (ltb va va_end) _ _ h
map_pages-done (suc fuel) va pa va_end root flags m h = pick_else (ltb va va_end) _ _ h

map_pages-first :
    (fuel va pa va_end root flags : ℕ) (m : Machine)
    → map_pages (suc fuel) m root va pa va_end flags ≡ (
        if ltb va va_end
        then (map_page m root va pa flags >>= λ m'.
            map_pages fuel m' root (add64 va 4096) (add64 pa 4096) va_end flags)
        else ok m)
unfolding map_pages
map_pages-first fuel va pa va_end root flags m = refl

map_pages-suc :
    (fuel va pa va_end root flags : ℕ) (m m' : Machine)
    → ltb va va_end ≡ true
    → map_page m root va pa flags ≡ ok m'
    → add64 va 4096 ≡ va + 4096
    → add64 pa 4096 ≡ pa + 4096
    → map_pages (suc fuel) m root va pa va_end flags
      ≡ map_pages fuel m' root (va + 4096) (pa + 4096) va_end flags
map_pages-suc fuel va pa va_end root flags m m' more run next next' =
    map_pages-first fuel va pa va_end root flags m
    ∙ pick_then (ltb va va_end) _ _ more
    ∙ ap (λ r. r >>= λ m''. map_pages fuel m'' root (add64 va 4096) (add64 pa 4096) va_end flags)
        run
    ∙ ap (λ (a : ℕ). map_pages fuel m' root a (add64 pa 4096) va_end flags) next
    ∙ ap (λ (a : ℕ). map_pages fuel m' root (va + 4096) a va_end flags) next'

pub query_same :
    (m m' : Machine) (root x : ℕ)
    → lookup 3 m'.mem root x ≡ lookup 3 m.mem root x
    → query_in_pgtbl m' root x ≡ query_in_pgtbl m root x
query_same m m' root x e =
    query_in_pgtbl-lookup m' root x ∙ ap (λ o. ok o) e ∙ sym (query_in_pgtbl-lookup m root x)

-- Pages of a range of at most 2^48 bytes are told apart.
pub pages_apart :
    (va x y va_end : ℕ)
    → va ≤ x
    → x < va + 4096
    → va + 4096 ≤ y
    → y < va_end
    → (va % 4096 ≡ 0) × (va_end ≤ va + 2 ^ 48)
    → page_of x ≢ page_of y
pages_apart va x y va_end lo hi lo' hi' (aligned, small) e = omega arith

mapped_none :
    {root : ℕ} {m : Machine} (tree : Tree root m) (va pa va_end : ℕ) {r : Result Machine}
    → r ≡ ok m
    → va_end ≤ va
    → RangeMapped root m va pa va_end (r >>= return_zero)
mapped_none {root} {m} tree va pa va_end e past = record {
  after = m;
  returns = ap (λ r. r >>= return_zero) e;
  larger = tree;
  here = λ x lo hi. absurd (omega arith);
  others = λ x away. refl;
  blocks = λ x. refl;
}

map_pages-RangeMapped :
    (fuel : ℕ) {root : ℕ} {m : Machine} (tree : Tree root m) (va pa va_end flags : ℕ)
    → va % 4096 ≡ 0
    → pa % 4096 ≡ 0
    → va_end + 4096 ≤ 2 ^ 64
    → pa + va_end ≤ va + 2 ^ 48
    → va_end ≤ va + fuel * 4096
    → 3 * fuel ≤ free_pages m.pool
    → ((x : ℕ) → va ≤ x → x < va_end → no_block 3 m.mem root x ≡ true)
    → RangeMapped root m va pa va_end (map_pages fuel m root va pa va_end flags >>= return_zero)
map_pages-RangeMapped zero {root} {m} tree va pa va_end flags aligned aligned' high low enough stock
      pages =
    mapped_none tree va pa va_end (map_pages-done 0 va pa va_end root flags m (ground arith))
      (omega arith)
map_pages-RangeMapped (suc fuel) {root} {m} tree va pa va_end flags aligned aligned' high low enough
      stock pages =
    elim (dec_lt va va_end) [
      | no done ↦
          mapped_none tree va pa va_end
            (map_pages-done (suc fuel) va pa va_end root flags m (ground arith)) (omega arith)
      | yes more ↦
          let s =
            map_page-PageMapped tree va pa flags (pages va (omega arith) more) (omega arith)
              (omega arith) in
          let rest =
            map_pages-RangeMapped fuel s.larger (va + 4096) (pa + 4096) va_end flags (omega arith)
              (omega arith) high (omega arith) (omega arith) (omega (arith, s.budget))
              (λ x lo hi. s.blocks x ∙ pages x (omega arith) hi) in
          record {
            after = rest.after;
            returns =
                ap (λ r. r >>= return_zero)
                  (map_pages-suc fuel va pa va_end root flags m s.after (ground arith) s.returns
                    (omega arith) (omega arith))
                ∙ rest.returns;
            larger = rest.larger;
            blocks = λ x. rest.blocks x ∙ s.blocks x;
            here = λ x lo hi. elim (dec_lt x (va + 4096)) [
              | no later ↦
                  let (e, found) = rest.here x (omega arith) hi in
                  (e, found ∙ ap (λ (n : ℕ). ok (some (n, e))) (omega arith))
              | yes now ↦ (
                s.entry,
                rest.others x
                      (λ y lo' hi'. pages_apart va x y va_end lo now lo' hi' (aligned, omega arith))
                    ∙ query_in_pgtbl-lookup s.after root x
                    ∙ ap (λ o. ok o) (s.here x (omega arith))
                    ∙ ap (λ (n : ℕ). ok (some (n, s.entry))) (omega arith),
              )
            ];
            others = λ x away.
                rest.others x (λ y lo hi. away y (omega arith) hi)
                ∙ query_same m s.after root x (s.others x (away va (omega arith) more));
          }
    ]

map_range-pages :
    (m : Machine) (root va pa len flags : ℕ)
    → add64 va len ≡ va + len
    → map_range_in_pgtbl m root va pa len flags
      ≡ (map_pages (len / 4096 + 1) m root va pa (va + len) flags >>= return_zero)
unfolding map_range_in_pgtbl
map_range-pages m root va pa len flags e =
    ap (λ (a : ℕ). map_pages (len / 4096 + 1) m root va pa a flags >>= return_zero) e

-- For any length.
pub map_range-RangeMapped :
    {root : ℕ} {m : Machine} (tree : Tree root m) (va pa len flags : ℕ)
    → va % 4096 ≡ 0
    → pa % 4096 ≡ 0
    → va + len + 4096 ≤ 2 ^ 64
    → pa + len ≤ 2 ^ 48
    → 3 * (len / 4096 + 1) ≤ free_pages m.pool
    → ((x : ℕ) → va ≤ x → x < va + len → no_block 3 m.mem root x ≡ true)
    → RangeMapped root m va pa (va + len) (map_range_in_pgtbl m root va pa len flags)
map_range-RangeMapped {root} {m} tree va pa len flags aligned aligned' high low stock pages =
    subst (λ r. RangeMapped root m va pa (va + len) r)
      (sym (map_range-pages m root va pa len flags (omega arith)))
      (map_pages-RangeMapped (len / 4096 + 1) tree va pa (va + len) flags aligned aligned' high
        (omega arith) (omega arith) stock pages)

-- In a tree of page tables, for aligned addresses, a length that is a multiple of the page size
-- and not 0, a range that ends a page before the end of the address space at the latest, physical
-- addresses up to 2^48, three free pages for each page of the range and for one more, and no
-- block on the way: map_range_in_pgtbl returns 0, whatever tables are missing, with a tree again;
-- query_in_pgtbl then translates each address of the range to its place in the physical range,
-- translates addresses of all other pages as before, and still meets no block where it met none.
pub map_range_in_pgtbl-RangeMapped :
    {root : ℕ} {m : Machine} (tree : Tree root m) (va pa len flags : ℕ)
    → va % 4096 ≡ 0
    → pa % 4096 ≡ 0
    → len % 4096 ≡ 0
    → 0 < len
    → va + len + 4096 ≤ 2 ^ 64
    → pa + len ≤ 2 ^ 48
    → 3 * (len / 4096 + 1) ≤ free_pages m.pool
    → ((x : ℕ) → va ≤ x → x < va + len → no_block 3 m.mem root x ≡ true)
    → RangeMapped root m va pa (va + len) (map_range_in_pgtbl m root va pa len flags)
map_range_in_pgtbl-RangeMapped tree va pa len flags aligned aligned' whole some_page high low stock
      pages =
    map_range-RangeMapped tree va pa len flags aligned aligned' high low stock pages
