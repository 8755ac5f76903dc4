-- ===== src/PageTable/Tree/Unmap.antt =====
-- unmap_range_in_pgtbl of kernel/arch/aarch64/mm/page_table.c in a tree of tables: the pages
-- outside the range stay as they were.
use chcore_lab_v.Base.{
  ℕ, zero, suc, ◌+◌, ◌*◌, ◌/◌, ◌%◌, ◌^◌, ◌≤◌, ◌<◌, ◌≡◌, ◌≢◌, refl, sym, ap, ◌∙◌, inl, inr, ◌⊎◌,
  true, none, some, Result, ok, update, Bool-cases, ==-false_of_ne, arith, dec_lt,
}
use chcore_lab_v.Machine.{Machine}
use chcore_lab_v.PageTable.Unmap.{unmap_pages, unmap_range_in_pgtbl}
use chcore_lab_v.PageTable.Query.{query_in_pgtbl}
use chcore_lab_v.PageTable.Translate.{entry_at, is_invalid, next_table, lookup}
use chcore_lab_v.PageTable.Clear.{clear, clear-Cleared, no_block, no_block-Cleared}
use chcore_lab_v.PageTable.Clear.Range.{
  unmap_range_in_pgtbl-Unmapped, unmap_pages-done, unmap_pages-suc,
}
use chcore_lab_v.PageTable.Congruence.{inner_of_no_block, no_block_table}
use chcore_lab_v.PageTable.Tree.{Tree, part, table_nonzero, child_of_leaf}
use chcore_lab_v.PageTable.Tree.Leaf.{part-suc, lookup-store}
use chcore_lab_v.PageTable.Tree.Range.{page_of, pages_differ, part_top, query_same}
use chcore_lab_v.PageTable.Tree.Root.{Cleared-Tree}

-- Clearing the entry of an address writes one entry of the last level, or nothing.
record ClearsLeaf {root : ℕ} {m : Machine} (tree : Tree root m) (mem' : ℕ → ℕ) (va : ℕ)
    : Type 0 where
  last : ℕ
  at_level : tree.level last ≡ some 0
  at_position : tree.position last ≡ part 0 va
  writes : mem' ≡ update m.mem (entry_at 0 last va) 0

module _ {root : ℕ} {m : Machine} (tree : Tree root m) (va : ℕ) where
  clear_cases :
      (k t : ℕ)
      → tree.level t ≡ some k
      → tree.position t ≡ part k va
      → no_block k m.mem t va ≡ true
      → (clear k m.mem t va ≡ m.mem) ⊎ ClearsLeaf tree (clear k m.mem t va) va
  unfolding clear
  clear_cases zero t h at pages = elim (Bool-cases (is_invalid (m.mem (entry_at 0 t va)))) [
    | inl out ↦ inl (rw (==-false_of_ne t 0 (table_nonzero tree t 0 h), out) refl)
    | inr valid ↦ inr (record {
      last = t;
      at_level = h;
      at_position = at;
      writes = rw (==-false_of_ne t 0 (table_nonzero tree t 0 h), valid) refl;
    })
  ]
  clear_cases (suc k) t h at pages =
      let w = m.mem (entry_at (suc k) t va) in
      let i = va / 2 ^ (9 * suc k + 12) % 512 in
      let there = table_nonzero tree t (suc k) h in
      elim (Bool-cases (is_invalid w)) [
        | inl out ↦ inl (rw (==-false_of_ne t 0 there, out) refl)
        | inr valid ↦
            let inner = inner_of_no_block k m.mem t va there valid pages in
            let c = child_of_leaf tree t k i h (omega arith) valid inner in
            rw (==-false_of_ne t 0 there, valid)
              (clear_cases k (next_table w) c.0
                (c.1
                  ∙ ap (λ (p : ℕ). p * 512 + i) at
                  ∙ sym (part-suc k va (omega (arith, tree.shallow t (suc k) h))))
                (sym (no_block_table k m.mem t va there valid inner) ∙ pages))
      ]

  -- Addresses of other pages are translated as before.
  lookup-clear_other :
      (x : ℕ)
      → no_block 3 m.mem root va ≡ true
      → page_of x ≢ page_of va
      → lookup 3 (clear 3 m.mem root va) root x ≡ lookup 3 m.mem root x
  lookup-clear_other x pages ne =
      elim (clear_cases 3 root tree.top (tree.top_position ∙ part_top va) pages) [
        | inl same ↦ ap (λ mem'. lookup 3 mem' root x) same
        | inr c ↦
            ap (λ mem'. lookup 3 mem' root x) c.writes
            ∙ lookup-store tree c.last (va / 4096 % 512) 0 c.at_level (omega arith) 3 root x
                tree.top (tree.top_position ∙ part_top x)
                (pages_differ x va (tree.position c.last) c.at_position ne)
      ]

unmap_pages-others :
    (fuel : ℕ) {root : ℕ} {m : Machine} (tree : Tree root m) (va va_end : ℕ)
    → va % 4096 ≡ 0
    → va_end + 4096 ≤ 2 ^ 64
    → va_end ≤ va + fuel * 4096
    → ((x : ℕ) → va ≤ x → x < va_end → no_block 3 m.mem root x ≡ true)
    → (after : ℕ → ℕ) × (unmap_pages fuel m root va va_end ≡ ok (record m { mem = after }))
      × ((x : ℕ)
          → ((y : ℕ) → va ≤ y → y < va_end → page_of x ≢ page_of y)
          → lookup 3 after root x ≡ lookup 3 m.mem root x)
unmap_pages-others zero {root} {m} tree va va_end aligned high enough pages =
    (m.mem, unmap_pages-done 0 va va_end root m (ground arith), λ x away. refl)
unmap_pages-others (suc fuel) {root} {m} tree va va_end aligned high enough pages =
    elim (dec_lt va va_end) [
      | no done ↦
          (m.mem, unmap_pages-done (suc fuel) va va_end root m (ground arith), λ x away. refl)
      | yes more ↦
          let mem' = clear 3 m.mem root va in
          let clears = clear-Cleared 3 m.mem root va in
          let rest =
            unmap_pages-others fuel (Cleared-Tree mem' tree clears) (va + 4096) va_end (omega arith)
              high (omega arith)
              (λ x lo hi. no_block-Cleared 3 m.mem mem' root x clears (pages x (omega arith) hi)) in
          (
            rest.0,
            unmap_pages-suc fuel va va_end root m (ground arith) (omega arith) ∙ rest.1,
            λ x away.
                rest.2 x (λ y lo hi. away y (omega arith) hi)
                ∙ lookup-clear_other tree va x (pages va (omega arith) more)
                    (away va (omega arith) more),
          )
    ]

-- What unmapping leaves behind in a tree.
pub record RangeUnmapped (root : ℕ) (m : Machine) (va va_end : ℕ) (r : Result (Machine × ℕ))
    : Type 0 where
  pub after : Machine
  pub returns : r ≡ ok (after, 0)
  pub larger : Tree root after
  pub here : (x : ℕ) → va ≤ x → x < va_end → query_in_pgtbl after root x ≡ ok none
  pub others :
      (x : ℕ)
      → ((y : ℕ) → va ≤ y → y < va_end → page_of x ≢ page_of y)
      → query_in_pgtbl after root x ≡ query_in_pgtbl m root x

value_of : {A : Type 0} {x y : A} → ok x ≡ ok y → x ≡ y
value_of e = cc

-- For any length, whether its addresses are mapped or not.
pub unmap_range-RangeUnmapped :
    {root : ℕ} {m : Machine} (tree : Tree root m) (va len : ℕ)
    → va % 4096 ≡ 0
    → va + len + 4096 ≤ 2 ^ 64
    → ((x : ℕ) → va ≤ x → x < va + len → no_block 3 m.mem root x ≡ true)
    → RangeUnmapped root m va (va + len) (unmap_range_in_pgtbl m root va len)
unmap_range-RangeUnmapped {root} {m} tree va len aligned high pages =
    let (u, returns, absent) = unmap_range_in_pgtbl-Unmapped m root va len aligned high pages in
    let o =
      unmap_pages-others (len / 4096 + 1) tree va (va + len) aligned high (omega arith) pages in
    let same : record m { mem = o.0 } ≡ record m { mem = u.after } =
      value_of (sym o.1 ∙ u.returns) in
    record {
      after = record m { mem = u.after };
      returns = returns;
      larger = Cleared-Tree u.after tree u.cleared;
      here = absent;
      others = λ x away.
          query_same m (record m { mem = u.after }) root x
            (ap (λ (s : Machine). lookup 3 s.mem root x) (sym same) ∙ o.2 x away);
    }

-- In a tree of page tables, for an aligned start, a length that is a multiple of the page size
-- and not 0, and a range that ends a page before the end of the address space at the latest, in
-- which every address is mapped, and none by a block: unmap_range_in_pgtbl returns 0, with a tree
-- again; query_in_pgtbl then finds no mapping of any address of the range, and translates
-- addresses of all other pages as before.
pub unmap_range_in_pgtbl-RangeUnmapped :
    {root : ℕ} {m : Machine} (tree : Tree root m) (va len : ℕ)
    → va % 4096 ≡ 0
    → len % 4096 ≡ 0
    → 0 < len
    → va + len + 4096 ≤ 2 ^ 64
    → ((x : ℕ)
        → va ≤ x
        → x < va + len
        → (found : ℕ × ℕ) × (query_in_pgtbl m root x ≡ ok (some found)))
    → ((x : ℕ) → va ≤ x → x < va + len → no_block 3 m.mem root x ≡ true)
    → RangeUnmapped root m va (va + len) (unmap_range_in_pgtbl m root va len)
unmap_range_in_pgtbl-RangeUnmapped tree va len aligned whole some_page high mapped pages =
    unmap_range-RangeUnmapped tree va len aligned high pages
