-- ===== src/PageTable/Tree/Walk.antt =====
-- The loop body of map_range_in_pgtbl of kernel/arch/aarch64/mm/page_table.c in a tree of tables:
-- the walk to the entry of the last level, with the tables it puts in.
use chcore_lab_v.Base.{
  ℕ, suc, ◌+◌, ◌*◌, ◌/◌, ◌%◌, ◌^◌, ◌≤◌, ◌<◌, ◌≡◌, ◌≢◌, refl, sym, ap, ◌∙◌, subst, true, false, some,
  ◌==◌, Result, ok, ◌>>=◌, arith,
}
use chcore_lab_v.Buddy.Weight.{free_pages}
use chcore_lab_v.Machine.{Machine, store}
use chcore_lab_v.PageTable.{step_down, page_pte}
use chcore_lab_v.PageTable.Map.{map_page}
use chcore_lab_v.PageTable.Mapped.{
  HasTables, from_l1, from_l2, from_l3, map_page-from_l1, map_l3-store,
}
use chcore_lab_v.PageTable.Translate.{entry_at, is_invalid, next_table, lookup}
use chcore_lab_v.PageTable.Clear.{no_block}
use chcore_lab_v.PageTable.Congruence.{no_block_table, inner_of_no_block}
use chcore_lab_v.PageTable.Tree.{Tree, part, table_nonzero, entries_apart, level_unique}
use chcore_lab_v.PageTable.Tree.Step.{Grows}
use chcore_lab_v.PageTable.Tree.Down.{Down, step_down-Down}

pub map_page-steps :
    (m m1 m2 m3 : Machine) (t n1 n2 n3 e1 e2 e3 va pa flags : ℕ)
    → step_down m t 0 va ≡ ok (m1, n1, e1)
    → step_down m1 n1 1 va ≡ ok (m2, n2, e2)
    → step_down m2 n2 2 va ≡ ok (m3, n3, e3)
    → n3 ≢ 0
    → map_page m t va pa flags ≡ ok (store (entry_at 0 n3 va) (page_pte pa flags) m3)
unfolding from_l1 from_l2 from_l3
map_page-steps m m1 m2 m3 t n1 n2 n3 e1 e2 e3 va pa flags s1 s2 s3 there =
    map_page-from_l1 m t va pa flags
    ∙ ap (λ r. r >>= from_l1 va pa flags) s1
    ∙ ap (λ r. r >>= from_l2 va pa flags) s2
    ∙ ap (λ r. r >>= from_l3 va pa flags) s3
    ∙ map_l3-store m3 n3 e3 va pa flags there

HasTables-suc :
    (k : ℕ) (mem : ℕ → ℕ) (t va e n : ℕ)
    → t ≢ 0
    → is_invalid (mem (entry_at (suc k) t va)) ≡ false
    → (mem (entry_at (suc k) t va) / 2 % 2 == 0) ≡ false
    → next_table (mem (entry_at (suc k) t va)) ≡ n
    → entry_at (suc k) t va ≢ e
    → HasTables k mem n va e
    → HasTables (suc k) mem t va e
unfolding HasTables
HasTables-suc k mem t va e n there valid bit leads ne rest =
    (there, valid, bit, ne, subst (λ x. HasTables k mem x va e) (sym leads) rest)

HasTables-zero : (mem : ℕ → ℕ) (t va : ℕ) → t ≢ 0 → HasTables 0 mem t va (entry_at 0 t va)
unfolding HasTables
HasTables-zero mem t va there = (there, refl)

-- An entry on the way of a walk that the later steps do not change.
pub record Passed (root : ℕ) {m' : Machine} (tree' : Tree root m') (k t va n : ℕ) : Type 0 where
  pub at_level : tree'.level t ≡ some (suc k)
  pub valid : is_invalid (m'.mem (entry_at (suc k) t va)) ≡ false
  pub bit : (m'.mem (entry_at (suc k) t va) / 2 % 2 == 0) ≡ false
  pub leads : next_table (m'.mem (entry_at (suc k) t va)) ≡ n

pub Down-Passed :
    {root : ℕ} {m : Machine} {tree : Tree root m} {k t va : ℕ} {r : Result (Machine × ℕ × ℕ)}
    → tree.level t ≡ some (suc k)
    → (d : Down tree t k va r) → Passed root d.larger k t va d.next
Down-Passed h d = record {
  at_level = (d.grows.extends _ _ h).0;
  valid = d.now_valid;
  bit = d.now_table;
  leads = d.leads;
}

pub Passed-later :
    {root : ℕ} {m m' : Machine} {tree : Tree root m} {tree' : Tree root m'} {k l t va n : ℕ}
    → l < k
    → Grows tree tree' l
    → Passed root tree k t va n
    → Passed root tree' k t va n
Passed-later {k = k} {t = t} {va = va} lt g p =
    let same =
      g.upper t (suc k) (va / 2 ^ (9 * suc k + 12) % 512) p.at_level (omega arith) (omega arith) in
    record {
      at_level = (g.extends t (suc k) p.at_level).0;
      valid = ap is_invalid same ∙ p.valid;
      bit = ap (λ (w : ℕ). w / 2 % 2 == 0) same ∙ p.bit;
      leads = ap next_table same ∙ p.leads;
    }

HasTables-Passed :
    {root : ℕ} {m : Machine} {tree : Tree root m} {k t va n : ℕ} (u : ℕ)
    → tree.level u ≡ some 0
    → Passed root tree k t va n
    → HasTables k m.mem n va (entry_at 0 u va)
    → HasTables (suc k) m.mem t va (entry_at 0 u va)
HasTables-Passed {root} {m} {tree} {k} {t} {va} {n} u hu p rest =
    HasTables-suc k m.mem t va (entry_at 0 u va) n (table_nonzero tree t (suc k) p.at_level) p.valid
      p.bit p.leads
      (λ e.
        let same =
          entries_apart tree t (suc k) (va / 2 ^ (9 * suc k + 12) % 512) u 0 (va / 4096 % 512)
            p.at_level hu (omega arith) (omega arith) e in
        omega
          (arith, level_unique tree t (suc k) 0 p.at_level (ap (λ x. tree.level x) same.0 ∙ hu)))
      rest

-- The walk to the last level.
pub record Walked {root : ℕ} {m : Machine} (tree : Tree root m) (va : ℕ) : Type 0 where
  pub after : Machine
  pub larger : Tree root after
  pub last : ℕ
  pub at_level : larger.level last ≡ some 0
  pub at_position : larger.position last ≡ part 0 va
  pub tables : HasTables 3 after.mem root va (entry_at 0 last va)
  pub lookups : (x : ℕ) → lookup 3 after.mem root x ≡ lookup 3 m.mem root x
  pub blocks : (x : ℕ) → no_block 3 after.mem root x ≡ no_block 3 m.mem root x
  pub budget : free_pages m.pool ≤ free_pages after.pool + 3
  pub runs :
      (pa flags : ℕ)
      → map_page m root va pa flags ≡ ok (store (entry_at 0 last va) (page_pte pa flags) after)

module _ {root : ℕ} {m : Machine} (tree : Tree root m) (va : ℕ)
    (pages : no_block 3 m.mem root va ≡ true) (stock : 3 ≤ free_pages m.pool) where
  below_block :
      {m' : Machine} {tree' : Tree root m'} {k t n : ℕ}
      → Passed root tree' k t va n
      → no_block (suc k) m'.mem t va ≡ true
      → no_block k m'.mem n va ≡ true
  below_block {m'} {tree'} {k} {t} {n} p h =
      let there = table_nonzero tree' t (suc k) p.at_level in
      ap (λ (x : ℕ). no_block k m'.mem x va) (sym p.leads)
      ∙ sym (
          no_block_table k m'.mem t va there p.valid
            (inner_of_no_block k m'.mem t va there p.valid h))
      ∙ h

  pub d1 : Down tree root 2 va (step_down m root 0 va)
  d1 = step_down-Down tree 0 2 refl refl refl root va tree.top pages (omega arith)

  pub p1 : Passed root d1.larger 2 root va d1.next
  p1 = Down-Passed tree.top d1

  pages1 : no_block 2 d1.after.mem d1.next va ≡ true
  pages1 = below_block p1 (d1.grows.blocks va ∙ pages)

  pub d2 : Down d1.larger d1.next 1 va (step_down d1.after d1.next 1 va)
  d2 =
      step_down-Down d1.larger 1 1 refl refl refl d1.next va d1.level_next pages1
        (omega (arith, d1.grows.budget))

  pub p1' : Passed root d2.larger 2 root va d1.next
  p1' = Passed-later (omega arith) d2.grows p1

  pub p2 : Passed root d2.larger 1 d1.next va d2.next
  p2 = Down-Passed d1.level_next d2

  pages2 : no_block 1 d2.after.mem d2.next va ≡ true
  pages2 = below_block p2 (below_block p1' (d2.grows.blocks va ∙ d1.grows.blocks va ∙ pages))

  pub d3 : Down d2.larger d2.next 0 va (step_down d2.after d2.next 2 va)
  d3 =
      step_down-Down d2.larger 2 0 refl refl refl d2.next va d2.level_next pages2
        (omega (arith, d1.grows.budget, d2.grows.budget))

  pub nonzero : d3.next ≢ 0
  nonzero = table_nonzero d3.larger d3.next 0 d3.level_next

  all_tables : HasTables 3 d3.after.mem root va (entry_at 0 d3.next va)
  all_tables = HasTables-Passed d3.next d3.level_next (Passed-later (omega arith) d3.grows p1') (
      HasTables-Passed d3.next d3.level_next (Passed-later (omega arith) d3.grows p2) (
        HasTables-Passed d3.next d3.level_next (Down-Passed d2.level_next d3)
          (HasTables-zero d3.after.mem d3.next va nonzero)))

  -- Where the walk meets no block and three pages are free, the loop body reaches the last level.
  pub map_page-Walked : Walked tree va
  map_page-Walked = record {
    after = d3.after;
    larger = d3.larger;
    last = d3.next;
    at_level = d3.level_next;
    at_position =
        omega (arith, d3.position_next, d2.position_next, d1.position_next, tree.top_position);
    tables = all_tables;
    lookups = λ x. d3.grows.lookups x ∙ d2.grows.lookups x ∙ d1.grows.lookups x;
    blocks = λ x. d3.grows.blocks x ∙ d2.grows.blocks x ∙ d1.grows.blocks x;
    budget = omega (arith, d1.grows.budget, d2.grows.budget, d3.grows.budget);
    runs = λ pa flags.
        map_page-steps m d1.after d2.after d3.after root d1.next d2.next d3.next _ _ _ va pa flags
          d1.returns d2.returns d3.returns nonzero;
  }
