-- ===== src/PageTable/Tree/Down.antt =====
-- A level of the walk of map_range_in_pgtbl of kernel/arch/aarch64/mm/page_table.c in a tree of
-- tables, whether the table below is there or is put in.
use chcore_lab_v.Base.{
  ℕ, suc, ◌+◌, ◌-◌, ◌*◌, ◌/◌, ◌%◌, ◌^◌, ◌<◌, ◌≡◌, refl, inl, inr, true, false, some, ◌==◌, ltb,
  Result, ok, Bool-cases, arith,
}
use chcore_lab_v.Buddy.Weight.{free_pages}
use chcore_lab_v.Buddy.Stock.{free_head}
use chcore_lab_v.Machine.{Machine}
use chcore_lab_v.PageTable.{step_down}
use chcore_lab_v.PageTable.Translate.{entry_at, is_invalid, next_table}
use chcore_lab_v.PageTable.Clear.{no_block}
use chcore_lab_v.PageTable.Congruence.{inner_of_no_block}
use chcore_lab_v.PageTable.Fresh.{next_at-Fresh}
use chcore_lab_v.PageTable.Mapped.{step_down-fresh, step_down-table}
use chcore_lab_v.PageTable.Tree.{Tree, table_nonzero, bit_of_leaf}
use chcore_lab_v.PageTable.Tree.Step.{Grows, grown, grown-Grows, now_valid, now_table, grown_at}

pub record Down {root : ℕ} {m : Machine} (tree : Tree root m) (t k va : ℕ)
    (r : Result (Machine × ℕ × ℕ)) : Type 0 where
  pub after : Machine
  pub next : ℕ
  pub returns : r ≡ ok (after, next, entry_at (suc k) t va)
  pub larger : Tree root after
  pub grows : Grows tree larger k
  pub level_next : larger.level next ≡ some k
  pub position_next : larger.position next ≡ tree.position t * 512 + va / 2 ^ (9 * suc k + 12) % 512
  pub now_valid : is_invalid (after.mem (entry_at (suc k) t va)) ≡ false
  pub now_table : (after.mem (entry_at (suc k) t va) / 2 % 2 == 0) ≡ false
  pub leads : next_table (after.mem (entry_at (suc k) t va)) ≡ next

module _ {root : ℕ} {m : Machine} (tree : Tree root m) (level k : ℕ) (small : ltb 3 level ≡ false)
    (upper : (level == 3) ≡ false) (shift : (3 - level) * 9 + 12 ≡ 9 * suc k + 12) (t va : ℕ)
    (h : tree.level t ≡ some (suc k)) where
  down_there :
      is_invalid (m.mem (entry_at (suc k) t va)) ≡ false
      → (m.mem (entry_at (suc k) t va) / 2 % 2 == 0) ≡ false
      → Down tree t k va (step_down m t level va)
  down_there valid bit =
      let c = tree.child t k (va / 2 ^ (9 * suc k + 12) % 512) h (omega arith) valid bit in
      record {
        after = m;
        next = next_table (m.mem (entry_at (suc k) t va));
        returns =
            step_down-table m level k small upper shift t va (table_nonzero tree t (suc k) h) valid
              bit;
        larger = tree;
        grows = record {
          extends = λ u l hu. (hu, refl);
          upper = λ u l i hu higher iN. refl;
          lookups = λ x. refl;
          blocks = λ x. refl;
          budget = omega arith;
        };
        level_next = c.0;
        position_next = c.1;
        now_valid = valid;
        now_table = bit;
        leads = refl;
      }

  down_fresh :
      is_invalid (m.mem (entry_at (suc k) t va)) ≡ true
      → 0 < free_pages m.pool
      → Down tree t k va (step_down m t level va)
  down_fresh out stock =
      let j = va / 2 ^ (9 * suc k + 12) % 512 in
      let (hd, hN, head, is_free) = free_head tree.valid stock in
      let f = next_at-Fresh m (t + 8 * j) hd tree.valid tree.low tree.high hN head is_free out in
      let jN : j < 512 = omega arith in
      record {
        after = f.after;
        next = f.addr;
        returns =
            step_down-fresh m level k small upper shift t va f.addr (t + 8 * j) f.after
              (table_nonzero tree t (suc k) h) f.returns;
        larger = grown tree t k j h jN out f;
        grows = grown-Grows tree t k j h jN out f;
        level_next = (grown_at tree t k j h jN out f).0;
        position_next = (grown_at tree t k j h jN out f).1;
        now_valid = now_valid tree t k j h jN out f;
        now_table = now_table tree t k j h jN out f;
        leads = f.leads;
      }

  -- Where the walk meets no block and a page is free for a table.
  pub step_down-Down :
      no_block (suc k) m.mem t va ≡ true
      → 0 < free_pages m.pool
      → Down tree t k va (step_down m t level va)
  step_down-Down pages stock = elim (Bool-cases (is_invalid (m.mem (entry_at (suc k) t va)))) [
    | inl out ↦ down_fresh out stock
    | inr valid ↦ down_there valid (
        bit_of_leaf tree t k (va / 2 ^ (9 * suc k + 12) % 512) h (omega arith) valid
          (inner_of_no_block k m.mem t va (table_nonzero tree t (suc k) h) valid pages))
  ]
