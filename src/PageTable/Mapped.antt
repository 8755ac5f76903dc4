-- ===== src/PageTable/Mapped.antt =====
-- The loop body of map_range_in_pgtbl of kernel/arch/aarch64/mm/page_table.c, for an address whose
-- tables are there, and query_in_pgtbl after it.
use chcore_lab_v.Base.{
  pick_else, ℕ, zero, suc, ◌+◌, ◌-◌, ◌*◌, ◌/◌, ◌%◌, ◌^◌, ◌<◌, ◌≡◌, ◌≢◌, refl, sym, ap, ◌∙◌, inl,
  inr, Bool, true, false, some, ltb, ◌==◌, if◌then◌else◌, update, Result, ok, ◌>>=◌, ◌>>◌, bug_on,
  bit_and, ==-false_of_ne, Bool-cases, arith,
}
use chcore_lab_v.Machine.{Machine, store}
use chcore_lab_v.PageTable.{
  normal_ptp, Next, get_next_ptp, next_at, failed, last_level, found_next, entry_addr, is_error,
  defined, is_pte_invalid, step_down, map_l3, page_pte,
}
use chcore_lab_v.PageTable.Map.{map_page}
use chcore_lab_v.PageTable.Query.{query_in_pgtbl}
use chcore_lab_v.PageTable.Flags.{attributes_parts, pte_words}
use chcore_lab_v.PageTable.Translate.{
  entry_at, is_invalid, is_leaf, next_table, leaf_at, lookup, invalid_lem, table_lem, index_lem,
  next_lem, query_in_pgtbl-lookup,
}
use chcore_lab_v.PageTable.Clear.Range.{entry_at-page}

-- The walk for `va` goes through tables to the entry `e` of the last level, and no entry on the way
-- is `e`.
unfoldable pub HasTables : ℕ → (ℕ → ℕ) → ℕ → ℕ → ℕ → Type 0
HasTables zero mem t va e = (t ≢ 0) × (entry_at 0 t va ≡ e)
HasTables (suc k) mem t va e =
    (t ≢ 0)
    × (is_invalid (mem (entry_at (suc k) t va)) ≡ false)
    × ((mem (entry_at (suc k) t va) / 2 % 2 == 0) ≡ false)
    × (entry_at (suc k) t va ≢ e)
    × HasTables k mem (next_table (mem (entry_at (suc k) t va))) va e

pick :
    {A : Type 0} (a b c : Bool) (x y z : Result A)
    → a ≡ false
    → b ≡ false
    → c ≡ false
    → (if a then x else (bug_on b >> (if c then y else z))) ≡ z
pick a b c x y z ea eb ec = rw (ea, eb, ec) refl

-- What step_down makes of a result of get_next_ptp.
down : Machine × Next → Result (Machine × ℕ × ℕ)
down (m', next) =
    bug_on (is_error next.ret)
    >> (defined next.next_ptp >>= λ next_ptp. defined next.pte >>= λ pte. ok (m', next_ptp, pte))

step_down-next :
    (m : Machine) (t level va : ℕ)
    → step_down m t level va ≡ (get_next_ptp m t level va true >>= down)
unfolding step_down down
step_down-next m t level va = refl

module _ (m : Machine) (level k : ℕ) (small : ltb 3 level ≡ false) (upper : (level == 3) ≡ false)
    (shift : (3 - level) * 9 + 12 ≡ 9 * suc k + 12) where
  get_next_ptp-at :
      (t va : ℕ) → t ≢ 0 → get_next_ptp m t level va true ≡ next_at m (entry_at (suc k) t va) true
  unfolding get_next_ptp
  get_next_ptp-at t va there =
      let e : entry_addr t level va ≡ entry_at (suc k) t va =
        ap (λ (s : ℕ). t + 8 * bit_and (va / 2 ^ s) 511) shift
        ∙ ap (λ (i : ℕ). t + 8 * i) (index_lem (9 * suc k + 12) va) in
      pick (t == 0) (ltb 3 level) (level == 3) (ok (failed m))
        (ok (last_level m (entry_addr t level va))) (next_at m (entry_addr t level va) true)
        (==-false_of_ne t 0 there) small upper
      ∙ ap (λ (a : ℕ). next_at m a true) e

  get_next_ptp-table :
      (t va : ℕ)
      → t ≢ 0
      → is_invalid (m.mem (entry_at (suc k) t va)) ≡ false
      → get_next_ptp m t level va true ≡ ok (found_next m (entry_at (suc k) t va))
  unfolding next_at
  get_next_ptp-table t va there valid =
      get_next_ptp-at t va there
      ∙ pick_else (is_pte_invalid (m.mem (entry_at (suc k) t va))) _ _
          (invalid_lem (m.mem (entry_at (suc k) t va)) ∙ valid)

  -- A step that gets a new table.
  pub step_down-fresh :
      (t va n e : ℕ) (m' : Machine)
      → t ≢ 0
      → next_at m (entry_at (suc k) t va) true
        ≡ ok (m', record { ret = normal_ptp; next_ptp = some n; pte = some e })
      → step_down m t level va ≡ ok (m', n, e)
  unfolding down
  step_down-fresh t va n e m' there run =
      step_down-next m t level va ∙ ap (λ r. r >>= down) (get_next_ptp-at t va there ∙ run)

  pub step_down-table :
      (t va : ℕ)
      → t ≢ 0
      → is_invalid (m.mem (entry_at (suc k) t va)) ≡ false
      → (m.mem (entry_at (suc k) t va) / 2 % 2 == 0) ≡ false
      → step_down m t level va
        ≡ ok (m, next_table (m.mem (entry_at (suc k) t va)), entry_at (suc k) t va)
  unfolding down
  step_down-table t va there valid table =
      let w = m.mem (entry_at (suc k) t va) in
      step_down-next m t level va
      ∙ ap (λ r. r >>= down) (get_next_ptp-table t va there valid)
      ∙ rw (table_lem w, table) (ap (λ (n : ℕ). ok (m, n, entry_at (suc k) t va)) (next_lem w))

pub map_l3-store :
    (m : Machine) (t stale va pa flags : ℕ)
    → t ≢ 0
    → map_l3 m t stale va pa flags ≡ ok (store (entry_at 0 t va) (page_pte pa flags) m)
unfolding map_l3 get_next_ptp
map_l3-store m t stale va pa flags there =
    elim (Bool-cases (is_invalid (m.mem (entry_at 0 t va)))) [
      | inl out ↦
          rw (==-false_of_ne t 0 there, index_lem 12 va, invalid_lem (m.mem (entry_at 0 t va)), out)
            refl
      | inr old ↦
          rw (==-false_of_ne t 0 there, index_lem 12 va, invalid_lem (m.mem (entry_at 0 t va)), old)
            refl
    ]

-- The levels of map_page.
unfoldable pub from_l3 : ℕ → ℕ → ℕ → Machine × ℕ × ℕ → Result Machine
from_l3 va pa flags (m, l3_ptp, l2_pte) = map_l3 m l3_ptp l2_pte va pa flags

unfoldable pub from_l2 : ℕ → ℕ → ℕ → Machine × ℕ × ℕ → Result Machine
from_l2 va pa flags (m, l2_ptp, l1_pte) = step_down m l2_ptp 2 va >>= from_l3 va pa flags

unfoldable pub from_l1 : ℕ → ℕ → ℕ → Machine × ℕ × ℕ → Result Machine
from_l1 va pa flags (m, l1_ptp, l0_pte) = step_down m l1_ptp 1 va >>= from_l2 va pa flags

pub map_page-from_l1 :
    (m : Machine) (t va pa flags : ℕ)
    → map_page m t va pa flags ≡ (step_down m t 0 va >>= from_l1 va pa flags)
unfolding map_page from_l1 from_l2 from_l3
map_page-from_l1 m t va pa flags = refl

module _ (m : Machine) (va pa flags : ℕ) where
  from_l3-store :
      (t p e : ℕ)
      → HasTables 0 m.mem t va e
      → from_l3 va pa flags (m, t, p) ≡ ok (store e (page_pte pa flags) m)
  unfolding from_l3 HasTables
  from_l3-store t p e (there, at) =
      map_l3-store m t p va pa flags there ∙ ap (λ (a : ℕ). ok (store a (page_pte pa flags) m)) at

  from_l2-store :
      (t p e : ℕ)
      → HasTables 1 m.mem t va e
      → from_l2 va pa flags (m, t, p) ≡ ok (store e (page_pte pa flags) m)
  unfolding from_l2 HasTables
  from_l2-store t p e (there, valid, table, ne, rest) =
      ap (λ r. r >>= from_l3 va pa flags)
        (step_down-table m 2 0 refl refl refl t va there valid table)
      ∙ from_l3-store (next_table (m.mem (entry_at 1 t va))) (entry_at 1 t va) e rest

  from_l1-store :
      (t p e : ℕ)
      → HasTables 2 m.mem t va e
      → from_l1 va pa flags (m, t, p) ≡ ok (store e (page_pte pa flags) m)
  unfolding from_l1 HasTables
  from_l1-store t p e (there, valid, table, ne, rest) =
      ap (λ r. r >>= from_l2 va pa flags)
        (step_down-table m 1 1 refl refl refl t va there valid table)
      ∙ from_l2-store (next_table (m.mem (entry_at 2 t va))) (entry_at 2 t va) e rest

  map_page-store :
      (t e : ℕ)
      → HasTables 3 m.mem t va e
      → map_page m t va pa flags ≡ ok (store e (page_pte pa flags) m)
  unfolding HasTables
  map_page-store t e (there, valid, table, ne, rest) =
      map_page-from_l1 m t va pa flags
      ∙ ap (λ r. r >>= from_l1 va pa flags)
          (step_down-table m 0 2 refl refl refl t va there valid table)
      ∙ from_l1-store (next_table (m.mem (entry_at 3 t va))) (entry_at 3 t va) e rest

-- With a valid word in the entry, every address of the page is translated by it.
pub lookup-update :
    (k : ℕ) (mem : ℕ → ℕ) (t va x e w : ℕ)
    → HasTables k mem t va e
    → va / 4096 ≡ x / 4096
    → is_invalid w ≡ false
    → lookup k (update mem e w) t x ≡ some (leaf_at 0 w e x)
unfolding lookup HasTables
lookup-update zero mem t va x e w (there, at) page valid =
    let same : entry_at 0 t x ≡ e = sym (entry_at-page 0 t va x page) ∙ at in
    let here : update mem e w e ≡ w = ground arith in
    rw (same, ==-false_of_ne t 0 there, here, valid) refl
lookup-update (suc k) mem t va x e w (there, valid_table, table, ne, rest) page valid =
    let same : entry_at (suc k) t x ≡ entry_at (suc k) t va =
      sym (entry_at-page (suc k) t va x page) in
    let old : update mem e w (entry_at (suc k) t va) ≡ mem (entry_at (suc k) t va) = ground arith in
    let inner : is_leaf (suc k) (mem (entry_at (suc k) t va)) ≡ false = ground arith in
    rw (same, ==-false_of_ne t 0 there, old, valid_table, inner)
      (lookup-update k mem (next_table (mem (entry_at (suc k) t va))) va x e w rest page valid)

-- The entry of a page is valid, and gives the frame that it was made of.
pub page_pte-read :
    (pa flags : ℕ)
    → pa < 2 ^ 48
    → (is_invalid (page_pte pa flags) ≡ false) × (page_pte pa flags / 2 ^ 12 % 2 ^ 36 ≡ pa / 2 ^ 12)
page_pte-read pa flags h =
    let w = (pte_words pa flags h).0 in
    let a = attributes_parts flags in
    let odd : page_pte pa flags % 2 ≡ 1 = omega (arith, w, a) in
    (ground (arith, odd), omega (arith, w, a))

-- Where the tables on the way to a page are there and their entries on the way are not the entry
-- of the page, the loop body of map_range_in_pgtbl returns, for a physical address below 2^48,
-- having written the entry and nothing else, and after it query_in_pgtbl translates every address
-- of the page.
pub map_page-query :
    (m : Machine) (pgtbl va e pa flags : ℕ)
    → HasTables 3 m.mem pgtbl va e
    → pa < 2 ^ 48
    → (map_page m pgtbl va pa flags ≡ ok (store e (page_pte pa flags) m))
      × ((x : ℕ)
          → va / 4096 ≡ x / 4096
          → query_in_pgtbl (store e (page_pte pa flags) m) pgtbl x
            ≡ ok (some (pa / 2 ^ 12 * 2 ^ 12 + x % 2 ^ 12, e)))
map_page-query m pgtbl va e pa flags tables h =
    let r = page_pte-read pa flags h in
    (
      map_page-store m va pa flags pgtbl e tables,
      λ x page.
          query_in_pgtbl-lookup (store e (page_pte pa flags) m) pgtbl x
          ∙ ap (λ o. ok o) (lookup-update 3 m.mem pgtbl va x e (page_pte pa flags) tables page r.0)
          ∙ ap (λ (f : ℕ). ok (some (f * 2 ^ 12 + x % 2 ^ 12, e))) r.1,
    )
