-- ===== src/PageTable/Fresh.antt =====
-- get_next_ptp of kernel/arch/aarch64/mm/page_table.c where it allocates: the new page-table page.
use chcore_lab_v.Base.{
  pick_then, ℕ, ◌+◌, ◌*◌, ◌/◌, ◌%◌, ◌^◌, ◌≤◌, ◌<◌, ◌≡◌, ◌≢◌, refl, ap, ◌∙◌, ◌⊎◌, inl, inr, true,
  false, not, some, ltb, leb, ◌==◌, Result, ok, ◌>>=◌, ◌>>◌, bug_on, set_field, ==-false_of_ne,
  arith,
}
use chcore_lab_v.Buddy.{Pool, buddy_get_pages, page_to_virt}
use chcore_lab_v.Buddy.Invariant.{IsValid, frame}
use chcore_lab_v.Buddy.Chunk.{page_to_virt_lem}
use chcore_lab_v.Buddy.Alloc.Find.{Granted, buddy_get_pages-Granted}
use chcore_lab_v.Machine.{Machine, store, get_pages, memset_zero}
use chcore_lab_v.PageTable.{
  kbase, virt_to_phys, table_pte, alloc_ptp, next_at, found_next, get_next_of, normal_ptp, Next,
  is_pte_invalid, is_pte_table,
}
use chcore_lab_v.PageTable.Translate.{is_invalid, next_table, invalid_lem, table_lem, next_lem}

-- The entry of a new page-table page leads to it.
table_pte_lem : (p : ℕ) → p < 2 ^ 48 → p % 4096 ≡ 0 → table_pte p ≡ 3 + p
unfolding table_pte set_field
table_pte_lem p h aligned = omega arith

fill : ℕ → Machine × ℕ → Result Machine
fill entry (m, new_ptp) =
    bug_on (new_ptp == 0)
    >> ok (store entry (table_pte (virt_to_phys new_ptp)) (memset_zero new_ptp 4096 m))

alloc_ptp-fill : (m : Machine) (entry : ℕ) → alloc_ptp m entry ≡ (get_pages m 0 >>= fill entry)
unfolding alloc_ptp fill
alloc_ptp-fill m entry = refl

fill_run :
    (m : Machine) (entry addr : ℕ)
    → addr ≢ 0
    → fill entry (m, addr)
      ≡ ok (store entry (table_pte (virt_to_phys addr)) (memset_zero addr 4096 m))
unfolding fill
fill_run m entry addr ne = let e = ==-false_of_ne addr 0 ne in rw e refl

memset_zero_inside :
    (m : Machine) (addr a : ℕ)
    → addr % 4096 ≡ 0
    → addr ≤ a
    → a < addr + 4096
    → a % 8 ≡ 0
    → (memset_zero addr 4096 m).mem a ≡ 0
unfolding memset_zero
memset_zero_inside m addr a aligned lo hi word =
    let c1 : leb addr a ≡ true = ground arith in
    let c2 : ltb a (addr + 4096) ≡ true = ground arith in
    let le : a + 8 ≤ addr + 4096 = omega arith in
    let c3 : leb (a + 8) (addr + 4096) ≡ true = ground arith in rw (c1, c2, c3) refl

memset_zero_outside :
    (m : Machine) (addr a : ℕ)
    → (a < addr) ⊎ (addr + 4096 ≤ a)
    → (memset_zero addr 4096 m).mem a ≡ m.mem a
unfolding memset_zero
memset_zero_outside m addr a (inl low) = let c : leb addr a ≡ false = ground arith in rw c refl
memset_zero_outside m addr a (inr high) =
    let c1 : leb addr a ≡ true = ground arith in
    let c2 : ltb a (addr + 4096) ≡ false = ground arith in rw (c1, c2) refl

memset_zero-pool : (m : Machine) (addr : ℕ) → (memset_zero addr 4096 m).pool ≡ m.pool
unfolding memset_zero
memset_zero-pool m addr = refl

store_other : (m : Machine) (e w a : ℕ) → a ≢ e → (store e w m).mem a ≡ m.mem a
store_other m e w a ne = ground arith

-- What an allocating step of the walk leaves behind.
pub record Fresh (m : Machine) (own : ℕ → ℕ) (entry : ℕ) (r : Result (Machine × Next))
    : Type 0 where
  pub after : Machine
  pub granted : Granted m.pool own 0 (buddy_get_pages m.pool 0)
  pub addr : ℕ
  pub at : addr ≡ (frame granted.after + granted.page) * 4096
  pub returns : r ≡ ok (after, record { ret = normal_ptp; next_ptp = some addr; pte = some entry })
  pub pool : after.pool ≡ granted.after
  pub word : after.mem entry ≡ 3 + virt_to_phys addr
  pub phys_aligned : virt_to_phys addr % 4096 ≡ 0
  pub leads : next_table (after.mem entry) ≡ addr
  pub zeroed : (a : ℕ) → addr ≤ a → a < addr + 4096 → a % 8 ≡ 0 → a ≢ entry → after.mem a ≡ 0
  pub others : (a : ℕ) → (a < addr) ⊎ (addr + 4096 ≤ a) → a ≢ entry → after.mem a ≡ m.mem a

get_pages-run :
    (m : Machine) (page addr : ℕ) (after : Pool)
    → buddy_get_pages m.pool 0 ≡ ok (after, some page)
    → page_to_virt after page ≡ ok addr
    → get_pages m 0 ≡ ok (record m { pool = after }, addr)
unfolding get_pages
get_pages-run m page addr after e at = rw (e, at) refl

-- The step after the allocation, when the entry leads to the new page.
next_at-run :
    (m m' : Machine) (entry addr : ℕ)
    → is_invalid (m.mem entry) ≡ true
    → alloc_ptp m entry ≡ ok m'
    → is_pte_table (m'.mem entry) ≡ true
    → get_next_of (m'.mem entry) ≡ addr
    → next_at m entry true
      ≡ ok (m', record { ret = normal_ptp; next_ptp = some addr; pte = some entry })
unfolding next_at
next_at-run m m' entry addr invalid run table leads =
    pick_then (is_pte_invalid (m.mem entry)) _ _ (invalid_lem (m.mem entry) ∙ invalid)
    ∙ ap (λ r. r >>= λ m''. ok (found_next m'' entry)) run
    ∙ found m' entry addr table leads
  where
    found :
        (m' : Machine) (entry addr : ℕ)
        → is_pte_table (m'.mem entry) ≡ true
        → get_next_of (m'.mem entry) ≡ addr
        → ok (found_next m' entry)
          ≡ ok (m', record { ret = normal_ptp; next_ptp = some addr; pte = some entry })
    found m' entry addr table leads = rw (table, leads) refl

-- Where a free chunk is left in a valid pool of kernel addresses below KBASE + 2^39, get_next_ptp
-- with alloc returns at an entry that is not valid, with a page that the buddy allocator has
-- granted: the entry leads to the page, every entry of the page is 0, and no other word of memory
-- changes.
pub next_at-Fresh :
    {own : ℕ → ℕ} (m : Machine) (entry h : ℕ)
    → IsValid m.pool own
    → kbase ≤ m.pool.pool_start_addr
    → m.pool.pool_start_addr + m.pool.pool_phys_page_num * 4096 ≤ kbase + 2 ^ 39
    → h < m.pool.pool_phys_page_num
    → own h ≡ h
    → (m.pool.pages h).allocated ≡ false
    → is_invalid (m.mem entry) ≡ true
    → Fresh m own entry (next_at m entry true)
next_at-Fresh {own} m entry h v low high hN head is_free invalid =
    let g = buddy_get_pages-Granted 0 h v hN head is_free (omega arith) in
    let addr : ℕ = (frame g.after + g.page) * 4096 in
    let where_it_is : (kbase ≤ addr) × (addr < kbase + 2 ^ 39) × (addr % 4096 ≡ 0) = (
      omega (arith, low, g.start, v.placed.start_aligned),
      omega (arith, high, g.start, g.inside, v.placed.start_aligned),
      omega arith,
    ) in
    let start : Machine = record m { pool = g.after } in
    let p : ℕ = virt_to_phys addr in
    let phys : (p + kbase ≡ addr) × (p < 2 ^ 39) × (p % 4096 ≡ 0) =
      (omega (arith, where_it_is), omega (arith, where_it_is), omega (arith, where_it_is)) in
    let word : table_pte p ≡ 3 + p = table_pte_lem p (omega (arith, phys)) (phys.2) in
    let after : Machine = store entry (table_pte p) (memset_zero addr 4096 start) in
    let at_entry : after.mem entry ≡ table_pte p = ground arith in
    let leads : next_table (after.mem entry) ≡ addr =
      ap (λ (w : ℕ). next_table w) (at_entry ∙ word) ∙ omega (arith, phys, where_it_is) in
    let run : alloc_ptp m entry ≡ ok after =
      alloc_ptp-fill m entry
      ∙ ap (λ r. r >>= fill entry)
          (get_pages-run m g.page addr g.after g.returns
            (page_to_virt_lem g.valid.placed g.page (omega (arith, g.inside, g.num))))
      ∙ fill_run start entry addr (ground (arith, where_it_is)) in
    let table : is_pte_table (after.mem entry) ≡ true =
      table_lem (after.mem entry)
      ∙ ap (λ (w : ℕ). not (w / 2 % 2 == 0)) (at_entry ∙ word)
      ∙ second_bit p phys.2 in
    record {
      after = after;
      granted = g;
      addr = addr;
      at = refl;
      returns =
          next_at-run m after entry addr invalid run table (next_lem (after.mem entry) ∙ leads);
      pool = memset_zero-pool start addr;
      word = at_entry ∙ word;
      phys_aligned = phys.2;
      leads = leads;
      zeroed = λ a lo hi w ne.
          store_other (memset_zero addr 4096 start) entry (table_pte p) a ne
          ∙ memset_zero_inside start addr a where_it_is.2 lo hi w;
      others = λ a out ne.
          store_other (memset_zero addr 4096 start) entry (table_pte p) a ne
          ∙ memset_zero_outside start addr a out;
    }
  where
    second_bit : (p : ℕ) → p % 4096 ≡ 0 → not ((3 + p) / 2 % 2 == 0) ≡ true
    second_bit p h = let e : (3 + p) / 2 % 2 ≡ 1 = omega arith in ground (arith, e)
