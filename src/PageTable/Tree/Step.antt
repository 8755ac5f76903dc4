-- ===== src/PageTable/Tree/Step.antt =====
-- A level of the walk of map_range_in_pgtbl of kernel/arch/aarch64/mm/page_table.c in a tree of
-- tables: the table below is there, or it is put in.
use chcore_lab_v.Base.{
  ℕ, suc, ◌+◌, ◌*◌, ◌/◌, ◌%◌, ◌≤◌, ◌<◌, ◌≡◌, ◌≢◌, refl, sym, ap, ◌∙◌, subst, inl, inr, ◌⊎◌, true,
  false, Option, some, ◌==◌, update, ==-false_of_ne, arith, ℕ_discrete,
}
use chcore_lab_v.Buddy.{Pool}
use chcore_lab_v.Buddy.Invariant.{IsValid, frame}
use chcore_lab_v.Buddy.Weight.{free_pages}
use chcore_lab_v.Machine.{Machine}
use chcore_lab_v.PageTable.{next_at}
use chcore_lab_v.PageTable.Translate.{is_invalid, next_table, lookup}
use chcore_lab_v.PageTable.Clear.{no_block}
use chcore_lab_v.PageTable.Fresh.{Fresh}
use chcore_lab_v.PageTable.Tree.{Tree, entries_apart, level_unique}
use chcore_lab_v.PageTable.Tree.Link.{Linked, lookup-Linked, no_block-Linked}

-- From one tree to a larger one that translates alike. Tables with more than `k + 1` levels below
-- are as before.
pub record Grows {root : ℕ} {m m' : Machine} (tree : Tree root m) (tree' : Tree root m') (k : ℕ)
    : Type 0 where
  pub extends :
      (t j : ℕ)
      → tree.level t ≡ some j
      → (tree'.level t ≡ some j) × (tree'.position t ≡ tree.position t)
  pub upper :
      (t j i : ℕ)
      → tree.level t ≡ some j
      → suc k < j
      → i < 512
      → m'.mem (t + 8 * i) ≡ m.mem (t + 8 * i)
  pub lookups : (x : ℕ) → lookup 3 m'.mem root x ≡ lookup 3 m.mem root x
  pub blocks : (x : ℕ) → no_block 3 m'.mem root x ≡ no_block 3 m.mem root x
  pub budget : free_pages m.pool ≤ free_pages m'.pool + 1

apart :
    (F p q a b : ℕ)
    → p ≢ q
    → (F + p) * 4096 ≤ a
    → a < (F + p) * 4096 + 4096
    → b ≡ (F + q) * 4096
    → (a < b) ⊎ (b + 4096 ≤ a)
apart F p q a b ne lo hi e = ground arith

module _ {root : ℕ} {m : Machine} (tree : Tree root m) (t k j : ℕ) (h : tree.level t ≡ some (suc k))
    (index : j < 512) (was_invalid : is_invalid (m.mem (t + 8 * j)) ≡ true)
    (f : Fresh m tree.own (t + 8 * j) (next_at m (t + 8 * j) true)) where
  -- The new page is not a table yet.
  page_apart :
      (u l i : ℕ)
      → tree.level u ≡ some l
      → i < 512
      → (u + 8 * i < f.addr) ⊎ (f.addr + 4096 ≤ u + 8 * i)
  page_apart u l i hu iN =
      let (p, at, pN, head, taken) = tree.held u l hu in
      let kept = f.granted.kept p pN head taken in
      let same : frame f.granted.after ≡ frame m.pool = ap (λ (x : ℕ). x / 4096) f.granted.start in
      let ne : p ≢ f.granted.page = kept.3 in
      apart (frame m.pool) p f.granted.page (u + 8 * i) f.addr ne (omega arith) (omega arith)
        (omega (arith, f.at))

  addr_new : (u l : ℕ) → tree.level u ≡ some l → u ≢ f.addr
  addr_new u l hu e = elim (page_apart u l 0 hu (omega arith)) [
    | inl lo ↦ omega arith
    | inr hi ↦ omega arith
  ]

  pub now_valid : is_invalid (f.after.mem (t + 8 * j)) ≡ false
  now_valid =
      let odd : f.after.mem (t + 8 * j) % 2 ≡ 1 = omega (arith, f.word, f.phys_aligned) in
      ground (arith, odd)

  pub now_table : (f.after.mem (t + 8 * j) / 2 % 2 == 0) ≡ false
  now_table =
      let bit : f.after.mem (t + 8 * j) / 2 % 2 ≡ 1 = omega (arith, f.word, f.phys_aligned) in
      ground (arith, bit)

  link : Linked tree f.after.mem t k j f.addr
  link = record {
    at_level = h;
    index = index;
    kept = λ u l i hu iN ne. f.others (u + 8 * i) (page_apart u l i hu iN) ne;
    was_invalid = was_invalid;
    now_valid = now_valid;
    now_table = now_table;
    leads = f.leads;
    empty = λ i iN.
        f.zeroed (f.addr + 8 * i) (omega arith) (omega arith) (omega (arith, f.at)) (λ e.
          elim (page_apart t (suc k) j h index) [ inl lo ↦ omega arith | inr hi ↦ omega arith ]);
  }

  level' : ℕ → Option ℕ
  level' = update tree.level f.addr (some k)

  position' : ℕ → ℕ
  position' = update tree.position f.addr (tree.position t * 512 + j)

  pool_num : f.after.pool.pool_phys_page_num ≡ m.pool.pool_phys_page_num
  pool_num = ap (λ (s : Pool). s.pool_phys_page_num) f.pool ∙ f.granted.num

  pool_start : f.after.pool.pool_start_addr ≡ m.pool.pool_start_addr
  pool_start = ap (λ (s : Pool). s.pool_start_addr) f.pool ∙ f.granted.start

  extends :
      (u l : ℕ) → tree.level u ≡ some l → (level' u ≡ some l) × (position' u ≡ tree.position u)
  unfolding level' position'
  extends u l hu = let e = ==-false_of_ne u f.addr (addr_new u l hu) in (rw e hu, rw e refl)

  at_addr : (level' f.addr ≡ some k) × (position' f.addr ≡ tree.position t * 512 + j)
  unfolding level' position'
  at_addr = (ground arith, ground arith)

  -- A table of the larger tree is the new one or an old one.
  old_table :
      (u l : ℕ)
      → level' u ≡ some l
      → ((u ≡ f.addr) × (k ≡ l))
        ⊎ ((u ≢ f.addr) × (tree.level u ≡ some l) × (position' u ≡ tree.position u))
  unfolding level' position'
  old_table u l hu = elim (ℕ_discrete u f.addr) [
    | yes e ↦ inl (e, ground (arith, e))
    | no ne ↦ let e = ==-false_of_ne u f.addr ne in inr (ne, ground (arith, ne), rw e refl)
  ]

  frame_after : frame f.after.pool ≡ frame m.pool
  frame_after = ap (λ (x : ℕ). x / 4096) pool_start

  frame_granted : frame f.after.pool ≡ frame f.granted.after
  frame_granted = ap (λ (s : Pool). frame s) f.pool

  holds :
      (u l : ℕ)
      → level' u ≡ some l
      → (p : ℕ) × (u ≡ (frame f.after.pool + p) * 4096)
        × (p < f.after.pool.pool_phys_page_num)
        × (f.granted.owner p ≡ p)
        × ((f.after.pool.pages p).allocated ≡ true)
  holds u l hu = elim (old_table u l hu) [
    | inl (e, el) ↦ (
      f.granted.page,
      omega (arith, e, f.at, frame_granted),
      omega (arith, f.granted.inside, pool_num),
      f.granted.head,
      ap (λ (s : Pool). (s.pages f.granted.page).allocated) f.pool ∙ f.granted.taken,
    )
    | inr (ne, old, ep) ↦
        let (p, at, pN, head, taken) = tree.held u l old in
        let kept = f.granted.kept p pN head taken in
        (
          p,
          omega (arith, at, frame_after),
          omega (arith, pool_num),
          kept.0,
          ap (λ (s : Pool). (s.pages p).allocated) f.pool ∙ kept.1,
        )
  ]

  no_entry : (i : ℕ) → i < 512 → ¬ (is_invalid (f.after.mem (f.addr + 8 * i)) ≡ false)
  no_entry i iN valid = ground (arith, link.empty i iN, valid)

  tables' :
      (u i : ℕ)
      → level' u ≡ some 3
      → i < 512
      → is_invalid (f.after.mem (u + 8 * i)) ≡ false
      → (f.after.mem (u + 8 * i) / 2 % 2 == 0) ≡ false
  tables' u i hu iN valid = elim (ℕ_discrete (u + 8 * i) (t + 8 * j)) [
    | yes e ↦ ap (λ (a : ℕ). f.after.mem a / 2 % 2 == 0) e ∙ now_table
    | no ne ↦ elim (old_table u 3 hu) [
      | inl (e, el) ↦
          absurd (no_entry i iN (subst (λ a. is_invalid (f.after.mem (a + 8 * i)) ≡ false) e valid))
      | inr (neu, old, ep) ↦
          let same = link.kept u 3 i old iN ne in
          ap (λ (w : ℕ). w / 2 % 2 == 0) same
          ∙ tree.top_tables u i old iN (ap is_invalid (sym same) ∙ valid)
    ]
  ]

  child' :
      (u l i : ℕ)
      → level' u ≡ some (suc l)
      → i < 512
      → is_invalid (f.after.mem (u + 8 * i)) ≡ false
      → (f.after.mem (u + 8 * i) / 2 % 2 == 0) ≡ false
      → (level' (next_table (f.after.mem (u + 8 * i))) ≡ some l)
        × (position' (next_table (f.after.mem (u + 8 * i))) ≡ position' u * 512 + i)
  child' u l i hu iN valid bit = elim (old_table u (suc l) hu) [
    | inl (e, el) ↦
        absurd (no_entry i iN (subst (λ a. is_invalid (f.after.mem (a + 8 * i)) ≡ false) e valid))
    | inr (neu, old, ep) ↦ elim (ℕ_discrete (u + 8 * i) (t + 8 * j)) [
      | yes e ↦
          let same = entries_apart tree u (suc l) i t (suc k) j old h iN index e in
          let next : next_table (f.after.mem (u + 8 * i)) ≡ f.addr =
            ap (λ (a : ℕ). next_table (f.after.mem a)) e ∙ f.leads in
          let levels = level_unique tree t (suc l) (suc k) (ap tree.level (sym same.0) ∙ old) h in
          let kl : k ≡ l = omega (arith, levels) in
          (
            ap level' next ∙ at_addr.0 ∙ ap (λ (n : ℕ). some n) kl,
            ap position' next
                ∙ at_addr.1
                ∙ omega (arith, ap (λ (a : ℕ). tree.position a) same.0, same.1, ep),
          )
      | no ne ↦
          let same = link.kept u (suc l) i old iN ne in
          let c =
            tree.child u l i old iN (ap is_invalid (sym same) ∙ valid)
              (ap (λ (w : ℕ). w / 2 % 2 == 0) (sym same) ∙ bit) in
          let ext = extends (next_table (m.mem (u + 8 * i))) l c.0 in
          (
            ap (λ (w : ℕ). level' (next_table w)) same ∙ ext.0,
            ap (λ (w : ℕ). position' (next_table w)) same ∙ ext.1 ∙ omega (arith, c.1, ep),
          )
    ]
  ]

  pub grown : Tree root f.after
  grown = record {
    own = f.granted.owner;
    level = level';
    position = position';
    valid = subst (λ s. IsValid s f.granted.owner) (sym f.pool) f.granted.valid;
    low = omega (arith, tree.low, pool_start);
    high = omega (arith, tree.high, pool_start, pool_num);
    top = (extends root 3 tree.top).0;
    top_position = (extends root 3 tree.top).1 ∙ tree.top_position;
    shallow = λ u l hu. elim (old_table u l hu) [
      | inl (e, el) ↦ omega (arith, tree.shallow t (suc k) h)
      | inr (ne, old, ep) ↦ tree.shallow u l old
    ];
    held = holds;
    top_tables = tables';
    child = child';
  }

  pub grown-Grows : Grows tree grown k
  unfolding grown level' position'
  grown-Grows = record {
    extends = extends;
    upper = λ u l i hu higher iN. link.kept u l i hu iN (λ e.
        let same = entries_apart tree u l i t (suc k) j hu h iN index e in
        let levels = level_unique tree t l (suc k) (ap tree.level (sym same.0) ∙ hu) h in
        omega arith);
    lookups = λ x. lookup-Linked link 3 root x tree.top;
    blocks = λ x. no_block-Linked link 3 root x tree.top;
    budget = omega (arith, f.granted.balance, ap (λ (s : Pool). free_pages s) f.pool);
  }

  pub grown_at : (grown.level f.addr ≡ some k) × (grown.position f.addr ≡ tree.position t * 512 + j)
  unfolding grown level' position'
  grown_at = at_addr
