-- ===== src/Slab/Made.antt =====
-- init_slab_cache of kernel/mm/slab.c over the buddy allocator: a slab of 2M, with its pages.
use chcore_lab_v.Base.{
  ℕ, zero, suc, ◌+◌, ◌-◌, ◌*◌, ◌/◌, ◌%◌, ◌^◌, ◌≤◌, ◌<◌, ◌≡◌, ◌⊎◌, inl, inr, refl, ap, ◌∙◌, subst,
  List, [], ◌∷◌, true, ◌&&◌, none, some, length, Result, ok, ◌>>=◌, arith,
}
use native.Mathlib.Nat.{div-mul-le_self, le-div_iff_mul-le}
use chcore_lab_v.Base.Pow.{two-pow_mono}
use chcore_lab_v.Buddy.{Pool, buddy_get_pages, virt_to_page, page_to_virt}
use chcore_lab_v.Buddy.Invariant.{IsValid, IsPlaced, frame}
use chcore_lab_v.Buddy.Chunk.{virt_to_page_lem, page_to_virt_lem}
use chcore_lab_v.Buddy.Alloc.Find.{Granted, Search, buddy_get_pages-Search}
use chcore_lab_v.Machine.{Machine, get_pages}
use chcore_lab_v.Slab.{init_slab_cache, alloc_slab_memory, mark_pages, size_to_order}
use chcore_lab_v.Slab.Chain.{slots_from}
use chcore_lab_v.Slab.Slabs.{IsSlabs}
use chcore_lab_v.Slab.Words.{weight}
use chcore_lab_v.Slab.New.{init_slab_cache-NewSlab}
use chcore_lab_v.Slab.Mark.{Marked, mark_pages-Marked}
use chcore_lab_v.Slab.Home.{home, homed, homed_slots}

homed-slots_from :
    (rounds obj_size slot s : ℕ) (pool : Pool)
    → ((x : ℕ) → slot ≤ x → x ≤ slot + rounds * obj_size → home pool x ≡ s)
    → homed_slots pool s (slots_from rounds obj_size slot) ≡ true
unfolding homed_slots slots_from
homed-slots_from zero obj_size slot s pool h =
    let at = h slot (omega arith) (omega arith) in ground (arith, at)
homed-slots_from (suc rounds) obj_size slot s pool h =
    let at = h slot (omega arith) (omega arith) in
    let rest =
      homed-slots_from rounds obj_size (slot + obj_size) s pool
        (λ x lo hi. h x (omega arith) (omega arith)) in
    ground (arith, at, rest)

-- The addresses of the pages that are marked.
home-Marked :
    {m : Machine} {r : Result Machine} (p addr x : ℕ) (k : Marked m p 512 addr r)
    → addr ≡ (frame m.pool + p) * 4096
    → p + 512 ≤ m.pool.pool_phys_page_num
    → addr ≤ x
    → x < addr + 2 ^ 21
    → home k.after x ≡ addr
unfolding home
home-Marked {m} p addr x k at room lo hi =
    let q = p + (x - addr) / 4096 in
    let found : virt_to_page k.after x ≡ ok q =
      ap (virt_to_page k.after) (omega (arith, k.same_start))
      ∙ virt_to_page_lem k.placed q (x % 4096) (omega (arith, k.same_num)) (omega arith) in
    ap (λ (r : Result ℕ). elim r [ Result.ok i ↦ (k.after.pages i).slab | _ ↦ 0 ]) found
    ∙ k.marked q (omega arith) (omega arith)

length-slots_from :
    (rounds obj_size slot : ℕ) → length (slots_from rounds obj_size slot) ≡ rounds + 1
unfolding slots_from
length-slots_from zero obj_size slot = refl
length-slots_from (suc rounds) obj_size slot =
    omega (arith, length-slots_from rounds obj_size (slot + obj_size))

-- The slots end inside the slab.
slots_fit :
    (obj_size : ℕ)
    → 32 ≤ obj_size
    → obj_size ≤ 2048
    → (obj_size + (2 ^ 21 / obj_size - 1 - 1) * obj_size < 2 ^ 21) × (2 ≤ 2 ^ 21 / obj_size)
slots_fit obj_size lo hi =
    let n = 2 ^ 21 / obj_size in
    let two : 2 ≤ n =
      (le-div_iff_mul-le {k = obj_size} {x = 2} {y = 2 ^ 21} (omega arith)).1 (omega arith) in
    let e : n ≡ suc (suc (n - 1 - 1)) = omega arith in
    let product : n * obj_size ≡ suc (suc (n - 1 - 1)) * obj_size =
      ap (λ (t : ℕ). t * obj_size) e in
    (omega (arith, div-mul-le_self (2 ^ 21) obj_size, product), two)

get_pages-none :
    (m : Machine) → buddy_get_pages m.pool 9 ≡ ok (m.pool, none) → get_pages m 9 ≡ ok (m, 0)
unfolding get_pages
get_pages-none m e = rw e refl

get_pages-some :
    (page addr : ℕ) (m : Machine) (after : Pool)
    → buddy_get_pages m.pool 9 ≡ ok (after, some page)
    → page_to_virt after page ≡ ok addr
    → get_pages m 9 ≡ ok (record m { pool = after }, addr)
unfolding get_pages
get_pages-some page addr m after e at = rw (e, at) refl

-- What alloc_slab_memory does with the pages.
after_pages : ℕ → Machine × ℕ → Result (Machine × ℕ)
after_pages order (m, addr) =
    virt_to_page m.pool addr >>= λ (p : ℕ). mark_pages (2 ^ order) 0 addr m >>= λ m'. ok (m', addr)

order_of_slab : size_to_order 512 ≡ 9
unfolding size_to_order
order_of_slab = refl

alloc_pages : (m : Machine) → alloc_slab_memory m (2 ^ 21) ≡ (get_pages m 9 >>= after_pages 9)
unfolding alloc_slab_memory after_pages
alloc_pages m = ap (λ (k : ℕ). get_pages m k >>= after_pages k) order_of_slab

alloc_run :
    (addr p : ℕ) (m m1 m2 : Machine)
    → get_pages m 9 ≡ ok (m1, addr)
    → virt_to_page m1.pool addr ≡ ok p
    → mark_pages 512 0 addr m1 ≡ ok m2
    → alloc_slab_memory m (2 ^ 21) ≡ ok (m2, addr)
unfolding after_pages
alloc_run addr p m m1 m2 e found marked =
    alloc_pages m
    ∙ ap (λ r. r >>= after_pages 9) e
    ∙ ap (λ (r : Result ℕ). r >>= λ (p : ℕ). mark_pages 512 0 addr m1 >>= λ m'. ok (m', addr)) found
    ∙ ap (λ r. r >>= λ m'. ok (m', addr)) marked

no_page : (s : Pool) → IsPlaced s → 0 < s.pool_start_addr → virt_to_page s 0 ≡ Result.bug
unfolding virt_to_page
no_page s placed pos = ground (arith, placed.high, placed.size)

init_failed :
    (order : ℕ) (m : Machine)
    → get_pages m 9 ≡ ok (m, 0)
    → virt_to_page m.pool 0 ≡ Result.bug
    → init_slab_cache m order (2 ^ 21) ≡ Result.bug
unfolding init_slab_cache after_pages
init_failed order m e bad =
    let failed : alloc_slab_memory m (2 ^ 21) ≡ Result.bug =
      alloc_pages m
      ∙ ap (λ r. r >>= after_pages 9) e
      ∙ ap (λ (r : Result ℕ). r >>= λ (p : ℕ). mark_pages 512 0 0 m >>= λ m'. ok (m', 0)) bad in
    rw failed refl

-- A new slab, as a chain of one.
pub record Made (order : ℕ) (r : Result (Machine × ℕ)) : Type 0 where
  pub after : Machine
  pub slab : ℕ
  pub slots : List ℕ
  pub all_slots : slots ≡ slots_from (2 ^ 21 / 2 ^ order - 1 - 1) (2 ^ order) (slab + 2 ^ order)
  -- The header takes the place of one.
  pub number : length slots + 1 ≡ 2 ^ 21 / 2 ^ order
  pub returns : r ≡ ok (after, slab)
  pub slabs : IsSlabs after.mem slab ((slab, slots) ∷ [])
  pub once : (a : ℕ) → weight a ((slab, slots) ∷ []) ≤ 1
  pub at_home : homed after.pool ((slab, slots) ∷ []) ≡ true

-- The slab in a chunk that the buddy allocator grants.
make_slab :
    (order : ℕ) {own : ℕ → ℕ} (m : Machine)
    → 5 ≤ order
    → order ≤ 11
    → 0 < m.pool.pool_start_addr
    → Granted m.pool own 9 (buddy_get_pages m.pool 9)
    → Made order (init_slab_cache m order (2 ^ 21))
unfolding homed
make_slab order m lo hi pos g =
    let p = g.page in
    let addr = (frame g.after + p) * 4096 in
    let pN : p < g.after.pool_phys_page_num = omega (arith, g.inside, g.num) in
    let fits : p + 512 ≤ g.after.pool_phys_page_num =
      subst (λ (k : ℕ). p + 2 ^ k ≤ g.after.pool_phys_page_num) g.exact
        (g.valid.tiling.fits p pN g.head) in
    let m1 = record m { pool = g.after } in
    let found : virt_to_page g.after addr ≡ ok p =
      ap (virt_to_page g.after) (omega arith)
      ∙ virt_to_page_lem g.valid.placed p 0 pN (omega arith) in
    let k = mark_pages-Marked 512 0 addr p m1 g.valid.placed (omega arith) fits in
    let got =
      alloc_run addr p m m1 (record m1 { pool = k.after })
        (get_pages-some p addr m g.after g.returns (page_to_virt_lem g.valid.placed p pN)) found
        k.returns in
    let n =
      init_slab_cache-NewSlab order (2 ^ 21) addr m (record m1 { pool = k.after }) got
        (omega (arith, pos, g.start, g.valid.placed.start_aligned)) lo in
    let size = 2 ^ order in
    let fit =
      slots_fit size (two-pow_mono {j = 5} {k = order} lo) (two-pow_mono {j = order} {k = 11} hi) in
    let rounds = 2 ^ 21 / size - 1 - 1 in
    let homes : homed_slots k.after addr (slots_from rounds size (addr + size)) ≡ true =
      homed-slots_from rounds size (addr + size) addr k.after
        (λ x lo' hi'. home-Marked p addr x k refl fits (omega arith) (omega (arith, fit.0))) in
    record {
      after = n.after;
      slab = addr;
      slots = slots_from rounds size (addr + size);
      all_slots = refl;
      number = omega (arith, length-slots_from rounds size (addr + size), fit.1);
      returns = n.returns;
      slabs = n.slabs;
      once = n.once;
      at_home =
          ap (λ pool. homed pool ((addr, slots_from rounds size (addr + size)) ∷ [])) n.same_pool
          ∙ ap (λ b. b && true) homes;
    }

-- On a valid pool that does not start at NULL, init_slab_cache of a slab of 2M for an order from
-- 5 to 11 either fires the BUG_ON of virt_to_page, and then no list of chunks of 2M or more has
-- one, or returns a slab whose slots follow the header one after the other up to the end of the
-- 2M and are all free; no two of the words of the header and the slots are the same, and the
-- pages of all slots belong to the slab.
pub init_slab_cache-Made :
    (order : ℕ) {own : ℕ → ℕ} (m : Machine)
    → IsValid m.pool own
    → 0 < m.pool.pool_start_addr
    → 5 ≤ order
    → order ≤ 11
    → ((init_slab_cache m order (2 ^ 21) ≡ Result.bug)
        × ((j : ℕ) → 9 ≤ j → j < 14 → m.pool.free_list j ≡ []))
      ⊎ Made order (init_slab_cache m order (2 ^ 21))
unfolding Search
init_slab_cache-Made order m v pos lo hi = elim (buddy_get_pages-Search 9 v (omega arith)) [
  | inl (none_left, empty) ↦
      inl (init_failed order m (get_pages-none m none_left) (no_page m.pool v.placed pos), empty)
  | inr g ↦ inr (make_slab order m lo hi pos g)
]
