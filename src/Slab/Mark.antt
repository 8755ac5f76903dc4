-- ===== src/Slab/Mark.antt =====
-- The loop of alloc_slab_memory of kernel/mm/slab.c: the pages of a slab belong to it.
use chcore_lab_v.Base.{
  ℕ, zero, suc, ◌+◌, ◌*◌, ◌≤◌, ◌<◌, ◌≡◌, refl, ap, ◌∙◌, Result, ok, add64, arith, ℕ_discrete,
}
use chcore_lab_v.Buddy.{Page, Pool, virt_to_page, set_page}
use chcore_lab_v.Buddy.Invariant.{IsPlaced, frame}
use chcore_lab_v.Buddy.Chunk.{virt_to_page_lem}
use chcore_lab_v.Machine.{Machine}
use chcore_lab_v.Slab.{mark_pages}

-- What the loop leaves behind: `n` pages from `p` on belong to the slab at `addr`.
pub record Marked (m : Machine) (p n addr : ℕ) (r : Result Machine) : Type 0 where
  pub after : Pool
  pub returns : r ≡ ok (record m { pool = after })
  pub placed : IsPlaced after
  pub same_start : after.pool_start_addr ≡ m.pool.pool_start_addr
  pub same_num : after.pool_phys_page_num ≡ m.pool.pool_phys_page_num
  pub marked : (q : ℕ) → p ≤ q → q < p + n → (after.pages q).slab ≡ addr
  pub others : (q : ℕ) → (q < p) → after.pages q ≡ m.pool.pages q

abbrev set_slab : ℕ → ℕ → Pool → Pool
set_slab p addr s = set_page p (record (s.pages p) { slab = addr }) s

set_slab-IsPlaced : (p addr : ℕ) (s : Pool) → IsPlaced s → IsPlaced (set_slab p addr s)
set_slab-IsPlaced p addr s placed = record {
  start_aligned = placed.start_aligned;
  size = placed.size;
  high = placed.high;
  linked = λ i iN. elim (ℕ_discrete i p) [
    | yes e ↦ ground (arith, placed.linked i iN, ap (λ (q : ℕ). (s.pages q).in_pool) e)
    | no ne ↦ ground (arith, placed.linked i iN)
  ];
}

mark_pages-suc :
    (rounds i addr p : ℕ) (m : Machine)
    → virt_to_page m.pool (add64 addr (i * 4096)) ≡ ok p
    → mark_pages (suc rounds) i addr m
      ≡ mark_pages rounds (i + 1) addr (record m { pool = set_slab p addr m.pool })
unfolding mark_pages
mark_pages-suc rounds i addr p m e = rw e refl

pub mark_pages-Marked :
    (rounds i addr p : ℕ) (m : Machine)
    → IsPlaced m.pool
    → addr + i * 4096 ≡ (frame m.pool + p) * 4096
    → p + rounds ≤ m.pool.pool_phys_page_num
    → Marked m p rounds addr (mark_pages rounds i addr m)
unfolding mark_pages
mark_pages-Marked zero i addr p m placed at room = record {
  after = m.pool;
  returns = refl;
  placed = placed;
  same_start = refl;
  same_num = refl;
  marked = λ q lo hi. absurd (omega arith);
  others = λ q lo. refl;
}
mark_pages-Marked (suc rounds) i addr p m placed at room =
    let m' = record m { pool = set_slab p addr m.pool } in
    let found : virt_to_page m.pool (add64 addr (i * 4096)) ≡ ok p =
      ap (virt_to_page m.pool) (omega (arith, placed.high, placed.start_aligned))
      ∙ virt_to_page_lem placed p 0 (omega arith) (omega arith) in
    let here : (m'.pool.pages p).slab ≡ addr = ground arith in
    let before : (q : ℕ) → q < p → m'.pool.pages q ≡ m.pool.pages q = λ q lo. ground arith in
    let rest =
      mark_pages-Marked rounds (i + 1) addr (p + 1) m' (set_slab-IsPlaced p addr m.pool placed)
        (omega (arith, at)) (omega arith) in
    record {
      after = rest.after;
      returns = mark_pages-suc rounds i addr p m found ∙ rest.returns;
      placed = rest.placed;
      same_start = rest.same_start;
      same_num = rest.same_num;
      marked = λ q lo hi. elim (ℕ_discrete q p) [
        | yes e ↦
            ap (λ (a : ℕ). (rest.after.pages a).slab) e
            ∙ ap (λ (g : Page). g.slab) (rest.others p (omega arith))
            ∙ here
        | no ne ↦ rest.marked q (omega arith) (omega arith)
      ];
      others = λ q lo. rest.others q (omega arith) ∙ before q lo;
    }
