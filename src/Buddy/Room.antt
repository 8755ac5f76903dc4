-- ===== src/Buddy/Room.antt =====
-- What full merging in buddy.c is for: aligned free pages lie in one chunk, so that a request for
-- them is granted.
use chcore_lab_v.Base.{
  ℕ, zero, suc, ◌+◌, ◌/◌, ◌^◌, ◌≤◌, ◌<◌, ◌≡◌, refl, sym, ap, subst, ◌∙◌, inl, inr, false, arith,
  dec_lt,
}
use chcore_lab_v.Base.Pow.{
  two-pow-suc, two-pow-pos, IsAligned, IsAligned-down, div-two-pow-le, eq_of_same_block,
}
use chcore_lab_v.Buddy.{Pool, buddy_get_pages}
use chcore_lab_v.Buddy.Tiling.{own_of_same_block, own_block, upper_half}
use chcore_lab_v.Buddy.Invariant.{frame, order_of, IsValid, IsMerged}
use chcore_lab_v.Buddy.Alloc.Find.{Granted, buddy_get_pages-Granted}

-- The `2 ^ k` pages from `p` on are a block of page frames inside the pool, in free chunks.
pub record IsFreeBlock (s : Pool) (own : ℕ → ℕ) (k p : ℕ) : Type 0 where
  pub inside : p + 2 ^ k ≤ s.pool_phys_page_num
  pub aligned : IsAligned k (frame s + p)
  pub all_free : (i : ℕ) → p ≤ i → i < p + 2 ^ k → (s.pages (own i)).allocated ≡ false

module _ {s : Pool} {own : ℕ → ℕ} (v : IsValid s own) where
  -- The owner of an aligned page whose chunk is as small as the alignment is the page itself.
  own_self :
      (k p : ℕ)
      → p < s.pool_phys_page_num
      → IsAligned k (frame s + p)
      → order_of s (own p) ≡ k
      → own p ≡ p
  own_self k p pN al e =
      let at = v.tiling.own_in p pN in
      let head : IsAligned k (frame s + own p) =
        subst (λ n. IsAligned n (frame s + own p)) e
          (v.tiling.aligned (own p) (omega arith) at.2) in
      let same : (frame s + p) / 2 ^ k ≡ (frame s + own p) / 2 ^ k =
        subst (λ n. (frame s + p) / 2 ^ n ≡ (frame s + own p) / 2 ^ n) e
          (own_block v.tiling p pN) in
      let eq = eq_of_same_block k (frame s + p) (frame s + own p) al head same in omega arith

  -- A chunk that is larger than the half it holds holds the other half too.
  own_twin :
      (k p q : ℕ)
      → p < s.pool_phys_page_num
      → q < s.pool_phys_page_num
      → (frame s + p) / 2 ^ suc k ≡ (frame s + q) / 2 ^ suc k
      → suc k ≤ order_of s (own q)
      → own p ≡ own q
  own_twin k p q pN qN same le =
      let at = v.tiling.own_in q qN in
      own_of_same_block v.tiling (own q) p (omega arith) at.2 (
        div-two-pow-le (suc k) (order_of s (own q)) (frame s + p) (frame s + q) le same
        ∙ own_block v.tiling q qN)

  halves_of_block :
      (k p : ℕ)
      → IsFreeBlock s own (suc k) p
      → IsFreeBlock s own k p × IsFreeBlock s own k (p + 2 ^ k)
  halves_of_block k p b = (
    record {
      inside = omega (arith, b.inside, two-pow-suc k);
      aligned = IsAligned-down k (suc k) (frame s + p) (omega arith) b.aligned;
      all_free = λ i lo hi. b.all_free i lo (omega (arith, two-pow-suc k));
    },
    record {
      inside = omega (arith, b.inside, two-pow-suc k);
      aligned = subst (IsAligned k) (omega arith) (upper_half k (frame s + p) b.aligned).0;
      all_free = λ i lo hi. b.all_free i (omega arith) (omega (arith, two-pow-suc k));
    },
  )

  no_twins :
      (k p : ℕ)
      → IsMerged s own
      → k < 13
      → IsFreeBlock s own (suc k) p
      → own p ≡ p
      → own (p + 2 ^ k) ≡ p + 2 ^ k
      → order_of s p ≡ k
      → ¬ (order_of s (p + 2 ^ k) ≡ k)
  no_twins k p m small b hp hq op oq =
      let pos = two-pow-pos k in
      let double = two-pow-suc k in
      let free_p = b.all_free p (omega arith) (omega arith) in
      let free_q = b.all_free (p + 2 ^ k) (omega arith) (omega arith) in
      elim (m k p (p + 2 ^ k) small (
        refl,
        omega (arith, b.inside),
        b.aligned,
        hp,
        hq,
        op,
        oq,
        ap (λ (x : ℕ). (s.pages x).allocated) (sym hp) ∙ free_p,
        ap (λ (x : ℕ). (s.pages x).allocated) (sym hq) ∙ free_q,
      )) [ inl e ↦ omega (arith, b.inside) | inr e ↦ omega (arith, b.inside) ]

  -- When nothing is left to merge, a free block lies in one chunk.
  pub order-le_of_block :
      (k p : ℕ) → IsMerged s own → k < 14 → IsFreeBlock s own k p → k ≤ order_of s (own p)
  order-le_of_block zero p m small b = omega arith
  order-le_of_block (suc k) p m small b =
      let h = halves_of_block k p b in
      let q = p + 2 ^ k in
      let pN : p < s.pool_phys_page_num = omega (arith, b.inside, two-pow-pos (suc k)) in
      let qN : q < s.pool_phys_page_num = omega (arith, h.1.inside, two-pow-pos k) in
      let low = order-le_of_block k p m (omega arith) h.0 in
      let high = order-le_of_block k q m (omega arith) h.1 in
      let same : (frame s + p) / 2 ^ suc k ≡ (frame s + q) / 2 ^ suc k =
        sym (
          ap (λ (x : ℕ). x / 2 ^ suc k) (omega arith) ∙ (upper_half k (frame s + p) b.aligned).1) in
      elim (dec_lt k (order_of s (own p))) [
        | yes larger ↦ larger
        | no other ↦ elim (dec_lt k (order_of s (own q))) [
          | yes larger ↦ rw (own_twin k p q pN qN same larger) larger
          | no other' ↦
              let hp = own_self k p pN h.0.aligned (omega arith) in
              let hq = own_self k q qN h.1.aligned (omega arith) in
              absurd (
                no_twins k p m (omega arith) b hp hq (ap (order_of s) (sym hp) ∙ omega arith)
                  (ap (order_of s) (sym hq) ∙ omega arith))
        ]
      ]

-- On a valid pool with no two free buddies of one order below 13 left unmerged, buddy_get_pages
-- grants a request of an order below 14 whenever an aligned block of that many pages inside the
-- pool lies in free chunks, however the free pages are divided into chunks.
pub buddy_get_pages-FreeBlock :
    {s : Pool} {own : ℕ → ℕ} (order p : ℕ)
    → IsValid s own
    → IsMerged s own
    → order < 14
    → IsFreeBlock s own order p
    → Granted s own order (buddy_get_pages s order)
buddy_get_pages-FreeBlock {s} {own} order p v m small b =
    let pN : p < s.pool_phys_page_num = omega (arith, b.inside, two-pow-pos order) in
    let at = v.tiling.own_in p pN in
    buddy_get_pages-Granted order (own p) v (omega arith) at.2
      (b.all_free p (omega arith) (omega (arith, two-pow-pos order)))
      (order-le_of_block v order p m small b)
