-- ===== src/Buddy/RoundTrip.antt =====
-- buddy_get_pages followed by buddy_free_pages.
use chcore_lab_v.Base.{
  ℕ, ◌^◌, ◌<◌, ◌≡◌, sym, ap, ◌∙◌, inl, inr, true, Option, Result, ok, Bool-cases, arith,
}
use chcore_lab_v.Buddy.{Pool, buddy_free_pages}
use chcore_lab_v.Buddy.Invariant.{IsValid}
use chcore_lab_v.Buddy.Weight.{free_pages}
use chcore_lab_v.Buddy.Free.{Freed, buddy_free_pages-Freed}
use chcore_lab_v.Buddy.Alloc.Find.{Granted}

module _ {s : Pool} {own : ℕ → ℕ} {order : ℕ} {r : Result (Pool × Option ℕ)} (v : IsValid s own)
    (g : Granted s own order r) where
  num_g : {i : ℕ} → i < s.pool_phys_page_num → i < g.after.pool_phys_page_num
  num_g h = omega (arith, g.num)

  freed : Freed g.after g.owner g.page (buddy_free_pages g.after g.page)
  freed = buddy_free_pages-Freed g.page g.valid (num_g g.inside) g.head g.taken

  num_f : {i : ℕ} → i < s.pool_phys_page_num → i < freed.after.pool_phys_page_num
  num_f h = omega (arith, g.num, freed.num)

  -- An allocated chunk of the first pool is the owner of its pages in the last.
  still_owned :
      (i : ℕ)
      → i < s.pool_phys_page_num
      → (s.pages (own i)).allocated ≡ true
      → (freed.owner i ≡ own i) × ((freed.after.pages (own i)).allocated ≡ true)
  still_owned i iN taken =
      let at = v.tiling.own_in i iN in
      let inside : own i < s.pool_phys_page_num = omega arith in
      let there = g.kept (own i) inside at.2 taken in
      let back = freed.kept (own i) (num_g inside) there.3 there.0 there.1 in
      let size = ap (λ (x : ℕ). 2 ^ x) (back.2 ∙ there.2) in
      (freed.valid.tiling.own_all (own i) i (num_f inside) back.0 at.0 (omega arith), back.1)

  -- And the other way round.
  owned_before :
      (i : ℕ)
      → i < s.pool_phys_page_num
      → (freed.after.pages (freed.owner i)).allocated ≡ true
      → (s.pages (own i)).allocated ≡ true
  owned_before i iN taken =
      let q = freed.owner i in
      let at = freed.valid.tiling.own_in i (num_f iN) in
      let inside : q < s.pool_phys_page_num = omega arith in
      let back = freed.origin q (num_g inside) at.2 taken in
      let there = g.origin q inside back.2 back.0 back.1 in
      let kept = g.kept q inside there.0 there.1 in
      let kept' = freed.kept q (num_g inside) back.2 back.0 back.1 in
      let size = ap (λ (x : ℕ). 2 ^ x) (kept'.2 ∙ kept.2) in
      let owns = v.tiling.own_all q i inside there.0 at.0 (omega arith) in
      ap (λ (x : ℕ). (s.pages x).allocated) owns ∙ there.1

  same_status :
      (i : ℕ)
      → i < s.pool_phys_page_num
      → (freed.after.pages (freed.owner i)).allocated ≡ (s.pages (own i)).allocated
  same_status i iN = elim (Bool-cases (s.pages (own i)).allocated) [
    | inl taken ↦
        let r = still_owned i iN taken in
        ap (λ (x : ℕ). (freed.after.pages x).allocated) r.0 ∙ r.1 ∙ sym taken
    | inr is_free ↦ elim (Bool-cases (freed.after.pages (freed.owner i)).allocated) [
      | inl taken ↦ taken ∙ sym (owned_before i iN taken)
      | inr is_free' ↦ is_free' ∙ sym is_free
    ]
  ]

  -- On a valid pool, freeing a chunk right after buddy_get_pages granted it returns, leaves the
  -- pool valid, each page allocated or free as it was before the request, and the free lists
  -- accounting for as many pages.
  pub buddy_get_pages_undo :
      (after : Pool) × (owner : ℕ → ℕ) × (buddy_free_pages g.after g.page ≡ ok after)
      × IsValid after owner
      × (free_pages after ≡ free_pages s)
      × ((i : ℕ)
          → i < s.pool_phys_page_num
          → (after.pages (owner i)).allocated ≡ (s.pages (own i)).allocated)
  buddy_get_pages_undo = (
    freed.after,
    freed.owner,
    freed.returns,
    freed.valid,
    omega (arith, freed.balance, g.balance, ap (λ (x : ℕ). 2 ^ x) g.exact),
    same_status,
  )
