-- ===== src/Buddy/Size.antt =====
-- get_free_mem_size_from_buddy of buddy.c.
use chcore_lab_v.Base.{
  ℕ, zero, suc, ◌+◌, ◌*◌, ◌%◌, ◌^◌, ◌<◌, ◌≡◌, refl, sym, ap, ◌∙◌, Bool, true, false, not, ◌&&◌,
  ◌||◌, List, [], ◌∷◌, ltb, leb, ◌==◌, eq_of_==, inl, inr, Bool-cases, length, contains,
  contains_head, IsDistinct, add64, mul64, arith,
}
use native.Mathlib.Numerals.{add-one}
use chcore_lab_v.Base.Count.{
  count_below, count_below-le, count_below_congr, count_below-or, count_below-none,
  count_below-interval,
}
use chcore_lab_v.Buddy.{Pool, free_mem_from, get_free_mem_size_from_buddy}
use chcore_lab_v.Buddy.Tiling.{IsTiling}
use chcore_lab_v.Buddy.Invariant.{order_of, IsValid}
use chcore_lab_v.Buddy.Weight.{weight_below, free_pages}

module _ {F N : ℕ} {o own : ℕ → ℕ} (t : IsTiling F N o own) where
  owned_test :
      (h i : ℕ) → h < N → own h ≡ h → i < N → (own i == h) ≡ (leb h i && ltb i (h + 2 ^ o h))
  owned_test h i hN head iN =
      ground (arith, t.own_in i iN, t.own_all h i hN head, ap (λ (x : ℕ). own i + 2 ^ o x))

  count_chunk : (h : ℕ) → h < N → own h ≡ h → count_below N (λ i. own i == h) ≡ 2 ^ o h
  count_chunk h hN head =
      count_below_congr N (λ i. own i == h) (λ i. leb h i && ltb i (h + 2 ^ o h))
        (λ i iN. owned_test h i hN head iN)
      ∙ count_below-interval N h (2 ^ o h) (t.fits h hN head)

  -- The pages that the chunks of one list own.
  count_list :
      (k : ℕ) (xs : List ℕ)
      → IsDistinct xs
      → ((h : ℕ) → contains h xs ≡ true → (h < N) × (own h ≡ h) × (o h ≡ k))
      → count_below N (λ i. contains (own i) xs) ≡ length xs * 2 ^ k
  count_list k [] d chunks = count_below-none N (λ i. false) (λ i lt. refl) ∙ omega arith
  count_list k (x ∷ xs) d chunks =
      let c = chunks x (contains_head x xs) in
      count_below-or N (λ i. own i == x) (λ i. contains (own i) xs) (λ i lt. ground (arith, d))
      ∙ omega (
        arith,
        count_chunk x c.0 c.1,
        ap (λ (n : ℕ). 2 ^ n) c.2,
        count_list k xs d.1 (λ h on. chunks h (ground arith)),
      )

-- The owner of page `i` is on one of the first `n` lists.
on_lists : Pool → (ℕ → ℕ) → ℕ → ℕ → Bool
on_lists s own zero i = false
on_lists s own (suc n) i = on_lists s own n i || contains (own i) (s.free_list n)

module _ {s : Pool} {own : ℕ → ℕ} (v : IsValid s own) where
  on_lists_facts :
      (n i : ℕ)
      → on_lists s own n i ≡ true
      → (order_of s (own i) < n) × ((s.pages (own i)).allocated ≡ false)
  unfolding on_lists
  on_lists_facts zero i h = cc
  on_lists_facts (suc n) i h = ground (arith, on_lists_facts n i, v.lists.listed n (own i))

  on_lists_intro :
      (n k i : ℕ) → k < n → contains (own i) (s.free_list k) ≡ true → on_lists s own n i ≡ true
  unfolding on_lists
  on_lists_intro zero k i lt on = absurd (omega arith)
  on_lists_intro (suc n) k i lt on = elim (Bool-cases (k == n)) [
    | inl here ↦
        ground (arith, ap (λ (j : ℕ). contains (own i) (s.free_list j)) (eq_of_== k n here))
    | inr below ↦ ground (arith, on_lists_intro n k i)
  ]

  on_lists-free :
      (i : ℕ) → i < s.pool_phys_page_num → on_lists s own 14 i ≡ not (s.pages (own i)).allocated
  on_lists-free i iN =
      let at = v.tiling.own_in i iN in
      ground (
        arith,
        on_lists_facts 14 i,
        on_lists_intro 14 (order_of s (own i)) i,
        v.tiling.small (own i),
        v.lists.complete (own i),
      )

  count_lists :
      (n : ℕ) → count_below s.pool_phys_page_num (on_lists s own n) ≡ weight_below n s.nr_free
  unfolding weight_below on_lists
  count_lists zero = count_below-none s.pool_phys_page_num (λ i. false) (λ i lt. refl)
  count_lists (suc n) =
      count_below-or s.pool_phys_page_num (on_lists s own n) (λ i. contains (own i) (s.free_list n))
        (λ i iN. ground (arith, on_lists_facts n i, v.lists.listed n (own i)))
      ∙ omega (
        arith,
        count_lists n,
        count_list v.tiling n (s.free_list n) (v.lists.distinct n)
            (λ h on. (let l = v.lists.listed n h on in (l.0, l.1, l.3))),
        ap (λ (x : ℕ). x * 2 ^ n) (v.lists.counted n),
      )

  -- The free lists account for exactly the pages that lie in a free chunk.
  pub free_pages-count :
      free_pages s ≡ count_below s.pool_phys_page_num (λ i. not (s.pages (own i)).allocated)
  free_pages-count =
      sym (count_lists 14)
      ∙ count_below_congr s.pool_phys_page_num (on_lists s own 14)
          (λ i. not (s.pages (own i)).allocated) on_lists-free

-- The sum over the orders, without the wrap of each step.
free_mem_from_lem :
    (n rounds order total : ℕ) (s : Pool)
    → order + rounds ≡ n
    → (free_mem_from rounds order s total + 4096 * weight_below order s.nr_free) % 2 ^ 64
      ≡ (total + 4096 * weight_below n s.nr_free) % 2 ^ 64
unfolding free_mem_from weight_below
free_mem_from_lem n zero order total s e =
    let end : order ≡ n = omega arith in
    ap (λ (k : ℕ). (total + 4096 * weight_below k s.nr_free) % 2 ^ 64) end
free_mem_from_lem n (suc rounds) order total s e = omega (
  arith,
  free_mem_from_lem n rounds (order + 1) (add64 total (mul64 (s.nr_free order) (4096 * 2 ^ order)))
      s (omega arith),
  ap (λ (k : ℕ). weight_below k s.nr_free) (add-one order),
)

free_mem_from-lt :
    (rounds order total : ℕ) (s : Pool)
    → total < 2 ^ 64
    → free_mem_from rounds order s total < 2 ^ 64
unfolding free_mem_from
free_mem_from-lt zero order total s h = h
free_mem_from-lt (suc rounds) order total s h =
    free_mem_from-lt rounds (order + 1) (add64 total (mul64 (s.nr_free order) (4096 * 2 ^ order))) s
      (omega arith)

-- On a valid pool get_free_mem_size_from_buddy is 4096 times the number of pages that lie in free
-- chunks.
pub get_free_mem_size_from_buddy-count :
    {s : Pool} {own : ℕ → ℕ}
    → IsValid s own
    → get_free_mem_size_from_buddy s
      ≡ 4096 * count_below s.pool_phys_page_num (λ i. not (s.pages (own i)).allocated)
unfolding get_free_mem_size_from_buddy
get_free_mem_size_from_buddy-count {s} {own} v =
    let empty : weight_below 0 s.nr_free ≡ 0 = unfold weight_below in refl in
    omega (
      arith,
      empty,
      free_mem_from_lem 14 14 0 0 s refl,
      free_mem_from-lt 14 0 0 s (omega arith),
      free_pages-count v,
      count_below-le s.pool_phys_page_num (λ i. not (s.pages (own i)).allocated),
      v.placed.high,
    )
