-- ===== src/Buddy/Alloc.antt =====
-- buddy_get_pages of buddy.c: a chunk leaves its list, and is handed out.
pub mod Find
use chcore_lab_v.Base.{
  ℕ, ◌+◌, ◌*◌, ◌^◌, ◌<◌, ◌≡◌, ◌≢◌, ap, subst, true, false, update, contains, length, erase,
  erase_of_not-contains, length-erase, contains-erase_ne, contains-erase_self, IsDistinct-erase,
  sub64, arith,
}
use chcore_lab_v.Buddy.{Pool, set_allocated, remove_free}
use chcore_lab_v.Buddy.Invariant.{order_of, IsValid}
use chcore_lab_v.Buddy.Weight.{weight_below-update, free_pages}
use chcore_lab_v.Buddy.Split.{length-free_list}
use chcore_lab_v.Buddy.Step.{Floats}
use chcore_lab_v.Buddy.Free.{IsTiling-set_allocated, IsPlaced-set_allocated}

module _ {s : Pool} {own : ℕ → ℕ} (v : IsValid s own) (k p : ℕ)
    (on_list : contains p (s.free_list k) ≡ true) where
  pub facts :
      (p < s.pool_phys_page_num)
      × (own p ≡ p)
      × ((s.pages p).allocated ≡ false)
      × ((s.pages p).order ≡ k)
      × (p ≢ s.pool_phys_page_num)
  facts = v.lists.listed k p on_list

  length_off : (j : ℕ) → j ≢ k → length (erase p (s.free_list j)) ≡ length (s.free_list j)
  length_off j ne =
      ap length
        (erase_of_not-contains p (s.free_list j) (ground (arith, v.lists.listed j p, facts)))

  counted_down : sub64 (s.nr_free k) 1 + 1 ≡ s.nr_free k
  counted_down = omega (
    arith,
    v.lists.counted k,
    length-free_list v k,
    v.placed.high,
    length-erase p (s.free_list k) on_list,
  )

  -- A chunk that is taken off its list floats.
  pub remove_free-Floats : Floats (remove_free p s) own p
  remove_free-Floats = record {
    valid = record {
      placed = record {
        start_aligned = v.placed.start_aligned;
        size = v.placed.size;
        high = v.placed.high;
        linked = v.placed.linked;
      };
      tiling = v.tiling;
      lists = record {
        listed = λ j q h. ground (
          arith,
          v.lists.listed j q,
          contains-erase_ne q p (s.free_list j),
          contains-erase_self p (s.free_list j),
          v.lists.distinct j,
        );
        complete = λ q qN hq fq ne.
            ground (arith, v.lists.complete q, contains-erase_ne q p (s.free_list (order_of s q)));
        distinct = λ j. IsDistinct-erase p (s.free_list j) (v.lists.distinct j);
        counted = λ j. ground (
          arith,
          facts,
          v.lists.counted j,
          counted_down,
          length-erase p (s.free_list k) on_list,
          length_off j,
        );
      };
    };
    inside = facts.0;
    head = facts.1;
    is_free = facts.2;
  }

  pub free_pages-remove_free : free_pages (remove_free p s) + 2 ^ k ≡ free_pages s
  free_pages-remove_free = omega (
    arith,
    ap
        (λ (n : ℕ).
          free_pages
            (record (remove_free p s) { nr_free = update s.nr_free n (sub64 (s.nr_free n) 1) }))
        facts.3,
    weight_below-update 14 k (sub64 (s.nr_free k) 1) s.nr_free
        (subst (λ n. n < 14) facts.3 (v.tiling.small p facts.0 facts.1)),
    ap (λ (x : ℕ). x * 2 ^ k) counted_down,
  )

-- The floating chunk is handed out.
pub set_allocated-IsValid :
    {s : Pool} {own : ℕ → ℕ} {p : ℕ} → Floats s own p → IsValid (set_allocated p true s) own
set_allocated-IsValid {s} {own} {p} f = record {
  placed = IsPlaced-set_allocated p true f.valid.placed;
  tiling = IsTiling-set_allocated s p true f.valid.tiling;
  lists = record {
    listed = λ j q h. ground (arith, f.valid.lists.listed j q);
    complete = λ q qN hq fq ne. ground (arith, f.valid.lists.complete q);
    distinct = f.valid.lists.distinct;
    counted = f.valid.lists.counted;
  };
}
