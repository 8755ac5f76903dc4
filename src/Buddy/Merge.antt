-- ===== src/Buddy/Merge.antt =====
-- merge_page of buddy.c: one merge.
pub mod Loop
pub mod Maximal
use chcore_lab_v.Base.{
  ℕ, suc, ◌+◌, ◌-◌, ◌*◌, ◌^◌, ◌≤◌, ◌<◌, ◌≡◌, ◌≢◌, refl, sym, ap, subst, ◌⊎◌, true, false, ltb, ◌==◌,
  ok, some, update, contains, length, erase, contains-erase_ne, contains-erase_self,
  IsDistinct-erase, length-erase, erase_of_not-contains, sub64, arith,
}
use chcore_lab_v.Base.Pow.{two-pow-pos, two-pow-suc, IsAligned}
use chcore_lab_v.Buddy.Chunk.{FoundBuddy}
use chcore_lab_v.Buddy.{Pool, unlink, remove_free, join, merge_page, get_buddy_chunk}
use chcore_lab_v.Buddy.Tiling.{IsTiling, own_chunk}
use chcore_lab_v.Buddy.Tiling.Join.{join-IsTiling}
use chcore_lab_v.Buddy.Invariant.{frame, order_of, IsPlaced, IsListed, IsMergedBut}
use chcore_lab_v.Buddy.Weight.{weight_below-update}
use chcore_lab_v.Buddy.Split.{length-free_list}
use chcore_lab_v.Buddy.Step.{Floats, Moves}

-- The pool after `b`, on the list of order `k`, has been merged into a chunk that starts at `l`.
abbrev pub joined : Pool → ℕ → ℕ → ℕ → Pool
joined s b l k = record s {
  pages = update s.pages l (record (s.pages l) { order = suc k });
  free_list = unlink b s.free_list;
  nr_free = update s.nr_free k (sub64 (s.nr_free k) 1);
}

module _ {s : Pool} {own : ℕ → ℕ} {p b : ℕ} (f : Floats s own p) (g : FoundBuddy s own p b) (k : ℕ)
    (order : order_of s p ≡ k) (order' : order_of s b ≡ k) (b_free : (s.pages b).allocated ≡ false)
    (room : k < 13) (l u : ℕ) (al : IsAligned (suc k) (frame s + l)) (at : u ≡ l + 2 ^ k)
    (which : ((l ≡ p) × (u ≡ b)) ⊎ ((l ≡ b) × (u ≡ p))) where
  other : p ≢ b
  other = ground (arith, two-pow-pos k)

  on_list : contains b (s.free_list k) ≡ true
  on_list =
      subst (λ n. contains b (s.free_list n) ≡ true) order'
        (f.valid.lists.complete b g.inside g.head b_free (λ e. other (sym e)))

  off_lists : (j : ℕ) → j ≢ k → contains b (s.free_list j) ≡ false
  off_lists j ne = ground (arith, f.valid.lists.listed j b)

  length_off : (j : ℕ) → j ≢ k → length (erase b (s.free_list j)) ≡ length (s.free_list j)
  length_off j ne = ap length (erase_of_not-contains b (s.free_list j) (off_lists j ne))

  ends :
      (u < s.pool_phys_page_num)
      × (own l ≡ l)
      × (own u ≡ u)
      × (order_of s l ≡ k)
      × (order_of s u ≡ k)
  ends = ground (arith, f.inside, f.head, g.inside, g.head)

  joined-IsTiling :
      IsTiling (frame s) s.pool_phys_page_num (order_of (joined s b l k)) (own_chunk u k l own)
  joined-IsTiling =
      join-IsTiling f.valid.tiling l u k ends.0 at ends.1 ends.2 ends.3 ends.4 room al
        (ground arith) (λ i nl nu. ground arith)

  u_owned : (i : ℕ) → u ≤ i → i < u + 2 ^ k → own i ≡ u
  u_owned i lo hi =
      f.valid.tiling.own_all u i ends.0 ends.2 lo (omega (arith, ap (λ (x : ℕ). 2 ^ x) ends.4))

  joined-IsPlaced : IsPlaced (joined s b l k)
  joined-IsPlaced = record {
    start_aligned = f.valid.placed.start_aligned;
    size = f.valid.placed.size;
    high = f.valid.placed.high;
    linked = λ i iN. ground (arith, f.valid.placed.linked i);
  }

  joined-IsListed : IsListed (joined s b l k) (own_chunk u k l own) l
  joined-IsListed = record {
    listed = λ j q h. ground (
      arith,
      f.valid.lists.listed j q,
      u_owned q,
      contains-erase_ne q b (s.free_list j),
      contains-erase_self b (s.free_list j),
      f.valid.lists.distinct j,
    );
    complete = λ q qN hq fq ne. ground (
      arith,
      f.valid.lists.complete q,
      u_owned q,
      contains-erase_ne q b (s.free_list (order_of s q)),
      two-pow-pos k,
    );
    distinct = λ j. IsDistinct-erase b (s.free_list j) (f.valid.lists.distinct j);
    counted = λ j. ground (
      arith,
      f.valid.lists.counted j,
      length-erase b (s.free_list k) on_list,
      length_off j,
      f.valid.placed.high,
      length-free_list f.valid k,
    );
  }

  counted_down : sub64 (s.nr_free k) 1 + 1 ≡ s.nr_free k
  counted_down = omega (
    arith,
    f.valid.lists.counted k,
    length-free_list f.valid k,
    f.valid.placed.high,
    length-erase b (s.free_list k) on_list,
  )

  pub grown : order_of (joined s b l k) l ≡ suc k
  grown = ground arith

  joined-IsMergedBut : IsMergedBut s own p → IsMergedBut (joined s b l k) (own_chunk u k l own) l
  joined-IsMergedBut m j x y small pair =
      ground (arith, m j x y small, u_owned x, u_owned y, ends, two-pow-pos k)

  pub joined-Moves : Moves s own p (joined s b l k) (own_chunk u k l own) l
  joined-Moves = record {
    floats = record {
      valid = record {
        placed = joined-IsPlaced;
        tiling = joined-IsTiling;
        lists = joined-IsListed;
      };
      inside = omega (arith, ends.0);
      head = ground (arith, ends, two-pow-pos k);
      is_free = ground (arith, f.is_free);
    };
    same = record {
      num = refl;
      start = refl;
      kept = λ q qN head taken. ground (arith, f.is_free, u_owned q);
      origin = λ q qN head taken. ground (arith, f.is_free, u_owned q);
    };
    merges = λ m. joined-IsMergedBut m;
    marks = λ m i iN taken. ground (arith, m i, f.is_free, b_free, u_owned i);
    balance = omega (
      arith,
      weight_below-update 14 k (sub64 (s.nr_free k) 1) s.nr_free (omega arith),
      ap (λ (x : ℕ). x * 2 ^ k) counted_down,
      ap (λ (x : ℕ). 2 ^ x) order,
      ap (λ (x : ℕ). 2 ^ x) grown,
      two-pow-suc k,
    );
  }

-- One round of the recursion, up to the choice of the lower half.
pub merge_page-suc :
    (fuel p b : ℕ) (s : Pool)
    → ltb 13 (s.pages p).order ≡ false
    → ((s.pages p).order == 13) ≡ false
    → (s.pages p).allocated ≡ false
    → get_buddy_chunk s p ≡ ok (some b)
    → (s.pages b).allocated ≡ false
    → (s.pages b).order ≡ (s.pages p).order
    → merge_page (suc fuel) s p
      ≡ merge_page fuel (join p b (remove_free b s)).0 (join p b (remove_free b s)).1
unfolding merge_page
merge_page-suc fuel p b s in_range below free found b_free same =
    rw found (ground (arith, in_range, below, free, b_free, same))
