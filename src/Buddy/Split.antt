-- ===== src/Buddy/Split.antt =====
-- split_page of buddy.c: one split, and the recursion.
use chcore_lab_v.Base.{
  ℕ, zero, suc, ◌+◌, ◌-◌, ◌*◌, ◌^◌, ◌≤◌, ◌<◌, ◌≡◌, ◌≢◌, refl, sym, ap, ◌∙◌, subst, inl, inr, false,
  ◌∷◌, ltb, ◌==◌, ==-refl, eq_of_==, ltb-false_of_le, Bool-cases, Result, ok, some, ℕ_discrete,
  ==-false_of_ne, update, length, length-le_of_IsDistinct, add64, bit_xor, arith,
}
use chcore_lab_v.Base.Pow.{
  half_unaligned, two-pow-pos, two-pow-suc, IsAligned, quotient_even_of_IsAligned,
}
use chcore_lab_v.Base.Bits.{bit_xor_clear}
use chcore_lab_v.Buddy.Chunk.{get_buddy_chunk_in}
use chcore_lab_v.Buddy.{Pool, set_order, split_off, split_page, get_buddy_chunk}
use chcore_lab_v.Buddy.Tiling.{IsTiling, own_chunk}
use chcore_lab_v.Buddy.Tiling.Split.{split-IsTiling}
use chcore_lab_v.Buddy.Invariant.{frame, order_of, IsPlaced, IsListed, IsValidBut, IsMergedBut}
use chcore_lab_v.Buddy.Weight.{weight_below-update}
use chcore_lab_v.Buddy.Step.{Floats, Moves, Moves-refl, Moves-trans}

-- A list holds at most as many chunks as there are pages.
pub length-free_list :
    {s : Pool} {own : ℕ → ℕ} {x : ℕ} (v : IsValidBut s own x) (k : ℕ)
    → length (s.free_list k) ≤ s.pool_phys_page_num
length-free_list {s} v k =
    length-le_of_IsDistinct s.pool_phys_page_num (s.free_list k) (v.lists.distinct k)
      (λ a h. (v.lists.listed k a h).0)

suc_sub_one : (k : ℕ) → suc k - 1 ≡ k
suc_sub_one k = omega arith

module _ {s : Pool} {own : ℕ → ℕ} {p : ℕ} (f : Floats s own p) (k : ℕ)
    (order : order_of s p ≡ suc k) where
  abbrev half : ℕ
  half = p + 2 ^ k

  -- The pool after the split, computed.
  abbrev halved : Pool
  halved = record s {
    pages =
        update (update s.pages p (record (s.pages p) { order = k })) half
          (record (s.pages half) { order = k; allocated = false });
    free_list = update s.free_list k (half ∷ s.free_list k);
    nr_free = update s.nr_free k (add64 (s.nr_free k) 1);
  }

  half_ne : half ≢ p
  half_ne = omega (arith, two-pow-pos k)

  pub split_off_lem : split_off p half (set_order p (order_of s p - 1) s) ≡ halved
  split_off_lem = rw (order, ==-refl p, ==-refl half, ==-false_of_ne half p half_ne, suc_sub_one k)

  half_owned : (i : ℕ) → p ≤ i → i < half + 2 ^ k → own i ≡ p
  half_owned i lo hi =
      f.valid.tiling.own_all p i f.inside f.head lo
        (omega (arith, ap (λ (x : ℕ). 2 ^ x) order, two-pow-suc k))

  half_inside : half + 2 ^ k ≤ s.pool_phys_page_num
  half_inside =
      omega
        (arith, f.valid.tiling.fits p f.inside f.head, ap (λ (x : ℕ). 2 ^ x) order, two-pow-suc k)

  halved-IsTiling :
      IsTiling (frame s) s.pool_phys_page_num (order_of halved) (own_chunk half k half own)
  halved-IsTiling =
      split-IsTiling f.valid.tiling p half k f.inside refl f.head order (ground (arith, half_ne))
        (ground arith) (λ i np nb. ground arith)

  halved-IsPlaced : IsPlaced halved
  halved-IsPlaced = record {
    start_aligned = f.valid.placed.start_aligned;
    size = f.valid.placed.size;
    high = f.valid.placed.high;
    linked = λ i iN. ground (arith, f.valid.placed.linked i);
  }

  shrunk : Pool
  shrunk = set_order p (order_of s p - 1) s

  shrunk-IsPlaced : IsPlaced shrunk
  unfolding shrunk
  shrunk-IsPlaced = record {
    start_aligned = f.valid.placed.start_aligned;
    size = f.valid.placed.size;
    high = f.valid.placed.high;
    linked = λ i iN. ground (arith, f.valid.placed.linked i);
  }

  shrunk-order : order_of shrunk p ≡ k
  unfolding shrunk
  shrunk-order = ground (arith, order)

  frame_xor : bit_xor (frame s + p) (2 ^ k) ≡ frame s + half
  frame_xor =
      bit_xor_clear k (frame s + p) (
        quotient_even_of_IsAligned k (frame s + p)
          (subst (λ n. IsAligned n (frame s + p)) order (f.valid.tiling.aligned p f.inside f.head)))
      ∙ omega arith

  -- The BUG_ON on the buddy of the shrunk chunk does not fire.
  half_found : get_buddy_chunk (set_order p (order_of s p - 1) s) p ≡ ok (some half)
  unfolding shrunk
  half_found =
      get_buddy_chunk_in shrunk-IsPlaced p half f.inside (omega (arith, half_inside, two-pow-pos k))
        (ap (λ (x : ℕ). bit_xor (frame s + p) (2 ^ x)) shrunk-order ∙ frame_xor)

  halved-IsListed : IsListed halved (own_chunk half k half own) p
  halved-IsListed = record {
    listed = λ j q h. ground (
      arith,
      f.valid.lists.listed j q,
      half_owned half,
      half_owned q,
      half_inside,
      two-pow-pos k,
    );
    complete = λ q qN hq fq ne. ground (
      arith,
      f.valid.lists.complete q,
      half_owned half,
      half_owned q,
      half_inside,
      two-pow-pos k,
    );
    distinct = λ j. ground (
      arith,
      f.valid.lists.distinct j,
      f.valid.lists.listed k half,
      half_owned half,
      two-pow-pos k,
    );
    counted = λ j.
        ground (arith, f.valid.lists.counted j, f.valid.placed.high, length-free_list f.valid k);
  }

  counted_up : add64 (s.nr_free k) 1 ≡ s.nr_free k + 1
  counted_up =
      omega (arith, f.valid.lists.counted k, length-free_list f.valid k, f.valid.placed.high)

  order_low : order_of halved p ≡ k
  order_low = ground (arith, half_ne)

  -- The split-off half does not start a block of its and its buddy's pages.
  half_not_first : (j l : ℕ) → IsAligned (suc j) (frame s + l) → l ≡ half → ¬ (j ≡ k)
  half_not_first j l al e same =
      half_unaligned k (frame s + p)
        (subst (λ n. IsAligned n (frame s + p)) order (f.valid.tiling.aligned p f.inside f.head))
        (subst (λ n. IsAligned (suc k) n) (omega arith)
          (subst (λ n. IsAligned (suc n) (frame s + l)) same al))

  -- The half that is split off could be merged with the floating half only.
  halved-IsMergedBut : IsMergedBut s own p → IsMergedBut halved (own_chunk half k half own) p
  halved-IsMergedBut m j l u small pair = elim (ℕ_discrete l half) [
    | yes upper ↦ absurd (half_not_first j l (pair.2) upper (ground arith))
    | no other ↦
        ground (arith, m j l u small, half_owned half, half_owned l, half_owned u, two-pow-pos k)
  ]

  halved-Moves : Moves s own p halved (own_chunk half k half own) p
  halved-Moves = record {
    floats = record {
      valid = record {
        placed = halved-IsPlaced;
        tiling = halved-IsTiling;
        lists = halved-IsListed;
      };
      inside = f.inside;
      head = ground (arith, f.head, two-pow-pos k);
      is_free = ground (arith, f.is_free);
    };
    same = record {
      num = refl;
      start = refl;
      kept = λ q qN head taken. ground (arith, f.is_free, half_owned q, two-pow-pos k);
      origin = λ q qN head taken. ground (arith, f.is_free, half_owned q, two-pow-pos k);
    };
    merges = λ m. halved-IsMergedBut m;
    marks = λ m i iN taken. ground (arith, m i, f.is_free, half_owned i);
    balance = omega (
      arith,
      weight_below-update 14 k (add64 (s.nr_free k) 1) s.nr_free
          (omega (arith, f.valid.tiling.small p f.inside f.head)),
      ap (λ (x : ℕ). x * 2 ^ k) counted_up,
      ap (λ (x : ℕ). 2 ^ x) order,
      ap (λ (x : ℕ). 2 ^ x) order_low,
      two-pow-suc k,
    );
  }

-- One round of the recursion.
split_page-suc :
    (fuel order p b : ℕ) (s s' : Pool)
    → ltb (s.pages p).order order ≡ false
    → (s.pages p).allocated ≡ false
    → ((s.pages p).order == order) ≡ false
    → get_buddy_chunk (set_order p ((s.pages p).order - 1) s) p ≡ ok (some b)
    → split_off p b (set_order p ((s.pages p).order - 1) s) ≡ s'
    → split_page (suc fuel) s order p ≡ split_page fuel s' order p
unfolding split_page
split_page-suc fuel order p b s s' above free more found off = rw (found, off, above, free, more)

-- With a round for each order above the requested one, split_page ends with a chunk of that
-- order, no BUG_ON fires, and the halves that were split off are on the free lists.
pub record SplitTo (s : Pool) (own : ℕ → ℕ) (order p : ℕ) (r : Result (Pool × ℕ)) : Type 0 where
  pub after : Pool
  pub owner : ℕ → ℕ
  pub returns : r ≡ ok (after, p)
  pub moves : Moves s own p after owner p
  pub exact : order_of after p ≡ order

pub split_page-SplitTo :
    (fuel order : ℕ) {s : Pool} {own : ℕ → ℕ} {p : ℕ} (f : Floats s own p)
    → order ≤ order_of s p
    → order_of s p < order + fuel
    → SplitTo s own order p (split_page fuel s order p)
unfolding split_page
split_page-SplitTo zero order f le enough = absurd (omega arith)
split_page-SplitTo (suc fuel) order {s} {own} {p} f le enough =
    elim (Bool-cases (order_of s p == order)) [
      | inl done ↦ record {
        after = s;
        owner = own;
        returns = rw (ltb-false_of_le (order_of s p) order le, f.is_free, done);
        moves = Moves-refl f;
        exact = eq_of_== (order_of s p) order done;
      }
      | inr more ↦
          let k = order_of s p - 1 in
          let e : order_of s p ≡ suc k = ground arith in
          let step = halved-Moves f k e in
          let rest =
            split_page-SplitTo fuel order step.floats
              (subst (λ n. order ≤ n) (sym (order_low f k e)) (ground arith))
              (subst (λ n. n < order + fuel) (sym (order_low f k e)) (ground arith)) in
          record {
            after = rest.after;
            owner = rest.owner;
            returns =
                split_page-suc fuel order p (p + 2 ^ k) s _
                  (ltb-false_of_le (order_of s p) order le) f.is_free more (half_found f k e)
                  (split_off_lem f k e)
                ∙ rest.returns;
            moves = Moves-trans step rest.moves;
            exact = rest.exact;
          }
    ]
