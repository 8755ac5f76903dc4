-- ===== src/Buddy/Shows.antt =====
-- The pool of buddy.c as its callers see it: the invariant, with the allocated chunks those that
-- the callers hold.
use chcore_lab_v.Base.{
  ◌≢◌, ◌⊎◌, ◌↔◌, Bool, not, ◌*◌, subst, dec_lt, ℕ, ◌+◌, ◌/◌, ◌^◌, ◌≤◌, ◌<◌, ◌≡◌, ap, ◌∙◌, true,
  false, Bool-cases, inl, inr, Option, none, some, update, Result, ok, arith, ℕ_discrete,
}
use chcore_lab_v.Base.Pow.{IsAligned}
use chcore_lab_v.Base.Count.{count_below, count_below_congr}
use chcore_lab_v.Buddy.Size.{get_free_mem_size_from_buddy-count}
use chcore_lab_v.Buddy.{Pool, get_free_mem_size_from_buddy, buddy_get_pages, buddy_free_pages}
use chcore_lab_v.Buddy.Invariant.{frame, order_of, IsValid, IsMerged, IsMarked}
use chcore_lab_v.Buddy.Spec.{Chunks, IsFree, IsRoom, Call, hold, Allows}
use chcore_lab_v.Buddy.Free.{Freed, buddy_free_pages-Freed}
use chcore_lab_v.Buddy.Alloc.Find.{Granted, Search, buddy_get_pages-Search}
use chcore_lab_v.Buddy.Room.{IsFreeBlock, buddy_get_pages-FreeBlock}

buddy_get_pages_too_large :
    (s : Pool) (order : ℕ) → ¬ (order < 14) → buddy_get_pages s order ≡ ok (s, none)
unfolding buddy_get_pages
buddy_get_pages_too_large s order large = ground arith

pub record Shows (start n : ℕ) (s : Pool) (a : Chunks) : Type 0 where
  pub owner : ℕ → ℕ
  pub valid : IsValid s owner
  pub merged : IsMerged s owner
  pub marked : IsMarked s owner
  pub num : s.pool_phys_page_num ≡ n
  pub at_start : s.pool_start_addr ≡ start
  pub held :
      (p k : ℕ)
      → a p ≡ some k
      → (p < n) × (owner p ≡ p) × ((s.pages p).allocated ≡ true) × (order_of s p ≡ k)
  pub all_held :
      (p : ℕ) → p < n → owner p ≡ p → (s.pages p).allocated ≡ true → a p ≡ some (order_of s p)

module _ {start n : ℕ} {s : Pool} {a : Chunks} (v : Shows start n s a) where
  -- A page is in no chunk that is held exactly when its chunk is free.
  pub IsFree-of_owner : (i : ℕ) → i < n → (s.pages (v.owner i)).allocated ≡ false → IsFree a i
  IsFree-of_owner i iN is_free q k h (lo, hi) =
      let at = v.held q k h in
      let owns =
        v.valid.tiling.own_all q i (omega (arith, v.num)) at.1 lo
          (omega (arith, ap (λ (x : ℕ). 2 ^ x) at.3)) in
      ground (arith, ap (λ (x : ℕ). (s.pages x).allocated) owns)

  pub owner-of_IsFree : (i : ℕ) → i < n → IsFree a i → (s.pages (v.owner i)).allocated ≡ false
  owner-of_IsFree i iN is_free = elim (Bool-cases (s.pages (v.owner i)).allocated) [
    | inl taken ↦
        let at = v.valid.tiling.own_in i (omega (arith, v.num)) in
        let h = v.all_held (v.owner i) (omega arith) at.2 taken in
        absurd (is_free (v.owner i) (order_of s (v.owner i)) h (at.0, at.1))
    | inr other ↦ other
  ]

  -- A page from which no chunk is held is not marked as allocated.
  pub unmarked : (p : ℕ) → p < n → a p ≡ none → (s.pages p).allocated ≡ false
  unmarked p pN h = elim (Bool-cases (s.pages p).allocated) [
    | inl taken ↦
        let here = v.all_held p pN (v.marked p (omega (arith, v.num)) taken) taken in
        absurd (ground (arith, h, here))
    | inr other ↦ other
  ]

  pub held_apart :
      (p j q k : ℕ)
      → a p ≡ some j
      → a q ≡ some k
      → p ≢ q
      → (p + 2 ^ j ≤ n) × ((p + 2 ^ j ≤ q) ⊎ (q + 2 ^ k ≤ p))
  held_apart p j q k hp hq ne =
      let x = v.held p j hp in
      let y = v.held q k hq in
      let size = ap (λ (z : ℕ). 2 ^ z) x.3 in
      let size' = ap (λ (z : ℕ). 2 ^ z) y.3 in
      (
        omega (arith, v.num, size, v.valid.tiling.fits p (omega (arith, v.num)) x.1),
        ground (
          arith,
          v.num,
          v.valid.tiling.own_all p q (omega (arith, v.num)) x.1,
          v.valid.tiling.own_all q p (omega (arith, v.num)) y.1,
          size,
          size',
        ),
      )

  pub free_size :
      (unheld : ℕ → Bool)
      → ((i : ℕ) → i < n → (unheld i ≡ true) ↔ IsFree a i)
      → get_free_mem_size_from_buddy s ≡ 4096 * count_below n unheld
  free_size unheld test =
      get_free_mem_size_from_buddy-count v.valid
      ∙ ap (λ (x : ℕ). 4096 * count_below x (λ i. not (s.pages (v.owner i)).allocated)) v.num
      ∙ ap (λ (x : ℕ). 4096 * x)
          (count_below_congr n (λ i. not (s.pages (v.owner i)).allocated) unheld
            (λ i iN. ground (arith, test i iN, IsFree-of_owner i iN, owner-of_IsFree i iN)))

  frame_eq : frame s ≡ start / 4096
  frame_eq = ap (λ (x : ℕ). x / 4096) v.at_start

  block_of_room : (k p : ℕ) → IsRoom (start / 4096) n a k p → IsFreeBlock s v.owner k p
  block_of_room k p r = record {
    inside = omega (arith, r.inside, v.num);
    aligned = rw frame_eq r.aligned;
    all_free = λ i lo hi. owner-of_IsFree i (omega (arith, r.inside)) (r.all_free i lo hi);
  }

  -- A request that is granted.
  module _ (order : ℕ) (small : order < 14) {r : Result (Pool × Option ℕ)}
      (g : Granted s v.owner order r) where
    granted-Shows : Shows start n g.after (hold order (some g.page) a)
    granted-Shows = record {
      owner = g.owner;
      valid = g.valid;
      merged = g.merges v.merged;
      marked = g.marks v.marked;
      num = g.num ∙ v.num;
      at_start = g.start ∙ v.at_start;
      held = λ p k h. elim (ℕ_discrete p g.page) [
        | yes here ↦ ground (arith, g.inside, g.head, g.taken, g.exact, v.num)
        | no other ↦ ground (arith, v.held p k, v.num, g.kept p)
      ];
      all_held = λ p pN hp tp. elim (ℕ_discrete p g.page) [
        | yes here ↦ ground (arith, g.exact, here)
        | no other ↦ ground (arith, v.num, g.origin p, v.all_held p, g.kept p)
      ];
    }

    page_inside : g.page < g.after.pool_phys_page_num
    page_inside = omega (arith, g.num, g.inside)

    size : 2 ^ order_of g.after g.page ≡ 2 ^ order
    size = ap (λ (x : ℕ). 2 ^ x) g.exact

    fits : g.page + 2 ^ order ≤ n
    fits = omega (arith, g.num, v.num, size, g.valid.tiling.fits g.page page_inside g.head)

    granted-IsRoom : IsRoom (start / 4096) n a order g.page
    granted-IsRoom = record {
      inside = fits;
      aligned =
          subst (λ x. IsAligned order (x + g.page))
            (ap (λ (x : ℕ). x / 4096) (g.start ∙ v.at_start))
            (subst (λ x. IsAligned x (frame g.after + g.page)) g.exact
              (g.valid.tiling.aligned g.page page_inside g.head));
      all_free = λ i lo hi.
          let iN : i < n = omega (arith, fits) in
          IsFree-of_owner i iN (
            g.was_free i (omega (arith, v.num))
              (g.valid.tiling.own_all g.page i page_inside g.head lo (omega (arith, size))));
    }

  -- What a request answers, and what it leaves.
  pub record Answered (order : ℕ) : Type 0 where
    pub after : Pool
    pub answer : Option ℕ
    pub returns : buddy_get_pages s order ≡ ok (after, answer)
    pub allowed : Allows (start / 4096) n a (Call.get order answer) (hold order answer a)
    pub shows : Shows start n after (hold order answer a)

  refused :
      (order : ℕ)
      → buddy_get_pages s order ≡ ok (s, none)
      → ((p : ℕ) → order < 14 → ¬ IsRoom (start / 4096) n a order p)
      → Answered order
  refused order e no_room = record {
    after = s;
    answer = none;
    returns = e;
    allowed = Allows.refuse order no_room;
    shows = v;
  }

  pub buddy_get_pages-Answered : (order : ℕ) → Answered order
  unfolding Search
  buddy_get_pages-Answered order = elim (dec_lt order 14) [
    | yes small ↦ elim (buddy_get_pages-Search order v.valid small) [
      | inl (e, empty) ↦ refused order e (λ p lt room.
          let g =
            buddy_get_pages-FreeBlock order p v.valid v.merged small (block_of_room order p room) in
          ground (arith, e, g.returns))
      | inr g ↦ record {
        after = g.after;
        answer = some g.page;
        returns = g.returns;
        allowed = Allows.grant order g.page small (granted-IsRoom order small g);
        shows = granted-Shows order small g;
      }
    ]
    | no large ↦
        refused order (buddy_get_pages_too_large s order large)
          (λ p small room. absurd (large small))
  ]

  module _ (p k : ℕ) (h : a p ≡ some k) {r : Result Pool} (f : Freed s v.owner p r) where
    freed-Shows : Shows start n f.after (update a p none)
    freed-Shows = record {
      owner = f.owner;
      valid = f.valid;
      merged = f.merges v.merged;
      marked = f.marks v.marked;
      num = f.num ∙ v.num;
      at_start = f.start ∙ v.at_start;
      held = λ q j hq. ground (arith, v.num, v.held q j, f.kept q);
      all_held = λ q qN hq tq. ground (arith, v.num, f.origin q, v.all_held q, f.kept q);
    }

  -- A chunk that the callers hold is given back.
  pub buddy_free_pages-Shows :
      (p k : ℕ)
      → a p ≡ some k
      → (s' : Pool) × (buddy_free_pages s p ≡ ok s') × Shows start n s' (update a p none)
  buddy_free_pages-Shows p k h =
      let (pN, head, taken, e) = v.held p k h in
      let f = buddy_free_pages-Freed p v.valid (omega (arith, v.num)) head taken in
      (f.after, f.returns, freed-Shows p k h f)
