-- ===== src/Buddy/History.antt =====
-- Histories of calls of buddy.c: init_buddy, and then requests and returns in any order, where the
-- callers return only what they hold.
mod Tests
use chcore_lab_v.Base.{
  ℕ, ◌+◌, ◌-◌, ◌*◌, ◌/◌, ◌%◌, ◌^◌, ◌≤◌, ◌<◌, ◌≡◌, ◌≢◌, refl, sym, ap, subst, ◌∙◌, ◌⊎◌, Bool, ◌↔◌,
  true, false, Option, none, some, update, List, [], ◌∷◌, Result, ok, bug_on, not, ◌>>◌, arith,
}
use chcore_lab_v.Base.Count.{count_below}
use chcore_lab_v.Buddy.{
  Page, Pool, init_buddy, buddy_get_pages, buddy_free_pages, get_free_mem_size_from_buddy,
}
use chcore_lab_v.Buddy.Init.{Ready, init_buddy-Ready}
use chcore_lab_v.Buddy.Spec.{Chunks, IsFree, Call, hold, Allows, Run}
use chcore_lab_v.Buddy.Shows.{
  unmarked, Shows, held_apart, free_size, Answered, buddy_get_pages-Answered,
  buddy_free_pages-Shows,
}

-- The calls that were made, the latest first, the pool they left, and the chunks that are held.
pub data Reach (old : ℕ → Page) (start n : ℕ) : List Call → Pool → Chunks → Type 0 where
  init : {s : Pool} → init_buddy old start n ≡ ok s → Reach old start n [] s (λ _. none)
  get :
      {calls : List Call} {s s' : Pool} {a : Chunks} (order : ℕ) (answer : Option ℕ)
      → Reach old start n calls s a
      → buddy_get_pages s order ≡ ok (s', answer)
      → Reach old start n (Call.get order answer ∷ calls) s' (hold order answer a)
  free :
      {calls : List Call} {s s' : Pool} {a : Chunks} (p k : ℕ)
      → Reach old start n calls s a
      → a p ≡ some k
      → buddy_free_pages s p ≡ ok s'
      → Reach old start n (Call.free p ∷ calls) s' (update a p none)

stops : {A : Type 0} (b : Bool) (r : Result A) → b ≡ false → (bug_on (not b) >> r) ≡ Result.bug
stops b r h = rw h refl

buddy_free_pages-stops :
    (s : Pool) (p : ℕ) → (s.pages p).allocated ≡ false → buddy_free_pages s p ≡ Result.bug
unfolding buddy_free_pages
buddy_free_pages-stops s p h = stops (s.pages p).allocated _ h

value_of : {A : Type 0} {x y : A} → ok x ≡ ok y → x ≡ y
value_of e = cc

module _ {start n : ℕ} where
  ready-Shows : {r : Result Pool} (v : Ready start n r) → Shows start n v.after (λ _. none)
  ready-Shows v = record {
    owner = v.owner;
    valid = v.valid;
    merged = v.merged;
    marked = v.marked;
    num = v.num;
    at_start = v.start;
    held = λ p k h. ground (arith, h);
    all_held = λ p pN head taken.
        ground (arith, v.all_free p pN, ap (λ (x : ℕ). (v.after.pages x).allocated) head);
  }

  module _ {s s' : Pool} {a : Chunks} (order : ℕ) (answer : Option ℕ) (v : Shows start n s a)
      (e : buddy_get_pages s order ≡ ok (s', answer)) where
    answered : Answered v order
    answered = buddy_get_pages-Answered v order

    same : ◌≡◌ {A = Pool × Option ℕ} (answered.after, answered.answer) (s', answer)
    same = value_of (sym answered.returns ∙ e)

    get-Shows : Shows start n s' (hold order answer a)
    get-Shows = subst (λ x. Shows start n x.0 (hold order x.1 a)) same answered.shows

    get-Allows : Allows (start / 4096) n a (Call.get order answer) (hold order answer a)
    get-Allows =
        subst (λ x. Allows (start / 4096) n a (Call.get order x.1) (hold order x.1 a)) same
          answered.allowed

module _ (old : ℕ → Page) (start n : ℕ) (start_aligned : start % 4096 ≡ 0)
    (high : start + n * 4096 < 2 ^ 64) (few : n < 2 ^ 31) where
  -- For a page-aligned start address, fewer than 2^31 pages and a pool that ends below 2^64,
  -- after any history of calls in which the callers return only chunks they hold, the pool is
  -- valid, it has the pages it started with, no two free buddies of one order below 13 are left
  -- unmerged, and the allocated chunks are exactly the ones that the callers hold, with their
  -- orders.
  pub Reach-Shows :
      {calls : List Call} {s : Pool} {a : Chunks} → Reach old start n calls s a → Shows start n s a
  Reach-Shows (Reach.init e) =
      let ready = init_buddy-Ready old start n start_aligned high few in
      subst (λ x. Shows start n x (λ _. none)) (value_of (sym ready.returns ∙ e))
        (ready-Shows ready)
  Reach-Shows (Reach.get order answer r e) = get-Shows order answer (Reach-Shows r) e
  Reach-Shows (Reach.free {a = a} p k r h e) =
      let f = buddy_free_pages-Shows (Reach-Shows r) p k h in
      subst (λ x. Shows start n x (update a p none)) (value_of (sym f.1 ∙ e)) f.2

  -- For a page-aligned start address, fewer than 2^31 pages and a pool that ends below 2^64,
  -- every history of calls of the code from init_buddy on, in which the callers return only
  -- chunks they hold, is a history of the abstract allocator: each granted chunk is an aligned
  -- block of pages inside the pool that nobody held, NULL is answered only if no such block is
  -- left or the order is 14 or more, and a return gives up just the chunk.
  pub Reach-Run :
      {calls : List Call} {s : Pool} {a : Chunks}
      → Reach old start n calls s a
      → Run (start / 4096) n calls a
  Reach-Run (Reach.init e) = Run.start
  Reach-Run (Reach.get order answer r e) =
      Run.next (Reach-Run r) (get-Allows order answer (Reach-Shows r) e)
  Reach-Run (Reach.free p k r h e) = Run.next (Reach-Run r) (Allows.release p k h)

  module _ {calls : List Call} {s : Pool} {a : Chunks} (r : Reach old start n calls s a) where
    -- For a page-aligned start address, fewer than 2^31 pages and a pool that ends below 2^64,
    -- after any history of calls in which the callers return only chunks they hold, two different
    -- chunks that are held have no page in common, and each lies inside the pool.
    pub Reach-IsApart :
        (p j q k : ℕ)
        → a p ≡ some j
        → a q ≡ some k
        → p ≢ q
        → (p + 2 ^ j ≤ n) × ((p + 2 ^ j ≤ q) ⊎ (q + 2 ^ k ≤ p))
    Reach-IsApart p j q k hp hq ne = held_apart (Reach-Shows r) p j q k hp hq ne

    -- For a page-aligned start address, fewer than 2^31 pages and a pool that ends below 2^64,
    -- after any history of calls in which the callers return only chunks they hold, a request of
    -- any order and the return of any chunk that is held end without a BUG_ON.
    pub Reach-returns :
        ((order : ℕ)
          → (answer : Option ℕ) × (s' : Pool) × (buddy_get_pages s order ≡ ok (s', answer)))
        × ((p k : ℕ) → a p ≡ some k → (s' : Pool) × (buddy_free_pages s p ≡ ok s'))
    Reach-returns = (
      λ order.
          (let x = buddy_get_pages-Answered (Reach-Shows r) order in
            (x.answer, x.after, x.returns)),
      λ p k h. (let f = buddy_free_pages-Shows (Reach-Shows r) p k h in (f.0, f.1)),
    )

    -- For a page-aligned start address, fewer than 2^31 pages and a pool that ends below 2^64,
    -- after any history of calls in which the callers return only chunks they hold,
    -- get_free_mem_size_from_buddy is 4096 times the number of pages that are in no chunk that is
    -- held: none is lost.
    pub Reach-free_size :
        (unheld : ℕ → Bool)
        → ((i : ℕ) → i < n → (unheld i ≡ true) ↔ IsFree a i)
        → get_free_mem_size_from_buddy s ≡ 4096 * count_below n unheld
    Reach-free_size unheld test = free_size (Reach-Shows r) unheld test

    -- For a page-aligned start address, fewer than 2^31 pages and a pool that ends below 2^64,
    -- after any history of calls in which the callers return only chunks they hold, the return of
    -- any page of the pool that is not the first page of a chunk they hold (a free page, one that
    -- was returned already, or a page in the middle of a chunk) fires a BUG_ON.
    pub Reach-refuses : (p : ℕ) → p < n → a p ≡ none → buddy_free_pages s p ≡ Result.bug
    Reach-refuses p pN h = buddy_free_pages-stops s p (unmarked (Reach-Shows r) p pN h)
