-- ===== src/Buddy/Step.antt =====
-- What a split or a merge of buddy.c leaves as it was, and the chunk that is on no list meanwhile.
use chcore_lab_v.Base.{ℕ, ◌+◌, ◌^◌, ◌<◌, ◌≡◌, refl, ◌∙◌, true, false, arith}
use chcore_lab_v.Buddy.{Pool}
use chcore_lab_v.Buddy.Invariant.{order_of, IsValidBut, IsMergedBut, IsMarked}
use chcore_lab_v.Buddy.Weight.{free_pages}

-- The pool itself, and each allocated chunk, are the same before and after.
pub record SameAllocated (s : Pool) (own : ℕ → ℕ) (s' : Pool) (own' : ℕ → ℕ) : Type 0 where
  pub num : s'.pool_phys_page_num ≡ s.pool_phys_page_num
  pub start : s'.pool_start_addr ≡ s.pool_start_addr
  pub kept :
      (q : ℕ)
      → q < s.pool_phys_page_num
      → own q ≡ q
      → (s.pages q).allocated ≡ true
      → (own' q ≡ q) × ((s'.pages q).allocated ≡ true) × (order_of s' q ≡ order_of s q)
  pub origin :
      (q : ℕ)
      → q < s.pool_phys_page_num
      → own' q ≡ q
      → (s'.pages q).allocated ≡ true
      → (own q ≡ q) × ((s.pages q).allocated ≡ true) × (order_of s' q ≡ order_of s q)

-- A free chunk that is on no list.
pub record Floats (s : Pool) (own : ℕ → ℕ) (x : ℕ) : Type 0 where
  pub valid : IsValidBut s own x
  pub inside : x < s.pool_phys_page_num
  pub head : own x ≡ x
  pub is_free : (s.pages x).allocated ≡ false

-- From the floating chunk `x` to the floating chunk `x'`, with no page lost.
pub record Moves (s : Pool) (own : ℕ → ℕ) (x : ℕ) (s' : Pool) (own' : ℕ → ℕ) (x' : ℕ) : Type 0 where
  pub floats : Floats s' own' x'
  pub same : SameAllocated s own s' own'
  pub merges : IsMergedBut s own x → IsMergedBut s' own' x'
  pub marks : IsMarked s own → IsMarked s' own'
  pub balance : free_pages s' + 2 ^ order_of s' x' ≡ free_pages s + 2 ^ order_of s x

pub SameAllocated-refl : (s : Pool) (own : ℕ → ℕ) → SameAllocated s own s own
SameAllocated-refl s own = record {
  num = refl;
  start = refl;
  kept = λ q qN head taken. (head, taken, refl);
  origin = λ q qN head taken. (head, taken, refl);
}

pub SameAllocated-trans :
    {s s' s'' : Pool} {own own' own'' : ℕ → ℕ}
    → SameAllocated s own s' own'
    → SameAllocated s' own' s'' own''
    → SameAllocated s own s'' own''
SameAllocated-trans a b = record {
  num = b.num ∙ a.num;
  start = b.start ∙ a.start;
  kept = λ q qN head taken. ground (arith, a.num, a.kept q qN head taken, b.kept q);
  origin = λ q qN head taken. ground (arith, a.num, b.origin q, a.origin q);
}

pub Moves-trans :
    {s s' s'' : Pool} {own own' own'' : ℕ → ℕ} {x x' x'' : ℕ}
    → Moves s own x s' own' x'
    → Moves s' own' x' s'' own'' x''
    → Moves s own x s'' own'' x''
Moves-trans a b = record {
  floats = b.floats;
  same = SameAllocated-trans a.same b.same;
  merges = λ m. b.merges (a.merges m);
  marks = λ m. b.marks (a.marks m);
  balance = b.balance ∙ a.balance;
}

pub Moves-refl : {s : Pool} {own : ℕ → ℕ} {x : ℕ} → Floats s own x → Moves s own x s own x
Moves-refl {s} {own} f = record {
  floats = f;
  same = SameAllocated-refl s own;
  merges = λ m. m;
  marks = λ m. m;
  balance = refl;
}
