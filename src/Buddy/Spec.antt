-- ===== src/Buddy/Spec.antt =====
-- What buddy.c promises its callers: an allocator that hands out aligned blocks of free pages, with
-- no word about free lists, splitting or merging.
use chcore_lab_v.Base.{ℕ, ◌+◌, ◌^◌, ◌≤◌, ◌<◌, ◌≡◌, Option, none, some, update, List, [], ◌∷◌}
use chcore_lab_v.Base.Pow.{IsAligned}

-- The order of the chunk that the callers hold from each page on, if they hold one.
abbrev pub Chunks : Type 0
Chunks = ℕ → Option ℕ

-- No chunk that is held has the page `i`.
abbrev pub IsFree : Chunks → ℕ → Type 0
IsFree a i = (q k : ℕ) → a q ≡ some k → ¬ ((q ≤ i) × (i < q + 2 ^ k))

-- A free block of `2 ^ order` pages in a pool of `n` pages whose first page frame is `F`.
pub record IsRoom (F n : ℕ) (a : Chunks) (order p : ℕ) : Type 0 where
  pub inside : p + 2 ^ order ≤ n
  pub aligned : IsAligned order (F + p)
  pub all_free : (i : ℕ) → p ≤ i → i < p + 2 ^ order → IsFree a i

-- A call and its answer.
pub data Call : Type 0 where
  get : ℕ → Option ℕ → Call
  free : ℕ → Call

-- What the callers hold after a request for a chunk.
abbrev pub hold : ℕ → Option ℕ → Chunks → Chunks
hold order none a = a
hold order (some p) a = update a p (some order)

-- The calls that the specification allows. NULL is an answer only when no block would do.
pub data Allows (F n : ℕ) (a : Chunks) : Call → Chunks → Type 0 where
  grant :
      (order p : ℕ)
      → order < 14
      → IsRoom F n a order p
      → Allows F n a (Call.get order (some p)) (update a p (some order))
  refuse :
      (order : ℕ)
      → ((p : ℕ) → order < 14 → ¬ IsRoom F n a order p)
      → Allows F n a (Call.get order none) a
  release : (p k : ℕ) → a p ≡ some k → Allows F n a (Call.free p) (update a p none)

-- The histories that the specification allows, the latest call first.
pub data Run (F n : ℕ) : List Call → Chunks → Type 0 where
  start : Run F n [] (λ _. none)
  next :
      {calls : List Call} {a a' : Chunks} {c : Call}
      → Run F n calls a
      → Allows F n a c a'
      → Run F n (c ∷ calls) a'
