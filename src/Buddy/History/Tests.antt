-- ===== src/Buddy/History/Tests.antt =====
-- A history on a pool of seven pages: two requests for chunks of two pages.
use chcore_lab_v.Base.{
  ℕ, ◌+◌, ◌*◌, ◌/◌, ◌^◌, ◌≤◌, ◌≡◌, refl, ◌⊎◌, true, false, Option, none, some, List, [], ◌∷◌,
  Result, ok, arith,
}
use chcore_lab_v.Base.Count.{count_below}
use chcore_lab_v.Buddy.{
  Page, Pool, init_buddy, buddy_get_pages, buddy_free_pages, get_free_mem_size_from_buddy,
}
use chcore_lab_v.Buddy.Spec.{Chunks, Call, hold, Run}
use chcore_lab_v.Buddy.Shows.{Shows}
use chcore_lab_v.Buddy.History.{
  Reach-refuses, Reach, Reach-Shows, Reach-Run, Reach-IsApart, Reach-returns, Reach-free_size,
}

abbrev no_page : Page
no_page = record { allocated = false; order = 0; slab = 0; in_pool = false }

abbrev base_addr : ℕ
base_addr = 0xffffff0000083000

abbrev pool_of : Result Pool → Pool
pool_of (ok s) = s
pool_of r = record {
  pool_start_addr = 0;
  pool_mem_size = 0;
  pool_phys_page_num = 0;
  pages = λ _. no_page;
  free_list = λ _. [];
  nr_free = λ _. 0;
}

abbrev pool_and : Result (Pool × Option ℕ) → Pool
pool_and (ok (s, page)) = s
pool_and r = pool_of Result.bug

first_pool : Pool
first_pool = pool_of (init_buddy (λ _. no_page) base_addr 7)

second_pool : Pool
second_pool = pool_and (buddy_get_pages first_pool 1)

third_pool : Pool
third_pool = pool_and (buddy_get_pages second_pool 1)

begin : Reach (λ _. no_page) base_addr 7 [] first_pool (λ _. none)
unfolding init_buddy first_pool
begin = Reach.init refl

one :
    Reach
      (λ _. no_page)
      base_addr
      7
      (Call.get 1 (some 5) ∷ [])
      second_pool
      (hold 1 (some 5) (λ _. none))
unfolding init_buddy buddy_get_pages first_pool second_pool
one = Reach.get 1 (some 5) begin refl

held_two : Chunks
held_two = hold 1 (some 1) (hold 1 (some 5) (λ _. none))

two_calls : List Call
two_calls = Call.get 1 (some 1) ∷ Call.get 1 (some 5) ∷ []

two : Reach (λ _. no_page) base_addr 7 two_calls third_pool held_two
unfolding init_buddy buddy_get_pages first_pool second_pool third_pool held_two two_calls
two = Reach.get 1 (some 1) one refl

Reach-Shows_example : Shows base_addr 7 third_pool held_two
Reach-Shows_example =
    Reach-Shows (λ _. no_page) base_addr 7 (omega arith) (omega arith) (omega arith) two

Reach-Run_example : Run (base_addr / 4096) 7 two_calls held_two
Reach-Run_example =
    Reach-Run (λ _. no_page) base_addr 7 (omega arith) (omega arith) (omega arith) two

Reach-IsApart_example : (1 + 2 ^ 1 ≤ 7) × ((1 + 2 ^ 1 ≤ 5) ⊎ (5 + 2 ^ 1 ≤ 1))
unfolding held_two
Reach-IsApart_example =
    Reach-IsApart (λ _. no_page) base_addr 7 (omega arith) (omega arith) (omega arith) two 1 1 5 1
      refl refl (λ e. omega arith)

Reach-returns_example :
    ((order : ℕ)
      → (answer : Option ℕ) × (s' : Pool) × (buddy_get_pages third_pool order ≡ ok (s', answer)))
    × ((p k : ℕ) → held_two p ≡ some k → (s' : Pool) × (buddy_free_pages third_pool p ≡ ok s'))
Reach-returns_example =
    Reach-returns (λ _. no_page) base_addr 7 (omega arith) (omega arith) (omega arith) two

Reach-free_size_example : get_free_mem_size_from_buddy first_pool ≡ 4096 * count_below 7 (λ _. true)
Reach-free_size_example =
    Reach-free_size (λ _. no_page) base_addr 7 (omega arith) (omega arith) (omega arith) begin
      (λ _. true) (λ i iN. ((λ e q k h at. ground (arith, h)), (λ h. refl)))

-- The second page of a chunk that is held.
Reach-refuses_example : buddy_free_pages third_pool 2 ≡ Result.bug
unfolding held_two
Reach-refuses_example =
    Reach-refuses (λ _. no_page) base_addr 7 (omega arith) (omega arith) (omega arith) two 2
      (omega arith) refl
