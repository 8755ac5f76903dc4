-- ===== src/Buddy/Invariant.antt =====
-- What holds of the pool of buddy.c between calls, and inside a call while one chunk is on no list.
use chcore_lab_v.Base.{
  ℕ, suc, ◌⊎◌, ◌+◌, ◌*◌, ◌/◌, ◌%◌, ◌^◌, ◌<◌, ◌≡◌, ◌≢◌, true, false, length, contains, IsDistinct,
}
use chcore_lab_v.Base.Pow.{IsAligned}
use chcore_lab_v.Buddy.{Pool}
use chcore_lab_v.Buddy.Tiling.{IsTiling}

-- The page frame of the pool's first page.
abbrev pub frame : Pool → ℕ
frame s = s.pool_start_addr / 4096

abbrev pub order_of : Pool → ℕ → ℕ
order_of s p = (s.pages p).order

-- The pool's addresses: page-aligned, and below the end of the address space.
pub record IsPlaced (s : Pool) : Type 0 where
  pub start_aligned : s.pool_start_addr % 4096 ≡ 0
  pub size : s.pool_mem_size ≡ s.pool_phys_page_num * 4096
  pub high : s.pool_start_addr + s.pool_phys_page_num * 4096 < 2 ^ 64
  pub linked : (i : ℕ) → i < s.pool_phys_page_num → (s.pages i).in_pool ≡ true

-- The free lists hold the free chunks other than `x`, each on the list of its order, once. With
-- `x` past the last page no chunk is left out.
pub record IsListed (s : Pool) (own : ℕ → ℕ) (x : ℕ) : Type 0 where
  pub listed :
      (k p : ℕ)
      → contains p (s.free_list k) ≡ true
      → (p < s.pool_phys_page_num)
        × (own p ≡ p)
        × ((s.pages p).allocated ≡ false)
        × ((s.pages p).order ≡ k)
        × (p ≢ x)
  pub complete :
      (p : ℕ)
      → p < s.pool_phys_page_num
      → own p ≡ p
      → (s.pages p).allocated ≡ false
      → p ≢ x
      → contains p (s.free_list (s.pages p).order) ≡ true
  pub distinct : (k : ℕ) → IsDistinct (s.free_list k)
  pub counted : (k : ℕ) → s.nr_free k ≡ length (s.free_list k)

-- The invariant, with the chunk `x` on no list.
pub record IsValidBut (s : Pool) (own : ℕ → ℕ) (x : ℕ) : Type 0 where
  pub placed : IsPlaced s
  pub tiling : IsTiling (frame s) s.pool_phys_page_num (order_of s) own
  pub lists : IsListed s own x

-- Two free chunks of one order that are the halves of a block of the next.
abbrev pub AreFreeHalves : Pool → (ℕ → ℕ) → ℕ → ℕ → ℕ → Type 0
AreFreeHalves s own k l u =
    (u ≡ l + 2 ^ k)
    × (u < s.pool_phys_page_num)
    × IsAligned (suc k) (frame s + l)
    × (own l ≡ l)
    × (own u ≡ u)
    × (order_of s l ≡ k)
    × (order_of s u ≡ k)
    × ((s.pages l).allocated ≡ false)
    × ((s.pages u).allocated ≡ false)

-- No two free chunks could be merged, except with the chunk `x`.
abbrev pub IsMergedBut : Pool → (ℕ → ℕ) → ℕ → Type 0
IsMergedBut s own x = (k l u : ℕ) → k < 13 → AreFreeHalves s own k l u → (l ≡ x) ⊎ (u ≡ x)

abbrev pub IsMerged : Pool → (ℕ → ℕ) → Type 0
IsMerged s own = IsMergedBut s own s.pool_phys_page_num

-- Only the first page of a chunk is marked as allocated.
abbrev pub IsMarked : Pool → (ℕ → ℕ) → Type 0
IsMarked s own = (i : ℕ) → i < s.pool_phys_page_num → (s.pages i).allocated ≡ true → own i ≡ i

-- The invariant between calls.
abbrev pub IsValid : Pool → (ℕ → ℕ) → Type 0
IsValid s own = IsValidBut s own s.pool_phys_page_num
