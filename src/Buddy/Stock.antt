-- ===== src/Buddy/Stock.antt =====
-- A pool of buddy.c that has free pages has a free chunk.
use chcore_lab_v.Base.{ℕ, ◌<◌, ◌≡◌, false, not, arith}
use chcore_lab_v.Base.Count.{count_below_find}
use chcore_lab_v.Buddy.{Pool}
use chcore_lab_v.Buddy.Invariant.{IsValid}
use chcore_lab_v.Buddy.Weight.{free_pages}
use chcore_lab_v.Buddy.Size.{free_pages-count}

pub free_head :
    {s : Pool} {own : ℕ → ℕ}
    → IsValid s own
    → 0 < free_pages s
    → (h : ℕ) × (h < s.pool_phys_page_num) × (own h ≡ h) × ((s.pages h).allocated ≡ false)
free_head {s} {own} v some_free =
    let (i, iN, found) =
      count_below_find s.pool_phys_page_num (λ i. not (s.pages (own i)).allocated)
        (omega (arith, free_pages-count v)) in
    let at = v.tiling.own_in i iN in (own i, omega arith, at.2, ground (arith, found))
