-- ===== src/Slab/Home.antt =====
-- The slab that an address belongs to by its page, for kernel/mm/slab.c and kernel/mm/kmalloc.c.
use chcore_lab_v.Base.{ℕ, List, [], ◌∷◌, Bool, true, ◌&&◌, ◌==◌, Result}
use chcore_lab_v.Buddy.{Pool, virt_to_page}

-- The slab that the page of an address belongs to.
unfoldable pub home : Pool → ℕ → ℕ
home pool x = elim (virt_to_page pool x) [ Result.ok p ↦ (pool.pages p).slab | _ ↦ 0 ]

unfoldable pub homed_slots : Pool → ℕ → List ℕ → Bool
homed_slots pool s [] = true
homed_slots pool s (x ∷ xs) = home pool x == s && homed_slots pool s xs

-- The pages of every free slot belong to its slab.
unfoldable pub homed : Pool → List (ℕ × List ℕ) → Bool
homed pool [] = true
homed pool ((s, xs) ∷ ss) = homed_slots pool s xs && homed pool ss
