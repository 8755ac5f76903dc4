-- ===== src/Kmalloc/Large.antt =====
-- kmalloc of kernel/mm/kmalloc.c for sizes that no slab serves.
use chcore_lab_v.Base.{
  ℕ, ◌+◌, ◌*◌, ◌^◌, ◌≤◌, ◌<◌, ◌≡◌, ◌⊎◌, inl, inr, refl, true, false, none, some, [], leb, Result,
  ok, dec_lt, arith, ◌∙◌,
}
use chcore_lab_v.Buddy.{Pool, buddy_get_pages, page_to_virt}
use chcore_lab_v.Buddy.Invariant.{IsValid, frame}
use chcore_lab_v.Buddy.Chunk.{page_to_virt_lem}
use chcore_lab_v.Buddy.Alloc.Find.{Granted, Search, buddy_get_pages-Search}
use chcore_lab_v.Machine.{Machine, get_pages}
use chcore_lab_v.Kmalloc.{kmalloc, page_order}
use chcore_lab_v.Kmalloc.Order.{page_order-IsLeast}

-- NULL, with every list of large enough chunks empty; or the kernel address of a chunk of the order,
-- which lies in the pool and has room for the size.
pub Large : Machine → (ℕ → ℕ) → ℕ → Result (Machine × ℕ) → Type 0
Large m own size r =
    ((r ≡ ok (m, 0)) × ((j : ℕ) → page_order size ≤ j → j < 14 → m.pool.free_list j ≡ []))
    ⊎ ((g : Granted m.pool own (page_order size) (buddy_get_pages m.pool (page_order size))) × (r
          ≡ ok (record m { pool = g.after }, (frame g.after + g.page) * 4096))
        × (size ≤ 4096 * 2 ^ page_order size))

get_pages-none :
    (m : Machine) (order : ℕ)
    → buddy_get_pages m.pool order ≡ ok (m.pool, none)
    → get_pages m order ≡ ok (m, 0)
unfolding get_pages
get_pages-none m order e = rw e refl

get_pages-some :
    (m : Machine) (order page addr : ℕ) (after : Pool)
    → buddy_get_pages m.pool order ≡ ok (after, some page)
    → page_to_virt after page ≡ ok addr
    → get_pages m order ≡ ok (record m { pool = after }, addr)
unfolding get_pages
get_pages-some m order page addr after e at = rw (e, at) refl

too_large : (s : Pool) (order : ℕ) → 14 ≤ order → buddy_get_pages s order ≡ ok (s, none)
unfolding buddy_get_pages
too_large s order h = let e : leb 14 order ≡ true = ground arith in rw e refl

kmalloc_pages :
    (fuel size : ℕ) (m : Machine)
    → 2048 < size
    → kmalloc fuel m size ≡ get_pages m (page_order size)
unfolding kmalloc
kmalloc_pages fuel size m h = let e : leb size (2 ^ 11) ≡ false = ground arith in rw e refl

-- On a valid pool, kmalloc of a size above 2048 and of at most 2^42 returns: NULL with nothing
-- changed if no list from the order of the size on has a chunk, or else the address of a newly
-- allocated chunk of that order, with room for the size.
pub kmalloc-Large :
    (fuel size : ℕ) {own : ℕ → ℕ} (m : Machine)
    → IsValid m.pool own
    → 2048 < size
    → size ≤ 2 ^ 42
    → Large m own size (kmalloc fuel m size)
unfolding Large Search
kmalloc-Large fuel size {own} m v large small = elim (dec_lt (page_order size) 14) [
  | yes fits ↦ elim (buddy_get_pages-Search (page_order size) v fits) [
    | inl (none_left, empty) ↦
        inl (kmalloc_pages fuel size m large ∙ get_pages-none m (page_order size) none_left, empty)
    | inr g ↦ inr (
      g,
      kmalloc_pages fuel size m large
          ∙ get_pages-some m (page_order size) g.page _ g.after g.returns
              (page_to_virt_lem g.valid.placed g.page (omega (arith, g.inside, g.num))),
      (page_order-IsLeast size (omega arith) small).fits,
    )
  ]
  | no big ↦ inl (
    kmalloc_pages fuel size m large
        ∙ get_pages-none m (page_order size) (too_large m.pool (page_order size) (omega arith)),
    λ j lo hi. absurd (omega arith),
  )
]
