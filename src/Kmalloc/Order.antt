-- ===== src/Kmalloc/Order.antt =====
-- size_to_page_order of kernel/mm/kmalloc.c: the order of the chunk that a large request gets.
use chcore_lab_v.Base.{
  ℕ, ◌+◌, ◌/◌, ◌^◌, ◌≤◌, ◌<◌, ◌≡◌, refl, ap, ◌∙◌, inl, inr, ltb, if◌then◌else◌, leb, Bool-cases,
  round_up, arith,
}
use chcore_lab_v.Base.Round.{round_up_page}
use chcore_lab_v.Slab.{count_halvings}
use chcore_lab_v.Slab.Order.{count_halvings-Halved, IsLeast, IsLeast-of_log}
use chcore_lab_v.Kmalloc.{size_to_page_order, page_order}

-- The pages of a size.
pages_of : ℕ → ℕ
pages_of size = (size + 4095) / 4096

-- The order of the pages is the least one of the bytes.
IsLeast-pages : (size order : ℕ) → IsLeast (pages_of size) 1 order → IsLeast size 4096 order
unfolding pages_of
IsLeast-pages size order h = record {
  fits = omega (arith, h.fits);
  least = λ k le. h.least k (omega arith);
}

rounded_log : ℕ → ℕ
rounded_log n = let order = count_halvings 64 n 0 in if ltb (2 ^ order) n then order + 1 else order

size_to_page_order-log :
    (size : ℕ) → size_to_page_order size ≡ rounded_log (round_up size 4096 / 4096)
unfolding size_to_page_order rounded_log
size_to_page_order-log size = refl

rounded_log-IsLeast : (n : ℕ) → 1 ≤ n → n < 2 ^ 64 → IsLeast n 1 (rounded_log n)
unfolding rounded_log
rounded_log-IsLeast n pos small =
    let h = count_halvings-Halved 64 n 0 pos (omega arith) in
    let e : count_halvings 64 n 0 ≡ h.log = h.returns ∙ omega arith in
    IsLeast-of_log n h.log _ h.above h.below (ap (λ (t : ℕ). if ltb (2 ^ t) n then t + 1 else t) e)

-- For a size from 1 to 4T, kmalloc asks the buddy allocator for the least order whose chunks have
-- room for it.
pub page_order-IsLeast : (size : ℕ) → 1 ≤ size → size ≤ 2 ^ 42 → IsLeast size 4096 (page_order size)
unfolding pages_of
page_order-IsLeast size pos small = elim (Bool-cases (leb size 4096)) [
  | inl page ↦ rw page (record { fits = ground arith; least = λ k le. omega arith })
  | inr large ↦
      let num : round_up size 4096 / 4096 ≡ pages_of size =
        omega (arith, round_up_page size (omega arith)) in
      let e = size_to_page_order-log size ∙ ap rounded_log num in
      let h = rounded_log-IsLeast (pages_of size) (omega arith) (omega arith) in
      rw (large, e) (IsLeast-pages size (rounded_log (pages_of size)) h)
]
