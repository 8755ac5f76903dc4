-- ===== src/PageTable/Tree/Huge.antt =====
-- The loop body of map_range_in_pgtbl_huge of kernel/arch/aarch64/mm/page_table.c in a tree of
-- tables: a block of 1G, a block of 2M, or a page.
use chcore_lab_v.Base.{
  pick_then, pick_else, ℕ, ◌+◌, ◌-◌, ◌*◌, ◌/◌, ◌%◌, ◌^◌, ◌≤◌, ◌<◌, ◌≡◌, ◌≢◌, refl, sym, ap, ◌∙◌,
  true, false, ◌==◌, if◌then◌else◌, Result, ok, ◌>>=◌, sub64, arith,
}
use chcore_lab_v.Base.Bits.{bit_and-mask}
use chcore_lab_v.Machine.{Machine, store}
use chcore_lab_v.PageTable.{step_down, map_l3, entry_addr, l1_block_pte, l2_block_pte}
use chcore_lab_v.PageTable.Map.{map_page, map_huge, block_fits}
use chcore_lab_v.PageTable.Flags.{attributes_parts, pte_words}
use chcore_lab_v.PageTable.Mapped.{map_l3-store}
use chcore_lab_v.PageTable.Translate.{entry_at, is_invalid, index_lem}
use chcore_lab_v.PageTable.Tree.Walk.{map_page-steps}

-- A block that the code finds to fit starts at aligned addresses and ends in the range.
pub fits_facts :
    (s va pa va_end : ℕ)
    → va < va_end
    → va_end < 2 ^ 64
    → block_fits (2 ^ s) va pa va_end ≡ true
    → (va % 2 ^ s ≡ 0) × (pa % 2 ^ s ≡ 0) × (va + 2 ^ s ≤ va_end)
fits_facts s va pa va_end lt high h =
    let size : sub64 va_end va ≡ va_end - va = omega arith in
    ground (arith, h, bit_and-mask s va, bit_and-mask s pa, size)

-- What the entries of blocks give back.
pub l1_block-read :
    (pa flags : ℕ)
    → pa < 2 ^ 48
    → (is_invalid (l1_block_pte pa flags) ≡ false)
      × ((l1_block_pte pa flags / 2 % 2 == 0) ≡ true)
      × (l1_block_pte pa flags / 2 ^ 30 % 2 ^ 18 ≡ pa / 2 ^ 30)
l1_block-read pa flags h =
    let w = (pte_words pa flags h).2 in
    let a = attributes_parts flags in
    let odd : l1_block_pte pa flags % 2 ≡ 1 = omega (arith, w, a) in
    let bit : l1_block_pte pa flags / 2 % 2 ≡ 0 = omega (arith, w, a) in
    (ground (arith, odd), ground (arith, bit), omega (arith, w, a))

pub l2_block-read :
    (pa flags : ℕ)
    → pa < 2 ^ 48
    → (is_invalid (l2_block_pte pa flags) ≡ false)
      × ((l2_block_pte pa flags / 2 % 2 == 0) ≡ true)
      × (l2_block_pte pa flags / 2 ^ 21 % 2 ^ 27 ≡ pa / 2 ^ 21)
l2_block-read pa flags h =
    let w = (pte_words pa flags h).1 in
    let a = attributes_parts flags in
    let odd : l2_block_pte pa flags % 2 ≡ 1 = omega (arith, w, a) in
    let bit : l2_block_pte pa flags / 2 % 2 ≡ 0 = omega (arith, w, a) in
    (ground (arith, odd), ground (arith, bit), omega (arith, w, a))

-- The levels of map_huge.
huge_l3 : ℕ → ℕ → ℕ → Machine × ℕ × ℕ → Result (Machine × ℕ)
huge_l3 va pa flags (m, l3_ptp, l2_pte) = map_l3 m l3_ptp l2_pte va pa flags >>= λ m4. ok (m4, 4096)

huge_l2 : ℕ → ℕ → ℕ → ℕ → Machine × ℕ × ℕ → Result (Machine × ℕ)
huge_l2 va pa va_end flags (m, l2_ptp, l1_pte) =
    if block_fits (2 ^ 21) va pa va_end
    then ok (store (entry_addr l2_ptp 2 va) (l2_block_pte pa flags) m, 2 ^ 21)
    else (step_down m l2_ptp 2 va >>= huge_l3 va pa flags)

huge_l1 : ℕ → ℕ → ℕ → ℕ → Machine × ℕ × ℕ → Result (Machine × ℕ)
huge_l1 va pa va_end flags (m, l1_ptp, l0_pte) =
    if block_fits (2 ^ 30) va pa va_end
    then ok (store (entry_addr l1_ptp 1 va) (l1_block_pte pa flags) m, 2 ^ 30)
    else (step_down m l1_ptp 1 va >>= huge_l2 va pa va_end flags)

map_huge-l1 :
    (m : Machine) (t va pa va_end flags : ℕ)
    → map_huge m t va pa va_end flags ≡ (step_down m t 0 va >>= huge_l1 va pa va_end flags)
unfolding map_huge huge_l1 huge_l2 huge_l3
map_huge-l1 m t va pa va_end flags = refl

module _ (m m1 : Machine) (t n1 e1 va pa va_end flags : ℕ)
    (s1 : step_down m t 0 va ≡ ok (m1, n1, e1)) where
  pub huge_1g :
      block_fits (2 ^ 30) va pa va_end ≡ true
      → map_huge m t va pa va_end flags
        ≡ ok (store (entry_at 2 n1 va) (l1_block_pte pa flags) m1, 2 ^ 30)
  unfolding huge_l1
  huge_1g fit =
      map_huge-l1 m t va pa va_end flags
      ∙ ap (λ r. r >>= huge_l1 va pa va_end flags) s1
      ∙ pick_then (block_fits (2 ^ 30) va pa va_end) _ _ fit
      ∙ ap (λ (i : ℕ). ok (store (n1 + 8 * i) (l1_block_pte pa flags) m1, 2 ^ 30)) (index_lem 30 va)

  module _ (m2 : Machine) (n2 e2 : ℕ) (s2 : step_down m1 n1 1 va ≡ ok (m2, n2, e2))
      (no_fit : block_fits (2 ^ 30) va pa va_end ≡ false) where
    huge_below : map_huge m t va pa va_end flags ≡ huge_l2 va pa va_end flags (m2, n2, e2)
    unfolding huge_l1
    huge_below =
        map_huge-l1 m t va pa va_end flags
        ∙ ap (λ r. r >>= huge_l1 va pa va_end flags) s1
        ∙ pick_else (block_fits (2 ^ 30) va pa va_end) _ _ no_fit
        ∙ ap (λ r. r >>= huge_l2 va pa va_end flags) s2

    pub huge_2m :
        block_fits (2 ^ 21) va pa va_end ≡ true
        → map_huge m t va pa va_end flags
          ≡ ok (store (entry_at 1 n2 va) (l2_block_pte pa flags) m2, 2 ^ 21)
    unfolding huge_l2
    huge_2m fit =
        huge_below
        ∙ pick_then (block_fits (2 ^ 21) va pa va_end) _ _ fit
        ∙ ap (λ (i : ℕ). ok (store (n2 + 8 * i) (l2_block_pte pa flags) m2, 2 ^ 21))
            (index_lem 21 va)

    pub huge_page :
        (m3 : Machine) (n3 e3 : ℕ)
        → block_fits (2 ^ 21) va pa va_end ≡ false
        → step_down m2 n2 2 va ≡ ok (m3, n3, e3)
        → n3 ≢ 0
        → map_huge m t va pa va_end flags ≡ (map_page m t va pa flags >>= λ m4. ok (m4, 4096))
    unfolding huge_l2 huge_l3
    huge_page m3 n3 e3 no_fit' s3 there =
        huge_below
        ∙ pick_else (block_fits (2 ^ 21) va pa va_end) _ _ no_fit'
        ∙ ap (λ r. r >>= huge_l3 va pa flags) s3
        ∙ ap (λ r. r >>= λ m4. ok (m4, 4096))
            (map_l3-store m3 n3 e3 va pa flags there
              ∙ sym (map_page-steps m m1 m2 m3 t n1 n2 n3 e1 e2 e3 va pa flags s1 s2 s3 there))
