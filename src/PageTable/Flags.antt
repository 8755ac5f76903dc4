-- ===== src/PageTable/Flags.antt =====
-- set_pte_flags of kernel/arch/aarch64/mm/page_table.c: the word that an entry becomes.
use chcore_lab_v.Base.{
  ◌%◌, ℕ, ◌+◌, ◌*◌, ◌/◌, ◌^◌, ◌<◌, ◌≡◌, ap, ◌∙◌, inl, inr, if◌then◌else◌, set_field, Bool-cases,
  arith,
}
use chcore_lab_v.PageTable.{
  has_bit, vmr_write, vmr_exec, vmr_device, vmr_nocache, set_access, set_fixed, set_memory_type,
  set_pte_flags, page_pte, l1_block_pte, l2_block_pte,
}

-- The attributes of a user mapping: readable, writable if asked for, executable by users if asked
-- for and never by the kernel, accessed, not global; the memory type, and inner shareable unless it
-- is a device.
pub attributes : ℕ → ℕ
attributes flags =
    2 ^ 53
    + 3 * 2 ^ 10
    + (if has_bit flags vmr_exec then 0 else 2 ^ 54)
    + (if has_bit flags vmr_write then 2 ^ 6 else 3 * 2 ^ 6)
    + (if has_bit flags vmr_device
        then 2 ^ 2
        else (3 * 2 ^ 8 + (if has_bit flags vmr_nocache then 2 * 2 ^ 2 else 0)))

set_access_lem :
    (low pfn flags : ℕ)
    → low < 4
    → pfn < 2 ^ 36
    → set_access flags (low + pfn * 2 ^ 12)
      ≡ low
        + pfn * 2 ^ 12
        + (if has_bit flags vmr_exec then 0 else 2 ^ 54)
        + (if has_bit flags vmr_write then 2 ^ 6 else 3 * 2 ^ 6)
unfolding set_field
set_access_lem low pfn flags h h' = elim (Bool-cases (has_bit flags vmr_exec)) [
  | inl x ↦ elim (Bool-cases (has_bit flags vmr_write)) [
    | inl w ↦ rw (x, w) (omega arith)
    | inr w ↦ rw (x, w) (omega arith)
  ]
  | inr x ↦ elim (Bool-cases (has_bit flags vmr_write)) [
    | inl w ↦ rw (x, w) (omega arith)
    | inr w ↦ rw (x, w) (omega arith)
  ]
]

set_fixed_lem :
    (low pfn acc uxn : ℕ)
    → low < 4
    → pfn < 2 ^ 36
    → acc < 4
    → uxn < 2
    → set_fixed (low + pfn * 2 ^ 12 + uxn * 2 ^ 54 + acc * 2 ^ 6)
      ≡ low + pfn * 2 ^ 12 + uxn * 2 ^ 54 + acc * 2 ^ 6 + 2 ^ 53 + 3 * 2 ^ 10 + 3 * 2 ^ 8
unfolding set_field
set_fixed_lem low pfn acc uxn h1 h2 h3 h4 =
    let w : ℕ = low + pfn * 2 ^ 12 + uxn * 2 ^ 54 + acc * 2 ^ 6 in
    let e1 : set_field 53 1 1 w ≡ w + 2 ^ 53 = omega arith in
    let e2 : set_field 10 1 1 (w + 2 ^ 53) ≡ w + 2 ^ 53 + 2 ^ 10 = omega arith in
    let e3 : set_field 11 1 1 (w + 2 ^ 53 + 2 ^ 10) ≡ w + 2 ^ 53 + 2 ^ 10 + 2 ^ 11 = omega arith in
    let e4 : set_field 8 2 3 (w + 2 ^ 53 + 2 ^ 10 + 2 ^ 11) ≡ w + 2 ^ 53 + 3 * 2 ^ 10 + 3 * 2 ^ 8 =
      omega arith in
    ap (λ (t : ℕ). set_field 8 2 3 (set_field 11 1 1 (set_field 10 1 1 t))) e1
    ∙ ap (λ (t : ℕ). set_field 8 2 3 (set_field 11 1 1 t)) e2
    ∙ ap (λ (t : ℕ). set_field 8 2 3 t) e3
    ∙ e4

set_memory_type_lem :
    (low acc rest flags : ℕ)
    → low < 4
    → acc < 4
    → set_memory_type flags (low + acc * 2 ^ 6 + 3 * 2 ^ 8 + rest * 2 ^ 10)
      ≡ low
        + acc * 2 ^ 6
        + rest * 2 ^ 10
        + (if has_bit flags vmr_device
            then 2 ^ 2
            else (3 * 2 ^ 8 + (if has_bit flags vmr_nocache then 2 * 2 ^ 2 else 0)))
unfolding set_field
set_memory_type_lem low acc rest flags h1 h2 = elim (Bool-cases (has_bit flags vmr_device)) [
  | inl d ↦
      let w : ℕ = low + acc * 2 ^ 6 + 3 * 2 ^ 8 + rest * 2 ^ 10 in
      let e1 : set_field 2 3 1 w ≡ w + 2 ^ 2 = omega arith in
      let e2 : set_field 8 2 0 (w + 2 ^ 2) ≡ low + acc * 2 ^ 6 + rest * 2 ^ 10 + 2 ^ 2 =
        omega arith in
      rw d (ap (λ (t : ℕ). set_field 8 2 0 t) e1 ∙ e2)
  | inr d ↦ elim (Bool-cases (has_bit flags vmr_nocache)) [
    | inl n ↦ rw (d, n) (omega arith)
    | inr n ↦ rw (d, n) (omega arith)
  ]
]

-- On an entry that has only its low two bits and the address bits, set_pte_flags adds exactly the
-- attributes of the flags.
pub set_pte_flags_lem :
    (low pfn flags : ℕ)
    → low < 4
    → pfn < 2 ^ 36
    → set_pte_flags (low + pfn * 2 ^ 12) flags ≡ low + pfn * 2 ^ 12 + attributes flags
unfolding set_pte_flags attributes
set_pte_flags_lem low pfn flags h1 h2 =
    let uxn : ℕ = if has_bit flags vmr_exec then 0 else 1 in
    let acc : ℕ = if has_bit flags vmr_write then 1 else 3 in
    let uxn_lt : uxn < 2 = ground arith in
    let acc_lt : acc < 4 = ground arith in
    let e1 : set_access flags (low + pfn * 2 ^ 12)
        ≡ low + pfn * 2 ^ 12 + uxn * 2 ^ 54 + acc * 2 ^ 6 =
      set_access_lem low pfn flags h1 h2 ∙ ground arith in
    let rest : ℕ = pfn * 2 ^ 2 + uxn * 2 ^ 44 + 2 ^ 43 + 3 in
    let e2 : low + pfn * 2 ^ 12 + uxn * 2 ^ 54 + acc * 2 ^ 6 + 2 ^ 53 + 3 * 2 ^ 10 + 3 * 2 ^ 8
        ≡ low + acc * 2 ^ 6 + 3 * 2 ^ 8 + rest * 2 ^ 10 =
      omega arith in
    ap (λ (t : ℕ). set_memory_type flags (set_fixed t)) e1
    ∙ ap (λ (t : ℕ). set_memory_type flags t)
        (set_fixed_lem low pfn acc uxn h1 h2 acc_lt uxn_lt ∙ e2)
    ∙ set_memory_type_lem low acc rest flags h1 acc_lt
    ∙ ground arith

-- The words of a new page and of new blocks of 2M and 1G, for a physical address below 2^48: the
-- address rounded down to the size, the type in the low two bits, and the attributes.
pub pte_words :
    (pa flags : ℕ)
    → pa < 2 ^ 48
    → (page_pte pa flags ≡ 3 + pa / 2 ^ 12 * 2 ^ 12 + attributes flags)
      × (l2_block_pte pa flags ≡ 1 + pa / 2 ^ 21 * 2 ^ 21 + attributes flags)
      × (l1_block_pte pa flags ≡ 1 + pa / 2 ^ 30 * 2 ^ 30 + attributes flags)
unfolding page_pte l2_block_pte l1_block_pte set_field
pte_words pa flags h =
    let low3 : set_field 12 36 (pa / 2 ^ 12) 3 ≡ 3 + pa / 2 ^ 12 * 2 ^ 12 = omega arith in
    let low2 : set_field 21 27 (pa / 2 ^ 21) 1 ≡ 1 + pa / 2 ^ 21 * 2 ^ 9 * 2 ^ 12 = omega arith in
    let low1 : set_field 30 18 (pa / 2 ^ 30) 1 ≡ 1 + pa / 2 ^ 30 * 2 ^ 18 * 2 ^ 12 = omega arith in
    (
      ap (λ (t : ℕ). set_pte_flags t flags) low3
          ∙ set_pte_flags_lem 3 (pa / 2 ^ 12) flags (omega arith) (omega arith),
      ap (λ (t : ℕ). set_pte_flags t flags) low2
          ∙ set_pte_flags_lem 1 (pa / 2 ^ 21 * 2 ^ 9) flags (omega arith) (omega arith)
          ∙ omega arith,
      ap (λ (t : ℕ). set_pte_flags t flags) low1
          ∙ set_pte_flags_lem 1 (pa / 2 ^ 30 * 2 ^ 18) flags (omega arith) (omega arith)
          ∙ omega arith,
    )

-- The attributes leave the bits of the address and the two lowest bits alone.
pub attributes_parts :
    (flags : ℕ) → (attributes flags % 4 ≡ 0) × (attributes flags % 2 ^ 48 < 2 ^ 12)
unfolding attributes
attributes_parts flags = elim (Bool-cases (has_bit flags vmr_exec)) [
  | inl x ↦ (ground (arith, x), ground (arith, x))
  | inr x ↦ (ground (arith, x), ground (arith, x))
]
