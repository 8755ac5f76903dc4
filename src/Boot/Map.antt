-- ===== src/Boot/Map.antt =====
-- What the loops of init_boot_pt leave in the tables of the last level.
use chcore_lab_v.Base.{
  ℕ, zero, suc, ◌+◌, ◌-◌, ◌*◌, ◌/◌, ◌%◌, ◌^◌, ◌≤◌, ◌<◌, ◌≡◌, refl, sym, ap, ◌∙◌, inl, inr, Bool,
  true, ◌&&◌, ◌==◌, ltb, update, dec_lt, arith, get_field, Bool-cases, subst, if◌then◌else◌,
}
use chcore_lab_v.Base.Bits.{bit_and-mask}
use chcore_lab_v.Boot.{
  Addresses, Tables, size_2m, kernel_vaddr, get_l2_index, normal_block, device_block, map_2m,
  map_memory, init_boot_pt,
}

index_of : (k i va : ℕ) → i < 512 → va ≡ k * 2 ^ 30 + i * 2097152 → get_l2_index va ≡ i
index_of k i va h e = bit_and-mask 9 (va / 2 ^ 21) ∙ omega arith

-- The loop from the entry `i` to before the entry `j`, for a base address that is a multiple of 1G.
module _ (block : ℕ → ℕ) (k j end : ℕ) (j_le : j ≤ 512)
    (at_end : end ≡ k * 2 ^ 30 + j * 2097152) where
  map_2m_below :
      (fuel i x va : ℕ) (l2 : ℕ → ℕ)
      → va ≡ k * 2 ^ 30 + i * 2097152
      → x < i
      → map_2m block (k * 2 ^ 30) fuel va end l2 x ≡ l2 x
  unfolding map_2m
  map_2m_below zero i x va l2 e h = refl
  map_2m_below (suc fuel) i x va l2 e h = elim (Bool-cases (ltb va end)) [
    | inl more ↦
        let idx = index_of k i va (ground (arith, at_end)) e in
        let rest =
          map_2m_below fuel (i + 1) x (va + size_2m)
            (update l2 (get_l2_index va) (block (va - k * 2 ^ 30))) (omega arith) (omega arith) in
        rw more (rest ∙ ground (arith, idx))
    | inr done ↦ rw done refl
  ]

  map_2m_at :
      (fuel i x va : ℕ) (l2 : ℕ → ℕ)
      → va ≡ k * 2 ^ 30 + i * 2097152
      → j ≤ i + fuel
      → i ≤ x
      → x < j
      → map_2m block (k * 2 ^ 30) fuel va end l2 x ≡ block (x * 2097152)
  unfolding map_2m
  map_2m_at zero i x va l2 e enough lo hi = absurd (omega arith)
  map_2m_at (suc fuel) i x va l2 e enough lo hi =
      let more : ltb va end ≡ true = ground (arith, at_end) in
      let idx = index_of k i va (omega arith) e in
      let l2' = update l2 (get_l2_index va) (block (va - k * 2 ^ 30)) in
      elim (dec_lt i x) [
        | yes later ↦ rw more (
            map_2m_at fuel (i + 1) x (va + size_2m) l2' (omega arith) (omega arith) (omega arith)
              hi)
        | no here ↦
            let off : va - k * 2 ^ 30 ≡ x * 2097152 = omega arith in
            let now : l2' x ≡ block (va - k * 2 ^ 30) = ground (arith, idx) in
            rw more (
              map_2m_below fuel (i + 1) x (va + size_2m) l2' (omega arith) (omega arith)
              ∙ now
              ∙ ap block off)
      ]

-- The entry `i` of a table of the last level maps the `i`th 2M of physical memory.
pub boot_entry : ℕ → ℕ
boot_entry i = if ltb i 504 then normal_block (i * 2097152) else device_block (i * 2097152)

abbrev after_memory : ℕ → (ℕ → ℕ) → ℕ → ℕ
after_memory k l2 =
    map_2m normal_block (k * 2 ^ 30) 512 (k * 2 ^ 30 + 0) (k * 2 ^ 30 + 0x3f000000) l2

map_memory_lem : (k i : ℕ) (l2 : ℕ → ℕ) → i < 512 → map_memory (k * 2 ^ 30) l2 i ≡ boot_entry i
unfolding map_memory boot_entry
map_memory_lem k i l2 h = elim (Bool-cases (ltb i 504)) [
  | inl memory ↦ rw memory (
      map_2m_below device_block k 512 (k * 2 ^ 30 + 0x40000000) (omega arith) refl 512 504 i
        (k * 2 ^ 30 + 0x3f000000) (after_memory k l2) refl (ground arith)
      ∙ map_2m_at normal_block k 504 (k * 2 ^ 30 + 0x3f000000) (omega arith) refl 512 0 i
          (k * 2 ^ 30 + 0) l2 refl (omega arith) (omega arith) (ground arith))
  | inr devices ↦ rw devices (
      map_2m_at device_block k 512 (k * 2 ^ 30 + 0x40000000) (omega arith) refl 512 504 i
        (k * 2 ^ 30 + 0x3f000000) (after_memory k l2) refl (omega arith) (ground arith) h)
]

-- A check of the numbers below a bound, by running it.
all_below : ℕ → (ℕ → Bool) → Bool
all_below zero check = true
all_below (suc bound) check = all_below bound check && check bound

all_below_lem : (n : ℕ) (p : ℕ → Bool) (i : ℕ) → all_below n p ≡ true → i < n → p i ≡ true
unfolding all_below
all_below_lem zero p i h iN = absurd (omega arith)
all_below_lem (suc n) p i h iN = elim (Bool-cases (p n)) [
  | inl here ↦ elim (dec_lt i n) [
    | yes below ↦ all_below_lem n p i (ground arith) below
    | no at ↦ let same : n ≡ i = omega arith in subst (λ (x : ℕ). p x ≡ true) same here
  ]
  | inr fails ↦ absurd (ground arith)
]

-- The block that a translation of `pa` needs: valid, not a table, with the address of the 2M that
-- `pa` lies in, accessed, not global, not executable by users; device memory from 0x3f000000 on.
pub record Maps (pa w : ℕ) : Type 0 where
  pub valid_block : get_field 0 2 w ≡ 1
  pub address : get_field 21 27 w * 2 ^ 21 + pa % 2 ^ 21 ≡ pa
  pub accessed_not_global : get_field 10 2 w ≡ 3
  pub execute : get_field 53 2 w ≡ 2
  pub memory_type : get_field 2 3 w ≡ (if ltb pa 0x3f000000 then 0 else 1)
  pub shareability : get_field 8 2 w ≡ (if ltb pa 0x3f000000 then 3 else 0)

abbrev fields_of : ℕ → Bool
fields_of i =
    let w = boot_entry i in
    get_field 0 2 w == 1
    && get_field 21 27 w == i
    && get_field 10 2 w == 3
    && get_field 53 2 w == 2
    && get_field 2 3 w == (if ltb i 504 then 0 else 1)
    && get_field 8 2 w == (if ltb i 504 then 3 else 0)

all_fields : all_below 512 fields_of ≡ true
unfolding all_below boot_entry normal_block device_block
all_fields = refl

fields_of_entry : (i : ℕ) → i < 512 → fields_of i ≡ true
fields_of_entry i h = all_below_lem 512 fields_of i all_fields h

boot_entry-Maps : (pa : ℕ) → pa < 2 ^ 30 → Maps pa (boot_entry (pa / 2 ^ 21))
boot_entry-Maps pa h =
    let f = fields_of_entry (pa / 2 ^ 21) (omega arith) in
    record {
      valid_block = ground (arith, f);
      address = ground (arith, f);
      accessed_not_global = ground (arith, f);
      execute = ground (arith, f);
      memory_type = ground (arith, f);
      shareability = ground (arith, f);
    }

-- After init_boot_pt, for every physical address below 1G, the entry of the table of the last
-- level that the address itself selects in TTBR0, and the one that its kernel address selects in
-- TTBR1, map it.
pub init_boot_pt-Maps :
    (at : Addresses) (t : Tables) (pa : ℕ)
    → pa < 2 ^ 30
    → Maps pa ((init_boot_pt at t).boot_ttbr0_l2 (get_l2_index pa))
      × Maps pa ((init_boot_pt at t).boot_ttbr1_l2 (get_l2_index (kernel_vaddr + pa)))
unfolding init_boot_pt
init_boot_pt-Maps at t pa h =
    let low : get_l2_index pa ≡ pa / 2 ^ 21 = bit_and-mask 9 (pa / 2 ^ 21) ∙ omega arith in
    let high : get_l2_index (kernel_vaddr + pa) ≡ pa / 2 ^ 21 =
      bit_and-mask 9 ((kernel_vaddr + pa) / 2 ^ 21) ∙ omega arith in
    let e0 = map_memory_lem 0 (pa / 2 ^ 21) t.boot_ttbr0_l2 (omega arith) in
    let e1 = map_memory_lem 0x3fffffc00 (pa / 2 ^ 21) t.boot_ttbr1_l2 (omega arith) in
    (
      subst (Maps pa) (sym (ap (map_memory 0 t.boot_ttbr0_l2) low ∙ e0)) (boot_entry-Maps pa h),
      subst (Maps pa) (sym (ap (map_memory kernel_vaddr t.boot_ttbr1_l2) high ∙ e1))
          (boot_entry-Maps pa h),
    )
