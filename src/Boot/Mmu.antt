-- ===== src/Boot/Mmu.antt =====
-- The system registers that el1_mmu_activate of kernel/arch/aarch64/boot/raspi3/init/tools.S writes.
use chcore_lab_v.Base.{ℕ, ◌+◌, ◌-◌, ◌*◌, ◌/◌, ◌%◌, ◌^◌, ◌≡◌, ◌==◌, if◌then◌else◌, arith}

-- The system registers that el1_mmu_activate writes.
pub record Registers : Type 0 where
  pub mair_el1 : ℕ
  pub tcr_el1 : ℕ
  pub ttbr0_el1 : ℕ
  pub ttbr1_el1 : ℕ
  pub sctlr_el1 : ℕ

-- `orr` and `bic` with a single bit.
abbrev pub set_bit : ℕ → ℕ → ℕ
set_bit k x = if x / 2 ^ k % 2 == 0 then x + 2 ^ k else x

abbrev pub clear_bit : ℕ → ℕ → ℕ
clear_bit k x = if x / 2 ^ k % 2 == 0 then x else x - 2 ^ k

-- SCTLR_EL1: M (0), A (1), C (2), SA (3), SA0 (4), nAA (6) and I (12).
abbrev pub mmu_control : ℕ → ℕ
mmu_control x =
    set_bit 12 (set_bit 2 (set_bit 6 (clear_bit 3 (clear_bit 4 (clear_bit 1 (set_bit 0 x))))))

abbrev pub mmu_mair : ℕ
mmu_mair = 0xff + 0x04 * 2 ^ 8 + 0x44 * 2 ^ 16

-- MMU_TCR_FLAGS1, MMU_TCR_FLAGS0, MMU_TCR_IPS and MMU_TCR_AS.
abbrev pub mmu_tcr : ℕ
mmu_tcr =
    (3 * 2 ^ 28 + 2 ^ 26 + 2 ^ 24 + 16 * 2 ^ 16)
    + (3 * 2 ^ 12 + 2 ^ 10 + 2 ^ 8 + 16)
    + (5 * 2 ^ 32 + 2 ^ 36)

-- Changes of other bits.
odd_kept :
    (x : ℕ)
    → x % 2 ≡ 1
    → (clear_bit 1 x % 2 ≡ 1)
      × (clear_bit 3 x % 2 ≡ 1)
      × (clear_bit 4 x % 2 ≡ 1)
      × (set_bit 2 x % 2 ≡ 1)
      × (set_bit 6 x % 2 ≡ 1)
      × (set_bit 12 x % 2 ≡ 1)
odd_kept x h = (ground arith, ground arith, ground arith, ground arith, ground arith, ground arith)

set_bit_self :
    (x : ℕ)
    → (set_bit 0 x % 2 ≡ 1) × (set_bit 2 x / 2 ^ 2 % 2 ≡ 1) × (set_bit 12 x / 2 ^ 12 % 2 ≡ 1)
set_bit_self x = (ground arith, ground arith, ground arith)

third_kept : (x : ℕ) → x / 2 ^ 2 % 2 ≡ 1 → set_bit 12 x / 2 ^ 2 % 2 ≡ 1
third_kept x h = ground arith

pub mmu_control-bits :
    (x : ℕ)
    → (mmu_control x % 2 ≡ 1) × (mmu_control x / 2 ^ 2 % 2 ≡ 1) × (mmu_control x / 2 ^ 12 % 2 ≡ 1)
mmu_control-bits x =
    let a = set_bit 0 x in
    let b = clear_bit 1 a in
    let c = clear_bit 4 b in
    let d = clear_bit 3 c in
    let e = set_bit 6 d in
    let f = set_bit 2 e in
    (
      (odd_kept f
          (odd_kept e
            (odd_kept d (odd_kept c (odd_kept b (odd_kept a (set_bit_self x).0).0).2).1).4).3).5,
      third_kept f (set_bit_self e).1,
      (set_bit_self f).2,
    )
