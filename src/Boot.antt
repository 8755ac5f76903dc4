-- ===== src/Boot.antt =====
-- kernel/arch/aarch64/boot/raspi3/init/mmu.c: the page tables that the kernel boots with. The
-- addresses of the arrays are those of the linker.
use chcore_lab_v.Base.{
  ℕ, zero, suc, ◌+◌, ◌-◌, ◌*◌, ◌^◌, bit_and, bit_or, ltb, if◌then◌else◌, update, shr,
}
pub mod Map
pub mod Mmu
pub mod Entry
mod Tests

abbrev pub physmem_start : ℕ
physmem_start = 0

abbrev pub peripheral_base : ℕ
peripheral_base = 0x3f000000

abbrev pub physmem_end : ℕ
physmem_end = 0x40000000

abbrev pub kernel_vaddr : ℕ
kernel_vaddr = 0xffffff0000000000

abbrev pub size_2m : ℕ
size_2m = 2 * 1024 * 1024

-- The addresses of the arrays of the second and the third level, and what the arrays hold.
pub record Addresses : Type 0 where
  pub ttbr0_l0 : ℕ
  pub ttbr0_l1 : ℕ
  pub ttbr0_l2 : ℕ
  pub ttbr1_l0 : ℕ
  pub ttbr1_l1 : ℕ
  pub ttbr1_l2 : ℕ

pub record Tables : Type 0 where
  pub boot_ttbr0_l0 : ℕ → ℕ
  pub boot_ttbr0_l1 : ℕ → ℕ
  pub boot_ttbr0_l2 : ℕ → ℕ
  pub boot_ttbr1_l0 : ℕ → ℕ
  pub boot_ttbr1_l1 : ℕ → ℕ
  pub boot_ttbr1_l2 : ℕ → ℕ

abbrev pub get_l0_index : ℕ → ℕ
get_l0_index x = bit_and (shr x 39) 0x1ff

abbrev pub get_l1_index : ℕ → ℕ
get_l1_index x = bit_and (shr x 30) 0x1ff

abbrev pub get_l2_index : ℕ → ℕ
get_l2_index x = bit_and (shr x 21) 0x1ff

-- `| IS_TABLE | IS_VALID | NG`.
abbrev pub table_entry : ℕ → ℕ
table_entry addr = bit_or (bit_or (bit_or addr 2) 1) (2 ^ 11)

-- A block of normal memory: UXN, ACCESSED, NG, INNER_SHARABLE, NORMAL_MEMORY and IS_VALID.
unfoldable pub normal_block : ℕ → ℕ
normal_block pa =
    bit_or (bit_or (bit_or (bit_or (bit_or (bit_or pa (2 ^ 54)) (2 ^ 10)) (2 ^ 11)) (3 * 2 ^ 8)) 0)
      1

-- A block of a device: UXN, ACCESSED, NG, DEVICE_MEMORY and IS_VALID.
unfoldable pub device_block : ℕ → ℕ
device_block pa = bit_or (bit_or (bit_or (bit_or (bit_or pa (2 ^ 54)) (2 ^ 10)) (2 ^ 11)) (2 ^ 2)) 1

-- `for (; vaddr < end; vaddr += SIZE_2M)`. A loop has at most 512 rounds.
unfoldable pub map_2m : (ℕ → ℕ) → ℕ → ℕ → ℕ → ℕ → (ℕ → ℕ) → ℕ → ℕ
map_2m block offset zero vaddr end l2 = l2
map_2m block offset (suc fuel) vaddr end l2 =
    if ltb vaddr end
    then map_2m block offset fuel (vaddr + size_2m) end
        (update l2 (get_l2_index vaddr) (block (vaddr - offset)))
    else l2

-- The two loops over the memory and the peripherals, from `base` on.
unfoldable pub map_memory : ℕ → (ℕ → ℕ) → ℕ → ℕ
unfolding map_2m
map_memory base l2 =
    map_2m device_block base 512 (base + peripheral_base) (base + physmem_end)
      (map_2m normal_block base 512 (base + physmem_start) (base + peripheral_base) l2)

unfoldable pub init_boot_pt : Addresses → Tables → Tables
unfolding map_memory
init_boot_pt at t =
    let low = physmem_start in
    let high = kernel_vaddr + physmem_start in
    let local = kernel_vaddr + physmem_end in
    record {
      boot_ttbr0_l0 = update t.boot_ttbr0_l0 (get_l0_index low) (table_entry at.ttbr0_l1);
      boot_ttbr0_l1 = update t.boot_ttbr0_l1 (get_l1_index low) (table_entry at.ttbr0_l2);
      boot_ttbr0_l2 = map_memory 0 t.boot_ttbr0_l2;
      boot_ttbr1_l0 = update t.boot_ttbr1_l0 (get_l0_index high) (table_entry at.ttbr1_l1);
      boot_ttbr1_l1 =
          update (update t.boot_ttbr1_l1 (get_l1_index high) (table_entry at.ttbr1_l2))
            (get_l1_index local) (device_block physmem_end);
      boot_ttbr1_l2 = map_memory kernel_vaddr t.boot_ttbr1_l2;
    }
