-- ===== src/Boot/Tests.antt =====
-- The boot tables of arrays that start at 0x80000.
use chcore_lab_v.Base.{none, ◌+◌, ◌≡◌, refl, [], arith}
use chcore_lab_v.Boot.{Addresses, Tables, get_l2_index, kernel_vaddr, init_boot_pt}
use chcore_lab_v.Boot.Entry.{Image, BootState, Booted, init_c, init_c-Booted}
use chcore_lab_v.Uart.{Device}
use chcore_lab_v.Boot.Map.{Maps, init_boot_pt-Maps}

abbrev at : Addresses
at = record {
  ttbr0_l0 = 0x84000;
  ttbr0_l1 = 0x80000;
  ttbr0_l2 = 0x81000;
  ttbr1_l0 = 0x85000;
  ttbr1_l1 = 0x82000;
  ttbr1_l2 = 0x83000;
}

abbrev image : Image
image = record { init_end = 0x88000; bss_start = 0x90000; bss_end = 0x91000 }

abbrev zeros : Tables
zeros = record {
  boot_ttbr0_l0 = λ _. 0;
  boot_ttbr0_l1 = λ _. 0;
  boot_ttbr0_l2 = λ _. 0;
  boot_ttbr1_l0 = λ _. 0;
  boot_ttbr1_l1 = λ _. 0;
  boot_ttbr1_l2 = λ _. 0;
}

kernel_l0 : (init_boot_pt at zeros).boot_ttbr1_l0 510 ≡ 0x82803
unfolding init_boot_pt
kernel_l0 = refl

init_boot_pt-Maps_example :
    Maps 0x3f201000 ((init_boot_pt at zeros).boot_ttbr0_l2 (get_l2_index 0x3f201000))
    × Maps 0x3f201000
        ((init_boot_pt at zeros).boot_ttbr1_l2 (get_l2_index (kernel_vaddr + 0x3f201000)))
init_boot_pt-Maps_example = init_boot_pt-Maps at zeros 0x3f201000 (omega arith)

abbrev ready_device : Device
ready_device t addr = 0x20

abbrev dirty : BootState
dirty = record {
  bytes = λ _. 7;
  clear_bss_flag = 0xbeef;
  uart = record { accesses = 0; writes = [] };
  tables = zeros;
  registers = record {
    mair_el1 = 0;
    tcr_el1 = 0;
    ttbr0_el1 = 0;
    ttbr1_el1 = 0;
    sctlr_el1 = 0x30d0081a;
  };
  enabled_with = none;
}

init_c-Booted_example : Booted ready_device image at dirty (init_c ready_device 1 image at dirty)
init_c-Booted_example =
    init_c-Booted ready_device 1 image at dirty (omega arith) (omega arith)
      (λ t. (0, omega arith, refl))
