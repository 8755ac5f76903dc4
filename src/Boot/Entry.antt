-- ===== src/Boot/Entry.antt =====
-- kernel/arch/aarch64/boot/raspi3/init/init_c.c: the boot code up to the jump to the kernel. The
-- addresses are those of the linker. el1_mmu_activate is kernel/arch/aarch64/boot/raspi3/init/tools.S:
-- its writes to system registers; the barriers and the invalidation of caches are left out.
use chcore_lab_v.Base.{
  ◌/◌, ◌%◌, ◌^◌, Option, some, false, ℕ, zero, suc, ◌+◌, ◌-◌, ◌≤◌, ◌≡◌, refl, ap, ◌∙◌, List, [],
  ◌∷◌, ◌&&◌, ltb, leb, if◌then◌else◌, update, Result, ok, ◌>>=◌, arith,
}
use chcore_lab_v.Boot.{Addresses, Tables, init_boot_pt}
use chcore_lab_v.Boot.Mmu.{Registers, mmu_control, mmu_mair, mmu_tcr, mmu_control-bits}
use chcore_lab_v.Uart.{Device, Uart, boot_physaddr_offset, early_uart_init, uart_send_string}
use chcore_lab_v.Uart.Polling.{IsLive, sent, uart_send_string-sent}

-- "boot: init_c\r\n"
abbrev pub msg_init_c : List ℕ
msg_init_c = 98 ∷ 111 ∷ 111 ∷ 116 ∷ 58 ∷ 32 ∷ 105 ∷ 110 ∷ 105 ∷ 116 ∷ 95 ∷ 99 ∷ 13 ∷ 10 ∷ []

-- "[BOOT] Install boot page table\r\n"
abbrev pub msg_page_table : List ℕ
msg_page_table =
    91 ∷ 66 ∷ 79 ∷ 79 ∷ 84 ∷ 93 ∷ 32 ∷ 73 ∷ 110 ∷ 115 ∷ 116 ∷ 97 ∷ 108 ∷ 108 ∷ 32 ∷ 98 ∷ 111 ∷ 111
    ∷ 116 ∷ 32 ∷ 112 ∷ 97 ∷ 103 ∷ 101 ∷ 32 ∷ 116 ∷ 97 ∷ 98 ∷ 108 ∷ 101 ∷ 13 ∷ 10 ∷ []

-- "[BOOT] Enable el1 MMU\r\n"
abbrev pub msg_mmu : List ℕ
msg_mmu =
    91 ∷ 66 ∷ 79 ∷ 79 ∷ 84 ∷ 93 ∷ 32 ∷ 69 ∷ 110 ∷ 97 ∷ 98 ∷ 108 ∷ 101 ∷ 32 ∷ 101 ∷ 108 ∷ 49 ∷ 32
    ∷ 77 ∷ 77 ∷ 85 ∷ 13 ∷ 10 ∷ []

-- "[BOOT] Jump to kernel main\r\n"
abbrev pub msg_jump : List ℕ
msg_jump =
    91 ∷ 66 ∷ 79 ∷ 79 ∷ 84 ∷ 93 ∷ 32 ∷ 74 ∷ 117 ∷ 109 ∷ 112 ∷ 32 ∷ 116 ∷ 111 ∷ 32 ∷ 107 ∷ 101 ∷ 114
    ∷ 110 ∷ 101 ∷ 108 ∷ 32 ∷ 109 ∷ 97 ∷ 105 ∷ 110 ∷ 13 ∷ 10 ∷ []

-- Where the linker puts the end of the boot code with its data, and the bss area of the kernel.
pub record Image : Type 0 where
  pub init_end : ℕ
  pub bss_start : ℕ
  pub bss_end : ℕ

-- The bytes of memory from `init_end` on; below it the flag and the tables that the boot code
-- fills; the serial line, the system registers, and the tables as they were in memory when the MMU
-- was enabled, if it was.
pub record BootState : Type 0 where
  pub bytes : ℕ → ℕ
  pub clear_bss_flag : ℕ
  pub uart : Uart
  pub tables : Tables
  pub registers : Registers
  pub enabled_with : Option Tables

-- `for (i = bss_start_addr; i < bss_end_addr; ++i) *(char *)i = 0;`, with the rounds that are left.
unfoldable pub clear_bytes : ℕ → ℕ → ℕ → (ℕ → ℕ) → ℕ → ℕ
clear_bytes zero i bss_end_addr bytes = bytes
clear_bytes (suc rounds) i bss_end_addr bytes =
    let rest = clear_bytes rounds (i + 1) bss_end_addr (update bytes i 0) in
    if ltb i bss_end_addr then rest else bytes

-- A store below `init_end` would hit what is kept apart, and is a fault here.
unfoldable pub clear_bss : Image → BootState → Result BootState
unfolding clear_bytes
clear_bss image s =
    if ltb image.bss_start image.init_end
    then Result.fault
    else ok (record s {
      bytes = clear_bytes (image.bss_end - image.bss_start) image.bss_start image.bss_end s.bytes;
      clear_bss_flag = 0;
    })

-- The arrays are page-aligned, so that `adrp` gives their addresses.
unfoldable pub el1_mmu_activate : Addresses → BootState → BootState
el1_mmu_activate at s = record s {
  registers = record {
    mair_el1 = mmu_mair;
    tcr_el1 = mmu_tcr;
    ttbr0_el1 = at.ttbr0_l0;
    ttbr1_el1 = at.ttbr1_l0;
    sctlr_el1 = mmu_control s.registers.sctlr_el1;
  };
  enabled_with = some s.tables;
}

unfoldable pub say : Device → ℕ → List ℕ → BootState → Result BootState
unfolding uart_send_string
say device fuel str s = do
  uart' ← uart_send_string device fuel str s.uart
  ok (record s { uart = uart' })

-- The state that start_kernel is called in. `fuel` bounds each wait for the serial line.
unfoldable pub init_c : Device → ℕ → Image → Addresses → BootState → Result BootState
unfolding clear_bss early_uart_init say init_boot_pt el1_mmu_activate
init_c device fuel image at s = do
  s1 ← clear_bss image s
  let s2 = record s1 { uart = early_uart_init device s1.uart }
  s3 ← say device fuel msg_init_c s2
  s4 ← say device fuel msg_page_table s3
  let s5 = el1_mmu_activate at (record s4 { tables = init_boot_pt at s4.tables })
  s6 ← say device fuel msg_mmu s5
  say device fuel msg_jump s6

clear_bytes_lem :
    (rounds i end a : ℕ) (bytes : ℕ → ℕ)
    → i + rounds ≡ end
    → clear_bytes rounds i end bytes a ≡ (if leb i a && ltb a end then 0 else bytes a)
unfolding clear_bytes
clear_bytes_lem zero i end a bytes e = ground arith
clear_bytes_lem (suc rounds) i end a bytes e =
    ground (arith, clear_bytes_lem rounds (i + 1) end a (update bytes i 0))

-- What a message leaves behind.
record Said (device : Device) (str : List ℕ) (s : BootState) (r : Result BootState) : Type 0 where
  uart' : Uart
  returns : r ≡ ok (record s { uart = uart' })
  writes : uart'.writes ≡ sent boot_physaddr_offset str s.uart.writes

say-Said :
    (device : Device) (wait : ℕ) (str : List ℕ) (s : BootState)
    → IsLive device boot_physaddr_offset 0x20 wait
    → Said device str s (say device wait str s)
unfolding say
say-Said device wait str s live =
    let (u, runs, writes) = uart_send_string-sent device wait str s.uart live in
    record {
      uart' = u;
      returns = ap (λ r. r >>= λ x. ok (record s { uart = x })) runs;
      writes = writes;
    }

-- What init_c hands to the kernel.
pub record Booted (device : Device) (image : Image) (at : Addresses) (s : BootState)
    (r : Result BootState) : Type 0 where
  pub after : BootState
  pub returns : r ≡ ok after
  pub bss :
      (a : ℕ)
      → after.bytes a ≡ (if leb image.bss_start a && ltb a image.bss_end then 0 else s.bytes a)
  pub flag : after.clear_bss_flag ≡ 0
  pub paged : after.tables ≡ init_boot_pt at s.tables
  -- The MMU is on, from the top tables, and was enabled when the tables were complete.
  pub enabled : after.enabled_with ≡ some (init_boot_pt at s.tables)
  pub roots : (after.registers.ttbr0_el1 ≡ at.ttbr0_l0) × (after.registers.ttbr1_el1 ≡ at.ttbr1_l0)
  pub mmu_on : after.registers.sctlr_el1 % 2 ≡ 1
  pub caches_on :
      (after.registers.sctlr_el1 / 2 ^ 2 % 2 ≡ 1) × (after.registers.sctlr_el1 / 2 ^ 12 % 2 ≡ 1)
  pub sizes :
      (after.registers.tcr_el1 % 2 ^ 6 ≡ 64 - 48)
      × (after.registers.tcr_el1 / 2 ^ 16 % 2 ^ 6 ≡ 64 - 48)
  -- Write-back, device, and uncached memory.
  pub memory_types : after.registers.mair_el1 ≡ 0x4404ff
  -- The messages in order, after the set-up of the device.
  pub messages :
      after.uart.writes
      ≡ sent boot_physaddr_offset msg_jump (
          sent boot_physaddr_offset msg_mmu (
            sent boot_physaddr_offset msg_page_table
              (sent boot_physaddr_offset msg_init_c (early_uart_init device s.uart).writes)))

init_c-run :
    (device : Device) (fuel : ℕ) (image : Image) (at : Addresses) (s s1 s3 s4 s6 s7 : BootState)
    → clear_bss image s ≡ ok s1
    → say device fuel msg_init_c (record s1 { uart = early_uart_init device s1.uart }) ≡ ok s3
    → say device fuel msg_page_table s3 ≡ ok s4
    → say device fuel msg_mmu
        (el1_mmu_activate at (record s4 { tables = init_boot_pt at s4.tables }))
      ≡ ok s6
    → say device fuel msg_jump s6 ≡ ok s7
    → init_c device fuel image at s ≡ ok s7
unfolding init_c
init_c-run device fuel image at s s1 s3 s4 s6 s7 e1 e3 e4 e6 e7 =
    ap
      (λ r. r >>= λ x1.
        say device fuel msg_init_c (record x1 { uart = early_uart_init device x1.uart }) >>= λ x3.
        say device fuel msg_page_table x3 >>= λ x4.
        say device fuel msg_mmu
          (el1_mmu_activate at (record x4 { tables = init_boot_pt at x4.tables }))
        >>= λ x6. say device fuel msg_jump x6)
      e1
    ∙ ap
        (λ r. r >>= λ x3. say device fuel msg_page_table x3 >>= λ x4.
          say device fuel msg_mmu
            (el1_mmu_activate at (record x4 { tables = init_boot_pt at x4.tables }))
          >>= λ x6. say device fuel msg_jump x6)
        e3
    ∙ ap
        (λ r. r >>= λ x4.
          say device fuel msg_mmu
            (el1_mmu_activate at (record x4 { tables = init_boot_pt at x4.tables }))
          >>= λ x6. say device fuel msg_jump x6)
        e4
    ∙ ap (λ r. r >>= λ x6. say device fuel msg_jump x6) e6
    ∙ e7

after_clear : Image → BootState → BootState
after_clear image s = record s {
  bytes = clear_bytes (image.bss_end - image.bss_start) image.bss_start image.bss_end s.bytes;
  clear_bss_flag = 0;
}

clear_bss_run :
    (image : Image) (s : BootState)
    → image.init_end ≤ image.bss_start
    → clear_bss image s ≡ ok (after_clear image s)
unfolding clear_bss after_clear
clear_bss_run image s apart =
    let e : ltb image.bss_start image.init_end ≡ false = ground arith in rw e refl

-- For a device that gets ready to send within a number of reads from any time on, and a bss area
-- that starts after the boot code with its data and does not end before it starts, init_c reaches
-- the jump to the kernel: the bytes of the bss area are 0 and no other byte from the end of the
-- boot code on has changed, clear_bss_flag is 0, the boot page tables are those of init_boot_pt
-- and were so when the MMU was enabled, the MMU and the caches are on with the two top tables as
-- roots, addresses of 48 bits and the three memory types of the tables, and the four messages are
-- sent in order after the set-up of the device.
pub init_c-Booted :
    (device : Device) (wait : ℕ) (image : Image) (at : Addresses) (s : BootState)
    → image.init_end ≤ image.bss_start
    → image.bss_start ≤ image.bss_end
    → IsLive device boot_physaddr_offset 0x20 wait
    → Booted device image at s (init_c device wait image at s)
unfolding after_clear el1_mmu_activate
init_c-Booted device wait image at s apart ordered live =
    let s1 = after_clear image s in
    let d1 =
      say-Said device wait msg_init_c (record s1 { uart = early_uart_init device s.uart }) live in
    let s3 : BootState = record s1 { uart = d1.uart' } in
    let d2 = say-Said device wait msg_page_table s3 live in
    let s4 : BootState = record s3 { uart = d2.uart' } in
    let s5 : BootState = el1_mmu_activate at (record s4 { tables = init_boot_pt at s.tables }) in
    let d3 = say-Said device wait msg_mmu s5 live in
    let s6 : BootState = record s5 { uart = d3.uart' } in
    let d4 = say-Said device wait msg_jump s6 live in
    let bits = mmu_control-bits s.registers.sctlr_el1 in
    record {
      after = record s6 { uart = d4.uart' };
      returns =
          init_c-run device wait image at s s1 s3 s4 s6 (record s6 { uart = d4.uart' })
            (clear_bss_run image s apart) d1.returns d2.returns d3.returns d4.returns;
      bss = λ a.
          clear_bytes_lem (image.bss_end - image.bss_start) image.bss_start image.bss_end a s.bytes
            (omega arith);
      flag = refl;
      paged = refl;
      enabled = refl;
      roots = (refl, refl);
      mmu_on = bits.0;
      caches_on = (bits.1, bits.2);
      sizes = (refl, refl);
      memory_types = refl;
      messages =
          d4.writes
          ∙ ap (λ ws. sent boot_physaddr_offset msg_jump ws)
              (d3.writes
                ∙ ap (λ ws. sent boot_physaddr_offset msg_mmu ws)
                    (d2.writes ∙ ap (λ ws. sent boot_physaddr_offset msg_page_table ws) d1.writes));
    }
