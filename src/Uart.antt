-- ===== src/Uart.antt =====
-- kernel/arch/aarch64/plat/raspi3/uart/uart.c and the boot's copy of it,
-- kernel/arch/aarch64/boot/raspi3/peripherals/uart.c: the serial line. What the device answers is a
-- parameter; the accesses of its registers are numbered, and the writes are kept. `delay` counts a
-- local variable down and touches nothing.
mod Tests
pub mod Polling
use chcore_lab_v.Base.{
  ℕ, zero, suc, ◌+◌, ◌-◌, ◌*◌, ◌^◌, Bool, not, List, [], ◌∷◌, bit_and, bit_or, ◌==◌, if◌then◌else◌,
  Result, ok, ◌>>=◌,
}
use chcore_lab_v.PageTable.{kbase}

-- What the register at an address reads at the access with a number.
abbrev pub Device : Type 0
Device = ℕ → ℕ → ℕ

-- The number of accesses so far, and the writes, the latest first, each with its address.
pub record Uart : Type 0 where
  pub accesses : ℕ
  pub writes : List (ℕ × ℕ)

abbrev pub get32 : Device → ℕ → Uart → Uart × ℕ
get32 device addr u = (record u { accesses = u.accesses + 1 }, device u.accesses addr)

abbrev pub put32 : ℕ → ℕ → Uart → Uart
put32 addr value u = record { accesses = u.accesses + 1; writes = (addr, value) ∷ u.writes }

-- PHYSADDR_OFFSET of the kernel and of the boot code, and the registers by their offset.
abbrev pub kernel_physaddr_offset : ℕ
kernel_physaddr_offset = kbase + 0x3f000000

abbrev pub boot_physaddr_offset : ℕ
boot_physaddr_offset = 0x3f000000

abbrev pub gpfsel1 : ℕ → ℕ
gpfsel1 offset = offset + 0x00200004

abbrev pub gppud : ℕ → ℕ
gppud offset = offset + 0x00200094

abbrev pub gppudclk0 : ℕ → ℕ
gppudclk0 offset = offset + 0x00200098

abbrev pub aux_enables : ℕ → ℕ
aux_enables offset = offset + 0x00215004

abbrev pub aux_mu_io_reg : ℕ → ℕ
aux_mu_io_reg offset = offset + 0x00215040

abbrev pub aux_mu_ier_reg : ℕ → ℕ
aux_mu_ier_reg offset = offset + 0x00215044

abbrev pub aux_mu_lcr_reg : ℕ → ℕ
aux_mu_lcr_reg offset = offset + 0x0021504c

abbrev pub aux_mu_mcr_reg : ℕ → ℕ
aux_mu_mcr_reg offset = offset + 0x00215050

abbrev pub aux_mu_lsr_reg : ℕ → ℕ
aux_mu_lsr_reg offset = offset + 0x00215054

abbrev pub aux_mu_cntl_reg : ℕ → ℕ
aux_mu_cntl_reg offset = offset + 0x00215060

abbrev pub aux_mu_baud_reg : ℕ → ℕ
aux_mu_baud_reg offset = offset + 0x00215068

-- `ra &= ~(7 << shift); ra |= 2 << shift;` on 32 bits.
abbrev pub select_alt5 : ℕ → ℕ → ℕ
select_alt5 shift ra = bit_or (bit_and ra (2 ^ 32 - 1 - 7 * 2 ^ shift)) (2 * 2 ^ shift)

-- The set-up that uart_init and early_uart_init share, statement by statement.
abbrev pub setup : Device → ℕ → Uart → Uart
setup device offset u =
    let (u1, ra) = get32 device (gpfsel1 offset) u in
    let u2 = put32 (gpfsel1 offset) (select_alt5 15 (select_alt5 12 ra)) u1 in
    let u3 = put32 (gppud offset) 0 u2 in
    let u4 = put32 (gppudclk0 offset) (bit_or (2 ^ 14) (2 ^ 15)) u3 in
    let u5 = put32 (gppudclk0 offset) 0 u4 in
    let u6 = put32 (aux_enables offset) 1 u5 in
    let u7 = put32 (aux_mu_ier_reg offset) 0 u6 in
    let u8 = put32 (aux_mu_cntl_reg offset) 0 u7 in
    let u9 = put32 (aux_mu_ier_reg offset) 0 u8 in
    let u10 = put32 (aux_mu_lcr_reg offset) 3 u9 in
    let u11 = put32 (aux_mu_mcr_reg offset) 0 u10 in
    let u12 = put32 (aux_mu_baud_reg offset) 270 u11 in put32 (aux_mu_cntl_reg offset) 3 u12

abbrev pub has_status : ℕ → ℕ → Bool
has_status status mask = not (bit_and status mask == 0)

abbrev pub uart_lsr : Device → ℕ → Uart → Uart × ℕ
uart_lsr device offset u = get32 device (aux_mu_lsr_reg offset) u

-- `while (1) { if (uart_lsr() & mask) break; }`, with the rounds that are left.
unfoldable pub wait_for : Device → ℕ → ℕ → ℕ → Uart → Result Uart
wait_for device offset mask zero u = Result.out_of_fuel
wait_for device offset mask (suc fuel) u =
    let (u', status) = uart_lsr device offset u in
    let rest = wait_for device offset mask fuel u' in if has_status status mask then ok u' else rest

unfoldable pub uart_send : Device → ℕ → ℕ → ℕ → Uart → Result Uart
unfolding wait_for
uart_send device offset fuel c u = do
  u' ← wait_for device offset 0x20 fuel u
  ok (put32 (aux_mu_io_reg offset) c u')

unfoldable pub uart_recv : Device → ℕ → ℕ → Uart → Result (Uart × ℕ)
unfolding wait_for
uart_recv device offset fuel u = do
  u' ← wait_for device offset 0x01 fuel u
  let (u'', io) = get32 device (aux_mu_io_reg offset) u'
  ok (u'', bit_and io 0xff)

-- NB_UART_NRET is `(u32)-1`.
abbrev pub nb_uart_nret : ℕ
nb_uart_nret = 2 ^ 32 - 1

unfoldable pub nb_uart_recv : Device → ℕ → Uart → Uart × ℕ
nb_uart_recv device offset u =
    let (u', status) = uart_lsr device offset u in
    let (u'', io) = get32 device (aux_mu_io_reg offset) u' in
    if has_status status 0x01 then (u'', bit_and io 0xff) else (u', nb_uart_nret)

-- The copies of the boot code.
abbrev pub early_uart_lsr : Device → Uart → Uart × ℕ
early_uart_lsr device u = uart_lsr device boot_physaddr_offset u

unfoldable pub early_uart_send : Device → ℕ → ℕ → Uart → Result Uart
unfolding uart_send
early_uart_send device fuel c u = uart_send device boot_physaddr_offset fuel c u

-- The characters of a string before its terminator, each waited for in turn.
unfoldable pub uart_send_string : Device → ℕ → List ℕ → Uart → Result Uart
unfolding early_uart_send
uart_send_string device fuel [] u = ok u
uart_send_string device fuel (c ∷ str) u = do
  u' ← early_uart_send device fuel c u
  uart_send_string device fuel str u'

-- uart_init sends what clears the screen: form feed, escape, "[2J".
unfoldable pub uart_init : Device → ℕ → Uart → Result Uart
unfolding uart_send
uart_init device fuel u = do
  u1 ← uart_send device kernel_physaddr_offset fuel 12 (setup device kernel_physaddr_offset u)
  u2 ← uart_send device kernel_physaddr_offset fuel 27 u1
  u3 ← uart_send device kernel_physaddr_offset fuel 0x5b u2
  u4 ← uart_send device kernel_physaddr_offset fuel 0x32 u3
  uart_send device kernel_physaddr_offset fuel 0x4a u4

unfoldable pub early_uart_init : Device → Uart → Uart
early_uart_init device u = setup device boot_physaddr_offset u
