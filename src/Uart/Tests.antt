-- ===== src/Uart/Tests.antt =====
-- Runs against a device that gets ready at every third access.
use chcore_lab_v.Base.{ℕ, ◌%◌, ◌≡◌, refl, List, [], ◌∷◌, ◌==◌, if◌then◌else◌, ok, ◌>>=◌}
use chcore_lab_v.Uart.{
  Device, Uart, kernel_physaddr_offset, nb_uart_nret, uart_init, uart_recv, nb_uart_recv,
  uart_send_string,
}

abbrev slow : Device
slow t addr = if t % 3 == 2 then 0x121 else 0

abbrev quiet : Uart
quiet = record { accesses = 0; writes = [] }

-- The characters that went out, the latest first.
abbrev values : List (ℕ × ℕ) → List ℕ
values [] = []
values ((addr, value) ∷ writes) = value ∷ values writes

send_two :
    (uart_send_string slow 3 (0x4f ∷ 0x4b ∷ []) quiet >>= λ u. ok (values u.writes))
    ≡ ok (0x4b ∷ 0x4f ∷ [])
unfolding uart_send_string
send_two = refl

init_values :
    (uart_init slow 3 quiet >>= λ u. ok (values u.writes))
    ≡ ok (
        0x4a ∷ 0x32 ∷ 0x5b ∷ 27 ∷ 12 ∷ 3 ∷ 270 ∷ 0 ∷ 3 ∷ 0 ∷ 0 ∷ 0 ∷ 1 ∷ 0 ∷ 0xc000 ∷ 0 ∷ 0x12000
        ∷ [])
unfolding uart_init
init_values = refl

recv_byte : (uart_recv slow kernel_physaddr_offset 3 quiet >>= λ r. ok r.1) ≡ ok 0
unfolding uart_recv
recv_byte = refl

recv_nothing : (nb_uart_recv slow kernel_physaddr_offset quiet).1 ≡ nb_uart_nret
unfolding nb_uart_recv
recv_nothing = refl
