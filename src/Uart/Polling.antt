-- ===== src/Uart/Polling.antt =====
-- The polling loops of the UART: a device that gets ready again after a bounded number of reads
-- lets every loop end.
use chcore_lab_v.Base.{
  ℕ, zero, suc, ◌+◌, ◌<◌, ◌≡◌, refl, ap, subst, ◌∙◌, inl, inr, true, List, [], ◌∷◌, Result, ok,
  ◌>>=◌, Bool-cases, arith,
}
use chcore_lab_v.Uart.{
  Device, Uart, put32, aux_mu_io_reg, aux_mu_lsr_reg, has_status, wait_for, uart_send,
  early_uart_send, boot_physaddr_offset, uart_send_string,
}

-- From any access on, one of the next `wait` reads of the status register has the bit.
abbrev pub IsLive : Device → ℕ → ℕ → ℕ → Type 0
IsLive device offset mask wait =
    (t : ℕ)
    → (k : ℕ) × (k < wait) × (has_status (device (t + k) (aux_mu_lsr_reg offset)) mask ≡ true)

-- A loop that ends, having written nothing.
record Waited (device : Device) (offset mask : ℕ) (u : Uart) (r : Result Uart) : Type 0 where
  after : Uart
  returns : r ≡ ok after
  silent : after.writes ≡ u.writes

module _ (device : Device) (offset mask : ℕ) where
  wait_for-Waited :
      (k fuel : ℕ) (u : Uart)
      → has_status (device (u.accesses + k) (aux_mu_lsr_reg offset)) mask ≡ true
      → k < fuel
      → Waited device offset mask u (wait_for device offset mask fuel u)
  unfolding wait_for
  wait_for-Waited k zero u ready enough = absurd (omega arith)
  wait_for-Waited zero (suc fuel) u ready enough =
      let now : has_status (device u.accesses (aux_mu_lsr_reg offset)) mask ≡ true =
        subst (λ n. has_status (device n (aux_mu_lsr_reg offset)) mask ≡ true) (omega arith)
          ready in
      record {
        after = record u { accesses = u.accesses + 1 };
        returns = rw now refl;
        silent = refl;
      }
  wait_for-Waited (suc k) (suc fuel) u ready enough =
      elim (Bool-cases (has_status (device u.accesses (aux_mu_lsr_reg offset)) mask)) [
        | inl now ↦ record {
          after = record u { accesses = u.accesses + 1 };
          returns = rw now refl;
          silent = refl;
        }
        | inr later ↦
            let next : has_status (device (u.accesses + 1 + k) (aux_mu_lsr_reg offset)) mask
                ≡ true =
              subst (λ n. has_status (device n (aux_mu_lsr_reg offset)) mask ≡ true) (omega arith)
                ready in
            let rest =
              wait_for-Waited k fuel (record u { accesses = u.accesses + 1 }) next (omega arith) in
            record { after = rest.after; returns = rw later rest.returns; silent = rest.silent }
      ]

-- The writes that send a string, after those before.
unfoldable pub sent : ℕ → List ℕ → List (ℕ × ℕ) → List (ℕ × ℕ)
sent offset [] writes = writes
sent offset (c ∷ str) writes = sent offset str ((aux_mu_io_reg offset, c) ∷ writes)

early_uart_send-run :
    (device : Device) (fuel c : ℕ) (u u' : Uart)
    → wait_for device boot_physaddr_offset 0x20 fuel u ≡ ok u'
    → early_uart_send device fuel c u ≡ ok (put32 (aux_mu_io_reg boot_physaddr_offset) c u')
unfolding early_uart_send uart_send
early_uart_send-run device fuel c u u' e =
    ap (λ r. r >>= λ x. ok (put32 (aux_mu_io_reg boot_physaddr_offset) c x)) e

send_string-cons :
    (device : Device) (fuel c : ℕ) (str : List ℕ) (u u' : Uart)
    → early_uart_send device fuel c u ≡ ok u'
    → uart_send_string device fuel (c ∷ str) u ≡ uart_send_string device fuel str u'
unfolding uart_send_string
send_string-cons device fuel c str u u' e =
    ap (λ r. r >>= λ x. uart_send_string device fuel str x) e

pub uart_send_string-sent :
    (device : Device) (wait : ℕ) (str : List ℕ) (u : Uart)
    → IsLive device boot_physaddr_offset 0x20 wait
    → (after : Uart) × (uart_send_string device wait str u ≡ ok after)
      × (after.writes ≡ sent boot_physaddr_offset str u.writes)
unfolding uart_send_string sent
uart_send_string-sent device wait [] u live = (u, refl, refl)
uart_send_string-sent device wait (c ∷ str) u live =
    let (k, small, ready) = live u.accesses in
    let w = wait_for-Waited device boot_physaddr_offset 0x20 k wait u ready small in
    let u' = put32 (aux_mu_io_reg boot_physaddr_offset) c w.after in
    let (after, runs, writes) = uart_send_string-sent device wait str u' live in
    (
      after,
      send_string-cons device wait c str u u'
            (early_uart_send-run device wait c u w.after w.returns)
          ∙ runs,
      writes
          ∙ ap (λ ws. sent boot_physaddr_offset str ((aux_mu_io_reg boot_physaddr_offset, c) ∷ ws))
              w.silent,
    )
