-- ===== src/RawUart/Rx/Kept.antt =====
-- What receiving in kernel/generic_raw_uart.c leaves alone.
use pi_vccu.Prelude.{ℕ, ◌≡◌, Bool-cases, inl, inr, arith}
use pi_vccu.Kernel.{CircMacros}
use pi_vccu.RawUart.{Instance}
use pi_vccu.RawUart.Rx.{count_errors, dump_rx_char, handle_rx_char, rx_completed}
use pi_vccu.RawUart.Rx.Stream.{IsRxValid, pending}

module _ (circ : CircMacros) {D : Type 0} (s : Instance D) where
  -- A character changes neither the driver's state nor the state of the connection.
  pub handle_rx_char_keeps :
      (flags x : ℕ)
      → ((handle_rx_char circ flags x s).hw ≡ s.hw)
        × ((handle_rx_char circ flags x s).connection_state ≡ s.connection_state)
  unfolding handle_rx_char count_errors dump_rx_char
  handle_rx_char_keeps flags x = (ground arith, ground arith)

module _ {D : Type 0} (s : Instance D) where
  -- The end of a run of characters only starts the dump anew.
  pub rx_completed_keeps :
      (pending (rx_completed s) ≡ pending s)
      × ((rx_completed s).hw ≡ s.hw)
      × ((rx_completed s).connection_state ≡ s.connection_state)
  unfolding rx_completed
  rx_completed_keeps = (ground arith, ground arith, ground arith)

  pub rx_completed-IsRxValid : IsRxValid s → IsRxValid (rx_completed s)
  unfolding rx_completed
  rx_completed-IsRxValid v = elim (Bool-cases s.dump_traffic) [
    | inl e ↦ rw e (record { ring = v.ring; dump_pos = omega arith; dump_size = v.dump_size })
    | inr e ↦ rw e (record { ring = v.ring; dump_pos = v.dump_pos; dump_size = v.dump_size })
  ]
