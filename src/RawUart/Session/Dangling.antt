-- ===== src/RawUart/Session/Dangling.antt =====
-- A connection that is closed while it still holds the transmitter, in
-- kernel/generic_raw_uart.c: `close` frees it and leaves `tx_connection` pointing to it.
use mathlib.Core.Option
use pi_vccu.Prelude.{ℕ, suc, ◌≡◌, none, some, [], ◌∷◌, false, ==-refl, arith}
use pi_vccu.Kernel.{err, erestartsys}
use pi_vccu.RawUart.{RawUartDriver, Instance}
use pi_vccu.RawUart.Tx.{
  tx_loop, tx_finish, tx_queued_unlocked, send_completed, tx_signalled, wrote, wait_completed,
  acquire_sender,
}
use pi_vccu.RawUart.Session.{close_connection}

module _ {D : Type 0} (drv : RawUartDriver D) where
  -- With a pointer to freed memory the next transmit interrupt, and the next writer, fault.
  pub record Dangles (p : ℕ) (s : Instance D) : Type 0 where
    pub pointer : s.tx_connection ≡ some p
    pub freed : s.conns p ≡ none
    pub interrupt_faults : tx_queued_unlocked drv s ≡ none
    pub writer_faults : (q : ℕ) → acquire_sender drv q s ≡ none

  tx_finish_dangling :
      (p : ℕ) (s : Instance D)
      → s.tx_connection ≡ some p
      → s.conns p ≡ none
      → tx_finish drv s ≡ none
  unfolding tx_finish
  tx_finish_dangling p s e f = ground arith

  -- The loop stops at such a pointer, whatever the fuel is.
  tx_loop_dangling :
      (fuel p : ℕ) (s : Instance D)
      → s.tx_connection ≡ some p
      → s.conns p ≡ none
      → Option.bind (tx_loop drv (suc fuel) 0 s) (tx_finish drv) ≡ none
  unfolding tx_loop Option.bind tx_finish
  tx_loop_dangling fuel p s e f = ground arith

  tx_queued_dangling :
      (p : ℕ) (s : Instance D)
      → s.tx_connection ≡ some p
      → s.conns p ≡ none
      → tx_queued_unlocked drv s ≡ none
  unfolding tx_queued_unlocked
  tx_queued_dangling p s e f = tx_loop_dangling 4095 p s e f

  acquire_dangling :
      (p q : ℕ) (s : Instance D)
      → s.tx_connection ≡ some p
      → s.conns p ≡ none
      → acquire_sender drv q s ≡ none
  unfolding acquire_sender
  acquire_dangling p q s e f = ground arith

  -- A write that a signal interrupts while its bytes are being sent returns with the transmitter
  -- still taken, and the close that follows leaves it pointing to freed memory.
  pub close_while_sending :
      (p : ℕ) (s t : Instance D)
      → s.tx_connection ≡ some p
      → t.tx_connection ≡ some p
      → (wait_completed p (tx_signalled t ∷ []) s ≡ wrote (err erestartsys) t)
        × Dangles p (close_connection drv false false p t).1
  unfolding wait_completed send_completed close_connection
  close_while_sending p s t e f = (
    ground arith,
    record {
      pointer = f;
      freed = rw ==-refl;
      interrupt_faults = tx_queued_dangling p _ f (rw ==-refl);
      writer_faults = λ q. acquire_dangling p q _ f (rw ==-refl);
    },
  )
