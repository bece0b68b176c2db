-- ===== src/RawUart/Tx/Acquire.antt =====
-- Who may send, in kernel/generic_raw_uart.c, and a whole `generic_raw_uart_write`.
use mathlib.Core.Option
use pi_vccu.Prelude.{
  ℕ, ◌-◌, ◌≤◌, ◌<◌, ◌≡◌, ◌≢◌, refl, ap, ◌∙◌, List, [], ◌∷◌, ◌++◌, none, some, true, false, length,
  arith,
}
use pi_vccu.Prelude.Buffers.{overwrite, length-overwrite, slice-overwrite_self}
use pi_vccu.Kernel.{ok}
use pi_vccu.RawUart.{RawUartDriver, Conn, Instance, con_data_tx_buf_size}
use pi_vccu.RawUart.Tx.{
  store, acquire_idle, acquire_sender, send_completed, copied, TxWake, tx_signalled, tx_woken,
  wrote, wait_completed, wait_acquire, write, write_result,
}
use pi_vccu.RawUart.Tx.Loop.{IsLine, store_self}
use pi_vccu.RawUart.Tx.Queued.{tx_queued_unlocked-Transmitted}

module _ {D : Type 0} (drv : RawUartDriver D) where
  -- A connection that holds the transmitter loses it to another one only if that one has a higher
  -- priority. Its buffer and its index stay as they were, and its own wait ends.
  pub acquire_sender-preempts :
      (p q : ℕ) (s t : Instance D) (own other : Conn)
      → s.tx_connection ≡ some q
      → s.conns q ≡ some other
      → s.conns p ≡ some own
      → p ≢ q
      → acquire_sender drv p s ≡ some (true, t)
      → (other.priority < own.priority)
        × (t.tx_connection ≡ some p)
        × (t.conns q ≡ some other)
        × (send_completed q t ≡ true)
  unfolding acquire_sender send_completed
  acquire_sender-preempts p q s t own other e f g ne h = ground arith

  -- A connection of the same or a lower priority is refused, and nothing changes.
  pub acquire_sender-refuses :
      (p q : ℕ) (s : Instance D) (own other : Conn)
      → s.tx_connection ≡ some q
      → s.conns q ≡ some other
      → s.conns p ≡ some own
      → own.priority ≤ other.priority
      → acquire_sender drv p s ≡ some (false, s)
  unfolding acquire_sender
  acquire_sender-refuses p q s own other e f g h = ground arith

  acquire_sender-idle :
      (p : ℕ) (s : Instance D)
      → s.tx_connection ≡ none
      → acquire_sender drv p s ≡ acquire_idle drv p s
  unfolding acquire_sender
  acquire_sender-idle p s e = ground arith

  wait_acquire-got :
      (p : ℕ) (wakes later : List (TxWake D)) (s t : Instance D)
      → acquire_sender drv p s ≡ some (true, t)
      → wait_acquire drv p wakes later s ≡ wait_completed p later t
  unfolding wait_acquire
  wait_acquire-got p [] later s t e = ground arith
  wait_acquire-got p (tx_signalled u ∷ wakes) later s t e = ground arith
  wait_acquire-got p (tx_woken u ∷ wakes) later s t e = ground arith

module _ {D : Type 0} where
  wait_completed-done :
      (p : ℕ) (wakes : List (TxWake D)) (s : Instance D) (c : Conn)
      → s.tx_connection ≡ none
      → s.conns p ≡ some c
      → wait_completed p wakes s ≡ wrote (ok c.tx_buf_index) s
  unfolding wait_completed send_completed write_result
  wait_completed-done p [] s c e f = ground arith
  wait_completed-done p (tx_signalled u ∷ wakes) s c e f = ground arith
  wait_completed-done p (tx_woken u ∷ wakes) s c e f = ground arith

module _ {D : Type 0} (drv : RawUartDriver D) where
  write_starts :
      (p : ℕ) (bytes : List ℕ) (wakes later : List (TxWake D)) (s : Instance D) (c : Conn)
      → s.conns p ≡ some c
      → length bytes ≤ con_data_tx_buf_size
      → write drv false (copied bytes) wakes later (length bytes) p s
        ≡ wait_acquire drv p wakes later (record s {
          conns = store s.conns p (record c {
            txbuf = overwrite c.txbuf 0 bytes;
            tx_buf_index = 0;
            tx_buf_length = length bytes;
          });
        })
  unfolding write
  write_starts p bytes wakes later s c f fits = ground arith

  -- Over a driver with bulks and chunks of a byte at least, which puts a bulk on its line when it
  -- is ready in a good state, and with the driver in a good state, ready once its transmitter is
  -- started: on an idle transmitter, a `write` of a message that fits one bulk and the buffer of
  -- its connection, whose wait for the semaphore and copy from the user succeed, sends it as a
  -- whole at once. It returns the length of the message, whatever wake-ups were to come; the bytes
  -- are on the line, the transmitter is free again and the driver in a good state.
  pub write_whole :
      (line : D → List ℕ) (Good : D → Type 0)
      → IsLine drv line Good
      → 0 < drv.tx_bulktransfer_size
      → 0 < drv.tx_chunk_size
      → (p : ℕ) (bytes : List ℕ) (wakes later : List (TxWake D)) (s : Instance D) (c : Conn)
      → Good s.hw
      → drv.isready_for_tx (drv.init_tx s.hw) ≡ true
      → s.tx_connection ≡ none
      → s.conns p ≡ some c
      → length c.txbuf ≡ con_data_tx_buf_size
      → length bytes ≤ con_data_tx_buf_size
      → length bytes ≤ drv.tx_bulktransfer_size
      → (t : Instance D) × (write drv false (copied bytes) wakes later (length bytes) p s
          ≡ wrote (ok (length bytes)) t)
        × (line t.hw ≡ line s.hw ++ bytes)
        × (t.tx_connection ≡ none)
        × Good t.hw
  write_whole line Good l bulk chunk p bytes wakes later s c good ready e f size fits small =
      let n = length bytes in
      let c' = record c {
        txbuf = overwrite c.txbuf 0 bytes;
        tx_buf_index = 0;
        tx_buf_length = n;
      } in
      let s1 = record s { conns = store s.conns p c' } in
      let s2 = record s1 { tx_connection = some p; hw = drv.init_tx s.hw } in
      let (started, good') = l.init s.hw good in
      let (t, run, q, still) =
        tx_queued_unlocked-Transmitted drv p line Good l bulk s2 c' good' refl
          (store_self p s.conns c') (omega arith) fits
          (omega (arith, length-overwrite c.txbuf 0 bytes, size)) in
      let all : q.index ≡ n = omega (arith, q.within, q.progress chunk ready) in
      let free : t.tx_connection ≡ none = q.released all in
      let ran : acquire_sender drv p s1 ≡ some (true, t) =
        acquire_sender-idle drv p s1 e
        ∙ unfold acquire_idle in ap (Option.map (λ u. (true, u))) run in
      let no_offset : q.index - 0 ≡ n = omega (arith, all) in
      (
        t,
        write_starts p bytes wakes later s c f fits
            ∙ wait_acquire-got drv p wakes later s1 t ran
            ∙ wait_completed-done p later t _ free q.stands
            ∙ ap (λ i. wrote (ok i) t) all,
        q.bytes
            ∙ rw (
              started,
              no_offset,
              slice-overwrite_self c.txbuf 0 bytes n refl (omega (arith, size)),
            ),
        free,
        still,
      )
