-- ===== src/Usb2/Driver/Flight.antt =====
-- Sending in kernel/hb_rf_usb_2.c: the one transfer that is under way, and its buffer.
use pi_vccu.Prelude.{
  zero, suc, replicate, ==-refl, ◌&&◌, ℕ, ◌+◌, ◌-◌, ◌≤◌, ◌<◌, min, ◌≡◌, refl, ap, ◌∙◌, List, Option,
  none, some, Bool, true, false, not, ltb, length, if◌then◌else◌, arith,
}
use mathlib.Core.Option
use pi_vccu.RawUart.{RawUartDriver, Conn, Instance, con_data_tx_buf_size}
use pi_vccu.RawUart.Tx.{
  send_bulk, tx_loop, tx_finish, tx_queued_unlocked, send_completed, wait_completed, tx_woken,
  write_sleeps,
}
use pi_vccu.RawUart.Tx.Loop.{tx_loop_step}
use pi_vccu.Usb2.Driver.{
  bulk_size, buffer_size, Port, handed, submit_write, port_tx_chars, hb_rf_usb_2,
}

-- A transfer is under way only while `is_in_tx`, and has a bulk at most; no copy has gone past the
-- buffer.
pub record IsPort (s : Port) : Type 0 where
  pub array : length s.write_buffer ≡ buffer_size
  pub inside : s.overran ≡ false
  pub idle : s.is_in_tx ≡ false → s.in_flight ≡ none
  pub small : (data' : List ℕ) → s.in_flight ≡ some data' → length data' ≤ bulk_size

handed_refused :
    (fails : Bool) (old : Option (List ℕ)) (data' : List ℕ)
    → fails ≡ true
    → old ≡ none
    → handed fails old data' ≡ none
unfolding handed
handed_refused fails (some x) data' e h = absurd cc
handed_refused true none data' e h = refl
handed_refused false none data' e h = absurd cc

goes_on :
    {D : Type 0} (drv : RawUartDriver D) (p : ℕ) (c : Conn) (s : Instance D)
    → s.tx_connection ≡ some p
    → s.conns p ≡ some c
    → c.tx_buf_index < c.tx_buf_length
    → tx_finish drv s ≡ some s
unfolding tx_finish
goes_on drv p c s e f left = ground arith

halts :
    (p : ℕ) (c : Conn) (u : Instance Port)
    → u.hw.is_in_tx ≡ true
    → u.tx_connection ≡ some p
    → u.conns p ≡ some c
    → c.tx_buf_index < c.tx_buf_length
    → tx_queued_unlocked hb_rf_usb_2 u ≡ some u
unfolding tx_queued_unlocked Option.bind
halts p c u busy holder at_p left =
    let next =
      tx_loop hb_rf_usb_2 4095 (0 + min bulk_size (c.tx_buf_length - c.tx_buf_index))
        (send_bulk hb_rf_usb_2 p c u) in
    let loop : tx_loop hb_rf_usb_2 con_data_tx_buf_size 0 u ≡ some u =
      tx_loop_step hb_rf_usb_2 p 4095 0 u c holder at_p
      ∙ ap (λ b. if not b && ltb c.tx_buf_index c.tx_buf_length then next else some u) busy in
    let finish = goes_on hb_rf_usb_2 p c u holder at_p left in
    ap (λ o. Option.bind o (tx_finish hb_rf_usb_2)) loop ∙ finish

-- The bus has refused a transfer: nothing is under way, and still `is_in_tx` is set.
pub record IsLost (s : Port) : Type 0 where
  pub busy : s.is_in_tx ≡ true
  pub nothing_sent : s.in_flight ≡ none

-- Such runs of the transmitter, one after the other.
abbrev pub runs : ℕ → Instance Port → Option (Instance Port)
runs zero u = some u
runs (suc n) u = Option.bind (tx_queued_unlocked hb_rf_usb_2 u) (runs n)

runs-halts :
    (n : ℕ) (u : Instance Port) → tx_queued_unlocked hb_rf_usb_2 u ≡ some u → runs n u ≡ some u
unfolding Option.bind
runs-halts zero u h = refl
runs-halts (suc n) u h = ap (λ o. Option.bind o (runs n)) h ∙ runs-halts n u h

still_sending : (p : ℕ) (u : Instance Port) → u.tx_connection ≡ some p → send_completed p u ≡ false
unfolding send_completed
still_sending p u h = ground (arith, ==-refl p)

wait_completed-sleeps :
    (n p : ℕ) (u : Instance Port)
    → send_completed p u ≡ false
    → wait_completed p (replicate n (tx_woken u)) u ≡ write_sleeps u
unfolding wait_completed
wait_completed-sleeps zero p u h = rw h
wait_completed-sleeps (suc n) p u h = rw h (wait_completed-sleeps n p u h)

-- The bus refuses a bulk that `hb_rf_usb_2_tx_chars` hands it, on a well-formed port with
-- `is_in_tx` not set. Then nothing is under way and `is_in_tx` is set; while a connection that has
-- bytes left to send holds the transmitter, any number of runs of the transmitter leave everything
-- as it is; and the wait at the end of the write of that connection sleeps on, however often it is
-- woken in that state.
pub tx_queued_unlocked-IsLost :
    (s : Port) (chr : List ℕ) (i n p : ℕ) (c : Conn) (u : Instance Port)
    → IsPort s
    → s.is_in_tx ≡ false
    → s.submit_fails ≡ true
    → u.hw ≡ port_tx_chars s chr i n
    → u.tx_connection ≡ some p
    → u.conns p ≡ some c
    → c.tx_buf_index < c.tx_buf_length
    → IsLost u.hw
      × ((k : ℕ) → runs k u ≡ some u)
      × ((k : ℕ) → wait_completed p (replicate k (tx_woken u)) u ≡ write_sleeps u)
unfolding port_tx_chars submit_write handed
tx_queued_unlocked-IsLost s chr i n p c u v ready fails after holder at_p left =
    let lost : u.hw.is_in_tx ≡ true = ap (λ d. d.is_in_tx) after in
    let refused : u.hw.in_flight ≡ none =
      ap (λ d. d.in_flight) after
      ∙ handed_refused s.submit_fails s.in_flight _ fails (v.idle ready) in
    let halt = halts p c u lost holder at_p left in
    (
      record { busy = lost; nothing_sent = refused },
      λ k. runs-halts k u halt,
      λ k. wait_completed-sleeps k p u (still_sending p u holder),
    )
