-- ===== src/Usb2/Driver/Bulk.antt =====
-- A completed transfer of kernel/hb_rf_usb_2.c hands the next bytes to the bridge.
use pi_vccu.Prelude.{
  ℕ, ◌+◌, ◌-◌, ◌≤◌, ◌<◌, min, ◌≡◌, refl, ap, ◌∙◌, ◌++◌, none, some, Bool, true, false, ◌&&◌, ltb,
  leb, lt→ltb, length, take, drop, take-append_left, if◌then◌else◌, Bool-cases, ◌⊎◌, inl, inr,
  arith,
}
use mathlib.Core.Option
use pi_vccu.Prelude.Buffers.{slice, overwrite, length-slice, overwrite_front}
use pi_vccu.RawUart.{RawUartDriver, Conn, Instance, con_data_tx_buf_size}
use pi_vccu.RawUart.Tx.{send_bulk, tx_loop, tx_finish, tx_queued_unlocked}
use pi_vccu.RawUart.Tx.Loop.{tx_loop_step, store_self}
use pi_vccu.Usb2.Driver.{
  bulk_size, Port, handed, submit_write, port_tx_chars, hb_rf_usb_2, process_write_urb,
}
use pi_vccu.Usb2.Driver.Flight.{IsPort}

never : (a b : Bool) → (a && false && b) ≡ false
never true b = refl
never false b = refl

-- The end of a run that has handed over a bulk.
finishes :
    {D : Type 0} (drv : RawUartDriver D) (p : ℕ) (c : Conn) (s : Instance D)
    → s.tx_connection ≡ some p
    → s.conns p ≡ some c
    → tx_finish drv s
      ≡ some (
          if leb c.tx_buf_length c.tx_buf_index
          then record s { hw = drv.stop_tx s.hw; tx_connection = none }
          else s)
unfolding tx_finish
finishes drv p c s e f = ground arith

module _ (p : ℕ) (c : Conn) (s : Instance Port) where
  abbrev bulk : ℕ
  bulk = min bulk_size (c.tx_buf_length - c.tx_buf_index)

  abbrev moved : Conn
  moved = record c { tx_buf_index = c.tx_buf_index + bulk }

  abbrev idle_instance : Instance Port
  idle_instance = record s { hw = record (s.hw) { is_in_tx = false; in_flight = none } }

  abbrev sending : Instance Port
  sending = send_bulk hb_rf_usb_2 p c idle_instance

  one_bulk :
      s.tx_connection ≡ some p
      → s.conns p ≡ some c
      → c.tx_buf_index < c.tx_buf_length
      → process_write_urb s
        ≡ some (
            if leb c.tx_buf_length (c.tx_buf_index + bulk)
            then record sending { tx_connection = none }
            else sending)
  unfolding process_write_urb tx_queued_unlocked Option.bind send_bulk port_tx_chars submit_write
  one_bulk holder at_p left =
      let more : ltb c.tx_buf_index c.tx_buf_length ≡ true = lt→ltb _ _ left in
      let again =
        tx_loop hb_rf_usb_2 4094
          (0 + bulk + min bulk_size (moved.tx_buf_length - moved.tx_buf_index))
          (send_bulk hb_rf_usb_2 p moved sending) in
      let first : tx_loop hb_rf_usb_2 con_data_tx_buf_size 0 idle_instance
          ≡ tx_loop hb_rf_usb_2 4095 (0 + bulk) sending =
        tx_loop_step hb_rf_usb_2 p 4095 0 idle_instance c holder at_p
        ∙ ap (λ b. if b then tx_loop hb_rf_usb_2 4095 (0 + bulk) sending else some idle_instance)
            more in
      let second : tx_loop hb_rf_usb_2 4095 (0 + bulk) sending ≡ some sending =
        tx_loop_step hb_rf_usb_2 p 4094 (0 + bulk) sending moved holder (store_self p s.conns moved)
        ∙ ap (λ b. if b then again else some sending) (never _ _) in
      ap (λ o. Option.bind o (tx_finish hb_rf_usb_2)) (first ∙ second)
      ∙ finishes hb_rf_usb_2 p moved sending holder (store_self p s.conns moved)

  -- Where the bus takes the next transfer: when one is completed and a connection has bytes left to
  -- send, the raw UART hands the bridge exactly its next bytes, up to a bulk, as the one transfer
  -- under way, and the connection stands behind them. It keeps the transmitter unless these were
  -- its last bytes, and then gives it up.
  pub process_write_urb-next :
      IsPort s.hw
      → s.hw.submit_fails ≡ false
      → s.tx_connection ≡ some p
      → s.conns p ≡ some c
      → c.tx_buf_index < c.tx_buf_length
      → c.tx_buf_length ≤ length c.txbuf
      → (t : Instance Port) × (process_write_urb s ≡ some t)
        × (t.hw.in_flight ≡ some (slice c.txbuf c.tx_buf_index bulk))
        × (t.hw.is_in_tx ≡ true)
        × (t.conns p ≡ some (record c { tx_buf_index = c.tx_buf_index + bulk }))
        × (((t.tx_connection ≡ some p) × (c.tx_buf_index + bulk < c.tx_buf_length))
            ⊎ ((t.tx_connection ≡ none) × (c.tx_buf_index + bulk ≡ c.tx_buf_length)))
  unfolding send_bulk port_tx_chars submit_write handed
  process_write_urb-next v works holder at_p left inside =
      let bytes = slice c.txbuf c.tx_buf_index bulk in
      let many : length bytes ≡ bulk = length-slice c.txbuf c.tx_buf_index bulk (omega arith) in
      let filled : overwrite s.hw.write_buffer 0 bytes ≡ bytes ++ drop bulk s.hw.write_buffer =
        overwrite_front s.hw.write_buffer bytes bulk (omega (arith, many))
          (omega (arith, v.array)) in
      let flight : sending.hw.in_flight ≡ some bytes =
        ap (λ b. handed b none (take bulk (overwrite s.hw.write_buffer 0 bytes))) works
        ∙ ap (λ l. some (take bulk l)) filled
        ∙ ap some (take-append_left bulk bytes _ (omega (arith, many))) in
      let stands = store_self p s.conns moved in
      let run = one_bulk holder at_p left in
      let end =
        λ (b : Bool). some (if b then record sending { tx_connection = none } else sending) in
      elim (Bool-cases (leb c.tx_buf_length (c.tx_buf_index + bulk))) [
        | inl last ↦ (
          record sending { tx_connection = none },
          run ∙ ap end last,
          flight,
          refl,
          stands,
          inr (refl, ground arith),
        )
        | inr more ↦ (sending, run ∙ ap end more, flight, refl, stands, inl (holder, ground arith))
      ]
