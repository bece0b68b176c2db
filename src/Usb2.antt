-- ===== src/Usb2.antt =====
-- The received data of kernel/hb_rf_usb_2.c, a driver of the raw UART over a CP2102N: the bridge
-- embeds events into the stream of bytes.
pub mod Stream
pub mod Driver
mod Tests
use pi_vccu.Prelude.{ℕ, zero, suc, ◌+◌, ◌-◌, List, [], ◌∷◌, Option, none, some, ◌==◌, if◌then◌else◌}
use pi_vccu.Kernel.{CircMacros}
use pi_vccu.RawUart.{Instance}
use pi_vccu.RawUart.Rx.{
  handle_rx_char, has_flag, rx_state_break, rx_state_parity, rx_state_frame, rx_state_overrun,
}

abbrev pub embed_event_char : ℕ
embed_event_char = 255

-- `flags` for the status byte of an event: overrun, parity, framing and break.
unfoldable pub event_flags : ℕ → ℕ
event_flags status =
    (if has_flag status 2 then rx_state_overrun else 0)
    + (if has_flag status 4 then rx_state_parity else 0)
    + (if has_flag status 8 then rx_state_frame else 0)
    + (if has_flag status 16 then rx_state_break else 0)

module _ {D : Type 0} (circ : CircMacros) where
  -- The data byte of an event, which its status announces. A result is the number of bytes that a
  -- round has gone over, the rest of the buffer and the new state; `none` is a read past the buffer.
  unfoldable pub data_event : ℕ → List ℕ → Instance D → Option (ℕ × List ℕ × Instance D)
  data_event flags [] s = none
  data_event flags (x ∷ rest) s = some (4, rest, handle_rx_char circ flags x s)

  unfoldable pub status_event : List ℕ → Instance D → Option (ℕ × List ℕ × Instance D)
  status_event [] s = none
  status_event (status ∷ rest) s =
      if has_flag status 1
      then data_event (event_flags status) rest s
      else some (3, rest, handle_rx_char circ (event_flags status) 0 s)

  -- The switch on the byte behind the event character.
  unfoldable pub event : List ℕ → Instance D → Option (ℕ × List ℕ × Instance D)
  event [] s = none
  event (zero ∷ rest) s = some (2, rest, handle_rx_char circ 0 embed_event_char s)
  event (suc zero ∷ rest) s = status_event rest s
  event (suc (suc zero) ∷ rest) s = status_event rest s
  event (suc (suc (suc n)) ∷ rest) s = some (2, rest, s)

  -- A round of the loop in `hb_rf_usb_2_process_read_urb`.
  unfoldable pub event_round : List ℕ → Instance D → Option (ℕ × List ℕ × Instance D)
  event_round [] s = none
  event_round (x ∷ rest) s =
      if x == embed_event_char then event rest s else some (1, rest, handle_rx_char circ 0 x s)

  -- The loop, for `left` bytes of `actual_length`, on fuel for the rounds.
  unfoldable pub event_rounds : ℕ → ℕ → List ℕ → Instance D → Option (Instance D)
  event_rounds fuel zero buf s = some s
  event_rounds zero (suc left) buf s = none
  event_rounds (suc fuel) (suc left) buf s = elim (event_round buf s) [
    | none ↦ none
    | some r ↦ let (k, rest, t) = r in event_rounds fuel (suc left - k) rest t
  ]
