-- ===== src/Usb2/Stream.antt =====
-- The stream of bytes through kernel/hb_rf_usb_2.c.
use pi_vccu.Prelude.{
  ℕ, zero, suc, ◌-◌, ◌≤◌, ◌≡◌, refl, sym, ap, ◌∙◌, ==_iff, List, [], ◌∷◌, ◌++◌, Bool, true, false,
  none, some, length, ◌==◌, if◌then◌else◌, arith,
}
use pi_vccu.Kernel.{CircMacros}
use pi_vccu.RawUart.{Instance}
use pi_vccu.RawUart.Rx.{handle_rx_char}
use mathlib.Core.Option
use pi_vccu.Usb2.{event, event_round, event_rounds}
use pi_vccu.Usb2.Driver.{Port, read_again, process_read_urb}

-- What the bridge sends for bytes without errors: the event character is followed by a 0.
unfoldable pub escaped : List ℕ → List ℕ
escaped [] = []
escaped (x ∷ xs) = if x == 255 then 255 ∷ 0 ∷ escaped xs else x ∷ escaped xs

module _ {D : Type 0} (circ : CircMacros) where
  -- The bytes arrive one after the other.
  unfoldable pub feed : List ℕ → Instance D → Instance D
  feed [] s = s
  feed (x ∷ xs) s = feed xs (handle_rx_char circ 0 x s)

  event_rounds-round :
      (fuel left k left' : ℕ) (buf rest : List ℕ) (s t : Instance D)
      → event_round circ buf s ≡ some (k, rest, t)
      → suc left - k ≡ left'
      → event_rounds circ (suc fuel) (suc left) buf s ≡ event_rounds circ fuel left' rest t
  unfolding event_rounds
  event_rounds-round fuel left k left' buf rest s t h e =
      ap
        (λ o. elim o [
          | none ↦ none
          | some r ↦ let (k', rest', u) = r in event_rounds circ fuel (suc left - k') rest' u
        ])
        h
      ∙ ap (λ n. event_rounds circ fuel n rest t) e

  event_round-escape :
      (rest : List ℕ) (s : Instance D)
      → event_round circ (255 ∷ 0 ∷ rest) s ≡ some (2, rest, handle_rx_char circ 0 255 s)
  unfolding event_round event
  event_round-escape rest s = refl

  event_round-plain :
      (x : ℕ) (rest : List ℕ) (s : Instance D)
      → (x == 255) ≡ false
      → event_round circ (x ∷ rest) s ≡ some (1, rest, handle_rx_char circ 0 x s)
  unfolding event_round
  event_round-plain x rest s h = rw h

  -- One byte, before the rest that arrives as `ih` says.
  event_rounds-head :
      (x : ℕ) (b : Bool) (rest stale : List ℕ) (t : Instance D) (fuel : ℕ) (s : Instance D)
      → (x == 255) ≡ b
      → ((fuel' : ℕ)
          → length rest ≤ fuel'
          → event_rounds circ fuel' (length rest) (rest ++ stale) (handle_rx_char circ 0 x s)
            ≡ some t)
      → length (if b then 255 ∷ 0 ∷ rest else x ∷ rest) ≤ fuel
      → event_rounds circ fuel
          (length (if b then 255 ∷ 0 ∷ rest else x ∷ rest))
          ((if b then 255 ∷ 0 ∷ rest else x ∷ rest) ++ stale)
          s
        ≡ some t
  event_rounds-head x true rest stale t zero s e ih h = absurd (omega (arith, h))
  event_rounds-head x true rest stale t (suc fuel) s e ih h =
      let is_event : x ≡ 255 = (==_iff x 255).0 e in
      event_rounds-round fuel (suc (length rest)) 2 (length rest) (255 ∷ 0 ∷ rest ++ stale)
        (rest ++ stale) s _ (event_round-escape (rest ++ stale) s) (omega arith)
      ∙ ap (λ y. event_rounds circ fuel (length rest) (rest ++ stale) (handle_rx_char circ 0 y s))
          (sym is_event)
      ∙ ih fuel (omega (arith, h))
  event_rounds-head x false rest stale t zero s e ih h = absurd (omega (arith, h))
  event_rounds-head x false rest stale t (suc fuel) s e ih h =
      event_rounds-round fuel (length rest) 1 (length rest) (x ∷ rest ++ stale) (rest ++ stale) s _
        (event_round-plain x (rest ++ stale) s e) (omega arith)
      ∙ ih fuel (omega (arith, h))

  event_rounds-escaped :
      (bytes stale : List ℕ) (fuel : ℕ) (s : Instance D)
      → length (escaped bytes) ≤ fuel
      → event_rounds circ fuel (length (escaped bytes)) (escaped bytes ++ stale) s
        ≡ some (feed bytes s)
  unfolding escaped feed event_rounds
  event_rounds-escaped [] stale fuel s h = refl
  event_rounds-escaped (x ∷ xs) stale fuel s h =
      event_rounds-head x (x == 255) (escaped xs) stale (feed xs (handle_rx_char circ 0 x s)) fuel s
        refl (λ fuel' g. event_rounds-escaped xs stale fuel' (handle_rx_char circ 0 x s) g) h

-- A transfer that holds bytes in the form in which the bridge sends them delivers exactly these
-- bytes to the receive path, in their order and without errors, whatever stale bytes follow in the
-- buffer. Then `generic_raw_uart_rx_completed` runs, and the bus has the read urb again unless it
-- refuses it.
pub process_read_urb-escaped :
    (circ : CircMacros) (refused : Bool) (bytes stale : List ℕ) (s : Instance Port)
    → process_read_urb circ refused (escaped bytes ++ stale) (length (escaped bytes)) s
      ≡ some (read_again refused (feed circ bytes s))
unfolding process_read_urb
process_read_urb-escaped circ refused bytes stale s =
    ap (Option.map (read_again refused))
      (event_rounds-escaped circ bytes stale (length (escaped bytes)) s (omega arith))
