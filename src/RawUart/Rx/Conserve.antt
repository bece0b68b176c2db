-- ===== src/RawUart/Rx/Conserve.antt =====
-- Whole runs at the receive buffer of kernel/generic_raw_uart.c: characters and reads in any order.
use pi_vccu.Prelude.{
  ℕ, ◌^◌, ◌<◌, ◌≡◌, sym, ap, ◌∙◌, List, [], ◌∷◌, ◌++◌, Bool, true, false, ltb, if◌then◌else◌,
  length, All, inl, inr, Bool-cases, append_assoc, append-nil, not, ◌&&◌,
}
use pi_vccu.Kernel.{CircMacros}
use pi_vccu.RawUart.{Instance}
use pi_vccu.RawUart.Rx.{has_flag, rx_state_break, handle_rx_char, Call, returns, sleeps, read}
use pi_vccu.RawUart.Rx.Queue.{enqueue}
use pi_vccu.RawUart.Rx.Stream.{IsRxValid, pending, handle_rx_char_lem, read_nonblock}

-- What happens at the receive buffer: a character arrives with its flags, or a reader asks for a
-- number of bytes without sleeping.
pub data Event : Type 0 where
  arrives : ℕ → ℕ → Event
  asks : ℕ → Event

-- The kernel limits the length of a read.
abbrev pub Fits : Event → Type 0
Fits (arrives flags x) = Unit {0}
Fits (asks count) = count < 2 ^ 31

-- Where a character goes, as a list of none or one.
kept_lem :
    (q : List ℕ) (x : ℕ) (is_break : Bool)
    → q ++ (if not is_break && ltb (length q) 1023 then x ∷ [] else [])
      ≡ (if is_break then q else enqueue q x)
unfolding enqueue
kept_lem q x true = append-nil q
kept_lem q x false = elim (Bool-cases (ltb (length q) 1023)) [
  | inl e ↦ rw e
  | inr e ↦ rw e (append-nil q)
]

module _ (circ : CircMacros) {D : Type 0} where
  -- What a call hands to the user, and the state behind it.
  handed : Call D → List ℕ × Instance D
  handed (returns ret bytes s) = (bytes, s)
  handed (sleeps s) = ([], s)

  -- One event: the bytes that were taken in, the bytes that were handed out, and the state.
  pub step : Event → Instance D → List ℕ × List ℕ × Instance D
  unfolding handed
  step (arrives flags x) s =
      let kept = not (has_flag flags rx_state_break) && ltb (length (pending s)) 1023 in
      (if kept then x ∷ [] else [], [], handle_rx_char circ flags x s)
  step (asks count) s =
      let (bytes, s') = handed (read circ false true [] false count s) in ([], bytes, s')

  pub run : List Event → Instance D → List ℕ × List ℕ × Instance D
  run [] s = ([], [], s)
  run (e ∷ events) s =
      let (taken, out, s') = step e s in
      let (taken', out', s'') = run events s' in (taken ++ taken', out ++ out', s'')

  -- The bytes that are pending or taken in are those that are handed out or pending, in order.
  abbrev pub Conserved : Instance D → List ℕ × List ℕ × Instance D → Type 0
  Conserved s (taken, out, s') = pending s ++ taken ≡ out ++ pending s'

  step-Conserved :
      (e : Event) (s : Instance D)
      → IsRxValid s
      → Fits e
      → Conserved s (step e s) × IsRxValid (step e s).2
  unfolding step
  step-Conserved (arrives flags x) s v h =
      let (q, w) = handle_rx_char_lem circ s v flags x in
      (kept_lem (pending s) x (has_flag flags rx_state_break) ∙ sym q, w)
  step-Conserved (asks count) s v h = elim (read_nonblock circ [] count s v h) [
    | inl (empty, e) ↦ rw e (unfold handed in append-nil (pending s), unfold handed in v)
    | inr (n, bytes, s', e, d) ↦
        rw e (unfold handed in append-nil (pending s) ∙ d.in_order, unfold handed in d.valid)
  ]

  -- Over any sequence of received characters and reads, no byte is lost, doubled or reordered: what
  -- was pending and what was taken in is what was handed out and what is still pending. A character
  -- is taken in unless it is a break condition or 1023 bytes are pending.
  pub run-Conserved :
      (events : List Event) (s : Instance D)
      → IsRxValid s
      → All Fits events
      → Conserved s (run events s) × IsRxValid (run events s).2
  unfolding run
  run-Conserved [] s v h = (append-nil (pending s), v)
  run-Conserved (e ∷ events) s v h =
      let (taken, out, s') = step e s in
      let (taken', out', s'') = run events s' in
      let (now, w) = step-Conserved e s v h.0 in
      let (later, w') = run-Conserved events s' w h.1 in
      (
        sym (append_assoc (pending s) taken taken')
            ∙ ap (λ t. t ++ taken') now
            ∙ append_assoc out (pending s') taken'
            ∙ ap (λ t. out ++ t) later
            ∙ sym (append_assoc out out' (pending s'')),
        w',
      )
