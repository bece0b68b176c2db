-- ===== src/Eth/Link/Handshake.antt =====
-- The handshake of kernel/hb_rf_eth.c with the device.
use pi_vccu.Prelude.{
  ℕ, ◌+◌, ◌^◌, ◌%◌, ◌≡◌, refl, ap, ◌∙◌, List, [], ◌∷◌, ◌++◌, Option, none, some, true, All, ==-refl,
}
use pi_vccu.Kernel.{Errno, etimedout}
use pi_vccu.RawUart.{Instance}
use pi_vccu.Eth.{Eth, stamp, send_msg, Received, packet}
use pi_vccu.Eth.Packet.{sealed, recv_packet-sealed}
use pi_vccu.Eth.Link.{
  answers, answer_endpoint, or_later, first_answer, settle, try_connect, set_connected,
}

-- The answer of a device: the version 2, the counter of the message that it answers, and the
-- endpoint.
abbrev pub hello_answer : ℕ → ℕ → ℕ → Received
hello_answer own cnt endpoint' = packet (sealed 0 own (2 ∷ cnt ∷ endpoint' ∷ []))

hello_answer-endpoint : (own cnt e : ℕ) → answer_endpoint cnt (hello_answer own cnt e) ≡ some e
unfolding answer_endpoint
hello_answer-endpoint own cnt e = rw (recv_packet-sealed 0 own (2 ∷ cnt ∷ e ∷ []), ==-refl cnt)

-- Packets that name no endpoint are passed over.
abbrev pub Ignored : ℕ → Received → Type 0
Ignored cnt r = answer_endpoint cnt r ≡ none

first_answer-found :
    (cnt own e : ℕ) (before after : List Received)
    → All (Ignored cnt) before
    → first_answer cnt (before ++ (hello_answer own cnt e ∷ after)) ≡ some e
unfolding first_answer
first_answer-found cnt own e [] after h =
    ap (λ (o : Option ℕ). or_later o (first_answer cnt after)) (hello_answer-endpoint own cnt e)
first_answer-found cnt own e (r ∷ before) after h =
    ap
      (λ (o : Option ℕ). or_later o (first_answer cnt (before ++ (hello_answer own cnt e ∷ after))))
      h.0
    ∙ first_answer-found cnt own e before after h.1

first_answer-missing :
    (cnt : ℕ) (rs : List Received) → All (Ignored cnt) rs → first_answer cnt rs ≡ none
unfolding first_answer
first_answer-missing cnt [] h = refl
first_answer-missing cnt (r ∷ rs) h =
    ap (λ (o : Option ℕ). or_later o (first_answer cnt rs)) h.0 ∙ first_answer-missing cnt rs h.1

module _ (s : Instance Eth) (old : ℕ) where
  -- The counter that the message of the handshake carries.
  abbrev pub sent_cnt : ℕ
  sent_cnt = (s.hw.msg_cnt + 1) % 2 ^ 32 % 256

  -- An attempt to connect succeeds with the first answer that has the protocol's version and the
  -- counter of the message sent, and takes the endpoint from it, whatever other packets come before;
  -- where no such answer comes it fails with -ETIMEDOUT, and the connection is as it was.
  pub try_connect-answers :
      (before after : List Received) (own e : ℕ)
      → All (Ignored sent_cnt) before
      → (let t = try_connect old (answers (before ++ (hello_answer own sent_cnt e ∷ after))) s in
          (t.0 ≡ none)
          × (t.1.hw.connected ≡ true)
          × (t.1.connection_state ≡ true)
          × (t.1.hw.endpoint ≡ e))
        × (let t = try_connect old (answers before) s in
            (t.0 ≡ some etimedout)
            × (t.1.hw.connected ≡ s.hw.connected)
            × (t.1.connection_state ≡ s.connection_state)
            × (t.1.hw.endpoint ≡ s.hw.endpoint))
  unfolding try_connect settle set_connected send_msg stamp
  try_connect-answers before after own e h =
      let found = first_answer-found sent_cnt own e before after h in
      let missing = first_answer-missing sent_cnt before h in
      let hello = 0 ∷ 0 ∷ 2 ∷ old ∷ 0 ∷ 0 ∷ [] in
      let after_hello = record s { hw = (send_msg true hello 6 s.hw).1 } in
      let yes_path = ap (λ (o : Option ℕ). settle o after_hello) found in
      let no_path = ap (λ (o : Option ℕ). settle o after_hello) missing in
      (
        (
          ap (λ (p : Option Errno × Instance Eth). p.0) yes_path,
          ap (λ (p : Option Errno × Instance Eth). p.1.hw.connected) yes_path,
          ap (λ (p : Option Errno × Instance Eth). p.1.connection_state) yes_path,
          ap (λ (p : Option Errno × Instance Eth). p.1.hw.endpoint) yes_path,
        ),
        (
          ap (λ (p : Option Errno × Instance Eth). p.0) no_path,
          ap (λ (p : Option Errno × Instance Eth). p.1.hw.connected) no_path,
          ap (λ (p : Option Errno × Instance Eth). p.1.connection_state) no_path,
          ap (λ (p : Option Errno × Instance Eth). p.1.hw.endpoint) no_path,
        ),
      )
