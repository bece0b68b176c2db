-- ===== src/Eth/Link/Receive.antt =====
-- The receiver of kernel/hb_rf_eth.c over the receive buffer of kernel/generic_raw_uart.c.
use pi_vccu.Prelude.{
  ℕ, ◌+◌, ◌-◌, ◌≤◌, ◌≡◌, refl, sym, ap, ◌∙◌, List, [], ◌∷◌, ◌++◌, append-nil, append_assoc, Bool,
  true, length, length-append, leb, lt→ltb, ge→ltb, le→leb, arith,
}
use pi_vccu.Prelude.Buffers.{slice, slice-zero}
use pi_vccu.Kernel.{CircMacros, Ret, ok}
use pi_vccu.RawUart.{Instance}
use pi_vccu.RawUart.Rx.{handle_rx_char, rx_completed}
use pi_vccu.RawUart.Rx.Queue.{enqueue}
use pi_vccu.RawUart.Rx.Kept.{handle_rx_char_keeps, rx_completed_keeps, rx_completed-IsRxValid}
use pi_vccu.RawUart.Rx.Stream.{IsRxValid, pending, handle_rx_char_lem}
use pi_vccu.Eth.{Eth, packet, recv_packet, calc_crc, be_bytes}
use pi_vccu.Eth.Packet.{body, sealed, recv_packet-sealed}
use pi_vccu.Eth.Link.{Link, rx_chars, dispatch_packet, after_recv, expire, recv_round}

slice_front : (xs ys : List ℕ) → slice (xs ++ ys) 0 (length xs) ≡ xs
slice_front [] ys = slice-zero ys 0
slice_front (x ∷ xs) ys = ap (λ (t : List ℕ). x ∷ t) (slice_front xs ys)

module _ (circ : CircMacros) where
  -- Characters that find room are appended to the pending bytes, in order.
  rx_chars_lem :
      (cs : List ℕ) (s : Instance Eth)
      → IsRxValid s
      → length (pending s) + length cs ≤ 1023
      → (pending (rx_chars circ cs s) ≡ pending s ++ cs) × IsRxValid (rx_chars circ cs s)
  unfolding rx_chars
  rx_chars_lem [] s v h = (sym (append-nil (pending s)), v)
  rx_chars_lem (c ∷ cs) s v h =
      let (q, w) = handle_rx_char_lem circ s v 0 c in
      let one : pending (handle_rx_char circ 0 c s) ≡ pending s ++ (c ∷ []) =
        q ∙ (unfold enqueue in rw (lt→ltb (length (pending s)) 1023 (omega arith))) in
      let (more, valid) =
        rx_chars_lem cs (handle_rx_char circ 0 c s) w
          (omega (arith, ap length one, length-append (pending s) (c ∷ []))) in
      (more ∙ ap (λ (t : List ℕ). t ++ cs) one ∙ append_assoc (pending s) (c ∷ []) cs, valid)

  rx_chars-hw : (cs : List ℕ) (s : Instance Eth) → (rx_chars circ cs s).hw ≡ s.hw
  unfolding rx_chars
  rx_chars-hw [] s = refl
  rx_chars-hw (c ∷ cs) s =
      rx_chars-hw cs (handle_rx_char circ 0 c s) ∙ (handle_rx_char_keeps circ s 0 c).0

  -- What the receiver makes of such a message.
  handled : ℕ → List ℕ → Link → Link
  handled now bytes l = record l {
    last_keepalive = now;
    raw_uart = rx_completed (rx_chars circ bytes l.raw_uart);
  }

  dispatch_packet-sealed :
      (now cnt : ℕ) (bytes : List ℕ) (l : Link)
      → dispatch_packet circ now (sealed 7 cnt bytes) l ≡ handled now bytes l
  unfolding dispatch_packet handled
  dispatch_packet-sealed now cnt bytes l =
      let crc = be_bytes (calc_crc (body 7 cnt bytes)) in
      let len : length (sealed 7 cnt bytes) - 4 ≡ length bytes =
        omega (arith, length-append bytes crc) in
      let inner : slice (bytes ++ crc) 0 (length (sealed 7 cnt bytes) - 4) ≡ bytes =
        ap (slice (bytes ++ crc) 0) len ∙ slice_front bytes crc in
      ap
        (λ (b : List ℕ). record l {
          last_keepalive = now;
          raw_uart = rx_completed (rx_chars circ b l.raw_uart);
        })
        inner

  in_time :
      (autoreconnect : Bool) (now later : ℕ) (bytes : List ℕ) (l : Link)
      → later ≤ now + 5000
      → expire autoreconnect later (handled now bytes l) ≡ handled now bytes l
  unfolding expire handled
  in_time autoreconnect now later bytes l soon = rw (ge→ltb (now + 5000) later soon)

  recv_round-handled :
      (autoreconnect : Bool) (now later cnt : ℕ) (bytes : List ℕ) (l : Link)
      → l.raw_uart.hw.connected ≡ true
      → later ≤ now + 5000
      → recv_round circ autoreconnect now later (packet (sealed 7 cnt bytes)) l
        ≡ handled now bytes l
  unfolding recv_round after_recv expire
  recv_round-handled autoreconnect now later cnt bytes l online soon =
      let p = sealed 7 cnt bytes in
      let result : recv_packet l.raw_uart.hw.connected (packet p) ≡ ok (length bytes + 4) =
        ap (λ (c : Bool). recv_packet c (packet p)) online ∙ recv_packet-sealed 7 cnt bytes in
      let four : leb 4 (length bytes + 4) ≡ true = le→leb 4 (length bytes + 4) (omega arith) in
      let done : after_recv circ now p (ok (length bytes + 4)) l ≡ handled now bytes l =
        rw four (dispatch_packet-sealed now cnt bytes l) in
      ap (λ (r : Ret). expire autoreconnect later (after_recv circ now p r l)) result
      ∙ ap (expire autoreconnect later) done
      ∙ in_time autoreconnect now later bytes l soon

  -- A message of the code 7 that arrives on the connection hands its bytes to the readers of the raw
  -- UART: where the receive buffer has room for them, they are appended to the pending bytes, in
  -- order, and the connection stays, whenever the last test is made within five seconds.
  pub recv_round-delivers :
      (autoreconnect : Bool) (now later cnt : ℕ) (bytes : List ℕ) (l : Link)
      → IsRxValid l.raw_uart
      → l.raw_uart.hw.connected ≡ true
      → length (pending l.raw_uart) + length bytes ≤ 1023
      → later ≤ now + 5000
      → (let t = recv_round circ autoreconnect now later (packet (sealed 7 cnt bytes)) l in
          (pending t.raw_uart ≡ pending l.raw_uart ++ bytes)
          × IsRxValid t.raw_uart
          × (t.raw_uart.hw.connected ≡ true)
          × (t.last_keepalive ≡ now))
  recv_round-delivers autoreconnect now later cnt bytes l v online room soon =
      let s = rx_chars circ bytes l.raw_uart in
      let (more, valid) = rx_chars_lem bytes l.raw_uart v room in
      let (same, hw', state) = rx_completed_keeps s in
      rw (recv_round-handled autoreconnect now later cnt bytes l online soon) (
        unfold handled in
        (
          same ∙ more,
          rx_completed-IsRxValid s valid,
          ap (λ (d : Eth). d.connected) (hw' ∙ rx_chars-hw bytes l.raw_uart) ∙ online,
          refl,
        ))
