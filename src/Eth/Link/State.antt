-- ===== src/Eth/Link/State.antt =====
-- The connection that kernel/hb_rf_eth.c shows is the one that kernel/generic_raw_uart.c acts on.
use pi_vccu.Prelude.{
  ℕ, ◌-◌, ◌<◌, ◌≡◌, refl, sym, ap, ◌∙◌, List, [], ◌∷◌, Option, none, some, Bool, true, false,
  length, get_or, bit_and, bit_or, ◌^◌, ◌==◌, if◌then◌else◌, arith,
}
use pi_vccu.Prelude.Buffers.{slice}
use pi_vccu.Kernel.{CircMacros, Ret, ok, err, Errno, enodev}
use pi_vccu.RawUart.{Instance}
use pi_vccu.RawUart.Rx.{handle_rx_char, rx_completed}
use pi_vccu.RawUart.Rx.Kept.{handle_rx_char_keeps, rx_completed_keeps}
use pi_vccu.RawUart.Session.{open_connection}
use pi_vccu.Eth.{Eth, send_msg, send_oldest, send_round, queue_msg, Received, recv_packet}
use pi_vccu.Eth.Driver.{gpio_set, send_gpio, hb_rf_eth}
use pi_vccu.Eth.Link.{
  Link, Attempt, no_socket, no_route, answers, set_connected, first_answer, settle, try_connect,
  disconnect, rx_chars, dispatch_packet, after_recv, expire, recv_round, reconnect_round,
  start_threads, connect, connect_store, connect_set, bytes_of, is_connected_show,
}

-- The raw UART counts as connected exactly where there is a socket.
abbrev pub Agree : Instance Eth → Type 0
Agree s = s.connection_state ≡ s.hw.connected

-- The module works on: the two threads, the user's calls, and the pins.
pub data LinkStep (circ : CircMacros) : Link → Link → Type 0 where
  received :
      (autoreconnect : Bool) (now later : ℕ) (r : Received) (l : Link)
      → LinkStep circ l (recv_round circ autoreconnect now later r l)
  reconnected :
      (now : ℕ) (attempt : Attempt) (l : Link)
      → LinkStep circ l (reconnect_round circ now attempt l)
  stored :
      (buf : List ℕ) (attempt : Attempt) (receiver sender : Option Errno) (now : ℕ) (l : Link)
      → LinkStep circ l (connect_store circ buf attempt receiver sender now l).1
  param_set :
      (val : Option (List ℕ)) (attempt : Attempt) (receiver sender : Option Errno) (now : ℕ)
      (l : Link)
      → LinkStep circ l (connect_set circ val attempt receiver sender now l).1
  sends :
      (due : Bool) (l : Link)
      → LinkStep circ l
          (record l { raw_uart = record (l.raw_uart) { hw = send_round circ due l.raw_uart.hw } })
  pin_set :
      (gpio v : ℕ) (l : Link)
      → LinkStep circ l
          (record l { raw_uart = record (l.raw_uart) { hw = gpio_set circ gpio v l.raw_uart.hw } })

pub data LinkRun (circ : CircMacros) : Link → Link → Type 0 where
  at_rest : {l : Link} → LinkRun circ l l
  then_step : {l m n : Link} → LinkRun circ l m → LinkStep circ m n → LinkRun circ l n

set_connected-Agree : (c : Bool) (s : Instance Eth) → Agree (set_connected c s)
unfolding set_connected
set_connected-Agree c s = refl

settle-Agree : (o : Option ℕ) (s : Instance Eth) → Agree s → Agree (settle o s).1
unfolding settle set_connected
settle-Agree none s h = h
settle-Agree (some e) s h = refl

try_connect-Agree : (e : ℕ) (a : Attempt) (s : Instance Eth) → Agree s → Agree (try_connect e a s).1
unfolding try_connect settle set_connected send_msg
try_connect-Agree e (no_socket x) s h = h
try_connect-Agree e (no_route x) s h = h
try_connect-Agree e (answers rs) s h =
    let (b, hw') = send_msg true (0 ∷ 0 ∷ 2 ∷ e ∷ 0 ∷ 0 ∷ []) 6 s.hw in
    settle-Agree (first_answer (get_or b 1 0) rs) (record s { hw = hw' }) h

disconnect-Agree : (l : Link) → Agree l.raw_uart → Agree (disconnect l).raw_uart
unfolding disconnect set_connected send_msg
disconnect-Agree l h = ground arith

module _ (circ : CircMacros) where
  queue_msg-connected :
      (cmd : ℕ) (bytes : List ℕ) (s : Eth) → (queue_msg circ cmd bytes s).connected ≡ s.connected
  unfolding queue_msg
  queue_msg-connected cmd bytes s = ground arith

  send_round-connected : (due : Bool) (s : Eth) → (send_round circ due s).connected ≡ s.connected
  unfolding send_round send_oldest send_msg
  send_round-connected due s = ground arith

  gpio_set-connected : (gpio v : ℕ) (s : Eth) → (gpio_set circ gpio v s).connected ≡ s.connected
  unfolding gpio_set send_gpio
  gpio_set-connected gpio v s =
      let x =
        if v == 0 then bit_and s.gpio_value (255 - 2 ^ gpio) else bit_or s.gpio_value (2 ^ gpio) in
      queue_msg-connected 3 (x ∷ []) (record s { gpio_value = x })

  rx_chars-Agree : (cs : List ℕ) (s : Instance Eth) → Agree s → Agree (rx_chars circ cs s)
  unfolding rx_chars
  rx_chars-Agree [] s h = h
  rx_chars-Agree (c ∷ cs) s h =
      let (hw', state) = handle_rx_char_keeps circ s 0 c in
      rx_chars-Agree cs (handle_rx_char circ 0 c s)
        (state ∙ h ∙ sym (ap (λ (d : Eth). d.connected) hw'))

  dispatch_packet-Agree :
      (now : ℕ) (bytes : List ℕ) (l : Link)
      → Agree l.raw_uart
      → Agree (dispatch_packet circ now bytes l).raw_uart
  unfolding dispatch_packet
  dispatch_packet-Agree now bytes l h =
      let s = rx_chars circ (slice bytes 2 (length bytes - 4)) l.raw_uart in
      let (p, hw', state) = rx_completed_keeps s in
      let agree : Agree (rx_completed s) =
        state
        ∙ rx_chars-Agree (slice bytes 2 (length bytes - 4)) l.raw_uart h
        ∙ sym (ap (λ (d : Eth). d.connected) hw') in
      ground (arith, agree)

  after_recv-Agree :
      (now : ℕ) (bytes : List ℕ) (r : Ret) (l : Link)
      → Agree l.raw_uart
      → Agree (after_recv circ now bytes r l).raw_uart
  unfolding after_recv
  after_recv-Agree now bytes (ok n) l h = ground (arith, dispatch_packet-Agree now bytes l h)
  after_recv-Agree now bytes (err e) l h = h

  expire-Agree :
      (auto : Bool) (later : ℕ) (l : Link) → Agree l.raw_uart → Agree (expire auto later l).raw_uart
  unfolding expire set_connected
  expire-Agree auto later l h = ground arith

  start_threads-Agree :
      (a b : Option Errno) (now : ℕ) (l : Link)
      → Agree l.raw_uart
      → Agree (start_threads circ a b now l).1.raw_uart
  unfolding start_threads
  start_threads-Agree (some x) b now l h = set_connected-Agree false l.raw_uart
  start_threads-Agree none (some x) now l h = set_connected-Agree false l.raw_uart
  start_threads-Agree none none now l h = h ∙ sym (queue_msg-connected 4 [] l.raw_uart.hw)

  connect-Agree :
      (ip : List ℕ) (attempt : Attempt) (a b : Option Errno) (now : ℕ) (l : Link)
      → Agree l.raw_uart
      → Agree (connect circ ip attempt a b now l).1.raw_uart
  unfolding connect
  connect-Agree ip attempt a b now l h =
      let s = (try_connect 0 attempt l.raw_uart).1 in
      let t = try_connect-Agree 0 attempt l.raw_uart h in
      ground (arith, t, start_threads-Agree a b now (record l { raw_uart = s }) t)

  reconnect_round-Agree :
      (now : ℕ) (attempt : Attempt) (l : Link)
      → Agree l.raw_uart
      → Agree (reconnect_round circ now attempt l).raw_uart
  unfolding reconnect_round
  reconnect_round-Agree now attempt l h =
      let t = try_connect-Agree l.raw_uart.hw.endpoint attempt l.raw_uart h in ground (arith, t)

  connect_store-Agree :
      (buf : List ℕ) (attempt : Attempt) (a b : Option Errno) (now : ℕ) (l : Link)
      → Agree l.raw_uart
      → Agree (connect_store circ buf attempt a b now l).1.raw_uart
  unfolding connect_store
  connect_store-Agree buf attempt a b now l h =
      let d = disconnect-Agree l h in
      ground (arith, d, connect-Agree buf attempt a b now (disconnect l) d)

  connect_set-Agree :
      (val : Option (List ℕ)) (attempt : Attempt) (a b : Option Errno) (now : ℕ) (l : Link)
      → Agree l.raw_uart
      → Agree (connect_set circ val attempt a b now l).1.raw_uart
  unfolding connect_set
  connect_set-Agree none attempt a b now l h = disconnect-Agree l h
  connect_set-Agree (some val) attempt a b now l h =
      let d = disconnect-Agree l h in
      ground (arith, d, connect-Agree val attempt a b now (disconnect l) d)

  step-Agree : {l m : Link} → Agree l.raw_uart → LinkStep circ l m → Agree m.raw_uart
  unfolding recv_round
  step-Agree h (received auto now later r l) =
      expire-Agree auto later
        (after_recv circ now (bytes_of r) (recv_packet l.raw_uart.hw.connected r) l)
        (after_recv-Agree now (bytes_of r) (recv_packet l.raw_uart.hw.connected r) l h)
  step-Agree h (reconnected now attempt l) = reconnect_round-Agree now attempt l h
  step-Agree h (stored buf attempt a b now l) = connect_store-Agree buf attempt a b now l h
  step-Agree h (param_set val attempt a b now l) = connect_set-Agree val attempt a b now l h
  step-Agree h (sends due l) = h ∙ sym (send_round-connected due l.raw_uart.hw)
  step-Agree h (pin_set gpio v l) = h ∙ sym (gpio_set-connected gpio v l.raw_uart.hw)

  -- Along every run of the two threads, the user's calls and the pins, the raw UART counts as
  -- connected exactly where there is a socket.
  run-Agree : {l m : Link} → Agree l.raw_uart → LinkRun circ l m → Agree m.raw_uart
  run-Agree h at_rest = h
  run-Agree h (then_step r s) = step-Agree (run-Agree h r) s

  -- After every such run, where `is_connected` shows 0 and fewer than three connections are open, an
  -- open of the raw UART is refused with -ENODEV; where it shows 1 and others are open, it succeeds.
  pub open-is_connected :
      (l m : Link) (p : ℕ)
      → Agree l.raw_uart
      → LinkRun circ l m
      → m.raw_uart.open_count < 3
      → (is_connected_show m ≡ 0
          → (open_connection (hb_rf_eth circ) true false p m.raw_uart).0 ≡ err enodev)
        × (is_connected_show m ≡ 1
            → (open_connection (hb_rf_eth circ) true false p m.raw_uart).0 ≡ ok 0)
  unfolding is_connected_show open_connection
  open-is_connected l m p h r few =
      let agree = run-Agree h r in (λ e. ground (arith, agree), λ e. ground (arith, agree))
