-- ===== src/Eth/Link.antt =====
-- The connection of kernel/hb_rf_eth.c: the handshake, the receiver, and connecting and
-- disconnecting by the user.
pub mod Receive
pub mod State
pub mod Handshake
use pi_vccu.Prelude.{
  ℕ, ◌+◌, ◌-◌, List, [], ◌∷◌, Option, none, some, Bool, true, false, ◌==◌, ◌&&◌, ◌||◌, ltb, leb,
  if◌then◌else◌, get_or, length,
}
use pi_vccu.Prelude.Buffers.{slice}
use pi_vccu.Kernel.{CircMacros, Ret, ok, err, Errno, eproto, einval, etimedout}
use pi_vccu.RawUart.{Instance}
use pi_vccu.RawUart.Rx.{handle_rx_char, rx_completed}
use pi_vccu.Eth.{Eth, send_msg, Received, packet, no_packet, recv_packet}
use pi_vccu.Eth.Driver.{send_reset}

abbrev pub protocol_version : ℕ
protocol_version = 2

-- The raw UART over this driver, with what the receiver keeps: whether the two threads run, and the
-- time of the last message. The times are milliseconds.
pub record Link : Type 0 where
  pub raw_uart : Instance Eth
  pub receiver_runs : Bool
  pub sender_runs : Bool
  pub last_keepalive : ℕ

-- `_sock = ...; generic_raw_uart_set_connection_state(raw_uart, ...)`, which stand together.
unfoldable pub set_connected : Bool → Instance Eth → Instance Eth
set_connected c s = record s { hw = record (s.hw) { connected = c }; connection_state = c }

-- What the kernel's calls in `hb_rf_eth_try_connect` give: no socket, no route, or the answers that
-- arrive until the time is over.
pub data Attempt : Type 0 where
  no_socket : Errno → Attempt
  no_route : Errno → Attempt
  answers : List Received → Attempt

-- The bytes of a packet of `n` bytes.
abbrev pub bytes_of : Received → List ℕ
bytes_of (packet bytes) = bytes
bytes_of (no_packet r) = []

-- The endpoint that an answer to the message with the counter `cnt` names.
pub answer_endpoint : ℕ → Received → Option ℕ
answer_endpoint cnt r =
    let b = bytes_of r in
    let accepted : Bool = elim (recv_packet true r) [ ok n ↦ n == 7 | err e ↦ false ] in
    if accepted
      && (get_or b 0 0 == 0)
      && (get_or b 2 0 == protocol_version)
      && (get_or b 3 0 == cnt)
    then some (get_or b 4 0)
    else none

-- The loop that waits for an answer is left with the first one.
abbrev pub or_later : Option ℕ → Option ℕ → Option ℕ
or_later (some e) later = some e
or_later none later = later

unfoldable pub first_answer : ℕ → List Received → Option ℕ
first_answer cnt [] = none
first_answer cnt (r ∷ rs) = or_later (answer_endpoint cnt r) (first_answer cnt rs)

-- What `hb_rf_eth_try_connect` does behind the loop; `none` for the result 0.
unfoldable pub settle : Option ℕ → Instance Eth → Option Errno × Instance Eth
unfolding set_connected
settle none s = (some etimedout, s)
settle (some e) s = (none, set_connected true (record s { hw = record (s.hw) { endpoint = e } }))

-- `hb_rf_eth_try_connect`
unfoldable pub try_connect : ℕ → Attempt → Instance Eth → Option Errno × Instance Eth
unfolding first_answer settle send_msg
try_connect endpoint' (no_socket e) s = (some e, s)
try_connect endpoint' (no_route e) s = (some e, s)
try_connect endpoint' (answers rs) s =
    let (buffer', hw') = send_msg true (0 ∷ 0 ∷ protocol_version ∷ endpoint' ∷ 0 ∷ 0 ∷ []) 6 s.hw in
    settle (first_answer (get_or buffer' 1 0) rs) (record s { hw = hw' })

-- `hb_rf_eth_disconnect`
unfoldable pub disconnect : Link → Link
unfolding set_connected send_msg
disconnect l =
    let s = l.raw_uart in
    let hw' = (send_msg true (1 ∷ 0 ∷ 0 ∷ 0 ∷ []) 4 s.hw).1 in
    record l {
      raw_uart = if s.hw.connected then set_connected false (record s { hw = hw' }) else s;
      receiver_runs = false;
      sender_runs = false;
    }

-- The end of a connection on which nothing has arrived for five seconds.
unfoldable pub expire : Bool → ℕ → Link → Link
unfolding set_connected
expire autoreconnect later l =
    if ltb (l.last_keepalive + 5000) later
    then record l { raw_uart = set_connected false l.raw_uart; receiver_runs = autoreconnect }
    else l

module _ (circ : CircMacros) where
  -- `generic_raw_uart_handle_rx_char` for each byte.
  pub rx_chars : List ℕ → Instance Eth → Instance Eth
  rx_chars [] s = s
  rx_chars (c ∷ cs) s = rx_chars cs (handle_rx_char circ 0 c s)

  -- The `switch` of `hb_rf_eth_recv_threadproc`, at the time `now`.
  pub dispatch_packet : ℕ → List ℕ → Link → Link
  unfolding rx_chars
  dispatch_packet now bytes l =
      if get_or bytes 0 0 == 2
      then record l { last_keepalive = now }
      else if get_or bytes 0 0 == 7
      then record l {
        last_keepalive = now;
        raw_uart = rx_completed (rx_chars (slice bytes 2 (length bytes - 4)) l.raw_uart);
      }
      else l

  -- `if (len >= 4)`, on the result of `hb_rf_eth_recv_packet`.
  unfoldable pub after_recv : ℕ → List ℕ → Ret → Link → Link
  unfolding dispatch_packet
  after_recv now bytes (ok n) l = if leb 4 n then dispatch_packet now bytes l else l
  after_recv now bytes (err e) l = l

  -- A round of `hb_rf_eth_recv_threadproc` up to the reconnection: a packet is received at the time
  -- `now`, and the last test is made at the time `later`.
  pub recv_round : Bool → ℕ → ℕ → Received → Link → Link
  unfolding after_recv expire
  recv_round autoreconnect now later r l =
      expire autoreconnect later
        (after_recv now (bytes_of r) (recv_packet l.raw_uart.hw.connected r) l)

  -- A round of the loop that reconnects.
  pub reconnect_round : ℕ → Attempt → Link → Link
  unfolding try_connect
  reconnect_round now attempt l =
      let (e, s) = try_connect l.raw_uart.hw.endpoint attempt l.raw_uart in
      elim e [
        | none ↦ record l { raw_uart = s; last_keepalive = now }
        | some x ↦ record l { raw_uart = s }
      ]

  -- `hb_rf_eth_connect` behind the handshake. The first two arguments are the outcomes of the two
  -- `kthread_run`.
  pub start_threads : Option Errno → Option Errno → ℕ → Link → Option Errno × Link
  unfolding set_connected
  start_threads (some e) sender now l =
      (some e, record l { raw_uart = set_connected false l.raw_uart; receiver_runs = false })
  start_threads none (some e) now l = (
    some e,
    record l {
      raw_uart = set_connected false l.raw_uart;
      receiver_runs = false;
      sender_runs = false;
    },
  )
  start_threads none none now l = (
    none,
    record l {
      raw_uart = record (l.raw_uart) { hw = send_reset circ l.raw_uart.hw };
      receiver_runs = true;
      sender_runs = true;
      last_keepalive = now;
    },
  )

  -- `hb_rf_eth_connect` with the characters of the address.
  pub connect : List ℕ → Attempt → Option Errno → Option Errno → ℕ → Link → Option Errno × Link
  unfolding try_connect start_threads
  connect ip attempt receiver sender now l =
      let (e, s) = try_connect 0 attempt l.raw_uart in
      if get_or ip 0 0 == 0 then (some einval, l) else elim e [
        | some x ↦ (some x, record l { raw_uart = s })
        | none ↦ start_threads receiver sender now (record l { raw_uart = s })
      ]

  -- `connect_store`
  pub connect_store : List ℕ → Attempt → Option Errno → Option Errno → ℕ → Link → Ret × Link
  unfolding connect disconnect
  connect_store buf attempt receiver sender now l =
      let count = length buf in
      let (e, t) = connect buf attempt receiver sender now (disconnect l) in
      if count == 0
      then (ok 0, l)
      else if ltb 16 count
      then (err einval, l)
      else if (get_or buf 0 0 == 0) || (get_or buf 0 0 == 45)
      then (ok count, disconnect l)
      else (elim e [ none ↦ ok count | some x ↦ err x ], t)

  -- `hb_rf_eth_connect_set`; `none` for a null pointer.
  unfoldable pub connect_set :
      Option (List ℕ) → Attempt → Option Errno → Option Errno → ℕ → Link → Option Errno × Link
  unfolding connect disconnect
  connect_set none attempt receiver sender now l = (none, disconnect l)
  connect_set (some val) attempt receiver sender now l =
      let tried = connect val attempt receiver sender now (disconnect l) in
      if (get_or val 0 0 == 0) || (get_or val 0 0 == 45) then (none, disconnect l) else tried

-- `is_connected_show`: the digit.
pub is_connected_show : Link → ℕ
is_connected_show l = if l.raw_uart.hw.connected then 1 else 0
