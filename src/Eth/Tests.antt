-- ===== src/Eth/Tests.antt =====
-- Concrete runs of kernel/hb_rf_eth.c.
use pi_vccu.Prelude.{
  ℕ, zero, suc, ◌<◌, ◌≡◌, refl, List, [], ◌∷◌, ◌++◌, Option, none, some, Bool, true, false, length,
  replicate, get_or, length-replicate, arith, if◌then◌else◌, ◌==◌,
}
use pi_vccu.Kernel.{ok, err, eproto, enodev}
use pi_vccu.Kernel.Sample.{sample_circ}
use pi_vccu.Ring.{CircBuf, contents, IsRing}
use pi_vccu.Ring.Queue.{length-contents}
use pi_vccu.RawUart.{Conn, Instance}
use pi_vccu.RawUart.Rx.Stream.{IsRxValid, pending}
use pi_vccu.RawUart.Session.{open_connection}
use pi_vccu.RawUart.Tx.{tx_queued_unlocked, tx_loop, tx_finish, send_bulk}
use pi_vccu.Eth.{
  Eth, Entry, calc_crc, crc_loop, crc_shifts, crc_shift, packet, recv_packet, send_oldest,
}
use pi_vccu.Eth.Packet.{sealed, recv_packet-damaged}
use pi_vccu.Eth.SendQueue.{IsEth, waiting, no_entry}
use pi_vccu.Eth.Threads.{send_oldest_lem}
use pi_vccu.Eth.Driver.{hb_rf_eth}
use pi_vccu.Eth.Driver.Bounds.{tx_queued_unlocked-IsEth}
use pi_vccu.Eth.Link.{Link, recv_round, connect_set, disconnect, is_connected_show, no_route}
use pi_vccu.Eth.Link.Receive.{recv_round-delivers}
use pi_vccu.Eth.Link.State.{at_rest, then_step, param_set, open-is_connected}

-- A message of the code 7 with two bytes, whose first byte is damaged.
abbrev short_message : List ℕ
short_message = sealed 7 1 (65 ∷ 66 ∷ [])

recv_packet-damaged_example :
    recv_packet true
      (packet (7 ∷ 1 ∷ 64 ∷ 66 ∷ get_or short_message 4 0 ∷ get_or short_message 5 0 ∷ []))
    ≡ err eproto
unfolding recv_packet calc_crc crc_loop crc_shifts crc_shift
recv_packet-damaged_example =
    recv_packet-damaged (7 ∷ 1 ∷ []) (66 ∷ get_or short_message 4 0 ∷ get_or short_message 5 0 ∷ [])
      65 64 5 (omega arith) (omega arith) (omega arith) refl

-- A queue with one message, and thirty-one entries that are free.
unfoldable blank : List ℕ
blank = replicate 1500 0

unfoldable behind : List ℕ
behind = replicate 1496 0

length-blank : length blank ≡ 1500
unfolding blank
length-blank = let n : ℕ = 0 in length-replicate 1500 n

length-behind : length behind ≡ 1496
unfolding behind
length-behind = let n : ℕ = 0 in length-replicate 1496 n

abbrev blank_entry : Entry
blank_entry = record { buffer = blank; len = 0 }

abbrev first_entry : Entry
first_entry = record { buffer = 7 ∷ 0 ∷ 65 ∷ 66 ∷ behind; len = 6 }

unfoldable free_entries : List Entry
free_entries = replicate 31 blank_entry

length-free_entries : length free_entries ≡ 31
unfolding free_entries
length-free_entries = length-replicate 31 blank_entry

get_or-blank :
    (n i : ℕ) → i < n → length (get_or (replicate n blank_entry) i no_entry).buffer ≡ 1500
get_or-blank zero i h = absurd (omega arith)
get_or-blank (suc n) zero h = length-blank
get_or-blank (suc n) (suc i) h = get_or-blank n i (omega arith)

abbrev one_waiting : Bool → Eth
one_waiting c = record {
  send_msg_queue = record { buf = first_entry ∷ free_entries; head = 1; tail = 0 };
  overran = false;
  gpio_value = 5;
  msg_cnt = 255;
  connected = c;
  endpoint = 0;
  sent = [];
}

entries_sized :
    (i : ℕ) → i < 32 → length (get_or (first_entry ∷ free_entries) i no_entry).buffer ≡ 1500
unfolding free_entries
entries_sized zero h = omega (arith, length-behind)
entries_sized (suc i) h = get_or-blank 31 i (omega arith)

one_waiting-IsEth : (c : Bool) → IsEth (one_waiting c)
one_waiting-IsEth c = record {
  ring = record {
    array = omega (arith, length-free_entries);
    head_in = omega arith;
    tail_in = omega arith;
  };
  buffers = entries_sized;
}

send_oldest_lem_example :
    let t = send_oldest (one_waiting true) in
    IsEth t
    × (waiting t ≡ [])
    × (t.sent ≡ sealed 7 256 (65 ∷ 66 ∷ []) ∷ [])
    × (t.msg_cnt ≡ 256)
    × (recv_packet true (packet (sealed 7 256 (65 ∷ 66 ∷ []))) ≡ ok 6)
unfolding contents free_entries
send_oldest_lem_example =
    send_oldest_lem (one_waiting true) (one_waiting-IsEth true) first_entry [] refl 7 (65 ∷ 66 ∷ [])
      (record {
        old_cnt = 0;
        rest = behind;
        layout = refl;
        room = omega (arith, length-behind);
        size = refl;
      })

unfoldable empty_array : List ℕ
empty_array = replicate 1024 0

length-empty_array : length empty_array ≡ 1024
unfolding empty_array
length-empty_array = let n : ℕ = 0 in length-replicate 1024 n

abbrev empty_ring : CircBuf ℕ
empty_ring = record { buf = empty_array; head = 1023; tail = 1023 }

empty-IsRing : IsRing 1024 empty_ring
empty-IsRing = record { array = length-empty_array; head_in = omega arith; tail_in = omega arith }

abbrev two_bytes : Conn
two_bytes = record { txbuf = 8 ∷ 9 ∷ []; tx_buf_length = 2; tx_buf_index = 0; priority = 1 }

-- The raw UART over this queue, with the transmitter at `sender`.
abbrev uart : Bool → Option ℕ → Instance Eth
uart c sender = record {
  rxbuf = empty_ring;
  open_count = 1;
  connection_state = c;
  tx_connection = sender;
  conns = λ p. if p == 1 then some two_bytes else none;
  termios = [];
  reset_pin = 0;
  count_tx = 0;
  count_rx = 0;
  count_brk = 0;
  count_parity = 0;
  count_frame = 0;
  count_overrun = 0;
  dump_traffic = true;
  dump_rxbuf_pos = 31;
  dump_rxbuf = replicate 32 0;
  module_refs = 1;
  hw = one_waiting c;
}

abbrev linked : Link
linked = record {
  raw_uart = uart true none;
  receiver_runs = true;
  sender_runs = true;
  last_keepalive = 0;
}

linked-IsRxValid : IsRxValid (uart true none)
linked-IsRxValid = record { ring = empty-IsRing; dump_pos = omega arith; dump_size = refl }

recv_round-delivers_example :
    let t = recv_round sample_circ true 9000 9001 (packet short_message) linked in
    (pending t.raw_uart ≡ pending linked.raw_uart ++ (65 ∷ 66 ∷ []))
    × IsRxValid t.raw_uart
    × (t.raw_uart.hw.connected ≡ true)
    × (t.last_keepalive ≡ 9000)
recv_round-delivers_example =
    recv_round-delivers sample_circ true 9000 9001 1 (65 ∷ 66 ∷ []) linked linked-IsRxValid refl
      (omega (arith, length-contents 1024 empty_ring empty-IsRing)) (omega arith)

abbrev after_disconnect : Link
after_disconnect = (connect_set sample_circ none (no_route eproto) none none 0 linked).1

open-is_connected_example :
    (is_connected_show after_disconnect ≡ 0
      → (open_connection (hb_rf_eth sample_circ) true false 4 after_disconnect.raw_uart).0
        ≡ err enodev)
    × (is_connected_show after_disconnect ≡ 1
        → (open_connection (hb_rf_eth sample_circ) true false 4 after_disconnect.raw_uart).0 ≡ ok 0)
unfolding connect_set disconnect
open-is_connected_example =
    open-is_connected sample_circ linked after_disconnect 4 refl
      (then_step at_rest (param_set none (no_route eproto) none none 0 linked)) (omega arith)

abbrev sent_state : Instance Eth
sent_state = elim (tx_queued_unlocked (hb_rf_eth sample_circ) (uart true (some 1))) [
  | none ↦ uart true none
  | some t ↦ t
]

tx_queued_unlocked-IsEth_example : IsEth sent_state.hw × (sent_state.hw.overran ≡ false)
unfolding tx_queued_unlocked tx_loop tx_finish send_bulk
tx_queued_unlocked-IsEth_example =
    tx_queued_unlocked-IsEth sample_circ (uart true (some 1)) sent_state (one_waiting-IsEth true)
      refl refl
