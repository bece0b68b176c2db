-- ===== src/Usb2/Tests.antt =====
-- Concrete transfers of kernel/hb_rf_usb_2.c, and of kernel/generic_raw_uart.c over its driver.
use pi_vccu.Prelude.{
  ◌<◌, refl, Option, length-replicate, arith, ◌⊎◌, Bool, ℕ, ◌≡◌, List, [], ◌∷◌, ◌++◌, none, some,
  true, false, length, replicate,
}
use pi_vccu.Kernel.Sample.{sample_circ}
use pi_vccu.RawUart.{Instance}
use pi_vccu.RawUart.{Conn}
use pi_vccu.RawUart.Tx.{
  tx_queued_unlocked, wait_completed, tx_woken, write_sleeps, write, wrote, copied,
}
use pi_vccu.Usb2.Driver.{
  Port, port_tx_chars, hb_rf_usb_2, process_write_urb, read_again, process_read_urb,
}
use pi_vccu.Usb2.Driver.Line.{on_bus, bus_line, Works, hb_rf_usb_2-IsLine}
use pi_vccu.RawUart.Tx.Queued.{Transmitted, tx_queued_unlocked-Transmitted}
use pi_vccu.RawUart.Tx.Acquire.{write_whole}
use pi_vccu.Kernel.{ok}
use pi_vccu.Usb2.Driver.Flight.{runs, IsPort, IsLost, tx_queued_unlocked-IsLost}
use pi_vccu.Usb2.Driver.Bulk.{process_write_urb-next}
use pi_vccu.Prelude.Buffers.{slice}
use pi_vccu.Usb2.Stream.{escaped, feed, process_read_urb-escaped}

unfoldable usb_buffer : List ℕ
usb_buffer = replicate 256 0

length-usb_buffer : length usb_buffer ≡ 256
unfolding usb_buffer
length-usb_buffer = let zero_byte : ℕ = 0 in length-replicate 256 zero_byte

-- A port, with or without a transfer under way, on a bus that works or fails.
abbrev port_with : Bool → Option (List ℕ) → Bool → Port
port_with busy flight fails = record {
  invert_reset = false;
  part_num = 0x22;
  write_buffer = usb_buffer;
  is_in_tx = busy;
  in_flight = flight;
  reading = true;
  gpio_value = 3;
  control = [];
  refs = 2;
  submit_fails = fails;
  overran = false;
  deleted = false;
}

abbrev busy_port : Port
busy_port = port_with true (some (7 ∷ [])) false

busy_port-IsPort : IsPort busy_port
busy_port-IsPort = record {
  array = length-usb_buffer;
  inside = refl;
  idle = λ h. absurd cc;
  small = λ x h. ground arith;
}

-- It has sent a byte of thirteen.
abbrev long_conn : Conn
long_conn = record {
  txbuf = 7 ∷ 1 ∷ 2 ∷ 3 ∷ 4 ∷ 5 ∷ 6 ∷ 7 ∷ 8 ∷ 9 ∷ 10 ∷ 11 ∷ 12 ∷ [];
  tx_buf_length = 13;
  tx_buf_index = 1;
  priority = 0;
}

abbrev sending_instance : Port → Instance Port
sending_instance port = record {
  rxbuf = record { buf = replicate 1024 0; head = 0; tail = 0 };
  open_count = 1;
  connection_state = true;
  tx_connection = some 3;
  conns = λ p. some long_conn;
  termios = [];
  reset_pin = 0;
  count_tx = 0;
  count_rx = 0;
  count_brk = 0;
  count_parity = 0;
  count_frame = 0;
  count_overrun = 0;
  dump_traffic = false;
  dump_rxbuf_pos = 0;
  dump_rxbuf = replicate 32 0;
  module_refs = 0;
  hw = port;
}

abbrev last_index : ℕ
last_index = 12

process_write_urb-next_example :
    (t : Instance Port) × (process_write_urb (sending_instance busy_port) ≡ some t)
    × (t.hw.in_flight ≡ some (slice long_conn.txbuf 1 11))
    × (t.hw.is_in_tx ≡ true)
    × (t.conns 3 ≡ some (record long_conn { tx_buf_index = 12 }))
    × (((t.tx_connection ≡ some 3) × (12 < 13)) ⊎ ((t.tx_connection ≡ none) × (last_index ≡ 13)))
process_write_urb-next_example =
    process_write_urb-next 3 long_conn (sending_instance busy_port) busy_port-IsPort refl refl refl
      (omega arith) (omega arith)

abbrev failing_port : Port
failing_port = port_with false none true

failing_port-IsPort : IsPort failing_port
failing_port-IsPort = record {
  array = length-usb_buffer;
  inside = refl;
  idle = λ h. refl;
  small = λ x h. absurd cc;
}

tx_queued_unlocked-IsLost_example :
    let lost = port_tx_chars failing_port long_conn.txbuf 0 1 in
    IsLost lost
    × ((k : ℕ) → runs k (sending_instance lost) ≡ some (sending_instance lost))
    × ((k : ℕ)
        → wait_completed 3 (replicate k (tx_woken (sending_instance lost))) (sending_instance lost)
          ≡ write_sleeps (sending_instance lost))
tx_queued_unlocked-IsLost_example =
    tx_queued_unlocked-IsLost failing_port long_conn.txbuf 0 1 3 long_conn
      (sending_instance (port_tx_chars failing_port long_conn.txbuf 0 1)) failing_port-IsPort refl
      refl refl refl refl (omega arith)

process_read_urb-escaped_example :
    process_read_urb sample_circ false
      (escaped (7 ∷ 255 ∷ 8 ∷ []) ++ (255 ∷ []))
      (length (escaped (7 ∷ 255 ∷ 8 ∷ [])))
      (sending_instance busy_port)
    ≡ some (read_again false (feed sample_circ (7 ∷ 255 ∷ 8 ∷ []) (sending_instance busy_port)))
process_read_urb-escaped_example =
    process_read_urb-escaped sample_circ false (7 ∷ 255 ∷ 8 ∷ []) (255 ∷ [])
      (sending_instance busy_port)

-- A port that works, with nothing under way.
abbrev idle_port : Port
idle_port = port_with false none false

idle_port-Works : Works idle_port
idle_port-Works = record { array = length-usb_buffer; taken = refl; idle = λ h. refl }

tx_queued_unlocked-Transmitted_example :
    (t : Instance Port) × (tx_queued_unlocked hb_rf_usb_2 (sending_instance idle_port) ≡ some t)
    × Transmitted hb_rf_usb_2 3 bus_line long_conn (sending_instance idle_port) t
    × Works t.hw
tx_queued_unlocked-Transmitted_example =
    tx_queued_unlocked-Transmitted hb_rf_usb_2 3 bus_line Works hb_rf_usb_2-IsLine (omega arith)
      (sending_instance idle_port) long_conn idle_port-Works refl refl (omega arith) (omega arith)
      (omega arith)

unfoldable blank_conn : Conn
blank_conn = record { txbuf = replicate 4096 0; tx_buf_length = 0; tx_buf_index = 0; priority = 0 }

length-blank_conn : length blank_conn.txbuf ≡ 4096
unfolding blank_conn
length-blank_conn = let n : ℕ = 0 in length-replicate 4096 n

abbrev resting_instance : Instance Port
resting_instance = record (sending_instance idle_port) {
  tx_connection = none;
  conns = λ p. some blank_conn;
}

write_whole_example :
    (t : Instance Port) × (write hb_rf_usb_2 false
        (copied (1 ∷ 2 ∷ 3 ∷ []))
        []
        []
        3
        3
        resting_instance
      ≡ wrote (ok 3) t)
    × (bus_line t.hw ≡ 1 ∷ 2 ∷ 3 ∷ [])
    × (t.tx_connection ≡ none)
    × Works t.hw
unfolding bus_line on_bus
write_whole_example =
    write_whole hb_rf_usb_2 bus_line Works hb_rf_usb_2-IsLine (omega arith) (omega arith) 3
      (1 ∷ 2 ∷ 3 ∷ []) [] [] resting_instance blank_conn idle_port-Works refl refl refl
      length-blank_conn (omega arith) (omega arith)
