-- ===== src/RawUart/Tests.antt =====
-- Concrete runs of kernel/generic_raw_uart.c, over a driver whose hardware is the list of bytes on
-- the line.
mod Control
use pi_vccu.Prelude.{
  ℕ, ◌<◌, ◌≡◌, ◌⊎◌, refl, List, [], ◌∷◌, ◌++◌, Option, none, some, Bool, true, false, length,
  replicate, length-replicate, arith, if◌then◌else◌, ◌==◌,
}
use pi_vccu.Prelude.Buffers.{slice}
use pi_vccu.Kernel.Call.{error}
use pi_vccu.Kernel.{Ret, ok, err, Errno, eagain, efault, einval, erestartsys, emfile, min_int}
use pi_vccu.Kernel.Sample.{sample_circ}
use pi_vccu.Kernel.Wait.{woken, ready, wait_loop}
use pi_vccu.Ring.{CircBuf, IsRing}
use pi_vccu.RawUart.{RawUartDriver, Conn, Instance}
use pi_vccu.RawUart.Rx.{has_data, read, returns}
use pi_vccu.RawUart.Rx.Stream.{IsRxValid, pending, Delivered, read-Delivered, read_nonblock}
use pi_vccu.RawUart.Rx.Conserve.{arrives, asks, run, Conserved, run-Conserved}
use pi_vccu.RawUart.Tx.{
  tx_queued_unlocked, acquire_sender, send_completed, wait_completed, write, wrote, copied,
  tx_signalled,
}
use pi_vccu.RawUart.Tx.Loop.{IsLine}
use pi_vccu.RawUart.Tx.Queued.{Transmitted, tx_queued_unlocked-Transmitted}
use pi_vccu.RawUart.Tx.Acquire.{acquire_sender-preempts, write_whole}
use pi_vccu.RawUart.Session.{open_connection, close_connection}
use pi_vccu.RawUart.Session.Lifetime.{Refused, open-Refused, Undone, close-open}
use pi_vccu.RawUart.Session.Dangling.{Dangles, close_while_sending}

abbrev pub sample_driver : RawUartDriver (List ℕ)
sample_driver = record {
  start_connection = λ d. (none, d);
  stop_connection = λ d. d;
  init_tx = λ d. d;
  isready_for_tx = λ d. true;
  tx_chars = λ d chr i n. d ++ slice chr i n;
  stop_tx = λ d. d;
  reset_radio_module = none;
  tx_chunk_size = 4096;
  tx_bulktransfer_size = 2;
}

-- A connection that has sent one of its three bytes, one of a higher priority, and one at rest.
abbrev pub low_conn : Conn
low_conn = record { txbuf = 7 ∷ 8 ∷ 9 ∷ []; tx_buf_length = 3; tx_buf_index = 1; priority = 1 }

abbrev high_conn : Conn
high_conn = record { txbuf = []; tx_buf_length = 0; tx_buf_index = 0; priority = 5 }

unfoldable pub idle_conn : Conn
idle_conn = record { txbuf = replicate 4096 0; tx_buf_length = 0; tx_buf_index = 0; priority = 0 }

abbrev sample_conns : ℕ → Option Conn
sample_conns p =
    if p == 1
    then some low_conn
    else if p == 2
    then some high_conn
    else if p == 3
    then some idle_conn
    else none

unfoldable pub empty_array : List ℕ
empty_array = replicate 1024 0

length-empty_array : length empty_array ≡ 1024
unfolding empty_array
length-empty_array = let n : ℕ = 0 in length-replicate 1024 n

abbrev empty_ring : CircBuf ℕ
empty_ring = record { buf = empty_array; head = 1023; tail = 1023 }

-- An instance whose transmitter is `sender`.
abbrev pub sample_state : Option ℕ → ℕ → Instance (List ℕ)
sample_state sender count = record {
  rxbuf = empty_ring;
  open_count = count;
  connection_state = true;
  tx_connection = sender;
  conns = sample_conns;
  termios = [];
  reset_pin = 0;
  count_tx = 0;
  count_rx = 0;
  count_brk = 0;
  count_parity = 0;
  count_frame = 0;
  count_overrun = 0;
  dump_traffic = true;
  dump_rxbuf_pos = 31;
  dump_rxbuf = replicate 32 0;
  module_refs = count;
  hw = 7 ∷ [];
}

empty-IsRing : IsRing 1024 empty_ring
empty-IsRing = record { array = length-empty_array; head_in = omega arith; tail_in = omega arith }

pub sample-IsRxValid : IsRxValid (sample_state none 1)
sample-IsRxValid = record { ring = empty-IsRing; dump_pos = omega arith; dump_size = refl }

run-Conserved_example :
    Conserved sample_circ
      (sample_state none 1)
      (run sample_circ (arrives 0 65 ∷ asks 4 ∷ []) (sample_state none 1))
    × IsRxValid (run sample_circ (arrives 0 65 ∷ asks 4 ∷ []) (sample_state none 1)).2
run-Conserved_example =
    run-Conserved sample_circ (arrives 0 65 ∷ asks 4 ∷ []) (sample_state none 1) sample-IsRxValid
      (tt, (omega arith, tt))

-- One byte waits.
unfoldable zeros : List ℕ
zeros = replicate 1023 0

length-zeros : length zeros ≡ 1023
unfolding zeros
length-zeros = let n : ℕ = 0 in length-replicate 1023 n

abbrev one_byte : ℕ → Instance (List ℕ)
one_byte tail' = record (sample_state none 1) {
  rxbuf = record { buf = 65 ∷ zeros; head = 1; tail = tail' };
}

one_byte-IsRxValid : IsRxValid (one_byte 0)
one_byte-IsRxValid = record {
  ring = record {
    array = omega (arith, length-zeros);
    head_in = omega arith;
    tail_in = omega arith;
  };
  dump_pos = omega arith;
  dump_size = refl;
}

reads :
    read sample_circ false false (woken (one_byte 0) ∷ []) false 4 (sample_state none 1)
    ≡ returns (ok 1) (65 ∷ []) (one_byte 1)
unfolding read min_int zeros
reads = refl

read-Delivered_example :
    (t : Instance (List ℕ)) × (wait_loop
        (λ (u : Instance (List ℕ)). has_data sample_circ u.rxbuf)
        false
        (woken (one_byte 0) ∷ [])
        (sample_state none 1)
      ≡ ready t)
    × Delivered 4 1 (65 ∷ []) t (one_byte 1)
read-Delivered_example =
    read-Delivered sample_circ false false (woken (one_byte 0) ∷ []) false 4 1 (65 ∷ [])
      (sample_state none 1) (one_byte 1) sample-IsRxValid (one_byte-IsRxValid, tt) (omega arith)
      reads

preempts :
    acquire_sender sample_driver 2 (sample_state (some 1) 2) ≡ some (true, sample_state (some 2) 2)
unfolding acquire_sender
preempts = refl

-- The state after the open.
abbrev opened_state : Instance (List ℕ)
opened_state = (open_connection sample_driver true false 9 (sample_state none 1)).1

opens : open_connection sample_driver true false 9 (sample_state none 1) ≡ (ok 0, opened_state)
unfolding open_connection
opens = refl

refuses :
    open_connection sample_driver true false 9 (sample_state none 3)
    ≡ (err emfile, record (sample_state none 3) { module_refs = 4 })
unfolding open_connection
refuses = refl

close_while_sending_example :
    (wait_completed 1 (tx_signalled (sample_state (some 1) 2) ∷ []) (sample_state (some 1) 2)
      ≡ wrote (err erestartsys) (sample_state (some 1) 2))
    × Dangles sample_driver 1
        (close_connection sample_driver false false 1 (sample_state (some 1) 2)).1
close_while_sending_example =
    close_while_sending sample_driver 1 (sample_state (some 1) 2) (sample_state (some 1) 2) refl
      refl
