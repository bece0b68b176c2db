-- ===== src/RawUart/Rx.antt =====
-- Receiving in kernel/generic_raw_uart.c: `generic_raw_uart_handle_rx_char`,
-- `generic_raw_uart_rx_completed` and `generic_raw_uart_read`.
pub mod Queue
pub mod Stream
pub mod Conserve
pub mod Kept
use pi_vccu.Prelude.{
  ℕ, ◌+◌, ◌-◌, bit_and, List, [], ◌∷◌, Bool, true, false, not, ◌==◌, leb, if◌then◌else◌, set,
}
use pi_vccu.Prelude.Buffers.{slice}
use pi_vccu.Kernel.{CircMacros, Ret, ok, err, Errno, erestartsys, efault, min_int}
use pi_vccu.Kernel.Wait.{Wake, Waited, ready, failed, asleep, wait_loop}
use pi_vccu.Ring.{CircBuf}
use pi_vccu.RawUart.{Instance, circbuf_size, add_int}

-- `flags & mask` of `enum generic_raw_uart_rx_flags`.
abbrev pub has_flag : ℕ → ℕ → Bool
has_flag flags mask = not (bit_and flags mask == 0)

abbrev pub rx_state_break : ℕ
rx_state_break = 1

abbrev pub rx_state_parity : ℕ
rx_state_parity = 2

abbrev pub rx_state_frame : ℕ
rx_state_frame = 4

abbrev pub rx_state_overrun : ℕ
rx_state_overrun = 8

module _ {D : Type 0} where
  -- The three error counters of a character that is no break.
  pub count_errors : ℕ → Instance D → Instance D
  count_errors flags s = record s {
    count_parity =
        if has_flag flags rx_state_parity then add_int s.count_parity 1 else s.count_parity;
    count_frame = if has_flag flags rx_state_frame then add_int s.count_frame 1 else s.count_frame;
    count_overrun =
        if has_flag flags rx_state_overrun then add_int s.count_overrun 1 else s.count_overrun;
  }

  -- `dump_rxbuf[dump_rxbuf_pos++] = data`, printed and started anew when it is full.
  pub dump_rx_char : ℕ → Instance D → Instance D
  dump_rx_char data' s =
      let stored = record s {
        dump_rxbuf = set s.dump_rxbuf s.dump_rxbuf_pos data';
        dump_rxbuf_pos = if s.dump_rxbuf_pos + 1 == 32 then 0 else s.dump_rxbuf_pos + 1;
      } in
      if s.dump_traffic then stored else s

  -- `wake_up_interruptible(&readq)` wakes the readers, which is no part of the state.
  pub rx_completed : Instance D → Instance D
  rx_completed s = if s.dump_traffic then record s { dump_rxbuf_pos = 0 } else s

module _ (circ : CircMacros) where
  -- The store into the receive buffer; a character that finds no room is dropped.
  unfoldable pub rx_store : ℕ → CircBuf ℕ → CircBuf ℕ
  rx_store data' r =
      let stored = record r {
        buf = set r.buf r.head data';
        head = if leb circbuf_size (r.head + 1) then 0 else r.head + 1;
      } in
      if circ.circ_space r.head r.tail circbuf_size == 0 then r else stored

  -- The loop condition of the readers.
  abbrev pub has_data : CircBuf ℕ → Bool
  has_data r = not (circ.circ_cnt r.head r.tail circbuf_size == 0)

  -- The part of `generic_raw_uart_read` behind the wait: the result, the bytes copied to the user,
  -- and the buffer. `copy_fails` says whether `copy_to_user` fails.
  unfoldable pub read_copy : Bool → ℕ → CircBuf ℕ → Ret × List ℕ × CircBuf ℕ
  read_copy copy_fails count r =
      let n = min_int count (circ.circ_cnt_to_end r.head r.tail circbuf_size) in
      let tail' = r.tail + n in
      let moved = record r {
        tail = if leb circbuf_size tail' then tail' - circbuf_size else tail';
      } in
      if copy_fails then (err efault, [], r) else (ok n, slice r.buf r.tail n, moved)

-- What a call that may sleep comes to: a result with the bytes handed to the user, or it sleeps on.
pub data Call (D : Type 0) : Type 0 where
  returns : Ret → List ℕ → Instance D → Call D
  sleeps : Instance D → Call D

module _ (circ : CircMacros) {D : Type 0} where
  pub handle_rx_char : ℕ → ℕ → Instance D → Instance D
  unfolding count_errors dump_rx_char rx_store
  handle_rx_char flags data' s =
      let counted = record s { count_rx = add_int s.count_rx 1 } in
      let noted = dump_rx_char data' (count_errors flags counted) in
      if has_flag flags rx_state_break
      then record counted { count_brk = add_int s.count_brk 1 }
      else record noted { rxbuf = rx_store circ data' s.rxbuf }

  unfoldable pub read_ready : Bool → ℕ → Instance D → Call D
  unfolding read_copy
  read_ready copy_fails count s =
      let (ret, bytes, r) = read_copy circ copy_fails count s.rxbuf in
      returns ret bytes (record s { rxbuf = r })

  unfoldable pub read_waited : Bool → ℕ → Waited (Instance D) → Call D
  unfolding read_ready
  read_waited copy_fails count (ready s) = read_ready copy_fails count s
  read_waited copy_fails count (failed e s) = returns (err e) [] s
  read_waited copy_fails count (asleep s) = sleeps s

  -- `generic_raw_uart_read`. `interrupted` says whether the first `down_interruptible` fails.
  unfoldable pub read : Bool → Bool → List (Wake (Instance D)) → Bool → ℕ → Instance D → Call D
  unfolding read_waited wait_loop
  read interrupted nonblock wakes copy_fails count s =
      let waited = wait_loop (λ t. has_data circ t.rxbuf) nonblock wakes s in
      if interrupted then returns (err erestartsys) [] s else read_waited copy_fails count waited
