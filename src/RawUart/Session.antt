-- ===== src/RawUart/Session.antt =====
-- Opening and closing a connection, polling it, and the reset of the radio module, in
-- kernel/generic_raw_uart.c.
pub mod Lifetime
pub mod Dangling
use pi_vccu.Prelude.{
  ℕ, ◌+◌, ◌-◌, List, [], ◌∷◌, Option, none, some, Bool, true, false, not, ltb, leb, ◌==◌,
  if◌then◌else◌, replicate,
}
use pi_vccu.Kernel.{CircMacros, Ret, ok, err, Errno, erestartsys, emfile, enodev, ebusy, enosys}
use pi_vccu.Ring.{CircBuf}
use pi_vccu.RawUart.{
  RawUartDriver, Conn, Instance, circbuf_size, con_data_tx_buf_size, max_connections,
}
use pi_vccu.RawUart.Tx.{store}

-- A new connection: `kmalloc` and `memset` to 0.
unfoldable pub fresh_conn : Conn
fresh_conn = record {
  txbuf = replicate con_data_tx_buf_size 0;
  tx_buf_length = 0;
  tx_buf_index = 0;
  priority = 0;
}

-- `kfree`.
abbrev pub free : (ℕ → Option Conn) → ℕ → ℕ → Option Conn
free conns p q = if q == p then none else conns q

-- The steps of a reset over a GPIO pin; the times are milliseconds.
pub data GpioOp : Type 0 where
  direction_output : ℕ → GpioOp
  set_value : ℕ → GpioOp
  direction_input : GpioOp
  sleep : ℕ → GpioOp

abbrev pub reset_pulse : List GpioOp
reset_pulse =
    direction_output 0
    ∷ set_value 0
    ∷ sleep 50
    ∷ set_value 1
    ∷ sleep 50
    ∷ direction_input
    ∷ sleep 50
    ∷ []

module _ {D : Type 0} (drv : RawUartDriver D) where
  -- The first connection: the hardware is started, and the receive buffer emptied.
  started : Instance D → Option Errno × D → Ret × Instance D
  started s (some e, hw') = (err e, record s { hw = hw' })
  started s (none, hw') = (
    ok 0,
    record s {
      hw = hw';
      rxbuf = record (s.rxbuf) { head = 0; tail = 0 };
      open_count = s.open_count + 1;
    },
  )

  -- The part of `open` under the semaphore, up to the allocation.
  open_locked : Instance D → Ret × Instance D
  unfolding started
  open_locked s =
      if leb max_connections s.open_count
      then (err emfile, s)
      else if not s.connection_state
      then (err enodev, s)
      else if not (s.open_count == 0)
      then (ok 0, record s { open_count = s.open_count + 1 })
      else started s (drv.start_connection s.hw)

  allocate : ℕ → Ret × Instance D → Ret × Instance D
  allocate p (ok n, s) = (ok n, record s { conns = store s.conns p fresh_conn })
  allocate p (err e, s) = (err e, s)

  -- `generic_raw_uart_open`. `module_got` and `interrupted` are the outcomes of `try_module_get`
  -- and `down_interruptible`, and `p` is the address that `kmalloc` gives.
  unfoldable pub open_connection : Bool → Bool → ℕ → Instance D → Ret × Instance D
  unfolding open_locked allocate
  open_connection module_got interrupted p s =
      let held = record s { module_refs = s.module_refs + 1 } in
      if not module_got
      then (err enodev, s)
      else if interrupted
      then (err erestartsys, held)
      else allocate p (open_locked held)

  -- `generic_raw_uart_close`. The flags say whether the two `down_interruptible` fail.
  pub close_connection : Bool → Bool → ℕ → Instance D → Ret × Instance D
  close_connection conn_interrupted interrupted p s =
      let freed = record s { conns = free s.conns p } in
      let left = s.open_count - 1 in
      let closed = record freed {
        open_count = left;
        hw = if left == 0 then drv.stop_connection s.hw else s.hw;
        module_refs = s.module_refs - 1;
      } in
      if conn_interrupted
      then (err erestartsys, s)
      else if interrupted
      then (err erestartsys, freed)
      else (ok 0, closed)

  unfoldable pub driver_reset : Instance D → Option Errno × D → Ret × List GpioOp × Instance D
  driver_reset s (none, hw') = (ok 0, [], record s { hw = hw' })
  driver_reset s (some e, hw') = (err e, [], record s { hw = hw' })

  -- `generic_raw_uart_reset_radio_module`, with what it does to the reset pin.
  unfoldable pub reset_radio_module : Bool → ℕ → Instance D → Ret × List GpioOp × Instance D
  unfolding driver_reset
  reset_radio_module interrupted max_open_count s =
      if interrupted
      then (err erestartsys, [], s)
      else if ltb max_open_count s.open_count
      then (err ebusy, [], s)
      else elim drv.reset_radio_module [
        | none ↦ if s.reset_pin == 0 then (err enosys, [], s) else (ok 0, reset_pulse, s)
        | some reset ↦ driver_reset s (reset s.hw)
      ]

-- `POLLOUT | POLLWRNORM` and `POLLIN | POLLRDNORM`.
pub record PollMask : Type 0 where
  pub writable : Bool
  pub readable : Bool

-- `generic_raw_uart_poll` for the connection at `p`; `none` is a fault.
module _ {D : Type 0} where
  pub poll : CircMacros → ℕ → Instance D → Option PollMask
  poll circ p s =
      let readable' = ltb 0 (circ.circ_cnt s.rxbuf.head s.rxbuf.tail circbuf_size) in
      elim s.tx_connection [
        | none ↦ some (record { writable = true; readable = readable' })
        | some q ↦ elim (s.conns q) [
          | none ↦ none
          | some other ↦ elim (s.conns p) [
            | none ↦ none
            | some own ↦
                some (record { writable = ltb other.priority own.priority; readable = readable' })
          ]
        ]
      ]
