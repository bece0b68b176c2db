-- ===== src/RawUart/Tx.antt =====
-- Sending in kernel/generic_raw_uart.c: `generic_raw_uart_tx_queued_unlocked`,
-- `generic_raw_uart_acquire_sender`, `generic_raw_uart_send_completed` and `generic_raw_uart_write`.
pub mod Loop
pub mod Queued
pub mod Keeps
pub mod Acquire
use mathlib.Core.Option
use pi_vccu.Prelude.{
  ℕ, zero, suc, ◌+◌, ◌-◌, min, List, [], ◌∷◌, Option, none, some, Bool, true, false, not, ◌&&◌,
  ◌||◌, ltb, leb, ◌==◌, if◌then◌else◌, length,
}
use pi_vccu.Prelude.Buffers.{overwrite}
use pi_vccu.Kernel.{Ret, ok, err, erestartsys, efault, emsgsize}
use pi_vccu.RawUart.{RawUartDriver, Conn, Instance, add_int, con_data_tx_buf_size}

-- A store through the address `p`.
abbrev pub store : (ℕ → Option Conn) → ℕ → Conn → ℕ → Option Conn
store conns p c q = if q == p then some c else conns q

-- The copy from the user in `write`: the bytes, or it fails and leaves this in the buffer.
pub data CopyIn : Type 0 where
  copied : List ℕ → CopyIn
  faulted : List ℕ → CopyIn

-- One sleep in `wait_event_interruptible`, with the state that the other threads have left.
pub data TxWake (D : Type 0) : Type 0 where
  tx_signalled : Instance D → TxWake D
  tx_woken : Instance D → TxWake D

-- What a `write` comes to. A fault is an access through a pointer to freed memory.
pub data Write (D : Type 0) : Type 0 where
  wrote : Ret → Instance D → Write D
  write_sleeps : Instance D → Write D
  write_faults : Write D

module _ {D : Type 0} where
  -- `generic_raw_uart_send_completed`.
  unfoldable pub send_completed : ℕ → Instance D → Bool
  send_completed p s = elim s.tx_connection [ none ↦ true | some q ↦ not (q == p) ]

  -- The end of `write`: the number of bytes that were sent.
  unfoldable pub write_result : ℕ → Instance D → Write D
  write_result p s = elim (s.conns p) [ none ↦ write_faults | some c ↦ wrote (ok c.tx_buf_index) s ]

  unfoldable pub wait_completed : ℕ → List (TxWake D) → Instance D → Write D
  unfolding send_completed write_result
  wait_completed p [] s = if send_completed p s then write_result p s else write_sleeps s
  wait_completed p (tx_signalled t ∷ wakes) s =
      if send_completed p s then write_result p s else wrote (err erestartsys) t
  wait_completed p (tx_woken t ∷ wakes) s =
      let rest = wait_completed p wakes t in if send_completed p s then write_result p s else rest

module _ {D : Type 0} (drv : RawUartDriver D) where
  -- One round of the loop: `bulksize` bytes go to the driver.
  unfoldable pub send_bulk : ℕ → Conn → Instance D → Instance D
  send_bulk p c s =
      let n = min drv.tx_bulktransfer_size (c.tx_buf_length - c.tx_buf_index) in
      record s {
        hw = drv.tx_chars s.hw c.txbuf c.tx_buf_index n;
        conns = store s.conns p (record c { tx_buf_index = c.tx_buf_index + n });
        count_tx = add_int s.count_tx n;
      }

  -- The loop, from `tx_count` on; `none` is a fault.
  unfoldable pub tx_loop : ℕ → ℕ → Instance D → Option (Instance D)
  unfolding send_bulk
  tx_loop zero count s = some s
  tx_loop (suc fuel) count s = elim s.tx_connection [
    | none ↦ some s
    | some p ↦ elim (s.conns p) [
      | none ↦ if ltb count drv.tx_chunk_size && drv.isready_for_tx s.hw then none else some s
      | some c ↦
          let n = min drv.tx_bulktransfer_size (c.tx_buf_length - c.tx_buf_index) in
          let rest = tx_loop fuel (count + n) (send_bulk p c s) in
          if ltb count drv.tx_chunk_size
            && drv.isready_for_tx s.hw
            && ltb c.tx_buf_index c.tx_buf_length
          then rest
          else some s
    ]
  ]

  -- Behind the loop: a connection whose buffer is sent gives the transmitter up.
  unfoldable pub tx_finish : Instance D → Option (Instance D)
  tx_finish s = elim s.tx_connection [
    | none ↦ some s
    | some p ↦ elim (s.conns p) [
      | none ↦ none
      | some c ↦
          if leb c.tx_buf_length c.tx_buf_index
          then some (record s { hw = drv.stop_tx s.hw; tx_connection = none })
          else some s
    ]
  ]

  -- `generic_raw_uart_tx_queued_unlocked`. A round sends a byte at least, so there are no more
  -- rounds than the buffer has bytes. (`generic_raw_uart_tx_queued` is the same under the lock.)
  unfoldable pub tx_queued_unlocked : Instance D → Option (Instance D)
  unfolding tx_loop tx_finish Option.bind
  tx_queued_unlocked s = Option.bind (tx_loop con_data_tx_buf_size 0 s) tx_finish

  -- The two ways to take the transmitter.
  unfoldable pub acquire_idle : ℕ → Instance D → Option (Bool × Instance D)
  unfolding tx_queued_unlocked
  acquire_idle p s =
      Option.map (λ t. (true, t))
        (tx_queued_unlocked (record s { tx_connection = some p; hw = drv.init_tx s.hw }))

  -- `generic_raw_uart_acquire_sender` of the connection at `p`; `none` is a fault.
  unfoldable pub acquire_sender : ℕ → Instance D → Option (Bool × Instance D)
  unfolding acquire_idle
  acquire_sender p s = elim s.tx_connection [
    | none ↦ acquire_idle p s
    | some q ↦ elim (s.conns q) [
      | none ↦ none
      | some other ↦ elim (s.conns p) [
        | none ↦ none
        | some own ↦
            if ltb other.priority own.priority
            then some (true, record s { tx_connection = some p })
            else some (false, s)
      ]
    ]
  ]

  -- `wait_event_interruptible` on `acquire_sender`, and then on `send_completed`, which takes the
  -- second list of wake-ups.
  pub wait_acquire : ℕ → List (TxWake D) → List (TxWake D) → Instance D → Write D
  unfolding acquire_sender wait_completed
  wait_acquire p [] later s = elim (acquire_sender p s) [
    | none ↦ write_faults
    | some (got, t) ↦ if got then wait_completed p later t else write_sleeps t
  ]
  wait_acquire p (tx_signalled u ∷ wakes) later s = elim (acquire_sender p s) [
    | none ↦ write_faults
    | some (got, t) ↦ if got then wait_completed p later t else wrote (err erestartsys) u
  ]
  wait_acquire p (tx_woken u ∷ wakes) later s =
      let rest = wait_acquire p wakes later u in
      elim (acquire_sender p s) [
        | none ↦ write_faults
        | some (got, t) ↦ if got then wait_completed p later t else rest
      ]

  -- `generic_raw_uart_write` of `count` bytes by the connection at `p`. `interrupted` says whether
  -- `down_interruptible` fails.
  pub write : Bool → CopyIn → List (TxWake D) → List (TxWake D) → ℕ → ℕ → Instance D → Write D
  unfolding wait_acquire
  write interrupted copy wakes later count p s = elim (s.conns p) [
    | none ↦ write_faults
    | some c ↦
        if interrupted
        then wrote (err erestartsys) s
        else if ltb con_data_tx_buf_size count
        then wrote (err emsgsize) s
        else elim copy [
          | faulted left ↦
              wrote (err efault) (record s { conns = store s.conns p (record c { txbuf = left }) })
          | copied bytes ↦
              let c' = record c {
                txbuf = overwrite c.txbuf 0 bytes;
                tx_buf_index = 0;
                tx_buf_length = count;
              } in
              wait_acquire p wakes later (record s { conns = store s.conns p c' })
        ]
  ]
