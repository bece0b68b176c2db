-- ===== src/RawUart/Tx/Queued.antt =====
-- `generic_raw_uart_tx_queued_unlocked`, `generic_raw_uart_acquire_sender` and
-- `generic_raw_uart_write` of kernel/generic_raw_uart.c, on top of the transmit loop.
use pi_vccu.Prelude.{
  ℕ, ◌+◌, ◌-◌, min, ◌≤◌, ◌<◌, ◌≡◌, refl, ◌∙◌, List, ◌++◌, none, some, true, false, length, leb,
  le→leb, lt→leb, if◌then◌else◌, ◌⊎◌, arith,
}
use native.Mathlib.Decide.{dec_le}
use pi_vccu.Prelude.Buffers.{slice}
use pi_vccu.RawUart.{RawUartDriver, Conn, Instance, con_data_tx_buf_size}
use pi_vccu.RawUart.Tx.{tx_finish, tx_queued_unlocked}
use pi_vccu.RawUart.Tx.Loop.{IsLine, Sent, tx_loop-Sent}

module _ {D : Type 0} (drv : RawUartDriver D) (p : ℕ) where
  tx_finish_step :
      (t : Instance D) (c : Conn)
      → t.tx_connection ≡ some p
      → t.conns p ≡ some c
      → tx_finish drv t ≡ (
          if leb c.tx_buf_length c.tx_buf_index
          then some (record t { hw = drv.stop_tx t.hw; tx_connection = none })
          else some t)
  unfolding tx_finish
  tx_finish_step t c e f = ground arith

  -- What one call has done for the connection `c` that holds the transmitter.
  pub record Transmitted (line : D → List ℕ) (c : Conn) (s t : Instance D) : Type 0 where
    pub index : ℕ
    pub stands : t.conns p ≡ some (record c { tx_buf_index = index })
    pub onward : c.tx_buf_index ≤ index
    pub within : index ≤ c.tx_buf_length
    pub bytes : line t.hw ≡ line s.hw ++ slice c.txbuf c.tx_buf_index (index - c.tx_buf_index)
    pub released : index ≡ c.tx_buf_length → t.tx_connection ≡ none
    pub kept :
        index < c.tx_buf_length
        → (t.tx_connection ≡ some p)
          × ((drv.isready_for_tx t.hw ≡ false) ⊎ (drv.tx_chunk_size ≤ index - c.tx_buf_index))
    pub progress :
        0 < drv.tx_chunk_size
        → drv.isready_for_tx s.hw ≡ true
        → c.tx_buf_index + min drv.tx_bulktransfer_size (c.tx_buf_length - c.tx_buf_index) ≤ index

  module _ (line : D → List ℕ) (Good : D → Type 0) (l : IsLine drv line Good)
      (bulk : 0 < drv.tx_bulktransfer_size) where
    finished :
        (c : Conn) (s t : Instance D)
        → Sent drv p line Good 0 c s t
        → (u : Instance D) × (tx_finish drv t ≡ some u) × Transmitted line c s u × Good u.hw
    finished c s t r = elim (dec_le c.tx_buf_length r.index) [
      | yes h ↦ (
        record t { hw = drv.stop_tx t.hw; tx_connection = none },
        tx_finish_step t _ r.holder r.stands ∙ rw (le→leb c.tx_buf_length r.index h),
        record {
          index = r.index;
          stands = r.stands;
          onward = r.onward;
          within = r.within;
          bytes = (l.stop t.hw r.good).0 ∙ r.bytes;
          released = λ e. refl;
          kept = λ lt. absurd (omega arith);
          progress = r.progress;
        },
        (l.stop t.hw r.good).1,
      )
      | no h ↦ (
        t,
        tx_finish_step t _ r.holder r.stands ∙ rw (lt→leb r.index c.tx_buf_length (omega arith)),
        record {
          index = r.index;
          stands = r.stands;
          onward = r.onward;
          within = r.within;
          bytes = r.bytes;
          released = λ e. absurd (omega arith);
          kept = λ lt. (r.holder, ground (arith, r.stops));
          progress = r.progress;
        },
        r.good,
      )
    ]

    -- Over a driver with bulks of a byte at least, which puts a bulk on its line when it is ready
    -- in a good state, and with the driver in a good state: a call for the connection that holds
    -- the transmitter, whose index is within its length and its length within its buffer and 4096,
    -- ends and touches no freed memory. It puts the next bytes of the buffer on the line, in order
    -- and without a gap, and leaves the driver in a good state; where the driver is ready at first
    -- and its chunks are not empty, these are a bulk at least, or all that is left. It gives the
    -- transmitter up when the buffer is sent, and stops short of that only where the driver is not
    -- ready or a whole chunk was sent.
    pub tx_queued_unlocked-Transmitted :
        (s : Instance D) (c : Conn)
        → Good s.hw
        → s.tx_connection ≡ some p
        → s.conns p ≡ some c
        → c.tx_buf_index ≤ c.tx_buf_length
        → c.tx_buf_length ≤ con_data_tx_buf_size
        → c.tx_buf_length ≤ length c.txbuf
        → (t : Instance D) × (tx_queued_unlocked drv s ≡ some t)
          × Transmitted line c s t
          × Good t.hw
    unfolding tx_queued_unlocked
    tx_queued_unlocked-Transmitted s c good e f h g inside =
        let (t, run, r) =
          tx_loop-Sent drv p line Good l bulk con_data_tx_buf_size 0 s c e f h (omega arith) inside
            good in
        let (u, fin, q, still) = finished c s t r in (u, rw run fin, q, still)
