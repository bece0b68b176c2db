-- ===== src/RawUart/Tx/Loop.antt =====
-- The transmit loop of kernel/generic_raw_uart.c: what it hands to the driver, and where it stops.
use pi_vccu.Prelude.{
  ℕ, zero, suc, ◌+◌, ◌-◌, ◌≤◌, ◌<◌, min, ◌≡◌, refl, sym, ap, ◌∙◌, List, ◌++◌, length, Option, some,
  true, false, ◌&&◌, ltb, ==-refl, if◌then◌else◌, ◌⊎◌, inl, inr, Bool-cases, append-nil,
  append_assoc, arith,
}
use pi_vccu.Prelude.Buffers.{slice, slice-add, slice-zero}
use pi_vccu.RawUart.{RawUartDriver, Conn, Instance}
use pi_vccu.RawUart.Tx.{store, send_bulk, tx_loop}

-- What a driver does with a bulk that it is given in a good state in which it is ready: it puts the
-- bulk on its line, and stays good. `line` is what it has put there, and a bulk lies inside its
-- buffer.
pub record IsLine {D : Type 0} (drv : RawUartDriver D) (line : D → List ℕ) (Good : D → Type 0)
    : Type 0 where
  pub chars :
      (d : D) (chr : List ℕ) (i n : ℕ)
      → Good d
      → drv.isready_for_tx d ≡ true
      → 0 < n
      → n ≤ drv.tx_bulktransfer_size
      → i + n ≤ length chr
      → (line (drv.tx_chars d chr i n) ≡ line d ++ slice chr i n) × Good (drv.tx_chars d chr i n)
  pub init : (d : D) → Good d → (line (drv.init_tx d) ≡ line d) × Good (drv.init_tx d)
  pub stop : (d : D) → Good d → (line (drv.stop_tx d) ≡ line d) × Good (drv.stop_tx d)

-- A store is read back.
pub store_self : (p : ℕ) (conns : ℕ → Option Conn) (c : Conn) → store conns p c p ≡ some c
store_self p conns c = rw ==-refl

module _ {D : Type 0} (drv : RawUartDriver D) (p : ℕ) where
  pub tx_loop_step :
      (fuel count : ℕ) (s : Instance D) (c : Conn)
      → s.tx_connection ≡ some p
      → s.conns p ≡ some c
      → tx_loop drv (suc fuel) count s ≡ (
          if ltb count drv.tx_chunk_size
            && drv.isready_for_tx s.hw
            && ltb c.tx_buf_index c.tx_buf_length
          then tx_loop drv fuel
              (count + min drv.tx_bulktransfer_size (c.tx_buf_length - c.tx_buf_index))
              (send_bulk drv p c s)
          else some s)
  unfolding tx_loop
  tx_loop_step fuel count s c e f = ground arith

  -- Why the loop stops at `index`, having sent `count` bytes before it started at `from`.
  abbrev pub Stops : ℕ → ℕ → ℕ → Conn → D → Type 0
  Stops count from index c d =
      (index ≡ c.tx_buf_length)
      ⊎ (drv.isready_for_tx d ≡ false)
      ⊎ (drv.tx_chunk_size ≤ count + (index - from))

  -- A run of the loop on the connection `c` that holds the transmitter: the bytes from its index up
  -- to a later one, at most its length, are on the line, in order, and it stands at that index.
  pub record Sent (line : D → List ℕ) (Good : D → Type 0) (count : ℕ) (c : Conn) (s t : Instance D)
      : Type 0 where
    pub index : ℕ
    pub holder : t.tx_connection ≡ some p
    pub stands : t.conns p ≡ some (record c { tx_buf_index = index })
    pub onward : c.tx_buf_index ≤ index
    pub within : index ≤ c.tx_buf_length
    pub bytes : line t.hw ≡ line s.hw ++ slice c.txbuf c.tx_buf_index (index - c.tx_buf_index)
    pub stops : Stops count c.tx_buf_index index c t.hw
    pub good : Good t.hw
    pub progress :
        count < drv.tx_chunk_size
        → drv.isready_for_tx s.hw ≡ true
        → c.tx_buf_index + min drv.tx_bulktransfer_size (c.tx_buf_length - c.tx_buf_index) ≤ index

  module _ (line : D → List ℕ) (Good : D → Type 0) (l : IsLine drv line Good)
      (bulk : 0 < drv.tx_bulktransfer_size) where
    stopped :
        (count : ℕ) (s : Instance D) (c : Conn)
        → s.tx_connection ≡ some p
        → s.conns p ≡ some c
        → c.tx_buf_index ≤ c.tx_buf_length
        → Good s.hw
        → Stops count c.tx_buf_index c.tx_buf_index c s.hw
        → Sent line Good count c s s
    stopped count s c e f h good why = record {
      index = c.tx_buf_index;
      holder = e;
      stands = f;
      onward = omega arith;
      within = h;
      bytes =
          let none_sent : c.tx_buf_index - c.tx_buf_index ≡ 0 = omega arith in
          rw (none_sent, slice-zero, append-nil);
      stops = why;
      good = good;
      progress = λ few ready. elim why [
        | inl e ↦ omega (arith, e)
        | inr (inl e) ↦ absurd (cc)
        | inr (inr e) ↦ absurd (omega (arith, e))
      ];
    }

    guard_fails :
        (count : ℕ) (s : Instance D) (c : Conn)
        → c.tx_buf_index ≤ c.tx_buf_length
        → (ltb count drv.tx_chunk_size
            && drv.isready_for_tx s.hw
            && ltb c.tx_buf_index c.tx_buf_length)
          ≡ false
        → Stops count c.tx_buf_index c.tx_buf_index c s.hw
    guard_fails count s c h e = ground arith

    guard_holds :
        (count : ℕ) (s : Instance D) (c : Conn)
        → (ltb count drv.tx_chunk_size
            && drv.isready_for_tx s.hw
            && ltb c.tx_buf_index c.tx_buf_length)
          ≡ true
        → (c.tx_buf_index < c.tx_buf_length) × (drv.isready_for_tx s.hw ≡ true)
    guard_holds count s c e = (ground arith, ground arith)

    -- A round of `n` bytes before a run of the loop is a run of the loop.
    joined :
        (count : ℕ) (s t : Instance D) (c : Conn)
        → let n = min drv.tx_bulktransfer_size (c.tx_buf_length - c.tx_buf_index) in
          line (drv.tx_chars s.hw c.txbuf c.tx_buf_index n)
            ≡ line s.hw ++ slice c.txbuf c.tx_buf_index n
          → Sent line Good
              (count + n)
              (record c { tx_buf_index = c.tx_buf_index + n })
              (send_bulk drv p c s)
              t
          → Sent line Good count c s t
    unfolding send_bulk
    joined count s t c bulk_out r = record {
      index = r.index;
      holder = r.holder;
      stands = r.stands;
      onward = omega (arith, r.onward);
      within = r.within;
      bytes =
          let n = min drv.tx_bulktransfer_size (c.tx_buf_length - c.tx_buf_index) in
          let later = slice c.txbuf (c.tx_buf_index + n) (r.index - (c.tx_buf_index + n)) in
          r.bytes
          ∙ ap (λ b. b ++ later) bulk_out
          ∙ append_assoc (line s.hw) (slice c.txbuf c.tx_buf_index n) later
          ∙ ap (λ b. line s.hw ++ b)
              (sym (
                slice-add c.txbuf c.tx_buf_index n (r.index - (c.tx_buf_index + n))
                  (r.index - c.tx_buf_index) (c.tx_buf_index + n) (omega (arith, r.onward)) refl));
      stops = elim r.stops [
        | inl e ↦ inl e
        | inr (inl e) ↦ inr (inl e)
        | inr (inr e) ↦ inr (inr (omega (arith, r.onward, e)))
      ];
      good = r.good;
      progress = λ few ready. r.onward;
    }

    pub tx_loop-Sent :
        (fuel count : ℕ) (s : Instance D) (c : Conn)
        → s.tx_connection ≡ some p
        → s.conns p ≡ some c
        → c.tx_buf_index ≤ c.tx_buf_length
        → c.tx_buf_length - c.tx_buf_index ≤ fuel
        → c.tx_buf_length ≤ length c.txbuf
        → Good s.hw
        → (t : Instance D) × (tx_loop drv fuel count s ≡ some t) × Sent line Good count c s t
    tx_loop-Sent zero count s c e f h g inside good =
        (s, unfold tx_loop in refl, stopped count s c e f h good (inl (omega arith)))
    tx_loop-Sent (suc fuel) count s c e f h g inside good =
        let guard =
          ltb count drv.tx_chunk_size
          && drv.isready_for_tx s.hw
          && ltb c.tx_buf_index c.tx_buf_length in
        elim (Bool-cases guard) [
          | inl go ↦
              let n = min drv.tx_bulktransfer_size (c.tx_buf_length - c.tx_buf_index) in
              let (more, ready) = guard_holds count s c go in
              let (out, good') =
                l.chars s.hw c.txbuf c.tx_buf_index n good ready (omega (arith, more)) (omega arith)
                  (omega (arith, more)) in
              let c' = record c { tx_buf_index = c.tx_buf_index + n } in
              let (t, run, r) =
                tx_loop-Sent fuel (count + n) (send_bulk drv p c s) c' (unfold send_bulk in e)
                  (unfold send_bulk in store_self p s.conns c') (omega (arith, more))
                  (omega (arith, more)) inside (unfold send_bulk in good') in
              (t, tx_loop_step fuel count s c e f ∙ rw go run, joined count s t c out r)
          | inr stop ↦ (
            s,
            tx_loop_step fuel count s c e f ∙ rw stop,
            stopped count s c e f h good (guard_fails count s c h stop),
          )
        ]
