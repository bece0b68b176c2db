-- ===== src/RawUart/Tx/Keeps.antt =====
-- What a run of the transmitter of kernel/generic_raw_uart.c keeps of its driver's state.
use pi_vccu.Prelude.{
  ℕ, zero, suc, ◌+◌, ◌-◌, ◌≤◌, ◌≡◌, sym, subst, ◌∙◌, List, [], ◌∷◌, none, some, Bool, true, min,
  ltb, leb, ◌&&◌, length, inl, inr, Bool-cases, Option-cases, arith,
}
use mathlib.Core.Option
use pi_vccu.Prelude.Buffers.{slice}
use pi_vccu.RawUart.{RawUartDriver, Instance, con_data_tx_buf_size}
use pi_vccu.RawUart.Tx.Loop.{tx_loop_step}
use pi_vccu.RawUart.Tx.{send_bulk, tx_loop, tx_finish, tx_queued_unlocked}

ready : (a b c : Bool) → (a && b && c) ≡ true → b ≡ true
ready a b c h = ground arith

-- A slice has no more elements than were asked for.
pub length-slice_most : (xs : List ℕ) (o n : ℕ) → length (slice xs o n) ≤ n
length-slice_most [] zero zero = omega arith
length-slice_most [] zero (suc n) = omega arith
length-slice_most [] (suc o) n = omega arith
length-slice_most (x ∷ xs) zero zero = omega arith
length-slice_most (x ∷ xs) zero (suc n) = omega (arith, length-slice_most xs zero n)
length-slice_most (x ∷ xs) (suc o) n = length-slice_most xs o n

-- What the transmitter keeps, where each call of the driver keeps it that gets a bulk at most
-- and comes when the driver is ready.
module _ {D : Type 0} (drv : RawUartDriver D) (P : D → Type 0)
    (chars : (d : D) (chr : List ℕ) (i n : ℕ)
      → n ≤ drv.tx_bulktransfer_size
      → drv.isready_for_tx d ≡ true
      → P d
      → P (drv.tx_chars d chr i n))
    (stop : (d : D) → P d → P (drv.stop_tx d)) where
  -- A run of no round, and of one round more.
  unchanged : (s t : Instance D) → s ≡ t → P s.hw → P t.hw
  unchanged s t e = subst (λ (x : Instance D). P x.hw) e

  tx_loop_keeps :
      (fuel count : ℕ) (s t : Instance D) → P s.hw → tx_loop drv fuel count s ≡ some t → P t.hw
  unfolding tx_loop send_bulk
  tx_loop_keeps zero count s t h e = unchanged s t (ground arith) h
  tx_loop_keeps (suc fuel) count s t h e = elim (Option-cases s.tx_connection) [
    | inl e1 ↦ unchanged s t (ground arith) h
    | inr (p, e1) ↦ elim (Option-cases (s.conns p)) [
      | inl e2 ↦ unchanged s t (ground arith) h
      | inr (c, e2) ↦
          elim (Bool-cases (
            ltb count drv.tx_chunk_size
            && drv.isready_for_tx s.hw
            && ltb c.tx_buf_index c.tx_buf_length)) [
              | inl go ↦
                  let n = min drv.tx_bulktransfer_size (c.tx_buf_length - c.tx_buf_index) in
                  tx_loop_keeps fuel (count + n) (send_bulk drv p c s) t
                    (chars s.hw c.txbuf c.tx_buf_index n (omega arith) (ready _ _ _ go) h)
                    (sym (tx_loop_step drv p fuel count s c e1 e2 ∙ rw go) ∙ e)
              | inr halt ↦ unchanged s t (ground arith) h
            ]
    ]
  ]

  tx_finish_keeps : (s t : Instance D) → P s.hw → tx_finish drv s ≡ some t → P t.hw
  unfolding tx_finish
  tx_finish_keeps s t h e = elim (Option-cases s.tx_connection) [
    | inl e1 ↦ unchanged s t (ground arith) h
    | inr (p, e1) ↦ elim (Option-cases (s.conns p)) [
      | inl e2 ↦ absurd (ground arith)
      | inr (c, e2) ↦ elim (Bool-cases (leb c.tx_buf_length c.tx_buf_index)) [
        | inl done ↦
            unchanged (record s { hw = drv.stop_tx s.hw; tx_connection = none }) t (ground arith)
              (stop s.hw h)
        | inr more ↦ unchanged s t (ground arith) h
      ]
    ]
  ]

  pub tx_queued_unlocked_keeps :
      (s t : Instance D) → P s.hw → tx_queued_unlocked drv s ≡ some t → P t.hw
  unfolding tx_queued_unlocked Option.bind
  tx_queued_unlocked_keeps s t h e = elim (Option-cases (tx_loop drv con_data_tx_buf_size 0 s)) [
    | inl fault ↦ absurd (ground arith)
    | inr (u, f) ↦ tx_finish_keeps u t (tx_loop_keeps con_data_tx_buf_size 0 s u h f) (ground arith)
  ]
