-- ===== src/RawUart/Rx/Queue.antt =====
-- The stores and copies at the receive buffer of kernel/generic_raw_uart.c, against a queue.
use pi_vccu.Prelude.{
  ℕ, ◌+◌, ◌-◌, ◌^◌, ◌≤◌, ◌<◌, min, ◌≡◌, refl, sym, ap, ◌∙◌, List, [], ◌∷◌, ◌++◌, true, false, ltb,
  leb, lt→ltb, ge→ltb, ◌==◌, if◌then◌else◌, length, set, arith,
}
use native.Mathlib.Decide.{dec_lt}
use pi_vccu.Prelude.Buffers.{slice, length-slice}
use pi_vccu.Kernel.{CircMacros, Ret, ok, min_int_lem}
use pi_vccu.Ring.{CircBuf, used, wrap, contents, IsRing, circ_cnt-eq_used, circ_space-eq_used}
use pi_vccu.Ring.Queue.{
  length-contents, contents-advance, contents-push, IsRing-advance, IsRing-push,
}
use pi_vccu.RawUart.{circbuf_size}
use pi_vccu.RawUart.Rx.{rx_store, read_copy}

abbrev pub queue_limit : ℕ
queue_limit = 1023

-- A queue that drops what finds no room.
unfoldable pub enqueue : List ℕ → ℕ → List ℕ
enqueue q x = if ltb (length q) queue_limit then q ++ (x ∷ []) else q

module _ (circ : CircMacros) (r : CircBuf ℕ) (v : IsRing circbuf_size r) where
  space : circ.circ_space r.head r.tail 1024 ≡ 1023 - used 1024 r.head r.tail
  space = circ_space-eq_used circ 10 r.head r.tail v.head_in v.tail_in

  rx_store_room :
      (x : ℕ)
      → used 1024 r.head r.tail < 1023
      → rx_store circ x r ≡ record r { buf = set r.buf r.head x; head = wrap 1024 (r.head + 1) }
  unfolding rx_store
  rx_store_room x h =
      let room : (circ.circ_space r.head r.tail 1024 == 0) ≡ false = ground (arith, space) in
      let next : (if leb 1024 (r.head + 1) then 0 else r.head + 1) ≡ wrap 1024 (r.head + 1) =
        ground (arith, v.head_in) in
      rw (room, next)

  rx_store_full : (x : ℕ) → 1023 ≤ used 1024 r.head r.tail → rx_store circ x r ≡ r
  unfolding rx_store
  rx_store_full x h =
      let full : (circ.circ_space r.head r.tail 1024 == 0) ≡ true = ground (arith, space) in rw full

  -- Storing a character appends it to the queue, or drops it where the queue is full, and keeps
  -- the buffer well formed.
  pub rx_store_lem :
      (x : ℕ)
      → (contents circbuf_size (rx_store circ x r) ≡ enqueue (contents circbuf_size r) x)
        × IsRing circbuf_size (rx_store circ x r)
  unfolding enqueue
  rx_store_lem x = elim (dec_lt (used 1024 r.head r.tail) 1023) [
    | yes room ↦
        rw (rx_store_room x room, length-contents 1024 r v, lt→ltb _ _ room)
          (contents-push 1024 r v x (omega arith), IsRing-push 1024 r v x)
    | no full ↦
        rw
          (
            rx_store_full x (omega arith),
            length-contents 1024 r v,
            ge→ltb (used 1024 r.head r.tail) 1023 (omega arith),
          )
          (refl, v)
  ]

  -- What a successful copy of at most `count` bytes has done: it returns the number of bytes that
  -- it hands over, these are the oldest ones, and it hands over one at least if it can.
  pub record Copied (count : ℕ) (out : Ret × List ℕ × CircBuf ℕ) : Type 0 where
    pub returned : out.0 ≡ ok (length out.1)
    pub oldest : contents circbuf_size r ≡ out.1 ++ contents circbuf_size out.2
    pub at_most : length out.1 ≤ count
    pub some_byte : 0 < count → 0 < length (contents circbuf_size r) → 0 < length out.1
    pub valid : IsRing circbuf_size out.2

  copied :
      (count n : ℕ)
      → n ≤ used 1024 r.head r.tail
      → r.tail + n ≤ 1024
      → n ≤ count
      → (0 < count → 0 < used 1024 r.head r.tail → 0 < n)
      → Copied count (
        ok n,
        slice r.buf r.tail n,
        record r { tail = if leb 1024 (r.tail + n) then r.tail + n - 1024 else r.tail + n },
      )
  copied count n h g le pos =
      let moved : (if leb 1024 (r.tail + n) then r.tail + n - 1024 else r.tail + n)
          ≡ wrap 1024 (r.tail + n) =
        ground arith in
      let whole : length (slice r.buf r.tail n) ≡ n =
        length-slice r.buf r.tail n (omega (arith, v.array)) in
      rw moved (record {
        returned = ap ok (sym whole);
        oldest = contents-advance 1024 r v n h g;
        at_most = omega (arith, whole);
        some_byte = λ p q. rw whole (pos p (rw (length-contents 1024 r v) at q));
        valid = IsRing-advance 1024 r v n g;
      })

  -- `read` copies the oldest bytes, `count` of them or those up to the end of the array.
  pub read_copy-Copied : (count : ℕ) → count < 2 ^ 31 → Copied count (read_copy circ false count r)
  unfolding read_copy
  read_copy-Copied count h =
      let limit = circ.circ_cnt_to_end r.head r.tail 1024 in
      let e : limit ≡ min (used 1024 r.head r.tail) (1024 - r.tail) =
        circ.circ_cnt_to_end_lem 10 r.head r.tail v.head_in v.tail_in
        ∙ ap (λ t. min t (1024 - r.tail))
            (circ_cnt-eq_used circ 10 r.head r.tail v.head_in v.tail_in) in
      rw (min_int_lem count limit h) (
        copied count (min count limit) (omega (arith, e)) (omega (arith, e, v.tail_in))
          (omega arith) (λ p q. omega (arith, e, v.tail_in)))
