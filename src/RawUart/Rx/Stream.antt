-- ===== src/RawUart/Rx/Stream.antt =====
-- The receiving side of kernel/generic_raw_uart.c as a whole, against the queue of pending bytes.
use pi_vccu.Prelude.{
  ℕ, ◌^◌, ◌≤◌, ◌<◌, ◌≡◌, refl, sym, ap, ◌∙◌, List, [], ◌++◌, Bool, true, false, if◌then◌else◌,
  length, length-set, All, inl, inr, Bool-cases, arith, ◌⊎◌, eq_nil_of_length,
}
use mathlib.Core.Path.{subst₃}
use pi_vccu.Kernel.{CircMacros, ok, err, eagain}
use pi_vccu.Kernel.Wait.{
  Wake, WakeHas, Waited, WaitedHas, ready, failed, asleep, wait_loop, wait_loop-has,
  wait_loop-ready, wait_loop_at_once, wait_loop_nonblock,
}
use pi_vccu.Ring.{contents, IsRing, circ_cnt-eq_used}
use pi_vccu.Ring.Queue.{length-contents}
use pi_vccu.RawUart.{Instance, circbuf_size, add_int}
use pi_vccu.RawUart.Rx.{
  read_copy, has_data, has_flag, rx_state_break, count_errors, dump_rx_char, handle_rx_char,
  returns, read_ready, read_waited, read,
}
use pi_vccu.RawUart.Rx.Queue.{enqueue, rx_store_lem, read_copy-Copied}

module _ {D : Type 0} where
  -- The receive buffer is well formed, and the dump buffer is indexed inside its 32 bytes.
  pub record IsRxValid (s : Instance D) : Type 0 where
    pub ring : IsRing circbuf_size s.rxbuf
    pub dump_pos : s.dump_rxbuf_pos < 32
    pub dump_size : length s.dump_rxbuf ≡ 32

  -- The bytes that wait for a reader.
  abbrev pub pending : Instance D → List ℕ
  pending s = contents circbuf_size s.rxbuf

  -- The dump buffer is indexed inside its 32 bytes, also after the last place was filled.
  dump_stays_inside :
      (flags x : ℕ) (s : Instance D)
      → s.dump_rxbuf_pos < 32
      → length s.dump_rxbuf ≡ 32
      → ((dump_rx_char x (count_errors flags s)).dump_rxbuf_pos < 32)
        × (length (dump_rx_char x (count_errors flags s)).dump_rxbuf ≡ 32)
  unfolding dump_rx_char count_errors
  dump_stays_inside flags x s h g =
      (ground arith, ground (arith, length-set s.dump_rxbuf s.dump_rxbuf_pos x))

module _ (circ : CircMacros) {D : Type 0} (s : Instance D) (v : IsRxValid s) where
  -- A received character appends itself to the pending bytes, where there is room for it and it is
  -- no break condition, and otherwise leaves them alone; the state stays valid.
  pub handle_rx_char_lem :
      (flags x : ℕ)
      → (pending (handle_rx_char circ flags x s)
          ≡ (if has_flag flags rx_state_break then pending s else enqueue (pending s) x))
        × IsRxValid (handle_rx_char circ flags x s)
  unfolding handle_rx_char
  handle_rx_char_lem flags x =
      let (q, r) = rx_store_lem circ s.rxbuf v.ring x in
      let (p, d) =
        dump_stays_inside flags x (record s { count_rx = add_int s.count_rx 1 }) v.dump_pos
          v.dump_size in
      elim (Bool-cases (has_flag flags rx_state_break)) [
        | inl e ↦
            rw e (refl, record { ring = v.ring; dump_pos = v.dump_pos; dump_size = v.dump_size })
        | inr e ↦ rw e (q, record { ring = r; dump_pos = p; dump_size = d })
      ]

-- What a read that returned `n` has done, seen from the state `t` on which its wait ended.
pub record Delivered {D : Type 0} (count n : ℕ) (bytes : List ℕ) (t s' : Instance D) : Type 0 where
  pub counted : n ≡ length bytes
  pub in_order : pending t ≡ bytes ++ pending s'
  pub at_most : n ≤ count
  pub progress : 0 < count → 0 < n
  pub valid : IsRxValid s'

module _ (circ : CircMacros) {D : Type 0} where
  pending-has_data :
      (s : Instance D) → IsRxValid s → has_data circ s.rxbuf ≡ true → 0 < length (pending s)
  pending-has_data s v h =
      let e = circ_cnt-eq_used circ 10 s.rxbuf.head s.rxbuf.tail v.ring.head_in v.ring.tail_in in
      rw (length-contents 1024 s.rxbuf v.ring) (ground (arith, e))

  nothing_pending : (s : Instance D) → IsRxValid s → has_data circ s.rxbuf ≡ false → pending s ≡ []
  nothing_pending s v h =
      let e = circ_cnt-eq_used circ 10 s.rxbuf.head s.rxbuf.tail v.ring.head_in v.ring.tail_in in
      eq_nil_of_length (pending s) (rw (length-contents 1024 s.rxbuf v.ring) (ground (arith, e)))

  read_ready-Delivered :
      (count : ℕ) (s : Instance D)
      → IsRxValid s
      → count < 2 ^ 31
      → has_data circ s.rxbuf ≡ true
      → (n : ℕ) × (bytes : List ℕ) × (s' : Instance D) × (read_ready circ false count s
          ≡ returns (ok n) bytes s')
        × Delivered count n bytes s s'
  unfolding read_ready
  read_ready-Delivered count s v h d =
      let (ret, bytes, r) = read_copy circ false count s.rxbuf in
      let c = read_copy-Copied circ s.rxbuf v.ring count h in
      let s' = record s { rxbuf = r } in
      (
        length bytes,
        bytes,
        s',
        ap (λ t. returns t bytes s') c.returned,
        record {
          counted = refl;
          in_order = c.oldest;
          at_most = c.at_most;
          progress = λ p. c.some_byte p (pending-has_data s v d);
          valid = record { ring = c.valid; dump_pos = v.dump_pos; dump_size = v.dump_size };
        },
      )

  -- A successful result of the part behind the wait.
  read_waited-ok :
      (copy_fails : Bool) (count n : ℕ) (bytes : List ℕ) (s' : Instance D) (w : Waited (Instance D))
      → count < 2 ^ 31
      → WaitedHas IsRxValid w
      → ((t : Instance D) → w ≡ ready t → has_data circ t.rxbuf ≡ true)
      → read_waited circ copy_fails count w ≡ returns (ok n) bytes s'
      → (t : Instance D) × (w ≡ ready t) × Delivered count n bytes t s'
  unfolding read_waited
  read_waited-ok true count n bytes s' (ready t) h v d e = unfold read_ready read_copy in cc
  read_waited-ok false count n bytes s' (ready t) h v d e =
      let (m, out, t', f, g) = read_ready-Delivered count t v h (d t refl) in
      let same : returns (ok m) out t' ≡ returns (ok n) bytes s' = sym f ∙ e in
      (t, refl, subst₃ (λ a b c. Delivered count a b t c) (cc same) (cc same) (cc same) g)
  read_waited-ok copy_fails count n bytes s' (failed x t) h v d e = cc
  read_waited-ok copy_fails count n bytes s' (asleep t) h v d e = cc

  -- A read with a `count` below 2 ^ 31, in a valid state, that succeeds while other threads keep
  -- the state valid, has left its wait ready on the state that its wake-ups determine. It hands
  -- over the oldest bytes that are pending in that state, as many as it returns, at most `count`
  -- and at least one if `count` is not 0; it leaves the others pending, and the state valid.
  pub read-Delivered :
      (interrupted nonblock : Bool) (wakes : List (Wake (Instance D))) (copy_fails : Bool)
      (count n : ℕ) (bytes : List ℕ) (s s' : Instance D)
      → IsRxValid s
      → All (WakeHas IsRxValid) wakes
      → count < 2 ^ 31
      → read circ interrupted nonblock wakes copy_fails count s ≡ returns (ok n) bytes s'
      → (t : Instance D) × (wait_loop (λ (u : Instance D). has_data circ u.rxbuf) nonblock wakes s
          ≡ ready t)
        × Delivered count n bytes t s'
  unfolding read
  read-Delivered true nonblock wakes copy_fails count n bytes s s' v all h e = cc
  read-Delivered false nonblock wakes copy_fails count n bytes s s' v all h e =
      let test = λ (t : Instance D). has_data circ t.rxbuf in
      read_waited-ok copy_fails count n bytes s' (wait_loop test nonblock wakes s) h
        (wait_loop-has IsRxValid test nonblock wakes s v all)
        (wait_loop-ready test nonblock wakes s) e

  -- A read that must not sleep answers at once: with -EAGAIN and the state as it was where nothing
  -- is pending, and otherwise with the oldest bytes.
  pub read_nonblock :
      (wakes : List (Wake (Instance D))) (count : ℕ) (s : Instance D)
      → IsRxValid s
      → count < 2 ^ 31
      → ((pending s ≡ []) × (read circ false true wakes false count s ≡ returns (err eagain) [] s))
        ⊎ ((n : ℕ) × (bytes : List ℕ) × (s' : Instance D) × (read circ false true wakes false count
                s
              ≡ returns (ok n) bytes s')
            × Delivered count n bytes s s')
  unfolding read
  read_nonblock wakes count s v h =
      let test = λ (t : Instance D). has_data circ t.rxbuf in
      elim (Bool-cases (has_data circ s.rxbuf)) [
        | inl d ↦
            inr (rw (wait_loop_at_once test true wakes s d) (read_ready-Delivered count s v h d))
        | inr d ↦ inl (nothing_pending s v d, rw (wait_loop_nonblock test true wakes s d refl))
      ]
