-- ===== src/Ring/Queue.antt =====
-- A ring as a queue: moving the tail takes elements off its front, and writing at the head
-- appends elements to its end.
use pi_vccu.Prelude.{
  ℕ, ◌+◌, ◌-◌, ◌≤◌, ◌<◌, ◌≡◌, refl, ap, ap₂, sym, ◌∙◌, List, [], ◌∷◌, ◌++◌, append-nil,
  append_assoc, le→leb, lt→leb, lt→ltb, ge→ltb, length, length-append, set, arith,
}
use native.Mathlib.Decide.{dec_le, dec_lt}
use pi_vccu.Prelude.Buffers.{
  slice, overwrite, slice-add, slice-zero, length-slice, length-overwrite, slice-overwrite_self,
  slice-overwrite_before, slice-overwrite_after, set-eq-overwrite,
}
use pi_vccu.Ring.{CircBuf, used, wrap, contents, IsRing}

-- The two shapes of the contents: in one piece, and around the end of the array.
module _ {ℓ} {A : Type ℓ} (size : ℕ) (buf : List A) (head tail : ℕ) where
  straight :
      tail ≤ head
      → contents size (record { buf = buf; head = head; tail = tail })
        ≡ slice buf tail (head - tail)
  unfolding contents
  straight h = rw (le→leb tail head h)

  around :
      head < tail
      → contents size (record { buf = buf; head = head; tail = tail })
        ≡ slice buf tail (size - tail) ++ slice buf 0 head
  unfolding contents
  around h = rw (lt→leb head tail h)

module _ {ℓ} {A : Type ℓ} (size : ℕ) (r : CircBuf A) (v : IsRing size r) where
  pub length-contents : length (contents size r) ≡ used size r.head r.tail
  unfolding contents
  length-contents = elim (dec_le r.tail r.head) [
    | yes p ↦
        rw (le→leb _ _ p)
          (length-slice r.buf r.tail _ (omega (arith, v.array, v.head_in, v.tail_in)))
    | no p ↦
        rw (lt→leb r.head r.tail (omega arith), length-append)
          (omega (
            arith,
            v.head_in,
            v.tail_in,
            length-slice r.buf r.tail (size - r.tail) (omega (arith, v.array, v.tail_in)),
            length-slice r.buf 0 r.head (omega (arith, v.array, v.head_in)),
          ))
  ]

  -- Reading one piece of `n` elements off the tail.
  pub contents-advance :
      (n : ℕ)
      → n ≤ used size r.head r.tail
      → r.tail + n ≤ size
      → contents size r
        ≡ slice r.buf r.tail n ++ contents size (record r { tail = wrap size (r.tail + n) })
  unfolding contents
  contents-advance n h g = elim (dec_le r.tail r.head) [
    | yes p ↦
        let le : n ≤ r.head - r.tail = rw (le→leb _ _ p) at h in
        let lt : r.tail + n < size = omega (arith, v.head_in) in
        rw (lt→ltb _ _ lt, le→leb (r.tail + n) r.head (omega arith), le→leb _ _ p)
          (slice-add r.buf r.tail n (r.head - (r.tail + n)) (r.head - r.tail) (r.tail + n)
            (omega arith) refl)
    | no p ↦ elim (dec_lt (r.tail + n) size) [
      | yes lt ↦
          rw
            (
              lt→ltb _ _ lt,
              lt→leb r.head r.tail (omega arith),
              lt→leb r.head (r.tail + n) (omega arith),
            )
            (ap (λ t. t ++ slice r.buf 0 r.head)
                (slice-add r.buf r.tail n (size - (r.tail + n)) (size - r.tail) (r.tail + n)
                  (omega arith) refl)
              ∙ append_assoc (slice r.buf r.tail n) (slice r.buf (r.tail + n) (size - (r.tail + n)))
                  (slice r.buf 0 r.head))
      | no ge ↦
          let full : size - r.tail ≡ n = omega arith in
          let zero_tail : r.tail + n - size ≡ 0 = omega arith in
          let no_offset : r.head - 0 ≡ r.head = omega arith in
          rw
            (
              ge→ltb (r.tail + n) size (omega arith),
              lt→leb r.head r.tail (omega arith),
              full,
              zero_tail,
            )
            (rw (le→leb 0 r.head (omega arith), no_offset))
    ]
  ]

  -- Writing one piece of elements at the head.
  pub contents-extend :
      (vs : List A)
      → used size r.head r.tail + length vs < size
      → r.head + length vs ≤ size
      → contents size
          (record r { buf = overwrite r.buf r.head vs; head = wrap size (r.head + length vs) })
        ≡ contents size r ++ vs
  unfolding contents
  contents-extend vs h g =
      let n = length vs in
      let buf' = overwrite r.buf r.head vs in
      let written : slice buf' r.head n ≡ vs =
        slice-overwrite_self r.buf r.head vs n refl (omega (arith, v.array)) in
      elim (dec_le r.tail r.head) [
        | yes p ↦
            let old : slice buf' r.tail (r.head - r.tail) ≡ slice r.buf r.tail (r.head - r.tail) =
              slice-overwrite_before r.buf r.head vs r.tail (r.head - r.tail) (omega arith) in
            let room : r.head - r.tail + n < size = rw (le→leb _ _ p) at h in
            elim (dec_lt (r.head + n) size) [
              | yes lt ↦
                  rw (lt→ltb _ _ lt, le→leb r.tail (r.head + n) (omega arith), le→leb _ _ p)
                    (slice-add buf' r.tail (r.head - r.tail) n (r.head + n - r.tail) r.head
                        (omega arith) (omega arith)
                      ∙ ap₂ ◌++◌ old written)
              | no ge ↦
                  let zero_head : r.head + n - size ≡ 0 = omega arith in
                  rw
                    (
                      ge→ltb (r.head + n) size (omega arith),
                      zero_head,
                      lt→leb 0 r.tail (omega arith),
                      le→leb _ _ p,
                      slice-zero buf' 0,
                      append-nil,
                    )
                    (slice-add buf' r.tail (r.head - r.tail) n (size - r.tail) r.head (omega arith)
                        (omega arith)
                      ∙ ap₂ ◌++◌ old written)
            ]
        | no p ↦
            let room : r.head + size - r.tail + n < size =
              rw (lt→leb r.head r.tail (omega arith)) at h in
            let lt : r.head + n < r.tail = omega (arith, v.tail_in) in
            rw
              (
                lt→ltb (r.head + n) size (omega (arith, v.tail_in)),
                lt→leb (r.head + n) r.tail lt,
                lt→leb r.head r.tail (omega arith),
              )
              (ap₂ ◌++◌ (slice-overwrite_after r.buf r.head vs r.tail (size - r.tail) (omega arith))
                  (slice-add buf' 0 r.head n (r.head + n) r.head refl (omega arith)
                    ∙ ap₂ ◌++◌ (slice-overwrite_before r.buf r.head vs 0 r.head (omega arith))
                        written)
                ∙ sym (append_assoc (slice r.buf r.tail (size - r.tail)) (slice r.buf 0 r.head) vs))
      ]

  -- The same for one element, as a store.
  pub contents-push :
      (x : A)
      → used size r.head r.tail + 1 < size
      → contents size (record r { buf = set r.buf r.head x; head = wrap size (r.head + 1) })
        ≡ contents size r ++ (x ∷ [])
  contents-push x h =
      rw (set-eq-overwrite r.buf r.head x) (contents-extend (x ∷ []) h (omega (arith, v.head_in)))

  pub IsRing-advance :
      (n : ℕ) → r.tail + n ≤ size → IsRing size (record r { tail = wrap size (r.tail + n) })
  IsRing-advance n g = record {
    array = v.array;
    head_in = v.head_in;
    tail_in = ground (arith, v.tail_in);
  }

  pub IsRing-extend :
      (vs : List A)
      → r.head + length vs ≤ size
      → IsRing size
          (record r { buf = overwrite r.buf r.head vs; head = wrap size (r.head + length vs) })
  IsRing-extend vs g = record {
    array = length-overwrite r.buf r.head vs ∙ v.array;
    head_in = ground (arith, v.head_in);
    tail_in = v.tail_in;
  }

  pub IsRing-push :
      (x : A) → IsRing size (record r { buf = set r.buf r.head x; head = wrap size (r.head + 1) })
  IsRing-push x =
      rw (set-eq-overwrite r.buf r.head x) (IsRing-extend (x ∷ []) (omega (arith, v.head_in)))
