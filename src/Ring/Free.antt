-- ===== src/Ring/Free.antt =====
-- The place that a reader has freed is no part of the contents of a ring.
use pi_vccu.Prelude.{
  ℕ, zero, suc, ◌+◌, ◌-◌, ◌≤◌, ◌<◌, ◌≡◌, ◌≢◌, sym, ap, ap₂, ◌∙◌, List, [], ◌∷◌, ◌++◌, length, set,
  get_or, le→leb, lt→leb, lt→ltb, ge→ltb, arith,
}
use native.Mathlib.Decide.{dec_le, dec_lt}
use pi_vccu.Prelude.Buffers.{
  slice, slice-zero, set-eq-overwrite, slice-overwrite_before, slice-overwrite_after,
}
use pi_vccu.Ring.{CircBuf, wrap, contents, IsRing}
use pi_vccu.Ring.Queue.{contents-advance}

module _ {ℓ} {A : Type ℓ} where
  slice_one : (xs : List A) (i : ℕ) (d : A) → i < length xs → slice xs i 1 ≡ get_or xs i d ∷ []
  slice_one [] i d h = absurd (omega arith)
  slice_one (x ∷ xs) zero d h = ap (λ (t : List A). x ∷ t) (slice-zero xs 0)
  slice_one (x ∷ xs) (suc i) d h = slice_one xs i d (omega arith)

  slice-set_before :
      (xs : List A) (o p n : ℕ) (v : A) → p + n ≤ o → slice (set xs o v) p n ≡ slice xs p n
  slice-set_before xs o p n v h =
      ap (λ (t : List A). slice t p n) (set-eq-overwrite xs o v)
      ∙ slice-overwrite_before xs o (v ∷ []) p n h

  slice-set_after :
      (xs : List A) (o p n : ℕ) (v : A) → o < p → slice (set xs o v) p n ≡ slice xs p n
  slice-set_after xs o p n v h =
      ap (λ (t : List A). slice t p n) (set-eq-overwrite xs o v)
      ∙ slice-overwrite_after xs o (v ∷ []) p n (omega arith)

module _ {ℓ} {A : Type ℓ} (size : ℕ) (r : CircBuf A) (v : IsRing size r)
    (some_used : r.head ≢ r.tail) where
  free_place :
      (x : A)
      → contents size (record r { buf = set r.buf r.tail x; tail = wrap size (r.tail + 1) })
        ≡ contents size (record r { tail = wrap size (r.tail + 1) })
  unfolding contents
  free_place x = elim (dec_lt (r.tail + 1) size) [
    | yes inside ↦ elim (dec_le (r.tail + 1) r.head) [
      | yes p ↦
          rw (lt→ltb (r.tail + 1) size inside, le→leb (r.tail + 1) r.head p)
            (slice-set_after r.buf r.tail (r.tail + 1) (r.head - (r.tail + 1)) x (omega arith))
      | no p ↦
          rw (lt→ltb (r.tail + 1) size inside, lt→leb r.head (r.tail + 1) (omega arith))
            (ap₂ (λ (a b : List A). a ++ b)
              (slice-set_after r.buf r.tail (r.tail + 1) (size - (r.tail + 1)) x (omega arith))
              (slice-set_before r.buf r.tail 0 r.head x (omega arith)))
    ]
    | no around ↦
        let last : r.tail + 1 - size ≡ 0 = omega (arith, v.tail_in) in
        rw (ge→ltb (r.tail + 1) size (omega arith), last, le→leb 0 r.head (omega arith))
          (slice-set_before r.buf r.tail 0 (r.head - 0) x (omega (arith, v.head_in)))
  ]

  -- Taking the oldest element off, and writing into the place where it stood: it is the first of the
  -- contents, and the rest is what remains.
  pub contents-pop :
      (x d : A)
      → contents size r
        ≡ get_or r.buf r.tail d
          ∷ contents size (record r { buf = set r.buf r.tail x; tail = wrap size (r.tail + 1) })
  contents-pop x d =
      contents-advance size r v 1 (ground (arith, v.tail_in, v.head_in)) (omega (arith, v.tail_in))
      ∙ ap₂ (λ (a b : List A). a ++ b)
          (slice_one r.buf r.tail d (omega (arith, v.array, v.tail_in))) (sym (free_place x))
