-- ===== src/CharLoop/Pieces.antt =====
-- The copies in two pieces of kernel/eq3_char_loop.c against the queue that a buffer stands for.
use pi_vccu.Prelude.{
  ℕ, zero, suc, ◌+◌, ◌-◌, ◌^◌, ◌≤◌, ◌<◌, min, bit_and, ◌≡◌, refl, sym, ap, ap₂, subst, ◌⊎◌, inl,
  inr, ◌∙◌, List, [], ◌∷◌, ◌++◌, none, false, lt→ltb, ge→ltb, length, length-append, length-take,
  take, drop, append_assoc, arith,
}
use native.Mathlib.Decide.{dec_lt}
use pi_vccu.Prelude.Bits.{bit_and_ten_bits}
use pi_vccu.Prelude.Buffers.{slice, overwrite, length-slice}
use pi_vccu.Kernel.{CircMacros, Ret, ok, err, efault, min_int_lem}
use pi_vccu.Ring.{CircBuf, used, wrap, contents, IsRing, circ_cnt-eq_used, circ_space-eq_used}
use pi_vccu.Ring.Queue.{
  length-contents, contents-advance, contents-extend, IsRing-advance, IsRing-extend,
}
use pi_vccu.CharLoop.{bufsize, read_pieces, write_pieces}

-- The mask is the wrap of an index that has run at most one turn.
mask-eq_wrap : (i : ℕ) → i ≤ 1024 → bit_and i 1023 ≡ wrap 1024 i
mask-eq_wrap i h = ground (arith, bit_and_ten_bits i)

used_below : (head tail : ℕ) → head < 1024 → tail < 1024 → used 1024 head tail < 1024
used_below head tail h g = ground arith

-- Neither piece goes beyond the end of the array.
second_fits :
    (i n a : ℕ) → i < 1024 → n ≤ 1024 → a ≡ min n (1024 - i) → wrap 1024 (i + a) + (n - a) ≤ 1024
second_fits i n a h k e = ground arith

-- What a successful copy of `count` bytes to the user has done: it hands over the oldest bytes, as
-- many as were asked for or all of them, and the others stay.
pub record Taken (count : ℕ) (r : CircBuf ℕ) (out : Ret × List ℕ × CircBuf ℕ) : Type 0 where
  pub returned : out.0 ≡ ok (length out.1)
  pub oldest : contents bufsize r ≡ out.1 ++ contents bufsize out.2
  pub as_many : length out.1 ≡ min count (length (contents bufsize r))
  pub valid : IsRing bufsize out.2

module _ (r : CircBuf ℕ) (v : IsRing bufsize r) where
  -- Two moves of the tail, the first one up to the end of the array at most.
  taken :
      (count n a : ℕ)
      → n ≡ min count (used 1024 r.head r.tail)
      → a ≡ min n (1024 - r.tail)
      → let t = wrap 1024 (r.tail + a) in
        Taken count r (
          ok n,
          slice r.buf r.tail a ++ slice r.buf t (n - a),
          record r { tail = wrap 1024 (t + (n - a)) },
        )
  taken count n a hn ha =
      let t = wrap 1024 (r.tail + a) in
      let q = record r { tail = t } in
      let w : IsRing 1024 q = IsRing-advance 1024 r v a (omega (arith, v.tail_in)) in
      let e = contents-advance 1024 r v a (omega arith) (omega (arith, v.tail_in)) in
      let first : length (slice r.buf r.tail a) ≡ a =
        length-slice r.buf r.tail a (omega (arith, v.array, v.tail_in)) in
      let total : length (contents 1024 r) ≡ a + length (contents 1024 q) =
        ap length e
        ∙ length-append (slice r.buf r.tail a) _
        ∙ ap (λ (k : ℕ). k + length (contents 1024 q)) first in
      let left : n - a ≤ used 1024 r.head t =
        omega (arith, total, length-contents 1024 r v, length-contents 1024 q w) in
      let fits : t + (n - a) ≤ 1024 =
        second_fits r.tail n a v.tail_in
          (omega (arith, used_below r.head r.tail v.head_in v.tail_in)) ha in
      let f = contents-advance 1024 q w (n - a) left fits in
      let second : length (slice r.buf t (n - a)) ≡ n - a =
        length-slice r.buf t (n - a) (omega (arith, v.array, fits)) in
      let whole : length (slice r.buf r.tail a ++ slice r.buf t (n - a)) ≡ n =
        length-append (slice r.buf r.tail a) _ ∙ omega (arith, first, second) in
      record {
        returned = ap ok (sym whole);
        oldest =
            e
            ∙ ap (λ x. slice r.buf r.tail a ++ x) f
            ∙ sym (append_assoc (slice r.buf r.tail a) (slice r.buf t (n - a)) _);
        as_many = whole ∙ hn ∙ ap (λ (k : ℕ). min count k) (sym (length-contents 1024 r v));
        valid = IsRing-advance 1024 q w (n - a) fits;
      }

module _ (circ : CircMacros) (r : CircBuf ℕ) (v : IsRing bufsize r) where
  -- A read hands over the oldest bytes, as many as were asked for or all of them, also where they
  -- lie in two pieces, and leaves the others and a well-formed buffer.
  pub read_pieces-Taken :
      (count : ℕ) → count < 2 ^ 31 → Taken count r (read_pieces circ false false count r)
  unfolding read_pieces
  read_pieces-Taken count h =
      let c = circ_cnt-eq_used circ 10 r.head r.tail v.head_in v.tail_in in
      let e = circ.circ_cnt_to_end_lem 10 r.head r.tail v.head_in v.tail_in in
      let n = min count (circ.circ_cnt r.head r.tail 1024) in
      let a = min n (circ.circ_cnt_to_end r.head r.tail 1024) in
      let t = wrap 1024 (r.tail + a) in
      let fits : t + (n - a) ≤ 1024 =
        second_fits r.tail n a v.tail_in
          (omega (arith, c, used_below r.head r.tail v.head_in v.tail_in)) (omega (arith, e, c)) in
      rw
        (
          min_int_lem count (circ.circ_cnt r.head r.tail 1024) h,
          min_int_lem n (circ.circ_cnt_to_end r.head r.tail 1024) (omega arith),
          mask-eq_wrap (r.tail + a) (omega (arith, e, v.tail_in)),
          mask-eq_wrap (t + (n - a)) fits,
        )
        (taken r v count n a (omega (arith, c)) (omega (arith, e, c)))

-- What a successful copy from the user has done: all the bytes are behind those that were there.
pub record Put (bytes : List ℕ) (r : CircBuf ℕ) (out : Ret × CircBuf ℕ) : Type 0 where
  pub returned : out.0 ≡ ok (length bytes)
  pub appended : contents bufsize out.1 ≡ contents bufsize r ++ bytes
  pub valid : IsRing bufsize out.1

length-drop_rest : (xs : List ℕ) (n : ℕ) → length (drop n xs) ≡ length xs - n
length-drop_rest [] zero = refl
length-drop_rest [] (suc n) = omega arith
length-drop_rest (x ∷ xs) zero = omega arith
length-drop_rest (x ∷ xs) (suc n) = omega (arith, length-drop_rest xs n)

take-append-drop : (n : ℕ) (xs : List ℕ) → take n xs ++ drop n xs ≡ xs
take-append-drop zero xs = refl
take-append-drop (suc n) [] = refl
take-append-drop (suc n) (x ∷ xs) = ap (λ t. x ∷ t) (take-append-drop n xs)

module _ (r : CircBuf ℕ) (v : IsRing bufsize r) where
  put :
      (bytes : List ℕ) (a : ℕ)
      → length bytes + used 1024 r.head r.tail < 1024
      → a ≡ min (length bytes) (1024 - r.head)
      → let h = wrap 1024 (r.head + a) in
        Put bytes r (
          ok (length bytes),
          record r {
            buf = overwrite (overwrite r.buf r.head (take a bytes)) h (drop a bytes);
            head = wrap 1024 (h + (length bytes - a));
          },
        )
  put bytes a room ha =
      let n = length bytes in
      let h = wrap 1024 (r.head + a) in
      let first : length (take a bytes) ≡ a = omega (arith, length-take a bytes) in
      let second : length (drop a bytes) ≡ n - a = length-drop_rest bytes a in
      let q = record r {
        buf = overwrite r.buf r.head (take a bytes);
        head = wrap 1024 (r.head + length (take a bytes));
      } in
      let w : IsRing 1024 q = IsRing-extend 1024 r v (take a bytes) (omega (arith, v.head_in)) in
      let e = contents-extend 1024 r v (take a bytes) (omega arith) (omega (arith, v.head_in)) in
      let total : length (contents 1024 q) ≡ used 1024 r.head r.tail + a =
        ap length e
        ∙ length-append (contents 1024 r) (take a bytes)
        ∙ omega (arith, length-contents 1024 r v) in
      let fits : h + (n - a) ≤ 1024 = second_fits r.head n a v.head_in (omega arith) ha in
      let same : q.head ≡ h = ap (λ (k : ℕ). wrap 1024 (r.head + k)) first in
      let f =
        contents-extend 1024 q w (drop a bytes) (omega (arith, total, length-contents 1024 q w))
          (omega (arith, same, fits)) in
      let placed = λ (i m : ℕ). record q {
        buf = overwrite q.buf i (drop a bytes);
        head = wrap 1024 (i + m);
      } in
      record {
        returned = refl;
        appended =
            ap₂ (λ i m. contents 1024 (placed i m)) (sym same) (sym second)
            ∙ f
            ∙ ap (λ t. t ++ drop a bytes) e
            ∙ append_assoc (contents 1024 r) (take a bytes) (drop a bytes)
            ∙ ap (λ t. contents 1024 r ++ t) (take-append-drop a bytes);
        valid =
            subst (λ i. IsRing 1024 (placed i (n - a))) same
              (subst (λ m. IsRing 1024 (placed q.head m)) second
                (IsRing-extend 1024 q w (drop a bytes) (omega (arith, same, second, fits))));
      }

module _ (circ : CircMacros) (r : CircBuf ℕ) (v : IsRing bufsize r) where
  -- A write is taken as a whole or not at all: with room for all its bytes they are appended to
  -- those that were there, also where the room lies in two pieces, and otherwise the result is
  -- -EFAULT and nothing changes.
  pub write_pieces-Put :
      (bytes : List ℕ)
      → length bytes < 2 ^ 31
      → ((length (contents bufsize r) + length bytes ≤ 1023)
          × Put bytes r (write_pieces circ none none bytes r))
        ⊎ ((1023 < length (contents bufsize r) + length bytes)
            × (write_pieces circ none none bytes r ≡ (err efault, r)))
  unfolding write_pieces
  write_pieces-Put bytes lim =
      let c = circ_space-eq_used circ 10 r.head r.tail v.head_in v.tail_in in
      let e = circ.circ_space_to_end_lem 10 r.head r.tail v.head_in v.tail_in in
      let u = used_below r.head r.tail v.head_in v.tail_in in
      let n = length bytes in
      let a = min n (circ.circ_space_to_end r.head r.tail 1024) in
      let h = wrap 1024 (r.head + a) in
      elim (dec_lt (circ.circ_space r.head r.tail 1024) n) [
        | yes full ↦ inr (omega (arith, c, u, full, length-contents 1024 r v), rw (lt→ltb _ _ full))
        | no room ↦
            let whole : a ≡ min n (1024 - r.head) = omega (arith, e, c) in
            let fits : h + (n - a) ≤ 1024 =
              second_fits r.head n a v.head_in (omega (arith, c)) whole in
            inl (
              omega (arith, c, u, length-contents 1024 r v),
              rw
                  (
                    min_int_lem n (circ.circ_space_to_end r.head r.tail 1024) lim,
                    ge→ltb (circ.circ_space r.head r.tail 1024) n (omega arith),
                    mask-eq_wrap (r.head + a) (omega (arith, e, v.head_in)),
                    mask-eq_wrap (h + (n - a)) fits,
                  )
                  (put r v bytes a (omega (arith, c, u)) whole),
            )
      ]
