-- ===== src/Ring.antt =====
-- `struct circ_buf` of linux/circ_buf.h, as the drivers use it: an array with a head to write at and
-- a tail to read from, against the queue of bytes that it stands for.
pub mod Queue
pub mod Free
use pi_vccu.Prelude.{
  ℕ, ◌+◌, ◌-◌, ◌%◌, ◌^◌, ◌≤◌, ◌<◌, ◌≡◌, List, ◌++◌, leb, ltb, if◌then◌else◌, length, arith, le→leb,
  lt→leb,
}
use native.Mathlib.Decide.{dec_le, dec_lt}
use pi_vccu.Prelude.Buffers.{slice}
use pi_vccu.Kernel.{CircMacros}

pub record CircBuf {ℓ} (A : Type ℓ) : Type ℓ where
  pub buf : List A
  pub head : ℕ
  pub tail : ℕ

-- The number of elements stored, and the place behind the last one of the array is the first one.
abbrev pub used : ℕ → ℕ → ℕ → ℕ
used size head tail = if leb tail head then head - tail else head + size - tail

abbrev pub wrap : ℕ → ℕ → ℕ
wrap size i = if ltb i size then i else i - size

module _ {ℓ} {A : Type ℓ} (size : ℕ) where
  -- The elements stored, oldest first.
  unfoldable pub contents : CircBuf A → List A
  contents r =
      if leb r.tail r.head
      then slice r.buf r.tail (r.head - r.tail)
      else slice r.buf r.tail (size - r.tail) ++ slice r.buf 0 r.head

  -- The array has its size, and both indices point into it.
  pub record IsRing (r : CircBuf A) : Type 0 where
    pub array : length r.buf ≡ size
    pub head_in : r.head < size
    pub tail_in : r.tail < size

-- The macros, at valid indices, in terms of the number of elements stored.
module _ (circ : CircMacros) (k head tail : ℕ) (h : head < 2 ^ k) (t : tail < 2 ^ k) where
  pub circ_cnt-eq_used : circ.circ_cnt head tail (2 ^ k) ≡ used (2 ^ k) head tail
  circ_cnt-eq_used = elim (dec_le tail head) [
    | yes p ↦ rw (circ.circ_cnt_lem k head tail h t, le→leb _ _ p) (grind arith)
    | no p ↦ rw (circ.circ_cnt_lem k head tail h t, lt→leb head tail (omega arith)) (grind arith)
  ]

  pub circ_space-eq_used : circ.circ_space head tail (2 ^ k) ≡ 2 ^ k - 1 - used (2 ^ k) head tail
  circ_space-eq_used = elim (dec_le tail head) [
    | yes p ↦ rw (circ.circ_space_lem k head tail h t, le→leb _ _ p) (grind arith)
    | no p ↦ rw (circ.circ_space_lem k head tail h t, lt→leb head tail (omega arith)) (grind arith)
  ]
