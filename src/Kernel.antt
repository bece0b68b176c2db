-- ===== src/Kernel.antt =====
-- What the modules use of the Linux kernel: error numbers, the outcomes of calls that may fail, and
-- the macros of linux/circ_buf.h as an interface with their documented behaviour.
pub mod Wait
pub mod Sample
pub mod Call
use pi_vccu.Prelude.{ℕ, ◌+◌, ◌-◌, ◌%◌, ◌^◌, ◌<◌, min, ◌≡◌, ltb, lt→ltb, if◌then◌else◌, arith}

-- The error numbers that the modules return, without their numeric values.
pub data Errno : Type 0 where
  eagain erestartsys efault emsgsize ebusy enosys enodev emfile enotty enomem einval : Errno
  eproto etimedout eperm eprobe_defer eio enoioctlcmd : Errno

-- A C result: a count that is not negative, or a negated error number.
pub data Ret : Type 0 where
  ok : ℕ → Ret
  err : Errno → Ret

-- CIRC_CNT, CIRC_SPACE, CIRC_CNT_TO_END and CIRC_SPACE_TO_END, called `(head, tail, size)`: for a
-- size that is a power of two, the number of bytes stored, the number that can be added (one place
-- stays free), and how many of these lie in one piece before the end of the array.
pub record CircMacros : Type 0 where
  pub circ_cnt : ℕ → ℕ → ℕ → ℕ
  pub circ_space : ℕ → ℕ → ℕ → ℕ
  pub circ_cnt_to_end : ℕ → ℕ → ℕ → ℕ
  pub circ_space_to_end : ℕ → ℕ → ℕ → ℕ
  pub circ_cnt_lem :
      (k head tail : ℕ)
      → head < 2 ^ k
      → tail < 2 ^ k
      → circ_cnt head tail (2 ^ k) ≡ (head + 2 ^ k - tail) % 2 ^ k
  pub circ_space_lem :
      (k head tail : ℕ)
      → head < 2 ^ k
      → tail < 2 ^ k
      → circ_space head tail (2 ^ k) ≡ (tail + 2 ^ k - (head + 1)) % 2 ^ k
  pub circ_cnt_to_end_lem :
      (k head tail : ℕ)
      → head < 2 ^ k
      → tail < 2 ^ k
      → circ_cnt_to_end head tail (2 ^ k) ≡ min (circ_cnt head tail (2 ^ k)) (2 ^ k - tail)
  pub circ_space_to_end_lem :
      (k head tail : ℕ)
      → head < 2 ^ k
      → tail < 2 ^ k
      → circ_space_to_end head tail (2 ^ k) ≡ min (circ_space head tail (2 ^ k)) (2 ^ k - head)

-- `min((int)count, limit)` stored back into the `size_t` count: the cast keeps the low 32 bits, a
-- negative value is the smaller one, and it is extended to 64 bits.
unfoldable pub min_int : ℕ → ℕ → ℕ
min_int count limit =
    let low = count % 2 ^ 32 in if ltb low (2 ^ 31) then min low limit else low + (2 ^ 64 - 2 ^ 32)

-- Below 2 ^ 31, to which the kernel limits the length of a read or write, it is the minimum.
pub min_int_lem : (count limit : ℕ) → count < 2 ^ 31 → min_int count limit ≡ min count limit
unfolding min_int
min_int_lem count limit h =
    let e : count % 2 ^ 32 ≡ count = omega arith in rw (e, lt→ltb count (2 ^ 31) h)
