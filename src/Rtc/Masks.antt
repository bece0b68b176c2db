-- ===== src/Rtc/Masks.antt =====
-- What the masks of kernel/rtc-rx8130.c do to the bits of a register.
use pi_vccu.Prelude.{ℕ, zero, suc, ◌-◌, ◌*◌, ◌^◌, ◌<◌, ◌≡◌, not, ◌==◌, if◌then◌else◌, arith}
use pi_vccu.Prelude.Bits.{bit_and-one_bit, two_pow_pos}
use pi_vccu.Prelude.Bits.Single.{bit, bit_and-lt, bit-bit_and}
use pi_vccu.Rtc.{clear_bits, has_bits}

-- The bits outside a mask are kept, and those in it are cleared.
pub bit-clear_bits : (k v mask : ℕ) → bit k (255 - mask) ≡ 1 → bit k (clear_bits v mask) ≡ bit k v
bit-clear_bits k v mask h = omega (arith, bit-bit_and k v (255 - mask))

pub bit-clear_bits_in : (k v mask : ℕ) → bit k (255 - mask) ≡ 0 → bit k (clear_bits v mask) ≡ 0
bit-clear_bits_in k v mask h = omega (arith, bit-bit_and k v (255 - mask))

times_bit : (b p : ℕ) → b < 2 → 0 < p → not (b * p == 0) ≡ (b == 1)
times_bit zero p h g = ground arith
times_bit (suc zero) p h g = ground arith
times_bit (suc (suc b)) p h g = absurd (omega arith)

-- A mask of one bit tests it.
pub has_bits_one : (k v : ℕ) → has_bits v (2 ^ k) ≡ (bit k v == 1)
has_bits_one k v =
    rw (bit_and-one_bit k v) (times_bit (bit k v) (2 ^ k) (omega arith) (two_pow_pos k))

-- `if (v & mask) v &= ~mask;` for a mask of one bit.
unfoldable pub drop_bit : ℕ → ℕ → ℕ
drop_bit v mask = if has_bits v mask then clear_bits v mask else v

pub bit-drop_bit : (j k v : ℕ) → bit j (255 - 2 ^ k) ≡ 1 → bit j (drop_bit v (2 ^ k)) ≡ bit j v
unfolding drop_bit
bit-drop_bit j k v h = ground (arith, bit-clear_bits j v (2 ^ k) h)

pub bit-drop_bit_in : (k v : ℕ) → bit k (255 - 2 ^ k) ≡ 0 → bit k (drop_bit v (2 ^ k)) ≡ 0
unfolding drop_bit
bit-drop_bit_in k v h = ground (arith, has_bits_one k v, bit-clear_bits_in k v (2 ^ k) h)

-- A statement about the eight bits of a register.
pub eight_bits :
    (P : ℕ → Type 0) → P 0 → P 1 → P 2 → P 3 → P 4 → P 5 → P 6 → P 7 → (k : ℕ) → k < 8 → P k
eight_bits P p q r s t u v w zero h = p
eight_bits P p q r s t u v w (suc zero) h = q
eight_bits P p q r s t u v w (suc (suc zero)) h = r
eight_bits P p q r s t u v w (suc (suc (suc zero))) h = s
eight_bits P p q r s t u v w (suc (suc (suc (suc zero)))) h = t
eight_bits P p q r s t u v w (suc (suc (suc (suc (suc zero))))) h = u
eight_bits P p q r s t u v w (suc (suc (suc (suc (suc (suc zero)))))) h = v
eight_bits P p q r s t u v w (suc (suc (suc (suc (suc (suc (suc zero))))))) h = w
eight_bits P p q r s t u v w (suc (suc (suc (suc (suc (suc (suc (suc k)))))))) h =
    absurd (omega arith)

pub clear_bits-byte : (v mask : ℕ) → v < 256 → clear_bits v mask < 256
clear_bits-byte v mask h = bit_and-lt 8 v (255 - mask) h

pub drop_bit-byte : (v mask : ℕ) → v < 256 → drop_bit v mask < 256
unfolding drop_bit
drop_bit-byte v mask h = ground (arith, clear_bits-byte v mask h)
