-- ===== src/Prelude/Bits/Single.antt =====
-- Single bits of a number, and masks of low bits.
use Prim.Native.Nat.{
  ℕ, zero, suc, ◌/◌, ◌%◌, ◌^◌, ◌<◌, min, max, bit_and, bit_or, bit_and-bitwise, bit_or-bitwise,
}
use mathlib.Core.Path.{◌≡◌, sym, ap, ◌∙◌}
use native.Mathlib.Omega.{arith}
use native.Mathlib.Nat.{div-div-eq-div-mul}
use pi_vccu.Prelude.Bits.{
  bit_and_halves, bit_or_halves, two_pow_suc, bit_or-zero_fuel, bit_and_fifteen,
}

-- Bit `k` of `a`.
abbrev pub bit : ℕ → ℕ → ℕ
bit k a = a / 2 ^ k % 2

bit-suc : (k a : ℕ) → bit (suc k) a ≡ bit k (a / 2)
bit-suc k a =
    let d : a / 2 ^ suc k ≡ a / 2 / 2 ^ k =
      ap (λ (t : ℕ). a / t) (omega (arith, two_pow_suc k)) ∙ sym (div-div-eq-div-mul a 2 (2 ^ k)) in
    ap (λ (t : ℕ). t % 2) d

-- Conjunction and disjunction act on each bit.
pub bit-bit_and : (k a b : ℕ) → bit k (bit_and a b) ≡ min (bit k a) (bit k b)
bit-bit_and zero a b = omega (arith, bit_and_halves a b)
bit-bit_and (suc k) a b =
    let half : bit_and a b / 2 ≡ bit_and (a / 2) (b / 2) = omega (arith, bit_and_halves a b) in
    rw (bit-suc k (bit_and a b), bit-suc k a, bit-suc k b, half) (bit-bit_and k (a / 2) (b / 2))

pub bit-bit_or : (k a b : ℕ) → bit k (bit_or a b) ≡ max (bit k a) (bit k b)
bit-bit_or zero a b = omega (arith, bit_or_halves a b)
bit-bit_or (suc k) a b =
    let half : bit_or a b / 2 ≡ bit_or (a / 2) (b / 2) = omega (arith, bit_or_halves a b) in
    rw (bit-suc k (bit_or a b), bit-suc k a, bit-suc k b, half) (bit-bit_or k (a / 2) (b / 2))

-- Masks of five, six and seven low bits.
pub bit_and_five_bits : (x : ℕ) → bit_and x 31 ≡ x % 32
bit_and_five_bits x = omega (arith, bit_and_halves x 31, bit_and_fifteen (x / 2))

pub bit_and_six_bits : (x : ℕ) → bit_and x 63 ≡ x % 64
bit_and_six_bits x = omega (arith, bit_and_halves x 63, bit_and_five_bits (x / 2))

pub bit_and_seven_bits : (x : ℕ) → bit_and x 127 ≡ x % 128
bit_and_seven_bits x = omega (arith, bit_and_halves x 127, bit_and_six_bits (x / 2))

-- Both operations stay within a width.
pub bit_and-lt : (k a b : ℕ) → a < 2 ^ k → bit_and a b < 2 ^ k
bit_and-lt zero a b h = let e : a ≡ 0 = omega arith in rw e (omega (arith, bit_and-bitwise 0 b))
bit_and-lt (suc k) a b h = omega (
  arith,
  bit_and_halves a b,
  two_pow_suc k,
  bit_and-lt k (a / 2) (b / 2) (omega (arith, two_pow_suc k)),
)

pub bit_or-lt : (k a b : ℕ) → a < 2 ^ k → b < 2 ^ k → bit_or a b < 2 ^ k
bit_or-lt zero a b h g = let e : a ≡ 0 = omega arith in rw e (omega (arith, bit_or-bitwise 0 b))
bit_or-lt (suc k) a b h g = omega (
  arith,
  bit_or_halves a b,
  two_pow_suc k,
  bit_or-lt k (a / 2) (b / 2) (omega (arith, two_pow_suc k)) (omega (arith, two_pow_suc k)),
)

-- Setting bits that are set changes nothing.
pub bit_or_five_set : (v : ℕ) → bit 5 v ≡ 1 → bit_or v 32 ≡ v
bit_or_five_set v h = omega (
  arith,
  bit_or_halves v 32,
  bit_or_halves (v / 2) 16,
  bit_or_halves (v / 2 / 2) 8,
  bit_or_halves (v / 2 / 2 / 2) 4,
  bit_or_halves (v / 2 / 2 / 2 / 2) 2,
  bit_or_halves (v / 2 / 2 / 2 / 2 / 2) 1,
  bit_or-zero_fuel (v / 2 / 2 / 2 / 2 / 2 / 2) (v / 2 / 2 / 2 / 2 / 2 / 2) (omega arith),
)

pub bit_or_three_set : (v : ℕ) → bit 3 v ≡ 1 → bit 5 v ≡ 1 → bit_or v 40 ≡ v
bit_or_three_set v h g = omega (
  arith,
  bit_or_halves v 40,
  bit_or_halves (v / 2) 20,
  bit_or_halves (v / 2 / 2) 10,
  bit_or_halves (v / 2 / 2 / 2) 5,
  bit_or_halves (v / 2 / 2 / 2 / 2) 2,
  bit_or_halves (v / 2 / 2 / 2 / 2 / 2) 1,
  bit_or-zero_fuel (v / 2 / 2 / 2 / 2 / 2 / 2) (v / 2 / 2 / 2 / 2 / 2 / 2) (omega arith),
)
