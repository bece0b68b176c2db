-- ===== src/Prelude/Bits.antt =====
-- Laws of `bit_and`, `bit_or` and `bit_xor` at every width, from the digits that they stand for.
pub mod Single
use Prim.Native.Nat.{
  ℕ, zero, suc, ◌+◌, ◌*◌, ◌/◌, ◌%◌, ◌^◌, ◌≤◌, ◌<◌, min, max, bit_and, bit_or, bit_xor, digits,
  differ, bit_and-bitwise, bit_or-bitwise, bit_xor-bitwise,
}
use mathlib.Core.Path.{◌≡◌, refl, sym, ap, ◌∙◌}
use native.Mathlib.Omega.{arith}
use native.Mathlib.Nat.{pow-suc, div-div-eq-div-mul}

-- Fuel beyond the number itself changes nothing in the digit recursion.
module _ (g : ℕ → ℕ) (f : ℕ → ℕ → ℕ) where
  surplus_fuel : (y x m n : ℕ) → x ≤ n → n ≤ m → digits g f m x y ≡ digits g f n x y
  surplus_fuel y zero (suc m) (suc n) h k = refl
  surplus_fuel y zero (suc m) zero h k = refl
  surplus_fuel y zero zero (suc n) h k = refl
  surplus_fuel y zero zero zero h k = refl
  surplus_fuel y (suc x) m zero h k = absurd (omega arith)
  surplus_fuel y (suc x) zero (suc n) h k = absurd (omega arith)
  surplus_fuel y (suc x) (suc m) (suc n) h k =
      let half = suc x / 2 in
      omega (arith, surplus_fuel (y / 2) half m n (omega arith) (omega arith))

bit_and-zero_first : (b : ℕ) → bit_and 0 b ≡ 0
bit_and-zero_first b = bit_and-bitwise 0 b

bit_or-zero_first : (b : ℕ) → bit_or 0 b ≡ b
bit_or-zero_first b = bit_or-bitwise 0 b

bit_xor-zero_first : (b : ℕ) → bit_xor 0 b ≡ b
bit_xor-zero_first b = bit_xor-bitwise 0 b

-- Each operation splits off the lowest digit.
bit_and_halves : (a b : ℕ) → bit_and a b ≡ bit_and (a / 2) (b / 2) * 2 + min (a % 2) (b % 2)
bit_and_halves zero b = omega (arith, bit_and-zero_first b, bit_and-zero_first (b / 2))
bit_and_halves (suc a) b = omega (
  arith,
  bit_and-bitwise (suc a) b,
  bit_and-bitwise (suc a / 2) (b / 2),
  surplus_fuel (λ b. zero) min (b / 2) (suc a / 2) a (suc a / 2) (omega arith) (omega arith),
)

pub bit_or_halves : (a b : ℕ) → bit_or a b ≡ bit_or (a / 2) (b / 2) * 2 + max (a % 2) (b % 2)
bit_or_halves zero b = omega (arith, bit_or-zero_first b, bit_or-zero_first (b / 2))
bit_or_halves (suc a) b = omega (
  arith,
  bit_or-bitwise (suc a) b,
  bit_or-bitwise (suc a / 2) (b / 2),
  surplus_fuel (λ b. b) max (b / 2) (suc a / 2) a (suc a / 2) (omega arith) (omega arith),
)

differ_bits : (x y : ℕ) → x < 2 → y < 2 → differ x y ≡ (x + y) % 2
differ_bits zero y h k = omega arith
differ_bits (suc zero) zero h k = omega arith
differ_bits (suc zero) (suc y) h k = omega arith
differ_bits (suc (suc x)) y h k = absurd (omega arith)

bit_xor_halves : (a b : ℕ) → bit_xor a b ≡ bit_xor (a / 2) (b / 2) * 2 + (a % 2 + b % 2) % 2
bit_xor_halves zero b = omega (arith, bit_xor-zero_first b, bit_xor-zero_first (b / 2))
bit_xor_halves (suc a) b = omega (
  arith,
  bit_xor-bitwise (suc a) b,
  bit_xor-bitwise (suc a / 2) (b / 2),
  surplus_fuel (λ b. b) differ (b / 2) (suc a / 2) a (suc a / 2) (omega arith) (omega arith),
  differ_bits (suc a % 2) (b % 2) (omega arith) (omega arith),
)

pub two_pow_suc : (k : ℕ) → 2 ^ suc k ≡ 2 ^ k * 2
two_pow_suc k = omega (arith, pow-suc 2 k)

bit_or_double : (c b : ℕ) → bit_or (c * 2) b ≡ bit_or c (b / 2) * 2 + b % 2
bit_or_double c b =
    let e : c * 2 / 2 ≡ c = omega arith in omega (arith, rw e at (bit_or_halves (c * 2) b))

pub bit_or-zero_fuel : (a n : ℕ) → a ≤ n → bit_or a 0 ≡ a
bit_or-zero_fuel zero n h = bit_or-zero_first 0
bit_or-zero_fuel (suc a) zero h = absurd (omega arith)
bit_or-zero_fuel (suc a) (suc n) h =
    omega (arith, bit_or_halves (suc a) 0, bit_or-zero_fuel (suc a / 2) n (omega arith))

bit_or-zero_left : (a b : ℕ) → b ≡ 0 → bit_or a b ≡ a
bit_or-zero_left a b e = rw e (bit_or-zero_fuel a a (omega arith))

-- `(a << k) | b` for a `b` of `k` bits is a sum.
pub bit_or-shift : (k a b : ℕ) → b < 2 ^ k → bit_or (a * 2 ^ k) b ≡ a * 2 ^ k + b
bit_or-shift zero a b h = omega (arith, bit_or-zero_left (a * 1) b (omega arith))
bit_or-shift (suc k) a b h =
    let e : a * 2 ^ suc k ≡ a * 2 ^ k * 2 = omega (arith, ap (λ (t : ℕ). a * t) (two_pow_suc k)) in
    rw e (
      omega (
        arith,
        bit_or_double (a * 2 ^ k) b,
        bit_or-shift k a (b / 2) (omega (arith, two_pow_suc k)),
      ))

-- An exclusive or stays within the width of its operands.
pub bit_xor-lt : (k a b : ℕ) → a < 2 ^ k → b < 2 ^ k → bit_xor a b < 2 ^ k
bit_xor-lt zero a b h g = let e : a ≡ 0 = omega arith in rw e (omega (arith, bit_xor-zero_first b))
bit_xor-lt (suc k) a b h g = omega (
  arith,
  bit_xor_halves a b,
  two_pow_suc k,
  bit_xor-lt k (a / 2) (b / 2) (omega (arith, two_pow_suc k)) (omega (arith, two_pow_suc k)),
)

bit_xor-cancel_fuel : (n a b : ℕ) → a ≤ n → b ≤ n → bit_xor (bit_xor a b) b ≡ a
bit_xor-cancel_fuel zero a b h g =
    let e : a ≡ 0 = omega arith in let f : b ≡ 0 = omega arith in rw (e, f)
bit_xor-cancel_fuel (suc n) a b h g =
    let x = bit_xor a b in
    let half : x / 2 ≡ bit_xor (a / 2) (b / 2) = omega (arith, bit_xor_halves a b) in
    let low : x % 2 ≡ (a % 2 + b % 2) % 2 = omega (arith, bit_xor_halves a b) in
    omega (
      arith,
      low,
      rw half at (bit_xor_halves x b),
      bit_xor-cancel_fuel n (a / 2) (b / 2) (omega arith) (omega arith),
    )

-- Exclusive or with the same number twice gives the number back.
pub bit_xor-cancel : (a b : ℕ) → bit_xor (bit_xor a b) b ≡ a
bit_xor-cancel a b = bit_xor-cancel_fuel (a + b) a b (omega arith) (omega arith)

pub bit_xor-injective : (a b c : ℕ) → bit_xor a c ≡ bit_xor b c → a ≡ b
bit_xor-injective a b c e =
    sym (bit_xor-cancel a c) ∙ ap (λ (t : ℕ). bit_xor t c) e ∙ bit_xor-cancel b c

-- The parity of an exclusive or.
pub bit_xor-mod_two : (a b : ℕ) → bit_xor a b % 2 ≡ (a % 2 + b % 2) % 2
bit_xor-mod_two a b = omega (arith, bit_xor_halves a b)

bit_xor-comm_fuel : (n a b : ℕ) → a ≤ n → b ≤ n → bit_xor a b ≡ bit_xor b a
bit_xor-comm_fuel zero a b h g =
    let e : a ≡ 0 = omega arith in let f : b ≡ 0 = omega arith in rw (e, f)
bit_xor-comm_fuel (suc n) a b h g = omega (
  arith,
  bit_xor_halves a b,
  bit_xor_halves b a,
  bit_xor-comm_fuel n (a / 2) (b / 2) (omega arith) (omega arith),
)

pub bit_xor_comm : (a b : ℕ) → bit_xor a b ≡ bit_xor b a
bit_xor_comm a b = bit_xor-comm_fuel (a + b) a b (omega arith) (omega arith)

pub bit_xor_self : (a : ℕ) → bit_xor a a ≡ 0
bit_xor_self a = rw bit_xor-zero_first at (bit_xor-cancel 0 a)

-- The high part cancels: `x ^ (h << k)` is the low part of `x = (h << k) + l`.
pub bit_xor-high : (k h l : ℕ) → l < 2 ^ k → bit_xor (h * 2 ^ k + l) (h * 2 ^ k) ≡ l
bit_xor-high zero h l g =
    let e : h * 1 + l ≡ h * 1 = omega arith in rw e (omega (arith, bit_xor_self (h * 1)))
bit_xor-high (suc k) h l g =
    let c = h * 2 ^ k in
    let x = h * 2 ^ suc k + l in
    let y = h * 2 ^ suc k in
    let double : h * 2 ^ suc k ≡ c * 2 = omega (arith, ap (λ (t : ℕ). h * t) (two_pow_suc k)) in
    let ex : x / 2 ≡ c + l / 2 = omega arith in
    let ey : y / 2 ≡ c = omega arith in
    omega (
      arith,
      double,
      rw (ex, ey) at (bit_xor_halves x y),
      bit_xor-high k h (l / 2) (omega (arith, two_pow_suc k)),
    )

pub bit_and-zero_fuel : (a n : ℕ) → a ≤ n → bit_and a 0 ≡ 0
bit_and-zero_fuel zero n h = bit_and-zero_first 0
bit_and-zero_fuel (suc a) zero h = absurd (omega arith)
bit_and-zero_fuel (suc a) (suc n) h =
    omega (arith, bit_and_halves (suc a) 0, bit_and-zero_fuel (suc a / 2) n (omega arith))

bit_and-double : (a c : ℕ) → bit_and a (c * 2) ≡ bit_and (a / 2) c * 2
bit_and-double a c =
    let e : c * 2 / 2 ≡ c = omega arith in omega (arith, rw e at (bit_and_halves a (c * 2)))

-- A mask of one bit reads that bit.
pub bit_and-one_bit : (k a : ℕ) → bit_and a (2 ^ k) ≡ a / 2 ^ k % 2 * 2 ^ k
bit_and-one_bit zero a =
    omega (arith, bit_and_halves a 1, bit_and-zero_fuel (a / 2) (a / 2) (omega arith))
bit_and-one_bit (suc k) a =
    let d : a / (2 ^ k * 2) ≡ a / 2 / 2 ^ k =
      ap (λ (t : ℕ). a / t) (omega arith) ∙ sym (div-div-eq-div-mul a 2 (2 ^ k)) in
    rw (two_pow_suc, d, bit_and-double) (omega (arith, bit_and-one_bit k (a / 2)))

pub two_pow_pos : (k : ℕ) → 0 < 2 ^ k
two_pow_pos zero = omega arith
two_pow_pos (suc k) = omega (arith, two_pow_suc k, two_pow_pos k)

pub bit_and_fifteen : (x : ℕ) → bit_and x 15 ≡ x % 16
bit_and_fifteen x = omega (
  arith,
  bit_and_halves x 15,
  bit_and_halves (x / 2) 7,
  bit_and_halves (x / 2 / 2) 3,
  bit_and_halves (x / 2 / 2 / 2) 1,
  bit_and-zero_fuel (x / 2 / 2 / 2 / 2) (x / 2 / 2 / 2 / 2) (omega arith),
)

pub bit_and_low_byte : (x : ℕ) → bit_and x 255 ≡ x % 256
bit_and_low_byte x = omega (
  arith,
  bit_and_halves x 255,
  bit_and_halves (x / 2) 127,
  bit_and_halves (x / 2 / 2) 63,
  bit_and_halves (x / 2 / 2 / 2) 31,
  bit_and_fifteen (x / 2 / 2 / 2 / 2),
)

-- The ten low bits.
pub bit_and_ten_bits : (x : ℕ) → bit_and x 1023 ≡ x % 1024
bit_and_ten_bits x =
    omega (arith, bit_and_halves x 1023, bit_and_halves (x / 2) 511, bit_and_low_byte (x / 2 / 2))
