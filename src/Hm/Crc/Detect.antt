-- ===== src/Hm/Crc/Detect.antt =====
-- What the CRC of kernel/hm.h detects: each of its rounds can be undone.
use pi_vccu.Prelude.{
  ℕ, zero, suc, ◌+◌, ◌*◌, ◌%◌, ◌^◌, ◌<◌, bit_xor, ◌≡◌, refl, sym, ap, ◌∙◌, List, [], ◌∷◌, ◌++◌, ◌↔◌,
  arith,
}
use pi_vccu.Prelude.Bits.{
  bit_xor-lt, bit_xor-injective, bit_xor-mod_two, bit_xor_comm, bit_xor-high, bit_and-one_bit,
  bit_xor_self, two_pow_suc, two_pow_pos,
}
use native.Mathlib.Decide.{dec_lt}
use pi_vccu.Hm.Crc.{IsByte, IsU16, crc_bit, crc_bits, crc_byte, crc_from, crc_init, hm_crc}

pub crc_bit-IsU16 : (s : ℕ) → IsU16 (crc_bit s)
unfolding crc_bit
crc_bit-IsU16 s = ground (arith, bit_xor-lt 16 (s * 2 % 65536) 0x8005 (omega arith) (omega arith))

crc_bit-low : (s : ℕ) → s < 32768 → crc_bit s ≡ s * 2
unfolding crc_bit
crc_bit-low s h = ground (arith, bit_and-one_bit 15 s)

crc_bit-high : (s : ℕ) → IsU16 s → 32767 < s → crc_bit s ≡ bit_xor (s * 2 % 65536) 0x8005
unfolding crc_bit
crc_bit-high s h g = ground (arith, bit_and-one_bit 15 s)

-- A round is one to one: the generator is odd, so the low bit tells which branch was taken.
crc_bit-injective : (s t : ℕ) → IsU16 s → IsU16 t → crc_bit s ≡ crc_bit t → s ≡ t
crc_bit-injective s t hs ht e = elim (dec_lt s 32768) [
  | yes p ↦ elim (dec_lt t 32768) [
    | yes q ↦ omega (arith, crc_bit-low s p, crc_bit-low t q)
    | no q ↦ omega (
      arith,
      crc_bit-low s p,
      crc_bit-high t ht (omega arith),
      bit_xor-mod_two (t * 2 % 65536) 0x8005,
    )
  ]
  | no p ↦ elim (dec_lt t 32768) [
    | yes q ↦ omega (
      arith,
      crc_bit-low t q,
      crc_bit-high s hs (omega arith),
      bit_xor-mod_two (s * 2 % 65536) 0x8005,
    )
    | no q ↦ omega (
      arith,
      bit_xor-injective (s * 2 % 65536) (t * 2 % 65536) 0x8005
          (sym (crc_bit-high s hs (omega arith)) ∙ e ∙ crc_bit-high t ht (omega arith)),
    )
  ]
]

crc_bits-injective : (n s t : ℕ) → IsU16 s → IsU16 t → crc_bits n s ≡ crc_bits n t → s ≡ t
unfolding crc_bits
crc_bits-injective zero s t hs ht e = e
crc_bits-injective (suc n) s t hs ht e =
    crc_bit-injective s t hs ht
      (crc_bits-injective n (crc_bit s) (crc_bit t) (crc_bit-IsU16 s) (crc_bit-IsU16 t) e)

crc_bits-IsU16 : (n s : ℕ) → IsU16 s → IsU16 (crc_bits n s)
unfolding crc_bits
crc_bits-IsU16 zero s h = h
crc_bits-IsU16 (suc n) s h = crc_bits-IsU16 n (crc_bit s) (crc_bit-IsU16 s)

mixed-IsU16 : (s b : ℕ) → IsU16 s → IsU16 (bit_xor s (b * 256 % 65536))
mixed-IsU16 s b h = bit_xor-lt 16 s (b * 256 % 65536) h (omega arith)

pub crc_byte-IsU16 : (s b : ℕ) → IsU16 s → IsU16 (crc_byte s b)
unfolding crc_byte
crc_byte-IsU16 s b h = crc_bits-IsU16 8 _ (mixed-IsU16 s b h)

crc_byte-injective : (s t b : ℕ) → IsU16 s → IsU16 t → crc_byte s b ≡ crc_byte t b → s ≡ t
unfolding crc_byte
crc_byte-injective s t b hs ht e =
    bit_xor-injective s t (b * 256 % 65536)
      (crc_bits-injective 8 _ _ (mixed-IsU16 s b hs) (mixed-IsU16 t b ht) e)

crc_byte-injective_byte :
    (s b c : ℕ) → IsU16 s → IsByte b → IsByte c → crc_byte s b ≡ crc_byte s c → b ≡ c
unfolding crc_byte
crc_byte-injective_byte s b c hs hb hc e =
    let m : bit_xor s (b * 256 % 65536) ≡ bit_xor s (c * 256 % 65536) =
      crc_bits-injective 8 _ _ (mixed-IsU16 s b hs) (mixed-IsU16 s c hs) e in
    omega (
      arith,
      bit_xor-injective (b * 256 % 65536) (c * 256 % 65536) s
          (bit_xor_comm (b * 256 % 65536) s ∙ m ∙ bit_xor_comm s (c * 256 % 65536)),
    )

pub crc_from-IsU16 : (bs : List ℕ) (s : ℕ) → IsU16 s → IsU16 (crc_from s bs)
unfolding crc_from
crc_from-IsU16 [] s h = h
crc_from-IsU16 (b ∷ bs) s h = crc_from-IsU16 bs (crc_byte s b) (crc_byte-IsU16 s b h)

pub hm_crc-IsU16 : (bs : List ℕ) → IsU16 (hm_crc bs)
unfolding hm_crc
hm_crc-IsU16 bs = crc_from-IsU16 bs crc_init (omega arith)

-- Over the same bytes, different start values stay different.
pub crc_from-injective :
    (bs : List ℕ) (s t : ℕ) → IsU16 s → IsU16 t → crc_from s bs ≡ crc_from t bs → s ≡ t
unfolding crc_from
crc_from-injective [] s t hs ht e = e
crc_from-injective (b ∷ bs) s t hs ht e = crc_byte-injective s t b hs ht (
    crc_from-injective bs (crc_byte s b) (crc_byte t b) (crc_byte-IsU16 s b hs)
      (crc_byte-IsU16 t b ht) e)

pub crc_from-append : (xs ys : List ℕ) (s : ℕ) → crc_from s (xs ++ ys) ≡ crc_from (crc_from s xs) ys
unfolding crc_from
crc_from-append [] ys s = refl
crc_from-append (x ∷ xs) ys s = crc_from-append xs ys (crc_byte s x)

-- Two buffers that differ in exactly one byte never have the same CRC, whatever stands before
-- and after that byte.
pub one_byte_detected :
    (before after : List ℕ) (b c : ℕ)
    → IsByte b
    → IsByte c
    → hm_crc (before ++ (b ∷ after)) ≡ hm_crc (before ++ (c ∷ after))
    → b ≡ c
unfolding hm_crc crc_from
one_byte_detected before after b c hb hc e =
    let s = crc_from crc_init before in
    let hs : IsU16 s = crc_from-IsU16 before crc_init (omega arith) in
    crc_byte-injective_byte s b c hs hb hc (
      crc_from-injective after (crc_byte s b) (crc_byte s c) (crc_byte-IsU16 s b hs)
        (crc_byte-IsU16 s c hs)
        (sym (crc_from-append before (b ∷ after) crc_init)
          ∙ e
          ∙ crc_from-append before (c ∷ after) crc_init))

-- A factor of a product is bounded by it.
le_mul : (x m : ℕ) → 0 < m → x * 2 * m < 65536 → x < 32768
le_mul x m h g = grind arith

-- Rounds that push no bit out only shift.
crc_bits-shift : (n x : ℕ) → x * 2 ^ n < 65536 → crc_bits n x ≡ x * 2 ^ n
unfolding crc_bits
crc_bits-shift zero x h = omega arith
crc_bits-shift (suc n) x h =
    let d : x * 2 ^ suc n ≡ x * 2 * 2 ^ n = omega (arith, ap (λ (t : ℕ). x * t) (two_pow_suc n)) in
    let p : x < 32768 = le_mul x (2 ^ n) (two_pow_pos n) (omega arith) in
    rw (crc_bit-low x p, d) (crc_bits-shift n (x * 2) (omega arith))

crc_from_two : (hi lo : ℕ) → IsByte hi → IsByte lo → crc_from (hi * 256 + lo) (hi ∷ lo ∷ []) ≡ 0
unfolding crc_from crc_byte
crc_from_two hi lo h l =
    let eh : hi * 256 % 65536 ≡ hi * 256 = omega arith in
    let el : lo * 256 % 65536 ≡ lo * 256 = omega arith in
    rw (eh, el, bit_xor-high 8 hi lo l, crc_bits-shift 8 lo (omega arith), bit_xor_self (lo * 256))
      (crc_bits-shift 8 0 (omega arith))

-- A buffer followed by two bytes has the CRC 0 exactly when those bytes are the CRC of the
-- buffer, high byte first.
pub appended_crc :
    (buf : List ℕ) (hi lo : ℕ)
    → IsByte hi
    → IsByte lo
    → (hm_crc (buf ++ (hi ∷ lo ∷ [])) ≡ 0) ↔ (hm_crc buf ≡ hi * 256 + lo)
unfolding hm_crc
appended_crc buf hi lo h l = (to, from)
  where
    split : crc_from crc_init (buf ++ (hi ∷ lo ∷ [])) ≡ crc_from (hm_crc buf) (hi ∷ lo ∷ [])
    split = crc_from-append buf (hi ∷ lo ∷ []) crc_init

    to : crc_from crc_init (buf ++ (hi ∷ lo ∷ [])) ≡ 0 → hm_crc buf ≡ hi * 256 + lo
    to e =
        crc_from-injective (hi ∷ lo ∷ []) (hm_crc buf) (hi * 256 + lo) (hm_crc-IsU16 buf)
          (omega arith) (sym split ∙ e ∙ sym (crc_from_two hi lo h l))

    from : hm_crc buf ≡ hi * 256 + lo → crc_from crc_init (buf ++ (hi ∷ lo ∷ [])) ≡ 0
    from e = split ∙ ap (λ t. crc_from t (hi ∷ lo ∷ [])) e ∙ crc_from_two hi lo h l
