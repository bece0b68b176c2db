-- ===== src/Hm/Crc.antt =====
-- `hm_crc` of kernel/hm.h: a 16-bit CRC over a byte buffer.
pub mod Detect
use pi_vccu.Prelude.{
  ℕ, zero, suc, ◌*◌, ◌%◌, ◌<◌, bit_and, bit_xor, List, [], ◌∷◌, ◌==◌, if◌then◌else◌,
}

-- A byte, and a `uint16_t`.
abbrev pub IsByte : ℕ → Type 0
IsByte b = b < 256

abbrev pub IsU16 : ℕ → Type 0
IsU16 x = x < 65536

-- One round of the inner loop; `crc <<= 1` drops the bit that leaves the 16-bit variable.
unfoldable pub crc_bit : ℕ → ℕ
crc_bit crc = if bit_and crc 0x8000 == 0 then crc * 2 % 65536 else bit_xor (crc * 2 % 65536) 0x8005

-- The inner `for` loop.
unfoldable pub crc_bits : ℕ → ℕ → ℕ
crc_bits zero crc = crc
crc_bits (suc i) crc = crc_bits i (crc_bit crc)

-- One round of the outer loop: `crc ^= *buf++ << 8`, then eight bits.
unfoldable pub crc_byte : ℕ → ℕ → ℕ
unfolding crc_bits
crc_byte crc b = crc_bits 8 (bit_xor crc (b * 256 % 65536))

unfoldable pub crc_from : ℕ → List ℕ → ℕ
crc_from crc [] = crc
crc_from crc (b ∷ bs) = crc_from (crc_byte crc b) bs

abbrev pub crc_init : ℕ
crc_init = 0xd77f

unfoldable pub hm_crc : List ℕ → ℕ
unfolding crc_from
hm_crc buf = crc_from crc_init buf
