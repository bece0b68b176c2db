-- ===== src/Eth/Checksum.antt =====
-- The checksum of kernel/hb_rf_eth.c is the one of kernel/hm.h.
use pi_vccu.Prelude.{ℕ, zero, suc, ◌*◌, ◌%◌, ◌≡◌, refl, ap, ◌∙◌, List, [], ◌∷◌, bit_xor, arith}
use pi_vccu.Hm.Crc.{crc_bit, crc_bits, crc_byte, crc_from, hm_crc, IsU16}
use pi_vccu.Hm.Crc.Detect.{hm_crc-IsU16}
use pi_vccu.Eth.{crc_shift, crc_shifts, crc_loop, calc_crc}

crc_shift-eq : (crc : ℕ) → crc_shift crc ≡ crc_bit crc
unfolding crc_shift crc_bit
crc_shift-eq crc = ground arith

crc_shifts-eq : (n crc : ℕ) → crc_shifts n crc ≡ crc_bits n crc
unfolding crc_shifts crc_bits
crc_shifts-eq zero crc = refl
crc_shifts-eq (suc n) crc = rw (crc_shift-eq crc) (crc_shifts-eq n (crc_bit crc))

crc_loop-eq : (buf : List ℕ) (crc : ℕ) → crc_loop crc buf ≡ crc_from crc buf
unfolding crc_loop crc_from crc_byte
crc_loop-eq [] crc = refl
crc_loop-eq (b ∷ buf) crc =
    ap (λ (x : ℕ). crc_loop x buf) (crc_shifts-eq 8 (bit_xor crc (b * 256 % 65536)))
    ∙ crc_loop-eq buf (crc_byte crc b)

-- `hb_rf_eth_calc_crc` computes on every buffer what `hm_crc` of the frame layer computes.
pub calc_crc-hm_crc : (buf : List ℕ) → calc_crc buf ≡ hm_crc buf
unfolding calc_crc hm_crc
calc_crc-hm_crc buf = crc_loop-eq buf 0xd77f

pub calc_crc-IsU16 : (buf : List ℕ) → IsU16 (calc_crc buf)
calc_crc-IsU16 buf = rw (calc_crc-hm_crc buf) (hm_crc-IsU16 buf)
