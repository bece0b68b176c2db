-- ===== src/FakeHmrf/Device/Answers.antt =====
-- The lengths of the answers of kernel/fake_hmrf.c.
use pi_vccu.Prelude.{ℕ, ◌≤◌, ◌≡◌, List, some, length, arith}
use pi_vccu.Ring.{IsRing}
use pi_vccu.FakeHmrf.{
  Fake, answer, answer_system, answer_common, answer_trx, answer_llmac, answer_hmip,
}
use pi_vccu.FakeHmrf.Device.{rx_buf_size}

-- The buffer is well formed, and the parameters have left every answer its length.
pub record IsFake (s : Fake) : Type 0 where
  pub ring : IsRing rx_buf_size s.rxbuf
  pub version_size : length s.trx_get_version_response ≡ 11
  pub serial_size : length s.llmac_get_serial_response ≡ 12
  pub llmac_address_size : length s.llmac_get_default_rf_address_response ≡ 5
  pub hmip_address_size : length s.hmip_get_default_rf_address_response ≡ 5

-- Every answer fits the buffers.
length-answer_trx :
    (cmd : ℕ) (s : Fake) (r : List ℕ) → IsFake s → answer_trx cmd s ≡ some r → length r ≤ 100
unfolding answer_trx
length-answer_trx cmd s r v e = ground (arith, v.version_size)

length-answer_llmac :
    (cmd : ℕ) (s : Fake) (r : List ℕ) → IsFake s → answer_llmac cmd s ≡ some r → length r ≤ 100
unfolding answer_llmac
length-answer_llmac cmd s r v e = ground (arith, v.serial_size, v.llmac_address_size)

length-answer_hmip :
    (cmd : ℕ) (s : Fake) (r : List ℕ) → IsFake s → answer_hmip cmd s ≡ some r → length r ≤ 100
unfolding answer_hmip
length-answer_hmip cmd s r v e = ground (arith, v.hmip_address_size)

length-answer_system :
    (cmd : ℕ) (s t : Fake) (r : List ℕ)
    → answer_system cmd s ≡ (some r, t)
    → (length r ≤ 100) × (t.rxbuf ≡ s.rxbuf)
unfolding answer_system
length-answer_system cmd s t r e = (ground arith, ground arith)

length-answer_common :
    (cmd : ℕ) (s t : Fake) (r : List ℕ)
    → answer_common cmd s ≡ (some r, t)
    → (length r ≤ 100) × (t.rxbuf ≡ s.rxbuf)
unfolding answer_common
length-answer_common cmd s t r e = (ground arith, ground arith)

pub length-answer :
    (dst cmd : ℕ) (s t : Fake) (r : List ℕ)
    → IsFake s
    → answer dst cmd s ≡ (some r, t)
    → (length r ≤ 100) × (t.rxbuf ≡ s.rxbuf)
unfolding answer
length-answer dst cmd s t r v e = (
  ground (
    arith,
    length-answer_system cmd s t r,
    length-answer_common cmd s t r,
    length-answer_trx cmd s r v,
    length-answer_llmac cmd s r v,
    length-answer_hmip cmd s r v,
  ),
  ground (arith, length-answer_system cmd s t r, length-answer_common cmd s t r),
)
