-- ===== src/FakeHmrf/Tests.antt =====
-- Concrete runs of kernel/fake_hmrf.c.
use pi_vccu.Prelude.{ℕ, ◌≤◌, ◌≡◌, ◌⊎◌, refl, [], ◌∷◌, ◌++◌, none, some, false, length, arith}
use pi_vccu.Kernel.{ok, err, emsgsize, einval}
use pi_vccu.Kernel.Sample.{sample_circ}
use pi_vccu.Ring.{contents, IsRing}
use pi_vccu.Ring.Queue.{length-contents}
use pi_vccu.Hm.Escape.{encode_frame_buffer}
use pi_vccu.Hm.Escape.RoundTrip.{length-encode_frame_buffer_le}
use pi_vccu.Hm.Frame.{HmFrame}
use pi_vccu.Hm.Frame.RoundTrip.{wire, length-wire, IsFrame}
use pi_vccu.FakeHmrf.{
  Fake, answer, initial_trx_get_version, initial_llmac_get_serial,
  initial_llmac_get_default_rf_address, initial_hmip_get_default_rf_address,
}
use pi_vccu.FakeHmrf.Device.{rx_buf_size, kzalloc, write}
use pi_vccu.FakeHmrf.Device.Answers.{IsFake}
use pi_vccu.FakeHmrf.Device.Request.{length-kzalloc, reply, write-answered}
use pi_vccu.FakeHmrf.Params.{set_radio_mac}
use pi_vccu.FakeHmrf.Params.Address.{radio_mac, hmip_radio_mac, set_radio_mac-agree}

-- The state when the module is loaded.
abbrev fake : Fake
fake = record {
  rxbuf = record { buf = kzalloc 1024; head = 0; tail = 0 };
  is_in_bl = false;
  trx_get_version_response = initial_trx_get_version;
  llmac_get_serial_response = initial_llmac_get_serial;
  llmac_get_default_rf_address_response = initial_llmac_get_default_rf_address;
  hmip_get_default_rf_address_response = initial_hmip_get_default_rf_address;
}

fake-IsFake : IsFake fake
fake-IsFake = record {
  ring = record { array = length-kzalloc 1024; head_in = omega arith; tail_in = omega arith };
  version_size = refl;
  serial_size = refl;
  llmac_address_size = refl;
  hmip_address_size = refl;
}

-- Nothing waits in its buffer.
length-empty : length (contents 1024 fake.rxbuf) ≡ 0
length-empty = length-contents 1024 fake.rxbuf fake-IsFake.ring

-- A request for the version, and one with an unknown command.
abbrev request : ℕ → HmFrame
request cmd' = record { dst = 1; cnt = 7; cmd = cmd' ∷ []; cmdlen = 1 }

request-IsFrame : (cmd' : ℕ) → IsFrame (request cmd')
request-IsFrame cmd' = record {
  dst_byte = omega arith;
  cnt_byte = omega arith;
  not_empty = omega arith;
  fits = omega arith;
  behind_cmd = omega arith;
}

length-line : (cmd' : ℕ) → length (encode_frame_buffer (wire (request cmd'))) ≤ 1024
length-line cmd' = omega (
  arith,
  length-encode_frame_buffer_le (wire (request cmd')),
  length-wire (request cmd') (omega arith),
)

length-reply :
    length (encode_frame_buffer (wire (reply (request 2) initial_trx_get_version))) ≤ 1000
length-reply = omega (
  arith,
  length-encode_frame_buffer_le (wire (reply (request 2) initial_trx_get_version)),
  length-wire (reply (request 2) initial_trx_get_version) (omega arith),
)

answers : answer 1 2 fake ≡ (some initial_trx_get_version, fake)
unfolding answer
answers = refl

answers_nothing : answer 1 99 fake ≡ (none, fake)
unfolding answer
answers_nothing = refl

write-answered_example :
    (u : Fake) × (write sample_circ
        (some (encode_frame_buffer (wire (request 2))))
        (length (encode_frame_buffer (wire (request 2))))
        fake
      ≡ some (ok (length (encode_frame_buffer (wire (request 2)))), u))
    × (contents rx_buf_size u.rxbuf
        ≡ contents rx_buf_size fake.rxbuf
          ++ encode_frame_buffer (wire (reply (request 2) initial_trx_get_version)))
    × IsRing rx_buf_size u.rxbuf
    × (u.is_in_bl ≡ false)
write-answered_example =
    write-answered sample_circ (request 2) fake (request-IsFrame 2) fake-IsFake
      initial_trx_get_version fake (length-line 2) answers
      (omega (arith, length-empty, length-reply))

refused : write sample_circ (some []) 2000 fake ≡ some (err emsgsize, fake)
unfolding write
refused = refl

set_radio_mac-agree_example :
    (set_radio_mac (0x30 ∷ 0x78 ∷ []) fake ≡ (err einval, fake))
    ⊎ (((set_radio_mac (0x30 ∷ 0x78 ∷ []) fake).0 ≡ ok 8)
        × (radio_mac (set_radio_mac (0x30 ∷ 0x78 ∷ []) fake).1
            ≡ hmip_radio_mac (set_radio_mac (0x30 ∷ 0x78 ∷ []) fake).1))
set_radio_mac-agree_example = set_radio_mac-agree (0x30 ∷ 0x78 ∷ []) fake refl refl
