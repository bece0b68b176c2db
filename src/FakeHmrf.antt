-- ===== src/FakeHmrf.antt =====
-- The state of kernel/fake_hmrf.c, a simulated radio module, and its table of answers.
pub mod Device
pub mod Params
mod Tests
use pi_vccu.Prelude.{
  ℕ, List, [], ◌∷◌, Option, none, some, Bool, true, false, not, ◌==◌, if◌then◌else◌,
}
use pi_vccu.Ring.{CircBuf}

-- The variables of the module: its buffer, whether it is in the boot loader, and the answers that
-- the module parameters change.
pub record Fake : Type 0 where
  pub rxbuf : CircBuf ℕ
  pub is_in_bl : Bool
  pub trx_get_version_response : List ℕ
  pub llmac_get_default_rf_address_response : List ℕ
  pub llmac_get_serial_response : List ℕ
  pub hmip_get_default_rf_address_response : List ℕ

-- What these answers are when the module is loaded, and the answers that never change.
abbrev pub system_identify_response : List ℕ
system_identify_response =
    0x04 ∷ 0x02 ∷ 0x43 ∷ 0x6F ∷ 0x5F ∷ 0x43 ∷ 0x50 ∷ 0x55 ∷ 0x5F ∷ 0x42 ∷ 0x4C ∷ []

abbrev pub system_start_app_response : List ℕ
system_start_app_response = 0x04 ∷ 0x01 ∷ []

abbrev pub common_identify_response : List ℕ
common_identify_response =
    0x05 ∷ 0x01 ∷ 0x44 ∷ 0x75 ∷ 0x61 ∷ 0x6C ∷ 0x43 ∷ 0x6F ∷ 0x50 ∷ 0x72 ∷ 0x6F ∷ 0x5F ∷ 0x41 ∷ 0x70
    ∷ 0x70 ∷ []

abbrev pub common_start_bl_response : List ℕ
common_start_bl_response = 0x05 ∷ 0x01 ∷ []

abbrev pub common_get_sgtin_response : List ℕ
common_get_sgtin_response =
    0x05 ∷ 0x01 ∷ 0x30 ∷ 0x14 ∷ 0xF7 ∷ 0x11 ∷ 0xA0 ∷ 0x61 ∷ 0xA7 ∷ 0xD5 ∷ 0x69 ∷ 0x9D ∷ 0xAB ∷ 0x52
    ∷ []

abbrev pub initial_trx_get_version : List ℕ
initial_trx_get_version =
    0x04 ∷ 0x01 ∷ 0x02 ∷ 0x08 ∷ 0x06 ∷ 0x01 ∷ 0x00 ∷ 0x03 ∷ 0x01 ∷ 0x14 ∷ 0x03 ∷ []

abbrev pub trx_get_dutycycle_response : List ℕ
trx_get_dutycycle_response = 0x04 ∷ 0x01 ∷ 0x00 ∷ []

abbrev pub trx_set_dutycycle_limit_response : List ℕ
trx_set_dutycycle_limit_response = 0x04 ∷ 0x01 ∷ []

abbrev pub trx_get_mcu_type_response : List ℕ
trx_get_mcu_type_response = 0x04 ∷ 0x01 ∷ 0x03 ∷ []

abbrev pub initial_llmac_get_default_rf_address : List ℕ
initial_llmac_get_default_rf_address = 0x01 ∷ 0x01 ∷ 0x4F ∷ 0x68 ∷ 0xF1 ∷ []

abbrev pub initial_llmac_get_serial : List ℕ
initial_llmac_get_serial =
    0x01 ∷ 0x01 ∷ 0x46 ∷ 0x4B ∷ 0x45 ∷ 0x31 ∷ 0x32 ∷ 0x33 ∷ 0x34 ∷ 0x35 ∷ 0x36 ∷ 0x37 ∷ []

abbrev pub llmac_get_timestamp_response : List ℕ
llmac_get_timestamp_response = 0x01 ∷ 0x01 ∷ 0x2D ∷ 0xEA ∷ []

abbrev pub llmac_rfd_init_response : List ℕ
llmac_rfd_init_response = 0x01 ∷ 0x01 ∷ 0x12 ∷ 0x34 ∷ []

abbrev pub hmip_set_radio_address_response : List ℕ
hmip_set_radio_address_response = 0x06 ∷ 0x01 ∷ []

abbrev pub initial_hmip_get_default_rf_address : List ℕ
initial_hmip_get_default_rf_address = 0x06 ∷ 0x01 ∷ 0x4F ∷ 0x68 ∷ 0xF1 ∷ []

abbrev pub hmip_get_security_counter_response : List ℕ
hmip_get_security_counter_response = 0x06 ∷ 0x01 ∷ 0x0C ∷ 0xFF ∷ 0xFF ∷ 0xFF ∷ []

abbrev pub hmip_set_security_counter_response : List ℕ
hmip_set_security_counter_response = 0x06 ∷ 0x01 ∷ []

abbrev pub hmip_set_max_sent_attemps_response : List ℕ
hmip_set_max_sent_attemps_response = 0x06 ∷ 0x01 ∷ []

abbrev pub hmip_cmd19_response : List ℕ
hmip_cmd19_response =
    0x06 ∷ 0x01 ∷ 0xE6 ∷ 0x3C ∷ 0xD5 ∷ 0x60 ∷ 0x36 ∷ 0x4B ∷ 0xAB ∷ 0xEC ∷ 0x8C ∷ 0xC4 ∷ 0xE1 ∷ 0x2F
    ∷ 0xF8 ∷ 0x19 ∷ 0x81 ∷ 0x06 ∷ 0xE5 ∷ []

abbrev pub hmip_get_nwkey_response : List ℕ
hmip_get_nwkey_response =
    0x06 ∷ 0x01 ∷ 0xC2 ∷ 0x14 ∷ 0x22 ∷ 0xF3 ∷ 0xCA ∷ 0x9C ∷ 0xBD ∷ 0xA3 ∷ 0x5F ∷ 0x71 ∷ 0x88 ∷ 0xA4
    ∷ 0x73 ∷ 0xCE ∷ 0x6F ∷ 0x03 ∷ 0xA7 ∷ 0xA5 ∷ 0xCA ∷ 0x26 ∷ 0xBA ∷ 0xE8 ∷ 0xA2 ∷ 0x2A ∷ 0x0D
    ∷ 0x3D ∷ 0x48 ∷ 0x97 ∷ 0xB6 ∷ 0xBA ∷ 0x47 ∷ 0xF0 ∷ 0x1D ∷ 0xCA ∷ 0xA7 ∷ 0x39 ∷ 0xB8 ∷ 0x4D
    ∷ 0xB3 ∷ 0xFB ∷ 0x13 ∷ 0x47 ∷ 0x02 ∷ 0x15 ∷ 0xE5 ∷ 0x37 ∷ 0x52 ∷ 0xB9 ∷ 0x39 ∷ 0xDC ∷ 0xBA
    ∷ 0x22 ∷ 0x89 ∷ 0x34 ∷ 0xCA ∷ 0x66 ∷ 0x66 ∷ 0x5B ∷ 0xD3 ∷ 0x6F ∷ 0xB3 ∷ 0xD5 ∷ 0x51 ∷ 0xB6
    ∷ 0x67 ∷ 0x98 ∷ []

abbrev pub hmip_get_linkpartner_response : List ℕ
hmip_get_linkpartner_response = 0x06 ∷ 0x01 ∷ []

abbrev pub hmip_set_nwkey_response : List ℕ
hmip_set_nwkey_response = 0x06 ∷ 0x01 ∷ []

abbrev pub hmip_add_linkpartner_response : List ℕ
hmip_add_linkpartner_response = 0x06 ∷ 0x01 ∷ []

abbrev pub hmip_send_response : List ℕ
hmip_send_response = 0x06 ∷ 0x01 ∷ []

-- The answers of each destination to the first byte of a command; `none` sends nothing.
unfoldable pub answer_system : ℕ → Fake → Option (List ℕ) × Fake
answer_system cmd s =
    if cmd == 0x00
    then (if s.is_in_bl then some system_identify_response else none, s)
    else if cmd == 0x03
    then (some system_start_app_response, record s { is_in_bl = false })
    else (none, s)

unfoldable pub answer_common : ℕ → Fake → Option (List ℕ) × Fake
answer_common cmd s =
    if cmd == 0x01
    then (if not s.is_in_bl then some common_identify_response else none, s)
    else if cmd == 0x02
    then (some common_start_bl_response, record s { is_in_bl = true })
    else if cmd == 0x04
    then (some common_get_sgtin_response, s)
    else (none, s)

unfoldable pub answer_trx : ℕ → Fake → Option (List ℕ)
answer_trx cmd s =
    if cmd == 0x02
    then some s.trx_get_version_response
    else if cmd == 0x03
    then some trx_get_dutycycle_response
    else if cmd == 0x07
    then some trx_set_dutycycle_limit_response
    else if cmd == 0x09
    then some trx_get_mcu_type_response
    else none

unfoldable pub answer_llmac : ℕ → Fake → Option (List ℕ)
answer_llmac cmd s =
    if cmd == 0x02
    then some llmac_get_timestamp_response
    else if cmd == 0x06
    then some llmac_rfd_init_response
    else if cmd == 0x07
    then some s.llmac_get_serial_response
    else if cmd == 0x08
    then some s.llmac_get_default_rf_address_response
    else none

unfoldable pub answer_hmip : ℕ → Fake → Option (List ℕ)
answer_hmip cmd s =
    if cmd == 0x00
    then some hmip_set_radio_address_response
    else if cmd == 0x01
    then some s.hmip_get_default_rf_address_response
    else if cmd == 0x0a
    then some hmip_get_security_counter_response
    else if cmd == 0x08
    then some hmip_set_security_counter_response
    else if cmd == 0x0d
    then some hmip_set_max_sent_attemps_response
    else if cmd == 0x19
    then some hmip_cmd19_response
    else if cmd == 0x13
    then some hmip_get_nwkey_response
    else if cmd == 0x12
    then some hmip_get_linkpartner_response
    else if cmd == 0x14
    then some hmip_set_nwkey_response
    else if cmd == 0x04
    then some hmip_add_linkpartner_response
    else if cmd == 0x03
    then some hmip_send_response
    else none

-- The outer `switch`, on the destination of the frame.
unfoldable pub answer : ℕ → ℕ → Fake → Option (List ℕ) × Fake
unfolding answer_system answer_common answer_trx answer_llmac answer_hmip
answer dst cmd s =
    if dst == 0x00
    then answer_system cmd s
    else if dst == 0xfe
    then answer_common cmd s
    else if dst == 0x01
    then (answer_trx cmd s, s)
    else if dst == 0x03
    then (answer_llmac cmd s, s)
    else if dst == 0x02
    then (answer_hmip cmd s, s)
    else (none, s)
