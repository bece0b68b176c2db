-- ===== src/Detect/Numbers.antt =====
-- The numbers of detect_radio_module/hmframe.h and radiomoduledetector.h: destinations, commands,
-- and types of a radio module.
use pi_vccu.Prelude.{ℕ}

abbrev pub dst_hmsystem : ℕ
dst_hmsystem = 0x00

abbrev pub dst_trx : ℕ
dst_trx = 0x01

abbrev pub dst_hmip : ℕ
dst_hmip = 0x02

abbrev pub dst_llmac : ℕ
dst_llmac = 0x03

abbrev pub dst_common : ℕ
dst_common = 0xfe

abbrev pub hmsystem_identify : ℕ
hmsystem_identify = 0x00

abbrev pub hmsystem_get_version : ℕ
hmsystem_get_version = 0x02

abbrev pub hmsystem_change_app : ℕ
hmsystem_change_app = 0x03

abbrev pub hmsystem_ack : ℕ
hmsystem_ack = 0x04

abbrev pub hmsystem_get_serial : ℕ
hmsystem_get_serial = 0x0b

abbrev pub trx_get_version : ℕ
trx_get_version = 0x02

abbrev pub trx_ack : ℕ
trx_ack = 0x04

abbrev pub trx_get_mcu_type : ℕ
trx_get_mcu_type = 0x09

abbrev pub trx_get_default_rf_addr : ℕ
trx_get_default_rf_addr = 0x10

abbrev pub hmip_get_default_rf_addr : ℕ
hmip_get_default_rf_addr = 0x01

abbrev pub hmip_ack : ℕ
hmip_ack = 0x06

abbrev pub llmac_ack : ℕ
llmac_ack = 0x01

abbrev pub llmac_get_serial : ℕ
llmac_get_serial = 0x07

abbrev pub llmac_get_default_rf_addr : ℕ
llmac_get_default_rf_addr = 0x08

abbrev pub common_identify : ℕ
common_identify = 0x01

abbrev pub common_start_bl : ℕ
common_start_bl = 0x02

abbrev pub common_start_app : ℕ
common_start_app = 0x03

abbrev pub common_get_sgtin : ℕ
common_get_sgtin = 0x04

abbrev pub common_ack : ℕ
common_ack = 0x05

abbrev pub radio_module_none : ℕ
radio_module_none = 0

abbrev pub radio_module_hmip_rfusb : ℕ
radio_module_hmip_rfusb = 1

abbrev pub radio_module_hm_mod_rpi_pcb : ℕ
radio_module_hm_mod_rpi_pcb = 3

abbrev pub radio_module_rpi_rf_mod : ℕ
radio_module_rpi_rf_mod = 4

abbrev pub radio_module_unknown : ℕ
radio_module_unknown = 255
