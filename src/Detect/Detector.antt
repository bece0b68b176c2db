-- ===== src/Detect/Detector.antt =====
-- detect_radio_module/radiomoduledetector.cpp: what the detector makes of a frame.
pub mod Moves
pub mod Run
pub mod Simulated
use Prim.Native.Char.{code}
use Prim.Native.String.{String}
use pi_vccu.Prelude.{
  ℕ, ◌+◌, ◌*◌, ◌/◌, ◌%◌, bit_and, bit_or, List, [], ◌∷◌, ◌++◌, Option, none, some, Bool, true,
  false, not, ltb, ◌==◌, ◌&&◌, ◌||◌, if◌then◌else◌, length, take, drop,
}
use pi_vccu.Hm.Frame.{at}
use pi_vccu.FakeHmrf.Params.{hex_digit}
use pi_vccu.Detect.Numbers.{
  dst_hmsystem, dst_trx, dst_hmip, dst_llmac, dst_common, hmsystem_identify, hmsystem_get_version,
  hmsystem_change_app, hmsystem_ack, hmsystem_get_serial, trx_get_version, trx_ack,
  trx_get_mcu_type, trx_get_default_rf_addr, hmip_get_default_rf_addr, hmip_ack, llmac_ack,
  llmac_get_serial, llmac_get_default_rf_addr, common_identify, common_start_bl, common_start_app,
  common_get_sgtin, common_ack, radio_module_none, radio_module_hmip_rfusb,
  radio_module_hm_mod_rpi_pcb, radio_module_rpi_rf_mod, radio_module_unknown,
}
use pi_vccu.Detect.Frame.{HmFrame, try_parse}

-- The text of a literal.
abbrev pub codes : String → List ℕ
codes String.[] = []
codes (String.◌∷◌ c s) = code c ∷ codes s

-- `detect_radio_module_state_t`.
pub data DetectState : Type 0 where
  start_bl start_app get_mcu_type get_version get_hmip_rf_address get_sgtin : DetectState
  get_bidcos_rf_address get_serial legacy_get_version legacy_get_bidcos_rf_address : DetectState
  legacy_get_serial finished : DetectState

-- `class RadioModuleDetector`. `sem` is the value of its semaphore, and `sent` holds the frames that
-- it has passed to the connector, which escapes them on the line. Texts end before their NUL.
pub record Detector : Type 0 where
  pub detect_state : DetectState
  pub detect_retry_count : ℕ
  pub detect_msg_counter : ℕ
  pub radio_module_type : ℕ
  pub serial : List ℕ
  pub bidcos_radio_mac : ℕ
  pub hmip_radio_mac : ℕ
  pub sgtin : List ℕ
  pub firmware_version : List ℕ
  pub sem : ℕ
  pub sent : List HmFrame

-- `sendFrame(_detectMsgCounter++, destination, command, NULL, 0)`.
unfoldable pub send_frame : ℕ → ℕ → Detector → Detector
send_frame destination' command' d = record d {
  detect_msg_counter = d.detect_msg_counter + 1;
  sent =
      d.sent
      ++ (record {
        counter = d.detect_msg_counter % 256;
        destination = destination';
        command = command';
        payload = [];
        data_len = 0;
      }
          ∷ []);
}

-- `strncmp(s, text, length text) == 0` for a text without NUL.
unfoldable pub starts_with : List ℕ → List ℕ → Bool
starts_with s [] = true
starts_with [] (c ∷ text) = false
starts_with (b ∷ s) (c ∷ text) = b == c && starts_with s text

-- The answer to an identification, with an acknowledgement before the text or without.
unfoldable pub identifies : ℕ → ℕ → ℕ → List ℕ → HmFrame → Bool
identifies destination' ack first text f =
    (f.destination == destination'
      && (f.command == ack
          && (f.data_len == length text + 1
              && (at f.payload 0 == first && starts_with (drop 1 f.payload) text))))
    || (f.destination == destination'
        && (f.command == 0 && (f.data_len == length text && starts_with f.payload text)))

abbrev pub hmip_trx_bl : HmFrame → Bool
hmip_trx_bl f = identifies dst_common common_ack 1 (codes "HMIP_TRX_Bl") f

abbrev pub co_cpu_bl : HmFrame → Bool
co_cpu_bl f = identifies dst_hmsystem hmsystem_ack 2 (codes "Co_CPU_BL") f

abbrev pub dual_co_pro_app : HmFrame → Bool
dual_co_pro_app f = identifies dst_common common_ack 1 (codes "DualCoPro_App") f

abbrev pub hmip_trx_app : HmFrame → Bool
hmip_trx_app f = identifies dst_common common_ack 1 (codes "HMIP_TRX_App") f

abbrev pub co_cpu_app : HmFrame → Bool
co_cpu_app f = identifies dst_hmsystem hmsystem_ack 2 (codes "Co_CPU_App") f

-- An acknowledgement with its length and its first byte.
unfoldable pub acknowledges : ℕ → ℕ → ℕ → ℕ → HmFrame → Bool
acknowledges destination' ack len first f =
    f.destination == destination'
    && (f.command == ack && (f.data_len == len && at f.payload 0 == first))

-- A new state, and `sem_give`.
unfoldable pub wake : DetectState → Detector → Detector
wake s d = record d { detect_state = s; sem = d.sem + 1 }

abbrev pub unknown : Detector → Detector
unknown d = record d { radio_module_type = radio_module_unknown }

-- Three bytes from `data[i]` on as a number, and `%02X`.
unfoldable pub be24 : List ℕ → ℕ → ℕ
be24 bytes i = bit_or (bit_or (at bytes i * 65536) (at bytes (i + 1) * 256)) (at bytes (i + 2))

unfoldable pub hex_text : List ℕ → List ℕ
hex_text [] = []
hex_text (b ∷ bytes) = hex_digit (b / 16) ∷ hex_digit (b % 16) ∷ hex_text bytes

-- The address from the last two bytes of the SGTIN.
unfoldable pub mac_of_sgtin : List ℕ → ℕ
mac_of_sgtin bytes =
    let mac = bit_or (bit_or 0xff0000 (at bytes 11 * 256)) (at bytes 12) in
    if mac == 0xffffff then 0xfffffe else mac

-- The switch on the type of the radio module, with the SGTIN in `bytes`.
unfoldable pub on_sgtin : List ℕ → Detector → Detector
on_sgtin bytes d =
    let named = record d { serial = hex_text (take 5 (drop 8 bytes)) } in
    if d.radio_module_type == radio_module_rpi_rf_mod
    then wake get_bidcos_rf_address (record named { bidcos_radio_mac = mac_of_sgtin bytes })
    else if d.radio_module_type == radio_module_hmip_rfusb
    then (if ltb (at d.firmware_version 0) 4
        then wake finished (record named { bidcos_radio_mac = 0 })
        else wake get_bidcos_rf_address (record named { bidcos_radio_mac = mac_of_sgtin bytes }))
    else wake get_bidcos_rf_address d

-- The address that the module reports; 0 and the broadcast addresses are left out.
unfoldable pub on_bidcos : ℕ → Detector → Detector
on_bidcos mac d =
    let next =
      if d.radio_module_type == radio_module_hm_mod_rpi_pcb then get_serial else finished in
    let known = not (mac == 0) && not (bit_and mac 0xffff == 0xffff) in
    wake next (record d { bidcos_radio_mac = if known then mac else d.bidcos_radio_mac })

-- The module has no such address.
unfoldable pub on_no_bidcos : Detector → Detector
on_no_bidcos d =
    let enough =
      d.radio_module_type == radio_module_rpi_rf_mod
      || d.radio_module_type == radio_module_hmip_rfusb in
    wake (if enough then finished else d.detect_state) d

-- The frames that `handleFrame` looks for until the boot loader runs, and until the program runs.
unfoldable pub on_start_bl : HmFrame → Detector → Detector
on_start_bl f d =
    if hmip_trx_bl f
    then wake start_app (unknown d)
    else if co_cpu_bl f
    then wake start_app (unknown d)
    else if dual_co_pro_app f
    then send_frame dst_common common_start_bl (unknown d)
    else if hmip_trx_app f
    then send_frame dst_common common_start_bl (unknown d)
    else if co_cpu_app f
    then send_frame dst_hmsystem hmsystem_change_app (unknown d)
    else d

unfoldable pub on_start_app : HmFrame → Detector → Detector
on_start_app f d =
    if hmip_trx_bl f
    then send_frame dst_common common_start_app d
    else if co_cpu_bl f
    then send_frame dst_hmsystem hmsystem_change_app d
    else if dual_co_pro_app f
    then wake get_mcu_type d
    else if hmip_trx_app f
    then wake get_mcu_type d
    else if co_cpu_app f
    then wake legacy_get_version (record d {
      sgtin = codes "n/a";
      hmip_radio_mac = 0;
      radio_module_type = radio_module_hm_mod_rpi_pcb;
    })
    else d

-- The switch of `handleFrame`.
unfoldable pub on_frame : DetectState → HmFrame → Detector → Detector
on_frame start_bl f d = on_start_bl f d
on_frame start_app f d = on_start_app f d
on_frame get_mcu_type f d =
    if acknowledges dst_trx trx_ack 2 1 f
    then wake get_version (record d { radio_module_type = at f.payload 1 })
    else d
on_frame get_version f d =
    if acknowledges dst_trx trx_ack 10 1 f
    then wake get_hmip_rf_address (record d { firmware_version = take 3 (drop 1 f.payload) })
    else d
on_frame get_hmip_rf_address f d =
    if acknowledges dst_hmip hmip_ack 4 1 f
    then wake get_sgtin (record d { hmip_radio_mac = be24 f.payload 1 })
    else d
on_frame get_sgtin f d =
    if acknowledges dst_common common_ack 13 1 f
    then on_sgtin f.payload (record d { sgtin = hex_text (take 12 (drop 1 f.payload)) })
    else d
on_frame get_bidcos_rf_address f d =
    if acknowledges dst_llmac llmac_ack 4 1 f
    then on_bidcos (be24 f.payload 1) d
    else if acknowledges dst_llmac llmac_ack 1 0 f
    then on_no_bidcos d
    else d
on_frame get_serial f d =
    if acknowledges dst_llmac llmac_ack 11 1 f
    then wake finished (record d { serial = take 10 (drop 1 f.payload) })
    else d
on_frame legacy_get_version f d =
    if acknowledges dst_hmsystem hmsystem_ack 7 2 f
    then wake legacy_get_bidcos_rf_address
        (record d { firmware_version = take 3 (drop 4 f.payload) })
    else d
on_frame legacy_get_bidcos_rf_address f d =
    if f.destination == dst_trx && (f.command == trx_ack && f.data_len == 6)
    then wake legacy_get_serial (record d { bidcos_radio_mac = be24 f.payload 3 })
    else d
on_frame legacy_get_serial f d =
    if acknowledges dst_hmsystem hmsystem_ack 11 2 f
    then wake finished (record d { serial = take 10 (drop 1 f.payload) })
    else d
on_frame finished f d = d

unfoldable pub parsed_frame : Option HmFrame → Detector → Detector
parsed_frame none d = d
parsed_frame (some f) d = on_frame d.detect_state f d

-- `RadioModuleDetector::handleFrame`.
unfoldable pub handle_frame : List ℕ → Detector → Detector
handle_frame buffer d = parsed_frame (try_parse buffer (length buffer)) d
