-- ===== src/Detect/Detector/Simulated/Module.antt =====
-- detect_radio_module before kernel/fake_hmrf.c, the simulated radio module.
use pi_vccu.Prelude.{
  ℕ, ◌≡◌, refl, ap, ◌∙◌, List, [], ◌∷◌, ◌++◌, Option, none, some, false, length, map, take, drop,
  ◌==◌, ◌&&◌, not, bit_and, if◌then◌else◌, arith,
}
use pi_vccu.Ring.{CircBuf}
use pi_vccu.Hm.Frame as Hm
use pi_vccu.Hm.Frame.RoundTrip.{wire}
use pi_vccu.FakeHmrf.{
  Fake, answer, common_identify_response, common_start_bl_response, system_identify_response,
  system_start_app_response, trx_get_mcu_type_response, common_get_sgtin_response,
}
use pi_vccu.Detect.Numbers.{
  dst_hmsystem, dst_trx, dst_hmip, dst_llmac, dst_common, hmsystem_identify, hmsystem_change_app,
  trx_get_version, trx_get_mcu_type, hmip_get_default_rf_addr, llmac_get_serial,
  llmac_get_default_rf_addr, common_identify, common_start_bl, common_get_sgtin,
}
use pi_vccu.Detect.Frame.{HmFrame}
use pi_vccu.Detect.Detector.{
  DetectState, Detector, start_bl, start_app, get_mcu_type, finished, send_frame, parsed_frame,
  on_frame, on_start_bl, on_start_app, wake, identifies, starts_with, acknowledges, on_sgtin,
  on_bidcos, be24, hex_text,
}
use pi_vccu.Detect.Detector.Run.{
  change, sem_take, second_wait, is_start_bl, is_start_app, identify_loop, query, query_loop,
  forget_type, clear_retries, then_run, begin, detect_radio_module,
}
use pi_vccu.Detect.Detector.Simulated.{
  handled, identify_round_one, identify_round_two, query_loop-answered_all, Goes, answered_all,
}

-- The answer `cmd` to a frame, with its destination and counter.
abbrev reply : ℕ → ℕ → List ℕ → Hm.HmFrame
reply destination counter cmd' = record {
  dst = destination;
  cnt = counter;
  cmd = cmd';
  cmdlen = length cmd';
}

unfoldable pub replied : HmFrame → Option (List ℕ) → List Hm.HmFrame → List Hm.HmFrame
replied f none rest = rest
replied f (some cmd) rest = reply f.destination f.counter cmd ∷ rest

-- The answers of the simulated module to frames in their order.
unfoldable pub serve : List HmFrame → Fake → List Hm.HmFrame
serve [] s = []
serve (f ∷ frames) s = let (o, t) = answer f.destination f.command s in replied f o (serve frames t)

-- A detector as it is made.
abbrev pub new_detector : Detector
new_detector = record {
  detect_state = start_bl;
  detect_retry_count = 0;
  detect_msg_counter = 0;
  radio_module_type = 0;
  serial = [];
  bidcos_radio_mac = 0;
  hmip_radio_mac = 0;
  sgtin = [];
  firmware_version = 0 ∷ 0 ∷ 0 ∷ [];
  sem = 0;
  sent = [];
}

abbrev request : ℕ → ℕ → ℕ → HmFrame
request counter' destination' command' = record {
  counter = counter';
  destination = destination';
  command = command';
  payload = [];
  data_len = 0;
}

-- What the detector asks.
abbrev requests : List HmFrame
requests =
    request 0 dst_common common_identify
    ∷ request 1 dst_common common_start_bl
    ∷ request 2 dst_hmsystem hmsystem_identify
    ∷ request 3 dst_common common_identify
    ∷ request 4 dst_hmsystem hmsystem_identify
    ∷ request 5 dst_hmsystem hmsystem_change_app
    ∷ request 6 dst_common common_identify
    ∷ request 7 dst_trx trx_get_mcu_type
    ∷ request 8 dst_trx trx_get_version
    ∷ request 9 dst_hmip hmip_get_default_rf_addr
    ∷ request 10 dst_common common_get_sgtin
    ∷ request 11 dst_llmac llmac_get_default_rf_addr
    ∷ request 12 dst_llmac llmac_get_serial
    ∷ []

-- The simulated module as it is loaded, with the firmware version, the radio address and the serial
-- number of its parameters.
abbrev pub simulated : CircBuf ℕ → ℕ → ℕ → ℕ → ℕ → ℕ → ℕ → List ℕ → Fake
simulated ring v0 v1 v2 m0 m1 m2 serial' = record {
  rxbuf = ring;
  is_in_bl = false;
  trx_get_version_response =
      0x04 ∷ 0x01 ∷ v0 ∷ v1 ∷ v2 ∷ 0x01 ∷ 0x00 ∷ 0x03 ∷ 0x01 ∷ 0x14 ∷ 0x03 ∷ [];
  llmac_get_default_rf_address_response = 0x01 ∷ 0x01 ∷ m0 ∷ m1 ∷ m2 ∷ [];
  llmac_get_serial_response = 0x01 ∷ 0x01 ∷ serial';
  hmip_get_default_rf_address_response = 0x06 ∷ 0x01 ∷ m0 ∷ m1 ∷ m2 ∷ [];
}

-- Its answers, wait by wait.
abbrev first_answers : List (List Hm.HmFrame)
first_answers =
    (reply dst_common 0 common_identify_response ∷ reply dst_common 1 common_start_bl_response ∷ [])
    ∷ (reply dst_hmsystem 2 system_identify_response ∷ [])
    ∷ []
    ∷ (reply dst_hmsystem 4 system_identify_response
        ∷ reply dst_hmsystem 5 system_start_app_response
        ∷ [])
    ∷ (reply dst_common 6 common_identify_response ∷ [])
    ∷ []

abbrev last_answers : Fake → List Hm.HmFrame
last_answers s =
    reply dst_trx 7 trx_get_mcu_type_response
    ∷ reply dst_trx 8 s.trx_get_version_response
    ∷ reply dst_hmip 9 s.hmip_get_default_rf_address_response
    ∷ reply dst_common 10 common_get_sgtin_response
    ∷ reply dst_llmac 11 s.llmac_get_default_rf_address_response
    ∷ reply dst_llmac 12 s.llmac_get_serial_response
    ∷ []

abbrev pub answers : Fake → List (List Hm.HmFrame)
answers s = first_answers ++ map (λ k. k ∷ []) (last_answers s)

abbrev pub flatten : List (List Hm.HmFrame) → List Hm.HmFrame
flatten [] = []
flatten (ks ∷ rest) = ks ++ flatten rest

module _ (ring : CircBuf ℕ) (v0 v1 v2 m0 m1 m2 c0 c1 c2 c3 c4 c5 c6 c7 c8 c9 : ℕ) where
  abbrev digits : List ℕ
  digits = c0 ∷ c1 ∷ c2 ∷ c3 ∷ c4 ∷ c5 ∷ c6 ∷ c7 ∷ c8 ∷ c9 ∷ []

  abbrev pub simulated_module : Fake
  simulated_module = simulated ring v0 v1 v2 m0 m1 m2 digits

  served : serve requests simulated_module ≡ flatten (answers simulated_module)
  unfolding serve answer replied
  served = refl

  -- The detector behind its first `n` questions.
  abbrev behind : ℕ → DetectState → ℕ → Detector
  behind n s retries = record new_detector {
    detect_state = s;
    detect_retry_count = retries;
    detect_msg_counter = n;
    radio_module_type = 255;
    sent = take n requests;
  }

  first_loop :
      (w : List (List (List ℕ)))
      → identify_loop is_start_bl forget_type 20 (record {
        waits =
            map wire (
              reply dst_common 0 common_identify_response
              ∷ reply dst_common 1 common_start_bl_response
              ∷ [])
            ∷ map wire (reply dst_hmsystem 2 system_identify_response ∷ [])
            ∷ w;
        detector = new_detector;
      })
        ≡ some (record { waits = w; detector = behind 3 start_app 0 })
  unfolding identify_loop handled parsed_frame on_frame on_start_bl identifies starts_with wake
      send_frame sem_take second_wait
  first_loop w = ap (identify_loop is_start_bl forget_type 19) (
      identify_round_two
        (reply dst_common 0 common_identify_response
          ∷ reply dst_common 1 common_start_bl_response
          ∷ [])
        (reply dst_hmsystem 2 system_identify_response ∷ []) w new_detector (omega arith)
        (omega arith) refl)

  second_loop :
      (w : List (List (List ℕ)))
      → identify_loop is_start_app
          (λ d. d)
          20
          (record {
            waits =
                map wire []
                ∷ map wire (
                    reply dst_hmsystem 4 system_identify_response
                    ∷ reply dst_hmsystem 5 system_start_app_response
                    ∷ [])
                ∷ map wire (reply dst_common 6 common_identify_response ∷ [])
                ∷ w;
            detector = behind 3 start_app 0;
          })
        ≡ some (record { waits = w; detector = behind 7 get_mcu_type 1 })
  unfolding identify_loop handled parsed_frame on_frame on_start_app identifies starts_with wake
      send_frame sem_take second_wait
  second_loop w =
      ap (identify_loop is_start_app (λ d. d) 19) (
        identify_round_two []
          (reply dst_hmsystem 4 system_identify_response
            ∷ reply dst_hmsystem 5 system_start_app_response
            ∷ [])
          (map wire (reply dst_common 6 common_identify_response ∷ []) ∷ w) (behind 3 start_app 0)
          tt (omega arith) refl)
      ∙ ap (identify_loop is_start_app (λ d. d) 18) (
          identify_round_one (reply dst_common 6 common_identify_response ∷ []) w
            (behind 6 start_app 1) (omega arith) refl)

  -- What the detector has found out in the end.
  abbrev pub detected : Detector
  detected = record new_detector {
    detect_state = finished;
    detect_retry_count = 1;
    detect_msg_counter = 13;
    radio_module_type = 3;
    serial = digits;
    bidcos_radio_mac =
        if not (be24 (1 ∷ m0 ∷ m1 ∷ m2 ∷ []) 1 == 0)
          && not (bit_and (be24 (1 ∷ m0 ∷ m1 ∷ m2 ∷ []) 1) 0xffff == 0xffff)
        then be24 (1 ∷ m0 ∷ m1 ∷ m2 ∷ []) 1
        else 0;
    hmip_radio_mac = be24 (1 ∷ m0 ∷ m1 ∷ m2 ∷ []) 1;
    sgtin = hex_text (take 12 (drop 2 common_get_sgtin_response));
    firmware_version = v0 ∷ v1 ∷ v2 ∷ [];
    sent = requests;
  }

  last_loop :
      query_loop 20 (record {
        waits = map (λ k. wire k ∷ []) (last_answers simulated_module);
        detector = behind 7 get_mcu_type 1;
      })
      ≡ some (record { waits = []; detector = detected })
  unfolding Goes answered_all query_loop query handled parsed_frame on_frame acknowledges wake
      send_frame on_sgtin on_bidcos be24
  last_loop =
      query_loop-answered_all (last_answers simulated_module) 14 (behind 7 get_mcu_type 1)
        (omega arith)
        (refl, refl, (refl, refl, (refl, refl, (refl, refl, (refl, refl, (refl, refl, tt))))))

  -- A new detector before the simulated module as it is loaded, whatever three bytes of firmware
  -- version, three bytes of radio address and ten bytes of serial number the module has. When the
  -- plain frames of hm.h with the answers in `answers` arrive in the waits of the loops, the third
  -- wait without any, the detection ends within 20 rounds of each loop, with the type
  -- HM-MOD-RPI-PCB, and with the version, the addresses and the serial number of the module; an
  -- address that is 0 or ends in ffff is not taken as BidCoS address. These answers are those that
  -- `answer` gives to the thirteen frames that the detector has sent, in their order.
  pub detect_radio_module-simulated :
      (detect_radio_module 20
          (record { waits = map (map wire) (answers simulated_module); detector = new_detector })
        ≡ some (record { waits = []; detector = detected }))
      × (serve detected.sent simulated_module ≡ flatten (answers simulated_module))
  unfolding detect_radio_module begin then_run
  detect_radio_module-simulated = (
    ap
          (λ o. then_run o (λ s.
            then_run (identify_loop is_start_app (λ d. d) 20 (change clear_retries s))
              (query_loop 20)))
          (first_loop _)
        ∙ ap (λ o. then_run o (query_loop 20)) (second_loop _)
        ∙ last_loop,
    served,
  )
