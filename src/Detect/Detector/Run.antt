-- ===== src/Detect/Detector/Run.antt =====
-- detectRadioModule of detect_radio_module/radiomoduledetector.cpp: its three loops. The frames that
-- arrive while it waits for the semaphore are given as a list for each wait, and none arrive
-- behind the last.
pub mod Ends
pub mod Endless
use pi_vccu.Prelude.{
  ℕ, zero, suc, ◌+◌, ◌-◌, List, [], ◌∷◌, Option, none, some, Bool, true, false, ltb, ◌==◌, ◌&&◌,
  if◌then◌else◌, length,
}
use pi_vccu.Detect.Numbers.{
  dst_hmsystem, dst_trx, dst_hmip, dst_llmac, dst_common, hmsystem_identify, hmsystem_get_version,
  hmsystem_get_serial, trx_get_version, trx_get_mcu_type, trx_get_default_rf_addr,
  hmip_get_default_rf_addr, llmac_get_serial, llmac_get_default_rf_addr, common_identify,
  common_get_sgtin, radio_module_none,
}
use pi_vccu.Detect.Detector.{
  DetectState, start_bl, start_app, get_mcu_type, get_version, get_hmip_rf_address, get_sgtin,
  get_bidcos_rf_address, get_serial, legacy_get_version, legacy_get_bidcos_rf_address,
  legacy_get_serial, finished, Detector, send_frame, handle_frame,
}

-- The frames that arrive in one wait.
unfoldable pub handle_all : List (List ℕ) → Detector → Detector
handle_all [] d = d
handle_all (buffer ∷ frames) d = handle_all frames (handle_frame buffer d)

-- The detector, with what arrives in the waits that are left.
pub record Run : Type 0 where
  pub waits : List (List (List ℕ))
  pub detector : Detector

abbrev pub change : (Detector → Detector) → Run → Run
change f r = record r { detector = f r.detector }

-- `sem_take(_detectWaitFrameDataSemaphore, 3)`: false for a timeout.
unfoldable pub sem_take : List (List (List ℕ)) → Detector → Bool × Run
sem_take waits' d =
    if d.sem == 0
    then (false, record { waits = waits'; detector = d })
    else (true, record { waits = waits'; detector = record d { sem = d.sem - 1 } })

-- The wait, with the frames that arrive in it.
unfoldable pub wait_frame : List (List (List ℕ)) → Detector → Bool × Run
wait_frame [] d = sem_take [] d
wait_frame (frames ∷ waits') d = sem_take waits' (handle_all frames d)

-- A question, and the wait for its answer.
unfoldable pub ask : ℕ → ℕ → Run → Bool × Run
ask destination command r = wait_frame r.waits (send_frame destination command r.detector)

unfoldable pub second_wait : Bool × Run → Run
second_wait (true, r) = r
second_wait (false, r) = change (λ d. record d { detect_retry_count = d.detect_retry_count + 1 }) r

unfoldable pub first_wait : Bool × Run → Run
first_wait (true, r) = r
first_wait (false, r) = second_wait (ask dst_hmsystem hmsystem_identify r)

-- A round of the first two loops.
unfoldable pub identify_round : Run → Run
identify_round r = first_wait (ask dst_common common_identify r)

abbrev pub is_start_bl : DetectState → Bool
is_start_bl start_bl = true
is_start_bl s = false

abbrev pub is_start_app : DetectState → Bool
is_start_app start_app = true
is_start_app s = false

abbrev pub is_finished : DetectState → Bool
is_finished finished = true
is_finished s = false

-- A loop while `stays` holds of the state and less than three rounds have failed, on fuel; `prepare`
-- is what it does before it asks.
unfoldable pub identify_loop : (DetectState → Bool) → (Detector → Detector) → ℕ → Run → Option Run
identify_loop stays prepare zero r = none
identify_loop stays prepare (suc fuel) r =
    let rest = identify_loop stays prepare fuel (identify_round (change prepare r)) in
    if stays r.detector.detect_state && ltb r.detector.detect_retry_count 3 then rest else some r

-- The switch of the last loop.
unfoldable pub query : DetectState → Detector → Detector
query start_bl d = record d { detect_state = finished }
query start_app d = record d { detect_state = finished }
query get_mcu_type d = send_frame dst_trx trx_get_mcu_type d
query get_version d = send_frame dst_trx trx_get_version d
query get_hmip_rf_address d = send_frame dst_hmip hmip_get_default_rf_addr d
query get_sgtin d = send_frame dst_common common_get_sgtin d
query get_bidcos_rf_address d = send_frame dst_llmac llmac_get_default_rf_addr d
query get_serial d = send_frame dst_llmac llmac_get_serial d
query legacy_get_version d = send_frame dst_hmsystem hmsystem_get_version d
query legacy_get_bidcos_rf_address d = send_frame dst_trx trx_get_default_rf_addr d
query legacy_get_serial d = send_frame dst_hmsystem hmsystem_get_serial d
query finished d = d

-- What follows the wait of the last loop: a timeout breaks it.
unfoldable pub queried : (Run → Option Run) → Bool × Run → Option Run
queried continue (true, r) = continue r
queried continue (false, r) = some r

-- The last loop, on fuel.
unfoldable pub query_loop : ℕ → Run → Option Run
query_loop zero r = none
query_loop (suc fuel) r =
    let asked = query r.detector.detect_state r.detector in
    let rest = queried (query_loop fuel) (wait_frame r.waits asked) in
    if is_finished asked.detect_state then some (record r { detector = asked }) else rest

abbrev pub forget_type : Detector → Detector
forget_type d = record d { radio_module_type = radio_module_none }

abbrev pub clear_retries : Detector → Detector
clear_retries d = record d { detect_retry_count = 0 }

unfoldable pub then_run : Option Run → (Run → Option Run) → Option Run
then_run none next = none
then_run (some r) next = next r

-- What `detectRadioModule` starts with.
unfoldable pub begin : Detector → Detector
begin d = record d {
  detect_state = start_bl;
  detect_retry_count = 0;
  detect_msg_counter = 0;
  sem = 0;
}

-- `RadioModuleDetector::detectRadioModule`, on fuel for each of its loops; `none` has run out of it.
unfoldable pub detect_radio_module : ℕ → Run → Option Run
detect_radio_module fuel r =
    then_run (identify_loop is_start_bl forget_type fuel (change begin r)) (λ s.
      then_run (identify_loop is_start_app (λ d. d) fuel (change clear_retries s))
        (query_loop fuel))

-- How many frames arrive in all.
unfoldable pub arrivals : List (List (List ℕ)) → ℕ
arrivals [] = 0
arrivals (frames ∷ waits') = length frames + arrivals waits'
