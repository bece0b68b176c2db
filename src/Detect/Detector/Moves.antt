-- ===== src/Detect/Detector/Moves.antt =====
-- How a frame moves the detector of detect_radio_module/radiomoduledetector.cpp.
use pi_vccu.Prelude.{
  ℕ, ◌+◌, ◌≤◌, ◌≡◌, refl, ap, ◌∙◌, ◌⊎◌, inl, inr, List, Option, none, some, Bool, true, false, ltb,
  ◌==◌, ◌||◌, if◌then◌else◌, on_test, length, arith,
}
use pi_vccu.Hm.Frame.{at}
use pi_vccu.Detect.Numbers.{
  dst_hmsystem, dst_llmac, dst_common, hmsystem_change_app, llmac_ack, common_start_bl,
  common_start_app, common_ack, radio_module_hm_mod_rpi_pcb,
}
use pi_vccu.Detect.Frame.{HmFrame, try_parse}
use pi_vccu.Detect.Detector.{
  DetectState, start_bl, start_app, get_mcu_type, get_version, get_hmip_rf_address, get_sgtin,
  get_bidcos_rf_address, get_serial, legacy_get_version, legacy_get_bidcos_rf_address,
  legacy_get_serial, finished, Detector, send_frame, wake, on_sgtin, on_bidcos, on_no_bidcos,
  on_frame, on_start_bl, on_start_app, parsed_frame, handle_frame, hmip_trx_bl, co_cpu_bl,
  dual_co_pro_app, hmip_trx_app, co_cpu_app, acknowledges, be24, unknown, codes,
}

-- The numbers of the states in `detect_radio_module_state_t`.
abbrev pub state_value : DetectState → ℕ
state_value start_bl = 0
state_value start_app = 10
state_value get_mcu_type = 20
state_value get_version = 30
state_value get_hmip_rf_address = 40
state_value get_sgtin = 50
state_value get_bidcos_rf_address = 60
state_value get_serial = 70
state_value legacy_get_version = 31
state_value legacy_get_bidcos_rf_address = 61
state_value legacy_get_serial = 71
state_value finished = 255

-- The state's number never falls. A state that changes wakes the main thread, once; the count of the
-- retries and what was sent before stay.
pub record Moves (d t : Detector) : Type 0 where
  pub forward : state_value d.detect_state ≤ state_value t.detect_state
  pub wakes : (t.detect_state ≡ d.detect_state) ⊎ (t.sem ≡ d.sem + 1)
  pub once : (t.sem ≡ d.sem) ⊎ (t.sem ≡ d.sem + 1)
  pub retries : t.detect_retry_count ≡ d.detect_retry_count

Moves-refl : (d : Detector) → Moves d d
Moves-refl d = record { forward = omega arith; wakes = inl refl; once = inl refl; retries = refl }

-- A new state behind the old one, in `t` that differs from `d` only in what was detected.
record SameRun (d t : Detector) : Type 0 where
  state : t.detect_state ≡ d.detect_state
  sem : t.sem ≡ d.sem
  retries : t.detect_retry_count ≡ d.detect_retry_count

SameRun-refl : (d : Detector) → SameRun d d
SameRun-refl d = record { state = refl; sem = refl; retries = refl }

wake-Moves :
    (s r : DetectState) (d t : Detector)
    → d.detect_state ≡ r
    → SameRun d t
    → state_value r ≤ state_value s
    → Moves d (wake s t)
unfolding wake
wake-Moves s r d t e v h = record {
  forward = omega (arith, ap state_value e, h);
  wakes = inr (ap (λ n. n + 1) v.sem);
  once = inr (ap (λ n. n + 1) v.sem);
  retries = v.retries;
}

send_frame-Moves :
    (destination command : ℕ) (d t : Detector)
    → SameRun d t
    → Moves d (send_frame destination command t)
unfolding send_frame
send_frame-Moves destination command d t v = record {
  forward = omega (arith, ap state_value v.state);
  wakes = inl v.state;
  once = inl v.sem;
  retries = v.retries;
}

on_sgtin-Moves :
    (bytes : List ℕ) (d t : Detector)
    → d.detect_state ≡ get_sgtin
    → SameRun d t
    → Moves d (on_sgtin bytes t)
unfolding on_sgtin
on_sgtin-Moves bytes d t e v =
    let same : (u : Detector)
        → u.detect_state ≡ t.detect_state
        → u.sem ≡ t.sem
        → u.detect_retry_count ≡ t.detect_retry_count
        → SameRun d u =
      λ u a b c. record { state = a ∙ v.state; sem = b ∙ v.sem; retries = c ∙ v.retries } in
    on_test (Moves d) (t.radio_module_type == 4) _ _
      (λ h. wake-Moves get_bidcos_rf_address get_sgtin d _ e (same _ refl refl refl) (omega arith))
      (λ h.
        on_test (Moves d) (t.radio_module_type == 1) _ _
          (λ h.
            on_test (Moves d) (ltb (at t.firmware_version 0) 4) _ _
              (λ h. wake-Moves finished get_sgtin d _ e (same _ refl refl refl) (omega arith))
              (λ h.
                wake-Moves get_bidcos_rf_address get_sgtin d _ e (same _ refl refl refl)
                  (omega arith)))
          (λ h. wake-Moves get_bidcos_rf_address get_sgtin d t e v (omega arith)))

on_bidcos-Moves :
    (mac : ℕ) (d : Detector) → d.detect_state ≡ get_bidcos_rf_address → Moves d (on_bidcos mac d)
unfolding on_bidcos wake
on_bidcos-Moves mac d e = record {
  forward =
      on_test (λ s. state_value d.detect_state ≤ state_value s) (d.radio_module_type == 3) _ _
        (λ h. omega (arith, ap state_value e)) (λ h. omega (arith, ap state_value e));
  wakes = inr refl;
  once = inr refl;
  retries = refl;
}

on_no_bidcos-Moves :
    (d : Detector) → d.detect_state ≡ get_bidcos_rf_address → Moves d (on_no_bidcos d)
unfolding on_no_bidcos wake
on_no_bidcos-Moves d e = record {
  forward =
      on_test (λ s. state_value d.detect_state ≤ state_value s)
        (d.radio_module_type == 4 || d.radio_module_type == 1) _ _
        (λ h. omega (arith, ap state_value e)) (λ h. omega arith);
  wakes = inr refl;
  once = inr refl;
  retries = refl;
}

-- One answer that is waited for.
answer-Moves :
    (b : Bool) (s r : DetectState) (d t : Detector)
    → d.detect_state ≡ r
    → SameRun d t
    → state_value r ≤ state_value s
    → Moves d (if b then wake s t else d)
answer-Moves true s r d t e v h = wake-Moves s r d t e v h
answer-Moves false s r d t e v h = Moves-refl d

on_frame-Moves :
    (s : DetectState) (f : HmFrame) (d : Detector) → d.detect_state ≡ s → Moves d (on_frame s f d)
unfolding on_frame on_start_bl on_start_app
on_frame-Moves start_bl f d e =
    on_test (Moves d) (hmip_trx_bl f) _ _
      (λ h. wake-Moves start_app start_bl d _ e kept (omega arith))
      (λ h.
        on_test (Moves d) (co_cpu_bl f) _ _
          (λ h. wake-Moves start_app start_bl d _ e kept (omega arith))
          (λ h.
            on_test (Moves d) (dual_co_pro_app f) _ _
              (λ h. send_frame-Moves dst_common common_start_bl d _ kept)
              (λ h.
                on_test (Moves d) (hmip_trx_app f) _ _
                  (λ h. send_frame-Moves dst_common common_start_bl d _ kept)
                  (λ h.
                    on_test (Moves d) (co_cpu_app f) _ _
                      (λ h. send_frame-Moves dst_hmsystem hmsystem_change_app d _ kept)
                      (λ h. Moves-refl d)))))
  where
    kept : SameRun d (unknown d)
    kept = record { state = refl; sem = refl; retries = refl }
on_frame-Moves start_app f d e =
    on_test (Moves d) (hmip_trx_bl f) _ _
      (λ h. send_frame-Moves dst_common common_start_app d d (SameRun-refl d))
      (λ h.
        on_test (Moves d) (co_cpu_bl f) _ _
          (λ h. send_frame-Moves dst_hmsystem hmsystem_change_app d d (SameRun-refl d))
          (λ h.
            on_test (Moves d) (dual_co_pro_app f) _ _
              (λ h. wake-Moves get_mcu_type start_app d d e (SameRun-refl d) (omega arith))
              (λ h.
                on_test (Moves d) (hmip_trx_app f) _ _
                  (λ h. wake-Moves get_mcu_type start_app d d e (SameRun-refl d) (omega arith))
                  (λ h.
                    on_test (Moves d) (co_cpu_app f) _ _
                      (λ h. wake-Moves legacy_get_version start_app d _ e kept (omega arith))
                      (λ h. Moves-refl d)))))
  where
    kept : SameRun d (record d {
      sgtin = codes "n/a";
      hmip_radio_mac = 0;
      radio_module_type = radio_module_hm_mod_rpi_pcb;
    })
    kept = record { state = refl; sem = refl; retries = refl }
on_frame-Moves get_mcu_type f d e =
    answer-Moves _ get_version get_mcu_type d _ e
      (record { state = refl; sem = refl; retries = refl }) (omega arith)
on_frame-Moves get_version f d e =
    answer-Moves _ get_hmip_rf_address get_version d _ e
      (record { state = refl; sem = refl; retries = refl }) (omega arith)
on_frame-Moves get_hmip_rf_address f d e =
    answer-Moves _ get_sgtin get_hmip_rf_address d _ e
      (record { state = refl; sem = refl; retries = refl }) (omega arith)
on_frame-Moves get_sgtin f d e =
    on_test (Moves d) (acknowledges dst_common common_ack 13 1 f) _ _
      (λ h. on_sgtin-Moves f.payload d _ e (record { state = refl; sem = refl; retries = refl }))
      (λ h. Moves-refl d)
on_frame-Moves get_bidcos_rf_address f d e =
    on_test (Moves d) (acknowledges dst_llmac llmac_ack 4 1 f) _ _
      (λ h. on_bidcos-Moves (be24 f.payload 1) d e)
      (λ h.
        on_test (Moves d) (acknowledges dst_llmac llmac_ack 1 0 f) _ _ (λ h. on_no_bidcos-Moves d e)
          (λ h. Moves-refl d))
on_frame-Moves get_serial f d e =
    answer-Moves _ finished get_serial d _ e (record { state = refl; sem = refl; retries = refl })
      (omega arith)
on_frame-Moves legacy_get_version f d e =
    answer-Moves _ legacy_get_bidcos_rf_address legacy_get_version d _ e
      (record { state = refl; sem = refl; retries = refl }) (omega arith)
on_frame-Moves legacy_get_bidcos_rf_address f d e =
    answer-Moves _ legacy_get_serial legacy_get_bidcos_rf_address d _ e
      (record { state = refl; sem = refl; retries = refl }) (omega arith)
on_frame-Moves legacy_get_serial f d e =
    answer-Moves _ finished legacy_get_serial d _ e
      (record { state = refl; sem = refl; retries = refl }) (omega arith)
on_frame-Moves finished f d e = Moves-refl d

parsed_frame-Moves : (o : Option HmFrame) (d : Detector) → Moves d (parsed_frame o d)
unfolding parsed_frame
parsed_frame-Moves none d = Moves-refl d
parsed_frame-Moves (some f) d = on_frame-Moves d.detect_state f d refl

-- Whatever bytes arrive as a frame, the number of the detector's state never falls; where the state
-- changes, the main thread is woken; it is woken once at most; and the count of retries stays.
pub handle_frame-Moves : (buffer : List ℕ) (d : Detector) → Moves d (handle_frame buffer d)
unfolding handle_frame
handle_frame-Moves buffer d = parsed_frame-Moves (try_parse buffer (length buffer)) d
