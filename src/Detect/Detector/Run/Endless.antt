-- ===== src/Detect/Detector/Run/Endless.antt =====
-- The question that detectRadioModule of detect_radio_module/radiomoduledetector.cpp never gives up.
use pi_vccu.Prelude.{
  ℕ, zero, suc, ◌+◌, ◌-◌, ◌≡◌, refl, ap, ◌∙◌, List, [], ◌∷◌, none, some, true, false, ◌==◌, ◌||◌,
  if◌then◌else◌, replicate, length, arith,
}
use pi_vccu.Detect.Numbers.{dst_llmac, llmac_ack, llmac_get_default_rf_addr}
use pi_vccu.Detect.Frame.{HmFrame, try_parse}
use pi_vccu.Detect.Detector.{
  DetectState, get_bidcos_rf_address, finished, Detector, send_frame, acknowledges, wake,
  on_no_bidcos, on_frame, parsed_frame, handle_frame,
}
use pi_vccu.Detect.Detector.Run.{
  handle_all, sem_take, wait_frame, is_finished, query, queried, query_loop,
}

-- The detector asks for the BidCoS address of a module that is neither of the two whose address it
-- knows from the SGTIN.
pub record IsAsking (d : Detector) : Type 0 where
  pub state : d.detect_state ≡ get_bidcos_rf_address
  pub kind : (d.radio_module_type == 4 || d.radio_module_type == 1) ≡ false
  pub idle : d.sem ≡ 0

-- The answer that there is none.
pub record IsRefusal (buffer : List ℕ) : Type 0 where
  pub frame : HmFrame
  pub parsed : try_parse buffer (length buffer) ≡ some frame
  pub refuses : acknowledges dst_llmac llmac_ack 1 0 frame ≡ true

no_address :
    (f : HmFrame)
    → acknowledges dst_llmac llmac_ack 1 0 f ≡ true
    → acknowledges dst_llmac llmac_ack 4 1 f ≡ false
unfolding acknowledges
no_address f h = ground arith

on_frame-refused :
    (f : HmFrame) (d : Detector)
    → acknowledges dst_llmac llmac_ack 1 0 f ≡ true
    → (d.radio_module_type == 4 || d.radio_module_type == 1) ≡ false
    → on_frame get_bidcos_rf_address f d ≡ wake d.detect_state d
unfolding on_frame on_no_bidcos
on_frame-refused f d h k =
    rw (no_address f h, h) (ap (λ b. wake (if b then finished else d.detect_state) d) k)

handle_frame-IsRefusal :
    (buffer : List ℕ) (d : Detector)
    → IsRefusal buffer
    → d.detect_state ≡ get_bidcos_rf_address
    → (d.radio_module_type == 4 || d.radio_module_type == 1) ≡ false
    → handle_frame buffer d ≡ wake d.detect_state d
unfolding handle_frame parsed_frame
handle_frame-IsRefusal buffer d v e k =
    ap (λ o. parsed_frame o d) v.parsed
    ∙ ap (λ s. on_frame s v.frame d) e
    ∙ on_frame-refused v.frame d v.refuses k

-- The detector behind such an answer.
abbrev asked : Detector → Detector
asked d = send_frame dst_llmac llmac_get_default_rf_addr d

abbrev refused : Detector → Detector
refused d = record (wake d.detect_state (asked d)) { sem = d.sem + 1 - 1 }

sem_take-wake :
    (waits' : List (List (List ℕ))) (s : DetectState) (d : Detector)
    → sem_take waits' (wake s d)
      ≡ (true, record { waits = waits'; detector = record (wake s d) { sem = d.sem + 1 - 1 } })
unfolding sem_take wake
sem_take-wake waits' s d = let some_left : (d.sem + 1 == 0) ≡ false = ground arith in rw some_left

wait_frame-refused :
    (buffer : List ℕ) (waits' : List (List (List ℕ))) (d : Detector)
    → IsRefusal buffer
    → IsAsking d
    → wait_frame ((buffer ∷ []) ∷ waits') (asked d)
      ≡ (true, record { waits = waits'; detector = refused d })
unfolding wait_frame handle_all send_frame
wait_frame-refused buffer waits' d v w =
    ap (sem_take waits') (handle_frame-IsRefusal buffer (asked d) v w.state w.kind)
    ∙ sem_take-wake waits' d.detect_state (asked d)

refused-IsAsking : (d : Detector) → IsAsking d → IsAsking (refused d)
unfolding send_frame wake
refused-IsAsking d w = record { state = w.state; kind = w.kind; idle = omega (arith, w.idle) }

-- A detector that asks for the BidCoS address of a module of another type than RPI-RF-MOD and
-- HMIP-RFUSB (4 and 1), with its semaphore at 0: where such a module refuses each time, it is asked
-- again each time, without a limit. With any number of such answers to come, one in each wait, and
-- fuel for as many rounds, the last loop has not ended.
pub query_loop-endless :
    (n : ℕ) (buffer : List ℕ) (d : Detector)
    → IsRefusal buffer
    → IsAsking d
    → query_loop n (record { waits = replicate n (buffer ∷ []); detector = d }) ≡ none
unfolding query_loop query queried
query_loop-endless zero buffer d v w = refl
query_loop-endless (suc n) buffer d v w =
    let waits' = replicate n (buffer ∷ []) in
    let going : is_finished (asked d).detect_state ≡ false =
      unfold send_frame in ap is_finished w.state in
    ap
      (λ s.
        if is_finished (query s d).detect_state
        then some (record { waits = (buffer ∷ []) ∷ waits'; detector = query s d })
        else queried (query_loop n) (wait_frame ((buffer ∷ []) ∷ waits') (query s d)))
      w.state
    ∙ ap
        (λ b.
          if b
          then some (record { waits = (buffer ∷ []) ∷ waits'; detector = asked d })
          else queried (query_loop n) (wait_frame ((buffer ∷ []) ∷ waits') (asked d)))
        going
    ∙ ap (queried (query_loop n)) (wait_frame-refused buffer waits' d v w)
    ∙ query_loop-endless n buffer (refused d) v (refused-IsAsking d w)
