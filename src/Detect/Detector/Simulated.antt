-- ===== src/Detect/Detector/Simulated.antt =====
-- What the detector of detect_radio_module/radiomoduledetector.cpp does with frames of kernel/hm.h,
-- a step at a time.
pub mod Module
use pi_vccu.Prelude.{
  ℕ, suc, ◌-◌, ◌+◌, ◌<◌, ◌≤◌, ◌≡◌, refl, sym, ap, ◌∙◌, List, [], ◌∷◌, ◌++◌, Option, none, some,
  Bool, true, false, All, length, map, drop, append-nil, ◌==◌, ◌&&◌, not, bit_and, if◌then◌else◌,
  arith,
}
use pi_vccu.Ring.{CircBuf}
use pi_vccu.Hm.Frame as Hm
use pi_vccu.Hm.Frame.RoundTrip.{wire, IsFrame}
use pi_vccu.FakeHmrf.{Fake, answer}
use pi_vccu.Detect.Numbers.{dst_common, dst_hmsystem, common_identify, hmsystem_identify}
use pi_vccu.Detect.Frame.{HmFrame}
use pi_vccu.Detect.Frame.Same.{of_hm_frame, try_parse-wire}
use pi_vccu.Detect.Detector.{
  Detector, start_bl, finished, send_frame, parsed_frame, on_frame, handle_frame, be24, hex_text,
}
use pi_vccu.Detect.Detector.Run.{
  handle_all, Run, change, sem_take, wait_frame, ask, second_wait, first_wait, identify_round,
  is_start_bl, is_start_app, is_finished, identify_loop, query, queried, query_loop, forget_type,
  clear_retries, then_run, begin, detect_radio_module,
}

-- A frame of the module, as the detector parses it off the line.
abbrev pub received : Hm.HmFrame → HmFrame
received k = of_hm_frame (record k { cmd = drop 5 (wire k ++ []) })

unfoldable pub handled : List Hm.HmFrame → Detector → Detector
handled [] d = d
handled (k ∷ ks) d = handled ks (parsed_frame (some (received k)) d)

abbrev pub Short : Hm.HmFrame → Type 0
Short k = IsFrame k × (k.cmdlen + 7 < 65536)

handle_all-wire :
    (ks : List Hm.HmFrame) (d : Detector) → All Short ks → handle_all (map wire ks) d ≡ handled ks d
unfolding handle_all handled handle_frame
handle_all-wire [] d h = refl
handle_all-wire (k ∷ ks) d ((v, short), h) =
    handle_all-wire ks _ h ∙ ap (λ o. handled ks (parsed_frame o d)) (try_parse-wire k v short)

ask-wire :
    (destination command : ℕ) (ks : List Hm.HmFrame) (w : List (List (List ℕ))) (d : Detector)
    → All Short ks
    → ask destination command (record { waits = map wire ks ∷ w; detector = d })
      ≡ sem_take w (handled ks (send_frame destination command d))
unfolding ask wait_frame
ask-wire destination command ks w d h = ap (sem_take w) (handle_all-wire ks _ h)

-- A round of the first loops that ends with its first answer.
pub identify_round_one :
    (ks : List Hm.HmFrame) (w : List (List (List ℕ))) (d : Detector)
    → All Short ks
    → ((handled ks (send_frame dst_common common_identify d)).sem == 0) ≡ false
    → let t = handled ks (send_frame dst_common common_identify d) in
      identify_round (record { waits = map wire ks ∷ w; detector = d })
      ≡ record { waits = w; detector = record t { sem = t.sem - 1 } }
unfolding identify_round sem_take first_wait
identify_round_one ks w d v h =
    let t = handled ks (send_frame dst_common common_identify d) in
    ap first_wait (ask-wire dst_common common_identify ks w d v)
    ∙ ap
        (λ b. first_wait (
          if b
          then (false, record { waits = w; detector = t })
          else (true, record { waits = w; detector = record t { sem = t.sem - 1 } })))
        h

-- A round that asks twice.
pub identify_round_two :
    (ks ls : List Hm.HmFrame) (w : List (List (List ℕ))) (d : Detector)
    → All Short ks
    → All Short ls
    → ((handled ks (send_frame dst_common common_identify d)).sem == 0) ≡ true
    → identify_round (record { waits = map wire ks ∷ map wire ls ∷ w; detector = d })
      ≡ second_wait (
          sem_take w (
            handled ls (
              send_frame dst_hmsystem hmsystem_identify
                (handled ks (send_frame dst_common common_identify d)))))
unfolding identify_round sem_take first_wait
identify_round_two ks ls w d v u h =
    let w' = map wire ls ∷ w in
    let t = handled ks (send_frame dst_common common_identify d) in
    ap first_wait (ask-wire dst_common common_identify ks w' d v)
    ∙ ap
        (λ b. first_wait (
          if b
          then (false, record { waits = w'; detector = t })
          else (true, record { waits = w'; detector = record t { sem = t.sem - 1 } })))
        h
    ∙ ap second_wait (ask-wire dst_hmsystem hmsystem_identify ls w t u)

-- A round of the last loop with an answer.
pub query_loop_step :
    (fuel : ℕ) (ks : List Hm.HmFrame) (w : List (List (List ℕ))) (d : Detector)
    → All Short ks
    → is_finished (query d.detect_state d).detect_state ≡ false
    → ((handled ks (query d.detect_state d)).sem == 0) ≡ false
    → let t = handled ks (query d.detect_state d) in
      query_loop (suc fuel) (record { waits = map wire ks ∷ w; detector = d })
      ≡ query_loop fuel (record { waits = w; detector = record t { sem = t.sem - 1 } })
unfolding query_loop wait_frame sem_take queried
query_loop_step fuel ks w d v g h =
    let asked = query d.detect_state d in
    let t = handled ks asked in
    ap
      (λ b.
        if b
        then some (record { waits = map wire ks ∷ w; detector = asked })
        else queried (query_loop fuel) (sem_take w (handle_all (map wire ks) asked)))
      g
    ∙ ap (λ u. queried (query_loop fuel) (sem_take w u)) (handle_all-wire ks asked v)
    ∙ ap
        (λ b. queried (query_loop fuel) (
          if b
          then (false, record { waits = w; detector = t })
          else (true, record { waits = w; detector = record t { sem = t.sem - 1 } })))
        h

-- Several such rounds, each with the one answer `k`.
abbrev pub answered : Hm.HmFrame → Detector → Detector
answered k d = let t = handled (k ∷ []) (query d.detect_state d) in record t { sem = t.sem - 1 }

unfoldable pub answered_all : List Hm.HmFrame → Detector → Detector
answered_all [] d = d
answered_all (k ∷ ks) d = answered_all ks (answered k d)

unfoldable pub Goes : List Hm.HmFrame → Detector → Type 0
Goes [] d = Unit {0}
Goes (k ∷ ks) d =
    (is_finished (query d.detect_state d).detect_state ≡ false)
    × (((handled (k ∷ []) (query d.detect_state d)).sem == 0) ≡ false)
    × Goes ks (answered k d)

abbrev pub rounds : List Hm.HmFrame → ℕ → ℕ
rounds [] fuel = fuel
rounds (k ∷ ks) fuel = suc (rounds ks fuel)

pub query_loop-answered_all :
    (ks : List Hm.HmFrame) (fuel : ℕ) (d : Detector)
    → All Short ks
    → Goes ks d
    → query_loop (rounds ks fuel) (record { waits = map (λ k. wire k ∷ []) ks; detector = d })
      ≡ query_loop fuel (record { waits = []; detector = answered_all ks d })
unfolding Goes answered_all
query_loop-answered_all [] fuel d v g = refl
query_loop-answered_all (k ∷ ks) fuel d (short, v) (going, some_left, g) =
    query_loop_step (rounds ks fuel) (k ∷ []) (map (λ k. wire k ∷ []) ks) d (short, tt) going
      some_left
    ∙ query_loop-answered_all ks fuel (answered k d) v g
