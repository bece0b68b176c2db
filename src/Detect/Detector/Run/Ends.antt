-- ===== src/Detect/Detector/Run/Ends.antt =====
-- detectRadioModule of detect_radio_module/radiomoduledetector.cpp ends.
use pi_vccu.Prelude.{
  ℕ, zero, suc, ◌+◌, ◌-◌, ◌<◌, ◌≤◌, ◌≡◌, refl, ap, ◌∙◌, ◌⊎◌, inl, inr, List, [], ◌∷◌, Option, some,
  Bool, true, false, ltb, ◌==◌, ◌&&◌, on_test, length, arith,
}
use pi_vccu.Detect.Detector.{DetectState, Detector, send_frame, handle_frame, start_bl}
use pi_vccu.Detect.Detector.Moves.{handle_frame-Moves}
use pi_vccu.Detect.Detector.Run.{
  handle_all, Run, change, sem_take, wait_frame, ask, second_wait, first_wait, identify_round,
  is_start_bl, is_start_app, is_finished, identify_loop, query, queried, query_loop, forget_type,
  clear_retries, then_run, begin, detect_radio_module, arrivals,
}

-- What may still wake the main thread.
abbrev pub supply : Run → ℕ
supply r = r.detector.sem + arrivals r.waits

abbrev retries : Run → ℕ
retries r = r.detector.detect_retry_count

handle_all-sem :
    (frames : List (List ℕ)) (d : Detector)
    → ((handle_all frames d).sem ≤ d.sem + length frames)
      × ((handle_all frames d).detect_retry_count ≡ d.detect_retry_count)
unfolding handle_all
handle_all-sem [] d = (omega arith, refl)
handle_all-sem (buffer ∷ frames) d =
    let m = handle_frame-Moves buffer d in
    let (sem, same) = handle_all-sem frames (handle_frame buffer d) in
    (one (handle_frame buffer d).sem d.sem _ (length frames) m.once sem, same ∙ m.retries)
  where
    one : (t s u n : ℕ) → (t ≡ s) ⊎ (t ≡ s + 1) → u ≤ t + n → u ≤ s + suc n
    one t s u n (inl e) h = omega arith
    one t s u n (inr e) h = omega arith

-- An answer uses up one of `n`; a timeout none.
unfoldable Answered : ℕ → ℕ → Bool × Run → Type 0
Answered n m (true, r) = (supply r < n) × (retries r ≡ m)
Answered n m (false, r) = (supply r ≤ n) × (retries r ≡ m)

sem_take-Answered :
    (waits : List (List (List ℕ))) (d : Detector) (n m : ℕ)
    → d.sem + arrivals waits ≤ n
    → d.detect_retry_count ≡ m
    → Answered n m (sem_take waits d)
unfolding sem_take Answered
sem_take-Answered waits d n m h e =
    on_test (Answered n m) (d.sem == 0) _ _ (λ z. (h, e)) (λ z. (ground arith, e))

wait_frame-Answered :
    (waits : List (List (List ℕ))) (d : Detector) (n m : ℕ)
    → d.sem + arrivals waits ≤ n
    → d.detect_retry_count ≡ m
    → Answered n m (wait_frame waits d)
unfolding wait_frame arrivals
wait_frame-Answered [] d n m h e = sem_take-Answered [] d n m h e
wait_frame-Answered (frames ∷ waits) d n m h e =
    let (sem, same) = handle_all-sem frames d in
    sem_take-Answered waits (handle_all frames d) n m (omega (arith, sem, h)) (same ∙ e)

ask-Answered :
    (destination command : ℕ) (r : Run) (n m : ℕ)
    → supply r ≤ n
    → retries r ≡ m
    → Answered n m (ask destination command r)
unfolding ask send_frame
ask-Answered destination command r n m h e = wait_frame-Answered r.waits _ n m h e

-- A round uses up an answer or a retry.
unfoldable Progress : ℕ → ℕ → Run → Type 0
Progress n m r = ((supply r < n) × (retries r ≡ m)) ⊎ ((supply r ≤ n) × (retries r ≡ m + 1))

second_wait-Progress : (n m : ℕ) (a : Bool × Run) → Answered n m a → Progress n m (second_wait a)
unfolding Answered Progress second_wait
second_wait-Progress n m (true, r) h = inl h
second_wait-Progress n m (false, r) (h, e) = inr (h, ap (λ k. k + 1) e)

first_wait-Progress : (n m : ℕ) (a : Bool × Run) → Answered n m a → Progress n m (first_wait a)
unfolding Answered Progress first_wait
first_wait-Progress n m (true, r) h = inl h
first_wait-Progress n m (false, r) (h, e) = second_wait-Progress n m _ (ask-Answered _ _ r n m h e)

identify_round-Progress : (r : Run) → Progress (supply r) (retries r) (identify_round r)
unfolding identify_round
identify_round-Progress r =
    first_wait-Progress (supply r) (retries r) _
      (ask-Answered _ _ r (supply r) (retries r) (omega arith) refl)

goes_down :
    (n m : ℕ) (r : Run)
    → Progress n m r
    → m < 3
    → (supply r ≤ n) × (supply r + (3 - retries r) < n + (3 - m))
unfolding Progress
goes_down n m r (inl (h, e)) l = (omega arith, omega arith)
goes_down n m r (inr (h, e)) l = (h, omega arith)

-- A loop that has ended, with no more than `n` left.
pub record Ended (n : ℕ) (o : Option Run) : Type 0 where
  pub run : Run
  pub result : o ≡ some run
  pub left : supply run ≤ n

identify_loop-Ended :
    (stays : DetectState → Bool) (prepare : Detector → Detector) (fuel : ℕ) (r : Run) (n : ℕ)
    → ((d : Detector) → (prepare d).sem ≡ d.sem)
    → ((d : Detector) → (prepare d).detect_retry_count ≡ d.detect_retry_count)
    → supply r ≤ n
    → supply r + (3 - retries r) < fuel
    → Ended n (identify_loop stays prepare fuel r)
unfolding identify_loop
identify_loop-Ended stays prepare zero r n ks kr h g = absurd (omega arith)
identify_loop-Ended stays prepare (suc fuel) r n ks kr h g =
    on_test (Ended n) (stays r.detector.detect_state && ltb (retries r) 3) _ _
      (λ t.
        let start = change prepare r in
        let same : supply start ≡ supply r = ap (λ k. k + arrivals r.waits) (ks r.detector) in
        let tries : retries start ≡ retries r = kr r.detector in
        let left : retries r < 3 = ground arith in
        let (less, measure) =
          goes_down (supply start) (retries start) (identify_round start)
            (identify_round-Progress start) (omega arith) in
        identify_loop-Ended stays prepare fuel (identify_round start) n ks kr (omega arith)
          (omega arith))
      (λ t. record { run = r; result = refl; left = h })

query-sem : (s : DetectState) (d : Detector) → (query s d).sem ≡ d.sem
unfolding query send_frame
query-sem start_bl d = refl
query-sem s d = refl

queried-Ended :
    (fuel n k m : ℕ) (a : Bool × Run)
    → Answered k m a
    → k ≤ n
    → ((s : Run) → supply s < k → Ended n (query_loop fuel s))
    → Ended n (queried (query_loop fuel) a)
unfolding Answered queried
queried-Ended fuel n k m (true, s) (h, e) l ih = ih s h
queried-Ended fuel n k m (false, s) (h, e) l ih = record {
  run = s;
  result = refl;
  left = omega (arith, h, l);
}

query_loop-Ended :
    (fuel : ℕ) (r : Run) (n : ℕ) → supply r ≤ n → supply r < fuel → Ended n (query_loop fuel r)
unfolding query_loop
query_loop-Ended zero r n h g = absurd (omega arith)
query_loop-Ended (suc fuel) r n h g =
    let asked = query r.detector.detect_state r.detector in
    let same = query-sem r.detector.detect_state r.detector in
    on_test (Ended n) (is_finished asked.detect_state) _ _
      (λ t. record {
        run = record r { detector = asked };
        result = refl;
        left = omega (arith, same, h);
      })
      (λ t.
        queried-Ended fuel n (supply r) asked.detect_retry_count _
          (wait_frame-Answered r.waits asked (supply r) asked.detect_retry_count
            (omega (arith, same)) refl)
          h (λ s l. query_loop-Ended fuel s n (omega arith) (omega arith)))

then_run-Ended :
    (n : ℕ) (o : Option Run) (next : Run → Option Run)
    → Ended n o
    → ((r : Run) → supply r ≤ n → Ended n (next r))
    → Ended n (then_run o next)
unfolding then_run
then_run-Ended n o next e h =
    let t = h e.run e.left in
    record { run = t.run; result = ap (λ x. then_run x next) e.result ∙ t.result; left = t.left }

-- With fuel for three rounds more than frames arrive in its waits, the detection ends, whatever
-- these frames are and from whatever state of the detector.
pub detect_radio_module-ends :
    (fuel : ℕ) (r : Run)
    → arrivals r.waits + 3 < fuel
    → (s : Run) × (detect_radio_module fuel r ≡ some s)
unfolding detect_radio_module begin
detect_radio_module-ends fuel r h =
    let n = arrivals r.waits in
    let all =
      then_run-Ended n _ _
        (identify_loop-Ended is_start_bl forget_type fuel (change begin r) n (λ d. refl) (λ d. refl)
          (omega arith) (omega arith))
        (λ s l.
          then_run-Ended n _ _
            (identify_loop-Ended is_start_app (λ d. d) fuel (change clear_retries s) n (λ d. refl)
              (λ d. refl) l (omega arith))
            (λ t m. query_loop-Ended fuel t n m (omega arith))) in
    (all.run, all.result)
