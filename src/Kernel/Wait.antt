-- ===== src/Kernel/Wait.antt =====
-- The way in which the read and write calls of the drivers sleep:
--   while (!ready) { up(sem); if (O_NONBLOCK) return -EAGAIN;
--     if (wait_event_interruptible(...)) return -ERESTARTSYS;
--     if (down_interruptible(sem)) return -ERESTARTSYS; }
-- What other threads do meanwhile, and signals, are an explicit list of wake-ups.
use pi_vccu.Prelude.{◌≡◌, List, [], ◌∷◌, Bool, true, false, if◌then◌else◌, All, arith}
use pi_vccu.Prelude.{map}
use pi_vccu.Kernel.{Errno, eagain, erestartsys}

-- One sleep: a signal ends the wait, or a signal ends the wait for the semaphore after it, or the
-- semaphore is held again. The state is the one that the other threads have left.
pub data Wake {ℓ} (S : Type ℓ) : Type ℓ where
  signalled : S → Wake S
  lock_signalled : S → Wake S
  woken : S → Wake S

-- Where the loop ends: ready with the semaphore held, with an error, or still asleep when the list
-- of wake-ups is used up.
pub data Waited {ℓ} (S : Type ℓ) : Type ℓ where
  ready : S → Waited S
  failed : Errno → S → Waited S
  asleep : S → Waited S

module _ {ℓ} {S : Type ℓ} (is_ready : S → Bool) (nonblock : Bool) where
  -- What is done with a wake-up is fixed before the next test of the loop.
  unfoldable pub wait_loop : List (Wake S) → S → Waited S
  wait_loop [] s = if is_ready s then ready s else if nonblock then failed eagain s else asleep s
  wait_loop (signalled t ∷ wakes) s =
      if is_ready s then ready s else if nonblock then failed eagain s else failed erestartsys t
  wait_loop (lock_signalled t ∷ wakes) s =
      if is_ready s then ready s else if nonblock then failed eagain s else failed erestartsys t
  wait_loop (woken t ∷ wakes) s =
      let rest = wait_loop wakes t in
      if is_ready s then ready s else if nonblock then failed eagain s else rest

  -- The loop is left by its test only where the test holds.
  pub wait_loop-ready :
      (wakes : List (Wake S)) (s t : S) → wait_loop wakes s ≡ ready t → is_ready t ≡ true
  unfolding wait_loop
  wait_loop-ready [] s t h = ground arith
  wait_loop-ready (signalled u ∷ wakes) s t h = ground arith
  wait_loop-ready (lock_signalled u ∷ wakes) s t h = ground arith
  wait_loop-ready (woken u ∷ wakes) s t h = ground (arith, wait_loop-ready wakes u t)

  -- Where the test holds at the start there is no wait, and a non-blocking call never waits.
  pub wait_loop_at_once :
      (wakes : List (Wake S)) (s : S) → is_ready s ≡ true → wait_loop wakes s ≡ ready s
  unfolding wait_loop
  wait_loop_at_once [] s h = rw h
  wait_loop_at_once (signalled t ∷ wakes) s h = rw h
  wait_loop_at_once (lock_signalled t ∷ wakes) s h = rw h
  wait_loop_at_once (woken t ∷ wakes) s h = rw h

  pub wait_loop_nonblock :
      (wakes : List (Wake S)) (s : S)
      → is_ready s ≡ false
      → nonblock ≡ true
      → wait_loop wakes s ≡ failed eagain s
  unfolding wait_loop
  wait_loop_nonblock [] s h g = rw (h, g)
  wait_loop_nonblock (signalled t ∷ wakes) s h g = rw (h, g)
  wait_loop_nonblock (lock_signalled t ∷ wakes) s h g = rw (h, g)
  wait_loop_nonblock (woken t ∷ wakes) s h g = rw (h, g)

-- Where every state of the wait has a property, so has the one that the loop leaves with.
module _ {ℓ κ} {S : Type ℓ} (P : S → Type κ) where
  abbrev pub WakeHas : Wake S → Type κ
  WakeHas (signalled t) = P t
  WakeHas (lock_signalled t) = P t
  WakeHas (woken t) = P t

  abbrev pub WaitedHas : Waited S → Type κ
  WaitedHas (ready t) = P t
  WaitedHas (failed e t) = P t
  WaitedHas (asleep t) = P t

  both :
      (b nb : Bool) (x y z : Waited S)
      → WaitedHas x
      → WaitedHas y
      → WaitedHas z
      → WaitedHas (if b then x else if nb then y else z)
  both true nb x y z p q r = p
  both false true x y z p q r = q
  both false false x y z p q r = r

  pub wait_loop-has :
      (is_ready : S → Bool) (nonblock : Bool) (wakes : List (Wake S)) (s : S)
      → P s
      → All WakeHas wakes
      → WaitedHas (wait_loop is_ready nonblock wakes s)
  unfolding wait_loop
  wait_loop-has is_ready nonblock [] s h all =
      both (is_ready s) nonblock (ready s) (failed eagain s) (asleep s) h h h
  wait_loop-has is_ready nonblock (signalled t ∷ wakes) s h all =
      both (is_ready s) nonblock (ready s) (failed eagain s) (failed erestartsys t) h h all.0
  wait_loop-has is_ready nonblock (lock_signalled t ∷ wakes) s h all =
      both (is_ready s) nonblock (ready s) (failed eagain s) (failed erestartsys t) h h all.0
  wait_loop-has is_ready nonblock (woken t ∷ wakes) s h all =
      both (is_ready s) nonblock (ready s) (failed eagain s) _ h h
        (wait_loop-has is_ready nonblock wakes t all.0 all.1)

-- The state of the last wake-up.
abbrev pub last_state {ℓ} : {S : Type ℓ} → S → List S → S
last_state s [] = s
last_state s (t ∷ states) = last_state t states

-- Where the test fails in every state, a call that may sleep never leaves the loop.
module _ {ℓ} {S : Type ℓ} (is_ready : S → Bool) where
  -- The loop ends in the last of these states.
  pub wait_loop-stuck :
      (states : List S) (s : S)
      → is_ready s ≡ false
      → All (λ t. is_ready t ≡ false) states
      → wait_loop is_ready false (map woken states) s ≡ asleep (last_state s states)
  unfolding wait_loop
  wait_loop-stuck [] s h all = rw h
  wait_loop-stuck (t ∷ states) s h all = rw h (wait_loop-stuck states t all.0 all.1)
