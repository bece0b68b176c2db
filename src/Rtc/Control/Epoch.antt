-- ===== src/Rtc/Control/Epoch.antt =====
-- The time after rx8130_probe of kernel/rtc-rx8130.c on a chip that reports a voltage loss.
use pi_vccu.Prelude.{
  ℕ, ◌≡◌, sym, ap, ◌∙◌, List, Option, none, some, Bool, true, false, not, ◌==◌, if◌then◌else◌,
}
use pi_vccu.Kernel.{Errno, eio, enomem}
use pi_vccu.Kernel.Call.{
  ⊤, Result, value, error, pure, gets, check, attempt, when, modify, bind_cases, value-injective,
  ◌>>=◌, ◌>>◌,
}
use pi_vccu.Rtc.{I2c, Bcd, Rtc, has_bits}
use pi_vccu.Rtc.Chip.{Registers}
use pi_vccu.Rtc.Time.{RtcTime, get_time, set_time}
use pi_vccu.Rtc.Time.RoundTrip.{IsTime, get_time_later, set_time-works}
use pi_vccu.Rtc.Control.PowerOn.{init_client-InitRun}
use pi_vccu.Rtc.Control.{ProbeCalls, probed, probe, set_up, zeroed_data, init_client}

module _ {B : Type 0} (i2c : I2c B) (chip : Registers i2c) where
  check_value : (c : Option Errno) (s t : Rtc B) → check c s ≡ (value tt, t) → t ≡ s
  check_value none s t e = sym (value-injective tt tt s t e).1
  check_value (some er) s t e = absurd cc

  -- The last step of `probe` leaves the bus alone.
  irq_line-bus :
      (c : Bool) (o : Option Errno) (s t : Rtc B)
      → when c (check o >> modify (λ (x : Rtc B). record x { irq_enabled = true })) s
        ≡ (value tt, t)
      → t.bus ≡ s.bus
  irq_line-bus true none s t e =
      ap (λ (x : Rtc B). x.bus)
        (sym (value-injective tt tt (record s { irq_enabled = true }) t e).1)
  irq_line-bus true (some er) s t e = absurd cc
  irq_line-bus false o s t e = ap (λ (x : Rtc B). x.bus) (sym (value-injective tt tt s t e).1)

  -- The states between the calls of a `set_up` that succeeds.
  record SetUp (bcd : Bcd) (epoch : RtcTime) (junk : ℕ) (s t : Rtc B) : Type 0 where
    need_reset : Bool
    s1 : Rtc B
    s2 : Rtc B
    initialised : init_client i2c s ≡ (value need_reset, s1)
    reset : when need_reset (attempt (set_time bcd i2c junk epoch) >> pure tt) s1 ≡ (value tt, s2)
    same_bus : t.bus ≡ s2.bus

  set_up-SetUp :
      (bcd : Bcd) (calls : ProbeCalls) (epoch : RtcTime) (junk : ℕ) (s t : Rtc B)
      → set_up i2c bcd calls epoch junk s ≡ (value tt, t)
      → SetUp bcd epoch junk s t
  unfolding set_up
  set_up-SetUp bcd calls epoch junk s t e =
      let line = λ (irq' : ℕ).
        when (not (irq' == 0))
          (check calls.request_irq >> modify (λ (x : Rtc B). record x { irq_enabled = true })) in
      let last = λ (r : ⊤). gets (λ (x : Rtc B). x.irq) >>= line in
      let register = λ (r : ⊤). check calls.register_device >>= last in
      let reset_time = λ (n : Bool). when n (attempt (set_time bcd i2c junk epoch) >> pure tt) in
      let (n, a, p1, q1) =
        bind_cases (λ (n : Bool). reset_time n >>= register) tt t (init_client i2c) s e in
      let (o, b, p2, q2) = bind_cases register tt t (reset_time n) a q1 in
      let (o', c, p3, q3) = bind_cases last tt t (check calls.register_device) b q2 in
      record {
        need_reset = n;
        s1 = a;
        s2 = b;
        initialised = p1;
        reset = p2;
        same_bus =
            irq_line-bus (not (c.irq == 0)) calls.request_irq c t q3
            ∙ ap (λ (x : Rtc B). x.bus) (check_value calls.register_device b c p3);
      }

  reset_done :
      (bcd : Bcd) (epoch : RtcTime) (junk : ℕ) (n : Bool) (s t : Rtc B)
      → n ≡ true
      → ((m : ℕ) (vs : List ℕ) (x : B) → (i2c.write_block_data m vs x).0 ≡ value tt)
      → when n (attempt (set_time bcd i2c junk epoch) >> pure tt) s ≡ (value tt, t)
      → set_time bcd i2c junk epoch s ≡ (value tt, t)
  reset_done bcd epoch junk true s t h works e =
      let (u, f) = set_time-works bcd i2c chip junk epoch s works in
      f
      ∙ ap (λ (x : Rtc B). (value tt, x))
          (ap (λ (p : Result ⊤ × Rtc B). p.1) (sym f)
            ∙ (value-injective tt tt (set_time bcd i2c junk epoch s).1 t e).1)
  reset_done bcd epoch junk false s t h works e = absurd cc

  probed_value :
      (b' : B) (s : Rtc B) (p : Result ⊤ × Rtc B) → probed i2c p ≡ (value s, b') → p ≡ (value tt, s)
  unfolding probed
  probed_value b' s (value u, t) e =
      ap (λ (x : Rtc B). (value tt, x)) (value-injective t s t.bus b' e).0
  probed_value b' s (error er, t) e = absurd cc

  probe_value :
      (c d : Bool) (b b' : B) (s : Rtc B) (p : Result ⊤ × Rtc B)
      → Path
          (Result (Rtc B) × B)
          (if not c then (error eio, b) else if not d then (error enomem, b) else probed i2c p)
          (value s, b')
      → p ≡ (value tt, s)
  probe_value true true b b' s p e = probed_value b' s p e
  probe_value true false b b' s p e = absurd cc
  probe_value false d b b' s p e = absurd cc

  -- After a `probe` that succeeds on a chip that reports a voltage loss, on a bus whose block writes
  -- do not fail, a `get_time` that reports success gives the time that was passed for 1970.
  pub probe-epoch :
      (bcd : Bcd) (calls : ProbeCalls) (epoch t' : RtcTime) (junk irq' : ℕ) (b b' : B) (s : Rtc B)
      (valid : RtcTime → Option Errno)
      → ((n : ℕ) (vs : List ℕ) (x : B) → (i2c.write_block_data n vs x).0 ≡ value tt)
      → IsTime epoch
      → has_bits (chip.reg b 29) 2 ≡ true
      → probe i2c bcd calls epoch junk irq' b ≡ (value s, b')
      → (get_time bcd i2c valid s).0 ≡ value t'
      → t' ≡ epoch
  unfolding probe
  probe-epoch bcd calls epoch t' junk irq' b b' s valid works h lost e f =
      let start = zeroed_data i2c irq' calls.external_capacitor b in
      let done =
        probe_value calls.functionality calls.allocated b b' s
          (set_up i2c bcd calls epoch junk start) e in
      let r = set_up-SetUp bcd calls epoch junk start s done in
      let asked =
        (init_client-InitRun i2c chip r.need_reset start r.s1 r.initialised).asked ∙ lost in
      let set = reset_done bcd epoch junk r.need_reset r.s1 r.s2 asked works r.reset in
      get_time_later bcd i2c chip valid junk epoch t' r.s1 r.s2 s h set
        (λ m. ap (λ (x : B). chip.reg x m) r.same_bus) f
