-- ===== src/Rtc/Alarm/Kept.antt =====
-- The alarm of kernel/rtc-rx8130.c that is set is the one that is read.
use pi_vccu.Prelude.{
  ℕ, ◌<◌, ◌≡◌, refl, sym, ap, ap₂, subst, ◌∙◌, List, get_or, Bool, true, false, ◌&&◌, ◌==◌, bit_and,
  if◌then◌else◌, arith,
}
use pi_vccu.Kernel.{einval}
use pi_vccu.Kernel.Call.{⊤, value, gets, fail_if, fail_if_value, bind_cases, value-injective, ◌>>=◌}
use pi_vccu.Rtc.{I2c, Bcd, Rtc, read_regs, has_bits}
use pi_vccu.Rtc.Chip.{Registers, peek, read_regs-BlockRead}
use pi_vccu.Rtc.Masks.{has_bits_one}
use pi_vccu.Rtc.Time.RoundTrip.{masked_six, masked_seven}
use pi_vccu.Rtc.Alarm.Written.{set_alarm-AlarmRun, set_alarm-AlarmSet}
use pi_vccu.Rtc.Alarm.{RtcAlarm, alarm_of, read_alarm, set_alarm}

is_set : (c : Bool) → ((if c then 1 else 0) == 1) ≡ c
is_set true = refl
is_set false = refl

module _ {B : Type 0} (i2c : I2c B) (chip : Registers i2c) where
  -- What a `read_alarm` that succeeds has read.
  record AlarmRead (bcd : Bcd) (b : RtcAlarm) (s : Rtc B) : Type 0 where
    minute : b.time.tm_min ≡ bcd.bcd2bin (bit_and (peek i2c chip s 23) 127)
    hour : b.time.tm_hour ≡ bcd.bcd2bin (bit_and (peek i2c chip s 24) 63)
    on : b.enabled ≡ has_bits s.ctrlreg 8
    due : b.pending ≡ has_bits (peek i2c chip s 29) 8 && has_bits s.ctrlreg 8

  registers_read :
      (bcd : Bcd) (b : RtcAlarm) (vs ws : List ℕ) (s s1 s2 : Rtc B)
      → read_regs i2c 23 3 s ≡ (value vs, s1)
      → read_regs i2c 28 3 s1 ≡ (value ws, s2)
      → alarm_of i2c bcd vs ws s2.ctrlreg ≡ b
      → AlarmRead bcd b s
  registers_read bcd b vs ws s s1 s2 p q e =
      let r1 = read_regs-BlockRead i2c chip 23 3 vs s s1 p in
      let r2 = read_regs-BlockRead i2c chip 28 3 ws s1 s2 q in
      let ctrl : s2.ctrlreg ≡ s.ctrlreg = r2.same_ctrlreg ∙ r1.same_ctrlreg in
      let flags : get_or ws 1 0 ≡ peek i2c chip s 29 = r2.content 1 (omega arith) ∙ r1.same 29 in
      record {
        minute =
            ap (λ (x : RtcAlarm). x.time.tm_min) (sym e)
            ∙ ap (λ (v : ℕ). bcd.bcd2bin (bit_and v 127)) (r1.content 0 (omega arith));
        hour =
            ap (λ (x : RtcAlarm). x.time.tm_hour) (sym e)
            ∙ ap (λ (v : ℕ). bcd.bcd2bin (bit_and v 63)) (r1.content 1 (omega arith));
        on = ap (λ (x : RtcAlarm). x.enabled) (sym e) ∙ ap (λ (v : ℕ). has_bits v 8) ctrl;
        due =
            ap (λ (x : RtcAlarm). x.pending) (sym e)
            ∙ ap₂ (λ (v w : ℕ). has_bits v 8 && has_bits w 8) flags ctrl;
      }

  read_alarm-AlarmRead :
      (bcd : Bcd) (b : RtcAlarm) (s t : Rtc B)
      → read_alarm i2c bcd s ≡ (value b, t)
      → AlarmRead bcd b s
  unfolding read_alarm
  read_alarm-AlarmRead bcd b s t e =
      let answer = λ (vs ws : List ℕ). gets (λ (x : Rtc B). alarm_of i2c bcd vs ws x.ctrlreg) in
      let rest = λ (vs : List ℕ). read_regs i2c 28 3 >>= answer vs in
      let (o, s0, p0, q0) =
        bind_cases (λ (r : ⊤). read_regs i2c 23 3 >>= rest) b t (fail_if (s.irq == 0) einval) s e in
      let (vs, s1, p1, q1) = bind_cases rest b t (read_regs i2c 23 3) s0 q0 in
      let (ws, s2, p2, q2) = bind_cases (answer vs) b t (read_regs i2c 28 3) s1 q1 in
      registers_read bcd b vs ws s s1 s2
        (subst (λ (y : Rtc B). read_regs i2c 23 3 y ≡ (value vs, s1))
          (fail_if_value (s.irq == 0) einval s s0 p0).1 p1)
        p2 (value-injective (alarm_of i2c bcd vs ws s2.ctrlreg) b s2 t q2).0

  -- For an alarm within its ranges: when `set_alarm` has reported success, a `read_alarm` that
  -- reports success gives its minute and hour, an alarm that is enabled exactly where it was set
  -- enabled and the alarm timer of the RTC core runs, and no pending alarm; the day is not read.
  pub read_alarm-set_alarm :
      (bcd : Bcd) (a b : RtcAlarm) (s t u : Rtc B)
      → a.time.tm_min < 60
      → a.time.tm_hour < 24
      → a.time.tm_mday < 32
      → set_alarm i2c bcd a s ≡ (value tt, t)
      → read_alarm i2c bcd t ≡ (value b, u)
      → (b.time.tm_min ≡ a.time.tm_min)
        × (b.time.tm_hour ≡ a.time.tm_hour)
        × (b.enabled ≡ a.enabled && s.aie_timer_enabled)
        × (b.pending ≡ false)
  read_alarm-set_alarm bcd a b s t u m h d e f =
      let r =
        set_alarm-AlarmSet i2c chip bcd a s t (omega arith)
          (set_alarm-AlarmRun i2c chip bcd a s t e) in
      let q = read_alarm-AlarmRead bcd b t u f in
      let minute : peek i2c chip t 23 ≡ bcd.bin2bcd a.time.tm_min =
        r.time 0 (omega arith) (omega (arith, bcd.bin2bcd_lem a.time.tm_min)) (omega arith) in
      let hour : peek i2c chip t 24 ≡ bcd.bin2bcd a.time.tm_hour =
        r.time 1 (omega arith) (omega (arith, bcd.bin2bcd_lem a.time.tm_hour)) (omega arith) in
      let no_flag : has_bits (peek i2c chip t 29) 8 ≡ false =
        has_bits_one 3 (peek i2c chip t 29) ∙ ap (λ (x : ℕ). x == 1) r.quiet in
      let armed : has_bits t.ctrlreg 8 ≡ a.enabled && s.aie_timer_enabled =
        has_bits_one 3 t.ctrlreg
        ∙ ap (λ (x : ℕ). x == 1) r.armed
        ∙ is_set (a.enabled && s.aie_timer_enabled) in
      (
        q.minute
            ∙ ap (λ (v : ℕ). bcd.bcd2bin (bit_and v 127)) minute
            ∙ masked_seven bcd a.time.tm_min (omega arith),
        q.hour
            ∙ ap (λ (v : ℕ). bcd.bcd2bin (bit_and v 63)) hour
            ∙ masked_six bcd a.time.tm_hour (omega arith),
        q.on ∙ armed,
        q.due ∙ ap (λ (x : Bool). x && has_bits t.ctrlreg 8) no_flag,
      )
