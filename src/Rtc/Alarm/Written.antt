-- ===== src/Rtc/Alarm/Written.antt =====
-- What rx8130_set_alarm of kernel/rtc-rx8130.c leaves in the registers.
use pi_vccu.Prelude.{
  ℕ, ◌+◌, ◌<◌, ◌≡◌, refl, sym, ap, subst, ◌∙◌, List, [], ◌∷◌, get_or, length, Bool, true, false,
  Bool-cases, ◌&&◌, ◌==◌, inl, inr, bit_and, bit_or, if◌then◌else◌, arith,
}
use pi_vccu.Prelude.Bits.Single.{bit, bit_or-lt, bit-bit_and, bit-bit_or}
use pi_vccu.Kernel.{einval}
use pi_vccu.Kernel.Call.{⊤, value, fail_if, fail_if_value, bind_cases, value-injective, ◌>>=◌}
use pi_vccu.Rtc.{I2c, Bcd, Rtc, read_reg, write_reg, write_regs, clear_bits, has_bits}
use pi_vccu.Rtc.Chip.{
  Registers, peek, Controlled, write_ctrlreg-Controlled, Controlled-refl, read_reg-ReadFrom,
  write_reg-WrittenTo, write_regs-BlockWritten,
}
use pi_vccu.Rtc.Masks.{clear_bits-byte, bit-clear_bits_in}
use pi_vccu.Rtc.Time.{RtcTime}
use pi_vccu.Rtc.Alarm.{RtcAlarm, set_alarm, disarm, arm, write_alarm}

module _ {B : Type 0} (i2c : I2c B) (chip : Registers i2c) where
  read_byte : (n v : ℕ) (s t : Rtc B) → read_reg i2c n s ≡ (value v, t) → v < 256
  read_byte n v s t e =
      subst (λ (x : ℕ). x < 256) (sym (read_reg-ReadFrom i2c chip n v s t e).content)
        (chip.reg_byte s.bus n)

  no_alarm_bit : (v : ℕ) → has_bits v 40 ≡ false → bit 3 v ≡ 0
  no_alarm_bit v h =
      let none_set : bit_and v 40 ≡ 0 = ground arith in
      omega (arith, bit-bit_and 3 v 40, ap (bit 3) none_set)

  -- After `disarm` the copy of the control register has no alarm bit.
  disarm-Controlled :
      (s t : Rtc B)
      → disarm i2c s ≡ (value tt, t)
      → (v : ℕ) × Controlled i2c chip v s t × (bit 3 v ≡ 0)
  unfolding disarm
  disarm-Controlled s t e = elim (Bool-cases (has_bits s.ctrlreg 40)) [
    | inl h ↦
        let off = clear_bits s.ctrlreg 40 in
        (
          off,
          write_ctrlreg-Controlled i2c chip off s t (ground arith),
          bit-clear_bits_in 3 s.ctrlreg 40 refl,
        )
    | inr h ↦ (s.ctrlreg, Controlled-refl i2c chip s t (ground arith), no_alarm_bit s.ctrlreg h)
  ]

  alarm_bit :
      (u a : Bool) (v : ℕ)
      → bit 3 v ≡ 0
      → bit 3 (let w = if u then bit_or v 32 else v in if a then bit_or w 40 else w)
        ≡ (if a then 1 else 0)
  alarm_bit true true v h = omega (arith, bit-bit_or 3 (bit_or v 32) 40, bit-bit_or 3 v 32)
  alarm_bit true false v h = omega (arith, bit-bit_or 3 v 32)
  alarm_bit false true v h = omega (arith, bit-bit_or 3 v 40)
  alarm_bit false false v h = h

  -- `arm` sets the alarm bit where the alarm is enabled and its timer runs.
  arm-Controlled :
      (on : Bool) (s t : Rtc B)
      → bit 3 s.ctrlreg ≡ 0
      → arm i2c on s ≡ (value tt, t)
      → (v : ℕ) × Controlled i2c chip v s t
        × (bit 3 v ≡ (if on && s.aie_timer_enabled then 1 else 0))
  unfolding arm
  arm-Controlled true s t h e =
      let w = if s.uie_timer_enabled then bit_or s.ctrlreg 32 else s.ctrlreg in
      let v = if s.aie_timer_enabled then bit_or w 40 else w in
      (
        v,
        write_ctrlreg-Controlled i2c chip v s t e,
        alarm_bit s.uie_timer_enabled s.aie_timer_enabled s.ctrlreg h,
      )
  arm-Controlled false s t h e =
      (s.ctrlreg, Controlled-refl i2c chip s t (value-injective tt tt s t e).1, h)

  -- What the writes in the middle leave, after the time `vs` has been written.
  record Stored (vs : List ℕ) (s t : Rtc B) : Type 0 where
    time :
        (i : ℕ)
        → i < length vs
        → get_or vs i 0 < 256
        → i < 2
        → peek i2c chip t (23 + i) ≡ get_or vs i 0
    quiet : bit 3 (peek i2c chip t 29) ≡ 0
    control : t.ctrlreg ≡ s.ctrlreg
    timer : t.aie_timer_enabled ≡ s.aie_timer_enabled

  write_alarm-Stored :
      (bcd : Bcd) (a : RtcTime) (ext flags : ℕ) (s t : Rtc B)
      → ext < 256
      → flags < 256
      → a.tm_mday < 100
      → write_alarm i2c bcd ext flags a s ≡ (value tt, t)
      → Stored (bcd.bin2bcd a.tm_min ∷ bcd.bin2bcd a.tm_hour ∷ []) s t
  unfolding write_alarm
  write_alarm-Stored bcd a ext flags s t x f d e =
      let vs = bcd.bin2bcd a.tm_min ∷ bcd.bin2bcd a.tm_hour ∷ [] in
      let day = bcd.bin2bcd a.tm_mday in
      let day' = if day == 0 then bit_or day 128 else day in
      let day_byte : day < 256 = omega (arith, bcd.bin2bcd_lem a.tm_mday d) in
      let day'_byte : day' < 256 = ground (arith, bit_or-lt 8 day 128 day_byte (omega arith)) in
      let flags' = clear_bits flags 40 in
      let third = λ (r : ⊤). write_reg i2c 29 flags' in
      let second = λ (r : ⊤). write_reg i2c 25 day' >>= third in
      let (o1, b, p1, q1) =
        bind_cases (λ (r : ⊤). write_reg i2c 28 (bit_or ext 8) >>= second) tt t
          (write_regs i2c 23 vs) s e in
      let (o2, c, p2, q2) = bind_cases second tt t (write_reg i2c 28 (bit_or ext 8)) b q1 in
      let (o3, g, p3, q3) = bind_cases third tt t (write_reg i2c 25 day') c q2 in
      let w1 = write_regs-BlockWritten i2c chip 23 vs s b p1 in
      let w2 =
        write_reg-WrittenTo i2c chip 28 (bit_or ext 8) b c (bit_or-lt 8 ext 8 x (omega arith)) p2 in
      let w3 = write_reg-WrittenTo i2c chip 25 day' c g day'_byte p3 in
      let w4 = write_reg-WrittenTo i2c chip 29 flags' g t (clear_bits-byte flags 40 f) q3 in
      record {
        time = λ i l k h.
            w4.others (23 + i) (omega arith)
            ∙ w3.others (23 + i) (omega arith)
            ∙ w2.others (23 + i) (omega arith)
            ∙ w1.stored i l k;
        quiet = ap (bit 3) w4.stored ∙ bit-clear_bits_in 3 flags 40 refl;
        control = w4.same_ctrlreg ∙ w3.same_ctrlreg ∙ w2.same_ctrlreg ∙ w1.same_ctrlreg;
        timer = w4.same_timer ∙ w3.same_timer ∙ w2.same_timer ∙ w1.same_timer;
      }

  -- What a `set_alarm` that succeeds leaves.
  pub record AlarmSet (vs : List ℕ) (on : Bool) (s t : Rtc B) : Type 0 where
    pub time :
        (i : ℕ)
        → i < length vs
        → get_or vs i 0 < 256
        → i < 2
        → peek i2c chip t (23 + i) ≡ get_or vs i 0
    pub quiet : bit 3 (peek i2c chip t 29) ≡ 0
    pub armed : bit 3 t.ctrlreg ≡ (if on && s.aie_timer_enabled then 1 else 0)

  -- The states between the calls of a `set_alarm` that succeeds.
  pub record AlarmRun (bcd : Bcd) (a : RtcAlarm) (s t : Rtc B) : Type 0 where
    ext : ℕ
    flags : ℕ
    s1 : Rtc B
    s2 : Rtc B
    s3 : Rtc B
    s4 : Rtc B
    ext_read : read_reg i2c 28 s ≡ (value ext, s1)
    flags_read : read_reg i2c 29 s1 ≡ (value flags, s2)
    disarmed : disarm i2c s2 ≡ (value tt, s3)
    written : write_alarm i2c bcd ext flags a.time s3 ≡ (value tt, s4)
    armed : arm i2c a.enabled s4 ≡ (value tt, t)

  pub set_alarm-AlarmRun :
      (bcd : Bcd) (a : RtcAlarm) (s t : Rtc B)
      → set_alarm i2c bcd a s ≡ (value tt, t)
      → AlarmRun bcd a s t
  unfolding set_alarm
  set_alarm-AlarmRun bcd a s t e =
      let last = λ (r : ⊤). arm i2c a.enabled in
      let middle = λ (ext flags : ℕ) (r : ⊤). write_alarm i2c bcd ext flags a.time >>= last in
      let begin = λ (ext flags : ℕ). disarm i2c >>= middle ext flags in
      let reads = λ (r : ⊤). read_reg i2c 28 >>= λ ext. read_reg i2c 29 >>= begin ext in
      let (o0, s', p0, q0) = bind_cases reads tt t (fail_if (s.irq == 0) einval) s e in
      let (x, b, p1, q1) =
        bind_cases (λ (ext : ℕ). read_reg i2c 29 >>= begin ext) tt t (read_reg i2c 28) s' q0 in
      let (f, c, p2, q2) = bind_cases (begin x) tt t (read_reg i2c 29) b q1 in
      let (o3, g, p3, q3) = bind_cases (middle x f) tt t (disarm i2c) c q2 in
      let (o4, k, p4, q4) = bind_cases last tt t (write_alarm i2c bcd x f a.time) g q3 in
      record {
        ext = x;
        flags = f;
        s1 = b;
        s2 = c;
        s3 = g;
        s4 = k;
        ext_read =
            subst (λ (y : Rtc B). read_reg i2c 28 y ≡ (value x, b))
              (fail_if_value (s.irq == 0) einval s s' p0).1 p1;
        flags_read = p2;
        disarmed = p3;
        written = p4;
        armed = q4;
      }

  pub set_alarm-AlarmSet :
      (bcd : Bcd) (a : RtcAlarm) (s t : Rtc B)
      → a.time.tm_mday < 100
      → AlarmRun bcd a s t
      → AlarmSet (bcd.bin2bcd a.time.tm_min ∷ bcd.bin2bcd a.time.tm_hour ∷ []) a.enabled s t
  set_alarm-AlarmSet bcd a s t d r =
      let r1 = read_reg-ReadFrom i2c chip 28 r.ext s r.s1 r.ext_read in
      let r2 = read_reg-ReadFrom i2c chip 29 r.flags r.s1 r.s2 r.flags_read in
      let (v, off, none_set) = disarm-Controlled r.s2 r.s3 r.disarmed in
      let w =
        write_alarm-Stored bcd a.time r.ext r.flags r.s3 r.s4 (read_byte 28 r.ext s r.s1 r.ext_read)
          (read_byte 29 r.flags r.s1 r.s2 r.flags_read) d r.written in
      let (v', on, set) =
        arm-Controlled a.enabled r.s4 t (ap (bit 3) (w.control ∙ off.copied) ∙ none_set) r.armed in
      let timer : r.s4.aie_timer_enabled ≡ s.aie_timer_enabled =
        w.timer ∙ off.timer ∙ r2.same_timer ∙ r1.same_timer in
      record {
        time = λ i l m h. on.elsewhere (23 + i) (omega arith) ∙ w.time i l m h;
        quiet = ap (bit 3) (on.elsewhere 29 (omega arith)) ∙ w.quiet;
        armed =
            ap (bit 3) on.copied ∙ set ∙ ap (λ (x : Bool). if a.enabled && x then 1 else 0) timer;
      }
