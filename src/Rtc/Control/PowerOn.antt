-- ===== src/Rtc/Control/PowerOn.antt =====
-- What rx8130_init_client of kernel/rtc-rx8130.c makes of a chip that reports a
-- voltage loss or an event.
use pi_vccu.Prelude.{
  ℕ, ◌<◌, ◌≡◌, refl, sym, ap, subst, ◌∙◌, List, get_or, Bool, true, false, ==-refl, not, ◌||◌, ◌==◌,
  bit_or, if◌then◌else◌, arith,
}
use pi_vccu.Prelude.Bits.Single.{bit, bit_or_five_set, bit_or_three_set}
use pi_vccu.Kernel.Call.{
  ⊤, Call, value, pure, when, modify, bind_cases, value-injective, ◌>>=◌, ◌>>◌,
}
use pi_vccu.Rtc.{I2c, Rtc, read_reg, read_regs, write_reg, write_ctrlreg, clear_bits, has_bits}
use pi_vccu.Rtc.Chip.{Registers, peek, read_reg-ReadFrom, write_reg-WrittenTo, read_regs-BlockRead}
use pi_vccu.Rtc.Masks.{clear_bits-byte, bit-clear_bits}
use pi_vccu.Rtc.Alarm.{enable_bits, alarm_irq_enable}
use pi_vccu.Rtc.Control.{init_client, charge_capacitor, clear_registers}

-- A flag of the chip asks for the registers to be cleared.
abbrev pub NeedsClear : ℕ → Type 0
NeedsClear flags =
    (has_bits flags 2 || (has_bits flags 8 || has_bits flags 16 || has_bits flags 32)) ≡ true

module _ {B : Type 0} (i2c : I2c B) (chip : Registers i2c) where
  -- What a call leaves that may write registers other than `CTRL0`.
  charge_capacitor-same :
      (v : ℕ) (s t : Rtc B) → charge_capacitor i2c v s ≡ (value tt, t) → t.ctrlreg ≡ s.ctrlreg
  unfolding charge_capacitor write_reg
  charge_capacitor-same v s t e = ground arith

  clear_registers-same :
      (flags : ℕ) (s t : Rtc B)
      → clear_registers i2c flags s ≡ (value tt, t)
      → t.ctrlreg ≡ s.ctrlreg
  unfolding clear_registers write_reg
  clear_registers-same flags s t e = ground arith

  clear_registers-cleared :
      (flags : ℕ) (s t : Rtc B)
      → NeedsClear flags
      → clear_registers i2c flags s ≡ (value tt, t)
      → peek i2c chip t 30 ≡ 0
  unfolding clear_registers
  clear_registers-cleared flags s t h e =
      let run : (write_reg i2c 29 0 >> write_reg i2c 30 0) s ≡ (value tt, t) = ground arith in
      let (o, u, p, q) =
        bind_cases (λ (r : ⊤). write_reg i2c 30 0) tt t (write_reg i2c 29 0) s run in
      let b = write_reg-WrittenTo i2c chip 30 0 u t (omega arith) q in b.stored

  -- What an `init_client` that succeeds leaves: the driver's copy is the register from before, and
  -- where a flag was set the register itself is 0.
  pub record InitRun (need_reset : Bool) (s t : Rtc B) : Type 0 where
    pub copied : t.ctrlreg ≡ clear_bits (peek i2c chip s 30) 128
    pub asked : need_reset ≡ has_bits (peek i2c chip s 29) 2
    pub emptied : NeedsClear (peek i2c chip s 29) → peek i2c chip t 30 ≡ 0

  init_run :
      (need_reset : Bool) (ctrl : List ℕ) (s a b c t : Rtc B)
      → read_regs i2c 28 3 s ≡ (value ctrl, a)
      → charge_capacitor i2c
          (get_or ctrl 2 0)
          (record b { ctrlreg = clear_bits (get_or ctrl 2 0) 128 })
        ≡ (value tt, c)
      → clear_registers i2c (get_or ctrl 1 0) c ≡ (value tt, t)
      → has_bits (get_or ctrl 1 0) 2 ≡ need_reset
      → InitRun need_reset s t
  init_run need_reset ctrl s a b c t p q r n =
      let got = read_regs-BlockRead i2c chip 28 3 ctrl s a p in
      let flags : get_or ctrl 1 0 ≡ peek i2c chip s 29 = got.content 1 (omega arith) in
      let ctrl0 : get_or ctrl 2 0 ≡ peek i2c chip s 30 = got.content 2 (omega arith) in
      let charged =
        charge_capacitor-same (get_or ctrl 2 0)
          (record b { ctrlreg = clear_bits (get_or ctrl 2 0) 128 }) c q in
      record {
        copied =
            clear_registers-same (get_or ctrl 1 0) c t r
            ∙ charged
            ∙ ap (λ (x : ℕ). clear_bits x 128) ctrl0;
        asked = sym n ∙ ap (λ (x : ℕ). has_bits x 2) flags;
        emptied =
            λ h. clear_registers-cleared (get_or ctrl 1 0) c t (subst NeedsClear (sym flags) h) r;
      }

  pub init_client-InitRun :
      (need_reset : Bool) (s t : Rtc B)
      → init_client i2c s ≡ (value need_reset, t)
      → InitRun need_reset s t
  unfolding init_client
  init_client-InitRun need_reset s t e =
      let last = λ (ctrl : List ℕ) (r : ⊤). pure (has_bits (get_or ctrl 1 0) 2) in
      let clear = λ (ctrl : List ℕ) (r : ⊤). clear_registers i2c (get_or ctrl 1 0) >>= last ctrl in
      let charge =
        λ (ctrl : List ℕ) (r : ⊤). charge_capacitor i2c (get_or ctrl 2 0) >>= clear ctrl in
      let copy = λ (ctrl : List ℕ) (r : ⊤).
        modify (λ (s : Rtc B). record s { ctrlreg = clear_bits (get_or ctrl 2 0) 128 })
        >>= charge ctrl in
      let ext = λ (ctrl : List ℕ). bit_or (clear_bits (clear_bits (get_or ctrl 0 0) 16) 192) 2 in
      let (ctrl, a, p1, q1) =
        bind_cases (λ (ctrl : List ℕ). write_reg i2c 28 (ext ctrl) >>= copy ctrl) need_reset t
          (read_regs i2c 28 3) s e in
      let (o2, b, p2, q2) =
        bind_cases (copy ctrl) need_reset t (write_reg i2c 28 (ext ctrl)) a q1 in
      let (o3, c, p3, q3) =
        bind_cases (clear ctrl) need_reset t (charge_capacitor i2c (get_or ctrl 2 0))
          (record b { ctrlreg = clear_bits (get_or ctrl 2 0) 128 }) q2 in
      let (o4, d, p4, q4) =
        bind_cases (last ctrl) need_reset t (clear_registers i2c (get_or ctrl 1 0)) c q3 in
      let end = value-injective (has_bits (get_or ctrl 1 0) 2) need_reset d t q4 in
      init_run need_reset ctrl s a b c t p1 p3
        (subst (λ (x : Rtc B). clear_registers i2c (get_or ctrl 1 0) c ≡ (value tt, x)) end.1 p4)
        end.0

  set_already :
      (u a : Bool) (v : ℕ)
      → bit 3 v ≡ 1
      → bit 5 v ≡ 1
      → (let w = if u then bit_or v 32 else v in if a then bit_or w 40 else w) ≡ v
  set_already true true v h g = rw (bit_or_five_set v g) (bit_or_three_set v h g)
  set_already true false v h g = bit_or_five_set v g
  set_already false true v h g = bit_or_three_set v h g
  set_already false false v h g = refl

  skipped_write :
      (c : Bool) (m : Call (Rtc B) ⊤) (s t : Rtc B)
      → c ≡ true
      → when (not c) m s ≡ (value tt, t)
      → t ≡ s
  skipped_write true m s t h e = sym (value-injective tt tt s t e).1
  skipped_write false m s t h e = absurd cc

  -- Enabling the alarm's interrupt writes no control register where the copy has the bits already.
  alarm_irq_enable-idle :
      (s t : Rtc B)
      → bit 3 s.ctrlreg ≡ 1
      → bit 5 s.ctrlreg ≡ 1
      → alarm_irq_enable i2c true s ≡ (value tt, t)
      → peek i2c chip t 30 ≡ peek i2c chip s 30
  unfolding alarm_irq_enable
  alarm_irq_enable-idle s t h g e =
      let ctrl = enable_bits s s.ctrlreg in
      let same : ctrl ≡ s.ctrlreg =
        set_already s.uie_timer_enabled s.aie_timer_enabled s.ctrlreg h g in
      let last = λ (r : ⊤). when (not (ctrl == s.ctrlreg)) (write_ctrlreg i2c ctrl) in
      let (v, a, p, q) =
        bind_cases (λ (v : ℕ). write_reg i2c 29 (clear_bits v 8) >>= last) tt t (read_reg i2c 29) s
          e in
      let (o, b, p', q') = bind_cases last tt t (write_reg i2c 29 (clear_bits v 8)) a q in
      let equal : (ctrl == s.ctrlreg) ≡ true =
        ap (λ (x : ℕ). x == s.ctrlreg) same ∙ ==-refl s.ctrlreg in
      let read = read_reg-ReadFrom i2c chip 29 v s a p in
      let byte = subst (λ (x : ℕ). x < 256) (sym read.content) (chip.reg_byte s.bus 29) in
      let written =
        write_reg-WrittenTo i2c chip 29 (clear_bits v 8) a b (clear_bits-byte v 8 byte) p' in
      let skipped = skipped_write (ctrl == s.ctrlreg) (write_ctrlreg i2c ctrl) b t equal q' in
      ap (λ (x : Rtc B). peek i2c chip x 30) skipped
      ∙ written.others 30 (omega arith)
      ∙ read.same 30

  -- On a chip that reports a voltage loss or an event, and whose register `CTRL0` has the alarm and
  -- the update bit set: an `init_client` that succeeds leaves that register 0. A call that enables the
  -- alarm's interrupt, directly behind it, and that reports success, still leaves it 0: the interrupt
  -- stays off.
  pub alarm_irq_enable-init_client :
      (need_reset : Bool) (s t u : Rtc B)
      → NeedsClear (peek i2c chip s 29)
      → bit 3 (peek i2c chip s 30) ≡ 1
      → bit 5 (peek i2c chip s 30) ≡ 1
      → init_client i2c s ≡ (value need_reset, t)
      → alarm_irq_enable i2c true t ≡ (value tt, u)
      → (peek i2c chip t 30 ≡ 0) × (peek i2c chip u 30 ≡ 0)
  alarm_irq_enable-init_client need_reset s t u h a b e f =
      let r = init_client-InitRun need_reset s t e in
      let v = peek i2c chip s 30 in
      let empty = r.emptied h in
      let alarm = ap (bit 3) r.copied ∙ bit-clear_bits 3 v 128 refl ∙ a in
      let update = ap (bit 5) r.copied ∙ bit-clear_bits 5 v 128 refl ∙ b in
      (empty, alarm_irq_enable-idle t u alarm update f ∙ empty)
