-- ===== src/Rtc/Control/Interrupt.antt =====
-- The interrupt of kernel/rtc-rx8130.c: rx8130_irq and rx8130_work.
use pi_vccu.Prelude.{
  ℕ, zero, suc, ap, ◌∙◌, ◌-◌, ◌^◌, ◌<◌, ◌≡◌, ◌≢◌, refl, sym, subst, ap₂, List, [], ◌∷◌, ◌++◌,
  append_assoc, true, false, ◌==◌, if◌then◌else◌, arith,
}
use pi_vccu.Prelude.Bits.Single.{bit}
use pi_vccu.Kernel.Call.{⊤, Result, value, ◌>>=◌, bind_value, bind_cases, Call}
use pi_vccu.Rtc.{I2c, Rtc, read_reg, write_reg, RtcEvent, periodic_event, alarm_event, update_event}
use pi_vccu.Rtc.Chip.{Registers, peek, read_reg-ReadFrom, write_reg-WrittenTo}
use pi_vccu.Rtc.Masks.{drop_bit, bit-drop_bit, bit-drop_bit_in, drop_bit-byte, has_bits_one}
use pi_vccu.Rtc.Control.{report, irq_handler, acknowledge, work}

-- The event for flag bit `k`, where it is set.
unfoldable pub noted : ℕ → RtcEvent → ℕ → List RtcEvent
noted k event flags = if bit k flags == 1 then event ∷ [] else []

-- The events of the flag bits 4, 3 and 5, the last one first.
pub events_of : ℕ → List RtcEvent
events_of flags =
    noted 5 update_event flags ++ noted 3 alarm_event flags ++ noted 4 periodic_event flags

abbrev rest_of : ℕ → ℕ
rest_of v = drop_bit (drop_bit (drop_bit v 16) 8) 32

-- The masks of `rx8130_work` have every other bit.
masks_keep :
    (k : ℕ)
    → k < 8
    → k ≢ 3
    → k ≢ 4
    → k ≢ 5
    → (bit k (255 - 16) ≡ 1) × (bit k (255 - 8) ≡ 1) × (bit k (255 - 32) ≡ 1)
masks_keep zero h a b c = (refl, refl, refl)
masks_keep (suc zero) h a b c = (refl, refl, refl)
masks_keep (suc (suc zero)) h a b c = (refl, refl, refl)
masks_keep (suc (suc (suc zero))) h a b c = absurd (a refl)
masks_keep (suc (suc (suc (suc zero)))) h a b c = absurd (b refl)
masks_keep (suc (suc (suc (suc (suc zero))))) h a b c = absurd (c refl)
masks_keep (suc (suc (suc (suc (suc (suc zero)))))) h a b c = (refl, refl, refl)
masks_keep (suc (suc (suc (suc (suc (suc (suc zero))))))) h a b c = (refl, refl, refl)
masks_keep (suc (suc (suc (suc (suc (suc (suc (suc k)))))))) h a b c = absurd (omega arith)

rest_of_kept : (v k : ℕ) → k < 8 → k ≢ 3 → k ≢ 4 → k ≢ 5 → bit k (rest_of v) ≡ bit k v
rest_of_kept v k h a b c =
    let (p, q, r) = masks_keep k h a b c in
    bit-drop_bit k 5 (drop_bit (drop_bit v 16) 8) r
    ∙ bit-drop_bit k 3 (drop_bit v 16) q
    ∙ bit-drop_bit k 4 v p

rest_of_cleared :
    (v : ℕ) → (bit 3 (rest_of v) ≡ 0) × (bit 4 (rest_of v) ≡ 0) × (bit 5 (rest_of v) ≡ 0)
rest_of_cleared v =
    let two = drop_bit (drop_bit v 16) 8 in
    (
      bit-drop_bit 3 5 two refl ∙ bit-drop_bit_in 3 (drop_bit v 16) refl,
      bit-drop_bit 4 5 two refl ∙ bit-drop_bit 4 3 (drop_bit v 16) refl ∙ bit-drop_bit_in 4 v refl,
      bit-drop_bit_in 5 two refl,
    )

noted-drop_bit :
    (j k v : ℕ) (event : RtcEvent)
    → bit j (255 - 2 ^ k) ≡ 1
    → noted j event (drop_bit v (2 ^ k)) ≡ noted j event v
unfolding noted
noted-drop_bit j k v event h = rw (bit-drop_bit j k v h)

-- The flags that are still there when they are tested are those of the register.
same_events :
    (v : ℕ) (es : List RtcEvent)
    → noted 5 update_event (drop_bit (drop_bit v 16) 8)
        ++ (noted 3 alarm_event (drop_bit v 16) ++ (noted 4 periodic_event v ++ es))
      ≡ events_of v ++ es
unfolding events_of
same_events v es =
    let a =
      noted-drop_bit 5 3 (drop_bit v 16) update_event refl
      ∙ noted-drop_bit 5 4 v update_event refl in
    let b = noted-drop_bit 3 4 v alarm_event refl in rw (a, b) (grind (arith, append_assoc))

rest_of-byte : (v : ℕ) → v < 256 → rest_of v < 256
rest_of-byte v h =
    let one = drop_bit-byte v 16 h in
    drop_bit-byte (drop_bit (drop_bit v 16) 8) 32 (drop_bit-byte (drop_bit v 16) 8 one)

module _ {B : Type 0} (i2c : I2c B) (chip : Registers i2c) where
  -- What the work has done when its last write succeeded.
  pub record Acknowledged (s t : Rtc B) : Type 0 where
    pub cleared :
        (bit 3 (peek i2c chip t 29) ≡ 0)
        × (bit 4 (peek i2c chip t 29) ≡ 0)
        × (bit 5 (peek i2c chip t 29) ≡ 0)
    pub kept_flags :
        (k : ℕ)
        → k < 8
        → k ≢ 3
        → k ≢ 4
        → k ≢ 5
        → bit k (peek i2c chip t 29) ≡ bit k (peek i2c chip s 29)
    pub other_registers : (n : ℕ) → n ≢ 29 → peek i2c chip t n ≡ peek i2c chip s n
    pub reported : t.events ≡ events_of (peek i2c chip s 29) ++ s.events

  acknowledge-keeps :
      (s : Rtc B)
      → (let t = (acknowledge i2c s).1 in
          (t.work_pending ≡ s.work_pending) × (t.exiting ≡ s.exiting))
  unfolding acknowledge report read_reg write_reg
  acknowledge-keeps s = ground arith

  -- After the interrupt and its work, whatever failed on the bus, no work is pending, and the
  -- interrupt is enabled again unless the driver is being removed.
  pub work-irq_handler :
      (s : Rtc B)
      → (let t = work i2c (irq_handler s) in
          (t.work_pending ≡ false) × (s.exiting ≡ false → t.irq_enabled ≡ true))
  unfolding work irq_handler
  work-irq_handler s =
      ground (arith, acknowledge-keeps (record s { irq_enabled = false; work_pending = false }))

  -- One flag.
  report_lem :
      (k v : ℕ) (event : RtcEvent) (s : Rtc B)
      → report (2 ^ k) event v s
        ≡ (value (drop_bit v (2 ^ k)), record s { events = noted k event v ++ s.events })
  unfolding report drop_bit noted
  report_lem k v event s = rw (has_bits_one k v) (ground arith)

  -- The value that is written, and the events, when the flags `v` are read.
  flags_cleared : ℕ → Rtc B → Result ⊤ × Rtc B
  flags_cleared v t = write_reg i2c 29 (rest_of v) (record t { events = events_of v ++ t.events })

  -- What `acknowledge` does with the flags.
  abbrev clear_flags : ℕ → Call (Rtc B) ⊤
  clear_flags v = do
    after_periodic ← report 16 periodic_event v
    after_alarm ← report 8 alarm_event after_periodic
    rest ← report 32 update_event after_alarm
    write_reg i2c 29 rest

  report_all : (v : ℕ) (t : Rtc B) → clear_flags v t ≡ flags_cleared v t
  unfolding flags_cleared write_reg
  report_all v t =
      let one = drop_bit v 16 in
      let two = drop_bit one 8 in
      let t' = record t { events = noted 4 periodic_event v ++ t.events } in
      let t'' = record t' { events = noted 3 alarm_event one ++ t'.events } in
      bind_value (report 16 periodic_event v)
        (λ v'. report 8 alarm_event v' >>= λ v''.
          report 32 update_event v'' >>= λ rest. write_reg i2c 29 rest)
        t one t' (report_lem 4 v periodic_event t)
      ∙ bind_value (report 8 alarm_event one)
          (λ v''. report 32 update_event v'' >>= λ rest. write_reg i2c 29 rest) t' two t''
          (report_lem 3 one alarm_event t')
      ∙ bind_value (report 32 update_event two) (λ rest. write_reg i2c 29 rest) t'' (rest_of v)
          (record t'' { events = noted 5 update_event two ++ t''.events })
          (report_lem 5 two update_event t'')
      ∙ ap (λ (es : List RtcEvent). write_reg i2c 29 (rest_of v) (record t { events = es }))
          (same_events v t.events)

  -- When the work's last write succeeds, the flag bits of the timer, the alarm and the update are 0,
  -- every other flag and every other register is as it was, and the RTC core has got one event for
  -- each of the three flags that was set.
  pub acknowledge-Acknowledged :
      (s t : Rtc B) → acknowledge i2c s ≡ (value tt, t) → Acknowledged s t
  unfolding acknowledge flags_cleared write_reg
  acknowledge-Acknowledged s t e =
      let (v, u, f, g) = bind_cases clear_flags tt t (read_reg i2c 29) s e in
      let r = read_reg-ReadFrom i2c chip 29 v s u f in
      let w = record u { events = events_of v ++ u.events } in
      let h : write_reg i2c 29 (rest_of v) w ≡ (value tt, t) = sym (report_all v u) ∙ g in
      let byte =
        rest_of-byte v (subst (λ (x : ℕ). x < 256) (sym r.content) (chip.reg_byte s.bus 29)) in
      let a = write_reg-WrittenTo i2c chip 29 (rest_of v) w t byte h in
      let c = rest_of_cleared v in
      record {
        cleared = rw a.stored c;
        kept_flags =
            λ k l x y z. ap (bit k) a.stored ∙ rest_of_kept v k l x y z ∙ ap (bit k) r.content;
        other_registers = λ n l. a.others n l ∙ r.same n;
        reported =
            a.same_events
            ∙ ap₂ (λ (x : ℕ) (es : List RtcEvent). events_of x ++ es) r.content r.same_events;
      }
