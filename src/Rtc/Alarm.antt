-- ===== src/Rtc/Alarm.antt =====
-- The alarm of kernel/rtc-rx8130.c: rx8130_read_alarm, rx8130_set_alarm and
-- rx8130_alarm_irq_enable.
pub mod Written
pub mod Kept
use pi_vccu.Prelude.{
  ℕ, ◌+◌, ◌-◌, ◌^◌, List, [], ◌∷◌, Bool, not, ◌&&◌, ◌==◌, bit_and, bit_or, get_or, if◌then◌else◌,
}
use pi_vccu.Kernel.{einval}
use pi_vccu.Kernel.Call.{⊤, Call, pure, gets, modify, fail_if, when, ◌>>=◌, ◌>>◌}
use pi_vccu.Rtc.{
  I2c, Bcd, Rtc, read_reg, read_regs, write_reg, write_regs, write_ctrlreg, clear_bits, has_bits,
  reg_almin, reg_alwday, reg_ext, reg_flag, reg_ctrl0, bit_ext_wada, bit_flag_af, bit_flag_uf,
  bit_ctrl_aie, bit_ctrl_uie,
}
use pi_vccu.Rtc.Time.{RtcTime}

-- `struct rtc_wkalrm`.
pub record RtcAlarm : Type 0 where
  pub enabled : Bool
  pub pending : Bool
  pub time : RtcTime

-- `-1` in a C int.
abbrev pub minus_one : ℕ
minus_one = 2 ^ 32 - 1

abbrev both_enables : ℕ
both_enables = bit_or bit_ctrl_aie bit_ctrl_uie

module _ {B : Type 0} where
  -- `ctrl` with the bits for the timers of the RTC core that run, as both functions set them.
  abbrev pub enable_bits : Rtc B → ℕ → ℕ
  enable_bits s ctrl =
      let updates = if s.uie_timer_enabled then bit_or ctrl bit_ctrl_uie else ctrl in
      if s.aie_timer_enabled then bit_or updates both_enables else updates

  -- `ctrl` without the bits for the timers that do not run.
  abbrev pub disable_bits : Rtc B → ℕ → ℕ
  disable_bits s ctrl =
      let updates = if s.uie_timer_enabled then ctrl else clear_bits ctrl bit_ctrl_uie in
      if s.aie_timer_enabled
      then updates
      else if s.uie_timer_enabled
      then clear_bits updates bit_ctrl_aie
      else clear_bits updates both_enables

  module _ (i2c : I2c B) where
    -- `rx8130_alarm_irq_enable`
    unfoldable pub alarm_irq_enable : Bool → Call (Rtc B) ⊤
    alarm_irq_enable enabled = do
      old ← gets (λ s. s.ctrlreg)
      ctrl ← gets (λ s. if enabled then enable_bits s old else disable_bits s old)
      flagreg ← read_reg i2c reg_flag
      write_reg i2c reg_flag (clear_bits flagreg bit_flag_af)
      when (not (ctrl == old)) (write_ctrlreg i2c ctrl)

    -- The interrupts of the alarm and the update, off where one is on.
    unfoldable pub disarm : Call (Rtc B) ⊤
    disarm = do
      old ← gets (λ s. s.ctrlreg)
      when (has_bits old both_enables) (write_ctrlreg i2c (clear_bits old both_enables))

    -- The interrupts for the timers that run, on where the alarm is enabled.
    unfoldable pub arm : Bool → Call (Rtc B) ⊤
    arm enabled = do
      ctrl ← gets (λ s. enable_bits s s.ctrlreg)
      when enabled (write_ctrlreg i2c ctrl)

    module _ (bcd : Bcd) where
      -- What `rx8130_read_alarm` makes of the registers and of `ctrlreg`.
      abbrev pub alarm_of : List ℕ → List ℕ → ℕ → RtcAlarm
      alarm_of alarmvals ctrl ctrlreg' =
          let enabled' = has_bits ctrlreg' bit_ctrl_aie in
          record {
            enabled = enabled';
            pending = has_bits (get_or ctrl 1 0) bit_flag_af && enabled';
            time = record {
              tm_sec = 0;
              tm_min = bcd.bcd2bin (bit_and (get_or alarmvals 0 0) 127);
              tm_hour = bcd.bcd2bin (bit_and (get_or alarmvals 1 0) 63);
              tm_mday = minus_one;
              tm_mon = minus_one;
              tm_year = minus_one;
              tm_wday = minus_one;
            };
          }

      -- `rx8130_read_alarm`
      unfoldable pub read_alarm : Call (Rtc B) RtcAlarm
      read_alarm = do
        irq' ← gets (λ s. s.irq)
        fail_if (irq' == 0) einval
        alarmvals ← read_regs i2c reg_almin 3
        ctrl ← read_regs i2c reg_ext 3
        gets (λ s. alarm_of alarmvals ctrl s.ctrlreg)

      -- The writes in the middle of `rx8130_set_alarm`: the time, the choice of the day, the day,
      -- and the flags.
      unfoldable pub write_alarm : ℕ → ℕ → RtcTime → Call (Rtc B) ⊤
      write_alarm extreg flagreg t = do
        let day = bcd.bin2bcd t.tm_mday
        write_regs i2c reg_almin (bcd.bin2bcd t.tm_min ∷ bcd.bin2bcd t.tm_hour ∷ [])
        write_reg i2c reg_ext (bit_or extreg bit_ext_wada)
        write_reg i2c reg_alwday (if day == 0 then bit_or day 128 else day)
        write_reg i2c reg_flag (clear_bits flagreg (bit_or bit_flag_af bit_flag_uf))

      -- `rx8130_set_alarm`
      unfoldable pub set_alarm : RtcAlarm → Call (Rtc B) ⊤
      set_alarm t = do
        irq' ← gets (λ s. s.irq)
        fail_if (irq' == 0) einval
        extreg ← read_reg i2c reg_ext
        flagreg ← read_reg i2c reg_flag
        disarm
        write_alarm extreg flagreg t.time
        arm t.enabled
