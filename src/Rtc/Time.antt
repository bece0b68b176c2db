-- ===== src/Rtc/Time.antt =====
-- The clock of kernel/rtc-rx8130.c: rx8130_get_time and rx8130_set_time.
pub mod RoundTrip
use pi_vccu.Prelude.{
  ℕ, ◌+◌, ◌-◌, ◌*◌, ◌/◌, ◌%◌, ◌^◌, List, [], ◌∷◌, Option, bit_and, bit_or, ltb, if◌then◌else◌,
}
use pi_vccu.Prelude.{get_or}
use pi_vccu.Kernel.{Errno}
use pi_vccu.Kernel.Call.{
  ⊤, Call, Result, value, error, pure, give, attempt, or_keep, check, modify, ◌>>=◌, ◌>>◌,
}
use pi_vccu.Rtc.{
  I2c, Bcd, Rtc, read_reg, read_regs, write_reg, write_regs, write_ctrlreg, u8, clear_bits, reg_sec,
  reg_ctrl0, bit_ctrl_stop,
}

-- `struct rtc_time`; the fields are the bit patterns of C ints.
pub record RtcTime : Type 0 where
  pub tm_sec : ℕ
  pub tm_min : ℕ
  pub tm_hour : ℕ
  pub tm_mday : ℕ
  pub tm_mon : ℕ
  pub tm_year : ℕ
  pub tm_wday : ℕ

-- `x % n` of a C int `x`: the remainder has the sign of `x`.
unfoldable pub rem_int : ℕ → ℕ → ℕ
rem_int x n = if ltb x (2 ^ 31) then x % n else (2 ^ 32 - (2 ^ 32 - x) % n) % 2 ^ 32

module _ (bcd : Bcd) where
  -- The registers of the clock as `rx8130_get_time` reads them, and as `rx8130_set_time` fills them.
  unfoldable pub time_of : List ℕ → RtcTime
  time_of date =
      let year = bcd.bcd2bin (get_or date 6 0) in
      record {
        tm_sec = bcd.bcd2bin (bit_and (get_or date 0 0) 127);
        tm_min = bcd.bcd2bin (bit_and (get_or date 1 0) 127);
        tm_hour = bcd.bcd2bin (bit_and (get_or date 2 0) 63);
        tm_mday = bcd.bcd2bin (bit_and (get_or date 4 0) 63);
        tm_mon = (bcd.bcd2bin (bit_and (get_or date 5 0) 31) + (2 ^ 32 - 1)) % 2 ^ 32;
        tm_year = if ltb year 70 then year + 100 else year;
        tm_wday = bcd.bcd2bin (bit_and (get_or date 3 0) 127);
      }

  unfoldable pub date_of : RtcTime → List ℕ
  date_of t =
      bcd.bin2bcd t.tm_sec
      ∷ bcd.bin2bcd t.tm_min
      ∷ bcd.bin2bcd t.tm_hour
      ∷ bcd.bin2bcd t.tm_wday
      ∷ bcd.bin2bcd t.tm_mday
      ∷ bcd.bin2bcd ((t.tm_mon + 1) % 2 ^ 32)
      ∷ bcd.bin2bcd (rem_int t.tm_year 100)
      ∷ []

  module _ {B : Type 0} (i2c : I2c B) where
    -- `rx8130_get_time`. `valid` is `rtc_valid_tm`, `none` for 0.
    unfoldable pub get_time : (RtcTime → Option Errno) → Call (Rtc B) RtcTime
    get_time valid = do
      date ← read_regs i2c reg_sec 7
      check (valid (time_of date))
      pure (time_of date)

    -- `rx8130_set_time`. `junk` is what the variable `ctrl` holds before it is assigned.
    unfoldable pub set_time : ℕ → RtcTime → Call (Rtc B) ⊤
    set_time junk t = do
      ctrl ← or_keep (read_reg i2c reg_ctrl0) junk
      attempt (write_ctrlreg i2c (bit_or ctrl bit_ctrl_stop))
      ret ← attempt (write_regs i2c reg_sec (date_of t))
      ctrl' ← or_keep (read_reg i2c reg_ctrl0) ctrl
      attempt (write_ctrlreg i2c (clear_bits ctrl' bit_ctrl_stop))
      give ret
