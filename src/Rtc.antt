-- ===== src/Rtc.antt =====
-- The state of kernel/rtc-rx8130.c: `struct rx8130_data`, the chip on its I2C bus and what the RTC
-- core sees, and the functions that read and write the chip's registers.
pub mod Chip
pub mod Masks
pub mod Time
pub mod Alarm
pub mod Control
mod Tests
use pi_vccu.Prelude.{
  ℕ, ◌+◌, ◌-◌, ◌*◌, ◌/◌, ◌%◌, ◌<◌, ◌≡◌, List, Bool, bit_and, not, ◌==◌, length, if◌then◌else◌,
}
use pi_vccu.Kernel.{Errno, eio}
use pi_vccu.Kernel.Call.{⊤, Call, Result, value, error, pure, give, ◌>>=◌, ◌>>◌, modify}

-- The calls of linux/i2c.h on the bus `B`, by the register number. A block read gives the bytes
-- that have arrived, which may be fewer than asked for.
pub record I2c (B : Type 0) : Type 0 where
  pub read_byte_data : ℕ → Call B ℕ
  pub read_block_data : ℕ → ℕ → Call B (List ℕ)
  pub write_byte_data : ℕ → ℕ → Call B ⊤
  pub write_block_data : ℕ → List ℕ → Call B ⊤

-- `bcd2bin` and `bin2bcd` of linux/bcd.h, with what they do to two digits.
pub record Bcd : Type 0 where
  pub bcd2bin : ℕ → ℕ
  pub bin2bcd : ℕ → ℕ
  pub bcd2bin_lem :
      (tens ones : ℕ) → tens < 10 → ones < 10 → bcd2bin (tens * 16 + ones) ≡ tens * 10 + ones
  pub bin2bcd_lem : (n : ℕ) → n < 100 → bin2bcd n ≡ n / 10 * 16 + n % 10

-- The events of `rtc_update_irq`.
pub data RtcEvent : Type 0 where
  periodic_event alarm_event update_event : RtcEvent

-- `struct rx8130_data` with its client. `irq` is 0 for a client without an interrupt; `irq_enabled`
-- and `work_pending` are the interrupt line and the queue that `rx8130_irq` acts on; the two timer
-- flags belong to the RTC core; `events` are the reports to it, the last one first.
pub record Rtc (B : Type 0) : Type 0 where
  pub bus : B
  pub ctrlreg : ℕ
  pub exiting : Bool
  pub enable_external_capacitor : Bool
  pub irq : ℕ
  pub irq_enabled : Bool
  pub work_pending : Bool
  pub uie_timer_enabled : Bool
  pub aie_timer_enabled : Bool
  pub events : List RtcEvent

abbrev pub reg_sec : ℕ
reg_sec = 16

abbrev pub reg_almin : ℕ
reg_almin = 23

abbrev pub reg_alwday : ℕ
reg_alwday = 25

abbrev pub reg_ext : ℕ
reg_ext = 28

abbrev pub reg_flag : ℕ
reg_flag = 29

abbrev pub reg_ctrl0 : ℕ
reg_ctrl0 = 30

abbrev pub reg_ctrl1 : ℕ
reg_ctrl1 = 31

abbrev pub reg_end : ℕ
reg_end = 35

abbrev pub bit_ext_wada : ℕ
bit_ext_wada = 8

abbrev pub bit_ext_te : ℕ
bit_ext_te = 16

abbrev pub bit_ext_fsel : ℕ
bit_ext_fsel = 192

abbrev pub bit_flag_vlf : ℕ
bit_flag_vlf = 2

abbrev pub bit_flag_af : ℕ
bit_flag_af = 8

abbrev pub bit_flag_tf : ℕ
bit_flag_tf = 16

abbrev pub bit_flag_uf : ℕ
bit_flag_uf = 32

abbrev pub bit_ctrl_aie : ℕ
bit_ctrl_aie = 8

abbrev pub bit_ctrl_uie : ℕ
bit_ctrl_uie = 32

abbrev pub bit_ctrl_stop : ℕ
bit_ctrl_stop = 64

abbrev pub bit_ctrl_test : ℕ
bit_ctrl_test = 128

abbrev pub bit_ctrl_bfvsel0 : ℕ
bit_ctrl_bfvsel0 = 1

abbrev pub bit_ctrl_inien : ℕ
bit_ctrl_inien = 16

abbrev pub bit_ctrl_chgen : ℕ
bit_ctrl_chgen = 32

-- `(u8)v`.
abbrev pub u8 : ℕ → ℕ
u8 v = v % 256

-- `v & ~mask` for a `u8 v`.
abbrev pub clear_bits : ℕ → ℕ → ℕ
clear_bits v mask = bit_and v (255 - mask)

-- `v & mask` as a condition.
abbrev pub has_bits : ℕ → ℕ → Bool
has_bits v mask = not (bit_and v mask == 0)

module _ {B : Type 0} where
  -- A call of the bus, from the driver.
  abbrev pub on_bus : {A : Type 0} → Call B A → Call (Rtc B) A
  on_bus m s = let (r, b) = m s.bus in (r, record s { bus = b })

  module _ (i2c : I2c B) where
    -- `rx8130_read_reg`
    pub read_reg : ℕ → Call (Rtc B) ℕ
    read_reg number = do v ← on_bus (i2c.read_byte_data number); pure (u8 v)

    -- `rx8130_read_regs`
    pub read_regs : ℕ → ℕ → Call (Rtc B) (List ℕ)
    read_regs number len = do
      values ← on_bus (i2c.read_block_data number len)
      give (if length values == len then value values else error eio)

    -- `rx8130_write_reg`
    pub write_reg : ℕ → ℕ → Call (Rtc B) ⊤
    write_reg number v = on_bus (i2c.write_byte_data number v)

    -- `rx8130_write_regs`
    pub write_regs : ℕ → List ℕ → Call (Rtc B) ⊤
    write_regs number values = on_bus (i2c.write_block_data number values)

    -- `rx8130->ctrlreg = v; rx8130_write_reg(..., RX8130_REG_CTRL0, rx8130->ctrlreg);`
    unfoldable pub write_ctrlreg : ℕ → Call (Rtc B) ⊤
    write_ctrlreg v = do modify (λ s. record s { ctrlreg = v }); write_reg reg_ctrl0 v
