-- ===== src/Rtc/Control.antt =====
-- Setting up the chip, its interrupt, the ioctl calls, and probe and remove, in
-- kernel/rtc-rx8130.c.
pub mod Interrupt
pub mod Ranges
pub mod PowerOn
pub mod Epoch
use pi_vccu.Prelude.{
  ℕ, ◌+◌, ◌-◌, List, [], ◌∷◌, Option, none, some, Bool, true, false, not, ◌&&◌, ◌||◌, ◌==◌, ltb,
  bit_and, bit_or, get_or, if◌then◌else◌,
}
use pi_vccu.Kernel.{Errno, efault, enoioctlcmd, eio, enomem}
use pi_vccu.Kernel.Call.{
  ⊤, Call, Result, value, error, pure, give, gets, attempt, modify, fail_if, when, check, ◌>>=◌,
  ◌>>◌,
}
use pi_vccu.Rtc.{
  I2c, Bcd, Rtc, RtcEvent, periodic_event, alarm_event, update_event, read_reg, read_regs,
  write_reg, u8, clear_bits, has_bits, reg_sec, reg_end, reg_ext, reg_flag, reg_ctrl0, reg_ctrl1,
  bit_ext_te, bit_ext_fsel, bit_flag_vlf, bit_flag_af, bit_flag_tf, bit_flag_uf, bit_ctrl_test,
  bit_ctrl_bfvsel0, bit_ctrl_inien, bit_ctrl_chgen,
}
use pi_vccu.Rtc.Time.{RtcTime, set_time}

-- `reg_data`.
pub record RegData : Type 0 where
  pub number : ℕ
  pub reg_value : ℕ

-- The commands of `rx8130_ioctl` with what their argument points to; `none` is an address that
-- cannot be read.
pub data RtcIoctl : Type 0 where
  reg_read : Option RegData → RtcIoctl
  reg_write : Option RegData → RtcIoctl
  vl_read vl_clr other_command : RtcIoctl

-- What is copied to the caller.
pub data RtcReply : Type 0 where
  nothing : RtcReply
  reg_reply : RegData → RtcReply
  vl_reply : Bool → RtcReply

-- What the kernel's calls in `rx8130_probe` give: `i2c_check_functionality`, `kzalloc`,
-- `of_property_read_bool`, `devm_rtc_device_register` and `devm_request_threaded_irq`.
pub record ProbeCalls : Type 0 where
  pub functionality : Bool
  pub allocated : Bool
  pub external_capacitor : Bool
  pub register_device : Option Errno
  pub request_irq : Option Errno

-- `reg.number < RX8130_REG_SEC || reg.number > RX8130_REG_END`
abbrev pub out_of_range : ℕ → Bool
out_of_range n = ltb n reg_sec || ltb reg_end n

module _ {B : Type 0} where
  -- `if (status & flag) { status &= ~flag; rtc_update_irq(...); }`
  unfoldable pub report : ℕ → RtcEvent → ℕ → Call (Rtc B) ℕ
  report flag event status s =
      if has_bits status flag
      then (value (clear_bits status flag), record s { events = event ∷ s.events })
      else (value status, s)

  -- `rx8130_irq`
  pub irq_handler : Rtc B → Rtc B
  irq_handler s = record s { irq_enabled = false; work_pending = true }

  -- `rx8130_remove`, with the state at its end, where the memory is freed.
  pub remove : Rtc B → Rtc B
  remove s =
      if s.irq == 0
      then s
      else record s { exiting = true; irq_enabled = false; work_pending = false }

  module _ (i2c : I2c B) where
    -- `rx8130_work` up to the label `out`, with the error of the last call.
    unfoldable pub acknowledge : Call (Rtc B) ⊤
    acknowledge = do
      status ← read_reg i2c reg_flag
      after_periodic ← report bit_flag_tf periodic_event status
      after_alarm ← report bit_flag_af alarm_event after_periodic
      rest ← report bit_flag_uf update_event after_alarm
      write_reg i2c reg_flag rest

    -- `rx8130_work`, which takes the work from the queue.
    pub work : Rtc B → Rtc B
    work s =
        let t = (acknowledge (record s { work_pending = false })).1 in
        if t.exiting then t else record t { irq_enabled = true }

    -- The write of `rx8130_init_client` for the external capacitor.
    unfoldable pub charge_capacitor : ℕ → Call (Rtc B) ⊤
    charge_capacitor ctrl2 = do
      charge ← gets (λ s. s.enable_external_capacitor)
      when charge (
          write_reg i2c reg_ctrl1
            (bit_or (bit_or (bit_or ctrl2 bit_ctrl_chgen) bit_ctrl_inien) bit_ctrl_bfvsel0))

    -- `if (*need_reset || need_clear) { ... }` of `rx8130_init_client`.
    unfoldable pub clear_registers : ℕ → Call (Rtc B) ⊤
    clear_registers flags = do
      let need_reset = has_bits flags bit_flag_vlf
      let need_clear =
          has_bits flags bit_flag_af || has_bits flags bit_flag_tf || has_bits flags bit_flag_uf
      when (need_reset || need_clear) (write_reg i2c reg_flag 0 >> write_reg i2c reg_ctrl0 0)

    -- `rx8130_init_client`, with the value that it gives `*need_reset`.
    unfoldable pub init_client : Call (Rtc B) Bool
    init_client = do
      ctrl ← read_regs i2c reg_ext 3
      write_reg i2c reg_ext
          (bit_or (clear_bits (clear_bits (get_or ctrl 0 0) bit_ext_te) bit_ext_fsel) 2)
      modify (λ s. record s { ctrlreg = clear_bits (get_or ctrl 2 0) bit_ctrl_test })
      charge_capacitor (get_or ctrl 2 0)
      clear_registers (get_or ctrl 1 0)
      pure (has_bits (get_or ctrl 1 0) bit_flag_vlf)

    -- `rx8130_ioctl`. `copied` says whether `copy_to_user` succeeds.
    unfoldable pub ioctl : Bool → RtcIoctl → Call (Rtc B) RtcReply
    ioctl copied (reg_read none) = give (error efault)
    ioctl copied (reg_read (some reg)) = do
      fail_if (out_of_range reg.number) efault
      v ← read_reg i2c reg.number
      fail_if (not copied) efault
      pure (reg_reply (record reg { reg_value = v }))
    ioctl copied (reg_write none) = give (error efault)
    ioctl copied (reg_write (some reg)) = do
      fail_if (out_of_range reg.number) efault
      write_reg i2c reg.number reg.reg_value
      pure nothing
    ioctl copied vl_read = do
      flags ← read_reg i2c reg_flag
      fail_if (not copied) efault
      pure (vl_reply (has_bits flags bit_flag_vlf))
    ioctl copied vl_clr = do
      flags ← read_reg i2c reg_flag
      write_reg i2c reg_flag (clear_bits flags bit_flag_vlf)
      pure nothing
    ioctl copied other_command = give (error enoioctlcmd)

    -- A new `struct rx8130_data` of a client with the interrupt `irq'`: zeroed.
    abbrev pub zeroed_data : ℕ → Bool → B → Rtc B
    zeroed_data irq' charge b = record {
      bus = b;
      ctrlreg = 0;
      exiting = false;
      enable_external_capacitor = charge;
      irq = irq';
      irq_enabled = false;
      work_pending = false;
      uie_timer_enabled = false;
      aie_timer_enabled = false;
      events = [];
    }

    -- `rx8130_probe` behind the allocation. `epoch` is what `rtc_time64_to_tm(0, &tm)` gives.
    unfoldable pub set_up : Bcd → ProbeCalls → RtcTime → ℕ → Call (Rtc B) ⊤
    set_up bcd calls epoch junk = do
      need_reset ← init_client
      when need_reset (attempt (set_time bcd i2c junk epoch) >> pure tt)
      check calls.register_device
      irq' ← gets (λ s. s.irq)
      when (not (irq' == 0))
          (check calls.request_irq >> modify (λ s. record s { irq_enabled = true }))

    -- What `rx8130_probe` gives for the outcome of the calls behind the allocation.
    unfoldable pub probed : Result ⊤ × Rtc B → Result (Rtc B) × B
    probed (value u, s) = (value s, s.bus)
    probed (error e, s) = (error e, s.bus)

    -- `rx8130_probe`: the error, or the device; what it did on the bus stays done.
    unfoldable pub probe : Bcd → ProbeCalls → RtcTime → ℕ → ℕ → Call B (Rtc B)
    unfolding probed
    probe bcd calls epoch junk irq' b =
        if not calls.functionality
        then (error eio, b)
        else if not calls.allocated
        then (error enomem, b)
        else probed (set_up bcd calls epoch junk (zeroed_data irq' calls.external_capacitor b))
