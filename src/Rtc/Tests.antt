-- ===== src/Rtc/Tests.antt =====
-- A chip whose registers are a function, and the theorems on kernel/rtc-rx8130.c for it.
use pi_vccu.Prelude.{
  ℕ, zero, suc, ◌+◌, ◌-◌, ◌*◌, ◌/◌, ◌%◌, ◌^◌, ◌<◌, ◌≤◌, ◌≡◌, refl, ap, sym, subst, ◌∙◌, List, [],
  ◌∷◌, length, get_or, ◌⊎◌, inl, inr, Option, none, true, false, ◌==◌, if◌then◌else◌, ==-refl,
  ==-ne, arith,
}
use pi_vccu.Kernel.{Errno}
use pi_vccu.Kernel.Call.{value}
use pi_vccu.Rtc.{I2c, Bcd, Rtc, read_reg, read_regs, write_reg, write_regs, write_ctrlreg}
use pi_vccu.Rtc.Chip.{Registers, peek}
use pi_vccu.Rtc.Time.{RtcTime, rem_int, time_of, date_of, get_time, set_time}
use pi_vccu.Rtc.Time.RoundTrip.{IsTime, get_time-set_time}
use pi_vccu.Rtc.Alarm.{RtcAlarm, read_alarm, set_alarm, disarm, arm, write_alarm, alarm_irq_enable}
use pi_vccu.Rtc.Alarm.Kept.{read_alarm-set_alarm}
use pi_vccu.Rtc.Control.{
  ProbeCalls, RegData, acknowledge, report, init_client, charge_capacitor, clear_registers,
  zeroed_data, set_up,
}
use pi_vccu.Rtc.Control.Interrupt.{Acknowledged, acknowledge-Acknowledged}
use pi_vccu.Rtc.Control.PowerOn.{alarm_irq_enable-init_client}

abbrev digits_bcd : Bcd
digits_bcd = record {
  bcd2bin = λ v. v / 16 * 10 + v % 16;
  bin2bcd = λ n. n / 10 * 16 + n % 10;
  bcd2bin_lem = λ tens ones h g. omega arith;
  bin2bcd_lem = λ n h. refl;
}

abbrev Cells : Type 0
Cells = ℕ → ℕ

abbrev cells_from : Cells → ℕ → ℕ → List ℕ
cells_from b n zero = []
cells_from b n (suc k) = (b n % 256) ∷ cells_from b (suc n) k

abbrev put : Cells → ℕ → List ℕ → Cells
put b n [] m = b m
put b n (v ∷ vs) m = let later = put b (suc n) vs m in if m == n then v else later

abbrev memory_bus : I2c Cells
memory_bus = record {
  read_byte_data = λ n b. (value (b n % 256), b);
  read_block_data = λ n len b. (value (cells_from b n len), b);
  write_byte_data = λ n v b. (value tt, put b n (v ∷ []));
  write_block_data = λ n vs b. (value tt, put b n vs);
}

get_or-cells_from :
    (len i n : ℕ) (b : Cells)
    → i < length (cells_from b n len)
    → get_or (cells_from b n len) i 0 ≡ b (n + i) % 256
get_or-cells_from zero i n b h = absurd (omega arith)
get_or-cells_from (suc len) zero n b h = ap (λ (m : ℕ). b m % 256) (omega arith)
get_or-cells_from (suc len) (suc i) n b h =
    get_or-cells_from len i (suc n) b (omega arith) ∙ ap (λ (m : ℕ). b m % 256) (omega arith)

put_hit : (vs : List ℕ) (n i : ℕ) (b : Cells) → i < length vs → put b n vs (n + i) ≡ get_or vs i 0
put_hit [] n i b h = absurd (omega arith)
put_hit (v ∷ vs) n zero b h = ground arith
put_hit (v ∷ vs) n (suc i) b h =
    let e : n + suc i ≡ suc n + i = omega arith in
    rw (==-ne (n + suc i) n (omega arith))
      (ap (put b (suc n) vs) e ∙ put_hit vs (suc n) i b (omega arith))

put_miss : (vs : List ℕ) (n m : ℕ) (b : Cells) → (m < n) ⊎ (n + length vs ≤ m) → put b n vs m ≡ b m
put_miss [] n m b h = refl
put_miss (v ∷ vs) n m b (inl h) =
    rw (==-ne m n (omega arith)) (put_miss vs (suc n) m b (inl (omega arith)))
put_miss (v ∷ vs) n m b (inr h) =
    rw (==-ne m n (omega arith)) (put_miss vs (suc n) m b (inr (omega arith)))

memory_registers : Registers memory_bus
memory_registers = record {
  reg = λ b n. b n % 256;
  reg_byte = λ b n. omega arith;
  read_value = λ n v b h. cc;
  read_keeps = λ n m b. refl;
  read_block_value = λ n len i vs b h l.
      let e : cells_from b n len ≡ vs = cc in
      sym (ap (λ (xs : List ℕ). get_or xs i 0) e)
      ∙ get_or-cells_from len i n b (subst (λ (xs : List ℕ). i < length xs) (sym e) l);
  read_block_keeps = λ n len m b. refl;
  write_value = λ n v b h g. rw (==-refl n) (omega arith);
  write_keeps = λ n v m b h. rw (==-ne m n h);
  write_block_value = λ n i vs b l h g. let e = put_hit vs n i b l in rw e (omega arith);
  write_block_keeps = λ n m vs b h. ap (λ (v : ℕ). v % 256) (put_miss vs n m b h);
}

-- A chip with the flags 2 and 8, and the alarm and update interrupts on.
abbrev first_cells : Cells
first_cells n = if n == 29 then 10 else if n == 30 then 40 else 0

abbrev running : Rtc Cells
running = record {
  bus = first_cells;
  ctrlreg = 40;
  exiting = false;
  enable_external_capacitor = false;
  irq = 7;
  irq_enabled = true;
  work_pending = false;
  uie_timer_enabled = false;
  aie_timer_enabled = true;
  events = [];
}

abbrev new_year : RtcTime
new_year = record {
  tm_sec = 59;
  tm_min = 58;
  tm_hour = 23;
  tm_mday = 31;
  tm_mon = 11;
  tm_year = 125;
  tm_wday = 3;
}

abbrev epoch_time : RtcTime
epoch_time = record {
  tm_sec = 0;
  tm_min = 0;
  tm_hour = 0;
  tm_mday = 1;
  tm_mon = 0;
  tm_year = 70;
  tm_wday = 4;
}

new_year-IsTime : IsTime new_year
new_year-IsTime = record {
  sec = omega arith;
  minute = omega arith;
  hour = omega arith;
  mday = omega arith;
  mon = omega arith;
  since = omega arith;
  until = omega arith;
  wday = omega arith;
}

epoch_time-IsTime : IsTime epoch_time
epoch_time-IsTime = record {
  sec = omega arith;
  minute = omega arith;
  hour = omega arith;
  mday = omega arith;
  mon = omega arith;
  since = omega arith;
  until = omega arith;
  wday = omega arith;
}

abbrev always_valid : RtcTime → Option Errno
always_valid t = none

abbrev after_set : Rtc Cells
after_set = (set_time digits_bcd memory_bus 0 new_year running).1

get_time-set_time_example : new_year ≡ new_year
unfolding set_time get_time write_ctrlreg write_regs read_regs write_reg read_reg time_of date_of
    rem_int
get_time-set_time_example =
    get_time-set_time digits_bcd memory_bus memory_registers always_valid 0 new_year new_year
      running after_set new_year-IsTime refl refl

abbrev morning : RtcAlarm
morning = record { enabled = true; pending = true; time = new_year }

abbrev alarm_set : Rtc Cells
alarm_set = (set_alarm memory_bus digits_bcd morning running).1

abbrev alarm_back : RtcAlarm
alarm_back = record {
  enabled = true;
  pending = false;
  time = record {
    tm_sec = 0;
    tm_min = 58;
    tm_hour = 23;
    tm_mday = 2 ^ 32 - 1;
    tm_mon = 2 ^ 32 - 1;
    tm_year = 2 ^ 32 - 1;
    tm_wday = 2 ^ 32 - 1;
  };
}

read_alarm-set_alarm_example :
    (alarm_back.time.tm_min ≡ 58)
    × (alarm_back.time.tm_hour ≡ 23)
    × (alarm_back.enabled ≡ true)
    × (alarm_back.pending ≡ false)
unfolding set_alarm read_alarm disarm arm write_alarm write_ctrlreg write_regs read_regs write_reg
    read_reg
read_alarm-set_alarm_example =
    read_alarm-set_alarm memory_bus memory_registers digits_bcd morning alarm_back running alarm_set
      alarm_set (omega arith) (omega arith) (omega arith) refl refl

acknowledge-Acknowledged_example :
    Acknowledged memory_bus memory_registers running (acknowledge memory_bus running).1
unfolding acknowledge report read_reg write_reg
acknowledge-Acknowledged_example =
    acknowledge-Acknowledged memory_bus memory_registers running (acknowledge memory_bus running).1
      refl

abbrev foreign : RegData
foreign = record { number = 36; reg_value = 1 }

-- A chip that reports an alarm and no voltage loss.
abbrev alarmed : Rtc Cells
alarmed = record running { bus = λ n. if n == 29 then 8 else if n == 30 then 40 else 0 }

abbrev initialised : Rtc Cells
initialised = (init_client memory_bus alarmed).1

alarm_irq_enable-init_client_example :
    (peek memory_bus memory_registers initialised 30 ≡ 0)
    × (peek memory_bus memory_registers (alarm_irq_enable memory_bus true initialised).1 30 ≡ 0)
unfolding init_client alarm_irq_enable charge_capacitor clear_registers write_ctrlreg read_regs
    write_reg read_reg memory_registers
alarm_irq_enable-init_client_example =
    alarm_irq_enable-init_client memory_bus memory_registers false alarmed initialised
      (alarm_irq_enable memory_bus true initialised).1 refl refl refl refl refl

abbrev all_calls_work : ProbeCalls
all_calls_work = record {
  functionality = true;
  allocated = true;
  external_capacitor = true;
  register_device = none;
  request_irq = none;
}

abbrev probed_device : Rtc Cells
probed_device =
    (set_up memory_bus digits_bcd all_calls_work epoch_time 0
      (zeroed_data memory_bus 7 true first_cells)).1
