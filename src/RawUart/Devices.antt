-- ===== src/RawUart/Devices.antt =====
-- The table of devices of kernel/generic_raw_uart.c: generic_raw_uart_probe and
-- generic_raw_uart_remove.
pub mod Slots
pub mod Leak
use pi_vccu.Prelude.{
  ℕ, zero, suc, List, [], ◌∷◌, Option, none, some, Bool, true, false, set, if◌then◌else◌, ◌==◌,
  replicate,
}
use mathlib.Core.Option
use pi_vccu.Kernel.{Errno, efault, enomem}
use pi_vccu.Kernel.Call.{Result, value, error}
use pi_vccu.RawUart.{RawUartDriver, Instance}
use pi_vccu.RawUart.Session.{reset_radio_module}

-- The device numbers that are taken, and the instances that are registered by their number.
pub record Devices (D : Type 0) : Type 0 where
  pub active_devices : List Bool
  pub instances : ℕ → Option (Instance D)

-- What the calls of `generic_raw_uart_probe` give: the probe for a clock, `kzalloc`, `cdev_add`,
-- `device_create` and the look-up of the reset pin, 0 for none; and the two arrays of the new
-- instance, where `kmalloc` leaves the one for the receive buffer as it finds it.
pub record UartProbeCalls : Type 0 where
  pub rtc_error : Option Errno
  pub allocated : Bool
  pub cdev_error : Option Errno
  pub device_error : Option Errno
  pub gpio_index : ℕ
  pub array : List ℕ
  pub termios_size : ℕ

-- The first device number that is free.
unfoldable pub first_free : List Bool → Option ℕ
first_free [] = none
first_free (false ∷ taken) = some 0
first_free (true ∷ taken) = elim (first_free taken) [ none ↦ none | some i ↦ some (suc i) ]

module _ {D : Type 0} (drv : RawUartDriver D) where
  -- A zeroed instance over the driver's state `d`, with its buffer and its pin. A driver that resets
  -- its module itself gets no reset pin.
  unfoldable pub fresh_instance : UartProbeCalls → D → Instance D
  fresh_instance calls d = record {
    rxbuf = record { buf = calls.array; head = 0; tail = 0 };
    open_count = 0;
    connection_state = false;
    tx_connection = none;
    conns = λ p. none;
    termios = replicate calls.termios_size 0;
    reset_pin = elim drv.reset_radio_module [ none ↦ calls.gpio_index | some reset ↦ 0 ];
    count_tx = 0;
    count_rx = 0;
    count_brk = 0;
    count_parity = 0;
    count_frame = 0;
    count_overrun = 0;
    dump_traffic = false;
    dump_rxbuf_pos = 0;
    dump_rxbuf = replicate 32 0;
    module_refs = 0;
    hw = d;
  }

  -- The end of the probe: the module is reset, and the device counts as connected. `interrupted` is
  -- the outcome of `down_interruptible` in the reset, whose result is ignored.
  unfoldable pub bring_up : Bool → Instance D → Instance D
  bring_up interrupted s =
      let (r, ops, t) = reset_radio_module drv interrupted 0 s in
      record t { connection_state = true }

  -- The allocations of `generic_raw_uart_probe` once it has marked the number `i`, and their errors:
  -- none of them gives the number back.
  unfoldable pub registered :
      Bool → Option Errno → Option Errno → Instance D → ℕ → Devices D → Result ℕ × Devices D
  registered false cdev device s i devs = (error enomem, devs)
  registered true (some e) device s i devs = (error e, devs)
  registered true none (some e) s i devs = (error e, devs)
  registered true none none s i devs =
      (value i, record devs { instances = λ j. if j == i then some s else devs.instances j })

  -- The search of a device number, and what follows it.
  unfoldable pub numbered : Option ℕ → Bool → UartProbeCalls → D → Devices D → Result ℕ × Devices D
  numbered none interrupted calls d devs = (error efault, devs)
  numbered (some i) interrupted calls d devs =
      registered calls.allocated calls.cdev_error calls.device_error
        (bring_up interrupted (fresh_instance calls d)) i
        (record devs { active_devices = set devs.active_devices i true })

  -- The probe for a clock, by its outcome, and what follows it.
  unfoldable pub clock_probed :
      Option Errno → Bool → UartProbeCalls → D → Devices D → Result ℕ × Devices D
  clock_probed (some e) interrupted calls d devs = (error e, devs)
  clock_probed none interrupted calls d devs =
      numbered (first_free devs.active_devices) interrupted calls d devs

  -- `generic_raw_uart_probe`: the number of the new device.
  unfoldable pub uart_probe : Bool → UartProbeCalls → D → Devices D → Result ℕ × Devices D
  uart_probe interrupted calls d devs = clock_probed calls.rtc_error interrupted calls d devs

  -- `generic_raw_uart_remove` of the device `i`.
  unfoldable pub uart_remove : ℕ → Devices D → Devices D
  uart_remove i devs = record {
    active_devices = set devs.active_devices i false;
    instances = λ j. if j == i then none else devs.instances j;
  }
