-- ===== src/RawUart/Tests/Control.antt =====
-- Concrete runs of the device numbers and the ioctls of kernel/generic_raw_uart.c.
use pi_vccu.Prelude.{ℕ, ◌≡◌, refl, List, [], ◌∷◌, Option, none, some, Bool, true, false, replicate}
use pi_vccu.Kernel.Call.{error}
use pi_vccu.Kernel.{Ret, ok, Errno, efault, einval}
use pi_vccu.Kernel.Sample.{sample_circ}
use pi_vccu.RawUart.{Instance}
use pi_vccu.RawUart.Devices.{Devices, UartProbeCalls, uart_probe}
use pi_vccu.RawUart.Devices.Slots.{free_count, Probed, uart_probe-Probed}
use pi_vccu.RawUart.Devices.Leak.{completes, IsLateFailure, probe_all, probe_all-uart_probe}
use pi_vccu.RawUart.Ioctl.{IoctlCalls, uart_ioctl, tcsets, Reply}
use pi_vccu.RawUart.Ioctl.Kept.{Untouched, uart_ioctl-Untouched}
use pi_vccu.RawUart.Tests.{sample_driver, sample_state, low_conn}

-- Two of the five device numbers are taken, or only the last one is free.
abbrev sample_devices : List Bool → Devices (List ℕ)
sample_devices taken = record { active_devices = taken; instances = λ i. none }

-- A probe whose `device_create` ends as given.
abbrev sample_probe : Option Errno → UartProbeCalls
sample_probe device = record {
  rtc_error = none;
  allocated = true;
  cdev_error = none;
  device_error = device;
  gpio_index = 18;
  array = [];
  termios_size = 60;
}

abbrev some_taken : List Bool
some_taken = true ∷ false ∷ true ∷ false ∷ false ∷ []

abbrev last_free : List Bool
last_free = true ∷ true ∷ true ∷ true ∷ false ∷ []

uart_probe-Probed_example :
    Probed sample_driver
      (sample_devices some_taken)
      (uart_probe sample_driver false (sample_probe none) [] (sample_devices some_taken))
uart_probe-Probed_example =
    uart_probe-Probed sample_driver false (sample_probe none) [] (sample_devices some_taken)

sample-IsLateFailure : IsLateFailure (sample_probe (some einval))
unfolding IsLateFailure completes
sample-IsLateFailure = (refl, refl)

one_free : free_count last_free ≡ 1
unfolding free_count
one_free = refl

probe_all-uart_probe_example :
    uart_probe sample_driver false (sample_probe none) [] (
      probe_all sample_driver false (sample_probe (some einval) ∷ []) [] (sample_devices last_free))
    ≡ (
      error efault,
      probe_all sample_driver false (sample_probe (some einval) ∷ []) [] (sample_devices last_free),
    )
probe_all-uart_probe_example =
    probe_all-uart_probe sample_driver false (sample_probe (some einval) ∷ []) []
      (sample_devices last_free) (sample_probe none) (sample-IsLateFailure, tt) one_free refl

-- The calls of an ioctl with the value 9 from the user.
abbrev sample_calls : IoctlCalls
sample_calls = record {
  conn_interrupted = false;
  interrupted = false;
  reset_interrupted = false;
  access = true;
  got = none;
  user_value = 9;
  put = none;
  allocated = true;
  device_type = ok 4;
  type_bytes = replicate 64 65;
  not_copied = 2;
  copied_termios = replicate 60 1;
  modem_lines = 352;
}

uart_ioctl-Untouched_example :
    (r : (Ret × Reply) × Instance (List ℕ)) × (uart_ioctl sample_circ sample_driver sample_calls
        tcsets 1
        (sample_state none 1)
      ≡ some r)
    × Untouched 1 low_conn (sample_state none 1) r.1
uart_ioctl-Untouched_example =
    uart_ioctl-Untouched sample_circ sample_driver sample_calls tcsets 1 low_conn
      (sample_state none 1) refl
