-- ===== src/RawUart/Devices/Leak.antt =====
-- The device numbers that failed probes of kernel/generic_raw_uart.c leave behind.
use pi_vccu.Prelude.{
  ℕ, suc, ◌≡◌, refl, ap, List, [], ◌∷◌, Option, none, some, Bool, true, false, set, length, All,
  arith,
}
use pi_vccu.Kernel.{Errno, efault}
use pi_vccu.Kernel.Call.{error}
use pi_vccu.RawUart.{RawUartDriver, Instance}
use pi_vccu.RawUart.Devices.{
  Devices, UartProbeCalls, first_free, registered, numbered, clock_probed, uart_probe,
}
use pi_vccu.RawUart.Devices.Slots.{free_count, FreeSlot, first_free-FreeSlot}

-- Whether the allocations behind the search of a number succeed.
unfoldable pub completes : Bool → Option Errno → Option Errno → Bool
completes false cdev device = false
completes true (some e) device = false
completes true none (some e) = false
completes true none none = true

-- A probe that fails behind the search of a number.
unfoldable pub IsLateFailure : UartProbeCalls → Type 0
IsLateFailure calls =
    (calls.rtc_error ≡ none)
    × (completes calls.allocated calls.cdev_error calls.device_error ≡ false)

-- A table without a free number gives none.
first_free-none : (taken : List Bool) → free_count taken ≡ 0 → first_free taken ≡ none
unfolding first_free free_count
first_free-none [] h = refl
first_free-none (false ∷ taken) h = absurd (omega arith)
first_free-none (true ∷ taken) h = rw (first_free-none taken h)

module _ {D : Type 0} (drv : RawUartDriver D) where
  -- Several probes in a row, whatever they return.
  unfoldable pub probe_all : Bool → List UartProbeCalls → D → Devices D → Devices D
  probe_all interrupted [] d devs = devs
  probe_all interrupted (calls ∷ rest) d devs =
      let (r, devs') = uart_probe drv interrupted calls d devs in probe_all interrupted rest d devs'

  registered-loses :
      (allocated : Bool) (cdev device : Option Errno) (s : Instance D) (i : ℕ) (devs : Devices D)
      → completes allocated cdev device ≡ false
      → (registered drv allocated cdev device s i devs).1.active_devices ≡ devs.active_devices
  unfolding registered completes
  registered-loses false cdev device s i devs h = refl
  registered-loses true (some e) device s i devs h = refl
  registered-loses true none (some e) s i devs h = refl
  registered-loses true none none s i devs h = absurd cc

  numbered-loses :
      (o : Option ℕ) (interrupted : Bool) (calls : UartProbeCalls) (d : D) (devs : Devices D)
      (n : ℕ)
      → completes calls.allocated calls.cdev_error calls.device_error ≡ false
      → FreeSlot devs.active_devices o
      → free_count devs.active_devices ≡ suc n
      → free_count ((numbered drv o interrupted calls d devs).1.active_devices) ≡ n
  unfolding numbered FreeSlot
  numbered-loses none interrupted calls d devs n h free some_free = absurd (omega arith)
  numbered-loses (some i) interrupted calls d devs n h (free, less, back) some_free =
      let kept = registered-loses calls.allocated calls.cdev_error calls.device_error _ i _ h in
      let lost : free_count ((numbered drv (some i) interrupted calls d devs).1.active_devices)
          ≡ free_count (set devs.active_devices i true) =
        ap free_count kept in
      omega (arith, lost, less, some_free)

  clock_probed-loses :
      (o : Option Errno) (interrupted : Bool) (calls : UartProbeCalls) (d : D) (devs : Devices D)
      (n : ℕ)
      → o ≡ none
      → completes calls.allocated calls.cdev_error calls.device_error ≡ false
      → free_count devs.active_devices ≡ suc n
      → free_count ((clock_probed drv o interrupted calls d devs).1.active_devices) ≡ n
  unfolding clock_probed
  clock_probed-loses (some e) interrupted calls d devs n h late free = absurd cc
  clock_probed-loses none interrupted calls d devs n h late free =
      numbered-loses (first_free devs.active_devices) interrupted calls d devs n late
        (first_free-FreeSlot devs.active_devices) free

  probe_all-free_count :
      (interrupted : Bool) (failures : List UartProbeCalls) (d : D) (devs : Devices D)
      → All IsLateFailure failures
      → free_count devs.active_devices ≡ length failures
      → free_count ((probe_all interrupted failures d devs).active_devices) ≡ 0
  unfolding probe_all IsLateFailure uart_probe
  probe_all-free_count interrupted [] d devs late h = h
  probe_all-free_count interrupted (calls ∷ rest) d devs ((clock, late), rest_late) h =
      probe_all-free_count interrupted rest d (uart_probe drv interrupted calls d devs).1 rest_late
        (clock_probed-loses calls.rtc_error interrupted calls d devs (length rest) clock late h)

  clock_probed_full :
      (o : Option Errno) (interrupted : Bool) (calls : UartProbeCalls) (d : D) (devs : Devices D)
      → o ≡ none
      → free_count devs.active_devices ≡ 0
      → clock_probed drv o interrupted calls d devs ≡ (error efault, devs)
  unfolding clock_probed numbered
  clock_probed_full (some e) interrupted calls d devs h full = absurd cc
  clock_probed_full none interrupted calls d devs h full =
      rw (first_free-none devs.active_devices full)

  -- Every failure behind the search of a number costs one: after as many such failures as there were
  -- free numbers, each probe that gets past the clock fails with -EFAULT, and changes nothing.
  pub probe_all-uart_probe :
      (interrupted : Bool) (failures : List UartProbeCalls) (d : D) (devs : Devices D)
      (calls : UartProbeCalls)
      → All IsLateFailure failures
      → free_count devs.active_devices ≡ length failures
      → calls.rtc_error ≡ none
      → uart_probe drv interrupted calls d (probe_all interrupted failures d devs)
        ≡ (error efault, probe_all interrupted failures d devs)
  unfolding uart_probe
  probe_all-uart_probe interrupted failures d devs calls late h clock =
      clock_probed_full calls.rtc_error interrupted calls d (probe_all interrupted failures d devs)
        clock (probe_all-free_count interrupted failures d devs late h)
