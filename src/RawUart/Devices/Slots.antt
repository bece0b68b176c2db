-- ===== src/RawUart/Devices/Slots.antt =====
-- The device numbers of kernel/generic_raw_uart.c: who takes one, and who gives it back.
use pi_vccu.Prelude.{
  ℕ, suc, ◌≡◌, refl, ap, List, [], ◌∷◌, Option, none, some, Bool, true, false, ◌⊎◌, inl, inr, set,
  get_or, ◌==◌,
}
use pi_vccu.Kernel.{Errno}
use pi_vccu.Kernel.Call.{Result, value, error}
use pi_vccu.RawUart.{RawUartDriver, Instance}
use pi_vccu.RawUart.Devices.{
  Devices, UartProbeCalls, first_free, registered, numbered, clock_probed, uart_probe, uart_remove,
}

-- How many numbers are free.
unfoldable pub free_count : List Bool → ℕ
free_count [] = 0
free_count (false ∷ taken) = suc (free_count taken)
free_count (true ∷ taken) = free_count taken

-- A number that was free: taking it leaves one free number less, and giving it back restores the
-- table. Without one, none is free.
unfoldable pub FreeSlot : List Bool → Option ℕ → Type 0
FreeSlot taken none = free_count taken ≡ 0
FreeSlot taken (some i) =
    (get_or taken i true ≡ false)
    × (suc (free_count (set taken i true)) ≡ free_count taken)
    × (set (set taken i true) i false ≡ taken)

FreeSlot-taken :
    (taken : List Bool) (o : Option ℕ)
    → FreeSlot taken o
    → FreeSlot (true ∷ taken) (elim o [ none ↦ none | some i ↦ some (suc i) ])
unfolding FreeSlot free_count
FreeSlot-taken taken none h = h
FreeSlot-taken taken (some i) (free, less, back) = (free, less, ap (λ l. true ∷ l) back)

pub first_free-FreeSlot : (taken : List Bool) → FreeSlot taken (first_free taken)
unfolding FreeSlot first_free free_count
first_free-FreeSlot [] = refl
first_free-FreeSlot (false ∷ taken) = (refl, refl, refl)
first_free-FreeSlot (true ∷ taken) =
    FreeSlot-taken taken (first_free taken) (first_free-FreeSlot taken)

module _ {D : Type 0} (drv : RawUartDriver D) where
  -- What a probe does with the numbers. On success it took a free one, touched no other instance,
  -- and `generic_raw_uart_remove` gives it back. On an error no instance changes, and either no
  -- number was taken or one is lost.
  unfoldable pub Probed : Devices D → Result ℕ × Devices D → Type 0
  Probed devs (value i, devs') =
      (get_or devs.active_devices i true ≡ false)
      × (suc (free_count devs'.active_devices) ≡ free_count devs.active_devices)
      × ((uart_remove drv i devs').active_devices ≡ devs.active_devices)
      × ((j : ℕ) → (j == i) ≡ false → devs'.instances j ≡ devs.instances j)
  Probed devs (error e, devs') =
      (devs'.instances ≡ devs.instances)
      × ((devs'.active_devices ≡ devs.active_devices)
          ⊎ (suc (free_count devs'.active_devices) ≡ free_count devs.active_devices))

  registered-Probed :
      (allocated : Bool) (cdev device : Option Errno) (s : Instance D) (i : ℕ) (devs : Devices D)
      → FreeSlot devs.active_devices (some i)
      → Probed devs (
          registered drv allocated cdev device s i
            (record devs { active_devices = set devs.active_devices i true }))
  unfolding Probed FreeSlot registered uart_remove
  registered-Probed false cdev device s i devs (free, less, back) = (refl, inr less)
  registered-Probed true (some e) device s i devs (free, less, back) = (refl, inr less)
  registered-Probed true none (some e) s i devs (free, less, back) = (refl, inr less)
  registered-Probed true none none s i devs (free, less, back) = (free, less, back, λ j h. rw h)

  numbered-Probed :
      (o : Option ℕ) (interrupted : Bool) (calls : UartProbeCalls) (d : D) (devs : Devices D)
      → FreeSlot devs.active_devices o
      → Probed devs (numbered drv o interrupted calls d devs)
  unfolding numbered Probed
  numbered-Probed none interrupted calls d devs h = (refl, inl refl)
  numbered-Probed (some i) interrupted calls d devs h =
      registered-Probed calls.allocated calls.cdev_error calls.device_error _ i devs h

  clock_probed-Probed :
      (o : Option Errno) (interrupted : Bool) (calls : UartProbeCalls) (d : D) (devs : Devices D)
      → Probed devs (clock_probed drv o interrupted calls d devs)
  unfolding clock_probed Probed
  clock_probed-Probed (some e) interrupted calls d devs = (refl, inl refl)
  clock_probed-Probed none interrupted calls d devs =
      numbered-Probed (first_free devs.active_devices) interrupted calls d devs
        (first_free-FreeSlot devs.active_devices)

  -- A probe that succeeds took a number that was free, leaves one free number less, changes no
  -- other instance, and `generic_raw_uart_remove` of its device restores the table of numbers. A
  -- probe that fails changes no instance, and either leaves the table as it was or takes one free
  -- number from it.
  pub uart_probe-Probed :
      (interrupted : Bool) (calls : UartProbeCalls) (d : D) (devs : Devices D)
      → Probed devs (uart_probe drv interrupted calls d devs)
  unfolding uart_probe
  uart_probe-Probed interrupted calls d devs =
      clock_probed-Probed calls.rtc_error interrupted calls d devs
