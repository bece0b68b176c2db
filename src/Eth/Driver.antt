-- ===== src/Eth/Driver.antt =====
-- The calls that kernel/hb_rf_eth.c offers: the driver for kernel/generic_raw_uart.c, and its pins.
pub mod Bounds
pub mod Pins
use pi_vccu.Prelude.{
  ℕ, ◌+◌, ◌-◌, ◌^◌, List, [], ◌∷◌, Option, none, some, Bool, true, false, not, ◌==◌, ltb, bit_and,
  bit_or, if◌then◌else◌,
}
use pi_vccu.Prelude.Buffers.{slice}
use pi_vccu.Kernel.{CircMacros, Ret, ok, err, Errno, enodev, eperm}
use pi_vccu.RawUart.{RawUartDriver}
use pi_vccu.Eth.{Eth, queue_msg}

abbrev pub tx_chunk_size : ℕ
tx_chunk_size = 1468

-- `enum generic_raw_uart_led`.
pub data Led : Type 0 where
  red green blue : Led

module _ (circ : CircMacros) where
  -- `hb_rf_eth_send_reset`, without its pause.
  abbrev pub send_reset : Eth → Eth
  send_reset s = queue_msg circ 4 [] s

  -- `hb_rf_eth_tx_chars`
  pub tx_chars : Eth → List ℕ → ℕ → ℕ → Eth
  tx_chars s chr index len = queue_msg circ 7 (slice chr index len) s

  -- The driver `hb_rf_eth`, with the functions that its fields name.
  abbrev pub hb_rf_eth : RawUartDriver Eth
  hb_rf_eth = record {
    start_connection = λ s. (none, queue_msg circ 5 [] s);
    stop_connection = λ s. queue_msg circ 6 [] s;
    init_tx = λ s. s;
    isready_for_tx = λ s. true;
    tx_chars = tx_chars;
    stop_tx = λ s. s;
    reset_radio_module = some (λ s. (none, send_reset s));
    tx_chunk_size = tx_chunk_size;
    tx_bulktransfer_size = tx_chunk_size;
  }

  -- `hb_rf_eth_send_gpio`
  unfoldable pub send_gpio : Eth → Eth
  send_gpio s = queue_msg circ 3 (s.gpio_value ∷ []) s

  -- `hb_rf_eth_gpio_set`; `BIT(gpio)` is `1 << gpio`.
  unfoldable pub gpio_set : ℕ → ℕ → Eth → Eth
  unfolding send_gpio
  gpio_set gpio v s = send_gpio (record s {
    gpio_value =
        if v == 0 then bit_and s.gpio_value (255 - 2 ^ gpio) else bit_or s.gpio_value (2 ^ gpio);
  })

  -- `hb_rf_eth_gpio_set_multiple`; of the mask only the low byte counts.
  pub gpio_set_multiple : ℕ → ℕ → Eth → Eth
  unfolding send_gpio
  gpio_set_multiple mask bits s =
      send_gpio
        (record s { gpio_value = bit_or (bit_and s.gpio_value (255 - mask)) (bit_and bits mask) })

-- `hb_rf_eth_gpio_get`
pub gpio_get : ℕ → Eth → ℕ
gpio_get gpio s = bit_and s.gpio_value (2 ^ gpio)

-- `hb_rf_eth_gpio_get_multiple`
pub gpio_get_multiple : ℕ → Eth → ℕ
gpio_get_multiple mask s = bit_and s.gpio_value mask

-- `hb_rf_eth_gpio_request`; `module_got` is the outcome of `try_module_get`.
pub gpio_request : Bool → ℕ → Ret
gpio_request module_got offset =
    if ltb 2 offset then err enodev else if not module_got then err enodev else ok 0

-- The direction of a pin: always an output.
pub gpio_direction_get : ℕ → Ret
gpio_direction_get gpio = ok 0

pub gpio_direction_input : ℕ → Ret
gpio_direction_input gpio = err eperm

pub gpio_direction_output : ℕ → ℕ → Ret
gpio_direction_output gpio v = ok 0

-- `hb_rf_eth_get_led_gpio_index`; `base` is the number of the chip's first pin.
pub get_led_gpio_index : ℕ → Led → ℕ
get_led_gpio_index base red = base
get_led_gpio_index base green = base + 1
get_led_gpio_index base blue = base + 2
