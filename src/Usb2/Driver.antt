-- ===== src/Usb2/Driver.antt =====
-- The calls that kernel/hb_rf_usb_2.c offers to kernel/generic_raw_uart.c, the completions of its
-- two transfers, and its pins. Where a transfer is killed, what its handler does to the port is
-- part of the call; that the handler also calls the raw UART is a call of its own.
pub mod Flight
pub mod Bulk
pub mod Line
use pi_vccu.Prelude.{
  ℕ, ◌+◌, ◌-◌, ◌*◌, ◌%◌, ◌^◌, List, [], ◌∷◌, ◌++◌, Option, none, some, Bool, true, false, not, ◌&&◌,
  ◌||◌, ltb, leb, ◌==◌, bit_and, bit_or, if◌then◌else◌, take,
}
use pi_vccu.Prelude.Buffers.{slice, overwrite}
use mathlib.Core.Option
use pi_vccu.Kernel.{CircMacros, Errno, enosys, enodev, Ret, ok, err}
use pi_vccu.Eth.Driver.{Led, red, green, blue}
use pi_vccu.RawUart.{RawUartDriver, Instance}
use pi_vccu.RawUart.Tx.{tx_queued_unlocked}
use pi_vccu.RawUart.Rx.{rx_completed}
use pi_vccu.Usb2.{event_rounds}

abbrev pub bulk_size : ℕ
bulk_size = 11

abbrev pub buffer_size : ℕ
buffer_size = 256

-- A control message to the bridge: the request, its type, its value and its index.
pub record ControlMsg : Type 0 where
  pub request : ℕ
  pub request_type : ℕ
  pub w_value : ℕ
  pub w_index : ℕ

-- `struct hb_rf_usb_2_port_s`. `in_flight` is the data of the write urb while the bus has it, and
-- `reading` says whether it has the read urb. The control messages are in their order. The bus
-- refuses the next write urb where `submit_fails`. `overran` tells that `memcpy` went past
-- `write_buffer`, and `deleted` that the port is freed.
pub record Port : Type 0 where
  pub invert_reset : Bool
  pub part_num : ℕ
  pub write_buffer : List ℕ
  pub is_in_tx : Bool
  pub in_flight : Option (List ℕ)
  pub reading : Bool
  pub gpio_value : ℕ
  pub control : List ControlMsg
  pub refs : ℕ
  pub submit_fails : Bool
  pub overran : Bool
  pub deleted : Bool

-- `usb_control_msg` to the interface.
unfoldable pub control_msg : ℕ → ℕ → Port → Port
control_msg req v s = record s {
  control =
      s.control ++ (record { request = req; request_type = 0x41; w_value = v; w_index = 0 } ∷ []);
}

-- `hb_rf_usb_2_set_gpio_on_device`.
unfoldable pub set_gpio_on_device : ℕ → ℕ → Port → Port
set_gpio_on_device mask v s = record s {
  control =
      s.control
      ++ (record {
        request = 0xff;
        request_type = 0x40;
        w_value = 0x37e1;
        w_index = bit_or (v * 256) mask;
      }
          ∷ []);
}

abbrev led_gpio_mask : ℕ
led_gpio_mask = 14

abbrev reset_gpio_mask : ℕ
reset_gpio_mask = 1

-- The lights, as the two setters send them; `port->gpio_value << 1` becomes a u8.
unfoldable pub send_leds : Port → Port
unfolding set_gpio_on_device
send_leds s = set_gpio_on_device led_gpio_mask (s.gpio_value * 2 % 256) s

-- `hb_rf_usb_2_gpio_set`.
unfoldable pub port_gpio_set : ℕ → ℕ → Port → Port
unfolding send_leds
port_gpio_set gpio v s = send_leds (record s {
  gpio_value =
      if v == 0 then bit_and s.gpio_value (255 - 2 ^ gpio) else bit_or s.gpio_value (2 ^ gpio);
})

-- `hb_rf_usb_2_gpio_set_multiple`; of the mask only the low byte counts.
unfoldable pub port_gpio_set_multiple : ℕ → ℕ → Port → Port
unfolding send_leds
port_gpio_set_multiple mask bits s =
    send_leds
      (record s { gpio_value = bit_or (bit_and s.gpio_value (255 - mask)) (bit_and bits mask) })

-- `hb_rf_usb_2_gpio_get` and `hb_rf_usb_2_gpio_get_multiple`.
pub port_gpio_get : ℕ → Port → ℕ
port_gpio_get gpio s = bit_and s.gpio_value (2 ^ gpio)

pub port_gpio_get_multiple : ℕ → Port → ℕ
port_gpio_get_multiple mask s = bit_and s.gpio_value mask

-- `hb_rf_usb_2_gpio_request`; `module_got` is the outcome of `try_module_get`.
pub port_gpio_request : Bool → ℕ → Ret
port_gpio_request module_got offset =
    if ltb 2 offset then err enodev else if not module_got then err enodev else ok 0

-- The part numbers of a CP2102N.
unfoldable pub has_pins : Port → Bool
has_pins s = leb 0x20 s.part_num && leb s.part_num 0x22

-- `hb_rf_usb_2_get_led_gpio_index`; `base` is the number of the chip's first pin.
pub port_led_gpio_index : ℕ → Led → Port → ℕ
unfolding has_pins
port_led_gpio_index base red s = if has_pins s then base else 0
port_led_gpio_index base green s = if has_pins s then base + 1 else 0
port_led_gpio_index base blue s = if has_pins s then base + 2 else 0

-- `hb_rf_usb_2_reset_radio_module`, without its pauses.
unfoldable pub port_reset_radio_module : Port → Option Errno × Port
unfolding set_gpio_on_device has_pins
port_reset_radio_module s =
    let active = set_gpio_on_device reset_gpio_mask (if s.invert_reset then 0 else 1) s in
    let pulsed = set_gpio_on_device reset_gpio_mask (if s.invert_reset then 1 else 0) active in
    if has_pins s then (none, pulsed) else (some enosys, s)

-- What the bus has after `usb_submit_urb` of the write urb: nothing new where it fails, or where it
-- has the urb already.
unfoldable pub handed : Bool → Option (List ℕ) → List ℕ → Option (List ℕ)
handed fails (some old) data' = some old
handed true none data' = none
handed false none data' = some data'

unfoldable pub submit_write : List ℕ → Port → Port
unfolding handed
submit_write data' s = record s { in_flight = handed s.submit_fails s.in_flight data' }

-- `hb_rf_usb_2_tx_chars`.
unfoldable pub port_tx_chars : Port → List ℕ → ℕ → ℕ → Port
unfolding submit_write
port_tx_chars s chr index len =
    let filled = overwrite s.write_buffer 0 (slice chr index len) in
    submit_write (take len filled) (record s {
      is_in_tx = true;
      write_buffer = filled;
      overran = s.overran || ltb buffer_size len;
    })

-- `hb_rf_usb_2_start_connection`.
unfoldable pub port_start_connection : Port → Option Errno × Port
unfolding control_msg
port_start_connection s =
    let enabled =
      control_msg 0x15 0xff (control_msg 0x00 0x0001 (record s { refs = s.refs + 1 })) in
    (none, record enabled { reading = true })

-- `kref_put`, with `hb_rf_usb_2_delete` for the last reference.
unfoldable pub put_port : Port → Port
put_port s = record s { refs = s.refs - 1; deleted = s.deleted || s.refs == 1 }

-- A write urb that completes, or is killed, ends the transfer.
unfoldable pub tx_completed : Port → Port
tx_completed s = elim s.in_flight [
  | none ↦ s
  | some data' ↦ record s { is_in_tx = false; in_flight = none }
]

-- `hb_rf_usb_2_stop_connection`.
unfoldable pub port_stop_connection : Port → Port
unfolding control_msg put_port tx_completed
port_stop_connection s = put_port (
    control_msg 0x00 0x0000 (control_msg 0x12 0x000f (record (tx_completed s) { reading = false })))

-- The driver `hb_rf_usb_2`, with the functions that its fields name.
abbrev pub hb_rf_usb_2 : RawUartDriver Port
hb_rf_usb_2 = record {
  start_connection = port_start_connection;
  stop_connection = port_stop_connection;
  init_tx = λ s. s;
  isready_for_tx = λ s. not s.is_in_tx;
  tx_chars = port_tx_chars;
  stop_tx = λ s. s;
  reset_radio_module = some port_reset_radio_module;
  tx_chunk_size = bulk_size;
  tx_bulktransfer_size = bulk_size;
}

-- `hb_rf_usb_2_process_write_urb`, for the write urb that the bus had; `none` is a fault.
unfoldable pub process_write_urb : Instance Port → Option (Instance Port)
process_write_urb s =
    tx_queued_unlocked hb_rf_usb_2
      (record s { hw = record (s.hw) { is_in_tx = false; in_flight = none } })

-- The end of `hb_rf_usb_2_process_read_urb`: the readers are woken, and the bus gets the read urb
-- again, which it had given back, unless it refuses it.
unfoldable pub read_again : Bool → Instance Port → Instance Port
read_again refused s =
    let woken = rx_completed s in record woken { hw = record (woken.hw) { reading = not refused } }

-- `hb_rf_usb_2_process_read_urb` of a buffer with `len` bytes that were transferred; what follows
-- them is what earlier transfers have left. `none` is a read past the buffer, and the flag says
-- whether the last `usb_submit_urb` fails.
unfoldable pub process_read_urb :
    CircMacros → Bool → List ℕ → ℕ → Instance Port → Option (Instance Port)
process_read_urb circ refused buf len s =
    Option.map (read_again refused) (event_rounds circ len len buf s)
