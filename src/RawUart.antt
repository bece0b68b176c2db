-- ===== src/RawUart.antt =====
-- The state of kernel/generic_raw_uart.c: `struct generic_raw_uart_instance`, the connections that
-- it points to, and the driver below it.
pub mod Rx
pub mod Tx
pub mod Session
pub mod Devices
pub mod Ioctl
mod Tests
use pi_vccu.Prelude.{ℕ, ◌+◌, ◌%◌, ◌^◌, List, Option, Bool, none, if◌then◌else◌, ◌==◌}
use pi_vccu.Kernel.{Errno, Ret}
use pi_vccu.Ring.{CircBuf}

abbrev pub circbuf_size : ℕ
circbuf_size = 1024

abbrev pub con_data_tx_buf_size : ℕ
con_data_tx_buf_size = 4096

abbrev pub max_connections : ℕ
max_connections = 3

-- `struct raw_uart_driver`: the calls of the driver below, over the state `D` of its hardware.
-- `none` for a null pointer, and for the error number 0.
pub record RawUartDriver (D : Type 0) : Type 0 where
  pub start_connection : D → Option Errno × D
  pub stop_connection : D → D
  pub init_tx : D → D
  pub isready_for_tx : D → Bool
  pub tx_chars : D → List ℕ → ℕ → ℕ → D
  pub stop_tx : D → D
  pub reset_radio_module : Option (D → Option Errno × D)
  pub tx_chunk_size : ℕ
  pub tx_bulktransfer_size : ℕ

-- `struct per_connection_data`.
pub record Conn : Type 0 where
  pub txbuf : List ℕ
  pub tx_buf_length : ℕ
  pub tx_buf_index : ℕ
  pub priority : ℕ

-- `struct generic_raw_uart_instance`. A connection is named by its address; `conns` is the memory
-- that holds them, where `none` is memory that is not allocated. The counters are the bit patterns
-- of C ints. `module_refs` counts the references to the driver's module.
pub record Instance (D : Type 0) : Type 0 where
  pub rxbuf : CircBuf ℕ
  pub open_count : ℕ
  pub connection_state : Bool
  pub tx_connection : Option ℕ
  pub conns : ℕ → Option Conn
  pub termios : List ℕ
  pub reset_pin : ℕ
  pub count_tx : ℕ
  pub count_rx : ℕ
  pub count_brk : ℕ
  pub count_parity : ℕ
  pub count_frame : ℕ
  pub count_overrun : ℕ
  pub dump_traffic : Bool
  pub dump_rxbuf_pos : ℕ
  pub dump_rxbuf : List ℕ
  pub module_refs : ℕ
  pub hw : D

-- `c += n` on such a counter.
abbrev pub add_int : ℕ → ℕ → ℕ
add_int c n = (c + n) % 2 ^ 32
