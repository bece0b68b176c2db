-- ===== src/Lib.antt =====
-- piVCCU: the kernel modules that connect the radio modules of a HomeMatic central unit.
--
-- The programs of the central unit talk to a radio module through a character device. The module
-- kernel/generic_raw_uart.c implements that device over a driver for the serial hardware: bytes that
-- come in go to a ring buffer that readers empty, and up to three connections, each with a
-- priority, share the transmitter. The bytes on the line are frames with a CRC and an escape byte,
-- which kernel/hm.h encodes and decodes for the simulated radio module. The driver in
-- kernel/hb_rf_eth.c reaches its radio module over the network, and kernel/rtc-rx8130.c is the clock
-- of one of the boards.
--
-- Files and the code that they model:
--   Prelude       names of the libraries, Boolean tests, lists, buffers and bits over the native numbers
--   Kernel        error numbers, linux/circ_buf.h as an interface with its documented behaviour;
--                 Wait: the loop in which calls sleep
--   Ring          `struct circ_buf`, and the queue that it stands for
--   Hm            kernel/hm.h. Crc: hm_crc; Frame: struct hm_frame, tryParseFrame, encodeFrame;
--                 Escape: encodeFrameBuffer, decodeFrameBuffer
--   RawUart       kernel/generic_raw_uart.c and .h. The state is `Instance` (struct
--                 generic_raw_uart_instance with the memory of its connections) over a
--                 `RawUartDriver` (struct raw_uart_driver). Rx: generic_raw_uart_handle_rx_char,
--                 _rx_completed, _read; Tx: _tx_queued, _acquire_sender, _send_completed, _write;
--                 Session: _open, _close, _poll, _reset_radio_module; Devices: the table of device
--                 numbers, _probe and _remove; Ioctl: _ioctl and two switches in sysfs
--   FakeHmrf      kernel/fake_hmrf.c, a radio module in software: `Fake` holds its variables and
--                 `answer` is its table of answers. Device: fake_hmrf_write, fake_hmrf_add_to_buffer,
--                 fake_hmrf_read, fake_hmrf_poll; Params: the serial number and the radio address
--   CharLoop      kernel/eq3_char_loop.c, channels with two buffers between a master and a slave:
--                 eq3loop_read_slave, _read_master, _write_slave, _write_master over `Channel`.
--                 Pieces: the copies; Stream and Back: the two directions; Stuck: waits without end;
--                 Session: eq3loop_open_slave, _close_slave, _close_master, the polls and
--                 eq3loop_create_slave_dev; Ioctl: eq3loop_ioctl_ctrl, _ioctl_master and
--                 _ioctl_slave, with commands as classes of numbers; Files: eq3loop_open, _read,
--                 _write, _close, _poll and _ioctl over the four channels
--   Rtc           kernel/rtc-rx8130.c, a real-time clock on an I2C bus: `Rtc` is struct rx8130_data
--                 with the bus, `I2c` the calls of the bus, `Registers` (in Chip) what the chip keeps.
--                 Time: rx8130_get_time, _set_time; Alarm: rx8130_read_alarm, _set_alarm,
--                 _alarm_irq_enable; Control: rx8130_irq, _work, _init_client, _ioctl, _probe, _remove
--   Eth           kernel/hb_rf_eth.c, a driver of the raw UART over UDP: `Eth` holds its variables;
--                 hb_rf_eth_calc_crc, _queue_msg, _send_msg, _recv_packet and the sender. Driver:
--                 its struct raw_uart_driver and the pins; Link: the handshake, the receiver, and
--                 connecting and disconnecting, over the `Instance` of RawUart
--   Usb2          kernel/hb_rf_usb_2.c, a driver of the raw UART over USB: the loop of
--                 hb_rf_usb_2_process_read_urb over the `Instance` of RawUart, which takes fuel for
--                 as many rounds as bytes were transferred, and each round goes over one at least.
--                 Driver: its struct raw_uart_driver over `Port`, hb_rf_usb_2_process_read_urb,
--                 _process_write_urb and the pins; the transfer that the bus has is part of the port
--   Detect        detect_radio_module, the program that asks a radio module what it is. Frame: HMFrame
--                 of hmframe.cpp, a second implementation of the protocol of Hm; Stream: StreamParser
--                 of streamparser.cpp; Detector: RadioModuleDetector of radiomoduledetector.cpp, where
--                 `on_frame` is the switch of handleFrame; Run: detectRadioModule. The frames that
--                 arrive in a wait for the semaphore are a list, and those that arrive between two
--                 waits count to one of them; Simulated: a detector before FakeHmrf. Its
--                 loops take fuel for three rounds and for each frame that arrives: a round that
--                 is no timeout uses up the call of sem_give of a frame
--
-- Conventions. A C function takes the state and returns its result with the new state. What the
-- kernel or other threads decide (a signal, a failing copy, a new connection's address) is an
-- argument; what other threads do while a call sleeps is a list of wake-ups that carry the state.
-- Unsigned numbers are natural numbers with their wrap-around written out. An access through a
-- pointer to freed memory, or past the end of a buffer, is `none` or a fault. The transmit loop
-- takes fuel for as many rounds as a connection's buffer has bytes; as a round sends a byte at
-- least, that is enough, and its theorem states that the loop ends. The drivers' calls are
-- parameters of RawUart; the theorems on sending take a law `IsLine` for them: a ready driver in a
-- good state puts a bulk on its line. Usb2.Driver.Line is about that law for hb_rf_usb_2, where a
-- good state is one on a bus that takes its transfers; Eth drops what its full queue does not take,
-- and is the matter of Eth.Driver. In Kernel/Call a call that gives a value or an error keeps what
-- was done before the error. A bus, a socket, a thread and the clock are given by the outcomes of
-- the calls on them; the times of Eth.Link are milliseconds that do not wrap. The registers of the
-- clock chip keep what is written: the theorems that set and read the clock suppose that no second
-- passes in between.
--
-- Not modelled: the names of the channels of kernel/eq3_char_loop.c; the parameter for the firmware
-- version in kernel/fake_hmrf.c; the probe for a clock, procfs and the other files of sysfs in
-- kernel/generic_raw_uart.c; registration and removal of the module kernel/hb_rf_eth.c, and the
-- text of its device type; probe and disconnect of kernel/hb_rf_usb_2.c; the terminal, the reset
-- and the report in detect_radio_module; memory barriers and the scheduling inside a call; the
-- other modules under kernel/, and the other user space programs and scripts.
pub mod Prelude
pub mod Kernel
pub mod Ring
pub mod RawUart
pub mod FakeHmrf
pub mod CharLoop
pub mod Hm
pub mod Rtc
pub mod Eth
pub mod Usb2
pub mod Detect
