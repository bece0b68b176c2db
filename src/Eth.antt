-- ===== src/Eth.antt =====
-- The state of kernel/hb_rf_eth.c, the driver that reaches a radio module over UDP: its send queue,
-- its packets and their checksum.
pub mod Checksum
pub mod Packet
pub mod SendQueue
pub mod Threads
pub mod Driver
pub mod Link
mod Tests
use pi_vccu.Prelude.{
  ℕ, zero, suc, ◌+◌, ◌-◌, ◌*◌, ◌/◌, ◌%◌, ◌^◌, List, [], ◌∷◌, Bool, bit_and, bit_or, bit_xor, ltb,
  leb, ◌==◌, ◌||◌, ◌&&◌, not, if◌then◌else◌, set, length, take, get_or,
}
use pi_vccu.Prelude.Buffers.{slice, overwrite}
use pi_vccu.Kernel.{CircMacros, Ret, ok, err, eproto}
use pi_vccu.Ring.{CircBuf}

abbrev pub buffer_size : ℕ
buffer_size = 1500

abbrev pub queue_length : ℕ
queue_length = 32

-- `struct send_msg_queue_entry`.
pub record Entry : Type 0 where
  pub buffer : List ℕ
  pub len : ℕ

-- The variables of the module. `overran` says that a `memcpy` has left the buffer of an entry;
-- `connected` stands for `_sock != NULL`; `sent` are the packets given to `kernel_sendmsg`, the last
-- one first.
pub record Eth : Type 0 where
  pub send_msg_queue : CircBuf Entry
  pub overran : Bool
  pub gpio_value : ℕ
  pub msg_cnt : ℕ
  pub connected : Bool
  pub endpoint : ℕ
  pub sent : List (List ℕ)

-- One round of the inner loop of `hb_rf_eth_calc_crc`.
pub crc_shift : ℕ → ℕ
crc_shift crc =
    let shifted = crc * 2 % 2 ^ 16 in
    if bit_and crc 0x8000 == 0 then shifted else bit_xor shifted 0x8005

-- `for (i = 0; i < 8; i++)`.
pub crc_shifts : ℕ → ℕ → ℕ
crc_shifts zero crc = crc
crc_shifts (suc n) crc = crc_shifts n (crc_shift crc)

-- `while (len--)`.
pub crc_loop : ℕ → List ℕ → ℕ
unfolding crc_shifts
crc_loop crc [] = crc
crc_loop crc (b ∷ buf) = crc_loop (crc_shifts 8 (bit_xor crc (b * 2 ^ 8 % 2 ^ 16))) buf

-- `hb_rf_eth_calc_crc`
pub calc_crc : List ℕ → ℕ
unfolding crc_loop
calc_crc buf = crc_loop 0xd77f buf

-- `*((uint16_t *)p) = htons(crc)`: the high byte first.
abbrev pub be_bytes : ℕ → List ℕ
be_bytes crc = crc / 256 ∷ crc % 256 ∷ []

-- What `hb_rf_eth_send_msg` makes of the buffer: the counter and the checksum are stored in it.
unfoldable pub stamp : ℕ → List ℕ → ℕ → List ℕ
stamp cnt buffer' len' =
    let counted = set buffer' 1 (cnt % 256) in
    overwrite counted (len' - 2) (be_bytes (calc_crc (take (len' - 2) counted)))

-- `hb_rf_eth_send_msg` on a socket, `false` for a null pointer: the buffer as it leaves it, and the
-- state. Whether `kernel_sendmsg` fails is only logged.
pub send_msg : Bool → List ℕ → ℕ → Eth → List ℕ × Eth
unfolding stamp
send_msg sock buffer' len' s =
    let cnt = (s.msg_cnt + 1) % 2 ^ 32 in
    let stamped = stamp cnt buffer' len' in
    let packets = if sock then take len' stamped ∷ s.sent else s.sent in
    (stamped, record s { msg_cnt = cnt; sent = packets })

-- What `kernel_recvmsg` gives: a packet of at most the size asked for, or an error.
pub data Received : Type 0 where
  packet : List ℕ → Received
  no_packet : Ret → Received

-- `hb_rf_eth_recv_packet` on a socket, `false` for a null pointer.
pub recv_packet : Bool → Received → Ret
recv_packet sock (packet bytes) =
    let len' = length bytes in
    let crc = be_bytes (calc_crc (take (len' - 2) bytes)) in
    if not sock
    then err eproto
    else if len' == 0
    then ok 0
    else if ltb len' 4
    then err eproto
    else if (get_or bytes (len' - 2) 0 == get_or crc 0 0)
        && (get_or bytes (len' - 1) 0 == get_or crc 1 0)
    then ok len'
    else err eproto
recv_packet sock (no_packet r) = if not sock then err eproto else r

-- The part of a round of `hb_rf_eth_send_threadproc` that sends the oldest entry.
pub send_oldest : Eth → Eth
unfolding send_msg
send_oldest s =
    let q = s.send_msg_queue in
    let entry = get_or q.buf q.tail (record { buffer = []; len = 0 }) in
    let buffer' =
      if get_or entry.buffer 0 0 == 3 then set entry.buffer 2 s.gpio_value else entry.buffer in
    let (stamped, t) = send_msg s.connected buffer' entry.len s in
    record t {
      send_msg_queue = record q {
        buf = set q.buf q.tail (record entry { buffer = stamped });
        tail = bit_and (q.tail + 1) (queue_length - 1);
      };
    }

module _ (circ : CircMacros) where
  -- `hb_rf_eth_queue_msg`, for the bytes that `buffer` points to. Waking the sender is no part of
  -- the state.
  pub queue_msg : ℕ → List ℕ → Eth → Eth
  queue_msg cmd bytes s =
      let q = s.send_msg_queue in
      let old = get_or q.buf q.head (record { buffer = []; len = 0 }) in
      let entry : Entry = record {
        buffer = overwrite (overwrite old.buffer 0 (cmd ∷ 0 ∷ [])) 2 bytes;
        len = length bytes + 4;
      } in
      let queued : CircBuf Entry = record q {
        buf = set q.buf q.head entry;
        head = bit_and (q.head + 1) (queue_length - 1);
      } in
      if leb 1 (circ.circ_space q.head q.tail queue_length)
      then record s {
        send_msg_queue = queued;
        overran = s.overran || ltb buffer_size (length bytes + 2);
      }
      else s

  -- `is_queue_filled`
  abbrev pub is_queue_filled : Eth → Bool
  is_queue_filled s = leb 1 (circ.circ_cnt s.send_msg_queue.head s.send_msg_queue.tail queue_length)

  -- A round of `hb_rf_eth_send_threadproc`, from the state in which it tests the queue for the last
  -- time. `keepalive_due` says whether the last message of that kind is a second old.
  pub send_round : Bool → Eth → Eth
  unfolding send_oldest send_msg
  send_round keepalive_due s =
      let t = if is_queue_filled s then send_oldest s else s in
      if keepalive_due then (send_msg t.connected (2 ∷ 0 ∷ 0 ∷ 0 ∷ []) 4 t).1 else t
