-- ===== src/CharLoop.antt =====
-- kernel/eq3_char_loop.c: channels that connect a master and its slave by two buffers. The state of
-- a channel, and its four calls that move bytes.
pub mod Pieces
pub mod Stream
pub mod Back
pub mod Stuck
pub mod Session
pub mod Ioctl
pub mod Files
mod Tests
use pi_vccu.Prelude.{
  ℕ, ◌+◌, ◌-◌, bit_and, List, [], ◌++◌, Option, none, some, Bool, true, false, not, ltb, ◌&&◌, ◌==◌,
  if◌then◌else◌, length, take, drop,
}
use pi_vccu.Prelude.Buffers.{slice, overwrite}
use pi_vccu.Kernel.{CircMacros, Ret, ok, err, Errno, erestartsys, efault, enodev, min_int}
use pi_vccu.Kernel.Wait.{Wake, Waited, ready, failed, asleep, wait_loop}
use pi_vccu.Ring.{CircBuf}

abbrev pub bufsize : ℕ
bufsize = 1024

-- `struct termios`, with its NCCS control characters.
pub record Termios : Type 0 where
  pub c_iflag : ℕ
  pub c_oflag : ℕ
  pub c_cflag : ℕ
  pub c_lflag : ℕ
  pub c_line : ℕ
  pub c_cc : List ℕ

-- `struct eq3loop_channel_data`, without its name. The bits of `pending_events` are
-- flags, and `device` says whether the channel's device is registered.
pub record Channel : Type 0 where
  pub master2slave_buf : CircBuf ℕ
  pub slave2master_buf : CircBuf ℕ
  pub slave_open_count : ℕ
  pub created : Bool
  pub event_slave_opened : Bool
  pub event_slave_closed : Bool
  pub state_slave_opened : Bool
  pub device : Bool
  pub termios : Termios

-- What a call comes to: a result with the bytes for the user, or it waits on.
pub data Call : Type 0 where
  done : Ret → List ℕ → Channel → Call
  waits : Channel → Call

module _ (circ : CircMacros) where
  abbrev pub has_data : CircBuf ℕ → Bool
  has_data r = not (circ.circ_cnt r.head r.tail bufsize == 0)

  abbrev pub has_space : CircBuf ℕ → Bool
  has_space r = not (circ.circ_space r.head r.tail bufsize == 0)

  -- The copy to the user in the two reads, up to the end of the array and from its start on. The
  -- flags say whether the two `copy_to_user` fail; the bytes are those that the user has got.
  pub read_pieces : Bool → Bool → ℕ → CircBuf ℕ → Ret × List ℕ × CircBuf ℕ
  read_pieces first_fails second_fails count r =
      let n = min_int count (circ.circ_cnt r.head r.tail bufsize) in
      let to_end = min_int n (circ.circ_cnt_to_end r.head r.tail bufsize) in
      let tail' = bit_and (r.tail + to_end) (bufsize - 1) in
      let first = slice r.buf r.tail to_end in
      let second = slice r.buf tail' (n - to_end) in
      let moved = record r { tail = bit_and (tail' + (n - to_end)) (bufsize - 1) } in
      if first_fails
      then (err efault, [], r)
      else if second_fails
      then (err efault, first, r)
      else (ok n, first ++ second, moved)

  -- The copy from the user in the two writes. Where a `copy_from_user` fails, the argument is what
  -- it leaves in its piece of the array.
  pub write_pieces : Option (List ℕ) → Option (List ℕ) → List ℕ → CircBuf ℕ → Ret × CircBuf ℕ
  write_pieces first_left second_left bytes r =
      let count = length bytes in
      let to_end = min_int count (circ.circ_space_to_end r.head r.tail bufsize) in
      let head' = bit_and (r.head + to_end) (bufsize - 1) in
      let first = overwrite r.buf r.head (take to_end bytes) in
      let second = overwrite first head' (drop to_end bytes) in
      let moved = record r {
        buf = second;
        head = bit_and (head' + (count - to_end)) (bufsize - 1);
      } in
      if ltb (circ.circ_space r.head r.tail bufsize) count
      then (err efault, r)
      else elim first_left [
        | some left ↦ (err efault, record r { buf = overwrite r.buf r.head left })
        | none ↦ elim second_left [
          | some left ↦ (err efault, record r { buf = overwrite first head' left })
          | none ↦ (ok count, moved)
        ]
      ]

  -- `eq3loop_read_slave` behind its wait, and the whole call. `interrupted` says whether the first
  -- `down_interruptible` fails.
  read_slave_waited : Bool → Bool → ℕ → Waited Channel → Call
  unfolding read_pieces
  read_slave_waited first_fails second_fails count (ready c) =
      let (ret, bytes, r) = read_pieces first_fails second_fails count c.master2slave_buf in
      if not c.created
      then done (err enodev) [] c
      else done ret bytes (record c { master2slave_buf = r })
  read_slave_waited first_fails second_fails count (failed e c) = done (err e) [] c
  read_slave_waited first_fails second_fails count (asleep c) = waits c

  unfoldable pub read_slave : Bool → Bool → List (Wake Channel) → Bool → Bool → ℕ → Channel → Call
  unfolding read_slave_waited wait_loop
  read_slave interrupted nonblock wakes first_fails second_fails count c =
      let waited =
        wait_loop (λ t. not (t.created && not (has_data t.master2slave_buf))) nonblock wakes c in
      if interrupted
      then done (err erestartsys) [] c
      else if not c.created
      then done (err enodev) [] c
      else read_slave_waited first_fails second_fails count waited

  -- `eq3loop_read_master`: 0 bytes where the slave is closed.
  read_master_waited : Bool → Bool → ℕ → Waited Channel → Call
  unfolding read_pieces
  read_master_waited first_fails second_fails count (ready c) =
      let (ret, bytes, r) = read_pieces first_fails second_fails count c.slave2master_buf in
      if c.slave_open_count == 0
      then done (ok 0) [] c
      else done ret bytes (record c { slave2master_buf = r })
  read_master_waited first_fails second_fails count (failed e c) = done (err e) [] c
  read_master_waited first_fails second_fails count (asleep c) = waits c

  unfoldable pub read_master : Bool → Bool → List (Wake Channel) → Bool → Bool → ℕ → Channel → Call
  unfolding read_master_waited wait_loop
  read_master interrupted nonblock wakes first_fails second_fails count c =
      let open_and_empty =
        λ (t : Channel). not (t.slave_open_count == 0) && not (has_data t.slave2master_buf) in
      let waited = wait_loop (λ t. not (open_and_empty t)) nonblock wakes c in
      if interrupted
      then done (err erestartsys) [] c
      else read_master_waited first_fails second_fails count waited

  -- `eq3loop_write_slave`.
  write_slave_waited : Option (List ℕ) → Option (List ℕ) → List ℕ → Waited Channel → Call
  unfolding write_pieces
  write_slave_waited first_left second_left bytes (ready c) =
      let (ret, r) = write_pieces first_left second_left bytes c.slave2master_buf in
      if not c.created
      then done (err enodev) [] c
      else done ret [] (record c { slave2master_buf = r })
  write_slave_waited first_left second_left bytes (failed e c) = done (err e) [] c
  write_slave_waited first_left second_left bytes (asleep c) = waits c

  unfoldable pub write_slave :
      Bool
      → Bool
      → List (Wake Channel)
      → Option (List ℕ)
      → Option (List ℕ)
      → List ℕ
      → Channel
      → Call
  unfolding write_slave_waited wait_loop
  write_slave interrupted nonblock wakes first_left second_left bytes c =
      let waited = wait_loop (λ t. has_space t.slave2master_buf) nonblock wakes c in
      if interrupted
      then done (err erestartsys) [] c
      else write_slave_waited first_left second_left bytes waited

  -- `eq3loop_write_master`.
  write_master_waited : Option (List ℕ) → Option (List ℕ) → List ℕ → Waited Channel → Call
  unfolding write_pieces
  write_master_waited first_left second_left bytes (ready c) =
      let (ret, r) = write_pieces first_left second_left bytes c.master2slave_buf in
      done ret [] (record c { master2slave_buf = r })
  write_master_waited first_left second_left bytes (failed e c) = done (err e) [] c
  write_master_waited first_left second_left bytes (asleep c) = waits c

  unfoldable pub write_master :
      Bool
      → Bool
      → List (Wake Channel)
      → Option (List ℕ)
      → Option (List ℕ)
      → List ℕ
      → Channel
      → Call
  unfolding write_master_waited wait_loop
  write_master interrupted nonblock wakes first_left second_left bytes c =
      let waited = wait_loop (λ t. has_space t.master2slave_buf) nonblock wakes c in
      if interrupted
      then done (err erestartsys) [] c
      else write_master_waited first_left second_left bytes waited
