-- ===== src/CharLoop/Session.antt =====
-- Opening, closing and polling the two sides of a channel of kernel/eq3_char_loop.c, and the
-- creation of a channel.
pub mod Stale
use pi_vccu.Prelude.{
  ℕ, suc, ◌+◌, ◌-◌, ◌<◌, List, [], ◌∷◌, Option, none, some, Bool, true, false, not, ◌&&◌, ◌||◌,
  ◌==◌, if◌then◌else◌, replicate,
}
use pi_vccu.Kernel.{CircMacros, Ret, ok, err, erestartsys, enodev, ebusy, enomem, einval}
use pi_vccu.Ring.{CircBuf}
use pi_vccu.CharLoop.{bufsize, Termios, Channel, has_data, has_space}

-- `eq3loop_open_slave`. The flags say whether `down_interruptible` and `kzalloc` fail.
unfoldable pub open_slave : Bool → Bool → Channel → Ret × Channel
open_slave interrupted no_memory c =
    let opened = record c {
      slave_open_count = c.slave_open_count + 1;
      event_slave_opened = true;
      state_slave_opened = true;
      master2slave_buf = record (c.master2slave_buf) { head = 0; tail = 0 };
    } in
    if interrupted
    then (err erestartsys, c)
    else if not c.created
    then (err enodev, c)
    else if not (c.slave_open_count == 0)
    then (err ebusy, c)
    else if no_memory
    then (err enomem, c)
    else (ok 0, opened)

-- `eq3loop_close_slave`.
pub close_slave : Bool → Channel → Ret × Channel
close_slave interrupted c =
    let closed = record c {
      slave_open_count = c.slave_open_count - 1;
      event_slave_closed = true;
      state_slave_opened = false;
      device = if not c.created then false else c.device;
    } in
    if interrupted then (err erestartsys, c) else (ok 0, closed)

-- `eq3loop_close_master`. The flags say whether the two `down_interruptible` fail.
unfoldable pub close_master : Bool → Bool → Channel → Ret × Channel
close_master interrupted control_interrupted c =
    let closed = record c {
      created = false;
      device = if c.slave_open_count == 0 then false else c.device;
    } in
    if interrupted
    then (err erestartsys, c)
    else if control_interrupted
    then (err erestartsys, c)
    else (ok 0, closed)

-- The mask of a poll: POLLOUT | POLLWRNORM, POLLIN | POLLRDNORM, POLLPRI and POLLERR.
pub record LoopMask : Type 0 where
  pub writable : Bool
  pub readable : Bool
  pub priority : Bool
  pub error : Bool

-- `eq3loop_poll_master` and `eq3loop_poll_slave`; `none` where `down_interruptible` fails and the
-- error number is returned in place of a mask.
unfoldable pub poll_master : CircMacros → Bool → Channel → Option LoopMask
poll_master circ interrupted c =
    let attached = not (c.slave_open_count == 0) in
    if interrupted
    then none
    else some (record {
      writable = attached && has_space circ c.master2slave_buf;
      readable = attached && has_data circ c.slave2master_buf;
      priority = c.event_slave_opened || c.event_slave_closed;
      error = false;
    })

pub poll_slave : CircMacros → Bool → Channel → Option LoopMask
poll_slave circ interrupted c =
    if interrupted
    then none
    else some (record {
      writable = has_space circ c.slave2master_buf;
      readable = has_data circ c.master2slave_buf;
      priority = false;
      error = not c.created;
    })

-- The 19 control characters are those of most architectures.
abbrev no_termios : Termios
no_termios = record {
  c_iflag = 0;
  c_oflag = 0;
  c_cflag = 0;
  c_lflag = 0;
  c_line = 0;
  c_cc = replicate 19 0;
}

-- `memset` on the channel; the registered device is not part of it.
unfoldable pub zeroed : Channel → Channel
zeroed c = record {
  master2slave_buf = record { buf = replicate bufsize 0; head = 0; tail = 0 };
  slave2master_buf = record { buf = replicate bufsize 0; head = 0; tail = 0 };
  slave_open_count = 0;
  created = false;
  event_slave_opened = false;
  event_slave_closed = false;
  state_slave_opened = false;
  device = c.device;
  termios = no_termios;
}

-- `eq3loop_create_slave_dev` on the channel that it has chosen. `device_create` gives an error
-- pointer and never a null pointer, so that its failure is not noticed.
unfoldable pub create_in : Bool → Bool → Channel → Ret × Channel
unfolding zeroed
create_in no_device no_memory c =
    let registered = record (zeroed c) { device = if no_device then c.device else true } in
    if no_memory then (err enomem, registered) else (ok 0, record registered { created = true })

-- The loop over the channels, to the first one that is not created. The result has its index.
pub create_first : Bool → Bool → List Channel → Ret × Option ℕ × List Channel
unfolding create_in
create_first no_device no_memory [] = (err einval, none, [])
create_first no_device no_memory (c ∷ channels) =
    let (ret, chosen, rest) = create_first no_device no_memory channels in
    let (made, c') = create_in no_device no_memory c in
    if c.created
    then (ret, elim chosen [ none ↦ none | some i ↦ some (suc i) ], c ∷ rest)
    else (made, some 0, c' ∷ channels)

-- `eq3loop_create_slave_dev`. `interrupted` says whether `down_interruptible` fails.
pub create_slave_dev : Bool → Bool → Bool → List Channel → Ret × Option ℕ × List Channel
unfolding create_first
create_slave_dev interrupted no_device no_memory channels =
    let made = create_first no_device no_memory channels in
    if interrupted then (err erestartsys, none, channels) else made
