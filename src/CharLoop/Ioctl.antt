-- ===== src/CharLoop/Ioctl.antt =====
-- The ioctls of kernel/eq3_char_loop.c, on a channel's two sides and on the control file.
pub mod Events
pub mod Terminal
use pi_vccu.Prelude.{
  ℕ, ◌/◌, ◌%◌, ◌^◌, bit_or, ltb, ◌==◌, ◌&&◌, ◌||◌, not, List, Option, none, some, Bool, true, false,
  if◌then◌else◌,
}
use pi_vccu.Kernel.{CircMacros, Ret, ok, err, Errno, erestartsys, efault, enotty}
use pi_vccu.CharLoop.{bufsize, Termios, Channel}
use pi_vccu.CharLoop.Session.{create_slave_dev}

-- `struct termios2`.
pub record Termios2 : Type 0 where
  pub c2_iflag : ℕ
  pub c2_oflag : ℕ
  pub c2_cflag : ℕ
  pub c2_lflag : ℕ
  pub c2_line : ℕ
  pub c2_cc : List ℕ
  pub c2_ispeed : ℕ
  pub c2_ospeed : ℕ

-- What arrives in the user's memory: a number; one of the two structures, or the counters, which are
-- all 0, each without as many bytes at its end as `copy_to_user` leaves out.
pub data LoopReply : Type 0 where
  no_reply : LoopReply
  word : ℕ → LoopReply
  settings : Termios → ℕ → LoopReply
  settings2 : Termios2 → ℕ → LoopReply
  counters : ℕ → LoopReply

-- `__put_user`.
unfoldable pub put_user : Option Errno → ℕ → Ret × LoopReply
put_user (some e) v = (err e, no_reply)
put_user none v = (ok 0, word v)

-- The commands of a slave: `tcsets` stands for TCSETS, TCSETSW and TCSETSF, `tcsets2` for their
-- three versions with a termios2, and `other` is one that the switch does not name.
pub data SlaveCommand : Type 0 where
  tcgets tcsets tcgets2 tcsets2 tiocinq tiocoutq tiocexcl tcflsh tiocmget tiocmset : SlaveCommand
  tiocsergetlsr tiocgicount other : SlaveCommand

-- What the calls of `eq3loop_ioctl_slave` give: whether the wait for the semaphore is interrupted,
-- `_access_ok`, `__put_user`, the number of bytes that a copy leaves out, and what `copy_from_user`
-- leaves in the two structures. `modem_lines` is `TIOCM_DSR | TIOCM_CD | TIOCM_CTS`, and
-- `transmitter_empty` is `TIOCSER_TEMT`.
pub record SlaveCalls : Type 0 where
  pub interrupted : Bool
  pub access : Bool
  pub put : Option Errno
  pub not_copied : ℕ
  pub copied_termios : Termios
  pub copied_termios2 : Termios2
  pub modem_lines : ℕ
  pub transmitter_empty : ℕ

-- The structure of TCGETS2, which has no speeds, and the settings that TCSETS2 takes from its own.
unfoldable pub to_termios2 : Termios → Termios2
to_termios2 t = record {
  c2_iflag = t.c_iflag;
  c2_oflag = t.c_oflag;
  c2_cflag = t.c_cflag;
  c2_lflag = t.c_lflag;
  c2_line = t.c_line;
  c2_cc = t.c_cc;
  c2_ispeed = 0;
  c2_ospeed = 0;
}

unfoldable pub of_termios2 : Termios2 → Termios
of_termios2 t2 = record {
  c_iflag = t2.c2_iflag;
  c_oflag = t2.c2_oflag;
  c_cflag = t2.c2_cflag;
  c_lflag = t2.c2_lflag;
  c_line = t2.c2_line;
  c_cc = t2.c2_cc;
}

-- A copy to the user, where `_access_ok` allows it.
unfoldable pub copied_out : SlaveCalls → LoopReply → Channel → (Ret × LoopReply) × Channel
copied_out calls r c =
    if calls.access then ((ok calls.not_copied, r), c) else ((err efault, no_reply), c)

-- A copy from the user that leaves the channel with `t`.
unfoldable pub copied_in : SlaveCalls → Termios → Channel → (Ret × LoopReply) × Channel
copied_in calls t c =
    if calls.access
    then ((ok calls.not_copied, no_reply), record c { termios = t })
    else ((err efault, no_reply), c)

module _ (circ : CircMacros) (calls : SlaveCalls) where
  -- The switch of `eq3loop_ioctl_slave`.
  unfoldable pub slave_switch : SlaveCommand → Channel → (Ret × LoopReply) × Channel
  slave_switch tcgets c = copied_out calls (settings c.termios calls.not_copied) c
  slave_switch tcsets c = copied_in calls calls.copied_termios c
  slave_switch tcgets2 c = copied_out calls (settings2 (to_termios2 c.termios) calls.not_copied) c
  slave_switch tcsets2 c =
      copied_in calls
        (if calls.not_copied == 0 then of_termios2 calls.copied_termios2 else c.termios) c
  slave_switch tiocinq c = (
    put_user calls.put (circ.circ_cnt c.master2slave_buf.head c.master2slave_buf.tail bufsize),
    c,
  )
  slave_switch tiocoutq c = (
    put_user calls.put (circ.circ_cnt c.slave2master_buf.head c.slave2master_buf.tail bufsize),
    c,
  )
  slave_switch tiocexcl c = ((ok 0, no_reply), c)
  slave_switch tcflsh c = ((ok 0, no_reply), c)
  slave_switch tiocmget c = (put_user calls.put calls.modem_lines, c)
  slave_switch tiocmset c = ((ok 0, no_reply), c)
  slave_switch tiocsergetlsr c = (put_user calls.put calls.transmitter_empty, c)
  slave_switch tiocgicount c = copied_out calls (counters calls.not_copied) c
  slave_switch other c = ((err enotty, no_reply), c)

  -- `eq3loop_ioctl_slave`.
  unfoldable pub ioctl_slave : SlaveCommand → Channel → (Ret × LoopReply) × Channel
  unfolding slave_switch
  ioctl_slave cmd c =
      if calls.interrupted then ((err erestartsys, no_reply), c) else slave_switch cmd c

-- A command for the master or for the control file: one with another magic number,
-- EQ3LOOP_IOCGEVENTS and EQ3LOOP_IOCSCREATESLAVE, and any other with what its direction says.
pub data LoopCommand : Type 0 where
  foreign iocgevents iocscreateslave : LoopCommand
  unnamed : (reads writes : Bool) → LoopCommand

unfoldable pub has_read_bit : LoopCommand → Bool
has_read_bit iocgevents = true
has_read_bit (unnamed reads writes) = reads
has_read_bit cmd = false

unfoldable pub has_write_bit : LoopCommand → Bool
has_write_bit iocscreateslave = true
has_write_bit (unnamed reads writes) = writes
has_write_bit cmd = false

-- The bits of `pending_events` as a number, and the flags of a number.
unfoldable pub event_bits : Channel → ℕ
event_bits c = bit_or (if c.event_slave_opened then 2 ^ 0 else 0) (
    bit_or (if c.event_slave_closed then 2 ^ 1 else 0) (if c.state_slave_opened then 2 ^ 15 else 0))

unfoldable pub set_events : ℕ → Channel → Channel
set_events temp c = record c {
  event_slave_opened = temp % 2 == 1;
  event_slave_closed = temp / 2 % 2 == 1;
  state_slave_opened = temp / 2 ^ 15 % 2 == 1;
}

-- Where `__put_user` fails, the bits are put back.
unfoldable pub restored : Option Errno → ℕ → Channel → Channel
restored none temp c = c
restored (some e) temp c = set_events temp c

-- EQ3LOOP_IOCGEVENTS.
unfoldable pub get_events : Option Errno → Channel → (Ret × LoopReply) × Channel
get_events put c =
    let temp = event_bits c in
    let cleared = record c { event_slave_opened = false; event_slave_closed = false } in
    (put_user put temp, restored put temp cleared)

unfoldable pub master_switch : Option Errno → LoopCommand → Channel → (Ret × LoopReply) × Channel
master_switch put iocgevents c = get_events put c
master_switch put foreign c = ((err enotty, no_reply), c)
master_switch put iocscreateslave c = ((err enotty, no_reply), c)
master_switch put (unnamed reads writes) c = ((err enotty, no_reply), c)

unfoldable pub has_magic : LoopCommand → Bool
has_magic foreign = false
has_magic cmd = true

-- `eq3loop_ioctl_master`. The arguments are `_access_ok` and `__put_user`.
unfoldable pub ioctl_master :
    Bool → Option Errno → LoopCommand → Channel → (Ret × LoopReply) × Channel
unfolding has_magic has_read_bit has_write_bit master_switch
ioctl_master access put cmd c =
    let refused =
      if has_read_bit cmd then not access else if has_write_bit cmd then not access else false in
    if not (has_magic cmd)
    then ((err enotty, no_reply), c)
    else if refused
    then ((err efault, no_reply), c)
    else master_switch put cmd c

-- The creation of a slave behind `strncpy_from_user`, which gives the length of the name.
unfoldable pub create_named :
    Ret → Ret × Option ℕ × List Channel → List Channel → Ret × Option ℕ × List Channel
create_named (err e) made channels = (err efault, none, channels)
create_named (ok n) made channels = if ltb 0 n then made else (err efault, none, channels)

-- `eq3loop_ioctl_ctrl`, with what `eq3loop_create_slave_dev` depends on; the index is that of the
-- channel whose master the file becomes.
unfoldable pub ioctl_ctrl :
    LoopCommand → Ret → Bool → Bool → Bool → List Channel → Ret × Option ℕ × List Channel
ioctl_ctrl iocscreateslave copied interrupted no_device no_memory channels =
    create_named copied (create_slave_dev interrupted no_device no_memory channels) channels
ioctl_ctrl foreign copied interrupted no_device no_memory channels = (err enotty, none, channels)
ioctl_ctrl iocgevents copied interrupted no_device no_memory channels = (err enotty, none, channels)
ioctl_ctrl (unnamed reads writes) copied interrupted no_device no_memory channels =
    (err enotty, none, channels)
