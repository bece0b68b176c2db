-- ===== src/CharLoop/Files.antt =====
-- The files of kernel/eq3_char_loop.c: its file operations, which pass a call on to the side of a
-- channel that the file stands for. An access past the array of channels is `none`.
pub mod Created
use pi_vccu.Prelude.{
  ℕ, ◌+◌, ◌-◌, ◌%◌, ◌^◌, leb, ◌==◌, not, List, [], Option, none, some, Bool, true, false,
  if◌then◌else◌, get_elem?, set,
}
use pi_vccu.Kernel.{CircMacros, Ret, ok, err, Errno, efault, enodev}
use pi_vccu.Kernel.Wait.{Wake}
use pi_vccu.CharLoop.{
  Channel, Call, done, waits, read_slave, read_master, write_slave, write_master,
}
use pi_vccu.CharLoop.Session.{
  LoopMask, open_slave, close_slave, close_master, poll_master, poll_slave,
}
use pi_vccu.CharLoop.Ioctl.{
  LoopReply, no_reply, LoopCommand, SlaveCommand, SlaveCalls, ioctl_master, ioctl_slave, ioctl_ctrl,
}

abbrev pub number_of_channels : ℕ
number_of_channels = 4

pub data Side : Type 0 where
  master_side slave_side : Side

-- `private_data`: none in a file of the control device, else the connection's side and the index of
-- its channel, by which the source chooses the functions of `struct eq3loop_connection_data`.
abbrev pub LoopFile : Type 0
LoopFile = Option (Side × ℕ)

-- A read or a write of a file comes to a result with the bytes for the user, or it waits on.
pub data FileCall : Type 0 where
  returned : Ret → List ℕ → List Channel → FileCall
  sleeping : List Channel → FileCall

unfoldable pub of_call : ℕ → List Channel → Call → FileCall
of_call i channels (done ret bytes c) = returned ret bytes (set channels i c)
of_call i channels (waits c) = sleeping (set channels i c)

-- A call on the channel that stands at the index, if there is one.
unfoldable pub called : (Channel → Call) → ℕ → List Channel → Option Channel → Option FileCall
called f i channels none = none
called f i channels (some c) = some (of_call i channels (f c))

abbrev pub call_at : (Channel → Call) → ℕ → List Channel → Option FileCall
call_at f i channels = called f i channels (get_elem? channels i)

-- The same for a call that always returns.
unfoldable pub result_of :
    {A : Type 0}
    → (Channel → A × Channel)
    → ℕ
    → List Channel
    → Option Channel
    → Option (A × List Channel)
result_of f i channels none = none
result_of f i channels (some c) = let (a, d) = f c in some (a, set channels i d)

abbrev pub result_at :
    {A : Type 0} → (Channel → A × Channel) → ℕ → List Channel → Option (A × List Channel)
result_at f i channels = result_of f i channels (get_elem? channels i)

module _ (circ : CircMacros) (interrupted nonblock : Bool) (wakes : List (Wake Channel)) where
  -- `eq3loop_read`.
  unfoldable pub read_file : Bool → Bool → ℕ → LoopFile → List Channel → Option FileCall
  read_file first_fails second_fails count none channels = some (returned (err efault) [] channels)
  read_file first_fails second_fails count (some (slave_side, i)) channels =
      call_at (read_slave circ interrupted nonblock wakes first_fails second_fails count) i channels
  read_file first_fails second_fails count (some (master_side, i)) channels =
      call_at (read_master circ interrupted nonblock wakes first_fails second_fails count) i
        channels

  -- `eq3loop_write`.
  unfoldable pub write_file :
      Option (List ℕ) → Option (List ℕ) → List ℕ → LoopFile → List Channel → Option FileCall
  write_file first_left second_left bytes none channels = some (returned (err efault) [] channels)
  write_file first_left second_left bytes (some (slave_side, i)) channels =
      call_at (write_slave circ interrupted nonblock wakes first_left second_left bytes) i channels
  write_file first_left second_left bytes (some (master_side, i)) channels =
      call_at (write_master circ interrupted nonblock wakes first_left second_left bytes) i channels

-- `eq3loop_close`. A failing `down_interruptible` has a flag each, the second one for the control
-- data.
unfoldable pub close_file : Bool → Bool → LoopFile → List Channel → Option (Ret × List Channel)
close_file interrupted control_interrupted none channels = some (ok 0, channels)
close_file interrupted control_interrupted (some (slave_side, i)) channels =
    result_at (close_slave interrupted) i channels
close_file interrupted control_interrupted (some (master_side, i)) channels =
    result_at (close_master interrupted control_interrupted) i channels

-- `eq3loop_poll`: a mask, or `none` for an error number in its place.
unfoldable pub poll_file :
    CircMacros → Bool → LoopFile → List Channel → Option (Option LoopMask × List Channel)
poll_file circ interrupted none channels = some (none, channels)
poll_file circ interrupted (some (slave_side, i)) channels =
    result_at (λ c. (poll_slave circ interrupted c, c)) i channels
poll_file circ interrupted (some (master_side, i)) channels =
    result_at (λ c. (poll_master circ interrupted c, c)) i channels

-- The file of a slave that has opened its channel.
unfoldable pub slave_file : ℕ → Ret → LoopFile
slave_file i (err e) = none
slave_file i (ok n) = if n == 0 then some (slave_side, i) else none

unfoldable pub opened : ℕ → Option (Ret × List Channel) → Option ((Ret × LoopFile) × List Channel)
opened i none = none
opened i (some (ret, channels)) = some ((ret, slave_file i ret), channels)

-- `eq3loop_open`. The minor number of the control device is `base`, and both are minor numbers of
-- this driver; the index wraps around as an unsigned int does.
unfoldable pub open_file :
    (loaded interrupted no_memory : Bool) (base minor : ℕ)
    → List Channel
    → Option ((Ret × LoopFile) × List Channel)
open_file loaded interrupted no_memory base minor channels =
    let index = (minor + 2 ^ 32 - base - 1) % 2 ^ 32 in
    if not loaded
    then some ((err enodev, none), channels)
    else if minor == base
    then some ((ok 0, none), channels)
    else if leb number_of_channels index
    then some ((err enodev, none), channels)
    else opened index (result_at (open_slave interrupted no_memory) index channels)

-- A command's number, as the two switches read it.
pub record FileCommand : Type 0 where
  pub to_loop : LoopCommand
  pub to_slave : SlaveCommand

-- What the calls of an ioctl give on the three kinds of file.
pub record FileCalls : Type 0 where
  pub slave_calls : SlaveCalls
  pub access : Bool
  pub put : Option Errno
  pub name_copied : Ret
  pub control_interrupted : Bool
  pub no_device : Bool
  pub no_memory : Bool

-- The control file becomes the file of a master where its ioctl has made a channel.
unfoldable pub master_file : Ret → Option ℕ → LoopFile
master_file (err e) chosen = none
master_file (ok n) none = none
master_file (ok n) (some i) = if n == 0 then some (master_side, i) else none

unfoldable pub kept_file :
    LoopFile
    → Option ((Ret × LoopReply) × List Channel)
    → Option ((Ret × LoopReply) × LoopFile × List Channel)
kept_file file none = none
kept_file file (some (r, channels)) = some (r, file, channels)

-- `eq3loop_ioctl`. The result has the file as it then is.
unfoldable pub ioctl_file :
    CircMacros
    → FileCalls
    → FileCommand
    → LoopFile
    → List Channel
    → Option ((Ret × LoopReply) × LoopFile × List Channel)
ioctl_file circ calls cmd none channels =
    let (ret, chosen, made) =
      ioctl_ctrl cmd.to_loop calls.name_copied calls.control_interrupted calls.no_device
        calls.no_memory channels in
    some ((ret, no_reply), master_file ret chosen, made)
ioctl_file circ calls cmd (some (slave_side, i)) channels =
    kept_file (some (slave_side, i))
      (result_at (ioctl_slave circ calls.slave_calls cmd.to_slave) i channels)
ioctl_file circ calls cmd (some (master_side, i)) channels =
    kept_file (some (master_side, i))
      (result_at (ioctl_master calls.access calls.put cmd.to_loop) i channels)
