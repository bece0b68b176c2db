-- ===== src/CharLoop/Tests.antt =====
-- Concrete runs of kernel/eq3_char_loop.c, at indices where a transfer lies in two pieces.
use pi_vccu.Prelude.{
  ◌+◌, ◌%◌, ◌==◌, not, Option, some, ℕ, ◌≤◌, ◌<◌, ◌≡◌, refl, List, [], ◌∷◌, none, true, false,
  length, length-replicate, replicate, eq_nil_of_length, arith,
}
use pi_vccu.Kernel.{ok}
use pi_vccu.Kernel.Sample.{sample_circ}
use pi_vccu.Kernel.Wait.{woken}
use pi_vccu.Ring.{CircBuf, contents, IsRing}
use pi_vccu.Ring.Queue.{length-contents}
use pi_vccu.CharLoop.{Termios, Channel, done, waits, read_slave, write_slave, write_master}
use pi_vccu.CharLoop.Stream.{IsChannel, to_slave_bytes, read_slave-write_master}
use pi_vccu.CharLoop.Session.{open_slave, close_slave}
use pi_vccu.CharLoop.Session.Stale.{stays, then_step, slave_closes, slave_opens, one_slave}
use pi_vccu.CharLoop.Ioctl.{
  SlaveCalls, tiocinq, tcgets, no_reply, word, set_events, ioctl_slave, ioctl_master, iocgevents,
  iocscreateslave,
}
use pi_vccu.CharLoop.Ioctl.Terminal.{granted, ioctl_slave-write_master}
use pi_vccu.CharLoop.Ioctl.Events.{get_events-reports}
use pi_vccu.CharLoop.Session.{LoopMask, poll_master}
use pi_vccu.CharLoop.Files.{
  master_side, slave_side, LoopFile, FileCalls, returned, read_file, write_file, close_file,
  open_file, ioctl_file,
}
use pi_vccu.CharLoop.Files.Created.{among, creating, read_file-ioctl_file}
use pi_vccu.Kernel.{Errno, err, efault, ebusy, enodev}
use pi_vccu.CharLoop.Stuck.{slave_wakes, SlaveStuck, MasterStuck, write_slave-stuck}

unfoldable loop_array : List ℕ
loop_array = replicate 1024 0

length-loop_array : length loop_array ≡ 1024
unfolding loop_array
length-loop_array = let n : ℕ = 0 in length-replicate 1024 n

abbrev ring_at : ℕ → CircBuf ℕ
ring_at head' = record { buf = loop_array; head = head'; tail = 1022 }

ring_at-IsRing : (head' : ℕ) → head' < 1024 → IsRing 1024 (ring_at head')
ring_at-IsRing head' h = record { array = length-loop_array; head_in = h; tail_in = omega arith }

abbrev some_termios : Termios
some_termios = record {
  c_iflag = 0;
  c_oflag = 4;
  c_cflag = 0x18b2;
  c_lflag = 0;
  c_line = 0;
  c_cc = replicate 19 0;
}

abbrev idle_channel : Channel
idle_channel = record {
  master2slave_buf = ring_at 1022;
  slave2master_buf = ring_at 1022;
  slave_open_count = 1;
  created = true;
  event_slave_opened = false;
  event_slave_closed = false;
  state_slave_opened = true;
  device = true;
  termios = some_termios;
}

idle-IsChannel : IsChannel idle_channel
idle-IsChannel = record {
  to_slave = ring_at-IsRing 1022 (omega arith);
  to_master = ring_at-IsRing 1022 (omega arith);
}

idle_empty : contents 1024 (ring_at 1022) ≡ []
idle_empty =
    eq_nil_of_length _ (length-contents 1024 (ring_at 1022) (ring_at-IsRing 1022 (omega arith)))

-- Both buffers are full, and both sides are gone.
abbrev full_channel : Channel
full_channel = record {
  master2slave_buf = ring_at 1021;
  slave2master_buf = ring_at 1021;
  slave_open_count = 0;
  created = false;
  event_slave_opened = false;
  event_slave_closed = true;
  state_slave_opened = false;
  device = false;
  termios = some_termios;
}

full-SlaveStuck : SlaveStuck sample_circ full_channel
full-SlaveStuck = record { closed = refl; full = refl }

full-MasterStuck : MasterStuck sample_circ full_channel
full-MasterStuck = record { closed = refl; full = refl }

read_slave-write_master_example :
    (d e : Channel) × (write_master sample_circ false true [] none none
        (1 ∷ 2 ∷ 3 ∷ [])
        idle_channel
      ≡ done (ok 3) [] d)
    × (read_slave sample_circ false true [] false false 8 d ≡ done (ok 3) (1 ∷ 2 ∷ 3 ∷ []) e)
    × (to_slave_bytes e ≡ [])
read_slave-write_master_example =
    read_slave-write_master sample_circ (1 ∷ 2 ∷ 3 ∷ []) 8 idle_channel idle-IsChannel refl
      idle_empty (omega arith) (omega arith) (omega arith) (omega arith)

write_slave-stuck_example :
    (slave_wakes sample_circ full_channel ≡ true)
    × (write_slave sample_circ false false (woken full_channel ∷ []) none none (1 ∷ []) full_channel
        ≡ waits full_channel)
write_slave-stuck_example =
    write_slave-stuck sample_circ (full_channel ∷ []) none none (1 ∷ []) full_channel
      full-SlaveStuck (full-SlaveStuck, tt)

one_slave_example :
    (open_slave false false (close_slave false idle_channel).1).1.slave_open_count ≤ 1
one_slave_example =
    one_slave
      (then_step idle_channel _ _ (slave_closes false idle_channel)
        (then_step _ _ _ (slave_opens false false (close_slave false idle_channel).1) (stays _)))
      (omega arith)

-- A slave has opened its channel and has gone again.
abbrev noted_channel : Channel
noted_channel = record idle_channel { event_slave_opened = true; event_slave_closed = true }

get_events-reports_example :
    (n : ℕ) × ((ioctl_master true none iocgevents noted_channel).0 ≡ (ok 0, word n))
    × (set_events n noted_channel ≡ noted_channel)
    × ((m : LoopMask) × (poll_master sample_circ false noted_channel ≡ some m)
        × (m.priority ≡ not (n % 4 == 0))
        × (poll_master sample_circ false (ioctl_master true none iocgevents noted_channel).1
            ≡ some (record m { priority = false })))
    × ((e : Errno)
        → ioctl_master true (some e) iocgevents noted_channel ≡ ((err e, no_reply), noted_channel))
    × ((put : Option Errno)
        → ioctl_master false put iocgevents noted_channel ≡ ((err efault, no_reply), noted_channel))
get_events-reports_example = get_events-reports sample_circ noted_channel

abbrev some_calls : SlaveCalls
some_calls = record {
  interrupted = true;
  access = false;
  put = some efault;
  not_copied = 4;
  copied_termios = some_termios;
  copied_termios2 = record {
    c2_iflag = 1;
    c2_oflag = 4;
    c2_cflag = 0x18b2;
    c2_lflag = 2;
    c2_line = 0;
    c2_cc = replicate 19 1;
    c2_ispeed = 9600;
    c2_ospeed = 9600;
  };
  modem_lines = 0x160;
  transmitter_empty = 1;
}

ioctl_slave-write_master_example :
    (d e : Channel) × (out : List ℕ) × (rest : ℕ) × (write_master sample_circ false true [] none
        none
        (1 ∷ 2 ∷ 3 ∷ [])
        idle_channel
      ≡ done (ok 3) [] d)
    × (ioctl_slave sample_circ (granted some_calls) tiocinq d
        ≡ ((ok 0, word (length (to_slave_bytes idle_channel) + 3)), d))
    × (read_slave sample_circ false true [] false false 2 d ≡ done (ok 2) out e)
    × (length out ≡ 2)
    × (ioctl_slave sample_circ (granted some_calls) tiocinq e ≡ ((ok 0, word rest), e))
    × (2 + rest ≡ length (to_slave_bytes idle_channel) + 3)
ioctl_slave-write_master_example =
    let none_waits : length (to_slave_bytes idle_channel) ≡ 0 =
      length-contents 1024 (ring_at 1022) (ring_at-IsRing 1022 (omega arith)) in
    ioctl_slave-write_master sample_circ some_calls (1 ∷ 2 ∷ 3 ∷ []) 2 idle_channel idle-IsChannel
      refl (omega arith) (omega (arith, none_waits)) (omega (arith, none_waits))

abbrev file_calls : FileCalls
file_calls = record {
  slave_calls = some_calls;
  access = false;
  put = some efault;
  name_copied = err efault;
  control_interrupted = true;
  no_device = true;
  no_memory = true;
}

-- The first channel is taken, the second one is free.
read_file-ioctl_file_example :
    let front : List Channel = idle_channel ∷ [] in
    let back : List Channel = full_channel ∷ full_channel ∷ [] in
    let bytes : List ℕ = 1 ∷ 2 ∷ 3 ∷ [] in
    let master : LoopFile = some (master_side, 1) in
    let slave : LoopFile = some (slave_side, 1) in
    (c1 c2 c3 c4 c5 : Channel) × (ioctl_file sample_circ
        (creating sample_circ file_calls 5 64 front back full_channel)
        (record { to_loop = iocscreateslave; to_slave = tcgets })
        none
        (among front back full_channel)
      ≡ some ((ok 0, no_reply), master, among front back c1))
    × (open_file true false false 64 66 (among front back c1)
        ≡ some ((ok 0, slave), among front back c2))
    × (open_file true false false 64 66 (among front back c2)
        ≡ some ((err ebusy, none), among front back c2))
    × (write_file sample_circ false true [] none none bytes master (among front back c2)
        ≡ some (returned (ok 3) [] (among front back c3)))
    × (read_file sample_circ false true [] false false 8 slave (among front back c3)
        ≡ some (returned (ok 3) bytes (among front back c4)))
    × (close_file false false master (among front back c4) ≡ some (ok 0, among front back c5))
    × (read_file sample_circ false true [] false false 8 slave (among front back c5)
        ≡ some (returned (err enodev) [] (among front back c5)))
read_file-ioctl_file_example =
    read_file-ioctl_file sample_circ file_calls 5 64 (idle_channel ∷ [])
      (full_channel ∷ full_channel ∷ []) full_channel tcgets (1 ∷ 2 ∷ 3 ∷ []) 8 (refl, tt) refl
      (omega arith) (omega arith) (omega arith) (omega arith) (omega arith)
