-- ===== src/CharLoop/Files/Created.antt =====
-- A channel of kernel/eq3_char_loop.c from its creation on, through the files of both sides.
use pi_vccu.Prelude.{
  ℕ, suc, ◌+◌, ◌-◌, ◌%◌, ◌^◌, ◌≤◌, ◌<◌, ◌≡◌, refl, ap, ◌∙◌, List, [], ◌∷◌, ◌++◌, Option, none, some,
  Bool, true, false, All, length, replicate, length-replicate, get_elem?, set, eq_nil_of_length,
  ltb, leb, ◌==◌, lt→ltb, lt→leb, ==-ne, if◌then◌else◌, arith,
}
use pi_vccu.Kernel.{CircMacros, Ret, ok, err, efault, ebusy, enodev}
use pi_vccu.Ring.{IsRing}
use pi_vccu.Ring.Queue.{length-contents}
use pi_vccu.CharLoop.{bufsize, Channel, Call, done, read_slave, write_master}
use pi_vccu.CharLoop.Session.{open_slave, close_master, zeroed, create_in, create_slave_dev}
use pi_vccu.CharLoop.Session.Stale.{create_slave_dev-first_free}
use pi_vccu.CharLoop.Stream.{IsChannel, to_slave_bytes, read_slave-write_master}
use pi_vccu.CharLoop.Ioctl.{no_reply, iocscreateslave, SlaveCommand, create_named, ioctl_ctrl}
use pi_vccu.CharLoop.Files.{
  number_of_channels, master_side, slave_side, LoopFile, returned, of_call, called, result_of,
  call_at, result_at, read_file, write_file, close_file, slave_file, opened, open_file, FileCalls,
  master_file, ioctl_file,
}

module _ (front back : List Channel) where
  -- The channels with `c` between the two others.
  abbrev pub among : Channel → List Channel
  among c = front ++ (c ∷ back)

module _ where
  get_elem?-among :
      (front back : List Channel) (c : Channel)
      → get_elem? (among front back c) (length front) ≡ some c
  get_elem?-among [] back c = refl
  get_elem?-among (d ∷ front) back c = get_elem?-among front back c

  set-among :
      (front back : List Channel) (c d : Channel)
      → set (among front back c) (length front) d ≡ among front back d
  set-among [] back c d = refl
  set-among (e ∷ front) back c d = ap (λ t. e ∷ t) (set-among front back c d)

module _ (front back : List Channel) where
  result_at_lem :
      {A : Type 0} (f : Channel → A × Channel) (c : Channel)
      → result_at f (length front) (among front back c) ≡ some ((f c).0, among front back (f c).1)
  unfolding result_of
  result_at_lem f c =
      ap (result_of f (length front) (among front back c)) (get_elem?-among front back c)
      ∙ ap (λ l. some ((f c).0, l)) (set-among front back c (f c).1)

  call_at_lem :
      (f : Channel → Call) (c d : Channel) (ret : Ret) (bytes : List ℕ)
      → f c ≡ done ret bytes d
      → call_at f (length front) (among front back c)
        ≡ some (returned ret bytes (among front back d))
  unfolding called of_call
  call_at_lem f c d ret bytes h =
      ap (called f (length front) (among front back c)) (get_elem?-among front back c)
      ∙ ap (λ k. some (of_call (length front) (among front back c) k)) h
      ∙ ap (λ l. some (returned ret bytes l)) (set-among front back c d)

-- A channel that has just been created, and then opened by a slave.
abbrev anew : Channel → Channel
anew c = (create_in false false c).1

abbrev attached : Channel → Channel
attached c = (open_slave false false (anew c)).1

attached-IsChannel : (c : Channel) → IsChannel (attached c)
unfolding open_slave create_in zeroed
attached-IsChannel c =
    let zero_byte : ℕ = 0 in
    let empty : (IsRing bufsize
        (record { buf = replicate bufsize zero_byte; head = 0; tail = 0 })) =
      record {
        array = length-replicate 1024 zero_byte;
        head_in = omega arith;
        tail_in = omega arith;
      } in
    record { to_slave = empty; to_master = empty }

attached_empty : (c : Channel) → to_slave_bytes (attached c) ≡ []
unfolding open_slave create_in zeroed
attached_empty c =
    eq_nil_of_length _
      (length-contents 1024 (attached c).master2slave_buf (attached-IsChannel c).to_slave)

module _ (circ : CircMacros) (calls : FileCalls) (n base : ℕ) (front back : List Channel)
    (c : Channel) where
  -- The calls of the ioctl that creates a slave with a name of some length, which all succeed.
  abbrev pub creating : FileCalls
  creating = record calls {
    name_copied = ok (suc n);
    control_interrupted = false;
    no_device = false;
    no_memory = false;
  }

  -- The control file creates a slave, whose channel is the first one that is free.
  creates_channel :
      (cmd : SlaveCommand)
      → All (λ d. d.created ≡ true) front
      → c.created ≡ false
      → ioctl_file circ creating
          (record { to_loop = iocscreateslave; to_slave = cmd })
          none
          (among front back c)
        ≡ some ((ok 0, no_reply), some (master_side, length front), among front back (anew c))
  unfolding ioctl_file ioctl_ctrl create_named create_in zeroed master_file
  creates_channel cmd h e =
      let channels = among front back c in
      let long : ltb 0 (suc n) ≡ true = lt→ltb 0 (suc n) (omega arith) in
      let finish =
        λ (r : Ret × Option ℕ × List Channel). some ((r.0, no_reply), master_file r.0 r.1, r.2) in
      ap
        (λ b.
          finish (
            if b
            then create_slave_dev false false false channels
            else (err efault, none, channels)))
        long
      ∙ ap finish (create_slave_dev-first_free false false front back c h e)

  -- A slave opens the channel `d` by its minor number.
  opens :
      (no_memory : Bool) (d : Channel)
      → length front < 4
      → let r = open_slave false no_memory d in
        open_file true false no_memory base (base + 1 + length front) (among front back d)
        ≡ some ((r.0, slave_file (length front) r.0), among front back r.1)
  unfolding open_file opened
  opens no_memory d h =
      let i = length front in
      let channels = among front back d in
      let k = (base + 1 + i + 2 ^ 32 - base - 1) % 2 ^ 32 in
      let same : k ≡ i = omega arith in
      let elsewhere : (base + 1 + i == base) ≡ false =
        ==-ne (base + 1 + i) base (λ e. omega arith) in
      let refused = some ((err enodev, none), channels) in
      let at = λ (k : ℕ). opened k (result_at (open_slave false no_memory) k channels) in
      let checked = λ (k : ℕ). if leb number_of_channels k then refused else at k in
      ap (λ b. if b then some ((ok 0, none), channels) else checked k) elsewhere
      ∙ ap checked same
      ∙ ap (λ b. if b then refused else at i) (lt→leb i 4 h)
      ∙ ap (opened i) (result_at_lem front back (open_slave false no_memory) d)

  -- A program's control file creates a slave in the first channel that is free, and becomes the file
  -- of its master; where no call fails, the slave opens by the minor number behind the control
  -- device's and the channels before it, and a second slave is refused. What the master writes the
  -- slave reads, through their files. Once the master's file is closed, reads of the slave give
  -- ENODEV. All the while the other channels are as they were.
  pub read_file-ioctl_file :
      (cmd : SlaveCommand) (bytes : List ℕ) (count : ℕ)
      → All (λ d. d.created ≡ true) front
      → c.created ≡ false
      → length front < 4
      → 0 < length bytes
      → length bytes ≤ 1023
      → length bytes ≤ count
      → count < 2 ^ 31
      → let i = length front in
        let minor = base + 1 + i in
        let master : LoopFile = some (master_side, i) in
        let slave : LoopFile = some (slave_side, i) in
        (c1 c2 c3 c4 c5 : Channel) × (ioctl_file circ creating
            (record { to_loop = iocscreateslave; to_slave = cmd })
            none
            (among front back c)
          ≡ some ((ok 0, no_reply), master, among front back c1))
        × (open_file true false false base minor (among front back c1)
            ≡ some ((ok 0, slave), among front back c2))
        × (open_file true false false base minor (among front back c2)
            ≡ some ((err ebusy, none), among front back c2))
        × (write_file circ false true [] none none bytes master (among front back c2)
            ≡ some (returned (ok (length bytes)) [] (among front back c3)))
        × (read_file circ false true [] false false count slave (among front back c3)
            ≡ some (returned (ok (length bytes)) bytes (among front back c4)))
        × (close_file false false master (among front back c4) ≡ some (ok 0, among front back c5))
        × (read_file circ false true [] false false count slave (among front back c5)
            ≡ some (returned (err enodev) [] (among front back c5)))
  unfolding open_slave create_in zeroed write_file read_file close_file close_master read_slave
      slave_file
  read_file-ioctl_file cmd bytes count h e few some_byte fits enough small =
      let (d, r, w, run, rest) =
        read_slave-write_master circ bytes count (attached c) (attached-IsChannel c) refl
          (attached_empty c) some_byte fits enough small in
      let closed = (close_master false false r).1 in
      (
        anew c,
        attached c,
        d,
        r,
        closed,
        creates_channel cmd h e,
        opens false (anew c) few,
        opens false (attached c) few,
        call_at_lem front back (write_master circ false true [] none none bytes) (attached c) d _ _
            w,
        call_at_lem front back (read_slave circ false true [] false false count) d r _ _ run,
        result_at_lem front back (close_master false false) r,
        call_at_lem front back (read_slave circ false true [] false false count) closed closed _ _
            refl,
      )
