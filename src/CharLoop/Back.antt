-- ===== src/CharLoop/Back.antt =====
-- The direction from the slave to the master of a channel of kernel/eq3_char_loop.c.
use pi_vccu.Prelude.{
  ℕ, ◌+◌, ◌^◌, ◌≤◌, ◌<◌, min, ◌≡◌, refl, sym, ap, ◌∙◌, List, [], ◌++◌, none, Bool, true, false, not,
  ◌&&◌, ◌==◌, length, length-append, append-nil, eq_nil_of_length, if◌then◌else◌, arith,
}
use pi_vccu.Kernel.{CircMacros, ok}
use pi_vccu.Kernel.Wait.{Wake, wait_loop_at_once}
use pi_vccu.CharLoop.{
  Channel, Call, done, has_data, has_space, read_pieces, write_pieces, read_master_waited,
  read_master, write_slave_waited, write_slave,
}
use pi_vccu.CharLoop.Stream.{IsChannel, to_master_bytes, has_data_lem, has_space_lem, wrote_pieces}
use pi_vccu.CharLoop.Pieces.{read_pieces-Taken}

chosen : (b : Bool) → b ≡ false → (x y : Call) → (if b then x else y) ≡ y
chosen b e x y = rw e

module _ (circ : CircMacros) (nonblock : Bool) (wakes : List (Wake Channel)) where
  -- A write of the slave to a channel that exists, if it fits, returns at once, and its bytes are
  -- behind those for the master.
  pub write_slave_lem :
      (bytes : List ℕ) (c : Channel)
      → IsChannel c
      → c.created ≡ true
      → 0 < length bytes
      → length (to_master_bytes c) + length bytes ≤ 1023
      → (d : Channel) × (write_slave circ false nonblock wakes none none bytes c
          ≡ done (ok (length bytes)) [] d)
        × (to_master_bytes d ≡ to_master_bytes c ++ bytes)
        × (d.slave_open_count ≡ c.slave_open_count)
        × IsChannel d
  unfolding write_slave write_slave_waited
  write_slave_lem bytes c v up some_byte room =
      let space = has_space_lem circ c.slave2master_buf v.to_master (omega arith) in
      let p = wrote_pieces circ c.slave2master_buf v.to_master bytes room in
      let (ret, r) = write_pieces circ none none bytes c.slave2master_buf in
      let d = record c { slave2master_buf = r } in
      (
        d,
        rw
            (wait_loop_at_once (λ (t : Channel). has_space circ t.slave2master_buf) nonblock wakes c
              space)
            (chosen (not c.created) (ap not up) _ _ ∙ ap (λ x. done x [] d) p.returned),
        p.appended,
        refl,
        record { to_slave = v.to_slave; to_master = p.valid },
      )

  -- A read of the master where the slave is open and something waits returns at once, with the
  -- oldest bytes.
  pub read_master_lem :
      (count : ℕ) (c : Channel)
      → IsChannel c
      → 0 < c.slave_open_count
      → count < 2 ^ 31
      → 0 < length (to_master_bytes c)
      → (bytes : List ℕ) × (d : Channel) × (read_master circ false nonblock wakes false false count
            c
          ≡ done (ok (length bytes)) bytes d)
        × (to_master_bytes c ≡ bytes ++ to_master_bytes d)
        × (length bytes ≡ min count (length (to_master_bytes c)))
        × IsChannel d
  unfolding read_master read_master_waited
  read_master_lem count c v up h waiting =
      let some_data = has_data_lem circ c.slave2master_buf v.to_master waiting in
      let p = read_pieces-Taken circ c.slave2master_buf v.to_master count h in
      let (ret, bytes, r) = read_pieces circ false false count c.slave2master_buf in
      let d = record c { slave2master_buf = r } in
      let test = λ (t : Channel).
        not (not (t.slave_open_count == 0) && not (has_data circ t.slave2master_buf)) in
      let used_too : (c.slave_open_count == 0) ≡ false = ground arith in
      let go : test c ≡ true = rw (used_too, some_data) in
      (
        bytes,
        d,
        rw (wait_loop_at_once test nonblock wakes c go)
            (chosen (c.slave_open_count == 0) used_too _ _ ∙ ap (λ x. done x bytes d) p.returned),
        p.oldest,
        p.as_many,
        record { to_slave = v.to_slave; to_master = p.valid },
      )

module _ (circ : CircMacros) where
  -- What the slave writes to a channel that exists and is open, the master reads: with nothing
  -- waiting before, a read of enough bytes gives exactly the bytes of the write, in order, and
  -- empties the buffer again.
  pub read_master-write_slave :
      (bytes : List ℕ) (count : ℕ) (c : Channel)
      → IsChannel c
      → c.created ≡ true
      → 0 < c.slave_open_count
      → to_master_bytes c ≡ []
      → 0 < length bytes
      → length bytes ≤ 1023
      → length bytes ≤ count
      → count < 2 ^ 31
      → (d e : Channel) × (write_slave circ false true [] none none bytes c
          ≡ done (ok (length bytes)) [] d)
        × (read_master circ false true [] false false count d ≡ done (ok (length bytes)) bytes e)
        × (to_master_bytes e ≡ [])
  read_master-write_slave bytes count c v up attached empty some_byte fits enough h =
      let before : length (to_master_bytes c) ≡ 0 = ap length empty in
      let (d, w, app, cr, vd) =
        write_slave_lem circ true [] bytes c v up some_byte (omega (arith, before)) in
      let all : to_master_bytes d ≡ bytes = app ∙ ap (λ t. t ++ bytes) empty in
      let many : length (to_master_bytes d) ≡ length bytes = ap length all in
      let (out, e, run, old, n, ve) =
        read_master_lem circ true [] count d vd (omega (arith, cr, attached)) h
          (omega (arith, many)) in
      let split : length (to_master_bytes d) ≡ length out + length (to_master_bytes e) =
        ap length old ∙ length-append out (to_master_bytes e) in
      let none_left : to_master_bytes e ≡ [] =
        eq_nil_of_length (to_master_bytes e) (omega (arith, split, n, many)) in
      let same : out ≡ bytes =
        sym (append-nil out) ∙ ap (λ t. out ++ t) (sym none_left) ∙ sym old ∙ all in
      (d, e, w, run ∙ ap (λ b. done (ok (length b)) b e) same, none_left)
