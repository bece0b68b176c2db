-- ===== src/CharLoop/Stream.antt =====
-- The direction from the master to the slave of a channel of kernel/eq3_char_loop.c.
use pi_vccu.Prelude.{
  ℕ, ◌+◌, ◌^◌, ◌≤◌, ◌<◌, min, ◌≡◌, refl, sym, ap, ◌∙◌, List, [], ◌++◌, none, Bool, true, false, not,
  ◌&&◌, length, length-append, append-nil, eq_nil_of_length, inl, inr, if◌then◌else◌, arith,
}
use pi_vccu.Kernel.{CircMacros, ok}
use pi_vccu.Kernel.Wait.{Wake, wait_loop_at_once}
use pi_vccu.Ring.{CircBuf, contents, IsRing, circ_cnt-eq_used, circ_space-eq_used}
use pi_vccu.Ring.Queue.{length-contents}
use pi_vccu.CharLoop.{
  bufsize, Channel, Call, done, has_data, has_space, read_pieces, write_pieces, read_slave_waited,
  read_slave, write_master_waited, write_master,
}
use pi_vccu.CharLoop.Pieces.{Put, read_pieces-Taken, write_pieces-Put}

-- Both buffers are well formed.
pub record IsChannel (c : Channel) : Type 0 where
  pub to_slave : IsRing bufsize c.master2slave_buf
  pub to_master : IsRing bufsize c.slave2master_buf

abbrev pub to_slave_bytes : Channel → List ℕ
to_slave_bytes c = contents bufsize c.master2slave_buf

abbrev pub to_master_bytes : Channel → List ℕ
to_master_bytes c = contents bufsize c.slave2master_buf

module _ (circ : CircMacros) (r : CircBuf ℕ) (v : IsRing bufsize r) where
  pub has_data_lem : 0 < length (contents bufsize r) → has_data circ r ≡ true
  has_data_lem h =
      let c = circ_cnt-eq_used circ 10 r.head r.tail v.head_in v.tail_in in
      let n = length-contents 1024 r v in
      let pos : 0 < circ.circ_cnt r.head r.tail 1024 = omega (arith, c, n) in ground (arith, pos)

  pub has_space_lem : length (contents bufsize r) < 1023 → has_space circ r ≡ true
  has_space_lem h =
      let c = circ_space-eq_used circ 10 r.head r.tail v.head_in v.tail_in in
      let n = length-contents 1024 r v in
      let pos : 0 < circ.circ_space r.head r.tail 1024 = omega (arith, c, n) in ground (arith, pos)

  pub wrote_pieces :
      (bytes : List ℕ)
      → length (contents bufsize r) + length bytes ≤ 1023
      → Put bytes r (write_pieces circ none none bytes r)
  wrote_pieces bytes h = elim (write_pieces-Put circ r v bytes (omega arith)) [
    | inl p ↦ p.1
    | inr p ↦ absurd (omega (arith, p.0))
  ]

still_created :
    (b : Bool) → b ≡ true → (x y z : Call) → (if not b then x else (if not b then y else z)) ≡ z
still_created b e x y z = rw e

module _ (circ : CircMacros) (nonblock : Bool) (wakes : List (Wake Channel)) where
  -- A write of the master that fits returns at once, and its bytes are behind those for the slave.
  pub write_master_lem :
      (bytes : List ℕ) (c : Channel)
      → IsChannel c
      → 0 < length bytes
      → length (to_slave_bytes c) + length bytes ≤ 1023
      → (d : Channel) × (write_master circ false nonblock wakes none none bytes c
          ≡ done (ok (length bytes)) [] d)
        × (to_slave_bytes d ≡ to_slave_bytes c ++ bytes)
        × (d.created ≡ c.created)
        × IsChannel d
  unfolding write_master write_master_waited
  write_master_lem bytes c v some_byte room =
      let space = has_space_lem circ c.master2slave_buf v.to_slave (omega arith) in
      let p = wrote_pieces circ c.master2slave_buf v.to_slave bytes room in
      let (ret, r) = write_pieces circ none none bytes c.master2slave_buf in
      let d = record c { master2slave_buf = r } in
      (
        d,
        rw
            (wait_loop_at_once (λ (t : Channel). has_space circ t.master2slave_buf) nonblock wakes c
              space)
            (ap (λ x. done x [] d) p.returned),
        p.appended,
        refl,
        record { to_slave = p.valid; to_master = v.to_master },
      )

  -- A read of the slave where something waits returns at once, with the oldest bytes.
  pub read_slave_lem :
      (count : ℕ) (c : Channel)
      → IsChannel c
      → c.created ≡ true
      → count < 2 ^ 31
      → 0 < length (to_slave_bytes c)
      → (bytes : List ℕ) × (d : Channel) × (read_slave circ false nonblock wakes false false count c
          ≡ done (ok (length bytes)) bytes d)
        × (to_slave_bytes c ≡ bytes ++ to_slave_bytes d)
        × (length bytes ≡ min count (length (to_slave_bytes c)))
        × IsChannel d
  unfolding read_slave read_slave_waited
  read_slave_lem count c v up h waiting =
      let some_data = has_data_lem circ c.master2slave_buf v.to_slave waiting in
      let p = read_pieces-Taken circ c.master2slave_buf v.to_slave count h in
      let (ret, bytes, r) = read_pieces circ false false count c.master2slave_buf in
      let d = record c { master2slave_buf = r } in
      let test = λ (t : Channel). not (t.created && not (has_data circ t.master2slave_buf)) in
      let go : test c ≡ true = rw (up, some_data) in
      (
        bytes,
        d,
        rw (wait_loop_at_once test nonblock wakes c go)
            (still_created c.created up _ _ _ ∙ ap (λ x. done x bytes d) p.returned),
        p.oldest,
        p.as_many,
        record { to_slave = p.valid; to_master = v.to_master },
      )

module _ (circ : CircMacros) where
  -- What the master writes, the slave reads: with nothing waiting before, a read of enough bytes
  -- gives exactly the bytes of the write, in order, and empties the buffer again.
  pub read_slave-write_master :
      (bytes : List ℕ) (count : ℕ) (c : Channel)
      → IsChannel c
      → c.created ≡ true
      → to_slave_bytes c ≡ []
      → 0 < length bytes
      → length bytes ≤ 1023
      → length bytes ≤ count
      → count < 2 ^ 31
      → (d e : Channel) × (write_master circ false true [] none none bytes c
          ≡ done (ok (length bytes)) [] d)
        × (read_slave circ false true [] false false count d ≡ done (ok (length bytes)) bytes e)
        × (to_slave_bytes e ≡ [])
  read_slave-write_master bytes count c v up empty some_byte fits enough h =
      let before : length (to_slave_bytes c) ≡ 0 = ap length empty in
      let (d, w, app, cr, vd) =
        write_master_lem circ true [] bytes c v some_byte (omega (arith, before)) in
      let all : to_slave_bytes d ≡ bytes = app ∙ ap (λ t. t ++ bytes) empty in
      let many : length (to_slave_bytes d) ≡ length bytes = ap length all in
      let (out, e, run, old, n, ve) =
        read_slave_lem circ true [] count d vd (cr ∙ up) h (omega (arith, many)) in
      let split : length (to_slave_bytes d) ≡ length out + length (to_slave_bytes e) =
        ap length old ∙ length-append out (to_slave_bytes e) in
      let none_left : to_slave_bytes e ≡ [] =
        eq_nil_of_length (to_slave_bytes e) (omega (arith, split, n, many)) in
      let same : out ≡ bytes =
        sym (append-nil out) ∙ ap (λ t. out ++ t) (sym none_left) ∙ sym old ∙ all in
      (d, e, w, run ∙ ap (λ b. done (ok (length b)) b e) same, none_left)
