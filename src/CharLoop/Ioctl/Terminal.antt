-- ===== src/CharLoop/Ioctl/Terminal.antt =====
-- The terminal that a slave of kernel/eq3_char_loop.c shows to its program.
use pi_vccu.Prelude.{
  [], Bool, if◌then◌else◌, ℕ, ◌+◌, ◌≤◌, ◌<◌, ◌≡◌, refl, sym, ap, ◌∙◌, none, true, false, List,
  length, length-append, arith,
}
use pi_vccu.Kernel.{CircMacros, ok}
use pi_vccu.Ring.{CircBuf, contents, IsRing, circ_cnt-eq_used}
use pi_vccu.Ring.Queue.{length-contents}
use pi_vccu.CharLoop.{bufsize, Termios, Channel, done, read_slave, write_master}
use pi_vccu.CharLoop.Stream.{IsChannel, to_slave_bytes, write_master_lem, read_slave_lem}
use pi_vccu.CharLoop.Ioctl.{
  to_termios2, of_termios2, SlaveCalls, SlaveCommand, tcgets, tcsets, tcgets2, tcsets2, tiocinq,
  tiocoutq, tiocexcl, tcflsh, tiocmget, tiocmset, tiocsergetlsr, tiocgicount, other, copied_out,
  copied_in, put_user, slave_switch, ioctl_slave, word, settings, settings2, LoopReply,
}
use pi_vccu.Kernel.{Ret}

-- The calls of an ioctl that all succeed.
abbrev pub granted : SlaveCalls → SlaveCalls
granted calls = record calls { interrupted = false; access = true; put = none; not_copied = 0 }

-- The channel `c` but for its settings.
abbrev pub Keeps : Channel → Channel → Type 0
Keeps c d = (t : Termios) × (d ≡ record c { termios = t })

as_it_was : (c : Channel) → Keeps c c
as_it_was c = (c.termios, refl)

either-Keeps :
    (b : Bool) (c : Channel) (x y : (Ret × LoopReply) × Channel)
    → Keeps c x.1
    → Keeps c y.1
    → Keeps c (if b then x else y).1
either-Keeps true c x y h k = h
either-Keeps false c x y h k = k

copied_out-Keeps :
    (calls : SlaveCalls) (r : LoopReply) (c : Channel) → Keeps c (copied_out calls r c).1
unfolding copied_out
copied_out-Keeps calls r c = either-Keeps calls.access c _ _ (as_it_was c) (as_it_was c)

copied_in-Keeps : (calls : SlaveCalls) (t : Termios) (c : Channel) → Keeps c (copied_in calls t c).1
unfolding copied_in
copied_in-Keeps calls t c = either-Keeps calls.access c _ _ (t, refl) (as_it_was c)

module _ (circ : CircMacros) where
  slave_switch-Keeps :
      (calls : SlaveCalls) (cmd : SlaveCommand) (c : Channel)
      → Keeps c (slave_switch circ calls cmd c).1
  unfolding slave_switch
  slave_switch-Keeps calls tcgets c = copied_out-Keeps calls _ c
  slave_switch-Keeps calls tcsets c = copied_in-Keeps calls _ c
  slave_switch-Keeps calls tcgets2 c = copied_out-Keeps calls _ c
  slave_switch-Keeps calls tcsets2 c = copied_in-Keeps calls _ c
  slave_switch-Keeps calls tiocinq c = as_it_was c
  slave_switch-Keeps calls tiocoutq c = as_it_was c
  slave_switch-Keeps calls tiocexcl c = as_it_was c
  slave_switch-Keeps calls tcflsh c = as_it_was c
  slave_switch-Keeps calls tiocmget c = as_it_was c
  slave_switch-Keeps calls tiocmset c = as_it_was c
  slave_switch-Keeps calls tiocsergetlsr c = as_it_was c
  slave_switch-Keeps calls tiocgicount c = copied_out-Keeps calls _ c
  slave_switch-Keeps calls other c = as_it_was c

  counted :
      (r : CircBuf ℕ)
      → IsRing bufsize r
      → circ.circ_cnt r.head r.tail bufsize ≡ length (contents bufsize r)
  counted r v =
      circ_cnt-eq_used circ 10 r.head r.tail v.head_in v.tail_in ∙ sym (length-contents 1024 r v)

  -- TIOCINQ, where its calls succeed, reports how many bytes wait for the slave.
  tiocinq_lem :
      (calls : SlaveCalls) (c : Channel)
      → IsChannel c
      → ioctl_slave circ (granted calls) tiocinq c ≡ ((ok 0, word (length (to_slave_bytes c))), c)
  unfolding ioctl_slave slave_switch put_user
  tiocinq_lem calls c v = ap (λ n. ((ok 0, word n), c)) (counted c.master2slave_buf v.to_slave)

  -- When the master writes bytes that fit to a channel that exists, TIOCINQ of the slave reports
  -- what waited before and these bytes, and a read of any length up to the number that it reports
  -- returns at once with as many bytes, after which TIOCINQ reports the rest.
  pub ioctl_slave-write_master :
      (calls : SlaveCalls) (bytes : List ℕ) (count : ℕ) (c : Channel)
      → IsChannel c
      → c.created ≡ true
      → 0 < length bytes
      → length (to_slave_bytes c) + length bytes ≤ 1023
      → count ≤ length (to_slave_bytes c) + length bytes
      → (d e : Channel) × (out : List ℕ) × (rest : ℕ) × (write_master circ false true [] none none
            bytes c
          ≡ done (ok (length bytes)) [] d)
        × (ioctl_slave circ (granted calls) tiocinq d
            ≡ ((ok 0, word (length (to_slave_bytes c) + length bytes)), d))
        × (read_slave circ false true [] false false count d ≡ done (ok count) out e)
        × (length out ≡ count)
        × (ioctl_slave circ (granted calls) tiocinq e ≡ ((ok 0, word rest), e))
        × (count + rest ≡ length (to_slave_bytes c) + length bytes)
  ioctl_slave-write_master calls bytes count c v up some_byte room within =
      let (d, w, app, cr, vd) = write_master_lem circ true [] bytes c v some_byte room in
      let many : length (to_slave_bytes d) ≡ length (to_slave_bytes c) + length bytes =
        ap length app ∙ length-append (to_slave_bytes c) bytes in
      let (out, e, run, old, n, ve) =
        read_slave_lem circ true [] count d vd (cr ∙ up) (omega arith) (omega (arith, many)) in
      let split : length (to_slave_bytes d) ≡ length out + length (to_slave_bytes e) =
        ap length old ∙ length-append out (to_slave_bytes e) in
      let as_many : length out ≡ count = omega (arith, n, many) in
      (
        d,
        e,
        out,
        length (to_slave_bytes e),
        w,
        tiocinq_lem calls d vd ∙ ap (λ k. ((ok 0, word k), d)) many,
        run ∙ ap (λ k. done (ok k) out e) as_many,
        as_many,
        tiocinq_lem calls e ve,
        omega (arith, split, as_many, many),
      )

  -- The settings of the terminal, where the calls succeed: what TCSETS stores, TCGETS gives back,
  -- and TCGETS2 with both speeds 0; what TCSETS2 stores, TCGETS2 gives back but for its speeds.
  pub settings-kept :
      (calls later : SlaveCalls) (c : Channel)
      → let old = (ioctl_slave circ (granted calls) tcsets c).1 in
        let new = (ioctl_slave circ (granted calls) tcsets2 c).1 in
        ((ioctl_slave circ (granted later) tcgets old).0 ≡ (ok 0, settings calls.copied_termios 0))
        × ((ioctl_slave circ (granted later) tcgets2 old).0
            ≡ (ok 0, settings2 (to_termios2 calls.copied_termios) 0))
        × ((ioctl_slave circ (granted later) tcgets2 new).0
            ≡ (ok 0, settings2 (record (calls.copied_termios2) { c2_ispeed = 0; c2_ospeed = 0 }) 0))
  unfolding ioctl_slave slave_switch copied_in copied_out to_termios2 of_termios2
  settings-kept calls later c = (refl, refl, refl)

  -- No ioctl of a slave, whatever its calls give, changes more of the channel than the settings.
  pub ioctl_slave-Keeps :
      (calls : SlaveCalls) (cmd : SlaveCommand) (c : Channel)
      → Keeps c (ioctl_slave circ calls cmd c).1
  unfolding ioctl_slave
  ioctl_slave-Keeps calls cmd c =
      either-Keeps calls.interrupted c _ _ (as_it_was c) (slave_switch-Keeps calls cmd c)
