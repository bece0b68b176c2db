-- ===== src/CharLoop/Ioctl/Events.antt =====
-- What the master of a channel of kernel/eq3_char_loop.c learns about its slave.
use pi_vccu.Prelude.{
  ℕ, ◌/◌, ◌%◌, ◌^◌, bit_or, ◌==◌, ◌||◌, not, Bool, if◌then◌else◌, ap, ◌∙◌, ◌≡◌, refl, none, some,
  true, false, Option,
}
use pi_vccu.Kernel.{CircMacros, ok, err, Errno, efault}
use pi_vccu.CharLoop.{Channel}
use pi_vccu.CharLoop.Session.{LoopMask, poll_master}
use pi_vccu.CharLoop.Ioctl.{
  event_bits, set_events, put_user, get_events, ioctl_master, master_switch, has_magic,
  has_read_bit, has_write_bit, restored, iocgevents, no_reply, word,
}

-- The channel `c` with other flags.
abbrev with_events : Bool → Bool → Bool → Channel → Channel
with_events a b s c = record c {
  event_slave_opened = a;
  event_slave_closed = b;
  state_slave_opened = s;
}

abbrev number_of : Bool → Bool → Bool → ℕ
number_of a b s =
    bit_or (if a then 2 ^ 0 else 0) (bit_or (if b then 2 ^ 1 else 0) (if s then 2 ^ 15 else 0))

bits_of_number :
    (a b s : Bool)
    → let n = number_of a b s in
      ((n % 2 == 1) ≡ a)
      × ((n / 2 % 2 == 1) ≡ b)
      × ((n / 2 ^ 15 % 2 == 1) ≡ s)
      × ((a || b) ≡ not (n % 4 == 0))
bits_of_number true true true = (refl, refl, refl, refl)
bits_of_number true true false = (refl, refl, refl, refl)
bits_of_number true false true = (refl, refl, refl, refl)
bits_of_number true false false = (refl, refl, refl, refl)
bits_of_number false true true = (refl, refl, refl, refl)
bits_of_number false true false = (refl, refl, refl, refl)
bits_of_number false false true = (refl, refl, refl, refl)
bits_of_number false false false = (refl, refl, refl, refl)

set_events-event_bits :
    (a b : Bool) (c : Channel)
    → set_events (event_bits c) (record c { event_slave_opened = a; event_slave_closed = b }) ≡ c
unfolding set_events event_bits
set_events-event_bits a b c =
    let (x, y, z, _) =
      bits_of_number c.event_slave_opened c.event_slave_closed c.state_slave_opened in
    let n = event_bits c in
    ap (λ p. with_events p (n / 2 % 2 == 1) (n / 2 ^ 15 % 2 == 1) c) x
    ∙ ap (λ p. with_events c.event_slave_opened p (n / 2 ^ 15 % 2 == 1) c) y
    ∙ ap (λ p. with_events c.event_slave_opened c.event_slave_closed p c) z

reported :
    (c : Channel) → (c.event_slave_opened || c.event_slave_closed) ≡ not (event_bits c % 4 == 0)
unfolding event_bits
reported c = (bits_of_number c.event_slave_opened c.event_slave_closed c.state_slave_opened).3

module _ (circ : CircMacros) (c : Channel) where
  -- EQ3LOOP_IOCGEVENTS of the master, where its calls succeed, gives a number whose bits 0, 1 and
  -- 15 are the two events and the state of the channel; the poll before it has POLLPRI exactly
  -- where one of the events is set, and the poll behind it does not have it and is the same
  -- otherwise. Where `_access_ok` or `__put_user` fails, no event is lost: the channel is as it
  -- was.
  pub get_events-reports :
      (n : ℕ) × ((ioctl_master true none iocgevents c).0 ≡ (ok 0, word n))
      × (set_events n c ≡ c)
      × ((m : LoopMask) × (poll_master circ false c ≡ some m)
          × (m.priority ≡ not (n % 4 == 0))
          × (poll_master circ false (ioctl_master true none iocgevents c).1
              ≡ some (record m { priority = false })))
      × ((e : Errno) → ioctl_master true (some e) iocgevents c ≡ ((err e, no_reply), c))
      × ((put : Option Errno) → ioctl_master false put iocgevents c ≡ ((err efault, no_reply), c))
  unfolding ioctl_master has_magic has_read_bit has_write_bit master_switch get_events put_user
      restored poll_master
  get_events-reports = (
    event_bits c,
    refl,
    set_events-event_bits c.event_slave_opened c.event_slave_closed c,
    (_, refl, reported c, refl),
    λ e. ap (λ t. ((err e, no_reply), t)) (set_events-event_bits false false c),
    λ put. refl,
  )
