-- ===== src/CharLoop/Session/Stale.antt =====
-- A slave that outlives its channel in kernel/eq3_char_loop.c, and the slaves of one channel.
use pi_vccu.Prelude.{
  All, ◌++◌, length, List, [], ◌∷◌, some, arith, ◌≤◌, ◌≡◌, refl, Bool, false, true,
}
use pi_vccu.Kernel.{ok}
use pi_vccu.CharLoop.{Channel}
use pi_vccu.CharLoop.Session.{
  open_slave, close_slave, close_master, zeroed, create_in, create_first, create_slave_dev,
}

-- One call of either side on a channel, whatever the outcomes inside it are.
pub data Step : Channel → Channel → Type 0 where
  slave_opens :
      (interrupted no_memory : Bool) (c : Channel) → Step c (open_slave interrupted no_memory c).1
  slave_closes : (interrupted : Bool) (c : Channel) → Step c (close_slave interrupted c).1
  master_closes :
      (interrupted control_interrupted : Bool) (c : Channel)
      → Step c (close_master interrupted control_interrupted c).1
  created_anew :
      (no_device no_memory : Bool) (c : Channel) → Step c (create_in no_device no_memory c).1

pub data Steps : Channel → Channel → Type 0 where
  stays : (c : Channel) → Steps c c
  then_step : (c d e : Channel) → Step c d → Steps d e → Steps c e

counted_once : {c d : Channel} → Step c d → c.slave_open_count ≤ 1 → d.slave_open_count ≤ 1
unfolding open_slave close_slave close_master create_in zeroed
counted_once (slave_opens i n c) h = ground arith
counted_once (slave_closes i c) h = ground arith
counted_once (master_closes i n c) h = ground arith
counted_once (created_anew i n c) h = ground arith

-- Over any sequence of opens, closes and creations, a channel never counts more than one slave.
pub one_slave : {c d : Channel} → Steps c d → c.slave_open_count ≤ 1 → d.slave_open_count ≤ 1
one_slave (stays c) h = h
one_slave (then_step c d e s rest) h = one_slave rest (counted_once s h)

-- A master closes a channel that a slave still has open, the channel is created anew for another
-- master, and a second slave opens it. When the first slave then closes its file, the channel counts
-- no slave although the second one has it open, and a third slave is let in beside it.
pub close_slave-stale :
    (c : Channel)
    → c.slave_open_count ≡ 1
    → let gone = (close_master false false c).1 in
      let anew = (create_in false false gone).1 in
      let second = open_slave false false anew in
      let left = (close_slave false second.1).1 in
      (gone.created ≡ false)
      × (gone.slave_open_count ≡ 1)
      × (second.0 ≡ ok 0)
      × (second.1.slave_open_count ≡ 1)
      × (left.slave_open_count ≡ 0)
      × ((open_slave false false left).0 ≡ ok 0)
unfolding open_slave close_slave close_master create_in zeroed
close_slave-stale c h = (refl, h, refl, refl, refl, refl)

first_free :
    (no_device no_memory : Bool) (front back : List Channel) (c : Channel)
    → All (λ d. d.created ≡ true) front
    → c.created ≡ false
    → create_first no_device no_memory (front ++ (c ∷ back)) ≡ (
      (create_in no_device no_memory c).0,
      some (length front),
      front ++ ((create_in no_device no_memory c).1 ∷ back),
    )
unfolding create_first
first_free nd nm [] back c h e = ground arith
first_free nd nm (d ∷ front) back c h e = rw (h.0, first_free nd nm front back c h.1 e)

-- The creation of a channel takes the first one that is not created, whether a slave still has it
-- open or not, and leaves the other channels alone.
pub create_slave_dev-first_free :
    (no_device no_memory : Bool) (front back : List Channel) (c : Channel)
    → All (λ d. d.created ≡ true) front
    → c.created ≡ false
    → create_slave_dev false no_device no_memory (front ++ (c ∷ back)) ≡ (
      (create_in no_device no_memory c).0,
      some (length front),
      front ++ ((create_in no_device no_memory c).1 ∷ back),
    )
unfolding create_slave_dev
create_slave_dev-first_free nd nm front back c h e = first_free nd nm front back c h e
