-- ===== src/CharLoop/Stuck.antt =====
-- The waits of the writers in kernel/eq3_char_loop.c when the other side is gone: `wait_event` ends
-- for it, but the `while` around it does not test for it.
use pi_vccu.Prelude.{
  ℕ, ◌≡◌, List, [], ◌∷◌, Option, Bool, true, false, not, ◌||◌, ◌==◌, All, map, arith,
}
use pi_vccu.Kernel.{CircMacros}
use pi_vccu.Kernel.Wait.{woken, wait_loop-stuck, last_state}
use pi_vccu.CharLoop.{
  Channel, waits, has_space, write_slave_waited, write_slave, write_master_waited, write_master,
}

module _ (circ : CircMacros) where
  -- The conditions of `wait_event_interruptible` in the two writes.
  pub slave_wakes : Channel → Bool
  slave_wakes c = not c.created || has_space circ c.slave2master_buf

  pub master_wakes : Channel → Bool
  master_wakes c = (c.slave_open_count == 0) || has_space circ c.master2slave_buf

  -- A full buffer to a side that is gone.
  pub record SlaveStuck (c : Channel) : Type 0 where
    pub closed : c.created ≡ false
    pub full : has_space circ c.slave2master_buf ≡ false

  pub record MasterStuck (c : Channel) : Type 0 where
    pub closed : c.slave_open_count ≡ 0
    pub full : has_space circ c.master2slave_buf ≡ false

  full_to_master :
      (states : List Channel)
      → All SlaveStuck states
      → All (λ t. has_space circ t.slave2master_buf ≡ false) states
  full_to_master [] h = tt
  full_to_master (t ∷ states) h = (h.0.full, full_to_master states h.1)

  full_to_slave :
      (states : List Channel)
      → All MasterStuck states
      → All (λ t. has_space circ t.master2slave_buf ≡ false) states
  full_to_slave [] h = tt
  full_to_slave (t ∷ states) h = (h.0.full, full_to_slave states h.1)

  -- A write of the slave to a full buffer of a channel that its master has closed does not sleep, as
  -- the condition of its wait holds, and never returns: however often its loop runs, it goes on.
  pub write_slave-stuck :
      (states : List Channel) (left left' : Option (List ℕ)) (bytes : List ℕ) (c : Channel)
      → SlaveStuck c
      → All SlaveStuck states
      → (slave_wakes c ≡ true)
        × (write_slave circ false false (map woken states) left left' bytes c
            ≡ waits (last_state c states))
  unfolding write_slave write_slave_waited slave_wakes
  write_slave-stuck states left left' bytes c h all = (
    ground (arith, h.closed),
    rw (
        wait_loop-stuck (λ (t : Channel). has_space circ t.slave2master_buf) states c h.full
          (full_to_master states all)),
  )

  -- A write of the master to a full buffer of a channel that no slave has open does not sleep, as
  -- the condition of its wait holds, and never returns: however often its loop runs, it goes on.
  pub write_master-stuck :
      (states : List Channel) (left left' : Option (List ℕ)) (bytes : List ℕ) (c : Channel)
      → MasterStuck c
      → All MasterStuck states
      → (master_wakes c ≡ true)
        × (write_master circ false false (map woken states) left left' bytes c
            ≡ waits (last_state c states))
  unfolding write_master write_master_waited master_wakes
  write_master-stuck states left left' bytes c h all = (
    ground (arith, h.closed),
    rw (
        wait_loop-stuck (λ (t : Channel). has_space circ t.master2slave_buf) states c h.full
          (full_to_slave states all)),
  )
