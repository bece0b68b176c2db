-- ===== src/RawUart/Session/Lifetime.antt =====
-- What opening and closing a connection keep, in kernel/generic_raw_uart.c.
use pi_vccu.Prelude.{
  ℕ, ◌+◌, ◌<◌, ◌≡◌, ◌≢◌, refl, none, some, Bool, true, false, ==-refl, ==-ne, arith,
}
use pi_vccu.Kernel.{ok, err, Errno}
use pi_vccu.RawUart.{RawUartDriver, Instance, max_connections}
use pi_vccu.RawUart.Session.{fresh_conn, open_connection, close_connection}

module _ {D : Type 0} (drv : RawUartDriver D) where
  -- What a successful open has done.
  pub record Opened (p : ℕ) (s t : Instance D) : Type 0 where
    pub had_room : s.open_count < max_connections
    pub connected : s.connection_state ≡ true
    pub counted : t.open_count ≡ s.open_count + 1
    pub allocated : t.conns p ≡ some fresh_conn
    pub others : (q : ℕ) → q ≢ p → t.conns q ≡ s.conns q
    pub same_sender : t.tx_connection ≡ s.tx_connection
    pub referenced : t.module_refs ≡ s.module_refs + 1
    pub emptied : s.open_count ≡ 0 → (t.rxbuf.head ≡ 0) × (t.rxbuf.tail ≡ 0)

  -- An open that succeeds found fewer than three connections and a connected device. It counts one
  -- connection and one reference to the module more, and gives the connection zeroed memory of its
  -- own; the other connections and the transmitter stay as they were. The first connection finds an
  -- empty receive buffer.
  pub open-Opened :
      (module_got interrupted : Bool) (p n : ℕ) (s t : Instance D)
      → open_connection drv module_got interrupted p s ≡ (ok n, t)
      → Opened p s t
  unfolding open_connection
  open-Opened false interrupted p n s t e = cc
  open-Opened true true p n s t e = cc
  open-Opened true false p n s t e = record {
    had_room = ground arith;
    connected = ground arith;
    counted = ground arith;
    allocated = ground arith;
    others = λ q h. ground arith;
    same_sender = ground arith;
    referenced = ground arith;
    emptied = λ h. ground arith;
  }

  -- What a failed open has done: nothing but the reference to the module.
  pub record Refused (s t : Instance D) : Type 0 where
    pub same_count : t.open_count ≡ s.open_count
    pub same_conns : t.conns ≡ s.conns
    pub same_buffer : t.rxbuf ≡ s.rxbuf
    pub same_sender : t.tx_connection ≡ s.tx_connection
    pub leaked : t.module_refs ≡ s.module_refs + 1

  -- An open that fails after `try_module_get` succeeded leaves connections and buffer as they were,
  -- but keeps the reference to the module, which no close will give back.
  pub open-Refused :
      (interrupted : Bool) (p : ℕ) (e : Errno) (s t : Instance D)
      → open_connection drv true interrupted p s ≡ (err e, t)
      → Refused s t
  unfolding open_connection
  open-Refused true p e s t h = record {
    same_count = ground arith;
    same_conns = ground arith;
    same_buffer = ground arith;
    same_sender = ground arith;
    leaked = ground arith;
  }
  open-Refused false p e s t h = record {
    same_count = ground arith;
    same_conns = ground arith;
    same_buffer = ground arith;
    same_sender = ground arith;
    leaked = ground arith;
  }

  -- What is the same again after an open and a close.
  pub record Undone (p : ℕ) (s t u : Instance D) : Type 0 where
    pub count_back : u.open_count ≡ s.open_count
    pub refs_back : u.module_refs ≡ s.module_refs
    pub freed : u.conns p ≡ none
    pub others : (q : ℕ) → q ≢ p → u.conns q ≡ s.conns q
    pub stopped : s.open_count ≡ 0 → u.hw ≡ drv.stop_connection t.hw
    pub runs_on : 0 < s.open_count → u.hw ≡ t.hw

  -- Closing the connection that was opened last succeeds: the counts and the references are those
  -- from before the open, its memory is free, and the hardware is stopped exactly where no other
  -- connection is open.
  pub close-open :
      (p n : ℕ) (s t : Instance D)
      → open_connection drv true false p s ≡ (ok n, t)
      → (u : Instance D) × (close_connection drv false false p t ≡ (ok 0, u)) × Undone p s t u
  unfolding close_connection
  close-open p n s t e =
      let o = open-Opened true false p n s t e in
      (
        (close_connection drv false false p t).1,
        refl,
        record {
          count_back = omega (arith, o.counted);
          refs_back = omega (arith, o.referenced);
          freed = rw ==-refl;
          others = λ q h. rw (==-ne q p h) (o.others q h);
          stopped = λ z. ground (arith, o.counted);
          runs_on = λ z. ground (arith, o.counted);
        },
      )
