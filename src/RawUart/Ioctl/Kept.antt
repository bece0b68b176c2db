-- ===== src/RawUart/Ioctl/Kept.antt =====
-- What the ioctls of kernel/generic_raw_uart.c leave alone.
use pi_vccu.Prelude.{
  ℕ, ◌≡◌, refl, ap, ◌∙◌, [], Option, none, some, ltb, Bool, true, false, if◌then◌else◌, ◌==◌,
  ==-refl,
}
use pi_vccu.Kernel.{CircMacros, Ret, ok, err, Errno, enosys, erestartsys}
use pi_vccu.RawUart.{RawUartDriver, Conn, Instance}
use pi_vccu.RawUart.Session.{reset_radio_module, driver_reset, reset_pulse}
use pi_vccu.RawUart.Ioctl.{
  Command, iocspriority, iocgpriority, iocreset_radio_module, iocgdevinfo, tcgets, tcsets, tiocinq,
  tiocoutq, tiocexcl, tcflsh, tiocmget, tiocmset, other, IoctlCalls, Reply, nothing, answer,
  set_priority, guarded, accessed, after_reset, dispatch, dispatched, uart_ioctl,
}

-- A property of both branches is one of the choice.
either {ℓ κ} :
    {A : Type ℓ} (P : A → Type κ) (b : Bool) (x y : A) → P x → P y → P (if b then x else y)
either P true x y h g = h
either P false x y h g = g

module _ {D : Type 0} where
  -- What no ioctl may touch: the received bytes, the transmitter, the count of the connections, the
  -- other connections, and of its own connection `c` the buffer with what is left to send.
  pub record Untouched (p : ℕ) (c : Conn) (s t : Instance D) : Type 0 where
    pub received : t.rxbuf ≡ s.rxbuf
    pub sender : t.tx_connection ≡ s.tx_connection
    pub count : t.open_count ≡ s.open_count
    pub refs : t.module_refs ≡ s.module_refs
    pub others : (q : ℕ) → (q == p) ≡ false → t.conns q ≡ s.conns q
    pub own : (v : ℕ) × (t.conns p ≡ some (record c { priority = v }))

module _ {D : Type 0} (p : ℕ) (c : Conn) (s : Instance D) (h : s.conns p ≡ some c) where
  -- A state that agrees on all that an ioctl may not touch.
  same_conns :
      (t : Instance D)
      → t.rxbuf ≡ s.rxbuf
      → t.tx_connection ≡ s.tx_connection
      → t.open_count ≡ s.open_count
      → t.module_refs ≡ s.module_refs
      → t.conns ≡ s.conns
      → Untouched p c s t
  same_conns t received sender count refs conns = record {
    received = received;
    sender = sender;
    count = count;
    refs = refs;
    others = λ q g. ap (λ f. f q) conns;
    own = (c.priority, ap (λ f. f p) conns ∙ h);
  }

  Untouched-refl : Untouched p c s s
  Untouched-refl = same_conns s refl refl refl refl refl

  accessed-Untouched :
      (access : Bool) (r : (Ret × Reply) × Instance D)
      → Untouched p c s r.1
      → Untouched p c s (accessed access s r).1
  unfolding accessed
  accessed-Untouched false r g = Untouched-refl
  accessed-Untouched true r g = g

  guarded-Untouched :
      (interrupted : Bool) (r : (Ret × Reply) × Instance D)
      → Untouched p c s r.1
      → Untouched p c s (guarded interrupted s r).1
  unfolding guarded
  guarded-Untouched true r g = Untouched-refl
  guarded-Untouched false r g = g

  set_priority-Untouched :
      (got : Option Errno) (v : ℕ) → Untouched p c s (set_priority got v p c s).1
  unfolding set_priority
  set_priority-Untouched (some e) v = Untouched-refl
  set_priority-Untouched none v = record {
    received = refl;
    sender = refl;
    count = refl;
    refs = refl;
    others = λ q g. rw g;
    own = (v, rw (==-refl p));
  }

  driver_reset-Untouched :
      (drv : RawUartDriver D) (r : Option Errno × D)
      → Untouched p c s (after_reset (driver_reset drv s r)).1
  unfolding driver_reset after_reset
  driver_reset-Untouched drv (none, d) = same_conns (record s { hw = d }) refl refl refl refl refl
  driver_reset-Untouched drv (some e, d) = same_conns (record s { hw = d }) refl refl refl refl refl

  -- Both ways of a reset, over the pin and by the driver.
  reset_way-Untouched :
      (drv : RawUartDriver D) (way : Option (D → Option Errno × D))
      → Untouched p c s
          (after_reset (elim way [
            | none ↦ if s.reset_pin == 0 then (err enosys, [], s) else (ok 0, reset_pulse, s)
            | some reset ↦ driver_reset drv s (reset s.hw)
          ])).1
  unfolding after_reset
  reset_way-Untouched drv none =
      either (λ r. Untouched p c s (after_reset r).1) (s.reset_pin == 0) _ _ Untouched-refl
        Untouched-refl
  reset_way-Untouched drv (some reset) = driver_reset-Untouched drv (reset s.hw)

  reset_radio_module-Untouched :
      (drv : RawUartDriver D) (interrupted : Bool) (max_count : ℕ)
      → Untouched p c s (after_reset (reset_radio_module drv interrupted max_count s)).1
  unfolding reset_radio_module after_reset
  reset_radio_module-Untouched drv interrupted max_count =
      either (λ r. Untouched p c s (after_reset r).1) interrupted _ _ Untouched-refl
        (either (λ r. Untouched p c s (after_reset r).1) (ltb max_count s.open_count) _ _
          Untouched-refl (reset_way-Untouched drv drv.reset_radio_module))

module _ {D : Type 0} (circ : CircMacros) (drv : RawUartDriver D) (calls : IoctlCalls) where
  dispatch-Untouched :
      (cmd : Command) (p : ℕ) (c : Conn) (s : Instance D)
      → s.conns p ≡ some c
      → Untouched p c s (dispatch circ drv calls cmd p c s).1
  unfolding dispatch answer
  dispatch-Untouched iocspriority p c s h =
      accessed-Untouched p c s h calls.access _
        (set_priority-Untouched p c s h calls.got calls.user_value)
  dispatch-Untouched iocgpriority p c s h =
      accessed-Untouched p c s h calls.access _ (Untouched-refl p c s h)
  dispatch-Untouched iocreset_radio_module p c s h =
      reset_radio_module-Untouched p c s h drv calls.reset_interrupted 1
  dispatch-Untouched iocgdevinfo p c s h =
      accessed-Untouched p c s h calls.access _ (Untouched-refl p c s h)
  dispatch-Untouched tcgets p c s h =
      accessed-Untouched p c s h calls.access _
        (guarded-Untouched p c s h calls.interrupted _ (Untouched-refl p c s h))
  dispatch-Untouched tcsets p c s h = accessed-Untouched p c s h calls.access _ (
      guarded-Untouched p c s h calls.interrupted _
        (same_conns p c s h (record s { termios = calls.copied_termios }) refl refl refl refl refl))
  dispatch-Untouched tiocinq p c s h =
      accessed-Untouched p c s h calls.access _
        (guarded-Untouched p c s h calls.interrupted _ (Untouched-refl p c s h))
  dispatch-Untouched tiocoutq p c s h =
      accessed-Untouched p c s h calls.access _ (Untouched-refl p c s h)
  dispatch-Untouched tiocexcl p c s h = Untouched-refl p c s h
  dispatch-Untouched tcflsh p c s h = Untouched-refl p c s h
  dispatch-Untouched tiocmget p c s h =
      accessed-Untouched p c s h calls.access _ (Untouched-refl p c s h)
  dispatch-Untouched tiocmset p c s h = Untouched-refl p c s h
  dispatch-Untouched other p c s h = Untouched-refl p c s h

  interrupted_or :
      (interrupted : Bool) (cmd : Command) (p : ℕ) (c : Conn) (s : Instance D)
      → s.conns p ≡ some c
      → (r : (Ret × Reply) × Instance D) × ((if interrupted
            then some ((err erestartsys, nothing), s)
            else dispatched circ drv calls cmd p (s.conns p) s)
          ≡ some r)
        × Untouched p c s r.1
  unfolding dispatched
  interrupted_or true cmd p c s h = (_, refl, Untouched-refl p c s h)
  interrupted_or false cmd p c s h =
      (_, ap (λ o. dispatched circ drv calls cmd p o s) h, dispatch-Untouched cmd p c s h)

  -- Once its waits for the semaphores have ended, each with the semaphore held or interrupted, an ioctl
  -- on an open connection comes to a result without a fault. Whatever the command and however its
  -- calls end, it changes neither the received bytes, nor the transmitter, the counts and the other
  -- connections, and of its own connection nothing but the priority.
  pub uart_ioctl-Untouched :
      (cmd : Command) (p : ℕ) (c : Conn) (s : Instance D)
      → s.conns p ≡ some c
      → (r : (Ret × Reply) × Instance D) × (uart_ioctl circ drv calls cmd p s ≡ some r)
        × Untouched p c s r.1
  unfolding uart_ioctl
  uart_ioctl-Untouched cmd p c s h = interrupted_or calls.conn_interrupted cmd p c s h
