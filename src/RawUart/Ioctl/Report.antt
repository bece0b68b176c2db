-- ===== src/RawUart/Ioctl/Report.antt =====
-- What the ioctls of kernel/generic_raw_uart.c report.
use pi_vccu.Prelude.{ℕ, ◌≡◌, sym, ap, ◌∙◌, none, some, true, false, length, ==-refl}
use pi_vccu.Kernel.{CircMacros, ok}
use pi_vccu.Ring.{circ_cnt-eq_used}
use pi_vccu.Ring.Queue.{length-contents}
use pi_vccu.RawUart.{RawUartDriver, Conn, Instance}
use pi_vccu.RawUart.Tx.{store}
use pi_vccu.RawUart.Rx.Stream.{pending, IsRxValid}
use pi_vccu.RawUart.Ioctl.{
  iocspriority, iocgpriority, tiocinq, IoctlCalls, nothing, number, put_number, answer,
  set_priority, guarded, accessed, dispatch, dispatched, uart_ioctl,
}

-- The calls of an ioctl that all succeed.
unfoldable pub granted : IoctlCalls → IoctlCalls
granted calls = record calls {
  conn_interrupted = false;
  interrupted = false;
  access = true;
  got = none;
  put = none;
}

module _ {D : Type 0} (circ : CircMacros) (drv : RawUartDriver D) where
  -- On an open connection, where its calls succeed, `TIOCINQ` reports how many received bytes are
  -- pending, and changes nothing.
  pub tiocinq-pending :
      (calls : IoctlCalls) (p : ℕ) (c : Conn) (s : Instance D)
      → IsRxValid s
      → s.conns p ≡ some c
      → uart_ioctl circ drv (granted calls) tiocinq p s
        ≡ some ((ok 0, number (length (pending s))), s)
  unfolding uart_ioctl dispatched dispatch granted accessed guarded answer put_number
  tiocinq-pending calls p c s v h =
      let e = circ_cnt-eq_used circ 10 s.rxbuf.head s.rxbuf.tail v.ring.head_in v.ring.tail_in in
      let same = e ∙ sym (length-contents 1024 s.rxbuf v.ring) in
      ap (λ o. dispatched circ drv (granted calls) tiocinq p o s) h
      ∙ ap (λ n. some ((ok 0, number n), s)) same

  -- Where the calls succeed, the priority that one ioctl sets on an open connection is what the next
  -- one reports.
  pub iocgpriority-iocspriority :
      (calls later : IoctlCalls) (p : ℕ) (c : Conn) (s : Instance D)
      → s.conns p ≡ some c
      → (t : Instance D) × (uart_ioctl circ drv (granted calls) iocspriority p s
          ≡ some ((ok 0, nothing), t))
        × (uart_ioctl circ drv (granted later) iocgpriority p t
            ≡ some ((ok 0, number calls.user_value), t))
  unfolding uart_ioctl dispatched dispatch granted accessed answer put_number set_priority
  iocgpriority-iocspriority calls later p c s h = (
    record s { conns = store s.conns p (record c { priority = calls.user_value }) },
    rw h,
    rw (==-refl p),
  )
