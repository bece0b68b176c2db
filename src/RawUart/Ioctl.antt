-- ===== src/RawUart/Ioctl.antt =====
-- The ioctls and the switches in sysfs of kernel/generic_raw_uart.c.
pub mod Kept
pub mod Report
use pi_vccu.Prelude.{
  ℕ, ◌-◌, ltb, ◌==◌, List, Option, none, some, Bool, true, false, if◌then◌else◌, take, length,
}
use pi_vccu.Kernel.{CircMacros, Ret, ok, err, Errno, efault, erestartsys, enomem, enotty, einval}
use pi_vccu.RawUart.{RawUartDriver, Conn, Instance, circbuf_size}
use pi_vccu.RawUart.Tx.{store}
use pi_vccu.RawUart.Session.{GpioOp, reset_radio_module}

-- The commands; `other` is one that the switch does not name.
pub data Command : Type 0 where
  iocspriority iocgpriority iocreset_radio_module iocgdevinfo tcgets tcsets : Command
  tiocinq tiocoutq tiocexcl tcflsh tiocmget tiocmset other : Command

-- What the calls of `generic_raw_uart_ioctl` give: whether the waits for the semaphores of the
-- connection, of the instance and of the reset are interrupted, `access_ok`, `__get_user` with the
-- value, `__put_user`, `kmalloc`, what
-- `generic_raw_uart_get_device_type` returns with the bytes of the buffer for it, the number of
-- bytes that `copy_to_user` or `copy_from_user` leaves out, and what the latter leaves in `termios`.
-- `modem_lines` is `TIOCM_DSR | TIOCM_CD | TIOCM_CTS`.
pub record IoctlCalls : Type 0 where
  pub conn_interrupted : Bool
  pub interrupted : Bool
  pub reset_interrupted : Bool
  pub access : Bool
  pub got : Option Errno
  pub user_value : ℕ
  pub put : Option Errno
  pub allocated : Bool
  pub device_type : Ret
  pub type_bytes : List ℕ
  pub not_copied : ℕ
  pub copied_termios : List ℕ
  pub modem_lines : ℕ

-- What arrives in the user's memory.
pub data Reply : Type 0 where
  nothing : Reply
  number : ℕ → Reply
  bytes : List ℕ → Reply

-- `__put_user`.
unfoldable pub put_number : Option Errno → ℕ → Ret × Reply
put_number (some e) v = (err e, nothing)
put_number none v = (ok 0, number v)

-- `copy_to_user` of all but the last `missed` bytes; its result is the number of those.
unfoldable pub copy_bytes : List ℕ → ℕ → Ret × Reply
copy_bytes buf missed = (ok missed, bytes (take (length buf - missed) buf))

-- A device type of a positive length is copied.
unfoldable pub device_info : Ret → List ℕ → ℕ → Ret × Reply
device_info (err e) buf missed = (err e, nothing)
device_info (ok n) buf missed = if ltb 0 n then copy_bytes buf missed else (ok n, nothing)

module _ {D : Type 0} where
  -- The answer of a command that leaves the instance as it is.
  unfoldable pub answer : Instance D → Ret × Reply → (Ret × Reply) × Instance D
  answer s r = (r, s)

  -- The priority from `__get_user`.
  unfoldable pub set_priority :
      Option Errno → ℕ → ℕ → Conn → Instance D → (Ret × Reply) × Instance D
  set_priority (some e) v p c s = ((err e, nothing), s)
  set_priority none v p c s =
      ((ok 0, nothing), record s { conns = store s.conns p (record c { priority = v }) })

  -- A result that the semaphore of the instance guards.
  unfoldable pub guarded :
      Bool → Instance D → (Ret × Reply) × Instance D → (Ret × Reply) × Instance D
  guarded true s r = ((err erestartsys, nothing), s)
  guarded false s r = r

  -- A result that `access_ok` guards.
  unfoldable pub accessed :
      Bool → Instance D → (Ret × Reply) × Instance D → (Ret × Reply) × Instance D
  accessed false s r = ((err efault, nothing), s)
  accessed true s r = r

  unfoldable pub after_reset : Ret × List GpioOp × Instance D → (Ret × Reply) × Instance D
  after_reset (r, ops, s) = ((r, nothing), s)

-- The switch of `generic_raw_uart_ioctl`, for the connection `c` at `p`.
module _ {D : Type 0} (circ : CircMacros) (drv : RawUartDriver D) (calls : IoctlCalls) where
  unfoldable pub dispatch : Command → ℕ → Conn → Instance D → (Ret × Reply) × Instance D
  dispatch iocspriority p c s =
      accessed calls.access s (set_priority calls.got calls.user_value p c s)
  dispatch iocgpriority p c s = accessed calls.access s (answer s (put_number calls.put c.priority))
  dispatch iocreset_radio_module p c s =
      after_reset (reset_radio_module drv calls.reset_interrupted 1 s)
  dispatch iocgdevinfo p c s = accessed calls.access s (
      answer s (
        if calls.allocated
        then device_info calls.device_type calls.type_bytes calls.not_copied
        else (err enomem, nothing)))
  dispatch tcgets p c s =
      accessed calls.access s
        (guarded calls.interrupted s (answer s (copy_bytes s.termios calls.not_copied)))
  dispatch tcsets p c s = accessed calls.access s (
      guarded calls.interrupted s
        ((ok calls.not_copied, nothing), record s { termios = calls.copied_termios }))
  dispatch tiocinq p c s = accessed calls.access s (
      guarded calls.interrupted s
        (answer s (put_number calls.put (circ.circ_cnt s.rxbuf.head s.rxbuf.tail circbuf_size))))
  dispatch tiocoutq p c s = accessed calls.access s (answer s (put_number calls.put 0))
  dispatch tiocexcl p c s = answer s (ok 0, nothing)
  dispatch tcflsh p c s = answer s (ok 0, nothing)
  dispatch tiocmget p c s =
      accessed calls.access s (answer s (put_number calls.put calls.modem_lines))
  dispatch tiocmset p c s = answer s (ok 0, nothing)
  dispatch other p c s = answer s (err enotty, nothing)

  unfoldable pub dispatched :
      Command → ℕ → Option Conn → Instance D → Option ((Ret × Reply) × Instance D)
  dispatched cmd p none s = none
  dispatched cmd p (some c) s = some (dispatch cmd p c s)

  -- `generic_raw_uart_ioctl` for the connection at `p`; `none` is a fault.
  unfoldable pub uart_ioctl : Command → ℕ → Instance D → Option ((Ret × Reply) × Instance D)
  unfolding dispatched
  uart_ioctl cmd p s =
      if calls.conn_interrupted
      then some ((err erestartsys, nothing), s)
      else dispatched cmd p (s.conns p) s

-- The switches in sysfs. `parsed` is what `kstrtobool` reads in the text, and `count` its length.
module _ {D : Type 0} where
  -- `dump_traffic_store`.
  unfoldable pub dump_traffic_store : Option Bool → ℕ → Instance D → Ret × Instance D
  dump_traffic_store none count s = (err einval, s)
  dump_traffic_store (some val) count s = (ok count, record s { dump_traffic = val })

  unfoldable pub counted : ℕ → Ret × List GpioOp × Instance D → Ret × Instance D
  counted count (ok n, ops, s) = (if n == 0 then ok count else ok n, s)
  counted count (err e, ops, s) = (err e, s)

  -- `reset_radio_module_store`.
  unfoldable pub reset_radio_module_store :
      RawUartDriver D → Bool → Option Bool → ℕ → Instance D → Ret × Instance D
  reset_radio_module_store drv interrupted none count s = (err einval, s)
  reset_radio_module_store drv interrupted (some false) count s = (err einval, s)
  reset_radio_module_store drv interrupted (some true) count s =
      counted count (reset_radio_module drv interrupted 0 s)
