-- ===== src/FakeHmrf/Device.antt =====
-- The character device of kernel/fake_hmrf.c: its buffer, `fake_hmrf_write`, `fake_hmrf_read` and
-- `fake_hmrf_poll`.
pub mod Buffer
pub mod Answers
pub mod Request
use pi_vccu.Prelude.{
  ℕ, ◌+◌, ◌-◌, List, [], ◌∷◌, ◌++◌, Option, none, some, Bool, true, false, not, ltb, leb, ◌==◌,
  if◌then◌else◌, length, take, set, replicate,
}
use pi_vccu.Prelude.Buffers.{slice, overwrite}
use pi_vccu.Kernel.{CircMacros, Ret, ok, err, Errno, efault, emsgsize, min_int}
use pi_vccu.Kernel.Wait.{Wake, Waited, ready, failed, asleep, wait_loop}
use pi_vccu.Ring.{CircBuf}
use pi_vccu.Hm.Escape.{encode_frame_buffer, decode_frame_buffer}
use pi_vccu.Hm.Frame.{HmFrame, at, try_parse_frame, encode_frame}
use pi_vccu.FakeHmrf.{Fake, answer}

abbrev pub rx_buf_size : ℕ
rx_buf_size = 1024

abbrev pub buf_size : ℕ
buf_size = 1024

-- `kzalloc`.
unfoldable pub kzalloc : ℕ → List ℕ
kzalloc n = replicate n 0

-- The copy from the user in `write`: the bytes, or it fails.
abbrev pub CopyIn : Type 0
CopyIn = Option (List ℕ)

module _ (circ : CircMacros) where
  -- One round of the loop of `fake_hmrf_add_to_buffer`; a byte that finds no room is dropped.
  pub add_byte : ℕ → CircBuf ℕ → CircBuf ℕ
  add_byte b r =
      let stored = record r {
        buf = set r.buf r.head b;
        head = if leb rx_buf_size (r.head + 1) then 0 else r.head + 1;
      } in
      if circ.circ_space r.head r.tail rx_buf_size == 0 then r else stored

  -- `fake_hmrf_add_to_buffer(buf, len)`; the list is the `len` bytes.
  pub add_to_buffer : List ℕ → CircBuf ℕ → CircBuf ℕ
  add_to_buffer [] r = r
  add_to_buffer (b ∷ buf) r = add_to_buffer buf (add_byte b r)

  -- `fake_hmrf_respond_to_frame`. The frame buffer takes any answer; were it too small, the length
  -- of the next loop would be a negative error number, and `none` is its run past the buffers.
  send_encoded : Ret × List ℕ → Fake → Option Fake
  unfolding add_to_buffer
  send_encoded (ok n, frame_buf) s =
      some (record s { rxbuf = add_to_buffer (encode_frame_buffer (take n frame_buf)) s.rxbuf })
  send_encoded (err e, frame_buf) s = none

  pub respond : HmFrame → List ℕ → List ℕ → Fake → Option Fake
  unfolding send_encoded
  respond frame response frame_buf s =
      send_encoded
        (encode_frame frame_buf buf_size
          (record frame { cmd = response; cmdlen = length response }))
        s

  -- The `switch` statements with the answer that they send.
  dispatch : HmFrame → List ℕ → Option (List ℕ) × Fake → Option Fake
  unfolding respond
  dispatch frame frame_buf (none, s) = some s
  dispatch frame frame_buf (some response, s) = respond frame response frame_buf s

  -- Behind `decodeFrameBuffer`, with the bytes that it stored to the frame buffer.
  handle_decoded : ℕ → List ℕ → Fake → Option (Ret × Fake)
  unfolding dispatch
  handle_decoded count decoded s =
      let frame_buf = overwrite (kzalloc buf_size) 0 decoded in
      elim (try_parse_frame frame_buf (length decoded)) [
        | none ↦ some (err efault, s)
        | some frame ↦ elim (dispatch frame frame_buf (answer frame.dst (at frame.cmd 0) s)) [
          | none ↦ none
          | some t ↦ some (ok count, t)
        ]
      ]

  -- `fake_hmrf_write` of `count` bytes; `none` is an access outside a buffer.
  unfoldable pub write : CopyIn → ℕ → Fake → Option (Ret × Fake)
  unfolding handle_decoded
  write copy count s = if ltb buf_size count then some (err emsgsize, s) else elim copy [
    | none ↦ some (err efault, s)
    | some bytes ↦ elim (decode_frame_buffer (overwrite (kzalloc buf_size) 0 bytes) count) [
      | none ↦ none
      | some decoded ↦ handle_decoded count decoded s
    ]
  ]

  -- Behind the wait of `fake_hmrf_read`: the result, the bytes for the user, and the state.
  read_waited : Bool → ℕ → Waited Fake → Option (Ret × List ℕ × Fake)
  read_waited copy_fails count (ready s) =
      let r = s.rxbuf in
      let n = min_int count (circ.circ_cnt_to_end r.head r.tail rx_buf_size) in
      let tail' = r.tail + n in
      let moved = record r {
        tail = if leb rx_buf_size tail' then tail' - rx_buf_size else tail';
      } in
      if copy_fails
      then some (err efault, [], s)
      else some (ok n, slice r.buf r.tail n, record s { rxbuf = moved })
  read_waited copy_fails count (failed e s) = some (err e, [], s)
  read_waited copy_fails count (asleep s) = none

  -- `fake_hmrf_read`; `none` where it sleeps on. It takes no semaphore, so no wake-up is a
  -- `lock_signalled`.
  pub read : Bool → List (Wake Fake) → Bool → ℕ → Fake → Option (Ret × List ℕ × Fake)
  unfolding read_waited wait_loop
  read nonblock wakes copy_fails count s = read_waited copy_fails count (
      wait_loop (λ t. not (circ.circ_cnt t.rxbuf.head t.rxbuf.tail rx_buf_size == 0)) nonblock wakes
        s)

  -- `fake_hmrf_poll`: it is always writable, and this says whether it is readable too.
  pub poll : Fake → Bool
  poll s = ltb 0 (circ.circ_cnt s.rxbuf.head s.rxbuf.tail rx_buf_size)
