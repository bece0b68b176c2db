-- ===== src/FakeHmrf/Device/Request.antt =====
-- A whole request to kernel/fake_hmrf.c: the frame that is written, and the frame that can be read.
use pi_vccu.Prelude.{
  ℕ, zero, suc, ◌+◌, ◌/◌, ◌%◌, ◌≤◌, ◌<◌, ◌≡◌, refl, sym, ap, subst, ◌∙◌, List, [], ◌∷◌, ◌++◌,
  Option, none, some, false, length, take, drop, ltb, ge→ltb, take-append_left, arith,
  length-replicate,
}
use pi_vccu.Prelude.Buffers.{overwrite, overwrite_front, length-overwrite}
use pi_vccu.Kernel.{CircMacros, ok, err, Errno}
use pi_vccu.Ring.{contents, IsRing}
use pi_vccu.Hm.Crc.{hm_crc}
use pi_vccu.Hm.Escape.{encode_frame_buffer, decode_frame_buffer}
use pi_vccu.Hm.Escape.RoundTrip.{decode-encode, length-encode_frame_buffer}
use pi_vccu.Hm.Frame.{HmFrame, at, try_parse_frame}
use pi_vccu.Hm.Frame.RoundTrip.{
  sealed_part, wire, length-wire, IsFrame, encode_frame_lem, parse-wire,
}
use pi_vccu.FakeHmrf.{Fake, answer}
use pi_vccu.FakeHmrf.Device.{
  rx_buf_size, kzalloc, add_to_buffer, respond, send_encoded, dispatch, handle_decoded, write,
}
use pi_vccu.FakeHmrf.Device.Answers.{IsFake, length-answer}
use pi_vccu.FakeHmrf.Device.Buffer.{add_to_buffer_lem}

pub length-kzalloc : (n : ℕ) → length (kzalloc n) ≡ n
unfolding kzalloc
length-kzalloc n = let z : ℕ = 0 in length-replicate n z

-- The command byte that the `switch` statements test.
first_byte :
    (cmd xs ys : List ℕ) (n : ℕ)
    → 0 < n
    → n ≤ length cmd
    → at ((take n cmd ++ xs) ++ ys) 0 ≡ at cmd 0
first_byte cmd xs ys zero h g = absurd (omega arith)
first_byte [] xs ys (suc n) h g = absurd (omega arith)
first_byte (c ∷ cmd) xs ys (suc n) h g = refl

-- A buffer of the call after `bytes` were copied to its front.
filled :
    (bytes : List ℕ)
    → length bytes ≤ 1024
    → overwrite (kzalloc 1024) 0 bytes ≡ bytes ++ drop (length bytes) (kzalloc 1024)
filled bytes h =
    overwrite_front (kzalloc 1024) bytes (length bytes) refl (omega (arith, length-kzalloc 1024))

-- The answer to a frame: its destination and counter with another command.
abbrev pub reply : HmFrame → List ℕ → HmFrame
reply f response = record f { cmd = response; cmdlen = length response }

module _ (circ : CircMacros) where
  send_wire :
      (f : HmFrame) (behind : List ℕ) (s : Fake)
      → f.cmdlen ≤ length f.cmd
      → send_encoded circ (ok (f.cmdlen + 7), wire f ++ behind) s
        ≡ some (record s { rxbuf = add_to_buffer circ (encode_frame_buffer (wire f)) s.rxbuf })
  unfolding send_encoded
  send_wire f behind s h =
      let whole : take (f.cmdlen + 7) (wire f ++ behind) ≡ wire f =
        take-append_left (f.cmdlen + 7) (wire f) behind (sym (length-wire f h)) in
      rw whole

  respond_lem :
      (f : HmFrame) (response buf : List ℕ) (s : Fake)
      → length response ≤ 100
      → 1024 ≤ length buf
      → respond circ f response buf s
        ≡ some (record s {
          rxbuf = add_to_buffer circ (encode_frame_buffer (wire (reply f response))) s.rxbuf;
        })
  unfolding respond
  respond_lem f response buf s h g =
      let room : ltb 1024 (length response + 7) ≡ false = ge→ltb _ _ (omega arith) in
      rw (encode_frame_lem buf 1024 (reply f response) (omega arith) g, room)
        (send_wire (reply f response) (drop (length response + 7) buf) s (omega arith))

-- The two buffers of the call hold the frame that was written.
decoded :
    (f : HmFrame)
    → length (encode_frame_buffer (wire f)) ≤ 1024
    → let line = encode_frame_buffer (wire f) in
      decode_frame_buffer (overwrite (kzalloc 1024) 0 line) (length line) ≡ some (wire f)
decoded f h =
    let line = encode_frame_buffer (wire f) in
    rw (filled line h) (decode-encode (wire f) (drop (length line) (kzalloc 1024)) (omega arith))

-- What the parser reads back, with `behind` the memory behind the frame.
abbrev read_back : HmFrame → List ℕ → HmFrame
read_back f behind = record {
  dst = f.dst;
  cnt = f.cnt;
  cmd = drop 5 (wire f ++ behind);
  cmdlen = f.cmdlen;
}

parsed :
    (f : HmFrame)
    → IsFrame f
    → length (wire f) ≤ 1024
    → let behind = drop (length (wire f)) (kzalloc 1024) in
      (try_parse_frame (overwrite (kzalloc 1024) 0 (wire f)) (length (wire f))
        ≡ some (read_back f behind))
      × (at (read_back f behind).cmd 0 ≡ at f.cmd 0)
parsed f v h =
    let behind = drop (length (wire f)) (kzalloc 1024) in
    let crc = hm_crc (sealed_part f) in
    (
      ap (λ b. try_parse_frame b (length (wire f))) (filled (wire f) h)
          ∙ ap (λ n. try_parse_frame (wire f ++ behind) n) (length-wire f v.behind_cmd)
          ∙ parse-wire f behind v,
      first_byte f.cmd (crc / 256 % 256 ∷ crc % 256 ∷ []) behind f.cmdlen v.not_empty v.behind_cmd,
    )

-- The stages of the call, one behind the other.
module _ (circ : CircMacros) (s t : Fake) where
  write-handle_decoded :
      (bytes line : List ℕ) (count : ℕ)
      → count ≤ 1024
      → decode_frame_buffer (overwrite (kzalloc 1024) 0 line) count ≡ some bytes
      → write circ (some line) count s ≡ handle_decoded circ count bytes s
  unfolding write
  write-handle_decoded bytes line count h e = rw (ge→ltb 1024 count h, e)

  handle_decoded-dispatch :
      (bytes : List ℕ) (count : ℕ) (frame : HmFrame) (cmd : ℕ)
      → try_parse_frame (overwrite (kzalloc 1024) 0 bytes) (length bytes) ≡ some frame
      → at frame.cmd 0 ≡ cmd
      → dispatch circ frame (overwrite (kzalloc 1024) 0 bytes) (answer frame.dst cmd s) ≡ some t
      → handle_decoded circ count bytes s ≡ some (ok count, t)
  unfolding handle_decoded
  handle_decoded-dispatch bytes count frame cmd e c d = ground arith

length-filled :
    (bytes : List ℕ) → length bytes ≤ 1024 → 1024 ≤ length (overwrite (kzalloc 1024) 0 bytes)
length-filled bytes h = omega (arith, length-overwrite (kzalloc 1024) 0 bytes, length-kzalloc 1024)

module _ (circ : CircMacros) (f : HmFrame) (s : Fake) (v : IsFrame f) (w : IsFake s) where
  written :
      (t : Fake)
      → length (encode_frame_buffer (wire f)) ≤ 1024
      → dispatch circ
          (read_back f (drop (length (wire f)) (kzalloc 1024)))
          (overwrite (kzalloc 1024) 0 (wire f))
          (answer f.dst (at f.cmd 0) s)
        ≡ some t
      → let line = encode_frame_buffer (wire f) in
        write circ (some line) (length line) s ≡ some (ok (length line), t)
  written t h e =
      let line = encode_frame_buffer (wire f) in
      let (b, c) = parsed f v (omega (arith, length-encode_frame_buffer (wire f))) in
      write-handle_decoded circ s t (wire f) line (length line) h (decoded f h)
      ∙ handle_decoded-dispatch circ s t (wire f) (length line) (read_back f _) (at f.cmd 0) b c e

  dispatched :
      (response : List ℕ) (t : Fake)
      → length (wire f) ≤ 1024
      → length response ≤ 100
      → dispatch circ
          (read_back f (drop (length (wire f)) (kzalloc 1024)))
          (overwrite (kzalloc 1024) 0 (wire f))
          (some response, t)
        ≡ some (record t {
          rxbuf = add_to_buffer circ (encode_frame_buffer (wire (reply f response))) t.rxbuf;
        })
  unfolding dispatch
  dispatched response t h small =
      respond_lem circ (read_back f (drop (length (wire f)) (kzalloc 1024))) response
        (overwrite (kzalloc 1024) 0 (wire f)) t small (length-filled (wire f) h)

  -- A request that the module answers, written as a frame the way a sender encodes it, succeeds.
  -- What can be read is then what could be read before, and behind it the encoding of a frame with
  -- the destination and the counter of the request and the answer as its command, if there is room.
  pub write-answered :
      (response : List ℕ) (t : Fake)
      → length (encode_frame_buffer (wire f)) ≤ 1024
      → answer f.dst (at f.cmd 0) s ≡ (some response, t)
      → length (contents rx_buf_size s.rxbuf)
          + length (encode_frame_buffer (wire (reply f response)))
        ≤ 1023
      → (u : Fake) × (write circ
            (some (encode_frame_buffer (wire f)))
            (length (encode_frame_buffer (wire f)))
            s
          ≡ some (ok (length (encode_frame_buffer (wire f))), u))
        × (contents rx_buf_size u.rxbuf
            ≡ contents rx_buf_size s.rxbuf ++ encode_frame_buffer (wire (reply f response)))
        × IsRing rx_buf_size u.rxbuf
        × (u.is_in_bl ≡ t.is_in_bl)
  write-answered response t h e room =
      let (small, same) = length-answer f.dst (at f.cmd 0) s t response w e in
      let bytes = encode_frame_buffer (wire (reply f response)) in
      let (q, r) = add_to_buffer_lem circ bytes s.rxbuf w.ring room in
      let u = record t { rxbuf = add_to_buffer circ bytes t.rxbuf } in
      (
        u,
        written u h (
            ap
              (λ a.
                dispatch circ (read_back f (drop (length (wire f)) (kzalloc 1024)))
                  (overwrite (kzalloc 1024) 0 (wire f)) a)
              e
            ∙ dispatched response t (omega (arith, length-encode_frame_buffer (wire f))) small),
        ap (λ x. contents 1024 (add_to_buffer circ bytes x)) same ∙ q,
        subst (λ x. IsRing 1024 (add_to_buffer circ bytes x)) (sym same) r,
        refl,
      )

  -- A request that the module has no answer to succeeds too, and changes nothing that can be read.
  pub write-silent :
      (t : Fake)
      → length (encode_frame_buffer (wire f)) ≤ 1024
      → answer f.dst (at f.cmd 0) s ≡ (none, t)
      → write circ (some (encode_frame_buffer (wire f))) (length (encode_frame_buffer (wire f))) s
        ≡ some (ok (length (encode_frame_buffer (wire f))), t)
  write-silent t h e = written t h (unfold dispatch in rw e)

module _ (circ : CircMacros) where
  -- A write that fails changes nothing.
  pub write-error :
      (copy : Option (List ℕ)) (count : ℕ) (e : Errno) (s t : Fake)
      → write circ copy count s ≡ some (err e, t)
      → t ≡ s
  unfolding write handle_decoded
  write-error copy count e s t h = ground arith
