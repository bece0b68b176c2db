-- ===== src/Detect/Stream/RoundTrip.antt =====
-- What detect_radio_module/streamparser.cpp makes of an escaped frame of hmframe.cpp.
use pi_vccu.Prelude.{
  ℕ, zero, suc, ◌+◌, ◌*◌, ◌%◌, ◌^◌, ◌<◌, ◌≤◌, bit_or, ◌≡◌, refl, ap, ◌∙◌, List, [], ◌∷◌, ◌++◌,
  Option, some, true, false, inl, inr, Bool-cases, ltb, ◌==◌, set, take, length, length-take,
  length-set, length-append, append_assoc, arith,
}
use pi_vccu.Detect.Frame.{HmFrame, crc, plain_bytes, encode, try_parse}
use pi_vccu.Detect.Frame.Escaped.{escape_bytes, escape_frame, encode-escape_frame}
use pi_vccu.Detect.Stream.{
  StreamState, no_data, receive_length_high_byte, receive_length_low_byte, receive_frame_data,
  frame_complete, StreamParser, Appended, completed, store_byte, append, collect, append_all,
}
use pi_vccu.Prelude.{◌/◌}
use pi_vccu.Prelude.Bits.{bit_or-shift}
use pi_vccu.Detect.Frame.Same.{IsHmFrame, Reads, try_parse-plain_bytes, length-plain_bytes}
use pi_vccu.Detect.Stream.Bytes.{
  parser, is_receiving, after, onward, taken, collect-nil, append_all-onward, append_all-byte,
}

take-set :
    (buf : List ℕ) (pos x : ℕ)
    → pos < length buf
    → take (suc pos) (set buf pos x) ≡ take pos buf ++ (x ∷ [])
take-set [] pos x h = absurd (omega arith)
take-set (b ∷ buf) zero x h = refl
take-set (b ∷ buf) (suc pos) x h = ap (λ t. b ∷ t) (take-set buf pos x (omega arith))

-- What the parser holds in a frame: the bytes so far, at the front of its array.
record Holds (pos : ℕ) (buf so_far : List ℕ) : Type 0 where
  room : length buf ≡ 2048
  position : pos ≡ length so_far
  bytes : take pos buf ≡ so_far

-- The store keeps that.
set-Holds :
    (pos : ℕ) (buf so_far : List ℕ) (x : ℕ)
    → Holds pos buf so_far
    → pos < 2048
    → Holds (pos + 1) (set buf pos x) (so_far ++ (x ∷ []))
set-Holds pos buf so_far x v h = record {
  room = length-set buf pos x ∙ v.room;
  position = omega (arith, v.position, length-append {0} so_far (x ∷ []));
  bytes =
      ap (λ n. take n (set buf pos x)) {y = suc pos} (omega arith)
      ∙ take-set buf pos x (omega (arith, v.room))
      ∙ ap (λ t. t ++ (x ∷ [])) v.bytes;
}

-- A parser that waits for a frame.
pub record IsReady (p : StreamParser) : Type 0 where
  pub array : length p.buffer ≡ 2048
  pub decodes : p.decode_escaped ≡ true

IsReady-Holds : (p : StreamParser) → IsReady p → Holds 0 p.buffer []
IsReady-Holds p v = record { room = v.array; position = refl; bytes = refl }

-- The processor is called once, for this frame, and the parser waits for the next one.
pub record Delivered (frame : List ℕ) (r : Option Appended) : Type 0 where
  pub parser_left : StreamParser
  pub result : r ≡ some (parser_left, frame ∷ [])
  pub ready : IsReady parser_left
  pub waits : parser_left.state ≡ no_data

completed-goes_on :
    (s : StreamState) (p : StreamParser) → is_receiving s ≡ true → completed s p ≡ (p, [])
unfolding completed
completed-goes_on no_data p h = absurd cc
completed-goes_on receive_length_high_byte p h = refl
completed-goes_on receive_length_low_byte p h = refl
completed-goes_on receive_frame_data p h = refl
completed-goes_on frame_complete p h = absurd cc

store_byte-goes_on :
    (s : StreamState) (x fl fp : ℕ) (buf : List ℕ) (pos : ℕ)
    → is_receiving s ≡ true
    → pos + 1 < 2048
    → store_byte x (parser s fl fp buf pos) ≡ some (parser s fl fp (set buf pos x) (pos + 1), [])
unfolding store_byte
store_byte-goes_on s x fl fp buf pos r h =
    let small : (pos + 1) % 2 ^ 16 ≡ pos + 1 = omega arith in
    let inside : ltb pos 2048 ≡ true = ground arith in
    let more : (pos + 1 == 2048) ≡ false = ground arith in
    rw (small, inside, more)
      (ap some (completed-goes_on s (parser s fl fp (set buf pos x) (pos + 1)) r))

store_byte-completes :
    (x fl fp : ℕ) (buf : List ℕ) (pos : ℕ)
    → pos < 2048
    → store_byte x (parser frame_complete fl fp buf pos)
      ≡ some (parser no_data fl fp (set buf pos x) (pos + 1), take (pos + 1) (set buf pos x) ∷ [])
unfolding store_byte completed
store_byte-completes x fl fp buf pos h =
    let small : (pos + 1) % 2 ^ 16 ≡ pos + 1 = omega arith in
    let inside : ltb pos 2048 ≡ true = ground arith in
    rw (small, inside) (elim (Bool-cases (pos + 1 == 2048)) [ inl e ↦ rw e | inr e ↦ rw e ])

after_last :
    (x fl fp : ℕ)
    → fp + 1 ≡ fl
    → fl < 65536
    → after receive_frame_data x fl fp ≡ (frame_complete, fl, fp + 1)
unfolding after
after_last x fl fp e h =
    let small : (fp + 1) % 2 ^ 16 ≡ fp + 1 = omega arith in
    let last : (fp + 1 == fl) ≡ true = ground arith in rw (small, last)

after_inner :
    (x fl fp : ℕ)
    → fp + 1 < fl
    → fl < 65536
    → after receive_frame_data x fl fp ≡ (receive_frame_data, fl, fp + 1)
unfolding after
after_inner x fl fp e h =
    let small : (fp + 1) % 2 ^ 16 ≡ fp + 1 = omega arith in
    let inner : (fp + 1 == fl) ≡ false = ground arith in rw (small, inner)

-- A byte within a frame only fills the array.
taken-inner :
    (s : StreamState) (x fl fp : ℕ) (buf : List ℕ) (pos : ℕ) (line : List ℕ)
    → is_receiving s ≡ true
    → pos + 1 < 2048
    → taken (s, fl, fp) x buf pos line ≡ append_all line (parser s fl fp (set buf pos x) (pos + 1))
unfolding taken
taken-inner s x fl fp buf pos line r h =
    ap (onward line) (store_byte-goes_on s x fl fp buf pos r h) ∙ collect-nil _

last_taken :
    (x fl fp : ℕ) (buf so_far : List ℕ) (pos : ℕ)
    → Holds pos buf so_far
    → pos < 2048
    → taken (frame_complete, fl, fp) x buf pos []
      ≡ some (parser no_data fl fp (set buf pos x) (pos + 1), (so_far ++ (x ∷ [])) ∷ [])
unfolding taken collect append_all
last_taken x fl fp buf so_far pos v h =
    ap (onward []) (store_byte-completes x fl fp buf pos h)
    ∙ ap (λ t. some (parser no_data fl fp (set buf pos x) (pos + 1), t ∷ []))
        (set-Holds pos buf so_far x v h).bytes

-- The last bytes of a frame, `x` and `rest`.
append_all-data :
    (rest : List ℕ) (x fl fp : ℕ) (buf so_far : List ℕ) (pos : ℕ)
    → Holds pos buf so_far
    → fp + suc (length rest) ≡ fl
    → fl < 65536
    → pos + suc (length rest) ≤ 2048
    → Delivered
        (so_far ++ (x ∷ rest))
        (append_all (escape_bytes (x ∷ rest)) (parser receive_frame_data fl fp buf pos))
unfolding escape_bytes
append_all-data [] x fl fp buf so_far pos v e small room = record {
  parser_left = parser no_data fl (fp + 1) (set buf pos x) (pos + 1);
  result =
      append_all-byte receive_frame_data x fl fp buf pos [] refl
      ∙ ap (λ t. taken t x buf pos []) (after_last x fl fp e small)
      ∙ last_taken x fl (fp + 1) buf so_far pos v (omega arith);
  ready = record { array = length-set buf pos x ∙ v.room; decodes = refl };
  waits = refl;
}
append_all-data (y ∷ rest) x fl fp buf so_far pos v e small room =
    let next =
      append_all-data rest y fl (fp + 1) (set buf pos x) (so_far ++ (x ∷ [])) (pos + 1)
        (set-Holds pos buf so_far x v (omega arith)) (omega arith) small (omega arith) in
    record {
      parser_left = next.parser_left;
      result =
          append_all-byte receive_frame_data x fl fp buf pos (y ∷ rest) refl
          ∙ ap (λ t. taken t x buf pos (escape_bytes (y ∷ rest)))
              (after_inner x fl fp (omega arith) small)
          ∙ taken-inner receive_frame_data x fl (fp + 1) buf pos (escape_bytes (y ∷ rest)) refl
              (omega arith)
          ∙ next.result
          ∙ ap (λ t. some (next.parser_left, t ∷ [])) (append_assoc so_far (x ∷ []) (y ∷ rest));
      ready = next.ready;
      waits = next.waits;
    }

-- The first byte of a frame finds any parser that decodes, whatever it is doing.
append-start :
    (p : StreamParser)
    → p.decode_escaped ≡ true
    → append 0xfd p
      ≡ store_byte 0xfd (parser receive_length_high_byte p.frame_length p.frame_pos p.buffer 0)
unfolding append
append-start p h =
    ap
      (λ d.
        store_byte 0xfd
          (record (parser receive_length_high_byte p.frame_length p.frame_pos p.buffer 0) {
            decode_escaped = d;
          }))
      h

-- The length in the two bytes behind it, with the two bytes of the checksum.
length_bytes :
    (n : ℕ) → n < 65534 → (bit_or (n / 256 % 256 * 256 % 2 ^ 16) (n % 256) + 2) % 2 ^ 16 ≡ n + 2
length_bytes n h =
    let e : n / 256 % 256 * 256 % 2 ^ 16 ≡ n / 256 % 256 * 256 = omega arith in
    let b = bit_or-shift 8 (n / 256 % 256) (n % 256) (omega arith) in rw e (omega (arith, b))

-- The three bytes at the head of a frame, and the rest.
append_all-head :
    (p : StreamParser) (n x : ℕ) (rest : List ℕ)
    → IsReady p
    → n + 2 ≡ suc (length rest)
    → n < 65534
    → n + 5 ≤ 2048
    → Delivered
        (0xfd ∷ n / 256 % 256 ∷ n % 256 ∷ x ∷ rest)
        (append_all (escape_frame (0xfd ∷ n / 256 % 256 ∷ n % 256 ∷ x ∷ rest)) p)
unfolding escape_frame after
append_all-head p n x rest v e small room =
    let hi = n / 256 % 256 in
    let lo = n % 256 in
    let fp = p.frame_pos in
    let b0 = set p.buffer 0 0xfd in
    let b1 = set b0 1 hi in
    let b2 = set b1 2 lo in
    let line = escape_bytes (hi ∷ lo ∷ x ∷ rest) in
    let h0 = IsReady-Holds p v in
    let h1 = set-Holds 0 p.buffer [] 0xfd h0 (omega arith) in
    let h2 = set-Holds 1 b0 (0xfd ∷ []) hi h1 (omega arith) in
    let h3 = set-Holds 2 b1 (0xfd ∷ hi ∷ []) lo h2 (omega arith) in
    let d =
      append_all-data rest x (n + 2) 0 b2 (0xfd ∷ hi ∷ lo ∷ []) 3 h3 (omega arith) (omega arith)
        (omega arith) in
    record {
      parser_left = d.parser_left;
      result =
          append_all-onward 0xfd line p
          ∙ ap (onward line) (
              append-start p v.decodes
              ∙ store_byte-goes_on receive_length_high_byte 0xfd p.frame_length fp p.buffer 0 refl
                  (omega arith))
          ∙ collect-nil _
          ∙ append_all-byte receive_length_high_byte hi p.frame_length fp b0 1 (lo ∷ x ∷ rest) refl
          ∙ taken-inner receive_length_low_byte hi (hi * 256 % 2 ^ 16) fp b0 1
              (escape_bytes (lo ∷ x ∷ rest)) refl (omega arith)
          ∙ append_all-byte receive_length_low_byte lo (hi * 256 % 2 ^ 16) fp b1 2 (x ∷ rest) refl
          ∙ ap (λ t. taken (receive_frame_data, t, 0) lo b1 2 (escape_bytes (x ∷ rest)))
              (length_bytes n small)
          ∙ taken-inner receive_frame_data lo (n + 2) 0 b1 2 (escape_bytes (x ∷ rest)) refl
              (omega arith)
          ∙ d.result;
      ready = d.ready;
      waits = d.waits;
    }

append_all-escape_frame :
    (f : HmFrame) (p : StreamParser)
    → IsReady p
    → IsHmFrame f
    → f.data_len + 8 ≤ 2048
    → Delivered (plain_bytes f) (append_all (escape_frame (plain_bytes f)) p)
unfolding plain_bytes
append_all-escape_frame f p v w room =
    let n = f.data_len + 3 in
    let cmd = take f.data_len f.payload in
    let sum = crc (0xfd ∷ n / 256 % 256 ∷ n % 256 ∷ f.destination ∷ f.counter ∷ f.command ∷ cmd) in
    let two = length-append cmd (sum / 256 % 256 ∷ sum % 256 ∷ []) in
    append_all-head p n f.destination _ v
      (omega (arith, two, length-take f.data_len f.payload, w.behind)) (omega arith) (omega arith)

-- A frame whose escaped form fits the buffer that `HMFrame::encode` gets, and whose plain form fits
-- the array of the stream parser: `encode` writes it without going past the buffer; a decoding
-- parser, in any state, that gets these bytes calls its processor once, with the plain bytes of the
-- frame, and waits again; and `HMFrame::TryParse` reads the frame from them.
pub try_parse-append_all-encode :
    (f : HmFrame) (len : ℕ) (p : StreamParser)
    → IsReady p
    → IsHmFrame f
    → f.data_len + 8 ≤ 2048
    → length (escape_frame (plain_bytes f)) ≤ len
    → (line : List ℕ) × (encode f len true ≡ some line)
      × Delivered (plain_bytes f) (append_all line p)
      × Reads f (try_parse (plain_bytes f) (length (plain_bytes f)))
try_parse-append_all-encode f len p v w room big = (
  escape_frame (plain_bytes f),
  encode-escape_frame f len w big,
  append_all-escape_frame f p v w room,
  rw (length-plain_bytes f w) (try_parse-plain_bytes f w (omega arith)),
)
