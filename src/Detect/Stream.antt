-- ===== src/Detect/Stream.antt =====
-- detect_radio_module/streamparser.cpp: the bytes of the line are cut into frames.
pub mod Bytes
pub mod RoundTrip
pub mod Overrun
use pi_vccu.Prelude.{
  ℕ, ◌+◌, ◌*◌, ◌%◌, ◌^◌, bit_or, List, [], ◌∷◌, ◌++◌, Option, none, some, Bool, true, false, ltb,
  ◌==◌, ◌&&◌, if◌then◌else◌, set, take,
}

abbrev pub stream_buffer_size : ℕ
stream_buffer_size = 2048

-- `state_t`.
pub data StreamState : Type 0 where
  no_data receive_length_high_byte receive_length_low_byte receive_frame_data : StreamState
  frame_complete : StreamState

-- `class StreamParser`, but for its callback.
pub record StreamParser : Type 0 where
  pub buffer : List ℕ
  pub buffer_pos : ℕ
  pub frame_pos : ℕ
  pub frame_length : ℕ
  pub state : StreamState
  pub is_escaped : Bool
  pub decode_escaped : Bool

-- `chr | 0x80` for a byte behind an escape character.
abbrev pub marked : Bool → ℕ → ℕ
marked escaped chr = if escaped then bit_or chr 0x80 else chr

-- The switch on the state; `none` is its early return.
unfoldable pub advance : StreamState → ℕ → StreamParser → Option StreamParser
advance no_data chr p = none
advance frame_complete chr p = none
advance receive_length_high_byte chr p = some (record p {
  frame_length = marked p.is_escaped chr * 256 % 2 ^ 16;
  state = receive_length_low_byte;
})
advance receive_length_low_byte chr p = some (record p {
  frame_length = (bit_or p.frame_length (marked p.is_escaped chr) + 2) % 2 ^ 16;
  frame_pos = 0;
  state = receive_frame_data;
})
advance receive_frame_data chr p =
    let pos = (p.frame_pos + 1) % 2 ^ 16 in
    some (record p {
      frame_pos = pos;
      state = if pos == p.frame_length then frame_complete else receive_frame_data;
    })

-- What an appended byte leads to: the parser and the frames for which it calls its processor.
abbrev pub Appended : Type 0
Appended = StreamParser × List (List ℕ)

-- The call of the processor for a complete frame.
unfoldable pub completed : StreamState → StreamParser → Appended
completed frame_complete p = (record p { state = no_data }, take p.buffer_pos p.buffer ∷ [])
completed state p = (p, [])

-- From the store to `_buffer` on; `none` is a store past its end.
unfoldable pub store_byte : ℕ → StreamParser → Option Appended
store_byte chr p =
    let pos = (p.buffer_pos + 1) % 2 ^ 16 in
    let state' = if pos == stream_buffer_size then frame_complete else p.state in
    let q = record p { buffer = set p.buffer p.buffer_pos chr; buffer_pos = pos; state = state' } in
    if ltb p.buffer_pos stream_buffer_size then some (completed state' q) else none

-- The default case: the byte, decoded if it is escaped, and what the switch on the state makes of
-- it.
unfoldable pub plain : ℕ → StreamParser → Option StreamParser → Option Appended
plain chr p none = some (p, [])
plain chr p (some q) = store_byte chr (record q { is_escaped = false })

-- `StreamParser::append(chr)`.
unfoldable pub append : ℕ → StreamParser → Option Appended
append chr p =
    let start = record p { buffer_pos = 0; is_escaped = false; state = receive_length_high_byte } in
    let escape = record p { is_escaped = true } in
    let chr' = marked (p.is_escaped && p.decode_escaped) chr in
    if chr == 0xfd
    then store_byte chr start
    else if chr == 0xfc
    then (if p.decode_escaped then some (escape, []) else store_byte chr escape)
    else plain chr' p (advance p.state chr' p)

-- The frames of a first part, before those of the rest.
unfoldable pub collect : List (List ℕ) → Option Appended → Option Appended
collect frames none = none
collect frames (some (p, more)) = some (p, frames ++ more)

-- `StreamParser::append(buffer, len)`.
unfoldable pub append_all : List ℕ → StreamParser → Option Appended
append_all [] p = some (p, [])
append_all (chr ∷ rest) p = elim (append chr p) [
  | none ↦ none
  | some r ↦ let (q, frames) = r in collect frames (append_all rest q)
]

-- `StreamParser::setDecodeEscaped`.
unfoldable pub set_decode_escaped : Bool → StreamParser → StreamParser
set_decode_escaped decode p = record p { decode_escaped = decode }

-- `StreamParser::flush`, and the parser that the constructor makes, with what the array holds.
unfoldable pub flush : StreamParser → StreamParser
flush p = record p { state = no_data; buffer_pos = 0; is_escaped = false }

unfoldable pub new_parser : Bool → List ℕ → ℕ → ℕ → StreamParser
new_parser decode array pos len = record {
  buffer = array;
  buffer_pos = 0;
  frame_pos = pos;
  frame_length = len;
  state = no_data;
  is_escaped = false;
  decode_escaped = decode;
}
