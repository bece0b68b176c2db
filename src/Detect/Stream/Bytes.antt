-- ===== src/Detect/Stream/Bytes.antt =====
-- How detect_radio_module/streamparser.cpp takes the bytes of an escaped frame one by one.
use pi_vccu.Prelude.{
  ℕ, ◌+◌, ◌*◌, ◌%◌, ◌^◌, bit_or, bit_and, ◌≡◌, refl, ap, ◌∙◌, List, [], ◌∷◌, Option, none, some,
  Bool, true, false, inl, inr, Bool-cases, ◌==◌, ◌||◌, if◌then◌else◌, ◌⊎◌, arith,
}
use pi_vccu.Detect.Frame.Escaped.{escape_bytes}
use pi_vccu.Detect.Stream.{
  StreamState, no_data, receive_length_high_byte, receive_length_low_byte, receive_frame_data,
  frame_complete, StreamParser, advance, Appended, store_byte, plain, append, collect, append_all,
}

-- A parser that decodes, behind a whole byte.
abbrev pub parser : StreamState → ℕ → ℕ → List ℕ → ℕ → StreamParser
parser s fl fp buf pos = record {
  buffer = buf;
  buffer_pos = pos;
  frame_pos = fp;
  frame_length = fl;
  state = s;
  is_escaped = false;
  decode_escaped = true;
}

-- State, length and position behind the byte `x` of a frame.
unfoldable pub after : StreamState → ℕ → ℕ → ℕ → StreamState × ℕ × ℕ
after no_data x fl fp = (no_data, fl, fp)
after receive_length_high_byte x fl fp = (receive_length_low_byte, x * 256 % 2 ^ 16, fp)
after receive_length_low_byte x fl fp = (receive_frame_data, (bit_or fl x + 2) % 2 ^ 16, 0)
after receive_frame_data x fl fp =
    let pos = (fp + 1) % 2 ^ 16 in
    (if pos == fl then frame_complete else receive_frame_data, fl, pos)
after frame_complete x fl fp = (frame_complete, fl, fp)

abbrev pub is_receiving : StreamState → Bool
is_receiving no_data = false
is_receiving frame_complete = false
is_receiving s = true

-- The rest of a line behind a byte.
abbrev pub onward : List ℕ → Option Appended → Option Appended
onward line none = none
onward line (some (q, frames)) = collect frames (append_all line q)

-- The byte `x` is stored, and the parser goes on.
unfoldable pub taken : StreamState × ℕ × ℕ → ℕ → List ℕ → ℕ → List ℕ → Option Appended
taken (s, fl, fp) x buf pos line = onward line (store_byte x (parser s fl fp buf pos))

pub collect-nil : (o : Option Appended) → collect [] o ≡ o
unfolding collect
collect-nil none = refl
collect-nil (some (p, frames)) = refl

pub append_all-onward :
    (x : ℕ) (line : List ℕ) (p : StreamParser) → append_all (x ∷ line) p ≡ onward line (append x p)
unfolding append_all
append_all-onward x line p =
    elim (append x p)
      as (λ o.
        elim o [ none ↦ none | some r ↦ let (q, frames) = r in collect frames (append_all line q) ]
        ≡ onward line o) [ none ↦ refl | some r ↦ refl ]

-- A byte that is no marker, and the two that are, arrive as they were sent.
append-plain :
    (s : StreamState) (x fl fp : ℕ) (buf : List ℕ) (pos : ℕ)
    → is_receiving s ≡ true
    → (x == 0xfd) ≡ false
    → (x == 0xfc) ≡ false
    → append x (parser s fl fp buf pos)
      ≡ (let (s', fl', fp') = after s x fl fp in store_byte x (parser s' fl' fp' buf pos))
unfolding append after plain advance
append-plain no_data x fl fp buf pos r h g = absurd cc
append-plain receive_length_high_byte x fl fp buf pos r h g = rw (h, g)
append-plain receive_length_low_byte x fl fp buf pos r h g = rw (h, g)
append-plain receive_frame_data x fl fp buf pos r h g = rw (h, g)
append-plain frame_complete x fl fp buf pos r h g = absurd cc

abbrev escaped_parser : StreamState → ℕ → ℕ → List ℕ → ℕ → StreamParser
escaped_parser s fl fp buf pos = record (parser s fl fp buf pos) { is_escaped = true }

append-marker :
    (s : StreamState) (x fl fp : ℕ) (buf : List ℕ) (pos : ℕ)
    → is_receiving s ≡ true
    → x ≡ 0xfc ⊎ x ≡ 0xfd
    → append (bit_and x 0x7f) (escaped_parser s fl fp buf pos)
      ≡ (let (s', fl', fp') = after s x fl fp in store_byte x (parser s' fl' fp' buf pos))
unfolding append after plain advance
append-marker no_data x fl fp buf pos r h = absurd cc
append-marker receive_length_high_byte x fl fp buf pos r (inl h) = rw h
append-marker receive_length_high_byte x fl fp buf pos r (inr h) = rw h
append-marker receive_length_low_byte x fl fp buf pos r (inl h) = rw h
append-marker receive_length_low_byte x fl fp buf pos r (inr h) = rw h
append-marker receive_frame_data x fl fp buf pos r (inl h) = rw h
append-marker receive_frame_data x fl fp buf pos r (inr h) = rw h
append-marker frame_complete x fl fp buf pos r h = absurd cc

append-escape :
    (s : StreamState) (fl fp : ℕ) (buf : List ℕ) (pos : ℕ)
    → append 0xfc (parser s fl fp buf pos) ≡ some (escaped_parser s fl fp buf pos, [])
unfolding append
append-escape s fl fp buf pos = refl

-- The byte `x` of a frame arrives, escaped or not.
pub append_all-byte :
    (s : StreamState) (x fl fp : ℕ) (buf : List ℕ) (pos : ℕ) (rest : List ℕ)
    → is_receiving s ≡ true
    → append_all (escape_bytes (x ∷ rest)) (parser s fl fp buf pos)
      ≡ taken (after s x fl fp) x buf pos (escape_bytes rest)
unfolding escape_bytes taken
append_all-byte s x fl fp buf pos rest r = elim (Bool-cases (x == 0xfc || x == 0xfd)) [
  | inl e ↦ rw e (
      append_all-onward 0xfc (bit_and x 0x7f ∷ escape_bytes rest) (parser s fl fp buf pos)
      ∙ ap (onward (bit_and x 0x7f ∷ escape_bytes rest)) (append-escape s fl fp buf pos)
      ∙ collect-nil _
      ∙ append_all-onward (bit_and x 0x7f) (escape_bytes rest) (escaped_parser s fl fp buf pos)
      ∙ ap (onward (escape_bytes rest)) (append-marker s x fl fp buf pos r (is_marker x e)))
  | inr e ↦ rw e (
      append_all-onward x (escape_bytes rest) (parser s fl fp buf pos)
      ∙ ap (onward (escape_bytes rest))
          (append-plain s x fl fp buf pos r (not_start x e) (not_escape x e)))
]
  where
    is_marker : (x : ℕ) → (x == 0xfc || x == 0xfd) ≡ true → x ≡ 0xfc ⊎ x ≡ 0xfd
    is_marker x h = ground arith

    not_start : (x : ℕ) → (x == 0xfc || x == 0xfd) ≡ false → (x == 0xfd) ≡ false
    not_start x h = ground arith

    not_escape : (x : ℕ) → (x == 0xfc || x == 0xfd) ≡ false → (x == 0xfc) ≡ false
    not_escape x h = ground arith
