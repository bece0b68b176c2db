-- ===== src/Detect/Stream/Overrun.antt =====
-- The array of detect_radio_module/streamparser.cpp: which bytes can be stored past its end.
use pi_vccu.Prelude.{
  ℕ, zero, suc, ◌+◌, ◌%◌, ◌^◌, ◌<◌, ◌≤◌, ◌≡◌, refl, ap, ◌∙◌, ◌⊎◌, inl, inr, List, [], ◌∷◌, ◌++◌,
  Option, none, some, Bool, true, false, ltb, ◌==◌, if◌then◌else◌, set, take, replicate, on_test,
  Bool-cases, arith,
}
use pi_vccu.Detect.Stream.{
  StreamState, no_data, receive_length_high_byte, receive_length_low_byte, receive_frame_data,
  frame_complete, StreamParser, advance, Appended, completed, store_byte, plain, append, collect,
  append_all,
}
use pi_vccu.Detect.Stream.Bytes.{onward, append_all-onward}

-- Between two bytes the position is inside the array, unless no frame has begun.
pub record IsInside (p : StreamParser) : Type 0 where
  pub decodes : p.decode_escaped ≡ true
  pub inside : p.state ≡ no_data ⊎ p.buffer_pos < 2048

-- The byte is stored in the array, and the next one can be.
pub record Stays (o : Option Appended) : Type 0 where
  pub left : Appended
  pub result : o ≡ some left
  pub kept : IsInside left.0

completed-IsInside :
    (s : StreamState) (p : StreamParser)
    → p.decode_escaped ≡ true
    → s ≡ frame_complete ⊎ p.buffer_pos < 2048
    → IsInside (completed s p).0
unfolding completed
completed-IsInside frame_complete p d h = record { decodes = d; inside = inl refl }
completed-IsInside no_data p d (inl h) = absurd cc
completed-IsInside no_data p d (inr h) = record { decodes = d; inside = inr h }
completed-IsInside receive_length_high_byte p d (inl h) = absurd cc
completed-IsInside receive_length_high_byte p d (inr h) = record { decodes = d; inside = inr h }
completed-IsInside receive_length_low_byte p d (inl h) = absurd cc
completed-IsInside receive_length_low_byte p d (inr h) = record { decodes = d; inside = inr h }
completed-IsInside receive_frame_data p d (inl h) = absurd cc
completed-IsInside receive_frame_data p d (inr h) = record { decodes = d; inside = inr h }

store_byte-Stays :
    (chr : ℕ) (p : StreamParser)
    → p.decode_escaped ≡ true
    → p.buffer_pos < 2048
    → Stays (store_byte chr p)
unfolding store_byte
store_byte-Stays chr p d h =
    let pos = (p.buffer_pos + 1) % 2 ^ 16 in
    on_test Stays (ltb p.buffer_pos 2048) _ _
      (λ e. record {
        left = _;
        result = refl;
        kept =
            completed-IsInside _ _ d
              (full pos (p.buffer_pos + 1) p.state (omega arith) (omega arith));
      })
      (λ e. absurd (ground arith))
  where
    full :
        (pos next : ℕ) (s : StreamState)
        → pos ≡ next
        → next ≤ 2048
        → (if pos == 2048 then frame_complete else s) ≡ frame_complete ⊎ pos < 2048
    full pos next s e h = elim (Bool-cases (pos == 2048)) [
      | inl f ↦ inl (rw f)
      | inr f ↦ inr (ground arith)
    ]

plain-Stays :
    (s : StreamState) (chr : ℕ) (p : StreamParser)
    → IsInside p
    → s ≡ no_data ⊎ p.buffer_pos < 2048
    → Stays (plain chr p (advance s chr p))
unfolding plain advance
plain-Stays no_data chr p v h = record { left = (p, []); result = refl; kept = v }
plain-Stays frame_complete chr p v h = record { left = (p, []); result = refl; kept = v }
plain-Stays receive_length_high_byte chr p v (inl h) = absurd cc
plain-Stays receive_length_high_byte chr p v (inr h) = store_byte-Stays chr _ v.decodes h
plain-Stays receive_length_low_byte chr p v (inl h) = absurd cc
plain-Stays receive_length_low_byte chr p v (inr h) = store_byte-Stays chr _ v.decodes h
plain-Stays receive_frame_data chr p v (inl h) = absurd cc
plain-Stays receive_frame_data chr p v (inr h) = store_byte-Stays chr _ v.decodes h

append-Stays : (chr : ℕ) (p : StreamParser) → IsInside p → Stays (append chr p)
unfolding append
append-Stays chr p v =
    on_test Stays (chr == 0xfd) _ _ (λ e. store_byte-Stays chr _ v.decodes (omega arith))
      (λ e.
        on_test Stays (chr == 0xfc) _ _
          (λ f.
            on_test Stays p.decode_escaped _ _
              (λ d. record {
                left = _;
                result = refl;
                kept = record { decodes = v.decodes; inside = v.inside };
              })
              (λ d. absurd (cc (v.decodes))))
          (λ f. plain-Stays p.state _ p v v.inside))

-- A parser that decodes never stores past the end of its array, whatever bytes arrive.
pub append_all-Stays : (line : List ℕ) (p : StreamParser) → IsInside p → Stays (append_all line p)
unfolding append_all collect
append_all-Stays [] p v = record { left = (p, []); result = refl; kept = v }
append_all-Stays (chr ∷ line) p v =
    let one = append-Stays chr p v in
    let rest = append_all-Stays line one.left.0 one.kept in
    record {
      left = (rest.left.0, one.left.1 ++ rest.left.1);
      result =
          append_all-onward chr line p
          ∙ ap (onward line) one.result
          ∙ ap (collect one.left.1) rest.result;
      kept = rest.kept;
    }

-- A parser that does not decode.
abbrev pub raw_parser : ℕ → ℕ → Bool → List ℕ → ℕ → StreamParser
raw_parser fl fp escaped buf pos = record {
  buffer = buf;
  buffer_pos = pos;
  frame_pos = fp;
  frame_length = fl;
  state = no_data;
  is_escaped = escaped;
  decode_escaped = false;
}

append-raw_escape :
    (fl fp : ℕ) (escaped : Bool) (buf : List ℕ) (pos : ℕ)
    → pos < 2048
    → (frames : List (List ℕ)) × (append 0xfc (raw_parser fl fp escaped buf pos)
        ≡ some (raw_parser fl fp true (set buf pos 0xfc) (pos + 1), frames))
unfolding append store_byte completed
append-raw_escape fl fp escaped buf pos h =
    let small : (pos + 1) % 2 ^ 16 ≡ pos + 1 = omega arith in
    let inside : ltb pos 2048 ≡ true = ground arith in
    elim (Bool-cases (pos + 1 == 2048)) [
      | inl e ↦ (take (pos + 1) (set buf pos 0xfc) ∷ [], rw (small, inside, e))
      | inr e ↦ ([], rw (small, inside, e))
    ]

append-full :
    (fl fp : ℕ) (escaped : Bool) (buf : List ℕ) (pos : ℕ)
    → pos ≡ 2048
    → append 0xfc (raw_parser fl fp escaped buf pos) ≡ none
unfolding append store_byte
append-full fl fp escaped buf pos h = let past : ltb pos 2048 ≡ false = ground arith in rw past

-- A parser that does not decode stores escape characters while no frame has begun, and does not go
-- back to the front of its array: a line of escape characters alone, one more than fit from its
-- position on, makes it store past the end.
pub append_all-overrun :
    (n fl fp : ℕ) (escaped : Bool) (buf : List ℕ) (pos : ℕ)
    → pos + n ≡ 2048
    → append_all (replicate (suc n) 0xfc) (raw_parser fl fp escaped buf pos) ≡ none
unfolding collect
append_all-overrun zero fl fp escaped buf pos h =
    append_all-onward 0xfc [] (raw_parser fl fp escaped buf pos)
    ∙ ap (onward []) (append-full fl fp escaped buf pos (omega arith))
append_all-overrun (suc n) fl fp escaped buf pos h =
    let (frames, e) = append-raw_escape fl fp escaped buf pos (omega arith) in
    append_all-onward 0xfc (replicate (suc n) 0xfc) (raw_parser fl fp escaped buf pos)
    ∙ ap (onward (replicate (suc n) 0xfc)) e
    ∙ ap (collect frames)
        (append_all-overrun n fl fp true (set buf pos 0xfc) (pos + 1) (omega arith))
