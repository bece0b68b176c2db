-- ===== src/Hm/Escape/RoundTrip.antt =====
-- What the receiver of kernel/hm.h makes of what its sender wrote.
use mathlib.Core.Option
use pi_vccu.Prelude.{
  ℕ, suc, ◌*◌, ◌^◌, ◌<◌, ◌≤◌, bit_and, bit_or, ◌≡◌, refl, ap, ◌∙◌, List, [], ◌∷◌, ◌++◌, some, ◌≢◌,
  true, false, inl, inr, Bool-cases, ◌&&◌, ◌||◌, ◌==◌, ==_iff, length, arith,
}
use pi_vccu.Hm.Escape.{encode_frame_buffer, decode_frame_buffer}

-- One plain byte, and one escaped byte, at the head of the input.
pub decode_plain :
    (cur : ℕ) (src : List ℕ) (len : ℕ)
    → (cur == 0xfc) ≡ false
    → decode_frame_buffer (cur ∷ src) (suc len)
      ≡ Option.map (λ out. cur ∷ out) (decode_frame_buffer src len)
unfolding decode_frame_buffer
decode_plain cur [] len h = rw h
decode_plain cur (next ∷ src) len h = rw h

pub decode_escaped :
    (next : ℕ) (src : List ℕ) (len : ℕ)
    → suc len < 2 ^ 64
    → decode_frame_buffer (0xfc ∷ next ∷ src) (suc (suc len))
      ≡ Option.map (λ out. bit_or next 0x80 ∷ out) (decode_frame_buffer src len)
unfolding decode_frame_buffer
decode_escaped next src len h =
    ap (λ n. Option.map (λ out. bit_or next 0x80 ∷ out) (decode_frame_buffer src n)) (omega arith)

-- `(c & 0x7f) | 0x80` is `c` for the two bytes that are escaped.
unescape_marker :
    (c : ℕ) (src : List ℕ)
    → (c == 0xfc || (c == 0xfd && length src == 1)) ≡ true
    → bit_or (bit_and c 0x7f) 0x80 ≡ c
unescape_marker c src h = elim (Bool-cases (c == 0xfc)) [
  | inl e ↦ let f : c ≡ 0xfc = (==_iff c 0xfc).0 e in rw f
  | inr e ↦ let f : c ≡ 0xfd = ground arith in rw f
]

plain_marker :
    (c : ℕ) (src : List ℕ)
    → (c == 0xfc || (c == 0xfd && length src == 1)) ≡ false
    → (c == 0xfc) ≡ false
plain_marker c src h = ground arith

-- One byte at the head of what is encoded.
encode_escaped :
    (c : ℕ) (src : List ℕ)
    → (c == 0xfc || (c == 0xfd && length src == 1)) ≡ true
    → encode_frame_buffer (c ∷ src) ≡ 0xfc ∷ bit_and c 0x7f ∷ encode_frame_buffer src
unfolding encode_frame_buffer
encode_escaped c src h = rw h

encode_plain :
    (c : ℕ) (src : List ℕ)
    → (c == 0xfc || (c == 0xfd && length src == 1)) ≡ false
    → encode_frame_buffer (c ∷ src) ≡ c ∷ encode_frame_buffer src
unfolding encode_frame_buffer
encode_plain c src h = rw h

-- The receiver reads the `bytes` off the encoded `line`, whatever stands behind it.
abbrev Reads : List ℕ → List ℕ → List ℕ → Type 0
Reads behind line bytes =
    length line < 2 ^ 64 → decode_frame_buffer (line ++ behind) (length line) ≡ some bytes

escaped-Reads :
    (behind line src : List ℕ) (c : ℕ)
    → bit_or (bit_and c 0x7f) 0x80 ≡ c
    → Reads behind line src
    → Reads behind (0xfc ∷ bit_and c 0x7f ∷ line) (c ∷ src)
escaped-Reads behind line src c e ih h =
    decode_escaped (bit_and c 0x7f) (line ++ behind) (length line) (omega arith)
    ∙ rw (ih (omega arith), e)

plain-Reads :
    (behind line src : List ℕ) (c : ℕ)
    → (c == 0xfc) ≡ false
    → Reads behind line src
    → Reads behind (c ∷ line) (c ∷ src)
plain-Reads behind line src c e ih h =
    decode_plain c (line ++ behind) (length line) e ∙ rw (ih (omega arith))

pub decode_nothing : (src : List ℕ) → decode_frame_buffer src 0 ≡ some []
unfolding decode_frame_buffer
decode_nothing [] = refl
decode_nothing (b ∷ src) = refl

encoded-Reads : (bytes behind : List ℕ) → Reads behind (encode_frame_buffer bytes) bytes
encoded-Reads [] behind = unfold encode_frame_buffer in λ h. decode_nothing behind
encoded-Reads (c ∷ src) behind = elim (Bool-cases (c == 0xfc || (c == 0xfd && length src == 1))) [
  | inl e ↦
      rw (encode_escaped c src e)
        (escaped-Reads behind _ src c (unescape_marker c src e) (encoded-Reads src behind))
  | inr e ↦
      rw (encode_plain c src e)
        (plain-Reads behind _ src c (plain_marker c src e) (encoded-Reads src behind))
]

-- Escaping never makes the bytes fewer.
pub length-encode_frame_buffer :
    (bytes : List ℕ) → length bytes ≤ length (encode_frame_buffer bytes)
unfolding encode_frame_buffer
length-encode_frame_buffer [] = omega arith
length-encode_frame_buffer (c ∷ src) = ground (arith, length-encode_frame_buffer src)

-- It makes at most two bytes of each.
pub length-encode_frame_buffer_le :
    (bytes : List ℕ) → length (encode_frame_buffer bytes) ≤ 2 * length bytes
unfolding encode_frame_buffer
length-encode_frame_buffer_le [] = omega arith
length-encode_frame_buffer_le (c ∷ src) = ground (arith, length-encode_frame_buffer_le src)

-- Decoding what was encoded gives back the bytes, whatever follows them in the memory.
pub decode-encode :
    (bytes behind : List ℕ)
    → length (encode_frame_buffer bytes) < 2 ^ 64
    → decode_frame_buffer (encode_frame_buffer bytes ++ behind) (length (encode_frame_buffer bytes))
      ≡ some bytes
decode-encode bytes behind h = encoded-Reads bytes behind h

-- A 0xfd that is not the second byte from the end goes out as it is, though a receiver takes 0xfd
-- for the start of a frame: it stands on the line before the encoding of the bytes behind it.
pub raw_marker :
    (front back : List ℕ)
    → length back ≢ 1
    → (line : List ℕ) × (encode_frame_buffer (front ++ (0xfd ∷ back))
        ≡ line ++ (0xfd ∷ encode_frame_buffer back))
raw_marker [] back h = ([], encode_plain 0xfd back (ground arith))
raw_marker (c ∷ front) back h =
    let (line, e) = raw_marker front back h in
    elim (Bool-cases (c == 0xfc || (c == 0xfd && length (front ++ (0xfd ∷ back)) == 1))) [
      | inl t ↦ (0xfc ∷ bit_and c 0x7f ∷ line, encode_escaped c _ t ∙ rw e)
      | inr t ↦ (c ∷ line, encode_plain c _ t ∙ rw e)
    ]
