-- ===== src/Detect/Frame/Escaped.antt =====
-- What the escaping loop of HMFrame::encode in detect_radio_module/hmframe.cpp makes of a frame.
use pi_vccu.Prelude.{
  ℕ, suc, ◌+◌, ◌≤◌, ◌≡◌, refl, ap, ◌∙◌, bit_and, List, [], ◌∷◌, Option, some, Bool, true, false,
  ltb, leb, ◌==◌, ◌||◌, le→leb, ge→ltb, if◌then◌else◌, length, arith,
}
use mathlib.Core.Option
use pi_vccu.Detect.Frame.{HmFrame, plain_bytes, escaped_byte, escape_loop, escape_from, encode}
use pi_vccu.Detect.Frame.Same.{IsHmFrame, length-plain_bytes}

-- The bytes with a marker before each one that needs it, in a buffer without an end.
unfoldable pub escape_bytes : List ℕ → List ℕ
escape_bytes [] = []
escape_bytes (x ∷ rest) =
    let rest' = escape_bytes rest in
    if x == 0xfc || x == 0xfd then 0xfc ∷ bit_and x 0x7f ∷ rest' else x ∷ rest'

-- The first byte of a frame is none of them.
unfoldable pub escape_frame : List ℕ → List ℕ
escape_frame [] = []
escape_frame (x ∷ rest) = x ∷ escape_bytes rest

longer :
    (special : Bool) (x : ℕ) (xs out : List ℕ)
    → length xs ≤ length out
    → suc (length xs) ≤ length (if special then 0xfc ∷ bit_and x 0x7f ∷ out else x ∷ out)
longer true x xs out h = omega (arith, h)
longer false x xs out h = omega (arith, h)

pub length-escape_bytes : (xs : List ℕ) → length xs ≤ length (escape_bytes xs)
unfolding escape_bytes
length-escape_bytes [] = omega arith
length-escape_bytes (x ∷ xs) =
    longer (x == 0xfc || x == 0xfd) x xs (escape_bytes xs) (length-escape_bytes xs)

loop_step :
    (special : Bool) (len res x : ℕ) (rest out : List ℕ) (o : Option (List ℕ))
    → o ≡ some out
    → res + length (if special then 0xfc ∷ bit_and x 0x7f ∷ out else x ∷ out)
      ≤ len + suc (length rest)
    → length rest ≤ length out
    → escaped_byte special (leb (res + 1) len) x o
      ≡ some (if special then 0xfc ∷ bit_and x 0x7f ∷ out else x ∷ out)
unfolding escaped_byte
loop_step true len res x rest out o e h g =
    let fits : leb (res + 1) len ≡ true = le→leb (res + 1) len (omega (arith, h, g)) in
    ap (escaped_byte true (leb (res + 1) len) x) e ∙ ap (λ b. escaped_byte true b x (some out)) fits
loop_step false len res x rest out o e h g = ap (escaped_byte false (leb (res + 1) len) x) e

next_room :
    (special : Bool) (len res x : ℕ) (rest out : List ℕ)
    → res + length (if special then 0xfc ∷ bit_and x 0x7f ∷ out else x ∷ out)
      ≤ len + suc (length rest)
    → (if special then res + 1 else res) + length out ≤ len + length rest
next_room true len res x rest out h = omega (arith, h)
next_room false len res x rest out h = omega (arith, h)

escape_loop-escape_bytes :
    (len res : ℕ) (xs : List ℕ)
    → res + length (escape_bytes xs) ≤ len + length xs
    → escape_loop len res xs ≡ some (escape_bytes xs)
unfolding escape_loop escape_bytes
escape_loop-escape_bytes len res [] h = refl
escape_loop-escape_bytes len res (x ∷ rest) h =
    let special = x == 0xfc || x == 0xfd in
    let out = escape_bytes rest in
    loop_step special len res x rest out _
      (escape_loop-escape_bytes len (if special then res + 1 else res) rest
        (next_room special len res x rest out h))
      h (length-escape_bytes rest)

escape_from-escape_frame :
    (len : ℕ) (xs : List ℕ)
    → length (escape_frame xs) ≤ len
    → escape_from len xs ≡ some (escape_frame xs)
unfolding escape_from escape_frame
escape_from-escape_frame len [] h = refl
escape_from-escape_frame len (x ∷ rest) h =
    ap (Option.map (λ rest'. x ∷ rest'))
      (escape_loop-escape_bytes len (length (x ∷ rest)) rest (omega (arith, h)))

length-escape_frame : (xs : List ℕ) → length xs ≤ length (escape_frame xs)
unfolding escape_frame
length-escape_frame [] = omega arith
length-escape_frame (x ∷ xs) = omega (arith, length-escape_bytes xs)

-- A frame whose escaped form fits the buffer is encoded, and nothing goes past the buffer.
pub encode-escape_frame :
    (f : HmFrame) (len : ℕ)
    → IsHmFrame f
    → length (escape_frame (plain_bytes f)) ≤ len
    → encode f len true ≡ some (escape_frame (plain_bytes f))
unfolding encode
encode-escape_frame f len w h =
    let plain = length-plain_bytes f w in
    let enough : ltb len (f.data_len + 8) ≡ false =
      ge→ltb len (f.data_len + 8) (omega (arith, h, plain, length-escape_frame (plain_bytes f))) in
    rw enough (escape_from-escape_frame len (plain_bytes f) h)
