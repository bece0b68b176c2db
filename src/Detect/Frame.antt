-- ===== src/Detect/Frame.antt =====
-- The frames of detect_radio_module/hmframe.cpp, the second implementation of the protocol of
-- kernel/hm.h: HMFrame::crc, HMFrame::TryParse and HMFrame::encode.
pub mod Same
pub mod Escaped
use pi_vccu.Prelude.{
  ℕ, ◌+◌, ◌-◌, ◌*◌, ◌/◌, ◌%◌, ◌^◌, bit_and, List, [], ◌∷◌, ◌++◌, Option, none, some, Bool, true,
  false, not, ltb, leb, ◌==◌, ◌||◌, if◌then◌else◌, length, take, drop,
}
use mathlib.Core.Option
use pi_vccu.Hm.Crc.{crc_from, crc_init}
use pi_vccu.Hm.Frame.{at, be16}

-- `class HMFrame`. `payload` is the memory behind its pointer `data`, of which `data_len` bytes
-- belong to the frame.
pub record HmFrame : Type 0 where
  pub counter : ℕ
  pub destination : ℕ
  pub command : ℕ
  pub payload : List ℕ
  pub data_len : ℕ

-- `HMFrame::crc`, whose two loops are those of `hm_crc`.
unfoldable pub crc : List ℕ → ℕ
unfolding crc_from
crc buffer = crc_from crc_init buffer

-- `HMFrame::TryParse(buffer, len, frame)`: `none` for false. The store to the `uint16_t` wraps; the
-- sum is taken in `int`.
unfoldable pub try_parse : List ℕ → ℕ → Option HmFrame
try_parse buffer len =
    let n = (be16 (at buffer 1) (at buffer 2) + 2 ^ 16 - 3) % 2 ^ 16 in
    let sum = be16 (at buffer (len - 2)) (at buffer (len - 1)) in
    if ltb len 8
    then none
    else if not (at buffer 0 == 0xfd)
    then none
    else if not (n + 8 == len)
    then none
    else if not (sum == crc (take (len - 2) buffer))
    then none
    else some (record {
      counter = at buffer 4;
      destination = at buffer 3;
      command = at buffer 5;
      payload = drop 6 buffer;
      data_len = n;
    })

-- The bytes that `encode` stores before it escapes them.
unfoldable pub plain_bytes : HmFrame → List ℕ
plain_bytes f =
    let n = f.data_len + 3 in
    let front =
      0xfd
      ∷ n / 256 % 256
      ∷ n % 256
      ∷ f.destination
      ∷ f.counter
      ∷ f.command
      ∷ take f.data_len f.payload in
    front ++ (crc front / 256 % 256 ∷ crc front % 256 ∷ [])

-- One round of the loop that escapes, on the byte `x`, and what the others leave. `memmove` makes
-- room for the marker; `none` is a write past the buffer.
unfoldable pub escaped_byte : Bool → Bool → ℕ → Option (List ℕ) → Option (List ℕ)
escaped_byte special fits x none = none
escaped_byte false fits x (some rest) = some (x ∷ rest)
escaped_byte true false x (some rest) = none
escaped_byte true true x (some rest) = some (0xfc ∷ bit_and x 0x7f ∷ rest)

-- The loop for the bytes from `buffer[i]` on, in a buffer of `len` bytes of which `res` are used. A
-- `uint16_t` does not wrap here, since `res` is at most `len`.
unfoldable pub escape_loop : ℕ → ℕ → List ℕ → Option (List ℕ)
unfolding escaped_byte
escape_loop len res [] = some []
escape_loop len res (x ∷ rest) =
    let special = x == 0xfc || x == 0xfd in
    let rest' = escape_loop len (if special then res + 1 else res) rest in
    escaped_byte special (leb (res + 1) len) x rest'

-- The loop starts behind the first byte.
unfoldable pub escape_from : ℕ → List ℕ → Option (List ℕ)
unfolding escape_loop
escape_from len [] = some []
escape_from len (x ∷ rest) =
    Option.map (λ rest'. x ∷ rest') (escape_loop len (length (x ∷ rest)) rest)

-- `HMFrame::encode(buffer, len, escaped)` on a buffer of `len` bytes: the bytes that it leaves at the
-- front of the buffer, whose number it returns, 0 for a buffer that is too small for the plain frame;
-- `none` is a write past the buffer.
unfoldable pub encode : HmFrame → ℕ → Bool → Option (List ℕ)
encode f len escaped =
    if ltb len (f.data_len + 8)
    then some []
    else if escaped
    then escape_from len (plain_bytes f)
    else some (plain_bytes f)
