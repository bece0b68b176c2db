-- ===== src/Hm/Escape.antt =====
-- `encodeFrameBuffer` and `decodeFrameBuffer` of kernel/hm.h: the escaping of the bytes on the line.
pub mod RoundTrip
pub mod Overrun
use mathlib.Core.Option
use pi_vccu.Prelude.{
  ℕ, zero, suc, ◌+◌, ◌-◌, ◌%◌, ◌^◌, bit_and, bit_or, List, [], ◌∷◌, Option, none, some, ◌&&◌, ◌||◌,
  ◌==◌, if◌then◌else◌, length,
}

-- `encodeFrameBuffer(src, dst, len)`: the argument is the `len` bytes at `src`, the result is what
-- is stored at `dst` (the function returns its length). After `len--` the loop variable is the
-- number of bytes behind `cur`.
unfoldable pub encode_frame_buffer : List ℕ → List ℕ
encode_frame_buffer [] = []
encode_frame_buffer (cur ∷ src) =
    let rest = encode_frame_buffer src in
    if cur == 0xfc || (cur == 0xfd && length src == 1)
    then 0xfc ∷ bit_and cur 0x7f ∷ rest
    else cur ∷ rest

-- `len--` on a `size_t`.
abbrev pub dec_size : ℕ → ℕ
dec_size len = (len + 2 ^ 64 - 1) % 2 ^ 64

-- `decodeFrameBuffer(src, dst, len)`: the list is all the memory behind `src`, and `none` is a read
-- past its end. The result is what is stored at `dst` (the function returns its length).
pub decode_frame_buffer : List ℕ → ℕ → Option (List ℕ)
decode_frame_buffer [] zero = some []
decode_frame_buffer [] (suc len) = none
decode_frame_buffer (cur ∷ src) zero = some []
decode_frame_buffer (cur ∷ []) (suc len) =
    let plain = Option.map (λ out. cur ∷ out) (decode_frame_buffer [] len) in
    if cur == 0xfc then none else plain
decode_frame_buffer (cur ∷ next ∷ src) (suc len) =
    let escaped =
      Option.map (λ out. bit_or next 0x80 ∷ out) (decode_frame_buffer src (dec_size len)) in
    let plain = Option.map (λ out. cur ∷ out) (decode_frame_buffer (next ∷ src) len) in
    if cur == 0xfc then escaped else plain
