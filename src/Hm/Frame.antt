-- ===== src/Hm/Frame.antt =====
-- `struct hm_frame`, `tryParseFrame` and `encodeFrame` of kernel/hm.h.
pub mod RoundTrip
pub mod Corrupt
use pi_vccu.Prelude.{
  ℕ, ◌+◌, ◌-◌, ◌*◌, ◌/◌, ◌%◌, bit_or, List, [], ◌∷◌, Option, none, some, not, ltb, ◌==◌,
  if◌then◌else◌, length, get_or, take, drop, set,
}
use pi_vccu.Prelude.Buffers.{overwrite}
use pi_vccu.Kernel.{Ret, ok, err, Errno, emsgsize}
use pi_vccu.Hm.Crc.{hm_crc}

-- `cmd` is the memory behind the pointer, of which `cmdlen` bytes belong to the frame.
pub record HmFrame : Type 0 where
  pub dst : ℕ
  pub cnt : ℕ
  pub cmd : List ℕ
  pub cmdlen : ℕ

-- `buf[i]`; the callers' buffers hold `len` bytes at least.
abbrev pub at : List ℕ → ℕ → ℕ
at buf i = get_or buf i 0

-- `(hi << 8) | lo`.
abbrev pub be16 : ℕ → ℕ → ℕ
be16 hi lo = bit_or (hi * 256) lo

-- `tryParseFrame(buf, len, frame)`: `none` for false. `n` is `cmdlen + 2`; the sum `cmdlen + 7` is
-- taken in `int`, where `cmdlen` may be -2 or -1, so it is `n + 5`.
unfoldable pub try_parse_frame : List ℕ → ℕ → Option HmFrame
try_parse_frame buf len =
    let n = be16 (at buf 1) (at buf 2) in
    let crc = be16 (at buf (len - 2)) (at buf (len - 1)) in
    if ltb len 8
    then none
    else if not (at buf 0 == 0xfd)
    then none
    else if not (n + 5 == len)
    then none
    else if not (crc == hm_crc (take (len - 2) buf))
    then none
    else some (record { dst = at buf 3; cnt = at buf 4; cmd = drop 5 buf; cmdlen = n - 2 })

-- The stores to `buf[0]` to `buf[4]`, and the copy of the command behind them.
pub encode_body : List ℕ → HmFrame → List ℕ
encode_body buf f =
    let n = f.cmdlen + 2 in
    let head = set (set (set buf 0 0xfd) 1 (n / 256 % 256)) 2 (n % 256) in
    overwrite (set (set head 3 f.dst) 4 f.cnt) 5 (take f.cmdlen f.cmd)

-- `encodeFrame(buf, len, frame)`: what it returns, and the buffer that it leaves.
pub encode_frame : List ℕ → ℕ → HmFrame → Ret × List ℕ
unfolding encode_body
encode_frame buf len f =
    let body = encode_body buf f in
    let crc = hm_crc (take (f.cmdlen + 5) body) in
    let sealed = set (set body (f.cmdlen + 5) (crc / 256 % 256)) (f.cmdlen + 6) (crc % 256) in
    if ltb len (f.cmdlen + 7) then (err emsgsize, buf) else (ok (f.cmdlen + 7), sealed)
