-- ===== src/Hm/Frame/RoundTrip.antt =====
-- `encodeFrame` against the layout of a frame, and `tryParseFrame` on what it wrote.
use pi_vccu.Prelude.{
  ℕ, zero, suc, ◌+◌, ◌-◌, ◌/◌, ◌%◌, ◌≤◌, ◌<◌, ◌≡◌, refl, ap, sym, ◌∙◌, List, [], ◌∷◌, ◌++◌, some,
  length, take, drop, set, length-take, length-append, take-append_left, arith, append_assoc, ltb,
  ◌==◌, ==-refl, true, false, if◌then◌else◌, Bool-cases, inl, inr,
}
use pi_vccu.Prelude.Buffers.{overwrite, overwrite_front, drop_two, set-append_two}
use pi_vccu.Prelude.Bits.{bit_or-shift}
use pi_vccu.Kernel.{ok, err, emsgsize}
use pi_vccu.Hm.Crc.{IsByte, hm_crc}
use pi_vccu.Hm.Crc.Detect.{hm_crc-IsU16}
use pi_vccu.Hm.Frame.{HmFrame, at, be16, try_parse_frame, encode_body, encode_frame}

-- The layout of a frame on the line: marker, length, destination, counter, command, CRC.
abbrev pub sealed_part : HmFrame → List ℕ
sealed_part f =
    0xfd ∷ (f.cmdlen + 2) / 256 % 256 ∷ (f.cmdlen + 2) % 256 ∷ f.dst ∷ f.cnt ∷ take f.cmdlen f.cmd

abbrev pub wire : HmFrame → List ℕ
wire f = let crc = hm_crc (sealed_part f) in sealed_part f ++ (crc / 256 % 256 ∷ crc % 256 ∷ [])

encode_body-eq_overwrite :
    (buf : List ℕ) (f : HmFrame) (m : ℕ)
    → m ≡ f.cmdlen + 2
    → f.cmdlen ≤ length f.cmd
    → m + 5 ≤ length buf
    → (x : ℕ) × (y : ℕ) × (encode_body buf f ≡ sealed_part f ++ (x ∷ y ∷ drop (m + 5) buf))
unfolding encode_body
encode_body-eq_overwrite (b0 ∷ b1 ∷ b2 ∷ b3 ∷ b4 ∷ tail) f m hm hc hb =
    let n = f.cmdlen in
    let vs = take n f.cmd in
    let here : n ≡ length vs = omega (arith, length-take n f.cmd) in
    let (x, y, e) = drop_two tail n m hm (omega arith) in
    let five : m + 5 ≡ suc (suc (suc (suc (suc m)))) = omega arith in
    let filled : overwrite tail 0 vs ≡ vs ++ (x ∷ y ∷ drop m tail) =
      overwrite_front tail vs n here (omega arith) ∙ ap (λ t. vs ++ t) e in
    (x, y, rw (five, filled))
encode_body-eq_overwrite buf f m hm hc hb = absurd (omega arith)

length-sealed_part : (f : HmFrame) → f.cmdlen ≤ length f.cmd → length (sealed_part f) ≡ f.cmdlen + 5
length-sealed_part f h = omega (arith, length-take f.cmdlen f.cmd)

pub length-wire : (f : HmFrame) → f.cmdlen ≤ length f.cmd → length (wire f) ≡ f.cmdlen + 7
length-wire f h =
    let crc = hm_crc (sealed_part f) in
    omega (
      arith,
      length-append (sealed_part f) (crc / 256 % 256 ∷ crc % 256 ∷ []),
      length-sealed_part f h,
    )

-- The two stores of the CRC complete the layout.
seal_body :
    (buf : List ℕ) (f : HmFrame)
    → f.cmdlen ≤ length f.cmd
    → f.cmdlen + 7 ≤ length buf
    → let body = encode_body buf f in
      let crc = hm_crc (take (f.cmdlen + 5) body) in
      set (set body (f.cmdlen + 5) (crc / 256 % 256)) (f.cmdlen + 6) (crc % 256)
      ≡ wire f ++ drop (f.cmdlen + 7) buf
seal_body buf f hc hl =
    let n = f.cmdlen in
    let h = sealed_part f in
    let five : n + 5 ≡ length h = omega (arith, length-sealed_part f hc) in
    let (x, y, e) = encode_body-eq_overwrite buf f (n + 2) refl hc (omega arith) in
    let seven : n + 2 + 5 ≡ n + 7 = omega arith in
    rw (e, seven, take-append_left (n + 5) h (x ∷ y ∷ drop (n + 7) buf) five)
      (set-append_two h (drop (n + 7) buf) x y (hm_crc h / 256 % 256) (hm_crc h % 256) (n + 5)
          (n + 6) five (omega arith)
        ∙ sym (append_assoc h (hm_crc h / 256 % 256 ∷ hm_crc h % 256 ∷ []) (drop (n + 7) buf)))

-- `encodeFrame` refuses a buffer that is too small and leaves it alone. Otherwise it returns the
-- length of the frame, and writes the layout of the frame to the front of the buffer, and no more.
pub encode_frame_lem :
    (buf : List ℕ) (len : ℕ) (f : HmFrame)
    → f.cmdlen ≤ length f.cmd
    → len ≤ length buf
    → encode_frame buf len f ≡ (
        if ltb len (f.cmdlen + 7)
        then (err emsgsize, buf)
        else (ok (f.cmdlen + 7), wire f ++ drop (f.cmdlen + 7) buf))
encode_frame_lem buf len f hc hl = elim (Bool-cases (ltb len (f.cmdlen + 7))) [
  | inl e ↦ unfold encode_frame in rw e
  | inr e ↦
      unfold encode_frame in
      rw e (ap (λ t. (ok (f.cmdlen + 7), t)) (seal_body buf f hc (ground arith)))
]

-- What `tryParseFrame` needs of the memory: the bytes of the last two places, and the rest.
two_last :
    (front behind : List ℕ) (x y n : ℕ)
    → n ≡ length front
    → (at ((front ++ (x ∷ y ∷ [])) ++ behind) n ≡ x)
      × (at ((front ++ (x ∷ y ∷ [])) ++ behind) (suc n) ≡ y)
      × (take n ((front ++ (x ∷ y ∷ [])) ++ behind) ≡ front)
two_last [] behind x y zero h = (refl, refl, refl)
two_last [] behind x y (suc n) h = absurd (omega arith)
two_last (z ∷ front) behind x y zero h = absurd (omega arith)
two_last (z ∷ front) behind x y (suc n) h =
    let (e, f, g) = two_last front behind x y n (omega arith) in (e, f, ap (λ t. z ∷ t) g)

-- A frame whose fields fit the line format.
pub record IsFrame (f : HmFrame) : Type 0 where
  pub dst_byte : IsByte f.dst
  pub cnt_byte : IsByte f.cnt
  pub not_empty : 0 < f.cmdlen
  pub fits : f.cmdlen + 2 < 65536
  pub behind_cmd : f.cmdlen ≤ length f.cmd

pub be16_split : (x : ℕ) → x < 65536 → be16 (x / 256 % 256) (x % 256) ≡ x
be16_split x h = omega (arith, bit_or-shift 8 (x / 256 % 256) (x % 256) (omega arith))

-- `tryParseFrame` reads the frame back from its layout, whatever stands behind it in the memory:
-- the same destination, counter and length, and a pointer to the same command bytes.
pub parse-wire :
    (f : HmFrame) (behind : List ℕ)
    → IsFrame f
    → try_parse_frame (wire f ++ behind) (f.cmdlen + 7)
      ≡ some
          (record { dst = f.dst; cnt = f.cnt; cmd = drop 5 (wire f ++ behind); cmdlen = f.cmdlen })
unfolding try_parse_frame
parse-wire f behind v =
    let n = f.cmdlen in
    let h = sealed_part f in
    let c = hm_crc h in
    let (hi, lo, front) =
      two_last h behind (c / 256 % 256) (c % 256) (n + 5)
        (omega (arith, length-sealed_part f v.behind_cmd)) in
    let e1 : n + 7 - 2 ≡ n + 5 = omega arith in
    let e2 : n + 7 - 1 ≡ suc (n + 5) = omega arith in
    let e3 : be16 (c / 256 % 256) (c % 256) ≡ c = be16_split c (hm_crc-IsU16 h) in
    let e4 : be16 ((n + 2) / 256 % 256) ((n + 2) % 256) ≡ n + 2 = be16_split (n + 2) v.fits in
    let e5 : ltb (n + 7) 8 ≡ false = ground arith in
    let e6 : (n + 2 + 5 == n + 7) ≡ true = ground arith in
    let e7 : n + 2 - 2 ≡ n = omega arith in
    rw (e1, e2, hi, lo, front, e3, e4, e5, e6, ==-refl c, e7)
