-- ===== src/Hm/Frame/Corrupt.antt =====
-- What `tryParseFrame` of kernel/hm.h checks, and damaged frames.
use pi_vccu.Prelude.{
  ℕ, zero, suc, ◌+◌, ◌-◌, ◌*◌, ◌≤◌, ◌<◌, ◌≡◌, refl, ap, sym, ◌∙◌, List, [], ◌∷◌, ◌++◌, none, some,
  length, take, drop, set, All, arith, inl, inr, Option-cases, ◌≢◌, length-set,
}
use pi_vccu.Prelude.Bits.{bit_or-shift}
use pi_vccu.Hm.Crc.{IsByte, hm_crc}
use pi_vccu.Hm.Crc.Detect.{one_byte_detected, appended_crc}
use pi_vccu.Hm.Frame.{HmFrame, at, be16, try_parse_frame}

-- What a successful parse has checked.
pub record Accepted (buf : List ℕ) (len : ℕ) (f : HmFrame) : Type 0 where
  pub marker : at buf 0 ≡ 0xfd
  pub long_enough : 8 ≤ len
  pub length_field : be16 (at buf 1) (at buf 2) ≡ f.cmdlen + 2
  pub whole : len ≡ f.cmdlen + 7
  pub checksum : be16 (at buf (len - 2)) (at buf (len - 1)) ≡ hm_crc (take (len - 2) buf)
  pub dst_read : f.dst ≡ at buf 3
  pub cnt_read : f.cnt ≡ at buf 4
  pub cmd_read : f.cmd ≡ drop 5 buf

-- A frame that is accepted starts with the marker, its length field gives its length, it has a
-- command of one byte at least, its last two bytes are its CRC, and its fields are read from it.
pub parse-Accepted :
    (buf : List ℕ) (len : ℕ) (f : HmFrame) → try_parse_frame buf len ≡ some f → Accepted buf len f
unfolding try_parse_frame
parse-Accepted buf len f e = ground arith

pub IsByte-at : (buf : List ℕ) (i : ℕ) → All IsByte buf → IsByte (at buf i)
IsByte-at [] i h = omega arith
IsByte-at (b ∷ buf) zero h = h.0
IsByte-at (b ∷ buf) (suc i) h = IsByte-at buf i h.1

All-set : (buf : List ℕ) (i c : ℕ) → IsByte c → All IsByte buf → All IsByte (set buf i c)
All-set [] i c hc h = tt
All-set (b ∷ buf) zero c hc h = (hc, h.1)
All-set (b ∷ buf) (suc i) c hc h = (h.0, All-set buf i c hc h.1)

take_two :
    (buf : List ℕ) (n m : ℕ)
    → m ≡ n + 2
    → m ≤ length buf
    → take m buf ≡ take n buf ++ (at buf n ∷ at buf (suc n) ∷ [])
take_two [] n m hm h = absurd (omega arith)
take_two (b ∷ []) n m hm h = absurd (omega arith)
take_two (b ∷ c ∷ buf) zero m hm h = let e : m ≡ 2 = omega arith in rw e
take_two (b ∷ c ∷ buf) (suc n) zero hm h = absurd (omega arith)
take_two (b ∷ c ∷ buf) (suc n) (suc m) hm h =
    ap (λ t. b ∷ t) (take_two (c ∷ buf) n m (omega arith) (omega arith))

-- The bytes before and behind place `i` of the first `n`, which a store at `i` leaves alone.
take-set :
    (buf : List ℕ) (n i c : ℕ)
    → i < n
    → n ≤ length buf
    → (before : List ℕ) × (after : List ℕ) × (take n buf ≡ before ++ (at buf i ∷ after))
      × (take n (set buf i c) ≡ before ++ (c ∷ after))
take-set [] n i c h g = absurd (omega arith)
take-set (b ∷ buf) zero i c h g = absurd (omega arith)
take-set (b ∷ buf) (suc n) zero c h g = ([], take n buf, refl, refl)
take-set (b ∷ buf) (suc n) (suc i) c h g =
    let (before, after, e, f) = take-set buf n i c (omega arith) (omega arith) in
    (b ∷ before, after, ap (λ t. b ∷ t) e, ap (λ t. b ∷ t) f)

-- The CRC over a whole accepted frame, its own CRC included, is 0.
residue :
    (buf : List ℕ) (len : ℕ) (f : HmFrame)
    → All IsByte buf
    → len ≤ length buf
    → Accepted buf len f
    → hm_crc (take len buf) ≡ 0
residue buf len f hb hl a =
    let n = len - 2 in
    let next : len - 1 ≡ suc n = omega (arith, a.long_enough) in
    let hi = at buf n in
    let lo = at buf (suc n) in
    let sum : hm_crc (take n buf) ≡ hi * 256 + lo =
      sym a.checksum ∙ rw next (bit_or-shift 8 hi lo (IsByte-at buf (suc n) hb)) in
    rw (take_two buf n len (omega (arith, a.long_enough)) hl)
      ((appended_crc (take n buf) hi lo (IsByte-at buf n hb) (IsByte-at buf (suc n) hb)).1 sum)

-- If any one byte of an accepted frame is changed, the frame is rejected.
pub changed_byte_rejected :
    (buf : List ℕ) (len i c : ℕ) (f : HmFrame)
    → All IsByte buf
    → len ≤ length buf
    → IsByte c
    → i < len
    → c ≢ at buf i
    → try_parse_frame buf len ≡ some f
    → try_parse_frame (set buf i c) len ≡ none
changed_byte_rejected buf len i c f hb hl hc hi ne e =
    elim (Option-cases (try_parse_frame (set buf i c) len)) [
      | inl rejected ↦ rejected
      | inr (g, accepted) ↦
          let (before, after, p, q) = take-set buf len i c hi hl in
          let zero_before = residue buf len f hb hl (parse-Accepted buf len f e) in
          let zero_after =
            residue (set buf i c) len g (All-set buf i c hc hb) (rw length-set hl)
              (parse-Accepted (set buf i c) len g accepted) in
          absurd (
            ne (
              sym (
                one_byte_detected before after (at buf i) c (IsByte-at buf i hb) hc
                  (ap hm_crc (sym p) ∙ zero_before ∙ sym zero_after ∙ ap hm_crc q))))
    ]
