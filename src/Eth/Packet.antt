-- ===== src/Eth/Packet.antt =====
-- The packets of kernel/hb_rf_eth.c: what is sent is accepted, and what is damaged is not.
use pi_vccu.Prelude.{
  ℕ, zero, suc, ◌+◌, ◌-◌, ◌*◌, ◌/◌, ◌%◌, ◌<◌, ◌≤◌, ◌≡◌, ◌≢◌, refl, sym, ap, ◌∙◌, List, [], ◌∷◌,
  ◌++◌, true, append_assoc, length, length-append, take, drop, get_or, take-append_left, inl, inr,
  ◌⊎◌, arith,
}
use pi_vccu.Prelude.Buffers.{overwrite, overwrite_front}
use pi_vccu.Kernel.{ok, err, eproto}
use pi_vccu.Hm.Crc.{hm_crc, IsByte}
use pi_vccu.Hm.Crc.Detect.{appended_crc, one_byte_detected}
use pi_vccu.Eth.{calc_crc, be_bytes, stamp, packet, recv_packet}
use pi_vccu.Eth.Checksum.{calc_crc-hm_crc, calc_crc-IsU16}

-- A message with its counter, and with its checksum behind that.
abbrev pub body : ℕ → ℕ → List ℕ → List ℕ
body cmd cnt payload = cmd ∷ cnt % 256 ∷ payload

abbrev pub sealed : ℕ → ℕ → List ℕ → List ℕ
sealed cmd cnt payload = body cmd cnt payload ++ be_bytes (calc_crc (body cmd cnt payload))

module _ {ℓ} {A : Type ℓ} where
  overwrite-append :
      (xs ys vs : List A) (n : ℕ)
      → n ≡ length xs
      → overwrite (xs ++ ys) n vs ≡ xs ++ overwrite ys 0 vs
  overwrite-append [] ys vs zero h = refl
  overwrite-append [] ys vs (suc n) h = absurd (omega arith)
  overwrite-append (x ∷ xs) ys vs zero h = absurd (omega arith)
  overwrite-append (x ∷ xs) ys vs (suc n) h =
      ap (λ (t : List A). x ∷ t) (overwrite-append xs ys vs n (omega arith))

  get_or-append :
      (xs : List A) (ys : List A) (n i : ℕ) (d : A)
      → n ≡ length xs + i
      → get_or (xs ++ ys) n d ≡ get_or ys i d
  get_or-append [] ys n i d h = ap (λ (m : ℕ). get_or ys m d) (omega arith)
  get_or-append (x ∷ xs) ys zero i d h = absurd (omega arith)
  get_or-append (x ∷ xs) ys (suc n) i d h = get_or-append xs ys n i d (omega arith)

-- The first `len` bytes of a buffer that holds a message, after it has been stamped.
pub stamp_lem :
    (cnt cmd x len : ℕ) (payload rest : List ℕ)
    → len ≡ length payload + 4
    → 2 ≤ length rest
    → take len (stamp cnt (cmd ∷ x ∷ payload ++ rest) len) ≡ sealed cmd cnt payload
unfolding stamp
stamp_lem cnt cmd x len payload rest h g =
    let b = body cmd cnt payload in
    let inner : take (len - 2) (b ++ rest) ≡ b = take-append_left (len - 2) b rest (omega arith) in
    let crc = be_bytes (calc_crc b) in
    let placed : overwrite (b ++ rest) (len - 2) crc ≡ b ++ (crc ++ drop 2 rest) =
      overwrite-append b rest crc (len - 2) (omega arith)
      ∙ ap (λ (t : List ℕ). b ++ t) (overwrite_front rest crc 2 refl g) in
    ap (λ (t : List ℕ). take len (overwrite (b ++ rest) (len - 2) (be_bytes (calc_crc t)))) inner
    ∙ ap (take len) (placed ∙ sym (append_assoc b crc (drop 2 rest)))
    ∙ take-append_left len (b ++ crc) (drop 2 rest) (omega (arith, length-append b crc))

-- A message that has been sealed is accepted with its length.
pub recv_packet-sealed :
    (cmd cnt : ℕ) (payload : List ℕ)
    → recv_packet true (packet (sealed cmd cnt payload)) ≡ ok (length payload + 4)
unfolding recv_packet
recv_packet-sealed cmd cnt payload =
    let b = body cmd cnt payload in
    let crc = be_bytes (calc_crc b) in
    let len : length (sealed cmd cnt payload) ≡ length payload + 4 =
      omega (arith, length-append b crc) in
    let inner : take (length payload + 4 - 2) (b ++ crc) ≡ b =
      take-append_left (length payload + 4 - 2) b crc (omega arith) in
    rw
      (
        len,
        inner,
        get_or-append b crc (length payload + 4 - 2) 0 0 (omega arith),
        get_or-append b crc (length payload + 4 - 1) 1 0 (omega arith),
      )
      (ground arith)

-- A list without its last two elements, and these.
split_two :
    {A : Type 0} (n m : ℕ) (xs : List A) (d : A)
    → length xs ≡ n + 2
    → m ≡ n + 1
    → xs ≡ take n xs ++ (get_or xs n d ∷ get_or xs m d ∷ [])
split_two n m [] d h g = absurd (omega arith)
split_two n m (x ∷ []) d h g = absurd (omega arith)
split_two zero zero (x ∷ y ∷ xs) d h g = absurd (omega arith)
split_two zero (suc m) (x ∷ y ∷ z ∷ xs) d h g = absurd (omega arith)
split_two {A = A} zero (suc m) (x ∷ y ∷ []) d h g =
    let e : m ≡ 0 = omega arith in ap (λ (k : ℕ). x ∷ get_or (y ∷ []) k d ∷ []) (sym e)
split_two (suc n) zero (x ∷ y ∷ xs) d h g = absurd (omega arith)
split_two {A = A} (suc n) (suc m) (x ∷ y ∷ xs) d h g =
    ap (λ (t : List A). x ∷ t) (split_two n m (y ∷ xs) d (omega arith) (omega arith))

-- A packet that is accepted has the CRC 0 over all of its bytes.
pub accepted_crc :
    (bytes : List ℕ) (n : ℕ)
    → recv_packet true (packet bytes) ≡ ok (suc n)
    → (hm_crc bytes ≡ 0) × (3 < length bytes)
unfolding recv_packet
accepted_crc bytes n e =
    let front = take (length bytes - 2) bytes in
    let hi = get_or bytes (length bytes - 2) 0 in
    let lo = get_or bytes (length bytes - 1) 0 in
    let crc = calc_crc front in
    let width = calc_crc-IsU16 front in
    let long : 3 < length bytes = ground arith in
    let high : hi ≡ crc / 256 = ground arith in
    let low : lo ≡ crc % 256 = ground arith in
    let value : hm_crc front ≡ hi * 256 + lo = sym (calc_crc-hm_crc front) ∙ omega arith in
    let zero_crc = (appended_crc front hi lo (omega arith) (omega arith)).1 value in
    (
      ap hm_crc
            (split_two (length bytes - 2) (length bytes - 1) bytes 0 (omega arith) (omega arith))
          ∙ zero_crc,
      long,
    )

-- A packet is refused, or accepted with its length.
recv_packet-cases :
    (bytes : List ℕ)
    → (recv_packet true (packet bytes) ≡ err eproto)
      ⊎ (recv_packet true (packet bytes) ≡ ok (length bytes))
unfolding recv_packet
recv_packet-cases bytes = ground arith

-- Where a packet is accepted, the same packet with any one of its bytes changed is refused.
pub recv_packet-damaged :
    (before after : List ℕ) (b c n : ℕ)
    → IsByte b
    → IsByte c
    → b ≢ c
    → recv_packet true (packet (before ++ (b ∷ after))) ≡ ok (suc n)
    → recv_packet true (packet (before ++ (c ∷ after))) ≡ err eproto
recv_packet-damaged before after b c n hb hc ne e =
    elim (recv_packet-cases (before ++ (c ∷ after))) [
      | inl refused ↦ refused
      | inr accepted ↦
          let len : length (before ++ (c ∷ after)) ≡ suc (length before + length after) =
            omega (arith, length-append before (c ∷ after)) in
          let first = (accepted_crc (before ++ (b ∷ after)) n e).0 in
          let second =
            (accepted_crc (before ++ (c ∷ after)) (length before + length after)
              (accepted ∙ ap ok len)).0 in
          absurd (ne (one_byte_detected before after b c hb hc (first ∙ sym second)))
    ]
