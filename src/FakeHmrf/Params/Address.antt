-- ===== src/FakeHmrf/Params/Address.antt =====
-- Setting the radio address of kernel/fake_hmrf.c, and reading it back.
use pi_vccu.Prelude.{
  ℕ, zero, suc, ◌*◌, ◌/◌, ◌%◌, ◌<◌, ◌≡◌, ◌⊎◌, inl, inr, Bool, true, false, refl, sym, ap, ◌∙◌, List,
  [], ◌∷◌, Option, none, some, length, All, arith, if◌then◌else◌, bit_or,
}
use pi_vccu.Prelude.Bits.{bit_or-shift}
use pi_vccu.Prelude.Buffers.{slice, length-slice, slice-overwrite_self}
use pi_vccu.Kernel.{Ret, ok, err, einval}
use pi_vccu.Hm.Crc.{IsByte}
use pi_vccu.Hm.Frame.{at}
use pi_vccu.Hm.Frame.Corrupt.{IsByte-at}
use pi_vccu.FakeHmrf.{Fake}
use pi_vccu.FakeHmrf.Params.{
  hex_digit, get_radio_mac, parse_hex_char, mac_byte, parse_mac, store_mac, set_radio_mac,
}

parse_hex_char-hex_digit : (n : ℕ) → n < 16 → parse_hex_char (hex_digit n) ≡ some n
unfolding parse_hex_char
parse_hex_char-hex_digit n h = ground arith

-- One byte, printed and parsed.
parse_mac-digits :
    (b i : ℕ) (val rest : List ℕ)
    → IsByte b
    → parse_mac i val ≡ some rest
    → parse_mac (suc i) (hex_digit (b / 16) ∷ hex_digit (b % 16) ∷ val) ≡ some (b ∷ rest)
unfolding parse_mac mac_byte
parse_mac-digits b i val rest h e =
    let whole : bit_or (b / 16 * 16 % 256) (b % 16) ≡ b =
      let small : b / 16 * 16 % 256 ≡ b / 16 * 16 = omega arith in
      rw small (bit_or-shift 4 (b / 16) (b % 16) (omega arith) ∙ omega arith) in
    rw (
      parse_hex_char-hex_digit (b / 16) (omega arith),
      parse_hex_char-hex_digit (b % 16) (omega arith),
      e,
      whole,
    )

-- The printed address, as a string that the setter takes, gives the three bytes.
parse_mac-printed :
    (a b c : ℕ)
    → IsByte a
    → IsByte b
    → IsByte c
    → parse_mac 3 (
        hex_digit (a / 16)
        ∷ hex_digit (a % 16)
        ∷ hex_digit (b / 16)
        ∷ hex_digit (b % 16)
        ∷ hex_digit (c / 16)
        ∷ hex_digit (c % 16)
        ∷ [])
      ≡ some (a ∷ b ∷ c ∷ [])
parse_mac-printed a b c h k l =
    parse_mac-digits a 2 _ (b ∷ c ∷ []) h
      (parse_mac-digits b 1 _ (c ∷ []) k (parse_mac-digits c 0 [] [] l (unfold parse_mac in refl)))

-- The three bytes of the address in the two answers that hold it.
abbrev pub radio_mac : Fake → List ℕ
radio_mac s = slice s.llmac_get_default_rf_address_response 2 3

abbrev pub hmip_radio_mac : Fake → List ℕ
hmip_radio_mac s = slice s.hmip_get_default_rf_address_response 2 3

slice_five : (xs : List ℕ) → length xs ≡ 5 → slice xs 2 3 ≡ at xs 2 ∷ at xs 3 ∷ at xs 4 ∷ []
slice_five (x0 ∷ x1 ∷ x2 ∷ x3 ∷ x4 ∷ []) h = refl
slice_five xs h = absurd (omega arith)

-- The printed string passes the tests, and its bytes are stored.
set_printed :
    (s t : Fake)
    → All IsByte s.llmac_get_default_rf_address_response
    → length s.llmac_get_default_rf_address_response ≡ 5
    → set_radio_mac (get_radio_mac s) t ≡ store_mac (some (radio_mac s)) t
unfolding set_radio_mac get_radio_mac
set_printed s t h g =
    let a = s.llmac_get_default_rf_address_response in
    ap (λ m. store_mac m t)
      (parse_mac-printed (at a 2) (at a 3) (at a 4) (IsByte-at a 2 h) (IsByte-at a 3 h)
          (IsByte-at a 4 h)
        ∙ ap some (sym (slice_five a g)))

stored :
    (mac : List ℕ) (t : Fake)
    → length mac ≡ 3
    → length t.llmac_get_default_rf_address_response ≡ 5
    → length t.hmip_get_default_rf_address_response ≡ 5
    → let out = store_mac (some mac) t in
      (out.0 ≡ ok 8) × (radio_mac out.1 ≡ mac) × (hmip_radio_mac out.1 ≡ mac)
unfolding store_mac
stored mac t h hl hh = (
  refl,
  slice-overwrite_self t.llmac_get_default_rf_address_response 2 mac 3 (sym h) (omega arith),
  slice-overwrite_self t.hmip_get_default_rf_address_response 2 mac 3 (sym h) (omega arith),
)

-- Setting the address to what the parameter of a module with another address prints succeeds, and
-- gives both answers that hold an address the bytes of that one.
pub set_radio_mac-get_radio_mac :
    (s t : Fake)
    → All IsByte s.llmac_get_default_rf_address_response
    → length s.llmac_get_default_rf_address_response ≡ 5
    → length t.llmac_get_default_rf_address_response ≡ 5
    → length t.hmip_get_default_rf_address_response ≡ 5
    → let out = set_radio_mac (get_radio_mac s) t in
      (out.0 ≡ ok 8) × (radio_mac out.1 ≡ radio_mac s) × (hmip_radio_mac out.1 ≡ radio_mac s)
set_radio_mac-get_radio_mac s t h g hl hh = rw (set_printed s t h g) (
    stored (radio_mac s) t (length-slice s.llmac_get_default_rf_address_response 2 3 (omega arith))
      hl hh)

length-mac_byte :
    (high low : Option ℕ) (rest : Option (List ℕ)) (mac : List ℕ) (i : ℕ)
    → ((r : List ℕ) → rest ≡ some r → length r ≡ i)
    → mac_byte high low rest ≡ some mac
    → length mac ≡ suc i
unfolding mac_byte
length-mac_byte none low rest mac i h e = cc
length-mac_byte (some x) none rest mac i h e = cc
length-mac_byte (some x) (some y) none mac i h e = cc
length-mac_byte (some x) (some y) (some r) mac i h e = ground (arith, h r refl)

length-parse_mac : (i : ℕ) (val mac : List ℕ) → parse_mac i val ≡ some mac → length mac ≡ i
unfolding parse_mac
length-parse_mac zero val mac e = ground arith
length-parse_mac (suc i) [] mac e = cc
length-parse_mac (suc i) (hi ∷ []) mac e = cc
length-parse_mac (suc i) (hi ∷ lo ∷ val) mac e =
    length-mac_byte (parse_hex_char hi) (parse_hex_char lo) (parse_mac i val) mac i
      (length-parse_mac i val) e

-- The two ways in which the setter ends.
abbrev Outcome : Fake → Ret × Fake → Type 0
Outcome t out =
    (out ≡ (err einval, t)) ⊎ ((mac : List ℕ) × (length mac ≡ 3) × (out ≡ store_mac (some mac) t))

Outcome-if :
    (b : Bool) (t : Fake) (out : Ret × Fake)
    → Outcome t out
    → Outcome t (if b then (err einval, t) else out)
Outcome-if true t out h = inl refl
Outcome-if false t out h = h

Outcome-store_mac :
    (mac : Option (List ℕ)) (t : Fake)
    → ((m : List ℕ) → mac ≡ some m → length m ≡ 3)
    → Outcome t (store_mac mac t)
unfolding store_mac
Outcome-store_mac none t h = inl refl
Outcome-store_mac (some m) t h = inr (m, h m refl, refl)

set_radio_mac-Outcome : (val : List ℕ) (t : Fake) → Outcome t (set_radio_mac val t)
unfolding set_radio_mac
set_radio_mac-Outcome [] t = inl refl
set_radio_mac-Outcome (z ∷ []) t = inl refl
set_radio_mac-Outcome (z ∷ x ∷ val) t =
    Outcome-if _ t _
      (Outcome-if _ t _ (Outcome-store_mac (parse_mac 3 val) t (length-parse_mac 3 val)))

-- Whatever string is set, either the call fails with -EINVAL and changes nothing, or it succeeds
-- and the two answers that hold an address hold the same one.
pub set_radio_mac-agree :
    (val : List ℕ) (t : Fake)
    → length t.llmac_get_default_rf_address_response ≡ 5
    → length t.hmip_get_default_rf_address_response ≡ 5
    → (set_radio_mac val t ≡ (err einval, t))
      ⊎ (((set_radio_mac val t).0 ≡ ok 8)
          × (radio_mac (set_radio_mac val t).1 ≡ hmip_radio_mac (set_radio_mac val t).1))
set_radio_mac-agree val t hl hh = elim (set_radio_mac-Outcome val t) [
  | inl e ↦ inl e
  | inr (mac, n, e) ↦ let (r, p, q) = stored mac t n hl hh in inr (rw e (r, p ∙ sym q))
]
