-- ===== src/FakeHmrf/Params.antt =====
-- The module parameters of kernel/fake_hmrf.c that hold the serial number and the radio address.
-- A string is the list of its characters without the final 0.
pub mod Address
use pi_vccu.Prelude.{
  ℕ, zero, suc, ◌+◌, ◌-◌, ◌*◌, ◌/◌, ◌%◌, bit_or, List, [], ◌∷◌, ◌++◌, Option, none, some, not, ltb,
  leb, ◌==◌, ◌&&◌, ◌||◌, if◌then◌else◌, length,
}
use pi_vccu.Prelude.Buffers.{slice, overwrite}
use pi_vccu.Kernel.{Ret, ok, err, einval}
use pi_vccu.Hm.Frame.{at}
use pi_vccu.FakeHmrf.{Fake}

-- `fake_hmrf_get_serial`: the ten characters that it copies.
pub get_serial : Fake → List ℕ
get_serial s = slice s.llmac_get_serial_response 2 10

-- `fake_hmrf_set_serial`.
pub set_serial : List ℕ → Fake → Ret × Fake
set_serial val s = if not (length val == 10) then (err einval, s) else (
  ok 10,
  record s { llmac_get_serial_response = overwrite s.llmac_get_serial_response 2 val },
)

-- One hexadecimal digit of `%02hhX`, and the whole format.
abbrev pub hex_digit : ℕ → ℕ
hex_digit n = if ltb n 10 then 0x30 + n else 0x41 + (n - 10)

-- `fake_hmrf_get_radio_mac`: the characters that it prints.
pub get_radio_mac : Fake → List ℕ
get_radio_mac s =
    let a = s.llmac_get_default_rf_address_response in
    0x30
    ∷ 0x78
    ∷ hex_digit (at a 2 / 16)
    ∷ hex_digit (at a 2 % 16)
    ∷ hex_digit (at a 3 / 16)
    ∷ hex_digit (at a 3 % 16)
    ∷ hex_digit (at a 4 / 16)
    ∷ hex_digit (at a 4 % 16)
    ∷ []

-- `fake_hmrf_parse_hex_char`, with `none` for -1.
pub parse_hex_char : ℕ → Option ℕ
parse_hex_char c =
    if leb 0x30 c && leb c 0x39
    then some (c - 0x30)
    else if leb 0x41 c && leb c 0x46
    then some (c - 0x41 + 10)
    else if leb 0x61 c && leb c 0x66
    then some (c - 0x61 + 10)
    else none

-- One round of the loop in `fake_hmrf_set_radio_mac`: two digits, and what the other rounds give.
pub mac_byte : Option ℕ → Option ℕ → Option (List ℕ) → Option (List ℕ)
mac_byte none low rest = none
mac_byte (some high) none rest = none
mac_byte (some high) (some low) none = none
mac_byte (some high) (some low) (some rest) = some (bit_or (high * 16 % 256) low ∷ rest)

-- The loop over `i` bytes of two digits each; the string is long enough where it is called.
pub parse_mac : ℕ → List ℕ → Option (List ℕ)
unfolding parse_hex_char mac_byte
parse_mac zero val = some []
parse_mac (suc i) [] = none
parse_mac (suc i) (hi ∷ []) = none
parse_mac (suc i) (hi ∷ lo ∷ val) =
    mac_byte (parse_hex_char hi) (parse_hex_char lo) (parse_mac i val)

store_mac : Option (List ℕ) → Fake → Ret × Fake
store_mac none s = (err einval, s)
store_mac (some mac) s = (
  ok 8,
  record s {
    llmac_get_default_rf_address_response = overwrite s.llmac_get_default_rf_address_response 2 mac;
    hmip_get_default_rf_address_response = overwrite s.hmip_get_default_rf_address_response 2 mac;
  },
)

-- `fake_hmrf_set_radio_mac`.
pub set_radio_mac : List ℕ → Fake → Ret × Fake
unfolding store_mac parse_mac
set_radio_mac [] s = (err einval, s)
set_radio_mac (zero_char ∷ []) s = (err einval, s)
set_radio_mac (zero_char ∷ x_char ∷ val) s =
    if not (length (zero_char ∷ x_char ∷ val) == 8)
    then (err einval, s)
    else if not (zero_char == 0x30) || not (x_char == 0x78)
    then (err einval, s)
    else store_mac (parse_mac 3 val) s
