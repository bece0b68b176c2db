-- ===== src/Detect/Frame/Same.antt =====
-- The two implementations of the protocol, detect_radio_module/hmframe.cpp and kernel/hm.h.
use mathlib.Core.Option
use pi_vccu.Prelude.{
  ℕ, zero, suc, ◌+◌, ◌-◌, ◌%◌, ◌^◌, ◌<◌, ◌≤◌, ◌≡◌, refl, sym, ap, ◌∙◌, List, [], ◌∷◌, ◌++◌, Option,
  none, some, Bool, true, false, inl, inr, Bool-cases, ==_iff, ltb, ◌==◌, not, if◌then◌else◌,
  length, take, drop, append-nil, append_assoc, length-take, take-append_left, arith,
}
use pi_vccu.Hm.Crc.{IsByte, hm_crc}
use pi_vccu.Hm.Frame as Hm
use pi_vccu.Hm.Frame.{try_parse_frame, at, be16}
use pi_vccu.Hm.Frame.RoundTrip.{wire, IsFrame, be16_split, length-wire, parse-wire}
use pi_vccu.Detect.Frame.{HmFrame, crc, try_parse, plain_bytes}

-- A frame of the kernel's parser as one of the class: its command is the first byte of `cmd`.
abbrev pub of_hm_frame : Hm.HmFrame → HmFrame
of_hm_frame f = record {
  counter = f.cnt;
  destination = f.dst;
  command = at f.cmd 0;
  payload = drop 1 f.cmd;
  data_len = f.cmdlen - 1;
}

-- The two tests of the length agree.
same_length :
    (n len : ℕ)
    → n < 65536
    → len < 65536
    → ltb len 8 ≡ false
    → ((n + 2 ^ 16 - 3) % 2 ^ 16 + 8 == len) ≡ (n + 5 == len)
same_length n len hn hl h = ground arith

at-drop : (n : ℕ) (xs : List ℕ) → at (drop n xs) 0 ≡ at xs n
at-drop zero xs = refl
at-drop (suc n) [] = refl
at-drop (suc n) (x ∷ xs) = at-drop n xs

drop_one-drop : (n : ℕ) (xs : List ℕ) → drop 1 (drop n xs) ≡ drop (suc n) xs
drop_one-drop zero xs = refl
drop_one-drop (suc n) [] = refl
drop_one-drop (suc n) (x ∷ xs) = drop_one-drop n xs

same_frame :
    (buf : List ℕ) (n len : ℕ)
    → n + 5 ≡ len
    → ltb len 8 ≡ false
    → n < 65536
    → record {
      counter = at buf 4;
      destination = at buf 3;
      command = at buf 5;
      payload = drop 6 buf;
      data_len = (n + 2 ^ 16 - 3) % 2 ^ 16;
    }
      ≡ of_hm_frame (record { dst = at buf 3; cnt = at buf 4; cmd = drop 5 buf; cmdlen = n - 2 })
same_frame buf n len e h hn =
    let same : (n + 2 ^ 16 - 3) % 2 ^ 16 ≡ n - 2 - 1 = ground arith in
    rw (same, at-drop 5 buf, drop_one-drop 5 buf)

-- The three tests behind that of the minimal length.
same_tests :
    (a b c : Bool) (x : HmFrame) (y : Hm.HmFrame)
    → (b ≡ true → x ≡ of_hm_frame y)
    → (if not a then none else if not b then none else if not c then none else some x)
      ≡ Option.map of_hm_frame
          (if not a then none else if not b then none else if not c then none else some y)
same_tests false b c x y h = refl
same_tests true false c x y h = refl
same_tests true true false x y h = refl
same_tests true true true x y h = ap some (h refl)

-- For a buffer of less than 64 kB, `HMFrame::TryParse` accepts what `tryParseFrame` accepts, with
-- the same fields.
pub try_parse-try_parse_frame :
    (buf : List ℕ) (len : ℕ)
    → len < 65536
    → be16 (at buf 1) (at buf 2) < 65536
    → try_parse buf len ≡ Option.map of_hm_frame (try_parse_frame buf len)
unfolding try_parse try_parse_frame crc hm_crc
try_parse-try_parse_frame buf len hl hn = elim (Bool-cases (ltb len 8)) [
  | inl e ↦ rw e
  | inr e ↦
      let n = be16 (at buf 1) (at buf 2) in
      rw (e, same_length n len hn hl e)
        (same_tests (at buf 0 == 0xfd) (n + 5 == len)
          (be16 (at buf (len - 2)) (at buf (len - 1)) == hm_crc (take (len - 2) buf)) _ _
          (λ h. same_frame buf n len ((==_iff (n + 5) len).0 h) e hn))
]

-- The other way: what `HMFrame::encode` writes, as a frame of the kernel.
abbrev pub to_hm_frame : HmFrame → Hm.HmFrame
to_hm_frame f = record {
  dst = f.destination;
  cnt = f.counter;
  cmd = f.command ∷ f.payload;
  cmdlen = suc f.data_len;
}

-- The fields of a frame fit the line format.
pub record IsHmFrame (f : HmFrame) : Type 0 where
  pub counter_byte : IsByte f.counter
  pub destination_byte : IsByte f.destination
  pub command_byte : IsByte f.command
  pub fits : f.data_len + 3 < 65536
  pub behind : f.data_len ≤ length f.payload

pub plain_bytes-wire : (f : HmFrame) → plain_bytes f ≡ wire (to_hm_frame f)
unfolding plain_bytes crc hm_crc
plain_bytes-wire f = let e : suc f.data_len + 2 ≡ f.data_len + 3 = omega arith in rw e

pub to_hm_frame-IsFrame : (f : HmFrame) → IsHmFrame f → IsFrame (to_hm_frame f)
to_hm_frame-IsFrame f v = record {
  dst_byte = v.destination_byte;
  cnt_byte = v.counter_byte;
  not_empty = omega arith;
  fits = omega (arith, v.fits);
  behind_cmd = omega (arith, v.behind);
}

-- What the kernel's layout of a frame is to `HMFrame::TryParse`.
pub try_parse-wire :
    (k : Hm.HmFrame)
    → IsFrame k
    → k.cmdlen + 7 < 65536
    → try_parse (wire k) (length (wire k))
      ≡ some (of_hm_frame (record k { cmd = drop 5 (wire k ++ []) }))
try_parse-wire k v h =
    let w = wire k ++ [] in
    let n = k.cmdlen in
    let small : be16 (at w 1) (at w 2) < 65536 = rw (be16_split (n + 2) v.fits) v.fits in
    let bytes : wire k ≡ w = sym (append-nil (wire k)) in
    ap (try_parse (wire k)) (length-wire k v.behind_cmd)
    ∙ ap (λ t. try_parse t (n + 7)) bytes
    ∙ try_parse-try_parse_frame w (n + 7) h small
    ∙ ap (Option.map of_hm_frame) (parse-wire k [] v)

-- A parser's result that is the frame `f`: its numbers, and the bytes of its data.
pub record Reads (f : HmFrame) (o : Option HmFrame) : Type 0 where
  pub frame : HmFrame
  pub result : o ≡ some frame
  pub same_counter : frame.counter ≡ f.counter
  pub same_destination : frame.destination ≡ f.destination
  pub same_command : frame.command ≡ f.command
  pub same_data_len : frame.data_len ≡ f.data_len
  pub same_payload : take f.data_len frame.payload ≡ take f.data_len f.payload

-- What `HMFrame::encode` writes unescaped, `HMFrame::TryParse` reads back.
pub try_parse-plain_bytes :
    (f : HmFrame)
    → IsHmFrame f
    → f.data_len + 8 < 65536
    → Reads f (try_parse (plain_bytes f) (f.data_len + 8))
try_parse-plain_bytes f v h =
    let k = to_hm_frame f in
    let w = wire k ++ [] in
    let bytes : plain_bytes f ≡ w = plain_bytes-wire f ∙ sym (append-nil (wire k)) in
    let len : f.data_len + 8 ≡ suc f.data_len + 7 = omega arith in
    let small : be16 (at w 1) (at w 2) < 65536 =
      rw (be16_split (suc f.data_len + 2) (omega (arith, v.fits))) (omega (arith, v.fits)) in
    let parsed =
      try_parse-try_parse_frame w (suc f.data_len + 7) (omega arith) small
      ∙ ap (Option.map of_hm_frame) (parse-wire k [] (to_hm_frame-IsFrame f v)) in
    record {
      frame = of_hm_frame (record { dst = k.dst; cnt = k.cnt; cmd = drop 5 w; cmdlen = k.cmdlen });
      result = rw (bytes, len) parsed;
      same_counter = refl;
      same_destination = refl;
      same_command = refl;
      same_data_len = omega arith;
      same_payload = rw (append_assoc (take f.data_len f.payload)) (
          take-append_left f.data_len (take f.data_len f.payload) _
            (omega (arith, length-take f.data_len f.payload, v.behind)));
    }

pub length-plain_bytes : (f : HmFrame) → IsHmFrame f → length (plain_bytes f) ≡ f.data_len + 8
length-plain_bytes f v =
    ap length (plain_bytes-wire f)
    ∙ length-wire (to_hm_frame f) (omega (arith, v.behind))
    ∙ omega arith
