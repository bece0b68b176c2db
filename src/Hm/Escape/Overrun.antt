-- ===== src/Hm/Escape/Overrun.antt =====
-- What `decodeFrameBuffer` of kernel/hm.h does on every input, well formed or not.
use mathlib.Core.Option
use pi_vccu.Prelude.{
  ℕ, zero, suc, ◌-◌, ◌^◌, ◌≤◌, ◌<◌, bit_or, ◌≡◌, refl, ◌∙◌, List, [], ◌∷◌, none, some, Bool, true,
  false, inl, inr, Bool-cases, ◌==◌, ==_iff, if◌then◌else◌, length, take, arith,
}
use pi_vccu.Hm.Escape.{dec_size, decode_frame_buffer}
use pi_vccu.Hm.Escape.RoundTrip.{decode_plain, decode_escaped, decode_nothing}

-- The meaning of the escaped line: the bytes that it stands for, and whether it ends inside an
-- escape.
pub unescape : List ℕ → List ℕ
unescape [] = []
unescape (c ∷ []) = c ∷ []
unescape (c ∷ next ∷ line) =
    let escaped = bit_or next 0x80 ∷ unescape line in
    let plain = c ∷ unescape (next ∷ line) in if c == 0xfc then escaped else plain

unfoldable pub is_dangling : List ℕ → Bool
is_dangling [] = false
is_dangling (c ∷ []) = c == 0xfc
is_dangling (c ∷ next ∷ line) =
    let escaped = is_dangling line in
    let plain = is_dangling (next ∷ line) in if c == 0xfc then escaped else plain

-- With more bytes to decode than the memory holds the loop runs off its end.
decode_overrun :
    (src : List ℕ) (len : ℕ) → length src < len → len < 2 ^ 64 → decode_frame_buffer src len ≡ none
unfolding decode_frame_buffer
decode_overrun [] zero h g = absurd (omega arith)
decode_overrun [] (suc len) h g = refl
decode_overrun (c ∷ src) zero h g = absurd (omega arith)
decode_overrun (c ∷ []) (suc len) h g = ground (arith, decode_overrun [] len)
decode_overrun (c ∷ next ∷ src) (suc len) h g = elim (Bool-cases (c == 0xfc)) [
  | inl e ↦ rw (e, decode_overrun src (dec_size len) (omega arith) (omega arith))
  | inr e ↦ rw (e, decode_overrun (next ∷ src) len (omega arith) (omega arith))
]

-- An escape whose second byte is outside the `len` bytes: `len` wraps round.
decode_wraps :
    (src : List ℕ) (c : ℕ)
    → length src < 2 ^ 64 - 1
    → (c == 0xfc) ≡ true
    → decode_frame_buffer (c ∷ src) 1 ≡ none
unfolding decode_frame_buffer
decode_wraps [] c h e = rw e
decode_wraps (next ∷ src) c h e =
    rw (e, decode_overrun src (2 ^ 64 - 1) (omega arith) (omega arith))

decode_pair :
    (c next : ℕ) (src : List ℕ) (len : ℕ)
    → suc len < 2 ^ 64
    → (c == 0xfc) ≡ true
    → decode_frame_buffer (c ∷ next ∷ src) (suc (suc len))
      ≡ Option.map (λ out. bit_or next 0x80 ∷ out) (decode_frame_buffer src len)
decode_pair c next src len h e =
    let f : c ≡ 0xfc = (==_iff c 0xfc).0 e in rw f (decode_escaped next src len h)

map_meaning :
    (b : Bool) (f : List ℕ → List ℕ) (out : List ℕ)
    → Option.map f (if b then none else some out) ≡ (if b then none else some (f out))
map_meaning true f out = refl
map_meaning false f out = refl

-- For `len` bytes inside the memory, the function stores the bytes that they stand for; if they
-- end inside an escape the count wraps round and the loop reads on past the end of the memory.
pub decode_lem :
    (src : List ℕ) (len : ℕ)
    → len ≤ length src
    → length src < 2 ^ 64 - 1
    → decode_frame_buffer src len
      ≡ (if is_dangling (take len src) then none else some (unescape (take len src)))
unfolding is_dangling unescape
decode_lem [] zero h g = decode_nothing []
decode_lem [] (suc len) h g = absurd (omega arith)
decode_lem (c ∷ src) zero h g = decode_nothing (c ∷ src)
decode_lem (c ∷ []) (suc zero) h g = elim (Bool-cases (c == 0xfc)) [
  | inl e ↦ decode_wraps [] c (omega arith) e ∙ rw e
  | inr e ↦ decode_plain c [] 0 e ∙ rw (decode_nothing [], e)
]
decode_lem (c ∷ []) (suc (suc len)) h g = absurd (omega arith)
decode_lem (c ∷ next ∷ src) (suc zero) h g = elim (Bool-cases (c == 0xfc)) [
  | inl e ↦ decode_wraps (next ∷ src) c (omega arith) e ∙ rw e
  | inr e ↦ decode_plain c (next ∷ src) 0 e ∙ rw (decode_nothing (next ∷ src), e)
]
decode_lem (c ∷ next ∷ src) (suc (suc len)) h g = elim (Bool-cases (c == 0xfc)) [
  | inl e ↦
      decode_pair c next src len (omega arith) e
      ∙ rw (e, decode_lem src len (omega arith) (omega arith))
          (map_meaning (is_dangling (take len src)) _ (unescape (take len src)))
  | inr e ↦
      decode_plain c (next ∷ src) (suc len) e
      ∙ rw (e, decode_lem (next ∷ src) (suc len) (omega arith) (omega arith))
          (map_meaning (is_dangling (next ∷ take len src)) _ (unescape (next ∷ take len src)))
]
