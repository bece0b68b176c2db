-- ===== src/Eth/SendQueue.antt =====
-- The send queue of kernel/hb_rf_eth.c as a queue of messages.
use pi_vccu.Prelude.{
  ℕ, ◌+◌, ◌<◌, ◌≤◌, ◌≡◌, ◌≢◌, refl, sym, ap, ◌∙◌, List, [], ◌∷◌, ◌++◌, Bool, true, false, ◌||◌,
  length, length-drop, drop, set, get_or, get_or-set_ne, get_or-set_self, lt→ltb, ge→ltb, bit_and,
  ltb, leb, ◌==◌, Bool-cases, inl, inr, ◌⊎◌, arith,
}
use pi_vccu.Prelude.Bits.Single.{bit_and_five_bits}
use pi_vccu.Prelude.Buffers.{overwrite, overwrite_front, length-overwrite}
use native.Mathlib.Decide.{dec_lt}
use pi_vccu.Kernel.{CircMacros}
use pi_vccu.Ring.{wrap, contents, IsRing, circ_space-eq_used}
use pi_vccu.Ring.Queue.{length-contents, contents-push, IsRing-push}
use pi_vccu.Eth.{Eth, Entry, queue_length, queue_msg}

-- What an entry outside the array would be.
abbrev pub no_entry : Entry
no_entry = record { buffer = []; len = 0 }

-- Storing an entry keeps the sizes of the buffers.
pub set-buffers :
    (buf : List Entry) (k : ℕ) (e : Entry)
    → k < length buf
    → ((i : ℕ) → i < 32 → length (get_or buf i no_entry).buffer ≡ 1500)
    → length e.buffer ≡ 1500
    → (i : ℕ) → i < 32
    → length (get_or (set buf k e) i no_entry).buffer ≡ 1500
set-buffers buf k e inside all size i h = elim (Bool-cases (i == k)) [
  | inl e1 ↦
      let here : i ≡ k = ground arith in
      ap (λ (j : ℕ). length (get_or (set buf k e) j no_entry).buffer) here
      ∙ ap (λ (x : Entry). length x.buffer) (get_or-set_self buf k e no_entry inside)
      ∙ size
  | inr e1 ↦
      let there : i ≢ k = ground arith in
      ap (λ (x : Entry). length x.buffer) (get_or-set_ne buf k i e no_entry (λ f. there (sym f)))
      ∙ all i h
]

-- The queue is well formed, and every entry has its buffer.
pub record IsEth (s : Eth) : Type 0 where
  pub ring : IsRing queue_length s.send_msg_queue
  pub buffers : (i : ℕ) → i < 32 → length (get_or s.send_msg_queue.buf i no_entry).buffer ≡ 1500

-- The messages that wait, oldest first.
abbrev pub waiting : Eth → List Entry
waiting s = contents queue_length s.send_msg_queue

-- An entry that holds a message: its code, a byte for the counter, its bytes, and room for the
-- checksum.
pub record Holds (cmd : ℕ) (bytes : List ℕ) (e : Entry) : Type 0 where
  pub old_cnt : ℕ
  pub rest : List ℕ
  pub layout : e.buffer ≡ cmd ∷ old_cnt ∷ bytes ++ rest
  pub room : 2 ≤ length rest
  pub size : e.len ≡ length bytes + 4

or_false : (b : Bool) → (b || false) ≡ b
or_false true = refl
or_false false = refl

pub next_place : (i : ℕ) → i < 32 → bit_and (i + 1) 31 ≡ wrap 32 (i + 1)
next_place i h = ground (arith, bit_and_five_bits (i + 1))

-- A buffer after the two copies of `queue_msg`.
two_copies :
    (old bytes : List ℕ) (cmd : ℕ)
    → length old ≡ 1500
    → length bytes ≤ 1496
    → (rest : List ℕ) × (overwrite (overwrite old 0 (cmd ∷ 0 ∷ [])) 2 bytes
        ≡ cmd ∷ 0 ∷ bytes ++ rest)
      × (2 ≤ length rest)
two_copies [] bytes cmd h g = absurd (omega arith)
two_copies (x ∷ []) bytes cmd h g = absurd (omega arith)
two_copies (x ∷ y ∷ []) bytes cmd h g = absurd (omega arith)
two_copies (x ∷ y ∷ z ∷ old) bytes cmd h g =
    let rest = drop (length bytes) (z ∷ old) in
    (
      rest,
      ap (λ (t : List ℕ). cmd ∷ 0 ∷ t)
          (overwrite_front (z ∷ old) bytes (length bytes) refl (omega arith)),
      omega (arith, length-drop (length bytes) (z ∷ old)),
    )

module _ (circ : CircMacros) (s : Eth) (v : IsEth s) where
  room_lem :
      leb 1 (circ.circ_space s.send_msg_queue.head s.send_msg_queue.tail 32)
      ≡ ltb (length (waiting s)) 31
  room_lem =
      let e =
        circ_space-eq_used circ 5 s.send_msg_queue.head s.send_msg_queue.tail v.ring.head_in
          v.ring.tail_in in
      let l = length-contents 32 s.send_msg_queue v.ring in rw (e, l) (ground arith)

  -- The entry that a message is written into.
  filled : ℕ → List ℕ → Entry
  filled cmd bytes = record {
    buffer =
        overwrite
          (overwrite (get_or s.send_msg_queue.buf s.send_msg_queue.head no_entry).buffer 0
            (cmd ∷ 0 ∷ []))
          2 bytes;
    len = length bytes + 4;
  }

  -- The state with a message in its queue.
  pushed : ℕ → List ℕ → Eth
  unfolding filled
  pushed cmd bytes =
      let q = s.send_msg_queue in
      record s {
        send_msg_queue = record q {
          buf = set q.buf q.head (filled cmd bytes);
          head = wrap 32 (q.head + 1);
        };
      }

  filled-Holds :
      (cmd : ℕ) (bytes : List ℕ) → length bytes ≤ 1496 → Holds cmd bytes (filled cmd bytes)
  unfolding filled
  filled-Holds cmd bytes h =
      let q = s.send_msg_queue in
      let (rest', e, l) =
        two_copies (get_or q.buf q.head no_entry).buffer bytes cmd (v.buffers q.head v.ring.head_in)
          h in
      record { old_cnt = 0; rest = rest'; layout = e; room = l; size = refl }

  filled-size : (cmd : ℕ) (bytes : List ℕ) → length (filled cmd bytes).buffer ≡ 1500
  unfolding filled
  filled-size cmd bytes =
      let q = s.send_msg_queue in
      let old = (get_or q.buf q.head no_entry).buffer in
      length-overwrite (overwrite old 0 (cmd ∷ 0 ∷ [])) 2 bytes
      ∙ length-overwrite old 0 (cmd ∷ 0 ∷ [])
      ∙ v.buffers q.head v.ring.head_in

  pushed-buffers :
      (cmd : ℕ) (bytes : List ℕ) (i : ℕ)
      → i < 32
      → length
          (get_or
            (set s.send_msg_queue.buf s.send_msg_queue.head (filled cmd bytes))
            i
            no_entry).buffer
        ≡ 1500
  pushed-buffers cmd bytes =
      set-buffers s.send_msg_queue.buf s.send_msg_queue.head (filled cmd bytes)
        (omega (arith, v.ring.array, v.ring.head_in)) v.buffers (filled-size cmd bytes)

  pushed-IsEth : (cmd : ℕ) (bytes : List ℕ) → IsEth (pushed cmd bytes)
  unfolding pushed filled
  pushed-IsEth cmd bytes = record {
    ring = IsRing-push 32 s.send_msg_queue v.ring (filled cmd bytes);
    buffers = λ i h. pushed-buffers cmd bytes i h;
  }

  pushed-waiting :
      (cmd : ℕ) (bytes : List ℕ)
      → length (waiting s) < 31
      → waiting (pushed cmd bytes) ≡ waiting s ++ (filled cmd bytes ∷ [])
  unfolding pushed
  pushed-waiting cmd bytes l =
      contents-push 32 s.send_msg_queue v.ring (filled cmd bytes)
        (omega (arith, length-contents 32 s.send_msg_queue v.ring))

  queue_msg_room :
      (cmd : ℕ) (bytes : List ℕ)
      → length bytes ≤ 1496
      → length (waiting s) < 31
      → queue_msg circ cmd bytes s ≡ pushed cmd bytes
  unfolding queue_msg pushed filled
  queue_msg_room cmd bytes h l =
      let q = s.send_msg_queue in
      let test = room_lem ∙ lt→ltb (length (waiting s)) 31 l in
      let fits : ltb 1500 (length bytes + 2) ≡ false =
        ge→ltb 1500 (length bytes + 2) (omega arith) in
      let same : (s.overran || ltb 1500 (length bytes + 2)) ≡ s.overran =
        rw fits (or_false s.overran) in
      rw (test, same, next_place q.head v.ring.head_in)

  queue_msg_full :
      (cmd : ℕ) (bytes : List ℕ) → 31 ≤ length (waiting s) → queue_msg circ cmd bytes s ≡ s
  unfolding queue_msg
  queue_msg_full cmd bytes l = rw (room_lem ∙ ge→ltb (length (waiting s)) 31 l)

  -- Where fewer than 31 messages wait, a message of at most 1496 bytes is appended to them, in an
  -- entry that holds its code and its bytes inside the entry's buffer; otherwise it is dropped, and
  -- nothing changes. The queue stays well formed.
  pub queue_msg_lem :
      (cmd : ℕ) (bytes : List ℕ)
      → length bytes ≤ 1496
      → (let t = queue_msg circ cmd bytes s in
          IsEth t
          × (t.overran ≡ s.overran)
          × (((length (waiting s) < 31)
                × (e : Entry) × (waiting t ≡ waiting s ++ (e ∷ []))
                × Holds cmd bytes e)
              ⊎ ((31 ≤ length (waiting s)) × (t ≡ s))))
  queue_msg_lem cmd bytes h = elim (dec_lt (length (waiting s)) 31) [
    | yes room ↦ rw (queue_msg_room cmd bytes h room) (
      pushed-IsEth cmd bytes,
      unfold pushed in refl,
      inl (room, filled cmd bytes, pushed-waiting cmd bytes room, filled-Holds cmd bytes h),
    )
    | no full ↦ rw (queue_msg_full cmd bytes (omega arith)) (v, refl, inr (omega arith, refl))
  ]
