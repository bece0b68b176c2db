-- ===== src/Eth/Threads.antt =====
-- The sender of kernel/hb_rf_eth.c: the oldest message goes out as a packet that is accepted.
use pi_vccu.Prelude.{
  ℕ, suc, ◌+◌, ◌-◌, ◌^◌, ◌%◌, ◌≤◌, ◌≡◌, ◌≢◌, refl, sym, ap, subst, ◌∙◌, List, [], ◌∷◌, ◌++◌, Bool,
  true, false, length, length-set, set, get_or, take, ◌==◌, if◌then◌else◌, arith,
}
use pi_vccu.Prelude.Buffers.{length-overwrite}
use pi_vccu.Kernel.{ok}
use pi_vccu.Ring.{wrap, contents, IsRing}
use pi_vccu.Ring.Queue.{length-contents, IsRing-advance}
use pi_vccu.Ring.Free.{contents-pop}
use pi_vccu.Eth.{Eth, Entry, calc_crc, be_bytes, send_oldest, send_msg, stamp, packet, recv_packet}
use pi_vccu.Eth.Packet.{sealed, stamp_lem, recv_packet-sealed}
use pi_vccu.Eth.SendQueue.{IsEth, waiting, Holds, no_entry, set-buffers, next_place}

-- What a message carries when it is sent: for the code 3 the value of the pins at that time.
abbrev pub payload : ℕ → ℕ → List ℕ → List ℕ
payload gpio cmd bytes = if cmd == 3 then set bytes 0 gpio else bytes

-- The buffer of an entry with the value of the pins in it.
refreshed :
    (c : Bool) (gpio cmd x : ℕ) (bytes rest : List ℕ)
    → 2 ≤ length rest
    → (rest' : List ℕ) × ((if c
          then set (cmd ∷ x ∷ bytes ++ rest) 2 gpio
          else cmd ∷ x ∷ bytes ++ rest)
        ≡ cmd ∷ x ∷ (if c then set bytes 0 gpio else bytes) ++ rest')
      × (2 ≤ length rest')
refreshed false gpio cmd x bytes rest h = (rest, refl, h)
refreshed true gpio cmd x [] rest h = (set rest 0 gpio, refl, omega (arith, length-set rest 0 gpio))
refreshed true gpio cmd x (b ∷ bytes) rest h = (rest, refl, h)

refreshed_buffer : ℕ → List ℕ → List ℕ
refreshed_buffer gpio b = if get_or b 0 0 == 3 then set b 2 gpio else b

length-refreshed_buffer : (gpio : ℕ) (b : List ℕ) → length (refreshed_buffer gpio b) ≡ length b
unfolding refreshed_buffer
length-refreshed_buffer gpio b = ground (arith, length-set b 2 gpio)

length-payload : (gpio cmd : ℕ) (bytes : List ℕ) → length (payload gpio cmd bytes) ≡ length bytes
length-payload gpio cmd bytes = ground (arith, length-set bytes 0 gpio)

length-stamp : (cnt n : ℕ) (b : List ℕ) → length (stamp cnt b n) ≡ length b
unfolding stamp
length-stamp cnt n b =
    let counted = set b 1 (cnt % 256) in
    length-overwrite counted (n - 2) (be_bytes (calc_crc (take (n - 2) counted)))
    ∙ length-set b 1 (cnt % 256)

-- What goes out for an entry.
entry_packet :
    (gpio cnt cmd : ℕ) (bytes : List ℕ) (e : Entry)
    → Holds cmd bytes e
    → take e.len (stamp cnt (refreshed_buffer gpio e.buffer) e.len)
      ≡ sealed cmd cnt (payload gpio cmd bytes)
unfolding refreshed_buffer
entry_packet gpio cnt cmd bytes e h =
    let (rest', f, room') = refreshed (cmd == 3) gpio cmd h.old_cnt bytes h.rest h.room in
    let same : refreshed_buffer gpio e.buffer ≡ cmd ∷ h.old_cnt ∷ payload gpio cmd bytes ++ rest' =
      ap (λ (b : List ℕ). if get_or b 0 0 == 3 then set b 2 gpio else b) h.layout ∙ f in
    ap (λ (b : List ℕ). take e.len (stamp cnt b e.len)) same
    ∙ stamp_lem cnt cmd h.old_cnt e.len (payload gpio cmd bytes) rest'
        (omega (arith, h.size, length-payload gpio cmd bytes)) room'

module _ (s : Eth) (v : IsEth s) (e : Entry) (es : List Entry) (first : waiting s ≡ e ∷ es) where
  some_waiting : s.send_msg_queue.head ≢ s.send_msg_queue.tail
  some_waiting h =
      let l = length-contents 32 s.send_msg_queue v.ring in
      let n : length (waiting s) ≡ suc (length es) = ap length first in ground (arith, l, n)

  -- The first message, and the queue without it, whatever is then stored in its place.
  popped :
      (x : Entry)
      → (get_or s.send_msg_queue.buf s.send_msg_queue.tail no_entry ≡ e)
        × (let q = s.send_msg_queue in
            contents 32 (record q { buf = set q.buf q.tail x; tail = wrap 32 (q.tail + 1) }) ≡ es)
  popped x =
      let both = sym first ∙ contents-pop 32 s.send_msg_queue v.ring some_waiting x no_entry in
      (cc, cc)

  left_over-IsRing :
      (x : Entry)
      → let q = s.send_msg_queue in
        IsRing 32 (record q { buf = set q.buf q.tail x; tail = wrap 32 (q.tail + 1) })
  left_over-IsRing x =
      let q = s.send_msg_queue in
      let r = IsRing-advance 32 q v.ring 1 (omega (arith, v.ring.tail_in)) in
      record {
        array = length-set q.buf q.tail x ∙ v.ring.array;
        head_in = v.ring.head_in;
        tail_in = r.tail_in;
      }

  -- In a well-formed send queue whose oldest entry holds a message: that entry leaves the queue,
  -- and the others stay in order, connected or not. On a connection the message goes out with the
  -- next counter, as a packet that the receiving side accepts; without one nothing goes out. The
  -- counter moves in both cases.
  pub send_oldest_lem :
      (cmd : ℕ) (bytes : List ℕ)
      → Holds cmd bytes e
      → (let t = send_oldest s in
          let p = sealed cmd ((s.msg_cnt + 1) % 2 ^ 32) (payload s.gpio_value cmd bytes) in
          IsEth t
          × (waiting t ≡ es)
          × (t.sent ≡ (if s.connected then p ∷ s.sent else s.sent))
          × (t.msg_cnt ≡ (s.msg_cnt + 1) % 2 ^ 32)
          × (recv_packet true (packet p) ≡ ok (length bytes + 4)))
  unfolding send_oldest send_msg refreshed_buffer
  send_oldest_lem cmd bytes holds =
      let q = s.send_msg_queue in
      let cnt = (s.msg_cnt + 1) % 2 ^ 32 in
      let e0 = get_or q.buf q.tail no_entry in
      let held : Holds cmd bytes e0 = subst (Holds cmd bytes) (sym (popped e).0) holds in
      let b = refreshed_buffer s.gpio_value e0.buffer in
      let x : Entry = record e0 { buffer = stamp cnt b e0.len } in
      let place = next_place q.tail v.ring.tail_in in
      let size : length x.buffer ≡ 1500 =
        length-stamp cnt e0.len b
        ∙ length-refreshed_buffer s.gpio_value e0.buffer
        ∙ v.buffers q.tail v.ring.tail_in in
      (
        record {
          ring = rw place (left_over-IsRing x);
          buffers =
              set-buffers q.buf q.tail x (omega (arith, v.ring.array, v.ring.tail_in)) v.buffers
                size;
        },
        rw place (popped x).1,
        ap (λ (p : List ℕ). if s.connected then p ∷ s.sent else s.sent)
            (entry_packet s.gpio_value cnt cmd bytes e0 held),
        refl,
        recv_packet-sealed cmd cnt (payload s.gpio_value cmd bytes)
            ∙ ap ok (omega (arith, length-payload s.gpio_value cmd bytes)),
      )
