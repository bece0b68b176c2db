-- ===== src/FakeHmrf/Device/Buffer.antt =====
-- The buffer of kernel/fake_hmrf.c against the queue that it stands for.
use pi_vccu.Prelude.{
  ℕ, ◌+◌, ◌≤◌, ◌<◌, ◌≡◌, refl, sym, ap, ◌∙◌, List, [], ◌∷◌, ◌++◌, lt→ltb, length, length-append,
  append-nil, append_assoc, arith,
}
use pi_vccu.Kernel.{CircMacros}
use pi_vccu.Ring.{CircBuf, contents, IsRing}
use pi_vccu.RawUart.Rx.{rx_store}
use pi_vccu.RawUart.Rx.Queue.{enqueue, rx_store_lem}
use pi_vccu.FakeHmrf.Device.{rx_buf_size, add_byte, add_to_buffer}

enqueue_room : (q : List ℕ) (x : ℕ) → length q < 1023 → enqueue q x ≡ q ++ (x ∷ [])
unfolding enqueue
enqueue_room q x h = rw (lt→ltb (length q) 1023 h)

module _ (circ : CircMacros) where
  -- The same store as that of the receive buffer of kernel/generic_raw_uart.c.
  add_byte-eq_rx_store : (b : ℕ) (r : CircBuf ℕ) → add_byte circ b r ≡ rx_store circ b r
  unfolding add_byte rx_store
  add_byte-eq_rx_store b r = refl

  -- Bytes that find room for all of them are appended to the waiting ones, in order, and the buffer
  -- stays well formed.
  pub add_to_buffer_lem :
      (bytes : List ℕ) (r : CircBuf ℕ)
      → IsRing rx_buf_size r
      → length (contents rx_buf_size r) + length bytes ≤ 1023
      → (contents rx_buf_size (add_to_buffer circ bytes r) ≡ contents rx_buf_size r ++ bytes)
        × IsRing rx_buf_size (add_to_buffer circ bytes r)
  unfolding add_to_buffer
  add_to_buffer_lem [] r v h = (sym (append-nil _), v)
  add_to_buffer_lem (b ∷ bytes) r v h =
      let q = contents 1024 r in
      let (e, w) = rx_store_lem circ r v b in
      let one : contents 1024 (rx_store circ b r) ≡ q ++ (b ∷ []) =
        e ∙ enqueue_room q b (omega arith) in
      let longer : length (contents 1024 (rx_store circ b r)) ≡ length q + 1 =
        ap length one ∙ length-append q (b ∷ []) in
      let (f, u) = add_to_buffer_lem bytes (rx_store circ b r) w (omega (arith, longer)) in
      rw (add_byte-eq_rx_store b r)
        (f ∙ ap (λ t. t ++ bytes) one ∙ append_assoc q (b ∷ []) bytes, u)
