-- ===== src/Eth/Driver/Bounds.antt =====
-- The raw UART over the driver of kernel/hb_rf_eth.c never writes past the buffer of a message.
use pi_vccu.Prelude.{◌≡◌, ◌∙◌, some, false, arith}
use pi_vccu.Prelude.Buffers.{slice}
use pi_vccu.Kernel.{CircMacros}
use pi_vccu.RawUart.{Instance}
use pi_vccu.RawUart.Tx.Keeps.{length-slice_most, tx_queued_unlocked_keeps}
use pi_vccu.RawUart.Tx.{tx_queued_unlocked}
use pi_vccu.Eth.{Eth}
use pi_vccu.Eth.SendQueue.{IsEth, queue_msg_lem}
use pi_vccu.Eth.Driver.{tx_chars, hb_rf_eth}

-- However much the transmitter of the raw UART has to send, its run over this driver keeps the send
-- queue well formed, and no message is copied past the end of its buffer.
pub tx_queued_unlocked-IsEth :
    (circ : CircMacros) (s t : Instance Eth)
    → IsEth s.hw
    → s.hw.overran ≡ false
    → tx_queued_unlocked (hb_rf_eth circ) s ≡ some t
    → IsEth t.hw × (t.hw.overran ≡ false)
tx_queued_unlocked-IsEth circ s t v h e =
    tx_queued_unlocked_keeps (hb_rf_eth circ) (λ (d : Eth). IsEth d × (d.overran ≡ false))
      (λ d chr i n l ready p.
        unfold tx_chars in
        (let r =
            queue_msg_lem circ d p.0 7 (slice chr i n) (omega (arith, length-slice_most chr i n)) in
          (r.0, r.1 ∙ p.1)))
      (λ d p. p) s t (v, h) e
