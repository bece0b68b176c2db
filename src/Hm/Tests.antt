-- ===== src/Hm/Tests.antt =====
-- Concrete runs of the frame layer of kernel/hm.h.
use pi_vccu.Prelude.{ℕ, ◌≡◌, refl, [], ◌∷◌, none, some, drop, set, arith}
use pi_vccu.Hm.Crc.Detect.{one_byte_detected}
use pi_vccu.Hm.Escape.{decode_frame_buffer}
use pi_vccu.Hm.Escape.Overrun.{is_dangling, decode_lem}
use pi_vccu.Hm.Frame.{HmFrame, try_parse_frame}
use pi_vccu.Hm.Frame.RoundTrip.{wire, IsFrame, parse-wire}
use pi_vccu.Hm.Frame.Corrupt.{changed_byte_rejected}

-- The request for the version of the radio firmware, and what a receiver makes of it.
abbrev sample_frame : HmFrame
sample_frame = record { dst = 4; cnt = 1; cmd = 2 ∷ []; cmdlen = 1 }

abbrev sample_read : HmFrame
sample_read = record { dst = 4; cnt = 1; cmd = drop 5 (wire sample_frame); cmdlen = 1 }

sample-IsFrame : IsFrame sample_frame
sample-IsFrame = record {
  dst_byte = omega arith;
  cnt_byte = omega arith;
  not_empty = omega arith;
  fits = omega arith;
  behind_cmd = omega arith;
}

abbrev sample_byte : ℕ
sample_byte = 7

one_byte_detected_example : sample_byte ≡ 7
one_byte_detected_example = one_byte_detected (1 ∷ []) (2 ∷ []) 7 7 (omega arith) (omega arith) refl

decode_lem_example : decode_frame_buffer (1 ∷ 0xfc ∷ 7 ∷ 8 ∷ []) 2 ≡ none
unfolding is_dangling
decode_lem_example = decode_lem (1 ∷ 0xfc ∷ 7 ∷ 8 ∷ []) 2 (omega arith) (omega arith)

sample_parses : try_parse_frame (wire sample_frame) 8 ≡ some sample_read
sample_parses = parse-wire sample_frame [] sample-IsFrame

changed_byte_rejected_example : try_parse_frame (set (wire sample_frame) 3 1) 8 ≡ none
changed_byte_rejected_example =
    changed_byte_rejected (wire sample_frame) 8 3 1 sample_read
      (
        omega arith,
        (
          omega arith,
          (
            omega arith,
            (omega arith, (omega arith, (omega arith, (omega arith, (omega arith, tt))))),
          ),
        ),
      )
      (omega arith) (omega arith) (omega arith) (omega arith) sample_parses
