-- ===== src/Detect/Tests.antt =====
-- Concrete runs of detect_radio_module.
use pi_vccu.Prelude.{
  ℕ, ◌≤◌, ◌≡◌, refl, inr, List, [], ◌∷◌, none, some, true, false, length, replicate,
  length-replicate, map, arith,
}
use pi_vccu.Prelude.{◌/◌, ◌%◌}
use pi_vccu.Hm.Crc.{crc_from, crc_byte, crc_bits, crc_bit}
use pi_vccu.Detect.Frame.{HmFrame, plain_bytes, encode, try_parse, crc}
use pi_vccu.Detect.Frame.Escaped.{escape_bytes, escape_frame}
use pi_vccu.Detect.Frame.Same.{IsHmFrame, Reads, of_hm_frame, try_parse-try_parse_frame}
use pi_vccu.Hm.Frame.{try_parse_frame}
use mathlib.Core.Option
use pi_vccu.Detect.Stream.{StreamParser, receive_frame_data, append_all}
use pi_vccu.Detect.Stream.RoundTrip.{IsReady, Delivered, try_parse-append_all-encode}
use pi_vccu.Detect.Stream.Overrun.{Stays, append_all-Stays, raw_parser, append_all-overrun}
use pi_vccu.Detect.Detector.{Detector, get_bidcos_rf_address, handle_frame, acknowledges}
use pi_vccu.Detect.Detector.Moves.{Moves, handle_frame-Moves}
use pi_vccu.Detect.Detector.Run.{Run, query_loop, detect_radio_module, arrivals}
use pi_vccu.Detect.Detector.Run.Ends.{detect_radio_module-ends}
use pi_vccu.Detect.Detector.Run.Endless.{IsRefusal, query_loop-endless}
use pi_vccu.Detect.Detector.Simulated.Module.{
  new_detector, simulated_module, answers, flatten, serve, detected, detect_radio_module-simulated,
}
use pi_vccu.Ring.{CircBuf}
use pi_vccu.Hm.Frame.RoundTrip.{wire}

-- The refusal of an address, as a frame.
abbrev refusal : HmFrame
refusal = record { counter = 7; destination = 3; command = 1; payload = 0 ∷ []; data_len = 1 }

abbrev refusal_front : List ℕ
refusal_front = 0xfd ∷ 0 ∷ 4 ∷ 3 ∷ 7 ∷ 1 ∷ 0 ∷ []

refusal-IsHmFrame : IsHmFrame refusal
refusal-IsHmFrame = record {
  counter_byte = omega arith;
  destination_byte = omega arith;
  command_byte = omega arith;
  fits = omega arith;
  behind = omega arith;
}

unfoldable zeroes : List ℕ
zeroes = replicate 2048 0

length-zeroes : length zeroes ≡ 2048
unfolding zeroes
length-zeroes = let zero_byte : ℕ = 0 in length-replicate 2048 zero_byte

-- A parser in the middle of a frame.
abbrev busy_parser : StreamParser
busy_parser = record {
  buffer = zeroes;
  buffer_pos = 9;
  frame_pos = 6;
  frame_length = 40;
  state = receive_frame_data;
  is_escaped = true;
  decode_escaped = true;
}

busy-IsReady : IsReady busy_parser
busy-IsReady = record { array = length-zeroes; decodes = refl }

fits_nineteen : length (escape_frame (plain_bytes refusal)) ≤ 19
unfolding escape_frame escape_bytes plain_bytes crc crc_from crc_byte crc_bits crc_bit
fits_nineteen = omega arith

try_parse-append_all-encode_example :
    (line : List ℕ) × (encode refusal 19 true ≡ some line)
    × Delivered (plain_bytes refusal) (append_all line busy_parser)
    × Reads refusal (try_parse (plain_bytes refusal) (length (plain_bytes refusal)))
try_parse-append_all-encode_example =
    try_parse-append_all-encode refusal 19 busy_parser busy-IsReady refusal-IsHmFrame (omega arith)
      fits_nineteen

abbrev short_buffer : List ℕ
short_buffer = 0xfd ∷ 0 ∷ 3 ∷ 3 ∷ 7 ∷ 1 ∷ 0 ∷ 0 ∷ []

try_parse-try_parse_frame_example :
    try_parse short_buffer 8 ≡ Option.map of_hm_frame (try_parse_frame short_buffer 8)
try_parse-try_parse_frame_example =
    try_parse-try_parse_frame short_buffer 8 (omega arith) (omega arith)

append_all-Stays_example : Stays (append_all (0xfd ∷ 0xfc ∷ 7 ∷ []) busy_parser)
append_all-Stays_example =
    append_all-Stays (0xfd ∷ 0xfc ∷ 7 ∷ []) busy_parser
      (record { decodes = refl; inside = inr (omega arith) })

append_all-overrun_example : append_all (replicate 4 0xfc) (raw_parser 0 0 false zeroes 2045) ≡ none
append_all-overrun_example = append_all-overrun 3 0 0 false zeroes 2045 (omega arith)

-- A detector that asks a HM-MOD-RPI-PCB for its address.
abbrev asking : Detector
asking = record {
  detect_state = get_bidcos_rf_address;
  detect_retry_count = 0;
  detect_msg_counter = 9;
  radio_module_type = 3;
  serial = [];
  bidcos_radio_mac = 0;
  hmip_radio_mac = 0x4f68f1;
  sgtin = [];
  firmware_version = 2 ∷ 8 ∷ 6 ∷ [];
  sem = 0;
  sent = [];
}

parses :
    try_parse (plain_bytes refusal) (length (plain_bytes refusal))
    ≡ some (record refusal {
      payload = 0 ∷ crc refusal_front / 256 % 256 ∷ crc refusal_front % 256 ∷ [];
    })
unfolding try_parse plain_bytes crc crc_from crc_byte crc_bits crc_bit
parses = refl

refuses : IsRefusal (plain_bytes refusal)
unfolding acknowledges
refuses = record { frame = _; parsed = parses; refuses = refl }

query_loop-endless_example :
    query_loop 3 (record { waits = replicate 3 (plain_bytes refusal ∷ []); detector = asking })
    ≡ none
query_loop-endless_example =
    query_loop-endless 3 (plain_bytes refusal) asking refuses
      (record { state = refl; kind = refl; idle = refl })

one_arrival : arrivals ((short_buffer ∷ []) ∷ []) ≡ 1
unfolding arrivals
one_arrival = refl

handle_frame-Moves_example : Moves asking (handle_frame short_buffer asking)
handle_frame-Moves_example = handle_frame-Moves short_buffer asking

detect_radio_module-ends_example :
    (s : Run) × (detect_radio_module 5
        (record { waits = (short_buffer ∷ []) ∷ []; detector = asking })
      ≡ some s)
detect_radio_module-ends_example =
    detect_radio_module-ends 5 (record { waits = (short_buffer ∷ []) ∷ []; detector = asking })
      (omega (arith, one_arrival))

abbrev empty_ring : CircBuf ℕ
empty_ring = record { buf = []; head = 0; tail = 0 }

-- The module with the version, the address and the serial number that it is loaded with.
detect_radio_module-simulated_example :
    let module' = simulated_module empty_ring 2 8 6 0x4f 0x68 0xf1 70 75 69 49 50 51 52 53 54 55 in
    let found = detected empty_ring 2 8 6 0x4f 0x68 0xf1 70 75 69 49 50 51 52 53 54 55 in
    (detect_radio_module 20
        (record { waits = map (map wire) (answers module'); detector = new_detector })
      ≡ some (record { waits = []; detector = found }))
    × (serve found.sent module' ≡ flatten (answers module'))
detect_radio_module-simulated_example =
    detect_radio_module-simulated empty_ring 2 8 6 0x4f 0x68 0xf1 70 75 69 49 50 51 52 53 54 55
