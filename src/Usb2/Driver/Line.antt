-- ===== src/Usb2/Driver/Line.antt =====
-- The driver of kernel/hb_rf_usb_2.c below the transmitter of kernel/generic_raw_uart.c.
use pi_vccu.Prelude.{
  ℕ, ◌+◌, ◌≤◌, ◌≡◌, refl, sym, ap, ◌∙◌, List, [], ◌++◌, Option, none, some, true, false, Bool, not,
  length, take, drop, take-append_left, arith,
}
use pi_vccu.Prelude.Buffers.{slice, overwrite, length-overwrite, length-slice, overwrite_front}
use pi_vccu.RawUart.Tx.Loop.{IsLine}
use pi_vccu.Usb2.Driver.{Port, buffer_size, handed, submit_write, port_tx_chars, hb_rf_usb_2}

-- The bytes of the transfer that the bus has.
unfoldable pub on_bus : Option (List ℕ) → List ℕ
on_bus none = []
on_bus (some data') = data'

unfoldable pub bus_line : Port → List ℕ
unfolding on_bus
bus_line s = on_bus s.in_flight

-- A port on a bus that takes transfers, with none under way unless `is_in_tx`.
pub record Works (s : Port) : Type 0 where
  pub array : length s.write_buffer ≡ buffer_size
  pub taken : s.submit_fails ≡ false
  pub idle : s.is_in_tx ≡ false → s.in_flight ≡ none

not_busy : (b : Bool) → not b ≡ true → b ≡ false
not_busy b h = ground arith

hands_over :
    (s : Port) (chr : List ℕ) (i n : ℕ)
    → Works s
    → not s.is_in_tx ≡ true
    → n ≤ 11
    → i + n ≤ length chr
    → bus_line (port_tx_chars s chr i n) ≡ bus_line s ++ slice chr i n
unfolding bus_line on_bus port_tx_chars submit_write handed
hands_over s chr i n v ready small inside =
    let bytes = slice chr i n in
    let many : length bytes ≡ n = length-slice chr i n inside in
    let free : s.in_flight ≡ none = v.idle (not_busy s.is_in_tx ready) in
    let filled : overwrite s.write_buffer 0 bytes ≡ bytes ++ drop n s.write_buffer =
      overwrite_front s.write_buffer bytes n (omega (arith, many)) (omega (arith, v.array)) in
    let whole : take n (overwrite s.write_buffer 0 bytes) ≡ bytes =
      ap (take n) filled ∙ take-append_left n bytes _ (omega (arith, many)) in
    ap (λ o. on_bus (handed s.submit_fails o (take n (overwrite s.write_buffer 0 bytes)))) free
    ∙ ap (λ b. on_bus (handed b none (take n (overwrite s.write_buffer 0 bytes)))) v.taken
    ∙ whole
    ∙ ap (λ o. on_bus o ++ bytes) (sym free)

pub hb_rf_usb_2-IsLine : IsLine hb_rf_usb_2 bus_line Works
unfolding port_tx_chars submit_write
hb_rf_usb_2-IsLine = record {
  chars = λ d chr i n v ready some_byte small inside. (
    hands_over d chr i n v ready small inside,
    record {
      array = length-overwrite d.write_buffer 0 (slice chr i n) ∙ v.array;
      taken = v.taken;
      idle = λ h. absurd cc;
    },
  );
  init = λ d v. (refl, v);
  stop = λ d v. (refl, v);
}
