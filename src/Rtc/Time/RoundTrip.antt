-- ===== src/Rtc/Time/RoundTrip.antt =====
-- The clock of kernel/rtc-rx8130.c keeps the time that it is set to.
use pi_vccu.Prelude.{
  ℕ, ◌+◌, ◌-◌, ◌/◌, ◌%◌, ◌^◌, ◌≤◌, ◌<◌, ◌≡◌, refl, sym, ap, ◌∙◌, List, length, get_or, inl, inr,
  Option, bit_and, bit_or, zero, suc, ltb, if◌then◌else◌, arith,
}
use pi_vccu.Prelude.Bits.Single.{bit_and_five_bits, bit_and_six_bits, bit_and_seven_bits}
use pi_vccu.Kernel.{Errno}
use pi_vccu.Kernel.Call.{⊤, Result, value, kept, Result-cases}
use pi_vccu.Rtc.{I2c, Bcd, Rtc, read_reg, write_regs, write_ctrlreg, clear_bits, read_regs}
use pi_vccu.Rtc.Chip.{
  Registers, peek, read_reg-peek, write_ctrlreg-peek, write_regs_value, read_regs_value,
}
use pi_vccu.Rtc.Time.{RtcTime, rem_int, time_of, date_of, get_time, set_time}

-- The times from 1970 to 2069, in the ranges that `rtc_valid_tm` allows.
pub record IsTime (t : RtcTime) : Type 0 where
  pub sec : t.tm_sec < 60
  pub minute : t.tm_min < 60
  pub hour : t.tm_hour < 24
  pub mday : t.tm_mday < 32
  pub mon : t.tm_mon < 12
  pub since : 70 ≤ t.tm_year
  pub until : t.tm_year < 170
  pub wday : t.tm_wday < 7

module _ (bcd : Bcd) where
  bin2bcd-byte : (n : ℕ) → n < 100 → bcd.bin2bcd n < 256
  bin2bcd-byte n h = omega (arith, bcd.bin2bcd_lem n h)

  pub bcd2bin-bin2bcd : (n : ℕ) → n < 100 → bcd.bcd2bin (bcd.bin2bcd n) ≡ n
  bcd2bin-bin2bcd n h =
      rw (bcd.bin2bcd_lem n h)
        (omega (arith, bcd.bcd2bin_lem (n / 10) (n % 10) (omega arith) (omega arith)))

  -- The masks keep the digits of a value that is small enough.
  pub masked_seven : (n : ℕ) → n < 80 → bcd.bcd2bin (bit_and (bcd.bin2bcd n) 127) ≡ n
  masked_seven n h =
      let e : bit_and (bcd.bin2bcd n) 127 ≡ bcd.bin2bcd n =
        omega (arith, bit_and_seven_bits (bcd.bin2bcd n), bcd.bin2bcd_lem n (omega arith)) in
      rw e (bcd2bin-bin2bcd n (omega arith))

  pub masked_six : (n : ℕ) → n < 40 → bcd.bcd2bin (bit_and (bcd.bin2bcd n) 63) ≡ n
  masked_six n h =
      let e : bit_and (bcd.bin2bcd n) 63 ≡ bcd.bin2bcd n =
        omega (arith, bit_and_six_bits (bcd.bin2bcd n), bcd.bin2bcd_lem n (omega arith)) in
      rw e (bcd2bin-bin2bcd n (omega arith))

  masked_five : (n : ℕ) → n < 20 → bcd.bcd2bin (bit_and (bcd.bin2bcd n) 31) ≡ n
  masked_five n h =
      let e : bit_and (bcd.bin2bcd n) 31 ≡ bcd.bin2bcd n =
        omega (arith, bit_and_five_bits (bcd.bin2bcd n), bcd.bin2bcd_lem n (omega arith)) in
      rw e (bcd2bin-bin2bcd n (omega arith))

  rem_int_year : (y : ℕ) → 70 ≤ y → y < 170 → rem_int y 100 ≡ y % 100
  unfolding rem_int
  rem_int_year y h g = ground arith

  month :
      (m : ℕ)
      → m < 12
      → (bcd.bcd2bin (bit_and (bcd.bin2bcd ((m + 1) % 2 ^ 32)) 31) + (2 ^ 32 - 1)) % 2 ^ 32 ≡ m
  month m h =
      let e : (m + 1) % 2 ^ 32 ≡ m + 1 = omega arith in
      rw (e, masked_five (m + 1) (omega arith)) (omega arith)

  century :
      (y : ℕ)
      → 70 ≤ y
      → y < 170
      → (let z = bcd.bcd2bin (bcd.bin2bcd (rem_int y 100)) in if ltb z 70 then z + 100 else z) ≡ y
  century y h g = rw (rem_int_year y h g, bcd2bin-bin2bcd (y % 100) (omega arith)) (ground arith)

  time_of-date_of : (t : RtcTime) → IsTime t → time_of bcd (date_of bcd t) ≡ t
  unfolding time_of date_of
  time_of-date_of t h = rw (
    masked_seven t.tm_sec (omega arith),
    masked_seven t.tm_min (omega arith),
    masked_six t.tm_hour (omega arith),
    masked_six t.tm_mday (omega arith),
    month t.tm_mon h.mon,
    century t.tm_year h.since h.until,
    masked_seven t.tm_wday (omega arith),
  )

  -- Only the seven registers count.
  time_of-agree :
      (vs ws : List ℕ)
      → ((i : ℕ) → i < 7 → get_or vs i 0 ≡ get_or ws i 0)
      → time_of bcd vs ≡ time_of bcd ws
  unfolding time_of
  time_of-agree vs ws h = rw (
    h 0 (omega arith),
    h 1 (omega arith),
    h 2 (omega arith),
    h 3 (omega arith),
    h 4 (omega arith),
    h 5 (omega arith),
    h 6 (omega arith),
  )

  date_of-byte : (t : RtcTime) → IsTime t → (i : ℕ) → i < 7 → get_or (date_of bcd t) i 0 < 256
  unfolding date_of
  date_of-byte t h zero l = bin2bcd-byte t.tm_sec (omega arith)
  date_of-byte t h (suc zero) l = bin2bcd-byte t.tm_min (omega arith)
  date_of-byte t h (suc (suc zero)) l = bin2bcd-byte t.tm_hour (omega arith)
  date_of-byte t h (suc (suc (suc zero))) l = bin2bcd-byte t.tm_wday (omega arith)
  date_of-byte t h (suc (suc (suc (suc zero)))) l = bin2bcd-byte t.tm_mday (omega arith)
  date_of-byte t h (suc (suc (suc (suc (suc zero))))) l =
      bin2bcd-byte ((t.tm_mon + 1) % 2 ^ 32) (omega arith)
  date_of-byte t h (suc (suc (suc (suc (suc (suc zero)))))) l =
      bin2bcd-byte (rem_int t.tm_year 100) (omega (arith, rem_int_year t.tm_year h.since h.until))
  date_of-byte t h (suc (suc (suc (suc (suc (suc (suc i))))))) l = absurd (omega arith)

  length-date_of : (t : RtcTime) → length (date_of bcd t) ≡ 7
  unfolding date_of
  length-date_of t = refl

  module _ {B : Type 0} (i2c : I2c B) (chip : Registers i2c) where
    -- What a `set_time` that succeeds leaves in the registers of the clock.
    set_time-peek :
        (junk : ℕ) (t : RtcTime) (s u : Rtc B)
        → IsTime t
        → set_time bcd i2c junk t s ≡ (value tt, u)
        → (i : ℕ) → i < 7
        → peek i2c chip u (16 + i) ≡ get_or (date_of bcd t) i 0
    unfolding set_time
    set_time-peek junk t s u h e i l =
        let d = date_of bcd t in
        let first =
          (write_ctrlreg i2c (bit_or (kept (read_reg i2c 30 s).0 junk) 64)
            (read_reg i2c 30 s).1).1 in
        let ok : (write_regs i2c 16 d first).0 ≡ value tt = cc in
        let stored = (write_regs i2c 16 d first).1 in
        let again = read_reg i2c 30 stored in
        let last : peek i2c chip u (16 + i) ≡ peek i2c chip again.1 (16 + i) =
          ap (λ (x : Rtc B). peek i2c chip x (16 + i)) (sym (ap (λ (p : Result ⊤ × Rtc B). p.1) e))
          ∙ write_ctrlreg-peek i2c chip
              (clear_bits (kept again.0 (kept (read_reg i2c 30 s).0 junk)) 64) (16 + i) again.1
              (omega arith) in
        last
        ∙ read_reg-peek i2c chip 30 (16 + i) stored
        ∙ write_regs_value i2c chip 16 i d first (omega (arith, length-date_of t))
            (date_of-byte t h i l) ok

    -- A time that is read comes from the seven registers.
    get_time_value :
        (valid : RtcTime → Option Errno) (s : Rtc B) (t : RtcTime)
        → (get_time bcd i2c valid s).0 ≡ value t
        → (vs : List ℕ) → ((i : ℕ) → i < 7 → peek i2c chip s (16 + i) ≡ get_or vs i 0)
        → t ≡ time_of bcd vs
    unfolding get_time
    get_time_value valid s t e vs h = elim (Result-cases (read_regs i2c 16 7 s).0) [
      | inl (ws, f) ↦
          let agree =
            time_of-agree ws vs (λ i l. read_regs_value i2c chip 16 7 i ws s f l ∙ h i l) in
          ground (arith, agree)
      | inr (er, f) ↦ ground arith
    ]

    -- The same for any later state with these registers.
    pub get_time_later :
        (valid : RtcTime → Option Errno) (junk : ℕ) (t t' : RtcTime) (s u w : Rtc B)
        → IsTime t
        → set_time bcd i2c junk t s ≡ (value tt, u)
        → ((m : ℕ) → peek i2c chip w m ≡ peek i2c chip u m)
        → (get_time bcd i2c valid w).0 ≡ value t'
        → t' ≡ t
    get_time_later valid junk t t' s u w h e same f =
        get_time_value valid w t' f (date_of bcd t)
          (λ i l. same (16 + i) ∙ set_time-peek junk t s u h e i l)
        ∙ time_of-date_of t h

    -- For a time from 1970 to 2069, in the ranges of its fields: when `set_time` has reported
    -- success, a `get_time` that reports success gives that time, whatever other calls on the bus
    -- have failed.
    pub get_time-set_time :
        (valid : RtcTime → Option Errno) (junk : ℕ) (t t' : RtcTime) (s u : Rtc B)
        → IsTime t
        → set_time bcd i2c junk t s ≡ (value tt, u)
        → (get_time bcd i2c valid u).0 ≡ value t'
        → t' ≡ t
    get_time-set_time valid junk t t' s u h e f =
        get_time_later valid junk t t' s u u h e (λ m. refl) f

    -- Where block writes do not fail, `set_time` reports success.
    pub set_time-works :
        (junk : ℕ) (t : RtcTime) (s : Rtc B)
        → ((n : ℕ) (vs : List ℕ) (x : B) → (i2c.write_block_data n vs x).0 ≡ value tt)
        → (u : Rtc B) × (set_time bcd i2c junk t s ≡ (value tt, u))
    unfolding set_time write_regs
    set_time-works junk t s works =
        let first =
          (write_ctrlreg i2c (bit_or (kept (read_reg i2c 30 s).0 junk) 64)
            (read_reg i2c 30 s).1).1 in
        (
          (set_time bcd i2c junk t s).1,
          ap (λ (r : Result ⊤). (r, (set_time bcd i2c junk t s).1))
              (works 16 (date_of bcd t) first.bus),
        )
