-- ===== src/Rtc/Control/Ranges.antt =====
-- The registers that rx8130_ioctl of kernel/rtc-rx8130.c reaches.
use pi_vccu.Prelude.{
  ℕ, ◌<◌, ◌≡◌, refl, sym, ap, subst, ◌∙◌, ◌⊎◌, none, some, Bool, true, false, ◌==◌, arith,
}
use pi_vccu.Prelude.Bits.Single.{bit}
use pi_vccu.Kernel.Call.{⊤, value, pure, bind_cases, value-injective, fail_if, ◌>>=◌, ◌>>◌}
use pi_vccu.Kernel.{efault}
use pi_vccu.Rtc.{I2c, Rtc, read_reg, write_reg, clear_bits, has_bits}
use pi_vccu.Rtc.Chip.{
  Registers, peek, read_reg-ReadFrom, write_reg-WrittenTo, read_reg-peek, write_reg-peek,
}
use pi_vccu.Rtc.Masks.{clear_bits-byte, bit-clear_bits_in, has_bits_one}
use pi_vccu.Rtc.Control.{
  RegData, RtcIoctl, reg_read, reg_write, vl_read, vl_clr, other_command, RtcReply, reg_reply,
  vl_reply, nothing, ioctl, out_of_range,
}

module _ {B : Type 0} (i2c : I2c B) (chip : Registers i2c) where
  -- No call, whether it succeeds or fails, changes a register outside 0x10 to 0x23.
  pub ioctl-peek :
      (copied : Bool) (cmd : RtcIoctl) (s : Rtc B) (m : ℕ)
      → (m < 16) ⊎ (35 < m)
      → peek i2c chip (ioctl i2c copied cmd s).1 m ≡ peek i2c chip s m
  unfolding ioctl
  ioctl-peek copied (reg_read none) s m h = refl
  ioctl-peek copied (reg_read (some reg)) s m h =
      ground (arith, read_reg-peek i2c chip reg.number m s)
  ioctl-peek copied (reg_write none) s m h = refl
  ioctl-peek copied (reg_write (some reg)) s m h =
      ground (arith, write_reg-peek i2c chip reg.number reg.reg_value m s)
  ioctl-peek copied vl_read s m h = ground (arith, read_reg-peek i2c chip 29 m s)
  ioctl-peek copied vl_clr s m h = grind (arith, read_reg-peek i2c chip, write_reg-peek i2c chip)
  ioctl-peek copied other_command s m h = refl

  -- A byte that one call has written to a register in the range is what the next call reads from
  -- it.
  pub reg_read-reg_write :
      (n v x : ℕ) (s t u : Rtc B) (reply : RtcReply)
      → v < 256
      → ioctl i2c true (reg_write (some (record { number = n; reg_value = v }))) s
        ≡ (value nothing, t)
      → ioctl i2c true (reg_read (some (record { number = n; reg_value = x }))) t ≡ (value reply, u)
      → reply ≡ reg_reply (record { number = n; reg_value = v })
  unfolding ioctl
  reg_read-reg_write n v x s t u reply h e f =
      let reg : RegData = record { number = n; reg_value = x } in
      let (o1, a, p1, q1) =
        bind_cases (λ (r : ⊤). write_reg i2c n v >> pure nothing) nothing t
          (fail_if (out_of_range n) efault) s e in
      let (o2, b, p2, q2) =
        bind_cases (λ (r : ⊤). pure nothing) nothing t (write_reg i2c n v) a q1 in
      let answer =
        λ (c : ℕ). fail_if false efault >> pure (reg_reply (record reg { reg_value = c })) in
      let (o3, c, p3, q3) =
        bind_cases (λ (r : ⊤). read_reg i2c n >>= answer) reply u (fail_if (out_of_range n) efault)
          t f in
      let (z, d, p4, q4) = bind_cases answer reply u (read_reg i2c n) c q3 in
      let kept = write_reg-WrittenTo i2c chip n v a b h p2 in
      let read = read_reg-ReadFrom i2c chip n z c d p4 in
      let ask = value-injective tt o3 t c cc in
      let same : z ≡ v =
        read.content
        ∙ ap (λ (x : Rtc B). peek i2c chip x n)
            (sym ask.1 ∙ sym (value-injective nothing nothing b t q2).1)
        ∙ kept.stored in
      sym (value-injective (reg_reply (record reg { reg_value = z })) reply d u q4).0
      ∙ ap (λ (y : ℕ). reg_reply (record reg { reg_value = y })) same

  -- Once the flag for a voltage loss has been cleared, the next call reads it as clear.
  pub vl_read-vl_clr :
      (s t u : Rtc B) (reply : RtcReply)
      → ioctl i2c true vl_clr s ≡ (value nothing, t)
      → ioctl i2c true vl_read t ≡ (value reply, u)
      → reply ≡ vl_reply false
  unfolding ioctl
  vl_read-vl_clr s t u reply e f =
      let (v, a, p, q) =
        bind_cases (λ flags. write_reg i2c 29 (clear_bits flags 2) >> pure nothing) nothing t
          (read_reg i2c 29) s e in
      let byte : v < 256 =
        subst (λ (x : ℕ). x < 256) (sym (read_reg-ReadFrom i2c chip 29 v s a p).content)
          (chip.reg_byte s.bus 29) in
      let (w, b, p', q') =
        bind_cases (λ (r : ⊤). pure nothing) nothing t (write_reg i2c 29 (clear_bits v 2)) a q in
      let answer = λ (c : ℕ). fail_if false efault >> pure (vl_reply (has_bits c 2)) in
      let (z, d, p2, q2) = bind_cases answer reply u (read_reg i2c 29) t f in
      let cleared =
        write_reg-WrittenTo i2c chip 29 (clear_bits v 2) a b (clear_bits-byte v 2 byte) p' in
      let same : z ≡ clear_bits v 2 =
        (read_reg-ReadFrom i2c chip 29 z t d p2).content
        ∙ ap (λ (x : Rtc B). peek i2c chip x 29) (sym (value-injective nothing nothing b t q').1)
        ∙ cleared.stored in
      let off : has_bits z 2 ≡ false =
        has_bits_one 1 z
        ∙ ap (λ (y : ℕ). y == 1) (ap (bit 1) same ∙ bit-clear_bits_in 1 v 2 refl) in
      sym (value-injective (vl_reply (has_bits z 2)) reply d u q2).0 ∙ ap vl_reply off
