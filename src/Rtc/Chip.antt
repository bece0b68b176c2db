-- ===== src/Rtc/Chip.antt =====
-- The chip behind the bus of kernel/rtc-rx8130.c: what its registers keep, for a bus whose calls
-- may fail at any time.
use pi_vccu.Prelude.{ℕ, ◌+◌, ◌<◌, ◌≤◌, ◌≡◌, ◌≢◌, sym, ap, ◌∙◌, List, length, get_or, ◌⊎◌, arith}
use pi_vccu.Kernel.Call.{⊤, Result, value}
use pi_vccu.Rtc.{I2c, Rtc, read_reg, read_regs, write_reg, write_regs, write_ctrlreg}

-- The registers are bytes and keep what was last written to them, and nothing else writes them
-- meanwhile. A call that succeeds has read or written its register; a call that fails says nothing
-- about it, but has left the other registers alone.
pub record Registers {B : Type 0} (i2c : I2c B) : Type 0 where
  pub reg : B → ℕ → ℕ
  pub reg_byte : (b : B) (n : ℕ) → reg b n < 256
  pub read_value : (n v : ℕ) (b : B) → (i2c.read_byte_data n b).0 ≡ value v → v ≡ reg b n
  pub read_keeps : (n m : ℕ) (b : B) → reg (i2c.read_byte_data n b).1 m ≡ reg b m
  pub read_block_value :
      (n len i : ℕ) (vs : List ℕ) (b : B)
      → (i2c.read_block_data n len b).0 ≡ value vs
      → i < length vs
      → get_or vs i 0 ≡ reg b (n + i)
  pub read_block_keeps : (n len m : ℕ) (b : B) → reg (i2c.read_block_data n len b).1 m ≡ reg b m
  pub write_value :
      (n v : ℕ) (b : B)
      → v < 256
      → (i2c.write_byte_data n v b).0 ≡ value tt
      → reg (i2c.write_byte_data n v b).1 n ≡ v
  pub write_keeps : (n v m : ℕ) (b : B) → m ≢ n → reg (i2c.write_byte_data n v b).1 m ≡ reg b m
  pub write_block_value :
      (n i : ℕ) (vs : List ℕ) (b : B)
      → i < length vs
      → get_or vs i 0 < 256
      → (i2c.write_block_data n vs b).0 ≡ value tt
      → reg (i2c.write_block_data n vs b).1 (n + i) ≡ get_or vs i 0
  pub write_block_keeps :
      (n m : ℕ) (vs : List ℕ) (b : B)
      → (m < n) ⊎ (n + length vs ≤ m)
      → reg (i2c.write_block_data n vs b).1 m ≡ reg b m

module _ {B : Type 0} (i2c : I2c B) (chip : Registers i2c) where
  -- The driver's functions, on these registers.
  abbrev pub peek : Rtc B → ℕ → ℕ
  peek s n = chip.reg s.bus n

  pub read_reg-peek : (n m : ℕ) (s : Rtc B) → peek (read_reg i2c n s).1 m ≡ peek s m
  unfolding read_reg
  read_reg-peek n m s = ground (arith, chip.read_keeps n m s.bus)

  pub read_reg_value : (n v : ℕ) (s : Rtc B) → (read_reg i2c n s).0 ≡ value v → v ≡ peek s n
  unfolding read_reg
  read_reg_value n v s h = grind (arith, chip.read_value, chip.reg_byte)

  pub read_regs-peek : (n len m : ℕ) (s : Rtc B) → peek (read_regs i2c n len s).1 m ≡ peek s m
  unfolding read_regs
  read_regs-peek n len m s = ground (arith, chip.read_block_keeps n len m s.bus)

  pub read_regs_value :
      (n len i : ℕ) (vs : List ℕ) (s : Rtc B)
      → (read_regs i2c n len s).0 ≡ value vs
      → i < len
      → get_or vs i 0 ≡ peek s (n + i)
  unfolding read_regs
  read_regs_value n len i vs s h g = grind (arith, chip.read_block_value)

  pub write_reg_value :
      (n v : ℕ) (s : Rtc B)
      → v < 256
      → (write_reg i2c n v s).0 ≡ value tt
      → peek (write_reg i2c n v s).1 n ≡ v
  unfolding write_reg
  write_reg_value n v s b h = chip.write_value n v s.bus b h

  pub write_reg-peek : (n v m : ℕ) (s : Rtc B) → m ≢ n → peek (write_reg i2c n v s).1 m ≡ peek s m
  unfolding write_reg
  write_reg-peek n v m s h = chip.write_keeps n v m s.bus h

  pub write_regs_value :
      (n i : ℕ) (vs : List ℕ) (s : Rtc B)
      → i < length vs
      → get_or vs i 0 < 256
      → (write_regs i2c n vs s).0 ≡ value tt
      → peek (write_regs i2c n vs s).1 (n + i) ≡ get_or vs i 0
  unfolding write_regs
  write_regs_value n i vs s l b h = chip.write_block_value n i vs s.bus l b h

  pub write_regs-peek :
      (n m : ℕ) (vs : List ℕ) (s : Rtc B)
      → (m < n) ⊎ (n + length vs ≤ m)
      → peek (write_regs i2c n vs s).1 m ≡ peek s m
  unfolding write_regs
  write_regs-peek n m vs s h = chip.write_block_keeps n m vs s.bus h

  pub write_ctrlreg-peek :
      (v m : ℕ) (s : Rtc B) → m ≢ 30 → peek (write_ctrlreg i2c v s).1 m ≡ peek s m
  unfolding write_ctrlreg
  write_ctrlreg-peek v m s h = write_reg-peek 30 v m (record s { ctrlreg = v }) h

  pub write_ctrlreg_value :
      (v : ℕ) (s : Rtc B)
      → v < 256
      → (write_ctrlreg i2c v s).0 ≡ value tt
      → peek (write_ctrlreg i2c v s).1 30 ≡ v
  unfolding write_ctrlreg
  write_ctrlreg_value v s b h = write_reg_value 30 v (record s { ctrlreg = v }) b h

  -- What a read that succeeds gives: the register, with all registers and events as they were.
  pub record ReadFrom (n v : ℕ) (s t : Rtc B) : Type 0 where
    pub content : v ≡ peek s n
    pub same : (m : ℕ) → peek t m ≡ peek s m
    pub same_ctrlreg : t.ctrlreg ≡ s.ctrlreg
    pub same_events : t.events ≡ s.events
    pub same_timer : t.aie_timer_enabled ≡ s.aie_timer_enabled

  pub read_reg-ReadFrom :
      (n v : ℕ) (s t : Rtc B) → read_reg i2c n s ≡ (value v, t) → ReadFrom n v s t
  unfolding read_reg
  read_reg-ReadFrom n v s t e = record {
    content = read_reg_value n v s (ap (λ (p : Result ℕ × Rtc B). p.0) e);
    same = λ m. ap (λ (p : Result ℕ × Rtc B). peek p.1 m) (sym e) ∙ read_reg-peek n m s;
    same_ctrlreg = ground arith;
    same_events = ground arith;
    same_timer = ground arith;
  }

  -- What a write that succeeds leaves.
  pub record WrittenTo (n v : ℕ) (s t : Rtc B) : Type 0 where
    pub stored : peek t n ≡ v
    pub others : (m : ℕ) → m ≢ n → peek t m ≡ peek s m
    pub same_ctrlreg : t.ctrlreg ≡ s.ctrlreg
    pub same_events : t.events ≡ s.events
    pub same_timer : t.aie_timer_enabled ≡ s.aie_timer_enabled

  pub write_reg-WrittenTo :
      (n v : ℕ) (s t : Rtc B) → v < 256 → write_reg i2c n v s ≡ (value tt, t) → WrittenTo n v s t
  unfolding write_reg
  write_reg-WrittenTo n v s t b e =
      let back : t ≡ (write_reg i2c n v s).1 = ap (λ (p : Result ⊤ × Rtc B). p.1) (sym e) in
      record {
        stored =
            ap (λ (x : Rtc B). peek x n) back
            ∙ write_reg_value n v s b (ap (λ (p : Result ⊤ × Rtc B). p.0) e);
        others = λ m h. ap (λ (x : Rtc B). peek x m) back ∙ write_reg-peek n v m s h;
        same_ctrlreg = ap (λ (x : Rtc B). x.ctrlreg) back;
        same_events = ap (λ (x : Rtc B). x.events) back;
        same_timer = ap (λ (x : Rtc B). x.aie_timer_enabled) back;
      }

  -- What a call that writes at most the control register leaves, with the driver's copy of it.
  pub record Controlled (v : ℕ) (s t : Rtc B) : Type 0 where
    pub copied : t.ctrlreg ≡ v
    pub elsewhere : (m : ℕ) → m ≢ 30 → peek t m ≡ peek s m
    pub timer : t.aie_timer_enabled ≡ s.aie_timer_enabled

  pub write_ctrlreg-Controlled :
      (v : ℕ) (s t : Rtc B) → write_ctrlreg i2c v s ≡ (value tt, t) → Controlled v s t
  unfolding write_ctrlreg write_reg
  write_ctrlreg-Controlled v s t e =
      let back : t ≡ (write_ctrlreg i2c v s).1 = ap (λ (p : Result ⊤ × Rtc B). p.1) (sym e) in
      record {
        copied = ap (λ (x : Rtc B). x.ctrlreg) back;
        elsewhere = λ m h. ap (λ (x : Rtc B). peek x m) back ∙ write_ctrlreg-peek v m s h;
        timer = ap (λ (x : Rtc B). x.aie_timer_enabled) back;
      }

  pub Controlled-refl : (s t : Rtc B) → s ≡ t → Controlled s.ctrlreg s t
  Controlled-refl s t e = record {
    copied = ap (λ (x : Rtc B). x.ctrlreg) (sym e);
    elsewhere = λ m h. ap (λ (x : Rtc B). peek x m) (sym e);
    timer = ap (λ (x : Rtc B). x.aie_timer_enabled) (sym e);
  }

  -- What a block write that succeeds leaves.
  pub record BlockWritten (n : ℕ) (vs : List ℕ) (s t : Rtc B) : Type 0 where
    pub stored : (i : ℕ) → i < length vs → get_or vs i 0 < 256 → peek t (n + i) ≡ get_or vs i 0
    pub same_ctrlreg : t.ctrlreg ≡ s.ctrlreg
    pub same_timer : t.aie_timer_enabled ≡ s.aie_timer_enabled

  pub write_regs-BlockWritten :
      (n : ℕ) (vs : List ℕ) (s t : Rtc B)
      → write_regs i2c n vs s ≡ (value tt, t)
      → BlockWritten n vs s t
  unfolding write_regs
  write_regs-BlockWritten n vs s t e =
      let back : t ≡ (write_regs i2c n vs s).1 = ap (λ (p : Result ⊤ × Rtc B). p.1) (sym e) in
      record {
        stored = λ i l b.
            ap (λ (x : Rtc B). peek x (n + i)) back
            ∙ write_regs_value n i vs s l b (ap (λ (p : Result ⊤ × Rtc B). p.0) e);
        same_ctrlreg = ap (λ (x : Rtc B). x.ctrlreg) back;
        same_timer = ap (λ (x : Rtc B). x.aie_timer_enabled) back;
      }

  -- What a block read that succeeds gives.
  pub record BlockRead (n len : ℕ) (vs : List ℕ) (s t : Rtc B) : Type 0 where
    pub content : (i : ℕ) → i < len → get_or vs i 0 ≡ peek s (n + i)
    pub same : (m : ℕ) → peek t m ≡ peek s m
    pub same_ctrlreg : t.ctrlreg ≡ s.ctrlreg

  pub read_regs-BlockRead :
      (n len : ℕ) (vs : List ℕ) (s t : Rtc B)
      → read_regs i2c n len s ≡ (value vs, t)
      → BlockRead n len vs s t
  unfolding read_regs
  read_regs-BlockRead n len vs s t e = record {
    content = λ i l. read_regs_value n len i vs s (ap (λ (p : Result (List ℕ) × Rtc B). p.0) e) l;
    same = λ m. ap (λ (p : Result (List ℕ) × Rtc B). peek p.1 m) (sym e) ∙ read_regs-peek n len m s;
    same_ctrlreg = ground arith;
  }
