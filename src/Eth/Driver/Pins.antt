-- ===== src/Eth/Driver/Pins.antt =====
-- The pins of kernel/hb_rf_eth.c: what is set is read back, and it is the value that is sent.
use pi_vccu.Prelude.{
  ℕ, zero, suc, ◌-◌, ◌*◌, ◌^◌, ◌<◌, ◌≡◌, refl, sym, ap, ◌∙◌, List, [], ◌∷◌, Bool, true, false,
  Bool-cases, inl, inr, bit_and, bit_or, min, max, ◌==◌, if◌then◌else◌, arith,
}
use pi_vccu.Prelude.Bits.{bit_and-one_bit}
use pi_vccu.Prelude.Bits.Single.{bit, bit-bit_and, bit-bit_or}
use pi_vccu.Kernel.{CircMacros}
use pi_vccu.Eth.{Eth, queue_msg}
use pi_vccu.Eth.Driver.{send_gpio, gpio_set, gpio_get}

queue_msg-gpio_value :
    (circ : CircMacros) (cmd : ℕ) (bytes : List ℕ) (s : Eth)
    → (queue_msg circ cmd bytes s).gpio_value ≡ s.gpio_value
unfolding queue_msg
queue_msg-gpio_value circ cmd bytes s = ground arith

-- The masks of the three pins.
pin_masks :
    (g h : ℕ)
    → g < 3
    → h < 3
    → (bit h (255 - 2 ^ g) ≡ (if h == g then 0 else 1))
      × (bit h (2 ^ g) ≡ (if h == g then 1 else 0))
pin_masks zero zero a b = (refl, refl)
pin_masks zero (suc zero) a b = (refl, refl)
pin_masks zero (suc (suc zero)) a b = (refl, refl)
pin_masks (suc zero) zero a b = (refl, refl)
pin_masks (suc zero) (suc zero) a b = (refl, refl)
pin_masks (suc zero) (suc (suc zero)) a b = (refl, refl)
pin_masks (suc (suc zero)) zero a b = (refl, refl)
pin_masks (suc (suc zero)) (suc zero) a b = (refl, refl)
pin_masks (suc (suc zero)) (suc (suc zero)) a b = (refl, refl)
pin_masks (suc (suc (suc g))) h a b = absurd (omega arith)
pin_masks g (suc (suc (suc h))) a b = absurd (omega arith)

cleared_bit :
    (c : Bool) (x y : ℕ) → y ≡ (if c then 0 else 1) → x < 2 → min x y ≡ (if c then 0 else x)
cleared_bit true x y h l = omega arith
cleared_bit false x y h l = omega arith

kept_bit : (c : Bool) (x y : ℕ) → y ≡ (if c then 1 else 0) → x < 2 → max x y ≡ (if c then 1 else x)
kept_bit true x y h l = omega arith
kept_bit false x y h l = omega arith

scaled :
    (c d : Bool) (b x y : ℕ)
    → (c ≡ true → x ≡ y)
    → (if c then (if d then 0 else 1) else b) * x ≡ (if c then (if d then 0 else y) else b * x)
scaled true true b x y h = omega arith
scaled true false b x y h = omega (arith, h refl)
scaled false d b x y h = refl

module _ (circ : CircMacros) (s : Eth) where
  set_bit :
      (g h v : ℕ)
      → g < 3
      → h < 3
      → bit h (if v == 0 then bit_and s.gpio_value (255 - 2 ^ g) else bit_or s.gpio_value (2 ^ g))
        ≡ (if h == g then (if v == 0 then 0 else 1) else bit h s.gpio_value)
  set_bit g h v a b =
      let (off, on) = pin_masks g h a b in
      elim (Bool-cases (v == 0)) [
        | inl e ↦ rw e (
            bit-bit_and h s.gpio_value (255 - 2 ^ g)
            ∙ cleared_bit (h == g) (bit h s.gpio_value) (bit h (255 - 2 ^ g)) off (omega arith))
        | inr e ↦ rw e (
            bit-bit_or h s.gpio_value (2 ^ g)
            ∙ kept_bit (h == g) (bit h s.gpio_value) (bit h (2 ^ g)) on (omega arith))
      ]

  -- Of the three pins, the one that is set reads as its bit where the value is not 0 and as 0
  -- otherwise, and the others read as before.
  pub gpio_get-gpio_set :
      (g h v : ℕ)
      → g < 3
      → h < 3
      → gpio_get h (gpio_set circ g v s)
        ≡ (if h == g then (if v == 0 then 0 else 2 ^ g) else gpio_get h s)
  unfolding gpio_get gpio_set send_gpio
  gpio_get-gpio_set g h v a b =
      let x = if v == 0 then bit_and s.gpio_value (255 - 2 ^ g) else bit_or s.gpio_value (2 ^ g) in
      let value = queue_msg-gpio_value circ 3 (x ∷ []) (record s { gpio_value = x }) in
      ap (λ (y : ℕ). bit_and y (2 ^ h)) value
      ∙ bit_and-one_bit h x
      ∙ ap (λ (y : ℕ). y * 2 ^ h) (set_bit g h v a b)
      ∙ scaled (h == g) (v == 0) (bit h s.gpio_value) (2 ^ h) (2 ^ g)
          (λ e. ap (λ (k : ℕ). 2 ^ k) (ground arith))
      ∙ ap (λ (y : ℕ). if h == g then (if v == 0 then 0 else 2 ^ g) else y)
          (sym (bit_and-one_bit h s.gpio_value))
