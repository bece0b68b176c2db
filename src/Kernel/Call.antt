-- ===== src/Kernel/Call.antt =====
-- Calls on a driver's state that give a value or an error number, in sequence. What was done before
-- an error stays done.
use pi_vccu.Prelude.{
  Bool, if◌then◌else◌, Option, none, some, ◌≡◌, ◌⊎◌, inl, inr, refl, ap, sym, false, true,
}
use pi_vccu.Kernel.{Errno}

-- The value of a call that gives none.
abbrev pub ⊤ : Type 0
⊤ = Unit

pub data Result (A : Type 0) : Type 0 where
  value : A → Result A
  error : Errno → Result A

abbrev pub Call : Type 0 → Type 0 → Type 0
Call S A = S → Result A × S

pub Result-cases :
    {A : Type 0} (r : Result A) → ((a : A) × (r ≡ value a)) ⊎ ((e : Errno) × (r ≡ error e))
Result-cases (value a) = inl (a, refl)
Result-cases (error e) = inr (e, refl)

-- What a variable holds after a call that assigns it where it succeeds.
abbrev pub kept : {A : Type 0} → Result A → A → A
kept (value b) a = b
kept (error e) a = a

module _ {S A : Type 0} where
  abbrev pub pure : A → Call S A
  pure a s = (value a, s)

  -- `return -E`.
  abbrev pub give : Result A → Call S A
  give r s = (r, s)

  abbrev pub gets : (S → A) → Call S A
  gets f s = (value (f s), s)

  -- The outcome of a call as a value, for code that goes on after an error.
  abbrev pub attempt : Call S A → Call S (Result A)
  attempt m s = let (r, t) = m s in (value r, t)

  -- `*a = ...` behind a call whose error is ignored: `a` keeps its old value.
  abbrev pub or_keep : Call S A → A → Call S A
  or_keep m a s = let (r, t) = m s in (value (kept r a), t)

-- What follows on the outcome of a call.
abbrev pub next : {S A B : Type 0} → (A → Call S B) → Result A × S → Result B × S
next f (value a, t) = f a t
next f (error e, t) = (error e, t)

infixl 5 ◌>>=◌ ◌>>◌
abbrev pub ◌>>=◌ : {S A B : Type 0} → Call S A → (A → Call S B) → Call S B
◌>>=◌ m f s = next f (m s)

abbrev pub ◌>>◌ : {S A B : Type 0} → Call S A → Call S B → Call S B
m >> k = m >>= λ _. k

module _ {S : Type 0} where
  abbrev pub modify : (S → S) → Call S ⊤
  modify f s = (value tt, f s)

  -- `if (c) return -E;`
  abbrev pub fail_if : Bool → Errno → Call S ⊤
  fail_if c e s = (if c then error e else value tt, s)

  abbrev pub when : Bool → Call S ⊤ → Call S ⊤
  when c m s = if c then m s else (value tt, s)

  -- `if (err) return err;` for a call of the kernel whose result is 0 or an error number.
  abbrev pub check : Option Errno → Call S ⊤
  check none s = (value tt, s)
  check (some e) s = (error e, s)

-- A sequence whose first call is known to give a value, or an error.
module _ {S A B : Type 0} (m : Call S A) (f : A → Call S B) (s : S) where
  pub bind_value : (a : A) (t : S) → m s ≡ (value a, t) → (m >>= f) s ≡ f a t
  bind_value a t e = ap (next f) e

  pub bind_error : (e : Errno) (t : S) → m s ≡ (error e, t) → (m >>= f) s ≡ (error e, t)
  bind_error er t e = ap (next f) e

-- A sequence that gives a value is one of calls that give values.
module _ {S A B : Type 0} (f : A → Call S B) (b : B) (u : S) where
  next-value :
      (p : Result A × S)
      → next f p ≡ (value b, u)
      → (a : A) × (t : S) × (p ≡ (value a, t)) × (f a t ≡ (value b, u))
  next-value (value a, t) e = (a, t, refl, e)
  next-value (error er, t) e = absurd cc

  pub bind_cases :
      (m : Call S A) (s : S)
      → (m >>= f) s ≡ (value b, u)
      → (a : A) × (t : S) × (m s ≡ (value a, t)) × (f a t ≡ (value b, u))
  bind_cases m s e = next-value (m s) e

pub value-injective :
    {S A : Type 0} (a b : A) (s t : S)
    → Path (Result A × S) (value a, s) (value b, t)
    → (a ≡ b) × (s ≡ t)
value-injective a b s t e = (cc, cc)

pub fail_if_value :
    {S : Type 0} (c : Bool) (e : Errno) (s t : S)
    → fail_if c e s ≡ (value tt, t)
    → (c ≡ false) × (t ≡ s)
fail_if_value true e s t h = absurd cc
fail_if_value false e s t h = (refl, sym (value-injective tt tt s t h).1)
