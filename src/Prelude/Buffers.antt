-- ===== src/Prelude/Buffers.antt =====
-- A C buffer as a list of bytes: reading a range of it, and `memcpy` into it.
use Prim.Native.Nat.{ℕ, zero, suc, ◌+◌, ◌≤◌}
use mathlib.Core.Path.{◌≡◌, refl, ap}
use mathlib.Core.List.{List, [], ◌∷◌, ◌++◌}
use native.Mathlib.Omega.{arith}
use pi_vccu.Prelude.Lists.{length, set, drop}

module _ {ℓ} {A : Type ℓ} where
  -- `n` elements from offset `o` on; what lies past the end is left out.
  abbrev pub slice : List A → ℕ → ℕ → List A
  slice [] zero zero = []
  slice [] zero (suc n) = []
  slice [] (suc o) n = []
  slice (x ∷ xs) zero zero = []
  slice (x ∷ xs) zero (suc n) = x ∷ slice xs zero n
  slice (x ∷ xs) (suc o) n = slice xs o n

  -- `memcpy(xs + o, vs, length vs)`; a write past the end is left out.
  abbrev pub overwrite : List A → ℕ → List A → List A
  overwrite [] o vs = []
  overwrite (x ∷ xs) (suc o) vs = x ∷ overwrite xs o vs
  overwrite (x ∷ xs) zero [] = x ∷ xs
  overwrite (x ∷ xs) zero (v ∷ vs) = v ∷ overwrite xs zero vs

module _ {ℓ} {A : Type ℓ} where
  pub length-overwrite :
      (xs : List A) (o : ℕ) (vs : List A) → length (overwrite xs o vs) ≡ length xs
  length-overwrite [] o vs = refl
  length-overwrite (x ∷ xs) (suc o) vs = ap suc (length-overwrite xs o vs)
  length-overwrite (x ∷ xs) zero [] = refl
  length-overwrite (x ∷ xs) zero (v ∷ vs) = ap suc (length-overwrite xs zero vs)

  pub set-eq-overwrite : (xs : List A) (o : ℕ) (v : A) → set xs o v ≡ overwrite xs o (v ∷ [])
  set-eq-overwrite [] o v = refl
  set-eq-overwrite (x ∷ xs) (suc o) v = ap (λ t. x ∷ t) (set-eq-overwrite xs o v)
  set-eq-overwrite (x ∷ []) zero v = refl
  set-eq-overwrite (x ∷ y ∷ xs) zero v = refl

  pub slice-zero : (xs : List A) (o : ℕ) → slice xs o 0 ≡ []
  slice-zero [] zero = refl
  slice-zero [] (suc o) = refl
  slice-zero (x ∷ xs) zero = refl
  slice-zero (x ∷ xs) (suc o) = slice-zero xs o

  pub length-slice : (xs : List A) (o n : ℕ) → o + n ≤ length xs → length (slice xs o n) ≡ n
  length-slice [] zero zero h = refl
  length-slice [] zero (suc n) h = absurd (omega arith)
  length-slice [] (suc o) n h = absurd (omega arith)
  length-slice (x ∷ xs) zero zero h = refl
  length-slice (x ∷ xs) zero (suc n) h = ap suc (length-slice xs zero n (omega arith))
  length-slice (x ∷ xs) (suc o) n h = length-slice xs o n (omega arith)

  slice-nil : (o n : ℕ) → slice {A = A} [] o n ≡ []
  slice-nil zero zero = refl
  slice-nil zero (suc n) = refl
  slice-nil (suc o) n = refl

  -- A range in two parts.
  pub slice-add :
      (xs : List A) (o m n k p : ℕ)
      → k ≡ m + n
      → p ≡ o + m
      → slice xs o k ≡ slice xs o m ++ slice xs p n
  slice-add [] o m n k p hk hp = rw (slice-nil o k, slice-nil o m, slice-nil p n)
  slice-add (x ∷ xs) zero zero n k p hk hp =
      let e : k ≡ n = omega arith in let f : p ≡ 0 = omega arith in rw (e, f)
  slice-add (x ∷ xs) zero (suc m) n zero p hk hp = absurd (omega arith)
  slice-add (x ∷ xs) zero (suc m) n (suc k) zero hk hp = absurd (omega arith)
  slice-add (x ∷ xs) zero (suc m) n (suc k) (suc p) hk hp =
      ap (λ t. x ∷ t) (slice-add xs zero m n k p (omega arith) (omega arith))
  slice-add (x ∷ xs) (suc o) m n k zero hk hp = absurd (omega arith)
  slice-add (x ∷ xs) (suc o) m n k (suc p) hk hp =
      slice-add xs o m n k p (omega arith) (omega arith)

  -- What `memcpy` wrote is read back.
  pub slice-overwrite_self :
      (xs : List A) (o : ℕ) (vs : List A) (n : ℕ)
      → n ≡ length vs
      → o + n ≤ length xs
      → slice (overwrite xs o vs) o n ≡ vs
  slice-overwrite_self [] zero [] n hn h = let e : n ≡ 0 = hn in rw e (slice-nil 0 0)
  slice-overwrite_self [] zero (v ∷ vs) n hn h = absurd (omega arith)
  slice-overwrite_self [] (suc o) vs n hn h = absurd (omega arith)
  slice-overwrite_self (x ∷ xs) (suc o) vs n hn h = slice-overwrite_self xs o vs n hn (omega arith)
  slice-overwrite_self (x ∷ xs) zero [] n hn h = let e : n ≡ 0 = hn in rw e
  slice-overwrite_self (x ∷ xs) zero (v ∷ vs) zero hn h = absurd (omega arith)
  slice-overwrite_self (x ∷ xs) zero (v ∷ vs) (suc n) hn h =
      ap (λ t. v ∷ t) (slice-overwrite_self xs zero vs n (omega arith) (omega arith))

  pub slice-overwrite_before :
      (xs : List A) (o : ℕ) (vs : List A) (p n : ℕ)
      → p + n ≤ o
      → slice (overwrite xs o vs) p n ≡ slice xs p n
  slice-overwrite_before [] o vs p n h = refl
  slice-overwrite_before (x ∷ xs) (suc o) vs zero zero h = refl
  slice-overwrite_before (x ∷ xs) (suc o) vs zero (suc n) h =
      ap (λ t. x ∷ t) (slice-overwrite_before xs o vs zero n (omega arith))
  slice-overwrite_before (x ∷ xs) (suc o) vs (suc p) n h =
      slice-overwrite_before xs o vs p n (omega arith)
  slice-overwrite_before (x ∷ xs) zero [] p n h = refl
  slice-overwrite_before (x ∷ xs) zero (v ∷ vs) zero zero h = refl
  slice-overwrite_before (x ∷ xs) zero (v ∷ vs) zero (suc n) h = absurd (omega arith)
  slice-overwrite_before (x ∷ xs) zero (v ∷ vs) (suc p) n h = absurd (omega arith)

  pub slice-overwrite_after :
      (xs : List A) (o : ℕ) (vs : List A) (p n : ℕ)
      → o + length vs ≤ p
      → slice (overwrite xs o vs) p n ≡ slice xs p n
  slice-overwrite_after [] o vs p n h = refl
  slice-overwrite_after (x ∷ xs) (suc o) vs zero n h = absurd (omega arith)
  slice-overwrite_after (x ∷ xs) (suc o) vs (suc p) n h =
      slice-overwrite_after xs o vs p n (omega arith)
  slice-overwrite_after (x ∷ xs) zero [] p n h = refl
  slice-overwrite_after (x ∷ xs) zero (v ∷ vs) zero n h = absurd (omega arith)
  slice-overwrite_after (x ∷ xs) zero (v ∷ vs) (suc p) n h =
      slice-overwrite_after xs zero vs p n (omega arith)

  -- `memcpy` to the start of a buffer.
  pub overwrite_front :
      (xs vs : List A) (n : ℕ) → n ≡ length vs → n ≤ length xs → overwrite xs 0 vs ≡ vs ++ drop n xs
  overwrite_front [] [] zero hn h = refl
  overwrite_front [] [] (suc n) hn h = absurd (omega arith)
  overwrite_front [] (v ∷ vs) n hn h = absurd (omega arith)
  overwrite_front (x ∷ xs) [] zero hn h = refl
  overwrite_front (x ∷ xs) [] (suc n) hn h = absurd (omega arith)
  overwrite_front (x ∷ xs) (v ∷ vs) zero hn h = absurd (omega arith)
  overwrite_front (x ∷ xs) (v ∷ vs) (suc n) hn h =
      ap (λ t. v ∷ t) (overwrite_front xs vs n (omega arith) (omega arith))

  -- A buffer with two more elements behind offset `n`.
  pub drop_two :
      (xs : List A) (n m : ℕ)
      → m ≡ n + 2
      → m ≤ length xs
      → (x : A) × (y : A) × (drop n xs ≡ x ∷ y ∷ drop m xs)
  drop_two [] n m hm h = absurd (omega arith)
  drop_two (x ∷ xs) n zero hm h = absurd (omega arith)
  drop_two (x ∷ []) zero (suc m) hm h = absurd (omega arith)
  drop_two (x ∷ y ∷ xs) zero (suc m) hm h = let e : m ≡ 1 = omega arith in (x, y, rw e)
  drop_two (x ∷ xs) (suc n) (suc m) hm h = drop_two xs n m (omega arith) (omega arith)

  -- Two stores at the offset where the first part of a buffer ends.
  pub set-append_two :
      (front back : List A) (x y a b : A) (n m : ℕ)
      → n ≡ length front
      → m ≡ suc n
      → set (set (front ++ (x ∷ y ∷ back)) n a) m b ≡ front ++ (a ∷ b ∷ back)
  set-append_two [] back x y a b n m hn hm =
      let e : n ≡ 0 = hn in let f : m ≡ 1 = omega arith in rw (e, f)
  set-append_two (z ∷ front) back x y a b zero m hn hm = absurd (omega arith)
  set-append_two (z ∷ front) back x y a b (suc n) zero hn hm = absurd (omega arith)
  set-append_two (z ∷ front) back x y a b (suc n) (suc m) hn hm =
      ap (λ t. z ∷ t) (set-append_two front back x y a b n m (omega arith) (omega arith))
