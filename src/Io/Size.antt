-- ===== src/Io/Size.antt =====
-- How much of a state's input a step leaves: the measure by which the loops on a connection end.
use folder_transfer.Prelude.{ℕ, ◌≤◌, ◌≡◌, refl, arith}
use folder_transfer.Io.{Io, ok, err, continue, ◌>>=◌, ◌>>◌}

-- No run of the step makes the state larger.
abbrev pub Shrinks {ℓ κ} : {S : Type ℓ} {A : Type κ} → (S → ℕ) → (S → Io A × S) → Type ℓ
Shrinks {S = S} size m = (s : S) → size (m s).1 ≤ size s

module _ {ℓ κ μ} {S : Type ℓ} {A : Type κ} {B : Type μ} where
  continue-Shrinks :
      (size : S → ℕ) (r : Io A) (f : A → S → Io B × S)
      → ((a : A) → Shrinks size (f a))
      → Shrinks size (continue r f)
  continue-Shrinks size (ok a) f h s = h a s
  continue-Shrinks size (err e) f h s = omega arith

  pub bind-Shrinks :
      (size : S → ℕ) (m : S → Io A × S) (f : A → S → Io B × S)
      → Shrinks size m
      → ((a : A) → Shrinks size (f a))
      → Shrinks size (m >>= f)
  bind-Shrinks size m f hm hf s = omega (arith, hm s, continue-Shrinks size (m s).0 f hf (m s).1)

  pub then-Shrinks :
      (size : S → ℕ) (m : S → Io A × S) (k : S → Io B × S)
      → Shrinks size m
      → Shrinks size k
      → Shrinks size (m >> k)
  then-Shrinks size m k hm hk = bind-Shrinks size m (λ _. k) hm (λ _. hk)

  continue-agree :
      (r : Io A) (f g : A → S → Io B × S) (s : S)
      → ((a : A) → r ≡ ok a → f a s ≡ g a s)
      → continue r f s ≡ continue r g s
  continue-agree (ok a) f g s h = h a refl
  continue-agree (err e) f g s h = refl

  -- Two ways to go on that agree on what the step gives.
  pub bind-agree :
      (m : S → Io A × S) (f g : A → S → Io B × S) (s : S)
      → ((a : A) → (m s).0 ≡ ok a → f a (m s).1 ≡ g a (m s).1)
      → (m >>= f) s ≡ (m >>= g) s
  bind-agree m f g s = continue-agree (m s).0 f g (m s).1
