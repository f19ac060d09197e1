-- ===== src/Io.antt =====
-- `io::Result` and the errors of the program, and code that changes a state and may return early
-- with an error: what was done before the error stays done.
pub mod Size

-- The kinds of `io::Error` that the program meets.
pub data IoError : Type 0 where
  unexpected_eof connection disk invalid_data not_found address : IoError

pub data Io {ℓ} (A : Type ℓ) : Type ℓ where
  ok : A → Io A
  err : IoError → Io A

abbrev pub Exec {ℓ} : Type ℓ → Type ℓ → Type ℓ
Exec S A = S → Io A × S

module _ {ℓ} {S A : Type ℓ} where
  -- `Ok(a)`
  abbrev pub done : A → Exec S A
  done a s = (ok a, s)

  -- `Err(e)`
  abbrev pub fail : IoError → Exec S A
  fail e s = (err e, s)

  -- A result that is at hand, under `?`.
  abbrev pub lift : Io A → Exec S A
  lift r s = (r, s)

  abbrev pub gets : (S → A) → Exec S A
  gets f s = (ok (f s), s)

module _ {ℓ} {S : Type ℓ} where
  abbrev pub modify : (S → S) → S → Io (Unit {0}) × S
  modify f s = (ok tt, f s)

module _ {ℓ κ μ} {S : Type ℓ} {A : Type κ} {B : Type μ} where
  abbrev pub continue : Io A → (A → S → Io B × S) → S → Io B × S
  continue (ok a) f s = f a s
  continue (err e) f s = (err e, s)

  -- `?` and what follows it.
  infixl 5 ◌>>=◌ ◌>>◌
  abbrev pub ◌>>=◌ : (S → Io A × S) → (A → S → Io B × S) → S → Io B × S
  ◌>>=◌ m f s = let (r, s') = m s in continue r f s'

  abbrev pub ◌>>◌ : (S → Io A × S) → (S → Io B × S) → S → Io B × S
  ◌>>◌ m k s = let (r, s') = m s in continue r (λ _. k) s'
