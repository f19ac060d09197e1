-- ===== src/Platform.antt =====
-- What the program takes from elsewhere: the machine's floating-point numbers and clock, and the
-- zstd library. They are arguments of the definitions that use them.
use folder_transfer.Prelude.{ℕ, ℤ, Bool, List, ◌≡◌, ◌≤◌, length}
use folder_transfer.Io.{Io, ok}

-- `f64`. `lit n d` is the number nearest to n / d.
pub record Floats : Type 1 where
  pub F : Type 0
  pub lit : ℕ → ℕ → F
  pub infinity : F
  pub is_finite : F → Bool
  pub add : F → F → F
  pub sub : F → F → F
  pub mul : F → F → F
  pub div : F → F → F
  pub fmax : F → F → F
  pub lt : F → F → Bool
  pub ge : F → F → Bool

-- The crate `zstd`: `bulk::compress` at a level, and `bulk::decompress` into a buffer of a capacity.
pub record Zstd : Type 0 where
  pub compress : List ℕ → ℤ → List ℕ
  pub decompress : List ℕ → ℕ → Io (List ℕ)

-- What the program relies on: a frame that zstd wrote is read back, if the buffer is large enough.
pub record IsLossless (z : Zstd) : Type 0 where
  pub decompress-compress :
      (b : List ℕ) (level : ℤ) (n : ℕ) → length b ≤ n → z.decompress (z.compress b level) n ≡ ok b

-- The readings of the monotonic clock, in seconds, in the order in which the program takes them.
pub record Clock (fl : Floats) : Type 0 where
  pub reading : ℕ → fl.F
