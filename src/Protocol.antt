-- ===== src/Protocol.antt =====
-- The format of the bodies on the wire (RUST-PORT-SPEC.md, section 4), apart from the code that writes
-- it and the code that reads it: which bytes stand for which content.
pub mod Reading
pub mod Chunks
pub mod Framed
pub mod Large
pub mod Writing
pub mod Steps
pub mod Sending
pub mod RoundTrip
pub mod Bundled
pub mod Offer
use folder_transfer.Prelude.{ℕ, ℤ, ◌<◌, ◌^◌, List, [], ◌∷◌, ◌++◌, length}
use folder_transfer.Text.{Text, codes}
use folder_transfer.Text.Number.{print_nat}
use folder_transfer.Platform.{Zstd}

abbrev pub Fits : List ℕ → Type 0
Fits x = length x < 2 ^ 64

abbrev pub raw_line : ℕ → Text
raw_line n = codes "R " ++ print_nat n

abbrev pub zip_line : ℕ → ℕ → Text
zip_line clen rlen = codes "Z " ++ print_nat clen ++ b' ' ∷ print_nat rlen

module _ (z : Zstd) where
  -- A block holds its content, or a zstd frame of it.
  pub data Block : List ℕ → List ℕ → Type 0 where
    raw : (x : List ℕ) → Fits x → Block (raw_line (length x) ++ 10 ∷ x) x
    zip :
        (x : List ℕ) (level : ℤ)
        → Fits x
        → Fits (z.compress x level)
        → Block (zip_line (length (z.compress x level)) (length x) ++ 10 ∷ z.compress x level) x

  pub data Blocks : List ℕ → List ℕ → Type 0 where
    end : Blocks [] []
    next : {w ws x xs : List ℕ} → Block w x → Blocks ws xs → Blocks (w ++ ws) (x ++ xs)

  -- The body of a large file: raw, or blocks between `Z` and `E`.
  pub data Body : List ℕ → List ℕ → Type 0 where
    whole : (x : List ℕ) → Fits x → Body (raw_line (length x) ++ 10 ∷ x) x
    blocks : {w x : List ℕ} → Blocks w x → Body (b'Z' ∷ 10 ∷ w ++ b'E' ∷ 10 ∷ []) x
