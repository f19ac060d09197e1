-- ===== src/Token.antt =====
-- rust/src/token.rs: `generate`, for the random bytes that the system gives.
pub mod Alphabet
use folder_transfer.Prelude.{ℕ, ◌%◌, List, [], ◌∷◌, map, get_or, length}
use folder_transfer.Text.{Text, codes}

abbrev pub alphabet : Text
alphabet = codes "ABCDEFGHIJKLMNPQRSTUVWXYZabcdefghijkmnpqrstuvwxyz23456789"

abbrev pub token_bytes : ℕ
token_bytes = 24

unfoldable pub token_char : ℕ → ℕ
token_char b = get_or alphabet (b % 57) 0

unfoldable pub generate : List ℕ → Text
generate [] = []
generate (b ∷ rb) = token_char b ∷ generate rb
