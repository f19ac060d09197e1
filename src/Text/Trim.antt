-- ===== src/Text/Trim.antt =====
-- `trim`, `trim_matches`, `trim_start_matches`. `trim` takes Unicode white space, by its bytes.
use mathlib.Core.List.{reverse}
use folder_transfer.Prelude.{
  ℕ, zero, suc, Bool, ◌&&◌, ◌||◌, List, [], ◌∷◌, leb, ◌==◌, if◌then◌else◌, drop, length,
}

abbrev space1 : ℕ → Bool
space1 a = (leb 9 a && leb a 13) || a == 32

abbrev space2 : ℕ → ℕ → Bool
space2 a b = a == 0xC2 && (b == 0x85 || b == 0xA0)

-- U+1680, U+2000 to U+200A, U+2028, U+2029, U+202F, U+205F, U+3000
abbrev space3 : ℕ → ℕ → ℕ → Bool
space3 a b c =
    (a == 0xE1 && b == 0x9A && c == 0x80)
    || (a == 0xE2
        && ((b == 0x80 && ((leb 0x80 c && leb c 0x8A) || c == 0xA8 || c == 0xA9 || c == 0xAF))
            || (b == 0x81 && c == 0x9F)))
    || (a == 0xE3 && b == 0x80 && c == 0x80)

-- The bytes of the white space character in front; 0 if there is none.
space_len : List ℕ → ℕ
space_len [] = 0
space_len (a ∷ []) = if space1 a then 1 else 0
space_len (a ∷ b ∷ []) = if space1 a then 1 else if space2 a b then 2 else 0
space_len (a ∷ b ∷ c ∷ s) =
    if space1 a then 1 else if space2 a b then 2 else if space3 a b c then 3 else 0

-- The same at the end, of the text turned round.
space_len_back : List ℕ → ℕ
space_len_back [] = 0
space_len_back (a ∷ []) = if space1 a then 1 else 0
space_len_back (a ∷ b ∷ []) = if space1 a then 1 else if space2 b a then 2 else 0
space_len_back (a ∷ b ∷ c ∷ s) =
    if space1 a then 1 else if space2 b a then 2 else if space3 c b a then 3 else 0

-- Each round drops a character, so the length is fuel enough.
strip_spaces : (List ℕ → ℕ) → ℕ → List ℕ → List ℕ
strip_spaces len zero s = s
strip_spaces len (suc f) s =
    let rest = strip_spaces len f (drop (len s) s) in if len s == 0 then s else rest

-- `s.trim()`
unfoldable pub trim : List ℕ → List ℕ
unfolding strip_spaces space_len space_len_back
trim s =
    let t = strip_spaces space_len (length s) s in
    reverse (strip_spaces space_len_back (length t) (reverse t))

-- `s.trim_start_matches(p)` for characters of one byte
unfoldable pub trim_start_matches : (ℕ → Bool) → List ℕ → List ℕ
trim_start_matches p [] = []
trim_start_matches p (x ∷ s) = let rest = trim_start_matches p s in if p x then rest else x ∷ s

-- `s.trim_matches(p)`
unfoldable pub trim_matches : (ℕ → Bool) → List ℕ → List ℕ
unfolding trim_start_matches
trim_matches p s = reverse (trim_start_matches p (reverse (trim_start_matches p s)))
