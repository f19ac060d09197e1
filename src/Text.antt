-- ===== src/Text.antt =====
-- `String` and `str` of Rust's standard library, as the program uses them: a text is its UTF-8
-- bytes, as in Rust.
pub mod Utf8
pub mod Trim
pub mod Number
pub mod Laws
use Prim.Native.Char.{code}
use folder_transfer.Prelude.{
  ℕ, zero, suc, ◌+◌, ◌-◌, String, Bool, true, false, ◌&&◌, ◌||◌, List, [], ◌∷◌, ◌++◌, Option, none,
  some, leb, ◌==◌, if◌then◌else◌,
}

abbrev pub Text : Type 0
Text = List ℕ

-- The bytes of an ASCII literal. `String` has its own `[]` and `∷`.
abbrev pub codes : String → Text
codes String.[] = []
codes (String.◌∷◌ c s) = code c ∷ codes s

-- `a == b`
unfoldable pub text_eq : Text → Text → Bool
text_eq [] [] = true
text_eq [] (y ∷ ys) = false
text_eq (x ∷ xs) [] = false
text_eq (x ∷ xs) (y ∷ ys) = x == y && text_eq xs ys

-- `s.strip_prefix(p)`
unfoldable pub strip_prefix : Text → Text → Option Text
strip_prefix [] s = some s
strip_prefix (c ∷ p) [] = none
strip_prefix (c ∷ p) (x ∷ s) = let rest = strip_prefix p s in if x == c then rest else none

-- `s.starts_with(p)`
unfoldable pub starts_with : Text → Text → Bool
starts_with s [] = true
starts_with [] (c ∷ p) = false
starts_with (x ∷ s) (c ∷ p) = x == c && starts_with s p

-- `s.ends_with(c)` for a character of one byte
unfoldable pub ends_with_char : Text → ℕ → Bool
ends_with_char [] c = false
ends_with_char (x ∷ []) c = x == c
ends_with_char (x ∷ y ∷ s) c = ends_with_char (y ∷ s) c

-- `s.contains(c)`
unfoldable pub contains_char : Text → ℕ → Bool
contains_char [] c = false
contains_char (x ∷ s) c = x == c || contains_char s c

-- `list.contains(&s)`
unfoldable pub contains_text : List Text → Text → Bool
unfolding text_eq
contains_text [] s = false
contains_text (t ∷ ts) s = text_eq t s || contains_text ts s

-- One more byte of the first piece of a split.
abbrev pub push_first : ℕ → List Text → List Text
push_first x [] = (x ∷ []) ∷ []
push_first x (p ∷ ps) = (x ∷ p) ∷ ps

-- `s.split(is_sep)`: never empty; neighbouring separators give empty pieces.
unfoldable pub split : (ℕ → Bool) → Text → List Text
split is_sep [] = [] ∷ []
split is_sep (x ∷ s) =
    let rest = split is_sep s in if is_sep x then [] ∷ rest else push_first x rest

-- `s.find(c)` and the two slices around the byte: `&s[..i]` and `&s[i + 1..]`.
unfoldable pub split_once : ℕ → Text → Option (Text × Text)
split_once c [] = none
split_once c (x ∷ s) =
    let rest = split_once c s in
    if x == c then some ([], s) else elim rest [ none ↦ none | some (a, b) ↦ some (x ∷ a, b) ]

-- `parts.join(sep)`
unfoldable pub join : Text → List Text → Text
join sep [] = []
join sep (p ∷ []) = p
join sep (p ∷ q ∷ ps) = p ++ sep ++ join sep (q ∷ ps)

-- `s.replace(a, b)` for characters of one byte
unfoldable pub replace_char : ℕ → ℕ → Text → Text
replace_char a b [] = []
replace_char a b (x ∷ s) = (if x == a then b else x) ∷ replace_char a b s

-- `s.to_ascii_lowercase()`
unfoldable pub ascii_lower : Text → Text
ascii_lower [] = []
ascii_lower (x ∷ s) = (if leb b'A' x && leb x b'Z' then x + 32 else x) ∷ ascii_lower s

-- `parts.next().unwrap_or(d)` and the parts that are left.
abbrev pub next_or : Text → List Text → Text
next_or d [] = d
next_or d (p ∷ ps) = p

abbrev pub rest_of : List Text → List Text
rest_of [] = []
rest_of (p ∷ ps) = ps
