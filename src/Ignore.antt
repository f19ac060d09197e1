-- ===== src/Ignore.antt =====
-- rust/src/ignore.rs: `IgnoreSet`. The regular expressions are those of the crate `regex`.
pub mod Ancestors
use folder_transfer.Prelude.{
  ℕ, Bool, true, false, ◌&&◌, ◌||◌, not, List, [], ◌∷◌, ◌++◌, leb, ◌==◌, if◌then◌else◌,
}
use folder_transfer.Text.{
  Text, codes, text_eq, split, join, replace_char, contains_char, ends_with_char,
}
use folder_transfer.Text.Trim.{trim, trim_matches}

-- `RegexBuilder::new(p).case_insensitive(true).build()`, `regex::escape` and `is_match`.
pub record Regexes : Type 1 where
  pub Regex : Type 0
  pub build_ci : Text → Regex
  pub escape : Text → Text
  pub is_match : Regex → Text → Bool

module _ (rx : Regexes) where
  pub data Kind : Type 0 where
    name : rx.Regex → Kind
    path : rx.Regex → Kind

  pub record Pattern : Type 0 where
    pub dir_only : Bool
    pub kind : Kind

  pub record IgnoreSet : Type 0 where
    pub patterns : List Pattern

-- `s.chars()`: the bytes of each character of a valid UTF-8 text.
add_char : ℕ → List Text → List Text
add_char x [] = (x ∷ []) ∷ []
add_char x ([] ∷ cs) = (x ∷ []) ∷ cs
add_char x ((c ∷ s) ∷ cs) =
    if leb 0x80 c && leb c 0xBF then (x ∷ c ∷ s) ∷ cs else (x ∷ []) ∷ (c ∷ s) ∷ cs

unfoldable pub chars : Text → List Text
unfolding add_char
chars [] = []
chars (x ∷ s) = add_char x (chars s)

abbrev pub is_slash : ℕ → Bool
is_slash c = c == b'/'

module _ ⦃rx : Regexes⦄ where
  -- The loop of `glob_to_regex` over the characters.
  unfoldable pub glob_body : List Text → Text
  unfolding text_eq
  glob_body [] = []
  glob_body (c ∷ []) =
      if text_eq c (codes "*")
      then codes "[^/]*"
      else if text_eq c (codes "?")
      then codes "[^/]"
      else rx.escape c
  glob_body (c ∷ d ∷ cs) =
      let two = codes ".*" ++ glob_body cs in
      let rest = glob_body (d ∷ cs) in
      if text_eq c (codes "*")
      then if text_eq d (codes "*") then two else codes "[^/]*" ++ rest
      else if text_eq c (codes "?")
      then codes "[^/]" ++ rest
      else rx.escape c ++ rest

  unfoldable pub glob_to_regex : Text → rx.Regex
  unfolding glob_body chars
  glob_to_regex glob = rx.build_ci (b'^' ∷ glob_body (chars glob) ++ b'$' ∷ [])

  unfoldable pub name_body : List Text → Text
  unfolding text_eq
  name_body [] = []
  name_body (c ∷ cs) =
      (if text_eq c (codes "*")
        then codes ".*"
        else if text_eq c (codes "?")
        then codes "."
        else rx.escape c)
      ++ name_body cs

  unfoldable pub name_to_regex : Text → rx.Regex
  unfolding name_body chars
  name_to_regex body = rx.build_ci (b'^' ∷ name_body (chars body) ++ b'$' ∷ [])

  pattern_of : Bool → Text → List (Pattern rx)
  pattern_of dir_only [] = []
  pattern_of dir_only (c ∷ body) =
      record {
        dir_only = dir_only;
        kind =
            if contains_char (c ∷ body) b'/'
            then path (glob_to_regex (c ∷ body))
            else name (name_to_regex (c ∷ body));
      }
      ∷ []

  parse_entry : Text → List (Pattern rx)
  unfolding pattern_of
  parse_entry [] = []
  parse_entry (c ∷ p) =
      let body = replace_char b'\\' b'/' (c ∷ p) in
      pattern_of (ends_with_char body b'/') (trim_matches is_slash body)

  parse_entries : List Text → List (Pattern rx)
  unfolding parse_entry
  parse_entries [] = []
  parse_entries (raw ∷ raws) = parse_entry (trim raw) ++ parse_entries raws

  unfoldable pub parse : Text → IgnoreSet rx
  unfolding parse_entries split
  parse spec = record { patterns = parse_entries (split (λ c. c == b';' || c == b',') spec) }

  -- Whether segments are left behind the current one.
  abbrev pub has_more : List Text → Bool
  has_more [] = false
  has_more (s ∷ segs) = true

  -- The loop over the prefixes `segs[..i]`; `above` are the segments in front.
  unfoldable pub path_matches : Bool → rx.Regex → List Text → List Text → Bool → Bool
  path_matches dir_only r above [] is_dir = false
  path_matches dir_only r above (seg ∷ segs) is_dir =
      let here = above ++ seg ∷ [] in
      (not (dir_only && not (has_more segs || is_dir)) && rx.is_match r (join (codes "/") here))
      || path_matches dir_only r here segs is_dir

  -- The loop over the segments.
  unfoldable pub name_matches : Bool → rx.Regex → List Text → Bool → Bool
  name_matches dir_only r [] is_dir = false
  name_matches dir_only r (seg ∷ segs) is_dir =
      (not (dir_only && not (has_more segs || is_dir)) && rx.is_match r seg)
      || name_matches dir_only r segs is_dir

  abbrev pub kind_matches : Bool → Kind rx → List Text → Bool → Bool
  kind_matches dir_only (path r) segs is_dir = path_matches dir_only r [] segs is_dir
  kind_matches dir_only (name r) segs is_dir = name_matches dir_only r segs is_dir

  unfoldable pub any_matches : List (Pattern rx) → List Text → Bool → Bool
  any_matches [] segs is_dir = false
  any_matches (pat ∷ pats) segs is_dir =
      kind_matches pat.dir_only pat.kind segs is_dir || any_matches pats segs is_dir

  -- `rel.replace('\\', "/")`, then `trim_matches('/')`.
  unfoldable pub normalise : Text → Text
  unfolding replace_char trim_matches
  normalise rel = trim_matches is_slash (replace_char b'\\' b'/' rel)

  ignored_text : IgnoreSet rx → Text → Bool → Bool
  ignored_text set [] is_dir = false
  ignored_text set (c ∷ rel) is_dir = any_matches set.patterns (split is_slash (c ∷ rel)) is_dir

  -- With no pattern the source returns early; so does `any_matches`.
  unfoldable pub is_ignored : IgnoreSet rx → Text → Bool → Bool
  unfolding ignored_text
  is_ignored set rel is_dir = ignored_text set (normalise rel) is_dir
