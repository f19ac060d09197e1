-- ===== src/Ignore/Ancestors.antt =====
-- What is below an ignored directory is ignored, so that the walk of the server, which leaves such a
-- directory out whole, and the client's test of single files agree.
use folder_transfer.Prelude.{
  ℕ, Bool, true, List, [], ◌∷◌, ◌++◌, ◌≡◌, ◌≢◌, refl, ◌∙◌, ap, arith, Bool-cases, inl, inr,
}
use folder_transfer.Text.{Text, split, push_first}
use folder_transfer.Ignore.{
  Regexes, Kind, name, path, Pattern, IgnoreSet, path_matches, name_matches, kind_matches,
  any_matches, normalise, ignored_text, is_ignored, is_slash,
}

split-cons : (b : Text) → (s : Text) × (more : List Text) × (split is_slash b ≡ s ∷ more)
unfolding split
split-cons [] = ([], [], refl)
split-cons (x ∷ b) = elim (Bool-cases (is_slash x)) [
  | inl slash ↦ ([], split is_slash b, rw slash)
  | inr other ↦ let (s, more, e) = split-cons b in (x ∷ s, more, rw (other, e))
]

push_first-append :
    (x : ℕ) (ps qs : List Text) → ps ≢ [] → push_first x (ps ++ qs) ≡ push_first x ps ++ qs
push_first-append x [] qs h = absurd (h refl)
push_first-append x (p ∷ ps) qs h = refl

split-ne-nil : (a : Text) → split is_slash a ≢ []
split-ne-nil a h = let (s, more, e) = split-cons a in cc

-- A text is split at a slash into the segments before it and those behind it.
pub split-slash :
    (a b : Text) → split is_slash (a ++ b'/' ∷ b) ≡ split is_slash a ++ split is_slash b
unfolding split
split-slash [] b = refl
split-slash (x ∷ a) b = elim (Bool-cases (is_slash x)) [
  | inl slash ↦ rw slash (ap (λ l. [] ∷ l) (split-slash a b))
  | inr other ↦ rw other (
      ap (push_first x) (split-slash a b)
      ∙ push_first-append x (split is_slash a) (split is_slash b) (split-ne-nil a))
]

module _ ⦃rx : Regexes⦄ where
  name_matches-below :
      (dir_only : Bool) (r : rx.Regex) (segs : List Text) (s : Text) (more : List Text) (d : Bool)
      → name_matches dir_only r segs true ≡ true
      → name_matches dir_only r (segs ++ s ∷ more) d ≡ true
  unfolding name_matches
  name_matches-below dir_only r [] s more d h = cc
  name_matches-below dir_only r (t ∷ []) s more d h = ground arith
  name_matches-below dir_only r (t ∷ u ∷ segs) s more d h =
      ground (arith, name_matches-below dir_only r (u ∷ segs) s more d)

  path_matches-below :
      (dir_only : Bool) (r : rx.Regex) (above segs : List Text) (s : Text) (more : List Text)
      (d : Bool)
      → path_matches dir_only r above segs true ≡ true
      → path_matches dir_only r above (segs ++ s ∷ more) d ≡ true
  unfolding path_matches
  path_matches-below dir_only r above [] s more d h = cc
  path_matches-below dir_only r above (t ∷ []) s more d h = ground arith
  path_matches-below dir_only r above (t ∷ u ∷ segs) s more d h =
      ground (arith, path_matches-below dir_only r (above ++ t ∷ []) (u ∷ segs) s more d)

  kind_matches-below :
      (dir_only : Bool) (k : Kind rx) (segs : List Text) (s : Text) (more : List Text) (d : Bool)
      → kind_matches dir_only k segs true ≡ true
      → kind_matches dir_only k (segs ++ s ∷ more) d ≡ true
  kind_matches-below dir_only (path r) segs s more d h =
      path_matches-below dir_only r [] segs s more d h
  kind_matches-below dir_only (name r) segs s more d h =
      name_matches-below dir_only r segs s more d h

  any_matches-below :
      (pats : List (Pattern rx)) (segs : List Text) (s : Text) (more : List Text) (d : Bool)
      → any_matches pats segs true ≡ true
      → any_matches pats (segs ++ s ∷ more) d ≡ true
  unfolding any_matches
  any_matches-below [] segs s more d h = cc
  any_matches-below (pat ∷ pats) segs s more d h = ground (
    arith,
    kind_matches-below pat.dir_only pat.kind segs s more d,
    any_matches-below pats segs s more d,
  )

  is_ignored_below_text :
      (set : IgnoreSet rx) (rel : Text) (sub : Text) (d : Bool)
      → ignored_text set rel true ≡ true
      → ignored_text set (rel ++ b'/' ∷ sub) d ≡ true
  unfolding ignored_text
  is_ignored_below_text set [] sub d h = cc
  is_ignored_below_text set (c ∷ rel) sub d h =
      let (s, more, e) = split-cons sub in
      rw (split-slash (c ∷ rel) sub, e)
        (any_matches-below set.patterns (split is_slash (c ∷ rel)) s more d h)

  -- If a directory is ignored, then so is everything below it, file or directory, whatever the
  -- patterns are and however the engine reads them.
  pub is_ignored_below :
      (set : IgnoreSet rx) (rel under sub : Text) (d : Bool)
      → normalise under ≡ normalise rel ++ b'/' ∷ sub
      → is_ignored set rel true ≡ true
      → is_ignored set under d ≡ true
  is_ignored_below set rel under sub d e h =
      unfold is_ignored in rw e (is_ignored_below_text set (normalise rel) sub d h)
