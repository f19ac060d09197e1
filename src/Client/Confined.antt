-- ===== src/Client/Confined.antt =====
-- rust/src/client.rs: the client changes nothing outside of its destination. The disk at one path outside.
use folder_transfer.Prelude.{
  ℕ, suc, ◌≡◌, ◌≢◌, refl, sym, ap, ◌∙◌, inl, inr, Bool, true, false, ◌&&◌, List, [], ◌∷◌, ◌++◌,
  some, if◌then◌else◌, Bool-cases,
}
use folder_transfer.Text.{Text, text_eq}
use folder_transfer.Text.Laws.{text_eq_refl}
use folder_transfer.Paths.{FilePath, safe_join, root_prefix}
use folder_transfer.Paths.Safety.{IsPath, safe_join-inside}
use folder_transfer.Fs.{path_eq}
use folder_transfer.Fs.Laws.{path_eq_iff}

-- The path lies below the directory, and is not the directory itself.
unfoldable pub is_below : FilePath → FilePath → Bool
is_below [] [] = false
is_below [] (s ∷ p) = true
is_below (t ∷ to) [] = false
is_below (t ∷ to) (s ∷ p) = text_eq t s && is_below to p

-- The recorded roots that do not lie below the destination.
unfoldable pub roots_outside : FilePath → List FilePath → ℕ
roots_outside to [] = 0
roots_outside to (r ∷ roots) =
    if is_below to r then roots_outside to roots else suc (roots_outside to roots)

is_below-append : (to : FilePath) (s : Text) (rest : FilePath) → is_below to (to ++ s ∷ rest) ≡ true
unfolding is_below
is_below-append [] s rest = refl
is_below-append (t ∷ to) s rest = rw (text_eq_refl t, is_below-append to s rest) refl

pub safe_join-below :
    (to : FilePath)
    → IsPath to
    → to ≢ []
    → (rel : Text) (t : FilePath) → safe_join to (root_prefix to) rel ≡ some t
    → is_below to t ≡ true
safe_join-below to valid nonroot rel t e = elim (safe_join-inside to rel t valid e).1 [
  | inl root ↦ absurd (nonroot root)
  | inr (s, rest, at) ↦ rw at (is_below-append to s rest)
]

pub apart : (to p q : FilePath) → is_below to p ≡ false → is_below to q ≡ true → path_eq q p ≡ false
apart to p q outside below = elim (Bool-cases (path_eq q p)) [
  | inr other ↦ other
  | inl same ↦ absurd (clash (sym below ∙ ap (is_below to) ((path_eq_iff q p).0 same) ∙ outside))
]
  where
    clash : true ≢ false
    clash h = cc
