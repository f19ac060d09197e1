-- ===== src/Paths.antt =====
-- rust/src/paths.rs, as built for Unix. A `PathBuf` is an absolute path without `.` and `..`, what
-- `canonicalize` returns: its names, from the root.
pub mod Safety
use folder_transfer.Prelude.{
  ◌≡◌, refl, ℕ, Bool, true, false, ◌||◌, List, [], ◌∷◌, ◌++◌, map, Option, none, some, ◌==◌,
  if◌then◌else◌,
}
use folder_transfer.Text.{
  Text, codes, text_eq, starts_with, ends_with_char, contains_text, split, ascii_lower,
}

abbrev pub FilePath : Type 0
FilePath = List Text

-- `to_string_lossy` of a path whose names are UTF-8.
unfoldable pub under_root : FilePath → Text
under_root [] = []
under_root (s ∷ p) = b'/' ∷ s ++ under_root p

unfoldable pub to_text : FilePath → Text
unfolding under_root
to_text [] = b'/' ∷ []
to_text (s ∷ p) = under_root (s ∷ p)

abbrev incompressible_ext : List Text
incompressible_ext = map codes (
    ".zip" ∷ ".7z" ∷ ".gz" ∷ ".tgz" ∷ ".rar" ∷ ".bz2" ∷ ".xz" ∷ ".zst" ∷ ".lz4" ∷ ".br" ∷ ".cab"
    ∷ ".msi" ∷ ".png" ∷ ".jpg" ∷ ".jpeg" ∷ ".gif" ∷ ".webp" ∷ ".heic" ∷ ".tif" ∷ ".tiff" ∷ ".mp4"
    ∷ ".mkv" ∷ ".mov" ∷ ".avi" ∷ ".wmv" ∷ ".webm" ∷ ".mp3" ∷ ".aac" ∷ ".ogg" ∷ ".flac" ∷ ".m4a"
    ∷ ".pdf" ∷ ".docx" ∷ ".xlsx" ∷ ".pptx" ∷ ".odt" ∷ ".ods" ∷ ".jar" ∷ ".apk" ∷ ".iso" ∷ [])

unfoldable pub is_incompressible : Text → Bool
unfolding contains_text ascii_lower
is_incompressible [] = false
is_incompressible (c ∷ ext) = contains_text incompressible_ext (ascii_lower (c ∷ ext))

unfoldable pub root_prefix : FilePath → Text
unfolding to_text ends_with_char
root_prefix to = let s = to_text to in if ends_with_char s b'/' then s else s ++ b'/' ∷ []

-- `out.pop()`; the root stays.
unfoldable pub pop : FilePath → FilePath
pop [] = []
pop (s ∷ []) = []
pop (s ∷ t ∷ p) = s ∷ pop (t ∷ p)

abbrev pub is_separator : ℕ → Bool
is_separator c = c == b'/' || c == b'\\'

-- A round of the loop of `safe_join`.
unfoldable pub enter : FilePath → Text → FilePath
enter out seg =
    if text_eq seg [] || text_eq seg (codes ".")
    then out
    else if text_eq seg (codes "..")
    then pop out
    else out ++ seg ∷ []

unfoldable pub walk_segments : FilePath → List Text → FilePath
walk_segments out [] = out
walk_segments out (seg ∷ segs) = walk_segments (enter out seg) segs

pub walk_segments-cons :
    (out : FilePath) (seg : Text) (segs : List Text)
    → walk_segments out (seg ∷ segs) ≡ walk_segments (enter out seg) segs
unfolding walk_segments
walk_segments-cons out seg segs = refl

unfoldable pub safe_join : FilePath → Text → Text → Option FilePath
safe_join to prefix rel =
    let out = walk_segments to (split is_separator rel) in
    if starts_with (to_text out) prefix then some out else none

first_nonempty : List Text → Option Text
first_nonempty [] = none
first_nonempty ([] ∷ segs) = first_nonempty segs
first_nonempty ((c ∷ s) ∷ segs) = some (c ∷ s)

unfoldable pub top_segment : Text → Option Text
unfolding first_nonempty split
top_segment rel = first_nonempty (split is_separator rel)

-- As it is on a file system that tells case apart.
unfoldable pub norm_key : FilePath → Text
unfolding to_text
norm_key p = to_text p

-- `path.extension()` of the last name, with its dot; empty if there is none. A dot in front is no
-- extension's.
last_dot : Text → Option Text
last_dot [] = none
last_dot (c ∷ s) = elim (last_dot s) [
  | some e ↦ some e
  | none ↦ if c == b'.' then some (c ∷ s) else none
]

name_ext : Text → Text
unfolding last_dot
name_ext [] = []
name_ext (c ∷ s) = elim (last_dot s) [ some e ↦ e | none ↦ [] ]

unfoldable pub dot_ext : FilePath → Text
unfolding name_ext
dot_ext [] = []
dot_ext (s ∷ []) = name_ext s
dot_ext (s ∷ t ∷ p) = dot_ext (t ∷ p)
