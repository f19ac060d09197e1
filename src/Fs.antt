-- ===== src/Fs.antt =====
-- `std::fs` on the receiving machine, as far as the client uses it.
pub mod Laws
pub mod Keeping
use folder_transfer.Prelude.{
  ℕ, zero, suc, ℤ, Bool, true, false, ◌&&◌, not, List, [], ◌∷◌, ◌++◌, Option, none, some,
  if◌then◌else◌,
}
use folder_transfer.Text.{Text, text_eq}
use folder_transfer.Io.{Io, ok, err, disk, not_found}
use folder_transfer.Mtime.{SystemTime}
use folder_transfer.Paths.{FilePath}

pub data Node : Type 0 where
  file : List ℕ → SystemTime → Node
  dir : Node

-- `nodes` are the files and directories below the root, each once. The disk may refuse to make a node
-- (`permits`), to hold a content (`accepts`) or to set a time (`dates`); there are no links. `now` is the time that a new file gets.
pub record Fs : Type 0 where
  pub nodes : List (FilePath × Node)
  pub permits : FilePath → Bool
  pub accepts : List ℕ → Bool
  pub dates : FilePath → Bool
  pub now : SystemTime

unfoldable pub path_eq : FilePath → FilePath → Bool
unfolding text_eq
path_eq [] [] = true
path_eq [] (t ∷ q) = false
path_eq (s ∷ p) [] = false
path_eq (s ∷ p) (t ∷ q) = text_eq s t && path_eq p q

unfoldable pub find : FilePath → List (FilePath × Node) → Option Node
find p [] = none
find p ((q, n) ∷ nodes) = if path_eq q p then some n else find p nodes

-- `fs::metadata`; the root is a directory.
unfoldable pub metadata : FilePath → Fs → Option Node
unfolding find path_eq
metadata [] fs = some dir
metadata (s ∷ p) fs = find (s ∷ p) fs.nodes

unfoldable pub put : FilePath → Node → List (FilePath × Node) → List (FilePath × Node)
put p n [] = (p, n) ∷ []
put p n ((q, m) ∷ nodes) = if path_eq q p then (q, n) ∷ nodes else (q, m) ∷ put p n nodes

abbrev pub put_node : FilePath → Node → Fs → Fs
put_node p n fs = record fs { nodes = put p n fs.nodes }

-- One directory of `create_dir_all`.
make_dir : FilePath → Fs → Io (Unit {0}) × Fs
make_dir p fs = elim (metadata p fs) [
  | none ↦ if fs.permits p then (ok tt, put_node p dir fs) else (err disk, fs)
  | some (file _ _) ↦ (err disk, fs)
  | some dir ↦ (ok tt, fs)
]

make_dirs : FilePath → FilePath → Fs → Io (Unit {0}) × Fs
make_dirs above [] fs = (ok tt, fs)
make_dirs above (s ∷ p) fs =
    let (r, fs') = make_dir (above ++ s ∷ []) fs in
    elim r [ ok _ ↦ make_dirs (above ++ s ∷ []) p fs' | err e ↦ (err e, fs') ]

unfoldable pub create_dir_all : FilePath → Fs → Io (Unit {0}) × Fs
unfolding make_dirs make_dir
create_dir_all = make_dirs []

abbrev is_dir_node : Option Node → Bool
is_dir_node (some dir) = true
is_dir_node (some (file _ _)) = false
is_dir_node none = false

-- `Path::is_dir`
unfoldable pub is_dir : FilePath → Fs → Bool
is_dir p fs = is_dir_node (metadata p fs)

-- `path.parent()`; `none` at the root.
unfoldable pub parent : FilePath → Option FilePath
parent [] = none
parent (s ∷ []) = some []
parent (s ∷ t ∷ p) = elim (parent (t ∷ p)) [ none ↦ some (s ∷ []) | some q ↦ some (s ∷ q) ]

-- `File::create`: a new or an emptied file, in a directory that is there.
unfoldable pub create : FilePath → Fs → Io (Unit {0}) × Fs
unfolding is_dir parent
create p fs = elim (parent p) [
  | none ↦ (err disk, fs)
  | some q ↦
      if is_dir q fs && not (is_dir p fs) && fs.permits p
      then (ok tt, put_node p (file [] fs.now) fs)
      else (err disk, fs)
]

-- What was written to the open file `p`.
unfoldable pub fill : FilePath → List ℕ → Fs → Fs
fill p content fs = put_node p (file content fs.now) fs

-- `fs::remove_file`
unfoldable pub remove : FilePath → List (FilePath × Node) → List (FilePath × Node)
remove p [] = []
remove p ((q, n) ∷ nodes) = let rest = remove p nodes in if path_eq q p then rest else (q, n) ∷ rest

-- `set_modified` of an open file, whose failure the callers ignore.
unfoldable pub set_modified : FilePath → SystemTime → Fs → Fs
set_modified p t fs = elim (metadata p fs) [
  | some (file content _) ↦ if fs.dates p then put_node p (file content t) fs else fs
  | some dir ↦ fs
  | none ↦ fs
]
