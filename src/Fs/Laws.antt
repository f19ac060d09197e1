-- ===== src/Fs/Laws.antt =====
-- Laws of the file system.
use folder_transfer.Prelude.{
  ◌≡◌, refl, ◌↔◌, true, List, [], ◌∷◌, ◌++◌, none, some, arith, if◌then◌else◌,
}
use folder_transfer.Text.Laws.{text_eq_iff}
use folder_transfer.Paths.{FilePath}
use folder_transfer.Fs.{
  Node, Fs, path_eq, find, put, remove, metadata, create, make_dir, make_dirs, create_dir_all,
}

pub path_eq_iff : (p q : FilePath) → (path_eq p q ≡ true) ↔ (p ≡ q)
unfolding path_eq
path_eq_iff [] [] = (λ _. refl, λ _. refl)
path_eq_iff [] (t ∷ q) = (λ h. cc, λ h. cc)
path_eq_iff (s ∷ p) [] = (λ h. cc, λ h. cc)
path_eq_iff (s ∷ p) (t ∷ q) = ground (arith, text_eq_iff s t, path_eq_iff p q)

pub find-put :
    (p q : FilePath) (n : Node) (nodes : List (FilePath × Node))
    → find q (put p n nodes) ≡ (if path_eq p q then some n else find q nodes)
unfolding find put
find-put p q n [] = refl
find-put p q n ((r, m) ∷ nodes) =
    ground (arith, path_eq_iff r p, path_eq_iff r q, path_eq_iff p q, find-put p q n nodes)

pub find-remove :
    (p q : FilePath) (nodes : List (FilePath × Node))
    → find q (remove p nodes) ≡ (if path_eq p q then none else find q nodes)
unfolding find remove
find-remove p q [] = ground arith
find-remove p q ((r, m) ∷ nodes) =
    ground (arith, path_eq_iff r p, path_eq_iff r q, path_eq_iff p q, find-remove p q nodes)

pub metadata-nodes :
    (q : FilePath) (fs : Fs) (nodes : List (FilePath × Node))
    → find q nodes ≡ find q fs.nodes
    → metadata q (record fs { nodes = nodes }) ≡ metadata q fs
unfolding metadata
metadata-nodes [] fs nodes h = refl
metadata-nodes (t ∷ q) fs nodes h = h

-- Nothing changes which times can be set.
pub dates-create : (p q : FilePath) (fs : Fs) → (create q fs).1.dates p ≡ fs.dates p
unfolding create
dates-create p q fs = grind arith

dates-make_dir : (p q : FilePath) (fs : Fs) → (make_dir q fs).1.dates p ≡ fs.dates p
unfolding make_dir
dates-make_dir p q fs = ground arith

dates-make_dirs : (p above q : FilePath) (fs : Fs) → (make_dirs above q fs).1.dates p ≡ fs.dates p
unfolding make_dirs
dates-make_dirs p above [] fs = refl
dates-make_dirs p above (s ∷ q) fs =
    grind (arith, dates-make_dir p (above ++ s ∷ []) fs, dates-make_dirs p (above ++ s ∷ []) q)

pub dates-create_dir_all : (p q : FilePath) (fs : Fs) → (create_dir_all q fs).1.dates p ≡ fs.dates p
unfolding create_dir_all
dates-create_dir_all p q = dates-make_dirs p [] q
