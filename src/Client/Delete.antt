-- ===== src/Client/Delete.antt =====
-- rust/src/client.rs: `mirror_delete` and `delete_unseen`.
pub mod Safety
pub mod Confined
use folder_transfer.Prelude.{
  ℕ, zero, suc, ◌+◌, Bool, true, false, ◌&&◌, ◌||◌, List, [], ◌∷◌, Option, none, some,
  if◌then◌else◌, length, drop,
}
use folder_transfer.Text.{Text, contains_text}
use folder_transfer.Mtime.{SystemTime}
use folder_transfer.Paths.{FilePath, to_text, norm_key}
use folder_transfer.Ignore.{Regexes, IgnoreSet, is_ignored}
use folder_transfer.Fs.{Node, file, dir, Fs, path_eq, metadata, is_dir, parent, remove}
use folder_transfer.Client.{Stats, Mirror}

unfoldable pub contains_seen : Text → Mirror → Bool
contains_seen key m = contains_text m.seen key

-- `fs::read_dir`: the nodes whose parent the directory is.
unfoldable pub is_entry : FilePath → FilePath → Bool
unfolding parent
is_entry at p = elim (parent p) [ none ↦ false | some q ↦ path_eq q at ]

unfoldable pub entries : FilePath → List (FilePath × Node) → List (FilePath × Node)
entries at [] = []
entries at ((p, n) ∷ nodes) =
    let rest = entries at nodes in if is_entry at p then (p, n) ∷ rest else rest

-- `fs::remove_file`: not of a directory, and only if the system permits it.
unfoldable pub remove_file : FilePath → Fs → Fs
remove_file p fs = elim (metadata p fs) [
  | some (file content t) ↦ if fs.permits p then record fs { nodes = remove p fs.nodes } else fs
  | some dir ↦ fs
  | none ↦ fs
]

-- The disk and the statistics.
pub record Deleting : Type 0 where
  pub fs : Fs
  pub stats : Stats

module _ ⦃rx : Regexes⦄ (prefix : Text) (ignore : IgnoreSet rx) (mir : Mirror) where
  -- `full.get(prefix.len()..).unwrap_or("")`: out of range it is empty.
  abbrev pub rel_of : FilePath → Text
  rel_of p = drop (length prefix) (to_text p)

  -- Ignored content is never deleted; nor is what was offered.
  abbrev pub is_kept : FilePath → Bool
  is_kept p = is_ignored ignore (rel_of p) false || contains_seen (norm_key p) mir

  unfoldable pub delete_file : FilePath → Deleting → Deleting
  delete_file p s =
      if is_ignored ignore (rel_of p) false
      then s
      else if contains_seen (norm_key p) mir
      then s
      else record {
        fs = remove_file p s.fs;
        stats = record s.stats { deleted = s.stats.deleted + 1 };
      }

  -- The loop over the entries of a directory, which were read when it was opened. `k` bounds the depth.
  unfoldable pub delete_entries : ℕ → List (FilePath × Node) → Deleting → Deleting
  delete_entries k [] s = s
  delete_entries k ((p, file content t) ∷ es) s = delete_entries k es (delete_file p s)
  delete_entries zero ((p, dir) ∷ es) s = delete_entries zero es s
  delete_entries (suc k) ((p, dir) ∷ es) s =
      delete_entries (suc k) es (delete_entries k (entries p s.fs.nodes) s)

  -- No path is nested deeper than there are nodes.
  unfoldable pub delete_unseen : FilePath → Deleting → Deleting
  delete_unseen at s = delete_entries (length s.fs.nodes) (entries at s.fs.nodes) s

  unfoldable pub delete_roots : List FilePath → Deleting → Deleting
  delete_roots [] s = s
  delete_roots (root ∷ roots) s =
      delete_roots roots (if is_dir root s.fs then delete_unseen root s else s)

  unfoldable pub mirror_delete : Deleting → Deleting
  mirror_delete = delete_roots mir.roots
