-- ===== src/Server/Walk.antt =====
-- rust/src/server.rs: the walk of the shared folders, as the producer of the parallel mode does it.
pub mod Bundles
pub mod Weight
pub mod Complete
use folder_transfer.Prelude.{
  ℕ, zero, suc, ◌+◌, ◌*◌, ℤ, Bool, true, false, ◌||◌, not, List, [], ◌∷◌, ◌++◌, Option, none, some,
  leb, ltb, ◌==◌, if◌then◌else◌, length, drop,
}
use folder_transfer.Text.{Text}
use folder_transfer.Text.Trim.{trim_start_matches}
use folder_transfer.Paths.{FilePath, to_text, is_separator, pop}
use folder_transfer.Ignore.{Regexes, IgnoreSet, is_ignored}
use folder_transfer.Server.Body.{BundleItem}

abbrev pub small_file : ℕ
small_file = 1048576

abbrev pub bundle_bytes : ℕ
bundle_bytes = 10485760

abbrev pub bundle_max_count : ℕ
bundle_max_count = 4096

-- The entries of a directory in the order of `read_dir`, each with its name: a file with the size and
-- time that `fs::metadata` gives, if it gives any; a folder with its own entries, none if it cannot be
-- read; and what is neither, or has no type that can be read.
pub data Tree : Type 0 where
  nil : Tree
  file : Text → Option (ℕ × ℤ) → Tree → Tree
  folder : Text → Tree → Tree → Tree
  other : Text → Tree → Tree

-- `f.get(b.len()..).unwrap_or("")`: out of range it is empty.
unfoldable pub rel_to_base : FilePath → FilePath → Text
unfolding to_text trim_start_matches
rel_to_base base full =
    trim_start_matches is_separator (drop (length (to_text base)) (to_text full))

-- A unit of work.
pub data WorkUnit : Type 0 where
  dir_unit : Text → WorkUnit
  bundle_unit : List BundleItem → WorkUnit
  large_unit : BundleItem → WorkUnit

-- `bundle`, `bbytes`, and what was put into the queue, in its order.
pub record Producer : Type 0 where
  pub bundle : List BundleItem
  pub bbytes : ℕ
  pub queued : List WorkUnit

abbrev pub no_work : Producer
no_work = record { bundle = []; bbytes = 0; queued = [] }

abbrev pub enqueue : WorkUnit → Producer → Producer
enqueue u p = record p { queued = p.queued ++ u ∷ [] }

-- `std::mem::take(&mut bundle)`
abbrev pub flush_bundle : Producer → Producer
flush_bundle p = record { bundle = []; bbytes = 0; queued = p.queued ++ bundle_unit p.bundle ∷ [] }

abbrev pub is_empty {ℓ} : {A : Type ℓ} → List A → Bool
is_empty [] = true
is_empty (x ∷ xs) = false

abbrev pub flush_pending : Producer → Producer
flush_pending p = if is_empty p.bundle then p else flush_bundle p

unfoldable pub offer_small : BundleItem → Producer → Producer
offer_small item p =
    let q : Producer = record p { bundle = p.bundle ++ item ∷ []; bbytes = p.bbytes + item.size } in
    if leb bundle_bytes q.bbytes || leb bundle_max_count (length q.bundle)
    then flush_bundle q
    else q

unfoldable pub offer_file : BundleItem → Producer → Producer
offer_file item p =
    if leb item.size small_file
    then offer_small item p
    else enqueue (large_unit item) (flush_pending p)

-- An entry of the stack: a directory, its entries, and `dirs_only`.
abbrev pub Frame : Type 0
Frame = FilePath × Tree × Bool

-- The folders of an ignored directory.
unfoldable pub push_all : FilePath → Tree → List Frame → List Frame
push_all at nil stack = stack
push_all at (file name meta rest) stack = push_all at rest stack
push_all at (folder name inside rest) stack =
    push_all at rest ((at ++ name ∷ [], inside, true) ∷ stack)
push_all at (other name rest) stack = push_all at rest stack

module _ ⦃rx : Regexes⦄ (ignore : IgnoreSet rx) (base : FilePath) where
  -- The first loop over the entries: folders go on the stack.
  unfoldable pub push_folders : FilePath → Tree → List Frame → List Frame
  push_folders at nil stack = stack
  push_folders at (file name meta rest) stack = push_folders at rest stack
  push_folders at (folder name inside rest) stack =
      let p = at ++ name ∷ [] in
      push_folders at rest ((p, inside, is_ignored ignore (rel_to_base base p) true) ∷ stack)
  push_folders at (other name rest) stack = push_folders at rest stack

  -- The body of the second loop, for one file.
  unfoldable pub take_file : FilePath → Option (ℕ × ℤ) → Producer → Producer
  take_file full none p = p
  take_file full (some (size, mt)) p =
      let rel = rel_to_base base full in
      if is_ignored ignore rel false
      then p
      else offer_file (record { full = full; rel = rel; size = size; mtime = mt }) p

  unfoldable pub take_files : FilePath → Tree → Producer → Producer
  take_files at nil p = p
  take_files at (file name meta rest) p = take_files at rest (take_file (at ++ name ∷ []) meta p)
  take_files at (folder name inside rest) p = take_files at rest p
  take_files at (other name rest) p = take_files at rest p

  unfoldable pub mark_dir : FilePath → Producer → Producer
  mark_dir at p =
      let rel_dir = rel_to_base base at in
      if is_empty rel_dir then p else enqueue (dir_unit rel_dir) p

  -- The loop over the stack; each round takes one folder off it.
  unfoldable pub walk_stack : ℕ → List Frame → Producer → Producer
  walk_stack k [] p = p
  walk_stack zero (f ∷ stack) p = p
  walk_stack (suc k) ((at, entries, true) ∷ stack) p =
      walk_stack k (push_all at entries stack) (mark_dir at p)
  walk_stack (suc k) ((at, entries, false) ∷ stack) p =
      walk_stack k (push_folders at entries stack) (take_files at entries p)

unfoldable pub count_folders : Tree → ℕ
count_folders nil = 0
count_folders (file name meta rest) = count_folders rest
count_folders (folder name inside rest) = suc (count_folders inside + count_folders rest)
count_folders (other name rest) = count_folders rest

-- A shared folder: its path and its entries.
abbrev pub Root : Type 0
Root = FilePath × Tree

module _ ⦃rx : Regexes⦄ (ignore : IgnoreSet rx) where
  unfoldable pub walk_root : Root → Producer → Producer
  walk_root (root, entries) p =
      walk_stack ignore (pop root) (suc (count_folders entries)) ((root, entries, false) ∷ []) p

  unfoldable pub walk_roots : List Root → Producer → Producer
  walk_roots [] p = p
  walk_roots (r ∷ roots) p = walk_roots roots (walk_root r p)

  -- The units in the order of their queueing.
  unfoldable pub producer_walk : List Root → List WorkUnit
  producer_walk roots = (flush_pending (walk_roots roots no_work)).queued
