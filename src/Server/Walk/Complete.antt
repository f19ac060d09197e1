-- ===== src/Server/Walk/Complete.antt =====
-- Which files the producer puts into the queue: those of a plain walk of the trees.
use folder_transfer.Prelude.{
  ℕ, zero, suc, ◌+◌, ◌≤◌, ◌≡◌, refl, ap, ℤ, true, false, List, [], ◌∷◌, ◌++◌, Option, none, some,
  arith, if◌then◌else◌, Bool-cases, inl, inr,
}
use folder_transfer.Paths.{FilePath, pop}
use folder_transfer.Ignore.{Regexes, IgnoreSet, is_ignored}
use folder_transfer.Server.Body.{BundleItem}
use folder_transfer.Server.Walk.{
  Tree, nil, file, folder, other, rel_to_base, Producer, no_work, Frame, push_all, push_folders,
  take_file, take_files, mark_dir, walk_stack, count_folders, Root, walk_root, walk_roots,
  producer_walk,
}
use folder_transfer.Server.Walk.Weight.{
  sum, sum_units, held, sum-append, pending_cases, held-offer_file, held-mark,
}

-- The files of a tree that are to be offered: no file that is ignored, none below a folder that is.
module _ ⦃rx : Regexes⦄ (ignore : IgnoreSet rx) (base : FilePath) where
  abbrev pub offered_file : FilePath → Option (ℕ × ℤ) → List BundleItem
  offered_file full none = []
  offered_file full (some (size, mt)) =
      let rel = rel_to_base base full in
      if is_ignored ignore rel false
      then []
      else record { full = full; rel = rel; size = size; mtime = mt } ∷ []

  unfoldable pub offered_files : FilePath → Tree → List BundleItem
  offered_files at nil = []
  offered_files at (file name meta rest) =
      offered_file (at ++ name ∷ []) meta ++ offered_files at rest
  offered_files at (folder name inside rest) =
      let p = at ++ name ∷ [] in
      let inner = offered_files p inside in
      (if is_ignored ignore (rel_to_base base p) true then [] else inner) ++ offered_files at rest
  offered_files at (other name rest) = offered_files at rest

unfoldable pub offered_roots : ⦃rx : Regexes⦄ → IgnoreSet rx → List Root → List BundleItem
offered_roots ignore [] = []
offered_roots ignore ((root, entries) ∷ roots) =
    offered_files ignore (pop root) root entries ++ offered_roots ignore roots

-- The rounds that are left for a stack.
abbrev stack_folders : List Frame → ℕ
stack_folders [] = 0
stack_folders ((at, entries, d) ∷ stack) = suc (count_folders entries + stack_folders stack)

folders-push_all :
    (at : FilePath) (t : Tree) (stack : List Frame)
    → stack_folders (push_all at t stack) ≡ count_folders t + stack_folders stack
unfolding push_all count_folders
folders-push_all at nil stack = omega arith
folders-push_all at (file name meta rest) stack = folders-push_all at rest stack
folders-push_all at (folder name inside rest) stack =
    omega (arith, folders-push_all at rest ((at ++ name ∷ [], inside, true) ∷ stack))
folders-push_all at (other name rest) stack = folders-push_all at rest stack

folders-push_folders :
    ⦃rx : Regexes⦄ (ignore : IgnoreSet rx) (base at : FilePath) (t : Tree) (stack : List Frame)
    → stack_folders (push_folders ignore base at t stack) ≡ count_folders t + stack_folders stack
unfolding push_folders count_folders
folders-push_folders ignore base at nil stack = omega arith
folders-push_folders ignore base at (file name meta rest) stack =
    folders-push_folders ignore base at rest stack
folders-push_folders ignore base at (folder name inside rest) stack =
    let p = at ++ name ∷ [] in
    omega (
      arith,
      folders-push_folders ignore base at rest
          ((p, inside, is_ignored ignore (rel_to_base base p) true) ∷ stack),
    )
folders-push_folders ignore base at (other name rest) stack =
    folders-push_folders ignore base at rest stack

module _ (w : BundleItem → ℕ) where
  module _ ⦃rx : Regexes⦄ (ignore : IgnoreSet rx) (base : FilePath) where
    abbrev offered_sum : FilePath → Tree → ℕ
    offered_sum at t = sum w (offered_files ignore base at t)

    -- The files that lie in the folder itself.
    abbrev direct_sum : FilePath → Tree → ℕ
    direct_sum at nil = 0
    direct_sum at (file name meta rest) =
        sum w (offered_file ignore base (at ++ name ∷ []) meta) + direct_sum at rest
    direct_sum at (folder name inside rest) = direct_sum at rest
    direct_sum at (other name rest) = direct_sum at rest

    abbrev frame_sum : Frame → ℕ
    frame_sum (at, entries, true) = 0
    frame_sum (at, entries, false) = offered_sum at entries

    abbrev stack_sum : List Frame → ℕ
    stack_sum [] = 0
    stack_sum (f ∷ stack) = frame_sum f + stack_sum stack

    held-take_file :
        (full : FilePath) (meta : Option (ℕ × ℤ)) (p : Producer)
        → held w (take_file ignore base full meta p)
          ≡ held w p + sum w (offered_file ignore base full meta)
    unfolding take_file
    held-take_file full none p = omega arith
    held-take_file full (some (size, mt)) p =
        let item : BundleItem = record {
          full = full;
          rel = rel_to_base base full;
          size = size;
          mtime = mt;
        } in
        elim (Bool-cases (is_ignored ignore (rel_to_base base full) false)) [
          | inl hidden ↦ rw hidden (omega arith)
          | inr offered ↦ rw offered (omega (arith, held-offer_file w item p))
        ]

    held-take_files :
        (at : FilePath) (t : Tree) (p : Producer)
        → held w (take_files ignore base at t p) ≡ held w p + direct_sum at t
    unfolding take_files
    held-take_files at nil p = omega arith
    held-take_files at (file name meta rest) p = omega (
      arith,
      held-take_file (at ++ name ∷ []) meta p,
      held-take_files at rest (take_file ignore base (at ++ name ∷ []) meta p),
    )
    held-take_files at (folder name inside rest) p = held-take_files at rest p
    held-take_files at (other name rest) p = held-take_files at rest p

    stack_sum-push_folders :
        (at : FilePath) (t : Tree) (stack : List Frame)
        → direct_sum at t + stack_sum (push_folders ignore base at t stack)
          ≡ offered_sum at t + stack_sum stack
    unfolding push_folders offered_files
    stack_sum-push_folders at nil stack = refl
    stack_sum-push_folders at (file name meta rest) stack = omega (
      arith,
      sum-append w (offered_file ignore base (at ++ name ∷ []) meta)
          (offered_files ignore base at rest),
      stack_sum-push_folders at rest stack,
    )
    stack_sum-push_folders at (folder name inside rest) stack =
        let p = at ++ name ∷ [] in
        elim (Bool-cases (is_ignored ignore (rel_to_base base p) true)) [
          | inl hidden ↦
              rw hidden (omega (arith, stack_sum-push_folders at rest ((p, inside, true) ∷ stack)))
          | inr shown ↦ rw shown (
              omega (
                arith,
                stack_sum-push_folders at rest ((p, inside, false) ∷ stack),
                sum-append w (offered_files ignore base p inside)
                    (offered_files ignore base at rest),
              ))
        ]
    stack_sum-push_folders at (other name rest) stack = stack_sum-push_folders at rest stack

    stack_sum-push_all :
        (at : FilePath) (t : Tree) (stack : List Frame)
        → stack_sum (push_all at t stack) ≡ stack_sum stack
    unfolding push_all
    stack_sum-push_all at nil stack = refl
    stack_sum-push_all at (file name meta rest) stack = stack_sum-push_all at rest stack
    stack_sum-push_all at (folder name inside rest) stack =
        omega (arith, stack_sum-push_all at rest ((at ++ name ∷ [], inside, true) ∷ stack))
    stack_sum-push_all at (other name rest) stack = stack_sum-push_all at rest stack

    held-walk_stack :
        (k : ℕ) (stack : List Frame) (p : Producer)
        → stack_folders stack ≤ k
        → held w (walk_stack ignore base k stack p) ≡ held w p + stack_sum stack
    unfolding walk_stack
    held-walk_stack k [] p h = omega arith
    held-walk_stack zero ((at, entries, d) ∷ stack) p h = absurd (omega arith)
    held-walk_stack (suc k) ((at, entries, true) ∷ stack) p h = omega (
      arith,
      held-walk_stack k (push_all at entries stack) (mark_dir ignore base at p)
          (omega (arith, folders-push_all at entries stack)),
      stack_sum-push_all at entries stack,
      held-mark w ignore base at p,
    )
    held-walk_stack (suc k) ((at, entries, false) ∷ stack) p h = omega (
      arith,
      held-walk_stack k (push_folders ignore base at entries stack)
          (take_files ignore base at entries p)
          (omega (arith, folders-push_folders ignore base at entries stack)),
      stack_sum-push_folders at entries stack,
      held-take_files at entries p,
    )

  held-walk_roots :
      ⦃rx : Regexes⦄ (ignore : IgnoreSet rx) (roots : List Root) (p : Producer)
      → held w (walk_roots ignore roots p) ≡ held w p + sum w (offered_roots ignore roots)
  unfolding walk_roots walk_root offered_roots
  held-walk_roots ignore [] p = omega arith
  held-walk_roots ignore ((root, entries) ∷ roots) p =
      let fuel = suc (count_folders entries) in
      let start : List Frame = (root, entries, false) ∷ [] in
      omega (
        arith,
        held-walk_roots ignore roots (walk_root ignore (root, entries) p),
        held-walk_stack ignore (pop root) fuel start p (omega arith),
        sum-append w (offered_files ignore (pop root) root entries) (offered_roots ignore roots),
      )

  -- For every weight of the files, the units that the producer queues weigh as much as the files that are
  -- to be offered: those that are not ignored and lie below no ignored folder. So each such file is in
  -- the units exactly as often as in the trees, and no other is.
  pub producer_walk-offered_roots :
      ⦃rx : Regexes⦄ (ignore : IgnoreSet rx) (roots : List Root)
      → sum_units w (producer_walk ignore roots) ≡ sum w (offered_roots ignore roots)
  unfolding producer_walk
  producer_walk-offered_roots ignore roots =
      let (same, nothing) = pending_cases w (walk_roots ignore roots no_work) in
      omega (arith, same, ap (sum w) nothing, held-walk_roots ignore roots no_work)
