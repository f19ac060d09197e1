-- ===== src/Fs/Keeping.antt =====
-- What the operations of the disk leave at a path: `code` looks at what stands there, and nothing counts for as
-- much as a free path.
use folder_transfer.Prelude.{
  ℕ, ◌≤◌, ◌≡◌, refl, sym, ap, ◌∙◌, false, List, [], ◌∷◌, ◌++◌, Option, none, arith, inl, inr,
  Bool-cases,
}
use folder_transfer.Io.Size.{Shrinks}
use folder_transfer.Mtime.{SystemTime}
use folder_transfer.Paths.{FilePath}
use folder_transfer.Fs.{
  Node, file, dir, Fs, path_eq, put, put_node, metadata, create_dir_all, create, fill, set_modified,
  make_dir, make_dirs,
}
use folder_transfer.Fs.Laws.{path_eq_iff, find-put, metadata-nodes}

module _ (p : FilePath) (code : Option Node → ℕ)
    (top : (o : Option Node) → code o ≤ code none) where
  abbrev pub fs_code : Fs → ℕ
  fs_code fs = code (metadata p fs)

  pub put_node_code :
      (q : FilePath) (n : Node) (fs : Fs)
      → path_eq q p ≡ false
      → fs_code (put_node q n fs) ≡ fs_code fs
  put_node_code q n fs other =
      ap code (metadata-nodes p fs (put q n fs.nodes) (find-put q p n fs.nodes ∙ rw other refl))

  pub fill_code :
      (q : FilePath) (content : List ℕ) (fs : Fs)
      → path_eq q p ≡ false
      → fs_code (fill q content fs) ≡ fs_code fs
  unfolding fill
  fill_code q content fs other = put_node_code q (file content fs.now) fs other

  pub set_modified_code :
      (q : FilePath) (t : SystemTime) (fs : Fs)
      → path_eq q p ≡ false
      → fs_code (set_modified q t fs) ≡ fs_code fs
  unfolding set_modified
  set_modified_code q t fs other = grind (arith, put_node_code q)

  pub create-Shrinks : (q : FilePath) → path_eq q p ≡ false → Shrinks fs_code (create q)
  unfolding create
  create-Shrinks q other fs = grind (arith, put_node_code q)

  new_node_code :
      (q : FilePath) (n : Node) (fs : Fs)
      → metadata q fs ≡ none
      → fs_code (put_node q n fs) ≤ fs_code fs
  new_node_code q n fs free = elim (Bool-cases (path_eq q p)) [
    | inr other ↦ omega (arith, put_node_code q n fs other)
    | inl same ↦
        let e : fs_code fs ≡ code none =
          ap (λ r. code (metadata r fs)) (sym ((path_eq_iff q p).0 same)) ∙ ap code free in
        omega (arith, e, top (metadata p (put_node q n fs)))
  ]

  make_dir-Shrinks : (q : FilePath) → Shrinks fs_code (make_dir q)
  unfolding make_dir
  make_dir-Shrinks q fs = ground (arith, new_node_code q dir fs)

  make_dirs-Shrinks : (above q : FilePath) → Shrinks fs_code (make_dirs above q)
  unfolding make_dirs
  make_dirs-Shrinks above [] fs = omega arith
  make_dirs-Shrinks above (s ∷ q) fs =
      grind (arith, make_dir-Shrinks (above ++ s ∷ []) fs, make_dirs-Shrinks (above ++ s ∷ []) q)

  pub create_dir_all-Shrinks : (q : FilePath) → Shrinks fs_code (create_dir_all q)
  unfolding create_dir_all
  create_dir_all-Shrinks q = make_dirs-Shrinks [] q
