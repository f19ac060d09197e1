-- ===== src/Client/Delete/Safety.antt =====
-- What the mirroring leaves alone.
use folder_transfer.Prelude.{
  ℕ, zero, suc, ◌≡◌, ◌≢◌, refl, sym, ap, ◌∙◌, Bool, true, false, List, [], ◌∷◌, none, some,
  if◌then◌else◌, Bool-cases, inl, inr, ◌⊎◌, length,
}
use folder_transfer.Text.{Text}
use folder_transfer.Mtime.{SystemTime}
use folder_transfer.Paths.{FilePath, norm_key}
use folder_transfer.Ignore.{Regexes, IgnoreSet, is_ignored}
use folder_transfer.Fs.{Node, file, dir, Fs, path_eq, metadata, is_dir, remove}
use folder_transfer.Fs.Laws.{path_eq_iff, find-remove, metadata-nodes}
use folder_transfer.Client.{Mirror}
use folder_transfer.Client.Delete.{
  Deleting, contains_seen, entries, remove_file, rel_of, is_kept, delete_file, delete_entries,
  delete_unseen, delete_roots, mirror_delete,
}

apart_nodes : {content : List ℕ} {t : SystemTime} → some (file content t) ≢ some dir
apart_nodes h = cc

kept_not : {a b : Bool} → a ≡ b → a ≡ false → b ≡ true → ⊥
kept_not e f t = cc

-- A path that is not removed: another one, or a directory.
pub metadata-remove_file :
    (p q : FilePath) (fs : Fs)
    → (path_eq p q ≡ false) ⊎ (metadata q fs ≡ some dir)
    → metadata q (remove_file p fs) ≡ metadata q fs
unfolding remove_file
metadata-remove_file p q fs h =
    elim (metadata p fs)
        as (λ m.
          metadata p fs ≡ m
          → metadata q (elim m [
            | some (file content t) ↦
                if fs.permits p then record fs { nodes = remove p fs.nodes } else fs
            | some dir ↦ fs
            | none ↦ fs
          ])
            ≡ metadata q fs) [
              | none ↦ λ e. refl
              | some dir ↦ λ e. refl
              | some (file content t) ↦ λ e. elim (Bool-cases (fs.permits p)) [
                | inr refused ↦ rw refused
                | inl permitted ↦ rw permitted (elim (Bool-cases (path_eq p q)) [
                  | inr apart ↦
                      metadata-nodes q fs (remove p fs.nodes)
                        (find-remove p q fs.nodes ∙ (rw apart))
                  | inl same ↦
                      let pq : p ≡ q = (path_eq_iff p q).0 same in
                      elim h [
                        | inl apart ↦ cc
                        | inr folder ↦
                            absurd (apart_nodes (sym e ∙ ap (λ r. metadata r fs) pq ∙ folder))
                      ]
                ])
              ]
            ]
      refl

module _ ⦃rx : Regexes⦄ (prefix : Text) (ignore : IgnoreSet rx) (mir : Mirror) where
  -- What stands at `q` in a state, and in a later one.
  abbrev Same : FilePath → Deleting → Deleting → Type 0
  Same q s t = metadata q t.fs ≡ metadata q s.fs

  abbrev Safe : FilePath → Deleting → Type 0
  Safe q s = (is_kept prefix ignore mir q ≡ true) ⊎ (metadata q s.fs ≡ some dir)

  other_or_dir :
      (p q : FilePath) (s : Deleting)
      → is_kept prefix ignore mir p ≡ false
      → Safe q s
      → (path_eq p q ≡ false) ⊎ (metadata q s.fs ≡ some dir)
  other_or_dir p q s open_to (inr folder) = inr folder
  other_or_dir p q s open_to (inl kept) = elim (Bool-cases (path_eq p q)) [
    | inr apart ↦ inl apart
    | inl same ↦
        absurd
          (kept_not (ap (λ r. is_kept prefix ignore mir r) ((path_eq_iff p q).0 same)) open_to kept)
  ]

  delete_file-Same :
      (p q : FilePath) (s : Deleting) → Safe q s → Same q s (delete_file prefix ignore mir p s)
  unfolding delete_file
  delete_file-Same p q s h =
      elim (Bool-cases (is_ignored ignore (rel_of prefix ignore mir p) false)) [
        | inl hidden ↦ rw hidden
        | inr shown ↦ rw shown (elim (Bool-cases (contains_seen (norm_key p) mir)) [
          | inl seen ↦ rw seen
          | inr unseen ↦
              rw unseen
                (metadata-remove_file p q s.fs (other_or_dir p q s (rw (shown, unseen) refl) h))
        ])
      ]

  Safe-next : (q : FilePath) (s t : Deleting) → Same q s t → Safe q s → Safe q t
  Safe-next q s t e (inl kept) = inl kept
  Safe-next q s t e (inr folder) = inr (e ∙ folder)

  delete_entries-Same :
      (k : ℕ) (es : List (FilePath × Node)) (q : FilePath) (s : Deleting)
      → Safe q s
      → Same q s (delete_entries prefix ignore mir k es s)
  unfolding delete_entries
  delete_entries-Same k [] q s h = refl
  delete_entries-Same k ((p, file content t) ∷ es) q s h =
      let one = delete_file-Same p q s h in
      delete_entries-Same k es q (delete_file prefix ignore mir p s)
        (Safe-next q s (delete_file prefix ignore mir p s) one h)
      ∙ one
  delete_entries-Same zero ((p, dir) ∷ es) q s h = delete_entries-Same zero es q s h
  delete_entries-Same (suc k) ((p, dir) ∷ es) q s h =
      let inner = delete_entries-Same k (entries p s.fs.nodes) q s h in
      let t = delete_entries prefix ignore mir k (entries p s.fs.nodes) s in
      delete_entries-Same (suc k) es q t (Safe-next q s t inner h) ∙ inner

  delete_roots-Same :
      (roots : List FilePath) (q : FilePath) (s : Deleting)
      → Safe q s
      → Same q s (delete_roots prefix ignore mir roots s)
  unfolding delete_roots delete_unseen
  delete_roots-Same [] q s h = refl
  delete_roots-Same (root ∷ roots) q s h =
      let t = if is_dir root s.fs then delete_unseen prefix ignore mir root s else s in
      let one : Same q s t = elim (Bool-cases (is_dir root s.fs)) [
        | inr missing ↦ rw missing refl
        | inl folder ↦
            rw folder (delete_entries-Same (length s.fs.nodes) (entries root s.fs.nodes) q s h)
      ] in
      delete_roots-Same roots q t (Safe-next q s t one h) ∙ one

  -- Mirroring changes nothing at a path that is ignored or was offered in the last pass, and removes no
  -- directory: what stands at such a path stands there still, with its content and time.
  pub mirror_delete-keeps :
      (q : FilePath) (s : Deleting)
      → (is_kept prefix ignore mir q ≡ true) ⊎ (metadata q s.fs ≡ some dir)
      → metadata q (mirror_delete prefix ignore mir s).fs ≡ metadata q s.fs
  unfolding mirror_delete
  mirror_delete-keeps q s h = delete_roots-Same mir.roots q s h
