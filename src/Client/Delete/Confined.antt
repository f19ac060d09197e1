-- ===== src/Client/Delete/Confined.antt =====
-- rust/src/client.rs: the mirroring removes nothing outside of the destination.
use folder_transfer.Prelude.{
  ℕ, zero, suc, ◌≡◌, ◌≢◌, refl, sym, ap, ◌∙◌, true, false, List, [], ◌∷◌, ◌++◌, Option, none, some,
  arith, if◌then◌else◌, Bool-cases, inl, inr, length,
}
use folder_transfer.Text.{Text}
use folder_transfer.Paths.{FilePath, norm_key}
use folder_transfer.Ignore.{Regexes, IgnoreSet, is_ignored}
use folder_transfer.Fs.{Node, file, dir, metadata, is_dir, parent}
use folder_transfer.Fs.Laws.{path_eq_iff}
use folder_transfer.Client.{Mirror}
use folder_transfer.Client.Confined.{is_below, roots_outside, apart}
use folder_transfer.Client.Delete.{
  Deleting, contains_seen, is_entry, entries, rel_of, delete_file, delete_entries, delete_unseen,
  delete_roots, mirror_delete,
}
use folder_transfer.Client.Delete.Safety.{metadata-remove_file}

is_below-longer :
    (to at : FilePath) (x : Text) → is_below to at ≡ true → is_below to (at ++ x ∷ []) ≡ true
unfolding is_below
is_below-longer [] [] x h = refl
is_below-longer [] (s ∷ at) x h = refl
is_below-longer (t ∷ to) [] x h = absurd (ground (arith, h))
is_below-longer (t ∷ to) (s ∷ at) x h = ground (arith, is_below-longer to at x)

parent-ne-none : (t : Text) (q : FilePath) → parent (t ∷ q) ≢ none
unfolding parent
parent-ne-none t [] e = cc
parent-ne-none t (u ∷ q) e = ground (arith, e)

above : Text → Option FilePath → Option FilePath
above s none = some (s ∷ [])
above s (some r) = some (s ∷ r)

parent-cons : (s t : Text) (q : FilePath) → parent (s ∷ t ∷ q) ≡ above s (parent (t ∷ q))
unfolding parent above
parent-cons s t q = ground arith

above-some :
    (s : Text) (found : Option FilePath) (at : FilePath)
    → found ≢ none
    → above s found ≡ some at
    → (r : FilePath) × (found ≡ some r) × (at ≡ s ∷ r)
unfolding above
above-some s none at h e = absurd (h refl)
above-some s (some r) at h e = (r, refl, cc)

parent-append : (q at : FilePath) → parent q ≡ some at → (x : Text) × (q ≡ at ++ x ∷ [])
unfolding parent
parent-append [] at e = absurd cc
parent-append (s ∷ []) at e = let e' : at ≡ [] = cc in (s, rw e' refl)
parent-append (s ∷ t ∷ q) at e =
    let (r, found, top) =
      above-some s (parent (t ∷ q)) at (parent-ne-none t q) (sym (parent-cons s t q) ∙ e) in
    let (x, rest) = parent-append (t ∷ q) r found in
    (x, ap (λ l. s ∷ l) rest ∙ ap (λ a. a ++ x ∷ []) (sym top))

is_entry-parent :
    (at q : FilePath) (found : Option FilePath)
    → parent q ≡ found
    → is_entry at q ≡ true
    → parent q ≡ some at
unfolding is_entry
is_entry-parent at q none f e = absurd (ground (arith, f, e))
is_entry-parent at q (some r) f e = f ∙ ap some ((path_eq_iff r at).0 (ground (arith, f, e)))

is_entry-below :
    (to at q : FilePath) → is_below to at ≡ true → is_entry at q ≡ true → is_below to q ≡ true
is_entry-below to at q below e =
    let (x, at_x) = parent-append q at (is_entry-parent at q (parent q) refl e) in
    rw at_x (is_below-longer to at x below)

-- All entries lie below the destination.
abbrev AllBelow : FilePath → List (FilePath × Node) → Type 0
AllBelow to [] = Unit
AllBelow to ((q, n) ∷ es) = (is_below to q ≡ true) × AllBelow to es

entries-AllBelow :
    (to at : FilePath) (nodes : List (FilePath × Node))
    → is_below to at ≡ true
    → AllBelow to (entries at nodes)
unfolding entries
entries-AllBelow to at [] below = tt
entries-AllBelow to at ((q, n) ∷ nodes) below = elim (Bool-cases (is_entry at q)) [
  | inl e ↦ rw e (is_entry-below to at q below e, entries-AllBelow to at nodes below)
  | inr e ↦ rw e (entries-AllBelow to at nodes below)
]

module _ ⦃rx : Regexes⦄ (prefix : Text) (ignore : IgnoreSet rx) (mir : Mirror) (to p : FilePath)
    (outside : is_below to p ≡ false) where
  abbrev Same : Deleting → Deleting → Type 0
  Same s t = metadata p t.fs ≡ metadata p s.fs

  delete_file-Same :
      (q : FilePath) (s : Deleting)
      → is_below to q ≡ true
      → Same s (delete_file prefix ignore mir q s)
  unfolding delete_file
  delete_file-Same q s below =
      elim (Bool-cases (is_ignored ignore (rel_of prefix ignore mir q) false)) [
        | inl hidden ↦ rw hidden refl
        | inr shown ↦ rw shown (elim (Bool-cases (contains_seen (norm_key q) mir)) [
          | inl seen ↦ rw seen refl
          | inr unseen ↦
              rw unseen (metadata-remove_file q p s.fs (inl (apart to p q outside below)))
        ])
      ]

  delete_entries-Same :
      (k : ℕ) (es : List (FilePath × Node)) (s : Deleting)
      → AllBelow to es
      → Same s (delete_entries prefix ignore mir k es s)
  unfolding delete_entries
  delete_entries-Same k [] s h = refl
  delete_entries-Same k ((q, file content t) ∷ es) s h =
      delete_entries-Same k es (delete_file prefix ignore mir q s) h.1 ∙ delete_file-Same q s h.0
  delete_entries-Same zero ((q, dir) ∷ es) s h = delete_entries-Same zero es s h.1
  delete_entries-Same (suc k) ((q, dir) ∷ es) s h =
      delete_entries-Same (suc k) es (delete_entries prefix ignore mir k (entries q s.fs.nodes) s)
        h.1
      ∙ delete_entries-Same k (entries q s.fs.nodes) s (entries-AllBelow to q s.fs.nodes h.0)

  delete_roots-Same :
      (roots : List FilePath) (s : Deleting)
      → roots_outside to roots ≡ 0
      → Same s (delete_roots prefix ignore mir roots s)
  unfolding delete_roots delete_unseen roots_outside
  delete_roots-Same [] s h = refl
  delete_roots-Same (root ∷ roots) s h =
      let t = if is_dir root s.fs then delete_unseen prefix ignore mir root s else s in
      let below : is_below to root ≡ true = ground (arith, h) in
      let rest : roots_outside to roots ≡ 0 = ground (arith, h) in
      let one : Same s t = elim (Bool-cases (is_dir root s.fs)) [
        | inr missing ↦ rw missing refl
        | inl folder ↦ rw folder (
            delete_entries-Same (length s.fs.nodes) (entries root s.fs.nodes) s
              (entries-AllBelow to root s.fs.nodes below))
      ] in
      delete_roots-Same roots t rest ∙ one

  pub mirror_delete_confined :
      (s : Deleting)
      → roots_outside to mir.roots ≡ 0
      → metadata p (mirror_delete prefix ignore mir s).fs ≡ metadata p s.fs
  unfolding mirror_delete
  mirror_delete_confined s h = delete_roots-Same mir.roots s h
