-- ===== src/Config/Upgrade/Kept.antt =====
-- rust/src/config.rs: whatever the disk does, loading a configuration loses nothing of it.
use folder_transfer.Prelude.{
  ℕ, ◌≡◌, ◌⊎◌, inl, inr, refl, ap, ◌∙◌, Bool, true, false, List, [], ◌∷◌, ◌++◌, Option, none, some,
  ◌==◌, arith, length, take, drop, append_assoc, Bool-cases,
}
use folder_transfer.Text.{Text, codes, text_eq}
use folder_transfer.Text.Laws.{text_eq_refl}
use folder_transfer.Text.Utf8.{lossy}
use folder_transfer.Config.{strip_jsonc}
use folder_transfer.Config.Upgrade.{
  Writing, refused, whole, cut, Files, set_content, written, write, read_to_string, Serde, Tunable,
  keep_or_drop, trim_back, before_or, before_brace, new_block, upgraded, backup_path, save,
  save_checked, add_missing, upgrade_object, upgrade_serve_file, load, is_space,
}

-- The old text is whole in the backup, and a new one, which loads, holds it too, with a block put in; the new one is
-- in the file, or as much of it as could be written.
pub record IsUpgraded {C : Type 0} (serde : Serde C) (path raw : Text) (fs : Files) : Type 0 where
  pub head : Text
  pub block : Text
  pub tail : Text
  pub cfg : C
  pub split : raw ≡ head ++ tail
  pub loads : serde.config (strip_jsonc (head ++ (block ++ tail))) ≡ some cfg
  pub backup : fs.content (backup_path path) ≡ some raw
  pub stored :
      (fs.content path ≡ some (head ++ (block ++ tail)))
      ⊎ ((n : ℕ) × (fs.content path ≡ some (take n (head ++ (block ++ tail)))))

-- The file is as it was, or it is upgraded.
abbrev pub Kept : {C : Type 0} → Serde C → Text → Text → Files → Type 0
Kept serde path raw fs = (fs.content path ≡ some raw) ⊎ IsUpgraded serde path raw fs

text_eq-longer : (p : Text) (c : ℕ) (s : Text) → text_eq p (p ++ c ∷ s) ≡ false
unfolding text_eq
text_eq-longer [] c s = refl
text_eq-longer (x ∷ p) c s = ground (arith, text_eq-longer p c s)

text_eq-shorter : (p : Text) (c : ℕ) (s : Text) → text_eq (p ++ c ∷ s) p ≡ false
unfolding text_eq
text_eq-shorter [] c s = refl
text_eq-shorter (x ∷ p) c s = ground (arith, text_eq-shorter p c s)

abbrev Prefix : Text → Text → Type 0
Prefix a s = (rest : Text) × (s ≡ a ++ rest)

keep_or_drop-Prefix : (c : ℕ) (a s : Text) → Prefix a s → Prefix (keep_or_drop c a) (c ∷ s)
keep_or_drop-Prefix c [] s (rest, e) = elim (Bool-cases (is_space c)) [
  | inl y ↦ rw y (c ∷ s, refl)
  | inr n ↦ rw n (s, refl)
]
keep_or_drop-Prefix c (d ∷ a) s (rest, e) = (rest, ap (λ t. c ∷ t) e)

trim_back-Prefix : (s : Text) → Prefix (trim_back s) s
unfolding trim_back
trim_back-Prefix [] = ([], refl)
trim_back-Prefix (c ∷ s) = keep_or_drop-Prefix c (trim_back s) s (trim_back-Prefix s)

before_or-Prefix :
    (c : ℕ) (s : Text) (found : Option Text) (before : Text)
    → ((a : Text) → found ≡ some a → Prefix a s)
    → before_or c s found ≡ some before
    → Prefix before (c ∷ s)
before_or-Prefix c s (some a) before h e =
    let p = h a refl in let e' : before ≡ c ∷ a = cc in rw e' (p.0, ap (λ t. c ∷ t) p.1)
before_or-Prefix c s none before h e = elim (Bool-cases (c == b'}')) [
  | inl y ↦ let e' : before ≡ [] = ground (arith, e, y) in rw e' (c ∷ s, refl)
  | inr n ↦ absurd (ground (arith, e, n))
]

before_brace-Prefix : (s before : Text) → before_brace s ≡ some before → Prefix before s
unfolding before_brace
before_brace-Prefix [] before e = absurd cc
before_brace-Prefix (c ∷ s) before e =
    before_or-Prefix c s (before_brace s) before (before_brace-Prefix s) e

drop-Prefix : (a s : Text) → Prefix a s → s ≡ a ++ drop (length a) s
drop-Prefix [] s p = refl
drop-Prefix (x ∷ a) s (rest, e) = rw e (ap (λ t. x ∷ t) (drop-Prefix a (a ++ rest) (rest, refl)))

write_as :
    (p : Text) (b : List ℕ) (fs : Files) (w : Writing)
    → fs.takes p b ≡ w
    → write p b fs ≡ written w p b fs
unfolding write
write_as p b fs w e = rw e refl

module _ {C : Type 0} (serde : Serde C) (path raw : Text) where
  save-Kept :
      (head block tail : Text) (cfg : C) (fs : Files) (w w' : Writing)
      → raw ≡ head ++ tail
      → serde.config (strip_jsonc (head ++ (block ++ tail))) ≡ some cfg
      → fs.content path ≡ some raw
      → fs.takes (backup_path path) raw ≡ w
      → fs.takes path (head ++ (block ++ tail)) ≡ w'
      → Kept serde path raw (save serde path raw (head ++ (block ++ tail)) fs).1
  unfolding save
  save-Kept head block tail cfg fs refused w' s l c e e' =
      rw (save, write_as (backup_path path) raw fs _ e) (inl c)
  save-Kept head block tail cfg fs (cut n) w' s l c e e' =
      rw (save, write_as (backup_path path) raw fs _ e)
        (inl (rw (text_eq-longer path b'.' (codes "bak")) c))
  save-Kept head block tail cfg fs whole refused s l c e e' =
      rw
        (
          save,
          write_as (backup_path path) raw fs _ e,
          write_as path _ (set_content (backup_path path) raw fs) _ e',
        )
        (inl (rw (text_eq-longer path b'.' (codes "bak")) c))
  save-Kept head block tail cfg fs whole (cut n) s l c e e' =
      rw
        (
          save,
          write_as (backup_path path) raw fs _ e,
          write_as path _ (set_content (backup_path path) raw fs) _ e',
        )
        (inr (record {
          head = head;
          block = block;
          tail = tail;
          cfg = cfg;
          split = s;
          loads = l;
          backup =
              rw (text_eq-shorter path b'.' (codes "bak"), text_eq_refl (backup_path path)) refl;
          stored = inr (n, rw (text_eq_refl path) refl);
        }))
  save-Kept head block tail cfg fs whole whole s l c e e' =
      rw
        (
          save,
          write_as (backup_path path) raw fs _ e,
          write_as path _ (set_content (backup_path path) raw fs) _ e',
        )
        (inr (record {
          head = head;
          block = block;
          tail = tail;
          cfg = cfg;
          split = s;
          loads = l;
          backup =
              rw (text_eq-shorter path b'.' (codes "bak"), text_eq_refl (backup_path path)) refl;
          stored = inl (rw (text_eq_refl path) refl);
        }))

  saved-Kept :
      (before : Text) (missing : List Tunable) (cfg : C) (fs : Files)
      → Prefix before raw
      → Prefix (trim_back before) before
      → serde.config (strip_jsonc (upgraded raw before missing)) ≡ some cfg
      → fs.content path ≡ some raw
      → Kept serde path raw (save serde path raw (upgraded raw before missing) fs).1
  unfolding upgraded
  saved-Kept before missing cfg fs (rest, e) (spaces, e') f c =
      let head = trim_back before in
      save-Kept head (new_block head missing) (drop (length head) raw) cfg fs _ _
        (drop-Prefix head raw
          (spaces ++ rest, e ∙ ap (λ b. b ++ rest) e' ∙ append_assoc head spaces rest))
        f c refl refl

  upgraded-Kept :
      (before : Text) (missing : List Tunable) (found : Option C) (fs : Files)
      → Prefix before raw
      → serde.config (strip_jsonc (upgraded raw before missing)) ≡ found
      → fs.content path ≡ some raw
      → Kept serde path raw (save_checked serde path raw (upgraded raw before missing) fs).1
  unfolding save_checked
  upgraded-Kept before missing none fs p f c = rw (f, save_checked) (inl c)
  upgraded-Kept before missing (some cfg) fs p f c =
      rw (f, save_checked) (saved-Kept before missing cfg fs p (trim_back-Prefix before) f c)

  add_missing-Kept :
      (missing : List Tunable) (found : Option Text) (fs : Files)
      → before_brace raw ≡ found
      → fs.content path ≡ some raw
      → Kept serde path raw (add_missing serde path raw missing fs).1
  unfolding add_missing
  add_missing-Kept [] found fs e c = inl c
  add_missing-Kept (m ∷ more) none fs e c = rw (e, add_missing) (inl c)
  add_missing-Kept (m ∷ more) (some before) fs e c =
      rw (e, add_missing)
        (upgraded-Kept before (m ∷ more) _ fs (before_brace-Prefix raw before e) refl c)

  upgrade_object-Kept :
      (keys : Option (Text → Bool)) (fs : Files)
      → fs.content path ≡ some raw
      → Kept serde path raw (upgrade_object serde path raw keys fs).1
  unfolding upgrade_object
  upgrade_object-Kept none fs c = inl c
  upgrade_object-Kept (some has) fs c = add_missing-Kept _ _ fs refl c

  upgrade-Kept :
      (stripped : Text) (found : Option serde.Value) (fs : Files)
      → serde.from_str stripped ≡ found
      → fs.content path ≡ some raw
      → Kept serde path raw (upgrade_serve_file serde path raw stripped fs).1
  unfolding upgrade_serve_file
  upgrade-Kept stripped none fs e c = rw (e, upgrade_serve_file) (inl c)
  upgrade-Kept stripped (some val) fs e c =
      rw (e, upgrade_serve_file) (upgrade_object-Kept (serde.as_object val) fs c)

  load_text-Kept :
      (valid : Bool) (found : Option C) (fs : Files)
      → text_eq (lossy raw) raw ≡ valid
      → serde.config (strip_jsonc raw) ≡ found
      → fs.content path ≡ some raw
      → Kept serde path raw (load serde path fs).1
  unfolding load read_to_string
  load_text-Kept false found fs e f c = rw (load, c, e) (inl c)
  load_text-Kept true none fs e f c = rw (load, c, e, f) (inl c)
  load_text-Kept true (some cfg) fs e f c =
      rw (load, c, e, f) (upgrade-Kept (strip_jsonc raw) _ fs refl c)

  -- Loading the configuration of a server, whatever serde_json reads in it and however the writes fail: the file
  -- is left as it was; or its text is whole in the backup, and the file has, or has the beginning of, a text that loads
  -- and that is the old one with a block put in.
  pub load-Kept :
      (fs : Files) → fs.content path ≡ some raw → Kept serde path raw (load serde path fs).1
  load-Kept fs c = load_text-Kept _ _ fs refl refl c
