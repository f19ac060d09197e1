-- ===== src/Config/Upgrade/OneLine.antt =====
-- rust/src/config.rs: a configuration on one line is not upgraded.
use folder_transfer.Prelude.{
  ◌≡◌, refl, ap, sym, ◌∙◌, Bool, false, List, [], ◌∷◌, ◌++◌, none, some, arith, append_assoc,
  append-nil, Bool-cases, inl, inr,
}
use folder_transfer.Text.{Text, codes, contains_char, ends_with_char}
use folder_transfer.Io.{err, invalid_data}
use folder_transfer.Wire.Lines.{drop-length-append}
use folder_transfer.Config.{Place, outside, line, next_is, pass, strip_from, strip_jsonc}
use folder_transfer.Config.Upgrade.{
  Files, Serde, Tunable, serve_upgrade_keys, missing_keys, block_title, comma_before, key_line,
  key_lines, trim_back, before_brace, existing_comma, new_block, upgraded, save_checked,
  add_missing, upgrade_object, upgrade_serve_file,
}

-- The text ends outside of strings and comments: what follows is stripped for itself.
abbrev pub IsOutside : Text → Type 0
IsOutside head =
    (t : Text)
    → next_is b'/' t ≡ false
    → next_is b'*' t ≡ false
    → strip_jsonc (head ++ t) ≡ strip_jsonc head ++ strip_jsonc t

-- Behind the text, the stripping is in a comment to the end of the line.
abbrev Comments : Place → Text → Type 0
Comments p a = (t : Text) → strip_from p (a ++ t) ≡ strip_from p a ++ strip_from line t

Comments-append : (p : Place) (a b : Text) → Comments p a → Comments line b → Comments p (a ++ b)
Comments-append p a b ha hb t =
    ap (strip_from p) (append_assoc a b t)
    ∙ ha (b ++ t)
    ∙ ap (λ x. strip_from p a ++ x) (hb t)
    ∙ sym (append_assoc (strip_from p a) (strip_from line b) (strip_from line t))
    ∙ ap (λ x. x ++ strip_from line t) (sym (ha b))

abbrev IsComment : Tunable → Type 0
IsComment m = Comments line (key_line m []) × Comments line (key_line m (codes ","))

abbrev AreComments : List Tunable → Type 0
AreComments [] = Unit
AreComments (m ∷ ms) = IsComment m × AreComments ms

keys-AreComments : AreComments serve_upgrade_keys
unfolding strip_from pass
keys-AreComments = (
  (λ t. refl, λ t. refl),
  (
    (λ t. refl, λ t. refl),
    (
      (λ t. refl, λ t. refl),
      (
        (λ t. refl, λ t. refl),
        (
          (λ t. refl, λ t. refl),
          (
            (λ t. refl, λ t. refl),
            (
              (λ t. refl, λ t. refl),
              (
                (λ t. refl, λ t. refl),
                (
                  (λ t. refl, λ t. refl),
                  ((λ t. refl, λ t. refl), ((λ t. refl, λ t. refl), ((λ t. refl, λ t. refl), tt))),
                ),
              ),
            ),
          ),
        ),
      ),
    ),
  ),
)

missing_keys-AreComments :
    (has : Text → Bool) (keys : List Tunable)
    → AreComments keys
    → AreComments (missing_keys has keys)
unfolding missing_keys
missing_keys-AreComments has [] h = tt
missing_keys-AreComments has ((k, v, c) ∷ keys) (h, hs) = elim (Bool-cases (has k)) [
  | inl y ↦ rw y (missing_keys-AreComments has keys hs)
  | inr n ↦ rw n (h, missing_keys-AreComments has keys hs)
]

key_line-Comments :
    (m : Tunable) (more : List Tunable)
    → IsComment m
    → Comments line (key_line m (comma_before more))
key_line-Comments m [] h = h.0
key_line-Comments m (n ∷ more) h = h.1

key_lines-Comments : (keys : List Tunable) → AreComments keys → Comments line (key_lines keys)
unfolding key_lines strip_from
key_lines-Comments [] h t = refl
key_lines-Comments (m ∷ more) (h, hs) t =
    Comments-append line (key_line m (comma_before more)) (key_lines more)
      (key_line-Comments m more h) (key_lines-Comments more hs) t

title-Comments : (head : Text) → Comments outside (existing_comma head ++ block_title)
unfolding strip_from pass
title-Comments [] t = refl
title-Comments (c ∷ head) t = elim (Bool-cases (ends_with_char (c ∷ head) b'{')) [
  | inl y ↦ rw y refl
  | inr n ↦ rw n refl
]

new_block-Comments :
    (head : Text) (missing : List Tunable)
    → AreComments missing
    → Comments outside (new_block head missing)
unfolding new_block
new_block-Comments head missing h t =
    ap (λ b. strip_from outside (b ++ t))
      (sym (append_assoc (existing_comma head) block_title (key_lines missing)))
    ∙ Comments-append outside (existing_comma head ++ block_title) (key_lines missing)
        (title-Comments head) (key_lines-Comments missing h) t
    ∙ ap (λ b. strip_from outside b ++ strip_from line t)
        (append_assoc (existing_comma head) block_title (key_lines missing))

strip_line : (s : Text) → contains_char s 10 ≡ false → strip_from line s ≡ []
unfolding strip_from pass contains_char
strip_line [] h = refl
strip_line (x ∷ s) h = ground (arith, strip_line s)

no_slash :
    (head t : Text) (missing : List Tunable) → next_is b'/' (new_block head missing ++ t) ≡ false
unfolding new_block
no_slash [] t missing = refl
no_slash (c ∷ head) t missing = elim (Bool-cases (ends_with_char (c ∷ head) b'{')) [
  | inl y ↦ rw y refl
  | inr n ↦ rw n refl
]

no_star :
    (head t : Text) (missing : List Tunable) → next_is b'*' (new_block head missing ++ t) ≡ false
unfolding new_block
no_star [] t missing = refl
no_star (c ∷ head) t missing = elim (Bool-cases (ends_with_char (c ∷ head) b'{')) [
  | inl y ↦ rw y refl
  | inr n ↦ rw n refl
]

-- What stands behind the block on its last line is taken for a comment.
brace-lost :
    (head rest : Text) (missing : List Tunable)
    → AreComments missing
    → IsOutside head
    → contains_char rest 10 ≡ false
    → strip_jsonc (head ++ (new_block head missing ++ rest))
      ≡ strip_jsonc (head ++ new_block head missing)
unfolding strip_jsonc strip_from
brace-lost head rest missing h o n =
    o (new_block head missing ++ rest) (no_slash head rest missing) (no_star head rest missing)
    ∙ ap (λ x. strip_jsonc head ++ x)
        (new_block-Comments head missing h rest
          ∙ ap (λ x. strip_from outside (new_block head missing) ++ x) (strip_line rest n)
          ∙ sym (new_block-Comments head missing h []))
    ∙ sym (o (new_block head missing ++ []) (no_slash head [] missing) (no_star head [] missing))
    ∙ ap (λ b. strip_jsonc (head ++ b)) (append-nil (new_block head missing))

upgraded-one_line :
    (head rest : Text) (missing : List Tunable)
    → trim_back head ≡ head
    → upgraded (head ++ rest) head missing ≡ head ++ (new_block head missing ++ rest)
unfolding upgraded
upgraded-one_line head rest missing t = rw (t, drop-length-append head rest) refl

module _ {C : Type 0} (serde : Serde C) (path : Text) where
  save_checked-refused :
      (raw result : Text) (fs : Files)
      → serde.config (strip_jsonc result) ≡ none
      → save_checked serde path raw result fs ≡ (err invalid_data, fs)
  unfolding save_checked
  save_checked-refused raw result fs r = rw (r, save_checked) refl

  add_missing-one_line :
      (head rest : Text) (missing : List Tunable) (m : Tunable) (more : List Tunable) (fs : Files)
      → missing ≡ m ∷ more
      → AreComments missing
      → before_brace (head ++ rest) ≡ some head
      → trim_back head ≡ head
      → contains_char rest 10 ≡ false
      → IsOutside head
      → serde.config (strip_jsonc (head ++ new_block head missing)) ≡ none
      → add_missing serde path (head ++ rest) missing fs ≡ (err invalid_data, fs)
  unfolding add_missing
  add_missing-one_line head rest missing m more fs e c b t n o u =
      rw (e, add_missing, b)
        (save_checked-refused (head ++ rest) (upgraded (head ++ rest) head (m ∷ more)) fs (
          ap (λ ms. serde.config (strip_jsonc (upgraded (head ++ rest) head ms))) (sym e)
          ∙ ap (λ r. serde.config (strip_jsonc r)) (upgraded-one_line head rest missing t)
          ∙ ap serde.config (brace-lost head rest missing c o n)
          ∙ u))

  -- A configuration with no line feed from its last brace on, and no space in front of that brace, which stands outside
  -- of strings and comments: if serde_json refuses the new text where it ends without the brace, then upgrading the
  -- file, whichever keys are missing, ends with an error and changes nothing, whatever the disk does.
  pub upgrade-one_line :
      (head rest stripped : Text) (val : serde.Value) (has : Text → Bool) (m : Tunable)
      (more : List Tunable) (fs : Files)
      → serde.from_str stripped ≡ some val
      → serde.as_object val ≡ some has
      → missing_keys has serve_upgrade_keys ≡ m ∷ more
      → before_brace (head ++ rest) ≡ some head
      → trim_back head ≡ head
      → contains_char rest 10 ≡ false
      → IsOutside head
      → serde.config (strip_jsonc (head ++ new_block head (missing_keys has serve_upgrade_keys)))
        ≡ none
      → upgrade_serve_file serde path (head ++ rest) stripped fs ≡ (err invalid_data, fs)
  unfolding upgrade_serve_file upgrade_object
  upgrade-one_line head rest stripped val has m more fs v k e b t n o u =
      rw (upgrade_serve_file, v, k)
        (add_missing-one_line head rest (missing_keys has serve_upgrade_keys) m more fs e
          (missing_keys-AreComments has serve_upgrade_keys keys-AreComments) b t n o u)
