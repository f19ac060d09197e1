-- ===== src/Text/Laws.antt =====
-- Laws of the operations on texts.
use folder_transfer.Prelude.{◌≡◌, refl, ◌↔◌, true, [], ◌∷◌, ◌++◌, some, arith}
use folder_transfer.Text.{Text, text_eq, strip_prefix, starts_with}

pub text_eq_refl : (s : Text) → text_eq s s ≡ true
unfolding text_eq
text_eq_refl [] = refl
text_eq_refl (x ∷ s) = ground (arith, text_eq_refl s)

pub text_eq_iff : (s t : Text) → (text_eq s t ≡ true) ↔ (s ≡ t)
unfolding text_eq
text_eq_iff [] [] = (λ _. refl, λ _. refl)
text_eq_iff [] (y ∷ t) = (λ h. cc, λ h. cc)
text_eq_iff (x ∷ s) [] = (λ h. cc, λ h. cc)
text_eq_iff (x ∷ s) (y ∷ t) = ground (arith, text_eq_iff s t)

pub strip_prefix-append : (p s : Text) → strip_prefix p (p ++ s) ≡ some s
unfolding strip_prefix
strip_prefix-append [] s = refl
strip_prefix-append (c ∷ p) s = ground (arith, strip_prefix-append p s)

-- What a text is made of whose prefix was taken off.
pub strip_prefix-cases : (p s r : Text) → strip_prefix p s ≡ some r → s ≡ p ++ r
unfolding strip_prefix
strip_prefix-cases [] s r h = cc
strip_prefix-cases (c ∷ p) [] r h = cc
strip_prefix-cases (c ∷ p) (x ∷ s) r h = ground (arith, strip_prefix-cases p s r)

pub starts_with-append : (p s : Text) → starts_with (p ++ s) p ≡ true
unfolding starts_with
starts_with-append [] [] = refl
starts_with-append [] (x ∷ s) = refl
starts_with-append (c ∷ p) s = ground (arith, starts_with-append p s)

-- What a text with a prefix is made of.
pub starts_with-cases : (s p : Text) → starts_with s p ≡ true → (r : Text) × (s ≡ p ++ r)
unfolding starts_with
starts_with-cases s [] h = (s, refl)
starts_with-cases [] (c ∷ p) h = cc
starts_with-cases (x ∷ s) (c ∷ p) h =
    let (r, e) = starts_with-cases s p (ground arith) in (r, ground arith)
