-- ===== src/Token/Alphabet.antt =====
-- What a token consists of.
use folder_transfer.Prelude.{
  ℕ, zero, suc, ◌%◌, ◌<◌, ◌≡◌, refl, ap, Bool, true, false, ◌||◌, List, [], ◌∷◌, arith, ◌==◌,
  length, get_or,
}
use folder_transfer.Text.{Text, contains_char}
use folder_transfer.Token.{alphabet, token_char, generate}

abbrev pub AreLetters : Text → Type 0
AreLetters [] = Unit {0}
AreLetters (c ∷ t) = (contains_char alphabet c ≡ true) × AreLetters t

same_char : (c : ℕ) → (c == c) ≡ true
same_char c = ground arith

or_true : (b : Bool) → (b || true) ≡ true
or_true true = refl
or_true false = refl

contains_char-get_or : (s : Text) (i : ℕ) → i < length s → contains_char s (get_or s i 0) ≡ true
unfolding contains_char
contains_char-get_or [] i h = absurd (omega arith)
contains_char-get_or (x ∷ s) zero h = rw (same_char x) refl
contains_char-get_or (x ∷ s) (suc i) h =
    rw (contains_char-get_or s i (omega arith)) (or_true (x == get_or s i 0))

-- Whatever random bytes the system gives, the token has one character for each, and each is one of the 57 of
-- the alphabet.
pub generate-letters : (rb : List ℕ) → (length (generate rb) ≡ length rb) × AreLetters (generate rb)
unfolding generate token_char
generate-letters [] = (refl, tt)
generate-letters (b ∷ rb) =
    let (size, letters) = generate-letters rb in
    (ap suc size, (contains_char-get_or alphabet (b % 57) (omega arith), letters))
