-- ===== src/Wire/Lines.antt =====
-- Reading lines and payloads back from the stream that they were written to.
use folder_transfer.Prelude.{
  ℕ, ◌≤◌, ◌<◌, ◌≡◌, refl, ap, ◌∙◌, true, false, List, [], ◌∷◌, ◌++◌, some, arith, ◌==◌, length,
  take, drop, length-append,
}
use folder_transfer.Text.{Text, contains_char, ends_with_char}
use folder_transfer.Text.Utf8.{lossy, lossy-cons, IsUtf8}
use folder_transfer.Io.{ok}
use folder_transfer.Wire.{
  Conn, take_line, strip_end, strip_front, line_or_eof, line_result, read_line, read_exact,
}

-- The first byte is no carriage return.
abbrev pub NoReturnFirst : Text → Type 0
NoReturnFirst [] = Unit
NoReturnFirst (x ∷ s) = (x == 13) ≡ false

-- A text that a control line can carry.
pub record IsLine (s : Text) : Type 0 where
  pub no_feed : contains_char s 10 ≡ false
  pub no_return_last : ends_with_char s 13 ≡ false
  pub no_return_first : NoReturnFirst s
  pub utf8 : IsUtf8 s

take_line-append :
    (s rest : List ℕ)
    → contains_char s 10 ≡ false
    → take_line (s ++ 10 ∷ rest) ≡ (s ++ 10 ∷ [], rest, true)
unfolding take_line contains_char
take_line-append [] rest h = refl
take_line-append (x ∷ s) rest h = ground (arith, take_line-append s rest)

strip_end-append :
    (s : List ℕ)
    → contains_char s 10 ≡ false
    → ends_with_char s 13 ≡ false
    → strip_end (s ++ 10 ∷ []) ≡ s
unfolding strip_end contains_char ends_with_char
strip_end-append [] h e = refl
strip_end-append (x ∷ []) h e = ground arith
strip_end-append (x ∷ y ∷ s) h e = rw (strip_end-append (y ∷ s) (ground arith) e) refl

strip_front-line : (s : Text) → NoReturnFirst s → strip_front s ≡ s
unfolding strip_front
strip_front-line [] h = refl
strip_front-line (x ∷ s) h = ground arith

line_or_eof-append : (s : Text) → IsLine s → line_or_eof (s ++ 10 ∷ []) ≡ some s
unfolding line_or_eof
line_or_eof-append [] h = unfold strip_end strip_front lossy in refl
line_or_eof-append (x ∷ s) h =
    rw (strip_end-append (x ∷ s) h.no_feed h.no_return_last)
      (rw (strip_front-line (x ∷ s) h.no_return_first, h.utf8))

line_result-append :
    (s rest : List ℕ) (c : Conn)
    → IsLine s
    → line_result (s ++ 10 ∷ [], rest, true) c ≡ (ok (some s), record c { input = rest })
unfolding line_result
line_result-append s rest c h = rw (line_or_eof-append s h)

-- A line of valid UTF-8 with no line feed, and no carriage return at its ends, followed by a line feed: it is read
-- back whole, and nothing behind it is taken.
pub read_line-line :
    (s : Text) (rest : List ℕ) (c : Conn)
    → IsLine s
    → c.input ≡ s ++ 10 ∷ rest
    → read_line c ≡ (ok (some s), record c { input = rest })
read_line-line s rest c h e =
    let by_line : read_line c ≡ line_result (take_line c.input) c = unfold read_line in refl in
    by_line
    ∙ ap (λ b. line_result (take_line b) c) e
    ∙ ap (λ t. line_result t c) (take_line-append s rest h.no_feed)
    ∙ line_result-append s rest c h

pub take-length-append {ℓ} : {A : Type ℓ} (a b : List A) → take (length a) (a ++ b) ≡ a
take-length-append [] b = refl
take-length-append (x ∷ a) b = ap (λ l. x ∷ l) (take-length-append a b)

pub drop-length-append {ℓ} : {A : Type ℓ} (a b : List A) → drop (length a) (a ++ b) ≡ b
drop-length-append [] b = refl
drop-length-append (x ∷ a) b = drop-length-append a b

-- A payload that was written is read back whole, and nothing behind it is taken.
pub read_exact-append :
    (a rest : List ℕ) (c : Conn)
    → c.input ≡ a ++ rest
    → read_exact (length a) c ≡ (ok a, record c { input = rest })
unfolding read_exact
read_exact-append a rest c e =
    rw (e, take-length-append a rest, drop-length-append a rest)
      (ground (arith, length-append a rest))

-- Printable ASCII.
abbrev pub IsPlain : Text → Type 0
IsPlain [] = Unit
IsPlain (x ∷ s) = (32 ≤ x) × (x < 127) × IsPlain s

pub IsPlain-append : (s t : Text) → IsPlain s → IsPlain t → IsPlain (s ++ t)
IsPlain-append [] t h k = k
IsPlain-append (x ∷ s) t (a, b, h) k = (a, b, IsPlain-append s t h k)

lossy-plain : (s : Text) → IsPlain s → IsUtf8 s
lossy-plain [] h = unfold lossy in refl
lossy-plain (x ∷ s) (a, b, h) = rw (lossy-cons x s (omega arith), lossy-plain s h)

no_feed-plain : (s : Text) → IsPlain s → contains_char s 10 ≡ false
unfolding contains_char
no_feed-plain [] h = refl
no_feed-plain (x ∷ s) (a, b, h) = ground (arith, no_feed-plain s h)

no_return_last-plain : (s : Text) → IsPlain s → ends_with_char s 13 ≡ false
unfolding ends_with_char
no_return_last-plain [] h = refl
no_return_last-plain (x ∷ []) (a, b, h) = ground arith
no_return_last-plain (x ∷ y ∷ s) (a, b, h) = no_return_last-plain (y ∷ s) h

NoReturnFirst-plain : (s : Text) → IsPlain s → NoReturnFirst s
NoReturnFirst-plain [] h = tt
NoReturnFirst-plain (x ∷ s) (a, b, h) = ground arith

pub IsLine-plain : (s : Text) → IsPlain s → IsLine s
IsLine-plain s h = record {
  no_feed = no_feed-plain s h;
  no_return_last = no_return_last-plain s h;
  no_return_first = NoReturnFirst-plain s h;
  utf8 = lossy-plain s h;
}

-- A text of valid UTF-8 with no line feed and no carriage return at its end, behind printable characters.
pub record IsText (s : Text) : Type 0 where
  pub no_feed : contains_char s 10 ≡ false
  pub no_return_last : ends_with_char s 13 ≡ false
  pub utf8 : IsUtf8 s

no_return_last-cons :
    (x : ℕ) (s : Text)
    → (x == 13) ≡ false
    → ends_with_char s 13 ≡ false
    → ends_with_char (x ∷ s) 13 ≡ false
unfolding ends_with_char
no_return_last-cons x [] h e = ground arith
no_return_last-cons x (y ∷ s) h e = e

pub IsText-cons : (x : ℕ) (s : Text) → 32 ≤ x → x < 127 → IsText s → IsText (x ∷ s)
unfolding contains_char
IsText-cons x s a b h =
    let rest = h.no_feed in
    record {
      no_feed = ground (arith, rest);
      no_return_last = no_return_last-cons x s (ground arith) h.no_return_last;
      utf8 = rw (lossy-cons x s (omega arith), h.utf8);
    }

pub IsText-append : (p s : Text) → IsPlain p → IsText s → IsText (p ++ s)
IsText-append [] s k h = h
IsText-append (x ∷ p) s (a, b, k) h = IsText-cons x (p ++ s) a b (IsText-append p s k h)

pub IsLine-cons : (x : ℕ) (s : Text) → 32 ≤ x → IsText (x ∷ s) → IsLine (x ∷ s)
IsLine-cons x s a h = record {
  no_feed = h.no_feed;
  no_return_last = h.no_return_last;
  no_return_first = ground arith;
  utf8 = h.utf8;
}
