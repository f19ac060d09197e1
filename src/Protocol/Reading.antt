-- ===== src/Protocol/Reading.antt =====
-- The client reads every well-formed body to its end, gets the content, and stops where it ends.
use mathlib.Core.List.{append_assoc}
use folder_transfer.Prelude.{
  ℕ, zero, suc, ◌-◌, ◌≤◌, ◌<◌, min, ◌≡◌, refl, sym, ap, ◌∙◌, true, false, List, [], ◌∷◌, ◌++◌,
  arith, ◌==◌, length, take, drop, length-take, length-drop, take-append-drop, append-nil, lt→ltb,
}
use folder_transfer.Text.{Text, push_first, split, contains_char}
use folder_transfer.Text.Number.{print_nat}
use folder_transfer.Text.Number.RoundTrip.{IsDigits, print_nat-IsDigits}
use folder_transfer.Io.{Io, ok, ◌>>=◌, ◌>>◌}
use folder_transfer.Wire.{on_conn, Conn, Writer, Transfer, read_exact, write_all, copy_chunks}
use folder_transfer.Wire.Lines.{
  IsLine, IsPlain, IsLine-plain, IsPlain-append, read_line-line, read_exact-append,
}
use folder_transfer.Client.{expect_line}
use folder_transfer.Client.Receive.{words}
use folder_transfer.Protocol.{raw_line, zip_line}

pub expect_line-line :
    (s : Text) (rest : List ℕ) (c : Conn)
    → IsLine s
    → c.input ≡ s ++ 10 ∷ rest
    → expect_line c ≡ (ok s, record c { input = rest })
unfolding expect_line
expect_line-line s rest c h e = rw (read_line-line s rest c h e)

digits-IsPlain : (s : Text) → IsDigits s → IsPlain s
digits-IsPlain [] h = tt
digits-IsPlain (c ∷ s) (a, b, h) = (omega arith, omega arith, digits-IsPlain s h)

pub digits_no_space : (s : Text) → IsDigits s → contains_char s b' ' ≡ false
unfolding contains_char
digits_no_space [] h = refl
digits_no_space (c ∷ s) (a, b, h) = ground (arith, digits_no_space s h)

pub print_nat-IsPlain : (n : ℕ) → IsPlain (print_nat n)
print_nat-IsPlain n = digits-IsPlain (print_nat n) (print_nat-IsDigits n)

pub raw_line-IsLine : (n : ℕ) → IsLine (raw_line n)
raw_line-IsLine n =
    IsLine-plain (raw_line n)
      (omega arith, omega arith, (omega arith, omega arith, print_nat-IsPlain n))

pub zip_line-IsLine : (n m : ℕ) → IsLine (zip_line n m)
zip_line-IsLine n m = IsLine-plain (zip_line n m) (
  omega arith,
  omega arith,
  (
    omega arith,
    omega arith,
    IsPlain-append (print_nat n) (b' ' ∷ print_nat m) (print_nat-IsPlain n)
        (omega arith, omega arith, print_nat-IsPlain m),
  ),
)

not_space :
    (x : ℕ) (s : Text)
    → contains_char (x ∷ s) b' ' ≡ false
    → ((x == b' ') ≡ false) × (contains_char s b' ' ≡ false)
unfolding contains_char
not_space x s h = ground arith

pub words-one : (s : Text) → contains_char s b' ' ≡ false → words s ≡ s ∷ []
unfolding split contains_char
words-one [] h = refl
words-one (x ∷ s) h = rw ((not_space x s h).0) (ap (push_first x) (words-one s (not_space x s h).1))

pub words-cons : (s r : Text) → contains_char s b' ' ≡ false → words (s ++ b' ' ∷ r) ≡ s ∷ words r
unfolding split contains_char
words-cons [] r h = refl
words-cons (x ∷ s) r h =
    rw ((not_space x s h).0) (ap (push_first x) (words-cons s r (not_space x s h).1))

-- `accepts` of a writer that never refuses.
abbrev pub AcceptsAll : Writer → Type 0
AcceptsAll w = (b : List ℕ) → w.accepts b ≡ true

-- The state after `x` was moved from the connection, whose input is then `rest`.
abbrev pub moved : List ℕ → List ℕ → Transfer → Transfer
moved x rest t = record t {
  conn = record t.conn { input = rest };
  out = record t.out { written = t.out.written ++ x };
}

pub moved-nil : (t : Transfer) {rest : List ℕ} → t.conn.input ≡ rest → t ≡ moved [] rest t
moved-nil t e = ground (arith, append-nil t.out.written)

pub moved-moved :
    (a b rest : List ℕ) (t : Transfer)
    → moved b rest (moved a (b ++ rest) t) ≡ moved (a ++ b) rest t
moved-moved a b rest t = rw (append_assoc t.out.written a b)

-- A payload of a known length is read and written, and the rest goes on from there.
pub move_one :
    {A : Type 0} (a rest : List ℕ) (k : Transfer → Io A × Transfer) (t : Transfer)
    → AcceptsAll t.out
    → t.conn.input ≡ a ++ rest
    → (do buf ← on_conn (read_exact (length a)); write_all buf; k) t ≡ k (moved a rest t)
move_one a rest k t h e =
    rw (read_exact-append a rest t.conn e) (unfold write_all in rw (h (t.out.written ++ a)))

module _ (chunk : ℕ) (x : List ℕ) where
  pub first : List ℕ
  first = take (min (length x) chunk) x

  pub others : List ℕ
  others = drop (min (length x) chunk) x

  pub first-others : x ≡ first ++ others
  unfolding first others
  first-others = sym (take-append-drop (min (length x) chunk) x)

  pub length-first : length first ≡ min (length x) chunk
  unfolding first
  length-first = omega (arith, length-take (min (length x) chunk) x)

  pub length-others : length others ≡ length x - min (length x) chunk
  unfolding others
  length-others = length-drop (min (length x) chunk) x

pub copy_chunks-step :
    (chunk f n : ℕ) (t : Transfer)
    → 0 < n
    → copy_chunks chunk (suc f) n t
      ≡ (do
        buf ← on_conn (read_exact (min n chunk))
        write_all buf
        copy_chunks chunk f (n - min n chunk))
          t
unfolding copy_chunks
copy_chunks-step chunk f n t h = rw (lt→ltb 0 n h)

pub copy_chunks-append :
    (chunk f : ℕ) (x rest : List ℕ) (t : Transfer)
    → 0 < chunk
    → length x ≤ f
    → AcceptsAll t.out
    → t.conn.input ≡ x ++ rest
    → copy_chunks chunk f (length x) t ≡ (ok tt, moved x rest t)
copy_chunks-append chunk zero [] rest t c h a e =
    unfold copy_chunks in ap (λ s. (ok tt, s)) (moved-nil t e)
copy_chunks-append chunk zero (b ∷ x) rest t c h a e = absurd (omega arith)
copy_chunks-append chunk (suc f) [] rest t c h a e =
    unfold copy_chunks in ap (λ s. (ok tt, s)) (moved-nil t e)
copy_chunks-append chunk (suc f) (b ∷ x) rest t c h a e =
    let y = b ∷ x in
    let front = first chunk y in
    let back = others chunk y in
    let n = length y in
    let whole : y ≡ front ++ back = first-others chunk y in
    copy_chunks-step chunk f n t (omega arith)
    ∙ ap (λ k. (do buf ← on_conn (read_exact k); write_all buf; copy_chunks chunk f (n - k)) t)
        (sym (length-first chunk y))
    ∙ move_one front (back ++ rest) (copy_chunks chunk f (n - length front)) t a
        (e ∙ ap (λ z. z ++ rest) whole ∙ append_assoc front back rest)
    ∙ ap (λ k. copy_chunks chunk f k (moved front (back ++ rest) t))
        (omega (arith, length-others chunk y, length-first chunk y))
    ∙ copy_chunks-append chunk f back rest (moved front (back ++ rest) t) c
        (omega (arith, length-others chunk y)) a refl
    ∙ ap (λ s. (ok tt, s)) (moved-moved front back rest t)
    ∙ ap (λ z. (ok tt, moved z rest t)) (sym whole)
