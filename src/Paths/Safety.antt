-- ===== src/Paths/Safety.antt =====
-- What a server offers is written below the destination, or not at all.
use folder_transfer.Prelude.{
  ℕ, ◌≡◌, ◌≢◌, refl, ◌∙◌, true, false, List, [], ◌∷◌, ◌++◌, some, arith, ◌||◌, ◌⊎◌, append-nil,
  append_assoc, Bool-cases, inl, inr,
}
use folder_transfer.Text.{
  Text, codes, text_eq, push_first, starts_with, ends_with_char, contains_char, split,
}
use folder_transfer.Text.Laws.{text_eq_iff}
use folder_transfer.Paths.{
  FilePath, enter, walk_segments-cons, under_root, to_text, root_prefix, pop, is_separator,
  walk_segments, safe_join,
}

-- The names of a path are not empty, hold no slash, and are not `.` or `..`.
abbrev pub IsPath : FilePath → Type 0
IsPath [] = Unit
IsPath (s ∷ p) =
    (s ≢ []) × (contains_char s b'/' ≡ false) × (s ≢ codes ".") × (s ≢ codes "..") × IsPath p

starts_with-tail :
    (x : ℕ) (s t : Text) → starts_with (x ∷ s) (x ∷ t) ≡ true → starts_with s t ≡ true
unfolding starts_with
starts_with-tail x s t h = ground arith

-- A name that is compared with one before a slash ends where that does.
starts_with-name :
    (s t : Text) (p : FilePath) (y : Text)
    → contains_char s b'/' ≡ false
    → contains_char t b'/' ≡ false
    → starts_with (s ++ under_root p) (t ++ b'/' ∷ y) ≡ true
    → (s ≡ t) × (starts_with (under_root p) (b'/' ∷ y) ≡ true)
unfolding starts_with contains_char
starts_with-name [] [] p y hs ht h = (refl, h)
starts_with-name [] (b ∷ t) [] y hs ht h = unfold under_root in ground arith
starts_with-name [] (b ∷ t) (q ∷ p) y hs ht h = unfold under_root in ground arith
starts_with-name (a ∷ s) [] p y hs ht h = ground arith
starts_with-name (a ∷ s) (b ∷ t) p y hs ht h = ground (arith, starts_with-name s t p y)

under_root-slash : (to : FilePath) → (y : Text) × (under_root to ++ b'/' ∷ [] ≡ b'/' ∷ y)
unfolding under_root
under_root-slash [] = ([], refl)
under_root-slash (t ∷ to) = ((t ++ under_root to) ++ b'/' ∷ [], refl)

starts_with-under_root :
    (to p : FilePath)
    → IsPath to
    → IsPath p
    → starts_with (under_root p) (under_root to ++ b'/' ∷ []) ≡ true
    → (s : Text) × (rest : FilePath) × (p ≡ to ++ s ∷ rest)
unfolding under_root
starts_with-under_root [] [] _ _ h = unfold starts_with in cc
starts_with-under_root [] (s ∷ p) _ _ h = (s, p, refl)
starts_with-under_root (t ∷ to) [] _ _ h = unfold starts_with in cc
starts_with-under_root (t ∷ to) (s ∷ p) (_, ht, _, _, kt) (_, hs, _, _, kp) h =
    let (y, slash) = under_root-slash to in
    let tail : starts_with (s ++ under_root p) (t ++ b'/' ∷ y) ≡ true =
      rw (append_assoc t (under_root to) (b'/' ∷ []), slash) at
        (starts_with-tail b'/' (s ++ under_root p) ((t ++ under_root to) ++ b'/' ∷ []) h) in
    let (same, below) = starts_with-name s t p y hs ht tail in
    let (u, rest, e) = starts_with-under_root to p kt kp (rw slash below) in (u, rest, cc)

pop-IsPath : (p : FilePath) → IsPath p → IsPath (pop p)
unfolding pop
pop-IsPath [] h = tt
pop-IsPath (s ∷ []) h = tt
pop-IsPath (s ∷ t ∷ p) (a, b, c, d, h) = (a, b, c, d, pop-IsPath (t ∷ p) h)

snoc-IsPath :
    (p : FilePath) (s : Text)
    → IsPath p
    → s ≢ []
    → contains_char s b'/' ≡ false
    → s ≢ codes "."
    → s ≢ codes ".."
    → IsPath (p ++ s ∷ [])
snoc-IsPath [] s h a b c d = (a, b, c, d, tt)
snoc-IsPath (t ∷ p) s (e, f, g, k, h) a b c d = (e, f, g, k, snoc-IsPath p s h a b c d)

enter-IsPath :
    (out : FilePath) (seg : Text)
    → contains_char seg b'/' ≡ false
    → IsPath out
    → IsPath (enter out seg)
unfolding enter
enter-IsPath out seg a h = elim (Bool-cases (text_eq seg [] || text_eq seg (codes "."))) [
  | inl stay ↦ rw stay h
  | inr move ↦ elim (Bool-cases (text_eq seg (codes ".."))) [
    | inl up ↦ rw (move, up) (pop-IsPath out h)
    | inr down ↦
        rw (move, down)
          (snoc-IsPath out seg h (λ e. ground (arith, (text_eq_iff seg []).1 e)) a
            (λ e. ground (arith, (text_eq_iff seg (codes ".")).1 e))
            (λ e. ground (arith, (text_eq_iff seg (codes "..")).1 e)))
  ]
]

abbrev NoSlash : List Text → Type 0
NoSlash [] = Unit
NoSlash (s ∷ segs) = (contains_char s b'/' ≡ false) × NoSlash segs

push_first-NoSlash :
    (x : ℕ) (segs : List Text) → is_separator x ≡ false → NoSlash segs → NoSlash (push_first x segs)
unfolding contains_char
push_first-NoSlash x [] h n = ground arith
push_first-NoSlash x (s ∷ segs) h n = ground arith

split-NoSlash : (rel : Text) → NoSlash (split is_separator rel)
unfolding split contains_char
split-NoSlash [] = (refl, tt)
split-NoSlash (x ∷ rel) = elim (Bool-cases (is_separator x)) [
  | inl sep ↦ rw sep (refl, split-NoSlash rel)
  | inr other ↦ rw other (push_first-NoSlash x (split is_separator rel) other (split-NoSlash rel))
]

walk_segments-IsPath :
    (segs : List Text) (out : FilePath)
    → NoSlash segs
    → IsPath out
    → IsPath (walk_segments out segs)
walk_segments-IsPath [] out n h = unfold walk_segments in h
walk_segments-IsPath (seg ∷ segs) out (a, n) h =
    rw walk_segments-cons (walk_segments-IsPath segs (enter out seg) n (enter-IsPath out seg a h))

IsPath-append_of : (to p : FilePath) → IsPath (to ++ p) → IsPath p
IsPath-append_of [] p h = h
IsPath-append_of (t ∷ to) p (a, b, c, d, h) = IsPath-append_of to p h

ends_with_char-append : (s : Text) (c : ℕ) → ends_with_char (s ++ c ∷ []) c ≡ true
unfolding ends_with_char
ends_with_char-append [] c = ground arith
ends_with_char-append (x ∷ []) c = ground arith
ends_with_char-append (x ∷ y ∷ s) c = ends_with_char-append (y ∷ s) c

ends_with_char_behind :
    (s : Text) (y : ℕ) (r : Text) (c : ℕ) → ends_with_char (s ++ y ∷ r) c ≡ ends_with_char (y ∷ r) c
unfolding ends_with_char
ends_with_char_behind [] y r c = refl
ends_with_char_behind (x ∷ []) y r c = refl
ends_with_char_behind (x ∷ z ∷ s) y r c = ends_with_char_behind (z ∷ s) y r c

ends_with_char-name :
    (x : ℕ) (s : Text) → s ≢ [] → contains_char s b'/' ≡ false → ends_with_char (x ∷ s) b'/' ≡ false
unfolding ends_with_char contains_char
ends_with_char-name x [] a h = absurd (a refl)
ends_with_char-name x (y ∷ []) a h = ground arith
ends_with_char-name x (y ∷ z ∷ s) a h = ends_with_char-name y (z ∷ s) (λ e. cc) (ground arith)

ends_with_char-under_root :
    (t : Text) (to : FilePath) → IsPath (t ∷ to) → ends_with_char (under_root (t ∷ to)) b'/' ≡ false
unfolding under_root
ends_with_char-under_root t [] (a, b, _, _, _) = rw append-nil (ends_with_char-name b'/' t a b)
ends_with_char-under_root t (u ∷ to) (a, b, _, _, h) =
    ends_with_char_behind (b'/' ∷ t) b'/' (u ++ under_root to) b'/'
    ∙ ends_with_char-under_root u to h

-- The prefix of a destination below the root.
root_prefix-cons :
    (t : Text) (to : FilePath)
    → IsPath (t ∷ to)
    → root_prefix (t ∷ to) ≡ under_root (t ∷ to) ++ b'/' ∷ []
unfolding root_prefix to_text
root_prefix-cons t to h = rw (ends_with_char-under_root t to h)

pub safe_join_out :
    (to : FilePath) (prefix rel : Text) (p : FilePath)
    → safe_join to prefix rel ≡ some p
    → (p ≡ walk_segments to (split is_separator rel)) × (starts_with (to_text p) prefix ≡ true)
unfolding safe_join
safe_join_out to prefix rel p e = ground arith

longer : (c : ℕ) (s : Text) → starts_with (b'/' ∷ []) (b'/' ∷ c ∷ s) ≡ true → ⊥
unfolding starts_with
longer c s h = ground arith

below :
    (to p : FilePath)
    → IsPath to
    → IsPath p
    → starts_with (to_text p) (root_prefix to) ≡ true
    → (to ≡ []) ⊎ ((s : Text) × (rest : FilePath) × (p ≡ to ++ s ∷ rest))
below [] p h k e = inl refl
below ([] ∷ to) [] (a, _, _, _, _) k e = absurd (a refl)
below ((c ∷ t) ∷ to) [] h k e =
    let prefix : root_prefix ((c ∷ t) ∷ to) ≡ b'/' ∷ c ∷ ((t ++ under_root to) ++ b'/' ∷ []) =
      root_prefix-cons (c ∷ t) to h ∙ (unfold under_root in refl) in
    let shut : starts_with (b'/' ∷ []) (root_prefix ((c ∷ t) ∷ to)) ≡ true = unfold to_text in e in
    absurd (longer c ((t ++ under_root to) ++ b'/' ∷ []) (rw prefix at shut))
below (t ∷ to) (s ∷ p) h k e = inr (
    starts_with-under_root (t ∷ to) (s ∷ p) h k
      (unfold to_text in rw (root_prefix-cons t to h) at e))

-- If `safe_join` accepts a name from the server, the target lies strictly below the destination, unless that is
-- the root; and none of its names is empty, holds a slash, or is `.` or `..`. The destination's names are such, and
-- the prefix is the one that `root_prefix` makes of it.
pub safe_join-inside :
    (to : FilePath) (rel : Text) (p : FilePath)
    → IsPath to
    → safe_join to (root_prefix to) rel ≡ some p
    → IsPath p × ((to ≡ []) ⊎ ((s : Text) × (rest : FilePath) × (p ≡ to ++ s ∷ rest)))
safe_join-inside to rel p h e =
    let (out, inside) = safe_join_out to (root_prefix to) rel p e in
    let k : IsPath p =
      rw out (walk_segments-IsPath (split is_separator rel) to (split-NoSlash rel) h) in
    (k, below to p h k inside)
