-- ===== src/Config/Jsonc.antt =====
-- What `strip_jsonc` does to a text that is written as JSON with comments.
use folder_transfer.Prelude.{
  ℕ, ◌≡◌, refl, sym, ap, ◌∙◌, false, ◌&&◌, List, [], ◌∷◌, ◌++◌, append_assoc, ◌==◌, arith,
}
use folder_transfer.Text.{Text, contains_char}
use folder_transfer.Config.{outside, in_str, line, block, next_is, pass, strip_from, strip_jsonc}

-- A character of a string: itself, or any one behind a backslash.
pub data Char : Type 0 where
  plain : ℕ → Char
  escaped : ℕ → Char

-- What a text is made of: strings, other characters, and comments.
pub data Piece : Type 0 where
  string : List Char → Piece
  other : ℕ → Piece
  line_comment : Text → Piece
  block_comment : Text → Piece

abbrev pub inside_string : List Char → Text
inside_string [] = []
inside_string (plain c ∷ cs) = c ∷ inside_string cs
inside_string (escaped c ∷ cs) = b'\\' ∷ c ∷ inside_string cs

-- The text of a piece.
abbrev pub piece_text : Piece → Text
piece_text (string cs) = b'"' ∷ inside_string cs ++ b'"' ∷ []
piece_text (other c) = c ∷ []
piece_text (line_comment body) = b'/' ∷ b'/' ∷ body ++ 10 ∷ []
piece_text (block_comment body) = b'/' ∷ b'*' ∷ body ++ b'*' ∷ b'/' ∷ []

abbrev pub whole_text : List Piece → Text
whole_text [] = []
whole_text (p ∷ ps) = piece_text p ++ whole_text ps

-- What is to be left of a piece: a comment goes, the line feed behind it stays.
abbrev pub piece_left : Piece → Text
piece_left (string cs) = piece_text (string cs)
piece_left (other c) = c ∷ []
piece_left (line_comment body) = 10 ∷ []
piece_left (block_comment body) = []

abbrev pub without_comments : List Piece → Text
without_comments [] = []
without_comments (p ∷ ps) = piece_left p ++ without_comments ps

-- A plain character is no quote and no backslash.
abbrev pub AreChars : List Char → Type 0
AreChars [] = Unit
AreChars (plain c ∷ cs) = ((c == b'"') ≡ false) × ((c == b'\\') ≡ false) × AreChars cs
AreChars (escaped c ∷ cs) = AreChars cs

-- The text does not hold `*/`.
abbrev pub IsOpen : Text → Type 0
IsOpen [] = Unit
IsOpen (c ∷ s) = ((c == b'*' && next_is b'/' s) ≡ false) × IsOpen s

-- Outside of strings and comments there is no quote and no slash; a comment ends where it says.
abbrev pub IsPiece : Piece → Type 0
IsPiece (string cs) = AreChars cs
IsPiece (other c) = ((c == b'"') ≡ false) × ((c == b'/') ≡ false)
IsPiece (line_comment body) = contains_char body 10 ≡ false
IsPiece (block_comment body) = IsOpen body

abbrev pub ArePieces : List Piece → Type 0
ArePieces [] = Unit
ArePieces (p ∷ ps) = IsPiece p × ArePieces ps

strip_from-chars :
    (cs : List Char) (rest : Text)
    → AreChars cs
    → strip_from (in_str false) (inside_string cs ++ b'"' ∷ rest)
      ≡ inside_string cs ++ b'"' ∷ strip_from outside rest
unfolding strip_from pass
strip_from-chars [] rest h = refl
strip_from-chars (plain c ∷ cs) rest (q, b, h) =
    rw (b, q) (ap (λ t. c ∷ t) (strip_from-chars cs rest h))
strip_from-chars (escaped c ∷ cs) rest h = ap (λ t. b'\\' ∷ c ∷ t) (strip_from-chars cs rest h)

strip_from-line :
    (body rest : Text)
    → contains_char body 10 ≡ false
    → strip_from line (body ++ 10 ∷ rest) ≡ 10 ∷ strip_from outside rest
unfolding strip_from pass contains_char
strip_from-line [] rest h = refl
strip_from-line (c ∷ body) rest h = ground (arith, strip_from-line body rest)

next_is-append : (body rest : Text) → next_is b'/' (body ++ b'*' ∷ rest) ≡ next_is b'/' body
next_is-append [] rest = refl
next_is-append (c ∷ body) rest = refl

strip_from-block :
    (body rest : Text)
    → IsOpen body
    → strip_from block (body ++ b'*' ∷ b'/' ∷ rest) ≡ strip_from outside rest
unfolding strip_from pass
strip_from-block [] rest h = refl
strip_from-block (c ∷ body) rest (a, h) =
    rw (next_is-append body (b'/' ∷ rest), a) (strip_from-block body rest h)

strip_from-piece :
    (p : Piece) (rest : Text)
    → IsPiece p
    → strip_from outside (piece_text p ++ rest) ≡ piece_left p ++ strip_from outside rest
unfolding strip_from pass
strip_from-piece (string cs) rest h =
    let cs_text = inside_string cs in
    ap (λ t. b'"' ∷ strip_from (in_str false) t) (append_assoc cs_text (b'"' ∷ []) rest)
    ∙ ap (λ t. b'"' ∷ t) (strip_from-chars cs rest h)
    ∙ ap (λ t. b'"' ∷ t) (sym (append_assoc cs_text (b'"' ∷ []) (strip_from outside rest)))
strip_from-piece (other c) rest (q, s) = rw (q, s) refl
strip_from-piece (line_comment body) rest h =
    ap (strip_from line) (append_assoc body (10 ∷ []) rest) ∙ strip_from-line body rest h
strip_from-piece (block_comment body) rest h =
    ap (strip_from block) (append_assoc body (b'*' ∷ b'/' ∷ []) rest) ∙ strip_from-block body rest h

-- Of a text that is made of strings, comments and other characters, none of them a quote or a slash, `strip_jsonc` takes
-- away the comments and nothing else: every string stays as it is, whatever it holds, and so does the line feed
-- behind a comment.
pub strip_jsonc-whole_text :
    (ps : List Piece) → ArePieces ps → strip_jsonc (whole_text ps) ≡ without_comments ps
unfolding strip_jsonc
strip_jsonc-whole_text [] h = unfold strip_from in refl
strip_jsonc-whole_text (p ∷ ps) (h, hs) =
    strip_from-piece p (whole_text ps) h
    ∙ ap (λ t. piece_left p ++ t) (strip_jsonc-whole_text ps hs)

-- A text without comments, as JSON is.
abbrev pub NoComments : List Piece → Type 0
NoComments [] = Unit
NoComments (string cs ∷ ps) = NoComments ps
NoComments (other c ∷ ps) = NoComments ps
NoComments (line_comment body ∷ ps) = ⊥
NoComments (block_comment body ∷ ps) = ⊥

abbrev pub IsJson : Text → Type 0
IsJson s = (ps : List Piece) × ArePieces ps × NoComments ps × (s ≡ whole_text ps)

all_left : (ps : List Piece) → NoComments ps → without_comments ps ≡ whole_text ps
all_left [] h = refl
all_left (string cs ∷ ps) h = ap (λ t. piece_text (string cs) ++ t) (all_left ps h)
all_left (other c ∷ ps) h = ap (λ t. c ∷ t) (all_left ps h)
all_left (line_comment body ∷ ps) h = absurd h
all_left (block_comment body ∷ ps) h = absurd h

pub strip_jsonc-json : (s : Text) → IsJson s → strip_jsonc s ≡ s
strip_jsonc-json s (ps, pieces, none_there, e) =
    ap strip_jsonc e ∙ strip_jsonc-whole_text ps pieces ∙ all_left ps none_there ∙ sym e
