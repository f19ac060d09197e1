-- ===== src/Protocol/Offer.antt =====
-- The offer of a large file: the line that the server writes (rust/src/server.rs), as `dispatch_item`
-- (rust/src/client.rs) takes it apart.
use folder_transfer.Prelude.{
  ℕ, suc, ◌<◌, ◌^◌, ◌≡◌, ◌≢◌, refl, ◌∙◌, ℤ, pos, negsuc, true, false, List, [], ◌∷◌, ◌++◌, some,
  ◌==◌, arith, or_false,
}
use folder_transfer.Text.{Text, codes, contains_char, split_once, strip_prefix}
use folder_transfer.Text.Laws.{strip_prefix-append}
use folder_transfer.Text.Number.{print_nat, print_int, parse_u64, parse_i64}
use folder_transfer.Text.Number.RoundTrip.{
  print_nat-IsDigits, parse_u64-print_nat, IsI64, parse_i64-print_int,
}
use folder_transfer.Server.Body.{BundleItem}
use folder_transfer.Server.Pass.{large_line}
use folder_transfer.Client.{expect_line, parse_three, with_time, named}
use folder_transfer.Protocol.Reading.{digits_no_space, print_nat-IsPlain, expect_line-line}
use folder_transfer.Io.{ok}
use folder_transfer.Wire.{Conn}
use folder_transfer.Wire.Lines.{IsPlain, IsText, IsText-cons, IsText-append, IsLine, IsLine-cons}

same : (c : ℕ) → (c == c) ≡ true
same c = ground arith

split_once-append :
    (c : ℕ) (s rest : Text)
    → contains_char s c ≡ false
    → split_once c (s ++ c ∷ rest) ≡ some (s, rest)
unfolding split_once contains_char
split_once-append c [] rest h = rw (same c) refl
split_once-append c (x ∷ s) rest h =
    let (other, none_behind) = or_false (x == c) (contains_char s c) h in
    rw other (rw (split_once-append c s rest none_behind) refl)

print_int-no_space : (z : ℤ) → contains_char (print_int z) b' ' ≡ false
unfolding print_int contains_char
print_int-no_space (pos n) = digits_no_space (print_nat n) (print_nat-IsDigits n)
print_int-no_space (negsuc n) = digits_no_space (print_nat (suc n)) (print_nat-IsDigits (suc n))

named-some : (size : ℕ) (mt : ℤ) (rel : Text) → rel ≢ [] → named size mt rel ≡ some (size, mt, rel)
unfolding named
named-some size mt [] h = absurd (h refl)
named-some size mt (c ∷ rel) h = refl

parse_three-split :
    (s first rest : Text) (size : ℕ)
    → split_once b' ' s ≡ some (first, rest)
    → parse_u64 first ≡ some size
    → parse_three s ≡ with_time size rest
unfolding parse_three
parse_three-split s first rest size e f = rw (e, parse_three) (rw f refl)

with_time-split :
    (size : ℕ) (s second rel : Text) (mt : ℤ)
    → split_once b' ' s ≡ some (second, rel)
    → parse_i64 second ≡ some mt
    → with_time size s ≡ named size mt rel
unfolding with_time
with_time-split size s second rel mt e f = rw (e, with_time) (rw f refl)

parse_three-printed :
    (size : ℕ) (mt : ℤ) (rel : Text)
    → size < 2 ^ 64
    → IsI64 mt
    → rel ≢ []
    → parse_three (print_nat size ++ b' ' ∷ (print_int mt ++ b' ' ∷ rel)) ≡ some (size, mt, rel)
parse_three-printed size mt rel fits time some_name =
    let no_space = digits_no_space (print_nat size) (print_nat-IsDigits size) in
    let behind = print_int mt ++ b' ' ∷ rel in
    parse_three-split (print_nat size ++ b' ' ∷ behind) (print_nat size) behind size
      (split_once-append b' ' (print_nat size) behind no_space) (parse_u64-print_nat size fits)
    ∙ with_time-split size behind (print_int mt) rel mt
        (split_once-append b' ' (print_int mt) rel (print_int-no_space mt))
        (parse_i64-print_int mt time)
    ∙ named-some size mt rel some_name

print_int-IsPlain : (z : ℤ) → IsPlain (print_int z)
unfolding print_int
print_int-IsPlain (pos n) = print_nat-IsPlain n
print_int-IsPlain (negsuc n) = (omega arith, omega arith, print_nat-IsPlain (suc n))

large_line-IsLine : (item : BundleItem) → IsText item.rel → IsLine (large_line item)
large_line-IsLine item h =
    let time = print_int item.mtime in
    let size = print_nat item.size in
    let named : IsText (b' ' ∷ item.rel) =
      IsText-cons b' ' item.rel (omega arith) (omega arith) h in
    let timed : IsText (b' ' ∷ (time ++ b' ' ∷ item.rel)) =
      IsText-cons b' ' (time ++ b' ' ∷ item.rel) (omega arith) (omega arith)
        (IsText-append time (b' ' ∷ item.rel) (print_int-IsPlain item.mtime) named) in
    let sized =
      IsText-append size (b' ' ∷ (time ++ b' ' ∷ item.rel)) (print_nat-IsPlain item.size) timed in
    IsLine-cons b'F' (b' ' ∷ (size ++ b' ' ∷ (time ++ b' ' ∷ item.rel))) (omega arith) (
      IsText-append (codes "F ") (size ++ b' ' ∷ (time ++ b' ' ∷ item.rel))
        (omega arith, omega arith, (omega arith, omega arith, tt)) sized)

-- The line with which the server offers a large file, whose size is of type u64, whose time of type i64 and whose
-- name is not empty, is valid UTF-8, and has no line feed and no carriage return at its end: the client reads the
-- line whole and nothing behind it, takes it for an offer, and parses the size, the time and the whole name, spaces
-- and all.
pub parse_three-large_line :
    (item : BundleItem) (c : Conn) (behind : List ℕ)
    → item.size < 2 ^ 64
    → IsI64 item.mtime
    → item.rel ≢ []
    → IsText item.rel
    → c.input ≡ large_line item ++ 10 ∷ behind
    → (expect_line c ≡ (ok (large_line item), record c { input = behind }))
      × (rest : Text) × (strip_prefix (codes "F ") (large_line item) ≡ some rest)
      × (parse_three rest ≡ some (item.size, item.mtime, item.rel))
parse_three-large_line item c behind fits time some_name text e = (
  expect_line-line (large_line item) behind c (large_line-IsLine item text) e,
  print_nat item.size ++ b' ' ∷ (print_int item.mtime ++ b' ' ∷ item.rel),
  strip_prefix-append (codes "F ")
      (print_nat item.size ++ b' ' ∷ (print_int item.mtime ++ b' ' ∷ item.rel)),
  parse_three-printed item.size item.mtime item.rel fits time some_name,
)
