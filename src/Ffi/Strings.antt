-- ===== src/Ffi/Strings.antt =====
-- rust/src/ffi.rs: strings across the C interface.
use folder_transfer.Prelude.{
  ℕ, zero, suc, ◌-◌, ◌≤◌, ◌<◌, ◌≡◌, refl, ap, sym, ◌∙◌, min, false, List, [], ◌∷◌, ◌++◌, some,
  arith, length, take, drop, length-append, length-take, length-drop,
}
use folder_transfer.Text.{Text, contains_char}
use folder_transfer.Text.Laws.{text_eq_refl}
use folder_transfer.Text.Utf8.{IsUtf8}
use folder_transfer.Ffi.{Pointer, c_str, cstr_req, copy_out, overwrite}

c_str-append : (a rest : List ℕ) → c_str (a ++ 0 ∷ rest) ≡ c_str a
unfolding c_str
c_str-append [] rest = refl
c_str-append (x ∷ a) rest = ground (arith, c_str-append a rest)

take-min : (n : ℕ) (s : List ℕ) → take (min (length s) n) s ≡ take n s
take-min zero s = let e : min (length s) 0 ≡ 0 = omega arith in ap (λ k. take k s) e
take-min (suc n) [] = let e : min 0 (suc n) ≡ 0 = omega arith in ap (λ k. take k []) e
take-min (suc n) (x ∷ s) =
    let e : min (suc (length s)) (suc n) ≡ suc (min (length s) n) = omega arith in
    ap (λ k. take k (x ∷ s)) e ∙ ap (λ t. x ∷ t) (take-min n s)

drop-nil : (n : ℕ) → drop {A = ℕ} n [] ≡ []
drop-nil zero = refl
drop-nil (suc n) = refl

drop-overwrite :
    (len : ℕ) (a memory : List ℕ)
    → length a < len
    → drop len (a ++ 0 ∷ drop (suc (length a)) memory) ≡ drop len memory
drop-overwrite zero a memory h = absurd (omega arith)
drop-overwrite (suc len) [] [] h = drop-nil len
drop-overwrite (suc len) [] (m ∷ memory) h = refl
drop-overwrite (suc len) (x ∷ a) [] h = drop-overwrite len a [] (omega arith) ∙ drop-nil len
drop-overwrite (suc len) (x ∷ a) (m ∷ memory) h = drop-overwrite len a memory (omega arith)

-- The bytes that `copy_out` writes are those that fit in front of the byte 0.
written_length : (len : ℕ) (s : Text) → length (take (min (length s) len) s) ≡ min (length s) len
written_length len s = omega (arith, length-take (min (length s) len) s)

-- What the caller finds in a buffer of `len` bytes or more after `copy_out`.
pub record IsCopied (s : Text) (memory : List ℕ) (len : ℕ) (after : Pointer) : Type 0 where
  pub now : List ℕ
  pub there : after ≡ some now
  pub size : length now ≡ length memory
  pub beyond : drop len now ≡ drop len memory
  pub reads : c_str now ≡ c_str (take (len - 1) s)

-- Copying a string into a buffer that has the stated length, which is not 0: no byte is written beyond that length,
-- the memory keeps its size, and what C then reads is the string, up to its first byte 0 and cut off so that the final 0 fits.
pub copy_out-IsCopied :
    (s : Text) (memory : List ℕ) (len : ℕ)
    → 0 < len
    → len ≤ length memory
    → IsCopied s memory len (copy_out s (some memory) len)
unfolding copy_out
copy_out-IsCopied s memory zero p h = absurd (omega arith)
copy_out-IsCopied s memory (suc len) p h =
    let n = min (length s) len in
    let short = written_length len s in
    let less : len ≡ suc len - 1 = omega arith in
    record {
      now = overwrite n s memory;
      there = refl;
      size = omega (
        arith,
        short,
        length-append (take n s) (0 ∷ drop (suc n) memory),
        length-drop (suc n) memory,
      );
      beyond =
          ap (λ k. drop (suc len) (take n s ++ 0 ∷ drop (suc k) memory)) (sym short)
          ∙ drop-overwrite (suc len) (take n s) memory (omega (arith, short));
      reads =
          c_str-append (take n s) (drop (suc n) memory)
          ∙ ap c_str (take-min len s)
          ∙ ap (λ k. c_str (take k s)) less;
    }

c_str-whole : (s : Text) → contains_char s 0 ≡ false → c_str s ≡ s
unfolding c_str contains_char
c_str-whole [] h = refl
c_str-whole (x ∷ s) h = ground (arith, c_str-whole s)

take-all : (n : ℕ) (s : List ℕ) → length s ≤ n → take n s ≡ s
take-all zero [] h = refl
take-all zero (x ∷ s) h = absurd (omega arith)
take-all (suc n) [] h = refl
take-all (suc n) (x ∷ s) h = ap (λ t. x ∷ t) (take-all n s (omega arith))

cstr_req-read :
    (now : List ℕ) (s what last : Text)
    → c_str now ≡ s
    → IsUtf8 s
    → cstr_req (some now) what last ≡ (some s, last)
unfolding cstr_req
cstr_req-read now s what last e u = rw (e, u, text_eq_refl s) refl

-- A string of valid UTF-8 without a byte 0 that is shorter than the buffer, copied out and passed back into the library,
-- arrives whole, without an error.
pub cstr_req-copy_out :
    (s : Text) (memory : List ℕ) (len : ℕ) (what last : Text)
    → contains_char s 0 ≡ false
    → IsUtf8 s
    → length s < len
    → len ≤ length memory
    → cstr_req (copy_out s (some memory) len) what last ≡ (some s, last)
cstr_req-copy_out s memory len what last z u short room =
    let c = copy_out-IsCopied s memory len (omega arith) room in
    ap (λ p. cstr_req p what last) c.there
    ∙ cstr_req-read c.now s what last
        (c.reads ∙ ap c_str (take-all (len - 1) s (omega arith)) ∙ c_str-whole s z) u
