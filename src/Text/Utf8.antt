-- ===== src/Text/Utf8.antt =====
-- `String::from_utf8_lossy`: each maximal part that is no UTF-8 becomes U+FFFD.
use folder_transfer.Prelude.{
  pred, ℕ, ◌&&◌, List, [], ◌∷◌, ◌++◌, leb, ltb, ◌==◌, if◌then◌else◌, ◌≡◌, refl, arith, ◌<◌,
}

-- The bytes of a character that is not complete: how many are missing, and the range of the next.
pub record Decoder : Type 0 where
  pub pending : List ℕ
  pub missing : ℕ
  pub low : ℕ
  pub high : ℕ

abbrev pub idle : Decoder
idle = record { pending = []; missing = 0; low = 0; high = 0 }

abbrev replacement : List ℕ
replacement = 0xEF ∷ 0xBF ∷ 0xBD ∷ []

abbrev begin : ℕ → ℕ → ℕ → ℕ → List ℕ × Decoder
begin b n lo hi = ([], record { pending = b ∷ []; missing = n; low = lo; high = hi })

-- A byte where a character begins: what is written, and the next state.
first_byte : ℕ → List ℕ × Decoder
first_byte b =
    if ltb b 0x80
    then (b ∷ [], idle)
    else if leb 0xC2 b && leb b 0xDF
    then begin b 1 0x80 0xBF
    else if b == 0xE0
    then begin b 2 0xA0 0xBF
    else if b == 0xED
    then begin b 2 0x80 0x9F
    else if leb 0xE1 b && leb b 0xEF
    then begin b 2 0x80 0xBF
    else if b == 0xF0
    then begin b 3 0x90 0xBF
    else if leb 0xF1 b && leb b 0xF3
    then begin b 3 0x80 0xBF
    else if b == 0xF4
    then begin b 3 0x80 0x8F
    else (replacement, idle)

decode_byte : Decoder → ℕ → List ℕ × Decoder
decode_byte d b =
    if d.missing == 0
    then first_byte b
    else if leb d.low b && leb b d.high
    then if d.missing == 1 then (d.pending ++ b ∷ [], idle) else (
      [],
      record { pending = d.pending ++ b ∷ []; missing = pred d.missing; low = 0x80; high = 0xBF },
    )
    else let (out, d') = first_byte b in (replacement ++ out, d')

decode : Decoder → List ℕ → List ℕ
decode d [] = if d.missing == 0 then [] else replacement
decode d (b ∷ s) = let (out, d') = decode_byte d b in out ++ decode d' s

unfoldable pub lossy : List ℕ → List ℕ
unfolding decode decode_byte first_byte
lossy s = decode idle s

-- Valid UTF-8 is what the conversion leaves alone.
abbrev pub IsUtf8 : List ℕ → Type 0
IsUtf8 s = lossy s ≡ s

-- An ASCII byte in front stays.
pub lossy-cons : (b : ℕ) (s : List ℕ) → b < 128 → lossy (b ∷ s) ≡ b ∷ lossy s
unfolding lossy
lossy-cons b s h = ground arith

accents :
    lossy (0x63 ∷ 0xC3 ∷ 0xA9 ∷ 0xE2 ∷ 0x82 ∷ 0xAC ∷ 0xF0 ∷ 0x9F ∷ 0x98 ∷ 0x80 ∷ [])
    ≡ 0x63 ∷ 0xC3 ∷ 0xA9 ∷ 0xE2 ∷ 0x82 ∷ 0xAC ∷ 0xF0 ∷ 0x9F ∷ 0x98 ∷ 0x80 ∷ []
unfolding lossy
accents = refl

-- A character that stops short, a byte that begins none, and an overlong form.
broken :
    lossy (0xE2 ∷ 0x82 ∷ 0x41 ∷ 0xFF ∷ 0xC0 ∷ 0xAF ∷ [])
    ≡ replacement ++ 0x41 ∷ (replacement ++ replacement ++ replacement)
unfolding lossy
broken = refl
