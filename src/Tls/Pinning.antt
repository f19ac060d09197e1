-- ===== src/Tls/Pinning.antt =====
-- The fingerprint that the server prints, read by the client.
use folder_transfer.Prelude.{
  ℕ, ◌+◌, ◌*◌, ◌/◌, ◌%◌, ◌<◌, ◌≡◌, ◌↔◌, refl, ap, true, false, ◌||◌, List, [], ◌∷◌, some, arith,
  ◌==◌, length,
}
use folder_transfer.Text.Laws.{text_eq_iff}
use folder_transfer.Tls.{
  hex_digit, hex, fingerprint_hex, verify_server_cert, clean, hex_value, byte_of, bytes_of,
  parse_fingerprint,
}

abbrev pub AreBytes : List ℕ → Type 0
AreBytes [] = Unit {0}
AreBytes (b ∷ bs) = (b < 256) × AreBytes bs

full : (n : ℕ) → n ≡ 64 → (n == 64) ≡ true
full n h = ground arith

hex_value-hex_digit : (n : ℕ) → n < 16 → hex_value (hex_digit n) ≡ some n
hex_value-hex_digit n h = ground arith

digit_kept :
    (n : ℕ)
    → n < 16
    → ((hex_digit n == b':' || hex_digit n == b'-') ≡ false) × ((hex_digit n == b'+') ≡ false)
digit_kept n h = ground arith

byte_of-digits : (b : ℕ) → b < 256 → byte_of (hex_digit (b / 16)) (hex_digit (b % 16)) ≡ some b
unfolding byte_of
byte_of-digits b h =
    let high : b / 16 < 16 = omega arith in
    let low : b % 16 < 16 = omega arith in
    let value : (b / 16) * 16 + b % 16 ≡ b = omega arith in
    let (_, no_sign) = digit_kept (b / 16) high in
    rw (no_sign, hex_value-hex_digit (b / 16) high, hex_value-hex_digit (b % 16) low)
      (ap some value)

clean-hex : (bs : List ℕ) → AreBytes bs → clean (hex bs) ≡ hex bs
unfolding clean hex
clean-hex [] h = refl
clean-hex (b ∷ bs) (h, hs) =
    let high : b / 16 < 16 = omega arith in
    let low : b % 16 < 16 = omega arith in
    let (a, _) = digit_kept (b / 16) high in
    let (c, _) = digit_kept (b % 16) low in
    rw (a, c) (ap (λ t. hex_digit (b / 16) ∷ hex_digit (b % 16) ∷ t) (clean-hex bs hs))

length-hex : (bs : List ℕ) → length (hex bs) ≡ 2 * length bs
unfolding hex
length-hex [] = omega arith
length-hex (b ∷ bs) = omega (arith, length-hex bs)

bytes_of-hex : (bs : List ℕ) → AreBytes bs → bytes_of (hex bs) ≡ some bs
unfolding bytes_of hex
bytes_of-hex [] h = refl
bytes_of-hex (b ∷ bs) (h, hs) = rw (byte_of-digits b h, bytes_of-hex bs hs) refl

-- The client reads a printed fingerprint of 32 bytes back as those bytes.
pub parse_fingerprint-hex :
    (bs : List ℕ) → AreBytes bs → length bs ≡ 32 → parse_fingerprint (hex bs) ≡ some bs
unfolding parse_fingerprint
parse_fingerprint-hex bs h n =
    let size : (length (hex bs) == 64) ≡ true =
      full (length (hex bs)) (omega (arith, length-hex bs)) in
    rw (clean-hex bs h, size, bytes_of-hex bs h) refl

module _ (sha256 : List ℕ → List ℕ) where
  -- Where a hash is 32 bytes: the client that is given the fingerprint which the server has printed for its
  -- certificate can read it, and then accepts a certificate exactly if it has the same hash as that one.
  pub pinned_cert :
      (cert : List ℕ)
      → AreBytes (sha256 cert)
      → length (sha256 cert) ≡ 32
      → (pinned : List ℕ) × (parse_fingerprint (fingerprint_hex sha256 cert) ≡ some pinned)
        × ((other : List ℕ)
            → (verify_server_cert sha256 pinned other ≡ true) ↔ (sha256 other ≡ sha256 cert))
  unfolding fingerprint_hex verify_server_cert
  pinned_cert cert h n = (
    sha256 cert,
    parse_fingerprint-hex (sha256 cert) h n,
    λ other. text_eq_iff (sha256 other) (sha256 cert),
  )
