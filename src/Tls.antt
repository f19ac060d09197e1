-- ===== src/Tls.antt =====
-- rust/src/tls.rs: the fingerprint of a certificate, and the client's check of it. SHA-256 is a
-- parameter.
pub mod Pinning
use folder_transfer.Prelude.{
  ℕ, ◌+◌, ◌-◌, ◌*◌, ◌/◌, ◌%◌, Bool, true, false, ◌&&◌, ◌||◌, not, List, [], ◌∷◌, Option, none, some,
  leb, ◌==◌, if◌then◌else◌, length,
}
use folder_transfer.Text.{Text, text_eq}

-- `{b:02x}`
abbrev pub hex_digit : ℕ → ℕ
hex_digit n = if leb n 9 then n + b'0' else (n - 10) + b'a'

unfoldable pub hex : List ℕ → Text
hex [] = []
hex (b ∷ bs) = hex_digit (b / 16) ∷ hex_digit (b % 16) ∷ hex bs

module _ (sha256 : List ℕ → List ℕ) where
  unfoldable pub fingerprint_hex : List ℕ → Text
  fingerprint_hex cert_der = hex (sha256 cert_der)

  -- `verify_server_cert`: whether the certificate is the pinned one.
  unfoldable pub verify_server_cert : List ℕ → List ℕ → Bool
  verify_server_cert pinned end_entity = text_eq (sha256 end_entity) pinned

-- `filter(|c| *c != ':' && *c != '-')`
unfoldable pub clean : Text → Text
clean [] = []
clean (c ∷ fp) = let rest = clean fp in if c == b':' || c == b'-' then rest else c ∷ rest

abbrev pub hex_value : ℕ → Option ℕ
hex_value c =
    if leb b'0' c && leb c b'9'
    then some (c - b'0')
    else if leb b'a' c && leb c b'f'
    then some (c - b'a' + 10)
    else if leb b'A' c && leb c b'F'
    then some (c - b'A' + 10)
    else none

abbrev pub two_values : Option ℕ → Option ℕ → Option ℕ
two_values (some a) (some b) = some (a * 16 + b)
two_values (some a) none = none
two_values none b = none

-- `u8::from_str_radix(s, 16)` of two bytes; a sign `+` may stand in front of a digit.
unfoldable pub byte_of : ℕ → ℕ → Option ℕ
byte_of a b = if a == b'+' then hex_value b else two_values (hex_value a) (hex_value b)

abbrev pub push_byte : Option ℕ → Option (List ℕ) → Option (List ℕ)
push_byte (some b) (some bs) = some (b ∷ bs)
push_byte (some b) none = none
push_byte none bs = none

unfoldable pub bytes_of : Text → Option (List ℕ)
bytes_of [] = some []
bytes_of (a ∷ []) = push_byte (hex_value a) (some [])
bytes_of (a ∷ b ∷ fp) = push_byte (byte_of a b) (bytes_of fp)

unfoldable pub parse_fingerprint : Text → Option (List ℕ)
parse_fingerprint fp = if length (clean fp) == 64 then bytes_of (clean fp) else none
