-- ===== src/Tests/Setup.antt =====
-- The configuration, the token, the fingerprint and the command line on small inputs.
use folder_transfer.Prelude.{
  ℕ, zero, suc, ◌<◌, ◌≡◌, ◌↔◌, refl, pos, true, false, List, [], ◌∷◌, none, some, length, replicate,
  arith,
}
use folder_transfer.Text.{codes, contains_char}
use folder_transfer.Config.{strip_jsonc}
use folder_transfer.Config.Jsonc.{
  Piece, string, other, block_comment, line_comment, plain, escaped, ArePieces, whole_text,
  without_comments, strip_jsonc-whole_text,
}
use folder_transfer.Tls.{fingerprint_hex, verify_server_cert, parse_fingerprint}
use folder_transfer.Tls.Pinning.{AreBytes, pinned_cert}
use folder_transfer.Cli.{ServeArgs, ServeFileConfig, merged, merge_serve}
use folder_transfer.Cli.Merge.{IsSound, merge_serve-IsSound}

-- A string that looks like a comment, and two comments.
abbrev pieces : List Piece
pieces =
    other b'{'
    ∷ string (plain b'/' ∷ plain b'/' ∷ escaped b'"' ∷ plain b'*' ∷ [])
    ∷ block_comment (codes " a port ")
    ∷ other b'}'
    ∷ line_comment (codes " end")
    ∷ []

pieces-ArePieces : ArePieces pieces
unfolding contains_char
pieces-ArePieces = (
  (refl, refl),
  (
    (refl, refl, (refl, refl, (refl, refl, tt))),
    (
      (refl, (refl, (refl, (refl, (refl, (refl, (refl, (refl, tt)))))))),
      ((refl, refl), (refl, tt)),
    ),
  ),
)

strip_jsonc_example : strip_jsonc (whole_text pieces) ≡ without_comments pieces
strip_jsonc_example = strip_jsonc-whole_text pieces pieces-ArePieces

abbrev toy_hash : List ℕ → List ℕ
toy_hash b = replicate 32 (length b)

replicate-AreBytes : (n b : ℕ) → b < 256 → AreBytes (replicate n b)
replicate-AreBytes zero b h = tt
replicate-AreBytes (suc n) b h = (h, replicate-AreBytes n b h)

pinned_example :
    (pinned : List ℕ) × (parse_fingerprint (fingerprint_hex toy_hash (1 ∷ 2 ∷ [])) ≡ some pinned)
    × ((other : List ℕ)
        → (verify_server_cert toy_hash pinned other ≡ true)
          ↔ (toy_hash other ≡ toy_hash (1 ∷ 2 ∷ [])))
pinned_example = pinned_cert toy_hash (1 ∷ 2 ∷ []) (replicate-AreBytes 32 2 (omega arith)) refl

abbrev args : ServeArgs ℕ
args = record {
  folder = none;
  ignore = none;
  no_compress = false;
  compress_margin = none;
  streams = some (pos 8);
  port = none;
  allow_ip = none;
  server_host = none;
  client_out = some (codes "out.json");
  idle_seconds = none;
  stall_timeout = none;
  once = false;
  cutover = true;
  no_firewall = false;
}

abbrev config : ServeFileConfig ℕ
config = record {
  folders = codes "data" ∷ [];
  folder = none;
  ignore = [];
  port = some 9000;
  allow_ip = some [];
  server_host = some [];
  client_out = none;
  idle_seconds = none;
  stall_timeout = none;
  cutover = none;
  once = none;
  no_firewall = none;
  streams = none;
  compress = none;
  compress_margin = none;
}

merge_serve_example : IsSound (merged 2 none args config)
unfolding merge_serve
merge_serve_example = merge_serve-IsSound 2 none args config (merged 2 none args config) refl
