-- ===== src/Cli/Generate/Understood.antt =====
-- The client understands the connection file of the server.
use folder_transfer.Prelude.{
  ℕ, ◌≡◌, refl, ap, ◌∙◌, true, false, Bool-cases, inl, inr, List, Option, none, some,
}
use folder_transfer.Text.{Text}
use folder_transfer.Text.Laws.{text_eq_refl}
use folder_transfer.Text.Utf8.{IsUtf8}
use folder_transfer.Text.Trim.{trim}
use folder_transfer.Io.{Io, ok}
use folder_transfer.Server.Walk.{is_empty}
use folder_transfer.Config.{strip_jsonc}
use folder_transfer.Config.Jsonc.{IsJson, strip_jsonc-json}
use folder_transfer.Config.Upgrade.{
  Files, whole, Serde, read_to_string, write, create_dirs, load_conn,
}
use folder_transfer.Cli.{nonempty}
use folder_transfer.Cli.Get.{ClientConn, GetArgs, merge_get}
use folder_transfer.Cli.Generate.{client_conn, out_path, path_parent, make_out_dir, generate_client}

-- The command `ft get --config <path>`, with a destination or without.
abbrev pub config_only : Option Text → GetArgs
config_only to = record {
  server = none;
  port = none;
  token = none;
  to = to;
  fingerprint = none;
  ignore = none;
  streams = none;
}

nonempty-some : (s : Text) → is_empty (trim s) ≡ false → nonempty (some s) ≡ some s
unfolding nonempty
nonempty-some s h = rw h refl

merge_get-generated :
    (host : Text) (port : ℕ) (token fingerprint to : Text) (prompted : Io Text)
    → is_empty (trim host) ≡ false
    → is_empty (trim fingerprint) ≡ false
    → merge_get (config_only (some to)) (client_conn host port token fingerprint) prompted
      ≡ ok (record {
        server = host;
        port = port;
        token = token;
        to = to;
        fingerprint = fingerprint;
        ignore_override = none;
        streams_override = none;
      })
unfolding merge_get
merge_get-generated host port token fingerprint to prompted h f =
    rw (nonempty-some host h, nonempty-some fingerprint f) (unfold nonempty in refl)

written_text :
    (p b : Text) (fs : Files)
    → fs.takes p b ≡ whole
    → IsUtf8 b
    → read_to_string p (write p b fs).1 ≡ ok b
unfolding write read_to_string
written_text p b fs w u = rw (w, text_eq_refl p, u, text_eq_refl b) refl

load_conn-text :
    (serde : Serde ClientConn) (p b : Text) (c : ClientConn) (fs : Files)
    → read_to_string p fs ≡ ok b
    → serde.config (strip_jsonc b) ≡ some c
    → load_conn serde p fs ≡ ok c
unfolding load_conn
load_conn-text serde p b c fs r j = rw (load_conn, r, j) refl

-- A directory that can be made.
made_out_dir :
    (p : Option Text) (fs : Files)
    → ((d : Text) → p ≡ some d → fs.makes d ≡ true)
    → make_out_dir p fs ≡ (ok tt, fs)
unfolding make_out_dir create_dirs
made_out_dir none fs h = refl
made_out_dir (some d) fs h = elim (Bool-cases (is_empty d)) [
  | inl none_left ↦ rw none_left refl
  | inr named ↦ rw (named, h d refl) refl
]

-- Where the directory of the connection file is there or can be made, the file is written whole, what serde_json
-- prints is UTF-8 and JSON, which has no comments, and serde_json reads it back: the command that names the
-- file, with a destination, runs with the server, the port, the token and the fingerprint that the server has put
-- in, and leaves the streams and what to ignore to the server; the address and the fingerprint are not blank.
pub generate_client-merge_get :
    (serde : Serde ClientConn) (to_json : ClientConn → Text) (base host : Text) (port : ℕ)
    (token fingerprint : Text) (folders : List Text) (config_path client_out : Option Text)
    (to : Text) (prompted : Io Text) (fs : Files)
    → fs.takes
        (out_path base folders config_path client_out)
        (to_json (client_conn host port token fingerprint))
      ≡ whole
    → ((d : Text)
        → path_parent (out_path base folders config_path client_out) ≡ some d
        → fs.makes d ≡ true)
    → IsUtf8 (to_json (client_conn host port token fingerprint))
    → IsJson (to_json (client_conn host port token fingerprint))
    → serde.config (to_json (client_conn host port token fingerprint))
      ≡ some (client_conn host port token fingerprint)
    → is_empty (trim host) ≡ false
    → is_empty (trim fingerprint) ≡ false
    → (conn : ClientConn) × (load_conn serde
          (out_path base folders config_path client_out)
          (generate_client to_json base host port token fingerprint folders config_path client_out
            fs).1
        ≡ ok conn)
      × (merge_get (config_only (some to)) conn prompted
          ≡ ok (record {
            server = host;
            port = port;
            token = token;
            to = to;
            fingerprint = fingerprint;
            ignore_override = none;
            streams_override = none;
          }))
unfolding generate_client
generate_client-merge_get serde to_json base host port token fingerprint folders config_path
      client_out to prompted fs w dirs u json j h f =
    let c = client_conn host port token fingerprint in
    (
      c,
      rw (made_out_dir (path_parent (out_path base folders config_path client_out)) fs dirs) (
          load_conn-text serde _ (to_json c) c _ (written_text _ (to_json c) fs w u)
            (ap serde.config (strip_jsonc-json (to_json c) json) ∙ j)),
      merge_get-generated host port token fingerprint to prompted h f,
    )
