-- ===== src/Tests/Files.antt =====
-- The configuration files and the C interface on small inputs.
use folder_transfer.Prelude.{
  true, ℕ, ◌≡◌, refl, ◌∷◌, [], ◌++◌, List, length, arith, false, none, some, if◌then◌else◌,
}
use folder_transfer.Text.{Text, codes, text_eq, ends_with_char}
use folder_transfer.Io.{ok, err, invalid_data, not_found}
use folder_transfer.Config.{strip_jsonc}
use folder_transfer.Config.Upgrade.{
  Writing, refused, whole, cut, Files, Serde, Tunable, serve_upgrade_keys, missing_keys,
  before_brace, trim_back, load, load_conn, upgrade_serve_file, backup_path, new_block,
}
use folder_transfer.Config.Upgrade.Kept.{Kept, load-Kept}
use folder_transfer.Config.Upgrade.OneLine.{IsOutside, upgrade-one_line}
use folder_transfer.Config.Jsonc.{other}
use folder_transfer.Cli.Get.{ClientConn, merge_get}
use folder_transfer.Cli.Generate.{client_conn, generate_client, out_path}
use folder_transfer.Cli.Generate.Understood.{config_only, generate_client-merge_get}
use folder_transfer.Ffi.{cstr_req, copy_out}
use folder_transfer.Ffi.Strings.{IsCopied, copy_out-IsCopied, cstr_req-copy_out}

-- A reader that looks for the closing brace alone, and sees no key.
abbrev toy_serde : Serde ℕ
toy_serde = record {
  Value = Text;
  from_str = λ s. some s;
  as_object = λ v. some (λ k. false);
  config = λ s. if ends_with_char s b'}' then some (length s) else none;
}

abbrev quote : Text
quote = b'"' ∷ []

-- `{"folder":"x"` and the brace.
abbrev head : Text
head =
    codes "{"
    ++ (quote ++ (codes "folder" ++ (quote ++ (codes ":" ++ (quote ++ (codes "x" ++ quote))))))

abbrev conf : Text
conf = codes "serve.json"

-- A disk on which the backup can be written, and of anything else ten bytes.
abbrev small_disk : Files
small_disk = record {
  content = λ p. if text_eq p conf then some (head ++ 10 ∷ codes "}") else none;
  takes = λ p b. if text_eq p (backup_path conf) then whole else cut 10;
  makes = λ p. true;
}

conf_there : small_disk.content conf ≡ some (head ++ 10 ∷ codes "}")
unfolding text_eq
conf_there = refl

load_example : Kept toy_serde conf (head ++ 10 ∷ codes "}") (load toy_serde conf small_disk).1
load_example = load-Kept toy_serde conf (head ++ 10 ∷ codes "}") small_disk conf_there

head-IsOutside : IsOutside head
unfolding strip_jsonc folder_transfer.Config.strip_from folder_transfer.Config.pass
head-IsOutside t s b = refl

one_line_example :
    upgrade_serve_file toy_serde conf (head ++ codes "}") (head ++ codes "}") small_disk
    ≡ (err invalid_data, small_disk)
unfolding missing_keys before_brace trim_back strip_jsonc new_block
    folder_transfer.Text.contains_char ends_with_char folder_transfer.Config.strip_from
    folder_transfer.Config.pass folder_transfer.Config.Upgrade.key_lines
one_line_example =
    upgrade-one_line toy_serde conf head (codes "}") (head ++ codes "}") (head ++ codes "}")
      (λ k. false) _ _ small_disk refl refl refl refl refl refl head-IsOutside refl

abbrev buffer : List ℕ
buffer = 9 ∷ 9 ∷ 9 ∷ 9 ∷ 9 ∷ []

copy_out_example : IsCopied (codes "token") buffer 4 (copy_out (codes "token") (some buffer) 4)
copy_out_example = copy_out-IsCopied (codes "token") buffer 4 (omega arith) (omega arith)

cstr_example :
    cstr_req (copy_out (codes "tok") (some buffer) 5) (codes "token") [] ≡ (some (codes "tok"), [])
unfolding folder_transfer.Text.contains_char folder_transfer.Text.Utf8.lossy
cstr_example =
    cstr_req-copy_out (codes "tok") buffer 5 (codes "token") [] refl refl (omega arith)
      (omega arith)

-- A printer that gives one text, and the reader for it.
abbrev conn_serde : Serde ClientConn
conn_serde = record {
  Value = Text;
  from_str = λ s. some s;
  as_object = λ v. none;
  config = λ s. some (client_conn (codes "10.0.0.1") 8722 (codes "t") (codes "ff"));
}

abbrev ready : Files
ready = record { content = λ p. none; takes = λ p b. whole; makes = λ p. true }

generated_example :
    (conn : ClientConn) × (load_conn conn_serde
        (out_path (codes "/opt/ft") (codes "/srv/data" ∷ []) none none)
        (generate_client
          (λ c. codes "{}")
          (codes "/opt/ft")
          (codes "10.0.0.1")
          8722
          (codes "t")
          (codes "ff")
          (codes "/srv/data" ∷ [])
          none
          none
          ready).1
      ≡ ok conn)
    × (merge_get (config_only (some (codes "in"))) conn (err not_found)
        ≡ ok (record {
          server = codes "10.0.0.1";
          port = 8722;
          token = codes "t";
          to = codes "in";
          fingerprint = codes "ff";
          ignore_override = none;
          streams_override = none;
        }))
unfolding folder_transfer.Text.Utf8.lossy folder_transfer.Text.Trim.trim
generated_example =
    generate_client-merge_get conn_serde (λ c. codes "{}") (codes "/opt/ft") (codes "10.0.0.1") 8722
      (codes "t") (codes "ff") (codes "/srv/data" ∷ []) none none (codes "in") (err not_found) ready
      refl (λ d e. refl) refl
      (other b'{' ∷ other b'}' ∷ [], ((refl, refl), ((refl, refl), tt)), tt, refl) refl refl refl
