-- ===== src/Cli/Generate.antt =====
-- rust/src/main.rs: the connection file that the server writes for the client, and which file an argument is.
pub mod Understood
use mathlib.Core.List.{reverse}
use folder_transfer.Prelude.{
  ℕ, ◌-◌, ℤ, Bool, true, false, ◌&&◌, ◌||◌, not, List, [], ◌∷◌, ◌++◌, Option, none, some, ◌==◌, leb,
  if◌then◌else◌, length, drop,
}
use folder_transfer.Text.{Text, codes, text_eq, starts_with, join, split}
use folder_transfer.Text.Trim.{trim, trim_matches}
use folder_transfer.Io.{Io, ok, err, ◌>>◌}
use folder_transfer.Server.Walk.{is_empty}
use folder_transfer.Config.{strip_jsonc}
use folder_transfer.Config.Upgrade.{Files, Serde, read_to_string, write, create_dirs}
use folder_transfer.Cli.{has_client_keys}
use folder_transfer.Cli.Get.{ClientConn}

-- The components of a path, without empty ones and `.`.
unfoldable pub components : List Text → List Text
components [] = []
components (s ∷ parts) =
    let rest = components parts in if is_empty s || text_eq s (codes ".") then rest else s ∷ rest

abbrev pub last_of : List Text → Option Text
last_of [] = none
last_of (s ∷ []) = some s
last_of (s ∷ t ∷ parts) = last_of (t ∷ parts)

abbrev pub not_parent : Option Text → Option Text
not_parent none = none
not_parent (some s) = if text_eq s (codes "..") then none else some s

-- `Path::file_name`
unfoldable pub file_name : Text → Option Text
file_name path = not_parent (last_of (components (split (λ c. c == b'/') path)))

-- What stands in front of the last dot; `none` without a dot.
abbrev pub stem_or : ℕ → Option Text → Option Text
stem_or c (some a) = some (c ∷ a)
stem_or c none = if c == b'.' then some [] else none

unfoldable pub before_dot : Text → Option Text
before_dot [] = none
before_dot (c ∷ s) = stem_or c (before_dot s)

-- A name that begins with its only dot has no extension.
abbrev pub stem : Text → Option Text → Text
stem name none = name
stem name (some []) = name
stem name (some (c ∷ a)) = c ∷ a

-- `Path::file_stem`
unfoldable pub file_stem : Text → Option Text
file_stem path = elim (file_name path) [
  | none ↦ none
  | some name ↦ some (stem name (before_dot name))
]

abbrev pub name_or : Text → Option Text → Text
name_or d none = d
name_or d (some name) = name

abbrev pub config_name : Option Text → Text → Text
config_name none d = d
config_name (some c) d = name_or d (file_stem c)

unfoldable pub derive_client_name : List Text → Option Text → Text
derive_client_name [] config_path = config_name config_path (codes "Share")
derive_client_name (f ∷ []) config_path =
    name_or (codes "Share") (file_name (trim_matches (λ c. c == b'"') (trim f)))
derive_client_name (f ∷ g ∷ folders) config_path = config_name config_path (codes "multi")

-- `default_client_out`, below the directory `base` of the program.
unfoldable pub default_client_out : Text → Text → Text
default_client_out base name =
    base ++ (codes "/download-scripts/ft-download-" ++ (name ++ codes ".json"))

abbrev pub client_conn : Text → ℕ → Text → Text → ClientConn
client_conn host port token fingerprint = record {
  server = some host;
  port = some port;
  token = some token;
  fingerprint = some fingerprint;
  ignore = none;
  streams = none;
}

-- `client_out`, or the default for the name.
unfoldable pub out_path : Text → List Text → Option Text → Option Text → Text
out_path base folders config_path none =
    default_client_out base (derive_client_name folders config_path)
out_path base folders config_path (some p) = p

-- The components of a path; a `.` in front is one.
unfoldable pub path_parts : List Text → List Text
path_parts [] = []
path_parts (s ∷ parts) =
    if text_eq s (codes ".") then s ∷ components parts else components (s ∷ parts)

abbrev pub all_but_last : List Text → Option (List Text)
all_but_last [] = none
all_but_last (s ∷ []) = some []
all_but_last (s ∷ t ∷ parts) = elim (all_but_last (t ∷ parts)) [
  | none ↦ none
  | some i ↦ some (s ∷ i)
]

abbrev pub rejoined : Bool → Option (List Text) → Option Text
rejoined absolute none = none
rejoined true (some parts) = some (b'/' ∷ join (codes "/") parts)
rejoined false (some parts) = some (join (codes "/") parts)

-- `Path::parent`, with one slash between two names; `none` for the root and for an empty path.
unfoldable pub path_parent : Text → Option Text
path_parent path =
    rejoined (starts_with path (codes "/"))
      (all_but_last (path_parts (split (λ c. c == b'/') path)))

-- The directory of the file, where it has one.
unfoldable pub make_out_dir : Option Text → Files → Io (Unit {0}) × Files
make_out_dir none fs = (ok tt, fs)
make_out_dir (some d) fs = if is_empty d then (ok tt, fs) else create_dirs d fs

-- `generate_client`. `to_json` is `serde_json::to_string_pretty`.
unfoldable pub generate_client :
    (ClientConn → Text)
    → Text
    → Text
    → ℕ
    → Text
    → Text
    → List Text
    → Option Text
    → Option Text
    → Files
    → Io (Unit {0}) × Files
generate_client to_json base host port token fingerprint folders config_path client_out =
    let path = out_path base folders config_path client_out in
    make_out_dir (path_parent path)
    >> write path (to_json (client_conn host port token fingerprint))

module _ {C : Type 0} (serde : Serde C) (is_dir : Text → Bool) where
  abbrev pub object_keys : Option (Text → Bool) → Bool
  object_keys none = false
  object_keys (some has) = has_client_keys has

  -- `v.get(key)` gives nothing for what is no object.
  abbrev pub value_keys : Option serde.Value → Bool
  value_keys none = false
  value_keys (some v) = object_keys (serde.as_object v)

  abbrev pub text_keys : Io Text → Bool
  text_keys (err e) = false
  text_keys (ok raw) = value_keys (serde.from_str (strip_jsonc raw))

  -- Whether an argument is a connection file.
  unfoldable pub detect_is_client : Text → Files → Bool
  detect_is_client arg fs = if is_dir arg then false else text_keys (read_to_string arg fs)

-- `f.ends_with(".json")`
abbrev pub ends_with_json : Text → Bool
ends_with_json f = leb 5 (length f) && text_eq (drop (length f - 5) f) (codes ".json")

-- `cmd_serve`: the configuration, and the folder that is left of the positional argument.
unfoldable pub config_of : (Text → Bool) → Option Text → Option Text → Option Text × Option Text
config_of is_file (some c) folder = (some c, folder)
config_of is_file none none = (none, none)
config_of is_file none (some f) =
    if ends_with_json f || is_file f then (some f, none) else (none, some f)
