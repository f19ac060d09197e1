-- ===== src/Config/Upgrade.antt =====
-- rust/src/config.rs: loading the two files, and `upgrade_serve_file`. serde_json and the disk are parameters.
pub mod Kept
pub mod OneLine
use folder_transfer.Prelude.{
  ℕ, zero, suc, Bool, true, false, ◌&&◌, ◌||◌, not, List, [], ◌∷◌, ◌++◌, Option, none, some, ◌==◌,
  leb, if◌then◌else◌, length, take, drop, map,
}
use folder_transfer.Text.{Text, codes, text_eq, ends_with_char}
use folder_transfer.Text.Utf8.{lossy}
use folder_transfer.Io.{Io, ok, err, IoError, invalid_data, not_found, disk, continue, ◌>>=◌, ◌>>◌}
use folder_transfer.Config.{strip_jsonc}

-- What `fs::write` does to a file: it cannot be opened, the writing breaks off, or all is written.
pub data Writing : Type 0 where
  refused whole : Writing
  cut : ℕ → Writing

-- The files by their paths. `takes` tells what becomes of a content that is written to a path, `makes` whether a
-- directory can be made or is there.
pub record Files : Type 0 where
  pub content : Text → Option (List ℕ)
  pub takes : Text → List ℕ → Writing
  pub makes : Text → Bool

abbrev pub set_content : Text → List ℕ → Files → Files
set_content p b fs = record fs { content = λ q. if text_eq q p then some b else fs.content q }

abbrev pub written : Writing → Text → List ℕ → Files → Io (Unit {0}) × Files
written refused p b fs = (err disk, fs)
written (cut n) p b fs = (err disk, set_content p (take n b) fs)
written whole p b fs = (ok tt, set_content p b fs)

-- `std::fs::write`
unfoldable pub write : Text → List ℕ → Files → Io (Unit {0}) × Files
write p b fs = written (fs.takes p b) p b fs

-- `std::fs::create_dir_all`: the directories are none of the files.
unfoldable pub create_dirs : Text → Files → Io (Unit {0}) × Files
create_dirs p fs = if fs.makes p then (ok tt, fs) else (err disk, fs)

-- `std::fs::read_to_string`: an error, if the bytes are no UTF-8.
abbrev pub as_text : Option (List ℕ) → Io Text
as_text none = err not_found
as_text (some b) = if text_eq (lossy b) b then ok b else err invalid_data

unfoldable pub read_to_string : Text → Files → Io Text
read_to_string p fs = as_text (fs.content p)

-- `serde_json::from_str`: as a value, with the keys if it is an object, and as a configuration.
pub record Serde (C : Type 0) : Type 1 where
  pub Value : Type 0
  pub from_str : Text → Option Value
  pub as_object : Value → Option (Text → Bool)
  pub config : Text → Option C

abbrev quoted : Text → Text
quoted s = b'"' ∷ (s ++ b'"' ∷ [])

-- A key, its default, and what it is for.
abbrev pub Tunable : Type 0
Tunable = Text × Text × Text

abbrev pub serve_upgrade_keys : List Tunable
serve_upgrade_keys =
    (codes "port", codes "8722", codes "TCP port to listen on")
    ∷ (codes "streams", codes "4", codes "parallel streams (1 = classic SYNC, >1 = parallel)")
    ∷ (codes "compress", codes "true", codes "adaptive compression on/off")
    ∷ (codes "compressMargin", codes "1.6", codes "keep compression at least this x the link speed")
    ∷ (
      codes "idleSeconds",
      codes "600",
      codes "auto-stop after this many idle seconds with no client",
    )
    ∷ (
      codes "stallTimeout",
      codes "300",
      codes "abort a connected-but-silent client after this many seconds",
    )
    ∷ (codes "once", codes "false", codes "exit after one clean transfer")
    ∷ (codes "cutover", codes "false", codes "two-phase cutover (implies once, streams = 1)")
    ∷ (
      codes "noFirewall",
      codes "false",
      codes "do not touch the Windows firewall (no-op on Linux)",
    )
    ∷ (codes "allowIp", quoted [], codes "restrict to one source IP (empty = any)")
    ∷ (
      codes "serverHost",
      quoted [],
      codes "address put in the generated client (empty = auto-detect)",
    )
    ∷ (
      codes "clientOut",
      quoted [],
      codes "where to write the generated client file (empty = default)",
    )
    ∷ []

unfoldable pub missing_keys : (Text → Bool) → List Tunable → List Tunable
missing_keys has [] = []
missing_keys has ((k, v, c) ∷ keys) =
    let rest = missing_keys has keys in if has k then rest else (k, v, c) ∷ rest

-- `env!("CARGO_PKG_VERSION")`
abbrev pub version : Text
version = codes "0.18.0"

abbrev pub block_title : Text
block_title =
    10
    ∷ 10
    ∷ (codes "  // ---- added by ft "
        ++ (version ++ codes " (current defaults; edit as needed) ----"))

abbrev pub comma_before : List Tunable → Text
comma_before [] = []
comma_before (m ∷ more) = codes ","

-- A line of the block; the last has no comma.
abbrev pub key_line : Tunable → Text → Text
key_line (k, v, c) comma =
    10 ∷ (codes "  " ++ (quoted k ++ (codes ": " ++ (v ++ (comma ++ (codes " // " ++ c))))))

unfoldable pub key_lines : List Tunable → Text
key_lines [] = []
key_lines (m ∷ more) = key_line m (comma_before more) ++ key_lines more

-- `is_ascii_whitespace`
abbrev pub is_space : ℕ → Bool
is_space c = c == b' ' || c == 9 || c == 10 || c == 12 || c == 13

-- `while at > 0 && bytes[at - 1].is_ascii_whitespace() { at -= 1; }`, on the text before `at`.
abbrev pub keep_or_drop : ℕ → Text → Text
keep_or_drop c [] = if is_space c then [] else c ∷ []
keep_or_drop c (d ∷ s) = c ∷ d ∷ s

unfoldable pub trim_back : Text → Text
trim_back [] = []
trim_back (c ∷ s) = keep_or_drop c (trim_back s)

-- `raw.rfind('}')`: what stands in front of the last brace.
abbrev pub before_or : ℕ → Text → Option Text → Option Text
before_or c s (some a) = some (c ∷ a)
before_or c s none = if c == b'}' then some [] else none

unfoldable pub before_brace : Text → Option Text
before_brace [] = none
before_brace (c ∷ s) = before_or c s (before_brace s)

-- `has_existing_keys`
abbrev pub existing_comma : Text → Text
existing_comma [] = []
existing_comma (c ∷ head) = if ends_with_char (c ∷ head) b'{' then [] else codes ","

-- What is inserted behind `head`.
unfoldable pub new_block : Text → List Tunable → Text
new_block head missing = existing_comma head ++ (block_title ++ key_lines missing)

-- `&raw[..at]`, the block, `&raw[at..]`
unfoldable pub upgraded : Text → Text → List Tunable → Text
upgraded raw before missing =
    let head = trim_back before in head ++ (new_block head missing ++ drop (length head) raw)

abbrev pub backup_path : Text → Text
backup_path path = path ++ codes ".bak"

module _ {C : Type 0} (serde : Serde C) where
  -- The two writes, one behind the other.
  unfoldable pub save : Text → Text → Text → Files → Io (Unit {0}) × Files
  save path raw result = do write (backup_path path) raw; write path result

  -- Nothing is written that does not load.
  unfoldable pub save_checked : Text → Text → Text → Files → Io (Unit {0}) × Files
  save_checked path raw result fs = elim (serde.config (strip_jsonc result)) [
    | none ↦ (err invalid_data, fs)
    | some cfg ↦ save path raw result fs
  ]

  unfoldable pub add_missing : Text → Text → List Tunable → Files → Io (Unit {0}) × Files
  add_missing path raw [] fs = (ok tt, fs)
  add_missing path raw (m ∷ more) fs = elim (before_brace raw) [
    | none ↦ (err invalid_data, fs)
    | some before ↦ save_checked path raw (upgraded raw before (m ∷ more)) fs
  ]

  unfoldable pub upgrade_object : Text → Text → Option (Text → Bool) → Files → Io (Unit {0}) × Files
  upgrade_object path raw none fs = (ok tt, fs)
  upgrade_object path raw (some has) fs =
      add_missing path raw (missing_keys has serve_upgrade_keys) fs

  unfoldable pub upgrade_serve_file : Text → Text → Text → Files → Io (Unit {0}) × Files
  upgrade_serve_file path raw stripped fs = elim (serde.from_str stripped) [
    | none ↦ (err invalid_data, fs)
    | some val ↦ upgrade_object path raw (serde.as_object val) fs
  ]

  -- `ServeFileConfig::load`: an upgrade that fails is passed over.
  unfoldable pub load : Text → Files → Io C × Files
  load path fs = elim (read_to_string path fs) [
    | err e ↦ (err e, fs)
    | ok raw ↦ elim (serde.config (strip_jsonc raw)) [
      | none ↦ (err invalid_data, fs)
      | some cfg ↦ (ok cfg, (upgrade_serve_file path raw (strip_jsonc raw) fs).1)
    ]
  ]

  -- `ClientConn::load`
  unfoldable pub load_conn : Text → Files → Io C
  load_conn path fs = elim (read_to_string path fs) [
    | err e ↦ err e
    | ok raw ↦ elim (serde.config (strip_jsonc raw)) [
      | none ↦ err invalid_data
      | some conn ↦ ok conn
    ]
  ]
