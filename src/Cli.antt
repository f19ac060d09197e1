-- ===== src/Cli.antt =====
-- rust/src/main.rs: the command line.
pub mod Merge
pub mod Get
pub mod Generate
use folder_transfer.Prelude.{
  ℕ, ℤ, pos, ltb_ℤ, Bool, true, false, ◌&&◌, ◌||◌, not, List, [], ◌∷◌, ◌++◌, Option, none, some,
  ◌==◌, if◌then◌else◌,
}
use folder_transfer.Text.{Text, codes, text_eq, contains_text, starts_with, split, join}
use folder_transfer.Text.Trim.{trim}
use folder_transfer.Server.Walk.{is_empty}

abbrev pub subcommands : List Text
subcommands = codes "serve" ∷ codes "get" ∷ codes "download" ∷ codes "fetch" ∷ codes "help" ∷ []

abbrev pub help_or_version : List Text
help_or_version = codes "-h" ∷ codes "--help" ∷ codes "-V" ∷ codes "--version" ∷ []

-- A first argument with which the command line is passed on as it is.
unfoldable pub is_explicit : Text → Bool
is_explicit first =
    contains_text subcommands first
    || contains_text help_or_version first
    || starts_with first (codes "-")

-- The optional second positional, the destination folder.
unfoldable pub with_dest : List Text → List Text
with_dest [] = []
with_dest (a2 ∷ rest) = if starts_with a2 (codes "-") then a2 ∷ rest else codes "--to" ∷ a2 ∷ rest

-- `is_client` is `detect_is_client`, which reads the file of that name.
unfoldable pub rewrite_argv : (Text → Bool) → List Text → List Text
rewrite_argv is_client [] = []
rewrite_argv is_client (program ∷ []) = program ∷ []
rewrite_argv is_client (program ∷ pos1 ∷ rest) =
    if is_explicit pos1
    then program ∷ pos1 ∷ rest
    else if is_client pos1
    then program ∷ codes "get" ∷ codes "--config" ∷ pos1 ∷ with_dest rest
    else program ∷ codes "serve" ∷ pos1 ∷ rest

-- What `detect_is_client` looks at in a file that is JSON: which keys are there.
unfoldable pub has_client_keys : (Text → Bool) → Bool
has_client_keys has =
    not (has (codes "folders") || has (codes "folder"))
    && (has (codes "fingerprint") || has (codes "token") || has (codes "server"))

-- The fields that `cmd_serve` merges. A flag of the command line is on or off; in the file it may also
-- be missing. `F` are the floating-point numbers.
pub record ServeArgs (F : Type 0) : Type 0 where
  pub folder : Option Text
  pub ignore : Option Text
  pub no_compress : Bool
  pub compress_margin : Option F
  pub streams : Option ℤ
  pub port : Option ℕ
  pub allow_ip : Option Text
  pub server_host : Option Text
  pub idle_seconds : Option ℕ
  pub stall_timeout : Option ℕ
  pub client_out : Option Text
  pub once : Bool
  pub cutover : Bool
  pub no_firewall : Bool

pub record ServeFileConfig (F : Type 0) : Type 0 where
  pub folders : List Text
  pub folder : Option Text
  pub ignore : List Text
  pub port : Option ℕ
  pub allow_ip : Option Text
  pub server_host : Option Text
  pub idle_seconds : Option ℕ
  pub stall_timeout : Option ℕ
  pub client_out : Option Text
  pub cutover : Option Bool
  pub once : Option Bool
  pub no_firewall : Option Bool
  pub streams : Option ℤ
  pub compress : Option Bool
  pub compress_margin : Option F

pub record Settings (F : Type 0) : Type 0 where
  pub folders : List Text
  pub port : ℕ
  pub idle_seconds : ℕ
  pub stall_timeout : ℕ
  pub client_out : Option Text
  pub once : Bool
  pub cutover : Bool
  pub no_firewall : Bool
  pub use_compress : Bool
  pub compress_margin : F
  pub ignore_spec : Text
  pub allow_ip : Option Text
  pub server_host : Option Text
  pub streams : ℤ

abbrev pub default_port : ℕ
default_port = 8722

-- `a.or(b)`, `unwrap_or`
abbrev pub or_else {ℓ} : {A : Type ℓ} → Option A → Option A → Option A
or_else (some a) b = some a
or_else none b = b

abbrev pub unwrap_or {ℓ} : {A : Type ℓ} → Option A → A → A
unwrap_or (some a) d = a
unwrap_or none d = d

-- `nonempty`: a blank text counts as none.
unfoldable pub nonempty : Option Text → Option Text
nonempty none = none
nonempty (some v) = if is_empty (trim v) then none else some v

unfoldable pub trimmed_parts : List Text → List Text
trimmed_parts [] = []
trimmed_parts (s ∷ parts) =
    let rest = trimmed_parts parts in if is_empty (trim s) then rest else trim s ∷ rest

abbrev pub cli_ignore : Option Text → List Text
cli_ignore none = []
cli_ignore (some ig) = trimmed_parts (split (λ c. c == b';' || c == b',') ig)

abbrev pub option_list : Option Text → List Text
option_list none = []
option_list (some f) = f ∷ []

-- `if cutover { streams = 1 }`, then at least one.
abbrev pub clamp_streams : Bool → ℤ → ℤ
clamp_streams true streams = pos 1
clamp_streams false streams = if ltb_ℤ streams (pos 1) then pos 1 else streams

abbrev pub all_folders : {F : Type 0} → Option Text → ServeFileConfig F → List Text
all_folders folder_pos cfg = (cfg.folders ++ option_list cfg.folder) ++ option_list folder_pos

-- The command line wins over the file, and both over the defaults; `margin` is the default 1.6.
abbrev pub merged : {F : Type 0} → F → Option Text → ServeArgs F → ServeFileConfig F → Settings F
merged margin folder_pos a cfg =
    let cutover = a.cutover || unwrap_or cfg.cutover false in
    record {
      folders = all_folders folder_pos cfg;
      port = unwrap_or (or_else a.port cfg.port) default_port;
      idle_seconds = unwrap_or (or_else a.idle_seconds cfg.idle_seconds) 600;
      stall_timeout = unwrap_or (or_else a.stall_timeout cfg.stall_timeout) 300;
      once = cutover || (a.once || unwrap_or cfg.once false);
      cutover = cutover;
      no_firewall = a.no_firewall || unwrap_or cfg.no_firewall false;
      use_compress = not a.no_compress && unwrap_or cfg.compress true;
      compress_margin = unwrap_or (or_else a.compress_margin cfg.compress_margin) margin;
      ignore_spec = join (codes ";") (trimmed_parts (cfg.ignore ++ cli_ignore a.ignore));
      allow_ip = nonempty (or_else a.allow_ip cfg.allow_ip);
      server_host = nonempty (or_else a.server_host cfg.server_host);
      client_out = nonempty (or_else a.client_out cfg.client_out);
      streams = clamp_streams cutover (unwrap_or (or_else a.streams cfg.streams) (pos 4));
    }

-- `cmd_serve` up to the identity; `folder_pos` is the positional argument if it is no config file.
-- `none` is the error that no folder is given.
unfoldable pub merge_serve :
    {F : Type 0} → F → Option Text → ServeArgs F → ServeFileConfig F → Option (Settings F)
merge_serve margin folder_pos a cfg =
    if is_empty (all_folders folder_pos cfg) then none else some (merged margin folder_pos a cfg)
