-- ===== src/Server/Session.antt =====
-- rust/src/server.rs: a session of the classic mode, and a handler of the parallel mode.
pub mod Rounds
pub mod Gate
use folder_transfer.Prelude.{
  ℕ, zero, suc, ◌+◌, ◌%◌, ℤ, pos, Bool, true, false, ◌||◌, List, [], ◌∷◌, ◌++◌, Option, none, some,
  ◌==◌, if◌then◌else◌, length,
}
use folder_transfer.Text.{Text, codes, text_eq, strip_prefix}
use folder_transfer.Text.Trim.{trim, trim_matches}
use folder_transfer.Text.Number.{print_int}
use folder_transfer.Io.{IoError, connection, Io, ok, err, not_found, ◌>>=◌, ◌>>◌, done}
use folder_transfer.Wire.{send_line, read_line}
use folder_transfer.Paths.{FilePath}
use folder_transfer.Ignore.{Regexes, IgnoreSet}
use folder_transfer.Platform.{Floats, Zstd, Clock}
use folder_transfer.Server.{File, Sender, on_conn}
use folder_transfer.Server.Walk.{WorkUnit, Root, is_empty}
use folder_transfer.Server.Pass.{and_then, serve_unit, send_pass}

pub record ServeConfig (fl : Floats) : Type 0 where
  pub folders : List Text
  pub port : ℕ
  pub idle_seconds : ℕ
  pub stall_timeout : ℕ
  pub once : Bool
  pub cutover : Bool
  pub use_compress : Bool
  pub compress_margin : fl.F
  pub ignore_spec : Text
  pub allow_ip : Option Text

-- `peer` is what `peer_addr()` gives.
unfoldable pub ip_allowed : Option Text → Option Text → Bool
ip_allowed peer none = true
ip_allowed none (some want) = false
ip_allowed (some ip) (some want) = text_eq ip want

-- `token.is_empty() || t == token`, after `AUTH `
unfoldable pub authed : Text → Option Text → Bool
authed token none = false
authed token (some line) = elim (strip_prefix (codes "AUTH ") line) [
  | some t ↦ is_empty token || text_eq t token
  | none ↦ false
]

-- `f.trim().trim_matches('"')`
abbrev pub folder_name : Text → Text
folder_name f = trim_matches (λ c. c == b'"') (trim f)

-- `canonicalize` gives a path only to what exists.
module _ (canonicalize : Text → Option FilePath) where
  abbrev pub add_path : Option FilePath → Io (List FilePath) → Io (List FilePath)
  add_path none rest = err not_found
  add_path (some p) (ok ps) = ok (p ∷ ps)
  add_path (some p) (err e) = err e

  unfoldable pub resolve_all : List Text → Io (List FilePath)
  resolve_all [] = ok []
  resolve_all (f ∷ fs) =
      let rest = resolve_all fs in
      if is_empty (folder_name f) then rest else add_path (canonicalize (folder_name f)) rest

  abbrev pub some_folder : Io (List FilePath) → Io (List FilePath)
  some_folder (ok []) = err not_found
  some_folder (ok (p ∷ ps)) = ok (p ∷ ps)
  some_folder (err e) = err e

  unfoldable pub resolve_folders : List Text → Io (List FilePath)
  resolve_folders folders = some_folder (resolve_all folders)

module _ ⦃fl : Floats⦄ where
  -- The flag file is there after `n` looks at it, a quarter of a second apart.
  unfoldable pub wait_cutover : ℕ → ℕ → Sender fl → Io (Unit {0}) × Sender fl
  wait_cutover zero ticks s = (ok tt, s)
  wait_cutover (suc n) ticks s =
      let rest = wait_cutover n (ticks + 1) in
      let ping = do on_conn (send_line (codes "PING")); rest
      in if (ticks + 1) % 60 == 0 then ping s else rest s

  -- `OK` and the configuration for the client.
  abbrev pub greet : ℤ → Text → Sender fl → Io (Unit {0}) × Sender fl
  greet streams ignore_spec = do
    on_conn (send_line (codes "OK"))
    on_conn (send_line (codes "CFG " ++ (print_int streams ++ b' ' ∷ ignore_spec)))

  -- `AUTH`: whether the client goes on.
  unfoldable pub authenticate : Text → ℤ → Text → Option Text → Sender fl → Io Bool × Sender fl
  authenticate token streams ignore_spec line =
      if authed token line
      then (do greet streams ignore_spec; done true)
      else (do on_conn (send_line (codes "ERR auth")); done false)

-- What the disk holds during a pass: the shared folders, and the files that can be opened.
pub record Disk : Type 0 where
  pub roots : List Root
  pub open_file : FilePath → Option File

module _ ⦃fl : Floats⦄ ⦃z : Zstd⦄ ⦃clock : Clock fl⦄ ⦃rx : Regexes⦄ (cfg : ServeConfig fl)
    (ignore : IgnoreSet rx) (token : Text) (disk : ℕ → Disk) (looks : ℕ) where
  unfoldable pub one_pass : ℕ → Sender fl → Io Bool × Sender fl
  one_pass n =
      and_then
        (send_pass (disk n).open_file cfg.use_compress ignore (disk n).roots cfg.compress_margin)
        (do on_conn (send_line (codes "PASS-END")); done true)

  unfoldable pub final_pass : ℕ → Sender fl → Io Bool × Sender fl
  final_pass n = do wait_cutover looks 0; on_conn (send_line (codes "GO")); one_pass n

  unfoldable pub done_line : Sender fl → Io Bool × Sender fl
  done_line = do on_conn (send_line (codes "DONE")); done true

  -- `SYNC`, as the pass number `n`: `false` if the client drops.
  unfoldable pub sync_command : ℕ → Sender fl → Io Bool × Sender fl
  sync_command n =
      and_then (one_pass n)
        (if cfg.cutover then and_then (final_pass (n + 1)) done_line else done_line)

  -- What a command does before the next round, `again`. `BYE` ends the loop well.
  unfoldable pub command :
      (Sender fl → Io Bool × Sender fl) → ℕ → Option Text → Sender fl → Io Bool × Sender fl
  command again n none = done false
  command again n (some cmd) =
      if text_eq cmd (codes "SYNC")
      then and_then (sync_command n) again
      else if text_eq cmd (codes "BYE")
      then done true
      else (do on_conn (send_line (codes "ERR cmd")); again)

  -- The loop over commands; the result tells whether `BYE` came. Each round takes a line or ends, so that
  -- one round more than there are bytes is enough; `spent` is the error of a loop that has used its rounds up.
  unfoldable pub session_loop : IoError → ℕ → ℕ → Sender fl → Io Bool × Sender fl
  session_loop spent zero n s = (err spent, s)
  session_loop spent (suc k) n s =
      (do line ← on_conn read_line; command (session_loop spent k (n + 2)) n line) s

  abbrev pub session_body : Sender fl → Io Bool × Sender fl
  session_body s = session_loop connection (suc (length s.conn.input)) 0 s

  -- From the handshake on; `peer` is the client's address.
  unfoldable pub handle_session : Option Text → Sender fl → Io Bool × Sender fl
  handle_session peer s =
      let session = do
        line ← on_conn read_line
        and_then (authenticate token (pos 1) cfg.ignore_spec line) session_body
      in if ip_allowed peer cfg.allow_ip then session s else (ok false, s)

-- What a handler gets from the queue: a unit; nothing, while more may come, so that it sleeps and after
-- ten seconds sends a `PING`; nothing after the last.
pub data Taken : Type 0 where
  unit : WorkUnit → Taken
  none_yet : Bool → Taken
  no_more : Taken

module _ ⦃fl : Floats⦄ ⦃z : Zstd⦄ ⦃clock : Clock fl⦄ (open_file : FilePath → Option File)
    (use_compress : Bool) where
  -- The loop of a handler along what it gets; the result tells whether `NOUNIT` was sent.
  unfoldable pub handler_loop : Bool → List Taken → Sender fl → Io Bool × Sender fl
  handler_loop stream_mode [] = done false
  handler_loop stream_mode (unit u ∷ more) =
      and_then (serve_unit open_file use_compress stream_mode u) (handler_loop stream_mode more)
  handler_loop stream_mode (none_yet true ∷ more) = do
    on_conn (send_line (codes "PING"))
    handler_loop stream_mode more
  handler_loop stream_mode (none_yet false ∷ more) = handler_loop stream_mode more
  handler_loop stream_mode (no_more ∷ more) = do on_conn (send_line (codes "NOUNIT")); done true

  unfoldable pub stream_mode_of : Option Text → Option Bool
  stream_mode_of none = none
  stream_mode_of (some cmd) =
      if text_eq cmd (codes "QSYNC")
      then some false
      else if text_eq cmd (codes "QSYNC STREAM")
      then some true
      else none

  unfoldable pub serve_mode : List Taken → Option Bool → Sender fl → Io Bool × Sender fl
  serve_mode taken none = do on_conn (send_line (codes "ERR cmd")); done false
  serve_mode taken (some stream_mode) = handler_loop stream_mode taken

  unfoldable pub parallel_handler :
      ServeConfig fl → Text → ℤ → List Taken → Option Text → Sender fl → Io Bool × Sender fl
  parallel_handler cfg token streams taken peer s =
      let units = do cmd ← on_conn read_line; serve_mode taken (stream_mode_of cmd)
      in let session = do
        line ← on_conn read_line
        and_then (authenticate token streams cfg.ignore_spec line) units
        in if ip_allowed peer cfg.allow_ip then session s else (ok false, s)
