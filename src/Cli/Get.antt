-- ===== src/Cli/Get.antt =====
-- rust/src/main.rs: `cmd_get`, and the connection file of rust/src/config.rs.
use folder_transfer.Prelude.{ℕ, ℤ, [], Option, none, some, ◌==◌, if◌then◌else◌}
use folder_transfer.Text.{Text}
use folder_transfer.Text.Trim.{trim, trim_matches}
use folder_transfer.Io.{Io, ok, err, invalid_data}
use folder_transfer.Server.Walk.{is_empty}
use folder_transfer.Client.Run.Start.{RunArgs}
use folder_transfer.Cli.{default_port, or_else, unwrap_or, nonempty}

-- What the server writes for the client, and what `--config` reads.
pub record ClientConn : Type 0 where
  pub server : Option Text
  pub port : Option ℕ
  pub token : Option Text
  pub fingerprint : Option Text
  pub ignore : Option Text
  pub streams : Option ℤ

abbrev pub no_conn : ClientConn
no_conn = record {
  server = none;
  port = none;
  token = none;
  fingerprint = none;
  ignore = none;
  streams = none;
}

-- The fields that `cmd_get` merges.
pub record GetArgs : Type 0 where
  pub server : Option Text
  pub port : Option ℕ
  pub token : Option Text
  pub to : Option Text
  pub fingerprint : Option Text
  pub ignore : Option Text
  pub streams : Option ℤ

-- `prompt_destination`, for the line that was read in the directory `cwd`.
unfoldable pub picked_or : Text → Text → Text
picked_or cwd line =
    let picked = trim (trim_matches (λ c. c == b'"') (trim line)) in
    if is_empty picked then cwd else picked

-- The destination is asked for if none is given; `prompted` is what comes of that.
abbrev pub destination : Option Text → Io Text → Io Text
destination none prompted = prompted
destination (some to) prompted = ok to

-- The arguments of `run`; an error, if the server or the fingerprint is not given.
abbrev pub with_fingerprint : GetArgs → ClientConn → Text → Text → Option Text → Io RunArgs
with_fingerprint a cfg server to none = err invalid_data
with_fingerprint a cfg server to (some fingerprint) = ok (record {
  server = server;
  port = unwrap_or (or_else a.port cfg.port) default_port;
  token = unwrap_or (or_else a.token cfg.token) [];
  to = to;
  fingerprint = fingerprint;
  ignore_override = nonempty (or_else a.ignore cfg.ignore);
  streams_override = or_else a.streams cfg.streams;
})

abbrev pub with_destination : GetArgs → ClientConn → Text → Io Text → Io RunArgs
with_destination a cfg server (err e) = err e
with_destination a cfg server (ok to) =
    with_fingerprint a cfg server to (nonempty (or_else a.fingerprint cfg.fingerprint))

abbrev pub with_server : GetArgs → ClientConn → Io Text → Option Text → Io RunArgs
with_server a cfg prompted none = err invalid_data
with_server a cfg prompted (some server) = with_destination a cfg server (destination a.to prompted)

unfoldable pub merge_get : GetArgs → ClientConn → Io Text → Io RunArgs
merge_get a cfg prompted = with_server a cfg prompted (nonempty (or_else a.server cfg.server))
