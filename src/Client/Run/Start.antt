-- ===== src/Client/Run/Start.antt =====
-- rust/src/client.rs: `run`, from the destination and the first connection to the end of the transfer.
pub mod Confined
use folder_transfer.Prelude.{
  ℕ, zero, suc, ◌+◌, ℤ, pos, negsuc, Bool, true, false, List, [], ◌∷◌, Option, none, some,
}
use folder_transfer.Text.{Text}
use folder_transfer.Io.{Io, ok, err, connection, invalid_data, not_found}
use folder_transfer.Wire.{Conn}
use folder_transfer.Paths.{FilePath, root_prefix}
use folder_transfer.Ignore.{Regexes, IgnoreSet, parse}
use folder_transfer.Platform.{Zstd}
use folder_transfer.Fs.{Fs, metadata, create_dir_all}
use folder_transfer.Progress.{no_progress}
use folder_transfer.Tls.{parse_fingerprint}
use folder_transfer.Client.{Client, Stats, no_stats, no_mirror}
use folder_transfer.Client.Delete.{entries}
use folder_transfer.Client.Run.{
  ServerCfg, WorkerStat, connect_auth, serve_units, run_single, finish_parallel,
}

pub record RunArgs : Type 0 where
  pub server : Text
  pub port : ℕ
  pub token : Text
  pub to : Text
  pub fingerprint : Text
  pub ignore_override : Option Text
  pub streams_override : Option ℤ

-- A thread of the parallel run, as what it does to the disk, the mirror and the progress line that all share when it
-- runs alone.
abbrev pub Worker : Type 0
Worker = Client → Option WorkerStat × Client

-- What is outside of the program. `absolute`: where a path leads, from the current directory and along links.
-- `dial`: the connection of an attempt, if the server takes it and shows the pinned certificate.
-- `together`: `thread::scope`. What the threads do one among the other need not be what they do in turn, so it is any
-- results, in the order of the threads, and any disk, mirror and progress line; nothing is assumed of it.
pub record Outside : Type 0 where
  pub absolute : Text → FilePath
  pub dial : List ℕ → Text → ℕ → ℕ → Option Conn
  pub together : List Worker → Client → List (Option WorkerStat) × Client

unfoldable pub streams_or : Option ℤ → ℤ → ℤ
streams_or none n = n
streams_or (some n) m = n

unfoldable pub ignore_or : Option Text → Text → Text
ignore_or none spec = spec
ignore_or (some spec) other = spec

-- `max(1)`, as a number of threads.
unfoldable pub stream_count : ℤ → ℕ
stream_count (pos zero) = 1
stream_count (pos (suc n)) = suc n
stream_count (negsuc n) = 1

-- `fresh`: there is nothing in the directory.
unfoldable pub is_fresh : FilePath → Fs → Bool
is_fresh to fs = elim (entries to fs.nodes) [ [] ↦ true | e ∷ es ↦ false ]

module _ (out : Outside) where
  -- `canonicalize`, which fails on what is not there.
  abbrev pub canonical : FilePath → Fs → Io FilePath × Fs
  canonical p fs = elim (metadata p fs) [ none ↦ (err not_found, fs) | some n ↦ (ok p, fs) ]

  abbrev pub made : FilePath → Io (Unit {0}) × Fs → Io FilePath × Fs
  made p (ok _, fs) = canonical p fs
  made p (err e, fs) = (err e, fs)

  unfoldable pub prepare_dest : Text → Fs → Io FilePath × Fs
  prepare_dest to fs =
      let p = out.absolute to in
      elim (metadata p fs) [ none ↦ made p (create_dir_all p fs) | some n ↦ (ok p, fs) ]

  abbrev pub new_client : Conn → Fs → Client
  new_client c fs = record {
    conn = c;
    fs = fs;
    mir = no_mirror;
    stats = no_stats;
    prog = no_progress;
  }

  -- On the disk and the mirror that the threads share, with a connection and statistics of its own.
  abbrev pub own : Conn → Client → Client
  own c s = record s { conn = c; stats = no_stats }

  abbrev pub reported : WorkerStat × Client → Option WorkerStat × Client
  reported (w, s) = (some w, s)

  module _ ⦃z : Zstd⦄ ⦃rx : Regexes⦄ (pinned : List ℕ) (a : RunArgs) (to : FilePath) where
    abbrev pub probe_worker : Bool → Conn → Worker
    probe_worker fresh c s = reported (serve_units to (root_prefix to) fresh (own c s))

    abbrev pub greeted : Bool → Io ServerCfg × Conn → Worker
    greeted fresh (err e, c) s = (none, s)
    greeted fresh (ok cfg, c) s = probe_worker fresh c s

    abbrev pub dialled : Bool → Option Conn → Worker
    dialled fresh none s = (none, s)
    dialled fresh (some c) s = greeted fresh (connect_auth a.token c) s

    -- The attempt number `n`.
    unfoldable pub worker : Bool → ℕ → Worker
    worker fresh n s = dialled fresh (out.dial pinned a.server a.port n) s

    unfoldable pub workers : Bool → ℕ → ℕ → List Worker
    workers fresh n zero = []
    workers fresh n (suc more) = worker fresh n ∷ workers fresh (n + 1) more

    unfoldable pub run_parallel_impl : IgnoreSet rx → ℕ → Bool → Conn → Fs → Io Stats × Client
    run_parallel_impl ignore streams fresh probe fs =
        let (results, s) =
          out.together (probe_worker fresh probe ∷ workers fresh 1 streams) (new_client probe fs) in
        finish_parallel (root_prefix to) ignore results s

    -- The server's answer to `AUTH` tells how many streams there are, if the caller does not.
    unfoldable pub run_streams : IgnoreSet rx → ℕ → Bool → Conn → Fs → Io Stats × Client
    run_streams ignore zero fresh c fs = run_single to (root_prefix to) ignore (new_client c fs)
    run_streams ignore (suc zero) fresh c fs =
        run_single to (root_prefix to) ignore (new_client c fs)
    run_streams ignore (suc (suc n)) fresh c fs = run_parallel_impl ignore (suc n) fresh c fs

    unfoldable pub run_greeted : Bool → Io ServerCfg × Conn → Fs → Io Stats × Fs
    run_greeted fresh (err e, c) fs = (err e, fs)
    run_greeted fresh (ok scfg, c) fs =
        let streams = stream_count (streams_or a.streams_override scfg.streams) in
        let ignore = parse (ignore_or a.ignore_override scfg.ignore) in
        let (r, s) = run_streams ignore streams fresh c fs in (r, s.fs)

    unfoldable pub run_dialled : Option Conn → Fs → Io Stats × Fs
    run_dialled none fs = (err connection, fs)
    run_dialled (some c) fs = run_greeted (is_fresh to fs) (connect_auth a.token c) fs

  module _ ⦃z : Zstd⦄ ⦃rx : Regexes⦄ where
    -- `make_client_config`, then the first connection.
    unfoldable pub run_pinned : RunArgs → FilePath → Option (List ℕ) → Fs → Io Stats × Fs
    run_pinned a to none fs = (err invalid_data, fs)
    run_pinned a to (some pinned) fs =
        run_dialled pinned a to (out.dial pinned a.server a.port 0) fs

    unfoldable pub run_prepared : RunArgs → Io FilePath × Fs → Io Stats × Fs
    run_prepared a (err e, fs) = (err e, fs)
    run_prepared a (ok to, fs) = run_pinned a to (parse_fingerprint a.fingerprint) fs

    unfoldable pub run : RunArgs → Fs → Io Stats × Fs
    run a fs = run_prepared a (prepare_dest a.to fs)
