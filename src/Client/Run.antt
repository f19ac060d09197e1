-- ===== src/Client/Run.antt =====
-- rust/src/client.rs: a run, with one stream or with several.
pub mod Outcome
pub mod Rounds
pub mod Confined
pub mod Start
use folder_transfer.Prelude.{
  ℕ, zero, suc, ◌+◌, ℤ, pos, ltb_ℤ, Bool, true, false, ◌||◌, ◌&&◌, List, [], ◌∷◌, ◌++◌, Option,
  none, some, ◌==◌, if◌then◌else◌, length,
}
use folder_transfer.Text.{Text, codes, text_eq, starts_with, split_once}
use folder_transfer.Text.Number.{parse_i32}
use folder_transfer.Io.{
  Io, ok, err, IoError, connection, unexpected_eof, invalid_data, ◌>>=◌, ◌>>◌, continue, done, fail,
  lift, modify,
}
use folder_transfer.Wire.{Conn, send_line, read_line}
use folder_transfer.Paths.{FilePath}
use folder_transfer.Ignore.{Regexes, IgnoreSet}
use folder_transfer.Platform.{Zstd}
use folder_transfer.Client.{Client, Stats, no_stats, on_conn, clear_seen, expect_line}
use folder_transfer.Client.Items.{dispatch_item}
use folder_transfer.Client.Delete.{Deleting, mirror_delete}

-- What the server pushes after `AUTH`.
pub record ServerCfg : Type 0 where
  pub streams : ℤ
  pub ignore : Text

abbrev default_cfg : ServerCfg
default_cfg = record { streams = pos 1; ignore = [] }

abbrev streams_of : Text → ℤ
streams_of s = elim (parse_i32 s) [ none ↦ pos 1 | some n ↦ n ]

abbrev cfg_rest : Text → ServerCfg
cfg_rest rest = elim (split_once b' ' rest) [
  | none ↦ record { streams = streams_of rest; ignore = [] }
  | some (streams, ignore) ↦ record { streams = streams_of streams; ignore = ignore }
]

-- `CFG <streams> <ignore>`; a line without a space gives the default in any case.
unfoldable pub parse_cfg : Text → ServerCfg
parse_cfg line = elim (split_once b' ' line) [
  | none ↦ default_cfg
  | some (first, rest) ↦ if text_eq first (codes "CFG") then cfg_rest rest else default_cfg
]

abbrev auth_reply : Option Text → Conn → Io (Unit {0}) × Conn
auth_reply none = fail invalid_data
auth_reply (some line) = if text_eq line (codes "OK") then done tt else fail invalid_data

abbrev cfg_reply : Option Text → Conn → Io ServerCfg × Conn
cfg_reply none = fail unexpected_eof
cfg_reply (some line) = done (parse_cfg line)

-- `connect_auth`, from the handshake on.
unfoldable pub connect_auth : Text → Conn → Io ServerCfg × Conn
connect_auth token = do
  send_line (codes "AUTH " ++ token)
  reply ← read_line
  auth_reply reply
  line ← read_line
  cfg_reply line

abbrev is_idle_line : Text → Bool
is_idle_line h = text_eq h (codes "PING") || starts_with h (codes "T ")

abbrev deleting : Client → Deleting
deleting s = record { fs = s.fs; stats = s.stats }

-- A unit of the parallel mode counts once its header has come.
pub record Served : Type 0 where
  pub client : Client
  pub units : ℕ
  pub finished : Bool

pub record WorkerStat : Type 0 where
  pub ok : Bool
  pub stats : Stats

abbrev on_client {ℓ} : {A : Type ℓ} → (Client → Io A × Client) → Served → Io A × Served
on_client m s = let (r, c) = m s.client in (r, record s { client = c })

abbrev pub single_result : Io Bool × Client → Io Stats × Client
single_result (ok clean, t) = (ok t.stats, t)
single_result (err e, t) = (err connection, t)

module _ ⦃z : Zstd⦄ (to : FilePath) (prefix : Text) where
  -- The items of a pass: `false` if the connection is at its end. Each round takes a line or ends; `spent` is the
  -- error of a loop whose rounds are used up before it has ended, here and in the other loops.
  unfoldable pub pass_items : IoError → ℕ → Client → Io Bool × Client
  pass_items spent zero = fail spent
  pass_items spent (suc k) = do
    line ← on_conn read_line
    elim line [
      | none ↦ done false
      | some h ↦
          if text_eq h (codes "PASS-END")
          then done true
          else if is_idle_line h
          then pass_items spent k
          else (do dispatch_item to prefix h false; pass_items spent k)
    ]

  -- The next control line; keepalives are passed over.
  unfoldable pub next_control : IoError → ℕ → Client → Io (Option Text) × Client
  next_control spent zero = fail spent
  next_control spent (suc k) = do
    line ← on_conn read_line
    elim line [
      | none ↦ done none
      | some d ↦ if text_eq d (codes "PING") then next_control spent k else done (some d)
    ]

  -- The loop over the passes; the result is `sync_ok`.
  unfoldable pub passes : IoError → ℕ → Client → Io Bool × Client
  passes spent zero = fail spent
  passes spent (suc k) = do
    modify (λ s. record s { mir = clear_seen s.mir })
    more ← pass_items spent (suc k)
    if more
        then (do
          next ← next_control spent (suc k)
          elim next [
            | none ↦ done false
            | some d ↦
                if text_eq d (codes "GO") then passes spent k else done (text_eq d (codes "DONE"))
          ])
        else done false

  -- The mirroring, after a clean finish.
  unfoldable pub mirror : ⦃rx : Regexes⦄ → IgnoreSet rx → Client → Client
  mirror ignore s =
      let d = mirror_delete prefix ignore s.mir (deleting s) in
      record s { fs = d.fs; stats = d.stats }

  unfoldable pub run_passes : ⦃rx : Regexes⦄ → IgnoreSet rx → Client → Io Bool × Client
  run_passes ignore s =
      (do
        on_conn (send_line (codes "SYNC"))
        sync_ok ← passes connection (suc (length s.conn.input))
        modify (λ t. if sync_ok then mirror ignore t else t)
        on_conn (send_line (codes "BYE"))
        done sync_ok)
        s

  -- `run` with one stream: whether the sync was clean is not asked.
  unfoldable pub run_single : ⦃rx : Regexes⦄ → IgnoreSet rx → Client → Io Stats × Client
  run_single ignore s = single_result (run_passes ignore s)

  unfoldable pub units_loop : Bool → IoError → ℕ → Served → Io (Unit {0}) × Served
  units_loop stream_mode spent zero = fail spent
  units_loop stream_mode spent (suc k) = do
    h ← on_client (on_conn expect_line)
    if text_eq h (codes "NOUNIT")
        then modify (λ s. record s { finished = true })
        else if text_eq h (codes "PING")
        then units_loop stream_mode spent k
        else (do
          modify (λ s. record s { units = s.units + 1 })
          on_client (dispatch_item to prefix h stream_mode)
          units_loop stream_mode spent k)

  abbrev qsync_line : Bool → Text
  qsync_line stream_mode = if stream_mode then codes "QSYNC STREAM" else codes "QSYNC"

  abbrev is_err : Io (Unit {0}) → Bool
  is_err (ok _) = false
  is_err (err e) = true

  -- A stream that failed before its first unit counts as one that ended well.
  unfoldable pub serve_units : Bool → Client → WorkerStat × Client
  serve_units stream_mode c =
      let start : Served = record { client = c; units = 0; finished = false } in
      let (r, s) =
        (do
          on_client (on_conn (send_line (qsync_line stream_mode)))
          units_loop stream_mode connection (suc (length c.conn.input))
          on_client (on_conn (send_line (codes "BYE"))))
          start in
      (record { ok = s.finished || (is_err r && s.units == 0); stats = s.client.stats }, s.client)

-- The sum over the streams that were connected.
abbrev add_stats : Stats → Stats → Stats
add_stats a b = record {
  got = a.got + b.got;
  skipped = a.skipped + b.skipped;
  bytes = a.bytes + b.bytes;
  deleted = a.deleted;
}

unfoldable pub total_stats : Stats → List WorkerStat → Stats
total_stats total [] = total
total_stats total (w ∷ ws) = total_stats (add_stats total w.stats) ws

unfoldable pub all_clean : List WorkerStat → Bool
all_clean [] = true
all_clean (w ∷ ws) = w.ok && all_clean ws

unfoldable pub connected : List (Option WorkerStat) → List WorkerStat
connected [] = []
connected (none ∷ rs) = connected rs
connected (some w ∷ rs) = w ∷ connected rs

-- What `run_parallel_impl` does once its workers have ended: `c` is the disk and the mirror that they
-- have left.
module _ ⦃rx : Regexes⦄ (prefix : Text) (ignore : IgnoreSet rx) where
  unfoldable pub finish_clean : Bool → Stats → Client → Io Stats × Client
  finish_clean false total c = (err connection, c)
  finish_clean true total c =
      let d = mirror_delete prefix ignore c.mir (record { fs = c.fs; stats = total }) in
      (ok d.stats, record c { fs = d.fs })

  unfoldable pub finish_some : List WorkerStat → Client → Io Stats × Client
  finish_some [] c = (err connection, c)
  finish_some (w ∷ ws) c = finish_clean (all_clean (w ∷ ws)) (total_stats no_stats (w ∷ ws)) c

  unfoldable pub finish_parallel : List (Option WorkerStat) → Client → Io Stats × Client
  finish_parallel results c = finish_some (connected results) c
