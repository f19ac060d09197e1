-- ===== src/Client/Run/Outcome.antt =====
-- When a run counts as done.
use folder_transfer.Prelude.{
  ◌≡◌, ◌⊎◌, refl, ap, ◌∙◌, Bool, true, false, ◌&&◌, List, [], ◌∷◌, ◌++◌, Option, none, inl, inr,
}
use folder_transfer.Text.{Text, codes}
use folder_transfer.Io.{ok, err, IoError, unexpected_eof, connection}
use folder_transfer.Wire.{Conn, End, closed, failed, read_line, send_line, flush, put_line}
use folder_transfer.Paths.{FilePath}
use folder_transfer.Ignore.{Regexes, IgnoreSet}
use folder_transfer.Platform.{Zstd}
use folder_transfer.Protocol.Writing.{IsHealthy}
use folder_transfer.Client.{Client, clear_seen, expect_line}
use folder_transfer.Client.Run.{
  WorkerStat, all_clean, connected, finish_clean, finish_some, finish_parallel, pass_items, passes,
  run_passes, run_single, serve_units, units_loop, qsync_line, single_result,
}

abbrev IsIn : WorkerStat → List WorkerStat → Type 0
IsIn w [] = ⊥
IsIn w (v ∷ ws) = (v ≡ w) ⊎ IsIn w ws

and_no : (b : Bool) → (b && false) ≡ false
and_no true = refl
and_no false = refl

all_clean_not :
    (w : WorkerStat) (ws : List WorkerStat) → IsIn w ws → w.ok ≡ false → all_clean ws ≡ false
unfolding all_clean
all_clean_not w [] i h = elim i [ ]
all_clean_not w (v ∷ ws) (inl same) h = rw (ap (λ x. x.ok) same ∙ h) refl
all_clean_not w (v ∷ ws) (inr later) h = rw (all_clean_not w ws later h) (and_no v.ok)

of_some :
    ⦃rx : Regexes⦄ (prefix : Text) (ignore : IgnoreSet rx) (ws : List WorkerStat) (c : Client)
    (w : WorkerStat)
    → IsIn w ws
    → w.ok ≡ false
    → finish_some prefix ignore ws c ≡ (err connection, c)
unfolding finish_some finish_clean
of_some prefix ignore [] c w i h = elim i [ ]
of_some prefix ignore (v ∷ ws) c w i h = rw (all_clean_not w (v ∷ ws) i h) refl

-- If one of the streams that were connected did not end well, the run ends with an error and nothing is
-- deleted: the disk is as the workers have left it.
pub finish_parallel-unclean :
    ⦃rx : Regexes⦄ (prefix : Text) (ignore : IgnoreSet rx) (results : List (Option WorkerStat))
    (c : Client) (w : WorkerStat)
    → IsIn w (connected results)
    → w.ok ≡ false
    → finish_parallel prefix ignore results c ≡ (err connection, c)
unfolding finish_parallel
finish_parallel-unclean prefix ignore results c w i h =
    of_some prefix ignore (connected results) c w i h

-- The connection after a line was sent on it.
abbrev after_line : Text → Conn → Conn
after_line line c = record c { sent = c.sent ++ (c.wbuf ++ line ++ 10 ∷ []); wbuf = [] }

send_line-healthy :
    (line : Text) (c : Conn) → IsHealthy c → send_line line c ≡ (ok tt, after_line line c)
unfolding send_line flush put_line
send_line-healthy line c h = rw (h c.sent) refl

read_line-closed :
    (c : Conn) → c.input ≡ [] → c.ends ≡ closed → read_line c ≡ (ok none, record c { input = [] })
unfolding read_line
read_line-closed c i e = rw (i, e) (ap (λ x. (ok none, record c { input = []; ends = x })) e)

module _ ⦃z : Zstd⦄ ⦃rx : Regexes⦄ (to : FilePath) (prefix : Text) (ignore : IgnoreSet rx) where
  -- A server that closes the connection in answer to `SYNC`, before it has offered anything, with an end of
  -- file between lines: the run of one stream is a success, with the statistics of a run that did nothing.
  pub run_single-closed :
      (c : Client)
      → c.conn.input ≡ []
      → c.conn.ends ≡ closed
      → IsHealthy c.conn
      → ((run_passes to prefix ignore c).0 ≡ ok false)
        × ((run_single to prefix ignore c).0 ≡ ok c.stats)
  unfolding run_single run_passes passes pass_items
  run_single-closed c i e h =
      let sync = after_line (codes "SYNC") c.conn in
      let bye = after_line (codes "BYE") (record sync { input = [] }) in
      let all : run_passes to prefix ignore c
          ≡ (ok false, record c { conn = bye; mir = clear_seen c.mir }) =
        rw
          (
            send_line-healthy (codes "SYNC") c.conn h,
            read_line-closed sync i e,
            send_line-healthy (codes "BYE") (record sync { input = [] }) h,
          )
          refl in
      (ap (λ x. x.0) all, ap (λ x. (single_result x).0) all)

read_line-failed :
    (c : Conn)
    → c.input ≡ []
    → c.ends ≡ failed
    → read_line c ≡ (err connection, record c { input = [] })
unfolding read_line
read_line-failed c i e = rw (i, e) (ap (λ x. (err connection, record c { input = []; ends = x })) e)

-- Nothing more comes: an error, whether the peer has closed or the transport has failed.
expect_line-empty :
    (x : End) (c : Conn)
    → c.ends ≡ x
    → c.input ≡ []
    → (e : IoError) × (expect_line c ≡ (err e, record c { input = [] }))
unfolding expect_line
expect_line-empty closed c e i = (unexpected_eof, rw (read_line-closed c i e) refl)
expect_line-empty failed c e i = (connection, rw (read_line-failed c i e) refl)

module _ ⦃z : Zstd⦄ (to : FilePath) (prefix : Text) where
  -- A stream whose connection ends or fails after `QSYNC` was sent, before a line has come, counts as one that ended
  -- well, in either mode.
  pub serve_units-lost :
      (stream_mode : Bool) (c : Client)
      → c.conn.input ≡ []
      → IsHealthy c.conn
      → (serve_units to prefix stream_mode c).0.ok ≡ true
  unfolding serve_units units_loop
  serve_units-lost stream_mode c i h =
      let line = qsync_line to prefix stream_mode in
      let (e, lost) = expect_line-empty c.conn.ends (after_line line c.conn) refl i in
      rw (send_line-healthy line c.conn h, lost) refl
