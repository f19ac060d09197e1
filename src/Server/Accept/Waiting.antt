-- ===== src/Server/Accept/Waiting.antt =====
-- rust/src/server.rs: how long `run_serve_single` waits, and how often it serves.
use folder_transfer.Prelude.{
  ℕ, zero, suc, ◌+◌, ◌*◌, ◌≤◌, ◌<◌, ◌≡◌, refl, ap, true, List, [], ◌∷◌, ◌++◌, arith, replicate,
  if◌then◌else◌,
}
use folder_transfer.Text.{Text}
use folder_transfer.Ignore.{Regexes, IgnoreSet}
use folder_transfer.Platform.{Floats, Zstd, Clock}
use folder_transfer.Server.Session.{ServeConfig}
use folder_transfer.Server.Accept.{
  idle_limit, Closing, waiting, idle_timeout, job_done, all_gone, accept_failed, Arrival, client,
  nobody, broken, Outcome, is_clean, accept_single, run_serve_single,
}

module _ ⦃fl : Floats⦄ where
  pub count_clean : List Outcome → ℕ
  count_clean [] = 0
  count_clean (o ∷ os) = if is_clean o then suc (count_clean os) else count_clean os

-- One clean session belongs to the end of a job.
abbrev pub jobs : Closing → ℕ
jobs job_done = 1
jobs waiting = 0
jobs idle_timeout = 0
jobs all_gone = 0
jobs (accept_failed e) = 0

module _ ⦃fl : Floats⦄ ⦃z : Zstd⦄ ⦃clock : Clock fl⦄ ⦃rx : Regexes⦄ (cfg : ServeConfig fl)
    (ignore : IgnoreSet rx) (token : Text) where
  quiet_open :
      (n waited end : ℕ) (more : List (Arrival fl))
      → waited + n * 200 ≡ end
      → end < idle_limit cfg.idle_seconds
      → accept_single cfg ignore token waited (replicate n nobody ++ more)
        ≡ accept_single cfg ignore token end more
  unfolding accept_single
  quiet_open zero waited end more e h =
      ap (λ w. accept_single cfg ignore token w more) (omega (arith, e))
  quiet_open (suc n) waited end more e h =
      ground (arith, quiet_open n (waited + 200) end more (omega (arith, e)) h)

  quiet_close :
      (n waited : ℕ) (more : List (Arrival fl))
      → 0 < n
      → idle_limit cfg.idle_seconds ≤ waited + n * 200
      → accept_single cfg ignore token waited (replicate n nobody ++ more) ≡ (idle_timeout, [])
  unfolding accept_single
  quiet_close zero waited more p h = absurd (omega arith)
  quiet_close (suc n) waited more p h = ground (arith, quiet_close n (waited + 200) more)

  -- A server that nobody calls looks for a client every 200 ms. As long as the looks last less than the idle
  -- time it goes on with what comes next; once they last as long it ends, without a session.
  pub run_serve_single-quiet :
      (n : ℕ) (more : List (Arrival fl))
      → (n * 200 < idle_limit cfg.idle_seconds
          → run_serve_single cfg ignore token (replicate n nobody ++ more)
            ≡ accept_single cfg ignore token (n * 200) more)
        × (0 < n
            → idle_limit cfg.idle_seconds ≤ n * 200
            → run_serve_single cfg ignore token (replicate n nobody ++ more) ≡ (idle_timeout, []))
  unfolding run_serve_single
  run_serve_single-quiet n more = (
    λ h. quiet_open n 0 (n * 200) more (omega arith) h,
    λ p h. quiet_close n 0 more p (omega arith),
  )

  -- With `once`, whoever calls and however the sessions end: at most one session is clean; when there is one, the
  -- server ends with it, and it ends in no other way with a clean session behind it.
  pub accept_single-once :
      (waited : ℕ) (looks : List (Arrival fl))
      → cfg.once ≡ true
      → count_clean (accept_single cfg ignore token waited looks).1
        ≡ jobs (accept_single cfg ignore token waited looks).0
  unfolding accept_single count_clean
  accept_single-once waited [] h = refl
  accept_single-once waited (nobody ∷ more) h =
      ground (arith, accept_single-once (waited + 200) more h)
  accept_single-once waited (broken e ∷ more) h = refl
  accept_single-once waited (client v ∷ more) h = ground (arith, accept_single-once 0 more h)
