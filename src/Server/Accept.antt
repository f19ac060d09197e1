-- ===== src/Server/Accept.antt =====
-- rust/src/server.rs: the accept loops, `run_serve_single` and `run_serve_parallel`, along what a listener
-- that does not block gives at each look.
pub mod Waiting
pub mod Ends
pub mod Stuck
use folder_transfer.Prelude.{
  ℕ, ◌+◌, ◌*◌, ◌^◌, ◌%◌, ℤ, Bool, true, false, ◌&&◌, not, List, [], ◌∷◌, Option, none, some, leb,
  if◌then◌else◌,
}
use folder_transfer.Text.{Text}
use folder_transfer.Io.{Io, ok, err, IoError}
use folder_transfer.Ignore.{Regexes, IgnoreSet}
use folder_transfer.Platform.{Floats, Zstd, Clock}
use folder_transfer.Server.{Sender}
use folder_transfer.Server.Queue.{Workers, Phase, asking, empty_handed, left, lost, is_served}
use folder_transfer.Server.Session.{ServeConfig, Disk, handle_session}

-- `idle_seconds * 1000` in a `u64`, as a build for release computes it.
unfoldable pub idle_limit : ℕ → ℕ
idle_limit idle_seconds = idle_seconds * 1000 % 2 ^ 64

-- How the loop ends; `waiting` means that it has not ended with the looks at hand.
pub data Closing : Type 0 where
  waiting idle_timeout job_done all_gone : Closing
  accept_failed : IoError → Closing

-- A client comes with its address, its connection, what the disk holds in its passes, and how often the
-- cutover flag is looked for.
pub record Visit (fl : Floats) : Type 0 where
  pub peer : Option Text
  pub sender : Sender fl
  pub disk : ℕ → Disk
  pub looks : ℕ

pub data Arrival (fl : Floats) : Type 0 where
  client : Visit fl → Arrival fl
  nobody : Arrival fl
  broken : IoError → Arrival fl

module _ ⦃fl : Floats⦄ where
  abbrev pub Outcome : Type 0
  Outcome = Io Bool × Sender fl

  -- Whether a session ended with `BYE`.
  abbrev pub is_clean : Outcome → Bool
  is_clean (ok clean, s) = clean
  is_clean (err e, s) = false

  abbrev pub push_outcome : Outcome → Closing × List Outcome → Closing × List Outcome
  push_outcome o (closing, os) = (closing, o ∷ os)

module _ ⦃fl : Floats⦄ ⦃z : Zstd⦄ ⦃clock : Clock fl⦄ ⦃rx : Regexes⦄ (cfg : ServeConfig fl)
    (ignore : IgnoreSet rx) (token : Text) where
  abbrev pub visit : Visit fl → Outcome
  visit v = handle_session cfg ignore token v.disk v.looks v.peer v.sender

  -- The loop of `run_serve_single`: `waited` milliseconds without a client. The sessions are in their order.
  unfoldable pub accept_single : ℕ → List (Arrival fl) → Closing × List Outcome
  accept_single waited [] = (waiting, [])
  accept_single waited (nobody ∷ more) =
      if leb (idle_limit cfg.idle_seconds) (waited + 200)
      then (idle_timeout, [])
      else accept_single (waited + 200) more
  accept_single waited (broken e ∷ more) = (accept_failed e, [])
  accept_single waited (client v ∷ more) =
      if is_clean (visit v) && cfg.once
      then (job_done, visit v ∷ [])
      else push_outcome (visit v) (accept_single 0 more)

  unfoldable pub run_serve_single : List (Arrival fl) → Closing × List Outcome
  run_serve_single = accept_single 0

-- The state of the loop of `run_serve_parallel`; the handlers are in `Workers`.
pub record Acceptor : Type 0 where
  pub idle : ℕ
  pub connected_any : Bool

abbrev pub start_accepting : Acceptor
start_accepting = record { idle = 0; connected_any = false }

pub data Knock : Type 0 where
  connection nobody : Knock
  broken : IoError → Knock

-- `h.is_finished()`
abbrev pub is_finished : Phase → Bool
is_finished asking = false
is_finished empty_handed = false
is_finished left = true
is_finished lost = true

unfoldable pub all_finished : List Phase → Bool
all_finished [] = true
all_finished (h ∷ hs) = is_finished h && all_finished hs

module _ (idle_seconds : ℕ) where
  -- The tests of a round, behind `accept`, on what the handlers and the queue are like then.
  unfoldable pub check_end : Acceptor → Workers → Closing
  check_end a s =
      if a.connected_any && all_finished s.handlers && is_served s
      then job_done
      else if a.connected_any && all_finished s.handlers && leb 5000 a.idle
      then all_gone
      else if not a.connected_any && leb (idle_limit idle_seconds) a.idle
      then idle_timeout
      else waiting

  -- A round of the loop: `s` is the state of the handlers when it tests for its end.
  unfoldable pub accept_round : Knock → Workers → Acceptor → Closing × Acceptor
  accept_round connection s a =
      let b : Acceptor = record { idle = 0; connected_any = true } in (check_end b s, b)
  accept_round nobody s a =
      let b : Acceptor = record a { idle = a.idle + 150 } in (check_end b s, b)
  accept_round (broken e) s a = (accept_failed e, a)

  -- The next round, unless the loop has ended.
  abbrev pub go_on : Closing × Acceptor → (Acceptor → Closing × Acceptor) → Closing × Acceptor
  go_on (waiting, a) next = next a
  go_on (idle_timeout, a) next = (idle_timeout, a)
  go_on (job_done, a) next = (job_done, a)
  go_on (all_gone, a) next = (all_gone, a)
  go_on (accept_failed e, a) next = (accept_failed e, a)

  unfoldable pub accept_rounds : List (Knock × Workers) → Acceptor → Closing × Acceptor
  accept_rounds [] a = (waiting, a)
  accept_rounds ((knock, s) ∷ more) a = go_on (accept_round knock s a) (accept_rounds more)
