-- ===== src/Server/Queue.antt =====
-- rust/src/server.rs: the parallel mode as steps of one producer and of any number of handlers, which
-- share `WorkQueue` and the flag `done`.
pub mod Order
pub mod Filling
pub mod Race
use folder_transfer.Prelude.{
  ℕ, zero, suc, ◌+◌, ◌≡◌, Bool, true, false, List, [], ◌∷◌, ◌++◌, Option, none, some, leb, length,
}
use folder_transfer.Server.Walk.{WorkUnit}

abbrev pub queue_cap : ℕ
queue_cap = 256

unfoldable pub try_pop : List WorkUnit → Option (WorkUnit × List WorkUnit)
try_pop [] = none
try_pop (u ∷ q) = some (u, q)

-- The test of `enqueue_blocking`: it waits as long as this holds.
unfoldable pub is_full : List WorkUnit → Bool
is_full q = leb queue_cap (length q)

-- A handler is about to call `try_pop`; it got `None` and is about to load `done`; it has sent
-- `NOUNIT`; or its connection is lost.
pub data Phase : Type 0 where
  asking empty_handed left lost : Phase

-- `to_come`: what the producer has yet to queue. `taken`: what the handlers took, in that order.
pub record Workers : Type 0 where
  pub to_come : List WorkUnit
  pub queue : List WorkUnit
  pub done : Bool
  pub taken : List WorkUnit
  pub handlers : List Phase

abbrev pub start : List WorkUnit → Workers
start units = record { to_come = units; queue = []; done = false; taken = []; handlers = [] }

-- The state with one handler in another phase.
abbrev pub moved : List Phase → Phase → List Phase → Workers → Workers
moved before h behind s = record s { handlers = before ++ h ∷ behind }

pub data Step : Workers → Workers → Type 0 where
  enqueue :
      {s : Workers} (u : WorkUnit) {us : List WorkUnit}
      → s.to_come ≡ u ∷ us
      → is_full s.queue ≡ false
      → Step s (record s { to_come = us; queue = s.queue ++ u ∷ [] })
  -- `producer_walk` has returned
  finish : {s : Workers} → s.to_come ≡ [] → Step s (record s { done = true })
  connect : {s : Workers} → Step s (record s { handlers = asking ∷ s.handlers })
  pop :
      {s : Workers} (before behind : List Phase) (u : WorkUnit) {q : List WorkUnit}
      → s.handlers ≡ before ++ asking ∷ behind
      → try_pop s.queue ≡ some (u, q)
      → Step s (record s { queue = q; taken = s.taken ++ u ∷ [] })
  see_nothing :
      {s : Workers} (before behind : List Phase)
      → s.handlers ≡ before ++ asking ∷ behind
      → try_pop s.queue ≡ none
      → Step s (moved before empty_handed behind s)
  ask_again :
      {s : Workers} (before behind : List Phase)
      → s.handlers ≡ before ++ empty_handed ∷ behind
      → s.done ≡ false
      → Step s (moved before asking behind s)
  leave :
      {s : Workers} (before behind : List Phase)
      → s.handlers ≡ before ++ empty_handed ∷ behind
      → s.done ≡ true
      → Step s (moved before left behind s)
  lose :
      {s : Workers} (before behind : List Phase) (h : Phase)
      → s.handlers ≡ before ++ h ∷ behind
      → Step s (moved before lost behind s)

pub data Reach (units : List WorkUnit) : Workers → Type 0 where
  begin : Reach units (start units)
  step : {s t : Workers} → Reach units s → Step s t → Reach units t

-- The test on which the accept loop of the server ends cleanly, beside that there is no handler.
unfoldable pub is_served : Workers → Bool
is_served s = elim s.queue [ [] ↦ s.done | u ∷ q ↦ false ]
