-- ===== src/Server/Accept/Ends.antt =====
-- rust/src/server.rs: how the accept loop of `run_serve_parallel` ends.
use folder_transfer.Prelude.{ℕ, ◌≡◌, ◌⊎◌, refl, ap, true, List, [], ◌∷◌, ◌++◌, arith, inl, inr}
use folder_transfer.Server.Walk.{WorkUnit}
use folder_transfer.Server.Queue.{Workers, Reach, is_served}
use folder_transfer.Server.Queue.Order.{served_all}
use folder_transfer.Server.Accept.{
  Closing, waiting, idle_timeout, job_done, all_gone, accept_failed, Acceptor, Knock, connection,
  nobody, broken, all_finished, check_end, accept_round, accept_rounds, go_on,
}

-- What a loop ends on holds of the state at its last look.
pub record Seen (P : Workers → Type 0) (looks : List (Knock × Workers)) : Type 0 where
  pub before : List (Knock × Workers)
  pub behind : List (Knock × Workers)
  pub knock : Knock
  pub state : Workers
  pub at : looks ≡ before ++ (knock, state) ∷ behind
  pub holds : P state

unfoldable pub AllReach : List WorkUnit → List (Knock × Workers) → Type 0
AllReach units [] = Unit
AllReach units ((knock, s) ∷ looks) = Reach units s × AllReach units looks

-- The handlers have ended, with all units taken in order.
unfoldable pub Finished : List WorkUnit → Workers → Type 0
Finished units s = (all_finished s.handlers ≡ true) × (s.taken ≡ units)

Seen-later :
    (P : Workers → Type 0) (l : Knock × Workers) (looks : List (Knock × Workers))
    → Seen P looks
    → Seen P (l ∷ looks)
Seen-later P l looks seen = record {
  before = l ∷ seen.before;
  behind = seen.behind;
  knock = seen.knock;
  state = seen.state;
  at = ap (λ x. l ∷ x) seen.at;
  holds = seen.holds;
}

check_end-job_done :
    (limit : ℕ) (a : Acceptor) (s : Workers)
    → check_end limit a s ≡ job_done
    → (all_finished s.handlers ≡ true) × (is_served s ≡ true)
unfolding check_end
check_end-job_done limit a s h = ground arith

accept_round-job_done :
    (limit : ℕ) (knock : Knock) (s : Workers) (a : Acceptor)
    → (accept_round limit knock s a).0 ≡ job_done
    → (all_finished s.handlers ≡ true) × (is_served s ≡ true)
unfolding accept_round
accept_round-job_done limit connection s a h = check_end-job_done limit _ s h
accept_round-job_done limit nobody s a h = check_end-job_done limit _ s h
accept_round-job_done limit (broken e) s a h = absurd cc

go_on-job_done :
    (limit : ℕ) (r : Closing × Acceptor) (next : Acceptor → Closing × Acceptor)
    → (go_on limit r next).0 ≡ job_done
    → (r.0 ≡ job_done) ⊎ ((next r.1).0 ≡ job_done)
go_on-job_done limit (waiting, a) next h = inr h
go_on-job_done limit (idle_timeout, a) next h = inl h
go_on-job_done limit (job_done, a) next h = inl h
go_on-job_done limit (all_gone, a) next h = inl h
go_on-job_done limit (accept_failed e, a) next h = inl h

-- If the accept loop of the parallel mode ends as one whose job is done, whatever it saw at its looks, then at one
-- of them all handlers had ended, and they had taken all units of the producer, each once and in order.
pub accept_rounds-job_done :
    (limit : ℕ) (units : List WorkUnit) (looks : List (Knock × Workers)) (a : Acceptor)
    → AllReach units looks
    → (accept_rounds limit looks a).0 ≡ job_done
    → Seen (Finished units) looks
unfolding accept_rounds AllReach Finished
accept_rounds-job_done limit units [] a r h = absurd cc
accept_rounds-job_done limit units ((knock, s) ∷ looks) a (r, rs) h =
    elim (go_on-job_done limit (accept_round limit knock s a) (accept_rounds limit looks) h) [
      | inl now ↦
          let ends = accept_round-job_done limit knock s a now in
          record {
            before = [];
            behind = looks;
            knock = knock;
            state = s;
            at = refl;
            holds = (ends.0, served_all r ends.1);
          }
      | inr later ↦
          Seen-later (Finished units) (knock, s) looks
            (accept_rounds-job_done limit units looks (accept_round limit knock s a).1 rs later)
    ]
