-- ===== src/Server/Accept/Stuck.antt =====
-- rust/src/server.rs: `run_serve_parallel` may wait for its producer for ever.
use folder_transfer.Prelude.{
  ℕ, zero, suc, ◌+◌, ◌≤◌, ◌<◌, ◌≡◌, ◌≢◌, refl, sym, ap, ◌∙◌, true, false, List, [], ◌∷◌, ◌++◌,
  arith, length, replicate, ◌*◌,
}
use folder_transfer.Server.Walk.{WorkUnit}
use folder_transfer.Server.Queue.{
  queue_cap, is_full, Phase, asking, empty_handed, lost, Workers, Step, enqueue, finish, connect,
  pop, see_nothing, ask_again, leave, lose, Reach, begin, step, is_served,
}
use folder_transfer.Server.Queue.Filling.{filled, fill}
use folder_transfer.Server.Accept.{
  all_gone, Acceptor, start_accepting, Knock, connection, nobody, all_finished, is_finished,
  check_end, accept_round, accept_rounds,
}
use folder_transfer.Server.Accept.Ends.{AllReach}

-- The steps of the producer and the handlers once nobody is let in any more.
pub data Joining (s : Workers) : Workers → Type 0 where
  none_yet : Joining s s
  after :
      {t u : Workers} → Joining s t → Step t u → length u.handlers ≡ length t.handlers → Joining s u

record IsStuck (s : Workers) : Type 0 where
  full : is_full s.queue ≡ true
  more : s.to_come ≢ []
  running : s.done ≡ false
  gone : all_finished s.handlers ≡ true

not_full : false ≢ true
not_full h = cc

all_finished-append :
    (before : List Phase) (h : Phase) (behind : List Phase)
    → all_finished (before ++ h ∷ behind) ≡ true
    → (is_finished h ≡ true)
      × ((g : Phase) → is_finished g ≡ true → all_finished (before ++ g ∷ behind) ≡ true)
unfolding all_finished
all_finished-append [] h behind e = (ground arith, λ g k. ground arith)
all_finished-append (b ∷ before) h behind e =
    let rest = all_finished-append before h behind (ground arith) in
    (rest.0, λ g k. ground (arith, rest.1 g k))

finished_at : {s : Workers} {hs : List Phase} → s.handlers ≡ hs → IsStuck s → all_finished hs ≡ true
finished_at at v = ap all_finished (sym at) ∙ v.gone

-- With the queue full, no handler left and nobody let in, no step of the producer is left.
step-IsStuck :
    {s t : Workers} → Step s t → length t.handlers ≡ length s.handlers → IsStuck s → IsStuck t
step-IsStuck (enqueue {s} u {us} come room) e v = absurd (not_full (sym room ∙ v.full))
step-IsStuck (finish come) e v = absurd (v.more come)
step-IsStuck connect e v = absurd (omega arith)
step-IsStuck (pop {s} before behind u {q} at some_unit) e v =
    absurd (not_full (all_finished-append before asking behind (finished_at at v)).0)
step-IsStuck (see_nothing before behind at nothing) e v =
    absurd (not_full (all_finished-append before asking behind (finished_at at v)).0)
step-IsStuck (ask_again before behind at d) e v =
    absurd (not_full (all_finished-append before empty_handed behind (finished_at at v)).0)
step-IsStuck (leave before behind at d) e v =
    absurd (not_full (all_finished-append before empty_handed behind (finished_at at v)).0)
step-IsStuck (lose {s} before behind h at) e v = record {
  full = v.full;
  more = v.more;
  running = v.running;
  gone = (all_finished-append before h behind (finished_at at v)).1 lost refl;
}

joining-IsStuck : {s t : Workers} → Joining s t → IsStuck s → IsStuck t
joining-IsStuck none_yet v = v
joining-IsStuck (after j st e) v = step-IsStuck st e (joining-IsStuck j v)

quiet_rounds :
    (limit n : ℕ) (s : Workers) (a : Acceptor)
    → 0 < n
    → all_finished s.handlers ≡ true
    → is_served s ≡ false
    → a.connected_any ≡ true
    → 5000 ≤ a.idle + n * 150
    → (accept_rounds limit (replicate n (nobody, s)) a).0 ≡ all_gone
unfolding accept_rounds accept_round check_end
quiet_rounds limit zero s a p f v c h = absurd (omega arith)
quiet_rounds limit (suc n) s a p f v c h =
    ground (arith, quiet_rounds limit n s (record a { idle = a.idle + 150 }))

not_served :
    (q : List WorkUnit) (u : WorkUnit) (us : List WorkUnit)
    → length q ≡ queue_cap
    → is_served (filled (lost ∷ []) q (u ∷ us)) ≡ false
unfolding is_served
not_served [] u us h = absurd (omega arith)
not_served (v ∷ q) u us h = refl

full_queue : (q : List WorkUnit) → length q ≡ queue_cap → is_full q ≡ true
unfolding is_full
full_queue q h = ground arith

AllReach-replicate :
    {units : List WorkUnit} (n : ℕ) (knock : Knock) (s : Workers)
    → Reach units s
    → AllReach units (replicate n (knock, s))
unfolding AllReach
AllReach-replicate zero knock s r = tt
AllReach-replicate (suc n) knock s r = (r, AllReach-replicate n knock s r)

-- For every job of more units than the queue holds there is a run in which the accept loop ends because all clients
-- are gone, and whatever the producer and the handlers do from its last look on, while nobody is let in, the
-- producer, which the server now waits for, does not end.
pub left_waiting :
    (limit : ℕ) (q : List WorkUnit) (u : WorkUnit) (us : List WorkUnit)
    → length q ≡ queue_cap
    → (s : Workers) × (front : List (Knock × Workers)) × Reach (q ++ u ∷ us) s
      × AllReach (q ++ u ∷ us) (front ++ (nobody, s) ∷ [])
      × ((accept_rounds limit (front ++ (nobody, s) ∷ []) start_accepting).0 ≡ all_gone)
      × ((t : Workers) → Joining s t → t.done ≡ false)
left_waiting limit q u us h =
    let units = q ++ u ∷ us in
    let s : Workers = filled (lost ∷ []) q (u ∷ us) in
    let opened : Reach units (filled (asking ∷ []) [] units) = step begin connect in
    let reached : Reach units s =
      step (fill (asking ∷ []) [] q (u ∷ us) (omega arith) opened) (lose [] [] asking refl) in
    let quiet =
      quiet_rounds limit 34 s (record { idle = 0; connected_any = true }) (omega arith)
        (unfold all_finished in refl) (not_served q u us h) refl (omega arith) in
    (
      s,
      (connection, filled (asking ∷ []) [] units) ∷ replicate 33 (nobody, s),
      reached,
      unfold AllReach in (opened, AllReach-replicate 34 nobody s reached),
      unfold accept_rounds accept_round check_end all_finished in quiet,
      λ t j.
          (joining-IsStuck j (record {
            full = full_queue q h;
            more = λ e. cc;
            running = refl;
            gone = unfold all_finished in refl;
          })).running,
    )
