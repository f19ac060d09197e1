-- ===== src/Server/Queue/Order.antt =====
-- No unit is lost or doubled by the queue.
use folder_transfer.Prelude.{
  ◌≤◌, ◌<◌, ◌≡◌, ◌≢◌, refl, sym, ap, ◌∙◌, Bool, true, false, List, [], ◌∷◌, ◌++◌, some, arith,
  leb_not, length, length-append, append_assoc, append-nil,
}
use folder_transfer.Server.Walk.{WorkUnit}
use folder_transfer.Server.Queue.{
  queue_cap, try_pop, is_full, Workers, Step, enqueue, finish, connect, pop, see_nothing, ask_again,
  leave, lose, Reach, begin, step, is_served,
}

record IsOrdered (units : List WorkUnit) (s : Workers) : Type 0 where
  order : s.taken ++ (s.queue ++ s.to_come) ≡ units
  room : length s.queue ≤ queue_cap
  over : s.done ≡ true → s.to_come ≡ []

try_pop-some :
    (q : List WorkUnit) {u : WorkUnit} {r : List WorkUnit} → try_pop q ≡ some (u, r) → q ≡ u ∷ r
unfolding try_pop
try_pop-some [] h = cc
try_pop-some (v ∷ q) h = cc

not_done : false ≢ true
not_done h = cc

served_queue :
    (q : List WorkUnit) (d : Bool)
    → elim q [ [] ↦ d | u ∷ r ↦ false ] ≡ true
    → (q ≡ []) × (d ≡ true)
served_queue [] d h = (refl, h)
served_queue (u ∷ q) d h = absurd (not_done h)

served_cases : (s : Workers) → is_served s ≡ true → (s.queue ≡ []) × (s.done ≡ true)
unfolding is_served
served_cases s h = served_queue s.queue s.done h

not_come : {u : WorkUnit} {us : List WorkUnit} → u ∷ us ≢ []
not_come h = cc

room_left : (q : List WorkUnit) → is_full q ≡ false → length q < queue_cap
unfolding is_full
room_left q h = leb_not queue_cap (length q) h

step-IsOrdered :
    {units : List WorkUnit} {s t : Workers} → Step s t → IsOrdered units s → IsOrdered units t
step-IsOrdered (enqueue {s} u {us} come room) v = record {
  order =
      ap (λ q. s.taken ++ q) (append_assoc s.queue (u ∷ []) us)
      ∙ ap (λ c. s.taken ++ (s.queue ++ c)) (sym come)
      ∙ v.order;
  room = omega (arith, length-append s.queue (u ∷ []), room_left s.queue room);
  over = λ d. absurd (not_come (sym come ∙ v.over d));
}
step-IsOrdered (finish come) v = record { order = v.order; room = v.room; over = λ d. come }
step-IsOrdered connect v = record { order = v.order; room = v.room; over = v.over }
step-IsOrdered (pop {s} before behind u {q} at some_unit) v =
    let front = try_pop-some s.queue some_unit in
    record {
      order =
          append_assoc s.taken (u ∷ []) (q ++ s.to_come)
          ∙ ap (λ c. s.taken ++ (c ++ s.to_come)) (sym front)
          ∙ v.order;
      room = omega (arith, ap length front, v.room);
      over = v.over;
    }
step-IsOrdered (see_nothing before behind at nothing) v = record {
  order = v.order;
  room = v.room;
  over = v.over;
}
step-IsOrdered (ask_again before behind at d) v = record {
  order = v.order;
  room = v.room;
  over = v.over;
}
step-IsOrdered (leave before behind at d) v = record {
  order = v.order;
  room = v.room;
  over = v.over;
}
step-IsOrdered (lose before behind h at) v = record {
  order = v.order;
  room = v.room;
  over = v.over;
}

Reach-IsOrdered : {units : List WorkUnit} {s : Workers} → Reach units s → IsOrdered units s
Reach-IsOrdered {units} begin = record {
  order = refl;
  room = omega arith;
  over = λ d. absurd (not_done d);
}
Reach-IsOrdered (step r t) = step-IsOrdered t (Reach-IsOrdered r)

-- However the producer and the handlers take turns, and whatever handlers connect, leave and are lost:
-- the units that were taken, those in the queue and those still to come are, in this order, the units of
-- the producer; and the queue never holds more than 256.
pub queue_order :
    {units : List WorkUnit} {s : Workers}
    → Reach units s
    → (s.taken ++ (s.queue ++ s.to_come) ≡ units) × (length s.queue ≤ queue_cap)
queue_order r = let v = Reach-IsOrdered r in (v.order, v.room)

-- When the server's accept loop may end cleanly, the handlers have taken every unit, once and in order.
pub served_all :
    {units : List WorkUnit} {s : Workers} → Reach units s → is_served s ≡ true → s.taken ≡ units
served_all {units} {s} r d =
    let v = Reach-IsOrdered r in
    let (empty, finished) = served_cases s d in
    sym (append-nil s.taken)
    ∙ ap (λ c. s.taken ++ c) (sym (ap (λ q. q ++ s.to_come) empty ∙ v.over finished))
    ∙ v.order
