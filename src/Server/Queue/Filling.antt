-- ===== src/Server/Queue/Filling.antt =====
-- The producer fills the queue.
use folder_transfer.Prelude.{
  ◌+◌, ◌≤◌, ◌≡◌, refl, sym, false, List, [], ◌∷◌, ◌++◌, arith, length, length-append, append_assoc,
  append-nil, subst,
}
use folder_transfer.Server.Walk.{WorkUnit}
use folder_transfer.Server.Queue.{queue_cap, is_full, Phase, Workers, enqueue, Reach, step}

-- The producer is at work, and no handler has taken a unit.
abbrev pub filled : List Phase → List WorkUnit → List WorkUnit → Workers
filled handlers q us = record {
  to_come = us;
  queue = q;
  done = false;
  taken = [];
  handlers = handlers;
}

room : (q : List WorkUnit) → length q + 1 ≤ queue_cap → is_full q ≡ false
unfolding is_full
room q h = ground arith

pub fill :
    {units : List WorkUnit} (handlers : List Phase) (q more us : List WorkUnit)
    → length q + length more ≤ queue_cap
    → Reach units (filled handlers q (more ++ us))
    → Reach units (filled handlers (q ++ more) us)
fill {units} hs q [] us h r = subst (λ p. Reach units (filled hs p us)) (sym (append-nil q)) r
fill {units} hs q (u ∷ more) us h r =
    subst (λ p. Reach units (filled hs p us)) (append_assoc q (u ∷ []) more)
      (fill hs (q ++ u ∷ []) more us (omega (arith, length-append q (u ∷ [])))
        (step r (enqueue u refl (room q (omega arith)))))
