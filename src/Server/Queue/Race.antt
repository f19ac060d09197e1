-- ===== src/Server/Queue/Race.antt =====
-- A handler loads `done` after it has seen an empty queue, and in between units can be queued.
use folder_transfer.Prelude.{◌≤◌, ◌≡◌, refl, sym, List, [], ◌∷◌, arith, length, append-nil, subst}
use folder_transfer.Server.Walk.{WorkUnit}
use folder_transfer.Server.Queue.{
  queue_cap, try_pop, empty_handed, left, Workers, finish, connect, see_nothing, leave, Reach,
  begin, step,
}
use folder_transfer.Server.Queue.Filling.{filled, fill}

nothing_yet : (units : List WorkUnit) → Reach units (filled (empty_handed ∷ []) [] units)
unfolding try_pop
nothing_yet units = step (step begin connect) (see_nothing [] [] refl refl)

-- For any units, if they fit into the queue: there is a run in which the one handler sends `NOUNIT` and
-- leaves although all of them lie in the queue and none was taken.
pub left_behind :
    (units : List WorkUnit)
    → length units ≤ queue_cap
    → (s : Workers) × Reach units s × (s.handlers ≡ left ∷ []) × (s.queue ≡ units) × (s.taken ≡ [])
left_behind units h =
    let all = fill (empty_handed ∷ []) [] units [] (omega arith) (
      subst (λ us. Reach units (filled (empty_handed ∷ []) [] us)) (sym (append-nil units))
        (nothing_yet units)) in
    let r = step (step all (finish refl)) (leave [] [] refl refl) in (_, r, refl, refl, refl)
