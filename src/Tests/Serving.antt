-- ===== src/Tests/Serving.antt =====
-- The walk, the queue and the controller on small inputs.
use folder_transfer.Prelude.{
  ltb, leb, ltb_ℤ, ◌+ℤ◌, ◌≤ℤ◌, replicate, not, ◌==◌, ◌+◌, ℕ, ◌≤◌, ◌≡◌, refl, pos, true, false, List,
  [], ◌∷◌, ◌++◌, some, length, arith,
}
use folder_transfer.Text.{Text, codes, text_eq}
use folder_transfer.Ignore.{Regexes, IgnoreSet, parse, is_ignored, normalise}
use folder_transfer.Ignore.Ancestors.{is_ignored_below}
use folder_transfer.Server.Body.{BundleItem}
use folder_transfer.Server.Walk.{nil, file, folder, WorkUnit, dir_unit, Root, producer_walk}
use folder_transfer.Server.Walk.Bundles.{AreUnits, producer_walk-AreUnits}
use folder_transfer.Server.Walk.Weight.{sum, sum_units}
use folder_transfer.Server.Walk.Complete.{offered_roots, producer_walk-offered_roots}
use folder_transfer.Server.Pass.{run_pass}
use folder_transfer.Server.Pass.Refines.{run_pass-serve_units}
use folder_transfer.Server.Pass.Follows.{serve_units}
use folder_transfer.Server.Queue.{
  queue_cap, Workers, start, asking, left, Step, enqueue, finish, connect, pop, Reach, begin, step,
  is_served,
}
use folder_transfer.Server.Queue.Order.{queue_order}
use folder_transfer.Server.Queue.Race.{left_behind}
use folder_transfer.Compress
use folder_transfer.Compress.Bounds
use folder_transfer.Tests.{toy_floats, toy_zstd, toy_clock, open_bytes, sender}

-- A pattern matches its own text alone.
instance abbrev pub toy_regexes : Regexes
toy_regexes = record {
  Regex = Text;
  build_ci = λ p. p;
  escape = λ s. s;
  is_match = λ r s. text_eq r (b'^' ∷ s ++ b'$' ∷ []);
}

abbrev pub log_ignored : IgnoreSet toy_regexes
log_ignored = parse (codes "log/")

-- A share with a small file, a large one, a directory that is ignored, and another.
abbrev pub share : Root
share = (
  codes "srv" ∷ codes "data" ∷ [],
  file (codes "a") (some (10, pos 5)) (
      folder (codes "log") (file (codes "b") (some (20, pos 6)) nil) (
        file (codes "c") (some (2000000, pos 7))
          (folder (codes "sub") (file (codes "d") (some (30, pos 8)) nil) nil))),
)

abbrev weigh : BundleItem → ℕ
weigh b = b.size

walk_units_example : AreUnits (producer_walk log_ignored (share ∷ []))
walk_units_example = producer_walk-AreUnits log_ignored (share ∷ [])

walk_files_example :
    sum_units weigh (producer_walk log_ignored (share ∷ []))
    ≡ sum weigh (offered_roots log_ignored (share ∷ []))
walk_files_example = producer_walk-offered_roots weigh log_ignored (share ∷ [])

pass_units_example :
    run_pass (λ p. some open_bytes) true log_ignored (share ∷ []) sender
    ≡ serve_units (λ p. some open_bytes) true (producer_walk log_ignored (share ∷ [])) sender
pass_units_example =
    run_pass-serve_units (λ p. some open_bytes) true log_ignored (share ∷ []) sender

log_is_ignored : is_ignored log_ignored (codes "data/log") true ≡ true
unfolding is_ignored normalise folder_transfer.Ignore.any_matches parse
    folder_transfer.Text.Trim.trim folder_transfer.Text.contains_char
    folder_transfer.Ignore.name_matches folder_transfer.Text.ends_with_char text_eq
    folder_transfer.Ignore.name_to_regex
log_is_ignored = refl

ignored_below_example : is_ignored log_ignored (codes "data/log/b") false ≡ true
unfolding normalise
ignored_below_example =
    is_ignored_below log_ignored (codes "data/log") (codes "data/log/b") (codes "b") false refl
      log_is_ignored

abbrev one_unit : List WorkUnit
one_unit = dir_unit (codes "data") ∷ []

abbrev all_taken : Workers
all_taken = record {
  to_come = [];
  queue = [];
  done = true;
  taken = one_unit;
  handlers = asking ∷ [];
}

taken_run : Reach one_unit all_taken
unfolding folder_transfer.Server.Queue.is_full folder_transfer.Server.Queue.try_pop
taken_run =
    step
      (step (step (step begin connect) (enqueue (dir_unit (codes "data")) refl refl))
        (pop [] [] (dir_unit (codes "data")) refl refl))
      (finish refl)

queue_order_example :
    (all_taken.taken ++ (all_taken.queue ++ all_taken.to_come) ≡ one_unit)
    × (length all_taken.queue ≤ queue_cap)
queue_order_example = queue_order taken_run

left_behind_example :
    (s : Workers) × Reach one_unit s
    × (s.handlers ≡ left ∷ [])
    × (s.queue ≡ one_unit)
    × (s.taken ≡ [])
left_behind_example = left_behind one_unit (omega arith)

one_call : Compress.Bounds.Reach 2 1 (Compress.note_incompressible (Compress.new 2 1))
one_call = Compress.Bounds.call Compress.Bounds.begin Compress.Bounds.incompressible

controller_example : Compress.Bounds.IsValid (Compress.note_incompressible (Compress.new 2 1))
controller_example = Compress.Bounds.controller-IsValid one_call

start_level : Compress.Bounds.IsLevel (Compress.new 2 1).level
unfolding Compress.new
start_level = (omega arith, omega arith, λ h. cc)

moves_example :
    let l = (Compress.apply_spare 7 (Compress.new 2 1)).1.level in
    (leb (Compress.new 2 1).raise 7 ≡ true
      → ltb_ℤ (Compress.new 2 1).level Compress.level_max ≡ true
      → ((Compress.new 2 1).level +ℤ pos 1 ≤ℤ l) × (l ≤ℤ (Compress.new 2 1).level +ℤ pos 4))
    × (leb (Compress.new 2 1).raise 7 ≡ false
        → ltb 7 (Compress.new 2 1).margin ≡ true
        → ltb_ℤ Compress.level_min (Compress.new 2 1).level ≡ true
        → (l +ℤ pos 1 ≤ℤ (Compress.new 2 1).level) × ((Compress.new 2 1).level ≤ℤ l +ℤ pos 4))
    × (leb (Compress.new 2 1).raise 7 ≡ false
        → ltb 7 (Compress.new 2 1).margin ≡ false
        → l ≡ (Compress.new 2 1).level)
moves_example = Compress.Bounds.apply_spare_moves 7 (Compress.new 2 1) start_level

abbrev in_raw : Compress.State
in_raw = record (Compress.new 2 1) { prefer_raw = true; raw_since = 61 }

reprobe_example :
    ((Compress.Bounds.chunks 3 in_raw).0 ≡ replicate 3 true)
    × ((Compress.Bounds.chunks 3 in_raw).1.prefer_raw ≡ not (61 + 3 == 64))
reprobe_example = Compress.Bounds.chunks_reprobe 3 in_raw refl (omega arith) (omega arith)
