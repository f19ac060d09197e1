-- ===== src/Tests/Accepting.antt =====
-- The accept loops and the check of the token on small inputs.
use folder_transfer.Prelude.{
  ◌*◌, ◌≤◌, ◌<◌, ◌≡◌, ◌≢◌, refl, ◌∷◌, [], ◌++◌, List, replicate, arith, true, false, none, some,
}
use folder_transfer.Text.{Text, codes}
use folder_transfer.Io.{ok}
use folder_transfer.Wire.{read_line}
use folder_transfer.Server.{Sender}
use folder_transfer.Server.Walk.{WorkUnit, dir_unit}
use folder_transfer.Server.Queue.{
  asking, left, Workers, enqueue, finish, connect, pop, see_nothing, leave, Reach, begin, step,
  is_served,
}
use folder_transfer.Server.Session.{handle_session}
use folder_transfer.Server.Session.Gate.{IsRefused, handle_session-IsRefused}
use folder_transfer.Server.Accept.{
  idle_limit, idle_timeout, job_done, all_gone, Visit, Arrival, client, nobody, accept_single,
  run_serve_single, start_accepting, Knock, connection, accept_rounds,
}
use folder_transfer.Server.Accept.Waiting.{
  count_clean, jobs, run_serve_single-quiet, accept_single-once,
}
use folder_transfer.Server.Accept.Ends.{AllReach, Seen, Finished, accept_rounds-job_done}
use folder_transfer.Server.Accept.Stuck.{Joining, left_waiting}
use folder_transfer.Tests.{toy_floats, toy_zstd, toy_clock, quiet, sender}
use folder_transfer.Tests.Serving.{toy_regexes, log_ignored}
use folder_transfer.Tests.Ending.{serve_config, share_disk}

-- A client that knows the beginning of a token.
abbrev stranger : Sender toy_floats
stranger = record sender { conn = quiet (codes "AUTH x" ++ 10 ∷ (codes "SYNC" ++ 10 ∷ [])) }

abbrev stranger_visit : Visit toy_floats
stranger_visit = record { peer = none; sender = stranger; disk = λ n. share_disk; looks = 0 }

stranger_line : (read_line stranger.conn).0 ≡ ok (some (codes "AUTH x"))
unfolding read_line
stranger_line = refl

stranger_other :
    (line : Text)
    → (read_line stranger.conn).0 ≡ ok (some line)
    → line ≢ codes "AUTH " ++ codes "x1"
stranger_other line h e = cc (h, stranger_line, e)

stranger_session :
    IsRefused stranger
      (handle_session serve_config log_ignored (codes "x1") (λ n. share_disk) 0 none stranger)
stranger_session =
    handle_session-IsRefused serve_config log_ignored (codes "x1") (λ n. share_disk) 0 none stranger
      (λ e. cc) stranger_other

quiet_example :
    (3 * 200 < idle_limit serve_config.idle_seconds
      → run_serve_single serve_config log_ignored
          (codes "t")
          (replicate 3 nobody ++ client stranger_visit ∷ [])
        ≡ accept_single serve_config log_ignored (codes "t") (3 * 200) (client stranger_visit ∷ []))
    × (0 < 3
        → idle_limit serve_config.idle_seconds ≤ 3 * 200
        → run_serve_single serve_config log_ignored
            (codes "t")
            (replicate 3 nobody ++ client stranger_visit ∷ [])
          ≡ (idle_timeout, []))
quiet_example =
    run_serve_single-quiet serve_config log_ignored (codes "t") 3 (client stranger_visit ∷ [])

once_example :
    count_clean
      (accept_single serve_config log_ignored (codes "t") 0 (client stranger_visit ∷ nobody ∷ [])).1
    ≡ jobs
        (accept_single serve_config log_ignored
          (codes "t")
          0
          (client stranger_visit ∷ nobody ∷ [])).0
once_example =
    accept_single-once serve_config log_ignored (codes "t") 0 (client stranger_visit ∷ nobody ∷ [])
      refl

abbrev one_dir : List WorkUnit
one_dir = dir_unit (codes "data") ∷ []

-- The handler has taken the one unit and has left.
abbrev job_over : Workers
job_over = record { to_come = []; queue = []; done = true; taken = one_dir; handlers = left ∷ [] }

job_over_run : Reach one_dir job_over
unfolding folder_transfer.Server.Queue.is_full folder_transfer.Server.Queue.try_pop
job_over_run =
    step
      (step
        (step
          (step (step (step begin connect) (enqueue (dir_unit (codes "data")) refl refl))
            (pop [] [] (dir_unit (codes "data")) refl refl))
          (see_nothing [] [] refl refl))
        (finish refl))
      (leave [] [] refl refl)

abbrev last_look : List (Knock × Workers)
last_look = (connection, job_over) ∷ []

job_done_example : Seen (Finished one_dir) last_look
unfolding AllReach accept_rounds folder_transfer.Server.Accept.accept_round
    folder_transfer.Server.Accept.check_end folder_transfer.Server.Accept.all_finished is_served
job_done_example =
    accept_rounds-job_done 600 one_dir last_look start_accepting (job_over_run, tt) refl

abbrev many : List WorkUnit
many = replicate 256 (dir_unit (codes "d"))

left_waiting_example :
    (s : Workers) × (front : List (Knock × Workers)) × Reach (many ++ dir_unit (codes "d") ∷ []) s
    × AllReach (many ++ dir_unit (codes "d") ∷ []) (front ++ (nobody, s) ∷ [])
    × ((accept_rounds 600 (front ++ (nobody, s) ∷ []) start_accepting).0 ≡ all_gone)
    × ((t : Workers) → Joining s t → t.done ≡ false)
left_waiting_example = left_waiting 600 many (dir_unit (codes "d")) [] (omega arith)
