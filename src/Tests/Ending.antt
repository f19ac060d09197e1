-- ===== src/Tests/Ending.antt =====
-- The loops that read a connection, on small inputs.
use folder_transfer.Prelude.{◌≡◌, ◌++◌, ◌∷◌, [], arith, true, false, none}
use folder_transfer.Io.{disk, connection}
use folder_transfer.Text.{Text, codes}
use folder_transfer.Client.{Client}
use folder_transfer.Client.Receive.{recv_blocks}
use folder_transfer.Client.Receive.Rounds.{recv_blocks_enough}
use folder_transfer.Client.Run.{Served, passes, units_loop}
use folder_transfer.Client.Run.Rounds.{passes_enough, units_loop_enough}
use folder_transfer.Server.{Sender}
use folder_transfer.Server.Session.{ServeConfig, Disk, session_loop}
use folder_transfer.Server.Session.Rounds.{session_loop_enough}
use folder_transfer.Tests.{toy_floats, toy_zstd, toy_clock, quiet, sender, receiver}
use folder_transfer.Tests.Serving.{toy_regexes, log_ignored, share}
use folder_transfer.Tests.Receiving.{dest, client}

-- A pass without items, and the end.
abbrev nothing_new : Text
nothing_new = codes "T 0" ++ 10 ∷ (codes "PASS-END" ++ 10 ∷ (codes "DONE" ++ 10 ∷ []))

abbrev updated : Client
updated = record client { conn = quiet nothing_new }

passes_example :
    passes dest (codes "/d/") disk 23 updated ≡ passes dest (codes "/d/") connection 99 updated
passes_example =
    passes_enough dest (codes "/d/") disk connection 23 99 updated (omega arith) (omega arith)

abbrev serving : Served
serving = record {
  client = record client { conn = quiet (codes "PING" ++ 10 ∷ (codes "NOUNIT" ++ 10 ∷ [])) };
  units = 0;
  finished = false;
}

units_loop_example :
    units_loop dest (codes "/d/") true disk 13 serving
    ≡ units_loop dest (codes "/d/") true connection 99 serving
units_loop_example =
    units_loop_enough dest (codes "/d/") true disk connection 13 99 serving (omega arith)
      (omega arith)

abbrev blocks : Text
blocks = codes "R 2" ++ 10 ∷ 7 ∷ 8 ∷ (codes "E" ++ 10 ∷ [])

recv_blocks_example : recv_blocks 9 0 (receiver blocks) ≡ recv_blocks 99 0 (receiver blocks)
recv_blocks_example = recv_blocks_enough 9 99 0 (receiver blocks) (omega arith) (omega arith)

abbrev pub serve_config : ServeConfig toy_floats
serve_config = record {
  folders = codes "/srv/data" ∷ [];
  port = 8722;
  idle_seconds = 1;
  stall_timeout = 300;
  once = true;
  cutover = false;
  use_compress = true;
  compress_margin = 2;
  ignore_spec = codes "log/";
  allow_ip = none;
}

abbrev pub share_disk : Disk
share_disk = record { roots = share ∷ []; open_file = λ p. none }

abbrev leaving : Sender toy_floats
leaving = record sender { conn = quiet (codes "BYE" ++ 10 ∷ []) }

session_loop_example :
    session_loop serve_config log_ignored (codes "t") (λ n. share_disk) 0 disk 5 0 leaving
    ≡ session_loop serve_config log_ignored (codes "t") (λ n. share_disk) 0 connection 99 0 leaving
session_loop_example =
    session_loop_enough serve_config log_ignored (codes "t") (λ n. share_disk) 0 disk connection 5
      99 0 leaving (omega arith) (omega arith)
