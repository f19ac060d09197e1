-- ===== src/Tests/Printing.antt =====
-- The progress line of a small transfer.
use folder_transfer.Prelude.{◌≡◌, refl, true, false, List, [], ◌∷◌}
use folder_transfer.Text.{codes}
use folder_transfer.Progress.{no_progress}
use folder_transfer.Progress.Printing.{Call, new_last, Line, lines}
use folder_transfer.Progress.Printing.Paced.{IsPaced, lines-IsPaced}

-- Two calls in time for a line, one of them while the lock is taken, and one right after the line.
abbrev calls : List Call
calls =
    record { bytes = 500; files = 0; now = 5000000000; free = true }
    ∷ record { bytes = 700; files = 1; now = 9000000000; free = false }
    ∷ record { bytes = 0; files = 1; now = 10000000000; free = true }
    ∷ record { bytes = 40; files = 0; now = 11000000000; free = true }
    ∷ []

abbrev printed : List Line
printed =
    record {
      now = 5000000000;
      files = 0;
      bytes = 500;
      elapsed = codes "00:01";
      fresh = 500;
      dt = 1500000000;
    }
    ∷ record {
      now = 10000000000;
      files = 2;
      bytes = 1200;
      elapsed = codes "00:06";
      fresh = 700;
      dt = 5000000000;
    }
    ∷ []

two_printed : lines 3500000000 calls no_progress (new_last 3500000000) ≡ printed
unfolding lines folder_transfer.Progress.Printing.maybe_print folder_transfer.Progress.add
    folder_transfer.Progress.fmt_elapsed
two_printed = refl

calls-IsPaced : IsPaced 3500000000 0 (lines 3500000000 calls no_progress (new_last 3500000000))
calls-IsPaced = lines-IsPaced 3500000000 calls
