-- ===== src/Progress/Printing.antt =====
-- rust/src/progress.rs: when `add` prints a line, and which numbers it prints. Instants are nanoseconds of one clock;
-- a line stands for the numbers that its text is made of.
pub mod Paced
use folder_transfer.Prelude.{
  ℕ, ◌+◌, ◌-◌, ◌/◌, ◌≤◌, ◌≡◌, Bool, true, false, List, [], ◌∷◌, Option, none, some, if◌then◌else◌,
  ltb, arith, Bool-cases, inl, inr,
}
use folder_transfer.Text.{Text}
use folder_transfer.Progress.{Progress, add, fmt_elapsed, no_progress}

-- `INTERVAL_SECS`
abbrev pub interval : ℕ
interval = 1500000000

-- `last`: when the last line was printed, and the bytes at that time.
pub record Last : Type 0 where
  pub time : ℕ
  pub bytes : ℕ

abbrev pub new_last : ℕ → Last
new_last start = record { time = start; bytes = 0 }

-- The speed is that of the `fresh` bytes in the time `dt`.
pub record Line : Type 0 where
  pub now : ℕ
  pub files : ℕ
  pub bytes : ℕ
  pub elapsed : Text
  pub fresh : ℕ
  pub dt : ℕ

-- `free` is false if another thread holds the lock. `duration_since` of a later instant is 0.
unfoldable pub maybe_print : ℕ → ℕ → Bool → Progress → Last → Option Line × Last
maybe_print start now false p g = (none, g)
maybe_print start now true p g =
    let dt = now - g.time in
    let line : Line = record {
      now = now;
      files = p.files;
      bytes = p.bytes;
      elapsed = fmt_elapsed ((now - start) / 1000000000);
      fresh = p.bytes - g.bytes;
      dt = dt;
    } in
    if ltb dt interval then (none, g) else (some line, record { time = now; bytes = p.bytes })

-- A call of `add`: its arguments, the instant, and whether the lock is free.
pub record Call : Type 0 where
  pub bytes : ℕ
  pub files : ℕ
  pub now : ℕ
  pub free : Bool

abbrev pub with_line : Option Line × Last → (Last → List Line) → List Line
with_line (none, g) rest = rest g
with_line (some l, g) rest = l ∷ rest g

-- The lines that the calls print, from all streams and in the order of their turns.
unfoldable pub lines : ℕ → List Call → Progress → Last → List Line
lines start [] p g = []
lines start (c ∷ calls) p g =
    let q = add c.bytes c.files p in
    with_line (maybe_print start c.now c.free q g) (lines start calls q)
