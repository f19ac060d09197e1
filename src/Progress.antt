-- ===== src/Progress.antt =====
-- rust/src/progress.rs: the counters of a transfer, shared by its streams.
pub mod Printing
use folder_transfer.Prelude.{ℕ, ◌+◌, ◌/◌, ◌%◌, ◌≡◌, refl, ◌∷◌, ◌++◌, ltb, if◌then◌else◌}
use folder_transfer.Text.{Text, codes}
use folder_transfer.Text.Number.{print_nat}

pub record Progress : Type 0 where
  pub bytes : ℕ
  pub files : ℕ

abbrev pub no_progress : Progress
no_progress = record { bytes = 0; files = 0 }

unfoldable pub add : ℕ → ℕ → Progress → Progress
add bytes files p = record {
  bytes = if ltb 0 bytes then p.bytes + bytes else p.bytes;
  files = if ltb 0 files then p.files + files else p.files;
}

-- `{:02}`
two_digits : ℕ → Text
two_digits n = if ltb n 10 then b'0' ∷ print_nat n else print_nat n

-- `secs` in whole seconds.
unfoldable pub fmt_elapsed : ℕ → Text
unfolding two_digits print_nat
fmt_elapsed s =
    let h = s / 3600 in
    let m = s % 3600 / 60 in
    let sec = s % 60 in
    if ltb 0 h
    then print_nat h ++ b':' ∷ (two_digits m ++ b':' ∷ two_digits sec)
    else two_digits m ++ b':' ∷ two_digits sec

three_hours : fmt_elapsed 10985 ≡ codes "3:03:05"
unfolding fmt_elapsed
three_hours = refl
