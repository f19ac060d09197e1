-- ===== src/Mtime/RoundTrip.antt =====
-- Ticks survive the way through a `SystemTime`.
use folder_transfer.Prelude.{ℕ, ◌+◌, ◌-◌, ◌*◌, ◌/◌, ◌%◌, ◌≤◌, ◌<◌, ◌≡◌, refl, pos, negsuc, arith}
use folder_transfer.Mtime.{
  ticks_per_sec, nanos_per_tick, nanos_per_sec, epoch_diff_secs, ticks_to_systemtime,
  systemtime_to_ticks,
}

-- From 1970 on, and before.
late :
    (n : ℕ)
    → epoch_diff_secs ≤ n / ticks_per_sec
    → ticks_to_systemtime (pos n)
      ≡ pos (
          (n / ticks_per_sec - epoch_diff_secs) * nanos_per_sec
          + n % ticks_per_sec * nanos_per_tick)
unfolding ticks_to_systemtime
late n h = ground arith

early :
    (n : ℕ)
    → n / ticks_per_sec < epoch_diff_secs
    → ticks_to_systemtime (pos n)
      ≡ negsuc (
          (epoch_diff_secs - n / ticks_per_sec) * nanos_per_sec
          - n % ticks_per_sec * nanos_per_tick
          - 1)
unfolding ticks_to_systemtime
early n h = ground arith

-- Ticks from 1970 on come back as they were: none is lost or gained.
pub systemtime_to_ticks-ticks_to_systemtime :
    (n : ℕ)
    → epoch_diff_secs * ticks_per_sec ≤ n
    → systemtime_to_ticks (ticks_to_systemtime (pos n)) ≡ pos n
systemtime_to_ticks-ticks_to_systemtime n h =
    rw (late n (omega arith)) (unfold systemtime_to_ticks in ground arith)

-- Ticks of an earlier time, which lies `d` ticks before 1970, come back as minus the sum of `d` and the
-- epoch: the epoch is taken off where it should be added.
pub ticks_before_1970 :
    (n : ℕ)
    → n < epoch_diff_secs * ticks_per_sec
    → (d : ℕ) × (d + n ≡ epoch_diff_secs * ticks_per_sec)
      × (systemtime_to_ticks (ticks_to_systemtime (pos n))
          ≡ negsuc (d + epoch_diff_secs * ticks_per_sec - 1))
ticks_before_1970 n h = (
  epoch_diff_secs * ticks_per_sec - n,
  omega arith,
  rw (early n (omega arith)) (unfold systemtime_to_ticks in ground arith),
)

known_value : ticks_to_systemtime (pos 637450560000000000) ≡ pos 1609459200000000000
unfolding ticks_to_systemtime
known_value = refl
