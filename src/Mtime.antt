-- ===== src/Mtime.antt =====
-- rust/src/mtime.rs: .NET ticks and `SystemTime`. A `SystemTime` is its nanoseconds since 1970.
pub mod RoundTrip
use folder_transfer.Prelude.{
  ℕ, suc, ◌+◌, ◌-◌, ◌*◌, ◌/◌, ◌%◌, ◌^◌, ℤ, pos, negsuc, ◌+ℤ◌, ◌-ℤ◌, Bool, ◌==◌, if◌then◌else◌,
}

abbrev pub SystemTime : Type 0
SystemTime = ℤ

abbrev pub ticks_per_sec : ℕ
ticks_per_sec = 10_000_000

abbrev pub nanos_per_tick : ℕ
nanos_per_tick = 100

abbrev pub epoch_diff_secs : ℕ
epoch_diff_secs = 62_135_596_800

abbrev pub nanos_per_sec : ℕ
nanos_per_sec = 1_000_000_000

abbrev neg : ℕ → ℤ
neg n = if n == 0 then pos 0 else negsuc (n - 1)

-- `/` on `i64` rounds towards zero.
quotient : ℤ → ℕ → ℤ
quotient (pos n) d = pos (n / d)
quotient (negsuc n) d = neg (suc n / d)

-- `(ticks % TICKS_PER_SEC * NANOS_PER_TICK) as u32`: the remainder has the sign of `ticks`, and the
-- cast wraps.
sub_nanos : ℤ → ℕ
sub_nanos (pos n) = n % ticks_per_sec * nanos_per_tick
sub_nanos (negsuc n) = (2 ^ 32 - suc n % ticks_per_sec * nanos_per_tick) % 2 ^ 32

times_sec : ℤ → ℤ
times_sec (pos n) = pos (n * nanos_per_sec)
times_sec (negsuc n) = neg (suc n * nanos_per_sec)

-- Both branches add the nanoseconds to the whole seconds, before the epoch or behind it.
unfoldable pub ticks_to_systemtime : ℤ → SystemTime
unfolding quotient sub_nanos times_sec ◌+ℤ◌ ◌-ℤ◌
ticks_to_systemtime ticks =
    let unix_secs = quotient ticks ticks_per_sec -ℤ pos epoch_diff_secs in
    times_sec unix_secs +ℤ pos (sub_nanos ticks)

unfoldable pub systemtime_to_ticks : SystemTime → ℤ
unfolding ◌-ℤ◌
systemtime_to_ticks (pos t) =
    pos ((t / nanos_per_sec + epoch_diff_secs) * ticks_per_sec + t % nanos_per_sec / nanos_per_tick)
systemtime_to_ticks (negsuc t) =
    neg (suc t / nanos_per_tick) -ℤ pos (epoch_diff_secs * ticks_per_sec)
