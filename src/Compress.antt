-- ===== src/Compress.antt =====
-- rust/src/compress.rs: the adaptive controller of the compression level.
pub mod Bounds
use folder_transfer.Prelude.{
  ℕ, suc, ◌+◌, ◌-◌, ◌*◌, ◌^◌, max, ℤ, pos, negsuc, ◌+ℤ◌, ◌-ℤ◌, ltb_ℤ, Bool, true, false, not, ◌&&◌,
  Option, none, some, ltb, leb, ◌==◌, if◌then◌else◌,
}
use folder_transfer.Platform.{Floats, Clock}

abbrev pub block_size : ℕ
block_size = 2 ^ 20

abbrev pub level_start : ℤ
level_start = pos 3

abbrev pub level_min : ℤ
level_min = negsuc 4

abbrev pub level_max : ℤ
level_max = pos 19

abbrev pub raw_reprobe : ℕ
raw_reprobe = 64

abbrev pub min_compress : ℕ
min_compress = 256

abbrev pub incompressible_streak : ℕ
incompressible_streak = 4

abbrev pub window_bytes : ℕ
window_bytes = 4 * 2 ^ 20

unfoldable pub nonzero_level : ℤ → ℤ
nonzero_level (pos n) = if n == 0 then negsuc 0 else pos n
nonzero_level (negsuc n) = negsuc n

abbrev pub min_ℤ : ℤ → ℤ → ℤ
min_ℤ a b = if ltb_ℤ b a then b else a

abbrev pub max_ℤ : ℤ → ℤ → ℤ
max_ℤ a b = if ltb_ℤ a b then b else a

module _ (fl : Floats) where
  -- The counters are of type `i32` and `i64`; none of them is ever negative.
  pub record AdaptiveState : Type 0 where
    pub level : ℤ
    pub prefer_raw : Bool
    pub raw_since : ℕ
    pub incompressible_run : ℕ
    pub margin : fl.F
    pub raise : fl.F
    pub streams : ℕ
    pub win_tc : fl.F
    pub win_orig : ℕ
    pub win_wire : ℕ
    pub win_start : Option fl.F

module _ ⦃fl : Floats⦄ where
  abbrev pub State : Type 0
  State = AdaptiveState fl

  abbrev pub speed_margin : fl.F
  speed_margin = fl.lit 16 10

  abbrev clamp : fl.F → fl.F → fl.F → fl.F
  clamp lo hi x = if fl.lt x lo then lo else if fl.lt hi x then hi else x

  unfoldable pub new : fl.F → ℕ → State
  new margin streams =
      let m =
        if fl.is_finite margin then clamp (fl.lit 1 1) (fl.lit 16 1) margin else speed_margin in
      record {
        level = level_start;
        prefer_raw = false;
        raw_since = 0;
        incompressible_run = 0;
        margin = m;
        raise = fl.add m (fl.lit 4 10);
        streams = max streams 1;
        win_tc = fl.lit 0 1;
        win_orig = 0;
        win_wire = 0;
        win_start = none;
      }

  -- `self.level()`
  unfoldable pub current_level : State → ℤ
  unfolding nonzero_level
  current_level s = nonzero_level s.level

  unfoldable pub reset_window : State → State
  reset_window s = record s { win_tc = fl.lit 0 1; win_orig = 0; win_wire = 0; win_start = none }

  unfoldable pub want_raw : State → Bool × State
  unfolding reset_window
  want_raw s =
      if s.prefer_raw
      then (
        true,
        (if leb raw_reprobe (s.raw_since + 1)
            then reset_window (record s { prefer_raw = false; raw_since = 0 })
            else record s { raw_since = s.raw_since + 1 }),
      )
      else (false, s)

  -- The steps of `apply_spare`, up and down.
  unfoldable pub step_up : fl.F → ℤ
  step_up spare =
      if fl.ge spare (fl.lit 12 1) then pos 4 else if fl.ge spare (fl.lit 6 1) then pos 3 else pos 2

  unfoldable pub step_down : fl.F → ℤ
  step_down spare =
      if fl.lt spare (fl.lit 1 2) then pos 3 else if fl.lt spare (fl.lit 1 1) then pos 2 else pos 1

  unfoldable pub pick_level : fl.F → State → ℤ
  pick_level spare s =
      if fl.ge spare s.raise && ltb_ℤ s.level level_max
      then nonzero_level (min_ℤ (s.level +ℤ step_up spare) level_max)
      else if fl.lt spare s.margin && ltb_ℤ level_min s.level
      then nonzero_level (max_ℤ (s.level -ℤ step_down spare) level_min)
      else s.level

  unfoldable pub apply_spare : fl.F → State → Bool × State
  apply_spare spare s =
      let level = pick_level spare s in
      if not (ltb_ℤ level_min level) && fl.lt spare (fl.lit 1 1)
      then (true, record s { level = level; prefer_raw = true; raw_since = 0 })
      else (false, record s { level = level })

  unfoldable pub note_incompressible : State → State
  unfolding reset_window
  note_incompressible s =
      if leb incompressible_streak (s.incompressible_run + 1)
      then reset_window (record s { prefer_raw = true; raw_since = 0; incompressible_run = 0 })
      else record s { incompressible_run = s.incompressible_run + 1 }

  -- The accumulators after a block: `now` is read only if the block opens a window.
  accumulate : fl.F → fl.F → ℕ → ℕ → State → State
  accumulate now tc orig wire s = record s {
    incompressible_run = 0;
    win_start = if s.win_wire == 0 then some now else s.win_start;
    win_tc = fl.add s.win_tc tc;
    win_orig = s.win_orig + orig;
    win_wire = s.win_wire + wire;
  }

  elapsed_of : fl.F → fl.F → Option fl.F → fl.F
  elapsed_of later tc none = fl.fmax tc (fl.lit 1 (10 ^ 9))
  elapsed_of later tc (some start) = fl.fmax (fl.sub later start) (fl.lit 1 (10 ^ 9))

  spare_of : fl.F → State → fl.F
  spare_of elapsed s =
      if fl.lt (fl.lit 1 (10 ^ 9)) s.win_tc
      then fl.div (fl.mul (fl.lit s.streams 1) elapsed) s.win_tc
      else fl.infinity

  -- `now` is the reading at `Instant::now()`, `later` the one at `elapsed()`.
  unfoldable pub note_compressed : fl.F → fl.F → fl.F → ℕ → ℕ → State → State
  unfolding accumulate elapsed_of spare_of reset_window
  note_compressed now later tc orig wire s =
      let t = accumulate now tc orig wire s in
      if ltb t.win_wire window_bytes
      then t
      else reset_window (apply_spare (spare_of (elapsed_of later tc t.win_start) t) t).1
