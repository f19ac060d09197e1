-- ===== src/Compress/Bounds.antt =====
-- The level stays in its range and is never 0, and the counters below their limits, whatever the
-- link does.
use folder_transfer.Prelude.{
  Bool-cases, inl, inr, zero, suc, ◌+◌, ◌+ℤ◌, ◌-ℤ◌, List, [], ◌∷◌, replicate, not, ◌==◌, ℕ, ◌≤◌,
  ◌<◌, ℤ, pos, ◌≡◌, ◌≢◌, ◌≤ℤ◌, true, arith, ltb_ℤ, Bool, false,
}
use folder_transfer.Platform.{Floats}
use folder_transfer.Compress.{
  step_up, step_down, nonzero_level, min_ℤ, max_ℤ, State, level_min, level_max, raw_reprobe,
  incompressible_streak, window_bytes, new, want_raw, pick_level, apply_spare, note_incompressible,
  note_compressed, spare_of, elapsed_of, accumulate,
}

abbrev pub IsLevel : ℤ → Type 0
IsLevel l = (level_min ≤ℤ l) × (l ≤ℤ level_max) × (l ≢ pos 0)

climb :
    (l : ℤ) (k : ℕ)
    → IsLevel l
    → ltb_ℤ l level_max ≡ true
    → 2 ≤ k
    → k ≤ 4
    → (l +ℤ pos 1 ≤ℤ nonzero_level (min_ℤ (l +ℤ pos k) level_max))
      × (nonzero_level (min_ℤ (l +ℤ pos k) level_max) ≤ℤ l +ℤ pos 4)
unfolding nonzero_level ◌+ℤ◌
climb l k v room h h' = ground arith

fall :
    (l : ℤ) (k : ℕ)
    → IsLevel l
    → ltb_ℤ level_min l ≡ true
    → 1 ≤ k
    → k ≤ 3
    → (nonzero_level (max_ℤ (l -ℤ pos k) level_min) +ℤ pos 1 ≤ℤ l)
      × (l ≤ℤ nonzero_level (max_ℤ (l -ℤ pos k) level_min) +ℤ pos 4)
unfolding nonzero_level ◌+ℤ◌ ◌-ℤ◌
fall l k v room h h' = ground arith

module _ ⦃fl : Floats⦄ where
  pub record IsValid (s : State) : Type 0 where
    pub level : IsLevel s.level
    pub raw_since : s.raw_since < raw_reprobe
    pub run : s.incompressible_run < incompressible_streak
    pub window : s.win_wire < window_bytes

  pub new-IsValid : (margin : fl.F) (streams : ℕ) → IsValid (new margin streams)
  unfolding new
  new-IsValid margin streams = ground arith

  pub want_raw-IsValid : {s : State} → IsValid s → IsValid (want_raw s).1
  unfolding want_raw
  want_raw-IsValid v = ground arith

  pub note_incompressible-IsValid : {s : State} → IsValid s → IsValid (note_incompressible s)
  unfolding note_incompressible
  note_incompressible-IsValid v = ground arith

  pick_level-IsLevel : (spare : fl.F) (s : State) → IsLevel s.level → IsLevel (pick_level spare s)
  unfolding pick_level step_up step_down nonzero_level ◌+ℤ◌ ◌-ℤ◌
  pick_level-IsLevel spare s v = ground arith

  apply_spare_keeps :
      (spare : fl.F) (s : State)
      → IsLevel s.level
      → IsLevel (apply_spare spare s).1.level
        × ((apply_spare spare s).1.incompressible_run ≡ s.incompressible_run)
        × ((apply_spare spare s).1.raw_since ≤ s.raw_since)
  unfolding apply_spare
  apply_spare_keeps spare s v = ground (arith, pick_level-IsLevel spare s v)

  pub note_compressed-IsValid :
      (now later tc : fl.F) (orig wire : ℕ) {s : State}
      → IsValid s
      → IsValid (note_compressed now later tc orig wire s)
  unfolding note_compressed
  note_compressed-IsValid now later tc orig wire {s} v =
      let t = accumulate now tc orig wire s in
      ground (arith, apply_spare_keeps (spare_of (elapsed_of later tc t.win_start) t) t v.level)

  level-apply_spare :
      (spare : fl.F) (s : State) → (apply_spare spare s).1.level ≡ pick_level spare s
  unfolding apply_spare
  level-apply_spare spare s = ground arith

  step_up_bounds : (spare : fl.F) → (k : ℕ) × (step_up spare ≡ pos k) × (2 ≤ k) × (k ≤ 4)
  unfolding step_up
  step_up_bounds spare = elim (Bool-cases (fl.ge spare (fl.lit 12 1))) [
    | inl a ↦ (4, rw a, omega arith, omega arith)
    | inr a ↦ elim (Bool-cases (fl.ge spare (fl.lit 6 1))) [
      | inl b ↦ (3, rw (a, b), omega arith, omega arith)
      | inr b ↦ (2, rw (a, b), omega arith, omega arith)
    ]
  ]

  step_down_bounds : (spare : fl.F) → (k : ℕ) × (step_down spare ≡ pos k) × (1 ≤ k) × (k ≤ 3)
  unfolding step_down
  step_down_bounds spare = elim (Bool-cases (fl.lt spare (fl.lit 1 2))) [
    | inl a ↦ (3, rw a, omega arith, omega arith)
    | inr a ↦ elim (Bool-cases (fl.lt spare (fl.lit 1 1))) [
      | inl b ↦ (2, rw (a, b), omega arith, omega arith)
      | inr b ↦ (1, rw (a, b), omega arith, omega arith)
    ]
  ]

  module _ (spare : fl.F) (s : State) where
    pick_level-up :
        fl.ge spare s.raise ≡ true
        → ltb_ℤ s.level level_max ≡ true
        → pick_level spare s ≡ nonzero_level (min_ℤ (s.level +ℤ step_up spare) level_max)
    unfolding pick_level
    pick_level-up up room = ground arith

    pick_level-down :
        fl.ge spare s.raise ≡ false
        → fl.lt spare s.margin ≡ true
        → ltb_ℤ level_min s.level ≡ true
        → pick_level spare s ≡ nonzero_level (max_ℤ (s.level -ℤ step_down spare) level_min)
    unfolding pick_level
    pick_level-down held down room = ground arith

    pick_level-kept :
        fl.ge spare s.raise ≡ false → fl.lt spare s.margin ≡ false → pick_level spare s ≡ s.level
    unfolding pick_level
    pick_level-kept held kept = ground arith

  -- The level climbs if there is room and the link leaves enough time, falls if there is room and it
  -- does not, and stays otherwise; a move is at least 1 and at most 4.
  pub apply_spare_moves :
      (spare : fl.F) (s : State)
      → IsLevel s.level
      → let l = (apply_spare spare s).1.level in
        (fl.ge spare s.raise ≡ true
          → ltb_ℤ s.level level_max ≡ true
          → (s.level +ℤ pos 1 ≤ℤ l) × (l ≤ℤ s.level +ℤ pos 4))
        × (fl.ge spare s.raise ≡ false
            → fl.lt spare s.margin ≡ true
            → ltb_ℤ level_min s.level ≡ true
            → (l +ℤ pos 1 ≤ℤ s.level) × (s.level ≤ℤ l +ℤ pos 4))
        × (fl.ge spare s.raise ≡ false → fl.lt spare s.margin ≡ false → l ≡ s.level)
  apply_spare_moves spare s v = (
    λ up room.
        let (k, e, lo, hi) = step_up_bounds spare in
        rw (level-apply_spare, pick_level-up spare s up room, e) (climb s.level k v room lo hi),
    λ held down room.
        let (k, e, lo, hi) = step_down_bounds spare in
        rw (level-apply_spare, pick_level-down spare s held down room, e)
          (fall s.level k v room lo hi),
    λ held kept. rw (level-apply_spare, pick_level-kept spare s held kept),
  )

  -- `want_raw` called `n` times: the answers, and the last state.
  pub chunks : ℕ → State → List Bool × State
  chunks zero s = ([], s)
  chunks (suc n) s = let (raw, t) = want_raw s in let (more, u) = chunks n t in (raw ∷ more, u)

  -- In raw mode the chunks are sent raw until the counter reaches `raw_reprobe`, and then the mode
  -- ends: one call short of that it has not ended, and with that call it has.
  pub chunks_reprobe :
      (n : ℕ) (s : State)
      → s.prefer_raw ≡ true
      → s.raw_since < raw_reprobe
      → s.raw_since + n ≤ raw_reprobe
      → ((chunks n s).0 ≡ replicate n true)
        × ((chunks n s).1.prefer_raw ≡ not (s.raw_since + n == raw_reprobe))
  unfolding chunks want_raw
  chunks_reprobe zero s e k h = ground arith
  chunks_reprobe (suc zero) s e k h = ground arith
  chunks_reprobe (suc (suc n)) s e k h =
      ground (arith, chunks_reprobe (suc n) (record s { raw_since = s.raw_since + 1 }) e)

  -- The calls that the senders make on the shared controller, in any order.
  pub data Call : State → State → Type 0 where
    ask : {s : State} → Call s (want_raw s).1
    incompressible : {s : State} → Call s (note_incompressible s)
    compressed :
        {s : State} (now later tc : fl.F) (orig wire : ℕ)
        → Call s (note_compressed now later tc orig wire s)

  pub data Reach (margin : fl.F) (streams : ℕ) : State → Type 0 where
    begin : Reach margin streams (new margin streams)
    call : {s t : State} → Reach margin streams s → Call s t → Reach margin streams t

  Call-IsValid : {s t : State} → Call s t → IsValid s → IsValid t
  Call-IsValid ask v = want_raw-IsValid v
  Call-IsValid incompressible v = note_incompressible-IsValid v
  Call-IsValid (compressed now later tc orig wire) v =
      note_compressed-IsValid now later tc orig wire v

  -- Whatever margin the user gives, whatever the clock shows and in whatever order the streams call: the level
  -- is between -5 and 19 and never 0, the counter of raw chunks stays below 64, that of blocks that did not
  -- shrink below 4, and the window below 4 MiB.
  pub controller-IsValid :
      {margin : fl.F} {streams : ℕ} {s : State} → Reach margin streams s → IsValid s
  controller-IsValid {margin} {streams} begin = new-IsValid margin streams
  controller-IsValid (call r c) = Call-IsValid c (controller-IsValid r)
