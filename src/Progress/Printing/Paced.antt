-- ===== src/Progress/Printing/Paced.antt =====
-- The lines of a transfer: how often they come, and what their speeds add up to.
use folder_transfer.Prelude.{
  ℕ, ◌+◌, ◌-◌, ◌≤◌, ◌≡◌, refl, Bool, true, false, List, [], ◌∷◌, ltb, arith, Bool-cases, inl, inr,
}
use folder_transfer.Progress.{Progress, add, no_progress}
use folder_transfer.Progress.Printing.{
  interval, Last, new_last, Line, maybe_print, Call, with_line, lines,
}

-- Each line comes 1.5 seconds after the one before, or the start, at the earliest, and its fresh bytes are those that
-- were added since.
unfoldable pub IsPaced : ℕ → ℕ → List Line → Type 0
IsPaced time bytes [] = Unit
IsPaced time bytes (l ∷ ls) =
    (time + interval ≤ l.now)
    × (l.bytes ≡ bytes + l.fresh)
    × (l.dt ≡ l.now - time)
    × IsPaced l.now l.bytes ls

add-grows : (b f : ℕ) (p : Progress) → p.bytes ≤ (add b f p).bytes
unfolding add
add-grows b f p = ground arith

with_line-IsPaced :
    (start now : ℕ) (free : Bool) (p : Progress) (g : Last) (rest : Last → List Line)
    → g.bytes ≤ p.bytes
    → ((h : Last) → h.bytes ≤ p.bytes → IsPaced h.time h.bytes (rest h))
    → IsPaced g.time g.bytes (with_line (maybe_print start now free p g) rest)
unfolding maybe_print
with_line-IsPaced start now false p g rest b k = k g b
with_line-IsPaced start now true p g rest b k = elim (Bool-cases (ltb (now - g.time) interval)) [
  | inl early ↦ rw early (k g b)
  | inr due ↦ rw due (
      unfold IsPaced in
      (ground arith, omega arith, refl, k (record { time = now; bytes = p.bytes }) (omega arith)))
]

lines_from-IsPaced :
    (start : ℕ) (calls : List Call) (p : Progress) (g : Last)
    → g.bytes ≤ p.bytes
    → IsPaced g.time g.bytes (lines start calls p g)
unfolding lines
lines_from-IsPaced start [] p g b = unfold IsPaced in tt
lines_from-IsPaced start (c ∷ calls) p g b =
    let q = add c.bytes c.files p in
    with_line-IsPaced start c.now c.free q g (lines start calls q)
      (omega (arith, add-grows c.bytes c.files p)) (λ h. lines_from-IsPaced start calls q h)

-- Whatever the streams add and whenever, and whoever holds the lock: no line comes less than 1.5 seconds after the
-- start or the line before it, and its speed is of the bytes and of the time between the two: the bytes of a line are
-- those of the line before it and the fresh ones.
pub lines-IsPaced :
    (start : ℕ) (calls : List Call)
    → IsPaced start 0 (lines start calls no_progress (new_last start))
lines-IsPaced start calls =
    lines_from-IsPaced start calls no_progress (new_last start) (omega arith)
