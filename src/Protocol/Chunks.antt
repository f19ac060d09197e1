-- ===== src/Protocol/Chunks.antt =====
-- Copying a payload in chunks against reading it whole: rust/src/wire.rs, `copy_exact_to_writer`.
use folder_transfer.Prelude.{
  ℕ, zero, suc, ◌-◌, ◌≤◌, ◌<◌, min, ◌≡◌, refl, sym, ap, ◌∙◌, List, [], ◌++◌, arith, length, take,
  drop, length-take, length-drop, take-append-drop, ltb, lt→ltb, Bool-cases, ◌⊎◌, inl, inr,
}
use folder_transfer.Io.{Io, ok, err, ◌>>=◌, ◌>>◌}
use folder_transfer.Wire.{
  on_conn, end_error, Transfer, read_exact, write_all, copy_chunks, copy_buffer,
  copy_exact_to_writer,
}
use folder_transfer.Protocol.Reading.{
  AcceptsAll, copy_chunks-append, copy_chunks-step, move_one, moved,
}
use folder_transfer.Wire.Lines.{read_exact-append}

-- One read of everything and one write.
unfoldable pub copy_whole : ℕ → Transfer → Io (Unit {0}) × Transfer
copy_whole n = do buf ← on_conn (read_exact n); write_all buf

lt_or_le : (m n : ℕ) → (m < n) ⊎ (n ≤ m)
lt_or_le m n = elim (Bool-cases (ltb m n)) [
  | inl e ↦ inl (ground arith)
  | inr e ↦ inr (ground arith)
]

-- A round that the connection has no bytes for, and one that it has.
round-short :
    {A : Type 0} (w : ℕ) (k : Transfer → Io A × Transfer) (t : Transfer)
    → length t.conn.input < w
    → (do buf ← on_conn (read_exact w); write_all buf; k) t
      ≡ (err (end_error t.conn.ends), record t { conn = record t.conn { input = [] } })
unfolding read_exact
round-short w k t h = rw (lt→ltb (length t.conn.input) w h) refl

round-full :
    {A : Type 0} (w : ℕ) (k : Transfer → Io A × Transfer) (t : Transfer)
    → AcceptsAll t.out
    → w ≤ length t.conn.input
    → (do buf ← on_conn (read_exact w); write_all buf; k) t
      ≡ k (moved (take w t.conn.input) (drop w t.conn.input) t)
round-full w k t a h =
    let x = take w t.conn.input in
    let size : w ≡ length x = omega (arith, length-take w t.conn.input) in
    ap (λ n. (do buf ← on_conn (read_exact n); write_all buf; k) t) size
    ∙ move_one x (drop w t.conn.input) k t a (sym (take-append-drop w t.conn.input))

-- The connection ends within the payload.
abbrev IsEnded : Transfer → Io (Unit {0}) × Transfer → Type 0
IsEnded t r = (r.0 ≡ err (end_error t.conn.ends)) × (r.1.conn ≡ record t.conn { input = [] })

copy_chunks-short :
    (chunk f n : ℕ) (t : Transfer)
    → 0 < chunk
    → n ≤ f
    → AcceptsAll t.out
    → length t.conn.input < n
    → IsEnded t (copy_chunks chunk f n t)
copy_chunks-short chunk zero n t c h a short = absurd (omega arith)
copy_chunks-short chunk (suc f) n t c h a short =
    let w = min n chunk in
    rw (copy_chunks-step chunk f n t (omega arith)) (elim (lt_or_le (length t.conn.input) w) [
      | inl few ↦ rw (round-short w (copy_chunks chunk f (n - w)) t few) (refl, refl)
      | inr more ↦ rw (round-full w (copy_chunks chunk f (n - w)) t a more) (
          copy_chunks-short chunk f (n - w) (moved (take w t.conn.input) (drop w t.conn.input) t) c
            (omega arith) a (omega (arith, length-drop w t.conn.input)))
    ])

copy_whole-append :
    (x rest : List ℕ) (t : Transfer)
    → AcceptsAll t.out
    → t.conn.input ≡ x ++ rest
    → copy_whole (length x) t ≡ (ok tt, moved x rest t)
unfolding copy_whole write_all
copy_whole-append x rest t a e =
    rw (read_exact-append x rest t.conn e) (rw (a (t.out.written ++ x)) refl)

copy_whole-short : (n : ℕ) (t : Transfer) → length t.conn.input < n → IsEnded t (copy_whole n t)
unfolding copy_whole read_exact
copy_whole-short n t h = rw (lt→ltb (length t.conn.input) n h) (refl, refl)

same_end :
    (t : Transfer) (r w : Io (Unit {0}) × Transfer)
    → IsEnded t r
    → IsEnded t w
    → (r.0 ≡ w.0) × (r.1.conn ≡ w.1.conn)
same_end t r w (a, b) (c, d) = (a ∙ sym c, b ∙ sym d)

whole-enough :
    (n : ℕ) (t : Transfer)
    → AcceptsAll t.out
    → n ≤ length t.conn.input
    → copy_exact_to_writer n t ≡ copy_whole n t
whole-enough n t a h =
    let x = take n t.conn.input in
    let size : length x ≡ n = omega (arith, length-take n t.conn.input) in
    let whole : t.conn.input ≡ x ++ drop n t.conn.input = sym (take-append-drop n t.conn.input) in
    let rest = drop n t.conn.input in
    unfold copy_exact_to_writer in
    (ap (λ k. copy_chunks copy_buffer n k t) (sym size)
      ∙ copy_chunks-append copy_buffer n x rest t (omega arith) (omega arith) a whole
      ∙ sym (copy_whole-append x rest t a whole)
      ∙ ap (λ k. copy_whole k t) size)

-- On a destination that accepts everything, copying n bytes in chunks of 64 KiB is one read of all of them and one
-- write, whatever the connection holds; if it holds less than n bytes, then both fail with the same error and leave
-- the connection the same.
pub copy_exact_to_writer-copy_whole :
    (n : ℕ) (t : Transfer)
    → AcceptsAll t.out
    → (copy_exact_to_writer n t ≡ copy_whole n t)
      ⊎ ((length t.conn.input < n)
          × ((copy_exact_to_writer n t).0 ≡ (copy_whole n t).0)
          × ((copy_exact_to_writer n t).1.conn ≡ (copy_whole n t).1.conn))
copy_exact_to_writer-copy_whole n t a = elim (lt_or_le (length t.conn.input) n) [
  | inr full ↦ inl (whole-enough n t a full)
  | inl few ↦
      let both =
        same_end t (copy_exact_to_writer n t) (copy_whole n t)
          (unfold copy_exact_to_writer in
            copy_chunks-short copy_buffer n n t (omega arith) (omega arith) a few)
          (copy_whole-short n t few) in
      inr (few, both.0, both.1)
]
