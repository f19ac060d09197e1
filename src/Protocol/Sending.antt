-- ===== src/Protocol/Sending.antt =====
-- What the server writes for a large file is a body of the file, from the offset on.
use folder_transfer.Prelude.{
  ℕ, zero, suc, ◌+◌, ◌-◌, ◌^◌, ◌≤◌, ◌<◌, min, ◌≡◌, ◌≢◌, refl, sym, ap, subst, length-append, ◌∙◌,
  Bool, true, false, not, ◌&&◌, List, [], ◌∷◌, ◌++◌, arith, ltb, ltb→lt, lt→ltb, ltb_not, not_zero,
  pos_of_ne_zero, zero_of_eq, leb, ◌==◌, if◌then◌else◌, length, take, drop, length-take,
  length-drop, take-append-drop, append_assoc, Bool-cases, inl, inr,
}
use folder_transfer.Text.{Text, codes}
use folder_transfer.Io.{ok, ◌>>◌, done, modify}
use folder_transfer.Wire.{put_line, put_bytes, flush, send_line}
use folder_transfer.Paths.{is_incompressible}
use folder_transfer.Platform.{Floats, Zstd, Clock}
use folder_transfer.Compress.{block_size, min_compress}
use folder_transfer.Server.{Sender, File, read_block, seek, on_conn, queue, send_chunk_adaptive}
use folder_transfer.Server.Reading.{IsReadable, past, read_block-readable}
use folder_transfer.Server.Body.{
  count_bytes, count_wire_bytes, count_sent, raw_rounds, zip_rounds, raw_body, zip_body,
  send_large_file, remain_of,
}
use folder_transfer.Protocol
use folder_transfer.Protocol.{Fits, raw_line, Block, Blocks, end, next, Body, whole, blocks}
use folder_transfer.Protocol.Writing.{IsHealthy, FramesFit, Wrote, send_chunk_adaptive-Wrote}
use folder_transfer.Protocol.Steps.{Wrote-then, send_line-Wrote, end_line-Wrote, Wrote-nothing}

remain_of-inside :
    (len offset : ℕ) → offset ≤ len → len < 2 ^ 63 → remain_of len offset ≡ len - offset
unfolding remain_of
remain_of-inside len offset h k = ground arith

nil_of_length : (c : List ℕ) → length c ≡ 0 → c ≡ []
nil_of_length [] h = refl
nil_of_length (x ∷ c) h = absurd (omega arith)

seek-past : (offset : ℕ) (f : File) → (if ltb 0 offset then seek offset f else f) ≡ past offset f
unfolding seek
seek-past zero f = refl
seek-past (suc n) f = rw (lt→ltb 0 (suc n) (omega arith)) refl

nil_of_block : (c : List ℕ) → length (take block_size c) ≡ 0 → c ≡ []
nil_of_block [] h = refl
nil_of_block (x ∷ c) h = absurd (omega (arith, length-take block_size (x ∷ c)))

module _ ⦃fl : Floats⦄ ⦃z : Zstd⦄ ⦃clock : Clock fl⦄ (frames : FramesFit z) where
  zip_rounds-step :
      (k : ℕ) (f : File) (s : Sender fl) {b : List ℕ} {g : File}
      → read_block block_size f ≡ ok (b, g)
      → zip_rounds (suc k) f s
        ≡ (if length b == 0
              then done tt
              else do send_chunk_adaptive b; modify (count_bytes (length b)); zip_rounds k g)
            s
  unfolding zip_rounds
  zip_rounds-step k f s e = rw e

  -- What stands behind the line `Z`.
  abbrev ZipTail : List ℕ → List ℕ → Type 0
  ZipTail v x = (w : List ℕ) × Blocks z w x × (v ≡ w ++ b'E' ∷ 10 ∷ [])

  zip_rounds-Wrote :
      (k : ℕ) (f : File) (s : Sender fl)
      → length f.content < k
      → IsReadable f
      → Fits f.content
      → IsHealthy s.conn
      → s.conn.wbuf ≡ []
      → Wrote s.conn (zip_rounds k f s) (λ w. Blocks z w f.content)
  zip_rounds-Wrote zero f s b r fits h e = absurd (omega arith)
  zip_rounds-Wrote (suc k) f s b r fits h e =
      let block = take block_size f.content in
      let back = drop block_size f.content in
      let whole : block ++ back ≡ f.content = take-append-drop block_size f.content in
      let size : length f.content ≡ length block + length back =
        ap length (sym whole) ∙ length-append block back in
      let step = zip_rounds-step k f s (read_block-readable block_size f r) in
      elim (Bool-cases (length block == 0)) [
        | inl nothing ↦ rw step (
            rw nothing (
              Wrote-nothing s (λ w. Blocks z w f.content) e
                (subst (λ c. Blocks z [] c)
                  (sym (nil_of_block f.content (zero_of_eq (length block) nothing))) end)))
        | inr something ↦ rw step (
            rw something (
              Wrote-then s.conn (send_chunk_adaptive block)
                (do modify (count_bytes (length block)); zip_rounds k (past block_size f)) s h
                (send_chunk_adaptive-Wrote frames block s h e
                  (omega (arith, length-take block_size f.content)))
                (λ t th te.
                  zip_rounds-Wrote k (past block_size f) (count_bytes (length block) t)
                    (omega (arith, pos_of_ne_zero (length block) something)) r (omega arith) th te)
                (λ w v p q. subst (λ c. Blocks z (w ++ v) c) whole (next p q))))
      ]

  -- `Z`, the blocks, `E`.
  zip_body-Wrote :
      (f : File) (s : Sender fl)
      → IsReadable f
      → Fits f.content
      → IsHealthy s.conn
      → s.conn.wbuf ≡ []
      → Wrote s.conn (zip_body f s) (λ w. Body z w f.content)
  unfolding zip_body
  zip_body-Wrote f s r fits h e =
      Wrote-then {P = λ w. w ≡ b'Z' ∷ 10 ∷ []} {Q = λ w. ZipTail w f.content} s.conn
        (on_conn (send_line (codes "Z")))
        (do
          zip_rounds (suc (length f.content)) f
          on_conn (send_line (codes "E"))
          modify count_sent)
        s h (send_line-Wrote (codes "Z") s h e)
        (λ t th te.
          Wrote-then {P = λ w. Blocks z w f.content} {Q = λ w. w ≡ b'E' ∷ 10 ∷ []} t.conn
            (zip_rounds (suc (length f.content)) f)
            (do on_conn (send_line (codes "E")); modify count_sent) t th
            (zip_rounds-Wrote (suc (length f.content)) f t (omega arith) r fits th te)
            (λ u uh ue. end_line-Wrote u uh ue) (λ w v p q. (w, p, ap (λ x. w ++ x) q)))
        (λ w v p q. rw (p, q.2) (blocks q.1))

  raw_rounds-step :
      (k left : ℕ) (f : File) (s : Sender fl) {b : List ℕ} {g : File}
      → ltb 0 left ≡ true
      → read_block (min left block_size) f ≡ ok (b, g)
      → (length b == 0) ≡ false
      → raw_rounds (suc k) left f s
        ≡ (do
          modify (queue (put_bytes b))
          on_conn flush
          modify (count_wire_bytes (length b))
          raw_rounds k (left - length b) g)
            s
  unfolding raw_rounds
  raw_rounds-step k left f s l e n = rw (l, e, n)

  -- `put_bytes` and `flush`: what was queued goes out first.
  put_flush-Wrote :
      (b : List ℕ) (s : Sender fl)
      → IsHealthy s.conn
      → Wrote s.conn ((modify (queue (put_bytes b)) >> on_conn flush) s) (λ w. w ≡ s.conn.wbuf ++ b)
  unfolding put_bytes flush
  put_flush-Wrote b s h = record {
    fine = rw (h s.conn.sent);
    wire = s.conn.wbuf ++ b;
    is = refl;
    conn = rw (h s.conn.sent);
  }

  raw_rounds-Wrote :
      (k left : ℕ) (f : File) (s : Sender fl)
      → left ≡ length f.content
      → left ≤ k
      → IsReadable f
      → IsHealthy s.conn
      → (f.content ≡ [] → s.conn.wbuf ≡ [])
      → Wrote s.conn (raw_rounds k left f s) (λ w. w ≡ s.conn.wbuf ++ f.content)
  unfolding raw_rounds
  raw_rounds-Wrote zero left f s same b r h q =
      let nothing : f.content ≡ [] = nil_of_length f.content (omega arith) in
      Wrote-nothing s (λ w. w ≡ s.conn.wbuf ++ f.content) (q nothing) (rw (nothing, q nothing) refl)
  raw_rounds-Wrote (suc k) left f s same b r h q =
      let block = take (min left block_size) f.content in
      let back = drop (min left block_size) f.content in
      let whole : block ++ back ≡ f.content = take-append-drop (min left block_size) f.content in
      let size = length-take (min left block_size) f.content in
      elim (Bool-cases (ltb 0 left)) [
        | inr nothing ↦
            let none : f.content ≡ [] =
              nil_of_length f.content (omega (arith, ltb_not 0 left nothing)) in
            rw nothing (
              Wrote-nothing s (λ w. w ≡ s.conn.wbuf ++ f.content) (q none) (rw (none, q none) refl))
        | inl something ↦
            let full : (length block == 0) ≡ false =
              not_zero (length block) (omega (arith, ltb→lt 0 left something)) in
            rw
              (raw_rounds-step k left f s something (read_block-readable (min left block_size) f r)
                full)
              (Wrote-then {P = λ w. w ≡ s.conn.wbuf ++ block} {Q = λ w. w ≡ back} s.conn
                (modify (queue (put_bytes block)) >> on_conn flush)
                (do
                  modify (count_wire_bytes (length block))
                  raw_rounds k (left - length block) (past (min left block_size) f))
                s h (put_flush-Wrote block s h)
                (λ t th te.
                  let a =
                    raw_rounds-Wrote k (left - length block) (past (min left block_size) f)
                      (count_wire_bytes (length block) t)
                      (omega (arith, length-drop (min left block_size) f.content))
                      (omega (arith, ltb→lt 0 left something)) r th (λ x. te) in
                  record {
                    fine = a.fine;
                    wire = a.wire;
                    is = a.is ∙ ap (λ b. b ++ back) te;
                    conn = a.conn;
                  })
                (λ w v p q.
                  rw (p, q)
                    (append_assoc s.conn.wbuf block back ∙ ap (λ c. s.conn.wbuf ++ c) whole)))
      ]

  -- A file of a known length is sent as a body of what stands behind the offset.
  raw_body-Wrote :
      (f : File) (s : Sender fl)
      → IsReadable f
      → Fits f.content
      → IsHealthy s.conn
      → s.conn.wbuf ≡ []
      → f.content ≢ []
      → Wrote s.conn (raw_body (length f.content) f s) (λ w. Body z w f.content)
  unfolding raw_body put_line
  raw_body-Wrote f s r fits h e full =
      let line = Protocol.raw_line (length f.content) in
      let t : Sender fl = queue (put_line line) s in
      let a =
        raw_rounds-Wrote (length f.content) (length f.content) f t refl (omega arith) r h
          (λ nothing. absurd (full nothing)) in
      record {
        fine = rw a.fine refl;
        wire = a.wire;
        is =
            subst (λ w. Body z w f.content)
              (sym (
                a.is
                ∙ ap (λ b. (b ++ line ++ 10 ∷ []) ++ f.content) e
                ∙ append_assoc line (10 ∷ []) f.content))
              (whole f.content fits);
        conn = rw a.fine a.conn;
      }

  -- Whatever the file and the offset are, what stands behind the offset is sent as a body: raw, or in
  -- blocks. The file is at its start, its length is the one reported, and it is longer than the offset.
  pub send_large_file-Wrote :
      (f : File) (offset : ℕ) (ext : Text) (use_compress : Bool) (s : Sender fl)
      → IsReadable f
      → f.len ≡ length f.content
      → f.len < 2 ^ 63
      → offset < f.len
      → IsHealthy s.conn
      → s.conn.wbuf ≡ []
      → Wrote s.conn
          (send_large_file f offset ext use_compress s)
          (λ w. Body z w (drop offset f.content))
  unfolding send_large_file
  send_large_file-Wrote f offset ext use_compress s r same fits b h e =
      let sent = remain_of-inside f.len offset (omega arith) fits in
      let back = drop offset f.content in
      let size = length-drop offset f.content in
      let small : Fits back = omega (arith, size) in
      let some_left : back ≢ [] = λ nothing. omega (arith, size, ap length nothing) in
      let remain : remain_of f.len offset ≡ length back = omega (arith, size, sent) in
      elim (Bool-cases (
        use_compress && leb min_compress (remain_of f.len offset) && not (is_incompressible ext))) [
          | inl zipped ↦
              rw (zipped, seek-past offset f) (zip_body-Wrote (past offset f) s r small h e)
          | inr plain ↦
              rw (plain, seek-past offset f, remain)
                (raw_body-Wrote (past offset f) s r small h e some_left)
        ]
