-- ===== src/Protocol/Large.antt =====
-- The client reads a sequence of blocks, and the body of a large file.
use folder_transfer.Prelude.{
  ℕ, zero, suc, ◌+◌, ◌-◌, min, lt→ltb, ◌≤◌, ◌<◌, ◌≡◌, refl, sym, ap, ◌∙◌, List, [], ◌∷◌, ◌++◌,
  arith, length, length-append, append_assoc, append-nil,
}
use folder_transfer.Text.{codes, text_eq}
use folder_transfer.Io.{Io, ok, ◌>>=◌, ◌>>◌, modify}
use folder_transfer.Wire.{Transfer, on_conn, read_exact, write_all}
use folder_transfer.Wire.Lines.{IsLine, IsLine-plain}
use folder_transfer.Platform.{Zstd, IsLossless}
use folder_transfer.Client.{expect_line}
use folder_transfer.Client.Receive.{recv_blocks, recv_rounds, recv_remain, recv_large_body, report}
use folder_transfer.Protocol.{Fits, raw_line, Blocks, end, next, Body, whole, blocks}
use folder_transfer.Protocol.Reading.{
  first, others, first-others, length-first, length-others, AcceptsAll, moved, move_one,
  expect_line-line, raw_line-IsLine,
}
use folder_transfer.Protocol.Framed.{
  number_or_zero-print_nat, words-raw_line, buffer, Reads, Block-Reads,
}

module _ ⦃z : Zstd⦄ (lossless : IsLossless z) where
  -- Moved, and reported to the progress line.
  abbrev pub took : List ℕ → List ℕ → Transfer → Transfer
  took x rest t = record (moved x rest t) { reported = t.reported + length x }

  end-IsLine : IsLine (codes "E")
  end-IsLine = IsLine-plain (codes "E") (omega arith)

  recv_blocks-end :
      (k total : ℕ) (rest : List ℕ) (t : Transfer)
      → t.conn.input ≡ b'E' ∷ 10 ∷ rest
      → recv_blocks (suc k) total t ≡ (ok (total + 0), took [] rest t)
  unfolding recv_blocks text_eq
  recv_blocks-end k total rest t e =
      rw (expect_line-line (codes "E") rest t.conn end-IsLine e)
        (ground (arith, append-nil t.out.written))

  recv_blocks-next :
      {w x : List ℕ} (r : Reads lossless w x) (k total : ℕ) (rest : List ℕ) (t : Transfer)
      → AcceptsAll t.out
      → t.conn.input ≡ w ++ rest
      → recv_blocks (suc k) total t ≡ recv_blocks k (total + length x) (took x rest t)
  unfolding recv_blocks
  recv_blocks-next {w} {x} r k total rest t a e =
      let behind = r.payload ++ rest in
      let here : t.conn.input ≡ r.header ++ 10 ∷ behind =
        e ∙ ap (λ b. b ++ rest) r.parts ∙ append_assoc r.header (10 ∷ r.payload) rest in
      let t' : Transfer = record t { conn = record t.conn { input = behind } } in
      rw (expect_line-line r.header behind t.conn r.line here, r.no_end)
        (rw (r.by_block rest t' a refl))

  took-took :
      (x xs behind rest : List ℕ) (total : ℕ) (t : Transfer)
      → ◌≡◌ {A = Io ℕ × Transfer}
          (ok (total + length x + length xs), took xs rest (took x behind t))
          (ok (total + length (x ++ xs)), took (x ++ xs) rest t)
  took-took x xs behind rest total t =
      ground (arith, length-append x xs, append_assoc t.out.written x xs)

  took_parts :
      (a b rest : List ℕ) (t : Transfer)
      → ◌≡◌ {A = Io (Unit {0}) × Transfer}
          (ok tt, took b rest (took a (b ++ rest) t))
          (ok tt, took (a ++ b) rest t)
  took_parts a b rest t = ground (arith, length-append a b, append_assoc t.out.written a b)

  recv_blocks-Blocks :
      {w x : List ℕ} (b : Blocks z w x) (k total : ℕ) (rest : List ℕ) (t : Transfer)
      → length w < k
      → AcceptsAll t.out
      → t.conn.input ≡ w ++ b'E' ∷ 10 ∷ rest
      → recv_blocks k total t ≡ (ok (total + length x), took x rest t)
  recv_blocks-Blocks end zero total rest t h a e = absurd (omega arith)
  recv_blocks-Blocks end (suc k) total rest t h a e = recv_blocks-end k total rest t e
  recv_blocks-Blocks (next b bs) zero total rest t h a e = absurd (omega arith)
  recv_blocks-Blocks (next {w} {ws} {x} {xs} b bs) (suc k) total rest t h a e =
      let r = Block-Reads lossless b in
      let behind = ws ++ b'E' ∷ 10 ∷ rest in
      let size : length w ≡ length r.header + suc (length r.payload) =
        ap length r.parts ∙ length-append r.header (10 ∷ r.payload) in
      recv_blocks-next r k total behind t a (e ∙ append_assoc w ws (b'E' ∷ 10 ∷ rest))
      ∙ recv_blocks-Blocks bs k (total + length x) rest (took x behind t)
          (omega (arith, length-append w ws)) a refl
      ∙ took-took x xs behind rest total t

  zip_start-IsLine : IsLine (codes "Z")
  zip_start-IsLine = IsLine-plain (codes "Z") (omega arith)

  recv_rounds-step :
      (f n : ℕ) (t : Transfer)
      → 0 < n
      → recv_rounds (suc f) n t
        ≡ (do
          buf ← on_conn (read_exact (min n buffer))
          write_all buf
          modify (report (min n buffer))
          recv_rounds f (n - min n buffer))
            t
  unfolding recv_rounds
  recv_rounds-step f n t h = rw (lt→ltb 0 n h)

  recv_rounds-nil :
      (f : ℕ) (rest : List ℕ) (t : Transfer)
      → t.conn.input ≡ rest
      → recv_rounds f 0 t ≡ (ok tt, took [] rest t)
  unfolding recv_rounds
  recv_rounds-nil zero rest t e = ground (arith, append-nil t.out.written)
  recv_rounds-nil (suc f) rest t e = ground (arith, append-nil t.out.written)

  recv_rounds-append :
      (f : ℕ) (x rest : List ℕ) (t : Transfer)
      → length x ≤ f
      → AcceptsAll t.out
      → t.conn.input ≡ x ++ rest
      → recv_rounds f (length x) t ≡ (ok tt, took x rest t)
  recv_rounds-append f [] rest t h a e = recv_rounds-nil f rest t e
  recv_rounds-append zero (b ∷ x) rest t h a e = absurd (omega arith)
  recv_rounds-append (suc f) (b ∷ x) rest t h a e =
      let y = b ∷ x in
      let front = first buffer y in
      let back = others buffer y in
      let n = length y in
      let whole : y ≡ front ++ back = first-others buffer y in
      recv_rounds-step f n t (omega arith)
      ∙ ap
          (λ k.
            (do
              buf ← on_conn (read_exact k)
              write_all buf
              modify (report k)
              recv_rounds f (n - k))
              t)
          (sym (length-first buffer y))
      ∙ move_one front (back ++ rest)
          (do modify (report (length front)); recv_rounds f (n - length front)) t a
          (e ∙ ap (λ z. z ++ rest) whole ∙ append_assoc front back rest)
      ∙ ap (λ k. recv_rounds f k (took front (back ++ rest) t))
          (omega (arith, length-others buffer y, length-first buffer y))
      ∙ recv_rounds-append f back rest (took front (back ++ rest) t)
          (omega (arith, length-others buffer y)) a refl
      ∙ took_parts front back rest t
      ∙ ap (λ z. (ok tt, took z rest t)) (sym whole)

  recv_large_body-raw :
      (x rest : List ℕ) (t : Transfer)
      → Fits x
      → AcceptsAll t.out
      → t.conn.input ≡ x ++ rest
      → recv_large_body (raw_line (length x)) t ≡ (ok (length x), took x rest t)
  recv_large_body-raw x rest t fits a e =
      unfold recv_large_body recv_remain text_eq in
      rw (words-raw_line (length x)) (
        rw (number_or_zero-print_nat (length x) fits)
          (rw (recv_rounds-append (length x) x rest t (omega arith) a e)))

  recv_large_body-zip :
      {w x : List ℕ} (bs : Blocks z w x) (rest : List ℕ) (t : Transfer)
      → AcceptsAll t.out
      → t.conn.input ≡ w ++ b'E' ∷ 10 ∷ rest
      → recv_large_body (codes "Z") t ≡ (ok (length x), took x rest t)
  recv_large_body-zip {w} {x} bs rest t a e =
      unfold recv_large_body text_eq in
      recv_blocks-Blocks bs (suc (length t.conn.input)) 0 rest t
        (omega (arith, ap length e, length-append w (b'E' ∷ 10 ∷ rest))) a e
      ∙ ap (λ n. (ok n, took x rest t)) (omega arith)

  -- A body of a large file that follows its offer: the client reads it whole and gets the content.
  pub recv_large_body-Body :
      {w x : List ℕ} (b : Body z w x) (rest : List ℕ) (t : Transfer)
      → AcceptsAll t.out
      → t.conn.input ≡ w ++ rest
      → (do hdr ← on_conn expect_line; recv_large_body hdr) t ≡ (ok (length x), took x rest t)
  recv_large_body-Body (whole x fits) rest t a e =
      let t' : Transfer = record t { conn = record t.conn { input = x ++ rest } } in
      rw
        (expect_line-line (raw_line (length x)) (x ++ rest) t.conn (raw_line-IsLine (length x))
          (e ∙ append_assoc (raw_line (length x)) (10 ∷ x) rest))
        (recv_large_body-raw x rest t' fits a refl)
  recv_large_body-Body (blocks {w} {x} bs) rest t a e =
      let behind = w ++ b'E' ∷ 10 ∷ rest in
      let t' : Transfer = record t { conn = record t.conn { input = behind } } in
      rw
        (expect_line-line (codes "Z") behind t.conn zip_start-IsLine
          (e ∙ ap (λ b. b'Z' ∷ 10 ∷ b) (append_assoc w (b'E' ∷ 10 ∷ []) rest)))
        (recv_large_body-zip bs rest t' a refl)
