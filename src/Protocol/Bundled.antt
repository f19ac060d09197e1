-- ===== src/Protocol/Bundled.antt =====
-- A bundled file: what `put_chunk_bundled` (rust/src/server.rs) queues, read by `recv_bundle_file`
-- (rust/src/client.rs).
use folder_transfer.Prelude.{
  ℕ, ℤ, ◌≤◌, ◌≡◌, refl, ap, ◌∙◌, List, [], ◌∷◌, ◌++◌, Option, none, some, leb, length, append_assoc,
  Bool-cases, inl, inr, arith,
}
use folder_transfer.Io.{ok, ◌>>=◌}
use folder_transfer.Wire.{Transfer, on_conn}
use folder_transfer.Platform.{Floats, Zstd, IsLossless}
use folder_transfer.Compress.{block_size, min_compress}
use folder_transfer.Server.{Sender, put_chunk_bundled, put_raw, put_zip, is_shrunk}
use folder_transfer.Client.{expect_line}
use folder_transfer.Client.Receive.{recv_bundle_file}
use folder_transfer.Protocol.{Fits, raw_line, zip_line, Block, raw, zip}
use folder_transfer.Protocol.Reading.{AcceptsAll, moved, expect_line-line}
use folder_transfer.Protocol.Framed.{Block-Reads}
use folder_transfer.Protocol.Writing.{FramesFit, frame_bytes}

module _ ⦃fl : Floats⦄ ⦃z : Zstd⦄ (frames : FramesFit z) where
  -- What is queued for a file is one block of it.
  QueuesBlock : List ℕ → Sender fl → Type 0
  QueuesBlock x s = Block z s.conn.wbuf x

  put_raw-QueuesBlock :
      (x : List ℕ) (s : Sender fl) → s.conn.wbuf ≡ [] → Fits x → QueuesBlock x (put_raw x s)
  unfolding put_raw QueuesBlock
  put_raw-QueuesBlock x s e fits =
      rw (ap (λ c. c.wbuf) (frame_bytes s.conn (raw_line (length x)) x e)) (raw x fits)

  put_zip-QueuesBlock :
      (x : List ℕ) (level : ℤ) (s : Sender fl)
      → s.conn.wbuf ≡ []
      → length x ≤ block_size
      → QueuesBlock x (put_zip (z.compress x level) (length x) s)
  unfolding put_zip QueuesBlock
  put_zip-QueuesBlock x level s e small =
      let c = z.compress x level in
      rw (ap (λ c. c.wbuf) (frame_bytes s.conn (zip_line (length c) (length x)) c e))
        (zip x level (omega arith) (frames x level small))

  put_chunk_bundled-QueuesBlock :
      (x : List ℕ) (level : Option ℤ) (s : Sender fl)
      → s.conn.wbuf ≡ []
      → length x ≤ block_size
      → QueuesBlock x (put_chunk_bundled x level s)
  unfolding put_chunk_bundled
  put_chunk_bundled-QueuesBlock x none s e small = put_raw-QueuesBlock x s e (omega arith)
  put_chunk_bundled-QueuesBlock x (some level) s e small =
      let c = z.compress x level in
      elim (Bool-cases (leb min_compress (length x))) [
        | inr tiny ↦ rw tiny (put_raw-QueuesBlock x s e (omega arith))
        | inl large ↦ rw large (elim (Bool-cases (is_shrunk (length c) (length x))) [
          | inl shrunk ↦ rw shrunk (put_zip-QueuesBlock x level s e small)
          | inr kept ↦ rw kept (put_raw-QueuesBlock x s e (omega arith))
        ])
      ]

  module _ (lossless : IsLossless z) where
    recv_bundle_file-Block :
        {w x : List ℕ} (b : Block z w x) (rest : List ℕ) (t : Transfer)
        → AcceptsAll t.out
        → t.conn.input ≡ w ++ rest
        → (do hdr ← on_conn expect_line; recv_bundle_file hdr) t ≡ (ok (length x), moved x rest t)
    recv_bundle_file-Block {w} {x} b rest t a e =
        let r = Block-Reads lossless b in
        let behind = r.payload ++ rest in
        let here : t.conn.input ≡ r.header ++ 10 ∷ behind =
          e ∙ ap (λ b. b ++ rest) r.parts ∙ append_assoc r.header (10 ∷ r.payload) rest in
        let t' : Transfer = record t { conn = record t.conn { input = behind } } in
        rw (expect_line-line r.header behind t.conn r.line here) (r.by_file rest t' a refl)

    -- A file of at most 1 MiB that put_chunk_bundled queues on an empty buffer, raw or at any level, and whatever the
    -- comparison with 95% gives: a client that reads these bytes with any others behind them writes exactly the
    -- file, reports its length, and leaves the other bytes unread. Premises: zstd gives back what it was given and
    -- makes no frame of 2^64 bytes from such a file; the client's disk takes all that is written.
    pub recv_bundle_file-put_chunk_bundled :
        (x : List ℕ) (level : Option ℤ) (s : Sender fl) (rest : List ℕ) (t : Transfer)
        → s.conn.wbuf ≡ []
        → length x ≤ block_size
        → AcceptsAll t.out
        → t.conn.input ≡ (put_chunk_bundled x level s).conn.wbuf ++ rest
        → (do hdr ← on_conn expect_line; recv_bundle_file hdr) t ≡ (ok (length x), moved x rest t)
    unfolding QueuesBlock
    recv_bundle_file-put_chunk_bundled x level s rest t e small a i =
        recv_bundle_file-Block (put_chunk_bundled-QueuesBlock x level s e small) rest t a i
