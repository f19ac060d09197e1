-- ===== src/Protocol/Writing.antt =====
-- What the server writes for a chunk is a block of it, whatever the controller decides.
use folder_transfer.Prelude.{
  ℕ, ◌+◌, ◌≤◌, ℤ, ◌≡◌, ap, ◌∙◌, Bool, true, false, List, [], ◌∷◌, ◌++◌, arith, ltb, length,
  append_assoc, Bool-cases, inl, inr,
}
use folder_transfer.Text.{Text}
use folder_transfer.Io.{Io, ok}
use folder_transfer.Wire.{Conn, put_line, put_bytes, flush}
use folder_transfer.Platform.{Floats, Zstd, Clock}
use folder_transfer.Compress
use folder_transfer.Compress.{State, block_size, min_compress}
use folder_transfer.Server.{
  Sender, send_raw_chunk, send_chunk_adaptive, decide_chunk, compress_chunk, send_zip_chunk,
  send_incompressible, tell_incompressible, tell_compressed, is_not_shrunk,
}
use folder_transfer.Protocol.{Fits, raw_line, zip_line, Block, raw, zip}

-- The transport takes every byte.
abbrev pub IsHealthy : Conn → Type 0
IsHealthy c = (b : List ℕ) → c.link b ≡ true

-- The zstd frame of a block of at most 1 MiB is far below 2^64 bytes.
abbrev pub FramesFit : Zstd → Type 0
FramesFit z = (x : List ℕ) (level : ℤ) → length x ≤ block_size → Fits (z.compress x level)

abbrev pub wrote_conn : Conn → List ℕ → Conn
wrote_conn c w = record c { sent = c.sent ++ w; wbuf = [] }

module _ ⦃fl : Floats⦄ where
  -- `r` ended well, and what it handed to the transport has the property `P`.
  pub record Wrote (c : Conn) (r : Io (Unit {0}) × Sender fl) (P : List ℕ → Type 0) : Type 0 where
    pub fine : r.0 ≡ ok tt
    pub wire : List ℕ
    pub is : P wire
    pub conn : r.1.conn ≡ wrote_conn c wire

  pub frame_bytes :
      (c : Conn) (line : Text) (body : List ℕ)
      → c.wbuf ≡ []
      → put_bytes body (put_line line c) ≡ record c { wbuf = line ++ 10 ∷ body }
  unfolding put_bytes put_line
  frame_bytes c line body e =
      ap (λ b. record c { wbuf = b })
        (ap (λ b. b ++ line ++ 10 ∷ [] ++ body) e ∙ append_assoc line (10 ∷ []) body)

  -- One line and its payload, flushed.
  pub flush_frame :
      (c : Conn) (line : Text) (body : List ℕ)
      → IsHealthy c
      → c.wbuf ≡ []
      → flush (put_bytes body (put_line line c)) ≡ (ok tt, wrote_conn c (line ++ 10 ∷ body))
  flush_frame c line body h e = rw (frame_bytes c line body e) (unfold flush in rw (h c.sent))

  send_raw_chunk-conn :
      (x : List ℕ) (s : Sender fl)
      → IsHealthy s.conn
      → s.conn.wbuf ≡ []
      → ((send_raw_chunk x s).0 ≡ ok tt)
        × ((send_raw_chunk x s).1.conn ≡ wrote_conn s.conn (raw_line (length x) ++ 10 ∷ x))
  unfolding send_raw_chunk
  send_raw_chunk-conn x s h e =
      let f = flush_frame s.conn (raw_line (length x)) x h e in (rw f, rw f)

  send_zip_chunk-conn :
      ⦃z : Zstd⦄ ⦃clock : Clock fl⦄ (c : List ℕ) (n : ℕ) (tc : fl.F) (s : Sender fl)
      → IsHealthy s.conn
      → s.conn.wbuf ≡ []
      → ((send_zip_chunk c n tc s).0 ≡ ok tt)
        × ((send_zip_chunk c n tc s).1.conn ≡ wrote_conn s.conn (zip_line (length c) n ++ 10 ∷ c))
  unfolding send_zip_chunk tell_compressed
  send_zip_chunk-conn c n tc s h e =
      let f = flush_frame s.conn (zip_line (length c) n) c h e in (rw f, rw f)

module _ ⦃fl : Floats⦄ ⦃z : Zstd⦄ ⦃clock : Clock fl⦄ (frames : FramesFit z) where
  raw_Wrote :
      (x : List ℕ) (s : Sender fl)
      → IsHealthy s.conn
      → s.conn.wbuf ≡ []
      → Fits x
      → Wrote s.conn (send_raw_chunk x s) (λ w. Block z w x)
  raw_Wrote x s h e fits =
      let (fine, conn) = send_raw_chunk-conn x s h e in
      record { fine = fine; wire = raw_line (length x) ++ 10 ∷ x; is = raw x fits; conn = conn }

  incompressible_Wrote :
      (x : List ℕ) (s : Sender fl)
      → IsHealthy s.conn
      → s.conn.wbuf ≡ []
      → Fits x
      → Wrote s.conn (send_incompressible x s) (λ w. Block z w x)
  unfolding send_incompressible tell_incompressible
  incompressible_Wrote x s h e fits =
      let (fine, conn) = send_raw_chunk-conn x s h e in
      record {
        fine = rw fine;
        wire = raw_line (length x) ++ 10 ∷ x;
        is = raw x fits;
        conn = rw fine conn;
      }

  compress_chunk-Wrote :
      (x : List ℕ) (s : Sender fl)
      → IsHealthy s.conn
      → s.conn.wbuf ≡ []
      → length x ≤ block_size
      → Wrote s.conn (compress_chunk x s) (λ w. Block z w x)
  unfolding compress_chunk
  compress_chunk-Wrote x s h e small =
      let fits : Fits x = omega arith in
      let c = z.compress x (Compress.current_level s.state) in
      let n = length x in
      let tc = fl.sub (clock.reading (s.readings + 1)) (clock.reading s.readings) in
      let t : Sender fl = record s { readings = s.readings + 2 } in
      elim (Bool-cases (is_not_shrunk (length c) n)) [
        | inl kept ↦ rw kept (incompressible_Wrote x t h e fits)
        | inr shrunk ↦ rw shrunk (
            let (fine, conn) = send_zip_chunk-conn c n tc t h e in
            record {
              fine = fine;
              wire = zip_line (length c) n ++ 10 ∷ c;
              is =
                  zip x (Compress.current_level s.state) fits
                    (frames x (Compress.current_level s.state) small);
              conn = conn;
            })
      ]

  decide_chunk-Wrote :
      (d : Bool × State) (x : List ℕ) (s : Sender fl)
      → IsHealthy s.conn
      → s.conn.wbuf ≡ []
      → length x ≤ block_size
      → Wrote s.conn (decide_chunk d x s) (λ w. Block z w x)
  unfolding decide_chunk
  decide_chunk-Wrote (true, state) x s h e small =
      raw_Wrote x (record s { state = state }) h e (omega arith)
  decide_chunk-Wrote (false, state) x s h e small =
      compress_chunk-Wrote x (record s { state = state }) h e small

  -- Whatever the controller and the clock do, a chunk is written as one block of it.
  pub send_chunk_adaptive-Wrote :
      (x : List ℕ) (s : Sender fl)
      → IsHealthy s.conn
      → s.conn.wbuf ≡ []
      → length x ≤ block_size
      → Wrote s.conn (send_chunk_adaptive x s) (λ w. Block z w x)
  unfolding send_chunk_adaptive
  send_chunk_adaptive-Wrote x s h e small = elim (Bool-cases (ltb (length x) min_compress)) [
    | inl tiny ↦ rw tiny (raw_Wrote x s h e (omega arith))
    | inr large ↦ rw large (decide_chunk-Wrote (Compress.want_raw s.state) x s h e small)
  ]
