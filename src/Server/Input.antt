-- ===== src/Server/Input.antt =====
-- rust/src/server.rs: what the sending side takes from the connection, the answers of the client.
use folder_transfer.Prelude.{ℕ, ◌≡◌, refl, Bool, ℤ, List, Option, none, some, arith, length}
use folder_transfer.Io.Size.{Shrinks}
use folder_transfer.Wire.{put_line, put_bytes}
use folder_transfer.Wire.Input.{flush-Shrinks}
use folder_transfer.Platform.{Floats, Zstd, Clock}
use folder_transfer.Compress.{State}
use folder_transfer.Server.{
  Sender, send_raw_chunk, put_raw, put_zip, put_chunk_bundled, tell_compressed, tell_incompressible,
  send_zip_chunk, send_incompressible, compress_chunk, decide_chunk, send_chunk_adaptive,
}

module _ ⦃fl : Floats⦄ where
  abbrev pub sender_size : Sender fl → ℕ
  sender_size s = length s.conn.input

  send_raw_chunk-Shrinks : (chunk : List ℕ) → Shrinks sender_size (send_raw_chunk chunk)
  unfolding send_raw_chunk put_line put_bytes
  send_raw_chunk-Shrinks chunk s = grind (arith, flush-Shrinks)

  put_raw_size : (chunk : List ℕ) (s : Sender fl) → sender_size (put_raw chunk s) ≡ sender_size s
  unfolding put_raw put_line put_bytes
  put_raw_size chunk s = refl

  put_zip_size :
      (chunk : List ℕ) (n : ℕ) (s : Sender fl) → sender_size (put_zip chunk n s) ≡ sender_size s
  unfolding put_zip put_line put_bytes
  put_zip_size chunk n s = refl

module _ ⦃fl : Floats⦄ ⦃z : Zstd⦄ where
  pub put_chunk_bundled_size :
      (chunk : List ℕ) (level : Option ℤ) (s : Sender fl)
      → sender_size (put_chunk_bundled chunk level s) ≡ sender_size s
  unfolding put_chunk_bundled
  put_chunk_bundled_size chunk none s = put_raw_size chunk s
  put_chunk_bundled_size chunk (some level) s = grind (arith, put_raw_size, put_zip_size)

module _ ⦃fl : Floats⦄ ⦃z : Zstd⦄ ⦃clock : Clock fl⦄ where
  send_zip_chunk-Shrinks :
      (cbuf : List ℕ) (n : ℕ) (tc : fl.F) → Shrinks sender_size (send_zip_chunk cbuf n tc)
  unfolding send_zip_chunk tell_compressed put_line put_bytes
  send_zip_chunk-Shrinks cbuf n tc s = grind (arith, flush-Shrinks)

  send_incompressible-Shrinks : (chunk : List ℕ) → Shrinks sender_size (send_incompressible chunk)
  unfolding send_incompressible tell_incompressible
  send_incompressible-Shrinks chunk s = grind (arith, send_raw_chunk-Shrinks)

  compress_chunk-Shrinks : (chunk : List ℕ) → Shrinks sender_size (compress_chunk chunk)
  unfolding compress_chunk
  compress_chunk-Shrinks chunk s =
      grind (arith, send_incompressible-Shrinks, send_zip_chunk-Shrinks)

  decide_chunk-Shrinks :
      (d : Bool × State) (chunk : List ℕ) → Shrinks sender_size (decide_chunk d chunk)
  unfolding decide_chunk
  decide_chunk-Shrinks (raw, state) chunk s =
      grind (arith, send_raw_chunk-Shrinks, compress_chunk-Shrinks)

  pub send_chunk_adaptive-Shrinks :
      (chunk : List ℕ) → Shrinks sender_size (send_chunk_adaptive chunk)
  unfolding send_chunk_adaptive
  send_chunk_adaptive-Shrinks chunk s = grind (arith, send_raw_chunk-Shrinks, decide_chunk-Shrinks)
