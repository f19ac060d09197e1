-- ===== src/Server/Body/Input.antt =====
-- rust/src/server.rs: what `send_large_file` and `send_bundle` take from the connection.
use folder_transfer.Prelude.{
  ℕ, zero, suc, Bool, true, false, ℤ, List, [], ◌∷◌, Option, none, some, arith,
}
use folder_transfer.Text.{Text}
use folder_transfer.Io.Size.{Shrinks}
use folder_transfer.Wire.{put_line, put_bytes}
use folder_transfer.Wire.Input.{flush-Shrinks, send_line-Shrinks, read_line_size}
use folder_transfer.Paths.{FilePath}
use folder_transfer.Platform.{Floats, Zstd, Clock}
use folder_transfer.Server.{File}
use folder_transfer.Server.Input.{sender_size, put_chunk_bundled_size, send_chunk_adaptive-Shrinks}
use folder_transfer.Server.Body.{
  BundleItem, raw_rounds, zip_rounds, raw_body, zip_body, send_large_file, flush_batch, put_item,
  count_item, send_item, send_items, read_mask, send_wanted, answer_mask, send_bundle,
}

module _ ⦃fl : Floats⦄ where
  raw_rounds-Shrinks : (k left : ℕ) (f : File) → Shrinks sender_size (raw_rounds k left f)
  unfolding raw_rounds put_bytes
  raw_rounds-Shrinks zero left f s = omega arith
  raw_rounds-Shrinks (suc k) left f s = grind (arith, flush-Shrinks, raw_rounds-Shrinks k)

module _ ⦃fl : Floats⦄ ⦃z : Zstd⦄ ⦃clock : Clock fl⦄ where
  zip_rounds-Shrinks : (k : ℕ) (f : File) → Shrinks sender_size (zip_rounds k f)
  unfolding zip_rounds
  zip_rounds-Shrinks zero f s = omega arith
  zip_rounds-Shrinks (suc k) f s = grind (arith, send_chunk_adaptive-Shrinks, zip_rounds-Shrinks k)

  raw_body-Shrinks : (remain : ℕ) (f : File) → Shrinks sender_size (raw_body remain f)
  unfolding raw_body put_line
  raw_body-Shrinks remain f s = grind (arith, raw_rounds-Shrinks)

  zip_body-Shrinks : (f : File) → Shrinks sender_size (zip_body f)
  unfolding zip_body
  zip_body-Shrinks f s = grind (arith, send_line-Shrinks, zip_rounds-Shrinks)

  pub send_large_file-Shrinks :
      (f : File) (offset : ℕ) (ext : Text) (use_compress : Bool)
      → Shrinks sender_size (send_large_file f offset ext use_compress)
  unfolding send_large_file
  send_large_file-Shrinks f offset ext use_compress s =
      grind (arith, raw_body-Shrinks, zip_body-Shrinks)

  flush_batch-Shrinks : Shrinks sender_size flush_batch
  unfolding flush_batch
  flush_batch-Shrinks s = grind (arith, flush-Shrinks)

  module _ (open_file : FilePath → Option File) (use_compress : Bool) where
    put_item-Shrinks :
        (level : Option ℤ) (b : BundleItem) (content : List ℕ)
        → Shrinks sender_size (put_item open_file use_compress level b content)
    unfolding put_item count_item
    put_item-Shrinks level b content s = grind (arith, put_chunk_bundled_size, flush_batch-Shrinks)

    send_item-Shrinks :
        (level : Option ℤ) (b : BundleItem)
        → Shrinks sender_size (send_item open_file use_compress level b)
    unfolding send_item put_line
    send_item-Shrinks level b s = grind (arith, put_item-Shrinks)

    send_items-Shrinks :
        (level : Option ℤ) (bs : List BundleItem) (mask : Text)
        → Shrinks sender_size (send_items open_file use_compress level bs mask)
    unfolding send_items
    send_items-Shrinks level [] mask s = omega arith
    send_items-Shrinks level (b ∷ bs) mask s =
        grind (arith, send_item-Shrinks, send_items-Shrinks level bs)

    read_mask-Shrinks :
        (count : ℕ) (stream_mode : Bool)
        → Shrinks sender_size (read_mask open_file count stream_mode)
    unfolding read_mask
    read_mask-Shrinks count true s = omega arith
    read_mask-Shrinks count false s = omega (arith, read_line_size s.conn)

    answer_mask-Shrinks :
        (bs : List BundleItem) (mask : Option Text)
        → Shrinks sender_size (answer_mask open_file use_compress bs mask)
    unfolding answer_mask send_wanted
    answer_mask-Shrinks bs none s = omega arith
    answer_mask-Shrinks bs (some mask) s = grind (arith, send_items-Shrinks, flush-Shrinks)

    pub send_bundle-Shrinks :
        (bs : List BundleItem) (stream_mode : Bool)
        → Shrinks sender_size (send_bundle open_file bs use_compress stream_mode)
    unfolding send_bundle put_bytes
    send_bundle-Shrinks [] stream_mode s = omega arith
    send_bundle-Shrinks (b ∷ bs) stream_mode s =
        grind (arith, flush-Shrinks, read_mask-Shrinks, answer_mask-Shrinks)
