-- ===== src/Server/Body.antt =====
-- rust/src/server.rs: `send_large_file` and `send_bundle`.
pub mod Input
use folder_transfer.Prelude.{
  ℕ, zero, suc, ◌+◌, ◌-◌, ◌*◌, ◌^◌, ◌%◌, min, ℤ, Bool, true, false, not, ◌&&◌, List, [], ◌∷◌, ◌++◌,
  Option, none, some, ltb, leb, ◌==◌, if◌then◌else◌, length, replicate,
}
use folder_transfer.Text.{Text, codes}
use folder_transfer.Text.Number.{print_nat, print_int}
use folder_transfer.Io.{Io, ok, err, disk, ◌>>=◌, ◌>>◌, done, lift, modify}
use folder_transfer.Wire.{put_line, put_bytes, buffered_len, flush, send_line, read_line}
use folder_transfer.Paths.{FilePath, dot_ext, is_incompressible}
use folder_transfer.Platform.{Floats, Zstd, Clock}
use folder_transfer.Compress
use folder_transfer.Compress.{State, block_size, min_compress}
use folder_transfer.Progress.{add}
use folder_transfer.Server.{
  File, read_block, seek, Sender, on_conn, queue, raw_line, put_chunk_bundled, send_chunk_adaptive,
}

pub record BundleItem : Type 0 where
  pub full : FilePath
  pub rel : Text
  pub size : ℕ
  pub mtime : ℤ

abbrev pub bundle_flush : ℕ
bundle_flush = 512 * 1024

-- `len() as i64 - offset`, on 64 bits with wrap-around, and 0 where that is negative.
unfoldable pub remain_of : ℕ → ℕ → ℕ
remain_of len offset = let d = (len + (2 ^ 64 - offset)) % 2 ^ 64 in if ltb d (2 ^ 63) then d else 0

module _ ⦃fl : Floats⦄ where
  -- `stats.bytes` and the progress line.
  abbrev pub count_bytes : ℕ → Sender fl → Sender fl
  count_bytes n s = record s {
    stats = record s.stats { bytes = s.stats.bytes + n };
    prog = add n 0 s.prog;
  }

  abbrev pub count_wire_bytes : ℕ → Sender fl → Sender fl
  count_wire_bytes n s = record s {
    stats = record s.stats { bytes = s.stats.bytes + n; wire = s.stats.wire + n };
    prog = add n 0 s.prog;
  }

  abbrev pub count_sent : Sender fl → Sender fl
  count_sent s = record s {
    stats = record s.stats { sent = s.stats.sent + 1 };
    prog = add 0 1 s.prog;
  }

  abbrev pub count_offered : Sender fl → Sender fl
  count_offered s = record s { stats = record s.stats { offered = s.stats.offered + 1 } }

  abbrev pub count_skipped : Sender fl → Sender fl
  count_skipped s = record s { stats = record s.stats { skipped = s.stats.skipped + 1 } }

  -- The loop of the raw body. A round sends a byte at least, so `left` rounds are enough.
  unfoldable pub raw_rounds : ℕ → ℕ → File → Sender fl → Io (Unit {0}) × Sender fl
  raw_rounds zero left f s = (ok tt, s)
  raw_rounds (suc k) left f s =
      let round = do
        (block, g) ← lift (read_block (min left block_size) f)
        if length block == 0 then done tt else do
          modify (queue (put_bytes block))
          on_conn flush
          modify (count_wire_bytes (length block))
          raw_rounds k (left - length block) g
      in if ltb 0 left then round s else (ok tt, s)

module _ ⦃fl : Floats⦄ ⦃z : Zstd⦄ ⦃clock : Clock fl⦄ where
  -- The loop of the compressed body. Each block holds a byte at least, so one round more than the file
  -- has bytes is enough.
  unfoldable pub zip_rounds : ℕ → File → Sender fl → Io (Unit {0}) × Sender fl
  zip_rounds zero f s = (ok tt, s)
  zip_rounds (suc k) f s =
      let round = do
        (block, g) ← lift (read_block block_size f)
        if length block == 0
            then done tt
            else do send_chunk_adaptive block; modify (count_bytes (length block)); zip_rounds k g
      in round s

  unfoldable pub raw_body : ℕ → File → Sender fl → Io (Unit {0}) × Sender fl
  raw_body remain f = do
    modify (queue (put_line (raw_line remain)))
    raw_rounds remain remain f
    modify count_sent

  unfoldable pub zip_body : File → Sender fl → Io (Unit {0}) × Sender fl
  zip_body f = do
    on_conn (send_line (codes "Z"))
    zip_rounds (suc (length f.content)) f
    on_conn (send_line (codes "E"))
    modify count_sent

  -- A file that is open at its start; the offset is of type `i64` and is not negative.
  unfoldable pub send_large_file : File → ℕ → Text → Bool → Sender fl → Io (Unit {0}) × Sender fl
  send_large_file f offset ext use_compress =
      let remain = remain_of f.len offset in
      let g = if ltb 0 offset then seek offset f else f in
      if use_compress && leb min_compress remain && not (is_incompressible ext)
      then zip_body g
      else raw_body remain g

  -- `B <count>` and a line for each file.
  manifest : List BundleItem → Text
  manifest [] = []
  manifest (b ∷ bs) =
      print_nat b.size ++ b' ' ∷ (print_int b.mtime ++ b' ' ∷ (b.rel ++ 10 ∷ manifest bs))

  unfoldable pub bundle_header : List BundleItem → Text
  unfolding manifest
  bundle_header bs = codes "B " ++ print_nat (length bs) ++ 10 ∷ manifest bs

  -- `i < mask.len() && mask[i] == b'1'`, along the mask.
  abbrev pub first_wanted : Text → Bool
  first_wanted [] = false
  first_wanted (c ∷ mask) = c == b'1'

  abbrev pub rest_mask : Text → Text
  rest_mask [] = []
  rest_mask (c ∷ mask) = mask

  flush_batch : Sender fl → Io (Unit {0}) × Sender fl
  flush_batch s = if leb bundle_flush (buffered_len s.conn) then on_conn flush s else (ok tt, s)

  -- `fs`: what `File::open` gives.
  module _ (open_file : FilePath → Option File) where
    abbrev item_level : Bool → Option ℤ → BundleItem → ℕ → Option ℤ
    item_level use_compress level b rlen =
        if use_compress && leb min_compress rlen && not (is_incompressible (dot_ext b.full))
        then level
        else none

    count_item : ℕ → Sender fl → Sender fl
    count_item n s = record s {
      stats = record s.stats { sent = s.stats.sent + 1; bytes = s.stats.bytes + n };
      prog = add n 1 s.prog;
    }

    put_item : Bool → Option ℤ → BundleItem → List ℕ → Sender fl → Io (Unit {0}) × Sender fl
    put_item use_compress level b content = do
      modify (put_chunk_bundled content (item_level use_compress level b (length content)))
      flush_batch
      modify (count_item (length content))

    -- `read_to_end`
    read_all : File → Io (List ℕ)
    read_all f = if f.readable (length f.content) then ok f.content else err disk

    send_item : Bool → Option ℤ → BundleItem → Sender fl → Io (Unit {0}) × Sender fl
    send_item use_compress level b s = elim (open_file b.full) [
      | none ↦ (ok tt, count_skipped (queue (put_line (codes "-1")) s))
      | some f ↦ (do content ← lift (read_all f); put_item use_compress level b content) s
    ]

    send_items : Bool → Option ℤ → List BundleItem → Text → Sender fl → Io (Unit {0}) × Sender fl
    send_items use_compress level [] mask s = (ok tt, s)
    send_items use_compress level (b ∷ bs) mask s =
        let rest = send_items use_compress level bs (rest_mask mask) in
        let item = send_item use_compress level b >> rest in
        let t = count_offered s in if first_wanted mask then item t else rest (count_skipped t)

    read_mask : ℕ → Bool → Sender fl → Io (Option Text) × Sender fl
    read_mask count true s = (ok (some (replicate count b'1')), s)
    read_mask count false s = on_conn read_line s

    send_wanted : Bool → List BundleItem → Text → Sender fl → Io (Unit {0}) × Sender fl
    send_wanted use_compress bs mask s =
        send_items use_compress
          (if use_compress then some (Compress.current_level s.state) else none) bs mask s

    answer_mask : Bool → List BundleItem → Option Text → Sender fl → Io Bool × Sender fl
    answer_mask use_compress bs none = done false
    answer_mask use_compress bs (some mask) = do
      send_wanted use_compress bs mask
      on_conn flush
      done true

    -- `false` means that the client has dropped.
    unfoldable pub send_bundle : List BundleItem → Bool → Bool → Sender fl → Io Bool × Sender fl
    unfolding bundle_header read_mask answer_mask send_wanted send_items send_item read_all put_item
        count_item flush_batch
    send_bundle [] use_compress stream_mode = done true
    send_bundle (b ∷ bs) use_compress stream_mode = do
      modify (queue (put_bytes (bundle_header (b ∷ bs))))
      on_conn flush
      mask ← read_mask (length (b ∷ bs)) stream_mode
      answer_mask use_compress (b ∷ bs) mask
