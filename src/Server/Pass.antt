-- ===== src/Server/Pass.antt =====
-- rust/src/server.rs: `send_pass`, and what the two modes do with a unit of work.
pub mod Input
pub mod Follows
pub mod Refines
use folder_transfer.Prelude.{
  ℕ, zero, suc, ◌+◌, ℤ, pos, negsuc, Bool, true, false, ◌||◌, List, [], ◌∷◌, ◌++◌, Option, none,
  some, leb, if◌then◌else◌, length,
}
use folder_transfer.Text.{Text, codes}
use folder_transfer.Text.Trim.{trim}
use folder_transfer.Text.Number.{print_nat, print_int, parse_i64}
use folder_transfer.Io.{Io, ok, ◌>>=◌, ◌>>◌, continue, done, modify}
use folder_transfer.Wire.{Conn, send_line, read_line}
use folder_transfer.Paths.{FilePath, dot_ext, pop}
use folder_transfer.Ignore.{Regexes, IgnoreSet, is_ignored}
use folder_transfer.Platform.{Floats, Zstd, Clock}
use folder_transfer.Compress
use folder_transfer.Progress.{no_progress}
use folder_transfer.Server.{File, Sender, no_stats, on_conn}
use folder_transfer.Server.Body.{
  BundleItem, count_offered, count_skipped, send_large_file, send_bundle,
}
use folder_transfer.Server.Walk.{
  small_file, bundle_bytes, bundle_max_count, Tree, nil, file, folder, other, rel_to_base, WorkUnit,
  dir_unit, bundle_unit, large_unit, is_empty, Frame, push_all, push_folders, count_folders, Root,
}

-- `resp.trim().parse().unwrap_or(-1)`
unfoldable pub offset_of : Text → ℤ
offset_of resp = elim (parse_i64 (trim resp)) [ none ↦ negsuc 0 | some n ↦ n ]

-- `F <size> <mtime> <rel>`
abbrev pub large_line : BundleItem → Text
large_line item =
    codes "F " ++ (print_nat item.size ++ b' ' ∷ (print_int item.mtime ++ b' ' ∷ item.rel))

module _ ⦃fl : Floats⦄ where
  abbrev pub offset_reply : Option Text → Sender fl → Io (Option ℤ) × Sender fl
  offset_reply none = done none
  offset_reply (some resp) = done (some (offset_of resp))

  -- A fresh fetch has no reply; `none` means that the client has dropped.
  unfoldable pub read_offset : Bool → Sender fl → Io (Option ℤ) × Sender fl
  read_offset true = done (some (pos 0))
  read_offset false = do resp ← on_conn read_line; offset_reply resp

  -- The walk with the bundle at hand.
  pub record Pass : Type 0 where
    pub to : Sender fl
    pub bundle : List BundleItem
    pub bbytes : ℕ

  abbrev pub on_sender {ℓ} : {A : Type ℓ} → (Sender fl → Io A × Sender fl) → Pass → Io A × Pass
  on_sender m p = let (r, s) = m p.to in (r, record p { to = s })

  -- `if !a { return Ok((false, stats)); } b`
  abbrev pub and_then : {S : Type 0} → (S → Io Bool × S) → (S → Io Bool × S) → S → Io Bool × S
  and_then a b = do more ← a; if more then b else done false

module _ ⦃fl : Floats⦄ ⦃z : Zstd⦄ ⦃clock : Clock fl⦄ (open_file : FilePath → Option File)
    (use_compress : Bool) where
  unfoldable pub send_opened : BundleItem → Option File → ℕ → Sender fl → Io Bool × Sender fl
  send_opened item none offset = do
    on_conn (send_line (codes "-1"))
    modify count_skipped
    done true
  send_opened item (some f) offset = do
    send_large_file f offset (dot_ext item.full) use_compress
    done true

  unfoldable pub send_from : BundleItem → Option ℤ → Sender fl → Io Bool × Sender fl
  send_from item none s = (ok false, s)
  send_from item (some (negsuc n)) s = (ok true, count_skipped s)
  send_from item (some (pos offset)) s = send_opened item (open_file item.full) offset s

  -- A large file: the offer, the offset, the body. `false` means that the client has dropped.
  unfoldable pub offer_large : Bool → BundleItem → Sender fl → Io Bool × Sender fl
  offer_large stream_mode item = do
    on_conn (send_line (large_line item))
    modify count_offered
    offset ← read_offset stream_mode
    send_from item offset

  unfoldable pub send_dir : Text → Sender fl → Io Bool × Sender fl
  send_dir rel = do on_conn (send_line (codes "D " ++ rel)); done true

  -- What a handler of the parallel mode does with a unit.
  unfoldable pub serve_unit : Bool → WorkUnit → Sender fl → Io Bool × Sender fl
  serve_unit stream_mode (dir_unit rel) s = send_dir rel s
  serve_unit stream_mode (bundle_unit items) s =
      send_bundle open_file items use_compress stream_mode s
  serve_unit stream_mode (large_unit item) s = offer_large stream_mode item s

  -- `send_bundle`, `bundle.clear()`, `bundle_bytes = 0`
  unfoldable pub send_pending : Pass → Io Bool × Pass
  send_pending p =
      and_then (on_sender (send_bundle open_file p.bundle use_compress false))
        (λ q. (ok true, record q { bundle = []; bbytes = 0 })) p

  unfoldable pub flush_sent : Pass → Io Bool × Pass
  flush_sent p = if is_empty p.bundle then (ok true, p) else send_pending p

  unfoldable pub pass_small : BundleItem → Pass → Io Bool × Pass
  pass_small item p =
      let q : Pass = record p { bundle = p.bundle ++ item ∷ []; bbytes = p.bbytes + item.size } in
      if leb bundle_bytes q.bbytes || leb bundle_max_count (length q.bundle)
      then send_pending q
      else (ok true, q)

  unfoldable pub pass_file : BundleItem → Pass → Io Bool × Pass
  pass_file item p =
      if leb item.size small_file
      then pass_small item p
      else and_then flush_sent (on_sender (offer_large false item)) p

  module _ ⦃rx : Regexes⦄ (ignore : IgnoreSet rx) (base : FilePath) where
    unfoldable pub pass_entry : FilePath → Option (ℕ × ℤ) → Pass → Io Bool × Pass
    pass_entry full none p = (ok true, p)
    pass_entry full (some (size, mt)) p =
        let rel = rel_to_base base full in
        if is_ignored ignore rel false
        then (ok true, p)
        else pass_file (record { full = full; rel = rel; size = size; mtime = mt }) p

    unfoldable pub pass_files : FilePath → Tree → Pass → Io Bool × Pass
    pass_files at nil p = (ok true, p)
    pass_files at (file name meta rest) p =
        and_then (pass_entry (at ++ name ∷ []) meta) (pass_files at rest) p
    pass_files at (folder name inside rest) p = pass_files at rest p
    pass_files at (other name rest) p = pass_files at rest p

    unfoldable pub pass_dir : FilePath → Pass → Io Bool × Pass
    pass_dir at p =
        let rel_dir = rel_to_base base at in
        if is_empty rel_dir then (ok true, p) else on_sender (send_dir rel_dir) p

    unfoldable pub pass_stack : ℕ → List Frame → Pass → Io Bool × Pass
    pass_stack k [] p = (ok true, p)
    pass_stack zero (f ∷ stack) p = (ok true, p)
    pass_stack (suc k) ((at, entries, true) ∷ stack) p =
        and_then (pass_dir at) (pass_stack k (push_all at entries stack)) p
    pass_stack (suc k) ((at, entries, false) ∷ stack) p =
        and_then (pass_files at entries) (pass_stack k (push_folders ignore base at entries stack))
          p

  module _ ⦃rx : Regexes⦄ (ignore : IgnoreSet rx) where
    unfoldable pub pass_roots : List Root → Pass → Io Bool × Pass
    pass_roots [] p = (ok true, p)
    pass_roots ((root, entries) ∷ roots) p =
        and_then
          (pass_stack ignore (pop root) (suc (count_folders entries)) ((root, entries, false) ∷ []))
          (pass_roots roots) p

    -- A new controller for one stream, new statistics.
    abbrev pub start_pass : fl.F → Sender fl → Sender fl
    start_pass margin s = record s {
      stats = no_stats;
      state = Compress.new margin 1;
      prog = no_progress;
    }

    unfoldable pub run_pass : List Root → Sender fl → Io Bool × Sender fl
    run_pass roots s =
        let (r, p) =
          and_then (pass_roots roots) flush_sent (record { to = s; bundle = []; bbytes = 0 }) in
        (r, p.to)

    unfoldable pub send_pass : List Root → fl.F → Sender fl → Io Bool × Sender fl
    send_pass roots margin s =
        (do on_conn (send_line (codes "T 0")); modify (start_pass margin); run_pass roots) s
