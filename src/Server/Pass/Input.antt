-- ===== src/Server/Pass/Input.antt =====
-- rust/src/server.rs: what a pass and a unit of work take from the connection.
use folder_transfer.Prelude.{
  ℕ, zero, suc, Bool, true, false, ℤ, pos, negsuc, List, [], ◌∷◌, Option, none, some, arith, length,
}
use folder_transfer.Text.{Text}
use folder_transfer.Io.Size.{Shrinks}
use folder_transfer.Wire.Input.{send_line-Shrinks, read_line_size}
use folder_transfer.Paths.{FilePath}
use folder_transfer.Ignore.{Regexes, IgnoreSet}
use folder_transfer.Platform.{Floats, Zstd, Clock}
use folder_transfer.Server.{File}
use folder_transfer.Server.Input.{sender_size}
use folder_transfer.Server.Body.{BundleItem}
use folder_transfer.Server.Body.Input.{send_large_file-Shrinks, send_bundle-Shrinks}
use folder_transfer.Server.Walk.{
  Tree, nil, file, folder, other, WorkUnit, dir_unit, bundle_unit, large_unit, Frame, Root,
}
use folder_transfer.Server.Pass.{
  Pass, read_offset, send_opened, send_from, offer_large, send_dir, serve_unit, send_pending,
  flush_sent, pass_small, pass_file, pass_entry, pass_files, pass_dir, pass_stack, pass_roots,
  run_pass, send_pass,
}

module _ ⦃fl : Floats⦄ where
  abbrev pub pass_size : Pass → ℕ
  pass_size p = length p.to.conn.input

  read_offset-Shrinks : (stream_mode : Bool) → Shrinks sender_size (read_offset stream_mode)
  unfolding read_offset
  read_offset-Shrinks true s = omega arith
  read_offset-Shrinks false s = ground (arith, read_line_size s.conn)

module _ ⦃fl : Floats⦄ ⦃z : Zstd⦄ ⦃clock : Clock fl⦄ (open_file : FilePath → Option File)
    (use_compress : Bool) where
  send_opened-Shrinks :
      (item : BundleItem) (f : Option File) (offset : ℕ)
      → Shrinks sender_size (send_opened open_file use_compress item f offset)
  unfolding send_opened
  send_opened-Shrinks item none offset s = grind (arith, send_line-Shrinks)
  send_opened-Shrinks item (some f) offset s = grind (arith, send_large_file-Shrinks)

  send_from-Shrinks :
      (item : BundleItem) (offset : Option ℤ)
      → Shrinks sender_size (send_from open_file use_compress item offset)
  unfolding send_from
  send_from-Shrinks item none s = omega arith
  send_from-Shrinks item (some (negsuc n)) s = omega arith
  send_from-Shrinks item (some (pos offset)) s =
      send_opened-Shrinks item (open_file item.full) offset s

  offer_large-Shrinks :
      (stream_mode : Bool) (item : BundleItem)
      → Shrinks sender_size (offer_large open_file use_compress stream_mode item)
  unfolding offer_large
  offer_large-Shrinks stream_mode item s =
      grind (arith, send_line-Shrinks, read_offset-Shrinks, send_from-Shrinks)

  send_dir-Shrinks : (rel : Text) → Shrinks sender_size (send_dir open_file use_compress rel)
  unfolding send_dir
  send_dir-Shrinks rel s = grind (arith, send_line-Shrinks)

  pub serve_unit-Shrinks :
      (stream_mode : Bool) (u : WorkUnit)
      → Shrinks sender_size (serve_unit open_file use_compress stream_mode u)
  unfolding serve_unit
  serve_unit-Shrinks stream_mode (dir_unit rel) s = send_dir-Shrinks rel s
  serve_unit-Shrinks stream_mode (bundle_unit items) s =
      send_bundle-Shrinks open_file use_compress items stream_mode s
  serve_unit-Shrinks stream_mode (large_unit item) s = offer_large-Shrinks stream_mode item s

  send_pending-Shrinks : Shrinks pass_size (send_pending open_file use_compress)
  unfolding send_pending
  send_pending-Shrinks p = grind (arith, send_bundle-Shrinks open_file use_compress)

  flush_sent-Shrinks : Shrinks pass_size (flush_sent open_file use_compress)
  unfolding flush_sent
  flush_sent-Shrinks p = grind (arith, send_pending-Shrinks)

  pass_small-Shrinks :
      (item : BundleItem) → Shrinks pass_size (pass_small open_file use_compress item)
  unfolding pass_small
  pass_small-Shrinks item p = grind (arith, send_pending-Shrinks)

  pass_file-Shrinks :
      (item : BundleItem) → Shrinks pass_size (pass_file open_file use_compress item)
  unfolding pass_file
  pass_file-Shrinks item p =
      grind (arith, pass_small-Shrinks, flush_sent-Shrinks, offer_large-Shrinks)

  module _ ⦃rx : Regexes⦄ (ignore : IgnoreSet rx) where
    module _ (base : FilePath) where
      pass_entry-Shrinks :
          (full : FilePath) (meta : Option (ℕ × ℤ))
          → Shrinks pass_size (pass_entry open_file use_compress ignore base full meta)
      unfolding pass_entry
      pass_entry-Shrinks full none p = omega arith
      pass_entry-Shrinks full (some (size, mt)) p = grind (arith, pass_file-Shrinks)

      pass_files-Shrinks :
          (at : FilePath) (entries : Tree)
          → Shrinks pass_size (pass_files open_file use_compress ignore base at entries)
      unfolding pass_files
      pass_files-Shrinks at nil p = omega arith
      pass_files-Shrinks at (file name meta rest) p =
          grind (arith, pass_entry-Shrinks, pass_files-Shrinks at rest)
      pass_files-Shrinks at (folder name inside rest) p = pass_files-Shrinks at rest p
      pass_files-Shrinks at (other name rest) p = pass_files-Shrinks at rest p

      pass_dir-Shrinks :
          (at : FilePath) → Shrinks pass_size (pass_dir open_file use_compress ignore base at)
      unfolding pass_dir
      pass_dir-Shrinks at p = grind (arith, send_dir-Shrinks)

      pass_stack-Shrinks :
          (k : ℕ) (stack : List Frame)
          → Shrinks pass_size (pass_stack open_file use_compress ignore base k stack)
      unfolding pass_stack
      pass_stack-Shrinks k [] p = omega arith
      pass_stack-Shrinks zero (f ∷ stack) p = omega arith
      pass_stack-Shrinks (suc k) ((at, entries, true) ∷ stack) p =
          grind (arith, pass_dir-Shrinks, pass_stack-Shrinks k)
      pass_stack-Shrinks (suc k) ((at, entries, false) ∷ stack) p =
          grind (arith, pass_files-Shrinks, pass_stack-Shrinks k)

    pass_roots-Shrinks :
        (roots : List Root) → Shrinks pass_size (pass_roots open_file use_compress ignore roots)
    unfolding pass_roots
    pass_roots-Shrinks [] p = omega arith
    pass_roots-Shrinks ((root, entries) ∷ roots) p =
        grind (arith, pass_stack-Shrinks, pass_roots-Shrinks roots)

    run_pass-Shrinks :
        (roots : List Root) → Shrinks sender_size (run_pass open_file use_compress ignore roots)
    unfolding run_pass
    run_pass-Shrinks roots s = grind (arith, pass_roots-Shrinks, flush_sent-Shrinks)

    pub send_pass-Shrinks :
        (roots : List Root) (margin : fl.F)
        → Shrinks sender_size (send_pass open_file use_compress ignore roots margin)
    unfolding send_pass
    send_pass-Shrinks roots margin s = grind (arith, send_line-Shrinks, run_pass-Shrinks)
