-- ===== src/Tests/Receiving.antt =====
-- The client's side on small inputs.
use folder_transfer.Prelude.{
  ℕ, List, length, ◌<◌, ◌≡◌, ◌⊎◌, inl, refl, pos, true, false, [], ◌∷◌, ◌++◌, none, some, arith,
}
use folder_transfer.Text.{Text, codes, text_eq}
use folder_transfer.Io.{ok, err, connection}
use folder_transfer.Wire.{read_line, Transfer, copy_exact_to_writer}
use folder_transfer.Wire.Lines.{IsLine-plain, read_line-line}
use folder_transfer.Protocol.Chunks.{copy_whole, copy_exact_to_writer-copy_whole}
use folder_transfer.Paths.{FilePath, safe_join, root_prefix}
use folder_transfer.Paths.Safety.{IsPath, safe_join-inside}
use folder_transfer.Ignore.{Regexes, IgnoreSet, parse}
use folder_transfer.Fs.{Node, file, dir, Fs, metadata}
use folder_transfer.Progress.{no_progress}
use folder_transfer.Client.{Client, need_fetch, Stats, no_stats, Mirror, no_mirror}
use folder_transfer.Client.Items.{write_bundle_file}
use folder_transfer.Client.Items.Kept.{write_bundle_file-kept}
use folder_transfer.Mtime.{ticks_to_systemtime}
use folder_transfer.Client.Delete.{Deleting, mirror_delete, is_kept}
use folder_transfer.Client.Delete.Safety.{mirror_delete-keeps}
use folder_transfer.Client.Run.{
  WorkerStat, connected, serve_units, finish_parallel, run_passes, run_single,
}
use folder_transfer.Client.Run.Outcome.{
  finish_parallel-unclean, run_single-closed, serve_units-lost,
}
use folder_transfer.Tests.{toy_zstd, quiet}
use folder_transfer.Tests.Serving.{toy_regexes}

read_line-line_example :
    read_line (quiet (codes "DONE" ++ 10 ∷ 7 ∷ [])) ≡ (ok (some (codes "DONE")), quiet (7 ∷ []))
read_line-line_example =
    read_line-line (codes "DONE") (7 ∷ []) (quiet (codes "DONE" ++ 10 ∷ 7 ∷ []))
      (IsLine-plain (codes "DONE") (omega arith)) refl

-- Three bytes are asked for where two are left.
abbrev two_left : Transfer
two_left = record {
  conn = quiet (7 ∷ 8 ∷ []);
  out = record { written = 9 ∷ []; accepts = λ b. true };
  reported = 0;
}

copy_example :
    (copy_exact_to_writer 3 two_left ≡ copy_whole 3 two_left)
    ⊎ ((length two_left.conn.input < 3)
        × ((copy_exact_to_writer 3 two_left).0 ≡ (copy_whole 3 two_left).0)
        × ((copy_exact_to_writer 3 two_left).1.conn ≡ (copy_whole 3 two_left).1.conn))
copy_example = copy_exact_to_writer-copy_whole 3 two_left (λ b. refl)

abbrev pub dest : FilePath
dest = codes "d" ∷ []

abbrev target : FilePath
target = codes "d" ∷ codes "a" ∷ codes "b" ∷ []

pub dest-IsPath : IsPath dest
unfolding folder_transfer.Text.contains_char
dest-IsPath = (λ h. cc, refl, λ h. cc, λ h. cc, tt)

joined : safe_join dest (root_prefix dest) (codes "x/../a/b") ≡ some target
unfolding safe_join folder_transfer.Text.starts_with root_prefix folder_transfer.Paths.walk_segments
    folder_transfer.Text.split folder_transfer.Paths.enter text_eq folder_transfer.Paths.pop
joined = refl

safe_join-inside_example :
    IsPath target × ((dest ≡ []) ⊎ ((s : Text) × (rest : FilePath) × (target ≡ dest ++ s ∷ rest)))
safe_join-inside_example = safe_join-inside dest (codes "x/../a/b") target dest-IsPath joined

abbrev pub disk : Fs
disk = record {
  nodes = (dest, dir) ∷ (codes "d" ∷ codes "a" ∷ [], dir) ∷ (target, file (1 ∷ []) (pos 3)) ∷ [];
  permits = λ p. true;
  dates = λ p. true;
  accepts = λ b. true;
  now = pos 9;
}

abbrev seen_target : Mirror
seen_target = record { seen = codes "/d/a/b" ∷ []; roots = (codes "d" ∷ codes "a" ∷ []) ∷ [] }

abbrev nothing_ignored : IgnoreSet toy_regexes
nothing_ignored = parse []

mirror_example :
    metadata target
      (mirror_delete
        (codes "/d/")
        nothing_ignored
        seen_target
        (record { fs = disk; stats = no_stats })).fs
    ≡ some (file (1 ∷ []) (pos 3))
unfolding folder_transfer.Ignore.is_ignored folder_transfer.Ignore.normalise
    folder_transfer.Paths.to_text folder_transfer.Ignore.any_matches parse
    folder_transfer.Text.Trim.trim folder_transfer.Client.Delete.contains_seen
    folder_transfer.Text.contains_text folder_transfer.Paths.norm_key metadata
mirror_example =
    mirror_delete-keeps (codes "/d/") nothing_ignored seen_target target
      (record { fs = disk; stats = no_stats }) (inl refl)

-- With nothing seen the file goes.
mirror_deletes :
    metadata target
      (mirror_delete
        (codes "/d/")
        nothing_ignored
        (record seen_target { seen = [] })
        (record { fs = disk; stats = no_stats })).fs
    ≡ none
unfolding metadata mirror_delete folder_transfer.Client.Delete.delete_roots
    folder_transfer.Fs.is_dir folder_transfer.Client.Delete.delete_unseen
    folder_transfer.Client.Delete.delete_entries folder_transfer.Client.Delete.entries
    folder_transfer.Client.Delete.is_entry folder_transfer.Client.Delete.delete_file
    folder_transfer.Ignore.is_ignored folder_transfer.Ignore.normalise folder_transfer.Paths.to_text
    folder_transfer.Ignore.any_matches parse folder_transfer.Text.Trim.trim
    folder_transfer.Client.Delete.contains_seen folder_transfer.Text.contains_text
    folder_transfer.Client.Delete.remove_file folder_transfer.Fs.remove folder_transfer.Fs.path_eq
    folder_transfer.Fs.find folder_transfer.Paths.norm_key text_eq
mirror_deletes = refl

abbrev pub client : Client
client = record {
  conn = quiet [];
  fs = disk;
  mir = seen_target;
  stats = no_stats;
  prog = no_progress;
}

abbrev bad : WorkerStat
bad = record { ok = false; stats = no_stats }

unclean_example :
    finish_parallel (codes "/d/") nothing_ignored (some bad ∷ none ∷ []) client
    ≡ (err connection, client)
unfolding connected
unclean_example =
    finish_parallel-unclean (codes "/d/") nothing_ignored (some bad ∷ none ∷ []) client bad
      (inl refl) refl

closed_example :
    ((run_passes dest (codes "/d/") nothing_ignored client).0 ≡ ok false)
    × ((run_single dest (codes "/d/") nothing_ignored client).0 ≡ ok no_stats)
closed_example = run_single-closed dest (codes "/d/") nothing_ignored client refl refl (λ b. refl)

abbrev offered_time : ℕ
offered_time = 637450560000000000

abbrev offering : Client
offering = record client { conn = quiet (7 ∷ 8 ∷ []) }

bundle_received : (write_bundle_file (codes "R 2") target (pos offered_time) offering).0 ≡ ok tt
unfolding write_bundle_file folder_transfer.Fs.parent folder_transfer.Fs.create_dir_all metadata
    folder_transfer.Fs.create folder_transfer.Client.Items.receive_into
    folder_transfer.Client.Receive.recv_bundle_file folder_transfer.Text.split
    folder_transfer.Client.Receive.recv_raw folder_transfer.Wire.copy_exact_to_writer
    folder_transfer.Wire.copy_chunks folder_transfer.Text.Number.parse_u64
    folder_transfer.Wire.read_exact folder_transfer.Wire.write_all
bundle_received = refl

kept_example :
    (content : List ℕ) × (metadata target
        (write_bundle_file (codes "R 2") target (pos offered_time) offering).1.fs
      ≡ some (file content (ticks_to_systemtime (pos offered_time))))
    × (need_fetch target
          (length content)
          (pos offered_time)
          (write_bundle_file (codes "R 2") target (pos offered_time) offering).1.fs
        ≡ false)
kept_example =
    write_bundle_file-kept (codes "R 2") target offered_time offering (omega arith) refl
      bundle_received

lost_example : (serve_units dest (codes "/d/") true client).0.ok ≡ true
lost_example = serve_units-lost dest (codes "/d/") true client refl (λ b. refl)
