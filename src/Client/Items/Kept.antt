-- ===== src/Client/Items/Kept.antt =====
-- A file that was received is not fetched again.
use folder_transfer.Prelude.{
  ℕ, ◌*◌, ◌≤◌, ◌≡◌, ◌≢◌, refl, sym, ap, ◌∙◌, ℤ, pos, true, false, List, [], ◌∷◌, some, length, ◌==◌,
  arith,
}
use folder_transfer.Text.{Text}
use folder_transfer.Io.{Io, ok, err, IoError, disk, continue, modify, ◌>>◌, ◌>>=◌}
use folder_transfer.Wire.{Transfer}
use folder_transfer.Mtime.{SystemTime, ticks_to_systemtime, epoch_diff_secs, ticks_per_sec}
use folder_transfer.Mtime.RoundTrip.{systemtime_to_ticks-ticks_to_systemtime}
use folder_transfer.Paths.{FilePath}
use folder_transfer.Fs.{Node, file, Fs, metadata, fill, set_modified, create, put_node}
use folder_transfer.Fs.Laws.{path_eq_iff, find-put, dates-create, dates-create_dir_all}
use folder_transfer.Platform.{Zstd}
use folder_transfer.Progress.{add}
use folder_transfer.Client.{Client, on_fs, eq_ℤ, need_fetch}
use folder_transfer.Client.Receive.{recv_bundle_file}
use folder_transfer.Client.Items.{
  count_got, make_parent, receive_into, set_ticks, write_bundle_file,
}

metadata-put :
    (t : Text) (q : FilePath) (n : Node) (fs : Fs)
    → metadata (t ∷ q) (put_node (t ∷ q) n fs) ≡ some n
unfolding metadata
metadata-put t q n fs =
    find-put (t ∷ q) (t ∷ q) n fs.nodes ∙ rw ((path_eq_iff (t ∷ q) (t ∷ q)).1 refl) refl

set_modified-file :
    (p : FilePath) (time : SystemTime) (fs : Fs) {content : List ℕ} {old : SystemTime}
    → fs.dates p ≡ true
    → metadata p fs ≡ some (file content old)
    → set_modified p time fs ≡ put_node p (file content time) fs
unfolding set_modified
set_modified-file p time fs d e = rw (e, set_modified) (rw d refl)

eq_ℤ-same : (a : ℤ) → eq_ℤ a a ≡ true
unfolding eq_ℤ
eq_ℤ-same a = ground arith

same_number : (n : ℕ) → (n == n) ≡ true
same_number n = ground arith

metadata-set_modified :
    (t : Text) (q : FilePath) (content : List ℕ) (time : SystemTime) (fs : Fs)
    → fs.dates (t ∷ q) ≡ true
    → metadata (t ∷ q) (set_modified (t ∷ q) time (fill (t ∷ q) content fs))
      ≡ some (file content time)
unfolding fill
metadata-set_modified t q content time fs d =
    let filled = put_node (t ∷ q) (file content fs.now) fs in
    ap (metadata (t ∷ q))
      (set_modified-file (t ∷ q) time filled d (metadata-put t q (file content fs.now) fs))
    ∙ metadata-put t q (file content time) filled

need_fetch-same :
    (p : FilePath) (content : List ℕ) (n : ℕ) (fs : Fs)
    → epoch_diff_secs * ticks_per_sec ≤ n
    → metadata p fs ≡ some (file content (ticks_to_systemtime (pos n)))
    → need_fetch p (length content) (pos n) fs ≡ false
unfolding need_fetch
need_fetch-same p content n fs late e =
    rw (e, need_fetch)
      (rw (same_number (length content))
        (rw (systemtime_to_ticks-ticks_to_systemtime n late) (rw (eq_ℤ-same (pos n)) refl)))

dates-make_parent : (p q : FilePath) (s : Client) → (make_parent q s).1.fs.dates p ≡ s.fs.dates p
unfolding make_parent
dates-make_parent p q s = grind (arith, dates-create_dir_all)

failed : {e : IoError} → ◌≢◌ {A = Io (Unit {0})} (err e) (ok tt)
failed h = cc

-- What stands at a path once it was received: a file, with the time that was offered.
abbrev Received : FilePath → ℤ → Client → Type 0
Received p mt s =
    (content : List ℕ) × (metadata p s.fs ≡ some (file content (ticks_to_systemtime mt)))

module _ ⦃z : Zstd⦄ (t : Text) (q : FilePath) (mt : ℤ) where
  abbrev finish : ℕ → Client → Io (Unit {0}) × Client
  finish n = do
    modify (set_ticks (t ∷ q) mt)
    modify (λ s. count_got n (record s { prog = add n 1 s.prog }))

  after_receive :
      (r : Io ℕ) (s : Client) (content : List ℕ) (base : Fs)
      → s.fs ≡ fill (t ∷ q) content base
      → base.dates (t ∷ q) ≡ true
      → (continue r finish s).0 ≡ ok tt
      → Received (t ∷ q) mt (continue r finish s).1
  after_receive (err e) s content base f d h = absurd (failed h)
  after_receive (ok n) s content base f d h = (
    content,
    ap (λ fs. metadata (t ∷ q) (set_modified (t ∷ q) (ticks_to_systemtime mt) fs)) f
        ∙ metadata-set_modified t q content (ticks_to_systemtime mt) base d,
  )

  module _ (recv : Transfer → Io ℕ × Transfer) where
    after_create :
        (r : Io (Unit {0})) (s : Client)
        → s.fs.dates (t ∷ q) ≡ true
        → (continue r (λ _. receive_into (t ∷ q) recv >>= finish) s).0 ≡ ok tt
        → Received (t ∷ q) mt (continue r (λ _. receive_into (t ∷ q) recv >>= finish) s).1
    unfolding receive_into
    after_create (err e) s d h = absurd (failed h)
    after_create (ok u) s d h =
        let start : Transfer = record {
          conn = s.conn;
          out = record { written = []; accepts = s.fs.accepts };
          reported = 0;
        } in
        after_receive (recv start).0 (receive_into (t ∷ q) recv s).1 (recv start).1.out.written s.fs
          refl d h

    after_parent :
        (r : Io (Unit {0})) (s : Client)
        → s.fs.dates (t ∷ q) ≡ true
        → (continue r (λ _. on_fs (create (t ∷ q)) >> (receive_into (t ∷ q) recv >>= finish)) s).0
          ≡ ok tt
        → Received
            (t ∷ q)
            mt
            (continue r (λ _. on_fs (create (t ∷ q)) >> (receive_into (t ∷ q) recv >>= finish)) s).1
    after_parent (err e) s d h = absurd (failed h)
    after_parent (ok u) s d h =
        after_create (create (t ∷ q) s.fs).0 (on_fs (create (t ∷ q)) s).1
          (dates-create (t ∷ q) (t ∷ q) s.fs ∙ d) h

module _ ⦃z : Zstd⦄ where
  -- The root is no file.
  root_fails : (hdr : Text) (mt : ℤ) (s : Client) → (write_bundle_file hdr [] mt s).0 ≡ err disk
  unfolding write_bundle_file create
  root_fails hdr mt s = refl

  write_bundle_file-Received :
      (hdr : Text) (p : FilePath) (mt : ℤ) (s : Client)
      → s.fs.dates p ≡ true
      → (write_bundle_file hdr p mt s).0 ≡ ok tt
      → Received p mt (write_bundle_file hdr p mt s).1
  unfolding write_bundle_file
  write_bundle_file-Received hdr [] mt s d h = absurd (failed (sym (root_fails hdr mt s) ∙ h))
  write_bundle_file-Received hdr (t ∷ q) mt s d h =
      after_parent t q mt (recv_bundle_file hdr) (make_parent (t ∷ q) s).0 (make_parent (t ∷ q) s).1
        (dates-make_parent (t ∷ q) (t ∷ q) s ∙ d) h

  -- A bundled file that the client has written without an error, with an offered time from 1970 on, where the system
  -- lets the file's time be set: a file stands at its path, and the next offer of as many bytes with the same time is declined.
  pub write_bundle_file-kept :
      (hdr : Text) (p : FilePath) (n : ℕ) (s : Client)
      → epoch_diff_secs * ticks_per_sec ≤ n
      → s.fs.dates p ≡ true
      → (write_bundle_file hdr p (pos n) s).0 ≡ ok tt
      → (content : List ℕ) × (metadata p (write_bundle_file hdr p (pos n) s).1.fs
          ≡ some (file content (ticks_to_systemtime (pos n))))
        × (need_fetch p (length content) (pos n) (write_bundle_file hdr p (pos n) s).1.fs ≡ false)
  write_bundle_file-kept hdr p n s late d h =
      let (content, stands) = write_bundle_file-Received hdr p (pos n) s d h in
      (
        content,
        stands,
        need_fetch-same p content n (write_bundle_file hdr p (pos n) s).1.fs late stands,
      )
