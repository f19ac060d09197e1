-- ===== src/Server/Pass/Refines.antt =====
-- The pass of the classic mode against the producer of the parallel mode: the same units.
use folder_transfer.Prelude.{
  ℕ, zero, suc, ◌+◌, ◌≡◌, refl, sym, ap, ◌∙◌, ℤ, Bool, true, false, ◌||◌, List, [], ◌∷◌, ◌++◌,
  Option, none, some, leb, length,
}
use folder_transfer.Io.{Io, ok, err}
use folder_transfer.Paths.{FilePath, pop}
use folder_transfer.Ignore.{Regexes, IgnoreSet, is_ignored}
use folder_transfer.Platform.{Floats, Zstd, Clock}
use folder_transfer.Server.{File, Sender}
use folder_transfer.Server.Body.{BundleItem, send_bundle}
use folder_transfer.Server.Walk.{
  small_file, bundle_bytes, bundle_max_count, Tree, nil, file, folder, other, rel_to_base, WorkUnit,
  dir_unit, bundle_unit, large_unit, is_empty, Frame, push_all, push_folders, count_folders, Root,
  Producer, no_work, enqueue, flush_bundle, flush_pending, offer_small, offer_file, take_file,
  take_files, mark_dir, walk_stack, walk_root, walk_roots, producer_walk,
}
use folder_transfer.Server.Pass.{
  Pass, on_sender, offer_large, serve_unit, send_pending, flush_sent, pass_small, pass_file,
  pass_entry, pass_files, pass_dir, pass_stack, pass_roots, run_pass,
}
use folder_transfer.Server.Pass.Follows.{
  pair_eq, after, stopped, dropped, serve_units, Agrees, Ends, Follows, FollowsAll, Follows-nothing,
  Follows-if, Follows-unit, Follows-then,
}

module _ ⦃fl : Floats⦄ ⦃z : Zstd⦄ ⦃clock : Clock fl⦄ (open_file : FilePath → Option File)
    (use_compress : Bool) where
  pending-Ends :
      (r : Io Bool × Sender fl) (p : Pass) (q : Producer)
      → Ends open_file use_compress
          (after
            (r.0, record p { to = r.1 })
            (λ t. (ok true, record t { bundle = []; bbytes = 0 })))
          r
          (flush_bundle q)
  pending-Ends (ok true, s) p q =
      (refl, refl, λ h. record { same_bundle = refl; same_bytes = refl })
  pending-Ends (ok false, s) p q = (refl, refl, λ h. absurd (dropped h))
  pending-Ends (err e, s) p q = (refl, refl, λ h. absurd (stopped h))

  send_pending-Follows :
      FollowsAll open_file use_compress (send_pending open_file use_compress) flush_bundle
  unfolding send_pending serve_unit
  send_pending-Follows p q a =
      Follows-unit open_file use_compress (bundle_unit p.bundle)
        (send_pending open_file use_compress p) (flush_bundle q) p.to q.queued
        (ap (λ b. q.queued ++ bundle_unit b ∷ []) (sym a.same_bundle))
        (pending-Ends (send_bundle open_file p.bundle use_compress false p.to) p q)

  flush_sent-Follows :
      FollowsAll open_file use_compress (flush_sent open_file use_compress) flush_pending
  unfolding flush_sent
  flush_sent-Follows p q a =
      Follows-if open_file use_compress (is_empty p.bundle) (is_empty q.bundle)
        (ap is_empty a.same_bundle) (Follows-nothing open_file use_compress p q a)
        (send_pending-Follows p q a)

  pass_small-Follows :
      (item : BundleItem)
      → FollowsAll open_file use_compress
          (pass_small open_file use_compress item)
          (offer_small item)
  unfolding pass_small offer_small
  pass_small-Follows item p q a =
      let p' : Pass = record p { bundle = p.bundle ++ item ∷ []; bbytes = p.bbytes + item.size } in
      let q' : Producer = record q {
        bundle = q.bundle ++ item ∷ [];
        bbytes = q.bbytes + item.size;
      } in
      let a' : Agrees open_file use_compress p' q' = record {
        same_bundle = ap (λ b. b ++ item ∷ []) a.same_bundle;
        same_bytes = ap (λ n. n + item.size) a.same_bytes;
      } in
      Follows-if open_file use_compress
        (leb bundle_bytes p'.bbytes || leb bundle_max_count (length p'.bundle))
        (leb bundle_bytes q'.bbytes || leb bundle_max_count (length q'.bundle))
        (rw (a'.same_bytes, a'.same_bundle) refl) (send_pending-Follows p' q' a')
        (Follows-nothing open_file use_compress p' q' a')

  sender-Ends :
      (r : Io Bool × Sender fl) (p : Pass) (q : Producer)
      → Agrees open_file use_compress p q
      → Ends open_file use_compress (r.0, record p { to = r.1 }) r q
  sender-Ends r p q a =
      (refl, refl, λ h. record { same_bundle = a.same_bundle; same_bytes = a.same_bytes })

  -- A unit that is served from the sender alone.
  Follows-enqueue :
      (u : WorkUnit) (p : Pass) (q : Producer)
      → Agrees open_file use_compress p q
      → Follows open_file use_compress
          (on_sender (serve_unit open_file use_compress false u) p)
          (enqueue u q)
          p.to
          q.queued
  Follows-enqueue u p q a =
      let r = serve_unit open_file use_compress false u p.to in
      Follows-unit open_file use_compress u (r.0, record p { to = r.1 }) (enqueue u q) p.to q.queued
        refl
        (sender-Ends r p (enqueue u q)
          (record { same_bundle = a.same_bundle; same_bytes = a.same_bytes }))

  offer_large-Follows :
      (item : BundleItem)
      → FollowsAll open_file use_compress
          (on_sender (offer_large open_file use_compress false item))
          (enqueue (large_unit item))
  unfolding serve_unit
  offer_large-Follows item p q a = Follows-enqueue (large_unit item) p q a

  pass_file-Follows :
      (item : BundleItem)
      → FollowsAll open_file use_compress (pass_file open_file use_compress item) (offer_file item)
  unfolding pass_file offer_file
  pass_file-Follows item p q a =
      Follows-if open_file use_compress (leb item.size small_file) (leb item.size small_file) refl
        (pass_small-Follows item p q a)
        (Follows-then open_file use_compress (flush_sent open_file use_compress)
          (on_sender (offer_large open_file use_compress false item)) flush_pending
          (enqueue (large_unit item)) flush_sent-Follows (offer_large-Follows item) p q a)

  module _ ⦃rx : Regexes⦄ (ignore : IgnoreSet rx) (base : FilePath) where
    pass_entry-Follows :
        (full : FilePath) (meta : Option (ℕ × ℤ))
        → FollowsAll open_file use_compress
            (pass_entry open_file use_compress ignore base full meta)
            (take_file ignore base full meta)
    unfolding pass_entry take_file
    pass_entry-Follows full none p q a = Follows-nothing open_file use_compress p q a
    pass_entry-Follows full (some (size, mt)) p q a =
        let rel = rel_to_base base full in
        Follows-if open_file use_compress (is_ignored ignore rel false)
          (is_ignored ignore rel false) refl (Follows-nothing open_file use_compress p q a)
          (pass_file-Follows (record { full = full; rel = rel; size = size; mtime = mt }) p q a)

    pass_files-Follows :
        (at : FilePath) (t : Tree)
        → FollowsAll open_file use_compress
            (pass_files open_file use_compress ignore base at t)
            (take_files ignore base at t)
    unfolding pass_files take_files
    pass_files-Follows at nil p q a = Follows-nothing open_file use_compress p q a
    pass_files-Follows at (file name meta rest) p q a =
        Follows-then open_file use_compress
          (pass_entry open_file use_compress ignore base (at ++ name ∷ []) meta)
          (pass_files open_file use_compress ignore base at rest)
          (take_file ignore base (at ++ name ∷ []) meta) (take_files ignore base at rest)
          (pass_entry-Follows (at ++ name ∷ []) meta) (pass_files-Follows at rest) p q a
    pass_files-Follows at (folder name inside rest) p q a = pass_files-Follows at rest p q a
    pass_files-Follows at (other name rest) p q a = pass_files-Follows at rest p q a

    pass_dir-Follows :
        (at : FilePath)
        → FollowsAll open_file use_compress
            (pass_dir open_file use_compress ignore base at)
            (mark_dir ignore base at)
    unfolding pass_dir mark_dir serve_unit
    pass_dir-Follows at p q a =
        let rel_dir = rel_to_base base at in
        Follows-if open_file use_compress (is_empty rel_dir) (is_empty rel_dir) refl
          (Follows-nothing open_file use_compress p q a) (Follows-enqueue (dir_unit rel_dir) p q a)

    pass_stack-Follows :
        (k : ℕ) (stack : List Frame)
        → FollowsAll open_file use_compress
            (pass_stack open_file use_compress ignore base k stack)
            (walk_stack ignore base k stack)
    unfolding pass_stack walk_stack
    pass_stack-Follows k [] p q a = Follows-nothing open_file use_compress p q a
    pass_stack-Follows zero (f ∷ stack) p q a = Follows-nothing open_file use_compress p q a
    pass_stack-Follows (suc k) ((at, entries, true) ∷ stack) p q a =
        let next = push_all at entries stack in
        Follows-then open_file use_compress (pass_dir open_file use_compress ignore base at)
          (pass_stack open_file use_compress ignore base k next) (mark_dir ignore base at)
          (walk_stack ignore base k next) (pass_dir-Follows at) (pass_stack-Follows k next) p q a
    pass_stack-Follows (suc k) ((at, entries, false) ∷ stack) p q a =
        let next = push_folders ignore base at entries stack in
        Follows-then open_file use_compress
          (pass_files open_file use_compress ignore base at entries)
          (pass_stack open_file use_compress ignore base k next) (take_files ignore base at entries)
          (walk_stack ignore base k next) (pass_files-Follows at entries)
          (pass_stack-Follows k next) p q a

  module _ ⦃rx : Regexes⦄ (ignore : IgnoreSet rx) where
    pass_roots-Follows :
        (roots : List Root)
        → FollowsAll open_file use_compress
            (pass_roots open_file use_compress ignore roots)
            (walk_roots ignore roots)
    unfolding pass_roots walk_roots walk_root
    pass_roots-Follows [] p q a = Follows-nothing open_file use_compress p q a
    pass_roots-Follows ((root, entries) ∷ roots) p q a =
        let fuel = suc (count_folders entries) in
        let start : List Frame = (root, entries, false) ∷ [] in
        Follows-then open_file use_compress
          (pass_stack open_file use_compress ignore (pop root) fuel start)
          (pass_roots open_file use_compress ignore roots) (walk_stack ignore (pop root) fuel start)
          (walk_roots ignore roots) (pass_stack-Follows ignore (pop root) fuel start)
          (pass_roots-Follows roots) p q a

    -- The walk of the classic mode does on its connection exactly what one handler of the parallel mode
    -- without the fresh-fetch shortcut would do with the units of the producer, one after another until
    -- one of them ends with an error or the client drops: the same result and the same state, whatever the
    -- files are and whatever the client sends.
    pub run_pass-serve_units :
        (roots : List Root) (s : Sender fl)
        → run_pass open_file use_compress ignore roots s
          ≡ serve_units open_file use_compress (producer_walk ignore roots) s
    unfolding run_pass producer_walk
    run_pass-serve_units roots s =
        let all =
          Follows-then open_file use_compress (pass_roots open_file use_compress ignore roots)
            (flush_sent open_file use_compress) (walk_roots ignore roots) flush_pending
            (pass_roots-Follows roots) flush_sent-Follows
            (record { to = s; bundle = []; bbytes = 0 }) no_work
            (record { same_bundle = refl; same_bytes = refl }) in
        pair_eq all.result all.to
        ∙ ap (λ us. serve_units open_file use_compress us s) (sym all.queued)
