-- ===== src/Server/Walk/Bundles.antt =====
-- Which units the producer puts into the queue: their sizes.
use folder_transfer.Prelude.{
  ℕ, zero, suc, ◌+◌, ◌≤◌, ◌<◌, ◌≡◌, ◌≢◌, refl, ◌⊎◌, ℤ, true, false, ◌||◌, List, [], ◌∷◌, ◌++◌,
  Option, none, some, leb, leb→le, leb_not, or_false, arith, length, length-append, Bool-cases, inl,
  inr,
}
use folder_transfer.Text.{Text}
use folder_transfer.Paths.{FilePath, pop}
use folder_transfer.Ignore.{Regexes, IgnoreSet, is_ignored}
use folder_transfer.Server.Body.{BundleItem}
use folder_transfer.Server.Walk.{
  small_file, bundle_bytes, bundle_max_count, Tree, nil, file, folder, other, rel_to_base, WorkUnit,
  dir_unit, bundle_unit, large_unit, Producer, no_work, enqueue, flush_bundle, is_empty,
  flush_pending, offer_small, offer_file, Frame, push_all, push_folders, take_file, take_files,
  mark_dir, walk_stack, count_folders, Root, walk_root, walk_roots, producer_walk,
}

abbrev pub total_size : List BundleItem → ℕ
total_size [] = 0
total_size (b ∷ bs) = b.size + total_size bs

abbrev pub AreSmall : List BundleItem → Type 0
AreSmall [] = Unit {0}
AreSmall (b ∷ bs) = (b.size ≤ small_file) × AreSmall bs

pub record IsBundle (items : List BundleItem) : Type 0 where
  pub filled : 0 < length items
  pub count : length items ≤ bundle_max_count
  pub bytes : total_size items < bundle_bytes + small_file
  pub small : AreSmall items

-- A bundle within the limits, a large file that is none of a bundle's, a directory with a name.
abbrev pub IsUnit : WorkUnit → Type 0
IsUnit (dir_unit rel) = rel ≢ []
IsUnit (bundle_unit items) = IsBundle items
IsUnit (large_unit item) = small_file < item.size

abbrev pub AreUnits : List WorkUnit → Type 0
AreUnits [] = Unit {0}
AreUnits (u ∷ us) = IsUnit u × AreUnits us

pub record IsValid (p : Producer) : Type 0 where
  pub small : AreSmall p.bundle
  pub counted : p.bbytes ≡ total_size p.bundle
  pub bytes : p.bbytes < bundle_bytes
  pub count : length p.bundle < bundle_max_count
  pub units : AreUnits p.queued

AreUnits-snoc :
    (us : List WorkUnit) (u : WorkUnit) → AreUnits us → IsUnit u → AreUnits (us ++ u ∷ [])
AreUnits-snoc [] u h g = (g, tt)
AreUnits-snoc (v ∷ us) u (a, h) g = (a, AreUnits-snoc us u h g)

AreSmall-snoc :
    (bs : List BundleItem) (b : BundleItem)
    → AreSmall bs
    → b.size ≤ small_file
    → AreSmall (bs ++ b ∷ [])
AreSmall-snoc [] b h g = (g, tt)
AreSmall-snoc (c ∷ bs) b (a, h) g = (a, AreSmall-snoc bs b h g)

total_size-snoc :
    (bs : List BundleItem) (b : BundleItem) → total_size (bs ++ b ∷ []) ≡ total_size bs + b.size
total_size-snoc [] b = omega arith
total_size-snoc (c ∷ bs) b = omega (arith, total_size-snoc bs b)

is_empty_or_filled :
    (bs : List BundleItem) → (is_empty bs ≡ true) ⊎ ((is_empty bs ≡ false) × (0 < length bs))
is_empty_or_filled [] = inl refl
is_empty_or_filled (b ∷ bs) = inr (refl, omega arith)

is_empty_text : (t : Text) → (is_empty t ≡ true) ⊎ ((is_empty t ≡ false) × (t ≢ []))
is_empty_text [] = inl refl
is_empty_text (c ∷ t) = inr (refl, λ h. cc)

flush_bundle-IsValid :
    (p : Producer) → IsBundle p.bundle → AreUnits p.queued → IsValid (flush_bundle p)
flush_bundle-IsValid p b u = record {
  small = tt;
  counted = refl;
  bytes = omega arith;
  count = omega arith;
  units = AreUnits-snoc p.queued (bundle_unit p.bundle) u b;
}

flush_pending-IsValid : (p : Producer) → IsValid p → IsValid (flush_pending p)
flush_pending-IsValid p v = elim (is_empty_or_filled p.bundle) [
  | inl nothing ↦ rw nothing v
  | inr (pending, filled) ↦
      let b : IsBundle p.bundle = record {
        filled = filled;
        count = omega (arith, v.count);
        bytes = omega (arith, v.counted, v.bytes);
        small = v.small;
      } in
      rw pending (flush_bundle-IsValid p b v.units)
]

enqueue-IsValid : (u : WorkUnit) (p : Producer) → IsUnit u → IsValid p → IsValid (enqueue u p)
enqueue-IsValid u p g v = record {
  small = v.small;
  counted = v.counted;
  bytes = v.bytes;
  count = v.count;
  units = AreUnits-snoc p.queued u v.units g;
}

offer_small-IsValid :
    (item : BundleItem) (p : Producer)
    → item.size ≤ small_file
    → IsValid p
    → IsValid (offer_small item p)
unfolding offer_small
offer_small-IsValid item p s v =
    let more = p.bundle ++ item ∷ [] in
    let size = total_size-snoc p.bundle item in
    let count = length-append p.bundle (item ∷ []) in
    let small = AreSmall-snoc p.bundle item v.small s in
    elim (Bool-cases
      (leb bundle_bytes (p.bbytes + item.size) || leb bundle_max_count (length more))) [
        | inl full ↦
            let b : IsBundle more = record {
              filled = omega (arith, count);
              count = omega (arith, count, v.count);
              bytes = omega (arith, size, v.counted, v.bytes);
              small = small;
            } in
            rw full (
              flush_bundle-IsValid (record p { bundle = more; bbytes = p.bbytes + item.size }) b
                v.units)
        | inr room ↦
            let (small_yet, few_yet) =
              or_false (leb bundle_bytes (p.bbytes + item.size))
                (leb bundle_max_count (length more)) room in
            rw room (record {
              small = small;
              counted = omega (arith, size, v.counted);
              bytes = leb_not bundle_bytes (p.bbytes + item.size) small_yet;
              count = leb_not bundle_max_count (length more) few_yet;
              units = v.units;
            })
      ]

offer_file-IsValid : (item : BundleItem) (p : Producer) → IsValid p → IsValid (offer_file item p)
unfolding offer_file
offer_file-IsValid item p v = elim (Bool-cases (leb item.size small_file)) [
  | inl s ↦ rw s (offer_small-IsValid item p (leb→le item.size small_file s) v)
  | inr large ↦ rw large (
      enqueue-IsValid (large_unit item) (flush_pending p) (leb_not item.size small_file large)
        (flush_pending-IsValid p v))
]

module _ ⦃rx : Regexes⦄ (ignore : IgnoreSet rx) (base : FilePath) where
  mark_dir-IsValid :
      (at : FilePath) (p : Producer) → IsValid p → IsValid (mark_dir ignore base at p)
  unfolding mark_dir
  mark_dir-IsValid at p v = elim (is_empty_text (rel_to_base base at)) [
    | inl nothing ↦ rw nothing v
    | inr (named, some_name) ↦
        rw named (enqueue-IsValid (dir_unit (rel_to_base base at)) p some_name v)
  ]

  take_file-IsValid :
      (full : FilePath) (meta : Option (ℕ × ℤ)) (p : Producer)
      → IsValid p
      → IsValid (take_file ignore base full meta p)
  unfolding take_file
  take_file-IsValid full none p v = v
  take_file-IsValid full (some (size, mt)) p v =
      let item : BundleItem = record {
        full = full;
        rel = rel_to_base base full;
        size = size;
        mtime = mt;
      } in
      elim (Bool-cases (is_ignored ignore (rel_to_base base full) false)) [
        | inl hidden ↦ rw hidden v
        | inr offered ↦ rw offered (offer_file-IsValid item p v)
      ]

  take_files-IsValid :
      (at : FilePath) (t : Tree) (p : Producer)
      → IsValid p
      → IsValid (take_files ignore base at t p)
  unfolding take_files
  take_files-IsValid at nil p v = v
  take_files-IsValid at (file name meta rest) p v =
      take_files-IsValid at rest (take_file ignore base (at ++ name ∷ []) meta p)
        (take_file-IsValid (at ++ name ∷ []) meta p v)
  take_files-IsValid at (folder name inside rest) p v = take_files-IsValid at rest p v
  take_files-IsValid at (other name rest) p v = take_files-IsValid at rest p v

  walk_stack-IsValid :
      (k : ℕ) (stack : List Frame) (p : Producer)
      → IsValid p
      → IsValid (walk_stack ignore base k stack p)
  unfolding walk_stack
  walk_stack-IsValid k [] p v = v
  walk_stack-IsValid zero (f ∷ stack) p v = v
  walk_stack-IsValid (suc k) ((at, entries, true) ∷ stack) p v =
      walk_stack-IsValid k (push_all at entries stack) (mark_dir ignore base at p)
        (mark_dir-IsValid at p v)
  walk_stack-IsValid (suc k) ((at, entries, false) ∷ stack) p v =
      walk_stack-IsValid k (push_folders ignore base at entries stack)
        (take_files ignore base at entries p) (take_files-IsValid at entries p v)

no_work-IsValid : IsValid no_work
no_work-IsValid = record {
  small = tt;
  counted = refl;
  bytes = omega arith;
  count = omega arith;
  units = tt;
}

module _ ⦃rx : Regexes⦄ (ignore : IgnoreSet rx) where
  walk_roots-IsValid :
      (roots : List Root) (p : Producer) → IsValid p → IsValid (walk_roots ignore roots p)
  unfolding walk_roots walk_root
  walk_roots-IsValid [] p v = v
  walk_roots-IsValid ((root, entries) ∷ roots) p v =
      walk_roots-IsValid roots (walk_root ignore (root, entries) p) (
        walk_stack-IsValid ignore (pop root) (suc (count_folders entries))
          ((root, entries, false) ∷ []) p v)

  -- Every unit that the producer queues, whatever the folders hold: a bundle is not empty, has at most
  -- 4096 files, each of at most 1 MiB, and less than 11 MiB in all; a file on its own is larger than
  -- 1 MiB; a directory has a name.
  pub producer_walk-AreUnits : (roots : List Root) → AreUnits (producer_walk ignore roots)
  unfolding producer_walk
  producer_walk-AreUnits roots =
      (flush_pending-IsValid (walk_roots ignore roots no_work)
        (walk_roots-IsValid roots no_work no_work-IsValid)).units
