-- ===== src/Server/Walk/Weight.antt =====
-- What the units of a producer weigh, and the pending bundle with them: each step adds the weight of its file.
use folder_transfer.Prelude.{
  ℕ, ◌+◌, ◌≡◌, refl, ◌∙◌, true, ◌||◌, List, [], ◌∷◌, ◌++◌, leb, arith, length, Bool-cases, inl, inr,
}
use folder_transfer.Paths.{FilePath}
use folder_transfer.Ignore.{Regexes, IgnoreSet}
use folder_transfer.Server.Body.{BundleItem}
use folder_transfer.Server.Walk.{
  small_file, bundle_bytes, bundle_max_count, rel_to_base, WorkUnit, dir_unit, bundle_unit,
  large_unit, Producer, flush_bundle, is_empty, flush_pending, offer_small, offer_file, mark_dir,
}

module _ (w : BundleItem → ℕ) where
  abbrev pub sum : List BundleItem → ℕ
  sum [] = 0
  sum (b ∷ bs) = w b + sum bs

  abbrev pub sum_unit : WorkUnit → ℕ
  sum_unit (dir_unit rel) = 0
  sum_unit (bundle_unit items) = sum items
  sum_unit (large_unit item) = w item

  abbrev pub sum_units : List WorkUnit → ℕ
  sum_units [] = 0
  sum_units (u ∷ us) = sum_unit u + sum_units us

  abbrev pub held : Producer → ℕ
  held p = sum_units p.queued + sum p.bundle

  pub sum-append : (xs ys : List BundleItem) → sum (xs ++ ys) ≡ sum xs + sum ys
  sum-append [] ys = omega arith
  sum-append (x ∷ xs) ys = omega (arith, sum-append xs ys)

  pub sum_units-snoc :
      (us : List WorkUnit) (u : WorkUnit) → sum_units (us ++ u ∷ []) ≡ sum_units us + sum_unit u
  sum_units-snoc [] u = omega arith
  sum_units-snoc (v ∷ us) u = omega (arith, sum_units-snoc us u)

  pub held-flush : (p : Producer) → held (flush_bundle p) ≡ held p
  held-flush p = omega (arith, sum_units-snoc p.queued (bundle_unit p.bundle))

  is_empty_nil : (bs : List BundleItem) → is_empty bs ≡ true → bs ≡ []
  is_empty_nil [] h = refl
  is_empty_nil (b ∷ bs) h = cc

  pub pending_cases :
      (p : Producer) → (held (flush_pending p) ≡ held p) × ((flush_pending p).bundle ≡ [])
  pending_cases p = elim (Bool-cases (is_empty p.bundle)) [
    | inl nothing ↦ rw nothing (refl, is_empty_nil p.bundle nothing)
    | inr pending ↦ rw pending (held-flush p, refl)
  ]

  pub held-offer_small :
      (item : BundleItem) (p : Producer) → held (offer_small item p) ≡ held p + w item
  unfolding offer_small
  held-offer_small item p =
      let q : Producer = record p {
        bundle = p.bundle ++ item ∷ [];
        bbytes = p.bbytes + item.size;
      } in
      let more : held q ≡ held p + w item = omega (arith, sum-append p.bundle (item ∷ [])) in
      elim (Bool-cases (leb bundle_bytes q.bbytes || leb bundle_max_count (length q.bundle))) [
        | inl full ↦ rw full (held-flush q ∙ more)
        | inr room ↦ rw room more
      ]

  pub held-offer_file :
      (item : BundleItem) (p : Producer) → held (offer_file item p) ≡ held p + w item
  unfolding offer_file
  held-offer_file item p = elim (Bool-cases (leb item.size small_file)) [
    | inl s ↦ rw s (held-offer_small item p)
    | inr large ↦ rw large (
        let (same, _) = pending_cases p in
        omega (arith, sum_units-snoc (flush_pending p).queued (large_unit item), same))
  ]

  pub held-mark :
      ⦃rx : Regexes⦄ (ignore : IgnoreSet rx) (base at : FilePath) (p : Producer)
      → held (mark_dir ignore base at p) ≡ held p
  unfolding mark_dir
  held-mark ignore base at p = elim (Bool-cases (is_empty (rel_to_base base at))) [
    | inl nothing ↦ rw nothing
    | inr named ↦ rw named (omega (arith, sum_units-snoc p.queued (dir_unit (rel_to_base base at))))
  ]
