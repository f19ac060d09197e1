-- ===== src/Client/Items/Confined.antt =====
-- rust/src/client.rs: the handlers of the items change nothing at a path outside of the destination, and record no
-- root outside.
use folder_transfer.Prelude.{
  ℕ, zero, suc, ◌+◌, ℤ, ◌≤◌, ◌≡◌, ◌≢◌, refl, Bool, true, false, List, [], ◌∷◌, Option, none, some,
  arith, Bool-cases, inl, inr,
}
use folder_transfer.Text.{Text, codes}
use folder_transfer.Io.{modify}
use folder_transfer.Io.Size.{Shrinks, then-Shrinks}
use folder_transfer.Wire.{send_line}
use folder_transfer.Paths.{FilePath, safe_join, root_prefix}
use folder_transfer.Paths.Safety.{IsPath}
use folder_transfer.Platform.{Zstd}
use folder_transfer.Fs.{Node, metadata}
use folder_transfer.Fs.Keeping.{create_dir_all-Shrinks}
use folder_transfer.Client.{Client, on_conn, need_fetch}
use folder_transfer.Client.Receive.{recv_bundle_file, recv_large_body}
use folder_transfer.Client.Confined.{is_below, roots_outside, safe_join-below}
use folder_transfer.Progress.{add}
use folder_transfer.Client.Items.{
  count_got, count_skip, Offer, Target, write_bundle_file, write_large_file, handle_dir,
  read_manifest, choose, choose_all, write_or_discard, recv_all, recv_wanted, recv_targets,
  answer_offers, handle_bundle, receive_large, ask_large, note_large, handle_large, dispatch_large,
  dispatch_item,
}
use folder_transfer.Client.Items.Storing.{
  record_root_outside, note_offer_outside, receive_away_code, store-Shrinks, header-Shrinks,
  round-Shrinks,
}

module _ ⦃z : Zstd⦄ (to : FilePath) (valid : IsPath to) (nonroot : to ≢ []) (p : FilePath)
    (outside : is_below to p ≡ false) (code : Option Node → ℕ)
    (top : (o : Option Node) → code o ≤ code none) where
  abbrev client_code : Client → ℕ
  client_code s = code (metadata p s.fs) + roots_outside to s.mir.roots

  write_bundle_file-Shrinks :
      (hdr : Text) (q : FilePath) (mt : ℤ)
      → is_below to q ≡ true
      → Shrinks client_code (write_bundle_file hdr q mt)
  unfolding write_bundle_file
  write_bundle_file-Shrinks hdr q mt below =
      store-Shrinks to valid nonroot p outside code top q (recv_bundle_file hdr) mt
        (λ n s. count_got n (record s { prog = add n 1 s.prog })) below (λ n s. refl)

  write_large_file-Shrinks :
      (hdr : Text) (q : FilePath) (mt : ℤ)
      → is_below to q ≡ true
      → Shrinks client_code (write_large_file hdr q mt)
  unfolding write_large_file
  write_large_file-Shrinks hdr q mt below =
      store-Shrinks to valid nonroot p outside code top q (recv_large_body hdr) mt
        (λ n s. count_got n (record s { prog = add 0 1 s.prog })) below (λ n s. refl)

  handle_dir-Shrinks : (rel : Text) → Shrinks client_code (handle_dir to (root_prefix to) rel)
  unfolding handle_dir
  handle_dir-Shrinks rel s =
      grind (arith, create_dir_all-Shrinks p code top, record_root_outside to valid nonroot rel)

  abbrev AllBelow : List Target → Type 0
  AllBelow [] = Unit
  AllBelow (none ∷ targets) = AllBelow targets
  AllBelow (some (q, mt) ∷ targets) = (is_below to q ≡ true) × AllBelow targets

  read_manifest_code :
      (count : ℕ) (s : Client)
      → client_code (read_manifest to (root_prefix to) count s).1 ≡ client_code s
  unfolding read_manifest
  read_manifest_code zero s = refl
  read_manifest_code (suc count) s = grind (arith, read_manifest_code count)

  choose_code :
      (stream_mode : Bool) (item : Offer) (s : Client)
      → client_code (choose to (root_prefix to) stream_mode item s).2 ≡ client_code s
  unfolding choose
  choose_code stream_mode none s = refl
  choose_code stream_mode (some (size, mt, rel)) s =
      grind (arith, note_offer_outside to valid nonroot rel)

  choose-below :
      (stream_mode : Bool) (item : Offer) (s : Client) (q : FilePath) (time : ℤ)
      → (choose to (root_prefix to) stream_mode item s).1 ≡ some (q, time)
      → is_below to q ≡ true
  unfolding choose
  choose-below stream_mode none s q time e = absurd cc
  choose-below stream_mode (some (size, mt, rel)) s q time e =
      grind (arith, safe_join-below to valid nonroot rel, e)

  AllBelow-cons :
      (target : Target) (targets : List Target)
      → ((q : FilePath) (time : ℤ) → target ≡ some (q, time) → is_below to q ≡ true)
      → AllBelow targets
      → AllBelow (target ∷ targets)
  AllBelow-cons none targets h hs = hs
  AllBelow-cons (some (q, time)) targets h hs = (h q time refl, hs)

  choose_all_code :
      (stream_mode : Bool) (items : List Offer) (s : Client)
      → client_code (choose_all to (root_prefix to) stream_mode items s).2 ≡ client_code s
  unfolding choose_all
  choose_all_code stream_mode [] s = refl
  choose_all_code stream_mode (item ∷ items) s = omega (
    arith,
    choose_code stream_mode item s,
    choose_all_code stream_mode items (choose to (root_prefix to) stream_mode item s).2,
  )

  choose_all-AllBelow :
      (stream_mode : Bool) (items : List Offer) (s : Client)
      → AllBelow (choose_all to (root_prefix to) stream_mode items s).1
  unfolding choose_all
  choose_all-AllBelow stream_mode [] s = tt
  choose_all-AllBelow stream_mode (item ∷ items) s =
      AllBelow-cons (choose to (root_prefix to) stream_mode item s).1 _
        (choose-below stream_mode item s)
        (choose_all-AllBelow stream_mode items (choose to (root_prefix to) stream_mode item s).2)

  write_or_discard-Shrinks :
      (hdr : Text) (target : Target) (targets : List Target)
      → AllBelow (target ∷ targets)
      → Shrinks client_code (write_or_discard to (root_prefix to) hdr target)
  unfolding write_or_discard
  write_or_discard-Shrinks hdr (some (q, mt)) targets h s = write_bundle_file-Shrinks hdr q mt h.0 s
  write_or_discard-Shrinks hdr none targets h s =
      (let away = receive_away_code to valid nonroot p outside code top in grind (arith, away))

  AllBelow-rest :
      (target : Target) (targets : List Target) → AllBelow (target ∷ targets) → AllBelow targets
  AllBelow-rest none targets h = h
  AllBelow-rest (some (q, mt)) targets h = h.1

  recv_all-Shrinks :
      (targets : List Target)
      → AllBelow targets
      → Shrinks client_code (recv_all to (root_prefix to) targets)
  unfolding recv_all
  recv_all-Shrinks [] h s = omega arith
  recv_all-Shrinks (target ∷ targets) h s =
      round-Shrinks to valid nonroot p outside code top
        (λ hdr. write_or_discard to (root_prefix to) hdr target)
        (recv_all to (root_prefix to) targets)
        (λ hdr. write_or_discard-Shrinks hdr target targets h)
        (recv_all-Shrinks targets (AllBelow-rest target targets h)) s

  recv_wanted-Shrinks :
      (targets : List Target)
      → AllBelow targets
      → Shrinks client_code (recv_wanted to (root_prefix to) targets)
  unfolding recv_wanted
  recv_wanted-Shrinks [] h s = omega arith
  recv_wanted-Shrinks (none ∷ targets) h s = recv_wanted-Shrinks targets h s
  recv_wanted-Shrinks (some (q, mt) ∷ targets) h s =
      round-Shrinks to valid nonroot p outside code top (λ hdr. write_bundle_file hdr q mt)
        (recv_wanted to (root_prefix to) targets) (λ hdr. write_bundle_file-Shrinks hdr q mt h.0)
        (recv_wanted-Shrinks targets h.1) s

  recv_targets_code :
      (stream_mode : Bool) (r : Text × List Target × Client)
      → AllBelow r.1
      → client_code (recv_targets to (root_prefix to) stream_mode r).1 ≤ client_code r.2
  unfolding recv_targets
  recv_targets_code true (mask, targets, s) h = recv_all-Shrinks targets h s
  recv_targets_code false (mask, targets, s) h =
      let wanted = recv_wanted-Shrinks targets h in grind (arith, wanted)

  answer_offers-Shrinks :
      (stream_mode : Bool) (items : List Offer)
      → Shrinks client_code (answer_offers to (root_prefix to) stream_mode items)
  unfolding answer_offers
  answer_offers-Shrinks stream_mode items s = omega (
    arith,
    recv_targets_code stream_mode (choose_all to (root_prefix to) stream_mode items s)
        (choose_all-AllBelow stream_mode items s),
    choose_all_code stream_mode items s,
  )

  handle_bundle-Shrinks :
      (count : ℕ) (stream_mode : Bool)
      → Shrinks client_code (handle_bundle to (root_prefix to) count stream_mode)
  unfolding handle_bundle
  handle_bundle-Shrinks count stream_mode s =
      grind (arith, read_manifest_code count, answer_offers-Shrinks stream_mode)

  receive_large-Shrinks :
      (target : Option FilePath) (mt : ℤ)
      → ((q : FilePath) → target ≡ some q → is_below to q ≡ true)
      → Shrinks client_code (receive_large to (root_prefix to) target mt)
  unfolding receive_large
  receive_large-Shrinks none mt h s =
      (let away = receive_away_code to valid nonroot p outside code top in grind (arith, away))
  receive_large-Shrinks (some q) mt h s =
      header-Shrinks to valid nonroot p outside code top (λ hdr. write_large_file hdr q mt)
        (λ hdr. write_large_file-Shrinks hdr q mt (h q refl)) s

  ask_large-Shrinks :
      (target : Option FilePath) (size : ℕ) (mt : ℤ)
      → ((q : FilePath) → target ≡ some q → is_below to q ≡ true)
      → Shrinks client_code (ask_large to (root_prefix to) target size mt)
  unfolding ask_large
  ask_large-Shrinks none size mt h s = omega arith
  ask_large-Shrinks (some q) size mt h s = elim (Bool-cases (need_fetch q size mt s.fs)) [
    | inl wanted ↦ rw wanted (
        then-Shrinks client_code (on_conn (send_line (codes "0")))
          (receive_large to (root_prefix to) (some q) mt) (λ t. omega arith)
          (receive_large-Shrinks (some q) mt h) s)
    | inr current ↦ rw current (
        then-Shrinks client_code (on_conn (send_line (codes "-1"))) (modify count_skip)
          (λ t. omega arith) (λ t. omega arith) s)
  ]

  note_large_code :
      (target : Option FilePath) (rel : Text) (s : Client)
      → client_code (note_large to (root_prefix to) target rel s) ≡ client_code s
  unfolding note_large
  note_large_code none rel s = refl
  note_large_code (some q) rel s = omega (arith, note_offer_outside to valid nonroot rel q s.mir)

  handle_large-Shrinks :
      (size : ℕ) (mt : ℤ) (rel : Text) (stream_mode : Bool)
      → Shrinks client_code (handle_large to (root_prefix to) size mt rel stream_mode)
  unfolding handle_large
  handle_large-Shrinks size mt rel true s = omega (
    arith,
    note_large_code (safe_join to (root_prefix to) rel) rel s,
    receive_large-Shrinks (safe_join to (root_prefix to) rel) mt
        (safe_join-below to valid nonroot rel)
        (note_large to (root_prefix to) (safe_join to (root_prefix to) rel) rel s),
  )
  handle_large-Shrinks size mt rel false s = omega (
    arith,
    note_large_code (safe_join to (root_prefix to) rel) rel s,
    ask_large-Shrinks (safe_join to (root_prefix to) rel) size mt
        (safe_join-below to valid nonroot rel)
        (note_large to (root_prefix to) (safe_join to (root_prefix to) rel) rel s),
  )

  dispatch_large-Shrinks :
      (stream_mode : Bool) (rest : Text)
      → Shrinks client_code (dispatch_large to (root_prefix to) stream_mode rest)
  unfolding dispatch_large
  dispatch_large-Shrinks stream_mode rest s = grind (arith, handle_large-Shrinks)

  -- No item makes a difference outside, whatever it says.
  pub dispatch_item_confined :
      (h : Text) (stream_mode : Bool)
      → Shrinks client_code (dispatch_item to (root_prefix to) h stream_mode)
  unfolding dispatch_item
  dispatch_item_confined h stream_mode s =
      grind (arith, handle_dir-Shrinks, handle_bundle-Shrinks, dispatch_large-Shrinks)
