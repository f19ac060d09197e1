-- ===== src/Client/Items/Input.antt =====
-- rust/src/client.rs: no handler of an item gives bytes back to the connection.
use folder_transfer.Prelude.{
  ℕ, zero, suc, ℤ, ◌≤◌, ◌≡◌, refl, Bool, true, false, List, [], ◌∷◌, Option, none, some, arith,
}
use folder_transfer.Text.{Text}
use folder_transfer.Io.{Io}
use folder_transfer.Io.Size.{Shrinks}
use folder_transfer.Wire.{Transfer}
use folder_transfer.Wire.Input.{transfer_size, send_line-Shrinks}
use folder_transfer.Paths.{FilePath}
use folder_transfer.Platform.{Zstd}
use folder_transfer.Client.{Client}
use folder_transfer.Client.Receive.{recv_bundle_file, recv_large_body}
use folder_transfer.Client.Input.{
  client_size, expect_line-Shrinks, recv_bundle_file-Shrinks, recv_large_body-Shrinks,
}
use folder_transfer.Client.Items.{
  Offer, Target, make_parent, receive_into, receive_away, write_bundle_file, write_large_file,
  handle_dir, read_manifest, choose, choose_all, write_or_discard, recv_all, recv_wanted,
  recv_targets, answer_offers, handle_bundle, receive_large, ask_large, note_large, handle_large,
  dispatch_large, dispatch_item,
}

make_parent-Shrinks : (p : FilePath) → Shrinks client_size (make_parent p)
unfolding make_parent
make_parent-Shrinks p s = ground arith

receive_into-Shrinks :
    (p : FilePath) (m : Transfer → Io ℕ × Transfer)
    → Shrinks transfer_size m
    → Shrinks client_size (receive_into p m)
unfolding receive_into
receive_into-Shrinks p m h s = h _

receive_away-Shrinks :
    (m : Transfer → Io ℕ × Transfer)
    → Shrinks transfer_size m
    → Shrinks client_size (receive_away m)
unfolding receive_away
receive_away-Shrinks m h s = h _

module _ ⦃z : Zstd⦄ where
  into_bundle-Shrinks :
      (hdr : Text) (p : FilePath) → Shrinks client_size (receive_into p (recv_bundle_file hdr))
  into_bundle-Shrinks hdr p = receive_into-Shrinks p _ (recv_bundle_file-Shrinks hdr)

  into_large-Shrinks :
      (hdr : Text) (p : FilePath) → Shrinks client_size (receive_into p (recv_large_body hdr))
  into_large-Shrinks hdr p = receive_into-Shrinks p _ (recv_large_body-Shrinks hdr)

  away_bundle-Shrinks : (hdr : Text) → Shrinks client_size (receive_away (recv_bundle_file hdr))
  away_bundle-Shrinks hdr = receive_away-Shrinks _ (recv_bundle_file-Shrinks hdr)

  away_large-Shrinks : (hdr : Text) → Shrinks client_size (receive_away (recv_large_body hdr))
  away_large-Shrinks hdr = receive_away-Shrinks _ (recv_large_body-Shrinks hdr)

  write_bundle_file-Shrinks :
      (hdr : Text) (p : FilePath) (mt : ℤ) → Shrinks client_size (write_bundle_file hdr p mt)
  unfolding write_bundle_file
  write_bundle_file-Shrinks hdr p mt s = grind (arith, make_parent-Shrinks, into_bundle-Shrinks)

  write_large_file-Shrinks :
      (hdr : Text) (p : FilePath) (mt : ℤ) → Shrinks client_size (write_large_file hdr p mt)
  unfolding write_large_file
  write_large_file-Shrinks hdr p mt s = grind (arith, make_parent-Shrinks, into_large-Shrinks)

  module _ (to : FilePath) (prefix : Text) where
    write_or_discard-Shrinks :
        (hdr : Text) (target : Target) → Shrinks client_size (write_or_discard to prefix hdr target)
    unfolding write_or_discard
    write_or_discard-Shrinks hdr (some (p, mt)) s = write_bundle_file-Shrinks hdr p mt s
    write_or_discard-Shrinks hdr none s = grind (arith, away_bundle-Shrinks)

    recv_all-Shrinks : (targets : List Target) → Shrinks client_size (recv_all to prefix targets)
    unfolding recv_all
    recv_all-Shrinks [] s = omega arith
    recv_all-Shrinks (target ∷ targets) s =
        grind (arith, expect_line-Shrinks, write_or_discard-Shrinks, recv_all-Shrinks targets)

    recv_wanted-Shrinks :
        (targets : List Target) → Shrinks client_size (recv_wanted to prefix targets)
    unfolding recv_wanted
    recv_wanted-Shrinks [] s = omega arith
    recv_wanted-Shrinks (none ∷ targets) s = recv_wanted-Shrinks targets s
    recv_wanted-Shrinks (some (p, mt) ∷ targets) s =
        grind (arith, expect_line-Shrinks, write_bundle_file-Shrinks, recv_wanted-Shrinks targets)

    receive_large-Shrinks :
        (target : Option FilePath) (mt : ℤ)
        → Shrinks client_size (receive_large to prefix target mt)
    unfolding receive_large
    receive_large-Shrinks target mt s =
        grind (arith, expect_line-Shrinks, into_large-Shrinks, away_large-Shrinks)

    ask_large-Shrinks :
        (target : Option FilePath) (size : ℕ) (mt : ℤ)
        → Shrinks client_size (ask_large to prefix target size mt)
    unfolding ask_large
    ask_large-Shrinks none size mt s = send_line-Shrinks _ s.conn
    ask_large-Shrinks (some t) size mt s = grind (arith, send_line-Shrinks, receive_large-Shrinks)

    handle_dir-Shrinks : (rel : Text) → Shrinks client_size (handle_dir to prefix rel)
    unfolding handle_dir
    handle_dir-Shrinks rel s = ground arith

    read_manifest-Shrinks : (count : ℕ) → Shrinks client_size (read_manifest to prefix count)
    unfolding read_manifest
    read_manifest-Shrinks zero s = omega arith
    read_manifest-Shrinks (suc count) s =
        grind (arith, expect_line-Shrinks, read_manifest-Shrinks count)

    choose_size :
        (stream_mode : Bool) (item : Offer) (s : Client)
        → client_size (choose to prefix stream_mode item s).2 ≡ client_size s
    unfolding choose
    choose_size stream_mode none s = refl
    choose_size stream_mode (some (size, mt, rel)) s = ground arith

    choose_all_size :
        (stream_mode : Bool) (items : List Offer) (s : Client)
        → client_size (choose_all to prefix stream_mode items s).2 ≡ client_size s
    unfolding choose_all
    choose_all_size stream_mode [] s = refl
    choose_all_size stream_mode (item ∷ items) s = omega (
      arith,
      choose_size stream_mode item s,
      choose_all_size stream_mode items (choose to prefix stream_mode item s).2,
    )

    recv_targets-size :
        (stream_mode : Bool) (r : Text × List Target × Client)
        → client_size (recv_targets to prefix stream_mode r).1 ≤ client_size r.2
    unfolding recv_targets
    recv_targets-size true (mask, targets, s) = recv_all-Shrinks targets s
    recv_targets-size false (mask, targets, s) =
        grind (arith, send_line-Shrinks, recv_wanted-Shrinks)

    answer_offers-Shrinks :
        (stream_mode : Bool) (items : List Offer)
        → Shrinks client_size (answer_offers to prefix stream_mode items)
    unfolding answer_offers
    answer_offers-Shrinks stream_mode items s = omega (
      arith,
      recv_targets-size stream_mode (choose_all to prefix stream_mode items s),
      choose_all_size stream_mode items s,
    )

    handle_bundle-Shrinks :
        (count : ℕ) (stream_mode : Bool)
        → Shrinks client_size (handle_bundle to prefix count stream_mode)
    unfolding handle_bundle
    handle_bundle-Shrinks count stream_mode s =
        grind (arith, read_manifest-Shrinks, answer_offers-Shrinks)

    handle_large-Shrinks :
        (size : ℕ) (mt : ℤ) (rel : Text) (stream_mode : Bool)
        → Shrinks client_size (handle_large to prefix size mt rel stream_mode)
    unfolding handle_large note_large
    handle_large-Shrinks size mt rel stream_mode s =
        grind (arith, receive_large-Shrinks, ask_large-Shrinks)

    dispatch_large-Shrinks :
        (stream_mode : Bool) (rest : Text)
        → Shrinks client_size (dispatch_large to prefix stream_mode rest)
    unfolding dispatch_large
    dispatch_large-Shrinks stream_mode rest s = grind (arith, handle_large-Shrinks)

    pub dispatch_item-Shrinks :
        (h : Text) (stream_mode : Bool)
        → Shrinks client_size (dispatch_item to prefix h stream_mode)
    unfolding dispatch_item
    dispatch_item-Shrinks h stream_mode s =
        grind (arith, handle_dir-Shrinks, handle_bundle-Shrinks, dispatch_large-Shrinks)
