-- ===== src/Client/Items.antt =====
-- rust/src/client.rs: the handlers of the items `D`, `B` and `F`.
pub mod Input
pub mod Storing
pub mod Confined
pub mod Kept
use folder_transfer.Prelude.{
  ℕ, zero, suc, ◌+◌, ℤ, Bool, true, false, ◌||◌, List, [], ◌∷◌, Option, none, some, if◌then◌else◌,
}
use folder_transfer.Text.{Text, codes, text_eq, strip_prefix}
use folder_transfer.Text.Trim.{trim}
use folder_transfer.Io.{Io, ok, ◌>>=◌, ◌>>◌, done, modify}
use folder_transfer.Wire.{Transfer, send_line}
use folder_transfer.Mtime.{ticks_to_systemtime}
use folder_transfer.Paths.{FilePath, safe_join}
use folder_transfer.Fs.{create_dir_all, create, fill, set_modified, parent}
use folder_transfer.Platform.{Zstd}
use folder_transfer.Progress.{add}
use folder_transfer.Client.{
  Client, on_conn, on_fs, need_fetch, parse_three, note_offer, record_root, expect_line,
}
use folder_transfer.Client.Receive.{number_or_zero, recv_bundle_file, recv_large_body}

-- A manifest line as it was read; a target is the path of a wanted file and its time.
abbrev pub Offer : Type 0
Offer = Option (ℕ × ℤ × Text)

abbrev pub Target : Type 0
Target = Option (FilePath × ℤ)

abbrev count_skip : Client → Client
count_skip s = record s { stats = record s.stats { skipped = s.stats.skipped + 1 } }

abbrev pub count_got : ℕ → Client → Client
count_got n s = record s {
  stats = record s.stats { got = s.stats.got + 1; bytes = s.stats.bytes + n };
}

-- `path.parent()`, and `create_dir_all` on it.
pub make_parent : FilePath → Client → Io (Unit {0}) × Client
make_parent p = elim (parent p) [ none ↦ done tt | some q ↦ on_fs (create_dir_all q) ]

-- Bytes go from the connection into the open file `p`; what was written stays after an error.
unfoldable pub receive_into : FilePath → (Transfer → Io ℕ × Transfer) → Client → Io ℕ × Client
receive_into p recv s =
    let start : Transfer = record {
      conn = s.conn;
      out = record { written = []; accepts = s.fs.accepts };
      reported = 0;
    } in
    let (r, t) = recv start in
    (r, record s { conn = t.conn; fs = fill p t.out.written s.fs; prog = add t.reported 0 s.prog })

-- The same into `io::sink()`.
unfoldable pub receive_away : (Transfer → Io ℕ × Transfer) → Client → Io ℕ × Client
receive_away recv s =
    let start : Transfer = record {
      conn = s.conn;
      out = record { written = []; accepts = λ _. true };
      reported = 0;
    } in
    let (r, t) = recv start in (r, record s { conn = t.conn; prog = add t.reported 0 s.prog })

-- `let _ = mtime::set_ticks(p, mt)`
abbrev pub set_ticks : FilePath → ℤ → Client → Client
set_ticks p mt s = record s { fs = set_modified p (ticks_to_systemtime mt) s.fs }

module _ ⦃z : Zstd⦄ where
  unfoldable pub write_bundle_file : Text → FilePath → ℤ → Client → Io (Unit {0}) × Client
  unfolding make_parent
  write_bundle_file hdr bt mt = do
    make_parent bt
    on_fs (create bt)
    n ← receive_into bt (recv_bundle_file hdr)
    modify (set_ticks bt mt)
    modify (λ s. count_got n (record s { prog = add n 1 s.prog }))

  write_large_file : Text → FilePath → ℤ → Client → Io (Unit {0}) × Client
  unfolding make_parent
  write_large_file hdr t mt = do
    make_parent t
    on_fs (create t)
    n ← receive_into t (recv_large_body hdr)
    modify (set_ticks t mt)
    modify (λ s. count_got n (record s { prog = add 0 1 s.prog }))

  module _ (to : FilePath) (prefix : Text) where
    unfoldable pub handle_dir : Text → Client → Io (Unit {0}) × Client
    handle_dir drel s = elim (safe_join to prefix drel) [
      | none ↦ (ok tt, s)
      | some dt ↦
          (do
            on_fs (create_dir_all dt)
            modify (λ s'. record s' { mir = record_root to prefix drel s'.mir }))
            s
    ]

    unfoldable pub read_manifest : ℕ → Client → Io (List Offer) × Client
    read_manifest zero = done []
    read_manifest (suc count) = do
      ml ← on_conn expect_line
      items ← read_manifest count
      done (parse_three ml ∷ items)

    -- A round of the loop that builds the mask: the mask's byte, the target and the state.
    unfoldable pub choose : Bool → Offer → Client → ℕ × Target × Client
    choose stream_mode none s = (b'0', none, s)
    choose stream_mode (some (size, mt, rel)) s = elim (safe_join to prefix rel) [
      | none ↦ (b'0', none, s)
      | some bt ↦
          let s' = record s { mir = note_offer to prefix rel bt s.mir } in
          if stream_mode || need_fetch bt size mt s.fs
          then (b'1', some (bt, mt), s')
          else (b'0', none, count_skip s')
    ]

    unfoldable pub choose_all : Bool → List Offer → Client → Text × List Target × Client
    choose_all stream_mode [] s = ([], [], s)
    choose_all stream_mode (item ∷ items) s =
        let (c, target, s') = choose stream_mode item s in
        let (mask, targets, s'') = choose_all stream_mode items s' in
        (c ∷ mask, target ∷ targets, s'')

    write_or_discard : Text → Target → Client → Io (Unit {0}) × Client
    write_or_discard hdr (some (bt, mt)) = write_bundle_file hdr bt mt
    write_or_discard hdr none = do receive_away (recv_bundle_file hdr); done tt

    unfoldable pub recv_all : List Target → Client → Io (Unit {0}) × Client
    unfolding write_or_discard
    recv_all [] = done tt
    recv_all (target ∷ targets) = do
      hdr ← on_conn expect_line
      if text_eq hdr (codes "-1") then done tt else write_or_discard hdr target
      recv_all targets

    unfoldable pub recv_wanted : List Target → Client → Io (Unit {0}) × Client
    recv_wanted [] = done tt
    recv_wanted (none ∷ targets) = recv_wanted targets
    recv_wanted (some (bt, mt) ∷ targets) = do
      hdr ← on_conn expect_line
      if text_eq hdr (codes "-1") then done tt else write_bundle_file hdr bt mt
      recv_wanted targets

    recv_targets : Bool → Text × List Target × Client → Io (Unit {0}) × Client
    unfolding recv_all recv_wanted
    recv_targets true (mask, targets, s) = recv_all targets s
    recv_targets false (mask, targets, s) = (do on_conn (send_line mask); recv_wanted targets) s

    answer_offers : Bool → List Offer → Client → Io (Unit {0}) × Client
    answer_offers stream_mode items s = recv_targets stream_mode (choose_all stream_mode items s)

    unfoldable pub handle_bundle : ℕ → Bool → Client → Io (Unit {0}) × Client
    unfolding answer_offers recv_targets
    handle_bundle count stream_mode = do
      items ← read_manifest count
      answer_offers stream_mode items

    receive_large : Option FilePath → ℤ → Client → Io (Unit {0}) × Client
    unfolding write_large_file
    receive_large target mt = do
      hdr ← on_conn expect_line
      if text_eq hdr (codes "-1") then done tt else elim target [
        | some t ↦ write_large_file hdr t mt
        | none ↦ (do receive_away (recv_large_body hdr); done tt)
      ]

    ask_large : Option FilePath → ℕ → ℤ → Client → Io (Unit {0}) × Client
    ask_large none size mt s = on_conn (send_line (codes "-1")) s
    ask_large (some t) size mt s =
        let fetch = do on_conn (send_line (codes "0")); receive_large (some t) mt
        in let decline = do on_conn (send_line (codes "-1")); modify count_skip
          in if need_fetch t size mt s.fs then fetch s else decline s

    note_large : Option FilePath → Text → Client → Client
    note_large none rel s = s
    note_large (some t) rel s = record s { mir = note_offer to prefix rel t s.mir }

    unfoldable pub handle_large : ℕ → ℤ → Text → Bool → Client → Io (Unit {0}) × Client
    unfolding receive_large ask_large note_large
    handle_large size mt rel stream_mode s =
        let target = safe_join to prefix rel in
        let s' = note_large target rel s in
        if stream_mode then receive_large target mt s' else ask_large target size mt s'

    dispatch_large : Bool → Text → Client → Io (Unit {0}) × Client
    dispatch_large stream_mode rest s = elim (parse_three rest) [
      | none ↦ (ok tt, s)
      | some (size, mt, rel) ↦ handle_large size mt rel stream_mode s
    ]

    -- Unknown lines are passed over.
    unfoldable pub dispatch_item : Text → Bool → Client → Io (Unit {0}) × Client
    unfolding dispatch_large
    dispatch_item h stream_mode s = elim (strip_prefix (codes "D ") h) [
      | some rest ↦ handle_dir rest s
      | none ↦ elim (strip_prefix (codes "B ") h) [
        | some rest ↦ handle_bundle (number_or_zero (trim rest)) stream_mode s
        | none ↦ elim (strip_prefix (codes "F ") h) [
          | some rest ↦ dispatch_large stream_mode rest s
          | none ↦ (ok tt, s)
        ]
      ]
    ]
