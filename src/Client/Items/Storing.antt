-- ===== src/Client/Items/Storing.antt =====
-- rust/src/client.rs: a file that the client stores below the destination changes nothing at a path outside, nor do the
-- headers that it reads.
use folder_transfer.Prelude.{
  ℕ, ◌+◌, ℤ, ◌≤◌, ◌≡◌, ◌≢◌, refl, true, false, [], Option, none, arith, if◌then◌else◌, Bool-cases,
  inl, inr,
}
use folder_transfer.Text.{Text, codes, text_eq}
use folder_transfer.Io.{Io, done, modify, ◌>>=◌, ◌>>◌}
use folder_transfer.Io.Size.{Shrinks, bind-Shrinks, then-Shrinks}
use folder_transfer.Wire.{Transfer}
use folder_transfer.Paths.{FilePath, root_prefix}
use folder_transfer.Paths.Safety.{IsPath}
use folder_transfer.Fs.{Node, metadata, create}
use folder_transfer.Fs.Keeping.{
  fill_code, set_modified_code, create-Shrinks, create_dir_all-Shrinks,
}
use folder_transfer.Client.{
  Client, Mirror, on_fs, on_conn, expect_line, insert_seen, insert_root, record_root, note_offer,
}
use folder_transfer.Client.Confined.{is_below, roots_outside, safe_join-below, apart}
use folder_transfer.Client.Items.{make_parent, receive_into, receive_away, set_ticks}

module _ (to : FilePath) (valid : IsPath to) (nonroot : to ≢ []) where
  insert_root_outside :
      (r : FilePath) (m : Mirror)
      → is_below to r ≡ true
      → roots_outside to (insert_root r m).roots ≡ roots_outside to m.roots
  unfolding insert_root roots_outside
  insert_root_outside r m below = ground arith

  pub record_root_outside :
      (rel : Text) (m : Mirror)
      → roots_outside to (record_root to (root_prefix to) rel m).roots ≡ roots_outside to m.roots
  unfolding record_root
  record_root_outside rel m = grind (arith, insert_root_outside, safe_join-below to valid nonroot)

  pub note_offer_outside :
      (rel : Text) (t : FilePath) (m : Mirror)
      → roots_outside to (note_offer to (root_prefix to) rel t m).roots ≡ roots_outside to m.roots
  unfolding note_offer insert_seen
  note_offer_outside rel t m = ground (arith, record_root_outside rel m)

module _ (to : FilePath) (valid : IsPath to) (nonroot : to ≢ []) (p : FilePath)
    (outside : is_below to p ≡ false) (code : Option Node → ℕ)
    (top : (o : Option Node) → code o ≤ code none) where
  -- What stands at the path outside, and the roots outside.
  abbrev pub client_code : Client → ℕ
  client_code s = code (metadata p s.fs) + roots_outside to s.mir.roots

  make_parent-Shrinks : (q : FilePath) → Shrinks client_code (make_parent q)
  unfolding make_parent
  make_parent-Shrinks q s = grind (arith, create_dir_all-Shrinks p code top)

  receive_into_code :
      (q : FilePath) (m : Transfer → Io ℕ × Transfer) (s : Client)
      → is_below to q ≡ true
      → client_code (receive_into q m s).1 ≡ client_code s
  unfolding receive_into
  receive_into_code q m s below =
      omega (arith, fill_code p code top q _ s.fs (apart to p q outside below))

  pub receive_away_code :
      (m : Transfer → Io ℕ × Transfer) (s : Client)
      → client_code (receive_away m s).1 ≡ client_code s
  unfolding receive_away
  receive_away_code m s = refl

  set_ticks_code :
      (q : FilePath) (mt : ℤ) (s : Client)
      → is_below to q ≡ true
      → client_code (set_ticks q mt s) ≡ client_code s
  set_ticks_code q mt s below =
      omega (arith, set_modified_code p code top q _ s.fs (apart to p q outside below))

  -- A file is made below the destination, filled, and dated.
  pub store-Shrinks :
      (q : FilePath) (m : Transfer → Io ℕ × Transfer) (mt : ℤ) (count : ℕ → Client → Client)
      → is_below to q ≡ true
      → ((n : ℕ) (s : Client) → client_code (count n s) ≡ client_code s)
      → Shrinks client_code (do
        make_parent q
        on_fs (create q)
        n ← receive_into q m
        modify (set_ticks q mt)
        modify (count n))
  store-Shrinks q m mt count below keep =
      let tail : (n : ℕ) → Shrinks client_code (modify (set_ticks q mt) >> modify (count n)) =
        λ n s. omega (arith, keep n (set_ticks q mt s), set_ticks_code q mt s below) in
      let opened : Shrinks client_code (on_fs (create q)) =
        λ s. omega (arith, create-Shrinks p code top q (apart to p q outside below) s.fs) in
      let received : Shrinks client_code (receive_into q m) =
        λ s. omega (arith, receive_into_code q m s below) in
      then-Shrinks client_code (make_parent q) _ (make_parent-Shrinks q) (
        then-Shrinks client_code (on_fs (create q)) _ opened (
          bind-Shrinks client_code (receive_into q m)
            (λ n. modify (set_ticks q mt) >> modify (count n)) received tail))

  -- `-1`, or what a header asks for.
  abbrev pub by_header :
      (Text → Client → Io (Unit {0}) × Client) → Text → Client → Io (Unit {0}) × Client
  by_header m hdr = if text_eq hdr (codes "-1") then done tt else m hdr

  by_header-Shrinks :
      (m : Text → Client → Io (Unit {0}) × Client)
      → ((hdr : Text) → Shrinks client_code (m hdr))
      → (hdr : Text) → Shrinks client_code (by_header m hdr)
  by_header-Shrinks m h hdr s = elim (Bool-cases (text_eq hdr (codes "-1"))) [
    | inl none_sent ↦ rw none_sent (omega arith)
    | inr header ↦ rw header (h hdr s)
  ]

  pub header-Shrinks :
      (m : Text → Client → Io (Unit {0}) × Client)
      → ((hdr : Text) → Shrinks client_code (m hdr))
      → Shrinks client_code (do hdr ← on_conn expect_line; by_header m hdr)
  header-Shrinks m h =
      bind-Shrinks client_code (on_conn expect_line) (by_header m) (λ s. omega arith)
        (by_header-Shrinks m h)

  pub round-Shrinks :
      (m : Text → Client → Io (Unit {0}) × Client) (rest : Client → Io (Unit {0}) × Client)
      → ((hdr : Text) → Shrinks client_code (m hdr))
      → Shrinks client_code rest
      → Shrinks client_code (do hdr ← on_conn expect_line; by_header m hdr; rest)
  round-Shrinks m rest h r =
      bind-Shrinks client_code (on_conn expect_line) (λ hdr. by_header m hdr >> rest)
        (λ s. omega arith)
        (λ hdr. then-Shrinks client_code (by_header m hdr) rest (by_header-Shrinks m h hdr) r)
