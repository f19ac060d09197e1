-- ===== src/Tests/Framing.antt =====
-- Offers and bundled files on small inputs.
use folder_transfer.Prelude.{ℕ, ◌≡◌, refl, pos, List, [], ◌∷◌, ◌++◌, some, arith}
use folder_transfer.Text.{Text, codes, strip_prefix}
use folder_transfer.Io.{ok, ◌>>=◌}
use folder_transfer.Wire.{on_conn}
use folder_transfer.Server.{put_chunk_bundled}
use folder_transfer.Server.Body.{BundleItem}
use folder_transfer.Server.Pass.{large_line}
use folder_transfer.Client.{expect_line, parse_three}
use folder_transfer.Client.Receive.{recv_bundle_file}
use folder_transfer.Wire.{Conn}
use folder_transfer.Wire.Lines.{IsText}
use folder_transfer.Protocol.Reading.{moved}
use folder_transfer.Protocol.Bundled.{recv_bundle_file-put_chunk_bundled}
use folder_transfer.Protocol.Offer.{parse_three-large_line}
use folder_transfer.Tests.{toy_zstd, toy_floats, toy-IsLossless, bytes, quiet, sender, receiver}

abbrev large_item : BundleItem
large_item = record {
  full = codes "srv" ∷ codes "a b" ∷ [];
  rel = codes "srv/a b";
  size = 2000000;
  mtime = pos 5;
}

-- The connection that the line comes in on.
abbrev offering : Conn
offering = quiet (large_line large_item ++ 10 ∷ 7 ∷ [])

name-IsText : IsText (codes "srv/a b")
unfolding folder_transfer.Text.contains_char folder_transfer.Text.ends_with_char
    folder_transfer.Text.Utf8.lossy
name-IsText = record { no_feed = refl; no_return_last = refl; utf8 = refl }

offer_example :
    (expect_line offering ≡ (ok (large_line large_item), quiet (7 ∷ [])))
    × (rest : Text) × (strip_prefix (codes "F ") (large_line large_item) ≡ some rest)
    × (parse_three rest ≡ some (2000000, pos 5, codes "srv/a b"))
offer_example =
    parse_three-large_line large_item offering (7 ∷ []) (omega arith) (omega arith) (λ h. cc)
      name-IsText refl

abbrev queued_bytes : List ℕ
queued_bytes = (put_chunk_bundled bytes (some (pos 3)) sender).conn.wbuf

bundled_example :
    (do hdr ← on_conn expect_line; recv_bundle_file hdr) (receiver (queued_bytes ++ 7 ∷ []))
    ≡ (ok 4, moved bytes (7 ∷ []) (receiver (queued_bytes ++ 7 ∷ [])))
bundled_example =
    recv_bundle_file-put_chunk_bundled (λ x level h. omega (arith, h)) toy-IsLossless bytes
      (some (pos 3)) sender (7 ∷ []) (receiver (queued_bytes ++ 7 ∷ [])) refl (omega arith)
      (λ b. refl) refl
