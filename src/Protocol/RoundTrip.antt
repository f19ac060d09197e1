-- ===== src/Protocol/RoundTrip.antt =====
-- The two ends together: what `send_large_file` (rust/src/server.rs) writes, read by
-- `recv_large_body` (rust/src/client.rs).
use folder_transfer.Prelude.{ℕ, ◌+◌, ◌^◌, ◌<◌, ◌≡◌, ap, ◌∙◌, Bool, List, [], ◌++◌, length, drop}
use folder_transfer.Text.{Text}
use folder_transfer.Io.{ok, ◌>>=◌}
use folder_transfer.Wire.{Transfer, on_conn}
use folder_transfer.Platform.{Floats, Zstd, Clock, IsLossless}
use folder_transfer.Server.{Sender, File}
use folder_transfer.Server.Reading.{IsReadable}
use folder_transfer.Server.Body.{send_large_file}
use folder_transfer.Client.{expect_line}
use folder_transfer.Client.Receive.{recv_large_body}
use folder_transfer.Protocol.Reading.{AcceptsAll, moved}
use folder_transfer.Protocol.Large.{recv_large_body-Body}
use folder_transfer.Protocol.Writing.{IsHealthy, FramesFit}
use folder_transfer.Protocol.Sending.{send_large_file-Wrote}

module _ ⦃fl : Floats⦄ ⦃z : Zstd⦄ ⦃clock : Clock fl⦄ where
  -- What the client has after a body: the content is written, the bytes behind the body are unread.
  abbrev pub received : List ℕ → List ℕ → Transfer → Transfer
  received x rest t = record (moved x rest t) { reported = t.reported + length x }

  -- A readable file of less than 2^63 bytes whose length is the reported one, sent from an offset inside
  -- it as the first thing on a connection that takes every byte, with or without compression and
  -- whatever the clock and the controller do: sending succeeds; and a client that reads these bytes,
  -- with any others behind them, writes exactly the file from the offset on, reports its length, and
  -- leaves the other bytes unread. Premises: zstd gives back what it was given and makes no frame of 2^64 bytes from a block of 1 MiB; the client's disk
  -- takes all that is written.
  pub recv_large_body-send_large_file :
      (f : File) (offset : ℕ) (ext : Text) (use_compress : Bool) (s : Sender fl) (rest : List ℕ)
      (t : Transfer)
      → IsLossless z
      → FramesFit z
      → IsReadable f
      → f.len ≡ length f.content
      → f.len < 2 ^ 63
      → offset < f.len
      → IsHealthy s.conn
      → s.conn.wbuf ≡ []
      → s.conn.sent ≡ []
      → AcceptsAll t.out
      → t.conn.input ≡ (send_large_file f offset ext use_compress s).1.conn.sent ++ rest
      → ((send_large_file f offset ext use_compress s).0 ≡ ok tt)
        × ((do hdr ← on_conn expect_line; recv_large_body hdr) t
            ≡ (ok (length (drop offset f.content)), received (drop offset f.content) rest t))
  recv_large_body-send_large_file f offset ext use_compress s rest t lossless frames r len fits b h
        e first a i =
      let w = send_large_file-Wrote frames f offset ext use_compress s r len fits b h e in
      let bytes : (send_large_file f offset ext use_compress s).1.conn.sent ≡ w.wire =
        ap (λ c. c.sent) w.conn ∙ ap (λ x. x ++ w.wire) first in
      (w.fine, recv_large_body-Body lossless w.is rest t a (i ∙ ap (λ x. x ++ rest) bytes))
