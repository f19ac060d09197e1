-- ===== src/Protocol/Steps.antt =====
-- Steps of the sender one after another, and the bytes that they write.
use folder_transfer.Prelude.{
  ℕ, ◌≡◌, refl, ap, ◌∙◌, List, [], ◌∷◌, ◌++◌, arith, append_assoc, append-nil,
}
use folder_transfer.Text.{Text, codes}
use folder_transfer.Io.{Io, ok, ◌>>◌, modify}
use folder_transfer.Wire.{Conn, send_line}
use folder_transfer.Platform.{Floats}
use folder_transfer.Server.{Sender, on_conn}
use folder_transfer.Server.Body.{count_sent}
use folder_transfer.Protocol.Writing.{IsHealthy, wrote_conn, Wrote}

module _ ⦃fl : Floats⦄ where
  -- One step after another: the second starts on the connection as the first has left it.
  pub Wrote-then :
      {P Q R : List ℕ → Type 0} (c : Conn) (m k : Sender fl → Io (Unit {0}) × Sender fl)
      (s : Sender fl)
      → IsHealthy c
      → Wrote c (m s) P
      → ((t : Sender fl) → IsHealthy t.conn → t.conn.wbuf ≡ [] → Wrote t.conn (k t) Q)
      → ((w v : List ℕ) → P w → Q v → R (w ++ v))
      → Wrote c ((m >> k) s) R
  Wrote-then c m k s h a b join =
      let t = (m s).1 in
      let l : t.conn.link ≡ c.link = ap (λ d. d.link) a.conn in
      let next_part = b t (λ x. ap (λ g. g x) l ∙ h x) (ap (λ d. d.wbuf) a.conn) in
      record {
        fine = rw a.fine next_part.fine;
        wire = a.wire ++ next_part.wire;
        is = join a.wire next_part.wire a.is next_part.is;
        conn = rw a.fine (
            next_part.conn
            ∙ ap (λ d. wrote_conn d next_part.wire) a.conn
            ∙ ap (λ b. record c { sent = b; wbuf = [] })
                (append_assoc c.sent a.wire next_part.wire));
      }

  pub send_line-Wrote :
      (line : Text) (s : Sender fl)
      → IsHealthy s.conn
      → s.conn.wbuf ≡ []
      → Wrote s.conn (on_conn (send_line line) s) (λ w. w ≡ line ++ 10 ∷ [])
  unfolding send_line
  send_line-Wrote line s h e = record {
    fine = rw (h s.conn.sent);
    wire = line ++ 10 ∷ [];
    is = refl;
    conn = rw (h s.conn.sent) (
        ap (λ b. record s.conn { sent = s.conn.sent ++ b; wbuf = [] })
          (ap (λ b. b ++ line ++ 10 ∷ []) e));
  }

  pub end_line-Wrote :
      (s : Sender fl)
      → IsHealthy s.conn
      → s.conn.wbuf ≡ []
      → Wrote s.conn
          ((do on_conn (send_line (codes "E")); modify count_sent) s)
          (λ w. w ≡ b'E' ∷ 10 ∷ [])
  end_line-Wrote s h e =
      let a = send_line-Wrote (codes "E") s h e in
      record { fine = rw a.fine; wire = a.wire; is = a.is; conn = rw a.fine a.conn }

  pub Wrote-nothing :
      (s : Sender fl) (P : List ℕ → Type 0) → s.conn.wbuf ≡ [] → P [] → Wrote s.conn (ok tt, s) P
  Wrote-nothing s P e p = record {
    fine = refl;
    wire = [];
    is = p;
    conn = ground (arith, append-nil s.conn.sent);
  }
