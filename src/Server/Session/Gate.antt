-- ===== src/Server/Session/Gate.antt =====
-- rust/src/server.rs: a client without the token gets nothing of the shares.
use folder_transfer.Prelude.{
  ℕ, ◌≡◌, ◌≢◌, ◌⊎◌, refl, ap, ◌||◌, none, some, Bool, true, false, ℤ, pos, List, [], ◌∷◌, ◌++◌,
  Option, Bool-cases, inl, inr, ◌∙◌,
}
use folder_transfer.Text.{Text, codes, strip_prefix, text_eq}
use folder_transfer.Text.Laws.{text_eq_iff, strip_prefix-cases}
use folder_transfer.Server.Walk.{is_empty}
use folder_transfer.Io.{Io, ok, err, done, continue, ◌>>◌}
use folder_transfer.Wire.{Conn, read_line, send_line, flush, put_line}
use folder_transfer.Wire.Input.{read_line_keeps}
use folder_transfer.Paths.{FilePath}
use folder_transfer.Ignore.{Regexes, IgnoreSet}
use folder_transfer.Platform.{Floats, Zstd, Clock}
use folder_transfer.Server.{File, Sender, on_conn}
use folder_transfer.Server.Pass.{and_then}
use folder_transfer.Server.Session.{
  ServeConfig, Disk, Taken, ip_allowed, authed, authenticate, handle_session, parallel_handler,
}

-- Nothing was sent, or what was queued before and `ERR auth`; and the session does not count as one that ended well.
pub record IsRefused {fl : Floats} (s : Sender fl) (r : Io Bool × Sender fl) : Type 0 where
  pub sent :
      (r.1.conn.sent ≡ s.conn.sent)
      ⊎ (r.1.conn.sent ≡ s.conn.sent ++ (s.conn.wbuf ++ codes "ERR auth" ++ 10 ∷ []))
  pub unclean : (r.0 ≡ ok true) → ⊥

is_empty-cons : (s : Text) → s ≢ [] → is_empty s ≡ false
is_empty-cons [] h = absurd (h refl)
is_empty-cons (c ∷ s) h = refl

-- A line that is not `AUTH` with the whole token behind it is not let in.
not_authed :
    (token : Text) (line : Option Text)
    → token ≢ []
    → ((l : Text) → line ≡ some l → l ≢ codes "AUTH " ++ token)
    → authed token line ≡ false
unfolding authed
not_authed token none nonempty other = refl
not_authed token (some l) nonempty other = go (strip_prefix (codes "AUTH ") l) refl
  where
    go :
        (r : Option Text)
        → strip_prefix (codes "AUTH ") l ≡ r
        → (elim r [ some t ↦ is_empty token || text_eq t token | none ↦ false ]) ≡ false
    go none e = refl
    go (some t) e = elim (Bool-cases (text_eq t token)) [
      | inr other_token ↦ rw (is_empty-cons token nonempty, other_token) refl
      | inl same ↦
          let whole : l ≡ codes "AUTH " ++ token =
            strip_prefix-cases (codes "AUTH ") l t e
            ∙ ap (λ x. codes "AUTH " ++ x) ((text_eq_iff t token).0 same) in
          absurd (other l refl whole)
    ]

module _ ⦃fl : Floats⦄ where
  refuse-IsRefused :
      (body : Sender fl → Io Bool × Sender fl) (s : Sender fl)
      → IsRefused s (and_then (do on_conn (send_line (codes "ERR auth")); done false) body s)
  unfolding send_line put_line flush
  refuse-IsRefused body s = elim (Bool-cases (s.conn.link s.conn.sent)) [
    | inl e ↦ rw e (record { sent = inr refl; unclean = λ u. cc })
    | inr e ↦ rw e (record { sent = inl refl; unclean = λ u. cc })
  ]

  -- What follows the first line of a client without the token.
  gate-IsRefused :
      (token ignore_spec : Text) (streams : ℤ) (line : Option Text)
      (body : Sender fl → Io Bool × Sender fl) (s : Sender fl)
      → authed token line ≡ false
      → IsRefused s (and_then (authenticate token streams ignore_spec line) body s)
  unfolding authenticate send_line put_line flush
  gate-IsRefused token ignore_spec streams line body s h = rw h (refuse-IsRefused body s)

  moved-IsRefused :
      (s : Sender fl) (c : Conn) (r : Io Bool × Sender fl)
      → c.sent ≡ s.conn.sent
      → c.wbuf ≡ s.conn.wbuf
      → IsRefused (record s { conn = c }) r
      → IsRefused s r
  moved-IsRefused s c r e e' v = record {
    sent = elim v.sent [ inl k ↦ inl (k ∙ e) | inr k ↦ inr (rw (← e, ← e') k) ];
    unclean = v.unclean;
  }

  first_line-IsRefused :
      (next : Option Text → Sender fl → Io Bool × Sender fl) (s : Sender fl)
      (r : Io (Option Text) × Conn)
      → (r.1.sent ≡ s.conn.sent) × (r.1.wbuf ≡ s.conn.wbuf)
      → ((line : Option Text)
          → r.0 ≡ ok line
          → IsRefused (record s { conn = r.1 }) (next line (record s { conn = r.1 })))
      → IsRefused s (continue r.0 next (record s { conn = r.1 }))
  first_line-IsRefused next s (ok line, c) (e, e') h = moved-IsRefused s c _ e e' (h line refl)
  first_line-IsRefused next s (err x, c) (e, e') h = record { sent = inl e; unclean = λ u. cc }

module _ ⦃fl : Floats⦄ ⦃z : Zstd⦄ ⦃clock : Clock fl⦄ where
  -- With a token that is not empty, a client whose first line is not `AUTH`, a space and the whole token, or whose
  -- connection gives none: at most the line
  -- `ERR auth` is sent, behind what was queued, and the session does not end well, whatever is shared.
  pub handle_session-IsRefused :
      ⦃rx : Regexes⦄ (cfg : ServeConfig fl) (ignore : IgnoreSet rx) (token : Text) (disk : ℕ → Disk)
      (looks : ℕ) (peer : Option Text) (s : Sender fl)
      → token ≢ []
      → ((line : Text) → (read_line s.conn).0 ≡ ok (some line) → line ≢ codes "AUTH " ++ token)
      → IsRefused s (handle_session cfg ignore token disk looks peer s)
  unfolding handle_session
  handle_session-IsRefused cfg ignore token disk looks peer s nonempty h =
      elim (Bool-cases (ip_allowed peer cfg.allow_ip)) [
        | inl e ↦ rw e (
            first_line-IsRefused _ s (read_line s.conn) (read_line_keeps s.conn) λ line l.
              gate-IsRefused token cfg.ignore_spec (pos 1) line _ _
                (not_authed token line nonempty (λ t e. h t (l ∙ ap ok e))))
        | inr e ↦ rw e (record { sent = inl refl; unclean = λ u. cc })
      ]

  pub parallel_handler-IsRefused :
      (open_file : FilePath → Option File) (use_compress : Bool) (cfg : ServeConfig fl)
      (token : Text) (streams : ℤ) (taken : List Taken) (peer : Option Text) (s : Sender fl)
      → token ≢ []
      → ((line : Text) → (read_line s.conn).0 ≡ ok (some line) → line ≢ codes "AUTH " ++ token)
      → IsRefused s (parallel_handler open_file use_compress cfg token streams taken peer s)
  unfolding parallel_handler
  parallel_handler-IsRefused open_file use_compress cfg token streams taken peer s nonempty h =
      elim (Bool-cases (ip_allowed peer cfg.allow_ip)) [
        | inl e ↦ rw e (
            first_line-IsRefused _ s (read_line s.conn) (read_line_keeps s.conn) λ line l.
              gate-IsRefused token cfg.ignore_spec streams line _ _
                (not_authed token line nonempty (λ t e. h t (l ∙ ap ok e))))
        | inr e ↦ rw e (record { sent = inl refl; unclean = λ u. cc })
      ]
