-- ===== src/Server/Session/Rounds.antt =====
-- rust/src/server.rs: the loop over the commands of a session ends.
use folder_transfer.Prelude.{
  ℕ, zero, suc, ◌+◌, ◌≤◌, ◌<◌, ◌≡◌, refl, ap, ◌∙◌, Bool, true, false, if◌then◌else◌, Bool-cases,
  inl, inr, Option, none, some, arith,
}
use folder_transfer.Text.{Text, codes, text_eq}
use folder_transfer.Io.{IoError, Io, ok, done}
use folder_transfer.Io.Size.{Shrinks, bind-agree}
use folder_transfer.Wire.{read_line, send_line}
use folder_transfer.Wire.Input.{lines_of, read_line_size, send_line-Shrinks}
use folder_transfer.Ignore.{Regexes, IgnoreSet}
use folder_transfer.Platform.{Floats, Zstd, Clock}
use folder_transfer.Server.{Sender, on_conn}
use folder_transfer.Server.Input.{sender_size}
use folder_transfer.Server.Pass.Input.{send_pass-Shrinks}
use folder_transfer.Server.Pass.{and_then}
use folder_transfer.Server.Session.{
  ServeConfig, Disk, wait_cutover, one_pass, final_pass, done_line, sync_command, command,
  session_loop,
}

module _ ⦃fl : Floats⦄ where
  wait_cutover-Shrinks : (n ticks : ℕ) → Shrinks sender_size (wait_cutover n ticks)
  unfolding wait_cutover
  wait_cutover-Shrinks zero ticks s = omega arith
  wait_cutover-Shrinks (suc n) ticks s = grind (arith, send_line-Shrinks, wait_cutover-Shrinks n)

  and_then_agree :
      (a b c : Sender fl → Io Bool × Sender fl) (s : Sender fl)
      → ((a s).0 ≡ ok true → b (a s).1 ≡ c (a s).1)
      → and_then a b s ≡ and_then a c s
  and_then_agree a b c s h =
      bind-agree a (λ more. if more then b else done false) (λ more. if more then c else done false)
        s (on_more (a s).0 h)
    where
      on_more :
          (r : Io Bool)
          → (r ≡ ok true → b (a s).1 ≡ c (a s).1)
          → (more : Bool) → r ≡ ok more
          → (if more then b else done false) (a s).1 ≡ (if more then c else done false) (a s).1
      on_more r g true e = g e
      on_more r g false e = refl

module _ ⦃fl : Floats⦄ ⦃z : Zstd⦄ ⦃clock : Clock fl⦄ ⦃rx : Regexes⦄ (cfg : ServeConfig fl)
    (ignore : IgnoreSet rx) (token : Text) (disk : ℕ → Disk) (looks : ℕ) where
  one_pass-Shrinks : (n : ℕ) → Shrinks sender_size (one_pass cfg ignore token disk looks n)
  unfolding one_pass
  one_pass-Shrinks n s = grind (arith, send_pass-Shrinks, send_line-Shrinks)

  final_pass-Shrinks : (n : ℕ) → Shrinks sender_size (final_pass cfg ignore token disk looks n)
  unfolding final_pass
  final_pass-Shrinks n s = grind (arith, wait_cutover-Shrinks, send_line-Shrinks, one_pass-Shrinks)

  done_line-Shrinks : Shrinks sender_size (done_line cfg ignore token disk looks)
  unfolding done_line
  done_line-Shrinks s = grind (arith, send_line-Shrinks)

  sync_command-Shrinks : (n : ℕ) → Shrinks sender_size (sync_command cfg ignore token disk looks n)
  unfolding sync_command
  sync_command-Shrinks n s = grind (arith, one_pass-Shrinks, final_pass-Shrinks, done_line-Shrinks)

  command_agree :
      (again again' : Sender fl → Io Bool × Sender fl) (n : ℕ) (line : Option Text) (s : Sender fl)
      → ((t : Sender fl)
          → sender_size t ≤ sender_size s
          → lines_of (ok line) ≡ 1
          → again t ≡ again' t)
      → command cfg ignore token disk looks again n line s
        ≡ command cfg ignore token disk looks again' n line s
  unfolding command
  command_agree again again' n none s h = refl
  command_agree again again' n (some cmd) s h = elim (Bool-cases (text_eq cmd (codes "SYNC"))) [
    | inl e ↦ rw e (
        and_then_agree (sync_command cfg ignore token disk looks n) again again' s
          (λ _. h _ (sync_command-Shrinks n s) refl))
    | inr e ↦ rw e elim (Bool-cases (text_eq cmd (codes "BYE"))) [
      | inl e' ↦ rw e' refl
      | inr e' ↦ rw e' (
          bind-agree (on_conn (send_line (codes "ERR cmd"))) (λ _. again) (λ _. again') s
            (λ _ _. h _ (send_line-Shrinks _ s.conn) refl))
    ]
  ]

  -- The loop over the commands of a client ends: each round takes a line from what the client sends, so that
  -- any number of rounds above the bytes of the input is enough, gives the same result and the same state, and is
  -- never used up: the error of a loop that used its rounds up makes no difference.
  pub session_loop_enough :
      (spent spent' : IoError) (k j n : ℕ) (s : Sender fl)
      → sender_size s < k
      → sender_size s < j
      → session_loop cfg ignore token disk looks spent k n s
        ≡ session_loop cfg ignore token disk looks spent' j n s
  unfolding session_loop
  session_loop_enough spent spent' zero j n s h h' = absurd (omega arith)
  session_loop_enough spent spent' (suc k) zero n s h h' = absurd (omega arith)
  session_loop_enough spent spent' (suc k) (suc j) n s h h' =
      bind-agree (on_conn read_line) _ _ s λ line e.
        command_agree _ _ n line (record s { conn = (read_line s.conn).1 })
          λ t le one.
            let some_line : lines_of (read_line s.conn).0 ≡ 1 = ap lines_of e ∙ one in
            session_loop_enough spent spent' k j (n + 2) t (omega (arith, read_line_size s.conn))
              (omega (arith, read_line_size s.conn))
