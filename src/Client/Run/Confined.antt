-- ===== src/Client/Run/Confined.antt =====
-- rust/src/client.rs: whatever a server sends, a run changes nothing outside of the destination.
use folder_transfer.Prelude.{
  ℕ, zero, suc, ◌+◌, ◌≤◌, ◌≡◌, ◌≢◌, refl, ap, ◌∙◌, Bool, true, false, [], Option, none, some, arith,
  if◌then◌else◌, Bool-cases, inl, inr, length,
}
use native.Mathlib.Decide.{ℕ_discrete}
use folder_transfer.Text.{Text, codes, text_eq}
use folder_transfer.Io.{IoError, connection, Io, ok, err, done, ◌>>=◌}
use folder_transfer.Io.Size.{Shrinks, bind-Shrinks}
use folder_transfer.Wire.{read_line}
use folder_transfer.Paths.{FilePath, root_prefix}
use folder_transfer.Paths.Safety.{IsPath}
use folder_transfer.Ignore.{Regexes, IgnoreSet}
use folder_transfer.Platform.{Zstd}
use folder_transfer.Fs.{Node, metadata}
use folder_transfer.Client.{Client, clear_seen, expect_line}
use folder_transfer.Client.Confined.{is_below, roots_outside}
use folder_transfer.Client.Items.{dispatch_item}
use folder_transfer.Client.Items.Confined.{dispatch_item_confined}
use folder_transfer.Client.Delete.Confined.{mirror_delete_confined}
use folder_transfer.Client.Run.{
  Served, deleting, pass_items, next_control, passes, mirror, run_passes, run_single, single_result,
  units_loop, serve_units,
}

module _ ⦃z : Zstd⦄ (to : FilePath) (valid : IsPath to) (nonroot : to ≢ []) (p : FilePath)
    (outside : is_below to p ≡ false) (code : Option Node → ℕ)
    (top : (o : Option Node) → code o ≤ code none) where
  abbrev pub harm : Client → ℕ
  harm s = code (metadata p s.fs) + roots_outside to s.mir.roots

  item-Shrinks :
      (h : Text) (stream_mode : Bool)
      → Shrinks harm (dispatch_item to (root_prefix to) h stream_mode)
  item-Shrinks = dispatch_item_confined to valid nonroot p outside code top

  pass_items-Shrinks :
      (spent : IoError) (k : ℕ) → Shrinks harm (pass_items to (root_prefix to) spent k)
  unfolding pass_items
  pass_items-Shrinks spent zero s = omega arith
  pass_items-Shrinks spent (suc k) s =
      let t : Client = record s { conn = (read_line s.conn).1 } in
      grind (arith, item-Shrinks, pass_items-Shrinks spent k t, pass_items-Shrinks spent k)

  next_control-Shrinks :
      (spent : IoError) (k : ℕ) → Shrinks harm (next_control to (root_prefix to) spent k)
  unfolding next_control
  next_control-Shrinks spent zero s = omega arith
  next_control-Shrinks spent (suc k) s =
      let t : Client = record s { conn = (read_line s.conn).1 } in
      ground (arith, next_control-Shrinks spent k t)

  -- What follows a pass.
  abbrev by_control : (Client → Io Bool × Client) → Option Text → Client → Io Bool × Client
  by_control rest none = done false
  by_control rest (some d) =
      if text_eq d (codes "GO") then rest else done (text_eq d (codes "DONE"))

  by_control-Shrinks :
      (rest : Client → Io Bool × Client) (next : Option Text)
      → Shrinks harm rest
      → Shrinks harm (by_control rest next)
  by_control-Shrinks rest none h s = omega arith
  by_control-Shrinks rest (some d) h s = elim (Bool-cases (text_eq d (codes "GO"))) [
    | inl go ↦ rw go (h s)
    | inr end ↦ rw end (omega arith)
  ]

  abbrev if_more : (Client → Io Bool × Client) → Bool → Client → Io Bool × Client
  if_more m more = if more then m else done false

  if_more-Shrinks :
      (m : Client → Io Bool × Client) (more : Bool) → Shrinks harm m → Shrinks harm (if_more m more)
  if_more-Shrinks m true h s = h s
  if_more-Shrinks m false h s = omega arith

  passes-Shrinks : (spent : IoError) (k : ℕ) → Shrinks harm (passes to (root_prefix to) spent k)
  unfolding passes clear_seen
  passes-Shrinks spent zero s = omega arith
  passes-Shrinks spent (suc k) s =
      let rest = passes to (root_prefix to) spent k in
      let control = (do
        next ← next_control to (root_prefix to) spent (suc k)
        by_control rest next) in
      let control-Shrinks : Shrinks harm control =
        bind-Shrinks harm (next_control to (root_prefix to) spent (suc k)) (by_control rest)
          (next_control-Shrinks spent (suc k))
          (λ next. by_control-Shrinks rest next (passes-Shrinks spent k)) in
      bind-Shrinks harm (pass_items to (root_prefix to) spent (suc k)) (if_more control)
        (pass_items-Shrinks spent (suc k)) (λ more. if_more-Shrinks control more control-Shrinks)
        (record s { mir = clear_seen s.mir })

  abbrev served_harm : Served → ℕ
  served_harm s = harm s.client

  units_loop-Shrinks :
      (stream_mode : Bool) (spent : IoError) (k : ℕ)
      → Shrinks served_harm (units_loop to (root_prefix to) stream_mode spent k)
  unfolding units_loop
  units_loop-Shrinks stream_mode spent zero s = omega arith
  units_loop-Shrinks stream_mode spent (suc k) s =
      let t : Served = record s {
        client = record s.client { conn = (expect_line s.client.conn).1 };
      } in
      grind (
        arith,
        item-Shrinks,
        units_loop-Shrinks stream_mode spent k t,
        units_loop-Shrinks stream_mode spent k,
      )

  pub harm-serve_units :
      (stream_mode : Bool) (s : Client)
      → harm (serve_units to (root_prefix to) stream_mode s).1 ≤ harm s
  unfolding serve_units
  harm-serve_units stream_mode s = grind (arith, units_loop-Shrinks stream_mode connection)

  mirror_code :
      ⦃rx : Regexes⦄ (ignore : IgnoreSet rx) (s : Client)
      → roots_outside to s.mir.roots ≡ 0
      → harm (mirror to (root_prefix to) ignore s) ≡ harm s
  unfolding mirror
  mirror_code ignore s h = omega (
    arith,
    ap code (mirror_delete_confined (root_prefix to) ignore s.mir to p outside (deleting s) h),
  )

  harm-run_passes :
      ⦃rx : Regexes⦄ (ignore : IgnoreSet rx) (s : Client)
      → roots_outside to s.mir.roots ≡ 0
      → code (metadata p s.fs) ≡ 0
      → harm (run_passes to (root_prefix to) ignore s).1 ≡ 0
  unfolding run_passes
  harm-run_passes ignore s h c =
      grind (arith, passes-Shrinks connection (suc (length s.conn.input)), mirror_code ignore, h, c)

  harm-single_result : (r : Io Bool × Client) → harm (single_result r).1 ≡ harm r.1
  harm-single_result (ok clean, t) = refl
  harm-single_result (err e, t) = refl

  pub harm-run_single :
      ⦃rx : Regexes⦄ (ignore : IgnoreSet rx) (s : Client)
      → roots_outside to s.mir.roots ≡ 0
      → code (metadata p s.fs) ≡ 0
      → harm (run_single to (root_prefix to) ignore s).1 ≡ 0
  unfolding run_single
  harm-run_single ignore s h c =
      harm-single_result (run_passes to (root_prefix to) ignore s) ∙ harm-run_passes ignore s h c

pub Node-discrete : Discrete (Option Node)
Node-discrete = hlevel (ℕ_discrete)

-- 0 for what stood there, and 1 for all else.
abbrev pub flag : {A : Type 0} → Dec A → ℕ
flag (yes e) = 0
flag (no e) = 1

pub flag-yes : {A : Type 0} (d : Dec A) → A → flag d ≡ 0
flag-yes (yes e) a = refl
flag-yes (no e) a = absurd (e a)

flag-no : {A : Type 0} (d : Dec A) → (A → ⊥) → flag d ≡ 1
flag-no (yes e) f = absurd (f e)
flag-no (no e) f = refl

pub flag-zero : {A : Type 0} (d : Dec A) → flag d ≡ 0 → A
flag-zero (yes e) h = e
flag-zero (no e) h = absurd (omega (arith, h))

flag-le : {A : Type 0} (d : Dec A) → flag d ≤ 1
flag-le (yes e) = omega arith
flag-le (no e) = omega arith

abbrev pub other_than : Node → Option Node → ℕ
other_than n o = flag (Node-discrete o (some n))

pub other_than-top : (n : Node) (o : Option Node) → other_than n o ≤ other_than n none
other_than-top n o =
    omega
      (arith, flag-le (Node-discrete o (some n)), flag-no (Node-discrete none (some n)) (λ e. cc))
