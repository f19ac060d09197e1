-- ===== src/Server/Pass/Follows.antt =====
-- What it means that a step of the pass does what the producer's units ask for, and how steps are put together.
use folder_transfer.Prelude.{
  ◌≡◌, ◌≢◌, subst, refl, sym, ap, ◌∙◌, fun_ext, Bool, true, false, List, [], ◌∷◌, ◌++◌, Option,
  append_assoc, append-nil, if◌then◌else◌,
}
use folder_transfer.Io.{Io, IoError, ok, err, continue, done}
use folder_transfer.Paths.{FilePath}
use folder_transfer.Platform.{Floats, Zstd, Clock}
use folder_transfer.Server.{File, Sender}
use folder_transfer.Server.Walk.{WorkUnit, Producer}
use folder_transfer.Server.Pass.{Pass, and_then, serve_unit}

pub pair_eq : {A B : Type 0} {p : A × B} {a : A} {b : B} → a ≡ p.0 → b ≡ p.1 → (a, b) ≡ p
pair_eq {A} {B} {p} {a} {b} e f = ap (λ x. (x, b)) e ∙ ap (λ y. (p.0, y)) f

-- What follows a result.
abbrev pub after : {S : Type 0} → Io Bool × S → (S → Io Bool × S) → Io Bool × S
after (r, s) k = continue r (λ more. if more then k else done false) s

pub after_assoc :
    {S : Type 0} (r : Io Bool × S) (b c : S → Io Bool × S)
    → after (after r b) c ≡ after r (λ s. after (b s) c)
after_assoc (ok true, s) b c = refl
after_assoc (ok false, s) b c = refl
after_assoc (err e, s) b c = refl

pub after_done : {S : Type 0} (r : Io Bool × S) → after r (λ s. (ok true, s)) ≡ r
after_done (ok true, s) = refl
after_done (ok false, s) = refl
after_done (err e, s) = refl

pub stopped : {e : IoError} → ◌≢◌ {A = Io Bool} (err e) (ok true)
stopped h = cc

pub dropped : ok false ≢ ok true
dropped h = cc

pub true_not : true ≢ false
true_not h = cc

module _ ⦃fl : Floats⦄ ⦃z : Zstd⦄ ⦃clock : Clock fl⦄ (open_file : FilePath → Option File)
    (use_compress : Bool) where
  -- One unit after another, as long as the client is there.
  unfoldable pub serve_units : List WorkUnit → Sender fl → Io Bool × Sender fl
  serve_units [] s = (ok true, s)
  serve_units (u ∷ us) s = and_then (serve_unit open_file use_compress false u) (serve_units us) s

  pub serve_units-append :
      (us vs : List WorkUnit) (s : Sender fl)
      → serve_units (us ++ vs) s ≡ after (serve_units us s) (serve_units vs)
  unfolding serve_units
  serve_units-append [] vs s = refl
  serve_units-append (u ∷ us) vs s =
      let r = serve_unit open_file use_compress false u s in
      ap (λ k. after r k) (fun_ext (λ t. serve_units-append us vs t))
      ∙ sym (after_assoc r (serve_units us) (serve_units vs))

  pub record Agrees (p : Pass) (q : Producer) : Type 0 where
    pub same_bundle : p.bundle ≡ q.bundle
    pub same_bytes : p.bbytes ≡ q.bbytes

  abbrev pub Ends : Io Bool × Pass → Io Bool × Sender fl → Producer → Type 0
  Ends r t q = (r.0 ≡ t.0) × (r.1.to ≡ t.1) × (r.0 ≡ ok true → Agrees r.1 q)

  -- `r`, the outcome of a step from `s`, is that of serving the units by which `q` is ahead of `old`.
  pub record Follows (r : Io Bool × Pass) (q : Producer) (s : Sender fl) (old : List WorkUnit)
      : Type 0 where
    pub units : List WorkUnit
    pub queued : q.queued ≡ old ++ units
    pub result : r.0 ≡ (serve_units units s).0
    pub to : r.1.to ≡ (serve_units units s).1
    pub held : r.0 ≡ ok true → Agrees r.1 q

  abbrev pub FollowsAll : (Pass → Io Bool × Pass) → (Producer → Producer) → Type 0
  FollowsAll m g = (p : Pass) (q : Producer) → Agrees p q → Follows (m p) (g q) p.to q.queued

  pub Follows-nothing :
      (p : Pass) (q : Producer) → Agrees p q → Follows (ok true, p) q p.to q.queued
  unfolding serve_units
  Follows-nothing p q a = record {
    units = [];
    queued = sym (append-nil q.queued);
    result = refl;
    to = refl;
    held = λ h. a;
  }

  pub Follows-if :
      {r r' : Io Bool × Pass} {x x' : Producer} {s : Sender fl} {old : List WorkUnit} (b c : Bool)
      → b ≡ c
      → Follows r x s old
      → Follows r' x' s old
      → Follows (if b then r else r') (if c then x else x') s old
  Follows-if true true e f g = f
  Follows-if true false e f g = absurd (true_not e)
  Follows-if false true e f g = absurd (true_not (sym e))
  Follows-if false false e f g = g

  -- A unit that is enqueued at once.
  pub Follows-unit :
      (u : WorkUnit) (r : Io Bool × Pass) (q : Producer) (s : Sender fl) (old : List WorkUnit)
      → q.queued ≡ old ++ u ∷ []
      → Ends r (serve_unit open_file use_compress false u s) q
      → Follows r q s old
  unfolding serve_units
  Follows-unit u r q s old e (result, to, held) =
      let one = after_done (serve_unit open_file use_compress false u s) in
      record {
        units = u ∷ [];
        queued = e;
        result = result ∙ ap (λ x. x.0) (sym one);
        to = to ∙ ap (λ x. x.1) (sym one);
        held = held;
      }

  -- The pass `p` with what the producer `q` holds.
  abbrev pub mixed : Pass → Producer → Pass
  mixed p q = record { to = p.to; bundle = q.bundle; bbytes = q.bbytes }

  pub mixed-Agrees : (p : Pass) (q : Producer) → Agrees p q → mixed p q ≡ p
  mixed-Agrees p q a =
      ap (λ b. record p { bundle = b; bbytes = q.bbytes }) (sym a.same_bundle)
      ∙ ap (λ n. record p { bbytes = n }) (sym a.same_bytes)

  pub Ends-after :
      (k : Pass → Io Bool × Pass) (h : Producer → Producer) (r : Io Bool × Pass) (q : Producer)
      → (r.0 ≡ ok true → Agrees r.1 q)
      → (two : Follows (k (mixed r.1 q)) (h q) r.1.to q.queued)
      → Ends (after r k) (after (r.0, r.1.to) (serve_units two.units)) (h q)
  Ends-after k h (ok true, p) q a two =
      subst (λ x. Ends (k x) (serve_units two.units p.to) (h q)) (mixed-Agrees p q (a refl))
        (two.result, two.to, two.held)
  Ends-after k h (ok false, p) q a two = (refl, refl, λ e. absurd (dropped e))
  Ends-after k h (err e, p) q a two = (refl, refl, λ x. absurd (stopped x))

  pub Follows-then :
      (m k : Pass → Io Bool × Pass) (g h : Producer → Producer)
      → FollowsAll m g
      → FollowsAll k h
      → FollowsAll (and_then m k) (λ q. h (g q))
  Follows-then m k g h f f' p q a =
      let one = f p q a in
      let two = f' (mixed (m p).1 (g q)) (g q) (record { same_bundle = refl; same_bytes = refl }) in
      let (result, to, held) = Ends-after k h (m p) (g q) one.held two in
      let both : after ((m p).0, (m p).1.to) (serve_units two.units)
          ≡ serve_units (one.units ++ two.units) p.to =
        ap (λ t. after t (serve_units two.units)) (pair_eq one.result one.to)
        ∙ sym (serve_units-append one.units two.units p.to) in
      record {
        units = one.units ++ two.units;
        queued =
            two.queued
            ∙ ap (λ us. us ++ two.units) one.queued
            ∙ append_assoc q.queued one.units two.units;
        result = result ∙ ap (λ x. x.0) both;
        to = to ∙ ap (λ x. x.1) both;
        held = held;
      }
