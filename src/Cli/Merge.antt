-- ===== src/Cli/Merge.antt =====
-- What the command line and the file add up to.
use folder_transfer.Prelude.{
  ℤ, pos, ltb_ℤ, ◌≤ℤ◌, ◌≡◌, ◌≢◌, subst, refl, ap, Bool, true, false, ◌||◌, List, [], ◌∷◌, ◌++◌,
  Option, none, some, arith, if◌then◌else◌, Bool-cases, inl, inr,
}
use folder_transfer.Text.{Text, codes, contains_text}
use folder_transfer.Server.Walk.{is_empty}
use folder_transfer.Cli.{
  is_explicit, rewrite_argv, ServeArgs, ServeFileConfig, Settings, or_else, option_list, unwrap_or,
  clamp_streams, merged, merge_serve,
}

explicit_get : is_explicit (codes "get") ≡ true
unfolding is_explicit contains_text
explicit_get = refl

explicit_serve : is_explicit (codes "serve") ≡ true
unfolding is_explicit contains_text
explicit_serve = refl

-- Rewriting the command line a second time changes nothing, whatever files there are.
pub rewrite_argv_idem :
    (is_client : Text → Bool) (argv : List Text)
    → rewrite_argv is_client (rewrite_argv is_client argv) ≡ rewrite_argv is_client argv
unfolding rewrite_argv
rewrite_argv_idem is_client [] = refl
rewrite_argv_idem is_client (program ∷ []) = refl
rewrite_argv_idem is_client (program ∷ pos1 ∷ rest) = elim (Bool-cases (is_explicit pos1)) [
  | inl explicit ↦ rw (explicit, explicit) refl
  | inr plain ↦ elim (Bool-cases (is_client pos1)) [
    | inl client ↦ rw (plain, client, explicit_get) refl
    | inr other ↦ rw (plain, other, explicit_serve) refl
  ]
]

none_not : {A : Type 0} {a : A} → ◌≢◌ {A = Option A} none (some a)
none_not h = cc

some_eq : {A : Type 0} {a b : A} → some a ≡ some b → a ≡ b
some_eq h = cc

cons_not : {A : Type 0} {a : A} {l : List A} → a ∷ l ≢ []
cons_not h = cc

pub IsSound : {F : Type 0} → Settings F → Type 0
IsSound s =
    (s.folders ≢ [])
    × (pos 1 ≤ℤ s.streams)
    × (s.cutover ≡ true → (s.streams ≡ pos 1) × (s.once ≡ true))

of_guarded :
    {F : Type 0} (folders : List Text) (x s : Settings F)
    → (folders ≢ [] → IsSound x)
    → (if is_empty folders then none else some x) ≡ some s
    → IsSound s
of_guarded [] x s f h = absurd (none_not h)
of_guarded (t ∷ folders) x s f h = subst IsSound (some_eq h) (f (λ e. cons_not e))

least : (n : ℤ) → ltb_ℤ n (pos 1) ≡ false → pos 1 ≤ℤ n
least n h = ground arith

clamp_streams-least : (cutover : Bool) (n : ℤ) → pos 1 ≤ℤ clamp_streams cutover n
clamp_streams-least true n = omega arith
clamp_streams-least false n = elim (Bool-cases (ltb_ℤ n (pos 1))) [
  | inl low ↦ rw low (omega arith)
  | inr high ↦ rw high (least n high)
]

-- The settings of a server, whatever the command line and the file hold: there is a folder; there is at
-- least one stream; and with a cutover there is exactly one, and the server ends after one session.
pub merge_serve-IsSound :
    {F : Type 0} (margin : F) (folder_pos : Option Text) (a : ServeArgs F) (cfg : ServeFileConfig F)
    (s : Settings F)
    → merge_serve margin folder_pos a cfg ≡ some s
    → IsSound s
unfolding merge_serve IsSound
merge_serve-IsSound margin folder_pos a cfg s h =
    let folders = (cfg.folders ++ option_list cfg.folder) ++ option_list folder_pos in
    let cutover = a.cutover || unwrap_or cfg.cutover false in
    let streams = unwrap_or (or_else a.streams cfg.streams) (pos 4) in
    of_guarded folders (merged margin folder_pos a cfg) s
      (λ some_folder. (
        some_folder,
        clamp_streams-least cutover streams,
        λ c. (
          ap (λ b. clamp_streams b streams) c,
          ap (λ b. b || (a.once || unwrap_or cfg.once false)) c,
        ),
      ))
      h
