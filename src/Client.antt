-- ===== src/Client.antt =====
-- rust/src/client.rs: the state of a run, and what it is told to write.
pub mod Input
pub mod Receive
pub mod Items
pub mod Run
pub mod Delete
pub mod Confined
use folder_transfer.Prelude.{
  ℕ, zero, suc, ◌+◌, ℤ, Bool, true, false, ◌&&◌, ◌||◌, not, List, [], ◌∷◌, ◌++◌, Option, none, some,
  ltb, leb, ◌==◌, ltb_ℤ, if◌then◌else◌, length,
}
use folder_transfer.Text.{Text, codes, text_eq, contains_text, split_once}
use folder_transfer.Text.Number.{parse_u64, parse_i64}
use folder_transfer.Io.{Io, ok, err, unexpected_eof}
use folder_transfer.Wire.{Conn, read_line}
use folder_transfer.Mtime.{SystemTime, systemtime_to_ticks}
use folder_transfer.Paths.{FilePath, norm_key, safe_join, top_segment}
use folder_transfer.Fs.{Node, file, dir, Fs, metadata, path_eq}
use folder_transfer.Progress.{Progress}

pub record Stats : Type 0 where
  pub got : ℕ
  pub skipped : ℕ
  pub bytes : ℕ
  pub deleted : ℕ

abbrev pub no_stats : Stats
no_stats = record { got = 0; skipped = 0; bytes = 0; deleted = 0 }

-- The two sets of `Mirror`, as lists.
pub record Mirror : Type 0 where
  pub seen : List Text
  pub roots : List FilePath

abbrev pub no_mirror : Mirror
no_mirror = record { seen = []; roots = [] }

-- One connection and what it changes.
pub record Client : Type 0 where
  pub conn : Conn
  pub fs : Fs
  pub mir : Mirror
  pub stats : Stats
  pub prog : Progress

abbrev pub on_conn {ℓ} : {A : Type ℓ} → (Conn → Io A × Conn) → Client → Io A × Client
on_conn m s = let (r, c) = m s.conn in (r, record s { conn = c })

abbrev pub on_fs {ℓ} : {A : Type ℓ} → (Fs → Io A × Fs) → Client → Io A × Client
on_fs m s = let (r, fs) = m s.fs in (r, record s { fs = fs })

unfoldable pub eq_ℤ : ℤ → ℤ → Bool
eq_ℤ a b = not (ltb_ℤ a b || ltb_ℤ b a)

unfoldable pub need_fetch : FilePath → ℕ → ℤ → Fs → Bool
need_fetch p size mt fs = elim (metadata p fs) [
  | some (file content t) ↦
      if length content == size then not (eq_ℤ (systemtime_to_ticks t) mt) else true
  | some dir ↦ true
  | none ↦ true
]

unfoldable pub named : ℕ → ℤ → Text → Option (ℕ × ℤ × Text)
named size mt [] = none
named size mt (c ∷ rel) = some (size, mt, c ∷ rel)

unfoldable pub with_time : ℕ → Text → Option (ℕ × ℤ × Text)
with_time size rest = elim (split_once b' ' rest) [
  | none ↦ none
  | some (second, rel) ↦ elim (parse_i64 second) [ none ↦ none | some mt ↦ named size mt rel ]
]

-- `<size> <mtime> <rel>`
unfoldable pub parse_three : Text → Option (ℕ × ℤ × Text)
parse_three s = elim (split_once b' ' s) [
  | none ↦ none
  | some (first, rest) ↦ elim (parse_u64 first) [ none ↦ none | some size ↦ with_time size rest ]
]

unfoldable pub insert_seen : Text → Mirror → Mirror
insert_seen key m = if contains_text m.seen key then m else record m { seen = key ∷ m.seen }

contains_path : List FilePath → FilePath → Bool
contains_path [] p = false
contains_path (q ∷ qs) p = path_eq q p || contains_path qs p

unfoldable pub insert_root : FilePath → Mirror → Mirror
unfolding contains_path
insert_root p m = if contains_path m.roots p then m else record m { roots = p ∷ m.roots }

unfoldable pub clear_seen : Mirror → Mirror
clear_seen m = record m { seen = [] }

unfoldable pub record_root : FilePath → Text → Text → Mirror → Mirror
record_root to prefix rel m = elim (top_segment rel) [
  | none ↦ m
  | some top ↦ elim (safe_join to prefix top) [ none ↦ m | some r ↦ insert_root r m ]
]

-- A file that the server offers: a mirror root and a key in `seen`.
unfoldable pub note_offer : FilePath → Text → Text → FilePath → Mirror → Mirror
unfolding norm_key
note_offer to prefix rel target m = insert_seen (norm_key target) (record_root to prefix rel m)

-- `conn.read_line()?.ok_or_else(eof)?`
some_line : Io (Option Text) × Conn → Io Text × Conn
some_line (ok (some h), c) = (ok h, c)
some_line (ok none, c) = (err unexpected_eof, c)
some_line (err e, c) = (err e, c)

unfoldable pub expect_line : Conn → Io Text × Conn
unfolding some_line
expect_line c = some_line (read_line c)
