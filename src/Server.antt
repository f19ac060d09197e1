-- ===== src/Server.antt =====
-- rust/src/server.rs, the sending side: the state of a connection, files, and chunks.
pub mod Input
pub mod Reading
pub mod Body
pub mod Walk
pub mod Pass
pub mod Session
pub mod Queue
pub mod Accept
use folder_transfer.Prelude.{
  ℕ, zero, suc, ◌+◌, ◌-◌, ◌*◌, min, ℤ, Bool, true, false, List, [], ◌∷◌, ◌++◌, Option, none, some,
  ltb, leb, ◌==◌, if◌then◌else◌, length, take, drop,
}
use folder_transfer.Text.{Text, codes}
use folder_transfer.Text.Number.{print_nat}
use folder_transfer.Io.{
  Io, ok, err, disk, Exec, ◌>>=◌, ◌>>◌, continue, done, fail, lift, modify, gets,
}
use folder_transfer.Wire.{Conn, put_line, put_bytes, flush}
use folder_transfer.Platform.{Floats, Zstd, Clock}
use folder_transfer.Compress
use folder_transfer.Compress.{State, AdaptiveState, min_compress}
use folder_transfer.Progress.{Progress}

-- All of type `u64`; they count files and bytes that were sent.
pub record SendStats : Type 0 where
  pub offered : ℕ
  pub sent : ℕ
  pub skipped : ℕ
  pub bytes : ℕ
  pub wire : ℕ

abbrev pub no_stats : SendStats
no_stats = record { offered = 0; sent = 0; skipped = 0; bytes = 0; wire = 0 }

-- An open file: its bytes from the read position on, and the length that `metadata()` reports. A read
-- returns as many bytes as the system likes, at least one before the end, and may fail.
pub record File : Type 0 where
  pub content : List ℕ
  pub len : ℕ
  pub grain : ℕ → ℕ
  pub readable : ℕ → Bool

unfoldable pub read : ℕ → File → Io (List ℕ × File)
read want f =
    let n = min want (suc (f.grain (length f.content))) in
    if f.readable (length f.content)
    then ok (take n f.content, record f { content = drop n f.content })
    else err disk

-- `file.seek(SeekFrom::Start(offset))` in a file that has not been read.
unfoldable pub seek : ℕ → File → File
seek offset f = record f { content = drop offset f.content }

-- Each round of `read_block` reads a byte at least or ends the loop, so `want` rounds are enough.
read_rounds : ℕ → ℕ → List ℕ → File → Io (List ℕ × File)
read_rounds zero want buf f = ok (buf, f)
read_rounds (suc k) want buf f = elim (read want f) [
  | err e ↦ err e
  | ok (b, g) ↦ if length b == 0 then ok (buf, g) else read_rounds k (want - length b) (buf ++ b) g
]

unfoldable pub read_block : ℕ → File → Io (List ℕ × File)
unfolding read_rounds
read_block want f = read_rounds want want [] f

-- `Conn::send_from_reader`: at most `left` bytes of the file, a read and a flush at a time. A round sends a byte at
-- least, so `left` rounds are enough.
unfoldable pub send_chunks : ℕ → ℕ → ℕ → File → Conn → Io ℕ × Conn
send_chunks zero left sent f c = (ok sent, c)
send_chunks (suc k) left sent f c =
    let round = do
      (buf, g) ← lift (read (min left (1024 * 1024)) f)
      if length buf == 0 then done sent else do
        modify (put_bytes buf)
        flush
        send_chunks k (left - length buf) (sent + length buf) g
    in if ltb 0 left then round c else (ok sent, c)

unfoldable pub send_from_reader : File → ℕ → Conn → Io ℕ × Conn
send_from_reader f n = send_chunks n n 0 f

-- The state of one connection: `level` is the controller, `readings` counts those of the clock.
pub record Sender (fl : Floats) : Type 0 where
  pub conn : Conn
  pub stats : SendStats
  pub state : AdaptiveState fl
  pub prog : Progress
  pub readings : ℕ

module _ ⦃fl : Floats⦄ where
  abbrev pub on_conn {ℓ} : {A : Type ℓ} → (Conn → Io A × Conn) → Sender fl → Io A × Sender fl
  on_conn m s = let (r, c) = m s.conn in (r, record s { conn = c })

  abbrev pub queue : (Conn → Conn) → Sender fl → Sender fl
  queue f s = record s { conn = f s.conn }

  abbrev pub count_wire : ℕ → Sender fl → Sender fl
  count_wire n s = record s { stats = record s.stats { wire = s.stats.wire + n } }

  -- `R <n>`, `Z <clen> <rlen>`
  abbrev pub raw_line : ℕ → Text
  raw_line n = codes "R " ++ print_nat n

  abbrev pub zip_line : ℕ → ℕ → Text
  zip_line clen rlen = codes "Z " ++ print_nat clen ++ b' ' ∷ print_nat rlen

  unfoldable pub send_raw_chunk : List ℕ → Sender fl → Io (Unit {0}) × Sender fl
  send_raw_chunk chunk = do
    modify (queue (put_line (raw_line (length chunk))))
    modify (queue (put_bytes chunk))
    on_conn flush
    modify (count_wire (length chunk))

  -- `clen as f64 >= n as f64 * 0.95`, and `<`
  abbrev pub is_not_shrunk : ℕ → ℕ → Bool
  is_not_shrunk clen n = fl.ge (fl.lit clen 1) (fl.mul (fl.lit n 1) (fl.lit 95 100))

  abbrev pub is_shrunk : ℕ → ℕ → Bool
  is_shrunk clen n = fl.lt (fl.lit clen 1) (fl.mul (fl.lit n 1) (fl.lit 95 100))

  unfoldable pub put_raw : List ℕ → Sender fl → Sender fl
  put_raw chunk s =
      count_wire (length chunk)
        (queue (put_bytes chunk) (queue (put_line (raw_line (length chunk))) s))

  unfoldable pub put_zip : List ℕ → ℕ → Sender fl → Sender fl
  put_zip cbuf n s =
      count_wire (length cbuf)
        (queue (put_bytes cbuf) (queue (put_line (zip_line (length cbuf) n)) s))

module _ ⦃fl : Floats⦄ ⦃z : Zstd⦄ where
  unfoldable pub put_chunk_bundled : List ℕ → Option ℤ → Sender fl → Sender fl
  put_chunk_bundled chunk none s = put_raw chunk s
  put_chunk_bundled chunk (some level) s =
      let n = length chunk in
      let cbuf = z.compress chunk level in
      if leb min_compress n
      then if is_shrunk (length cbuf) n then put_zip cbuf n s else put_raw chunk s
      else put_raw chunk s

module _ ⦃fl : Floats⦄ ⦃z : Zstd⦄ ⦃clock : Clock fl⦄ where
  -- The controller hears of a compressed block; a reading that it does not take is passed over.
  unfoldable pub tell_compressed : fl.F → ℕ → ℕ → Sender fl → Sender fl
  tell_compressed tc orig wire s = record s {
    state =
        Compress.note_compressed (clock.reading s.readings) (clock.reading (s.readings + 1)) tc orig
          wire s.state;
    readings = s.readings + 2;
  }

  unfoldable pub tell_incompressible : Sender fl → Sender fl
  tell_incompressible s = record s { state = Compress.note_incompressible s.state }

  unfoldable pub send_zip_chunk : List ℕ → ℕ → fl.F → Sender fl → Io (Unit {0}) × Sender fl
  send_zip_chunk cbuf n tc = do
    modify (queue (put_line (zip_line (length cbuf) n)))
    modify (queue (put_bytes cbuf))
    on_conn flush
    modify (count_wire (length cbuf))
    modify (tell_compressed tc n (length cbuf))

  unfoldable pub send_incompressible : List ℕ → Sender fl → Io (Unit {0}) × Sender fl
  send_incompressible chunk = do send_raw_chunk chunk; modify tell_incompressible

  -- Compression at the level of the controller, timed.
  unfoldable pub compress_chunk : List ℕ → Sender fl → Io (Unit {0}) × Sender fl
  compress_chunk chunk s =
      let n = length chunk in
      let cbuf = z.compress chunk (Compress.current_level s.state) in
      let tc = fl.sub (clock.reading (s.readings + 1)) (clock.reading s.readings) in
      let t = record s { readings = s.readings + 2 } in
      if is_not_shrunk (length cbuf) n
      then send_incompressible chunk t
      else send_zip_chunk cbuf n tc t

  unfoldable pub decide_chunk : Bool × State → List ℕ → Sender fl → Io (Unit {0}) × Sender fl
  decide_chunk (raw, state) chunk s =
      let t = record s { state = state } in
      if raw then send_raw_chunk chunk t else compress_chunk chunk t

  unfoldable pub send_chunk_adaptive : List ℕ → Sender fl → Io (Unit {0}) × Sender fl
  send_chunk_adaptive chunk s =
      if ltb (length chunk) min_compress
      then send_raw_chunk chunk s
      else decide_chunk (Compress.want_raw s.state) chunk s
