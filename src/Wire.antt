-- ===== src/Wire.antt =====
-- rust/src/wire.rs: `Conn`, control lines and binary payloads on one byte stream.

pub mod Lines
pub mod Input
use folder_transfer.Prelude.{
  ℕ, zero, suc, ◌+◌, ◌-◌, ◌*◌, ◌≡◌, refl, min, Bool, true, false, ◌&&◌, ◌||◌, List, [], ◌∷◌, ◌++◌,
  Option, none, some, ltb, leb, ◌==◌, if◌then◌else◌, length, take, drop,
}
use folder_transfer.Text.{Text, codes}
use folder_transfer.Text.Utf8.{lossy}
use folder_transfer.Io.{
  Io, ok, err, IoError, unexpected_eof, connection, disk, ◌>>=◌, ◌>>◌, continue, done, fail, modify,
}

-- How the incoming bytes end: the peer closes, or the transport fails (a reset, a read timeout).
pub data End : Type 0 where
  closed failed : End

-- `input` are the bytes that the peer has sent and that are not read yet, in the socket or in the
-- `BufReader`; `sent` are those handed to the transport. `link` tells of each point of the outgoing
-- stream whether the transport takes bytes there.
pub record Conn : Type 0 where
  pub input : List ℕ
  pub ends : End
  pub wbuf : List ℕ
  pub sent : List ℕ
  pub link : List ℕ → Bool

-- `inner.read_until(b'\n')`: the bytes up to the line feed, and with it, and those behind it.
take_line : List ℕ → List ℕ × List ℕ × Bool
take_line [] = ([], [], false)
take_line (x ∷ s) =
    let (a, b, found) = take_line s in if x == 10 then (x ∷ [], s, true) else (x ∷ a, b, found)

-- `while matches!(buf.last(), Some(b'\n') | Some(b'\r')) { buf.pop(); }`
keep_front : ℕ → List ℕ → List ℕ
keep_front y [] = if y == 10 || y == 13 then [] else y ∷ []
keep_front y (z ∷ r) = y ∷ z ∷ r

strip_end : List ℕ → List ℕ
unfolding keep_front
strip_end [] = []
strip_end (x ∷ s) = keep_front x (strip_end s)

-- `if buf.first() == Some(&b'\r') { buf.remove(0); }`
strip_front : List ℕ → List ℕ
strip_front [] = []
strip_front (x ∷ s) = if x == 13 then s else x ∷ s

pub end_error : End → IoError
end_error closed = unexpected_eof
end_error failed = connection

line_or_eof : List ℕ → Option Text
line_or_eof [] = none
line_or_eof (x ∷ s) = some (lossy (strip_front (strip_end (x ∷ s))))

line_result : List ℕ × List ℕ × Bool → Conn → Io (Option Text) × Conn
line_result (raw, rest, true) c = (ok (line_or_eof raw), record c { input = rest })
line_result (raw, rest, false) c = elim c.ends [
  | closed ↦ (ok (line_or_eof raw), record c { input = rest })
  | failed ↦ (err connection, record c { input = rest })
]

unfoldable pub read_line : Conn → Io (Option Text) × Conn
unfolding take_line line_result line_or_eof strip_end strip_front lossy
read_line c = line_result (take_line c.input) c

-- `read_exact_vec`, `read_exact`
unfoldable pub read_exact : ℕ → Conn → Io (List ℕ) × Conn
unfolding end_error
read_exact n c =
    if ltb (length c.input) n
    then (err (end_error c.ends), record c { input = [] })
    else (ok (take n c.input), record c { input = drop n c.input })

unfoldable pub put_bytes : List ℕ → Conn → Conn
put_bytes b c = record c { wbuf = c.wbuf ++ b }

unfoldable pub put_line : Text → Conn → Conn
put_line s c = record c { wbuf = c.wbuf ++ s ++ 10 ∷ [] }

unfoldable pub buffered_len : Conn → ℕ
buffered_len c = length c.wbuf

unfoldable pub flush : Conn → Io (Unit {0}) × Conn
flush c =
    if c.link c.sent
    then (ok tt, record c { sent = c.sent ++ c.wbuf; wbuf = [] })
    else (err connection, c)

unfoldable pub send_line : Text → Conn → Io (Unit {0}) × Conn
unfolding put_line flush
send_line s c = flush (put_line s c)

-- A destination of `write_all`: a file on a disk that may refuse a content, or `io::sink()`.
pub record Writer : Type 0 where
  pub written : List ℕ
  pub accepts : List ℕ → Bool

-- Receiving moves bytes from a connection to a writer.
pub record Transfer : Type 0 where
  pub conn : Conn
  pub out : Writer
  -- the bytes reported to the progress line
  pub reported : ℕ

abbrev pub on_conn {ℓ} : {A : Type ℓ} → (Conn → Io A × Conn) → Transfer → Io A × Transfer
on_conn m t = let (r, c) = m t.conn in (r, record t { conn = c })

unfoldable pub write_all : List ℕ → Transfer → Io (Unit {0}) × Transfer
write_all b t =
    if t.out.accepts (t.out.written ++ b)
    then (ok tt, record t { out = record t.out { written = t.out.written ++ b } })
    else (err disk, t)

-- The loop of `copy_exact_to_writer`: `chunk` bytes a round. Each round takes a byte at least, so
-- `n` rounds are enough.
unfoldable pub copy_chunks : ℕ → ℕ → ℕ → Transfer → Io (Unit {0}) × Transfer
copy_chunks chunk zero n t = (ok tt, t)
copy_chunks chunk (suc f) n t =
    let want = min n chunk in
    let round = do buf ← on_conn (read_exact want); write_all buf; copy_chunks chunk f (n - want)
    in if ltb 0 n then round t else (ok tt, t)

abbrev pub copy_buffer : ℕ
copy_buffer = 65536

unfoldable pub copy_exact_to_writer : ℕ → Transfer → Io (Unit {0}) × Transfer
copy_exact_to_writer n = copy_chunks copy_buffer n n
