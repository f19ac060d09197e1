-- ===== src/Wire/Input.antt =====
-- What the operations of a connection take from its input.
use folder_transfer.Prelude.{
  ℕ, zero, suc, ◌+◌, ◌-◌, ◌≤◌, ◌≡◌, refl, min, Bool, true, false, List, [], ◌∷◌, Option, none, some,
  arith, length, drop,
}
use folder_transfer.Text.{Text}
use folder_transfer.Io.{Io, ok, err}
use folder_transfer.Io.Size.{Shrinks}
use folder_transfer.Wire.{
  Conn, Transfer, take_line, line_or_eof, line_result, read_line, read_exact, put_line, flush,
  send_line, write_all, copy_chunks, copy_exact_to_writer,
}

abbrev pub input_size : Conn → ℕ
input_size c = length c.input

abbrev pub transfer_size : Transfer → ℕ
transfer_size t = length t.conn.input

length-take_line : (s : List ℕ) → length ((take_line s).0) + length ((take_line s).1) ≡ length s
unfolding take_line
length-take_line [] = refl
length-take_line (x ∷ s) = ground (arith, length-take_line s)

-- One for a line that has come.
abbrev pub lines_of : Io (Option Text) → ℕ
lines_of (ok (some h)) = 1
lines_of (ok none) = 0
lines_of (err e) = 0

line_result_size :
    (t : List ℕ × List ℕ × Bool) (c : Conn)
    → input_size (line_result t c).1 + lines_of (line_result t c).0 ≤ length (t.0) + length (t.1)
unfolding line_result
line_result_size ([], rest, found) c = unfold line_or_eof in ground arith
line_result_size (x ∷ raw, rest, found) c = ground arith

-- A line has a byte at least.
pub read_line_size :
    (c : Conn) → input_size (read_line c).1 + lines_of (read_line c).0 ≤ input_size c
unfolding read_line
read_line_size c = omega (arith, line_result_size (take_line c.input) c, length-take_line c.input)

length-drop : {A : Type 0} (n : ℕ) (s : List A) → length (drop n s) ≤ length s
length-drop zero s = omega arith
length-drop (suc n) [] = omega arith
length-drop (suc n) (x ∷ s) = omega (arith, length-drop n s)

pub read_exact-Shrinks : (n : ℕ) → Shrinks input_size (read_exact n)
unfolding read_exact
read_exact-Shrinks n c = ground (arith, length-drop n c.input)

pub flush-Shrinks : Shrinks input_size flush
unfolding flush
flush-Shrinks c = ground arith

pub send_line-Shrinks : (s : Text) → Shrinks input_size (send_line s)
unfolding send_line put_line
send_line-Shrinks s c = flush-Shrinks (put_line s c)

pub write_all-Shrinks : (b : List ℕ) → Shrinks transfer_size (write_all b)
unfolding write_all
write_all-Shrinks b t = ground arith

pub copy_chunks-Shrinks : (chunk f n : ℕ) → Shrinks transfer_size (copy_chunks chunk f n)
unfolding copy_chunks
copy_chunks-Shrinks chunk zero n t = omega arith
copy_chunks-Shrinks chunk (suc f) n t =
    grind
      (arith, read_exact-Shrinks, write_all-Shrinks, copy_chunks-Shrinks chunk f (n - min n chunk))

pub copy_exact_to_writer-Shrinks : (n : ℕ) → Shrinks transfer_size (copy_exact_to_writer n)
unfolding copy_exact_to_writer
copy_exact_to_writer-Shrinks n = copy_chunks-Shrinks _ n n

line_result_keeps :
    (t : List ℕ × List ℕ × Bool) (c : Conn)
    → ((line_result t c).1.sent ≡ c.sent) × ((line_result t c).1.wbuf ≡ c.wbuf)
unfolding line_result
line_result_keeps (raw, rest, true) c = (refl, refl)
line_result_keeps (raw, rest, false) c = ground arith

-- Reading a line leaves what is sent and what is queued.
pub read_line_keeps : (c : Conn) → ((read_line c).1.sent ≡ c.sent) × ((read_line c).1.wbuf ≡ c.wbuf)
unfolding read_line
read_line_keeps c = line_result_keeps (take_line c.input) c
