-- ===== src/Client/Receive.antt =====
-- rust/src/client.rs: `recv_bundle_file` and `recv_large_body`.
pub mod Rounds
use folder_transfer.Prelude.{
  ℕ, zero, suc, ◌+◌, ◌-◌, ◌*◌, min, List, [], none, some, ltb, ◌==◌, if◌then◌else◌, length,
}
use folder_transfer.Text.{Text, codes, text_eq, split, next_or, rest_of}
use folder_transfer.Text.Number.{parse_u64}
use folder_transfer.Io.{Io, ok, ◌>>=◌, ◌>>◌, done, lift, modify}
use folder_transfer.Wire.{Transfer, on_conn, read_exact, write_all, copy_exact_to_writer}
use folder_transfer.Platform.{Zstd}
use folder_transfer.Client.{expect_line}

abbrev pub number_or_zero : Text → ℕ
number_or_zero s = elim (parse_u64 s) [ none ↦ 0 | some n ↦ n ]

-- `hdr.split(' ')`
abbrev pub words : Text → List Text
words = split (λ c. c == b' ')

abbrev pub report : ℕ → Transfer → Transfer
report n t = record t { reported = t.reported + n }

module _ ⦃z : Zstd⦄ where
  -- `Z <clen> <rlen>`, from the second word on.
  unfoldable pub recv_zip : List Text → Transfer → Io ℕ × Transfer
  recv_zip parts = do
    cbuf ← on_conn (read_exact (number_or_zero (next_or (codes "0") parts)))
    obuf ← lift (z.decompress cbuf (number_or_zero (next_or (codes "0") (rest_of parts))))
    write_all obuf
    done (length obuf)

  unfoldable pub recv_raw : List Text → Transfer → Io ℕ × Transfer
  recv_raw parts =
      let rlen = number_or_zero (next_or (codes "0") parts) in
      (do copy_exact_to_writer rlen; done rlen)

  unfoldable pub recv_bundle_file : Text → Transfer → Io ℕ × Transfer
  recv_bundle_file hdr =
      let parts = words hdr in
      if text_eq (next_or [] parts) (codes "Z")
      then recv_zip (rest_of parts)
      else recv_raw (rest_of parts)

  unfoldable pub recv_block : Text → Transfer → Io ℕ × Transfer
  recv_block ch =
      let parts = words ch in
      if text_eq (next_or [] parts) (codes "R")
      then recv_raw (rest_of parts)
      else recv_zip (rest_of parts)

  -- The loop over blocks, until `E`. Each round takes a line, so the bytes of the input are rounds
  -- enough.
  unfoldable pub recv_blocks : ℕ → ℕ → Transfer → Io ℕ × Transfer
  recv_blocks zero total t = (ok total, t)
  recv_blocks (suc k) total t =
      let round = do
        ch ← on_conn expect_line
        if text_eq ch (codes "E")
            then done total
            else do n ← recv_block ch; modify (report n); recv_blocks k (total + n)
      in round t

  -- `R <remain>`: 1 MiB a round. Each round takes a byte at least, so `remain` rounds are enough.
  unfoldable pub recv_rounds : ℕ → ℕ → Transfer → Io (Unit {0}) × Transfer
  recv_rounds zero left t = (ok tt, t)
  recv_rounds (suc k) left t =
      let want = min left (1024 * 1024) in
      let round = do
        buf ← on_conn (read_exact want)
        write_all buf
        modify (report want)
        recv_rounds k (left - want)
      in if ltb 0 left then round t else (ok tt, t)

  unfoldable pub recv_remain : ℕ → Transfer → Io ℕ × Transfer
  recv_remain remain = do recv_rounds remain remain; done remain

  unfoldable pub recv_large_body : Text → Transfer → Io ℕ × Transfer
  recv_large_body hdr t =
      if text_eq hdr (codes "Z")
      then recv_blocks (suc (length t.conn.input)) 0 t
      else recv_remain (number_or_zero (next_or (codes "0") (rest_of (words hdr)))) t
