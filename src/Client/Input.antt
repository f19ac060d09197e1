-- ===== src/Client/Input.antt =====
-- rust/src/client.rs: what the client's handlers take from the connection.
use folder_transfer.Prelude.{ℕ, zero, suc, ◌+◌, ◌≤◌, List, arith, length}
use folder_transfer.Text.{Text}
use folder_transfer.Io.{Io, ok, err}
use folder_transfer.Io.Size.{Shrinks}
use folder_transfer.Wire.{Conn}
use folder_transfer.Wire.Input.{
  input_size, transfer_size, read_line_size, read_exact-Shrinks, write_all-Shrinks,
  copy_exact_to_writer-Shrinks,
}
use folder_transfer.Platform.{Zstd}
use folder_transfer.Client.{Client, expect_line}
use folder_transfer.Client.Receive.{
  recv_zip, recv_raw, recv_bundle_file, recv_block, recv_blocks, recv_rounds, recv_remain,
  recv_large_body,
}

abbrev pub client_size : Client → ℕ
client_size s = length s.conn.input

-- One for a success.
abbrev pub successes_of {ℓ} : {A : Type ℓ} → Io A → ℕ
successes_of (ok a) = 1
successes_of (err e) = 0

-- A line that has come is taken.
pub expect_line_size :
    (c : Conn) → input_size (expect_line c).1 + successes_of (expect_line c).0 ≤ input_size c
unfolding expect_line
expect_line_size c = ground (arith, read_line_size c)

pub expect_line-Shrinks : Shrinks input_size expect_line
expect_line-Shrinks c = omega (arith, expect_line_size c)

module _ ⦃z : Zstd⦄ where
  recv_zip-Shrinks : (parts : List Text) → Shrinks transfer_size (recv_zip parts)
  unfolding recv_zip
  recv_zip-Shrinks parts t = grind (arith, read_exact-Shrinks, write_all-Shrinks)

  recv_raw-Shrinks : (parts : List Text) → Shrinks transfer_size (recv_raw parts)
  unfolding recv_raw
  recv_raw-Shrinks parts t = grind (arith, copy_exact_to_writer-Shrinks)

  pub recv_bundle_file-Shrinks : (hdr : Text) → Shrinks transfer_size (recv_bundle_file hdr)
  unfolding recv_bundle_file
  recv_bundle_file-Shrinks hdr t = grind (arith, recv_zip-Shrinks, recv_raw-Shrinks)

  pub recv_block-Shrinks : (hdr : Text) → Shrinks transfer_size (recv_block hdr)
  unfolding recv_block
  recv_block-Shrinks hdr t = grind (arith, recv_zip-Shrinks, recv_raw-Shrinks)

  recv_blocks-Shrinks : (k total : ℕ) → Shrinks transfer_size (recv_blocks k total)
  unfolding recv_blocks
  recv_blocks-Shrinks zero total t = omega arith
  recv_blocks-Shrinks (suc k) total t =
      grind (arith, expect_line-Shrinks, recv_block-Shrinks, recv_blocks-Shrinks k)

  recv_rounds-Shrinks : (k left : ℕ) → Shrinks transfer_size (recv_rounds k left)
  unfolding recv_rounds
  recv_rounds-Shrinks zero left t = omega arith
  recv_rounds-Shrinks (suc k) left t =
      grind (arith, read_exact-Shrinks, write_all-Shrinks, recv_rounds-Shrinks k)

  pub recv_large_body-Shrinks : (hdr : Text) → Shrinks transfer_size (recv_large_body hdr)
  unfolding recv_large_body recv_remain
  recv_large_body-Shrinks hdr t = grind (arith, recv_blocks-Shrinks, recv_rounds-Shrinks)
