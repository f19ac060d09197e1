-- ===== src/Client/Receive/Rounds.antt =====
-- rust/src/client.rs: the loop over the blocks of a large file ends.
use folder_transfer.Prelude.{ℕ, zero, suc, ◌<◌, ◌≡◌, arith}
use folder_transfer.Wire.{Transfer}
use folder_transfer.Wire.Input.{transfer_size}
use folder_transfer.Platform.{Zstd}
use folder_transfer.Client.Receive.{recv_blocks}
use folder_transfer.Client.Input.{expect_line_size, recv_block-Shrinks}

-- The loop over the blocks of a compressed body ends: each round takes a line, so that any number of rounds
-- above the bytes of the input gives the same result, the same file and the same rest.
pub recv_blocks_enough :
    ⦃z : Zstd⦄ (k j total : ℕ) (t : Transfer)
    → transfer_size t < k
    → transfer_size t < j
    → recv_blocks k total t ≡ recv_blocks j total t
unfolding recv_blocks
recv_blocks_enough zero j total t h h' = absurd (omega arith)
recv_blocks_enough (suc k) zero total t h h' = absurd (omega arith)
recv_blocks_enough (suc k) (suc j) total t h h' =
    grind (arith, expect_line_size t.conn, recv_block-Shrinks, recv_blocks_enough k j)
