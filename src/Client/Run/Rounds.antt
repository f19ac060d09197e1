-- ===== src/Client/Run/Rounds.antt =====
-- rust/src/client.rs: the loops of a run end. Each round takes a line from the input, so that one round more
-- than there are bytes is as good as any number of rounds.
use folder_transfer.Prelude.{ℕ, zero, suc, ◌<◌, ◌≡◌, Bool, true, arith}
use folder_transfer.Text.{Text}
use folder_transfer.Io.{IoError, ok}
use folder_transfer.Io.Size.{Shrinks}
use folder_transfer.Wire.{read_line}
use folder_transfer.Wire.Input.{read_line_size}
use folder_transfer.Paths.{FilePath}
use folder_transfer.Platform.{Zstd}
use folder_transfer.Client.{Client, expect_line}
use folder_transfer.Client.Input.{client_size, expect_line_size}
use folder_transfer.Client.Items.Input.{dispatch_item-Shrinks}
use folder_transfer.Client.Run.{Served, pass_items, next_control, passes, units_loop}

module _ ⦃z : Zstd⦄ (to : FilePath) (prefix : Text) where
  pass_items-ok :
      (spent : IoError) (k : ℕ) (s : Client)
      → (pass_items to prefix spent k s).0 ≡ ok true
      → client_size (pass_items to prefix spent k s).1 < client_size s
  unfolding pass_items
  pass_items-ok spent zero s e = grind arith
  pass_items-ok spent (suc k) s e =
      let t : Client = record s { conn = (read_line s.conn).1 } in
      grind (
        arith,
        read_line_size s.conn,
        dispatch_item-Shrinks to prefix,
        pass_items-ok spent k t,
        pass_items-ok spent k,
      )

  pass_items_enough :
      (spent spent' : IoError) (k j : ℕ) (s : Client)
      → client_size s < k
      → client_size s < j
      → pass_items to prefix spent k s ≡ pass_items to prefix spent' j s
  unfolding pass_items
  pass_items_enough spent spent' zero j s h h' = absurd (omega arith)
  pass_items_enough spent spent' (suc k) zero s h h' = absurd (omega arith)
  pass_items_enough spent spent' (suc k) (suc j) s h h' =
      let t : Client = record s { conn = (read_line s.conn).1 } in
      grind (
        arith,
        read_line_size s.conn,
        dispatch_item-Shrinks to prefix,
        pass_items_enough spent spent' k j t,
        pass_items_enough spent spent' k j,
      )

  next_control-Shrinks :
      (spent : IoError) (k : ℕ) → Shrinks client_size (next_control to prefix spent k)
  unfolding next_control
  next_control-Shrinks spent zero s = omega arith
  next_control-Shrinks spent (suc k) s =
      let t : Client = record s { conn = (read_line s.conn).1 } in
      ground (arith, read_line_size s.conn, next_control-Shrinks spent k t)

  next_control_enough :
      (spent spent' : IoError) (k j : ℕ) (s : Client)
      → client_size s < k
      → client_size s < j
      → next_control to prefix spent k s ≡ next_control to prefix spent' j s
  unfolding next_control
  next_control_enough spent spent' zero j s h h' = absurd (omega arith)
  next_control_enough spent spent' (suc k) zero s h h' = absurd (omega arith)
  next_control_enough spent spent' (suc k) (suc j) s h h' =
      let t : Client = record s { conn = (read_line s.conn).1 } in
      ground (arith, read_line_size s.conn, next_control_enough spent spent' k j t)

  -- The loop over the passes ends: each pass takes a line, so that any number of rounds above the bytes of the
  -- input is enough, gives the same result and the same state, and is never used up: the error of a loop that used
  -- its rounds up makes no difference.
  pub passes_enough :
      (spent spent' : IoError) (k j : ℕ) (s : Client)
      → client_size s < k
      → client_size s < j
      → passes to prefix spent k s ≡ passes to prefix spent' j s
  unfolding passes
  passes_enough spent spent' zero j s h h' = absurd (omega arith)
  passes_enough spent spent' (suc k) zero s h h' = absurd (omega arith)
  passes_enough spent spent' (suc k) (suc j) s h h' = grind (
    arith,
    pass_items_enough spent spent' (suc k) (suc j),
    pass_items-ok,
    next_control_enough spent spent' (suc k) (suc j),
    next_control-Shrinks,
    passes_enough spent spent' k j,
  )

  -- The loop over the units ends: each round takes a line, so that any number of rounds above the bytes of the
  -- input is enough, gives the same result and the same state, and is never used up: the error of a loop that used
  -- its rounds up makes no difference.
  pub units_loop_enough :
      (stream_mode : Bool) (spent spent' : IoError) (k j : ℕ) (s : Served)
      → client_size s.client < k
      → client_size s.client < j
      → units_loop to prefix stream_mode spent k s ≡ units_loop to prefix stream_mode spent' j s
  unfolding units_loop
  units_loop_enough stream_mode spent spent' zero j s h h' = absurd (omega arith)
  units_loop_enough stream_mode spent spent' (suc k) zero s h h' = absurd (omega arith)
  units_loop_enough stream_mode spent spent' (suc k) (suc j) s h h' =
      let t : Served = record s {
        client = record s.client { conn = (expect_line s.client.conn).1 };
      } in
      grind (
        arith,
        expect_line_size s.client.conn,
        dispatch_item-Shrinks to prefix,
        units_loop_enough stream_mode spent spent' k j t,
        units_loop_enough stream_mode spent spent' k j,
      )
