-- ===== src/Tests.antt =====
-- Concrete runs of the theorems, and of the code on small inputs.
pub mod Serving
pub mod Framing
pub mod Receiving
pub mod Printing
pub mod Setup
pub mod Ending
pub mod Accepting
pub mod Files
pub mod Outside
use folder_transfer.Prelude.{
  ℕ, zero, suc, ◌+◌, ◌-◌, ◌*◌, ◌^◌, ◌<◌, ◌≤◌, ◌≡◌, ◌≢◌, ◌⊎◌, inl, inr, refl, ℤ, pos, negsuc, ◌≤ℤ◌,
  Bool, true, false, ◌↔◌, List, [], ◌∷◌, ◌++◌, Option, none, some, length, drop, take, arith, ltb,
  leb,
}
use folder_transfer.Text.{Text, codes, text_eq}
use folder_transfer.Io.{Io, ok, err, connection, ◌>>=◌}
use folder_transfer.Wire
use folder_transfer.Wire.{Conn, closed, Transfer}
use folder_transfer.Platform.{Floats, Zstd, Clock, IsLossless}
use folder_transfer.Compress
use folder_transfer.Compress.Bounds
use folder_transfer.Mtime.{epoch_diff_secs, ticks_per_sec, ticks_to_systemtime, systemtime_to_ticks}
use folder_transfer.Mtime.RoundTrip.{systemtime_to_ticks-ticks_to_systemtime, ticks_before_1970}
use folder_transfer.Progress.{no_progress}
use folder_transfer.Server.{File, Sender, no_stats, read_block}
use folder_transfer.Server.Body.{send_large_file}
use folder_transfer.Client.{expect_line}
use folder_transfer.Client.Receive.{recv_large_body}
use folder_transfer.Protocol.Writing.{FramesFit}
use folder_transfer.Protocol.RoundTrip.{received, recv_large_body-send_large_file}

-- Natural numbers stand for the floating-point ones.
instance abbrev pub toy_floats : Floats
toy_floats = record {
  F = ℕ;
  lit = λ n d. n;
  infinity = 1000000;
  is_finite = λ x. true;
  add = λ x y. x + y;
  sub = λ x y. x;
  mul = λ x y. x * y;
  div = λ x y. x;
  fmax = λ x y. x;
  lt = ltb;
  ge = λ x y. leb y x;
}

-- A compression that changes nothing.
instance abbrev pub toy_zstd : Zstd
toy_zstd = record { compress = λ b level. b; decompress = λ b n. ok b }

instance abbrev pub toy_clock : Clock toy_floats
toy_clock = record { reading = λ n. n }

pub toy-IsLossless : IsLossless toy_zstd
toy-IsLossless = record { decompress-compress = λ b level n h. refl }

abbrev pub bytes : List ℕ
bytes = 10 ∷ 20 ∷ 30 ∷ 40 ∷ []

abbrev pub open_bytes : File
open_bytes = record { content = bytes; len = 4; grain = λ n. 0; readable = λ n. true }

abbrev pub quiet : List ℕ → Conn
quiet input = record { input = input; ends = closed; wbuf = []; sent = []; link = λ b. true }

abbrev pub sender : Sender toy_floats
sender = record {
  conn = quiet [];
  stats = no_stats;
  state = Compress.new 2 1;
  prog = no_progress;
  readings = 0;
}

abbrev pub receiver : List ℕ → Transfer
receiver input = record {
  conn = quiet input;
  out = record { written = []; accepts = λ b. true };
  reported = 0;
}

ticks_round_trip_example :
    systemtime_to_ticks (ticks_to_systemtime (pos 637450560000000000)) ≡ pos 637450560000000000
ticks_round_trip_example = systemtime_to_ticks-ticks_to_systemtime 637450560000000000 (omega arith)

abbrev early_ticks : ℕ
early_ticks = 600000000000000000

ticks_before_1970_example :
    (d : ℕ) × (d + early_ticks ≡ epoch_diff_secs * ticks_per_sec)
    × (systemtime_to_ticks (ticks_to_systemtime (pos early_ticks))
        ≡ negsuc (d + epoch_diff_secs * ticks_per_sec - 1))
ticks_before_1970_example = ticks_before_1970 early_ticks (omega arith)

abbrev sent_bytes : List ℕ
sent_bytes = (send_large_file open_bytes 1 (codes ".txt") false sender).1.conn.sent

sent_first : sent_bytes ≡ codes "R 3" ++ 10 ∷ 20 ∷ 30 ∷ 40 ∷ []
unfolding send_large_file folder_transfer.Server.Body.raw_body
    folder_transfer.Server.Body.raw_rounds read_block folder_transfer.Server.read
    folder_transfer.Server.seek Wire.flush Wire.put_bytes Wire.put_line
    folder_transfer.Text.Number.print_nat folder_transfer.Server.Body.remain_of
sent_first = refl

large_round_trip_example :
    ((send_large_file open_bytes 1 (codes ".txt") false sender).0 ≡ ok tt)
    × ((do hdr ← Wire.on_conn expect_line; recv_large_body hdr) (receiver (sent_bytes ++ 7 ∷ []))
        ≡ (ok 3, received (20 ∷ 30 ∷ 40 ∷ []) (7 ∷ []) (receiver (sent_bytes ++ 7 ∷ []))))
large_round_trip_example =
    recv_large_body-send_large_file open_bytes 1 (codes ".txt") false sender (7 ∷ [])
      (receiver (sent_bytes ++ 7 ∷ [])) toy-IsLossless (λ x level h. omega (arith, h)) (λ n. refl)
      refl (omega arith) (omega arith) (λ b. refl) refl refl (λ b. refl) refl
