-- ===== src/Tests/Outside.antt =====
-- A whole run on a small disk.
use folder_transfer.Prelude.{◌≡◌, refl, ◌∷◌, [], ◌++◌, none, some, pos}
use folder_transfer.Text.{Text, codes}
use folder_transfer.Paths.{FilePath}
use folder_transfer.Fs.{file, Fs, metadata}
use folder_transfer.Mtime.{ticks_to_systemtime}
use folder_transfer.Client.Run.Start.{RunArgs, Outside, run}
use folder_transfer.Tests.{toy_zstd, quiet}
use folder_transfer.Tests.Serving.{toy_regexes}
use folder_transfer.Tests.Receiving.{dest, disk}

-- A server that offers a file above the destination, and one below it.
abbrev hostile : Text
hostile =
    codes "OK"
    ++ 10
      ∷ (codes "CFG 2 log/"
          ++ 10
            ∷ (codes "F 3 0 ../etc/passwd"
                ++ 10
                  ∷ (codes "F 3 0 b"
                      ++ 10
                        ∷ (codes "R 3"
                            ++ 10
                              ∷ 1
                              ∷ 2
                              ∷ 3
                              ∷ (codes "PASS-END" ++ 10 ∷ (codes "DONE" ++ 10 ∷ []))))))

abbrev one_stream : Outside
one_stream = record {
  absolute = λ s. dest;
  dial = λ pinned server port n. some (quiet hostile);
  together = λ ws s. ([], s);
}

abbrev outside_file : FilePath
outside_file = codes "etc" ∷ codes "passwd" ∷ []

abbrev with_passwd : Fs
with_passwd = record disk { nodes = (outside_file, file (7 ∷ []) (pos 3)) ∷ disk.nodes }

abbrev get : RunArgs
get = record {
  server = codes "10.0.0.1";
  port = 8722;
  token = codes "t";
  to = codes "d";
  fingerprint = codes "00112233445566778899aabbccddeeff00112233445566778899aabbccddeeff";
  ignore_override = none;
  streams_override = some (pos 1);
}

abbrev received_file : FilePath
received_file = codes "d" ∷ codes "b" ∷ []

-- The run connects, and what was offered below the destination arrives.
received_below :
    metadata received_file (run one_stream get with_passwd).1
    ≡ some (file (1 ∷ 2 ∷ 3 ∷ []) (ticks_to_systemtime (pos 0)))
unfolding metadata run folder_transfer.Client.Run.Start.run_prepared
    folder_transfer.Client.Run.Start.prepare_dest folder_transfer.Client.Run.Start.run_pinned
    folder_transfer.Tls.parse_fingerprint folder_transfer.Tls.clean folder_transfer.Tls.bytes_of
    folder_transfer.Tls.byte_of folder_transfer.Client.Run.Start.run_dialled
    folder_transfer.Client.Run.Start.run_greeted folder_transfer.Client.Run.connect_auth
    folder_transfer.Wire.send_line folder_transfer.Wire.read_line
    folder_transfer.Client.Run.Start.run_streams folder_transfer.Client.Run.Start.stream_count
    folder_transfer.Client.Run.Start.streams_or folder_transfer.Client.Run.run_single
    folder_transfer.Client.Run.run_passes folder_transfer.Client.Run.passes
    folder_transfer.Client.Run.pass_items folder_transfer.Text.starts_with
    folder_transfer.Client.Items.dispatch_item folder_transfer.Text.strip_prefix
    folder_transfer.Client.parse_three folder_transfer.Text.split_once
    folder_transfer.Text.Number.parse_u64 folder_transfer.Client.with_time
    folder_transfer.Text.Number.parse_i64 folder_transfer.Client.named
    folder_transfer.Client.Items.handle_large folder_transfer.Paths.safe_join
    folder_transfer.Paths.root_prefix folder_transfer.Paths.walk_segments folder_transfer.Text.split
    folder_transfer.Paths.enter folder_transfer.Paths.pop folder_transfer.Client.need_fetch
    folder_transfer.Client.expect_line folder_transfer.Fs.parent folder_transfer.Fs.create_dir_all
    folder_transfer.Fs.create ticks_to_systemtime folder_transfer.Client.Items.receive_into
    folder_transfer.Client.Receive.recv_large_body folder_transfer.Client.Receive.recv_remain
    folder_transfer.Client.Receive.recv_rounds folder_transfer.Wire.read_exact
    folder_transfer.Wire.write_all folder_transfer.Client.Run.next_control
    folder_transfer.Client.Run.mirror folder_transfer.Client.Delete.mirror_delete
    folder_transfer.Client.Delete.delete_roots folder_transfer.Client.note_offer
    folder_transfer.Client.insert_seen folder_transfer.Text.contains_text
    folder_transfer.Client.record_root folder_transfer.Paths.top_segment
    folder_transfer.Client.insert_root folder_transfer.Client.clear_seen
    folder_transfer.Fs.set_modified folder_transfer.Fs.fill folder_transfer.Fs.put
received_below = refl
