-- ===== src/Lib.antt =====
-- folder-transfer (ft): one machine serves folders over TLS, another fetches and mirrors them. The
-- development models the Rust port below rust/src; each definition names its function.
--
-- The parts and how they meet:
--   Wire, Io: `Conn` of rust/src/wire.rs, lines and payloads on one stream of bytes. The stream is the list of
--   bytes that the peer sends, with a clean end or a failure behind them; errors are values of `Io`, and what
--   was done before an error stays done.
--   Text: Rust's strings as their UTF-8 bytes, with lossy decoding, trimming, and numbers.
--   Mtime, Paths, Ignore, Progress: the files of these names in rust/src, as built for Unix;
--   Progress.Printing: the line that `add` prints, as the numbers it is made of.
--   Compress: rust/src/compress.rs, the controller that all streams of a transfer share. Platform holds what
--   it takes from elsewhere: `f64`, the clock, and zstd, as records.
--   Server, Server.Body: rust/src/server.rs, chunks, large files and bundles on a `Sender`, the state of a
--   connection. Server.Walk: `producer_walk` on trees of entries; Server.Pass: `send_pass`;
--   Server.Session: `handle_session` and `parallel_handler`; Server.Queue: the producer and the handlers as
--   steps on the work queue; Server.Accept: the accept loops, along what the listener gives at each look.
--   Fs: the disk of the receiving machine, which may refuse a node, a content or a time, and has no links.
--   Client, Client.Receive, Client.Items: rust/src/client.rs, what the client does with an item;
--   Client.Delete: the mirroring; Client.Run: a run with one stream or several.
--   Protocol: the format of the bodies on the wire (RUST-PORT-SPEC.md, section 4), apart from the code
--   that writes it and the code that reads it; the round trip goes through it.
--   Config, Token, Tls, Cli: `strip_jsonc`, with the pieces of a text in Config.Jsonc, `generate`, the fingerprints, and the command line.
--   Config.Upgrade: the two files that are loaded, and `upgrade_serve_file` on a disk whose writes may fail or
--   break off. Cli.Get, Cli.Generate: `cmd_get`, and the connection file that the server writes for it.
--   Client.Run.Start: `run` from the destination on; Ffi: rust/src/ffi.rs, on pointers as memory.
--   Tests: the theorems at concrete inputs.
--
-- Numbers of type `u64` and `usize` that count bytes in memory are natural numbers without a bound; those
-- that are parsed from the wire have the bounds of `parse`. Loops that read the connection have one round more
-- than there are bytes, since each takes a line or ends; the loops over passes,
-- items, units and commands end with an error of their own should the rounds be used up. Those over a file have one for each byte; the
-- walk has one for each folder. The deletion goes as deep as there are nodes on the disk.
--
-- Not modelled: TLS and the sockets, the order in which threads run (a parameter of which nothing is assumed,
-- or steps), symbolic links, the firewall,
-- the debug log and the texts on the console. SHA-256, zstd, serde_json, the
-- regular expressions, floating-point numbers and random bytes are parameters.

pub mod Prelude
pub mod Text
pub mod Io
pub mod Wire
pub mod Mtime
pub mod Paths
pub mod Platform
pub mod Compress
pub mod Progress
pub mod Server
pub mod Ignore
pub mod Fs
pub mod Client
pub mod Protocol
pub mod Config
pub mod Token
pub mod Tls
pub mod Cli
pub mod Ffi
pub mod Tests
