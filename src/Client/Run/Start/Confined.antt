-- ===== src/Client/Run/Start/Confined.antt =====
-- rust/src/client.rs: `run` with one stream changes nothing outside of the destination.
use folder_transfer.Text.{Text}
use folder_transfer.Io.{Io}
use folder_transfer.Fs.{Fs}
