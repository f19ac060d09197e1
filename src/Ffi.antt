-- ===== src/Ffi.antt =====
-- rust/src/ffi.rs: the C interface. A pointer is the memory from it on, or null; strings end at a byte 0.
pub mod Strings
use folder_transfer.Prelude.{
  ℕ, zero, suc, ◌+◌, ◌-◌, ◌^◌, ◌%◌, min, ℤ, pos, negsuc, ltb_ℤ, Bool, true, false, not, List, [],
  ◌∷◌, ◌++◌, Option, none, some, ltb, ◌==◌, if◌then◌else◌, length, take, drop,
}
use folder_transfer.Text.{Text, codes, text_eq}
use folder_transfer.Text.Utf8.{lossy}
use folder_transfer.Io.{Io, ok, err, IoError}
use folder_transfer.Ignore.{Regexes}
use folder_transfer.Platform.{Floats, Zstd}
use folder_transfer.Compress.{speed_margin}
use folder_transfer.Fs.{Fs}
use folder_transfer.Server.Session.{ServeConfig}
use folder_transfer.Client.{Stats}
use folder_transfer.Client.Run.Start.{RunArgs, Outside, run}

abbrev pub Pointer : Type 0
Pointer = Option (List ℕ)

-- `CStr::from_ptr`: the bytes in front of the first 0.
unfoldable pub c_str : List ℕ → List ℕ
c_str [] = []
c_str (b ∷ memory) = if b == 0 then [] else b ∷ c_str memory

abbrev pub is_text : List ℕ → Bool
is_text b = text_eq (lossy b) b

-- `LAST_ERR` of the thread. What follows `?` in the source is the rest of the function.
abbrev pub LastErr : Type 0
LastErr = Text

-- `cstr_req`; `what` names the argument in the message.
unfoldable pub cstr_req : Pointer → Text → LastErr → Option Text × LastErr
cstr_req none what last = (none, what ++ codes " must not be null")
cstr_req (some memory) what last =
    if is_text (c_str memory)
    then (some (c_str memory), last)
    else (none, what ++ codes " is not valid UTF-8")

abbrev pub filled : Text → Option Text
filled [] = none
filled (c ∷ s) = some (c ∷ s)

unfoldable pub cstr_opt : Pointer → Option Text
cstr_opt none = none
cstr_opt (some memory) = if is_text (c_str memory) then filled (c_str memory) else none

abbrev pub or_empty : Option Text → Text
or_empty none = []
or_empty (some s) = s

-- What the memory holds when `n` bytes of `s` and a 0 are put at its start.
abbrev pub overwrite : ℕ → Text → List ℕ → List ℕ
overwrite n s memory = take n s ++ 0 ∷ drop (suc n) memory

unfoldable pub copy_out : Text → Pointer → ℕ → Pointer
copy_out s none len = none
copy_out s (some memory) zero = some memory
copy_out s (some memory) (suc len) = some (overwrite (min (length s) len) s memory)

-- `ft_last_error`: the buffer, and the length as an `i32`.
abbrev pub as_i32 : ℕ → ℤ
as_i32 n = if ltb (n % 2 ^ 32) (2 ^ 31) then pos (n % 2 ^ 32) else negsuc (2 ^ 32 - n % 2 ^ 32 - 1)

unfoldable pub ft_last_error : Pointer → ℕ → LastErr → ℤ × Pointer
ft_last_error buf len last = (as_i32 (length last), copy_out last buf len)

-- What an exported function returns, what it left behind as the error, and the disk.
abbrev pub failure : ℤ
failure = negsuc 0

abbrev pub positive : ℤ → Option ℤ
positive n = if ltb_ℤ (pos 0) n then some n else none

-- `to_string()` of an error is a parameter.
module _ ⦃z : Zstd⦄ ⦃rx : Regexes⦄ (out : Outside) (message : IoError → Text) where
  abbrev pub returned : LastErr → Io Stats × Fs → ℤ × LastErr × Fs
  returned last (ok stats, fs) = (pos 0, last, fs)
  returned last (err e, fs) = (failure, message e, fs)

  -- The required arguments in their order, then the run.
  abbrev pub with_to : RunArgs → Option Text × LastErr → Fs → ℤ × LastErr × Fs
  with_to a (none, last) fs = (failure, last, fs)
  with_to a (some to, last) fs = returned last (run out (record a { to = to }) fs)

  abbrev pub with_fingerprint : RunArgs → Pointer → Option Text × LastErr → Fs → ℤ × LastErr × Fs
  with_fingerprint a to_folder (none, last) fs = (failure, last, fs)
  with_fingerprint a to_folder (some fingerprint, last) fs =
      with_to (record a { fingerprint = fingerprint }) (cstr_req to_folder (codes "to_folder") last)
        fs

  abbrev pub with_server :
      RunArgs → Pointer → Pointer → Option Text × LastErr → Fs → ℤ × LastErr × Fs
  with_server a fingerprint to_folder (none, last) fs = (failure, last, fs)
  with_server a fingerprint to_folder (some server, last) fs =
      with_fingerprint (record a { server = server }) to_folder
        (cstr_req fingerprint (codes "fingerprint") last) fs

  unfoldable pub ft_get :
      Pointer → ℕ → Pointer → Pointer → Pointer → Pointer → ℤ → LastErr → Fs → ℤ × LastErr × Fs
  ft_get server port token fingerprint to_folder ignore streams last fs =
      with_server
        (record {
          server = [];
          port = port;
          token = or_empty (cstr_opt token);
          to = [];
          fingerprint = [];
          ignore_override = cstr_opt ignore;
          streams_override = positive streams;
        })
        fingerprint to_folder (cstr_req server (codes "server") last) fs

-- The server that `ft_serve_start` starts: its configuration, the streams, the token and the fingerprint.
pub record ServeHandle (fl : Floats) : Type 0 where
  pub config : ServeConfig fl
  pub streams : ℤ
  pub token : Text
  pub fingerprint : Text

-- What the caller has in hand afterwards: the handle, or null, and its two buffers.
pub record Started (fl : Floats) : Type 0 where
  pub handle : Option (ServeHandle fl)
  pub last : LastErr
  pub out_token : Pointer
  pub out_fingerprint : Pointer

abbrev pub at_least_one : ℤ → ℤ
at_least_one streams = if ltb_ℤ streams (pos 1) then pos 1 else streams

abbrev pub is_zero : ℤ → Bool
is_zero (pos n) = n == 0
is_zero (negsuc n) = false

-- The flags and the buffers of a call.
pub record StartArgs : Type 0 where
  pub port : ℕ
  pub streams : ℤ
  pub ignore : Pointer
  pub no_compress : ℤ
  pub once : ℤ
  pub out_token : Pointer
  pub out_token_len : ℕ
  pub out_fingerprint : Pointer
  pub out_fingerprint_len : ℕ

-- `identity`: the fingerprint of the new certificate, or why there is none. `token`: the new token.
module _ ⦃fl : Floats⦄ (message : IoError → Text) (identity : Io Text) (token : Text) where
  abbrev pub serve_config : Text → StartArgs → ServeConfig fl
  serve_config folder a = record {
    folders = folder ∷ [];
    port = a.port;
    idle_seconds = 600;
    stall_timeout = 300;
    once = not (is_zero a.once);
    cutover = false;
    use_compress = is_zero a.no_compress;
    compress_margin = speed_margin;
    ignore_spec = or_empty (cstr_opt a.ignore);
    allow_ip = none;
  }

  abbrev pub no_handle : StartArgs → LastErr → Started fl
  no_handle a last = record {
    handle = none;
    last = last;
    out_token = a.out_token;
    out_fingerprint = a.out_fingerprint;
  }

  abbrev pub with_identity : Text → StartArgs → Io Text → LastErr → Started fl
  with_identity folder a (err e) last = no_handle a (message e)
  with_identity folder a (ok fingerprint) last = record {
    handle = some (record {
      config = serve_config folder a;
      streams = at_least_one a.streams;
      token = token;
      fingerprint = fingerprint;
    });
    last = last;
    out_token = copy_out token a.out_token a.out_token_len;
    out_fingerprint = copy_out fingerprint a.out_fingerprint a.out_fingerprint_len;
  }

  abbrev pub with_folder : StartArgs → Option Text × LastErr → Started fl
  with_folder a (none, last) = no_handle a last
  with_folder a (some folder, last) = with_identity folder a identity last

  unfoldable pub ft_serve_start : Pointer → StartArgs → LastErr → Started fl
  ft_serve_start folder a last = with_folder a (cstr_req folder (codes "folder") last)

-- How the thread of a server ended.
pub data Ended : Type 0 where
  finished panicked : Ended
  failed : Text → Ended

-- `ft_serve_wait`: the code, and the error that is left behind.
unfoldable pub ft_serve_wait : Option Ended → LastErr → ℤ × LastErr
ft_serve_wait none last = (failure, codes "handle must not be null")
ft_serve_wait (some finished) last = (pos 0, last)
ft_serve_wait (some (failed e)) last = (failure, e)
ft_serve_wait (some panicked) last = (negsuc 1, codes "server thread panicked")
