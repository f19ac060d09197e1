-- ===== src/Config.antt =====
-- rust/src/config.rs: `strip_jsonc`.
pub mod Jsonc
pub mod Upgrade
use folder_transfer.Prelude.{ℕ, Bool, true, false, ◌&&◌, ◌||◌, List, [], ◌∷◌, ◌==◌, if◌then◌else◌}
use folder_transfer.Text.{Text}

-- Where the loop stands. `in_str esc` are its two flags; `line` and `block` its inner loops; `opening` and
-- `closing` are in front of the second byte of `/*` and `*/`, which `i += 2` passes over. The source
-- compares its characters with ASCII alone, which is the same on bytes.
pub data Place : Type 0 where
  outside : Place
  in_str : Bool → Place
  line opening block closing : Place

abbrev pub next_is : ℕ → Text → Bool
next_is c [] = false
next_is c (x ∷ s) = x == c

-- Whether `out.push(c)` is done for `c` in front of `s`, and where the loop goes on.
unfoldable pub pass : Place → ℕ → Text → Bool × Place
pass outside c s =
    if c == b'"'
    then (true, in_str false)
    else if c == b'/' && next_is b'/' s
    then (false, line)
    else if c == b'/' && next_is b'*' s
    then (false, opening)
    else (true, outside)
pass (in_str true) c s = (true, in_str false)
pass (in_str false) c s =
    if c == b'\\'
    then (true, in_str true)
    else if c == b'"'
    then (true, outside)
    else (true, in_str false)
pass line c s = if c == 10 then (true, outside) else (false, line)
pass opening c s = (false, block)
pass block c s = if c == b'*' && next_is b'/' s then (false, closing) else (false, block)
pass closing c s = (false, outside)

abbrev pub push_if : Bool → ℕ → Text → Text
push_if true c out = c ∷ out
push_if false c out = out

unfoldable pub strip_from : Place → Text → Text
strip_from p [] = []
strip_from p (c ∷ s) = let (kept, q) = pass p c s in push_if kept c (strip_from q s)

unfoldable pub strip_jsonc : Text → Text
strip_jsonc s = strip_from outside s
