-- ===== src/Bridge.antt =====
-- bridge.js: how the desktop window carries the page's requests to the Go handlers: the pieces in
-- which `start` hands a body over, and a call of `window.fetch`. Calls have ids of their own, so each
-- is modelled alone, with whether it stands in the table `calls`.
pub mod Body
pub mod Fetch
pub mod EventSource
pub mod Chunks
pub mod Xhr
pub mod Settles
pub mod Loadends
pub mod Emits
mod Tests
use log_agent.Prelude.{
  ℕ, zero, suc, ◌+◌, ltb, min, Bool, true, false, not, ◌&&◌, List, [], ◌∷◌, ◌++◌, Option, none,
  some, Text, if◌then◌else◌, length, ◌*◌,
}
use log_agent.Prelude.Texts.{slice}

-- `CHUNK`
abbrev pub max_chunk : ℕ
max_chunk = 512 * 1024

-- A piece of the body and the number of bytes that are handed over with it.
pub record Piece : Type 0 where
  pub bytes : Text
  pub loaded : ℕ

-- The loop of `start` at an offset, for pieces of a size.
unfoldable pub body_pieces : ℕ → ℕ → ℕ → Text → List Piece
body_pieces size zero offset body = []
body_pieces size (suc fuel) offset body =
    let end = min (offset + size) (length body) in
    let rest = body_pieces size fuel (offset + size) body in
    if ltb offset (length body)
    then (record { bytes = slice offset end body; loaded = end }) ∷ rest
    else []

-- The pieces that `start` hands over: no more of them than bytes.
unfoldable pub start_body : Text → List Piece
unfolding body_pieces
start_body body = body_pieces max_chunk (length body) 0 body
