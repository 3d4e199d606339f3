-- ===== src/Bridge/EventSource.antt =====
-- bridge.js: `BridgeEventSource`, the stream of events over a fetch. A chunk is a text as the decoder
-- gives it.
use log_agent.Prelude.{
  Option, none, some, ℕ, Bool, true, false, ◌&&◌, List, [], ◌∷◌, ◌++◌, Text, txt, nat_eq, ◌==◌,
  if◌then◌else◌, is_empty, drop,
}
use log_agent.Prelude.Texts.{starts_with, trim}

-- `replace(/\r\n?/g, '\n')`
unfoldable pub normalized : Text → Text
normalized [] = []
normalized (c ∷ []) = if c == 13 then 10 ∷ [] else c ∷ []
normalized (c ∷ d ∷ text) =
    let past = normalized text in
    let rest = normalized (d ∷ text) in
    if c == 13 then (if d == 10 then 10 ∷ past else 10 ∷ rest) else c ∷ rest

-- One more character in front of the first block, or of what is left when there is none.
abbrev pub in_front : ℕ → List Text × Text → List Text × Text
in_front c ([], pending) = ([], c ∷ pending)
in_front c (block ∷ blocks, pending) = ((c ∷ block) ∷ blocks, pending)

abbrev pub empty_block : List Text × Text → List Text × Text
empty_block (blocks, pending) = ([] ∷ blocks, pending)

-- `while ((split = pending.indexOf('\n\n')) >= 0)`: the blocks, each up to the first empty line that
-- is left, and what stays in `pending`.
unfoldable pub split_blocks : Text → List Text × Text
split_blocks [] = ([], [])
split_blocks (c ∷ []) = ([], c ∷ [])
split_blocks (c ∷ d ∷ text) =
    let past = split_blocks text in
    let rest = split_blocks (d ∷ text) in
    if c == 10 && d == 10 then empty_block past else in_front c rest

-- `block.split('\n')`
abbrev pub in_line : ℕ → List Text → List Text
in_line c [] = (c ∷ []) ∷ []
in_line c (line ∷ lines) = (c ∷ line) ∷ lines

unfoldable pub lines_of : Text → List Text
lines_of [] = [] ∷ []
lines_of (c ∷ text) = let rest = lines_of text in if c == 10 then [] ∷ rest else in_line c rest

abbrev pub without_space : Text → Text
without_space [] = []
without_space (c ∷ text) = if c == 32 then text else c ∷ text

-- `data` and `type` in the loop over the lines.
pub record Block : Type 0 where
  pub data_ : List Text
  pub type : Text

unfoldable pub read_line : Block → Text → Block
unfolding starts_with trim
read_line b line =
    if starts_with (txt "data:") line
    then record b { data_ = b.data_ ++ without_space (drop 5 line) ∷ [] }
    else if starts_with (txt "event:") line
    then record b { type = trim (drop 6 line) }
    else b

unfoldable pub read_lines : List Text → Block → Block
unfolding read_line
read_lines [] b = b
read_lines (line ∷ lines) b = read_lines lines (read_line b line)

abbrev pub join_lines : List Text → Text
join_lines [] = []
join_lines (line ∷ []) = line
join_lines (line ∷ next ∷ lines) = line ++ 10 ∷ join_lines (next ∷ lines)

-- An event as `_emit` makes it: its type, which a server may choose freely, and its data, which the
-- two events of the source itself do not have.
pub record Emitted : Type 0 where
  pub type : Text
  pub data_ : Option Text

abbrev pub open_event : Emitted
open_event = record { type = txt "open"; data_ = none }

abbrev pub error_event : Emitted
error_event = record { type = txt "error"; data_ = none }

-- What a block emits: nothing without a line of data.
unfoldable pub read_block : Text → Option Emitted
unfolding read_lines lines_of
read_block block =
    let b = read_lines (lines_of block) (record { data_ = []; type = txt "message" }) in
    if is_empty b.data_
    then none
    else some (record { type = b.type; data_ = some (join_lines b.data_) })

-- `CONNECTING`, `OPEN` and `CLOSED`
pub data ReadyState : Type 0 where
  connecting opened closed : ReadyState

pub record Source : Type 0 where
  pub ready_state : ReadyState
  pub pending : Text
  pub emitted : List Emitted

pub data Happened : Type 0 where
  answered : Bool → Happened
  chunk : Text → Happened
  ended close : Happened

abbrev pub is_opened : ReadyState → Bool
is_opened connecting = false
is_opened opened = true
is_opened closed = false

-- `closes` are the handlers of the page: whether they close the source at the last of the events
-- that were emitted up to now. They throw nothing.
module _ (closes : List Emitted → Bool) where
  -- `_emit`
  unfoldable pub emit : Emitted → Source → Source
  emit event s =
      let emitted = s.emitted ++ event ∷ [] in
      record s { ready_state = if closes emitted then closed else s.ready_state; emitted = emitted }

  -- `failed = true`, and what follows the loop.
  unfoldable pub fail : Source → Source
  unfolding emit
  fail s = elim s.ready_state [
    | connecting ↦ emit error_event (record s { ready_state = closed })
    | opened ↦ emit error_event (record s { ready_state = closed })
    | closed ↦ s
  ]

  -- The answer of the fetch, `ok` with a body or not.
  unfoldable pub on_answer : Bool → Source → Source
  unfolding fail emit
  on_answer false s = fail s
  on_answer true s = elim s.ready_state [
    | connecting ↦ emit open_event (record s { ready_state = opened })
    | opened ↦ emit open_event (record s { ready_state = opened })
    | closed ↦ s
  ]

  -- What was read of a block, while the source is open.
  unfoldable pub emit_read : Option Emitted → Source → Source
  unfolding emit
  emit_read none s = s
  emit_read (some event) s = if is_opened s.ready_state then emit event s else s

  -- The loop over the blocks of a chunk; the state is read again for each of them.
  unfoldable pub emit_blocks : List Text → Source → Source
  unfolding read_block emit_read
  emit_blocks [] s = s
  emit_blocks (block ∷ blocks) s = emit_blocks blocks (emit_read (read_block block) s)

  unfoldable pub take_blocks : List Text × Text → Source → Source
  unfolding emit_blocks
  take_blocks (blocks, pending) s = emit_blocks blocks (record s { pending = pending })

  -- A chunk from the reader.
  unfoldable pub on_chunk : Text → Source → Source
  unfolding normalized split_blocks take_blocks
  on_chunk text s = take_blocks (split_blocks (s.pending ++ normalized text)) s

  unfoldable pub happen : Happened → Source → Source
  unfolding on_answer on_chunk fail
  happen (answered ok) s = on_answer ok s
  happen (chunk text) s = on_chunk text s
  happen ended s = fail s
  happen close s = record s { ready_state = closed }

abbrev pub new_source : Source
new_source = record { ready_state = connecting; pending = []; emitted = [] }

unfoldable pub happen_all : (List Emitted → Bool) → List Happened → Source → Source
unfolding happen
happen_all closes [] s = s
happen_all closes (h ∷ rest) s = happen_all closes rest (happen closes h s)
