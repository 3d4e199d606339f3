-- ===== src/Commands.antt =====
-- app.js: command flows: their data, and the run of one flow, `executeCommandLine` and
-- `runCommandFlow`. What the server answers to a line, and when the user asks for a pause, are
-- arguments.
pub mod Outcome
pub mod Resume
pub mod Blank
mod Tests
use log_agent.Prelude.{
  ℕ, zero, suc, ◌+◌, ltb, Bool, true, false, not, ◌&&◌, ◌||◌, List, [], ◌∷◌, ◌++◌, Option, none,
  some, Text, txt, nat_eq, ◌==◌, if◌then◌else◌, find_index, take, drop, is_empty,
}
use log_agent.Prelude.Texts.{is_blank}

pub data Status : Type 0 where
  idle running success error : Status

pub record Line : Type 0 where
  pub upload : Bool
  pub text : Text
  pub file_id : Text
  pub file_name : Text
  pub destination : Text
  pub status : Status
  pub error_text : Option Text
  pub error_code : Option Text
  pub upload_progress : ℕ

-- The server that an old flow has in itself; texts that are missing are empty.
pub record Host : Type 0 where
  pub host : Text
  pub port : Text
  pub user : Text
  pub auth : Text
  pub secret : Text

abbrev pub no_host : Host
no_host = record { host = []; port = []; user = []; auth = []; secret = [] }

pub record Flow : Type 0 where
  pub id : Text
  pub name : Text
  pub server_id : Text
  pub own_host : Host
  pub lines : List Line
  pub run_cwd : Option Text

-- What becomes of a line: an upload done, a command done with the directory that the server
-- answers, an error with its message and code, or an upload that a pause cut short.
pub data Answer : Type 0 where
  uploaded : Answer
  ran : Text → Answer
  failed : Text → Text → Answer
  paused : Answer

-- A line's entry in the record of a run.
pub record Entry : Type 0 where
  pub index : ℕ
  pub result : Text

pub record Executed : Type 0 where
  pub line : Line
  pub cwd : Option Text
  pub ok : Bool
  pub entry : Entry

-- `if (payload.cwd) flow.runCwd = payload.cwd`
abbrev pub change_cwd : Text → Option Text → Option Text
change_cwd [] cwd = cwd
change_cwd (c ∷ path) cwd = some (c ∷ path)

-- The end of `executeCommandLine`: what the answer makes of the line that was sent.
unfoldable pub settle : ℕ → Line → Option Text → Answer → Executed
settle index line cwd uploaded = record {
  line = record line { status = success; error_text = some [] };
  cwd = cwd;
  ok = true;
  entry = record { index = index; result = txt "success" };
}
settle index line cwd (ran path) = record {
  line = record line { status = success; error_text = some [] };
  cwd = change_cwd path cwd;
  ok = true;
  entry = record { index = index; result = txt "success" };
}
settle index line cwd paused = record {
  line = record line { status = idle; upload_progress = 0; error_text = none; error_code = none };
  cwd = cwd;
  ok = false;
  entry = record { index = index; result = txt "paused" };
}
settle index line cwd (failed message code) = record {
  line = record line { status = error; error_text = some message; error_code = some code };
  cwd = cwd;
  ok = false;
  entry = record { index = index; result = txt "error" };
}

-- What `executeCommandLine` sets in a line before it is sent.
abbrev pub begin_line : Line → Line
begin_line line = record line {
  status = running;
  upload_progress = if line.upload then 0 else line.upload_progress;
}

-- `executeCommandLine`. `has_server` says that the flow's server is in the library; without one
-- the line fails before anything is sent.
unfoldable pub execute_command_line :
    Bool → (Line → Option Text → Answer) → ℕ → Line → Option Text → Executed
unfolding settle
execute_command_line has_server answer index line cwd =
    let sent = begin_line line in
    settle index sent cwd (if has_server then answer sent cwd else failed (txt "no server") [])

-- How the loop of `runCommandFlow` ends: `paused` and `failed` are its variables.
pub data Stop : Type 0 where
  finished : Stop
  failed_at paused_at : ℕ → Stop

pub record Ran : Type 0 where
  pub lines : List Line
  pub cwd : Option Text
  pub stop : Stop
  pub entries : List Entry

abbrev pub has_status : Status → Line → Bool
has_status idle line = elim line.status [
  | idle ↦ true
  | running ↦ false
  | success ↦ false
  | error ↦ false
]
has_status running line = elim line.status [
  | idle ↦ false
  | running ↦ true
  | success ↦ false
  | error ↦ false
]
has_status success line = elim line.status [
  | idle ↦ false
  | running ↦ false
  | success ↦ true
  | error ↦ false
]
has_status error line = elim line.status [
  | idle ↦ false
  | running ↦ false
  | success ↦ false
  | error ↦ true
]

-- A line that the loop passes over.
unfoldable pub is_skipped : Line → Bool
unfolding is_blank
is_skipped line = not line.upload && is_blank line.text

abbrev pub and_then : Line → List Entry → Ran → Ran
and_then line entries r = record r { lines = line ∷ r.lines; entries = entries ++ r.entries }

-- The loop of `runCommandFlow` at line `index`, with the lines that are left. `pause_requested`
-- says whether a pause has been asked for when a line is reached.
unfoldable pub run_lines :
    Bool → (Line → Option Text → Answer) → (ℕ → Bool) → ℕ → List Line → Option Text → Ran
unfolding is_skipped execute_command_line
run_lines has_server answer pause_requested index [] cwd = record {
  lines = [];
  cwd = cwd;
  stop = finished;
  entries = [];
}
run_lines has_server answer pause_requested index (line ∷ rest) cwd =
    let skip =
      and_then line [] (run_lines has_server answer pause_requested (suc index) rest cwd) in
    let done = execute_command_line has_server answer index line cwd in
    let go =
      and_then done.line (done.entry ∷ [])
        (run_lines has_server answer pause_requested (suc index) rest done.cwd) in
    let halt : Ran = record {
      lines = done.line ∷ rest;
      cwd = done.cwd;
      stop = if has_status error done.line then failed_at index else paused_at index;
      entries = done.entry ∷ [];
    } in
    if is_skipped line
    then skip
    else if pause_requested index
    then record { lines = line ∷ rest; cwd = cwd; stop = paused_at index; entries = [] }
    else if done.ok
    then go
    else halt

-- `begin`
unfoldable pub begin_at : ℕ → Bool → List Line → ℕ
begin_at start exact lines =
    if exact || ltb 0 start then start else (elim (find_index (has_status error) lines) [
      | some first_error ↦ first_error
      | none ↦ elim (find_index (λ line. not (has_status success line)) lines) [
        | some first_pending ↦ first_pending
        | none ↦ 0
      ]
    ])

-- The run from line `begin`.
unfoldable pub run_from :
    Bool → (Line → Option Text → Answer) → (ℕ → Bool) → ℕ → Flow → Flow × Stop × List Entry
unfolding run_lines
run_from has_server answer pause_requested begin flow =
    let cwd = if begin == 0 then none else flow.run_cwd in
    let r = run_lines has_server answer pause_requested begin (drop begin flow.lines) cwd in
    (record flow { lines = take begin flow.lines ++ r.lines; run_cwd = r.cwd }, r.stop, r.entries)

-- `runCommandFlow` of a flow that is not running, with how it stopped and its record.
unfoldable pub run_command_flow :
    Bool → (Line → Option Text → Answer) → (ℕ → Bool) → ℕ → Bool → Flow → Flow × Stop × List Entry
unfolding run_from begin_at
run_command_flow has_server answer pause_requested start exact flow =
    run_from has_server answer pause_requested (begin_at start exact flow.lines) flow
