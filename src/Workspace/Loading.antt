-- ===== src/Workspace/Loading.antt =====
-- What a workspace is like after it was stored and loaded again.
use log_agent.Prelude.{
  ℕ, false, List, [], ◌∷◌, map, none, Text, text_eq, nat_eq, ◌≡◌, refl, ap, is_empty,
}
use log_agent.Commands.{Flow, Line, Status}
use log_agent.Workspace.{Workspace}
use log_agent.Workspace.RoundTrip.{reloaded, HasLine, IsStorable, IsReload, apply-snapshot_with}
use log_agent.Workspace.Stored.{idle_line, apply_command_data}
use log_agent.Workspace.Snapshots.{clean_line, clean_flow, command_file_snapshot, browser_snapshot}

-- A flow without what a run leaves: its lines without a status, an error and a progress, and no
-- directory.
abbrev pub line_without_run : Line → Line
line_without_run line = record {
  upload = line.upload;
  text = line.text;
  file_id = line.file_id;
  file_name = line.file_name;
  destination = line.destination;
  status = Status.idle;
  error_text = none;
  error_code = none;
  upload_progress = 0;
}

abbrev pub without_run : Flow → Flow
without_run flow = record {
  id = flow.id;
  name = flow.name;
  server_id = flow.server_id;
  own_host = flow.own_host;
  lines = map line_without_run flow.lines;
  run_cwd = none;
}

-- A flow whose lines are idle, with all else that a run left.
abbrev pub idle_flow : Flow → Flow
idle_flow flow = record flow {
  lines = map (λ (line : Line). record line { status = Status.idle }) flow.lines;
}

cleaned : (flow : Flow) → reloaded (clean_flow flow) ≡ without_run flow
cleaned flow = ap (λ lines. record flow { lines = lines; run_cwd = none }) (idle_again flow.lines)
  where
    idle_again :
        (lines : List Line) → map idle_line (map clean_line lines) ≡ map line_without_run lines
    idle_again [] = refl
    idle_again (line ∷ lines) = rw (idle_again lines) refl

clean_flow-HasLine : (flow : Flow) → HasLine flow → HasLine (clean_flow flow)
clean_flow-HasLine flow h = full-map flow.lines h
  where
    full-map :
        (lines : List Line) → is_empty lines ≡ false → is_empty (map clean_line lines) ≡ false
    full-map [] h = cc
    full-map (line ∷ lines) h = refl

-- A workspace that has a flow in its main list, a line in every flow, a server for every flow of the
-- list that has a host of old, an id for every server and at most 50 favourites comes back from the
-- file with the same groups, servers and favourites and with the same flows: each has its id, name,
-- server and host, and its lines with what they do, but no line has a status, an error or a
-- progress, and no flow a directory. What the page showed before the loading does not matter.
pub apply-command_file_snapshot :
    (defaults : List Flow) (server_ids : ℕ → Text) (w v : Workspace)
    → IsStorable w
    → IsReload without_run w (apply_command_data defaults server_ids (command_file_snapshot w) v)
unfolding command_file_snapshot
apply-command_file_snapshot defaults server_ids w v h =
    apply-snapshot_with clean_flow without_run defaults server_ids w v clean_flow-HasLine
      (λ flow s. s) cleaned h

-- A workspace that has a flow in its main list, a line in every flow, a server for every flow of the
-- list that has a host of old, an id for every server and at most 50 favourites comes back from the
-- browser's storage with the same groups, servers and favourites, and with its flows and lines as
-- they were, the errors of the last run and the directories included, but for the status, which
-- is idle.
pub apply-browser_snapshot :
    (defaults : List Flow) (server_ids : ℕ → Text) (w v : Workspace)
    → IsStorable w
    → IsReload idle_flow w (apply_command_data defaults server_ids (browser_snapshot w) v)
unfolding browser_snapshot
apply-browser_snapshot defaults server_ids w v h =
    apply-snapshot_with (λ flow. flow) idle_flow defaults server_ids w v (λ flow h. h) (λ flow s. s)
      (λ flow. refl) h
