-- ===== src/RunLogs.antt =====
-- app.js: the history of runs, `loadCommandLogs`, `saveCommandLogs`, `startCommandLog`,
-- `beginCommandLogEntry`, `finishCommandLogEntry`, `finishCommandLog`, and the clearing of the history
-- of a flow or a group. The ids of runs are new, so an open record is found by its id; its open entry
-- is its last one. The clock, translated texts and new ids are arguments.
pub mod Bounds
pub mod Clearing
mod Tests
use log_agent.Prelude.{
  ℕ, zero, suc, ◌+◌, ◌-◌, ltb, Bool, true, false, not, ◌&&◌, ◌||◌, List, [], ◌∷◌, ◌++◌, map, Option,
  none, some, Text, txt, text_eq, nat_eq, ◌==◌, if◌then◌else◌, is_empty, take, length, filterb,
  find_first, anyb,
}
use log_agent.Prelude.Members.{contains}
use log_agent.Commands.{Line, Flow}
use log_agent.Workspace.{Workspace, Server, Group, ShelfFile, has_flow}
use log_agent.Workspace.Groups.{command_group}
use log_agent.Workspace.FileRefs.{match_file, find_file}
use log_agent.Workspace.Stored.{text_or}
use log_agent.Workspace.Favorites.{name_or}

pub data LogStatus : Type 0 where
  running success error paused : LogStatus

pub record LogEntry : Type 0 where
  pub index : ℕ
  pub upload : Bool
  pub command : Text
  pub cwd : Text
  pub started_at : ℕ
  pub duration_ms : ℕ
  pub status : LogStatus
  pub output : Text
  pub error_text : Text

pub record RunLog : Type 0 where
  pub id : Text
  pub flow_id : Text
  pub flow_name : Text
  pub group_id : Text
  pub group_name : Text
  pub batch_id : Text
  pub server_name : Text
  pub host : Text
  pub started_at : ℕ
  pub ended_at : ℕ
  pub result : LogStatus
  pub entries : List LogEntry

-- The open window: of a group or a flow, with the run that is shown.
pub record LogsView : Type 0 where
  pub of_group : Bool
  pub id : Text
  pub run_id : Text

-- `commandLogs`, and `commandLogsView`
pub record Logs : Type 0 where
  pub runs : List RunLog
  pub view : Option LogsView

pub record Batch : Type 0 where
  pub id : Text
  pub group_id : Text
  pub group_name : Text

abbrev pub max_runs : ℕ
max_runs = 200

abbrev pub max_browser_runs : ℕ
max_browser_runs = 50

abbrev pub max_output : ℕ
max_output = 20000

-- `clampCommandLogText`; `notice` is the translated `commands.outputTruncated`.
unfoldable pub clamp_command_log_text : Text → Text → Text
clamp_command_log_text notice value =
    if ltb max_output (length value) then take max_output value ++ 10 ∷ notice else value

abbrev pub is_going : LogStatus → Bool
is_going running = true
is_going success = false
is_going error = false
is_going paused = false

abbrev pub stopped : LogStatus → LogStatus
stopped running = paused
stopped success = success
stopped error = error
stopped paused = paused

abbrev pub stop_entry : LogEntry → LogEntry
stop_entry entry = record entry { status = stopped entry.status }

abbrev pub stop_run : RunLog → RunLog
stop_run run =
    if is_going run.result
    then record run { result = paused; entries = map stop_entry run.entries }
    else run

-- The runs that have a list of entries; `none` is a value without one.
abbrev pub with_entries : List (Option RunLog) → List RunLog
with_entries [] = []
with_entries (none ∷ runs) = with_entries runs
with_entries (some run ∷ runs) = run ∷ with_entries runs

-- `loadCommandLogs`; `stored` is `none` when the request fails or the stored text does not parse.
unfoldable pub load_command_logs : Option (List (Option RunLog)) → Logs → Logs
load_command_logs none l = record l { runs = [] }
load_command_logs (some stored) l = record l { runs = map stop_run (with_entries stored) }

-- The timer of `saveCommandLogs`.
unfoldable pub save_command_logs : Logs → Logs
save_command_logs l = record l { runs = take max_runs l.runs }

-- What is written: all runs in the file, fewer in the browser.
unfoldable pub written_runs : Bool → Logs → List RunLog
unfolding save_command_logs
written_runs in_file l =
    let runs = (save_command_logs l).runs in if in_file then runs else take max_browser_runs runs

abbrev pub find_server : Text → Workspace → Option Server
find_server id w = find_first (λ (server : Server). server.id == id) w.servers

abbrev pub server_name : Option Server → Text
server_name none = []
server_name (some server) = text_or server.name server.host

abbrev pub at_user : Text → Text
at_user [] = []
at_user (c ∷ user) = (c ∷ user) ++ txt "@"

abbrev pub at_port : Text → Text
at_port port = if is_empty port || port == txt "22" then [] else txt ":" ++ port

abbrev pub server_host : Option Server → Text
server_host none = []
server_host (some server) = at_user server.user ++ server.host ++ at_port server.port

abbrev pub group_of : Option Batch → Flow → Workspace → Option Group
group_of none flow w = find_first (λ (g : Group). has_flow flow.id g.flows) w.groups
group_of (some batch) flow w = command_group batch.group_id w

abbrev pub group_id_of : Option Group → Text
group_id_of none = []
group_id_of (some g) = g.id

abbrev pub batch_name : Option Batch → Text
batch_name none = []
batch_name (some batch) = batch.group_name

abbrev pub batch_id_of : Option Batch → Text
batch_id_of none = []
batch_id_of (some batch) = batch.id

abbrev pub group_name_of : Option Group → Option Batch → Text
group_name_of none batch = batch_name batch
group_name_of (some g) batch = text_or g.name (batch_name batch)

unfoldable pub new_run : Text → Text → ℕ → Option Batch → Flow → Workspace → RunLog
new_run new_id unnamed now batch flow w =
    let server = find_server flow.server_id w in
    let group = group_of batch flow w in
    record {
      id = new_id;
      flow_id = flow.id;
      flow_name = text_or flow.name unnamed;
      group_id = group_id_of group;
      group_name = group_name_of group batch;
      batch_id = batch_id_of batch;
      server_name = server_name server;
      host = server_host server;
      started_at = now;
      ended_at = 0;
      result = running;
      entries = [];
    }

-- `view.scope === 'group' ? run.groupId : run.flowId`
abbrev pub scope_id : Bool → RunLog → Text
scope_id true run = run.group_id
scope_id false run = run.flow_id

-- The window follows the run that just started.
abbrev pub follow : RunLog → Option LogsView → Option LogsView
follow run none = none
follow run (some view) =
    if scope_id view.of_group run == view.id
    then some (record view { run_id = run.id })
    else some view

-- `startCommandLog`
unfoldable pub start_command_log : Text → Text → ℕ → Option Batch → Flow → Workspace → Logs → Logs
unfolding new_run
start_command_log new_id unnamed now batch flow w l =
    let run = new_run new_id unnamed now batch flow w in
    record l { runs = take max_runs (run ∷ l.runs); view = follow run l.view }

abbrev pub update_run : Text → (RunLog → RunLog) → Logs → Logs
update_run id f l = record l {
  runs = map (λ (run : RunLog). if run.id == id then f run else run) l.runs;
}

-- `defaultCommandUploadDestination`
unfoldable pub default_destination : Option Server → Text
default_destination none = []
default_destination (some server) =
    if is_empty server.user
    then []
    else if server.user == txt "root"
    then txt "/root"
    else txt "/home/" ++ server.user

-- `commandTextForExecution`: a reference to a file becomes its name, or its id.
unfoldable pub execution_text : List ShelfFile → ℕ → Text → Text
unfolding match_file
execution_text files skip [] = []
execution_text files (suc skip) (c ∷ text) = execution_text files skip text
execution_text files zero (c ∷ text) =
    let next = c ∷ execution_text files 0 text in
    elim (match_file (c ∷ text)) [
      | none ↦ next
      | some id ↦ name_or (find_file id files) id ++ execution_text files (length id + 8) text
    ]

abbrev pub cwd_of : Flow → Text
cwd_of flow = elim flow.run_cwd [ none ↦ [] | some cwd ↦ cwd ]

unfoldable pub entry_command : Flow → Line → Workspace → Text
unfolding execution_text default_destination
entry_command flow line w =
    if line.upload
    then name_or (find_file line.file_id w.files) line.file_name
      ++ txt " → "
      ++ text_or line.destination
          (text_or (cwd_of flow) (default_destination (find_server flow.server_id w)))
    else execution_text w.files 0 line.text

-- `beginCommandLogEntry`
unfoldable pub begin_command_log_entry : Text → ℕ → Flow → Line → ℕ → Workspace → Logs → Logs
unfolding entry_command
begin_command_log_entry run_id now flow line index w l =
    let entry : LogEntry = record {
      index = index;
      upload = line.upload;
      command = entry_command flow line w;
      cwd = cwd_of flow;
      started_at = now;
      duration_ms = 0;
      status = running;
      output = [];
      error_text = [];
    } in
    update_run run_id (λ (run : RunLog). record run { entries = run.entries ++ entry ∷ [] }) l

abbrev pub update_last : (LogEntry → LogEntry) → List LogEntry → List LogEntry
update_last f [] = []
update_last f (entry ∷ []) = f entry ∷ []
update_last f (entry ∷ next ∷ entries) = entry ∷ update_last f (next ∷ entries)

abbrev pub output_or : Option Text → Text → Text
output_or none output = output
output_or (some given) output = given

abbrev pub clamp_error : Text → Text → Text → Text
clamp_error notice [] old = old
clamp_error notice (c ∷ text) old = clamp_command_log_text notice (c ∷ text)

unfoldable pub finish_entry : Text → ℕ → LogStatus → Option Text → Text → Text → LogEntry → LogEntry
unfolding clamp_command_log_text
finish_entry notice now status output error_text cwd entry = record entry {
  status = status;
  duration_ms = now - entry.started_at;
  output = clamp_command_log_text notice (output_or output entry.output);
  error_text = clamp_error notice error_text entry.error_text;
  cwd = text_or cwd entry.cwd;
}

-- `finishCommandLogEntry`; a text that is missing is the empty one.
unfoldable pub finish_command_log_entry :
    Text → Text → ℕ → LogStatus → Option Text → Text → Text → Logs → Logs
unfolding finish_entry
finish_command_log_entry run_id notice now status output error_text cwd l =
    update_run run_id
      (λ (run : RunLog). record run {
        entries = update_last (finish_entry notice now status output error_text cwd) run.entries;
      })
      l

-- `finishCommandLog`
unfoldable pub finish_command_log : Text → ℕ → LogStatus → Logs → Logs
finish_command_log run_id now result l =
    update_run run_id (λ (run : RunLog). record run { result = result; ended_at = now }) l

-- `commandLogRuns`
unfoldable pub command_log_runs : Bool → Text → Logs → List RunLog
command_log_runs of_group id l = filterb (λ (run : RunLog). scope_id of_group run == id) l.runs

abbrev pub first_id : List RunLog → Text
first_id [] = []
first_id (run ∷ runs) = run.id

-- `openCommandLogs`
unfoldable pub open_command_logs : Bool → Text → Logs → Logs
unfolding command_log_runs
open_command_logs of_group id l = record l {
  view =
      some (record {
        of_group = of_group;
        id = id;
        run_id = first_id (command_log_runs of_group id l);
      });
}

-- The runs of a scope that are done.
abbrev pub done_ids : List RunLog → List Text
done_ids runs =
    map (λ (run : RunLog). run.id) (filterb (λ (run : RunLog). not (is_going run.result)) runs)

unfoldable pub clear_view : Bool → Option LogsView → Logs → Logs
unfolding command_log_runs
clear_view confirmed none l = l
clear_view confirmed (some view) l =
    let runs = command_log_runs view.of_group view.id l in
    if is_empty runs || not confirmed then l else record l {
      runs = filterb (λ (run : RunLog). not (contains run.id (done_ids runs))) l.runs;
    }

-- The button `#command-logs-clear`
unfoldable pub clear_command_logs : Bool → Logs → Logs
unfolding clear_view
clear_command_logs confirmed l = clear_view confirmed l.view l
