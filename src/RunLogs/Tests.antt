-- ===== src/RunLogs/Tests.antt =====
-- A history, and the theorems at it.
use log_agent.Prelude.{
  text_eq, true, false, not, List, [], ◌∷◌, map, none, some, txt, ◌≡◌, refl, filterb,
}
use log_agent.Prelude.Members.{Distinct}
use log_agent.Commands.{no_host, Flow}
use log_agent.Workspace.{Workspace, new_line}
use log_agent.RunLogs.{
  LogStatus, RunLog, LogsView, Logs, execution_text, load_command_logs, clear_command_logs,
}
use log_agent.RunLogs.Clearing.{ids, is_cleared, clear_command_logs_lem}
use log_agent.RunLogs.Bounds.{Action, act_all, no_logs, AreLogs, act_all-AreLogs}

abbrev flow : Flow
flow = record {
  id = txt "f";
  name = [];
  server_id = txt "s";
  own_host = no_host;
  lines = new_line ∷ [];
  run_cwd = none;
}

abbrev workspace : Workspace
workspace = record {
  flows = flow ∷ [];
  groups = [];
  servers =
      (record {
        id = txt "s";
        name = [];
        host = txt "h";
        port = txt "2222";
        user = txt "root";
        auth = [];
        secret = [];
      })
      ∷ [];
  favorites = [];
  files = (record { id = txt "x"; name = txt "x.txt"; has_content = true }) ∷ [];
  active_flow_id = txt "f";
  running = [];
  running_groups = [];
}

names_of_files :
    execution_text workspace.files 0 (txt "cat [[file:x]] [[file:y]]") ≡ txt "cat x.txt y"
unfolding execution_text
names_of_files = refl

abbrev actions : List Action
actions =
    Action.start (txt "1") (txt "flow") 5 none flow workspace
    ∷ Action.begin_entry (txt "1") 6 flow new_line 0 workspace
    ∷ Action.end_entry (txt "1") 9 LogStatus.success (some (txt "out")) [] (txt "/root")
    ∷ Action.end_run (txt "1") 9 LogStatus.success
    ∷ Action.start (txt "2") (txt "flow") 10 none flow workspace
    ∷ Action.open_window false (txt "f")
    ∷ []

abbrev history : Logs
history = act_all (txt "cut") actions no_logs

hosts : map (λ (run : RunLog). run.host) history.runs ≡ txt "root@h:2222" ∷ txt "root@h:2222" ∷ []
unfolding act_all
hosts = refl

act_all-AreLogs_example : AreLogs (txt "cut") history
act_all-AreLogs_example = act_all-AreLogs (txt "cut") actions

abbrev view : LogsView
view = record { of_group = false; id = txt "f"; run_id = txt "2" }

history_view : history.view ≡ some view
unfolding act_all
history_view = refl

history_ids : Distinct (ids history.runs)
unfolding act_all
history_ids = (refl, (refl, tt))

clear_command_logs_lem_example :
    (clear_command_logs true history).runs
    ≡ filterb (λ (run : RunLog). not (is_cleared view run)) history.runs
clear_command_logs_lem_example = clear_command_logs_lem view history history_view history_ids

-- The run that is under way stays.
left_ids : ids (clear_command_logs true history).runs ≡ txt "2" ∷ []
unfolding act_all clear_command_logs
left_ids = refl

-- After the page is loaded, a run that was under way is paused.
loaded :
    map
      (λ (run : RunLog). run.result)
      (load_command_logs (some (map some history.runs)) no_logs).runs
    ≡ LogStatus.paused ∷ LogStatus.success ∷ []
unfolding act_all load_command_logs
loaded = refl
