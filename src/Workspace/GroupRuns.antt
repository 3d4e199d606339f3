-- ===== src/Workspace/GroupRuns.antt =====
-- That a group is run only when the files that its lines name are on the shelf.
use log_agent.Prelude.{Bool, true, false, List, Text, text_eq, nat_eq, ◌≡◌, is_empty}
use log_agent.Commands.{Flow, Line}
use log_agent.Workspace.{Workspace, ShelfFile, Group, all_command_flows}
use log_agent.Workspace.Groups.{is_running_group}
use log_agent.Prelude.{All}
use log_agent.Workspace.Sequence.{GroupRun}
use log_agent.Workspace.FileRefs.{FileRef, command_line_file_ids, find_file, is_missing}

module _ (files : List ShelfFile) where
  abbrev pub IsThere : Text → Type 0
  IsThere id = is_missing (find_file id files) ≡ false

  abbrev pub HasFiles : Flow → Type 0
  HasFiles flow = All (λ (line : Line). All IsThere (command_line_file_ids line)) flow.lines

  abbrev RefThere : FileRef → Type 0
  RefThere ref = IsThere ref.id

abbrev pub is_started : GroupRun → Bool
is_started GroupRun.no_group = false
is_started GroupRun.group_busy = false
is_started GroupRun.group_empty = false
is_started GroupRun.files_missing = false
is_started (GroupRun.ran ok) = true

abbrev pub NotStarted : Workspace → Workspace × GroupRun → Type 0
NotStarted w (v, outcome) =
    (is_started outcome ≡ false) × (all_command_flows v ≡ all_command_flows w)

abbrev pub Started : Workspace → Group → Workspace × GroupRun → Type 0
Started w g (v, outcome) =
    (is_started outcome ≡ true)
    × (is_empty g.flows ≡ false)
    × (is_running_group g.id w ≡ false)
    × All (HasFiles w.files) g.flows
