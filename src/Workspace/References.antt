-- ===== src/Workspace/References.antt =====
-- Which files the references of a group name, and that a group is run only if all are there.
use log_agent.Prelude.{ℕ, ◌+◌, List, [], ◌∷◌, Text, text_eq, nat_eq, ◌==◌, if◌then◌else◌}
use log_agent.Commands.{Flow, Line}
use log_agent.Workspace.Count.{one_for}
use log_agent.Workspace.FileRefs.{FileRef, ShownRef, command_line_file_ids}

-- How often a list has a text.
abbrev pub times : Text → List Text → ℕ
times id [] = 0
times id (key ∷ keys) = one_for (key == id) + times id keys

abbrev pub times_in_lines : Text → List Line → ℕ
times_in_lines id [] = 0
times_in_lines id (line ∷ lines) = times id (command_line_file_ids line) + times_in_lines id lines

abbrev pub times_in_flows : Text → List Flow → ℕ
times_in_flows id [] = 0
times_in_flows id (flow ∷ flows) = times_in_lines id flow.lines + times_in_flows id flows

-- The count that the references have for a file, and how many of them are about it.
abbrev pub counted : Text → List FileRef → ℕ
counted id [] = 0
counted id (ref ∷ refs) = (if ref.id == id then ref.count else 0) + counted id refs

abbrev pub entries : Text → List FileRef → ℕ
entries id [] = 0
entries id (ref ∷ refs) = one_for (ref.id == id) + entries id refs

-- The count that is shown for a file, and how many of the shown references are about it.
abbrev pub shown_count : Text → List ShownRef → ℕ
shown_count id [] = 0
shown_count id (ref ∷ refs) = (if ref.id == id then ref.count else 0) + shown_count id refs

abbrev pub shown_times : Text → List ShownRef → ℕ
shown_times id [] = 0
shown_times id (ref ∷ refs) = one_for (ref.id == id) + shown_times id refs
