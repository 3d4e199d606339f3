-- ===== src/Workspace/Tests.antt =====
-- Workspaces, and the theorems at them.
use mathlib.Core.Path.{subst}
use log_agent.Prelude.Texts.{trim}
use log_agent.Prelude.{
  ℕ, ◌≤◌, true, false, List, [], ◌∷◌, ◌++◌, map, none, some, Text, txt, text_eq, text_beq_iff,
  nat_eq, ◌==◌, ◌≡◌, refl, arith, inl, inr, if◌then◌else◌, take, Bool-cases, is_empty,
}
use log_agent.Commands.{no_host, Flow, Line, Status}
use log_agent.Workspace.Servers.{remove_server}
use log_agent.Workspace.{Workspace, Server, Group, all_command_flows, new_line}
use log_agent.Workspace.Count.{count_all}
use log_agent.Prelude.{allb, drop}
use log_agent.Commands.{Answer}
use log_agent.Workspace.Sequence.{Surroundings, run_one, run_command_flow_sequence}
use log_agent.Workspace.FileRefs.{command_group_file_refs}
use log_agent.Workspace.Steps.{Action, Leads, act, Leads-IsWorkspace}
use log_agent.Workspace.Invariant.{IsWorkspace}
use log_agent.Workspace.Favorites.{
  content, AllIdle, save_command_favorite, restore_command_favorite, restore-save,
}
use log_agent.Workspace.Stored.{CommandData, StoredFlow, apply_command_data, command_defaults}
use log_agent.Workspace.Snapshots.{
  command_file_snapshot, browser_snapshot, load_command_data, Payload, empty_data,
}
use log_agent.Workspace.RoundTrip.{IsStorable, IsReload}
use log_agent.Workspace.Loading.{
  without_run, idle_flow, apply-command_file_snapshot, apply-browser_snapshot,
}
use log_agent.Workspace.Batches.{ends_well, reached, run_command_flow_sequence_stops}
use log_agent.Workspace.References.{shown_count}

abbrev line : Text → Line
line text = record new_line { text = text; status = Status.error; error_text = some (txt "no") }

abbrev flow : Text → List Line → Flow
flow id lines = record {
  id = id;
  name = txt "n";
  server_id = txt "s";
  own_host = no_host;
  lines = lines;
  run_cwd = some (txt "/tmp");
}

abbrev server : Server
server = record {
  id = txt "s";
  name = [];
  host = txt "h";
  port = [];
  user = [];
  auth = [];
  secret = [];
}

abbrev group : Group
group = record {
  id = txt "g";
  name = [];
  collapsed = true;
  flows =
      flow (txt "b") (line (txt "cat [[file:x]] [[file:y]]") ∷ line (txt "[[file:x]]") ∷ []) ∷ [];
}

abbrev small : Workspace
small = record {
  flows = flow (txt "a") (line (txt "ls") ∷ []) ∷ [];
  groups = group ∷ [];
  servers = server ∷ [];
  favorites = [];
  files =
      (record { id = txt "x"; name = txt "x.txt"; has_content = true })
      ∷ (record { id = txt "y"; name = []; has_content = true })
      ∷ [];
  active_flow_id = txt "a";
  running = [];
  running_groups = [];
}

small-IsWorkspace : IsWorkspace small
small-IsWorkspace = record { some_flow = refl; unique = at_most_one; active = refl }
  where
    at_most_one : (id : Text) → count_all id small ≤ 1
    at_most_one id = elim (Bool-cases (txt "a" == id)) [
      | inl e ↦
          let same : txt "a" ≡ id = ground (arith, e, text_beq_iff (txt "a") id) in
          subst (λ k. count_all k small ≤ 1) same (omega arith)
      | inr e ↦ ground (arith, e)
    ]

abbrev named : Text → Text
named name = name ++ txt " copy"

abbrev copies : Workspace
copies = act Action.delete_active (
    act (Action.copy_into (txt "d") (txt "c") (txt "g") (txt "b"))
      (act (Action.duplicate (txt "b") (txt "c") named) small))

duplicated_lacks : count_all (txt "d") (act (Action.duplicate (txt "b") (txt "c") named) small) ≡ 0
unfolding act
duplicated_lacks = refl

Leads-IsWorkspace_example : IsWorkspace copies
Leads-IsWorkspace_example =
    Leads-IsWorkspace
      (Leads.next Action.delete_active
        (Leads.next (Action.copy_into (txt "d") (txt "c") (txt "g") (txt "b"))
          (Leads.next (Action.duplicate (txt "b") (txt "c") named) Leads.stay refl)
          duplicated_lacks)
        tt)
      small-IsWorkspace

-- The copies are in the group, the flow that was deleted is not.
copies_ids :
    map (λ (flow : Flow). flow.id) (all_command_flows copies) ≡ txt "a" ∷ txt "d" ∷ txt "b" ∷ []
unfolding act all_command_flows
copies_ids = refl

abbrev numbered : ℕ → Text
numbered i = txt "new" ++ (i ∷ [])

abbrev saved_small : Workspace
saved_small = save_command_favorite (txt "fav") (txt " mine ") 7 small

mine_named : is_empty (trim (txt " mine ")) ≡ false
unfolding trim
mine_named = refl

restore-save_example :
    (map content (restore_command_favorite numbered (txt "fav") saved_small).flows
      ≡ map content small.flows)
    × AllIdle (restore_command_favorite numbered (txt "fav") saved_small).flows
restore-save_example =
    restore-save numbered (txt "fav") (txt " mine ") 7 small saved_small refl mine_named refl

abbrev defaults : List Flow
defaults = command_defaults (txt "d") (txt "flow") (txt "pwd")

-- A flow of the time when flows had a host, one without lines, and one that is none.
abbrev old_flow : StoredFlow
old_flow = record {
  id = txt "o";
  name = [];
  server_id = [];
  lines = some [];
  run_cwd = none;
  own_host = record no_host { host = txt "h" };
}

abbrev old_data : CommandData
old_data = record empty_data {
  flows = some old_flow ∷ none ∷ some (record old_flow { lines = none }) ∷ [];
}

old_server :
    map
      (λ (server : Server). server.host)
      (apply_command_data defaults numbered old_data small).servers
    ≡ txt "h" ∷ []
unfolding apply_command_data
old_server = refl

-- The server of an old flow comes back after it was removed, since the flow keeps its host.
removed_server :
    (remove_server (numbered 0) (apply_command_data defaults numbered old_data small)).servers ≡ []
unfolding apply_command_data remove_server
removed_server = refl

comes_back :
    map
      (λ (server : Server). server.host)
      (apply_command_data defaults numbered
        (browser_snapshot
          (remove_server (numbered 0) (apply_command_data defaults numbered old_data small)))
        small).servers
    ≡ txt "h" ∷ []
unfolding apply_command_data remove_server browser_snapshot
comes_back = refl

small-IsStorable : IsStorable small
small-IsStorable = record {
  main = refl;
  lines = (refl, tt);
  group_lines = ((refl, tt), tt);
  server_ids = (refl, tt);
  served = (refl, tt);
  few_favorites = omega arith;
}

apply-command_file_snapshot_example :
    IsReload without_run small
      (apply_command_data defaults numbered (command_file_snapshot small) saved_small)
apply-command_file_snapshot_example =
    apply-command_file_snapshot defaults numbered small saved_small small-IsStorable

apply-browser_snapshot_example :
    IsReload idle_flow small
      (apply_command_data defaults numbered (browser_snapshot small) saved_small)
apply-browser_snapshot_example =
    apply-browser_snapshot defaults numbered small saved_small small-IsStorable

abbrev first_load : Workspace
first_load =
    (load_command_data defaults numbered (Payload.in_file none) true old_data small).workspace

-- A server that refuses `rm`.
abbrev surroundings : Surroundings
surroundings = record {
  has_server = λ id. true;
  answer = λ id line cwd.
      if line.text == txt "rm" then Answer.failed (txt "no") [] else Answer.ran (txt "/");
  pause_requested = λ id i. false;
}

abbrev three : List Flow
three =
    flow (txt "a") (line (txt "ls") ∷ [])
    ∷ flow (txt "b") (line (txt "rm") ∷ [])
    ∷ flow (txt "c") (line (txt "ls") ∷ [])
    ∷ []

three_reached : reached surroundings three ≡ 2
unfolding run_one
three_reached = refl

run_command_flow_sequence_stops_example :
    let r = run_command_flow_sequence surroundings false [] three (txt "a") in
    (r.flows
      ≡ map
          (λ (flow : Flow). (run_one surroundings flow).0)
          (take (reached surroundings three) three)
        ++ drop (reached surroundings three) three)
    × (r.ok ≡ allb (ends_well surroundings) three)
run_command_flow_sequence_stops_example =
    run_command_flow_sequence_stops surroundings [] three (txt "a") refl

group_refs : shown_count (txt "x") (command_group_file_refs small.files [] group) ≡ 2
unfolding command_group_file_refs
group_refs = refl
