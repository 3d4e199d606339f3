-- ===== src/Workspace/Groups.antt =====
-- app.js: the groups of flows: `createCommandGroup`, `copyFlowIntoGroup`, `pasteCommandFlow`, and what
-- `bindCommandGroups` does on a click and on a drop.
use log_agent.Prelude.{
  ℕ, zero, suc, Bool, false, not, ◌&&◌, ◌||◌, List, [], ◌∷◌, ◌++◌, Option, none, some, Text,
  text_eq, nat_eq, ◌==◌, if◌then◌else◌, is_empty, find_first, find_index, filterb, anyb, length,
}
use log_agent.Prelude.Members.{contains}
use log_agent.Commands.{no_host, Flow}
use log_agent.Reorder.{insert_idx}
use log_agent.Workspace.{
  Workspace, Group, Place, all_command_flows, find_command_flow, has_flow, flow_index, edit_group,
  with_flows, edit_place, clone_command_flow, insert_behind, is_running, remove_idx, update_flow,
  is_server, id_found, new_line, bind_server_to_flow,
}

abbrev pub group_index : Text → List Group → Option ℕ
group_index id groups = find_index (λ (g : Group). g.id == id) groups

-- `commandGroup`
unfoldable pub command_group : Text → Workspace → Option Group
command_group id w = find_first (λ (g : Group). g.id == id) w.groups

-- `createCommandGroup`
unfoldable pub create_command_group : Text → Text → List Flow → Workspace → Workspace
create_command_group new_id name flows w = record w {
  groups = w.groups ++ (record { id = new_id; name = name; collapsed = false; flows = flows }) ∷ [];
}

abbrev pub before_at : Option ℕ → List Flow → ℕ
before_at none flows = length flows
before_at (some at) flows = at

-- Before the flow with an id, or at the end.
unfoldable pub insert_before : Text → Flow → List Flow → List Flow
unfolding insert_idx
insert_before id copy flows = insert_idx flows (before_at (flow_index id flows) flows) copy

abbrev pub open_with : (List Flow → List Flow) → Group → Group
open_with f g = record g { flows = f g.flows; collapsed = false }

unfoldable pub put_into_group : Option Flow → Option ℕ → Text → Text → Workspace → Workspace
unfolding clone_command_flow insert_before
put_into_group none at new_id before w = w
put_into_group (some source) none new_id before w = w
put_into_group (some source) (some k) new_id before w =
    let copy = clone_command_flow new_id source source.name in
    record w { groups = edit_group k (open_with (insert_before before copy)) w.groups }

-- `copyFlowIntoGroup`
unfoldable pub copy_flow_into_group : Text → Text → Text → Text → Workspace → Workspace
unfolding put_into_group find_command_flow
copy_flow_into_group new_id flow_id group_id before w =
    put_into_group (find_command_flow flow_id w) (group_index group_id w.groups) new_id before w

-- A flow on the clipboard, as `pasteCommandFlow` takes it.
abbrev pub pasted_flow : Flow → Workspace → Flow
pasted_flow source w = record source {
  own_host = no_host;
  server_id = if is_server source.server_id w then source.server_id else [];
  lines = if is_empty source.lines then new_line ∷ [] else source.lines;
}

abbrev pub paste_place : Option ℕ → Place
paste_place none = Place.main
paste_place (some k) = Place.in_group k

abbrev pub open_place : Place → Workspace → Workspace
open_place Place.main w = w
open_place (Place.in_group k) w = record w {
  groups = edit_group k (λ (g : Group). record g { collapsed = false }) w.groups;
}

unfoldable pub paste_at : Place → Flow → Workspace → Workspace
unfolding insert_behind
paste_at place copy w =
    record (open_place place (edit_place place (insert_behind w.active_flow_id copy) w)) {
      active_flow_id = copy.id;
    }

-- `pasteCommandFlow`; `group_id` is `commandPasteGroupId`.
unfoldable pub paste_command_flow : Text → (Text → Text) → Text → Flow → Workspace → Workspace
unfolding clone_command_flow paste_at
paste_command_flow new_id copy_name group_id source w =
    paste_at (paste_place (group_index group_id w.groups))
      (clone_command_flow new_id (pasted_flow source w) (copy_name source.name)) w

-- `if (!findCommandFlow(active)) active = commandFlows[0].id`
unfoldable pub fix_active : Workspace → Workspace
unfolding all_command_flows
fix_active w =
    if has_flow w.active_flow_id (all_command_flows w)
    then w
    else record w { active_flow_id = id_found none w.flows w.active_flow_id }

abbrev pub is_running_group : Text → Workspace → Bool
is_running_group id w = contains id w.running_groups

abbrev pub not_id : Text → Flow → Bool
not_id id flow = not (flow.id == id)

unfoldable pub remove_from : Text → Text → Option ℕ → Workspace → Workspace
unfolding fix_active
remove_from group_id flow_id none w = w
remove_from group_id flow_id (some k) w =
    if is_running_group group_id w || is_running flow_id w
    then w
    else fix_active
        (record w { groups = edit_group k (with_flows (filterb (not_id flow_id))) w.groups })

-- The button `data-remove-member`
unfoldable pub remove_member : Text → Text → Workspace → Workspace
unfolding remove_from
remove_member group_id flow_id w = remove_from group_id flow_id (group_index group_id w.groups) w

abbrev pub any_running : List Flow → Workspace → Bool
any_running flows w = anyb (λ (flow : Flow). is_running flow.id w) flows

abbrev pub not_group : Text → Group → Bool
not_group id item = not (item.id == id)

unfoldable pub delete_found : Text → Bool → Option Group → Workspace → Workspace
unfolding fix_active
delete_found group_id confirmed none w = w
delete_found group_id confirmed (some g) w =
    if (not (is_empty g.flows) && not confirmed)
      || (is_running_group group_id w || any_running g.flows w)
    then w
    else fix_active (record w { groups = filterb (not_group group_id) w.groups })

-- The button `data-delete-group`; `confirmed` is what the user answers.
unfoldable pub delete_group : Text → Bool → Workspace → Workspace
unfolding delete_found command_group
delete_group group_id confirmed w = delete_found group_id confirmed (command_group group_id w) w

-- `group.flows.splice(from, 1)` and `splice(over < 0 ? length : over, 0, moved)`
unfoldable pub move_member : Option ℕ → List Flow → ℕ → Flow → List Flow
unfolding insert_idx
move_member over flows from moved =
    let rest = remove_idx flows from in insert_idx rest (before_at over rest) moved

abbrev pub flow_at : List Flow → ℕ → Option Flow
flow_at [] i = none
flow_at (flow ∷ flows) zero = some flow
flow_at (flow ∷ flows) (suc i) = flow_at flows i

unfoldable pub move_found : Option ℕ → ℕ → Option Flow → List Flow → List Flow
unfolding move_member
move_found over from none flows = flows
move_found over from (some moved) flows = move_member over flows from moved

unfoldable pub reorder_from : Option ℕ → Option ℕ → List Flow → List Flow
unfolding move_found
reorder_from over none flows = flows
reorder_from over (some from) flows = move_found over from (flow_at flows from) flows

abbrev pub target_index : Option Text → List Flow → Option ℕ
target_index none flows = none
target_index (some id) flows = flow_index id flows

-- The drop of a member in its own group, on the member `target` or on none.
unfoldable pub reorder_flows : Text → Option Text → List Flow → List Flow
unfolding reorder_from
reorder_flows flow_id target flows =
    reorder_from (target_index target flows) (flow_index flow_id flows) flows

abbrev pub is_target : Text → Option Text → Bool
is_target id none = false
is_target id (some target) = target == id

unfoldable pub reorder_in : Text → Option Text → Option ℕ → Workspace → Workspace
unfolding reorder_flows
reorder_in flow_id target none w = w
reorder_in flow_id target (some k) w =
    if is_target flow_id target
    then w
    else record w { groups = edit_group k (with_flows (reorder_flows flow_id target)) w.groups }

unfoldable pub reorder_member : Text → Text → Option Text → Workspace → Workspace
unfolding reorder_in
reorder_member group_id flow_id target w =
    reorder_in flow_id target (group_index group_id w.groups) w

-- The choice `data-member-server`
unfoldable pub choose_member_server : Text → Text → Workspace → Workspace
unfolding bind_server_to_flow all_command_flows
choose_member_server flow_id server_id w =
    if not (is_empty server_id)
    then bind_server_to_flow flow_id server_id w
    else if has_flow flow_id (all_command_flows w)
    then update_flow flow_id (λ (flow : Flow). record flow { server_id = [] }) w
    else w
