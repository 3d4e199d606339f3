-- ===== src/Workspace/Steps.antt =====
-- The operations on the workspace as steps of the page, one after another.
use log_agent.Prelude.{Bool, true, [], Option, Text, text_eq, nat_eq, ◌≡◌, arith}
use log_agent.Commands.{Flow}
use log_agent.Workspace.{
  Workspace, all_command_flows, has_flow, duplicate_command_flow, add_flow, delete_active_flow,
  bind_server_to_flow,
}
use log_agent.Workspace.Groups.{
  reorder_member, remove_member, delete_group, create_command_group, copy_flow_into_group,
  paste_command_flow, choose_member_server,
}
use log_agent.Workspace.Count.{count_all, count_id-all_command_flows, has_flow-count_id}
use log_agent.Workspace.Invariant.{IsWorkspace}
use log_agent.Workspace.Insertion.{
  duplicate-IsWorkspace, copy_into-IsWorkspace, paste-IsWorkspace, add-IsWorkspace,
  create_group-IsWorkspace,
}
use log_agent.Workspace.Deletion.{
  delete_active-IsWorkspace, remove_member-IsWorkspace, delete_group-IsWorkspace,
  reorder-IsWorkspace, bind-IsWorkspace, choose-IsWorkspace,
}

-- `select` is a click on a flow that is shown.
pub data Action : Type 0 where
  duplicate : Text → Text → (Text → Text) → Action
  copy_into : Text → Text → Text → Text → Action
  paste : Text → (Text → Text) → Text → Flow → Action
  add : Text → Text → Action
  create_group : Text → Text → Action
  delete_active : Action
  delete_one_group : Text → Bool → Action
  remove_one : Text → Text → Action
  reorder : Text → Text → Option Text → Action
  bind : Text → Text → Action
  choose : Text → Text → Action
  select : Text → Action

unfoldable pub act : Action → Workspace → Workspace
unfolding duplicate_command_flow copy_flow_into_group paste_command_flow add_flow
    create_command_group delete_active_flow delete_group remove_member reorder_member
    bind_server_to_flow choose_member_server
act (duplicate flow_id new_id name) w = duplicate_command_flow flow_id new_id name w
act (copy_into new_id flow_id group_id before) w =
    copy_flow_into_group new_id flow_id group_id before w
act (paste new_id name group_id source) w = paste_command_flow new_id name group_id source w
act (add new_id name) w = add_flow new_id name w
act (create_group new_id name) w = create_command_group new_id name [] w
act delete_active w = delete_active_flow w
act (delete_one_group group_id confirmed) w = delete_group group_id confirmed w
act (remove_one group_id flow_id) w = remove_member group_id flow_id w
act (reorder group_id flow_id target) w = reorder_member group_id flow_id target w
act (bind flow_id server_id) w = bind_server_to_flow flow_id server_id w
act (choose flow_id server_id) w = choose_member_server flow_id server_id w
act (select flow_id) w = record w { active_flow_id = flow_id }

-- A new id is new, and a flow that is clicked is there.
abbrev pub IsOffered : Action → Workspace → Type 0
IsOffered (duplicate flow_id new_id name) w = count_all new_id w ≡ 0
IsOffered (copy_into new_id flow_id group_id before) w = count_all new_id w ≡ 0
IsOffered (paste new_id name group_id source) w = count_all new_id w ≡ 0
IsOffered (add new_id name) w = count_all new_id w ≡ 0
IsOffered (create_group new_id name) w = Unit
IsOffered delete_active w = Unit
IsOffered (delete_one_group group_id confirmed) w = Unit
IsOffered (remove_one group_id flow_id) w = Unit
IsOffered (reorder group_id flow_id target) w = Unit
IsOffered (bind flow_id server_id) w = Unit
IsOffered (choose flow_id server_id) w = Unit
IsOffered (select flow_id) w = has_flow flow_id (all_command_flows w) ≡ true

-- The workspaces that the actions lead to.
pub data Leads (w : Workspace) : Workspace → Type 0 where
  stay : Leads w w
  next : {v : Workspace} (a : Action) → Leads w v → IsOffered a v → Leads w (act a v)

pub act-IsWorkspace :
    (a : Action) (w : Workspace) → IsOffered a w → IsWorkspace w → IsWorkspace (act a w)
unfolding act
act-IsWorkspace (duplicate flow_id new_id name) w o h =
    duplicate-IsWorkspace flow_id new_id name w h o
act-IsWorkspace (copy_into new_id flow_id group_id before) w o h =
    copy_into-IsWorkspace new_id flow_id group_id before w h o
act-IsWorkspace (paste new_id name group_id source) w o h =
    paste-IsWorkspace new_id name group_id source w h o
act-IsWorkspace (add new_id name) w o h = add-IsWorkspace new_id name w h o
act-IsWorkspace (create_group new_id name) w o h = create_group-IsWorkspace new_id name w h
act-IsWorkspace delete_active w o h = delete_active-IsWorkspace w h
act-IsWorkspace (delete_one_group group_id confirmed) w o h =
    delete_group-IsWorkspace group_id confirmed w h
act-IsWorkspace (remove_one group_id flow_id) w o h = remove_member-IsWorkspace group_id flow_id w h
act-IsWorkspace (reorder group_id flow_id target) w o h =
    reorder-IsWorkspace group_id flow_id target w h
act-IsWorkspace (bind flow_id server_id) w o h = bind-IsWorkspace flow_id server_id w h
act-IsWorkspace (choose flow_id server_id) w o h = choose-IsWorkspace flow_id server_id w h
act-IsWorkspace (select flow_id) w o h = record {
  some_flow = h.some_flow;
  unique = h.unique;
  active = omega (
    arith,
    has_flow-count_id flow_id (all_command_flows w) o,
    count_id-all_command_flows flow_id w,
    h.unique flow_id,
  );
}

-- From a workspace whose main list has a flow, in which no id is there twice and the active flow
-- is there, every sequence of the page's actions (copying, pasting, adding, deleting and moving
-- flows, making and deleting groups, binding servers) whose new ids are new leads to such a
-- workspace, whatever runs.
pub Leads-IsWorkspace : {w v : Workspace} → Leads w v → IsWorkspace w → IsWorkspace v
Leads-IsWorkspace stay h = h
Leads-IsWorkspace (next {v} a l o) h = act-IsWorkspace a v o (Leads-IsWorkspace l h)
