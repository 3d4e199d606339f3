-- ===== src/Workspace.antt =====
-- app.js: the command workspace: the flows, the groups with their copies of flows, the library of
-- servers and the favourites, and the operations on flows. A new id and what a copy is called are
-- arguments; drawing and saving are left out.
pub mod Groups
pub mod Removal
pub mod Favorites
pub mod Servers
pub mod Storable
pub mod Stored
pub mod Snapshots
pub mod RoundTrip
pub mod Loading
pub mod FileRefs
pub mod Sequence
pub mod Batches
pub mod References
pub mod GroupRuns
pub mod Count
pub mod Invariant
pub mod Insertion
pub mod Deletion
pub mod Steps
mod Tests
use log_agent.Prelude.{
  ℕ, zero, suc, ◌+◌, ◌-◌, leb, Bool, true, false, not, ◌&&◌, List, [], ◌∷◌, ◌++◌, map, Option, none,
  some, Text, text_eq, nat_eq, ◌==◌, if◌then◌else◌, is_empty, find_first, find_index, filterb, anyb,
  get_elem?, length, ◌||◌,
}
use log_agent.Prelude.Members.{contains}
use log_agent.Commands.{no_host, Line, Flow, Status, has_status}
use log_agent.Reorder.{insert_idx}

pub record Server : Type 0 where
  pub id : Text
  pub name : Text
  pub host : Text
  pub port : Text
  pub user : Text
  pub auth : Text
  pub secret : Text

pub record Group : Type 0 where
  pub id : Text
  pub name : Text
  pub collapsed : Bool
  pub flows : List Flow

pub record Favorite : Type 0 where
  pub id : Text
  pub name : Text
  pub created_at : ℕ
  pub flows : List Flow

-- A file of the shelf: `commandFiles`.
pub record ShelfFile : Type 0 where
  pub id : Text
  pub name : Text
  pub has_content : Bool

-- `running` has the ids of the flows that run, `commandRuns`, `running_groups` those of the groups.
pub record Workspace : Type 0 where
  pub flows : List Flow
  pub groups : List Group
  pub servers : List Server
  pub favorites : List Favorite
  pub files : List ShelfFile
  pub active_flow_id : Text
  pub running : List Text
  pub running_groups : List Text

unfoldable pub group_flows : List Group → List Flow
group_flows [] = []
group_flows (g ∷ groups) = g.flows ++ group_flows groups

-- `allCommandFlows`
unfoldable pub all_command_flows : Workspace → List Flow
unfolding group_flows
all_command_flows w = w.flows ++ group_flows w.groups

abbrev pub has_flow : Text → List Flow → Bool
has_flow id flows = anyb (λ (flow : Flow). flow.id == id) flows

abbrev pub flow_index : Text → List Flow → Option ℕ
flow_index id flows = find_index (λ (flow : Flow). flow.id == id) flows

-- `findCommandFlow`
unfoldable pub find_command_flow : Text → Workspace → Option Flow
unfolding all_command_flows
find_command_flow id w = find_first (λ (flow : Flow). flow.id == id) (all_command_flows w)

-- A list of flows that is changed in place: the main list, or that of the group at an index.
pub data Place : Type 0 where
  main : Place
  in_group : ℕ → Place

abbrev pub container_in : Bool → Option ℕ → Option Place
container_in true group = some main
container_in false none = none
container_in false (some k) = some (in_group k)

-- `commandFlowContainer`
unfoldable pub command_flow_container : Text → Workspace → Option Place
command_flow_container id w =
    container_in (has_flow id w.flows) (find_index (λ (g : Group). has_flow id g.flows) w.groups)

abbrev pub edit_group : ℕ → (Group → Group) → List Group → List Group
edit_group k f [] = []
edit_group zero f (g ∷ groups) = f g ∷ groups
edit_group (suc k) f (g ∷ groups) = g ∷ edit_group k f groups

abbrev pub with_flows : (List Flow → List Flow) → Group → Group
with_flows f g = record g { flows = f g.flows }

abbrev pub edit_place : Place → (List Flow → List Flow) → Workspace → Workspace
edit_place main f w = record w { flows = f w.flows }
edit_place (in_group k) f w = record w { groups = edit_group k (with_flows f) w.groups }

abbrev pub flows_at : Place → Workspace → List Flow
flows_at main w = w.flows
flows_at (in_group k) w = elim (get_elem? w.groups k) [ none ↦ [] | some g ↦ g.flows ]

-- What a clone does to a line.
abbrev pub reset_line : Line → Line
reset_line line = record line {
  status = Status.idle;
  upload_progress = 0;
  error_text = none;
  error_code = none;
}

-- `cloneCommandFlow`
unfoldable pub clone_command_flow : Text → Flow → Text → Flow
clone_command_flow new_id source name = record source {
  id = new_id;
  name = name;
  run_cwd = none;
  lines = map reset_line source.lines;
}

abbrev pub behind : Option ℕ → List Flow → ℕ
behind none flows = length flows
behind (some at) flows = at + 1

-- Behind the flow with an id, or at the end.
unfoldable pub insert_behind : Text → Flow → List Flow → List Flow
unfolding insert_idx
insert_behind id copy flows = insert_idx flows (behind (flow_index id flows) flows) copy

unfoldable pub put_copy :
    Option Flow → Option Place → Text → Text → (Text → Text) → Workspace → Workspace
unfolding clone_command_flow insert_behind
put_copy none place flow_id new_id copy_name w = w
put_copy (some source) none flow_id new_id copy_name w = w
put_copy (some source) (some place) flow_id new_id copy_name w =
    let copy = clone_command_flow new_id source (copy_name source.name) in
    record (edit_place place (insert_behind flow_id copy) w) { active_flow_id = new_id }

-- `duplicateCommandFlow`
unfoldable pub duplicate_command_flow : Text → Text → (Text → Text) → Workspace → Workspace
unfolding find_command_flow command_flow_container put_copy
duplicate_command_flow flow_id new_id copy_name w =
    put_copy (find_command_flow flow_id w) (command_flow_container flow_id w) flow_id new_id
      copy_name w

abbrev pub new_line : Line
new_line = record {
  upload = false;
  text = [];
  file_id = [];
  file_name = [];
  destination = [];
  status = Status.idle;
  error_text = none;
  error_code = none;
  upload_progress = 0;
}

-- The button `#commands-add-flow`
unfoldable pub add_flow : Text → Text → Workspace → Workspace
add_flow new_id name w = record w {
  flows =
      w.flows
      ++ (record {
        id = new_id;
        name = name;
        server_id = [];
        own_host = no_host;
        lines = new_line ∷ [];
        run_cwd = none;
      })
        ∷ [];
  active_flow_id = new_id;
}

abbrev pub is_running : Text → Workspace → Bool
is_running id w = contains id w.running

abbrev pub remove_idx : List Flow → ℕ → List Flow
remove_idx [] i = []
remove_idx (flow ∷ flows) zero = flows
remove_idx (flow ∷ flows) (suc i) = flow ∷ remove_idx flows i

-- `(found || state.commandFlows[0]).id`; no flow at all is an error
abbrev pub id_found : Option Flow → List Flow → Text → Text
id_found (some flow) flows old = flow.id
id_found none [] old = old
id_found none (first ∷ rest) old = first.id

abbrev pub id_at : ℕ → List Flow → List Flow → Text → Text
id_at index container flows old = id_found (get_elem? container index) flows old

abbrev pub is_main : Place → Bool
is_main main = true
is_main (in_group k) = false

-- The button `#commands-delete`, with the place of the active flow and its index there.
unfoldable pub delete_at : Place → Option ℕ → Workspace → Workspace
delete_at place none w = w
delete_at place (some index) w =
    let v = edit_place place (λ flows. remove_idx flows index) w in
    record v { active_flow_id = id_at (index - 1) (flows_at place v) v.flows v.active_flow_id }

unfoldable pub delete_in : Option Place → Workspace → Workspace
unfolding delete_at
delete_in none w = w
delete_in (some place) w =
    if is_running w.active_flow_id w || (is_main place && leb (length w.flows) 1)
    then w
    else delete_at place (flow_index w.active_flow_id (flows_at place w)) w

-- The button `#commands-delete`
unfoldable pub delete_active_flow : Workspace → Workspace
unfolding command_flow_container delete_in
delete_active_flow w = delete_in (command_flow_container w.active_flow_id w) w

-- The first flow with an id, in the order of `allCommandFlows`, changed in place.
abbrev pub update_in : Text → (Flow → Flow) → List Flow → List Flow
update_in id f [] = []
update_in id f (flow ∷ flows) =
    if flow.id == id then f flow ∷ flows else flow ∷ update_in id f flows

abbrev pub update_in_groups : Text → (Flow → Flow) → List Group → List Group
update_in_groups id f [] = []
update_in_groups id f (g ∷ groups) =
    if has_flow id g.flows
    then record g { flows = update_in id f g.flows } ∷ groups
    else g ∷ update_in_groups id f groups

abbrev pub update_flow : Text → (Flow → Flow) → Workspace → Workspace
update_flow id f w =
    if has_flow id w.flows
    then record w { flows = update_in id f w.flows }
    else record w { groups = update_in_groups id f w.groups }

abbrev pub is_server : Text → Workspace → Bool
is_server id w = anyb (λ (server : Server). server.id == id) w.servers

abbrev pub bound : Text → Flow → Flow
bound server_id flow = record flow {
  server_id = server_id;
  lines = map (λ (line : Line). record line { status = Status.idle }) flow.lines;
}

-- `bindServerToFlow`
unfoldable pub bind_server_to_flow : Text → Text → Workspace → Workspace
unfolding all_command_flows
bind_server_to_flow flow_id server_id w =
    if not (has_flow flow_id (all_command_flows w))
      || (not (is_server server_id w) || is_running flow_id w)
    then w
    else update_flow flow_id (bound server_id) w
