-- ===== src/Workspace/Snapshots.antt =====
-- app.js: what is written of the workspace, `commandFileSnapshot` and `saveCommandFlows`, and
-- `loadCommandData`.
use log_agent.Prelude.{
  ℕ, Bool, List, [], map, Option, none, some, Text, text_eq, nat_eq, if◌then◌else◌,
}
use log_agent.Commands.{Flow, Line}
use log_agent.Workspace.{Workspace, Favorite, Group, reset_line}
use log_agent.Workspace.Stored.{
  StoredFlow, StoredGroup, StoredFavorite, CommandData, apply_command_data,
}

abbrev pub stored_flow : Flow → StoredFlow
stored_flow flow = record {
  id = flow.id;
  name = flow.name;
  server_id = flow.server_id;
  lines = some flow.lines;
  run_cwd = flow.run_cwd;
  own_host = flow.own_host;
}

abbrev pub stored_favorite : Favorite → StoredFavorite
stored_favorite item = record {
  id = item.id;
  name = item.name;
  created_at = item.created_at;
  flows = some item.flows;
}

abbrev pub stored_group : (Flow → Flow) → Group → StoredGroup
stored_group clean g = record {
  id = g.id;
  name = g.name;
  collapsed = g.collapsed;
  flows = some (map (λ (flow : Flow). some (stored_flow (clean flow))) g.flows);
}

abbrev pub snapshot_with : (Flow → Flow) → Workspace → CommandData
snapshot_with clean w = record {
  flows = map (λ (flow : Flow). some (stored_flow (clean flow))) w.flows;
  groups = map (λ (g : Group). some (stored_group clean g)) w.groups;
  servers = map some w.servers;
  favorites = map (λ (item : Favorite). some (stored_favorite item)) w.favorites;
}

-- A line without the fields of a run; one that is absent reads as that of a line that is idle.
abbrev pub clean_line : Line → Line
clean_line = reset_line

abbrev pub clean_flow : Flow → Flow
clean_flow flow = record flow { lines = map clean_line flow.lines; run_cwd = none }

-- `commandFileSnapshot`
unfoldable pub command_file_snapshot : Workspace → CommandData
command_file_snapshot w = snapshot_with clean_flow w

-- What `saveCommandFlows` writes in the browser, as `readBrowserCommandData` reads it.
unfoldable pub browser_snapshot : Workspace → CommandData
browser_snapshot w = snapshot_with (λ flow. flow) w

-- `state.commandStorage`, once it is known.
pub data Storage : Type 0 where
  browser file : Storage

-- The answer of `/api/commands/state`: none at all, the browser as the place, or the file, with
-- its data if it is there.
pub data Payload : Type 0 where
  no_server in_browser : Payload
  in_file : Option CommandData → Payload

abbrev pub empty_data : CommandData
empty_data = record { flows = []; groups = []; servers = []; favorites = [] }

pub record Loaded : Type 0 where
  pub workspace : Workspace
  pub storage : Storage
  pub browser_data : CommandData

-- `loadCommandData`; `saved` is what `saveCommandFile` returns for the workspace that was loaded.
unfoldable pub load_command_data :
    List Flow → (ℕ → Text) → Payload → Bool → CommandData → Workspace → Loaded
unfolding apply_command_data
load_command_data defaults server_ids no_server saved browser_data w = record {
  workspace = apply_command_data defaults server_ids browser_data w;
  storage = browser;
  browser_data = browser_data;
}
load_command_data defaults server_ids in_browser saved browser_data w = record {
  workspace = apply_command_data defaults server_ids browser_data w;
  storage = browser;
  browser_data = browser_data;
}
load_command_data defaults server_ids (in_file (some commands)) saved browser_data w = record {
  workspace = apply_command_data defaults server_ids commands w;
  storage = file;
  browser_data = browser_data;
}
load_command_data defaults server_ids (in_file none) saved browser_data w = record {
  workspace = apply_command_data defaults server_ids browser_data w;
  storage = file;
  browser_data = if saved then empty_data else browser_data;
}
