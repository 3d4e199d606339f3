-- ===== src/Workspace/Servers.antt =====
-- app.js: the library of servers, as far as it changes flows: the button that removes a server.
use log_agent.Prelude.{not, [], map, Text, text_eq, ◌==◌, if◌then◌else◌, filterb}
use log_agent.Commands.{Flow}
use log_agent.Workspace.{Workspace, Server, with_flows}

abbrev pub unbound : Text → Flow → Flow
unbound id flow = if flow.server_id == id then record flow { server_id = [] } else flow

-- The button that removes a server: the flows that used it have no server then.
unfoldable pub remove_server : Text → Workspace → Workspace
remove_server id w = record w {
  servers = filterb (λ (server : Server). not (server.id == id)) w.servers;
  flows = map (unbound id) w.flows;
  groups = map (with_flows (map (unbound id))) w.groups;
}
