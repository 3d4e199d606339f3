-- ===== src/Workspace/Stored.antt =====
-- app.js: how the workspace is stored and loaded: `commandDefaults`, `commandFileSnapshot`,
-- `saveCommandFlows`, `applyCommandData` and `loadCommandData`. Stored data may lack what a
-- workspace has; `none` stands for a value that is missing or of another type.
use log_agent.Prelude.{
  ℕ, suc, Bool, not, ◌&&◌, List, [], ◌∷◌, ◌++◌, map, Option, none, some, Text, txt, text_eq, nat_eq,
  if◌then◌else◌, take, is_empty,
}
use log_agent.Commands.{no_host, Host, Flow, Line, Status}
use log_agent.Workspace.{Workspace, Server, Favorite, Group, new_line}
use log_agent.Workspace.Groups.{fix_active}
use log_agent.Workspace.Favorites.{max_favorites}

-- Old flows have a host of their own in place of a server.
pub record StoredFlow : Type 0 where
  pub id : Text
  pub name : Text
  pub server_id : Text
  pub lines : Option (List Line)
  pub run_cwd : Option Text
  pub own_host : Host

pub record StoredGroup : Type 0 where
  pub id : Text
  pub name : Text
  pub collapsed : Bool
  pub flows : Option (List (Option StoredFlow))

pub record StoredFavorite : Type 0 where
  pub id : Text
  pub name : Text
  pub created_at : ℕ
  pub flows : Option (List Flow)

pub record CommandData : Type 0 where
  pub flows : List (Option StoredFlow)
  pub groups : List (Option StoredGroup)
  pub servers : List (Option Server)
  pub favorites : List (Option StoredFavorite)

abbrev pub default_line : Text → Line
default_line text = record new_line { text = text }

-- `commandDefaults`; the name and the first line are translated texts.
unfoldable pub command_defaults : Text → Text → Text → List Flow
command_defaults id name line =
    (record {
      id = id;
      name = name;
      server_id = [];
      own_host = no_host;
      lines =
          default_line line
          ∷ default_line (txt "docker ps --format \"table {{.Names}}\\t{{.Status}}\"")
          ∷ default_line (txt "df -h")
          ∷ [];
      run_cwd = none;
    })
    ∷ []

abbrev pub idle_line : Line → Line
idle_line line = record line { status = Status.idle }

abbrev pub or_blank_line : List Line → List Line
or_blank_line [] = new_line ∷ []
or_blank_line (line ∷ lines) = line ∷ lines

-- `idle` of the lines of a flow
abbrev pub idle_lines : List Line → List Line
idle_lines lines = map idle_line (or_blank_line lines)

-- A flow with its list of lines.
abbrev pub with_lines : StoredFlow → List Line → Flow
with_lines flow lines = record {
  id = flow.id;
  name = flow.name;
  server_id = flow.server_id;
  own_host = flow.own_host;
  lines = idle_lines lines;
  run_cwd = flow.run_cwd;
}

-- `flow && Array.isArray(flow.lines)`, and `idle`
abbrev pub kept_flow : Option StoredFlow → List Flow
kept_flow none = []
kept_flow (some flow) = elim flow.lines [ none ↦ [] | some lines ↦ with_lines flow lines ∷ [] ]

abbrev pub kept_flows : List (Option StoredFlow) → List Flow
kept_flows [] = []
kept_flows (flow ∷ flows) = kept_flow flow ++ kept_flows flows

abbrev pub kept_groups : List (Option StoredGroup) → List Group
kept_groups [] = []
kept_groups (none ∷ groups) = kept_groups groups
kept_groups (some g ∷ groups) = elim g.flows [
  | none ↦ kept_groups groups
  | some flows ↦
      (record { id = g.id; name = g.name; collapsed = g.collapsed; flows = kept_flows flows })
      ∷ kept_groups groups
]

abbrev pub kept_servers : List (Option Server) → List Server
kept_servers [] = []
kept_servers (none ∷ servers) = kept_servers servers
kept_servers (some server ∷ servers) =
    if is_empty server.id then kept_servers servers else server ∷ kept_servers servers

abbrev pub kept_favorites : List (Option StoredFavorite) → List Favorite
kept_favorites [] = []
kept_favorites (none ∷ items) = kept_favorites items
kept_favorites (some item ∷ items) = elim item.flows [
  | none ↦ kept_favorites items
  | some flows ↦
      (record { id = item.id; name = item.name; created_at = item.created_at; flows = flows })
      ∷ kept_favorites items
]

abbrev pub text_or : Text → Text → Text
text_or [] other = other
text_or (c ∷ text) other = c ∷ text

abbrev pub host_server : Text → Host → Server
host_server new_id own = record {
  id = new_id;
  name = own.host;
  host = own.host;
  port = text_or own.port (txt "22");
  user = own.user;
  auth = text_or own.auth (txt "key");
  secret = own.secret;
}

-- `!flow.serverId && flow.host`
abbrev pub needs_server : Flow → Bool
needs_server flow = is_empty flow.server_id && not (is_empty flow.own_host.host)

-- The loop over the old flows with a host: the flows, and the servers that they bring. A flow keeps
-- its host.
unfoldable pub migrate : (ℕ → Text) → ℕ → List Flow → List Flow × List Server
migrate new_ids index [] = ([], [])
migrate new_ids index (flow ∷ kept) =
    let (flows, servers) = migrate new_ids (suc index) kept in
    if needs_server flow
    then (
      record flow { server_id = new_ids index } ∷ flows,
      host_server (new_ids index) flow.own_host ∷ servers,
    )
    else (flow ∷ flows, servers)

abbrev pub or_defaults : List Flow → List Flow → List Flow
or_defaults defaults [] = defaults
or_defaults defaults (flow ∷ flows) = flow ∷ flows

-- The new state, once the old flows have their servers.
unfoldable pub with_data : List Flow → CommandData → List Flow × List Server → Workspace → Workspace
with_data defaults data_ (flows, servers) w = record w {
  flows = or_defaults defaults flows;
  groups = kept_groups data_.groups;
  servers = kept_servers data_.servers ++ servers;
  favorites = take max_favorites (kept_favorites data_.favorites);
}

-- `applyCommandData`: `defaults` is what `commandDefaults` gives, `server_ids` the new servers' ids.
unfoldable pub apply_command_data : List Flow → (ℕ → Text) → CommandData → Workspace → Workspace
unfolding migrate fix_active with_data
apply_command_data defaults server_ids data_ w =
    fix_active (with_data defaults data_ (migrate server_ids 0 (kept_flows data_.flows)) w)
