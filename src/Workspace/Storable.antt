-- ===== src/Workspace/Storable.antt =====
-- That what was loaded can be stored whole, whatever the stored data.
use log_agent.Prelude.{
  ℕ, suc, false, List, [], ◌∷◌, Option, none, some, Text, text_eq, nat_eq, ◌≡◌, refl, arith, inl,
  inr, Bool-cases, Option-cases, is_empty,
}
use log_agent.Commands.{Flow, Line, Host}
use log_agent.Workspace.{Workspace, Server, Group, all_command_flows, has_flow}
use log_agent.Workspace.Groups.{fix_active}
use log_agent.Prelude.{All, All-append, length-take}
use log_agent.Workspace.Favorites.{max_favorites}
use log_agent.Workspace.RoundTrip.{HasServer, HasLine, HasId, IsStorable}
use log_agent.Workspace.Stored.{
  StoredFlow, StoredGroup, CommandData, idle_lines, with_data, kept_flow, kept_flows, kept_groups,
  kept_servers, kept_favorites, needs_server, migrate, or_defaults, apply_command_data,
}

idle_lines-full : (lines : List Line) → is_empty (idle_lines lines) ≡ false
idle_lines-full [] = refl
idle_lines-full (line ∷ lines) = refl

kept_flow-HasLine :
    (id name server_id : Text) (lines : Option (List Line)) (run_cwd : Option Text)
    (own_host : Host)
    → All HasLine (
        kept_flow (
          some (record {
            id = id;
            name = name;
            server_id = server_id;
            lines = lines;
            run_cwd = run_cwd;
            own_host = own_host;
          })))
kept_flow-HasLine id name server_id none run_cwd own_host = tt
kept_flow-HasLine id name server_id (some lines) run_cwd own_host = (idle_lines-full lines, tt)

kept_flows-HasLine : (flows : List (Option StoredFlow)) → All HasLine (kept_flows flows)
kept_flows-HasLine [] = tt
kept_flows-HasLine (none ∷ flows) = kept_flows-HasLine flows
kept_flows-HasLine (some f ∷ flows) =
    All-append HasLine (kept_flow (some f)) (kept_flows flows)
      (kept_flow-HasLine f.id f.name f.server_id f.lines f.run_cwd f.own_host)
      (kept_flows-HasLine flows)

module _ (new_ids : ℕ → Text) where
  migrate-HasLine :
      (index : ℕ) (kept : List Flow) → All HasLine kept → All HasLine (migrate new_ids index kept).0
  unfolding migrate
  migrate-HasLine index [] h = tt
  migrate-HasLine index (flow ∷ kept) (h, hs) = elim (Bool-cases (needs_server flow)) [
    | inl e ↦ rw e (h, migrate-HasLine (suc index) kept hs)
    | inr e ↦ rw e (h, migrate-HasLine (suc index) kept hs)
  ]

  migrate-HasServer :
      (index : ℕ) (kept : List Flow)
      → ((i : ℕ) → is_empty (new_ids i) ≡ false)
      → All HasServer (migrate new_ids index kept).0
  unfolding migrate
  migrate-HasServer index [] ids = tt
  migrate-HasServer index (flow ∷ kept) ids = elim (Bool-cases (needs_server flow)) [
    | inl e ↦ rw e (ground (arith, ids index), migrate-HasServer (suc index) kept ids)
    | inr e ↦ rw e (e, migrate-HasServer (suc index) kept ids)
  ]

  migrate-HasId :
      (index : ℕ) (kept : List Flow)
      → ((i : ℕ) → is_empty (new_ids i) ≡ false)
      → All HasId (migrate new_ids index kept).1
  unfolding migrate
  migrate-HasId index [] ids = tt
  migrate-HasId index (flow ∷ kept) ids = elim (Bool-cases (needs_server flow)) [
    | inl e ↦ rw e (ids index, migrate-HasId (suc index) kept ids)
    | inr e ↦ rw e (migrate-HasId (suc index) kept ids)
  ]

kept_servers-HasId : (servers : List (Option Server)) → All HasId (kept_servers servers)
kept_servers-HasId [] = tt
kept_servers-HasId (none ∷ servers) = kept_servers-HasId servers
kept_servers-HasId (some server ∷ servers) = elim (Bool-cases (is_empty server.id)) [
  | inl e ↦ rw e (kept_servers-HasId servers)
  | inr e ↦ rw e (e, kept_servers-HasId servers)
]

kept_groups-HasLine :
    (groups : List (Option StoredGroup))
    → All (λ (g : Group). All HasLine g.flows) (kept_groups groups)
kept_groups-HasLine [] = tt
kept_groups-HasLine (none ∷ groups) = kept_groups-HasLine groups
kept_groups-HasLine (some g ∷ groups) = elim (Option-cases g.flows) [
  | inl e ↦ rw e (kept_groups-HasLine groups)
  | inr (flows, e) ↦ rw e (kept_flows-HasLine flows, kept_groups-HasLine groups)
]

-- `fix_active` changes no list.
fix_active-IsStorable : (w : Workspace) → IsStorable w → IsStorable (fix_active w)
unfolding fix_active
fix_active-IsStorable w h = elim (Bool-cases (has_flow w.active_flow_id (all_command_flows w))) [
  | inl e ↦ rw e h
  | inr e ↦ rw e (record {
    main = h.main;
    lines = h.lines;
    group_lines = h.group_lines;
    server_ids = h.server_ids;
    served = h.served;
    few_favorites = h.few_favorites;
  })
]

or_defaults-All :
    (P : Flow → Type 0) (defaults flows : List Flow)
    → All P defaults
    → All P flows
    → All P (or_defaults defaults flows)
or_defaults-All P defaults [] h g = h
or_defaults-All P defaults (flow ∷ flows) h g = g

or_defaults-not_empty :
    (defaults flows : List Flow)
    → is_empty defaults ≡ false
    → is_empty (or_defaults defaults flows) ≡ false
or_defaults-not_empty defaults [] h = h
or_defaults-not_empty defaults (flow ∷ flows) h = refl

with_data-IsStorable :
    (defaults : List Flow) (data_ : CommandData) (kept : List Flow × List Server) (w : Workspace)
    → is_empty defaults ≡ false
    → All HasLine defaults
    → All HasServer defaults
    → All HasLine kept.0
    → All HasServer kept.0
    → All HasId kept.1
    → IsStorable (with_data defaults data_ kept w)
unfolding with_data
with_data-IsStorable defaults data_ (flows, servers) w full lines served h s g = record {
  main = or_defaults-not_empty defaults flows full;
  lines = or_defaults-All HasLine defaults flows lines h;
  group_lines = kept_groups-HasLine data_.groups;
  server_ids =
      All-append HasId (kept_servers data_.servers) servers (kept_servers-HasId data_.servers) g;
  served = or_defaults-All HasServer defaults flows served s;
  few_favorites = omega (arith, length-take max_favorites (kept_favorites data_.favorites));
}

-- Whatever data is stored, with values that are missing or of other types, what is loaded has a
-- flow in its main list, a line in every flow of the list and of the groups, a server for every
-- flow of the list that has a host, an id for every server and at most 50 favourites. The default
-- flows are some, each with a line and without a host, and the new ids of servers are not empty.
pub apply_command_data-IsStorable :
    (defaults : List Flow) (server_ids : ℕ → Text) (data_ : CommandData) (w : Workspace)
    → is_empty defaults ≡ false
    → All HasLine defaults
    → All HasServer defaults
    → ((i : ℕ) → is_empty (server_ids i) ≡ false)
    → IsStorable (apply_command_data defaults server_ids data_ w)
unfolding apply_command_data
apply_command_data-IsStorable defaults server_ids data_ w full lines served ids =
    let kept = kept_flows data_.flows in
    fix_active-IsStorable _ (
      with_data-IsStorable defaults data_ (migrate server_ids 0 kept) w full lines served
        (migrate-HasLine server_ids 0 kept (kept_flows-HasLine data_.flows))
        (migrate-HasServer server_ids 0 kept ids) (migrate-HasId server_ids 0 kept ids))
