-- ===== src/Workspace/RoundTrip.antt =====
-- What is loaded again after it was stored.
use mathlib.Core.Path.{subst}
use log_agent.Prelude.{
  ap, ◌∙◌, ℕ, zero, suc, ◌≤◌, false, List, [], ◌∷◌, ◌++◌, map, Option, some, Text, text_eq, nat_eq,
  ◌≡◌, refl, arith, inl, inr, length, take, Bool-cases, is_empty,
}
use log_agent.Commands.{Flow, Line}
use log_agent.Workspace.{Workspace, Server, Favorite, Group, all_command_flows, has_flow}
use log_agent.Workspace.Groups.{fix_active}
use log_agent.Prelude.{All}
use log_agent.Workspace.Favorites.{max_favorites}
use log_agent.Workspace.Stored.{
  StoredFlow, idle_line, or_blank_line, with_data, kept_flows, kept_groups, kept_servers,
  kept_favorites, needs_server, migrate, or_defaults, apply_command_data,
}
use log_agent.Workspace.Snapshots.{stored_flow, stored_favorite, stored_group, snapshot_with}

abbrev pub HasLine : Flow → Type 0
HasLine flow = is_empty flow.lines ≡ false

abbrev pub HasId : Server → Type 0
HasId server = is_empty server.id ≡ false

-- A flow that gets no server from its host when it is loaded.
abbrev pub HasServer : Flow → Type 0
HasServer flow = needs_server flow ≡ false

-- A workspace that can be stored whole.
pub record IsStorable (w : Workspace) : Type 0 where
  pub main : is_empty w.flows ≡ false
  pub lines : All HasLine w.flows
  pub group_lines : All (λ (g : Group). All HasLine g.flows) w.groups
  pub server_ids : All HasId w.servers
  pub served : All HasServer w.flows
  pub few_favorites : length w.favorites ≤ max_favorites

-- A flow as it is after loading.
abbrev pub reloaded : Flow → Flow
reloaded flow = record flow { lines = map idle_line flow.lines }

abbrev pub reloaded_group : (Flow → Flow) → Group → Group
reloaded_group again g = record {
  id = g.id;
  name = g.name;
  collapsed = g.collapsed;
  flows = map again g.flows;
}

or_blank_line-kept : (lines : List Line) → is_empty lines ≡ false → or_blank_line lines ≡ lines
or_blank_line-kept [] h = cc
or_blank_line-kept (line ∷ lines) h = refl

-- `clean` is what is done to a flow that is stored, `again` what it is after it was loaded.
module _ (clean again : Flow → Flow) (keeps : (flow : Flow) → HasLine flow → HasLine (clean flow))
    (served : (flow : Flow) → HasServer flow → HasServer (clean flow))
    (comes_back : (flow : Flow) → reloaded (clean flow) ≡ again flow) where
  abbrev stored : List Flow → List (Option StoredFlow)
  stored flows = map (λ (flow : Flow). some (stored_flow (clean flow))) flows

  kept_flows-stored :
      (flows : List Flow) → All HasLine flows → kept_flows (stored flows) ≡ map again flows
  kept_flows-stored [] h = refl
  kept_flows-stored (flow ∷ flows) (h, hs) =
      rw (kept_flows-stored flows hs, or_blank_line-kept (clean flow).lines (keeps flow h))
        (ap (λ f. f ∷ map again flows) (comes_back flow))

  again-HasServer : (flow : Flow) → HasServer flow → HasServer (again flow)
  again-HasServer flow h = subst HasServer (comes_back flow) (served flow h)

  migrate-again :
      (new_ids : ℕ → Text) (index : ℕ) (flows : List Flow)
      → All HasServer flows
      → migrate new_ids index (map again flows) ≡ (map again flows, [])
  unfolding migrate
  migrate-again new_ids index [] h = refl
  migrate-again new_ids index (flow ∷ flows) (h, hs) =
      rw (migrate-again new_ids (suc index) flows hs, again-HasServer flow h) refl

  migrate-stored :
      (new_ids : ℕ → Text) (flows : List Flow)
      → All HasLine flows
      → All HasServer flows
      → migrate new_ids 0 (kept_flows (stored flows)) ≡ (map again flows, [])
  migrate-stored new_ids flows h g =
      ap (migrate new_ids 0) (kept_flows-stored flows h) ∙ migrate-again new_ids 0 flows g

  kept_groups-stored :
      (groups : List Group)
      → All (λ (g : Group). All HasLine g.flows) groups
      → kept_groups (map (λ (g : Group). some (stored_group clean g)) groups)
        ≡ map (reloaded_group again) groups
  kept_groups-stored [] h = refl
  kept_groups-stored (g ∷ groups) (h, hs) =
      rw (kept_groups-stored groups hs, kept_flows-stored g.flows h) refl

kept_servers-stored :
    (servers : List Server) → All HasId servers → kept_servers (map some servers) ≡ servers
kept_servers-stored [] h = refl
kept_servers-stored (server ∷ servers) (h, hs) = rw (h, kept_servers-stored servers hs) refl

kept_favorites-stored :
    (items : List Favorite)
    → kept_favorites (map (λ (item : Favorite). some (stored_favorite item)) items) ≡ items
kept_favorites-stored [] = refl
kept_favorites-stored (item ∷ items) = rw (kept_favorites-stored items) refl

take_all : {A : Type 0} (n : ℕ) (xs : List A) → length xs ≤ n → take n xs ≡ xs
take_all zero [] h = refl
take_all (suc n) [] h = refl
take_all zero (x ∷ xs) h = absurd (omega (arith, h))
take_all (suc n) (x ∷ xs) h = rw (take_all n xs (omega (arith, h))) refl

-- What is stored of a workspace is loaded into another one; `again` is a flow after its loading.
pub record IsReload (again : Flow → Flow) (w v : Workspace) : Type 0 where
  pub flows_same : v.flows ≡ map again w.flows
  pub groups_same : v.groups ≡ map (reloaded_group again) w.groups
  pub servers_same : v.servers ≡ w.servers
  pub favorites_same : v.favorites ≡ w.favorites

-- `fix_active` changes no list.
fix_active-IsReload :
    (again : Flow → Flow) (w v : Workspace) → IsReload again w v → IsReload again w (fix_active v)
unfolding fix_active
fix_active-IsReload again w v h =
    elim (Bool-cases (has_flow v.active_flow_id (all_command_flows v))) [
      | inl e ↦ rw e h
      | inr e ↦ rw e (record {
        flows_same = h.flows_same;
        groups_same = h.groups_same;
        servers_same = h.servers_same;
        favorites_same = h.favorites_same;
      })
    ]

append_nil : {A : Type 0} (xs : List A) → xs ++ [] ≡ xs
append_nil [] = refl
append_nil (x ∷ xs) = rw (append_nil xs) refl

or_defaults-full :
    (defaults flows : List Flow) → is_empty flows ≡ false → or_defaults defaults flows ≡ flows
or_defaults-full defaults [] h = cc
or_defaults-full defaults (flow ∷ flows) h = refl

map-not_empty :
    {A B : Type 0} (f : A → B) (xs : List A) → is_empty xs ≡ false → is_empty (map f xs) ≡ false
map-not_empty f [] h = cc
map-not_empty f (x ∷ xs) h = refl

pub apply-snapshot_with :
    (clean again : Flow → Flow) (defaults : List Flow) (server_ids : ℕ → Text) (w v : Workspace)
    → ((flow : Flow) → HasLine flow → HasLine (clean flow))
    → ((flow : Flow) → HasServer flow → HasServer (clean flow))
    → ((flow : Flow) → reloaded (clean flow) ≡ again flow)
    → IsStorable w
    → IsReload again w (apply_command_data defaults server_ids (snapshot_with clean w) v)
unfolding apply_command_data with_data
apply-snapshot_with clean again defaults server_ids w v keeps served comes_back h =
    rw (migrate-stored clean again keeps served comes_back server_ids w.flows h.lines h.served) (
      fix_active-IsReload again w _ (record {
        flows_same = or_defaults-full defaults _ (map-not_empty _ w.flows h.main);
        groups_same = kept_groups-stored clean again keeps served comes_back w.groups h.group_lines;
        servers_same = rw (kept_servers-stored w.servers h.server_ids) (append_nil w.servers);
        favorites_same =
            rw (kept_favorites-stored w.favorites)
              (take_all max_favorites w.favorites h.few_favorites);
      }))
