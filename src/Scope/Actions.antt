-- ===== src/Scope/Actions.antt =====
-- app.js: the operations that change the scope: loading a saved one and the connection manager's.
-- What they draw, save and fetch is left out; what they reset is not.
use log_agent.Prelude.{
  ltb, Bool, true, false, not, ◌&&◌, List, [], ◌∷◌, ◌++◌, Option, none, some, Text, ◌==◌, text_eq,
  nat_eq, if◌then◌else◌, filterb, is_empty, length, take, ◌+◌,
}
use log_agent.Prelude.Members.{contains}
use log_agent.Prelude.Texts.{includes}
use log_agent.Scope.{
  Scope, Node, Container, Search, Pagination, or_text, separator, container_key,
  container_key_node_id, get_node,
}

-- `clearFullRangeSearch`
unfoldable pub clear_full_range_search : Search → Search
clear_full_range_search s = record s {
  timer = false;
  request = s.request + 1;
  logs = [];
  key = [];
  loading = false;
}

-- `resetLogPagination`
unfoldable pub reset_log_pagination : Pagination → Pagination
reset_log_pagination p = record p {
  visible_logs = 50;
  preview_due = false;
  preview_active = false;
  preview_limit = 0;
  window_key = [];
  follow_latest = true;
}

-- What every change of the scope resets.
unfoldable pub reset_view : Scope → Scope
unfolding clear_full_range_search reset_log_pagination
reset_view s = record s {
  search = clear_full_range_search s.search;
  log_cache = [];
  loaded_selection_key = [];
  selected_log = 0;
  pagination = reset_log_pagination s.pagination;
}

abbrev pub is_known : List Node → Text → Bool
is_known nodes id = elim (get_node id nodes) [ none ↦ false | some node ↦ true ]

-- The part of `renderNodes` that changes `state`.
unfoldable pub render_nodes : Scope → Scope
unfolding get_node
render_nodes s = record s {
  selected_nodes =
      if is_empty s.nodes then s.selected_nodes else filterb (is_known s.nodes) s.selected_nodes;
  expanded_nodes = filterb (is_known s.nodes) s.expanded_nodes;
}

abbrev pub of_nodes : List Text → Text → Bool
of_nodes nodes key = contains (container_key_node_id key) nodes

-- A parsed payload: its arrays with what is no text, or empty, left out already.
pub record Saved : Type 0 where
  pub nodes : Option (List Text)
  pub containers : Option (List Text)
  pub multi_select : Bool

abbrev pub option_or {ℓ} : {A : Type ℓ} → Option A → A → A
option_or none d = d
option_or (some a) d = a

unfoldable pub narrow : Bool → List Text → List Text
narrow multi selected = if not multi && ltb 1 (length selected) then take 1 selected else selected

-- `restoreSelection`; `none` is an absent or unreadable payload.
unfoldable pub restore_selection : Option Saved → Scope → Scope
unfolding narrow container_key_node_id
restore_selection none s = s
restore_selection (some saved) s =
    let selected = narrow saved.multi_select (option_or saved.nodes s.selected_nodes) in
    record s {
      selected_nodes = selected;
      multi_select = saved.multi_select;
      selected_containers =
          filterb (of_nodes selected) (option_or saved.containers s.selected_containers);
    }

unfoldable pub hidden_of : Option (List Text) → List Text → List Text
unfolding includes
hidden_of none hidden = hidden
hidden_of (some keys) hidden = filterb (λ key. includes separator key) keys

-- `restoreHiddenContainers`
unfoldable pub restore_hidden_containers : Option (List Text) → Scope → Scope
unfolding hidden_of
restore_hidden_containers saved s =
    let hidden = hidden_of saved s.hidden_containers in
    record s {
      hidden_containers = hidden;
      selected_containers = filterb (λ key. not (contains key hidden)) s.selected_containers;
    }

-- `dropContainersFromScope`, with its result
unfoldable pub drop_containers_from_scope : List Text → Scope → Scope × Bool
unfolding reset_view
drop_containers_from_scope [] s = (s, false)
drop_containers_from_scope (key ∷ keys) s =
    let remaining = filterb (λ value. not (contains value (key ∷ keys))) s.selected_containers in
    if length remaining == length s.selected_containers
    then (s, false)
    else (reset_view (record s { selected_containers = remaining }), true)

-- `hideConnectionContainer`
unfoldable pub hide_connection_container : Text → Scope → Scope
unfolding drop_containers_from_scope render_nodes
hide_connection_container [] s = s
hide_connection_container (c ∷ k) s =
    let key : Text = c ∷ k in
    if contains key s.hidden_containers
    then s
    else render_nodes
        (drop_containers_from_scope (key ∷ []) (record s {
          hidden_containers = s.hidden_containers ++ key ∷ [];
          kept_containers = filterb (λ value. not (value == key)) s.kept_containers;
        })).0

-- `restoreConnectionContainers`
unfoldable pub restore_connection_containers : Text → Scope → Scope
unfolding render_nodes container_key_node_id
restore_connection_containers node_id s =
    let remaining =
      filterb (λ key. not (container_key_node_id key == node_id)) s.hidden_containers in
    if length remaining == length s.hidden_containers
    then s
    else render_nodes (record s { hidden_containers = remaining })

-- `toggleConnectionContainerKeep`
unfoldable pub toggle_connection_container_keep : Text → Scope → Scope
toggle_connection_container_keep [] s = s
toggle_connection_container_keep (c ∷ k) s =
    let key : Text = c ∷ k in
    record s {
      kept_containers =
          if contains key s.kept_containers
          then filterb (λ value. not (value == key)) s.kept_containers
          else s.kept_containers ++ key ∷ [];
    }

-- `clearConnectionContainerKeep`
unfoldable pub clear_connection_container_keep : Text → Scope → Scope
unfolding container_key_node_id
clear_connection_container_keep node_id s =
    let remaining = filterb (λ key. not (container_key_node_id key == node_id)) s.kept_containers in
    if length remaining == length s.kept_containers
    then s
    else record s { kept_containers = remaining }

-- The keys that `removeOtherConnectionContainers` drops.
unfoldable pub others_of : Text → List Text → List Text → List Container → List Text
unfolding container_key
others_of node_id kept hidden [] = []
others_of node_id kept hidden (container ∷ rest) =
    let key = container_key node_id (or_text container.id container.name) in
    let more = others_of node_id kept hidden rest in
    if not (contains key kept) && not (contains key hidden) then key ∷ more else more

-- `removeOtherConnectionContainers`
unfoldable pub remove_other_connection_containers : Text → Scope → Scope
unfolding get_node others_of drop_containers_from_scope render_nodes container_key_node_id
remove_other_connection_containers node_id s =
    let kept = filterb (λ key. container_key_node_id key == node_id) s.kept_containers in
    elim (get_node node_id s.nodes) [
      | none ↦ s
      | some node ↦
          if is_empty kept
          then s
          else (let dropped = others_of node_id kept s.hidden_containers node.containers in
              render_nodes
                (drop_containers_from_scope dropped (record s {
                  hidden_containers = s.hidden_containers ++ dropped;
                  kept_containers =
                      filterb (λ key. not (container_key_node_id key == node_id)) s.kept_containers;
                })).0)
    ]
