-- ===== src/Scope.antt =====
-- app.js: the scope of the log view: the nodes with their containers, which nodes and containers
-- are selected, which containers are hidden or ticked in the connection manager.
pub mod Actions
pub mod Clicks
pub mod Invariant
pub mod Manager
pub mod Nodes
pub mod Listing
pub mod Sidebar
pub mod Steps
pub mod Keys
pub mod Tests
use log_agent.Prelude.Dict.{Dict}
use log_agent.LogBuffer.{Log}
use log_agent.Prelude.{
  ◌+◌, Bool, List, [], ◌∷◌, ◌++◌, Option, none, some, Text, ◌==◌, text_eq, find_first, take, drop,
  ℕ,
}
use log_agent.Prelude.Texts.{index_of}

pub record Container : Type 0 where
  pub id : Text
  pub name : Text

pub record Node : Type 0 where
  pub id : Text
  pub name : Text
  pub containers : List Container

-- The remote search over the whole time range: `fullRangeSearchTimer`, `fullRangeSearchRequest`
-- and the fields `fullRangeSearch…` of `state`.
pub record Search : Type 0 where
  pub timer : Bool
  pub request : ℕ
  pub logs : List Log
  pub key : Text
  pub loading : Bool

-- What `resetLogPagination` sets. `preview_timer` says that `initialLogPreviewTimer` holds a
-- timer's handle, `preview_due` that this timer is still to fire.
pub record Pagination : Type 0 where
  pub visible_logs : ℕ
  pub preview_timer : Bool
  pub preview_due : Bool
  pub preview_active : Bool
  pub preview_limit : ℕ
  pub window_key : Text
  pub follow_latest : Bool

-- `state`, as far as the scope goes, and the globals that change with it.
pub record Scope : Type 0 where
  pub nodes : List Node
  pub selected_nodes : List Text
  pub expanded_nodes : List Text
  pub selected_containers : List Text
  pub hidden_containers : List Text
  pub kept_containers : List Text
  pub multi_select : Bool
  pub log_cache : Dict Text (List Log)
  pub loaded_selection_key : Text
  pub selected_log : ℕ
  pub search : Search
  pub pagination : Pagination

pub record Target : Type 0 where
  pub node_id : Text
  pub container_id : Text
  pub name : Text

-- `a || b` on texts
abbrev pub or_text : Text → Text → Text
or_text [] b = b
or_text (c ∷ a) b = c ∷ a

abbrev pub separator : Text
separator = 58 ∷ 58 ∷ []

unfoldable pub container_key : Text → Text → Text
container_key node_id container_id = node_id ++ (separator ++ container_id)

unfoldable pub container_key_node_id : Text → Text
unfolding index_of
container_key_node_id value = elim (index_of separator value) [
  | none ↦ []
  | some at ↦ take at value
]

unfoldable pub get_node : Text → List Node → Option Node
get_node id nodes = find_first (λ node. node.id == id) nodes

unfoldable pub target_of : List Node → Text → Option Target
unfolding index_of get_node
target_of nodes value = elim (index_of separator value) [
  | none ↦ none
  | some at ↦
      let container_id = drop (at + 2) value in
      elim (get_node (take at value) nodes) [
        | none ↦ none
        | some node ↦
            elim (find_first (λ (item : Container). or_text item.id item.name == container_id)
              node.containers) [
                | none ↦ none
                | some container ↦ some (record {
                  node_id = take at value;
                  container_id = container_id;
                  name = or_text container.name container.id;
                })
              ]
      ]
]

unfoldable pub targets_of : List Node → List Text → List Target
unfolding target_of
targets_of nodes [] = []
targets_of nodes (value ∷ values) =
    let rest = targets_of nodes values in
    elim (target_of nodes value) [ none ↦ rest | some target ↦ target ∷ rest ]

unfoldable pub selected_container_targets : Scope → List Target
unfolding targets_of
selected_container_targets s = targets_of s.nodes s.selected_containers
