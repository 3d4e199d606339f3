-- ===== src/Scope/Steps.antt =====
-- The operations on the scope as steps, from a saved selection on, and the invariant over them.
use log_agent.Prelude.{
  Bool, true, false, not, List, [], Text, ◌≡◌, text_eq, filterb, length, arith, nat_eq, Option,
  length-take, ◌≤◌, is_empty, ◌⊎◌, ◌≢◌,
}
use log_agent.Prelude.Members.{contains, contains-filterb}
use mathlib.Core.Option.{none, some}
use log_agent.Prelude.{length-take}
use log_agent.Scope.{Scope, Node, container_key}
use log_agent.Scope.Actions.{
  is_known, hide_connection_container, restore_connection_containers,
  toggle_connection_container_keep, clear_connection_container_keep,
  remove_other_connection_containers, of_nodes, restore_selection, narrow, Saved,
  restore_hidden_containers, hidden_of, option_or,
}
use log_agent.Scope.Nodes.{put_node, unbind_node, order_nodes}
use log_agent.Scope.Listing.{put_node-IsScoped, unbind_node-IsScoped, order_nodes-IsScoped}
use log_agent.Scope.Clicks.{set_multi_select, click_node, click_container, sync_nodes}
use log_agent.Scope.Invariant.{IsScoped}
use log_agent.Scope.Manager.{
  IsNodeId, hide-IsScoped, restore-IsScoped, clear_keep-IsScoped, toggle_keep-IsScoped,
  remove_others-IsScoped,
}
use log_agent.Scope.Sidebar.{multi-IsScoped, click-IsScoped, pick-IsScoped, sync-IsScoped}

pub data Action : Type 0 where
  hide restore clear_keep toggle_keep remove_others click : Text → Action
  pick : Text → Text → Action
  multi : Bool → Action
  sync : List Node → Action
  put : Node → Action
  unbind : Text → Action
  order : List Text → Action

pub act : Action → Scope → Scope
unfolding hide_connection_container restore_connection_containers clear_connection_container_keep
    toggle_connection_container_keep remove_other_connection_containers click_node click_container
    set_multi_select sync_nodes put_node unbind_node order_nodes
act (hide key) = hide_connection_container key
act (restore node_id) = restore_connection_containers node_id
act (clear_keep node_id) = clear_connection_container_keep node_id
act (toggle_keep key) = toggle_connection_container_keep key
act (remove_others node_id) = remove_other_connection_containers node_id
act (click node_id) = click_node node_id
act (pick node_id container_id) = click_container node_id container_id
act (multi next) = set_multi_select next
act (sync nodes) = sync_nodes nodes
act (put node) = put_node node
act (unbind node_id) = unbind_node node_id
act (order ids) = order_nodes ids

-- What the page offers: nodes that are listed and whose ids are not empty, containers of listed
-- nodes that are not hidden. A node is added when there is a list, or when no node is selected, as
-- after an empty list.
abbrev pub IsOffered : Action → Scope → Type 0
IsOffered (remove_others node_id) s = IsNodeId node_id
IsOffered (toggle_keep key) s = contains key s.hidden_containers ≡ false
IsOffered (click node_id) s = is_known s.nodes node_id ≡ true
IsOffered (pick node_id container_id) s =
    (is_known s.nodes node_id ≡ true)
    × IsNodeId node_id
    × (contains (container_key node_id container_id) s.hidden_containers ≡ false)
IsOffered (put node) s = (is_empty s.nodes ≡ false) ⊎ (s.selected_nodes ≡ [])
IsOffered (unbind node_id) s = node_id ≢ []
IsOffered _ s = Unit

-- With the switch off at most one node is selected, each selected container belongs to a selected node
-- and is not hidden, no ticked container is hidden, and the selected nodes are listed once there is a
-- list: this is kept by hiding a container, showing the hidden ones of a node, ticking a container
-- that is not hidden, unticking a node's, removing a node's other containers, a click on a listed
-- node or on a shown container of one, the switch, a node list of the server, adding or editing a
-- node when nodes are listed or none is selected, unbinding a node whose id is not empty, and
-- ordering the nodes. A node whose containers are clicked or removed has an id that their keys give
-- back.
pub act-IsScoped : (a : Action) (s : Scope) → IsOffered a s → IsScoped s → IsScoped (act a s)
unfolding act
act-IsScoped (hide key) s o v = hide-IsScoped key s v
act-IsScoped (restore id) s o v = restore-IsScoped id s v
act-IsScoped (clear_keep id) s o v = clear_keep-IsScoped id s v
act-IsScoped (toggle_keep key) s o v = toggle_keep-IsScoped key s o v
act-IsScoped (remove_others id) s o v = remove_others-IsScoped id s o v
act-IsScoped (click id) s o v = click-IsScoped id s o v
act-IsScoped (pick id container_id) s o v = pick-IsScoped id container_id s o v
act-IsScoped (multi next) s o v = multi-IsScoped next s v
act-IsScoped (sync nodes) s o v = sync-IsScoped nodes s v
act-IsScoped (put node) s o v = put_node-IsScoped node s o v
act-IsScoped (unbind id) s o v = unbind_node-IsScoped id s o v
act-IsScoped (order ids) s o v = order_nodes-IsScoped ids s v

-- The sessions of a page: any operations that are offered, one after the other.
pub data Reach (s : Scope) : Scope → Type 0 where
  here : Reach s s
  next : {t : Scope} (a : Action) → Reach s t → IsOffered a t → Reach s (act a t)

Reach-IsScoped : {s t : Scope} → IsScoped s → Reach s t → IsScoped t
Reach-IsScoped v here = v
Reach-IsScoped v (next {t = u} a r o) = act-IsScoped a u o (Reach-IsScoped v r)

-- What loading a page does: the saved selection, then the saved hidden containers.
unfoldable pub load_saved : Option Saved → Option (List Text) → Scope → Scope
unfolding restore_selection restore_hidden_containers
load_saved saved hidden s = restore_hidden_containers hidden (restore_selection saved s)

length-narrow : (many : Bool) (xs : List Text) → many ≡ false → length (narrow many xs) ≤ 1
unfolding narrow
length-narrow many xs m = ground (arith, length-take {0} 1 xs)

load_saved-IsScoped :
    (saved : Option Saved) (hidden : Option (List Text)) (s : Scope)
    → IsScoped s
    → s.nodes ≡ []
    → s.kept_containers ≡ []
    → IsScoped (load_saved saved hidden s)
unfolding load_saved
load_saved-IsScoped none hidden s v no_nodes no_kept = record {
  single = v.single;
  within = λ key h. v.within key (
      ground (
        arith,
        contains-filterb (λ x. not (contains x (hidden_of hidden s.hidden_containers))) key
            s.selected_containers,
      ));
  visible = λ key h. ground (
    arith,
    contains-filterb (λ x. not (contains x (hidden_of hidden s.hidden_containers))) key
        s.selected_containers,
  );
  apart = λ key h. ground (arith, no_kept);
  known = λ id e h. ground (arith, no_nodes);
}
load_saved-IsScoped (some saved) hidden s v no_nodes no_kept =
    let selected = narrow saved.multi_select (option_or saved.nodes s.selected_nodes) in
    let first = option_or saved.containers s.selected_containers in
    let second = filterb (of_nodes selected) first in
    let shown : Text → Bool = λ x. not (contains x (hidden_of hidden s.hidden_containers)) in
    record {
      single = λ m. length-narrow saved.multi_select (option_or saved.nodes s.selected_nodes) m;
      within = λ key h. ground (
        arith,
        contains-filterb shown key second,
        contains-filterb (of_nodes selected) key first,
      );
      visible = λ key h. ground (arith, contains-filterb shown key second);
      apart = λ key h. ground (arith, no_kept);
      known = λ id e h. ground (arith, no_nodes);
    }

-- From a scope that keeps the invariant, with no node listed and no container ticked, whatever
-- is then loaded, and after any sequence of hiding, showing, ticking and unticking of containers,
-- removing of a node's other containers, clicks on listed nodes and their shown containers, the
-- switch, node lists of the server, additions and edits of nodes, unbindings and orderings, each
-- as the page offers it: with the switch off at most one node is selected, each selected container
-- belongs to a selected node and is not hidden, no ticked container is hidden, and the selected
-- nodes are listed once there is a list.
pub Reach-load_saved-IsScoped :
    (saved : Option Saved) (hidden : Option (List Text)) (s : Scope) {t : Scope}
    → IsScoped s
    → s.nodes ≡ []
    → s.kept_containers ≡ []
    → Reach (load_saved saved hidden s) t
    → IsScoped t
Reach-load_saved-IsScoped saved hidden s v no_nodes no_kept r =
    Reach-IsScoped (load_saved-IsScoped saved hidden s v no_nodes no_kept) r
