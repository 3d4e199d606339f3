-- ===== src/Scope/Clicks.antt =====
-- app.js: the operations of the sidebar on the scope, the switch for several nodes and the clicks on
-- a node or a container, and a refresh of the node list.
use log_agent.Prelude.{
  ltb, Bool, not, ◌&&◌, List, [], ◌∷◌, ◌++◌, Text, ◌==◌, text_eq, nat_eq, if◌then◌else◌, filterb,
  is_empty, length, take,
}
use log_agent.Prelude.Members.{contains}
use log_agent.Scope.{Scope, Node, container_key, container_key_node_id, get_node}
use log_agent.Scope.Actions.{reset_view, is_known, render_nodes, of_nodes}

-- `setMultiSelect`
unfoldable pub set_multi_select : Bool → Scope → Scope
unfolding reset_view render_nodes container_key_node_id
set_multi_select next s =
    if not next && ltb 1 (length s.selected_nodes)
    then (let selected = take 1 s.selected_nodes in
        render_nodes (
          reset_view (record s {
            multi_select = next;
            selected_nodes = selected;
            selected_containers = filterb (of_nodes selected) s.selected_containers;
          })))
    else record s { multi_select = next }

abbrev pub expand : Text → List Text → List Text
expand node_id expanded = if contains node_id expanded then expanded else expanded ++ node_id ∷ []

-- The nodes and containers that a click on a node leaves selected.
unfoldable pub node_clicked : Text → Scope → Scope
unfolding container_key_node_id
node_clicked node_id s =
    let left = filterb (λ id. not (id == node_id)) s.selected_nodes in
    if s.multi_select && contains node_id s.selected_nodes
    then record s {
      selected_nodes = left;
      selected_containers =
          if is_empty left then [] else filterb (of_nodes left) s.selected_containers;
    }
    else record s {
      selected_nodes = if s.multi_select then s.selected_nodes ++ node_id ∷ [] else node_id ∷ [];
      selected_containers = if not s.multi_select then [] else s.selected_containers;
    }

-- A click on a `.node-item`
unfoldable pub click_node : Text → Scope → Scope
unfolding node_clicked reset_view render_nodes
click_node node_id s =
    let t = node_clicked node_id s in
    render_nodes (reset_view (record t { expanded_nodes = expand node_id t.expanded_nodes }))

-- The elements of a set after more were added, in the order of their insertion.
unfoldable pub to_set : List Text → List Text → List Text
to_set seen [] = seen
to_set seen (id ∷ ids) = to_set (expand id seen) ids

-- `Array.from(new Set([...ids, id]))`
abbrev pub add_to_set : Text → List Text → List Text
add_to_set id ids = to_set [] (ids ++ id ∷ [])

-- A click on a `.container-item`
unfoldable pub click_container : Text → Text → Scope → Scope
unfolding container_key container_key_node_id reset_view render_nodes
click_container node_id container_id s =
    let key = container_key node_id container_id in
    let toggled =
      if contains key s.selected_containers
      then filterb (λ value. not (value == key)) s.selected_containers
      else s.selected_containers ++ key ∷ [] in
    render_nodes (
      reset_view (record s {
        selected_containers =
            if not s.multi_select
            then filterb (λ value. container_key_node_id value == node_id) toggled
            else toggled;
        selected_nodes =
            if s.multi_select then add_to_set node_id s.selected_nodes else node_id ∷ [];
        expanded_nodes = expand node_id s.expanded_nodes;
      }))

-- What `syncGoBackend` does to the scope when a node list has arrived.
unfoldable pub sync_nodes : List Node → Scope → Scope
unfolding get_node render_nodes container_key_node_id
sync_nodes nodes s =
    let selected = filterb (is_known nodes) s.selected_nodes in
    render_nodes (record s {
      nodes = nodes;
      selected_nodes = selected;
      expanded_nodes = filterb (is_known nodes) s.expanded_nodes;
      selected_containers = filterb (of_nodes selected) s.selected_containers;
    })
