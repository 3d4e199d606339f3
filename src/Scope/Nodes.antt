-- ===== src/Scope/Nodes.antt =====
-- app.js: what changes the list of nodes beside the node list of the server: adding and editing a
-- node (`addNodeToGo`, `updateNodeToGo`), `unbindNode` and `applyNodeOrder`.
use log_agent.Prelude.{
  ℕ, suc, leb, Bool, true, false, not, List, [], ◌∷◌, ◌++◌, Option, none, some, Text, text_eq, ◌==◌,
  if◌then◌else◌, filterb,
}
use log_agent.Prelude.Sort.{sort_by}
use log_agent.Prelude.Texts.{starts_with}
use log_agent.Scope.{Scope, Node, separator}
use log_agent.Scope.Actions.{render_nodes, reset_log_pagination}

-- `nodes.findIndex(…)`, and `nodes[index] = node` or `nodes.push(node)`
unfoldable pub with_node : Node → List Node → List Node
with_node node [] = node ∷ []
with_node node (other ∷ nodes) =
    let rest = with_node node nodes in if other.id == node.id then node ∷ nodes else other ∷ rest

-- The node that the server answers to an addition or an edit.
unfoldable pub put_node : Node → Scope → Scope
unfolding with_node render_nodes
put_node node s = render_nodes (record s { nodes = with_node node s.nodes })

-- `splice` at the index that `findIndex` gives.
unfoldable pub without_node : Text → List Node → List Node
without_node id [] = []
without_node id (node ∷ nodes) =
    let rest = without_node id nodes in if node.id == id then nodes else node ∷ rest

-- `unbindNode`, once it was confirmed and the server deleted the node.
unfoldable pub unbind_node : Text → Scope → Scope
unfolding without_node render_nodes reset_log_pagination starts_with
unbind_node id s = render_nodes (record s {
  nodes = without_node id s.nodes;
  selected_nodes = filterb (λ other. not (other == id)) s.selected_nodes;
  selected_containers =
      filterb (λ value. not (starts_with (id ++ separator) value)) s.selected_containers;
  expanded_nodes = filterb (λ other. not (other == id)) s.expanded_nodes;
  selected_log = 0;
  pagination = reset_log_pagination s.pagination;
})

-- The place of an id in an order, the last one when it is there twice.
abbrev pub rank : ℕ → Text → List Text → Option ℕ
rank index id [] = none
rank index id (key ∷ order) = elim (rank (suc index) id order) [
  | some later ↦ some later
  | none ↦ if key == id then some index else none
]

-- An id that is not in the order counts as infinitely late.
abbrev pub no_later : Option ℕ → Option ℕ → Bool
no_later none none = true
no_later none (some j) = false
no_later (some i) none = true
no_later (some i) (some j) = leb i j

-- What `applyNodeOrder` does to the nodes.
unfoldable pub apply_node_order : List Text → List Node → List Node
unfolding sort_by
apply_node_order order nodes =
    sort_by (λ (a : Node) (b : Node). no_later (rank 0 a.id order) (rank 0 b.id order)) nodes

-- `applyNodeOrder`
unfoldable pub order_nodes : List Text → Scope → Scope
unfolding apply_node_order render_nodes
order_nodes order s = render_nodes (record s { nodes = apply_node_order order s.nodes })
