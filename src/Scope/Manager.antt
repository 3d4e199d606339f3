-- ===== src/Scope/Manager.antt =====
-- The connection manager's operations keep the invariant of the scope.
use log_agent.Prelude.{
  Bool, true, false, not, List, [], ◌∷◌, ◌++◌, Text, ◌≡◌, ◌==◌, text_eq, text_beq_iff, filterb,
  length, arith, Bool-cases, inl, inr, nat_eq, Option, if◌then◌else◌, is_empty,
}
use log_agent.Prelude.Members.{contains, contains-append, contains-filterb}
use mathlib.Core.Option.{none, some}
use log_agent.Scope.{
  Scope, Node, container_key, container_key_node_id, Container, or_text, get_node,
}
use log_agent.Scope.Actions.{
  hide_connection_container, restore_connection_containers, toggle_connection_container_keep,
  clear_connection_container_keep, remove_other_connection_containers, others_of, render_nodes,
  drop_containers_from_scope,
}
use log_agent.Scope.Invariant.{IsScoped, render_nodes-IsScoped, drop_containers_from_scope-IsScoped}

-- A node's id that its containers' keys give back.
abbrev pub IsNodeId : Text → Type 0
IsNodeId id = (container_id : Text) → container_key_node_id (container_key id container_id) ≡ id

pub hide-IsScoped :
    (key : Text) (s : Scope) → IsScoped s → IsScoped (hide_connection_container key s)
unfolding hide_connection_container
hide-IsScoped [] s v = v
hide-IsScoped (c ∷ k) s v =
    let key : Text = c ∷ k in
    elim (Bool-cases (contains key s.hidden_containers)) [
      | inl old ↦ rw old v
      | inr new ↦ rw new (
          render_nodes-IsScoped _ (
            drop_containers_from_scope-IsScoped (key ∷ [])
              (record s {
                hidden_containers = s.hidden_containers ++ key ∷ [];
                kept_containers = filterb (λ value. not (value == key)) s.kept_containers;
              })
              v.single v.within
              (λ j h out.
                ground (arith, v.visible j h, contains-append j s.hidden_containers (key ∷ [])))
              (λ j h. ground (
                arith,
                v.apart j,
                contains-append j s.hidden_containers (key ∷ []),
                contains-filterb (λ value. not (value == key)) j s.kept_containers,
                text_beq_iff j key,
                text_beq_iff key j,
              ))
              v.known))
    ]

pub restore-IsScoped :
    (id : Text) (s : Scope) → IsScoped s → IsScoped (restore_connection_containers id s)
unfolding restore_connection_containers
restore-IsScoped id s v =
    let keep : Text → Bool = λ key. not (container_key_node_id key == id) in
    elim (Bool-cases (length (filterb keep s.hidden_containers) == length s.hidden_containers)) [
      | inl e ↦ rw e v
      | inr e ↦ rw e (
          render_nodes-IsScoped (record s { hidden_containers = filterb keep s.hidden_containers })
            (record {
              single = v.single;
              within = v.within;
              visible = λ key h.
                  ground (arith, v.visible key h, contains-filterb keep key s.hidden_containers);
              apart = λ key h.
                  ground (arith, v.apart key h, contains-filterb keep key s.hidden_containers);
              known = v.known;
            }))
    ]

pub clear_keep-IsScoped :
    (id : Text) (s : Scope) → IsScoped s → IsScoped (clear_connection_container_keep id s)
unfolding clear_connection_container_keep
clear_keep-IsScoped id s v =
    let keep : Text → Bool = λ key. not (container_key_node_id key == id) in
    elim (Bool-cases (length (filterb keep s.kept_containers) == length s.kept_containers)) [
      | inl e ↦ rw e v
      | inr e ↦ rw e (record {
        single = v.single;
        within = v.within;
        visible = v.visible;
        apart = λ key h. v.apart key (ground (arith, contains-filterb keep key s.kept_containers));
        known = v.known;
      })
    ]

pub toggle_keep-IsScoped :
    (key : Text) (s : Scope)
    → contains key s.hidden_containers ≡ false
    → IsScoped s
    → IsScoped (toggle_connection_container_keep key s)
unfolding toggle_connection_container_keep
toggle_keep-IsScoped [] s shown v = v
toggle_keep-IsScoped (c ∷ k) s shown v =
    let key : Text = c ∷ k in
    record {
      single = v.single;
      within = v.within;
      visible = v.visible;
      apart = λ j h. ground (
        arith,
        v.apart j,
        contains-append j s.kept_containers (key ∷ []),
        contains-filterb (λ value. not (value == key)) j s.kept_containers,
        text_beq_iff key j,
      );
      known = v.known;
    }

-- The dropped containers are of the node.
others_of-node :
    (id : Text) (kept hidden : List Text) (containers : List Container)
    → IsNodeId id
    → (key : Text) → contains key (others_of id kept hidden containers) ≡ true
    → (container_key_node_id key == id) ≡ true
unfolding others_of
others_of-node id kept hidden [] n key h = cc
others_of-node id kept hidden (container ∷ rest) n key h =
    let own = container_key id (or_text container.id container.name) in
    ground (
      arith,
      others_of-node id kept hidden rest n key,
      text_beq_iff own key,
      n (or_text container.id container.name),
      text_beq_iff (container_key_node_id key) id,
    )

pub remove_others-IsScoped :
    (id : Text) (s : Scope)
    → IsNodeId id
    → IsScoped s
    → IsScoped (remove_other_connection_containers id s)
unfolding remove_other_connection_containers
remove_others-IsScoped id s n v = on_node (get_node id s.nodes)
  where
    kept : List Text
    kept = filterb (λ key. container_key_node_id key == id) s.kept_containers

    others : Node → List Text
    others node = others_of id kept s.hidden_containers node.containers

    keep : Text → Bool
    keep key = not (container_key_node_id key == id)

    on_node :
        (found : Option Node)
        → IsScoped (elim found [
          | none ↦ s
          | some node ↦
              if is_empty kept
              then s
              else render_nodes
                  (drop_containers_from_scope (others node) (record s {
                    hidden_containers = s.hidden_containers ++ others node;
                    kept_containers = filterb keep s.kept_containers;
                  })).0
        ])
    on_node none = v
    on_node (some node) = elim (Bool-cases (is_empty kept)) [
      | inl p ↦ rw p v
      | inr p ↦ rw p (
          render_nodes-IsScoped _ (
            drop_containers_from_scope-IsScoped (others node)
              (record s {
                hidden_containers = s.hidden_containers ++ others node;
                kept_containers = filterb keep s.kept_containers;
              })
              v.single v.within
              (λ j h out.
                ground (arith, v.visible j h, contains-append j s.hidden_containers (others node)))
              (λ j h. ground (
                arith,
                v.apart j,
                contains-append j s.hidden_containers (others node),
                contains-filterb keep j s.kept_containers,
                others_of-node id kept s.hidden_containers node.containers n j,
              ))
              v.known))
    ]
