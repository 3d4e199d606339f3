-- ===== src/Scope/Sidebar.antt =====
-- The sidebar's operations, and a refresh of the node list, keep the invariant of the scope.
use log_agent.Prelude.{
  Bool, true, false, not, List, [], ◌∷◌, ◌++◌, Text, ◌≡◌, ◌==◌, text_eq, text_beq_iff, filterb,
  length, arith, Bool-cases, inl, inr, nat_eq, ◌&&◌, ltb, take, length-take, if◌then◌else◌, ◌⊎◌,
  length-filterb, ◌||◌,
}
use log_agent.Prelude.Members.{contains, contains-append, contains-filterb, contains-take, beq_refl}
use log_agent.Prelude.{length-take}
use log_agent.Scope.{Scope, Node, container_key, container_key_node_id}
use log_agent.Scope.Actions.{is_known, of_nodes}
use log_agent.Scope.Clicks.{
  set_multi_select, click_node, click_container, sync_nodes, node_clicked, expand, add_to_set,
  to_set,
}
use log_agent.Scope.Invariant.{IsScoped, render_nodes-IsScoped, reset_view-IsScoped}
use log_agent.Scope.Manager.{IsNodeId}

pub multi-IsScoped : (next : Bool) (s : Scope) → IsScoped s → IsScoped (set_multi_select next s)
unfolding set_multi_select
multi-IsScoped next s v = elim (Bool-cases (not next && ltb 1 (length s.selected_nodes))) [
  | inl e ↦ rw e (
      render_nodes-IsScoped _ (
        reset_view-IsScoped
          (record s {
            multi_select = next;
            selected_nodes = take 1 s.selected_nodes;
            selected_containers =
                filterb (of_nodes (take 1 s.selected_nodes)) s.selected_containers;
          })
          (record {
            single = λ m. omega (arith, length-take {0} 1 s.selected_nodes);
            within = λ key h. ground (
              arith,
              contains-filterb (of_nodes (take 1 s.selected_nodes)) key s.selected_containers,
            );
            visible = λ key h. v.visible key (
                ground (
                  arith,
                  contains-filterb (of_nodes (take 1 s.selected_nodes)) key s.selected_containers,
                ));
            apart = v.apart;
            known = λ id e h. v.known id e (ground (arith, contains-take 1 id s.selected_nodes));
          })))
  | inr e ↦ rw e (record {
    single = λ m. ground (arith, e, m);
    within = v.within;
    visible = v.visible;
    apart = v.apart;
    known = v.known;
  })
]

pub node_clicked-IsScoped :
    (id : Text) (s : Scope) → is_known s.nodes id ≡ true → IsScoped s → IsScoped (node_clicked id s)
unfolding node_clicked
node_clicked-IsScoped id s listed v =
    let left : List Text = filterb (λ x. not (x == id)) s.selected_nodes in
    elim (Bool-cases (s.multi_select && contains id s.selected_nodes)) [
      | inl e ↦ rw e (record {
        single = λ m. ground (arith, e, m);
        within =
            λ key h. ground (arith, contains-filterb (of_nodes left) key s.selected_containers);
        visible = λ key h.
            v.visible key
              (ground (arith, contains-filterb (of_nodes left) key s.selected_containers));
        apart = v.apart;
        known = λ x e' h.
            v.known x e' (ground (arith, contains-filterb (λ x. not (x == id)) x s.selected_nodes));
      })
      | inr e ↦ rw e (record {
        single = λ m. ground (arith, m);
        within = λ key h. ground (
          arith,
          v.within key,
          contains-append (container_key_node_id key) s.selected_nodes (id ∷ []),
        );
        visible = λ key h. ground (arith, v.visible key);
        apart = v.apart;
        known = λ x e' h. ground (
          arith,
          v.known x e',
          listed,
          text_beq_iff id x,
          contains-append x s.selected_nodes (id ∷ []),
        );
      })
    ]

pub click-IsScoped :
    (id : Text) (s : Scope) → is_known s.nodes id ≡ true → IsScoped s → IsScoped (click_node id s)
unfolding click_node
click-IsScoped id s listed v =
    let t = node_clicked id s in
    let w = node_clicked-IsScoped id s listed v in
    render_nodes-IsScoped _ (
      reset_view-IsScoped (record t { expanded_nodes = expand id t.expanded_nodes })
        (record {
          single = w.single;
          within = w.within;
          visible = w.visible;
          apart = w.apart;
          known = w.known;
        }))

contains-to_set :
    (x : Text) (seen ids : List Text)
    → contains x (to_set seen ids) ≡ (contains x seen || contains x ids)
unfolding to_set
contains-to_set x seen [] = ground arith
contains-to_set x seen (id ∷ ids) = ground (
  arith,
  contains-to_set x (expand id seen) ids,
  contains-append x seen (id ∷ []),
  text_beq_iff id x,
)

contains-add_to_set :
    (id x : Text) (ids : List Text) → contains x (add_to_set id ids) ≡ (contains x ids || id == x)
contains-add_to_set id x ids =
    ground (arith, contains-to_set x [] (ids ++ id ∷ []), contains-append x ids (id ∷ []))

pub pick-IsScoped :
    (id container_id : Text) (s : Scope)
    → (is_known s.nodes id ≡ true)
      × IsNodeId id
      × (contains (container_key id container_id) s.hidden_containers ≡ false)
    → IsScoped s
    → IsScoped (click_container id container_id s)
unfolding click_container
pick-IsScoped id container_id s (listed, own, shown) v = render_nodes-IsScoped _ (
    reset_view-IsScoped
      (record s {
        selected_containers = if not s.multi_select then filterb same toggled else toggled;
        selected_nodes = if s.multi_select then add_to_set id s.selected_nodes else id ∷ [];
        expanded_nodes = expand id s.expanded_nodes;
      })
      (record {
        single = λ m. ground (arith, m);
        within = λ key h. ground (
          arith,
          from_toggled key,
          v.within key,
          own container_id,
          beq_refl id,
          contains-filterb same key toggled,
          text_beq_iff k key,
          contains-add_to_set id (container_key_node_id key) s.selected_nodes,
          text_beq_iff (container_key_node_id key) id,
          text_beq_iff id (container_key_node_id key),
        );
        visible = λ key h. ground (
          arith,
          from_toggled key,
          v.visible key,
          shown,
          text_beq_iff k key,
          contains-filterb same key toggled,
        );
        apart = v.apart;
        known = λ x e h. ground (
          arith,
          v.known x e,
          listed,
          text_beq_iff id x,
          contains-add_to_set id x s.selected_nodes,
        );
      }))
  where
    k : Text
    k = container_key id container_id

    same : Text → Bool
    same value = container_key_node_id value == id

    toggled : List Text
    toggled =
        if contains k s.selected_containers
        then filterb (λ value. not (value == k)) s.selected_containers
        else s.selected_containers ++ k ∷ []

    from_toggled :
        (key : Text)
        → contains key toggled ≡ true
        → (contains key s.selected_containers ≡ true) ⊎ (k == key) ≡ true
    from_toggled key h = ground (
      arith,
      contains-append key s.selected_containers (k ∷ []),
      contains-filterb (λ value. not (value == k)) key s.selected_containers,
    )

pub sync-IsScoped : (nodes : List Node) (s : Scope) → IsScoped s → IsScoped (sync_nodes nodes s)
unfolding sync_nodes
sync-IsScoped nodes s v =
    let selected = filterb (is_known nodes) s.selected_nodes in
    render_nodes-IsScoped _ (record {
      single = λ m. omega (arith, v.single m, length-filterb (is_known nodes) s.selected_nodes);
      within =
          λ key h. ground (arith, contains-filterb (of_nodes selected) key s.selected_containers);
      visible = λ key h.
          v.visible key
            (ground (arith, contains-filterb (of_nodes selected) key s.selected_containers));
      apart = v.apart;
      known = λ x e h. ground (arith, contains-filterb (is_known nodes) x s.selected_nodes);
    })
