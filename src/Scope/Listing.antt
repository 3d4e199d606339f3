-- ===== src/Scope/Listing.antt =====
-- The changes of the list of nodes keep the invariant of the scope.
use log_agent.Prelude.{
  ℕ, Bool, true, false, not, ◌||◌, List, [], ◌∷◌, ◌++◌, some, Text, text_eq, text_beq_iff,
  nat_beq_iff, ◌==◌, ◌≡◌, ◌≢◌, refl, ap, ◌∙◌, arith, is_empty, length-filterb, take, Bool-cases,
  Option-cases, inl, inr, ◌⊎◌,
}
use log_agent.Prelude.Members.{contains-filterb}
use log_agent.Prelude.Sort.{sort_by, insert_by}
use log_agent.Prelude.Texts.{starts_with, index_of}
use log_agent.Scope.{get_node, Scope, Node, separator, container_key_node_id}
use log_agent.Scope.Actions.{is_known}
use log_agent.Scope.Invariant.{IsScoped, render_nodes-IsScoped}
use log_agent.Scope.Nodes.{
  with_node, put_node, without_node, unbind_node, rank, no_later, apply_node_order, order_nodes,
}

with_node-known :
    (node : Node) (nodes : List Node) (id : Text)
    → is_known nodes id ≡ true
    → is_known (with_node node nodes) id ≡ true
unfolding with_node get_node
with_node-known node [] id h = cc
with_node-known node (other ∷ nodes) id h =
    ground (arith, h, with_node-known node nodes id, text_beq_iff other.id node.id)

pub put_node-IsScoped :
    (node : Node) (s : Scope)
    → (is_empty s.nodes ≡ false) ⊎ (s.selected_nodes ≡ [])
    → IsScoped s
    → IsScoped (put_node node s)
unfolding put_node
put_node-IsScoped node s listed v = render_nodes-IsScoped _ (record {
  single = v.single;
  within = v.within;
  visible = v.visible;
  apart = v.apart;
  known = λ id e h. elim listed [
    | inl there ↦ with_node-known node s.nodes id (v.known id there h)
    | inr none_selected ↦ absurd (ground (arith, h, none_selected))
  ];
})

without_node-known :
    (gone : Text) (nodes : List Node) (id : Text)
    → (id == gone) ≡ false
    → is_known nodes id ≡ true
    → is_known (without_node gone nodes) id ≡ true
unfolding without_node get_node
without_node-known gone [] id other h = h
without_node-known gone (node ∷ nodes) id other h = ground (
  arith,
  h,
  other,
  without_node-known gone nodes id other,
  text_beq_iff node.id gone,
  text_beq_iff node.id id,
  text_beq_iff id gone,
)

-- What a needle is found behind, and the needle, begin the text.
begins_with :
    (key : Text) (at : ℕ)
    → index_of separator key ≡ some at
    → starts_with (take at key ++ separator) key ≡ true
unfolding index_of
begins_with [] at e = cc
begins_with (c ∷ text) at e = elim (Bool-cases (starts_with separator (c ∷ text))) [
  | inl here ↦ ground (arith, e, here)
  | inr later ↦ elim (Option-cases (index_of separator text)) [
    | inl f ↦ absurd (ground (arith, e, later, f))
    | inr (i, f) ↦ ground (arith, e, later, f, begins_with text i f, starts_with, nat_beq_iff c c)
  ]
]

-- A key that does not begin with a node's id and the separator is not of this node.
other_node :
    (id key : Text)
    → id ≢ []
    → starts_with (id ++ separator) key ≡ false
    → (container_key_node_id key == id) ≡ false
unfolding container_key_node_id
other_node id key named h = elim (Option-cases (index_of separator key)) [
  | inl e ↦ rw (container_key_node_id, e) (ground (arith, named, text_beq_iff [] id))
  | inr (at, e) ↦
      rw (container_key_node_id, e)
        (ground (arith, h, begins_with key at e, text_beq_iff (take at key) id))
]

pub unbind_node-IsScoped :
    (id : Text) (s : Scope) → id ≢ [] → IsScoped s → IsScoped (unbind_node id s)
unfolding unbind_node
unbind_node-IsScoped id s named v =
    let other : Text → Bool = λ x. not (x == id) in
    let stays : Text → Bool = λ value. not (starts_with (id ++ separator) value) in
    render_nodes-IsScoped _ (record {
      single = λ m. omega (arith, v.single m, length-filterb other s.selected_nodes);
      within = λ key h. ground (
        arith,
        h,
        v.within key,
        other_node id key named,
        contains-filterb stays key s.selected_containers,
        contains-filterb other (container_key_node_id key) s.selected_nodes,
      );
      visible = λ key h.
          v.visible key (ground (arith, h, contains-filterb stays key s.selected_containers));
      apart = v.apart;
      known = λ x e h.
          without_node-known id s.nodes x
            (ground (arith, h, contains-filterb other x s.selected_nodes))
            (v.known x (listed s.nodes e)
              (ground (arith, h, contains-filterb other x s.selected_nodes)));
    })
  where
    listed : (nodes : List Node) → is_empty (without_node id nodes) ≡ false → is_empty nodes ≡ false
    listed [] h = h
    listed (node ∷ nodes) h = refl

module _ (le : Node → Node → Bool) where
  insert_by-known :
      (node : Node) (nodes : List Node) (id : Text)
      → is_known (insert_by le node nodes) id ≡ (node.id == id || is_known nodes id)
  unfolding insert_by get_node
  insert_by-known node [] id = ground arith
  insert_by-known node (first ∷ rest) id = ground (arith, insert_by-known node rest id)

  sort_by-known :
      (nodes : List Node) (id : Text) → is_known (sort_by le nodes) id ≡ is_known nodes id
  unfolding sort_by get_node
  sort_by-known [] id = refl
  sort_by-known (node ∷ nodes) id =
      insert_by-known node (sort_by le nodes) id
      ∙ ap (λ b. (node.id == id) || b) (sort_by-known nodes id)
      ∙ ground arith

  is_empty-insert_by :
      (node : Node) (nodes : List Node) → is_empty (insert_by le node nodes) ≡ false
  unfolding insert_by
  is_empty-insert_by node [] = refl
  is_empty-insert_by node (first ∷ rest) = ground arith

  sorted_listed : (nodes : List Node) → is_empty (sort_by le nodes) ≡ false → is_empty nodes ≡ false
  unfolding sort_by
  sorted_listed [] h = h
  sorted_listed (node ∷ nodes) h = refl

pub order_nodes-IsScoped :
    (order : List Text) (s : Scope) → IsScoped s → IsScoped (order_nodes order s)
unfolding order_nodes apply_node_order
order_nodes-IsScoped order s v =
    let le : Node → Node → Bool = λ a b. no_later (rank 0 a.id order) (rank 0 b.id order) in
    render_nodes-IsScoped _ (record {
      single = v.single;
      within = v.within;
      visible = v.visible;
      apart = v.apart;
      known = λ id e h. sort_by-known le s.nodes id ∙ v.known id (sorted_listed le s.nodes e) h;
    })
