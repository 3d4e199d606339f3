-- ===== src/Scope/Invariant.antt =====
-- What every operation on the scope keeps, so that the log stream is never narrowed by something
-- that the sidebar does not show.
use log_agent.Prelude.{
  ◌≤◌, Bool, true, false, List, [], ◌∷◌, Text, ◌≡◌, refl, text_eq, filterb, is_empty, length, arith,
  Bool-cases, inl, inr, text_beq_iff, length-filterb, not, ◌==◌, nat_beq_iff, nat_eq,
}
use log_agent.Prelude.Members.{contains, beq_refl, contains-filterb}
use log_agent.Scope.{Scope}
use log_agent.Scope.Actions.{
  reset_view, is_known, render_nodes, of_nodes, drop_containers_from_scope,
}

pub record IsScoped (s : Scope) : Type 0 where
  -- with the switch off, at most one node is selected
  pub single : s.multi_select ≡ false → length s.selected_nodes ≤ 1
  -- a selected container belongs to a selected node
  pub within :
      (key : Text)
      → contains key s.selected_containers ≡ true
      → of_nodes s.selected_nodes key ≡ true
  -- a selected container is not hidden, and so is one that is ticked
  pub visible :
      (key : Text)
      → contains key s.selected_containers ≡ true
      → contains key s.hidden_containers ≡ false
  pub apart :
      (key : Text)
      → contains key s.kept_containers ≡ true
      → contains key s.hidden_containers ≡ false
  -- once there is a node list, the selected nodes are in it
  pub known :
      (id : Text)
      → is_empty s.nodes ≡ false
      → contains id s.selected_nodes ≡ true
      → is_known s.nodes id ≡ true

pub filterb_all :
    (p : Text → Bool) (xs : List Text)
    → ((x : Text) → contains x xs ≡ true → p x ≡ true)
    → filterb p xs ≡ xs
filterb_all p [] h = refl
filterb_all p (x ∷ xs) h =
    ground (arith, h x, beq_refl x, filterb_all p xs (λ y k. ground (arith, h y)))

pub render_nodes-selected :
    (s : Scope) → IsScoped s → (render_nodes s).selected_nodes ≡ s.selected_nodes
unfolding render_nodes
render_nodes-selected s v = elim (Bool-cases (is_empty s.nodes)) [
  | inl p ↦ rw p
  | inr p ↦ rw p (filterb_all (is_known s.nodes) s.selected_nodes (λ id h. v.known id p h))
]

pub render_nodes-IsScoped : (s : Scope) → IsScoped s → IsScoped (render_nodes s)
unfolding render_nodes
render_nodes-IsScoped s v =
    let same = render_nodes-selected s v in
    record {
      single = λ m. rw same (v.single m);
      within = λ key h. rw same (v.within key h);
      visible = v.visible;
      apart = v.apart;
      known = λ id e h. v.known id e (rw same at h);
    }

pub reset_view-IsScoped : (s : Scope) → IsScoped s → IsScoped (reset_view s)
unfolding reset_view
reset_view-IsScoped s v = record {
  single = v.single;
  within = v.within;
  visible = v.visible;
  apart = v.apart;
  known = v.known;
}

filterb_full :
    (p : Text → Bool) (xs : List Text)
    → length (filterb p xs) ≡ length xs
    → (x : Text) → contains x xs ≡ true
    → p x ≡ true
filterb_full p [] e x h = cc
filterb_full p (y ∷ ys) e x h = elim (Bool-cases (p y)) [
  | inl py ↦
      let rest = filterb_full p ys (ground (arith, e, py)) x in
      ground (arith, py, text_beq_iff y x, rest)
  | inr py ↦ absurd (ground (arith, e, py, length-filterb p ys))
]

-- Dropping from the scope what has just been hidden.
pub drop_containers_from_scope-IsScoped :
    (dropped : List Text) (s : Scope)
    → (s.multi_select ≡ false → length s.selected_nodes ≤ 1)
    → ((key : Text)
        → contains key s.selected_containers ≡ true
        → of_nodes s.selected_nodes key ≡ true)
    → ((key : Text)
        → contains key s.selected_containers ≡ true
        → contains key dropped ≡ false
        → contains key s.hidden_containers ≡ false)
    → ((key : Text)
        → contains key s.kept_containers ≡ true
        → contains key s.hidden_containers ≡ false)
    → ((id : Text)
        → is_empty s.nodes ≡ false
        → contains id s.selected_nodes ≡ true
        → is_known s.nodes id ≡ true)
    → IsScoped (drop_containers_from_scope dropped s).0
unfolding drop_containers_from_scope
drop_containers_from_scope-IsScoped [] s single within visible apart known = record {
  single = single;
  within = within;
  visible = λ key h. visible key h refl;
  apart = apart;
  known = known;
}
drop_containers_from_scope-IsScoped (k ∷ ks) s single within visible apart known =
    let out : Text → Bool = λ value. not (contains value (k ∷ ks)) in
    elim (Bool-cases (length (filterb out s.selected_containers) == length s.selected_containers)) [
      | inl e ↦ rw e (record {
        single = single;
        within = within;
        visible = λ key h.
            visible key h (
              ground (arith, filterb_full out s.selected_containers ((nat_beq_iff _ _).0 e) key h));
        apart = apart;
        known = known;
      })
      | inr e ↦ rw e (
          reset_view-IsScoped (record s { selected_containers = filterb out s.selected_containers })
            (record {
              single = single;
              within = λ key h.
                  within key (ground (arith, contains-filterb out key s.selected_containers));
              visible = λ key h.
                  visible key (ground (arith, contains-filterb out key s.selected_containers))
                    (ground (arith, contains-filterb out key s.selected_containers));
              apart = apart;
              known = known;
            }))
    ]
