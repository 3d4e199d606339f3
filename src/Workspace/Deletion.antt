-- ===== src/Workspace/Deletion.antt =====
-- What holds after a flow or a group leaves the workspace, or changes in place.
use log_agent.Prelude.{
  ℕ, ◌-◌, ◌≤◌, leb, Bool, false, not, ◌&&◌, ◌||◌, List, [], Option, none, some, Text, text_eq,
  nat_eq, ◌≡◌, refl, arith, inl, inr, filterb, length, Bool-cases, get_elem?, is_empty,
}
use log_agent.Commands.{Flow}
use log_agent.Workspace.{
  Workspace, Group, Place, all_command_flows, command_flow_container, has_flow, flow_index,
  edit_place, flows_at, remove_idx, id_found, delete_at, delete_in, delete_active_flow, update_flow,
  bound, bind_server_to_flow, is_server, is_running,
}
use log_agent.Workspace.Groups.{
  fix_active, reorder_flows, reorder_in, reorder_member, remove_from, remove_member, delete_found,
  delete_group, not_id, not_group, group_index, command_group, choose_member_server,
  is_running_group, any_running, is_target,
}
use log_agent.Workspace.Count.{
  count_groups, count_all, count_id-remove_idx_le, count_id-filterb, count_groups-filterb,
  count_groups-edit_group_le,
}
use log_agent.Workspace.Removal.{
  count_groups-edit_group_same, count_all-update_flow, count_id-reorder_flows, count_id-flows_at,
  count_all-edit_place_le, id_found-there, remove_idx-not_empty, update_in-not_empty,
}
use log_agent.Workspace.Invariant.{IsWorkspace, kept-IsWorkspace, fix_active-there}
use log_agent.Workspace.Insertion.{same-IsWorkspace}

remove_at-IsWorkspace :
    (p : Place) (i : ℕ) (w : Workspace)
    → IsWorkspace w
    → is_empty (edit_place p (λ flows. remove_idx flows i) w).flows ≡ false
    → IsWorkspace (delete_at p (some i) w)
unfolding delete_at
remove_at-IsWorkspace p i w h full =
    let v = edit_place p (λ flows. remove_idx flows i) w in
    let named = id_found (get_elem? (flows_at p v) (i - 1)) v.flows v.active_flow_id in
    kept-IsWorkspace w (record v { active_flow_id = named }) h
      (λ id.
        count_all-edit_place_le id p (λ flows. remove_idx flows i) w
          (λ xs. count_id-remove_idx_le id xs i))
      full
      (elim (id_found-there (i - 1) (get_elem? (flows_at p v) (i - 1)) (flows_at p v) v.flows
        v.active_flow_id refl full) [
          | inl e ↦ omega (arith, e, count_id-flows_at named p v)
          | inr e ↦ omega (arith, e)
        ])

delete_at-IsWorkspace :
    (p : Place) (at : Option ℕ) (w : Workspace)
    → IsWorkspace w
    → ((i : ℕ) → is_empty (edit_place p (λ flows. remove_idx flows i) w).flows ≡ false)
    → IsWorkspace (delete_at p at w)
unfolding delete_at
delete_at-IsWorkspace p none w h full = h
delete_at-IsWorkspace p (some i) w h full = remove_at-IsWorkspace p i w h (full i)

delete_in-IsWorkspace :
    (p : Option Place) (w : Workspace) → IsWorkspace w → IsWorkspace (delete_in p w)
unfolding delete_in
delete_in-IsWorkspace none w h = h
delete_in-IsWorkspace (some Place.main) w h =
    elim (Bool-cases (is_running w.active_flow_id w || leb (length w.flows) 1)) [
      | inl e ↦ rw e h
      | inr e ↦ rw e (
          delete_at-IsWorkspace Place.main (flow_index w.active_flow_id w.flows) w h
            (λ i. remove_idx-not_empty w.flows i (ground (arith, e))))
    ]
delete_in-IsWorkspace (some (Place.in_group k)) w h =
    elim (Bool-cases (is_running w.active_flow_id w)) [
      | inl e ↦ rw e h
      | inr e ↦ rw e (
          delete_at-IsWorkspace (Place.in_group k)
            (flow_index w.active_flow_id (flows_at (Place.in_group k) w)) w h (λ i. h.some_flow))
    ]

pub delete_active-IsWorkspace : (w : Workspace) → IsWorkspace w → IsWorkspace (delete_active_flow w)
unfolding delete_active_flow
delete_active-IsWorkspace w h =
    delete_in-IsWorkspace (command_flow_container w.active_flow_id w) w h

-- `fix_active` changes neither list.
fix_active-count_id : (id : Text) (w : Workspace) → count_all id (fix_active w) ≡ count_all id w
unfolding fix_active
fix_active-count_id id w = elim (Bool-cases (has_flow w.active_flow_id (all_command_flows w))) [
  | inl e ↦ rw e refl
  | inr e ↦ rw e refl
]

fix_active-flows : (w : Workspace) → (fix_active w).flows ≡ w.flows
unfolding fix_active
fix_active-flows w = elim (Bool-cases (has_flow w.active_flow_id (all_command_flows w))) [
  | inl e ↦ rw e refl
  | inr e ↦ rw e refl
]

-- Groups lose flows, and the active flow is looked for.
fix_active-IsWorkspace :
    (groups : List Group) (w : Workspace)
    → IsWorkspace w
    → ((id : Text) → count_groups id groups ≤ count_groups id w.groups)
    → IsWorkspace (fix_active (record w { groups = groups }))
fix_active-IsWorkspace groups w h counts =
    let v = record w { groups = groups } in
    kept-IsWorkspace w (fix_active v) h (λ id. omega (arith, fix_active-count_id id v, counts id))
      (rw (fix_active-flows v) h.some_flow) (fix_active-there v h.some_flow)

remove_from-IsWorkspace :
    (group_id flow_id : Text) (at : Option ℕ) (w : Workspace)
    → IsWorkspace w
    → IsWorkspace (remove_from group_id flow_id at w)
unfolding remove_from
remove_from-IsWorkspace group_id flow_id none w h = h
remove_from-IsWorkspace group_id flow_id (some k) w h =
    elim (Bool-cases (is_running_group group_id w || is_running flow_id w)) [
      | inl e ↦ rw e h
      | inr e ↦ rw e (
          fix_active-IsWorkspace _ w h (λ id.
            count_groups-edit_group_le id k (filterb (not_id flow_id)) w.groups
              (count_id-filterb id (not_id flow_id))))
    ]

pub remove_member-IsWorkspace :
    (group_id flow_id : Text) (w : Workspace)
    → IsWorkspace w
    → IsWorkspace (remove_member group_id flow_id w)
unfolding remove_member
remove_member-IsWorkspace group_id flow_id w h =
    remove_from-IsWorkspace group_id flow_id (group_index group_id w.groups) w h

delete_found-IsWorkspace :
    (group_id : Text) (confirmed : Bool) (found : Option Group) (w : Workspace)
    → IsWorkspace w
    → IsWorkspace (delete_found group_id confirmed found w)
unfolding delete_found
delete_found-IsWorkspace group_id confirmed none w h = h
delete_found-IsWorkspace group_id confirmed (some g) w h =
    elim (Bool-cases (
      (not (is_empty g.flows) && not confirmed)
      || (is_running_group group_id w || any_running g.flows w))) [
        | inl e ↦ rw e h
        | inr e ↦ rw e (
            fix_active-IsWorkspace _ w h
              (λ id. count_groups-filterb id (not_group group_id) w.groups))
      ]

pub delete_group-IsWorkspace :
    (group_id : Text) (confirmed : Bool) (w : Workspace)
    → IsWorkspace w
    → IsWorkspace (delete_group group_id confirmed w)
unfolding delete_group
delete_group-IsWorkspace group_id confirmed w h =
    delete_found-IsWorkspace group_id confirmed (command_group group_id w) w h

reorder_in-IsWorkspace :
    (flow_id : Text) (target : Option Text) (at : Option ℕ) (w : Workspace)
    → IsWorkspace w
    → IsWorkspace (reorder_in flow_id target at w)
unfolding reorder_in
reorder_in-IsWorkspace flow_id target none w h = h
reorder_in-IsWorkspace flow_id target (some k) w h = elim (Bool-cases (is_target flow_id target)) [
  | inl e ↦ rw e h
  | inr e ↦ rw e (
      same-IsWorkspace w _ h
        (λ id. omega (
          arith,
          count_groups-edit_group_same id k (reorder_flows flow_id target) w.groups
              (count_id-reorder_flows id flow_id target),
        ))
        h.some_flow refl)
]

pub reorder-IsWorkspace :
    (group_id flow_id : Text) (target : Option Text) (w : Workspace)
    → IsWorkspace w
    → IsWorkspace (reorder_member group_id flow_id target w)
unfolding reorder_member
reorder-IsWorkspace group_id flow_id target w h =
    reorder_in-IsWorkspace flow_id target (group_index group_id w.groups) w h

update_flow-active :
    (key : Text) (f : Flow → Flow) (w : Workspace)
    → (update_flow key f w).active_flow_id ≡ w.active_flow_id
update_flow-active key f w = elim (Bool-cases (has_flow key w.flows)) [
  | inl e ↦ rw e refl
  | inr e ↦ rw e refl
]

update_flow-full :
    (key : Text) (f : Flow → Flow) (w : Workspace)
    → is_empty w.flows ≡ false
    → is_empty (update_flow key f w).flows ≡ false
update_flow-full key f w full = elim (Bool-cases (has_flow key w.flows)) [
  | inl e ↦ rw e (update_in-not_empty key f w.flows full)
  | inr e ↦ rw e full
]

update_flow-IsWorkspace :
    (key : Text) (f : Flow → Flow) (w : Workspace)
    → ((flow : Flow) → (f flow).id ≡ flow.id)
    → IsWorkspace w
    → IsWorkspace (update_flow key f w)
update_flow-IsWorkspace key f w same h =
    same-IsWorkspace w (update_flow key f w) h (λ id. count_all-update_flow id key f w same)
      (update_flow-full key f w h.some_flow) (update_flow-active key f w)

pub bind-IsWorkspace :
    (flow_id server_id : Text) (w : Workspace)
    → IsWorkspace w
    → IsWorkspace (bind_server_to_flow flow_id server_id w)
unfolding bind_server_to_flow
bind-IsWorkspace flow_id server_id w h =
    elim (Bool-cases (
      not (has_flow flow_id (all_command_flows w))
      || (not (is_server server_id w) || is_running flow_id w))) [
        | inl e ↦ rw e h
        | inr e ↦ rw e (update_flow-IsWorkspace flow_id (bound server_id) w (λ flow. refl) h)
      ]

pub choose-IsWorkspace :
    (flow_id server_id : Text) (w : Workspace)
    → IsWorkspace w
    → IsWorkspace (choose_member_server flow_id server_id w)
unfolding choose_member_server
choose-IsWorkspace flow_id server_id w h = elim (Bool-cases (is_empty server_id)) [
  | inr e ↦ rw e (bind-IsWorkspace flow_id server_id w h)
  | inl e ↦ rw e (elim (Bool-cases (has_flow flow_id (all_command_flows w))) [
    | inl f ↦ rw f (
        update_flow-IsWorkspace flow_id (λ flow. record flow { server_id = [] }) w (λ flow. refl) h)
    | inr f ↦ rw f h
  ])
]
