-- ===== src/Workspace/Insertion.antt =====
-- What holds after a flow or a group comes into the workspace.
use log_agent.Prelude.{
  ℕ, zero, suc, false, List, [], ◌∷◌, ◌++◌, Option, none, some, Text, text_eq, nat_eq, ◌==◌, ◌≡◌,
  refl, arith, inl, inr, is_empty,
}
use log_agent.Commands.{no_host, Flow}
use log_agent.Workspace.{
  Workspace, Group, Place, find_command_flow, command_flow_container, flow_index, edit_group,
  edit_place, with_flows, insert_behind, behind, put_copy, duplicate_command_flow, add_flow,
  clone_command_flow, new_line,
}
use log_agent.Workspace.Groups.{
  insert_before, before_at, open_with, group_index, create_command_group, put_into_group,
  copy_flow_into_group, pasted_flow, paste_place, open_place, paste_at, paste_command_flow,
}
use log_agent.Workspace.Count.{
  count_groups, count_all, count_id-append, count_groups-append, find_index-get_elem?,
  insert_idx-not_empty,
}
use log_agent.Workspace.Invariant.{
  IsWorkspace, inserted-IsWorkspace, kept-IsWorkspace, IsPlace, command_flow_container-IsPlace,
  count_all-edit_place, count_id-insert_behind, count_id-insert_before,
}

-- Nothing changes but the order, and the active flow is as before.
pub same-IsWorkspace :
    (w v : Workspace)
    → IsWorkspace w
    → ((id : Text) → count_all id v ≡ count_all id w)
    → is_empty v.flows ≡ false
    → v.active_flow_id ≡ w.active_flow_id
    → IsWorkspace v
same-IsWorkspace w v h counts full e =
    kept-IsWorkspace w v h (λ id. omega (arith, counts id)) full
      (rw e (omega (arith, counts w.active_flow_id, h.active)))

full-edit_place :
    (p : Place) (f : List Flow → List Flow) (w : Workspace)
    → ((xs : List Flow) → is_empty (f xs) ≡ false)
    → is_empty w.flows ≡ false
    → is_empty (edit_place p f w).flows ≡ false
full-edit_place Place.main f w h full = h w.flows
full-edit_place (Place.in_group k) f w h full = full

insert_behind-not_empty :
    (id : Text) (y : Flow) (xs : List Flow) → is_empty (insert_behind id y xs) ≡ false
unfolding insert_behind
insert_behind-not_empty id y xs = insert_idx-not_empty xs (behind (flow_index id xs) xs) y

put_copy-IsWorkspace :
    (source : Option Flow) (place : Option Place) (flow_id new_id : Text) (name : Text → Text)
    (w : Workspace)
    → ((p : Place) → place ≡ some p → IsPlace p w)
    → IsWorkspace w
    → count_all new_id w ≡ 0
    → IsWorkspace (put_copy source place flow_id new_id name w)
unfolding put_copy clone_command_flow
put_copy-IsWorkspace none place flow_id new_id name w placed h fresh = h
put_copy-IsWorkspace (some source) none flow_id new_id name w placed h fresh = h
put_copy-IsWorkspace (some source) (some p) flow_id new_id name w placed h fresh =
    let copy = clone_command_flow new_id source (name source.name) in
    inserted-IsWorkspace w _ new_id h fresh
      (λ id.
        count_all-edit_place id new_id p (insert_behind flow_id copy) w (placed p refl)
          (count_id-insert_behind id flow_id copy))
      (full-edit_place p (insert_behind flow_id copy) w (insert_behind-not_empty flow_id copy)
        h.some_flow)
      (inl refl)

pub duplicate-IsWorkspace :
    (flow_id new_id : Text) (name : Text → Text) (w : Workspace)
    → IsWorkspace w
    → count_all new_id w ≡ 0
    → IsWorkspace (duplicate_command_flow flow_id new_id name w)
unfolding duplicate_command_flow
duplicate-IsWorkspace flow_id new_id name w h fresh =
    put_copy-IsWorkspace (find_command_flow flow_id w) (command_flow_container flow_id w) flow_id
      new_id name w (command_flow_container-IsPlace flow_id w) h fresh

insert_before-not_empty :
    (id : Text) (y : Flow) (xs : List Flow) → is_empty (insert_before id y xs) ≡ false
unfolding insert_before
insert_before-not_empty id y xs = insert_idx-not_empty xs (before_at (flow_index id xs) xs) y

count_groups-open_with :
    (id : Text) (k : ℕ) (f : List Flow → List Flow) (groups : List Group)
    → count_groups id (edit_group k (open_with f) groups)
      ≡ count_groups id (edit_group k (with_flows f) groups)
count_groups-open_with id k f [] = refl
count_groups-open_with id zero f (g ∷ groups) = refl
count_groups-open_with id (suc k) f (g ∷ groups) =
    omega (arith, count_groups-open_with id k f groups)

count_groups-open :
    (id : Text) (k : ℕ) (groups : List Group)
    → count_groups id (edit_group k (λ (g : Group). record g { collapsed = false }) groups)
      ≡ count_groups id groups
count_groups-open id k [] = refl
count_groups-open id zero (g ∷ groups) = refl
count_groups-open id (suc k) (g ∷ groups) = omega (arith, count_groups-open id k groups)

count_all-open_place :
    (id : Text) (p : Place) (w : Workspace) → count_all id (open_place p w) ≡ count_all id w
count_all-open_place id Place.main w = refl
count_all-open_place id (Place.in_group k) w = omega (arith, count_groups-open id k w.groups)

put_into_group-IsWorkspace :
    (source : Option Flow) (at : Option ℕ) (new_id before : Text) (w : Workspace)
    → ((k : ℕ) → at ≡ some k → IsPlace (Place.in_group k) w)
    → IsWorkspace w
    → count_all new_id w ≡ 0
    → IsWorkspace (put_into_group source at new_id before w)
unfolding put_into_group clone_command_flow
put_into_group-IsWorkspace none at new_id before w placed h fresh = h
put_into_group-IsWorkspace (some source) none new_id before w placed h fresh = h
put_into_group-IsWorkspace (some source) (some k) new_id before w placed h fresh =
    let copy = clone_command_flow new_id source source.name in
    inserted-IsWorkspace w _ new_id h fresh
      (λ id. omega (
        arith,
        count_groups-open_with id k (insert_before before copy) w.groups,
        count_all-edit_place id new_id (Place.in_group k) (insert_before before copy) w
            (placed k refl) (count_id-insert_before id before copy),
      ))
      h.some_flow (inr refl)

pub copy_into-IsWorkspace :
    (new_id flow_id group_id before : Text) (w : Workspace)
    → IsWorkspace w
    → count_all new_id w ≡ 0
    → IsWorkspace (copy_flow_into_group new_id flow_id group_id before w)
unfolding copy_flow_into_group
copy_into-IsWorkspace new_id flow_id group_id before w h fresh =
    put_into_group-IsWorkspace (find_command_flow flow_id w) (group_index group_id w.groups) new_id
      before w (λ k e. find_index-get_elem? (λ (g : Group). g.id == group_id) w.groups k e) h fresh

open_place-flows : (p : Place) (w : Workspace) → (open_place p w).flows ≡ w.flows
open_place-flows Place.main w = refl
open_place-flows (Place.in_group k) w = refl

paste_at-IsWorkspace :
    (p : Place) (copy : Flow) (w : Workspace)
    → IsPlace p w
    → IsWorkspace w
    → count_all copy.id w ≡ 0
    → IsWorkspace (paste_at p copy w)
unfolding paste_at
paste_at-IsWorkspace p copy w placed h fresh =
    let v = edit_place p (insert_behind w.active_flow_id copy) w in
    inserted-IsWorkspace w _ copy.id h fresh
      (λ id. omega (
        arith,
        count_all-open_place id p v,
        count_all-edit_place id copy.id p (insert_behind w.active_flow_id copy) w placed
            (count_id-insert_behind id w.active_flow_id copy),
      ))
      (rw (open_place-flows p v) (
        full-edit_place p (insert_behind w.active_flow_id copy) w
          (insert_behind-not_empty w.active_flow_id copy) h.some_flow))
      (inl refl)

paste_place-IsPlace :
    (group : Option ℕ) (w : Workspace)
    → ((k : ℕ) → group ≡ some k → IsPlace (Place.in_group k) w)
    → IsPlace (paste_place group) w
paste_place-IsPlace none w placed = tt
paste_place-IsPlace (some k) w placed = placed k refl

pub paste-IsWorkspace :
    (new_id : Text) (name : Text → Text) (group_id : Text) (source : Flow) (w : Workspace)
    → IsWorkspace w
    → count_all new_id w ≡ 0
    → IsWorkspace (paste_command_flow new_id name group_id source w)
unfolding paste_command_flow clone_command_flow
paste-IsWorkspace new_id name group_id source w h fresh =
    paste_at-IsWorkspace (paste_place (group_index group_id w.groups))
      (clone_command_flow new_id (pasted_flow source w) (name source.name)) w
      (paste_place-IsPlace (group_index group_id w.groups) w
        (λ k e. find_index-get_elem? (λ (g : Group). g.id == group_id) w.groups k e))
      h fresh

pub add-IsWorkspace :
    (new_id name : Text) (w : Workspace)
    → IsWorkspace w
    → count_all new_id w ≡ 0
    → IsWorkspace (add_flow new_id name w)
unfolding add_flow
add-IsWorkspace new_id name w h fresh =
    inserted-IsWorkspace w (add_flow new_id name w) new_id h fresh
      (λ id. omega (
        arith,
        count_id-append id w.flows (
            (record {
              id = new_id;
              name = name;
              server_id = [];
              own_host = no_host;
              lines = new_line ∷ [];
              run_cwd = none;
            })
            ∷ []),
      ))
      (append-not_empty w.flows _) (inl refl)
  where
    append-not_empty : (xs : List Flow) (y : Flow) → is_empty (xs ++ y ∷ []) ≡ false
    append-not_empty [] y = refl
    append-not_empty (x ∷ xs) y = refl

pub create_group-IsWorkspace :
    (new_id name : Text) (w : Workspace)
    → IsWorkspace w
    → IsWorkspace (create_command_group new_id name [] w)
unfolding create_command_group
create_group-IsWorkspace new_id name w h =
    same-IsWorkspace w (create_command_group new_id name [] w) h
      (λ id. omega (
        arith,
        count_groups-append id w.groups
            ((record { id = new_id; name = name; collapsed = false; flows = [] }) ∷ []),
      ))
      h.some_flow refl
