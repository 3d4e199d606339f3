-- ===== src/Workspace/Invariant.antt =====
-- What every change of the workspace keeps, and the rules by which it is shown.
use log_agent.Prelude.{
  ℕ, ◌+◌, ◌≤◌, Bool, true, false, List, [], ◌∷◌, Option, none, some, Text, text_eq, text_beq_iff,
  nat_eq, ◌==◌, ◌≡◌, arith, ◌⊎◌, inl, inr, Bool-cases, find_index, get_elem?, is_empty,
}
use log_agent.Prelude.Members.{beq_refl}
use log_agent.Commands.{Flow}
use log_agent.Workspace.{
  Workspace, Group, Place, all_command_flows, command_flow_container, has_flow, flow_index,
  edit_place, with_flows, id_found, insert_behind, container_in, behind,
}
use log_agent.Workspace.Groups.{fix_active, insert_before, before_at}
use log_agent.Workspace.Count.{
  one_for, count_id, count_all, count_id-all_command_flows, has_flow-count_id, count_id-insert_idx,
  count_groups-edit_group, find_index-get_elem?,
}

-- The main list has a flow, no id is there twice, and the active flow is there.
pub record IsWorkspace (w : Workspace) : Type 0 where
  pub some_flow : is_empty w.flows ≡ false
  pub unique : (id : Text) → count_all id w ≤ 1
  pub active : count_all w.active_flow_id w ≡ 1

-- A new flow came in, and is active or the active one is as before.
pub inserted-IsWorkspace :
    (w v : Workspace) (new : Text)
    → IsWorkspace w
    → count_all new w ≡ 0
    → ((id : Text) → count_all id v ≡ count_all id w + one_for (new == id))
    → is_empty v.flows ≡ false
    → (v.active_flow_id ≡ new) ⊎ (v.active_flow_id ≡ w.active_flow_id)
    → IsWorkspace v
inserted-IsWorkspace w v new h fresh counts full (inl e) = record {
  some_flow = full;
  unique = λ id. ground (arith, counts id, h.unique id, text_beq_iff new id, fresh);
  active = rw e (ground (arith, counts new, fresh, beq_refl new));
}
inserted-IsWorkspace w v new h fresh counts full (inr e) = record {
  some_flow = full;
  unique = λ id. ground (arith, counts id, h.unique id, text_beq_iff new id, fresh);
  active =
      rw e (
        ground
          (arith, counts w.active_flow_id, fresh, h.active, text_beq_iff new w.active_flow_id));
}

-- Nothing came in, and the active flow is there.
pub kept-IsWorkspace :
    (w v : Workspace)
    → IsWorkspace w
    → ((id : Text) → count_all id v ≤ count_all id w)
    → is_empty v.flows ≡ false
    → 1 ≤ count_all v.active_flow_id v
    → IsWorkspace v
kept-IsWorkspace w v h counts full there = record {
  some_flow = full;
  unique = λ id. omega (arith, counts id, h.unique id);
  active = omega (arith, counts v.active_flow_id, h.unique v.active_flow_id);
}

first-there :
    (flows : List Flow) (old : Text)
    → is_empty flows ≡ false
    → 1 ≤ count_id (id_found none flows old) flows
first-there [] old h = cc
first-there (first ∷ rest) old h = ground (arith, beq_refl first.id)

pub fix_active-there :
    (w : Workspace)
    → is_empty w.flows ≡ false
    → 1 ≤ count_all (fix_active w).active_flow_id (fix_active w)
unfolding fix_active
fix_active-there w full = elim (Bool-cases (has_flow w.active_flow_id (all_command_flows w))) [
  | inl e ↦ rw e (
      omega (
        arith,
        has_flow-count_id w.active_flow_id (all_command_flows w) e,
        count_id-all_command_flows w.active_flow_id w,
      ))
  | inr e ↦ rw e (omega (arith, first-there w.flows w.active_flow_id full))
]

abbrev pub IsPlace : Place → Workspace → Type 0
IsPlace Place.main w = Unit
IsPlace (Place.in_group k) w = (g : Group) × (get_elem? w.groups k ≡ some g)

pub command_flow_container-IsPlace :
    (id : Text) (w : Workspace) (p : Place) → command_flow_container id w ≡ some p → IsPlace p w
unfolding command_flow_container
command_flow_container-IsPlace id w Place.main e = tt
command_flow_container-IsPlace id w (Place.in_group k) e =
    find_index-get_elem? (λ (g : Group). has_flow id g.flows) w.groups k
      (in_container (has_flow id w.flows) (find_index (λ (g : Group). has_flow id g.flows) w.groups)
        e)
  where
    in_container :
        (b : Bool) (group : Option ℕ)
        → container_in b group ≡ some (Place.in_group k)
        → group ≡ some k
    in_container true group h = cc
    in_container false none h = cc
    in_container false (some j) h = cc

pub count_all-edit_place :
    (id : Text) (new : Text) (p : Place) (f : List Flow → List Flow) (w : Workspace)
    → IsPlace p w
    → ((xs : List Flow) → count_id id (f xs) ≡ count_id id xs + one_for (new == id))
    → count_all id (edit_place p f w) ≡ count_all id w + one_for (new == id)
count_all-edit_place id new Place.main f w h g = omega (arith, g w.flows)
count_all-edit_place id new (Place.in_group k) f w (old, e) g =
    omega (arith, g old.flows, count_groups-edit_group id k (with_flows f) w.groups old e)

pub count_id-insert_behind :
    (id at : Text) (y : Flow) (xs : List Flow)
    → count_id id (insert_behind at y xs) ≡ count_id id xs + one_for (y.id == id)
unfolding insert_behind
count_id-insert_behind id at y xs = count_id-insert_idx id xs (behind (flow_index at xs) xs) y

pub count_id-insert_before :
    (id at : Text) (y : Flow) (xs : List Flow)
    → count_id id (insert_before at y xs) ≡ count_id id xs + one_for (y.id == id)
unfolding insert_before
count_id-insert_before id at y xs = count_id-insert_idx id xs (before_at (flow_index at xs) xs) y
