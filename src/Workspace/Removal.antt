-- ===== src/Workspace/Removal.antt =====
-- How many flows have an id after flows are removed, moved or changed in place, and which flow is
-- active then.
use log_agent.Prelude.{
  ℕ, zero, suc, ◌≤◌, leb, false, List, [], ◌∷◌, Option, none, some, Text, text_eq, nat_eq, ◌==◌,
  ◌≡◌, refl, arith, ◌⊎◌, inl, inr, length, Bool-cases, get_elem?, is_empty,
}
use log_agent.Prelude.Members.{beq_refl}
use log_agent.Commands.{Flow}
use log_agent.Workspace.{
  Workspace, Group, Place, has_flow, flow_index, edit_group, edit_place, with_flows, flows_at,
  remove_idx, id_found, update_in, update_in_groups, update_flow,
}
use log_agent.Workspace.Groups.{
  flow_at, before_at, move_member, reorder_from, move_found, reorder_flows, target_index,
}
use log_agent.Workspace.Count.{
  count_id, count_groups, count_all, count_id-insert_idx, count_id-remove_idx,
  count_groups-edit_group_le,
}

module _ (id : Text) where
  pub count_groups-edit_group_same :
      (k : ℕ) (f : List Flow → List Flow) (groups : List Group)
      → ((xs : List Flow) → count_id id (f xs) ≡ count_id id xs)
      → count_groups id (edit_group k (with_flows f) groups) ≡ count_groups id groups
  count_groups-edit_group_same k f [] h = refl
  count_groups-edit_group_same zero f (g ∷ groups) h = omega (arith, h g.flows)
  count_groups-edit_group_same (suc k) f (g ∷ groups) h =
      omega (arith, count_groups-edit_group_same k f groups h)

  pub count_id-update_in :
      (key : Text) (f : Flow → Flow) (xs : List Flow)
      → ((flow : Flow) → (f flow).id ≡ flow.id)
      → count_id id (update_in key f xs) ≡ count_id id xs
  count_id-update_in key f [] h = refl
  count_id-update_in key f (x ∷ xs) h = elim (Bool-cases (x.id == key)) [
    | inl e ↦ rw (e, h x) refl
    | inr e ↦ rw e (omega (arith, count_id-update_in key f xs h))
  ]

  pub count_groups-update_in_groups :
      (key : Text) (f : Flow → Flow) (groups : List Group)
      → ((flow : Flow) → (f flow).id ≡ flow.id)
      → count_groups id (update_in_groups key f groups) ≡ count_groups id groups
  count_groups-update_in_groups key f [] h = refl
  count_groups-update_in_groups key f (g ∷ groups) h = elim (Bool-cases (has_flow key g.flows)) [
    | inl e ↦ rw e (omega (arith, count_id-update_in key f g.flows h))
    | inr e ↦ rw e (omega (arith, count_groups-update_in_groups key f groups h))
  ]

  pub count_all-update_flow :
      (key : Text) (f : Flow → Flow) (w : Workspace)
      → ((flow : Flow) → (f flow).id ≡ flow.id)
      → count_all id (update_flow key f w) ≡ count_all id w
  count_all-update_flow key f w h = elim (Bool-cases (has_flow key w.flows)) [
    | inl e ↦ rw e (omega (arith, count_id-update_in key f w.flows h))
    | inr e ↦ rw e (omega (arith, count_groups-update_in_groups key f w.groups h))
  ]

  count_id-move_member :
      (over : Option ℕ) (xs : List Flow) (from : ℕ) (moved : Flow)
      → flow_at xs from ≡ some moved
      → count_id id (move_member over xs from moved) ≡ count_id id xs
  unfolding move_member
  count_id-move_member over xs from moved h = omega (
    arith,
    count_id-remove_idx id xs from moved h,
    count_id-insert_idx id (remove_idx xs from) (before_at over (remove_idx xs from)) moved,
  )

  count_id-move_found :
      (over : Option ℕ) (from : ℕ) (found : Option Flow) (xs : List Flow)
      → flow_at xs from ≡ found
      → count_id id (move_found over from found xs) ≡ count_id id xs
  unfolding move_found
  count_id-move_found over from none xs h = refl
  count_id-move_found over from (some moved) xs h = count_id-move_member over xs from moved h

  count_id-reorder_from :
      (over from : Option ℕ) (xs : List Flow)
      → count_id id (reorder_from over from xs) ≡ count_id id xs
  unfolding reorder_from
  count_id-reorder_from over none xs = refl
  count_id-reorder_from over (some i) xs = count_id-move_found over i (flow_at xs i) xs refl

  pub count_id-reorder_flows :
      (flow_id : Text) (target : Option Text) (xs : List Flow)
      → count_id id (reorder_flows flow_id target xs) ≡ count_id id xs
  unfolding reorder_flows
  count_id-reorder_flows flow_id target xs =
      count_id-reorder_from (target_index target xs) (flow_index flow_id xs) xs

  count_id-flows_in :
      (k : ℕ) (groups : List Group)
      → count_id id (elim (get_elem? groups k) [ none ↦ [] | some g ↦ g.flows ])
        ≤ count_groups id groups
  count_id-flows_in k [] = omega arith
  count_id-flows_in zero (g ∷ groups) = omega arith
  count_id-flows_in (suc k) (g ∷ groups) = omega (arith, count_id-flows_in k groups)

  pub count_id-flows_at : (p : Place) (w : Workspace) → count_id id (flows_at p w) ≤ count_all id w
  count_id-flows_at Place.main w = omega arith
  count_id-flows_at (Place.in_group k) w = omega (arith, count_id-flows_in k w.groups)

  pub count_all-edit_place_le :
      (p : Place) (f : List Flow → List Flow) (w : Workspace)
      → ((xs : List Flow) → count_id id (f xs) ≤ count_id id xs)
      → count_all id (edit_place p f w) ≤ count_all id w
  count_all-edit_place_le Place.main f w h = omega (arith, h w.flows)
  count_all-edit_place_le (Place.in_group k) f w h =
      omega (arith, count_groups-edit_group_le id k f w.groups h)

count_id-get_elem? :
    (i : ℕ) (xs : List Flow) (x : Flow) → get_elem? xs i ≡ some x → 1 ≤ count_id x.id xs
count_id-get_elem? i [] x h = cc
count_id-get_elem? zero (y ∷ xs) x h = ground (arith, h, beq_refl x.id)
count_id-get_elem? (suc i) (y ∷ xs) x h = omega (arith, count_id-get_elem? i xs x h)

-- The flow that `id_found` names is one of the container or of the main list.
pub id_found-there :
    (i : ℕ) (found : Option Flow) (container flows : List Flow) (old : Text)
    → get_elem? container i ≡ found
    → is_empty flows ≡ false
    → (1 ≤ count_id (id_found found flows old) container)
      ⊎ (1 ≤ count_id (id_found found flows old) flows)
id_found-there i found container [] old e h = cc
id_found-there i none container (first ∷ rest) old e h = inr (ground (arith, beq_refl first.id))
id_found-there i (some x) container (first ∷ rest) old e h =
    inl (count_id-get_elem? i container x e)

pub remove_idx-not_empty :
    (xs : List Flow) (i : ℕ) → leb (length xs) 1 ≡ false → is_empty (remove_idx xs i) ≡ false
remove_idx-not_empty [] i h = cc
remove_idx-not_empty (x ∷ []) i h = cc
remove_idx-not_empty (x ∷ y ∷ xs) zero h = refl
remove_idx-not_empty (x ∷ y ∷ xs) (suc i) h = refl

pub update_in-not_empty :
    (key : Text) (f : Flow → Flow) (xs : List Flow)
    → is_empty xs ≡ false
    → is_empty (update_in key f xs) ≡ false
update_in-not_empty key f [] h = cc
update_in-not_empty key f (x ∷ xs) h = elim (Bool-cases (x.id == key)) [
  | inl e ↦ rw e refl
  | inr e ↦ rw e refl
]
