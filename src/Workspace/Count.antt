-- ===== src/Workspace/Count.antt =====
-- How many flows have an id, through the changes of lists of flows.
use log_agent.Prelude.{
  ℕ, zero, suc, ◌+◌, ◌≤◌, Bool, true, false, List, [], ◌∷◌, ◌++◌, some, Text, text_eq, ◌==◌, ◌≡◌,
  refl, arith, if◌then◌else◌, filterb, Bool-cases, Option-cases, inl, inr, find_index, get_elem?,
  is_empty,
}
use log_agent.Commands.{Flow}
use log_agent.Reorder.{insert_idx}
use log_agent.Workspace.{
  Workspace, Group, group_flows, all_command_flows, has_flow, edit_group, with_flows, remove_idx,
}
use log_agent.Workspace.Groups.{flow_at}

abbrev pub one_for : Bool → ℕ
one_for b = if b then 1 else 0

abbrev pub count_id : Text → List Flow → ℕ
count_id id [] = 0
count_id id (flow ∷ flows) = one_for (flow.id == id) + count_id id flows

abbrev pub count_groups : Text → List Group → ℕ
count_groups id [] = 0
count_groups id (g ∷ groups) = count_id id g.flows + count_groups id groups

-- In the main list and in all groups.
abbrev pub count_all : Text → Workspace → ℕ
count_all id w = count_id id w.flows + count_groups id w.groups

module _ (id : Text) where
  pub count_id-append :
      (xs ys : List Flow) → count_id id (xs ++ ys) ≡ count_id id xs + count_id id ys
  count_id-append [] ys = omega arith
  count_id-append (x ∷ xs) ys = omega (arith, count_id-append xs ys)

  pub count_id-group_flows :
      (groups : List Group) → count_id id (group_flows groups) ≡ count_groups id groups
  unfolding group_flows
  count_id-group_flows [] = refl
  count_id-group_flows (g ∷ groups) =
      omega (arith, count_id-append g.flows (group_flows groups), count_id-group_flows groups)

  pub count_id-all_command_flows :
      (w : Workspace) → count_id id (all_command_flows w) ≡ count_all id w
  unfolding all_command_flows
  count_id-all_command_flows w =
      omega (arith, count_id-append w.flows (group_flows w.groups), count_id-group_flows w.groups)

  pub has_flow-count_id : (xs : List Flow) → has_flow id xs ≡ true → 1 ≤ count_id id xs
  has_flow-count_id [] h = cc
  has_flow-count_id (x ∷ xs) h = ground (arith, has_flow-count_id xs)

  pub count_of_absent : (xs : List Flow) → has_flow id xs ≡ false → count_id id xs ≡ 0
  count_of_absent [] h = refl
  count_of_absent (x ∷ xs) h = ground (arith, count_of_absent xs)

  pub count_id-insert_idx :
      (xs : List Flow) (i : ℕ) (y : Flow)
      → count_id id (insert_idx xs i y) ≡ count_id id xs + one_for (y.id == id)
  unfolding insert_idx
  count_id-insert_idx xs zero y = omega arith
  count_id-insert_idx [] (suc i) y = omega arith
  count_id-insert_idx (x ∷ xs) (suc i) y = omega (arith, count_id-insert_idx xs i y)

  pub count_id-remove_idx :
      (xs : List Flow) (i : ℕ) (y : Flow)
      → flow_at xs i ≡ some y
      → count_id id xs ≡ count_id id (remove_idx xs i) + one_for (y.id == id)
  count_id-remove_idx [] i y h = cc
  count_id-remove_idx (x ∷ xs) zero y h = ground (arith, h)
  count_id-remove_idx (x ∷ xs) (suc i) y h = omega (arith, count_id-remove_idx xs i y h)

  pub count_id-remove_idx_le :
      (xs : List Flow) (i : ℕ) → count_id id (remove_idx xs i) ≤ count_id id xs
  count_id-remove_idx_le [] i = omega arith
  count_id-remove_idx_le (x ∷ xs) zero = omega arith
  count_id-remove_idx_le (x ∷ xs) (suc i) = omega (arith, count_id-remove_idx_le xs i)

  pub count_id-filterb :
      (p : Flow → Bool) (xs : List Flow) → count_id id (filterb p xs) ≤ count_id id xs
  count_id-filterb p [] = omega arith
  count_id-filterb p (x ∷ xs) = ground (arith, count_id-filterb p xs)

  pub count_groups-filterb :
      (p : Group → Bool) (groups : List Group)
      → count_groups id (filterb p groups) ≤ count_groups id groups
  count_groups-filterb p [] = omega arith
  count_groups-filterb p (g ∷ groups) = ground (arith, count_groups-filterb p groups)

  pub count_groups-append :
      (gs hs : List Group) → count_groups id (gs ++ hs) ≡ count_groups id gs + count_groups id hs
  count_groups-append [] hs = omega arith
  count_groups-append (g ∷ gs) hs = omega (arith, count_groups-append gs hs)

  -- A group that is edited counts for what it becomes.
  pub count_groups-edit_group :
      (k : ℕ) (f : Group → Group) (groups : List Group) (g : Group)
      → get_elem? groups k ≡ some g
      → count_groups id (edit_group k f groups) + count_id id g.flows
        ≡ count_groups id groups + count_id id (f g).flows
  count_groups-edit_group k f [] g h = cc
  count_groups-edit_group zero f (h ∷ groups) g e = ground (arith, e)
  count_groups-edit_group (suc k) f (h ∷ groups) g e =
      omega (arith, count_groups-edit_group k f groups g e)

  pub count_groups-edit_group_le :
      (k : ℕ) (f : List Flow → List Flow) (groups : List Group)
      → ((xs : List Flow) → count_id id (f xs) ≤ count_id id xs)
      → count_groups id (edit_group k (with_flows f) groups) ≤ count_groups id groups
  count_groups-edit_group_le k f [] h = omega arith
  count_groups-edit_group_le zero f (g ∷ groups) h = omega (arith, h g.flows)
  count_groups-edit_group_le (suc k) f (g ∷ groups) h =
      omega (arith, count_groups-edit_group_le k f groups h)

pub find_index-get_elem? {ℓ} :
    {A : Type ℓ} (p : A → Bool) (xs : List A) (k : ℕ)
    → find_index p xs ≡ some k
    → (x : A) × (get_elem? xs k ≡ some x)
find_index-get_elem? p [] k h = cc
find_index-get_elem? p (x ∷ xs) zero h = (x, refl)
find_index-get_elem? p (x ∷ xs) (suc k) h = elim (Bool-cases (p x)) [
  | inl e ↦ absurd (ground (arith, e, h))
  | inr e ↦ elim (Option-cases (find_index p xs)) [
    | inl f ↦ absurd (ground (arith, e, f, h))
    | inr (j, f) ↦ find_index-get_elem? p xs k (ground (arith, e, f, h))
  ]
]

pub insert_idx-not_empty :
    (xs : List Flow) (i : ℕ) (y : Flow) → is_empty (insert_idx xs i y) ≡ false
unfolding insert_idx
insert_idx-not_empty xs zero y = refl
insert_idx-not_empty [] (suc i) y = refl
insert_idx-not_empty (x ∷ xs) (suc i) y = refl
