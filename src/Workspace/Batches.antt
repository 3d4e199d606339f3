-- ===== src/Workspace/Batches.antt =====
-- What a run of several flows does, one after another.
use log_agent.Prelude.{
  ℕ, suc, Bool, true, false, not, List, [], ◌∷◌, ◌++◌, map, Option, none, some, Text, text_eq,
  nat_eq, ◌≡◌, refl, ap, inl, inr, anyb, length, take, Bool-cases, find_index,
}
use log_agent.Commands.{Flow}
use log_agent.Prelude.{allb, drop}
use log_agent.Workspace.Sequence.{
  Surroundings, run_one, run_in_order, is_busy, run_command_flow_sequence,
}

module _ (s : Surroundings) where
  abbrev pub ends_well : Flow → Bool
  ends_well flow = (run_one s flow).1

  abbrev pub one_past : Option ℕ → List Flow → ℕ
  one_past none flows = length flows
  one_past (some i) flows = suc i

  -- How many flows are run: up to the first one that does not finish, this one included.
  abbrev pub reached : List Flow → ℕ
  reached flows = one_past (find_index (λ (flow : Flow). not (ends_well flow)) flows) flows

  reached-next :
      (flow : Flow) (flows : List Flow)
      → ends_well flow ≡ true
      → reached (flow ∷ flows) ≡ suc (reached flows)
  reached-next flow flows h =
      rw h (shift (find_index (λ (flow : Flow). not (ends_well flow)) flows))
    where
      shift :
          (found : Option ℕ)
          → one_past (elim found [ none ↦ none | some i ↦ some (suc i) ]) (flow ∷ flows)
            ≡ suc (one_past found flows)
      shift none = refl
      shift (some i) = refl

  in_order :
      (flows : List Flow) (active : Text)
      → ((run_in_order s flows active).flows
          ≡ map (λ (flow : Flow). (run_one s flow).0) (take (reached flows) flows)
            ++ drop (reached flows) flows)
        × ((run_in_order s flows active).ok ≡ allb ends_well flows)
  unfolding run_in_order
  in_order [] active = (refl, refl)
  in_order (flow ∷ flows) active = elim (Bool-cases (ends_well flow)) [
    | inl e ↦
        let (same, ok) = in_order flows flow.id in
        rw (reached-next flow flows e, e) (ap (λ xs. (run_one s flow).0 ∷ xs) same, ok)
    | inr e ↦ rw e (refl, refl)
  ]

-- When no flow runs yet, a run in order runs the flows up to the first one that fails or pauses,
-- this one included, and leaves the others as they are; it reports a success exactly if every flow
-- finishes.
pub run_command_flow_sequence_stops :
    (s : Surroundings) (running : List Text) (flows : List Flow) (active : Text)
    → anyb (is_busy running) flows ≡ false
    → let r = run_command_flow_sequence s false running flows active in
      (r.flows
        ≡ map (λ (flow : Flow). (run_one s flow).0) (take (reached s flows) flows)
          ++ drop (reached s flows) flows)
      × (r.ok ≡ allb (ends_well s) flows)
unfolding run_command_flow_sequence
run_command_flow_sequence_stops s running flows active free = rw free (in_order s flows active)
