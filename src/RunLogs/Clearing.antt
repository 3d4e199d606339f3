-- ===== src/RunLogs/Clearing.antt =====
-- Which runs are left when the history of a flow or a group is cleared.
use log_agent.Prelude.{
  Bool, true, false, not, ◌&&◌, List, [], ◌∷◌, map, some, Text, text_eq, ◌==◌, is_empty, filterb,
  ◌≡◌, refl, sym, ap, arith, Bool-cases, inl, inr, All, text_beq_iff,
}
use log_agent.Prelude.Members.{contains, Distinct, beq_refl}
use log_agent.RunLogs.{
  RunLog, LogsView, Logs, is_going, scope_id, command_log_runs, clear_view, clear_command_logs,
}

abbrev pub ids : List RunLog → List Text
ids runs = map (λ (run : RunLog). run.id) runs

module _ (p : RunLog → Bool) where
  absent :
      (id : Text) (runs : List RunLog)
      → contains id (ids runs) ≡ false
      → contains id (ids (filterb p runs)) ≡ false
  absent id [] h = refl
  absent id (run ∷ runs) h = elim (Bool-cases (p run)) [
    | inl e ↦ rw e (ground (arith, h, absent id runs))
    | inr e ↦ rw e (absent id runs (ground (arith, h)))
  ]

  abbrev HasOwn : List RunLog → RunLog → Type 0
  HasOwn runs run = contains run.id (ids (filterb p runs)) ≡ p run

  -- A run behind another one whose id it does not have.
  behind_other :
      (x : RunLog) (xs runs : List RunLog)
      → contains x.id (ids runs) ≡ false
      → All (HasOwn xs) runs
      → All (HasOwn (x ∷ xs)) runs
  behind_other x xs [] h g = tt
  behind_other x xs (run ∷ runs) h (own, rest) =
      let other : (x.id == run.id) ≡ false =
        ground (arith, h, text_beq_iff x.id run.id, text_beq_iff run.id x.id) in
      (
        elim (Bool-cases (p x)) [ inl e ↦ rw e (ground (arith, other, own)) | inr e ↦ rw e own ],
        behind_other x xs runs (ground (arith, h)) rest,
      )

  each_own : (runs : List RunLog) → Distinct (ids runs) → All (HasOwn runs) runs
  each_own [] h = tt
  each_own (run ∷ runs) (new, h) = (
    elim (Bool-cases (p run)) [
      | inl e ↦ rw e (ground (arith, beq_refl run.id))
      | inr e ↦ rw e (absent run.id runs new)
    ],
    behind_other run runs runs new (each_own runs h),
  )

  filterb-own :
      (xs runs : List RunLog)
      → All (HasOwn xs) runs
      → filterb (λ (run : RunLog). not (contains run.id (ids (filterb p xs)))) runs
        ≡ filterb (λ (run : RunLog). not (p run)) runs
  filterb-own xs [] h = refl
  filterb-own xs (run ∷ runs) (own, h) = rw (own, filterb-own xs runs h) refl

filterb-filterb :
    (p q : RunLog → Bool) (runs : List RunLog)
    → filterb q (filterb p runs) ≡ filterb (λ (run : RunLog). p run && q run) runs
filterb-filterb p q [] = refl
filterb-filterb p q (run ∷ runs) = elim (Bool-cases (p run)) [
  | inl e ↦ rw (e, filterb-filterb p q runs) refl
  | inr e ↦ rw (e, filterb-filterb p q runs) refl
]

-- A done run of the window's flow or group.
abbrev pub is_cleared : LogsView → RunLog → Bool
is_cleared view run = scope_id view.of_group run == view.id && not (is_going run.result)

none_cleared :
    (view : LogsView) (runs : List RunLog)
    → is_empty (filterb (λ (run : RunLog). scope_id view.of_group run == view.id) runs) ≡ true
    → filterb (λ (run : RunLog). not (is_cleared view run)) runs ≡ runs
none_cleared view [] h = refl
none_cleared view (run ∷ runs) h = elim (Bool-cases (scope_id view.of_group run == view.id)) [
  | inl e ↦ absurd (ground (arith, e, h))
  | inr e ↦ rw e (ap (λ xs. run ∷ xs) (none_cleared view runs (ground (arith, e, h))))
]

-- When the user confirms it, the clearing of the history of a flow or a group removes exactly its
-- runs that are done: the runs that are under way and those of other flows or groups stay, in their
-- order. The runs have ids of their own.
pub clear_command_logs_lem :
    (view : LogsView) (l : Logs)
    → l.view ≡ some view
    → Distinct (ids l.runs)
    → (clear_command_logs true l).runs
      ≡ filterb (λ (run : RunLog). not (is_cleared view run)) l.runs
unfolding clear_command_logs clear_view command_log_runs
clear_command_logs_lem view l e h =
    rw e
      (elim (Bool-cases
        (is_empty (filterb (λ (run : RunLog). scope_id view.of_group run == view.id) l.runs))) [
          | inl f ↦ rw f (sym (none_cleared view l.runs f))
          | inr f ↦
              rw
                (
                  f,
                  filterb-filterb (λ (run : RunLog). scope_id view.of_group run == view.id)
                      (λ (run : RunLog). not (is_going run.result)) l.runs,
                )
                (filterb-own (is_cleared view) l.runs l.runs (each_own (is_cleared view) l.runs h))
        ])
