-- ===== src/Commands/Resume.antt =====
-- app.js, `runCommandFlow`: where the next run of a flow begins.
use log_agent.Prelude.{
  ℕ, zero, suc, ◌+◌, ◌<◌, ◌≤◌, Bool, true, false, List, [], ◌∷◌, ◌++◌, Option, none, some, length,
  take, drop, find_index, All, arith, ◌≡◌, refl, ap, ◌∙◌, inl, inr, Text, Bool-cases, Option-cases,
  if◌then◌else◌, nat_eq, length-take, length-drop, ◌==◌,
}
use mathlib.Core.Path.{subst}
use log_agent.Commands.{
  Line, Flow, Status, Stop, Answer, has_status, is_skipped, begin_at, run_lines, run_command_flow,
  run_from,
}
use log_agent.Commands.Outcome.{IsRun, IsRun-StopsIn, StopsIn, run_lines-IsRun}

-- No line that the loop passes over has the status error.
abbrev pub NoSkippedError : List Line → Type 0
NoSkippedError lines =
    All (λ line. is_skipped line ≡ true → has_status Status.error line ≡ false) lines

has_status_error : (a : Line) → a.status ≡ Status.error → has_status Status.error a ≡ true
has_status_error a e = rw (e, has_status) refl

success_no_error : (a : Line) → a.status ≡ Status.success → has_status Status.error a ≡ false
success_no_error a e = rw (e, has_status) refl

failed_at_injective : (i k : ℕ) → Stop.failed_at i ≡ Stop.failed_at k → i ≡ k
failed_at_injective i k e = cc

-- The first error of what a failed run leaves is where it failed.
IsRun-first_error :
    (i : ℕ) (xs : List Line) (s : Stop) (ys : List Line) (k : ℕ)
    → IsRun i xs s ys
    → s ≡ Stop.failed_at k
    → NoSkippedError xs
    → (d : ℕ) × (k ≡ i + d) × (find_index (has_status Status.error) ys ≡ some d)
IsRun-first_error i xs s ys k IsRun.finish e h = absurd (ground (arith, e))
IsRun-first_error i xs s ys k (IsRun.pass {a = a} {b = b} {xs = xs'} {ys = ys'} p r) e (h, hs) =
    let (d, ek, f) = IsRun-first_error (suc i) xs' s ys' k r e hs in
    let no : has_status Status.error b ≡ false = elim p [
      | inl (sk, eb) ↦ rw eb (h sk)
      | inr (sk, st) ↦ success_no_error b st
    ] in
    (suc d, omega arith, rw (no, f) refl)
IsRun-first_error i xs s ys k (IsRun.fail {b = b} p q) e h =
    (0, (let ik : i ≡ k = failed_at_injective i k e in omega arith), rw (has_status_error b q) refl)
IsRun-first_error i xs s ys k (IsRun.pause p) e h = absurd (ground (arith, e))

module _ (p : Line → Bool) where
  find_index-take-none :
      (n : ℕ) (xs : List Line) → find_index p xs ≡ none → find_index p (take n xs) ≡ none
  find_index-take-none zero xs h = refl
  find_index-take-none (suc n) [] h = refl
  find_index-take-none (suc n) (x ∷ xs) h = elim (Bool-cases (p x)) [
    | inl e ↦ absurd (ground (arith, e, h))
    | inr e ↦ elim (Option-cases (find_index p xs)) [
      | inl f ↦ rw (e, find_index-take-none n xs f) refl
      | inr (d, f) ↦ absurd (ground (arith, e, f, h))
    ]
  ]

  -- There is none before the first one.
  find_index-take :
      (d : ℕ) (xs : List Line) → find_index p xs ≡ some d → find_index p (take d xs) ≡ none
  find_index-take zero xs h = refl
  find_index-take (suc d) [] h = refl
  find_index-take (suc d) (x ∷ xs) h = elim (Bool-cases (p x)) [
    | inl e ↦ absurd (ground (arith, e, h))
    | inr e ↦ elim (Option-cases (find_index p xs)) [
      | inl f ↦ absurd (ground (arith, e, f, h))
      | inr (c, f) ↦ rw (e, find_index-take d xs (f ∙ ap some (ground (arith, e, f, h)))) refl
    ]
  ]

  find_index-append :
      (d : ℕ) (xs ys : List Line)
      → find_index p xs ≡ none
      → find_index p ys ≡ some d
      → find_index p (xs ++ ys) ≡ some (length xs + d)
  find_index-append d [] ys h g = g ∙ ap some (omega arith)
  find_index-append d (x ∷ xs) ys h g = elim (Bool-cases (p x)) [
    | inl e ↦ absurd (ground (arith, e, h))
    | inr e ↦ elim (Option-cases (find_index p xs)) [
      | inl f ↦ rw (e, find_index-append d xs ys f g) (ap some (omega arith))
      | inr (c, f) ↦ absurd (ground (arith, e, f, h))
    ]
  ]

-- The lines before the begin of a default run have no error.
begin_at-no_error :
    (lines : List Line)
    → find_index (has_status Status.error) (take (begin_at 0 false lines) lines) ≡ none
unfolding begin_at
begin_at-no_error lines = elim (Option-cases (find_index (has_status Status.error) lines)) [
  | inl f ↦ find_index-take-none (has_status Status.error) (begin_at 0 false lines) lines f
  | inr (d, f) ↦ rw f (find_index-take (has_status Status.error) d lines f)
]

All-drop {κ} : (P : Line → Type κ) (n : ℕ) (xs : List Line) → All P xs → All P (drop n xs)
All-drop P zero xs h = h
All-drop P (suc n) [] h = h
All-drop P (suc n) (x ∷ xs) (h, hs) = All-drop P n xs hs

first_error-begin :
    (lines : List Line) (k : ℕ)
    → find_index (has_status Status.error) lines ≡ some k
    → begin_at 0 false lines ≡ k
unfolding begin_at
first_error-begin lines k h = rw h refl

-- Where no line that the loop passes over has the status error: after a default run that failed at line k,
-- the next default run begins at line k.
pub run_command_flow-resumes :
    (has_server : Bool) (answer : Line → Option Text → Answer) (pause_requested : ℕ → Bool)
    (flow : Flow) (k : ℕ)
    → NoSkippedError flow.lines
    → let r = run_command_flow has_server answer pause_requested 0 false flow in
      r.1 ≡ Stop.failed_at k → begin_at 0 false r.0.lines ≡ k
unfolding run_command_flow run_from
run_command_flow-resumes has_server answer pause_requested flow k h e =
    let begin = begin_at 0 false flow.lines in
    let cwd = if begin == 0 then none else flow.run_cwd in
    let rest = drop begin flow.lines in
    let r = run_lines has_server answer pause_requested begin rest cwd in
    let run = run_lines-IsRun has_server answer pause_requested begin rest cwd in
    let (d, ek, f) = IsRun-first_error begin rest r.stop r.lines k run e (
      All-drop (λ line. is_skipped line ≡ true → has_status Status.error line ≡ false) begin
        flow.lines h) in
    let range : (begin ≤ k) × (k < begin + length rest) =
      subst (StopsIn begin (begin + length rest)) e (IsRun-StopsIn begin rest r.stop r.lines run) in
    let short : length (take begin flow.lines) ≡ begin =
      omega (arith, length-take begin flow.lines, length-drop begin flow.lines, range) in
    first_error-begin (take begin flow.lines ++ r.lines) k (
      find_index-append (has_status Status.error) d (take begin flow.lines) r.lines
        (begin_at-no_error flow.lines) f
      ∙ ap some (omega arith))
