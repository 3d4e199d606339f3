-- ===== src/Commands/Blank.antt =====
-- app.js, `runCommandFlow`: a blank line and where a default run begins.
use log_agent.Prelude.{
  ℕ, Bool, true, false, not, List, [], ◌∷◌, ◌++◌, Option, none, some, length, take, drop,
  find_index, All, ◌≡◌, refl, ap, ◌∙◌, Text,
}
use log_agent.Commands.{
  Line, Flow, Status, Stop, Answer, has_status, is_skipped, begin_at, run_lines, run_from,
  run_command_flow,
}

abbrev pub Succeeded : Line → Type 0
Succeeded line = line.status ≡ Status.success

find_error-Succeeded :
    (xs : List Line) (b : Line)
    → All Succeeded xs
    → b.status ≡ Status.idle
    → find_index (has_status Status.error) (xs ++ b ∷ []) ≡ none
find_error-Succeeded [] b h e = rw (e, has_status) refl
find_error-Succeeded (x ∷ xs) b (h, hs) e = rw (h, has_status, find_error-Succeeded xs b hs e) refl

find_pending-Succeeded :
    (xs : List Line) (b : Line)
    → All Succeeded xs
    → b.status ≡ Status.idle
    → find_index (λ line. not (has_status Status.success line)) (xs ++ b ∷ []) ≡ some (length xs)
find_pending-Succeeded [] b h e = rw (e, has_status) refl
find_pending-Succeeded (x ∷ xs) b (h, hs) e =
    rw (h, has_status, find_pending-Succeeded xs b hs e) refl

drop-length : (xs ys : List Line) → drop (length xs) (xs ++ ys) ≡ ys
drop-length [] ys = refl
drop-length (x ∷ xs) ys = drop-length xs ys

take-length : (xs ys : List Line) → take (length xs) (xs ++ ys) ≡ xs
take-length [] ys = refl
take-length (x ∷ xs) ys = ap (x ∷◌) (take-length xs ys)

begin_at-blank :
    (xs : List Line) (b : Line)
    → All Succeeded xs
    → b.status ≡ Status.idle
    → begin_at 0 false (xs ++ b ∷ []) ≡ length xs
unfolding begin_at
begin_at-blank xs b h e = rw (find_error-Succeeded xs b h e, find_pending-Succeeded xs b h e) refl

run_from-blank :
    (has_server : Bool) (answer : Line → Option Text → Answer) (pause_requested : ℕ → Bool)
    (begin : ℕ) (flow : Flow) (xs : List Line) (b : Line)
    → begin ≡ length xs
    → is_skipped b ≡ true
    → flow.lines ≡ xs ++ b ∷ []
    → let r = run_from has_server answer pause_requested begin flow in
      (r.2 ≡ []) × (r.1 ≡ Stop.finished) × (r.0.lines ≡ flow.lines)
unfolding run_from run_lines
run_from-blank has_server answer pause_requested begin flow xs b eb sk el =
    rw (eb, el, drop-length xs (b ∷ []), take-length xs (b ∷ []), sk) (refl, refl, refl)

-- Of a flow in which every line is a success and behind them stands one idle line that the loop passes over,
-- a default run executes nothing: it has no entry, finishes, and leaves the lines as they are.
pub run_command_flow-blank :
    (has_server : Bool) (answer : Line → Option Text → Answer) (pause_requested : ℕ → Bool)
    (flow : Flow) (xs : List Line) (b : Line)
    → All Succeeded xs
    → b.status ≡ Status.idle
    → is_skipped b ≡ true
    → flow.lines ≡ xs ++ b ∷ []
    → let r = run_command_flow has_server answer pause_requested 0 false flow in
      (r.2 ≡ []) × (r.1 ≡ Stop.finished) × (r.0.lines ≡ flow.lines)
unfolding run_command_flow
run_command_flow-blank has_server answer pause_requested flow xs b h e sk el =
    run_from-blank has_server answer pause_requested (begin_at 0 false flow.lines) flow xs b
      (ap (begin_at 0 false) el ∙ begin_at-blank xs b h e) sk el
