-- ===== src/Commands/Tests.antt =====
-- Runs of a flow, and the theorems at them.
use log_agent.Prelude.{
  ℕ, false, true, List, [], ◌∷◌, ◌++◌, Option, none, some, txt, Text, ◌≡◌, refl, length, get_elem?,
  ◌<◌, ◌≤◌, ◌⊎◌, text_eq, ◌==◌, if◌then◌else◌,
}
use log_agent.Commands.{
  no_host, Line, Flow, Answer, Status, Stop, run_command_flow, begin_at, is_skipped,
}
use log_agent.Commands.Outcome.{At, run_command_flow_lem}
use log_agent.Commands.Resume.{run_command_flow-resumes}
use log_agent.Commands.Blank.{run_command_flow-blank}

abbrev line : Text → Status → Line
line text status = record {
  upload = false;
  text = text;
  file_id = [];
  file_name = [];
  destination = [];
  status = status;
  error_text = none;
  error_code = none;
  upload_progress = 0;
}

abbrev flow : List Line → Flow
flow lines = record {
  id = txt "f";
  name = [];
  server_id = txt "s";
  own_host = no_host;
  lines = lines;
  run_cwd = none;
}

-- A server that refuses `rm`.
abbrev answer : Line → Option Text → Answer
answer l cwd = if l.text == txt "rm" then Answer.failed (txt "no") [] else Answer.ran (txt "/")

abbrev three : Flow
three =
    flow
      (line (txt "ls") Status.idle ∷ line (txt "rm") Status.idle ∷ line (txt "ls") Status.idle ∷ [])

abbrev done : List Line
done = line (txt "ls") Status.success ∷ []

abbrev blank : Line
blank = line (txt " ") Status.idle

three_fails : (run_command_flow true answer (λ i. false) 0 false three).1 ≡ Stop.failed_at 1
unfolding run_command_flow
three_fails = refl

run_command_flow_lem_example :
    let r = run_command_flow true answer (λ i. false) 0 false three in
    (length r.0.lines ≡ length three.lines)
    × ((j : ℕ) (a : Line)
        → get_elem? three.lines j ≡ some a
        → (b : Line) × (get_elem? r.0.lines j ≡ some b)
          × (((j < begin_at 0 false three.lines) × (b ≡ a))
              ⊎ ((begin_at 0 false three.lines ≤ j) × At r.1 j a b)))
run_command_flow_lem_example = run_command_flow_lem true answer (λ i. false) 0 false three

run_command_flow-resumes_example :
    begin_at 0 false (run_command_flow true answer (λ i. false) 0 false three).0.lines ≡ 1
run_command_flow-resumes_example =
    run_command_flow-resumes true answer (λ i. false) three 1
      ((λ h. refl), ((λ h. refl), ((λ h. refl), tt))) three_fails

blank-is_skipped : is_skipped blank ≡ true
unfolding is_skipped
blank-is_skipped = refl

run_command_flow-blank_example :
    let r = run_command_flow true answer (λ i. false) 0 false (flow (done ++ blank ∷ [])) in
    (r.2 ≡ []) × (r.1 ≡ Stop.finished) × (r.0.lines ≡ done ++ blank ∷ [])
run_command_flow-blank_example =
    run_command_flow-blank true answer (λ i. false) (flow (done ++ blank ∷ [])) done blank
      (refl, tt) refl blank-is_skipped refl
