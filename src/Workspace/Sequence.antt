-- ===== src/Workspace/Sequence.antt =====
-- app.js: several flows in one run, `runCommandFlowSequence`, `runAllCommandFlows` and
-- `runCommandGroup`. No flow is started or stopped by hand while the sequence is under way.
use log_agent.Prelude.{
  ℕ, Bool, true, false, not, ◌&&◌, List, [], ◌∷◌, map, Option, none, some, Text, txt, text_eq,
  nat_eq, if◌then◌else◌, filterb, anyb, is_empty,
}
use log_agent.Prelude.Members.{contains}
use log_agent.Commands.{Flow, Line, Status}
use log_agent.Workspace.{Workspace, Group, edit_group, with_flows}
use log_agent.Workspace.Groups.{group_index, command_group, is_running_group}
use log_agent.Prelude.{allb}
use log_agent.Commands.{Answer, Stop, Entry, run_command_flow, has_status}
use log_agent.Workspace.FileRefs.{ShownRef, command_group_file_refs}

abbrev pub is_finished : Stop → Bool
is_finished Stop.finished = true
is_finished (Stop.failed_at i) = false
is_finished (Stop.paused_at i) = false

-- What the runs depend on: whether a server is there, what it answers to a line of a flow in this run
-- of several flows, and whether a pause was asked for when the flow reached a line. When flows run
-- side by side, the answers are those that the requests of each flow get under whatever
-- interleaving there is; that they are what they would be in another order is not said.
pub record Surroundings : Type 0 where
  pub has_server : Text → Bool
  pub answer : Text → Line → Option Text → Answer
  pub pause_requested : Text → ℕ → Bool

abbrev pub ran_flow : Flow × Stop × List Entry → Flow × Bool
ran_flow (flow, stop, entries) = (flow, is_finished stop)

-- `runCommandFlow(0, flow, batch)` of a flow that is not running, with what it returns.
unfoldable pub run_one : Surroundings → Flow → Flow × Bool
unfolding run_command_flow
run_one s flow = ran_flow (
    run_command_flow (s.has_server flow.server_id) (s.answer flow.id) (s.pause_requested flow.id) 0
      false flow)

pub record Sequence : Type 0 where
  pub flows : List Flow
  pub ok : Bool
  pub active : Text

abbrev pub after_flow : Flow → Sequence → Sequence
after_flow flow rest = record rest { flows = flow ∷ rest.flows }

-- The loop over the flows, in order; the active flow is the one that runs.
unfoldable pub run_in_order : Surroundings → List Flow → Text → Sequence
unfolding run_one
run_in_order s [] active = record { flows = []; ok = true; active = active }
run_in_order s (flow ∷ flows) active =
    let (ran, ok) = run_one s flow in
    let rest = run_in_order s flows flow.id in
    if ok then after_flow ran rest else record { flows = ran ∷ flows; ok = false; active = flow.id }

abbrev pub is_busy : List Text → Flow → Bool
is_busy running flow = contains flow.id running

-- `Promise.all` over the flows that do not run yet, when all of them are done. The run of a flow reads
-- and writes this flow alone, so each leaves what its own answers make of it.
unfoldable pub run_idle : Surroundings → List Text → List Flow → List Flow
unfolding run_one
run_idle s running flows =
    map (λ (flow : Flow). if is_busy running flow then flow else (run_one s flow).0) flows

unfoldable pub all_finish : Surroundings → List Text → List Flow → Bool
unfolding run_one
all_finish s running flows =
    allb (λ (flow : Flow). (run_one s flow).1)
      (filterb (λ (flow : Flow). not (is_busy running flow)) flows)

-- `runCommandFlowSequence`; `running` has the flows that run already.
unfoldable pub run_command_flow_sequence :
    Surroundings → Bool → List Text → List Flow → Text → Sequence
unfolding run_in_order run_idle all_finish
run_command_flow_sequence s true running flows active =
    if allb (is_busy running) flows
    then record { flows = flows; ok = false; active = active }
    else record {
      flows = run_idle s running flows;
      ok = not (anyb (is_busy running) flows) && all_finish s running flows;
      active = active;
    }
run_command_flow_sequence s false running flows active =
    if anyb (is_busy running) flows
    then record { flows = flows; ok = false; active = active }
    else run_in_order s flows active

-- `runAllCommandFlows`, with what the sequence returns.
unfoldable pub run_all_command_flows : Surroundings → Bool → Workspace → Workspace × Bool
unfolding run_command_flow_sequence
run_all_command_flows s parallel w =
    let r = run_command_flow_sequence s parallel w.running w.flows w.active_flow_id in
    (record w { flows = r.flows; active_flow_id = r.active }, r.ok)

pub data GroupRun : Type 0 where
  no_group group_busy group_empty files_missing : GroupRun
  ran : Bool → GroupRun

unfoldable pub run_found_group :
    Surroundings → Bool → Text → Option Group → Option ℕ → Workspace → Workspace × GroupRun
unfolding run_command_flow_sequence command_group_file_refs
run_found_group s parallel removed (some g) (some k) w =
    let r = run_command_flow_sequence s parallel w.running g.flows w.active_flow_id in
    if is_running_group g.id w
    then (w, group_busy)
    else if is_empty g.flows
    then (w, group_empty)
    else if anyb (λ (ref : ShownRef). ref.missing) (command_group_file_refs w.files removed g)
    then (
      record w { groups = edit_group k (λ (g : Group). record g { collapsed = false }) w.groups },
      files_missing,
    )
    else (
      record w {
        groups = edit_group k (with_flows (λ flows. r.flows)) w.groups;
        active_flow_id = r.active;
      },
      ran r.ok,
    )
run_found_group s parallel removed (some g) none w = (w, no_group)
run_found_group s parallel removed none at w = (w, no_group)

-- `runCommandGroup`
unfoldable pub run_command_group :
    Surroundings → Bool → Text → Text → Workspace → Workspace × GroupRun
unfolding run_found_group command_group
run_command_group s parallel removed group_id w =
    run_found_group s parallel removed (command_group group_id w) (group_index group_id w.groups) w

abbrev pub every_success : List Line → Bool
every_success lines = not (is_empty lines) && allb (has_status Status.success) lines

-- `commandFlowStatus`
unfoldable pub command_flow_status : Flow → Text
command_flow_status flow =
    if anyb (has_status Status.running) flow.lines
    then txt "running"
    else if anyb (has_status Status.error) flow.lines
    then txt "error"
    else if every_success flow.lines
    then txt "ok"
    else []
