-- ===== src/Sync/Backend.antt =====
-- app.js: the page and the Go server: `syncGoBackend`, `scheduleHistorySync`, `connectGoStream`,
-- `scheduleInitialLogCompletion` and `reorderNodes`.
use log_agent.Prelude.{
  ℕ, ◌+◌, ◌-◌, max, ltb, Bool, true, false, not, ◌&&◌, ◌||◌, List, [], ◌∷◌, map, Option, none, some,
  Text, text_eq, nat_eq, ◌==◌, if◌then◌else◌, is_empty,
}
use log_agent.Prelude.Dict.{Dict, set}
use log_agent.LogBuffer.{Log, merge_logs}
use log_agent.Scope.{Scope, Node, Target}
use log_agent.Scope.Clicks.{sync_nodes}
use log_agent.Stream.{Stream, enqueue_stream_log}
use log_agent.Reorder.{move_connection_item}
use log_agent.Reorder.Rules.{normalize_rule_order}
use log_agent.Sync.{Page, with_scope, begin_container_load, node_ids}
use log_agent.Scope.Nodes.{apply_node_order}

-- The greatest id of the buffered logs.
abbrev pub known_log_id : List Log → ℕ
known_log_id [] = 0
known_log_id (log ∷ logs) = max log.id (known_log_id logs)

-- The `since` of the request; `none` asks for everything.
unfoldable pub sync_cursor : Bool → Page → Option ℕ
sync_cursor incremental p =
    let known = if incremental then known_log_id p.stream.logs else 0 in
    if known == 0 then none else some (known - 2000)

-- The answer of `/api/bootstrap`. `nodes` are the visitor's own ones in browser mode; `range` is `none`
-- for a range without a label, `capacity` for one that is no positive whole number.
pub record Bootstrap : Type 0 where
  pub logs : List Log
  pub processed : ℕ
  pub history_loading : Bool
  pub nodes : List Node
  pub range : Option Text
  pub rule_order : Option (List Text)
  pub capacity : Option ℕ

-- `serverRestarted`, by the number of processed logs before the request.
unfoldable pub is_restarted : Option ℕ → ℕ → Bootstrap → Bool
is_restarted none before payload = false
is_restarted (some cursor) before payload = ltb payload.processed before

abbrev pub or_value {ℓ} : {A : Type ℓ} → Option A → A → A
or_value none old = old
or_value (some value) old = value

abbrev pub initial_log_preview_size : ℕ
initial_log_preview_size = 50

abbrev pub preview : Bool → Scope → Scope
preview false s = s
preview true s = record s {
  pagination = record s.pagination {
    preview_active = true;
    preview_limit = initial_log_preview_size;
  };
}

-- `stageInitialLogs`
abbrev pub is_staged : Bootstrap → Page → Bool
is_staged payload p = not p.stream.paused && (not p.preview_rendered && not (is_empty payload.logs))

-- The logs, unless the page is paused; `merged` says that they are merged into the buffered ones.
unfoldable pub take_logs : Bool → ℕ → Bootstrap → Stream → Stream
unfolding merge_logs
take_logs merged capacity payload s = if s.paused then s else record s {
  logs = if merged then merge_logs capacity false s.logs (map some payload.logs) else payload.logs;
  processed = payload.processed;
}

-- What `syncGoBackend` changes when the last answer is there, before it loads and connects.
unfoldable pub take_payload : Bool → Bool → Bootstrap → Page → Page
unfolding sync_nodes take_logs normalize_rule_order
take_payload incremental restarted payload p =
    let capacity = or_value payload.capacity p.capacity in
    let staged = is_staged payload p in
    let s = take_logs (incremental && not restarted) capacity payload p.stream in
    record p {
      stream = record s { scope = preview staged (sync_nodes payload.nodes s.scope) };
      capacity = capacity;
      history_loading = if p.stream.paused then p.history_loading else payload.history_loading;
      preview_rendered = p.preview_rendered || staged;
      range = or_value payload.range p.range;
      rule_order = normalize_rule_order (some (or_value payload.rule_order p.rule_order));
      connected = true;
    }

-- `scheduleInitialLogCompletion`
unfoldable pub schedule_initial_log_completion : Page → Page
schedule_initial_log_completion p =
    let g = p.stream.scope.pagination in
    if g.preview_timer || (not g.preview_active || p.history_loading)
    then p
    else with_scope
        (λ (s : Scope). record s {
          pagination = record s.pagination { preview_timer = true; preview_due = true };
        })
        p

-- Its timer.
unfoldable pub complete_initial_logs : Page → Page
complete_initial_logs p =
    with_scope
      (λ (s : Scope). record s {
        pagination = record s.pagination {
          preview_timer = false;
          preview_due = false;
          preview_active = p.history_loading && s.pagination.preview_active;
          preview_limit = if p.history_loading then s.pagination.preview_limit else 0;
        };
      })
      p

-- `connectGoStream`: the former stream is closed, and the new one is the current one.
unfoldable pub connect_go_stream : Page → Page
connect_go_stream p =
    if p.stream.paused
    then p
    else record p { event_source = some p.next_source; next_source = p.next_source + 1 }

abbrev pub is_current : ℕ → Page → Bool
is_current n p = elim p.event_source [ none ↦ false | some m ↦ m == n ]

-- `onopen`: whether the stream is closed again.
unfoldable pub closes_on_open : ℕ → Page → Bool
closes_on_open n p = not (is_current n p) || p.stream.paused

-- `onmessage`
unfoldable pub take_message : ℕ → Log → Page → Page
unfolding enqueue_stream_log
take_message n log p =
    if p.stream.paused || not (is_current n p)
    then p
    else record p { stream = enqueue_stream_log log p.stream }

-- `onerror`
unfoldable pub take_stream_error : ℕ → Page → Page
take_stream_error n p =
    if p.stream.paused || not (is_current n p) then p else record p { connected = false }

abbrev pub has_source : Page → Bool
has_source p = elim p.event_source [ none ↦ false | some n ↦ true ]

-- The end of `syncGoBackend`; `closed` says that the stream is closed. The result is what
-- `loadSelectedContainerLogs` asks for.
unfoldable pub end_sync :
    Bool → Bool → Bool → Bool → Bootstrap → Page → Page × Option (Text × List Target)
unfolding take_payload schedule_initial_log_completion connect_go_stream begin_container_load
end_sync incremental restarted connect closed payload p =
    let q = take_payload incremental restarted payload p in
    let r = if p.stream.paused then q else schedule_initial_log_completion q in
    let c = if connect || (not (has_source r) || closed) then connect_go_stream r else r in
    if p.stream.paused || is_empty c.stream.scope.selected_containers
    then (c, none)
    else begin_container_load c

-- `syncGoBackend` when a request fails.
unfoldable pub fail_sync : Page → Page
fail_sync p = record p { connected = false }

abbrev pub may_sync_history : Page → Bool
may_sync_history p = not p.stream.paused && (p.connected && p.history_loading)

-- `scheduleHistorySync`
unfoldable pub schedule_history_sync : Page → Page
schedule_history_sync p =
    if p.history_timer || not (may_sync_history p) then p else record p { history_timer = true }

-- Its timer: whether an incremental `syncGoBackend` follows.
unfoldable pub fire_history_sync : Page → Page × Bool
fire_history_sync p = (record p { history_timer = false }, may_sync_history p)

-- What becomes of a new order: kept in the browser or not, or answered by the server.
pub data OrderAnswer : Type 0 where
  in_browser : Bool → OrderAnswer
  ordered : List Text → OrderAnswer
  order_failed : OrderAnswer

abbrev pub answer_order : OrderAnswer → List Node → List Node → List Node
answer_order (in_browser true) wanted nodes = apply_node_order (node_ids wanted) nodes
answer_order (in_browser false) wanted nodes =
    apply_node_order (node_ids nodes) (apply_node_order (node_ids wanted) nodes)
answer_order (ordered order) wanted nodes = apply_node_order order nodes
answer_order order_failed wanted nodes = nodes

-- `reorderNodes`, when the nodes do not change before the answer.
unfoldable pub reorder_nodes : Text → Text → Bool → OrderAnswer → List Node → List Node
unfolding move_connection_item apply_node_order
reorder_nodes from to after answer nodes =
    elim (move_connection_item (λ (node : Node). node.id) nodes from to after) [
      | none ↦ nodes
      | some moved ↦ answer_order answer moved nodes
    ]

-- `{ ...state, ...updates }`
abbrev pub spread : Dict Text Bool → Dict Text Bool → Dict Text Bool
spread rules [] = rules
spread rules ((rule, on) ∷ updates) = spread (set rule on rules) updates

-- The end of `persistRuleGroup`: the server's rules over the present ones, or the former rules when
-- the request fails.
abbrev pub end_rule_group :
    Option (Dict Text Bool) → Dict Text Bool → Dict Text Bool → Dict Text Bool
end_rule_group none previous rules = previous
end_rule_group (some answered) previous rules = spread rules answered

-- `persistRuleGroup`: the switches of the rules until the answer and after it, when nothing else
-- changes them meanwhile.
unfoldable pub persist_rule_group :
    Dict Text Bool → Option (Dict Text Bool) → Dict Text Bool → Dict Text Bool × Dict Text Bool
persist_rule_group updates answer rules =
    let shown = spread rules updates in (shown, end_rule_group answer rules shown)
