-- ===== src/LogView.antt =====
-- app.js: the rows of the log view: the logs it chooses from, `logsForActiveContainer`; the search
-- text, `normalizedLogSearch` and `fullRangeSearchKey`; the filter with the counts of the levels,
-- `filteredLogs`; and the part of the rows that is drawn, `logVirtualWindow`. `toLowerCase` and the
-- clock are arguments.
pub mod Viewport
pub mod Badges
pub mod Sources
pub mod Search
mod Tests
use log_agent.Prelude.{
  ℕ, zero, suc, ◌+◌, ◌-◌, ◌*◌, ◌/◌, min, max, ltb, leb, Bool, true, false, not, ◌&&◌, ◌||◌, List,
  [], ◌∷◌, ◌++◌, map, Option, none, some, Text, txt, text_eq, nat_eq, ◌==◌, if◌then◌else◌, is_empty,
  find_first, filterb, anyb,
}
use log_agent.Prelude.Dict.{Dict, get, values}
use log_agent.Prelude.Members.{contains}
use log_agent.Prelude.Texts.{trim_start, trim_end, is_space, is_blank, includes}
use log_agent.LogBuffer.{Log, index_logs, sort_logs_newest}
use log_agent.Scope.{Scope, Node, Target, get_node, selected_container_targets}
use log_agent.Stream.{source_key, logs_or_none}

-- `state` and the globals, as far as the filter reads them.
pub record View : Type 0 where
  pub scope : Scope
  pub logs : List Log
  pub query : Text
  pub global_query : Text
  pub level : Text
  pub range : Text
  pub noise : Bool

-- `rangeDurations[state.range]`
pub record Clock : Type 0 where
  pub now : ℕ
  pub durations : Dict Text ℕ

-- `replace(/\s+/g, ' ')`; the flag says that the character before was a space.
unfoldable pub collapse : Bool → Text → Text
unfolding is_space
collapse spaced [] = []
collapse spaced (c ∷ s) =
    let after = collapse (is_space c) s in
    if is_space c then (if spaced then after else 32 ∷ after) else c ∷ after

-- `normalizedLogSearch`
unfoldable pub normalized_log_search : (Text → Text) → Text → Text
unfolding collapse trim_start trim_end
normalized_log_search lower value = lower (trim_end (trim_start (collapse false value)))

-- `keys.join('|')`
unfoldable pub join : List Text → Text
join [] = []
join (key ∷ []) = key
join (key ∷ next ∷ keys) = key ++ (txt "|" ++ join (next ∷ keys))

-- `fullRangeSearchKey`
unfoldable pub full_range_search_key : (Text → Text) → View → Text
unfolding normalized_log_search join is_blank
full_range_search_key lower v =
    let query = normalized_log_search lower v.query in
    if not (is_blank v.global_query)
    then []
    else if not (is_empty query) && not (is_empty v.scope.selected_containers)
    then v.range ++ (txt "|" ++ (join v.scope.selected_containers ++ (txt "|" ++ query)))
    else []

-- `selectedSources`
unfoldable pub selected_sources : List Node → List Target → List Text
unfolding get_node source_key
selected_sources nodes [] = []
selected_sources nodes (target ∷ targets) =
    let rest = selected_sources nodes targets in
    elim (get_node target.node_id nodes) [
      | none ↦ rest
      | some node ↦
          source_key node.name target.name ∷ source_key node.name target.container_id ∷ rest
    ]

unfoldable pub cached_logs : Dict Text (List Log) → List Text → List Log
unfolding get
cached_logs cache [] = []
cached_logs cache (key ∷ keys) = logs_or_none (get key cache) ++ cached_logs cache keys

-- The logs that `logsForActiveContainer` puts into `merged`, in order.
unfoldable pub container_logs : View → List Log
unfolding selected_sources cached_logs source_key selected_container_targets
container_logs v =
    let sources = selected_sources v.scope.nodes (selected_container_targets v.scope) in
    filterb (λ log. contains (source_key log.node log.container) sources) v.logs
    ++ cached_logs v.scope.log_cache v.scope.selected_containers

-- `logsForActiveContainer`
unfoldable pub logs_for_active_container : View → List Log
unfolding container_logs index_logs sort_logs_newest
logs_for_active_container v =
    if is_empty v.scope.selected_containers
    then v.logs
    else sort_logs_newest (values (index_logs (map some (container_logs v)) []))

-- `nodeIdByName`
unfoldable pub node_id_by_name : List Node → Text → Option Text
node_id_by_name nodes name = elim (find_first (λ (node : Node). node.name == name) nodes) [
  | none ↦ none
  | some node ↦ some node.id
]

-- `isLogInSelectedRange`; `timestamp >= now - duration`
unfoldable pub is_log_in_selected_range : Clock → Text → Log → Bool
unfolding get
is_log_in_selected_range clock range log = elim log.timestamp [
  | none ↦ true
  | some timestamp ↦ elim (get range clock.durations) [
    | none ↦ true
    | some duration ↦ duration == 0 || leb clock.now (timestamp + duration)
  ]
]

abbrev pub has_id : Text → Option Text → Bool
has_id id none = false
has_id id (some found) = found == id

abbrev pub is_selected : List Text → Option Text → Bool
is_selected ids none = false
is_selected ids (some id) = contains id ids

-- The tests of the loop of `filteredLogs`, but for the one of the level.
unfoldable pub is_match : (Text → Text) → Clock → View → Log → Bool
unfolding node_id_by_name is_log_in_selected_range normalized_log_search includes
    selected_container_targets
is_match lower clock v log =
    let query = normalized_log_search lower (v.query ++ (32 ∷ v.global_query)) in
    let node_id = node_id_by_name v.scope.nodes log.node in
    is_log_in_selected_range clock v.range log
    && ((is_empty v.scope.selected_nodes || is_selected v.scope.selected_nodes node_id)
        && ((is_empty v.scope.selected_containers
              || anyb
                  (λ (target : Target).
                    has_id target.node_id node_id
                    && (log.container == target.name || log.container == target.container_id))
                  (selected_container_targets v.scope))
            && ((is_empty query
                  || includes query (
                      normalized_log_search lower
                        (log.node ++ (32 ∷ (log.container ++ (32 ∷ log.message))))))
                && (not v.noise || not (includes (txt "/healthz") log.message)))))

pub record Counts : Type 0 where
  pub all : ℕ
  pub info : ℕ
  pub warn : ℕ
  pub error : ℕ

abbrev pub one_if : Bool → ℕ
one_if b = if b then 1 else 0

-- `counts.all++; if (counts[log.level] !== undefined) counts[log.level]++`
unfoldable pub count : Log → Counts → Counts
count log c = record {
  all = c.all + 1 + one_if (log.level == txt "all");
  info = c.info + one_if (log.level == txt "info");
  warn = c.warn + one_if (log.level == txt "warn");
  error = c.error + one_if (log.level == txt "error");
}

-- The loop of `filteredLogs`, with `counts` and `results`.
unfoldable pub filter_loop : (Log → Bool) → Text → List Log → Counts → List Log → Counts × List Log
unfolding count
filter_loop keep level [] counts results = (counts, results)
filter_loop keep level (log ∷ source) counts results =
    let shown = if level == txt "all" || log.level == level then results ++ log ∷ [] else results in
    if keep log
    then filter_loop keep level source (count log counts) shown
    else filter_loop keep level source counts results

-- `reverse`
unfoldable pub reversed : List Log → List Log
reversed [] = []
reversed (log ∷ logs) = reversed logs ++ log ∷ []

-- The source of the rows: the results of a search over the full range, or the buffered logs.
unfoldable pub source_of : (Text → Text) → View → List Log
unfolding full_range_search_key logs_for_active_container
source_of lower v =
    let key = full_range_search_key lower v in
    if not (is_empty key) && v.scope.search.key == key
    then v.scope.search.logs
    else logs_for_active_container v

-- `filteredLogs`, with `levelCounts`
unfoldable pub filtered_logs : (Text → Text) → Clock → View → Counts × List Log
unfolding filter_loop is_match source_of reversed
filtered_logs lower clock v =
    let r =
      filter_loop (is_match lower clock v) v.level (source_of lower v)
        (record { all = 0; info = 0; warn = 0; error = 0 }) [] in
    (r.0, reversed r.1)

pub record Window : Type 0 where
  pub start : ℕ
  pub end : ℕ

-- `Math.max(12, Math.ceil(height / logVirtualRowHeight))`
abbrev pub viewport_rows : ℕ → ℕ
viewport_rows height = max 12 ((height + 73) / 74)

-- `logVirtualWindow`, with the height and the place of the view in pixels.
unfoldable pub log_virtual_window : ℕ → ℕ → ℕ → Bool → Window
log_virtual_window total height top stick =
    let size = viewport_rows height + 60 * 2 in
    let anchor = top / 74 in
    let start = min (total - 1) (anchor - 60) in
    if total == 0
    then record { start = 0; end = 0 }
    else if leb total 500
    then record { start = 0; end = total }
    else if stick
    then record { start = total - size; end = total }
    else record { start = start; end = min total (start + size) }
