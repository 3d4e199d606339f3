-- ===== src/Sync.antt =====
-- app.js: what the page fetches: the logs of the selected containers (`loadSelectedContainerLogs`),
-- their older pages (`loadOlderSelectedContainerLogs`) and the order of the nodes. A function stands
-- for what happens up to a request or from its answer on, since the page goes on meanwhile.
pub mod Backend
pub mod Paused
mod Tests
use log_agent.Prelude.{
  ℕ, zero, suc, ◌+◌, ◌-◌, min, leb, ltb, Bool, true, false, not, ◌&&◌, ◌||◌, List, [], ◌∷◌, ◌++◌,
  map, Option, none, some, Text, txt, text_eq, nat_eq, ◌==◌, if◌then◌else◌, is_empty, length, anyb,
  allb, find_first,
}
use log_agent.Prelude.Dict.{Dict, get, set}
use log_agent.Prelude.Members.{contains}
use log_agent.Prelude.Sort.{sort_by}
use log_agent.LogBuffer.{Log, merge_logs}
use log_agent.LogView.{join}
use log_agent.Scope.{Scope, Node, Target, container_key, selected_container_targets}
use log_agent.Scope.Actions.{reset_log_pagination}
use log_agent.Stream.{Stream, logs_or_none}
use log_agent.Reorder.{move_connection_item}

-- The stream with the scope, and the globals of the requests. `event_source` is the number of the
-- open `EventSource`; each new one gets the next number.
pub record Page : Type 0 where
  pub stream : Stream
  pub connected : Bool
  pub history_loading : Bool
  pub range : Text
  pub rule_order : List Text
  pub capacity : ℕ
  pub event_source : Option ℕ
  pub next_source : ℕ
  pub history_timer : Bool
  pub retry_timer : Bool
  pub older_loading : Bool
  pub exhausted : List Text
  pub preview_rendered : Bool

abbrev pub with_scope : (Scope → Scope) → Page → Page
with_scope f p = record p { stream = record p.stream { scope = f p.stream.scope } }

-- `state.selectedContainers.join('|')`
abbrev pub selection_key : Page → Text
selection_key p = join p.stream.scope.selected_containers

abbrev pub target_key : Target → Text
target_key target = container_key target.node_id target.container_id

abbrev pub is_cached : Scope → Target → Bool
is_cached s target = elim (get (target_key target) s.log_cache) [ none ↦ false | some logs ↦ true ]

-- `loadSelectedContainerLogs` up to its requests: the selection's key and the targets to ask for.
unfoldable pub begin_container_load : Page → Page × Option (Text × List Target)
unfolding join selected_container_targets container_key
begin_container_load p =
    let targets = selected_container_targets p.stream.scope in
    let key = selection_key p in
    if p.stream.paused || (is_empty targets || not p.connected)
    then (record p { retry_timer = false }, none)
    else if p.stream.scope.loaded_selection_key == key && allb (is_cached p.stream.scope) targets
    then (p, none)
    else (p, some (key, targets))

-- The page was paused, or another selection was made.
abbrev pub is_stale : Text → Page → Bool
is_stale key p = p.stream.paused || not (selection_key p == key)

-- The logs of one container.
unfoldable pub take_container_logs : Text → Target → List Log → Page → Page
take_container_logs key target logs p =
    if is_stale key p
    then p
    else with_scope
        (λ (s : Scope). record s { log_cache = set (target_key target) logs s.log_cache }) p

-- After all answers; `loading` says that one of them is still to be completed.
unfoldable pub end_container_load : Text → Bool → Page → Page
end_container_load key loading p =
    if is_stale key p
    then p
    else if loading
    then record p { retry_timer = true }
    else with_scope (λ (s : Scope). record s { loaded_selection_key = key }) p

-- The timer for the next try.
unfoldable pub retry_container_load : Text → Page → Page × Option (Text × List Target)
unfolding begin_container_load
retry_container_load key p =
    let q = record p { retry_timer = false } in
    if selection_key p == key then begin_container_load q else (q, none)

-- `Number(log.timestamp) || value` in the minimum.
abbrev pub older_time : Option ℕ → Option ℕ → Option ℕ
older_time none value = value
older_time (some zero) value = value
older_time (some (suc time)) none = some (suc time)
older_time (some (suc time)) (some value) = some (min value (suc time))

unfoldable pub oldest_of : List Log → Option ℕ → Option ℕ
oldest_of [] value = value
oldest_of (log ∷ logs) value = oldest_of logs (older_time log.timestamp value)

abbrev pub range_key : Page → Text → Text
range_key p key = p.range ++ txt "|" ++ key

-- The time before which a target's page is asked for; `none` is a target that is not asked for.
unfoldable pub older_before : Page → Target → Option ℕ
unfolding oldest_of
older_before p target =
    if contains (range_key p (target_key target)) p.exhausted
    then none
    else oldest_of (logs_or_none (get (target_key target) p.stream.scope.log_cache)) none

pub record OlderPage : Type 0 where
  pub key : Text
  pub logs : List Log
  pub has_more : Bool

-- `loadOlderSelectedContainerLogs` up to its requests: the targets with their times.
unfoldable pub begin_older_load : Page → Page × List (Target × Option ℕ)
unfolding older_before
begin_older_load p =
    let targets = selected_container_targets p.stream.scope in
    if is_empty targets || (p.stream.scope.search.loading || p.older_loading) then (p, []) else (
      record p { older_loading = true },
      map (λ (target : Target). (target, older_before p target)) targets,
    )

abbrev pub take_older_page : OlderPage → Page → Page
take_older_page page p =
    let q =
      with_scope
        (λ (s : Scope). record s {
          log_cache =
              set page.key
                (merge_logs p.capacity false (logs_or_none (get page.key s.log_cache))
                  (map some page.logs))
                s.log_cache;
        })
        p in
    if page.has_more then q else record q { exhausted = p.exhausted ++ range_key p page.key ∷ [] }

abbrev pub take_older_pages : List OlderPage → Page → Page
take_older_pages [] p = p
take_older_pages (page ∷ pages) p = take_older_pages pages (take_older_page page p)

-- The end of `loadOlderSelectedContainerLogs`, with a page for every target (one that was not asked
-- for has no logs and no more of them); `none` is a request that failed.
unfoldable pub end_older_load : Option (List OlderPage) → Page → Page
unfolding merge_logs
end_older_load none p = record p { older_loading = false }
end_older_load (some pages) p =
    with_scope (λ (s : Scope). record s { pagination = record s.pagination { window_key = [] } })
      (record (take_older_pages pages p) { older_loading = false })

-- `maybeLoadOlderLogs`, with the key of the search over the whole range and the place of the view.
unfoldable pub may_load_older : Text → ℕ → Page → Bool
may_load_older search_key scroll_top p =
    not (p.older_loading || (p.stream.scope.search.loading || not (is_empty search_key)))
    && (anyb (λ (key : Text). leb 5000 (length (logs_or_none (get key p.stream.scope.log_cache))))
          p.stream.scope.selected_containers
        && leb scroll_top 2)

-- `clearLogCache`, when the request succeeds, with what is loaded next.
unfoldable pub clear_log_cache : Page → Page × Option (Text × List Target)
unfolding reset_log_pagination begin_container_load
clear_log_cache p = begin_container_load (record p {
  stream = record p.stream {
    logs = [];
    scope = record p.stream.scope {
      log_cache = [];
      loaded_selection_key = [];
      pagination = reset_log_pagination p.stream.scope.pagination;
    };
  };
})

abbrev pub node_ids : List Node → List Text
node_ids nodes = map (λ (node : Node). node.id) nodes

-- The answer of `/api/logs/range` after a change of the range, up to the `syncGoBackend` behind it;
-- `strict` says that its status is `reloading`.
unfoldable pub reload_range : Bool → Page → Page
unfolding reset_log_pagination
reload_range false p = p
reload_range true p = record p {
  history_loading = true;
  stream = record p.stream {
    logs = [];
    scope = record p.stream.scope {
      log_cache = [];
      pagination = reset_log_pagination p.stream.scope.pagination;
    };
  };
}
