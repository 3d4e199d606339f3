-- ===== src/LogView/Sources.antt =====
-- app.js, `logsForActiveContainer`: what the selected containers have to show.
use log_agent.Prelude.{
  ◌++◌, filterb, Text, text_eq, arith, ℕ, false, List, [], ◌∷◌, map, Option, none, some, ◌≡◌, refl,
  ap, ◌∙◌, is_empty, nat_eq, append-nil, sym,
}
use mathlib.Core.Path.{subst}
use log_agent.Scope.{Node, Target, selected_container_targets}
use log_agent.Stream.{source_key, logs_or_none}
use log_agent.Stream.Routing.{is_of_some}
use log_agent.Prelude.Members.{contains}
use log_agent.Prelude.Dict.{values, Dict, get}
use log_agent.Prelude.Members.{Distinct}
use log_agent.Prelude.Sort.{SortedBy, sort_by-SortedBy}
use log_agent.LogBuffer.{Log, newest_first, index_logs}
use log_agent.LogBuffer.Order.{newest_first-total}
use log_agent.LogBuffer.Merge.{logs_of}
use log_agent.LogBuffer.Ids.{
  ids, lookup, last_with, Distinct-merged, Distinct-sort_logs_newest, lookup-sort_logs_newest,
}
use log_agent.LogBuffer.Lookup.{lookup-merged}
use log_agent.LogView.{
  View, container_logs, logs_for_active_container, cached_logs, selected_sources,
}

logs_of-map : (logs : List Log) → logs_of (map some logs) ≡ logs
logs_of-map [] = refl
logs_of-map (log ∷ logs) = ap (log ∷◌) (logs_of-map logs)

Distinct-indexed : (logs : List Log) → Distinct (ids (values (index_logs (map some logs) [])))
Distinct-indexed logs =
    subst (λ l. Distinct (ids l)) (append-nil (values (index_logs (map some logs) [])))
      (Distinct-merged (map some logs) [] tt)

last_or_none : (o : Option Log) → (elim o [ none ↦ none | some log ↦ some log ]) ≡ o
last_or_none none = refl
last_or_none (some log) = refl

lookup-indexed :
    (id : ℕ) (logs : List Log)
    → lookup id (values (index_logs (map some logs) [])) ≡ last_with id logs
lookup-indexed id logs =
    sym (ap (lookup id) (append-nil (values (index_logs (map some logs) []))))
    ∙ lookup-merged id (map some logs) []
    ∙ last_or_none (last_with id (logs_of (map some logs)))
    ∙ ap (last_with id) (logs_of-map logs)

-- The last log with an id in the cached lists of some containers.
abbrev pub last_cached : ℕ → Dict Text (List Log) → List Text → Option Log
last_cached id cache [] = none
last_cached id cache (key ∷ keys) = elim (last_cached id cache keys) [
  | some later ↦ some later
  | none ↦ elim (get key cache) [ none ↦ none | some logs ↦ last_with id logs ]
]

-- The first of two logs that is there.
abbrev pub or_log : Option Log → Option Log → Option Log
or_log none other = other
or_log (some log) other = some log

last_with-append :
    (id : ℕ) (xs ys : List Log)
    → last_with id (xs ++ ys) ≡ or_log (last_with id ys) (last_with id xs)
last_with-append id [] ys = ground arith
last_with-append id (x ∷ xs) ys = ground (arith, last_with-append id xs ys)

last_with-cached_logs :
    (id : ℕ) (cache : Dict Text (List Log)) (keys : List Text)
    → last_with id (cached_logs cache keys) ≡ last_cached id cache keys
unfolding cached_logs
last_with-cached_logs id cache [] = refl
last_with-cached_logs id cache (key ∷ keys) = ground (
  arith,
  last_with-append id (logs_or_none (get key cache)) (cached_logs cache keys),
  last_with-cached_logs id cache keys,
)

contains-selected_sources :
    (nodes : List Node) (targets : List Target) (log : Log)
    → contains (source_key log.node log.container) (selected_sources nodes targets)
      ≡ is_of_some nodes targets log
unfolding selected_sources source_key
contains-selected_sources nodes [] log = refl
contains-selected_sources nodes (target ∷ targets) log =
    ground (arith, contains-selected_sources nodes targets log)

filterb-selected_sources :
    (nodes : List Node) (targets : List Target) (logs : List Log)
    → filterb
        (λ log. contains (source_key log.node log.container) (selected_sources nodes targets))
        logs
      ≡ filterb (is_of_some nodes targets) logs
filterb-selected_sources nodes targets [] = refl
filterb-selected_sources nodes targets (log ∷ logs) =
    rw (contains-selected_sources nodes targets log, filterb-selected_sources nodes targets logs)
      refl

-- The live logs of the selected containers.
abbrev pub live_logs : View → List Log
live_logs v = filterb (is_of_some v.scope.nodes (selected_container_targets v.scope)) v.logs

-- Where containers are selected, the logs to choose from are newest first, none has an id twice, and
-- under each id there is the last log with it in the cached lists of the selected containers, or
-- else, where none of them has it, the last one with it among the live logs that are of a selected
-- container: that have its node's name, and its name or its id, the two compared as one text with a
-- character 0 between them.
pub logs_for_active_container_lem :
    (v : View)
    → is_empty v.scope.selected_containers ≡ false
    → SortedBy newest_first (logs_for_active_container v)
      × Distinct (ids (logs_for_active_container v))
      × ((id : ℕ)
          → lookup id (logs_for_active_container v)
            ≡ or_log
                (last_cached id v.scope.log_cache v.scope.selected_containers)
                (last_with id (live_logs v)))
unfolding logs_for_active_container container_logs
logs_for_active_container_lem v some_selected =
    let found = values (index_logs (map some (container_logs v)) []) in
    let cached = cached_logs v.scope.log_cache v.scope.selected_containers in
    let same = filterb-selected_sources v.scope.nodes (selected_container_targets v.scope) v.logs in
    rw some_selected (
      sort_by-SortedBy newest_first newest_first-total found,
      Distinct-sort_logs_newest found (Distinct-indexed (container_logs v)),
      λ id.
          lookup-sort_logs_newest id found (Distinct-indexed (container_logs v))
          ∙ lookup-indexed id (container_logs v)
          ∙ ap (λ logs. last_with id (logs ++ cached)) same
          ∙ last_with-append id (live_logs v) cached
          ∙ ap (λ o. or_log o (last_with id (live_logs v)))
              (last_with-cached_logs id v.scope.log_cache v.scope.selected_containers),
    )
