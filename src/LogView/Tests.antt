-- ===== src/LogView/Tests.antt =====
-- A view of a few logs, and the theorems at it.
use log_agent.Prelude.{
  ℕ, ◌+◌, false, true, List, [], ◌∷◌, Option, none, some, txt, Text, ◌≡◌, refl, text_eq, nat_eq,
  All, inl, inr, arith,
}
use log_agent.Prelude.Members.{Distinct}
use log_agent.Prelude.Sort.{SortedBy}
use log_agent.Scope.Tests.{empty, nodes}
use log_agent.LogBuffer.{Log, newest_first}
use log_agent.LogBuffer.Ids.{ids, lookup, last_with}
use log_agent.LogView.{
  View, Clock, Counts, source_of, filtered_logs, logs_for_active_container, log_virtual_window,
}
use log_agent.LogView.Viewport.{IsWindow, log_virtual_window-IsWindow}
use log_agent.LogView.Badges.{HasLevel, rows, filtered_logs-badges}
use log_agent.LogView.Sources.{logs_for_active_container_lem, or_log, last_cached, live_logs}
use log_agent.LogView.Search.{
  Job, Event, schedule_full_range_search, answer_full_range_search, answer_full_range_search-late,
  happen, happen_all,
}

abbrev log : ℕ → Text → Log
log id level = record {
  id = id;
  timestamp = some id;
  level = level;
  node = txt "N";
  container = txt "A";
  message = txt "m";
}

abbrev same : Text → Text
same s = s

abbrev view : View
view = record {
  scope = record empty {
    nodes = nodes;
    selected_nodes = txt "n" ∷ [];
    selected_containers = txt "n::a" ∷ [];
  };
  logs = log 3 (txt "warn") ∷ log 2 (txt "info") ∷ [];
  query = txt " M ";
  global_query = [];
  level = txt "warn";
  range = txt "30m";
  noise = true;
}

abbrev lower_m : Text → Text
lower_m s = txt "m"

abbrev clock : Clock
clock = record { now = 5; durations = (txt "30m", 1800000) ∷ [] }

filtered :
    filtered_logs lower_m clock view
    ≡ (record { all = 2; info = 1; warn = 1; error = 0 }, log 3 (txt "warn") ∷ [])
unfolding filtered_logs log_agent.Prelude.Sort.sort_by newest_first
filtered = refl

levels : All HasLevel (source_of lower_m view)
unfolding source_of log_agent.Prelude.Sort.sort_by newest_first
levels = (inr (inl refl), (inl refl, tt))

filtered_logs-badges_example :
    let c : Counts = (filtered_logs lower_m clock view).0 in
    (c.all ≡ rows lower_m clock view (txt "all"))
    × (c.info ≡ rows lower_m clock view (txt "info"))
    × (c.warn ≡ rows lower_m clock view (txt "warn"))
    × (c.error ≡ rows lower_m clock view (txt "error"))
    × (c.all ≡ c.info + c.warn + c.error)
filtered_logs-badges_example = filtered_logs-badges lower_m clock view levels

log_virtual_window-IsWindow_example :
    IsWindow 9000 700 7400 false (log_virtual_window 9000 700 7400 false)
log_virtual_window-IsWindow_example = log_virtual_window-IsWindow 9000 700 7400 false

logs_for_active_container_lem_example :
    SortedBy newest_first (logs_for_active_container view)
    × Distinct (ids (logs_for_active_container view))
    × ((id : ℕ)
        → lookup id (logs_for_active_container view)
          ≡ or_log
              (last_cached id view.scope.log_cache view.scope.selected_containers)
              (last_with id (live_logs view)))
logs_for_active_container_lem_example = logs_for_active_container_lem view refl

abbrev job : Job
job = record { request = 1; key = txt "30m|n::a|m" }

abbrev waiting : View
waiting = record view {
  scope = record view.scope {
    search = record { timer = true; request = 1; logs = []; key = []; loading = true };
  };
}

scheduled : schedule_full_range_search lower_m true view ≡ (waiting, some job)
unfolding schedule_full_range_search
scheduled = refl

answer_full_range_search-late_example :
    let now : View =
      happen_all lower_m
        (Event.schedule true ∷ [])
        (happen lower_m Event.clear (happen_all lower_m [] waiting)) in
    answer_full_range_search lower_m job (some ((log 1 (txt "info") ∷ []) ∷ [])) now ≡ now
answer_full_range_search-late_example =
    answer_full_range_search-late lower_m true view waiting job [] (Event.schedule true ∷ [])
      (some ((log 1 (txt "info") ∷ []) ∷ [])) scheduled
