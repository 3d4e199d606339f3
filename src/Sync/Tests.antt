-- ===== src/Sync/Tests.antt =====
-- A page, and the theorem at it.
use log_agent.Prelude.{
  ℕ, Bool, true, false, List, [], ◌∷◌, ◌++◌, map, Option, none, some, Text, txt, ◌≡◌, refl,
}
use log_agent.LogBuffer.{Log}
use log_agent.Scope.{Node}
use log_agent.Scope.Tests.{empty, nodes}
use log_agent.Sync.{Page, oldest_of}
use log_agent.Sync.Backend.{sync_cursor, reorder_nodes, OrderAnswer}
use log_agent.Sync.Paused.{Arrival, arrive_all, IsFrozen, arrive_all-IsFrozen}

abbrev log : ℕ → Log
log id = record {
  id = id;
  timestamp = some id;
  level = txt "INFO";
  node = txt "N";
  container = txt "a";
  message = txt "m";
}

abbrev page : Bool → Page
page paused = record {
  stream = record {
    pending = [];
    timer = false;
    paused = paused;
    logs = log 2500 ∷ log 9 ∷ [];
    scope = record empty {
      nodes = nodes;
      selected_nodes = txt "n" ∷ [];
      selected_containers = txt "n::a" ∷ [];
    };
    processed = 2;
  };
  connected = true;
  history_loading = true;
  range = txt "24h";
  rule_order = [];
  capacity = 10;
  event_source = some 0;
  next_source = 1;
  history_timer = false;
  retry_timer = false;
  older_loading = false;
  exhausted = [];
  preview_rendered = false;
}

cursor : sync_cursor true (page false) ≡ some 500
unfolding sync_cursor
cursor = refl

oldest : oldest_of (page false).stream.logs none ≡ some 9
unfolding oldest_of
oldest = refl

abbrev node : Text → Node
node id = record { id = id; name = id; containers = [] }

reordered :
    map
      (λ (node : Node). node.id)
      (reorder_nodes
        (txt "c")
        (txt "a")
        false
        (OrderAnswer.in_browser true)
        (node (txt "a") ∷ node (txt "b") ∷ node (txt "c") ∷ []))
    ≡ txt "c" ∷ txt "a" ∷ txt "b" ∷ []
unfolding reorder_nodes log_agent.Prelude.Sort.sort_by
reordered = refl

abbrev arrivals : List Arrival
arrivals =
    Arrival.message 0 (log 10)
    ∷ Arrival.flush
    ∷ Arrival.container_logs (txt "n::a")
        (record { node_id = txt "n"; container_id = txt "a"; name = txt "a" }) (log 11 ∷ [])
    ∷ Arrival.synced true false false false (record {
      logs = log 12 ∷ [];
      processed = 3;
      history_loading = false;
      nodes = nodes;
      range = none;
      rule_order = none;
      capacity = none;
    })
    ∷ Arrival.older_pages none
    ∷ []

arrive_all-IsFrozen_example : IsFrozen (page true) (arrive_all arrivals (page true))
arrive_all-IsFrozen_example =
    arrive_all-IsFrozen arrivals (page true) (refl, (refl, (refl, (refl, (refl, tt))))) refl

-- The same arrivals change a page that is not paused.
not_paused : (arrive_all arrivals (page false)).stream.processed ≡ 3
unfolding arrive_all
not_paused = refl
