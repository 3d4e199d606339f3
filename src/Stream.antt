-- ===== src/Stream.antt =====
-- app.js: the live stream's batches: `enqueueStreamLog`, `clearPendingStreamBatch` and
-- `flushPendingStreamLogs`. The timers are flags, and a flush is what the timer runs.
pub mod Queue
pub mod Routing
pub mod Flush
mod Tests
use log_agent.Prelude.{
  ℕ, ◌+◌, ◌-◌, ltb, Bool, true, false, not, ◌||◌, List, [], ◌∷◌, ◌++◌, map, Option, none, some,
  Text, text_eq, if◌then◌else◌, length, drop, is_empty,
}
use log_agent.Prelude.Dict.{Dict, get, set}
use log_agent.LogBuffer.{merge_logs, Log, merge_logs}
use log_agent.Prelude.{is_empty, ◌||◌, map}
use log_agent.Scope.{Scope, selected_container_targets, Node, Target, container_key, get_node}

pub record Stream : Type 0 where
  pub pending : List Log
  pub timer : Bool
  pub paused : Bool
  pub logs : List Log
  pub scope : Scope
  pub processed : ℕ

-- `maxPendingStreamLogs`
abbrev pub max_pending_stream_logs : ℕ
max_pending_stream_logs = 2000

unfoldable pub enqueue_stream_log : Log → Stream → Stream
enqueue_stream_log incoming s =
    let pending = s.pending ++ incoming ∷ [] in
    record s {
      pending =
          if ltb max_pending_stream_logs (length pending)
          then drop (length pending - max_pending_stream_logs) pending
          else pending;
      timer = true;
    }

unfoldable pub clear_pending_stream_batch : Stream → Stream
clear_pending_stream_batch s = record s { pending = []; timer = false }

-- The source of a log: a node's name and a container's, with `\u0000` between them.
unfoldable pub source_key : Text → Text → Text
source_key node container = node ++ (0 ∷ container)

-- `cacheKeysBySource`
unfoldable pub cache_keys : List Node → List Target → Dict Text Text → Dict Text Text
unfolding source_key container_key get_node set
cache_keys nodes [] keys = keys
cache_keys nodes (target ∷ targets) keys =
    cache_keys nodes targets (elim (get_node target.node_id nodes) [
      | none ↦ keys
      | some node ↦
          let cache_key = container_key target.node_id target.container_id in
          set (source_key node.name target.container_id) cache_key
            (set (source_key node.name target.name) cache_key keys)
    ])

-- `list || []`
abbrev pub logs_or_none : Option (List Log) → List Log
logs_or_none none = []
logs_or_none (some logs) = logs

-- The cache key of the source of a log.
unfoldable pub route : Dict Text Text → Log → Option Text
unfolding source_key get
route keys log = get (source_key log.node log.container) keys

-- The body of the loop that fills `cacheUpdates`, with the cache key that it looked up.
unfoldable pub add_update : Option Text → Log → Dict Text (List Log) → Dict Text (List Log)
unfolding get set
add_update none incoming updates = updates
add_update (some cache_key) incoming updates =
    set cache_key (logs_or_none (get cache_key updates) ++ incoming ∷ []) updates

-- `cacheUpdates`
unfoldable pub cache_updates :
    Dict Text Text → List Log → Dict Text (List Log) → Dict Text (List Log)
unfolding route add_update
cache_updates by_source [] updates = updates
cache_updates by_source (incoming ∷ rest) updates =
    cache_updates by_source rest (add_update (route by_source incoming) incoming updates)

-- The loop over `cacheUpdates`; `capacity` is `maxBufferedLogs`.
unfoldable pub update_cache : ℕ → Dict Text (List Log) → Dict Text (List Log) → Dict Text (List Log)
unfolding get set merge_logs
update_cache capacity [] cache = cache
update_cache capacity ((cache_key, updates) ∷ rest) cache = update_cache capacity rest (
    set cache_key (merge_logs capacity true (logs_or_none (get cache_key cache)) (map some updates))
      cache)

unfoldable pub flush_pending_stream_logs : ℕ → Stream → Stream
unfolding cache_keys cache_updates update_cache selected_container_targets merge_logs
flush_pending_stream_logs capacity s =
    if s.paused || is_empty s.pending
    then record s { timer = false; pending = [] }
    else (let incoming = s.pending in
        let keys = cache_keys s.scope.nodes (selected_container_targets s.scope) [] in
        record s {
          timer = false;
          pending = [];
          logs = merge_logs capacity true s.logs (map some incoming);
          scope = record s.scope {
            log_cache = update_cache capacity (cache_updates keys incoming []) s.scope.log_cache;
          };
          processed = s.processed + length incoming;
        })
