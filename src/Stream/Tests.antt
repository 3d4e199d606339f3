-- ===== src/Stream/Tests.antt =====
-- A batch, and the theorems at it.
use log_agent.Prelude.{
  ℕ, false, true, List, [], ◌∷◌, ◌++◌, ◌+◌, map, none, some, txt, Text, ◌≡◌, ◌≢◌, refl, arith,
  length, filterb, text_eq,
}
use log_agent.Prelude.Dict.{get}
use log_agent.LogBuffer.{Log, merge_logs}
use log_agent.Scope.Tests.{empty, nodes}
use log_agent.Scope.{Scope}
use log_agent.Stream.{Stream, max_pending_stream_logs, flush_pending_stream_logs}
use log_agent.Stream.Queue.{enqueue_all, last, enqueue_all-pending}
use log_agent.Stream.Flush.{flush_lem, AreBuffers, flush-AreBuffers, merged_into, added, comes_from}

abbrev log : ℕ → Log
log id = record {
  id = id;
  timestamp = some id;
  level = txt "INFO";
  node = txt "N";
  container = txt "a";
  message = txt "m";
}

abbrev scope : Scope
scope = record empty {
  nodes = nodes;
  selected_nodes = txt "n" ∷ [];
  selected_containers = txt "n::a" ∷ [];
}

abbrev stream : Stream
stream = record {
  pending = log 1 ∷ log 2 ∷ [];
  timer = true;
  paused = false;
  logs = [];
  scope = scope;
  processed = 0;
}

cached :
    get (txt "n::a") (flush_pending_stream_logs 10 stream).scope.log_cache
    ≡ some (log 2 ∷ log 1 ∷ [])
unfolding flush_pending_stream_logs log_agent.Prelude.Sort.sort_by
cached = refl

flush_lem_example :
    let t : Stream = flush_pending_stream_logs 10 stream in
    (t.logs ≡ merge_logs 10 true [] (map some stream.pending))
    × (get (txt "n::a") t.scope.log_cache
        ≡ merged_into 10
            (get (txt "n::a") scope.log_cache)
            (added none (filterb (comes_from stream (txt "n::a")) stream.pending)))
    × (t.processed ≡ 0 + length stream.pending)
    × (t.pending ≡ [])
    × (t.timer ≡ false)
flush_lem_example = flush_lem 10 stream (txt "n::a") refl (λ h. cc)

stream-AreBuffers : AreBuffers 10 stream
unfolding get
stream-AreBuffers = record {
  live = record { sorted = tt; distinct = tt; within = omega arith };
  cached = λ key logs h. absurd (ground (arith, h));
}

flush-AreBuffers_example : AreBuffers 10 (flush_pending_stream_logs 10 stream)
flush-AreBuffers_example = flush-AreBuffers 10 stream stream-AreBuffers

enqueue_all-pending_example :
    (enqueue_all (log 3 ∷ log 4 ∷ []) stream).pending
    ≡ last max_pending_stream_logs (stream.pending ++ log 3 ∷ log 4 ∷ [])
enqueue_all-pending_example = enqueue_all-pending (log 3 ∷ log 4 ∷ []) stream (omega arith)
