-- ===== src/LogBuffer/Tests.antt =====
-- Runs of the merge, and the theorems at them.
use log_agent.Prelude.{
  ℕ, false, true, List, [], ◌∷◌, Option, none, some, txt, ◌≡◌, refl, nat_eq, arith, if◌then◌else◌,
  length,
}
use log_agent.LogBuffer.{Log, newest_first, merge_logs}
use log_agent.LogBuffer.Merge.{merge_logs-eq-merged, merged, changes_nothing, logs_of}
use log_agent.LogBuffer.Ids.{lookup, last_with}
use log_agent.LogBuffer.Invariant.{IsBuffer, merge_logs-IsBuffer, lookup-merge_logs}

abbrev log : ℕ → ℕ → Log
log id time = record {
  id = id;
  timestamp = some time;
  level = txt "INFO";
  node = txt "n";
  container = txt "c";
  message = txt "m";
}

abbrev buffered : List Log
buffered = log 2 20 ∷ log 1 10 ∷ []

abbrev incoming : List (Option Log)
incoming = some (log 3 15) ∷ none ∷ some (log 1 30) ∷ []

buffered-IsBuffer : IsBuffer 10 buffered
unfolding newest_first
buffered-IsBuffer = record {
  sorted = (refl, tt);
  distinct = (refl, (refl, tt));
  within = omega arith;
}

merge_logs_run : merge_logs 10 false buffered incoming ≡ log 1 30 ∷ log 2 20 ∷ log 3 15 ∷ []
unfolding merge_logs log_agent.Prelude.Sort.sort_by
merge_logs_run = refl

merge_logs-eq-merged_example :
    merge_logs 10 false buffered incoming
    ≡ (if changes_nothing false buffered incoming then buffered else merged 10 buffered incoming)
merge_logs-eq-merged_example =
    merge_logs-eq-merged 10 false buffered incoming buffered-IsBuffer.sorted

merge_logs-IsBuffer_example : IsBuffer 10 (merge_logs 10 false buffered incoming)
merge_logs-IsBuffer_example = merge_logs-IsBuffer 10 buffered incoming false buffered-IsBuffer

lookup-merge_logs_example :
    lookup 1 (merge_logs 10 false buffered incoming)
    ≡ elim (last_with 1 (logs_of incoming)) [ none ↦ lookup 1 buffered | some l ↦ some l ]
lookup-merge_logs_example =
    lookup-merge_logs 10 buffered incoming false 1 buffered-IsBuffer refl (omega arith)
