-- ===== src/LogBuffer.antt =====
-- app.js: the buffered logs of the live view, newest first: `compareLogsNewest`, `sortLogsNewest`
-- and `mergeLogs`. A field that the server may leave out is an `Option`.
pub mod Order
pub mod Merge
pub mod Ids
pub mod Lookup
pub mod Invariant
mod Tests
use log_agent.Prelude.{
  ℕ, zero, suc, Bool, true, false, not, ◌&&◌, List, [], ◌∷◌, map, Option, none, some, Text, ◌==◌,
  nat_eq, if◌then◌else◌, anyb,
}
use log_agent.Prelude.Int.{ℤ, sub_ℕ, nonpositive, or_else}
use log_agent.Prelude.Dict.{Dict, set, keys, values}
use log_agent.Prelude.Members.{contains}
use log_agent.Prelude.Sort.{sort_by}

pub record Log : Type 0 where
  pub id : ℕ
  pub timestamp : Option ℕ
  pub level : Text
  pub node : Text
  pub container : Text
  pub message : Text

-- `Number(log.timestamp) || 0`
abbrev pub time_of : Log → ℕ
time_of log = elim log.timestamp [ none ↦ 0 | some time ↦ time ]

unfoldable pub compare_logs_newest : Log → Log → ℤ
compare_logs_newest left right =
    or_else (sub_ℕ (time_of right) (time_of left)) (sub_ℕ right.id left.id)

unfoldable pub newest_first : Log → Log → Bool
unfolding compare_logs_newest
newest_first left right = nonpositive (compare_logs_newest left right)

unfoldable pub sort_logs_newest : List Log → List Log
sort_logs_newest = sort_by newest_first

-- `incomingById`; `none` is an entry that is missing or has no id.
unfoldable pub index_logs : List (Option Log) → Dict ℕ Log → Dict ℕ Log
unfolding set
index_logs [] by_id = by_id
index_logs (none ∷ rest) by_id = index_logs rest by_id
index_logs (some log ∷ rest) by_id = index_logs rest (set log.id log by_id)

abbrev pub id_of : Log → ℕ
id_of log = log.id

-- The inner loop: the buffered logs from the next one that is not overwritten.
unfoldable pub skip_overwritten : List ℕ → List Log → List Log
skip_overwritten ids [] = []
skip_overwritten ids (log ∷ logs) =
    if contains log.id ids then skip_overwritten ids logs else log ∷ logs

-- One round of the outer loop; `next` is the loop itself, on what is then left of the two lists.
unfoldable pub merge_round : (List Log → List Log → List Log) → List Log → List Log → List Log
unfolding newest_first
merge_round next [] [] = []
merge_round next [] (log ∷ incoming) = log ∷ next [] incoming
merge_round next (log ∷ existing) [] = log ∷ next existing []
merge_round next (log ∷ existing) (new_log ∷ incoming) =
    if newest_first new_log log
    then new_log ∷ next (log ∷ existing) incoming
    else log ∷ next existing (new_log ∷ incoming)

-- The outer loop; `room` is what `merged` still has below `maxBufferedLogs`.
unfoldable pub merge_loop : List ℕ → ℕ → List Log → List Log → List Log
unfolding merge_round skip_overwritten
merge_loop ids zero existing incoming = []
merge_loop ids (suc room) existing incoming =
    merge_round (merge_loop ids room) (skip_overwritten ids existing) incoming

unfoldable pub merge_indexed : ℕ → Bool → List Log → Dict ℕ Log → List Log
unfolding merge_loop sort_logs_newest
merge_indexed capacity skip_check existing [] = existing
merge_indexed capacity skip_check existing (entry ∷ by_id) =
    let ids = keys (entry ∷ by_id) in
    let has_new_log = anyb (λ id. not (contains id (map id_of existing))) ids in
    if not skip_check && not has_new_log
    then existing
    else merge_loop ids capacity existing (sort_logs_newest (values (entry ∷ by_id)))

-- `capacity` is `maxBufferedLogs`.
unfoldable pub merge_logs : ℕ → Bool → List Log → List (Option Log) → List Log
unfolding index_logs merge_indexed
merge_logs capacity skip_check existing [] = existing
merge_logs capacity skip_check existing (first ∷ rest) =
    merge_indexed capacity skip_check existing (index_logs (first ∷ rest) [])
