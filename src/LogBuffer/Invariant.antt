-- ===== src/LogBuffer/Invariant.antt =====
-- The invariant of the log buffer, and what a merge does to it.
use log_agent.Prelude.{
  ℕ, zero, suc, ◌+◌, ◌≤◌, Bool, false, List, [], ◌∷◌, Option, none, some, ◌≡◌, refl, ◌∙◌, ap,
  nat_eq, length, take, arith, Bool-cases, inl, inr, length-take, ◌++◌,
}
use log_agent.Prelude.Dict.{values}
use log_agent.Prelude.Members.{Distinct}
use log_agent.Prelude.Sort.{SortedBy, SortedBy-take, sort_by-SortedBy}
use log_agent.LogBuffer.{Log, newest_first, sort_logs_newest, index_logs, merge_logs}
use log_agent.LogBuffer.Order.{newest_first-total}
use log_agent.LogBuffer.Merge.{logs_of, changes_nothing, merged, merge_logs-eq-merged, kept}
use log_agent.LogBuffer.Ids.{
  ids, lookup, last_with, Distinct-sort_logs_newest, lookup-sort_logs_newest, Distinct-take-ids,
  Distinct-merged,
}
use log_agent.LogBuffer.Lookup.{lookup-merged, length-merged}

-- Newest first, no id twice, within the capacity.
pub record IsBuffer (capacity : ℕ) (logs : List Log) : Type 0 where
  pub sorted : SortedBy newest_first logs
  pub distinct : Distinct (ids logs)
  pub within : length logs ≤ capacity

take-of-length : (n : ℕ) (logs : List Log) → length logs ≤ n → take n logs ≡ logs
take-of-length zero [] h = refl
take-of-length zero (log ∷ logs) h = absurd (omega arith)
take-of-length (suc n) [] h = refl
take-of-length (suc n) (log ∷ logs) h = ap (log ∷◌) (take-of-length n logs (omega arith))

module _ (capacity : ℕ) (existing : List Log) (incoming : List (Option Log)) where
  merged-IsBuffer : Distinct (ids existing) → IsBuffer capacity (merged capacity existing incoming)
  unfolding sort_logs_newest
  merged-IsBuffer d =
      let found = values (index_logs incoming []) in
      record {
        sorted =
            SortedBy-take newest_first capacity _
              (sort_by-SortedBy newest_first newest_first-total _);
        distinct =
            Distinct-take-ids capacity _
              (Distinct-sort_logs_newest _ (Distinct-merged incoming existing d));
        within = omega (arith, length-take {0} capacity _);
      }

  -- A merge into a buffer that is newest first, has no id twice and is within the capacity gives
  -- such a buffer, whatever comes in.
  pub merge_logs-IsBuffer :
      (skip_check : Bool)
      → IsBuffer capacity existing
      → IsBuffer capacity (merge_logs capacity skip_check existing incoming)
  merge_logs-IsBuffer skip_check v =
      elim (Bool-cases (changes_nothing skip_check existing incoming)) [
        | inl p ↦ rw (merge_logs-eq-merged capacity skip_check existing incoming v.sorted, p) v
        | inr p ↦
            rw (merge_logs-eq-merged capacity skip_check existing incoming v.sorted, p)
              (merged-IsBuffer v.distinct)
      ]

  -- Where the buffer is newest first, has no id twice and is within the capacity, the capacity
  -- has room for all logs that are incoming or buffered, and there is something to merge, the
  -- merge has under every id the last incoming log with that id, or else the buffered one.
  pub lookup-merge_logs :
      (skip_check : Bool) (id : ℕ)
      → IsBuffer capacity existing
      → changes_nothing skip_check existing incoming ≡ false
      → length (logs_of incoming) + length existing ≤ capacity
      → lookup id (merge_logs capacity skip_check existing incoming)
        ≡ elim (last_with id (logs_of incoming)) [ none ↦ lookup id existing | some log ↦ some log ]
  lookup-merge_logs skip_check id v changes room =
      let found = values (index_logs incoming []) ++ kept (ids (logs_of incoming)) existing in
      rw
        (
          merge_logs-eq-merged capacity skip_check existing incoming v.sorted,
          changes,
          take-of-length capacity (sort_logs_newest found)
              (omega (arith, length-merged incoming existing)),
        )
        (lookup-sort_logs_newest id found (Distinct-merged incoming existing v.distinct)
          ∙ lookup-merged id incoming existing)
