-- ===== src/LogBuffer/Lookup.antt =====
-- Which log a merge has under an id, and how many logs there are at most.
use log_agent.Prelude.{
  ℕ, suc, ◌+◌, ◌≤◌, false, List, [], ◌∷◌, ◌++◌, map, Option, none, some, ◌≡◌, refl, ap, ◌∙◌, ◌==◌,
  nat_eq, nat_beq_iff, if◌then◌else◌, length, arith, length-append,
}
use log_agent.Prelude.Dict.{Dict, set, keys, values}
use log_agent.Prelude.Members.{contains}
use log_agent.Prelude.Sort.{insert_by, sort_by}
use log_agent.LogBuffer.{Log, newest_first, sort_logs_newest, index_logs, id_of}
use log_agent.LogBuffer.Merge.{kept, logs_of}
use log_agent.LogBuffer.Ids.{ids, lookup, last_with, ids-values-set}

lookup-append :
    (id : ℕ) (xs ys : List Log)
    → lookup id (xs ++ ys) ≡ elim (lookup id xs) [ none ↦ lookup id ys | some log ↦ some log ]
lookup-append id [] ys = refl
lookup-append id (x ∷ xs) ys = ground (arith, lookup-append id xs ys)

lookup-values-set :
    (id : ℕ) (log : Log) (d : Dict ℕ Log)
    → ids (values d) ≡ keys d
    → lookup id (values (set log.id log d))
      ≡ (if log.id == id then some log else lookup id (values d))
unfolding set
lookup-values-set id log [] h = refl
lookup-values-set id log ((j, w) ∷ d) h =
    ground (arith, lookup-values-set id log d, nat_beq_iff j log.id, nat_beq_iff j id)

lookup-index_logs_from :
    (id : ℕ) (incoming : List (Option Log)) (d : Dict ℕ Log)
    → ids (values d) ≡ keys d
    → lookup id (values (index_logs incoming d))
      ≡ elim (last_with id (logs_of incoming)) [ none ↦ lookup id (values d) | some log ↦ some log ]
unfolding index_logs
lookup-index_logs_from id [] d h = refl
lookup-index_logs_from id (none ∷ rest) d h = lookup-index_logs_from id rest d h
lookup-index_logs_from id (some log ∷ rest) d h = ground (
  arith,
  lookup-index_logs_from id rest (set log.id log d) (ids-values-set log d h),
  lookup-values-set id log d h,
)

lookup-kept :
    (id : ℕ) (out : List ℕ) (logs : List Log)
    → lookup id (kept out logs) ≡ (if contains id out then none else lookup id logs)
lookup-kept id out [] = ground arith
lookup-kept id out (log ∷ logs) = ground (arith, lookup-kept id out logs, nat_beq_iff log.id id)

last_with-none :
    (id : ℕ) (logs : List Log) → last_with id logs ≡ none → contains id (ids logs) ≡ false
last_with-none id [] h = refl
last_with-none id (log ∷ logs) h = ground (arith, last_with-none id logs)

-- Under each id: the last incoming log, or else the buffered one.
pub lookup-merged :
    (id : ℕ) (incoming : List (Option Log)) (existing : List Log)
    → lookup id (values (index_logs incoming []) ++ kept (map id_of (logs_of incoming)) existing)
      ≡ elim (last_with id (logs_of incoming)) [ none ↦ lookup id existing | some log ↦ some log ]
lookup-merged id incoming existing = ground (
  arith,
  lookup-append id (values (index_logs incoming [])) (kept (ids (logs_of incoming)) existing),
  lookup-index_logs_from id incoming [] refl,
  lookup-kept id (ids (logs_of incoming)) existing,
  last_with-none id (logs_of incoming),
)

length-set :
    (log : Log) (d : Dict ℕ Log) → length (values (set log.id log d)) ≤ suc (length (values d))
unfolding set
length-set log [] = omega arith
length-set log ((j, w) ∷ d) = ground (arith, length-set log d)

length-index_logs :
    (incoming : List (Option Log)) (d : Dict ℕ Log)
    → length (values (index_logs incoming d)) ≤ length (logs_of incoming) + length (values d)
unfolding index_logs
length-index_logs [] d = omega arith
length-index_logs (none ∷ rest) d = length-index_logs rest d
length-index_logs (some log ∷ rest) d =
    omega (arith, length-index_logs rest (set log.id log d), length-set log d)

length-kept : (out : List ℕ) (logs : List Log) → length (kept out logs) ≤ length logs
length-kept out [] = omega arith
length-kept out (log ∷ logs) = ground (arith, length-kept out logs)

length-insert_by :
    (log : Log) (logs : List Log) → length (insert_by newest_first log logs) ≡ suc (length logs)
unfolding insert_by
length-insert_by log [] = refl
length-insert_by log (first ∷ rest) = ground (arith, length-insert_by log rest)

length-sort_logs_newest : (logs : List Log) → length (sort_logs_newest logs) ≡ length logs
unfolding sort_logs_newest sort_by
length-sort_logs_newest [] = refl
length-sort_logs_newest (log ∷ logs) =
    length-insert_by log (sort_by newest_first logs) ∙ ap suc (length-sort_logs_newest logs)

-- No more logs than came in and were buffered.
pub length-merged :
    (incoming : List (Option Log)) (existing : List Log)
    → length (
        sort_logs_newest
          (values (index_logs incoming []) ++ kept (map id_of (logs_of incoming)) existing))
      ≤ length (logs_of incoming) + length existing
length-merged incoming existing = omega (
  arith,
  length-sort_logs_newest
      (values (index_logs incoming []) ++ kept (ids (logs_of incoming)) existing),
  length-append {0} (values (index_logs incoming [])) (kept (ids (logs_of incoming)) existing),
  length-index_logs incoming [],
  length-kept (ids (logs_of incoming)) existing,
)
