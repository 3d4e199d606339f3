-- ===== src/LogBuffer/Ids.antt =====
-- The ids of a buffer through indexing, sorting and cutting.
use log_agent.Prelude.{
  ℕ, zero, suc, false, not, ◌&&◌, ◌||◌, List, [], ◌∷◌, ◌++◌, map, Option, none, some, ◌≡◌, refl, ap,
  ◌∙◌, ◌==◌, nat_eq, nat_beq_iff, if◌then◌else◌, take, arith, find_first,
}
use log_agent.Prelude.Dict.{Dict, set, keys, values, Distinct-keys-set}
use log_agent.Prelude.Members.{contains, Distinct, Distinct-append, Distinct-take}
use log_agent.Prelude.Sort.{insert_by, sort_by}
use log_agent.LogBuffer.{Log, newest_first, sort_logs_newest, index_logs, id_of}
use log_agent.LogBuffer.Merge.{kept, logs_of, contains-index_logs}

abbrev pub ids : List Log → List ℕ
ids = map id_of

-- The log with an id.
abbrev pub lookup : ℕ → List Log → Option Log
lookup id = find_first (λ log. log.id == id)

-- The last log with an id.
abbrev pub last_with : ℕ → List Log → Option Log
last_with id [] = none
last_with id (log ∷ logs) = elim (last_with id logs) [
  | none ↦ if log.id == id then some log else none
  | some later ↦ some later
]

contains-insert_by :
    (id : ℕ) (log : Log) (logs : List Log)
    → contains id (ids (insert_by newest_first log logs)) ≡ (log.id == id || contains id (ids logs))
unfolding insert_by
contains-insert_by id log [] = refl
contains-insert_by id log (first ∷ rest) = ground (arith, contains-insert_by id log rest)

contains-sort_by :
    (id : ℕ) (logs : List Log)
    → contains id (ids (sort_by newest_first logs)) ≡ contains id (ids logs)
unfolding sort_by
contains-sort_by id [] = refl
contains-sort_by id (log ∷ logs) =
    contains-insert_by id log (sort_by newest_first logs)
    ∙ ap (λ b. (log.id == id) || b) (contains-sort_by id logs)

Distinct-insert_by :
    (log : Log) (logs : List Log)
    → contains log.id (ids logs) ≡ false
    → Distinct (ids logs)
    → Distinct (ids (insert_by newest_first log logs))
unfolding insert_by
Distinct-insert_by log [] new d = (refl, tt)
Distinct-insert_by log (first ∷ rest) new d = ground (
  arith,
  contains-insert_by first.id log rest,
  Distinct-insert_by log rest,
  nat_beq_iff first.id log.id,
  nat_beq_iff log.id first.id,
)

pub Distinct-sort_logs_newest :
    (logs : List Log) → Distinct (ids logs) → Distinct (ids (sort_logs_newest logs))
unfolding sort_logs_newest sort_by
Distinct-sort_logs_newest [] d = tt
Distinct-sort_logs_newest (log ∷ logs) (new, d) =
    Distinct-insert_by log (sort_by newest_first logs) (contains-sort_by log.id logs ∙ new)
      (Distinct-sort_logs_newest logs d)

lookup-insert_by :
    (id : ℕ) (log : Log) (logs : List Log)
    → contains log.id (ids logs) ≡ false
    → lookup id (insert_by newest_first log logs)
      ≡ (if log.id == id then some log else lookup id logs)
unfolding insert_by
lookup-insert_by id log [] new = refl
lookup-insert_by id log (first ∷ rest) new = ground (arith, lookup-insert_by id log rest)

pub lookup-sort_logs_newest :
    (id : ℕ) (logs : List Log)
    → Distinct (ids logs)
    → lookup id (sort_logs_newest logs) ≡ lookup id logs
unfolding sort_logs_newest sort_by
lookup-sort_logs_newest id [] d = refl
lookup-sort_logs_newest id (log ∷ logs) (new, d) =
    lookup-insert_by id log (sort_by newest_first logs) (contains-sort_by log.id logs ∙ new)
    ∙ ap (λ o. if log.id == id then some log else o) (lookup-sort_logs_newest id logs d)

map-take : (n : ℕ) (logs : List Log) → ids (take n logs) ≡ take n (ids logs)
map-take zero logs = refl
map-take (suc n) [] = refl
map-take (suc n) (log ∷ logs) = ap (log.id ∷◌) (map-take n logs)

pub Distinct-take-ids :
    (n : ℕ) (logs : List Log) → Distinct (ids logs) → Distinct (ids (take n logs))
Distinct-take-ids n logs d = rw (map-take n logs) (Distinct-take n (ids logs) d)

-- Every entry of the index stands under its own id.
pub ids-values-set :
    (log : Log) (d : Dict ℕ Log)
    → ids (values d) ≡ keys d
    → ids (values (set log.id log d)) ≡ keys (set log.id log d)
unfolding set
ids-values-set log [] h = refl
ids-values-set log ((j, w) ∷ d) h = ground (arith, ids-values-set log d)

ids-index_logs :
    (incoming : List (Option Log)) (d : Dict ℕ Log)
    → ids (values d) ≡ keys d
    → ids (values (index_logs incoming d)) ≡ keys (index_logs incoming d)
unfolding index_logs
ids-index_logs [] d h = h
ids-index_logs (none ∷ rest) d h = ids-index_logs rest d h
ids-index_logs (some log ∷ rest) d h =
    ids-index_logs rest (set log.id log d) (ids-values-set log d h)

Distinct-index_logs :
    (incoming : List (Option Log)) (d : Dict ℕ Log)
    → Distinct (keys d)
    → Distinct (keys (index_logs incoming d))
unfolding index_logs
Distinct-index_logs [] d h = h
Distinct-index_logs (none ∷ rest) d h = Distinct-index_logs rest d h
Distinct-index_logs (some log ∷ rest) d h =
    Distinct-index_logs rest (set log.id log d) (Distinct-keys-set log.id log d h)

contains-kept :
    (id : ℕ) (out : List ℕ) (logs : List Log)
    → contains id (ids (kept out logs)) ≡ (not (contains id out) && contains id (ids logs))
contains-kept id out [] = ground arith
contains-kept id out (log ∷ logs) = ground (arith, contains-kept id out logs, nat_beq_iff log.id id)

Distinct-kept :
    (out : List ℕ) (logs : List Log) → Distinct (ids logs) → Distinct (ids (kept out logs))
Distinct-kept out [] d = tt
Distinct-kept out (log ∷ logs) (new, d) =
    ground (arith, contains-kept log.id out logs, Distinct-kept out logs d)

map-append : (xs ys : List Log) → ids (xs ++ ys) ≡ ids xs ++ ids ys
map-append [] ys = refl
map-append (x ∷ xs) ys = ap (x.id ∷◌) (map-append xs ys)

-- The incoming logs, one for each id, and the buffered logs of other ids share no id.
pub Distinct-merged :
    (incoming : List (Option Log)) (existing : List Log)
    → Distinct (ids existing)
    → Distinct
        (ids (values (index_logs incoming []) ++ kept (map id_of (logs_of incoming)) existing))
Distinct-merged incoming existing d =
    rw
      (
        map-append (values (index_logs incoming [])) (kept (ids (logs_of incoming)) existing),
        ids-index_logs incoming [] refl,
      )
      (Distinct-append (keys (index_logs incoming []))
        (ids (kept (ids (logs_of incoming)) existing)) (Distinct-index_logs incoming [] tt)
        (Distinct-kept (ids (logs_of incoming)) existing d)
        (λ id h. ground (
          arith,
          contains-kept id (ids (logs_of incoming)) existing,
          contains-index_logs id incoming,
        )))
