-- ===== src/LogBuffer/Merge.antt =====
-- What `mergeLogs` returns.
use log_agent.Prelude.{
  ℕ, zero, suc, Bool, true, false, not, ◌&&◌, List, [], ◌∷◌, ◌++◌, map, Option, none, some, ◌≡◌,
  refl, ap, sym, ◌∙◌, ◌==◌, nat_eq, if◌then◌else◌, anyb, filterb, take, arith, ◌||◌, nat_beq_iff,
  Bool-cases, inl, inr,
}
use log_agent.Prelude.Dict.{Dict, set, keys, values}
use log_agent.Prelude.Members.{contains}
use log_agent.Prelude.Sort.{SortedBy, merge_by, sort_by-append, SortedBy-filterb, merge_by-nil}
use log_agent.LogBuffer.{
  Log, newest_first, sort_logs_newest, index_logs, id_of, skip_overwritten, merge_round, merge_loop,
  merge_indexed, merge_logs,
}
use log_agent.LogBuffer.Order.{newest_first-total, newest_first_trans}

-- The buffered logs whose ids are not among `ids`.
abbrev pub kept : List ℕ → List Log → List Log
kept ids existing = filterb (λ log. not (contains log.id ids)) existing

skip_overwritten-kept :
    (ids : List ℕ) (existing : List Log)
    → kept ids (skip_overwritten ids existing) ≡ kept ids existing
unfolding skip_overwritten
skip_overwritten-kept ids [] = refl
skip_overwritten-kept ids (log ∷ logs) = ground (arith, skip_overwritten-kept ids logs)

-- The first log that the inner loop stops at is kept.
skip_overwritten-head :
    (ids : List ℕ) (existing : List Log) {log : Log} {logs : List Log}
    → skip_overwritten ids existing ≡ log ∷ logs
    → contains log.id ids ≡ false
unfolding skip_overwritten
skip_overwritten-head ids [] h = cc
skip_overwritten-head ids (first ∷ rest) h = elim (Bool-cases (contains first.id ids)) [
  | inl p ↦ skip_overwritten-head ids rest (rw p at h)
  | inr p ↦ ground arith
]

module _ (ids : List ℕ) where
  merge_round-eq :
      (room : ℕ) (existing incoming : List Log)
      → ((e i : List Log)
          → merge_loop ids room e i ≡ take room (merge_by newest_first i (kept ids e)))
      → ((log : Log) (logs : List Log) → existing ≡ log ∷ logs → contains log.id ids ≡ false)
      → merge_round (merge_loop ids room) existing incoming
        ≡ take (suc room) (merge_by newest_first incoming (kept ids existing))
  unfolding merge_round merge_by
  merge_round-eq room [] [] ih head = refl
  merge_round-eq room [] (new_log ∷ incoming) ih head =
      ap (new_log ∷◌) (ih [] incoming)
      ∙ ap (λ l. new_log ∷ take room l) (merge_by-nil newest_first incoming)
  merge_round-eq room (log ∷ existing) [] ih head =
      rw (head log existing refl) (ap (log ∷◌) (ih existing []))
  merge_round-eq room (log ∷ existing) (new_log ∷ incoming) ih head = ground (
    arith,
    head log existing refl,
    ih (log ∷ existing) incoming,
    ih existing (new_log ∷ incoming),
  )

  -- The loop merges the incoming logs with the kept ones, as far as there is room.
  merge_loop-eq :
      (room : ℕ) (existing incoming : List Log)
      → merge_loop ids room existing incoming
        ≡ take room (merge_by newest_first incoming (kept ids existing))
  unfolding merge_loop
  merge_loop-eq zero existing incoming = refl
  merge_loop-eq (suc room) existing incoming =
      merge_round-eq room (skip_overwritten ids existing) incoming (merge_loop-eq room)
        (λ log logs e. skip_overwritten-head ids existing e)
      ∙ ap (λ l. take (suc room) (merge_by newest_first incoming l))
          (skip_overwritten-kept ids existing)

-- An incoming entry that is a log.
abbrev pub logs_of : List (Option Log) → List Log
logs_of [] = []
logs_of (none ∷ rest) = logs_of rest
logs_of (some log ∷ rest) = log ∷ logs_of rest

-- Nothing to merge: no log came in, or none that is not buffered and the check is on.
abbrev pub changes_nothing : Bool → List Log → List (Option Log) → Bool
changes_nothing skip_check existing incoming =
    not (anyb (λ log. true) (logs_of incoming))
    || (not skip_check
        && not (anyb (λ log. not (contains log.id (map id_of existing))) (logs_of incoming)))

-- The specification of a merge that changes something: the incoming logs, one for each id, and the
-- buffered logs of other ids, newest first, cut at the capacity.
abbrev pub merged : ℕ → List Log → List (Option Log) → List Log
merged capacity existing incoming = take capacity (
    sort_logs_newest
      (values (index_logs incoming []) ++ kept (map id_of (logs_of incoming)) existing))

anyb-keys-set :
    (p : ℕ → Bool) (k : ℕ) (v : Log) (d : Dict ℕ Log)
    → anyb p (keys (set k v d)) ≡ (p k || anyb p (keys d))
unfolding set
anyb-keys-set p k v [] = refl
anyb-keys-set p k v ((j, w) ∷ d) = ground (arith, anyb-keys-set p k v d, nat_beq_iff j k)

anyb-index_logs :
    (p : ℕ → Bool) (incoming : List (Option Log)) (d : Dict ℕ Log)
    → anyb p (keys (index_logs incoming d))
      ≡ (anyb p (keys d) || anyb (λ log. p log.id) (logs_of incoming))
unfolding index_logs
anyb-index_logs p [] d = ground arith
anyb-index_logs p (none ∷ rest) d = anyb-index_logs p rest d
anyb-index_logs p (some log ∷ rest) d =
    ground (arith, anyb-index_logs p rest (set log.id log d), anyb-keys-set p log.id log d)

contains-anyb : (id : ℕ) (ids : List ℕ) → contains id ids ≡ anyb (λ j. j == id) ids
contains-anyb id [] = refl
contains-anyb id (j ∷ ids) = ap (λ b. (j == id) || b) (contains-anyb id ids)

contains-anyb_logs :
    (id : ℕ) (logs : List Log) → contains id (map id_of logs) ≡ anyb (λ log. log.id == id) logs
contains-anyb_logs id [] = refl
contains-anyb_logs id (log ∷ logs) = ap (λ b. (log.id == id) || b) (contains-anyb_logs id logs)

-- The ids of the index are those of the incoming logs.
pub contains-index_logs :
    (id : ℕ) (incoming : List (Option Log))
    → contains id (keys (index_logs incoming [])) ≡ contains id (map id_of (logs_of incoming))
contains-index_logs id incoming =
    contains-anyb id (keys (index_logs incoming []))
    ∙ anyb-index_logs (λ j. j == id) incoming []
    ∙ sym (contains-anyb_logs id (logs_of incoming))

kept-index_logs :
    (incoming : List (Option Log)) (existing : List Log)
    → kept (keys (index_logs incoming [])) existing ≡ kept (map id_of (logs_of incoming)) existing
kept-index_logs incoming [] = refl
kept-index_logs incoming (log ∷ logs) =
    ground (arith, contains-index_logs log.id incoming, kept-index_logs incoming logs)

module _ (capacity : ℕ) (skip_check : Bool) (existing : List Log) where
  merge_indexed-eq :
      (by_id : Dict ℕ Log)
      → SortedBy newest_first existing
      → merge_indexed capacity skip_check existing by_id ≡ (
          if not (anyb (λ id. true) (keys by_id))
            || (not skip_check
                && not (anyb (λ id. not (contains id (map id_of existing))) (keys by_id)))
          then existing
          else take capacity (sort_logs_newest (values by_id ++ kept (keys by_id) existing)))
  unfolding merge_indexed
  merge_indexed-eq [] s = refl
  merge_indexed-eq (entry ∷ by_id) s =
      let ids = keys (entry ∷ by_id) in
      let sorted_kept =
        SortedBy-filterb newest_first newest_first_trans (λ (log : Log). not (contains log.id ids))
          existing s in
      let whole =
        merge_loop-eq ids capacity existing (sort_logs_newest (values (entry ∷ by_id)))
        ∙ ap (take capacity) (
            sym (
              sort_by-append newest_first newest_first_trans newest_first-total
                (values (entry ∷ by_id)) (kept ids existing) sorted_kept)) in
      ground (arith, whole)

  merge_logs_as_indexed :
      (incoming : List (Option Log))
      → merge_logs capacity skip_check existing incoming
        ≡ merge_indexed capacity skip_check existing (index_logs incoming [])
  unfolding merge_logs
  merge_logs_as_indexed [] = refl
  merge_logs_as_indexed (first ∷ rest) = refl

  -- Where the buffered logs are newest first, a merge returns them as they are if there is
  -- nothing to merge, and otherwise the incoming logs, the last one of each id, with the
  -- buffered logs of other ids, newest first and cut at the capacity.
  pub merge_logs-eq-merged :
      (incoming : List (Option Log))
      → SortedBy newest_first existing
      → merge_logs capacity skip_check existing incoming ≡ (
          if changes_nothing skip_check existing incoming
          then existing
          else merged capacity existing incoming)
  merge_logs-eq-merged incoming s = rw (
    merge_logs_as_indexed incoming,
    merge_indexed-eq (index_logs incoming []) s,
    anyb-index_logs (λ id. true) incoming [],
    anyb-index_logs (λ id. not (contains id (map id_of existing))) incoming [],
    kept-index_logs incoming existing,
  )
