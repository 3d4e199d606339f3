-- ===== src/Stream/Flush.antt =====
-- What a flush does to the buffer and to the cache of the selected containers.
use mathlib.Core.Path.{subst}
use mathlib.Core.Option.{some-injective}
use log_agent.LogBuffer.Invariant.{IsBuffer, merge_logs-IsBuffer}
use log_agent.Scope.{selected_container_targets}
use log_agent.Prelude.{
  ℕ, ◌+◌, Bool, true, false, ◌||◌, List, [], ◌∷◌, ◌++◌, map, Option, none, some, ◌≡◌, refl, ap, ◌∙◌,
  sym, Text, text_eq, text_beq_iff, ◌==◌, if◌then◌else◌, length, is_empty, arith, filterb,
  Bool-cases, Option-cases, inl, inr, append_assoc, ◌≢◌,
}
use log_agent.Prelude.Dict.{Dict, get, set, keys, get-set, Distinct-keys-set, get_of_absent}
use log_agent.Prelude.Members.{Distinct}
use log_agent.LogBuffer.{Log, merge_logs}
use log_agent.LogBuffer.Invariant.{IsBuffer, merge_logs-IsBuffer}
use log_agent.Scope.{selected_container_targets}
use log_agent.Stream.Routing.{origin, route-cache_keys}
use log_agent.Stream.{
  Stream, cache_keys, route, logs_or_none, cache_updates, update_cache, flush_pending_stream_logs,
  add_update,
}

-- Whether a log goes to the cache of a container.
abbrev pub goes_to : Dict Text Text → Text → Log → Bool
goes_to keys cache_key log = elim (route keys log) [ none ↦ false | some key ↦ key == cache_key ]

-- The list under a key after more logs have been added to it.
abbrev pub added : Option (List Log) → List Log → Option (List Log)
added old [] = old
added old (log ∷ logs) = some (logs_or_none old ++ log ∷ logs)

added-cons :
    (old : Option (List Log)) (log : Log) (logs : List Log)
    → added (some (logs_or_none old ++ log ∷ [])) logs ≡ added old (log ∷ logs)
added-cons old log [] = refl
added-cons old log (next ∷ logs) =
    ap some (append_assoc (logs_or_none old) (log ∷ []) (next ∷ logs))

filterb-cons :
    (p : Log → Bool) (log : Log) (logs : List Log) (b : Bool)
    → p log ≡ b
    → filterb p (log ∷ logs) ≡ (if b then log ∷ filterb p logs else filterb p logs)
filterb-cons p log logs b h = rw h

get-add_update :
    (by_source : Dict Text Text) (log : Log) (updates : Dict Text (List Log)) (key : Text)
    (logs : List Log)
    → added (get key (add_update (route by_source log) log updates)) logs
      ≡ added (get key updates) (if goes_to by_source key log then log ∷ logs else logs)
unfolding add_update
get-add_update by_source log updates key logs = elim (Option-cases (route by_source log)) [
  | inl e ↦ rw (e, goes_to, add_update)
  | inr (to, e) ↦
      rw
        (e, goes_to, add_update, get-set to key (logs_or_none (get to updates) ++ log ∷ []) updates)
        (elim (Bool-cases (to == key)) [
          | inl same ↦
              rw (same, (text_beq_iff to key).0 same) (added-cons (get key updates) log logs)
          | inr other ↦ rw other
        ])
]

-- `cacheUpdates` holds under each key the logs that go there, in the order of their arrival.
get-cache_updates :
    (by_source : Dict Text Text) (logs : List Log) (updates : Dict Text (List Log)) (key : Text)
    → get key (cache_updates by_source logs updates)
      ≡ added (get key updates) (filterb (goes_to by_source key) logs)
unfolding cache_updates
get-cache_updates by_source [] updates key = refl
get-cache_updates by_source (log ∷ rest) updates key =
    get-cache_updates by_source rest (add_update (route by_source log) log updates) key
    ∙ get-add_update by_source log updates key (filterb (goes_to by_source key) rest)

Distinct-add_update :
    (to : Option Text) (log : Log) (updates : Dict Text (List Log))
    → Distinct (keys updates)
    → Distinct (keys (add_update to log updates))
unfolding add_update
Distinct-add_update none log updates d = d
Distinct-add_update (some to) log updates d =
    Distinct-keys-set to (logs_or_none (get to updates) ++ log ∷ []) updates d

Distinct-cache_updates :
    (by_source : Dict Text Text) (logs : List Log) (updates : Dict Text (List Log))
    → Distinct (keys updates)
    → Distinct (keys (cache_updates by_source logs updates))
unfolding cache_updates
Distinct-cache_updates by_source [] updates d = d
Distinct-cache_updates by_source (log ∷ rest) updates d =
    Distinct-cache_updates by_source rest (add_update (route by_source log) log updates)
      (Distinct-add_update (route by_source log) log updates d)

module _ (capacity : ℕ) where
  -- The list under a key after a merge into it.
  abbrev pub merged_into : Option (List Log) → Option (List Log) → Option (List Log)
  merged_into old none = old
  merged_into old (some updates) =
      some (merge_logs capacity true (logs_or_none old) (map some updates))

  get-update_cache :
      (updates cache : Dict Text (List Log)) (key : Text)
      → Distinct (keys updates)
      → get key (update_cache capacity updates cache)
        ≡ merged_into (get key cache) (get key updates)
  unfolding update_cache get
  get-update_cache [] cache key d = refl
  get-update_cache ((to, logs) ∷ rest) cache key (new, d) =
      let more = merge_logs capacity true (logs_or_none (get to cache)) (map some logs) in
      ground (
        arith,
        get-update_cache rest (set to more cache) key d,
        get-set to key more cache,
        text_beq_iff to key,
        get_of_absent to rest new,
      )

-- The sources of the selected containers.
abbrev pub sources : Stream → Dict Text Text
sources s = cache_keys s.scope.nodes (selected_container_targets s.scope) []

not_empty : (logs : List Log) → logs ≢ [] → is_empty logs ≡ false
not_empty [] h = absurd (h refl)
not_empty (log ∷ logs) h = refl

-- Whether the last selected container that a log is of is the one with this key.
abbrev pub comes_from : Stream → Text → Log → Bool
comes_from s cache_key log = elim (origin s.scope.nodes (selected_container_targets s.scope) log) [
  | none ↦ false
  | some key ↦ key == cache_key
]

goes_to-sources :
    (s : Stream) (key : Text) (logs : List Log)
    → filterb (goes_to (sources s) key) logs ≡ filterb (comes_from s key) logs
goes_to-sources s key [] = refl
goes_to-sources s key (log ∷ logs) = ground (
  arith,
  route-cache_keys s.scope.nodes (selected_container_targets s.scope) log,
  goes_to-sources s key logs,
)

-- Where the stream is not paused and logs wait, a flush merges them into the buffer, merges into
-- the cache under each key the waiting logs of the container with this key, counts them, and leaves
-- none waiting and no timer set. A log is of the last selected container whose node's name it has and
-- whose name or id it has, the two names compared as one text with a character 0 between them.
pub flush_lem :
    (capacity : ℕ) (s : Stream) (key : Text)
    → s.paused ≡ false
    → s.pending ≢ []
    → let t : Stream = flush_pending_stream_logs capacity s in
      (t.logs ≡ merge_logs capacity true s.logs (map some s.pending))
      × (get key t.scope.log_cache
          ≡ merged_into capacity
              (get key s.scope.log_cache)
              (added none (filterb (comes_from s key) s.pending)))
      × (t.processed ≡ s.processed + length s.pending)
      × (t.pending ≡ [])
      × (t.timer ≡ false)
unfolding flush_pending_stream_logs
flush_lem capacity s key running waiting =
    let busy : (s.paused || is_empty s.pending) ≡ false =
      ground (arith, running, not_empty s.pending waiting) in
    let updates = cache_updates (sources s) s.pending [] in
    rw busy (
      refl,
      get-update_cache capacity updates s.scope.log_cache key
            (Distinct-cache_updates (sources s) s.pending [] tt)
          ∙ ap (merged_into capacity (get key s.scope.log_cache)) (
              get-cache_updates (sources s) s.pending [] key
              ∙ ap (added none) (goes_to-sources s key s.pending)),
      refl,
      refl,
      refl,
    )

-- Every list of logs that the page holds is a buffer.
pub record AreBuffers (capacity : ℕ) (s : Stream) : Type 0 where
  pub live : IsBuffer capacity s.logs
  pub cached :
      (key : Text) (logs : List Log)
      → get key s.scope.log_cache ≡ some logs
      → IsBuffer capacity logs

merged_into-IsBuffer :
    (capacity : ℕ) (old updates : Option (List Log)) (logs : List Log)
    → ((found : List Log) → old ≡ some found → IsBuffer capacity found)
    → merged_into capacity old updates ≡ some logs
    → IsBuffer capacity logs
merged_into-IsBuffer capacity old none logs h e = h logs e
merged_into-IsBuffer capacity none (some updates) logs h e =
    subst (IsBuffer capacity) (some-injective _ _ e) (
      merge_logs-IsBuffer capacity [] (map some updates) true
        (record { sorted = tt; distinct = tt; within = omega arith }))
merged_into-IsBuffer capacity (some old) (some updates) logs h e =
    subst (IsBuffer capacity) (some-injective _ _ e)
      (merge_logs-IsBuffer capacity old (map some updates) true (h old refl))

-- Where the live logs and every cached list are newest first, without an id twice and within the
-- capacity, they are so after a flush.
pub flush-AreBuffers :
    (capacity : ℕ) (s : Stream)
    → AreBuffers capacity s
    → AreBuffers capacity (flush_pending_stream_logs capacity s)
unfolding flush_pending_stream_logs
flush-AreBuffers capacity s v = elim (Bool-cases (s.paused || is_empty s.pending)) [
  | inl e ↦ rw e (record { live = v.live; cached = v.cached })
  | inr e ↦ rw e (record {
    live = merge_logs-IsBuffer capacity s.logs (map some s.pending) true v.live;
    cached = λ key logs h.
        merged_into-IsBuffer capacity (get key s.scope.log_cache)
          (get key (cache_updates (sources s) s.pending [])) logs (v.cached key)
          (sym (
              get-update_cache capacity (cache_updates (sources s) s.pending []) s.scope.log_cache
                key (Distinct-cache_updates (sources s) s.pending [] tt))
            ∙ h);
  })
]
