-- ===== src/Sync/Paused.antt =====
-- What a paused page keeps, and which of the things that arrive it does not wait for.
use mathlib.Core.Path.{subst}
use log_agent.Prelude.{
  ◌==◌, text_eq, ℕ, Bool, true, false, not, ◌||◌, List, [], ◌∷◌, Option, none, some, All, Text,
  if◌then◌else◌, ◌≡◌, refl, sym, ◌∙◌, Bool-cases, inl, inr,
}
use log_agent.LogBuffer.{Log}
use log_agent.Scope.{Target}
use log_agent.Scope.Clicks.{sync_nodes}
use log_agent.Scope.Actions.{render_nodes}
use log_agent.Stream.{flush_pending_stream_logs}
use log_agent.Sync.{
  Page, selection_key, begin_container_load, take_container_logs, end_container_load,
  retry_container_load, OlderPage, end_older_load, clear_log_cache, reload_range,
}
use log_agent.Sync.Backend.{
  Bootstrap, take_logs, take_payload, complete_initial_logs, connect_go_stream, take_message,
  take_stream_error, end_sync, fail_sync, has_source, fire_history_sync,
}

pub data Arrival : Type 0 where
  container_logs : Text → Target → List Log → Arrival
  containers_loaded : Text → Bool → Arrival
  retry : Text → Arrival
  message : ℕ → Log → Arrival
  stream_error : ℕ → Arrival
  flush : Arrival
  synced : Bool → Bool → Bool → Bool → Bootstrap → Arrival
  sync_failed : Arrival
  history_timer : Arrival
  preview_timer : Arrival
  older_pages : Option (List OlderPage) → Arrival
  cache_cleared : Arrival
  range_loaded : Bool → Arrival

unfoldable pub arrive : Arrival → Page → Page
unfolding take_container_logs end_container_load retry_container_load take_message take_stream_error
    flush_pending_stream_logs end_sync fail_sync fire_history_sync complete_initial_logs
    end_older_load clear_log_cache reload_range
arrive (container_logs key target logs) p = take_container_logs key target logs p
arrive (containers_loaded key loading) p = end_container_load key loading p
arrive (retry key) p = (retry_container_load key p).0
arrive (message n log) p = take_message n log p
arrive (stream_error n) p = take_stream_error n p
arrive flush p = record p { stream = flush_pending_stream_logs p.capacity p.stream }
arrive (synced incremental restarted connect closed payload) p =
    (end_sync incremental restarted connect closed payload p).0
arrive sync_failed p = fail_sync p
arrive history_timer p = (fire_history_sync p).0
arrive preview_timer p = complete_initial_logs p
arrive (older_pages pages) p = end_older_load pages p
arrive cache_cleared p = (clear_log_cache p).0
arrive (range_loaded strict) p = reload_range strict p

-- What does not change a paused page. Older pages that were asked for, the clearing of the cache and
-- a strict reload of the range are done at once, paused or not.
abbrev pub is_held : Arrival → Bool
is_held (container_logs key target logs) = true
is_held (containers_loaded key loading) = true
is_held (retry key) = true
is_held (message n log) = true
is_held (stream_error n) = true
is_held flush = true
is_held (synced incremental restarted connect closed payload) = true
is_held sync_failed = true
is_held history_timer = true
is_held preview_timer = true
is_held (older_pages none) = true
is_held (older_pages (some pages)) = false
is_held cache_cleared = false
is_held (range_loaded strict) = not strict

unfoldable pub arrive_all : List Arrival → Page → Page
unfolding arrive
arrive_all [] p = p
arrive_all (a ∷ arrivals) p = arrive_all arrivals (arrive a p)

-- The logs, the cached logs and the number of processed logs are as before, and the page is paused.
pub record IsFrozen (p q : Page) : Type 0 where
  pub paused_yet : q.stream.paused ≡ true
  pub same_logs : q.stream.logs ≡ p.stream.logs
  pub same_cache : q.stream.scope.log_cache ≡ p.stream.scope.log_cache
  pub same_processed : q.stream.processed ≡ p.stream.processed

-- A page that is paused, by its fields.
abbrev with_paused : Bool → Page → Page
with_paused b p = record p { stream = record p.stream { paused = b } }

frozen :
    (p q : Page)
    → q.stream.paused ≡ true
    → q.stream.logs ≡ p.stream.logs
    → q.stream.scope.log_cache ≡ p.stream.scope.log_cache
    → q.stream.processed ≡ p.stream.processed
    → IsFrozen p q
frozen p q h a b c = record { paused_yet = h; same_logs = a; same_cache = b; same_processed = c }

arrive-paused :
    (a : Arrival) (p : Page)
    → is_held a ≡ true
    → IsFrozen (with_paused true p) (arrive a (with_paused true p))
unfolding end_older_load reload_range arrive take_container_logs end_container_load
    retry_container_load begin_container_load take_message take_stream_error
    flush_pending_stream_logs end_sync take_payload take_logs sync_nodes render_nodes
    connect_go_stream fail_sync fire_history_sync complete_initial_logs
arrive-paused (container_logs key target logs) p k = frozen _ _ refl refl refl refl
arrive-paused (containers_loaded key loading) p k = frozen _ _ refl refl refl refl
arrive-paused (retry key) p k = either (selection_key p == key)
  where
    either :
        (b : Bool)
        → IsFrozen
            (with_paused true p)
            (if b
              then begin_container_load (record (with_paused true p) { retry_timer = false })
              else (record (with_paused true p) { retry_timer = false }, none)).0
    either true = frozen _ _ refl refl refl refl
    either false = frozen _ _ refl refl refl refl
arrive-paused (message n log) p k = frozen _ _ refl refl refl refl
arrive-paused (stream_error n) p k = frozen _ _ refl refl refl refl
arrive-paused flush p k = frozen _ _ refl refl refl refl
arrive-paused (synced incremental restarted connect closed payload) p k =
    elim (Bool-cases (connect || (not (has_source p) || closed))) [
      | inl e ↦ rw e (frozen _ _ refl refl refl refl)
      | inr e ↦ rw e (frozen _ _ refl refl refl refl)
    ]
arrive-paused sync_failed p k = frozen _ _ refl refl refl refl
arrive-paused history_timer p k = frozen _ _ refl refl refl refl
arrive-paused preview_timer p k = frozen _ _ refl refl refl refl
arrive-paused (older_pages none) p k = frozen _ _ refl refl refl refl
arrive-paused (older_pages (some pages)) p k = cc
arrive-paused cache_cleared p k = cc
arrive-paused (range_loaded false) p k = frozen _ _ refl refl refl refl
arrive-paused (range_loaded true) p k = cc

arrive-IsFrozen :
    (a : Arrival) (p : Page) → is_held a ≡ true → p.stream.paused ≡ true → IsFrozen p (arrive a p)
arrive-IsFrozen a p k h =
    subst (λ b. IsFrozen (with_paused b p) (arrive a (with_paused b p))) (sym h)
      (arrive-paused a p k)

-- While the page is paused, the buffered logs, the cached logs of the containers and the number of
-- processed logs stay as they are, in whatever order there arrive: logs of the selected
-- containers and the end or the next try of their loading, messages and errors of the stream, a
-- flush, answers and failures of `syncGoBackend`, its timers, a failure to load older pages, a
-- range that is not reloaded strictly. Older pages, the clearing of the cache and a strict reload
-- are not among them.
pub arrive_all-IsFrozen :
    (arrivals : List Arrival) (p : Page)
    → All (λ a. is_held a ≡ true) arrivals
    → p.stream.paused ≡ true
    → IsFrozen p (arrive_all arrivals p)
unfolding arrive_all
arrive_all-IsFrozen [] p k h = frozen p p h refl refl refl
arrive_all-IsFrozen (a ∷ arrivals) p (k, ks) h =
    let first = arrive-IsFrozen a p k h in
    let rest = arrive_all-IsFrozen arrivals (arrive a p) ks first.paused_yet in
    frozen p (arrive_all arrivals (arrive a p)) rest.paused_yet (rest.same_logs ∙ first.same_logs)
      (rest.same_cache ∙ first.same_cache) (rest.same_processed ∙ first.same_processed)
