-- ===== src/LogView/Search.antt =====
-- app.js: the search over the full range, `scheduleFullRangeSearch`, whose answers arrive later.
-- Whether the server is connected, and what it answers, are arguments.
use log_agent.Prelude.{
  ℕ, ◌+◌, ◌≤◌, ◌<◌, Bool, true, false, not, ◌||◌, List, [], ◌∷◌, ◌++◌, Option, none, some, Text,
  text_eq, nat_eq, ◌==◌, if◌then◌else◌, is_empty, arith, ◌≡◌,
}
use log_agent.LogBuffer.{Log, sort_logs_newest}
use log_agent.Scope.Actions.{clear_full_range_search, reset_log_pagination}
use log_agent.LogView.{View, full_range_search_key}

-- A search that has been scheduled: its number and its key.
pub record Job : Type 0 where
  pub request : ℕ
  pub key : Text

-- `scheduleFullRangeSearch` until its timer is set
unfoldable pub schedule_full_range_search : (Text → Text) → Bool → View → View × Option Job
unfolding full_range_search_key
schedule_full_range_search lower connected v =
    let key = full_range_search_key lower v in
    let request = v.scope.search.request + 1 in
    if is_empty key || not connected then (v, none) else (
      record v {
        scope = record v.scope {
          search = record v.scope.search { request = request; loading = true; timer = true };
        };
      },
      some (record { request = request; key = key }),
    )

-- `responses.flatMap`
unfoldable pub flat_map : List (List Log) → List Log
flat_map [] = []
flat_map (logs ∷ rest) = logs ++ flat_map rest

-- The `try` block when all responses are there.
unfoldable pub take_responses : (Text → Text) → Job → List (List Log) → View → View
unfolding full_range_search_key sort_logs_newest flat_map
take_responses lower job responses v =
    if not (job.request == v.scope.search.request) || not (job.key == full_range_search_key lower v)
    then v
    else record v {
      scope = record v.scope {
        search = record v.scope.search {
          logs = sort_logs_newest (flat_map responses);
          key = job.key;
        };
      };
    }

-- The `finally` block
unfoldable pub end_search : Job → View → View
unfolding reset_log_pagination
end_search job v =
    if job.request == v.scope.search.request
    then record v {
      scope = record v.scope {
        search = record v.scope.search { loading = false };
        pagination = reset_log_pagination v.scope.pagination;
      };
    }
    else v

-- The rest of `scheduleFullRangeSearch`, when the responses or an error arrive.
unfoldable pub answer_full_range_search :
    (Text → Text) → Job → Option (List (List Log)) → View → View
unfolding take_responses end_search
answer_full_range_search lower job none v = end_search job v
answer_full_range_search lower job (some responses) v =
    end_search job (take_responses lower job responses v)

-- What else happens meanwhile; `edit` stands for a change of anything but the search.
pub data Event : Type 0 where
  clear : Event
  schedule : Bool → Event
  answer : Job → Option (List (List Log)) → Event
  edit : View → Event

pub happen : (Text → Text) → Event → View → View
unfolding schedule_full_range_search answer_full_range_search clear_full_range_search
happen lower clear v = record v {
  scope = record v.scope { search = clear_full_range_search v.scope.search };
}
happen lower (schedule connected) v = (schedule_full_range_search lower connected v).0
happen lower (answer job responses) v = answer_full_range_search lower job responses v
happen lower (edit w) v = record w { scope = record w.scope { search = v.scope.search } }

pub happen_all : (Text → Text) → List Event → View → View
unfolding happen
happen_all lower [] v = v
happen_all lower (e ∷ es) v = happen_all lower es (happen lower e v)

happen-request :
    (lower : Text → Text) (e : Event) (v : View)
    → v.scope.search.request ≤ (happen lower e v).scope.search.request
unfolding happen take_responses end_search
happen-request lower clear v = omega arith
happen-request lower (schedule connected) v = ground arith
happen-request lower (answer job none) v = ground arith
happen-request lower (answer job (some responses)) v = ground arith
happen-request lower (edit w) v = omega arith

happen_all-request :
    (lower : Text → Text) (es : List Event) (v : View)
    → v.scope.search.request ≤ (happen_all lower es v).scope.search.request
unfolding happen_all
happen_all-request lower [] v = omega arith
happen_all-request lower (e ∷ es) v =
    omega (arith, happen-request lower e v, happen_all-request lower es (happen lower e v))

answer-late :
    (lower : Text → Text) (job : Job) (responses : Option (List (List Log))) (v : View)
    → job.request < v.scope.search.request
    → answer_full_range_search lower job responses v ≡ v
unfolding answer_full_range_search take_responses end_search
answer-late lower job none v h = ground arith
answer-late lower job (some responses) v h = ground arith

-- After a search was scheduled, whatever happens, then the search is cleared, and again anything
-- happens: the answer to that search changes nothing when it arrives.
pub answer_full_range_search-late :
    (lower : Text → Text) (connected : Bool) (v w : View) (job : Job) (before after : List Event)
    (responses : Option (List (List Log)))
    → schedule_full_range_search lower connected v ≡ (w, some job)
    → let now : View = happen_all lower after (happen lower clear (happen_all lower before w)) in
      answer_full_range_search lower job responses now ≡ now
unfolding schedule_full_range_search
answer_full_range_search-late lower connected v w job before after responses e =
    let same : job.request ≡ w.scope.search.request = ground (arith, e) in
    let cleared = happen lower clear (happen_all lower before w) in
    let next : (happen_all lower before w).scope.search.request < cleared.scope.search.request =
      unfold happen in omega arith in
    answer-late lower job responses _ (
      omega (
        arith,
        same,
        next,
        happen_all-request lower before w,
        happen_all-request lower after cleared,
      ))
