-- ===== src/Bridge/Fetch.antt =====
-- bridge.js: one call of `window.fetch`, with what the channel, the caller and the reader of the
-- answer's body do to it.
use log_agent.Prelude.{
  ℕ, ◌+◌, Bool, true, false, ◌||◌, ◌&&◌, leb, List, [], ◌∷◌, ◌++◌, Option, none, some, Text, txt,
  nat_eq, ◌==◌, if◌then◌else◌,
}

pub data Promise : Type 0 where
  pending : Promise
  resolved : ℕ → Promise
  rejected : Text → Promise

-- The stream of the answer's body.
pub data BodyStream : Type 0 where
  readable closed : BodyStream
  errored : Text → BodyStream

-- `in_calls` says that the call is in the table, `listening` that the signal has its `abort`, `cancels`
-- how often Go was told to drop the call.
pub record Call : Type 0 where
  pub in_calls : Bool
  pub listening : Bool
  pub settled : Bool
  pub promise : Promise
  pub stream : BodyStream
  pub received : List Text
  pub cancels : ℕ

-- An end has an error or none.
pub data Event : Type 0 where
  head : ℕ → Event
  chunk : Text → Event
  end : Option Text → Event
  abort : Event
  start_failed : Text → Event
  reader_cancels : Event

abbrev pub is_empty_status : ℕ → Bool
is_empty_status status = status == 101 || (status == 204 || (status == 205 || status == 304))

-- `try { controller.close() } catch {}`, for a stream that is open
abbrev pub close_stream : BodyStream → BodyStream
close_stream readable = closed
close_stream closed = closed
close_stream (errored e) = errored e

abbrev pub error_stream : Text → BodyStream → BodyStream
error_stream e readable = errored e
error_stream e closed = closed
error_stream e (errored f) = errored f

abbrev pub enqueue : Text → BodyStream → List Text → List Text
enqueue bytes readable received = received ++ bytes ∷ []
enqueue bytes closed received = received
enqueue bytes (errored e) received = received

-- `dropCall`
abbrev pub drop_call : Call → Call
drop_call c = if c.in_calls then record c { in_calls = false; cancels = c.cancels + 1 } else c

abbrev pub settle_call : Promise → Call → Call
settle_call promise c = record c { settled = true; promise = promise }

-- The statuses that `new Response` takes; for any other it throws a `RangeError`.
abbrev pub is_response_status : ℕ → Bool
is_response_status status = leb 200 status && leb status 599

-- `settled` is set before `new Response` is called: where that throws, nothing else happens.
unfoldable pub on_head : ℕ → Call → Call
on_head status c =
    if c.settled
    then c
    else if is_response_status status
    then record (settle_call (resolved status) c) {
      stream = if is_empty_status status then close_stream c.stream else c.stream;
    }
    else record c { settled = true }

unfoldable pub on_end : Option Text → Call → Call
on_end none c =
    if c.settled
    then record c { listening = false; stream = close_stream c.stream }
    else record (settle_call (rejected (txt "Failed to fetch")) c) { listening = false }
on_end (some e) c =
    if c.settled
    then record c { listening = false; stream = error_stream e c.stream }
    else record (settle_call (rejected e) c) { listening = false }

abbrev pub abort_error : Text
abort_error = txt "The operation was aborted."

-- The listener of the signal, which is there once.
unfoldable pub on_abort : Call → Call
on_abort c =
    let d = drop_call c in
    if d.settled
    then record d { listening = false; stream = error_stream abort_error d.stream }
    else record (settle_call (rejected abort_error) d) { listening = false }

-- `start(…).catch`
unfoldable pub on_start_failed : Text → Call → Call
on_start_failed e c = let d = drop_call c in if d.settled then d else settle_call (rejected e) d

unfoldable pub hear : Event → Call → Call
unfolding on_head on_end on_abort on_start_failed
hear (head status) c = if c.in_calls then on_head status c else c
hear (chunk bytes) c =
    if c.in_calls then record c { received = enqueue bytes c.stream c.received } else c
hear (end e) c = if c.in_calls then on_end e (record c { in_calls = false }) else c
hear abort c = if c.listening then on_abort c else c
hear (start_failed e) c = on_start_failed e c
hear reader_cancels c = record (drop_call c) { stream = close_stream c.stream }

-- A call that was just made; one whose signal is aborted already ends at once.
unfoldable pub new_call : Bool → Call
new_call aborted =
    let c : Call = record {
      in_calls = false;
      listening = false;
      settled = false;
      promise = pending;
      stream = readable;
      received = [];
      cancels = 0;
    } in
    if aborted
    then settle_call (rejected abort_error) c
    else record c { in_calls = true; listening = true }

unfoldable pub hear_all : List Event → Call → Call
unfolding hear
hear_all [] c = c
hear_all (e ∷ events) c = hear_all events (hear e c)
