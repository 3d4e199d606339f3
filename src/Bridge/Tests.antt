-- ===== src/Bridge/Tests.antt =====
-- Calls over the bridge, and the theorems at them.
use log_agent.Prelude.{
  Bool, false, length, ◌==◌, nat_eq, some, ◌≤◌, true, false, List, [], ◌∷◌, ◌++◌, map, none, Text,
  txt, ◌≡◌, refl,
}
use log_agent.Bridge.{Piece, body_pieces, start_body, max_chunk}
use log_agent.Bridge.Body.{ArePieces, start_body_whole}
use log_agent.Bridge.Fetch.{Promise, Event, hear, new_call, hear_all}
use log_agent.Bridge.Settles.{is_pending, AllCanHappen, fetch_settles}
use log_agent.Bridge.Xhr.{Xhr, Fired, Heard, sent_xhr, concat}
use log_agent.Bridge.Loadends.{IsXhr, hear_all-IsXhr, heard_chunks, loads}
use log_agent.Bridge.EventSource.{
  Source, ReadyState, Emitted, Happened, on_chunk, new_source, happen_all, open_event, error_event,
}
use log_agent.Bridge.Emits.{HasEmitted, happen_all-in_shape}
use log_agent.Bridge.Chunks.{on_chunk-append}

-- Seven bytes in pieces of three.
three_pieces :
    map (λ (piece : Piece). piece.loaded) (body_pieces 3 7 0 (txt "abcdefg")) ≡ 3 ∷ 6 ∷ 7 ∷ []
unfolding body_pieces
three_pieces = refl

start_body_whole_example : ArePieces max_chunk 0 (txt "body") (start_body (txt "body"))
start_body_whole_example = start_body_whole (txt "body")

-- A head and a chunk came, then the caller aborts, and the channel goes on.
abbrev before : List Event
before = Event.head 200 ∷ Event.chunk (txt "a") ∷ []

abbrev after : List Event
after = Event.chunk (txt "b") ∷ Event.end none ∷ []

before_happens : AllCanHappen before (new_call false)
before_happens = (refl, (tt, tt))

fetch_settles_example :
    let c = hear Event.abort (hear_all before (new_call false)) in
    (is_pending c.promise ≡ false)
    × ((hear_all after c).promise ≡ c.promise)
    × ((hear_all after c).cancels ≤ 1)
fetch_settles_example =
    fetch_settles false before Event.abort after before_happens tt (tt, (tt, tt)) refl

got_head : (hear_all before (new_call false)).promise ≡ Promise.resolved 200
unfolding new_call hear_all
got_head = refl

abbrev two_chunks : List Heard
two_chunks =
    Heard.sent 3
    ∷ Heard.chunk (txt "a")
    ∷ Heard.chunk (txt "b")
    ∷ Heard.end none
    ∷ Heard.chunk (txt "c")
    ∷ []

hear_all-IsXhr_example :
    let x = log_agent.Bridge.Xhr.hear_all (λ bytes. bytes) two_chunks sent_xhr in
    IsXhr (λ bytes. bytes) x × (1 ≤ loads x.fired → x.response ≡ concat (heard_chunks two_chunks))
hear_all-IsXhr_example = hear_all-IsXhr (λ bytes. bytes) two_chunks

aborted_fires :
    (log_agent.Bridge.Xhr.hear_all
      (λ bytes. bytes)
      (Heard.sent 3 ∷ Heard.abort ∷ Heard.end none ∷ [])
      sent_xhr).fired
    ≡ Fired.progress 3 ∷ Fired.aborted ∷ Fired.loadend ∷ []
unfolding log_agent.Bridge.Xhr.hear_all
aborted_fires = refl

-- Handlers that do not close the source.
abbrev stays : List Emitted → Bool
stays emitted = false

abbrev message : Text → Emitted
message text = record { type = txt "message"; data_ = some text }

abbrev source : Source
source = record { ready_state = ReadyState.opened; pending = []; emitted = open_event ∷ [] }

abbrev line_end : Text
line_end = 10 ∷ []

abbrev first_half : Text
first_half = txt "data: a" ++ line_end ++ txt "da"

abbrev second_half : Text
second_half = txt "ta: b" ++ line_end ++ line_end

on_chunk-append_example :
    on_chunk stays second_half (on_chunk stays first_half source)
    ≡ on_chunk stays (first_half ++ second_half) source
on_chunk-append_example = on_chunk-append stays first_half second_half source refl

one_message :
    (on_chunk stays second_half (on_chunk stays first_half source)).emitted
    ≡ open_event ∷ message (txt "a" ++ line_end ++ txt "b") ∷ []
unfolding on_chunk
one_message = refl

-- A line end that is cut between its two characters ends the event too early.
cut_return :
    (on_chunk stays
      (10 ∷ txt "data: b" ++ line_end ++ line_end)
      (on_chunk stays (txt "data: a" ++ 13 ∷ []) source)).emitted
    ≡ open_event ∷ message (txt "a") ∷ message (txt "b") ∷ []
unfolding on_chunk
cut_return = refl

abbrev life : List Happened
life =
    Happened.answered true
    ∷ Happened.chunk (txt "event: error" ++ line_end ++ txt "data: a" ++ line_end ++ line_end)
    ∷ Happened.ended
    ∷ []

-- An error that the server sends as an event, and the source's own.
two_errors :
    (happen_all stays life new_source).emitted
    ≡ open_event ∷ record { type = txt "error"; data_ = some (txt "a") } ∷ error_event ∷ []
unfolding happen_all
two_errors = refl

-- A handler that closes the source at the second event of all.
closed_at_error :
    (happen_all (λ emitted. length emitted == 2) life new_source).emitted
    ≡ open_event ∷ record { type = txt "error"; data_ = some (txt "a") } ∷ []
unfolding happen_all
closed_at_error = refl

happen_all-in_shape_example :
    let s = happen_all stays life new_source in
    HasEmitted s.ready_state s.emitted
    × (s.ready_state ≡ ReadyState.closed
        → (happen_all stays (Happened.close ∷ []) s).emitted ≡ s.emitted)
happen_all-in_shape_example =
    happen_all-in_shape stays life (Happened.close ∷ []) (tt, (tt, (tt, tt)))
