-- ===== src/Bridge/Xhr.antt =====
-- bridge.js: a `BridgeXHR` after `send`, with what the channel says, what `start` reports and `abort`.
use log_agent.Prelude.{
  ℕ, Bool, true, false, ◌&&◌, List, [], ◌∷◌, ◌++◌, Option, none, some, Text, if◌then◌else◌,
}

pub data Fired : Type 0 where
  progress : ℕ → Fired
  error load loadend aborted : Fired

-- `has_id` says that `_id` is not null; `fired` are the events, the first one first.
pub record Xhr : Type 0 where
  pub ready_state : ℕ
  pub status : ℕ
  pub response : Text
  pub has_id : Bool
  pub in_calls : Bool
  pub chunks : List Text
  pub fired : List Fired

pub data Heard : Type 0 where
  head : ℕ → Heard
  chunk : Text → Heard
  end : Option Text → Heard
  sent : ℕ → Heard
  start_failed abort : Heard

-- `concat`
abbrev pub concat : List Text → Text
concat [] = []
concat (bytes ∷ rest) = bytes ++ concat rest

abbrev pub fire : List Fired → Xhr → Xhr
fire events x = record x { fired = x.fired ++ events }

-- `onEnd`; `decode` is that of the platform.
unfoldable pub on_end : (Text → Text) → Option Text → Xhr → Xhr
on_end decode (some e) x = fire (error ∷ loadend ∷ []) (record x { has_id = false })
on_end decode none x =
    fire (load ∷ loadend ∷ [])
      (record x { has_id = false; response = decode (concat x.chunks); ready_state = 4 })

unfoldable pub hear : (Text → Text) → Heard → Xhr → Xhr
unfolding on_end
hear decode (head status) x = if x.in_calls then record x { status = status } else x
hear decode (chunk bytes) x = if x.in_calls then record x { chunks = x.chunks ++ bytes ∷ [] } else x
hear decode (end e) x = if x.in_calls then on_end decode e (record x { in_calls = false }) else x
hear decode (sent n) x = fire (progress n ∷ []) x
hear decode start_failed x =
    if x.in_calls then fire (error ∷ loadend ∷ []) (record x { in_calls = false }) else x
hear decode abort x =
    if x.has_id && x.in_calls
    then fire (aborted ∷ loadend ∷ []) (record x { in_calls = false; has_id = false })
    else x

-- After `open` and `send`, when the body is packed.
abbrev pub sent_xhr : Xhr
sent_xhr = record {
  ready_state = 1;
  status = 0;
  response = [];
  has_id = true;
  in_calls = true;
  chunks = [];
  fired = [];
}

unfoldable pub hear_all : (Text → Text) → List Heard → Xhr → Xhr
unfolding hear
hear_all decode [] x = x
hear_all decode (h ∷ heard) x = hear_all decode heard (hear decode h x)
