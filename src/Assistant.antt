-- ===== src/Assistant.antt =====
-- app.js: the sessions of the assistant: `copyAssistantSessionData`, `activeAssistantSession`,
-- `syncActiveAssistantSession`, `startAssistantSession`, `selectAssistantSession` and
-- `deleteAssistantSession`. The clock, a new session's id, the title by default and how `Number`
-- reads a text are arguments. What is stored and drawn is left out.
pub mod Store
pub mod Switch
mod Tests
use log_agent.Prelude.{
  ℕ, ◌-◌, Bool, true, false, not, ◌&&◌, List, [], ◌∷◌, map, Option, none, some, Text, text_eq, ◌==◌,
  if◌then◌else◌, is_empty, find_first, filterb, take, drop, length,
}
use log_agent.LogBuffer.{Log}
use log_agent.LogView.{collapse}
use log_agent.Scope.{or_text}

pub record Message : Type 0 where
  pub by_assistant : Bool
  pub content : Text
  pub failed : Bool

pub record Session : Type 0 where
  pub id : Text
  pub title : Text
  pub created_at : ℕ
  pub updated_at : ℕ
  pub active_log_id : Text
  pub context : List Log
  pub messages : List Message

pub record Assistant : Type 0 where
  pub sessions : List Session
  pub active_session_id : Text
  pub active_log_id : Text
  pub context : List Log
  pub messages : List Message
  pub attachments : List Text
  pub selected_log : ℕ

-- `maxAssistantSessions`
abbrev pub max_assistant_sessions : ℕ
max_assistant_sessions = 12

abbrev pub copy_message : Message → Message
copy_message message = record message { content = take 16000 message.content }

-- `slice(-12)`
abbrev pub last_messages : List Message → List Message
last_messages messages = drop (length messages - 12) messages

-- `copyAssistantSessionData`
unfoldable pub copy_context : List Log → List Log
copy_context context = take 20 context

unfoldable pub copy_messages : List Message → List Message
copy_messages messages = map copy_message (last_messages messages)

abbrev pub find_session : Text → List Session → Option Session
find_session id sessions = find_first (λ (session : Session). session.id == id) sessions

-- `activeAssistantSession`
unfoldable pub active_assistant_session : Assistant → Option Session
active_assistant_session a = find_session a.active_session_id a.sessions

-- The content of the first message of the user, or the title by default.
unfoldable pub first_content : Text → List Message → Text
first_content by_default messages =
    elim (find_first (λ (message : Message). not message.by_assistant) messages) [
      | none ↦ by_default
      | some message ↦ or_text message.content by_default
    ]

unfoldable pub synced : ℕ → Text → Assistant → Session → Session
unfolding copy_context copy_messages first_content collapse
synced now by_default a session =
    let messages = copy_messages a.messages in
    record session {
      context = copy_context a.context;
      messages = messages;
      active_log_id = a.active_log_id;
      updated_at = now;
      title =
          if session.title == by_default && not (is_empty messages)
          then take 80 (collapse false (first_content by_default messages))
          else session.title;
    }

abbrev pub others_than : Text → List Session → List Session
others_than id sessions = filterb (λ (item : Session). not (item.id == id)) sessions

-- `syncActiveAssistantSession`, with the active session
unfoldable pub sync_session : ℕ → Text → Option Session → Assistant → Assistant
unfolding synced
sync_session now by_default none a = a
sync_session now by_default (some session) a = record a {
  sessions =
      take max_assistant_sessions
        (synced now by_default a session ∷ others_than session.id a.sessions);
}

-- `syncActiveAssistantSession`
unfoldable pub sync_active_assistant_session : ℕ → Text → Assistant → Assistant
unfolding active_assistant_session sync_session
sync_active_assistant_session now by_default a =
    sync_session now by_default (active_assistant_session a) a

-- The session that `startAssistantSession` makes.
abbrev pub new_session : Text → ℕ → Text → List Log → Text → Text → Session
new_session id now by_default context active_log_id title = record {
  id = id;
  title = or_text (take 80 title) by_default;
  created_at = now;
  updated_at = now;
  active_log_id = active_log_id;
  context = copy_context context;
  messages = [];
}

-- `startAssistantSession`; `id` is the new session's.
unfoldable pub start_assistant_session :
    Text → ℕ → Text → List Log → Text → Text → Assistant → Assistant
unfolding sync_active_assistant_session copy_context
start_assistant_session id now by_default context active_log_id title a =
    let b = sync_active_assistant_session now by_default a in
    let session = new_session id now by_default context active_log_id title in
    record b {
      sessions = take max_assistant_sessions (session ∷ b.sessions);
      active_session_id = id;
      active_log_id = active_log_id;
      context = session.context;
      messages = [];
      attachments = [];
    }

-- `selectAssistantSession`, with the session that it finds
unfoldable pub show_session : (Text → ℕ) → Option Session → Assistant → Assistant
unfolding copy_context copy_messages
show_session to_number none a = a
show_session to_number (some session) a = record a {
  active_session_id = session.id;
  active_log_id = session.active_log_id;
  selected_log = to_number session.active_log_id;
  context = copy_context session.context;
  messages = copy_messages session.messages;
  attachments = [];
}

-- `selectAssistantSession`
unfoldable pub select_assistant_session : (Text → ℕ) → Text → Assistant → Assistant
unfolding show_session
select_assistant_session to_number id a = show_session to_number (find_session id a.sessions) a

-- The session that `deleteAssistantSession` goes to from a deleted one.
unfoldable pub leave_deleted : (Text → ℕ) → Text → ℕ → Text → List Session → Assistant → Assistant
unfolding select_assistant_session start_assistant_session
leave_deleted to_number new_id now by_default [] a =
    start_assistant_session new_id now by_default [] [] by_default a
leave_deleted to_number new_id now by_default (session ∷ rest) a =
    select_assistant_session to_number session.id a

-- `deleteAssistantSession`
unfoldable pub delete_assistant_session :
    (Text → ℕ) → Text → ℕ → Text → Text → Assistant → Assistant
unfolding leave_deleted
delete_assistant_session to_number new_id now by_default id a =
    let b = record a { sessions = others_than id a.sessions } in
    if id == a.active_session_id
    then leave_deleted to_number new_id now by_default b.sessions b
    else b
