-- ===== src/Assistant/Tests.antt =====
-- A conversation in two sessions, and the theorems at it.
use log_agent.Prelude.{ℕ, false, [], ◌∷◌, some, txt, Text, ◌≡◌, refl, arith, text_eq}
use log_agent.Assistant.{
  Message, Session, Assistant, active_assistant_session, start_assistant_session,
  select_assistant_session, delete_assistant_session, map, drop, take,
}
use log_agent.Assistant.Store.{IsStore}
use log_agent.Assistant.Switch.{cut_message, Steps, Steps-IsStore, select-start}

abbrev empty : Assistant
empty = record {
  sessions = [];
  active_session_id = [];
  active_log_id = [];
  context = [];
  messages = [];
  attachments = [];
  selected_log = 0;
}

abbrev number : Text → ℕ
number s = 0

abbrev question : Message
question = record { by_assistant = false; content = txt "why?"; failed = false }

abbrev first : Session
first = record {
  id = txt "a";
  title = txt "New";
  created_at = 1;
  updated_at = 1;
  active_log_id = [];
  context = [];
  messages = [];
}

abbrev one : Assistant
one = record empty { sessions = first ∷ []; active_session_id = txt "a"; messages = question ∷ [] }

empty-IsStore : IsStore empty
empty-IsStore = record { distinct = tt; within = omega arith; active = refl }

abbrev started : Assistant
started = start_assistant_session (txt "a") 1 (txt "New") [] [] (txt "New") empty

Steps-IsStore_example :
    IsStore (delete_assistant_session number (txt "b") 2 (txt "New") (txt "a") started)
Steps-IsStore_example =
    Steps-IsStore empty (delete_assistant_session number (txt "b") 2 (txt "New") (txt "a") started)
      empty-IsStore
      (Steps.remove number (txt "b") 2 (txt "New") (txt "a")
        (Steps.begin (txt "a") 1 (txt "New") [] [] (txt "New") Steps.here refl))

one_active : active_assistant_session one ≡ some first
unfolding active_assistant_session
one_active = refl

select-start_example :
    let b : Assistant =
      select_assistant_session number
        (txt "a")
        (start_assistant_session (txt "ab") 2 (txt "New") [] [] (txt "New") one) in
    (b.active_session_id ≡ txt "a")
    × (b.messages ≡ map cut_message (drop 0 (question ∷ [])))
    × (b.context ≡ take 20 [])
    × (b.active_log_id ≡ [])
select-start_example =
    select-start number (txt "ab") 2 (txt "New") [] [] (txt "New") one first one_active (λ h. cc)
