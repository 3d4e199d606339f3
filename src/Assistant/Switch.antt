-- ===== src/Assistant/Switch.antt =====
-- Going from session to session: what is kept, and that nothing is lost on the way.
use log_agent.Prelude.{
  ℕ, zero, suc, ◌-◌, ◌≤◌, true, false, not, List, [], ◌∷◌, map, some, Text, text_eq, text_beq_iff,
  ◌==◌, ◌≡◌, refl, ap, ◌∙◌, take, length, length-drop, arith, Bool-cases, inl, inr, ◌≢◌,
}
use log_agent.LogBuffer.{Log}
use log_agent.Prelude.Members.{contains, Distinct, beq_refl, contains-filterb, beq-ne}
use log_agent.Assistant.{
  new_session, Message, Session, Assistant, max_assistant_sessions, find_session,
  active_assistant_session, others_than, sync_active_assistant_session, start_assistant_session,
  select_assistant_session, delete_assistant_session, leave_deleted, sync_session, show_session,
  copy_message, copy_messages, last_messages, synced, copy_context, Option, drop,
}
use log_agent.Assistant.Store.{
  find_session-id, session_ids, IsStore, sync_active-IsStore, start-IsStore, select-IsStore,
  Distinct-others_than, session_ids-others_than, length-others_than,
}

leave_deleted-IsStore :
    (to_number : Text → ℕ) (new_id : Text) (now : ℕ) (by_default : Text) (sessions : List Session)
    (a : Assistant)
    → Distinct (session_ids sessions)
    → length sessions ≤ max_assistant_sessions
    → IsStore
        (leave_deleted to_number new_id now by_default sessions (record a { sessions = sessions }))
unfolding leave_deleted start_assistant_session sync_active_assistant_session
    active_assistant_session sync_session select_assistant_session show_session
leave_deleted-IsStore to_number new_id now by_default [] a d h = record {
  distinct = (refl, tt);
  within = omega arith;
  active = ground (arith, beq_refl new_id);
}
leave_deleted-IsStore to_number new_id now by_default (s ∷ rest) a d h =
    rw (beq_refl s.id) (record { distinct = d; within = h; active = ground (arith, beq_refl s.id) })

delete-IsStore :
    (to_number : Text → ℕ) (new_id : Text) (now : ℕ) (by_default id : Text) (a : Assistant)
    → IsStore a
    → IsStore (delete_assistant_session to_number new_id now by_default id a)
unfolding delete_assistant_session
delete-IsStore to_number new_id now by_default id a v =
    let d = Distinct-others_than id a.sessions v.distinct in
    let short : length (others_than id a.sessions) ≤ max_assistant_sessions =
      omega (arith, v.within, length-others_than id a.sessions) in
    elim (Bool-cases (id == a.active_session_id)) [
      | inl e ↦ rw e (
          leave_deleted-IsStore to_number new_id now by_default (others_than id a.sessions) a d
            short)
      | inr e ↦ rw e (record {
        distinct = d;
        within = short;
        active = ground (
          arith,
          v.active,
          e,
          text_beq_iff id a.active_session_id,
          text_beq_iff a.active_session_id id,
          session_ids-others_than id a.sessions,
          contains-filterb (λ x. not (x == id)) a.active_session_id (session_ids a.sessions),
        );
      })
    ]

-- What a user does: a conversation that goes on and is saved, a new session whose id is not taken, a
-- choice of a session, a deletion.
pub data Steps (a : Assistant) : Assistant → Type 0 where
  here : Steps a a
  talk :
      {b : Assistant} (context : List Log) (messages : List Message)
      → Steps a b
      → Steps a (record b { context = context; messages = messages })
  save :
      {b : Assistant} (now : ℕ) (by_default : Text)
      → Steps a b
      → Steps a (sync_active_assistant_session now by_default b)
  begin :
      {b : Assistant} (id : Text) (now : ℕ) (by_default : Text) (context : List Log)
      (active_log_id title : Text)
      → Steps a b
      → contains id (session_ids b.sessions) ≡ false
      → Steps a (start_assistant_session id now by_default context active_log_id title b)
  choose :
      {b : Assistant} (to_number : Text → ℕ) (id : Text)
      → Steps a b
      → Steps a (select_assistant_session to_number id b)
  remove :
      {b : Assistant} (to_number : Text → ℕ) (new_id : Text) (now : ℕ) (by_default id : Text)
      → Steps a b
      → Steps a (delete_assistant_session to_number new_id now by_default id b)

-- From a state in which at most 12 sessions are kept, no id is there twice and the active session, if
-- any, is kept: this holds after any conversation, saving, choices and deletions of sessions, and
-- new sessions whose ids are not taken.
pub Steps-IsStore : (a b : Assistant) → IsStore a → Steps a b → IsStore b
Steps-IsStore a b v Steps.here = v
Steps-IsStore a b v (Steps.talk {b = c} context messages r) =
    let w = Steps-IsStore a c v r in
    record { distinct = w.distinct; within = w.within; active = w.active }
Steps-IsStore a b v (Steps.save {b = c} now by_default r) =
    sync_active-IsStore now by_default c (Steps-IsStore a c v r)
Steps-IsStore a b v (Steps.begin {b = c} id now by_default context active title r new) =
    start-IsStore id now by_default context active title c new (Steps-IsStore a c v r)
Steps-IsStore a b v (Steps.choose {b = c} to_number id r) =
    select-IsStore to_number id c (Steps-IsStore a c v r)
Steps-IsStore a b v (Steps.remove {b = c} to_number new_id now by_default id r) =
    delete-IsStore to_number new_id now by_default id c (Steps-IsStore a c v r)

take-take {ℓ} : {A : Type ℓ} (n : ℕ) (xs : List A) → take n (take n xs) ≡ take n xs
take-take zero xs = refl
take-take (suc n) [] = refl
take-take (suc n) (x ∷ xs) = ap (x ∷◌) (take-take n xs)

map-copy :
    (messages : List Message)
    → map copy_message (map copy_message messages) ≡ map copy_message messages
map-copy [] = refl
map-copy (m ∷ messages) =
    ap (λ c. record m { content = c } ∷ map copy_message (map copy_message messages))
      (take-take 16000 m.content)
    ∙ ap (copy_message m ∷◌) (map-copy messages)

length-map_copy : (messages : List Message) → length (map copy_message messages) ≡ length messages
length-map_copy [] = refl
length-map_copy (m ∷ messages) = omega (arith, length-map_copy messages)

last_of_few : (messages : List Message) → length messages ≤ 12 → last_messages messages ≡ messages
last_of_few messages h = let none_cut : length messages - 12 ≡ 0 = omega arith in rw none_cut refl

copy_again :
    (messages : List Message) → copy_messages (copy_messages messages) ≡ copy_messages messages
unfolding copy_messages
copy_again messages =
    ap (map copy_message) (
      last_of_few (map copy_message (last_messages messages)) (
        omega (
          arith,
          length-map_copy (last_messages messages),
          length-drop {0} (length messages - 12) messages,
        )))
    ∙ map-copy (last_messages messages)

find-second :
    (id : Text) (s t : Session) (rest : List Session)
    → (s.id == id) ≡ false
    → (t.id == id) ≡ true
    → find_session id (take max_assistant_sessions (s ∷ take max_assistant_sessions (t ∷ rest)))
      ≡ some t
find-second id s t rest e f = rw (e, f) refl

shown :
    (to_number : Text → ℕ) (o : Option Session) (s : Session) (a : Assistant)
    → o ≡ some s
    → show_session to_number o a ≡ show_session to_number (some s) a
shown to_number o s a e = ap (λ p. show_session to_number p a) e

-- A message of a conversation that comes back.
abbrev pub cut_message : Message → Message
cut_message m = record m { content = take 16000 m.content }

-- Where a session is active and the new id is not its id: starting a new session and then selecting
-- the former one makes it active again, with the last 12 of its messages, each cut at 16000
-- characters, its first 20 logs, and its active log.
pub select-start :
    (to_number : Text → ℕ) (id : Text) (now : ℕ) (by_default : Text) (context : List Log)
    (active_log_id title : Text) (a : Assistant) (s : Session)
    → active_assistant_session a ≡ some s
    → id ≢ a.active_session_id
    → let b : Assistant =
        select_assistant_session to_number a.active_session_id
          (start_assistant_session id now by_default context active_log_id title a) in
      (b.active_session_id ≡ a.active_session_id)
      × (b.messages ≡ map cut_message (drop (length a.messages - 12) a.messages))
      × (b.context ≡ take 20 a.context)
      × (b.active_log_id ≡ a.active_log_id)
unfolding active_assistant_session select_assistant_session start_assistant_session
    sync_active_assistant_session sync_session synced show_session copy_context copy_messages
select-start to_number id now by_default context active_log_id title a s e other =
    let own : s.id ≡ a.active_session_id = (find_session-id a.active_session_id a.sessions s e).0 in
    let t = synced now by_default a s in
    let found =
      find-second a.active_session_id (new_session id now by_default context active_log_id title) t
        (others_than s.id a.sessions) (beq-ne id a.active_session_id other)
        (rw own (beq_refl a.active_session_id)) in
    rw (e, found) (own, copy_again a.messages, take-take 20 a.context, refl)
