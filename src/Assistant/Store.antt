-- ===== src/Assistant/Store.antt =====
-- The sessions that are kept: at most 12, no id twice, and the active one among them.
use mathlib.Core.Path.{subst, sym}
use log_agent.Prelude.{
  length-filterb, ℕ, zero, suc, ◌≤◌, true, false, not, ◌||◌, List, [], ◌∷◌, map, Option, none, some,
  Text, text_eq, text_beq_iff, ◌==◌, ◌≡◌, refl, ap, is_empty, take, length, length-take, arith,
  filterb,
}
use log_agent.LogBuffer.{Log}
use log_agent.Prelude.Members.{
  contains, Distinct, beq_refl, Distinct-filterb, contains-filterb, Distinct-take, contains-take,
}
use log_agent.Assistant.{
  new_session, Session, Assistant, max_assistant_sessions, find_session, active_assistant_session,
  others_than, synced, sync_active_assistant_session, start_assistant_session,
  select_assistant_session, sync_session, show_session,
}

abbrev pub session_ids : List Session → List Text
session_ids sessions = map (λ (s : Session). s.id) sessions

pub record IsStore (a : Assistant) : Type 0 where
  pub distinct : Distinct (session_ids a.sessions)
  pub within : length a.sessions ≤ max_assistant_sessions
  pub active :
      (is_empty a.active_session_id || contains a.active_session_id (session_ids a.sessions)) ≡ true

pub session_ids-others_than :
    (id : Text) (sessions : List Session)
    → session_ids (others_than id sessions) ≡ filterb (λ x. not (x == id)) (session_ids sessions)
session_ids-others_than id [] = refl
session_ids-others_than id (s ∷ sessions) = ground (arith, session_ids-others_than id sessions)

session_ids-take :
    (n : ℕ) (sessions : List Session)
    → session_ids (take n sessions) ≡ take n (session_ids sessions)
session_ids-take zero sessions = refl
session_ids-take (suc n) [] = refl
session_ids-take (suc n) (s ∷ sessions) = ap (s.id ∷◌) (session_ids-take n sessions)

pub find_session-id :
    (id : Text) (sessions : List Session) (s : Session)
    → find_session id sessions ≡ some s
    → (s.id ≡ id) × (contains id (session_ids sessions) ≡ true)
find_session-id id [] s e = absurd (ground (arith, e))
find_session-id id (t ∷ sessions) s e =
    ground (arith, e, find_session-id id sessions s, text_beq_iff t.id id)

others_than-gone :
    (id : Text) (sessions : List Session)
    → contains id (session_ids (others_than id sessions)) ≡ false
others_than-gone id sessions = ground (
  arith,
  session_ids-others_than id sessions,
  contains-filterb (λ x. not (x == id)) id (session_ids sessions),
  beq_refl id,
)

pub Distinct-others_than :
    (id : Text) (sessions : List Session)
    → Distinct (session_ids sessions)
    → Distinct (session_ids (others_than id sessions))
Distinct-others_than id sessions d =
    subst Distinct (sym (session_ids-others_than id sessions))
      (Distinct-filterb (λ x. not (x == id)) (session_ids sessions) d)

-- A session in front of others with other ids, cut at 12.
put_first :
    (s : Session) (sessions : List Session)
    → contains s.id (session_ids sessions) ≡ false
    → Distinct (session_ids sessions)
    → (Distinct (session_ids (take max_assistant_sessions (s ∷ sessions))))
      × (length (take max_assistant_sessions (s ∷ sessions)) ≤ max_assistant_sessions)
put_first s sessions new d = (
  subst Distinct (sym (session_ids-take max_assistant_sessions (s ∷ sessions)))
      (Distinct-take max_assistant_sessions (s.id ∷ session_ids sessions) (new, d)),
  omega (arith, length-take {0} max_assistant_sessions (s ∷ sessions)),
)

sync_session-IsStore :
    (now : ℕ) (by_default : Text) (o : Option Session) (a : Assistant)
    → find_session a.active_session_id a.sessions ≡ o
    → IsStore a
    → IsStore (sync_session now by_default o a)
unfolding sync_session synced
sync_session-IsStore now by_default none a e v = v
sync_session-IsStore now by_default (some s) a e v =
    let own = find_session-id a.active_session_id a.sessions s e in
    let first =
      put_first (synced now by_default a s) (others_than s.id a.sessions)
        (others_than-gone s.id a.sessions) (Distinct-others_than s.id a.sessions v.distinct) in
    record { distinct = first.0; within = first.1; active = ground (arith, own.0, beq_refl s.id) }

pub sync_active-IsStore :
    (now : ℕ) (by_default : Text) (a : Assistant)
    → IsStore a
    → IsStore (sync_active_assistant_session now by_default a)
unfolding sync_active_assistant_session active_assistant_session
sync_active-IsStore now by_default a v =
    sync_session-IsStore now by_default (find_session a.active_session_id a.sessions) a refl v

sync_session-id :
    (now : ℕ) (by_default : Text) (o : Option Session) (a : Assistant) (id : Text)
    → find_session a.active_session_id a.sessions ≡ o
    → contains id (session_ids a.sessions) ≡ false
    → contains id (session_ids (sync_session now by_default o a).sessions) ≡ false
unfolding sync_session synced
sync_session-id now by_default none a id e h = h
sync_session-id now by_default (some s) a id e h =
    let kept = others_than s.id a.sessions in
    subst (λ l. contains id l ≡ false)
      (sym (session_ids-take max_assistant_sessions (synced now by_default a s ∷ kept)))
      (contains-take max_assistant_sessions id (s.id ∷ session_ids kept) (
        ground (
          arith,
          h,
          text_beq_iff s.id id,
          find_session-id a.active_session_id a.sessions s e,
          session_ids-others_than s.id a.sessions,
          contains-filterb (λ x. not (x == s.id)) id (session_ids a.sessions),
        )))

-- A new session whose id is not taken.
pub start-IsStore :
    (id : Text) (now : ℕ) (by_default : Text) (context : List Log) (active_log_id title : Text)
    (a : Assistant)
    → contains id (session_ids a.sessions) ≡ false
    → IsStore a
    → IsStore (start_assistant_session id now by_default context active_log_id title a)
unfolding start_assistant_session sync_active_assistant_session active_assistant_session
start-IsStore id now by_default context active_log_id title a new v =
    let b = sync_active_assistant_session now by_default a in
    let w = sync_active-IsStore now by_default a v in
    let still_new =
      sync_session-id now by_default (find_session a.active_session_id a.sessions) a id refl new in
    let first =
      put_first (new_session id now by_default context active_log_id title) b.sessions still_new
        w.distinct in
    record { distinct = first.0; within = first.1; active = ground (arith, beq_refl id) }

show_session-IsStore :
    (to_number : Text → ℕ) (id : Text) (o : Option Session) (a : Assistant)
    → find_session id a.sessions ≡ o
    → IsStore a
    → IsStore (show_session to_number o a)
unfolding show_session
show_session-IsStore to_number id none a e v = v
show_session-IsStore to_number id (some s) a e v = record {
  distinct = v.distinct;
  within = v.within;
  active = ground (arith, find_session-id id a.sessions s e);
}

pub select-IsStore :
    (to_number : Text → ℕ) (id : Text) (a : Assistant)
    → IsStore a
    → IsStore (select_assistant_session to_number id a)
unfolding select_assistant_session
select-IsStore to_number id a v =
    show_session-IsStore to_number id (find_session id a.sessions) a refl v

pub length-others_than :
    (id : Text) (sessions : List Session) → length (others_than id sessions) ≤ length sessions
length-others_than id sessions = length-filterb (λ (item : Session). not (item.id == id)) sessions
