-- ===== src/Bridge/Settles.antt =====
-- That every call of `window.fetch` gets one answer.
use mathlib.Core.Path.{subst}
use log_agent.Prelude.{
  ℕ, ◌+◌, ◌≤◌, Bool, true, false, not, List, [], ◌∷◌, none, some, Text, nat_eq, if◌then◌else◌, ◌≡◌,
  refl, sym, ◌∙◌, arith, Bool-cases, inl, inr,
}
use log_agent.Bridge.Fetch.{
  Promise, BodyStream, Call, Event, on_head, on_end, on_abort, on_start_failed, hear, new_call,
  hear_all, is_response_status,
}

abbrev pub is_pending : Promise → Bool
is_pending Promise.pending = true
is_pending (Promise.resolved status) = false
is_pending (Promise.rejected e) = false

-- A call that has no answer yet is in the table, can be aborted, and its body is not read; Go is told
-- to drop it at most once, and only when it was in the table.
pub record IsCall (c : Call) : Type 0 where
  pub pending_yet : is_pending c.promise ≡ not c.settled
  pub waits : c.settled ≡ false → (c.in_calls ≡ true) × (c.listening ≡ true)
  pub once : c.cancels + (if c.in_calls then 1 else 0) ≤ 1

-- The statuses are those that a response can have, and the body is only read once it was given out.
abbrev pub CanHappen : Event → Call → Type 0
CanHappen (Event.head status) c = is_response_status status ≡ true
CanHappen (Event.chunk bytes) c = Unit
CanHappen (Event.end e) c = Unit
CanHappen Event.abort c = Unit
CanHappen (Event.start_failed e) c = Unit
CanHappen Event.reader_cancels c = c.settled ≡ true

abbrev pub AllCanHappen : List Event → Call → Type 0
AllCanHappen [] c = Unit
AllCanHappen (e ∷ events) c = CanHappen e c × AllCanHappen events (hear e c)

-- What ends a call.
abbrev pub is_end : Event → Bool
is_end (Event.head status) = true
is_end (Event.chunk bytes) = false
is_end (Event.end e) = true
is_end Event.abort = true
is_end (Event.start_failed e) = true
is_end Event.reader_cancels = false

abbrev pub drops : ℕ → Bool → ℕ
drops n in_calls = n + (if in_calls then 1 else 0)

-- A call that has its answer.
answered-IsCall :
    (c : Call)
    → c.settled ≡ true
    → is_pending c.promise ≡ false
    → drops c.cancels c.in_calls ≤ 1
    → IsCall c
answered-IsCall c s p n = record {
  pending_yet = ground (arith, s, p);
  waits = λ f. absurd (ground (arith, s, f));
  once = n;
}

abbrev call : Bool → Bool → Bool → Promise → BodyStream → List Text → ℕ → Call
call in_calls listening settled promise stream received cancels = record {
  in_calls = in_calls;
  listening = listening;
  settled = settled;
  promise = promise;
  stream = stream;
  received = received;
  cancels = cancels;
}

-- `hear-IsCall` for a call by its fields.
hear-call :
    (e : Event) (i l s : Bool) (promise : Promise) (stream : BodyStream) (received : List Text)
    (n : ℕ)
    → CanHappen e (call i l s promise stream received n)
    → IsCall (call i l s promise stream received n)
    → IsCall (hear e (call i l s promise stream received n))
unfolding hear on_head on_end on_abort on_start_failed
hear-call (Event.chunk bytes) false l s p t r n o h = h
hear-call (Event.chunk bytes) true l s p t r n o h = record {
  pending_yet = h.pending_yet;
  waits = h.waits;
  once = h.once;
}
hear-call (Event.head status) false l s p t r n o h = h
hear-call (Event.head status) true l true p t r n o h = h
hear-call (Event.head status) true l false p t r n o h = rw o (answered-IsCall _ refl refl h.once)
hear-call (Event.end e) false l s p t r n o h = h
hear-call (Event.end none) true l true p t r n o h =
    answered-IsCall _ refl h.pending_yet (omega (arith, h.once))
hear-call (Event.end none) true l false p t r n o h =
    answered-IsCall _ refl refl (omega (arith, h.once))
hear-call (Event.end (some e)) true l true p t r n o h =
    answered-IsCall _ refl h.pending_yet (omega (arith, h.once))
hear-call (Event.end (some e)) true l false p t r n o h =
    answered-IsCall _ refl refl (omega (arith, h.once))
hear-call Event.abort i false s p t r n o h = h
hear-call Event.abort true true true p t r n o h =
    answered-IsCall _ refl h.pending_yet (omega (arith, h.once))
hear-call Event.abort true true false p t r n o h =
    answered-IsCall _ refl refl (omega (arith, h.once))
hear-call Event.abort false true true p t r n o h = answered-IsCall _ refl h.pending_yet h.once
hear-call Event.abort false true false p t r n o h = answered-IsCall _ refl refl h.once
hear-call (Event.start_failed e) true l true p t r n o h =
    answered-IsCall _ refl h.pending_yet (omega (arith, h.once))
hear-call (Event.start_failed e) true l false p t r n o h =
    answered-IsCall _ refl refl (omega (arith, h.once))
hear-call (Event.start_failed e) false l true p t r n o h =
    answered-IsCall _ refl h.pending_yet h.once
hear-call (Event.start_failed e) false l false p t r n o h = answered-IsCall _ refl refl h.once
hear-call Event.reader_cancels true l true p t r n o h =
    answered-IsCall _ refl h.pending_yet (omega (arith, h.once))
hear-call Event.reader_cancels false l true p t r n o h =
    answered-IsCall _ refl h.pending_yet h.once
hear-call Event.reader_cancels i l false p t r n o h = cc

hear-IsCall : (e : Event) (c : Call) → CanHappen e c → IsCall c → IsCall (hear e c)
hear-IsCall e c o h =
    hear-call e c.in_calls c.listening c.settled c.promise c.stream c.received c.cancels o h

abbrev Kept : Call → Call → Type 0
Kept c d = (d.promise ≡ c.promise) × (d.settled ≡ true)

-- What has an answer keeps it.
keeps_call :
    (e : Event) (i l : Bool) (p : Promise) (t : BodyStream) (r : List Text) (n : ℕ)
    → Kept (call i l true p t r n) (hear e (call i l true p t r n))
unfolding hear on_head on_end on_abort on_start_failed
keeps_call (Event.chunk bytes) true l p t r n = (refl, refl)
keeps_call (Event.head status) true l p t r n = (refl, refl)
keeps_call (Event.end none) true l p t r n = (refl, refl)
keeps_call (Event.end (some e)) true l p t r n = (refl, refl)
keeps_call (Event.chunk bytes) false l p t r n = (refl, refl)
keeps_call (Event.head status) false l p t r n = (refl, refl)
keeps_call (Event.end e) false l p t r n = (refl, refl)
keeps_call Event.abort i false p t r n = (refl, refl)
keeps_call Event.abort true true p t r n = (refl, refl)
keeps_call Event.abort false true p t r n = (refl, refl)
keeps_call (Event.start_failed e) true l p t r n = (refl, refl)
keeps_call (Event.start_failed e) false l p t r n = (refl, refl)
keeps_call Event.reader_cancels true l p t r n = (refl, refl)
keeps_call Event.reader_cancels false l p t r n = (refl, refl)

hear_keeps : (e : Event) (c : Call) → c.settled ≡ true → Kept c (hear e c)
hear_keeps e c s =
    subst (λ b. Kept (record c { settled = b }) (hear e (record c { settled = b }))) (sym s)
      (keeps_call e c.in_calls c.listening c.promise c.stream c.received c.cancels)

hear_all_keeps :
    (events : List Event) (c : Call) → c.settled ≡ true → (hear_all events c).promise ≡ c.promise
unfolding hear_all
hear_all_keeps [] c s = refl
hear_all_keeps (e ∷ events) c s =
    let (same, settled) = hear_keeps e c s in hear_all_keeps events (hear e c) settled ∙ same

hear_all-IsCall :
    (events : List Event) (c : Call) → AllCanHappen events c → IsCall c → IsCall (hear_all events c)
unfolding hear_all
hear_all-IsCall [] c o h = h
hear_all-IsCall (e ∷ events) c (first, rest) h =
    hear_all-IsCall events (hear e c) rest (hear-IsCall e c first h)

-- An end of a call gives it an answer.
end_call :
    (e : Event) (i l s : Bool) (p : Promise) (t : BodyStream) (r : List Text) (n : ℕ)
    → is_end e ≡ true
    → IsCall (call i l s p t r n)
    → (hear e (call i l s p t r n)).settled ≡ true
unfolding hear on_head on_end on_abort on_start_failed
end_call e i l true p t r n f h = (keeps_call e i l p t r n).1
end_call e false l false p t r n f h = absurd (ground (arith, (h.waits refl).0))
end_call e true false false p t r n f h = absurd (ground (arith, (h.waits refl).1))
end_call (Event.chunk bytes) true true false p t r n f h = cc
end_call Event.reader_cancels true true false p t r n f h = cc
end_call (Event.head status) true true false p t r n f h =
    elim (Bool-cases (is_response_status status)) [ inl e ↦ rw e refl | inr e ↦ rw e refl ]
end_call (Event.end none) true true false p t r n f h = refl
end_call (Event.end (some e)) true true false p t r n f h = refl
end_call Event.abort true true false p t r n f h = refl
end_call (Event.start_failed e) true true false p t r n f h = refl

new_call-IsCall : (aborted : Bool) → IsCall (new_call aborted)
unfolding new_call
new_call-IsCall true = answered-IsCall _ refl refl (omega arith)
new_call-IsCall false = record { pending_yet = refl; waits = λ f. (refl, refl); once = omega arith }

-- A call of `fetch`, whatever happens to it before and after, has an answer once its head or its end
-- came, it was aborted or its start failed; no later event changes this answer, and Go is told at
-- most once to drop the call. The heads have a status from 200 to 599, which a response can have,
-- and the reader cancels a body only when it was given out.
pub fetch_settles :
    (aborted : Bool) (before : List Event) (e : Event) (after : List Event)
    → let c = hear e (hear_all before (new_call aborted)) in
      AllCanHappen before (new_call aborted)
      → CanHappen e (hear_all before (new_call aborted))
      → AllCanHappen after c
      → is_end e ≡ true
      → (is_pending c.promise ≡ false)
        × ((hear_all after c).promise ≡ c.promise)
        × ((hear_all after c).cancels ≤ 1)
fetch_settles aborted before e after o p q f =
    let b = hear_all before (new_call aborted) in
    let good = hear_all-IsCall before (new_call aborted) o (new_call-IsCall aborted) in
    let settled =
      end_call e b.in_calls b.listening b.settled b.promise b.stream b.received b.cancels f good in
    let there = hear-IsCall e b p good in
    let last = hear_all-IsCall after (hear e b) q there in
    (
      ground (arith, there.pending_yet, settled),
      hear_all_keeps after (hear e b) settled,
      ground (arith, last.once),
    )
