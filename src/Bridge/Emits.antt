-- ===== src/Bridge/Emits.antt =====
-- Which events a `BridgeEventSource` emits, and in which order.
use mathlib.Core.Path.{subst}
use log_agent.Prelude.{
  Bool, true, false, List, [], ◌∷◌, ◌++◌, Option, none, some, Text, txt, nat_eq, is_empty, ◌≡◌,
  refl, sym, ap, ◌∙◌, Bool-cases, inl, inr, ◌⊎◌, All, All-append, if◌then◌else◌,
}
use log_agent.Bridge.EventSource.{
  read_block, read_lines, lines_of, split_blocks, take_blocks, emit_blocks, emit_read, emit, Source,
  ReadyState, on_chunk, Emitted, Happened, fail, on_answer, happen, new_source, happen_all,
  normalized, open_event, error_event,
}

-- An event that the server sent: it has data, and any type, that of an error as well.
abbrev pub IsMessage : Emitted → Type 0
IsMessage event = elim event.data_ [ none ↦ ⊥ | some text ↦ Unit ]

abbrev pub AreMessages : List Emitted → Type 0
AreMessages = All IsMessage

-- What is emitted in each state: nothing; the opening and messages; at the end nothing, the source's
-- own error alone, or the opening, messages, and perhaps the source's own error.
abbrev pub HasEmitted : ReadyState → List Emitted → Type 0
HasEmitted ReadyState.connecting emitted = emitted ≡ []
HasEmitted ReadyState.opened emitted =
    (messages : List Emitted) × (emitted ≡ open_event ∷ messages) × AreMessages messages
HasEmitted ReadyState.closed emitted =
    (emitted ≡ [])
    ⊎ (emitted ≡ error_event ∷ [])
    ⊎ ((messages : List Emitted) × AreMessages messages
        × ((emitted ≡ open_event ∷ messages)
            ⊎ (emitted ≡ open_event ∷ (messages ++ error_event ∷ []))))

-- A chunk comes only after the answer, and the answer only once.
abbrev pub CanHappen : Happened → ReadyState → Type 0
CanHappen (Happened.answered ok) ReadyState.connecting = Unit
CanHappen (Happened.answered ok) ReadyState.opened = ⊥
CanHappen (Happened.answered ok) ReadyState.closed = Unit
CanHappen (Happened.chunk text) state = Unit
CanHappen Happened.ended state = Unit
CanHappen Happened.close state = Unit

abbrev source : ReadyState → Text → List Emitted → Source
source ready_state pending emitted = record {
  ready_state = ready_state;
  pending = pending;
  emitted = emitted;
}

abbrev IsSource : Source → Type 0
IsSource s = HasEmitted s.ready_state s.emitted

AllMessages-snoc :
    (messages : List Emitted) (event : Emitted)
    → AreMessages messages
    → IsMessage event
    → AreMessages (messages ++ event ∷ [])
AllMessages-snoc messages event all m = All-append IsMessage messages (event ∷ []) all (m, tt)

IsRead : Option Emitted → Type 0
IsRead found = elim found [ none ↦ Unit | some event ↦ IsMessage event ]

read_block-IsRead : (block : Text) → IsRead (read_block block)
unfolding read_block IsRead
read_block-IsRead block =
    elim (Bool-cases (
      is_empty (read_lines (lines_of block) (record { data_ = []; type = txt "message" })).data_)) [
        | inl e ↦ rw e tt
        | inr e ↦ rw e tt
      ]

module _ (closes : List Emitted → Bool) where
  abbrev pub AllCanHappen : List Happened → Source → Type 0
  AllCanHappen [] s = Unit
  AllCanHappen (h ∷ rest) s = CanHappen h s.ready_state × AllCanHappen rest (happen closes h s)

  emit_read-IsSource :
      (found : Option Emitted) (r : ReadyState) (pending : Text) (em : List Emitted)
      → IsRead found
      → HasEmitted r em
      → IsSource (emit_read closes found (source r pending em))
  unfolding emit_read emit IsRead
  emit_read-IsSource none r pending em m h = h
  emit_read-IsSource (some event) ReadyState.connecting pending em m h = h
  emit_read-IsSource (some event) ReadyState.closed pending em m h = h
  emit_read-IsSource (some event) ReadyState.opened pending em m (messages, e, all) =
      let more = messages ++ event ∷ [] in
      let there : em ++ event ∷ [] ≡ open_event ∷ more = ap (λ xs. xs ++ event ∷ []) e in
      elim (Bool-cases (closes (em ++ event ∷ []))) [
        | inl c ↦ rw c (inr (inr (more, AllMessages-snoc messages event all m, inl there)))
        | inr c ↦ rw c (more, there, AllMessages-snoc messages event all m)
      ]

  emit_blocks-IsSource :
      (blocks : List Text) (s : Source) → IsSource s → IsSource (emit_blocks closes blocks s)
  unfolding emit_blocks
  emit_blocks-IsSource [] s h = h
  emit_blocks-IsSource (block ∷ blocks) s h =
      emit_blocks-IsSource blocks (emit_read closes (read_block block) s) (
        emit_read-IsSource (read_block block) s.ready_state s.pending s.emitted
          (read_block-IsRead block) h)

  take_blocks-IsSource :
      (next : List Text × Text) (s : Source) → IsSource s → IsSource (take_blocks closes next s)
  unfolding take_blocks
  take_blocks-IsSource (blocks, left) s h =
      emit_blocks-IsSource blocks (record s { pending = left }) h

  either_closed :
      (b : Bool) (em : List Emitted)
      → HasEmitted ReadyState.closed em
      → HasEmitted (if b then ReadyState.closed else ReadyState.closed) em
  either_closed true em h = h
  either_closed false em h = h

  opened-HasEmitted :
      (b : Bool) (em : List Emitted)
      → em ≡ []
      → HasEmitted (if b then ReadyState.closed else ReadyState.opened) (em ++ open_event ∷ [])
  opened-HasEmitted true em e = inr (inr ([], tt, inl (ap (λ xs. xs ++ open_event ∷ []) e)))
  opened-HasEmitted false em e = ([], ap (λ xs. xs ++ open_event ∷ []) e, tt)

  failed-HasEmitted :
      (r : ReadyState) (pending : Text) (em : List Emitted)
      → HasEmitted r em
      → IsSource (fail closes (source r pending em))
  unfolding fail emit
  failed-HasEmitted ReadyState.connecting pending em h =
      either_closed (closes (em ++ error_event ∷ [])) (em ++ error_event ∷ [])
        (inr (inl (ap (λ xs. xs ++ error_event ∷ []) h)))
  failed-HasEmitted ReadyState.opened pending em (messages, e, all) =
      either_closed (closes (em ++ error_event ∷ [])) (em ++ error_event ∷ [])
        (inr (inr (messages, all, inr (ap (λ xs. xs ++ error_event ∷ []) e))))
  failed-HasEmitted ReadyState.closed pending em h = h

  happen-HasEmitted :
      (h : Happened) (r : ReadyState) (pending : Text) (em : List Emitted)
      → CanHappen h r
      → HasEmitted r em
      → IsSource (happen closes h (source r pending em))
  unfolding happen on_answer on_chunk emit
  happen-HasEmitted (Happened.chunk text) r pending em o g =
      take_blocks-IsSource (split_blocks (pending ++ normalized text)) (source r pending em) g
  happen-HasEmitted (Happened.answered true) ReadyState.connecting pending em o g =
      opened-HasEmitted (closes (em ++ open_event ∷ [])) em g
  happen-HasEmitted (Happened.answered false) r pending em o g = failed-HasEmitted r pending em g
  happen-HasEmitted (Happened.answered true) ReadyState.opened pending em o g = absurd o
  happen-HasEmitted (Happened.answered true) ReadyState.closed pending em o g = g
  happen-HasEmitted Happened.ended r pending em o g = failed-HasEmitted r pending em g
  happen-HasEmitted Happened.close ReadyState.connecting pending em o g = inl g
  happen-HasEmitted Happened.close ReadyState.opened pending em o (messages, e, all) =
      inr (inr (messages, all, inl e))
  happen-HasEmitted Happened.close ReadyState.closed pending em o g = g

  happen_all_source :
      (events : List Happened) (s : Source)
      → AllCanHappen events s
      → IsSource s
      → IsSource (happen_all closes events s)
  unfolding happen_all
  happen_all_source [] s o g = g
  happen_all_source (h ∷ rest) s (first, others) g =
      happen_all_source rest (happen closes h s) others
        (happen-HasEmitted h s.ready_state s.pending s.emitted first g)

  abbrev Stays : Source → Source → Type 0
  Stays s t = (t.ready_state ≡ ReadyState.closed) × (t.emitted ≡ s.emitted)

  closed_blocks :
      (blocks : List Text) (pending : Text) (em : List Emitted)
      → emit_blocks closes blocks (source ReadyState.closed pending em)
        ≡ source ReadyState.closed pending em
  unfolding emit_blocks
  closed_blocks [] pending em = refl
  closed_blocks (block ∷ blocks) pending em =
      ap (emit_blocks closes blocks) (closed_read (read_block block) pending em)
      ∙ closed_blocks blocks pending em
    where
      closed_read :
          (found : Option Emitted) (pending : Text) (em : List Emitted)
          → emit_read closes found (source ReadyState.closed pending em)
            ≡ source ReadyState.closed pending em
      closed_read none pending em = refl
      closed_read (some event) pending em = refl

  closed_taken :
      (next : List Text × Text) (pending : Text) (em : List Emitted)
      → Stays
          (source ReadyState.closed pending em)
          (take_blocks closes next (source ReadyState.closed pending em))
  unfolding take_blocks
  closed_taken (blocks, left) pending em = (
    ap (λ (s : Source). s.ready_state) (closed_blocks blocks left em),
    ap (λ (s : Source). s.emitted) (closed_blocks blocks left em),
  )

  closed_source :
      (h : Happened) (pending : Text) (em : List Emitted)
      → Stays
          (source ReadyState.closed pending em)
          (happen closes h (source ReadyState.closed pending em))
  unfolding happen on_answer fail on_chunk
  closed_source (Happened.chunk text) pending em =
      closed_taken (split_blocks (pending ++ normalized text)) pending em
  closed_source (Happened.answered true) pending em = (refl, refl)
  closed_source (Happened.answered false) pending em = (refl, refl)
  closed_source Happened.ended pending em = (refl, refl)
  closed_source Happened.close pending em = (refl, refl)

  closed_stays :
      (events : List Happened) (s : Source)
      → s.ready_state ≡ ReadyState.closed
      → (happen_all closes events s).emitted ≡ s.emitted
  unfolding happen_all
  closed_stays [] s e = refl
  closed_stays (h ∷ rest) s e =
      let (closed, same) : Stays s (happen closes h s) =
        subst (λ r. Stays s (happen closes h (source r s.pending s.emitted))) (sym e)
          (closed_source h s.pending s.emitted) in
      closed_stays rest (happen closes h s) closed ∙ same

  -- In every run of a source, whose fetch is answered at most once and whose handlers may close it
  -- at any event but throw nothing: first comes the opening or the source's own error, and no other opening of its
  -- own; behind an opening come the events that the server sends, of whatever type, and at the end
  -- at most one error of the source's own, after which it is closed; once it is closed by either
  -- side, nothing more is emitted.
  pub happen_all-in_shape :
      (before : List Happened) (after : List Happened)
      → let s = happen_all closes before new_source in
        AllCanHappen before new_source
        → HasEmitted s.ready_state s.emitted
          × (s.ready_state ≡ ReadyState.closed → (happen_all closes after s).emitted ≡ s.emitted)
  happen_all-in_shape before after o = (
    happen_all_source before new_source o refl,
    closed_stays after (happen_all closes before new_source),
  )
