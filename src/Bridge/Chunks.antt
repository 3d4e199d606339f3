-- ===== src/Bridge/Chunks.antt =====
-- That the chunks in which a stream of events arrives do not matter.
use mathlib.Core.Path.{subst}
use log_agent.Prelude.{
  none, some, Option, ℕ, Bool, false, ◌&&◌, List, [], ◌∷◌, ◌++◌, append_assoc, Text, nat_eq, ◌==◌,
  ◌≡◌, refl, sym, ap, ◌∙◌, Bool-cases, inl, inr,
}
use log_agent.Bridge.EventSource.{
  normalized, split_blocks, in_front, empty_block, read_block, take_blocks, emit_blocks, emit_read,
  emit, Source, on_chunk, is_opened, Emitted,
}

-- What is left when the text goes on, behind the blocks that are there.
abbrev pub followed : List Text → List Text × Text → List Text × Text
followed blocks (more, pending) = (blocks ++ more, pending)

in_front-followed :
    (c : ℕ) (block : Text) (blocks : List Text) (more : List Text × Text)
    → in_front c (followed (block ∷ blocks) more) ≡ followed ((c ∷ block) ∷ blocks) more
in_front-followed c block blocks (more, pending) = refl

empty_block-followed :
    (blocks : List Text) (more : List Text × Text)
    → empty_block (followed blocks more) ≡ followed ([] ∷ blocks) more
empty_block-followed blocks (more, pending) = refl

followed-nil : (more : List Text × Text) → more ≡ followed [] more
followed-nil (more, pending) = refl

in_front-none :
    (c : ℕ) (p : List Text × Text) (text : Text)
    → (p.0 ≡ [] → p.1 ≡ text)
    → (in_front c p).0 ≡ []
    → (in_front c p).1 ≡ c ∷ text
in_front-none c ([], pending) text h e = ap (λ xs. c ∷ xs) (h refl)
in_front-none c (block ∷ blocks, pending) text h e = cc

empty_block-none :
    (p : List Text × Text) (text : Text) → (empty_block p).0 ≡ [] → (empty_block p).1 ≡ text
empty_block-none (blocks, pending) text e = cc

-- Without a block, everything is left.
split_blocks-none : (text : Text) → (split_blocks text).0 ≡ [] → (split_blocks text).1 ≡ text
unfolding split_blocks
split_blocks-none [] = λ h. refl
split_blocks-none (c ∷ []) = λ h. refl
split_blocks-none (c ∷ d ∷ text) = elim (Bool-cases (c == 10 && d == 10)) [
  | inl e ↦ rw e (empty_block-none (split_blocks text) (c ∷ d ∷ text))
  | inr e ↦
      rw e (in_front-none c (split_blocks (d ∷ text)) (d ∷ text) (split_blocks-none (d ∷ text)))
]

in_front-append :
    (c : ℕ) (p : List Text × Text) (text y : Text)
    → (p.0 ≡ [] → p.1 ≡ text)
    → split_blocks (c ∷ (text ++ y)) ≡ in_front c (split_blocks (text ++ y))
    → split_blocks (text ++ y) ≡ followed p.0 (split_blocks (p.1 ++ y))
    → split_blocks (c ∷ (text ++ y))
      ≡ followed (in_front c p).0 (split_blocks ((in_front c p).1 ++ y))
in_front-append c ([], pending) text y rest step same =
    ap (λ xs. split_blocks (c ∷ (xs ++ y))) (sym (rest refl))
    ∙ followed-nil (split_blocks (c ∷ (pending ++ y)))
in_front-append c (block ∷ blocks, pending) text y rest step same =
    step ∙ ap (in_front c) same ∙ in_front-followed c block blocks (split_blocks (pending ++ y))

split_blocks-append :
    (x y : Text)
    → split_blocks (x ++ y) ≡ followed (split_blocks x).0 (split_blocks ((split_blocks x).1 ++ y))
unfolding split_blocks
split_blocks-append [] y = followed-nil (split_blocks y)
split_blocks-append (c ∷ []) y = followed-nil (split_blocks (c ∷ y))
split_blocks-append (c ∷ d ∷ text) y = elim (Bool-cases (c == 10 && d == 10)) [
  | inl e ↦ rw e (
      ap empty_block (split_blocks-append text y)
      ∙ empty_block-followed (split_blocks text).0 (split_blocks ((split_blocks text).1 ++ y)))
  | inr e ↦
      let step : split_blocks (c ∷ d ∷ (text ++ y)) ≡ in_front c (split_blocks (d ∷ (text ++ y))) =
        rw e refl in
      let first : split_blocks (c ∷ d ∷ text) ≡ in_front c (split_blocks (d ∷ text)) = rw e refl in
      subst (λ p. split_blocks (c ∷ d ∷ (text ++ y)) ≡ followed p.0 (split_blocks (p.1 ++ y)))
        (sym first)
        (in_front-append c (split_blocks (d ∷ text)) (d ∷ text) y (split_blocks-none (d ∷ text))
          step (split_blocks-append (d ∷ text) y))
]

abbrev pub ends_in_return : Text → Bool
ends_in_return [] = false
ends_in_return (c ∷ []) = c == 13
ends_in_return (c ∷ d ∷ text) = ends_in_return (d ∷ text)

ends_in_return-followed :
    (d : ℕ) (text : Text) → ends_in_return (d ∷ text) ≡ false → ends_in_return text ≡ false
ends_in_return-followed d [] h = refl
ends_in_return-followed d (c ∷ text) h = h

normalized-append :
    (x y : Text) → ends_in_return x ≡ false → normalized (x ++ y) ≡ normalized x ++ normalized y
unfolding normalized
normalized-append [] y h = refl
normalized-append (c ∷ []) [] h = rw h refl
normalized-append (c ∷ []) (d ∷ y) h = rw h refl
normalized-append (c ∷ d ∷ text) y h = elim (Bool-cases (c == 13)) [
  | inr e ↦ rw e (ap (λ xs. c ∷ xs) (normalized-append (d ∷ text) y h))
  | inl e ↦ elim (Bool-cases (d == 10)) [
    | inl f ↦
        rw (e, f) (ap (λ xs. 10 ∷ xs) (normalized-append text y (ends_in_return-followed d text h)))
    | inr f ↦ rw (e, f) (ap (λ xs. 10 ∷ xs) (normalized-append (d ∷ text) y h))
  ]
]

module _ (closes : List Emitted → Bool) where
  emit_blocks-append :
      (xs ys : List Text) (s : Source)
      → emit_blocks closes (xs ++ ys) s ≡ emit_blocks closes ys (emit_blocks closes xs s)
  unfolding emit_blocks
  emit_blocks-append [] ys s = refl
  emit_blocks-append (x ∷ xs) ys s = emit_blocks-append xs ys (emit_read closes (read_block x) s)

  emit_read-pending :
      (found : Option Emitted) (pending : Text) (s : Source)
      → emit_read closes found (record s { pending = pending })
        ≡ record (emit_read closes found s) { pending = pending }
  unfolding emit_read emit
  emit_read-pending none pending s = refl
  emit_read-pending (some event) pending s = elim (Bool-cases (is_opened s.ready_state)) [
    | inl e ↦ rw e refl
    | inr e ↦ rw e refl
  ]

  -- What is left of the text does not matter for what is emitted.
  emit_blocks-pending :
      (blocks : List Text) (pending : Text) (s : Source)
      → emit_blocks closes blocks (record s { pending = pending })
        ≡ record (emit_blocks closes blocks s) { pending = pending }
  unfolding emit_blocks
  emit_blocks-pending [] pending s = refl
  emit_blocks-pending (block ∷ blocks) pending s =
      ap (emit_blocks closes blocks) (emit_read-pending (read_block block) pending s)
      ∙ emit_blocks-pending blocks pending (emit_read closes (read_block block) s)

  take_blocks-take_blocks :
      (blocks : List Text) (pending : Text) (more : List Text × Text) (s : Source)
      → take_blocks closes more (take_blocks closes (blocks, pending) s)
        ≡ take_blocks closes (followed blocks more) s
  unfolding take_blocks
  take_blocks-take_blocks blocks pending (next, left) s =
      ap (emit_blocks closes next)
        (sym (emit_blocks-pending blocks left (record s { pending = pending })))
      ∙ sym (emit_blocks-append blocks next (record s { pending = left }))

  take_blocks-on_chunk :
      (p : List Text × Text) (y : Text) (s : Source)
      → on_chunk closes y (take_blocks closes p s)
        ≡ take_blocks closes (followed p.0 (split_blocks (p.1 ++ normalized y))) s
  unfolding on_chunk take_blocks
  take_blocks-on_chunk (blocks, pending) y s =
      let t = take_blocks closes (blocks, pending) s in
      ap (λ (u : Source). take_blocks closes (split_blocks (u.pending ++ normalized y)) t)
        (emit_blocks-pending blocks pending s)
      ∙ take_blocks-take_blocks blocks pending (split_blocks (pending ++ normalized y)) s

  -- Two chunks of which the first one does not end in a carriage return do to the source what they
  -- do when they arrive as one: the same events are emitted, in the same order, and the same text
  -- is left, whether the source is open, not yet open or closed, and whatever events the handlers
  -- close it at.
  pub on_chunk-append :
      (x y : Text) (s : Source)
      → ends_in_return x ≡ false
      → on_chunk closes y (on_chunk closes x s) ≡ on_chunk closes (x ++ y) s
  unfolding on_chunk
  on_chunk-append x y s h =
      take_blocks-on_chunk (split_blocks (s.pending ++ normalized x)) y s
      ∙ ap (λ p. take_blocks closes p s)
          (sym (split_blocks-append (s.pending ++ normalized x) (normalized y))
            ∙ ap split_blocks (
                append_assoc s.pending (normalized x) (normalized y)
                ∙ ap (λ xs. s.pending ++ xs) (sym (normalized-append x y h))))
