-- ===== src/Bridge/Body.antt =====
-- What the pieces are in which a body is handed over.
use log_agent.Prelude.{
  ℕ, zero, suc, ◌+◌, ◌-◌, ◌≤◌, ◌<◌, ltb, min, true, false, List, [], ◌∷◌, ◌++◌, map, Text, ◌≡◌,
  refl, sym, ap, ◌∙◌, arith, inl, inr, length, take, drop, All, Bool-cases, take-append-drop,
  length-take, length-drop,
}
use log_agent.Prelude.Texts.{slice}
use log_agent.Bridge.{Piece, body_pieces, start_body, max_chunk}

abbrev pub concat : List Piece → Text
concat [] = []
concat (piece ∷ pieces) = piece.bytes ++ concat pieces

-- The numbers of bytes up to each piece.
abbrev pub sums : ℕ → List Piece → List ℕ
sums n [] = []
sums n (piece ∷ pieces) = (n + length piece.bytes) ∷ sums (n + length piece.bytes) pieces

abbrev pub IsPiece : ℕ → Piece → Type 0
IsPiece size piece = (1 ≤ length piece.bytes) × (length piece.bytes ≤ size)

abbrev nothing : Text
nothing = []

drop_none : (n : ℕ) → drop n nothing ≡ nothing
drop_none zero = refl
drop_none (suc n) = refl

drop-drop : (m n : ℕ) (body : Text) → drop m (drop n body) ≡ drop (n + m) body
drop-drop m zero body = let e : m ≡ 0 + m = omega arith in ap (λ k. drop k body) e
drop-drop m (suc n) [] = drop_none m ∙ sym (drop_none (suc n + m))
drop-drop m (suc n) (c ∷ body) =
    let e : suc (n + m) ≡ suc n + m = omega arith in
    drop-drop m n body ∙ ap (λ k. drop k (c ∷ body)) e

drop_past : (n : ℕ) (body : Text) → length body ≤ n → drop n body ≡ []
drop_past zero [] h = refl
drop_past (suc n) [] h = refl
drop_past zero (c ∷ body) h = absurd (omega (arith, h))
drop_past (suc n) (c ∷ body) h = drop_past n body (omega (arith, h))

-- The piece at an offset and what is behind it.
piece_rest :
    (size offset : ℕ) (body : Text)
    → slice offset (min (offset + size) (length body)) body ++ drop (offset + size) body
      ≡ drop offset body
piece_rest size offset body = elim (Bool-cases (ltb (length body) (offset + size))) [
  | inl e ↦
      rw (past e, drop_past (offset + size) body (ground (arith, e)))
        (ap (λ rest. take (length body - offset) (drop offset body) ++ rest)
            (sym (
              drop-drop (length body - offset) offset body
              ∙ drop_past (offset + (length body - offset)) body (omega arith)))
          ∙ take-append-drop (length body - offset) (drop offset body))
  | inr e ↦ rw (whole e) (
      ap (λ rest. take size (drop offset body) ++ rest) (sym (drop-drop size offset body))
      ∙ take-append-drop size (drop offset body))
]
  where
    past :
        ltb (length body) (offset + size) ≡ true → min (offset + size) (length body) ≡ length body
    past e = ground (arith, e)

    whole :
        ltb (length body) (offset + size) ≡ false
        → min (offset + size) (length body) - offset ≡ size
    whole e = ground (arith, e)

length-piece :
    (size offset : ℕ) (body : Text)
    → offset ≤ length body
    → length (slice offset (min (offset + size) (length body)) body)
      ≡ min (offset + size) (length body) - offset
length-piece size offset body there = ground (
  arith,
  length-take (min (offset + size) (length body) - offset) (drop offset body),
  length-drop offset body,
)

pieces_past :
    (size fuel offset : ℕ) (body : Text)
    → length body ≤ offset
    → body_pieces size fuel offset body ≡ []
unfolding body_pieces
pieces_past size zero offset body h = refl
pieces_past size (suc fuel) offset body h =
    let e : ltb offset (length body) ≡ false = ground (arith, h) in rw e refl

sums-end :
    (size fuel offset : ℕ) (body : Text)
    → sums (offset + size) (body_pieces size fuel (offset + size) body)
      ≡ sums (min (offset + size) (length body)) (body_pieces size fuel (offset + size) body)
sums-end size fuel offset body = elim (Bool-cases (ltb (length body) (offset + size))) [
  | inl e ↦ rw (pieces_past size fuel (offset + size) body (ground (arith, e))) refl
  | inr e ↦
      let same : offset + size ≡ min (offset + size) (length body) = ground (arith, e) in
      ap (λ n. sums n (body_pieces size fuel (offset + size) body)) same
]

-- The pieces from an offset on: the body's rest, in pieces that are not empty and have at most
-- `size` bytes, with the numbers of bytes so far.
pub record ArePieces (size offset : ℕ) (body : Text) (pieces : List Piece) : Type 0 where
  pub whole : concat pieces ≡ drop offset body
  pub small : All (IsPiece size) pieces
  pub progress : map (λ (piece : Piece). piece.loaded) pieces ≡ sums offset pieces

pieces_from :
    (size fuel offset : ℕ) (body : Text)
    → 1 ≤ size
    → length body ≤ offset + fuel
    → ArePieces size offset body (body_pieces size fuel offset body)
unfolding body_pieces
pieces_from size zero offset body h enough = record {
  whole = sym (drop_past offset body (omega (arith, enough)));
  small = tt;
  progress = refl;
}
pieces_from size (suc fuel) offset body h enough = elim (Bool-cases (ltb offset (length body))) [
  | inr e ↦ rw e (record {
    whole = sym (drop_past offset body (ground (arith, e)));
    small = tt;
    progress = refl;
  })
  | inl e ↦
      let there : offset < length body = ground (arith, e) in
      let long = length-piece size offset body (omega (arith, there)) in
      let sum : offset + length (slice offset (min (offset + size) (length body)) body)
          ≡ min (offset + size) (length body) =
        ground (arith, long, there) in
      let rest = pieces_from size fuel (offset + size) body h (omega (arith, enough, h)) in
      rw e (record {
        whole =
            ap (λ xs. slice offset (min (offset + size) (length body)) body ++ xs) rest.whole
            ∙ piece_rest size offset body;
        small = ((ground (arith, long, there, h), ground (arith, long, there)), rest.small);
        progress = rw sum (
            ap (λ ns. min (offset + size) (length body) ∷ ns)
              (rest.progress ∙ sums-end size fuel offset body));
      })
]

-- The pieces in which a body is handed over make up the body, none of them is empty or larger than
-- 512 KiB, and the progress that is reported with each is the number of bytes handed over so far.
pub start_body_whole : (body : Text) → ArePieces max_chunk 0 body (start_body body)
unfolding start_body
start_body_whole body = pieces_from max_chunk (length body) 0 body (omega arith) (omega arith)
