-- ===== src/SqlText/Literals.antt =====
-- scripts/database-ui/template-input.js: a literal stays one piece, whatever its text is.
use log_agent.Prelude.{
  ℕ, Bool, true, false, ◌&&◌, List, [], ◌∷◌, ◌++◌, none, some, Text, nat_eq, ◌==◌, if◌then◌else◌,
  ◌≡◌, refl, ap, ◌∙◌, arith, Bool-cases, inl, inr, append_assoc, append-nil, map, sym,
}
use log_agent.Prelude.Texts.{trim_start, trim_end, trim}
use log_agent.Prelude.Texts.{is_space}
use log_agent.SqlText.{
  literal_list, Splitter, backslash, apostrophe, next_char, is_next, split_chars, double,
  template_literal, end_split, split_sql_list,
}

abbrev quoting : List Text → Text → Splitter
quoting pieces piece = record {
  pieces = pieces;
  piece = piece;
  depth = 0;
  quote = some apostrophe;
  skip = false;
  failed = false;
}

abbrev between : List Text → Text → Splitter
between pieces piece = record {
  pieces = pieces;
  piece = piece;
  depth = 0;
  quote = none;
  skip = false;
  failed = false;
}

abbrev escaped : Bool → Text → Text
escaped mysql value = double apostrophe (if mysql then double backslash value else value)

-- One more character, or two, in front of what is read next.
module _ (mysql : Bool) (pieces : List Text) (from : Text) where
  read-plain :
      (c : ℕ) (piece : Text)
      → (c == apostrophe) ≡ false
      → (c == backslash && mysql) ≡ false
      → split_chars mysql (c ∷ from) (quoting pieces piece)
        ≡ split_chars mysql from (quoting pieces (piece ++ c ∷ []))
  unfolding split_chars
  read-plain c piece e b = rw (b, e) refl

  read-apostrophes :
      (piece : Text)
      → split_chars mysql (apostrophe ∷ apostrophe ∷ from) (quoting pieces piece)
        ≡ split_chars mysql from (quoting pieces ((piece ++ apostrophe ∷ []) ++ apostrophe ∷ []))
  unfolding split_chars
  read-apostrophes piece = refl

  read-end :
      (piece : Text)
      → is_next apostrophe (next_char from) ≡ false
      → split_chars mysql (apostrophe ∷ from) (quoting pieces piece)
        ≡ split_chars mysql from (between pieces (piece ++ apostrophe ∷ []))
  unfolding split_chars
  read-end piece ends = rw ends refl

read-backslashes :
    (pieces : List Text) (from piece : Text)
    → split_chars true (backslash ∷ backslash ∷ from) (quoting pieces piece)
      ≡ split_chars true from (quoting pieces ((piece ++ backslash ∷ []) ++ backslash ∷ []))
unfolding split_chars
read-backslashes pieces from piece = refl

module _ (pieces : List Text) (rest : Text)
    (ends : is_next apostrophe (next_char rest) ≡ false) where
  one_more :
      (mysql : Bool) (piece : Text) (c : ℕ) (s : Text)
      → split_chars mysql rest (between pieces ((piece ++ c ∷ []) ++ s))
        ≡ split_chars mysql rest (between pieces (piece ++ c ∷ s))
  one_more mysql piece c s =
      ap (λ p. split_chars mysql rest (between pieces p)) (append_assoc piece (c ∷ []) s)

  two_more :
      (mysql : Bool) (piece : Text) (c : ℕ) (s : Text)
      → split_chars mysql rest (between pieces (((piece ++ c ∷ []) ++ c ∷ []) ++ s))
        ≡ split_chars mysql rest (between pieces (piece ++ c ∷ c ∷ s))
  two_more mysql piece c s = one_more mysql (piece ++ c ∷ []) c s ∙ one_more mysql piece c (c ∷ s)

  read-escaped :
      (mysql : Bool) (value piece : Text)
      → split_chars mysql (escaped mysql value ++ (apostrophe ∷ rest)) (quoting pieces piece)
        ≡ split_chars mysql rest
            (between pieces (piece ++ (escaped mysql value ++ apostrophe ∷ [])))
  unfolding double
  read-escaped false [] piece = read-end false pieces rest piece ends
  read-escaped true [] piece = read-end true pieces rest piece ends
  read-escaped false (c ∷ value) piece =
      let more = escaped false value ++ (apostrophe ∷ rest) in
      elim (Bool-cases (c == apostrophe)) [
        | inl e ↦ rw e (
            read-apostrophes false pieces more piece
            ∙ read-escaped false value ((piece ++ apostrophe ∷ []) ++ apostrophe ∷ [])
            ∙ two_more false piece apostrophe (escaped false value ++ apostrophe ∷ []))
        | inr e ↦ rw e (
            read-plain false pieces more c piece e (ground arith)
            ∙ read-escaped false value (piece ++ c ∷ [])
            ∙ one_more false piece c (escaped false value ++ apostrophe ∷ []))
      ]
  read-escaped true (c ∷ value) piece =
      let more = escaped true value ++ (apostrophe ∷ rest) in
      elim (Bool-cases (c == backslash)) [
        | inl b ↦ rw b (
            read-backslashes pieces more piece
            ∙ read-escaped true value ((piece ++ backslash ∷ []) ++ backslash ∷ [])
            ∙ two_more true piece backslash (escaped true value ++ apostrophe ∷ []))
        | inr b ↦ elim (Bool-cases (c == apostrophe)) [
          | inl e ↦
              rw (b, e)
                (read-apostrophes true pieces more piece
                  ∙ read-escaped true value ((piece ++ apostrophe ∷ []) ++ apostrophe ∷ [])
                  ∙ two_more true piece apostrophe (escaped true value ++ apostrophe ∷ []))
          | inr e ↦
              rw (b, e)
                (read-plain true pieces more c piece e (ground (arith, b))
                  ∙ read-escaped true value (piece ++ c ∷ [])
                  ∙ one_more true piece c (escaped true value ++ apostrophe ∷ []))
        ]
      ]

trim_end-closed : (s : Text) → trim_end (s ++ apostrophe ∷ []) ≡ s ++ apostrophe ∷ []
unfolding trim_end is_space
trim_end-closed [] = refl
trim_end-closed (c ∷ []) = ground arith
trim_end-closed (c ∷ d ∷ s) = ground (arith, trim_end-closed (d ∷ s))

-- What can stand before a literal: nothing, or the space behind a comma.
abbrev pub gap : Bool → Text
gap false = []
gap true = 32 ∷ []

trim-literal :
    (mysql spaced : Bool) (value : Text)
    → trim (gap spaced ++ template_literal mysql value) ≡ template_literal mysql value
unfolding trim trim_start is_space template_literal
trim-literal mysql false value = trim_end-closed (apostrophe ∷ escaped mysql value)
trim-literal mysql true value = trim_end-closed (apostrophe ∷ escaped mysql value)

module _ (mysql : Bool) where
  read-literal :
      (pieces : List Text) (spaced : Bool) (value rest : Text)
      → is_next apostrophe (next_char rest) ≡ false
      → split_chars mysql (template_literal mysql value ++ rest) (between pieces (gap spaced))
        ≡ split_chars mysql rest (between pieces (gap spaced ++ template_literal mysql value))
  unfolding split_chars template_literal
  read-literal pieces spaced value rest ends =
      ap (λ s. split_chars mysql s (quoting pieces (gap spaced ++ apostrophe ∷ [])))
        (append_assoc (escaped mysql value) (apostrophe ∷ []) rest)
      ∙ read-escaped pieces rest ends mysql value (gap spaced ++ apostrophe ∷ [])
      ∙ ap (λ p. split_chars mysql rest (between pieces p))
          (append_assoc (gap spaced) (apostrophe ∷ []) (escaped mysql value ++ apostrophe ∷ []))

  read-comma :
      (pieces : List Text) (piece rest : Text)
      → split_chars mysql (44 ∷ 32 ∷ rest) (between pieces piece)
        ≡ split_chars mysql rest (between (pieces ++ trim piece ∷ []) (gap true))
  unfolding split_chars
  read-comma pieces piece rest = refl

  read-end_of_list :
      (pieces : List Text) (piece : Text)
      → end_split (split_chars mysql [] (between pieces piece)) ≡ some (pieces ++ trim piece ∷ [])
  unfolding split_chars end_split
  read-end_of_list pieces piece = refl

  read-list :
      (pieces : List Text) (spaced : Bool) (value : Text) (values : List Text)
      → end_split
          (split_chars mysql (literal_list mysql (value ∷ values)) (between pieces (gap spaced)))
        ≡ some (pieces ++ map (template_literal mysql) (value ∷ values))
  unfolding literal_list
  read-list pieces spaced value [] =
      ap (λ s. end_split (split_chars mysql s (between pieces (gap spaced))))
        (sym (append-nil (template_literal mysql value)))
      ∙ ap end_split (read-literal pieces spaced value [] refl)
      ∙ read-end_of_list pieces (gap spaced ++ template_literal mysql value)
      ∙ ap (λ p. some (pieces ++ p ∷ [])) (trim-literal mysql spaced value)
  read-list pieces spaced value (next ∷ values) =
      let rest = literal_list mysql (next ∷ values) in
      ap end_split (
        read-literal pieces spaced value (44 ∷ 32 ∷ rest) refl
        ∙ read-comma pieces (gap spaced ++ template_literal mysql value) rest)
      ∙ read-list (pieces ++ trim (gap spaced ++ template_literal mysql value) ∷ []) true next
          values
      ∙ ap some (
          append_assoc pieces (trim (gap spaced ++ template_literal mysql value) ∷ [])
            (map (template_literal mysql) (next ∷ values)))
      ∙ ap (λ p. some (pieces ++ p ∷ map (template_literal mysql) (next ∷ values)))
          (trim-literal mysql spaced value)

-- Whatever the texts of a row are, commas, quotation marks, parentheses and backslashes included:
-- the list of their literals is split into these literals.
pub split_sql_list-literal_list :
    (mysql : Bool) (value : Text) (values : List Text)
    → split_sql_list mysql (literal_list mysql (value ∷ values))
      ≡ some (map (template_literal mysql) (value ∷ values))
unfolding split_sql_list
split_sql_list-literal_list mysql value values = read-list mysql [] false value values
