-- ===== src/Clipboard/Cells.antt =====
-- Reading back one cell.
use log_agent.Prelude.{
  ℕ, Bool, true, false, ◌||◌, List, [], ◌∷◌, ◌++◌, Option, Text, txt, text_eq, nat_eq, ◌==◌, ◌≡◌,
  refl, ap, sym, ◌∙◌, anyb, arith, Bool-cases, inl, inr, append_assoc, append-nil, nat_beq_iff,
}
use log_agent.Clipboard.{
  Cell, null, string, other, quote_mark, is_special, double_quotes, in_quotes, encode, Reader,
  is_char, read_char, head, read_chars,
}

-- The reader inside a cell.
abbrev pub reader : List (List Cell) → List Cell → Text → Bool → Bool → Reader
reader rows row value quoted was_quoted = record {
  rows = rows;
  row = row;
  value = value;
  quoted = quoted;
  was_quoted = was_quoted;
  skip = false;
}

-- The text of a cell, and whether it is written in quotes.
abbrev pub text_of : Cell → Text
text_of null = txt "NULL"
text_of (string s) = s
text_of (other s) = s

abbrev pub is_quoted : Cell → Bool
is_quoted null = false
is_quoted (string s) = anyb is_special s || s == txt "NULL"
is_quoted (other s) = anyb is_special s

module _ (rows : List (List Cell)) (row : List Cell) where
  read-plain_char :
      (next : Option ℕ) (c : ℕ) (value : Text)
      → is_special c ≡ false
      → read_char next c (reader rows row value false false)
        ≡ reader rows row (value ++ c ∷ []) false false
  unfolding read_char is_special
  read-plain_char next c value h = ground arith

  -- Text without special characters is read as it is.
  read-plain :
      (s rest value : Text)
      → anyb is_special s ≡ false
      → read_chars (s ++ rest) (reader rows row value false false)
        ≡ read_chars rest (reader rows row (value ++ s) false false)
  unfolding read_chars
  read-plain [] rest value h = rw append-nil
  read-plain (c ∷ s) rest value h =
      ap (read_chars (s ++ rest)) (read-plain_char (head (s ++ rest)) c value (ground arith))
      ∙ read-plain s rest (value ++ c ∷ []) (ground arith)
      ∙ ap (λ v. read_chars rest (reader rows row v false false)) (append_assoc value (c ∷ []) s)

  read-quoted_char :
      (next : Option ℕ) (c : ℕ) (value : Text)
      → (c == quote_mark) ≡ false
      → read_char next c (reader rows row value true true)
        ≡ reader rows row (value ++ c ∷ []) true true
  unfolding read_char
  read-quoted_char next c value h = ground arith

  -- Inside quotes, up to the closing one, which no quotation mark follows.
  read-doubled :
      (s rest value : Text)
      → is_char quote_mark (head rest) ≡ false
      → read_chars (double_quotes s ++ quote_mark ∷ rest) (reader rows row value true true)
        ≡ read_chars rest (reader rows row (value ++ s) false true)
  unfolding read_chars double_quotes
  read-doubled [] rest value h = rw (h, append-nil)
  read-doubled (c ∷ s) rest value h = elim (Bool-cases (c == quote_mark)) [
    | inl same ↦ rw same (
        read-doubled s rest (value ++ quote_mark ∷ []) h
        ∙ ap (λ v. read_chars rest (reader rows row v false true))
            (append_assoc value (quote_mark ∷ []) s
              ∙ ap (λ d. value ++ d ∷ s) (sym ((nat_beq_iff c quote_mark).0 same))))
    | inr other_char ↦ rw other_char (
        ap (read_chars (double_quotes s ++ quote_mark ∷ rest))
          (read-quoted_char (head (double_quotes s ++ quote_mark ∷ rest)) c value other_char)
        ∙ read-doubled s rest (value ++ c ∷ []) h
        ∙ ap (λ v. read_chars rest (reader rows row v false true)) (append_assoc value (c ∷ []) s))
  ]

  read-in_quotes :
      (s rest : Text)
      → is_char quote_mark (head rest) ≡ false
      → read_chars (in_quotes s ++ rest) (reader rows row [] false false)
        ≡ read_chars rest (reader rows row s false true)
  unfolding read_chars in_quotes
  read-in_quotes s rest h =
      rw (append_assoc (double_quotes s) (quote_mark ∷ []) rest) (read-doubled s rest [] h)

  -- A written cell is read up to what follows it.
  pub read-cell :
      (cell : Cell) (rest : Text)
      → is_char quote_mark (head rest) ≡ false
      → read_chars (encode cell ++ rest) (reader rows row [] false false)
        ≡ read_chars rest (reader rows row (text_of cell) false (is_quoted cell))
  unfolding encode
  read-cell null rest h = unfold is_special in read-plain (txt "NULL") rest [] refl
  read-cell (string s) rest h = elim (Bool-cases (anyb is_special s || s == txt "NULL")) [
    | inl e ↦ rw e (read-in_quotes s rest h)
    | inr e ↦ rw e (read-plain s rest [] (ground (arith, e)))
  ]
  read-cell (other s) rest h = elim (Bool-cases (anyb is_special s)) [
    | inl e ↦ rw e (read-in_quotes s rest h)
    | inr e ↦ rw e (read-plain s rest [] e)
  ]
