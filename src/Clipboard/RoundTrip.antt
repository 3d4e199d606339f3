-- ===== src/Clipboard/RoundTrip.antt =====
-- What is copied is pasted: reading the text of rows gives the rows back.
use log_agent.Prelude.{
  Bool, true, false, not, ◌&&◌, ◌||◌, List, [], ◌∷◌, ◌++◌, map, some, Text, txt, text_eq, nat_eq,
  ◌==◌, ◌≡◌, refl, ap, sym, ◌∙◌, if◌then◌else◌, is_empty, arith, Bool-cases, inl, inr, append_assoc,
  append-nil, text_beq_iff, All,
}
use log_agent.Clipboard.{
  Cell, null, string, other, tab, newline, return, is_special, encode, print_row, print_rows, field,
  read_char, read_chars, finish, parse_tsv,
}
use log_agent.Clipboard.Cells.{reader, text_of, is_quoted, read-cell}

-- What a pasted cell is: a value that is no string comes back as a string, or as NULL where its
-- text is NULL.
abbrev pub pasted : Cell → Cell
pasted null = null
pasted (string s) = string s
pasted (other s) = if s == txt "NULL" then null else string s

-- The field that a written cell ends in.
field_of-cell :
    (cell : Cell)
    → (if not (is_quoted cell) && text_of cell == txt "NULL" then null else string (text_of cell))
      ≡ pasted cell
unfolding is_special
field_of-cell null = refl
field_of-cell (string s) = ground arith
field_of-cell (other s) = elim (Bool-cases (s == txt "NULL")) [
  | inl e ↦ rw ((text_beq_iff s (txt "NULL")).0 e)
  | inr e ↦ ground (arith, e)
]

not_empty_append {ℓ} : {A : Type ℓ} (row : List A) (cell : A) → is_empty (row ++ cell ∷ []) ≡ false
not_empty_append [] cell = refl
not_empty_append (c ∷ row) cell = refl

module _ (rows : List (List Cell)) (row : List Cell) where
  -- The reader behind a cell, at a tab and at the end of a line.
  read-tab :
      (cell : Cell) (rest : Text)
      → read_chars (tab ∷ rest) (reader rows row (text_of cell) false (is_quoted cell))
        ≡ read_chars rest (reader rows (row ++ pasted cell ∷ []) [] false false)
  unfolding read_chars read_char field
  read-tab cell rest = rw (field_of-cell cell)

  read-line_end :
      (cell : Cell) (rest : Text)
      → read_chars (return ∷ newline ∷ rest) (reader rows row (text_of cell) false (is_quoted cell))
        ≡ read_chars rest (reader (rows ++ (row ++ pasted cell ∷ []) ∷ []) [] [] false false)
  unfolding read_chars read_char field
  read-line_end cell rest = rw (field_of-cell cell)

  finish-cell :
      (cell : Cell)
      → (is_empty rows || not (is_empty row && is_empty (text_of cell))) ≡ true
      → finish (reader rows row (text_of cell) false (is_quoted cell))
        ≡ some (rows ++ (row ++ pasted cell ∷ []) ∷ [])
  unfolding finish field
  finish-cell cell h = rw (field_of-cell cell) (ground (arith, h))

  read-next :
      (cell : Cell) (rest : Text)
      → read_chars (encode cell ++ (tab ∷ rest)) (reader rows row [] false false)
        ≡ read_chars rest (reader rows (row ++ pasted cell ∷ []) [] false false)
  read-next cell rest = read-cell rows row cell (tab ∷ rest) refl ∙ read-tab cell rest

module _ (rows : List (List Cell)) where
  -- A row with another behind it.
  read-row :
      (row : List Cell) (cell : Cell) (cells : List Cell) (rest : Text)
      → read_chars
          (print_row (cell ∷ cells) ++ (return ∷ newline ∷ rest))
          (reader rows row [] false false)
        ≡ read_chars rest
            (reader (rows ++ (row ++ map pasted (cell ∷ cells)) ∷ []) [] [] false false)
  unfolding print_row
  read-row row cell [] rest =
      read-cell rows row cell (return ∷ newline ∷ rest) refl ∙ read-line_end rows row cell rest
  read-row row cell (next ∷ cells) rest =
      ap (λ t. read_chars t (reader rows row [] false false))
        (append_assoc (encode cell) (tab ∷ print_row (next ∷ cells)) (return ∷ newline ∷ rest))
      ∙ read-next rows row cell (print_row (next ∷ cells) ++ (return ∷ newline ∷ rest))
      ∙ read-row (row ++ pasted cell ∷ []) next cells rest
      ∙ ap (λ r. read_chars rest (reader (rows ++ r ∷ []) [] [] false false))
          (append_assoc row (pasted cell ∷ []) (map pasted (next ∷ cells)))

  -- The last row.
  read-last_row :
      (row : List Cell) (cell : Cell) (cells : List Cell)
      → (is_empty rows || not (is_empty row && (is_empty cells && is_empty (text_of cell)))) ≡ true
      → finish (read_chars (print_row (cell ∷ cells)) (reader rows row [] false false))
        ≡ some (rows ++ (row ++ map pasted (cell ∷ cells)) ∷ [])
  unfolding print_row read_chars
  read-last_row row cell [] h =
      ap (λ t. finish (read_chars t (reader rows row [] false false)))
        (sym (append-nil (encode cell)))
      ∙ ap finish (read-cell rows row cell [] refl)
      ∙ finish-cell rows row cell (ground (arith, h))
  read-last_row row cell (next ∷ cells) h =
      ap finish (read-next rows row cell (print_row (next ∷ cells)))
      ∙ read-last_row (row ++ pasted cell ∷ []) next cells
          (ground (arith, not_empty_append row (pasted cell)))
      ∙ ap (λ r. some (rows ++ r ∷ []))
          (append_assoc row (pasted cell ∷ []) (map pasted (next ∷ cells)))

-- A row that ends the text unseen: one cell, with no text.
abbrev pub is_blank : List Cell → Bool
is_blank [] = false
is_blank (cell ∷ []) = is_empty (text_of cell)
is_blank (cell ∷ next ∷ cells) = false

-- Rows that can be told apart in the text: each has a cell, and a blank row is not the last of several.
abbrev pub ArePrintable : List (List Cell) → Type 0
ArePrintable [] = Unit
ArePrintable (row ∷ []) = (is_empty row ≡ false) × (is_blank row ≡ false)
ArePrintable (row ∷ next ∷ rows) = (is_empty row ≡ false) × ArePrintable (next ∷ rows)

read-rows :
    (done : List (List Cell)) (row : List Cell) (rows : List (List Cell))
    → ArePrintable (row ∷ rows)
    → finish (read_chars (print_rows (row ∷ rows)) (reader done [] [] false false))
      ≡ some (done ++ map (map pasted) (row ∷ rows))
unfolding print_rows
read-rows done [] [] h = cc (h.0)
read-rows done (cell ∷ []) [] h = read-last_row done [] cell [] (ground (arith, h.1))
read-rows done (cell ∷ next ∷ cells) [] h = read-last_row done [] cell (next ∷ cells) (ground arith)
read-rows done [] (next ∷ rows) h = cc (h.0)
read-rows done (cell ∷ cells) (next ∷ rows) h =
    ap finish (read-row done [] cell cells (print_rows (next ∷ rows)))
    ∙ read-rows (done ++ map pasted (cell ∷ cells) ∷ []) next rows h.1
    ∙ ap some (append_assoc done (map pasted (cell ∷ cells) ∷ []) (map (map pasted) (next ∷ rows)))

-- Where each row has a cell and the last row is not one cell without text, reading the text that
-- was copied gives the rows back: NULL as NULL, strings as they were, and any other value as the
-- string of its text, or as NULL where that text is NULL.
pub parse_tsv-print_rows :
    (row : List Cell) (rows : List (List Cell))
    → ArePrintable (row ∷ rows)
    → parse_tsv (print_rows (row ∷ rows)) ≡ some (map (map pasted) (row ∷ rows))
unfolding parse_tsv
parse_tsv-print_rows row rows h = read-rows [] row rows h

encode-blank : (cell : Cell) → text_of cell ≡ [] → encode cell ≡ []
unfolding encode
encode-blank null h = cc
encode-blank (string s) h = rw h
encode-blank (other s) h = rw h

finish-lost :
    (rows : List (List Cell))
    → is_empty rows ≡ false
    → finish (reader rows [] [] false false) ≡ some rows
unfolding finish
finish-lost rows h = ground (arith, h)

read-lost :
    (cell : Cell) (done : List (List Cell)) (row : List Cell) (rows : List (List Cell))
    → encode cell ≡ []
    → All (λ r. is_empty r ≡ false) (row ∷ rows)
    → finish
        (read_chars (print_rows (row ∷ (rows ++ (cell ∷ []) ∷ []))) (reader done [] [] false false))
      ≡ some (done ++ map (map pasted) (row ∷ rows))
unfolding print_rows print_row
read-lost cell done [] rows e h = cc (h.0)
read-lost cell done (c ∷ cells) [] e h =
    ap finish (read-row done [] c cells (encode cell))
    ∙ ap
        (λ t.
          finish (read_chars t (reader (done ++ map pasted (c ∷ cells) ∷ []) [] [] false false)))
        e
    ∙ unfold read_chars in
      finish-lost (done ++ map pasted (c ∷ cells) ∷ [])
        (not_empty_append done (map pasted (c ∷ cells)))
read-lost cell done (c ∷ cells) (next ∷ rows) e h =
    ap finish (read-row done [] c cells (print_rows (next ∷ (rows ++ (cell ∷ []) ∷ []))))
    ∙ read-lost cell (done ++ map pasted (c ∷ cells) ∷ []) next rows e h.1
    ∙ ap some (append_assoc done (map pasted (c ∷ cells) ∷ []) (map (map pasted) (next ∷ rows)))

-- Where each of the rows before it has a cell, a last row of one cell without text is lost:
-- reading the text that was copied gives the rows before it.
pub parse_tsv-blank :
    (row : List Cell) (rows : List (List Cell)) (cell : Cell)
    → All (λ r. is_empty r ≡ false) (row ∷ rows)
    → text_of cell ≡ []
    → parse_tsv (print_rows ((row ∷ rows) ++ (cell ∷ []) ∷ []))
      ≡ some (map (map pasted) (row ∷ rows))
unfolding parse_tsv
parse_tsv-blank row rows cell h blank = read-lost cell [] row rows (encode-blank cell blank) h
