-- ===== src/Clipboard/Tests.antt =====
-- Copied and pasted rows, and the theorems at them.
use log_agent.Prelude.{List, [], ◌∷◌, ◌++◌, some, txt, ◌≡◌, refl, map}
use log_agent.Clipboard.{Cell, parse_tsv, print_rows}
use log_agent.Clipboard.RoundTrip.{parse_tsv-print_rows, parse_tsv-blank, pasted}

abbrev first : List Cell
first = Cell.string (txt "a\"b") ∷ Cell.string (txt "NULL") ∷ []

abbrev second : List Cell
second = Cell.null ∷ Cell.other (txt "7") ∷ []

copied :
    parse_tsv (print_rows (first ∷ second ∷ []))
    ≡ some (first ∷ (Cell.null ∷ Cell.string (txt "7") ∷ []) ∷ [])
unfolding parse_tsv print_rows
copied = refl

parse_tsv-print_rows_example :
    parse_tsv (print_rows (first ∷ second ∷ [])) ≡ some (map (map pasted) (first ∷ second ∷ []))
parse_tsv-print_rows_example = parse_tsv-print_rows first (second ∷ []) (refl, (refl, refl))

parse_tsv-blank_example :
    parse_tsv (print_rows ((first ∷ []) ++ (Cell.string [] ∷ []) ∷ []))
    ≡ some (map (map pasted) (first ∷ []))
parse_tsv-blank_example = parse_tsv-blank first [] (Cell.string []) (refl, tt) refl
