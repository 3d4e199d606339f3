-- ===== src/Clipboard.antt =====
-- database.js: rows of a table as tab-separated text: what the `copy` handler of the data grid
-- writes, and `parseTSV`, with which the `paste` handler reads it.
pub mod Cells
pub mod RoundTrip
mod Tests
use log_agent.Prelude.{
  ℕ, Bool, true, false, not, ◌&&◌, ◌||◌, List, [], ◌∷◌, ◌++◌, Option, none, some, Text, txt,
  text_eq, nat_eq, ◌==◌, if◌then◌else◌, is_empty, anyb,
}

-- A value of a cell: NULL, a string, or any other value by the text that `String` or
-- `JSON.stringify` makes of it.
pub data Cell : Type 0 where
  null : Cell
  string other : Text → Cell

abbrev pub quote_mark : ℕ
quote_mark = 34

abbrev pub tab : ℕ
tab = 9

abbrev pub newline : ℕ
newline = 10

abbrev pub return : ℕ
return = 13

-- `/[\t\r\n"]/`
unfoldable pub is_special : ℕ → Bool
is_special c = c == tab || (c == return || (c == newline || c == quote_mark))

-- `replaceAll('"', '""')`
unfoldable pub double_quotes : Text → Text
double_quotes [] = []
double_quotes (c ∷ s) =
    if c == quote_mark then quote_mark ∷ quote_mark ∷ double_quotes s else c ∷ double_quotes s

unfoldable pub in_quotes : Text → Text
unfolding double_quotes
in_quotes s = quote_mark ∷ (double_quotes s ++ quote_mark ∷ [])

-- `encode`
unfoldable pub encode : Cell → Text
unfolding is_special in_quotes
encode null = txt "NULL"
encode (string s) = if anyb is_special s || s == txt "NULL" then in_quotes s else s
encode (other s) = if anyb is_special s then in_quotes s else s

-- `row.map(encode).join('\t')`
unfoldable pub print_row : List Cell → Text
unfolding encode
print_row [] = []
print_row (cell ∷ []) = encode cell
print_row (cell ∷ next ∷ row) = encode cell ++ (tab ∷ print_row (next ∷ row))

unfoldable pub print_rows : List (List Cell) → Text
unfolding print_row
print_rows [] = []
print_rows (row ∷ []) = print_row row
print_rows (row ∷ next ∷ rows) = print_row row ++ (return ∷ newline ∷ print_rows (next ∷ rows))

-- The variables of `parseTSV`; `skip` says that `i++` has passed over the next character.
pub record Reader : Type 0 where
  pub rows : List (List Cell)
  pub row : List Cell
  pub value : Text
  pub quoted : Bool
  pub was_quoted : Bool
  pub skip : Bool

abbrev pub start : Reader
start = record { rows = []; row = []; value = []; quoted = false; was_quoted = false; skip = false }

abbrev pub is_char : ℕ → Option ℕ → Bool
is_char c none = false
is_char c (some d) = d == c

-- `field()`
unfoldable pub field : Reader → Reader
field r = record r {
  row = r.row ++ (if not r.was_quoted && r.value == txt "NULL" then null else string r.value) ∷ [];
  value = [];
  was_quoted = false;
}

abbrev pub end_row : Reader → Reader
end_row r = record r { rows = r.rows ++ r.row ∷ []; row = [] }

-- The body of the loop at a character, with the one behind it.
unfoldable pub read_char : Option ℕ → ℕ → Reader → Reader
unfolding field
read_char next c r =
    if r.skip
    then record r { skip = false }
    else if c == quote_mark && (r.quoted || is_empty r.value)
    then (if r.quoted && is_char quote_mark next
        then record r { value = r.value ++ quote_mark ∷ []; skip = true }
        else record r { quoted = not r.quoted; was_quoted = true })
    else if not r.quoted && (c == tab || (c == newline || c == return))
    then (if c == tab
        then field r
        else record (end_row (field r)) { skip = c == return && is_char newline next })
    else record r { value = r.value ++ c ∷ [] }

abbrev pub head : Text → Option ℕ
head [] = none
head (c ∷ s) = some c

unfoldable pub read_chars : Text → Reader → Reader
unfolding read_char
read_chars [] r = r
read_chars (c ∷ s) r = read_chars s (read_char (head s) c r)

-- What follows the loop; `none` is the error.
unfoldable pub finish : Reader → Option (List (List Cell))
unfolding field
finish r =
    if r.quoted
    then none
    else if not (is_empty r.value) || (r.was_quoted || (not (is_empty r.row) || is_empty r.rows))
    then some (end_row (field r)).rows
    else some r.rows

unfoldable pub parse_tsv : Text → Option (List (List Cell))
unfolding read_chars finish
parse_tsv source = finish (read_chars source start)
