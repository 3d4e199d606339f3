-- ===== src/SqlText.antt =====
-- scripts/database-ui/template-input.js: the values of a template: `splitSQLList` and the quoted
-- literal of `templateLiteral`. `mysql` says that the engine is MySQL.
pub mod Literals
mod Tests
use log_agent.Prelude.{
  ℕ, zero, suc, ◌+◌, ◌-◌, Bool, true, false, not, ◌&&◌, ◌||◌, List, [], ◌∷◌, ◌++◌, Option, none,
  some, Text, nat_eq, ◌==◌, if◌then◌else◌,
}
use log_agent.Prelude.Texts.{trim}

-- The variables of `splitSQLList`: `piece` is what stands behind `start`, `skip` says that `i++` has
-- passed over the next character, `failed` that an error was thrown.
pub record Splitter : Type 0 where
  pub pieces : List Text
  pub piece : Text
  pub depth : ℕ
  pub quote : Option ℕ
  pub skip : Bool
  pub failed : Bool

abbrev pub backslash : ℕ
backslash = 92

abbrev pub apostrophe : ℕ
apostrophe = 39

abbrev pub next_char : Text → Option ℕ
next_char [] = none
next_char (c ∷ s) = some c

abbrev pub is_next : ℕ → Option ℕ → Bool
is_next c none = false
is_next c (some d) = d == c

abbrev pub keep : ℕ → Splitter → Splitter
keep c s = record s { piece = s.piece ++ c ∷ [] }

-- The loop's body inside a quotation.
unfoldable pub in_quote : Bool → ℕ → Option ℕ → ℕ → Splitter → Splitter
in_quote mysql quote next c s =
    if c == backslash && mysql
    then record (keep c s) { skip = true }
    else if c == quote
    then (if is_next quote next
        then record (keep c s) { skip = true }
        else record (keep c s) { quote = none })
    else keep c s

-- The loop's body outside of quotations.
unfoldable pub out_of_quote : ℕ → Splitter → Splitter
unfolding trim
out_of_quote c s =
    if c == apostrophe || (c == 34 || c == 96)
    then record (keep c s) { quote = some c }
    else if c == 40
    then record (keep c s) { depth = s.depth + 1 }
    else if c == 41
    then (if s.depth == 0
        then record s { failed = true }
        else record (keep c s) { depth = s.depth - 1 })
    else if c == 44 && s.depth == 0
    then record s { pieces = s.pieces ++ trim s.piece ∷ []; piece = [] }
    else keep c s

unfoldable pub split_char : Bool → Option ℕ → ℕ → Splitter → Splitter
unfolding in_quote out_of_quote
split_char mysql next c s =
    if s.failed
    then s
    else if s.skip
    then record (keep c s) { skip = false }
    else (elim s.quote [ none ↦ out_of_quote c s | some quote ↦ in_quote mysql quote next c s ])

unfoldable pub split_chars : Bool → Text → Splitter → Splitter
unfolding split_char
split_chars mysql [] s = s
split_chars mysql (c ∷ rest) s = split_chars mysql rest (split_char mysql (next_char rest) c s)

abbrev pub is_open : Option ℕ → Bool
is_open none = false
is_open (some quote) = true

unfoldable pub end_split : Splitter → Option (List Text)
unfolding trim
end_split s =
    if s.failed || (is_open s.quote || not (s.depth == 0))
    then none
    else some (s.pieces ++ trim s.piece ∷ [])

abbrev pub before_split : Splitter
before_split = record {
  pieces = [];
  piece = [];
  depth = 0;
  quote = none;
  skip = false;
  failed = false;
}

-- `splitSQLList`; `none` is the error.
unfoldable pub split_sql_list : Bool → Text → Option (List Text)
unfolding split_chars end_split
split_sql_list mysql raw = end_split (split_chars mysql raw before_split)

-- `replaceAll(c, c + c)`
unfoldable pub double : ℕ → Text → Text
double q [] = []
double q (c ∷ s) = let rest = double q s in if c == q then q ∷ q ∷ rest else c ∷ rest

-- `templateLiteral` of a text whose type is neither a number's nor a Boolean's.
unfoldable pub template_literal : Bool → Text → Text
unfolding double
template_literal mysql value =
    apostrophe
    ∷ (double apostrophe (if mysql then double backslash value else value) ++ apostrophe ∷ [])

-- The list of the literals of a row: `row.map(templateLiteral).join(', ')` in database.js
unfoldable pub literal_list : Bool → List Text → Text
unfolding template_literal
literal_list mysql [] = []
literal_list mysql (value ∷ []) = template_literal mysql value
literal_list mysql (value ∷ next ∷ values) =
    template_literal mysql value ++ (44 ∷ 32 ∷ literal_list mysql (next ∷ values))
