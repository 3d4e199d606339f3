-- ===== src/SqlText/Tests.antt =====
-- A row of awkward texts, and the theorem at it.
use log_agent.Prelude.{true, List, [], ◌∷◌, map, some, txt, Text, ◌≡◌, refl}
use log_agent.SqlText.{split_sql_list, literal_list, template_literal}
use log_agent.SqlText.Literals.{split_sql_list-literal_list}

abbrev awkward : List Text
awkward = txt "a'),(" ∷ txt "\\" ∷ []

split_run : split_sql_list true (txt "1, f(2, 'x,')") ≡ some (txt "1" ∷ txt "f(2, 'x,')" ∷ [])
unfolding split_sql_list
split_run = refl

split_sql_list-literal_list_example :
    split_sql_list true (literal_list true awkward) ≡ some (map (template_literal true) awkward)
split_sql_list-literal_list_example = split_sql_list-literal_list true (txt "a'),(") (txt "\\" ∷ [])
