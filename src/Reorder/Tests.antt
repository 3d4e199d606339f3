-- ===== src/Reorder/Tests.antt =====
-- Moves, and the theorems at them.
use log_agent.Prelude.{true, List, [], ◌∷◌, Option, none, some, txt, Text, ◌≡◌, refl}
use log_agent.Reorder.{move_connection_item}
use log_agent.Reorder.Laws.{move_connection_item-IsMoved, IsMoved}
use log_agent.Reorder.Rules.{persist_rule_order, persist_rule_order_lem, IsOrder, default_rules}

abbrev letters : List Text
letters = txt "ab" ∷ txt "b" ∷ txt "a" ∷ []

abbrev own_id : Text → Text
own_id x = x

move_run :
    move_connection_item own_id letters (txt "ab") (txt "a") true
    ≡ some (txt "b" ∷ txt "a" ∷ txt "ab" ∷ [])
unfolding move_connection_item
move_run = refl

move_connection_item-IsMoved_example :
    (r : List Text) × (move_connection_item own_id letters (txt "ab") (txt "a") true ≡ some r)
    × IsMoved own_id letters (txt "ab") (txt "a") true r
move_connection_item-IsMoved_example =
    move_connection_item-IsMoved own_id letters (txt "ab") (txt "a") true (λ h. cc) refl refl

abbrev asked : List Text
asked = txt "noise" ∷ txt "mask" ∷ txt "structure" ∷ []

abbrev failed : Option (Option (List Text))
failed = none

persist_rule_order_lem_example :
    (shown : List Text) × (final : List Text) × (persist_rule_order
        (some asked)
        (some default_rules)
        failed
      ≡ (shown, final))
    × IsOrder shown
    × IsOrder final
    × (IsOrder asked → shown ≡ asked)
    × (failed ≡ none → final ≡ default_rules)
persist_rule_order_lem_example =
    persist_rule_order_lem asked default_rules failed
      (record { three = refl; mask = refl; structure = refl; noise = refl })
