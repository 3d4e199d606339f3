-- ===== src/Reorder.antt =====
-- Dragging an item of a list before or behind another: `moveConnectionItem`
-- of app.js, and the order of the processing rules. `none` is the answer `false`.
pub mod Laws
pub mod Rules
mod Tests
use log_agent.Prelude.{
  ℕ, zero, suc, ◌+◌, Bool, true, false, not, ◌&&◌, ◌||◌, List, [], ◌∷◌, ◌++◌, map, Option, none,
  some, Text, text_eq, nat_eq, ◌==◌, if◌then◌else◌, find_index, anyb, allb, length,
}

module _ {ℓ} {A : Type ℓ} where
  -- `splice(i, 0, y)`; an index past the end inserts at the end.
  unfoldable pub insert_idx : List A → ℕ → A → List A
  insert_idx xs zero y = y ∷ xs
  insert_idx [] (suc i) y = y ∷ []
  insert_idx (x ∷ xs) (suc i) y = x ∷ insert_idx xs i y

  unfoldable pub place : (A → Text) → List A → A → Text → Bool → Option (List A)
  unfolding insert_idx
  place id_of rest item to after = elim (find_index (λ x. id_of x == to) rest) [
    | none ↦ none
    | some i ↦ some (insert_idx rest (i + (if after then 1 else 0)) item)
  ]

  -- The item at an index that `findIndex` gave, and the list without it.
  unfoldable pub pull : List A → ℕ → Option (A × List A)
  pull [] i = none
  pull (x ∷ xs) zero = some (x, xs)
  pull (x ∷ xs) (suc i) = elim (pull xs i) [ none ↦ none | some (y, ys) ↦ some (y, x ∷ ys) ]

  unfoldable pub move_connection_item : (A → Text) → List A → Text → Text → Bool → Option (List A)
  unfolding pull place
  move_connection_item id_of items from to after =
      if from == to || not (anyb (λ x. id_of x == to) items)
      then none
      else (elim (find_index (λ x. id_of x == from) items) [
        | none ↦ none
        | some source ↦ elim (pull items source) [
          | none ↦ none
          | some (item, rest) ↦ place id_of rest item to after
        ]
      ])
