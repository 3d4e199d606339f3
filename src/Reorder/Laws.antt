-- ===== src/Reorder/Laws.antt =====
-- A move keeps the items and puts the dragged one next to the other.
use mathlib.Core.List.{Perm, perm_middle}
use mathlib.Core.List.Perm
use mathlib.Core.Path.{subst₂}
use log_agent.Prelude.Members.{beq-ne, beq_refl}
use log_agent.Prelude.{
  ℕ, Bool, true, false, List, [], ◌∷◌, ◌++◌, none, some, text_eq, ◌≡◌, refl, ap, find_index, anyb,
  length, arith, Bool-cases, Option-cases, inl, inr, Text, ◌||◌, ◌+◌, ◌≢◌, ◌⊎◌, ◌==◌, text_beq_iff,
  if◌then◌else◌, length-append, sym, ◌∙◌, append_assoc,
}
use log_agent.Reorder.{insert_idx, pull, place, move_connection_item}

module _ {ℓ} {A : Type ℓ} (p : A → Bool) where
  -- A list around the first element that passes a test.
  pub record IsFirst (xs : List A) (i : ℕ) : Type ℓ where
    pub before : List A
    pub item : A
    pub behind : List A
    pub whole : xs ≡ before ++ item ∷ behind
    pub at : i ≡ length before
    pub passes : p item ≡ true

  find_index-IsFirst : (xs : List A) (i : ℕ) → find_index p xs ≡ some i → IsFirst xs i
  find_index-IsFirst [] i h = cc
  find_index-IsFirst (x ∷ xs) i h = elim (Bool-cases (p x)) [
    | inl here ↦ record {
      before = [];
      item = x;
      behind = xs;
      whole = refl;
      at = ground (arith, here);
      passes = here;
    }
    | inr there ↦ elim (Option-cases (find_index p xs)) [
      | inl e ↦ absurd (ground (arith, there, e))
      | inr (j, e) ↦
          let f = find_index-IsFirst xs j e in
          record {
            before = x ∷ f.before;
            item = f.item;
            behind = f.behind;
            whole = ap (x ∷◌) f.whole;
            at = ground (arith, there, e, f.at);
            passes = f.passes;
          }
    ]
  ]

  find_index-some : (xs : List A) → anyb p xs ≡ false → find_index p xs ≡ none
  find_index-some [] h = refl
  find_index-some (x ∷ xs) h = ground (arith, find_index-some xs)

  find_index-none : (xs : List A) → find_index p xs ≡ none → anyb p xs ≡ false
  find_index-none [] h = refl
  find_index-none (x ∷ xs) h = ground (arith, find_index-none xs)

module _ {ℓ} {A : Type ℓ} where
  pull-at :
      (xs : List A) (y : A) (ys : List A) → pull (xs ++ y ∷ ys) (length xs) ≡ some (y, xs ++ ys)
  unfolding pull
  pull-at [] y ys = refl
  pull-at (x ∷ xs) y ys = rw (pull-at xs y ys)

  insert_idx-at :
      (xs : List A) (y : A) (ys : List A) → insert_idx (xs ++ ys) (length xs) y ≡ xs ++ y ∷ ys
  unfolding insert_idx
  insert_idx-at [] y [] = refl
  insert_idx-at [] y (z ∷ zs) = refl
  insert_idx-at (x ∷ xs) y ys = ap (x ∷◌) (insert_idx-at xs y ys)

module _ {ℓ} {A : Type ℓ} (id_of : A → Text) where
  -- The dragged item is taken out, and put directly behind or before the other one.
  pub record IsMoved (items : List A) (from to : Text) (after : Bool) (moved : List A)
      : Type ℓ where
    pub left : List A
    pub dragged : A
    pub right : List A
    pub before : List A
    pub other : A
    pub behind : List A
    pub taken : items ≡ left ++ dragged ∷ right
    pub rest : left ++ right ≡ before ++ other ∷ behind
    pub put :
        moved ≡ before ++ (if after then other ∷ dragged ∷ behind else dragged ∷ other ∷ behind)
    pub is_from : id_of dragged ≡ from
    pub is_to : id_of other ≡ to

  anyb-middle :
      (p : A → Bool) (xs : List A) (y : A) (ys : List A)
      → p y ≡ false
      → anyb p (xs ++ y ∷ ys) ≡ anyb p (xs ++ ys)
  anyb-middle p [] y ys h = rw h
  anyb-middle p (x ∷ xs) y ys h = ap (λ b. p x || b) (anyb-middle p xs y ys h)

  place-next :
      (after : Bool) (xs : List A) (t f : A) (ys : List A)
      → insert_idx (xs ++ t ∷ ys) (length xs + (if after then 1 else 0)) f
        ≡ xs ++ (if after then t ∷ f ∷ ys else f ∷ t ∷ ys)
  unfolding insert_idx
  place-next false xs t f ys =
      let e : length xs + 0 ≡ length xs = omega arith in rw e (insert_idx-at xs f (t ∷ ys))
  place-next true xs t f ys =
      let e : length xs + 1 ≡ length (xs ++ t ∷ []) = omega (arith, length-append xs (t ∷ [])) in
      ap (λ n. insert_idx (xs ++ t ∷ ys) n f) e
      ∙ ap (λ l. insert_idx l (length (xs ++ t ∷ [])) f) (sym (append_assoc xs (t ∷ []) ys))
      ∙ insert_idx-at (xs ++ t ∷ []) f ys
      ∙ append_assoc xs (t ∷ []) (f ∷ ys)

  place-IsMoved :
      (left : List A) (dragged : A) (right : List A) (to : Text) (after : Bool)
      → anyb (λ x. id_of x == to) (left ++ right) ≡ true
      → (r : List A) × (place id_of (left ++ right) dragged to after ≡ some r)
        × IsMoved (left ++ dragged ∷ right) (id_of dragged) to after r
  unfolding place
  place-IsMoved left dragged right to after there =
      elim (Option-cases (find_index (λ x. id_of x == to) (left ++ right))) [
        | inl e ↦
            absurd (ground (arith, there, find_index-none (λ x. id_of x == to) (left ++ right) e))
        | inr (i, e) ↦
            let f = find_index-IsFirst (λ x. id_of x == to) (left ++ right) i e in
            let r =
              f.before
              ++ (if after then f.item ∷ dragged ∷ f.behind else dragged ∷ f.item ∷ f.behind) in
            (
              r,
              rw (e, place)
                  (ap some (
                    ap (λ n. insert_idx (left ++ right) (n + (if after then 1 else 0)) dragged) f.at
                    ∙ ap (λ l. insert_idx l (length f.before + (if after then 1 else 0)) dragged)
                        f.whole
                    ∙ place-next after f.before f.item dragged f.behind)),
              record {
                left = left;
                dragged = dragged;
                right = right;
                before = f.before;
                other = f.item;
                behind = f.behind;
                taken = refl;
                rest = f.whole;
                put = refl;
                is_from = refl;
                is_to = (text_beq_iff (id_of f.item) to).0 f.passes;
              },
            )
      ]

  -- Where both ids are in the list and differ, the move succeeds and puts the item of the first id
  -- directly behind or before that of the second; all other items stay in their order.
  pub move_connection_item-IsMoved :
      (items : List A) (from to : Text) (after : Bool)
      → from ≢ to
      → anyb (λ x. id_of x == from) items ≡ true
      → anyb (λ x. id_of x == to) items ≡ true
      → (r : List A) × (move_connection_item id_of items from to after ≡ some r)
        × IsMoved items from to after r
  unfolding move_connection_item
  move_connection_item-IsMoved items from to after differ has_from has_to =
      let apart : (from == to) ≡ false = beq-ne from to differ in
      elim (Option-cases (find_index (λ x. id_of x == from) items)) [
        | inl e ↦ absurd (ground (arith, has_from, find_index-none (λ x. id_of x == from) items e))
        | inr (i, e) ↦
            let f = find_index-IsFirst (λ x. id_of x == from) items i e in
            let own : id_of f.item ≡ from = (text_beq_iff (id_of f.item) from).0 f.passes in
            let not_to : (id_of f.item == to) ≡ false = rw own apart in
            let there : anyb (λ x. id_of x == to) (f.before ++ f.behind) ≡ true =
              sym (anyb-middle (λ x. id_of x == to) f.before f.item f.behind not_to)
              ∙ sym (ap (anyb (λ x. id_of x == to)) f.whole)
              ∙ has_to in
            let pulled : pull items i ≡ some (f.item, f.before ++ f.behind) =
              rw (f.at, f.whole) (pull-at f.before f.item f.behind) in
            let (r, placed, moved) = place-IsMoved f.before f.item f.behind to after there in
            (
              r,
              rw (apart, has_to, e, pulled) placed,
              subst₂ (λ l k. IsMoved l k to after r) (sym f.whole) own moved,
            )
      ]

  -- Otherwise nothing is moved.
  pub move_connection_item-none :
      (items : List A) (from to : Text) (after : Bool)
      → (from ≡ to)
        ⊎ ((anyb (λ x. id_of x == from) items ≡ false) ⊎ (anyb (λ x. id_of x == to) items ≡ false))
      → move_connection_item id_of items from to after ≡ none
  unfolding move_connection_item
  move_connection_item-none items from to after (inl same) = rw (same, beq_refl to)
  move_connection_item-none items from to after (inr (inr no_to)) = ground (arith, no_to)
  move_connection_item-none items from to after (inr (inl no_from)) =
      ground (arith, no_from, find_index-some (λ x. id_of x == from) items no_from)

keep_perm {ℓ} :
    {A : Type ℓ} (x : A) (left right before : List A) (y : A) (behind : List A)
    → left ++ right ≡ before ++ y ∷ behind
    → Perm (before ++ x ∷ y ∷ behind) (left ++ x ∷ right)
keep_perm x left right before y behind e =
    Perm.trans (perm_middle before (y ∷ behind)) (
      Perm.trans (rw e (Perm.refl (x ∷ before ++ y ∷ behind))) (Perm.symm (perm_middle left right)))

-- A move keeps all items.
pub IsMoved-perm {ℓ} :
    {A : Type ℓ} (id_of : A → Text) (items : List A) (from to : Text) (after : Bool)
    (moved : List A)
    → IsMoved id_of items from to after moved
    → Perm moved items
IsMoved-perm id_of items from to true moved m =
    rw (m.put, m.taken)
      (Perm.trans (Perm.append_left m.before (Perm.swap m.dragged m.other m.behind))
        (keep_perm m.dragged m.left m.right m.before m.other m.behind m.rest))
IsMoved-perm id_of items from to false moved m =
    rw (m.put, m.taken) (keep_perm m.dragged m.left m.right m.before m.other m.behind m.rest)
