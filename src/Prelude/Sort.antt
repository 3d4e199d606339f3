-- ===== src/Prelude/Sort.antt =====
-- `Array.prototype.sort`: the stable sort by a comparator. `le x y` is "x need not come after y".
use mathlib.Core.Path.{◌≡◌, refl, ap, ◌∙◌}
use mathlib.Core.Logic.{inl, inr}
use mathlib.Core.Bool.{Bool, true, false}
use mathlib.Core.List.{List, [], ◌∷◌, ◌++◌, Perm}
use mathlib.Core.List.Perm
use Prim.Native.Nat.{ℕ, zero, suc}
use native.Mathlib.Omega.{arith}
use log_agent.Prelude.Tests.{if◌then◌else◌, Bool-cases}
use log_agent.Prelude.Lists.{filterb, take}

module _ {ℓ} {A : Type ℓ} (le : A → A → Bool) where
  unfoldable pub insert_by : A → List A → List A
  insert_by x [] = x ∷ []
  insert_by x (y ∷ ys) = if le x y then x ∷ y ∷ ys else y ∷ insert_by x ys

  unfoldable pub sort_by : List A → List A
  unfolding insert_by
  sort_by [] = []
  sort_by (x ∷ xs) = insert_by x (sort_by xs)

  abbrev pub SortedBy : List A → Type 0
  SortedBy [] = Unit
  SortedBy (x ∷ []) = Unit
  SortedBy (x ∷ y ∷ ys) = (le x y ≡ true) × SortedBy (y ∷ ys)

  -- Two lists into one, the first before the second where neither has to come first.
  unfoldable pub merge_by : List A → List A → List A
  merge_by [] ys = ys
  merge_by (x ∷ xs) [] = x ∷ xs
  merge_by (x ∷ xs) (y ∷ ys) =
      let first = x ∷ merge_by xs (y ∷ ys) in
      let second = y ∷ merge_by (x ∷ xs) ys in if le x y then first else second

  pub merge_by-nil : (xs : List A) → merge_by xs [] ≡ xs
  unfolding merge_by
  merge_by-nil [] = refl
  merge_by-nil (x ∷ xs) = refl

  insert_by-perm : (x : A) (xs : List A) → Perm (insert_by x xs) (x ∷ xs)
  unfolding insert_by
  insert_by-perm x [] = Perm.refl _
  insert_by-perm x (y ∷ ys) = elim (Bool-cases (le x y)) [
    | inl p ↦ rw p (Perm.refl _)
    | inr p ↦ rw p (Perm.trans (Perm.cons y (insert_by-perm x ys)) (Perm.swap x y ys))
  ]

  -- Sorting rearranges.
  pub sort_by-perm : (xs : List A) → Perm (sort_by xs) xs
  unfolding sort_by
  sort_by-perm [] = Perm.refl _
  sort_by-perm (x ∷ xs) = Perm.trans (insert_by-perm x (sort_by xs)) (Perm.cons x (sort_by-perm xs))

  pub SortedBy-take : (n : ℕ) (xs : List A) → SortedBy xs → SortedBy (take n xs)
  SortedBy-take zero xs s = tt
  SortedBy-take (suc n) [] s = tt
  SortedBy-take (suc zero) (x ∷ []) s = tt
  SortedBy-take (suc (suc n)) (x ∷ []) s = tt
  SortedBy-take (suc zero) (x ∷ y ∷ ys) s = tt
  SortedBy-take (suc (suc n)) (x ∷ y ∷ ys) (h, s) = (h, SortedBy-take (suc n) (y ∷ ys) s)

  SortedBy-tail : (x : A) (xs : List A) → SortedBy (x ∷ xs) → SortedBy xs
  SortedBy-tail x [] s = tt
  SortedBy-tail x (y ∷ ys) s = s.1

  module _ (total : (x y : A) → le x y ≡ false → le y x ≡ true) where
    insert_by-SortedBy : (x : A) (xs : List A) → SortedBy xs → SortedBy (insert_by x xs)
    unfolding insert_by
    insert_by-SortedBy x [] s = tt
    insert_by-SortedBy x (y ∷ []) s = ground (arith, total x y)
    insert_by-SortedBy x (y ∷ z ∷ zs) (h, s) =
        ground (arith, total x y, insert_by-SortedBy x (z ∷ zs) s)

    pub sort_by-SortedBy : (xs : List A) → SortedBy (sort_by xs)
    unfolding sort_by
    sort_by-SortedBy [] = tt
    sort_by-SortedBy (x ∷ xs) = insert_by-SortedBy x (sort_by xs) (sort_by-SortedBy xs)

  -- A sorted list is left alone.
  pub sort_by_of_SortedBy : (xs : List A) → SortedBy xs → sort_by xs ≡ xs
  unfolding sort_by
  sort_by_of_SortedBy [] s = refl
  sort_by_of_SortedBy (x ∷ []) s = refl
  sort_by_of_SortedBy (x ∷ y ∷ ys) (h, s) = rw (sort_by_of_SortedBy (y ∷ ys) s, h)

  module _ (trans : (x y z : A) → le x y ≡ true → le y z ≡ true → le x z ≡ true) where
    SortedBy-skip : (x y : A) (ys : List A) → le x y ≡ true → SortedBy (y ∷ ys) → SortedBy (x ∷ ys)
    SortedBy-skip x y [] h s = tt
    SortedBy-skip x y (z ∷ zs) h (k, s) = (trans x y z h k, s)

    SortedBy-filter_cons :
        (p : A → Bool) (x : A) (xs : List A) → SortedBy (x ∷ xs) → SortedBy (x ∷ filterb p xs)
    SortedBy-filter_cons p x [] s = tt
    SortedBy-filter_cons p x (y ∷ ys) s = elim (Bool-cases (p y)) [
      | inl h ↦ rw h (s.0, SortedBy-filter_cons p y ys s.1)
      | inr h ↦ rw h (SortedBy-filter_cons p x ys (SortedBy-skip x y ys s.0 s.1))
    ]

    -- What a filter leaves of a sorted list is sorted.
    pub SortedBy-filterb : (p : A → Bool) (xs : List A) → SortedBy xs → SortedBy (filterb p xs)
    SortedBy-filterb p [] s = tt
    SortedBy-filterb p (x ∷ xs) s = elim (Bool-cases (p x)) [
      | inl h ↦ rw h (SortedBy-filter_cons p x xs s)
      | inr h ↦ rw h (SortedBy-filterb p xs (SortedBy-tail x xs s))
    ]

    -- Inserting before or after a merge is the same.
    insert_by-merge_by :
        (total : (x y : A) → le x y ≡ false → le y x ≡ true) (x : A) (xs ys : List A)
        → insert_by x (merge_by xs ys) ≡ merge_by (insert_by x xs) ys
    unfolding insert_by merge_by
    insert_by-merge_by total x [] [] = refl
    insert_by-merge_by total x [] (y ∷ ys) = ground (arith, insert_by-merge_by total x [] ys)
    insert_by-merge_by total x (z ∷ zs) [] = ground arith
    insert_by-merge_by total x (z ∷ zs) (y ∷ ys) = ground (
      arith,
      insert_by-merge_by total x (z ∷ zs) ys,
      insert_by-merge_by total x zs (y ∷ ys),
      trans x z y,
      total z y,
      total x z,
      total x y,
      trans x y z,
      trans z y x,
      trans y z x,
      trans z x y,
    )

    -- Sorting a list whose second part is sorted is a merge.
    pub sort_by-append :
        (total : (x y : A) → le x y ≡ false → le y x ≡ true) (xs ys : List A)
        → SortedBy ys
        → sort_by (xs ++ ys) ≡ merge_by (sort_by xs) ys
    unfolding sort_by merge_by
    sort_by-append total [] ys s = sort_by_of_SortedBy ys s
    sort_by-append total (x ∷ xs) ys s =
        ap (insert_by x) (sort_by-append total xs ys s) ∙ insert_by-merge_by total x (sort_by xs) ys
