-- ===== src/Prelude/Members.antt =====
-- Membership by `===`: `includes`, `Set.has`, and lists without repetition.
use mathlib.Core.Logic.{inl, inr}
use mathlib.Core.Path.{◌≡◌, refl}
use mathlib.Core.Logic.{◌≢◌}
use mathlib.Core.Bool.{Bool, true, false, ◌&&◌, ◌||◌}
use mathlib.Core.List.{List, [], ◌∷◌, ◌++◌}
use Prim.Native.Nat.{ℕ, zero, suc}
use native.Mathlib.Omega.{arith}
use log_agent.Prelude.Tests.{Bool-cases}
use log_agent.Prelude.Lists.{filterb, take}
use log_agent.Prelude.Equality.{StrictEq, ◌==◌}

module _ {ℓ} {A : Type ℓ} ⦃e : StrictEq A⦄ where
  abbrev pub contains : A → List A → Bool
  contains a [] = false
  contains a (x ∷ xs) = x == a || contains a xs

  abbrev pub Distinct : List A → Type 0
  Distinct [] = Unit
  Distinct (x ∷ xs) = (contains x xs ≡ false) × Distinct xs

  pub beq_refl : (a : A) → (a == a) ≡ true
  beq_refl a = (e.is_same_iff a a).1 refl

  pub beq-ne : (a b : A) → a ≢ b → (a == b) ≡ false
  beq-ne a b h = elim (Bool-cases (a == b)) [
    | inl p ↦ absurd (h ((e.is_same_iff a b).0 p))
    | inr p ↦ p
  ]

  pub contains-append :
      (a : A) (xs ys : List A) → contains a (xs ++ ys) ≡ (contains a xs || contains a ys)
  contains-append a [] ys = refl
  contains-append a (x ∷ xs) ys = ground (arith, contains-append a xs ys)

  pub contains-filterb :
      (p : A → Bool) (a : A) (xs : List A) → contains a (filterb p xs) ≡ (p a && contains a xs)
  contains-filterb p a [] = ground arith
  contains-filterb p a (x ∷ xs) = ground (arith, contains-filterb p a xs, e.is_same_iff x a)

  pub Distinct-filterb : (p : A → Bool) (xs : List A) → Distinct xs → Distinct (filterb p xs)
  Distinct-filterb p [] d = tt
  Distinct-filterb p (x ∷ xs) (new, d) =
      ground (arith, contains-filterb p x xs, Distinct-filterb p xs d)

  pub Distinct-append :
      (xs ys : List A)
      → Distinct xs
      → Distinct ys
      → ((a : A) → contains a xs ≡ true → contains a ys ≡ false)
      → Distinct (xs ++ ys)
  Distinct-append [] ys dx dy apart = dy
  Distinct-append (x ∷ xs) ys (new, dx) dy apart = (
    ground (arith, contains-append x xs ys, apart x, beq_refl x),
    Distinct-append xs ys dx dy (λ a h. ground (arith, apart a)),
  )

  pub contains-take :
      (n : ℕ) (a : A) (xs : List A) → contains a xs ≡ false → contains a (take n xs) ≡ false
  contains-take zero a xs h = refl
  contains-take (suc n) a [] h = refl
  contains-take (suc n) a (x ∷ xs) h = ground (arith, contains-take n a xs)

  pub Distinct-take : (n : ℕ) (xs : List A) → Distinct xs → Distinct (take n xs)
  Distinct-take zero xs d = tt
  Distinct-take (suc n) [] d = tt
  Distinct-take (suc n) (x ∷ xs) (new, d) = (contains-take n x xs new, Distinct-take n xs d)
