-- ===== src/Prelude/Dict.antt =====
-- JavaScript's `Map`: entries in the order of their first insertion; `set` of a present key
-- replaces its value in place.
use mathlib.Core.Path.{◌≡◌, refl, ap}
use mathlib.Core.Bool.{Bool, false, ◌||◌}
use mathlib.Core.Option.{Option, none, some}
use mathlib.Core.List.{List, [], ◌∷◌}
use native.Mathlib.Omega.{arith}
use log_agent.Prelude.Tests.{if◌then◌else◌}
use log_agent.Prelude.Equality.{StrictEq, ◌==◌}
use log_agent.Prelude.Members.{contains, Distinct}

abbrev pub Dict {ℓ κ} : Type ℓ → Type κ → Type (ℓ ⊔ κ)
Dict K V = List (K × V)

module _ {ℓ κ} {K : Type ℓ} {V : Type κ} ⦃e : StrictEq K⦄ where
  unfoldable pub get : K → Dict K V → Option V
  get k [] = none
  get k ((j, v) ∷ d) = if j == k then some v else get k d

  unfoldable pub set : K → V → Dict K V → Dict K V
  set k v [] = (k, v) ∷ []
  set k v ((j, w) ∷ d) = if j == k then (k, v) ∷ d else (j, w) ∷ set k v d

  unfoldable pub delete : K → Dict K V → Dict K V
  delete k [] = []
  delete k ((j, w) ∷ d) = if j == k then d else (j, w) ∷ delete k d

  unfoldable pub has : K → Dict K V → Bool
  has k [] = false
  has k ((j, w) ∷ d) = j == k || has k d

  abbrev pub keys : Dict K V → List K
  keys [] = []
  keys ((j, w) ∷ d) = j ∷ keys d

  abbrev pub values : Dict K V → List V
  values [] = []
  values ((j, w) ∷ d) = w ∷ values d

  pub get-set :
      (k j : K) (v : V) (d : Dict K V) → get j (set k v d) ≡ (if k == j then some v else get j d)
  unfolding get set
  get-set k j v [] = refl
  get-set k j v ((i, w) ∷ d) =
      ground (arith, e.is_same_iff k j, e.is_same_iff i k, e.is_same_iff i j, get-set k j v d)

  pub has-eq-contains : (k : K) (d : Dict K V) → has k d ≡ contains k (keys d)
  unfolding has
  has-eq-contains k [] = refl
  has-eq-contains k ((j, w) ∷ d) = ap (λ b. (j == k) || b) (has-eq-contains k d)

  pub contains-keys-set :
      (k j : K) (v : V) (d : Dict K V)
      → contains j (keys (set k v d)) ≡ (k == j || contains j (keys d))
  unfolding set
  contains-keys-set k j v [] = refl
  contains-keys-set k j v ((i, w) ∷ d) =
      ground
        (arith, e.is_same_iff k j, e.is_same_iff i k, e.is_same_iff i j, contains-keys-set k j v d)

  pub Distinct-keys-set :
      (k : K) (v : V) (d : Dict K V) → Distinct (keys d) → Distinct (keys (set k v d))
  unfolding set
  Distinct-keys-set k v [] h = (refl, tt)
  Distinct-keys-set k v ((i, w) ∷ d) (new, h) = ground (
    arith,
    e.is_same_iff i k,
    e.is_same_iff k i,
    contains-keys-set k i v d,
    Distinct-keys-set k v d h,
  )

  pub contains-keys-delete :
      (k j : K) (d : Dict K V)
      → contains j (keys d) ≡ false
      → contains j (keys (delete k d)) ≡ false
  unfolding delete
  contains-keys-delete k j [] h = refl
  contains-keys-delete k j ((i, w) ∷ d) h = ground (arith, contains-keys-delete k j d)

  pub Distinct-keys-delete :
      (k : K) (d : Dict K V) → Distinct (keys d) → Distinct (keys (delete k d))
  unfolding delete
  Distinct-keys-delete k [] h = tt
  Distinct-keys-delete k ((i, w) ∷ d) (new, h) =
      ground (arith, contains-keys-delete k i d, Distinct-keys-delete k d h)

  pub get_of_absent : (k : K) (d : Dict K V) → contains k (keys d) ≡ false → get k d ≡ none
  unfolding get
  get_of_absent k [] h = refl
  get_of_absent k ((i, w) ∷ d) h = ground (arith, get_of_absent k d)

  -- With distinct keys a deleted key is gone, and every other keeps its value.
  pub get-delete :
      (k j : K) (d : Dict K V)
      → Distinct (keys d)
      → get j (delete k d) ≡ (if k == j then none else get j d)
  unfolding get delete
  get-delete k j [] h = ground arith
  get-delete k j ((i, w) ∷ d) (new, h) = ground (
    arith,
    e.is_same_iff k j,
    e.is_same_iff i k,
    e.is_same_iff i j,
    get-delete k j d h,
    get_of_absent i d,
    get_of_absent j d,
  )
