-- ===== src/Prelude/Equality.antt =====
-- Keys that the program compares with `===`, and texts as lists of UTF-16 code units.
use Prim.Native.Nat.{ℕ}
use Prim.Native.Char.{code}
use Prim.Native.String.{String}
use mathlib.Core.Path.{◌≡◌}
use mathlib.Core.Logic.{◌↔◌}
use mathlib.Core.Bool.{Bool, true, false, ◌&&◌}
use mathlib.Core.List.{List, [], ◌∷◌}
use native.Mathlib.Omega.{arith}
use log_agent.Prelude.Tests.{nat_beq, nat_beq_iff}

pub record StrictEq {ℓ} (Key : Type ℓ) : Type ℓ where
  pub is_same : Key → Key → Bool
  pub is_same_iff : (left right : Key) → (is_same left right ≡ true) ↔ (left ≡ right)

-- A JavaScript string: its code units.
abbrev pub Text : Type 0
Text = List ℕ

-- The code units of an ASCII literal.
abbrev pub txt : String → Text
txt String.[] = []
txt (String.◌∷◌ c s) = code c ∷ txt s

abbrev pub text_beq : Text → Text → Bool
text_beq [] [] = true
text_beq (a ∷ s) (b ∷ t) = nat_beq a b && text_beq s t
text_beq _ _ = false

pub text_beq_iff : (s t : Text) → (text_beq s t ≡ true) ↔ (s ≡ t)
text_beq_iff [] [] = ground arith
text_beq_iff (a ∷ s) (b ∷ t) = ground (arith, text_beq_iff s t)
text_beq_iff [] (b ∷ t) = ground arith
text_beq_iff (a ∷ s) [] = ground arith

-- `===`
infix 50 ◌==◌
abbrev pub ◌==◌ {ℓ} : {A : Type ℓ} ⦃keys : StrictEq A⦄ → A → A → Bool
◌==◌ ⦃keys⦄ = keys.is_same

instance abbrev pub text_eq : StrictEq Text
text_eq = record { is_same = text_beq; is_same_iff = text_beq_iff }

instance abbrev pub nat_eq : StrictEq ℕ
nat_eq = record { is_same = nat_beq; is_same_iff = nat_beq_iff }
