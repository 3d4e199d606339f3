-- ===== src/LogBuffer/Order.antt =====
-- The order of the buffered logs: later time first, and at one time the larger id first.
use log_agent.Prelude.{ℕ, ◌≤◌, ◌<◌, true, false, ◌≡◌, ◌∙◌, ◌⊎◌, inl, inr, ◌↔◌, arith}
use log_agent.Prelude.Int.{sub_ℕ, nonpositive, or_else}
use log_agent.LogBuffer.{Log, time_of, newest_first}

key_iff :
    (t i t' i' : ℕ)
    → (nonpositive (or_else (sub_ℕ t' t) (sub_ℕ i' i)) ≡ true) ↔ ((t' < t) ⊎ ((t ≡ t') × (i' ≤ i)))
key_iff t i t' i' = ground arith

pub newest_first_iff :
    (left right : Log)
    → (newest_first left right ≡ true)
      ↔ ((time_of right < time_of left) ⊎ ((time_of left ≡ time_of right) × (right.id ≤ left.id)))
unfolding newest_first
newest_first_iff left right = key_iff (time_of left) left.id (time_of right) right.id

pub newest_first-total :
    (left right : Log) → newest_first left right ≡ false → newest_first right left ≡ true
unfolding newest_first
newest_first-total left right h = ground arith

pub newest_first_trans :
    (a b c : Log) → newest_first a b ≡ true → newest_first b c ≡ true → newest_first a c ≡ true
newest_first_trans a b c h k =
    (newest_first_iff a c).1 (go ((newest_first_iff a b).0 h) ((newest_first_iff b c).0 k))
  where
    go :
        (time_of b < time_of a) ⊎ ((time_of a ≡ time_of b) × (b.id ≤ a.id))
        → (time_of c < time_of b) ⊎ ((time_of b ≡ time_of c) × (c.id ≤ b.id))
        → (time_of c < time_of a) ⊎ ((time_of a ≡ time_of c) × (c.id ≤ a.id))
    go (inl p) (inl q) = inl (omega arith)
    go (inl p) (inr q) = inl (omega (arith, q.0))
    go (inr p) (inl q) = inl (omega (arith, p.0))
    go (inr p) (inr q) = inr (p.0 ∙ q.0, omega arith)
