-- ===== src/Reorder/Rules.antt =====
-- The order of the processing rules: `normalizeRuleOrder` and `persistRuleOrder` of app.js.
use log_agent.Prelude.{
  true, not, ◌&&◌, List, [], ◌∷◌, Option, none, some, Text, txt, text_eq, text_beq_iff, ◌==◌,
  nat_eq, ◌≡◌, refl, if◌then◌else◌, allb, length, arith, ◌≢◌, false,
}
use log_agent.Prelude.Members.{contains}

abbrev pub default_rules : List Text
default_rules = txt "mask" ∷ txt "structure" ∷ txt "noise" ∷ []

-- `[...new Set(order)]`
unfoldable pub unique : List Text → List Text
unique [] = []
unique (x ∷ xs) = let rest = unique xs in if contains x xs then rest else x ∷ rest

-- `normalizeRuleOrder`; `none` is a value that is no array.
unfoldable pub normalize_rule_order : Option (List Text) → List Text
unfolding unique
normalize_rule_order none = default_rules
normalize_rule_order (some order) =
    if not (length order == 3)
    then default_rules
    else if length (unique order) == 3 && allb (λ rule. contains rule (unique order)) default_rules
    then order
    else default_rules

-- The three rules, each once, in some order.
pub record IsOrder (order : List Text) : Type 0 where
  pub three : length order ≡ 3
  pub mask : contains (txt "mask") order ≡ true
  pub structure : contains (txt "structure") order ≡ true
  pub noise : contains (txt "noise") order ≡ true

contains-unique : (x : Text) (xs : List Text) → contains x (unique xs) ≡ contains x xs
unfolding unique
contains-unique x [] = refl
contains-unique x (y ∷ ys) = ground (arith, contains-unique x ys, text_beq_iff y x)

normalize_rule_order-IsOrder : (order : Option (List Text)) → IsOrder (normalize_rule_order order)
unfolding normalize_rule_order
normalize_rule_order-IsOrder none = record {
  three = refl;
  mask = refl;
  structure = refl;
  noise = refl;
}
normalize_rule_order-IsOrder (some order) =
    let has = λ (rule : Text). contains-unique rule order in
    ground (arith, has (txt "mask"), has (txt "structure"), has (txt "noise"))

three_apart :
    (x y z a b c : Text)
    → x ≢ y
    → x ≢ z
    → y ≢ z
    → contains x (a ∷ b ∷ c ∷ []) ≡ true
    → contains y (a ∷ b ∷ c ∷ []) ≡ true
    → contains z (a ∷ b ∷ c ∷ []) ≡ true
    → (contains a (b ∷ c ∷ []) ≡ false) × (contains b (c ∷ []) ≡ false)
three_apart x y z a b c xy xz yz hx hy hz = ground (
  arith,
  text_beq_iff a x,
  text_beq_iff b x,
  text_beq_iff c x,
  text_beq_iff a y,
  text_beq_iff b y,
  text_beq_iff c y,
  text_beq_iff a z,
  text_beq_iff b z,
  text_beq_iff c z,
  text_beq_iff b a,
  text_beq_iff c a,
  text_beq_iff c b,
)

names_apart :
    (txt "mask" ≢ txt "structure") × (txt "mask" ≢ txt "noise") × (txt "structure" ≢ txt "noise")
names_apart = (λ h. cc, λ h. cc, λ h. cc)

length-unique : (order : List Text) → IsOrder order → length (unique order) ≡ 3
unfolding unique
length-unique (a ∷ b ∷ c ∷ []) o =
    let (ms, mn, sn) = names_apart in
    let (p, q) =
      three_apart (txt "mask") (txt "structure") (txt "noise") a b c ms mn sn o.mask o.structure
        o.noise in
    rw (p, q)
length-unique [] o = absurd (omega (arith, o.three))
length-unique (a ∷ []) o = absurd (omega (arith, o.three))
length-unique (a ∷ b ∷ []) o = absurd (omega (arith, o.three))
length-unique (a ∷ b ∷ c ∷ d ∷ rest) o = absurd (omega (arith, o.three))

-- An order of the three rules is kept.
normalize_rule_order-kept :
    (order : List Text) → IsOrder order → normalize_rule_order (some order) ≡ order
unfolding normalize_rule_order
normalize_rule_order-kept order o =
    let has = λ (rule : Text). contains-unique rule order in
    rw (
      o.three,
      length-unique order o,
      has (txt "mask"),
      has (txt "structure"),
      has (txt "noise"),
      o.mask,
      o.structure,
      o.noise,
    )

-- `persistRuleOrder`: the order shown while the server is asked, and the order in the end. `answer`
-- is the server's order, or `none` where the request failed.
unfoldable pub persist_rule_order :
    Option (List Text) → Option (List Text) → Option (Option (List Text)) → List Text × List Text
unfolding normalize_rule_order
persist_rule_order order previous none = (normalize_rule_order order, normalize_rule_order previous)
persist_rule_order order previous (some answer) =
    (normalize_rule_order order, normalize_rule_order answer)

-- Where the order to restore is the three rules each once, then whatever is asked for and
-- answered: the order shown while waiting and the one in the end are the three rules each once,
-- an order asked for that is so is shown as it is, and where the request fails the order in the
-- end is the one to restore.
pub persist_rule_order_lem :
    (order previous : List Text) (answer : Option (Option (List Text)))
    → IsOrder previous
    → (shown : List Text) × (final : List Text) × (persist_rule_order
          (some order)
          (some previous)
          answer
        ≡ (shown, final))
      × IsOrder shown
      × IsOrder final
      × (IsOrder order → shown ≡ order)
      × (answer ≡ none → final ≡ previous)
unfolding persist_rule_order
persist_rule_order_lem order previous none v = (
  _,
  _,
  refl,
  normalize_rule_order-IsOrder (some order),
  normalize_rule_order-IsOrder (some previous),
  normalize_rule_order-kept order,
  λ _. normalize_rule_order-kept previous v,
)
persist_rule_order_lem order previous (some answer) v = (
  _,
  _,
  refl,
  normalize_rule_order-IsOrder (some order),
  normalize_rule_order-IsOrder answer,
  normalize_rule_order-kept order,
  λ e. absurd (ground arith),
)
