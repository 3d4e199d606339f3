-- ===== src/Prelude/Texts.antt =====
-- `startsWith`, `indexOf`, `includes` and `slice` on texts.
use Prim.Native.Nat.{ℕ, suc, ◌-◌}
use mathlib.Core.Bool.{Bool, true, false, ◌&&◌, ◌||◌}
use mathlib.Core.Option.{Option, none, some}
use mathlib.Core.List.{[], ◌∷◌}
use log_agent.Prelude.Tests.{if◌then◌else◌, nat_beq, leb}
use log_agent.Prelude.Equality.{Text}
use log_agent.Prelude.Lists.{is_empty, take, drop, allb}

unfoldable pub starts_with : Text → Text → Bool
starts_with [] text = true
starts_with (c ∷ needle) [] = false
starts_with (c ∷ needle) (d ∷ text) = nat_beq c d && starts_with needle text

-- The first place of a needle that is not empty.
unfoldable pub index_of : Text → Text → Option ℕ
unfolding starts_with
index_of needle [] = none
index_of needle (c ∷ text) =
    if starts_with needle (c ∷ text)
    then some 0
    else elim (index_of needle text) [ none ↦ none | some i ↦ some (suc i) ]

unfoldable pub includes : Text → Text → Bool
unfolding index_of
includes needle text = elim (index_of needle text) [ none ↦ false | some i ↦ true ]

-- `text.slice(from, to)` for places within the text or past its end.
abbrev pub slice : ℕ → ℕ → Text → Text
slice from to text = take (to - from) (drop from text)

-- `/\s/`, and what `trim` cuts.
unfoldable pub is_space : ℕ → Bool
is_space c =
    (leb 9 c && leb c 13)
    || (nat_beq c 32
        || (nat_beq c 160
            || (nat_beq c 5760
                || ((leb 8192 c && leb c 8202)
                    || (nat_beq c 8232
                        || (nat_beq c 8233
                            || (nat_beq c 8239
                                || (nat_beq c 8287 || (nat_beq c 12288 || nat_beq c 65279)))))))))

-- `!text.trim()`
unfoldable pub is_blank : Text → Bool
unfolding is_space
is_blank = allb is_space

unfoldable pub trim_start : Text → Text
unfolding is_space
trim_start [] = []
trim_start (c ∷ s) = if is_space c then trim_start s else c ∷ s

unfoldable pub trim_end : Text → Text
unfolding is_space
trim_end [] = []
trim_end (c ∷ s) = let rest = trim_end s in if is_space c && is_empty rest then [] else c ∷ rest

-- `text.trim()`
unfoldable pub trim : Text → Text
unfolding trim_start trim_end
trim s = trim_end (trim_start s)
