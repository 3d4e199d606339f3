-- ===== src/Scope/Keys.antt =====
-- Container keys, `node::container`.
use log_agent.Prelude.{false, [], ◌∷◌, ◌++◌, some, Text, ◌≡◌, refl, ap, length, take, All, nat_beq}
use log_agent.Prelude.Texts.{index_of}
use log_agent.Scope.{separator, container_key, container_key_node_id}

-- No colon.
abbrev pub NoColon : Text → Type 0
NoColon = All (λ c. nat_beq 58 c ≡ false)

index_of-separator :
    (node_id rest : Text)
    → NoColon node_id
    → index_of separator (node_id ++ (separator ++ rest)) ≡ some (length node_id)
unfolding index_of
index_of-separator [] rest n = refl
index_of-separator (c ∷ node_id) rest (here, n) = rw (here, index_of-separator node_id rest n)

take-length : (xs ys : Text) → take (length xs) (xs ++ ys) ≡ xs
take-length [] ys = refl
take-length (x ∷ xs) ys = ap (x ∷◌) (take-length xs ys)

-- A container's key gives its node back, where the id of the node has no colon.
pub container_key_node_id-container_key :
    (node_id container_id : Text)
    → NoColon node_id
    → container_key_node_id (container_key node_id container_id) ≡ node_id
unfolding container_key container_key_node_id
container_key_node_id-container_key node_id container_id n =
    rw (index_of-separator node_id container_id n, container_key_node_id)
      (take-length node_id (separator ++ container_id))
