-- ===== src/Stream/Routing.antt =====
-- Which container a log comes from.
use log_agent.Prelude.{
  Bool, false, ◌||◌, List, [], ◌∷◌, ◌++◌, Option, none, some, Text, text_eq, ◌==◌, if◌then◌else◌,
  ◌≡◌, refl, arith, Option-cases, inl, inr,
}
use log_agent.Prelude.Dict.{Dict, get, set, get-set}
use log_agent.LogBuffer.{Log}
use log_agent.Scope.{Node, Target, container_key, get_node}
use log_agent.Stream.{cache_keys, route, source_key}

-- A log is of a container when it names a listed node, the container's node, and the container by its
-- name or by its id; the two names are compared as one text with a character 0 between them.
abbrev pub is_of : List Node → Target → Log → Bool
is_of nodes target log = elim (get_node target.node_id nodes) [
  | none ↦ false
  | some node ↦
      (node.name ++ (0 ∷ target.name)) == (log.node ++ (0 ∷ log.container))
      || (node.name ++ (0 ∷ target.container_id)) == (log.node ++ (0 ∷ log.container))
]

abbrev pub is_of_some : List Node → List Target → Log → Bool
is_of_some nodes [] log = false
is_of_some nodes (target ∷ targets) log = is_of nodes target log || is_of_some nodes targets log

-- The key of the last of some containers that a log is of.
abbrev pub origin : List Node → List Target → Log → Option Text
origin nodes [] log = none
origin nodes (target ∷ targets) log = elim (origin nodes targets log) [
  | some later ↦ some later
  | none ↦
      if is_of nodes target log
      then some (container_key target.node_id target.container_id)
      else none
]

abbrev pub or_else : Option Text → Option Text → Option Text
or_else none old = old
or_else (some key) old = some key

get-cache_keys :
    (nodes : List Node) (targets : List Target) (log : Log) (keys : Dict Text Text)
    → get (log.node ++ (0 ∷ log.container)) (cache_keys nodes targets keys)
      ≡ or_else (origin nodes targets log) (get (log.node ++ (0 ∷ log.container)) keys)
unfolding cache_keys source_key
get-cache_keys nodes [] log keys = refl
get-cache_keys nodes (target ∷ targets) log keys =
    let cache_key = container_key target.node_id target.container_id in
    let source = log.node ++ (0 ∷ log.container) in
    elim (Option-cases (get_node target.node_id nodes)) [
      | inl e ↦ rw e (ground (arith, get-cache_keys nodes targets log keys))
      | inr (node, e) ↦
          let by_name = set (node.name ++ (0 ∷ target.name)) cache_key keys in
          rw e (
            ground (
              arith,
              get-cache_keys nodes targets log
                  (set (node.name ++ (0 ∷ target.container_id)) cache_key by_name),
              get-set (node.name ++ (0 ∷ target.container_id)) source cache_key by_name,
              get-set (node.name ++ (0 ∷ target.name)) source cache_key keys,
            ))
    ]

-- Looking a log up in `cacheKeysBySource` gives the container that it comes from.
pub route-cache_keys :
    (nodes : List Node) (targets : List Target) (log : Log)
    → route (cache_keys nodes targets []) log ≡ origin nodes targets log
unfolding route source_key
route-cache_keys nodes targets log = ground (arith, get-cache_keys nodes targets log [])
