-- ===== src/Scope/Tests.antt =====
-- A session of the page, and the theorems at it.
use log_agent.Prelude.{
  false, true, List, [], ◌∷◌, Option, some, txt, Text, ◌≡◌, refl, text_eq, arith,
}
use log_agent.Scope.{Scope, Node, container_key, container_key_node_id}
use log_agent.Scope.Actions.{Saved}
use log_agent.Scope.Invariant.{IsScoped}
use log_agent.Scope.Steps.{Action, act, act-IsScoped, Reach, load_saved, Reach-load_saved-IsScoped}
use log_agent.Scope.Keys.{container_key_node_id-container_key}

abbrev pub empty : Scope
empty = record {
  nodes = [];
  selected_nodes = [];
  expanded_nodes = [];
  selected_containers = [];
  hidden_containers = [];
  kept_containers = [];
  multi_select = false;
  log_cache = [];
  loaded_selection_key = [];
  selected_log = 0;
  search = record { timer = false; request = 0; logs = []; key = []; loading = false };
  pagination = record {
    visible_logs = 50;
    preview_timer = false;
    preview_due = false;
    preview_active = false;
    preview_limit = 0;
    window_key = [];
    follow_latest = true;
  };
}

abbrev saved : Option Saved
saved = some (record {
  nodes = some (txt "n" ∷ txt "m" ∷ []);
  containers = some (txt "n::a" ∷ txt "m::b" ∷ txt "n::c" ∷ []);
  multi_select = false;
})

abbrev hidden : Option (List Text)
hidden = some (txt "n::c" ∷ [])

abbrev pub nodes : List Node
nodes =
    record {
      id = txt "n";
      name = txt "N";
      containers = record { id = txt "a"; name = txt "A" } ∷ [];
    }
    ∷ []

empty-IsScoped : IsScoped empty
empty-IsScoped = record {
  single = λ m. omega arith;
  within = λ key h. ground (arith, h);
  visible = λ key h. refl;
  apart = λ key h. refl;
  known = λ id e h. ground (arith, h);
}

loaded : (load_saved saved hidden empty).selected_containers ≡ txt "n::a" ∷ []
unfolding load_saved
loaded = refl

act-IsScoped_example : IsScoped (act (Action.multi true) empty)
act-IsScoped_example = act-IsScoped (Action.multi true) empty tt empty-IsScoped

abbrev session : List Node → Scope
session list =
    act (Action.hide (txt "n::a")) (act (Action.sync list) (load_saved saved hidden empty))

session-Reach : Reach (load_saved saved hidden empty) (session nodes)
session-Reach =
    Reach.next (Action.hide (txt "n::a")) (Reach.next (Action.sync nodes) Reach.here tt) tt

Reach-load_saved-IsScoped_example : IsScoped (session nodes)
Reach-load_saved-IsScoped_example =
    Reach-load_saved-IsScoped saved hidden empty empty-IsScoped refl refl session-Reach

container_key_node_id-container_key_example :
    container_key_node_id (container_key (txt "node") (txt "a::b")) ≡ txt "node"
container_key_node_id-container_key_example =
    container_key_node_id-container_key (txt "node") (txt "a::b") (refl, (refl, (refl, (refl, tt))))
