-- ===== src/Samples/Graphs.antt =====
-- Module graphs with and without a cycle.
use framekit.Base.{All, ◌≡◌, refl, true, List, [], ◌∷◌, contains, string_eq}
use framekit.Modules.{
  ModuleSpec, validate_module_graph, collect_ids, build_adjacency, module_dependencies,
  validate_dependencies, validate_dependency, set_insert, insert_rising, validate_known,
  order_graph, order_loop, first_frontier, finish_order, adjacent, increment, count_dependencies,
  count_indegrees, collect_ready, decrement, release,
}
use framekit.Modules.Startup.{IsStartup}
use framekit.Modules.Edges.{NoDup}
use framekit.Modules.Declared.{ids}
use framekit.Modules.Accepted.{IsDeclared, valid-IsDeclared}
use framekit.Modules.Outcome.{Outcome, validate_module_graph-Outcome, valid-IsStartup}

-- The game needs the renderer and, if it is there, the audio; the renderer needs the window.
abbrev game : List ModuleSpec
game =
    record {
      id = "game";
      required_dependencies = "renderer" ∷ [];
      optional_dependencies = "audio" ∷ "network" ∷ [];
    }
    ∷ record { id = "renderer"; required_dependencies = "window" ∷ []; optional_dependencies = [] }
    ∷ record { id = "window"; required_dependencies = []; optional_dependencies = [] }
    ∷ record { id = "audio"; required_dependencies = []; optional_dependencies = [] }
    ∷ []

game_startup :
    (validate_module_graph game).startup_order ≡ "window" ∷ "renderer" ∷ "audio" ∷ "game" ∷ []
unfolding validate_module_graph validate_known order_graph collect_ids build_adjacency
    module_dependencies validate_dependencies validate_dependency set_insert insert_rising
    order_loop first_frontier finish_order adjacent increment count_dependencies count_indegrees
    collect_ready decrement release contains
game_startup = refl

game_valid : (validate_module_graph game).valid ≡ true
unfolding validate_module_graph validate_known order_graph collect_ids build_adjacency
    module_dependencies validate_dependencies validate_dependency set_insert insert_rising
    order_loop first_frontier finish_order adjacent increment count_dependencies count_indegrees
    collect_ready decrement release contains
game_valid = refl

valid-IsStartup_example : IsStartup game (validate_module_graph game).startup_order
valid-IsStartup_example = valid-IsStartup game game_valid

valid-IsDeclared_example : NoDup (ids game) × All (IsDeclared (ids game)) game
valid-IsDeclared_example = valid-IsDeclared game game_valid

-- Two modules that need each other.
abbrev knot : List ModuleSpec
knot =
    record { id = "a"; required_dependencies = "b" ∷ []; optional_dependencies = [] }
    ∷ record { id = "b"; required_dependencies = "a" ∷ []; optional_dependencies = [] }
    ∷ []

validate_module_graph-Outcome_example : Outcome knot (validate_module_graph knot)
unfolding collect_ids build_adjacency module_dependencies validate_dependencies validate_dependency
    set_insert insert_rising contains
validate_module_graph-Outcome_example =
    validate_module_graph-Outcome knot ("a" ∷ "b" ∷ []) (("a", "b" ∷ []) ∷ ("b", "a" ∷ []) ∷ [])
      refl refl
