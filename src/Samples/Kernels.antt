-- ===== src/Samples/Kernels.antt =====
-- The kernel with two modules and callbacks that note what is called.
use framekit.Base.{
  ℕ, ◌≡◌, refl, true, false, not, String, List, [], ◌∷◌, ◌++◌, reverse, some, nat_eq, string_eq,
  ◌==◌,
}
use framekit.Base.{contains}
use framekit.Base.Calls.{make_calls}
use framekit.Base.Assoc.{lookup, insert}
use framekit.Kernel.Actions.{advance, call_outside}
use framekit.Lifecycle.{new_machine, transition_to}
use framekit.Lifecycle.History
use framekit.Events.{EventBus, EventContext}
use framekit.Events.Dispatch.{Reaction}
use framekit.Services.{
  ServiceKey, ServiceEntry, register_default_bootstrap_services, register, store, new_context,
  freeze,
}
use framekit.Modules.{
  ModuleSpec, adjacent, build_adjacency, collect_ids, collect_ready, count_dependencies,
  count_indegrees, decrement, finish_order, first_frontier, increment, insert_rising,
  module_dependencies, order_graph, order_loop, release, set_insert, validate_dependencies,
  validate_dependency, validate_known, validate_module_graph,
}
use framekit.Modules.Startup.{IsStartup}
use framekit.Kernel.{
  Kernel, CallbackStep, ModuleLifecyclePhase, start, new_kernel, configure_modules,
  set_module_lifecycle_handler, fault,
}
use framekit.Kernel.Startup.{
  start_kernel, start_modules, default_bootstrap, freeze_services, execute_module_startup_sequence,
  clear_fault_reason,
}
use framekit.Kernel.Shutdown.{stop_kernel, execute_shutdown_sequence}
use framekit.Kernel.Ends.{InState}
use framekit.Kernel.Begin.{Begins, start_modules-Begins}
use framekit.Kernel.Calls.{shutdown_calls, torn_down, step_names, execute_shutdown_sequence-calls}
use framekit.Kernel.Client.{
  Phase, idle, state_of, Walk, use_modules, on_module_lifecycle, do_start, do_stop, perform_all,
  kernel-Refines,
}
use framekit.Kernel.Cycle.{start-stop_order}

-- A service, a handler and a payload are numbers; the world is the list of the modules called.
abbrev Sample : Type 0
Sample = Kernel ℕ ℕ ℕ (List String)

abbrev ignore : ℕ → EventContext ℕ → EventBus ℕ ℕ → List String → Reaction ℕ ℕ (List String)
ignore n context b w = record { consumes = false; payload = context.payload; bus = b; world = w }

abbrev in_order : List (ServiceKey × ServiceEntry ℕ) → List (ServiceKey × ServiceEntry ℕ)
in_order entries = entries

-- The module "b" fails to start.
abbrev noting : (fails : String) → String → ModuleLifecyclePhase → CallbackStep ℕ ℕ ℕ (List String)
noting fails id start o = (record o { world = o.world ++ id ∷ [] }, not (id == fails))
noting fails id _ o = (record o { world = o.world ++ id ∷ [] }, true)

-- The module "ui" needs "log".
abbrev two_modules : List ModuleSpec
two_modules =
    record { id = "ui"; required_dependencies = "log" ∷ []; optional_dependencies = [] }
    ∷ record { id = "log"; required_dependencies = []; optional_dependencies = [] }
    ∷ []

abbrev fresh : Sample
fresh = set_module_lifecycle_handler (new_kernel []) (some (noting "none"))

fresh-idle : InState (state_of idle) fresh.lifecycle
unfolding new_kernel set_module_lifecycle_handler new_machine
fresh-idle = record { state = refl; trail = History.start }

kernel-Refines_example :
    let (k, seen) =
      perform_all
        (1, 1)
        (2, 2)
        (3, 3)
        ignore
        in_order
        (on_module_lifecycle (some (noting "none"))
          ∷ use_modules two_modules
          ∷ do_start
          ∷ do_stop
          ∷ [])
        (new_kernel [], []) in
    (p : Phase) × Walk idle seen p × InState (state_of p) k.lifecycle
kernel-Refines_example =
    kernel-Refines (1, 1) (2, 2) (3, 3) ignore in_order
      (on_module_lifecycle (some (noting "none"))
        ∷ use_modules two_modules
        ∷ do_start
        ∷ do_stop
        ∷ [])
      []

start_modules-Begins_example :
    Begins
      (noting "b")
      ("a" ∷ "b" ∷ "c" ∷ [])
      fresh
      (start_modules (noting "b") ("a" ∷ "b" ∷ "c" ∷ []) fresh)
start_modules-Begins_example = start_modules-Begins (noting "b") ("a" ∷ "b" ∷ "c" ∷ []) fresh

start_fails : (start_modules (noting "b") ("a" ∷ "b" ∷ "c" ∷ []) fresh).0.started_modules ≡ "a" ∷ []
unfolding start_modules new_kernel set_module_lifecycle_handler
start_fails = refl

abbrev busy : Sample
busy = record fresh { started_modules = "log" ∷ "ui" ∷ [] }

execute_shutdown_sequence-calls_example :
    let (k', done) = execute_shutdown_sequence ignore in_order busy in
    let order = reverse busy.started_modules in
    ((k'.outside, done) ≡ make_calls (shutdown_calls ignore in_order busy) busy.outside)
    × (k'.last_module_shutdown_order ≡ order)
    × (k'.last_module_teardown_order ≡ torn_down busy.module_lifecycle_handler order)
    × (k'.last_platform_teardown_order ≡ step_names busy.platform_teardown_steps)
    × (k'.started_modules ≡ [])
execute_shutdown_sequence-calls_example = execute_shutdown_sequence-calls ignore in_order busy

abbrev with_modules : Sample
with_modules = (configure_modules fresh two_modules).0

starts : (start_kernel (1, 1) (2, 2) (3, 3) with_modules).1 ≡ true
unfolding start_kernel advance transition_to configure_modules set_module_lifecycle_handler
    new_kernel new_machine call_outside default_bootstrap register_default_bootstrap_services
    register store new_context lookup insert freeze_services freeze execute_module_startup_sequence
    contains clear_fault_reason start_modules fault adjacent build_adjacency collect_ids
    collect_ready count_dependencies count_indegrees decrement finish_order first_frontier increment
    insert_rising module_dependencies order_graph order_loop release set_insert
    validate_dependencies validate_dependency validate_known validate_module_graph
starts = refl

start-stop_order_example :
    let k₂ = (start_kernel (1, 1) (2, 2) (3, 3) with_modules).0 in
    let k₃ = (stop_kernel ignore in_order k₂).0 in
    IsStartup two_modules k₂.last_module_startup_order
    × (k₂.started_modules ≡ k₂.last_module_startup_order)
    × (k₃.outside.world ≡ (make_calls (shutdown_calls ignore in_order k₂) k₂.outside).0.world)
    × (k₃.last_module_shutdown_order ≡ reverse k₂.last_module_startup_order)
start-stop_order_example =
    start-stop_order ignore in_order (1, 1) (2, 2) (3, 3) idle fresh two_modules fresh-idle starts
