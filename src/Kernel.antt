-- ===== src/Kernel.antt =====
-- `KernelRuntime`: include/framekit/kernel/runtime.hpp, src/kernel_runtime.cpp.
-- What the kernel calls (the steps and handlers that are set) is a parameter: it may change the
-- service context, the bus and the world, but it does not call the kernel back.
pub mod Actions
pub mod Startup
pub mod Shutdown
pub mod Ends
pub mod Phases
pub mod Client
pub mod Calls
pub mod Begin
pub mod Order
pub mod Cycle
use framekit.Base.{
  ℕ, Bool, true, false, not, ◌&&◌, ◌||◌, String, concat, List, [], ◌∷◌, ◌++◌, reverse, Option, none,
  some, is_blank, if◌then◌else◌,
}
use framekit.Lifecycle.{
  LifecycleState, bootstrapping, initializing, running, stopping, stopped, faulted, same_state,
  LifecycleStateMachine, new_machine, transition_to,
}
use framekit.Events.{EventBus, EventContext}
use framekit.Services.{ServiceContext, new_context}
use framekit.Modules.{ModuleSpec, ModuleGraphValidationResult, validate_module_graph}

pub data ShutdownDeferredEventPolicy : Type 0 where
  drain_all drain_bounded discard_with_diagnostics : ShutdownDeferredEventPolicy

pub data ModuleLifecyclePhase : Type 0 where
  initialize start stop teardown : ModuleLifecyclePhase

-- What the kernel shares with what it calls: its services, the bus behind its pointer, and the rest
-- of the program.
pub record Outside (S H P W : Type 0) : Type 0 where
  pub services : ServiceContext S
  pub event_bus : Option (EventBus H P)
  pub world : W

abbrev pub CallbackStep : (S H P W : Type 0) → Type 0
CallbackStep S H P W = Outside S H P W → Outside S H P W × Bool

pub record NamedTeardownStep (S H P W : Type 0) : Type 0 where
  pub name : String
  pub step : Option (CallbackStep S H P W)

-- An empty `std::function` is `none`.
pub record Kernel (S H P W : Type 0) : Type 0 where
  pub lifecycle : LifecycleStateMachine
  pub outside : Outside S H P W
  pub bootstrap_step : Option (CallbackStep S H P W)
  pub initialize_step : Option (CallbackStep S H P W)
  pub module_stop_handler : Option (String → CallbackStep S H P W)
  pub module_lifecycle_handler : Option (String → ModuleLifecyclePhase → CallbackStep S H P W)
  pub diagnostics_flush_step : Option (Outside S H P W → Outside S H P W)
  pub deferred_event_policy : ShutdownDeferredEventPolicy
  pub deferred_event_bounded_limit : ℕ
  pub started_modules : List String
  pub configured_module_startup_order : List String
  pub last_module_startup_order : List String
  pub last_module_shutdown_order : List String
  pub last_module_teardown_order : List String
  pub modules_configured : Bool
  pub module_graph_validation : ModuleGraphValidationResult
  pub platform_teardown_steps : List (NamedTeardownStep S H P W)
  pub last_platform_teardown_order : List String
  pub last_fault_reason : String

module _ {S H P W : Type 0} where
  unfoldable pub new_kernel : W → Kernel S H P W
  new_kernel w = record {
    lifecycle = new_machine;
    outside = record { services = new_context; event_bus = none; world = w };
    bootstrap_step = none;
    initialize_step = none;
    module_stop_handler = none;
    module_lifecycle_handler = none;
    diagnostics_flush_step = none;
    deferred_event_policy = drain_all;
    deferred_event_bounded_limit = 0;
    started_modules = [];
    configured_module_startup_order = [];
    last_module_startup_order = [];
    last_module_shutdown_order = [];
    last_module_teardown_order = [];
    modules_configured = false;
    module_graph_validation = record {
      valid = false;
      base_order = [];
      startup_order = [];
      errors = [];
    };
    platform_teardown_steps = [];
    last_platform_teardown_order = [];
    last_fault_reason = "";
  }

  unfoldable pub set_bootstrap_step :
      Kernel S H P W → Option (CallbackStep S H P W) → Kernel S H P W
  set_bootstrap_step k step = record k { bootstrap_step = step }

  unfoldable pub set_initialize_step :
      Kernel S H P W → Option (CallbackStep S H P W) → Kernel S H P W
  set_initialize_step k step = record k { initialize_step = step }

  unfoldable pub set_module_stop_handler :
      Kernel S H P W → Option (String → CallbackStep S H P W) → Kernel S H P W
  set_module_stop_handler k handler = record k { module_stop_handler = handler }

  unfoldable pub set_module_lifecycle_handler :
      Kernel S H P W
      → Option (String → ModuleLifecyclePhase → CallbackStep S H P W)
      → Kernel S H P W
  set_module_lifecycle_handler k handler = record k { module_lifecycle_handler = handler }

  unfoldable pub set_diagnostics_flush_step :
      Kernel S H P W → Option (Outside S H P W → Outside S H P W) → Kernel S H P W
  set_diagnostics_flush_step k step = record k { diagnostics_flush_step = step }

  unfoldable pub set_event_bus : Kernel S H P W → Option (EventBus H P) → Kernel S H P W
  set_event_bus k bus = record k { outside = record (k.outside) { event_bus = bus } }

  unfoldable pub set_shutdown_deferred_event_policy :
      Kernel S H P W → ShutdownDeferredEventPolicy → ℕ → Kernel S H P W
  set_shutdown_deferred_event_policy k policy bounded_limit = record k {
    deferred_event_policy = policy;
    deferred_event_bounded_limit = bounded_limit;
  }

  unfoldable pub add_platform_teardown_step :
      Kernel S H P W → String → Option (CallbackStep S H P W) → Kernel S H P W
  add_platform_teardown_step k name step = record k {
    platform_teardown_steps = k.platform_teardown_steps ++ record { name = name; step = step } ∷ [];
  }

  unfoldable pub record_started_modules : Kernel S H P W → List String → Kernel S H P W
  record_started_modules k startup_order = record k {
    started_modules = startup_order;
    last_module_startup_order = startup_order;
  }

  unfoldable pub configure_modules : Kernel S H P W → List ModuleSpec → Kernel S H P W × Bool
  configure_modules k modules =
      let validation = validate_module_graph modules in
      (
        record k {
          modules_configured = true;
          module_graph_validation = validation;
          configured_module_startup_order =
              if validation.valid then validation.startup_order else [];
        },
        validation.valid,
      )

  unfoldable pub fault : Kernel S H P W → String → Kernel S H P W
  fault k reason = record k {
    last_fault_reason = reason;
    lifecycle =
        if not (same_state k.lifecycle.state faulted)
        then (transition_to k.lifecycle faulted).0
        else k.lifecycle;
  }
