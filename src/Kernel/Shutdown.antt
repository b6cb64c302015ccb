-- ===== src/Kernel/Shutdown.antt =====
-- `Stop` and `ExecuteShutdownSequence`.
use framekit.Base.{
  ℕ, Bool, true, false, not, ◌||◌, String, List, [], ◌∷◌, ◌++◌, reverse, Option, none, some,
  if◌then◌else◌,
}
use framekit.Lifecycle.{stopping, stopped, same_state}
use framekit.Events.{EventBus, EventContext, discard_deferred}
use framekit.Events.Dispatch.{Reaction, drain_deferred}
use framekit.Services.{ServiceKey, ServiceEntry, begin_teardown, reset_for_next_start_cycle}
use framekit.Kernel.{
  Outside, CallbackStep, ModuleLifecyclePhase, stop, teardown, NamedTeardownStep,
  ShutdownDeferredEventPolicy, drain_all, drain_bounded, discard_with_diagnostics,
}
use framekit.Kernel.Actions.{Action, ◌>>◌, or_fault, advance, run_step}

-- The variables of the loop over the started modules.
pub record ModuleShutdown (S H P W : Type 0) : Type 0 where
  pub outside : Outside S H P W
  pub shutdown_order : List String
  pub teardown_order : List String
  pub had_failure : Bool

-- Those of the loop over the platform's steps.
pub record PlatformTeardown (S H P W : Type 0) : Type 0 where
  pub outside : Outside S H P W
  pub order : List String
  pub had_failure : Bool

module _ {S H P W : Type 0} where
  unfoldable pub stop_module :
      Option (String → ModuleLifecyclePhase → CallbackStep S H P W)
      → Option (String → CallbackStep S H P W)
      → String
      → ModuleShutdown S H P W
      → ModuleShutdown S H P W
  stop_module (some handler) stop_handler module_id s =
      let (after_stop, has_stopped) = handler module_id stop s.outside in
      let (after_teardown, torn_down) = handler module_id teardown after_stop in
      record {
        outside = after_teardown;
        shutdown_order = s.shutdown_order ++ module_id ∷ [];
        teardown_order = s.teardown_order ++ module_id ∷ [];
        had_failure = s.had_failure || (not has_stopped || not torn_down);
      }
  stop_module none (some stop_handler) module_id s =
      let (after_stop, has_stopped) = stop_handler module_id s.outside in
      record s {
        outside = after_stop;
        shutdown_order = s.shutdown_order ++ module_id ∷ [];
        had_failure = s.had_failure || not has_stopped;
      }
  stop_module none none module_id s = record s {
    shutdown_order = s.shutdown_order ++ module_id ∷ [];
  }

  unfoldable pub stop_modules :
      Option (String → ModuleLifecyclePhase → CallbackStep S H P W)
      → Option (String → CallbackStep S H P W)
      → List String
      → ModuleShutdown S H P W
      → ModuleShutdown S H P W
  unfolding stop_module
  stop_modules handler stop_handler [] s = s
  stop_modules handler stop_handler (module_id ∷ rest) s =
      stop_modules handler stop_handler rest (stop_module handler stop_handler module_id s)

  unfoldable pub run_teardown_steps :
      List (NamedTeardownStep S H P W) → PlatformTeardown S H P W → PlatformTeardown S H P W
  run_teardown_steps [] t = t
  run_teardown_steps (named ∷ rest) t =
      let (outside, done) = run_step named.step t.outside in
      run_teardown_steps rest (record {
        outside = outside;
        order = t.order ++ named.name ∷ [];
        had_failure = t.had_failure || not done;
      })

  abbrev pub flush : Option (Outside S H P W → Outside S H P W) → Outside S H P W → Outside S H P W
  flush none outside = outside
  flush (some step) outside = step outside

  unfoldable pub reset_services : Action S H P W
  reset_services k = (
    record k {
      outside = record (k.outside) { services = (reset_for_next_start_cycle k.outside.services).0 };
    },
    true,
  )

  -- `invoke` is what the handlers of the bus do; `visit` is the order in which the unordered map of
  -- the services is visited.
  module _ (invoke : H → EventContext P → EventBus H P → W → Reaction H P W) where
    abbrev pub drain_bus : Outside S H P W → EventBus H P → ℕ → Outside S H P W
    drain_bus outside bus max_events =
        let (bus', world, count) = drain_deferred invoke bus outside.world max_events in
        record outside { event_bus = some bus'; world = world }

    abbrev pub settle_bus :
        ShutdownDeferredEventPolicy
        → (bounded_limit : ℕ) → Outside S H P W
        → EventBus H P
        → Outside S H P W
    settle_bus drain_all bounded_limit outside bus = drain_bus outside bus 18446744073709551615
    settle_bus drain_bounded bounded_limit outside bus = drain_bus outside bus bounded_limit
    settle_bus discard_with_diagnostics bounded_limit outside bus = record outside {
      event_bus = some (discard_deferred bus).0;
    }

    unfoldable pub settle_deferred :
        ShutdownDeferredEventPolicy → (bounded_limit : ℕ) → Outside S H P W → Outside S H P W
    settle_deferred policy bounded_limit outside = elim outside.event_bus [
      | none ↦ outside
      | some bus ↦ settle_bus policy bounded_limit outside bus
    ]

  unfoldable pub tear_down_services :
      (visit : List (ServiceKey × ServiceEntry S) → List (ServiceKey × ServiceEntry S))
      → CallbackStep S H P W
  tear_down_services visit outside =
      let (services, done) = begin_teardown outside.services (visit outside.services.entries) in
      (record outside { services = services }, done)

  module _ (invoke : H → EventContext P → EventBus H P → W → Reaction H P W)
      (visit : List (ServiceKey × ServiceEntry S) → List (ServiceKey × ServiceEntry S)) where
    unfoldable pub execute_shutdown_sequence : Action S H P W
    execute_shutdown_sequence k =
        let modules =
          stop_modules k.module_lifecycle_handler k.module_stop_handler (reverse k.started_modules)
            (record {
              outside = k.outside;
              shutdown_order = [];
              teardown_order = [];
              had_failure = false;
            }) in
        let platform = run_teardown_steps k.platform_teardown_steps (record {
          outside =
              settle_deferred invoke k.deferred_event_policy k.deferred_event_bounded_limit
                modules.outside;
          order = [];
          had_failure = modules.had_failure;
        }) in
        let (torn_down, done) = tear_down_services visit platform.outside in
        (
          record k {
            outside = flush k.diagnostics_flush_step torn_down;
            started_modules = [];
            last_module_shutdown_order = modules.shutdown_order;
            last_module_teardown_order = modules.teardown_order;
            last_platform_teardown_order = platform.order;
          },
          not (platform.had_failure || not done),
        )

    unfoldable pub stop_running : Action S H P W
    stop_running = do
      or_fault "invalid transition into Stopping" (advance stopping)
      or_fault "shutdown sequence failed" execute_shutdown_sequence
      or_fault "invalid transition into Stopped" (advance stopped)
      reset_services

    unfoldable pub stop_kernel : Action S H P W
    unfolding stop_running
    stop_kernel k = if same_state k.lifecycle.state stopped then (k, true) else stop_running k
