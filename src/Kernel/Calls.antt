-- ===== src/Kernel/Calls.antt =====
-- The calls that `ExecuteShutdownSequence` makes, and what it records of them.
use mathlib.Core.List.{append_assoc, append-nil}
use mathlib.Core.Path.{fun_ext}
use framekit.Base.{
  ℕ, ◌≡◌, refl, sym, ap, ◌∙◌, Bool, true, false, not, ◌||◌, String, List, [], ◌∷◌, ◌++◌, reverse,
  Option, none, some, arith,
}
use framekit.Base.Calls.{make_calls, make_calls-append}
use framekit.Events.{EventBus, EventContext, discard_deferred}
use framekit.Events.Dispatch.{Reaction, drain_deferred}
use framekit.Services.{ServiceKey, ServiceEntry, begin_teardown}
use framekit.Kernel.{
  Kernel, Outside, CallbackStep, ShutdownDeferredEventPolicy, drain_all, drain_bounded,
  discard_with_diagnostics, ModuleLifecyclePhase, stop, teardown, NamedTeardownStep,
}
use framekit.Kernel.Actions.{run_step}
use framekit.Kernel.Shutdown.{
  ModuleShutdown, stop_module, stop_modules, PlatformTeardown, run_teardown_steps, flush,
  settle_deferred, settle_bus, tear_down_services, execute_shutdown_sequence,
}

module _ {S H P W : Type 0} where
  abbrev pub always : (Outside S H P W → Outside S H P W) → CallbackStep S H P W
  always f outside = (f outside, true)

  -- What stopping the modules calls: the lifecycle handler twice for each, or the stop handler.
  abbrev pub module_calls :
      Option (String → ModuleLifecyclePhase → CallbackStep S H P W)
      → Option (String → CallbackStep S H P W)
      → List String
      → List (CallbackStep S H P W)
  module_calls _ _ [] = []
  module_calls (some handler) stop_handler (id ∷ rest) =
      handler id stop ∷ handler id teardown ∷ module_calls (some handler) stop_handler rest
  module_calls none (some stop_handler) (id ∷ rest) =
      stop_handler id ∷ module_calls none (some stop_handler) rest
  module_calls none none (id ∷ rest) = module_calls none none rest

  -- The modules that are torn down: those that are stopped, if there is a lifecycle handler.
  abbrev pub torn_down :
      Option (String → ModuleLifecyclePhase → CallbackStep S H P W) → List String → List String
  torn_down none order = []
  torn_down (some handler) order = order

  record Stopped (handler : Option (String → ModuleLifecyclePhase → CallbackStep S H P W))
      (stop_handler : Option (String → CallbackStep S H P W)) (order : List String)
      (s : ModuleShutdown S H P W) (s' : ModuleShutdown S H P W) : Type 0 where
    outside : s'.outside ≡ (make_calls (module_calls handler stop_handler order) s.outside).0
    failure :
        s'.had_failure
        ≡ (s.had_failure || not (make_calls (module_calls handler stop_handler order) s.outside).1)
    shutdown_order : s'.shutdown_order ≡ s.shutdown_order ++ order
    teardown_order : s'.teardown_order ≡ s.teardown_order ++ torn_down handler order

  stop_modules-Stopped :
      (handler : Option (String → ModuleLifecyclePhase → CallbackStep S H P W))
      (stop_handler : Option (String → CallbackStep S H P W)) (order : List String)
      (s : ModuleShutdown S H P W)
      → Stopped handler stop_handler order s (stop_modules handler stop_handler order s)
  unfolding stop_modules
  stop_modules-Stopped none none [] s = record {
    outside = refl;
    failure = ground arith;
    shutdown_order = sym (append-nil s.shutdown_order);
    teardown_order = sym (append-nil s.teardown_order);
  }
  stop_modules-Stopped none (some h) [] s = record {
    outside = refl;
    failure = ground arith;
    shutdown_order = sym (append-nil s.shutdown_order);
    teardown_order = sym (append-nil s.teardown_order);
  }
  stop_modules-Stopped (some h) sh [] s = record {
    outside = refl;
    failure = ground arith;
    shutdown_order = sym (append-nil s.shutdown_order);
    teardown_order = sym (append-nil s.teardown_order);
  }
  stop_modules-Stopped (some handler) sh (id ∷ rest) s =
      let later = stop_module (some handler) sh id s in
      let h = stop_modules-Stopped (some handler) sh rest later in
      record {
        outside = h.outside;
        failure = ground (arith, h.failure);
        shutdown_order = h.shutdown_order ∙ append_assoc s.shutdown_order (id ∷ []) rest;
        teardown_order = h.teardown_order ∙ append_assoc s.teardown_order (id ∷ []) rest;
      }
  stop_modules-Stopped none (some sh) (id ∷ rest) s =
      let later = stop_module none (some sh) id s in
      let h = stop_modules-Stopped none (some sh) rest later in
      record {
        outside = h.outside;
        failure = ground (arith, h.failure);
        shutdown_order = h.shutdown_order ∙ append_assoc s.shutdown_order (id ∷ []) rest;
        teardown_order = h.teardown_order;
      }
  stop_modules-Stopped none none (id ∷ rest) s =
      let later = stop_module none none id s in
      let h = stop_modules-Stopped none none rest later in
      record {
        outside = h.outside;
        failure = h.failure;
        shutdown_order = h.shutdown_order ∙ append_assoc s.shutdown_order (id ∷ []) rest;
        teardown_order = h.teardown_order;
      }

  abbrev pub step_calls : List (NamedTeardownStep S H P W) → List (CallbackStep S H P W)
  step_calls [] = []
  step_calls (named ∷ rest) = run_step named.step ∷ step_calls rest

  abbrev pub step_names : List (NamedTeardownStep S H P W) → List String
  step_names [] = []
  step_names (named ∷ rest) = named.name ∷ step_names rest

  record TornDown (steps : List (NamedTeardownStep S H P W)) (t t' : PlatformTeardown S H P W)
      : Type 0 where
    outside : t'.outside ≡ (make_calls (step_calls steps) t.outside).0
    failure : t'.had_failure ≡ (t.had_failure || not (make_calls (step_calls steps) t.outside).1)
    order : t'.order ≡ t.order ++ step_names steps

  run_teardown_steps-TornDown :
      (steps : List (NamedTeardownStep S H P W)) (t : PlatformTeardown S H P W)
      → TornDown steps t (run_teardown_steps steps t)
  unfolding run_teardown_steps
  run_teardown_steps-TornDown [] t = record {
    outside = refl;
    failure = ground arith;
    order = sym (append-nil t.order);
  }
  run_teardown_steps-TornDown (named ∷ rest) t =
      let (outside, done) = run_step named.step t.outside in
      let h = run_teardown_steps-TornDown rest (record {
        outside = outside;
        order = t.order ++ named.name ∷ [];
        had_failure = t.had_failure || not done;
      }) in
      record {
        outside = h.outside;
        failure = ground (arith, h.failure);
        order = h.order ∙ append_assoc t.order (named.name ∷ []) (step_names rest);
      }

  -- The flush of the diagnostics, if there is one.
  abbrev pub flush_calls : Option (Outside S H P W → Outside S H P W) → List (CallbackStep S H P W)
  flush_calls none = []
  flush_calls (some step) = always step ∷ []

  -- The results of the parts of a shutdown, put together.
  joined :
      (modules steps : List (CallbackStep S H P W)) (settle : Outside S H P W → Outside S H P W)
      (flush_step : Option (Outside S H P W → Outside S H P W)) (services : CallbackStep S H P W)
      (o o₁ o₂ : Outside S H P W) (failed₁ failed₂ : Bool)
      → o₁ ≡ (make_calls modules o).0
      → failed₁ ≡ not (make_calls modules o).1
      → o₂ ≡ (make_calls steps (settle o₁)).0
      → failed₂ ≡ (failed₁ || not (make_calls steps (settle o₁)).1)
      → (flush flush_step (services o₂).0, not (failed₂ || not (services o₂).1))
        ≡ make_calls (modules ++ (always settle ∷ (steps ++ services ∷ flush_calls flush_step))) o
  joined modules steps settle none services o o₁ o₂ failed₁ failed₂ h₁ f₁ h₂ f₂ = ground (
    arith,
    make_calls-append modules (always settle ∷ (steps ++ services ∷ [])) o,
    make_calls-append steps (services ∷ []) (settle o₁),
  )
  joined modules steps settle (some last) services o o₁ o₂ failed₁ failed₂ h₁ f₁ h₂ f₂ = ground (
    arith,
    make_calls-append modules (always settle ∷ (steps ++ services ∷ always last ∷ [])) o,
    make_calls-append steps (services ∷ always last ∷ []) (settle o₁),
  )

  module _ (invoke : H → EventContext P → EventBus H P → W → Reaction H P W)
      (visit : List (ServiceKey × ServiceEntry S) → List (ServiceKey × ServiceEntry S)) where
    -- What becomes of the deferred events of a bus: they are drained, all of them or as many as
    -- the limit says, or discarded.
    abbrev pub settled :
        ShutdownDeferredEventPolicy
        → (limit : ℕ) → Option (EventBus H P)
        → Outside S H P W
        → Outside S H P W
    settled policy limit none o = o
    settled drain_all limit (some bus) o =
        let (bus', w, count) = drain_deferred invoke bus o.world 18446744073709551615 in
        record o { event_bus = some bus'; world = w }
    settled drain_bounded limit (some bus) o =
        let (bus', w, count) = drain_deferred invoke bus o.world limit in
        record o { event_bus = some bus'; world = w }
    settled discard_with_diagnostics limit (some bus) o = record o {
      event_bus = some (discard_deferred bus).0;
    }

    settle_bus-settled :
        (policy : ShutdownDeferredEventPolicy) (limit : ℕ) (o : Outside S H P W)
        (bus : EventBus H P)
        → settle_bus invoke policy limit o bus ≡ settled policy limit (some bus) o
    settle_bus-settled drain_all limit o bus = refl
    settle_bus-settled drain_bounded limit o bus = refl
    settle_bus-settled discard_with_diagnostics limit o bus = refl

    settle-settled :
        (policy : ShutdownDeferredEventPolicy) (limit : ℕ) (o : Outside S H P W)
        → settle_deferred invoke policy limit o ≡ settled policy limit o.event_bus o
    unfolding settle_deferred
    settle-settled policy limit o =
        elim o.event_bus
          as (λ found.
            ◌≡◌ {A = Outside S H P W}
              (elim found [ none ↦ o | some bus ↦ settle_bus invoke policy limit o bus ])
              (settled policy limit found o)) [
                | none ↦ refl
                | some bus ↦ settle_bus-settled policy limit o bus
              ]

    -- The teardown of the services, with the entries visited in some order.
    abbrev pub services_torn_down : CallbackStep S H P W
    services_torn_down o =
        let (services, done) = begin_teardown o.services (visit o.services.entries) in
        (record o { services = services }, done)

    -- What a shutdown calls, in order: the modules that were started, the latest first, then the
    -- deferred events, the platform's steps, the services and the flush of the diagnostics.
    abbrev pub shutdown_calls : Kernel S H P W → List (CallbackStep S H P W)
    shutdown_calls k =
        module_calls k.module_lifecycle_handler k.module_stop_handler (reverse k.started_modules)
        ++ (always
              (λ o. settled k.deferred_event_policy k.deferred_event_bounded_limit o.event_bus o)
            ∷ (step_calls k.platform_teardown_steps
                ++ services_torn_down ∷ flush_calls k.diagnostics_flush_step))

    -- A shutdown makes all its calls in their order, whichever of them fail, and succeeds exactly
    -- if all of them do. It records the started modules in reverse order as shut down, and as torn
    -- down if there is a lifecycle handler, and the platform's steps in their order. No module is
    -- started afterwards.
    pub execute_shutdown_sequence-calls :
        (k : Kernel S H P W)
        → let (k', done) = execute_shutdown_sequence invoke visit k in
          let order = reverse k.started_modules in
          ((k'.outside, done) ≡ make_calls (shutdown_calls k) k.outside)
          × (k'.last_module_shutdown_order ≡ order)
          × (k'.last_module_teardown_order ≡ torn_down k.module_lifecycle_handler order)
          × (k'.last_platform_teardown_order ≡ step_names k.platform_teardown_steps)
          × (k'.started_modules ≡ [])
    unfolding execute_shutdown_sequence tear_down_services
    execute_shutdown_sequence-calls k =
        let order = reverse k.started_modules in
        let s : ModuleShutdown S H P W = record {
          outside = k.outside;
          shutdown_order = [];
          teardown_order = [];
          had_failure = false;
        } in
        let m = stop_modules-Stopped k.module_lifecycle_handler k.module_stop_handler order s in
        let s' = stop_modules k.module_lifecycle_handler k.module_stop_handler order s in
        let t : PlatformTeardown S H P W = record {
          outside =
              settle_deferred invoke k.deferred_event_policy k.deferred_event_bounded_limit
                s'.outside;
          order = [];
          had_failure = s'.had_failure;
        } in
        let p = run_teardown_steps-TornDown k.platform_teardown_steps t in
        (
          joined (module_calls k.module_lifecycle_handler k.module_stop_handler order)
                (step_calls k.platform_teardown_steps)
                (settle_deferred invoke k.deferred_event_policy k.deferred_event_bounded_limit)
                k.diagnostics_flush_step (tear_down_services visit) k.outside s'.outside
                (run_teardown_steps k.platform_teardown_steps t).outside s'.had_failure
                (run_teardown_steps k.platform_teardown_steps t).had_failure m.outside m.failure
                p.outside p.failure
              ∙ ap
                  (λ (settle : Outside S H P W → Outside S H P W).
                    make_calls
                      (module_calls k.module_lifecycle_handler k.module_stop_handler order
                        ++ (always settle
                            ∷ (step_calls k.platform_teardown_steps
                                ++ services_torn_down ∷ flush_calls k.diagnostics_flush_step)))
                      k.outside)
                  (fun_ext (settle-settled k.deferred_event_policy k.deferred_event_bounded_limit)),
          m.shutdown_order,
          m.teardown_order,
          p.order,
          refl,
        )
