-- ===== src/Kernel/Phases.antt =====
-- In which state `Start` and `Stop` leave the lifecycle machine.
use framekit.Base.{
  ℕ, ◌≡◌, refl, sym, subst, Bool, true, false, not, String, List, [], ◌∷◌, Option, none, some,
  is_empty, if_cases,
}
use framekit.Lifecycle.{
  LifecycleState, bootstrapping, initializing, running, stopping, stopped, faulted,
  is_legal_transition, LifecycleStateMachine, transition_to,
}
use framekit.Lifecycle.Graph
use framekit.Lifecycle.Graph.{◌⟶◌}
use framekit.Events.{EventBus, EventContext}
use framekit.Events.Dispatch.{Reaction}
use framekit.Services.{ServiceKey, ServiceEntry}
use framekit.Kernel.{Kernel, CallbackStep, ModuleLifecyclePhase, initialize, start}
use framekit.Kernel.Actions.{Action, or_fault, advance, run_step, call_outside}
use framekit.Kernel.Startup.{
  module_started, start_modules, start_configured, execute_module_startup_sequence,
  startup_or_fault, startup_failed_with, freeze_services, clear_fault_reason, bootstrap_with,
  start_kernel,
}
use framekit.Kernel.Shutdown.{execute_shutdown_sequence, reset_services, stop_running}
use framekit.Kernel.Ends.{
  InState, At, Outcome, Ends, Ends-never, Ends-seq, Ends-or_fault, fault-At, advance-At,
  unchanged-At,
}

no_boot :
    (m : LifecycleStateMachine)
    → InState running m
    → is_legal_transition m.state bootstrapping ≡ false
unfolding is_legal_transition
no_boot m h = subst (λ x. is_legal_transition x bootstrapping ≡ false) (sym h.state) refl

module _ {S H P W : Type 0} where
  abbrev SameLifecycle : Kernel S H P W → Kernel S H P W × Bool → Type 0
  SameLifecycle k r = r.0.lifecycle ≡ k.lifecycle

  start_modules-lifecycle :
      (handler : String → ModuleLifecyclePhase → CallbackStep S H P W) (order : List String)
      (k : Kernel S H P W)
      → SameLifecycle k (start_modules handler order k)
  unfolding start_modules
  start_modules-lifecycle handler [] k = refl
  start_modules-lifecycle handler (id ∷ rest) k =
      let (after_initialize, initialized) = handler id initialize k.outside in
      let (after_start, has_started) = handler id start after_initialize in
      if_cases (SameLifecycle k) (not initialized) (λ _. refl)
        (λ _.
          if_cases (SameLifecycle k) (not has_started) (λ _. refl)
            (λ _. start_modules-lifecycle handler rest (module_started k id after_start)))

  start_configured-lifecycle :
      (handler : Option (String → ModuleLifecyclePhase → CallbackStep S H P W)) (k : Kernel S H P W)
      → SameLifecycle k (start_configured handler k)
  start_configured-lifecycle none k = refl
  start_configured-lifecycle (some handler) k =
      start_modules-lifecycle handler k.configured_module_startup_order
        (record k { started_modules = [] })

  sequence-lifecycle : (k : Kernel S H P W) → SameLifecycle k (execute_module_startup_sequence k)
  unfolding execute_module_startup_sequence
  sequence-lifecycle k =
      if_cases (SameLifecycle k) k.modules_configured
        (λ _.
          if_cases (SameLifecycle k) (not k.module_graph_validation.valid) (λ _. refl)
            (λ _.
              start_configured-lifecycle k.module_lifecycle_handler
                (record k { last_module_startup_order = [] })))
        (λ _.
          if_cases (λ (k' : Kernel S H P W). k'.lifecycle ≡ k.lifecycle)
            (not (is_empty k.started_modules)) (λ _. refl) (λ _. refl))

  call_outside-lifecycle :
      (step : CallbackStep S H P W) (k : Kernel S H P W) → SameLifecycle k (call_outside step k)
  unfolding call_outside
  call_outside-lifecycle step k = refl

  faulting :
      (s : LifecycleState) (reason : String) (a : Action S H P W)
      → s ⟶ faulted
      → ((k : Kernel S H P W) → SameLifecycle k (a k))
      → Ends (or_fault reason a) (At s) (At s) (At faulted)
  faulting s reason a edge same =
      Ends-or_fault reason (fault-At s edge reason) (unchanged-At s a same)

  moving :
      (s t : LifecycleState) (reason : String)
      → s ⟶ t
      → Ends {S = S} {H = H} {P = P} {W = W}
          (or_fault reason (advance t))
          (At s)
          (At t)
          (At faulted)
  moving s t reason edge = Ends-or_fault reason (λ k h. absurd h) (advance-At s t edge)

  startup_faulting :
      Ends
        (startup_or_fault execute_module_startup_sequence)
        (At initializing)
        (At initializing)
        (At {S = S} {H = H} {P = P} {W = W} faulted)
  startup_faulting = record {
    at = λ k h.
        after (execute_module_startup_sequence k)
          ((unchanged-At initializing execute_module_startup_sequence sequence-lifecycle).at k h);
  }
    where
      after :
          (r : Kernel S H P W × Bool)
          → Outcome (At initializing) (At initializing) r
          → Outcome (At initializing) (At faulted) (startup_failed_with r)
      after (k, true) h = h
      after (k, false) h = fault-At initializing Graph.fail_initialize _ k h

  cleared :
      Ends clear_fault_reason (At running) (At running) (At {S = S} {H = H} {P = P} {W = W} faulted)
  unfolding clear_fault_reason
  cleared = record { at = λ k h. h }

  reset : Ends reset_services (At stopped) (At stopped) (At {S = S} {H = H} {P = P} {W = W} faulted)
  unfolding reset_services
  reset = record { at = λ k h. h }

  advance-refused : (k : Kernel S H P W) → At running k → advance bootstrapping k ≡ (k, false)
  unfolding advance transition_to
  advance-refused k h = rw (no_boot k.lifecycle h)

  module _ (diagnostics configuration timing : S × ℕ) where
    -- From a state in which it may boot, `Start` ends in `running` or, if it fails, in `faulted`.
    pub start_kernel-Ends :
        (s : LifecycleState)
        → s ⟶ bootstrapping
        → Ends {S = S} {H = H} {P = P} {W = W}
            (start_kernel diagnostics configuration timing)
            (At s)
            (At running)
            (At faulted)
    unfolding start_kernel
    start_kernel-Ends s edge = record {
      at = λ k h.
          (Ends-seq (Ends-never (advance-At s bootstrapping edge)) (
              Ends-seq
                (faulting bootstrapping "kernel bootstrap step failed"
                  (call_outside (bootstrap_with diagnostics configuration timing k.bootstrap_step))
                  Graph.fail_boot (call_outside-lifecycle _))
                (Ends-seq
                  (moving bootstrapping initializing "invalid transition into Initializing"
                    Graph.initialize)
                  (Ends-seq
                    (faulting initializing "kernel initialize step failed"
                      (call_outside (run_step k.initialize_step)) Graph.fail_initialize
                      (call_outside-lifecycle _))
                    (Ends-seq
                      (faulting initializing "service context freeze failed"
                        (call_outside freeze_services) Graph.fail_initialize
                        (call_outside-lifecycle _))
                      (Ends-seq startup_faulting (
                        Ends-seq
                          (moving initializing running "invalid transition into Running" Graph.run)
                          cleared))))))).at
            k h;
    }

    pub start_kernel-running :
        (k : Kernel S H P W)
        → At running k
        → start_kernel diagnostics configuration timing k ≡ (k, false)
    unfolding start_kernel
    start_kernel-running k h = rw (advance-refused k h)

  module _ (invoke : H → EventContext P → EventBus H P → W → Reaction H P W)
      (visit : List (ServiceKey × ServiceEntry S) → List (ServiceKey × ServiceEntry S)) where
    execute_shutdown_sequence-lifecycle :
        (k : Kernel S H P W) → SameLifecycle k (execute_shutdown_sequence invoke visit k)
    unfolding execute_shutdown_sequence
    execute_shutdown_sequence-lifecycle k = refl

    -- From a state in which it may stop, `Stop` ends in `stopped` or, if it fails, in `faulted`.
    pub stop_running-Ends :
        (s : LifecycleState)
        → s ⟶ stopping
        → Ends (stop_running invoke visit) (At s) (At stopped) (At faulted)
    unfolding stop_running
    stop_running-Ends s edge =
        Ends-seq (moving s stopping "invalid transition into Stopping" edge) (
          Ends-seq
            (faulting stopping "shutdown sequence failed" (execute_shutdown_sequence invoke visit)
              Graph.fail_stop execute_shutdown_sequence-lifecycle)
            (Ends-seq (moving stopping stopped "invalid transition into Stopped" Graph.finish)
              reset))
