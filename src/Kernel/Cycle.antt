-- ===== src/Kernel/Cycle.antt =====
-- A cycle of the kernel: modules are configured, the kernel starts, and it stops.
use framekit.Base.{
  ℕ, ◌≡◌, refl, sym, ap, subst, ◌∙◌, Bool, true, false, true-ne-false, String, List, reverse,
}
use framekit.Lifecycle.{running, stopping, stopped, faulted}
use framekit.Lifecycle.Graph
use framekit.Events.{EventBus, EventContext}
use framekit.Events.Dispatch.{Reaction}
use framekit.Services.{ServiceKey, ServiceEntry}
use framekit.Modules.{ModuleSpec, validate_module_graph}
use framekit.Modules.Startup.{IsStartup}
use framekit.Modules.Outcome.{valid-IsStartup}
use framekit.Base.Calls.{make_calls}
use framekit.Kernel.{Kernel, Outside, CallbackStep, configure_modules, fault}
use framekit.Kernel.Actions.{Action, or_fault, advance}
use framekit.Kernel.Startup.{start_kernel}
use framekit.Kernel.Shutdown.{execute_shutdown_sequence, reset_services, stop_running, stop_kernel}
use framekit.Kernel.Ends.{At, Never, Outcome, Ends, Ends-seq, Ends-or_fault, advance-At}
use framekit.Kernel.Phases.{start_kernel-Ends, start_kernel-running}
use framekit.Kernel.Calls.{shutdown_calls, execute_shutdown_sequence-calls}
use framekit.Kernel.Order.{Anything, Planned, Begun, start_kernel-Begun}
use framekit.Kernel.Client.{Phase, idle, live, broken, state_of, stop_beyond}

module _ {S H P W : Type 0} where
  -- The modules `l` are recorded as shut down, and the world is `w`.
  abbrev Shut : List String → W → Kernel S H P W → Type 0
  Shut l w k = (k.last_module_shutdown_order ≡ reverse l) × (k.outside.world ≡ w)

  -- What stays the same up to the shutdown: the modules `l` are started, and `calls` leads to `w`.
  abbrev Halts :
      (Kernel S H P W → List (CallbackStep S H P W)) → List String → W → Kernel S H P W → Type 0
  Halts calls l w k = (k.started_modules ≡ l) × ((make_calls (calls k) k.outside).0.world ≡ w)

  -- The modules `l` run, and the kernel with them.
  abbrev Runs :
      (Kernel S H P W → List (CallbackStep S H P W)) → List String → W → Kernel S H P W → Type 0
  Runs calls l w k = At running k × Halts calls l w k

  either :
      (l : List String) (w : W) (r : Kernel S H P W × Bool)
      → Shut l w r.0
      → Outcome (Shut l w) (Shut l w) r
  either l w (k, true) h = h
  either l w (k, false) h = h

  fault-Shut :
      (l : List String) (w : W) (reason : String) (k : Kernel S H P W)
      → Shut l w k
      → Shut l w (fault k reason)
  unfolding fault
  fault-Shut l w reason k h = h

  kept-Shut :
      (l : List String) (w : W) (reason : String) (a : Action S H P W)
      → ((k : Kernel S H P W) → Shut l w k → Shut l w (a k).0)
      → Ends (or_fault reason a) (Shut l w) (Shut l w) (Shut l w)
  kept-Shut l w reason a same =
      Ends-or_fault {Inner = Shut l w} reason (fault-Shut l w reason)
        (record { at = λ k h. either l w (a k) (same k h) })

  finish-Shut :
      (l : List String) (w : W)
      → Ends
          (or_fault "invalid transition into Stopped" (advance stopped))
          (Shut l w)
          (Shut l w)
          (Shut l w)
  unfolding advance
  finish-Shut l w = kept-Shut l w "invalid transition into Stopped" (advance stopped) (λ k h. h)

  reset-Shut : (l : List String) (w : W) → Ends reset_services (Shut l w) (Shut l w) (Shut l w)
  unfolding reset_services
  reset-Shut l w = record { at = λ k h. h }

  when_done :
      (Done Failed : Kernel S H P W → Type 0) (r : Kernel S H P W × Bool)
      → Outcome Done Failed r
      → r.1 ≡ true
      → Done r.0
  when_done Done Failed (k, true) h done = h
  when_done Done Failed (k, false) h done = absurd (true-ne-false (sym done))

  in_any_case :
      (Ended : Kernel S H P W → Type 0) (r : Kernel S H P W × Bool)
      → Outcome Ended Ended r
      → Ended r.0
  in_any_case Ended (k, true) h = h
  in_any_case Ended (k, false) h = h

  configure-Planned :
      (k : Kernel S H P W) (modules : List ModuleSpec)
      → Planned (validate_module_graph modules) (configure_modules k modules).0
  unfolding configure_modules
  configure-Planned k modules = record { configured = refl; validation = refl; order = refl }

  configure-At :
      (p : Phase) (k : Kernel S H P W) (modules : List ModuleSpec)
      → At (state_of p) k
      → At (state_of p) (configure_modules k modules).0
  unfolding configure_modules
  configure-At p k modules h = h

  module _ (invoke : H → EventContext P → EventBus H P → W → Reaction H P W)
      (visit : List (ServiceKey × ServiceEntry S) → List (ServiceKey × ServiceEntry S)) where
    abbrev calls : Kernel S H P W → List (CallbackStep S H P W)
    calls = shutdown_calls invoke visit

    stopping-Halts :
        (l : List String) (w : W)
        → Ends
            (or_fault "invalid transition into Stopping" (advance stopping))
            (Runs calls l w)
            (Halts calls l w)
            (Shut l w)
    unfolding advance
    stopping-Halts l w =
        Ends-or_fault "invalid transition into Stopping" (λ k never. absurd never)
          (record {
            at = λ k h.
                after (advance stopping k) h.1 ((advance-At running stopping Graph.stop).at k h.0);
          })
      where
        after :
            (r : Kernel S H P W × Bool)
            → Halts calls l w r.0
            → Outcome (At stopping) Never r
            → Outcome (Halts calls l w) Never r
        after (k, true) h there = h
        after (k, false) h never = never

    stopping_records :
        {l : List String} {w : W} (k : Kernel S H P W)
        → Halts calls l w k
        → Shut l w (execute_shutdown_sequence invoke visit k).0
    stopping_records k (started, leads) =
        let (made, order, _, _, _) = execute_shutdown_sequence-calls invoke visit k in
        (order ∙ ap reverse started, ap (λ (r : Outside S H P W × Bool). r.0.world) made ∙ leads)

    shutdown-Shut :
        (l : List String) (w : W)
        → Ends
            (or_fault "shutdown sequence failed" (execute_shutdown_sequence invoke visit))
            (Halts calls l w)
            (Shut l w)
            (Shut l w)
    shutdown-Shut l w =
        Ends-or_fault {Inner = Shut l w} "shutdown sequence failed"
          (fault-Shut l w "shutdown sequence failed")
          (record {
            at =
                λ k h. either l w (execute_shutdown_sequence invoke visit k) (stopping_records k h);
          })

    stop_running-Shut :
        (l : List String) (w : W)
        → Ends (stop_running invoke visit) (Runs calls l w) (Shut l w) (Shut l w)
    unfolding stop_running
    stop_running-Shut l w =
        Ends-seq (stopping-Halts l w)
          (Ends-seq (shutdown-Shut l w) (Ends-seq (finish-Shut l w) (reset-Shut l w)))

    stop-Shut :
        (diagnostics configuration timing : S × ℕ) (l : List String) (w : W) (k : Kernel S H P W)
        → Runs calls l w k
        → Shut l w (stop_kernel invoke visit k).0
    stop-Shut diagnostics configuration timing l w k runs =
        subst (λ (r : Kernel S H P W × Bool). Shut l w r.0)
          (sym (stop_beyond diagnostics configuration timing invoke visit k running runs.0 refl))
          (in_any_case (Shut l w) (stop_running invoke visit k) ((stop_running-Shut l w).at k runs))

    module _ (diagnostics configuration timing : S × ℕ) where
      started-running :
          (p : Phase) (k : Kernel S H P W)
          → At (state_of p) k
          → (start_kernel diagnostics configuration timing k).1 ≡ true
          → At running (start_kernel diagnostics configuration timing k).0
      started-running idle k h done =
          when_done (At running) (At faulted) (start_kernel diagnostics configuration timing k)
            ((start_kernel-Ends diagnostics configuration timing stopped Graph.boot).at k h) done
      started-running broken k h done =
          when_done (At running) (At faulted) (start_kernel diagnostics configuration timing k)
            ((start_kernel-Ends diagnostics configuration timing faulted Graph.retry).at k h) done
      started-running live k h done = absurd (
          true-ne-false (
            sym done
            ∙ ap (λ (r : Kernel S H P W × Bool). r.1)
                (start_kernel-running diagnostics configuration timing k h)))

      -- A kernel between two operations is given modules and starts. If the start succeeds, it records
      -- as started each of the modules once, and behind all those that it depends on. The next stop
      -- makes the calls of a shutdown of these modules, the latest first (execute_shutdown_sequence
      -- says which), so that the world is the one these calls lead to, and records the modules as
      -- shut down in the reverse order of their start, whether it succeeds or not.
      pub start-stop_order :
          (p : Phase) (k : Kernel S H P W) (modules : List ModuleSpec)
          → At (state_of p) k
          → (start_kernel diagnostics configuration timing (configure_modules k modules).0).1 ≡ true
          → let k₁ = (configure_modules k modules).0 in
            let k₂ = (start_kernel diagnostics configuration timing k₁).0 in
            let k₃ = (stop_kernel invoke visit k₂).0 in
            IsStartup modules k₂.last_module_startup_order
            × (k₂.started_modules ≡ k₂.last_module_startup_order)
            × (k₃.outside.world ≡ (make_calls (shutdown_calls invoke visit k₂) k₂.outside).0.world)
            × (k₃.last_module_shutdown_order ≡ reverse k₂.last_module_startup_order)
      start-stop_order p k modules h done =
          let k₁ = (configure_modules k modules).0 in
          let v = validate_module_graph modules in
          let r = start_kernel diagnostics configuration timing k₁ in
          let begun : Begun v r.0 =
            when_done (Begun v) Anything r
              ((start_kernel-Begun diagnostics configuration timing v).at k₁
                (configure-Planned k modules))
              done in
          let alive = started-running p k₁ (configure-At p k modules h) done in
          let w = (make_calls (shutdown_calls invoke visit r.0) r.0.outside).0.world in
          let shut =
            stop-Shut diagnostics configuration timing v.startup_order w r.0
              (alive, (begun.started, refl)) in
          (
            subst (IsStartup modules) (sym begun.reported) (valid-IsStartup modules begun.valid),
            begun.started ∙ sym begun.reported,
            shut.1,
            shut.0 ∙ ap reverse (sym begun.reported),
          )
