-- ===== src/Kernel/Order.antt =====
-- A start and the stop behind it, with the modules that were configured.
use mathlib.Core.List.{append-nil}
use framekit.Base.{
  ℕ, ◌≡◌, refl, sym, ap, subst, ◌∙◌, Bool, true, false, true-ne-false, not, String, List, [], ◌∷◌,
  ◌++◌, Option, none, some, if◌then◌else◌, if_cases, arith,
}
use framekit.Lifecycle.{LifecycleState, bootstrapping, initializing, running}
use framekit.Modules.{ModuleGraphValidationResult}
use framekit.Kernel.{Kernel, Outside, CallbackStep, ModuleLifecyclePhase}
use framekit.Kernel.Actions.{Action, or_fault, advance, run_step, call_outside}
use framekit.Kernel.Startup.{
  start_modules, start_configured, execute_module_startup_sequence, startup_or_fault,
  startup_failed_with, freeze_services, clear_fault_reason, bootstrap_with, start_kernel,
}
use framekit.Kernel.Ends.{Outcome, Ends, Ends-seq, Ends-or_fault}
use framekit.Kernel.Begin.{LeavesOff, start_modules-Begins}

module _ {S H P W : Type 0} where
  abbrev pub Anything : Kernel S H P W → Type 0
  Anything k = Unit {0}

  -- The graph that was configured, with its verdict.
  pub record Planned (v : ModuleGraphValidationResult) (k : Kernel S H P W) : Type 0 where
    pub configured : k.modules_configured ≡ true
    pub validation : k.module_graph_validation ≡ v
    pub order : k.configured_module_startup_order ≡ (if v.valid then v.startup_order else [])

  pub record Begun (v : ModuleGraphValidationResult) (k : Kernel S H P W) : Type 0 where
    pub valid : v.valid ≡ true
    pub started : k.started_modules ≡ v.startup_order
    pub reported : k.last_module_startup_order ≡ v.startup_order

  keeping :
      (a : Action S H P W) (Keep : Kernel S H P W → Type 0)
      → ((k : Kernel S H P W) → Keep k → Keep (a k).0)
      → Ends a Keep Keep Anything
  keeping a Keep kept = record { at = λ k h. after (a k) (kept k h) }
    where
      after : (r : Kernel S H P W × Bool) → Keep r.0 → Outcome Keep Anything r
      after (k, true) h = h
      after (k, false) h = tt

  keeping_or_fault :
      (reason : String) (a : Action S H P W) (Keep : Kernel S H P W → Type 0)
      → ((k : Kernel S H P W) → Keep k → Keep (a k).0)
      → Ends (or_fault reason a) Keep Keep Anything
  keeping_or_fault reason a Keep kept =
      Ends-or_fault {Inner = Anything} reason (λ k h. tt) (keeping a Keep kept)

  all_begun :
      (handler : String → ModuleLifecyclePhase → CallbackStep S H P W) (o : Outside S H P W)
      (begun left order : List String) (r : Kernel S H P W × Bool)
      → order ≡ begun ++ left
      → LeavesOff handler o left r
      → r.1 ≡ true
      → begun ≡ order
  all_begun handler o begun [] order r split h done = sym (split ∙ append-nil begun)
  all_begun handler o begun (id ∷ left) order r split h done =
      absurd (true-ne-false (sym done ∙ h.0))

  start_modules-order :
      (handler : String → ModuleLifecyclePhase → CallbackStep S H P W) (order : List String)
      (k : Kernel S H P W)
      → (start_modules handler order k).1 ≡ true
      → ((start_modules handler order k).0.started_modules ≡ k.started_modules ++ order)
        × ((start_modules handler order k).0.last_module_startup_order
            ≡ k.last_module_startup_order ++ order)
  start_modules-order handler order k done =
      let h = start_modules-Begins handler order k in
      let whole : h.begun ≡ order =
        all_begun handler _ h.begun h.left order (start_modules handler order k) h.split
          h.leaves_off done in
      (
        h.started ∙ ap (λ l. k.started_modules ++ l) whole,
        h.reported ∙ ap (λ l. k.last_module_startup_order ++ l) whole,
      )

  -- What a startup sequence that succeeds has begun.
  abbrev Sequenced : ModuleGraphValidationResult → Kernel S H P W × Bool → Type 0
  Sequenced v r = r.1 ≡ true → Begun v r.0

  configured-Begun :
      (v : ModuleGraphValidationResult) (k : Kernel S H P W)
      (handler : Option (String → ModuleLifecyclePhase → CallbackStep S H P W))
      → v.valid ≡ true
      → k.configured_module_startup_order ≡ v.startup_order
      → k.last_module_startup_order ≡ []
      → Sequenced v (start_configured handler k)
  configured-Begun v k none valid same blank done = record {
    valid = valid;
    started = same;
    reported = same;
  }
  configured-Begun v k (some handler) valid same blank done =
      let (started, reported) =
        start_modules-order handler k.configured_module_startup_order
          (record k { started_modules = [] }) done in
      record {
        valid = valid;
        started = started ∙ same;
        reported = reported ∙ ap (λ l. l ++ k.configured_module_startup_order) blank ∙ same;
      }

  Planned-valid :
      (v : ModuleGraphValidationResult) (k : Kernel S H P W)
      → Planned v k
      → not k.module_graph_validation.valid ≡ false
      → v.valid ≡ true
  Planned-valid v k planned good =
      subst (λ (x : ModuleGraphValidationResult). x.valid ≡ true) planned.validation
        (ground (arith, good))

  sequence-Begun :
      (v : ModuleGraphValidationResult) (k : Kernel S H P W)
      → Planned v k
      → Sequenced v (execute_module_startup_sequence k)
  unfolding execute_module_startup_sequence
  sequence-Begun v k planned =
      if_cases (Sequenced v) k.modules_configured
        (λ _.
          if_cases (Sequenced v) (not k.module_graph_validation.valid)
            (λ bad done. absurd (true-ne-false (sym done)))
            (λ good.
              let valid = Planned-valid v k planned good in
              configured-Begun v (record k { last_module_startup_order = [] })
                k.module_lifecycle_handler valid
                (planned.order ∙ ap (λ b. if b then v.startup_order else []) valid) refl))
        (λ off. absurd (true-ne-false (sym planned.configured ∙ off)))

  startup-Begun :
      (v : ModuleGraphValidationResult)
      → Ends (startup_or_fault execute_module_startup_sequence) (Planned v) (Begun v) Anything
  startup-Begun v = record {
    at = λ k planned. after (execute_module_startup_sequence k) (sequence-Begun v k planned);
  }
    where
      after :
          (r : Kernel S H P W × Bool)
          → Sequenced v r
          → Outcome (Begun v) Anything (startup_failed_with r)
      after (k, true) h = h refl
      after (k, false) h = tt

  Planned-step :
      (v : ModuleGraphValidationResult) (reason : String) (step : CallbackStep S H P W)
      → Ends (or_fault reason (call_outside step)) (Planned v) (Planned v) Anything
  unfolding call_outside
  Planned-step v reason step =
      keeping_or_fault reason (call_outside step) (Planned v)
        (λ k h. record { configured = h.configured; validation = h.validation; order = h.order })

  Planned-advance :
      (v : ModuleGraphValidationResult) (t : LifecycleState)
      → Ends (advance t) (Planned v) (Planned v) Anything
  unfolding advance
  Planned-advance v t =
      keeping (advance t) (Planned v)
        (λ k h. record { configured = h.configured; validation = h.validation; order = h.order })

  Begun-advance :
      (v : ModuleGraphValidationResult)
      → Ends {S = S} {H = H} {P = P} {W = W}
          (or_fault "invalid transition into Running" (advance running))
          (Begun v)
          (Begun v)
          Anything
  unfolding advance
  Begun-advance v =
      keeping_or_fault "invalid transition into Running" (advance running) (Begun v)
        (λ k h. record { valid = h.valid; started = h.started; reported = h.reported })

  Begun-clear :
      (v : ModuleGraphValidationResult)
      → Ends {S = S} {H = H} {P = P} {W = W} clear_fault_reason (Begun v) (Begun v) Anything
  unfolding clear_fault_reason
  Begun-clear v =
      keeping clear_fault_reason (Begun v)
        (λ k h. record { valid = h.valid; started = h.started; reported = h.reported })

  module _ (diagnostics configuration timing : S × ℕ) where
    pub start_kernel-Begun :
        (v : ModuleGraphValidationResult)
        → Ends {S = S} {H = H} {P = P} {W = W}
            (start_kernel diagnostics configuration timing)
            (Planned v)
            (Begun v)
            Anything
    unfolding start_kernel
    start_kernel-Begun v = record {
      at = λ k h.
          (Ends-seq (Planned-advance v bootstrapping) (
              Ends-seq
                (Planned-step v "kernel bootstrap step failed"
                  (bootstrap_with diagnostics configuration timing k.bootstrap_step))
                (Ends-seq
                  (Ends-or_fault "invalid transition into Initializing" (λ k h. tt)
                    (Planned-advance v initializing))
                  (Ends-seq
                    (Planned-step v "kernel initialize step failed" (run_step k.initialize_step))
                    (Ends-seq (Planned-step v "service context freeze failed" freeze_services) (
                      Ends-seq (startup-Begun v)
                        (Ends-seq (Begun-advance v) (Begun-clear v)))))))).at
            k h;
    }
