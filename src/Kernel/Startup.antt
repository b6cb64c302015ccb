-- ===== src/Kernel/Startup.antt =====
-- `Start` and `ExecuteModuleStartupSequence`.
use framekit.Base.{
  ℕ, Bool, true, false, not, String, concat, is_blank, List, [], ◌∷◌, ◌++◌, Option, none, some,
  is_empty, if◌then◌else◌,
}
use framekit.Lifecycle.{bootstrapping, initializing, running}
use framekit.Services.{freeze, register_default_bootstrap_services}
use framekit.Modules.{ModuleGraphError}
use framekit.Kernel.{Kernel, Outside, CallbackStep, ModuleLifecyclePhase, initialize, start}
use framekit.Kernel.Actions.{Action, ◌>>◌, or_fault, failed_with, advance, run_step, call_outside}

abbrev pub first_message : List ModuleGraphError → String
first_message [] = "module graph validation failed"
first_message (error ∷ rest) = error.message

module _ {S H P W : Type 0} where
  abbrev pub module_started : Kernel S H P W → String → Outside S H P W → Kernel S H P W
  module_started k module_id outside = record k {
    outside = outside;
    started_modules = k.started_modules ++ module_id ∷ [];
    last_module_startup_order = k.last_module_startup_order ++ module_id ∷ [];
  }

  -- The loop over the configured modules.
  unfoldable pub start_modules :
      (String → ModuleLifecyclePhase → CallbackStep S H P W) → List String → Action S H P W
  start_modules handler [] k = (k, true)
  start_modules handler (module_id ∷ rest) k =
      let (after_initialize, initialized) = handler module_id initialize k.outside in
      let (after_start, started) = handler module_id start after_initialize in
      let later = start_modules handler rest (module_started k module_id after_start) in
      if not initialized
      then (
        record k {
          outside = after_initialize;
          last_fault_reason = concat "module initialize failed: " module_id;
        },
        false,
      )
      else (if not started
          then (
            record k {
              outside = after_start;
              last_fault_reason = concat "module start failed: " module_id;
            },
            false,
          )
          else later)

  abbrev pub start_configured :
      Option (String → ModuleLifecyclePhase → CallbackStep S H P W) → Action S H P W
  start_configured none k = (
    record k {
      started_modules = k.configured_module_startup_order;
      last_module_startup_order = k.configured_module_startup_order;
    },
    true,
  )
  start_configured (some handler) k =
      start_modules handler k.configured_module_startup_order (record k { started_modules = [] })

  unfoldable pub execute_module_startup_sequence : Action S H P W
  execute_module_startup_sequence k =
      let cleared = record k { last_module_startup_order = [] } in
      if k.modules_configured
      then (if not k.module_graph_validation.valid
          then (
            record cleared { last_fault_reason = first_message k.module_graph_validation.errors },
            false,
          )
          else start_configured k.module_lifecycle_handler cleared)
      else (
        if not (is_empty k.started_modules)
            then record cleared { last_module_startup_order = k.started_modules }
            else cleared,
        true,
      )

  -- The reason that the startup sequence left is kept.
  abbrev pub startup_failed_with : Kernel S H P W × Bool → Kernel S H P W × Bool
  startup_failed_with (k, done) =
      failed_with
        (if is_blank k.last_fault_reason
          then "module startup sequence failed"
          else k.last_fault_reason)
        (k, done)

  abbrev pub startup_or_fault : Action S H P W → Action S H P W
  startup_or_fault action k = startup_failed_with (action k)

  unfoldable pub freeze_services : CallbackStep S H P W
  freeze_services outside =
      let (services, done) = freeze outside.services in
      (record outside { services = services }, done)

  unfoldable pub clear_fault_reason : Action S H P W
  clear_fault_reason k = (record k { last_fault_reason = "" }, true)

  -- The services that the default bootstrap makes are arguments, each with its contract type.
  module _ (diagnostics configuration timing : S × ℕ) where
    unfoldable pub default_bootstrap : CallbackStep S H P W
    default_bootstrap outside =
        let (services, done) =
          register_default_bootstrap_services outside.services diagnostics configuration timing in
        (record outside { services = services }, done)

    abbrev pub bootstrap_with : Option (CallbackStep S H P W) → CallbackStep S H P W
    bootstrap_with none = default_bootstrap
    bootstrap_with (some step) = step

    unfoldable pub start_kernel : Action S H P W
    start_kernel k =
        (do
          advance bootstrapping
          or_fault "kernel bootstrap step failed" (call_outside (bootstrap_with k.bootstrap_step))
          or_fault "invalid transition into Initializing" (advance initializing)
          or_fault "kernel initialize step failed" (call_outside (run_step k.initialize_step))
          or_fault "service context freeze failed" (call_outside freeze_services)
          startup_or_fault execute_module_startup_sequence
          or_fault "invalid transition into Running" (advance running)
          clear_fault_reason)
          k
