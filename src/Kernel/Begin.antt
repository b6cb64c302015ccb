-- ===== src/Kernel/Begin.antt =====
-- How far the loop over the configured modules gets in `ExecuteModuleStartupSequence`.
use mathlib.Core.List.{append_assoc, append-nil}
use framekit.Base.{
  ◌≡◌, refl, sym, ap, ◌∙◌, ◌⊎◌, inl, inr, Bool, true, false, String, concat, List, [], ◌∷◌, ◌++◌,
  if◌then◌else◌, Bool-cases,
}
use framekit.Kernel.{Kernel, Outside, CallbackStep, ModuleLifecyclePhase, initialize, start}
use framekit.Kernel.Startup.{module_started, start_modules}

module _ {S H P W : Type 0} where
  -- The calls one after the other, up to the first that fails.
  pub until_failure : List (CallbackStep S H P W) → CallbackStep S H P W
  until_failure [] outside = (outside, true)
  until_failure (call ∷ rest) outside =
      let (after, done) = call outside in
      let later = until_failure rest after in if done then later else (after, false)

  module _ (handler : String → ModuleLifecyclePhase → CallbackStep S H P W) where
    abbrev pub module_start_calls : String → List (CallbackStep S H P W)
    module_start_calls id = handler id initialize ∷ handler id start ∷ []

    abbrev pub start_calls : List String → List (CallbackStep S H P W)
    start_calls [] = []
    start_calls (id ∷ rest) = handler id initialize ∷ handler id start ∷ start_calls rest

    -- With nothing left the startup succeeded. Otherwise one of the two calls of the first module
    -- that is left has failed; it was the last call, and the reason names the module.
    abbrev pub LeavesOff : Outside S H P W → (left : List String) → Kernel S H P W × Bool → Type 0
    LeavesOff outside [] (k, answer) = (answer ≡ true) × (k.outside ≡ outside)
    LeavesOff outside (id ∷ left) (k, answer) =
        (answer ≡ false)
        × ((k.outside, false) ≡ until_failure (module_start_calls id) outside)
        × ((k.last_fault_reason ≡ concat "module initialize failed: " id)
            ⊎ (k.last_fault_reason ≡ concat "module start failed: " id))

    pub record Begins (order : List String) (k : Kernel S H P W) (r : Kernel S H P W × Bool)
        : Type 0 where
      pub begun : List String
      pub left : List String
      pub split : order ≡ begun ++ left
      pub started : r.0.started_modules ≡ k.started_modules ++ begun
      pub reported : r.0.last_module_startup_order ≡ k.last_module_startup_order ++ begun
      pub succeeded : (until_failure (start_calls begun) k.outside).1 ≡ true
      pub leaves_off : LeavesOff (until_failure (start_calls begun) k.outside).0 left r

    -- The loop initializes and starts the modules in their order up to the first call that fails:
    -- the modules before that one are recorded as started, and for these all calls succeeded.
    pub start_modules-Begins :
        (order : List String) (k : Kernel S H P W) → Begins order k (start_modules handler order k)
    unfolding start_modules until_failure
    start_modules-Begins [] k = record {
      begun = [];
      left = [];
      split = refl;
      started = sym (append-nil k.started_modules);
      reported = sym (append-nil k.last_module_startup_order);
      succeeded = refl;
      leaves_off = (refl, refl);
    }
    start_modules-Begins (id ∷ rest) k =
        let after_initialize = (handler id initialize k.outside).0 in
        let after_start = (handler id start after_initialize).0 in
        elim (Bool-cases (handler id initialize k.outside).1) [
          | inr bad ↦ rw bad (record {
            begun = [];
            left = id ∷ rest;
            split = refl;
            started = sym (append-nil k.started_modules);
            reported = sym (append-nil k.last_module_startup_order);
            succeeded = refl;
            leaves_off = (refl, (rw bad), inl refl);
          })
          | inl good ↦ elim (Bool-cases (handler id start after_initialize).1) [
            | inr bad ↦
                rw (good, bad)
                  (record {
                    begun = [];
                    left = id ∷ rest;
                    split = refl;
                    started = sym (append-nil k.started_modules);
                    reported = sym (append-nil k.last_module_startup_order);
                    succeeded = refl;
                    leaves_off = (refl, (rw (good, bad)), inr refl);
                  })
            | inl fine ↦
                let h = start_modules-Begins rest (module_started k id after_start) in
                rw (good, fine)
                  (record {
                    begun = id ∷ h.begun;
                    left = h.left;
                    split = ap (◌∷◌ id) h.split;
                    started = h.started ∙ append_assoc k.started_modules (id ∷ []) h.begun;
                    reported =
                        h.reported ∙ append_assoc k.last_module_startup_order (id ∷ []) h.begun;
                    succeeded = rw (good, fine) h.succeeded;
                    leaves_off = rw (good, fine) h.leaves_off;
                  })
          ]
        ]
