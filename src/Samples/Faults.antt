-- ===== src/Samples/Faults.antt =====
-- The fault policy on concrete faults.
use framekit.Base.{ℕ, ◌≤◌, ◌≡◌, refl, ◌↔◌, true, false, [], ◌∷◌, arith}
use framekit.Loop.Policy.{
  default_policy, validate_loop_policy, check_disabled_stages, check_rendering_disablement,
}
use framekit.Fault.{
  FaultClass, module_fault, event, timing, fail_fast, degrade, default_limits, FaultPolicyContext,
  FaultPolicyRuntime, new_runtime, configure, fault_count, fault_class_name, evaluate,
  evaluate_class, degrade_with_limit, increment_and_get, fail_fast_decision,
}
use framekit.Fault.Counters.{Counts, evaluate-Counts}
use framekit.Fault.Matrix.{IsDegradable, evaluate_matrix}
use framekit.Fault.Escalation.{degraded, degraded-le_limit, degrade_after_wrap}

abbrev faulty : FaultClass → FaultPolicyContext
faulty c = record {
  fault_class = c;
  invariant_breach = false;
  contract_violation = false;
  required_module = false;
  fatal_shutdown_violation = false;
}

-- A configured runtime that has counted `n` event faults.
abbrev counted_events : ℕ → FaultPolicyRuntime
counted_events n = record {
  policy = default_policy;
  limits = default_limits;
  counters = 0 ∷ 0 ∷ n ∷ 0 ∷ 0 ∷ 0 ∷ [];
  configured = true;
  last_decision_reason = "";
}

default_configured : configure new_runtime default_policy default_limits ≡ (counted_events 0, true)
unfolding configure new_runtime validate_loop_policy check_disabled_stages
    check_rendering_disablement
default_configured = refl

module_name : fault_class_name module_fault ≡ "Module"
unfolding fault_class_name
module_name = refl

third_event : (evaluate (counted_events 2) (faulty event)).1.disposition ≡ degrade
unfolding evaluate evaluate_class degrade_with_limit increment_and_get fail_fast_decision
third_event = refl

fourth_event :
    let decision = (evaluate (counted_events 3) (faulty event)).1 in
    (decision.disposition ≡ fail_fast) × (decision.escalated ≡ true) × (decision.observed_count ≡ 4)
unfolding evaluate evaluate_class degrade_with_limit increment_and_get fail_fast_decision
fourth_event = (refl, refl, refl)

evaluate-Counts_example :
    Counts event (counted_events 2) (evaluate (counted_events 2) (faulty event))
evaluate-Counts_example = evaluate-Counts (counted_events 2) (faulty event) refl refl

evaluate_matrix_example :
    let decision = (evaluate (counted_events 2) (faulty event)).1 in
    (decision.disposition ≡ degrade)
    ↔ IsDegradable (counted_events 2) (faulty event) decision.observed_count
evaluate_matrix_example = evaluate_matrix (counted_events 2) (faulty event) refl

degraded-le_limit_example :
    degraded event
      (configure new_runtime default_policy default_limits).0
      (faulty event ∷ faulty timing ∷ faulty event ∷ faulty event ∷ faulty event ∷ [])
    ≤ 3
unfolding validate_loop_policy check_disabled_stages check_rendering_disablement
degraded-le_limit_example =
    degraded-le_limit new_runtime default_policy default_limits event
      (faulty event ∷ faulty timing ∷ faulty event ∷ faulty event ∷ faulty event ∷ []) refl
      (omega arith)

degrade_after_wrap_example :
    (evaluate (counted_events 4294967295) (faulty event)).1.disposition ≡ degrade
unfolding fault_count
degrade_after_wrap_example =
    degrade_after_wrap (counted_events 4294967295) (faulty event) (record { six = refl; on = refl })
      refl refl (λ e. cc) refl (omega arith)
