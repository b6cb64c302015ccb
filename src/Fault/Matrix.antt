-- ===== src/Fault/Matrix.antt =====
-- The matrix of docs/error-policy-matrix.md, and `Evaluate` against it.
use framekit.Base.{ℕ, ◌≤◌, ◌<◌, ◌≡◌, ◌≢◌, ◌↔◌, true, false, arith, nat_eq}
use framekit.Loop.Policy.{LoopPolicy, deterministic_host, fail_fast as fail_fast_mode}
use framekit.Fault.{
  FaultClass, bootstrap, module_fault, event, render, timing, shutdown, degrade, FaultPolicyLimits,
  FaultPolicyRuntime, FaultPolicyContext, count_and_fail, degrade_with_limit, evaluate_class,
  evaluate,
}

-- The faults of each class that a profile other than the deterministic host may degrade.
abbrev pub MayDegrade : LoopPolicy → FaultPolicyContext → FaultClass → Type 0
MayDegrade policy context bootstrap = ⊥
MayDegrade policy context module_fault =
    (context.required_module ≡ false) × (context.contract_violation ≡ false)
MayDegrade policy context event = context.contract_violation ≡ false
MayDegrade policy context render =
    (policy.rendering_enabled ≡ true) × (context.contract_violation ≡ false)
MayDegrade policy context timing =
    (policy.overrun_mode ≢ fail_fast_mode) × (context.contract_violation ≡ false)
MayDegrade policy context shutdown =
    (context.fatal_shutdown_violation ≡ false) × (context.contract_violation ≡ false)

-- The degrade limit of a class; a bootstrap fault has none.
abbrev pub limit_of : FaultPolicyLimits → FaultClass → ℕ
limit_of limits bootstrap = 0
limit_of limits module_fault = limits.module_optional_limit
limit_of limits event = limits.event_noncritical_limit
limit_of limits render = limits.render_isolation_limit
limit_of limits timing = limits.timing_overrun_limit
limit_of limits shutdown = limits.shutdown_nonfatal_limit

-- What the matrix allows, and the limit does too.
pub record IsDegradable (r : FaultPolicyRuntime) (context : FaultPolicyContext) (observed : ℕ)
    : Type 0 where
  pub intact : context.invariant_breach ≡ false
  pub nondeterministic : r.policy.profile ≢ deterministic_host
  pub allowed : MayDegrade r.policy context context.fault_class
  pub budgeted : 0 < limit_of r.limits context.fault_class
  pub within : observed ≤ limit_of r.limits context.fault_class

evaluate_class_matrix :
    (r : FaultPolicyRuntime) (context : FaultPolicyContext) (c : FaultClass)
    → let decision = (evaluate_class r context c).1 in
      (decision.disposition ≡ degrade) ↔ (
        MayDegrade r.policy context c
        × (0 < limit_of r.limits c)
        × (decision.observed_count ≤ limit_of r.limits c))
unfolding evaluate_class count_and_fail degrade_with_limit
evaluate_class_matrix r context bootstrap = ground arith
evaluate_class_matrix r context c = ground arith

-- A configured runtime degrades a fault exactly if the matrix lets its class degrade under the
-- active policy and the count that it reports is within the limit of the class.
pub evaluate_matrix :
    (r : FaultPolicyRuntime) (context : FaultPolicyContext)
    → r.configured ≡ true
    → let decision = (evaluate r context).1 in
      (decision.disposition ≡ degrade) ↔ IsDegradable r context decision.observed_count
unfolding evaluate count_and_fail
evaluate_matrix r context on = ground (arith, evaluate_class_matrix r context context.fault_class)
