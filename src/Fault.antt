-- ===== src/Fault.antt =====
-- `FaultPolicyRuntime`: include/framekit/fault/policy_runtime.hpp, src/fault_policy_runtime.cpp.
pub mod Counters
pub mod Matrix
pub mod Escalation
use framekit.Base.{
  ℕ, zero, suc, ◌+◌, Bool, true, false, not, ◌&&◌, ◌||◌, String, concat, List, [], ◌∷◌, length,
  get_or, set, replicate, u32, ltb, leb, ◌==◌, nat_eq, if◌then◌else◌,
}
use framekit.Base.Decimal.{to_string}
use framekit.Loop.Policy.{
  LoopProfile, deterministic_host, OverrunMode, fail_fast as fail_fast_mode, LoopPolicy,
  default_policy, validate_loop_policy,
}

pub data FaultClass : Type 0 where
  bootstrap module_fault event render timing shutdown : FaultClass

pub data FaultDisposition : Type 0 where
  fail_fast degrade : FaultDisposition

pub record FaultPolicyLimits : Type 0 where  -- each a uint32_t
  pub module_optional_limit : ℕ
  pub event_noncritical_limit : ℕ
  pub render_isolation_limit : ℕ
  pub timing_overrun_limit : ℕ
  pub shutdown_nonfatal_limit : ℕ

-- The member initialisers.
abbrev pub default_limits : FaultPolicyLimits
default_limits = record {
  module_optional_limit = 1;
  event_noncritical_limit = 3;
  render_isolation_limit = 2;
  timing_overrun_limit = 3;
  shutdown_nonfatal_limit = 1;
}

abbrev pub is_fail_fast : OverrunMode → Bool
is_fail_fast fail_fast_mode = true
is_fail_fast _ = false

abbrev pub is_deterministic_host : LoopProfile → Bool
is_deterministic_host deterministic_host = true
is_deterministic_host _ = false

pub record FaultPolicyContext : Type 0 where
  pub fault_class : FaultClass
  pub invariant_breach : Bool
  pub contract_violation : Bool
  pub required_module : Bool
  pub fatal_shutdown_violation : Bool

pub record FaultPolicyDecision : Type 0 where
  pub disposition : FaultDisposition
  pub escalated : Bool
  pub consumed_budget : Bool
  pub observed_count : ℕ
  pub reason : String

pub record FaultPolicyRuntime : Type 0 where
  pub policy : LoopPolicy
  pub limits : FaultPolicyLimits
  pub counters : List ℕ  -- std::array<uint32_t, 6>
  pub configured : Bool
  pub last_decision_reason : String

abbrev pub fault_class_index : FaultClass → ℕ
fault_class_index bootstrap = 0
fault_class_index module_fault = 1
fault_class_index event = 2
fault_class_index render = 3
fault_class_index timing = 4
fault_class_index shutdown = 5

abbrev pub fault_class_names : List String
fault_class_names = "Bootstrap" ∷ "Module" ∷ "Event" ∷ "Render" ∷ "Timing" ∷ "Shutdown" ∷ []

unfoldable pub fault_class_name : FaultClass → String
fault_class_name c =
    if leb (length fault_class_names) (fault_class_index c)
    then "UnknownFaultClass"
    else get_or fault_class_names (fault_class_index c) ""

unfoldable pub with_budget_context : String → (observed_count limit : ℕ) → String
with_budget_context reason observed limit =
    concat reason
      (concat " (" (concat (to_string observed) (concat "/" (concat (to_string limit) ")"))))

unfoldable pub new_runtime : FaultPolicyRuntime
new_runtime = record {
  policy = default_policy;
  limits = default_limits;
  counters = replicate 6 0;
  configured = false;
  last_decision_reason = "";
}

unfoldable pub configure :
    FaultPolicyRuntime → LoopPolicy → FaultPolicyLimits → FaultPolicyRuntime × Bool
configure r policy limits =
    let validation = validate_loop_policy policy in
    if not validation.valid
    then (
      record r {
        configured = false;
        last_decision_reason = concat "cannot configure fault policy runtime: " validation.reason;
      },
      false,
    )
    else (
      record r {
        policy = policy;
        limits = limits;
        counters = replicate 6 0;
        configured = true;
        last_decision_reason = "";
      },
      true,
    )

unfoldable pub reset : FaultPolicyRuntime → FaultPolicyRuntime
reset r = record r { counters = replicate 6 0; last_decision_reason = "" }

unfoldable pub fault_count : FaultPolicyRuntime → FaultClass → ℕ
fault_count r c =
    if leb (length r.counters) (fault_class_index c)
    then 0
    else get_or r.counters (fault_class_index c) 0

unfoldable pub increment_and_get : FaultPolicyRuntime → FaultClass → FaultPolicyRuntime × ℕ
increment_and_get r c =
    let index = fault_class_index c in
    let next = u32 (get_or r.counters index 0 + 1) in
    if leb (length r.counters) index
    then (r, 0)
    else (record r { counters = set r.counters index next }, next)

-- The method `FailFast`.
unfoldable pub fail_fast_decision :
    FaultPolicyRuntime
    → String
    → (escalated : Bool) → (observed_count : ℕ) → FaultPolicyRuntime × FaultPolicyDecision
fail_fast_decision r reason escalated observed = (
  record r { last_decision_reason = reason },
  record {
    disposition = fail_fast;
    escalated = escalated;
    consumed_budget = false;
    observed_count = observed;
    reason = reason;
  },
)

-- `IncrementAndGet` followed by `FailFast` with `escalated` false.
unfoldable pub count_and_fail :
    FaultPolicyRuntime → FaultClass → String → FaultPolicyRuntime × FaultPolicyDecision
unfolding fail_fast_decision
count_and_fail r c reason =
    let (r', observed) = increment_and_get r c in fail_fast_decision r' reason false observed

unfoldable pub degrade_with_limit :
    FaultPolicyRuntime
    → FaultClass
    → (limit : ℕ) → (degrade_reason escalation_reason : String)
    → FaultPolicyRuntime × FaultPolicyDecision
unfolding fail_fast_decision
degrade_with_limit r c limit degrade_reason escalation_reason =
    let (r', observed) = increment_and_get r c in
    let reason = with_budget_context degrade_reason observed limit in
    if limit == 0 || ltb limit observed
    then fail_fast_decision r' escalation_reason true observed
    else (
      record r' { last_decision_reason = reason },
      record {
        disposition = degrade;
        escalated = false;
        consumed_budget = true;
        observed_count = observed;
        reason = reason;
      },
    )

-- The switch over the fault class.
unfoldable pub evaluate_class :
    FaultPolicyRuntime → FaultPolicyContext → FaultClass → FaultPolicyRuntime × FaultPolicyDecision
evaluate_class r context bootstrap =
    count_and_fail r bootstrap "bootstrap faults are always fail-fast"
evaluate_class r context module_fault =
    if context.required_module || context.contract_violation
    then count_and_fail r module_fault "required or invalid module fault requires fail-fast"
    else degrade_with_limit r module_fault r.limits.module_optional_limit
        "optional module fault degraded"
        "optional module degrade limit exceeded; escalating to fail-fast"
evaluate_class r context event =
    if context.contract_violation
    then count_and_fail r event "event contract violation requires fail-fast"
    else degrade_with_limit r event r.limits.event_noncritical_limit
        "noncritical event fault degraded" "event degrade limit exceeded; escalating to fail-fast"
evaluate_class r context render =
    if not r.policy.rendering_enabled
    then count_and_fail r render "render degrade unavailable when rendering is disabled"
    else (if context.contract_violation
        then count_and_fail r render "render contract violation requires fail-fast"
        else degrade_with_limit r render r.limits.render_isolation_limit
            "render fault degraded via isolation"
            "render degrade limit exceeded; escalating to fail-fast")
evaluate_class r context timing =
    if is_fail_fast r.policy.overrun_mode || context.contract_violation
    then count_and_fail r timing "timing fault requires fail-fast under active policy"
    else degrade_with_limit r timing r.limits.timing_overrun_limit
        "timing fault degraded via bounded catch-up/slip"
        "timing degrade limit exceeded; escalating to fail-fast"
evaluate_class r context shutdown =
    if context.fatal_shutdown_violation || context.contract_violation
    then count_and_fail r shutdown "fatal shutdown fault requires fail-fast"
    else degrade_with_limit r shutdown r.limits.shutdown_nonfatal_limit
        "non-fatal shutdown fault degraded"
        "shutdown degrade limit exceeded; escalating to fail-fast"

unfoldable pub evaluate :
    FaultPolicyRuntime → FaultPolicyContext → FaultPolicyRuntime × FaultPolicyDecision
unfolding fail_fast_decision
evaluate r context =
    if not r.configured
    then fail_fast_decision r "fault policy runtime is not configured" false 0
    else (if context.invariant_breach
        then count_and_fail r context.fault_class "always-fail-fast invariant breached"
        else (if is_deterministic_host r.policy.profile
            then count_and_fail r context.fault_class
                "deterministic host profile enforces fail-fast fault handling"
            else evaluate_class r context context.fault_class))
