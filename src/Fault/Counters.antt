-- ===== src/Fault/Counters.antt =====
-- The fault counters: a fault counts once, in its own class.
use framekit.Base.{
  ℕ, zero, suc, ◌+◌, ◌<◌, ◌≡◌, refl, ap, sym, ◌∙◌, ◌≢◌, true, List, [], ◌∷◌, length, get_or, set,
  u32, arith, if_cases, ltb, ◌||◌, not, ◌==◌, nat_eq, String,
}
use framekit.Fault.{
  FaultClass, FaultPolicyRuntime, FaultPolicyContext, fault_class_index, fault_count,
  increment_and_get, count_and_fail, degrade_with_limit, evaluate_class, evaluate,
  FaultPolicyDecision, with_budget_context, is_fail_fast, is_deterministic_host,
}

-- The array has its six entries.
abbrev pub HasCounters : FaultPolicyRuntime → Type 0
HasCounters r = length r.counters ≡ 6

length-set : (xs : List ℕ) (i v : ℕ) → length (set xs i v) ≡ length xs
length-set [] i v = refl
length-set (x ∷ xs) zero v = refl
length-set (x ∷ xs) (suc i) v = omega (arith, length-set xs i v)

get_or-set_self : (xs : List ℕ) (i v : ℕ) → i < length xs → get_or (set xs i v) i 0 ≡ v
get_or-set_self [] i v h = elim h [ ]
get_or-set_self (x ∷ xs) zero v h = refl
get_or-set_self (x ∷ xs) (suc i) v h = get_or-set_self xs i v (omega arith)

get_or-set_ne : (xs : List ℕ) (i j v : ℕ) → i ≢ j → get_or (set xs i v) j 0 ≡ get_or xs j 0
get_or-set_ne [] i j v h = refl
get_or-set_ne (x ∷ xs) zero zero v h = absurd (h refl)
get_or-set_ne (x ∷ xs) zero (suc j) v h = refl
get_or-set_ne (x ∷ xs) (suc i) zero v h = refl
get_or-set_ne (x ∷ xs) (suc i) (suc j) v h = get_or-set_ne xs i j v (λ e. h (ap suc e))

index_bounded : (c : FaultClass) → fault_class_index c < 6
index_bounded c = ground arith

pub index_injective : (c d : FaultClass) → fault_class_index c ≡ fault_class_index d → c ≡ d
index_injective c d e = ground arith

fault_count_lem :
    (r : FaultPolicyRuntime) (c : FaultClass)
    → HasCounters r
    → fault_count r c ≡ get_or r.counters (fault_class_index c) 0
unfolding fault_count
fault_count_lem r c h = ground (arith, index_bounded c)

-- What counting a fault of class `c` does, whatever is decided about it.
pub record Counts (c : FaultClass) (r : FaultPolicyRuntime)
    (result : FaultPolicyRuntime × FaultPolicyDecision) : Type 0 where
  pub counters_kept : HasCounters result.0
  pub counted : fault_count result.0 c ≡ u32 (fault_count r c + 1)
  pub others : (d : FaultClass) → d ≢ c → fault_count result.0 d ≡ fault_count r d
  pub reported : result.1.observed_count ≡ fault_count result.0 c
  pub policy_kept : result.0.policy ≡ r.policy
  pub limits_kept : result.0.limits ≡ r.limits
  pub configured_kept : result.0.configured ≡ r.configured

increment_lem :
    (r : FaultPolicyRuntime) (c : FaultClass)
    → HasCounters r
    → increment_and_get r c ≡ (
      record r { counters = set r.counters (fault_class_index c) (u32 (fault_count r c + 1)) },
      u32 (fault_count r c + 1),
    )
unfolding increment_and_get
increment_lem r c h = ground (arith, index_bounded c, fault_count_lem r c h)

module _ (r : FaultPolicyRuntime) (c : FaultClass) (reason : String) (h : HasCounters r) where
  abbrev next_count : ℕ
  next_count = u32 (fault_count r c + 1)

  abbrev counted_runtime : FaultPolicyRuntime
  counted_runtime = record r {
    counters = set r.counters (fault_class_index c) next_count;
    last_decision_reason = reason;
  }

  counters_six : HasCounters counted_runtime
  counters_six = length-set r.counters (fault_class_index c) next_count ∙ h

  count_self : fault_count counted_runtime c ≡ next_count
  count_self =
      fault_count_lem counted_runtime c counters_six
      ∙ get_or-set_self r.counters (fault_class_index c) next_count (omega (arith, index_bounded c))

  count_other : (d : FaultClass) → d ≢ c → fault_count counted_runtime d ≡ fault_count r d
  count_other d other =
      fault_count_lem counted_runtime d counters_six
      ∙ (get_or-set_ne r.counters (fault_class_index c) (fault_class_index d) next_count
            (λ e. other (sym (index_injective c d e)))
          ∙ sym (fault_count_lem r d h))

  -- Whatever the disposition and the reason, the fault is counted.
  counts_lem :
      (decision : FaultPolicyDecision)
      → decision.observed_count ≡ (increment_and_get r c).1
      → Counts c r (record ((increment_and_get r c).0) { last_decision_reason = reason }, decision)
  counts_lem decision e =
      let same = increment_lem r c h in
      rw same (record {
        counters_kept = counters_six;
        counted = count_self;
        others = count_other;
        reported = e ∙ (ap (λ (t : FaultPolicyRuntime × ℕ). t.1) same ∙ sym count_self);
        policy_kept = refl;
        limits_kept = refl;
        configured_kept = refl;
      })

count_and_fail-Counts :
    (r : FaultPolicyRuntime) (c : FaultClass) (reason : String)
    → HasCounters r
    → Counts c r (count_and_fail r c reason)
unfolding count_and_fail
count_and_fail-Counts r c reason h = counts_lem r c reason h _ refl

degrade_with_limit-Counts :
    (r : FaultPolicyRuntime) (c : FaultClass) (limit : ℕ) (why escalation : String)
    → HasCounters r
    → Counts c r (degrade_with_limit r c limit why escalation)
unfolding degrade_with_limit
degrade_with_limit-Counts r c limit why escalation h =
    if_cases (Counts c r) (limit == 0 || ltb limit (increment_and_get r c).1)
      (λ _. counts_lem r c escalation h _ refl)
      (λ _. counts_lem r c (with_budget_context why (increment_and_get r c).1 limit) h _ refl)

evaluate_class-Counts :
    (r : FaultPolicyRuntime) (context : FaultPolicyContext) (c : FaultClass)
    → HasCounters r
    → Counts c r (evaluate_class r context c)
unfolding evaluate_class
evaluate_class-Counts r context FaultClass.bootstrap h = count_and_fail-Counts r _ _ h
evaluate_class-Counts r context FaultClass.module_fault h =
    if_cases (Counts FaultClass.module_fault r)
      (context.required_module || context.contract_violation) (λ _. count_and_fail-Counts r _ _ h)
      (λ _. degrade_with_limit-Counts r _ _ _ _ h)
evaluate_class-Counts r context FaultClass.event h =
    if_cases (Counts FaultClass.event r) context.contract_violation
      (λ _. count_and_fail-Counts r _ _ h) (λ _. degrade_with_limit-Counts r _ _ _ _ h)
evaluate_class-Counts r context FaultClass.render h =
    if_cases (Counts FaultClass.render r) (not r.policy.rendering_enabled)
      (λ _. count_and_fail-Counts r _ _ h)
      λ _.
        if_cases (Counts FaultClass.render r) context.contract_violation
          (λ _. count_and_fail-Counts r _ _ h) (λ _. degrade_with_limit-Counts r _ _ _ _ h)
evaluate_class-Counts r context FaultClass.timing h =
    if_cases (Counts FaultClass.timing r)
      (is_fail_fast r.policy.overrun_mode || context.contract_violation)
      (λ _. count_and_fail-Counts r _ _ h) (λ _. degrade_with_limit-Counts r _ _ _ _ h)
evaluate_class-Counts r context FaultClass.shutdown h =
    if_cases (Counts FaultClass.shutdown r)
      (context.fatal_shutdown_violation || context.contract_violation)
      (λ _. count_and_fail-Counts r _ _ h) (λ _. degrade_with_limit-Counts r _ _ _ _ h)

-- A configured runtime counts every fault once, in the counter of its class (which wraps at 32
-- bits), leaves the other counters, the policy and the limits alone, and reports the new count.
pub evaluate-Counts :
    (r : FaultPolicyRuntime) (context : FaultPolicyContext)
    → HasCounters r
    → r.configured ≡ true
    → Counts context.fault_class r (evaluate r context)
unfolding evaluate
evaluate-Counts r context h on =
    if_cases (Counts context.fault_class r) (not r.configured) (λ off. absurd (ground (arith, on)))
      λ _.
        if_cases (Counts context.fault_class r) context.invariant_breach
          (λ _. count_and_fail-Counts r _ _ h)
          λ _.
            if_cases (Counts context.fault_class r) (is_deterministic_host r.policy.profile)
              (λ _. count_and_fail-Counts r _ _ h)
              λ _. evaluate_class-Counts r context context.fault_class h
