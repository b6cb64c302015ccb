-- ===== src/Fault/Escalation.antt =====
-- Bounded degradation: what a whole sequence of faults can come to.
use framekit.Base.{
  ℕ, suc, ◌+◌, ◌-◌, ◌≤◌, ◌<◌, ◌≡◌, refl, sym, ◌∙◌, ◌≢◌, ◌⊎◌, inl, inr, Bool, true, false, List, [],
  ◌∷◌, length, replicate, ◌==◌, nat_eq, ◌&&◌, u32, arith, if◌then◌else◌, beq_cases, ap, subst,
}
use framekit.Loop.Policy.{LoopPolicy, deterministic_host, validate_loop_policy}
use framekit.Fault.{
  FaultClass, FaultDisposition, fail_fast, degrade, FaultPolicyLimits, FaultPolicyRuntime,
  FaultPolicyContext, fault_class_index, fault_count, configure, evaluate,
}
use framekit.Fault.Counters.{HasCounters, evaluate-Counts, index_injective}
use framekit.Fault.Matrix.{MayDegrade, limit_of, evaluate_matrix}

-- The runtime after a sequence of faults.
pub evaluate_all : FaultPolicyRuntime → List FaultPolicyContext → FaultPolicyRuntime
evaluate_all r [] = r
evaluate_all r (context ∷ rest) = evaluate_all (evaluate r context).0 rest

abbrev is_degrade : FaultDisposition → Bool
is_degrade degrade = true
is_degrade fail_fast = false

abbrev is_class : FaultClass → FaultClass → Bool
is_class c d = fault_class_index c == fault_class_index d

abbrev count_if : Bool → ℕ → ℕ
count_if b n = if b then suc n else n

-- How many faults of class `c` in a sequence are degraded.
pub degraded : FaultClass → FaultPolicyRuntime → List FaultPolicyContext → ℕ
degraded c r [] = 0
degraded c r (context ∷ rest) =
    count_if (is_class context.fault_class c && is_degrade (evaluate r context).1.disposition)
      (degraded c (evaluate r context).0 rest)

-- A configured runtime with its six counters.
pub record IsLive (r : FaultPolicyRuntime) : Type 0 where
  pub six : HasCounters r
  pub on : r.configured ≡ true

evaluate-IsLive :
    (r : FaultPolicyRuntime) (context : FaultPolicyContext)
    → IsLive r
    → IsLive (evaluate r context).0
evaluate-IsLive r context h =
    let counts = evaluate-Counts r context h.six h.on in
    record { six = counts.counters_kept; on = counts.configured_kept ∙ h.on }

-- A degraded fault is counted within the limit.
degraded_within :
    (r : FaultPolicyRuntime) (context : FaultPolicyContext)
    → IsLive r
    → (evaluate r context).1.disposition ≡ degrade
    → u32 (fault_count r context.fault_class + 1) ≤ limit_of r.limits context.fault_class
degraded_within r context h e =
    let counts = evaluate-Counts r context h.six h.on in
    omega (arith, counts.counted, counts.reported, ((evaluate_matrix r context h.on).0 e).within)

class_cases :
    (c d : FaultClass) → ((is_class c d ≡ true) × (c ≡ d)) ⊎ ((is_class c d ≡ false) × (d ≢ c))
class_cases c d = elim (beq_cases (fault_class_index c) (fault_class_index d)) [
  | inl (same, e) ↦ inl (same, index_injective c d e)
  | inr (other, ne) ↦ inr (other, λ e. ne (ap fault_class_index (sym e)))
]

module _ (c : FaultClass) (r : FaultPolicyRuntime) (context : FaultPolicyContext) (h : IsLive r)
    (small : fault_count r c + 1 < 4294967296) where
  abbrev now : ℕ
  now = fault_count (evaluate r context).0 c

  -- The count of class `c` grows by one at a fault of that class and stays at any other.
  count-evaluate : now ≡ count_if (is_class context.fault_class c) (fault_count r c)
  count-evaluate =
      let counts = evaluate-Counts r context h.six h.on in
      elim (class_cases context.fault_class c) [
        | inl (same, e) ↦ rw (same, ← e) (counts.counted ∙ (rw e (omega arith)))
        | inr (other, ne) ↦ rw other (counts.others c ne)
      ]

  within :
      context.fault_class ≡ c
      → (evaluate r context).1.disposition ≡ degrade
      → fault_count r c + 1 ≤ limit_of r.limits c
  within e d =
      subst (λ x. fault_count r x + 1 ≤ limit_of r.limits x) e
        (omega (
          arith,
          degraded_within r context h d,
          subst (λ x. fault_count r x + 1 < 4294967296) (sym e) small,
        ))

  step-le :
      (n : ℕ)
      → n ≤ limit_of r.limits c - now
      → count_if (is_class context.fault_class c && is_degrade (evaluate r context).1.disposition) n
        ≤ limit_of r.limits c - fault_count r c
  step-le n ih = elim (class_cases context.fault_class c) [
    | inl (same, e) ↦ ground (arith, same, count-evaluate, within e)
    | inr (other, ne) ↦ ground (arith, other, count-evaluate)
  ]

degraded-le :
    (c : FaultClass) (r : FaultPolicyRuntime) (contexts : List FaultPolicyContext)
    → IsLive r
    → fault_count r c + length contexts < 4294967296
    → degraded c r contexts ≤ limit_of r.limits c - fault_count r c
unfolding degraded
degraded-le c r [] h fits = omega arith
degraded-le c r (context ∷ rest) h fits =
    let counts = evaluate-Counts r context h.six h.on in
    step-le c r context h (omega arith) (degraded c (evaluate r context).0 rest) (
      subst
        (λ l.
          degraded c (evaluate r context).0 rest
          ≤ limit_of l c - fault_count (evaluate r context).0 c)
        counts.limits_kept
        (degraded-le c (evaluate r context).0 rest (evaluate-IsLive r context h)
          (ground (arith, count-evaluate c r context h))))

fresh_count :
    (r : FaultPolicyRuntime) (c : FaultClass) → r.counters ≡ replicate 6 0 → fault_count r c ≡ 0
unfolding fault_count
fresh_count r c e = rw e (ground arith)

record IsFresh (limits : FaultPolicyLimits) (r : FaultPolicyRuntime) : Type 0 where
  live : IsLive r
  limited : r.limits ≡ limits
  zeroed : r.counters ≡ replicate 6 0

configure-IsFresh :
    (r : FaultPolicyRuntime) (policy : LoopPolicy) (limits : FaultPolicyLimits)
    → (validate_loop_policy policy).valid ≡ true
    → IsFresh limits (configure r policy limits).0
unfolding configure
configure-IsFresh r policy limits valid =
    rw valid (record { live = record { six = refl; on = refl }; limited = refl; zeroed = refl })

-- After a configuration that is accepted, fewer than 2^32 faults are degraded at most as often, in
-- each class, as the limit of the class says; every other one is fail-fast.
pub degraded-le_limit :
    (r : FaultPolicyRuntime) (policy : LoopPolicy) (limits : FaultPolicyLimits) (c : FaultClass)
    (contexts : List FaultPolicyContext)
    → (validate_loop_policy policy).valid ≡ true
    → length contexts < 4294967296
    → degraded c (configure r policy limits).0 contexts ≤ limit_of limits c
degraded-le_limit r policy limits c contexts valid few =
    let r' = (configure r policy limits).0 in
    let fresh = configure-IsFresh r policy limits valid in
    let none_yet = fresh_count r' c fresh.zeroed in
    subst (λ l. degraded c r' contexts ≤ limit_of l c) fresh.limited
      (omega (arith, none_yet, degraded-le c r' contexts fresh.live (omega (arith, none_yet, few))))

-- The counter of a class wraps: with 2^32 - 1 faults counted, a fault that the matrix lets degrade is
-- degraded again, although its limit was passed.
pub degrade_after_wrap :
    (r : FaultPolicyRuntime) (context : FaultPolicyContext)
    → IsLive r
    → fault_count r context.fault_class ≡ 4294967295
    → context.invariant_breach ≡ false
    → r.policy.profile ≢ deterministic_host
    → MayDegrade r.policy context context.fault_class
    → 0 < limit_of r.limits context.fault_class
    → (evaluate r context).1.disposition ≡ degrade
degrade_after_wrap r context h full intact profile allowed budgeted =
    let counts = evaluate-Counts r context h.six h.on in
    (evaluate_matrix r context h.on).1 (record {
      intact = intact;
      nondeterministic = profile;
      allowed = allowed;
      budgeted = budgeted;
      within = omega (arith, counts.reported, counts.counted);
    })
