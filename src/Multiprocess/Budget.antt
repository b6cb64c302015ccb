-- ===== src/Multiprocess/Budget.antt =====
-- The restart budget: the counters that `ConsumeRestartBudget`, `Start` and `Stop` write.
pub mod Steps
pub mod Restarts
pub mod Runs
use framekit.Base.{
  ℕ, ◌+◌, ◌≤◌, ◌<◌, ◌≡◌, refl, sym, ap, subst, ◌∙◌, Bool, true, false, not, ◌&&◌, String, List, [],
  ◌∷◌, Option, none, some, find_if, u32, leb, ltb, ◌==◌, nat_eq, string_eq, if◌then◌else◌, arith,
}
use framekit.Base.Assoc.{lookup, insert, lookup-insert}
use framekit.Multiprocess.Types.{
  ProcessIdentity, ProcessSpec, ApplicationSpec, ProcessLauncher, is_spec_of, or_zero, same_role,
  primary,
}
use framekit.Multiprocess.{MultiprocessRuntime, find_process_spec, restart_attempt_count}

-- The largest `max_restart_attempts` of the nodes of that name that restart at all.
unfoldable pub restart_budget : List ProcessSpec → String → ℕ
restart_budget [] name = 0
restart_budget (node ∷ rest) name =
    let others = restart_budget rest name in
    if node.name == name && node.auto_restart && ltb others node.max_restart_attempts
    then node.max_restart_attempts
    else others

restart_budget-found :
    (nodes : List ProcessSpec) (identity : ProcessIdentity) (node : ProcessSpec)
    → find_if (is_spec_of identity) nodes ≡ some node
    → node.auto_restart ≡ true
    → node.max_restart_attempts ≤ restart_budget nodes node.name
unfolding restart_budget find_if
restart_budget-found [] identity node found restarts = ground arith
restart_budget-found (first ∷ rest) identity node found restarts =
    ground
      (arith, restart_budget-found rest identity node, string_eq.is_equal_iff node.name node.name)

pub mod_le : (n : ℕ) → u32 n ≤ n
mod_le n = omega arith

module _ {W C D : Type 0} where
  -- The runtime has that specification, and no counter is above the budget of its name.
  pub record WithinBudget (spec : ApplicationSpec) (r : MultiprocessRuntime W C D) : Type 0 where
    pub configured : r.spec ≡ spec
    pub within :
        (name : String)
        → restart_attempt_count r name ≤ restart_budget spec.process_topology.nodes name

  -- The specification and the counters are left alone.
  pub record SameCounters (r r' : MultiprocessRuntime W C D) : Type 0 where
    pub specs : r'.spec ≡ r.spec
    pub counters : r'.restart_attempt_counters ≡ r.restart_attempt_counters

  pub SameCounters-WithinBudget :
      (spec : ApplicationSpec) (r r' : MultiprocessRuntime W C D)
      → SameCounters r r'
      → WithinBudget spec r
      → WithinBudget spec r'
  unfolding restart_attempt_count
  SameCounters-WithinBudget spec r r' same kept = record {
    configured = same.specs ∙ kept.configured;
    within = λ name. rw (same.counters) (kept.within name);
  }

  -- A counter is written that is within its budget.
  pub insert-WithinBudget :
      (spec : ApplicationSpec) (r : MultiprocessRuntime W C D) (name : String) (count : ℕ)
      → count ≤ restart_budget spec.process_topology.nodes name
      → WithinBudget spec r
      → WithinBudget spec
          (record r { restart_attempt_counters = insert name count r.restart_attempt_counters })
  unfolding restart_attempt_count
  insert-WithinBudget spec r name count small kept = record {
    configured = kept.configured;
    within = λ other. ground (
      arith,
      lookup-insert name other count r.restart_attempt_counters,
      kept.within other,
      string_eq.is_equal_iff name other,
    );
  }

  pub cleared-WithinBudget :
      (spec : ApplicationSpec) (r : MultiprocessRuntime W C D)
      → WithinBudget spec r
      → WithinBudget spec (record r { restart_attempt_counters = [] })
  unfolding restart_attempt_count lookup
  cleared-WithinBudget spec r kept = record {
    configured = kept.configured;
    within = λ name. omega arith;
  }

  -- An attempt that the node of a child allows is within the budget of its name.
  pub restart_budget-spec :
      (spec : ApplicationSpec) (r : MultiprocessRuntime W C D) (identity : ProcessIdentity)
      (node : ProcessSpec)
      → WithinBudget spec r
      → find_process_spec r identity ≡ some node
      → node.auto_restart ≡ true
      → node.max_restart_attempts ≤ restart_budget spec.process_topology.nodes node.name
  unfolding find_process_spec
  restart_budget-spec spec r identity node kept is_found =
      restart_budget-found spec.process_topology.nodes identity node (
        ap (λ (s : ApplicationSpec). find_if (is_spec_of identity) s.process_topology.nodes)
          (sym kept.configured)
        ∙ is_found)
