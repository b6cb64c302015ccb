-- ===== src/Multiprocess/Budget/Restarts.antt =====
-- The operations that stop and restart children, and the budget of a runtime as it runs.
use framekit.Base.{
  ℕ, ◌+◌, ◌≡◌, refl, Bool, true, false, not, List, [], ◌∷◌, Option, none, some, find_if, u32,
  nat_eq, string_eq, if◌then◌else◌, arith,
}
use framekit.Base.Assoc.{lookup-insert}
use framekit.Multiprocess.Types.{
  ProcessIdentity, ProcessSpec, ApplicationSpec, ProcessLauncher, SupervisorPolicy, LivenessPolicy,
  ControlChannels, has_process_id,
}
use framekit.Multiprocess.{MultiprocessRuntime, find_process_spec, restart_attempt_count}
use framekit.Multiprocess.Launch
use framekit.Multiprocess.Restart
use framekit.Multiprocess.Ticks
use framekit.Multiprocess.Budget.{
  mod_le, restart_budget-spec, WithinBudget, SameCounters, SameCounters-WithinBudget,
  cleared-WithinBudget,
}
use framekit.Multiprocess.Budget.Steps.{same}

module _ {W C D : Type 0} (spec : ApplicationSpec) where
  abbrev Kept : MultiprocessRuntime W C D → Type 0
  Kept r = WithinBudget spec r

  abbrev KeptBy : MultiprocessRuntime W C D × Bool → Type 0
  KeptBy (r, done) = Kept r

  stop_found-SameCounters :
      (launcher : ProcessLauncher W) (identity : ProcessIdentity) (r : MultiprocessRuntime W C D)
      → SameCounters r (Restart.stop_found launcher identity r).0
  unfolding Restart.stop_found
  stop_found-SameCounters launcher identity r = record {
    specs = ground arith;
    counters = ground arith;
  }

  pub graceful_stop_child-Kept :
      (r : MultiprocessRuntime W C D) (process_id : ℕ)
      → Kept r
      → Kept (Restart.graceful_stop_child r process_id).0
  unfolding Restart.graceful_stop_child
  graceful_stop_child-Kept r process_id kept =
      stop_with-Kept r.process_launcher (find_if (has_process_id process_id) r.child_processes)
    where
      stop_with-Kept :
          (launcher : Option (ProcessLauncher W)) (found : Option ProcessIdentity)
          → Kept (Restart.stop_with launcher found r).0
      stop_with-Kept none found = same spec r _ refl refl kept
      stop_with-Kept (some launcher) none = same spec r _ refl refl kept
      stop_with-Kept (some launcher) (some identity) =
          SameCounters-WithinBudget spec r _ (stop_found-SameCounters launcher identity r) kept

  -- The counter is not above the budget where one more attempt is taken.
  consume_with-Kept :
      (identity : ProcessIdentity) (r : MultiprocessRuntime W C D) (found : Option ProcessSpec)
      → find_process_spec r identity ≡ found
      → Kept r
      → Kept (Restart.consume_with found r).0
  unfolding find_process_spec restart_attempt_count
  consume_with-Kept identity r none is_found kept = same spec r _ refl refl kept
  consume_with-Kept identity r (some node) is_found kept =
      let count = restart_attempt_count r node.name in
      record {
        configured = ground (arith, kept.configured);
        within = λ other. ground (
          arith,
          lookup-insert node.name other count r.restart_attempt_counters,
          lookup-insert node.name other (u32 (count + 1)) r.restart_attempt_counters,
          mod_le (count + 1),
          kept.within other,
          kept.within node.name,
          restart_budget-spec spec r identity node kept is_found,
          string_eq.is_equal_iff node.name other,
        );
      }

  relaunched-SameCounters :
      (old : ProcessIdentity) (launched : Option ProcessIdentity) (r : MultiprocessRuntime W C D)
      → SameCounters r (Restart.relaunched old launched r).0
  relaunched-SameCounters old none r = record { specs = refl; counters = refl }
  relaunched-SameCounters old (some new) r = record { specs = refl; counters = refl }

  relaunch_spec-Kept :
      (launcher : ProcessLauncher W) (old : ProcessIdentity) (found : Option ProcessSpec)
      (r : MultiprocessRuntime W C D)
      → Kept r
      → Kept (Restart.relaunch_spec launcher old found r).0
  relaunch_spec-Kept launcher old none r kept = same spec r _ refl refl kept
  relaunch_spec-Kept launcher old (some node) r kept =
      let (w, launched) = launcher.launch_child Launch.parent_identity node r.world in
      let r' = record r { world = w } in
      SameCounters-WithinBudget spec r' _
        (relaunched-SameCounters old (Launch.running_identity launched) r')
        (same spec r r' refl refl kept)

  relaunch_child-Kept :
      (r : MultiprocessRuntime W C D) (old : ProcessIdentity)
      → Kept r
      → Kept (Restart.relaunch_child r old).0
  unfolding Restart.relaunch_child
  relaunch_child-Kept r old kept =
      elim r.process_launcher as (λ launcher. KeptBy (Restart.relaunch_with launcher old r)) [
        | none ↦ same spec r _ refl refl kept
        | some launcher ↦
            let (w, stopped) =
              launcher.stop_child old (Restart.restart_requested r.lifecycle_hooks old r.world) in
            let r' = record r { world = w } in
            elim stopped
              as (λ ok. KeptBy (
                if not ok
                then Restart.restart_failed old "failed to stop child process before restart" r'
                else Restart.relaunch_spec launcher old (find_process_spec r old) r')) [
                  | false ↦ same spec r _ refl refl kept
                  | true ↦
                      relaunch_spec-Kept launcher old (find_process_spec r old) r'
                        (same spec r r' refl refl kept)
                ]
      ]

  relaunch_if-Kept :
      (child : ProcessIdentity) (consumed : MultiprocessRuntime W C D × Bool)
      → KeptBy consumed
      → KeptBy (Restart.relaunch_if child consumed)
  relaunch_if-Kept child (r, true) kept = relaunch_child-Kept r child kept
  relaunch_if-Kept child (r, false) kept = kept

  restart_found-Kept :
      (found : Option ProcessIdentity) (r : MultiprocessRuntime W C D)
      → Kept r
      → KeptBy (Restart.restart_found found r)
  unfolding Restart.consume_restart_budget
  restart_found-Kept none r kept = same spec r _ refl refl kept
  restart_found-Kept (some child) r kept =
      relaunch_if-Kept child (Restart.consume_restart_budget r child)
        (consume_with-Kept child r (find_process_spec r child) refl kept)

  pub restart_child-Kept :
      (r : MultiprocessRuntime W C D) (process_id : ℕ)
      → Kept r
      → Kept (Restart.restart_child r process_id).0
  unfolding Restart.restart_child
  restart_child-Kept r process_id kept =
      restart_found-Kept (find_if (has_process_id process_id) r.child_processes)
        (record r { last_error = "" }) (same spec r _ refl refl kept)

  tick_found-Kept :
      (supervisor : SupervisorPolicy W) (liveness : LivenessPolicy W)
      (found : Option ProcessIdentity) (r : MultiprocessRuntime W C D)
      → Kept r
      → Kept (Ticks.tick_found supervisor liveness found r)
  tick_found-Kept supervisor liveness none r kept = kept
  tick_found-Kept supervisor liveness (some child) r kept =
      let (w, restarts) =
        supervisor.should_restart child (supervisor.on_heartbeat_missed child r.world) in
      let missed = record r { world = w } in
      let kept' = same spec r missed refl refl kept in
      if-Kept _ (if-Kept restarts (restart_child-Kept missed child.process_id kept') kept') kept
    where
      if-Kept :
          (b : Bool) {then_ else_ : MultiprocessRuntime W C D}
          → Kept then_
          → Kept else_
          → Kept (if b then then_ else else_)
      if-Kept true kept_then kept_else = kept_then
      if-Kept false kept_then kept_else = kept_else

  tick_children-Kept :
      (supervisor : SupervisorPolicy W) (liveness : LivenessPolicy W)
      (children : List ProcessIdentity) (r : MultiprocessRuntime W C D)
      → Kept r
      → Kept (Ticks.tick_children supervisor liveness children r)
  unfolding Ticks.tick_children
  tick_children-Kept supervisor liveness [] r kept = kept
  tick_children-Kept supervisor liveness (child ∷ rest) r kept =
      tick_children-Kept supervisor liveness rest _ (
        tick_found-Kept supervisor liveness
          (find_if (has_process_id child.process_id) r.child_processes) r kept)

  tick_with-Kept :
      (supervisor : Option (SupervisorPolicy W)) (liveness : Option (LivenessPolicy W))
      (r : MultiprocessRuntime W C D)
      → Kept r
      → Kept (Ticks.tick_with supervisor liveness r)
  tick_with-Kept none liveness r kept = kept
  tick_with-Kept (some supervisor) none r kept = kept
  tick_with-Kept (some supervisor) (some liveness) r kept =
      tick_children-Kept supervisor liveness r.child_processes r kept

  pub tick-Kept : (r : MultiprocessRuntime W C D) → Kept r → Kept (Ticks.tick r)
  unfolding Ticks.tick
  tick-Kept r kept =
      elim r.running
        as (λ running.
          Kept
            (if not running then r else Ticks.tick_with r.supervisor_policy r.liveness_policy r)) [
              | false ↦ kept
              | true ↦ tick_with-Kept r.supervisor_policy r.liveness_policy r kept
            ]

  stop_children-Kept :
      (children : List ProcessIdentity) (r : MultiprocessRuntime W C D)
      → Kept r
      → Kept (Ticks.stop_children children r)
  unfolding Ticks.stop_children
  stop_children-Kept [] r kept = kept
  stop_children-Kept (child ∷ rest) r kept =
      stop_children-Kept rest _ (graceful_stop_child-Kept r child.process_id kept)

  pub stop_processes-Kept :
      (channels : ControlChannels W C) (r : MultiprocessRuntime W C D)
      → Kept r
      → Kept (Ticks.stop_processes channels r)
  unfolding Ticks.stop_processes
  stop_processes-Kept channels r kept =
      let stopped = Ticks.stop_children r.child_processes r in
      same spec (record stopped { restart_attempt_counters = [] }) _ refl refl
        (cleared-WithinBudget spec stopped (stop_children-Kept r.child_processes r kept))
