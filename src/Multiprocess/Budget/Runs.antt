-- ===== src/Multiprocess/Budget/Runs.antt =====
-- The runs of a runtime that is configured once, with any calls after that.
use framekit.Base.{ℕ, ◌≤◌, refl, String, Option, arith}
use framekit.Base.Assoc.{lookup}
use framekit.Multiprocess.Types.{
  ApplicationSpec, TransportFactory, LifecycleHooks, ProcessLauncher, SupervisorPolicy,
  LivenessPolicy, ControlChannels, ChildHandshakeState,
}
use framekit.Multiprocess.{
  MultiprocessRuntime, new_multiprocess_runtime, configure_application, restart_attempt_count,
  record_heartbeat, set_child_handshake_state, set_supervisor_policy, set_process_launcher,
  set_transport_factory, set_liveness_policy, set_lifecycle_hooks,
}
use framekit.Multiprocess.Starts.{start_processes}
use framekit.Multiprocess.Restart.{graceful_stop_child, restart_child}
use framekit.Multiprocess.Ticks.{tick, stop_processes}
use framekit.Multiprocess.Budget.{restart_budget, WithinBudget}
use framekit.Multiprocess.Budget.Steps.{same, start_processes-Kept}
use framekit.Multiprocess.Budget.Restarts.{
  graceful_stop_child-Kept, restart_child-Kept, tick-Kept, stop_processes-Kept,
}

module _ {W C D : Type 0} (channels : ControlChannels W C) (spec : ApplicationSpec) where
  pub data Run : MultiprocessRuntime W C D → Type 0 where
    run_new : (w : W) → Run (configure_application (new_multiprocess_runtime w) spec)
    run_start : {r : MultiprocessRuntime W C D} → Run r → Run (start_processes channels r).0
    run_tick : {r : MultiprocessRuntime W C D} → Run r → Run (tick r)
    run_restart :
        {r : MultiprocessRuntime W C D} (process_id : ℕ)
        → Run r
        → Run (restart_child r process_id).0
    run_stop_child :
        {r : MultiprocessRuntime W C D} (process_id : ℕ)
        → Run r
        → Run (graceful_stop_child r process_id).0
    run_stop : {r : MultiprocessRuntime W C D} → Run r → Run (stop_processes channels r)
    run_heartbeat :
        {r : MultiprocessRuntime W C D} (process_id sequence_id : ℕ)
        → Run r
        → Run (record_heartbeat r process_id sequence_id)
    run_handshake :
        {r : MultiprocessRuntime W C D} (process_id : ℕ) (state : ChildHandshakeState)
        (detail : String)
        → Run r
        → Run (set_child_handshake_state r process_id state detail)
    run_supervisor :
        {r : MultiprocessRuntime W C D} (policy : Option (SupervisorPolicy W))
        → Run r
        → Run (set_supervisor_policy r policy)
    run_launcher :
        {r : MultiprocessRuntime W C D} (launcher : Option (ProcessLauncher W))
        → Run r
        → Run (set_process_launcher r launcher)
    run_factory :
        {r : MultiprocessRuntime W C D} (factory : Option (TransportFactory W C D))
        → Run r
        → Run (set_transport_factory r factory)
    run_liveness :
        {r : MultiprocessRuntime W C D} (policy : Option (LivenessPolicy W))
        → Run r
        → Run (set_liveness_policy r policy)
    run_hooks :
        {r : MultiprocessRuntime W C D} (hooks : Option (LifecycleHooks W))
        → Run r
        → Run (set_lifecycle_hooks r hooks)

  Run-WithinBudget : (r : MultiprocessRuntime W C D) → Run r → WithinBudget spec r
  unfolding configure_application new_multiprocess_runtime record_heartbeat
      set_child_handshake_state set_supervisor_policy set_process_launcher set_transport_factory
      set_liveness_policy set_lifecycle_hooks restart_attempt_count lookup
  Run-WithinBudget _ (run_new w) = record { configured = refl; within = λ name. omega arith }
  Run-WithinBudget _ (run_start run) = start_processes-Kept spec channels _ (Run-WithinBudget _ run)
  Run-WithinBudget _ (run_tick run) = tick-Kept spec _ (Run-WithinBudget _ run)
  Run-WithinBudget _ (run_restart process_id run) =
      restart_child-Kept spec _ process_id (Run-WithinBudget _ run)
  Run-WithinBudget _ (run_stop_child process_id run) =
      graceful_stop_child-Kept spec _ process_id (Run-WithinBudget _ run)
  Run-WithinBudget _ (run_stop run) = stop_processes-Kept spec channels _ (Run-WithinBudget _ run)
  Run-WithinBudget _ (run_heartbeat {r} process_id sequence_id run) =
      same spec r _ refl refl (Run-WithinBudget r run)
  Run-WithinBudget _ (run_handshake {r} process_id state detail run) =
      same spec r _ refl refl (Run-WithinBudget r run)
  Run-WithinBudget _ (run_supervisor {r} policy run) =
      same spec r _ refl refl (Run-WithinBudget r run)
  Run-WithinBudget _ (run_launcher {r} launcher run) =
      same spec r _ refl refl (Run-WithinBudget r run)
  Run-WithinBudget _ (run_factory {r} factory run) =
      same spec r _ refl refl (Run-WithinBudget r run)
  Run-WithinBudget _ (run_liveness {r} policy run) =
      same spec r _ refl refl (Run-WithinBudget r run)
  Run-WithinBudget _ (run_hooks {r} hooks run) = same spec r _ refl refl (Run-WithinBudget r run)

-- In every run of a runtime that is configured once, with starts, ticks, restarts, stops,
-- heartbeats, handshakes and changes of its interfaces in any order and with any launcher and
-- policies, the number of restart attempts counted for a process name is at most the largest
-- max_restart_attempts of the nodes of that name that allow restarts at all: 0 where no node does.
pub restart_attempts-bounded :
    {W C D : Type 0} (channels : ControlChannels W C) (spec : ApplicationSpec)
    (r : MultiprocessRuntime W C D)
    → Run channels spec r
    → (name : String)
    → restart_attempt_count r name ≤ restart_budget spec.process_topology.nodes name
restart_attempts-bounded channels spec r run name =
    (Run-WithinBudget channels spec r run).within name
