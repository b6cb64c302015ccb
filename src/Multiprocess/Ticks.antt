-- ===== src/Multiprocess/Ticks.antt =====
-- `Tick` and `Stop`.
use framekit.Base.{false, not, List, [], ◌∷◌, Option, none, some, find_if, if◌then◌else◌}
use framekit.Multiprocess.Types.{
  ProcessIdentity, SupervisorPolicy, LivenessPolicy, ControlChannels, has_process_id,
}
use framekit.Multiprocess.{MultiprocessRuntime, heartbeat_count}
use framekit.Multiprocess.Launch.{cleared}
use framekit.Multiprocess.Starts.{drop_transport}
use framekit.Multiprocess.Restart.{graceful_stop_child, restart_child}

module _ {W C D : Type 0} where
  abbrev pub tick_found :
      SupervisorPolicy W
      → LivenessPolicy W
      → Option ProcessIdentity
      → MultiprocessRuntime W C D
      → MultiprocessRuntime W C D
  tick_found supervisor liveness none r = r
  tick_found supervisor liveness (some child) r =
      let count = heartbeat_count r child.process_id in
      let (w, restarts) =
        supervisor.should_restart child (supervisor.on_heartbeat_missed child r.world) in
      let missed = record r { world = w } in
      if not (liveness.is_process_alive child count r.world)
      then (if restarts then (restart_child missed child.process_id).0 else missed)
      else r

  -- The loop of `Tick` over the numbers that the children had when it began.
  unfoldable pub tick_children :
      SupervisorPolicy W
      → LivenessPolicy W
      → List ProcessIdentity
      → MultiprocessRuntime W C D
      → MultiprocessRuntime W C D
  tick_children supervisor liveness [] r = r
  tick_children supervisor liveness (child ∷ rest) r = tick_children supervisor liveness rest (
      tick_found supervisor liveness (find_if (has_process_id child.process_id) r.child_processes)
        r)

  abbrev pub tick_with :
      Option (SupervisorPolicy W)
      → Option (LivenessPolicy W)
      → MultiprocessRuntime W C D
      → MultiprocessRuntime W C D
  tick_with none liveness r = r
  tick_with (some supervisor) none r = r
  tick_with (some supervisor) (some liveness) r =
      tick_children supervisor liveness r.child_processes r

  unfoldable pub tick : MultiprocessRuntime W C D → MultiprocessRuntime W C D
  unfolding tick_children
  tick r = if not r.running then r else tick_with r.supervisor_policy r.liveness_policy r

  -- The loop of `Stop` over the numbers of the children.
  unfoldable pub stop_children :
      List ProcessIdentity → MultiprocessRuntime W C D → MultiprocessRuntime W C D
  stop_children [] r = r
  stop_children (child ∷ rest) r = stop_children rest (graceful_stop_child r child.process_id).0

  unfoldable pub stop_processes :
      ControlChannels W C → MultiprocessRuntime W C D → MultiprocessRuntime W C D
  unfolding stop_children
  stop_processes channels r =
      let stopped = stop_children r.child_processes r in
      record (drop_transport channels (cleared stopped)) { running = false; last_error = "" }
