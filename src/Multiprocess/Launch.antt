-- ===== src/Multiprocess/Launch.antt =====
-- The launch of the children, with its rollback.
use framekit.Base.{
  Bool, true, false, not, String, concat, List, [], ◌∷◌, ◌++◌, reverse, Option, none, some,
  is_empty, nat_eq, string_eq, if◌then◌else◌,
}
use framekit.Base.Assoc.{insert}
use framekit.Multiprocess.Types.{
  ProcessIdentity, ProcessSpec, primary, spawned, ChildProcessHandle, ProcessLauncher, same_role,
}
use framekit.Multiprocess.{MultiprocessRuntime, set_child_handshake_state, find_process_spec}

abbrev pub parent_identity : ProcessIdentity
parent_identity = record { process_id = 1; role_name = "primary"; role = primary }

-- The loop of the rollback over the children, the last one first, with those that failed so far.
unfoldable pub stop_launched :
    {W : Type 0}
    → ProcessLauncher W
    → List ProcessIdentity
    → W
    → (failed : List ProcessIdentity) → W × List ProcessIdentity
stop_launched launcher [] w failed = (w, failed)
stop_launched launcher (child ∷ rest) w failed =
    let (w', stopped) = launcher.stop_child child w in
    stop_launched launcher rest w' (if not stopped then failed ++ child ∷ [] else failed)

abbrev pub running_identity : Option ChildProcessHandle → Option ProcessIdentity
running_identity none = none
running_identity (some handle) = if handle.is_running then some handle.identity else none

module _ {W C D : Type 0} where
  abbrev pub failed_because : MultiprocessRuntime W C D → String → MultiprocessRuntime W C D × Bool
  failed_because r error = (record r { last_error = error }, false)

  abbrev pub with_restart_counter :
      Option ProcessSpec → MultiprocessRuntime W C D → MultiprocessRuntime W C D
  with_restart_counter none r = r
  with_restart_counter (some spec) r = record r {
    restart_attempt_counters = insert spec.name 0 r.restart_attempt_counters;
  }

  unfoldable pub retain_child :
      ProcessIdentity → MultiprocessRuntime W C D → MultiprocessRuntime W C D
  retain_child child r = with_restart_counter (find_process_spec r child) (record r {
    child_handshakes =
        insert child.process_id
          (record { child = child; state = spawned; detail = "rollback-stop-failed" })
          r.child_handshakes;
    heartbeat_counters = insert child.process_id 0 r.heartbeat_counters;
  })

  unfoldable pub retain_children :
      List ProcessIdentity → MultiprocessRuntime W C D → MultiprocessRuntime W C D
  unfolding retain_child
  retain_children [] r = r
  retain_children (child ∷ rest) r = retain_children rest (retain_child child r)

  abbrev pub cleared : MultiprocessRuntime W C D → MultiprocessRuntime W C D
  cleared r = record r {
    child_processes = [];
    child_handshakes = [];
    heartbeat_counters = [];
    restart_attempt_counters = [];
  }

  -- The end of the rollback, with the children whose stop failed, the last one first.
  abbrev pub rolled_back :
      W
      → (failed : List ProcessIdentity) → MultiprocessRuntime W C D
      → MultiprocessRuntime W C D × Bool
  rolled_back w failed r =
      let stopped = record (cleared r) { world = w } in
      if is_empty failed then (stopped, true) else (
        retain_children (reverse failed) (record stopped { child_processes = reverse failed }),
        false,
      )

  unfoldable pub rollback_launch_state :
      ProcessLauncher W → MultiprocessRuntime W C D → MultiprocessRuntime W C D × Bool
  rollback_launch_state launcher r =
      let (w, failed) = stop_launched launcher (reverse r.child_processes) r.world [] in
      rolled_back w failed r

  abbrev pub rollback_reported :
      (error : String) → MultiprocessRuntime W C D × Bool → MultiprocessRuntime W C D × Bool
  rollback_reported error (r, is_rolled_back) =
      failed_because r (if not is_rolled_back then concat error "; rollback stop failed" else error)

  unfoldable pub launch_failed :
      ProcessLauncher W → ProcessSpec → MultiprocessRuntime W C D → MultiprocessRuntime W C D × Bool
  unfolding rollback_launch_state
  launch_failed launcher node r =
      let error = concat "failed to launch child process: " node.name in
      rollback_reported error (rollback_launch_state launcher (record r { last_error = error }))

  unfoldable pub child_launched :
      ProcessSpec → ProcessIdentity → MultiprocessRuntime W C D → MultiprocessRuntime W C D
  child_launched node identity r =
      let r' =
        set_child_handshake_state
          (record r { child_processes = r.child_processes ++ identity ∷ [] }) identity.process_id
          spawned "" in
      record r' {
        heartbeat_counters = insert identity.process_id 0 r.heartbeat_counters;
        restart_attempt_counters = insert node.name 0 r.restart_attempt_counters;
      }

  -- The loop over the nodes of the topology.
  unfoldable pub launch_nodes :
      ProcessLauncher W
      → List ProcessSpec
      → MultiprocessRuntime W C D
      → MultiprocessRuntime W C D × Bool
  unfolding launch_failed child_launched
  launch_nodes launcher [] r = (r, true)
  launch_nodes launcher (node ∷ rest) r =
      let (w, launched) = launcher.launch_child parent_identity node r.world in
      let r' = record r { world = w } in
      let skipped = launch_nodes launcher rest r in
      if same_role node.role primary then skipped else elim (running_identity launched) [
        | none ↦ launch_failed launcher node r'
        | some identity ↦ launch_nodes launcher rest (child_launched node identity r')
      ]

  abbrev pub launch_with :
      Option (ProcessLauncher W) → MultiprocessRuntime W C D → MultiprocessRuntime W C D × Bool
  launch_with none r =
      if not (is_empty r.spec.process_topology.nodes)
      then failed_because r "process launcher is required for non-empty process topology"
      else (r, true)
  launch_with (some launcher) r = launch_nodes launcher r.spec.process_topology.nodes r

  unfoldable pub launch_children : MultiprocessRuntime W C D → MultiprocessRuntime W C D × Bool
  unfolding launch_nodes
  launch_children r = launch_with r.process_launcher (cleared r)
