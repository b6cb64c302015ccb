-- ===== src/Multiprocess/Restart.antt =====
-- `GracefulStopChild` and `RestartChild`.
use framekit.Base.{
  ℕ, ◌+◌, Bool, true, false, not, String, concat, List, [], ◌∷◌, Option, none, some, find_if, u32,
  leb, nat_eq, string_eq, if◌then◌else◌,
}
use framekit.Base.Assoc.{insert, erase}
use framekit.Multiprocess.Types.{
  ProcessIdentity, ProcessSpec, spawned, SupervisorPolicy, ProcessLauncher, LifecycleHooks,
  has_process_id,
}
use framekit.Multiprocess.{MultiprocessRuntime, find_process_spec, restart_attempt_count}
use framekit.Multiprocess.Launch.{failed_because, parent_identity, running_identity}

-- `child_processes_.erase(it)` and `*it = ...` at the first child with the number.
unfoldable pub erase_child : ℕ → List ProcessIdentity → List ProcessIdentity
erase_child process_id [] = []
erase_child process_id (child ∷ rest) =
    if has_process_id process_id child then rest else child ∷ erase_child process_id rest

unfoldable pub replace_child : ℕ → ProcessIdentity → List ProcessIdentity → List ProcessIdentity
replace_child process_id new [] = []
replace_child process_id new (child ∷ rest) =
    if has_process_id process_id child
    then new ∷ rest
    else child ∷ replace_child process_id new rest

module _ {W : Type 0} where
  -- The calls of an interface that may be missing.
  abbrev pub graceful_stop_requested : Option (LifecycleHooks W) → ProcessIdentity → W → W
  graceful_stop_requested none identity w = w
  graceful_stop_requested (some hooks) identity w = hooks.on_graceful_stop_requested identity w

  abbrev pub graceful_stop_completed : Option (LifecycleHooks W) → ProcessIdentity → Bool → W → W
  graceful_stop_completed none identity stopped w = w
  graceful_stop_completed (some hooks) identity stopped w =
      hooks.on_graceful_stop_completed identity stopped w

  abbrev pub restart_requested : Option (LifecycleHooks W) → ProcessIdentity → W → W
  restart_requested none identity w = w
  restart_requested (some hooks) identity w = hooks.on_restart_requested identity w

  abbrev pub restart_completed :
      Option (LifecycleHooks W) → (old_identity new_identity : ProcessIdentity) → Bool → W → W
  restart_completed none old_identity new_identity restarted w = w
  restart_completed (some hooks) old_identity new_identity restarted w =
      hooks.on_restart_completed old_identity new_identity restarted w

  abbrev pub stopped_notice : Option (SupervisorPolicy W) → ProcessIdentity → W → W
  stopped_notice none identity w = w
  stopped_notice (some policy) identity w = policy.on_stopped identity w

module _ {W C D : Type 0} where
  unfoldable pub stop_found :
      ProcessLauncher W
      → ProcessIdentity
      → MultiprocessRuntime W C D
      → MultiprocessRuntime W C D × Bool
  stop_found launcher identity r =
      let (w, stopped) =
        launcher.stop_child identity (graceful_stop_requested r.lifecycle_hooks identity r.world) in
      let r' = record r {
        world =
            graceful_stop_completed r.lifecycle_hooks identity stopped
              (stopped_notice r.supervisor_policy identity w);
      } in
      if not stopped then failed_because r' "failed to stop child process" else (
        record r' {
          child_processes = erase_child identity.process_id r.child_processes;
          child_handshakes = erase identity.process_id r.child_handshakes;
          heartbeat_counters = erase identity.process_id r.heartbeat_counters;
        },
        true,
      )

  abbrev pub stop_with :
      Option (ProcessLauncher W)
      → Option ProcessIdentity
      → MultiprocessRuntime W C D
      → MultiprocessRuntime W C D × Bool
  stop_with none found r = failed_because r "process launcher is not configured"
  stop_with (some launcher) none r = failed_because r "child process not found"
  stop_with (some launcher) (some identity) r = stop_found launcher identity r

  unfoldable pub graceful_stop_child :
      MultiprocessRuntime W C D → ℕ → MultiprocessRuntime W C D × Bool
  unfolding stop_found erase_child
  graceful_stop_child r process_id =
      stop_with r.process_launcher (find_if (has_process_id process_id) r.child_processes) r

  -- `operator[]` makes a counter that is missing, also where the budget is exhausted.
  abbrev pub consume_with :
      Option ProcessSpec → MultiprocessRuntime W C D → MultiprocessRuntime W C D × Bool
  consume_with none r = failed_because r "process spec not found for restart target"
  consume_with (some spec) r =
      let count = restart_attempt_count r spec.name in
      if not spec.auto_restart
      then failed_because r (concat "auto restart is disabled for process: " spec.name)
      else (if leb spec.max_restart_attempts count
          then failed_because
              (record r {
                restart_attempt_counters = insert spec.name count r.restart_attempt_counters;
              })
              (concat "restart budget exhausted for process: " spec.name)
          else (
            record r {
              restart_attempt_counters =
                  insert spec.name (u32 (count + 1)) r.restart_attempt_counters;
            },
            true,
          ))

  unfoldable pub consume_restart_budget :
      MultiprocessRuntime W C D → ProcessIdentity → MultiprocessRuntime W C D × Bool
  consume_restart_budget r identity = consume_with (find_process_spec r identity) r

  abbrev pub restart_failed :
      ProcessIdentity → String → MultiprocessRuntime W C D → MultiprocessRuntime W C D × Bool
  restart_failed old_identity error r =
      failed_because
        (record r {
          world = restart_completed r.lifecycle_hooks old_identity old_identity false r.world;
        })
        error

  -- `old_identity` is a reference to the child in `child_processes_`: after `*it = new_identity` it
  -- reads as the new one, in the two erasures and in the call of the hook.
  abbrev pub relaunched :
      (old_identity : ProcessIdentity)
      → Option ProcessIdentity
      → MultiprocessRuntime W C D
      → MultiprocessRuntime W C D × Bool
  relaunched old_identity none r = restart_failed old_identity "failed to relaunch child process" r
  relaunched old_identity (some new_identity) r = (
    record r {
      child_processes = replace_child old_identity.process_id new_identity r.child_processes;
      child_handshakes =
          insert new_identity.process_id
            (record { child = new_identity; state = spawned; detail = "" })
            (erase new_identity.process_id r.child_handshakes);
      heartbeat_counters =
          insert new_identity.process_id 0 (erase new_identity.process_id r.heartbeat_counters);
      world = restart_completed r.lifecycle_hooks new_identity new_identity true r.world;
      last_error = "";
    },
    true,
  )

  -- The loops of `RelaunchChild` over the child and the specs, once the child is stopped.
  abbrev pub relaunch_spec :
      ProcessLauncher W
      → (old_identity : ProcessIdentity) → Option ProcessSpec
      → MultiprocessRuntime W C D
      → MultiprocessRuntime W C D × Bool
  relaunch_spec launcher old_identity none r =
      restart_failed old_identity "process spec not found for restart" r
  relaunch_spec launcher old_identity (some spec) r =
      let (w, launched) = launcher.launch_child parent_identity spec r.world in
      relaunched old_identity (running_identity launched) (record r { world = w })

  abbrev pub relaunch_with :
      Option (ProcessLauncher W)
      → (old_identity : ProcessIdentity) → MultiprocessRuntime W C D
      → MultiprocessRuntime W C D × Bool
  relaunch_with none old_identity r = failed_because r "process launcher is not configured"
  relaunch_with (some launcher) old_identity r =
      let (w, stopped) =
        launcher.stop_child old_identity
          (restart_requested r.lifecycle_hooks old_identity r.world) in
      let r' = record r { world = w } in
      if not stopped
      then restart_failed old_identity "failed to stop child process before restart" r'
      else relaunch_spec launcher old_identity (find_process_spec r old_identity) r'

  unfoldable pub relaunch_child :
      MultiprocessRuntime W C D → ProcessIdentity → MultiprocessRuntime W C D × Bool
  unfolding replace_child
  relaunch_child r old_identity = relaunch_with r.process_launcher old_identity r

  abbrev pub relaunch_if :
      ProcessIdentity → MultiprocessRuntime W C D × Bool → MultiprocessRuntime W C D × Bool
  relaunch_if child (r, true) = relaunch_child r child
  relaunch_if child (r, false) = (r, false)

  abbrev pub restart_found :
      Option ProcessIdentity → MultiprocessRuntime W C D → MultiprocessRuntime W C D × Bool
  restart_found none r = failed_because r "child process not found for restart"
  restart_found (some child) r = relaunch_if child (consume_restart_budget r child)

  unfoldable pub restart_child : MultiprocessRuntime W C D → ℕ → MultiprocessRuntime W C D × Bool
  unfolding consume_restart_budget relaunch_child
  restart_child r process_id =
      restart_found (find_if (has_process_id process_id) r.child_processes)
        (record r { last_error = "" })
