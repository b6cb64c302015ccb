-- ===== src/Samples/Processes.antt =====
-- The multiprocess runtime with a launcher that numbers its calls.
use framekit.Base.{
  ℕ, ◌+◌, ◌≤◌, ◌≡◌, refl, true, false, not, String, List, [], ◌∷◌, some, find_if, ◌==◌, nat_eq,
  string_eq,
}
use framekit.Base.Assoc.{lookup, insert}
use framekit.Multiprocess.Types.{
  ProcessSpec, worker, ApplicationSpec, multi_process, no_transport, ready, ProcessLauncher,
  ControlChannels,
}
use framekit.Multiprocess.{
  MultiprocessRuntime, new_multiprocess_runtime, configure_application, set_process_launcher,
  set_child_handshake_state, restart_attempt_count, find_process_spec,
}
use framekit.Multiprocess.Launch.{
  launch_children, launch_nodes, launch_failed, rollback_launch_state, stop_launched,
  retain_children, retain_child, child_launched,
}
use framekit.Multiprocess.Starts.{start_processes}
use framekit.Multiprocess.Restart.{restart_child}
use framekit.Multiprocess.Budget.{restart_budget}
use framekit.Multiprocess.Budget.Runs.{
  Run, run_new, run_launcher, run_start, run_restart, restart_attempts-bounded,
}
use framekit.Multiprocess.Rollback.{
  launches, launch_outcome, expected_outcome, launch_children-outcome,
}

-- A process has the number of the call that made it; "bad" does not run, and the process 1 does
-- not stop.
abbrev counting_launcher : ProcessLauncher ℕ
counting_launcher = record {
  launch_child = λ parent spec w. (
    w + 1,
    some (record {
      identity = record { process_id = w; role_name = spec.name; role = spec.role };
      is_running = not (spec.name == "bad");
    }),
  );
  stop_child = λ identity w. (w + 1, not (identity.process_id == 1));
}

abbrev node_of : String → ℕ → ProcessSpec
node_of name attempts = record {
  name = name;
  role = worker;
  executable_path = name;
  arguments = [];
  environment = [];
  auto_restart = true;
  max_restart_attempts = attempts;
}

abbrev spec_of : List ProcessSpec → ApplicationSpec
spec_of nodes = record {
  application_name = "app";
  mode = multi_process;
  process_topology = record { nodes = nodes; dependencies = [] };
  transport_kind = no_transport;
  transport_profile = "default";
}

-- The channels are never asked: there is no transport.
abbrev no_channels : ControlChannels ℕ ℕ
no_channels = record { is_channel_open = λ channel w. true; close = λ channel w. w }

abbrev configured : List ProcessSpec → MultiprocessRuntime ℕ ℕ ℕ
configured nodes =
    set_process_launcher (configure_application (new_multiprocess_runtime 0) (spec_of nodes))
      (some counting_launcher)

abbrev failing_nodes : List ProcessSpec
failing_nodes = node_of "a" 2 ∷ node_of "b" 1 ∷ node_of "bad" 0 ∷ node_of "c" 0 ∷ []

launch_children-outcome_example :
    let run = launches counting_launcher failing_nodes 0 in
    launch_outcome (launch_children (configured failing_nodes))
    ≡ expected_outcome counting_launcher run.failing run.started "" run.world
unfolding new_multiprocess_runtime configure_application set_process_launcher
launch_children-outcome_example =
    launch_children-outcome counting_launcher (configured failing_nodes) refl

-- "b" stays, and "c" is not launched: three launches and two stops.
rollback_keeps_b :
    let (r, is_started) = launch_children (configured failing_nodes) in
    (r.world ≡ 5)
    × (r.last_error ≡ "failed to launch child process: bad; rollback stop failed")
    × (is_started ≡ false)
unfolding new_multiprocess_runtime configure_application set_process_launcher launch_children
    launch_nodes launch_failed rollback_launch_state stop_launched retain_children retain_child
    child_launched set_child_handshake_state find_process_spec find_if insert lookup
rollback_keeps_b = (refl, refl, refl)

abbrev started : MultiprocessRuntime ℕ ℕ ℕ
started = (start_processes no_channels (configured (node_of "a" 1 ∷ []))).0

started-Run : Run no_channels (spec_of (node_of "a" 1 ∷ [])) started
started-Run = run_start (run_launcher (some counting_launcher) (run_new 0))

restart_attempts-bounded_example :
    restart_attempt_count (restart_child started 0).0 "a" ≤ restart_budget (node_of "a" 1 ∷ []) "a"
restart_attempts-bounded_example =
    restart_attempts-bounded no_channels (spec_of (node_of "a" 1 ∷ [])) (restart_child started 0).0
      (run_restart 0 started-Run) "a"

-- The child was ready when it is restarted.
abbrev was_ready : MultiprocessRuntime ℕ ℕ ℕ
was_ready = set_child_handshake_state started 0 ready "up"
