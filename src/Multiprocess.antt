-- ===== src/Multiprocess.antt =====
-- `MultiprocessRuntime`: include/framekit/multiprocess/, spec/ and ipc/ under include/framekit,
-- src/multiprocess_runtime.cpp. The interfaces that an application implements (launcher, policies,
-- hooks, transport) are records of functions on a world `W`; they do not call the runtime back. `C`
-- and `D` are the control channels and data planes.
pub mod Types
pub mod Launch
pub mod Starts
pub mod Restart
pub mod Ticks
pub mod Replaced
pub mod Stale
pub mod Budget
pub mod Rollback
use framekit.Base.{
  ℕ, ◌+◌, Bool, true, false, not, ◌&&◌, ◌||◌, String, List, [], ◌∷◌, ◌++◌, Option, none, some,
  find_if, is_some, u64, ltb, ◌==◌, nat_eq, string_eq, if◌then◌else◌,
}
use framekit.Base.Assoc.{lookup, insert}
use framekit.Multiprocess.Types.{
  ProcessIdentity, ProcessSpec, ApplicationSpec, TransportConfig, TransportBundle,
  ChildHandshakeState, ChildHandshakeStatus, SupervisorPolicy, ProcessLauncher, LivenessPolicy,
  LifecycleHooks, TransportFactory, ControlChannels, no_config, default_spec, no_bundle, or_zero,
  has_process_id, handshake_status, notify_heartbeat, is_spec_of,
}

-- The runtime, with the world that its interfaces share.
pub record MultiprocessRuntime (W C D : Type 0) : Type 0 where
  pub world : W
  pub spec : ApplicationSpec
  pub supervisor_policy : Option (SupervisorPolicy W)
  pub process_launcher : Option (ProcessLauncher W)
  pub transport_factory : Option (TransportFactory W C D)
  pub liveness_policy : Option (LivenessPolicy W)
  pub lifecycle_hooks : Option (LifecycleHooks W)
  pub transport_bundle : TransportBundle C D
  pub active_transport_config : TransportConfig
  pub child_processes : List ProcessIdentity
  pub child_handshakes : List (ℕ × ChildHandshakeStatus)
  pub heartbeat_counters : List (ℕ × ℕ)
  pub restart_attempt_counters : List (String × ℕ)
  pub last_error : String
  pub running : Bool

module _ {W C D : Type 0} where
  unfoldable pub new_multiprocess_runtime : W → MultiprocessRuntime W C D
  new_multiprocess_runtime w = record {
    world = w;
    spec = default_spec;
    supervisor_policy = none;
    process_launcher = none;
    transport_factory = none;
    liveness_policy = none;
    lifecycle_hooks = none;
    transport_bundle = no_bundle;
    active_transport_config = no_config;
    child_processes = [];
    child_handshakes = [];
    heartbeat_counters = [];
    restart_attempt_counters = [];
    last_error = "";
    running = false;
  }

  unfoldable pub configure_application :
      MultiprocessRuntime W C D → ApplicationSpec → MultiprocessRuntime W C D
  configure_application r spec = record r { spec = spec }

  unfoldable pub set_supervisor_policy :
      MultiprocessRuntime W C D → Option (SupervisorPolicy W) → MultiprocessRuntime W C D
  set_supervisor_policy r policy = record r { supervisor_policy = policy }

  unfoldable pub set_process_launcher :
      MultiprocessRuntime W C D → Option (ProcessLauncher W) → MultiprocessRuntime W C D
  set_process_launcher r launcher = record r { process_launcher = launcher }

  unfoldable pub set_transport_factory :
      MultiprocessRuntime W C D → Option (TransportFactory W C D) → MultiprocessRuntime W C D
  set_transport_factory r factory = record r { transport_factory = factory }

  unfoldable pub set_liveness_policy :
      MultiprocessRuntime W C D → Option (LivenessPolicy W) → MultiprocessRuntime W C D
  set_liveness_policy r policy = record r { liveness_policy = policy }

  unfoldable pub set_lifecycle_hooks :
      MultiprocessRuntime W C D → Option (LifecycleHooks W) → MultiprocessRuntime W C D
  set_lifecycle_hooks r hooks = record r { lifecycle_hooks = hooks }

  unfoldable pub set_child_handshake_state :
      MultiprocessRuntime W C D
      → ℕ
      → ChildHandshakeState
      → (detail : String) → MultiprocessRuntime W C D
  set_child_handshake_state r process_id state detail = record r {
    child_handshakes =
        insert process_id
          (handshake_status process_id state detail (lookup process_id r.child_handshakes))
          r.child_handshakes;
  }

  unfoldable pub child_handshake : MultiprocessRuntime W C D → ℕ → Option ChildHandshakeStatus
  child_handshake r process_id = lookup process_id r.child_handshakes

  unfoldable pub heartbeat_count : MultiprocessRuntime W C D → ℕ → ℕ
  heartbeat_count r process_id = or_zero (lookup process_id r.heartbeat_counters)

  unfoldable pub restart_attempt_count : MultiprocessRuntime W C D → String → ℕ
  restart_attempt_count r name = or_zero (lookup name r.restart_attempt_counters)

  unfoldable pub record_heartbeat :
      MultiprocessRuntime W C D → ℕ → (sequence_id : ℕ) → MultiprocessRuntime W C D
  unfolding heartbeat_count
  record_heartbeat r process_id sequence_id = record r {
    heartbeat_counters =
        insert process_id (u64 (heartbeat_count r process_id + 1)) r.heartbeat_counters;
    world =
        notify_heartbeat r.liveness_policy (find_if (has_process_id process_id) r.child_processes)
          sequence_id r.world;
  }

  unfoldable pub find_process_spec :
      MultiprocessRuntime W C D → ProcessIdentity → Option ProcessSpec
  find_process_spec r identity = find_if (is_spec_of identity) r.spec.process_topology.nodes

  unfoldable pub has_active_transport : ControlChannels W C → MultiprocessRuntime W C D → Bool
  has_active_transport channels r = elim r.transport_bundle.control_channel [
    | none ↦ false
    | some channel ↦
        is_some r.transport_bundle.data_plane && channels.is_channel_open channel r.world
  ]
