-- ===== src/Multiprocess/Types.antt =====
-- The specifications, interfaces and records of include/framekit/spec, ipc and multiprocess.
use framekit.Base.{
  ℕ, Bool, true, false, ◌&&◌, String, List, [], Option, none, some, ◌==◌, nat_eq, string_eq,
}

pub data ProcessRole : Type 0 where
  primary frontend backend worker service_role unknown : ProcessRole

-- `==` on the enumeration.
abbrev pub same_role : ProcessRole → ProcessRole → Bool
same_role primary primary = true
same_role frontend frontend = true
same_role backend backend = true
same_role worker worker = true
same_role service_role service_role = true
same_role unknown unknown = true
same_role _ _ = false

pub record ProcessIdentity : Type 0 where
  pub process_id : ℕ  -- uint64_t
  pub role_name : String
  pub role : ProcessRole

pub record ProcessSpec : Type 0 where
  pub name : String
  pub role : ProcessRole
  pub executable_path : String
  pub arguments : List String
  pub environment : List (String × String)
  pub auto_restart : Bool
  pub max_restart_attempts : ℕ  -- uint32_t

pub record ProcessTopologySpec : Type 0 where
  pub nodes : List ProcessSpec
  pub dependencies : List (String × List String)

pub data IpcTransportKind : Type 0 where
  no_transport shm_pipe local_socket custom : IpcTransportKind

pub data AppMode : Type 0 where
  single_process multi_process : AppMode

pub record ApplicationSpec : Type 0 where
  pub application_name : String
  pub mode : AppMode
  pub process_topology : ProcessTopologySpec
  pub transport_kind : IpcTransportKind
  pub transport_profile : String

pub record TransportConfig : Type 0 where
  pub name : String
  pub values : List (String × String)

pub record TransportBundle (C D : Type 0) : Type 0 where
  pub control_channel : Option C
  pub data_plane : Option D

pub data ChildHandshakeState : Type 0 where
  not_started spawned hello_received ready handshake_failed timed_out : ChildHandshakeState

pub record ChildHandshakeStatus : Type 0 where
  pub child : ProcessIdentity
  pub state : ChildHandshakeState
  pub detail : String

pub record ChildProcessHandle : Type 0 where
  pub identity : ProcessIdentity
  pub is_running : Bool

pub record HeartbeatEvent : Type 0 where
  pub child : ProcessIdentity
  pub sequence_id : ℕ

-- `ShouldRestart` is only asked with the exit code -1.
pub record SupervisorPolicy (W : Type 0) : Type 0 where
  pub should_restart : ProcessIdentity → W → W × Bool
  pub on_heartbeat_missed : ProcessIdentity → W → W
  pub on_stopped : ProcessIdentity → W → W

pub record ProcessLauncher (W : Type 0) : Type 0 where
  pub launch_child : (parent : ProcessIdentity) → ProcessSpec → W → W × Option ChildProcessHandle
  pub stop_child : ProcessIdentity → W → W × Bool

pub record LivenessPolicy (W : Type 0) : Type 0 where
  pub on_heartbeat : HeartbeatEvent → W → W
  pub is_process_alive : ProcessIdentity → (observed_heartbeat_count : ℕ) → W → Bool

pub record LifecycleHooks (W : Type 0) : Type 0 where
  pub on_graceful_stop_requested : ProcessIdentity → W → W
  pub on_graceful_stop_completed : ProcessIdentity → Bool → W → W
  pub on_restart_requested : ProcessIdentity → W → W
  pub on_restart_completed : (old_identity new_identity : ProcessIdentity) → Bool → W → W

-- `Create`, with `IsOpen` and `Close` of the control channels that it makes.
pub record TransportFactory (W C D : Type 0) : Type 0 where
  pub create : TransportConfig → W → W × TransportBundle C D

pub record ControlChannels (W C : Type 0) : Type 0 where
  pub is_channel_open : C → W → Bool
  pub close : C → W → W

abbrev pub no_config : TransportConfig
no_config = record { name = ""; values = [] }

abbrev pub default_spec : ApplicationSpec
default_spec = record {
  application_name = "framekit-app";
  mode = single_process;
  process_topology = record { nodes = []; dependencies = [] };
  transport_kind = no_transport;
  transport_profile = "default";
}

abbrev pub or_zero : Option ℕ → ℕ
or_zero none = 0
or_zero (some n) = n

abbrev pub has_process_id : ℕ → ProcessIdentity → Bool
has_process_id process_id identity = identity.process_id == process_id

abbrev pub no_bundle : {C D : Type 0} → TransportBundle C D
no_bundle = record { control_channel = none; data_plane = none }

-- A status that `SetChildHandshakeState` makes knows the number of the process only.
abbrev pub handshake_status :
    ℕ → ChildHandshakeState → String → Option ChildHandshakeStatus → ChildHandshakeStatus
handshake_status process_id state detail none = record {
  child = record { process_id = process_id; role_name = ""; role = unknown };
  state = state;
  detail = detail;
}
handshake_status process_id state detail (some status) = record status {
  state = state;
  detail = detail;
}

abbrev pub notify_heartbeat :
    {W : Type 0} → Option (LivenessPolicy W) → Option ProcessIdentity → (sequence_id : ℕ) → W → W
notify_heartbeat none child sequence_id w = w
notify_heartbeat (some policy) none sequence_id w = w
notify_heartbeat (some policy) (some child) sequence_id w =
    policy.on_heartbeat (record { child = child; sequence_id = sequence_id }) w

-- `FindProcessSpec` of an identity, among the nodes of the topology.
abbrev pub is_spec_of : ProcessIdentity → ProcessSpec → Bool
is_spec_of identity spec = spec.name == identity.role_name && same_role spec.role identity.role
