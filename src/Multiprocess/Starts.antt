-- ===== src/Multiprocess/Starts.antt =====
-- `Start`, with the transport.
use framekit.Base.{
  Bool, true, false, not, String, is_blank, [], Option, none, some, ◌==◌, nat_eq, string_eq,
  if◌then◌else◌,
}
use framekit.Base.Assoc.{insert}
use framekit.Multiprocess.Types.{
  ApplicationSpec, IpcTransportKind, no_transport, shm_pipe, local_socket, custom, AppMode,
  single_process, multi_process, TransportConfig, SupervisorPolicy, LivenessPolicy,
  TransportFactory, ControlChannels, no_config, no_bundle,
}
use framekit.Multiprocess.{MultiprocessRuntime}
use framekit.Multiprocess.Launch.{failed_because, launch_children}

abbrev pub transport_kind_name : IpcTransportKind → String
transport_kind_name no_transport = "none"
transport_kind_name shm_pipe = "shm_pipe"
transport_kind_name local_socket = "local_socket"
transport_kind_name custom = "custom"

abbrev pub transport_config : ApplicationSpec → TransportConfig
transport_config spec =
    let name = transport_kind_name spec.transport_kind in
    record {
      name = name;
      values =
          insert "kind" name (
            insert "profile" spec.transport_profile
              (insert "application" spec.application_name []));
    }

abbrev pub default_supervisor_policy : {W : Type 0} → SupervisorPolicy W
default_supervisor_policy = record {
  should_restart = λ identity w. (w, true);
  on_heartbeat_missed = λ identity w. w;
  on_stopped = λ identity w. w;
}

abbrev pub default_liveness_policy : {W : Type 0} → LivenessPolicy W
default_liveness_policy = record {
  on_heartbeat = λ event w. w;
  is_process_alive = λ identity observed_heartbeat_count w. not (observed_heartbeat_count == 0);
}

abbrev pub close_channel : {W C : Type 0} → ControlChannels W C → Option C → W → W
close_channel channels none w = w
close_channel channels (some channel) w = channels.close channel w

abbrev pub default_to : {A : Type 0} → A → Option A → Option A
default_to a none = some a
default_to a (some b) = some b

abbrev pub is_transported : IpcTransportKind → Bool
is_transported no_transport = false
is_transported _ = true

module _ {W C D : Type 0} (channels : ControlChannels W C) where
  -- What `ConfigureTransport` does with the bundle that was made.
  abbrev pub accept_bundle :
      TransportConfig
      → Option C
      → Option D
      → MultiprocessRuntime W C D
      → MultiprocessRuntime W C D × Bool
  accept_bundle config none data_plane r =
      failed_because r "transport factory returned null control channel"
  accept_bundle config (some channel) none r =
      failed_because (record r { world = channels.close channel r.world })
        (if not (channels.is_channel_open channel r.world)
          then "transport control channel is not open"
          else "transport factory returned null data plane")
  accept_bundle config (some channel) (some plane) r =
      if not (channels.is_channel_open channel r.world)
      then failed_because (record r { world = channels.close channel r.world })
          "transport control channel is not open"
      else (
        record r {
          active_transport_config = config;
          transport_bundle = record { control_channel = some channel; data_plane = some plane };
        },
        true,
      )

  abbrev pub transport_with :
      Option (TransportFactory W C D) → MultiprocessRuntime W C D → MultiprocessRuntime W C D × Bool
  transport_with none r =
      failed_because r "transport factory is required when transport_kind is not none"
  transport_with (some factory) r =
      let config = transport_config r.spec in
      let (w, bundle) = factory.create config r.world in
      accept_bundle config bundle.control_channel bundle.data_plane (record r { world = w })

  unfoldable pub configure_transport : MultiprocessRuntime W C D → MultiprocessRuntime W C D × Bool
  configure_transport r = transport_with r.transport_factory r

  -- The transport and the children are given up.
  abbrev pub drop_transport : MultiprocessRuntime W C D → MultiprocessRuntime W C D
  drop_transport r = record r {
    world = close_channel channels r.transport_bundle.control_channel r.world;
    transport_bundle = no_bundle;
    active_transport_config = no_config;
  }

  abbrev pub launched_or_dropped :
      MultiprocessRuntime W C D × Bool → MultiprocessRuntime W C D × Bool
  launched_or_dropped (r, true) = (record r { running = true }, true)
  launched_or_dropped (r, false) =
      failed_because (drop_transport r)
        (if is_blank r.last_error then "failed to launch child processes" else r.last_error)

  abbrev pub then_launch : MultiprocessRuntime W C D × Bool → MultiprocessRuntime W C D × Bool
  then_launch (r, false) = (r, false)
  then_launch (r, true) = launched_or_dropped (launch_children r)

  abbrev pub start_as : AppMode → MultiprocessRuntime W C D → MultiprocessRuntime W C D × Bool
  start_as single_process r = (record r { running = true }, true)
  start_as multi_process r =
      then_launch
        (if is_transported r.spec.transport_kind then configure_transport r else (r, true))

  unfoldable pub start_processes : MultiprocessRuntime W C D → MultiprocessRuntime W C D × Bool
  start_processes r =
      if r.running
      then failed_because r "multiprocess runtime is already running"
      else start_as r.spec.mode (record r {
        last_error = "";
        supervisor_policy = default_to default_supervisor_policy r.supervisor_policy;
        liveness_policy = default_to default_liveness_policy r.liveness_policy;
      })
