-- ===== src/Multiprocess/Budget/Steps.antt =====
-- What the operations do to the restart counters.
use framekit.Base.{
  ◌≡◌, refl, Bool, true, false, List, [], ◌∷◌, reverse, Option, none, some, nat_eq, string_eq,
  if◌then◌else◌, arith,
}
use framekit.Base.Assoc.{insert}
use framekit.Multiprocess.Types.{
  ProcessIdentity, ProcessSpec, ApplicationSpec, TransportConfig, AppMode, single_process,
  multi_process, ProcessLauncher, ControlChannels, same_role, primary,
}
use framekit.Multiprocess.{MultiprocessRuntime, find_process_spec, set_child_handshake_state}
use framekit.Multiprocess.Launch
use framekit.Multiprocess.Starts
use framekit.Multiprocess.Budget.{
  WithinBudget, SameCounters, SameCounters-WithinBudget, insert-WithinBudget, cleared-WithinBudget,
}

module _ {W C D : Type 0} (spec : ApplicationSpec) where
  abbrev Kept : MultiprocessRuntime W C D → Type 0
  Kept r = WithinBudget spec r

  abbrev KeptBy : MultiprocessRuntime W C D × Bool → Type 0
  KeptBy (r, done) = Kept r

  with_restart_counter-Kept :
      (found : Option ProcessSpec) (r : MultiprocessRuntime W C D)
      → Kept r
      → Kept (Launch.with_restart_counter found r)
  with_restart_counter-Kept none r kept = kept
  with_restart_counter-Kept (some node) r kept =
      insert-WithinBudget spec r node.name 0 (omega arith) kept

  retain_children-Kept :
      (children : List ProcessIdentity) (r : MultiprocessRuntime W C D)
      → Kept r
      → Kept (Launch.retain_children children r)
  unfolding Launch.retain_children Launch.retain_child
  retain_children-Kept [] r kept = kept
  retain_children-Kept (child ∷ rest) r kept =
      retain_children-Kept rest (Launch.retain_child child r) (
        with_restart_counter-Kept (find_process_spec r child) _
          (SameCounters-WithinBudget spec r _ (record { specs = refl; counters = refl }) kept))

  pub same :
      (r r' : MultiprocessRuntime W C D)
      → r'.spec ≡ r.spec
      → r'.restart_attempt_counters ≡ r.restart_attempt_counters
      → Kept r
      → Kept r'
  same r r' specs counters =
      SameCounters-WithinBudget spec r r' (record { specs = specs; counters = counters })

  rolled_back-Kept :
      (w : W) (failed : List ProcessIdentity) (r : MultiprocessRuntime W C D)
      → Kept r
      → Kept (Launch.rolled_back w failed r).0
  rolled_back-Kept w [] r kept =
      same (record r { restart_attempt_counters = [] }) _ refl refl
        (cleared-WithinBudget spec r kept)
  rolled_back-Kept w (child ∷ rest) r kept = retain_children-Kept (reverse (child ∷ rest)) _ (
      same (record r { restart_attempt_counters = [] }) _ refl refl
        (cleared-WithinBudget spec r kept))

  launch_failed-Kept :
      (launcher : ProcessLauncher W) (node : ProcessSpec) (r : MultiprocessRuntime W C D)
      → Kept r
      → Kept (Launch.launch_failed launcher node r).0
  unfolding Launch.launch_failed Launch.rollback_launch_state
  launch_failed-Kept launcher node r kept =
      same _ _ refl refl
        (rolled_back-Kept _ _ (record r { last_error = _ }) (same r _ refl refl kept))

  child_launched-Kept :
      (node : ProcessSpec) (identity : ProcessIdentity) (r : MultiprocessRuntime W C D)
      → Kept r
      → Kept (Launch.child_launched node identity r)
  unfolding Launch.child_launched set_child_handshake_state
  child_launched-Kept node identity r kept =
      same (record r { restart_attempt_counters = insert node.name 0 r.restart_attempt_counters }) _
        refl refl (insert-WithinBudget spec r node.name 0 (omega arith) kept)

  launch_nodes-Kept :
      (launcher : ProcessLauncher W) (nodes : List ProcessSpec) (r : MultiprocessRuntime W C D)
      → Kept r
      → Kept (Launch.launch_nodes launcher nodes r).0
  unfolding Launch.launch_nodes
  launch_nodes-Kept launcher [] r kept = kept
  launch_nodes-Kept launcher (node ∷ rest) r kept =
      let (w, launched) = launcher.launch_child Launch.parent_identity node r.world in
      let r' = record r { world = w } in
      let kept' = same r r' refl refl kept in
      elim (same_role node.role primary)
        as (λ is_primary. KeptBy (
          if is_primary
          then Launch.launch_nodes launcher rest r
          else elim (Launch.running_identity launched) [
            | none ↦ Launch.launch_failed launcher node r'
            | some identity ↦
                Launch.launch_nodes launcher rest (Launch.child_launched node identity r')
          ])) [
            | true ↦ launch_nodes-Kept launcher rest r kept
            | false ↦
                elim (Launch.running_identity launched)
                  as (λ running. KeptBy (elim running [
                    | none ↦ Launch.launch_failed launcher node r'
                    | some identity ↦
                        Launch.launch_nodes launcher rest (Launch.child_launched node identity r')
                  ])) [
                    | none ↦ launch_failed-Kept launcher node r' kept'
                    | some identity ↦
                        launch_nodes-Kept launcher rest (Launch.child_launched node identity r')
                          (child_launched-Kept node identity r' kept')
                  ]
          ]

  launch_children-Kept :
      (r : MultiprocessRuntime W C D) → Kept r → Kept (Launch.launch_children r).0
  unfolding Launch.launch_children
  launch_children-Kept r kept =
      let cleared =
        same (record r { restart_attempt_counters = [] }) (Launch.cleared r) refl refl
          (cleared-WithinBudget spec r kept) in
      elim r.process_launcher
        as (λ launcher. Kept (Launch.launch_with launcher (Launch.cleared r)).0) [
          | none ↦ same (Launch.cleared r) _ (ground arith) (ground arith) cleared
          | some launcher ↦
              launch_nodes-Kept launcher r.spec.process_topology.nodes (Launch.cleared r) cleared
        ]

  -- The transport touches neither.
  module _ (channels : ControlChannels W C) where
    accept_bundle-SameCounters :
        (config : TransportConfig) (channel : Option C) (plane : Option D)
        (r : MultiprocessRuntime W C D)
        → SameCounters r (Starts.accept_bundle channels config channel plane r).0
    accept_bundle-SameCounters config none plane r = record { specs = refl; counters = refl }
    accept_bundle-SameCounters config (some channel) none r = record {
      specs = refl;
      counters = refl;
    }
    accept_bundle-SameCounters config (some channel) (some plane) r = record {
      specs = ground arith;
      counters = ground arith;
    }

    configure_transport-Kept :
        (r : MultiprocessRuntime W C D) → Kept r → Kept (Starts.configure_transport channels r).0
    unfolding Starts.configure_transport
    configure_transport-Kept r kept =
        elim r.transport_factory as (λ factory. Kept (Starts.transport_with channels factory r).0) [
          | none ↦ same r _ refl refl kept
          | some factory ↦
              let config = Starts.transport_config r.spec in
              let (w, bundle) = factory.create config r.world in
              SameCounters-WithinBudget spec (record r { world = w }) _
                (accept_bundle-SameCounters config bundle.control_channel bundle.data_plane
                  (record r { world = w }))
                (same r _ refl refl kept)
        ]

    launched_or_dropped-Kept :
        (launched : MultiprocessRuntime W C D × Bool)
        → Kept launched.0
        → Kept (Starts.launched_or_dropped channels launched).0
    launched_or_dropped-Kept (r, true) kept = same r _ refl refl kept
    launched_or_dropped-Kept (r, false) kept = same r _ refl refl kept

    then_launch-Kept :
        (configured : MultiprocessRuntime W C D × Bool)
        → Kept configured.0
        → Kept (Starts.then_launch channels configured).0
    then_launch-Kept (r, false) kept = kept
    then_launch-Kept (r, true) kept =
        launched_or_dropped-Kept (Launch.launch_children r) (launch_children-Kept r kept)

    start_as-Kept :
        (mode : AppMode) (r : MultiprocessRuntime W C D)
        → Kept r
        → Kept (Starts.start_as channels mode r).0
    start_as-Kept single_process r kept = same r _ refl refl kept
    start_as-Kept multi_process r kept =
        then_launch-Kept
          (if Starts.is_transported r.spec.transport_kind
            then Starts.configure_transport channels r
            else (r, true))
          (elim (Starts.is_transported r.spec.transport_kind)
            as (λ is_transported.
              Kept
                (if is_transported then Starts.configure_transport channels r else (r, true)).0) [
                  | true ↦ configure_transport-Kept r kept
                  | false ↦ kept
                ])

    pub start_processes-Kept :
        (r : MultiprocessRuntime W C D) → Kept r → Kept (Starts.start_processes channels r).0
    unfolding Starts.start_processes
    start_processes-Kept r kept =
        let r' : MultiprocessRuntime W C D = record r {
          last_error = "";
          supervisor_policy =
              Starts.default_to Starts.default_supervisor_policy r.supervisor_policy;
          liveness_policy = Starts.default_to Starts.default_liveness_policy r.liveness_policy;
        } in
        elim r.running
          as (λ running.
            Kept
              (if running
                then Launch.failed_because r "multiprocess runtime is already running"
                else Starts.start_as channels r.spec.mode r').0) [
                  | true ↦ same r _ refl refl kept
                  | false ↦ start_as-Kept r.spec.mode r' (same r r' refl refl kept)
                ]
