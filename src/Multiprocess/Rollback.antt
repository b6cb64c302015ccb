-- ===== src/Multiprocess/Rollback.antt =====
-- `LaunchChildren` against a run of the launcher alone.
use framekit.Base.{
  ◌≡◌, refl, sym, ap, ◌∙◌, Bool, true, false, not, String, concat, List, [], ◌∷◌, ◌++◌, reverse,
  Option, none, some, is_empty, if◌then◌else◌, arith,
}
use mathlib.Core.List.{append-nil, append_assoc}
use framekit.Multiprocess.Types.{ProcessIdentity, ProcessSpec, ProcessLauncher, same_role, primary}
use framekit.Multiprocess.{MultiprocessRuntime, find_process_spec, set_child_handshake_state}
use framekit.Multiprocess.Launch.{
  parent_identity, running_identity, stop_launched, retain_child, retain_children,
  rollback_launch_state, launch_failed, rollback_reported, child_launched, launch_nodes,
  launch_with, launch_children, rolled_back, cleared,
}

-- What the launches of the nodes that are not primary do, up to the first that fails.
pub record Launches (W : Type 0) : Type 0 where
  pub world : W
  pub started : List ProcessIdentity
  pub failing : Option ProcessSpec

-- The launch of a node, before the others.
abbrev pub with_launch :
    {W : Type 0} → ProcessSpec → W → Option ProcessIdentity → (rest : Launches W) → Launches W
with_launch node w none rest = record { world = w; started = []; failing = some node }
with_launch node w (some identity) rest = record rest { started = identity ∷ rest.started }

module _ {W : Type 0} (launcher : ProcessLauncher W) where
  unfoldable pub launches : List ProcessSpec → W → Launches W
  launches [] w = record { world = w; started = []; failing = none }
  launches (node ∷ rest) w =
      let (w', launched) = launcher.launch_child parent_identity node w in
      let skipped = launches rest w in
      if same_role node.role primary
      then skipped
      else with_launch node w' (running_identity launched) (launches rest w')

  -- The stops one after the other, with the processes whose stop fails.
  unfoldable pub stops : List ProcessIdentity → W → W × List ProcessIdentity
  stops [] w = (w, [])
  stops (child ∷ rest) w =
      let (w', stopped) = launcher.stop_child child w in
      let (w'', failed) = stops rest w' in (w'', if stopped then failed else child ∷ failed)

  stop_launched-stops :
      (children : List ProcessIdentity) (w : W) (failed : List ProcessIdentity)
      → stop_launched launcher children w failed
        ≡ ((stops children w).0, failed ++ (stops children w).1)
  unfolding stop_launched stops
  stop_launched-stops [] w failed =
      ap (λ (l : List ProcessIdentity). (w, l)) (sym (append-nil failed))
  stop_launched-stops (child ∷ rest) w failed =
      stop_launched-stops rest (launcher.stop_child child w).0
        (if not (launcher.stop_child child w).1 then failed ++ child ∷ [] else failed)
      ∙ ground
          (arith, append_assoc failed (child ∷ []) (stops rest (launcher.stop_child child w).0).1)

-- What is looked at after a launch.
pub record LaunchOutcome (W : Type 0) : Type 0 where
  pub world : W
  pub children : List ProcessIdentity
  pub error : String
  pub is_started : Bool

abbrev pub launch_error : ProcessSpec → (unstopped : List ProcessIdentity) → String
launch_error node unstopped =
    let error = concat "failed to launch child process: " node.name in
    if is_empty unstopped then error else concat error "; rollback stop failed"

module _ {W : Type 0} where
  abbrev pub rollback_outcome : ProcessSpec → W × List ProcessIdentity → LaunchOutcome W
  rollback_outcome node (w, failed) = record {
    world = w;
    children = reverse failed;
    error = launch_error node failed;
    is_started = false;
  }

  -- A failure stops the children, the last one first; those whose stop fails stay.
  abbrev pub expected_outcome :
      ProcessLauncher W
      → Option ProcessSpec
      → (started : List ProcessIdentity) (error : String) → W
      → LaunchOutcome W
  expected_outcome launcher none started error w = record {
    world = w;
    children = started;
    error = error;
    is_started = true;
  }
  expected_outcome launcher (some node) started error w =
      rollback_outcome node (stops launcher (reverse started) w)

module _ {W C D : Type 0} where
  abbrev pub launch_outcome : MultiprocessRuntime W C D × Bool → LaunchOutcome W
  launch_outcome (r, is_started) = record {
    world = r.world;
    children = r.child_processes;
    error = r.last_error;
    is_started = is_started;
  }

  retain_children-kept :
      (children : List ProcessIdentity) (r : MultiprocessRuntime W C D)
      → ((retain_children children r).world ≡ r.world)
        × ((retain_children children r).child_processes ≡ r.child_processes)
  unfolding retain_children retain_child find_process_spec
  retain_children-kept [] r = (refl, refl)
  retain_children-kept (child ∷ rest) r =
      ground (arith, retain_children-kept rest (retain_child child r))

  rolled_back-outcome :
      (node : ProcessSpec) (w : W) (failed : List ProcessIdentity) (r : MultiprocessRuntime W C D)
      → launch_outcome (
          rollback_reported
            (concat "failed to launch child process: " node.name)
            (rolled_back w failed r))
        ≡ rollback_outcome node (w, failed)
  rolled_back-outcome node w [] r = refl
  rolled_back-outcome node w (child ∷ rest) r =
      let failed = reverse (child ∷ rest) in
      let kept =
        retain_children-kept failed (record (cleared r) { world = w; child_processes = failed }) in
      λ i. record {
        world = kept.0 i;
        children = kept.1 i;
        error =
            concat (concat "failed to launch child process: " node.name) "; rollback stop failed";
        is_started = false;
      }

  launch_failed-outcome :
      (launcher : ProcessLauncher W) (node : ProcessSpec) (r : MultiprocessRuntime W C D)
      → launch_outcome (launch_failed launcher node r)
        ≡ rollback_outcome node (stops launcher (reverse r.child_processes) r.world)
  unfolding launch_failed rollback_launch_state
  launch_failed-outcome launcher node r =
      let error = concat "failed to launch child process: " node.name in
      let (w, failed) = stop_launched launcher (reverse r.child_processes) r.world [] in
      rolled_back-outcome node w failed (record r { last_error = error })
      ∙ ap (rollback_outcome node)
          (stop_launched-stops launcher (reverse r.child_processes) r.world [])

  abbrev IsOutcome :
      ProcessLauncher W
      → MultiprocessRuntime W C D
      → Launches W
      → MultiprocessRuntime W C D × Bool
      → Type 0
  IsOutcome launcher r run result =
      launch_outcome result
      ≡ expected_outcome launcher run.failing (r.child_processes ++ run.started) r.last_error
          run.world

  launch_nodes-IsOutcome :
      (launcher : ProcessLauncher W) (nodes : List ProcessSpec) (r : MultiprocessRuntime W C D)
      → IsOutcome launcher r (launches launcher nodes r.world) (launch_nodes launcher nodes r)
  unfolding launch_nodes launches child_launched set_child_handshake_state
  launch_nodes-IsOutcome launcher [] r =
      ap
        (λ (started : List ProcessIdentity).
          expected_outcome launcher none started r.last_error r.world)
        (sym (append-nil r.child_processes))
  launch_nodes-IsOutcome launcher (node ∷ rest) r =
      let (w, launched) = launcher.launch_child parent_identity node r.world in
      let r' = record r { world = w } in
      elim (same_role node.role primary)
        as (λ is_primary.
          IsOutcome launcher r
            (if is_primary
              then launches launcher rest r.world
              else with_launch node w (running_identity launched) (launches launcher rest w))
            (if is_primary then launch_nodes launcher rest r else elim (running_identity launched) [
              | none ↦ launch_failed launcher node r'
              | some identity ↦ launch_nodes launcher rest (child_launched node identity r')
            ])) [
              | true ↦ launch_nodes-IsOutcome launcher rest r
              | false ↦
                  elim (running_identity launched)
                    as (λ running.
                      IsOutcome launcher r (with_launch node w running (launches launcher rest w))
                        (elim running [
                          | none ↦ launch_failed launcher node r'
                          | some identity ↦
                              launch_nodes launcher rest (child_launched node identity r')
                        ])) [
                          | none ↦
                              launch_failed-outcome launcher node r'
                              ∙ ap
                                  (λ (started : List ProcessIdentity).
                                    rollback_outcome node (stops launcher (reverse started) w))
                                  (sym (append-nil r.child_processes))
                          | some identity ↦
                              let run = launches launcher rest w in
                              launch_nodes-IsOutcome launcher rest (child_launched node identity r')
                              ∙ ap
                                  (λ (started : List ProcessIdentity).
                                    expected_outcome launcher run.failing started r.last_error
                                      run.world)
                                  (append_assoc r.child_processes (identity ∷ []) run.started)
                        ]
            ]

-- The launch of the children by a launcher: the nodes that are not primary are launched in their
-- order, with the handles that do not run taken as failures. Without a failure exactly the started
-- processes are the children and the error text stays. At the first failure no further node is
-- launched, the started processes are stopped, the last one first and each whatever the others
-- gave, exactly those whose stop failed stay as children, in the order of their start, and the
-- error text names the node, with the rollback where a stop failed.
pub launch_children-outcome :
    {W C D : Type 0} (launcher : ProcessLauncher W) (r : MultiprocessRuntime W C D)
    → r.process_launcher ≡ some launcher
    → (let run = launches launcher r.spec.process_topology.nodes r.world in
        launch_outcome (launch_children r)
        ≡ expected_outcome launcher run.failing run.started r.last_error run.world)
unfolding launch_children
launch_children-outcome {W} launcher r configured =
    ap (λ (found : Option (ProcessLauncher W)). launch_outcome (launch_with found (cleared r)))
      configured
    ∙ launch_nodes-IsOutcome launcher r.spec.process_topology.nodes (cleared r)
