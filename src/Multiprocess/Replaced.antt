-- ===== src/Multiprocess/Replaced.antt =====
-- What a relaunch does to the records of the children, and by which calls of the launcher.
use framekit.Base.{
  ℕ, ◌≡◌, refl, sym, ap, ◌∙◌, Bool, true, false, true-ne-false, not, List, Option, none, some, ◌==◌,
  nat_eq, string_eq, if◌then◌else◌, arith,
}
use framekit.Base.Assoc.{lookup, insert, erase, lookup-insert, lookup-erase}
use framekit.Multiprocess.Types.{
  ProcessIdentity, ProcessSpec, ChildHandshakeStatus, ChildProcessHandle, spawned, ProcessLauncher,
  or_zero,
}
use framekit.Multiprocess.{MultiprocessRuntime, find_process_spec, child_handshake, heartbeat_count}
use framekit.Multiprocess.Launch.{running_identity, parent_identity}
use framekit.Multiprocess.Restart.{
  replace_child, relaunch_with, relaunch_spec, relaunched, restart_failed, restart_requested,
}

lookup-renewed {ℓ} :
    {V : Type ℓ} (k other : ℕ) (v : V) (m : List (ℕ × V))
    → lookup other (insert k v (erase k m)) ≡ (if k == other then some v else lookup other m)
lookup-renewed k other v m =
    lookup-insert k other v (erase k m) ∙ ground (arith, lookup-erase k other m)

or_zero-if :
    (b : Bool) (x : Option ℕ) → or_zero (if b then some 0 else x) ≡ (if b then 0 else or_zero x)
or_zero-if true x = refl
or_zero-if false x = refl

abbrev pub fresh_status : ProcessIdentity → ChildHandshakeStatus
fresh_status new = record { child = new; state = spawned; detail = "" }

handle_of :
    (launched : Option ChildProcessHandle) (new : ProcessIdentity)
    → running_identity launched ≡ some new
    → (handle : ChildProcessHandle) × (launched ≡ some handle)
      × (handle.is_running ≡ true)
      × (handle.identity ≡ new)
handle_of none new e = absurd (cc)
handle_of (some handle) new e = (handle, refl, ground (arith, e), ground (arith, e))

module _ {W C D : Type 0} where
  -- The record of the children after a successful restart of the process `process_id` of `r`.
  pub record Restarted (process_id : ℕ) (r r' : MultiprocessRuntime W C D) (new : ProcessIdentity)
      : Type 0 where
    pub children : r'.child_processes ≡ replace_child process_id new r.child_processes
    pub handshakes :
        (other : ℕ)
        → child_handshake r' other
          ≡ (if new.process_id == other then some (fresh_status new) else child_handshake r other)
    pub heartbeats :
        (other : ℕ)
        → heartbeat_count r' other
          ≡ (if new.process_id == other then 0 else heartbeat_count r other)

  -- The new process is what the launcher made of the node of the old one, once that was stopped.
  pub record Relaunched (r : MultiprocessRuntime W C D) (old new : ProcessIdentity) : Type 0 where
    pub launcher : ProcessLauncher W
    pub node : ProcessSpec
    pub handle : ChildProcessHandle
    pub configured : r.process_launcher ≡ some launcher
    pub is_node : find_process_spec r old ≡ some node
    pub stopped :
        (launcher.stop_child old (restart_requested r.lifecycle_hooks old r.world)).1 ≡ true
    pub launched :
        (launcher.launch_child parent_identity node
          (launcher.stop_child old (restart_requested r.lifecycle_hooks old r.world)).0).1
        ≡ some handle
    pub runs : handle.is_running ≡ true
    pub is_new : handle.identity ≡ new

  abbrev pub IfDone :
      (ProcessIdentity → MultiprocessRuntime W C D → Type 0)
      → MultiprocessRuntime W C D × Bool
      → Type 0
  IfDone P (r', done) = done ≡ true → (new : ProcessIdentity) × P new r'

  relaunched-Restarted :
      (old : ProcessIdentity) (launched : Option ProcessIdentity) (r : MultiprocessRuntime W C D)
      → IfDone
          (λ new r'. Restarted old.process_id r r' new × (launched ≡ some new))
          (relaunched old launched r)
  unfolding child_handshake heartbeat_count
  relaunched-Restarted old none r done = absurd (true-ne-false (sym done))
  relaunched-Restarted old (some new) r done = (
    new,
    (
      record {
        children = refl;
        handshakes =
            λ other. lookup-renewed new.process_id other (fresh_status new) r.child_handshakes;
        heartbeats = λ other.
            ap or_zero (lookup-renewed new.process_id other 0 r.heartbeat_counters)
            ∙ or_zero-if (new.process_id == other) (lookup other r.heartbeat_counters);
      },
      refl,
    ),
  )

  -- Two runtimes that differ in the restart counters, the error text and, perhaps, the world.
  pub record SameChildren (r r' : MultiprocessRuntime W C D) : Type 0 where
    pub processes : r'.child_processes ≡ r.child_processes
    pub statuses : r'.child_handshakes ≡ r.child_handshakes
    pub counts : r'.heartbeat_counters ≡ r.heartbeat_counters

  pub Restarted-along :
      (process_id : ℕ) (r r₁ r' : MultiprocessRuntime W C D) (new : ProcessIdentity)
      → SameChildren r r₁
      → Restarted process_id r₁ r' new
      → Restarted process_id r r' new
  unfolding child_handshake heartbeat_count
  Restarted-along process_id r r₁ r' new same restarted = record {
    children = restarted.children ∙ ap (replace_child process_id new) same.processes;
    handshakes = λ other. rw (sym same.statuses) (restarted.handshakes other);
    heartbeats = λ other. rw (sym same.counts) (restarted.heartbeats other);
  }

  relaunch_spec-Restarted :
      (launcher : ProcessLauncher W) (old : ProcessIdentity) (found : Option ProcessSpec)
      (r : MultiprocessRuntime W C D)
      → IfDone
          (λ new r'.
            Restarted old.process_id r r' new
            × (node : ProcessSpec) × (found ≡ some node)
            × (running_identity (launcher.launch_child parent_identity node r.world).1 ≡ some new))
          (relaunch_spec launcher old found r)
  relaunch_spec-Restarted launcher old none r = λ done. absurd (true-ne-false (sym done))
  relaunch_spec-Restarted launcher old (some node) r = λ done.
      let (w, launched) = launcher.launch_child parent_identity node r.world in
      let r₁ = record r { world = w } in
      let (new, (restarted, is_new)) =
        relaunched-Restarted old (running_identity launched) r₁ done in
      (
        new,
        (
          Restarted-along old.process_id r r₁ (relaunch_spec launcher old (some node) r).0 new
              (record { processes = refl; statuses = refl; counts = refl }) restarted,
          node,
          refl,
          is_new,
        ),
      )

  abbrev pub Renewed :
      MultiprocessRuntime W C D
      → ProcessIdentity
      → ProcessIdentity
      → MultiprocessRuntime W C D
      → Type 0
  Renewed r old new r' = Restarted old.process_id r r' new × Relaunched r old new

  relaunch_stopped :
      (launcher : ProcessLauncher W) (old : ProcessIdentity) (r : MultiprocessRuntime W C D)
      → r.process_launcher ≡ some launcher
      → (stopped : Bool)
      → (launcher.stop_child old (restart_requested r.lifecycle_hooks old r.world)).1 ≡ stopped
      → (let w = (launcher.stop_child old (restart_requested r.lifecycle_hooks old r.world)).0 in
          let r₁ = record r { world = w } in
          IfDone (Renewed r old) (
            if not stopped
            then restart_failed old "failed to stop child process before restart" r₁
            else relaunch_spec launcher old (find_process_spec r old) r₁))
  relaunch_stopped launcher old r configured false stopped =
      λ done. absurd (true-ne-false (sym done))
  relaunch_stopped launcher old r configured true stopped = λ done.
      let w = (launcher.stop_child old (restart_requested r.lifecycle_hooks old r.world)).0 in
      let r₁ = record r { world = w } in
      let (new, (restarted, node, is_node, is_new)) =
        relaunch_spec-Restarted launcher old (find_process_spec r old) r₁ done in
      let (handle, launched, runs, same) =
        handle_of (launcher.launch_child parent_identity node w).1 new is_new in
      (
        new,
        (
          Restarted-along old.process_id r r₁
              (relaunch_spec launcher old (find_process_spec r old) r₁).0 new
              (record { processes = refl; statuses = refl; counts = refl }) restarted,
          record {
            launcher = launcher;
            node = node;
            handle = handle;
            configured = configured;
            is_node = is_node;
            stopped = stopped;
            launched = launched;
            runs = runs;
            is_new = same;
          },
        ),
      )

  pub relaunch_with-Renewed :
      (r : MultiprocessRuntime W C D) (old : ProcessIdentity)
      (launcher : Option (ProcessLauncher W))
      → r.process_launcher ≡ launcher
      → IfDone (Renewed r old) (relaunch_with launcher old r)
  relaunch_with-Renewed r old none configured = λ done. absurd (true-ne-false (sym done))
  relaunch_with-Renewed r old (some launcher) configured =
      relaunch_stopped launcher old r configured
        (launcher.stop_child old (restart_requested r.lifecycle_hooks old r.world)).1 refl
