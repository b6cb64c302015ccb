-- ===== src/Kernel/Ends.antt =====
-- Rules for what holds of the kernel after an action, by whether it succeeded.
use framekit.Base.{◌≡◌, refl, sym, subst, Bool, true, false, not, String, if◌then◌else◌}
use framekit.Lifecycle.{
  LifecycleState, faulted, same_state, is_legal_transition, LifecycleStateMachine, transition_to,
}
use framekit.Lifecycle.Graph.{
  ◌⟶◌, fail_boot, fail_initialize, fail_run, fail_stop, is_legal_transition_iff,
}
use framekit.Lifecycle.History.{Trail, walk}
use framekit.Kernel.{Kernel, fault}
use framekit.Kernel.Actions.{Action, ◌>>◌, proceed, or_fault, failed_with, advance}

-- The machine is in the state, and its history is a walk along the lifecycle diagram.
pub record InState (s : LifecycleState) (m : LifecycleStateMachine) : Type 0 where
  pub state : m.state ≡ s
  pub trail : Trail m.history m.state

Legal-InState :
    (m : LifecycleStateMachine) (s t : LifecycleState)
    → s ⟶ t
    → InState s m
    → is_legal_transition m.state t ≡ true
Legal-InState m s t edge h =
    subst (λ x. is_legal_transition x t ≡ true) (sym h.state) ((is_legal_transition_iff s t).1 edge)

pub transition_to-edge :
    (m : LifecycleStateMachine) (s t : LifecycleState)
    → s ⟶ t
    → InState s m
    → ((transition_to m t).1 ≡ true) × InState t (transition_to m t).0
unfolding transition_to
transition_to-edge m s t edge h =
    rw (Legal-InState m s t edge h)
      (refl, record { state = refl; trail = walk h.trail (subst (λ x. x ⟶ t) (sym h.state) edge) })

faulted-final : (s : LifecycleState) → s ⟶ faulted → same_state s faulted ≡ false
faulted-final s fail_boot = refl
faulted-final s fail_initialize = refl
faulted-final s fail_run = refl
faulted-final s fail_stop = refl

fault-InState :
    (m : LifecycleStateMachine) (s : LifecycleState)
    → s ⟶ faulted
    → InState s m
    → InState faulted (if not (same_state m.state faulted) then (transition_to m faulted).0 else m)
fault-InState m s edge h =
    subst
      (λ x. InState faulted (if not (same_state x faulted) then (transition_to m faulted).0 else m))
      (sym h.state) (rw (faulted-final s edge) (transition_to-edge m s faulted edge h).1)

module _ {S H P W : Type 0} where
  abbrev pub Outcome : (Done Failed : Kernel S H P W → Type 0) → Kernel S H P W × Bool → Type 0
  Outcome Done Failed (k, true) = Done k
  Outcome Done Failed (k, false) = Failed k

  pub record Ends (action : Action S H P W) (Before Done Failed : Kernel S H P W → Type 0)
      : Type 0 where
    pub at : (k : Kernel S H P W) → Before k → Outcome Done Failed (action k)

  pub Ends-seq :
      {a b : Action S H P W} {Before Middle Done Failed : Kernel S H P W → Type 0}
      → Ends a Before Middle Failed
      → Ends b Middle Done Failed
      → Ends (a >> b) Before Done Failed
  Ends-seq {a = a} {b = b} {Middle = Middle} {Done = Done} {Failed = Failed} first second = record {
    at = λ k before. after (a k) (first.at k before);
  }
    where
      after :
          (r : Kernel S H P W × Bool) → Outcome Middle Failed r → Outcome Done Failed (proceed b r)
      after (k, true) middle = second.at k middle
      after (k, false) failed = failed

  pub failed_with-Outcome :
      (Done Inner Failed : Kernel S H P W → Type 0) (reason : String) (r : Kernel S H P W × Bool)
      → ((k : Kernel S H P W) → Inner k → Failed (fault k reason))
      → Outcome Done Inner r
      → Outcome Done Failed (failed_with reason r)
  failed_with-Outcome Done Inner Failed reason (k, true) faults done = done
  failed_with-Outcome Done Inner Failed reason (k, false) faults failed = faults k failed

  pub Ends-or_fault :
      {a : Action S H P W} {Before Done Inner Failed : Kernel S H P W → Type 0} (reason : String)
      → ((k : Kernel S H P W) → Inner k → Failed (fault k reason))
      → Ends a Before Done Inner
      → Ends (or_fault reason a) Before Done Failed
  Ends-or_fault {a = a} {Done = Done} {Inner = Inner} {Failed = Failed} reason faults inner =
      record {
        at = λ k before.
            failed_with-Outcome Done Inner Failed reason (a k) faults (inner.at k before);
      }

  abbrev pub At : LifecycleState → Kernel S H P W → Type 0
  At s k = InState s k.lifecycle

  abbrev pub Never : Kernel S H P W → Type 0
  Never k = ⊥

  pub fault-At :
      (s : LifecycleState)
      → s ⟶ faulted
      → (reason : String) (k : Kernel S H P W) → At s k
      → At faulted (fault k reason)
  unfolding fault
  fault-At s edge reason k h = fault-InState k.lifecycle s edge h

  pub advance-At : (s t : LifecycleState) → s ⟶ t → Ends (advance t) (At s) (At t) Never
  unfolding advance
  advance-At s t edge = record {
    at = λ k h. let (moved, there) = transition_to-edge k.lifecycle s t edge h in rw moved there;
  }

  pub unchanged-At :
      (s : LifecycleState) (a : Action S H P W)
      → ((k : Kernel S H P W) → (a k).0.lifecycle ≡ k.lifecycle)
      → Ends a (At s) (At s) (At s)
  unchanged-At s a same = record { at = λ k h. after (a k) (subst (InState s) (sym (same k)) h) }
    where
      after : (r : Kernel S H P W × Bool) → InState s r.0.lifecycle → Outcome (At s) (At s) r
      after (k, true) h = h
      after (k, false) h = h

  -- An action that never fails ends as it may under any condition of failure.
  pub Ends-never :
      {a : Action S H P W} {Before Done Failed : Kernel S H P W → Type 0}
      → Ends a Before Done Never
      → Ends a Before Done Failed
  Ends-never {a = a} {Done = Done} {Failed = Failed} h = record {
    at = λ k before. after (a k) (h.at k before);
  }
    where
      after : (r : Kernel S H P W × Bool) → Outcome Done Never r → Outcome Done Failed r
      after (k, true) done = done
      after (k, false) never = absurd never
