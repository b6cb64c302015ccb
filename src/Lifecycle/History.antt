-- ===== src/Lifecycle/History.antt =====
-- What the recorded history says, after any sequence of requests.
use mathlib.Core.List.{append_assoc}
use framekit.Base.{◌≡◌, refl, inl, inr, List, [], ◌∷◌, ◌++◌, Bool-cases}
use framekit.Lifecycle.{
  LifecycleState, stopped, running, initializing, is_legal_transition, LifecycleStateMachine,
  transition_to, transition_all, new_machine,
}
use framekit.Lifecycle.Graph
use framekit.Lifecycle.Graph.{◌⟶◌, legal-edge, run}

-- `Trail h s`: `h` is a walk along the edges of the diagram, from `stopped` to `s`.
pub data Trail : List LifecycleState → LifecycleState → Type 0 where
  start : Trail (stopped ∷ []) stopped
  walk :
      {h : List LifecycleState} {s t : LifecycleState} → Trail h s → s ⟶ t → Trail (h ++ t ∷ []) t

transition_to-Trail :
    (m : LifecycleStateMachine) (next : LifecycleState)
    → Trail m.history m.state
    → Trail (transition_to m next).0.history (transition_to m next).0.state
transition_to-Trail m next h = elim (Bool-cases (is_legal_transition m.state next)) [
  | inl e ↦ unfold transition_to in rw e (walk h (legal-edge m.state next e))
  | inr e ↦ unfold transition_to in rw e h
]

transition_all-Trail :
    (m : LifecycleStateMachine) (requests : List LifecycleState)
    → Trail m.history m.state
    → Trail (transition_all m requests).history (transition_all m requests).state
unfolding transition_all
transition_all-Trail m [] h = h
transition_all-Trail m (next ∷ rest) h =
    transition_all-Trail (transition_to m next).0 rest (transition_to-Trail m next h)

-- Whatever is requested of a new machine, its history is a walk along the diagram from `stopped`
-- to its present state.
pub history-Trail :
    (requests : List LifecycleState)
    → Trail
        (transition_all new_machine requests).history
        (transition_all new_machine requests).state
unfolding new_machine
history-Trail requests = transition_all-Trail new_machine requests start

Trail-last :
    {h : List LifecycleState} {s : LifecycleState}
    → Trail h s
    → (before : List LifecycleState) × (h ≡ before ++ s ∷ [])
Trail-last start = ([], refl)
Trail-last (walk {h} t edge) = (h, refl)

into-running : {s t : LifecycleState} → s ⟶ t → t ≡ running → s ≡ initializing
into-running run e = refl
into-running Graph.boot e = cc
into-running _ e = cc

Trail-running :
    {h : List LifecycleState} {s : LifecycleState}
    → Trail h s
    → s ≡ running
    → (before : List LifecycleState) × (h ≡ before ++ initializing ∷ running ∷ [])
Trail-running start e = absurd (cc)
Trail-running (walk t edge) e =
    let (before, split) = Trail-last t in
    (
      before,
      rw (split, e, into-running edge e) (append_assoc before (initializing ∷ []) (running ∷ [])),
    )

-- Whatever is requested of a new machine, if it is running then its history ends with
-- `initializing` and `running`.
pub running-initialized :
    (requests : List LifecycleState)
    → (transition_all new_machine requests).state ≡ running
    → (before : List LifecycleState) × ((transition_all new_machine requests).history
        ≡ before ++ initializing ∷ running ∷ [])
running-initialized requests e = Trail-running (history-Trail requests) e
