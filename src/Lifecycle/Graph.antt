-- ===== src/Lifecycle/Graph.antt =====
-- The lifecycle diagram as a relation, and the code's table against it.
use framekit.Base.{◌≡◌, refl, ◌↔◌, true, arith}
use framekit.Lifecycle.{
  LifecycleState, bootstrapping, initializing, running, stopping, stopped, faulted,
  is_legal_transition,
}

infix 40 ◌⟶◌ ◌⟶*◌
-- The edges as docs/lifecycle-semantics.md draws them.
pub data ◌⟶◌ : LifecycleState → LifecycleState → Type 0 where
  boot : stopped ⟶ bootstrapping
  initialize : bootstrapping ⟶ initializing
  run : initializing ⟶ running
  abandon : initializing ⟶ stopping
  stop : running ⟶ stopping
  finish : stopping ⟶ stopped
  fail_boot : bootstrapping ⟶ faulted
  fail_initialize : initializing ⟶ faulted
  fail_run : running ⟶ faulted
  fail_stop : stopping ⟶ faulted
  clean_up : faulted ⟶ stopping
  give_up : faulted ⟶ stopped
  retry : faulted ⟶ bootstrapping

pub data ◌⟶*◌ : LifecycleState → LifecycleState → Type 0 where
  here : {s : LifecycleState} → s ⟶* s
  then : {s t u : LifecycleState} → s ⟶ t → t ⟶* u → s ⟶* u

pub ruleset edges = (
  boot, initialize, run, abandon, stop, finish, fail_boot, fail_initialize, fail_run, fail_stop,
  clean_up, give_up, retry,
)

edge-legal : {s t : LifecycleState} → s ⟶ t → is_legal_transition s t ≡ true
unfolding is_legal_transition
edge-legal boot = refl
edge-legal initialize = refl
edge-legal run = refl
edge-legal abandon = refl
edge-legal stop = refl
edge-legal finish = refl
edge-legal fail_boot = refl
edge-legal fail_initialize = refl
edge-legal fail_run = refl
edge-legal fail_stop = refl
edge-legal clean_up = refl
edge-legal give_up = refl
edge-legal retry = refl

pub legal-edge : (s t : LifecycleState) → is_legal_transition s t ≡ true → s ⟶ t
unfolding is_legal_transition
legal-edge s t h = grind (arith, edges)

-- The switch of the source accepts exactly the edges of the diagram.
pub is_legal_transition_iff : (s t : LifecycleState) → (is_legal_transition s t ≡ true) ↔ (s ⟶ t)
is_legal_transition_iff s t = (legal-edge s t, edge-legal)

-- From every state there are transitions that reach `running`.
pub recoverable : (s : LifecycleState) → s ⟶* running
recoverable running = here
recoverable bootstrapping = then initialize (then run here)
recoverable initializing = then run here
recoverable stopping = then finish (then boot (then initialize (then run here)))
recoverable stopped = then boot (then initialize (then run here))
recoverable faulted = then retry (then initialize (then run here))
