-- ===== src/Lifecycle.antt =====
-- include/framekit/lifecycle/state.hpp and state_machine.hpp, src/lifecycle_state_machine.cpp.
-- A method that changes the machine returns the new machine with its result.
pub mod Graph
pub mod History
use framekit.Base.{◌≡◌, Bool, true, false, ◌||◌, List, [], ◌∷◌, ◌++◌, if◌then◌else◌, arith}

pub data LifecycleState : Type 0 where
  bootstrapping initializing running stopping stopped faulted : LifecycleState

-- `next == ...` on the enumeration.
abbrev pub same_state : LifecycleState → LifecycleState → Bool
same_state bootstrapping bootstrapping = true
same_state initializing initializing = true
same_state running running = true
same_state stopping stopping = true
same_state stopped stopped = true
same_state faulted faulted = true
same_state _ _ = false

unfoldable pub is_legal_transition : LifecycleState → LifecycleState → Bool
is_legal_transition bootstrapping next = same_state next initializing || same_state next faulted
is_legal_transition initializing next =
    same_state next running || (same_state next stopping || same_state next faulted)
is_legal_transition running next = same_state next stopping || same_state next faulted
is_legal_transition stopping next = same_state next stopped || same_state next faulted
is_legal_transition stopped next = same_state next bootstrapping
is_legal_transition faulted next =
    same_state next stopping || (same_state next stopped || same_state next bootstrapping)

pub record LifecycleStateMachine : Type 0 where
  pub state : LifecycleState
  pub history : List LifecycleState

unfoldable pub new_machine : LifecycleStateMachine
new_machine = record { state = stopped; history = stopped ∷ [] }

unfoldable pub can_transition_to : LifecycleStateMachine → LifecycleState → Bool
unfolding is_legal_transition
can_transition_to m next = is_legal_transition m.state next

unfoldable pub transition_to : LifecycleStateMachine → LifecycleState → LifecycleStateMachine × Bool
unfolding can_transition_to
transition_to m next =
    if can_transition_to m next
    then (record { state = next; history = m.history ++ next ∷ [] }, true)
    else (m, false)

-- A client's sequence of requests, the refused ones included.
unfoldable pub transition_all : LifecycleStateMachine → List LifecycleState → LifecycleStateMachine
transition_all m [] = m
transition_all m (next ∷ rest) = transition_all (transition_to m next).0 rest
