-- ===== src/Kernel/Actions.antt =====
-- The calls of `Start` and `Stop` as actions on the kernel, and their sequence.
use framekit.Base.{Bool, true, false, String, Option, none, some}
use framekit.Lifecycle.{LifecycleState, transition_to}
use framekit.Kernel.{Kernel, CallbackStep, fault}

-- An action changes the kernel and says whether it succeeded.
abbrev pub Action : (S H P W : Type 0) → Type 0
Action S H P W = Kernel S H P W → Kernel S H P W × Bool

module _ {S H P W : Type 0} where
  abbrev pub proceed : Action S H P W → Kernel S H P W × Bool → Kernel S H P W × Bool
  proceed next (k, true) = next k
  proceed next (k, false) = (k, false)

  -- The next action runs if this one succeeded: the source's early returns.
  infixl 5 ◌>>◌
  abbrev pub ◌>>◌ : Action S H P W → Action S H P W → Action S H P W
  ◌>>◌ first next k = proceed next (first k)

  abbrev pub failed_with : String → Kernel S H P W × Bool → Kernel S H P W × Bool
  failed_with reason (k, true) = (k, true)
  failed_with reason (k, false) = (fault k reason, false)

  -- `if (!action) { Fault(reason); return false; }`
  abbrev pub or_fault : String → Action S H P W → Action S H P W
  or_fault reason action k = failed_with reason (action k)

  -- `lifecycle_.TransitionTo(next)`
  unfoldable pub advance : LifecycleState → Action S H P W
  advance next k =
      let (lifecycle, moved) = transition_to k.lifecycle next in
      (record k { lifecycle = lifecycle }, moved)

  abbrev pub run_step : Option (CallbackStep S H P W) → CallbackStep S H P W
  run_step none outside = (outside, true)
  run_step (some step) outside = step outside

  -- A step on what the kernel shares.
  unfoldable pub call_outside : CallbackStep S H P W → Action S H P W
  call_outside step k =
      let (outside, done) = step k.outside in (record k { outside = outside }, done)
