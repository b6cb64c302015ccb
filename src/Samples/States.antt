-- ===== src/Samples/States.antt =====
-- The lifecycle, the loop policy and the stage names on concrete values.
use framekit.Base.{◌≡◌, refl, true, false, List, [], ◌∷◌}
use framekit.Lifecycle.{
  LifecycleState, bootstrapping, initializing, running, stopped, new_machine, transition_to,
  transition_all,
}
use framekit.Lifecycle.History.{Trail, history-Trail}
use framekit.Loop.Policy.{
  LoopPolicy, LoopProfile, default_policy, validate_loop_policy, check_disabled_stages,
  is_known_stage, is_always_required_stage, is_render_stage, is_optional_for_profile,
  contains_stage,
}

abbrev requests : List LifecycleState
requests = bootstrapping ∷ running ∷ initializing ∷ running ∷ []

-- The jump to `running` is refused the first time.
requests_history :
    (transition_all new_machine requests).history
    ≡ stopped ∷ bootstrapping ∷ initializing ∷ running ∷ []
unfolding transition_all new_machine transition_to
requests_history = refl

history-Trail_example : Trail (stopped ∷ bootstrapping ∷ initializing ∷ running ∷ []) running
unfolding transition_all new_machine transition_to
history-Trail_example = history-Trail requests

abbrev pub headless_policy : LoopPolicy
headless_policy = record default_policy {
  profile = LoopProfile.headless;
  rendering_enabled = false;
  disabled_optional_stages = "PreRender" ∷ "Render" ∷ "PostRender" ∷ [];
}

-- The hybrid profile keeps its rendering.
abbrev hybrid_policy : LoopPolicy
hybrid_policy = record headless_policy { profile = LoopProfile.hybrid }

pub headless_valid : (validate_loop_policy headless_policy).valid ≡ true
unfolding validate_loop_policy check_disabled_stages is_known_stage is_always_required_stage
    is_render_stage is_optional_for_profile contains_stage
headless_valid = refl

hybrid_invalid :
    (validate_loop_policy hybrid_policy).reason ≡ "GUI and Hybrid profiles require rendering stages"
unfolding validate_loop_policy
hybrid_invalid = refl
