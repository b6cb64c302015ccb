-- ===== src/Loop/Policy/Laws.antt =====
-- What a policy that passes validation satisfies.
use framekit.Base.{
  ◌<◌, ◌≡◌, refl, ◌↔◌, String, true, false, List, [], ◌∷◌, none, string_eq, All, arith,
}
use framekit.Loop.Policy.{
  LoopProfile, gui, hybrid, fixed_delta, catch_up_bounded, LoopPolicy, is_headless_or_deterministic,
  is_render_stage, is_known_stage, is_always_required_stage, is_optional_for_profile,
  check_disabled_stages, contains_stage, validate_loop_policy,
}

-- A policy as docs/loop-stage-graph-profiles.md asks for it.
pub record IsAdmissible (p : LoopPolicy) : Type 0 where
  pub fixed_step : p.timing_mode ≡ fixed_delta → 0 < p.fixed_delta_ns
  pub bounded_budget :
      p.timing_mode ≡ fixed_delta → p.overrun_mode ≡ catch_up_bounded → 0 < p.max_catch_up_steps
  pub gui_renders : p.profile ≡ gui → p.rendering_enabled ≡ true
  pub hybrid_renders : p.profile ≡ hybrid → p.rendering_enabled ≡ true
  pub optional_only :
      All
        (λ stage. (is_render_stage stage ≡ true) × (is_headless_or_deterministic p.profile ≡ true))
        p.disabled_optional_stages
  pub declared :
      p.rendering_enabled ≡ false
      → (contains_stage p.disabled_optional_stages "PreRender" ≡ true)
        × (contains_stage p.disabled_optional_stages "Render" ≡ true)
        × (contains_stage p.disabled_optional_stages "PostRender" ≡ true)

render_known : (stage : String) → is_render_stage stage ≡ true → is_known_stage stage ≡ true
unfolding is_render_stage is_known_stage
render_known stage h = ground arith

check_disabled_stages_iff :
    (profile : LoopProfile) (stages : List String)
    → (check_disabled_stages profile stages ≡ none)
      ↔ All
          (λ stage. (is_render_stage stage ≡ true) × (is_headless_or_deterministic profile ≡ true))
          stages
unfolding check_disabled_stages is_always_required_stage is_optional_for_profile
check_disabled_stages_iff profile [] = (λ _. tt, λ _. refl)
check_disabled_stages_iff profile (s ∷ stages) =
    ground (arith, check_disabled_stages_iff profile stages, render_known s)

pub validate_loop_policy_iff :
    (p : LoopPolicy) → ((validate_loop_policy p).valid ≡ true) ↔ IsAdmissible p
unfolding validate_loop_policy
validate_loop_policy_iff p =
    ground (arith, check_disabled_stages_iff p.profile p.disabled_optional_stages)
