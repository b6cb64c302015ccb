-- ===== src/Loop/Policy.antt =====
-- include/framekit/loop/policy.hpp and src/loop_policy.cpp.
pub mod Laws
use framekit.Base.{
  ℕ, String, Bool, true, false, not, ◌&&◌, ◌||◌, List, [], ◌∷◌, Option, none, some, ◌==◌, string_eq,
  nat_eq, contains, concat, any, if◌then◌else◌,
}

pub data LoopProfile : Type 0 where
  gui headless hybrid deterministic_host : LoopProfile

pub data TimingMode : Type 0 where
  variable_delta fixed_delta externally_clocked : TimingMode

pub data OverrunMode : Type 0 where
  slip catch_up_bounded drop_non_critical fail_fast : OverrunMode

pub data ThreadingMode : Type 0 where
  single_threaded split_update_render host_managed : ThreadingMode

pub record LoopPolicy : Type 0 where
  pub profile : LoopProfile
  pub timing_mode : TimingMode
  pub overrun_mode : OverrunMode
  pub threading_mode : ThreadingMode
  pub fixed_delta_ns : ℕ  -- uint64_t
  pub max_catch_up_steps : ℕ  -- uint32_t
  pub rendering_enabled : Bool
  pub disabled_optional_stages : List String

-- The member initialisers of `LoopPolicy`.
abbrev pub default_policy : LoopPolicy
default_policy = record {
  profile = gui;
  timing_mode = variable_delta;
  overrun_mode = slip;
  threading_mode = single_threaded;
  fixed_delta_ns = 16666667;
  max_catch_up_steps = 0;
  rendering_enabled = true;
  disabled_optional_stages = [];
}

pub record LoopPolicyValidation : Type 0 where
  pub valid : Bool
  pub reason : String

abbrev pub is_fixed_delta : TimingMode → Bool
is_fixed_delta fixed_delta = true
is_fixed_delta _ = false

abbrev pub is_catch_up_bounded : OverrunMode → Bool
is_catch_up_bounded catch_up_bounded = true
is_catch_up_bounded _ = false

-- `profile == kGui || profile == kHybrid`.
abbrev pub is_gui_or_hybrid : LoopProfile → Bool
is_gui_or_hybrid gui = true
is_gui_or_hybrid hybrid = true
is_gui_or_hybrid _ = false

-- `profile == kHeadless || profile == kDeterministicHost`.
abbrev pub is_headless_or_deterministic : LoopProfile → Bool
is_headless_or_deterministic headless = true
is_headless_or_deterministic deterministic_host = true
is_headless_or_deterministic _ = false

abbrev pub baseline_stages : List String
baseline_stages =
    "BeginFrame" ∷ "ProcessPlatformEvents" ∷ "NormalizeInput" ∷ "DispatchImmediateEvents"
    ∷ "PreUpdate" ∷ "Update" ∷ "PostUpdate" ∷ "DispatchDeferredEvents" ∷ "PreRender" ∷ "Render"
    ∷ "PostRender" ∷ "EndFrame" ∷ []

unfoldable pub contains_stage : List String → String → Bool
unfolding contains
contains_stage stages target = contains stages target

unfoldable pub is_known_stage : String → Bool
unfolding any
is_known_stage stage = any (λ candidate. stage == candidate) baseline_stages

unfoldable pub is_render_stage : String → Bool
is_render_stage stage = stage == "PreRender" || (stage == "Render" || stage == "PostRender")

unfoldable pub is_always_required_stage : String → Bool
is_always_required_stage stage =
    if not (is_known_stage stage) then false else not (is_render_stage stage)

unfoldable pub is_optional_for_profile : LoopProfile → String → Bool
is_optional_for_profile profile stage =
    if not (is_render_stage stage) then false else is_headless_or_deterministic profile

abbrev pub invalid : String → LoopPolicyValidation
invalid reason = record { valid = false; reason = reason }

-- The `for` loop over the disabled stages: the reason of its first early return, if any.
unfoldable pub check_disabled_stages : LoopProfile → List String → Option String
check_disabled_stages profile [] = none
check_disabled_stages profile (stage ∷ rest) =
    if not (is_known_stage stage)
    then some (concat "disabled_optional_stages contains an unknown stage: " stage)
    else (if is_always_required_stage stage
        then some (concat "required stage cannot be disabled: " stage)
        else (if not (is_optional_for_profile profile stage)
            then some (concat "stage is not optional for active profile: " stage)
            else check_disabled_stages profile rest))

-- What stands behind the loop.
unfoldable pub check_rendering_disablement : LoopPolicy → LoopPolicyValidation
check_rendering_disablement policy =
    if not policy.rendering_enabled
      && (not (contains_stage policy.disabled_optional_stages "PreRender")
          || (not (contains_stage policy.disabled_optional_stages "Render")
              || not (contains_stage policy.disabled_optional_stages "PostRender")))
    then invalid "rendering disablement must declare PreRender, Render, and PostRender"
    else record { valid = true; reason = "" }

unfoldable pub validate_loop_policy : LoopPolicy → LoopPolicyValidation
unfolding check_rendering_disablement
validate_loop_policy policy =
    if is_fixed_delta policy.timing_mode && policy.fixed_delta_ns == 0
    then invalid "fixed_delta timing requires fixed_delta_ns > 0"
    else (if is_fixed_delta policy.timing_mode
          && (is_catch_up_bounded policy.overrun_mode && policy.max_catch_up_steps == 0)
        then invalid "fixed_delta + catch_up_bounded requires max_catch_up_steps > 0"
        else (if is_gui_or_hybrid policy.profile && not policy.rendering_enabled
            then invalid "GUI and Hybrid profiles require rendering stages"
            else elim (check_disabled_stages policy.profile policy.disabled_optional_stages) [
              | some reason ↦ invalid reason
              | none ↦ check_rendering_disablement policy
            ]))
