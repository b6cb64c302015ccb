-- ===== src/Samples/Frames.antt =====
-- Frames of the stage graph runner on concrete policies.
use framekit.Base.{
  ℕ, ◌+◌, ◌<◌, ◌≡◌, refl, ◌⊎◌, true, false, [], ◌∷◌, if◌then◌else◌, contains, any, some, arith,
}
use framekit.Loop.Policy.{
  LoopPolicy, fixed_delta, OverrunMode, catch_up_bounded, fail_fast, validate_loop_policy,
  check_rendering_disablement, check_disabled_stages, is_known_stage, is_always_required_stage,
  is_render_stage, is_optional_for_profile, contains_stage,
}
use framekit.Loop.Policy.Laws.{validate_loop_policy_iff}
use framekit.Loop.Stages
use framekit.Loop.Stages.{LoopStage, stage_of, parse_loop_stage_name}
use framekit.Base.Assoc.{lookup, insert}
use framekit.Loop.Runner.{
  LoopStageGraphRunner, new_runner, configure, execute_frame, set_stage_handler, requested_steps,
  parse_disabled_stages, keep_active, fixed_delta_frame, plan_steps, plan_overrun,
  reduce_accumulator, run_frame, visit_stages, visit_stage, execute_update_steps, execute_stage_if,
  execute_stage,
}
use framekit.Loop.Runner.Configured.{stages_of, configure_lem}
use framekit.Loop.Runner.Order.{frame_order, run_handlers}
use framekit.Loop.Runner.Frames.{IsReady, rendering_of, execute_frame_order}
use framekit.Loop.Runner.Budget.{IsFixed, Accounts, execute_frame-Accounts}
use framekit.Loop.Runner.Overruns.{AllRefused, fail_fast_sticky, catch_up_wraps}
use framekit.Samples.States.{headless_policy}

abbrev fixed_policy : OverrunMode → ℕ → LoopPolicy
fixed_policy mode budget = record headless_policy {
  timing_mode = fixed_delta;
  overrun_mode = mode;
  fixed_delta_ns = 10;
  max_catch_up_steps = budget;
}

-- What `Configure` makes of such a policy.
abbrev runner_of : LoopPolicy → LoopStageGraphRunner ℕ
runner_of p = record {
  policy = p;
  handlers = (LoopStage.update, λ n. n + 1) ∷ [];
  active_stages =
      LoopStage.begin_frame ∷ LoopStage.process_platform_events ∷ LoopStage.normalize_input
      ∷ LoopStage.dispatch_immediate_events ∷ LoopStage.pre_update ∷ LoopStage.update
      ∷ LoopStage.post_update ∷ LoopStage.dispatch_deferred_events ∷ LoopStage.end_frame ∷ [];
  last_executed_stages = [];
  last_update_step_count = 1;
  last_dropped_update_step_count = 0;
  last_frame_dropped_non_critical_stages = false;
  fixed_delta_accumulator_ns = 0;
  last_error = "";
  configured = true;
}

-- Thirty-five nanoseconds at ten each will be three steps, with one to catch up.
abbrev bounded : LoopPolicy
bounded = fixed_policy catch_up_bounded 1

bounded_configured :
    configure (set_stage_handler new_runner LoopStage.update (some (λ n. n + 1))) bounded
    ≡ (runner_of bounded, true)
unfolding configure validate_loop_policy check_disabled_stages is_known_stage
    is_always_required_stage is_render_stage is_optional_for_profile contains_stage
    parse_disabled_stages parse_loop_stage_name stage_of keep_active contains any new_runner
    check_rendering_disablement set_stage_handler insert
bounded_configured = refl

bounded_frame :
    let (r, w, done) = execute_frame (runner_of bounded) 35 0 in
    (r.last_executed_stages
      ≡ LoopStage.begin_frame ∷ LoopStage.process_platform_events ∷ LoopStage.normalize_input
        ∷ LoopStage.dispatch_immediate_events ∷ LoopStage.pre_update ∷ LoopStage.update
        ∷ LoopStage.post_update ∷ LoopStage.pre_update ∷ LoopStage.update ∷ LoopStage.post_update
        ∷ LoopStage.dispatch_deferred_events ∷ LoopStage.end_frame ∷ [])
    × (r.last_update_step_count ≡ 2)
    × (r.last_dropped_update_step_count ≡ 1)
    × (r.fixed_delta_accumulator_ns ≡ 5)
    × (w ≡ 2)
    × (done ≡ true)
unfolding execute_frame fixed_delta_frame plan_steps plan_overrun requested_steps reduce_accumulator
    run_frame visit_stages visit_stage execute_update_steps execute_stage_if execute_stage contains
    lookup is_optional_for_profile Stages.is_optional_for_profile Stages.is_render_stage
bounded_frame = (refl, refl, refl, refl, refl, refl)

bounded-IsReady : IsReady (runner_of bounded)
unfolding configure validate_loop_policy check_disabled_stages is_known_stage
    is_always_required_stage is_render_stage is_optional_for_profile contains_stage
    parse_disabled_stages parse_loop_stage_name stage_of keep_active contains any new_runner
    check_rendering_disablement
bounded-IsReady = record {
  admissible = λ _. (validate_loop_policy_iff bounded).0 refl;
  active = λ _. refl;
}

IsFixed-runner :
    (p : LoopPolicy) → p.timing_mode ≡ fixed_delta → 0 < p.fixed_delta_ns → IsFixed (runner_of p)
IsFixed-runner p fixed positive = record { on = refl; fixed = fixed; positive = positive }

configure_lem_example :
    let (r', done) = configure (runner_of bounded) headless_policy in
    ((done ≡ true)
      × ((validate_loop_policy headless_policy).valid ≡ true)
      × (r'.configured ≡ true)
      × (r'.policy ≡ headless_policy)
      × (r'.active_stages ≡ stages_of headless_policy)
      × (r'.fixed_delta_accumulator_ns ≡ 0))
    ⊎ ((done ≡ false)
        × ((validate_loop_policy headless_policy).valid ≡ false)
        × (r'.configured ≡ false)
        × (r'.last_error ≡ (validate_loop_policy headless_policy).reason)
        × (r'.active_stages ≡ (runner_of bounded).active_stages))
configure_lem_example = configure_lem (runner_of bounded) headless_policy

execute_frame_order_example :
    let (r', w', done) = execute_frame (runner_of bounded) 35 0 in
    ((done ≡ true)
      × (r'.last_executed_stages
          ≡ frame_order r'.last_update_step_count
              (if r'.last_frame_dropped_non_critical_stages then [] else rendering_of bounded))
      × (w' ≡ run_handlers (runner_of bounded).handlers r'.last_executed_stages 0))
    ⊎ ((done ≡ false) × (w' ≡ 0))
execute_frame_order_example = execute_frame_order (runner_of bounded) 35 0 bounded-IsReady

execute_frame-Accounts_example :
    Accounts (runner_of bounded) 35 (execute_frame (runner_of bounded) 35 0)
execute_frame-Accounts_example =
    execute_frame-Accounts (runner_of bounded) 35 0 (IsFixed-runner bounded refl (omega arith))

abbrev strict : LoopPolicy
strict = fixed_policy fail_fast 1

-- After a refused frame of 35 nanoseconds, two more are refused as well.
fail_fast_sticky_example : AllRefused (execute_frame (runner_of strict) 35 0).0 (10 ∷ 20 ∷ []) 0
unfolding execute_frame fixed_delta_frame plan_steps plan_overrun requested_steps
fail_fast_sticky_example =
    fail_fast_sticky (runner_of strict) 35 (10 ∷ 20 ∷ []) 0
      (IsFixed-runner strict refl (omega arith)) refl (omega arith)

abbrev unbounded : LoopPolicy
unbounded = fixed_policy catch_up_bounded 4294967295

catch_up_wraps_example :
    let (r', w', done) = execute_frame (runner_of unbounded) 35 0 in
    (done ≡ true) × (r'.last_update_step_count ≡ 0) × (r'.last_dropped_update_step_count ≡ 3)
unfolding requested_steps
catch_up_wraps_example =
    catch_up_wraps (runner_of unbounded) 35 0 (IsFixed-runner unbounded refl (omega arith)) refl
      refl (omega arith)
