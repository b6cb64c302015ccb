-- ===== src/Loop/Runner.antt =====
-- `LoopStageGraphRunner`: include/framekit/loop/stage_graph.hpp, src/loop_stage_graph.cpp.
-- A stage handler is a function on the state `W` of whatever the host's handlers share; it does not
-- call the runner back.
pub mod Configured
pub mod Frames
pub mod Budget
pub mod Overruns
pub mod Order
pub mod Active
use framekit.Base.{
  ℕ, zero, suc, ◌+◌, ◌-◌, ◌/◌, ◌%◌, min, Bool, true, false, not, ◌&&◌, ◌||◌, String, concat, List,
  [], ◌∷◌, ◌++◌, Option, none, some, ◌==◌, nat_eq, contains, u32, u64, ltb, leb, if◌then◌else◌,
}
use framekit.Base.Assoc.{lookup, insert, erase}
use framekit.Loop.Policy.{
  LoopPolicy, TimingMode, fixed_delta, OverrunMode, slip, catch_up_bounded, drop_non_critical,
  fail_fast, default_policy, is_fixed_delta, validate_loop_policy,
}
use framekit.Loop.Stages.{
  LoopStage, pre_update, update, post_update, stage_eq, baseline_loop_stage_order,
  parse_loop_stage_name, is_optional_for_profile,
}

pub record LoopStageGraphRunner (W : Type 0) : Type 0 where
  pub policy : LoopPolicy
  pub handlers : List (LoopStage × (W → W))
  pub active_stages : List LoopStage
  pub last_executed_stages : List LoopStage
  pub last_update_step_count : ℕ  -- uint32_t
  pub last_dropped_update_step_count : ℕ  -- uint32_t
  pub last_frame_dropped_non_critical_stages : Bool
  pub fixed_delta_accumulator_ns : ℕ  -- uint64_t
  pub last_error : String
  pub configured : Bool

-- The set of disabled stages, or the name that did not parse.
pub data DisabledStages : Type 0 where
  unknown : String → DisabledStages
  disabled : List LoopStage → DisabledStages

-- The loop of `Configure` over the policy's list.
unfoldable pub parse_disabled_stages : List LoopStage → List String → DisabledStages
parse_disabled_stages set [] = disabled set
parse_disabled_stages set (name ∷ rest) = elim (parse_loop_stage_name name) [
  | none ↦ unknown name
  | some stage ↦ parse_disabled_stages (stage ∷ set) rest
]

unfoldable pub keep_active : List LoopStage → List LoopStage → List LoopStage
keep_active set [] = []
keep_active set (stage ∷ rest) =
    if contains set stage then keep_active set rest else stage ∷ keep_active set rest

-- The budget of a frame: the update steps to run, those given up, and whether optional stages go.
pub record FrameBudget : Type 0 where
  pub update_steps : ℕ
  pub dropped_steps : ℕ
  pub drop_non_critical_stages : Bool

-- `std::min` with the largest `uint32_t`, after the quotient 0 became 1.
unfoldable pub requested_steps : (accumulator fixed_delta_ns : ℕ) → ℕ
requested_steps accumulator delta =
    min (if accumulator / delta == 0 then 1 else accumulator / delta) 4294967295

-- The switch over the overrun mode; `none` is its fail-fast return.
unfoldable pub plan_overrun : OverrunMode → (max_catch_up_steps requested : ℕ) → Option FrameBudget
plan_overrun slip budget requested =
    some
      (record { update_steps = 1; dropped_steps = requested - 1; drop_non_critical_stages = false })
plan_overrun catch_up_bounded budget requested =
    let steps = min requested (u32 (1 + budget)) in
    some (record {
      update_steps = steps;
      dropped_steps = requested - steps;
      drop_non_critical_stages = false;
    })
plan_overrun drop_non_critical budget requested =
    some
      (record { update_steps = 1; dropped_steps = requested - 1; drop_non_critical_stages = true })
plan_overrun fail_fast budget requested = none

abbrev pub single_step : FrameBudget
single_step = record { update_steps = 1; dropped_steps = 0; drop_non_critical_stages = false }

unfoldable pub plan_steps : LoopPolicy → ℕ → Option FrameBudget
unfolding plan_overrun
plan_steps policy requested =
    if ltb 1 requested
    then plan_overrun policy.overrun_mode policy.max_catch_up_steps requested
    else some single_step

-- What is left in the accumulator behind the switch.
unfoldable pub reduce_accumulator : (accumulator fixed_delta_ns : ℕ) → ℕ
reduce_accumulator accumulator delta =
    if leb delta accumulator then accumulator % delta else accumulator

abbrev pub is_update_stage : LoopStage → Bool
is_update_stage stage = stage == update || stage == post_update

abbrev pub overrun_error : String
overrun_error = "timing overrun: fixed-delta frame exceeded budget in fail-fast mode"

module _ {W : Type 0} where
  unfoldable pub new_runner : LoopStageGraphRunner W
  new_runner = record {
    policy = default_policy;
    handlers = [];
    active_stages = [];
    last_executed_stages = [];
    last_update_step_count = 1;
    last_dropped_update_step_count = 0;
    last_frame_dropped_non_critical_stages = false;
    fixed_delta_accumulator_ns = 0;
    last_error = "";
    configured = false;
  }

  apply_policy :
      LoopStageGraphRunner W → LoopPolicy → DisabledStages → LoopStageGraphRunner W × Bool
  apply_policy r policy (unknown name) = (
    record r {
      last_error = concat "unknown loop stage in policy disable list: " name;
      configured = false;
    },
    false,
  )
  apply_policy r policy (disabled set) = (
    record r {
      policy = policy;
      active_stages = keep_active set baseline_loop_stage_order;
      last_executed_stages = [];
      last_update_step_count = 1;
      last_dropped_update_step_count = 0;
      last_frame_dropped_non_critical_stages = false;
      fixed_delta_accumulator_ns = 0;
      last_error = "";
      configured = true;
    },
    true,
  )

  unfoldable pub configure : LoopStageGraphRunner W → LoopPolicy → LoopStageGraphRunner W × Bool
  unfolding apply_policy
  configure r policy =
      let validation = validate_loop_policy policy in
      if not validation.valid
      then (record r { last_error = validation.reason; configured = false }, false)
      else apply_policy r policy (parse_disabled_stages [] policy.disabled_optional_stages)

  -- An empty `std::function` is `none`.
  unfoldable pub set_stage_handler :
      LoopStageGraphRunner W → LoopStage → Option (W → W) → LoopStageGraphRunner W
  set_stage_handler r stage none = record r { handlers = erase stage r.handlers }
  set_stage_handler r stage (some handler) = record r { handlers = insert stage handler r.handlers }

  unfoldable pub clear_stage_handlers : LoopStageGraphRunner W → LoopStageGraphRunner W
  clear_stage_handlers r = record r { handlers = [] }

  abbrev run_handler : Option (W → W) → W → W
  run_handler none w = w
  run_handler (some handler) w = handler w

  -- The lambda `execute_stage`.
  unfoldable pub execute_stage : LoopStage → LoopStageGraphRunner W × W → LoopStageGraphRunner W × W
  execute_stage stage (r, w) = (
    record r { last_executed_stages = r.last_executed_stages ++ stage ∷ [] },
    run_handler (lookup stage r.handlers) w,
  )

  unfoldable pub execute_stage_if :
      Bool → LoopStage → LoopStageGraphRunner W × W → LoopStageGraphRunner W × W
  execute_stage_if b stage s = if b then execute_stage stage s else s

  -- The counted loop in the place of `PreUpdate`, by recursion on the steps that are left.
  unfoldable pub execute_update_steps :
      (has_update has_post_update : Bool)
      → ℕ
      → LoopStageGraphRunner W × W
      → LoopStageGraphRunner W × W
  execute_update_steps has_update has_post_update zero s = s
  execute_update_steps has_update has_post_update (suc steps) s =
      execute_update_steps has_update has_post_update steps (
        execute_stage_if has_post_update post_update
          (execute_stage_if has_update update (execute_stage pre_update s)))

  -- The body of the loop over the active stages.
  unfoldable pub visit_stage :
      (has_update has_post_update drop : Bool)
      → LoopStage
      → LoopStageGraphRunner W × W
      → LoopStageGraphRunner W × W
  visit_stage has_update has_post_update drop stage (r, w) =
      if is_update_stage stage
      then (r, w)
      else (if stage == pre_update
          then execute_update_steps has_update has_post_update r.last_update_step_count (r, w)
          else (if drop && is_optional_for_profile r.policy.profile stage
              then (record r { last_frame_dropped_non_critical_stages = true }, w)
              else execute_stage stage (r, w)))

  unfoldable pub visit_stages :
      (has_update has_post_update drop : Bool)
      → List LoopStage
      → LoopStageGraphRunner W × W
      → LoopStageGraphRunner W × W
  visit_stages has_update has_post_update drop [] s = s
  visit_stages has_update has_post_update drop (stage ∷ rest) s =
      visit_stages has_update has_post_update drop rest
        (visit_stage has_update has_post_update drop stage s)

  -- From the clearing of the executed stages to the end of `ExecuteFrame`.
  unfoldable pub run_frame : LoopStageGraphRunner W → FrameBudget → W → LoopStageGraphRunner W × W
  run_frame r budget w =
      let r' = record r {
        last_executed_stages = [];
        last_update_step_count = budget.update_steps;
        last_dropped_update_step_count = budget.dropped_steps;
      } in
      visit_stages (contains r.active_stages update) (contains r.active_stages post_update)
        budget.drop_non_critical_stages r.active_stages (r', w)

  -- The fixed-delta branch, with the accumulator after its addition.
  unfoldable pub fixed_delta_frame :
      LoopStageGraphRunner W → (accumulator : ℕ) → W → LoopStageGraphRunner W × W × Bool
  fixed_delta_frame r accumulator w =
      let delta = r.policy.fixed_delta_ns in
      let r' = record r { fixed_delta_accumulator_ns = accumulator } in
      elim (plan_steps r.policy (requested_steps accumulator delta)) [
        | none ↦ (record r' { last_error = overrun_error }, w, false)
        | some budget ↦
            let (done, w') =
              run_frame
                (record r { fixed_delta_accumulator_ns = reduce_accumulator accumulator delta })
                budget w in
            (done, w', true)
      ]

  unfoldable pub execute_frame :
      LoopStageGraphRunner W → (elapsed_ns : ℕ) → W → LoopStageGraphRunner W × W × Bool
  unfolding fixed_delta_frame
  execute_frame r elapsed_ns w =
      let r' = record r {
        last_error = "";
        last_update_step_count = 1;
        last_dropped_update_step_count = 0;
        last_frame_dropped_non_critical_stages = false;
      } in
      let delta = r.policy.fixed_delta_ns in
      let observed : ℕ = if elapsed_ns == 0 then delta else elapsed_ns in
      if not r.configured
      then (record r { last_error = "loop stage graph runner is not configured" }, w, false)
      else (if is_fixed_delta r.policy.timing_mode
          then (if delta == 0
              then (
                record r' { last_error = "fixed-delta timing requires fixed_delta_ns > 0" },
                w,
                false,
              )
              else fixed_delta_frame r' (u64 (r.fixed_delta_accumulator_ns + observed)) w)
          else (let (done, w') =
                run_frame (record r' { fixed_delta_accumulator_ns = 0 }) single_step w in
              (done, w', true)))
