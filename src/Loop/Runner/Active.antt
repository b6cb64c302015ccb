-- ===== src/Loop/Runner/Active.antt =====
-- A frame leaves the active stages of its runner as they are.
use framekit.Base.{
  ◌≡◌, refl, ◌∙◌, Bool, false, ℕ, zero, suc, List, [], ◌∷◌, if◌then◌else◌, Option-cases, u64, ◌+◌,
  nat_eq, inl, inr, arith, ◌==◌,
}
use framekit.Loop.Stages.{LoopStage, stage_eq}
use framekit.Loop.Runner.{
  LoopStageGraphRunner, FrameBudget, execute_frame, fixed_delta_frame, run_frame, visit_stages,
  visit_stage, execute_update_steps, execute_stage_if, execute_stage, plan_steps, requested_steps,
  reduce_accumulator, single_step,
}

module _ {S : Type 0} where
  abbrev Same : LoopStageGraphRunner S × S → LoopStageGraphRunner S × S → Type 0
  Same (r, s) (r', s') = r'.active_stages ≡ r.active_stages

  execute_update_steps-Same :
      (has_update has_post_update : Bool) (steps : ℕ) (s : LoopStageGraphRunner S × S)
      → Same s (execute_update_steps has_update has_post_update steps s)
  unfolding execute_update_steps execute_stage_if execute_stage
  execute_update_steps-Same has_update has_post_update zero s = refl
  execute_update_steps-Same has_update has_post_update (suc steps) s =
      execute_update_steps-Same has_update has_post_update steps _ ∙ ground arith

  visit_stage-Same :
      (has_update has_post_update drop : Bool) (stage : LoopStage) (s : LoopStageGraphRunner S × S)
      → Same s (visit_stage has_update has_post_update drop stage s)
  unfolding visit_stage execute_stage
  visit_stage-Same has_update has_post_update drop stage s =
      ground
        (arith, execute_update_steps-Same has_update has_post_update s.0.last_update_step_count s)

  visit_stages-Same :
      (has_update has_post_update drop : Bool) (stages : List LoopStage)
      (s : LoopStageGraphRunner S × S)
      → Same s (visit_stages has_update has_post_update drop stages s)
  unfolding visit_stages
  visit_stages-Same has_update has_post_update drop [] s = refl
  visit_stages-Same has_update has_post_update drop (stage ∷ rest) s =
      visit_stages-Same has_update has_post_update drop rest _
      ∙ visit_stage-Same has_update has_post_update drop stage s

  run_frame-active :
      (r : LoopStageGraphRunner S) (budget : FrameBudget) (s : S)
      → (run_frame r budget s).0.active_stages ≡ r.active_stages
  unfolding run_frame
  run_frame-active r budget s = visit_stages-Same _ _ _ r.active_stages _

  fixed_delta_frame-active :
      (r : LoopStageGraphRunner S) (accumulator : ℕ) (s : S)
      → (fixed_delta_frame r accumulator s).0.active_stages ≡ r.active_stages
  unfolding fixed_delta_frame
  fixed_delta_frame-active r accumulator s =
      let delta = r.policy.fixed_delta_ns in
      let r' = record r { fixed_delta_accumulator_ns = reduce_accumulator accumulator delta } in
      elim (Option-cases (plan_steps r.policy (requested_steps accumulator delta))) [
        | inl e ↦ ground (arith, e)
        | inr (budget, e) ↦ ground (arith, e, run_frame-active r' budget s)
      ]

  pub execute_frame-active :
      (r : LoopStageGraphRunner S) (elapsed_ns : ℕ) (s : S)
      → (execute_frame r elapsed_ns s).0.active_stages ≡ r.active_stages
  unfolding execute_frame
  execute_frame-active r elapsed_ns s =
      let r' = record r {
        last_error = "";
        last_update_step_count = 1;
        last_dropped_update_step_count = 0;
        last_frame_dropped_non_critical_stages = false;
      } in
      let observed : ℕ = if elapsed_ns == 0 then r.policy.fixed_delta_ns else elapsed_ns in
      ground (
        arith,
        fixed_delta_frame-active r' (u64 (r.fixed_delta_accumulator_ns + observed)) s,
        run_frame-active (record r' { fixed_delta_accumulator_ns = 0 }) single_step s,
      )
