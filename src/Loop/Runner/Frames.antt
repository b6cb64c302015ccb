-- ===== src/Loop/Runner/Frames.antt =====
-- `ExecuteFrame`: the order of a frame's stages, its handlers, and what it keeps.
use framekit.Base.{
  ℕ, ◌≡◌, refl, ap, sym, ◌∙◌, ◌⊎◌, Bool, true, false, not, List, [], inl, inr, arith, if◌then◌else◌,
  if_cases, option_cases, contains, ◌==◌, nat_eq, true-ne-false,
}
use framekit.Loop.Policy.{LoopPolicy, contains_stage, is_fixed_delta}
use framekit.Loop.Policy.Laws.{IsAdmissible, validate_loop_policy_iff}
use framekit.Loop.Stages.{LoopStage, update, post_update, stage_eq}
use framekit.Loop.Runner.{
  LoopStageGraphRunner, FrameBudget, single_step, new_runner, configure, run_frame, visit_stages,
  fixed_delta_frame, execute_frame, plan_steps, requested_steps,
}
use framekit.Loop.Runner.Configured.{stages_of, render_part, configure_lem}
use framekit.Loop.Runner.Order.{
  run_handlers, frame_order, after, all_emitted-stages, visit_stages-after, any_skipped,
}

-- A configured runner has an admissible policy, and the active stages which that asks for.
pub record IsReady {W : Type 0} (r : LoopStageGraphRunner W) : Type 0 where
  pub admissible : r.configured ≡ true → IsAdmissible r.policy
  pub active : r.configured ≡ true → r.active_stages ≡ stages_of r.policy

pub new_runner-IsReady : (W : Type 0) → IsReady (new_runner {W = W})
unfolding new_runner
new_runner-IsReady W = record {
  admissible = λ e. absurd (true-ne-false (sym e));
  active = λ e. absurd (true-ne-false (sym e));
}

pub configure-IsReady :
    {W : Type 0} (r : LoopStageGraphRunner W) (p : LoopPolicy) → IsReady (configure r p).0
configure-IsReady r p = elim (configure_lem r p) [
  | inl (_, valid, _, kept, active, _) ↦ record {
    admissible = λ _. rw kept ((validate_loop_policy_iff p).0 valid);
    active = λ _. rw kept active;
  }
  | inr (_, _, off, _, _) ↦ record {
    admissible = λ e. absurd (true-ne-false (sym e ∙ off));
    active = λ e. absurd (true-ne-false (sym e ∙ off));
  }
]

-- The render stages that a policy leaves active.
abbrev pub rendering_of : LoopPolicy → List LoopStage
rendering_of p =
    render_part (not (contains_stage p.disabled_optional_stages "PreRender"))
      (not (contains_stage p.disabled_optional_stages "Render"))
      (not (contains_stage p.disabled_optional_stages "PostRender"))

module _ {W : Type 0} where
  -- The fields that a frame leaves alone.
  record Keeps (r r' : LoopStageGraphRunner W) : Type 0 where
    policy_kept : r'.policy ≡ r.policy
    handlers_kept : r'.handlers ≡ r.handlers
    active_kept : r'.active_stages ≡ r.active_stages
    configured_kept : r'.configured ≡ r.configured

  begun : LoopStageGraphRunner W → FrameBudget → LoopStageGraphRunner W
  begun r budget = record r {
    last_executed_stages = [];
    last_update_step_count = budget.update_steps;
    last_dropped_update_step_count = budget.dropped_steps;
  }

  left_out : LoopStageGraphRunner W → FrameBudget → Bool
  left_out r budget =
      any_skipped budget.drop_non_critical_stages r.policy.profile (stages_of r.policy)

  ordered : LoopStageGraphRunner W → FrameBudget → List LoopStage
  ordered r budget =
      frame_order budget.update_steps (if left_out r budget then [] else rendering_of r.policy)

  on_active :
      (drop : Bool) (p : LoopPolicy) (stages : List LoopStage) (s : LoopStageGraphRunner W × W)
      → stages ≡ stages_of p
      → visit_stages (contains stages update) (contains stages post_update) drop stages s
        ≡ visit_stages true true drop (stages_of p) s
  unfolding contains
  on_active drop p stages s e = rw e

  run_frame-after :
      (r : LoopStageGraphRunner W) (budget : FrameBudget) (w : W)
      → r.active_stages ≡ stages_of r.policy
      → run_frame r budget w ≡ after (begun r budget, w) (left_out r budget) (ordered r budget)
  unfolding run_frame begun left_out ordered
  run_frame-after r budget w e =
      on_active budget.drop_non_critical_stages r.policy r.active_stages _ e
      ∙ (visit_stages-after true true budget.drop_non_critical_stages (stages_of r.policy)
            (begun r budget) w
          ∙ ap (after (begun r budget, w) (left_out r budget)) (
              all_emitted-stages _ _ _ budget.drop_non_critical_stages r.policy.profile
                budget.update_steps))

  -- A frame is refused, or runs with some budget on the runner after its bookkeeping.
  abbrev Refused : LoopStageGraphRunner W → W → LoopStageGraphRunner W × W × Bool → Type 0
  Refused r w result = (result.2 ≡ false) × (result.1 ≡ w) × Keeps r result.0

  abbrev Runs : LoopStageGraphRunner W → W → LoopStageGraphRunner W × W × Bool → Type 0
  Runs r w result =
      (r₁ : LoopStageGraphRunner W) × (budget : FrameBudget) × Keeps r r₁
      × (r₁.last_frame_dropped_non_critical_stages ≡ false)
      × (r₁.configured ≡ true)
      × (result ≡ ((run_frame r₁ budget w).0, (run_frame r₁ budget w).1, true))

  abbrev Outcome : LoopStageGraphRunner W → W → LoopStageGraphRunner W × W × Bool → Type 0
  Outcome r w result = Refused r w result ⊎ Runs r w result

  fixed_delta_frame-Outcome :
      (r s : LoopStageGraphRunner W) (accumulator : ℕ) (w : W)
      → Keeps r s
      → s.last_frame_dropped_non_critical_stages ≡ false
      → s.configured ≡ true
      → Outcome r w (fixed_delta_frame s accumulator w)
  unfolding fixed_delta_frame
  fixed_delta_frame-Outcome r s accumulator w k clear on =
      option_cases (Outcome r w)
        (plan_steps s.policy (requested_steps accumulator s.policy.fixed_delta_ns))
        (λ _. inl (refl, refl, ground arith))
        (λ budget e. inr (_, budget, ground arith, clear, on, refl))

  -- The first assignments of `ExecuteFrame`.
  abbrev pub cleared : LoopStageGraphRunner W → LoopStageGraphRunner W
  cleared r = record r {
    last_error = "";
    last_update_step_count = 1;
    last_dropped_update_step_count = 0;
    last_frame_dropped_non_critical_stages = false;
  }

  execute_frame-Outcome :
      (r : LoopStageGraphRunner W) (elapsed : ℕ) (w : W) → Outcome r w (execute_frame r elapsed w)
  unfolding execute_frame
  execute_frame-Outcome r elapsed w =
      if_cases (Outcome r w) (not r.configured) (λ _. inl (refl, refl, ground arith))
        (λ on.
          if_cases (Outcome r w) (is_fixed_delta r.policy.timing_mode)
            (λ _.
              if_cases (Outcome r w) (r.policy.fixed_delta_ns == 0)
                (λ _. inl (refl, refl, ground arith))
                (λ _.
                  fixed_delta_frame-Outcome r (cleared r) _ w (ground arith) refl (ground arith)))
            (λ _. inr (
              record (cleared r) { fixed_delta_accumulator_ns = 0 },
              single_step,
              ground arith,
              refl,
              ground arith,
              refl,
            )))

  ready_active :
      (r s : LoopStageGraphRunner W)
      → IsReady r
      → Keeps r s
      → s.configured ≡ true
      → s.active_stages ≡ stages_of s.policy
  ready_active r s h k on =
      rw (k.active_kept, k.policy_kept) (h.active (sym k.configured_kept ∙ on))

  -- What a frame that ran leaves behind.
  abbrev InOrder : LoopStageGraphRunner W → W → LoopStageGraphRunner W × W → Type 0
  InOrder r w (r', w') =
      (r'.last_executed_stages
        ≡ frame_order r'.last_update_step_count
            (if r'.last_frame_dropped_non_critical_stages then [] else rendering_of r.policy))
      × (w' ≡ run_handlers r.handlers r'.last_executed_stages w)

  run_frame_lem :
      (r s : LoopStageGraphRunner W) (budget : FrameBudget) (w : W)
      → IsReady r
      → Keeps r s
      → s.last_frame_dropped_non_critical_stages ≡ false
      → s.configured ≡ true
      → Keeps r (run_frame s budget w).0 × InOrder r w (run_frame s budget w)
  unfolding begun ordered
  run_frame_lem r s budget w h k clear on =
      rw (run_frame-after s budget w (ready_active r s h k on)) (ground arith, ground arith)

  -- A ready runner is ready after any frame.
  pub execute_frame-IsReady :
      (r : LoopStageGraphRunner W) (elapsed : ℕ) (w : W)
      → IsReady r
      → IsReady (execute_frame r elapsed w).0
  execute_frame-IsReady r elapsed w h = carry (kept (execute_frame-Outcome r elapsed w))
    where
      kept : Outcome r w (execute_frame r elapsed w) → Keeps r (execute_frame r elapsed w).0
      kept (inl (_, _, k)) = k
      kept (inr (s, budget, k, clear, on, e)) = rw e (run_frame_lem r s budget w h k clear on).0

      carry : {s : LoopStageGraphRunner W} → Keeps r s → IsReady s
      carry k = record {
        admissible = λ on. rw k.policy_kept (h.admissible (sym k.configured_kept ∙ on));
        active = λ on. rw (k.active_kept, k.policy_kept) (h.active (sym k.configured_kept ∙ on));
      }

  -- A frame that is not refused runs the stages of its policy in the baseline order, with as many
  -- update rounds as it reports, and leaves out either none of the active render stages or, if it
  -- reports so, all of them; the handlers run in that order. A refused frame runs none of them.
  pub execute_frame_order :
      (r : LoopStageGraphRunner W) (elapsed : ℕ) (w : W)
      → IsReady r
      → let (r', w', done) = execute_frame r elapsed w in
        ((done ≡ true)
          × (r'.last_executed_stages
              ≡ frame_order r'.last_update_step_count
                  (if r'.last_frame_dropped_non_critical_stages then [] else rendering_of r.policy))
          × (w' ≡ run_handlers r.handlers r'.last_executed_stages w))
        ⊎ ((done ≡ false) × (w' ≡ w))
  execute_frame_order r elapsed w h = elim (execute_frame-Outcome r elapsed w) [
    | inl (off, same, _) ↦ inr (off, same)
    | inr (s, budget, k, clear, on, e) ↦
        let (executed, handled) = (run_frame_lem r s budget w h k clear on).1 in
        inl (rw e (refl, executed, handled))
  ]
