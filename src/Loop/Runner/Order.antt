-- ===== src/Loop/Runner/Order.antt =====
-- The order of the stages in a frame.
use framekit.Base.{
  ℕ, zero, suc, ◌≡◌, refl, ap, sym, ◌∙◌, Bool, true, false, ◌&&◌, ◌||◌, List, [], ◌∷◌, ◌++◌, ◌==◌,
  arith, if◌then◌else◌,
}
use mathlib.Core.List.{append_assoc, append-nil}
use framekit.Base.Assoc.{lookup}
use framekit.Loop.Policy.{LoopProfile}
use framekit.Loop.Stages.{
  LoopStage, pre_update, update, post_update, stage_eq, is_optional_for_profile, is_render_stage,
}
use framekit.Loop.Runner.Configured.{render_part, stages_with}
use framekit.Loop.Runner.{
  LoopStageGraphRunner, run_handler, execute_stage, execute_stage_if, execute_update_steps,
  visit_stage, visit_stages, is_update_stage,
}

abbrev pub when_stage : Bool → LoopStage → List LoopStage
when_stage b stage = if b then stage ∷ [] else []

-- One update round, and `n` of them.
abbrev pub update_round : (has_update has_post_update : Bool) → List LoopStage
update_round u p = pre_update ∷ (when_stage u update ++ when_stage p post_update)

pub update_rounds : (has_update has_post_update : Bool) → ℕ → List LoopStage
update_rounds u p zero = []
update_rounds u p (suc n) = update_round u p ++ update_rounds u p n

-- What a stage adds to the executed stages, and whether it is left out.
abbrev pub emitted : (u p drop : Bool) → LoopProfile → ℕ → LoopStage → List LoopStage
emitted u p drop profile steps stage =
    if is_update_stage stage
    then []
    else (if stage == pre_update
        then update_rounds u p steps
        else (if drop && is_optional_for_profile profile stage then [] else stage ∷ []))

abbrev pub skipped : (drop : Bool) → LoopProfile → LoopStage → Bool
skipped drop profile stage =
    if is_update_stage stage
    then false
    else (if stage == pre_update then false else drop && is_optional_for_profile profile stage)

pub all_emitted : (u p drop : Bool) → LoopProfile → ℕ → List LoopStage → List LoopStage
all_emitted u p drop profile steps [] = []
all_emitted u p drop profile steps (stage ∷ rest) =
    emitted u p drop profile steps stage ++ all_emitted u p drop profile steps rest

pub any_skipped : (drop : Bool) → LoopProfile → List LoopStage → Bool
any_skipped drop profile [] = false
any_skipped drop profile (stage ∷ rest) =
    any_skipped drop profile rest || skipped drop profile stage

module _ {W : Type 0} where
  -- The handlers of a sequence of stages, one after the other.
  pub run_handlers : List (LoopStage × (W → W)) → List LoopStage → W → W
  run_handlers handlers [] w = w
  run_handlers handlers (stage ∷ rest) w =
      run_handlers handlers rest (run_handler (lookup stage handlers) w)

  run_handlers-append :
      (handlers : List (LoopStage × (W → W))) (xs ys : List LoopStage) (w : W)
      → run_handlers handlers (xs ++ ys) w ≡ run_handlers handlers ys (run_handlers handlers xs w)
  unfolding run_handlers
  run_handlers-append handlers [] ys w = refl
  run_handlers-append handlers (x ∷ xs) ys w = run_handlers-append handlers xs ys _

  -- A runner and a world after the stages of a list ran; `dropped` says whether any was left out.
  abbrev pub after : LoopStageGraphRunner W × W → Bool → List LoopStage → LoopStageGraphRunner W × W
  after (r, w) dropped stages = (
    record r {
      last_executed_stages = r.last_executed_stages ++ stages;
      last_frame_dropped_non_critical_stages = dropped || r.last_frame_dropped_non_critical_stages;
    },
    run_handlers r.handlers stages w,
  )

  after-nil : (s : LoopStageGraphRunner W × W) → after s false [] ≡ s
  unfolding run_handlers
  after-nil (r, w) = rw (append-nil r.last_executed_stages)

  after-after :
      (s : LoopStageGraphRunner W × W) (d e : Bool) (xs ys : List LoopStage)
      → after (after s d xs) e ys ≡ after s (e || d) (xs ++ ys)
  after-after (r, w) d true xs ys =
      ground
        (arith, append_assoc r.last_executed_stages xs ys, run_handlers-append r.handlers xs ys w)
  after-after (r, w) d false xs ys =
      ground
        (arith, append_assoc r.last_executed_stages xs ys, run_handlers-append r.handlers xs ys w)

  execute_stage-after :
      (stage : LoopStage) (s : LoopStageGraphRunner W × W)
      → execute_stage stage s ≡ after s false (stage ∷ [])
  unfolding execute_stage run_handlers
  execute_stage-after stage (r, w) = refl

  execute_stage_if-after :
      (b : Bool) (stage : LoopStage) (s : LoopStageGraphRunner W × W)
      → execute_stage_if b stage s ≡ after s false (when_stage b stage)
  unfolding execute_stage_if
  execute_stage_if-after true stage s = execute_stage-after stage s
  execute_stage_if-after false stage s = sym (after-nil s)

  round-after :
      (u p : Bool) (s : LoopStageGraphRunner W × W)
      → execute_stage_if p post_update (execute_stage_if u update (execute_stage pre_update s))
        ≡ after s false (update_round u p)
  round-after u p s =
      rw
        (
          execute_stage-after pre_update s,
          execute_stage_if-after u update (after s false (pre_update ∷ [])),
          after-after s false false (pre_update ∷ []) (when_stage u update),
          execute_stage_if-after p post_update (after s false (pre_update ∷ when_stage u update)),
        )
        (after-after s false false (pre_update ∷ when_stage u update) (when_stage p post_update))

  execute_update_steps-after :
      (u p : Bool) (n : ℕ) (s : LoopStageGraphRunner W × W)
      → execute_update_steps u p n s ≡ after s false (update_rounds u p n)
  unfolding execute_update_steps update_rounds
  execute_update_steps-after u p zero s = sym (after-nil s)
  execute_update_steps-after u p (suc n) s =
      execute_update_steps-after u p n _
      ∙ (ap (λ t. after t false (update_rounds u p n)) (round-after u p s)
          ∙ after-after s false false (update_round u p) (update_rounds u p n))

  other-after :
      (b : Bool) (stage : LoopStage) (r : LoopStageGraphRunner W) (w : W)
      → (if b
          then (record r { last_frame_dropped_non_critical_stages = true }, w)
          else execute_stage stage (r, w))
        ≡ after (r, w) b (if b then [] else stage ∷ [])
  unfolding run_handlers
  other-after true stage r w = rw (append-nil r.last_executed_stages)
  other-after false stage r w = execute_stage-after stage (r, w)

  visit_stage-after :
      (u p drop : Bool) (stage : LoopStage) (r : LoopStageGraphRunner W) (w : W)
      → visit_stage u p drop stage (r, w)
        ≡ after
            (r, w)
            (skipped drop r.policy.profile stage)
            (emitted u p drop r.policy.profile r.last_update_step_count stage)
  unfolding visit_stage
  visit_stage-after u p drop LoopStage.update r w = sym (after-nil (r, w))
  visit_stage-after u p drop LoopStage.post_update r w = sym (after-nil (r, w))
  visit_stage-after u p drop LoopStage.pre_update r w = execute_update_steps-after u p _ (r, w)
  visit_stage-after u p drop stage r w =
      other-after (drop && is_optional_for_profile r.policy.profile stage) stage r w

  pub visit_stages-after :
      (u p drop : Bool) (stages : List LoopStage) (r : LoopStageGraphRunner W) (w : W)
      → visit_stages u p drop stages (r, w)
        ≡ after
            (r, w)
            (any_skipped drop r.policy.profile stages)
            (all_emitted u p drop r.policy.profile r.last_update_step_count stages)
  unfolding visit_stages any_skipped all_emitted
  visit_stages-after u p drop [] r w = sym (after-nil (r, w))
  visit_stages-after u p drop (stage ∷ rest) r w =
      ap (visit_stages u p drop rest) (visit_stage-after u p drop stage r w)
      ∙ (visit_stages-after u p drop rest _ _ ∙ after-after (r, w) _ _ _ _)

-- The stages of a frame with so many update steps and these render stages.
abbrev pub frame_order : ℕ → List LoopStage → List LoopStage
frame_order steps rendering =
    LoopStage.begin_frame
    ∷ LoopStage.process_platform_events
    ∷ LoopStage.normalize_input
    ∷ LoopStage.dispatch_immediate_events
    ∷ (update_rounds true true steps
        ++ LoopStage.dispatch_deferred_events ∷ (rendering ++ LoopStage.end_frame ∷ []))

pub all_emitted-stages :
    (a b c drop : Bool) (profile : LoopProfile) (steps : ℕ)
    → all_emitted true true drop profile steps (stages_with a b c)
      ≡ frame_order steps
          (if any_skipped drop profile (stages_with a b c) then [] else render_part a b c)
unfolding all_emitted any_skipped is_optional_for_profile is_render_stage
all_emitted-stages a b c drop profile steps = ground arith
