-- ===== src/Loop/Runner/Overruns.antt =====
-- Overruns of the fixed-delta budget: what fail-fast mode refuses, and the largest catch-up budget.
use framekit.Base.{
  ℕ, ◌+◌, ◌*◌, ◌<◌, ◌≤◌, ◌≡◌, refl, sym, ◌∙◌, ◌≢◌, Bool, true, false, none, some, inl, inr, arith,
  if◌then◌else◌, option_cases, ◌==◌, nat_eq, true-ne-false, List, [], ◌∷◌, ap,
}
use framekit.Loop.Policy.{LoopPolicy, catch_up_bounded, fail_fast}
use framekit.Loop.Runner.{
  LoopStageGraphRunner, FrameBudget, execute_frame, fixed_delta_frame, plan_steps, requested_steps,
  reduce_accumulator, overrun_error,
}
use framekit.Loop.Runner.Frames.{cleared}
use framekit.Loop.Runner.Budget.{
  accumulated, IsFixed, fixed_cases, execute_frame-Accounts, requested_overrun, run_frame_counts,
}

overrun_none :
    (p : LoopPolicy) (requested : ℕ)
    → p.overrun_mode ≡ fail_fast
    → 1 < requested
    → plan_steps p requested ≡ none
unfolding plan_steps
overrun_none p requested mode many = ground arith

plan_catch_up :
    (p : LoopPolicy) (requested : ℕ)
    → p.overrun_mode ≡ catch_up_bounded
    → p.max_catch_up_steps ≡ 4294967295
    → 1 < requested
    → plan_steps p requested ≢ none
unfolding plan_steps
plan_catch_up p requested mode budget many e = ground arith

plan_wraps :
    (p : LoopPolicy) (requested : ℕ) (b : FrameBudget)
    → p.overrun_mode ≡ catch_up_bounded
    → p.max_catch_up_steps ≡ 4294967295
    → 1 < requested
    → plan_steps p requested ≡ some b
    → (b.update_steps ≡ 0) × (b.dropped_steps ≡ requested)
unfolding plan_steps
plan_wraps p requested b mode budget many e = ground arith

-- The time that frames add to the accumulator; a frame of no time counts as a step.
abbrev pub time_of : (fixed_delta_ns : ℕ) → (frames : List ℕ) → ℕ
time_of delta [] = 0
time_of delta (elapsed ∷ rest) = (if elapsed == 0 then delta else elapsed) + time_of delta rest

module _ {W : Type 0} where
  refused_fixed :
      (s : LoopStageGraphRunner W) (acc : ℕ) (w : W)
      → (fixed_delta_frame s acc w).2 ≡ false
      → (fixed_delta_frame s acc w).0
        ≡ record s { fixed_delta_accumulator_ns = acc; last_error = overrun_error }
  unfolding fixed_delta_frame
  refused_fixed s acc w =
      option_cases
        (λ (result : LoopStageGraphRunner W × W × Bool).
          result.2 ≡ false
          → result.0 ≡ record s { fixed_delta_accumulator_ns = acc; last_error = overrun_error })
        (plan_steps s.policy (requested_steps acc s.policy.fixed_delta_ns)) (λ _ _. refl)
        (λ b e done. absurd (true-ne-false done))

  overrun_refused :
      (r : LoopStageGraphRunner W) (elapsed : ℕ) (w : W)
      → IsFixed r
      → r.policy.overrun_mode ≡ fail_fast
      → 2 * r.policy.fixed_delta_ns ≤ accumulated r elapsed
      → (execute_frame r elapsed w).2 ≡ false
  unfolding fixed_delta_frame
  overrun_refused r elapsed w h mode many =
      fixed_cases (λ result. result.2 ≡ false) r elapsed w h
        (rw
          (
            overrun_none r.policy (requested_steps (accumulated r elapsed) r.policy.fixed_delta_ns)
                mode
                (requested_overrun (accumulated r elapsed) r.policy.fixed_delta_ns h.positive many),
            fixed_delta_frame,
          )
          refl)

  refused_runner :
      (r : LoopStageGraphRunner W) (elapsed : ℕ) (w : W)
      → IsFixed r
      → (execute_frame r elapsed w).2 ≡ false
      → (execute_frame r elapsed w).0 ≡ record (cleared r) {
        fixed_delta_accumulator_ns = accumulated r elapsed;
        last_error = overrun_error;
      }
  refused_runner r elapsed w h =
      fixed_cases
        (λ result.
          result.2 ≡ false
          → result.0 ≡ record (cleared r) {
            fixed_delta_accumulator_ns = accumulated r elapsed;
            last_error = overrun_error;
          })
        r elapsed w h (refused_fixed (cleared r) (accumulated r elapsed) w)

  -- All the frames are refused, and none runs a handler.
  abbrev pub AllRefused : LoopStageGraphRunner W → (frames : List ℕ) → W → Type 0
  AllRefused r [] w = Unit {0}
  AllRefused r (elapsed ∷ rest) w =
      let (r', w', done) = execute_frame r elapsed w in
      (done ≡ false) × (w' ≡ w) × AllRefused r' rest w

  refused_world :
      (r : LoopStageGraphRunner W) (elapsed : ℕ) (w : W)
      → IsFixed r
      → (execute_frame r elapsed w).2 ≡ false
      → (execute_frame r elapsed w).1 ≡ w
  unfolding fixed_delta_frame
  refused_world r elapsed w h =
      fixed_cases (λ result. result.2 ≡ false → result.1 ≡ w) r elapsed w h
        (option_cases
          (λ (result : LoopStageGraphRunner W × W × Bool). result.2 ≡ false → result.1 ≡ w)
          (plan_steps r.policy (requested_steps (accumulated r elapsed) r.policy.fixed_delta_ns))
          (λ _ _. refl) (λ b e done. absurd (true-ne-false done)))

  -- A runner that refuses its next frames: two steps have accumulated in fail-fast mode.
  record IsStuck (r : LoopStageGraphRunner W) : Type 0 where
    fixed : IsFixed r
    mode : r.policy.overrun_mode ≡ fail_fast
    many : 2 * r.policy.fixed_delta_ns ≤ r.fixed_delta_accumulator_ns

  IsStuck-refused :
      (r : LoopStageGraphRunner W) (elapsed : ℕ) (w : W)
      → IsFixed r
      → r.policy.overrun_mode ≡ fail_fast
      → 2 * r.policy.fixed_delta_ns ≤ accumulated r elapsed
      → let r' = (execute_frame r elapsed w).0 in
        IsStuck r'
        × (r'.policy ≡ r.policy)
        × (r'.fixed_delta_accumulator_ns ≡ accumulated r elapsed)
  IsStuck-refused r elapsed w h mode many =
      let e = refused_runner r elapsed w h (overrun_refused r elapsed w h mode many) in
      (
        record {
          fixed = record { on = rw e h.on; fixed = rw e h.fixed; positive = rw e h.positive };
          mode = rw e mode;
          many = rw e many;
        },
        rw e refl,
        rw e refl,
      )

  IsStuck-AllRefused :
      (r : LoopStageGraphRunner W) (frames : List ℕ) (w : W)
      → IsStuck r
      → r.fixed_delta_accumulator_ns + time_of r.policy.fixed_delta_ns frames < 18446744073709551616
      → AllRefused r frames w
  IsStuck-AllRefused r [] w stuck fits = tt
  IsStuck-AllRefused r (elapsed ∷ rest) w stuck fits =
      let grown : accumulated r elapsed
          ≡ r.fixed_delta_accumulator_ns
            + (if elapsed == 0 then r.policy.fixed_delta_ns else elapsed) =
        ground (arith, fits) in
      let many : 2 * r.policy.fixed_delta_ns ≤ accumulated r elapsed =
        ground (arith, grown, stuck.many) in
      let refused = overrun_refused r elapsed w stuck.fixed stuck.mode many in
      let (later, same_policy, same_acc) =
        IsStuck-refused r elapsed w stuck.fixed stuck.mode many in
      (
        refused,
        refused_world r elapsed w stuck.fixed refused,
        IsStuck-AllRefused (execute_frame r elapsed w).0 rest w later (
            omega (
              arith,
              fits,
              grown,
              same_acc,
              ap (λ (p : LoopPolicy). time_of p.fixed_delta_ns rest) same_policy,
            )),
      )

  -- Once a frame of a fixed-delta runner was refused, all the later frames are refused and run no
  -- handler, whatever time elapses in them, as long as the accumulator and the time of these frames
  -- together stay a 64-bit number.
  pub fail_fast_sticky :
      (r : LoopStageGraphRunner W) (elapsed : ℕ) (frames : List ℕ) (w : W)
      → IsFixed r
      → (execute_frame r elapsed w).2 ≡ false
      → (execute_frame r elapsed w).0.fixed_delta_accumulator_ns
          + time_of r.policy.fixed_delta_ns frames
        < 18446744073709551616
      → AllRefused (execute_frame r elapsed w).0 frames w
  fail_fast_sticky r elapsed frames w h refused fits = elim (execute_frame-Accounts r elapsed w h) [
    | inl (done, _, _, _, _) ↦ absurd (true-ne-false (sym done ∙ refused))
    | inr (_, mode, many, _) ↦
        let (stuck, same_policy, _) = IsStuck-refused r elapsed w h mode many in
        IsStuck-AllRefused (execute_frame r elapsed w).0 frames w stuck (
          omega (arith, fits, ap (λ (p : LoopPolicy). time_of p.fixed_delta_ns frames) same_policy))
  ]

  abbrev Wrapped : ℕ → LoopStageGraphRunner W × W × Bool → Type 0
  Wrapped requested (r', w', done) =
      (done ≡ true)
      × (r'.last_update_step_count ≡ 0)
      × (r'.last_dropped_update_step_count ≡ requested)

  Wrapped-fixed_frame :
      (s : LoopStageGraphRunner W) (acc : ℕ) (w : W)
      → s.policy.overrun_mode ≡ catch_up_bounded
      → s.policy.max_catch_up_steps ≡ 4294967295
      → 1 < requested_steps acc s.policy.fixed_delta_ns
      → Wrapped (requested_steps acc s.policy.fixed_delta_ns) (fixed_delta_frame s acc w)
  unfolding fixed_delta_frame
  Wrapped-fixed_frame s acc w mode budget many =
      let requested = requested_steps acc s.policy.fixed_delta_ns in
      option_cases (Wrapped requested) (plan_steps s.policy requested)
        (λ e. absurd (plan_catch_up s.policy requested mode budget many e))
        (λ b e.
          let (steps, dropped, _, _, _) =
            run_frame_counts
              (record s {
                fixed_delta_accumulator_ns = reduce_accumulator acc s.policy.fixed_delta_ns;
              })
              b w in
          let (none_run, all_dropped) = plan_wraps s.policy requested b mode budget many e in
          (refl, steps ∙ none_run, dropped ∙ all_dropped))

  -- With the largest 32-bit number as its catch-up budget, a runner that has fallen two steps behind
  -- runs no update step at all, and gives all of them up.
  pub catch_up_wraps :
      (r : LoopStageGraphRunner W) (elapsed : ℕ) (w : W)
      → IsFixed r
      → r.policy.overrun_mode ≡ catch_up_bounded
      → r.policy.max_catch_up_steps ≡ 4294967295
      → 2 * r.policy.fixed_delta_ns ≤ accumulated r elapsed
      → let (r', w', done) = execute_frame r elapsed w in
        (done ≡ true)
        × (r'.last_update_step_count ≡ 0)
        × (r'.last_dropped_update_step_count
            ≡ requested_steps (accumulated r elapsed) r.policy.fixed_delta_ns)
  catch_up_wraps r elapsed w h mode budget many =
      fixed_cases (Wrapped (requested_steps (accumulated r elapsed) r.policy.fixed_delta_ns)) r
        elapsed w h
        (Wrapped-fixed_frame (cleared r) (accumulated r elapsed) w mode budget
          (requested_overrun (accumulated r elapsed) r.policy.fixed_delta_ns h.positive many))
