-- ===== src/Loop/Runner/Budget.antt =====
-- The fixed-delta accumulator and the step budget of `ExecuteFrame`.
use native.Mathlib.Nat.{
  mod-eq_of_lt, le-div_iff_mul-le, div-lt_iff_lt-mul, div-mul-le_self, mul-le-mul_right, le_trans,
}
use native.Mathlib.Decide.{dec_lt}
use framekit.Base.{
  ℕ, zero, suc, min, ◌+◌, ◌*◌, ◌%◌, ◌<◌, ◌≤◌, ◌≡◌, refl, subst, ◌/◌, ◌∙◌, ◌⊎◌, Bool, true, false,
  not, none, some, inl, inr, arith, if◌then◌else◌, if_cases, option_cases, u64, ◌==◌, nat_eq,
}
use framekit.Loop.Policy.{LoopPolicy, fixed_delta, fail_fast, is_fixed_delta}
use framekit.Loop.Runner.{
  LoopStageGraphRunner, FrameBudget, run_frame, execute_frame, fixed_delta_frame, plan_steps,
  requested_steps, reduce_accumulator,
}
use framekit.Loop.Runner.Frames.{cleared}
use framekit.Loop.Runner.Order.{visit_stages-after}

reduce-eq-mod : (acc delta : ℕ) → 0 < delta → reduce_accumulator acc delta ≡ acc % delta
unfolding reduce_accumulator
reduce-eq-mod acc delta h = elim (dec_lt acc delta) [
  | yes small ↦ ground (arith, mod-eq_of_lt small)
  | no large ↦ ground arith
]

requested_pos : (acc delta : ℕ) → 1 ≤ requested_steps acc delta
unfolding requested_steps
requested_pos acc delta = grind arith

-- More than one step is asked for exactly if the accumulator holds two.
pub requested_overrun :
    (acc delta : ℕ) → 0 < delta → 2 * delta ≤ acc → 1 < requested_steps acc delta
unfolding requested_steps
requested_overrun acc delta h k = ground (arith, (le-div_iff_mul-le {x = 2} {y = acc} h).1 k)

requested_single : (acc delta : ℕ) → 0 < delta → 1 < requested_steps acc delta → 2 * delta ≤ acc
unfolding requested_steps
requested_single acc delta h k = (le-div_iff_mul-le {x = 2} {y = acc} h).0 (ground arith)

-- Every step that is asked for is run or given up.
plan_steps_total :
    (p : LoopPolicy) (requested : ℕ) (b : FrameBudget)
    → 1 ≤ requested
    → plan_steps p requested ≡ some b
    → b.update_steps + b.dropped_steps ≡ requested
unfolding plan_steps
plan_steps_total p requested b pos e = ground arith

plan_steps_bounds :
    (p : LoopPolicy) (requested : ℕ) (b : FrameBudget)
    → plan_steps p requested ≡ some b
    → (b.update_steps ≤ 1 + p.max_catch_up_steps)
      × ((1 ≤ b.update_steps) ⊎ (4294967295 ≤ p.max_catch_up_steps))
unfolding plan_steps
plan_steps_bounds p requested b e = ground arith

pub plan_steps_refused :
    (p : LoopPolicy) (requested : ℕ)
    → plan_steps p requested ≡ none
    → (p.overrun_mode ≡ fail_fast) × (1 < requested)
unfolding plan_steps
plan_steps_refused p requested e = ground arith

-- As many steps as fit in the time, but at least one and at most the largest 32-bit number.
abbrev pub WholeSteps : (time fixed_delta_ns steps : ℕ) → Type 0
WholeSteps time delta steps =
    (1 ≤ steps)
    × (steps ≤ 4294967295)
    × ((steps * delta ≤ time) ⊎ (steps ≡ 1))
    × ((time < (steps + 1) * delta) ⊎ (steps ≡ 4294967295))

WholeSteps-quotient :
    (time delta quotient : ℕ)
    → quotient * delta ≤ time
    → time < (quotient + 1) * delta
    → WholeSteps time delta (min (if quotient == 0 then 1 else quotient) 4294967295)
WholeSteps-quotient time delta zero low high =
    subst (WholeSteps time delta) (ground arith)
      (omega arith, omega arith, inr refl, inl (omega (arith, high)))
WholeSteps-quotient time delta (suc n) low high = elim (dec_lt (suc n) 4294967295) [
  | yes small ↦
      subst (WholeSteps time delta) (ground (arith, small))
        (omega arith, omega (arith, small), inl low, inl high)
  | no large ↦ subst (WholeSteps time delta) (ground (arith, large)) (
    omega arith,
    omega arith,
    inl (le_trans (mul-le-mul_right delta (omega (arith, large))) low),
    inr refl,
  )
]

requested-WholeSteps :
    (acc delta : ℕ) → 0 < delta → WholeSteps acc delta (requested_steps acc delta)
unfolding requested_steps
requested-WholeSteps acc delta pos =
    WholeSteps-quotient acc delta (acc / delta) (div-mul-le_self acc delta)
      ((div-lt_iff_lt-mul {x = acc} {y = acc / delta + 1} pos).0 (omega arith))

module _ {W : Type 0} where
  -- The stage loop keeps the counts and the accumulator.
  pub run_frame_counts :
      (s : LoopStageGraphRunner W) (b : FrameBudget) (w : W)
      → let r' = (run_frame s b w).0 in
        (r'.last_update_step_count ≡ b.update_steps)
        × (r'.last_dropped_update_step_count ≡ b.dropped_steps)
        × (r'.fixed_delta_accumulator_ns ≡ s.fixed_delta_accumulator_ns)
        × (r'.policy ≡ s.policy)
        × (r'.configured ≡ s.configured)
  unfolding run_frame
  run_frame_counts s b w = rw visit_stages-after (refl, refl, refl, refl, refl)

  -- The accumulator after the elapsed time of a frame was added.
  abbrev pub accumulated : LoopStageGraphRunner W → ℕ → ℕ
  accumulated r elapsed =
      u64
        (r.fixed_delta_accumulator_ns + (if elapsed == 0 then r.policy.fixed_delta_ns else elapsed))

  -- A configured runner with fixed-delta timing.
  pub record IsFixed (r : LoopStageGraphRunner W) : Type 0 where
    pub on : r.configured ≡ true
    pub fixed : r.policy.timing_mode ≡ fixed_delta
    pub positive : 0 < r.policy.fixed_delta_ns

  abbrev pub Accounts : LoopStageGraphRunner W → ℕ → LoopStageGraphRunner W × W × Bool → Type 0
  Accounts r acc (r', w', done) =
      ((done ≡ true)
        × WholeSteps acc r.policy.fixed_delta_ns
            (r'.last_update_step_count + r'.last_dropped_update_step_count)
        × (r'.fixed_delta_accumulator_ns ≡ acc % r.policy.fixed_delta_ns)
        × (r'.last_update_step_count ≤ 1 + r.policy.max_catch_up_steps)
        × ((1 ≤ r'.last_update_step_count) ⊎ (4294967295 ≤ r.policy.max_catch_up_steps)))
      ⊎ ((done ≡ false)
          × (r.policy.overrun_mode ≡ fail_fast)
          × (2 * r.policy.fixed_delta_ns ≤ acc)
          × (r'.fixed_delta_accumulator_ns ≡ acc))

  fixed_delta_frame-Accounts :
      (s : LoopStageGraphRunner W) (acc : ℕ) (w : W)
      → 0 < s.policy.fixed_delta_ns
      → Accounts s acc (fixed_delta_frame s acc w)
  unfolding fixed_delta_frame
  fixed_delta_frame-Accounts s acc w pos =
      let delta = s.policy.fixed_delta_ns in
      let p = s.policy in
      option_cases (Accounts s acc) (plan_steps p (requested_steps acc delta))
        (λ e.
          let (mode, many) = plan_steps_refused p (requested_steps acc delta) e in
          inr (refl, mode, requested_single acc delta pos many, refl))
        (λ b e.
          let (steps, dropped, acc', _, _) =
            run_frame_counts
              (record s { fixed_delta_accumulator_ns = reduce_accumulator acc delta }) b w in
          inl (
            refl,
            subst (WholeSteps acc delta)
                (omega (
                  arith,
                  steps,
                  dropped,
                  plan_steps_total p (requested_steps acc delta) b (requested_pos acc delta) e,
                ))
                (requested-WholeSteps acc delta pos),
            acc' ∙ reduce-eq-mod acc delta pos,
            rw steps (plan_steps_bounds p (requested_steps acc delta) b e).0,
            rw steps (plan_steps_bounds p (requested_steps acc delta) b e).1,
          ))

  -- How to prove something of a fixed-delta frame.
  pub fixed_cases {ℓ} :
      (P : LoopStageGraphRunner W × W × Bool → Type ℓ) (r : LoopStageGraphRunner W) (elapsed : ℕ)
      (w : W)
      → IsFixed r
      → P (fixed_delta_frame (cleared r) (accumulated r elapsed) w)
      → P (execute_frame r elapsed w)
  unfolding execute_frame
  fixed_cases P r elapsed w h then_fixed =
      if_cases P (not r.configured) (λ off. absurd (ground (arith, h.on)))
        λ _.
          if_cases P (is_fixed_delta r.policy.timing_mode)
            (λ _.
              if_cases P (r.policy.fixed_delta_ns == 0)
                (λ zero_delta. absurd (ground (arith, h.positive))) (λ _. then_fixed))
            (λ other. absurd (ground (arith, h.fixed)))

  -- With fixed-delta timing a frame either runs, and then the update steps that it ran and those that
  -- it gave up are the whole steps of the accumulated time (one at least, and at most the largest
  -- 32-bit number), the accumulator keeps the remainder, and the frame ran at most one step more than
  -- the catch-up budget and, unless the budget is the largest 32-bit number, at least one; or it is
  -- refused, which happens only in fail-fast mode when two steps have accumulated, and then the
  -- accumulator is not reduced.
  pub execute_frame-Accounts :
      (r : LoopStageGraphRunner W) (elapsed : ℕ) (w : W)
      → IsFixed r
      → Accounts r (accumulated r elapsed) (execute_frame r elapsed w)
  execute_frame-Accounts r elapsed w h =
      fixed_cases (Accounts r (accumulated r elapsed)) r elapsed w h
        (fixed_delta_frame-Accounts (cleared r) (accumulated r elapsed) w h.positive)
