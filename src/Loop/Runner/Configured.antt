-- ===== src/Loop/Runner/Configured.antt =====
-- What `Configure` makes of a policy.
use framekit.Base.{
  ◌≡◌, refl, ap, sym, ◌∙◌, ◌⊎◌, inl, inr, Bool, true, false, not, ◌||◌, String, List, [], ◌∷◌, ◌++◌,
  some, ◌==◌, string_eq, beq_cases, beq_of_ne, contains, All, All-mono, Bool-cases, arith,
  if◌then◌else◌, some_injective, true-ne-false,
}
use framekit.Loop.Policy
use framekit.Loop.Policy.{LoopPolicy, validate_loop_policy, contains_stage}
use framekit.Loop.Policy.Laws.{validate_loop_policy_iff}
use framekit.Loop.Stages.{
  LoopStage, stage_eq, loop_stage_name, parse_loop_stage_name, baseline_loop_stage_order,
  is_render_stage,
}
use framekit.Loop.Stages.Names.{
  parse-loop_stage_name, loop_stage_name-parse, render_parses, is_render_stage-name,
}
use framekit.Loop.Runner.{
  LoopStageGraphRunner, disabled, parse_disabled_stages, keep_active, configure,
}

-- A name parses to a stage exactly if it is the stage's name.
same_name :
    (name : String) (t s : LoopStage)
    → parse_loop_stage_name name ≡ some t
    → (t == s) ≡ (name == loop_stage_name s)
same_name name t s e = elim (beq_cases t s) [
  | inl (same, path) ↦ rw same (
      sym (
        (string_eq.is_equal_iff name (loop_stage_name s)).1
          (sym (loop_stage_name-parse name t e) ∙ ap loop_stage_name path)))
  | inr (other, differ) ↦ rw other (
      sym (
        beq_of_ne name (loop_stage_name s) (λ p.
          differ
            (some_injective (sym e ∙ (ap parse_loop_stage_name p ∙ parse-loop_stage_name s))))))
]

abbrev AllRender : List String → Type 0
AllRender names = All (λ name. Policy.is_render_stage name ≡ true) names

-- The set that the loop builds answers as the list of names does.
parse_disabled :
    (set : List LoopStage) (names : List String)
    → AllRender names
    → (set' : List LoopStage) × (parse_disabled_stages set names ≡ disabled set')
      × ((s : LoopStage) → contains set' s ≡ (contains names (loop_stage_name s) || contains set s))
unfolding parse_disabled_stages contains
parse_disabled set [] h = (set, refl, λ s. refl)
parse_disabled set (name ∷ names) h =
    let (t, e, _) = render_parses name h.0 in
    let (set', built, answers) = parse_disabled (t ∷ set) names h.1 in
    (
      set',
      rw (e, parse_disabled_stages) built,
      λ s. ground (arith, answers s, same_name name t s e),
    )

not-in_names :
    (names : List String) (s : LoopStage)
    → AllRender names
    → is_render_stage s ≡ false
    → contains names (loop_stage_name s) ≡ false
unfolding contains
not-in_names [] s h e = refl
not-in_names (name ∷ names) s h e = elim (beq_cases name (loop_stage_name s)) [
  | inl (_, path) ↦
      absurd
        (true-ne-false (sym h.0 ∙ (ap Policy.is_render_stage path ∙ (is_render_stage-name s ∙ e))))
  | inr (other, _) ↦ rw other (not-in_names names s h.1 e)
]

-- The stages that run before rendering.
abbrev pub update_part : List LoopStage
update_part =
    LoopStage.begin_frame ∷ LoopStage.process_platform_events ∷ LoopStage.normalize_input
    ∷ LoopStage.dispatch_immediate_events ∷ LoopStage.pre_update ∷ LoopStage.update
    ∷ LoopStage.post_update ∷ LoopStage.dispatch_deferred_events ∷ []

abbrev pub render_part : (pre main post : Bool) → List LoopStage
render_part pre main post =
    (if pre then LoopStage.pre_render ∷ [] else [])
    ++ ((if main then LoopStage.render ∷ [] else [])
        ++ (if post then LoopStage.post_render ∷ [] else []))

-- The baseline order, with the render stages that are wanted.
abbrev pub stages_with : (pre main post : Bool) → List LoopStage
stages_with pre main post = update_part ++ (render_part pre main post ++ LoopStage.end_frame ∷ [])

keep_active-baseline :
    (set : List LoopStage)
    → ((s : LoopStage) → is_render_stage s ≡ false → contains set s ≡ false)
    → keep_active set baseline_loop_stage_order
      ≡ stages_with
          (not (contains set LoopStage.pre_render))
          (not (contains set LoopStage.render))
          (not (contains set LoopStage.post_render))
unfolding keep_active is_render_stage
keep_active-baseline set h = ground (
  arith,
  h LoopStage.begin_frame refl,
  h LoopStage.process_platform_events refl,
  h LoopStage.normalize_input refl,
  h LoopStage.dispatch_immediate_events refl,
  h LoopStage.pre_update refl,
  h LoopStage.update refl,
  h LoopStage.post_update refl,
  h LoopStage.dispatch_deferred_events refl,
  h LoopStage.end_frame refl,
)

-- The active stages that a policy asks for: the baseline order without what it disables.
abbrev pub stages_of : LoopPolicy → List LoopStage
stages_of p =
    stages_with (not (contains_stage p.disabled_optional_stages "PreRender"))
      (not (contains_stage p.disabled_optional_stages "Render"))
      (not (contains_stage p.disabled_optional_stages "PostRender"))

names_render :
    (p : LoopPolicy) → (validate_loop_policy p).valid ≡ true → AllRender p.disabled_optional_stages
names_render p v =
    All-mono _ _ p.disabled_optional_stages (λ name h. h.0)
      ((validate_loop_policy_iff p).0 v).optional_only

parsed_active :
    (names : List String)
    → AllRender names
    → (set : List LoopStage) × (parse_disabled_stages [] names ≡ disabled set)
      × (keep_active set baseline_loop_stage_order
          ≡ stages_with
              (not (contains_stage names "PreRender"))
              (not (contains_stage names "Render"))
              (not (contains_stage names "PostRender")))
unfolding contains contains_stage loop_stage_name
parsed_active names h =
    let (set, built, answers) = parse_disabled [] names h in
    let same : (s : LoopStage) → contains set s ≡ contains names (loop_stage_name s) =
      λ s. ground (arith, answers s) in
    (
      set,
      built,
      rw (← same LoopStage.pre_render, ← same LoopStage.render, ← same LoopStage.post_render)
          (keep_active-baseline set (λ s r. same s ∙ not-in_names names s h r)),
    )

-- A policy is configured exactly if it passes validation: then the runner keeps it, with its active
-- stages the baseline order without the render stages that the policy disables, and an empty
-- accumulator. Otherwise the runner is left unconfigured, with the reason of the refusal.
pub configure_lem :
    {W : Type 0} (r : LoopStageGraphRunner W) (p : LoopPolicy)
    → let (r', done) = configure r p in
      ((done ≡ true)
        × ((validate_loop_policy p).valid ≡ true)
        × (r'.configured ≡ true)
        × (r'.policy ≡ p)
        × (r'.active_stages ≡ stages_of p)
        × (r'.fixed_delta_accumulator_ns ≡ 0))
      ⊎ ((done ≡ false)
          × ((validate_loop_policy p).valid ≡ false)
          × (r'.configured ≡ false)
          × (r'.last_error ≡ (validate_loop_policy p).reason)
          × (r'.active_stages ≡ r.active_stages))
unfolding configure
configure_lem r p = elim (Bool-cases (validate_loop_policy p).valid) [
  | inr e ↦ inr (rw e (refl, refl, refl, refl, refl))
  | inl e ↦
      let (set, built, active) = parsed_active p.disabled_optional_stages (names_render p e) in
      inl (rw (e, built) (refl, refl, refl, refl, active, refl))
]
