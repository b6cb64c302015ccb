-- ===== src/Loop/Stages/Names.antt =====
-- The names of the stages: parsing and printing, and the two copies of the render-stage test.
use framekit.Base.{
  ◌≡◌, refl, ◌⊎◌, true, false, String, some, ◌==◌, string_eq, arith, List, [], ◌∷◌, All, beq_cases,
  sym, inl, inr,
}
use mathlib.Core.Path.{subst₂}
use text.Mathlib.TextEquality.{eq_iff}
use framekit.Loop.Policy
use framekit.Loop.Policy.{LoopProfile}
use framekit.Loop.Stages.{
  LoopStage, stage_name_table, stage_of, loop_stage_name, parse_loop_stage_name, is_render_stage,
}

-- Every stage's name parses back to the stage.
pub parse-loop_stage_name : (s : LoopStage) → parse_loop_stage_name (loop_stage_name s) ≡ some s
unfolding parse_loop_stage_name loop_stage_name
parse-loop_stage_name LoopStage.begin_frame = refl
parse-loop_stage_name _ = refl

stage_of-nil : (name : String) {s : LoopStage} → stage_of [] name ≡ some s → ⊥
unfolding stage_of
stage_of-nil name e = cc

module _ (t s : LoopStage) (name n : String) (rest : List (LoopStage × String)) where
  first-eq : (name == n) ≡ true → stage_of ((t, n) ∷ rest) name ≡ some s → t ≡ s
  unfolding stage_of
  first-eq same e = ground arith

  later-eq :
      (name == n) ≡ false → stage_of ((t, n) ∷ rest) name ≡ some s → stage_of rest name ≡ some s
  unfolding stage_of
  later-eq other e = ground arith

stage_of-All :
    (P : LoopStage → String → Type 0) (table : List (LoopStage × String)) (name : String)
    (s : LoopStage)
    → All (λ e. P e.0 e.1) table
    → stage_of table name ≡ some s
    → P s name
stage_of-All P [] name s h e = absurd (stage_of-nil name e)
stage_of-All P ((t, n) ∷ rest) name s h e = elim (beq_cases name n) [
  | inl (same, path) ↦ subst₂ P (first-eq t s name n rest same e) (sym path) h.0
  | inr (other, _) ↦ stage_of-All P rest name s h.1 (later-eq t s name n rest other e)
]

table-names : All (λ (e : LoopStage × String). loop_stage_name e.0 ≡ e.1) stage_name_table
unfolding loop_stage_name
table-names = (
  refl,
  (refl, (refl, (refl, (refl, (refl, (refl, (refl, (refl, (refl, (refl, (refl, tt))))))))))),
)

-- A name that parses is the name of the stage that it parses to.
pub loop_stage_name-parse :
    (name : String) (s : LoopStage) → parse_loop_stage_name name ≡ some s → loop_stage_name s ≡ name
unfolding parse_loop_stage_name
loop_stage_name-parse name s e =
    stage_of-All (λ t n. loop_stage_name t ≡ n) stage_name_table name s table-names e

-- The loop policy tests names and the runner tests stages; the two tests agree.
pub is_render_stage-name :
    (s : LoopStage) → Policy.is_render_stage (loop_stage_name s) ≡ is_render_stage s
unfolding Policy.is_render_stage is_render_stage loop_stage_name
is_render_stage-name LoopStage.begin_frame = refl
is_render_stage-name _ = refl

render_name_cases :
    (name : String)
    → Policy.is_render_stage name ≡ true
    → (name ≡ "PreRender") ⊎ ((name ≡ "Render") ⊎ (name ≡ "PostRender"))
unfolding Policy.is_render_stage
render_name_cases name h =
    ground (arith, eq_iff name "PreRender", eq_iff name "Render", eq_iff name "PostRender")

-- A name that the loop policy takes for a render stage parses, to a render stage.
pub render_parses :
    (name : String)
    → Policy.is_render_stage name ≡ true
    → (s : LoopStage) × (parse_loop_stage_name name ≡ some s) × (is_render_stage s ≡ true)
unfolding parse_loop_stage_name is_render_stage
render_parses name h = elim (render_name_cases name h) [
  | inl e ↦ (LoopStage.pre_render, rw e, refl)
  | inr (inl e) ↦ (LoopStage.render, rw e, refl)
  | inr (inr e) ↦ (LoopStage.post_render, rw e, refl)
]
