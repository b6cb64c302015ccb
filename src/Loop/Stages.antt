-- ===== src/Loop/Stages.antt =====
-- The stages of include/framekit/loop/stage_graph.hpp and their names (src/loop_stage_graph.cpp).
pub mod Names
use framekit.Base.{
  ℕ, ◌≡◌, refl, ap, ◌↔◌, Bool, true, false, ◌||◌, not, String, List, [], ◌∷◌, map, Option, none,
  some, nat_beq, nat_beq_iff, Comparable, ◌==◌, string_eq, arith, ◌∙◌, sym, if◌then◌else◌,
}
use framekit.Loop.Policy.{LoopProfile, is_headless_or_deterministic}

pub data LoopStage : Type 0 where
  begin_frame process_platform_events normalize_input dispatch_immediate_events : LoopStage
  pre_update update post_update dispatch_deferred_events : LoopStage
  pre_render render post_render end_frame : LoopStage

-- The underlying integer of the enumeration.
abbrev pub stage_index : LoopStage → ℕ
stage_index begin_frame = 0
stage_index process_platform_events = 1
stage_index normalize_input = 2
stage_index dispatch_immediate_events = 3
stage_index pre_update = 4
stage_index update = 5
stage_index post_update = 6
stage_index dispatch_deferred_events = 7
stage_index pre_render = 8
stage_index render = 9
stage_index post_render = 10
stage_index end_frame = 11

abbrev pub same_stage : LoopStage → LoopStage → Bool
same_stage a b = nat_beq (stage_index a) (stage_index b)

same_stage_refl : (a : LoopStage) → same_stage a a ≡ true
same_stage_refl a = (nat_beq_iff (stage_index a) (stage_index a)).1 refl

stage_index_injective : (a b : LoopStage) → stage_index a ≡ stage_index b → a ≡ b
stage_index_injective a b h = ground arith

pub same_stage_iff : (a b : LoopStage) → (same_stage a b ≡ true) ↔ (a ≡ b)
same_stage_iff a b = (
  λ h. stage_index_injective a b ((nat_beq_iff (stage_index a) (stage_index b)).0 h),
  λ e. (nat_beq_iff (stage_index a) (stage_index b)).1 (ap stage_index e),
)

instance abbrev pub stage_eq : Comparable LoopStage
stage_eq = record { is_equal = same_stage; is_equal_iff = same_stage_iff }

abbrev pub stage_name_table : List (LoopStage × String)
stage_name_table =
    (begin_frame, "BeginFrame")
    ∷ (process_platform_events, "ProcessPlatformEvents")
    ∷ (normalize_input, "NormalizeInput")
    ∷ (dispatch_immediate_events, "DispatchImmediateEvents")
    ∷ (pre_update, "PreUpdate")
    ∷ (update, "Update")
    ∷ (post_update, "PostUpdate")
    ∷ (dispatch_deferred_events, "DispatchDeferredEvents")
    ∷ (pre_render, "PreRender")
    ∷ (render, "Render")
    ∷ (post_render, "PostRender")
    ∷ (end_frame, "EndFrame")
    ∷ []

unfoldable pub is_render_stage : LoopStage → Bool
is_render_stage stage = stage == pre_render || (stage == render || stage == post_render)

unfoldable pub is_optional_for_profile : LoopProfile → LoopStage → Bool
is_optional_for_profile profile stage =
    if not (is_render_stage stage) then false else is_headless_or_deterministic profile

abbrev pub baseline_loop_stage_order : List LoopStage
baseline_loop_stage_order =
    begin_frame ∷ process_platform_events ∷ normalize_input ∷ dispatch_immediate_events ∷ pre_update
    ∷ update ∷ post_update ∷ dispatch_deferred_events ∷ pre_render ∷ render ∷ post_render
    ∷ end_frame ∷ []

-- `std::find_if` over the table, by the stage and by the name.
unfoldable pub name_of : List (LoopStage × String) → LoopStage → Option String
name_of [] stage = none
name_of ((s, name) ∷ rest) stage = if s == stage then some name else name_of rest stage

unfoldable pub stage_of : List (LoopStage × String) → String → Option LoopStage
stage_of [] name = none
stage_of ((s, n) ∷ rest) name = if name == n then some s else stage_of rest name

unfoldable pub loop_stage_name : LoopStage → String
unfolding name_of
loop_stage_name stage = elim (name_of stage_name_table stage) [
  | none ↦ "UnknownStage"
  | some name ↦ name
]

-- `none` is the `false` result, with the out-parameter left alone; the callers pass the address
-- of a local variable, so the null check never fires.
unfoldable pub parse_loop_stage_name : String → Option LoopStage
unfolding stage_of
parse_loop_stage_name name = stage_of stage_name_table name
