-- ===== src/Platform.antt =====
-- `PlatformHostRuntime`: include/framekit/platform/host_runtime.hpp, src/platform_host_runtime.cpp.
-- This file has the hosts and the stage handlers. The hosts are records of functions on a world `W`
-- and do not call the runtime back.
pub mod Setup
pub mod Running
pub mod Cleanup
pub mod Sound
use framekit.Base.{
  ℕ, Bool, true, false, not, String, is_blank, concat, Option, none, some, if◌then◌else◌,
}
use framekit.Loop.Stages.{
  LoopStage, process_platform_events, normalize_input, dispatch_immediate_events, pre_render,
  render, post_render, loop_stage_name,
}
use framekit.Fault.{
  FaultClass, FaultDisposition, FaultPolicyContext, FaultPolicyDecision, FaultPolicyRuntime,
  evaluate,
}
use framekit.Input.{NormalizedInputEvent}
use framekit.Input.Pending.{InputRoutingRuntime, normalize_pending, dispatch_pending}

pub record WindowSpec : Type 0 where
  pub title : String
  pub width : ℕ  -- uint32_t
  pub height : ℕ  -- uint32_t
  pub visible : Bool

pub record PlatformHost (W : Type 0) : Type 0 where
  pub initialize : W → W × Bool
  pub pump_events : W → W × Bool
  pub teardown : W → W × Bool

pub record WindowHost (W : Type 0) : Type 0 where
  pub create_primary_window : WindowSpec → W → W × Bool
  pub call_pre_render : W → W × Bool
  pub call_render : W → W × Bool
  pub call_post_render : W → W × Bool
  pub teardown_windows : W → W × Bool

-- What the stage handlers read and write of the runtime.
pub record StageState (W H F : Type 0) : Type 0 where
  pub world : W
  pub platform_host : Option (PlatformHost W)
  pub window_host : Option (WindowHost W)
  pub input_runtime : Option (InputRoutingRuntime H F)
  pub fault_policy : FaultPolicyRuntime
  pub frame_failed : Bool
  pub last_error : String

abbrev pub fault_of : FaultClass → (contract_violation : Bool) → FaultPolicyContext
fault_of fault_class contract_violation = record {
  fault_class = fault_class;
  invariant_breach = false;
  contract_violation = contract_violation;
  required_module = false;
  fatal_shutdown_violation = false;
}

module _ {W H F : Type 0} where
  -- The error text of the first fault of a frame stays.
  abbrev pub note_error : StageState W H F → String → StageState W H F
  note_error s error = if not (is_blank s.last_error) then s else record s { last_error = error }

  abbrev pub dispose :
      FaultDisposition → LoopStage → (reason message : String) → StageState W H F → StageState W H F
  dispose FaultDisposition.degrade stage reason message s = note_error s (
      concat "loop stage " (
        concat (loop_stage_name stage)
          (concat " degraded: " (concat reason (concat "; detail: " message)))))
  dispose _ stage reason message s =
      note_error (record s { frame_failed = true })
        (concat "loop stage " (
          concat (loop_stage_name stage)
            (concat " failed: " (concat message (concat "; policy: " reason)))))

  unfoldable pub handle_stage_fault :
      LoopStage → FaultPolicyContext → (message : String) → StageState W H F → StageState W H F
  handle_stage_fault stage context message s =
      let (faults, decision) = evaluate s.fault_policy context in
      dispose decision.disposition stage decision.reason message
        (record s { fault_policy = faults })

  abbrev pub pump_with : Option (PlatformHost W) → StageState W H F → StageState W H F
  pump_with none s =
      handle_stage_fault process_platform_events (fault_of FaultClass.event true)
        "platform host is not set" s
  pump_with (some host) s =
      let (w, pumped) = host.pump_events s.world in
      let s' = record s { world = w } in
      if not pumped
      then handle_stage_fault process_platform_events (fault_of FaultClass.event true)
          "platform host failed to pump events" s'
      else s'

  unfoldable pub on_platform_events : StageState W H F → StageState W H F
  on_platform_events s = pump_with s.platform_host s

  abbrev pub normalize_with_runtime :
      Option (InputRoutingRuntime H F) → StageState W H F → StageState W H F
  normalize_with_runtime none s = s
  normalize_with_runtime (some input) s =
      let (input', normalized) = normalize_pending input in
      let s' = record s { input_runtime = some input' } in
      if not normalized
      then handle_stage_fault normalize_input (fault_of FaultClass.event true)
          (if is_blank input'.last_error then "input normalization failed" else input'.last_error)
          s'
      else s'

  unfoldable pub on_normalize_input : StageState W H F → StageState W H F
  on_normalize_input s = normalize_with_runtime s.input_runtime s

  abbrev pub dispatch_with :
      (H → NormalizedInputEvent F → W → W × Bool)
      → Option (InputRoutingRuntime H F)
      → StageState W H F
      → StageState W H F
  dispatch_with invoke none s = s
  dispatch_with invoke (some input) s =
      let (input', result, w) = dispatch_pending invoke input s.world in
      record s { input_runtime = some input'; world = w }

  unfoldable pub on_dispatch_immediate :
      (H → NormalizedInputEvent F → W → W × Bool) → StageState W H F → StageState W H F
  on_dispatch_immediate invoke s = dispatch_with invoke s.input_runtime s

  -- The three render handlers differ in the stage, the call and the text of its failure.
  abbrev pub render_with :
      LoopStage
      → (WindowHost W → W → W × Bool)
      → (failure : String) → Option (WindowHost W)
      → StageState W H F
      → StageState W H F
  render_with stage call failure none s =
      handle_stage_fault stage (fault_of FaultClass.render true) "window host is not set" s
  render_with stage call failure (some host) s =
      let (w, rendered) = call host s.world in
      let s' = record s { world = w } in
      if not rendered
      then handle_stage_fault stage (fault_of FaultClass.render false) failure s'
      else s'

  unfoldable pub on_pre_render : StageState W H F → StageState W H F
  on_pre_render s =
      render_with pre_render (λ host. host.call_pre_render) "window host pre-render failed"
        s.window_host s

  unfoldable pub on_render : StageState W H F → StageState W H F
  on_render s =
      render_with render (λ host. host.call_render) "window host render failed" s.window_host s

  unfoldable pub on_post_render : StageState W H F → StageState W H F
  on_post_render s =
      render_with post_render (λ host. host.call_post_render) "window host post-render failed"
        s.window_host s
