-- ===== src/Platform/Setup.antt =====
-- The state of the runtime, its setters and `Configure`.
use framekit.Base.{
  ℕ, Bool, true, false, not, ◌||◌, String, contains, Option, none, some, if◌then◌else◌,
}
use framekit.Loop.Policy.{LoopPolicy, default_policy}
use framekit.Loop.Stages.{
  process_platform_events, normalize_input, dispatch_immediate_events, pre_render, render,
  post_render, stage_eq,
}
use framekit.Loop.Runner
use framekit.Loop.Runner.{
  LoopStageGraphRunner, new_runner, set_stage_handler, clear_stage_handlers, execute_frame,
}
use framekit.Fault
use framekit.Fault.{default_limits, new_runtime, reset}
use framekit.Input.{NormalizedInputEvent}
use framekit.Input.Pending.{InputRoutingRuntime}
use framekit.Platform.{
  WindowSpec, PlatformHost, WindowHost, StageState, on_platform_events, on_normalize_input,
  on_dispatch_immediate, on_pre_render, on_render, on_post_render,
}

pub record PlatformHostRuntime (W H F : Type 0) : Type 0 where
  pub loop_runner : LoopStageGraphRunner (StageState W H F)
  pub stage_state : StageState W H F
  pub policy : LoopPolicy
  pub primary_window : WindowSpec
  pub configured : Bool
  pub running : Bool
  pub platform_initialized : Bool
  pub window_created : Bool
  pub has_last_tick_timestamp : Bool
  pub last_tick_timestamp : ℕ  -- nanoseconds

module _ {W H F : Type 0} where
  unfoldable pub new_platform_runtime : W → PlatformHostRuntime W H F
  new_platform_runtime w = record {
    loop_runner = new_runner;
    stage_state = record {
      world = w;
      platform_host = none;
      window_host = none;
      input_runtime = none;
      fault_policy = new_runtime;
      frame_failed = false;
      last_error = "";
    };
    policy = default_policy;
    primary_window = record { title = "FrameKit"; width = 1280; height = 720; visible = true };
    configured = false;
    running = false;
    platform_initialized = false;
    window_created = false;
    has_last_tick_timestamp = false;
    last_tick_timestamp = 0;
  }

  abbrev pub with_state : PlatformHostRuntime W H F → StageState W H F → PlatformHostRuntime W H F
  with_state r s = record r { stage_state = s }

  abbrev pub with_error : PlatformHostRuntime W H F → String → PlatformHostRuntime W H F
  with_error r error = with_state r (record (r.stage_state) { last_error = error })

  unfoldable pub set_platform_host :
      PlatformHostRuntime W H F → Option (PlatformHost W) → PlatformHostRuntime W H F
  set_platform_host r host = with_state r (record (r.stage_state) { platform_host = host })

  unfoldable pub set_window_host :
      PlatformHostRuntime W H F → Option (WindowHost W) → PlatformHostRuntime W H F
  set_window_host r host = with_state r (record (r.stage_state) { window_host = host })

  unfoldable pub set_input_runtime :
      PlatformHostRuntime W H F → Option (InputRoutingRuntime H F) → PlatformHostRuntime W H F
  set_input_runtime r input = with_state r (record (r.stage_state) { input_runtime = input })

  unfoldable pub has_active_render_stages : PlatformHostRuntime W H F → Bool
  has_active_render_stages r =
      contains r.loop_runner.active_stages pre_render
      || contains r.loop_runner.active_stages render
      || contains r.loop_runner.active_stages post_render

  abbrev pub refuse : PlatformHostRuntime W H F → String → PlatformHostRuntime W H F × Bool
  refuse r error = (record (with_error r error) { configured = false }, false)

  unfoldable pub set_handlers :
      (H → NormalizedInputEvent F → W → W × Bool)
      → LoopStageGraphRunner (StageState W H F)
      → LoopStageGraphRunner (StageState W H F)
  set_handlers invoke runner =
      let s₁ =
        set_stage_handler (clear_stage_handlers runner) process_platform_events
          (some on_platform_events) in
      let s₂ = set_stage_handler s₁ normalize_input (some on_normalize_input) in
      let s₃ =
        set_stage_handler s₂ dispatch_immediate_events (some (on_dispatch_immediate invoke)) in
      let s₄ = set_stage_handler s₃ pre_render (some on_pre_render) in
      let s₅ = set_stage_handler s₄ render (some on_render) in
      set_stage_handler s₅ post_render (some on_post_render)

  abbrev pub configure_faults :
      (H → NormalizedInputEvent F → W → W × Bool)
      → PlatformHostRuntime W H F
      → PlatformHostRuntime W H F × Bool
  configure_faults invoke r =
      let (faults, accepted) = Fault.configure r.stage_state.fault_policy r.policy default_limits in
      let r' = with_state r (record (r.stage_state) { fault_policy = faults }) in
      if not accepted then refuse r' faults.last_decision_reason else (
        record r {
          loop_runner = set_handlers invoke r.loop_runner;
          stage_state = record (r.stage_state) {
            fault_policy = reset faults;
            frame_failed = false;
            last_error = "";
          };
          configured = true;
        },
        true,
      )

  unfoldable pub configure_platform :
      (H → NormalizedInputEvent F → W → W × Bool)
      → PlatformHostRuntime W H F
      → LoopPolicy
      → WindowSpec
      → PlatformHostRuntime W H F × Bool
  configure_platform invoke r policy primary_window =
      let (runner, accepted) = Runner.configure r.loop_runner policy in
      let r' = record r { loop_runner = runner } in
      if r.running
      then refuse r "cannot configure platform runtime while running"
      else (if r.platform_initialized || r.window_created
          then refuse r "cannot configure platform runtime while cleanup is pending"
          else (if not accepted
              then refuse r' runner.last_error
              else configure_faults invoke
                  (record r' { policy = policy; primary_window = primary_window })))
