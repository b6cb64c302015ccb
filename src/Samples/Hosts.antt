-- ===== src/Samples/Hosts.antt =====
-- A platform runtime with hosts that count their calls.
use framekit.Base.{ℕ, ◌+◌, ◌≡◌, ◌⊎◌, refl, Bool, true, false, not, ◌&&◌, contains, some, string_eq}
use framekit.Loop.Policy.{default_policy, validate_loop_policy, check_disabled_stages}
use framekit.Loop.Stages.{stage_eq}
use framekit.Loop.Runner
use framekit.Fault
use framekit.Input.{NormalizedInputEvent}
use framekit.Platform.{WindowSpec, PlatformHost, WindowHost}
use framekit.Platform.Setup.{
  PlatformHostRuntime, new_platform_runtime, set_platform_host, set_window_host, configure_platform,
  has_active_render_stages, set_handlers,
}
use framekit.Platform.Running.{no_cocoa, start_platform, stop_platform}
use framekit.Platform.Cleanup.{torn_down_if, teardown_error, stop_platform_lem}
use framekit.Platform.Sound.{
  Use, use_new, use_configure, use_start, use_platform_host, use_window_host, running-set_up,
}

abbrev counted : ℕ → ℕ × Bool
counted w = (w + 1, true)

abbrev counting_platform : PlatformHost ℕ
counting_platform = record { initialize = counted; pump_events = counted; teardown = counted }

-- The windows do not go away.
abbrev stubborn_windows : WindowHost ℕ
stubborn_windows = record {
  create_primary_window = λ spec. counted;
  call_pre_render = counted;
  call_render = counted;
  call_post_render = counted;
  teardown_windows = λ w. (w + 1, false);
}

abbrev ignore_input : ℕ → NormalizedInputEvent ℕ → ℕ → ℕ × Bool
ignore_input handler event w = (w, false)

abbrev small_window : WindowSpec
small_window = record { title = "small"; width = 2; height = 1; visible = true }

abbrev configured : PlatformHostRuntime ℕ ℕ ℕ
configured =
    (configure_platform ignore_input
      (set_window_host (set_platform_host (new_platform_runtime 0) (some counting_platform))
        (some stubborn_windows))
      default_policy small_window).0

abbrev started : PlatformHostRuntime ℕ ℕ ℕ
started = (start_platform no_cocoa 5 configured).0

started-Use : Use ignore_input started
started-Use = use_start no_cocoa 5 (
    use_configure default_policy small_window (
      use_window_host (some stubborn_windows)
        (use_platform_host (some counting_platform) (use_new 0))))

runs : started.running ≡ true
unfolding new_platform_runtime set_platform_host set_window_host configure_platform start_platform
    has_active_render_stages Runner.configure Fault.configure validate_loop_policy
    check_disabled_stages contains Runner.parse_disabled_stages set_handlers
    Runner.set_stage_handler Runner.clear_stage_handlers Runner.keep_active
runs = refl

running-set_up_example :
    (started.platform_initialized ≡ true)
    × ((has_active_render_stages started ≡ false) ⊎ (started.window_created ≡ true))
running-set_up_example = running-set_up ignore_input started started-Use runs

stop_platform_lem_example :
    (let (w₁, windows_done) =
        torn_down_if started.window_created stubborn_windows.teardown_windows
          started.stage_state.world in
      let (w₂, platform_done) =
        torn_down_if started.platform_initialized counting_platform.teardown w₁ in
      let (r', ok) = stop_platform started in
      (ok ≡ (windows_done && platform_done))
      × (r'.stage_state.world ≡ w₂)
      × (r'.window_created ≡ not windows_done)
      × (r'.platform_initialized ≡ not platform_done)
      × (r'.running ≡ false)
      × (r'.stage_state.last_error
          ≡ teardown_error started.stage_state.last_error windows_done platform_done))
unfolding new_platform_runtime set_platform_host set_window_host configure_platform start_platform
    has_active_render_stages Runner.configure Fault.configure validate_loop_policy
    check_disabled_stages contains Runner.parse_disabled_stages set_handlers
    Runner.set_stage_handler Runner.clear_stage_handlers Runner.keep_active
stop_platform_lem_example = stop_platform_lem started counting_platform stubborn_windows refl refl
