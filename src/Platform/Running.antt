-- ===== src/Platform/Running.antt =====
-- `Start`, `Tick` and `Stop`. The time is an argument of those that read the steady clock. The Cocoa
-- backend, which is not part of every build, is a parameter.
use framekit.Base.{
  ℕ, ◌-◌, Bool, true, false, not, ◌&&◌, ◌||◌, String, is_blank, concat, Option, none, some, is_some,
  if◌then◌else◌,
}
use framekit.Loop.Policy.{is_gui_or_hybrid}
use framekit.Loop.Stages.{stage_eq}
use framekit.Loop.Runner.{execute_frame}
use framekit.Platform.Setup.{
  PlatformHostRuntime, with_state, with_error, set_platform_host, set_window_host,
  has_active_render_stages,
}
use framekit.Platform.{PlatformHost, WindowHost}

-- `CocoaBackendAvailable` and the hosts that its factories make.
pub record CocoaBackend (W : Type 0) : Type 0 where
  pub is_available : Bool
  pub cocoa_platform_host : Option (PlatformHost W)
  pub cocoa_window_host : Option (WindowHost W)

-- The backend of a build without Cocoa.
abbrev pub no_cocoa : {W : Type 0} → CocoaBackend W
no_cocoa = record { is_available = false; cocoa_platform_host = none; cocoa_window_host = none }

module _ {W H F : Type 0} where
  -- `fail_after_platform_initialize`.
  abbrev pub fail_after_initialize :
      PlatformHost W
      → PlatformHostRuntime W H F
      → (error : String) → PlatformHostRuntime W H F × Bool
  fail_after_initialize host r error =
      let (w, torn_down) = host.teardown r.stage_state.world in
      let r' = with_state r (record (r.stage_state) { world = w }) in
      (
        if not torn_down
            then with_error r' (concat error "; platform teardown failed after startup failure")
            else with_error (record r' { platform_initialized = false }) error,
        false,
      )

  abbrev pub begin_running : ℕ → PlatformHostRuntime W H F → PlatformHostRuntime W H F × Bool
  begin_running now r = (
    record (with_error r "") {
      running = true;
      has_last_tick_timestamp = true;
      last_tick_timestamp = now;
    },
    true,
  )

  abbrev pub create_window :
      ℕ
      → PlatformHost W
      → Option (WindowHost W)
      → PlatformHostRuntime W H F
      → PlatformHostRuntime W H F × Bool
  create_window now host none r =
      fail_after_initialize host r "window host is required when render stages are active"
  create_window now host (some window_host) r =
      let (w, created) = window_host.create_primary_window r.primary_window r.stage_state.world in
      let r' = with_state r (record (r.stage_state) { world = w }) in
      if not created
      then fail_after_initialize host r' "window host failed to create primary window"
      else begin_running now (record r' { window_created = true })

  abbrev pub start_with :
      ℕ → Option (PlatformHost W) → PlatformHostRuntime W H F → PlatformHostRuntime W H F × Bool
  start_with now none r = (with_error r "platform host is required", false)
  start_with now (some host) r =
      let (w, initialized) = host.initialize r.stage_state.world in
      let r' = with_state r (record (r.stage_state) { world = w }) in
      if not initialized
      then (with_error r' "platform host initialization failed", false)
      else (if has_active_render_stages r
          then create_window now host r.stage_state.window_host
              (record r' { platform_initialized = true })
          else begin_running now (record r' { platform_initialized = true }))

  abbrev pub auto_wired : CocoaBackend W → PlatformHostRuntime W H F → PlatformHostRuntime W H F
  auto_wired cocoa r =
      if not (is_some r.stage_state.platform_host)
        && not (is_some r.stage_state.window_host)
        && has_active_render_stages r
        && is_gui_or_hybrid r.policy.profile
        && cocoa.is_available
      then set_window_host (set_platform_host r cocoa.cocoa_platform_host) cocoa.cocoa_window_host
      else r

  unfoldable pub start_platform :
      CocoaBackend W → ℕ → PlatformHostRuntime W H F → PlatformHostRuntime W H F × Bool
  unfolding has_active_render_stages set_platform_host set_window_host
  start_platform cocoa now r =
      let wired = auto_wired cocoa r in
      if not r.configured
      then (with_error r "platform runtime is not configured", false)
      else (if r.running
          then (with_error r "platform runtime is already running", false)
          else (if r.platform_initialized || r.window_created
              then (with_error r "platform runtime cleanup is required before restart", false)
              else start_with now wired.stage_state.platform_host wired))

  -- The steady clock does not run backwards.
  unfoldable pub tick_platform : ℕ → PlatformHostRuntime W H F → PlatformHostRuntime W H F × Bool
  tick_platform now r =
      let elapsed_ns : ℕ = if r.has_last_tick_timestamp then now - r.last_tick_timestamp else 0 in
      let s = record (r.stage_state) { frame_failed = false; last_error = "" } in
      let (runner, s', executed) = execute_frame r.loop_runner elapsed_ns s in
      let r' = record r {
        loop_runner = runner;
        stage_state = s';
        has_last_tick_timestamp = true;
        last_tick_timestamp = now;
      } in
      if not r.running
      then (with_error r "platform runtime is not running", false)
      else (if not executed
          then (with_error r' runner.last_error, false)
          else (r', not s'.frame_failed))

  -- A failed teardown, whose text is only noted where there is none yet.
  abbrev pub teardown_failed : PlatformHostRuntime W H F → String → PlatformHostRuntime W H F
  teardown_failed r error = if is_blank r.stage_state.last_error then with_error r error else r

  abbrev pub stop_windows :
      Bool → Option (WindowHost W) → PlatformHostRuntime W H F → PlatformHostRuntime W H F × Bool
  stop_windows true (some host) r =
      let (w, torn_down) = host.teardown_windows r.stage_state.world in
      let r' = with_state r (record (r.stage_state) { world = w }) in
      if not torn_down
      then (teardown_failed r' "window host teardown failed", false)
      else (record r' { window_created = false }, true)
  stop_windows _ _ r = (r, true)

  abbrev pub stop_host :
      Bool
      → Option (PlatformHost W)
      → PlatformHostRuntime W H F × Bool
      → PlatformHostRuntime W H F × Bool
  stop_host true (some host) (r, ok) =
      let (w, torn_down) = host.teardown r.stage_state.world in
      let r' = with_state r (record (r.stage_state) { world = w }) in
      if not torn_down
      then (teardown_failed r' "platform host teardown failed", false)
      else (record r' { platform_initialized = false }, ok)
  stop_host _ _ (r, ok) = (record r { platform_initialized = false }, ok)

  abbrev pub stopped : PlatformHostRuntime W H F × Bool → PlatformHostRuntime W H F × Bool
  stopped (r, ok) = (
    record (with_state r (record (r.stage_state) { frame_failed = false })) {
      running = false;
      has_last_tick_timestamp = false;
    },
    ok,
  )

  unfoldable pub stop_platform : PlatformHostRuntime W H F → PlatformHostRuntime W H F × Bool
  stop_platform r =
      if not r.running && not r.platform_initialized && not r.window_created
      then (r, true)
      else stopped (
          stop_host r.platform_initialized r.stage_state.platform_host
            (stop_windows r.window_created r.stage_state.window_host r))
