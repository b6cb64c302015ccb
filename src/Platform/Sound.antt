-- ===== src/Platform/Sound.antt =====
-- A platform runtime however it is used: what is set up while it runs.
use framekit.Base.{
  ◌≡◌, refl, sym, ap, ◌∙◌, ◌⊎◌, Bool, true, false, true-ne-false, not, ◌||◌, ℕ, List, Option, none,
  some, contains, if◌then◌else◌, if_cases, String, ◌-◌, nat_eq, inl, inr, Bool-cases, arith,
}
use framekit.Loop.Policy.{LoopPolicy}
use framekit.Loop.Stages.{LoopStage, pre_render, render, post_render, stage_eq}
use framekit.Loop.Runner.Active.{execute_frame-active}
use framekit.Input.{NormalizedInputEvent}
use framekit.Input.Pending.{InputRoutingRuntime}
use framekit.Platform.{WindowSpec, PlatformHost, WindowHost}
use framekit.Platform.Setup
use framekit.Platform.Running

module _ {W H F : Type 0} where
  -- While the runtime runs, the platform is initialized, and where a render stage is active there is
  -- a window.
  abbrev pub IsSetUp : Setup.PlatformHostRuntime W H F → Type 0
  IsSetUp r =
      r.running ≡ true
      → (r.platform_initialized ≡ true)
        × (Setup.has_active_render_stages r ≡ true → r.window_created ≡ true)

  configure-IsSetUp :
      (invoke : H → NormalizedInputEvent F → W → W × Bool) (r : Setup.PlatformHostRuntime W H F)
      (policy : LoopPolicy) (window : WindowSpec)
      → IsSetUp r
      → IsSetUp (Setup.configure_platform invoke r policy window).0
  unfolding Setup.configure_platform Setup.has_active_render_stages
  configure-IsSetUp invoke r policy window set_up = λ running. ground arith

  abbrev SetUpBy : Setup.PlatformHostRuntime W H F × Bool → Type 0
  SetUpBy (r, ok) = IsSetUp r

  fail-running :
      (host : PlatformHost W) (r : Setup.PlatformHostRuntime W H F) (error : String)
      → (Running.fail_after_initialize host r error).0.running ≡ r.running
  fail-running host r error = ground arith

  create_window-SetUpBy :
      (now : ℕ) (host : PlatformHost W) (windows : Option (WindowHost W))
      (r : Setup.PlatformHostRuntime W H F)
      → r.running ≡ false
      → r.platform_initialized ≡ true
      → SetUpBy (Running.create_window now host windows r)
  create_window-SetUpBy now host none r idle initialized = λ running. absurd (
      true-ne-false (
        sym running
        ∙ fail-running host r "window host is required when render stages are active"
        ∙ idle))
  create_window-SetUpBy now host (some windows) r idle initialized =
      let (w, created) = windows.create_primary_window r.primary_window r.stage_state.world in
      let r' = Setup.with_state r (record (r.stage_state) { world = w }) in
      elim created
        as (λ c. SetUpBy (
          if not c
          then Running.fail_after_initialize host r' "window host failed to create primary window"
          else Running.begin_running now (record r' { window_created = true }))) [
            | true ↦ λ _. (initialized, λ _. refl)
            | false ↦ λ running. absurd (
                true-ne-false (
                  sym running
                  ∙ fail-running host r' "window host failed to create primary window"
                  ∙ idle))
          ]

  start_with-SetUpBy :
      (now : ℕ) (host : Option (PlatformHost W)) (r : Setup.PlatformHostRuntime W H F)
      → r.running ≡ false
      → SetUpBy (Running.start_with now host r)
  unfolding Setup.has_active_render_stages
  start_with-SetUpBy now none r idle = λ running. absurd (true-ne-false (sym running ∙ idle))
  start_with-SetUpBy now (some host) r idle =
      let (w, initialized) = host.initialize r.stage_state.world in
      let r' = Setup.with_state r (record (r.stage_state) { world = w }) in
      let created =
        create_window-SetUpBy now host r.stage_state.window_host
          (record r' { platform_initialized = true }) idle refl in
      if_cases SetUpBy (not initialized) (λ _ running. absurd (true-ne-false (sym running ∙ idle)))
        λ _.
          if_cases SetUpBy (Setup.has_active_render_stages r) (λ _. created)
            λ bare _. (refl, λ renders. absurd (true-ne-false (sym renders ∙ bare)))

  wired-running :
      (cocoa : Running.CocoaBackend W) (r : Setup.PlatformHostRuntime W H F)
      → (Running.auto_wired cocoa r).running ≡ r.running
  unfolding Setup.set_platform_host Setup.set_window_host
  wired-running cocoa r = ground arith

  start-IsSetUp :
      (cocoa : Running.CocoaBackend W) (now : ℕ) (r : Setup.PlatformHostRuntime W H F)
      → IsSetUp r
      → IsSetUp (Running.start_platform cocoa now r).0
  unfolding Running.start_platform Setup.has_active_render_stages
  start-IsSetUp cocoa now r set_up =
      let wired = Running.auto_wired cocoa r in
      if_cases SetUpBy (not r.configured) (λ _. set_up)
        λ _.
          if_cases SetUpBy r.running (λ _. set_up)
            λ idle.
              if_cases SetUpBy (r.platform_initialized || r.window_created) (λ _. set_up)
                λ _.
                  start_with-SetUpBy now wired.stage_state.platform_host wired
                    (wired-running cocoa r ∙ idle)

  tick-active :
      (now : ℕ) (r : Setup.PlatformHostRuntime W H F)
      → (Running.tick_platform now r).0.loop_runner.active_stages ≡ r.loop_runner.active_stages
  unfolding Running.tick_platform
  tick-active now r =
      let elapsed_ns : ℕ = if r.has_last_tick_timestamp then now - r.last_tick_timestamp else 0 in
      ground (
        arith,
        execute_frame-active r.loop_runner elapsed_ns
            (record (r.stage_state) { frame_failed = false; last_error = "" }),
      )

  tick-flags :
      (now : ℕ) (r : Setup.PlatformHostRuntime W H F)
      → (let r' = (Running.tick_platform now r).0 in
          (r'.running ≡ r.running)
          × (r'.platform_initialized ≡ r.platform_initialized)
          × (r'.window_created ≡ r.window_created))
  unfolding Running.tick_platform
  tick-flags now r = ground arith

  tick-IsSetUp :
      (now : ℕ) (r : Setup.PlatformHostRuntime W H F)
      → IsSetUp r
      → IsSetUp (Running.tick_platform now r).0
  unfolding Setup.has_active_render_stages
  tick-IsSetUp now r set_up running =
      let (same_running, same_initialized, same_window) = tick-flags now r in
      let (initialized, window) = set_up (sym same_running ∙ running) in
      (
        same_initialized ∙ initialized,
        λ renders.
            same_window
            ∙ window (
                ap
                  (λ (stages : List LoopStage).
                    contains stages pre_render
                    || contains stages render
                    || contains stages post_render)
                  (sym (tick-active now r))
                ∙ renders),
      )

  stop-IsSetUp :
      (r : Setup.PlatformHostRuntime W H F) → IsSetUp r → IsSetUp (Running.stop_platform r).0
  unfolding Running.stop_platform Setup.has_active_render_stages
  stop-IsSetUp r set_up = λ running. ground arith

module _ {W H F : Type 0} (invoke : H → NormalizedInputEvent F → W → W × Bool) where
  -- Everything that can be done with a new runtime.
  pub data Use : Setup.PlatformHostRuntime W H F → Type 0 where
    use_new : (w : W) → Use (Setup.new_platform_runtime w)
    use_configure :
        {r : Setup.PlatformHostRuntime W H F} (policy : LoopPolicy) (window : WindowSpec)
        → Use r
        → Use (Setup.configure_platform invoke r policy window).0
    use_start :
        {r : Setup.PlatformHostRuntime W H F} (cocoa : Running.CocoaBackend W) (now : ℕ)
        → Use r
        → Use (Running.start_platform cocoa now r).0
    use_tick :
        {r : Setup.PlatformHostRuntime W H F} (now : ℕ)
        → Use r
        → Use (Running.tick_platform now r).0
    use_stop : {r : Setup.PlatformHostRuntime W H F} → Use r → Use (Running.stop_platform r).0
    use_platform_host :
        {r : Setup.PlatformHostRuntime W H F} (host : Option (PlatformHost W))
        → Use r
        → Use (Setup.set_platform_host r host)
    use_window_host :
        {r : Setup.PlatformHostRuntime W H F} (host : Option (WindowHost W))
        → Use r
        → Use (Setup.set_window_host r host)
    use_input :
        {r : Setup.PlatformHostRuntime W H F} (input : Option (InputRoutingRuntime H F))
        → Use r
        → Use (Setup.set_input_runtime r input)

  Use-IsSetUp : (r : Setup.PlatformHostRuntime W H F) → Use r → IsSetUp r
  unfolding Setup.new_platform_runtime Setup.set_platform_host Setup.set_window_host
      Setup.set_input_runtime Setup.has_active_render_stages
  Use-IsSetUp _ (use_new w) = λ running. absurd (true-ne-false (sym running))
  Use-IsSetUp _ (use_configure {r} policy window used) =
      configure-IsSetUp invoke r policy window (Use-IsSetUp r used)
  Use-IsSetUp _ (use_start {r} cocoa now used) = start-IsSetUp cocoa now r (Use-IsSetUp r used)
  Use-IsSetUp _ (use_tick {r} now used) = tick-IsSetUp now r (Use-IsSetUp r used)
  Use-IsSetUp _ (use_stop {r} used) = stop-IsSetUp r (Use-IsSetUp r used)
  Use-IsSetUp _ (use_platform_host {r} host used) = Use-IsSetUp r used
  Use-IsSetUp _ (use_window_host {r} host used) = Use-IsSetUp r used
  Use-IsSetUp _ (use_input {r} input used) = Use-IsSetUp r used

-- However a platform runtime was configured, started, ticked, stopped and given hosts and input
-- since it was made, and whatever these do: while it runs, the platform is initialized, and the
-- primary window is created unless its loop has no active render stage.
pub running-set_up :
    {W H F : Type 0} (invoke : H → NormalizedInputEvent F → W → W × Bool)
    (r : Setup.PlatformHostRuntime W H F)
    → Use invoke r
    → r.running ≡ true
    → (r.platform_initialized ≡ true)
      × ((Setup.has_active_render_stages r ≡ false) ⊎ (r.window_created ≡ true))
running-set_up invoke r used running =
    let (initialized, window) = Use-IsSetUp invoke r used running in
    (
      initialized,
      elim (Bool-cases (Setup.has_active_render_stages r)) [
        | inl renders ↦ inr (window renders)
        | inr bare ↦ inl bare
      ],
    )
