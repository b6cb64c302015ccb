-- ===== src/Platform/Cleanup.antt =====
-- What `Stop` tears down.
use framekit.Base.{
  ◌≡◌, ap, ◌∙◌, Bool, true, false, not, ◌&&◌, String, is_blank, Option, some, if◌then◌else◌, inl,
  inr, Bool-cases, string_eq, arith,
}
use framekit.Platform.{PlatformHost, WindowHost}
use framekit.Platform.Setup.{PlatformHostRuntime, with_state}
use framekit.Platform.Running.{stop_platform, stop_windows, stop_host, stopped, teardown_failed}

-- A teardown that is only called where there is something to tear down.
abbrev pub torn_down_if : {W : Type 0} → Bool → (W → W × Bool) → W → W × Bool
torn_down_if true call w = call w
torn_down_if false call w = (w, true)

-- The error text after the two teardowns.
abbrev pub teardown_error : String → (windows_done platform_done : Bool) → String
teardown_error error windows_done platform_done =
    if not (is_blank error)
    then error
    else (if not windows_done
        then "window host teardown failed"
        else (if not platform_done then "platform host teardown failed" else error))

stop-teardown_error :
    {W H F : Type 0} (r : PlatformHostRuntime W H F) (platform : PlatformHost W)
    (windows : WindowHost W) (created initialized : Bool)
    → (let (w₁, windows_done) = torn_down_if created windows.teardown_windows r.stage_state.world in
        let (w₂, platform_done) = torn_down_if initialized platform.teardown w₁ in
        (stop_host initialized
          (some platform)
          (stop_windows created (some windows) r)).0.stage_state.last_error
        ≡ teardown_error r.stage_state.last_error windows_done platform_done)
stop-teardown_error r platform windows false false = ground arith
stop-teardown_error r platform windows false true = ground arith
stop-teardown_error r platform windows true false = ground arith
stop-teardown_error {W} r platform windows true true =
    let (w, windows_done) = windows.teardown_windows r.stage_state.world in
    let r' = with_state r (record (r.stage_state) { world = w }) in
    elim windows_done
      as (λ d.
        (stop_host true (some platform) (
          if not d
          then (teardown_failed r' "window host teardown failed", false)
          else (record r' { window_created = false }, true))).0.stage_state.last_error
        ≡ teardown_error r.stage_state.last_error d (platform.teardown w).1) [
          | true ↦ ground arith
          | false ↦ elim (Bool-cases (is_blank r.stage_state.last_error)) [
            | inl blank ↦ rw blank (ground arith)
            | inr noted ↦ rw noted (ground (arith, noted))
          ]
        ]

-- A stop of a runtime with both hosts tears down the window, if there is one, and then the platform,
-- if it is initialized, whether the window's teardown failed or not. It succeeds exactly if the
-- teardowns do; exactly what was not torn down stays to be torn down by a later stop; the runtime
-- does not run any more; and the first failure is the error text, unless there was one before.
pub stop_platform_lem :
    {W H F : Type 0} (r : PlatformHostRuntime W H F) (platform : PlatformHost W)
    (windows : WindowHost W)
    → r.stage_state.platform_host ≡ some platform
    → r.stage_state.window_host ≡ some windows
    → (let (w₁, windows_done) =
          torn_down_if r.window_created windows.teardown_windows r.stage_state.world in
        let (w₂, platform_done) = torn_down_if r.platform_initialized platform.teardown w₁ in
        let (r', ok) = stop_platform r in
        (ok ≡ (windows_done && platform_done))
        × (r'.stage_state.world ≡ w₂)
        × (r'.window_created ≡ not windows_done)
        × (r'.platform_initialized ≡ not platform_done)
        × (r'.running ≡ false)
        × (r'.stage_state.last_error
            ≡ teardown_error r.stage_state.last_error windows_done platform_done))
unfolding stop_platform
stop_platform_lem {W} r platform windows has_platform has_windows = (
  ground arith,
  ground arith,
  ground arith,
  ground arith,
  ground arith,
  elim (Bool-cases (not r.running && not r.platform_initialized && not r.window_created)) [
    | inl e ↦ ground arith
    | inr e ↦
        ap
          (λ (b : Bool).
            (if b
              then (r, true)
              else stopped (
                  stop_host r.platform_initialized r.stage_state.platform_host (
                    stop_windows r.window_created r.stage_state.window_host
                      r))).0.stage_state.last_error)
          e
        ∙ ap
            (λ (host : Option (PlatformHost W)).
              (stop_host r.platform_initialized host (
                stop_windows r.window_created r.stage_state.window_host
                  r)).0.stage_state.last_error)
            has_platform
        ∙ ap
            (λ (host : Option (WindowHost W)).
              (stop_host r.platform_initialized (some platform)
                (stop_windows r.window_created host r)).0.stage_state.last_error)
            has_windows
        ∙ stop-teardown_error r platform windows r.window_created r.platform_initialized
  ],
)
