-- ===== src/Input/Targets.antt =====
-- Which handlers get an input event, and how far it goes.
use framekit.Base.{
  ◌≡◌, ◌≢◌, refl, Bool, not, is_blank, String, List, ◌++◌, Option, none, some, if◌then◌else◌,
  if_cases, string_eq,
}
use framekit.Base.Assoc.{lookup}
use framekit.Input.{
  NormalizedInputEvent, InputDispatchResult, HandlerEntry, InputRouter, is_drop,
  resolve_target_window,
}
use framekit.Input.Routing.{dropped_result, route_handlers, route_window, route_target, route}
use framekit.Base.Assoc.{AllValues}
use framekit.Input.Aims.{
  AimedAt, OfferedTo, unnamed-OfferedTo, is_named, resolved-AimedAt, to_window, to_nobody,
  to_fallback,
}
use framekit.Input.Offers.{Offered, route_handlers-Offered, Offered-stopped, Offered-joined}
use framekit.Input.Subscribed.{Rising, Reach, Reach-Rising}
use framekit.Input.{MissingWindowTargetPolicy, drop_with_diagnostics, fallback_to_global}

module _ {H F W : Type 0} (invoke : H → NormalizedInputEvent F → W → W × Bool)
    (event : NormalizedInputEvent F) where
  -- What routing comes to, by the handlers that are offered the event.
  abbrev pub Routed : Option (List (HandlerEntry H)) → W → InputDispatchResult × W → Type 0
  Routed none w outcome = outcome ≡ (dropped_result, w)
  Routed (some handlers) w outcome = Offered invoke event handlers w outcome

  route_window-Offered :
      (r : InputRouter H) (handlers : List (HandlerEntry H)) (w : W)
      → Offered invoke event
          (handlers ++ r.global_handlers)
          w
          (route_window invoke r event handlers w)
  unfolding route_window
  route_window-Offered r handlers w =
      let outcome = route_handlers invoke handlers event w in
      let more = route_handlers invoke r.global_handlers event outcome.1 in
      let first = route_handlers-Offered invoke event handlers w in
      if_cases (Offered invoke event (handlers ++ r.global_handlers) w) outcome.0.consumed
        (λ on. Offered-stopped invoke event handlers r.global_handlers w outcome on first)
        (λ off.
          Offered-joined invoke event handlers r.global_handlers w outcome.1 more.1 outcome.0 more.0
            off first (route_handlers-Offered invoke event r.global_handlers outcome.1))

  abbrev Outcome : InputRouter H → W → InputDispatchResult × W → Type 0
  Outcome r w outcome =
      (targets : Option (List (HandlerEntry H))) × OfferedTo r event targets
      × Routed targets w outcome

  missing-Outcome :
      (r : InputRouter H) (target : String) (w : W) (policy : MissingWindowTargetPolicy)
      → r.missing_target_policy ≡ policy
      → AimedAt r event target
      → target ≢ ""
      → lookup target r.window_handlers ≡ none
      → Outcome r w (
          if is_drop policy
          then (dropped_result, w)
          else route_handlers invoke r.global_handlers event w)
  missing-Outcome r target w drop_with_diagnostics chosen aim named missing =
      (none, to_nobody aim named missing chosen, refl)
  missing-Outcome r target w fallback_to_global chosen aim named missing = (
    some r.global_handlers,
    to_fallback aim named missing chosen,
    route_handlers-Offered invoke event r.global_handlers w,
  )

  route_target-Outcome :
      (r : InputRouter H) (target : String) (found : Option (List (HandlerEntry H))) (w : W)
      → AimedAt r event target
      → target ≢ ""
      → lookup target r.window_handlers ≡ found
      → Outcome r w (route_target invoke r event found w)
  unfolding route_target
  route_target-Outcome r target (some handlers) w aim named found = (
    some (handlers ++ r.global_handlers),
    to_window aim named found,
    route_window-Offered r handlers w,
  )
  route_target-Outcome r target none w aim named missing =
      missing-Outcome r target w r.missing_target_policy refl aim named missing

  -- A pointer event is aimed at the window with the pointer capture, if there is one; any other event
  -- at the window that it names; and one of the keyboard or of text that names none at the focused
  -- window. An event is dropped, with nothing called, exactly if the window at which it is aimed has
  -- no handlers and the policy is to drop. Otherwise it is offered to the handlers of that window
  -- and then to the global ones, up to the first that consumes it; the result counts the calls. In a
  -- router that was made by its operations, with fewer than 2^64 subscriptions, each of these lists
  -- is in the order of subscription.
  pub route-Routed :
      (r : InputRouter H) (w : W)
      → Reach r
      → AllValues Rising r.window_handlers
        × Rising r.global_handlers
        × ((targets : Option (List (HandlerEntry H))) × OfferedTo r event targets
            × Routed targets w (route invoke r event w))
  unfolding route
  route-Routed r w reached =
      let target = resolve_target_window r event in
      let (windows, globals) = Reach-Rising reached in
      (
        windows,
        globals,
        if_cases (Outcome r w) (not (is_blank target))
            (λ named.
              route_target-Outcome r target (lookup target r.window_handlers) w
                (resolved-AimedAt r event) (is_named r event target named) refl)
            (λ unnamed. (
              some r.global_handlers,
              unnamed-OfferedTo r event target unnamed (resolved-AimedAt r event),
              route_handlers-Offered invoke event r.global_handlers w,
            )),
      )
