-- ===== src/Input/Routing.antt =====
-- `InputRouter::Route` and `RouteHandlers` of src/input_routing_runtime.cpp.
use framekit.Base.{
  ◌+◌, Bool, true, false, not, is_blank, List, [], ◌∷◌, Option, none, some, if◌then◌else◌,
}
use framekit.Base.Assoc.{lookup}
use framekit.Base.{string_eq}
use framekit.Input.{
  NormalizedInputEvent, InputDispatchResult, HandlerEntry, InputRouter, is_drop,
  resolve_target_window,
}

abbrev pub no_result : InputDispatchResult
no_result = record { delivered_handlers = 0; dropped_events = 0; consumed = false }

abbrev pub dropped_result : InputDispatchResult
dropped_result = record { delivered_handlers = 0; dropped_events = 1; consumed = false }

module _ {H F W : Type 0} (invoke : H → NormalizedInputEvent F → W → W × Bool) where
  -- The loop of `RouteHandlers`, with its result so far; a handler that consumes the event ends it.
  unfoldable pub route_loop :
      List (HandlerEntry H)
      → NormalizedInputEvent F
      → InputDispatchResult
      → W
      → InputDispatchResult × W
  route_loop [] event result w = (result, w)
  route_loop (entry ∷ rest) event result w =
      let counted = record result { delivered_handlers = result.delivered_handlers + 1 } in
      let (w', consumes) = invoke entry.handler event w in
      let later = route_loop rest event counted w' in
      if consumes then (record counted { consumed = true }, w') else later

  unfoldable pub route_handlers :
      List (HandlerEntry H) → NormalizedInputEvent F → W → InputDispatchResult × W
  unfolding route_loop
  route_handlers handlers event w = route_loop handlers event no_result w

  -- The handlers of the window that was found, and the global ones unless the event is consumed.
  unfoldable pub route_window :
      InputRouter H → NormalizedInputEvent F → List (HandlerEntry H) → W → InputDispatchResult × W
  route_window r event handlers w =
      let (result, w') = route_handlers handlers event w in
      let (global_result, w'') = route_handlers r.global_handlers event w' in
      if result.consumed then (result, w') else (
        record {
          delivered_handlers = result.delivered_handlers + global_result.delivered_handlers;
          dropped_events = result.dropped_events + global_result.dropped_events;
          consumed = global_result.consumed;
        },
        w'',
      )

  unfoldable pub route_target :
      InputRouter H
      → NormalizedInputEvent F
      → Option (List (HandlerEntry H))
      → W
      → InputDispatchResult × W
  route_target r event (some handlers) w = route_window r event handlers w
  route_target r event none w =
      if is_drop r.missing_target_policy
      then (dropped_result, w)
      else route_handlers r.global_handlers event w

  unfoldable pub route : InputRouter H → NormalizedInputEvent F → W → InputDispatchResult × W
  unfolding route_target
  route r event w =
      let target = resolve_target_window r event in
      if not (is_blank target)
      then route_target r event (lookup target r.window_handlers) w
      else route_handlers r.global_handlers event w
