-- ===== src/Samples/Devices.antt =====
-- Input routing on concrete events.
use framekit.Base.{
  ℕ, ◌≡◌, refl, true, false, Bool, String, List, [], ◌∷◌, ◌++◌, some, any, ◌==◌, nat_eq,
}
use framekit.Base.Assoc.{lookup, insert}
use framekit.Input.{
  InputDevice, InputAction, RawInputEvent, NormalizedInputEvent, InputRouter, new_router,
  subscribe_window, subscribe_global, resolve_target_window,
}
use framekit.Input.Routing.{route, route_target, route_window, route_handlers, route_loop}
use framekit.Input.Targets.{Routed, route-Routed}
use framekit.Input.Subscribed.{Rising, Reach, new, next, on_window, on_global}
use framekit.Input.Aims.{OfferedTo}
use framekit.Base.Assoc.{AllValues}
use framekit.Base.{Option, arith}
use framekit.Input.{HandlerEntry}
use framekit.Input.Pending.{
  InputRoutingRuntime, new_input_runtime, enqueue_raw_input, normalize_pending, dispatch_pending,
}
use framekit.Input.Batches.{
  Batch, normalize_pending-Batch, routed, delivered, dropped, dispatch_pending_lem,
}

abbrev key : (window_id : String) → RawInputEvent ℕ
key window_id = record {
  backend_type = "glfw";
  backend_payload = "scancode";
  device = InputDevice.keyboard;
  action = InputAction.key_down;
  timestamp_ns = 5;
  source_id = "keyboard0";
  window_id = window_id;
  pointer_x = 0;
  pointer_y = 0;
  key_code = 65;
  text = "";
  modifiers = record { shift = false; control = false; alt = false; meta = false };
}

abbrev normal_key : (window_id : String) → NormalizedInputEvent ℕ
normal_key window_id = record {
  device = InputDevice.keyboard;
  action = InputAction.key_down;
  timestamp_ns = 5;
  source_id = "keyboard0";
  window_id = window_id;
  pointer_x = 0;
  pointer_y = 0;
  key_code = 65;
  text = "";
  modifiers = record { shift = false; control = false; alt = false; meta = false };
  backend_extension = "scancode";
}

-- A handler is a number: it is noted in the world, and number 2 consumes the event.
abbrev note : ℕ → NormalizedInputEvent ℕ → List ℕ → List ℕ × Bool
note n event w = (w ++ n ∷ [], n == 2)

abbrev two_handlers : InputRouter ℕ
two_handlers = (subscribe_global (subscribe_window new_router "main" (some 1)).0 (some 2)).0

both_called :
    let (result, w) = route note two_handlers (normal_key "main") [] in
    (w ≡ 1 ∷ 2 ∷ []) × (result.delivered_handlers ≡ 2) × (result.consumed ≡ true)
unfolding route route_target route_window route_handlers route_loop resolve_target_window
    subscribe_global subscribe_window new_router lookup insert
both_called = (refl, refl, refl)

other_window : (route note two_handlers (normal_key "tool") []).0.dropped_events ≡ 1
unfolding route route_target route_window route_handlers route_loop resolve_target_window
    subscribe_global subscribe_window new_router lookup insert
other_window = refl

two_handlers_reached : Reach two_handlers
unfolding subscribe_global subscribe_window new_router lookup insert
two_handlers_reached =
    next (next new (on_window "main" (some 1) (omega arith))) (on_global (some 2) (omega arith))

route-Routed_example :
    AllValues Rising two_handlers.window_handlers
    × Rising two_handlers.global_handlers
    × ((targets : Option (List (HandlerEntry ℕ))) × OfferedTo two_handlers
          (normal_key "main")
          targets
        × Routed note
            (normal_key "main")
            targets
            []
            (route note two_handlers (normal_key "main") []))
route-Routed_example = route-Routed note (normal_key "main") two_handlers [] two_handlers_reached

abbrev pending_keys : InputRoutingRuntime ℕ ℕ
pending_keys = enqueue_raw_input (enqueue_raw_input new_input_runtime (key "main")) (key "tool")

normalize_pending-Batch_example :
    Batch pending_keys pending_keys.normalizer (normalize_pending pending_keys)
normalize_pending-Batch_example = normalize_pending-Batch pending_keys

abbrev normal_keys : InputRoutingRuntime ℕ ℕ
normal_keys = record (new_input_runtime {H = ℕ} {F = ℕ}) {
  router = two_handlers;
  normalized_queue = normal_key "main" ∷ normal_key "tool" ∷ [];
}

dispatch_pending_lem_example :
    let (results, w') = routed note two_handlers (normal_key "main" ∷ normal_key "tool" ∷ []) [] in
    let (r', total, w'') = dispatch_pending note normal_keys [] in
    (r' ≡ record normal_keys { normalized_queue = [] })
    × (total.delivered_handlers ≡ delivered results)
    × (total.dropped_events ≡ dropped results)
    × (total.consumed ≡ any (λ x. x.consumed) results)
    × (w'' ≡ w')
dispatch_pending_lem_example = dispatch_pending_lem note normal_keys []
