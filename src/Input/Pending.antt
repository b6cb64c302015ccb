-- ===== src/Input/Pending.antt =====
-- `InputRoutingRuntime` of include/framekit/input/routing.hpp, src/input_routing_runtime.cpp.
use framekit.Base.{
  ℕ, ◌+◌, Bool, true, false, ◌||◌, String, List, [], ◌∷◌, ◌++◌, Option, none, some, length,
}
use framekit.Input.{
  RawInputEvent, NormalizedInputEvent, Normalizer, passthrough, InputDispatchResult, InputRouter,
  new_router,
}
use framekit.Input.Routing.{no_result, route}

-- A missing normalizer is `none`.
pub record InputRoutingRuntime (H F : Type 0) : Type 0 where
  pub normalizer : Option (Normalizer F)
  pub router : InputRouter H
  pub raw_queue : List (RawInputEvent F)
  pub normalized_queue : List (NormalizedInputEvent F)
  pub last_error : String

module _ {F : Type 0} where
  -- The loop over the raw events; `none` is its failing return.
  unfoldable pub normalize_all :
      Normalizer F
      → (normalized : List (NormalizedInputEvent F)) → List (RawInputEvent F)
      → Option (List (NormalizedInputEvent F))
  normalize_all normalize normalized [] = some normalized
  normalize_all normalize normalized (raw ∷ rest) = elim (normalize raw) [
    | none ↦ none
    | some event ↦ normalize_all normalize (normalized ++ event ∷ []) rest
  ]

module _ {H F : Type 0} where
  unfoldable pub new_input_runtime : InputRoutingRuntime H F
  unfolding passthrough
  new_input_runtime = record {
    normalizer = some passthrough;
    router = new_router;
    raw_queue = [];
    normalized_queue = [];
    last_error = "";
  }

  unfoldable pub set_normalizer :
      InputRoutingRuntime H F → Option (Normalizer F) → InputRoutingRuntime H F
  set_normalizer r normalizer = record r { normalizer = normalizer }

  unfoldable pub enqueue_raw_input :
      InputRoutingRuntime H F → RawInputEvent F → InputRoutingRuntime H F
  enqueue_raw_input r event = record r { raw_queue = r.raw_queue ++ event ∷ [] }

  unfoldable pub take_normalized :
      InputRoutingRuntime H F
      → Option (List (NormalizedInputEvent F))
      → InputRoutingRuntime H F × Bool
  take_normalized r none = (record r { last_error = "failed to normalize raw input event" }, false)
  take_normalized r (some normalized) = (
    record r {
      raw_queue = [];
      normalized_queue = r.normalized_queue ++ normalized;
      last_error = "";
    },
    true,
  )

  unfoldable pub normalize_with :
      InputRoutingRuntime H F → Option (Normalizer F) → InputRoutingRuntime H F × Bool
  normalize_with r none = (record r { last_error = "input normalizer is not set" }, false)
  normalize_with r (some normalize) = take_normalized r (normalize_all normalize [] r.raw_queue)

  unfoldable pub normalize_pending : InputRoutingRuntime H F → InputRoutingRuntime H F × Bool
  unfolding normalize_with take_normalized normalize_all
  normalize_pending r = normalize_with r r.normalizer

  unfoldable pub discard_pending : InputRoutingRuntime H F → InputRoutingRuntime H F × ℕ
  discard_pending r = (
    record r { raw_queue = []; normalized_queue = [] },
    length r.raw_queue + length r.normalized_queue,
  )

module _ {H F W : Type 0} (invoke : H → NormalizedInputEvent F → W → W × Bool) where
  -- The loop of `DispatchImmediate`, with its sums so far.
  unfoldable pub route_all :
      InputRouter H
      → List (NormalizedInputEvent F)
      → InputDispatchResult
      → W
      → InputDispatchResult × W
  route_all router [] aggregate w = (aggregate, w)
  route_all router (event ∷ rest) aggregate w =
      let (result, w') = route invoke router event w in
      route_all router rest
        (record {
          delivered_handlers = aggregate.delivered_handlers + result.delivered_handlers;
          dropped_events = aggregate.dropped_events + result.dropped_events;
          consumed = aggregate.consumed || result.consumed;
        })
        w'

  unfoldable pub dispatch_pending :
      InputRoutingRuntime H F → W → InputRoutingRuntime H F × InputDispatchResult × W
  unfolding route_all
  dispatch_pending r w =
      let (aggregate, w') = route_all r.router r.normalized_queue no_result w in
      (record r { normalized_queue = [] }, aggregate, w')
