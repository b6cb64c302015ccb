-- ===== src/Events/Draining.antt =====
-- `DrainDeferred` as a whole: what is dispatched, what is left, and the number it returns.
use framekit.Base.{
  ℕ, suc, min, ◌≡◌, refl, ap, subst, ◌∙◌, List, [], ◌∷◌, ◌++◌, length, take, nat_eq, arith,
}
use framekit.Events.{EventBus, EventContext, DeferredEvent, deferred_count}
use framekit.Events.Dispatch.{
  Reaction, Draining, drain_loop, dispatch_events, dispatch_immediate, drain_deferred,
}
use framekit.Events.Drain.{round_robin, length-round_robin, length-take, drain_loop-taken}
use framekit.Events.Merging.{Merge, drain_loop-Leaves}

-- How the queues of a bus split: some first events of each, which make up `events`, and the rest.
pub record Split {H P : Type 0} (b : EventBus H P) (events high normal low : List (DeferredEvent P))
    : Type 0 where
  pub high_front : List (DeferredEvent P)
  pub normal_front : List (DeferredEvent P)
  pub low_front : List (DeferredEvent P)
  pub high_split : high_front ++ high ≡ b.high_priority_queue
  pub normal_split : normal_front ++ normal ≡ b.normal_priority_queue
  pub low_split : low_front ++ low ≡ b.low_priority_queue
  pub merge : Merge high_front normal_front low_front events

module _ {H P W : Type 0} (invoke : H → EventContext P → EventBus H P → W → Reaction H P W) where
  -- An immediate dispatch of each of the events, one after the other.
  pub dispatched_each : List (DeferredEvent P) → EventBus H P × W → EventBus H P × W
  dispatched_each [] (b, w) = (b, w)
  dispatched_each (event ∷ rest) (b, w) =
      let (b', w', result) = dispatch_immediate invoke b w event.event_type event.payload in
      dispatched_each rest (b', w')

  dispatch_events-each :
      (events : List (DeferredEvent P)) (b : EventBus H P) (w : W)
      → dispatch_events invoke events b w ≡ dispatched_each events (b, w)
  unfolding dispatch_events dispatched_each
  dispatch_events-each [] b w = refl
  dispatch_events-each (event ∷ rest) b w =
      let (b', w', result) = dispatch_immediate invoke b w event.event_type event.payload in
      dispatch_events-each rest b' w'

  -- Draining takes the first events of a round robin over the high, the normal and the low queue (one
  -- of each in turn, so that a lower class does not wait until the higher ones are empty), as many as
  -- there are up to the limit, and returns their number, whatever the handlers enqueue meanwhile.
  -- These events are some first ones of each queue, in its order, and the dispatch starts with
  -- exactly the rest of each queue; it dispatches the events one after the other.
  pub drain_deferred-round_robin :
      (b : EventBus H P) (w : W) (max_events : ℕ)
      → let events = take max_events (
          round_robin
            (suc (deferred_count b))
            b.high_priority_queue
            b.normal_priority_queue
            b.low_priority_queue) in
        let (b', w', count) = drain_deferred invoke b w max_events in
        (count ≡ min max_events (deferred_count b))
        × (count ≡ length events)
        × (high : List (DeferredEvent P)) × (normal : List (DeferredEvent P)) × (low : List
            (DeferredEvent P))
        × Split b events high normal low
        × ((b', w')
            ≡ dispatched_each events (
              record b {
                high_priority_queue = high;
                normal_priority_queue = normal;
                low_priority_queue = low;
              },
              w,
            ))
  unfolding drain_deferred deferred_count
  drain_deferred-round_robin b w max_events =
      let fuel = suc (deferred_count b) in
      let start : Draining P = record {
        taken = [];
        high_left = b.high_priority_queue;
        normal_left = b.normal_priority_queue;
        low_left = b.low_priority_queue;
      } in
      let d = drain_loop fuel max_events start in
      let kept = drain_loop-Leaves fuel max_events start in
      let rounds =
        round_robin fuel b.high_priority_queue b.normal_priority_queue b.low_priority_queue in
      let e : d.taken ≡ take max_events rounds =
        drain_loop-taken max_events fuel [] b.high_priority_queue b.normal_priority_queue
          b.low_priority_queue (omega arith) (omega arith) in
      let left = record b {
        high_priority_queue = d.high_left;
        normal_priority_queue = d.normal_left;
        low_priority_queue = d.low_left;
      } in
      (
        omega (
          arith,
          ap length e,
          length-take max_events rounds,
          length-round_robin fuel b.high_priority_queue b.normal_priority_queue b.low_priority_queue
              (omega arith),
        ),
        ap length e,
        d.high_left,
        d.normal_left,
        d.low_left,
        record {
          high_front = kept.high_front;
          normal_front = kept.normal_front;
          low_front = kept.low_front;
          high_split = kept.high_split;
          normal_split = kept.normal_split;
          low_split = kept.low_split;
          merge =
              subst (Merge kept.high_front kept.normal_front kept.low_front) (kept.grown ∙ e)
                kept.merge;
        },
        dispatch_events-each d.taken left w ∙ ap (λ events. dispatched_each events (left, w)) e,
      )
