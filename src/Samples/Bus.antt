-- ===== src/Samples/Bus.antt =====
-- The event bus on concrete subscriptions and events.
use framekit.Base.{
  String, take, length, min, ℕ, suc, ◌+◌, ◌<◌, ◌≡◌, refl, true, false, List, [], ◌∷◌, ◌++◌, All,
  some, arith, u64, string_eq, nat_eq, ◌==◌,
}
use framekit.Base.Assoc.{lookup, insert}
use framekit.Events.{
  unsubscribe, EventBus, EventContext, DeferredEvent, DeferredPriority, high, low, returned,
  new_bus, subscribe, snapshot_handlers, entries_or_empty, enqueue_deferred, deferred_count,
  sort_by_sequence, insert_by_sequence,
}
use framekit.Events.Dispatch.{Reaction, dispatch_immediate, dispatch_loop, call_handler}
use framekit.Events.Dispatch.{
  drain_deferred, drain_loop, drain_round, pop_high, pop_normal, pop_low, pop_event,
  dispatch_events,
}
use framekit.Events.Drain.{round_robin}
use framekit.Events.Draining.{Split, dispatched_each, drain_deferred-round_robin}
use framekit.Events.Membership.{handlers_of, unsubscribe-subscribe}
use framekit.Events.Queue.{queue_of, numbered, refusal, counted}
use framekit.Events.Enqueuing.{enqueue_each, enqueue_each_lem}
use framekit.Base.{◌-◌, min, map, length}
use framekit.Events.{push_deferred, is_queue_full}
use framekit.Events.Registry.{Rising, Reach, here, next, subscribed, snapshot_order}
use framekit.Events.Delivery.{Delivered, fresh_dispatch, dispatch_immediate-Delivered}

-- A handler is a number: it is noted in the world, and number 2 consumes the event.
abbrev note : ℕ → EventContext ℕ → EventBus ℕ ℕ → List ℕ → Reaction ℕ ℕ (List ℕ)
note n context b w = record {
  consumes = n == 2;
  payload = context.payload;
  bus = b;
  world = w ++ n ∷ [];
}

-- Handlers 1, 2 (which consumes), 3, and the monitor 4.
abbrev four : EventBus ℕ ℕ
four =
    (subscribe
      (subscribe (subscribe (subscribe new_bus "tick" (some 1) false).0 "tick" (some 2) false).0
        "tick" (some 3) false).0
      "tick" (some 4) true).0

-- The third handler is not called.
four_notes :
    let (b, w, result) = dispatch_immediate note four [] "tick" 7 in
    (w ≡ 1 ∷ 2 ∷ 4 ∷ []) × (result.consumed ≡ true)
unfolding dispatch_immediate dispatch_loop call_handler snapshot_handlers sort_by_sequence
    insert_by_sequence subscribe new_bus lookup insert
four_notes = (refl, refl)

dispatch_immediate-Delivered_example :
    let entries = snapshot_handlers four "tick" in
    let s = fresh_dispatch four [] "tick" 7 in
    let (b', w', result) = dispatch_immediate note four [] "tick" 7 in
    Delivered note entries s
    × (result.consumed ≡ (dispatch_loop note entries s).context.consumed)
    × (b' ≡ (dispatch_loop note entries s).bus)
    × (w' ≡ (dispatch_loop note entries s).world)
dispatch_immediate-Delivered_example = dispatch_immediate-Delivered note four [] "tick" 7

abbrev two : EventBus ℕ ℕ
two = (subscribe (subscribe new_bus "tick" (some 1) false).0 "tick" (some 2) false).0

two_reached : Reach new_bus two
unfolding new_bus subscribe
two_reached =
    next (next here (subscribed "tick" (some 1) false (omega arith) (omega arith)))
      (subscribed "tick" (some 2) false (omega arith) (omega arith))

snapshot_order_example :
    (snapshot_handlers two "tick" ≡ entries_or_empty (lookup "tick" two.handlers))
    × Rising (snapshot_handlers two "tick")
    × All (λ e. 0 < e.id) (snapshot_handlers two "tick")
snapshot_order_example = snapshot_order two "tick" two_reached

abbrev empty_bus : EventBus ℕ ℕ
empty_bus = new_bus

-- Three events in two queues, of which two are to be drained.
abbrev tick : DeferredPriority → ℕ → DeferredEvent ℕ
tick priority n = record { event_type = "tick"; payload = n; priority = priority; sequence = n }

abbrev queued_bus : EventBus ℕ ℕ
queued_bus = record empty_bus {
  high_priority_queue = tick high 1 ∷ tick high 2 ∷ [];
  low_priority_queue = tick low 3 ∷ [];
}

-- Room for one more event, and three of them.
abbrev almost_full : EventBus ℕ ℕ
almost_full = record queued_bus { deferred_capacity = 4 }

abbrev three_ticks : List (String × ℕ × DeferredPriority)
three_ticks = ("tick", 7, low) ∷ ("tick", 8, high) ∷ ("tick", 9, low) ∷ []

three_ticks_enqueued :
    let (b', outcomes) = enqueue_each three_ticks almost_full in
    (outcomes ≡ returned true ∷ returned false ∷ returned false ∷ [])
    × (deferred_count b' ≡ 4)
    × (b'.dropped_deferred_count ≡ 2)
unfolding enqueue_deferred push_deferred is_queue_full deferred_count new_bus
three_ticks_enqueued = (refl, refl, refl)

enqueue_each_lem_example :
    let (b', outcomes) = enqueue_each three_ticks almost_full in
    (accepted : List (String × ℕ × DeferredPriority)) × (refused : List
      (String × ℕ × DeferredPriority))
    × (three_ticks ≡ accepted ++ refused)
    × (length accepted
        ≡ min (length three_ticks) (almost_full.deferred_capacity - deferred_count almost_full))
    × ((q : DeferredPriority)
        → queue_of b' q
          ≡ queue_of almost_full q ++ numbered q almost_full.next_deferred_sequence accepted)
    × (outcomes
        ≡ map (λ _. returned true) accepted
          ++ map (λ _. refusal almost_full.overflow_policy) refused)
    × (b'.dropped_deferred_count
        ≡ u64 (
            almost_full.dropped_deferred_count
            + counted almost_full.overflow_policy (length refused)))
    × (b'.handlers ≡ almost_full.handlers)
unfolding new_bus
enqueue_each_lem_example = enqueue_each_lem almost_full three_ticks (omega arith)

two_drained : (drain_deferred note queued_bus [] 2).0.high_priority_queue ≡ tick high 2 ∷ []
unfolding drain_deferred deferred_count drain_loop drain_round pop_high pop_normal pop_low pop_event
    dispatch_events dispatch_immediate dispatch_loop snapshot_handlers sort_by_sequence new_bus
    lookup
two_drained = refl

drain_deferred-round_robin_example :
    let events = take 2 (
      round_robin
        (suc (deferred_count queued_bus))
        queued_bus.high_priority_queue
        queued_bus.normal_priority_queue
        queued_bus.low_priority_queue) in
    let (b', w', count) = drain_deferred note queued_bus [] 2 in
    (count ≡ min 2 (deferred_count queued_bus))
    × (count ≡ length events)
    × (high_left : List (DeferredEvent ℕ)) × (normal_left : List (DeferredEvent ℕ))
    × (low_left : List (DeferredEvent ℕ)) × Split queued_bus events high_left normal_left low_left
    × ((b', w')
        ≡ dispatched_each note events (
          record queued_bus {
            high_priority_queue = high_left;
            normal_priority_queue = normal_left;
            low_priority_queue = low_left;
          },
          [],
        ))
drain_deferred-round_robin_example = drain_deferred-round_robin note queued_bus [] 2

abbrev ticks : String
ticks = "tick"

unsubscribe-subscribe_example :
    let (b₁, id) = subscribe two "tock" (some 3) true in
    let (b₂, done) = unsubscribe b₁ "tock" id in
    (done ≡ true) × (handlers_of b₂ "tick" ≡ handlers_of two "tick")
unsubscribe-subscribe_example = unsubscribe-subscribe two "tock" 3 true "tick" two_reached
