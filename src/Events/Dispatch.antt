-- ===== src/Events/Dispatch.antt =====
-- `DispatchImmediate` and `DrainDeferred` of src/event_bus.cpp.
use framekit.Base.{
  ℕ, zero, suc, Bool, true, false, not, ◌&&◌, ◌||◌, String, List, [], ◌∷◌, ◌++◌, length, ltb, leb,
  ◌==◌, nat_eq, if◌then◌else◌,
}
use framekit.Events.{
  EventBus, EventContext, DispatchResult, HandlerEntry, DeferredEvent, snapshot_handlers,
  deferred_count,
}

-- What a handler's call leaves: whether it consumed the event, the payload, the bus and the world.
-- `EventContext` lets a handler consume the event, and not undo that.
pub record Reaction (H P W : Type 0) : Type 0 where
  pub consumes : Bool
  pub payload : P
  pub bus : EventBus H P
  pub world : W

-- The events that were taken, and what is left of the three queues.
pub record Draining (P : Type 0) : Type 0 where
  pub taken : List (DeferredEvent P)
  pub high_left : List (DeferredEvent P)
  pub normal_left : List (DeferredEvent P)
  pub low_left : List (DeferredEvent P)

module _ {P : Type 0} where
  -- `pop_event` on one of the queues: the events taken and the queue, afterwards.
  unfoldable pub pop_event :
      (max_events : ℕ)
      → (taken queue : List (DeferredEvent P)) → List (DeferredEvent P) × List (DeferredEvent P)
  pop_event max_events taken [] = (taken, [])
  pop_event max_events taken (front ∷ rest) =
      if leb max_events (length taken) then (taken, front ∷ rest) else (taken ++ front ∷ [], rest)

  unfoldable pub pop_high : ℕ → Draining P → Draining P
  unfolding pop_event
  pop_high max_events d =
      let (taken, rest) = pop_event max_events d.taken d.high_left in
      record d { taken = taken; high_left = rest }

  unfoldable pub pop_normal : ℕ → Draining P → Draining P
  unfolding pop_event
  pop_normal max_events d =
      let (taken, rest) = pop_event max_events d.taken d.normal_left in
      record d { taken = taken; normal_left = rest }

  unfoldable pub pop_low : ℕ → Draining P → Draining P
  unfolding pop_event
  pop_low max_events d =
      let (taken, rest) = pop_event max_events d.taken d.low_left in
      record d { taken = taken; low_left = rest }

  -- One round of the `while` loop, up to its last test.
  unfoldable pub drain_round : ℕ → Draining P → Draining P
  drain_round max_events d =
      let d₁ = pop_high max_events d in
      let d₂ = pop_normal max_events d₁ in
      let d₃ = pop_low max_events d₂ in
      if leb max_events (length d₁.taken)
      then d₁
      else (if leb max_events (length d₂.taken) then d₂ else d₃)

  -- The `while` loop. A round that takes nothing ends it, so there are at most as many rounds as
  -- events, and one more.
  unfoldable pub drain_loop : (fuel : ℕ) → ℕ → Draining P → Draining P
  drain_loop zero max_events d = d
  drain_loop (suc fuel) max_events d =
      let d' = drain_round max_events d in
      let rest = drain_loop fuel max_events d' in
      if ltb (length d.taken) max_events
      then (if length d'.taken == length d.taken then d' else rest)
      else d

-- The variables of `DispatchImmediate`, with the bus and the world that its handlers change.
pub record Dispatching (H P W : Type 0) : Type 0 where
  pub context : EventContext P
  pub had_handlers : Bool
  pub bus : EventBus H P
  pub world : W

module _ {H P W : Type 0} (invoke : H → EventContext P → EventBus H P → W → Reaction H P W) where
  -- The call `entry.handler(context)`, and for a monitor the flag put back.
  unfoldable pub call_handler : HandlerEntry H → Dispatching H P W → Dispatching H P W
  call_handler entry s =
      let reaction = invoke entry.handler s.context s.bus s.world in
      record {
        context = record (s.context) {
          payload = reaction.payload;
          consumed =
              if entry.monitor then s.context.consumed else s.context.consumed || reaction.consumes;
        };
        had_handlers = true;
        bus = reaction.bus;
        world = reaction.world;
      }

  -- The loop over the snapshot.
  unfoldable pub dispatch_loop : List (HandlerEntry H) → Dispatching H P W → Dispatching H P W
  dispatch_loop [] s = s
  dispatch_loop (entry ∷ rest) s =
      dispatch_loop rest
        (if s.context.consumed && not entry.monitor then s else call_handler entry s)

  unfoldable pub dispatch_immediate :
      EventBus H P → W → String → P → EventBus H P × W × DispatchResult
  dispatch_immediate b w event_type payload =
      let s = dispatch_loop (snapshot_handlers b event_type) (record {
        context = record { event_type = event_type; payload = payload; consumed = false };
        had_handlers = false;
        bus = b;
        world = w;
      }) in
      (s.bus, s.world, record { had_handlers = s.had_handlers; consumed = s.context.consumed })

  -- The dispatch of the events that were taken.
  unfoldable pub dispatch_events : List (DeferredEvent P) → EventBus H P → W → EventBus H P × W
  dispatch_events [] b w = (b, w)
  dispatch_events (event ∷ rest) b w =
      let (b', w', _) = dispatch_immediate b w event.event_type event.payload in
      dispatch_events rest b' w'

  unfoldable pub drain_deferred : EventBus H P → W → (max_events : ℕ) → EventBus H P × W × ℕ
  unfolding deferred_count
  drain_deferred b w max_events =
      let d = drain_loop (suc (deferred_count b)) max_events (record {
        taken = [];
        high_left = b.high_priority_queue;
        normal_left = b.normal_priority_queue;
        low_left = b.low_priority_queue;
      }) in
      let (b', w') =
        dispatch_events d.taken
          (record b {
            high_priority_queue = d.high_left;
            normal_priority_queue = d.normal_left;
            low_priority_queue = d.low_left;
          })
          w in
      (b', w', length d.taken)
