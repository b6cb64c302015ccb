-- ===== src/Events.antt =====
-- `EventBus`: include/framekit/event/bus.hpp, src/event_bus.cpp.
-- A handler is a value of `H`. What its call does is `invoke`, a parameter: it may consume the
-- event, change the payload, change the world, and call the bus back, which is why it is given the
-- bus and returns one. The locks only make the single operations atomic, so one call of an
-- operation is one step here.
pub mod Dispatch
pub mod Queue
pub mod Enqueuing
pub mod Registry
pub mod Delivery
pub mod Membership
pub mod Drain
pub mod Merging
pub mod Draining
use framekit.Base.{
  ℕ, zero, suc, ◌+◌, Bool, true, false, not, ◌&&◌, ◌||◌, String, List, [], ◌∷◌, ◌++◌, Option, none,
  some, length, is_empty, any, remove_if, u64, ltb, leb, ◌==◌, nat_eq, string_eq, if◌then◌else◌,
}
use framekit.Base.Assoc.{lookup, insert, erase}

pub data DeferredPriority : Type 0 where
  high normal low : DeferredPriority

pub data DeferredOverflowPolicy : Type 0 where
  drop_newest fail_fast backpressure_signaling : DeferredOverflowPolicy

pub record EventContext (P : Type 0) : Type 0 where
  pub event_type : String
  pub payload : P
  pub consumed : Bool

pub record DispatchResult : Type 0 where
  pub had_handlers : Bool
  pub consumed : Bool

pub record HandlerEntry (H : Type 0) : Type 0 where
  pub id : ℕ  -- uint64_t
  pub handler : H
  pub monitor : Bool
  pub sequence : ℕ  -- uint64_t

pub record DeferredEvent (P : Type 0) : Type 0 where
  pub event_type : String
  pub payload : P
  pub priority : DeferredPriority
  pub sequence : ℕ  -- uint64_t

pub record EventBus (H P : Type 0) : Type 0 where
  pub handlers : List (String × List (HandlerEntry H))
  pub high_priority_queue : List (DeferredEvent P)
  pub normal_priority_queue : List (DeferredEvent P)
  pub low_priority_queue : List (DeferredEvent P)
  pub next_handler_id : ℕ  -- uint64_t
  pub next_handler_sequence : ℕ  -- uint64_t
  pub next_deferred_sequence : ℕ  -- uint64_t
  pub deferred_capacity : ℕ
  pub dropped_deferred_count : ℕ
  pub overflow_policy : DeferredOverflowPolicy

-- What `EnqueueDeferred` does: it returns, or throws `std::runtime_error`.
pub data EnqueueOutcome : Type 0 where
  returned : Bool → EnqueueOutcome
  thrown : String → EnqueueOutcome

module _ {H : Type 0} where
  abbrev pub entries_or_empty : Option (List (HandlerEntry H)) → List (HandlerEntry H)
  entries_or_empty none = []
  entries_or_empty (some entries) = entries

  abbrev pub has_id : ℕ → HandlerEntry H → Bool
  has_id id entry = entry.id == id

  -- `std::sort` by the sequence numbers.
  unfoldable pub insert_by_sequence : HandlerEntry H → List (HandlerEntry H) → List (HandlerEntry H)
  insert_by_sequence e [] = e ∷ []
  insert_by_sequence e (x ∷ xs) =
      if ltb x.sequence e.sequence then x ∷ insert_by_sequence e xs else e ∷ x ∷ xs

  unfoldable pub sort_by_sequence : List (HandlerEntry H) → List (HandlerEntry H)
  sort_by_sequence [] = []
  sort_by_sequence (x ∷ xs) = insert_by_sequence x (sort_by_sequence xs)

module _ {H P : Type 0} where
  unfoldable pub new_bus : EventBus H P
  new_bus = record {
    handlers = [];
    high_priority_queue = [];
    normal_priority_queue = [];
    low_priority_queue = [];
    next_handler_id = 1;
    next_handler_sequence = 1;
    next_deferred_sequence = 1;
    deferred_capacity = 1024;
    dropped_deferred_count = 0;
    overflow_policy = drop_newest;
  }

  -- An empty `std::function` is `none`; the result 0 is no handler's id.
  unfoldable pub subscribe : EventBus H P → String → Option H → (monitor : Bool) → EventBus H P × ℕ
  subscribe b event_type none monitor = (b, 0)
  subscribe b event_type (some handler) monitor =
      let entry : HandlerEntry H = record {
        id = b.next_handler_id;
        handler = handler;
        monitor = monitor;
        sequence = b.next_handler_sequence;
      } in
      (
        record b {
          next_handler_id = u64 (b.next_handler_id + 1);
          next_handler_sequence = u64 (b.next_handler_sequence + 1);
          handlers =
              insert event_type (entries_or_empty (lookup event_type b.handlers) ++ entry ∷ [])
                b.handlers;
        },
        b.next_handler_id,
      )

  -- `Unsubscribe`, on the entries that were found.
  unfoldable pub remove_entry :
      EventBus H P → String → ℕ → List (HandlerEntry H) → EventBus H P × Bool
  remove_entry b event_type id entries =
      let kept = remove_if (has_id id) entries in
      if not (any (has_id id) entries) then (b, false) else (
        record b {
          handlers =
              if is_empty kept
              then erase event_type b.handlers
              else insert event_type kept b.handlers;
        },
        true,
      )

  unfoldable pub unsubscribe : EventBus H P → String → ℕ → EventBus H P × Bool
  unfolding remove_entry
  unsubscribe b event_type id = elim (lookup event_type b.handlers) [
    | none ↦ (b, false)
    | some entries ↦ remove_entry b event_type id entries
  ]

  unfoldable pub snapshot_handlers : EventBus H P → String → List (HandlerEntry H)
  unfolding sort_by_sequence insert_by_sequence
  snapshot_handlers b event_type =
      sort_by_sequence (entries_or_empty (lookup event_type b.handlers))

  unfoldable pub deferred_count : EventBus H P → ℕ
  deferred_count b =
      length b.high_priority_queue + length b.normal_priority_queue + length b.low_priority_queue

  unfoldable pub is_queue_full : EventBus H P → Bool
  unfolding deferred_count
  is_queue_full b = leb b.deferred_capacity (deferred_count b)

  abbrev push_back : EventBus H P → DeferredEvent P → DeferredPriority → EventBus H P
  push_back b event high = record b { high_priority_queue = b.high_priority_queue ++ event ∷ [] }
  push_back b event normal = record b {
    normal_priority_queue = b.normal_priority_queue ++ event ∷ [];
  }
  push_back b event low = record b { low_priority_queue = b.low_priority_queue ++ event ∷ [] }

  -- The full queue, by the overflow policy.
  abbrev overflow : EventBus H P → DeferredOverflowPolicy → EventBus H P × EnqueueOutcome
  overflow b fail_fast = (b, thrown "event bus deferred queue overflow")
  overflow b drop_newest =
      (record b { dropped_deferred_count = u64 (b.dropped_deferred_count + 1) }, returned false)
  overflow b backpressure_signaling = (b, returned false)

  unfoldable pub push_deferred : EventBus H P → DeferredEvent P → EventBus H P × EnqueueOutcome
  push_deferred b event = if is_queue_full b then overflow b b.overflow_policy else (
    push_back (record b { next_deferred_sequence = u64 (b.next_deferred_sequence + 1) })
        (record event { sequence = b.next_deferred_sequence }) event.priority,
    returned true,
  )

  unfoldable pub enqueue_deferred :
      EventBus H P → String → P → DeferredPriority → EventBus H P × EnqueueOutcome
  unfolding push_deferred
  enqueue_deferred b event_type payload priority =
      push_deferred b
        (record { event_type = event_type; payload = payload; priority = priority; sequence = 0 })

  unfoldable pub discard_deferred : EventBus H P → EventBus H P × ℕ
  unfolding deferred_count
  discard_deferred b = (
    record b { high_priority_queue = []; normal_priority_queue = []; low_priority_queue = [] },
    deferred_count b,
  )

  unfoldable pub set_deferred_capacity : EventBus H P → ℕ → EventBus H P
  set_deferred_capacity b capacity = record b { deferred_capacity = capacity }

  unfoldable pub set_deferred_overflow_policy : EventBus H P → DeferredOverflowPolicy → EventBus H P
  set_deferred_overflow_policy b policy = record b { overflow_policy = policy }
