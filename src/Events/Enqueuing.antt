-- ===== src/Events/Enqueuing.antt =====
-- A sequence of `EnqueueDeferred` calls: which events are queued, and which are refused.
use mathlib.Core.List.{append_assoc, append-nil}
use framekit.Base.{
  ℕ, suc, ◌+◌, ◌-◌, ◌≤◌, ◌<◌, ◌≡◌, ◌⊎◌, refl, ap, sym, ◌∙◌, inl, inr, true, String, List, [], ◌∷◌,
  ◌++◌, map, length, min, u64, arith,
}
use framekit.Events.{
  EventBus, DeferredPriority, DeferredOverflowPolicy, drop_newest, fail_fast,
  backpressure_signaling, EnqueueOutcome, returned, enqueue_deferred, deferred_count,
}
use framekit.Events.Queue.{
  queue_of, numbered, refusal, counted, Accepted, Refused, enqueue-Accepted, enqueue-Refused,
}

counted_next :
    (policy : DeferredOverflowPolicy) (dropped n : ℕ)
    → u64 (u64 (dropped + counted policy 1) + counted policy n)
      ≡ u64 (dropped + counted policy (suc n))
counted_next drop_newest dropped n = omega arith
counted_next fail_fast dropped n = omega arith
counted_next backpressure_signaling dropped n = omega arith

room_cases : (n capacity : ℕ) → (n < capacity) ⊎ (capacity ≤ n)
room_cases n capacity = omega arith

module _ {P : Type 0} where
  numbered-cons :
      (q : DeferredPriority) (n : ℕ) (request : String × P × DeferredPriority)
      (rest : List (String × P × DeferredPriority))
      → numbered q n (request ∷ rest) ≡ numbered q n (request ∷ []) ++ numbered q (u64 (n + 1)) rest
  numbered-cons q n request rest = ground arith

module _ {H P : Type 0} where
  -- The calls of `EnqueueDeferred` for a list of requests, with what each call comes to.
  abbrev pub enqueue_each :
      List (String × P × DeferredPriority) → EventBus H P → EventBus H P × List EnqueueOutcome
  enqueue_each [] b = (b, [])
  enqueue_each ((event_type, payload, priority) ∷ rest) b =
      let (b', outcome) = enqueue_deferred b event_type payload priority in
      let (b'', outcomes) = enqueue_each rest b' in (b'', outcome ∷ outcomes)

  abbrev Enqueued :
      List (String × P × DeferredPriority)
      → EventBus H P
      → EventBus H P × List EnqueueOutcome
      → Type 0
  Enqueued requests b (b', outcomes) =
      (accepted : List (String × P × DeferredPriority)) × (refused : List
        (String × P × DeferredPriority))
      × (requests ≡ accepted ++ refused)
      × (length accepted ≡ min (length requests) (b.deferred_capacity - deferred_count b))
      × ((q : DeferredPriority)
          → queue_of b' q ≡ queue_of b q ++ numbered q b.next_deferred_sequence accepted)
      × (outcomes
          ≡ map (λ _. returned true) accepted ++ map (λ _. refusal b.overflow_policy) refused)
      × (b'.dropped_deferred_count
          ≡ u64 (b.dropped_deferred_count + counted b.overflow_policy (length refused)))
      × (b'.handlers ≡ b.handlers)

  Enqueued-Accepted :
      (b : EventBus H P) (request : String × P × DeferredPriority)
      (rest : List (String × P × DeferredPriority)) (b₁ b₂ : EventBus H P)
      (outcome : EnqueueOutcome) (outcomes : List EnqueueOutcome)
      → deferred_count b < b.deferred_capacity
      → Accepted b request (b₁, outcome)
      → Enqueued rest b₁ (b₂, outcomes)
      → Enqueued (request ∷ rest) b (b₂, outcome ∷ outcomes)
  Enqueued-Accepted b request rest b₁ b₂ outcome outcomes room
        (like, taken, grown, more, next, same)
        (accepted, refused, split, many, queues, ends, dropped, handlers) =
      (
        request ∷ accepted,
        refused,
        ap (◌∷◌ request) split,
        omega (arith, many, more, like.capacity, room),
        λ q.
            queues q
            ∙ ap (λ l. l ++ numbered q b₁.next_deferred_sequence accepted) (grown q)
            ∙ append_assoc (queue_of b q) (numbered q b.next_deferred_sequence (request ∷ []))
                (numbered q b₁.next_deferred_sequence accepted)
            ∙ ap
                (λ n.
                  queue_of b q
                  ++ (numbered q b.next_deferred_sequence (request ∷ []) ++ numbered q n accepted))
                next
            ∙ ap (λ l. queue_of b q ++ l)
                (sym (numbered-cons q b.next_deferred_sequence request accepted)),
        ap (λ o. o ∷ outcomes) taken
            ∙ ap (◌∷◌ (returned true)) ends
            ∙ ap
                (λ p.
                  returned true
                  ∷ (map (λ _. returned true) accepted ++ map (λ _. refusal p) refused))
                like.policy,
        dropped
            ∙ ap (λ n. u64 (n + counted b₁.overflow_policy (length refused))) same
            ∙ ap (λ p. u64 (b.dropped_deferred_count + counted p (length refused))) like.policy,
        handlers ∙ like.handlers,
      )

  Enqueued-Refused :
      (b : EventBus H P) (request : String × P × DeferredPriority)
      (rest : List (String × P × DeferredPriority)) (b₁ b₂ : EventBus H P)
      (outcome : EnqueueOutcome) (outcomes : List EnqueueOutcome)
      → b.deferred_capacity ≤ deferred_count b
      → Refused b (b₁, outcome)
      → Enqueued rest b₁ (b₂, outcomes)
      → Enqueued (request ∷ rest) b (b₂, outcome ∷ outcomes)
  Enqueued-Refused b request rest b₁ b₂ outcome outcomes none_left (like, taken, kept, same, counts)
        ([], refused, split, many, queues, ends, dropped, handlers) =
      (
        [],
        request ∷ refused,
        ap (◌∷◌ request) split,
        omega (arith, none_left),
        λ q. queues q ∙ ap (λ l. l ++ []) (kept q),
        ap (λ o. o ∷ outcomes) taken
            ∙ ap (◌∷◌ (refusal b.overflow_policy)) ends
            ∙ ap (λ p. refusal b.overflow_policy ∷ map (λ _. refusal p) refused) like.policy,
        dropped
            ∙ ap (λ n. u64 (n + counted b₁.overflow_policy (length refused))) counts
            ∙ ap
                (λ p. u64 (
                  u64 (b.dropped_deferred_count + counted b.overflow_policy 1)
                  + counted p (length refused)))
                like.policy
            ∙ counted_next b.overflow_policy b.dropped_deferred_count (length refused),
        handlers ∙ like.handlers,
      )
  Enqueued-Refused b request rest b₁ b₂ outcome outcomes none_left (like, taken, kept, same, counts)
        (x ∷ accepted, refused, split, many, queues, ends, dropped, handlers) =
      absurd (omega (arith, none_left, many, same, like.capacity))

  enqueue_each-Enqueued :
      (requests : List (String × P × DeferredPriority)) (b : EventBus H P)
      → b.dropped_deferred_count < 18446744073709551616
      → Enqueued requests b (enqueue_each requests b)
  enqueue_each-Enqueued [] b small = (
    [],
    [],
    refl,
    omega arith,
    λ q. sym (append-nil (queue_of b q)),
    refl,
    unchanged b.overflow_policy,
    refl,
  )
    where
      unchanged :
          (policy : DeferredOverflowPolicy)
          → b.dropped_deferred_count ≡ u64 (b.dropped_deferred_count + counted policy 0)
      unchanged drop_newest = omega (arith, small)
      unchanged fail_fast = omega (arith, small)
      unchanged backpressure_signaling = omega (arith, small)
  enqueue_each-Enqueued ((event_type, payload, priority) ∷ rest) b small =
      let request : String × P × DeferredPriority = (event_type, payload, priority) in
      let step = enqueue_deferred b event_type payload priority in
      let later = enqueue_each-Enqueued rest step.0 in
      elim (room_cases (deferred_count b) b.deferred_capacity) [
        | inl room ↦
            let h = enqueue-Accepted b event_type payload priority room in
            let (_, _, _, _, _, same) = h in
            Enqueued-Accepted b request rest step.0 (enqueue_each rest step.0).0 step.1
              (enqueue_each rest step.0).1 room h (later (omega (arith, same, small)))
        | inr none_left ↦
            let h = enqueue-Refused b event_type payload priority small none_left in
            let (_, _, _, _, counts) = h in
            Enqueued-Refused b request rest step.0 (enqueue_each rest step.0).0 step.1
              (enqueue_each rest step.0).1 none_left h (later (omega (arith, counts)))
      ]

  -- Of the events that are enqueued one after another, the first ones are accepted, exactly as many
  -- as there is room for, and all the others are refused. Each queue keeps what it held and grows at
  -- its end by the accepted events of its class, in their order and with consecutive sequence
  -- numbers (modulo 2^64). The callers see `true` for the accepted ones, and for the others what the
  -- policy says: an exception, or `false`; only a bus that drops the newest counts the refused ones
  -- (modulo 2^64). The number of dropped events is a 64-bit one before, and the handlers stay.
  pub enqueue_each_lem :
      (b : EventBus H P) (requests : List (String × P × DeferredPriority))
      → b.dropped_deferred_count < 18446744073709551616
      → let (b', outcomes) = enqueue_each requests b in
        (accepted : List (String × P × DeferredPriority)) × (refused : List
          (String × P × DeferredPriority))
        × (requests ≡ accepted ++ refused)
        × (length accepted ≡ min (length requests) (b.deferred_capacity - deferred_count b))
        × ((q : DeferredPriority)
            → queue_of b' q ≡ queue_of b q ++ numbered q b.next_deferred_sequence accepted)
        × (outcomes
            ≡ map (λ _. returned true) accepted ++ map (λ _. refusal b.overflow_policy) refused)
        × (b'.dropped_deferred_count
            ≡ u64 (b.dropped_deferred_count + counted b.overflow_policy (length refused)))
        × (b'.handlers ≡ b.handlers)
  enqueue_each_lem b requests small = enqueue_each-Enqueued requests b small
