-- ===== src/Events/Queue.antt =====
-- The deferred queues: where events go, and what a full queue does.
use mathlib.Core.List.{append-nil}
use framekit.Base.{
  ℕ, suc, ◌+◌, ◌≤◌, ◌<◌, ◌≡◌, refl, ap, sym, ◌∙◌, Bool, true, false, String, List, [], ◌∷◌, ◌++◌,
  length, length-append, u64, if◌then◌else◌, arith,
}
use framekit.Events.{
  EventBus, DeferredEvent, DeferredPriority, high, normal, low, DeferredOverflowPolicy, drop_newest,
  fail_fast, backpressure_signaling, EnqueueOutcome, returned, thrown, enqueue_deferred,
  deferred_count, is_queue_full, push_back, push_deferred, overflow,
}

module _ {A : Type 0} where
  grown :
      (x : A) (a b c : List A)
      → length (a ++ x ∷ []) + length b + length c ≡ suc (length a + length b + length c)
  grown x a b c = omega (arith, length-append a (x ∷ []))

  grown_middle :
      (x : A) (a b c : List A)
      → length a + length (b ++ x ∷ []) + length c ≡ suc (length a + length b + length c)
  grown_middle x a b c = omega (arith, length-append b (x ∷ []))

  grown_last :
      (x : A) (a b c : List A)
      → length a + length b + length (c ++ x ∷ []) ≡ suc (length a + length b + length c)
  grown_last x a b c = omega (arith, length-append c (x ∷ []))

abbrev same_class : DeferredPriority → DeferredPriority → Bool
same_class high high = true
same_class normal normal = true
same_class low low = true
same_class _ _ = false

-- What the caller of a full queue sees.
abbrev pub refusal : DeferredOverflowPolicy → EnqueueOutcome
refusal fail_fast = thrown "event bus deferred queue overflow"
refusal _ = returned false

-- How many of the refused events are counted as dropped.
abbrev pub counted : DeferredOverflowPolicy → (refused : ℕ) → ℕ
counted drop_newest refused = refused
counted _ refused = 0

module _ {P : Type 0} where
  -- The events of a class that are queued for a list of requests, numbered from `n` on (modulo 2^64).
  abbrev pub numbered :
      DeferredPriority → (n : ℕ) → List (String × P × DeferredPriority) → List (DeferredEvent P)
  numbered q n [] = []
  numbered q n ((event_type, payload, priority) ∷ rest) =
      if same_class q priority
      then record { event_type = event_type; payload = payload; priority = priority; sequence = n }
        ∷ numbered q (u64 (n + 1)) rest
      else numbered q (u64 (n + 1)) rest

  padded : (l : List (DeferredEvent P)) → l ≡ l ++ []
  padded l = sym (append-nil l)

module _ {H P : Type 0} where
  abbrev pub queue_of : EventBus H P → DeferredPriority → List (DeferredEvent P)
  queue_of b high = b.high_priority_queue
  queue_of b normal = b.normal_priority_queue
  queue_of b low = b.low_priority_queue

  not_full : (b : EventBus H P) → deferred_count b < b.deferred_capacity → is_queue_full b ≡ false
  unfolding is_queue_full
  not_full b h = ground arith

  full : (b : EventBus H P) → b.deferred_capacity ≤ deferred_count b → is_queue_full b ≡ true
  unfolding is_queue_full
  full b h = ground arith

  -- The calls of `EnqueueDeferred` for a list of requests, with what each call comes to.
  abbrev pub enqueue_each :
      List (String × P × DeferredPriority) → EventBus H P → EventBus H P × List EnqueueOutcome
  enqueue_each [] b = (b, [])
  enqueue_each ((event_type, payload, priority) ∷ rest) b =
      let (b', outcome) = enqueue_deferred b event_type payload priority in
      let (b'', outcomes) = enqueue_each rest b' in (b'', outcome ∷ outcomes)

  -- What a call leaves as it is, whether it is accepted or refused.
  pub record IsLike (b b' : EventBus H P) : Type 0 where
    pub capacity : b'.deferred_capacity ≡ b.deferred_capacity
    pub policy : b'.overflow_policy ≡ b.overflow_policy
    pub handlers : b'.handlers ≡ b.handlers

  IsLike-overflow :
      (b : EventBus H P) (policy : DeferredOverflowPolicy) → IsLike b (overflow b policy).0
  IsLike-overflow b fail_fast = record { capacity = refl; policy = refl; handlers = refl }
  IsLike-overflow b backpressure_signaling = record {
    capacity = refl;
    policy = refl;
    handlers = refl;
  }
  IsLike-overflow b drop_newest = record { capacity = refl; policy = refl; handlers = refl }

  abbrev pub Accepted :
      EventBus H P → String × P × DeferredPriority → EventBus H P × EnqueueOutcome → Type 0
  Accepted b request (b', outcome) =
      IsLike b b'
      × (outcome ≡ returned true)
      × ((q : DeferredPriority)
          → queue_of b' q ≡ queue_of b q ++ numbered q b.next_deferred_sequence (request ∷ []))
      × (deferred_count b' ≡ suc (deferred_count b))
      × (b'.next_deferred_sequence ≡ u64 (b.next_deferred_sequence + 1))
      × (b'.dropped_deferred_count ≡ b.dropped_deferred_count)

  abbrev pub Refused : EventBus H P → EventBus H P × EnqueueOutcome → Type 0
  Refused b (b', outcome) =
      IsLike b b'
      × (outcome ≡ refusal b.overflow_policy)
      × ((q : DeferredPriority) → queue_of b' q ≡ queue_of b q)
      × (deferred_count b' ≡ deferred_count b)
      × (b'.dropped_deferred_count ≡ u64 (b.dropped_deferred_count + counted b.overflow_policy 1))

  push_back-queue :
      (b : EventBus H P) (event : DeferredEvent P) (priority q : DeferredPriority)
      → queue_of (push_back b event priority) q
        ≡ queue_of b q ++ (if same_class q priority then event ∷ [] else [])
  push_back-queue b event high high = refl
  push_back-queue b event high normal = padded _
  push_back-queue b event high low = padded _
  push_back-queue b event normal high = padded _
  push_back-queue b event normal normal = refl
  push_back-queue b event normal low = padded _
  push_back-queue b event low high = padded _
  push_back-queue b event low normal = padded _
  push_back-queue b event low low = refl

  push_back-count :
      (b : EventBus H P) (event : DeferredEvent P) (priority : DeferredPriority)
      → deferred_count (push_back b event priority) ≡ suc (deferred_count b)
  unfolding deferred_count
  push_back-count b event high = grown _ _ _ _
  push_back-count b event normal = grown_middle _ _ _ _
  push_back-count b event low = grown_last _ _ _ _

  IsLike-push_back :
      (b : EventBus H P) (event : DeferredEvent P) (priority : DeferredPriority)
      → IsLike b (push_back b event priority)
        × ((push_back b event priority).next_deferred_sequence ≡ b.next_deferred_sequence)
        × ((push_back b event priority).dropped_deferred_count ≡ b.dropped_deferred_count)
  IsLike-push_back b event high =
      (record { capacity = refl; policy = refl; handlers = refl }, refl, refl)
  IsLike-push_back b event normal =
      (record { capacity = refl; policy = refl; handlers = refl }, refl, refl)
  IsLike-push_back b event low =
      (record { capacity = refl; policy = refl; handlers = refl }, refl, refl)

  pub enqueue-Accepted :
      (b : EventBus H P) (event_type : String) (payload : P) (priority : DeferredPriority)
      → deferred_count b < b.deferred_capacity
      → Accepted b (event_type, payload, priority) (enqueue_deferred b event_type payload priority)
  unfolding enqueue_deferred push_deferred deferred_count
  enqueue-Accepted b event_type payload priority h =
      let event : DeferredEvent P = record {
        event_type = event_type;
        payload = payload;
        priority = priority;
        sequence = b.next_deferred_sequence;
      } in
      let c : EventBus H P = record b {
        next_deferred_sequence = u64 (b.next_deferred_sequence + 1);
      } in
      let (like, next, dropped) = IsLike-push_back c event priority in
      rw (not_full b h) (
        record { capacity = like.capacity; policy = like.policy; handlers = like.handlers },
        refl,
        λ q.
            push_back-queue c event priority q
            ∙ ap (λ l. l ++ (if same_class q priority then event ∷ [] else [])) (same_queues q),
        push_back-count c event priority,
        next,
        dropped,
      )
    where
      same_queues :
          (q : DeferredPriority)
          → queue_of (record b { next_deferred_sequence = u64 (b.next_deferred_sequence + 1) }) q
            ≡ queue_of b q
      same_queues high = refl
      same_queues normal = refl
      same_queues low = refl

  dropped-queue :
      (b : EventBus H P) (n : ℕ) (q : DeferredPriority)
      → queue_of (record b { dropped_deferred_count = n }) q ≡ queue_of b q
  dropped-queue b n high = refl
  dropped-queue b n normal = refl
  dropped-queue b n low = refl

  overflow-Refused :
      (b : EventBus H P) (policy : DeferredOverflowPolicy)
      → b.dropped_deferred_count < 18446744073709551616
      → b.overflow_policy ≡ policy
      → Refused b (overflow b policy)
  unfolding deferred_count
  overflow-Refused b fail_fast small e = (
    IsLike-overflow b fail_fast,
    sym (ap refusal e),
    λ q. refl,
    refl,
    rw e (omega (arith, small)),
  )
  overflow-Refused b backpressure_signaling small e = (
    IsLike-overflow b backpressure_signaling,
    sym (ap refusal e),
    λ q. refl,
    refl,
    rw e (omega (arith, small)),
  )
  overflow-Refused b drop_newest small e = (
    IsLike-overflow b drop_newest,
    sym (ap refusal e),
    λ q. dropped-queue b (u64 (b.dropped_deferred_count + 1)) q,
    refl,
    rw e refl,
  )

  pub enqueue-Refused :
      (b : EventBus H P) (event_type : String) (payload : P) (priority : DeferredPriority)
      → b.dropped_deferred_count < 18446744073709551616
      → b.deferred_capacity ≤ deferred_count b
      → Refused b (enqueue_deferred b event_type payload priority)
  unfolding enqueue_deferred push_deferred
  enqueue-Refused b event_type payload priority small h =
      rw (full b h) (overflow-Refused b b.overflow_policy small refl)
