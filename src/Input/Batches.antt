-- ===== src/Input/Batches.antt =====
-- The queues of the input runtime: a batch is normalized as a whole, and dispatched in its order.
use framekit.Base.{
  ℕ, ◌+◌, ◌≡◌, refl, ap, sym, ◌∙◌, ◌⊎◌, inl, inr, Bool, true, false, ◌||◌, List, [], ◌∷◌, ◌++◌,
  Option, none, some, any, arith, option_cases,
}
use mathlib.Core.List.{append_assoc, append-nil}
use framekit.Input.{
  RawInputEvent, NormalizedInputEvent, Normalizer, InputDispatchResult, InputRouter,
}
use framekit.Input.Routing.{no_result, route}
use framekit.Input.Pending.{
  InputRoutingRuntime, normalize_all, normalize_with, take_normalized, normalize_pending, route_all,
  dispatch_pending,
}

abbrev pub delivered : List InputDispatchResult → ℕ
delivered [] = 0
delivered (x ∷ xs) = x.delivered_handlers + delivered xs

abbrev pub dropped : List InputDispatchResult → ℕ
dropped [] = 0
dropped (x ∷ xs) = x.dropped_events + dropped xs

module _ {F : Type 0} (normalize : Normalizer F) where
  -- `events` are the normal forms of `raws`, one for one and in the same order.
  pub data Normalized : List (RawInputEvent F) → List (NormalizedInputEvent F) → Type 0 where
    finished : Normalized [] []
    one :
        {raw : RawInputEvent F} {event : NormalizedInputEvent F} {raws : List (RawInputEvent F)}
        {events : List (NormalizedInputEvent F)}
        → normalize raw ≡ some event
        → Normalized raws events
        → Normalized (raw ∷ raws) (event ∷ events)

  -- What the loop returns, after the events that it has already.
  abbrev Collected :
      List (NormalizedInputEvent F)
      → List (RawInputEvent F)
      → Option (List (NormalizedInputEvent F))
      → Type 0
  Collected start raws result =
      ((events : List (NormalizedInputEvent F)) × (result ≡ some (start ++ events))
        × Normalized raws events)
      ⊎ ((before : List (RawInputEvent F)) × (bad : RawInputEvent F) × (after : List
            (RawInputEvent F))
          × (raws ≡ before ++ bad ∷ after)
          × (normalize bad ≡ none)
          × (result ≡ none))

  normalize_all-Collected :
      (start : List (NormalizedInputEvent F)) (raws : List (RawInputEvent F))
      → Collected start raws (normalize_all normalize start raws)
  unfolding normalize_all
  normalize_all-Collected start [] = inl ([], ap some (sym (append-nil start)), finished)
  normalize_all-Collected start (raw ∷ raws) =
      option_cases (Collected start (raw ∷ raws)) (normalize raw)
        (λ bad. inr ([], raw, raws, refl, bad, refl))
        (λ event good. elim (normalize_all-Collected (start ++ event ∷ []) raws) [
          | inl (events, same, normal) ↦ inl (
            event ∷ events,
            same ∙ ap some (append_assoc start (event ∷ []) events),
            one good normal,
          )
          | inr (before, bad, after, split, fails, same) ↦
              inr (raw ∷ before, bad, after, ap (◌∷◌ raw) split, fails, same)
        ])

module _ {H F : Type 0} where
  -- What `NormalizePending` leaves, by the normalizer.
  abbrev pub Batch :
      InputRoutingRuntime H F → Option (Normalizer F) → InputRoutingRuntime H F × Bool → Type 0
  Batch r none outcome = outcome ≡ (record r { last_error = "input normalizer is not set" }, false)
  Batch r (some normalize) (r', done) =
      ((events : List (NormalizedInputEvent F)) × Normalized normalize r.raw_queue events
        × (done ≡ true)
        × (r' ≡ record r {
          raw_queue = [];
          normalized_queue = r.normalized_queue ++ events;
          last_error = "";
        }))
      ⊎ ((before : List (RawInputEvent F)) × (bad : RawInputEvent F) × (after : List
            (RawInputEvent F))
          × (r.raw_queue ≡ before ++ bad ∷ after)
          × (normalize bad ≡ none)
          × (done ≡ false)
          × (r' ≡ record r { last_error = "failed to normalize raw input event" }))

  normalize_with-Batch :
      (r : InputRoutingRuntime H F) (normalizer : Option (Normalizer F))
      → Batch r normalizer (normalize_with r normalizer)
  unfolding normalize_with take_normalized
  normalize_with-Batch r none = refl
  normalize_with-Batch r (some normalize) =
      elim (normalize_all-Collected normalize [] r.raw_queue) [
        | inl (events, same, normal) ↦ inl (events, normal, rw same refl, rw same refl)
        | inr (before, bad, after, split, fails, same) ↦
            inr (before, bad, after, split, fails, rw same refl, rw same refl)
      ]

  -- Pending input is normalized as a batch: if there is a normalizer and it accepts every raw event,
  -- the raw queue is emptied and the normal forms go, one for one and in order, to the end of the
  -- normalized queue; otherwise nothing changes but the error text.
  pub normalize_pending-Batch :
      (r : InputRoutingRuntime H F) → Batch r r.normalizer (normalize_pending r)
  unfolding normalize_pending
  normalize_pending-Batch r = normalize_with-Batch r r.normalizer

module _ {H F W : Type 0} (invoke : H → NormalizedInputEvent F → W → W × Bool) where
  -- The results of routing a list of events one after the other, and the world afterwards.
  pub routed : InputRouter H → List (NormalizedInputEvent F) → W → List InputDispatchResult × W
  routed router [] w = ([], w)
  routed router (event ∷ rest) w =
      let (result, w') = route invoke router event w in
      let (results, w'') = routed router rest w' in (result ∷ results, w'')

  route_all_lem :
      (router : InputRouter H) (events : List (NormalizedInputEvent F))
      (start : InputDispatchResult) (w : W)
      → let (results, w') = routed router events w in
        let (total, w'') = route_all invoke router events start w in
        (total.delivered_handlers ≡ start.delivered_handlers + delivered results)
        × (total.dropped_events ≡ start.dropped_events + dropped results)
        × (total.consumed ≡ (start.consumed || any (λ x. x.consumed) results))
        × (w'' ≡ w')
  unfolding route_all routed any
  route_all_lem router [] start w = (omega arith, omega arith, ground arith, refl)
  route_all_lem router (event ∷ rest) start w =
      let (result, w') = route invoke router event w in
      let (d, o, c, same) =
        route_all_lem router rest
          (record {
            delivered_handlers = start.delivered_handlers + result.delivered_handlers;
            dropped_events = start.dropped_events + result.dropped_events;
            consumed = start.consumed || result.consumed;
          })
          w' in
      (omega (arith, d), omega (arith, o), ground (arith, c), same)

  -- The dispatch of the pending input routes the events of the queue in its order, one after the
  -- other, empties the queue, and returns the sums of the calls and of the dropped events, and
  -- whether any of the events was consumed.
  pub dispatch_pending_lem :
      (r : InputRoutingRuntime H F) (w : W)
      → let (results, w') = routed r.router r.normalized_queue w in
        let (r', total, w'') = dispatch_pending invoke r w in
        (r' ≡ record r { normalized_queue = [] })
        × (total.delivered_handlers ≡ delivered results)
        × (total.dropped_events ≡ dropped results)
        × (total.consumed ≡ any (λ x. x.consumed) results)
        × (w'' ≡ w')
  unfolding dispatch_pending
  dispatch_pending_lem r w =
      let (d, o, c, same) = route_all_lem r.router r.normalized_queue no_result w in
      (refl, omega (arith, d), omega (arith, o), c, same)
