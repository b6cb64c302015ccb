-- ===== src/Events/Delivery.antt =====
-- Who gets an event: consumption, and the monitors that it does not stop.
use framekit.Base.{
  ◌≡◌, refl, ap, sym, ◌∙◌, ◌⊎◌, inl, inr, true, false, not, ◌&&◌, ◌||◌, String, List, [], ◌∷◌, ◌++◌,
  if◌then◌else◌, Bool-cases, arith, remove_if,
}
use framekit.Events.{EventBus, EventContext, HandlerEntry, snapshot_handlers}
use framekit.Events.Dispatch.{
  Reaction, Dispatching, call_handler, dispatch_loop, dispatch_immediate,
}

abbrev pub monitors : {H : Type 0} → List (HandlerEntry H) → List (HandlerEntry H)
monitors = remove_if (λ e. not e.monitor)

module _ {H P W : Type 0} where
  -- The state in which `DispatchImmediate` enters its loop.
  abbrev pub fresh_dispatch : EventBus H P → W → String → P → Dispatching H P W
  fresh_dispatch b w event_type payload = record {
    context = record { event_type = event_type; payload = payload; consumed = false };
    had_handlers = false;
    bus = b;
    world = w;
  }

module _ {H P W : Type 0} (invoke : H → EventContext P → EventBus H P → W → Reaction H P W) where
  -- The calls of all the handlers of a list, in its order.
  pub call_all : List (HandlerEntry H) → Dispatching H P W → Dispatching H P W
  call_all [] s = s
  call_all (e ∷ rest) s = call_all rest (call_handler invoke e s)

  call-monitor :
      (e : HandlerEntry H) (s : Dispatching H P W)
      → e.monitor ≡ true
      → (call_handler invoke e s).context.consumed ≡ s.context.consumed
  unfolding call_handler
  call-monitor e s m =
      ap
        (λ b.
          if b
          then s.context.consumed
          else s.context.consumed || (invoke e.handler s.context s.bus s.world).consumes)
        m

  -- One step of the loop, by its test.
  step-called :
      (e : HandlerEntry H) (rest : List (HandlerEntry H)) (s : Dispatching H P W)
      → s.context.consumed && not e.monitor ≡ false
      → dispatch_loop invoke (e ∷ rest) s ≡ dispatch_loop invoke rest (call_handler invoke e s)
  unfolding dispatch_loop
  step-called e rest s h =
      ap (λ b. dispatch_loop invoke rest (if b then s else call_handler invoke e s)) h

  step-skipped :
      (e : HandlerEntry H) (rest : List (HandlerEntry H)) (s : Dispatching H P W)
      → s.context.consumed && not e.monitor ≡ true
      → dispatch_loop invoke (e ∷ rest) s ≡ dispatch_loop invoke rest s
  unfolding dispatch_loop
  step-skipped e rest s h =
      ap (λ b. dispatch_loop invoke rest (if b then s else call_handler invoke e s)) h

  monitors-kept :
      (e : HandlerEntry H) (rest : List (HandlerEntry H))
      → e.monitor ≡ true
      → monitors (e ∷ rest) ≡ e ∷ monitors rest
  unfolding remove_if
  monitors-kept e rest m = ap (λ b. if not b then monitors rest else e ∷ monitors rest) m

  monitors-left :
      (e : HandlerEntry H) (rest : List (HandlerEntry H))
      → e.monitor ≡ false
      → monitors (e ∷ rest) ≡ monitors rest
  unfolding remove_if
  monitors-left e rest m = ap (λ b. if not b then monitors rest else e ∷ monitors rest) m

  -- Once the event is consumed, only the monitors that are left are called, and it stays consumed.
  abbrev Observed : List (HandlerEntry H) → Dispatching H P W → Type 0
  Observed entries s =
      (dispatch_loop invoke entries s ≡ call_all (monitors entries) s)
      × ((dispatch_loop invoke entries s).context.consumed ≡ true)

  consumed-monitors :
      (entries : List (HandlerEntry H)) (s : Dispatching H P W)
      → s.context.consumed ≡ true
      → Observed entries s
  unfolding call_all
  consumed-monitors [] s h = unfold dispatch_loop remove_if in (refl, h)
  consumed-monitors (e ∷ rest) s h = elim (Bool-cases e.monitor) [
    | inl m ↦
        let (same, still) =
          consumed-monitors rest (call_handler invoke e s) (call-monitor e s m ∙ h) in
        let step = step-called e rest s (ground arith) in
        (
          step ∙ same ∙ sym (ap (λ l. call_all l s) (monitors-kept e rest m)),
          ap (λ (t : Dispatching H P W). t.context.consumed) step ∙ still,
        )
    | inr n ↦
        let (same, still) = consumed-monitors rest s h in
        let step = step-skipped e rest s (ground arith) in
        (
          step ∙ same ∙ sym (ap (λ l. call_all l s) (monitors-left e rest n)),
          ap (λ (t : Dispatching H P W). t.context.consumed) step ∙ still,
        )
  ]

  -- What the loop over a snapshot comes to while the event is not consumed: either every handler is
  -- called, and the event stays unconsumed; or the handlers in front of some non-monitor are called,
  -- and then that one, which consumes the event, and then the monitors among the rest.
  abbrev pub Delivered : List (HandlerEntry H) → Dispatching H P W → Type 0
  Delivered entries s =
      ((dispatch_loop invoke entries s ≡ call_all entries s)
        × ((call_all entries s).context.consumed ≡ false))
      ⊎ ((before : List (HandlerEntry H)) × (e : HandlerEntry H) × (after : List (HandlerEntry H))
          × (entries ≡ before ++ e ∷ after)
          × (e.monitor ≡ false)
          × ((call_all before s).context.consumed ≡ false)
          × ((call_handler invoke e (call_all before s)).context.consumed ≡ true)
          × (dispatch_loop invoke entries s
              ≡ call_all (monitors after) (call_handler invoke e (call_all before s)))
          × ((dispatch_loop invoke entries s).context.consumed ≡ true))

  not-monitor :
      (e : HandlerEntry H) (s : Dispatching H P W)
      → s.context.consumed ≡ false
      → (call_handler invoke e s).context.consumed ≡ true
      → e.monitor ≡ false
  unfolding call_handler
  not-monitor e s h c = ground arith

  dispatch_loop-Delivered :
      (entries : List (HandlerEntry H)) (s : Dispatching H P W)
      → s.context.consumed ≡ false
      → Delivered entries s
  unfolding call_all
  dispatch_loop-Delivered [] s h = inl (unfold dispatch_loop in refl, h)
  dispatch_loop-Delivered (e ∷ rest) s h =
      elim (Bool-cases (call_handler invoke e s).context.consumed) [
        | inl c ↦
            let (same, still) = consumed-monitors rest (call_handler invoke e s) c in
            inr (
              [],
              e,
              rest,
              refl,
              not-monitor e s h c,
              h,
              c,
              step-called e rest s (ground arith) ∙ same,
              ap (λ (t : Dispatching H P W). t.context.consumed)
                    (step-called e rest s (ground arith))
                  ∙ still,
            )
        | inr n ↦ elim (dispatch_loop-Delivered rest (call_handler invoke e s) n) [
          | inl (same, still) ↦ inl (step-called e rest s (ground arith) ∙ same, still)
          | inr (before, x, after, split, m, u, c, same, still) ↦ inr (
            e ∷ before,
            x,
            after,
            ap (◌∷◌ e) split,
            m,
            u,
            c,
            step-called e rest s (ground arith) ∙ same,
            ap (λ (t : Dispatching H P W). t.context.consumed) (step-called e rest s (ground arith))
                ∙ still,
          )
        ]
      ]

  -- An immediate dispatch delivers the event to the handlers of the snapshot taken at the call,
  -- whatever they do to the bus: to all of them if nobody consumes it, and otherwise to those up to
  -- the first non-monitor that consumes it and to the monitors behind that one. The result says
  -- whether the event was consumed, and the bus and the world are those that the last call left.
  pub dispatch_immediate-Delivered :
      (b : EventBus H P) (w : W) (event_type : String) (payload : P)
      → let entries = snapshot_handlers b event_type in
        let s = fresh_dispatch b w event_type payload in
        let (b', w', result) = dispatch_immediate invoke b w event_type payload in
        Delivered entries s
        × (result.consumed ≡ (dispatch_loop invoke entries s).context.consumed)
        × (b' ≡ (dispatch_loop invoke entries s).bus)
        × (w' ≡ (dispatch_loop invoke entries s).world)
  unfolding dispatch_immediate
  dispatch_immediate-Delivered b w event_type payload =
      (dispatch_loop-Delivered _ _ refl, refl, refl, refl)
