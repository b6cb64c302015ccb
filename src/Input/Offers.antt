-- ===== src/Input/Offers.antt =====
-- An event that is offered to handlers in their order: `RouteHandlers`.
use mathlib.Core.List.{append_assoc}
use framekit.Base.{
  ℕ, suc, ◌+◌, ◌≡◌, refl, ap, sym, ◌∙◌, ◌⊎◌, inl, inr, Bool, true, false, List, [], ◌∷◌, ◌++◌,
  length, length-append, subst, if_cases, true-ne-false, string_eq, arith,
}
use framekit.Input.{NormalizedInputEvent, InputDispatchResult, HandlerEntry}
use framekit.Input.Routing.{no_result, route_loop, route_handlers}

module _ {H F W : Type 0} (invoke : H → NormalizedInputEvent F → W → W × Bool)
    (event : NormalizedInputEvent F) where
  -- The calls of all the handlers of a list.
  pub call_all : List (HandlerEntry H) → W → W
  call_all [] w = w
  call_all (e ∷ rest) w = call_all rest (invoke e.handler event w).0

  -- None of the handlers consumes the event, when they are called in their order.
  abbrev pub AllPass : List (HandlerEntry H) → W → Type 0
  AllPass [] w = Unit
  AllPass (e ∷ rest) w =
      ((invoke e.handler event w).1 ≡ false) × AllPass rest (invoke e.handler event w).0

  abbrev pub Passed : ℕ → List (HandlerEntry H) → W → InputDispatchResult × W → Type 0
  Passed n handlers w (result, w') =
      (result.consumed ≡ false)
      × AllPass handlers w
      × (result.delivered_handlers ≡ n + length handlers)
      × (w' ≡ call_all handlers w)

  abbrev pub Consumed : ℕ → List (HandlerEntry H) → W → InputDispatchResult × W → Type 0
  Consumed n handlers w (result, w') =
      (before : List (HandlerEntry H)) × (e : HandlerEntry H) × (after : List (HandlerEntry H))
      × (handlers ≡ before ++ e ∷ after)
      × (result.consumed ≡ true)
      × AllPass before w
      × ((invoke e.handler event (call_all before w)).1 ≡ true)
      × (result.delivered_handlers ≡ n + suc (length before))
      × (w' ≡ (invoke e.handler event (call_all before w)).0)

  abbrev pub OfferedFrom : ℕ → List (HandlerEntry H) → W → InputDispatchResult × W → Type 0
  OfferedFrom n handlers w (result, w') =
      (result.dropped_events ≡ 0)
      × (Passed n handlers w (result, w') ⊎ Consumed n handlers w (result, w'))

  -- The event is offered to the handlers in their order, up to the first one that consumes it.
  abbrev pub Offered : List (HandlerEntry H) → W → InputDispatchResult × W → Type 0
  Offered = OfferedFrom 0

  Offered-cons :
      (n : ℕ) (e : HandlerEntry H) (rest : List (HandlerEntry H)) (w : W)
      (outcome : InputDispatchResult × W)
      → (invoke e.handler event w).1 ≡ false
      → OfferedFrom (n + 1) rest (invoke e.handler event w).0 outcome
      → OfferedFrom n (e ∷ rest) w outcome
  unfolding call_all
  Offered-cons n e rest w outcome passes (kept, inl (off, pass, count, same)) =
      (kept, inl (off, (passes, pass), omega (arith, count), same))
  Offered-cons n e rest w outcome passes
        (kept, inr (before, x, after, split, on, pass, takes, count, same)) =
      (
        kept,
        inr (
          e ∷ before,
          x,
          after,
          ap (◌∷◌ e) split,
          on,
          (passes, pass),
          takes,
          omega (arith, count),
          same,
        ),
      )

  route_loop-Offered :
      (handlers : List (HandlerEntry H)) (start : InputDispatchResult) (w : W)
      → start.consumed ≡ false
      → start.dropped_events ≡ 0
      → OfferedFrom start.delivered_handlers handlers w (route_loop invoke handlers event start w)
  unfolding route_loop call_all
  route_loop-Offered [] start w off kept = (kept, inl (off, tt, omega arith, refl))
  route_loop-Offered (e ∷ rest) start w off kept =
      if_cases (OfferedFrom start.delivered_handlers (e ∷ rest) w) (invoke e.handler event w).1
        (λ takes. (kept, inr ([], e, rest, refl, refl, tt, takes, omega arith, refl)))
        (λ passes. Offered-cons start.delivered_handlers e rest w _ passes (
          route_loop-Offered rest
            (record start { delivered_handlers = start.delivered_handlers + 1 })
            (invoke e.handler event w).0 off kept))

  pub route_handlers-Offered :
      (handlers : List (HandlerEntry H)) (w : W)
      → Offered handlers w (route_handlers invoke handlers event w)
  unfolding route_handlers
  route_handlers-Offered handlers w = route_loop-Offered handlers no_result w refl refl

  AllPass-append :
      (xs ys : List (HandlerEntry H)) (w : W)
      → AllPass xs w
      → AllPass ys (call_all xs w)
      → AllPass (xs ++ ys) w
  unfolding call_all
  AllPass-append [] ys w _ second = second
  AllPass-append (e ∷ xs) ys w (passes, first) second =
      (passes, AllPass-append xs ys (invoke e.handler event w).0 first second)

  call_all-append :
      (xs ys : List (HandlerEntry H)) (w : W) → call_all (xs ++ ys) w ≡ call_all ys (call_all xs w)
  unfolding call_all
  call_all-append [] ys w = refl
  call_all-append (e ∷ xs) ys w = call_all-append xs ys (invoke e.handler event w).0

  pub Offered-stopped :
      (xs ys : List (HandlerEntry H)) (w : W) (outcome : InputDispatchResult × W)
      → outcome.0.consumed ≡ true
      → Offered xs w outcome
      → Offered (xs ++ ys) w outcome
  Offered-stopped xs ys w outcome on (kept, inl (off, _, _, _)) =
      absurd (true-ne-false (sym on ∙ off))
  Offered-stopped xs ys w outcome on
        (kept, inr (before, e, after, split, on', pass, takes, count, same)) =
      (
        kept,
        inr (
          before,
          e,
          after ++ ys,
          ap (λ l. l ++ ys) split ∙ append_assoc before (e ∷ after) ys,
          on',
          pass,
          takes,
          count,
          same,
        ),
      )

  abbrev pub joined : InputDispatchResult → InputDispatchResult → InputDispatchResult
  joined result more = record {
    delivered_handlers = result.delivered_handlers + more.delivered_handlers;
    dropped_events = result.dropped_events + more.dropped_events;
    consumed = more.consumed;
  }

  pub Offered-joined :
      (xs ys : List (HandlerEntry H)) (w w₁ w₂ : W) (result more : InputDispatchResult)
      → result.consumed ≡ false
      → Offered xs w (result, w₁)
      → Offered ys w₁ (more, w₂)
      → Offered (xs ++ ys) w (joined result more, w₂)
  Offered-joined xs ys w w₁ w₂ result more off (kept, inr (_, _, _, _, on, _, _, _, _)) _ =
      absurd (true-ne-false (sym on ∙ off))
  Offered-joined xs ys w w₁ w₂ result more off (kept, inl (_, pass, count, same))
        (kept', inl (off', pass', count', same')) =
      (
        omega (arith, kept, kept'),
        inl (
          off',
          AllPass-append xs ys w pass (subst (AllPass ys) same pass'),
          omega (arith, count, count', length-append xs ys),
          same' ∙ ap (call_all ys) same ∙ sym (call_all-append xs ys w),
        ),
      )
  Offered-joined xs ys w w₁ w₂ result more off (kept, inl (_, pass, count, same))
        (kept', inr (before, e, after, split, on, pass', takes, count', same')) =
      let moved = ap (call_all before) same ∙ sym (call_all-append xs before w) in
      (
        omega (arith, kept, kept'),
        inr (
          xs ++ before,
          e,
          after,
          ap (λ l. xs ++ l) split ∙ sym (append_assoc xs before (e ∷ after)),
          on,
          AllPass-append xs before w pass (subst (AllPass before) same pass'),
          ap (λ v. (invoke e.handler event v).1) (sym moved) ∙ takes,
          omega (arith, count, count', length-append xs before),
          same' ∙ ap (λ v. (invoke e.handler event v).0) moved,
        ),
      )
