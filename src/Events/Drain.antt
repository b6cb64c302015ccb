-- ===== src/Events/Drain.antt =====
-- `DrainDeferred`: which events are taken, in which order, and how many.
use mathlib.Core.List.{append_assoc, append-nil}
use framekit.Base.{
  ℕ, zero, suc, ◌+◌, ◌-◌, ◌≤◌, ◌<◌, min, ◌≡◌, refl, ap, sym, subst, ◌∙◌, ◌⊎◌, inl, inr, Bool, true,
  false, List, [], ◌∷◌, ◌++◌, length, length-append, take, drop, if_cases, leb, ltb, ◌==◌, nat_eq,
  arith,
}
use framekit.Events.{DeferredEvent}
use framekit.Events.Dispatch.{
  Draining, pop_event, pop_high, pop_normal, pop_low, drain_round, drain_loop,
}

module _ {A : Type 0} where
  take_all : (n : ℕ) (xs : List A) → length xs ≤ n → take n xs ≡ xs
  take_all zero [] h = refl
  take_all zero (x ∷ xs) h = absurd (omega (arith, h))
  take_all (suc n) [] h = refl
  take_all (suc n) (x ∷ xs) h = ap (◌∷◌ x) (take_all n xs (omega (arith, h)))

  take_full : (n : ℕ) (xs ys : List A) → length xs ≡ n → take n (xs ++ ys) ≡ xs
  take_full zero [] ys h = refl
  take_full zero (x ∷ xs) ys h = absurd (omega (arith, h))
  take_full (suc n) [] ys h = absurd (omega (arith, h))
  take_full (suc n) (x ∷ xs) ys h = ap (◌∷◌ x) (take_full n xs ys (omega (arith, h)))

  pub length-take : (n : ℕ) (xs : List A) → length (take n xs) ≡ min n (length xs)
  length-take zero xs = omega arith
  length-take (suc n) [] = omega arith
  length-take (suc n) (x ∷ xs) = omega (arith, length-take n xs)

  length-take-one : (xs : List A) → length (take 1 xs) ≤ 1
  length-take-one [] = omega arith
  length-take-one (x ∷ xs) = omega arith

  pub length-take-drop : (xs : List A) → length (take 1 xs) + length (drop 1 xs) ≡ length xs
  length-take-drop [] = omega arith
  length-take-drop (x ∷ xs) = omega arith

  -- One from the front of each list in turn, round by round.
  pub round_robin : (rounds : ℕ) → List A → List A → List A → List A
  round_robin zero xs ys zs = []
  round_robin (suc n) xs ys zs =
      (take 1 xs ++ (take 1 ys ++ take 1 zs)) ++ round_robin n (drop 1 xs) (drop 1 ys) (drop 1 zs)

  length-drop-one : (xs : List A) → length (drop 1 xs) ≡ length xs - 1
  length-drop-one [] = omega arith
  length-drop-one (x ∷ xs) = omega arith

  pub length-round_robin :
      (n : ℕ) (xs ys zs : List A)
      → length xs + length ys + length zs ≤ n
      → length (round_robin n xs ys zs) ≡ length xs + length ys + length zs
  unfolding round_robin
  length-round_robin zero xs ys zs h = omega (arith, h)
  length-round_robin (suc n) xs ys zs h = omega (
    arith,
    h,
    length-append (take 1 xs ++ (take 1 ys ++ take 1 zs))
        (round_robin n (drop 1 xs) (drop 1 ys) (drop 1 zs)),
    length-append (take 1 xs) (take 1 ys ++ take 1 zs),
    length-append (take 1 ys) (take 1 zs),
    length-take-drop xs,
    length-take-drop ys,
    length-take-drop zs,
    length-round_robin n (drop 1 xs) (drop 1 ys) (drop 1 zs)
        (omega (arith, h, length-drop-one xs, length-drop-one ys, length-drop-one zs)),
  )

  empty_rounds : (n : ℕ) → round_robin n [] [] [] ≡ []
  unfolding round_robin
  empty_rounds zero = refl
  empty_rounds (suc n) = empty_rounds n

module _ {P : Type 0} (max_events : ℕ) where
  abbrev state : (t h n l : List (DeferredEvent P)) → Draining P
  state t h n l = record { taken = t; high_left = h; normal_left = n; low_left = l }

  pop_event-room :
      (t q : List (DeferredEvent P))
      → length t < max_events
      → pop_event max_events t q ≡ (t ++ take 1 q, drop 1 q)
  unfolding pop_event
  pop_event-room t [] h = ap (λ s. (s, [])) (sym (append-nil t))
  pop_event-room t (x ∷ q) h = ground arith

  -- The three queues after a whole round.
  abbrev heads : (h n l : List (DeferredEvent P)) → List (DeferredEvent P)
  heads h n l = take 1 h ++ (take 1 n ++ take 1 l)

  -- A round either reaches the limit, or takes one from each queue.
  abbrev Rounded : (t h n l : List (DeferredEvent P)) → Draining P → Type 0
  Rounded t h n l d =
      ((length d.taken ≡ max_events)
        × (more : List (DeferredEvent P)) × (t ++ heads h n l ≡ d.taken ++ more))
      ⊎ ((length (t ++ heads h n l) ≤ max_events)
          × (d ≡ state (t ++ heads h n l) (drop 1 h) (drop 1 n) (drop 1 l)))

  pop_high-room :
      (t h n l : List (DeferredEvent P))
      → length t < max_events
      → pop_high max_events (state t h n l) ≡ state (t ++ take 1 h) (drop 1 h) n l
  unfolding pop_high
  pop_high-room t h n l room = ap (λ p. state p.0 p.1 n l) (pop_event-room t h room)

  pop_normal-room :
      (t h n l : List (DeferredEvent P))
      → length t < max_events
      → pop_normal max_events (state t h n l) ≡ state (t ++ take 1 n) h (drop 1 n) l
  unfolding pop_normal
  pop_normal-room t h n l room = ap (λ p. state p.0 h p.1 l) (pop_event-room t n room)

  pop_low-room :
      (t h n l : List (DeferredEvent P))
      → length t < max_events
      → pop_low max_events (state t h n l) ≡ state (t ++ take 1 l) h n (drop 1 l)
  unfolding pop_low
  pop_low-room t h n l room = ap (λ p. state p.0 h n p.1) (pop_event-room t l room)

  -- The test on the number of events taken, by what was taken.
  test_at :
      (d e : Draining P) (b : Bool)
      → d ≡ e
      → leb max_events (length d.taken) ≡ b
      → leb max_events (length e.taken) ≡ b
  test_at d e b same h = sym (ap (λ (x : Draining P). leb max_events (length x.taken)) same) ∙ h

  one_more :
      (t q : List (DeferredEvent P)) → length t < max_events → length (t ++ take 1 q) ≤ max_events
  one_more t q room = omega (arith, room, length-append t (take 1 q), length-take-one q)

  reached :
      (t q : List (DeferredEvent P))
      → length t < max_events
      → leb max_events (length (t ++ take 1 q)) ≡ true
      → length (t ++ take 1 q) ≡ max_events
  reached t q room full = ground (arith, full, one_more t q room)

  still_room :
      (t : List (DeferredEvent P)) → leb max_events (length t) ≡ false → length t < max_events
  still_room t h = ground (arith, h)

  regroup : (t x y z : List (DeferredEvent P)) → t ++ (x ++ (y ++ z)) ≡ ((t ++ x) ++ y) ++ z
  regroup t x y z = sym (append_assoc (t ++ x) y z ∙ append_assoc t x (y ++ z))

  drain_round-Rounded :
      (t h n l : List (DeferredEvent P))
      → length t < max_events
      → Rounded t h n l (drain_round max_events (state t h n l))
  unfolding drain_round
  drain_round-Rounded t h n l room =
      let e₁ = pop_high-room t h n l room in
      let d₁ = pop_high max_events (state t h n l) in
      let t₁ = t ++ take 1 h in
      if_cases (Rounded t h n l) (leb max_events (length d₁.taken))
        (λ full. subst (Rounded t h n l) (sym e₁) (
          inl (
            reached t h room (test_at d₁ _ true e₁ full),
            take 1 n ++ take 1 l,
            sym (append_assoc t (take 1 h) (take 1 n ++ take 1 l)),
          )))
        (λ left.
          let room₁ = still_room t₁ (test_at d₁ _ false e₁ left) in
          let e₂ = ap (pop_normal max_events) e₁ ∙ pop_normal-room t₁ (drop 1 h) n l room₁ in
          let d₂ = pop_normal max_events d₁ in
          if_cases (Rounded t h n l) (leb max_events (length d₂.taken))
            (λ full. subst (Rounded t h n l) (sym e₂) (
              inl (
                reached t₁ n room₁ (test_at d₂ _ true e₂ full),
                take 1 l,
                regroup t (take 1 h) (take 1 n) (take 1 l),
              )))
            (λ left₂.
              let room₂ = still_room (t₁ ++ take 1 n) (test_at d₂ _ false e₂ left₂) in
              let e₃ =
                ap (pop_low max_events) e₂
                ∙ pop_low-room (t₁ ++ take 1 n) (drop 1 h) (drop 1 n) l room₂ in
              let same = regroup t (take 1 h) (take 1 n) (take 1 l) in
              inr (
                subst (λ x. length x ≤ max_events) (sym same) (one_more (t₁ ++ take 1 n) l room₂),
                e₃ ∙ ap (λ x. state x (drop 1 h) (drop 1 n) (drop 1 l)) (sym same),
              )))

  abbrev total : (h n l : List (DeferredEvent P)) → ℕ
  total h n l = length h + length n + length l

  no_heads :
      (fuel : ℕ) (h n l : List (DeferredEvent P))
      → length (heads h n l) ≡ 0
      → (heads h n l ≡ []) × (heads h n l ++ round_robin fuel (drop 1 h) (drop 1 n) (drop 1 l) ≡ [])
  no_heads fuel [] [] [] none_left = (refl, empty_rounds fuel)
  no_heads fuel [] [] (x ∷ l) none_left = absurd (omega (arith, none_left))
  no_heads fuel [] (x ∷ n) l none_left = absurd (omega (arith, none_left))
  no_heads fuel (x ∷ h) n l none_left = absurd (omega (arith, none_left))

  idle_round :
      (fuel : ℕ) (t h n l : List (DeferredEvent P)) (d : Draining P)
      → length t ≤ max_events
      → ltb (length t) max_events ≡ true
      → (length d.taken == length t) ≡ true
      → Rounded t h n l d
      → d.taken
        ≡ take max_events (t ++ (heads h n l ++ round_robin fuel (drop 1 h) (drop 1 n) (drop 1 l)))
  idle_round fuel t h n l d fits room idle (inl (reached_limit, _, _)) =
      absurd (ground (arith, room, idle, reached_limit))
  idle_round fuel t h n l d fits room idle (inr (_, same)) =
      let taken_same = ap (λ (x : Draining P). x.taken) same in
      let (no_head, no_rest) =
        no_heads fuel h n l
          (ground (arith, idle, ap length taken_same, length-append t (heads h n l))) in
      taken_same
      ∙ ap (λ x. t ++ x) no_head
      ∙ append-nil t
      ∙ sym (
          ap (λ x. take max_events (t ++ x)) no_rest
          ∙ ap (take max_events) (append-nil t)
          ∙ take_all max_events t fits)

  drain_loop-full :
      (fuel : ℕ) (d : Draining P) → length d.taken ≡ max_events → drain_loop fuel max_events d ≡ d
  unfolding drain_loop
  drain_loop-full zero d full = refl
  drain_loop-full (suc fuel) d full =
      if_cases (λ (x : Draining P). x ≡ d) (ltb (length d.taken) max_events)
        (λ room. absurd (ground (arith, room, full))) (λ _. refl)

  limit_round :
      (fuel : ℕ) (t h n l : List (DeferredEvent P)) (d : Draining P) (more : List (DeferredEvent P))
      → length d.taken ≡ max_events
      → t ++ heads h n l ≡ d.taken ++ more
      → (drain_loop fuel max_events d).taken
        ≡ take max_events (t ++ (heads h n l ++ round_robin fuel (drop 1 h) (drop 1 n) (drop 1 l)))
  limit_round fuel t h n l d more full split =
      let rest = round_robin fuel (drop 1 h) (drop 1 n) (drop 1 l) in
      ap (λ (x : Draining P). x.taken) (drain_loop-full fuel d full)
      ∙ sym (
          ap (take max_events) (
            sym (append_assoc t (heads h n l) rest)
            ∙ ap (λ x. x ++ rest) split
            ∙ append_assoc d.taken more rest)
          ∙ take_full max_events d.taken (more ++ rest) full)

  fewer_left :
      (fuel : ℕ) (t h n l : List (DeferredEvent P)) (d : Draining P)
      → (length d.taken == length t) ≡ false
      → d ≡ state (t ++ heads h n l) (drop 1 h) (drop 1 n) (drop 1 l)
      → total h n l < suc fuel
      → total (drop 1 h) (drop 1 n) (drop 1 l) < fuel
  fewer_left fuel t h n l d busy same enough = ground (
    arith,
    busy,
    ap (λ (x : Draining P). length x.taken) same,
    length-append t (heads h n l),
    length-append (take 1 h) (take 1 n ++ take 1 l),
    length-append (take 1 n) (take 1 l),
    length-take-drop h,
    length-take-drop n,
    length-take-drop l,
    enough,
  )

  -- The events taken are the first ones of the round robin, up to the limit.
  pub drain_loop-taken :
      (fuel : ℕ) (t h n l : List (DeferredEvent P))
      → length t ≤ max_events
      → total h n l < fuel
      → (drain_loop fuel max_events (state t h n l)).taken
        ≡ take max_events (t ++ round_robin fuel h n l)
  unfolding drain_loop round_robin
  drain_loop-taken zero t h n l fits enough = absurd (omega (arith, enough))
  drain_loop-taken (suc fuel) t h n l fits enough =
      let d' = drain_round max_events (state t h n l) in
      if_cases
        (λ (d : Draining P).
          d.taken
          ≡ take max_events
              (t ++ (heads h n l ++ round_robin fuel (drop 1 h) (drop 1 n) (drop 1 l))))
        (ltb (length t) max_events)
        (λ room.
          if_cases
            (λ (d : Draining P).
              d.taken
              ≡ take max_events
                  (t ++ (heads h n l ++ round_robin fuel (drop 1 h) (drop 1 n) (drop 1 l))))
            (length d'.taken == length t)
            (λ idle.
              idle_round fuel t h n l d' fits room idle
                (drain_round-Rounded t h n l (ground (arith, room))))
            (λ busy. elim (drain_round-Rounded t h n l (ground (arith, room))) [
              | inl (reached_limit, more, split) ↦
                  limit_round fuel t h n l d' more reached_limit split
              | inr (within, same) ↦
                  ap (λ (d : Draining P). (drain_loop fuel max_events d).taken) same
                  ∙ drain_loop-taken fuel (t ++ heads h n l) (drop 1 h) (drop 1 n) (drop 1 l) within
                      (fewer_left fuel t h n l d' busy same enough)
                  ∙ ap (take max_events) (append_assoc t (heads h n l) _)
            ]))
        (λ full. sym (take_full max_events t _ (ground (arith, full, fits))))
