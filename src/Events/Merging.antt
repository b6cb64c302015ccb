-- ===== src/Events/Merging.antt =====
-- What draining takes from the queues: some first events of each, merged.
use mathlib.Core.List.{append_assoc, append-nil}
use framekit.Base.{
  ℕ, zero, suc, ◌≡◌, refl, sym, ap, ◌∙◌, List, [], ◌∷◌, ◌++◌, length, if_cases, leb, ltb, ◌==◌,
  nat_eq,
}
use framekit.Events.{DeferredEvent}
use framekit.Events.Dispatch.{
  Draining, pop_event, pop_high, pop_normal, pop_low, drain_round, drain_loop,
}

module _ {A : Type 0} where
  -- The last list is made of the others, each in its order.
  pub data Merge : (high normal low all : List A) → Type 0 where
    merged : Merge [] [] [] []
    high_first : {h n l t : List A} (x : A) → Merge h n l t → Merge (x ∷ h) n l (x ∷ t)
    normal_first : {h n l t : List A} (x : A) → Merge h n l t → Merge h (x ∷ n) l (x ∷ t)
    low_first : {h n l t : List A} (x : A) → Merge h n l t → Merge h n (x ∷ l) (x ∷ t)

  Merge-append :
      {h n l t h' n' l' t' : List A}
      → Merge h n l t
      → Merge h' n' l' t'
      → Merge (h ++ h') (n ++ n') (l ++ l') (t ++ t')
  Merge-append merged more = more
  Merge-append (high_first x first) more = high_first x (Merge-append first more)
  Merge-append (normal_first x first) more = normal_first x (Merge-append first more)
  Merge-append (low_first x first) more = low_first x (Merge-append first more)

  regrouped :
      (a b c all : List A) (mid : List A) → a ++ mid ≡ all → b ++ c ≡ mid → (a ++ b) ++ c ≡ all
  regrouped a b c all mid outer inner =
      append_assoc a b c ∙ ap (λ (x : List A). a ++ x) inner ∙ outer

module _ {P : Type 0} where
  -- What is taken on the way from one state of the draining to a later one: some of the first events
  -- of each queue, merged; the rest of the queues stays.
  pub record Leaves (d d' : Draining P) : Type 0 where
    pub high_front : List (DeferredEvent P)
    pub normal_front : List (DeferredEvent P)
    pub low_front : List (DeferredEvent P)
    pub events : List (DeferredEvent P)
    pub high_split : high_front ++ d'.high_left ≡ d.high_left
    pub normal_split : normal_front ++ d'.normal_left ≡ d.normal_left
    pub low_split : low_front ++ d'.low_left ≡ d.low_left
    pub merge : Merge high_front normal_front low_front events
    pub grown : d.taken ++ events ≡ d'.taken

  Leaves-refl : (d : Draining P) → Leaves d d
  Leaves-refl d = record {
    high_front = [];
    normal_front = [];
    low_front = [];
    events = [];
    high_split = refl;
    normal_split = refl;
    low_split = refl;
    merge = merged;
    grown = append-nil d.taken;
  }

  Leaves-trans : (a b c : Draining P) → Leaves a b → Leaves b c → Leaves a c
  Leaves-trans a b c h k = record {
    high_front = h.high_front ++ k.high_front;
    normal_front = h.normal_front ++ k.normal_front;
    low_front = h.low_front ++ k.low_front;
    events = h.events ++ k.events;
    high_split =
        regrouped h.high_front k.high_front c.high_left a.high_left b.high_left h.high_split
          k.high_split;
    normal_split =
        regrouped h.normal_front k.normal_front c.normal_left a.normal_left b.normal_left
          h.normal_split k.normal_split;
    low_split =
        regrouped h.low_front k.low_front c.low_left a.low_left b.low_left h.low_split k.low_split;
    merge = Merge-append h.merge k.merge;
    grown =
        sym (append_assoc a.taken h.events k.events)
        ∙ ap (λ (x : List (DeferredEvent P)). x ++ k.events) h.grown
        ∙ k.grown;
  }

  pop_high-Leaves : (max_events : ℕ) (d : Draining P) → Leaves d (pop_high max_events d)
  unfolding pop_high pop_event
  pop_high-Leaves max_events d =
      elim d.high_left
        as (λ q.
          Leaves (record d { high_left = q }) (pop_high max_events (record d { high_left = q }))) [
            | [] ↦ Leaves-refl _
            | x ∷ q ↦
                if_cases
                  (λ (r : List (DeferredEvent P) × List (DeferredEvent P)).
                    Leaves (record d { high_left = x ∷ q })
                      (record d { taken = r.0; high_left = r.1 }))
                  (leb max_events (length d.taken)) (λ _. Leaves-refl _)
                  (λ _. record {
                    high_front = x ∷ [];
                    normal_front = [];
                    low_front = [];
                    events = x ∷ [];
                    high_split = refl;
                    normal_split = refl;
                    low_split = refl;
                    merge = high_first x merged;
                    grown = refl;
                  })
          ]

  pop_normal-Leaves : (max_events : ℕ) (d : Draining P) → Leaves d (pop_normal max_events d)
  unfolding pop_normal pop_event
  pop_normal-Leaves max_events d =
      elim d.normal_left
        as (λ q.
          Leaves (record d { normal_left = q })
            (pop_normal max_events (record d { normal_left = q }))) [
              | [] ↦ Leaves-refl _
              | x ∷ q ↦
                  if_cases
                    (λ (r : List (DeferredEvent P) × List (DeferredEvent P)).
                      Leaves (record d { normal_left = x ∷ q })
                        (record d { taken = r.0; normal_left = r.1 }))
                    (leb max_events (length d.taken)) (λ _. Leaves-refl _)
                    (λ _. record {
                      high_front = [];
                      normal_front = x ∷ [];
                      low_front = [];
                      events = x ∷ [];
                      high_split = refl;
                      normal_split = refl;
                      low_split = refl;
                      merge = normal_first x merged;
                      grown = refl;
                    })
            ]

  pop_low-Leaves : (max_events : ℕ) (d : Draining P) → Leaves d (pop_low max_events d)
  unfolding pop_low pop_event
  pop_low-Leaves max_events d =
      elim d.low_left
        as (λ q.
          Leaves (record d { low_left = q }) (pop_low max_events (record d { low_left = q }))) [
            | [] ↦ Leaves-refl _
            | x ∷ q ↦
                if_cases
                  (λ (r : List (DeferredEvent P) × List (DeferredEvent P)).
                    Leaves (record d { low_left = x ∷ q })
                      (record d { taken = r.0; low_left = r.1 }))
                  (leb max_events (length d.taken)) (λ _. Leaves-refl _)
                  (λ _. record {
                    high_front = [];
                    normal_front = [];
                    low_front = x ∷ [];
                    events = x ∷ [];
                    high_split = refl;
                    normal_split = refl;
                    low_split = refl;
                    merge = low_first x merged;
                    grown = refl;
                  })
          ]

  drain_round-Leaves : (max_events : ℕ) (d : Draining P) → Leaves d (drain_round max_events d)
  unfolding drain_round
  drain_round-Leaves max_events d =
      let d₁ = pop_high max_events d in
      let d₂ = pop_normal max_events d₁ in
      let d₃ = pop_low max_events d₂ in
      let two =
        Leaves-trans d d₁ d₂ (pop_high-Leaves max_events d) (pop_normal-Leaves max_events d₁) in
      if_cases (Leaves d) (leb max_events (length d₁.taken)) (λ _. pop_high-Leaves max_events d)
        λ _.
          if_cases (Leaves d) (leb max_events (length d₂.taken)) (λ _. two)
            (λ _. Leaves-trans d d₂ d₃ two (pop_low-Leaves max_events d₂))

  pub drain_loop-Leaves :
      (fuel max_events : ℕ) (d : Draining P) → Leaves d (drain_loop fuel max_events d)
  unfolding drain_loop
  drain_loop-Leaves zero max_events d = Leaves-refl d
  drain_loop-Leaves (suc fuel) max_events d =
      let d' = drain_round max_events d in
      let round = drain_round-Leaves max_events d in
      if_cases (Leaves d) (ltb (length d.taken) max_events)
        (λ _.
          if_cases (Leaves d) (length d'.taken == length d.taken) (λ _. round)
            (λ _.
              Leaves-trans d d' (drain_loop fuel max_events d') round
                (drain_loop-Leaves fuel max_events d')))
        (λ _. Leaves-refl d)
