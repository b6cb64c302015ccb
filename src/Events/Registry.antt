-- ===== src/Events/Registry.antt =====
-- The registered handlers: fresh numbers, and the snapshot in the order of subscription.
use framekit.Base.{
  ℕ, ◌+◌, ◌≤◌, ◌<◌, ◌≡◌, refl, inl, inr, Bool, not, String, List, [], ◌∷◌, ◌++◌, Option, none, some,
  All, All-append, All-remove_if, All-mono, remove_if, any, is_empty, Option-cases, if_cases,
  option_cases, arith, string_eq,
}
use framekit.Base.Assoc.{lookup, AllValues, AllValues-insert, AllValues-erase, AllValues-lookup}
use framekit.Events.{
  EventBus, HandlerEntry, new_bus, subscribe, unsubscribe, remove_entry, snapshot_handlers,
  sort_by_sequence, insert_by_sequence, entries_or_empty, has_id,
}

module _ {H : Type 0} where
  -- The sequence numbers rise along the list.
  abbrev pub Rising : List (HandlerEntry H) → Type 0
  Rising [] = Unit {0}
  Rising (x ∷ xs) = All (λ y. x.sequence < y.sequence) xs × Rising xs

  -- The numbers of the entries lie below those that the bus gives out next.
  abbrev pub Numbered : (next_id next_sequence : ℕ) → List (HandlerEntry H) → Type 0
  Numbered next_id next_sequence =
      All (λ x. (0 < x.id) × (x.id < next_id) × (x.sequence < next_sequence))

  abbrev pub IsOrdered : (next_id next_sequence : ℕ) → List (HandlerEntry H) → Type 0
  IsOrdered next_id next_sequence entries = Rising entries × Numbered next_id next_sequence entries

  insert_by_sequence-front :
      (x : HandlerEntry H) (xs : List (HandlerEntry H))
      → All (λ y. x.sequence < y.sequence) xs
      → insert_by_sequence x xs ≡ x ∷ xs
  unfolding insert_by_sequence
  insert_by_sequence-front x [] h = refl
  insert_by_sequence-front x (y ∷ ys) h = ground arith

  sort-Rising : (xs : List (HandlerEntry H)) → Rising xs → sort_by_sequence xs ≡ xs
  unfolding sort_by_sequence
  sort-Rising [] h = refl
  sort-Rising (x ∷ xs) h = rw (sort-Rising xs h.1) (insert_by_sequence-front x xs h.0)

  Rising-snoc :
      (xs : List (HandlerEntry H)) (e : HandlerEntry H)
      → Rising xs
      → All (λ x. x.sequence < e.sequence) xs
      → Rising (xs ++ e ∷ [])
  Rising-snoc [] e h below = (tt, tt)
  Rising-snoc (x ∷ xs) e h below = (
    All-append (λ y. x.sequence < y.sequence) xs (e ∷ []) h.0 (below.0, tt),
    Rising-snoc xs e h.1 below.1,
  )

  Rising-remove_if :
      (p : HandlerEntry H → Bool) (xs : List (HandlerEntry H)) → Rising xs → Rising (remove_if p xs)
  unfolding remove_if
  Rising-remove_if p [] h = tt
  Rising-remove_if p (x ∷ xs) h = ground (
    arith,
    Rising-remove_if p xs h.1,
    All-remove_if (λ (y : HandlerEntry H). x.sequence < y.sequence) p xs h.0,
  )

  Numbered-mono :
      (i s j t : ℕ) (xs : List (HandlerEntry H)) → i ≤ j → s ≤ t → Numbered i s xs → Numbered j t xs
  Numbered-mono i s j t [] hi hs h = tt
  Numbered-mono i s j t (x ∷ xs) hi hs h = (omega arith, Numbered-mono i s j t xs hi hs h.1)

  AllOrdered-mono :
      (i s j t : ℕ) (m : List (String × List (HandlerEntry H)))
      → i ≤ j
      → s ≤ t
      → AllValues (IsOrdered i s) m
      → AllValues (IsOrdered j t) m
  AllOrdered-mono i s j t [] hi hs h = tt
  AllOrdered-mono i s j t ((k, xs) ∷ m) hi hs h =
      ((h.0.0, Numbered-mono i s j t xs hi hs h.0.1), AllOrdered-mono i s j t m hi hs h.1)

  snoc-IsOrdered :
      (i s j t : ℕ) (xs : List (HandlerEntry H)) (e : HandlerEntry H)
      → e.id ≡ i
      → e.sequence ≡ s
      → 0 < i
      → i < j
      → s < t
      → IsOrdered i s xs
      → IsOrdered j t (xs ++ e ∷ [])
  snoc-IsOrdered i s j t xs e named placed pos hi hs (rising, numbered) = (
    Rising-snoc xs e rising (All-mono _ _ xs (λ x h. omega arith) numbered),
    All-append _ xs (e ∷ []) (Numbered-mono i s j t xs (omega arith) (omega arith) numbered)
        (omega arith, tt),
  )

module _ {H P : Type 0} where
  -- Every list of handlers is in the order of subscription, with numbers that are not given out again.
  pub record IsRegistered (b : EventBus H P) : Type 0 where
    pub ordered : AllValues (IsOrdered b.next_handler_id b.next_handler_sequence) b.handlers
    pub positive : 0 < b.next_handler_id

  pub new_bus-IsRegistered : IsRegistered (new_bus {H = H} {P = P})
  unfolding new_bus
  new_bus-IsRegistered = record { ordered = tt; positive = omega arith }

  pub entries-IsOrdered :
      (b : EventBus H P) (event_type : String)
      → IsRegistered b
      → IsOrdered b.next_handler_id b.next_handler_sequence
          (entries_or_empty (lookup event_type b.handlers))
  entries-IsOrdered b event_type h = elim (Option-cases (lookup event_type b.handlers)) [
    | inl e ↦ rw e (tt, tt)
    | inr (entries, e) ↦ rw e (AllValues-lookup _ event_type entries b.handlers h.ordered e)
  ]

  -- In such a bus the snapshot is the list of the type's handlers, in the order of subscription.
  pub snapshot-in_order :
      (b : EventBus H P) (event_type : String)
      → IsRegistered b
      → snapshot_handlers b event_type ≡ entries_or_empty (lookup event_type b.handlers)
  unfolding snapshot_handlers
  snapshot-in_order b event_type h = sort-Rising _ (entries-IsOrdered b event_type h).0

  subscribe-IsRegistered :
      (b : EventBus H P) (event_type : String) (handler : Option H) (monitor : Bool)
      → b.next_handler_id + 1 < 18446744073709551616
      → b.next_handler_sequence + 1 < 18446744073709551616
      → IsRegistered b
      → IsRegistered (subscribe b event_type handler monitor).0
  unfolding subscribe
  subscribe-IsRegistered b event_type none monitor hi hs h = h
  subscribe-IsRegistered b event_type (some handler) monitor hi hs h = record {
    ordered =
        AllValues-insert _ event_type _ b.handlers
          (snoc-IsOrdered b.next_handler_id b.next_handler_sequence _ _ _ _ refl refl h.positive
            (omega arith) (omega arith) (entries-IsOrdered b event_type h))
          (AllOrdered-mono b.next_handler_id b.next_handler_sequence _ _ b.handlers (omega arith)
            (omega arith) h.ordered);
    positive = omega (arith, h.positive);
  }

  remove_entry-IsRegistered :
      (b : EventBus H P) (event_type : String) (id : ℕ) (entries : List (HandlerEntry H))
      → IsRegistered b
      → IsOrdered b.next_handler_id b.next_handler_sequence entries
      → IsRegistered (remove_entry b event_type id entries).0
  unfolding remove_entry
  remove_entry-IsRegistered b event_type id entries h (rising, numbered) =
      if_cases (λ (r : EventBus H P × Bool). IsRegistered r.0) (not (any (has_id id) entries))
        (λ _. h)
        λ _. record {
          ordered =
              if_cases (AllValues (IsOrdered b.next_handler_id b.next_handler_sequence))
                (is_empty (remove_if (has_id id) entries))
                (λ _. AllValues-erase _ event_type b.handlers h.ordered)
                (λ _.
                  AllValues-insert _ event_type _ b.handlers
                    (
                      Rising-remove_if (has_id id) entries rising,
                      All-remove_if _ (has_id id) entries numbered,
                    )
                    h.ordered);
          positive = h.positive;
        }

  unsubscribe-IsRegistered :
      (b : EventBus H P) (event_type : String) (id : ℕ)
      → IsRegistered b
      → IsRegistered (unsubscribe b event_type id).0
  unfolding unsubscribe
  unsubscribe-IsRegistered b event_type id h =
      option_cases (λ (r : EventBus H P × Bool). IsRegistered r.0) (lookup event_type b.handlers)
        (λ _. h)
        (λ entries e.
          remove_entry-IsRegistered b event_type id entries h
            (AllValues-lookup _ event_type entries b.handlers h.ordered e))

  -- What the operations of the bus do to its handlers. The rest (queues, capacity, policy) is free.
  pub data Step (b : EventBus H P) : EventBus H P → Type 0 where
    subscribed :
        (event_type : String) (handler : Option H) (monitor : Bool)
        → b.next_handler_id + 1 < 18446744073709551616
        → b.next_handler_sequence + 1 < 18446744073709551616
        → Step b (subscribe b event_type handler monitor).0
    unsubscribed : (event_type : String) (id : ℕ) → Step b (unsubscribe b event_type id).0
    other :
        (c : EventBus H P)
        → c.handlers ≡ b.handlers
        → c.next_handler_id ≡ b.next_handler_id
        → c.next_handler_sequence ≡ b.next_handler_sequence
        → Step b c

  pub data Reach (b : EventBus H P) : EventBus H P → Type 0 where
    here : Reach b b
    next : {c d : EventBus H P} → Reach b c → Step c d → Reach b d

  Step-IsRegistered : {b c : EventBus H P} → Step b c → IsRegistered b → IsRegistered c
  Step-IsRegistered {b} (subscribed event_type handler monitor hi hs) h =
      subscribe-IsRegistered b event_type handler monitor hi hs h
  Step-IsRegistered {b} (unsubscribed event_type id) h = unsubscribe-IsRegistered b event_type id h
  Step-IsRegistered (other c same ids sequences) h = record {
    ordered = rw (same, ids, sequences) h.ordered;
    positive = rw ids h.positive;
  }

  pub Reach-IsRegistered : {b c : EventBus H P} → Reach b c → IsRegistered b → IsRegistered c
  Reach-IsRegistered here h = h
  Reach-IsRegistered (next r s) h = Step-IsRegistered s (Reach-IsRegistered r h)

  -- However the bus was used since it was made, with fewer than 2^64 subscriptions, the snapshot of a
  -- type is the list of its handlers, and their sequence numbers rise along it: dispatch follows the
  -- order of subscription. No handler has the number 0, by which `Subscribe` refuses.
  pub snapshot_order :
      (b : EventBus H P) (event_type : String)
      → Reach new_bus b
      → (snapshot_handlers b event_type ≡ entries_or_empty (lookup event_type b.handlers))
        × Rising (snapshot_handlers b event_type)
        × All (λ e. 0 < e.id) (snapshot_handlers b event_type)
  snapshot_order b event_type r =
      let h = Reach-IsRegistered r new_bus-IsRegistered in
      let (rising, numbered) = entries-IsOrdered b event_type h in
      rw (snapshot-in_order b event_type h) (refl, rising, All-mono _ _ _ (λ e n. n.0) numbered)
