-- ===== src/Events/Membership.antt =====
-- `Subscribe` and `Unsubscribe`: whose handlers they change.
use framekit.Base.{
  ℕ, ◌≡◌, refl, ap, sym, ◌∙◌, inl, inr, Bool, true, false, not, String, List, [], ◌∷◌, ◌++◌, Option,
  none, some, any, remove_if, is_empty, if◌then◌else◌, if_cases, option_cases, ◌==◌, nat_eq,
  string_eq, beq_refl, beq_cases, arith,
}
use framekit.Base.Assoc.{lookup, insert, erase, lookup-insert, lookup-erase}
use framekit.Events.{
  EventBus, HandlerEntry, new_bus, subscribe, unsubscribe, remove_entry, entries_or_empty, has_id,
}
use framekit.Events.Registry.{
  Numbered, Reach, Reach-IsRegistered, new_bus-IsRegistered, entries-IsOrdered,
}

module _ {H : Type 0} where
  remove-none :
      (id : ℕ) (l : List (HandlerEntry H)) → any (has_id id) l ≡ false → remove_if (has_id id) l ≡ l
  unfolding any remove_if
  remove-none id [] h = refl
  remove-none id (x ∷ l) h = ground (arith, remove-none id l, h)

  empty-nil : (l : List (HandlerEntry H)) → is_empty l ≡ true → [] ≡ l
  empty-nil [] h = refl
  empty-nil (x ∷ l) h = absurd (cc)

  fresh-id : (n s : ℕ) (l : List (HandlerEntry H)) → Numbered n s l → any (has_id n) l ≡ false
  unfolding any
  fresh-id n s [] h = refl
  fresh-id n s (x ∷ l) h = ground (arith, h.0, fresh-id n s l h.1)

  any-last :
      (id : ℕ) (l : List (HandlerEntry H)) (e : HandlerEntry H)
      → has_id id e ≡ true
      → any (has_id id) (l ++ e ∷ []) ≡ true
  unfolding any
  any-last id [] e h = ground (arith, h)
  any-last id (x ∷ l) e h = ground (arith, any-last id l e h)

  remove-last :
      (id : ℕ) (l : List (HandlerEntry H)) (e : HandlerEntry H)
      → has_id id e ≡ true
      → any (has_id id) l ≡ false
      → remove_if (has_id id) (l ++ e ∷ []) ≡ l
  unfolding any remove_if
  remove-last id [] e h new = ground (arith, h)
  remove-last id (x ∷ l) e h new = ground (arith, remove-last id l e h, new)

module _ {H P : Type 0} where
  -- The handlers of a type, in the order in which they are kept.
  abbrev pub handlers_of : EventBus H P → String → List (HandlerEntry H)
  handlers_of b event_type = entries_or_empty (lookup event_type b.handlers)

  -- One type's handlers are replaced, and the others' stay.
  replaced :
      (b b' : EventBus H P) (event_type u : String) (o : Option (List (HandlerEntry H)))
      → lookup u b'.handlers ≡ (if event_type == u then o else lookup u b.handlers)
      → handlers_of b' u ≡ (if event_type == u then entries_or_empty o else handlers_of b u)
  replaced b b' event_type u o h = ap entries_or_empty h ∙ over (event_type == u)
    where
      over :
          (same : Bool)
          → entries_or_empty (if same then o else lookup u b.handlers)
            ≡ (if same then entries_or_empty o else handlers_of b u)
      over true = refl
      over false = refl

  subscribe-handlers_of :
      (b : EventBus H P) (event_type u : String) (handler : H) (monitor : Bool)
      → handlers_of (subscribe b event_type (some handler) monitor).0 u ≡ (
          if event_type == u
          then handlers_of b event_type
            ++ record {
              id = b.next_handler_id;
              handler = handler;
              monitor = monitor;
              sequence = b.next_handler_sequence;
            }
              ∷ []
          else handlers_of b u)
  unfolding subscribe
  subscribe-handlers_of b event_type u handler monitor =
      replaced b (subscribe b event_type (some handler) monitor).0 event_type u _
        (lookup-insert event_type u _ b.handlers)

  kept_handlers :
      (b : EventBus H P) (event_type u : String) (l : List (HandlerEntry H))
      → l ≡ handlers_of b event_type
      → handlers_of b u ≡ (if event_type == u then l else handlers_of b u)
  kept_handlers b event_type u l same = elim (beq_cases event_type u) [
    | inl (e, path) ↦ rw e (ap (handlers_of b) (sym path) ∙ sym same)
    | inr (e, _) ↦ rw e refl
  ]

  abbrev Removed : EventBus H P → String → ℕ → String → EventBus H P × Bool → Type 0
  Removed b event_type id u (b', done) =
      (done ≡ any (has_id id) (handlers_of b event_type))
      × (handlers_of b' u ≡ (
          if event_type == u
          then remove_if (has_id id) (handlers_of b event_type)
          else handlers_of b u))

  unchanged :
      (b : EventBus H P) (event_type : String) (id : ℕ) (u : String)
      → any (has_id id) (handlers_of b event_type) ≡ false
      → Removed b event_type id u (b, false)
  unchanged b event_type id u h =
      (sym h, kept_handlers b event_type u _ (remove-none id (handlers_of b event_type) h))

  remove_entry-Removed :
      (b : EventBus H P) (event_type : String) (id : ℕ) (u : String)
      (entries : List (HandlerEntry H))
      → handlers_of b event_type ≡ entries
      → Removed b event_type id u (remove_entry b event_type id entries)
  unfolding remove_entry
  remove_entry-Removed b event_type id u entries here =
      let kept = remove_if (has_id id) entries in
      let same =
        ap (λ l. if event_type == u then remove_if (has_id id) l else handlers_of b u) (sym here) in
      let erased = record b { handlers = erase event_type b.handlers } in
      let trimmed = record b { handlers = insert event_type kept b.handlers } in
      if_cases (Removed b event_type id u) (not (any (has_id id) entries))
        (λ absent. unchanged b event_type id u (ap (any (has_id id)) here ∙ ground (arith, absent)))
        (λ present. (
          ground (arith, present, ap (any (has_id id)) here),
          if_cases
              (λ (m : List (String × List (HandlerEntry H))).
                handlers_of (record b { handlers = m }) u ≡ (
                  if event_type == u
                  then remove_if (has_id id) (handlers_of b event_type)
                  else handlers_of b u))
              (is_empty kept)
              (λ e.
                replaced b erased event_type u none (lookup-erase event_type u b.handlers)
                ∙ ap (λ l. if event_type == u then l else handlers_of b u) (empty-nil kept e)
                ∙ same)
              (λ _.
                replaced b trimmed event_type u (some kept)
                  (lookup-insert event_type u kept b.handlers)
                ∙ same),
        ))

  -- Unsubscribing takes the handlers with the number away from the type, and no other; it says
  -- whether there was one.
  pub unsubscribe-handlers_of :
      (b : EventBus H P) (event_type : String) (id : ℕ) (u : String)
      → let (b', done) = unsubscribe b event_type id in
        (done ≡ any (has_id id) (handlers_of b event_type))
        × (handlers_of b' u ≡ (
            if event_type == u
            then remove_if (has_id id) (handlers_of b event_type)
            else handlers_of b u))
  unfolding unsubscribe any
  unsubscribe-handlers_of b event_type id u =
      option_cases (Removed b event_type id u) (lookup event_type b.handlers)
        (λ missing.
          unchanged b event_type id u (ap (λ o. any (has_id id) (entries_or_empty o)) missing))
        (λ entries found.
          remove_entry-Removed b event_type id u entries (ap entries_or_empty found))

  -- However the bus was used since it was made, with fewer than 2^64 subscriptions, unsubscribing the
  -- handler that was just subscribed succeeds, and leaves every type the handlers that it had.
  pub unsubscribe-subscribe :
      (b : EventBus H P) (event_type : String) (handler : H) (monitor : Bool) (u : String)
      → Reach new_bus b
      → let (b₁, id) = subscribe b event_type (some handler) monitor in
        let (b₂, done) = unsubscribe b₁ event_type id in
        (done ≡ true) × (handlers_of b₂ u ≡ handlers_of b u)
  unfolding subscribe
  unsubscribe-subscribe b event_type handler monitor u r =
      let id = b.next_handler_id in
      let b₁ = (subscribe b event_type (some handler) monitor).0 in
      let old = handlers_of b event_type in
      let entry : HandlerEntry H = record {
        id = id;
        handler = handler;
        monitor = monitor;
        sequence = b.next_handler_sequence;
      } in
      let named = (nat_eq.is_equal_iff id id).1 refl in
      let new =
        fresh-id id b.next_handler_sequence old
          (entries-IsOrdered b event_type (Reach-IsRegistered r new_bus-IsRegistered)).1 in
      let added : handlers_of b₁ event_type ≡ old ++ entry ∷ [] =
        subscribe-handlers_of b event_type event_type handler monitor
        ∙ ap (λ c. if c then old ++ entry ∷ [] else old) (beq_refl event_type) in
      let (done, left) = unsubscribe-handlers_of b₁ event_type id u in
      let back = ap (remove_if (has_id id)) added ∙ remove-last id old entry named new in
      (
        done ∙ ap (any (has_id id)) added ∙ any-last id old entry named,
        left
            ∙ ap (λ l. if event_type == u then l else handlers_of b₁ u) back
            ∙ elim (beq_cases event_type u) [
              | inl (e, path) ↦ rw e (ap (handlers_of b) path)
              | inr (e, _) ↦
                  ap (λ c. if c then old else handlers_of b₁ u) e
                  ∙ subscribe-handlers_of b event_type u handler monitor
                  ∙ ap (λ c. if c then old ++ entry ∷ [] else handlers_of b u) e
            ],
      )
