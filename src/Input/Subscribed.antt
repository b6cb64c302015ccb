-- ===== src/Input/Subscribed.antt =====
-- The routers that the operations make: every list of handlers is in the order of subscription.
use framekit.Base.{
  ℕ, ◌+◌, ◌≤◌, ◌<◌, ◌≡◌, refl, inl, inr, Bool, not, String, List, [], ◌∷◌, ◌++◌, Option, none, some,
  All, All-append, All-remove_if, All-mono, remove_if, any, is_empty, is_blank, Option-cases,
  if_cases, option_cases, u64, arith, string_eq,
}
use framekit.Base.Assoc.{lookup, AllValues, AllValues-insert, AllValues-erase, AllValues-lookup}
use framekit.Input.{
  HandlerEntry, InputRouter, MissingWindowTargetPolicy, new_router, handlers_or_empty, has_id,
  subscribe_window, subscribe_global, remove_window_entry, unsubscribe_window, unsubscribe_global,
  set_focused_window, set_pointer_capture_window, clear_pointer_capture_window,
  set_missing_window_target_policy,
}

module _ {H : Type 0} where
  -- The sequence numbers, which are given in the order of subscription, rise along the list.
  abbrev pub Rising : List (HandlerEntry H) → Type 0
  Rising [] = Unit {0}
  Rising (x ∷ xs) = All (λ y. x.sequence < y.sequence) xs × Rising xs

  abbrev IsOrdered : (next_sequence : ℕ) → List (HandlerEntry H) → Type 0
  IsOrdered next_sequence entries = Rising entries × All (λ x. x.sequence < next_sequence) entries

  Rising-snoc :
      (xs : List (HandlerEntry H)) (e : HandlerEntry H)
      → Rising xs
      → All (λ x. x.sequence < e.sequence) xs
      → Rising (xs ++ e ∷ [])
  Rising-snoc [] e h below = (tt, tt)
  Rising-snoc (x ∷ xs) e h below = (
    All-append (λ y. x.sequence < y.sequence) xs (e ∷ []) h.0 (below.0, tt),
    Rising-snoc xs e h.1 below.1,
  )

  Rising-remove_if :
      (p : HandlerEntry H → Bool) (xs : List (HandlerEntry H)) → Rising xs → Rising (remove_if p xs)
  unfolding remove_if
  Rising-remove_if p [] h = tt
  Rising-remove_if p (x ∷ xs) h = ground (
    arith,
    Rising-remove_if p xs h.1,
    All-remove_if (λ (y : HandlerEntry H). x.sequence < y.sequence) p xs h.0,
  )

  IsOrdered-mono : (s t : ℕ) (xs : List (HandlerEntry H)) → s ≤ t → IsOrdered s xs → IsOrdered t xs
  IsOrdered-mono s t xs le (rising, below) = (rising, All-mono _ _ xs (λ x h. omega arith) below)

  AllOrdered-mono :
      (s t : ℕ) (m : List (String × List (HandlerEntry H)))
      → s ≤ t
      → AllValues (IsOrdered s) m
      → AllValues (IsOrdered t) m
  AllOrdered-mono s t [] le h = tt
  AllOrdered-mono s t ((k, xs) ∷ m) le h =
      (IsOrdered-mono s t xs le h.0, AllOrdered-mono s t m le h.1)

  snoc-IsOrdered :
      (s t : ℕ) (xs : List (HandlerEntry H)) (e : HandlerEntry H)
      → e.sequence ≡ s
      → s < t
      → IsOrdered s xs
      → IsOrdered t (xs ++ e ∷ [])
  snoc-IsOrdered s t xs e placed less (rising, below) = (
    Rising-snoc xs e rising (All-mono _ _ xs (λ x h. omega arith) below),
    All-append _ xs (e ∷ []) (All-mono _ _ xs (λ x h. omega arith) below) (omega arith, tt),
  )

  removed-IsOrdered :
      (s : ℕ) (p : HandlerEntry H → Bool) (xs : List (HandlerEntry H))
      → IsOrdered s xs
      → IsOrdered s (remove_if p xs)
  removed-IsOrdered s p xs (rising, below) =
      (Rising-remove_if p xs rising, All-remove_if _ p xs below)

  pub record IsSubscribed (r : InputRouter H) : Type 0 where
    pub windows : AllValues (IsOrdered r.next_sequence) r.window_handlers
    pub globals : IsOrdered r.next_sequence r.global_handlers

  window-IsOrdered :
      (r : InputRouter H) (window_id : String)
      → IsSubscribed r
      → IsOrdered r.next_sequence (handlers_or_empty (lookup window_id r.window_handlers))
  window-IsOrdered r window_id h = elim (Option-cases (lookup window_id r.window_handlers)) [
    | inl e ↦ rw e (tt, tt)
    | inr (handlers, e) ↦ rw e (AllValues-lookup _ window_id handlers r.window_handlers h.windows e)
  ]

  subscribe_window-IsSubscribed :
      (r : InputRouter H) (window_id : String) (handler : Option H)
      → r.next_sequence + 1 < 18446744073709551616
      → IsSubscribed r
      → IsSubscribed (subscribe_window r window_id handler).0
  unfolding subscribe_window
  subscribe_window-IsSubscribed r window_id none room h = h
  subscribe_window-IsSubscribed r window_id (some handler) room h =
      if_cases (λ (x : InputRouter H × ℕ). IsSubscribed x.0) (is_blank window_id) (λ _. h)
        λ _. record {
          windows =
              AllValues-insert _ window_id _ r.window_handlers
                (snoc-IsOrdered r.next_sequence (u64 (r.next_sequence + 1)) _ _ refl (omega arith)
                  (window-IsOrdered r window_id h))
                (AllOrdered-mono r.next_sequence _ r.window_handlers (omega arith) h.windows);
          globals = IsOrdered-mono r.next_sequence _ r.global_handlers (omega arith) h.globals;
        }

  subscribe_global-IsSubscribed :
      (r : InputRouter H) (handler : Option H)
      → r.next_sequence + 1 < 18446744073709551616
      → IsSubscribed r
      → IsSubscribed (subscribe_global r handler).0
  unfolding subscribe_global
  subscribe_global-IsSubscribed r none room h = h
  subscribe_global-IsSubscribed r (some handler) room h = record {
    windows = AllOrdered-mono r.next_sequence _ r.window_handlers (omega arith) h.windows;
    globals =
        snoc-IsOrdered r.next_sequence (u64 (r.next_sequence + 1)) r.global_handlers _ refl
          (omega arith) h.globals;
  }

  remove_window_entry-IsSubscribed :
      (r : InputRouter H) (window_id : String) (id : ℕ) (handlers : List (HandlerEntry H))
      → IsSubscribed r
      → IsOrdered r.next_sequence handlers
      → IsSubscribed (remove_window_entry r window_id id handlers).0
  unfolding remove_window_entry
  remove_window_entry-IsSubscribed r window_id id handlers h ordered =
      if_cases (λ (x : InputRouter H × Bool). IsSubscribed x.0) (not (any (has_id id) handlers))
        (λ _. h)
        λ _. record {
          windows =
              if_cases (AllValues (IsOrdered r.next_sequence))
                (is_empty (remove_if (has_id id) handlers))
                (λ _. AllValues-erase _ window_id r.window_handlers h.windows)
                (λ _.
                  AllValues-insert _ window_id _ r.window_handlers
                    (removed-IsOrdered r.next_sequence (has_id id) handlers ordered) h.windows);
          globals = h.globals;
        }

  unsubscribe_window-IsSubscribed :
      (r : InputRouter H) (window_id : String) (id : ℕ)
      → IsSubscribed r
      → IsSubscribed (unsubscribe_window r window_id id).0
  unfolding unsubscribe_window
  unsubscribe_window-IsSubscribed r window_id id h =
      option_cases (λ (x : InputRouter H × Bool). IsSubscribed x.0)
        (lookup window_id r.window_handlers) (λ _. h)
        (λ handlers e.
          remove_window_entry-IsSubscribed r window_id id handlers h
            (AllValues-lookup _ window_id handlers r.window_handlers h.windows e))

  unsubscribe_global-IsSubscribed :
      (r : InputRouter H) (id : ℕ) → IsSubscribed r → IsSubscribed (unsubscribe_global r id).0
  unfolding unsubscribe_global
  unsubscribe_global-IsSubscribed r id h =
      if_cases (λ (x : InputRouter H × Bool). IsSubscribed x.0)
        (not (any (has_id id) r.global_handlers)) (λ _. h)
        λ _. record {
          windows = h.windows;
          globals = removed-IsOrdered r.next_sequence (has_id id) r.global_handlers h.globals;
        }

  pub data Step (r : InputRouter H) : InputRouter H → Type 0 where
    on_window :
        (window_id : String) (handler : Option H)
        → r.next_sequence + 1 < 18446744073709551616
        → Step r (subscribe_window r window_id handler).0
    on_global :
        (handler : Option H)
        → r.next_sequence + 1 < 18446744073709551616
        → Step r (subscribe_global r handler).0
    off_window : (window_id : String) (id : ℕ) → Step r (unsubscribe_window r window_id id).0
    off_global : (id : ℕ) → Step r (unsubscribe_global r id).0
    focused : (window_id : String) → Step r (set_focused_window r window_id)
    captured : (window_id : String) → Step r (set_pointer_capture_window r window_id)
    released : Step r (clear_pointer_capture_window r)
    chosen :
        (policy : MissingWindowTargetPolicy) → Step r (set_missing_window_target_policy r policy)

  pub data Reach : InputRouter H → Type 0 where
    new : Reach new_router
    next : {r s : InputRouter H} → Reach r → Step r s → Reach s

  Step-IsSubscribed : {r s : InputRouter H} → Step r s → IsSubscribed r → IsSubscribed s
  unfolding set_focused_window set_pointer_capture_window clear_pointer_capture_window
      set_missing_window_target_policy
  Step-IsSubscribed {r} (on_window window_id handler room) h =
      subscribe_window-IsSubscribed r window_id handler room h
  Step-IsSubscribed {r} (on_global handler room) h = subscribe_global-IsSubscribed r handler room h
  Step-IsSubscribed {r} (off_window window_id id) h =
      unsubscribe_window-IsSubscribed r window_id id h
  Step-IsSubscribed {r} (off_global id) h = unsubscribe_global-IsSubscribed r id h
  Step-IsSubscribed (focused window_id) h = record { windows = h.windows; globals = h.globals }
  Step-IsSubscribed (captured window_id) h = record { windows = h.windows; globals = h.globals }
  Step-IsSubscribed released h = record { windows = h.windows; globals = h.globals }
  Step-IsSubscribed (chosen policy) h = record { windows = h.windows; globals = h.globals }

  Reach-IsSubscribed : {r : InputRouter H} → Reach r → IsSubscribed r
  unfolding new_router
  Reach-IsSubscribed new = record { windows = tt; globals = (tt, tt) }
  Reach-IsSubscribed (next r s) = Step-IsSubscribed s (Reach-IsSubscribed r)

  AllRising :
      (s : ℕ) (m : List (String × List (HandlerEntry H)))
      → AllValues (IsOrdered s) m
      → AllValues Rising m
  AllRising s [] h = tt
  AllRising s ((k, xs) ∷ m) h = (h.0.0, AllRising s m h.1)

  -- All the lists of a router that its operations made are in the order of subscription.
  pub Reach-Rising :
      {r : InputRouter H} → Reach r → AllValues Rising r.window_handlers × Rising r.global_handlers
  Reach-Rising {r} reached =
      let h = Reach-IsSubscribed reached in
      (AllRising r.next_sequence r.window_handlers h.windows, h.globals.0)
