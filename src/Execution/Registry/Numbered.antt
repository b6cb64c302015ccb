-- ===== src/Execution/Registry/Numbered.antt =====
-- The registries that the operations make: the numbers of the registrations rise along the entries.
use mathlib.Core.List.{Permᴰ}
use framekit.Base.{
  ℕ, ◌+◌, ◌<◌, ◌≡◌, ◌≢◌, refl, ap, sym, subst, ◌∙◌, ◌⊎◌, inl, inr, Bool, true, false, true-ne-false,
  not, ◌&&◌, ◌||◌, String, List, [], ◌∷◌, ◌++◌, Option, none, some, is_some, All, All-append,
  All-mono, if_cases, some_injective, string_eq, map, u64, ◌==◌, arith,
}
use framekit.Base.Assoc.{lookup, insert}
use framekit.Base.Falling.{Ascending, Ascending-snoc}
use framekit.Execution.Registry.{
  Registry, RegistryEntry, ExecutionServicePhase, ExecutionServiceOwnership, opened, frozen,
  shutting_down, context_owned, external_owned, is_open, new_registry, registry_entry,
  store_service, register_service, freeze_registry, reset_registry, reset_registry_from,
  begin_registry_shutdown,
}

not-or : (a b : Bool) → not a || b ≡ false → a ≡ true
not-or a b h = ground arith

some-ne-none : {A : Type 0} {a : A} → some a ≡ none → ⊥
some-ne-none e = cc

module _ {S : Type 0} where
  abbrev pub number : String × RegistryEntry S → ℕ
  number (k, entry) = entry.sequence

  abbrev pub numbers : List (String × RegistryEntry S) → List ℕ
  numbers l = map number l

  numbers-replaced :
      (k : String) (v entry : RegistryEntry S) (m : List (String × RegistryEntry S))
      → lookup k m ≡ some entry
      → v.sequence ≡ entry.sequence
      → numbers (insert k v m) ≡ numbers m
  unfolding insert lookup
  numbers-replaced k v entry [] found same = absurd (cc)
  numbers-replaced k v entry ((j, w) ∷ m) found same =
      if_cases (λ (l : List (String × RegistryEntry S)). numbers l ≡ w.sequence ∷ numbers m)
        (j == k)
        (λ e.
          ap (λ n. n ∷ numbers m)
            (same
              ∙ sym (
                  ap (λ (x : RegistryEntry S). x.sequence)
                    (some_injective (rw (e, lookup) at found)))))
        (λ n. ap (◌∷◌ w.sequence) (numbers-replaced k v entry m (rw (n, lookup) at found) same))

  numbers-added :
      (k : String) (v : RegistryEntry S) (m : List (String × RegistryEntry S))
      → lookup k m ≡ none
      → numbers (insert k v m) ≡ numbers m ++ v.sequence ∷ []
  unfolding insert lookup
  numbers-added k v [] missing = refl
  numbers-added k v ((j, w) ∷ m) missing =
      if_cases
        (λ (l : List (String × RegistryEntry S)).
          numbers l ≡ w.sequence ∷ (numbers m ++ v.sequence ∷ []))
        (j == k) (λ e. absurd (some-ne-none (rw (e, lookup) at missing)))
        (λ n. ap (◌∷◌ w.sequence) (numbers-added k v m (rw (n, lookup) at missing)))

  pub record IsNumbered (r : Registry S) : Type 0 where
    pub ascending : Ascending (numbers r.entries)
    pub below : All (λ n. n < r.registration_sequence) (numbers r.entries)

  -- After a shutdown the external services that are left stand in the map's order.
  abbrev pub IsKept : Registry S → Type 0
  IsKept r = (r.phase ≡ shutting_down) ⊎ IsNumbered r

  entry-sequence :
      (service : S) (ownership : ExecutionServiceOwnership) (n : ℕ)
      → (registry_entry service ownership n).sequence ≡ n
  entry-sequence service context_owned n = refl
  entry-sequence service external_owned n = refl

  store-IsNumbered :
      (r : Registry S) (service : S) (k : String) (ownership : ExecutionServiceOwnership)
      (found : Option (RegistryEntry S))
      → lookup k r.entries ≡ found
      → r.registration_sequence + 1 < 18446744073709551616
      → IsNumbered r
      → IsNumbered (store_service r service k ownership found)
  unfolding store_service
  store-IsNumbered r service k ownership none missing room h =
      let n = r.registration_sequence in
      let same =
        numbers-added k (registry_entry service ownership n) r.entries missing
        ∙ ap (λ s. numbers r.entries ++ s ∷ []) (entry-sequence service ownership n) in
      record {
        ascending =
            subst Ascending (sym same) (Ascending-snoc (numbers r.entries) n h.ascending h.below);
        below = subst (All (λ m. m < u64 (n + 1))) (sym same) (
            All-append _ (numbers r.entries) (n ∷ [])
              (All-mono _ _ (numbers r.entries) (λ m lt. omega arith) h.below) (omega arith, tt));
      }
  store-IsNumbered r service k ownership (some entry) found room h =
      let same =
        numbers-replaced k (registry_entry service ownership entry.sequence) entry r.entries found
          (entry-sequence service ownership entry.sequence) in
      record {
        ascending = subst Ascending (sym same) h.ascending;
        below = subst (All (λ m. m < r.registration_sequence)) (sym same) h.below;
      }

  IsNumbered-while_open : (r : Registry S) → is_open r.phase ≡ true → IsKept r → IsNumbered r
  IsNumbered-while_open r live (inl down) = absurd (true-ne-false (sym live ∙ ap is_open down))
  IsNumbered-while_open r live (inr h) = h

  register-IsKept :
      (r : Registry S) (service : Option S) (k : String) (ownership : ExecutionServiceOwnership)
      (replace_existing : Bool)
      → r.registration_sequence + 1 < 18446744073709551616
      → IsKept r
      → IsKept (register_service r service k ownership replace_existing).0
  unfolding register_service
  register-IsKept r none k ownership replace_existing room h = h
  register-IsKept r (some service) k ownership replace_existing room h =
      let found = lookup k r.entries in
      if_cases (λ (x : Registry S × Bool). IsKept x.0)
        (not (is_open r.phase) || (is_some found && not replace_existing)) (λ _. h)
        λ passed. inr (
          store-IsNumbered r service k ownership found refl room
            (IsNumbered-while_open r (not-or (is_open r.phase) _ passed) h))

  freeze-IsKept : (r : Registry S) → IsKept r → IsKept (freeze_registry r).0
  unfolding freeze_registry
  freeze-IsKept r h =
      if_cases (λ (x : Registry S × Bool). IsKept x.0) (not (is_open r.phase)) (λ _. h)
        λ passed.
          let n = IsNumbered-while_open r (ground (arith, passed)) h in
          inr (record { ascending = n.ascending; below = n.below })

  reset_from-IsKept :
      (r : Registry S) (phase : ExecutionServicePhase)
      → IsKept r
      → IsKept (reset_registry_from r phase).0
  reset_from-IsKept r frozen h = h
  reset_from-IsKept r opened h = inr (record { ascending = tt; below = tt })
  reset_from-IsKept r shutting_down h = inr (record { ascending = tt; below = tt })

  pub data Step (r : Registry S) : Registry S → Type 0 where
    registered :
        (service : Option S) (k : String) (ownership : ExecutionServiceOwnership)
        (replace_existing : Bool)
        → r.registration_sequence + 1 < 18446744073709551616
        → Step r (register_service r service k ownership replace_existing).0
    froze : Step r (freeze_registry r).0
    has_shut_down :
        (traversal : List (String × RegistryEntry S))
        → Permᴰ r.entries traversal
        → r.phase ≢ shutting_down
        → Step r (begin_registry_shutdown r traversal)
    was_reset : Step r (reset_registry r).0

  pub data Reach : Registry S → Type 0 where
    new : Reach new_registry
    next : {r s : Registry S} → Reach r → Step r s → Reach s

  Step-IsKept : {r s : Registry S} → Step r s → IsKept r → IsKept s
  unfolding reset_registry begin_registry_shutdown
  Step-IsKept {r} (registered service k ownership replace_existing room) h =
      register-IsKept r service k ownership replace_existing room h
  Step-IsKept {r} froze h = freeze-IsKept r h
  Step-IsKept {r} (has_shut_down traversal visited live) h = inl refl
  Step-IsKept {r} was_reset h = reset_from-IsKept r r.phase h

  pub Reach-IsKept : {r : Registry S} → Reach r → IsKept r
  unfolding new_registry
  Reach-IsKept new = inr (record { ascending = tt; below = tt })
  Reach-IsKept (next r s) = Step-IsKept s (Reach-IsKept r)
