-- ===== src/Services/Registered.antt =====
-- The contexts that the operations make: the numbers of the registrations rise along the entries.
use mathlib.Core.List.{Permᴰ}
use framekit.Base.{
  ℕ, ◌+◌, ◌<◌, ◌≡◌, refl, ap, sym, subst, ◌∙◌, ◌⊎◌, inl, inr, Bool, true, false, true-ne-false,
  Comparable, not, ◌&&◌, ◌||◌, List, [], ◌∷◌, ◌++◌, Option, none, some, is_some, All, All-append,
  All-mono, if_cases, some_injective, u64, ◌==◌, arith,
}
use framekit.Base.Assoc.{lookup, insert}
use framekit.Base.Falling.{Ascending, Ascending-snoc}
use framekit.Services.{
  ServiceContext, ServiceContextPhase, ServiceKey, ServiceEntry, ServiceOwnership, service_key_eq,
  teardown, frozen, opened, context_owned, external_owned, is_open, new_context, freeze, stored,
  store, register, tear_down, teardown_from, reset_from, begin_teardown, reset_for_next_start_cycle,
}

not-or : (a b : Bool) → not a || b ≡ false → a ≡ true
not-or a b h = ground arith

some-ne-none : {A : Type 0} {a : A} → some a ≡ none → ⊥
some-ne-none e = cc

module _ {K S : Type 0} where
  abbrev pub numbers : List (K × ServiceEntry S) → List ℕ
  numbers [] = []
  numbers ((k, entry) ∷ rest) = entry.sequence ∷ numbers rest

module _ {K S : Type 0} ⦃eq : Comparable K⦄ where
  numbers-replaced :
      (k : K) (v entry : ServiceEntry S) (m : List (K × ServiceEntry S))
      → lookup k m ≡ some entry
      → v.sequence ≡ entry.sequence
      → numbers (insert k v m) ≡ numbers m
  unfolding insert lookup
  numbers-replaced k v entry [] found same = absurd (cc)
  numbers-replaced k v entry ((j, w) ∷ m) found same =
      if_cases (λ (l : List (K × ServiceEntry S)). numbers l ≡ w.sequence ∷ numbers m) (j == k)
        (λ e.
          ap (λ n. n ∷ numbers m)
            (same
              ∙ sym (
                  ap (λ (x : ServiceEntry S). x.sequence)
                    (some_injective (rw (e, lookup) at found)))))
        (λ n. ap (◌∷◌ w.sequence) (numbers-replaced k v entry m (rw (n, lookup) at found) same))

  numbers-added :
      (k : K) (v : ServiceEntry S) (m : List (K × ServiceEntry S))
      → lookup k m ≡ none
      → numbers (insert k v m) ≡ numbers m ++ v.sequence ∷ []
  unfolding insert lookup
  numbers-added k v [] missing = refl
  numbers-added k v ((j, w) ∷ m) missing =
      if_cases
        (λ (l : List (K × ServiceEntry S)). numbers l ≡ w.sequence ∷ (numbers m ++ v.sequence ∷ []))
        (j == k) (λ e. absurd (some-ne-none (rw (e, lookup) at missing)))
        (λ n. ap (◌∷◌ w.sequence) (numbers-added k v m (rw (n, lookup) at missing)))

module _ {S : Type 0} where
  pub record IsNumbered (c : ServiceContext S) : Type 0 where
    pub ascending : Ascending (numbers c.entries)
    pub below : All (λ n. n < c.registration_sequence) (numbers c.entries)

  -- After a teardown the external services that are left stand in the map's order.
  abbrev pub IsKept : ServiceContext S → Type 0
  IsKept c = (c.phase ≡ teardown) ⊎ IsNumbered c

  stored-sequence :
      (service : S) (ownership : ServiceOwnership) (n : ℕ)
      → (stored service ownership n).sequence ≡ n
  stored-sequence service context_owned n = refl
  stored-sequence service external_owned n = refl

  store-IsNumbered :
      (c : ServiceContext S) (service : S) (k : ServiceKey) (ownership : ServiceOwnership)
      (existing : Option (ServiceEntry S))
      → lookup k c.entries ≡ existing
      → c.registration_sequence + 1 < 18446744073709551616
      → IsNumbered c
      → IsNumbered (store c service k ownership existing)
  unfolding store
  store-IsNumbered c service k ownership none missing room h =
      let n = c.registration_sequence in
      let same =
        numbers-added k (stored service ownership n) c.entries missing
        ∙ ap (λ s. numbers c.entries ++ s ∷ []) (stored-sequence service ownership n) in
      record {
        ascending =
            subst Ascending (sym same) (Ascending-snoc (numbers c.entries) n h.ascending h.below);
        below = subst (All (λ m. m < u64 (n + 1))) (sym same) (
            All-append _ (numbers c.entries) (n ∷ [])
              (All-mono _ _ (numbers c.entries) (λ m lt. omega arith) h.below) (omega arith, tt));
      }
  store-IsNumbered c service k ownership (some entry) found room h =
      let same =
        numbers-replaced k (stored service ownership entry.sequence) entry c.entries found
          (stored-sequence service ownership entry.sequence) in
      record {
        ascending = subst Ascending (sym same) h.ascending;
        below = subst (All (λ m. m < c.registration_sequence)) (sym same) h.below;
      }

  IsNumbered-while_open : (c : ServiceContext S) → is_open c.phase ≡ true → IsKept c → IsNumbered c
  IsNumbered-while_open c live (inl torn) = absurd (true-ne-false (sym live ∙ ap is_open torn))
  IsNumbered-while_open c live (inr h) = h

  register-IsKept :
      (c : ServiceContext S) (service : Option S) (k : ServiceKey) (ownership : ServiceOwnership)
      (replace_existing : Bool)
      → c.registration_sequence + 1 < 18446744073709551616
      → IsKept c
      → IsKept (register c service k ownership replace_existing).0
  unfolding register
  register-IsKept c none k ownership replace_existing room h = h
  register-IsKept c (some service) k ownership replace_existing room h =
      let existing = lookup k c.entries in
      if_cases (λ (r : ServiceContext S × Bool). IsKept r.0)
        (not (is_open c.phase) || (is_some existing && not replace_existing)) (λ _. h)
        λ passed. inr (
          store-IsNumbered c service k ownership existing refl room
            (IsNumbered-while_open c (not-or (is_open c.phase) _ passed) h))

  freeze-IsKept : (c : ServiceContext S) → IsKept c → IsKept (freeze c).0
  unfolding freeze
  freeze-IsKept c h =
      if_cases (λ (r : ServiceContext S × Bool). IsKept r.0) (not (is_open c.phase)) (λ _. h)
        λ passed.
          let n = IsNumbered-while_open c (ground (arith, passed)) h in
          inr (record { ascending = n.ascending; below = n.below })

  teardown_from-IsKept :
      (c : ServiceContext S) (traversal : List (ServiceKey × ServiceEntry S))
      (phase : ServiceContextPhase)
      → IsKept c
      → IsKept (teardown_from c traversal phase).0
  unfolding tear_down
  teardown_from-IsKept c traversal opened h = inl refl
  teardown_from-IsKept c traversal frozen h = inl refl
  teardown_from-IsKept c traversal teardown h = h

  reset_from-IsKept :
      (c : ServiceContext S) (phase : ServiceContextPhase)
      → IsKept c
      → IsKept (reset_from c phase).0
  reset_from-IsKept c frozen h = h
  reset_from-IsKept c opened h = inr (record { ascending = tt; below = tt })
  reset_from-IsKept c teardown h = inr (record { ascending = tt; below = tt })

  pub data Step (c : ServiceContext S) : ServiceContext S → Type 0 where
    registered :
        (service : Option S) (k : ServiceKey) (ownership : ServiceOwnership)
        (replace_existing : Bool)
        → c.registration_sequence + 1 < 18446744073709551616
        → Step c (register c service k ownership replace_existing).0
    froze : Step c (freeze c).0
    torn_down :
        (traversal : List (ServiceKey × ServiceEntry S))
        → Permᴰ c.entries traversal
        → Step c (begin_teardown c traversal).0
    was_reset : Step c (reset_for_next_start_cycle c).0

  pub data Reach : ServiceContext S → Type 0 where
    new : Reach new_context
    next : {c d : ServiceContext S} → Reach c → Step c d → Reach d

  Step-IsKept : {c d : ServiceContext S} → Step c d → IsKept c → IsKept d
  unfolding begin_teardown reset_for_next_start_cycle
  Step-IsKept {c} (registered service k ownership replace_existing room) h =
      register-IsKept c service k ownership replace_existing room h
  Step-IsKept {c} froze h = freeze-IsKept c h
  Step-IsKept {c} (torn_down traversal visited) h = teardown_from-IsKept c traversal c.phase h
  Step-IsKept {c} was_reset h = reset_from-IsKept c c.phase h

  pub Reach-IsKept : {c : ServiceContext S} → Reach c → IsKept c
  unfolding new_context
  Reach-IsKept new = inr (record { ascending = tt; below = tt })
  Reach-IsKept (next r s) = Step-IsKept s (Reach-IsKept r)
