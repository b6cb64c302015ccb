-- ===== src/Services/Teardown.antt =====
-- The order of the teardown: the latest registration first, in whatever order the map is visited.
use mathlib.Core.List.{Permᴰ}
use framekit.Base.{
  ℕ, ◌<◌, ◌≡◌, refl, ◌≢◌, ap, sym, subst, ◌∙◌, inl, inr, Bool, true, List, [], ◌∷◌, map, reverse,
  All, if◌then◌else◌, arith,
}
use framekit.Base.Parted.{Parted, map-reverse}
use framekit.Base.Falling.{Ascending}
use framekit.Services.Registered.{numbers, Reach, Reach-IsKept, IsKept}
use framekit.Services.{
  ServiceContext, ServiceContextPhase, ServiceKey, ServiceEntry, ServiceOwnership,
  ServiceTeardownRecord, context_owned, external_owned, teardown, frozen, opened, is_external,
  ordered_entry, teardown_record, owned_entries, external_entries, tear_down, teardown_from,
  begin_teardown,
}
use framekit.Services.Sorting.{Rising, sort-Rising, sorted-Perm, Apart-Ascending, owned-Rising}

module _ {S : Type 0} where
  abbrev IsOwned : ServiceKey × ServiceEntry S → Type 0
  IsOwned (k, entry) = entry.ownership ≡ context_owned

  abbrev IsExternal : ServiceKey × ServiceEntry S → Type 0
  IsExternal (k, entry) = entry.ownership ≡ external_owned

  -- What the teardown notes of a service.
  abbrev pub noted : ServiceKey × ServiceEntry S → ServiceTeardownRecord
  noted (k, entry) = record {
    key = k.key;
    contract_type = k.contract_type;
    ownership = entry.ownership;
  }

  -- The owned and the external services of a map, each in the map's order.
  abbrev pub ByOwnership :
      List (ServiceKey × ServiceEntry S)
      → List (ServiceKey × ServiceEntry S)
      → List (ServiceKey × ServiceEntry S)
      → Type 0
  ByOwnership = Parted IsOwned IsExternal

  abbrev owned_first :
      ServiceOwnership
      → ServiceKey × ServiceEntry S
      → List (ServiceKey × ServiceEntry S)
      → List (ServiceKey × ServiceEntry S)
  owned_first context_owned p l = p ∷ l
  owned_first external_owned p l = l

  abbrev owned_of : List (ServiceKey × ServiceEntry S) → List (ServiceKey × ServiceEntry S)
  owned_of [] = []
  owned_of ((k, entry) ∷ rest) = owned_first entry.ownership (k, entry) (owned_of rest)

  owned_entries_lem :
      (l : List (ServiceKey × ServiceEntry S))
      → owned_entries l ≡ map (λ p. ordered_entry p.0 p.1) (owned_of l)
  unfolding owned_entries
  owned_entries_lem [] = refl
  owned_entries_lem ((k, entry) ∷ rest) = ground (arith, owned_entries_lem rest)

  ByOwnership-cons :
      (k : ServiceKey) (entry : ServiceEntry S) (o : ServiceOwnership)
      (l xs ys : List (ServiceKey × ServiceEntry S))
      → entry.ownership ≡ o
      → ByOwnership l xs ys
      → ByOwnership
          ((k, entry) ∷ l)
          (owned_first o (k, entry) xs)
          (if is_external o then (k, entry) ∷ ys else ys)
  ByOwnership-cons k entry context_owned l xs ys e h = Parted.in_first e h
  ByOwnership-cons k entry external_owned l xs ys e h = Parted.in_second e h

  entries-ByOwnership :
      (l : List (ServiceKey × ServiceEntry S)) → ByOwnership l (owned_of l) (external_entries l)
  unfolding external_entries
  entries-ByOwnership [] = Parted.nothing
  entries-ByOwnership ((k, entry) ∷ rest) =
      ByOwnership-cons k entry entry.ownership rest _ _ refl (entries-ByOwnership rest)

  numbers-mapped :
      (l : List (ServiceKey × ServiceEntry S))
      → Rising (map (λ p. ordered_entry p.0 p.1) l)
      → Ascending (numbers l)
  numbers-mapped [] h = tt
  numbers-mapped ((k, entry) ∷ l) h = (above l entry.sequence h.0, numbers-mapped l h.1)
    where
      above :
          (l : List (ServiceKey × ServiceEntry S)) (n : ℕ)
          → All (λ y. n < y.sequence) (map (λ p. ordered_entry p.0 p.1) l)
          → All (λ m. n < m) (numbers l)
      above [] n h = tt
      above ((k, entry) ∷ l) n h = (h.0, above l n h.1)

  map-noted :
      (l : List (ServiceKey × ServiceEntry S))
      → map teardown_record (map (λ p. ordered_entry p.0 p.1) l) ≡ map noted l
  map-noted [] = refl
  map-noted (p ∷ l) = ap (◌∷◌ (noted p)) (map-noted l)

  reverse-noted :
      (l : List (ServiceKey × ServiceEntry S))
      → map teardown_record (reverse (owned_entries l)) ≡ reverse (map noted (owned_of l))
  reverse-noted l =
      map-reverse teardown_record (owned_entries l)
      ∙ ap (λ m. reverse (map teardown_record m)) (owned_entries_lem l)
      ∙ ap reverse (map-noted (owned_of l))

  abbrev TornDown :
      ServiceContext S → List (ServiceKey × ServiceEntry S) → ServiceContext S × Bool → Type 0
  TornDown c traversal (d, done) =
      (owned : List (ServiceKey × ServiceEntry S)) × (external : List (ServiceKey × ServiceEntry S))
      × (visited : List (ServiceKey × ServiceEntry S)) × ByOwnership c.entries owned external
      × Ascending (numbers owned)
      × (d.last_teardown_order ≡ reverse (map noted owned))
      × ByOwnership traversal visited d.entries
      × (d.phase ≡ teardown)
      × (done ≡ true)

  teardown_from-live :
      (c : ServiceContext S) (traversal : List (ServiceKey × ServiceEntry S))
      (phase : ServiceContextPhase)
      → phase ≢ teardown
      → teardown_from c traversal phase ≡ (tear_down c traversal, true)
  teardown_from-live c traversal opened live = refl
  teardown_from-live c traversal frozen live = refl
  teardown_from-live c traversal teardown live = absurd (live refl)

  Ascending-live :
      (c : ServiceContext S) → c.phase ≢ teardown → IsKept c → Ascending (numbers c.entries)
  Ascending-live c live (inl torn) = absurd (live torn)
  Ascending-live c live (inr h) = h.ascending

  torn-down :
      (c : ServiceContext S) (traversal : List (ServiceKey × ServiceEntry S))
      → Ascending (numbers c.entries)
      → Permᴰ c.entries traversal
      → TornDown c traversal (tear_down c traversal, true)
  unfolding tear_down
  torn-down c traversal up visited =
      let rising = owned-Rising c.entries up in
      (
        owned_of c.entries,
        external_entries c.entries,
        owned_of traversal,
        entries-ByOwnership c.entries,
        numbers-mapped (owned_of c.entries) (subst Rising (owned_entries_lem c.entries) rising),
        ap (map teardown_record)
              (sym (sorted-Perm visited (Apart-Ascending c.entries up)) ∙ sort-Rising _ rising)
            ∙ reverse-noted c.entries,
        entries-ByOwnership traversal,
        refl,
        refl,
      )

  -- Tearing down a context that was made by its operations, with fewer than 2^64 registrations,
  -- records the owned services in the reverse of the order in which they were registered (their
  -- numbers rise along the entries), in whatever order the map is visited. All the external services
  -- are left, in the order of the visit, and nothing else is.
  pub teardown_order :
      (c : ServiceContext S) (traversal : List (ServiceKey × ServiceEntry S))
      → Reach c
      → c.phase ≢ teardown
      → Permᴰ c.entries traversal
      → let (d, done) = begin_teardown c traversal in
        (owned : List (ServiceKey × ServiceEntry S)) × (external : List
          (ServiceKey × ServiceEntry S))
        × (visited : List (ServiceKey × ServiceEntry S)) × ByOwnership c.entries owned external
        × Ascending (numbers owned)
        × (d.last_teardown_order ≡ reverse (map noted owned))
        × ByOwnership traversal visited d.entries
        × (d.phase ≡ teardown)
        × (done ≡ true)
  unfolding begin_teardown
  teardown_order c traversal r live visited =
      subst (TornDown c traversal) (sym (teardown_from-live c traversal c.phase live))
        (torn-down c traversal (Ascending-live c live (Reach-IsKept r)) visited)
