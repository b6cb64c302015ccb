-- ===== src/Services/Lookup.antt =====
-- `Register` and what `Find` returns afterwards.
use framekit.Base.{
  ℕ, ◌≡◌, refl, ap, sym, ◌∙◌, Bool, true, false, not, ◌&&◌, ◌||◌, List, Option, none, some, is_some,
  true-ne-false, if◌then◌else◌, if_cases, ◌==◌, arith,
}
use framekit.Base.Assoc.{lookup, insert, lookup-insert}
use framekit.Services.{
  ServiceContext, ServiceContextPhase, ServiceKey, ServiceEntry, ServiceOwnership, service_key_eq,
  opened, frozen, teardown, context_owned, external_owned, is_open, stored, store, register,
  found_instance, find_in, find,
}

module _ {S : Type 0} (is_alive : S → Bool) where
  -- What a registered service is found as: an external one only while it exists.
  abbrev pub shown : S → ServiceOwnership → Option S
  shown service context_owned = some service
  shown service external_owned = if is_alive service then some service else none

  found-stored :
      (service : S) (ownership : ServiceOwnership) (n : ℕ)
      → found_instance is_alive (some (stored service ownership n)) ≡ shown service ownership
  found-stored service context_owned n = refl
  found-stored service external_owned n = refl

  found-chosen :
      (service : S) (ownership : ServiceOwnership) (n : ℕ) (o : Option (ServiceEntry S)) (b : Bool)
      → found_instance is_alive (if b then some (stored service ownership n) else o)
        ≡ (if b then shown service ownership else found_instance is_alive o)
  found-chosen service ownership n o true = found-stored service ownership n
  found-chosen service ownership n o false = refl

  find_in-open :
      (c : ServiceContext S) (k : ServiceKey) (phase : ServiceContextPhase)
      → is_open phase ≡ true
      → find_in is_alive c k phase ≡ found_instance is_alive (lookup k c.entries)
  find_in-open c k opened h = refl
  find_in-open c k frozen h = absurd (true-ne-false (sym h))
  find_in-open c k teardown h = absurd (true-ne-false (sym h))

  found-insert :
      (k j : ServiceKey) (service : S) (ownership : ServiceOwnership) (n : ℕ)
      (m : List (ServiceKey × ServiceEntry S))
      → found_instance is_alive (lookup j (insert k (stored service ownership n) m))
        ≡ (if k == j then shown service ownership else found_instance is_alive (lookup j m))
  found-insert k j service ownership n m =
      ap (found_instance is_alive) (lookup-insert k j (stored service ownership n) m)
      ∙ found-chosen service ownership n (lookup j m) (k == j)

  find-store :
      (c : ServiceContext S) (service : S) (k j : ServiceKey) (ownership : ServiceOwnership)
      (existing : Option (ServiceEntry S))
      → is_open c.phase ≡ true
      → find is_alive (store c service k ownership existing) j
        ≡ (if k == j then shown service ownership else find is_alive c j)
  unfolding find store
  find-store c service k j ownership none open_ =
      find_in-open (store c service k ownership none) j c.phase open_
      ∙ found-insert k j service ownership _ c.entries
      ∙ ap (λ o. if k == j then shown service ownership else o)
          (sym (find_in-open c j c.phase open_))
  find-store c service k j ownership (some entry) open_ =
      find_in-open (store c service k ownership (some entry)) j c.phase open_
      ∙ found-insert k j service ownership _ c.entries
      ∙ ap (λ o. if k == j then shown service ownership else o)
          (sym (find_in-open c j c.phase open_))

  abbrev Registered :
      ServiceContext S
      → S
      → ServiceKey
      → ServiceOwnership
      → (replace_existing : Bool) → ServiceKey
      → ServiceContext S × Bool
      → Type 0
  Registered c service k ownership replace_existing j (d, done) =
      (done ≡ (is_open c.phase && (not (is_some (lookup k c.entries)) || replace_existing)))
      × (find is_alive d j
          ≡ (if done && k == j then shown service ownership else find is_alive c j))

  -- `Register` succeeds on a context that is open, under a key that is free or may be replaced.
  -- Then `Find` returns the service for that key, an external one only while it exists, and what it
  -- returned before for any other key; and when `Register` refuses, nothing changes for `Find`.
  pub find-register :
      (c : ServiceContext S) (service : S) (k : ServiceKey) (ownership : ServiceOwnership)
      (replace_existing : Bool) (j : ServiceKey)
      → let (d, done) = register c (some service) k ownership replace_existing in
        (done ≡ (is_open c.phase && (not (is_some (lookup k c.entries)) || replace_existing)))
        × (find is_alive d j
            ≡ (if done && k == j then shown service ownership else find is_alive c j))
  unfolding register
  find-register c service k ownership replace_existing j =
      if_cases (Registered c service k ownership replace_existing j)
        (not (is_open c.phase) || (is_some (lookup k c.entries) && not replace_existing))
        (λ refused. (ground (arith, refused), refl))
        (λ passed.
          (ground (arith, passed), find-store c service k j ownership _ (ground (arith, passed))))
