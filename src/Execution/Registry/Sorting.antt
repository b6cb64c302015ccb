-- ===== src/Execution/Registry/Sorting.antt =====
-- The services of a registry by their ownership, and the owned ones sorted: `std::sort` in
-- `BeginShutdown` of `ExecutionServiceRegistry`.
use mathlib.Core.List.{Permᴰ}
use framekit.Base.{
  ℕ, ◌<◌, ◌≡◌, refl, ap, subst, ◌∙◌, String, List, [], ◌∷◌, map, reverse, All, if◌then◌else◌, arith,
}
use framekit.Base.Falling.{Ascending, insert_falling, sort_falling, sort-visited}
use framekit.Base.Parted.{Parted}
use framekit.Execution.Registry.Numbered.{number, numbers}
use framekit.Execution.Registry.{
  RegistryEntry, OrderedService, ExecutionServiceOwnership, ExecutionServiceShutdownRecord,
  context_owned, external_owned, is_external, insert_later, sort_later, owned_services,
  external_services,
}

module _ {S : Type 0} where
  abbrev IsOwned : String × RegistryEntry S → Type 0
  IsOwned (key, entry) = entry.ownership ≡ context_owned

  abbrev IsExternal : String × RegistryEntry S → Type 0
  IsExternal (key, entry) = entry.ownership ≡ external_owned

  -- The owned and the external services of a map, each in the map's order.
  abbrev pub ByOwnership :
      List (String × RegistryEntry S)
      → List (String × RegistryEntry S)
      → List (String × RegistryEntry S)
      → Type 0
  ByOwnership = Parted IsOwned IsExternal

  -- What the shutdown notes of a service.
  abbrev pub noted : String × RegistryEntry S → ExecutionServiceShutdownRecord
  noted (key, entry) = record { key = key; ownership = entry.ownership }

  abbrev pub ordered : String × RegistryEntry S → OrderedService S
  ordered (key, entry) = record {
    key = key;
    owned_instance = entry.owned_instance;
    ownership = entry.ownership;
    sequence = entry.sequence;
  }

  abbrev pub owned_first :
      ExecutionServiceOwnership
      → String × RegistryEntry S
      → List (String × RegistryEntry S)
      → List (String × RegistryEntry S)
  owned_first context_owned p l = p ∷ l
  owned_first external_owned p l = l

  abbrev pub owned_of : List (String × RegistryEntry S) → List (String × RegistryEntry S)
  owned_of [] = []
  owned_of (p ∷ rest) = owned_first p.1.ownership p (owned_of rest)

  owned_services_lem :
      (l : List (String × RegistryEntry S)) → owned_services l ≡ map ordered (owned_of l)
  unfolding owned_services
  owned_services_lem [] = refl
  owned_services_lem ((key, entry) ∷ rest) = ground (arith, owned_services_lem rest)

  ByOwnership-cons :
      (key : String) (entry : RegistryEntry S) (o : ExecutionServiceOwnership)
      (l xs ys : List (String × RegistryEntry S))
      → entry.ownership ≡ o
      → ByOwnership l xs ys
      → ByOwnership
          ((key, entry) ∷ l)
          (owned_first o (key, entry) xs)
          (if is_external o then (key, entry) ∷ ys else ys)
  ByOwnership-cons key entry context_owned l xs ys e h = Parted.in_first e h
  ByOwnership-cons key entry external_owned l xs ys e h = Parted.in_second e h

  pub entries-ByOwnership :
      (l : List (String × RegistryEntry S)) → ByOwnership l (owned_of l) (external_services l)
  unfolding external_services
  entries-ByOwnership [] = Parted.nothing
  entries-ByOwnership ((key, entry) ∷ rest) =
      ByOwnership-cons key entry entry.ownership rest _ _ refl (entries-ByOwnership rest)

  insert_later-ordered :
      (p : String × RegistryEntry S) (l : List (String × RegistryEntry S))
      → insert_later (ordered p) (map ordered l) ≡ map ordered (insert_falling number p l)
  unfolding insert_later insert_falling
  insert_later-ordered p [] = refl
  insert_later-ordered p (q ∷ l) = ground (arith, insert_later-ordered p l)

  sort_later-ordered :
      (l : List (String × RegistryEntry S))
      → sort_later (map ordered l) ≡ map ordered (sort_falling number l)
  unfolding sort_later sort_falling
  sort_later-ordered [] = refl
  sort_later-ordered (p ∷ l) =
      ap (insert_later (ordered p)) (sort_later-ordered l)
      ∙ insert_later-ordered p (sort_falling number l)

  owned_first-Perm :
      (o : ExecutionServiceOwnership) (p q : String × RegistryEntry S)
      {l m : List (String × RegistryEntry S)}
      → p ≡ q
      → Permᴰ l m
      → Permᴰ (owned_first o p l) (owned_first o q m)
  owned_first-Perm context_owned p q e d = Permᴰ.cons e d
  owned_first-Perm external_owned p q e d = d

  Perm-refl : (l : List (String × RegistryEntry S)) → Permᴰ l l
  Perm-refl [] = Permᴰ.nil
  Perm-refl (p ∷ l) = Permᴰ.cons refl (Perm-refl l)

  owned_first-swap :
      (o o' : ExecutionServiceOwnership) (p q : String × RegistryEntry S)
      (l : List (String × RegistryEntry S))
      → Permᴰ (owned_first o p (owned_first o' q l)) (owned_first o' q (owned_first o p l))
  owned_first-swap context_owned context_owned p q l = Permᴰ.swap refl refl
  owned_first-swap context_owned external_owned p q l = Perm-refl (p ∷ l)
  owned_first-swap external_owned context_owned p q l = Perm-refl (q ∷ l)
  owned_first-swap external_owned external_owned p q l = Perm-refl l

  owned_of-Perm :
      {l m : List (String × RegistryEntry S)} → Permᴰ l m → Permᴰ (owned_of l) (owned_of m)
  owned_of-Perm Permᴰ.nil = Permᴰ.nil
  owned_of-Perm (Permᴰ.cons {a} {b} {l₁} {l₂} e d) =
      subst (λ c. Permᴰ (owned_of (a ∷ l₁)) (owned_of (c ∷ l₂))) e
        (owned_first-Perm a.1.ownership a a refl (owned_of-Perm d))
  owned_of-Perm (Permᴰ.swap {a} {b} {a'} {b'} {l} e f) =
      subst (λ c. Permᴰ (owned_of (a ∷ b ∷ l)) (owned_of (c ∷ b' ∷ l))) f
        (subst (λ c. Permᴰ (owned_of (a ∷ b ∷ l)) (owned_of (b ∷ c ∷ l))) e
          (owned_first-swap a.1.ownership b.1.ownership a b (owned_of l)))
  owned_of-Perm (Permᴰ.trans c d) = Permᴰ.trans (owned_of-Perm c) (owned_of-Perm d)

  owned_first-above :
      (o : ExecutionServiceOwnership) (p : String × RegistryEntry S)
      (l : List (String × RegistryEntry S)) (n : ℕ)
      → n < p.1.sequence
      → All (λ m. n < m) (numbers l)
      → All (λ m. n < m) (numbers (owned_first o p l))
  owned_first-above context_owned p l n less h = (less, h)
  owned_first-above external_owned p l n less h = h

  owned_of-above :
      (l : List (String × RegistryEntry S)) (n : ℕ)
      → All (λ m. n < m) (numbers l)
      → All (λ m. n < m) (numbers (owned_of l))
  owned_of-above [] n h = tt
  owned_of-above (p ∷ l) n h =
      owned_first-above p.1.ownership p (owned_of l) n h.0 (owned_of-above l n h.1)

  owned_first-Ascending :
      (o : ExecutionServiceOwnership) (p : String × RegistryEntry S)
      (l : List (String × RegistryEntry S))
      → All (λ m. p.1.sequence < m) (numbers l)
      → Ascending (numbers l)
      → Ascending (numbers (owned_first o p l))
  owned_first-Ascending context_owned p l above h = (above, h)
  owned_first-Ascending external_owned p l above h = h

  pub owned_of-Ascending :
      (l : List (String × RegistryEntry S))
      → Ascending (numbers l)
      → Ascending (numbers (owned_of l))
  owned_of-Ascending [] h = tt
  owned_of-Ascending (p ∷ l) h =
      owned_first-Ascending p.1.ownership p (owned_of l) (owned_of-above l p.1.sequence h.0)
        (owned_of-Ascending l h.1)

  -- In whatever order the map is visited, the owned services come in the reverse of its order.
  pub sort_visited :
      (l traversal : List (String × RegistryEntry S))
      → Permᴰ l traversal
      → Ascending (numbers l)
      → sort_later (owned_services traversal) ≡ map ordered (reverse (owned_of l))
  sort_visited l traversal visited up =
      ap sort_later (owned_services_lem traversal)
      ∙ sort_later-ordered (owned_of traversal)
      ∙ ap (map ordered) (sort-visited number (owned_of-Perm visited) (owned_of-Ascending l up))
