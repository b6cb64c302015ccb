-- ===== src/Execution/Registry/Shutdown.antt =====
-- The shutdown of the registry: which services are called, and in which order.
use mathlib.Core.List.{Permᴰ}
use framekit.Base.{
  ◌≡◌, ◌≢◌, refl, ap, ◌∙◌, inl, inr, Bool, true, false, ◌&&◌, String, List, [], ◌∷◌, ◌++◌, map,
  reverse, Option, none, some, arith,
}
use framekit.Base.Calls.{make_calls, make_calls-append}
use framekit.Base.Falling.{Ascending}
use framekit.Base.Parted.{map-reverse}
use framekit.Execution.Registry.Numbered.{numbers, IsKept, Reach, Reach-IsKept}
use framekit.Execution.Registry.{
  Registry, RegistryEntry, OrderedService, ExecutionServicePhase, opened, frozen, shutting_down,
  sort_later, owned_services, external_services, shutdown_record, begin_registry_shutdown,
  shut_down_service, shut_down_services, shut_down_from, shut_down_registry,
}
use framekit.Execution.Registry.Sorting.{
  ByOwnership, noted, ordered, owned_of, entries-ByOwnership, owned_of-Ascending, sort_visited,
}

module _ {S : Type 0} where
  map-noted :
      (l : List (String × RegistryEntry S)) → map shutdown_record (map ordered l) ≡ map noted l
  map-noted [] = refl
  map-noted (p ∷ l) = ap (◌∷◌ (noted p)) (map-noted l)

  Ascending-live :
      (r : Registry S) → r.phase ≢ shutting_down → IsKept r → Ascending (numbers r.entries)
  Ascending-live r live (inl down) = absurd (live down)
  Ascending-live r live (inr h) = h.ascending

  module _ {W : Type 0} (begin await : S → W → W × Bool) where
    -- What is called for the services: each begins to shut down and is awaited; a missing instance
    -- counts as a failure.
    abbrev pub instance_calls : Option S → List (W → W × Bool)
    instance_calls none = (λ w. (w, false)) ∷ []
    instance_calls (some service) = begin service ∷ await service ∷ []

    abbrev pub service_calls : List (String × RegistryEntry S) → List (W → W × Bool)
    service_calls [] = []
    service_calls ((key, entry) ∷ rest) = instance_calls entry.owned_instance ++ service_calls rest

    shut_down_service-calls :
        (o : Option S) (w : W) (ok : Bool)
        → shut_down_service begin await o w ok
          ≡ ((make_calls (instance_calls o) w).0, (make_calls (instance_calls o) w).1 && ok)
    unfolding shut_down_service
    shut_down_service-calls none w ok = refl
    shut_down_service-calls (some service) w ok = ground arith

    shut_down_services-calls :
        (l : List (String × RegistryEntry S)) (w : W) (ok : Bool)
        → shut_down_services begin await (map ordered l) w ok
          ≡ ((make_calls (service_calls l) w).0, (make_calls (service_calls l) w).1 && ok)
    unfolding shut_down_services
    shut_down_services-calls [] w ok = refl
    shut_down_services-calls ((key, entry) ∷ rest) w ok =
        let (w', ok') = shut_down_service begin await entry.owned_instance w ok in
        ground (
          arith,
          shut_down_services-calls rest w' ok',
          shut_down_service-calls entry.owned_instance w ok,
          make_calls-append (instance_calls entry.owned_instance) (service_calls rest) w,
        )

    and-true : (b : Bool) → b && true ≡ b
    and-true b = ground arith

    sorted_calls :
        (l : List (String × RegistryEntry S)) (sorted : List (OrderedService S)) (w : W)
        → sorted ≡ map ordered l
        → shut_down_services begin await sorted w true ≡ make_calls (service_calls l) w
    sorted_calls l sorted w e =
        ap (λ m. shut_down_services begin await m w true) e
        ∙ shut_down_services-calls l w true
        ∙ ap (λ b. ((make_calls (service_calls l) w).0, b)) (and-true _)

    abbrev ShutDown :
        Registry S → List (String × RegistryEntry S) → W → Registry S × W × Bool → Type 0
    ShutDown r traversal w (r', w', ok) =
        (owned : List (String × RegistryEntry S)) × (external : List (String × RegistryEntry S))
        × (visited : List (String × RegistryEntry S)) × ByOwnership r.entries owned external
        × Ascending (numbers owned)
        × ((w', ok) ≡ make_calls (service_calls (reverse owned)) w)
        × (r'.last_shutdown_order ≡ reverse (map noted owned))
        × ByOwnership traversal visited r'.entries
        × (r'.phase ≡ shutting_down)

    begun-ShutDown :
        (r : Registry S) (traversal : List (String × RegistryEntry S)) (w : W)
        → Ascending (numbers r.entries)
        → Permᴰ r.entries traversal
        → let (w', ok) =
            shut_down_services begin await (sort_later (owned_services traversal)) w true in
          ShutDown r traversal w (begin_registry_shutdown r traversal, w', ok)
    unfolding begin_registry_shutdown
    begun-ShutDown r traversal w up visited =
        let sorted = sort_visited r.entries traversal visited up in
        let owned = owned_of r.entries in
        (
          owned,
          external_services r.entries,
          owned_of traversal,
          entries-ByOwnership r.entries,
          owned_of-Ascending r.entries up,
          sorted_calls (reverse owned) _ w sorted,
          ap (map shutdown_record) sorted ∙ map-noted (reverse owned) ∙ map-reverse noted owned,
          entries-ByOwnership traversal,
          refl,
        )

    shut_down_from-ShutDown :
        (r : Registry S) (traversal : List (String × RegistryEntry S)) (w : W)
        (phase : ExecutionServicePhase)
        → Ascending (numbers r.entries)
        → Permᴰ r.entries traversal
        → phase ≢ shutting_down
        → ShutDown r traversal w (shut_down_from begin await r traversal w phase)
    shut_down_from-ShutDown r traversal w opened up visited live =
        begun-ShutDown r traversal w up visited
    shut_down_from-ShutDown r traversal w frozen up visited live =
        begun-ShutDown r traversal w up visited
    shut_down_from-ShutDown r traversal w shutting_down up visited live = absurd (live refl)

    -- A registry that was made by its operations, with fewer than 2^64 registrations, and is not
    -- shutting down yet shuts down all its owned services in the reverse of the order in which they
    -- were registered (their numbers rise along the entries), in whatever order the map is visited:
    -- each one begins to shut down and is then awaited, whatever fails, and the result says whether
    -- all did succeed. The order is recorded, and all the external services are left, in the order
    -- of the visit, and nothing else is.
    pub shut_down_registry_lem :
        (r : Registry S) (traversal : List (String × RegistryEntry S)) (w : W)
        → Reach r
        → r.phase ≢ shutting_down
        → Permᴰ r.entries traversal
        → let (r', w', ok) = shut_down_registry begin await r traversal w in
          (owned : List (String × RegistryEntry S)) × (external : List (String × RegistryEntry S))
          × (visited : List (String × RegistryEntry S)) × ByOwnership r.entries owned external
          × Ascending (numbers owned)
          × ((w', ok) ≡ make_calls (service_calls (reverse owned)) w)
          × (r'.last_shutdown_order ≡ reverse (map noted owned))
          × ByOwnership traversal visited r'.entries
          × (r'.phase ≡ shutting_down)
    unfolding shut_down_registry
    shut_down_registry_lem r traversal w reached live visited =
        shut_down_from-ShutDown r traversal w r.phase (Ascending-live r live (Reach-IsKept reached))
          visited live
