-- ===== src/Execution/Registry.antt =====
-- `ExecutionServiceRegistry`: include/framekit/service/execution.hpp.
-- A service is a value of `S`, which stands for the pointer to it; an empty pointer is `none`. What
-- `BeginShutdown` and `AwaitShutdown` of a service do is a parameter, on a world.
pub mod Numbered
pub mod Sorting
pub mod Shutdown
use framekit.Base.{
  ℕ, ◌+◌, Bool, true, false, not, ◌&&◌, ◌||◌, String, List, [], ◌∷◌, ◌++◌, map, Option, none, some,
  is_some, length, u64, ltb, string_eq, if◌then◌else◌,
}
use framekit.Base.Assoc.{lookup, insert}

pub data ExecutionServicePhase : Type 0 where
  opened frozen shutting_down : ExecutionServicePhase

pub data ExecutionServiceOwnership : Type 0 where
  context_owned external_owned : ExecutionServiceOwnership

abbrev pub is_external : ExecutionServiceOwnership → Bool
is_external context_owned = false
is_external external_owned = true

pub record ExecutionServiceShutdownRecord : Type 0 where
  pub key : String
  pub ownership : ExecutionServiceOwnership

pub record RegistryEntry (S : Type 0) : Type 0 where
  pub owned_instance : Option S
  pub external_instance : Option S
  pub ownership : ExecutionServiceOwnership
  pub sequence : ℕ  -- std::size_t

pub record OrderedService (S : Type 0) : Type 0 where
  pub key : String
  pub owned_instance : Option S
  pub ownership : ExecutionServiceOwnership
  pub sequence : ℕ

pub record Registry (S : Type 0) : Type 0 where
  pub phase : ExecutionServicePhase
  pub freeze_count : ℕ  -- uint64_t
  pub registration_sequence : ℕ  -- std::size_t
  pub entries : List (String × RegistryEntry S)
  pub last_shutdown_order : List ExecutionServiceShutdownRecord

abbrev pub is_open : ExecutionServicePhase → Bool
is_open opened = true
is_open _ = false

module _ {S : Type 0} where
  unfoldable pub new_registry : Registry S
  new_registry = record {
    phase = opened;
    freeze_count = 0;
    registration_sequence = 0;
    entries = [];
    last_shutdown_order = [];
  }

  unfoldable pub freeze_registry : Registry S → Registry S × Bool
  freeze_registry r =
      if not (is_open r.phase)
      then (r, false)
      else (record r { phase = frozen; freeze_count = u64 (r.freeze_count + 1) }, true)

  -- The entry that `Register` makes; an external service is behind the weak pointer.
  abbrev pub registry_entry : S → ExecutionServiceOwnership → ℕ → RegistryEntry S
  registry_entry service external_owned sequence = record {
    owned_instance = none;
    external_instance = some service;
    ownership = external_owned;
    sequence = sequence;
  }
  registry_entry service context_owned sequence = record {
    owned_instance = some service;
    external_instance = none;
    ownership = context_owned;
    sequence = sequence;
  }

  unfoldable pub store_service :
      Registry S
      → S
      → String
      → ExecutionServiceOwnership
      → (found : Option (RegistryEntry S)) → Registry S
  store_service r service key ownership none = record r {
    registration_sequence = u64 (r.registration_sequence + 1);
    entries = insert key (registry_entry service ownership r.registration_sequence) r.entries;
  }
  store_service r service key ownership (some entry) = record r {
    entries = insert key (registry_entry service ownership entry.sequence) r.entries;
  }

  unfoldable pub register_service :
      Registry S
      → Option S
      → String
      → ExecutionServiceOwnership
      → (replace_existing : Bool) → Registry S × Bool
  unfolding store_service
  register_service r none key ownership replace_existing = (r, false)
  register_service r (some service) key ownership replace_existing =
      let found = lookup key r.entries in
      if not (is_open r.phase) || (is_some found && not replace_existing)
      then (r, false)
      else (store_service r service key ownership found, true)

  -- `weak_ptr::lock`: whether an external service still exists is not the registry's to say.
  abbrev pub live_instance :
      (is_alive : S → Bool) → RegistryEntry S → ExecutionServiceOwnership → Option S
  live_instance is_alive entry external_owned = elim entry.external_instance [
    | none ↦ none
    | some service ↦ if is_alive service then some service else none
  ]
  live_instance is_alive entry context_owned = entry.owned_instance

  abbrev pub found_service : (is_alive : S → Bool) → Option (RegistryEntry S) → Option S
  found_service is_alive none = none
  found_service is_alive (some entry) = live_instance is_alive entry entry.ownership

  abbrev pub find_service_in :
      (is_alive : S → Bool) → Registry S → String → ExecutionServicePhase → Option S
  find_service_in is_alive r key shutting_down = none
  find_service_in is_alive r key _ = found_service is_alive (lookup key r.entries)

  unfoldable pub find_service : (is_alive : S → Bool) → Registry S → String → Option S
  find_service is_alive r key = find_service_in is_alive r key r.phase

  -- `std::sort` with the later sequence number first.
  unfoldable pub insert_later : OrderedService S → List (OrderedService S) → List (OrderedService S)
  insert_later e [] = e ∷ []
  insert_later e (x ∷ xs) = if ltb e.sequence x.sequence then x ∷ insert_later e xs else e ∷ x ∷ xs

  unfoldable pub sort_later : List (OrderedService S) → List (OrderedService S)
  sort_later [] = []
  sort_later (x ∷ xs) = insert_later x (sort_later xs)

  -- The loop over the map, in the order `traversal` in which the map is visited.
  unfoldable pub owned_services : List (String × RegistryEntry S) → List (OrderedService S)
  owned_services [] = []
  owned_services ((key, entry) ∷ rest) =
      if is_external entry.ownership
      then owned_services rest
      else record {
        key = key;
        owned_instance = entry.owned_instance;
        ownership = entry.ownership;
        sequence = entry.sequence;
      }
        ∷ owned_services rest

  unfoldable pub external_services :
      List (String × RegistryEntry S) → List (String × RegistryEntry S)
  external_services [] = []
  external_services ((key, entry) ∷ rest) =
      if is_external entry.ownership
      then (key, entry) ∷ external_services rest
      else external_services rest

  abbrev pub shutdown_record : OrderedService S → ExecutionServiceShutdownRecord
  shutdown_record item = record { key = item.key; ownership = item.ownership }

  unfoldable pub begin_registry_shutdown :
      Registry S → (traversal : List (String × RegistryEntry S)) → Registry S
  begin_registry_shutdown r traversal = record r {
    phase = shutting_down;
    last_shutdown_order = map shutdown_record (sort_later (owned_services traversal));
    entries = external_services traversal;
  }

  abbrev reset_registry_from : Registry S → ExecutionServicePhase → Registry S × Bool
  reset_registry_from r frozen = (r, false)
  reset_registry_from r _ =
      (record r { phase = opened; entries = []; registration_sequence = 0 }, true)

  unfoldable pub reset_registry : Registry S → Registry S × Bool
  reset_registry r = reset_registry_from r r.phase

  unfoldable pub registered_count : Registry S → ℕ
  registered_count r = length r.entries

  module _ {W : Type 0} (begin await : S → W → W × Bool) where
    -- One round of the loop over the ordered services, with the value of `ok` so far.
    unfoldable pub shut_down_service : Option S → W → Bool → W × Bool
    shut_down_service none w ok = (w, false)
    shut_down_service (some service) w ok =
        let (begun, has_begun) = begin service w in
        let (awaited, has_ended) = await service begun in (awaited, has_ended && (has_begun && ok))

    unfoldable pub shut_down_services : List (OrderedService S) → W → Bool → W × Bool
    unfolding shut_down_service
    shut_down_services [] w ok = (w, ok)
    shut_down_services (item ∷ rest) w ok =
        let (w', ok') = shut_down_service item.owned_instance w ok in shut_down_services rest w' ok'

    abbrev shut_down_from :
        Registry S
        → (traversal : List (String × RegistryEntry S)) → W
        → ExecutionServicePhase
        → Registry S × W × Bool
    shut_down_from r traversal w shutting_down = (r, w, true)
    shut_down_from r traversal w _ =
        let (w', ok) = shut_down_services (sort_later (owned_services traversal)) w true in
        (begin_registry_shutdown r traversal, w', ok)

    -- The second test of `BeginShutdown`, that the phase is neither open nor frozen, never holds.
    unfoldable pub shut_down_registry :
        Registry S → (traversal : List (String × RegistryEntry S)) → W → Registry S × W × Bool
    unfolding begin_registry_shutdown owned_services external_services sort_later insert_later
        shut_down_services
    shut_down_registry r traversal w = shut_down_from r traversal w r.phase
