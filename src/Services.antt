-- ===== src/Services.antt =====
-- `ServiceContext` and the default services: include/framekit/service/context.hpp,
-- include/framekit/service/bootstrap.hpp, src/bootstrap_services.cpp.
-- A service is a value of `S`, which stands for the pointer to it; an empty pointer is `none`. A
-- contract type (`std::type_index`) is a number. The locks only make the operations atomic.
pub mod Lookup
pub mod Registered
pub mod Sorting
pub mod Teardown
use framekit.Base.{
  ℕ, ◌+◌, ◌≡◌, ◌↔◌, Bool, true, false, not, ◌&&◌, ◌||◌, String, List, [], ◌∷◌, ◌++◌, map, ◌⊎◌, inl,
  inr, Option, none, some, is_some, length, u64, ltb, Comparable, ◌==◌, nat_eq, string_eq,
  if◌then◌else◌, arith,
}
use framekit.Base.Assoc.{lookup, insert}

pub data ServiceContextPhase : Type 0 where
  opened frozen teardown : ServiceContextPhase

pub data ServiceOwnership : Type 0 where
  context_owned external_owned : ServiceOwnership

pub record ServiceKey : Type 0 where
  pub contract_type : ℕ
  pub key : String

abbrev pub key_beq : ServiceKey → ServiceKey → Bool
key_beq a b = a.contract_type == b.contract_type && a.key == b.key

pub key_beq_iff : (a b : ServiceKey) → (key_beq a b ≡ true) ↔ (a ≡ b)
key_beq_iff a b =
    ground (
      arith,
      nat_eq.is_equal_iff a.contract_type b.contract_type,
      string_eq.is_equal_iff a.key b.key,
    )

instance abbrev pub service_key_eq : Comparable ServiceKey
service_key_eq = record { is_equal = key_beq; is_equal_iff = key_beq_iff }

abbrev pub is_external : ServiceOwnership → Bool
is_external context_owned = false
is_external external_owned = true

pub record ServiceTeardownRecord : Type 0 where
  pub key : String
  pub contract_type : ℕ
  pub ownership : ServiceOwnership

-- An owned service is kept alive by `instance`; an external one is behind the weak pointer.
pub record ServiceEntry (S : Type 0) : Type 0 where
  pub owned_instance : Option S
  pub external_instance : Option S
  pub ownership : ServiceOwnership
  pub sequence : ℕ  -- std::size_t

pub record ServiceContext (S : Type 0) : Type 0 where
  pub phase : ServiceContextPhase
  pub freeze_count : ℕ  -- uint64_t
  pub registration_sequence : ℕ  -- std::size_t
  pub entries : List (ServiceKey × ServiceEntry S)
  pub last_teardown_order : List ServiceTeardownRecord

record DiagnosticsService : Type 0 where
  messages : List String

unfoldable log : DiagnosticsService → String → DiagnosticsService
log d message = record d { messages = d.messages ++ message ∷ [] }

abbrev pub is_open : ServiceContextPhase → Bool
is_open opened = true
is_open _ = false

pub record OrderedEntry : Type 0 where
  pub contract_type : ℕ
  pub key : String
  pub ownership : ServiceOwnership
  pub sequence : ℕ

abbrev pub teardown_record : OrderedEntry → ServiceTeardownRecord
teardown_record item = record {
  key = item.key;
  contract_type = item.contract_type;
  ownership = item.ownership;
}

-- `std::sort` with the later sequence number first.
unfoldable pub insert_later_first : OrderedEntry → List OrderedEntry → List OrderedEntry
insert_later_first e [] = e ∷ []
insert_later_first e (x ∷ xs) =
    if ltb e.sequence x.sequence then x ∷ insert_later_first e xs else e ∷ x ∷ xs

unfoldable pub sort_later_first : List OrderedEntry → List OrderedEntry
sort_later_first [] = []
sort_later_first (x ∷ xs) = insert_later_first x (sort_later_first xs)

module _ {S : Type 0} where
  unfoldable pub new_context : ServiceContext S
  new_context = record {
    phase = opened;
    freeze_count = 0;
    registration_sequence = 0;
    entries = [];
    last_teardown_order = [];
  }

  unfoldable pub freeze : ServiceContext S → ServiceContext S × Bool
  freeze c =
      if not (is_open c.phase)
      then (c, false)
      else (record c { phase = frozen; freeze_count = u64 (c.freeze_count + 1) }, true)

  -- The entry that `Register` stores, by the one it replaces.
  abbrev pub stored : S → ServiceOwnership → ℕ → ServiceEntry S
  stored service context_owned sequence = record {
    owned_instance = some service;
    external_instance = none;
    ownership = context_owned;
    sequence = sequence;
  }
  stored service external_owned sequence = record {
    owned_instance = none;
    external_instance = some service;
    ownership = external_owned;
    sequence = sequence;
  }

  unfoldable pub store :
      ServiceContext S
      → S
      → ServiceKey
      → ServiceOwnership
      → (existing : Option (ServiceEntry S)) → ServiceContext S
  store c service k ownership none = record c {
    registration_sequence = u64 (c.registration_sequence + 1);
    entries = insert k (stored service ownership c.registration_sequence) c.entries;
  }
  store c service k ownership (some entry) = record c {
    entries = insert k (stored service ownership entry.sequence) c.entries;
  }

  unfoldable pub register :
      ServiceContext S
      → Option S
      → ServiceKey
      → ServiceOwnership
      → (replace_existing : Bool) → ServiceContext S × Bool
  unfolding store
  register c none k ownership replace_existing = (c, false)
  register c (some service) k ownership replace_existing =
      let existing = lookup k c.entries in
      if not (is_open c.phase) || (is_some existing && not replace_existing)
      then (c, false)
      else (store c service k ownership existing, true)

  -- `weak_ptr::lock`: whether an external service still exists is not the context's to say.
  abbrev pub instance_of : (is_alive : S → Bool) → ServiceEntry S → ServiceOwnership → Option S
  instance_of is_alive entry context_owned = entry.owned_instance
  instance_of is_alive entry external_owned = elim entry.external_instance [
    | none ↦ none
    | some service ↦ if is_alive service then some service else none
  ]

  abbrev pub found_instance : (is_alive : S → Bool) → Option (ServiceEntry S) → Option S
  found_instance is_alive none = none
  found_instance is_alive (some entry) = instance_of is_alive entry entry.ownership

  abbrev find_in :
      (is_alive : S → Bool) → ServiceContext S → ServiceKey → ServiceContextPhase → Option S
  find_in is_alive c k teardown = none
  find_in is_alive c k _ = found_instance is_alive (lookup k c.entries)

  unfoldable pub find : (is_alive : S → Bool) → ServiceContext S → ServiceKey → Option S
  find is_alive c k = find_in is_alive c k c.phase

  -- `Require` throws where `Find` returns nothing: `inl` is the exception's text.
  unfoldable pub require : (is_alive : S → Bool) → ServiceContext S → ServiceKey → String ⊎ S
  require is_alive c k = elim (find is_alive c k) [
    | none ↦ inl "required service not found"
    | some service ↦ inr service
  ]

  abbrev pub ordered_entry : ServiceKey → ServiceEntry S → OrderedEntry
  ordered_entry k entry = record {
    contract_type = k.contract_type;
    key = k.key;
    ownership = entry.ownership;
    sequence = entry.sequence;
  }

  -- The loop of `BeginTeardown` over the map, in the order `traversal` in which the map is visited.
  unfoldable pub owned_entries : List (ServiceKey × ServiceEntry S) → List OrderedEntry
  owned_entries [] = []
  owned_entries ((k, entry) ∷ rest) =
      if is_external entry.ownership
      then owned_entries rest
      else ordered_entry k entry ∷ owned_entries rest

  unfoldable pub external_entries :
      List (ServiceKey × ServiceEntry S) → List (ServiceKey × ServiceEntry S)
  external_entries [] = []
  external_entries ((k, entry) ∷ rest) =
      if is_external entry.ownership
      then (k, entry) ∷ external_entries rest
      else external_entries rest

  unfoldable pub tear_down :
      ServiceContext S → (traversal : List (ServiceKey × ServiceEntry S)) → ServiceContext S
  tear_down c traversal = record c {
    phase = teardown;
    last_teardown_order = map teardown_record (sort_later_first (owned_entries traversal));
    entries = external_entries traversal;
  }

  -- The second test of `BeginTeardown`, that the phase is neither frozen nor open, never holds.
  abbrev teardown_from :
      ServiceContext S
      → (traversal : List (ServiceKey × ServiceEntry S)) → ServiceContextPhase
      → ServiceContext S × Bool
  teardown_from c traversal teardown = (c, true)
  teardown_from c traversal frozen = (tear_down c traversal, true)
  teardown_from c traversal opened = (tear_down c traversal, true)

  unfoldable pub begin_teardown :
      ServiceContext S → (traversal : List (ServiceKey × ServiceEntry S)) → ServiceContext S × Bool
  unfolding tear_down owned_entries external_entries sort_later_first insert_later_first
  begin_teardown c traversal = teardown_from c traversal c.phase

  abbrev reset_from : ServiceContext S → ServiceContextPhase → ServiceContext S × Bool
  reset_from c frozen = (c, false)
  reset_from c _ = (record c { phase = opened; entries = []; registration_sequence = 0 }, true)

  unfoldable pub reset_for_next_start_cycle : ServiceContext S → ServiceContext S × Bool
  reset_for_next_start_cycle c = reset_from c c.phase

  unfoldable pub service_count : ServiceContext S → ℕ
  service_count c = length c.entries

  -- The services that `RegisterDefaultBootstrapServices` makes are arguments; each is registered
  -- under the empty key of its own type, if the one before was.
  abbrev register_next : ServiceContext S × Bool → S → ℕ → ServiceContext S × Bool
  register_next (c, true) service contract_type =
      register c (some service) (record { contract_type = contract_type; key = "" }) context_owned
        false
  register_next (c, false) service contract_type = (c, false)

  unfoldable pub register_default_bootstrap_services :
      ServiceContext S → (diagnostics configuration timing : S × ℕ) → ServiceContext S × Bool
  register_default_bootstrap_services c (d, d_type) (o, o_type) (t, t_type) =
      register_next (register_next (register_next (c, true) d d_type) o o_type) t t_type
