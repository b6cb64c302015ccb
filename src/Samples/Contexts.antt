-- ===== src/Samples/Contexts.antt =====
-- The service context on concrete registrations.
use mathlib.Core.List.{Permᴰ}
use framekit.Base.{
  ℕ, ◌≢◌, ◌≡◌, refl, true, false, not, ◌&&◌, ◌||◌, is_some, List, [], ◌∷◌, map, reverse, some,
  arith, if◌then◌else◌, ◌==◌,
}
use framekit.Base.Assoc.{lookup, insert}
use framekit.Services.{
  ServiceContext, ServiceKey, ServiceEntry, service_key_eq, teardown, context_owned, external_owned,
  is_open, new_context, register, store, find, begin_teardown, tear_down, owned_entries,
  external_entries, sort_later_first, insert_later_first,
}
use framekit.Base.Falling.{Ascending}
use framekit.Services.Registered.{numbers, Reach, new, next, registered}
use framekit.Services.Lookup.{shown, find-register}
use framekit.Services.Teardown.{ByOwnership, noted, teardown_order}

abbrev clock : ServiceKey
clock = record { contract_type = 1; key = "" }

abbrev log : ServiceKey
log = record { contract_type = 2; key = "main" }

abbrev two_services : ServiceContext ℕ
two_services =
    (register (register new_context (some 10) clock context_owned false).0 (some 20) log
      context_owned false).0

two_services_reached : Reach two_services
unfolding new_context register store lookup
two_services_reached =
    next (next new (registered (some 10) clock context_owned false (omega arith)))
      (registered (some 20) log context_owned false (omega arith))

-- An external service between them in the map, which is visited backwards.
abbrev gui : ServiceKey
gui = record { contract_type = 3; key = "" }

abbrev three_services : ServiceContext ℕ
three_services = (register two_services (some 30) gui external_owned false).0

three_services_reached : Reach three_services
unfolding new_context register store lookup insert
three_services_reached =
    next two_services_reached (registered (some 30) gui external_owned false (omega arith))

abbrev shuffled : List (ServiceKey × ServiceEntry ℕ)
shuffled = reverse three_services.entries

three_services_teardown :
    let d = (begin_teardown three_services shuffled).0 in
    (map (λ r. r.contract_type) d.last_teardown_order ≡ 2 ∷ 1 ∷ [])
    × (map (λ p. p.0) d.entries ≡ gui ∷ [])
unfolding begin_teardown tear_down owned_entries external_entries sort_later_first
    insert_later_first register store new_context lookup insert
three_services_teardown = (refl, refl)

three_services_shuffled : Permᴰ three_services.entries shuffled
unfolding register store new_context lookup insert
three_services_shuffled =
    Permᴰ.trans (Permᴰ.swap refl refl)
      (Permᴰ.trans (Permᴰ.cons refl (Permᴰ.swap refl refl)) (Permᴰ.swap refl refl))

three_services_live : three_services.phase ≢ teardown
unfolding register store new_context lookup insert
three_services_live e = cc

teardown_order_example :
    let (d, done) = begin_teardown three_services shuffled in
    (owned : List (ServiceKey × ServiceEntry ℕ)) × (external : List (ServiceKey × ServiceEntry ℕ))
    × (visited : List (ServiceKey × ServiceEntry ℕ)) × ByOwnership three_services.entries owned
        external
    × Ascending (numbers owned)
    × (d.last_teardown_order ≡ reverse (map noted owned))
    × ByOwnership shuffled visited d.entries
    × (d.phase ≡ teardown)
    × (done ≡ true)
teardown_order_example =
    teardown_order three_services shuffled three_services_reached three_services_live
      three_services_shuffled

find-register_example :
    let (d, done) = register two_services (some 30) log external_owned true in
    (done
      ≡ (is_open two_services.phase && (not (is_some (lookup log two_services.entries)) || true)))
    × (find (λ s. true) d log ≡ (
        if done && log == log
        then shown (λ s. true) 30 external_owned
        else find (λ s. true) two_services log))
find-register_example = find-register (λ s. true) two_services 30 log external_owned true log
