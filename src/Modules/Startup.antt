-- ===== src/Modules/Startup.antt =====
-- The startup order: every declared module once, and dependencies before the modules that need them.
use framekit.Base.{
  ℕ, ◌+◌, ◌<◌, ◌≡◌, refl, ap, ◌∙◌, true, not, ◌&&◌, ◌||◌, String, List, [], ◌∷◌, contains,
  remove_if, any, beq_refl, All, nat_eq, string_eq, arith,
}
use framekit.Modules.{ModuleSpec, adjacent}
use framekit.Modules.Sizes.{same_test}
use framekit.Modules.Edges.{NoDup, number, Distinct, keys, pending}
use framekit.Modules.Declared.{ids, depends, Belongs}

-- How many modules that are not in `done` depend on `x`.
pub dependents : List ModuleSpec → (done : List String) → String → ℕ
dependents [] done x = 0
dependents (m ∷ modules) done x =
    number (depends m x && not (contains done m.id)) + dependents modules done x

pub contains-left :
    (done : List String) (x : String) (l : List String)
    → contains (remove_if (contains done) l) x ≡ (contains l x && not (contains done x))
unfolding remove_if contains
contains-left done x [] = refl
contains-left done x (y ∷ l) = ground (arith, contains-left done x l, same_test (contains done) y x)

pub ids-declared :
    (modules all : List ModuleSpec)
    → ((x : String) → contains (ids modules) x ≡ true → contains (ids all) x ≡ true)
    → All (λ m. contains (ids all) m.id ≡ true) modules
unfolding contains
ids-declared [] all sub = tt
ids-declared (m ∷ modules) all sub = (
  sub m.id (ground (arith, beq_refl m.id)),
  ids-declared modules all (λ x h. sub x (ground (arith, h))),
)

module _ (known : List String) where
  pub Belongs-keys :
      (modules : List ModuleSpec) (adjacency : List (String × List String))
      → Belongs known modules adjacency
      → keys adjacency ≡ ids modules
  Belongs-keys [] [] h = refl
  Belongs-keys (m ∷ modules) ((id, ds) ∷ adjacency) (same, _, _, h) =
      ap (λ i. i ∷ keys adjacency) same ∙ ap (◌∷◌ m.id) (Belongs-keys modules adjacency h)
  Belongs-keys [] (_ ∷ _) h = absurd h
  Belongs-keys (_ ∷ _) [] h = absurd h

  pub Belongs-Distinct :
      (modules : List ModuleSpec) (adjacency : List (String × List String))
      → Belongs known modules adjacency
      → Distinct adjacency
  Belongs-Distinct [] [] h = tt
  Belongs-Distinct (m ∷ modules) ((id, ds) ∷ adjacency) (_, distinct, _, h) =
      (distinct, Belongs-Distinct modules adjacency h)
  Belongs-Distinct [] (_ ∷ _) h = absurd h
  Belongs-Distinct (_ ∷ _) [] h = absurd h

  pub Belongs-declared :
      (modules : List ModuleSpec) (adjacency : List (String × List String)) (c x : String)
      → Belongs known modules adjacency
      → contains (adjacent adjacency c) x ≡ true
      → contains known x ≡ true
  unfolding adjacent contains
  Belongs-declared [] [] c x h e = absurd (cc)
  Belongs-declared (m ∷ modules) ((id, ds) ∷ adjacency) c x (_, _, edges, h) e =
      ground (arith, edges x, Belongs-declared modules adjacency c x h, e)
  Belongs-declared [] (_ ∷ _) c x h e = absurd h
  Belongs-declared (_ ∷ _) [] c x h e = absurd h

  pub Belongs-pending :
      (modules : List ModuleSpec) (adjacency : List (String × List String)) (done : List String)
      (x : String)
      → Belongs known modules adjacency
      → contains known x ≡ true
      → pending adjacency done x ≡ dependents modules done x
  unfolding pending dependents
  Belongs-pending [] [] done x h k = refl
  Belongs-pending (m ∷ modules) ((id, ds) ∷ adjacency) done x (same, _, edges, h) k =
      ground
        (arith, edges x, k, Belongs-pending modules adjacency done x h k, ap (contains done) same)
  Belongs-pending [] (_ ∷ _) done x h k = absurd h
  Belongs-pending (_ ∷ _) [] done x h k = absurd h

-- Read from the front: the modules that depend on the first one start after it.
abbrev pub StartsInOrder : List ModuleSpec → List String → Type 0
StartsInOrder modules [] = Unit {0}
StartsInOrder modules (x ∷ rest) =
    All (λ m. (not (depends m x) || contains rest m.id) ≡ true) modules × StartsInOrder modules rest

-- Each module once, and behind those that it depends on.
pub record IsStartup (modules : List ModuleSpec) (order : List String) : Type 0 where
  pub once : NoDup order
  pub every : (x : String) → contains order x ≡ contains (ids modules) x
  pub in_order : StartsInOrder modules order

-- Each of these modules is one that another of them depends on.
pub record IsStuck (modules : List ModuleSpec) (stuck : List String) : Type 0 where
  pub member : String
  pub nonempty : contains stuck member ≡ true
  pub declared : (y : String) → contains stuck y ≡ true → contains (ids modules) y ≡ true
  pub needed :
      (y : String)
      → contains stuck y ≡ true
      → any (λ m. depends m y && contains stuck m.id) modules ≡ true

pub none-dependent :
    (modules : List ModuleSpec) (done : List String) (x : String)
    → dependents modules done x ≡ 0
    → All (λ m. (not (depends m x) || contains done m.id) ≡ true) modules
unfolding dependents
none-dependent [] done x h = tt
none-dependent (m ∷ modules) done x h =
    (ground (arith, h), none-dependent modules done x (ground (arith, h)))

pub some-dependent :
    (modules all : List ModuleSpec) (done : List String) (x : String)
    → All (λ m. contains (ids all) m.id ≡ true) modules
    → 0 < dependents modules done x
    → any (λ m. depends m x && contains (remove_if (contains done) (ids all)) m.id) modules ≡ true
unfolding dependents any
some-dependent [] all done x declared h = absurd (omega (arith, h))
some-dependent (m ∷ modules) all done x declared h = ground (
  arith,
  contains-left done m.id (ids all),
  declared.0,
  some-dependent modules all done x declared.1,
  h,
)
