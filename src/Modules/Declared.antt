-- ===== src/Modules/Declared.antt =====
-- What the loops before the ordering make of the modules.
use framekit.Base.{
  ◌≡◌, refl, ◌⊎◌, inl, inr, Bool, true, false, not, ◌&&◌, ◌||◌, String, is_blank, List, [], ◌∷◌,
  contains, ◌==◌, string_eq, beq_refl, if_cases, arith,
}
use framekit.Modules.{
  ModuleSpec, ModuleGraphError, set_insert, collect_ids, Dependencies, no_dependencies,
  validate_dependency, validate_dependencies, module_dependencies, build_adjacency,
}
use framekit.Modules.Sizes.{same_test}
use framekit.Modules.Edges.{NoDup, contains-added, contains-set_insert, NoDup-set_insert}

abbrev pub ids : List ModuleSpec → List String
ids [] = []
ids (m ∷ rest) = m.id ∷ ids rest

-- A module names another among its dependencies.
abbrev pub depends : ModuleSpec → String → Bool
depends m x = contains m.required_dependencies x || contains m.optional_dependencies x

-- The set that the first loop makes, or nothing if it returns an error.
abbrev pub Collected : List String → List ModuleSpec → ModuleGraphError ⊎ List String → Type 0
Collected known modules (inl error) = Unit
Collected known modules (inr all) =
    ((x : String) → contains all x ≡ (contains known x || contains (ids modules) x))
    × NoDup all
    × NoDup (ids modules)
    × ((x : String) → contains known x ≡ true → contains (ids modules) x ≡ false)

pub collect_ids-Collected :
    (known : List String) (modules : List ModuleSpec)
    → NoDup known
    → Collected known modules (collect_ids known modules)
unfolding collect_ids contains
collect_ids-Collected known [] h = (λ x. ground arith, h, tt, λ x _. refl)
collect_ids-Collected known (m ∷ rest) h =
    if_cases (Collected known (m ∷ rest)) (is_blank m.id) (λ _. tt)
      λ _.
        if_cases (Collected known (m ∷ rest)) (contains known m.id) (λ _. tt)
          λ new.
            extend (collect_ids (set_insert m.id known) rest)
              (collect_ids-Collected (set_insert m.id known) rest (NoDup-set_insert m.id known h))
              new
  where
    extend :
        (result : ModuleGraphError ⊎ List String)
        → Collected (set_insert m.id known) rest result
        → contains known m.id ≡ false
        → Collected known (m ∷ rest) result
    extend (inl error) _ _ = tt
    extend (inr all) (same, fresh, distinct, apart) new = (
      λ x. ground (arith, same x, contains-set_insert m.id x known),
      fresh,
      (apart m.id (ground (arith, contains-set_insert m.id m.id known, beq_refl m.id)), distinct),
      λ x k. ground (
        arith,
        apart x,
        contains-set_insert m.id x known,
        k,
        new,
        same_test (contains known) m.id x,
      ),
    )

-- The dependencies so far: the declared ones among those that were seen.
record IsListed (known : List String) (d : Dependencies) : Type 0 where
  listed : (x : String) → contains d.adjacent x ≡ (contains known x && contains d.seen x)
  distinct : NoDup d.adjacent

abbrev Listed : List String → Dependencies → List String → ModuleGraphError ⊎ Dependencies → Type 0
Listed known d names (inl error) = Unit
Listed known d names (inr d') =
    IsListed known d'
    × ((x : String) → contains d'.seen x ≡ (contains d.seen x || contains names x))

validate_dependency-Listed :
    (known : List String) (id : String) (d : Dependencies) (name : String) (required : Bool)
    → IsListed known d
    → Listed known d (name ∷ []) (validate_dependency known id d name required)
unfolding validate_dependency contains
validate_dependency-Listed known id d name required h =
    if_cases (Listed known d (name ∷ [])) (name == id) (λ _. tt)
      λ _.
        if_cases (Listed known d (name ∷ [])) (contains d.seen name) (λ _. tt)
          λ _.
            if_cases (Listed known d (name ∷ [])) (required && not (contains known name)) (λ _. tt)
              λ _. (
                record {
                  listed = λ x. ground (
                    arith,
                    contains-added (contains known name) name x d.adjacent,
                    h.listed x,
                    same_test (contains known) name x,
                  );
                  distinct =
                      if_cases NoDup (contains known name)
                        (λ _. NoDup-set_insert name d.adjacent h.distinct) (λ _. h.distinct);
                },
                λ x. ground arith,
              )

validate_dependencies-Listed :
    (known : List String) (id : String) (required : Bool) (d : Dependencies) (names : List String)
    → IsListed known d
    → Listed known d names (validate_dependencies known id required d names)
unfolding validate_dependencies contains
validate_dependencies-Listed known id required d [] h = (h, λ x. ground arith)
validate_dependencies-Listed known id required d (name ∷ names) h =
    after (validate_dependency known id d name required)
      (validate_dependency-Listed known id d name required h)
      (λ d' listed. validate_dependencies-Listed known id required d' names listed)
  where
    after :
        (step : ModuleGraphError ⊎ Dependencies)
        → Listed known d (name ∷ []) step
        → ((d' : Dependencies)
            → IsListed known d'
            → Listed known d' names (validate_dependencies known id required d' names))
        → Listed known d (name ∷ names) (elim step [
          | inl error ↦ inl error
          | inr d' ↦ validate_dependencies known id required d' names
        ])
    after (inl error) _ _ = tt
    after (inr d') (listed, seen) later =
        widen (validate_dependencies known id required d' names) (later d' listed)
      where
        widen :
            (result : ModuleGraphError ⊎ Dependencies)
            → Listed known d' names result
            → Listed known d (name ∷ names) result
        widen (inl error) _ = tt
        widen (inr d'') (listed', seen') = (listed', λ x. ground (arith, seen x, seen' x))

-- What is known of a module's adjacency, or nothing if the loops return an error.
abbrev pub Adjacent : List String → ModuleSpec → ModuleGraphError ⊎ Dependencies → Type 0
Adjacent known m (inl error) = Unit
Adjacent known m (inr d) =
    NoDup d.adjacent × ((x : String) → contains d.adjacent x ≡ (contains known x && depends m x))

module_dependencies-Adjacent :
    (known : List String) (m : ModuleSpec) → Adjacent known m (module_dependencies known m)
unfolding module_dependencies
module_dependencies-Adjacent known m =
    both (validate_dependencies known m.id true no_dependencies m.required_dependencies) (
      validate_dependencies-Listed known m.id true no_dependencies m.required_dependencies
        (record { listed = λ x. unfold contains in ground arith; distinct = tt }))
  where
    finish :
        (d : Dependencies) (result : ModuleGraphError ⊎ Dependencies)
        → ((x : String) → contains d.seen x ≡ contains m.required_dependencies x)
        → Listed known d m.optional_dependencies result
        → Adjacent known m result
    finish d (inl error) _ _ = tt
    finish d (inr d') seen (listed, seen') =
        (listed.distinct, λ x. ground (arith, listed.listed x, seen x, seen' x))

    both :
        (first : ModuleGraphError ⊎ Dependencies)
        → Listed known no_dependencies m.required_dependencies first
        → Adjacent known m (elim first [
          | inl error ↦ inl error
          | inr d ↦ validate_dependencies known m.id false d m.optional_dependencies
        ])
    both (inl error) _ = tt
    both (inr d) (listed, seen) =
        finish d (validate_dependencies known m.id false d m.optional_dependencies)
          (λ x. unfold contains in seen x)
          (validate_dependencies-Listed known m.id false d m.optional_dependencies listed)

-- An adjacency that belongs to the modules, one entry for each and in their order.
abbrev pub Belongs : List String → List ModuleSpec → List (String × List String) → Type 0
Belongs known [] [] = Unit
Belongs known (m ∷ rest) ((id, ds) ∷ adjacency) =
    (id ≡ m.id)
    × NoDup ds
    × ((x : String) → contains ds x ≡ (contains known x && depends m x))
    × Belongs known rest adjacency
Belongs known _ _ = ⊥

abbrev pub Built :
    List String → List ModuleSpec → ModuleGraphError ⊎ List (String × List String) → Type 0
Built known modules (inl error) = Unit
Built known modules (inr adjacency) = Belongs known modules adjacency

pub build_adjacency-Built :
    (known : List String) (modules : List ModuleSpec)
    → Built known modules (build_adjacency known modules)
unfolding build_adjacency
build_adjacency-Built known [] = tt
build_adjacency-Built known (m ∷ rest) =
    front (module_dependencies known m) (module_dependencies-Adjacent known m)
      (build_adjacency known rest) (build_adjacency-Built known rest)
  where
    front :
        (first : ModuleGraphError ⊎ Dependencies)
        → Adjacent known m first
        → (others : ModuleGraphError ⊎ List (String × List String)) → Built known rest others
        → Built known (m ∷ rest) (elim first [
          | inl error ↦ inl error
          | inr d ↦ elim others [
            | inl error ↦ inl error
            | inr adjacency ↦ inr ((m.id, d.adjacent) ∷ adjacency)
          ]
        ])
    front (inl error) _ others _ = tt
    front (inr d) _ (inl error) _ = tt
    front (inr d) (distinct, edges) (inr adjacency) h = (refl, distinct, edges, h)
