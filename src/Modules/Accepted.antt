-- ===== src/Modules/Accepted.antt =====
-- What an accepted graph's declarations satisfy.
use framekit.Base.{
  ◌≡◌, refl, sym, ◌∙◌, ◌⊎◌, inl, inr, Bool, true, false, not, ◌&&◌, ◌||◌, String, List, [], ◌∷◌,
  contains, All, All-mono, ◌==◌, string_eq, if_cases, arith,
}
use framekit.Modules.{
  ModuleSpec, ModuleGraphError, collect_ids, Dependencies, no_dependencies, validate_dependency,
  validate_dependencies, module_dependencies, build_adjacency, validate_known,
  validate_module_graph,
}
use framekit.Modules.Sizes.{same_test}
use framekit.Modules.Edges.{NoDup}
use framekit.Modules.Declared.{ids, depends, Collected, collect_ids-Collected}
use framekit.Modules.Outcome.{refused, graph_of, known_of}

-- None of the names is the module's own, and the required ones are declared.
abbrev Checked :
    List String → String → Bool → List String → ModuleGraphError ⊎ Dependencies → Type 0
Checked known id required names (inl error) = Unit
Checked known id required names (inr d) =
    (contains names id ≡ false)
    × ((x : String) → contains names x ≡ true → (not required || contains known x) ≡ true)

validate_dependency-Checked :
    (known : List String) (id : String) (d : Dependencies) (name : String) (required : Bool)
    → Checked known id required (name ∷ []) (validate_dependency known id d name required)
unfolding validate_dependency contains
validate_dependency-Checked known id d name required =
    if_cases (Checked known id required (name ∷ [])) (name == id) (λ _. tt)
      λ other.
        if_cases (Checked known id required (name ∷ [])) (contains d.seen name) (λ _. tt)
          λ _.
            if_cases (Checked known id required (name ∷ [])) (required && not (contains known name))
              (λ _. tt)
              λ declared. (
                ground (arith, other),
                λ x e. ground (arith, declared, e, same_test (contains known) name x),
              )

validate_dependencies-Checked :
    (known : List String) (id : String) (required : Bool) (d : Dependencies) (names : List String)
    → Checked known id required names (validate_dependencies known id required d names)
unfolding validate_dependencies contains
validate_dependencies-Checked known id required d [] = (refl, λ x e. absurd (cc))
validate_dependencies-Checked known id required d (name ∷ names) =
    after (validate_dependency known id d name required)
      (validate_dependency-Checked known id d name required)
      (λ d'. validate_dependencies-Checked known id required d' names)
  where
    after :
        (step : ModuleGraphError ⊎ Dependencies)
        → Checked known id required (name ∷ []) step
        → ((d' : Dependencies)
            → Checked known id required names (validate_dependencies known id required d' names))
        → Checked known id required (name ∷ names) (elim step [
          | inl error ↦ inl error
          | inr d' ↦ validate_dependencies known id required d' names
        ])
    after (inl error) _ _ = tt
    after (inr d') (other, declared) later =
        widen (validate_dependencies known id required d' names) (later d')
      where
        widen :
            (result : ModuleGraphError ⊎ Dependencies)
            → Checked known id required names result
            → Checked known id required (name ∷ names) result
        widen (inl error) _ = tt
        widen (inr d'') (other', declared') =
            (ground (arith, other, other'), λ x e. ground (arith, declared x, declared' x, e))

-- A module whose dependencies are in order, over the ids that are declared.
pub record IsDeclared (declared : List String) (m : ModuleSpec) : Type 0 where
  pub not_itself : depends m m.id ≡ false
  pub required_declared :
      (x : String) → contains m.required_dependencies x ≡ true → contains declared x ≡ true

abbrev AllDeclared :
    List String → List ModuleSpec → ModuleGraphError ⊎ List (String × List String) → Type 0
AllDeclared known modules (inl error) = Unit
AllDeclared known modules (inr adjacency) = All (IsDeclared known) modules

abbrev OneDeclared : List String → ModuleSpec → ModuleGraphError ⊎ Dependencies → Type 0
OneDeclared known m (inl error) = Unit
OneDeclared known m (inr d) = IsDeclared known m

module_dependencies-IsDeclared :
    (known : List String) (m : ModuleSpec) → OneDeclared known m (module_dependencies known m)
unfolding module_dependencies
module_dependencies-IsDeclared known m =
    both (validate_dependencies known m.id true no_dependencies m.required_dependencies)
      (validate_dependencies-Checked known m.id true no_dependencies m.required_dependencies)
  where
    finish :
        (d : Dependencies) (result : ModuleGraphError ⊎ Dependencies)
        → Checked known m.id true m.required_dependencies (inr d)
        → Checked known m.id false m.optional_dependencies result
        → OneDeclared known m result
    finish d (inl error) _ _ = tt
    finish d (inr d') (other, declared) (other', _) = record {
      not_itself = ground (arith, other, other');
      required_declared = λ x e. ground (arith, declared x, e);
    }

    both :
        (first : ModuleGraphError ⊎ Dependencies)
        → Checked known m.id true m.required_dependencies first
        → OneDeclared known m (elim first [
          | inl error ↦ inl error
          | inr d ↦ validate_dependencies known m.id false d m.optional_dependencies
        ])
    both (inl error) _ = tt
    both (inr d) checked =
        finish d (validate_dependencies known m.id false d m.optional_dependencies) checked
          (validate_dependencies-Checked known m.id false d m.optional_dependencies)

build_adjacency-AllDeclared :
    (known : List String) (modules : List ModuleSpec)
    → AllDeclared known modules (build_adjacency known modules)
unfolding build_adjacency
build_adjacency-AllDeclared known [] = tt
build_adjacency-AllDeclared known (m ∷ rest) =
    front (module_dependencies known m) (module_dependencies-IsDeclared known m)
      (build_adjacency known rest) (build_adjacency-AllDeclared known rest)
  where
    front :
        (first : ModuleGraphError ⊎ Dependencies)
        → OneDeclared known m first
        → (others : ModuleGraphError ⊎ List (String × List String)) → AllDeclared known rest others
        → AllDeclared known (m ∷ rest) (elim first [
          | inl error ↦ inl error
          | inr d ↦ elim others [
            | inl error ↦ inl error
            | inr adjacency ↦ inr ((m.id, d.adjacent) ∷ adjacency)
          ]
        ])
    front (inl error) _ others _ = tt
    front (inr d) _ (inl error) _ = tt
    front (inr d) one (inr adjacency) h = (one, h)

-- In a graph that is accepted the ids are distinct, no module depends on itself, and every required
-- dependency is the id of a module.
pub valid-IsDeclared :
    (modules : List ModuleSpec)
    → (validate_module_graph modules).valid ≡ true
    → NoDup (ids modules) × All (IsDeclared (ids modules)) modules
unfolding validate_module_graph validate_known
valid-IsDeclared modules ok =
    first (collect_ids [] modules) (collect_ids-Collected [] modules tt) ok
  where
    second :
        (known : List String)
        → Collected [] modules (inr known)
        → (result : ModuleGraphError ⊎ List (String × List String))
        → AllDeclared known modules result
        → (graph_of known result).valid ≡ true
        → NoDup (ids modules) × All (IsDeclared (ids modules)) modules
    second known c (inl error) h ok = absurd (refused error ok)
    second known c (inr adjacency) h ok = (
      c.2,
      All-mono (IsDeclared known) (IsDeclared (ids modules)) modules
          (λ m one. record {
            not_itself = one.not_itself;
            required_declared = λ x e. unfold contains in sym (c.0 x) ∙ one.required_declared x e;
          })
          h,
    )

    first :
        (result : ModuleGraphError ⊎ List String)
        → Collected [] modules result
        → (known_of modules result).valid ≡ true
        → NoDup (ids modules) × All (IsDeclared (ids modules)) modules
    first (inl error) c ok = absurd (refused error ok)
    first (inr known) c ok =
        second known c (build_adjacency known modules) (build_adjacency-AllDeclared known modules)
          ok
