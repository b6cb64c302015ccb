-- ===== src/Loader/Manifests.antt =====
-- The manifests that pass validation.
use framekit.Base.{
  ◌≡◌, ◌≢◌, refl, ◌↔◌, true, false, String, List, [], ◌∷◌, Option, none, some, All, is_empty,
  contains, string_eq, arith,
}
use framekit.Loader.{
  DynamicModuleManifest, check_required, check_optional, manifest_fault, report, validate_manifest,
}
use framekit.Modules.Edges.{NoDup}

-- An entry that a list of dependencies may have.
abbrev IsEntry : (module_id : String) → String → Type 0
IsEntry module_id dependency = (dependency ≢ "") × (dependency ≢ module_id)

pub record IsValidManifest (m : DynamicModuleManifest) : Type 0 where
  pub has_id : m.module_id ≢ ""
  pub has_version : m.module_version ≢ ""
  pub required_entries : All (IsEntry m.module_id) m.required_dependencies
  pub required_once : NoDup m.required_dependencies
  pub optional_entries : All (IsEntry m.module_id) m.optional_dependencies
  pub optional_once : NoDup m.optional_dependencies
  pub disjoint : All (λ d. contains m.required_dependencies d ≡ false) m.optional_dependencies

abbrev Fresh : List String → List String → Type 0
Fresh seen dependencies = All (λ d. contains seen d ≡ false) dependencies

Fresh-cons :
    (d : String) (seen dependencies : List String)
    → Fresh (d ∷ seen) dependencies ↔ (contains dependencies d ≡ false) × Fresh seen dependencies
unfolding contains
Fresh-cons d seen [] = (λ _. (refl, tt), λ _. tt)
Fresh-cons d seen (x ∷ rest) =
    ground (arith, Fresh-cons d seen rest, string_eq.is_equal_iff d x, string_eq.is_equal_iff x d)

check_required_iff :
    (id : String) (dependencies seen : List String)
    → (check_required id dependencies seen ≡ none)
      ↔ All (IsEntry id) dependencies × NoDup dependencies × Fresh seen dependencies
unfolding check_required
check_required_iff id [] seen = (λ _. (tt, tt, tt), λ _. refl)
check_required_iff id (d ∷ rest) seen = ground (
  arith,
  check_required_iff id rest (d ∷ seen),
  Fresh-cons d seen rest,
  string_eq.is_equal_iff d id,
  string_eq.is_equal_iff d "",
)

check_optional_iff :
    (id : String) (required dependencies seen : List String)
    → (check_optional id required dependencies seen ≡ none)
      ↔ All (IsEntry id) dependencies
        × NoDup dependencies
        × Fresh seen dependencies
        × Fresh required dependencies
unfolding check_optional
check_optional_iff id required [] seen = (λ _. (tt, tt, tt, tt), λ _. refl)
check_optional_iff id required (d ∷ rest) seen = ground (
  arith,
  check_optional_iff id required rest (d ∷ seen),
  Fresh-cons d seen rest,
  string_eq.is_equal_iff d id,
  string_eq.is_equal_iff d "",
)

Fresh-nil : (dependencies : List String) → Fresh [] dependencies
unfolding contains
Fresh-nil [] = tt
Fresh-nil (d ∷ rest) = (refl, Fresh-nil rest)

check_required-empty :
    (id : String) (dependencies : List String)
    → is_empty dependencies ≡ true
    → check_required id dependencies [] ≡ none
unfolding check_required
check_required-empty id [] _ = refl
check_required-empty id (d ∷ rest) e = cc

check_optional-empty :
    (id : String) (required dependencies : List String)
    → is_empty dependencies ≡ true
    → check_optional id required dependencies [] ≡ none
unfolding check_optional
check_optional-empty id required [] _ = refl
check_optional-empty id required (d ∷ rest) e = cc

-- The early return, where there are no dependencies, agrees with the checks.
manifest_fault-checks :
    (m : DynamicModuleManifest)
    → (manifest_fault m ≡ none)
      ↔ (m.module_id ≢ "")
        × (m.module_version ≢ "")
        × (check_required m.module_id m.required_dependencies [] ≡ none)
        × (check_optional m.module_id m.required_dependencies m.optional_dependencies [] ≡ none)
unfolding manifest_fault
manifest_fault-checks m = ground (
  arith,
  string_eq.is_equal_iff m.module_id "",
  string_eq.is_equal_iff m.module_version "",
  check_required-empty m.module_id m.required_dependencies,
  check_optional-empty m.module_id m.required_dependencies m.optional_dependencies,
)

manifest_fault_iff : (m : DynamicModuleManifest) → (manifest_fault m ≡ none) ↔ IsValidManifest m
manifest_fault_iff m =
    let checks = manifest_fault-checks m in
    let required = check_required_iff m.module_id m.required_dependencies [] in
    let optional =
      check_optional_iff m.module_id m.required_dependencies m.optional_dependencies [] in
    (
      λ e.
          let (has_id, has_version, r, o) = checks.0 e in
          let (required_entries, required_once, _) = required.0 r in
          let (optional_entries, optional_once, _, disjoint) = optional.0 o in
          record {
            has_id = has_id;
            has_version = has_version;
            required_entries = required_entries;
            required_once = required_once;
            optional_entries = optional_entries;
            optional_once = optional_once;
            disjoint = disjoint;
          },
      λ v. checks.1 (
        v.has_id,
        v.has_version,
        required.1 (v.required_entries, v.required_once, Fresh-nil m.required_dependencies),
        optional.1
            (v.optional_entries, v.optional_once, Fresh-nil m.optional_dependencies, v.disjoint),
      ),
    )

report-passes :
    (fault error : Option String)
    → (((report fault error).1 ≡ true) ↔ (fault ≡ none))
      × (fault ≡ none → (report fault error).0 ≡ error)
report-passes none error = ((λ _. refl, λ _. refl), λ _. refl)
report-passes (some message) none = ground arith
report-passes (some message) (some text) = ground arith

-- A manifest passes validation exactly if it has an id and a version, its required and its optional
-- dependencies are non-empty names other than its id, each list has no name twice, and no name is
-- in both. A validation that succeeds leaves the caller's error text alone.
pub validate_manifest_iff :
    (m : DynamicModuleManifest) (error : Option String)
    → (((validate_manifest m error).1 ≡ true) ↔ IsValidManifest m)
      × (IsValidManifest m → (validate_manifest m error).0 ≡ error)
unfolding validate_manifest
validate_manifest_iff m error =
    let faults = manifest_fault_iff m in
    let (passes, silent) = report-passes (manifest_fault m) error in
    ((λ e. faults.0 (passes.0 e), λ v. passes.1 (faults.1 v)), λ v. silent (faults.1 v))
