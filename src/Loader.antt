-- ===== src/Loader.antt =====
-- The rules of dynamic modules: include/framekit/module/dynamic_loader.hpp. A set of strings is a
-- list; the `std::string* error` of a validation is the text that it points to, if any.
pub mod Manifests
pub mod Plans
use framekit.Base.{
  ℕ, Bool, true, false, not, ◌&&◌, ◌||◌, String, is_blank, List, [], ◌∷◌, reverse, Option, none,
  some, is_empty, contains, ◌==◌, nat_eq, string_eq, if◌then◌else◌,
}

pub data DynamicModuleRefusalReason : Type 0 where
  no_refusal invalid_manifest duplicate_module dependency_unavailable : DynamicModuleRefusalReason
  illegal_lifecycle_state unload_not_allowed : DynamicModuleRefusalReason

pub data DynamicModuleLoadState : Type 0 where
  discovered registered loaded started refused unloaded : DynamicModuleLoadState

pub data DynamicLoaderHostPhase : Type 0 where
  bootstrapping initializing running stopping stopped : DynamicLoaderHostPhase

pub record DynamicModuleManifest : Type 0 where
  pub module_id : String
  pub module_version : String
  pub required_dependencies : List String
  pub optional_dependencies : List String
  pub exported_services : List String
  pub hot_unload_allowed : Bool

pub record DynamicModuleDecision : Type 0 where
  pub accepted : Bool
  pub refusal_reason : DynamicModuleRefusalReason
  pub message : String

pub record DynamicModuleRollbackPlan : Type 0 where
  pub required : Bool
  pub failed_module_id : String
  pub unload_order : List String

pub record DynamicModuleRollbackResult : Type 0 where
  pub success : Bool
  pub unload_failures : ℕ
  pub failed_unloads : List String

abbrev pub accepted_with : String → DynamicModuleDecision
accepted_with message = record { accepted = true; refusal_reason = no_refusal; message = message }

abbrev pub refused_with : DynamicModuleRefusalReason → String → DynamicModuleDecision
refused_with reason message = record {
  accepted = false;
  refusal_reason = reason;
  message = message;
}

abbrev pub is_running_host : DynamicLoaderHostPhase → Bool
is_running_host running = true
is_running_host _ = false

unfoldable pub evaluate_load_request :
    DynamicLoaderHostPhase
    → (module_already_registered dependencies_available : Bool) → DynamicModuleDecision
evaluate_load_request phase module_already_registered dependencies_available =
    if not (is_running_host phase)
    then refused_with illegal_lifecycle_state
        "dynamic loading is only allowed while host phase is running"
    else (if module_already_registered
        then refused_with duplicate_module "module is already registered"
        else (if not dependencies_available
            then refused_with dependency_unavailable "required dependencies are unavailable"
            else accepted_with "load accepted"))

unfoldable pub evaluate_unload_request :
    DynamicLoaderHostPhase
    → DynamicModuleManifest
    → (module_is_loaded has_runtime_dependents : Bool) → DynamicModuleDecision
evaluate_unload_request phase manifest module_is_loaded has_runtime_dependents =
    if not (is_running_host phase)
    then refused_with illegal_lifecycle_state
        "dynamic unload is only allowed while host phase is running"
    else (if not module_is_loaded
        then refused_with illegal_lifecycle_state "module is not loaded"
        else (if not manifest.hot_unload_allowed
            then refused_with unload_not_allowed "module manifest does not allow hot unload"
            else (if has_runtime_dependents
                then refused_with dependency_unavailable "module has active dependents"
                else accepted_with "unload accepted")))

-- The loop of `BuildDynamicRollbackPlan`, up to the failed module.
unfoldable pub unload_until : String → List String → List String
unload_until failed [] = []
unload_until failed (id ∷ rest) = id ∷ (if id == failed then [] else unload_until failed rest)

unfoldable pub build_rollback_plan :
    (loaded_modules_in_order : List String) (failed_module_id : String) → DynamicModuleRollbackPlan
unfolding unload_until
build_rollback_plan loaded_modules failed =
    let plan : DynamicModuleRollbackPlan = record {
      required = false;
      failed_module_id = failed;
      unload_order = [];
    } in
    if is_blank failed
    then plan
    else (if not (contains loaded_modules failed) then plan else record {
      required = true;
      failed_module_id = failed;
      unload_order = unload_until failed (reverse loaded_modules);
    })

unfoldable pub assess_rollback_result : DynamicModuleRollbackResult → DynamicModuleDecision
assess_rollback_result result =
    if result.success && result.unload_failures == 0 && is_empty result.failed_unloads
    then accepted_with "rollback succeeded"
    else refused_with illegal_lifecycle_state "rollback left modules in a partially loaded state"

-- The first fault of the required dependencies, with those that were seen, and of the optional ones.
unfoldable pub check_required :
    (module_id : String) (dependencies : List String) (seen : List String) → Option String
check_required module_id [] seen = none
check_required module_id (dependency ∷ rest) seen =
    if is_blank dependency
    then some "required dependency id must be non-empty"
    else (if dependency == module_id
        then some "module manifest cannot require itself"
        else (if contains seen dependency
            then some "required dependency list contains duplicate entries"
            else check_required module_id rest (dependency ∷ seen)))

unfoldable pub check_optional :
    (module_id : String) (required_set : List String) (dependencies : List String)
    (seen : List String)
    → Option String
check_optional module_id required_set [] seen = none
check_optional module_id required_set (dependency ∷ rest) seen =
    if is_blank dependency
    then some "optional dependency id must be non-empty"
    else (if dependency == module_id
        then some "module manifest cannot optionally depend on itself"
        else (if contains seen dependency
            then some "optional dependency list contains duplicate entries"
            else (if contains required_set dependency
                then some "dependency cannot be both required and optional"
                else check_optional module_id required_set rest (dependency ∷ seen))))

-- The message of `fail`, where there is one.
abbrev pub check_dependencies :
    (optional : Option String) → (required : Option String) → Option String
check_dependencies optional (some message) = some message
check_dependencies optional none = optional

unfoldable pub manifest_fault : DynamicModuleManifest → Option String
unfolding check_required check_optional
manifest_fault m =
    if is_blank m.module_id
    then some "module manifest id must be non-empty"
    else (if is_blank m.module_version
        then some "module manifest version must be non-empty"
        else (if is_empty m.required_dependencies && is_empty m.optional_dependencies
            then none
            else check_dependencies
                (check_optional m.module_id m.required_dependencies m.optional_dependencies [])
                (check_required m.module_id m.required_dependencies [])))

abbrev pub report : Option String → (error : Option String) → Option String × Bool
report none error = (error, true)
report (some message) none = (none, false)
report (some message) (some text) = (some message, false)

unfoldable pub validate_manifest :
    DynamicModuleManifest → (error : Option String) → Option String × Bool
unfolding manifest_fault
validate_manifest manifest error = report (manifest_fault manifest) error
