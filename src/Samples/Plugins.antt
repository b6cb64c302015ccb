-- ===== src/Samples/Plugins.antt =====
-- Manifests and rollbacks of dynamic modules.
use framekit.Base.{
  ◌≡◌, ◌≢◌, refl, ◌↔◌, ◌⊎◌, true, false, String, List, [], ◌∷◌, none, contains, string_eq,
}
use framekit.Loader.{
  DynamicModuleManifest, check_required, check_optional, manifest_fault, validate_manifest,
  unload_until, build_rollback_plan,
}
use framekit.Loader.Manifests.{IsValidManifest, validate_manifest_iff}
use framekit.Loader.Plans.{Unloads, build_rollback_plan_lem}

abbrev audio : DynamicModuleManifest
audio = record {
  module_id = "audio";
  module_version = "1";
  required_dependencies = "core" ∷ "log" ∷ [];
  optional_dependencies = "midi" ∷ [];
  exported_services = [];
  hot_unload_allowed = true;
}

audio_valid : validate_manifest audio none ≡ (none, true)
unfolding validate_manifest manifest_fault check_required check_optional contains
audio_valid = refl

validate_manifest_iff_example :
    (((validate_manifest audio none).1 ≡ true) ↔ IsValidManifest audio)
    × (IsValidManifest audio → (validate_manifest audio none).0 ≡ none)
validate_manifest_iff_example = validate_manifest_iff audio none

abbrev loaded_twice : List String
loaded_twice = "core" ∷ "audio" ∷ "log" ∷ "audio" ∷ "midi" ∷ []

the_last_load : (build_rollback_plan loaded_twice "audio").unload_order ≡ "midi" ∷ "audio" ∷ []
unfolding build_rollback_plan unload_until contains
the_last_load = refl

abbrev audio_name : String
audio_name = "audio"

build_rollback_plan_lem_example :
    (let plan = build_rollback_plan loaded_twice audio_name in
      (plan.failed_module_id ≡ audio_name)
      × ((plan.required ≡ true)
            × (audio_name ≢ "")
            × (contains loaded_twice audio_name ≡ true)
            × Unloads loaded_twice audio_name plan.unload_order
          ⊎ (plan.required ≡ false)
            × ((audio_name ≡ "") ⊎ (contains loaded_twice audio_name ≡ false))
            × (plan.unload_order ≡ [])))
build_rollback_plan_lem_example = build_rollback_plan_lem loaded_twice audio_name
