-- ===== src/Modules/Examples.antt =====
-- The theorems on the registry at concrete inputs: two modules, one of which depends on the other.
use cloud_ring.Prelude.{String, List, [], ◌∷◌, true, false, ◌≡◌, ◌≢◌, ◌↔◌, refl, none, arith}
use cloud_ring.Prelude.Lists.{All, insert, lookup, contains}
use cloud_ring.Prelude.Text.{is_blank, is_trimmed, decimal, decimal_on, digit_text}
use cloud_ring.Prelude.Patterns.{matches, all_codes}
use cloud_ring.Modules.Types.{
  Dependency, Operation, Module, Registry, identifier, valid_module_state, valid_operation,
}
use cloud_ring.Modules.Fields.{
  source_safety_error, resolution_error, required_error, states_error, lifecycle_states_error,
  operation_error, operations_error, dependencies_error, valid_package_ref, module_error,
  plan_module_error, plan_error,
}
use cloud_ring.Modules.Dependencies.{
  search, exhausted, missing_of, missing_error, dependencies_of, leave, delete, visit_each, ids_of,
  module_ids, visit, search_error, validate_dependencies,
}
use cloud_ring.Modules.Validate.{module_index, plans_error, modules_error, validate}
use cloud_ring.Modules.Graph.{Reaches}
use cloud_ring.Modules.Index.{IsDeclared, missing_error_iff}
use cloud_ring.Modules.Acceptance.{search-returns, validate_dependencies_iff}
use cloud_ring.Modules.Accepted.{IsUnique, IsSound, IsPlanned, plan_names, validate-IsSound}

abbrev operation_named : String → Operation
operation_named name = record {
  action = name;
  operation_id = "op";
  idempotent = true;
  idempotency_key = "key";
  policy_aware = true;
  audit_receipt_ref = "audit";
  evidence_receipt_ref = "evidence";
  rollback_required = true;
  rollback_hook_ref = "hook";
  next_action = "none";
}

abbrev module_with : String → List Dependency → Module
module_with id dependencies = record {
  id = id;
  display_name = "Module";
  package_ref = "packages/module";
  channel = "stable";
  version = "1.0.0";
  state = "installable";
  lifecycle_states =
      "installable" ∷ "installed" ∷ "suspended" ∷ "deprecated" ∷ "not-installed" ∷ [];
  dependencies = dependencies;
  entitlement_scope = "tenant";
  operations = record {
    install = operation_named "install";
    update = operation_named "update";
    remove = operation_named "remove";
    suspend = operation_named "suspend";
    deprecate = operation_named "deprecate";
  };
  service_implementation_refs = none;
}

abbrev two_modules : List Module
two_modules =
    module_with "kubernetes" (record { module_id = "network"; state = "installed" } ∷ [])
    ∷ module_with "network" []
    ∷ []

abbrev two_module_registry : Registry
two_module_registry = record {
  schema_version = "cloudring.module-registry/v1";
  registry_id = "registry";
  model_version = "1";
  source_safety = record {
    synthetic_fixture = true;
    contains_service_implementation_refs = false;
    contains_provider_endpoints = false;
    contains_secrets = false;
    mutates_services = false;
  };
  dependency_resolution = record {
    strategy = "topological";
    cycle_policy = "block";
    missing_dependency_policy = "block";
    evidence_ref = "evidence";
  };
  modules = two_modules;
  plan_requests =
      record {
        name = "plan-a";
        module_id = "kubernetes";
        action = "install";
        current_state = "installable";
        target_version = "1.0.0";
      }
      ∷ [];
}

abbrev same_path : String → String
same_path p = p

validates : validate same_path two_module_registry ≡ none
unfolding validate module_index plans_error modules_error validate_dependencies search_error visit
    module_ids ids_of visit_each leave delete dependencies_of missing_error missing_of plan_error
    plan_module_error module_error valid_package_ref dependencies_error operations_error
    operation_error lifecycle_states_error states_error required_error resolution_error
    source_safety_error identifier valid_module_state valid_operation matches all_codes is_blank
    is_trimmed decimal decimal_on digit_text insert lookup contains
validates = refl

declared : All (IsDeclared (module_index two_modules [])) two_modules
unfolding module_index missing_error missing_of insert lookup
declared = (missing_error_iff (module_index two_modules []) 0 two_modules).0 refl

-- Of two modules that depend on each other none is accepted.
refuses :
    validate_dependencies
      (module_with "a" (record { module_id = "b"; state = "installed" } ∷ [])
        ∷ module_with "b" (record { module_id = "a"; state = "installed" } ∷ [])
        ∷ [])
      (("a", module_with "a" (record { module_id = "b"; state = "installed" } ∷ []))
        ∷ ("b", module_with "b" (record { module_id = "a"; state = "installed" } ∷ []))
        ∷ [])
    ≢ none
unfolding validate_dependencies search_error visit module_ids ids_of visit_each leave delete
    dependencies_of missing_error missing_of lookup contains
refuses e = ground arith

search-returns_example : search (module_index two_modules []) two_modules ≢ exhausted
search-returns_example = search-returns two_modules declared

validate_dependencies_iff_example :
    (validate_dependencies two_modules (module_index two_modules []) ≡ none) ↔ (
      All (IsDeclared (module_index two_modules [])) two_modules
      × ((a : String) → Reaches (module_index two_modules []) a a → ⊥))
validate_dependencies_iff_example = validate_dependencies_iff two_modules

validate-IsSound_example :
    IsUnique (module_ids two_modules)
    × All IsSound two_modules
    × All (IsDeclared (module_index two_modules [])) two_modules
    × ((a : String) → Reaches (module_index two_modules []) a a → ⊥)
    × IsUnique (plan_names two_module_registry.plan_requests)
    × All (IsPlanned (module_index two_modules [])) two_module_registry.plan_requests
validate-IsSound_example = validate-IsSound same_path two_module_registry validates
