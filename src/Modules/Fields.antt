-- ===== src/Modules/Fields.antt =====
-- pkg/registry/registry.go: the checks of a record's own fields. An error is the first one found, and
-- `none` is nil.
use cloud_ring.Prelude.{
  ℕ, suc, String, ◌<>◌, Bool, not, ◌&&◌, ◌||◌, Option, none, some, List, [], ◌∷◌, ◌==◌, eqb,
  if◌then◌else◌,
}
use cloud_ring.Prelude.Lists.{length, contains, Map, lookup}
use cloud_ring.Prelude.Text.{is_blank, is_trimmed, contains_text, decimal}
use text.Mathlib.Text.{starts_with}
use cloud_ring.Modules.Types.{
  SourceSafety, DependencyResolution, Dependency, Operation, Operations, Module, PlanRequest,
  ValidationError, invalid, identifier, valid_module_state, valid_operation,
}

-- The first error of two checks.
abbrev pub or_else : Option ValidationError → Option ValidationError → Option ValidationError
or_else (some e) rest = some e
or_else none rest = rest

abbrev pub deny : Bool → ValidationError → Option ValidationError
deny b e = if b then some e else none

-- SourceSafety.validate
unfoldable pub source_safety_error : SourceSafety → Option ValidationError
source_safety_error s =
    or_else
      (deny (not s.synthetic_fixture) (
        invalid "sourceSafety.syntheticFixture" "source-safety.synthetic"
          "must be true for a public contract fixture"))
      (or_else
        (deny s.contains_service_implementation_refs (
          invalid "sourceSafety.containsServiceImplementationReferences"
            "source-safety.implementation-reference" "must be false"))
        (or_else
          (deny s.contains_provider_endpoints (
            invalid "sourceSafety.containsProviderEndpoints" "source-safety.provider-endpoint"
              "must be false"))
          (or_else
            (deny s.contains_secrets
              (invalid "sourceSafety.containsSecrets" "source-safety.secret" "must be false"))
            (deny s.mutates_services
              (invalid "sourceSafety.mutatesServices" "source-safety.mutation" "must be false")))))

-- DependencyResolution.validate
unfoldable pub resolution_error : DependencyResolution → Option ValidationError
resolution_error d =
    or_else
      (deny (not (d.strategy == "topological"))
        (invalid "dependencyResolution.strategy" "dependencies.strategy" "must be topological"))
      (or_else
        (deny (not (d.cycle_policy == "block"))
          (invalid "dependencyResolution.cyclePolicy" "dependencies.cycle-policy" "must be block"))
        (or_else
          (deny (not (d.missing_dependency_policy == "block")) (
            invalid "dependencyResolution.missingDependencyPolicy" "dependencies.missing-policy"
              "must be block"))
          (deny (is_blank d.evidence_ref) (
            invalid "dependencyResolution.evidenceRef" "dependencies.evidence"
              "must not be empty"))))

-- The loops over fields that must not be empty: a field's name and its value.
unfoldable pub required_error : String → String → List (String × String) → Option ValidationError
required_error prefix code [] = none
required_error prefix code ((name, value) ∷ fields) =
    or_else (deny (is_blank value) (invalid (prefix <> ("." <> name)) code "must not be empty"))
      (required_error prefix code fields)

-- The loop over the states; `seen` are those before.
unfoldable pub states_error : String → ℕ → List String → List String → Option ValidationError
states_error prefix index seen [] = deny (not (eqb (length seen) 5)) (
    invalid (prefix <> ".lifecycleStates") "module.lifecycle-state.missing"
      "all v1 lifecycle states are required")
states_error prefix index seen (state ∷ states) =
    let path = prefix <> (".lifecycleStates[" <> (decimal index <> "]")) in
    or_else
      (deny (not (valid_module_state state))
        (invalid path "module.lifecycle-state" "is not supported"))
      (or_else
        (deny (contains seen state)
          (invalid path "module.lifecycle-state.duplicate" "lifecycle states must be unique"))
        (states_error prefix (suc index) (state ∷ seen) states))

-- validateLifecycleStates
unfoldable pub lifecycle_states_error : String → List String → Option ValidationError
lifecycle_states_error prefix states = states_error prefix 0 [] states

-- One round of validateOperations.
unfoldable pub operation_error : String → String → Operation → Option ValidationError
operation_error prefix name value =
    let path = prefix <> ("." <> name) in
    or_else
      (deny (not (value.action == name))
        (invalid (path <> ".action") "operation.action" "must match the operation key"))
      (or_else
        (required_error path "operation.required" (
          ("operationId", value.operation_id)
          ∷ ("idempotencyKey", value.idempotency_key)
          ∷ ("auditReceiptRef", value.audit_receipt_ref)
          ∷ ("evidenceReceiptRef", value.evidence_receipt_ref)
          ∷ ("rollbackHookRef", value.rollback_hook_ref)
          ∷ ("nextAction", value.next_action)
          ∷ []))
        (deny (not value.idempotent || not value.policy_aware || not value.rollback_required) (
          invalid path "operation.safety-flags"
            "idempotent, policyAware, and rollbackRequired must all be true")))

-- validateOperations
unfoldable pub operations_error : String → Operations → Option ValidationError
operations_error prefix operations = or_else (operation_error prefix "install" operations.install) (
    or_else (operation_error prefix "update" operations.update) (
      or_else (operation_error prefix "remove" operations.remove) (
        or_else (operation_error prefix "suspend" operations.suspend)
          (operation_error prefix "deprecate" operations.deprecate))))

-- The loop over a module's dependencies.
unfoldable pub dependencies_error : String → String → ℕ → List Dependency → Option ValidationError
dependencies_error prefix id index [] = none
dependencies_error prefix id index (dependency ∷ dependencies) =
    let path = prefix <> (".dependencies[" <> (decimal index <> "]")) in
    or_else
      (deny (not (identifier dependency.module_id)) (
        invalid (path <> ".moduleId") "dependency.module-id"
          "must be a lowercase stable identifier"))
      (or_else
        (deny (dependency.module_id == id)
          (invalid (path <> ".moduleId") "dependency.self" "a module cannot depend on itself"))
        (or_else
          (deny (not (dependency.state == "installed") && not (dependency.state == "installable"))
            (invalid (path <> ".state") "dependency.state" "must be installed or installable"))
          (dependencies_error prefix id (suc index) dependencies)))

-- path.Clean is a parameter.
module _ (clean : String → String) where
  unfoldable pub valid_package_ref : String → Bool
  valid_package_ref value =
      not (is_blank value)
      && is_trimmed value
      && not (contains_text value "://")
      && not (contains_text value "\\")
      && clean value == value
      && not (starts_with value "/")
      && not (clean value == ".")
      && not (starts_with (clean value) "../")

  -- validateModule
  unfoldable pub module_error : ℕ → Module → Map Module → Option ValidationError
  module_error index m known =
      let prefix = "modules[" <> (decimal index <> "]") in
      or_else
        (deny (not (identifier m.id))
          (invalid (prefix <> ".id") "module.id" "must be a lowercase stable identifier"))
        (or_else
          (elim (lookup m.id known) [
            | none ↦ none
            | some _ ↦
                some (invalid (prefix <> ".id") "module.id.duplicate" "module IDs must be unique")
          ])
          (or_else
            (required_error prefix "module.required" (
              ("displayName", m.display_name)
              ∷ ("channel", m.channel)
              ∷ ("version", m.version)
              ∷ ("entitlementScope", m.entitlement_scope)
              ∷ []))
            (or_else
              (deny (not (valid_package_ref m.package_ref)) (
                invalid (prefix <> ".packageRef") "module.package-reference"
                  "must be a relative provider-neutral package path"))
              (or_else
                (deny (not (valid_module_state m.state)) (
                  invalid (prefix <> ".state") "module.state" "is not a supported lifecycle state"))
                (or_else (lifecycle_states_error prefix m.lifecycle_states) (
                  or_else
                    (elim m.service_implementation_refs [
                      | none ↦ none
                      | some _ ↦ some (
                          invalid (prefix <> ".serviceImplementationRefs")
                            "module.implementation-reference"
                            "public registry records must not carry service implementation references")
                    ])
                    (or_else (dependencies_error prefix m.id 0 m.dependencies)
                      (operations_error (prefix <> ".operations") m.operations))))))))

-- validatePlan, after its check that the name is new.
unfoldable pub plan_module_error : String → PlanRequest → Option Module → Option ValidationError
plan_module_error prefix plan none =
    some (invalid (prefix <> ".moduleId") "plan.module-missing" "plan module is not declared")
plan_module_error prefix plan (some m) =
    or_else
      (deny (not (valid_operation plan.action))
        (invalid (prefix <> ".action") "plan.action" "is not a supported operation"))
      (or_else
        (deny (not (valid_module_state plan.current_state) || is_blank plan.current_state) (
          invalid (prefix <> ".currentState") "plan.current-state"
            "must be a supported lifecycle state"))
        (deny (is_blank plan.target_version || not (plan.target_version == m.version)) (
          invalid (prefix <> ".targetVersion") "plan.target-version"
            "must match the declared module version")))

-- validatePlan
unfoldable pub plan_error : ℕ → PlanRequest → Map Module → List String → Option ValidationError
plan_error index plan modules seen =
    let prefix = "planRequests[" <> (decimal index <> "]") in
    or_else
      (deny (not (identifier plan.name))
        (invalid (prefix <> ".name") "plan.name" "must be a lowercase stable identifier"))
      (or_else
        (deny (contains seen plan.name)
          (invalid (prefix <> ".name") "plan.name.duplicate" "plan names must be unique"))
        (plan_module_error prefix plan (lookup plan.module_id modules)))
