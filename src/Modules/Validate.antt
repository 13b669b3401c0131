-- ===== src/Modules/Validate.antt =====
-- pkg/registry/registry.go: Registry.Validate.
use cloud_ring.Prelude.{ℕ, suc, String, not, Option, none, List, [], ◌∷◌, ◌==◌, eqb}
use cloud_ring.Prelude.Lists.{length, Map, insert}
use cloud_ring.Prelude.Text.{is_blank}
use cloud_ring.Modules.Types.{Module, PlanRequest, Registry, ValidationError, invalid, identifier}
use cloud_ring.Modules.Fields.{
  or_else, deny, source_safety_error, resolution_error, module_error, plan_error,
}
use cloud_ring.Modules.Dependencies.{validate_dependencies}

-- moduleIndex after the loop over the modules.
unfoldable pub module_index : List Module → Map Module → Map Module
module_index [] known = known
module_index (m ∷ modules) known = module_index modules (insert m.id m known)

-- The loop over the plan requests; `seen` are the names before.
unfoldable pub plans_error :
    ℕ → List PlanRequest → Map Module → List String → Option ValidationError
plans_error index [] modules seen = none
plans_error index (plan ∷ plans) modules seen =
    or_else (plan_error index plan modules seen)
      (plans_error (suc index) plans modules (plan.name ∷ seen))

module _ (clean : String → String) where
  -- The loop over the modules.
  unfoldable pub modules_error : ℕ → List Module → Map Module → Option ValidationError
  modules_error index [] known = none
  modules_error index (m ∷ modules) known =
      or_else (module_error clean index m known)
        (modules_error (suc index) modules (insert m.id m known))

  unfoldable pub validate : Registry → Option ValidationError
  validate r =
      let known = module_index r.modules [] in
      or_else
        (deny (not (r.schema_version == "cloudring.module-registry/v1")) (
          invalid "schemaVersion" "schema.version"
            "must be the CloudRING module registry v1 contract"))
        (or_else
          (deny (not (identifier r.registry_id))
            (invalid "registryId" "registry.id" "must be a lowercase stable identifier"))
          (or_else
            (deny (is_blank r.model_version)
              (invalid "modelVersion" "registry.model-version" "must not be empty"))
            (or_else (source_safety_error r.source_safety) (
              or_else (resolution_error r.dependency_resolution) (
                or_else
                  (deny (eqb (length r.modules) 0)
                    (invalid "modules" "modules.empty" "at least one module is required"))
                  (or_else (modules_error 0 r.modules []) (
                    or_else (validate_dependencies r.modules known) (
                      or_else
                        (deny (eqb (length r.plan_requests) 0) (
                          invalid "planRequests" "plans.empty"
                            "at least one plan request is required"))
                        (plans_error 0 r.plan_requests known [])))))))))
