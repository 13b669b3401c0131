-- ===== src/Modules/Types.antt =====
-- pkg/registry/registry.go: the data.
use cloud_ring.Prelude.{eqb, String, Bool, Option, List, ◌||◌, ◌==◌}
use cloud_ring.Prelude.Lists.{length}
use cloud_ring.Prelude.Text.{codes}
use cloud_ring.Prelude.Patterns.{is_lower, is_lower_alnum, matches}

pub record SourceSafety : Type 0 where
  pub synthetic_fixture : Bool
  pub contains_service_implementation_refs : Bool
  pub contains_provider_endpoints : Bool
  pub contains_secrets : Bool
  pub mutates_services : Bool

pub record DependencyResolution : Type 0 where
  pub strategy : String
  pub cycle_policy : String
  pub missing_dependency_policy : String
  pub evidence_ref : String

pub record Dependency : Type 0 where
  pub module_id : String
  pub state : String

pub record Operation : Type 0 where
  pub action : String
  pub operation_id : String
  pub idempotent : Bool
  pub idempotency_key : String
  pub policy_aware : Bool
  pub audit_receipt_ref : String
  pub evidence_receipt_ref : String
  pub rollback_required : Bool
  pub rollback_hook_ref : String
  pub next_action : String

pub record Operations : Type 0 where
  pub install : Operation
  pub update : Operation
  pub remove : Operation
  pub suspend : Operation
  pub deprecate : Operation

pub record Module : Type 0 where
  pub id : String
  pub display_name : String
  pub package_ref : String
  pub channel : String
  pub version : String
  pub state : String
  pub lifecycle_states : List String
  pub dependencies : List Dependency
  pub entitlement_scope : String
  pub operations : Operations
  pub service_implementation_refs : Option (List String)

pub record PlanRequest : Type 0 where
  pub name : String
  pub module_id : String
  pub action : String
  pub current_state : String
  pub target_version : String

pub record Registry : Type 0 where
  pub schema_version : String
  pub registry_id : String
  pub model_version : String
  pub source_safety : SourceSafety
  pub dependency_resolution : DependencyResolution
  pub modules : List Module
  pub plan_requests : List PlanRequest

pub record ValidationError : Type 0 where
  pub path : String
  pub code : String
  pub message : String

unfoldable pub invalid : String → String → String → ValidationError
invalid path code message = record { path = path; code = code; message = message }

-- identifierPattern: ^[a-z][a-z0-9-]*$
unfoldable pub identifier : String → Bool
identifier s = matches is_lower (λ c. is_lower_alnum c || eqb c b'-') (length (codes s)) (codes s)

unfoldable pub valid_module_state : String → Bool
valid_module_state value =
    value == "installable"
    || value == "installed"
    || value == "suspended"
    || value == "deprecated"
    || value == "not-installed"

unfoldable pub valid_operation : String → Bool
valid_operation value =
    value == "install"
    || value == "update"
    || value == "remove"
    || value == "suspend"
    || value == "deprecate"
