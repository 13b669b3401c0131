-- ===== src/Ports/Types.antt =====
-- pkg/providerports/ports.go: the data. A category, a family, a verb, a state and a health status are
-- texts, which the source checks against its lists.
use cloud_ring.Prelude.{ℕ, String, List, [], ◌∷◌, Bool, ◌&&◌, ◌||◌, not, leb, eqb}
use cloud_ring.Prelude.Lists.{length, contains}
use cloud_ring.Prelude.Text.{codes}
use cloud_ring.Prelude.Patterns.{is_lower, is_lower_alnum, matches, hex_text, last_code, dot_dot}

pub data PortError : Type 0 where
  invalid_request invalid_receipt invalid_health_status invalid_adapter_descriptor : PortError
  adapter_already_registered adapter_not_found idempotency_conflict : PortError
  tenant_isolation_violation resource_not_found context_canceled : PortError

pub data Result (A : Type 0) : Type 0 where
  ok : A → Result A
  err : PortError → Result A

-- ctx: nil, or with an error, or without.
pub data Context : Type 0 where
  absent canceled live : Context

abbrev pub ServiceCategory : Type 0
ServiceCategory = String

abbrev pub BackendFamily : Type 0
BackendFamily = String

abbrev pub LifecycleVerb : Type 0
LifecycleVerb = String

abbrev pub ResourceState : Type 0
ResourceState = String

abbrev pub HealthStatus : Type 0
HealthStatus = String

abbrev pub all_service_categories : List ServiceCategory
all_service_categories =
    "compute" ∷ "volume" ∷ "network" ∷ "kubernetes" ∷ "object-storage" ∷ "backup" ∷ "access-control"
    ∷ "support" ∷ "external-integration" ∷ []

abbrev pub all_backend_families : List BackendFamily
all_backend_families = "kubevirt" ∷ "openstack" ∷ "proxmox" ∷ "bare-metal" ∷ []

abbrev pub all_lifecycle_verbs : List LifecycleVerb
all_lifecycle_verbs = "provision" ∷ "resume" ∷ "resize" ∷ "hold" ∷ "suspend" ∷ "deprovision" ∷ []

abbrev pub all_resource_states : List ResourceState
all_resource_states =
    "pending" ∷ "provisioning" ∷ "ready" ∷ "degraded" ∷ "suspended" ∷ "deprovisioning" ∷ "deleted"
    ∷ "failed" ∷ "denied" ∷ "blocked" ∷ "retryable" ∷ []

abbrev pub all_health_statuses : List HealthStatus
all_health_statuses = "ready" ∷ "degraded" ∷ "unavailable" ∷ []

unfoldable pub valid_service_category : ServiceCategory → Bool
valid_service_category category = contains all_service_categories category

unfoldable pub valid_backend_family : BackendFamily → Bool
valid_backend_family family = contains all_backend_families family

unfoldable pub valid_lifecycle_verb : LifecycleVerb → Bool
valid_lifecycle_verb verb = contains all_lifecycle_verbs verb

unfoldable pub valid_resource_state : ResourceState → Bool
valid_resource_state state = contains all_resource_states state

unfoldable pub valid_health_status : HealthStatus → Bool
valid_health_status status = contains all_health_statuses status

pub record Parameter : Type 0 where
  pub key : String
  pub value : String

pub record ProvisionRequest : Type 0 where
  pub schema_version : String
  pub service_category : ServiceCategory
  pub adapter_id : String
  pub tenant_id : String
  pub project_id : String
  pub resource_id : String
  pub idempotency_key : String
  pub verb : LifecycleVerb
  pub parameters : List Parameter

pub record ProvisionReceipt : Type 0 where
  pub schema_version : String
  pub request_sha256 : String
  pub commitment_sha256 : String
  pub operation_id : String
  pub provider_handle : String
  pub adapter_id : String
  pub service_category : ServiceCategory
  pub tenant_id : String
  pub project_id : String
  pub resource_id : String
  pub state : ResourceState
  pub blocker_code : String

pub record HealthReport : Type 0 where
  pub adapter_id : String
  pub service_category : ServiceCategory
  pub backend_family : BackendFamily
  pub status : HealthStatus
  pub reason : String

pub record AdapterDescriptor : Type 0 where
  pub adapter_id : String
  pub service_category : ServiceCategory
  pub backend_family : BackendFamily

-- validIdentifier: ^[a-z0-9][a-z0-9._-]{1,62}[a-z0-9]$, without "..".
unfoldable pub identifier_codes : List ℕ → Bool
identifier_codes cs =
    matches is_lower_alnum (λ c. is_lower_alnum c || eqb c b'.' || eqb c b'_' || eqb c b'-') 63 cs
    && is_lower_alnum (last_code cs)
    && leb 3 (length cs)
    && not (dot_dot cs)

unfoldable pub valid_identifier : String → Bool
valid_identifier value = identifier_codes (codes value)

-- ^[a-z][a-z0-9_.-]{0,62}$
unfoldable pub valid_param_key : String → Bool
valid_param_key key =
    matches is_lower (λ c. is_lower_alnum c || eqb c b'_' || eqb c b'.' || eqb c b'-') 62
      (codes key)

-- ^[a-f0-9]{64}$
unfoldable pub valid_digest : String → Bool
valid_digest value = hex_text 64 value
