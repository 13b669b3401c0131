-- ===== src/Ports/Adapter.antt =====
-- pkg/providerports/ports.go: InMemoryAdapter. A method returns the adapter beside its result.
use cloud_ring.Prelude.{String, ◌<>◌, not, ◌||◌, ◌==◌, Option, none, some, [], if◌then◌else◌}
use cloud_ring.Prelude.Lists.{Map, lookup, insert}
use cloud_ring.Prelude.Text.{text_take}
use cloud_ring.Ports.Types.{
  Result, ok, err, invalid_request, invalid_health_status, invalid_adapter_descriptor,
  idempotency_conflict, tenant_isolation_violation, resource_not_found, context_canceled, PortError,
  Context, live, ProvisionRequest, ProvisionReceipt, HealthReport, ServiceCategory, BackendFamily,
  HealthStatus, LifecycleVerb, ResourceState, valid_service_category, valid_backend_family,
  valid_identifier,
}
use cloud_ring.Ports.Requests.{valid_provision_request, request_text}
use cloud_ring.Ports.Receipts.{valid_health_report, new_provision_receipt}

pub record IdempotencyEntry : Type 0 where
  pub request_sha256 : String
  pub receipt : ProvisionReceipt

pub record StoredResource : Type 0 where
  pub tenant_id : String
  pub project_id : String
  pub receipt : ProvisionReceipt

pub record InMemoryAdapter : Type 0 where
  pub adapter_id : String
  pub service_category : ServiceCategory
  pub backend_family : BackendFamily
  pub health_status : HealthStatus
  pub health_reason : String
  pub idempotency_log : Map IdempotencyEntry
  pub resources : Map StoredResource

unfoldable pub new_in_memory_adapter :
    String → ServiceCategory → BackendFamily → Result InMemoryAdapter
new_in_memory_adapter adapter_id category family =
    if not (valid_identifier adapter_id)
      || not (valid_service_category category)
      || not (valid_backend_family family)
    then err invalid_adapter_descriptor
    else ok (record {
      adapter_id = adapter_id;
      service_category = category;
      backend_family = family;
      health_status = "ready";
      health_reason = "";
      idempotency_log = [];
      resources = [];
    })

-- checkContext
unfoldable pub check_context : Context → Option PortError
check_context live = none
check_context _ = some context_canceled

unfoldable pub health_report : InMemoryAdapter → HealthStatus → String → HealthReport
health_report a status reason = record {
  adapter_id = a.adapter_id;
  service_category = a.service_category;
  backend_family = a.backend_family;
  status = status;
  reason = reason;
}

unfoldable pub set_health : HealthStatus → String → InMemoryAdapter → InMemoryAdapter × Result Unit
set_health status reason a =
    if valid_health_report (health_report a status reason)
    then (record a { health_status = status; health_reason = reason }, ok tt)
    else (a, err invalid_health_status)

unfoldable pub health : Context → InMemoryAdapter → InMemoryAdapter × Result HealthReport
health ctx a = elim (check_context ctx) [
  | some e ↦ (a, err e)
  | none ↦ (a, ok (health_report a a.health_status a.health_reason))
]

unfoldable pub state_for_verb : LifecycleVerb → ResourceState
state_for_verb verb =
    if verb == "hold" || verb == "suspend"
    then "suspended"
    else if verb == "deprovision"
    then "deleted"
    else "ready"

unfoldable pub idempotency_key : ProvisionRequest → String
idempotency_key req =
    req.tenant_id
    <> ("\0" <> (req.project_id <> ("\0" <> (req.resource_id <> ("\0" <> req.idempotency_key)))))

-- The zero value of a receipt, which Go leaves where NewProvisionReceipt fails.
abbrev pub zero_receipt : ProvisionReceipt
zero_receipt = record {
  schema_version = "";
  request_sha256 = "";
  commitment_sha256 = "";
  operation_id = "";
  provider_handle = "";
  adapter_id = "";
  service_category = "";
  tenant_id = "";
  project_id = "";
  resource_id = "";
  state = "";
  blocker_code = "";
}

unfoldable pub or_zero : Result ProvisionReceipt → ProvisionReceipt
or_zero (ok receipt) = receipt
or_zero (err e) = zero_receipt

-- The tenant's check of ExecuteLifecycle.
unfoldable pub access_error : ProvisionRequest → Option StoredResource → Option PortError
access_error req none = if req.verb == "provision" then none else some resource_not_found
access_error req (some existing) =
    if not (existing.tenant_id == req.tenant_id) || not (existing.project_id == req.project_id)
    then some tenant_isolation_violation
    else none

module _ (sha256 : String → String) where
  -- The receipt of a request that is carried out.
  unfoldable pub receipt_for : BackendFamily → ProvisionRequest → ProvisionReceipt
  receipt_for family req =
      let digest = sha256 (request_text req) in
      let sum = sha256 (
        family
        <> ("\0" <> (req.tenant_id <> ("\0" <> (req.project_id <> ("\0" <> req.resource_id)))))) in
      or_zero (
        new_provision_receipt sha256 req ("op-" <> text_take 24 digest) (state_for_verb req.verb)
          ("hdl-" <> (family <> ("-" <> text_take 20 sum))) "")

  -- What ExecuteLifecycle does once the tenant may act: replay, refuse, or carry out.
  unfoldable pub execute_admitted :
      ProvisionRequest
      → Option IdempotencyEntry
      → InMemoryAdapter
      → InMemoryAdapter × Result ProvisionReceipt
  execute_admitted req (some prior) a =
      if not (prior.request_sha256 == sha256 (request_text req))
      then (a, err idempotency_conflict)
      else (a, ok prior.receipt)
  execute_admitted req none a =
      let receipt = receipt_for a.backend_family req in
      (
        record a {
          idempotency_log =
              insert (idempotency_key req)
                (record { request_sha256 = sha256 (request_text req); receipt = receipt })
                a.idempotency_log;
          resources =
              insert req.resource_id
                (record {
                  tenant_id = req.tenant_id;
                  project_id = req.project_id;
                  receipt = receipt;
                })
                a.resources;
        },
        ok receipt,
      )

  unfoldable pub execute_lifecycle :
      Context → ProvisionRequest → InMemoryAdapter → InMemoryAdapter × Result ProvisionReceipt
  execute_lifecycle ctx req a = elim (check_context ctx) [
    | some e ↦ (a, err e)
    | none ↦
        if not (valid_provision_request req)
        then (a, err invalid_request)
        else if not (req.adapter_id == a.adapter_id)
            || not (req.service_category == a.service_category)
        then (a, err invalid_request)
        else elim (access_error req (lookup req.resource_id a.resources)) [
          | some e ↦ (a, err e)
          | none ↦ execute_admitted req (lookup (idempotency_key req) a.idempotency_log) a
        ]
  ]

-- InspectResource, after its checks of the identifiers.
unfoldable pub inspect_stored : String → String → Option StoredResource → Result ProvisionReceipt
inspect_stored tenant_id project_id none = err resource_not_found
inspect_stored tenant_id project_id (some stored) =
    if not (stored.tenant_id == tenant_id) || not (stored.project_id == project_id)
    then err tenant_isolation_violation
    else ok stored.receipt

unfoldable pub inspect_resource :
    Context → String → String → String → InMemoryAdapter → InMemoryAdapter × Result ProvisionReceipt
inspect_resource ctx tenant_id project_id resource_id a = elim (check_context ctx) [
  | some e ↦ (a, err e)
  | none ↦
      if not (valid_identifier tenant_id)
        || not (valid_identifier project_id)
        || not (valid_identifier resource_id)
      then (a, err invalid_request)
      else (a, inspect_stored tenant_id project_id (lookup resource_id a.resources))
]
