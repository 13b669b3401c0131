-- ===== src/Ports/SuiteRequests.antt =====
-- pkg/providerports/ports.go: the requests of RunConformanceSuite, and the answers that it asks for.
use cloud_ring.Prelude.{String, true, ◌≡◌, refl, arith, eq_iff, leb, none, [], ◌∷◌}
use cloud_ring.Prelude.Lists.{Map, length, contains}
use cloud_ring.Prelude.Text.{is_blank, byte_length}
use cloud_ring.Prelude.Patterns.{matches, all_codes, dot_dot}
use cloud_ring.Ports.Types.{
  HealthReport, ok, err, idempotency_conflict, tenant_isolation_violation, context_canceled, live,
  canceled, ProvisionRequest, ProvisionReceipt, ServiceCategory, LifecycleVerb, valid_identifier,
  identifier_codes, valid_param_key, valid_service_category, valid_lifecycle_verb,
}
use cloud_ring.Ports.Requests.{
  valid_provision_request, new_provision_request, sort_parameters, parameters_of, insert_sorted,
  valid_parameters, valid_parameter, has_nul,
}
use cloud_ring.Ports.Receipts.{valid_health_report, valid_provision_receipt}
use cloud_ring.Ports.Adapter.{InMemoryAdapter, check_context, execute_lifecycle}
use cloud_ring.Ports.Conformance.{
  ProviderPort, failed_with, error_eq, Transition, suite_request, or_zero_request, receipt_eq,
  run_transitions, run_requests, run_conformance_suite, transitions, verified_checks,
}

-- A request of the suite.
abbrev pub request_of :
    ServiceCategory → String → String → String → LifecycleVerb → Map String → ProvisionRequest
request_of category adapter_id tenant key verb params = record {
  schema_version = "cloudring.provider-ports.provision-request/v1";
  service_category = category;
  adapter_id = adapter_id;
  tenant_id = tenant;
  project_id = "project-core";
  resource_id = "res-conformance-01";
  idempotency_key = key;
  verb = verb;
  parameters = sort_parameters (parameters_of params);
}

-- The parts of a request of the suite that are not the adapter's are valid.
abbrev pub IsSound : String → String → LifecycleVerb → Map String → Type 0
IsSound tenant key verb params =
    (valid_identifier tenant ≡ true)
    × (valid_identifier key ≡ true)
    × (valid_lifecycle_verb verb ≡ true)
    × (leb (length (sort_parameters (parameters_of params))) 64 ≡ true)
    × (valid_parameters none (sort_parameters (parameters_of params)) ≡ true)

project : valid_identifier "project-core" ≡ true
unfolding valid_identifier identifier_codes matches all_codes dot_dot
project = refl

resource : valid_identifier "res-conformance-01" ≡ true
unfolding valid_identifier identifier_codes matches all_codes dot_dot
resource = refl

pub suite_request-ok :
    (category : ServiceCategory) (adapter_id tenant key : String) (verb : LifecycleVerb)
    (params : Map String)
    → valid_service_category category ≡ true
    → valid_identifier adapter_id ≡ true
    → IsSound tenant key verb params
    → (valid_provision_request (request_of category adapter_id tenant key verb params) ≡ true)
      × (suite_request category adapter_id tenant key verb params
          ≡ ok (request_of category adapter_id tenant key verb params))
unfolding suite_request new_provision_request valid_provision_request
suite_request-ok category adapter_id tenant key verb params hc hi (ht, hk, hv, hn, hp) =
    let core : valid_identifier "project-core" ≡ true = project in
    let res : valid_identifier "res-conformance-01" ≡ true = resource in
    (ground arith, ground arith)

-- The request of a round of the loop.
abbrev pub request_of_step : ServiceCategory → String → Transition → ProvisionRequest
request_of_step category adapter_id step =
    request_of category adapter_id "tenant-alpha" step.idem_key step.verb []

pub receipt_eq_refl : (r : ProvisionReceipt) → receipt_eq r r ≡ true
unfolding receipt_eq
receipt_eq_refl r = ground (
  arith,
  eq_iff r.schema_version r.schema_version,
  eq_iff r.request_sha256 r.request_sha256,
  eq_iff r.commitment_sha256 r.commitment_sha256,
  eq_iff r.operation_id r.operation_id,
  eq_iff r.provider_handle r.provider_handle,
  eq_iff r.adapter_id r.adapter_id,
  eq_iff r.service_category r.service_category,
  eq_iff r.tenant_id r.tenant_id,
  eq_iff r.project_id r.project_id,
  eq_iff r.resource_id r.resource_id,
  eq_iff r.state r.state,
  eq_iff r.blocker_code r.blocker_code,
)

pub execute_lifecycle-canceled :
    (sha256 : String → String) (req : ProvisionRequest) (a : InMemoryAdapter)
    → execute_lifecycle sha256 canceled req a ≡ (a, err context_canceled)
unfolding execute_lifecycle check_context
execute_lifecycle-canceled sha256 req a = refl

-- The answers that the suite asks of a port.
pub run_requests-steps :
    {S : Type 0} (sha256 : String → String) (port : ProviderPort S) (category : ServiceCategory)
    (adapter_id : String) (req : ProvisionRequest) (s a b : S) (r : ProvisionReceipt)
    → port.execute_lifecycle live req s ≡ (a, ok r)
    → valid_provision_receipt sha256 req r ≡ true
    → r.state ≡ "ready"
    → port.execute_lifecycle live req a ≡ (a, ok r)
    → port.execute_lifecycle live
        (or_zero_request (
          suite_request category adapter_id "tenant-alpha" "idem-create-01" "provision"
            (("profile", "mutated-v2") ∷ [])))
        a
      ≡ (a, err idempotency_conflict)
    → port.inspect_resource live "tenant-bravo" "project-core" "res-conformance-01" a
      ≡ (a, err tenant_isolation_violation)
    → port.execute_lifecycle live
        (or_zero_request
          (suite_request category adapter_id "tenant-bravo" "idem-bravo-01" "deprovision" []))
        a
      ≡ (a, err tenant_isolation_violation)
    → run_transitions sha256 port category adapter_id transitions a ≡ (b, ok tt)
    → port.execute_lifecycle canceled req b ≡ (b, err context_canceled)
    → run_requests sha256 port category adapter_id req s ≡ (b, ok tt)
unfolding run_requests failed_with error_eq
run_requests-steps sha256 port category adapter_id req s a b r h1 hv hs h2 h3 h4 h5 h6 h7 =
    let same = receipt_eq_refl r in let ready = (eq_iff r.state "ready").1 hs in ground arith

pub IsSound-first :
    IsSound "tenant-alpha" "idem-create-01" "provision" (("profile", "standard-v1") ∷ [])
unfolding valid_identifier identifier_codes matches all_codes dot_dot valid_lifecycle_verb contains
    sort_parameters insert_sorted parameters_of valid_parameters valid_parameter valid_param_key
    is_blank byte_length has_nul
IsSound-first = (refl, refl, refl, refl, refl)

pub IsSound-conflicting :
    IsSound "tenant-alpha" "idem-create-01" "provision" (("profile", "mutated-v2") ∷ [])
unfolding valid_identifier identifier_codes matches all_codes dot_dot valid_lifecycle_verb contains
    sort_parameters insert_sorted parameters_of valid_parameters valid_parameter valid_param_key
    is_blank byte_length has_nul
IsSound-conflicting = (refl, refl, refl, refl, refl)

pub IsSound-crossing : IsSound "tenant-bravo" "idem-bravo-01" "deprovision" []
unfolding valid_identifier identifier_codes matches all_codes dot_dot valid_lifecycle_verb contains
    sort_parameters insert_sorted parameters_of valid_parameters valid_parameter valid_param_key
    is_blank byte_length has_nul
IsSound-crossing = (refl, refl, refl, refl, refl)

pub run_conformance_suite-steps :
    {S : Type 0} (sha256 : String → String) (port : ProviderPort S) (s b : S)
    (report : HealthReport) (req : ProvisionRequest)
    → port.health live s ≡ (s, ok report)
    → valid_health_report report ≡ true
    → suite_request
        (port.service_category s)
        (port.adapter_id s)
        "tenant-alpha"
        "idem-create-01"
        "provision"
        (("profile", "standard-v1") ∷ [])
      ≡ ok req
    → run_requests sha256 port (port.service_category s) (port.adapter_id s) req s ≡ (b, ok tt)
    → (run_conformance_suite sha256 port s).1
      ≡ ok (record {
        adapter_id = port.adapter_id s;
        service_category = port.service_category s;
        backend_family = port.backend_family s;
        passed = true;
        verified_checks = verified_checks;
      })
unfolding run_conformance_suite
run_conformance_suite-steps sha256 port s b report req h1 hv h2 h3 = ground arith
