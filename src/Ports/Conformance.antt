-- ===== src/Ports/Conformance.antt =====
-- pkg/providerports/ports.go: ProviderPort and RunConformanceSuite, over any port.
use cloud_ring.Prelude.{String, Bool, true, false, ◌&&◌, ◌==◌, List, [], ◌∷◌, if◌then◌else◌}
use cloud_ring.Prelude.Lists.{Map}
use cloud_ring.Ports.Types.{
  Result, ok, err, PortError, invalid_request, invalid_receipt, invalid_health_status,
  invalid_adapter_descriptor, adapter_already_registered, adapter_not_found, idempotency_conflict,
  tenant_isolation_violation, resource_not_found, context_canceled, Context, canceled, live,
  ProvisionRequest, ProvisionReceipt, HealthReport, ServiceCategory, BackendFamily, LifecycleVerb,
  ResourceState,
}
use cloud_ring.Ports.Requests.{new_provision_request}
use cloud_ring.Ports.Receipts.{valid_health_report, valid_provision_receipt}
use cloud_ring.Ports.Adapter.{InMemoryAdapter, execute_lifecycle, inspect_resource, health}

-- ProviderPort: the methods of a port whose state is `S`.
pub record ProviderPort (S : Type 0) : Type 0 where
  pub adapter_id : S → String
  pub service_category : S → ServiceCategory
  pub backend_family : S → BackendFamily
  pub execute_lifecycle : Context → ProvisionRequest → S → S × Result ProvisionReceipt
  pub inspect_resource : Context → String → String → String → S → S × Result ProvisionReceipt
  pub health : Context → S → S × Result HealthReport

pub record ConformanceResult : Type 0 where
  pub adapter_id : String
  pub service_category : ServiceCategory
  pub backend_family : BackendFamily
  pub passed : Bool
  pub verified_checks : List String

-- A call of the suite: the port's state is passed on.
abbrev pub Suite : Type 0 → Type 0 → Type 0
Suite S A = S → S × Result A

infixl 5 ◌>>=◌ ◌>>◌
abbrev pub ◌>>=◌ : {S A B : Type 0} → Suite S A → (A → Suite S B) → Suite S B
◌>>=◌ m f s = elim (m s).1 [ err e ↦ ((m s).0, err e) | ok x ↦ f x (m s).0 ]

abbrev pub ◌>>◌ : {S B : Type 0} → Suite S Unit → Suite S B → Suite S B
m >> k = m >>= λ _. k

abbrev pub pure : {S A : Type 0} → Result A → Suite S A
pure r s = (s, r)

abbrev pub require : {S : Type 0} → Bool → PortError → Suite S Unit
require b e s = (s, if b then ok tt else err e)

unfoldable pub error_eq : PortError → PortError → Bool
error_eq invalid_request invalid_request = true
error_eq invalid_receipt invalid_receipt = true
error_eq invalid_health_status invalid_health_status = true
error_eq invalid_adapter_descriptor invalid_adapter_descriptor = true
error_eq adapter_already_registered adapter_already_registered = true
error_eq adapter_not_found adapter_not_found = true
error_eq idempotency_conflict idempotency_conflict = true
error_eq tenant_isolation_violation tenant_isolation_violation = true
error_eq resource_not_found resource_not_found = true
error_eq context_canceled context_canceled = true
error_eq _ _ = false

unfoldable pub failed_with : {A : Type 0} → PortError → Result A → Bool
failed_with e (ok x) = false
failed_with e (err e') = error_eq e' e

-- A call that has to fail with `e`; the suite fails with `e` where it does not.
abbrev pub refused : {S A : Type 0} → PortError → Suite S A → Suite S Unit
refused e m s = ((m s).0, if failed_with e (m s).1 then ok tt else err e)

unfoldable pub receipt_eq : ProvisionReceipt → ProvisionReceipt → Bool
receipt_eq a b =
    a.schema_version == b.schema_version
    && a.request_sha256 == b.request_sha256
    && a.commitment_sha256 == b.commitment_sha256
    && a.operation_id == b.operation_id
    && a.provider_handle == b.provider_handle
    && a.adapter_id == b.adapter_id
    && a.service_category == b.service_category
    && a.tenant_id == b.tenant_id
    && a.project_id == b.project_id
    && a.resource_id == b.resource_id
    && a.state == b.state
    && a.blocker_code == b.blocker_code

-- The zero value of a request, which Go leaves where NewProvisionRequest fails.
abbrev pub zero_request : ProvisionRequest
zero_request = record {
  schema_version = "";
  service_category = "";
  adapter_id = "";
  tenant_id = "";
  project_id = "";
  resource_id = "";
  idempotency_key = "";
  verb = "";
  parameters = [];
}

unfoldable pub or_zero_request : Result ProvisionRequest → ProvisionRequest
or_zero_request (ok req) = req
or_zero_request (err e) = zero_request

-- The suite's request for its resource, on a key, with a verb and parameters.
unfoldable pub suite_request :
    ServiceCategory
    → String
    → String
    → String
    → LifecycleVerb
    → Map String
    → Result ProvisionRequest
suite_request category adapter_id tenant key verb params =
    new_provision_request category adapter_id tenant "project-core" "res-conformance-01" key verb
      params

pub record Transition : Type 0 where
  pub idem_key : String
  pub verb : LifecycleVerb
  pub expected_state : ResourceState

abbrev pub transitions : List Transition
transitions =
    record { idem_key = "idem-resize-01"; verb = "resize"; expected_state = "ready" }
    ∷ record { idem_key = "idem-hold-01"; verb = "hold"; expected_state = "suspended" }
    ∷ record { idem_key = "idem-resume-01"; verb = "resume"; expected_state = "ready" }
    ∷ record { idem_key = "idem-suspend-01"; verb = "suspend"; expected_state = "suspended" }
    ∷ record { idem_key = "idem-deprov-01"; verb = "deprovision"; expected_state = "deleted" }
    ∷ []

abbrev pub verified_checks : List String
verified_checks =
    "health_report_schema" ∷ "provision_receipt_commitment" ∷ "idempotent_replay_determinism"
    ∷ "idempotency_conflict_rejection" ∷ "tenant_and_project_isolation"
    ∷ "lifecycle_state_transitions" ∷ "context_cancellation_propagation" ∷ []

module _ {S : Type 0} (sha256 : String → String) (port : ProviderPort S) where
  -- One round of the loop over the transitions.
  unfoldable pub run_transition : ServiceCategory → String → Transition → Suite S Unit
  run_transition category adapter_id step =
      let req =
        or_zero_request
          (suite_request category adapter_id "tenant-alpha" step.idem_key step.verb []) in
      do
        receipt ← port.execute_lifecycle live req
        require (valid_provision_receipt sha256 req receipt && receipt.state == step.expected_state)
            invalid_receipt

  unfoldable pub run_transitions : ServiceCategory → String → List Transition → Suite S Unit
  run_transitions category adapter_id [] = pure (ok tt)
  run_transitions category adapter_id (step ∷ steps) =
      run_transition category adapter_id step >> run_transitions category adapter_id steps

  -- The suite from its first request on.
  unfoldable pub run_requests : ServiceCategory → String → ProvisionRequest → Suite S Unit
  run_requests category adapter_id req =
      let conflicting = or_zero_request (
        suite_request category adapter_id "tenant-alpha" "idem-create-01" "provision"
          (("profile", "mutated-v2") ∷ [])) in
      let crossing =
        or_zero_request
          (suite_request category adapter_id "tenant-bravo" "idem-bravo-01" "deprovision" []) in
      do
        first ← port.execute_lifecycle live req
        require (valid_provision_receipt sha256 req first && first.state == "ready") invalid_receipt
        replayed ← port.execute_lifecycle live req
        require (receipt_eq replayed first) idempotency_conflict
        refused idempotency_conflict (port.execute_lifecycle live conflicting)
        refused tenant_isolation_violation
            (port.inspect_resource live "tenant-bravo" "project-core" "res-conformance-01")
        refused tenant_isolation_violation (port.execute_lifecycle live crossing)
        run_transitions category adapter_id transitions
        refused context_canceled (port.execute_lifecycle canceled req)

  unfoldable pub run_conformance_suite : Suite S ConformanceResult
  run_conformance_suite s =
      let category = port.service_category s in
      let adapter_id = port.adapter_id s in
      (do
        report ← port.health live
        require (valid_health_report report) invalid_health_status
        req ← pure (
            suite_request category adapter_id "tenant-alpha" "idem-create-01" "provision"
              (("profile", "standard-v1") ∷ []))
        run_requests category adapter_id req
        pure (
            ok (record {
              adapter_id = adapter_id;
              service_category = category;
              backend_family = port.backend_family s;
              passed = true;
              verified_checks = verified_checks;
            })))
        s

-- The adapter in memory as a port.
abbrev pub in_memory_port : (String → String) → ProviderPort InMemoryAdapter
in_memory_port sha256 = record {
  adapter_id = λ a. a.adapter_id;
  service_category = λ a. a.service_category;
  backend_family = λ a. a.backend_family;
  execute_lifecycle = execute_lifecycle sha256;
  inspect_resource = inspect_resource;
  health = health;
}
