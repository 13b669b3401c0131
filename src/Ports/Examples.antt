-- ===== src/Ports/Examples.antt =====
-- The theorems on the provider ports at concrete inputs: a kubernetes adapter on bare metal, with two
-- tenants.
use mathlib.Core.HLevel.{¬_prop}
use mathlib.Core.List.{Permᴰ, Pairwise, Pairwise-pair}
use cloud_ring.Prelude.Lists.{Map}
use cloud_ring.Prelude.{
  String, [], ◌∷◌, true, false, ◌&&◌, ◌≡◌, ◌≢◌, ◌↔◌, refl, arith, ◌==◌, some, eqb, ◌%◌,
  if◌then◌else◌, if-both, eq_iff,
}
use cloud_ring.Prelude.Lists.{lookup, insert, length, contains}
use cloud_ring.Prelude.Text.{codes, is_blank, byte_length}
use cloud_ring.Prelude.Patterns.{matches, all_codes, hex_text, dot_dot}
use cloud_ring.Ports.Types.{
  ok, err, live, ProvisionRequest, ProvisionReceipt, AdapterDescriptor, identifier_codes,
  valid_identifier, valid_param_key, valid_digest, valid_service_category, valid_backend_family,
  valid_lifecycle_verb, idempotency_conflict, tenant_isolation_violation,
  adapter_already_registered,
}
use cloud_ring.Ports.Requests.{
  has_nul, valid_parameter, valid_parameters, valid_provision_request, sort_parameters,
  insert_sorted, parameters_of, new_provision_request, request_text, parameters_text, field,
}
use cloud_ring.Ports.Receipts.{valid_provision_receipt, new_provision_receipt}
use cloud_ring.Ports.Registry.{registry_key, valid_descriptor, register, lookup_adapter}
use cloud_ring.Ports.Adapter.{
  InMemoryAdapter, set_health, access_error, execute_admitted, execute_lifecycle, inspect_resource,
  idempotency_key, new_in_memory_adapter, receipt_for,
}
use cloud_ring.Ports.Conformance.{
  in_memory_port, run_conformance_suite, suite_request, or_zero_request,
}
use cloud_ring.Ports.Steps.{IsOwned, Steps, here, next, sets_health, carried}
use cloud_ring.Ports.Issuance.{valid_provision_receipt_iff}
use cloud_ring.Ports.Reorder.{Differ, new_provision_request-Perm}
use cloud_ring.Ports.Registered.{register-lookup}
use cloud_ring.Ports.Fulfilment.{execute_lifecycle-carries}
use cloud_ring.Ports.Replay.{execute_lifecycle-settled}
use cloud_ring.Ports.Honest.{execute_lifecycle-valid_provision_receipt}
use cloud_ring.Ports.Isolation.{Steps-isolates}
use cloud_ring.Ports.Conforms.{all_passed, provision_request, run_conformance_suite-passes}

-- A hash that tells even lengths from odd ones.
unfoldable sample_sha256 : String → String
sample_sha256 s =
    if eqb (length (codes s) % 2) 0
    then "aaaaaaaaaaaaaaaaaaaaaaaaaaaaaaaaaaaaaaaaaaaaaaaaaaaaaaaaaaaaaaaa"
    else "bbbbbbbbbbbbbbbbbbbbbbbbbbbbbbbbbbbbbbbbbbbbbbbbbbbbbbbbbbbbbbbb"

is_hex_digest : (s : String) → valid_digest (sample_sha256 s) ≡ true
unfolding sample_sha256 valid_digest hex_text all_codes
is_hex_digest s =
    if-both (λ d. valid_digest d ≡ true) (eqb (length (codes s) % 2) 0)
      "aaaaaaaaaaaaaaaaaaaaaaaaaaaaaaaaaaaaaaaaaaaaaaaaaaaaaaaaaaaaaaaa"
      "bbbbbbbbbbbbbbbbbbbbbbbbbbbbbbbbbbbbbbbbbbbbbbbbbbbbbbbbbbbbbbbb" refl refl

abbrev empty_adapter : InMemoryAdapter
empty_adapter = record {
  adapter_id = "metal-01";
  service_category = "kubernetes";
  backend_family = "bare-metal";
  health_status = "ready";
  health_reason = "";
  idempotency_log = [];
  resources = [];
}

abbrev request_by : String → String → ProvisionRequest
request_by tenant size = record {
  schema_version = "cloudring.provider-ports.provision-request/v1";
  service_category = "kubernetes";
  adapter_id = "metal-01";
  tenant_id = tenant;
  project_id = "core";
  resource_id = "cluster-1";
  idempotency_key = "create-1";
  verb = "provision";
  parameters = record { key = "size"; value = size } ∷ [];
}

is_valid : valid_provision_request (request_by "alpha" "small") ≡ true
unfolding valid_provision_request valid_service_category valid_lifecycle_verb contains
    valid_identifier identifier_codes matches all_codes dot_dot valid_parameters valid_parameter
    valid_param_key is_blank byte_length has_nul
is_valid = refl

is_valid_large : valid_provision_request (request_by "alpha" "medium") ≡ true
unfolding valid_provision_request valid_service_category valid_lifecycle_verb contains
    valid_identifier identifier_codes matches all_codes dot_dot valid_parameters valid_parameter
    valid_param_key is_blank byte_length has_nul
is_valid_large = refl

is_valid_bravo : valid_provision_request (request_by "bravo" "small") ≡ true
unfolding valid_provision_request valid_service_category valid_lifecycle_verb contains
    valid_identifier identifier_codes matches all_codes dot_dot valid_parameters valid_parameter
    valid_param_key is_blank byte_length has_nul
is_valid_bravo = refl

abbrev served : InMemoryAdapter
served = carried sample_sha256 (request_by "alpha" "small") empty_adapter

abbrev given : ProvisionReceipt
given = receipt_for sample_sha256 "bare-metal" (request_by "alpha" "small")

serves :
    execute_lifecycle sample_sha256 live (request_by "alpha" "small") empty_adapter
    ≡ (served, ok given)
unfolding access_error lookup idempotency_key
serves =
    execute_lifecycle-carries sample_sha256 (request_by "alpha" "small") empty_adapter is_valid refl
      refl refl refl

goes_on : Steps sample_sha256 served (set_health "degraded" "disk" served).0
goes_on = next here (sets_health "degraded" "disk" served)

abbrev later : InMemoryAdapter
later = (set_health "degraded" "disk" served).0

execute_lifecycle-settled_example :
    execute_lifecycle sample_sha256 live (request_by "alpha" "medium") later ≡ (
      later,
      if sample_sha256 (request_text (request_by "alpha" "small"))
            == sample_sha256 (request_text (request_by "alpha" "medium"))
          then ok given
          else err idempotency_conflict,
    )
unfolding lookup
execute_lifecycle-settled_example =
    execute_lifecycle-settled sample_sha256 live (request_by "alpha" "small")
      (request_by "alpha" "medium") empty_adapter served later given serves refl goes_on
      is_valid_large refl refl refl refl refl refl

is_owned : IsOwned "alpha" "core" "cluster-1" served
unfolding IsOwned execute_admitted lookup insert
is_owned = (_, refl, refl, refl)

Steps-isolates_example :
    (execute_lifecycle sample_sha256 live (request_by "bravo" "small") later
      ≡ (later, err tenant_isolation_violation))
    × (inspect_resource live "bravo" "core" "cluster-1" later
        ≡ (later, err tenant_isolation_violation))
unfolding execute_admitted
Steps-isolates_example =
    Steps-isolates sample_sha256 (request_by "bravo" "small") "alpha" "core" served later is_owned
      goes_on is_valid_bravo refl refl refl

valid_provision_receipt_iff_example :
    (valid_provision_receipt sample_sha256 (request_by "alpha" "small") given ≡ true) ↔ (
      new_provision_receipt sample_sha256
        (request_by "alpha" "small")
        given.operation_id
        given.state
        given.provider_handle
        given.blocker_code
      ≡ ok given)
valid_provision_receipt_iff_example =
    valid_provision_receipt_iff sample_sha256 (request_by "alpha" "small") given

abbrev digest_of : ProvisionRequest → String
digest_of req = sample_sha256 (request_text req)

abbrev described : AdapterDescriptor
described = record {
  adapter_id = "metal-01";
  service_category = "kubernetes";
  backend_family = "bare-metal";
}

abbrev same_port : AdapterDescriptor → AdapterDescriptor
same_port d = d

registers :
    register same_port (some described) [] ≡ (("kubernetes\0metal-01", described) ∷ [], ok tt)
unfolding register valid_descriptor valid_service_category valid_backend_family contains
    valid_identifier identifier_codes matches all_codes dot_dot registry_key lookup insert
registers = refl

register-lookup_example :
    (valid_descriptor described ≡ true)
    × ((category adapter_id : String)
        → lookup_adapter category adapter_id (("kubernetes\0metal-01", described) ∷ []) ≡ (
            if category == "kubernetes" && adapter_id == "metal-01"
            then ok described
            else lookup_adapter category adapter_id []))
    × (register same_port (some described) (("kubernetes\0metal-01", described) ∷ [])
        ≡ (("kubernetes\0metal-01", described) ∷ [], err adapter_already_registered))
register-lookup_example =
    register-lookup same_port described described [] (("kubernetes\0metal-01", described) ∷ [])
      registers refl

creates : new_in_memory_adapter "metal-01" "kubernetes" "bare-metal" ≡ ok empty_adapter
unfolding new_in_memory_adapter valid_service_category valid_backend_family contains
    valid_identifier identifier_codes matches all_codes dot_dot
creates = refl

abbrev suite_digest : String → String
suite_digest profile = digest_of (provision_request "kubernetes" "metal-01" profile)

small_digest : (suite_digest "standard-v1" == suite_digest "mutated-v2") ≡ false
unfolding sample_sha256 request_text parameters_text field suite_request new_provision_request
    or_zero_request sort_parameters insert_sorted parameters_of valid_provision_request
    valid_service_category valid_lifecycle_verb contains valid_identifier identifier_codes matches
    all_codes dot_dot valid_parameters valid_parameter valid_param_key is_blank byte_length has_nul
small_digest = refl

digests_differ : suite_digest "standard-v1" ≢ suite_digest "mutated-v2"
digests_differ e =
    let apart = small_digest in
    ground (arith, eq_iff (suite_digest "standard-v1") (suite_digest "mutated-v2"))

run_conformance_suite-passes_example :
    (run_conformance_suite sample_sha256 (in_memory_port sample_sha256) empty_adapter).1
    ≡ ok (all_passed "metal-01" "kubernetes" "bare-metal")
run_conformance_suite-passes_example =
    run_conformance_suite-passes sample_sha256 is_hex_digest "metal-01" "kubernetes" "bare-metal"
      empty_adapter creates digests_differ

execute_lifecycle-valid_provision_receipt_example :
    valid_provision_receipt sample_sha256 (request_by "alpha" "small") given ≡ true
execute_lifecycle-valid_provision_receipt_example =
    execute_lifecycle-valid_provision_receipt sample_sha256 is_hex_digest "metal-01" "kubernetes"
      "bare-metal" empty_adapter empty_adapter served live (request_by "alpha" "small") given
      creates here serves

abbrev entries : Map String
entries = ("size", "small") ∷ ("zone", "north") ∷ []

abbrev turned : Map String
turned = ("zone", "north") ∷ ("size", "small") ∷ []

entries_apart : Pairwise Differ entries
entries_apart =
    (Pairwise-pair {R = Differ} (λ a b. ¬_prop)).1 (λ e. ground (arith, eq_iff "size" "zone"))

new_provision_request-Perm_example :
    new_provision_request "kubernetes" "metal-01" "alpha" "core" "cluster-1" "create-1" "provision"
      entries
    ≡ new_provision_request "kubernetes" "metal-01" "alpha" "core" "cluster-1" "create-1"
        "provision" turned
new_provision_request-Perm_example =
    new_provision_request-Perm "kubernetes" "metal-01" "alpha" "core" "cluster-1" "create-1"
      "provision" entries turned entries_apart ∣ Permᴰ.swap refl refl ∣₁
