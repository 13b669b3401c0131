-- ===== src/Ports/Conforms.antt =====
-- pkg/providerports/ports.go: RunConformanceSuite on an InMemoryAdapter.
use cloud_ring.Prelude.{String, true, ◌≡◌, ◌≢◌, refl, sym, ap, ◌∙◌, subst, arith, eq_iff, [], ◌∷◌}
use cloud_ring.Prelude.Lists.{lookup, insert, contains}
use cloud_ring.Prelude.Patterns.{matches, all_codes, dot_dot}
use cloud_ring.Ports.Types.{
  Result, ok, err, idempotency_conflict, live, ProvisionRequest, ServiceCategory, BackendFamily,
  valid_identifier, identifier_codes, valid_digest, valid_backend_family, valid_service_category,
  valid_lifecycle_verb, valid_health_status,
}
use cloud_ring.Ports.Requests.{request_text, sort_parameters, parameters_of, valid_parameters}
use cloud_ring.Ports.Receipts.{valid_health_report}
use cloud_ring.Ports.Adapter.{
  InMemoryAdapter, check_context, state_for_verb, idempotency_key, access_error, execute_admitted,
  execute_lifecycle, new_in_memory_adapter, health, health_report,
}
use cloud_ring.Ports.Steps.{carried, here, IsOwned}
use cloud_ring.Ports.Replay.{execute_lifecycle-settled}
use cloud_ring.Ports.Isolation.{Steps-isolates}
use cloud_ring.Ports.Conformance.{
  ConformanceResult, suite_request, or_zero_request, in_memory_port, run_requests,
  run_conformance_suite, transitions, verified_checks,
}
use cloud_ring.Ports.SuiteRequests.{
  request_of, suite_request-ok, execute_lifecycle-canceled, run_requests-steps, IsSound-first,
  IsSound-conflicting, IsSound-crossing, run_conformance_suite-steps,
}
use cloud_ring.Ports.Rounds.{IsAdapter, suite_request-carries, IsReady, run_transitions-passes}

-- The result of the suite where all is well.
abbrev pub all_passed : String → ServiceCategory → BackendFamily → ConformanceResult
all_passed adapter_id category family = record {
  adapter_id = adapter_id;
  service_category = category;
  backend_family = family;
  passed = true;
  verified_checks = verified_checks;
}

module _ (sha256 : String → String) (is_hex_digest : (s : String) → valid_digest (sha256 s) ≡ true)
    (category : ServiceCategory) (adapter_id : String) (family : BackendFamily)
    (has_category : valid_service_category category ≡ true)
    (has_adapter_id : valid_identifier adapter_id ≡ true)
    (has_family : valid_backend_family family ≡ true) where
  -- The adapter after the suite's first request.
  abbrev fresh : InMemoryAdapter
  fresh = record {
    adapter_id = adapter_id;
    service_category = category;
    backend_family = family;
    health_status = "ready";
    health_reason = "";
    idempotency_log = [];
    resources = [];
  }

  abbrev first_request : ProvisionRequest
  first_request =
      request_of category adapter_id "tenant-alpha" "idem-create-01" "provision"
        (("profile", "standard-v1") ∷ [])

  abbrev conflicting_request : ProvisionRequest
  conflicting_request =
      request_of category adapter_id "tenant-alpha" "idem-create-01" "provision"
        (("profile", "mutated-v2") ∷ [])

  transitions-IsReady :
      IsReady sha256 is_hex_digest category adapter_id family has_category has_adapter_id has_family
        transitions
        (carried sha256 first_request fresh)
  unfolding IsReady execute_admitted access_error lookup insert idempotency_key valid_identifier
      identifier_codes matches all_codes dot_dot valid_lifecycle_verb contains state_for_verb
      sort_parameters parameters_of valid_parameters
  transitions-IsReady = (
    (refl, refl, refl, refl, refl),
    refl,
    refl,
    refl,
    (
      (refl, refl, refl, refl, refl),
      refl,
      refl,
      refl,
      (
        (refl, refl, refl, refl, refl),
        refl,
        refl,
        refl,
        (
          (refl, refl, refl, refl, refl),
          refl,
          refl,
          refl,
          ((refl, refl, refl, refl, refl), refl, refl, refl, tt),
        ),
      ),
    ),
  )

  first-IsOwned :
      IsOwned "tenant-alpha" "project-core" "res-conformance-01"
        (carried sha256 first_request fresh)
  unfolding IsOwned execute_admitted lookup insert
  first-IsOwned = (_, refl, refl, refl)

  abbrev crossing_request : ProvisionRequest
  crossing_request = request_of category adapter_id "tenant-bravo" "idem-bravo-01" "deprovision" []

  run_requests-passes :
      sha256 (request_text first_request) ≢ sha256 (request_text conflicting_request)
      → (b : InMemoryAdapter) × (run_requests sha256
            (in_memory_port sha256)
            category
            adapter_id
            first_request
            fresh
          ≡ (b, ok tt))
  unfolding or_zero_request IsAdapter access_error lookup execute_admitted state_for_verb
  run_requests-passes differ =
      let a1 = carried sha256 first_request fresh in
      let own : IsAdapter sha256 is_hex_digest category adapter_id family has_category
          has_adapter_id has_family fresh =
        (refl, refl, refl) in
      let (valid_c, made_c) =
        suite_request-ok category adapter_id "tenant-alpha" "idem-create-01" "provision"
          (("profile", "mutated-v2") ∷ []) has_category has_adapter_id IsSound-conflicting in
      let (valid_x, made_x) =
        suite_request-ok category adapter_id "tenant-bravo" "idem-bravo-01" "deprovision" []
          has_category has_adapter_id IsSound-crossing in
      let (valid_f, made_f) =
        suite_request-ok category adapter_id "tenant-alpha" "idem-create-01" "provision"
          (("profile", "standard-v1") ∷ []) has_category has_adapter_id IsSound-first in
      let (r, run, vr, st) =
        suite_request-carries sha256 is_hex_digest category adapter_id family has_category
          has_adapter_id has_family "tenant-alpha" "idem-create-01" "provision"
          (("profile", "standard-v1") ∷ []) fresh own IsSound-first refl refl in
      let again =
        execute_lifecycle-settled sha256 live first_request first_request fresh a1 a1 r run refl
          here valid_f refl refl refl refl refl refl in
      let clash =
        execute_lifecycle-settled sha256 live first_request conflicting_request fresh a1 a1 r run
          refl here valid_c refl refl refl refl refl refl in
      let own_hash = sha256 (request_text first_request) in
      let replayed : execute_lifecycle sha256 live first_request a1 ≡ (a1, ok r) =
        ground (arith, eq_iff own_hash own_hash) in
      let clashed : execute_lifecycle sha256 live conflicting_request a1
          ≡ (a1, err idempotency_conflict) =
        ground (arith, eq_iff own_hash (sha256 (request_text conflicting_request))) in
      let (b, rounds) =
        run_transitions-passes sha256 is_hex_digest category adapter_id family has_category
          has_adapter_id has_family transitions a1 (refl, refl, refl) transitions-IsReady in
      let (crossed, inspected) =
        Steps-isolates sha256 crossing_request "tenant-alpha" "project-core" a1 a1 first-IsOwned
          here valid_x refl refl refl in
      (
        b,
        run_requests-steps sha256 (in_memory_port sha256) category adapter_id first_request fresh a1
            b r run vr st replayed
            (ap (λ q. execute_lifecycle sha256 live (or_zero_request q) a1) made_c ∙ clashed)
            inspected
            (ap (λ q. execute_lifecycle sha256 live (or_zero_request q) a1) made_x ∙ crossed) rounds
            (execute_lifecycle-canceled sha256 first_request b),
      )

  health_report-valid : valid_health_report (health_report fresh "ready" "") ≡ true
  unfolding valid_health_report health_report valid_health_status contains
  health_report-valid = ground arith

  new_suite-passes :
      sha256 (request_text first_request) ≢ sha256 (request_text conflicting_request)
      → (run_conformance_suite sha256 (in_memory_port sha256) fresh).1
        ≡ ok (all_passed adapter_id category family)
  unfolding health check_context
  new_suite-passes differ =
      let (b, run) = run_requests-passes differ in
      let (_, made) =
        suite_request-ok category adapter_id "tenant-alpha" "idem-create-01" "provision"
          (("profile", "standard-v1") ∷ []) has_category has_adapter_id IsSound-first in
      run_conformance_suite-steps sha256 (in_memory_port sha256) fresh b
        (health_report fresh "ready" "") first_request refl health_report-valid made run

-- The suite's first request, and the one that conflicts with it.
abbrev pub provision_request : ServiceCategory → String → String → ProvisionRequest
provision_request category adapter_id profile = or_zero_request (
    suite_request category adapter_id "tenant-alpha" "idem-create-01" "provision"
      (("profile", profile) ∷ []))

-- The suite passes on every new adapter in memory, with all of its checks, if the hash is always 64
-- hexadecimal digits and tells the texts of the suite's two provision requests apart.
pub run_conformance_suite-passes :
    (sha256 : String → String)
    → ((s : String) → valid_digest (sha256 s) ≡ true)
    → (adapter_id : String) (category : ServiceCategory) (family : BackendFamily)
      (a : InMemoryAdapter)
    → new_in_memory_adapter adapter_id category family ≡ ok a
    → sha256 (request_text (provision_request category adapter_id "standard-v1"))
      ≢ sha256 (request_text (provision_request category adapter_id "mutated-v2"))
    → (run_conformance_suite sha256 (in_memory_port sha256) a).1
      ≡ ok (all_passed adapter_id category family)
unfolding new_in_memory_adapter or_zero_request
run_conformance_suite-passes sha256 is_hex_digest adapter_id category family a h differ =
    let hc : valid_service_category category ≡ true = ground arith in
    let hi : valid_identifier adapter_id ≡ true = ground arith in
    let hf : valid_backend_family family ≡ true = ground arith in
    let same : fresh sha256 is_hex_digest category adapter_id family hc hi hf ≡ a = ground arith in
    let (_, made) =
      suite_request-ok category adapter_id "tenant-alpha" "idem-create-01" "provision"
        (("profile", "standard-v1") ∷ []) hc hi IsSound-first in
    let (_, made') =
      suite_request-ok category adapter_id "tenant-alpha" "idem-create-01" "provision"
        (("profile", "mutated-v2") ∷ []) hc hi IsSound-conflicting in
    let hash : Result ProvisionRequest → String = λ q. sha256 (request_text (or_zero_request q)) in
    subst
      (λ x.
        (run_conformance_suite sha256 (in_memory_port sha256) x).1
        ≡ ok (all_passed adapter_id category family))
      same
      (new_suite-passes sha256 is_hex_digest category adapter_id family hc hi hf
        (λ e. differ (ap hash made ∙ (e ∙ ap hash (sym made')))))
