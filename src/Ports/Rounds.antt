-- ===== src/Ports/Rounds.antt =====
-- pkg/providerports/ports.go: the rounds of RunConformanceSuite on an InMemoryAdapter.
use cloud_ring.Prelude.{String, true, ◌≡◌, refl, sym, arith, eq_iff, none, List, [], ◌∷◌}
use cloud_ring.Prelude.Lists.{Map, lookup}
use cloud_ring.Ports.Types.{
  ok, live, ProvisionReceipt, ServiceCategory, LifecycleVerb, BackendFamily, valid_identifier,
  valid_digest, valid_backend_family, valid_service_category,
}
use cloud_ring.Ports.Receipts.{valid_provision_receipt}
use cloud_ring.Ports.Adapter.{
  InMemoryAdapter, state_for_verb, idempotency_key, access_error, receipt_for, execute_admitted,
  execute_lifecycle,
}
use cloud_ring.Ports.Steps.{carried}
use cloud_ring.Ports.Fulfilment.{receipt_for-valid, execute_lifecycle-carries}
use cloud_ring.Ports.Conformance.{
  Transition, or_zero_request, in_memory_port, run_transition, run_transitions,
}
use cloud_ring.Ports.SuiteRequests.{request_of, IsSound, suite_request-ok, request_of_step}

module _ (sha256 : String → String) (is_hex_digest : (s : String) → valid_digest (sha256 s) ≡ true)
    (category : ServiceCategory) (adapter_id : String) (family : BackendFamily)
    (has_category : valid_service_category category ≡ true)
    (has_adapter_id : valid_identifier adapter_id ≡ true)
    (has_family : valid_backend_family family ≡ true) where
  -- An adapter with the identity.
  unfoldable pub IsAdapter : InMemoryAdapter → Type 0
  IsAdapter a =
      (a.adapter_id ≡ adapter_id) × (a.service_category ≡ category) × (a.backend_family ≡ family)

  -- A request of the suite on a new key by who may act is carried out, with a valid receipt.
  pub suite_request-carries :
      (tenant key : String) (verb : LifecycleVerb) (params : Map String) (a : InMemoryAdapter)
      → IsAdapter a
      → IsSound tenant key verb params
      → access_error
          (request_of category adapter_id tenant key verb params)
          (lookup "res-conformance-01" a.resources)
        ≡ none
      → lookup
          (idempotency_key (request_of category adapter_id tenant key verb params))
          a.idempotency_log
        ≡ none
      → (r : ProvisionReceipt) × (execute_lifecycle sha256 live
            (request_of category adapter_id tenant key verb params)
            a
          ≡ (carried sha256 (request_of category adapter_id tenant key verb params) a, ok r))
        × (valid_provision_receipt sha256 (request_of category adapter_id tenant key verb params) r
            ≡ true)
        × (r.state ≡ state_for_verb verb)
  unfolding IsAdapter
  suite_request-carries tenant key verb params a (ha, hc, hf) sound hx hn =
      let req = request_of category adapter_id tenant key verb params in
      let (valid, made) =
        suite_request-ok category adapter_id tenant key verb params has_category has_adapter_id
          sound in
      let (vr, st) =
        receipt_for-valid sha256 is_hex_digest a.backend_family req (ground arith) valid in
      (
        receipt_for sha256 a.backend_family req,
        execute_lifecycle-carries sha256 req a valid (sym ha) (sym hc) hx hn,
        vr,
        st,
      )

  pub run_transition-passes :
      (step : Transition) (a : InMemoryAdapter)
      → IsAdapter a
      → IsSound "tenant-alpha" step.idem_key step.verb []
      → state_for_verb step.verb ≡ step.expected_state
      → access_error
          (request_of_step category adapter_id step)
          (lookup "res-conformance-01" a.resources)
        ≡ none
      → lookup (idempotency_key (request_of_step category adapter_id step)) a.idempotency_log ≡ none
      → run_transition sha256 (in_memory_port sha256) category adapter_id step a
        ≡ (carried sha256 (request_of_step category adapter_id step) a, ok tt)
  unfolding run_transition or_zero_request
  run_transition-passes step a ha sound hs hx hn =
      let (valid, made) =
        suite_request-ok category adapter_id "tenant-alpha" step.idem_key step.verb [] has_category
          has_adapter_id sound in
      let (r, run, vr, st) =
        suite_request-carries "tenant-alpha" step.idem_key step.verb [] a ha sound hx hn in
      ground (arith, eq_iff r.state step.expected_state)

  -- What each round of the loop needs.
  unfoldable pub IsReady : List Transition → InMemoryAdapter → Type 0
  IsReady [] a = Unit
  IsReady (step ∷ steps) a =
      IsSound "tenant-alpha" step.idem_key step.verb []
      × (state_for_verb step.verb ≡ step.expected_state)
      × (access_error (request_of_step category adapter_id step)
            (lookup "res-conformance-01" a.resources)
          ≡ none)
      × (lookup (idempotency_key (request_of_step category adapter_id step)) a.idempotency_log
          ≡ none)
      × IsReady steps (carried sha256 (request_of_step category adapter_id step) a)

  pub run_transitions-passes :
      (steps : List Transition) (a : InMemoryAdapter)
      → IsAdapter a
      → IsReady steps a
      → (b : InMemoryAdapter) × (run_transitions sha256
            (in_memory_port sha256)
            category
            adapter_id
            steps
            a
          ≡ (b, ok tt))
  unfolding run_transitions IsReady IsAdapter execute_admitted
  run_transitions-passes [] a ha hr = (a, refl)
  run_transitions-passes (step ∷ steps) a ha (sound, hs, hx, hn, hr) =
      let one = run_transition-passes step a ha sound hs hx hn in
      let (b, rest) =
        run_transitions-passes steps (carried sha256 (request_of_step category adapter_id step) a)
          ha hr in
      (b, ground arith)
