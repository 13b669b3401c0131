-- ===== src/Ports/Fulfilment.antt =====
-- pkg/providerports/ports.go: ExecuteLifecycle on a request that it carries out.
use cloud_ring.Prelude.{
  String, ◌<>◌, true, false, ◌||◌, ◌≡◌, refl, sym, subst, arith, ◌==◌, eq_iff, if-both,
  if◌then◌else◌, none,
}
use cloud_ring.Prelude.Lists.{lookup, contains}
use cloud_ring.Prelude.Text.{text_take}
use cloud_ring.Ports.Types.{
  ok, live, ProvisionRequest, ProvisionReceipt, LifecycleVerb, ResourceState, BackendFamily,
  valid_identifier, valid_digest, valid_backend_family, valid_resource_state,
}
use cloud_ring.Ports.Requests.{valid_provision_request, request_text, request_sha256}
use cloud_ring.Ports.Receipts.{
  requires_blocker, commitment_text, receipt_matches, receipt_of, receipt_commitment_sha256,
  valid_provision_receipt, new_provision_receipt,
}
use cloud_ring.Ports.Adapter.{
  InMemoryAdapter, check_context, state_for_verb, idempotency_key, or_zero, access_error,
  receipt_for, execute_admitted, execute_lifecycle,
}
use cloud_ring.Ports.Identifiers.{operation_id-valid, provider_handle-valid}
use cloud_ring.Ports.Steps.{carried}
use cloud_ring.Ports.Issuance.{new_provision_receipt-valid}

abbrev IsReached : ResourceState → Type 0
IsReached state = (valid_resource_state state ≡ true) × (requires_blocker state ≡ false)

state_for_verb-valid :
    (verb : LifecycleVerb)
    → (valid_resource_state (state_for_verb verb) ≡ true)
      × (requires_blocker (state_for_verb verb) ≡ false)
unfolding state_for_verb valid_resource_state requires_blocker contains
state_for_verb-valid verb =
    if-both IsReached (verb == "hold" || verb == "suspend") "suspended"
      (if verb == "deprovision" then "deleted" else "ready") (refl, refl)
      (if-both IsReached (verb == "deprovision") "deleted" "ready" (refl, refl) (refl, refl))

module _ (sha256 : String → String)
    (is_hex_digest : (s : String) → valid_digest (sha256 s) ≡ true) where
  new_provision_receipt-succeeds :
      (req : ProvisionRequest) (op : String) (state : ResourceState) (handle : String)
      → valid_provision_request req ≡ true
      → valid_identifier op ≡ true
      → valid_identifier handle ≡ true
      → valid_resource_state state ≡ true
      → requires_blocker state ≡ false
      → (r : ProvisionReceipt) × (new_provision_receipt sha256 req op state handle "" ≡ ok r)
        × (r.state ≡ state)
  unfolding new_provision_receipt valid_provision_receipt request_sha256 receipt_commitment_sha256
      receipt_matches receipt_of
  new_provision_receipt-succeeds req op state handle hv ho hh hs hb =
      let digest = sha256 (request_text req) in
      let commitment = sha256 (commitment_text digest state handle) in
      let hex = is_hex_digest (commitment_text digest state handle) in
      (
        receipt_of req op state handle "" digest commitment,
        ground (
          arith,
          eq_iff digest digest,
          eq_iff commitment commitment,
          eq_iff req.adapter_id req.adapter_id,
          eq_iff req.service_category req.service_category,
          eq_iff req.tenant_id req.tenant_id,
          eq_iff req.project_id req.project_id,
          eq_iff req.resource_id req.resource_id,
        ),
        refl,
      )

  -- The receipt that the adapter makes passes the validation.
  pub receipt_for-valid :
      (family : BackendFamily) (req : ProvisionRequest)
      → valid_backend_family family ≡ true
      → valid_provision_request req ≡ true
      → (valid_provision_receipt sha256 req (receipt_for sha256 family req) ≡ true)
        × ((receipt_for sha256 family req).state ≡ state_for_verb req.verb)
  unfolding receipt_for or_zero
  receipt_for-valid family req hf hv =
      let digest = sha256 (request_text req) in
      let owner =
        family
        <> ("\0" <> (req.tenant_id <> ("\0" <> (req.project_id <> ("\0" <> req.resource_id))))) in
      let op = "op-" <> text_take 24 digest in
      let handle = "hdl-" <> (family <> ("-" <> text_take 20 (sha256 owner))) in
      let (hs, hb) = state_for_verb-valid req.verb in
      let (r, made, state) =
        new_provision_receipt-succeeds req op (state_for_verb req.verb) handle hv
          (operation_id-valid digest (is_hex_digest (request_text req)))
          (provider_handle-valid family (sha256 owner) hf (is_hex_digest owner)) hs hb in
      let valid =
        new_provision_receipt-valid sha256 req op (state_for_verb req.verb) handle "" r made in
      (
        subst (λ x. valid_provision_receipt sha256 req (or_zero x) ≡ true) (sym made) valid,
        subst (λ x. (or_zero x).state ≡ state_for_verb req.verb) (sym made) state,
      )

-- A request on a new key by who may act is carried out.
pub execute_lifecycle-carries :
    (sha256 : String → String) (req : ProvisionRequest) (a : InMemoryAdapter)
    → valid_provision_request req ≡ true
    → req.adapter_id ≡ a.adapter_id
    → req.service_category ≡ a.service_category
    → access_error req (lookup req.resource_id a.resources) ≡ none
    → lookup (idempotency_key req) a.idempotency_log ≡ none
    → execute_lifecycle sha256 live req a
      ≡ (carried sha256 req a, ok (receipt_for sha256 a.backend_family req))
unfolding execute_lifecycle execute_admitted check_context
execute_lifecycle-carries sha256 req a hv ha hg hx hn =
    ground
      (arith, eq_iff req.adapter_id a.adapter_id, eq_iff req.service_category a.service_category)
