-- ===== src/Ports/Issuance.antt =====
-- pkg/providerports/ports.go: NewProvisionReceipt against ValidateProvisionReceipt.
use cloud_ring.Prelude.{String, true, ◌≡◌, ◌↔◌, refl, ◌⊎◌, inl, inr, arith, eq_iff}
use cloud_ring.Ports.Types.{
  Result, ok, err, ProvisionRequest, ProvisionReceipt, ResourceState, PortError,
}
use cloud_ring.Ports.Requests.{request_sha256}
use cloud_ring.Ports.Receipts.{
  receipt_matches, receipt_of, valid_provision_receipt, new_provision_receipt,
  receipt_commitment_sha256,
}

pub Result-cases :
    {A : Type 0} (r : Result A) → ((e : PortError) × (r ≡ err e)) ⊎ ((x : A) × (r ≡ ok x))
Result-cases (ok x) = inr (x, refl)
Result-cases (err e) = inl (e, refl)

-- A receipt that matches is the one made of its own parts.
pub receipt_matches_lem :
    (req : ProvisionRequest) (r : ProvisionReceipt) (digest commitment : String)
    → receipt_matches req r digest commitment ≡ true
    → receipt_of req r.operation_id r.state r.provider_handle r.blocker_code digest commitment ≡ r
unfolding receipt_matches receipt_of
receipt_matches_lem req r digest commitment h = ground (
  arith,
  eq_iff r.schema_version "cloudring.provider-ports.provision-receipt/v1",
  eq_iff r.request_sha256 digest,
  eq_iff r.commitment_sha256 commitment,
  eq_iff r.adapter_id req.adapter_id,
  eq_iff r.service_category req.service_category,
  eq_iff r.tenant_id req.tenant_id,
  eq_iff r.project_id req.project_id,
  eq_iff r.resource_id req.resource_id,
)

module _ (sha256 : String → String) where
  pub new_provision_receipt-valid :
      (req : ProvisionRequest) (operation_id : String) (state : ResourceState)
      (handle blocker_code : String) (r : ProvisionReceipt)
      → new_provision_receipt sha256 req operation_id state handle blocker_code ≡ ok r
      → valid_provision_receipt sha256 req r ≡ true
  unfolding new_provision_receipt
  new_provision_receipt-valid req operation_id state handle blocker_code r h = ground arith

  -- What an accepted receipt was compared with.
  pub valid_provision_receipt_sound :
      (req : ProvisionRequest) (r : ProvisionReceipt)
      → valid_provision_receipt sha256 req r ≡ true
      → (digest : String) × (commitment : String) × (request_sha256 sha256 req ≡ ok digest)
        × (receipt_commitment_sha256 sha256 req r.state r.provider_handle ≡ ok commitment)
        × (receipt_matches req r digest commitment ≡ true)
  unfolding valid_provision_receipt
  valid_provision_receipt_sound req r h = elim (Result-cases (request_sha256 sha256 req)) [
    | inl (e, hd) ↦ ground arith
    | inr (digest, hd) ↦
        elim (Result-cases (receipt_commitment_sha256 sha256 req r.state r.provider_handle)) [
          | inl (e, hc) ↦ ground arith
          | inr (commitment, hc) ↦ (digest, commitment, hd, hc, ground arith)
        ]
  ]

  valid_provision_receipt-new :
      (req : ProvisionRequest) (r : ProvisionReceipt)
      → valid_provision_receipt sha256 req r ≡ true
      → new_provision_receipt sha256 req r.operation_id r.state r.provider_handle r.blocker_code
        ≡ ok r
  unfolding new_provision_receipt
  valid_provision_receipt-new req r h =
      let (digest, commitment, hd, hc, hm) = valid_provision_receipt_sound req r h in
      let made = receipt_matches_lem req r digest commitment hm in ground arith

  -- ValidateProvisionReceipt accepts a receipt for a request exactly when NewProvisionReceipt,
  -- given the request and the receipt's operation, state, handle and blocker, returns that receipt.
  pub valid_provision_receipt_iff :
      (req : ProvisionRequest) (r : ProvisionReceipt)
      → (valid_provision_receipt sha256 req r ≡ true) ↔ (
          new_provision_receipt sha256 req r.operation_id r.state r.provider_handle r.blocker_code
          ≡ ok r)
  valid_provision_receipt_iff req r = (
    valid_provision_receipt-new req r,
    new_provision_receipt-valid req r.operation_id r.state r.provider_handle r.blocker_code r,
  )
