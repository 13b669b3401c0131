-- ===== src/Ports/Receipts.antt =====
-- pkg/providerports/ports.go: the receipts and the health reports.
use cloud_ring.Prelude.{String, ◌<>◌, Bool, false, not, ◌&&◌, ◌||◌, ◌==◌, if◌then◌else◌}
use cloud_ring.Prelude.Text.{is_blank}
use cloud_ring.Ports.Types.{
  Result, ok, err, invalid_receipt, ProvisionRequest, ProvisionReceipt, ResourceState, HealthReport,
  valid_service_category, valid_backend_family, valid_resource_state, valid_health_status,
  valid_identifier, valid_digest,
}
use cloud_ring.Ports.Requests.{request_sha256}

-- ValidateHealthReport, whose error is ErrInvalidHealthStatus.
unfoldable pub valid_health_report : HealthReport → Bool
valid_health_report report =
    valid_identifier report.adapter_id
    && valid_service_category report.service_category
    && valid_backend_family report.backend_family
    && valid_health_status report.status
    && (report.status == "ready" || not (is_blank report.reason))

unfoldable pub requires_blocker : ResourceState → Bool
requires_blocker state =
    state == "blocked" || state == "denied" || state == "failed" || state == "retryable"

-- What ReceiptCommitmentSHA256 writes to the hash.
unfoldable pub commitment_text : String → ResourceState → String → String
commitment_text digest state handle =
    "cloudring/provider-ports/commitment/v1\0" <> (digest <> ("\0" <> (state <> ("\0" <> handle))))

-- The fields of a receipt against the request and its two digests.
unfoldable pub receipt_matches : ProvisionRequest → ProvisionReceipt → String → String → Bool
receipt_matches req receipt digest commitment =
    receipt.schema_version == "cloudring.provider-ports.provision-receipt/v1"
    && receipt.request_sha256 == digest
    && valid_digest receipt.commitment_sha256
    && receipt.commitment_sha256 == commitment
    && valid_identifier receipt.operation_id
    && receipt.adapter_id == req.adapter_id
    && receipt.service_category == req.service_category
    && receipt.tenant_id == req.tenant_id
    && receipt.project_id == req.project_id
    && receipt.resource_id == req.resource_id
    && (if requires_blocker receipt.state
        then valid_identifier receipt.blocker_code
        else receipt.blocker_code == "")

-- The receipt that NewProvisionReceipt makes, before it is validated.
unfoldable pub receipt_of :
    ProvisionRequest → String → ResourceState → String → String → String → String → ProvisionReceipt
receipt_of req operation_id state handle blocker_code digest commitment = record {
  schema_version = "cloudring.provider-ports.provision-receipt/v1";
  request_sha256 = digest;
  commitment_sha256 = commitment;
  operation_id = operation_id;
  provider_handle = handle;
  adapter_id = req.adapter_id;
  service_category = req.service_category;
  tenant_id = req.tenant_id;
  project_id = req.project_id;
  resource_id = req.resource_id;
  state = state;
  blocker_code = blocker_code;
}

module _ (sha256 : String → String) where
  unfoldable pub receipt_commitment_sha256 :
      ProvisionRequest → ResourceState → String → Result String
  receipt_commitment_sha256 req state handle = elim (request_sha256 sha256 req) [
    | err e ↦ err e
    | ok digest ↦
        if valid_resource_state state && valid_identifier handle
        then ok (sha256 (commitment_text digest state handle))
        else err invalid_receipt
  ]

  -- ValidateProvisionReceipt, whose error is ErrInvalidReceipt.
  unfoldable pub valid_provision_receipt : ProvisionRequest → ProvisionReceipt → Bool
  valid_provision_receipt req receipt = elim (request_sha256 sha256 req) [
    | err e ↦ false
    | ok digest ↦ elim (receipt_commitment_sha256 req receipt.state receipt.provider_handle) [
      | err e ↦ false
      | ok commitment ↦ receipt_matches req receipt digest commitment
    ]
  ]

  unfoldable pub new_provision_receipt :
      ProvisionRequest → String → ResourceState → String → String → Result ProvisionReceipt
  new_provision_receipt req operation_id state handle blocker_code =
      elim (request_sha256 sha256 req) [
        | err e ↦ err invalid_receipt
        | ok digest ↦ elim (receipt_commitment_sha256 req state handle) [
          | err e ↦ err invalid_receipt
          | ok commitment ↦
              let receipt =
                receipt_of req operation_id state handle blocker_code digest commitment in
              if valid_provision_receipt req receipt then ok receipt else err invalid_receipt
        ]
      ]
