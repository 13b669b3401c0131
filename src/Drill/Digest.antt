-- ===== src/Drill/Digest.antt =====
-- pkg/backup/drill/digest.go: the texts that are hashed. The encoding and the hash are outside the
-- model: a digest is a function of the value, which says by its constructor what is hashed.
use cloud_ring.Prelude.{String}
use cloud_ring.Drill.Types.{
  Plan, ExecutableIdentity, ApprovalReport, AdapterRequest, AdapterResponse, JournalEntry,
  ExecutionReceipt,
}

-- ApprovalScopeSHA256's anonymous struct
pub record ApprovalScope : Type 0 where
  pub schema_version : String
  pub plan_sha256 : String
  pub operation_id : String
  pub proof_id : String
  pub installation_id : String
  pub accepted_public_sha : String
  pub accepted_downstream_sha : String
  pub cluster_sha256 : String
  pub adapter : ExecutableIdentity

-- PreflightBindingSHA256's anonymous struct
pub record PreflightBinding : Type 0 where
  pub schema_version : String
  pub approval_scope_sha256 : String
  pub adapter_executable_sha256 : String
  pub response_sha256 : String
  pub evidence_ref : String
  pub evidence_sha256 : String

-- requestIdentity's anonymous struct
pub record RequestIdentity : Type 0 where
  pub operation_id : String
  pub plan_sha256 : String
  pub approval_sha256 : String
  pub step : String
  pub previous : String

pub data Digested : Type 0 where
  plan_of : Plan → Digested
  scope_of : ApprovalScope → Digested
  binding_of : PreflightBinding → Digested
  approval_of : ApprovalReport → Digested
  request_of : AdapterRequest → Digested
  response_of : AdapterResponse → Digested
  entry_of : JournalEntry → Digested
  receipt_of : ExecutionReceipt → Digested
  identity_of : RequestIdentity → Digested
  operation_tuple step_previous status_scope step_proof status_response : String → String → Digested
  failure_of : String → Digested

-- digest
abbrev pub Digest : Type 0
Digest = Digested → String

module _ (digest : Digest) where
  unfoldable pub plan_sha256 : Plan → String
  plan_sha256 plan = digest (plan_of plan)

  unfoldable pub approval_scope_sha256 : Plan → String
  approval_scope_sha256 plan = digest (
      scope_of (record {
        schema_version = "cloudring.backup-drill.approval-scope/v1";
        plan_sha256 = plan_sha256 plan;
        operation_id = plan.operation_id;
        proof_id = plan.proof_id;
        installation_id = plan.installation_id;
        accepted_public_sha = plan.accepted_public_sha;
        accepted_downstream_sha = plan.accepted_downstream_sha;
        cluster_sha256 = plan.cluster_identity_sha256;
        adapter = plan.adapter;
      }))

  unfoldable pub preflight_binding_sha256 : Plan → String → String → String → String
  preflight_binding_sha256 plan response_sha256 evidence_ref evidence_sha256 = digest (
      binding_of (record {
        schema_version = "cloudring.backup-drill.preflight-binding/v1";
        approval_scope_sha256 = approval_scope_sha256 plan;
        adapter_executable_sha256 = plan.adapter.executable_sha256;
        response_sha256 = response_sha256;
        evidence_ref = evidence_ref;
        evidence_sha256 = evidence_sha256;
      }))

  unfoldable pub approval_sha256 : ApprovalReport → String
  approval_sha256 report = digest (approval_of report)

  unfoldable pub approval_report_sha256 : ApprovalReport → String
  approval_report_sha256 report = digest (approval_of (record report { report_sha256 = "" }))

  unfoldable pub adapter_request_sha256 : AdapterRequest → String
  adapter_request_sha256 request = digest (request_of (record request { request_sha256 = "" }))

  unfoldable pub adapter_response_sha256 : AdapterResponse → String
  adapter_response_sha256 response = digest (response_of (record response { response_sha256 = "" }))

  unfoldable pub journal_entry_sha256 : JournalEntry → String
  journal_entry_sha256 entry = digest (entry_of (record entry { entry_sha256 = "" }))

  unfoldable pub execution_receipt_sha256 : ExecutionReceipt → String
  execution_receipt_sha256 receipt = digest (receipt_of (record receipt { receipt_sha256 = "" }))
