-- ===== src/Drill/Receipts.antt =====
-- pkg/backup/drill: the proof that the adapter assembled, and the receipt of a completed drill
-- (validateProofResponse, ValidateReceipt, and the end of runApply).
use cloud_ring.Prelude.{
  String, Bool, true, false, not, ◌&&◌, ◌||◌, Option, none, some, List, [], ◌∷◌, ◌==◌,
  if◌then◌else◌, eqb,
}
use cloud_ring.Prelude.Lists.{length, last?}
use cloud_ring.Drill.Steps.{Step, step_eq, apply_steps, completed, proof_assembled}
use cloud_ring.Drill.Types.{
  Plan, Baseline, ApprovalReport, AdapterResponse, TargetResult, Evidence, JournalEntry,
  ExecutionReceipt,
}
use cloud_ring.Drill.Patterns.{valid_sha, valid_evidence}
use cloud_ring.Drill.Instant.{canonical_time}
use cloud_ring.Drill.Digest.{
  Digest, plan_sha256, approval_scope_sha256, approval_sha256, execution_receipt_sha256,
}
use cloud_ring.Drill.Plans.{Error, target_kinds, validate_plan}
use cloud_ring.Drill.Responses.{validate_approval_binding}
use cloud_ring.Drill.Journal.{validate_journal_entries, steps_of}
use cloud_ring.Drill.Binding.{is_some, verify_journal_binding}

unfoldable pub evidence_eq : Evidence → Evidence → Bool
evidence_eq a b = a.ref == b.ref && a.sha256 == b.sha256

unfoldable pub target_eq : TargetResult → TargetResult → Bool
target_eq a b =
    a.kind == b.kind
    && a.source_checksum_sha256 == b.source_checksum_sha256
    && a.restored_checksum_sha256 == b.restored_checksum_sha256
    && a.evidence_ref == b.evidence_ref
    && a.evidence_sha256 == b.evidence_sha256

-- slices.Equal
unfoldable pub targets_eq : List TargetResult → List TargetResult → Bool
targets_eq [] [] = true
targets_eq (a ∷ xs) (b ∷ ys) = target_eq a b && targets_eq xs ys
targets_eq _ _ = false

unfoldable pub steps_eq : List Step → List Step → Bool
steps_eq [] [] = true
steps_eq (a ∷ xs) (b ∷ ys) = step_eq a b && steps_eq xs ys
steps_eq _ _ = false

-- The loop over the targets: each has the kind of its index, and its data came back as they were.
unfoldable pub targets_valid : List String → List Baseline → List TargetResult → Bool
targets_valid kinds baselines [] = true
targets_valid (kind ∷ kinds) (baseline ∷ baselines) (target ∷ targets) =
    target.kind == kind
    && target.source_checksum_sha256 == baseline.data_sha256
    && target.source_checksum_sha256 == target.restored_checksum_sha256
    && valid_evidence target.evidence_ref target.evidence_sha256
    && targets_valid kinds baselines targets
targets_valid _ _ _ = false

unfoldable pub evidence_present : Option Evidence → Bool
evidence_present none = false
evidence_present (some e) = valid_evidence e.ref e.sha256

unfoldable pub validate_proof_response : Plan → AdapterResponse → Option Error
validate_proof_response plan response =
    if not (step_eq response.step proof_assembled)
      || not (eqb (length response.targets) (length target_kinds))
      || not (evidence_present response.isolation_evidence)
      || not (evidence_present response.cleanup_evidence)
      || not (valid_sha response.object_lock_delete_denial_receipt_sha256)
      || not (valid_sha response.aggregate_proof_artifact_sha256)
      || not (response.aggregate_proof_path_token == plan.aggregate_proof_path_token)
    then some "backup drill proof response is incomplete"
    else if not (targets_valid target_kinds plan.source_baselines response.targets)
    then some "backup drill proof response target is invalid"
    else none

-- entries[len(entries)-2]
unfoldable pub second_last? : List JournalEntry → Option JournalEntry
second_last? [] = none
second_last? (a ∷ []) = none
second_last? (a ∷ b ∷ []) = some a
second_last? (a ∷ b ∷ c ∷ entries) = second_last? (b ∷ c ∷ entries)

-- The proof of an entry: its response, where that is valid.
unfoldable pub proof_of : Plan → Option JournalEntry → Option AdapterResponse
proof_of plan none = none
proof_of plan (some entry) = elim entry.response [
  | none ↦ none
  | some proof ↦ if is_some (validate_proof_response plan proof) then none else some proof
]

module _ (digest : Digest) where
  -- The fields of the receipt against the plan, the completed entry and the proof.
  unfoldable pub receipt_bound :
      Plan → ApprovalReport → ExecutionReceipt → JournalEntry → AdapterResponse → Bool
  receipt_bound plan approval receipt done proof =
      receipt.schema_version == "cloudring.backup-drill.execution-receipt/v1"
      && receipt.operation_id == plan.operation_id
      && receipt.proof_id == plan.proof_id
      && receipt.installation_id == plan.installation_id
      && receipt.plan_sha256 == plan_sha256 digest plan
      && receipt.approval_sha256 == approval_sha256 digest approval
      && receipt.approval_scope_sha256 == approval_scope_sha256 digest plan
      && receipt.adapter_executable_sha256 == plan.adapter.executable_sha256
      && receipt.status == "completed"
      && receipt.completed_at == done.recorded_at
      && receipt.journal_head_sha256 == done.entry_sha256
      && receipt.execution_evidence_response_sha256 == proof.response_sha256
      && targets_eq receipt.targets proof.targets
      && elim proof.isolation_evidence [
        | none ↦ false
        | some e ↦ evidence_eq receipt.isolation_evidence e
      ]
      && elim proof.cleanup_evidence [
        | none ↦ false
        | some e ↦ evidence_eq receipt.cleanup_evidence e
      ]
      && receipt.object_lock_delete_denial_receipt_sha256
        == proof.object_lock_delete_denial_receipt_sha256
      && receipt.aggregate_proof_artifact_sha256 == proof.aggregate_proof_artifact_sha256
      && receipt.aggregate_proof_path_token == proof.aggregate_proof_path_token
      && receipt.receipt_sha256 == execution_receipt_sha256 digest receipt

  -- The checks that follow those of the plan, the approval and the journal.
  unfoldable pub receipt_error :
      Plan
      → ApprovalReport
      → ExecutionReceipt
      → List JournalEntry
      → Option JournalEntry
      → Option Error
  receipt_error plan approval receipt entries none =
      some "backup drill receipt proof journal entries are invalid"
  receipt_error plan approval receipt entries (some done) =
      elim (proof_of plan (second_last? entries)) [
        | none ↦ some "backup drill receipt proof journal entries are invalid"
        | some proof ↦
            if not (step_eq done.step completed)
            then some "backup drill receipt proof journal entries are invalid"
            else if not (receipt_bound plan approval receipt done proof)
            then some "backup drill execution receipt binding is invalid"
            else if not (is_some (canonical_time receipt.completed_at))
                || not (eqb (length receipt.targets) (length target_kinds))
            then some "backup drill execution receipt time or targets are invalid"
            else if not (targets_valid target_kinds plan.source_baselines receipt.targets)
            then some "backup drill target proof is invalid or not canonical"
            else if not (steps_eq (steps_of entries) apply_steps)
            then some "backup drill receipt journal phases are incomplete"
            else none
      ]

  unfoldable pub validate_receipt :
      Plan → ApprovalReport → ExecutionReceipt → List JournalEntry → Option Error
  validate_receipt plan approval receipt entries = elim (validate_plan plan) [
    | some e ↦ some e
    | none ↦ elim (validate_approval_binding digest plan approval) [
      | some e ↦ some e
      | none ↦
          if not (eqb (length entries) (length apply_steps))
            || is_some (validate_journal_entries digest entries)
            || is_some (verify_journal_binding digest plan approval entries)
          then some "backup drill receipt journal binding is invalid"
          else receipt_error plan approval receipt entries (last? entries)
    ]
  ]

  -- The receipt that runApply makes: the evidence is there, for the proof is valid.
  unfoldable pub new_receipt :
      Plan
      → ApprovalReport
      → JournalEntry
      → AdapterResponse
      → Evidence
      → Evidence
      → ExecutionReceipt
  new_receipt plan approval done proof isolation cleanup =
      let receipt : ExecutionReceipt = record {
        schema_version = "cloudring.backup-drill.execution-receipt/v1";
        operation_id = plan.operation_id;
        proof_id = plan.proof_id;
        installation_id = plan.installation_id;
        plan_sha256 = plan_sha256 digest plan;
        approval_sha256 = approval_sha256 digest approval;
        approval_scope_sha256 = approval_scope_sha256 digest plan;
        adapter_executable_sha256 = plan.adapter.executable_sha256;
        status = "completed";
        completed_at = done.recorded_at;
        journal_head_sha256 = done.entry_sha256;
        execution_evidence_response_sha256 = proof.response_sha256;
        targets = proof.targets;
        isolation_evidence = isolation;
        cleanup_evidence = cleanup;
        object_lock_delete_denial_receipt_sha256 = proof.object_lock_delete_denial_receipt_sha256;
        aggregate_proof_artifact_sha256 = proof.aggregate_proof_artifact_sha256;
        aggregate_proof_path_token = proof.aggregate_proof_path_token;
        receipt_sha256 = "";
      } in
      record receipt { receipt_sha256 = execution_receipt_sha256 digest receipt }
