-- ===== src/Drill/Types.antt =====
-- pkg/backup/drill/types.go: the records of a drill. A count that the source refuses below one is a
-- natural number, whose 0 stands for those.
use cloud_ring.Prelude.{ℕ, String, Bool, Option, List}
use cloud_ring.Drill.Steps.{Step}

pub record ObjectIdentity : Type 0 where
  pub kind : String
  pub namespace : String
  pub name : String
  pub scope_sha256 : String

pub record IsolatedNamespace : Type 0 where
  pub restore_index : ℕ
  pub restore_name : String
  pub restore_scope_sha256 : String
  pub source_namespace : String
  pub destination : ObjectIdentity

pub record StorageLocation : Type 0 where
  pub name : String
  pub uid_sha256 : String
  pub generation : ℕ
  pub config_sha256 : String

pub record ObjectStore : Type 0 where
  pub prefix : String
  pub minimum_retention_days : ℕ
  pub object_lock_mode : String

pub record Baseline : Type 0 where
  pub kind : String
  pub identity_sha256 : String
  pub state_sha256 : String
  pub data_sha256 : String

pub record ExecutableIdentity : Type 0 where
  pub name : String
  pub executable_sha256 : String

pub record CleanupTarget : Type 0 where
  pub kind : String
  pub namespace : String
  pub name : String
  pub precondition_identity_sha256 : String

pub record Plan : Type 0 where
  pub schema_version : String
  pub operation_id : String
  pub proof_id : String
  pub installation_id : String
  pub accepted_public_sha : String
  pub accepted_downstream_sha : String
  pub cluster_identity_sha256 : String
  pub backup_storage_location : StorageLocation
  pub object_store : ObjectStore
  pub source_baselines : List Baseline
  pub tool : ExecutableIdentity
  pub adapter : ExecutableIdentity
  pub backup : ObjectIdentity
  pub restores : List ObjectIdentity
  pub isolated_namespaces : List IsolatedNamespace
  pub etcd_sandbox : ObjectIdentity
  pub cleanup_targets : List CleanupTarget
  pub aggregate_proof_path_token : String
  pub issued_at : String
  pub expires_at : String
  pub run_nonce_sha256 : String

pub record ApprovalReport : Type 0 where
  pub schema_version : String
  pub operation_id : String
  pub plan_sha256 : String
  pub approval_scope_sha256 : String
  pub adapter_executable_sha256 : String
  pub issued_at : String
  pub expires_at : String
  pub approval_tuple : String
  pub preflight_request_sha256 : String
  pub preflight_response_sha256 : String
  pub preflight_evidence_ref : String
  pub preflight_evidence_sha256 : String
  pub preflight_binding_sha256 : String
  pub report_sha256 : String

pub data Mode : Type 0 where
  preflighting applying rolling_back : Mode
  other_mode : String → Mode

pub record AdapterRequest : Type 0 where
  pub schema_version : String
  pub protocol_version : String
  pub operation_id : String
  pub plan_sha256 : String
  pub approval_sha256 : String
  pub approval_scope_sha256 : String
  pub adapter_executable_sha256 : String
  pub mode : Mode
  pub step : Step
  pub previous_journal_sha256 : String
  pub request_id : String
  pub plan : Plan
  pub retain_kinds : List String
  pub cleanup_targets : List CleanupTarget
  pub request_sha256 : String

pub record TargetResult : Type 0 where
  pub kind : String
  pub source_checksum_sha256 : String
  pub restored_checksum_sha256 : String
  pub evidence_ref : String
  pub evidence_sha256 : String

pub record Evidence : Type 0 where
  pub ref : String
  pub sha256 : String

pub record RestoreObservation : Type 0 where
  pub restore_name : String
  pub restore_scope_sha256 : String
  pub source_namespace : String
  pub destination_namespace : String
  pub destination_scope_sha256 : String
  pub evidence_ref : String
  pub evidence_sha256 : String

pub record AdapterResponse : Type 0 where
  pub schema_version : String
  pub protocol_version : String
  pub operation_id : String
  pub step : Step
  pub request_sha256 : String
  pub adapter_executable_sha256 : String
  pub status : String
  pub mutated : Bool
  pub evidence : Evidence
  pub restore_observations : List RestoreObservation
  pub targets : List TargetResult
  pub isolation_evidence : Option Evidence
  pub cleanup_evidence : Option Evidence
  pub object_lock_delete_denial_receipt_sha256 : String
  pub aggregate_proof_artifact_sha256 : String
  pub aggregate_proof_path_token : String
  pub response_sha256 : String

pub record JournalEntry : Type 0 where
  pub schema_version : String
  pub sequence : ℕ
  pub operation_id : String
  pub plan_sha256 : String
  pub approval_sha256 : String
  pub approval_scope_sha256 : String
  pub adapter_executable_sha256 : String
  pub step : Step
  pub request_sha256 : String
  pub response_sha256 : String
  pub response : Option AdapterResponse
  pub previous_entry_sha256 : String
  pub recorded_at : String
  pub entry_sha256 : String

pub record ExecutionReceipt : Type 0 where
  pub schema_version : String
  pub operation_id : String
  pub proof_id : String
  pub installation_id : String
  pub plan_sha256 : String
  pub approval_sha256 : String
  pub approval_scope_sha256 : String
  pub adapter_executable_sha256 : String
  pub status : String
  pub completed_at : String
  pub journal_head_sha256 : String
  pub execution_evidence_response_sha256 : String
  pub targets : List TargetResult
  pub isolation_evidence : Evidence
  pub cleanup_evidence : Evidence
  pub object_lock_delete_denial_receipt_sha256 : String
  pub aggregate_proof_artifact_sha256 : String
  pub aggregate_proof_path_token : String
  pub receipt_sha256 : String
