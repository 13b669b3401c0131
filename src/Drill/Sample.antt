-- ===== src/Drill/Sample.antt =====
-- A drill as a test runs it: a plan, an adapter that succeeds, and a disk that works.
use cloud_ring.Prelude.{
  ℕ, ◌+◌, ◌*◌, String, Bool, true, false, none, some, [], ◌∷◌, map, if◌then◌else◌, leb, ◌&&◌,
}
use cloud_ring.Drill.Steps.{
  step_eq, proof_assembled, restore_watch_create_observe_complete, rollback_safe_stop, preflight,
}
use cloud_ring.Drill.Types.{
  ObjectIdentity, IsolatedNamespace, Baseline, CleanupTarget, Plan, Evidence, ApprovalReport,
  AdapterRequest, AdapterResponse, RestoreObservation, TargetResult, Mode, preflighting, applying,
  rolling_back, other_mode,
}
use cloud_ring.Drill.Plans.{target_kinds}
use cloud_ring.Drill.Responses.{is_mutation_step, new_adapter_request}
use cloud_ring.Drill.Store.{fine, absent, Adapter, Env, World}
use cloud_ring.Drill.Engine.{approval_report_of}

abbrev pub zeros : String
zeros = "0000000000000000000000000000000000000000000000000000000000000000"

abbrev object : String → String → String → ObjectIdentity
object kind name scope = record { kind = kind; namespace = ""; name = name; scope_sha256 = scope }

abbrev baseline : String → Baseline
baseline kind = record {
  kind = kind;
  identity_sha256 = zeros;
  state_sha256 = zeros;
  data_sha256 = zeros;
}

abbrev isolated : ℕ → String → String → String → String → IsolatedNamespace
isolated index restore source name scope = record {
  restore_index = index;
  restore_name = restore;
  restore_scope_sha256 = zeros;
  source_namespace = source;
  destination = object "Namespace" name scope;
}

abbrev target : String → String → CleanupTarget
target kind name = record {
  kind = kind;
  namespace = "";
  name = name;
  precondition_identity_sha256 = zeros;
}

abbrev pub sample_plan : Plan
sample_plan = record {
  schema_version = "cloudring.backup-drill.plan/v1";
  operation_id = "operation-1";
  proof_id = "proof-1";
  installation_id = "installation-1";
  accepted_public_sha = "aaaaaaaaaaaaaaaaaaaaaaaaaaaaaaaaaaaaaaaa";
  accepted_downstream_sha = "bbbbbbbbbbbbbbbbbbbbbbbbbbbbbbbbbbbbbbbb";
  cluster_identity_sha256 = zeros;
  backup_storage_location = record {
    name = "default";
    uid_sha256 = zeros;
    generation = 1;
    config_sha256 = zeros;
  };
  object_store = record {
    prefix = "backups/site";
    minimum_retention_days = 30;
    object_lock_mode = "compliance";
  };
  source_baselines = map baseline target_kinds;
  tool = record { name = "cloudring-backup"; executable_sha256 = zeros };
  adapter = record { name = "adapter-1"; executable_sha256 = zeros };
  backup = object "Backup" "backup" zeros;
  restores =
      object "VirtualMachineClaim" "vm" zeros
      ∷ object "Volume" "volume" zeros
      ∷ object "Namespace" "namespace" zeros
      ∷ object "KubernetesClusterClaim" "cluster" zeros
      ∷ [];
  isolated_namespaces =
      isolated 0 "vm" "tenant-a" "drill-a"
        "1111111111111111111111111111111111111111111111111111111111111111"
      ∷ isolated 1 "volume" "tenant-b" "drill-b"
          "2222222222222222222222222222222222222222222222222222222222222222"
      ∷ isolated 2 "namespace" "platform-system" "drill-c"
          "3333333333333333333333333333333333333333333333333333333333333333"
      ∷ isolated 2 "namespace" "flux-system" "drill-d"
          "4444444444444444444444444444444444444444444444444444444444444444"
      ∷ isolated 3 "cluster" "tenant-c" "drill-e"
          "5555555555555555555555555555555555555555555555555555555555555555"
      ∷ [];
  etcd_sandbox = object "EtcdSandbox" "sandbox" zeros;
  cleanup_targets =
      target "Namespace" "drill-a"
      ∷ target "Namespace" "drill-b"
      ∷ target "Namespace" "drill-c"
      ∷ target "Namespace" "drill-d"
      ∷ target "Namespace" "drill-e"
      ∷ target "EtcdSandbox" "sandbox"
      ∷ [];
  aggregate_proof_path_token = "proofs/run-1";
  issued_at = "2026-01-01T00:00:00Z";
  expires_at = "2026-01-01T00:30:00Z";
  run_nonce_sha256 = zeros;
}

abbrev pub sample_evidence : Evidence
sample_evidence = record { ref = "evidence/run-1"; sha256 = zeros }

abbrev observation : IsolatedNamespace → RestoreObservation
observation mapping = record {
  restore_name = mapping.restore_name;
  restore_scope_sha256 = mapping.restore_scope_sha256;
  source_namespace = mapping.source_namespace;
  destination_namespace = mapping.destination.name;
  destination_scope_sha256 = mapping.destination.scope_sha256;
  evidence_ref = "evidence/run-1";
  evidence_sha256 = zeros;
}

abbrev pub result : String → TargetResult
result kind = record {
  kind = kind;
  source_checksum_sha256 = zeros;
  restored_checksum_sha256 = zeros;
  evidence_ref = "evidence/run-1";
  evidence_sha256 = zeros;
}

abbrev status_of : Mode → AdapterRequest → String
status_of preflighting request = "ready"
status_of applying request = "completed"
status_of rolling_back request =
    if step_eq request.step rollback_safe_stop then "safe-stopped" else "completed"
status_of (other_mode s) request = ""

abbrev mutates : Mode → AdapterRequest → Bool
mutates applying request = is_mutation_step request.step
mutates rolling_back request = if step_eq request.step rollback_safe_stop then false else true
mutates _ request = false

-- The response of an adapter that does what it is asked for.
abbrev pub respond : AdapterRequest → AdapterResponse
respond request = record {
  schema_version = "cloudring.backup-drill.adapter-response/v1";
  protocol_version = "cloudring.backup-drill.adapter/v1";
  operation_id = request.operation_id;
  step = request.step;
  request_sha256 = request.request_sha256;
  adapter_executable_sha256 = request.adapter_executable_sha256;
  status = status_of request.mode request;
  mutated = mutates request.mode request;
  evidence = sample_evidence;
  restore_observations =
      if step_eq request.step restore_watch_create_observe_complete
      then map observation request.plan.isolated_namespaces
      else [];
  targets = if step_eq request.step proof_assembled then map result target_kinds else [];
  isolation_evidence = some sample_evidence;
  cleanup_evidence = some sample_evidence;
  object_lock_delete_denial_receipt_sha256 = zeros;
  aggregate_proof_artifact_sha256 = zeros;
  aggregate_proof_path_token = request.plan.aggregate_proof_path_token;
  response_sha256 = zeros;
}

abbrev sample_adapter : Adapter
sample_adapter = record { identity = zeros; run = λ _ request. some (respond request) }

-- The readings of the clock are a second apart, from one minute after the plan was issued.
abbrev pub sample_env : Env
sample_env = record {
  digest = λ _. zeros;
  clock = λ n. (63934444860 + n) * 1000000000;
  disk = λ _. fine;
  encoded_size = λ _. 1000;
  adapter = some sample_adapter;
}

abbrev pub new_world : World
new_world = record { file = absent; requests = []; clock_reads = 0; disk_uses = 0 }

-- The preflight's report.
abbrev pub sample_approval : ApprovalReport
unfolding approval_report_of
sample_approval =
    approval_report_of sample_env sample_plan
      (respond (new_adapter_request (λ _. zeros) sample_plan none preflighting preflight ""))

-- The adapter fails from its fourth run to its sixth.
abbrev pub stopping_env : Env
stopping_env = record sample_env {
  adapter = some (record {
    identity = zeros;
    run = λ n request. if leb 3 n && leb n 5 then none else some (respond request);
  });
}
