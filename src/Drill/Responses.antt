-- ===== src/Drill/Responses.antt =====
-- pkg/backup/drill: the requests to the adapter (engine.go), and the validation of the approval and
-- of the adapter's responses (validate.go).
use cloud_ring.Prelude.{
  ltb, leb, eqb, String, ◌<>◌, Bool, true, false, not, ◌&&◌, ◌||◌, Option, none, some, List, [],
  ◌∷◌, ◌==◌, if◌then◌else◌,
}
use cloud_ring.Prelude.Lists.{length}
use cloud_ring.Prelude.Text.{text_take}
use cloud_ring.Drill.Steps.{
  step_eq, step_text, preflight, etcd_offcell_complete, velero_backup_complete,
  restore_watch_create_observe_complete, etcd_sandbox_restored, restore_validation_complete,
  isolated_targets_deleted, rollback_safe_stop, rollback_cleanup_requested, Step,
}
use cloud_ring.Drill.Types.{
  Plan, IsolatedNamespace, ApprovalReport, AdapterRequest, AdapterResponse, RestoreObservation,
  Mode, preflighting, applying, rolling_back, other_mode,
}
use cloud_ring.Drill.Patterns.{valid_sha, valid_evidence}
use cloud_ring.Drill.Instant.{Instant, canonical_time, unix_text}
use cloud_ring.Drill.Digest.{
  Digest, identity_of, plan_sha256, approval_scope_sha256, preflight_binding_sha256,
  approval_sha256, approval_report_sha256, adapter_request_sha256, adapter_response_sha256,
}
use cloud_ring.Drill.Plans.{Error, validate_plan}

abbrev pub mode_text : Mode → String
mode_text preflighting = "preflight"
mode_text applying = "apply"
mode_text rolling_back = "rollback"
mode_text (other_mode s) = s

abbrev pub retained_kinds : List String
retained_kinds = "Backup" ∷ "DataUpload" ∷ "ObjectStoreRecoveryPoint" ∷ "RestoreAuditCR" ∷ []

-- The window is closed at its start and open at its end.
unfoldable pub is_fresh : Option Instant → Option Instant → Instant → Bool
is_fresh (some issued) (some expires) now = leb issued now && ltb now expires
is_fresh _ _ now = false

-- The loop over the observations, beside the mappings of the plan.
unfoldable pub observations_bound : List RestoreObservation → List IsolatedNamespace → Bool
observations_bound [] [] = true
observations_bound (observation ∷ observations) (mapping ∷ mappings) =
    observation.restore_name == mapping.restore_name
    && observation.restore_scope_sha256 == mapping.restore_scope_sha256
    && observation.source_namespace == mapping.source_namespace
    && observation.destination_namespace == mapping.destination.name
    && observation.destination_scope_sha256 == mapping.destination.scope_sha256
    && valid_evidence observation.evidence_ref observation.evidence_sha256
    && observations_bound observations mappings
observations_bound _ _ = false

unfoldable pub is_mutation_step : Step → Bool
is_mutation_step step =
    step_eq step etcd_offcell_complete
    || step_eq step velero_backup_complete
    || step_eq step restore_watch_create_observe_complete
    || step_eq step etcd_sandbox_restored
    || step_eq step restore_validation_complete
    || step_eq step isolated_targets_deleted

-- The switch on the mode.
unfoldable pub response_error_of : Mode → AdapterRequest → AdapterResponse → Option Error
response_error_of preflighting request response =
    if not (step_eq request.step preflight) || not (response.status == "ready") || response.mutated
    then some "backup drill preflight attempted or reported mutation"
    else none
response_error_of applying request response =
    if not (response.status == "completed")
      || (if is_mutation_step request.step then not response.mutated else response.mutated)
    then some "backup drill apply step is not complete"
    else if step_eq request.step restore_watch_create_observe_complete
    then if not
        (eqb (length response.restore_observations) (length request.plan.isolated_namespaces))
      then some "backup drill combined restore observation evidence is incomplete"
      else if not
          (observations_bound response.restore_observations request.plan.isolated_namespaces)
      then some "backup drill combined restore observation evidence is not plan-bound"
      else none
    else if not (eqb (length response.restore_observations) 0)
    then some "backup drill restore observation evidence appeared in the wrong phase"
    else none
response_error_of rolling_back request response =
    if step_eq request.step rollback_safe_stop
    then if not (response.status == "safe-stopped") || response.mutated
      then some "backup drill rollback did not safe-stop"
      else none
    else if not (response.status == "completed") || not response.mutated
    then some "backup drill rollback cleanup failed"
    else none
response_error_of (other_mode s) request response = some "backup drill adapter mode is invalid"

module _ (digest : Digest) where
  unfoldable pub request_identity : AdapterRequest → String
  unfolding text_take
  request_identity request =
      mode_text request.mode
      <> ":"
      <> text_take 32 (
          digest (
            identity_of (record {
              operation_id = request.operation_id;
              plan_sha256 = request.plan_sha256;
              approval_sha256 = request.approval_sha256;
              step = step_text request.step;
              previous = request.previous_journal_sha256;
            })))

  -- newAdapterRequest: the zero approval, whose schema version is empty, is `none`.
  unfoldable pub new_adapter_request :
      Plan → Option ApprovalReport → Mode → Step → String → AdapterRequest
  new_adapter_request plan approval mode step previous =
      let approval_sha : String = elim approval [
        | none ↦ ""
        | some report ↦ if report.schema_version == "" then "" else approval_sha256 digest report
      ] in
      let request : AdapterRequest = record {
        schema_version = "cloudring.backup-drill.adapter-request/v1";
        protocol_version = "cloudring.backup-drill.adapter/v1";
        operation_id = plan.operation_id;
        plan_sha256 = plan_sha256 digest plan;
        approval_sha256 = approval_sha;
        approval_scope_sha256 = approval_scope_sha256 digest plan;
        adapter_executable_sha256 = plan.adapter.executable_sha256;
        mode = mode;
        step = step;
        previous_journal_sha256 = previous;
        request_id = "";
        plan = plan;
        retain_kinds = [];
        cleanup_targets = [];
        request_sha256 = "";
      } in
      let identified : AdapterRequest = record request { request_id = request_identity request } in
      record identified { request_sha256 = adapter_request_sha256 digest identified }

  unfoldable pub new_rollback_request : Plan → ApprovalReport → Step → String → AdapterRequest
  new_rollback_request plan approval step previous =
      let request = new_adapter_request plan (some approval) rolling_back step previous in
      let cleaning : AdapterRequest = record request {
        retain_kinds = retained_kinds;
        cleanup_targets = plan.cleanup_targets;
      } in
      let identified : AdapterRequest = record cleaning {
        request_id = request_identity cleaning;
      } in
      if step_eq step rollback_cleanup_requested
      then record identified { request_sha256 = adapter_request_sha256 digest identified }
      else request

  unfoldable pub approval_tuple : Plan → String → String
  approval_tuple plan binding = elim (canonical_time plan.issued_at) [
    | none ↦ ""
    | some issued ↦
        if not (valid_sha binding)
        then ""
        else "goal01-backup-restore@"
          <> unix_text issued
          <> "@"
          <> plan.accepted_downstream_sha
          <> "@"
          <> plan.run_nonce_sha256
          <> "@"
          <> approval_scope_sha256 digest plan
          <> "@"
          <> binding
  ]

  unfoldable pub validate_approval_binding : Plan → ApprovalReport → Option Error
  validate_approval_binding plan approval = elim (validate_plan plan) [
    | some e ↦ some e
    | none ↦
        let request = new_adapter_request plan none preflighting preflight "" in
        if not (approval.schema_version == "cloudring.backup-drill.approval/v1")
          || not (approval.operation_id == plan.operation_id)
          || not (approval.plan_sha256 == plan_sha256 digest plan)
          || not (approval.approval_scope_sha256 == approval_scope_sha256 digest plan)
          || not (approval.adapter_executable_sha256 == plan.adapter.executable_sha256)
          || not (approval.issued_at == plan.issued_at)
          || not (approval.expires_at == plan.expires_at)
          || not (approval.preflight_request_sha256 == request.request_sha256)
          || not (valid_sha approval.preflight_response_sha256)
          || not (valid_evidence approval.preflight_evidence_ref approval.preflight_evidence_sha256)
          || not (
              approval.preflight_binding_sha256
              == preflight_binding_sha256 digest plan approval.preflight_response_sha256
                  approval.preflight_evidence_ref approval.preflight_evidence_sha256)
          || not (approval.approval_tuple == approval_tuple plan approval.preflight_binding_sha256)
          || not (approval.report_sha256 == approval_report_sha256 digest approval)
        then some "backup drill approval binding is invalid"
        else none
  ]

  unfoldable pub validate_approval : Plan → ApprovalReport → Instant → Option Error
  validate_approval plan approval now = elim (validate_approval_binding plan approval) [
    | some e ↦ some e
    | none ↦
        if is_fresh (canonical_time approval.issued_at) (canonical_time approval.expires_at) now
        then none
        else some "backup drill approval is stale"
  ]

  unfoldable pub validate_adapter_response_binding : AdapterRequest → AdapterResponse → Option Error
  validate_adapter_response_binding request response =
      if not (request.request_sha256 == adapter_request_sha256 digest request)
        || not (response.schema_version == "cloudring.backup-drill.adapter-response/v1")
        || not (response.protocol_version == "cloudring.backup-drill.adapter/v1")
        || not (response.operation_id == request.operation_id)
        || not (step_eq response.step request.step)
        || not (response.request_sha256 == request.request_sha256)
        || not (response.adapter_executable_sha256 == request.adapter_executable_sha256)
        || not (valid_evidence response.evidence.ref response.evidence.sha256)
        || not (response.response_sha256 == adapter_response_sha256 digest response)
      then some "backup drill adapter response binding is invalid"
      else none

  unfoldable pub validate_adapter_response : AdapterRequest → AdapterResponse → Option Error
  validate_adapter_response request response =
      elim (validate_adapter_response_binding request response) [
        | some e ↦ some e
        | none ↦ response_error_of request.mode request response
      ]
