-- ===== src/Drill/Engine.antt =====
-- pkg/backup/drill/engine.go: Preflight, Apply and Recover. A result comes back beside the world, so
-- that what was done before an error stays done.
use cloud_ring.Prelude.{
  String, Bool, true, false, not, ◌&&◌, ◌||◌, Option, none, some, List, ◌==◌, if◌then◌else◌,
}
use cloud_ring.Drill.Steps.{preflight, approval_consumed}
use cloud_ring.Drill.Types.{
  Plan, ApprovalReport, AdapterResponse, JournalEntry, ExecutionReceipt, preflighting,
}
use cloud_ring.Drill.Instant.{Instant, canonical_time}
use cloud_ring.Drill.Digest.{
  plan_sha256, approval_scope_sha256, preflight_binding_sha256, approval_report_sha256,
}
use cloud_ring.Drill.Plans.{Error, validate_plan}
use cloud_ring.Drill.Responses.{
  is_fresh, new_adapter_request, approval_tuple, validate_approval, validate_approval_binding,
}
use cloud_ring.Drill.Journal.{new_journal_entry}
use cloud_ring.Drill.Binding.{
  is_some, rollback_started, approval_consumed_digests, verify_journal_binding,
}
use cloud_ring.Drill.Store.{
  Result, ok, failed, Env, World, absent, unanswered, rejected, accepted, read_clock,
  adapter_identity, invoke, load, create_journal, open_journal,
}
use cloud_ring.Drill.Loop.{run_apply}

unfoldable pub approval_report_of : Env → Plan → AdapterResponse → ApprovalReport
approval_report_of env plan response =
    let binding =
      preflight_binding_sha256 env.digest plan response.response_sha256 response.evidence.ref
        response.evidence.sha256 in
    let request = new_adapter_request env.digest plan none preflighting preflight "" in
    let report : ApprovalReport = record {
      schema_version = "cloudring.backup-drill.approval/v1";
      operation_id = plan.operation_id;
      plan_sha256 = plan_sha256 env.digest plan;
      approval_scope_sha256 = approval_scope_sha256 env.digest plan;
      adapter_executable_sha256 = adapter_identity env.adapter;
      issued_at = plan.issued_at;
      expires_at = plan.expires_at;
      approval_tuple = approval_tuple env.digest plan binding;
      preflight_request_sha256 = request.request_sha256;
      preflight_response_sha256 = response.response_sha256;
      preflight_evidence_ref = response.evidence.ref;
      preflight_evidence_sha256 = response.evidence.sha256;
      preflight_binding_sha256 = binding;
      report_sha256 = "";
    } in
    record report { report_sha256 = approval_report_sha256 env.digest report }

-- A nil adapter is `none`.
unfoldable pub adapter_bound : Env → Plan → Bool
adapter_bound env plan =
    is_some env.adapter && adapter_identity env.adapter == plan.adapter.executable_sha256

unfoldable pub run_preflight : Env → Plan → Instant → World → World × Result ApprovalReport
run_preflight env plan now w =
    if not (adapter_bound env plan)
    then (w, failed "backup drill preflight input binding is invalid")
    else elim (validate_plan plan) [
      | some e ↦ (w, failed e)
      | none ↦
          let request = new_adapter_request env.digest plan none preflighting preflight "" in
          let (w', invocation) = invoke env request w in
          if not (is_fresh (canonical_time plan.issued_at) (canonical_time plan.expires_at) now)
          then (w, failed "backup drill preflight plan is not fresh")
          else elim invocation [
            | unanswered e ↦ (w', failed e)
            | rejected response e ↦ (w', failed e)
            | accepted response ↦
                elim (validate_approval env.digest plan (approval_report_of env plan response)
                  now) [
                    | some e ↦ (w', failed e)
                    | none ↦ (w', ok (approval_report_of env plan response))
                  ]
          ]
    ]

unfoldable pub validate_execution_input :
    Env → Plan → ApprovalReport → String → Instant → Bool → Option Error
validate_execution_input env plan approval confirmation now require_fresh =
    if not (adapter_bound env plan)
    then some "backup drill execution adapter binding is invalid"
    else if is_some (
          if require_fresh
          then validate_approval env.digest plan approval now
          else validate_approval_binding env.digest plan approval)
        || not (confirmation == approval.approval_tuple)
    then some "backup drill execution approval, confirmation, or adapter binding is invalid"
    else none

-- Apply: the journal must not exist, and its first entry consumes the approval.
unfoldable pub apply :
    Env → Plan → ApprovalReport → String → World → World × Result ExecutionReceipt
apply env plan approval confirmation w =
    let (w1, now) = read_clock env w in
    let (w2, then') = read_clock env w1 in
    let (request_sha, response_sha) = approval_consumed_digests env.digest plan approval in
    let entry =
      new_journal_entry env.digest then' 1 plan approval approval_consumed request_sha response_sha
        "" none in
    let (w3, created) = create_journal env entry w2 in
    let (w4, opened) = open_journal env w3 in
    elim (validate_execution_input env plan approval confirmation now true) [
      | some e ↦ (w1, failed e)
      | none ↦ elim w.file [
        | absent ↦ elim created [
          | failed e ↦ (w3, failed "create backup drill journal before mutation")
          | ok _ ↦ elim opened [ failed e ↦ (w4, failed e) | ok _ ↦ run_apply env plan approval w4 ]
        ]
        | _ ↦ (w1, failed "backup drill journal destination is unavailable")
      ]
    ]

-- A journal that was read for a recovery or a rollback.
unfoldable pub bound_journal :
    Env → Plan → ApprovalReport → String → Error → World → World × Result (List JournalEntry)
bound_journal env plan approval confirmation message w =
    let (w1, now) = read_clock env w in
    let (w2, opened) = open_journal env w1 in
    let (w3, loaded) = load env w2 in
    elim (validate_execution_input env plan approval confirmation now false) [
      | some e ↦ (w1, failed e)
      | none ↦ elim opened [
        | failed e ↦ (w2, failed e)
        | ok _ ↦ elim loaded [
          | failed e ↦ (w3, failed message)
          | ok read ↦ elim (verify_journal_binding env.digest plan approval read.0) [
            | some e ↦ (w3, failed e)
            | none ↦ (w3, ok read.0)
          ]
        ]
      ]
    ]

unfoldable pub recover :
    Env → Plan → ApprovalReport → String → World → World × Result ExecutionReceipt
recover env plan approval confirmation w =
    let (w', bound) =
      bound_journal env plan approval confirmation "backup drill recovery journal is unavailable"
        w in
    elim bound [
      | failed e ↦ (w', failed e)
      | ok entries ↦
          if rollback_started entries
          then (w', failed "backup drill recovery rejects a rollback-started run")
          else run_apply env plan approval w'
    ]
