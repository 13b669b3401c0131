-- ===== src/Drill/Examples.antt =====
-- The theorems on the drill at concrete inputs: a drill that stops at its fourth run of the adapter,
-- and is recovered or rolled back.
use cloud_ring.Prelude.{◌++◌, ◌⊎◌, ◌≡◌, refl, true, none, List, [], map}
use cloud_ring.Drill.Steps.{step_eq, step_text, has_rollback_prefix, etcd_sandbox_restored}
use cloud_ring.Drill.Patterns.{
  valid_id, valid_name, valid_kind, valid_sha, valid_git_sha, valid_path_token, valid_evidence,
  retained_kind,
}
use cloud_ring.Drill.Instant.{canonical_time, format_time, unix_text}
use cloud_ring.Drill.Digest.{
  plan_sha256, approval_scope_sha256, preflight_binding_sha256, approval_sha256,
  approval_report_sha256, adapter_request_sha256, adapter_response_sha256, journal_entry_sha256,
  execution_receipt_sha256,
}
use cloud_ring.Drill.Plans.{
  target_kinds, valid_object, valid_window, valid_baselines, valid_restores, mappings_error,
  cleanup_error, plan_fields_error, plan_lists_error, validate_plan, Error,
}
use cloud_ring.Prelude.Text.{text_take}
use cloud_ring.Drill.Responses.{
  is_fresh, observations_bound, is_mutation_step, response_error_of, request_identity,
  new_adapter_request, new_rollback_request, approval_tuple, validate_approval_binding,
  validate_approval, validate_adapter_response_binding, validate_adapter_response,
}
use cloud_ring.Drill.Journal.{
  times_in_order, valid_transition, entry_error, link_error, validate_journal_entry, extends,
  chain_valid, validate_journal_entries, new_journal_entry, steps_of,
}
use cloud_ring.Drill.Binding.{
  is_some, step_is, rollback_started, approval_consumed_digests, mutation_started_digests,
  completed_digests, rollback_terminal_digests, adapter_failure_sha256, is_derived,
  adapter_entry_error, step_binding_error, entry_binding_error, bindings_error,
  verify_journal_binding, rollback_response_succeeded,
}
use cloud_ring.Drill.Receipts.{
  evidence_eq, target_eq, targets_eq, steps_eq, targets_valid, evidence_present,
  validate_proof_response, second_last?, proof_of, receipt_bound, receipt_error, validate_receipt,
  new_receipt,
}
use cloud_ring.Drill.Store.{
  absent, is_fine, read_clock, run_count, adapter_identity, invoke, decode_journal, load_file, load,
  write, append_loaded, append, create_journal, open_journal, append_journal, load_journal, File,
  readable, Result, ok, failed, World,
}
use cloud_ring.Drill.Loop.{
  record_entry, head_sha, record_step, run_step, run_steps, proof_entry, record_completed,
  receipt_of_journal, finish_apply, resume, run_apply, loop_steps,
}
use cloud_ring.Drill.Engine.{
  approval_report_of, adapter_bound, run_preflight, validate_execution_input, apply, bound_journal,
  recover,
}
use cloud_ring.Drill.Rollback.{
  answer, is_accepted, recorded_response, recorded_sha, append_rollback_terminal, rollback_request,
  continue_rollback_cleanup, begin_rollback, rollback_from, rollback,
}
use cloud_ring.Drill.Types.{ApprovalReport, JournalEntry, ExecutionReceipt}
use cloud_ring.Prelude.Lists.{contains, drop, length}
use cloud_ring.Drill.Sample.{
  sample_plan, sample_env, stopping_env, sample_approval, new_world, sample_evidence, zeros, result,
}
use cloud_ring.Drill.Phases.{IsPhases, validate_journal_entries-IsPhases}
use cloud_ring.Drill.Appends.{
  IsSpoiled, IsAppended, append-outcome, HoldsJournal, append-HoldsJournal,
}
use cloud_ring.Drill.Rounds.{Holds, requested_steps, adapter_steps}
use cloud_ring.Drill.Completion.{IsComplete, run_apply-IsComplete}
use cloud_ring.Drill.Undo.{recover-refuses}
use cloud_ring.Drill.Undone.{IsUndone, rollback-IsUndone}
use cloud_ring.Drill.Admitted.{IsAdmitted, apply-IsAdmitted}
use cloud_ring.Drill.Preflight.{IsReady, IsUnready, HasFlown, run_preflight-outcome}
use cloud_ring.Drill.Repeat.{run_apply-again}

-- Unfolding this runs a drill.
runs : Unit {0}
unfolding step_eq step_text has_rollback_prefix valid_id valid_name valid_kind valid_sha
    valid_git_sha valid_path_token valid_evidence retained_kind canonical_time format_time unix_text
    plan_sha256 approval_scope_sha256 preflight_binding_sha256 approval_sha256
    approval_report_sha256 adapter_request_sha256 adapter_response_sha256 journal_entry_sha256
    execution_receipt_sha256 valid_object valid_window valid_baselines valid_restores mappings_error
    cleanup_error plan_fields_error plan_lists_error validate_plan text_take is_fresh
    observations_bound is_mutation_step response_error_of request_identity new_adapter_request
    new_rollback_request approval_tuple validate_approval_binding validate_approval
    validate_adapter_response_binding validate_adapter_response times_in_order valid_transition
    entry_error link_error validate_journal_entry extends chain_valid validate_journal_entries
    new_journal_entry is_some step_is rollback_started approval_consumed_digests
    mutation_started_digests completed_digests rollback_terminal_digests adapter_failure_sha256
    is_derived adapter_entry_error step_binding_error entry_binding_error bindings_error
    verify_journal_binding rollback_response_succeeded evidence_eq target_eq targets_eq steps_eq
    targets_valid evidence_present validate_proof_response second_last? proof_of receipt_bound
    receipt_error validate_receipt new_receipt is_fine read_clock run_count adapter_identity invoke
    decode_journal load_file load write append_loaded append create_journal open_journal
    append_journal load_journal approval_report_of adapter_bound run_preflight
    validate_execution_input record_entry head_sha record_step run_step run_steps proof_entry
    record_completed receipt_of_journal finish_apply resume run_apply apply bound_journal recover
    answer is_accepted recorded_response recorded_sha append_rollback_terminal rollback_request
    continue_rollback_cleanup begin_rollback rollback_from rollback contains
runs = tt

abbrev entries_of : File → List JournalEntry
entries_of (readable entries n) = entries
entries_of _ = []

-- The world after an Apply whose adapter failed.
abbrev crashed : World
crashed =
    (apply stopping_env sample_plan sample_approval sample_approval.approval_tuple new_world).0

-- The world after the recovery.
abbrev recovered : World × Result ExecutionReceipt
recovered = run_apply sample_env sample_plan sample_approval crashed

abbrev rolled : World × Result Unit
rolled = rollback sample_env sample_plan sample_approval sample_approval.approval_tuple crashed

abbrev sample_receipt : ExecutionReceipt
sample_receipt = record {
  schema_version = "cloudring.backup-drill.execution-receipt/v1";
  operation_id = "operation-1";
  proof_id = "proof-1";
  installation_id = "installation-1";
  plan_sha256 = zeros;
  approval_sha256 = zeros;
  approval_scope_sha256 = zeros;
  adapter_executable_sha256 = zeros;
  status = "completed";
  completed_at = "2026-01-01T00:01:13Z";
  journal_head_sha256 = zeros;
  execution_evidence_response_sha256 = zeros;
  targets = map result target_kinds;
  isolation_evidence = sample_evidence;
  cleanup_evidence = sample_evidence;
  object_lock_delete_denial_receipt_sha256 = zeros;
  aggregate_proof_artifact_sha256 = zeros;
  aggregate_proof_path_token = "proofs/run-1";
  receipt_sha256 = zeros;
}

crashed-Holds : Holds crashed (entries_of crashed.file)
unfolding runs
crashed-Holds = (5000, refl)

recovered-ok : recovered.1 ≡ ok sample_receipt
unfolding runs
recovered-ok = refl

run_apply-IsComplete_example :
    IsComplete sample_env sample_plan sample_approval sample_receipt recovered.0
    × (requested_steps recovered.0
        ≡ requested_steps crashed
          ++ adapter_steps (drop (length (entries_of crashed.file)) loop_steps))
run_apply-IsComplete_example =
    run_apply-IsComplete sample_env sample_plan sample_approval (entries_of crashed.file) crashed
      sample_receipt crashed-Holds recovered-ok

recovered_valid : validate_journal_entries sample_env.digest (entries_of recovered.0.file) ≡ none
unfolding runs
recovered_valid = refl

validate_journal_entries-IsPhases_example : IsPhases (steps_of (entries_of recovered.0.file))
validate_journal_entries-IsPhases_example =
    validate_journal_entries-IsPhases sample_env.digest (entries_of recovered.0.file)
      recovered_valid

rolled-ok : rolled.1 ≡ ok tt
unfolding runs
rolled-ok = refl

rollback-IsUndone_example : IsUndone rolled.0
rollback-IsUndone_example =
    rollback-IsUndone sample_env sample_plan sample_approval sample_approval.approval_tuple crashed
      rolled-ok

rolled-Holds : Holds rolled.0 (entries_of rolled.0.file)
unfolding runs
rolled-Holds = (8000, refl)

rolled-started : rollback_started (entries_of rolled.0.file) ≡ true
unfolding runs
rolled-started = refl

recover-refuses_example :
    let refused =
      recover sample_env sample_plan sample_approval sample_approval.approval_tuple rolled.0 in
    ((e : Error) × (refused.1 ≡ failed e))
    × (refused.0.file ≡ rolled.0.file)
    × (refused.0.requests ≡ rolled.0.requests)
recover-refuses_example =
    recover-refuses sample_env sample_plan sample_approval sample_approval.approval_tuple rolled.0
      (entries_of rolled.0.file) rolled-Holds rolled-started

-- The entry that continues the journal of the crash.
abbrev next_entry : JournalEntry
next_entry =
    new_journal_entry sample_env.digest (sample_env.clock 50) 6 sample_plan sample_approval
      etcd_sandbox_restored zeros zeros zeros none

append-outcome_example :
    ((append sample_env next_entry crashed).0.requests ≡ crashed.requests)
    × (IsSpoiled crashed.file (append sample_env next_entry crashed)
        ⊎ IsAppended sample_env next_entry crashed.file (append sample_env next_entry crashed))
append-outcome_example = append-outcome sample_env next_entry crashed

crashed-HoldsJournal : HoldsJournal sample_env.digest crashed.file
unfolding runs HoldsJournal
crashed-HoldsJournal = refl

append-HoldsJournal_example :
    HoldsJournal sample_env.digest (append sample_env next_entry crashed).0.file
append-HoldsJournal_example = append-HoldsJournal sample_env next_entry crashed crashed-HoldsJournal

abbrev applied : World × Result ExecutionReceipt
applied = apply sample_env sample_plan sample_approval sample_approval.approval_tuple new_world

applied-ok : applied.1 ≡ ok sample_receipt
unfolding runs
applied-ok = refl

apply-IsAdmitted_example :
    (new_world.file ≡ absent)
    × IsAdmitted sample_env sample_plan sample_approval sample_approval.approval_tuple
        (sample_env.clock 0)
    × IsComplete sample_env sample_plan sample_approval sample_receipt applied.0
    × (requested_steps applied.0 ≡ requested_steps new_world ++ drop 2 loop_steps)
apply-IsAdmitted_example =
    apply-IsAdmitted sample_env sample_plan sample_approval sample_approval.approval_tuple new_world
      sample_receipt applied-ok

abbrev flown : World × Result ApprovalReport
flown = run_preflight sample_env sample_plan (sample_env.clock 0) new_world

flown-ok : flown.1 ≡ ok sample_approval
unfolding runs
flown-ok = refl

run_preflight-outcome_example :
    (IsUnready sample_env sample_plan (sample_env.clock 0)
      × ((e : Error) × (run_preflight sample_env sample_plan (sample_env.clock 0) new_world
            ≡ (new_world, failed e))))
    ⊎ (IsReady sample_env sample_plan (sample_env.clock 0)
        × HasFlown sample_env sample_plan
            (sample_env.clock 7)
            new_world
            (run_preflight sample_env sample_plan (sample_env.clock 0) new_world))
run_preflight-outcome_example =
    run_preflight-outcome sample_env sample_plan (sample_env.clock 0) (sample_env.clock 7) new_world

recovered_file : recovered.0.file ≡ readable (entries_of recovered.0.file) 13000
unfolding runs
recovered_file = refl

sample_receipt_valid :
    validate_receipt sample_env.digest sample_plan sample_approval sample_receipt
      (entries_of recovered.0.file)
    ≡ none
unfolding runs
sample_receipt_valid = refl

run_apply-again_example :
    let again = run_apply sample_env sample_plan sample_approval recovered.0 in
    (again.1 ≡ ok sample_receipt)
    × (again.0.requests ≡ recovered.0.requests)
    × (again.0.file ≡ recovered.0.file)
run_apply-again_example =
    run_apply-again sample_env sample_plan sample_approval sample_receipt
      (entries_of recovered.0.file) 13000 recovered.0 recovered_file refl refl refl
      sample_receipt_valid
