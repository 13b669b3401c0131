-- ===== src/Drill/Journal.antt =====
-- pkg/backup/drill/journal.go: the entries of a journal and the chain that they form.
use cloud_ring.Prelude.{
  ℕ, ◌+◌, String, Bool, true, false, not, ◌||◌, Option, none, some, List, [], ◌∷◌, ◌++◌, map, ◌==◌,
  if◌then◌else◌, ltb, leb, eqb,
}
use cloud_ring.Prelude.Lists.{length, get_elem?, last?, any}
use cloud_ring.Drill.Steps.{
  Step, step_eq, step_text, apply_steps, completed, rolled_back, rollback_failed,
  rollback_safe_stop, rollback_cleanup_requested, approval_consumed,
}
use cloud_ring.Drill.Types.{Plan, ApprovalReport, AdapterResponse, JournalEntry}
use cloud_ring.Drill.Patterns.{valid_id, valid_sha}
use cloud_ring.Drill.Instant.{Instant, canonical_time, format_time}
use cloud_ring.Drill.Digest.{
  Digest, plan_sha256, approval_scope_sha256, approval_sha256, adapter_response_sha256,
  journal_entry_sha256,
}
use cloud_ring.Drill.Plans.{Error}

-- The two times of an entry and the one before it.
unfoldable pub times_in_order : Option Instant → Option Instant → Bool
times_in_order (some previous) (some entry) = leb previous entry
times_in_order _ _ = false

-- validTransition reads the steps of the entries only.
unfoldable pub valid_transition : List Step → Step → Bool
valid_transition steps next = elim (last? steps) [
  | none ↦ step_eq next approval_consumed
  | some last ↦
      if any (λ step. step_eq step next) steps
      then false
      else if step_eq last rolled_back || step_eq last rollback_failed || step_eq last completed
      then false
      else if step_eq last rollback_safe_stop
      then step_eq next rollback_cleanup_requested || step_eq next rollback_failed
      else if step_eq last rollback_cleanup_requested
      then step_eq next rolled_back || step_eq next rollback_failed
      else if step_eq next rolled_back || step_eq next rollback_failed
      then false
      else if step_eq next rollback_safe_stop
      then true
      else elim (get_elem? apply_steps (length steps)) [
        | none ↦ false
        | some step ↦ step_eq next step
      ]
]

abbrev pub steps_of : List JournalEntry → List Step
steps_of entries = map (λ entry. entry.step) entries

module _ (digest : Digest) where
  -- The checks of an entry by itself.
  unfoldable pub entry_error : JournalEntry → Option Error
  entry_error entry =
      if not (entry.schema_version == "cloudring.backup-drill.journal-entry/v1")
        || ltb entry.sequence 1
        || not (valid_id entry.operation_id)
        || not (valid_sha entry.plan_sha256)
        || not (valid_sha entry.approval_sha256)
        || not (valid_sha entry.approval_scope_sha256)
        || not (valid_sha entry.adapter_executable_sha256)
        || not (valid_id (step_text entry.step))
        || not (valid_sha entry.request_sha256)
        || not (valid_sha entry.response_sha256)
        || not (entry.entry_sha256 == journal_entry_sha256 digest entry)
      then some "backup drill journal entry is invalid"
      else elim entry.response [
        | none ↦ none
        | some response ↦
            if not (response.response_sha256 == entry.response_sha256)
              || not (response.response_sha256 == adapter_response_sha256 digest response)
            then some "backup drill journal response is not hash-bound"
            else none
      ]

  -- The checks of an entry against the one before it.
  unfoldable pub link_error : JournalEntry → Option JournalEntry → Option Error
  link_error entry none =
      if not (eqb entry.sequence 1) || not (entry.previous_entry_sha256 == "")
      then some "backup drill journal does not start at sequence one"
      else none
  link_error entry (some previous) =
      if not
          (times_in_order (canonical_time previous.recorded_at) (canonical_time entry.recorded_at))
        || not (eqb entry.sequence (previous.sequence + 1))
        || not (entry.previous_entry_sha256 == previous.entry_sha256)
        || not (entry.operation_id == previous.operation_id)
        || not (entry.plan_sha256 == previous.plan_sha256)
        || not (entry.approval_sha256 == previous.approval_sha256)
        || not (entry.approval_scope_sha256 == previous.approval_scope_sha256)
        || not (entry.adapter_executable_sha256 == previous.adapter_executable_sha256)
      then some "backup drill journal entry changed transaction binding"
      else none

  unfoldable pub validate_journal_entry : JournalEntry → Option JournalEntry → Option Error
  validate_journal_entry entry previous = elim (entry_error entry) [
    | some e ↦ some e
    | none ↦ elim (canonical_time entry.recorded_at) [
      | none ↦ some "backup drill journal entry time is invalid"
      | some _ ↦ link_error entry previous
    ]
  ]

  -- One round of the loops of decodeJournal and validateJournalEntries.
  unfoldable pub extends : List JournalEntry → JournalEntry → Bool
  extends entries entry = elim (validate_journal_entry entry (last? entries)) [
    | some _ ↦ false
    | none ↦ valid_transition (steps_of entries) entry.step
  ]

  unfoldable pub chain_valid : List JournalEntry → List JournalEntry → Bool
  chain_valid validated [] = true
  chain_valid validated (entry ∷ entries) =
      let rest = chain_valid (validated ++ entry ∷ []) entries in
      if extends validated entry then rest else false

  unfoldable pub validate_journal_entries : List JournalEntry → Option Error
  validate_journal_entries entries =
      if eqb (length entries) 0 || ltb 32 (length entries)
      then some "backup drill journal entry count is invalid"
      else if chain_valid [] entries
      then none
      else some "backup drill journal chain is invalid"

  unfoldable pub new_journal_entry :
      Instant
      → ℕ
      → Plan
      → ApprovalReport
      → Step
      → String
      → String
      → String
      → Option AdapterResponse
      → JournalEntry
  new_journal_entry now sequence plan approval step request_sha response_sha previous response =
      let entry : JournalEntry = record {
        schema_version = "cloudring.backup-drill.journal-entry/v1";
        sequence = sequence;
        operation_id = plan.operation_id;
        plan_sha256 = plan_sha256 digest plan;
        approval_sha256 = approval_sha256 digest approval;
        approval_scope_sha256 = approval_scope_sha256 digest plan;
        adapter_executable_sha256 = plan.adapter.executable_sha256;
        step = step;
        request_sha256 = request_sha;
        response_sha256 = response_sha;
        response = response;
        previous_entry_sha256 = previous;
        recorded_at = format_time now;
        entry_sha256 = "";
      } in
      record entry { entry_sha256 = journal_entry_sha256 digest entry }
