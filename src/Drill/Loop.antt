-- ===== src/Drill/Loop.antt =====
-- pkg/backup/drill/engine.go: runApply. A result comes back beside the world, so that what was done
-- before an error stays done.
use cloud_ring.Prelude.{
  suc, String, not, ◌||◌, Option, none, some, List, [], ◌∷◌, ◌++◌, if◌then◌else◌, eqb,
}
use cloud_ring.Prelude.Lists.{length, last?, drop}
use cloud_ring.Drill.Steps.{
  Step, step_eq, apply_steps, approval_consumed, mutation_started, etcd_offcell_complete,
  velero_backup_complete, restore_watch_create_observe_complete, etcd_sandbox_restored,
  restore_validation_complete, cleanup_ready, isolated_targets_deleted, residual_sweep_1,
  residual_sweep_2, completed, proof_assembled,
}
use cloud_ring.Drill.Types.{
  Plan, ApprovalReport, AdapterResponse, JournalEntry, ExecutionReceipt, applying,
}
use cloud_ring.Drill.Plans.{Error}
use cloud_ring.Drill.Responses.{new_adapter_request}
use cloud_ring.Drill.Journal.{new_journal_entry}
use cloud_ring.Drill.Binding.{
  is_some, rollback_started, mutation_started_digests, completed_digests, verify_journal_binding,
}
use cloud_ring.Drill.Receipts.{
  validate_proof_response, second_last?, proof_of, new_receipt, validate_receipt,
}
use cloud_ring.Drill.Store.{
  Result, ok, failed, Env, World, unanswered, rejected, accepted, read_clock, invoke, load, append,
}

-- The append of an entry, to the file and to the list that the code keeps of it.
unfoldable pub record_entry :
    Env → List JournalEntry → JournalEntry → Error → World → World × Result (List JournalEntry)
record_entry env entries entry message w =
    let (w', appended) = append env entry w in
    elim appended [ failed e ↦ (w', failed message) | ok _ ↦ (w', ok (entries ++ entry ∷ [])) ]

-- The hash of the last entry.
unfoldable pub head_sha : List JournalEntry → String
head_sha entries = elim (last? entries) [ none ↦ "" | some p ↦ p.entry_sha256 ]

-- The entry for a step that is the next one of `entries`, and its append.
unfoldable pub record_step :
    Env
    → Plan
    → ApprovalReport
    → List JournalEntry
    → Step
    → String
    → String
    → Option AdapterResponse
    → Error
    → World
    → World × Result (List JournalEntry)
record_step env plan approval entries step request_sha response_sha response message w =
    let (w', now) = read_clock env w in
    record_entry env entries
      (new_journal_entry env.digest now (suc (length entries)) plan approval step request_sha
        response_sha (head_sha entries) response)
      message w'

-- One round of runApply's loop, for the step ApplySteps[len(entries)].
unfoldable pub run_step :
    Env
    → Plan
    → ApprovalReport
    → Step
    → List JournalEntry
    → World
    → World × Result (List JournalEntry)
run_step env plan approval step entries w =
    let previous = head_sha entries in
    let (request_sha, response_sha) = mutation_started_digests env.digest plan previous in
    let request = new_adapter_request env.digest plan (some approval) applying step previous in
    let (w', invocation) = invoke env request w in
    if step_eq step mutation_started
    then record_step env plan approval entries step request_sha response_sha none
        "record backup drill mutation start" w
    else elim invocation [
      | unanswered e ↦ (w', failed e)
      | rejected response e ↦ (w', failed e)
      | accepted response ↦
          elim (if step_eq step proof_assembled
            then validate_proof_response plan response
            else none) [
              | some e ↦ (w', failed e)
              | none ↦
                  record_step env plan approval entries step request.request_sha256
                    response.response_sha256 (some response) "append backup drill execution journal"
                    w'
            ]
    ]

-- The loop of runApply: `steps` are those from ApplySteps[len(entries)] up to proof-assembled, and
-- each round appends one entry.
unfoldable pub run_steps :
    Env
    → Plan
    → ApprovalReport
    → List Step
    → List JournalEntry
    → World
    → World × Result (List JournalEntry)
run_steps env plan approval [] entries w = (w, ok entries)
run_steps env plan approval (step ∷ steps) entries w =
    let (w', ran) = run_step env plan approval step entries w in
    elim ran [
      | failed e ↦ (w', failed e)
      | ok entries' ↦ run_steps env plan approval steps entries' w'
    ]

-- The steps of the loop: ApplySteps without the last one.
abbrev pub loop_steps : List Step
loop_steps =
    approval_consumed ∷ mutation_started ∷ etcd_offcell_complete ∷ velero_backup_complete
    ∷ restore_watch_create_observe_complete ∷ etcd_sandbox_restored ∷ restore_validation_complete
    ∷ cleanup_ready ∷ isolated_targets_deleted ∷ residual_sweep_1 ∷ residual_sweep_2
    ∷ proof_assembled ∷ []

-- The entry whose response is the proof: the last one, or the one before a completed one.
unfoldable pub proof_entry : List JournalEntry → Option JournalEntry
proof_entry entries = elim (last? entries) [
  | none ↦ none
  | some last ↦ if step_eq last.step completed then second_last? entries else some last
]

-- The completed entry, where the journal stops before it.
unfoldable pub record_completed :
    Env
    → Plan
    → ApprovalReport
    → List JournalEntry
    → AdapterResponse
    → World
    → World × Result (List JournalEntry)
record_completed env plan approval entries proof w =
    let (request_sha, response_sha) = completed_digests env.digest proof.response_sha256 in
    if eqb (length entries) (length loop_steps)
    then record_step env plan approval entries completed request_sha response_sha none
        "record backup drill completion" w
    else (w, ok entries)

-- The receipt of the journal as it was read again.
unfoldable pub receipt_of_journal :
    Env → Plan → ApprovalReport → List JournalEntry → Result ExecutionReceipt
receipt_of_journal env plan approval entries =
    if is_some (verify_journal_binding env.digest plan approval entries)
      || not (eqb (length entries) (length apply_steps))
    then failed "reload completed backup drill journal"
    else elim (proof_of plan (second_last? entries)) [
      | none ↦ failed "reloaded backup drill proof response is invalid"
      | some proof ↦ elim (last? entries) [
        | none ↦ failed "index out of range"
        | some done ↦ elim proof.isolation_evidence [
          | none ↦ failed "nil pointer"
          | some isolation ↦ elim proof.cleanup_evidence [
            | none ↦ failed "nil pointer"
            | some cleanup ↦
                let receipt = new_receipt env.digest plan approval done proof isolation cleanup in
                elim (validate_receipt env.digest plan approval receipt entries) [
                  | some e ↦ failed e
                  | none ↦ ok receipt
                ]
          ]
        ]
      ]
    ]

-- The end of runApply, after its loop.
unfoldable pub finish_apply :
    Env → Plan → ApprovalReport → List JournalEntry → World → World × Result ExecutionReceipt
finish_apply env plan approval entries w = elim (proof_of plan (proof_entry entries)) [
  | none ↦ (w, failed "backup drill proof response is absent from journal")
  | some proof ↦
      let (w1, recorded) = record_completed env plan approval entries proof w in
      let (w2, loaded) = load env w1 in
      elim recorded [
        | failed e ↦ (w1, failed e)
        | ok _ ↦ elim loaded [
          | failed e ↦ (w2, failed "reload completed backup drill journal")
          | ok read ↦ (w2, receipt_of_journal env plan approval read.0)
        ]
      ]
]

-- runApply, after its load.
unfoldable pub resume :
    Env → Plan → ApprovalReport → List JournalEntry → World → World × Result ExecutionReceipt
resume env plan approval entries w =
    let (w', ran) = run_steps env plan approval (drop (length entries) loop_steps) entries w in
    if is_some (verify_journal_binding env.digest plan approval entries)
    then (w, failed "backup drill journal is not recoverable")
    else if rollback_started entries
    then (w, failed "backup drill apply cannot resume after rollback begins")
    else elim ran [ failed e ↦ (w', failed e) | ok done ↦ finish_apply env plan approval done w' ]

unfoldable pub run_apply : Env → Plan → ApprovalReport → World → World × Result ExecutionReceipt
run_apply env plan approval w =
    let (w', loaded) = load env w in
    elim loaded [
      | failed e ↦ (w', failed "backup drill journal is not recoverable")
      | ok read ↦ resume env plan approval read.0 w'
    ]
