-- ===== src/Drill/Rollback.antt =====
-- pkg/backup/drill/engine.go: Rollback, its cleanup and its last entry.
use cloud_ring.Prelude.{
  String, Bool, true, false, not, ◌&&◌, Option, none, some, List, if◌then◌else◌,
}
use cloud_ring.Prelude.Lists.{last?}
use cloud_ring.Drill.Steps.{
  Step, step_eq, completed, rolled_back, rollback_failed, rollback_safe_stop,
  rollback_cleanup_requested,
}
use cloud_ring.Drill.Types.{Plan, ApprovalReport, AdapterRequest, AdapterResponse, JournalEntry}
use cloud_ring.Drill.Patterns.{valid_sha}
use cloud_ring.Drill.Plans.{Error}
use cloud_ring.Drill.Responses.{new_rollback_request, validate_adapter_response_binding}
use cloud_ring.Drill.Binding.{
  is_some, adapter_failure_sha256, rollback_terminal_digests, rollback_response_succeeded,
}
use cloud_ring.Drill.Receipts.{second_last?}
use cloud_ring.Drill.Store.{
  Result, ok, failed, Env, World, Invocation, unanswered, rejected, accepted, invoke,
}
use cloud_ring.Drill.Loop.{record_step, head_sha}
use cloud_ring.Drill.Engine.{bound_journal}

-- The response beside the error of an invocation.
unfoldable pub answer : Invocation → Option AdapterResponse
answer (unanswered e) = none
answer (rejected response e) = some response
answer (accepted response) = some response

unfoldable pub is_accepted : Invocation → Bool
is_accepted (accepted response) = true
is_accepted _ = false

-- The response that is recorded: one that is bound to the request.
unfoldable pub recorded_response : Env → AdapterRequest → Invocation → Option AdapterResponse
recorded_response env request invocation = elim (answer invocation) [
  | none ↦ none
  | some response ↦
      if valid_sha response.response_sha256
        && not (is_some (validate_adapter_response_binding env.digest request response))
      then some response
      else none
]

unfoldable pub recorded_sha : Env → String → Option AdapterResponse → String
recorded_sha env reason none = adapter_failure_sha256 env.digest reason
recorded_sha env reason (some response) = response.response_sha256

unfoldable pub append_rollback_terminal :
    Env → Plan → ApprovalReport → List JournalEntry → Step → World → World × Result Unit
append_rollback_terminal env plan approval entries step w =
    let previous = head_sha entries in
    let response : String = elim (last? entries) [ none ↦ "" | some p ↦ p.response_sha256 ] in
    let (request_sha, response_sha) = rollback_terminal_digests env.digest step previous response in
    let (w', recorded) =
      record_step env plan approval entries step request_sha response_sha none
        "record backup drill rollback outcome" w in
    elim recorded [
      | failed e ↦ (w', failed e)
      | ok _ ↦
          if step_eq step rollback_failed
          then (w', failed "backup drill rollback cleanup failed")
          else (w', ok tt)
    ]

-- One request of a rollback, recorded whatever comes of it; the Boolean is that it was accepted.
unfoldable pub rollback_request :
    Env
    → Plan
    → ApprovalReport
    → List JournalEntry
    → Step
    → String
    → Error
    → World
    → World × (Bool × Result (List JournalEntry))
rollback_request env plan approval entries step reason message w =
    let previous = head_sha entries in
    let request = new_rollback_request env.digest plan approval step previous in
    let (w1, invocation) = invoke env request w in
    let response = recorded_response env request invocation in
    let (w2, recorded) =
      record_step env plan approval entries step request.request_sha256
        (recorded_sha env reason response) response message w1 in
    (w2, (is_accepted invocation, recorded))

unfoldable pub continue_rollback_cleanup :
    Env → Plan → ApprovalReport → List JournalEntry → World → World × Result Unit
continue_rollback_cleanup env plan approval entries w =
    let (w', (succeeded, recorded)) =
      rollback_request env plan approval entries rollback_cleanup_requested
        "adapter-execution-failed" "record backup drill rollback cleanup request" w in
    elim recorded [
      | failed e ↦ (w', failed e)
      | ok entries' ↦
          append_rollback_terminal env plan approval entries'
            (if succeeded then rolled_back else rollback_failed) w'
    ]

-- The safe stop, with which a rollback begins.
unfoldable pub begin_rollback :
    Env → Plan → ApprovalReport → List JournalEntry → World → World × Result Unit
begin_rollback env plan approval entries w =
    let (w', (succeeded, recorded)) =
      rollback_request env plan approval entries rollback_safe_stop "safe-stop-failed"
        "record backup drill rollback safe-stop" w in
    elim recorded [
      | failed e ↦ (w', failed e)
      | ok entries' ↦
          if succeeded
          then continue_rollback_cleanup env plan approval entries' w'
          else append_rollback_terminal env plan approval entries' rollback_failed w'
    ]

-- The switch on the last step of the journal.
unfoldable pub rollback_from :
    Env → Plan → ApprovalReport → List JournalEntry → JournalEntry → World → World × Result Unit
rollback_from env plan approval entries last w =
    let succeeded =
      rollback_response_succeeded env.digest plan approval (second_last? entries) last in
    if step_eq last.step completed
    then (w, failed "backup drill rollback journal is already complete")
    else if step_eq last.step rolled_back
    then (w, ok tt)
    else if step_eq last.step rollback_failed
    then (w, failed "backup drill rollback previously failed")
    else if step_eq last.step rollback_safe_stop
    then if succeeded
      then continue_rollback_cleanup env plan approval entries w
      else append_rollback_terminal env plan approval entries rollback_failed w
    else if step_eq last.step rollback_cleanup_requested
    then append_rollback_terminal env plan approval entries
        (if succeeded then rolled_back else rollback_failed) w
    else begin_rollback env plan approval entries w

unfoldable pub rollback : Env → Plan → ApprovalReport → String → World → World × Result Unit
rollback env plan approval confirmation w =
    let (w', bound) =
      bound_journal env plan approval confirmation "backup drill rollback journal is unavailable"
        w in
    elim bound [
      | failed e ↦ (w', failed e)
      | ok entries ↦ elim (last? entries) [
        | none ↦ (w', failed "backup drill rollback journal is unavailable")
        | some last ↦ rollback_from env plan approval entries last w'
      ]
    ]
