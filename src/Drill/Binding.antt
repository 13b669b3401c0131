-- ===== src/Drill/Binding.antt =====
-- pkg/backup/drill/engine.go: what binds a journal to its plan and approval.
use cloud_ring.Prelude.{
  ℕ, suc, String, Bool, true, false, not, ◌&&◌, ◌||◌, Option, none, some, List, [], ◌∷◌, ◌==◌,
  if◌then◌else◌, eqb,
}
use cloud_ring.Prelude.Lists.{any}
use cloud_ring.Drill.Steps.{
  Step, step_eq, step_text, has_rollback_prefix, approval_consumed, mutation_started, completed,
  proof_assembled, rolled_back, rollback_failed, rollback_safe_stop, rollback_cleanup_requested,
}
use cloud_ring.Drill.Types.{Plan, ApprovalReport, AdapterRequest, JournalEntry, applying}
use cloud_ring.Drill.Digest.{
  Digest, operation_tuple, step_previous, status_scope, step_proof, status_response, failure_of,
  plan_sha256, approval_scope_sha256, approval_sha256,
}
use cloud_ring.Drill.Plans.{Error}
use cloud_ring.Drill.Responses.{
  new_adapter_request, new_rollback_request, validate_adapter_response,
  validate_adapter_response_binding,
}
use cloud_ring.Drill.Journal.{validate_journal_entries}

unfoldable pub is_some : {A : Type 0} → Option A → Bool
is_some none = false
is_some (some x) = true

unfoldable pub step_is : Step → Option JournalEntry → Bool
step_is step none = false
step_is step (some entry) = step_eq entry.step step

unfoldable pub rollback_started : List JournalEntry → Bool
rollback_started entries =
    any (λ entry. has_rollback_prefix entry.step || step_eq entry.step rolled_back) entries

module _ (digest : Digest) where
  -- The digests of the request and of the response of the entries that no adapter makes.
  unfoldable pub approval_consumed_digests : Plan → ApprovalReport → String × String
  approval_consumed_digests plan approval = (
    digest (operation_tuple plan.operation_id approval.approval_tuple),
    approval.preflight_response_sha256,
  )

  unfoldable pub mutation_started_digests : Plan → String → String × String
  mutation_started_digests plan previous = (
    digest (step_previous "mutation-started" previous),
    digest (status_scope "mutation-authorized" (approval_scope_sha256 digest plan)),
  )

  unfoldable pub completed_digests : String → String × String
  completed_digests proof = (digest (step_proof "completed" proof), proof)

  unfoldable pub rollback_terminal_digests : Step → String → String → String × String
  rollback_terminal_digests step previous response = (
    digest (step_previous (step_text step) previous),
    digest (status_response (step_text step) response),
  )

  unfoldable pub adapter_failure_sha256 : String → String
  adapter_failure_sha256 reason = digest (failure_of reason)

  -- Whether the entry has no response and exactly these digests.
  unfoldable pub is_derived : JournalEntry → String × String → Bool
  is_derived entry (request_sha, response_sha) =
      not (is_some entry.response)
      && entry.request_sha256 == request_sha
      && entry.response_sha256 == response_sha

  -- The response of an adapter's entry: absent after a failure that is allowed, else bound to the
  -- request, and valid where no failure is allowed.
  unfoldable pub adapter_entry_error : JournalEntry → AdapterRequest → Bool → Option Error
  adapter_entry_error entry request failure_allowed =
      let expected =
        if step_eq entry.step rollback_safe_stop
        then adapter_failure_sha256 "safe-stop-failed"
        else if step_eq entry.step rollback_cleanup_requested
        then adapter_failure_sha256 "adapter-execution-failed"
        else "" in
      if not (entry.request_sha256 == request.request_sha256)
      then some "backup drill journal adapter response is stale or conflicting"
      else elim entry.response [
        | none ↦
            if not failure_allowed || not (entry.response_sha256 == expected)
            then some "backup drill journal adapter failure is not exact"
            else none
        | some response ↦
            if not (entry.response_sha256 == response.response_sha256)
            then some "backup drill journal adapter response digest conflicts"
            else elim (validate_adapter_response_binding digest request response) [
              | some _ ↦ some "backup drill journal adapter response binding is invalid"
              | none ↦
                  if is_some (validate_adapter_response digest request response)
                    && not failure_allowed
                  then some "backup drill journal adapter response is invalid"
                  else none
            ]
      ]

  -- The switch on the step of an entry, whose predecessor is `previous` and successor `next`.
  unfoldable pub step_binding_error :
      Plan
      → ApprovalReport
      → ℕ
      → Option JournalEntry
      → JournalEntry
      → Option JournalEntry
      → Option Error
  step_binding_error plan approval index previous entry next =
      let previous_sha : String = elim previous [ none ↦ "" | some p ↦ p.entry_sha256 ] in
      let previous_response : String = elim previous [ none ↦ "" | some p ↦ p.response_sha256 ] in
      let responded : Bool = elim previous [ none ↦ false | some p ↦ is_some p.response ] in
      let request =
        if has_rollback_prefix entry.step
        then new_rollback_request digest plan approval entry.step previous_sha
        else new_adapter_request digest plan (some approval) applying entry.step previous_sha in
      if step_eq entry.step approval_consumed
      then if not (eqb index 0) || not (is_derived entry (approval_consumed_digests plan approval))
        then some "backup drill approval-consumed journal derivation is invalid"
        else none
      else if step_eq entry.step mutation_started
      then if not (eqb index 1)
        then some "backup drill mutation-started journal position is invalid"
        else if not (is_derived entry (mutation_started_digests plan previous_sha))
        then some "backup drill mutation-started journal derivation is invalid"
        else none
      else if step_eq entry.step completed
      then if not (step_is proof_assembled previous) || not responded
        then some "backup drill completed journal predecessor is invalid"
        else if not (is_derived entry (completed_digests previous_response))
        then some "backup drill completed journal derivation is invalid"
        else none
      else if step_eq entry.step rolled_back || step_eq entry.step rollback_failed
      then if eqb index 0
        then some "backup drill rollback terminal predecessor is absent"
        else if not
            (is_derived entry (rollback_terminal_digests entry.step previous_sha previous_response))
        then some "backup drill rollback terminal derivation is invalid"
        else none
      else if eqb index 0
      then some "backup drill journal begins with an adapter step"
      else adapter_entry_error entry request
          (step_is rollback_failed next || (not (is_some next) && has_rollback_prefix entry.step))

  unfoldable pub entry_binding_error :
      Plan
      → ApprovalReport
      → ℕ
      → Option JournalEntry
      → JournalEntry
      → Option JournalEntry
      → Option Error
  entry_binding_error plan approval index previous entry next =
      if not (entry.operation_id == plan.operation_id)
        || not (entry.plan_sha256 == plan_sha256 digest plan)
        || not (entry.approval_sha256 == approval_sha256 digest approval)
        || not (entry.approval_scope_sha256 == approval_scope_sha256 digest plan)
        || not (entry.adapter_executable_sha256 == plan.adapter.executable_sha256)
      then some "backup drill journal transaction binding changed"
      else step_binding_error plan approval index previous entry next

  unfoldable pub bindings_error :
      Plan → ApprovalReport → ℕ → Option JournalEntry → List JournalEntry → Option Error
  bindings_error plan approval index previous [] = none
  bindings_error plan approval index previous (entry ∷ []) =
      entry_binding_error plan approval index previous entry none
  bindings_error plan approval index previous (entry ∷ next ∷ entries) =
      let rest = bindings_error plan approval (suc index) (some entry) (next ∷ entries) in
      elim (entry_binding_error plan approval index previous entry (some next)) [
        | some e ↦ some e
        | none ↦ rest
      ]

  unfoldable pub verify_journal_binding : Plan → ApprovalReport → List JournalEntry → Option Error
  verify_journal_binding plan approval entries = elim (validate_journal_entries digest entries) [
    | some e ↦ some e
    | none ↦ bindings_error plan approval 0 none entries
  ]

  -- rollbackResponseSucceeded: `previous` is the entry before.
  unfoldable pub rollback_response_succeeded :
      Plan → ApprovalReport → Option JournalEntry → JournalEntry → Bool
  rollback_response_succeeded plan approval none entry = false
  rollback_response_succeeded plan approval (some previous) entry =
      let request = new_rollback_request digest plan approval entry.step previous.entry_sha256 in
      if not (step_eq entry.step rollback_safe_stop)
        && not (step_eq entry.step rollback_cleanup_requested)
      then false
      else elim entry.response [
        | none ↦ false
        | some response ↦
            entry.request_sha256 == request.request_sha256
            && not (is_some (validate_adapter_response digest request response))
      ]
