-- ===== src/Drill/Repeat.antt =====
-- pkg/backup/drill: a completed drill that is recovered again.
use cloud_ring.Prelude.{
  ◌≡◌, refl, sym, ap, ◌∙◌, subst, inl, inr, ℕ, suc, Bool, true, false, none, some, List, [], ◌∷◌,
  Option-cases, arith, eq_iff, ltb, ◌||◌,
}
use cloud_ring.Prelude.Lists.{drop, any, length, last?}
use cloud_ring.Drill.Steps.{Step, step_eq, has_rollback_prefix, apply_steps, completed, rolled_back}
use cloud_ring.Drill.Types.{
  Plan, ApprovalReport, AdapterResponse, JournalEntry, ExecutionReceipt, TargetResult, Evidence,
}
use cloud_ring.Drill.Digest.{
  Digest, plan_sha256, approval_sha256, approval_scope_sha256, execution_receipt_sha256,
}
use cloud_ring.Drill.Plans.{validate_plan}
use cloud_ring.Drill.Responses.{validate_approval_binding}
use cloud_ring.Drill.Binding.{is_some, rollback_started, verify_journal_binding}
use cloud_ring.Drill.Store.{
  ok, readable, fine, Env, World, is_fine, decode_journal, load_file, load, max_journal_bytes,
}
use cloud_ring.Drill.Loop.{
  receipt_of_journal, finish_apply, record_completed, proof_entry, run_steps, resume, run_apply,
  loop_steps,
}
use cloud_ring.Drill.Appends.{length-steps_of, last-step_of, load_lem}
use cloud_ring.Drill.Completion.{validate_receipt-steps}
use cloud_ring.Drill.Journal.{steps_of, validate_journal_entries}
use cloud_ring.Drill.Receipts.{
  evidence_eq, target_eq, targets_eq, receipt_bound, new_receipt, proof_of, second_last?,
  receipt_error, validate_receipt,
}

evidence_eq_sound : (a b : Evidence) → evidence_eq a b ≡ true → a ≡ b
unfolding evidence_eq
evidence_eq_sound a b h = ground (arith, eq_iff a.ref b.ref, eq_iff a.sha256 b.sha256)

target_eq_sound : (a b : TargetResult) → target_eq a b ≡ true → a ≡ b
unfolding target_eq
target_eq_sound a b h = ground (
  arith,
  eq_iff a.kind b.kind,
  eq_iff a.source_checksum_sha256 b.source_checksum_sha256,
  eq_iff a.restored_checksum_sha256 b.restored_checksum_sha256,
  eq_iff a.evidence_ref b.evidence_ref,
  eq_iff a.evidence_sha256 b.evidence_sha256,
)

targets_eq_sound : (a b : List TargetResult) → targets_eq a b ≡ true → a ≡ b
unfolding targets_eq
targets_eq_sound [] [] h = refl
targets_eq_sound (a ∷ xs) (b ∷ ys) h = ground (arith, target_eq_sound a b, targets_eq_sound xs ys)
targets_eq_sound [] (b ∷ ys) h = ground arith
targets_eq_sound (a ∷ xs) [] h = ground arith

-- A receipt that is bound to the plan, the completed entry and the proof is the one runApply makes.
bound-new_receipt :
    (digest : Digest) (plan : Plan) (approval : ApprovalReport) (r : ExecutionReceipt)
    (done : JournalEntry) (proof : AdapterResponse) (isolation cleanup : Evidence)
    → proof.isolation_evidence ≡ some isolation
    → proof.cleanup_evidence ≡ some cleanup
    → receipt_bound digest plan approval r done proof ≡ true
    → new_receipt digest plan approval done proof isolation cleanup ≡ r
unfolding receipt_bound new_receipt execution_receipt_sha256
bound-new_receipt digest plan approval r done proof isolation cleanup i c h = ground (
  arith,
  eq_iff r.schema_version "cloudring.backup-drill.execution-receipt/v1",
  eq_iff r.operation_id plan.operation_id,
  eq_iff r.proof_id plan.proof_id,
  eq_iff r.installation_id plan.installation_id,
  eq_iff r.plan_sha256 (plan_sha256 digest plan),
  eq_iff r.approval_sha256 (approval_sha256 digest approval),
  eq_iff r.approval_scope_sha256 (approval_scope_sha256 digest plan),
  eq_iff r.adapter_executable_sha256 plan.adapter.executable_sha256,
  eq_iff r.status "completed",
  eq_iff r.completed_at done.recorded_at,
  eq_iff r.journal_head_sha256 done.entry_sha256,
  eq_iff r.execution_evidence_response_sha256 proof.response_sha256,
  targets_eq_sound r.targets proof.targets,
  evidence_eq_sound r.isolation_evidence isolation,
  evidence_eq_sound r.cleanup_evidence cleanup,
  eq_iff r.object_lock_delete_denial_receipt_sha256 proof.object_lock_delete_denial_receipt_sha256,
  eq_iff r.aggregate_proof_artifact_sha256 proof.aggregate_proof_artifact_sha256,
  eq_iff r.aggregate_proof_path_token proof.aggregate_proof_path_token,
  eq_iff r.receipt_sha256 (execution_receipt_sha256 digest r),
)

rolling_back_steps : List Step → Bool
rolling_back_steps steps = any (λ s. has_rollback_prefix s || step_eq s rolled_back) steps

rollback_started-steps_of :
    (entries : List JournalEntry) → rollback_started entries ≡ rolling_back_steps (steps_of entries)
unfolding rollback_started rolling_back_steps
rollback_started-steps_of [] = refl
rollback_started-steps_of (e ∷ entries) = ground (arith, rollback_started-steps_of entries)

-- A journal with every step of ApplySteps has no rollback and ends in completed.
whole-steps :
    (entries : List JournalEntry) (done : JournalEntry)
    → steps_of entries ≡ apply_steps
    → last? entries ≡ some done
    → (rollback_started entries ≡ false)
      × (step_eq done.step completed ≡ true)
      × (length entries ≡ 13)
unfolding rolling_back_steps has_rollback_prefix step_eq
whole-steps entries done whole last =
    let end : some done.step ≡ some completed =
      sym (last-step_of entries done last) ∙ ap last? whole in
    (
      rollback_started-steps_of entries ∙ ap rolling_back_steps whole,
      ap (λ o. elim o [ none ↦ false | some s ↦ step_eq s completed ]) end,
      sym (length-steps_of entries) ∙ ap length whole,
    )

-- What ValidateReceipt has looked at, of a receipt that it accepts.
validate_receipt-parts :
    (digest : Digest) (plan : Plan) (approval : ApprovalReport) (receipt : ExecutionReceipt)
    (entries : List JournalEntry)
    → validate_receipt digest plan approval receipt entries ≡ none
    → (done : JournalEntry) × (proof : AdapterResponse) × (last? entries ≡ some done)
      × (proof_of plan (second_last? entries) ≡ some proof)
      × (receipt_bound digest plan approval receipt done proof ≡ true)
unfolding validate_receipt receipt_error
validate_receipt-parts digest plan approval receipt entries h =
    elim (Option-cases (validate_plan plan)) [
      | inr (e, bad) ↦ ground arith
      | inl planned ↦ elim (Option-cases (validate_approval_binding digest plan approval)) [
        | inr (e, bad) ↦ ground arith
        | inl approved ↦ elim (Option-cases (last? entries)) [
          | inl empty ↦ ground arith
          | inr (done, last) ↦ elim (Option-cases (proof_of plan (second_last? entries))) [
            | inl lost ↦ ground arith
            | inr (proof, found) ↦ (done, proof, last, found, ground arith)
          ]
        ]
      ]
    ]

receipt_bound-evidence :
    (digest : Digest) (plan : Plan) (approval : ApprovalReport) (r : ExecutionReceipt)
    (done : JournalEntry) (proof : AdapterResponse)
    → receipt_bound digest plan approval r done proof ≡ true
    → ((i : Evidence) × (proof.isolation_evidence ≡ some i))
      × ((c : Evidence) × (proof.cleanup_evidence ≡ some c))
unfolding receipt_bound
receipt_bound-evidence digest plan approval r done proof h =
    elim (Option-cases proof.isolation_evidence) [
      | inl gone ↦ ground arith
      | inr isolation ↦ elim (Option-cases proof.cleanup_evidence) [
        | inl gone ↦ ground arith
        | inr cleanup ↦ (isolation, cleanup)
      ]
    ]

-- The receipt that runApply makes of a journal is the one that ValidateReceipt accepts for it.
receipt_of_journal-validate :
    (env : Env) (plan : Plan) (approval : ApprovalReport) (receipt : ExecutionReceipt)
    (entries : List JournalEntry)
    → validate_receipt env.digest plan approval receipt entries ≡ none
    → receipt_of_journal env plan approval entries ≡ ok receipt
unfolding receipt_of_journal is_some
receipt_of_journal-validate env plan approval receipt entries valid =
    let (done, proof, last, found, bound) =
      validate_receipt-parts env.digest plan approval receipt entries valid in
    let (steps, binding) = validate_receipt-steps env.digest plan approval receipt entries valid in
    let ((isolation, i), (cleanup, c)) =
      receipt_bound-evidence env.digest plan approval receipt done proof bound in
    let (_, _, count) = whole-steps entries done steps last in
    let same =
      bound-new_receipt env.digest plan approval receipt done proof isolation cleanup i c bound in
    let again : validate_receipt env.digest plan approval
          (new_receipt env.digest plan approval done proof isolation cleanup) entries
        ≡ none =
      subst (λ r. validate_receipt env.digest plan approval r entries ≡ none) (sym same) valid in
    ground arith

-- A load where the disk works.
load-fine :
    (env : Env) (w : World) (entries : List JournalEntry) (n : ℕ)
    → w.file ≡ readable entries n
    → (ltb n 2 || ltb max_journal_bytes n) ≡ false
    → env.disk w.disk_uses ≡ fine
    → validate_journal_entries env.digest entries ≡ none
    → (load env w).1 ≡ ok (entries, n)
unfolding load load_file decode_journal is_fine
load-fine env w entries n here size works valid = ground arith

load_uses : (env : Env) (w : World) → (load env w).0.disk_uses ≡ suc w.disk_uses
unfolding load
load_uses env w = ground arith

-- The end of runApply for a complete journal only loads it again.
finish_apply-again :
    (env : Env) (plan : Plan) (approval : ApprovalReport) (receipt : ExecutionReceipt)
    (entries : List JournalEntry) (n : ℕ) (w : World)
    → validate_receipt env.digest plan approval receipt entries ≡ none
    → (load env w).1 ≡ ok (entries, n)
    → finish_apply env plan approval entries w ≡ ((load env w).0, ok receipt)
unfolding finish_apply proof_entry record_completed
finish_apply-again env plan approval receipt entries n w valid loaded =
    let (done, proof, last, found, bound) =
      validate_receipt-parts env.digest plan approval receipt entries valid in
    let (steps, binding) = validate_receipt-steps env.digest plan approval receipt entries valid in
    let (forward, ends, count) = whole-steps entries done steps last in
    let made = receipt_of_journal-validate env plan approval receipt entries valid in ground arith

-- If the file holds a journal for which ValidateReceipt accepts a receipt, its size is within the
-- limits, and the disk works in two uses, then runApply returns that same receipt, runs no adapter,
-- and leaves the file as it was.
pub run_apply-again :
    (env : Env) (plan : Plan) (approval : ApprovalReport) (receipt : ExecutionReceipt)
    (entries : List JournalEntry) (n : ℕ) (w : World)
    → w.file ≡ readable entries n
    → (ltb n 2 || ltb max_journal_bytes n) ≡ false
    → env.disk w.disk_uses ≡ fine
    → env.disk (suc w.disk_uses) ≡ fine
    → validate_receipt env.digest plan approval receipt entries ≡ none
    → ((run_apply env plan approval w).1 ≡ ok receipt)
      × ((run_apply env plan approval w).0.requests ≡ w.requests)
      × ((run_apply env plan approval w).0.file ≡ w.file)
unfolding run_apply resume run_steps is_some verify_journal_binding
run_apply-again env plan approval receipt entries n w here size works works' valid =
    let (done, proof, last, found, bound) =
      validate_receipt-parts env.digest plan approval receipt entries valid in
    let (steps, binding) = validate_receipt-steps env.digest plan approval receipt entries valid in
    let (forward, ends, count) = whole-steps entries done steps last in
    let w1 = (load env w).0 in
    let chain : validate_journal_entries env.digest entries ≡ none = ground arith in
    let first = load-fine env w entries n here size works chain in
    let (file, requests) = load_lem env w in
    let (file', requests') = load_lem env w1 in
    let second =
      load-fine env w1 entries n (file ∙ here) size (ap env.disk (load_uses env w) ∙ works')
        chain in
    let finish = finish_apply-again env plan approval receipt entries n w1 valid second in
    let nothing : drop (length entries) loop_steps ≡ [] = ap (λ k. drop k loop_steps) count in
    let whole : run_apply env plan approval w ≡ finish_apply env plan approval entries w1 =
      ground arith in
    (
      ap (λ p. p.1) (whole ∙ finish),
      ap (λ p. p.0.requests) (whole ∙ finish) ∙ requests' ∙ requests,
      ap (λ p. p.0.file) (whole ∙ finish) ∙ file' ∙ file,
    )
