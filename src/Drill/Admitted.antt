-- ===== src/Drill/Admitted.antt =====
-- pkg/backup/drill/engine.go: what Apply has checked when it succeeds.
use cloud_ring.Prelude.{
  ◌≡◌, sym, ap, ◌∙◌, subst, inl, inr, suc, String, true, none, [], ◌∷◌, ◌++◌, map, Option-cases,
  arith, eq_iff,
}
use cloud_ring.Prelude.Lists.{drop}
use cloud_ring.Drill.Steps.{step_eq, approval_consumed}
use cloud_ring.Drill.Types.{Plan, ApprovalReport, JournalEntry, ExecutionReceipt}
use cloud_ring.Drill.Instant.{Instant}
use cloud_ring.Drill.Responses.{validate_approval}
use cloud_ring.Drill.Journal.{validate_journal_entry, new_journal_entry}
use cloud_ring.Drill.Binding.{is_some, approval_consumed_digests}
use cloud_ring.Drill.Store.{
  ok, File, absent, readable, Env, World, write, create_journal, open_journal, read_clock,
  adapter_identity,
}
use cloud_ring.Drill.Loop.{loop_steps, run_apply}
use cloud_ring.Drill.Engine.{adapter_bound, validate_execution_input, apply}
use cloud_ring.Drill.Appends.{Result-cases, write_lem}
use cloud_ring.Drill.Undo.{File-cases, open_journal_lem}
use cloud_ring.Drill.Rounds.{requested_steps, adapter_steps}
use cloud_ring.Drill.Completion.{IsComplete, run_apply-IsComplete}

create_journal-ok :
    (env : Env) (entry : JournalEntry) (w : World)
    → (create_journal env entry w).1 ≡ ok tt
    → ((create_journal env entry w).0.file ≡ readable (entry ∷ []) (env.encoded_size entry))
      × ((create_journal env entry w).0.requests ≡ w.requests)
unfolding create_journal
create_journal-ok env entry w h =
    let after : File = readable (entry ∷ []) (env.encoded_size entry) in
    let (requests, wrote) = write_lem (env.disk w.disk_uses) after w in
    elim (Option-cases (validate_journal_entry env.digest entry none)) [
      | inr (e, bad) ↦ ground arith
      | inl valid ↦ elim (File-cases w.file) [
        | inr (inl f) ↦ ground arith
        | inr (inr (es, n, f)) ↦ ground arith
        | inl f ↦
            let whole : create_journal env entry w ≡ write (env.disk w.disk_uses) after w =
              ground arith in
            elim wrote [
              | inl done ↦
                  (ap (λ p. p.0.file) whole ∙ done, ap (λ p. p.0.requests) whole ∙ requests)
              | inr ((e, err), _) ↦ ground arith
            ]
      ]
    ]

-- What Apply asks for before it begins: the adapter of the plan, an approval that binds the plan and
-- is fresh, and the confirmation that the approval names.
abbrev pub IsAdmitted : Env → Plan → ApprovalReport → String → Instant → Type 0
IsAdmitted env plan approval confirmation now =
    (adapter_identity env.adapter ≡ plan.adapter.executable_sha256)
    × (validate_approval env.digest plan approval now ≡ none)
    × (confirmation ≡ approval.approval_tuple)

input-IsAdmitted :
    (env : Env) (plan : Plan) (approval : ApprovalReport) (confirmation : String) (now : Instant)
    → validate_execution_input env plan approval confirmation now true ≡ none
    → IsAdmitted env plan approval confirmation now
unfolding validate_execution_input adapter_bound is_some
input-IsAdmitted env plan approval confirmation now h =
    elim (Option-cases (validate_approval env.digest plan approval now)) [
      | inr (e, bad) ↦ ground arith
      | inl valid ↦ (
        ground (arith, eq_iff (adapter_identity env.adapter) plan.adapter.executable_sha256),
        valid,
        ground (arith, eq_iff confirmation approval.approval_tuple),
      )
    ]

-- If Apply returns a receipt then: there was no journal; the adapter is the plan's, the approval
-- binds the plan and is fresh at the first reading of the clock, and the confirmation is the
-- approval's; the file holds a journal with exactly the steps of ApplySteps, for which
-- ValidateReceipt accepts the receipt, whose head is the hash of the last entry; and the adapter has
-- run once for each step between mutation-started and completed, in their order, and for no other.
pub apply-IsAdmitted :
    (env : Env) (plan : Plan) (approval : ApprovalReport) (confirmation : String) (w : World)
    (receipt : ExecutionReceipt)
    → (apply env plan approval confirmation w).1 ≡ ok receipt
    → (w.file ≡ absent)
      × IsAdmitted env plan approval confirmation (env.clock w.clock_reads)
      × IsComplete env plan approval receipt (apply env plan approval confirmation w).0
      × (requested_steps (apply env plan approval confirmation w).0
          ≡ requested_steps w ++ drop 2 loop_steps)
unfolding apply read_clock adapter_steps step_eq
apply-IsAdmitted env plan approval confirmation w receipt h =
    let digests = approval_consumed_digests env.digest plan approval in
    let w2 : World = record w { clock_reads = suc (suc w.clock_reads) } in
    let entry =
      new_journal_entry env.digest (env.clock (suc w.clock_reads)) 1 plan approval approval_consumed
        digests.0 digests.1 "" none in
    let created = create_journal env entry w2 in
    let opened = open_journal env created.0 in
    elim (Option-cases
      (validate_execution_input env plan approval confirmation (env.clock w.clock_reads) true)) [
        | inr (e, bad) ↦ ground arith
        | inl input ↦ elim (File-cases w.file) [
          | inr (inl f) ↦ ground arith
          | inr (inr (es, n, f)) ↦ ground arith
          | inl f ↦ elim (Result-cases created.1) [
            | inl (e, bad) ↦ ground arith
            | inr (_, made) ↦ elim (Result-cases opened.1) [
              | inl (e, bad) ↦ ground arith
              | inr (_, there) ↦
                  let (file, requests) = create_journal-ok env entry w2 made in
                  let (file', requests') = open_journal_lem env created.0 in
                  let whole : apply env plan approval confirmation w
                      ≡ run_apply env plan approval opened.0 =
                    ground arith in
                  let (complete, asked) =
                    run_apply-IsComplete env plan approval (entry ∷ []) opened.0 receipt
                      (env.encoded_size entry, file' ∙ file) (sym (ap (λ p. p.1) whole) ∙ h) in
                  (
                    f,
                    input-IsAdmitted env plan approval confirmation (env.clock w.clock_reads) input,
                    subst (λ p. IsComplete env plan approval receipt p.0) (sym whole) complete,
                    ap (λ p. requested_steps p.0) whole
                        ∙ asked
                        ∙ ap (λ l. map (λ r. r.step) l ++ adapter_steps (drop 1 loop_steps))
                            (requests' ∙ requests),
                  )
            ]
          ]
        ]
      ]
