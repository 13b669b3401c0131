-- ===== src/Drill/Completion.antt =====
-- pkg/backup/drill/engine.go: what a run of runApply that returns a receipt has done.
use cloud_ring.Prelude.{
  ◌≡◌, refl, sym, ap, ◌∙◌, subst, inl, inr, true, none, some, List, [], ◌∷◌, ◌++◌, map, Bool-cases,
  Option-cases, arith, eqb,
}
use cloud_ring.Prelude.Lists.{length, last?, drop}
use cloud_ring.Drill.Steps.{Step, apply_steps, completed}
use cloud_ring.Drill.Types.{
  Plan, ApprovalReport, AdapterResponse, Evidence, JournalEntry, ExecutionReceipt,
}
use cloud_ring.Drill.Digest.{Digest}
use cloud_ring.Drill.Plans.{validate_plan}
use cloud_ring.Drill.Responses.{validate_approval_binding}
use cloud_ring.Drill.Journal.{steps_of}
use cloud_ring.Drill.Binding.{is_some, completed_digests, verify_journal_binding, rollback_started}
use cloud_ring.Drill.Receipts.{
  steps_eq, proof_of, second_last?, new_receipt, receipt_error, validate_receipt,
}
use cloud_ring.Drill.Store.{ok, Env, World, load}
use cloud_ring.Drill.Phases.{step_eq_sound}
use cloud_ring.Drill.Appends.{Result-cases, load_lem, load-readable}
use cloud_ring.Drill.Rounds.{
  Holds, requested_steps, adapter_steps, record_step-ok, run_steps-IsRound, readable-injective,
}
use cloud_ring.Drill.Loop.{
  loop_steps, proof_entry, record_step, record_completed, receipt_of_journal, finish_apply,
  run_steps, resume, run_apply,
}

steps_eq_sound : (a b : List Step) → steps_eq a b ≡ true → a ≡ b
unfolding steps_eq
steps_eq_sound [] [] h = refl
steps_eq_sound (a ∷ xs) (b ∷ ys) h = ground (arith, step_eq_sound a b, steps_eq_sound xs ys)
steps_eq_sound [] (b ∷ ys) h = ground arith
steps_eq_sound (a ∷ xs) [] h = ground arith

-- A receipt that ValidateReceipt accepts is for a journal that has every step of ApplySteps.
pub validate_receipt-steps :
    (digest : Digest) (plan : Plan) (approval : ApprovalReport) (receipt : ExecutionReceipt)
    (entries : List JournalEntry)
    → validate_receipt digest plan approval receipt entries ≡ none
    → (steps_of entries ≡ apply_steps)
      × (verify_journal_binding digest plan approval entries ≡ none)
unfolding validate_receipt receipt_error is_some
validate_receipt-steps digest plan approval receipt entries h =
    elim (Option-cases (validate_plan plan)) [
      | inr (e, bad) ↦ ground arith
      | inl planned ↦ elim (Option-cases (validate_approval_binding digest plan approval)) [
        | inr (e, bad) ↦ ground arith
        | inl approved ↦ elim (Option-cases (verify_journal_binding digest plan approval entries)) [
          | inr (e, bad) ↦ ground arith
          | inl bound ↦ elim (Option-cases (last? entries)) [
            | inl empty ↦ ground arith
            | inr (done, last) ↦ elim (Option-cases (proof_of plan (second_last? entries))) [
              | inl lost ↦ ground arith
              | inr (proof, found) ↦
                  let all : steps_eq (steps_of entries) apply_steps ≡ true = ground arith in
                  (steps_eq_sound (steps_of entries) apply_steps all, bound)
            ]
          ]
        ]
      ]
    ]

-- The head that a receipt names is the hash of the journal's last entry.
abbrev pub NamesHead : ExecutionReceipt → List JournalEntry → Type 0
NamesHead receipt entries =
    (e : JournalEntry) × (last? entries ≡ some e) × (receipt.journal_head_sha256 ≡ e.entry_sha256)

new_receipt-head :
    (digest : Digest) (plan : Plan) (approval : ApprovalReport) (done : JournalEntry)
    (proof : AdapterResponse) (isolation cleanup : Evidence)
    → (new_receipt digest plan approval done proof isolation cleanup).journal_head_sha256
      ≡ done.entry_sha256
unfolding new_receipt
new_receipt-head digest plan approval done proof isolation cleanup = refl

receipt_of_journal-ok :
    (env : Env) (plan : Plan) (approval : ApprovalReport) (entries : List JournalEntry)
    (receipt : ExecutionReceipt)
    → receipt_of_journal env plan approval entries ≡ ok receipt
    → (validate_receipt env.digest plan approval receipt entries ≡ none) × NamesHead receipt entries
unfolding receipt_of_journal
receipt_of_journal-ok env plan approval entries receipt h =
    elim (Option-cases (proof_of plan (second_last? entries))) [
      | inl lost ↦ ground arith
      | inr (proof, found) ↦ elim (Option-cases (last? entries)) [
        | inl empty ↦ ground arith
        | inr (done, last) ↦ elim (Option-cases proof.isolation_evidence) [
          | inl gone ↦ ground arith
          | inr (isolation, here) ↦ elim (Option-cases proof.cleanup_evidence) [
            | inl gone ↦ ground arith
            | inr (cleanup, there) ↦
                let r = new_receipt env.digest plan approval done proof isolation cleanup in
                elim (Option-cases (validate_receipt env.digest plan approval r entries)) [
                  | inr (e, bad) ↦ ground arith
                  | inl valid ↦
                      let same : r ≡ receipt = ground arith in
                      (
                        subst (λ t. validate_receipt env.digest plan approval t entries ≡ none) same
                            valid,
                        (
                          done,
                          last,
                          ap (λ t. t.journal_head_sha256) (sym same)
                              ∙ new_receipt-head env.digest plan approval done proof isolation
                                  cleanup,
                        ),
                      )
                ]
          ]
        ]
      ]
    ]

-- The completed entry runs no adapter.
record_completed-requests :
    (env : Env) (plan : Plan) (approval : ApprovalReport) (entries : List JournalEntry)
    (proof : AdapterResponse) (w : World) (entries' : List JournalEntry)
    → Holds w entries
    → (record_completed env plan approval entries proof w).1 ≡ ok entries'
    → (record_completed env plan approval entries proof w).0.requests ≡ w.requests
unfolding record_completed
record_completed-requests env plan approval entries proof w entries' here done =
    let (request_sha, response_sha) = completed_digests env.digest proof.response_sha256 in
    elim (Bool-cases (eqb (length entries) (length loop_steps))) [
      | inr other ↦ ground arith
      | inl due ↦
          let whole : record_completed env plan approval entries proof w
              ≡ record_step env plan approval entries completed request_sha response_sha none
                  "record backup drill completion" w =
            ground arith in
          let (_, _, requests) =
            record_step-ok env plan approval entries completed request_sha response_sha none
              "record backup drill completion" w entries' here (sym (ap (λ p. p.1) whole) ∙ done) in
          ap (λ p. p.0.requests) whole ∙ requests
    ]

-- What a receipt says of the world in which it was returned.
abbrev pub IsComplete : Env → Plan → ApprovalReport → ExecutionReceipt → World → Type 0
IsComplete env plan approval receipt w =
    (entries : List JournalEntry) × Holds w entries
    × (validate_receipt env.digest plan approval receipt entries ≡ none)
    × NamesHead receipt entries
    × (steps_of entries ≡ apply_steps)

finish_apply-ok :
    (env : Env) (plan : Plan) (approval : ApprovalReport) (entries : List JournalEntry) (w : World)
    (receipt : ExecutionReceipt)
    → Holds w entries
    → (finish_apply env plan approval entries w).1 ≡ ok receipt
    → IsComplete env plan approval receipt (finish_apply env plan approval entries w).0
      × ((finish_apply env plan approval entries w).0.requests ≡ w.requests)
unfolding finish_apply
finish_apply-ok env plan approval entries w receipt here h =
    elim (Option-cases (proof_of plan (proof_entry entries))) [
      | inl lost ↦ ground arith
      | inr (proof, found) ↦
          let w1 = (record_completed env plan approval entries proof w).0 in
          elim (Result-cases (record_completed env plan approval entries proof w).1) [
            | inl (e, bad) ↦ ground arith
            | inr (entries', good) ↦ elim (Result-cases (load env w1).1) [
              | inl (e, bad) ↦ ground arith
              | inr ((read, n), loaded) ↦
                  let (file, requests) = load_lem env w1 in
                  let (there, _) = load-readable env w1 read n loaded in
                  let whole : finish_apply env plan approval entries w
                      ≡ ((load env w1).0, receipt_of_journal env plan approval read) =
                    ground arith in
                  let made : receipt_of_journal env plan approval read ≡ ok receipt =
                    sym (ap (λ p. p.1) whole) ∙ h in
                  let (valid, head) = receipt_of_journal-ok env plan approval read receipt made in
                  let (steps, _) =
                    validate_receipt-steps env.digest plan approval receipt read valid in
                  (
                    (read, (n, ap (λ p. p.0.file) whole ∙ file ∙ there), valid, head, steps),
                    ap (λ p. p.0.requests) whole
                        ∙ requests
                        ∙ record_completed-requests env plan approval entries proof w entries' here
                            good,
                  )
            ]
          ]
    ]

resume-ok :
    (env : Env) (plan : Plan) (approval : ApprovalReport) (entries : List JournalEntry) (w : World)
    (receipt : ExecutionReceipt)
    → Holds w entries
    → (resume env plan approval entries w).1 ≡ ok receipt
    → IsComplete env plan approval receipt (resume env plan approval entries w).0
      × (requested_steps (resume env plan approval entries w).0
          ≡ requested_steps w ++ adapter_steps (drop (length entries) loop_steps))
unfolding resume is_some
resume-ok env plan approval entries w receipt here h =
    let ahead = drop (length entries) loop_steps in
    elim (Option-cases (verify_journal_binding env.digest plan approval entries)) [
      | inr (e, bad) ↦ ground arith
      | inl bound ↦ elim (Bool-cases (rollback_started entries)) [
        | inl started ↦ ground arith
        | inr forward ↦ elim (Result-cases (run_steps env plan approval ahead entries w).1) [
          | inl (e, bad) ↦ ground arith
          | inr (entries', good) ↦
              let w' = (run_steps env plan approval ahead entries w).0 in
              let (holds, _, requests) =
                run_steps-IsRound env plan approval ahead entries w entries' here good in
              let whole : resume env plan approval entries w
                  ≡ finish_apply env plan approval entries' w' =
                ground arith in
              let (complete, same) =
                finish_apply-ok env plan approval entries' w' receipt holds
                  (sym (ap (λ p. p.1) whole) ∙ h) in
              (
                subst (λ p. IsComplete env plan approval receipt p.0) (sym whole) complete,
                ap (λ p. requested_steps p.0) whole ∙ ap (map (λ r. r.step)) same ∙ requests,
              )
        ]
      ]
    ]

-- If runApply returns a receipt, for a journal that the file holds, then: the file holds a journal
-- with exactly the steps of ApplySteps, in their order; ValidateReceipt accepts the receipt for it,
-- whose head is the hash of the journal's last entry; and the adapter has run once for each step up
-- to proof-assembled that the first journal had not, other than mutation-started, in their order,
-- and for no other: so a recovery repeats no step that was recorded.
pub run_apply-IsComplete :
    (env : Env) (plan : Plan) (approval : ApprovalReport) (entries : List JournalEntry) (w : World)
    (receipt : ExecutionReceipt)
    → Holds w entries
    → (run_apply env plan approval w).1 ≡ ok receipt
    → IsComplete env plan approval receipt (run_apply env plan approval w).0
      × (requested_steps (run_apply env plan approval w).0
          ≡ requested_steps w ++ adapter_steps (drop (length entries) loop_steps))
unfolding run_apply
run_apply-IsComplete env plan approval entries w receipt (n, here) h =
    elim (Result-cases (load env w).1) [
      | inl (e, bad) ↦ ground arith
      | inr ((read, m), loaded) ↦
          let w' = (load env w).0 in
          let (file, requests) = load_lem env w in
          let (there, _) = load-readable env w read m loaded in
          let same : read ≡ entries = readable-injective read entries m n (sym there ∙ here) in
          let whole : run_apply env plan approval w ≡ resume env plan approval read w' =
            ground arith in
          let (complete, asked) =
            resume-ok env plan approval read w' receipt (m, file ∙ there)
              (sym (ap (λ p. p.1) whole) ∙ h) in
          (
            subst (λ p. IsComplete env plan approval receipt p.0) (sym whole) complete,
            ap (λ p. requested_steps p.0) whole
                ∙ asked
                ∙ ap (λ l. map (λ r. r.step) l ++ adapter_steps (drop (length read) loop_steps))
                    requests
                ∙ ap (λ l. requested_steps w ++ adapter_steps (drop (length l) loop_steps)) same,
          )
    ]
