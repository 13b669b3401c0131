-- ===== src/Drill/Undone.antt =====
-- pkg/backup/drill/engine.go: what Rollback has done when it returns no error.
use cloud_ring.Prelude.{
  ◌≡◌, refl, sym, ap, ◌∙◌, subst, ◌⊎◌, inl, inr, String, Bool, true, false, none, some, List,
  Bool-cases, Option-cases, arith, if◌then◌else◌,
}
use cloud_ring.Prelude.Lists.{last?, last?-snoc}
use cloud_ring.Drill.Steps.{
  Step, step_eq, completed, rolled_back, rollback_failed, rollback_safe_stop,
  rollback_cleanup_requested,
}
use cloud_ring.Drill.Types.{Plan, ApprovalReport, AdapterRequest, JournalEntry}
use cloud_ring.Drill.Plans.{Error}
use cloud_ring.Drill.Responses.{new_rollback_request, validate_adapter_response}
use cloud_ring.Drill.Journal.{steps_of}
use cloud_ring.Drill.Binding.{rollback_terminal_digests, rollback_response_succeeded}
use cloud_ring.Drill.Receipts.{second_last?}
use cloud_ring.Drill.Store.{ok, Env, World, run_count, invoke}
use cloud_ring.Drill.Phases.{step_eq_sound}
use cloud_ring.Drill.Appends.{Result-cases}
use cloud_ring.Drill.Rounds.{Holds, record_step-ok}
use cloud_ring.Drill.Undo.{bound_journal_lem}
use cloud_ring.Drill.Appends.{last-step_of}
use cloud_ring.Drill.Loop.{record_step, head_sha}
use cloud_ring.Drill.Engine.{bound_journal}
use cloud_ring.Drill.Rollback.{
  recorded_response, recorded_sha, append_rollback_terminal, rollback_request,
  continue_rollback_cleanup, begin_rollback, rollback_from, rollback,
}

-- The file holds a journal whose last step is rolled-back.
abbrev pub IsUndone : World → Type 0
IsUndone w =
    (entries : List JournalEntry) × Holds w entries × (last? (steps_of entries) ≡ some rolled_back)

invoke-file :
    (env : Env) (request : AdapterRequest) (w : World) → (invoke env request w).0.file ≡ w.file
unfolding invoke
invoke-file env request w = elim (Option-cases env.adapter) [
  | inl none' ↦ ground arith
  | inr (adapter, here) ↦ elim (Option-cases (adapter.run (run_count w.requests) request)) [
    | inl silent ↦ ground arith
    | inr (r, answer') ↦ elim (Option-cases (validate_adapter_response env.digest request r)) [
      | inl valid ↦ ground arith
      | inr bad ↦ ground arith
    ]
  ]
]

module _ (env : Env) (plan : Plan) (approval : ApprovalReport) where
  terminal-IsUndone :
      (entries : List JournalEntry) (step : Step) (w : World)
      → Holds w entries
      → (step ≡ rolled_back) ⊎ (step ≡ rollback_failed)
      → (append_rollback_terminal env plan approval entries step w).1 ≡ ok tt
      → IsUndone (append_rollback_terminal env plan approval entries step w).0
  unfolding append_rollback_terminal step_eq
  terminal-IsUndone entries step w here which h =
      let response : String = elim (last? entries) [ none ↦ "" | some p ↦ p.response_sha256 ] in
      let digests = rollback_terminal_digests env.digest step (head_sha entries) response in
      let recorded =
        record_step env plan approval entries step digests.0 digests.1 none
          "record backup drill rollback outcome" w in
      elim (Result-cases recorded.1) [
        | inl (e, bad) ↦ ground arith
        | inr (entries', good) ↦
            let (holds, grown, _) =
              record_step-ok env plan approval entries step digests.0 digests.1 none
                "record backup drill rollback outcome" w entries' here good in
            elim (Bool-cases (step_eq step rollback_failed)) [
              | inl lost ↦ ground arith
              | inr fine' ↦
                  let whole : append_rollback_terminal env plan approval entries step w
                      ≡ (recorded.0, ok tt) =
                    ground arith in
                  let undone : step ≡ rolled_back = ground arith in
                  subst IsUndone (sym (ap (λ p. p.0) whole)) (
                    entries',
                    holds,
                    ap last? grown ∙ last?-snoc (steps_of entries) step ∙ ap (λ s. some s) undone,
                  )
            ]
      ]

  outcome-is :
      (b : Bool)
      → ((if b then rolled_back else rollback_failed) ≡ rolled_back)
        ⊎ ((if b then rolled_back else rollback_failed) ≡ rollback_failed)
  outcome-is true = inl refl
  outcome-is false = inr refl

  rollback_request-Holds :
      (entries : List JournalEntry) (step : Step) (reason : String) (message : Error) (w : World)
      (entries' : List JournalEntry)
      → Holds w entries
      → (rollback_request env plan approval entries step reason message w).1.1 ≡ ok entries'
      → Holds (rollback_request env plan approval entries step reason message w).0 entries'
  unfolding rollback_request
  rollback_request-Holds entries step reason message w entries' (n, here) h =
      let request = new_rollback_request env.digest plan approval step (head_sha entries) in
      let response = recorded_response env request (invoke env request w).1 in
      (record_step-ok env plan approval entries step request.request_sha256
        (recorded_sha env reason response) response message (invoke env request w).0 entries'
        (n, invoke-file env request w ∙ here) h).0

  continue-IsUndone :
      (entries : List JournalEntry) (w : World)
      → Holds w entries
      → (continue_rollback_cleanup env plan approval entries w).1 ≡ ok tt
      → IsUndone (continue_rollback_cleanup env plan approval entries w).0
  unfolding continue_rollback_cleanup
  continue-IsUndone entries w here h =
      let asked =
        rollback_request env plan approval entries rollback_cleanup_requested
          "adapter-execution-failed" "record backup drill rollback cleanup request" w in
      elim (Result-cases asked.1.1) [
        | inl (e, bad) ↦ ground arith
        | inr (entries', good) ↦
            let holds =
              rollback_request-Holds entries rollback_cleanup_requested "adapter-execution-failed"
                "record backup drill rollback cleanup request" w entries' here good in
            let step : Step = if asked.1.0 then rolled_back else rollback_failed in
            let whole : continue_rollback_cleanup env plan approval entries w
                ≡ append_rollback_terminal env plan approval entries' step asked.0 =
              ground arith in
            subst IsUndone (sym (ap (λ p. p.0) whole)) (
              terminal-IsUndone entries' step asked.0 holds (outcome-is asked.1.0)
                (sym (ap (λ p. p.1) whole) ∙ h))
      ]

  begin-IsUndone :
      (entries : List JournalEntry) (w : World)
      → Holds w entries
      → (begin_rollback env plan approval entries w).1 ≡ ok tt
      → IsUndone (begin_rollback env plan approval entries w).0
  unfolding begin_rollback
  begin-IsUndone entries w here h =
      let asked =
        rollback_request env plan approval entries rollback_safe_stop "safe-stop-failed"
          "record backup drill rollback safe-stop" w in
      elim (Result-cases asked.1.1) [
        | inl (e, bad) ↦ ground arith
        | inr (entries', good) ↦
            let holds =
              rollback_request-Holds entries rollback_safe_stop "safe-stop-failed"
                "record backup drill rollback safe-stop" w entries' here good in
            elim (Bool-cases asked.1.0) [
              | inl stopped ↦
                  let whole : begin_rollback env plan approval entries w
                      ≡ continue_rollback_cleanup env plan approval entries' asked.0 =
                    ground arith in
                  subst IsUndone (sym (ap (λ p. p.0) whole))
                    (continue-IsUndone entries' asked.0 holds (sym (ap (λ p. p.1) whole) ∙ h))
              | inr stuck ↦
                  let whole : begin_rollback env plan approval entries w
                      ≡ append_rollback_terminal env plan approval entries' rollback_failed
                          asked.0 =
                    ground arith in
                  subst IsUndone (sym (ap (λ p. p.0) whole)) (
                    terminal-IsUndone entries' rollback_failed asked.0 holds (inr refl)
                      (sym (ap (λ p. p.1) whole) ∙ h))
            ]
      ]

  from-IsUndone :
      (entries : List JournalEntry) (last : JournalEntry) (w : World)
      → Holds w entries
      → last? entries ≡ some last
      → (rollback_from env plan approval entries last w).1 ≡ ok tt
      → IsUndone (rollback_from env plan approval entries last w).0
  unfolding rollback_from
  from-IsUndone entries last w here end h =
      let succeeded =
        rollback_response_succeeded env.digest plan approval (second_last? entries) last in
      let from = rollback_from env plan approval entries last w in
      elim (Bool-cases (step_eq last.step completed)) [
        | inl done ↦ ground arith
        | inr open' ↦ elim (Bool-cases (step_eq last.step rolled_back)) [
          | inl undone ↦
              let whole : from ≡ (w, ok tt) = ground arith in
              subst IsUndone (sym (ap (λ p. p.0) whole)) (
                entries,
                here,
                last-step_of entries last end
                    ∙ ap (λ s. some s) (step_eq_sound last.step rolled_back undone),
              )
          | inr going ↦ elim (Bool-cases (step_eq last.step rollback_failed)) [
            | inl lost ↦ ground arith
            | inr alive ↦ elim (Bool-cases (step_eq last.step rollback_safe_stop)) [
              | inl stopped ↦ elim (Bool-cases succeeded) [
                | inl well ↦
                    let whole : from ≡ continue_rollback_cleanup env plan approval entries w =
                      ground arith in
                    subst IsUndone (sym (ap (λ p. p.0) whole))
                      (continue-IsUndone entries w here (sym (ap (λ p. p.1) whole) ∙ h))
                | inr ill ↦
                    let whole : from
                        ≡ append_rollback_terminal env plan approval entries rollback_failed w =
                      ground arith in
                    subst IsUndone (sym (ap (λ p. p.0) whole)) (
                      terminal-IsUndone entries rollback_failed w here (inr refl)
                        (sym (ap (λ p. p.1) whole) ∙ h))
              ]
              | inr moving ↦ elim (Bool-cases (step_eq last.step rollback_cleanup_requested)) [
                | inl asked ↦
                    let step : Step = if succeeded then rolled_back else rollback_failed in
                    let whole : from ≡ append_rollback_terminal env plan approval entries step w =
                      ground arith in
                    subst IsUndone (sym (ap (λ p. p.0) whole)) (
                      terminal-IsUndone entries step w here (outcome-is succeeded)
                        (sym (ap (λ p. p.1) whole) ∙ h))
                | inr forward ↦
                    let whole : from ≡ begin_rollback env plan approval entries w = ground arith in
                    subst IsUndone (sym (ap (λ p. p.0) whole))
                      (begin-IsUndone entries w here (sym (ap (λ p. p.1) whole) ∙ h))
              ]
            ]
          ]
        ]
      ]

-- If Rollback returns no error then the file holds a journal whose last step is rolled-back.
pub rollback-IsUndone :
    (env : Env) (plan : Plan) (approval : ApprovalReport) (confirmation : String) (w : World)
    → (rollback env plan approval confirmation w).1 ≡ ok tt
    → IsUndone (rollback env plan approval confirmation w).0
unfolding rollback
rollback-IsUndone env plan approval confirmation w h =
    let message : Error = "backup drill rollback journal is unavailable" in
    let bound = bound_journal env plan approval confirmation message w in
    let (file, _, holds) = bound_journal_lem env plan approval confirmation message w in
    elim (Result-cases bound.1) [
      | inl (e, bad) ↦ ground arith
      | inr (read, good) ↦
          let (m, there) = holds read good in
          elim (Option-cases (last? read)) [
            | inl empty ↦ ground arith
            | inr (last, end) ↦
                let whole : rollback env plan approval confirmation w
                    ≡ rollback_from env plan approval read last bound.0 =
                  ground arith in
                subst IsUndone (sym (ap (λ p. p.0) whole)) (
                  from-IsUndone env plan approval read last bound.0 (m, file ∙ there) end
                    (sym (ap (λ p. p.1) whole) ∙ h))
          ]
    ]
