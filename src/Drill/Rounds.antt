-- ===== src/Drill/Rounds.antt =====
-- pkg/backup/drill/engine.go: the rounds of runApply, with the file and the adapter's runs.
use cloud_ring.Prelude.{
  ◌≡◌, refl, sym, ap, ◌∙◌, subst, ◌⊎◌, inl, inr, ℕ, suc, ◌+◌, String, Option, none, some, List, [],
  ◌∷◌, ◌++◌, map, Bool-cases, Option-cases, arith, if◌then◌else◌,
}
use cloud_ring.Prelude.Lists.{length}
use cloud_ring.Drill.Steps.{Step, step_eq, mutation_started, proof_assembled}
use cloud_ring.Drill.Types.{
  Plan, ApprovalReport, AdapterRequest, AdapterResponse, JournalEntry, applying,
}
use cloud_ring.Drill.Plans.{Error}
use cloud_ring.Drill.Responses.{new_adapter_request, validate_adapter_response}
use cloud_ring.Drill.Journal.{new_journal_entry, steps_of}
use cloud_ring.Drill.Binding.{mutation_started_digests}
use cloud_ring.Drill.Receipts.{validate_proof_response}
use cloud_ring.Drill.Store.{
  ok, readable, Env, World, Invocation, unanswered, rejected, accepted, invoke, append, run_count,
  read_clock,
}
use cloud_ring.Drill.Phases.{append_assoc, append_nil, steps_of-append}
use cloud_ring.Drill.Appends.{Result-cases, append-outcome}
use cloud_ring.Drill.Loop.{record_entry, record_step, head_sha, run_step, run_steps}

-- The steps for which the adapter runs.
unfoldable pub adapter_steps : List Step → List Step
adapter_steps [] = []
adapter_steps (step ∷ steps) =
    if step_eq step mutation_started then adapter_steps steps else step ∷ adapter_steps steps

-- The steps of the requests that the adapter has run.
abbrev pub requested_steps : World → List Step
requested_steps w = map (λ request. request.step) w.requests

-- The journal of `entries` is in the file.
abbrev pub Holds : World → List JournalEntry → Type 0
Holds w entries = (n : ℕ) × (w.file ≡ readable entries n)

pub readable-injective :
    (xs ys : List JournalEntry) (m n : ℕ) → readable xs m ≡ readable ys n → xs ≡ ys
readable-injective xs ys m n e = ground arith

-- An append of an entry of the journal in the file: the entry stands at the end, in the file too.
record_entry-ok :
    (env : Env) (entries : List JournalEntry) (entry : JournalEntry) (message : Error) (w : World)
    (entries' : List JournalEntry)
    → Holds w entries
    → (record_entry env entries entry message w).1 ≡ ok entries'
    → Holds (record_entry env entries entry message w).0 entries'
      × (entries' ≡ entries ++ entry ∷ [])
      × ((record_entry env entries entry message w).0.requests ≡ w.requests)
unfolding record_entry
record_entry-ok env entries entry message w entries' (n, here) done =
    let (requests, outcome) = append-outcome env entry w in
    elim (Result-cases (append env entry w).1) [
      | inl (e, err) ↦ ground arith
      | inr (_, good) ↦ elim outcome [
        | inl ((e, err), _) ↦ ground arith
        | inr (read, m, there, _, _, after) ↦
            let same : read ≡ entries = readable-injective read entries m n (sym there ∙ here) in
            let grown : entries' ≡ entries ++ entry ∷ [] = ground arith in
            let whole : (record_entry env entries entry message w).0 ≡ (append env entry w).0 =
              ground arith in
            (
              (
                m + env.encoded_size entry,
                ap (λ v. v.file) whole
                    ∙ after
                    ∙ ap (λ l. readable (l ++ entry ∷ []) (m + env.encoded_size entry)) same
                    ∙ ap (λ l. readable l (m + env.encoded_size entry)) (sym grown),
              ),
              grown,
              ap (λ v. v.requests) whole ∙ requests,
            )
      ]
    ]

-- record_step that succeeds, in steps.
pub record_step-ok :
    (env : Env) (plan : Plan) (approval : ApprovalReport) (entries : List JournalEntry)
    (step : Step) (request_sha response_sha : String) (response : Option AdapterResponse)
    (message : Error) (w : World) (entries' : List JournalEntry)
    → Holds w entries
    → (record_step env plan approval entries step request_sha response_sha response message w).1
      ≡ ok entries'
    → Holds
        (record_step env plan approval entries step request_sha response_sha response message w).0
        entries'
      × (steps_of entries' ≡ steps_of entries ++ step ∷ [])
      × ((record_step env plan approval entries step request_sha response_sha response message
            w).0.requests
          ≡ w.requests)
unfolding record_step read_clock new_journal_entry
record_step-ok env plan approval entries step request_sha response_sha response message w entries'
      here done =
    let entry =
      new_journal_entry env.digest (env.clock w.clock_reads) (suc (length entries)) plan approval
        step request_sha response_sha (head_sha entries) response in
    let w' : World = record w { clock_reads = suc w.clock_reads } in
    let (holds, grown, requests) =
      record_entry-ok env entries entry message w' entries' here done in
    (holds, ap steps_of grown ∙ steps_of-append entries (entry ∷ []), requests)

-- An accepted invocation ran the adapter once, with its request, and left the file.
pub invoke-accepted :
    (env : Env) (request : AdapterRequest) (w : World) (response : AdapterResponse)
    → (invoke env request w).1 ≡ accepted response
    → ((invoke env request w).0.requests ≡ w.requests ++ request ∷ [])
      × ((invoke env request w).0.file ≡ w.file)
unfolding invoke
invoke-accepted env request w response done = elim (Option-cases env.adapter) [
  | inl none' ↦ ground arith
  | inr (adapter, here) ↦ elim (Option-cases (adapter.run (run_count w.requests) request)) [
    | inl silent ↦ ground arith
    | inr (r, answer) ↦ elim (Option-cases (validate_adapter_response env.digest request r)) [
      | inl valid ↦ (ground arith, ground arith)
      | inr bad ↦ ground arith
    ]
  ]
]

pub Invocation-cases :
    (i : Invocation)
    → ((response : AdapterResponse) × (i ≡ accepted response))
      ⊎ ((response : AdapterResponse) × (e : Error) × (i ≡ rejected response e))
      ⊎ ((e : Error) × (i ≡ unanswered e))
Invocation-cases (accepted response) = inl (response, refl)
Invocation-cases (rejected response e) = inr (inl (response, e, refl))
Invocation-cases (unanswered e) = inr (inr (e, refl))

-- The step of a request of `newAdapterRequest` is the one asked for.
requested-append :
    (env : Env) (plan : Plan) (approval : ApprovalReport) (step : Step) (previous : String)
    (requests : List AdapterRequest)
    → map
        (λ r. r.step)
        (requests
          ++ new_adapter_request env.digest plan (some approval) applying step previous ∷ [])
      ≡ map (λ r. r.step) requests ++ step ∷ []
unfolding new_adapter_request
requested-append env plan approval step previous [] = refl
requested-append env plan approval step previous (r ∷ requests) =
    ap (λ l. r.step ∷ l) (requested-append env plan approval step previous requests)

-- What a successful stretch of the loop did.
abbrev pub IsRound : List JournalEntry → World → List Step → World → List JournalEntry → Type 0
IsRound entries w steps w' entries' =
    Holds w' entries'
    × (steps_of entries' ≡ steps_of entries ++ steps)
    × (requested_steps w' ≡ requested_steps w ++ adapter_steps steps)

pub run_step-ok :
    (env : Env) (plan : Plan) (approval : ApprovalReport) (step : Step)
    (entries : List JournalEntry) (w : World) (entries' : List JournalEntry)
    → Holds w entries
    → (run_step env plan approval step entries w).1 ≡ ok entries'
    → IsRound entries w (step ∷ []) (run_step env plan approval step entries w).0 entries'
unfolding run_step adapter_steps
run_step-ok env plan approval step entries w entries' here done =
    let previous = head_sha entries in
    let request = new_adapter_request env.digest plan (some approval) applying step previous in
    elim (Bool-cases (step_eq step mutation_started)) [
      | inl marks ↦
          let (request_sha, response_sha) = mutation_started_digests env.digest plan previous in
          let whole : run_step env plan approval step entries w
              ≡ record_step env plan approval entries step request_sha response_sha none
                  "record backup drill mutation start" w =
            ground arith in
          let (holds, grown, requests) =
            record_step-ok env plan approval entries step request_sha response_sha none
              "record backup drill mutation start" w entries' here
              (sym (ap (λ p. p.1) whole) ∙ done) in
          let none' : adapter_steps (step ∷ []) ≡ [] = ground arith in
          (
            subst (λ p. Holds p.0 entries') (sym whole) holds,
            grown,
            ap (λ p. requested_steps p.0) whole
                ∙ ap (map (λ r. r.step)) requests
                ∙ sym (append_nil (requested_steps w))
                ∙ ap (λ l. requested_steps w ++ l) (sym none'),
          )
      | inr asks ↦ elim (Invocation-cases (invoke env request w).1) [
        | inr (inl (r, e, bad)) ↦ ground arith
        | inr (inr (e, bad)) ↦ ground arith
        | inl (response, good) ↦
            elim (Option-cases (
              if step_eq step proof_assembled
              then validate_proof_response plan response
              else none)) [
                | inr (e, bad) ↦ ground arith
                | inl valid ↦
                    let w' = (invoke env request w).0 in
                    let (ran, file) = invoke-accepted env request w response good in
                    let whole : run_step env plan approval step entries w
                        ≡ record_step env plan approval entries step request.request_sha256
                            response.response_sha256 (some response)
                            "append backup drill execution journal" w' =
                      ground arith in
                    let (holds, grown, requests) =
                      record_step-ok env plan approval entries step request.request_sha256
                        response.response_sha256 (some response)
                        "append backup drill execution journal" w' entries' (here.0, file ∙ here.1)
                        (sym (ap (λ p. p.1) whole) ∙ done) in
                    let one : adapter_steps (step ∷ []) ≡ step ∷ [] = ground arith in
                    (
                      subst (λ p. Holds p.0 entries') (sym whole) holds,
                      grown,
                      ap (λ p. requested_steps p.0) whole
                          ∙ ap (map (λ r. r.step)) (requests ∙ ran)
                          ∙ requested-append env plan approval step previous w.requests
                          ∙ ap (λ l. requested_steps w ++ l) (sym one),
                    )
              ]
      ]
    ]

adapter_steps-cons :
    (step : Step) (steps : List Step)
    → adapter_steps (step ∷ steps) ≡ adapter_steps (step ∷ []) ++ adapter_steps steps
unfolding adapter_steps
adapter_steps-cons step steps = elim (Bool-cases (step_eq step mutation_started)) [
  | inl marks ↦ ground arith
  | inr asks ↦ ground arith
]

-- If the loop of runApply ends without an error, for the steps ahead of a journal that the file
-- holds, then the file holds the journal that it returns, whose steps are the old ones and those
-- ahead; and the adapter has run once for each of those but mutation-started, in their order.
pub run_steps-IsRound :
    (env : Env) (plan : Plan) (approval : ApprovalReport) (steps : List Step)
    (entries : List JournalEntry) (w : World) (entries' : List JournalEntry)
    → Holds w entries
    → (run_steps env plan approval steps entries w).1 ≡ ok entries'
    → IsRound entries w steps (run_steps env plan approval steps entries w).0 entries'
unfolding run_steps adapter_steps
run_steps-IsRound env plan approval [] entries w entries' here done =
    let same : entries ≡ entries' = ground arith in
    (
      subst (Holds w) same here,
      ap steps_of (sym same) ∙ sym (append_nil (steps_of entries)),
      sym (append_nil (requested_steps w)),
    )
run_steps-IsRound env plan approval (step ∷ steps) entries w entries' here done =
    elim (Result-cases (run_step env plan approval step entries w).1) [
      | inl (e, bad) ↦ ground arith
      | inr (between, good) ↦
          let w' = (run_step env plan approval step entries w).0 in
          let (holds, grown, requests) =
            run_step-ok env plan approval step entries w between here good in
          let whole : run_steps env plan approval (step ∷ steps) entries w
              ≡ run_steps env plan approval steps between w' =
            ground arith in
          let (holds', grown', requests') =
            run_steps-IsRound env plan approval steps between w' entries' holds
              (sym (ap (λ p. p.1) whole) ∙ done) in
          (
            subst (λ p. Holds p.0 entries') (sym whole) holds',
            grown' ∙ ap (λ l. l ++ steps) grown ∙ append_assoc (steps_of entries) (step ∷ []) steps,
            ap (λ p. requested_steps p.0) whole
                ∙ requests'
                ∙ ap (λ l. l ++ adapter_steps steps) requests
                ∙ append_assoc (requested_steps w) (adapter_steps (step ∷ [])) (adapter_steps steps)
                ∙ ap (λ l. requested_steps w ++ l) (sym (adapter_steps-cons step steps)),
          )
    ]
