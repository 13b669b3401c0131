-- ===== src/Drill/Preflight.antt =====
-- pkg/backup/drill/engine.go: when Preflight runs the adapter, and what its report is good for.
use cloud_ring.Prelude.{
  ◌≡◌, refl, ap, ◌∙◌, ◌⊎◌, inl, inr, true, false, none, some, List, [], ◌∷◌, ◌++◌, map,
  Option-cases, Bool-cases, arith, eq_iff, if◌then◌else◌,
}
use cloud_ring.Drill.Steps.{preflight}
use cloud_ring.Drill.Types.{Plan, ApprovalReport, AdapterRequest, preflighting}
use cloud_ring.Drill.Digest.{adapter_request_sha256, approval_report_sha256}
use cloud_ring.Drill.Instant.{Instant, canonical_time}
use cloud_ring.Drill.Plans.{Error, validate_plan}
use cloud_ring.Drill.Responses.{
  is_fresh, new_adapter_request, validate_approval, validate_approval_binding,
  validate_adapter_response,
}
use cloud_ring.Drill.Binding.{is_some}
use cloud_ring.Drill.Store.{Result, ok, failed, Env, World, adapter_identity, invoke, run_count}
use cloud_ring.Drill.Engine.{
  adapter_bound, approval_report_of, run_preflight, validate_execution_input,
}
use cloud_ring.Drill.Rounds.{requested_steps, Invocation-cases}

-- The plan is valid, and its window is open at the time given; the adapter is the plan's.
abbrev pub IsReady : Env → Plan → Instant → Type 0
IsReady env plan now =
    (validate_plan plan ≡ none)
    × (is_fresh (canonical_time plan.issued_at) (canonical_time plan.expires_at) now ≡ true)
    × (adapter_bound env plan ≡ true)

abbrev pub IsUnready : Env → Plan → Instant → Type 0
IsUnready env plan now =
    ((e : Error) × (validate_plan plan ≡ some e))
    ⊎ (is_fresh (canonical_time plan.issued_at) (canonical_time plan.expires_at) now ≡ false)
    ⊎ (adapter_bound env plan ≡ false)

-- How Apply judges a report, confirmed with its own tuple, at a time: it accepts the report while the
-- plan's window is open.
abbrev pub IsGoodFor : Env → Plan → Instant → ApprovalReport → Type 0
IsGoodFor env plan later report =
    validate_execution_input env plan report report.approval_tuple later true ≡ (
      if is_fresh (canonical_time plan.issued_at) (canonical_time plan.expires_at) later
      then none
      else some "backup drill execution approval, confirmation, or adapter binding is invalid")

preflight-append :
    (env : Env) (plan : Plan) (requests : List AdapterRequest)
    → map
        (λ r. r.step)
        (requests ++ new_adapter_request env.digest plan none preflighting preflight "" ∷ [])
      ≡ map (λ r. r.step) requests ++ preflight ∷ []
unfolding new_adapter_request
preflight-append env plan [] = refl
preflight-append env plan (r ∷ requests) = ap (λ l. r.step ∷ l) (preflight-append env plan requests)

abbrev asked : Env → Plan → AdapterRequest
asked env plan = new_adapter_request env.digest plan none preflighting preflight ""

asked_hash :
    (env : Env) (plan : Plan)
    → (asked env plan).request_sha256 ≡ adapter_request_sha256 env.digest (asked env plan)
unfolding new_adapter_request adapter_request_sha256
asked_hash env plan = refl

asked_executable :
    (env : Env) (plan : Plan)
    → (asked env plan).adapter_executable_sha256 ≡ plan.adapter.executable_sha256
unfolding new_adapter_request
asked_executable env plan = refl

-- An adapter that is the plan's runs, whatever it answers.
invoke-bound :
    (env : Env) (plan : Plan) (w : World)
    → adapter_bound env plan ≡ true
    → ((invoke env (asked env plan) w).0.requests ≡ w.requests ++ asked env plan ∷ [])
      × ((invoke env (asked env plan) w).0.file ≡ w.file)
unfolding invoke adapter_bound is_some adapter_identity
invoke-bound env plan w h =
    let request = asked env plan in
    let hash = asked_hash env plan in
    let executable = asked_executable env plan in
    elim (Option-cases env.adapter) [
      | inl none' ↦ ground arith
      | inr (adapter, here) ↦
          let same_hash =
            eq_iff request.request_sha256 (adapter_request_sha256 env.digest request) in
          let same = eq_iff adapter.identity request.adapter_executable_sha256 in
          let bound = eq_iff adapter.identity plan.adapter.executable_sha256 in
          elim (Option-cases (adapter.run (run_count w.requests) request)) [
            | inl silent ↦ (ground arith, ground arith)
            | inr (r, answer) ↦
                elim (Option-cases (validate_adapter_response env.digest request r)) [
                  | inl valid ↦ (ground arith, ground arith)
                  | inr bad ↦ (ground arith, ground arith)
                ]
          ]
    ]

-- A report of the plan that is approved at one time is good for as long as the plan is.
validate_approval-IsGoodFor :
    (env : Env) (plan : Plan) (report : ApprovalReport) (now later : Instant)
    → report.issued_at ≡ plan.issued_at
    → report.expires_at ≡ plan.expires_at
    → adapter_bound env plan ≡ true
    → validate_approval env.digest plan report now ≡ none
    → IsGoodFor env plan later report
unfolding validate_approval validate_execution_input is_some
validate_approval-IsGoodFor env plan report now later issued expires bound h =
    let same = (eq_iff report.approval_tuple report.approval_tuple).1 refl in
    elim (Option-cases (validate_approval_binding env.digest plan report)) [
      | inr (e, bad) ↦ ground arith
      | inl valid ↦ ground arith
    ]

-- What Preflight does with a plan that is ready.
abbrev pub HasFlown : Env → Plan → Instant → World → World × Result ApprovalReport → Type 0
HasFlown env plan later w flown =
    (requested_steps flown.0 ≡ requested_steps w ++ preflight ∷ [])
    × (flown.0.file ≡ w.file)
    × (((e : Error) × (flown.1 ≡ failed e))
        ⊎ ((report : ApprovalReport) × (flown.1 ≡ ok report) × IsGoodFor env plan later report))

run_preflight-ready :
    (env : Env) (plan : Plan) (now later : Instant) (w : World)
    → IsReady env plan now
    → HasFlown env plan later w (run_preflight env plan now w)
unfolding run_preflight approval_report_of approval_report_sha256
run_preflight-ready env plan now later w (valid, fresh, bound) =
    let (ran, file) = invoke-bound env plan w bound in
    let steps = ap (map (λ r. r.step)) ran ∙ preflight-append env plan w.requests in
    elim (Invocation-cases (invoke env (asked env plan) w).1) [
      | inr (inl (r, e, bad)) ↦ (ground arith, ground arith, inl (e, ground arith))
      | inr (inr (e, bad)) ↦ (ground arith, ground arith, inl (e, ground arith))
      | inl (response, good) ↦
          let made = approval_report_of env plan response in
          elim (Option-cases (validate_approval env.digest plan made now)) [
            | inr (e, bad) ↦ (ground arith, ground arith, inl (e, ground arith))
            | inl approved ↦ (
              ground arith,
              ground arith,
              inr (
                made,
                ground arith,
                validate_approval-IsGoodFor env plan made now later refl refl bound approved,
              ),
            )
          ]
    ]

-- If the plan is not valid, or its window is not open, or the adapter is not the plan's, then
-- Preflight returns an error and neither runs the adapter nor changes anything else. Otherwise it
-- runs the adapter once, for the preflight, and leaves the file as it was, and if it returns a report
-- then the checks of Apply accept that report, confirmed with its tuple, at exactly the times at
-- which the plan's window is open.
pub run_preflight-outcome :
    (env : Env) (plan : Plan) (now later : Instant) (w : World)
    → (IsUnready env plan now × ((e : Error) × (run_preflight env plan now w ≡ (w, failed e))))
      ⊎ (IsReady env plan now × HasFlown env plan later w (run_preflight env plan now w))
unfolding run_preflight
run_preflight-outcome env plan now later w = elim (Bool-cases (adapter_bound env plan)) [
  | inr unbound ↦
      inl (inr (inr unbound), ("backup drill preflight input binding is invalid", ground arith))
  | inl bound ↦ elim (Option-cases (validate_plan plan)) [
    | inr (e, bad) ↦ inl (inl (e, bad), (e, ground arith))
    | inl valid ↦
        elim (Bool-cases
          (is_fresh (canonical_time plan.issued_at) (canonical_time plan.expires_at) now)) [
            | inr stale ↦
                inl (inr (inl stale), ("backup drill preflight plan is not fresh", ground arith))
            | inl fresh ↦ inr (
              (valid, fresh, bound),
              run_preflight-ready env plan now later w (valid, fresh, bound),
            )
          ]
  ]
]
