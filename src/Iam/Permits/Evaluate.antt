-- ===== src/Iam/Permits/Evaluate.antt =====
-- evaluate of pkg/iam permits exactly what its specification permits.
use cloud_ring.Prelude.{
  true, false, not, ◌&&◌, ◌≡◌, refl, ◌⊎◌, inl, inr, ◌↔◌, Option, none, some, ◌==◌, arith, eq_iff,
  Bool-cases, Option-cases, if◌then◌else◌,
}
use cloud_ring.Prelude.Lists.{lookup}
use cloud_ring.Prelude.Time.{Time}
use cloud_ring.Iam.Types.{
  IamError, tenant_recover, owner_remove, AuthorizationRequest, Tenant, Project, Decision,
  action_eq,
}
use cloud_ring.Iam.Rules.{
  allowed_by, denied_by, evaluate_assurance, session_assurance, session_denied, known_action,
  lifecycle_allows, target_within_project_scope,
}
use cloud_ring.Iam.Policy.{
  Policy, ResolvedSubject, Resolved, found, missing, evaluate, evaluate_resolved,
  evaluate_credential, evaluate_support_grant, owner_removal_denied, resolve_target,
}
use cloud_ring.Iam.Permits.{
  CredentialPermits, by_break_glass, by_support, by_token, by_role, Permits,
}
use cloud_ring.Iam.Permits.Guards.{
  lifecycle_allows_iff, InScope-iff, resolve_sound, resolve_complete, Removable-sound,
  Removable-complete,
}
use cloud_ring.Iam.Permits.Assurance.{assurance_of, IsAssured-sound, IsAssured-complete}
use cloud_ring.Iam.Permits.Credentials.{
  action_eq_iff, grant_decision_sound, grant_decision_complete, evaluate_api_token_sound,
  evaluate_api_token_complete, role_decision_sound, role_decision_complete, break_glass_sound,
  break_glass_complete,
}

credential_sound :
    (p : Policy) (r : AuthorizationRequest) (s : ResolvedSubject) (now : Time)
    → (evaluate_credential p r s now).allowed ≡ true
    → CredentialPermits p r s now
unfolding evaluate_credential evaluate_support_grant denied_by
credential_sound p r s now h = elim (Bool-cases r.break_glass) [
  | inl b ↦
      let (reason, ticket, g) = break_glass_sound r s now (ground arith) in
      by_break_glass b reason ticket g
  | inr b ↦ elim (Bool-cases (r.support_grant_ref == "")) [
    | inr n ↦ elim (Option-cases (lookup r.support_grant_ref p.support_grants)) [
      | inl e ↦ absurd (ground arith)
      | inr (grant, e) ↦
          by_support b (ground (arith, eq_iff r.support_grant_ref "")) grant e
            (grant_decision_sound r s now grant (ground arith))
    ]
    | inl n ↦ elim (Bool-cases (r.subject.api_token_ref == "")) [
      | inr a ↦
          by_token b ((eq_iff r.support_grant_ref "").0 n)
            (ground (arith, eq_iff r.subject.api_token_ref ""))
            (evaluate_api_token_sound r s now s.api_grant (ground arith))
      | inl a ↦
          by_role b ((eq_iff r.support_grant_ref "").0 n) ((eq_iff r.subject.api_token_ref "").0 a)
            (role_decision_sound r s now (ground arith))
    ]
  ]
]

credential_complete :
    (p : Policy) (r : AuthorizationRequest) (s : ResolvedSubject) (now : Time)
    → CredentialPermits p r s now
    → (evaluate_credential p r s now).allowed ≡ true
unfolding evaluate_credential evaluate_support_grant allowed_by
credential_complete p r s now (by_break_glass b reason ticket g) =
    ground (arith, break_glass_complete r s now reason ticket g)
credential_complete p r s now (by_support b n grant e g) =
    ground (arith, grant_decision_complete r s now grant g, eq_iff r.support_grant_ref "")
credential_complete p r s now (by_token b n a g) = ground (
  arith,
  evaluate_api_token_complete r s now s.api_grant g,
  eq_iff r.support_grant_ref "",
  eq_iff r.subject.api_token_ref "",
)
credential_complete p r s now (by_role b n a g) = ground (
  arith,
  role_decision_complete r s now g,
  eq_iff r.support_grant_ref "",
  eq_iff r.subject.api_token_ref "",
)

Resolved-cases :
    (x : Resolved)
    → ((e : IamError) × (x ≡ missing e))
      ⊎ ((t : Tenant) × (project : Project) × (x ≡ found t project))
Resolved-cases (missing e) = inl (e, refl)
Resolved-cases (found t project) = inr (t, project, refl)

abbrev owner_check : Policy → AuthorizationRequest → Project → Option Decision
owner_check p r project =
    if action_eq r.action owner_remove
    then owner_removal_denied p r.context.target_principal project
    else none

owner_check_refuses :
    (p : Policy) (r : AuthorizationRequest) (project : Project) {d : Decision}
    → owner_check p r project ≡ some d
    → d.allowed ≡ false
unfolding owner_removal_denied denied_by
owner_check_refuses p r project h = ground arith

module _ (p : Policy) (r : AuthorizationRequest) (s : ResolvedSubject) (now : Time) where
  refused_assurance : (assurance_of r s).allowed ≡ false
  unfolding evaluate_assurance session_assurance session_denied denied_by
  refused_assurance = ground arith

  evaluate_resolved-parts :
      (t : Tenant) (project : Project)
      → (evaluate_resolved p r s now t project).allowed ≡ true
      → (target_within_project_scope r.target project r.action ≡ true)
        × (lifecycle_allows t.state r.action ≡ none)
        × (owner_check p r project ≡ none)
        × ((evaluate_credential p r s now).allowed ≡ true)
  unfolding evaluate_resolved denied_by
  evaluate_resolved-parts t project h = elim (Option-cases (owner_check p r project)) [
    | inl e ↦ ground arith
    | inr (d, e) ↦ ground (arith, owner_check_refuses p r project e)
  ]

  evaluate_resolved-whole :
      (t : Tenant) (project : Project)
      → target_within_project_scope r.target project r.action ≡ true
      → lifecycle_allows t.state r.action ≡ none
      → owner_check p r project ≡ none
      → (evaluate_credential p r s now).allowed ≡ true
      → (evaluate_resolved p r s now t project).allowed ≡ true
  unfolding evaluate_resolved
  evaluate_resolved-whole t project scope life own cred = ground arith

  evaluate-parts :
      (evaluate p r s now).allowed ≡ true
      → (known_action r.action ≡ true)
        × ((assurance_of r s).err ≡ none)
        × ((action_eq r.action tenant_recover && not r.break_glass) ≡ false)
        × ((t : Tenant) × (project : Project) × (resolve_target p r.target ≡ found t project)
            × ((evaluate_resolved p r s now t project).allowed ≡ true))
  unfolding evaluate denied_by
  evaluate-parts h = elim (Resolved-cases (resolve_target p r.target)) [
    | inl (e, q) ↦ absurd (ground (arith, refused_assurance))
    | inr (t, project, q) ↦ (
      ground (arith, refused_assurance),
      ground (arith, refused_assurance),
      ground (arith, refused_assurance),
      (t, project, q, ground (arith, refused_assurance)),
    )
  ]

  evaluate-whole :
      (t : Tenant) (project : Project)
      → known_action r.action ≡ true
      → (assurance_of r s).err ≡ none
      → (action_eq r.action tenant_recover && not r.break_glass) ≡ false
      → resolve_target p r.target ≡ found t project
      → (evaluate_resolved p r s now t project).allowed ≡ true
      → (evaluate p r s now).allowed ≡ true
  unfolding evaluate
  evaluate-whole t project known assured rec res ok = ground arith

  evaluate_sound : (evaluate p r s now).allowed ≡ true → Permits p r s now
  evaluate_sound h =
      let (known, assured, rec, (t, project, res, ok)) = evaluate-parts h in
      let (scope, life, own, cred) = evaluate_resolved-parts t project ok in
      record {
        known = known;
        assured = IsAssured-sound r s assured;
        recovers_by_break_glass = λ e. ground (arith, (action_eq_iff r.action tenant_recover).1 e);
        tenant = t;
        project = project;
        resolves = resolve_sound p r.target res;
        in_scope = (InScope-iff r.target project r.action).0 scope;
        lifecycle = (lifecycle_allows_iff t.state r.action).0 life;
        owner_kept = λ e.
            Removable-sound p r.context.target_principal project
              (ground (arith, (action_eq_iff r.action owner_remove).1 e));
        credential = credential_sound p r s now cred;
      }

  evaluate_complete : Permits p r s now → (evaluate p r s now).allowed ≡ true
  evaluate_complete h =
      let rec : (action_eq r.action tenant_recover && not r.break_glass) ≡ false =
        elim (Bool-cases (action_eq r.action tenant_recover)) [
          | inl e ↦
              ground
                (arith, h.recovers_by_break_glass ((action_eq_iff r.action tenant_recover).0 e))
          | inr e ↦ ground arith
        ] in
      let own : owner_check p r h.project ≡ none =
        elim (Bool-cases (action_eq r.action owner_remove)) [
          | inl e ↦ ground (
            arith,
            Removable-complete p r.context.target_principal h.project
                (h.owner_kept ((action_eq_iff r.action owner_remove).0 e)),
          )
          | inr e ↦ ground arith
        ] in
      evaluate-whole h.tenant h.project h.known (IsAssured-complete r s h.assured) rec
        (resolve_complete p r.target h.resolves)
        (evaluate_resolved-whole h.tenant h.project
          ((InScope-iff r.target h.project r.action).1 h.in_scope)
          ((lifecycle_allows_iff h.tenant.state r.action).1 h.lifecycle) own
          (credential_complete p r s now h.credential))

  -- evaluate allows a request exactly when the specification permits it.
  pub evaluate_iff : ((evaluate p r s now).allowed ≡ true) ↔ Permits p r s now
  evaluate_iff = (evaluate_sound, evaluate_complete)
