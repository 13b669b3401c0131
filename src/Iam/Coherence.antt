-- ===== src/Iam/Coherence.antt =====
-- pkg/iam: a decision is allowed exactly when it carries no error.
use cloud_ring.Prelude.{
  String, Bool, true, false, ◌≡◌, refl, Option, none, some, arith, Option-cases, inl, inr,
}
use cloud_ring.Prelude.Time.{Time}
use cloud_ring.Iam.Types.{Decision, AuthorizationRequest, Tenant, Project}
use cloud_ring.Iam.Rules.{
  evaluate_assurance, session_assurance, session_denied, denied_by, allowed_by,
}
use cloud_ring.Iam.Policy.{
  Policy, ResolvedSubject, found, missing, evaluate, evaluate_resolved, evaluate_credential,
  evaluate_break_glass, evaluate_support_grant, grant_decision, role_decision, owner_removal_denied,
  resolve_target,
}

abbrev pub is_none {ℓ} : {A : Type ℓ} → Option A → Bool
is_none none = true
is_none (some _) = false

abbrev pub IsCoherent : Decision → Type 0
IsCoherent d = d.allowed ≡ is_none d.err

evaluate_assurance_refuses :
    (r : AuthorizationRequest) (s : ResolvedSubject)
    → (evaluate_assurance r s.authn_class s.mfa s.session).allowed ≡ false
unfolding evaluate_assurance session_assurance session_denied denied_by
evaluate_assurance_refuses r s = ground arith

evaluate_break_glass-IsCoherent :
    (r : AuthorizationRequest) (s : ResolvedSubject) → IsCoherent (evaluate_break_glass r s)
unfolding evaluate_break_glass denied_by allowed_by
evaluate_break_glass-IsCoherent r s = ground arith

evaluate_support_grant-IsCoherent :
    (p : Policy) (r : AuthorizationRequest) (s : ResolvedSubject) (now : Time)
    → IsCoherent (evaluate_support_grant p r s now)
unfolding evaluate_support_grant grant_decision denied_by allowed_by
evaluate_support_grant-IsCoherent p r s now = ground arith

role_decision-IsCoherent :
    (r : AuthorizationRequest) (s : ResolvedSubject) → IsCoherent (role_decision r s)
unfolding role_decision denied_by allowed_by
role_decision-IsCoherent r s = ground arith

evaluate_credential-IsCoherent :
    (p : Policy) (r : AuthorizationRequest) (s : ResolvedSubject) (now : Time)
    → IsCoherent (evaluate_credential p r s now)
unfolding evaluate_credential denied_by allowed_by
evaluate_credential-IsCoherent p r s now = ground (
  arith,
  evaluate_break_glass-IsCoherent r s,
  evaluate_support_grant-IsCoherent p r s now,
  role_decision-IsCoherent r s,
)

owner_removal_refuses :
    (p : Policy) (t : String) (project : Project) {d : Decision}
    → owner_removal_denied p t project ≡ some d
    → IsCoherent d
unfolding owner_removal_denied denied_by
owner_removal_refuses p t project h = ground arith

evaluate_resolved-IsCoherent :
    (p : Policy) (r : AuthorizationRequest) (s : ResolvedSubject) (now : Time) (t : Tenant)
    (project : Project)
    → IsCoherent (evaluate_resolved p r s now t project)
unfolding evaluate_resolved denied_by
evaluate_resolved-IsCoherent p r s now t project =
    elim (Option-cases (owner_removal_denied p r.context.target_principal project)) [
      | inl e ↦ ground (arith, evaluate_credential-IsCoherent p r s now)
      | inr (d, e) ↦ ground (
        arith,
        owner_removal_refuses p r.context.target_principal project e,
        evaluate_credential-IsCoherent p r s now,
      )
    ]

pub evaluate-IsCoherent :
    (p : Policy) (r : AuthorizationRequest) (s : ResolvedSubject) (now : Time)
    → IsCoherent (evaluate p r s now)
unfolding evaluate denied_by
evaluate-IsCoherent p r s now =
    elim (resolve_target p r.target)
        as (λ x. resolve_target p r.target ≡ x → IsCoherent (evaluate p r s now)) [
          | missing e ↦ λ q. ground (arith, evaluate_assurance_refuses r s)
          | found t project ↦ λ q. ground (
            arith,
            evaluate_assurance_refuses r s,
            evaluate_resolved-IsCoherent p r s now t project,
          )
        ]
      refl
