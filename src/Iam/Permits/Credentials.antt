-- ===== src/Iam/Permits/Credentials.antt =====
-- The credential-specific end of evaluate against its specification.
use cloud_ring.Prelude.{
  true, false, ◌≡◌, refl, ap, subst, inl, inr, ◌↔◌, none, List, [], ◌∷◌, arith, eq_iff, Bool-cases,
}
use cloud_ring.Prelude.Lists.{Some}
use cloud_ring.Prelude.Time.{Time}
use cloud_ring.Prelude.Text.{is_blank}
use cloud_ring.Iam.Types.{
  Action, project_read, project_write, project_manage, owner_remove, tenant_export, tenant_recover,
  AuthorizationRequest, ApiToken, SupportGrant, action_eq,
}
use cloud_ring.Iam.Rules.{allowed_by, denied_by, action_allowed}
use cloud_ring.Iam.Policy.{
  ResolvedSubject, evaluate_break_glass, grant_decision, evaluate_api_token, role_decision,
}
use cloud_ring.Iam.Roles.{Grants, role_allows_iff, role_allows-has_tenant_access}
use cloud_ring.Iam.Permits.{Lists, SupportPermits, TokenPermits}

action_eq_sound : (a b : Action) → action_eq a b ≡ true → a ≡ b
unfolding action_eq
action_eq_sound project_read project_read h = refl
action_eq_sound project_write project_write h = refl
action_eq_sound project_manage project_manage h = refl
action_eq_sound owner_remove owner_remove h = refl
action_eq_sound tenant_export tenant_export h = refl
action_eq_sound tenant_recover tenant_recover h = refl
action_eq_sound (Action.other s) (Action.other t) h = ap Action.other ((eq_iff s t).0 h)
action_eq_sound _ _ h = cc

action_eq_self : (a : Action) → action_eq a a ≡ true
unfolding action_eq
action_eq_self (Action.other s) = (eq_iff s s).1 refl
action_eq_self project_read = refl
action_eq_self _ = refl

pub action_eq_iff : (a b : Action) → (action_eq a b ≡ true) ↔ (a ≡ b)
action_eq_iff a b =
    (action_eq_sound a b, λ e. subst (λ x. action_eq a x ≡ true) e (action_eq_self a))

pub action_allowed_iff :
    (actions : List Action) (want : Action)
    → (action_allowed actions want ≡ true) ↔ Lists want actions
unfolding action_allowed
action_allowed_iff [] want = (λ h. cc h, λ h. absurd h)
action_allowed_iff (a ∷ actions) want =
    let (sound, complete) = action_allowed_iff actions want in
    let (eq, qe) = action_eq_iff a want in
    (
      λ h. elim (Bool-cases (action_eq a want)) [
        | inl e ↦ inl (eq e)
        | inr e ↦ inr (sound (ground arith))
      ],
      elim [ inl e ↦ rw (qe e) | inr l ↦ ground (arith, complete l) ],
    )

module _ (r : AuthorizationRequest) (s : ResolvedSubject) (now : Time) where
  pub grant_decision_sound :
      (grant : SupportGrant)
      → (grant_decision grant r s now).allowed ≡ true
      → SupportPermits r s now grant
  unfolding grant_decision denied_by
  grant_decision_sound grant h = ground (
    arith,
    (action_allowed_iff grant.actions r.action).0,
    eq_iff grant.reference r.support_grant_ref,
    eq_iff grant.subject_id s.principal.id,
    eq_iff r.context.ticket_ref grant.ticket_ref,
    eq_iff grant.tenant_id r.target.tenant_id,
    eq_iff grant.project_id r.target.project_id,
  )

  pub grant_decision_complete :
      (grant : SupportGrant)
      → SupportPermits r s now grant
      → (grant_decision grant r s now).allowed ≡ true
  unfolding grant_decision allowed_by
  grant_decision_complete grant h = ground (
    arith,
    (action_allowed_iff grant.actions r.action).1 h.10,
    eq_iff grant.reference r.support_grant_ref,
    eq_iff grant.subject_id s.principal.id,
    eq_iff r.context.ticket_ref grant.ticket_ref,
    eq_iff grant.tenant_id r.target.tenant_id,
    eq_iff grant.project_id r.target.project_id,
  )

  pub evaluate_api_token_sound :
      (token : ApiToken) → evaluate_api_token r token now ≡ none → TokenPermits r now token
  unfolding evaluate_api_token
  evaluate_api_token_sound token h = ground (
    arith,
    (action_allowed_iff token.scopes r.action).0,
    eq_iff token.secret_hash_ref "",
    eq_iff token.tenant_id r.target.tenant_id,
    eq_iff token.project_id r.target.project_id,
  )

  pub evaluate_api_token_complete :
      (token : ApiToken) → TokenPermits r now token → evaluate_api_token r token now ≡ none
  unfolding evaluate_api_token
  evaluate_api_token_complete token h = ground (
    arith,
    (action_allowed_iff token.scopes r.action).1 h.5,
    eq_iff token.secret_hash_ref "",
    eq_iff token.tenant_id r.target.tenant_id,
    eq_iff token.project_id r.target.project_id,
  )

  pub role_decision_sound :
      (role_decision r s).allowed ≡ true → Some (Grants r.action r.target) s.principal.memberships
  unfolding role_decision denied_by
  role_decision_sound h = (role_allows_iff s.principal r.action r.target).0 (ground arith)

  pub role_decision_complete :
      Some (Grants r.action r.target) s.principal.memberships → (role_decision r s).allowed ≡ true
  unfolding role_decision allowed_by
  role_decision_complete g =
      let e = (role_allows_iff s.principal r.action r.target).1 g in
      ground (arith, e, role_allows-has_tenant_access s.principal r.action r.target e)

  pub break_glass_sound :
      (evaluate_break_glass r s).allowed ≡ true
      → (is_blank r.context.reason ≡ false)
        × (is_blank r.context.ticket_ref ≡ false)
        × Some (Grants tenant_recover r.target) s.principal.memberships
  unfolding evaluate_break_glass denied_by
  break_glass_sound h = (
    ground arith,
    ground arith,
    (role_allows_iff s.principal tenant_recover r.target).0 (ground arith),
  )

  pub break_glass_complete :
      is_blank r.context.reason ≡ false
      → is_blank r.context.ticket_ref ≡ false
      → Some (Grants tenant_recover r.target) s.principal.memberships
      → (evaluate_break_glass r s).allowed ≡ true
  unfolding evaluate_break_glass allowed_by
  break_glass_complete reason ticket g =
      ground (arith, (role_allows_iff s.principal tenant_recover r.target).1 g)
