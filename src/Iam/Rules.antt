-- ===== src/Iam/Rules.antt =====
-- pkg/iam/rules.go: the rules that need no policy state.
use cloud_ring.Prelude.{
  String, Bool, true, false, not, ◌&&◌, ◌||◌, Option, none, some, List, [], ◌∷◌, ◌==◌,
  if◌then◌else◌,
}
use cloud_ring.Prelude.Lists.{any}
use cloud_ring.Prelude.Int.{pos, leb_ℤ, eqb_ℤ}
use cloud_ring.Iam.Types.{
  IamError, Action, project_read, project_write, project_manage, owner_remove, tenant_export,
  tenant_recover, Role, owner, tenant_admin, tenant_viewer, platform_admin, TenantState, active,
  suspended, deleting, recovering, exporting, CredentialClass, short_lived_api_token,
  MfaMethodClass, totp, webauthn, hardware_key, external_idp, MfaAssurance, SessionAssurance,
  Membership, Principal, Project, NamespaceScope, TargetRef, AuthorizationRequest, Decision,
  action_eq, credential_eq, is_platform_admin, is_tenant_admin, is_owner, is_fresh, is_absent,
  no_decision,
}

-- allow and deny of policy.go
unfoldable pub allowed_by : String → Decision
allowed_by rule = record no_decision { allowed = true; policy_rule = rule }

unfoldable pub denied_by : IamError → String → Decision
denied_by e rule = record no_decision { err = some e; policy_rule = rule }

unfoldable pub known_satisfied_mfa_method : MfaMethodClass → Bool
known_satisfied_mfa_method totp = true
known_satisfied_mfa_method webauthn = true
known_satisfied_mfa_method hardware_key = true
known_satisfied_mfa_method external_idp = true
known_satisfied_mfa_method _ = false

unfoldable pub normalized_mfa : AuthorizationRequest → CredentialClass → MfaAssurance → MfaAssurance
unfolding credential_eq action_eq
normalized_mfa request credential mfa =
    if not (credential_eq credential short_lived_api_token)
      && (not (action_eq request.action project_read)
          || not (request.support_grant_ref == "")
          || request.break_glass)
    then record mfa { required = true }
    else mfa

unfoldable pub principal_requires_mfa : Principal → Bool
principal_requires_mfa principal =
    if principal.support
    then true
    else any (λ (m : Membership). is_platform_admin m.role) principal.memberships

unfoldable pub session_denied : Decision
unfolding denied_by
session_denied = denied_by IamError.session_assurance "session_assurance_denied"

-- The checks of evaluateAssurance behind the one for MFA.
unfoldable pub session_assurance : CredentialClass → SessionAssurance → Decision
unfolding session_denied credential_eq
session_assurance credential session =
    if credential_eq credential short_lived_api_token
    then if not (is_absent session.state)
        || not (eqb_ℤ session.max_age_seconds (pos 0))
        || session.reauthentication_required
      then session_denied
      else no_decision
    else if not (is_fresh session.state)
        || leb_ℤ session.max_age_seconds (pos 0)
        || session.reauthentication_required
    then session_denied
    else no_decision

unfoldable pub evaluate_assurance :
    AuthorizationRequest → CredentialClass → MfaAssurance → SessionAssurance → Decision
evaluate_assurance request credential subject_mfa session =
    let mfa = normalized_mfa request credential subject_mfa in
    if mfa.required && (not mfa.satisfied || not (known_satisfied_mfa_method mfa.method_class))
    then denied_by IamError.mfa_required "mfa_required"
    else session_assurance credential session

unfoldable pub known_action : Action → Bool
known_action (Action.other _) = false
known_action _ = true

unfoldable pub lifecycle_allows : TenantState → Action → Option IamError
lifecycle_allows active action = none
lifecycle_allows suspended tenant_export = none
lifecycle_allows suspended tenant_recover = none
lifecycle_allows suspended project_read = none
lifecycle_allows suspended _ = some IamError.tenant_suspended
lifecycle_allows deleting tenant_export = none
lifecycle_allows deleting project_read = none
lifecycle_allows deleting _ = some IamError.tenant_deleting
lifecycle_allows recovering tenant_recover = none
lifecycle_allows recovering project_read = none
lifecycle_allows recovering _ = some IamError.tenant_suspended
lifecycle_allows exporting tenant_export = none
lifecycle_allows exporting project_read = none
lifecycle_allows exporting _ = some IamError.tenant_suspended
lifecycle_allows (TenantState.other _) _ = some IamError.tenant_state

unfoldable pub action_allowed : List Action → Action → Bool
action_allowed [] want = false
action_allowed (action ∷ actions) want =
    if action_eq action want then true else action_allowed actions want

-- The tests that a membership reaches to the target, behind `continue`.
abbrev pub in_tenant : Membership → TargetRef → Bool
in_tenant m target = m.org_id == target.org_id && m.tenant_id == target.tenant_id

abbrev pub in_project : Membership → TargetRef → Bool
in_project m target = m.project_id == "" || m.project_id == target.project_id

unfoldable pub has_access_by : List Membership → TargetRef → Bool
has_access_by [] target = false
has_access_by (m ∷ ms) target =
    if is_platform_admin m.role
    then true
    else if in_tenant m target && in_project m target
    then true
    else has_access_by ms target

unfoldable pub has_tenant_access : Principal → TargetRef → Bool
unfolding has_access_by
has_tenant_access principal target = has_access_by principal.memberships target

unfoldable pub membership_role_allows : Role → Action → Bool
membership_role_allows owner project_read = true
membership_role_allows owner project_write = true
membership_role_allows owner project_manage = true
membership_role_allows owner owner_remove = true
membership_role_allows owner _ = false
membership_role_allows tenant_admin project_read = true
membership_role_allows tenant_admin project_write = true
membership_role_allows tenant_admin project_manage = true
membership_role_allows tenant_admin _ = false
membership_role_allows tenant_viewer project_read = true
membership_role_allows tenant_viewer _ = false
membership_role_allows Role.support project_read = true
membership_role_allows Role.support _ = false
membership_role_allows platform_admin _ = true
membership_role_allows (Role.other _) _ = false

unfoldable pub role_allows_by : List Membership → Action → TargetRef → Bool
role_allows_by [] action target = false
role_allows_by (m ∷ ms) action target =
    let rest = role_allows_by ms action target in
    if is_platform_admin m.role
    then true
    else if not (in_tenant m target)
    then rest
    else if not (in_project m target)
    then rest
    else if membership_role_allows m.role action
    then true
    else rest

unfoldable pub role_allows : Principal → Action → TargetRef → Bool
unfolding role_allows_by
role_allows principal action target = role_allows_by principal.memberships action target

-- The text of a role, string(membership.Role)
abbrev pub role_text : Role → String
role_text owner = "owner"
role_text tenant_admin = "tenant_admin"
role_text tenant_viewer = "tenant_viewer"
role_text Role.support = "support"
role_text platform_admin = "platform_admin"
role_text (Role.other s) = s

unfoldable pub rule_by : List Membership → Action → TargetRef → String
rule_by [] action target = "role_denied"
rule_by (m ∷ ms) action target =
    let rest = rule_by ms action target in
    if is_platform_admin m.role
    then "platform_admin_lifecycle"
    else if not (in_tenant m target)
    then rest
    else if not (in_project m target)
    then rest
    else if is_tenant_admin m.role && action_eq action project_manage
    then "tenant_admin_project_manage"
    else if membership_role_allows m.role action
    then role_text m.role
    else rest

unfoldable pub rule_for_role : Principal → Action → TargetRef → String
unfolding rule_by action_eq membership_role_allows
rule_for_role principal action target = rule_by principal.memberships action target

unfoldable pub scope_covers : List NamespaceScope → String → Action → Bool
scope_covers [] namespace action = false
scope_covers (scope ∷ scopes) namespace action =
    if scope.namespace == namespace && action_allowed scope.actions action
    then true
    else scope_covers scopes namespace action

unfoldable pub target_within_project_scope : TargetRef → Project → Action → Bool
unfolding scope_covers
target_within_project_scope target project action =
    if target.namespace == ""
    then false
    else if not (project.namespace == "") && target.namespace == project.namespace
    then true
    else scope_covers project.scopes target.namespace action

unfoldable pub same_project : Membership → Project → Bool
same_project m project =
    m.org_id == project.org_id && m.tenant_id == project.tenant_id && m.project_id == project.id

unfoldable pub principal_owns : Principal → Project → Bool
unfolding same_project
principal_owns principal project =
    any (λ (m : Membership). is_owner m.role && same_project m project) principal.memberships
