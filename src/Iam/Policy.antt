-- ===== src/Iam/Policy.antt =====
-- pkg/iam/policy.go: the policy's state, and how it resolves and evaluates a request. A call reads
-- the clock once; `now` is that reading.
use cloud_ring.Prelude.{
  ℕ, ◌-◌, ◌*◌, ◌/◌, String, Bool, true, false, not, ◌&&◌, ◌||◌, Option, none, some, List, [], ◌∷◌,
  ◌==◌, if◌then◌else◌, leb,
}
use cloud_ring.Prelude.Lists.{Map, lookup, contains, length}
use cloud_ring.Prelude.Int.{pos, negsuc, ltb_ℤ, leb_ℤ}
use cloud_ring.Prelude.Time.{Time, Duration, second, minute, hour, is_zero, before, after, add}
use cloud_ring.Prelude.Text.{is_blank}
use cloud_ring.Iam.Types.{
  IamError, owner_remove, tenant_recover, short_lived_api_token, CredentialClass,
  AuthenticationResult, Organization, Tenant, Project, Principal, TargetRef, AuthorizationRequest,
  Decision, ApiToken, SupportGrant, MfaAssurance, SessionAssurance, AuthenticationProof, action_eq,
  credential_eq,
}
use cloud_ring.Iam.Rules.{
  allowed_by, denied_by, evaluate_assurance, known_action, lifecycle_allows, action_allowed,
  has_tenant_access, role_allows, rule_for_role, target_within_project_scope, principal_owns,
}

-- The fields that decide; the audit sink and the verifier are arguments of `Authorize`.
pub record Policy : Type 0 where
  pub organizations : Map Organization
  pub tenants : Map Tenant
  pub projects : Map Project
  pub principals : Map Principal
  pub api_tokens : Map ApiToken
  pub support_grants : Map SupportGrant
  pub proof_max_age : Duration
  pub proof_skew : Duration
  pub allow_ephemeral_audit : Bool

pub record ResolvedSubject : Type 0 where
  pub principal : Principal
  pub actor : String
  pub represented : String
  pub api_grant : ApiToken
  pub authn_class : CredentialClass
  pub mfa : MfaAssurance
  pub session : SessionAssurance
  pub proof : AuthenticationProof

-- policy.proofMaxAge / time.Second as an int64; only read where the age is positive
abbrev pub seconds_of : Duration → ℕ
seconds_of (pos d) = d / second
seconds_of (negsuc d) = 0

abbrev pub max_duration : ℕ
max_duration = 9223372036854775807

-- now.Sub(verifiedAt), which saturates, and then no less than 0
abbrev pub proof_age : Time → Time → ℕ
proof_age now verified_at =
    if leb max_duration (now - verified_at) then max_duration else now - verified_at

unfoldable pub session_age_valid : Policy → AuthenticationResult → ℕ → Bool
session_age_valid policy result age =
    not (leb_ℤ result.session.max_age_seconds (pos 0))
    && leb_ℤ result.session.max_age_seconds (pos (seconds_of policy.proof_max_age))
    && elim result.session.max_age_seconds [ pos s ↦ leb age (s * second) | negsuc s ↦ false ]

-- Whether validateAuthenticationProof returns nil.
unfoldable pub valid_proof : Policy → AuthenticationResult → Time → Bool
valid_proof policy result now =
    let proof = result.proof in
    let age = proof_age now proof.verified_at in
    if leb_ℤ policy.proof_max_age (pos 0)
      || ltb_ℤ (pos (24 * hour)) policy.proof_max_age
      || ltb_ℤ policy.proof_skew (pos 0)
      || ltb_ℤ (pos (5 * minute)) policy.proof_skew
    then false
    else if is_zero proof.verified_at
        || is_zero proof.expires_at
        || not (after proof.expires_at proof.verified_at)
        || not (before now proof.expires_at)
        || after proof.verified_at (add now policy.proof_skew)
    then false
    else if ltb_ℤ policy.proof_max_age (pos age)
    then false
    else if not (credential_eq result.credential_class short_lived_api_token)
    then session_age_valid policy result age
    else true

-- The looked-up value, if its own identity agrees.
unfoldable pub organization_of : Policy → TargetRef → Option Organization
organization_of policy target = elim (lookup target.org_id policy.organizations) [
  | none ↦ none
  | some o ↦ if o.id == target.org_id then some o else none
]

unfoldable pub tenant_of : Policy → TargetRef → Option Tenant
tenant_of policy target = elim (lookup target.tenant_id policy.tenants) [
  | none ↦ none
  | some t ↦ if t.id == target.tenant_id && t.org_id == target.org_id then some t else none
]

unfoldable pub project_of : Policy → TargetRef → Option Project
project_of policy target = elim (lookup target.project_id policy.projects) [
  | none ↦ none
  | some p ↦
      if p.id == target.project_id && p.tenant_id == target.tenant_id && p.org_id == target.org_id
      then some p
      else none
]

pub data Resolved : Type 0 where
  found : Tenant → Project → Resolved
  missing : IamError → Resolved

unfoldable pub resolve_target : Policy → TargetRef → Resolved
resolve_target policy target = elim (organization_of policy target) [
  | none ↦ missing IamError.unknown_tenant
  | some _ ↦ elim (tenant_of policy target) [
    | none ↦ missing IamError.unknown_tenant
    | some tenant ↦ elim (project_of policy target) [
      | none ↦ missing IamError.unknown_project
      | some project ↦ found tenant project
    ]
  ]
]

-- The range over policy.Principals in removingLastOwner, with the identities and the owners so far;
-- `none` is the early return of true.
unfoldable pub owners_in :
    Project → List String → List String → Map Principal → Option (List String)
owners_in project identities owners [] = some owners
owners_in project identities owners ((reference, principal) ∷ rest) =
    let more =
      owners_in project (principal.id ∷ identities)
        (if principal_owns principal project && not (contains owners principal.id)
          then principal.id ∷ owners
          else owners)
        rest in
    if reference == "" || principal.id == "" || not (reference == principal.id)
    then none
    else if contains identities principal.id
    then none
    else more

unfoldable pub removing_last_owner : Policy → String → Project → Bool
removing_last_owner policy target_principal project =
    if target_principal == "" then true else elim (owners_in project [] [] policy.principals) [
      | none ↦ true
      | some owners ↦ not (contains owners target_principal) || leb (length owners) 1
    ]

-- The error of the owner checks in evaluate, with its rule.
unfoldable pub owner_removal_denied : Policy → String → Project → Option Decision
owner_removal_denied policy target_principal project =
    elim (lookup target_principal policy.principals) [
      | none ↦ some (denied_by IamError.target_principal "owner_target_denied")
      | some p ↦
          if not (p.id == target_principal) || not (principal_owns p project)
          then some (denied_by IamError.target_principal "owner_target_denied")
          else if removing_last_owner policy target_principal project
          then some (denied_by IamError.last_owner "last_owner_guard")
          else none
    ]

unfoldable pub evaluate_break_glass : AuthorizationRequest → ResolvedSubject → Decision
evaluate_break_glass request subject =
    if is_blank request.context.reason
    then denied_by IamError.reason_required "break_glass_reason_required"
    else if is_blank request.context.ticket_ref
    then denied_by IamError.ticket_required "break_glass_ticket_required"
    else if not (role_allows subject.principal tenant_recover request.target)
    then denied_by IamError.role_denied "role_denied"
    else allowed_by "break_glass"

unfoldable pub grant_decision :
    SupportGrant → AuthorizationRequest → ResolvedSubject → Time → Decision
grant_decision grant request subject now =
    if not (grant.reference == request.support_grant_ref)
      || not (grant.subject_id == subject.principal.id)
    then denied_by IamError.support_grant "support_grant_denied"
    else if not subject.principal.support
    then denied_by IamError.support_grant "support_grant_denied"
    else if is_blank request.context.ticket_ref
        || not (request.context.ticket_ref == grant.ticket_ref)
    then denied_by IamError.ticket_required "support_ticket_required"
    else if is_blank request.context.reason || is_blank grant.reason
    then denied_by IamError.reason_required "support_reason_required"
    else if is_zero grant.expires_at || not (before now grant.expires_at)
    then denied_by IamError.support_grant "support_grant_denied"
    else if not (grant.tenant_id == request.target.tenant_id)
        || not (grant.project_id == request.target.project_id)
    then denied_by IamError.cross_tenant "cross_tenant_denied"
    else if not (action_allowed grant.actions request.action)
    then denied_by IamError.support_grant "support_grant_denied"
    else allowed_by "support_grant"

unfoldable pub evaluate_support_grant :
    Policy → AuthorizationRequest → ResolvedSubject → Time → Decision
evaluate_support_grant policy request subject now =
    elim (lookup request.support_grant_ref policy.support_grants) [
      | none ↦ denied_by IamError.support_grant "support_grant_denied"
      | some grant ↦ grant_decision grant request subject now
    ]

unfoldable pub evaluate_api_token : AuthorizationRequest → ApiToken → Time → Option IamError
evaluate_api_token request token now =
    if is_zero token.revoked_at && not (is_zero token.expires_at) && before now token.expires_at
    then if not (token.tenant_id == request.target.tenant_id)
        || not (token.project_id == request.target.project_id)
      then some IamError.cross_tenant
      else if token.secret_hash_ref == "" || not (action_allowed token.scopes request.action)
      then some IamError.token_scope
      else none
    else if not (is_zero token.revoked_at)
    then some IamError.token_revoked
    else some IamError.token_expired

unfoldable pub role_decision : AuthorizationRequest → ResolvedSubject → Decision
role_decision request subject =
    if not (has_tenant_access subject.principal request.target)
    then denied_by IamError.cross_tenant "cross_tenant_denied"
    else if not (role_allows subject.principal request.action request.target)
    then denied_by IamError.role_denied "role_denied"
    else allowed_by (rule_for_role subject.principal request.action request.target)

-- The credential-specific end of evaluate.
unfoldable pub evaluate_credential :
    Policy → AuthorizationRequest → ResolvedSubject → Time → Decision
evaluate_credential policy request subject now =
    if request.break_glass
    then evaluate_break_glass request subject
    else if not (request.support_grant_ref == "")
    then evaluate_support_grant policy request subject now
    else if not (request.subject.api_token_ref == "")
    then elim (evaluate_api_token request subject.api_grant now) [
      | none ↦ allowed_by "api_token_scope"
      | some e ↦ denied_by e "api_token_denied"
    ]
    else role_decision request subject

-- evaluate, from where the target is resolved.
unfoldable pub evaluate_resolved :
    Policy → AuthorizationRequest → ResolvedSubject → Time → Tenant → Project → Decision
evaluate_resolved policy request subject now tenant project =
    if not (target_within_project_scope request.target project request.action)
    then denied_by IamError.object_scope "object_scope_denied"
    else elim (lifecycle_allows tenant.state request.action) [
      | some e ↦ denied_by e "tenant_lifecycle_write_denied"
      | none ↦
          elim (if action_eq request.action owner_remove
            then owner_removal_denied policy request.context.target_principal project
            else none) [
              | some denied ↦ denied
              | none ↦ evaluate_credential policy request subject now
            ]
    ]

abbrev pub evaluate_target :
    Policy → AuthorizationRequest → ResolvedSubject → Time → Resolved → Decision
evaluate_target policy request subject now (missing e) = denied_by e "fail_closed"
evaluate_target policy request subject now (found tenant project) =
    evaluate_resolved policy request subject now tenant project

unfoldable pub evaluate : Policy → AuthorizationRequest → ResolvedSubject → Time → Decision
evaluate policy request subject now =
    let assurance = evaluate_assurance request subject.authn_class subject.mfa subject.session in
    if not (known_action request.action)
    then denied_by IamError.unknown_action "fail_closed"
    else elim assurance.err [
      | some _ ↦ assurance
      | none ↦
          if action_eq request.action tenant_recover && not request.break_glass
          then denied_by IamError.break_glass "break_glass_required"
          else evaluate_target policy request subject now (resolve_target policy request.target)
    ]
