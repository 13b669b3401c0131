-- ===== src/Iam/Permits.antt =====
-- What pkg/iam's evaluate permits, stated without its order of checks: the parts of a request, of
-- the directory and of the credential that a permission rests on.
pub mod Credentials
pub mod Guards
pub mod Assurance
pub mod Evaluate
use cloud_ring.Prelude.{ℕ, ◌<◌, String, Bool, true, false, ◌≡◌, ◌≢◌, ◌⊎◌, Option, some, List}
use cloud_ring.Prelude.Lists.{Some, lookup}
use cloud_ring.Prelude.Int.{pos, leb_ℤ}
use cloud_ring.Prelude.Time.{Time}
use cloud_ring.Prelude.Text.{is_blank}
use cloud_ring.Iam.Types.{
  Action, project_read, tenant_export, tenant_recover, owner_remove, TenantState, active, suspended,
  deleting, recovering, exporting, short_lived_api_token, fresh, absent, AuthorizationRequest,
  Organization, Tenant, Project, NamespaceScope, Principal, ApiToken, SupportGrant, TargetRef,
}
use cloud_ring.Iam.Rules.{known_action, known_satisfied_mfa_method, normalized_mfa, principal_owns}
use cloud_ring.Iam.Policy.{Policy, ResolvedSubject, removing_last_owner}
use cloud_ring.Iam.Roles.{Grants}

-- The lifecycle states in which an action is still served.
pub data LifecycleMay : TenantState → Action → Type 0 where
  active_any : (a : Action) → LifecycleMay active a
  suspended_exports : LifecycleMay suspended tenant_export
  suspended_recovers : LifecycleMay suspended tenant_recover
  suspended_reads : LifecycleMay suspended project_read
  deleting_exports : LifecycleMay deleting tenant_export
  deleting_reads : LifecycleMay deleting project_read
  recovering_recovers : LifecycleMay recovering tenant_recover
  recovering_reads : LifecycleMay recovering project_read
  exporting_exports : LifecycleMay exporting tenant_export
  exporting_reads : LifecycleMay exporting project_read

abbrev pub Lists : Action → List Action → Type 0
Lists action = Some (λ a. a ≡ action)

-- The target names an organization, a tenant of it and a project of that.
pub record Resolves (p : Policy) (target : TargetRef) (tenant : Tenant) (project : Project)
    : Type 0 where
  pub organization : Organization
  pub organization_found : lookup target.org_id p.organizations ≡ some organization
  pub organization_id : organization.id ≡ target.org_id
  pub tenant_found : lookup target.tenant_id p.tenants ≡ some tenant
  pub tenant_id : tenant.id ≡ target.tenant_id
  pub tenant_org : tenant.org_id ≡ target.org_id
  pub project_found : lookup target.project_id p.projects ≡ some project
  pub project_id : project.id ≡ target.project_id
  pub project_tenant : project.tenant_id ≡ target.tenant_id
  pub project_org : project.org_id ≡ target.org_id

abbrev pub InScope : TargetRef → Project → Action → Type 0
InScope target project action =
    (target.namespace ≢ "")
    × ((project.namespace ≡ target.namespace)
        ⊎ Some (λ (s : NamespaceScope). (s.namespace ≡ target.namespace) × Lists action s.actions)
            project.scopes)

-- Multi-factor assurance where it is required, and a session that fits the class.
pub record IsAssured (r : AuthorizationRequest) (s : ResolvedSubject) : Type 0 where
  pub mfa :
      (normalized_mfa r s.authn_class s.mfa).required ≡ true
      → (s.mfa.satisfied ≡ true) × (known_satisfied_mfa_method s.mfa.method_class ≡ true)
  pub no_reauthentication : s.session.reauthentication_required ≡ false
  pub token_session :
      s.authn_class ≡ short_lived_api_token
      → (s.session.state ≡ absent) × (s.session.max_age_seconds ≡ pos 0)
  pub browser_session :
      s.authn_class ≢ short_lived_api_token
      → (s.session.state ≡ fresh) × (leb_ℤ s.session.max_age_seconds (pos 0) ≡ false)

-- The person is an owner of the project, and not its last one.
abbrev pub Removable : Policy → String → Project → Type 0
Removable p who project =
    (q : Principal) × (lookup who p.principals ≡ some q)
    × (q.id ≡ who)
    × (principal_owns q project ≡ true)
    × (removing_last_owner p who project ≡ false)

abbrev pub SupportPermits : AuthorizationRequest → ResolvedSubject → Time → SupportGrant → Type 0
SupportPermits r s now grant =
    (grant.reference ≡ r.support_grant_ref)
    × (grant.subject_id ≡ s.principal.id)
    × (s.principal.support ≡ true)
    × (is_blank r.context.ticket_ref ≡ false)
    × (r.context.ticket_ref ≡ grant.ticket_ref)
    × (is_blank r.context.reason ≡ false)
    × (is_blank grant.reason ≡ false)
    × (now < grant.expires_at)
    × (grant.tenant_id ≡ r.target.tenant_id)
    × (grant.project_id ≡ r.target.project_id)
    × Lists r.action grant.actions

abbrev pub TokenPermits : AuthorizationRequest → Time → ApiToken → Type 0
TokenPermits r now token =
    (token.revoked_at ≡ 0)
    × (now < token.expires_at)
    × (token.tenant_id ≡ r.target.tenant_id)
    × (token.project_id ≡ r.target.project_id)
    × (token.secret_hash_ref ≢ "")
    × Lists r.action token.scopes

-- The credential that carries the request permits it.
pub data CredentialPermits (p : Policy) (r : AuthorizationRequest) (s : ResolvedSubject)
    (now : Time) : Type 0 where
  by_break_glass :
      r.break_glass ≡ true
      → is_blank r.context.reason ≡ false
      → is_blank r.context.ticket_ref ≡ false
      → Some (Grants tenant_recover r.target) s.principal.memberships
      → CredentialPermits p r s now
  by_support :
      r.break_glass ≡ false
      → r.support_grant_ref ≢ ""
      → (grant : SupportGrant) → lookup r.support_grant_ref p.support_grants ≡ some grant
      → SupportPermits r s now grant
      → CredentialPermits p r s now
  by_token :
      r.break_glass ≡ false
      → r.support_grant_ref ≡ ""
      → r.subject.api_token_ref ≢ ""
      → TokenPermits r now s.api_grant
      → CredentialPermits p r s now
  by_role :
      r.break_glass ≡ false
      → r.support_grant_ref ≡ ""
      → r.subject.api_token_ref ≡ ""
      → Some (Grants r.action r.target) s.principal.memberships
      → CredentialPermits p r s now

pub record Permits (p : Policy) (r : AuthorizationRequest) (s : ResolvedSubject) (now : Time)
    : Type 0 where
  pub known : known_action r.action ≡ true
  pub assured : IsAssured r s
  pub recovers_by_break_glass : r.action ≡ tenant_recover → r.break_glass ≡ true
  pub tenant : Tenant
  pub project : Project
  pub resolves : Resolves p r.target tenant project
  pub in_scope : InScope r.target project r.action
  pub lifecycle : LifecycleMay tenant.state r.action
  pub owner_kept : r.action ≡ owner_remove → Removable p r.context.target_principal project
  pub credential : CredentialPermits p r s now
