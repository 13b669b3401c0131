-- ===== src/Iam/State.antt =====
-- pkg/iam/state_loader.go: the state of a policy and its validation.
use cloud_ring.Prelude.{
  String, Bool, true, false, not, ◌&&◌, ◌||◌, Option, none, some, List, [], ◌∷◌, ◌==◌,
  if◌then◌else◌,
}
use cloud_ring.Prelude.Lists.{Map, lookup}
use cloud_ring.Iam.Types.{
  Action, Role, TenantState, Organization, Tenant, NamespaceScope, Project, Membership, Principal,
  ApiToken, SupportGrant, no_principal,
}
use cloud_ring.Iam.Rules.{known_action}

pub record PolicyState : Type 0 where
  pub organizations : Map Organization
  pub tenants : Map Tenant
  pub projects : Map Project
  pub principals : Map Principal
  pub api_tokens : Map ApiToken
  pub support_grants : Map SupportGrant

unfoldable pub known_tenant_state : TenantState → Bool
known_tenant_state (TenantState.other _) = false
known_tenant_state _ = true

unfoldable pub known_role : Role → Bool
known_role (Role.other _) = false
known_role _ = true

unfoldable pub known_actions : List Action → Bool
known_actions [] = true
known_actions (action ∷ actions) = known_action action && known_actions actions

unfoldable pub is_empty {ℓ} : {A : Type ℓ} → List A → Bool
is_empty [] = true
is_empty (x ∷ xs) = false

-- The range over a map: the first error of its entries.
unfoldable pub range_error {ℓ} : {V : Type ℓ} → (String → V → Option String) → Map V → Option String
range_error check [] = none
range_error check ((reference, value) ∷ entries) = elim (check reference value) [
  | some e ↦ some e
  | none ↦ range_error check entries
]

unfoldable pub organization_error : String → Organization → Option String
organization_error reference organization =
    if reference == "" || not (organization.id == reference)
    then some "iam: organization reference mismatch"
    else none

unfoldable pub tenant_error : PolicyState → String → Tenant → Option String
tenant_error state reference tenant =
    if reference == "" || not (tenant.id == reference) || tenant.org_id == ""
    then some "iam: tenant reference mismatch"
    else elim (lookup tenant.org_id state.organizations) [
      | none ↦ some "iam: tenant organization or lifecycle is invalid"
      | some _ ↦
          if not (known_tenant_state tenant.state)
          then some "iam: tenant organization or lifecycle is invalid"
          else none
    ]

unfoldable pub scopes_error : List NamespaceScope → Option String
scopes_error [] = none
scopes_error (scope ∷ scopes) =
    if scope.namespace == "" || is_empty scope.actions
    then some "iam: project namespace scope is invalid"
    else if not (known_actions scope.actions)
    then some "iam: project namespace scope contains an unknown action"
    else scopes_error scopes

unfoldable pub project_error : PolicyState → String → Project → Option String
project_error state reference project = elim (lookup project.tenant_id state.tenants) [
  | none ↦ some "iam: project reference or tenant boundary is invalid"
  | some tenant ↦
      if reference == ""
        || not (project.id == reference)
        || project.org_id == ""
        || not (tenant.org_id == project.org_id)
        || project.namespace == ""
      then some "iam: project reference or tenant boundary is invalid"
      else scopes_error project.scopes
]

-- The project of a membership that names one.
unfoldable pub project_membership_valid : PolicyState → Membership → Bool
project_membership_valid state membership = elim (lookup membership.project_id state.projects) [
  | none ↦ false
  | some project ↦ project.tenant_id == membership.tenant_id && project.org_id == membership.org_id
]

unfoldable pub membership_error : PolicyState → Membership → Option String
membership_error state membership = elim (lookup membership.tenant_id state.tenants) [
  | none ↦ some "iam: principal membership boundary is invalid"
  | some tenant ↦
      if not (tenant.org_id == membership.org_id) || not (known_role membership.role)
      then some "iam: principal membership boundary is invalid"
      else if not (membership.project_id == "") && not (project_membership_valid state membership)
      then some "iam: principal project membership is invalid"
      else none
]

unfoldable pub memberships_error : PolicyState → List Membership → Option String
memberships_error state [] = none
memberships_error state (membership ∷ memberships) = elim (membership_error state membership) [
  | some e ↦ some e
  | none ↦ memberships_error state memberships
]

unfoldable pub principal_error : PolicyState → String → Principal → Option String
principal_error state reference principal =
    if reference == "" || not (principal.id == reference)
    then some "iam: principal reference mismatch"
    else memberships_error state principal.memberships

-- state.Principals[id].ID, where a missing entry is the zero value
unfoldable pub principal_id : PolicyState → String → String
principal_id state id = elim (lookup id state.principals) [
  | none ↦ no_principal.id
  | some principal ↦ principal.id
]

-- The boundary of a token or a grant: its subject, and its project of the tenant.
unfoldable pub grant_bound : PolicyState → String → String → String → Bool
grant_bound state subject_id project_id tenant_id =
    principal_id state subject_id == subject_id && elim (lookup project_id state.projects) [
      | none ↦ false
      | some project ↦ project.tenant_id == tenant_id
    ]

unfoldable pub token_error : PolicyState → String → ApiToken → Option String
token_error state reference token =
    if reference == ""
      || not (token.reference == reference)
      || token.secret_hash_ref == ""
      || not (grant_bound state token.subject_id token.project_id token.tenant_id)
      || is_empty token.scopes
    then some "iam: api token reference or scope is invalid"
    else if not (known_actions token.scopes)
    then some "iam: api token contains an unknown action"
    else none

unfoldable pub grant_error : PolicyState → String → SupportGrant → Option String
grant_error state reference grant =
    if reference == ""
      || not (grant.reference == reference)
      || not (grant_bound state grant.subject_id grant.project_id grant.tenant_id)
      || is_empty grant.actions
    then some "iam: support grant reference or scope is invalid"
    else if not (known_actions grant.actions)
    then some "iam: support grant contains an unknown action"
    else none

-- The error of `first`, or else that of `second`.
abbrev pub or_else : Option String → Option String → Option String
or_else first second = elim first [ some e ↦ some e | none ↦ second ]

unfoldable pub validate_policy_state : PolicyState → Option String
validate_policy_state state =
    if is_empty state.organizations
      || is_empty state.tenants
      || is_empty state.projects
      || is_empty state.principals
    then some "iam: policy state requires organizations, tenants, projects, and principals"
    else or_else (range_error organization_error state.organizations) (
        or_else (range_error (tenant_error state) state.tenants) (
          or_else (range_error (project_error state) state.projects) (
            or_else (range_error (principal_error state) state.principals) (
              or_else (range_error (token_error state) state.api_tokens)
                (range_error (grant_error state) state.support_grants)))))
