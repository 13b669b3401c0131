-- ===== src/Iam/Denials.antt =====
-- pkg/iam/policy.go: which error the role rules give, where they refuse a request.
use cloud_ring.Prelude.{
  true, ◌≡◌, ◌⊎◌, inl, inr, ◌↔◌, none, some, List, [], ◌∷◌, arith, eq_iff, Bool-cases,
}
use cloud_ring.Prelude.Lists.{Some}
use cloud_ring.Iam.Types.{
  platform_admin, Membership, TargetRef, AuthorizationRequest, IamError, Role, is_platform_admin,
}
use cloud_ring.Iam.Rules.{role_allows, has_tenant_access, has_access_by, denied_by, allowed_by}
use cloud_ring.Iam.Policy.{ResolvedSubject, role_decision}
use cloud_ring.Iam.Roles.{Grants, role_allows_iff, role_allows-has_tenant_access}

-- A membership reaches a target: a platform administrator's any, another that of its organization
-- and its tenant, and of its project if it has one.
abbrev pub Reaches : TargetRef → Membership → Type 0
Reaches t m =
    (m.role ≡ platform_admin)
    ⊎ ((m.org_id ≡ t.org_id)
        × (m.tenant_id ≡ t.tenant_id)
        × ((m.project_id ≡ "") ⊎ (m.project_id ≡ t.project_id)))

is_platform_admin_iff : (r : Role) → (is_platform_admin r ≡ true) ↔ (r ≡ platform_admin)
is_platform_admin_iff r = ground arith

has_access_by_sound :
    (ms : List Membership) (t : TargetRef) → has_access_by ms t ≡ true → Some (Reaches t) ms
unfolding has_access_by
has_access_by_sound [] t h = cc h
has_access_by_sound (m ∷ ms) t h = ground (
  arith,
  is_platform_admin_iff m.role,
  eq_iff m.org_id t.org_id,
  eq_iff m.tenant_id t.tenant_id,
  eq_iff m.project_id "",
  eq_iff m.project_id t.project_id,
  has_access_by_sound ms t,
)

has_access_by_complete :
    (ms : List Membership) (t : TargetRef) → Some (Reaches t) ms → has_access_by ms t ≡ true
unfolding has_access_by
has_access_by_complete [] t g = elim g [ ]
has_access_by_complete (m ∷ ms) t g = ground (
  arith,
  is_platform_admin_iff m.role,
  eq_iff m.org_id t.org_id,
  eq_iff m.tenant_id t.tenant_id,
  eq_iff m.project_id "",
  eq_iff m.project_id t.project_id,
  has_access_by_complete ms t,
)

-- The role rules give no error exactly when some membership of the subject grants the action on the
-- target, the error of cross-tenant access exactly when none reaches the target, and the error of a
-- denied role exactly when some reaches the target and none grants the action on it.
pub role_decision_errors :
    (r : AuthorizationRequest) (s : ResolvedSubject)
    → (((role_decision r s).err ≡ none) ↔ Some (Grants r.action r.target) s.principal.memberships)
      × (((role_decision r s).err ≡ some IamError.cross_tenant)
          ↔ ¬ Some (Reaches r.target) s.principal.memberships)
      × (((role_decision r s).err ≡ some IamError.role_denied) ↔ (
          Some (Reaches r.target) s.principal.memberships
          × ¬ Some (Grants r.action r.target) s.principal.memberships))
unfolding role_decision denied_by allowed_by has_tenant_access
role_decision_errors r s =
    let grants = role_allows_iff s.principal r.action r.target in
    let access = role_allows-has_tenant_access s.principal r.action r.target in
    let reaches = has_access_by_sound s.principal.memberships r.target in
    let reached = has_access_by_complete s.principal.memberships r.target in
    elim (Bool-cases (role_allows s.principal r.action r.target)) [
      | inl e ↦ ground (arith, grants, access, reaches, reached)
      | inr e ↦ ground (arith, grants, access, reaches, reached)
    ]
